-- ===== src/Admin/Delete.antt =====
-- src/parsers/admin_delete.c and include/parsers/admin_delete.h: the message that deletes a user.
pub mod Message
use tp_socks5_proxy.Base.{
  ℕ, zero, suc, ◌≡◌, refl, Bool, true, false, ◌||◌, Option, none, some, [], ◌∷◌, Bytes,
  if◌then◌else◌, ◌>>=◌, ◌==◌, leb, add8, store, replicate,
}
use tp_socks5_proxy.Buffer.{Buffer, ℤ}
use tp_socks5_proxy.Parsing.{Parser, Flag, raise, consume}
use tp_socks5_proxy.Admin.Reply.{answer_all}

pub data State : Type 0 where
  action field ulen username done error error_action error_field error_ulen : State

-- `struct admin_delete_parser`.
pub record Delete : Type 0 where
  pub state : State
  pub ulen : ℕ
  pub username : Bytes
  pub field : ℕ
  pub action : ℕ
  pub read : ℕ
  pub remaining : ℕ
  pub status : ℕ

-- `admin_delete_parser_init`: the arrays and the other fields stay.
pub init : Delete → Delete
init p = record p { state = State.action; remaining = 0; read = 0 }

remaining_set : Delete → ℕ → Delete
remaining_set p n = record p { remaining = n; read = 0 }

remaining_is_done : Delete → Bool
remaining_is_done p = leb p.remaining p.read

delete_action : Delete → ℕ → Delete
delete_action p b =
    if b == 0x05
    then record p { action = b; state = State.field }
    else record p { state = error_action; status = 0x01 }

delete_field : Delete → ℕ → Delete
delete_field p b =
    if b == 0x00
    then record p { field = b; state = State.ulen }
    else record p { state = error_field; status = 0x02 }

feed_ulen : Delete → ℕ → Delete
unfolding remaining_set
feed_ulen p b =
    if leb b 0
    then record p { state = error_ulen; status = 0x03 }
    else (let p' = remaining_set p b in record p' { ulen = b; state = State.username })

delete_username : Delete → ℕ → Option Delete
unfolding remaining_is_done
delete_username p b = do
  a ← store p.username p.read b
  let q = record p { username = a; read = add8 p.read 1 }
  if remaining_is_done q
      then (do
        a' ← store a q.read 0
        some (record q { username = a'; state = done; status = 0x00 }))
      else some (record q { state = State.username })

pub feed_in : State → Delete → ℕ → Option Delete
unfolding delete_action delete_field feed_ulen delete_username
feed_in State.action p b = some (delete_action p b)
feed_in State.field p b = some (delete_field p b)
feed_in State.ulen p b = some (feed_ulen p b)
feed_in State.username p b = delete_username p b
feed_in done p b = some (record p { status = 0x00 })
feed_in error p b = some (record p { status = 0x04 })
feed_in error_action p b = some (record p { status = 0x01 })
feed_in error_field p b = some (record p { status = 0x02 })
feed_in error_ulen p b = some (record p { status = 0x03 })

pub feed : Delete → ℕ → Option Delete
unfolding feed_in
feed p b = feed_in p.state p b

-- `admin_delete_is_done`.
abbrev pub is_done : State → Flag → Bool × Flag
is_done error e = (true, raise e)
is_done error_action e = (true, raise e)
is_done error_field e = (true, raise e)
is_done error_ulen e = (true, raise e)
is_done done e = (true, e)
is_done _ e = (false, e)

pub is_done_any : (s : State) (e e' : Flag) → (is_done s e).0 ≡ (is_done s e').0
is_done_any done e e' = refl
is_done_any _ e e' = refl

abbrev pub parser : Parser
parser = record {
  P = Delete;
  feed = feed;
  is_done = λ p. is_done p.state;
  is_done_any = λ p. is_done_any p.state;
}

unfoldable pub admin_delete_consume : Buffer → Delete → Flag → Option (Delete × Flag × Buffer)
admin_delete_consume = consume parser

-- `admin_delete_marshall`.
unfoldable pub marshall : Buffer → ℕ → Option (ℤ × Buffer)
marshall = answer_all
