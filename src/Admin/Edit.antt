-- ===== src/Admin/Edit.antt =====
-- src/parsers/admin_edit.c and include/parsers/admin_edit.h: the message that edits a user.
pub mod Message
use tp_socks5_proxy.Base.{
  ℕ, zero, suc, ◌≡◌, refl, Bool, true, false, ◌||◌, Option, none, some, [], ◌∷◌, Bytes,
  if◌then◌else◌, ◌>>=◌, ◌==◌, leb, add8, store, replicate,
}
use tp_socks5_proxy.Buffer.{Buffer, ℤ}
use tp_socks5_proxy.Parsing.{Parser, Flag, raise, consume}
use tp_socks5_proxy.Admin.Reply.{answer_all}

pub data State : Type 0 where
  action field ulen username attribute valuelen value done : State
  error error_action error_field error_ulen error_attribute error_valuelen : State

-- `struct admin_edit_parser`.
pub record Edit : Type 0 where
  pub state : State
  pub ulen : ℕ
  pub username : Bytes
  pub field : ℕ
  pub action : ℕ
  pub attr : ℕ
  pub valuelen : ℕ
  pub value : Bytes
  pub remaining : ℕ
  pub read : ℕ
  pub status : ℕ

-- `admin_edit_parser_init`: the arrays and the other fields stay.
pub init : Edit → Edit
init p = record p { state = State.action; remaining = 0; read = 0 }

remaining_set : Edit → ℕ → Edit
remaining_set p n = record p { remaining = n; read = 0 }

remaining_is_done : Edit → Bool
remaining_is_done p = leb p.remaining p.read

edit_action : Edit → ℕ → Edit
edit_action p b =
    if b == 0x02
    then record p { action = b; state = State.field }
    else record p { state = error_action; status = 0x01 }

edit_field : Edit → ℕ → Edit
edit_field p b =
    if b == 0x00
    then record p { field = b; state = State.ulen }
    else record p { state = error_field; status = 0x02 }

feed_ulen : Edit → ℕ → Edit
unfolding remaining_set
feed_ulen p b =
    if leb b 0
    then record p { state = error_ulen; status = 0x03 }
    else (let p' = remaining_set p b in record p' { ulen = b; state = State.username })

edit_username : Edit → ℕ → Option Edit
unfolding remaining_is_done
edit_username p b = do
  a ← store p.username p.read b
  let q = record p { username = a; read = add8 p.read 1 }
  if remaining_is_done q
      then (do a' ← store a q.read 0; some (record q { username = a'; state = attribute }))
      else some (record q { state = State.username })

edit_attribute : Edit → ℕ → Edit
edit_attribute p b =
    if b == 0x00 || b == 0x01
    then record p { attr = b; state = State.valuelen }
    else record p { state = error_attribute; status = 0x04 }

feed_valuelen : Edit → ℕ → Edit
unfolding remaining_set
feed_valuelen p b =
    if leb b 0
    then record p { state = error_valuelen; status = 0x05 }
    else (let p' = remaining_set p b in record p' { valuelen = b; state = State.value })

edit_value : Edit → ℕ → Option Edit
unfolding remaining_is_done
edit_value p b = do
  a ← store p.value p.read b
  let q = record p { value = a; read = add8 p.read 1 }
  if remaining_is_done q
      then (do a' ← store a q.read 0; some (record q { value = a'; state = done; status = 0x00 }))
      else some (record q { state = State.value })

pub feed_in : State → Edit → ℕ → Option Edit
unfolding edit_action edit_field feed_ulen edit_username edit_attribute feed_valuelen edit_value
feed_in State.action p b = some (edit_action p b)
feed_in State.field p b = some (edit_field p b)
feed_in State.ulen p b = some (feed_ulen p b)
feed_in State.username p b = edit_username p b
feed_in attribute p b = some (edit_attribute p b)
feed_in State.valuelen p b = some (feed_valuelen p b)
feed_in State.value p b = edit_value p b
feed_in done p b = some (record p { status = 0x00 })
feed_in error p b = some (record p { status = 0x06 })
feed_in error_action p b = some (record p { status = 0x01 })
feed_in error_field p b = some (record p { status = 0x02 })
feed_in error_ulen p b = some (record p { status = 0x03 })
feed_in error_valuelen p b = some (record p { status = 0x05 })
feed_in error_attribute p b = some (record p { status = 0x04 })

pub feed : Edit → ℕ → Option Edit
unfolding feed_in
feed p b = feed_in p.state p b

-- `admin_edit_is_done`.
abbrev pub is_done : State → Flag → Bool × Flag
is_done error e = (true, raise e)
is_done error_action e = (true, raise e)
is_done error_field e = (true, raise e)
is_done error_ulen e = (true, raise e)
is_done error_valuelen e = (true, raise e)
is_done error_attribute e = (true, raise e)
is_done done e = (true, e)
is_done _ e = (false, e)

pub is_done_any : (s : State) (e e' : Flag) → (is_done s e).0 ≡ (is_done s e').0
is_done_any done e e' = refl
is_done_any _ e e' = refl

abbrev pub parser : Parser
parser = record {
  P = Edit;
  feed = feed;
  is_done = λ p. is_done p.state;
  is_done_any = λ p. is_done_any p.state;
}

unfoldable pub admin_edit_consume : Buffer → Edit → Flag → Option (Edit × Flag × Buffer)
admin_edit_consume = consume parser

-- `admin_edit_marshall`.
unfoldable pub marshall : Buffer → ℕ → Option (ℤ × Buffer)
marshall = answer_all
