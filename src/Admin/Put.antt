-- ===== src/Admin/Put.antt =====
-- src/parsers/admin_put.c and include/parsers/admin_put.h: the message that adds a user.
pub mod Message
use tp_socks5_proxy.Base.{
  ℕ, zero, suc, ◌≡◌, refl, Bool, true, false, ◌||◌, Option, none, some, [], ◌∷◌, Bytes,
  if◌then◌else◌, ◌>>=◌, ◌==◌, leb, add8, store, replicate,
}
use tp_socks5_proxy.Buffer.{Buffer, ℤ}
use tp_socks5_proxy.Parsing.{Parser, Flag, raise, consume}
use tp_socks5_proxy.Admin.Reply.{answer_all}

pub data State : Type 0 where
  action field namelen name passlen pass done : State
  error error_action error_field error_namelen error_passlen : State

-- `struct admin_put_parser`, with the fields of its `user` and its `pass`.
pub record Put : Type 0 where
  pub state : State
  pub field : ℕ
  pub action : ℕ
  pub userlen : ℕ
  pub username : Bytes
  pub passlen : ℕ
  pub passwd : Bytes
  pub remaining : ℕ
  pub read : ℕ
  pub status : ℕ

-- An array after `memset`.
unfoldable pub blank : Bytes
blank = replicate 0xff 0

-- `admin_put_parser_init`; `field`, `action` and `status` stay.
pub init : Put → Put
init p = record p {
  state = State.action;
  userlen = 0;
  username = blank;
  passlen = 0;
  passwd = blank;
  remaining = 0;
  read = 0;
}

remaining_set : Put → ℕ → Put
remaining_set p n = record p { remaining = n; read = 0 }

remaining_is_done : Put → Bool
remaining_is_done p = leb p.remaining p.read

feed_namelen : Put → ℕ → Put
unfolding remaining_set
feed_namelen p b =
    if leb b 0
    then record p { state = error_namelen; status = 0x03 }
    else (let p' = remaining_set p b in record p' { userlen = b; state = name })

feed_name : Put → ℕ → Option Put
unfolding remaining_is_done
feed_name p b = do
  a ← store p.username p.read b
  let q = record p { username = a; read = add8 p.read 1 }
  if remaining_is_done q
      then (do a' ← store a q.read 0; some (record q { username = a'; state = State.passlen }))
      else some (record q { state = name })

feed_passlen : Put → ℕ → Put
unfolding remaining_set
feed_passlen p b =
    if leb b 0
    then record p { state = error_passlen; status = 0x04 }
    else (let p' = remaining_set p b in record p' { passlen = b; state = pass })

feed_pass : Put → ℕ → Option Put
unfolding remaining_is_done
feed_pass p b = do
  a ← store p.passwd p.read b
  let q = record p { passwd = a; read = add8 p.read 1 }
  if remaining_is_done q
      then (do a' ← store a q.read 0; some (record q { passwd = a'; state = done; status = 0x00 }))
      else some (record q { state = pass })

pub feed_in : State → Put → ℕ → Option Put
unfolding feed_namelen feed_name feed_passlen feed_pass
feed_in State.action p b =
    if b == 0x01
    then some (record p { state = State.field })
    else some (record p { state = error_action; status = 0x01 })
feed_in State.field p b =
    if b == 0x00
    then some (record p { state = namelen })
    else some (record p { state = error_field; status = 0x02 })
feed_in namelen p b = some (feed_namelen p b)
feed_in name p b = feed_name p b
feed_in State.passlen p b = some (feed_passlen p b)
feed_in pass p b = feed_pass p b
feed_in done p b = some (record p { status = 0x00 })
feed_in error p b = some (record p { status = 0x05 })
feed_in error_action p b = some (record p { status = 0x01 })
feed_in error_field p b = some (record p { status = 0x02 })
feed_in error_namelen p b = some (record p { status = 0x03 })
feed_in error_passlen p b = some (record p { status = 0x04 })

pub feed : Put → ℕ → Option Put
unfolding feed_in
feed p b = feed_in p.state p b

-- `admin_put_is_done`.
abbrev pub is_done : State → Flag → Bool × Flag
is_done error e = (true, raise e)
is_done error_action e = (true, raise e)
is_done error_field e = (true, raise e)
is_done error_namelen e = (true, raise e)
is_done error_passlen e = (true, raise e)
is_done done e = (true, e)
is_done _ e = (false, e)

pub is_done_any : (s : State) (e e' : Flag) → (is_done s e).0 ≡ (is_done s e').0
is_done_any done e e' = refl
is_done_any _ e e' = refl

abbrev pub parser : Parser
parser = record {
  P = Put;
  feed = feed;
  is_done = λ p. is_done p.state;
  is_done_any = λ p. is_done_any p.state;
}

unfoldable pub admin_put_consume : Buffer → Put → Flag → Option (Put × Flag × Buffer)
admin_put_consume = consume parser

-- `admin_put_marshall`.
unfoldable pub marshall : Buffer → ℕ → Option (ℤ × Buffer)
marshall = answer_all
