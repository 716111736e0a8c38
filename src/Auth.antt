-- ===== src/Auth.antt =====
-- src/parsers/auth.c and include/parsers/auth.h: the parser of the user name and password that the
-- client sends, and the server's answer.
pub mod Message
pub mod Sound
mod Tests
use tp_socks5_proxy.Base.{
  ℕ, zero, suc, ◌≡◌, refl, Bool, true, false, Option, none, some, [], ◌∷◌, Bytes, if◌then◌else◌,
  ◌>>=◌, ◌==◌, ltb, leb, add8, store, replicate,
}
use tp_socks5_proxy.Buffer.{Buffer, ℤ, pos, negsuc, write_ptr, poke, write_adv, returning}
use tp_socks5_proxy.Parsing.{Parser, Flag, raise, consume}

-- `MAX_USR_PASS_SIZE`.
abbrev pub max_usr_pass_size : ℕ
max_usr_pass_size = 0xff

pub data State : Type 0 where
  version userlen username passlen pass done : State
  error_unsupported_version error error_user_len error_pass_len : State

pub record User : Type 0 where
  pub userlen : ℕ
  pub username : Bytes

pub record Pass : Type 0 where
  pub passlen : ℕ
  pub passwd : Bytes

pub record Auth : Type 0 where
  pub state : State
  pub user : User
  pub pass : Pass
  pub remaining : ℕ
  pub read : ℕ
  pub version : ℕ

-- The arrays after `memset`.
unfoldable pub blank : Bytes
blank = replicate max_usr_pass_size 0

-- `auth_parser_init` sets every field.
abbrev pub init : Auth
init = record {
  state = State.version;
  user = record { userlen = 0; username = blank };
  pass = record { passlen = 0; passwd = blank };
  remaining = 0;
  read = 0;
  version = 0x01;
}

remaining_set : Auth → ℕ → Auth
remaining_set p n = record p { remaining = n; read = 0 }

remaining_is_done : Auth → Bool
remaining_is_done p = leb p.remaining p.read

feed_userlen : Auth → ℕ → Auth
unfolding remaining_set
feed_userlen p b =
    if leb b 0
    then record p { state = error_user_len }
    else (let p' = remaining_set p b in
        record p' { user = record (p.user) { userlen = b }; state = username })

-- A byte of the user name, and the terminator behind the last one.
feed_username : Auth → ℕ → Option Auth
unfolding remaining_is_done
feed_username p b = do
  a ← store p.user.username p.read b
  let p' = record p { user = record (p.user) { username = a }; read = add8 p.read 1 }
  if remaining_is_done p'
      then (do
        a' ← store a p'.read 0
        some (record p' { user = record (p.user) { username = a' }; state = passlen }))
      else some (record p' { state = username })

feed_passlen : Auth → ℕ → Auth
unfolding remaining_set
feed_passlen p b =
    if leb b 0
    then record p { state = error_pass_len }
    else (let p' = remaining_set p b in
        record p' { pass = record (p.pass) { passlen = b }; state = State.pass })

feed_pass : Auth → ℕ → Option Auth
unfolding remaining_is_done
feed_pass p b = do
  a ← store p.pass.passwd p.read b
  let p' = record p { pass = record (p.pass) { passwd = a }; read = add8 p.read 1 }
  if remaining_is_done p'
      then (do
        a' ← store a p'.read 0
        some (record p' { pass = record (p.pass) { passwd = a' }; state = done }))
      else some (record p' { state = State.pass })

pub feed_in : State → Auth → ℕ → Option Auth
unfolding feed_userlen feed_username feed_passlen feed_pass
feed_in State.version p b =
    if p.version == b
    then some (record p { state = userlen })
    else some (record p { state = error_unsupported_version })
feed_in userlen p b = some (feed_userlen p b)
feed_in username p b = feed_username p b
feed_in passlen p b = some (feed_passlen p b)
feed_in State.pass p b = feed_pass p b
feed_in _ p b = some p

pub feed : Auth → ℕ → Option Auth
unfolding feed_in
feed p b = feed_in p.state p b

-- `auth_is_done`.
abbrev pub is_done : State → Flag → Bool × Flag
is_done error_unsupported_version e = (true, raise e)
is_done error e = (true, raise e)
is_done error_pass_len e = (true, raise e)
is_done error_user_len e = (true, raise e)
is_done done e = (true, e)
is_done _ e = (false, e)

pub is_done_any : (s : State) (e e' : Flag) → (is_done s e).0 ≡ (is_done s e').0
is_done_any done e e' = refl
is_done_any _ e e' = refl

abbrev pub parser : Parser
parser = record {
  P = Auth;
  feed = feed;
  is_done = λ p. is_done p.state;
  is_done_any = λ p. is_done_any p.state;
}

unfoldable pub auth_consume : Buffer → Auth → Flag → Option (Auth × Flag × Buffer)
auth_consume = consume parser

-- `auth_marshall`: the count of bytes written, or -1.
unfoldable pub marshall : Buffer → ℕ → Option (ℤ × Buffer)
marshall b status = do
  n ← write_ptr b
  if ltb n 2
      then returning (negsuc 0) b
      else (do m ← poke b (0x01 ∷ status ∷ []); b' ← write_adv m (pos 2); returning (pos 2) b')
