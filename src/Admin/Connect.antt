-- ===== src/Admin/Connect.antt =====
-- src/parsers/admin_connect.c and include/parsers/admin_connect.h: the administrator's first message,
-- a version and a password.
pub mod Message
use tp_socks5_proxy.Base.{
  ℕ, zero, suc, ◌≡◌, refl, Bool, true, false, Option, none, some, [], ◌∷◌, Bytes, if◌then◌else◌,
  ◌>>=◌, ◌==◌, leb, add8, store, replicate,
}
use tp_socks5_proxy.Buffer.{Buffer, ℤ}
use tp_socks5_proxy.Parsing.{Parser, Flag, raise, consume}
use tp_socks5_proxy.Admin.Reply.{answer_one}

pub data State : Type 0 where
  version passlen passwd done error error_version error_passlen : State

-- `struct admin_connect_parser`; `struct password` is the pair of a length and `MAX_PASS_SIZE` bytes.
pub record Connect : Type 0 where
  pub state : State
  pub passlen : ℕ
  pub passwd : Bytes
  pub remaining : ℕ
  pub read : ℕ
  pub version : ℕ
  pub status : ℕ

-- The array after `memset`.
unfoldable pub blank : Bytes
blank = replicate 0xff 0

-- `admin_connect_parser_init`; the status stays.
pub init : Connect → Connect
init p = record p {
  state = State.version;
  passlen = 0;
  passwd = blank;
  version = 0x00;
  remaining = 0;
  read = 0;
}

remaining_set : Connect → ℕ → Connect
remaining_set p n = record p { remaining = n; read = 0 }

remaining_is_done : Connect → Bool
remaining_is_done p = leb p.remaining p.read

feed_passlen : Connect → ℕ → Connect
unfolding remaining_set
feed_passlen p b =
    if leb b 0
    then record p { state = error_passlen; status = 0x02 }
    else (let p' = remaining_set p b in record p' { passlen = b; state = State.passwd })

feed_passwd : Connect → ℕ → Option Connect
unfolding remaining_is_done
feed_passwd p b = do
  a ← store p.passwd p.read b
  let q = record p { passwd = a; read = add8 p.read 1 }
  if remaining_is_done q
      then (do a' ← store a q.read 0; some (record q { passwd = a'; state = done; status = 0x00 }))
      else some q

pub feed_in : State → Connect → ℕ → Option Connect
unfolding feed_passlen feed_passwd
feed_in State.version p b =
    if p.version == b
    then some (record p { state = State.passlen })
    else some (record p { state = error_version; status = 0x01 })
feed_in State.passlen p b = some (feed_passlen p b)
feed_in State.passwd p b = feed_passwd p b
feed_in done p b = some (record p { status = 0x00 })
feed_in error p b = some (record p { status = 0x03 })
feed_in error_version p b = some (record p { status = 0x01 })
feed_in error_passlen p b = some (record p { status = 0x02 })

pub feed : Connect → ℕ → Option Connect
unfolding feed_in
feed p b = feed_in p.state p b

-- `admin_connect_is_done`.
abbrev pub is_done : State → Flag → Bool × Flag
is_done error e = (true, raise e)
is_done error_passlen e = (true, raise e)
is_done error_version e = (true, raise e)
is_done done e = (true, e)
is_done _ e = (false, e)

pub is_done_any : (s : State) (e e' : Flag) → (is_done s e).0 ≡ (is_done s e').0
is_done_any done e e' = refl
is_done_any _ e e' = refl

abbrev pub parser : Parser
parser = record {
  P = Connect;
  feed = feed;
  is_done = λ p. is_done p.state;
  is_done_any = λ p. is_done_any p.state;
}

unfoldable pub admin_connect_consume : Buffer → Connect → Flag → Option (Connect × Flag × Buffer)
admin_connect_consume = consume parser

-- `admin_connect_marshall`.
unfoldable pub marshall : Buffer → ℕ → Option (ℤ × Buffer)
marshall = answer_one
