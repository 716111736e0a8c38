-- ===== src/Hello.antt =====
-- src/parsers/hello.c and include/parsers/hello.h: the parser of the client's first message, its
-- version and the authentication methods that it offers, and the server's answer.
pub mod Message
mod Tests
use tp_socks5_proxy.Base.{
  ℕ, zero, suc, ◌-◌, ◌≡◌, refl, Bool, true, false, Option, none, some, List, [], ◌∷◌, Bytes,
  if◌then◌else◌, ◌>>=◌, ◌==◌, ltb, leb, dec8,
}
use tp_socks5_proxy.Buffer.{Buffer, ℤ, pos, negsuc, write_ptr, poke, write_adv, returning}
use tp_socks5_proxy.Parsing.{Parser, Flag, raise, consume}

pub data State : Type 0 where
  version nmethods methods done error_unsupported_version : State

-- `struct hello_parser`. `D` is the type behind `void *data`, and the callback, which may be NULL,
-- returns the data as it leaves them.
pub record Hello (D : Type 0) : Type 0 where
  pub on_auth_method : Option (D → ℕ → D)
  pub data_of : D
  pub state : State
  pub remaining : ℕ

module _ {D : Type 0} where
  pub init : Hello D → Hello D
  init p = record p { state = version; remaining = 0 }

  -- `if (NULL != p->on_auth_method) p->on_auth_method(p->data, b);`
  abbrev pub call : Option (D → ℕ → D) → D → ℕ → D
  call none d b = d
  call (some f) d b = f d b

  pub feed_in : State → Hello D → ℕ → Hello D
  feed_in version p b =
      if b == 0x05
      then record p { state = nmethods }
      else record p { state = error_unsupported_version }
  feed_in nmethods p b =
      let p' = record p { remaining = b } in
      if leb b 0 then record p' { state = done } else record p' { state = methods }
  feed_in methods p b =
      let p' = record p {
        data_of = call p.on_auth_method p.data_of b;
        remaining = dec8 p.remaining;
      } in
      if leb p'.remaining 0 then record p' { state = done } else p'
  feed_in done p b = p
  feed_in error_unsupported_version p b = p

  pub feed : Hello D → ℕ → Option (Hello D)
  unfolding feed_in
  feed p b = some (feed_in p.state p b)

-- `hello_is_done`.
abbrev pub is_done : State → Flag → Bool × Flag
is_done error_unsupported_version e = (true, raise e)
is_done done e = (true, e)
is_done _ e = (false, e)

pub is_done_any : (s : State) (e e' : Flag) → (is_done s e).0 ≡ (is_done s e').0
is_done_any done e e' = refl
is_done_any _ e e' = refl

abbrev pub parser : Type 0 → Parser
parser D = record {
  P = Hello D;
  feed = feed;
  is_done = λ p. is_done p.state;
  is_done_any = λ p. is_done_any p.state;
}

unfoldable pub hello_consume :
    {D : Type 0} → Buffer → Hello D → Flag → Option (Hello D × Flag × Buffer)
hello_consume {D} = consume (parser D)

-- `hello_marshalll`: the count of bytes written, or -1.
unfoldable pub marshall : Buffer → ℕ → Option (ℤ × Buffer)
marshall b method = do
  n ← write_ptr b
  if ltb n 2
      then returning (negsuc 0) b
      else (do m ← poke b (0x05 ∷ method ∷ []); b' ← write_adv m (pos 2); returning (pos 2) b')
