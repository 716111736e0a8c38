-- ===== src/Parsing.antt =====
-- The loop that every parser of src/parsers/ has for its own state, `hello_consume`,
-- `auth_consume`, `request_consume` and the `admin_..._consume`: bytes are taken from a buffer and
-- fed to the parser until the parser is done or the buffer is empty.
pub mod Stream
pub mod Collect
pub mod Chunks
pub mod Text
use tp_socks5_proxy.Base.{
  ◌≡◌, ℕ, zero, suc, ◌-◌, Bool, true, false, Option, none, some, List, [], ◌∷◌, Bytes,
  if◌then◌else◌, ◌>>=◌,
}
use tp_socks5_proxy.Buffer.{Buffer, can_read, read}

-- The `bool *errored` that the caller passes; `none` is NULL.
abbrev pub Flag : Type 0
Flag = Option Bool

-- `if (errored != 0) *errored = true;`
abbrev pub raise : Flag → Flag
raise none = none
raise (some e) = some true

-- What a parser gives the loop: its step, which may stop the program, and its test for a final
-- state, which returns whether the parser is done and the flag. The answer does not depend on the
-- flag. The C functions also return `p->state`; here it is read from the parser.
pub record Parser : Type 1 where
  pub P : Type 0
  pub feed : P → ℕ → Option P
  pub is_done : P → Flag → Bool × Flag
  pub is_done_any : (p : P) (e e' : Flag) → (is_done p e).0 ≡ (is_done p e').0

module _ (k : Parser) where
  -- `while (buffer_can_read(b)) { ... }`. Each round takes a byte, so the bytes at hand bound the
  -- rounds; with the fuel used up the loop would stop at `none`.
  pub consume_loop : ℕ → Buffer → k.P → Flag → Option (k.P × Flag × Buffer)
  consume_loop zero b p e = if can_read b then none else some (p, e, b)
  consume_loop (suc f) b p e =
      let more = λ (c : ℕ) (b' : Buffer). k.feed p c >>= λ p'.
      let (done, e') = k.is_done p' e in
      let rest = consume_loop f b' p' e' in if done then some (p', e', b') else rest in
      if can_read b then (read b >>= λ (c, b'). more c b') else some (p, e, b)

  unfoldable pub consume : Buffer → k.P → Flag → Option (k.P × Flag × Buffer)
  unfolding consume_loop
  consume b p e = consume_loop (b.write - b.read) b p e
