-- ===== src/Socket.antt =====
-- What the handlers of a connection's states do with a socket: src/socks5_hello.c, src/socks5_auth.c,
-- src/socks5_request.c, src/socks5_copy.c and src/mng.c have the same lines around `recv` and `send`.
--
-- The operating system is the caller's: `Received` is what `recv` gives, and `Sent` what `send`
-- returns. `none` is -1; the bytes received are at most as many as were asked for.
pub mod Stream
use tp_socks5_proxy.Base.{
  ℕ, ◌+◌, ◌-◌, Bool, true, false, Option, none, some, [], ◌∷◌, Bytes, if◌then◌else◌, ◌>>=◌, assert,
  length, leb, take, drop,
}
use tp_socks5_proxy.Buffer.{Buffer, ℤ, pos, negsuc, write_ptr, read_ptr, write_adv, read_adv, poke}
use tp_socks5_proxy.Selector.{Selector, Status, success, selector_set_interest}

abbrev pub Received : Type 0
Received = Option Bytes

abbrev pub Sent : Type 0
Sent = Option ℕ

abbrev pub op_read : ℕ
op_read = 1

abbrev pub op_write : ℕ
op_write = 4

abbrev pub op_noop : ℕ
op_noop = 0

-- `buffer_write_ptr`, the bytes that `recv` puts there, and `buffer_write_adv` by their number.
unfoldable pub receive : Buffer → Bytes → Option Buffer
receive b bs = do _ ← write_ptr b; m ← poke b bs; write_adv m (pos (length bs))

-- The bytes that `send` is given: those from `buffer_read_ptr` on, which are inside of the storage.
unfoldable pub offered : Buffer → Option Bytes
offered b = do
  size ← read_ptr b
  _ ← assert (leb (b.read + size) (length b.mem))
  some (take size (drop b.read b.mem))

-- `buffer_read_ptr`, `send` of the bytes from there on, and `buffer_read_adv` by what it returned.
unfoldable pub deliver : Buffer → ℕ → Option Buffer
unfolding offered
deliver b n = do _ ← offered b; read_adv b (pos n)

-- `err`, which the parsers raise.
abbrev pub raised : Option Bool → Bool
raised none = false
raised (some e) = e

-- `SELECTOR_SUCCESS == status`.
abbrev pub is_success : Status → Bool
is_success success = true
is_success _ = false

-- The count that a marshall function returns is -1.
abbrev pub is_negative : ℤ → Bool
is_negative (pos n) = false
is_negative (negsuc n) = true
