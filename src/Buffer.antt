-- ===== src/Buffer.antt =====
-- src/buffer.c and include/buffer.h: a byte buffer with a read and a write pointer into an array
-- that the caller owns. The pointers are offsets from `data`; a buffer is passed and returned.
-- `none` is a failed `assert` or an access outside of the array.
pub mod Holds
pub mod Queue
pub mod Compact
pub mod Reply
mod Tests
use tp_socks5_proxy.Base.{
  ℕ, ◌+◌, ◌-◌, ◌<◌, Bool, true, false, Option, none, some, List, [], ◌∷◌, ◌++◌, Bytes, ltb, leb,
  ◌==◌, if◌then◌else◌, ◌>>=◌, assert, store, blit, get_elem?, take, drop,
}

-- `struct buffer`. `mem` is the memory from `data` on.
pub record Buffer : Type 0 where
  pub mem : Bytes
  pub limit : ℕ
  pub read : ℕ
  pub write : ℕ

-- `ssize_t`: `negsuc n` is -(n + 1).
pub data ℤ : Type 0 where
  pos : ℕ → ℤ
  negsuc : ℕ → ℤ

unfoldable pub reset : Buffer → Buffer
reset b = record b { read = 0; write = 0 }

unfoldable pub init : ℕ → Bytes → Buffer
unfolding reset
init n storage = reset (record { mem = storage; limit = n; read = 0; write = 0 })

-- The C differences are of pointers with `write ≤ limit`; `-` stops at 0, and `0 <` is the test.
unfoldable pub can_write : Buffer → Bool
can_write b = ltb 0 (b.limit - b.write)

-- The number of bytes that may be written; the pointer itself is `write`.
unfoldable pub write_ptr : Buffer → Option ℕ
write_ptr b = assert (leb b.write b.limit) >>= λ _. some (b.limit - b.write)

unfoldable pub can_read : Buffer → Bool
can_read b = ltb 0 (b.write - b.read)

-- The number of bytes that may be read; the pointer itself is `read`.
unfoldable pub read_ptr : Buffer → Option ℕ
read_ptr b = assert (leb b.read b.write) >>= λ _. some (b.write - b.read)

unfoldable pub compact : Buffer → Buffer
compact b =
    if b.read == 0
    then b
    else if b.read == b.write
    then record b { read = 0; write = 0 }
    else record b {
      mem = take (b.write - b.read) (drop b.read b.mem) ++ drop (b.write - b.read) b.mem;
      read = 0;
      write = b.write - b.read;
    }

unfoldable pub write_adv : Buffer → ℤ → Option Buffer
write_adv b (pos n) =
    let b' = record b { write = b.write + n } in assert (leb b'.write b'.limit) >>= λ _. some b'
write_adv b (negsuc n) = some b

unfoldable pub read_adv : Buffer → ℤ → Option Buffer
read_adv b (pos n) =
    let b' = record b { read = b.read + n } in
    assert (leb b'.read b'.write) >>= λ _. some (if b'.read == b'.write then compact b' else b')
read_adv b (negsuc n) = some b

-- `buffer_read`: the byte, 0 if there is none, and the buffer after it.
unfoldable pub read : Buffer → Option (ℕ × Buffer)
read b =
    if can_read b
    then (do c ← get_elem? b.mem b.read; b' ← read_adv b (pos 1); some (c, b'))
    else some (0, b)

-- `buffer_write`: the byte is dropped where there is no room.
unfoldable pub write : Buffer → ℕ → Option Buffer
write b c =
    if can_write b
    then (do m ← store b.mem b.write c; write_adv (record b { mem = m }) (pos 1))
    else some b

-- What the users of `buffer_write_ptr` do: the bytes go to the write pointer, and the pointer moves
-- by their number.
unfoldable pub poke : Buffer → Bytes → Option Buffer
poke b bs = blit b.mem b.write bs >>= λ m. some (record b { mem = m })

-- A count returned beside the buffer.
abbrev pub returning : ℤ → Buffer → Option (ℤ × Buffer)
returning r b = some (r, b)
