-- ===== src/Buffer/Holds.antt =====
-- When a buffer holds a queue of bytes: the abstract view of src/buffer.c.
use tp_socks5_proxy.Base.{
  ℕ, suc, ◌+◌, ◌-◌, ◌≤◌, ◌<◌, ◌≡◌, refl, sym, ap, ◌∙◌, [], ◌++◌, append-nil, Bytes, arith, length,
  take, drop, take-append, drop-append,
}
use tp_socks5_proxy.Buffer.{Buffer, init}

-- The bytes between the pointers are `q`; `pre` was read, `post` is not written yet. The limit may be
-- one more than the storage, since the program gives the buffers of its connections such a limit.
pub record Holds (b : Buffer) (q : Bytes) : Type 0 where
  pub pre : Bytes
  pub post : Bytes
  pub layout : b.mem ≡ pre ++ (q ++ post)
  pub read_at : b.read ≡ length pre
  pub write_at : b.write ≡ length pre + length q
  pub within : b.write ≤ b.limit
  pub storage : b.limit ≤ suc (length b.mem)

-- `n` more bytes are inside of the limit and of the storage.
abbrev pub HasRoom : Buffer → ℕ → Type 0
HasRoom b n = (b.write + n ≤ b.limit) × (b.write + n ≤ length b.mem)

-- A limit that is not reached leaves room.
pub room_below : {b : Buffer} {q : Bytes} (n : ℕ) → Holds b q → b.write + n < b.limit → HasRoom b n
room_below n h l = (omega arith, omega (arith, h.storage))

-- The bytes between the two pointers.
abbrev pub contents : Buffer → Bytes
contents b = take (b.write - b.read) (drop b.read b.mem)

pub contents-Holds : {b : Buffer} {q : Bytes} → Holds b q → contents b ≡ q
contents-Holds {b} {q} h =
    ap (λ m. take (b.write - b.read) (drop b.read m)) h.layout
    ∙ ap (take (b.write - b.read)) (drop-append h.pre (q ++ h.post) b.read h.read_at)
    ∙ take-append q h.post (b.write - b.read) (omega (arith, h.read_at, h.write_at))

-- A new buffer over enough storage holds nothing.
pub init-Holds : (n : ℕ) (storage : Bytes) → n ≤ suc (length storage) → Holds (init n storage) []
unfolding init
init-Holds n storage h = record {
  pre = [];
  post = storage;
  layout = refl;
  read_at = refl;
  write_at = omega arith;
  within = omega arith;
  storage = h;
}

-- A buffer whose storage is just full of the bytes `q`.
abbrev pub loaded : Bytes → Buffer
loaded q = record { mem = q; limit = length q; read = 0; write = length q }

pub loaded-Holds : (q : Bytes) → Holds (loaded q) q
loaded-Holds q = record {
  pre = [];
  post = [];
  layout = sym (append-nil q);
  read_at = refl;
  write_at = omega arith;
  within = omega arith;
  storage = omega arith;
}
