-- ===== src/Admin/Reply.antt =====
-- The one-byte answers of the management protocol. `admin_put_marshall`, `admin_edit_marshall`,
-- `admin_delete_marshall`, `admin_configbuff_marshall` and `admin_configstatus_marshalll` have one text,
-- `answer_all`; `admin_connect_marshall` is `answer_one`.
use tp_socks5_proxy.Base.{
  ℕ, ◌+◌, ◌-◌, ◌≤◌, ◌<◌, ◌≡◌, refl, Option, some, [], ◌∷◌, ◌++◌, Bytes, if◌then◌else◌, ◌>>=◌, arith,
  length, get_elem?, ap, sym, ltb, le→ltb, lt→ltb,
}
use tp_socks5_proxy.Buffer.{Buffer, ℤ, pos, negsuc, write_ptr, poke, write_adv, returning}
use tp_socks5_proxy.Buffer.Holds.{Holds, HasRoom}
use tp_socks5_proxy.Buffer.Queue.{write_ptr-Holds}
use tp_socks5_proxy.Buffer.Reply.{reply_lem, flood_lem}

pub answer_one : Buffer → ℕ → Option (ℤ × Buffer)
answer_one b status = do
  n ← write_ptr b
  if ltb n 1
      then returning (negsuc 0) b
      else (do m ← poke b (status ∷ []); b' ← write_adv m (pos 1); returning (pos 1) b')

-- The pointer moves by `n`, which is all of the room.
pub answer_all : Buffer → ℕ → Option (ℤ × Buffer)
answer_all b status = do
  n ← write_ptr b
  if ltb n 1
      then returning (negsuc 0) b
      else (do m ← poke b (status ∷ []); b' ← write_adv m (pos n); returning (pos 1) b')

module _ {b : Buffer} {q : Bytes} (status : ℕ) (h : Holds b q) where
  -- The status goes behind what the buffer held.
  pub answer_one_room :
      HasRoom b 1
      → (b' : Buffer) × (answer_one b status ≡ some (pos 1, b')) × Holds b' (q ++ (status ∷ []))
  unfolding answer_one
  answer_one_room room =
      let (b', sent, held) = reply_lem (status ∷ []) 1 (pos 1) refl h room in
      (b', rw (write_ptr-Holds h, le→ltb (b.limit - b.write) 1 (omega arith)) sent, held)

  -- The status goes behind what the buffer held, and behind it whatever the storage held up to the
  -- limit: no room is left, though 1 is returned.
  pub answer_all_room :
      b.write < b.limit
      → b.limit ≤ length b.mem
      → (b' : Buffer) × (junk : Bytes) × (answer_all b status ≡ some (pos 1, b'))
        × Holds b' (q ++ (status ∷ junk))
        × (length junk + 1 ≡ b.limit - b.write)
  unfolding answer_all
  answer_all_room room enough =
      let (b', junk, sent, held, l) = flood_lem status (pos 1) h room enough in
      (b', junk, rw (write_ptr-Holds h, le→ltb (b.limit - b.write) 1 (omega arith)) sent, held, l)

  -- With no room -1 is returned, and the buffer stays as it was.
  pub answer_full :
      b.limit ≤ b.write
      → (answer_one b status ≡ some (negsuc 0, b)) × (answer_all b status ≡ some (negsuc 0, b))
  unfolding answer_one answer_all
  answer_full full = (
    rw (write_ptr-Holds h, lt→ltb (b.limit - b.write) 1 (omega arith)),
    rw (write_ptr-Holds h, lt→ltb (b.limit - b.write) 1 (omega arith)),
  )

-- A buffer that was reset, with an array that is not empty.
pub record Blank (b : Buffer) : Type 0 where
  pub read_at : b.read ≡ 0
  pub write_at : b.write ≡ 0
  pub wide : 0 < b.limit
  pub first : ℕ
  pub rest : Bytes
  pub layout : b.mem ≡ first ∷ rest

-- What `answer_all` makes of it: the status is in front, and the whole of the limit is to be sent.
abbrev pub Answered : Buffer → ℕ → Buffer → Type 0
Answered b status b' =
    (get_elem? b'.mem 0 ≡ some status)
    × (b'.read ≡ 0)
    × (b'.write ≡ b.limit)
    × (b'.limit ≡ b.limit)
    × (length b'.mem ≡ length b.mem)

pub answer_all_blank :
    {b : Buffer} (status : ℕ)
    → Blank b
    → (b' : Buffer) × (answer_all b status ≡ some (pos 1, b')) × Answered b status b'
unfolding answer_all poke write_adv write_ptr
answer_all_blank {b} status k = (
  record b { mem = status ∷ k.rest; write = b.limit },
  rw (k.layout, k.write_at) (ground (arith, k.wide)),
  (refl, k.read_at, refl, refl, sym (ap length k.layout)),
)
