-- ===== src/Buffer/Queue.antt =====
-- `buffer_read`, `buffer_write` and the pointers' moves, on a buffer that holds a queue.
use tp_socks5_proxy.Base.{
  ℕ, zero, suc, ◌+◌, ◌-◌, ◌≤◌, ◌≡◌, refl, sym, ap, subst, ◌∙◌, some, [], ◌∷◌, ◌++◌, append_assoc,
  Bytes, arith, length, take, get_elem?, drop, blit, blit-append, take-append-drop, length-take,
  length-append, ltb, lt→ltb, le→ltb, ◌>>=◌,
}
use tp_socks5_proxy.Buffer.{
  Buffer, pos, can_read, can_write, write_ptr, read, write, write_adv, read_adv, compact, poke,
}
use tp_socks5_proxy.Buffer.Holds.{Holds, HasRoom}

get_elem?-append :
    (pre post : Bytes) (x k : ℕ) → k ≡ length pre → get_elem? (pre ++ (x ∷ post)) k ≡ some x
get_elem?-append [] post x zero h = refl
get_elem?-append [] post x (suc k) h = absurd (omega arith)
get_elem?-append (y ∷ pre) post x zero h = absurd (omega arith)
get_elem?-append (y ∷ pre) post x (suc k) h = get_elem?-append pre post x k (omega arith)

pub can_read-Holds : {b : Buffer} {q : Bytes} → Holds b q → can_read b ≡ ltb 0 (length q)
unfolding can_read
can_read-Holds h = ground (arith, h.read_at, h.write_at)

pub write_ptr-Holds : {b : Buffer} {q : Bytes} → Holds b q → write_ptr b ≡ some (b.limit - b.write)
unfolding write_ptr
write_ptr-Holds h = ground (arith, h.within)

-- Reading takes the oldest byte of the queue.
pub read_cons :
    {b : Buffer} {c : ℕ} (q : Bytes)
    → Holds b (c ∷ q)
    → (b' : Buffer) × (read b ≡ some (c, b')) × Holds b' q × (b'.limit ≡ b.limit)
unfolding read can_read read_adv compact
read_cons {b} {c} [] h = (
  record b { read = 0; write = 0 },
  ground (arith, h.read_at, h.write_at, byte),
  record {
    pre = [];
    post = b.mem;
    layout = refl;
    read_at = refl;
    write_at = omega arith;
    within = omega arith;
    storage = h.storage;
  },
  refl,
)
  where
    byte : get_elem? b.mem b.read ≡ some c
    byte =
        subst (λ m. get_elem? m b.read ≡ some c) (sym h.layout)
          (get_elem?-append h.pre h.post c b.read h.read_at)
read_cons {b} {c} (d ∷ q) h = (
  record b { read = b.read + 1 },
  ground (arith, h.read_at, h.write_at, byte),
  record {
    pre = h.pre ++ (c ∷ []);
    post = h.post;
    layout = h.layout ∙ sym (append_assoc h.pre (c ∷ []) ((d ∷ q) ++ h.post));
    read_at = omega (arith, h.read_at, length-append h.pre (c ∷ []));
    write_at = omega (arith, h.write_at, length-append h.pre (c ∷ []));
    within = h.within;
    storage = h.storage;
  },
  refl,
)
  where
    byte : get_elem? b.mem b.read ≡ some c
    byte =
        subst (λ m. get_elem? m b.read ≡ some c) (sym h.layout)
          (get_elem?-append h.pre ((d ∷ q) ++ h.post) c b.read h.read_at)

-- With room for `n` bytes, the memory behind the queue splits after them.
room : {b : Buffer} {q : Bytes} (h : Holds b q) (n : ℕ) → HasRoom b n → length (take n h.post) ≡ n
room {b} {q} h n r = omega (
  arith,
  length-take n h.post,
  ap length h.layout,
  length-append h.pre (q ++ h.post),
  length-append q h.post,
  h.write_at,
  h.storage,
)

-- The bytes put at the write pointer, and the pointer moved by their number, stand at the end of
-- the queue.
pub poke_lem :
    {b : Buffer} {q : Bytes} (bs : Bytes)
    → Holds b q
    → HasRoom b (length bs)
    → (b' : Buffer) × ((poke b bs >>= λ m. write_adv m (pos (length bs))) ≡ some b')
      × Holds b' (q ++ bs)
      × (b'.limit ≡ b.limit)
unfolding poke write_adv
poke_lem {b} {q} bs h r = (
  record b { mem = mem'; write = b.write + length bs },
  rw stored (ground arith),
  record {
    pre = h.pre;
    post = drop (length bs) h.post;
    layout = refl;
    read_at = h.read_at;
    write_at = omega (arith, h.write_at, length-append q bs);
    within = r.0;
    storage = omega (arith, h.storage, same_length);
  },
  refl,
)
  where
    mem' : Bytes
    mem' = h.pre ++ ((q ++ bs) ++ drop (length bs) h.post)

    split : b.mem ≡ (h.pre ++ q) ++ (take (length bs) h.post ++ drop (length bs) h.post)
    split =
        h.layout
        ∙ ap (λ x. h.pre ++ (q ++ x)) (sym (take-append-drop (length bs) h.post))
        ∙ sym (append_assoc h.pre q _)

    stored : blit b.mem b.write bs ≡ some mem'
    stored =
        ap (λ m. blit m b.write bs) split
        ∙ blit-append bs (h.pre ++ q) (take (length bs) h.post) (drop (length bs) h.post) b.write
            (omega (arith, h.write_at, length-append h.pre q)) (room h (length bs) r)
        ∙ ap some (append_assoc h.pre q _ ∙ ap (◌++◌ h.pre) (sym (append_assoc q bs _)))

    same_length : length mem' ≡ length b.mem
    same_length = omega (
      arith,
      room h (length bs) r,
      ap length split,
      length-append (h.pre ++ q) (take (length bs) h.post ++ drop (length bs) h.post),
      length-append (take (length bs) h.post) (drop (length bs) h.post),
      length-append h.pre q,
      length-append h.pre ((q ++ bs) ++ drop (length bs) h.post),
      length-append (q ++ bs) (drop (length bs) h.post),
      length-append q bs,
    )

-- Writing appends a byte while there is room behind the queue.
pub write_room :
    {b : Buffer} {q : Bytes} (c : ℕ)
    → Holds b q
    → HasRoom b 1
    → (b' : Buffer) × (write b c ≡ some b') × Holds b' (q ++ (c ∷ [])) × (b'.limit ≡ b.limit)
unfolding write can_write poke
write_room {b} {q} c h r =
    let (b', e, held, l) = poke_lem (c ∷ []) h r in
    (b', rw (lt→ltb 0 (b.limit - b.write) (omega arith)) (ground arith), held, l)

-- With no room `buffer_write` drops the byte.
pub write_full :
    {b : Buffer} {q : Bytes} (c : ℕ) → Holds b q → b.limit ≤ b.write → write b c ≡ some b
unfolding write can_write
write_full {b} c h r = rw (le→ltb 0 (b.limit - b.write) (omega arith))

-- Of the empty queue the byte 0 is read, and the buffer stays.
pub read_nil : {b : Buffer} → Holds b [] → read b ≡ some (0, b)
unfolding read can_read
read_nil {b} h = rw (le→ltb 0 (b.write - b.read) (omega (arith, h.read_at, h.write_at)))
