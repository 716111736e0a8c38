-- ===== src/Buffer/Reply.antt =====
-- What the marshall functions of src/parsers/ do with a buffer: bytes at the write pointer, and then
-- the pointer moved. `r` is the count that they return.
use tp_socks5_proxy.Base.{
  ℕ, ◌+◌, ◌-◌, ◌≤◌, ◌<◌, ◌≡◌, sym, ap, ◌∙◌, some, [], ◌∷◌, ◌++◌, append_assoc, Bytes, arith, length,
  take, drop, take-append-drop, length-append, length-take, ◌>>=◌, bind_after, store, store-append,
}
use tp_socks5_proxy.Buffer.{Buffer, ℤ, pos, poke, write_adv, returning}
use tp_socks5_proxy.Buffer.Holds.{Holds, HasRoom}
use tp_socks5_proxy.Buffer.Queue.{poke_lem}

-- The pointer moved by the number of the bytes.
pub reply_lem :
    {b : Buffer} {q : Bytes} (bs : Bytes) (n : ℕ) (r : ℤ)
    → n ≡ length bs
    → Holds b q
    → HasRoom b n
    → (b' : Buffer) × ((poke b bs >>= λ m. write_adv m (pos n) >>= returning r) ≡ some (r, b'))
      × Holds b' (q ++ bs)
reply_lem {b} bs n r count h room =
    let (b', e, held, _) = poke_lem bs h (omega arith, omega arith) in
    (b', bind_after (poke b bs) (λ m. write_adv m (pos n)) (returning r) (rw count e), held)

-- One byte, and the pointer moved by the whole room: the bytes behind it are what the storage held.
pub flood_lem :
    {b : Buffer} {q : Bytes} (c : ℕ) (r : ℤ)
    → Holds b q
    → b.write < b.limit
    → b.limit ≤ length b.mem
    → (b' : Buffer) × (junk : Bytes) × ((poke b (c ∷ []) >>= λ m.
          write_adv m (pos (b.limit - b.write)) >>= returning r)
        ≡ some (r, b'))
      × Holds b' (q ++ (c ∷ junk))
      × (length junk + 1 ≡ b.limit - b.write)
unfolding poke write_adv
flood_lem {b} {q} c r h room enough = go h.post h.layout
  where
    go :
        (post : Bytes)
        → b.mem ≡ h.pre ++ (q ++ post)
        → (b' : Buffer) × (junk : Bytes) × ((poke b (c ∷ []) >>= λ m.
              write_adv m (pos (b.limit - b.write)) >>= returning r)
            ≡ some (r, b'))
          × Holds b' (q ++ (c ∷ junk))
          × (length junk + 1 ≡ b.limit - b.write)
    go [] l = absurd (
        omega (
          arith,
          ap length l,
          length-append h.pre (q ++ []),
          length-append q [],
          h.write_at,
          h.storage,
        ))
    go (x ∷ post) l = (
      record b { mem = mem'; write = b.limit },
      take n post,
      rw stored (ground arith),
      record {
        pre = h.pre;
        post = drop n post;
        layout =
            ap (λ y. h.pre ++ (q ++ (c ∷ y))) (sym (take-append-drop n post))
            ∙ ap (◌++◌ h.pre) (sym (append_assoc q (c ∷ take n post) (drop n post)));
        read_at = h.read_at;
        write_at = omega (arith, h.write_at, h.within, long, length-append q (c ∷ take n post));
        within = omega arith;
        storage = omega (arith, h.storage, sizes);
      },
      omega (arith, long),
    )
      where
        n : ℕ
        n = b.limit - b.write - 1

        mem' : Bytes
        mem' = h.pre ++ (q ++ (c ∷ post))

        sizes : length mem' ≡ length b.mem
        sizes = omega (
          arith,
          ap length l,
          length-append h.pre (q ++ (c ∷ post)),
          length-append q (c ∷ post),
          length-append h.pre (q ++ (x ∷ post)),
          length-append q (x ∷ post),
        )

        long : length (take n post) ≡ n
        long = omega (
          arith,
          length-take n post,
          h.storage,
          h.write_at,
          ap length l,
          length-append h.pre (q ++ (x ∷ post)),
          length-append q (x ∷ post),
        )

        stored : store b.mem b.write c ≡ some mem'
        stored =
            ap (λ m. store m b.write c) (l ∙ sym (append_assoc h.pre q (x ∷ post)))
            ∙ store-append (h.pre ++ q) x post b.write c
                (omega (arith, h.write_at, length-append h.pre q))
            ∙ ap some (append_assoc h.pre q (c ∷ post))
