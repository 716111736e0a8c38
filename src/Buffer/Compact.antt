-- ===== src/Buffer/Compact.antt =====
-- `buffer_compact` moves the queue to the front of the storage, and `buffer_read_adv` skips bytes.
use tp_socks5_proxy.Base.{
  ◌+◌, ◌-◌, ◌≤◌, ◌≡◌, refl, sym, ap, ◌∙◌, some, [], ◌++◌, append_assoc, Bytes, arith, length, drop,
  length-append, length-drop, nil_of_length, ◌≢◌, Bool-cases, inl, inr, if◌then◌else◌, ◌==◌,
}
use tp_socks5_proxy.Buffer.{Buffer, pos, read_adv, compact}
use tp_socks5_proxy.Buffer.Holds.{Holds, contents, contents-Holds}

module _ {b : Buffer} {q : Bytes} (h : Holds b q) where
  -- `memmove`: the queue stands in front, and the bytes behind it are old ones.
  moved :
      b.read ≢ b.write
      → Holds
          (record b {
            mem = contents b ++ drop (b.write - b.read) b.mem;
            read = 0;
            write = b.write - b.read;
          })
          q
  moved ne = record {
    pre = [];
    post = drop (b.write - b.read) b.mem;
    layout = ap (λ x. x ++ drop (b.write - b.read) b.mem) (contents-Holds h);
    read_at = refl;
    write_at = omega (arith, h.read_at, h.write_at);
    within = omega (arith, h.within);
    storage = omega (
      arith,
      h.storage,
      h.within,
      length-append (contents b) (drop (b.write - b.read) b.mem),
      length-drop (b.write - b.read) b.mem,
      ap length (contents-Holds h),
      h.read_at,
      h.write_at,
    );
  }

  rewound : b.read ≡ b.write → Holds (record b { read = 0; write = 0 }) q
  rewound e = rw (nil_of_length q (omega (arith, h.read_at, h.write_at))) (record {
    pre = [];
    post = b.mem;
    layout = refl;
    read_at = refl;
    write_at = omega arith;
    within = omega arith;
    storage = h.storage;
  })

  -- Compaction keeps the queue, and puts it at the start of the storage, so that all of the room is
  -- behind it.
  pub compact_lem :
      Holds (compact b) q
      × ((compact b).read ≡ 0)
      × ((compact b).write ≡ length q)
      × ((compact b).limit ≡ b.limit)
  unfolding compact
  compact_lem = elim (Bool-cases (b.read == 0)) [
    | inl z ↦ rw z (h, ground arith, ground (arith, h.read_at, h.write_at), refl)
    | inr nz ↦ elim (Bool-cases (b.read == b.write)) [
      | inl e ↦
          rw (nz, e) (rewound (ground arith), refl, ground (arith, h.read_at, h.write_at), refl)
      | inr ne ↦
          rw (nz, ne) (moved (ground arith), refl, omega (arith, h.read_at, h.write_at), refl)
    ]
  ]

-- `buffer_read_adv` drops as many bytes from the front of the queue, and compacts an empty one.
pub read_adv_lem :
    {b : Buffer} (p q : Bytes)
    → Holds b (p ++ q)
    → (b' : Buffer) × (read_adv b (pos (length p)) ≡ some b') × Holds b' q × (b'.limit ≡ b.limit)
unfolding read_adv
read_adv_lem {b} p q h = (
  if skipped.read == skipped.write then compact skipped else skipped,
  ground (arith, bound),
  settled.0,
  settled.1,
)
  where
    skipped : Buffer
    skipped = record b { read = b.read + length p }

    bound : skipped.read ≤ skipped.write
    bound = omega (arith, h.read_at, h.write_at, length-append p q)

    skipped-Holds : Holds skipped q
    skipped-Holds = record {
      pre = h.pre ++ p;
      post = h.post;
      layout =
          h.layout
          ∙ ap (◌++◌ h.pre) (append_assoc p q h.post)
          ∙ sym (append_assoc h.pre p (q ++ h.post));
      read_at = omega (arith, h.read_at, length-append h.pre p);
      write_at = omega (arith, h.write_at, length-append h.pre p, length-append p q);
      within = h.within;
      storage = h.storage;
    }

    settled :
        Holds (if skipped.read == skipped.write then compact skipped else skipped) q
        × ((if skipped.read == skipped.write then compact skipped else skipped).limit ≡ b.limit)
    settled = elim (Bool-cases (skipped.read == skipped.write)) [
      | inl e ↦ rw e ((compact_lem skipped-Holds).0, (compact_lem skipped-Holds).3)
      | inr ne ↦ rw ne (skipped-Holds, refl)
    ]
