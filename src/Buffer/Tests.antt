-- ===== src/Buffer/Tests.antt =====
-- Runs of the buffer's functions on small buffers, and the theorems at them.
use tp_socks5_proxy.Base.{◌≡◌, refl, some, [], ◌∷◌, ◌>>=◌, arith}
use tp_socks5_proxy.Buffer.{Buffer, pos, read, read_adv, write_adv, compact, poke, can_read}
use tp_socks5_proxy.Buffer.Holds.{Holds}
use tp_socks5_proxy.Buffer.Queue.{poke_lem}

-- Eight bytes of storage, of which 5 and 6 are to be read behind a byte that was read.
abbrev used : Buffer
used = record { mem = 4 ∷ 5 ∷ 6 ∷ 0 ∷ 0 ∷ 0 ∷ 0 ∷ 0 ∷ []; limit = 8; read = 1; write = 3 }

used-Holds : Holds used (5 ∷ 6 ∷ [])
used-Holds = record {
  pre = 4 ∷ [];
  post = 0 ∷ 0 ∷ 0 ∷ 0 ∷ 0 ∷ [];
  layout = refl;
  read_at = refl;
  write_at = refl;
  within = omega arith;
  storage = omega arith;
}

read-used : read used ≡ some (5, record used { read = 2 })
unfolding read can_read read_adv compact
read-used = refl

compact-used :
    compact used
    ≡ record { mem = 5 ∷ 6 ∷ 6 ∷ 0 ∷ 0 ∷ 0 ∷ 0 ∷ 0 ∷ []; limit = 8; read = 0; write = 2 }
unfolding compact
compact-used = refl

poke_lem_example :
    (b' : Buffer) × ((poke used (7 ∷ 8 ∷ []) >>= λ m. write_adv m (pos 2)) ≡ some b')
    × Holds b' (5 ∷ 6 ∷ 7 ∷ 8 ∷ [])
    × (b'.limit ≡ 8)
poke_lem_example = poke_lem (7 ∷ 8 ∷ []) used-Holds (omega arith)
