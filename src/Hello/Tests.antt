-- ===== src/Hello/Tests.antt =====
-- A client's offer on its way through the parser.
use tp_socks5_proxy.Base.{
  ℕ, ◌≡◌, refl, false, none, some, [], ◌∷◌, Bytes, arith, if◌then◌else◌, ◌==◌,
}
use tp_socks5_proxy.Buffer.{Buffer}
use tp_socks5_proxy.Buffer.Holds.{Holds, loaded, loaded-Holds}
use tp_socks5_proxy.Parsing.{consume}
use tp_socks5_proxy.Parsing.Chunks.{consume_chunks, Same}
use tp_socks5_proxy.Parsing.Stream.{Agrees, run, consume-run}
use tp_socks5_proxy.Hello.{Hello, version, methods, done, init, parser, hello_consume}
use tp_socks5_proxy.Hello.Message.{hello_consume_message, hello_consume_part}

-- The callback keeps the method 2.
abbrev fresh : Hello ℕ
fresh = record {
  on_auth_method = some (λ d m. if m == 2 then m else d);
  data_of = 255;
  state = version;
  remaining = 0;
}

abbrev later : Bytes
later = 1 ∷ []

hello_consume_message_example :
    (b' : Buffer) × (hello_consume (loaded (5 ∷ 2 ∷ 0 ∷ 2 ∷ later)) (init fresh) (some false)
      ≡ some (record fresh { data_of = 2; state = done; remaining = 0 }, some false, b'))
    × Holds b' later
    × (b'.limit ≡ 5)
hello_consume_message_example =
    hello_consume_message (0 ∷ 2 ∷ []) later fresh (some false) (omega arith)
      (loaded-Holds (5 ∷ 2 ∷ 0 ∷ 2 ∷ later))

consume-run_example :
    Agrees
      (parser ℕ)
      5
      (consume (parser ℕ) (loaded (5 ∷ 2 ∷ 0 ∷ 2 ∷ later)) (init fresh) none)
      (run (parser ℕ) (init fresh) none (5 ∷ 2 ∷ 0 ∷ 2 ∷ later))
consume-run_example =
    consume-run (parser ℕ) (init fresh) none (loaded-Holds (5 ∷ 2 ∷ 0 ∷ 2 ∷ later))

-- Three of the five bytes arrive first.
first :
    (b' : Buffer) × (hello_consume (loaded (5 ∷ 2 ∷ 0 ∷ [])) (init fresh) none
      ≡ some (record fresh { data_of = 255; state = methods; remaining = 1 }, none, b'))
    × Holds b' []
    × (b'.limit ≡ 3)
first =
    hello_consume_part 2 (0 ∷ []) fresh none (omega arith) (omega arith)
      (loaded-Holds (5 ∷ 2 ∷ 0 ∷ []))

consume_chunks_example :
    Same
      (parser ℕ)
      (consume
        (parser ℕ)
        (loaded (2 ∷ later))
        (record fresh { data_of = 255; state = methods; remaining = 1 })
        none)
      (consume (parser ℕ) (loaded (5 ∷ 2 ∷ 0 ∷ 2 ∷ later)) (init fresh) none)
unfolding hello_consume init
consume_chunks_example =
    consume_chunks (parser ℕ) (2 ∷ later) (init fresh) none (loaded-Holds (5 ∷ 2 ∷ 0 ∷ []))
      (loaded-Holds (5 ∷ 2 ∷ 0 ∷ 2 ∷ later)) refl first.1 refl first.2 (loaded-Holds (2 ∷ later))
