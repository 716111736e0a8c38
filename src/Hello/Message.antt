-- ===== src/Hello/Message.antt =====
-- What `hello_consume` makes of a stream: the message of RFC 1928, a wrong version, a message that
-- has not arrived whole; and what `hello_marshalll` puts into the buffer.
use tp_socks5_proxy.Base.{
  ℕ, suc, ◌+◌, le→ltb, lt→ltb, ◌-◌, ◌<◌, ◌≡◌, ◌≢◌, refl, Option, some, [], ◌∷◌, ◌++◌, Bytes, arith,
  length,
}
use tp_socks5_proxy.Buffer.{Buffer, pos, negsuc}
use tp_socks5_proxy.Buffer.Queue.{write_ptr-Holds}
use tp_socks5_proxy.Buffer.Holds.{Holds, HasRoom}
use tp_socks5_proxy.Buffer.Reply.{reply_lem}
use tp_socks5_proxy.Parsing.{Flag, raise}
use tp_socks5_proxy.Parsing.Stream.{run, consume-eq_of_run}
use tp_socks5_proxy.Hello.{
  Hello, methods, done, error_unsupported_version, init, call, feed_in, feed, parser, hello_consume,
  marshall,
}

module _ {D : Type 0} where
  -- The callback is run on each method in turn.
  abbrev pub offer : Option (D → ℕ → D) → D → Bytes → D
  offer f d [] = d
  offer f d (m ∷ ms) = offer f (call f d m) ms

  abbrev pub finished : Hello D → Bytes → Hello D
  finished p ms = record p {
    data_of = offer p.on_auth_method p.data_of ms;
    state = done;
    remaining = 0;
  }

  run_methods :
      (m : ℕ) (ms rest : Bytes) (p : Hello D) (e : Flag)
      → p.state ≡ methods
      → p.remaining ≡ suc (length ms)
      → p.remaining < 256
      → run (parser D) p e (m ∷ (ms ++ rest)) ≡ some (finished p (m ∷ ms), e, rest)
  unfolding run feed feed_in
  run_methods m [] rest p e s r l = ground arith
  run_methods m (m' ∷ ms) rest p e s r l = ground (
    arith,
    run_methods m' ms rest
        (record p { data_of = call p.on_auth_method p.data_of m; remaining = p.remaining - 1 }) e,
  )

  run_message :
      (ms rest : Bytes) (p : Hello D) (e : Flag)
      → length ms < 256
      → run (parser D) (init p) e (0x05 ∷ length ms ∷ (ms ++ rest)) ≡ some (finished p ms, e, rest)
  unfolding run feed feed_in init
  run_message [] rest p e l = refl
  run_message (m ∷ ms) rest p e l = ground (
    arith,
    run_methods m ms rest (record p { state = methods; remaining = suc (length ms) }) e refl refl l,
  )

  -- A whole message, the version 5, the number of methods and the methods, takes the parser to
  -- `done`: the callback was run on each method in the order of the message, the flag is as it was,
  -- and what follows the message stays in the buffer.
  pub hello_consume_message :
      {b : Buffer} (ms rest : Bytes) (p : Hello D) (e : Flag)
      → length ms < 256
      → Holds b (0x05 ∷ length ms ∷ (ms ++ rest))
      → (b' : Buffer) × (hello_consume b (init p) e ≡ some (finished p ms, e, b'))
        × Holds b' rest
        × (b'.limit ≡ b.limit)
  unfolding hello_consume
  hello_consume_message ms rest p e l h =
      consume-eq_of_run (parser D) (init p) e (run_message ms rest p e l) h

  -- Any other version is refused: the flag is raised, the data are untouched, and only the version
  -- was taken from the buffer.
  pub hello_consume_version :
      {b : Buffer} (c : ℕ) (rest : Bytes) (p : Hello D) (e : Flag)
      → c ≢ 0x05
      → Holds b (c ∷ rest)
      → (b' : Buffer) × (hello_consume b (init p) e
          ≡ some (record p { state = error_unsupported_version; remaining = 0 }, raise e, b'))
        × Holds b' rest
        × (b'.limit ≡ b.limit)
  unfolding hello_consume
  hello_consume_version c rest p e ne h = consume-eq_of_run (parser D) (init p) e refused h
    where
      refused :
          run (parser D) (init p) e (c ∷ rest)
          ≡ some (record p { state = error_unsupported_version; remaining = 0 }, raise e, rest)
      refused = unfold run feed feed_in init in ground arith

  run_part :
      (ms : Bytes) (p : Hello D) (e : Flag)
      → p.state ≡ methods
      → length ms < p.remaining
      → p.remaining < 256
      → run (parser D) p e ms
        ≡ some (
          record p {
            data_of = offer p.on_auth_method p.data_of ms;
            remaining = p.remaining - length ms;
          },
          e,
          [],
        )
  unfolding run feed feed_in
  run_part [] p e s r l = ground arith
  run_part (m ∷ ms) p e s r l = ground (
    arith,
    run_part ms
        (record p { data_of = call p.on_auth_method p.data_of m; remaining = p.remaining - 1 }) e,
  )

  -- A message of which some methods are missing leaves the parser waiting for exactly those: it is
  -- not done, the callback was run on the methods that arrived, and the buffer is empty.
  pub hello_consume_part :
      {b : Buffer} (n : ℕ) (ms : Bytes) (p : Hello D) (e : Flag)
      → length ms < n
      → n < 256
      → Holds b (0x05 ∷ n ∷ ms)
      → (b' : Buffer) × (hello_consume b (init p) e
          ≡ some (
            record p {
              data_of = offer p.on_auth_method p.data_of ms;
              state = methods;
              remaining = n - length ms;
            },
            e,
            b',
          ))
        × Holds b' []
        × (b'.limit ≡ b.limit)
  unfolding hello_consume
  hello_consume_part n ms p e l u h = consume-eq_of_run (parser D) (init p) e part h
    where
      part :
          run (parser D) (init p) e (0x05 ∷ n ∷ ms)
          ≡ some (
            record p {
              data_of = offer p.on_auth_method p.data_of ms;
              state = methods;
              remaining = n - length ms;
            },
            e,
            [],
          )
      part =
          unfold run feed feed_in init in
          ground (arith, run_part ms (record p { state = methods; remaining = n }) e refl l u)

-- The answer, version 5 and the method, goes to the end of the buffer if there is room for two bytes.
pub hello_marshall_lem :
    {b : Buffer} {q : Bytes} (method : ℕ)
    → Holds b q
    → HasRoom b 2
    → (b' : Buffer) × (marshall b method ≡ some (pos 2, b')) × Holds b' (q ++ (0x05 ∷ method ∷ []))
unfolding marshall
hello_marshall_lem {b} method h room =
    let (b', sent, held) = reply_lem (0x05 ∷ method ∷ []) 2 (pos 2) refl h room in
    (b', rw (write_ptr-Holds h, le→ltb (b.limit - b.write) 2 (omega arith)) sent, held)

-- Else -1 is returned and the buffer stays as it was.
pub hello_marshall_full :
    {b : Buffer} {q : Bytes} (method : ℕ)
    → Holds b q
    → b.limit < b.write + 2
    → marshall b method ≡ some (negsuc 0, b)
unfolding marshall
hello_marshall_full {b} method h full =
    rw (write_ptr-Holds h, lt→ltb (b.limit - b.write) 2 (omega (arith, h.within)))
