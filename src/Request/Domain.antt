-- ===== src/Request/Domain.antt =====
-- What `request_consume` makes of a request for a domain name, and of one that it refuses.
use tp_socks5_proxy.Base.{
  ℕ, suc, ◌-◌, ◌<◌, ◌≡◌, ◌≢◌, refl, ap, ◌∙◌, none, some, [], ◌∷◌, ◌++◌, Bytes, arith, length, inl,
  inr, replicate, store-replicate, blit_front, drop-replicate,
}
use tp_socks5_proxy.Buffer.{Buffer}
use tp_socks5_proxy.Buffer.Holds.{Holds}
use tp_socks5_proxy.Parsing.{Flag, raise}
use tp_socks5_proxy.Parsing.Stream.{run, consume-eq_of_run, consume-none_of_run}
use tp_socks5_proxy.Request.{
  Requests, atyp, error_unsupported_version, error_unsupported_addresstype, error_unsupported_cmd,
  init, blank, feed_in, feed, parser, request_consume,
}
use tp_socks5_proxy.Request.Address.{domain, at_dstaddr, requested, run_header, run_dstaddr, IsCmd}

-- The union with a name at its start and zeros behind it.
abbrev pub fqdn : Bytes → Bytes
fqdn name = name ++ replicate (256 - length name) 0

run_atyp_domain :
    (p : Requests) (c n : ℕ) (e : Flag) (xs : Bytes)
    → suc n < 256
    → run parser (record p { request = record blank { cmd = c }; state = atyp }) e (3 ∷ suc n ∷ xs)
      ≡ run parser (at_dstaddr c domain (suc n) (replicate 256 0) 0) e xs
unfolding run feed feed_in blank
run_atyp_domain p c n e xs l = rw (store-replicate 256 n (omega arith))

run_domain :
    (p : Requests) (c r : ℕ) (name : Bytes) (x y : ℕ) (e : Flag) (rest : Bytes)
    → IsCmd c
    → name ≢ []
    → length name < 256
    → run parser (init p) e (0x05 ∷ c ∷ r ∷ 3 ∷ length name ∷ (name ++ (x ∷ y ∷ rest)))
      ≡ some (requested c domain (fqdn name) (x ∷ y ∷ []), e, rest)
run_domain p c r [] x y e rest h ne l = absurd (ne refl)
run_domain p c r (b ∷ bs) x y e rest h ne l =
    run_header p c r e _ h
    ∙ run_atyp_domain p c (length bs) e _ l
    ∙ run_dstaddr c (suc (length bs)) l domain b bs (replicate 256 0) (fqdn (b ∷ bs)) x y e rest
        refl
        (blit_front (b ∷ bs) (replicate 256 0) (omega arith)
          ∙ ap (λ z. some ((b ∷ bs) ++ z)) (drop-replicate 256 (length (b ∷ bs)) 0))

-- A request for a domain name of 1 to 255 bytes takes a parser from its start to `done`: it holds
-- the command, the name with zeros behind it, and the port; the flag is as it was, and what follows
-- stays in the buffer.
pub request_consume_domain :
    {b : Buffer} (p : Requests) (c r : ℕ) (name : Bytes) (x y : ℕ) (e : Flag) (rest : Bytes)
    → IsCmd c
    → name ≢ []
    → length name < 256
    → Holds b (0x05 ∷ c ∷ r ∷ 3 ∷ length name ∷ (name ++ (x ∷ y ∷ rest)))
    → (b' : Buffer) × (request_consume b (init p) e
        ≡ some (requested c domain (fqdn name) (x ∷ y ∷ []), e, b'))
      × Holds b' rest
      × (b'.limit ≡ b.limit)
unfolding request_consume
request_consume_domain p c r name x y e rest h ne l held =
    consume-eq_of_run parser (init p) e (run_domain p c r name x y e rest h ne l) held

run_no_name :
    (p : Requests) (c r : ℕ) (e : Flag) (rest : Bytes)
    → IsCmd c
    → run parser (init p) e (0x05 ∷ c ∷ r ∷ 3 ∷ 0 ∷ rest) ≡ none
run_no_name p c r e rest h = run_header p c r e _ h ∙ unfold run feed feed_in blank in refl

-- A domain name of length 0 makes the parser write before the start of the name's array, whatever
-- follows.
pub request_consume_no_name :
    {b : Buffer} (p : Requests) (c r : ℕ) (e : Flag) (rest : Bytes)
    → IsCmd c
    → Holds b (0x05 ∷ c ∷ r ∷ 3 ∷ 0 ∷ rest)
    → request_consume b (init p) e ≡ none
unfolding request_consume
request_consume_no_name p c r e rest h held =
    consume-none_of_run parser (init p) e (run_no_name p c r e rest h) held

-- What the parser refuses: another version, a command other than 1, 3 and 4, and another address
-- type, each with the bytes up to the wrong one and the parser at the end.
pub data Refused (p : Requests) : Bytes → Requests → Type 0 where
  bad_version :
      (v : ℕ) → v ≢ 5 → Refused p (v ∷ []) (record (init p) { state = error_unsupported_version })
  bad_cmd :
      (c : ℕ)
      → ¬ IsCmd c
      → Refused p (5 ∷ c ∷ []) (record (init p) { state = error_unsupported_cmd })
  bad_type :
      (c r t : ℕ)
      → IsCmd c
      → t ≢ 1
      → t ≢ 3
      → t ≢ 4
      → Refused p (5 ∷ c ∷ r ∷ t ∷ []) (record p {
        request = record blank { cmd = c; dst_addr_type = t };
        state = error_unsupported_addresstype;
      })

run_version :
    (p : Requests) (v : ℕ) (e : Flag) (rest : Bytes)
    → v ≢ 5
    → run parser (init p) e (v ∷ rest)
      ≡ some (record (init p) { state = error_unsupported_version }, raise e, rest)
unfolding run feed feed_in init
run_version p v e rest h = ground arith

run_cmd :
    (p : Requests) (c : ℕ) (e : Flag) (rest : Bytes)
    → ¬ IsCmd c
    → run parser (init p) e (5 ∷ c ∷ rest)
      ≡ some (record (init p) { state = error_unsupported_cmd }, raise e, rest)
unfolding run feed feed_in init
run_cmd p c e rest h = refused (λ x. h (inl x)) (λ x. h (inr (inl x))) (λ x. h (inr (inr x)))
  where
    refused :
        c ≢ 1
        → c ≢ 3
        → c ≢ 4
        → run parser (init p) e (5 ∷ c ∷ rest)
          ≡ some (record (init p) { state = error_unsupported_cmd }, raise e, rest)
    refused i j k = ground arith

run_type :
    (p : Requests) (c t : ℕ) (e : Flag) (rest : Bytes)
    → t ≢ 1
    → t ≢ 3
    → t ≢ 4
    → run parser (record p { request = record blank { cmd = c }; state = atyp }) e (t ∷ rest)
      ≡ some (
        record p {
          request = record blank { cmd = c; dst_addr_type = t };
          state = error_unsupported_addresstype;
        },
        raise e,
        rest,
      )
unfolding run feed feed_in
run_type p c t e rest i j k = ground arith

run-Refused :
    {p q : Requests} {taken : Bytes} (e : Flag) (rest : Bytes)
    → Refused p taken q
    → run parser (init p) e (taken ++ rest) ≡ some (q, raise e, rest)
run-Refused {p} e rest (bad_version v h) = run_version p v e rest h
run-Refused {p} e rest (bad_cmd c h) = run_cmd p c e rest h
run-Refused {p} e rest (bad_type c r t h i j k) =
    run_header p c r e (t ∷ rest) h ∙ run_type p c t e rest i j k

-- Each refusal takes a parser from its start to the error state of its kind, raises the flag and
-- stops behind the byte that is wrong: what follows stays in the buffer.
pub request_consume_refuses :
    {b : Buffer} {p q : Requests} {taken : Bytes} (e : Flag) (rest : Bytes)
    → Refused p taken q
    → Holds b (taken ++ rest)
    → (b' : Buffer) × (request_consume b (init p) e ≡ some (q, raise e, b'))
      × Holds b' rest
      × (b'.limit ≡ b.limit)
unfolding request_consume
request_consume_refuses {b} {p} e rest r held =
    consume-eq_of_run parser (init p) e (run-Refused e rest r) held
