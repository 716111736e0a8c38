-- ===== src/Request/Tests.antt =====
-- Requests on their way through the parser, and their answers.
use tp_socks5_proxy.Base.{
  ℕ, zero, suc, ◌≡◌, inl, inr, refl, true, false, none, some, [], ◌∷◌, ◌++◌, Bytes, arith,
  replicate, length-replicate, IsText,
}
use tp_socks5_proxy.Buffer.{Buffer, pos}
use tp_socks5_proxy.Buffer.Holds.{Holds, loaded, loaded-Holds}
use tp_socks5_proxy.Request.{Requests, State, error_unsupported_cmd, init, request_consume}
use tp_socks5_proxy.Request.Address.{
  ipv4, domain, requested, sockaddr_in, four, request_consume_address,
}
use tp_socks5_proxy.Request.Domain.{
  fqdn, request_consume_domain, request_consume_no_name, bad_cmd, request_consume_refuses,
}
use tp_socks5_proxy.Request.Answer.{marshall, fixed, marshall_echoes, marshall_overrun}

abbrev fresh : Requests
fresh = record {
  request = record { cmd = 0; dst_addr_type = 0; dst_addr = []; dst_port = [] };
  state = State.version;
  total_bytes_to_read = 0;
  bytes_read = 0;
}

abbrev localhost : Bytes
localhost = 127 ∷ 0 ∷ 0 ∷ 1 ∷ []

abbrev host : Bytes
host = b'i' ∷ b'o' ∷ []

abbrev later : Bytes
later = 9 ∷ []

abbrev to_localhost : Bytes
to_localhost = 5 ∷ 1 ∷ 0 ∷ 1 ∷ (localhost ++ (0 ∷ 80 ∷ later))

abbrev to_host : Bytes
to_host = 5 ∷ 1 ∷ 0 ∷ 3 ∷ 2 ∷ (host ++ (0 ∷ 80 ∷ later))

request_consume_address_example :
    (b' : Buffer) × (request_consume (loaded to_localhost) (init fresh) none
      ≡ some (requested 1 ipv4 (sockaddr_in localhost) (0 ∷ 80 ∷ []), none, b'))
    × Holds b' later
    × (b'.limit ≡ 11)
request_consume_address_example =
    request_consume_address fresh 1 0 0 80 none later (inl refl) (four localhost refl)
      (loaded-Holds to_localhost)

request_consume_domain_example :
    (b' : Buffer) × (request_consume (loaded to_host) (init fresh) none
      ≡ some (requested 1 domain (fqdn host) (0 ∷ 80 ∷ []), none, b'))
    × Holds b' later
    × (b'.limit ≡ 10)
request_consume_domain_example =
    request_consume_domain fresh 1 0 host 0 80 none later (inl refl) (λ e. cc) (omega arith)
      (loaded-Holds to_host)

request_consume_no_name_example :
    request_consume (loaded (5 ∷ 1 ∷ 0 ∷ 3 ∷ 0 ∷ [])) (init fresh) none ≡ none
request_consume_no_name_example =
    request_consume_no_name fresh 1 0 none [] (inl refl) (loaded-Holds (5 ∷ 1 ∷ 0 ∷ 3 ∷ 0 ∷ []))

-- The command 2, BIND.
request_consume_refuses_example :
    (b' : Buffer) × (request_consume (loaded (5 ∷ 2 ∷ later)) (init fresh) (some false)
      ≡ some (record (init fresh) { state = error_unsupported_cmd }, some true, b'))
    × Holds b' later
    × (b'.limit ≡ 3)
request_consume_refuses_example =
    request_consume_refuses (some false) later
      (bad_cmd 2 (λ h. elim h [ inl e ↦ absurd (omega arith) | inr e ↦ omega arith ]))
      (loaded-Holds (5 ∷ 2 ∷ later))

abbrev answer : Buffer
answer = record { mem = replicate 16 0; limit = 16; read = 0; write = 0 }

answer-Holds : Holds answer []
answer-Holds = record {
  pre = [];
  post = replicate 16 0;
  layout = refl;
  read_at = refl;
  write_at = refl;
  within = omega arith;
  storage = omega arith;
}

marshall_echoes_example :
    (b' : Buffer) × (marshall answer 0
        (requested 1 ipv4 (sockaddr_in localhost) (0 ∷ 80 ∷ [])).request
      ≡ some (pos 10, b'))
    × Holds b' (5 ∷ 0 ∷ 0 ∷ 1 ∷ 127 ∷ 0 ∷ 0 ∷ 1 ∷ 0 ∷ 80 ∷ [])
marshall_echoes_example =
    marshall_echoes 0 answer-Holds (fixed 1 0 80 (four localhost refl)) (omega arith)

-- A name of 255 letters.
letters : (n : ℕ) → IsText (replicate n 97)
letters zero = tt
letters (suc n) = (omega arith, letters n)

marshall_overrun_example :
    marshall answer 0 (requested 1 domain (fqdn (replicate 255 97)) (0 ∷ 80 ∷ [])).request ≡ none
marshall_overrun_example =
    marshall_overrun 0 1 0 80 (replicate 255 97) answer-Holds (letters 255)
      (length-replicate {A = ℕ} 255 97)
