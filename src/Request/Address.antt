-- ===== src/Request/Address.antt =====
-- What `request_consume` makes of a request for an IPv4 or an IPv6 address.
use tp_socks5_proxy.Base.{
  ℕ, suc, ◌+◌, ◌<◌, ◌≡◌, refl, ap, ◌∙◌, some, [], ◌∷◌, ◌++◌, Bytes, ◌>>=◌, arith, length, inl, inr,
  ◌⊎◌, store, blit, blit-append, replicate,
}
use tp_socks5_proxy.Buffer.{Buffer}
use tp_socks5_proxy.Buffer.Holds.{Holds}
use tp_socks5_proxy.Parsing.{Flag}
use tp_socks5_proxy.Parsing.Stream.{run, after, consume-eq_of_run}
use tp_socks5_proxy.Parsing.Collect.{run_field}
use tp_socks5_proxy.Request.{
  Requests, atyp, dstaddr, dstport, done, init, blank, feed_in, feed, parser, request_consume,
  sin_addr, sin6_addr, af_inet, af_inet6,
}

pub data Kind : Type 0 where
  ipv4 ipv6 domain : Kind

-- The code of a kind of address, and the place of its byte `i` in the union.
abbrev pub code_of : Kind → ℕ
code_of ipv4 = 1
code_of ipv6 = 4
code_of domain = 3

abbrev pub place : Kind → ℕ → ℕ
place ipv4 i = sin_addr + i
place ipv6 i = sin6_addr + i
place domain i = i

abbrev pub at_dstaddr : ℕ → Kind → ℕ → Bytes → ℕ → Requests
at_dstaddr c k n a i = record {
  request = record { cmd = c; dst_addr_type = code_of k; dst_addr = a; dst_port = 0 ∷ 0 ∷ [] };
  state = dstaddr;
  total_bytes_to_read = n;
  bytes_read = i;
}

abbrev pub at_dstport : ℕ → Kind → Bytes → Requests
at_dstport c k a = record (at_dstaddr c k 2 a 0) { state = dstport }

-- The parser after a whole request.
abbrev pub requested : ℕ → Kind → Bytes → Bytes → Requests
requested c k a port = record {
  request = record { cmd = c; dst_addr_type = code_of k; dst_addr = a; dst_port = port };
  state = done;
  total_bytes_to_read = 2;
  bytes_read = 2;
}

module _ (c : ℕ) (n : ℕ) (small : n < 256) where
  next : (k : Kind) (i : ℕ) → place k (suc i) ≡ suc (place k i)
  next ipv4 i = omega arith
  next ipv6 i = omega arith
  next domain i = refl

  more :
      (k : Kind) (a : Bytes) (i b : ℕ)
      → suc i < n
      → feed (at_dstaddr c k n a i) b
        ≡ (store a (place k i) b >>= λ a'. some (at_dstaddr c k n a' (suc i)))
  unfolding feed feed_in
  more ipv4 a i b l = ground arith
  more ipv6 a i b l = ground arith
  more domain a i b l = ground arith

  last :
      (k : Kind) (a : Bytes) (i b : ℕ)
      → suc i ≡ n
      → feed (at_dstaddr c k n a i) b ≡ (store a (place k i) b >>= λ a'. some (at_dstport c k a'))
  unfolding feed feed_in
  last ipv4 a i b l = ground arith
  last ipv6 a i b l = ground arith
  last domain a i b l = ground arith

  run_port :
      (k : Kind) (a : Bytes) (x y : ℕ) (e : Flag) (rest : Bytes)
      → run parser (at_dstport c k a) e (x ∷ y ∷ rest)
        ≡ some (requested c k a (x ∷ y ∷ []), e, rest)
  unfolding run feed feed_in
  run_port k a x y e rest = refl

  -- The bytes of an address and of the port behind it.
  pub run_dstaddr :
      (k : Kind) (b : ℕ) (bs a a' : Bytes) (x y : ℕ) (e : Flag) (rest : Bytes)
      → suc (length bs) ≡ n
      → blit a (place k 0) (b ∷ bs) ≡ some a'
      → run parser (at_dstaddr c k n a 0) e (b ∷ (bs ++ (x ∷ y ∷ rest)))
        ≡ some (requested c k a' (x ∷ y ∷ []), e, rest)
  run_dstaddr k b bs a a' x y e rest l stored =
      run_field parser (at_dstaddr c k n) n (place k) (λ a. some (at_dstport c k a)) (next k)
        (more k) (λ a i e. refl) (last k) b bs a 0 e (x ∷ y ∷ rest) (omega arith)
      ∙ ap (λ m. (m >>= λ a. some (at_dstport c k a)) >>= λ p. after parser p e (x ∷ y ∷ rest))
          stored
      ∙ run_port k a' x y e rest

-- The commands that `cmd` takes.
abbrev pub IsCmd : ℕ → Type 0
IsCmd c = (c ≡ 0x01) ⊎ ((c ≡ 0x03) ⊎ (c ≡ 0x04))

-- The memory of the address when its first byte comes.
abbrev pub zeroed : Kind → Bytes
zeroed ipv4 = af_inet ++ replicate 254 0
zeroed ipv6 = af_inet6 ++ replicate 254 0
zeroed domain = replicate 256 0

abbrev pub size_of : Kind → ℕ
size_of ipv4 = 4
size_of ipv6 = 16
size_of domain = 0

-- A message's first four bytes: the version, the command, a reserved byte and the address type.
pub run_header :
    (p : Requests) (c r : ℕ) (e : Flag) (xs : Bytes)
    → IsCmd c
    → run parser (init p) e (0x05 ∷ c ∷ r ∷ xs)
      ≡ run parser (record p { request = record blank { cmd = c }; state = atyp }) e xs
unfolding run feed feed_in init
run_header p c r e xs (inl h) = rw h
run_header p c r e xs (inr (inl h)) = rw h
run_header p c r e xs (inr (inr h)) = rw h

run_atyp4 :
    (p : Requests) (c : ℕ) (e : Flag) (xs : Bytes)
    → run parser (record p { request = record blank { cmd = c }; state = atyp }) e (1 ∷ xs)
      ≡ run parser (at_dstaddr c ipv4 4 (zeroed ipv4) 0) e xs
unfolding run feed feed_in blank
run_atyp4 p c e xs = refl

run_atyp6 :
    (p : Requests) (c : ℕ) (e : Flag) (xs : Bytes)
    → run parser (record p { request = record blank { cmd = c }; state = atyp }) e (4 ∷ xs)
      ≡ run parser (at_dstaddr c ipv6 16 (zeroed ipv6) 0) e xs
unfolding run feed feed_in blank
run_atyp6 p c e xs = refl

-- `sockaddr_in` and `sockaddr_in6` with the address in its place; the rest of the union is zero.
abbrev pub sockaddr_in : Bytes → Bytes
sockaddr_in addr = (af_inet ++ (0 ∷ 0 ∷ [])) ++ (addr ++ replicate 248 0)

abbrev pub sockaddr_in6 : Bytes → Bytes
sockaddr_in6 addr = (af_inet6 ++ replicate 6 0) ++ (addr ++ replicate 232 0)

run_ipv4 :
    (p : Requests) (c r : ℕ) (addr : Bytes) (x y : ℕ) (e : Flag) (rest : Bytes)
    → IsCmd c
    → length addr ≡ 4
    → run parser (init p) e (0x05 ∷ c ∷ r ∷ 1 ∷ (addr ++ (x ∷ y ∷ rest)))
      ≡ some (requested c ipv4 (sockaddr_in addr) (x ∷ y ∷ []), e, rest)
run_ipv4 p c r [] x y e rest h l = absurd (omega arith)
run_ipv4 p c r (b ∷ bs) x y e rest h l =
    run_header p c r e _ h
    ∙ run_atyp4 p c e _
    ∙ run_dstaddr c 4 (omega arith) ipv4 b bs (zeroed ipv4) (sockaddr_in (b ∷ bs)) x y e rest l (
        blit-append (b ∷ bs) (af_inet ++ (0 ∷ 0 ∷ [])) (replicate 4 0) (replicate 248 0) 4 refl
          (omega (arith, l)))

run_ipv6 :
    (p : Requests) (c r : ℕ) (addr : Bytes) (x y : ℕ) (e : Flag) (rest : Bytes)
    → IsCmd c
    → length addr ≡ 16
    → run parser (init p) e (0x05 ∷ c ∷ r ∷ 4 ∷ (addr ++ (x ∷ y ∷ rest)))
      ≡ some (requested c ipv6 (sockaddr_in6 addr) (x ∷ y ∷ []), e, rest)
run_ipv6 p c r [] x y e rest h l = absurd (omega arith)
run_ipv6 p c r (b ∷ bs) x y e rest h l =
    run_header p c r e _ h
    ∙ run_atyp6 p c e _
    ∙ run_dstaddr c 16 (omega arith) ipv6 b bs (zeroed ipv6) (sockaddr_in6 (b ∷ bs)) x y e rest l (
        blit-append (b ∷ bs) (af_inet6 ++ replicate 6 0) (replicate 16 0) (replicate 232 0) 8 refl
          (omega (arith, l)))

-- An address of a fixed size: its bytes in a message, and the `sockaddr` that the parser leaves.
pub data IsAddress : Kind → Bytes → Bytes → Type 0 where
  four : (addr : Bytes) → length addr ≡ 4 → IsAddress ipv4 addr (sockaddr_in addr)
  sixteen : (addr : Bytes) → length addr ≡ 16 → IsAddress ipv6 addr (sockaddr_in6 addr)

-- A request for an IPv4 or an IPv6 address takes a parser from its start to `done`, for each of the
-- commands 1, 3 and 4 and any reserved byte: it holds the command, the type, a zeroed `sockaddr` with
-- the family and the address, and the port; the flag is as it was, and what follows stays in the
-- buffer.
pub request_consume_address :
    {b : Buffer} {k : Kind} {addr sockaddr : Bytes} (p : Requests) (c r x y : ℕ) (e : Flag)
    (rest : Bytes)
    → IsCmd c
    → IsAddress k addr sockaddr
    → Holds b (0x05 ∷ c ∷ r ∷ code_of k ∷ (addr ++ (x ∷ y ∷ rest)))
    → (b' : Buffer) × (request_consume b (init p) e
        ≡ some (requested c k sockaddr (x ∷ y ∷ []), e, b'))
      × Holds b' rest
      × (b'.limit ≡ b.limit)
unfolding request_consume
request_consume_address p c r x y e rest h (four addr l) held =
    consume-eq_of_run parser (init p) e (run_ipv4 p c r addr x y e rest h l) held
request_consume_address p c r x y e rest h (sixteen addr l) held =
    consume-eq_of_run parser (init p) e (run_ipv6 p c r addr x y e rest h l) held
