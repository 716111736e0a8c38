-- ===== src/Request/Answer.antt =====
-- `request_marshalll` and `errno_to_socks` of src/parsers/request.c: the server's answer to a request,
-- which repeats the request's address and port. `malloc` is taken to succeed.
use tp_socks5_proxy.Base.{
  ℕ, zero, suc, none, ◌+◌, ◌-◌, ◌%◌, ◌<◌, ◌≡◌, refl, sym, ap, ap₂, subst, ◌∙◌, Option, some, [],
  ◌∷◌, ◌++◌, Bytes, if◌then◌else◌, ◌>>=◌, arith, length, length-append, ltb, le→ltb, lt→ltb, ◌==◌,
  take, drop, take-append, strlen, strlen-append, IsText, replicate,
}
use tp_socks5_proxy.Buffer.{Buffer, ℤ, pos, negsuc, write_ptr, poke, write_adv, returning}
use tp_socks5_proxy.Buffer.Holds.{Holds, HasRoom}
use tp_socks5_proxy.Buffer.Queue.{write_ptr-Holds}
use tp_socks5_proxy.Buffer.Reply.{reply_lem}
use tp_socks5_proxy.Request.{
  Request, addrtype_ipv4, addrtype_ipv6, addrtype_domain, sin_addr, sin6_addr,
}
use tp_socks5_proxy.Request.Address.{Kind, domain, code_of, requested, IsAddress, four, sixteen}
use tp_socks5_proxy.Request.Domain.{fqdn}

-- `sizeof(addr.fqdn)`; the array is shorter than the union.
abbrev sizeof_fqdn : ℕ
sizeof_fqdn = 0xff

-- The switch of `request_marshalll`: the bytes of the address, a name behind its length.
pub address_bytes : Request → Option Bytes
address_bytes r =
    if r.dst_addr_type == addrtype_ipv4
    then some (take 4 (drop sin_addr r.dst_addr))
    else if r.dst_addr_type == addrtype_ipv6
    then some (take 16 (drop sin6_addr r.dst_addr))
    else if r.dst_addr_type == addrtype_domain
    then (do n ← strlen (take sizeof_fqdn r.dst_addr); some ((n % 256) ∷ take n r.dst_addr))
    else some []

-- `request_marshalll`: the count of bytes written, or -1.
unfoldable pub marshall : Buffer → ℕ → Request → Option (ℤ × Buffer)
unfolding address_bytes
marshall b status r = do
  room ← write_ptr b
  aux ← address_bytes r
  let len = 6 + length aux
  if ltb room len then returning (negsuc 0) b else (do
    m ← poke b (0x05 ∷ status ∷ 0x00 ∷ r.dst_addr_type ∷ (aux ++ r.dst_port))
    b' ← write_adv m (pos len)
    returning (pos len) b')

-- The POSIX error numbers, as on Linux.
abbrev pub eafnosupport : ℕ
eafnosupport = 97

abbrev pub enetunreach : ℕ
enetunreach = 101

abbrev pub etimedout : ℕ
etimedout = 110

abbrev pub econnrefused : ℕ
econnrefused = 111

abbrev pub ehostunreach : ℕ
ehostunreach = 113

-- `enum socks_response_status`, where the code uses it.
unfoldable pub errno_to_socks : ℕ → ℕ
errno_to_socks err =
    if err == 0
    then 0x00
    else if err == ehostunreach
    then 0x04
    else if err == econnrefused
    then 0x05
    else if err == etimedout
    then 0x06
    else if err == eafnosupport
    then 0x08
    else if err == enetunreach
    then 0x03
    else 0x01

-- What an answer says of the address: a request for an address of a fixed size, or for a name.
pub data Echoes : Request → Bytes → Type 0 where
  fixed :
      (c x y : ℕ) {k : Kind} {addr sockaddr : Bytes}
      → IsAddress k addr sockaddr
      → Echoes (requested c k sockaddr (x ∷ y ∷ [])).request (code_of k ∷ (addr ++ (x ∷ y ∷ [])))
  named :
      (c x y : ℕ) (name : Bytes)
      → IsText name
      → length name < 255
      → Echoes
          (requested c domain (fqdn name) (x ∷ y ∷ [])).request
          (3 ∷ length name ∷ (name ++ (x ∷ y ∷ [])))

-- The answer's bytes behind its first three.
tail_of : Request → Bytes → Bytes
tail_of r aux = r.dst_addr_type ∷ (aux ++ r.dst_port)

marshall_room :
    {b : Buffer} {q : Bytes} (status : ℕ) (r : Request) {aux : Bytes}
    → address_bytes r ≡ some aux
    → length r.dst_port ≡ 2
    → Holds b q
    → HasRoom b (6 + length aux)
    → (b' : Buffer) × (marshall b status r ≡ some (pos (6 + length aux), b'))
      × Holds b' (q ++ (0x05 ∷ status ∷ 0x00 ∷ tail_of r aux))
unfolding marshall tail_of
marshall_room {b} {q} status r {aux} a two h room =
    let sizes = length-append aux r.dst_port in
    let (b', sent, held) =
      reply_lem (0x05 ∷ status ∷ 0x00 ∷ r.dst_addr_type ∷ (aux ++ r.dst_port)) (6 + length aux)
        (pos (6 + length aux)) (omega (arith, sizes)) h room in
    (
      b',
      rw (write_ptr-Holds h, a, le→ltb (b.limit - b.write) (6 + length aux) (omega arith)) sent,
      held,
    )

marshall_full :
    {b : Buffer} {q : Bytes} (status : ℕ) (r : Request) {aux : Bytes}
    → address_bytes r ≡ some aux
    → Holds b q
    → b.limit < b.write + (6 + length aux)
    → marshall b status r ≡ some (negsuc 0, b)
unfolding marshall
marshall_full {b} status r {aux} a h room =
    rw (write_ptr-Holds h, a, lt→ltb (b.limit - b.write) (6 + length aux) (omega (arith, h.within)))

take-replicate :
    (s : Bytes) (k n : ℕ)
    → n ≡ length s + k
    → take n (s ++ replicate (suc k) 0) ≡ s ++ replicate k 0
take-replicate [] zero zero e = refl
take-replicate [] zero (suc n) e = absurd (omega arith)
take-replicate [] (suc k) zero e = absurd (omega arith)
take-replicate [] (suc k) (suc n) e = ap (◌∷◌ 0) (take-replicate [] k n (omega arith))
take-replicate (c ∷ s) k zero e = absurd (omega arith)
take-replicate (c ∷ s) k (suc n) e = ap (◌∷◌ c) (take-replicate s k n (omega arith))

strlen-IsText : (s : Bytes) → IsText s → strlen s ≡ none
strlen-IsText [] t = refl
strlen-IsText (zero ∷ s) t = absurd (omega arith)
strlen-IsText (suc c ∷ s) t = ap (λ m. m >>= λ n. some (suc n)) (strlen-IsText s t.1)

-- The echoed bytes are those of the request, behind its type.
echo :
    {r : Request} {tail : Bytes}
    → Echoes r tail
    → (aux : Bytes) × (address_bytes r ≡ some aux)
      × (tail_of r aux ≡ tail)
      × (length r.dst_port ≡ 2)
      × (length tail ≡ 3 + length aux)
unfolding address_bytes tail_of
echo (fixed c x y (four addr l)) = (
  addr,
  ap some (take-append addr (replicate 248 0) 4 (sym l)),
  refl,
  refl,
  omega (arith, length-append addr (x ∷ y ∷ [])),
)
echo (fixed c x y (sixteen addr l)) = (
  addr,
  ap some (take-append addr (replicate 232 0) 16 (sym l)),
  refl,
  refl,
  omega (arith, length-append addr (x ∷ y ∷ [])),
)
echo (named c x y name t l) = (
  length name ∷ name,
  rw measured (
      ap some (
        ap₂ ◌∷◌ (omega arith)
          (take-append name (replicate (256 - length name) 0) (length name) refl))),
  refl,
  refl,
  omega (arith, length-append name (x ∷ y ∷ [])),
)
  where
    measured : strlen (take sizeof_fqdn (fqdn name)) ≡ some (length name)
    measured =
        let k = 254 - length name in
        let wide : 256 - length name ≡ suc (suc k) = omega arith in
        ap (λ (n : ℕ). strlen (take sizeof_fqdn (name ++ replicate n 0))) wide
        ∙ ap strlen (take-replicate name (suc k) sizeof_fqdn (omega arith))
        ∙ strlen-append name (replicate k 0) t

module _ {b : Buffer} {q : Bytes} (status : ℕ) {r : Request} {tail : Bytes} (h : Holds b q)
    (echoed : Echoes r tail) where
  -- The answer to a request that was parsed, for an address or for a name of less than 255 bytes,
  -- none of which is NUL, is version 5, the status, 0, and the type, address and port of the
  -- request, behind what the buffer held, if there is room; the count of its bytes is returned.
  pub marshall_echoes :
      HasRoom b (3 + length tail)
      → (b' : Buffer) × (marshall b status r ≡ some (pos (3 + length tail), b'))
        × Holds b' (q ++ (0x05 ∷ status ∷ 0x00 ∷ tail))
  marshall_echoes room =
      let (aux, a, t, two, l) = echo echoed in
      let (b', e, held) = marshall_room status r a two h (omega (arith, l)) in
      (
        b',
        e ∙ ap (λ (n : ℕ). some (pos n, b')) (omega (arith, l)),
        subst (λ z. Holds b' (q ++ (0x05 ∷ status ∷ 0x00 ∷ z))) t held,
      )

  -- Where the answer does not fit, -1 is returned and the buffer stays as it was.
  pub marshall_no_room :
      b.limit < b.write + (3 + length tail) → marshall b status r ≡ some (negsuc 0, b)
  marshall_no_room room =
      let (aux, a, t, two, l) = echo echoed in marshall_full status r a h (omega (arith, l))

-- The answer to a request for a name of 255 bytes, none of which is NUL, reads behind the end of
-- the array of the name.
pub marshall_overrun :
    {b : Buffer} {q : Bytes} (status c x y : ℕ) (name : Bytes)
    → Holds b q
    → IsText name
    → length name ≡ 255
    → marshall b status (requested c domain (fqdn name) (x ∷ y ∷ [])).request ≡ none
unfolding marshall address_bytes
marshall_overrun {b} status c x y name h t l =
    let unbound : strlen (take sizeof_fqdn (fqdn name)) ≡ none =
      ap strlen (take-append name (replicate (256 - length name) 0) sizeof_fqdn (sym l))
      ∙ strlen-IsText name t in
    rw (write_ptr-Holds h, unbound) refl
