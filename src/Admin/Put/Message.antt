-- ===== src/Admin/Put/Message.antt =====
-- What `admin_put_consume` makes of a stream.
use tp_socks5_proxy.Base.{
  ℕ, suc, ◌<◌, ◌≡◌, ◌≢◌, ◌⊎◌, inl, inr, refl, ap, ◌∙◌, none, some, [], ◌∷◌, ◌++◌, append_assoc,
  Bytes, ◌>>=◌, arith, length, length-pos, store, fill,
}
use tp_socks5_proxy.Buffer.{Buffer}
use tp_socks5_proxy.Buffer.Holds.{Holds}
use tp_socks5_proxy.Parsing.{Flag, raise}
use tp_socks5_proxy.Parsing.Stream.{run, consume-eq_of_run, consume-none_of_run}
use tp_socks5_proxy.Parsing.Text.{run_text, run_text_overrun}
use tp_socks5_proxy.Admin.Put.{
  Put, State, done, error_action, error_field, error_namelen, error_passlen, init, blank, feed_in,
  feed, parser, admin_put_consume,
}

length-blank : length blank ≡ 255
unfolding blank
length-blank = refl

-- The parser inside of a field of `n` bytes, with `i` of them read, and behind its terminator.
abbrev at_name : Put → ℕ → Bytes → ℕ → Put
at_name p n a i = record p {
  state = State.name;
  userlen = n;
  username = a;
  remaining = n;
  read = i;
}

abbrev closed_name : Put → ℕ → Bytes → Put
closed_name p n a = record (at_name p n a n) { state = State.passlen }

abbrev at_pass : Put → ℕ → Bytes → ℕ → Put
at_pass p n a i = record p { state = State.pass; passlen = n; passwd = a; remaining = n; read = i }

abbrev closed_pass : Put → ℕ → Bytes → Put
closed_pass p n a = record (at_pass p n a n) { state = done; status = 0x00 }

-- The parser after the user name `u`, and after the password `w` too.
abbrev pub naming : Put → Bytes → Put
naming p u = closed_name (init p) (length u) (fill u blank)

abbrev pub putting : Put → Bytes → Bytes → Put
putting p u w = closed_pass (naming p u) (length w) (fill w blank)

module _ (p : Put) (n : ℕ) (small : n < 256) where
  more_name :
      (a : Bytes) (i b : ℕ)
      → suc i < n
      → feed (at_name p n a i) b ≡ (store a i b >>= λ a'. some (at_name p n a' (suc i)))
  unfolding feed feed_in
  more_name a i b l = ground arith

  last_name :
      (a : Bytes) (i b : ℕ)
      → suc i ≡ n
      → feed (at_name p n a i) b
        ≡ (store a i b >>= λ a'. store a' n 0 >>= λ a''. some (closed_name p n a''))
  unfolding feed feed_in
  last_name a i b l = ground arith

  more_pass :
      (a : Bytes) (i b : ℕ)
      → suc i < n
      → feed (at_pass p n a i) b ≡ (store a i b >>= λ a'. some (at_pass p n a' (suc i)))
  unfolding feed feed_in
  more_pass a i b l = ground arith

  last_pass :
      (a : Bytes) (i b : ℕ)
      → suc i ≡ n
      → feed (at_pass p n a i) b
        ≡ (store a i b >>= λ a'. store a' n 0 >>= λ a''. some (closed_pass p n a''))
  unfolding feed feed_in
  last_pass a i b l = ground arith

  start_name :
      (e : Flag) (x : Bytes)
      → 0 < n
      → run parser (init p) e (0x01 ∷ 0x00 ∷ n ∷ x) ≡ run parser (at_name (init p) n blank 0) e x
  unfolding run feed feed_in init
  start_name e x h = ground arith

  start_pass :
      (u : Bytes) (e : Flag) (x : Bytes)
      → 0 < n
      → run parser (naming p u) e (n ∷ x) ≡ run parser (at_pass (naming p u) n blank 0) e x
  unfolding run feed feed_in init
  start_pass u e x h = ground arith

module _ (p : Put) (u rest : Bytes) (e : Flag) (ne : u ≢ []) where
  run_name :
      length u < 255
      → run parser (init p) e (0x01 ∷ 0x00 ∷ length u ∷ (u ++ rest))
        ≡ run parser (naming p u) e rest
  run_name l =
      start_name p (length u) (omega arith) e (u ++ rest) (length-pos u ne)
      ∙ run_text parser (at_name (init p) (length u)) (length u) (closed_name (init p) (length u))
          (more_name (init p) (length u) (omega arith)) (λ a i e. refl)
          (last_name (init p) (length u) (omega arith)) u blank e rest ne refl
          (omega (arith, length-blank))

  run_name_overrun :
      length u ≡ 255 → run parser (init p) e (0x01 ∷ 0x00 ∷ length u ∷ (u ++ rest)) ≡ none
  run_name_overrun l =
      start_name p (length u) (omega arith) e (u ++ rest) (length-pos u ne)
      ∙ run_text_overrun parser (at_name (init p) (length u)) (length u)
          (closed_name (init p) (length u)) (more_name (init p) (length u) (omega arith))
          (λ a i e. refl) (last_name (init p) (length u) (omega arith)) u blank e rest ne refl
          (omega (arith, length-blank))

module _ (p : Put) (u w rest : Bytes) (e : Flag) (ne : w ≢ []) where
  run_pass :
      length w < 255
      → run parser (naming p u) e (length w ∷ (w ++ rest)) ≡ some (putting p u w, e, rest)
  run_pass l =
      start_pass p (length w) (omega arith) u e (w ++ rest) (length-pos w ne)
      ∙ run_text parser (at_pass (naming p u) (length w)) (length w)
          (closed_pass (naming p u) (length w)) (more_pass (naming p u) (length w) (omega arith))
          (λ a i e. refl) (last_pass (naming p u) (length w) (omega arith)) w blank e rest ne refl
          (omega (arith, length-blank))

  run_pass_overrun : length w ≡ 255 → run parser (naming p u) e (length w ∷ (w ++ rest)) ≡ none
  run_pass_overrun l =
      start_pass p (length w) (omega arith) u e (w ++ rest) (length-pos w ne)
      ∙ run_text_overrun parser (at_pass (naming p u) (length w)) (length w)
          (closed_pass (naming p u) (length w)) (more_pass (naming p u) (length w) (omega arith))
          (λ a i e. refl) (last_pass (naming p u) (length w) (omega arith)) w blank e rest ne refl
          (omega (arith, length-blank))

-- The action 1, the field 0, and the user name and the password, each behind its length.
abbrev pub message : Bytes → Bytes → Bytes
message u w = 0x01 ∷ 0x00 ∷ length u ∷ (u ++ (length w ∷ w))

split :
    (u w rest : Bytes)
    → message u w ++ rest ≡ 0x01 ∷ 0x00 ∷ length u ∷ (u ++ (length w ∷ (w ++ rest)))
split u w rest = ap (λ x. 0x01 ∷ 0x00 ∷ length u ∷ x) (append_assoc u (length w ∷ w) rest)

module _ {b : Buffer} (p : Put) (u w rest : Bytes) (e : Flag) (held : Holds b (message u w ++ rest))
    (une : u ≢ []) (wne : w ≢ []) where
  -- A user name and a password of 1 to 254 bytes take a parser from its start to `done`, with the
  -- status 0: it holds both, each with its length and a terminator behind it; the flag is as it was,
  -- and what follows the message stays in the buffer.
  pub admin_put_message :
      length u < 255
      → length w < 255
      → (b' : Buffer) × (admin_put_consume b (init p) e ≡ some (putting p u w, e, b'))
        × Holds b' rest
        × (b'.limit ≡ b.limit)
  unfolding admin_put_consume
  admin_put_message ul wl =
      consume-eq_of_run parser (init p) e
        (ap (run parser (init p) e) (split u w rest)
          ∙ run_name p u (length w ∷ (w ++ rest)) e une ul
          ∙ run_pass p u w rest e wne wl)
        held

  -- A user name or a password of 255 bytes, which the protocol allows, makes the parser write the
  -- terminator behind the end of its array.
  pub admin_put_overrun :
      (length u ≡ 255) ⊎ ((length u < 255) × (length w ≡ 255))
      → admin_put_consume b (init p) e ≡ none
  unfolding admin_put_consume
  admin_put_overrun (inl ul) =
      consume-none_of_run parser (init p) e
        (ap (run parser (init p) e) (split u w rest)
          ∙ run_name_overrun p u (length w ∷ (w ++ rest)) e une ul)
        held
  admin_put_overrun (inr (ul, wl)) =
      consume-none_of_run parser (init p) e
        (ap (run parser (init p) e) (split u w rest)
          ∙ run_name p u (length w ∷ (w ++ rest)) e une ul
          ∙ run_pass_overrun p u w rest e wne wl)
        held

-- What the parser refuses, with the bytes up to the wrong one and the parser at the end.
pub data Refused (p : Put) : Bytes → Put → Type 0 where
  bad_action :
      (a : ℕ)
      → a ≢ 0x01
      → Refused p (a ∷ []) (record (init p) { state = error_action; status = 0x01 })
  bad_field :
      (f : ℕ)
      → f ≢ 0x00
      → Refused p (0x01 ∷ f ∷ []) (record (init p) { state = error_field; status = 0x02 })
  no_name :
      Refused p (0x01 ∷ 0x00 ∷ 0 ∷ []) (record (init p) { state = error_namelen; status = 0x03 })
  no_pass :
      (u : Bytes)
      → u ≢ []
      → length u < 255
      → Refused p
          (0x01 ∷ 0x00 ∷ length u ∷ (u ++ (0 ∷ [])))
          (record (naming p u) { state = error_passlen; status = 0x04 })

run_no_pass :
    (p : Put) (u rest : Bytes) (e : Flag)
    → run parser (naming p u) e (0 ∷ rest)
      ≡ some (record (naming p u) { state = error_passlen; status = 0x04 }, raise e, rest)
unfolding run feed feed_in
run_no_pass p u rest e = refl

run-Refused :
    {p q : Put} {taken : Bytes} (rest : Bytes) (e : Flag)
    → Refused p taken q
    → run parser (init p) e (taken ++ rest) ≡ some (q, raise e, rest)
run-Refused rest e (bad_action a ne) = unfold run feed feed_in init in ground arith
run-Refused rest e (bad_field f ne) = unfold run feed feed_in init in ground arith
run-Refused rest e no_name = unfold run feed feed_in init in refl
run-Refused {p} rest e (no_pass u ne l) =
    ap (λ x. run parser (init p) e (0x01 ∷ 0x00 ∷ length u ∷ x)) (append_assoc u (0 ∷ []) rest)
    ∙ run_name p u (0 ∷ rest) e ne l
    ∙ run_no_pass p u rest e

-- Another action, another field, an empty user name and an empty password take a parser from its start
-- to their error state, with the status of the protocol, raise the flag, and stop behind the byte that
-- is wrong.
pub admin_put_refuses :
    {b : Buffer} {p q : Put} {taken : Bytes} (rest : Bytes) (e : Flag)
    → Refused p taken q
    → Holds b (taken ++ rest)
    → (b' : Buffer) × (admin_put_consume b (init p) e ≡ some (q, raise e, b'))
      × Holds b' rest
      × (b'.limit ≡ b.limit)
unfolding admin_put_consume
admin_put_refuses {b} {p} rest e r held =
    consume-eq_of_run parser (init p) e (run-Refused rest e r) held
