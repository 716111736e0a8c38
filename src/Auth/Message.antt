-- ===== src/Auth/Message.antt =====
-- What `auth_consume` makes of a message that carries a user name and a password.
use tp_socks5_proxy.Base.{
  ℕ, suc, ◌<◌, ◌≡◌, ◌≢◌, refl, ap, ◌∙◌, Option, none, some, [], ◌∷◌, ◌++◌, append_assoc, Bytes,
  ◌>>=◌, arith, length, inl, inr, store, blit, fill, string_fits, string_overruns, ◌⊎◌,
}
use tp_socks5_proxy.Buffer.{Buffer}
use tp_socks5_proxy.Buffer.Holds.{Holds}
use tp_socks5_proxy.Parsing.{Flag}
use tp_socks5_proxy.Parsing.Stream.{run, after, consume-eq_of_run, consume-none_of_run}
use tp_socks5_proxy.Parsing.Collect.{run_field, run_field_part}
use tp_socks5_proxy.Auth.{
  Auth, State, username, passlen, done, init, blank, feed_in, feed, parser, auth_consume,
}

-- The parser inside of a field of `n` bytes, with the array `a` and `i` bytes read.
abbrev pub at_username : Auth → ℕ → Bytes → ℕ → Auth
at_username p n a i = record p {
  state = username;
  user = record { userlen = n; username = a };
  remaining = n;
  read = i;
}

abbrev pub at_pass : Auth → ℕ → Bytes → ℕ → Auth
at_pass p n a i = record p {
  state = State.pass;
  pass = record { passlen = n; passwd = a };
  remaining = n;
  read = i;
}

module _ (p : Auth) (n : ℕ) (small : n < 256) where
  abbrev end_username : Bytes → Option Auth
  end_username a = store a n 0 >>= λ a'. some (record (at_username p n a' n) { state = passlen })

  more_username :
      (a : Bytes) (i b : ℕ)
      → suc i < n
      → feed (at_username p n a i) b ≡ (store a i b >>= λ a'. some (at_username p n a' (suc i)))
  unfolding feed feed_in
  more_username a i b l = ground arith

  last_username :
      (a : Bytes) (i b : ℕ)
      → suc i ≡ n
      → feed (at_username p n a i) b ≡ (store a i b >>= end_username)
  unfolding feed feed_in
  last_username a i b l = ground arith

  run_username :
      (b : ℕ) (bs a : Bytes) (e : Flag) (rest : Bytes)
      → suc (length bs) ≡ n
      → run parser (at_username p n a 0) e (b ∷ (bs ++ rest))
        ≡ ((blit a 0 (b ∷ bs) >>= end_username) >>= λ p'. after parser p' e rest)
  run_username b bs a e rest h =
      run_field parser (at_username p n) n (λ i. i) end_username (λ i. refl) more_username
        (λ a i e. refl) last_username b bs a 0 e rest (omega arith)

  run_username_part :
      (bs a : Bytes) (e : Flag)
      → length bs < n
      → run parser (at_username p n a 0) e bs
        ≡ (blit a 0 bs >>= λ a'. some (at_username p n a' (length bs), e, []))
  run_username_part bs a e h =
      run_field_part parser (at_username p n) n (λ i. i) end_username (λ i. refl) more_username
        (λ a i e. refl) last_username bs a 0 e (omega arith)
      ∙ ap (λ (j : ℕ). blit a 0 bs >>= λ a'. some (at_username p n a' j, e, [])) (omega arith)

  abbrev end_pass : Bytes → Option Auth
  end_pass a = store a n 0 >>= λ a'. some (record (at_pass p n a' n) { state = done })

  more_pass :
      (a : Bytes) (i b : ℕ)
      → suc i < n
      → feed (at_pass p n a i) b ≡ (store a i b >>= λ a'. some (at_pass p n a' (suc i)))
  unfolding feed feed_in
  more_pass a i b l = ground arith

  last_pass :
      (a : Bytes) (i b : ℕ) → suc i ≡ n → feed (at_pass p n a i) b ≡ (store a i b >>= end_pass)
  unfolding feed feed_in
  last_pass a i b l = ground arith

  run_pass :
      (b : ℕ) (bs a : Bytes) (e : Flag) (rest : Bytes)
      → suc (length bs) ≡ n
      → run parser (at_pass p n a 0) e (b ∷ (bs ++ rest))
        ≡ ((blit a 0 (b ∷ bs) >>= end_pass) >>= λ p'. after parser p' e rest)
  run_pass b bs a e rest h =
      run_field parser (at_pass p n) n (λ i. i) end_pass (λ i. refl) more_pass (λ a i e. refl)
        last_pass b bs a 0 e rest (omega arith)

  run_pass_part :
      (bs a : Bytes) (e : Flag)
      → length bs < n
      → run parser (at_pass p n a 0) e bs
        ≡ (blit a 0 bs >>= λ a'. some (at_pass p n a' (length bs), e, []))
  run_pass_part bs a e h =
      run_field_part parser (at_pass p n) n (λ i. i) end_pass (λ i. refl) more_pass (λ a i e. refl)
        last_pass bs a 0 e (omega arith)
      ∙ ap (λ (j : ℕ). blit a 0 bs >>= λ a'. some (at_pass p n a' j, e, [])) (omega arith)

-- The parser after the user name `u`, and after the password `w` too.
abbrev pub named : Bytes → Auth
named u = record init {
  state = passlen;
  user = record { userlen = length u; username = fill u blank };
  remaining = length u;
  read = length u;
}

abbrev pub credentials : Bytes → Bytes → Auth
credentials u w = record init {
  state = done;
  user = record { userlen = length u; username = fill u blank };
  pass = record { passlen = length w; passwd = fill w blank };
  remaining = length w;
  read = length w;
}

-- RFC 1929: version 1, and each of the two behind its length.
abbrev pub message : Bytes → Bytes → Bytes
message u w = 0x01 ∷ length u ∷ (u ++ (length w ∷ w))

pub length-blank : length blank ≡ 255
unfolding blank
length-blank = refl

pub start_user :
    (n : ℕ) (x : Bytes) (e : Flag)
    → suc n < 256
    → run parser init e (0x01 ∷ suc n ∷ x) ≡ run parser (at_username init (suc n) blank 0) e x
unfolding run feed feed_in
start_user n x e l = ground arith

pub start_pass :
    (u : Bytes) (n : ℕ) (x : Bytes) (e : Flag)
    → suc n < 256
    → run parser (named u) e (suc n ∷ x) ≡ run parser (at_pass (named u) (suc n) blank 0) e x
unfolding run feed feed_in
start_pass u n x e l = ground arith

module _ (rest : Bytes) (e : Flag) where
  pub run_user :
      (u : Bytes)
      → u ≢ []
      → length u < 255
      → run parser init e (0x01 ∷ length u ∷ (u ++ rest)) ≡ run parser (named u) e rest
  run_user [] ne l = absurd (ne refl)
  run_user (b ∷ bs) ne l =
      start_user (length bs) (b ∷ (bs ++ rest)) e (omega arith)
      ∙ run_username init (suc (length bs)) (omega arith) b bs blank e rest refl
      ∙ string_fits (b ∷ bs) blank _ _ (omega (arith, length-blank))

  pub run_user_long :
      (u : Bytes) → length u ≡ 255 → run parser init e (0x01 ∷ length u ∷ (u ++ rest)) ≡ none
  run_user_long [] l = absurd (omega arith)
  run_user_long (b ∷ bs) l =
      start_user (length bs) (b ∷ (bs ++ rest)) e (omega arith)
      ∙ run_username init (suc (length bs)) (omega arith) b bs blank e rest refl
      ∙ string_overruns (b ∷ bs) blank _ _ (omega (arith, length-blank))

  pub run_password :
      (u w : Bytes)
      → w ≢ []
      → length w < 255
      → run parser (named u) e (length w ∷ (w ++ rest)) ≡ some (credentials u w, e, rest)
  run_password u [] ne l = absurd (ne refl)
  run_password u (b ∷ bs) ne l =
      start_pass u (length bs) (b ∷ (bs ++ rest)) e (omega arith)
      ∙ run_pass (named u) (suc (length bs)) (omega arith) b bs blank e rest refl
      ∙ string_fits (b ∷ bs) blank _ _ (omega (arith, length-blank))

  pub run_password_long :
      (u w : Bytes) → length w ≡ 255 → run parser (named u) e (length w ∷ (w ++ rest)) ≡ none
  run_password_long u [] l = absurd (omega arith)
  run_password_long u (b ∷ bs) l =
      start_pass u (length bs) (b ∷ (bs ++ rest)) e (omega arith)
      ∙ run_pass (named u) (suc (length bs)) (omega arith) b bs blank e rest refl
      ∙ string_overruns (b ∷ bs) blank _ _ (omega (arith, length-blank))

pub username_part :
    (n : ℕ) (x : Bytes) (e : Flag)
    → suc n < 256
    → length x < suc n
    → run parser init e (0x01 ∷ suc n ∷ x)
      ≡ (blit blank 0 x >>= λ a. some (at_username init (suc n) a (length x), e, []))
username_part n x e small h =
    start_user n x e small ∙ run_username_part init (suc n) small x blank e h

pub pass_part :
    (u : Bytes) (n : ℕ) (x : Bytes) (e : Flag)
    → suc n < 256
    → length x < suc n
    → run parser (named u) e (suc n ∷ x)
      ≡ (blit blank 0 x >>= λ a. some (at_pass (named u) (suc n) a (length x), e, []))
pass_part u n x e small h =
    start_pass u n x e small ∙ run_pass_part (named u) (suc n) small x blank e h

module _ {b : Buffer} (u w rest : Bytes) (e : Flag) (h : Holds b (message u w ++ rest)) where
  -- The message split at the password.
  split : message u w ++ rest ≡ 0x01 ∷ length u ∷ (u ++ (length w ∷ (w ++ rest)))
  split = ap (λ x. 0x01 ∷ length u ∷ x) (append_assoc u (length w ∷ w) rest)

  -- A message whose user name and password have 1 to 254 bytes takes a new parser to `done`: it
  -- holds both, each with its length and the terminator of a C string behind it; the flag is as it
  -- was, and what follows the message stays in the buffer.
  pub auth_consume_message :
      u ≢ []
      → length u < 255
      → w ≢ []
      → length w < 255
      → (b' : Buffer) × (auth_consume b init e ≡ some (credentials u w, e, b'))
        × Holds b' rest
        × (b'.limit ≡ b.limit)
  unfolding auth_consume
  auth_consume_message une ul wne wl =
      consume-eq_of_run parser init e
        (ap (run parser init e) split
          ∙ run_user (length w ∷ (w ++ rest)) e u une ul
          ∙ run_password rest e u w wne wl)
        h

  -- A user name or a password of 255 bytes, which the message format allows, makes the parser write
  -- the terminator behind the end of its array.
  pub auth_consume_overrun :
      (length u ≡ 255) ⊎ ((u ≢ []) × (length u < 255) × (length w ≡ 255))
      → auth_consume b init e ≡ none
  unfolding auth_consume
  auth_consume_overrun (inl ul) =
      consume-none_of_run parser init e
        (ap (run parser init e) split ∙ run_user_long (length w ∷ (w ++ rest)) e u ul) h
  auth_consume_overrun (inr (une, ul, wl)) =
      consume-none_of_run parser init e
        (ap (run parser init e) split
          ∙ run_user (length w ∷ (w ++ rest)) e u une ul
          ∙ run_password_long rest e u w wl)
        h
