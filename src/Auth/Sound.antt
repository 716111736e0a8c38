-- ===== src/Auth/Sound.antt =====
-- When `auth_consume` reports that it is done, and what it reports of a message that it refuses.
use tp_socks5_proxy.Base.{
  ℕ, zero, suc, ◌<◌, ◌≡◌, ◌≢◌, refl, sym, ap, ap₂, ◌∙◌, subst, Option, none, some, [], ◌∷◌, ◌++◌,
  append_assoc, Bytes, ◌>>=◌, some_injective, arith, length, AreBytes, AreBytes-append, split_at,
}
use native.Mathlib.Decide.{dec_lt, ℕ_discrete}
use tp_socks5_proxy.Buffer.{Buffer}
use tp_socks5_proxy.Buffer.Holds.{Holds}
use tp_socks5_proxy.Parsing.{Flag, raise}
use tp_socks5_proxy.Parsing.Stream.{run, run_nil, run_of_consume, consume-eq_of_run}
use tp_socks5_proxy.Auth.{
  Auth, userlen, done, init, feed_in, feed, parser, auth_consume, error_unsupported_version,
  error_user_len, error_pass_len,
}
use tp_socks5_proxy.Auth.Message.{
  named, credentials, message, run_user, run_user_long, run_password, run_password_long,
  username_part, pass_part,
}

-- What a run left: the parser, the flag and the bytes that were not read.
abbrev pub Outcome : Type 0
Outcome = Auth × Flag × Bytes

not_done : {o' o : Outcome} → some o' ≡ some o → o'.0.state ≢ done → o.0.state ≢ done
not_done h ne s = ne (ap (λ (x : Outcome). x.0.state) (some_injective h) ∙ s)

-- A run that ended inside of a field is not done.
not_inside :
    (m : Option Bytes) (f : Bytes → Outcome) {o : Outcome}
    → ((a : Bytes) → (f a).0.state ≢ done)
    → (m >>= λ a. some (f a)) ≡ some o
    → o.0.state ≢ done
not_inside none f ne h = cc
not_inside (some a) f ne h = not_done h (ne a)

-- The bytes `x`, read with the outcome `o`, are a password with its length, and what is left.
record IsPassword (u x : Bytes) (e : Flag) (o : Outcome) : Type 0 where
  word : Bytes
  layout : x ≡ length word ∷ (word ++ o.2)
  not_empty : word ≢ []
  short : length word < 255
  held : o.0 ≡ credentials u word
  flag : o.1 ≡ e

run_no_word :
    (u y : Bytes) (e : Flag)
    → run parser (named u) e (0 ∷ y)
      ≡ some (record (named u) { state = error_pass_len }, raise e, y)
unfolding run feed feed_in
run_no_word u y e = refl

sound-IsPassword :
    (u x : Bytes) (e : Flag) (o : Outcome)
    → AreBytes x
    → run parser (named u) e x ≡ some o
    → o.0.state ≡ done
    → IsPassword u x e o
sound-IsPassword u [] e o bytes h s =
    absurd (not_done (sym (run_nil parser (named u) e) ∙ h) (λ t. cc) s)
sound-IsPassword u (zero ∷ y) e o bytes h s =
    absurd (not_done (sym (run_no_word u y e) ∙ h) (λ t. cc) s)
sound-IsPassword u (suc n ∷ y) e o bytes h s = elim (dec_lt (length y) (suc n)) [
  | yes short ↦ absurd (not_inside _ _ (λ a t. cc) (sym (pass_part u n y e bytes.0 short) ∙ h) s)
  | no long ↦ whole (split_at (suc n) y (omega arith))
]
  where
    whole :
        (pre : Bytes) × (post : Bytes) × (y ≡ pre ++ post) × (length pre ≡ suc n)
        → IsPassword u (suc n ∷ y) e o
    whole (w, post, es, l) = elim (dec_lt (length w) 255) [
      | yes fits ↦
          subst (λ z. IsPassword u (suc n ∷ y) e z)
            (some_injective (sym (run_password post e u w not_empty fits) ∙ h'))
            (record {
              word = w;
              layout = layout;
              not_empty = not_empty;
              short = fits;
              held = refl;
              flag = refl;
            })
      | no full ↦ cc (run_password_long post e u w (omega (arith, bytes.0)), h')
    ]
      where
        layout : suc n ∷ y ≡ length w ∷ (w ++ post)
        layout = ap₂ ◌∷◌ (sym l) es

        h' : run parser (named u) e (length w ∷ (w ++ post)) ≡ some o
        h' = subst (λ z. run parser (named u) e z ≡ some o) layout h

        not_empty : w ≢ []
        not_empty e = absurd (omega (arith, ap length e, l))

-- The bytes `cs`, read with the outcome `o`, are a message, and what is left.
pub record IsMessage (cs : Bytes) (e : Flag) (o : Outcome) : Type 0 where
  pub name : Bytes
  pub word : Bytes
  pub layout : cs ≡ message name word ++ o.2
  pub name_length : (name ≢ []) × (length name < 255)
  pub word_length : (word ≢ []) × (length word < 255)
  pub held : o.0 ≡ credentials name word
  pub flag : o.1 ≡ e

run_version :
    (v : ℕ) (cs : Bytes) (e : Flag)
    → v ≢ 1
    → run parser init e (v ∷ cs)
      ≡ some (record init { state = error_unsupported_version }, raise e, cs)
unfolding run feed feed_in
run_version v cs e h = ground arith

run_no_name :
    (cs : Bytes) (e : Flag)
    → run parser init e (1 ∷ 0 ∷ cs) ≡ some (record init { state = error_user_len }, raise e, cs)
unfolding run feed feed_in
run_no_name cs e = refl

run_short : (e : Flag) → run parser init e (1 ∷ []) ≡ some (record init { state = userlen }, e, [])
unfolding run feed feed_in
run_short e = refl

after_version :
    (cs : Bytes) (e : Flag) (o : Outcome)
    → AreBytes cs
    → run parser init e (1 ∷ cs) ≡ some o
    → o.0.state ≡ done
    → IsMessage (1 ∷ cs) e o
after_version [] e o bytes h s = absurd (not_done (sym (run_short e) ∙ h) (λ t. cc) s)
after_version (zero ∷ cs) e o bytes h s = absurd (not_done (sym (run_no_name cs e) ∙ h) (λ t. cc) s)
after_version (suc n ∷ y) e o bytes h s = elim (dec_lt (length y) (suc n)) [
  | yes short ↦ absurd (not_inside _ _ (λ a t. cc) (sym (username_part n y e bytes.0 short) ∙ h) s)
  | no long ↦ whole (split_at (suc n) y (omega arith))
]
  where
    whole :
        (pre : Bytes) × (post : Bytes) × (y ≡ pre ++ post) × (length pre ≡ suc n)
        → IsMessage (1 ∷ suc n ∷ y) e o
    whole (u, post, es, l) = elim (dec_lt (length u) 255) [
      | yes fits ↦
          (let w =
              sound-IsPassword u post e o (AreBytes-append u post (subst AreBytes es bytes.1))
                (sym (run_user post e u not_empty fits) ∙ h') s in
            record {
              name = u;
              word = w.word;
              layout =
                  ap (◌∷◌ 1) (layout ∙ ap (λ z. length u ∷ (u ++ z)) w.layout)
                  ∙ sym (ap (λ z. 1 ∷ length u ∷ z) (append_assoc u (length w.word ∷ w.word) o.2));
              name_length = (not_empty, fits);
              word_length = (w.not_empty, w.short);
              held = w.held;
              flag = w.flag;
            })
      | no full ↦ cc (run_user_long post e u (omega (arith, bytes.0)), h')
    ]
      where
        layout : suc n ∷ y ≡ length u ∷ (u ++ post)
        layout = ap₂ ◌∷◌ (sym l) es

        h' : run parser init e (1 ∷ length u ∷ (u ++ post)) ≡ some o
        h' = subst (λ z. run parser init e (1 ∷ z) ≡ some o) layout h

        not_empty : u ≢ []
        not_empty e = absurd (omega (arith, ap length e, l))

sound-IsMessage :
    (cs : Bytes) (e : Flag) (o : Outcome)
    → AreBytes cs
    → run parser init e cs ≡ some o
    → o.0.state ≡ done
    → IsMessage cs e o
sound-IsMessage [] e o bytes h s = absurd (not_done (sym (run_nil parser init e) ∙ h) (λ t. cc) s)
sound-IsMessage (v ∷ cs) e o bytes h s = elim (ℕ_discrete v 1) [
  | no other ↦ absurd (not_done (sym (run_version v cs e other) ∙ h) (λ t. cc) s)
  | yes one ↦
      subst (λ v. IsMessage (v ∷ cs) e o) (sym one)
        (after_version cs e o bytes.1 (subst (λ v. run parser init e (v ∷ cs) ≡ some o) one h) s)
]

module _ {b : Buffer} {cs : Bytes} (e : Flag) (h : Holds b cs) where
  -- `auth_consume` reports `done` of nothing but a message: if a new parser is done, then the bytes
  -- that it took are a version 1, a user name and a password, each of 1 to 254 bytes and behind its
  -- length; the parser holds just these, the flag is as it was and the buffer holds the rest.
  pub auth_consume_sound :
      {p' : Auth} {e' : Flag} {b' : Buffer}
      → AreBytes cs
      → auth_consume b init e ≡ some (p', e', b')
      → p'.state ≡ done
      → (rest : Bytes) × Holds b' rest × IsMessage cs e (p', e', rest)
  unfolding auth_consume
  auth_consume_sound {p'} {e'} bytes c s =
      let (rest, r, held) = run_of_consume parser init e c h in
      (rest, held, sound-IsMessage cs e (p', e', rest) bytes r s)

-- The three errors of the format: another version, a user name of no bytes and a password of no
-- bytes, each with the bytes up to the wrong one and the parser at the end.
pub data Refused : Bytes → Auth → Type 0 where
  bad_version :
      (v : ℕ) → v ≢ 1 → Refused (v ∷ []) (record init { state = error_unsupported_version })
  no_name : Refused (1 ∷ 0 ∷ []) (record init { state = error_user_len })
  no_word :
      (u : Bytes)
      → u ≢ []
      → length u < 255
      → Refused (1 ∷ length u ∷ (u ++ (0 ∷ []))) (record (named u) { state = error_pass_len })

run-Refused :
    {taken : Bytes} {p : Auth} (rest : Bytes) (e : Flag)
    → Refused taken p
    → run parser init e (taken ++ rest) ≡ some (p, raise e, rest)
run-Refused rest e (bad_version v ne) = run_version v rest e ne
run-Refused rest e no_name = run_no_name rest e
run-Refused rest e (no_word u ne l) =
    ap (λ x. run parser init e (1 ∷ length u ∷ x)) (append_assoc u (0 ∷ []) rest)
    ∙ run_user (0 ∷ rest) e u ne l
    ∙ run_no_word u rest e

-- Each error of the format takes a new parser to its error state, raises the flag and stops behind
-- the byte that is wrong: what follows stays in the buffer.
pub auth_consume_refuses :
    {b : Buffer} {taken : Bytes} {p : Auth} (rest : Bytes) (e : Flag)
    → Refused taken p
    → Holds b (taken ++ rest)
    → (b' : Buffer) × (auth_consume b init e ≡ some (p, raise e, b'))
      × Holds b' rest
      × (b'.limit ≡ b.limit)
unfolding auth_consume
auth_consume_refuses rest e r h = consume-eq_of_run parser init e (run-Refused rest e r) h
