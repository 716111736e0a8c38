-- ===== src/Parsing/Collect.antt =====
-- Fields of a message that a parser collects byte by byte into an array.
use tp_socks5_proxy.Base.{
  ℕ, suc, ◌+◌, ◌<◌, ◌≡◌, refl, ap, ◌∙◌, false, Option, none, some, [], ◌∷◌, ◌++◌, Bytes, ◌>>=◌,
  arith, length, store, blit,
}
use tp_socks5_proxy.Parsing.{Parser, Flag}
use tp_socks5_proxy.Parsing.Stream.{run, after, run_cons, run_nil}

bind_part :
    {A B C D : Type 0} (m : Option A) (s : A → B) (f : B → Option D) (g : A → Option C)
    (u : C → Option D)
    → ((a : A) → f (s a) ≡ (g a >>= u))
    → ((m >>= λ a. some (s a)) >>= f) ≡ ((m >>= g) >>= u)
bind_part none s f g u e = refl
bind_part (some a) s f g u e = e a

-- The parser is at `S a i` with the array `a` and `i` of `n` bytes read; byte `i` goes to `place i`.
-- `more` and `last` say what a byte does before the end and at the end.
bind_steps :
    {A B C D E : Type 0} (m : Option A) (s : A → B) (f : B → Option E) (g : A → Option C)
    (h : C → Option D) (u : D → Option E)
    → ((a : A) → f (s a) ≡ ((g a >>= h) >>= u))
    → ((m >>= λ a. some (s a)) >>= f) ≡ (((m >>= g) >>= h) >>= u)
bind_steps none s f g h u e = refl
bind_steps (some a) s f g h u e = e a

module _ (k : Parser) (S : Bytes → ℕ → k.P) (n : ℕ) (place : ℕ → ℕ) (finish : Bytes → Option k.P)
    (next : (i : ℕ) → place (suc i) ≡ suc (place i))
    (more : (a : Bytes) (i b : ℕ)
      → suc i < n
      → k.feed (S a i) b ≡ (store a (place i) b >>= λ a'. some (S a' (suc i))))
    (going : (a : Bytes) (i : ℕ) (e : Flag) → k.is_done (S a i) e ≡ (false, e))
    (last : (a : Bytes) (i b : ℕ)
      → suc i ≡ n
      → k.feed (S a i) b ≡ (store a (place i) b >>= finish)) where
  -- A run over the field's bytes stores them one after another and goes on with what follows.
  pub run_field :
      (b : ℕ) (bs : Bytes) (a : Bytes) (i : ℕ) (e : Flag) (rest : Bytes)
      → i + suc (length bs) ≡ n
      → run k (S a i) e (b ∷ (bs ++ rest))
        ≡ ((blit a (place i) (b ∷ bs) >>= finish) >>= λ p. after k p e rest)
  run_field b [] a i e rest h = rw (run_cons, last a i b (omega arith)) (ground (arith))
  run_field b (c ∷ bs) a i e rest h =
      rw (run_cons, more a i b (omega arith))
        (bind_steps (store a (place i) b) (λ a'. S a' (suc i)) _ _ finish _
          (λ a'. rw (going a' (suc i) e) (
            run_field c bs a' (suc i) e rest (omega arith)
            ∙ ap (λ j. (blit a' j (c ∷ bs) >>= finish) >>= λ p. after k p e rest) (next i))))

  -- Bytes that do not reach the field's end leave the parser inside of the field.
  pub run_field_part :
      (bs a : Bytes) (i : ℕ) (e : Flag)
      → i + length bs < n
      → run k (S a i) e bs ≡ (blit a (place i) bs >>= λ a'. some (S a' (i + length bs), e, []))
  run_field_part [] a i e h = run_nil k (S a i) e ∙ ap (λ j. some (S a j, e, [])) (omega arith)
  run_field_part (b ∷ bs) a i e h =
      rw (run_cons, more a i b (omega arith))
        (bind_part (store a (place i) b) (λ a'. S a' (suc i)) _ _ _
          (λ a'. rw (going a' (suc i) e) (
            run_field_part bs a' (suc i) e (omega arith)
            ∙ ap (λ j. blit a' j bs >>= λ x. some (S x (suc i + length bs), e, [])) (next i)
            ∙ ap (λ (j : ℕ). blit a' (suc (place i)) bs >>= λ x. some (S x j, e, []))
                (omega arith))))
