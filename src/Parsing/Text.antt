-- ===== src/Parsing/Text.antt =====
-- Fields that a parser collects into an array and closes with the terminator of a C string.
use tp_socks5_proxy.Base.{
  ℕ, suc, ◌<◌, ◌≡◌, ◌≢◌, refl, sym, ap, ◌∙◌, false, none, some, [], ◌∷◌, ◌++◌, Bytes, ◌>>=◌, arith,
  length, store, blit, fill, string_fits, string_overruns,
}
use tp_socks5_proxy.Parsing.{Parser, Flag}
use tp_socks5_proxy.Parsing.Stream.{run, after}
use tp_socks5_proxy.Parsing.Collect.{run_field}

-- The parser is at `S a i` with the array `a` and `i` of `n` bytes read, and goes to `T` behind the
-- terminator.
module _ (k : Parser) (S : Bytes → ℕ → k.P) (n : ℕ) (T : Bytes → k.P)
    (more : (a : Bytes) (i b : ℕ)
      → suc i < n
      → k.feed (S a i) b ≡ (store a i b >>= λ a'. some (S a' (suc i))))
    (going : (a : Bytes) (i : ℕ) (e : Flag) → k.is_done (S a i) e ≡ (false, e))
    (last : (a : Bytes) (i b : ℕ)
      → suc i ≡ n
      → k.feed (S a i) b ≡ (store a i b >>= λ a'. store a' n 0 >>= λ a''. some (T a''))) where
  run_cells :
      (bs a : Bytes) (e : Flag) (rest : Bytes)
      → bs ≢ []
      → length bs ≡ n
      → run k (S a 0) e (bs ++ rest) ≡ (
          (blit a 0 bs >>= λ a'. store a' (length bs) 0 >>= λ a''. some (T a'')) >>= λ p.
          after k p e rest)
  run_cells [] a e rest ne l = absurd (ne refl)
  run_cells (b ∷ bs) a e rest ne l =
      run_field k S n (λ i. i) (λ a'. store a' n 0 >>= λ a''. some (T a'')) (λ i. refl) more going
        last b bs a 0 e rest (omega arith)
      ∙ ap
          (λ j. (blit a 0 (b ∷ bs) >>= λ a'. store a' j 0 >>= λ a''. some (T a'')) >>= λ p.
            after k p e rest)
          (sym l)

  -- A text that is shorter than its array.
  pub run_text :
      (bs a : Bytes) (e : Flag) (rest : Bytes)
      → bs ≢ []
      → length bs ≡ n
      → n < length a
      → run k (S a 0) e (bs ++ rest) ≡ after k (T (fill bs a)) e rest
  run_text bs a e rest ne l fits = run_cells bs a e rest ne l ∙ string_fits bs a T _ (omega arith)

  -- A text that is as long as its array.
  pub run_text_overrun :
      (bs a : Bytes) (e : Flag) (rest : Bytes)
      → bs ≢ []
      → length bs ≡ n
      → n ≡ length a
      → run k (S a 0) e (bs ++ rest) ≡ none
  run_text_overrun bs a e rest ne l full =
      run_cells bs a e rest ne l ∙ string_overruns bs a T _ (omega arith)
