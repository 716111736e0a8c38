-- ===== src/Selector/Highest.antt =====
-- `items_max_fd`: the highest descriptor in use.
use native.Mathlib.Decide.{ℕ_discrete}
use tp_socks5_proxy.Base.{
  ℕ, zero, suc, ◌+◌, ◌≤◌, ◌<◌, ◌≡◌, ◌⊎◌, inl, inr, refl, ap, ◌∙◌, Option, none, some, List, max,
  length, arith,
}
use tp_socks5_proxy.Selector.{Item, max_loop}
use tp_socks5_proxy.Selector.Items.{item_at, get_elem?-item_at}

pub not_both : {A : Type 0} {o : Option A} {x : A} → o ≡ some x → o ≡ none → ⊥
not_both a b = cc

module _ {D : Type 0} where
  -- The result is the start, or a place in use.
  abbrev pub Comes : List (Option (Item D)) → ℕ → ℕ → Type 0
  Comes xs m r = (r ≡ m) ⊎ ((it : Item D) × (item_at xs r ≡ some it))

  Comes-used :
      (xs : List (Option (Item D))) (i m : ℕ) {r : ℕ} (x : Item D)
      → item_at xs i ≡ some x
      → x.fd ≡ i
      → Comes xs (max x.fd m) r
      → Comes xs m r
  Comes-used xs i m {r} x used here (inr it) = inr it
  Comes-used xs i m {r} x used here (inl e) = elim (ℕ_discrete r i) [
    | yes same ↦ inr (x, ap (item_at xs) same ∙ used)
    | no ne ↦ inl (omega (arith, here, e))
  ]

  -- The loop finds a bound of the items in its range, from a bound of those before it.
  abbrev pub Bound : List (Option (Item D)) → ℕ → ℕ → ℕ → Type 0
  Bound xs n i m =
      (r : ℕ) × (max_loop xs n i m ≡ some r)
      × (m ≤ r)
      × (r < max (suc m) (i + n))
      × Comes xs m r
      × ((j : ℕ) (it : Item D) → i ≤ j → j < i + n → item_at xs j ≡ some it → j ≤ r)

  step_free :
      (xs : List (Option (Item D))) (n i m : ℕ)
      → i < length xs
      → item_at xs i ≡ none
      → Bound xs n (suc i) m
      → Bound xs (suc n) i m
  unfolding max_loop
  step_free xs n i m l free (r, e, above, below, comes, all) = (
    r,
    rw (get_elem?-item_at xs i l, free) e,
    above,
    omega arith,
    comes,
    λ j it a b h. elim (ℕ_discrete i j) [
      | yes same ↦ absurd (not_both (ap (item_at xs) same ∙ h) free)
      | no ne ↦ all j it (omega arith) (omega arith) h
    ],
  )

  step_used :
      (xs : List (Option (Item D))) (n i m : ℕ) (x : Item D)
      → i < length xs
      → item_at xs i ≡ some x
      → x.fd ≡ i
      → Bound xs n (suc i) (max x.fd m)
      → Bound xs (suc n) i m
  unfolding max_loop
  step_used xs n i m x l used here (r, e, above, below, comes, all) = (
    r,
    rw (get_elem?-item_at xs i l, used) e,
    omega arith,
    omega (arith, here),
    Comes-used xs i m x used here comes,
    λ j it a b h. elim (ℕ_discrete i j) [
      | yes same ↦ omega (arith, here, above, same)
      | no ne ↦ all j it (omega arith) (omega arith) h
    ],
  )

  step_at :
      (xs : List (Option (Item D))) (n i m : ℕ) (old : Option (Item D))
      → i < length xs
      → ((j : ℕ) (it : Item D) → item_at xs j ≡ some it → it.fd ≡ j)
      → ((m' : ℕ) → Bound xs n (suc i) m')
      → item_at xs i ≡ old
      → Bound xs (suc n) i m
  step_at xs n i m none l placed rest free = step_free xs n i m l free (rest m)
  step_at xs n i m (some x) l placed rest used =
      step_used xs n i m x l used (placed i x used) (rest (max x.fd m))

  pub max_loop_lem :
      (xs : List (Option (Item D))) (n i m : ℕ)
      → i + n ≤ length xs
      → ((j : ℕ) (it : Item D) → item_at xs j ≡ some it → it.fd ≡ j)
      → Bound xs n i m
  unfolding max_loop
  max_loop_lem xs zero i m l placed =
      (m, refl, omega arith, omega arith, inl refl, λ j it a b h. absurd (omega arith))
  max_loop_lem xs (suc n) i m l placed =
      step_at xs n i m (item_at xs i) (omega arith) placed
        (λ m'. max_loop_lem xs n (suc i) m' (omega arith) placed) refl
