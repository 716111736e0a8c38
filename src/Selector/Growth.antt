-- ===== src/Selector/Growth.antt =====
-- How the table grows.
use native.Mathlib.Decide.{dec_lt}
use tp_socks5_proxy.Base.{
  ℕ, zero, suc, ◌-◌, ◌/◌, ◌^◌, ◌≤◌, ◌<◌, ◌≡◌, refl, sym, ap, subst, Option, none, some, [], ◌++◌,
  length-append, length-replicate, replicate, arith,
}
use tp_socks5_proxy.Selector.{
  Item, Selector, success, items_max_size, bits_of, next_capacity, blank, ensure_capacity,
  selector_new,
}
use tp_socks5_proxy.Selector.Items.{item_at, Agrees, IsSelector, item_at-grown}

bits_enough : (f n : ℕ) → n ≤ f → n < 2 ^ bits_of f n
unfolding bits_of
bits_enough zero n l = omega arith
bits_enough (suc f) zero l = omega arith
bits_enough (suc f) (suc n) l =
    let half = bits_enough f (suc n / 2) (omega arith) in
    let one_more : bits_of (suc f) (suc n) ≡ suc (bits_of f (suc n / 2)) = ground arith in
    subst (λ k. suc n < 2 ^ k) (sym one_more) (omega (arith, half))

pub next_capacity_bounds :
    (n : ℕ) → n ≤ items_max_size → (n < next_capacity n) × (next_capacity n ≤ suc items_max_size)
unfolding next_capacity
next_capacity_bounds n l =
    let enough = bits_enough n n (omega arith) in (ground arith, ground arith)

module _ {D : Type 0} where
  -- A table that is grown has room for the descriptor, and the same items.
  pub ensure_capacity_lem :
      (s : Selector D) (n : ℕ)
      → IsSelector s
      → n ≤ items_max_size
      → (s' : Selector D) × (ensure_capacity s n ≡ (success, s'))
        × IsSelector s'
        × (n < s'.fd_size)
        × ((j : ℕ) → item_at s'.fds j ≡ item_at s.fds j)
  unfolding ensure_capacity
  ensure_capacity_lem s n ok l = elim (dec_lt n s.fd_size) [
    | yes fits ↦ (s, ground arith, ok, fits, λ j. refl)
    | no full ↦
        let (more, _) = next_capacity_bounds n l in
        let k = next_capacity n - s.fd_size in
        let grown : Selector D = record s {
          fds = s.fds ++ replicate k none;
          fd_size = next_capacity n;
        } in
        (
          grown,
          ground arith,
          record {
            size = omega (
              arith,
              ok.size,
              length-append s.fds (replicate k none),
              length-replicate {A = Option (Item D)} k none,
            );
            top = omega (arith, ok.top);
            agrees = λ i. subst (Agrees grown i) (sym (item_at-grown s.fds k i)) (ok.agrees i);
          },
          more,
          item_at-grown s.fds k,
        )
  ]

  pub selector_new-IsSelector :
      (n : ℕ)
      → n ≤ items_max_size
      → (s : Selector D) × (selector_new n ≡ some s)
        × IsSelector s
        × ((j : ℕ) → item_at s.fds j ≡ none)
  unfolding selector_new ensure_capacity
  selector_new-IsSelector n l =
      let (more, _) = next_capacity_bounds n l in
      let k = next_capacity n - 0 in
      let made : Selector D = record blank { fds = replicate k none; fd_size = next_capacity n } in
      let grown : ensure_capacity blank n ≡ (success, made) = ground arith in
      let unused : (j : ℕ) → item_at made.fds j ≡ none = item_at-grown [] k in
      (
        made,
        ap (λ x. elim x.0 as (λ y. Option (Selector D)) [ success ↦ some (x.1) | _ ↦ none ]) grown,
        record {
          size = omega (arith, length-replicate {A = Option (Item D)} k none);
          top = omega arith;
          agrees = λ i. subst (Agrees made i) (sym (unused i)) (refl, refl);
        },
        unused,
      )
