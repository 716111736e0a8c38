-- ===== src/Selector/Register.antt =====
-- What registering a descriptor does to a selector.
use native.Mathlib.Decide.{dec_lt}
use tp_socks5_proxy.Base.{
  ℕ, zero, suc, ◌≤◌, ◌<◌, ◌≡◌, ◌≢◌, refl, sym, ap, subst, ◌∙◌, ◌⊎◌, inl, inr, Option, none, some,
  List, [], ◌∷◌, ◌>>=◌, max, length, get_elem?, arith,
}
use tp_socks5_proxy.Selector.{
  Item, Selector, Status, success, fdinuse, items_max_size, ensure_capacity,
  items_update_fdset_for_fd, register_at, selector_register,
}
use tp_socks5_proxy.Selector.Items.{item_at, IsSelector, set_item_lem, get_elem?-item_at}
use tp_socks5_proxy.Selector.Put.{put, put-IsSelector}
use tp_socks5_proxy.Selector.Growth.{ensure_capacity_lem}

module _ {D : Type 0} where
  -- What registering gives: the new item, or a refusal.
  abbrev pub Registered : Selector D → Item D → Option (Status × Selector D) → Type 0
  Registered s it o =
      ((item_at s.fds it.fd ≡ none)
        × ((s' : Selector D) × (o ≡ some (success, s'))
            × IsSelector s'
            × (item_at s'.fds it.fd ≡ some it)
            × ((j : ℕ) → j ≢ it.fd → item_at s'.fds j ≡ item_at s.fds j)))
      ⊎ ((old : Item D) × (item_at s.fds it.fd ≡ some old) × (o ≡ some (fdinuse, s)))

  register_at_lem :
      (s : Selector D) (it : Item D) (old : Option (Item D))
      → IsSelector s
      → it.fd < s.fd_size
      → item_at s.fds it.fd ≡ old
      → Registered s it (register_at s it.fd it.interest it.data_of)
  unfolding register_at items_update_fdset_for_fd
  register_at_lem s it none ok l free =
      let (xs, e, k, here, other) = set_item_lem s.fds it.fd (some it) (omega (arith, ok.size)) in
      let at = get_elem?-item_at s.fds it.fd (omega (arith, ok.size)) in
      let top = max it.fd s.max_fd in
      inl (
        free,
        (
          put s xs it.fd it.interest top,
          rw (at, free, e) refl,
          put-IsSelector s xs it top ok k here other (omega arith) (omega arith)
              (omega (arith, ok.top)),
          here,
          other,
        ),
      )
  register_at_lem s it (some old) ok l used =
      let at = get_elem?-item_at s.fds it.fd (omega (arith, ok.size)) in
      inr (old, used, rw (at, used) refl)

  pub no_item : (xs : List (Option (Item D))) (i : ℕ) → length xs ≤ i → get_elem? xs i ≡ none
  no_item [] i l = refl
  no_item (x ∷ xs) zero l = absurd (omega arith)
  no_item (x ∷ xs) (suc i) l = no_item xs i (omega arith)

  outside : (xs : List (Option (Item D))) (i : ℕ) → length xs ≤ i → item_at xs i ≡ none
  outside xs i l = ap (λ m. m >>= λ x. x) (no_item xs i l)

  abbrev register_after : Item D → Status × Selector D → Option (Status × Selector D)
  register_after it (status, s') = elim status [
    | success ↦ register_at s' it.fd it.interest it.data_of
    | other ↦ some (other, s')
  ]

  abbrev grow : Selector D → Item D → Option (Status × Selector D)
  grow s it = register_after it (ensure_capacity s it.fd)

  register_grown :
      (s s' : Selector D) (it : Item D)
      → it.fd < items_max_size
      → s.fd_size < it.fd
      → ensure_capacity s it.fd ≡ (success, s')
      → selector_register s it.fd it.interest it.data_of
        ≡ register_at s' it.fd it.interest it.data_of
  unfolding selector_register
  register_grown s s' it l big grown =
      let guards : selector_register s it.fd it.interest it.data_of ≡ grow s it = ground arith in
      guards ∙ ap (register_after it) grown

  register_small :
      (s : Selector D) (it : Item D)
      → it.fd < items_max_size
      → it.fd < s.fd_size
      → selector_register s it.fd it.interest it.data_of
        ≡ register_at s it.fd it.interest it.data_of
  unfolding selector_register
  register_small s it l small = ground arith

  some_not_none : {x : Item D} → some x ≡ none → ⊥
  some_not_none e = cc

  moved :
      (s s' : Selector D) (it : Item D) (o : Option (Status × Selector D))
      → ((j : ℕ) → item_at s'.fds j ≡ item_at s.fds j)
      → item_at s.fds it.fd ≡ none
      → Registered s' it o
      → Registered s it o
  moved s s' it o same free (inl (_, (t, e, ok, here, other))) =
      inl (free, (t, e, ok, here, λ j ne. other j ne ∙ same j))
  moved s s' it o same free (inr (old, used, e)) =
      absurd (some_not_none (sym used ∙ same it.fd ∙ free))

  pub selector_register_lem :
      (s : Selector D) (it : Item D)
      → IsSelector s
      → it.fd < items_max_size
      → it.fd ≢ s.fd_size
      → Registered s it (selector_register s it.fd it.interest it.data_of)
  selector_register_lem s it ok l ne = elim (dec_lt it.fd s.fd_size) [
    | yes small ↦
        subst (Registered s it) (sym (register_small s it l small))
          (register_at_lem s it (item_at s.fds it.fd) ok small refl)
    | no not_small ↦
        let (s', grown, ok', room, same) = ensure_capacity_lem s it.fd ok (omega arith) in
        let free = outside s.fds it.fd (omega (arith, ok.size)) in
        subst (Registered s it) (sym (register_grown s s' it l (omega arith) grown))
          (moved s s' it _ same free (register_at_lem s' it none ok' room (same it.fd ∙ free)))
  ]

  -- The descriptor that is the size of the table.
  pub selector_register_overrun :
      (s : Selector D) (fd interest : ℕ) (d : D)
      → IsSelector s
      → fd ≡ s.fd_size
      → fd < items_max_size
      → selector_register s fd interest d ≡ none
  unfolding selector_register register_at
  selector_register_overrun s fd interest d ok e l =
      let gone : get_elem? s.fds fd ≡ none = no_item s.fds fd (omega (arith, ok.size)) in
      ground (arith, gone)
