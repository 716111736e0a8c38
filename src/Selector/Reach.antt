-- ===== src/Selector/Reach.antt =====
-- Whatever the order of the calls, the selector stays well-formed.
use native.Mathlib.Decide.{ℕ_discrete, dec_lt}
use tp_socks5_proxy.Base.{
  ℕ, ◌≤◌, ◌<◌, ◌≡◌, sym, ap, subst, ◌∙◌, inl, inr, Option, none, some, length, some_injective,
  arith,
}
use tp_socks5_proxy.Selector.{
  Item, Selector, Status, items_max_size, selector_new, selector_register, selector_set_interest,
  selector_unregister_fd,
}
use tp_socks5_proxy.Selector.Items.{IsSelector}
use tp_socks5_proxy.Selector.Growth.{selector_new-IsSelector}
use tp_socks5_proxy.Selector.Highest.{not_both}
use tp_socks5_proxy.Selector.Register.{selector_register_lem, selector_register_overrun, no_item}
use tp_socks5_proxy.Selector.Unregister.{selector_set_interest_lem, selector_unregister_fd_lem}

module _ {D : Type 0} where
  -- The selectors that calls lead to, each of which returned.
  pub data Reach : Selector D → Type 0 where
    made : {s : Selector D} (n : ℕ) → n ≤ items_max_size → selector_new n ≡ some s → Reach s
    registered :
        {s s' : Selector D} {r : Status} (fd interest : ℕ) (d : D)
        → Reach s
        → selector_register s fd interest d ≡ some (r, s')
        → Reach s'
    changed :
        {s s' : Selector D} {r : Status} (fd interest : ℕ)
        → Reach s
        → selector_set_interest s fd interest ≡ some (r, s')
        → Reach s'
    removed :
        {s s' : Selector D} {r : Status} {closed : Option (Item D)} (fd : ℕ)
        → Reach s
        → selector_unregister_fd s fd ≡ some (r, closed, s')
        → Reach s'

  same_end :
      {o : Option (Status × Selector D)} {r r' : Status} {s s' : Selector D}
      → o ≡ some (r, s)
      → o ≡ some (r', s')
      → IsSelector s
      → IsSelector s'
  same_end a b = subst IsSelector (ap (λ x. x.1) (some_injective (sym a ∙ b)))

  register_large :
      (s : Selector D) (fd interest : ℕ) (d : D) {r : Status} {s' : Selector D}
      → items_max_size ≤ fd
      → selector_register s fd interest d ≡ some (r, s')
      → s ≡ s'
  unfolding selector_register
  register_large s fd interest d l h = ground arith

  register-IsSelector :
      (s : Selector D) (it : Item D) {r : Status} {s' : Selector D}
      → IsSelector s
      → selector_register s it.fd it.interest it.data_of ≡ some (r, s')
      → IsSelector s'
  register-IsSelector s it ok h = elim (dec_lt it.fd items_max_size) [
    | no large ↦ subst IsSelector (register_large s it.fd it.interest it.data_of (omega arith) h) ok
    | yes small ↦ elim (ℕ_discrete it.fd s.fd_size) [
      | yes e ↦
          absurd (not_both h (selector_register_overrun s it.fd it.interest it.data_of ok e small))
      | no ne ↦ elim (selector_register_lem s it ok small ne) [
        | inl fresh ↦ let (_, (t, e, ok', _, _)) = fresh in same_end e h ok'
        | inr taken ↦ let (_, _, e) = taken in same_end e h ok
      ]
    ]
  ]

  interest_large :
      (s : Selector D) (fd interest : ℕ) {r : Status} {s' : Selector D}
      → items_max_size ≤ fd
      → selector_set_interest s fd interest ≡ some (r, s')
      → s ≡ s'
  unfolding selector_set_interest
  interest_large s fd interest l h = ground arith

  interest_outside :
      (s : Selector D) (fd interest : ℕ)
      → fd < items_max_size
      → length s.fds ≤ fd
      → selector_set_interest s fd interest ≡ none
  unfolding selector_set_interest
  interest_outside s fd interest l out = let gone = no_item s.fds fd out in ground (arith, gone)

  interest-IsSelector :
      (s : Selector D) (fd interest : ℕ) {r : Status} {s' : Selector D}
      → IsSelector s
      → selector_set_interest s fd interest ≡ some (r, s')
      → IsSelector s'
  interest-IsSelector s fd interest ok h = elim (dec_lt fd items_max_size) [
    | no large ↦ subst IsSelector (interest_large s fd interest (omega arith) h) ok
    | yes small ↦ elim (dec_lt fd s.fd_size) [
      | no out ↦ absurd (not_both h (interest_outside s fd interest small (omega (arith, ok.size))))
      | yes l ↦ elim (selector_set_interest_lem s fd interest ok small l) [
        | inl done ↦ let (_, _, (t, e, ok', _, _)) = done in same_end e h ok'
        | inr refused ↦ same_end refused.1 h ok
      ]
    ]
  ]

  remove_large :
      (s : Selector D) (fd : ℕ) {r : Status} {c : Option (Item D)} {s' : Selector D}
      → items_max_size ≤ fd
      → selector_unregister_fd s fd ≡ some (r, c, s')
      → s ≡ s'
  unfolding selector_unregister_fd
  remove_large s fd l h = ground arith

  remove_outside :
      (s : Selector D) (fd : ℕ)
      → fd < items_max_size
      → length s.fds ≤ fd
      → selector_unregister_fd s fd ≡ none
  unfolding selector_unregister_fd
  remove_outside s fd l out = let gone = no_item s.fds fd out in ground (arith, gone)

  same_end_of_three :
      {o : Option (Status × Option (Item D) × Selector D)} {r r' : Status} {c c' : Option (Item D)}
      {s s' : Selector D}
      → o ≡ some (r, c, s)
      → o ≡ some (r', c', s')
      → IsSelector s
      → IsSelector s'
  same_end_of_three a b = subst IsSelector (ap (λ x. x.2) (some_injective (sym a ∙ b)))

  remove-IsSelector :
      (s : Selector D) (fd : ℕ) {r : Status} {c : Option (Item D)} {s' : Selector D}
      → IsSelector s
      → selector_unregister_fd s fd ≡ some (r, c, s')
      → IsSelector s'
  remove-IsSelector s fd ok h = elim (dec_lt fd items_max_size) [
    | no large ↦ subst IsSelector (remove_large s fd (omega arith) h) ok
    | yes small ↦ elim (dec_lt fd s.fd_size) [
      | no out ↦ absurd (not_both h (remove_outside s fd small (omega (arith, ok.size))))
      | yes l ↦ elim (selector_unregister_fd_lem s fd ok small l) [
        | inl done ↦ let (_, _, (t, e, ok', _, _, _, _)) = done in same_end_of_three e h ok'
        | inr refused ↦ same_end_of_three refused.1 h ok
      ]
    ]
  ]

  pub Reach-IsSelector : {s : Selector D} → Reach s → IsSelector s
  Reach-IsSelector (made n l h) =
      let (t, e, ok, _) = selector_new-IsSelector n l in
      subst IsSelector (some_injective (sym e ∙ h)) ok
  Reach-IsSelector (registered fd interest d r h) =
      register-IsSelector _ (record { fd = fd; interest = interest; data_of = d })
        (Reach-IsSelector r) h
  Reach-IsSelector (changed fd interest r h) =
      interest-IsSelector _ fd interest (Reach-IsSelector r) h
  Reach-IsSelector (removed fd r h) = remove-IsSelector _ fd (Reach-IsSelector r) h
