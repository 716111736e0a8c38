-- ===== src/Selector/Unregister.antt =====
-- What changing the interest of a descriptor and taking it out do to a selector.
use native.Mathlib.Decide.{ℕ_discrete}
use tp_socks5_proxy.Base.{
  ℕ, suc, ◌≤◌, ◌<◌, ◌≡◌, ◌≢◌, refl, sym, ap, subst, ◌∙◌, ◌⊎◌, inl, inr, false, Option, none, some,
  List, leb, length, arith,
}
use tp_socks5_proxy.Selector.{
  Item, Selector, Status, success, iargs, items_max_size, op_noop, items_update_fdset_for_fd,
  items_max_fd, selector_set_interest, selector_unregister_fd,
}
use tp_socks5_proxy.Selector.Items.{
  item_at, Agrees, IsSelector, set_item_lem, get_elem?-item_at, fd_put-same, fd_put-other,
}
use tp_socks5_proxy.Selector.Highest.{not_both, max_loop_lem}
use tp_socks5_proxy.Selector.Put.{put, put-IsSelector}

below_limit : (fd : ℕ) → fd < items_max_size → leb items_max_size fd ≡ false
below_limit fd l = ground arith

module _ {D : Type 0} where
  -- What a new interest gives: the item with it, or a refusal.
  abbrev pub Changed : Selector D → ℕ → ℕ → Option (Status × Selector D) → Type 0
  Changed s fd interest o =
      ((it : Item D) × (item_at s.fds fd ≡ some it)
        × ((s' : Selector D) × (o ≡ some (success, s'))
            × IsSelector s'
            × (item_at s'.fds fd ≡ some (record it { interest = interest }))
            × ((j : ℕ) → j ≢ fd → item_at s'.fds j ≡ item_at s.fds j)))
      ⊎ ((item_at s.fds fd ≡ none) × (o ≡ some (iargs, s)))

  change_at :
      (s : Selector D) (fd interest : ℕ) (old : Option (Item D))
      → IsSelector s
      → fd < items_max_size
      → fd < s.fd_size
      → item_at s.fds fd ≡ old
      → Changed s fd interest (selector_set_interest s fd interest)
  unfolding selector_set_interest items_update_fdset_for_fd
  change_at s fd interest none ok small l free =
      let at = get_elem?-item_at s.fds fd (omega (arith, ok.size)) in
      inr (free, rw (below_limit fd small, at, free) refl)
  change_at s fd interest (some it) ok small l used =
      let at = get_elem?-item_at s.fds fd (omega (arith, ok.size)) in
      let new : Item D = record it { interest = interest } in
      let (same, high, _, _) = subst (Agrees s fd) used (ok.agrees fd) in
      let (xs, e, k, here, other) = set_item_lem s.fds fd (some new) (omega (arith, ok.size)) in
      inl (
        it,
        used,
        (
          put s xs it.fd interest s.max_fd,
          rw (below_limit fd small, at, used, e) refl,
          put-IsSelector s xs new s.max_fd ok k
              (subst (λ i. item_at xs i ≡ some new) (sym same) here)
              (λ j ne. other j (λ q. ne (q ∙ sym same))) (omega arith) (omega (arith, same)) ok.top,
          here,
          other,
        ),
      )

  pub selector_set_interest_lem :
      (s : Selector D) (fd interest : ℕ)
      → IsSelector s
      → fd < items_max_size
      → fd < s.fd_size
      → Changed s fd interest (selector_set_interest s fd interest)
  selector_set_interest_lem s fd interest ok small l =
      change_at s fd interest (item_at s.fds fd) ok small l refl

  Agrees-clear :
      (s : Selector D) (xs : List (Option (Item D))) (fd top i : ℕ) (x : Option (Item D))
      → i ≢ fd
      → ((it : Item D) → x ≡ some it → i ≤ top)
      → Agrees s i x
      → Agrees (put s xs fd op_noop top) i x
  Agrees-clear s xs fd top i none ne l (r, w) =
      (fd_put-other fd i _ s.master_r ne ∙ r, fd_put-other fd i _ s.master_w ne ∙ w)
  Agrees-clear s xs fd top i (some it) ne l (same, high, r, w) = (
    same,
    l it refl,
    fd_put-other fd i _ s.master_r ne ∙ r,
    fd_put-other fd i _ s.master_w ne ∙ w,
  )

  cleared :
      (s : Selector D) (xs : List (Option (Item D))) (fd top : ℕ)
      → IsSelector s
      → length xs ≡ length s.fds
      → top < s.fd_size
      → item_at xs fd ≡ none
      → ((j : ℕ) → j ≢ fd → item_at xs j ≡ item_at s.fds j)
      → ((i : ℕ) → i ≢ fd → (it : Item D) → item_at s.fds i ≡ some it → i ≤ top)
      → IsSelector (put s xs fd op_noop top)
  cleared s xs fd top ok k fits here other high = record {
    size = k ∙ ok.size;
    top = fits;
    agrees = λ i. elim (ℕ_discrete i fd) [
      | yes e ↦
          subst (λ j. Agrees (put s xs fd op_noop top) j (item_at xs j)) (sym e)
            (subst (Agrees (put s xs fd op_noop top) fd) (sym here)
              (fd_put-same fd _ s.master_r, fd_put-same fd _ s.master_w))
      | no ne ↦
          subst (Agrees (put s xs fd op_noop top) i) (sym (other i ne))
            (Agrees-clear s xs fd top i _ ne (high i ne) (ok.agrees i))
    ];
  }

  placed_of :
      (s : Selector D)
      → IsSelector s
      → (j : ℕ) (it : Item D) → item_at s.fds j ≡ some it
      → it.fd ≡ j
  placed_of s ok j it h = (subst (Agrees s j) h (ok.agrees j)).0

  high_of :
      (s : Selector D)
      → IsSelector s
      → (j : ℕ) (it : Item D) → item_at s.fds j ≡ some it
      → j ≤ s.max_fd
  high_of s ok j it h = (subst (Agrees s j) h (ok.agrees j)).1

  -- The highest descriptor is that of an item, and 0 where there is none.
  abbrev pub IsHighest : Selector D → Type 0
  IsHighest s = (s.max_fd ≡ 0) ⊎ ((it : Item D) × (item_at s.fds s.max_fd ≡ some it))

  -- What taking a descriptor out gives: its item, that is closed, or a refusal.
  abbrev pub Removed : Selector D → ℕ → Option (Status × Option (Item D) × Selector D) → Type 0
  Removed s fd o =
      ((it : Item D) × (item_at s.fds fd ≡ some it)
        × ((s' : Selector D) × (o ≡ some (success, some it, s'))
            × IsSelector s'
            × IsHighest s'
            × (s'.fd_size ≡ s.fd_size)
            × (item_at s'.fds fd ≡ none)
            × ((j : ℕ) → j ≢ fd → item_at s'.fds j ≡ item_at s.fds j)))
      ⊎ ((item_at s.fds fd ≡ none) × (o ≡ some (iargs, none, s)))

  remove_at :
      (s : Selector D) (fd : ℕ) (old : Option (Item D))
      → IsSelector s
      → fd < items_max_size
      → fd < s.fd_size
      → item_at s.fds fd ≡ old
      → Removed s fd (selector_unregister_fd s fd)
  unfolding selector_unregister_fd items_update_fdset_for_fd items_max_fd
  remove_at s fd none ok small l free =
      let at = get_elem?-item_at s.fds fd (omega (arith, ok.size)) in
      inr (free, rw (below_limit fd small, at, free) refl)
  remove_at s fd (some it) ok small l used =
      let at = get_elem?-item_at s.fds fd (omega (arith, ok.size)) in
      let same = placed_of s ok fd it used in
      let (xs, e, k, here, other) = set_item_lem s.fds fd none (omega (arith, ok.size)) in
      let apart = λ (j : ℕ) (ne : j ≢ it.fd). other j (λ q. ne (q ∙ sym same)) in
      let (r, found, _, below, comes, all) =
        max_loop_lem xs (suc s.max_fd) 0 0 (omega (arith, k, ok.size, ok.top)) (λ j x h.
          elim (ℕ_discrete j fd) [
            | yes q ↦ absurd (not_both h (ap (item_at xs) q ∙ here))
            | no ne ↦ placed_of s ok j x (sym (other j ne) ∙ h)
          ]) in
      let high = λ (i : ℕ) (ne : i ≢ it.fd) (x : Item D) (h : item_at s.fds i ≡ some x).
        all i x (omega arith) (omega (arith, high_of s ok i x h)) (apart i ne ∙ h) in
      inl (
        it,
        used,
        (
          put s xs it.fd op_noop r,
          rw (below_limit fd small, at, used, e, found) refl,
          cleared s xs it.fd r ok k (omega (arith, ok.top, below)) (ap (item_at xs) same ∙ here)
              apart high,
          comes,
          refl,
          here,
          other,
        ),
      )

  -- Taking a descriptor inside of the table of a well-formed selector out frees its place and no
  -- other, gives its item to be closed, and leaves a well-formed selector of the same size, whose
  -- highest descriptor is that of an item, or 0; if the place is free, the answer is
  -- SELECTOR_IARGS and nothing changes.
  pub selector_unregister_fd_lem :
      (s : Selector D) (fd : ℕ)
      → IsSelector s
      → fd < items_max_size
      → fd < s.fd_size
      → Removed s fd (selector_unregister_fd s fd)
  selector_unregister_fd_lem s fd ok small l = remove_at s fd (item_at s.fds fd) ok small l refl
