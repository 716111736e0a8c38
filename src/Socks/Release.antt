-- ===== src/Socks/Release.antt =====
-- The memory of a connection in src/socks5.c: its two descriptors share it, and each closes it.
use tp_socks5_proxy.Base.{
  ℕ, suc, ◌<◌, ◌≡◌, ◌≢◌, zero, List, [], ◌∷◌, length, refl, sym, ap, ◌∙◌, inl, inr, Bool, true,
  false, if◌then◌else◌, ◌==◌, Option, none, some, arith,
}
use tp_socks5_proxy.Selector.{Selector, Item, items_max_size}
use tp_socks5_proxy.Selector.Items.{IsSelector, item_at}
use tp_socks5_proxy.Selector.Highest.{not_both}
use tp_socks5_proxy.Selector.Unregister.{selector_unregister_fd_lem}
use tp_socks5_proxy.Metrics.{end_connection, end_connecting_clients}
use tp_socks5_proxy.Socks.{World, Socks, with_socks, status_close}
use tp_socks5_proxy.Socks.Closing.{
  socks5_free, close_counted, socks5_close, unregister, unregister_open, finish_socks,
}

closes :
    (k : Socks) {fd n : ℕ}
    → k.final_server_fd ≡ some fd
    → k.freed ≡ false
    → k.to_free ≡ n
    → socks5_close k ≡ close_counted (some fd) n k
unfolding socks5_close
closes k {fd} final live count =
    ap (λ (t : Bool). if t then none else close_counted k.final_server_fd k.to_free k) live
    ∙ ap (λ (o : Option ℕ). close_counted o k.to_free k) final
    ∙ ap (λ (n : ℕ). close_counted (some fd) n k) count

pub closes_first :
    (k : Socks) {fd : ℕ}
    → k.final_server_fd ≡ some fd
    → k.freed ≡ false
    → k.to_free ≡ 0
    → socks5_close k ≡ some (record k { to_free = 1 })
unfolding close_counted
closes_first k final live none_ = closes k final live none_

pub closes_last :
    (k : Socks) {fd n : ℕ}
    → k.final_server_fd ≡ some fd
    → k.freed ≡ false
    → k.to_free ≡ suc n
    → socks5_close k ≡ some (socks5_free k)
unfolding close_counted
closes_last k {fd} {n} final live more = closes k final live more ∙ ground arith

module _ {D : Type 0} where
  -- A descriptor that the selector has.
  abbrev pub IsRegistered : Selector D → ℕ → Type 0
  IsRegistered s fd = (it : Item D) × (item_at s.fds fd ≡ some it)

  -- Taking a descriptor out and closing its connection.
  abbrev pub Unregistered : World D → ℕ → Socks → Type 0
  Unregistered w fd k =
      (s : Selector D) × (unregister fd w ≡ some (with_socks k (record w { selector = s })))
      × IsSelector s
      × (s.fd_size ≡ w.selector.fd_size)
      × (item_at s.fds fd ≡ none)
      × ((j : ℕ) → j ≢ fd → item_at s.fds j ≡ item_at w.selector.fds j)

  pub unregister_lem :
      (fd : ℕ) (w : World D) (k : Socks)
      → IsSelector w.selector
      → fd < items_max_size
      → fd < w.selector.fd_size
      → IsRegistered w.selector fd
      → socks5_close w.socks ≡ some k
      → Unregistered w fd k
  unfolding unregister
  unregister_lem fd w k ok small l (it, at) closed =
      elim (selector_unregister_fd_lem w.selector fd ok small l) [
        | inl (it', _, (s, e, ok', _, size, gone, rest)) ↦
            (s, rw (e, closed) refl, ok', size, gone, rest)
        | inr (free, _) ↦ absurd (not_both at free)
      ]

  pub inside :
      (xs : List (Option (Item D))) (i : ℕ) {it : Item D} → item_at xs i ≡ some it → i < length xs
  inside [] i h = absurd (not_both h refl)
  inside (x ∷ xs) zero h = omega arith
  inside (x ∷ xs) (suc i) h = omega (arith, inside xs i h)

  -- The end of a connection whose two descriptors, different and below 1024, are in a well-formed
  -- selector, that was not freed and of which none was closed before, takes both descriptors out
  -- of the selector, leaves it well-formed and frees the memory.
  pub socks5_done_lem :
      (w : World D) (fd : ℕ)
      → IsSelector w.selector
      → w.socks.final_server_fd ≡ some fd
      → w.socks.client_fd ≢ fd
      → w.socks.client_fd < items_max_size
      → fd < items_max_size
      → IsRegistered w.selector w.socks.client_fd
      → IsRegistered w.selector fd
      → w.socks.freed ≡ false
      → w.socks.to_free ≡ 0
      → (w' : World D) × (finish_socks w ≡ some w')
        × (w'.socks.freed ≡ true)
        × IsSelector w'.selector
        × (item_at w'.selector.fds w.socks.client_fd ≡ none)
        × (item_at w'.selector.fds fd ≡ none)
  unfolding finish_socks
  socks5_done_lem w fd ok final ne small small' (it, at) (it', at') live none_ =
      let counted =
        if w.socks.status == status_close then end_connection w.metrics else w.metrics in
      let start : World D = record w { metrics = end_connecting_clients counted } in
      let (s₁, e₁, ok₁, _, gone₁, rest₁) =
        unregister_lem w.socks.client_fd start (record w.socks { to_free = 1 }) ok small
          (omega (arith, ok.size, inside w.selector.fds _ at)) (it, at)
          (closes_first w.socks final live none_) in
      let mid : World D =
        with_socks (record w.socks { to_free = 1 }) (record start { selector = s₁ }) in
      let at₁ = rest₁ fd (λ q. ne (sym q)) ∙ at' in
      let (s₂, e₂, ok₂, _, gone₂, rest₂) =
        unregister_lem fd mid (socks5_free (record w.socks { to_free = 1 })) ok₁ small'
          (omega (arith, ok₁.size, inside s₁.fds _ at₁)) (it', at₁)
          (closes_last (record w.socks { to_free = 1 }) {n = 0} final live refl) in
      (
        with_socks (socks5_free (record w.socks { to_free = 1 })) (record mid { selector = s₂ }),
        rw e₁ (ap (λ (o : Option ℕ). unregister_open o mid) final ∙ e₂),
        refl,
        ok₂,
        rest₂ w.socks.client_fd ne ∙ gone₁,
        gone₂,
      )
