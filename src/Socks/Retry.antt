-- ===== src/Socks/Retry.antt =====
-- A second address in src/socks5_request.c, and the count of closed descriptors of src/socks5.c.
use native.Mathlib.Decide.{ℕ_discrete}
use tp_socks5_proxy.Base.{
  ℕ, suc, ◌<◌, ◌≡◌, ◌≢◌, ◌⊎◌, refl, sym, ap, ◌∙◌, inl, inr, true, false, not, Option, none, some,
  List, ◌∷◌, ◌>>=◌, if◌then◌else◌, ◌==◌, assert, arith,
}
use tp_socks5_proxy.Selector.{Selector, Item, items_max_size}
use tp_socks5_proxy.Selector.Items.{IsSelector, item_at}
use tp_socks5_proxy.Selector.Highest.{not_both}
use tp_socks5_proxy.Selector.Register.{selector_register_lem}
use tp_socks5_proxy.Selector.Unregister.{selector_set_interest_lem, selector_unregister_fd_lem}
use tp_socks5_proxy.Metrics.{end_connection, end_connecting_clients}
use tp_socks5_proxy.Request.Answer.{errno_to_socks}
use tp_socks5_proxy.Socket.{op_write, op_noop}
use tp_socks5_proxy.Socks.{
  World, Socks, AddrInfo, Attempt, in_progress, with_socks, request_connecting, status_close,
}
use tp_socks5_proxy.Socks.Closing.{
  socks5_free, socks5_close, unregister, unregister_open, finish_socks,
}
use tp_socks5_proxy.Socks.Connecting.{
  next_of, wait_for, connect_loop, request_connect, connecting_on, answer_client,
  on_request_connecting,
}
use tp_socks5_proxy.Socks.Attempts.{next_ip_at}
use tp_socks5_proxy.Socks.Release.{IsRegistered, closes_first, closes_last, unregister_lem, inside}

-- The address that `next_ip` gives next.
abbrev advanced : Socks → ℕ → AddrInfo → List AddrInfo → Socks
advanced k e first left = record k {
  status = errno_to_socks (suc e);
  current_server_resolution = left;
  server_domain = first.ai_family;
  final_server_addr = first.ai_addr;
}

-- An address that the server is connected to in the background.
abbrev pub pending : ℕ → Attempt
pending fd = record { socket = some fd; nio = true; outcome = in_progress }

module _ {D : Type 0} where
  -- A connection of which one descriptor was closed, with both of its descriptors in the selector.
  pub record HasClosed (w : World D) (fd : ℕ) : Type 0 where
    pub ok : IsSelector w.selector
    pub small : w.socks.client_fd < items_max_size
    pub small' : fd < items_max_size
    pub apart : w.socks.client_fd ≢ fd
    pub client_in : IsRegistered w.selector w.socks.client_fd
    pub server_in : IsRegistered w.selector fd
    pub server : w.socks.final_server_fd ≡ some fd
    pub live : w.socks.freed ≡ false
    pub count : w.socks.to_free ≡ 1

  -- The descriptor of a connection that was freed is closed once more.
  unregister_freed :
      (fd : ℕ) (w : World D)
      → IsSelector w.selector
      → fd < items_max_size
      → IsRegistered w.selector fd
      → w.socks.freed ≡ true
      → unregister fd w ≡ none
  unfolding unregister socks5_close
  unregister_freed fd w ok small (it, at) dead =
      elim (selector_unregister_fd_lem w.selector fd ok small
        (omega (arith, ok.size, inside w.selector.fds _ at))) [
          | inl (it', _, (s, e, _, _, _, _, _)) ↦ rw (e, dead) refl
          | inr (free, _) ↦ absurd (not_both at free)
        ]

  stops_at :
      {X : Type 0} {o : Option (World D)} {w : World D} (f : World D → Option X)
      → o ≡ some w
      → w.socks.freed ≡ true
      → (o >>= λ x. assert (not x.socks.freed) >>= λ _. f x) ≡ none
  stops_at f e dead = rw (e, dead) refl

  goes_at :
      {X : Type 0} {o : Option (World D)} {w : World D} (f : World D → Option X)
      → o ≡ some w
      → w.socks.freed ≡ false
      → (o >>= λ x. assert (not x.socks.freed) >>= λ _. f x) ≡ f w
  goes_at f e live = rw (e, live) refl

  -- `socks5_done` closes a second time what it freed.
  finish_stops : (w : World D) (fd : ℕ) → HasClosed w fd → finish_socks w ≡ none
  unfolding finish_socks
  finish_stops w fd h =
      let at = h.client_in.1 in
      let counted =
        if w.socks.status == status_close then end_connection w.metrics else w.metrics in
      let start : World D = record w { metrics = end_connecting_clients counted } in
      let (s, e, ok, size, _, rest) =
        unregister_lem w.socks.client_fd start (socks5_free w.socks) h.ok h.small
          (omega (arith, h.ok.size, inside w.selector.fds _ at)) h.client_in
          (closes_last w.socks {n = 0} h.server h.live h.count) in
      let mid : World D = with_socks (socks5_free w.socks) (record start { selector = s }) in
      let still : IsRegistered s fd =
        (h.server_in.0, rest fd (λ q. h.apart (sym q)) ∙ h.server_in.1) in
      ap (λ o. o >>= unregister_open w.socks.final_server_fd) e
      ∙ ap (λ (o : Option ℕ). unregister_open o mid) h.server
      ∙ unregister_freed fd mid ok h.small' still refl

  -- `request_connect` frees the memory with the old descriptor, and goes on.
  connect_stops :
      (w : World D) (fd : ℕ) (a : Attempt) (more : List Attempt)
      → HasClosed w fd
      → request_connect (record w { attempts = a ∷ more }) ≡ none
  unfolding request_connect connect_loop
  connect_stops w fd a more h =
      let at = h.server_in.1 in
      let w' : World D = record w { attempts = a ∷ more } in
      let (s, e, _, _, _, _) =
        unregister_lem fd w' (socks5_free w.socks) h.ok h.small'
          (omega (arith, h.ok.size, inside w.selector.fds _ at)) h.server_in
          (closes_last w.socks {n = 0} h.server h.live h.count) in
      stops_at _ (ap (λ (o : Option ℕ). unregister_open o w') h.server ∙ e) refl

  waits_lem :
      (w : World D) (new : ℕ)
      → IsSelector w.selector
      → w.socks.client_fd < items_max_size
      → new < items_max_size
      → new ≢ w.selector.fd_size
      → w.socks.client_fd ≢ new
      → IsRegistered w.selector w.socks.client_fd
      → item_at w.selector.fds new ≡ none
      → (s : Selector D) × (wait_for new w ≡ some (request_connecting, record w { selector = s }))
        × IsSelector s
        × IsRegistered s w.socks.client_fd
        × IsRegistered s new
  unfolding wait_for
  waits_lem w new ok small small' other ne (it, at) free =
      let item : Item D = record { fd = new; interest = op_write; data_of = w.self } in
      elim (selector_register_lem w.selector item ok small' other) [
        | inr (old, used, _) ↦ absurd (not_both used free)
        | inl (_, (s, e, ok₁, here, rest)) ↦
            let at₁ = rest w.socks.client_fd ne ∙ at in
            elim (selector_set_interest_lem s w.socks.client_fd op_noop ok₁ small
              (omega (arith, ok₁.size, inside s.fds _ at₁))) [
                | inr (none_, _) ↦ absurd (not_both at₁ none_)
                | inl (it', _, (s', e', ok₂, here', rest')) ↦ (
                  s',
                  rw (e, e') refl,
                  ok₂,
                  (_, here'),
                  (item, rest' new (λ q. ne (sym q)) ∙ here),
                )
              ]
      ]

  tries_next :
      (w : World D) (e : ℕ) (first x y : AddrInfo) (r more : List AddrInfo)
      → w.sock_error ≡ some (suc e)
      → w.socks.server_resolution ≡ first ∷ r
      → w.socks.current_server_resolution ≡ x ∷ y ∷ more
      → on_request_connecting w
        ≡ request_connect (with_socks (advanced w.socks e first (y ∷ more)) w)
  unfolding on_request_connecting connecting_on next_of
  tries_next w e first x y r more err all left =
      let k : Socks = record w.socks { status = errno_to_socks (suc e) } in
      ap (λ (o : Option ℕ). connecting_on o w) err
      ∙ ap
          (λ (o : Option Socks). elim o [
            | none ↦ answer_client (with_socks k w)
            | some s ↦ request_connect (with_socks s (with_socks k w))
          ])
          (next_ip_at k (first ∷ r) (x ∷ y ∷ more) all left)

  connects :
      (w : World D) (old new : ℕ) (rest : List Attempt)
      → w.attempts ≡ pending new ∷ rest
      → IsSelector w.selector
      → w.socks.client_fd < items_max_size
      → old < items_max_size
      → new < items_max_size
      → w.socks.client_fd ≢ old
      → w.socks.client_fd ≢ new
      → new ≢ w.selector.fd_size
      → IsRegistered w.selector w.socks.client_fd
      → IsRegistered w.selector old
      → (new ≡ old) ⊎ (item_at w.selector.fds new ≡ none)
      → w.socks.final_server_fd ≡ some old
      → w.socks.freed ≡ false
      → w.socks.to_free ≡ 0
      → (w' : World D) × (request_connect w ≡ some (request_connecting, w')) × HasClosed w' new
  unfolding request_connect connect_loop
  connects w old new rest atts ok cs os ns co cn other (it, at) (it', at') free server live count =
      let (s₁, e₁, ok₁, size, gone, kept) =
        unregister_lem old w (record w.socks { to_free = 1 }) ok os
          (omega (arith, ok.size, inside w.selector.fds _ at')) (it', at')
          (closes_first w.socks server live count) in
      let w₂ : World D = record w {
        socks = record w.socks { final_server_fd = some new; to_free = 1 };
        attempts = rest;
        selector = s₁;
      } in
      let (s, e, ok₂, client_in, server_in) =
        waits_lem w₂ new ok₁ cs ns (λ q. other (q ∙ size)) cn (it, kept w.socks.client_fd co ∙ at)
          (elim free [
            | inl same ↦ ap (item_at s₁.fds) same ∙ gone
            | inr f ↦ elim (ℕ_discrete new old) [
              | yes same ↦ ap (item_at s₁.fds) same ∙ gone
              | no ne ↦ kept new ne ∙ f
            ]
          ]) in
      (
        record w₂ { selector = s },
        ap (λ l. connect_loop l w) atts
            ∙ goes_at _ (ap (λ (o : Option ℕ). unregister_open o w) server ∙ e₁) live
            ∙ e,
        record {
          ok = ok₂;
          small = cs;
          small' = ns;
          apart = cn;
          client_in = client_in;
          server_in = server_in;
          server = refl;
          live = live;
          count = refl;
        },
      )

  -- In a connection that was not freed and of which no descriptor was closed, whose client and
  -- server descriptors are different, below 1024 and in a well-formed selector, and which has
  -- another address to try, a failed connection takes request_connecting to the state that waits
  -- for the next address, if that one is tried in the background on a descriptor that is the old
  -- one, or free in the selector, below 1024 and not the size of the table nor the client; from
  -- there both the end of the connection, socks5_done, and a further request_connect use the
  -- memory after it was freed.
  pub retry_lem :
      (w : World D) (e old new : ℕ) (first x y : AddrInfo) (r more : List AddrInfo)
      (rest again : List Attempt) (a : Attempt)
      → w.sock_error ≡ some (suc e)
      → w.socks.server_resolution ≡ first ∷ r
      → w.socks.current_server_resolution ≡ x ∷ y ∷ more
      → w.attempts ≡ pending new ∷ rest
      → IsSelector w.selector
      → w.socks.client_fd < items_max_size
      → old < items_max_size
      → new < items_max_size
      → w.socks.client_fd ≢ old
      → w.socks.client_fd ≢ new
      → new ≢ w.selector.fd_size
      → IsRegistered w.selector w.socks.client_fd
      → IsRegistered w.selector old
      → (new ≡ old) ⊎ (item_at w.selector.fds new ≡ none)
      → w.socks.final_server_fd ≡ some old
      → w.socks.freed ≡ false
      → w.socks.to_free ≡ 0
      → (w' : World D) × (on_request_connecting w ≡ some (request_connecting, w'))
        × (w'.socks.freed ≡ false)
        × (finish_socks w' ≡ none)
        × (request_connect (record w' { attempts = a ∷ again }) ≡ none)
  retry_lem w e old new first x y r more rest again a err all left atts ok cs os ns co cn other ci
        oi free server live count =
      let k = advanced w.socks e first (y ∷ more) in
      let (w', goes, closed) =
        connects (with_socks k w) old new rest atts ok cs os ns co cn other ci oi free server live
          count in
      (
        w',
        tries_next w e first x y r more err all left ∙ goes,
        closed.live,
        finish_stops w' new closed,
        connect_stops w' new a again closed,
      )
