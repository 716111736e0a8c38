-- ===== src/Socks/Relay.antt =====
-- What src/socks5_copy.c passes from one side to the other, and who waits for it.
use tp_socks5_proxy.Base.{
  ℕ, ◌+◌, ◌%◌, ◌^◌, ◌≡◌, ◌≢◌, ◌<◌, ◌∙◌, refl, zero, suc, sym, ap, inl, inr, Bool, true, false, ◌&&◌,
  ◌||◌, Option, some, some_injective, List, [], ◌∷◌, ◌++◌, ◌>>=◌, Bytes, if◌then◌else◌, length,
  length-append, lt→ltb, arith,
}
use tp_socks5_proxy.Buffer.{Buffer, can_read, can_write, write_ptr}
use tp_socks5_proxy.Buffer.Queue.{can_read-Holds, write_ptr-Holds}
use tp_socks5_proxy.Metrics.{add_sent_byte}
use tp_socks5_proxy.Sniffer.{pop3sniff}
use tp_socks5_proxy.Socket.{Received}
use tp_socks5_proxy.Buffer.Holds.{Holds, HasRoom}
use tp_socks5_proxy.Selector.{Selector, Item, items_max_size}
use tp_socks5_proxy.Selector.Items.{IsSelector, item_at}
use tp_socks5_proxy.Selector.Highest.{not_both}
use tp_socks5_proxy.Selector.Unregister.{selector_set_interest_lem}
use tp_socks5_proxy.Socket.Stream.{receive_lem}
use tp_socks5_proxy.Socks.{World, Socks, CopyData, copy, as_copy, copying, socks_done}
use tp_socks5_proxy.Socks.Connecting.{set_any}
use tp_socks5_proxy.Socks.Copying.{
  Side, client, other, sniff, fd_of, rb_of, wb_of, data_of, interest_of, with_rb, copied,
  copy_arrived, copy_read, copy_determine_interests, get_copy_data,
}

-- What a side waits for: to read while there is room, to write while there is something to send.
abbrev pub wanted : Side → CopyData → Socks → ℕ
wanted side c s =
    interest_of (c.reads && can_write (rb_of side s)) (c.writes && can_read (wb_of side s))

and_true : (x : Bool) → (x && true) ≡ x
and_true false = refl
and_true true = refl

readable :
    {b : Buffer} (q : Bytes) (x : ℕ) (bs : Bytes) → Holds b (q ++ (x ∷ bs)) → can_read b ≡ true
readable q x bs h =
    can_read-Holds h ∙ lt→ltb 0 (length (q ++ (x ∷ bs))) (omega (arith, length-append q (x ∷ bs)))

module _ {D : Type 0} where
  -- A descriptor of the selector, with its item.
  pub record Registered (s : Selector D) (fd : ℕ) (it : Item D) : Type 0 where
    pub small : fd < items_max_size
    pub here : item_at s.fds fd ≡ some it

  item_inside :
      (xs : List (Option (Item D))) (i : ℕ) {it : Item D} → item_at xs i ≡ some it → i < length xs
  item_inside [] i e = absurd (not_both e refl)
  item_inside (x ∷ xs) zero e = omega arith
  item_inside (x ∷ xs) (suc i) e = let l = item_inside xs i e in omega arith

  set_any_lem :
      (w : World D) (fd interest : ℕ) (it : Item D)
      → IsSelector w.selector
      → Registered w.selector fd it
      → (s : Selector D) × (set_any (some fd) interest w ≡ some (record w { selector = s }))
        × IsSelector s
        × (item_at s.fds fd ≡ some (record it { interest = interest }))
        × ((j : ℕ) → j ≢ fd → item_at s.fds j ≡ item_at w.selector.fds j)
  set_any_lem w fd interest it ok at =
      elim (selector_set_interest_lem w.selector fd interest ok at.small l) [
        | inl (it', used, (s, e, ok', there, others)) ↦ (
          s,
          ap (λ o. o >>= λ (_, s'). some (record w { selector = s' })) e,
          ok',
          there
              ∙ ap {A = Item D} (λ i. some (record i { interest = interest }))
                  (some_injective (sym used ∙ at.here)),
          others,
        )
        | inr (free, _) ↦ absurd (not_both at.here free)
      ]
    where
      l : fd < w.selector.fd_size
      l = let k = item_inside w.selector.fds fd at.here in omega (arith, ok.size)

  -- The interest of both sides after a turn.
  abbrev pub Awaits : World D → Selector D → Side → ℕ → Item D → CopyData → Type 0
  Awaits w s side fd it c = item_at s.fds fd ≡ some (record it { interest = wanted side c w.socks })

  determine_lem :
      (side : Side) (w : World D) (fd : ℕ) (it : Item D) (c : CopyData)
      → data_of side w.socks ≡ some c
      → fd_of side w.socks ≡ some fd
      → IsSelector w.selector
      → Registered w.selector fd it
      → (s : Selector D) × (copy_determine_interests side w ≡ some (record w { selector = s }))
        × IsSelector s
        × Awaits w s side fd it c
        × ((j : ℕ) → j ≢ fd → item_at s.fds j ≡ item_at w.selector.fds j)
  unfolding copy_determine_interests
  determine_lem side w fd it c kept has ok at =
      let (s, e, ok', there, others) = set_any_lem w fd (wanted side c w.socks) it ok at in
      (
        s,
        ap (λ o. o >>= λ x. set_any (fd_of side w.socks) (wanted side x w.socks) w) kept
            ∙ ap (λ o. set_any o (wanted side c w.socks) w) has
            ∙ e,
        ok',
        there,
        others,
      )

  copied_lem :
      (side : Side) (ret : ℕ) (w : World D) (f g : ℕ) (it it' : Item D) (c c' : CopyData)
      → data_of side w.socks ≡ some c
      → data_of (other side) w.socks ≡ some c'
      → fd_of side w.socks ≡ some f
      → fd_of (other side) w.socks ≡ some g
      → f ≢ g
      → IsSelector w.selector
      → Registered w.selector f it
      → Registered w.selector g it'
      → (s : Selector D) × (copied side ret w
          ≡ some (if c.reads || c.writes then ret else socks_done, record w { selector = s }))
        × IsSelector s
        × Awaits w s side f it c
        × Awaits w s (other side) g it' c'
  unfolding copied
  copied_lem side ret w f g it it' c c' mine yours of og ne ok at at' =
      let (s, e, ok₁, there, others) = determine_lem side w f it c mine of ok at in
      let w₁ : World D = record w { selector = s } in
      let kept : Registered s g it' = record {
        small = at'.small;
        here = others g (λ q. ne (sym q)) ∙ at'.here;
      } in
      let (s', e', ok₂, there', others') =
        determine_lem (other side) w₁ g it' c' yours og ok₁ kept in
      (s', rw (e, e', mine) refl, ok₂, others' f ne ∙ there, there')

  module _ (ip_to_str : Bytes → Bytes) where
    sniff_off :
        (bs : Bytes) (w : World D)
        → w.config.disectors_enabled ≡ false
        → sniff ip_to_str bs w ≡ some w
    unfolding pop3sniff
    sniff_off bs w off = rw off refl

    client_side : (w : World D) → w.fd ≡ w.socks.client_fd → get_copy_data w ≡ client
    unfolding get_copy_data
    client_side w here = ground arith

    -- In a connection whose client and server descriptors are different, below 1024 and in a well-
    -- formed selector, and while passwords are not looked for, one or more bytes from the client,
    -- for which there is room, go behind the queue of the read buffer, the write buffer stays, the
    -- counter of the sent bytes grows by their number modulo 2 ^ 64, the state stays copying, or
    -- ends if the client side has no interest left, the selector stays well-formed, the client
    -- waits to read while there is room and to write while the write buffer is not empty, as far
    -- as it is interested, and the server waits to write if its side writes.
    pub copy_read_lem :
        (w : World D) (b : ℕ) (bs q : Bytes) (g : ℕ) (it it' : Item D) (c : CopyData)
        → w.fd ≡ w.socks.client_fd
        → w.socks.final_server_fd ≡ some g
        → w.socks.client_fd ≢ g
        → w.socks.client_data ≡ copy c
        → w.received ≡ some (b ∷ bs)
        → Holds w.socks.read_buffer q
        → HasRoom w.socks.read_buffer (length (b ∷ bs))
        → w.config.disectors_enabled ≡ false
        → IsSelector w.selector
        → Registered w.selector w.socks.client_fd it
        → Registered w.selector g it'
        → (w' : World D) × (copy_read ip_to_str w
            ≡ some (if c.reads || c.writes then copying else socks_done, w'))
          × Holds w'.socks.read_buffer (q ++ (b ∷ bs))
          × (w'.socks.write_buffer ≡ w.socks.write_buffer)
          × (w'.metrics.sent_byte ≡ (w.metrics.sent_byte + length (b ∷ bs)) % 2 ^ 64)
          × IsSelector w'.selector
          × Awaits w' w'.selector client w.socks.client_fd it c
          × (item_at w'.selector.fds g
              ≡ some (record it' {
                interest =
                    interest_of
                      (w.socks.server_copy.reads && can_write w.socks.write_buffer)
                      w.socks.server_copy.writes;
              }))
    unfolding copy_read copy_arrived add_sent_byte
    copy_read_lem w b bs q g it it' c here to ne at got rh rr off ok reg reg' =
        let (buf, arrived, held, _) = receive_lem (b ∷ bs) rh rr in
        let w₁ : World D = with_rb client buf w in
        let w₂ : World D = record w₁ { metrics = add_sent_byte (length (b ∷ bs)) w₁.metrics } in
        let (s, done, ok', mine, yours) =
          copied_lem client copying w₂ w.socks.client_fd g it it' c w.socks.server_copy
            (ap as_copy at) refl refl to ne ok reg reg' in
        (
          record w₂ { selector = s },
          ap
                (λ side.
                  write_ptr (rb_of side w.socks) >>= λ _. copy_arrived ip_to_str side w.received w)
                (client_side w here)
              ∙ rw (write_ptr-Holds rh) (
                  ap (λ (o : Received). copy_arrived ip_to_str client o w) got
                  ∙ rw (arrived, sniff_off (b ∷ bs) w₂ off) done),
          held,
          refl,
          refl,
          ok',
          mine,
          yours
              ∙ ap
                  (λ r. some (record it' {
                    interest =
                        interest_of (w.socks.server_copy.reads && can_write w.socks.write_buffer) r;
                  }))
                  (ap (λ r. w.socks.server_copy.writes && r) (readable q b bs held)
                    ∙ and_true w.socks.server_copy.writes),
        )
