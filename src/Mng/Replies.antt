-- ===== src/Mng/Replies.antt =====
-- What is sent to the administrator: `mng_connect_write` and `mng_replies` of src/mng.c.
use tp_socks5_proxy.Base.{
  ℕ, suc, ◌+◌, ◌-◌, ◌≡◌, subst, false, ◌≢◌, refl, sym, ap, ◌∙◌, ◌⊎◌, inl, inr, true, Bool-cases,
  Option, none, some, [], ◌∷◌, ◌++◌, Bytes, if◌then◌else◌, length, lt→ltb, arith,
}
use tp_socks5_proxy.Buffer.{Buffer, can_read, read_ptr}
use tp_socks5_proxy.Buffer.Holds.{Holds}
use tp_socks5_proxy.Buffer.Queue.{can_read-Holds}
use tp_socks5_proxy.Selector.{Selector, Status, success, selector_set_interest}
use tp_socks5_proxy.Socket.{Sent, op_read, op_write, op_noop, offered}
use tp_socks5_proxy.Socket.Stream.{offered_lem, deliver_lem}
use tp_socks5_proxy.Admin.Reply.{Blank, Answered, answer_all, answer_all_blank}
use tp_socks5_proxy.Admin.Put.{
  Put, init as init_put, parser as put_parser, is_done as is_done_put, admin_put_consume,
  marshall as put_marshall,
}
use tp_socks5_proxy.Admin.Put.Message.{
  Refused, bad_action, bad_field, no_name, no_pass, admin_put_refuses,
}
use tp_socks5_proxy.Mng.{
  Parsers, Views, World, answer, with_write_buffer, connect_write, request, replies, mng_done,
  mng_error,
}
use tp_socks5_proxy.Mng.Requests.{Handler, put_handler, finish_put}
use tp_socks5_proxy.Mng.Handlers.{
  handle, departed, sending, connect_written, replied, mng_connect_write, mng_replies,
}
use tp_socks5_proxy.Mng.Handling.{Parses, Receives, handle_done, parsed}

is_done-Refused :
    {p q : Put} {taken : Bytes}
    → Refused p taken q
    → is_done_put q.state (some true) ≡ (true, some true)
is_done-Refused (bad_action a ne) = refl
is_done-Refused (bad_field f ne) = refl
is_done-Refused no_name = refl
is_done-Refused (no_pass u ne l) = refl

finish_put-Refused :
    {D : Type 0} {p q : Put} {taken : Bytes}
    → Refused p taken q
    → (w : World D) → finish_put q w ≡ answer answer_all q.status w
unfolding finish_put put_marshall
finish_put-Refused (bad_action a ne) w = refl
finish_put-Refused (bad_field f ne) w = refl
finish_put-Refused no_name w = refl
finish_put-Refused (no_pass u ne l) w = refl

module _ {D : Type 0} (w : World D) where
  -- The bytes `p` of the queue were sent, and `q` are left.
  sending_lem :
      (stay : ℕ) (go : World D → Option (ℕ × World D)) (c : ℕ) (p q : Bytes)
      → Holds w.mng.write_buffer ((c ∷ p) ++ q)
      → w.sent ≡ some (suc (length p))
      → (b : Buffer) × Holds b q
        × (sending stay go w ≡ (
            if can_read b then some (stay, with_write_buffer b w) else go (with_write_buffer b w)))
  unfolding sending departed
  sending_lem stay go c p q held n =
      let (b, gone, held', _) = deliver_lem (c ∷ p) q held in
      (b, held', rw (offered_lem held) (ap (λ (o : Sent). departed stay go o w) n ∙ rw gone refl))

  -- The answer to the administrator's first message is sent, all of it or a part: behind the last byte an
  -- open connection reads requests, and one that is not open is done.
  pub mng_connect_write_lem :
      (c : ℕ) (p q : Bytes)
      → Holds w.mng.write_buffer ((c ∷ p) ++ q)
      → w.sent ≡ some (suc (length p))
      → {s : Selector D} → selector_set_interest w.selector w.fd op_read ≡ some (success, s)
      → (n : ℕ) × (w' : World D) × (mng_connect_write w ≡ some (n, w'))
        × Holds w'.mng.write_buffer q
        × (w'.config ≡ w.config)
        × (((q ≢ []) × (n ≡ connect_write))
            ⊎ ((q ≡ []) × (n ≡ (if w.mng.is_open then request else mng_done))))
  unfolding mng_connect_write connect_written
  mng_connect_write_lem c p [] held n {s} set =
      let (b, h, e) = sending_lem connect_write connect_written c p [] held n in
      elim (Bool-cases w.mng.is_open) [
        | inl t ↦ (
          request,
          record (with_write_buffer b w) { selector = s },
          e ∙ rw (can_read-Holds h, t, set) refl,
          h,
          refl,
          inr (refl, rw t refl),
        )
        | inr f ↦ (
          mng_done,
          with_write_buffer b w,
          e ∙ rw (can_read-Holds h, f) refl,
          h,
          refl,
          inr (refl, rw f refl),
        )
      ]
  mng_connect_write_lem c p (x ∷ q) held n set =
      let (b, h, e) = sending_lem connect_write connect_written c p (x ∷ q) held n in
      (
        connect_write,
        with_write_buffer b w,
        e ∙ rw (can_read-Holds h, lt→ltb 0 (suc (length q)) (omega arith)) refl,
        h,
        refl,
        inl (λ z. cc, refl),
      )

  -- Where an answer was put into a buffer whose limit is one more than its storage, mng_replies
  -- reads behind the end of the storage.
  pub mng_replies_overrun :
      (status : ℕ) (b : Buffer)
      → b.limit ≡ suc (length b.mem)
      → Answered b status w.mng.write_buffer
      → mng_replies w ≡ none
  unfolding mng_replies sending offered read_ptr
  mng_replies_overrun status b l (first, r, wr, li, len) =
      let out : w.mng.write_buffer.read + (w.mng.write_buffer.write - w.mng.write_buffer.read)
          ≡ suc (length w.mng.write_buffer.mem) =
        omega arith in
      ground (arith, out, r, wr)

  -- `mng_replies` where the bytes to be sent are in the storage.
  pub mng_replies_lem :
      (c : ℕ) (p q : Bytes)
      → Holds w.mng.write_buffer ((c ∷ p) ++ q)
      → w.sent ≡ some (suc (length p))
      → {status : Status} {s : Selector D}
      → selector_set_interest w.selector w.fd op_noop ≡ some (status, s)
      → (n : ℕ) × (w' : World D) × (mng_replies w ≡ some (n, w'))
        × Holds w'.mng.write_buffer q
        × (((q ≢ []) × (n ≡ replies)) ⊎ ((q ≡ []) × (n ≡ mng_done)))
  unfolding mng_replies replied
  mng_replies_lem c p [] held n {status} {s} set =
      let (b, h, e) = sending_lem replies replied c p [] held n in
      (
        mng_done,
        record (with_write_buffer b w) { selector = s },
        e ∙ rw (can_read-Holds h, set) refl,
        h,
        inr (refl, refl),
      )
  mng_replies_lem c p (x ∷ q) held n set =
      let (b, h, e) = sending_lem replies replied c p (x ∷ q) held n in
      (
        replies,
        with_write_buffer b w,
        e ∙ rw (can_read-Holds h, lt→ltb 0 (suc (length q)) (omega arith)) refl,
        h,
        inl (λ z. cc, refl),
      )

  -- A request that the parser refuses: the answer is written, and the state is the one for an error.
  handle_refuses :
      (h : Handler D) (q : Bytes) (c : ℕ) (cs left : Bytes) (p : h.k.P) (status : ℕ)
      → Receives w q c cs
      → Parses h.k (h.view w.mng.parsers) (q ++ (c ∷ cs)) p (some true) left
      → h.k.is_done p (some true) ≡ (true, some true)
      → {s : Selector D} → selector_set_interest w.selector w.fd op_write ≡ some (success, s)
      → Blank w.mng.write_buffer
      → ((w' : World D) → h.finish p w' ≡ answer answer_all status w')
      → (w' : World D) × (handle h w ≡ some (mng_error, w'))
        × (w'.config ≡ w.config)
        × Answered w.mng.write_buffer status w'.mng.write_buffer
  handle_refuses h q c cs left p status r ok d {s} set k finished =
      let (b', f, _) = handle_done h w q c cs p (some true) left r ok (ap (λ x. x.0) d) set in
      let (b, answered, is) = answer_all_blank status k in
      let w₁ : World D = parsed (h.pack p) b' s w in
      (with_write_buffer b w₁, f ∙ rw (finished w₁, answered, d) refl, refl, is)

  -- A request to add a user that its parser refuses behind the first byte leaves the settings as
  -- they were, puts the status of the protocol in front of the buffer, and goes to the state for
  -- an error.
  pub request_put_refuses :
      (v : Views) (p : Put) {q : Put} (c : ℕ) (cs left : Bytes)
      → w.mng.parsers ≡ Parsers.put (init_put p)
      → Refused p (0x01 ∷ c ∷ cs) q
      → Receives w (0x01 ∷ []) c (cs ++ left)
      → {s : Selector D} → selector_set_interest w.selector w.fd op_write ≡ some (success, s)
      → Blank w.mng.write_buffer
      → (w' : World D) × (handle (put_handler v) w ≡ some (mng_error, w'))
        × (w'.config ≡ w.config)
        × Answered w.mng.write_buffer q.status w'.mng.write_buffer
  unfolding admin_put_consume
  request_put_refuses v p {q} c cs left at refused r set k =
      handle_refuses (put_handler v) (0x01 ∷ []) c (cs ++ left) left q q.status r
        (subst (λ y. Parses put_parser y (0x01 ∷ c ∷ cs ++ left) q (some true) left)
          (sym (ap v.as_put at ∙ v.as_put_own (init_put p)))
          (λ b held. admin_put_refuses left (some false) refused held))
        (is_done-Refused refused) set k (finish_put-Refused refused)
