-- ===== src/Mng/Messages.antt =====
-- The requests that change the users and the settings, in the handlers of src/mng.c: from the bytes that
-- arrive to the settings and the answer. The first byte of a request is in the buffer already, where
-- `mng_request` left it.
use tp_socks5_proxy.Base.{
  ℕ, suc, ◌+◌, ◌^◌, ◌<◌, ◌≡◌, ◌≢◌, refl, sym, ap, subst, ◌∙◌, ◌⊎◌, Bool, true, false, Option, some,
  [], ◌∷◌, ◌++◌, Bytes, if◌then◌else◌, ◌==◌, length, fill, strlen-append, take-append, drop, IsText,
  AreBytes, arith,
}
use tp_socks5_proxy.Buffer.{ℤ}
use tp_socks5_proxy.Buffer.Holds.{Holds}
use tp_socks5_proxy.Selector.{Selector, success, selector_set_interest}
use tp_socks5_proxy.Config.{
  Config, add_user, edit_user, delete_user, set_buff_size, set_status, four_bytes_to_num,
}
use tp_socks5_proxy.Config.Settings.{four_bytes_to_num_pos}
use tp_socks5_proxy.Socket.{op_write}
use tp_socks5_proxy.Admin.Reply.{Blank, Answered}
use tp_socks5_proxy.Admin.Put.{
  Put, init as init_put, parser as put_parser, admin_put_consume, marshall as put_marshall,
}
use tp_socks5_proxy.Admin.Put.Message.{putting, admin_put_message}
use tp_socks5_proxy.Admin.Edit.{
  Edit, init as init_edit, parser as edit_parser, admin_edit_consume, marshall as edit_marshall,
}
use tp_socks5_proxy.Admin.Edit.Message.{editing, admin_edit_message, IsAttribute}
use tp_socks5_proxy.Admin.Delete.{
  Delete, init as init_delete, parser as delete_parser, admin_delete_consume,
  marshall as delete_marshall,
}
use tp_socks5_proxy.Admin.Delete.Message.{deleting, admin_delete_message}
use tp_socks5_proxy.Admin.ConfigStatus.{
  ConfigStatus, State as ConfigStatusState, init as init_configstatus,
  parser as configstatus_parser, admin_configstatus_consume, admin_configstatus_message,
}
use tp_socks5_proxy.Admin.ConfigBuff.{
  ConfigBuff, init as init_configbuff, parser as configbuff_parser, admin_configbuff_consume,
  admin_configbuff_message, sized, marshall as configbuff_marshall,
}
use tp_socks5_proxy.Mng.{Parsers, Views, World, text_of, replies}
use tp_socks5_proxy.Mng.Requests.{
  is_failure, is_positive, put_handler, edit_handler, delete_handler, configstatus_handler,
  buffsize_handler, finish_put, finish_edit, finish_delete, finish_configstatus, finish_buffsize,
}
use tp_socks5_proxy.Mng.Handlers.{handle}
use tp_socks5_proxy.Mng.Handling.{Parses, Receives, handle_answers}

-- A text behind which the parsers put a terminator.
pub text_of-fill : (u a : Bytes) → IsText u → text_of (fill u a) ≡ some u
text_of-fill u a t =
    rw (strlen-append u (drop (suc (length u)) a) t)
      (ap some (take-append u (0 ∷ drop (suc (length u)) a) (length u) refl))

module _ {D : Type 0} (v : Views) (w : World D) {s : Selector D}
    (set : selector_set_interest w.selector w.fd op_write ≡ some (success, s))
    (k : Blank w.mng.write_buffer) where
  -- What a request for this handler's parser and its connection end in: the state, the settings and the
  -- answer, with the bytes behind the request still to be read.
  abbrev pub Ends : Option (ℕ × World D) → Config → ℕ → Bytes → Type 0
  Ends o conf status left =
      (w' : World D) × (o ≡ some (replies, w'))
      × (w'.config ≡ conf)
      × Answered w.mng.write_buffer status w'.mng.write_buffer
      × Holds w'.mng.read_buffer left
      × (w'.selector ≡ s)

  -- A request that adds a user, with a name and a password of 1 to 254 bytes: the settings are those that
  -- `add_user` gives, and the answer is 0 where it returned 0 and 5 else.
  pub request_put_lem :
      (p : Put) (u x left : Bytes) {r : ℤ} {c : Config}
      → w.mng.parsers ≡ Parsers.put (init_put p)
      → Receives w (0x01 ∷ []) 0x00 (length u ∷ (u ++ (length x ∷ x)) ++ left)
      → u ≢ []
      → x ≢ []
      → IsText u
      → IsText x
      → length u < 255
      → length x < 255
      → add_user w.config u x ≡ some (r, c)
      → Ends (handle (put_handler v) w) c (if is_failure r then 0x05 else 0x00) left
  unfolding finish_put put_marshall admin_put_consume
  request_put_lem p u x left {r} {c} at rec une xne ut xt ul xl added =
      let status = if is_failure r then 0x05 else 0x00 in
      handle_answers (put_handler v) w (0x01 ∷ []) 0x00 (length u ∷ (u ++ (length x ∷ x)) ++ left)
        {p = putting p u x} left status c
        (λ w'. Parsers.put (record (putting p u x) { status = status })) rec
        (subst
          (λ y.
            Parses put_parser y (0x01 ∷ 0x00 ∷ length u ∷ (u ++ (length x ∷ x)) ++ left)
              (putting p u x) (some false) left)
          (sym (ap v.as_put at ∙ v.as_put_own (init_put p)))
          (λ b held. admin_put_message p u x left (some false) held une xne ul xl))
        refl set k (λ w' same. rw (text_of-fill u _ ut, text_of-fill x _ xt, same, added) refl)

  -- A request to change a user, whose name and value are texts of 1 to 254 bytes, leaves the
  -- settings that edit_user gives and goes to the state that sends the answer, 0 where edit_user
  -- returned 0 and 7 else, which stands in front of the buffer, to be sent up to its limit; what
  -- follows the request stays in the buffer.
  pub request_edit_lem :
      (p : Edit) (u : Bytes) (a : ℕ) (x left : Bytes) {r : ℤ} {c : Config}
      → w.mng.parsers ≡ Parsers.edit (init_edit p)
      → Receives w (0x02 ∷ []) 0x00 (length u ∷ (u ++ (a ∷ length x ∷ x)) ++ left)
      → IsAttribute a
      → u ≢ []
      → x ≢ []
      → IsText u
      → IsText x
      → (length p.username ≡ 255) × (length p.value ≡ 255)
      → length u < 255
      → length x < 255
      → edit_user w.config u x a ≡ some (r, c)
      → Ends (handle (edit_handler v) w) c (if is_failure r then 0x07 else 0x00) left
  unfolding finish_edit edit_marshall admin_edit_consume
  request_edit_lem p u a x left {r} {c} at rec is une xne ut xt arrays ul xl edited =
      let status = if is_failure r then 0x07 else 0x00 in
      handle_answers (edit_handler v) w (0x02 ∷ []) 0x00
        (length u ∷ (u ++ (a ∷ length x ∷ x)) ++ left) {p = editing p u a x} left status c
        (λ w'. Parsers.edit (record (editing p u a x) { status = status })) rec
        (subst
          (λ y.
            Parses edit_parser y (0x02 ∷ 0x00 ∷ length u ∷ (u ++ (a ∷ length x ∷ x)) ++ left)
              (editing p u a x) (some false) left)
          (sym (ap v.as_edit at ∙ v.as_edit_own (init_edit p)))
          (λ b held. admin_edit_message p u a x left (some false) held is une xne arrays ul xl))
        refl set k (λ w' same. rw (text_of-fill u _ ut, text_of-fill x _ xt, same, edited) refl)

  -- A request to remove a user, whose name is a text of 1 to 254 bytes, leaves the settings that
  -- delete_user gives and goes to the state that sends the answer, 0 where delete_user returned 0
  -- and 5 else, which stands in front of the buffer, to be sent up to its limit; what follows the
  -- request stays in the buffer.
  pub request_delete_lem :
      (p : Delete) (u left : Bytes) {r : ℤ} {c : Config}
      → w.mng.parsers ≡ Parsers.delete (init_delete p)
      → Receives w (0x05 ∷ []) 0x00 (length u ∷ u ++ left)
      → u ≢ []
      → IsText u
      → length p.username ≡ 255
      → length u < 255
      → delete_user w.config u ≡ some (r, c)
      → Ends (handle (delete_handler v) w) c (if is_failure r then 0x05 else 0x00) left
  unfolding finish_delete delete_marshall admin_delete_consume
  request_delete_lem p u left {r} {c} at rec une ut array ul deleted =
      let status = if is_failure r then 0x05 else 0x00 in
      handle_answers (delete_handler v) w (0x05 ∷ []) 0x00 (length u ∷ u ++ left) {p = deleting p u}
        left status c (λ w'. Parsers.delete (record (deleting p u) { status = status })) rec
        (subst
          (λ y.
            Parses delete_parser y (0x05 ∷ 0x00 ∷ length u ∷ u ++ left) (deleting p u) (some false)
              left)
          (sym (ap v.as_delete at ∙ v.as_delete_own (init_delete p)))
          (λ b held. admin_delete_message p u left (some false) held une array ul))
        refl set k (λ w' same. rw (text_of-fill u _ ut, same, deleted) refl)

  -- A request that sets a status.
  pub request_configstatus_lem :
      (p : ConfigStatus) (f x : ℕ) (left : Bytes)
      → w.mng.parsers ≡ Parsers.conf_status (init_configstatus p)
      → Receives w (0x04 ∷ []) f (x ∷ left)
      → (f ≡ 0x03) ⊎ (f ≡ 0x04)
      → (x ≡ 0x00) ⊎ (x ≡ 0x01)
      → Ends (handle (configstatus_handler v) w) (set_status w.config f x) 0x00 left
  unfolding finish_configstatus configbuff_marshall admin_configstatus_consume
  request_configstatus_lem p f x left at rec hf hx =
      let q : ConfigStatus = record p {
        state = ConfigStatusState.done;
        action = 0x04;
        field = f;
        config_status = x;
        status = 0x00;
      } in
      handle_answers (configstatus_handler v) w (0x04 ∷ []) f (x ∷ left) {p = q} left 0x00
        (set_status w.config f x) (λ w'. w'.mng.parsers) rec
        (subst (λ y. Parses configstatus_parser y (0x04 ∷ f ∷ x ∷ left) q (some false) left)
          (sym (ap v.as_conf_status at ∙ v.as_conf_status_own (init_configstatus p)))
          (λ b held. admin_configstatus_message p f x left (some false) hf hx held))
        refl set k (λ w' same. rw same refl)

  -- A request that sets the size of the buffers, to a number that is positive as an `int`.
  pub request_buffsize_lem :
      (p : ConfigBuff) (a b c d : ℕ) (left : Bytes)
      → w.mng.parsers ≡ Parsers.buff_size (init_configbuff p)
      → Receives w (0x03 ∷ []) a (b ∷ c ∷ d ∷ left)
      → AreBytes (a ∷ b ∷ c ∷ d ∷ [])
      → length p.size ≡ 4
      → 0 < four_bytes_to_num a b c d
      → four_bytes_to_num a b c d < 2 ^ 31
      → Ends (handle (buffsize_handler v) w) (set_buff_size w.config a b c d) 0x00 left
  unfolding finish_buffsize configbuff_marshall admin_configbuff_consume
  request_buffsize_lem p a b c d left at rec bytes l more small =
      let some_bit = four_bytes_to_num_pos a b c d more in
      let positive : is_positive (four_bytes_to_num a b c d) ≡ true = ground arith in
      handle_answers (buffsize_handler v) w (0x03 ∷ []) a (b ∷ c ∷ d ∷ left) {p = sized p a b c d}
        left 0x00 (set_buff_size w.config a b c d)
        (λ w'. Parsers.buff_size (record (sized p a b c d) { status = 0x00 })) rec
        (subst
          (λ (t : Bool).
            Parses configbuff_parser (v.as_buff_size w.mng.parsers) (0x03 ∷ a ∷ b ∷ c ∷ d ∷ left)
              (sized p a b c d) (if t then some true else some false) left)
          some_bit
          (subst
            (λ y.
              Parses configbuff_parser y (0x03 ∷ a ∷ b ∷ c ∷ d ∷ left) (sized p a b c d)
                (if a + b + c + d == 0 then some true else some false) left)
            (sym (ap v.as_buff_size at ∙ v.as_buff_size_own (init_configbuff p)))
            (λ y held. admin_configbuff_message p a b c d left (some false) bytes l held)))
        (rw some_bit refl) set k (λ w' same. rw (some_bit, positive, same) refl)
