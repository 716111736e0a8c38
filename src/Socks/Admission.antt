-- ===== src/Socks/Admission.antt =====
-- Who may send a request: the handlers of src/socks5_hello.c and src/socks5_auth.c.
use mathlib.Core.List.{Mem}
use tp_socks5_proxy.Base.{
  ℕ, suc, ◌-◌, ◌<◌, ◌≡◌, ◌≢◌, refl, ap, ◌∙◌, ◌⊎◌, inl, inr, Bool, false, none, some, List, [], ◌∷◌,
  ◌++◌, Bytes, if◌then◌else◌, ◌>>=◌, le→ltb, length, length-append, length-drop, take, take-append,
  drop, fill, blit_front, IsText, arith,
}
use tp_socks5_proxy.Buffer.{Buffer, pos}
use tp_socks5_proxy.Buffer.Holds.{Holds, HasRoom}
use tp_socks5_proxy.Buffer.Queue.{write_ptr-Holds}
use tp_socks5_proxy.Buffer.Reply.{reply_lem}
use tp_socks5_proxy.Selector.{Selector, success, selector_set_interest}
use tp_socks5_proxy.Config.{Config, check_user}
use tp_socks5_proxy.Config.Table.{Entry, IsTable}
use tp_socks5_proxy.Config.Users.{check_user-Answers}
use tp_socks5_proxy.Socket.{Received, op_write}
use tp_socks5_proxy.Socket.Stream.{receive_lem}
use tp_socks5_proxy.Mng.Messages.{text_of-fill}
use tp_socks5_proxy.Auth.{init as init_auth, auth_consume, marshall as auth_marshall, blank}
use tp_socks5_proxy.Auth.Message.{message, credentials, auth_consume_message, length-blank}
use tp_socks5_proxy.Socks.{
  World, AuthData, auth, with_client, with_read_buffer, with_write_buffer, as_auth, auth_write,
}
use tp_socks5_proxy.Socks.Greeting.{
  auth_success, auth_fail, check_credentials, auth_process, copy_user, auth_parsed, auth_arrived,
  on_auth_read,
}

auth_marshall_lem :
    {b : Buffer} {q : Bytes} (status : ℕ)
    → Holds b q
    → HasRoom b 2
    → (b' : Buffer) × (auth_marshall b status ≡ some (pos 2, b'))
      × Holds b' (q ++ (0x01 ∷ status ∷ []))
unfolding auth_marshall
auth_marshall_lem {b} status h room =
    let (b', sent, held) = reply_lem (0x01 ∷ status ∷ []) 2 (pos 2) refl h room in
    (b', rw (write_ptr-Holds h, le→ltb (b.limit - b.write) 2 (omega arith)) sent, held)

abbrev status_for : Bool → ℕ
status_for known = if known then auth_success else auth_fail

checked :
    (c : Config) (u x : Bytes) {known : Bool}
    → IsText u
    → IsText x
    → check_user c u x ≡ some known
    → check_credentials c (credentials u x) ≡ some (status_for known)
unfolding check_credentials
checked c u x ut xt k = rw (text_of-fill u blank ut, text_of-fill x blank xt, k) refl

module _ {D : Type 0} where
  copied :
      (u x : Bytes) (w : World D)
      → length u < 255
      → length w.socks.user ≡ 255
      → (a : Bytes) × (copy_user (credentials u x) w
          ≡ some (record w { socks = record w.socks { user = a } }))
  unfolding copy_user
  copied u x w l k =
      let whole : length (fill u blank) ≡ 255 = omega (
        arith,
        length-blank,
        length-append u (0 ∷ drop (suc (length u)) blank),
        length-drop (suc (length u)) blank,
      ) in
      let cut : take (length u) (fill u blank) ≡ u =
        take-append u (0 ∷ drop (suc (length u)) blank) (length u) refl in
      (
        u ++ drop (length u) w.socks.user,
        rw cut (rw (blit_front u w.socks.user (omega arith)) (ground (arith, whole))),
      )

  -- The parser's end for these credentials, with an answer that fits.
  auth_ends :
      (w : World D) (u x : Bytes) {known : Bool} {s : Selector D}
      → IsText u
      → IsText x
      → length u < 255
      → length w.socks.user ≡ 255
      → check_user w.config u x ≡ some known
      → selector_set_interest w.selector w.fd op_write ≡ some (success, s)
      → Holds w.socks.write_buffer []
      → HasRoom w.socks.write_buffer 2
      → (w' : World D) × (auth_parsed (credentials u x) none (some false) w ≡ some (auth_write, w'))
        × (w'.socks.client_data
            ≡ auth (record { parser = credentials u x; status = some (status_for known) }))
        × Holds w'.socks.write_buffer (0x01 ∷ status_for known ∷ [])
  unfolding auth_parsed auth_process
  auth_ends w u x {known} {s} ut xt l k asked set held room =
      let (b, sent, held') = auth_marshall_lem (status_for known) held room in
      let done_ : AuthData = record {
        parser = credentials u x;
        status = some (status_for known);
      } in
      let w₁ : World D =
        with_write_buffer b (with_client (auth done_) (record w { selector = s })) in
      let (a, kept) = copied u x w₁ l k in
      (
        record w₁ { socks = record w₁.socks { user = a } },
        rw (set, checked w.config u x ut xt asked, sent, kept) refl,
        refl,
        held',
      )

  auth_message :
      (w : World D) (u x left : Bytes) {known : Bool} {s : Selector D}
      → w.socks.client_data ≡ auth (record { parser = init_auth; status = none })
      → w.received ≡ some (message u x ++ left)
      → Holds w.socks.read_buffer []
      → HasRoom w.socks.read_buffer (length (message u x ++ left))
      → u ≢ []
      → x ≢ []
      → IsText u
      → IsText x
      → length u < 255
      → length x < 255
      → length w.socks.user ≡ 255
      → check_user w.config u x ≡ some known
      → selector_set_interest w.selector w.fd op_write ≡ some (success, s)
      → Holds w.socks.write_buffer []
      → HasRoom w.socks.write_buffer 2
      → (w' : World D) × (on_auth_read w ≡ some (auth_write, w'))
        × (w'.socks.client_data
            ≡ auth (record { parser = credentials u x; status = some (status_for known) }))
        × Holds w'.socks.write_buffer (0x01 ∷ status_for known ∷ [])
  unfolding on_auth_read auth_arrived auth_consume
  auth_message w u x left at got rh rr une xne ut xt ul xl k asked set held room =
      let (b, arrived, h, _) = receive_lem (message u x ++ left) rh rr in
      let (b', taken, _, _) = auth_consume_message u x left (some false) h une ul xne xl in
      let (w', ends, a, hw) =
        auth_ends (with_read_buffer b' w) u x ut xt ul k asked set held room in
      (
        w',
        rw (write_ptr-Holds rh) (
            ap (λ (o : Received). auth_arrived o w) got
            ∙ rw arrived (
                ap
                  (λ c. as_auth c >>= λ a. auth_consume b a.parser (some false) >>= λ (p, e, b'').
                    auth_parsed p a.status e (with_read_buffer b'' w))
                  at
                ∙ rw taken ends)),
        a,
        hw,
      )

  -- A whole message with a name and a password, texts of 1 to 254 bytes, which arrives at once at
  -- a connection that waits for it, takes auth_read to the state that answers: the status, in the
  -- answer behind the version 1 and kept by the connection, is 0 if the table of users has the
  -- pair and 1 if it does not.
  pub auth_read_lem :
      (w : World D) (t : List Entry) (u x left : Bytes) {s : Selector D}
      → w.socks.client_data ≡ auth (record { parser = init_auth; status = none })
      → w.received ≡ some (message u x ++ left)
      → Holds w.socks.read_buffer []
      → HasRoom w.socks.read_buffer (length (message u x ++ left))
      → u ≢ []
      → x ≢ []
      → IsText u
      → IsText x
      → length u < 255
      → length x < 255
      → length w.socks.user ≡ 255
      → IsTable w.config t
      → selector_set_interest w.selector w.fd op_write ≡ some (success, s)
      → Holds w.socks.write_buffer []
      → HasRoom w.socks.write_buffer 2
      → (w' : World D) × (st : ℕ) × (on_auth_read w ≡ some (auth_write, w'))
        × (w'.socks.client_data ≡ auth (record { parser = credentials u x; status = some st }))
        × Holds w'.socks.write_buffer (0x01 ∷ st ∷ [])
        × (((st ≡ auth_success) × Mem (u, x) t) ⊎ ((st ≡ auth_fail) × ¬ Mem (u, x) t))
  auth_read_lem w t u x left at got rh rr une xne ut xt ul xl k h set held room =
      elim (check_user-Answers w.config t u x h ut xt) [
        | inl (e, m) ↦
            let (w', r, a, hw) =
              auth_message w u x left at got rh rr une xne ut xt ul xl k e set held room in
            (w', auth_success, r, a, hw, inl (refl, m))
        | inr (e, n) ↦
            let (w', r, a, hw) =
              auth_message w u x left at got rh rr une xne ut xt ul xl k e set held room in
            (w', auth_fail, r, a, hw, inr (refl, n))
      ]
