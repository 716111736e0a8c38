-- ===== src/Socks/Guards.antt =====
-- Who may send a request: what the handlers of src/socks5_hello.c and src/socks5_auth.c let pass, whatever
-- the client sends.
use tp_socks5_proxy.Base.{
  ℕ, ◌≡◌, ◌≢◌, sym, ap, subst, ◌∙◌, inl, inr, Bool, true, false, Bool-cases, Option, none, some,
  some_injective, bind-eq-some, if◌then◌else◌, ◌>>=◌, ◌==◌, leb, length, take, blit, assert, arith,
}
use tp_socks5_proxy.Buffer.{Buffer, can_read, write_ptr}
use tp_socks5_proxy.Selector.{Selector, Status, success, selector_set_interest}
use tp_socks5_proxy.Config.{Config}
use tp_socks5_proxy.Socket.{
  Received, Sent, op_read, op_write, receive, offered, deliver, is_success, raised,
}
use tp_socks5_proxy.Parsing.{Flag}
use tp_socks5_proxy.Auth.{Auth, is_done as is_done_auth, auth_consume, marshall as auth_marshall}
use tp_socks5_proxy.Socks.{
  World, AuthData, ClientData, hello, auth, with_client, with_read_buffer, with_write_buffer,
  as_hello, as_auth, ending, hello_write, auth_read, auth_write, request_read, socks_done,
  socks_error,
}
use tp_socks5_proxy.Socks.Greeting.{
  method_no_auth_required, auth_success, check_credentials, auth_process, copy_user, auth_parsed,
  auth_arrived, on_auth_read, auth_written, on_auth_write, departed, sending, after_hello,
  hello_written, on_hello_write,
}

module _ {D : Type 0} where
  -- A sending handler that goes elsewhere has sent everything.
  sending_left :
      (stay n : ℕ) (go : World D → Option (ℕ × World D)) (w : World D) {w' : World D}
      → sending stay go w ≡ some (n, w')
      → n ≢ stay
      → n ≢ socks_error
      → (b : Buffer) × (go (with_write_buffer b w) ≡ some (n, w'))
  unfolding sending
  sending_left stay n go w {w'} e ns ne =
      let (_, _, r) = bind-eq-some (offered w.socks.write_buffer) _ e in left w.sent r
    where
      left :
          (o : Sent)
          → departed stay go o w ≡ some (n, w')
          → (b : Buffer) × (go (with_write_buffer b w) ≡ some (n, w'))
      left none r = absurd (ne (ap (λ x. x.0) (sym (some_injective (unfold departed in r)))))
      left (some k) r =
          let (b, _, r') = bind-eq-some (deliver w.socks.write_buffer k) _ (unfold departed in r) in
          let on_ : Option (ℕ × World D) = some (stay, with_write_buffer b w) in
          let off : Option (ℕ × World D) = go (with_write_buffer b w) in
          elim (Bool-cases (can_read b)) [
            | inl t ↦ absurd (
                ns (
                  ap (λ x. x.0)
                    (sym (
                      some_injective
                        (subst (λ (y : Bool). (if y then on_ else off) ≡ some (n, w')) t r')))))
            | inr f ↦ (b, subst (λ (y : Bool). (if y then on_ else off) ≡ some (n, w')) f r')
          ]

  written_allows :
      (w : World D) {w' : World D}
      → auth_written w ≡ some (request_read, w')
      → (a : AuthData) × (w.socks.client_data ≡ auth a) × (a.status ≡ some auth_success)
  unfolding auth_written
  written_allows w {w'} e =
      let (a, is, r) = bind-eq-some (as_auth w.socks.client_data) _ e in
      let (status, at, r') = bind-eq-some a.status _ r in
      (a, auth_of w.socks.client_data is, at ∙ ap some (ok status _ r'))
    where
      auth_of : (c : ClientData) {a : AuthData} → as_auth c ≡ some a → c ≡ auth a
      auth_of (auth a) h = ap auth (some_injective h)
      auth_of (hello p) h = cc
      auth_of (ClientData.request p) h = cc
      auth_of (ClientData.copy p) h = cc

      ok :
          (status : ℕ) (m : Option (ℕ × World D))
          → (if status == auth_success then m else some (socks_done, w)) ≡ some (request_read, w')
          → status ≡ auth_success
      ok status m h =
          let other : Option (ℕ × World D) = some (socks_done, w) in
          elim (Bool-cases (status == auth_success)) [
            | inl t ↦ ground (arith, t)
            | inr f ↦ absurd (
                omega (
                  arith,
                  ap (λ x. x.0)
                      (some_injective (
                        subst (λ (y : Bool). (if y then m else other) ≡ some (request_read, w')) f
                          h)),
                ))
          ]

  -- If auth_write goes to the state that reads requests, then the status of the authentication
  -- that the connection keeps is AUTH_SUCCESS.
  pub auth_write_allows :
      (w : World D) {w' : World D}
      → on_auth_write w ≡ some (request_read, w')
      → (a : AuthData) × (w.socks.client_data ≡ auth a) × (a.status ≡ some auth_success)
  unfolding on_auth_write
  auth_write_allows w e =
      let (b, r) =
        sending_left auth_write request_read auth_written w e (omega arith) (omega arith) in
      written_allows (with_write_buffer b w) r

after_hello_open :
    (c : Config) (m : ℕ)
    → after_hello c m ≡ request_read
    → (c.auth_enabled ≡ false) × (m ≡ method_no_auth_required)
unfolding after_hello
after_hello_open c m h = elim (Bool-cases c.auth_enabled) [
  | inl t ↦ absurd (ground (arith, t))
  | inr f ↦ (f, ground (arith, f))
]

module _ {D : Type 0} where
  -- If hello_write goes to the state that reads requests, then the settings ask for no
  -- authentication.
  pub hello_write_allows :
      (w : World D) {w' : World D}
      → on_hello_write w ≡ some (request_read, w')
      → w.config.auth_enabled ≡ false
  unfolding on_hello_write hello_written
  hello_write_allows w e =
      let (b, r) =
        sending_left hello_write request_read hello_written w e (omega arith) (omega arith) in
      let ((status, s), _, r₁) = bind-eq-some (selector_set_interest w.selector w.fd op_read) _ r in
      let (p, _, r₂) = bind-eq-some (as_hello w.socks.client_data) _ r₁ in
      succeeded (is_success status) p.data_of (ap (λ x. x.0) (some_injective r₂))
    where
      succeeded :
          (t : Bool) (m : ℕ)
          → (if t then after_hello w.config m else socks_error) ≡ request_read
          → w.config.auth_enabled ≡ false
      succeeded true m h = (after_hello_open w.config m h).0
      succeeded false m h = absurd (omega arith)

  -- The credentials of the parser were looked up in the settings, with this answer.
  abbrev pub Answered : World D → World D → Type 0
  Answered w w' =
      (p : Auth) × (st : ℕ) × (w'.socks.client_data
        ≡ auth (record { parser = p; status = some st }))
      × (check_credentials w.config p ≡ some st)

  process-Answered :
      (p : Auth) (w : World D) {n : ℕ} {w' : World D}
      → auth_process p w ≡ some (n, w')
      → (st : ℕ) × (w'.socks.client_data ≡ auth (record { parser = p; status = some st }))
        × (check_credentials w.config p ≡ some st)
  unfolding auth_process
  process-Answered p w e =
      let (st, asked, r) = bind-eq-some (check_credentials w.config p) _ e in
      let ((k, b), _, r') = bind-eq-some (auth_marshall w.socks.write_buffer st) _ r in
      (st, ap (λ x. x.1.socks.client_data) (sym (some_injective r')), asked)

  copy_user_keeps :
      (p : Auth) (w : World D) {w' : World D}
      → copy_user p w ≡ some w'
      → w'.socks.client_data ≡ w.socks.client_data
  unfolding copy_user
  copy_user_keeps p w e =
      let (_, _, r) = bind-eq-some (assert (leb p.user.userlen (length p.user.username))) _ e in
      let (u, _, r') =
        bind-eq-some (blit w.socks.user 0 (take p.user.userlen p.user.username)) _ r in
      ap (λ x. x.socks.client_data) (sym (some_injective r'))

  -- What follows a parser that is done, for a status of the selector.
  abbrev carried : Auth → Flag → World D → Status × Selector D → Option (ℕ × World D)
  carried p e w (status, s) =
      if is_success status
      then (auth_process p (record w { selector = s }) >>= λ (ret, w₁).
          copy_user p w₁ >>= λ w₂. some (ending (raised e) ret, w₂))
      else some (socks_error, record w { selector = s })

  carried-Answered :
      (p : Auth) (e : Flag) (w : World D) (status : Status) (s : Selector D) {w' : World D}
      → carried p e w (status, s) ≡ some (auth_write, w')
      → Answered w w'
  carried-Answered p e w success s r =
      let ((ret, w₁), processed, r₁) =
        bind-eq-some (auth_process p (record w { selector = s })) _ r in
      let (w₂, kept, r₂) = bind-eq-some (copy_user p w₁) _ r₁ in
      let (st, is, asked) = process-Answered p (record w { selector = s }) processed in
      (
        p,
        st,
        ap (λ x. x.1.socks.client_data) (sym (some_injective r₂)) ∙ copy_user_keeps p w₁ kept ∙ is,
        asked,
      )
  carried-Answered p e w _ s r = absurd (omega (arith, ap (λ x. x.0) (some_injective r)))

  parsed-Answered :
      (p : Auth) (old : Option ℕ) (e : Flag) (w : World D) {w' : World D}
      → auth_parsed p old e w ≡ some (auth_write, w')
      → Answered w w'
  unfolding auth_parsed
  parsed-Answered p old e w {w'} r =
      let start : World D = with_client (auth (record { parser = p; status = old })) w in
      let go : Option (ℕ × World D) =
        selector_set_interest w.selector w.fd op_write
        >>= carried p (is_done_auth p.state e).1 start in
      let stays : Option (ℕ × World D) =
        some (ending (raised (is_done_auth p.state e).1) auth_read, start) in
      elim (Bool-cases (is_done_auth p.state e).0) [
        | inl d ↦
            let ((status, s), _, r') =
              bind-eq-some (selector_set_interest w.selector w.fd op_write)
                (carried p (is_done_auth p.state e).1 start)
                (subst (λ (t : Bool). (if t then go else stays) ≡ some (auth_write, w')) d r) in
            carried-Answered p (is_done_auth p.state e).1 start status s r'
        | inr d ↦ absurd (
            elsewhere (raised (is_done_auth p.state e).1) (
              ap (λ x. x.0)
                (some_injective
                  (subst (λ (t : Bool). (if t then go else stays) ≡ some (auth_write, w')) d r))))
      ]
    where
      elsewhere : (t : Bool) → ending t auth_read ≡ auth_write → ⊥
      elsewhere true h = omega arith
      elsewhere false h = omega arith

  arrived-Answered :
      (o : Received) (w : World D) {w' : World D}
      → auth_arrived o w ≡ some (auth_write, w')
      → Answered w w'
  unfolding auth_arrived
  arrived-Answered none w r = absurd (omega (arith, ap (λ x. x.0) (some_injective r)))
  arrived-Answered (some bs) w r =
      let (b, _, r₁) = bind-eq-some (receive w.socks.read_buffer bs) _ r in
      let (a, _, r₂) = bind-eq-some (as_auth w.socks.client_data) _ r₁ in
      let ((p, e, b'), _, r₃) = bind-eq-some (auth_consume b a.parser (some false)) _ r₂ in
      parsed-Answered p a.status e (with_read_buffer b' w) r₃

  -- Whatever the client sends, if auth_read goes to the state that answers, then the status that
  -- the connection keeps is what check_credentials gives for the name and the password that the
  -- parser holds.
  pub auth_read_checks :
      (w : World D) {w' : World D} → on_auth_read w ≡ some (auth_write, w') → Answered w w'
  unfolding on_auth_read
  auth_read_checks w r =
      let (_, _, r') = bind-eq-some (write_ptr w.socks.read_buffer) _ r in
      arrived-Answered w.received w r'
