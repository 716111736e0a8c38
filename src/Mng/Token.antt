-- ===== src/Mng/Token.antt =====
-- The password of the administrator: src/mng.c lets a connection send requests behind the token of the
-- settings only.
use tp_socks5_proxy.Base.{
  ℕ, ◌<◌, ◌≡◌, ◌≢◌, refl, sym, ap, subst, ◌∙◌, ◌⊎◌, inl, inr, Bool, true, false, Bool-cases, Option,
  some, some_injective, bind-eq-some, [], ◌∷◌, ◌++◌, Bytes, if◌then◌else◌, length, fill, IsText,
  arith,
}
use tp_socks5_proxy.Buffer.{Buffer, ℤ}
use tp_socks5_proxy.Buffer.Holds.{Holds, HasRoom}
use tp_socks5_proxy.Selector.{Selector, success, selector_set_interest}
use tp_socks5_proxy.Config.{is_string}
use tp_socks5_proxy.Config.Table.{same_text, same_string, other_string}
use tp_socks5_proxy.Socket.{op_write}
use tp_socks5_proxy.Admin.Reply.{answer_one_room}
use tp_socks5_proxy.Admin.Connect.{
  Connect, State as ConnectState, init as init_connect, blank, parser as connect_parser,
  admin_connect_consume, marshall as connect_marshall,
}
use tp_socks5_proxy.Admin.Connect.Message.{connected, admin_connect_message}
use tp_socks5_proxy.Mng.{
  Parsers, Views, World, closing, answer, with_write_buffer, connect_read, connect_write,
}
use tp_socks5_proxy.Mng.Requests.{connect_handler, connect_ends, finish_connect}
use tp_socks5_proxy.Mng.Handlers.{ending, handle}
use tp_socks5_proxy.Mng.Handling.{Parses, Receives, handle_done, parsed}
use tp_socks5_proxy.Mng.Outcome.{Outcome, fails, waits, carries, handle-Outcome}

waits_elsewhere : (t : Bool) → ending t connect_read ≡ connect_write → ⊥
waits_elsewhere true e = omega arith
waits_elsewhere false e = omega arith

module _ {D : Type 0} where
  -- An answer changes the buffer only.
  answer_keeps :
      (f : Buffer → ℕ → Option (ℤ × Buffer)) (status : ℕ) (w : World D) {err : Bool} {w' : World D}
      → answer f status w ≡ some (err, w')
      → (w'.mng.is_open ≡ w.mng.is_open) × (w'.mng.parsers ≡ w.mng.parsers) × (w'.config ≡ w.config)
  answer_keeps f status w e =
      let ((r, b), written, same) = bind-eq-some (f w.mng.write_buffer status) _ e in
      let at = some_injective same in
      (
        ap (λ x. x.1.mng.is_open) (sym at),
        ap (λ x. x.1.mng.parsers) (sym at),
        ap (λ x. x.1.config) (sym at),
      )

  -- A connection that stays open was asked for the token.
  abbrev pub IsChecked : Connect → World D → World D → Type 0
  IsChecked p w w' =
      (w'.mng.parsers ≡ w.mng.parsers)
      × (w'.config ≡ w.config)
      × (w'.mng.is_open ≡ true
          → (p.state ≡ ConnectState.done) × (is_string p.passwd w.config.mng_token ≡ some true))

  closes :
      (status : ℕ) (p : Connect) (w : World D) {err : Bool} {w' : World D}
      → answer connect_marshall status (closing w) ≡ some (err, w')
      → IsChecked p w w'
  closes status p w e =
      let (open_, same, conf) = answer_keeps connect_marshall status (closing w) e in
      (same, conf, λ t. absurd cc)

  connect_ends-IsChecked :
      (st : ConnectState) (p : Connect) (w : World D) {err : Bool} {w' : World D}
      → p.state ≡ st
      → connect_ends st p w ≡ some (err, w')
      → IsChecked p w w'
  unfolding connect_ends
  connect_ends-IsChecked ConnectState.done p w {err} {w'} at e =
      let (ok, asked, r) = bind-eq-some (is_string p.passwd w.config.mng_token) _ e in
      let yes_ : Option (Bool × World D) = answer connect_marshall 0x00 w in
      let no_ : Option (Bool × World D) = answer connect_marshall 0x04 (closing w) in
      elim (Bool-cases ok) [
        | inl t ↦
            let (open_, same, conf) =
              answer_keeps connect_marshall 0x00 w
                (subst (λ (x : Bool). (if x then yes_ else no_) ≡ some (err, w')) t r) in
            (same, conf, λ _. (at, asked ∙ ap some t))
        | inr f ↦
            closes 0x04 p w (subst (λ (x : Bool). (if x then yes_ else no_) ≡ some (err, w')) f r)
      ]
  connect_ends-IsChecked _ p w at e = closes p.status p w e

  module _ (v : Views) (w : World D) where
    checked-Outcome :
        {n : ℕ} {w' : World D}
        → Outcome (connect_handler v) w n w'
        → n ≡ connect_write
        → w'.mng.is_open ≡ true
        → (w'.config ≡ w.config)
          × (is_string (v.as_connect w'.mng.parsers).passwd w.config.mng_token ≡ some true)
    unfolding finish_connect
    checked-Outcome (fails w' c o) at open_ = absurd (omega arith)
    checked-Outcome (waits p e b d) at open_ = absurd (waits_elsewhere _ at)
    checked-Outcome (carries p e b s err w' d set f) at open_ =
        let (same, conf, ask) = connect_ends-IsChecked p.state p _ refl f in
        (
          conf,
          ap (λ x. is_string (v.as_connect x).passwd w.config.mng_token) same
              ∙ ap (λ (x : Connect). is_string x.passwd w.config.mng_token) (v.as_connect_own p)
              ∙ (ask open_).1,
        )

    -- Whatever the administrator sends and whatever state the parser is in, if mng_connect_read
    -- goes to the state that answers and leaves the connection open, then the password that the
    -- parser holds is the token, and the settings are as they were.
    pub connect_checked :
        {w' : World D}
        → handle (connect_handler v) w ≡ some (connect_write, w')
        → w'.mng.is_open ≡ true
        → (w'.config ≡ w.config)
          × (is_string (v.as_connect w'.mng.parsers).passwd w.config.mng_token ≡ some true)
    connect_checked e open_ = checked-Outcome (handle-Outcome (connect_handler v) w e) refl open_

    -- What the password comes to: whether it is the token.
    pub connect_message :
        {s : Selector D} (p : Connect) (x token left : Bytes) (ok : Bool)
        → w.mng.parsers ≡ Parsers.connect (init_connect p)
        → Receives w [] 0x00 (length x ∷ x ++ left)
        → x ≢ []
        → length x < 255
        → is_string (fill x blank) w.config.mng_token ≡ some ok
        → selector_set_interest w.selector w.fd op_write ≡ some (success, s)
        → Holds w.mng.write_buffer []
        → HasRoom w.mng.write_buffer 1
        → (w' : World D) × (handle (connect_handler v) w ≡ some (connect_write, w'))
          × (w'.mng.is_open ≡ (if ok then w.mng.is_open else false))
          × (w'.config ≡ w.config)
          × Holds w'.mng.write_buffer ((if ok then 0x00 else 0x04) ∷ [])
    unfolding finish_connect connect_ends connect_marshall admin_connect_consume
    connect_message {s} p x token left ok at rec ne l asked set held room =
        let (b', e, _) =
          handle_done (connect_handler v) w [] 0x00 (length x ∷ x ++ left) (connected p x)
            (some false) left rec
            (subst
              (λ y.
                Parses connect_parser y (0x00 ∷ length x ∷ x ++ left) (connected p x) (some false)
                  left)
              (sym (ap v.as_connect at ∙ v.as_connect_own (init_connect p)))
              (λ b h. admin_connect_message p x left (some false) h ne l))
            refl set in
        let w₁ : World D = parsed (Parsers.connect (connected p x)) b' s w in
        elim (Bool-cases ok) [
          | inl t ↦
              let (b, sent, h) = answer_one_room 0x00 held room in
              (with_write_buffer b w₁, e ∙ rw (asked, t, sent) refl, rw t refl, refl, rw t h)
          | inr f ↦
              let (b, sent, h) = answer_one_room 0x04 held room in
              (
                with_write_buffer b (closing w₁),
                e ∙ rw (asked, f, sent) refl,
                rw f refl,
                refl,
                rw f h,
              )
        ]

    -- A whole first message of the administrator, with a password that is a text of 1 to 254
    -- bytes, takes mng_connect_read to the state that answers, with the settings as they were: if
    -- the password is the token the connection stays as open as it was and the answer is 0, and if
    -- it is not the connection is closed behind the answer 4.
    pub connect_lem :
        {s : Selector D} (p : Connect) (x left : Bytes)
        → w.mng.parsers ≡ Parsers.connect (init_connect p)
        → Receives w [] 0x00 (length x ∷ x ++ left)
        → x ≢ []
        → IsText x
        → IsText w.config.mng_token
        → length x < 255
        → selector_set_interest w.selector w.fd op_write ≡ some (success, s)
        → Holds w.mng.write_buffer []
        → HasRoom w.mng.write_buffer 1
        → (w' : World D) × (handle (connect_handler v) w ≡ some (connect_write, w'))
          × (w'.config ≡ w.config)
          × (((x ≡ w.config.mng_token)
                × (w'.mng.is_open ≡ w.mng.is_open)
                × Holds w'.mng.write_buffer (0x00 ∷ []))
              ⊎ ((x ≢ w.config.mng_token)
                  × (w'.mng.is_open ≡ false)
                  × Holds w'.mng.write_buffer (0x04 ∷ [])))
    connect_lem p x left at rec ne xt tt_ l set held room = elim (same_text x w.config.mng_token) [
      | yes e ↦
          let asked = subst (λ y. is_string (fill x blank) y ≡ some true) e (same_string x _ xt) in
          let (w', r, o, c, h) =
            connect_message p x w.config.mng_token left true at rec ne l asked set held room in
          (w', r, c, inl (e, o, h))
      | no n ↦
          let asked = other_string x _ w.config.mng_token xt tt_ n in
          let (w', r, o, c, h) =
            connect_message p x w.config.mng_token left false at rec ne l asked set held room in
          (w', r, c, inr (n, o, h))
    ]
