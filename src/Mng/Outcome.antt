-- ===== src/Mng/Outcome.antt =====
-- What an event of a reading handler of src/mng.c can end in.
use tp_socks5_proxy.Base.{
  ℕ, ◌≡◌, refl, subst, Bool, true, false, ◌||◌, Option, none, some, some_injective, bind-eq-some,
  [], ◌∷◌, Bytes, if◌then◌else◌, ◌>>=◌, inl, inr, Bool-cases,
}
use tp_socks5_proxy.Buffer.{Buffer, write_ptr}
use tp_socks5_proxy.Parsing.{Flag, consume}
use tp_socks5_proxy.Selector.{Selector, Status, success, selector_set_interest}
use tp_socks5_proxy.Socket.{Received, op_write, receive, raised, is_success}
use tp_socks5_proxy.Mng.{World, with_parsers, with_read_buffer, mng_error}
use tp_socks5_proxy.Mng.Requests.{Handler}
use tp_socks5_proxy.Mng.Handlers.{ending, arrived, serve, handle}
use tp_socks5_proxy.Mng.Handling.{parsed}

module _ {D : Type 0} (h : Handler D) (w : World D) where
  -- The event fails, or the parser goes on, or the request is carried out.
  pub data Outcome : ℕ → World D → Type 0 where
    fails :
        (w' : World D)
        → w'.config ≡ w.config
        → w'.mng.is_open ≡ w.mng.is_open
        → Outcome mng_error w'
    waits :
        (p : h.k.P) (e : Flag) (b : Buffer)
        → (h.k.is_done p e).0 ≡ false
        → Outcome
            (ending (raised (h.k.is_done p e).1) h.stay)
            (with_parsers (h.pack p) (with_read_buffer b w))
    carries :
        (p : h.k.P) (e : Flag) (b : Buffer) (s : Selector D) (err : Bool) (w' : World D)
        → (h.k.is_done p e).0 ≡ true
        → selector_set_interest w.selector w.fd op_write ≡ some (success, s)
        → h.finish p (parsed (h.pack p) b s w) ≡ some (err, w')
        → Outcome (ending (raised (h.k.is_done p e).1 || err) h.next) w'

  returned :
      {n n' : ℕ} {w' w'' : World D}
      → Outcome n w'
      → ◌≡◌ {A = Option (ℕ × World D)} (some (n, w')) (some (n', w''))
      → Outcome n' w''
  returned o e = subst (λ (x : ℕ × World D). Outcome x.0 x.1) (some_injective e) o

  -- What follows the parser that is done, for a status of the selector.
  abbrev carried : h.k.P → Flag → Buffer → Status × Selector D → Option (ℕ × World D)
  carried p e b (status, s) =
      if is_success status
      then (h.finish p (parsed (h.pack p) b s w) >>= λ (err, w'').
          some (ending (raised (h.k.is_done p e).1 || err) h.next, w''))
      else some (mng_error, parsed (h.pack p) b s w)

  selected :
      (p : h.k.P) (e : Flag) (b : Buffer) (status : Status) (s : Selector D) {n : ℕ} {w' : World D}
      → (h.k.is_done p e).0 ≡ true
      → selector_set_interest w.selector w.fd op_write ≡ some (status, s)
      → carried p e b (status, s) ≡ some (n, w')
      → Outcome n w'
  selected p e b success s d set r =
      let ((err, w''), finished, eq) = bind-eq-some (h.finish p (parsed (h.pack p) b s w)) _ r in
      returned (carries p e b s err w'' d set finished) eq
  selected p e b _ s d set r = returned (fails _ refl refl) r

  after_parsing :
      (p : h.k.P) (e : Flag) (b : Buffer) {n : ℕ} {w' : World D}
      → (if (h.k.is_done p e).0
          then (selector_set_interest w.selector w.fd op_write >>= carried p e b)
          else some (
            ending (raised (h.k.is_done p e).1) h.stay,
            with_parsers (h.pack p) (with_read_buffer b w),
          ))
        ≡ some (n, w')
      → Outcome n w'
  after_parsing p e b {n} {w'} r =
      let go : Option (ℕ × World D) =
        selector_set_interest w.selector w.fd op_write >>= carried p e b in
      let stays : Option (ℕ × World D) = some (
        ending (raised (h.k.is_done p e).1) h.stay,
        with_parsers (h.pack p) (with_read_buffer b w),
      ) in
      elim (Bool-cases (h.k.is_done p e).0) [
        | inl d ↦
            let ((status, s), set, r₃) =
              bind-eq-some (selector_set_interest w.selector w.fd op_write) (carried p e b)
                (subst (λ (t : Bool). (if t then go else stays) ≡ some (n, w')) d r) in
            selected p e b status s d set r₃
        | inr d ↦
            returned (waits p e b d)
              (subst (λ (t : Bool). (if t then go else stays) ≡ some (n, w')) d r)
      ]

  serve-Outcome : (bs : Bytes) {n : ℕ} {w' : World D} → serve h bs w ≡ some (n, w') → Outcome n w'
  unfolding serve
  serve-Outcome bs r =
      let (b, got, r₁) = bind-eq-some (receive w.mng.read_buffer bs) _ r in
      let ((p, e, b'), taken, r₂) =
        bind-eq-some (consume h.k b (h.view w.mng.parsers) (some false)) _ r₁ in
      after_parsing p e b' r₂

  arrived-Outcome :
      (o : Received) {n : ℕ} {w' : World D} → arrived h o w ≡ some (n, w') → Outcome n w'
  unfolding arrived
  arrived-Outcome none r = returned (fails w refl refl) r
  arrived-Outcome (some []) r = returned (fails w refl refl) r
  arrived-Outcome (some (c ∷ cs)) r = serve-Outcome (c ∷ cs) r

  pub handle-Outcome : {n : ℕ} {w' : World D} → handle h w ≡ some (n, w') → Outcome n w'
  unfolding handle
  handle-Outcome r =
      let (_, _, r') = bind-eq-some (write_ptr w.mng.read_buffer) _ r in
      arrived-Outcome w.received r'
