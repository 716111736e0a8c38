-- ===== src/Parsing/Stream.antt =====
-- The loop over a buffer against a recursion over the bytes that the buffer holds.
use tp_socks5_proxy.Base.{
  ℕ, zero, suc, ◌-◌, ◌≤◌, ◌≡◌, refl, sym, subst, ◌∙◌, Bool, true, false, Option, none, some, [],
  ◌∷◌, ◌++◌, Bytes, if◌then◌else◌, ◌>>=◌, arith, length, lt→ltb, inl, inr, Bool-cases,
}
use tp_socks5_proxy.Buffer.{Buffer}
use tp_socks5_proxy.Buffer.Holds.{Holds}
use tp_socks5_proxy.Buffer.Queue.{can_read-Holds, read_cons}
use tp_socks5_proxy.Parsing.{Parser, Flag, consume_loop, consume}

module _ (k : Parser) where
  -- The parser, the flag and the bytes that are left.
  unfoldable pub run : k.P → Flag → Bytes → Option (k.P × Flag × Bytes)
  run p e [] = some (p, e, [])
  run p e (c ∷ cs) = k.feed p c >>= λ p'.
      let (done, e') = k.is_done p' e in if done then some (p', e', cs) else run p' e' cs

  -- What the loop does after a byte that took the parser to `p`.
  abbrev pub after : k.P → Flag → Bytes → Option (k.P × Flag × Bytes)
  after p e cs = let (done, e') = k.is_done p e in if done then some (p, e', cs) else run p e' cs

  pub run_nil : (p : k.P) (e : Flag) → run p e [] ≡ some (p, e, [])
  unfolding run
  run_nil p e = refl

  pub run_cons :
      (p : k.P) (e : Flag) (c : ℕ) (cs : Bytes)
      → run p e (c ∷ cs) ≡ (k.feed p c >>= λ p'. after p' e cs)
  unfolding run
  run_cons p e c cs = refl

  -- The outcome over a buffer is the outcome over its bytes, with a buffer that holds the rest.
  abbrev pub Agrees : ℕ → Option (k.P × Flag × Buffer) → Option (k.P × Flag × Bytes) → Type 0
  Agrees limit none none = Unit {0}
  Agrees limit (some (p, e, b)) (some (p', e', cs)) =
      (p ≡ p') × (e ≡ e') × Holds b cs × (b.limit ≡ limit)
  Agrees limit _ _ = ⊥

  bind-Agrees :
      (limit : ℕ) (m : Option k.P) (f : k.P → Option (k.P × Flag × Buffer))
      (g : k.P → Option (k.P × Flag × Bytes))
      → ((p : k.P) → Agrees limit (f p) (g p))
      → Agrees limit (m >>= f) (m >>= g)
  bind-Agrees limit none f g h = tt
  bind-Agrees limit (some p) f g h = h p

  if-Agrees :
      (limit : ℕ) (t : Bool) (x y : Option (k.P × Flag × Buffer))
      (x' y' : Option (k.P × Flag × Bytes))
      → Agrees limit x x'
      → Agrees limit y y'
      → Agrees limit (if t then x else y) (if t then x' else y')
  if-Agrees limit true x y x' y' h i = h
  if-Agrees limit false x y x' y' h i = i

  consume_loop-run :
      (cs : Bytes) (f : ℕ) (b : Buffer) (p : k.P) (e : Flag)
      → length cs ≤ f
      → Holds b cs
      → Agrees b.limit (consume_loop k f b p e) (run p e cs)
  unfolding consume_loop run
  consume_loop-run [] zero b p e l h = rw (can_read-Holds h) (refl, refl, h, refl)
  consume_loop-run [] (suc f) b p e l h = rw (can_read-Holds h) (refl, refl, h, refl)
  consume_loop-run (c ∷ cs) zero b p e l h = absurd (omega arith)
  consume_loop-run (c ∷ cs) (suc f) b p e l h =
      let (b', r, held, lim) = read_cons cs h in
      rw (can_read-Holds h, r, lt→ltb 0 (suc (length cs)) (omega arith), ← lim)
        (bind-Agrees b'.limit (k.feed p c) _ _ (λ p'.
          if-Agrees b'.limit (k.is_done p' e).0 _ _ _ _ (refl, refl, held, refl)
            (consume_loop-run cs f b' p' (k.is_done p' e).1 (omega arith) held)))

  -- Consuming from a buffer that holds the bytes `cs` has the outcome of `run` on `cs`: it stops
  -- the program where `run` does, and else returns the same parser and flag, and a buffer that
  -- holds the bytes which `run` leaves.
  pub consume-run :
      {b : Buffer} {cs : Bytes} (p : k.P) (e : Flag)
      → Holds b cs
      → Agrees b.limit (consume k b p e) (run p e cs)
  unfolding consume
  consume-run {b} {cs} p e h =
      consume_loop-run cs (b.write - b.read) b p e (omega (arith, h.read_at, h.write_at)) h

  consume_of_Agrees :
      (limit : ℕ) (m : Option (k.P × Flag × Buffer)) {p' : k.P} {e' : Flag} {left : Bytes}
      → Agrees limit m (some (p', e', left))
      → (b' : Buffer) × (m ≡ some (p', e', b')) × Holds b' left × (b'.limit ≡ limit)
  consume_of_Agrees limit none h = absurd h
  consume_of_Agrees limit (some (p, e, b)) h = (b, λ i. some (h.0 i, h.1 i, b), h.2, h.3)

  -- A run that succeeds is what the loop does on a buffer.
  pub consume-eq_of_run :
      {b : Buffer} {cs : Bytes} (p : k.P) (e : Flag) {p' : k.P} {e' : Flag} {left : Bytes}
      → run p e cs ≡ some (p', e', left)
      → Holds b cs
      → (b' : Buffer) × (consume k b p e ≡ some (p', e', b')) × Holds b' left × (b'.limit ≡ b.limit)
  consume-eq_of_run {b} {cs} p e r h =
      consume_of_Agrees b.limit (consume k b p e)
        (subst (Agrees b.limit (consume k b p e)) r (consume-run p e h))

  none_of_Agrees : (limit : ℕ) (m : Option (k.P × Flag × Buffer)) → Agrees limit m none → m ≡ none
  none_of_Agrees limit none h = refl
  none_of_Agrees limit (some x) h = absurd h

  -- A run that stops the program is one too.
  pub consume-none_of_run :
      {b : Buffer} {cs : Bytes} (p : k.P) (e : Flag)
      → run p e cs ≡ none
      → Holds b cs
      → consume k b p e ≡ none
  consume-none_of_run {b} {cs} p e r h =
      none_of_Agrees b.limit (consume k b p e)
        (subst (Agrees b.limit (consume k b p e)) r (consume-run p e h))

  run_of_Agrees :
      (limit : ℕ) (m : Option (k.P × Flag × Bytes)) {p' : k.P} {e' : Flag} {b' : Buffer}
      → Agrees limit (some (p', e', b')) m
      → (left : Bytes) × (m ≡ some (p', e', left)) × Holds b' left
  run_of_Agrees limit none h = absurd h
  run_of_Agrees limit (some (p, e, left)) h = (left, λ i. some (sym h.0 i, sym h.1 i, left), h.2)

  -- What the loop does on a buffer is a run that succeeds.
  pub run_of_consume :
      {b : Buffer} {cs : Bytes} (p : k.P) (e : Flag) {p' : k.P} {e' : Flag} {b' : Buffer}
      → consume k b p e ≡ some (p', e', b')
      → Holds b cs
      → (left : Bytes) × (run p e cs ≡ some (p', e', left)) × Holds b' left
  run_of_consume {b} {cs} p e c h =
      run_of_Agrees b.limit (run p e cs)
        (subst (λ m. Agrees b.limit m (run p e cs)) c (consume-run p e h))

  -- What the caller does with the next chunk: a parser that is done is left alone.
  abbrev pub resume : Bytes → k.P × Flag × Bytes → Option (k.P × Flag × Bytes)
  resume more (p, e, left) =
      if (k.is_done p e).0 then some (p, e, left ++ more) else run p e (left ++ more)

  bind-resume :
      (m : Option k.P) (f g : k.P → Option (k.P × Flag × Bytes))
      (r : k.P × Flag × Bytes → Option (k.P × Flag × Bytes))
      → ((p : k.P) → f p ≡ (g p >>= r))
      → (m >>= f) ≡ ((m >>= g) >>= r)
  bind-resume none f g r h = refl
  bind-resume (some p) f g r h = h p

  after-append :
      (cs more : Bytes) (p : k.P) (e : Flag)
      → ((e' : Flag)
          → (k.is_done p e').0 ≡ false
          → run p e' (cs ++ more) ≡ (run p e' cs >>= resume more))
      → after p e (cs ++ more) ≡ (after p e cs >>= resume more)
  after-append cs more p e ih = elim (Bool-cases (k.is_done p e).0) [
    | inl d ↦ rw (d, k.is_done_any p (k.is_done p e).1 e, d)
    | inr d ↦ rw d (ih (k.is_done p e).1 (k.is_done_any p (k.is_done p e).1 e ∙ d))
  ]

  -- How the stream is cut into chunks does not change the outcome: a run over two chunks is the run
  -- over the first, resumed with the second.
  pub run-append :
      (cs more : Bytes) (p : k.P) (e : Flag)
      → (k.is_done p e).0 ≡ false
      → run p e (cs ++ more) ≡ (run p e cs >>= resume more)
  unfolding run
  run-append [] more p e h = rw h
  run-append (c ∷ cs) more p e h =
      bind-resume (k.feed p c) _ _ (resume more)
        (λ p'. after-append cs more p' e (λ e'. run-append cs more p' e'))
