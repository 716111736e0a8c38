-- ===== src/Stm/States.antt =====
-- The states of a machine: what `stm_init` checks, and what each event keeps.
use native.Mathlib.Decide.{ℕ_discrete}
use tp_socks5_proxy.Base.{
  ℕ, zero, suc, ◌+◌, ◌≤◌, ◌<◌, ◌≡◌, ◌≢◌, refl, sym, ap, subst, ◌∙◌, Bool, Option, none, some, List,
  ◌>>=◌, get_elem?, bind-eq-some, some_injective, arith,
}
use tp_socks5_proxy.Stm.{
  Event, Definition, Machine, in_order, stm_init, arrive, depart, handle_first, jump, ready,
  stm_handler, stm_state,
}

module _ {W : Type 0} where
  -- The state that the next event is for.
  abbrev pub now : Machine W → ℕ
  now m = elim m.current [ none ↦ m.initial | some i ↦ i ]

  -- The states are numbered by their places, and the current one is one of them.
  pub record IsWellFormed (m : Machine W) : Type 0 where
    pub numbered :
        (i : ℕ)
        → i ≤ m.max_state
        → (d : Definition W) × (get_elem? m.states i ≡ some d) × (d.state ≡ i)
    pub starts : m.initial < m.max_state
    pub inside : now m ≤ m.max_state

  in_order_lem :
      (ds : List (Definition W)) (n i : ℕ) {t : Bool}
      → in_order ds n i ≡ some t
      → (j : ℕ) → i ≤ j
      → j < i + n
      → (d : Definition W) × (get_elem? ds j ≡ some d) × (d.state ≡ j)
  unfolding in_order
  in_order_lem ds zero i h j a b = absurd (omega arith)
  in_order_lem ds (suc n) i {t = t} h j a b =
      let (d, e, r) = bind-eq-some (get_elem? ds i) _ h in
      elim (ℕ_discrete i d.state) [
        | yes same ↦ elim (ℕ_discrete i j) [
          | yes ij ↦ (d, ap (get_elem? ds) (sym ij) ∙ e, sym same ∙ ij)
          | no ne ↦ in_order_lem ds n (suc i) {t = t} (ground arith) j (omega arith) (omega arith)
        ]
        | no ne ↦ absurd (ground arith)
      ]

  pub stm_init_lem :
      (m : Machine W) {m' : Machine W}
      → stm_init m ≡ some m'
      → (m' ≡ record m { current = none }) × IsWellFormed (record m { current = none })
  unfolding stm_init
  stm_init_lem m {m' = m'} h =
      let (t, e, r) = bind-eq-some (in_order m.states (suc m.max_state) 0) _ h in
      let at : m' ≡ record m { current = none } = ground arith in
      let starts : m.initial < m.max_state = ground arith in
      let checked : IsWellFormed (record m { current = none }) = record {
        numbered = λ i l. in_order_lem m.states (suc m.max_state) 0 e i (omega arith) (omega arith);
        starts = starts;
        inside = omega arith;
      } in
      (at, checked)

  pub handle_first_lem :
      (m : Machine W) (w : W) {m' : Machine W} {w' : W}
      → handle_first m w ≡ some (m', w')
      → m' ≡ record m { current = some (now m) }
  unfolding handle_first
  handle_first_lem m w h = ground arith

  pub jump_lem :
      (m : Machine W) (n : ℕ) (w : W) {m' : Machine W} {w' : W}
      → jump m n w ≡ some (m', w')
      → (m' ≡ record m { current = some n }) × (n ≤ m.max_state)
  unfolding jump
  jump_lem m n w h = ground arith

  -- `jump` between two states.
  abbrev moves : Machine W → ℕ → ℕ → W → Option (Machine W × W)
  moves m i n w = do
    w₁ ← depart m (some i) w
    w₂ ← arrive m n w₁
    some (record m { current = some n }, w₂)

  pub jump_moves :
      (m : Machine W) (i n : ℕ) (w : W) {m' : Machine W} {w' : W}
      → m.current ≡ some i
      → i ≢ n
      → jump m n w ≡ some (m', w')
      → (w₁ : W) × (depart m (some i) w ≡ some w₁) × (arrive m n w₁ ≡ some w')
  unfolding jump
  jump_moves m i n w {m' = m'} {w' = w'} at ne h =
      let both : moves m i n w ≡ some (m', w') = ground arith in
      let (w₁, went, rest) = bind-eq-some (depart m (some i) w) _ both in
      let (w₂, came, end) = bind-eq-some (arrive m n w₁) _ rest in
      (w₁, went, came ∙ ap (λ x. some (x.1)) (some_injective end))

  pub moved-IsWellFormed :
      {m : Machine W} {n : ℕ}
      → IsWellFormed m
      → n ≤ m.max_state
      → IsWellFormed (record m { current = some n })
  moved-IsWellFormed ok l = record { numbered = ok.numbered; starts = ok.starts; inside = l }

  -- The three calls of an event.
  pub record Parts (e : Event) (m : Machine W) (w : W) (n : ℕ) (m' : Machine W) (w' : W)
      : Type 0 where
    pub entered : Machine W
    pub at_first : W
    pub answered : W
    pub first : handle_first m w ≡ some (entered, at_first)
    pub called : ready e entered at_first ≡ some (n, answered)
    pub jumped : jump entered n answered ≡ some (m', w')

  pub stm_handler-Parts :
      (e : Event) (m : Machine W) (w : W) {n : ℕ} {m' : Machine W} {w' : W}
      → stm_handler e m w ≡ some (n, m', w')
      → Parts e m w n m' w'
  unfolding stm_handler
  stm_handler-Parts e m w {n = n} {m' = m'} {w' = w'} h =
      let ((m₁, w₁), first, h₁) = bind-eq-some (handle_first m w) _ h in
      let ((r, w₂), called, h₂) = bind-eq-some (ready e m₁ w₁) _ h₁ in
      let ((m₃, w₃), jumped, h₃) = bind-eq-some (jump m₁ r w₂) _ h₂ in
      let whole : (r, m₃, w₃) ≡ (n, m', w') = some_injective h₃ in
      record {
        entered = m₁;
        at_first = w₁;
        answered = w₂;
        first = first;
        called = called ∙ ap (λ x. some (x.0, w₂)) whole;
        jumped =
            ap (λ k. jump m₁ k w₂) (ap (λ x. x.0) (sym whole))
            ∙ jumped
            ∙ ap (λ x. some (x.1, x.2)) whole;
      }

  -- What the two ends of an event do to the machine.
  pub stm_handler_lem :
      (e : Event) (m : Machine W) (w : W) {n : ℕ} {m' : Machine W} {w' : W}
      → stm_handler e m w ≡ some (n, m', w')
      → (m' ≡ record m { current = some n }) × (n ≤ m.max_state)
  stm_handler_lem e m w {n = n} h =
      let p = stm_handler-Parts e m w h in
      let at = handle_first_lem m w p.first in
      let (moved, inside) = jump_lem p.entered n p.answered p.jumped in
      (
        moved ∙ ap {A = Machine W} (λ x. record x { current = some n }) at,
        subst (λ x. n ≤ x.max_state) at inside,
      )

  pub stm_handler-IsWellFormed :
      (e : Event) (m : Machine W) (w : W) {n : ℕ} {m' : Machine W} {w' : W}
      → IsWellFormed m
      → stm_handler e m w ≡ some (n, m', w')
      → IsWellFormed m' × (stm_state m' ≡ some n)
  unfolding stm_state
  stm_handler-IsWellFormed e m w ok h =
      let (at, l) = stm_handler_lem e m w h in
      let (d, found, number) = ok.numbered _ l in
      (subst IsWellFormed (sym at) (moved-IsWellFormed ok l), rw (at, found, number) refl)
