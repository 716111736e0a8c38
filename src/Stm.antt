-- ===== src/Stm.antt =====
-- src/stm.c and include/stm.h: the state machine of a connection, whose events are those of the
-- selector.
--
-- The handlers of a state are functions on the world that a `selector_key` gives access to, which may
-- stop the program; a handler that is NULL is `none`. They do not reach the machine itself, as those
-- of the proxy do not. `current` is an index into `states`, NULL is `none`.
pub mod States
pub mod Bracketed
mod Tests
use tp_socks5_proxy.Base.{
  ℕ, zero, suc, Bool, true, false, ◌&&◌, Option, none, some, List, if◌then◌else◌, ◌>>=◌, ◌==◌, ltb,
  get_elem?,
}

-- `on_read_ready`, `on_write_ready` and `on_block_ready`.
pub data Event : Type 0 where
  read_ready write_ready block_ready : Event

-- `struct state_definition`.
pub record Definition (W : Type 0) : Type 0 where
  pub state : ℕ
  pub on_arrival : Option (ℕ → W → Option W)
  pub on_departure : Option (ℕ → W → Option W)
  pub on_ready : Event → Option (W → Option (ℕ × W))

-- `struct state_machine`.
pub record Machine (W : Type 0) : Type 0 where
  pub initial : ℕ
  pub states : List (Definition W)
  pub max_state : ℕ
  pub current : Option ℕ

-- `stm->current == stm->states + next`.
abbrev pub is_at : Option ℕ → ℕ → Bool
is_at none n = false
is_at (some i) n = i == n

module _ {W : Type 0} where
  -- The loop of `stm_init`, over the states from `i` on.
  unfoldable pub in_order : List (Definition W) → ℕ → ℕ → Option Bool
  in_order ds zero i = some true
  in_order ds (suc n) i = do
    d ← get_elem? ds i
    let rest = in_order ds n (suc i)
    if i == d.state then rest else none

  unfoldable pub stm_init : Machine W → Option (Machine W)
  unfolding in_order
  stm_init m = do
    _ ← in_order m.states (suc m.max_state) 0
    if ltb m.initial m.max_state then some (record m { current = none }) else none

  -- A hook that is not NULL is run.
  abbrev pub call : Option (ℕ → W → Option W) → ℕ → W → Option W
  call none s w = some w
  call (some f) s w = f s w

  abbrev pub arrive : Machine W → ℕ → W → Option W
  arrive m i w = do d ← get_elem? m.states i; call d.on_arrival d.state w

  abbrev pub depart : Machine W → Option ℕ → W → Option W
  depart m none w = some w
  depart m (some i) w = do d ← get_elem? m.states i; call d.on_departure d.state w

  unfoldable pub handle_first : Machine W → W → Option (Machine W × W)
  handle_first m w = elim m.current [
    | none ↦ arrive m m.initial w >>= λ w'. some (record m { current = some (m.initial) }, w')
    | some i ↦ some (m, w)
  ]

  unfoldable pub jump : Machine W → ℕ → W → Option (Machine W × W)
  jump m next w =
      if ltb m.max_state next then none else if is_at m.current next then some (m, w) else (do
        w' ← depart m m.current w
        w'' ← arrive m next w'
        some (record m { current = some next }, w''))

  -- The call of `current`'s handler.
  abbrev pub ready : Event → Machine W → W → Option (ℕ × W)
  ready e m w = do i ← m.current; d ← get_elem? m.states i; f ← d.on_ready e; f w

  -- `stm_handler_read`, `stm_handler_write` and `stm_handler_block`.
  unfoldable pub stm_handler : Event → Machine W → W → Option (ℕ × Machine W × W)
  stm_handler e m w = do
    (m', w') ← handle_first m w
    (ret, w'') ← ready e m' w'
    (m'', w''') ← jump m' ret w''
    some (ret, m'', w''')

  unfoldable pub stm_handler_close : Machine W → W → Option W
  stm_handler_close m w = depart m m.current w

  unfoldable pub stm_state : Machine W → Option ℕ
  stm_state m = elim m.current [
    | none ↦ some (m.initial)
    | some i ↦ get_elem? m.states i >>= λ d. some (d.state)
  ]
