-- ===== src/Stm/Bracketed.antt =====
-- The order of the hooks: a machine arrives at a state before it departs from it, and departs from
-- it before it arrives at the next.
use tp_socks5_proxy.Base.{ℕ, ◌≡◌, ◌≢◌, Option, none, some, List, [], ◌∷◌, ◌>>=◌, get_elem?}
use tp_socks5_proxy.Stm.{Event, Definition, Machine, stm_init, call, stm_handler, stm_handler_close}

pub data Hook : Type 0 where
  arrived departed : ℕ → Hook

-- The hooks that were run, the last one first, while a machine that starts at `initial` came to its
-- current state.
pub data Trace (initial : ℕ) : Option ℕ → List Hook → Type 0 where
  idle : Trace initial none []
  opened : Trace initial (some initial) (arrived initial ∷ [])
  moved :
      {i j : ℕ} {l : List Hook}
      → Trace initial (some i) l
      → i ≢ j
      → Trace initial (some j) (arrived j ∷ departed i ∷ l)

-- The hooks of a machine that was closed.
pub data Closed (initial : ℕ) : List Hook → Type 0 where
  unused : Closed initial []
  left : {i : ℕ} {l : List Hook} → Trace initial (some i) l → Closed initial (departed i ∷ l)

module _ {W : Type 0} where
  -- A run of events, and a whole session.
  unfoldable pub stm_events : List Event → Machine W → W → Option (Machine W × W)
  stm_events [] m w = some (m, w)
  stm_events (e ∷ es) m w = stm_handler e m w >>= λ (n, m', w'). stm_events es m' w'

  unfoldable pub session : Machine W → List Event → W → Option W
  session m es w = do m' ← stm_init m; (m'', w') ← stm_events es m' w; stm_handler_close m'' w'

  -- The world logs the hooks of every state, by the number of the state, and the handlers log nothing.
  pub record Logs (log : W → List Hook) (ds : List (Definition W)) : Type 0 where
    pub arrivals :
        (i : ℕ) (d : Definition W)
        → get_elem? ds i ≡ some d
        → (w w' : W) → call d.on_arrival d.state w ≡ some w'
        → log w' ≡ arrived d.state ∷ log w
    pub departures :
        (i : ℕ) (d : Definition W)
        → get_elem? ds i ≡ some d
        → (w w' : W) → call d.on_departure d.state w ≡ some w'
        → log w' ≡ departed d.state ∷ log w
    pub silent :
        (i : ℕ) (d : Definition W)
        → get_elem? ds i ≡ some d
        → (e : Event) (f : W → Option (ℕ × W)) → d.on_ready e ≡ some f
        → (w w' : W) (n : ℕ) → f w ≡ some (n, w')
        → log w' ≡ log w
