-- ===== src/Stm/Tests.antt =====
-- A machine of two states whose world is the log of its hooks, and the theorems at it.
use tp_socks5_proxy.Base.{ℕ, ◌≡◌, refl, Option, none, some, List, [], ◌∷◌}
use tp_socks5_proxy.Stm.{
  Event, read_ready, Definition, Machine, stm_init, stm_handler, handle_first, jump,
}
use tp_socks5_proxy.Stm.Bracketed.{Hook, arrived, departed}

abbrev Log : Type 0
Log = List Hook

-- A state that reads on into the next one, and has no other handler.
abbrev reads_to : ℕ → Event → Option (Log → Option (ℕ × Log))
reads_to next read_ready = some (λ l. some (next, l))
reads_to next _ = none

abbrev state_of : ℕ → ℕ → Definition Log
state_of s next = record {
  state = s;
  on_arrival = some (λ i l. some (arrived i ∷ l));
  on_departure = some (λ i l. some (departed i ∷ l));
  on_ready = reads_to next;
}

abbrev two : Machine Log
two = record {
  initial = 0;
  states = state_of 0 1 ∷ state_of 1 1 ∷ [];
  max_state = 1;
  current = none;
}

stm_init-two : stm_init two ≡ some two
unfolding stm_init
stm_init-two = refl

stm_handler-two :
    stm_handler read_ready two []
    ≡ some (1, record two { current = some 1 }, arrived 1 ∷ departed 0 ∷ arrived 0 ∷ [])
unfolding stm_handler handle_first jump
stm_handler-two = refl
