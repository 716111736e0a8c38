-- ===== src/Admin/ConfigStatus.antt =====
-- src/parsers/admin_configstatus.c and include/parsers/admin_configstatus.h: the message that turns the
-- authentication or the sniffer on or off.
use tp_socks5_proxy.Base.{
  ℕ, ◌<◌, ◌≡◌, ◌≢◌, ◌⊎◌, refl, Bool, true, false, ◌||◌, Option, some, [], ◌∷◌, ◌++◌, Bytes,
  if◌then◌else◌, ◌==◌, arith,
}
use tp_socks5_proxy.Buffer.{Buffer, ℤ}
use tp_socks5_proxy.Buffer.Holds.{Holds}
use tp_socks5_proxy.Parsing.{Parser, Flag, raise, consume}
use tp_socks5_proxy.Parsing.Stream.{run, consume-eq_of_run}
use tp_socks5_proxy.Admin.Reply.{answer_all}

pub data State : Type 0 where
  action field status done error error_action error_field error_status : State

-- `struct admin_configstatus_parser`.
pub record ConfigStatus : Type 0 where
  pub state : State
  pub action : ℕ
  pub field : ℕ
  pub status : ℕ
  pub config_status : ℕ

-- `admin_configstatus_parser_init`.
pub init : ConfigStatus → ConfigStatus
init p = record p { state = State.action }

configstatus_action : ConfigStatus → ℕ → ConfigStatus
configstatus_action p b =
    if b == 0x04
    then record p { action = b; state = State.field }
    else record p { state = error_action; status = 0x01 }

configstatus_field : ConfigStatus → ℕ → ConfigStatus
configstatus_field p b =
    if b == 0x03 || b == 0x04
    then record p { field = b; state = State.status }
    else record p { state = error_field; status = 0x02 }

configstatus_status : ConfigStatus → ℕ → ConfigStatus
configstatus_status p b =
    if b == 0x00 || b == 0x01
    then record p { config_status = b; state = done; status = 0x00 }
    else record p { state = error_status; status = 0x03 }

pub feed_in : State → ConfigStatus → ℕ → Option ConfigStatus
unfolding configstatus_action configstatus_field configstatus_status
feed_in State.action p b = some (configstatus_action p b)
feed_in State.field p b = some (configstatus_field p b)
feed_in State.status p b = some (configstatus_status p b)
feed_in error p b = some (record p { status = 0x04 })
feed_in error_action p b = some (record p { status = 0x01 })
feed_in error_field p b = some (record p { status = 0x02 })
feed_in error_status p b = some (record p { status = 0x03 })
feed_in done p b = some (record p { status = 0x00 })

pub feed : ConfigStatus → ℕ → Option ConfigStatus
unfolding feed_in
feed p b = feed_in p.state p b

-- `admin_configstatus_is_done`.
abbrev pub is_done : State → Flag → Bool × Flag
is_done error e = (true, raise e)
is_done error_action e = (true, raise e)
is_done error_field e = (true, raise e)
is_done error_status e = (true, raise e)
is_done done e = (true, e)
is_done _ e = (false, e)

pub is_done_any : (s : State) (e e' : Flag) → (is_done s e).0 ≡ (is_done s e').0
is_done_any done e e' = refl
is_done_any _ e e' = refl

abbrev pub parser : Parser
parser = record {
  P = ConfigStatus;
  feed = feed;
  is_done = λ p. is_done p.state;
  is_done_any = λ p. is_done_any p.state;
}

unfoldable pub admin_configstatus_consume :
    Buffer → ConfigStatus → Flag → Option (ConfigStatus × Flag × Buffer)
admin_configstatus_consume = consume parser

-- `admin_configstatus_marshalll`.
unfoldable pub marshall : Buffer → ℕ → Option (ℤ × Buffer)
marshall = answer_all

run_message :
    (p : ConfigStatus) (f s : ℕ) (rest : Bytes) (e : Flag)
    → (f ≡ 0x03) ⊎ (f ≡ 0x04)
    → (s ≡ 0x00) ⊎ (s ≡ 0x01)
    → run parser (init p) e (0x04 ∷ f ∷ s ∷ rest)
      ≡ some (
        record p { state = done; action = 0x04; field = f; config_status = s; status = 0x00 },
        e,
        rest,
      )
unfolding run feed feed_in init
run_message p f s rest e hf hs = ground arith

-- A message of the action 4, a field that is 3 or 4 and a status that is 0 or 1 takes a parser from
-- its start to `done`, with its field and status; the flag is as it was, and what follows stays in the
-- buffer.
pub admin_configstatus_message :
    {b : Buffer} (p : ConfigStatus) (f s : ℕ) (rest : Bytes) (e : Flag)
    → (f ≡ 0x03) ⊎ (f ≡ 0x04)
    → (s ≡ 0x00) ⊎ (s ≡ 0x01)
    → Holds b (0x04 ∷ f ∷ s ∷ rest)
    → (b' : Buffer) × (admin_configstatus_consume b (init p) e
        ≡ some (
          record p { state = done; action = 0x04; field = f; config_status = s; status = 0x00 },
          e,
          b',
        ))
      × Holds b' rest
      × (b'.limit ≡ b.limit)
unfolding admin_configstatus_consume
admin_configstatus_message p f s rest e hf hs held =
    consume-eq_of_run parser (init p) e (run_message p f s rest e hf hs) held

-- What the parser refuses, with the bytes up to the wrong one and the parser at the end.
pub data Refused (p : ConfigStatus) : Bytes → ConfigStatus → Type 0 where
  bad_action :
      (a : ℕ)
      → a ≢ 0x04
      → Refused p (a ∷ []) (record (init p) { state = error_action; status = 0x01 })
  bad_field :
      (f : ℕ)
      → f ≢ 0x03
      → f ≢ 0x04
      → Refused p
          (0x04 ∷ f ∷ [])
          (record (init p) { state = error_field; action = 0x04; status = 0x02 })
  bad_status :
      (f s : ℕ)
      → (f ≡ 0x03) ⊎ (f ≡ 0x04)
      → 1 < s
      → Refused p
          (0x04 ∷ f ∷ s ∷ [])
          (record (init p) { state = error_status; action = 0x04; field = f; status = 0x03 })

run-Refused :
    {p q : ConfigStatus} {taken : Bytes} (rest : Bytes) (e : Flag)
    → Refused p taken q
    → run parser (init p) e (taken ++ rest) ≡ some (q, raise e, rest)
unfolding run feed feed_in init
run-Refused rest e (bad_action a ne) = ground arith
run-Refused rest e (bad_field f i j) = ground arith
run-Refused rest e (bad_status f s hf big) = ground arith

-- Another action, a field other than 3 and 4 and a status above 1 take a parser from its start to their
-- error state, with the status of the protocol, raise the flag, and stop behind the byte that is wrong.
pub admin_configstatus_refuses :
    {b : Buffer} {p q : ConfigStatus} {taken : Bytes} (rest : Bytes) (e : Flag)
    → Refused p taken q
    → Holds b (taken ++ rest)
    → (b' : Buffer) × (admin_configstatus_consume b (init p) e ≡ some (q, raise e, b'))
      × Holds b' rest
      × (b'.limit ≡ b.limit)
unfolding admin_configstatus_consume
admin_configstatus_refuses {b} {p} rest e r held =
    consume-eq_of_run parser (init p) e (run-Refused rest e r) held
