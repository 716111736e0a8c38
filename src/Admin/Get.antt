-- ===== src/Admin/Get.antt =====
-- src/parsers/admin_get.c and include/parsers/admin_get.h: the message that asks for data, and its
-- answer.
use tp_socks5_proxy.Base.{
  ℕ, ◌+◌, ◌%◌, ◌<◌, ◌≤◌, ◌≡◌, ◌≢◌, refl, Bool, true, false, Option, some, [], ◌∷◌, ◌++◌, Bytes,
  if◌then◌else◌, ◌>>=◌, ◌==◌, leb, ltb, le→ltb, ◌-◌, subst, arith, length,
}
use tp_socks5_proxy.Buffer.{Buffer, ℤ, pos, negsuc, write_ptr, poke, write_adv, returning}
use tp_socks5_proxy.Buffer.Holds.{Holds, HasRoom}
use tp_socks5_proxy.Parsing.{Parser, Flag, raise, consume}
use tp_socks5_proxy.Parsing.Stream.{run, consume-eq_of_run}
use tp_socks5_proxy.Buffer.Reply.{reply_lem}
use tp_socks5_proxy.Buffer.Queue.{write_ptr-Holds}

pub data State : Type 0 where
  action option done error error_action error_option : State

-- `struct admin_get_parser`.
pub record Get : Type 0 where
  pub state : State
  pub option : ℕ
  pub status : ℕ

-- `admin_get_parser_init`.
pub init : Get → Get
init p = record p { state = State.action }

-- `get_option`: the nine cases of the switch are the numbers up to `current_connectios`.
get_option : ℕ → Get → Get
get_option b p =
    if leb b 0x08
    then record p { option = b; state = done; status = 0x00 }
    else record p { state = error_option; status = 0x02 }

get_action : ℕ → Get → Get
get_action b p =
    if b == 0x00
    then record p { state = State.option }
    else record p { state = error_action; status = 0x01 }

pub feed_in : State → Get → ℕ → Option Get
unfolding get_option get_action
feed_in State.action p b = some (get_action b p)
feed_in State.option p b = some (get_option b p)
feed_in done p b = some (record p { status = 0x00 })
feed_in error p b = some (record p { status = 0x03 })
feed_in error_option p b = some (record p { status = 0x02 })
feed_in error_action p b = some (record p { status = 0x01 })

pub feed : Get → ℕ → Option Get
unfolding feed_in
feed p b = feed_in p.state p b

-- `admin_get_is_done`.
abbrev pub is_done : State → Flag → Bool × Flag
is_done error e = (true, raise e)
is_done error_option e = (true, raise e)
is_done error_action e = (true, raise e)
is_done done e = (true, e)
is_done _ e = (false, e)

pub is_done_any : (s : State) (e e' : Flag) → (is_done s e).0 ≡ (is_done s e').0
is_done_any done e e' = refl
is_done_any _ e e' = refl

abbrev pub parser : Parser
parser = record {
  P = Get;
  feed = feed;
  is_done = λ p. is_done p.state;
  is_done_any = λ p. is_done_any p.state;
}

unfoldable pub admin_get_consume : Buffer → Get → Flag → Option (Get × Flag × Buffer)
admin_get_consume = consume parser

-- `admin_get_marshall`: the status, the length cut to a byte, and the result; the count of bytes
-- written, or -1.
unfoldable pub marshall : Buffer → ℕ → Bytes → Option (ℤ × Buffer)
marshall b status res = do
  size ← write_ptr b
  if ltb size (2 + length res) then returning (negsuc 0) b else (do
    m ← poke b (status ∷ (length res % 256) ∷ res)
    b' ← write_adv m (pos (2 + length res))
    returning (pos (2 + length res)) b')

run_message :
    (p : Get) (o : ℕ) (rest : Bytes) (e : Flag)
    → o ≤ 8
    → run parser (init p) e (0x00 ∷ o ∷ rest)
      ≡ some (record p { state = done; option = o; status = 0x00 }, e, rest)
unfolding run feed feed_in init
run_message p o rest e h = ground arith

-- The action 0 and one of the nine options take a parser from its start to `done`, with the option;
-- the flag is as it was, and what follows stays in the buffer.
pub admin_get_message :
    {b : Buffer} (p : Get) (o : ℕ) (rest : Bytes) (e : Flag)
    → o ≤ 8
    → Holds b (0x00 ∷ o ∷ rest)
    → (b' : Buffer) × (admin_get_consume b (init p) e
        ≡ some (record p { state = done; option = o; status = 0x00 }, e, b'))
      × Holds b' rest
      × (b'.limit ≡ b.limit)
unfolding admin_get_consume
admin_get_message p o rest e h held =
    consume-eq_of_run parser (init p) e (run_message p o rest e h) held

-- The status, the length of the result and the result go behind what the buffer held, if they fit and
-- the length is that of a byte.
pub admin_get_answer :
    {b : Buffer} {q : Bytes} (status : ℕ) (res : Bytes)
    → length res < 256
    → Holds b q
    → HasRoom b (2 + length res)
    → (b' : Buffer) × (marshall b status res ≡ some (pos (2 + length res), b'))
      × Holds b' (q ++ (status ∷ length res ∷ res))
unfolding marshall
admin_get_answer {b} {q} status res l h room =
    let (b', sent, held) =
      reply_lem (status ∷ (length res % 256) ∷ res) (2 + length res) (pos (2 + length res))
        (omega arith) h room in
    (
      b',
      rw (write_ptr-Holds h, le→ltb (b.limit - b.write) (2 + length res) (omega arith)) sent,
      subst (λ (n : ℕ). Holds b' (q ++ (status ∷ n ∷ res))) (omega arith) held,
    )

-- What the parser refuses, with the bytes up to the wrong one and the parser at the end.
pub data Refused (p : Get) : Bytes → Get → Type 0 where
  bad_action :
      (a : ℕ)
      → a ≢ 0x00
      → Refused p (a ∷ []) (record (init p) { state = error_action; status = 0x01 })
  bad_option :
      (o : ℕ)
      → 8 < o
      → Refused p (0x00 ∷ o ∷ []) (record (init p) { state = error_option; status = 0x02 })

run-Refused :
    {p q : Get} {taken : Bytes} (rest : Bytes) (e : Flag)
    → Refused p taken q
    → run parser (init p) e (taken ++ rest) ≡ some (q, raise e, rest)
unfolding run feed feed_in init
run-Refused rest e (bad_action a ne) = ground arith
run-Refused rest e (bad_option o big) = ground arith

-- Another action and an option above 8 take a parser from its start to their error state, with the
-- status of the protocol, raise the flag, and stop behind the byte that is wrong.
pub admin_get_refuses :
    {b : Buffer} {p q : Get} {taken : Bytes} (rest : Bytes) (e : Flag)
    → Refused p taken q
    → Holds b (taken ++ rest)
    → (b' : Buffer) × (admin_get_consume b (init p) e ≡ some (q, raise e, b'))
      × Holds b' rest
      × (b'.limit ≡ b.limit)
unfolding admin_get_consume
admin_get_refuses {b} {p} rest e r held =
    consume-eq_of_run parser (init p) e (run-Refused rest e r) held
