-- ===== src/Admin/ConfigBuff.antt =====
-- src/parsers/admin_configbuffsize.c and include/parsers/admin_configbuffsize.h: the message that sets
-- the size of the buffers, four bytes in network order.
use tp_socks5_proxy.Base.{
  ℕ, ◌+◌, ◌*◌, ◌^◌, ◌%◌, ◌≡◌, ◌≢◌, refl, Bool, true, false, Option, some, [], ◌∷◌, Bytes,
  if◌then◌else◌, ◌>>=◌, ◌==◌, leb, add8, arith, length, store, get_elem?, AreBytes,
}
use tp_socks5_proxy.Buffer.{Buffer, ℤ}
use tp_socks5_proxy.Buffer.Holds.{Holds}
use tp_socks5_proxy.Parsing.{Parser, Flag, raise, consume}
use tp_socks5_proxy.Parsing.Stream.{run, consume-eq_of_run}
use tp_socks5_proxy.Admin.Reply.{answer_all}

pub data State : Type 0 where
  action size done error error_action error_sizelen error_size : State

-- `struct admin_configbuff_parser`.
pub record ConfigBuff : Type 0 where
  pub state : State
  pub size : Bytes
  pub action : ℕ
  pub remaining : ℕ
  pub read : ℕ
  pub status : ℕ

-- `admin_configbuff_parser_init`.
pub init : ConfigBuff → ConfigBuff
init p = record p { state = State.action; remaining = 4; read = 0 }

remaining_is_done : ConfigBuff → Bool
remaining_is_done p = leb p.remaining p.read

configbuff_action : ConfigBuff → ℕ → ConfigBuff
configbuff_action p b =
    if b == 0x03
    then record p { action = b; state = State.size }
    else record p { state = error_action; status = 0x01 }

-- `size[3] | (size[2] << 8) | (size[1] << 16) | (size[0] << 24)` of four bytes, as a `uint32_t`: the
-- parts share no bit, so the disjunction is the sum.
abbrev pub word_of : Bytes → Option ℕ
word_of a = do
  x ← get_elem? a 3
  y ← get_elem? a 2
  z ← get_elem? a 1
  w ← get_elem? a 0
  some ((x + y * 2 ^ 8 + z * 2 ^ 16 + w * 2 ^ 24) % 2 ^ 32)

feed_size : ConfigBuff → ℕ → Option ConfigBuff
unfolding remaining_is_done
feed_size p b = do
  a ← store p.size p.read b
  let q = record p { size = a; read = add8 p.read 1 }
  if remaining_is_done q
      then (do
        n ← word_of a
        if leb n 0
            then some (record q { state = error_size; status = 0x03 })
            else some (record q { state = done; status = 0x00 }))
      else some q

pub feed_in : State → ConfigBuff → ℕ → Option ConfigBuff
unfolding configbuff_action feed_size
feed_in State.action p b = some (configbuff_action p b)
feed_in State.size p b = feed_size p b
feed_in error p b = some (record p { status = 0x04 })
feed_in error_action p b = some (record p { status = 0x01 })
feed_in error_size p b = some (record p { status = 0x03 })
feed_in error_sizelen p b = some (record p { status = 0x02 })
feed_in done p b = some (record p { status = 0x00 })

pub feed : ConfigBuff → ℕ → Option ConfigBuff
unfolding feed_in
feed p b = feed_in p.state p b

-- `admin_configbuff_is_done`.
abbrev pub is_done : State → Flag → Bool × Flag
is_done error e = (true, raise e)
is_done error_action e = (true, raise e)
is_done error_size e = (true, raise e)
is_done done e = (true, e)
is_done _ e = (false, e)

pub is_done_any : (s : State) (e e' : Flag) → (is_done s e).0 ≡ (is_done s e').0
is_done_any done e e' = refl
is_done_any _ e e' = refl

abbrev pub parser : Parser
parser = record {
  P = ConfigBuff;
  feed = feed;
  is_done = λ p. is_done p.state;
  is_done_any = λ p. is_done_any p.state;
}

unfoldable pub admin_configbuff_consume :
    Buffer → ConfigBuff → Flag → Option (ConfigBuff × Flag × Buffer)
admin_configbuff_consume = consume parser

-- `admin_configbuff_marshall`.
unfoldable pub marshall : Buffer → ℕ → Option (ℤ × Buffer)
marshall = answer_all

-- An array of four bytes.
four : (a : Bytes) → length a ≡ 4 → (i : ℕ) × (j : ℕ) × (k : ℕ) × (l : ℕ) × (a ≡ i ∷ j ∷ k ∷ l ∷ [])
four (i ∷ j ∷ k ∷ l ∷ []) h = (i, j, k, l, refl)
four [] h = absurd (omega arith)
four (i ∷ []) h = absurd (omega arith)
four (i ∷ j ∷ []) h = absurd (omega arith)
four (i ∷ j ∷ k ∷ []) h = absurd (omega arith)
four (i ∷ j ∷ k ∷ l ∷ m ∷ a) h = absurd (omega arith)

-- The parser after the four bytes.
abbrev pub sized : ConfigBuff → ℕ → ℕ → ℕ → ℕ → ConfigBuff
sized p w x y z = record p {
  state = if w + x + y + z == 0 then error_size else done;
  size = w ∷ x ∷ y ∷ z ∷ [];
  action = 0x03;
  remaining = 4;
  read = 4;
  status = if w + x + y + z == 0 then 0x03 else 0x00;
}

run_message :
    (p : ConfigBuff) (w x y z : ℕ) (rest : Bytes) (e : Flag) (i j k l : ℕ)
    → AreBytes (w ∷ x ∷ y ∷ z ∷ [])
    → p.size ≡ i ∷ j ∷ k ∷ l ∷ []
    → run parser (init p) e (0x03 ∷ w ∷ x ∷ y ∷ z ∷ rest)
      ≡ some (sized p w x y z, (if w + x + y + z == 0 then raise e else e), rest)
unfolding run feed feed_in init
run_message p w x y z rest e i j k l bytes h = ground arith

-- The action 3 and the four bytes of a size that is not 0 take a parser from its start to `done`; of
-- the size 0 they take it to `error_size` and raise the flag. The parser holds the bytes in their
-- order, and what follows stays in the buffer.
pub admin_configbuff_message :
    {b : Buffer} (p : ConfigBuff) (w x y z : ℕ) (rest : Bytes) (e : Flag)
    → AreBytes (w ∷ x ∷ y ∷ z ∷ [])
    → length p.size ≡ 4
    → Holds b (0x03 ∷ w ∷ x ∷ y ∷ z ∷ rest)
    → (b' : Buffer) × (admin_configbuff_consume b (init p) e
        ≡ some (sized p w x y z, (if w + x + y + z == 0 then raise e else e), b'))
      × Holds b' rest
      × (b'.limit ≡ b.limit)
unfolding admin_configbuff_consume
admin_configbuff_message p w x y z rest e bytes l held =
    let (i, j, k, m, a) = four p.size l in
    consume-eq_of_run parser (init p) e (run_message p w x y z rest e i j k m bytes a) held

run_action :
    (p : ConfigBuff) (a : ℕ) (rest : Bytes) (e : Flag)
    → a ≢ 0x03
    → run parser (init p) e (a ∷ rest)
      ≡ some (record (init p) { state = error_action; status = 0x01 }, raise e, rest)
unfolding run feed feed_in init
run_action p a rest e ne = ground arith

-- Another action takes a parser from its start to `error_action`, with the status 1, raises the flag,
-- and stops behind that byte.
pub admin_configbuff_refuses :
    {b : Buffer} (p : ConfigBuff) (a : ℕ) (rest : Bytes) (e : Flag)
    → a ≢ 0x03
    → Holds b (a ∷ rest)
    → (b' : Buffer) × (admin_configbuff_consume b (init p) e
        ≡ some (record (init p) { state = error_action; status = 0x01 }, raise e, b'))
      × Holds b' rest
      × (b'.limit ≡ b.limit)
unfolding admin_configbuff_consume
admin_configbuff_refuses p a rest e ne held =
    consume-eq_of_run parser (init p) e (run_action p a rest e ne) held
