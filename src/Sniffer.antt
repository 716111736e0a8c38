-- ===== src/Sniffer.antt =====
-- src/pop3_sniffer.c and include/pop3_sniffer.h: the machine that reads the name and the password of a
-- POP3 session out of the bytes that pass through the proxy.
--
-- Reading a string behind its NUL, and writing or copying outside of an array, is `none`. `malloc` is
-- taken to succeed, and the log is left out.
pub mod Dialogue
mod Tests
use tp_socks5_proxy.Base.{
  ℕ, zero, suc, ◌+◌, ◌-◌, ◌*◌, Bool, true, false, ◌&&◌, ◌||◌, Option, none, some, List, [], ◌∷◌,
  ◌++◌, Bytes, if◌then◌else◌, ◌>>=◌, ◌==◌, ltb, leb, add8, dec8, length, get_elem?, take, replicate,
  store, strlen, assert,
}
use tp_socks5_proxy.Buffer.{Buffer, pos, init, can_read, read, write_ptr, poke, write_adv}
use tp_socks5_proxy.Config.{Config}
use tp_socks5_proxy.Config.Report.{SniffInfo}
use tp_socks5_proxy.Listgeneric.{ListCdt, insert}

-- `enum pop3_sniffer_state`.
pub data State : Type 0 where
  initial user read_user check_user password read_password check_password ok err : State

-- `struct pop3_sniffer`.
pub record Sniffer : Type 0 where
  pub state : State
  pub username : Bytes
  pub passwd : Bytes
  pub read : ℕ
  pub remaining : ℕ
  pub check_read : ℕ
  pub check_remaining : ℕ
  pub buffer : Buffer

-- `OK`, `USER`, `PASS` and `ERR`.
abbrev pub ok_text : Bytes
ok_text = b'+' ∷ b'O' ∷ b'K' ∷ []

abbrev pub user_text : Bytes
user_text = b'U' ∷ b'S' ∷ b'E' ∷ b'R' ∷ b' ' ∷ []

abbrev pub pass_text : Bytes
pass_text = b'P' ∷ b'A' ∷ b'S' ∷ b'S' ∷ b' ' ∷ []

abbrev pub err_text : Bytes
err_text = b'-' ∷ b'E' ∷ b'R' ∷ b'R' ∷ []

-- `toupper`, of the C locale.
abbrev pub toupper : ℕ → ℕ
toupper b = if leb 97 b && leb b 122 then b - 32 else b

-- `toupper(b) == toupper(*(text + i))`.
abbrev pub matches : Bytes → ℕ → ℕ → Option Bool
matches text i b = get_elem? (text ++ (0 ∷ [])) i >>= λ c. some (toupper b == toupper c)

abbrev pub max_usr_pass_size : ℕ
max_usr_pass_size = 255

abbrev pub max_buff_pop3_size : ℕ
max_buff_pop3_size = 4096

abbrev pub reset_read : Sniffer → ℕ → Sniffer
reset_read s remain = record s { read = 0; remaining = remain }

unfoldable pub blank : Bytes
blank = replicate max_buff_pop3_size 0

-- `pop3_sniffer_init`; the name and the password stay.
unfoldable pub pop3_sniffer_init : Sniffer → Sniffer
pop3_sniffer_init s =
    reset_read (record s { state = initial; buffer = init max_buff_pop3_size blank }) 3

unfoldable pub feed_ok : Sniffer → ℕ → Option Sniffer
feed_ok s b = do
  same ← matches ok_text s.read b
  let s' = record s { read = add8 s.read 1; remaining = dec8 s.remaining }
  if same
      then some (if s'.remaining == 0 then reset_read (record s' { state = user }) 5 else s')
      else some (record s { state = err })

-- A byte of a command, `USER ` or `PASS `, which is started again at another one.
unfoldable pub feed_command : Bytes → State → Sniffer → ℕ → Option Sniffer
feed_command text next s b = do
  same ← matches text s.read b
  let s' = record s { read = add8 s.read 1; remaining = dec8 s.remaining }
  if same
      then some (if s'.remaining == 0 then record s' { read = 0; state = next } else s')
      else some (if s.read == 0 then s else reset_read s 5)

unfoldable pub feed_read_user : Sniffer → ℕ → Option Sniffer
feed_read_user s b =
    if b == b'\n'
    then (store s.username s.read 0 >>= λ a. some (record s {
      username = a;
      read = 0;
      remaining = 5;
      check_read = 0;
      check_remaining = 4;
      state = password;
    }))
    else if ltb s.read max_usr_pass_size
    then (store s.username s.read b >>= λ a. some (record s { username = a; read = add8 s.read 1 }))
    else some s

unfoldable pub feed_read_password : Sniffer → ℕ → Option Sniffer
feed_read_password s b =
    if b == b'\n'
    then (store s.passwd s.read 0 >>= λ a.
        some (record s { passwd = a; read = 0; check_read = 0; state = check_password }))
    else if ltb s.read max_usr_pass_size
    then (store s.passwd s.read b >>= λ a. some (record s { passwd = a; read = add8 s.read 1 }))
    else some s

-- `check_password` and `check_user`, which differ in the state that follows a `+OK`.
unfoldable pub feed_check : State → Sniffer → ℕ → Option Sniffer
feed_check next s b = do
  same ← matches ok_text s.read b
  let s' = record s { read = add8 s.read 1 }
  let failed = matches err_text s.check_read b >>= λ bad.
      let s'' = record s { check_read = add8 s.check_read 1 } in
      if bad
      then some (if s''.check_read == 4 then record s'' { state = user } else s'')
      else some s
  if same then some (if s'.read == 3 then record s' { state = next } else s') else failed

unfoldable pub feed_in : State → Sniffer → ℕ → Option Sniffer
unfolding feed_ok feed_command feed_read_user feed_read_password feed_check
feed_in initial s b = feed_ok s b
feed_in user s b = feed_command user_text read_user s b
feed_in read_user s b = feed_read_user s b
feed_in check_user s b = feed_check password s b
feed_in password s b = feed_command pass_text read_password s b
feed_in read_password s b = feed_read_password s b
feed_in check_password s b = feed_check ok s b
feed_in ok s b = some s
feed_in err s b = some s

unfoldable pub pop3_sniffer_parse : Sniffer → ℕ → Option Sniffer
unfolding feed_in
pop3_sniffer_parse s b = feed_in s.state s b

abbrev pub is_done_in : State → Bool
is_done_in ok = true
is_done_in err = true
is_done_in _ = false

abbrev pub is_parsing_in : State → Bool
is_parsing_in initial = false
is_parsing_in ok = false
is_parsing_in err = false
is_parsing_in _ = true

-- The loop of `pop3_sniffer_consume`; a round takes a byte, and the bytes at hand are the fuel.
pub consume_loop : ℕ → Sniffer → Option Sniffer
consume_loop zero s =
    if can_read s.buffer && (if is_done_in s.state then false else true) then none else some s
consume_loop (suc f) s =
    let more = read s.buffer >>= λ (b, buf).
    pop3_sniffer_parse (record s { buffer = buf }) b >>= consume_loop f in
    if can_read s.buffer && (if is_done_in s.state then false else true) then more else some s

-- `malloc(SIZEOF(a))` and `memcpy(.., a, SIZEOF(a))`: eight times `strlen(a)` bytes.
abbrev pub copied : Bytes → Option Bytes
copied a = do n ← strlen a; _ ← assert (leb (n * 8) (length a)); some (take (n * 8) a)

-- `pop3_sniffer_consume`, which puts what it found into the list; `dest` is the server's address.
unfoldable pub pop3_sniffer_consume :
    Bytes → Sniffer × ListCdt SniffInfo → Option (Sniffer × ListCdt SniffInfo)
unfolding consume_loop
pop3_sniffer_consume dest (s, l) = do
  s' ← consume_loop (s.buffer.write - s.buffer.read) s
  let found = copied s'.username >>= λ u. copied s'.passwd >>= λ p.
      some (s', insert (record { proxy_username = u; user = u; passwd = p; dest_ip = dest }) l)
  elim s'.state [ ok ↦ found | _ ↦ some (s', l) ]

-- `pop3sniff`: the bytes that do not fit into the buffer are dropped.
unfoldable pub pop3sniff :
    Config → Bytes → Bytes → Sniffer × ListCdt SniffInfo → Option (Sniffer × ListCdt SniffInfo)
pop3sniff c bs dest (s, l) =
    let s' = if is_parsing_in s.state then s else pop3_sniffer_init s in
    let kept = write_ptr s'.buffer >>= λ count.
    (let part = take count bs in
      poke s'.buffer part >>= λ b. write_adv b (pos (length part)) >>= λ b'.
      pop3_sniffer_consume dest (record s' { buffer = b' }, l)) in
    if c.disectors_enabled then kept else some (s, l)
