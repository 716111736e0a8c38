-- ===== src/Mng/Tests.antt =====
-- The theorems at a small management connection.
use tp_socks5_proxy.Base.{
  ℕ, ◌+◌, ◌≡◌, ◌≢◌, ◌⊎◌, inr, refl, true, false, some, none, [], ◌∷◌, ◌++◌, Bytes, replicate,
  length, length-replicate, ◌≤◌, arith,
}
use tp_socks5_proxy.Buffer.{pos, reset, init}
use tp_socks5_proxy.Buffer.Holds.{Holds}
use tp_socks5_proxy.Config.{
  Config, is_string, check_user, get_user_loop, edit_at, set_user, edit_user,
}
use tp_socks5_proxy.Config.Table.{IsTable, same_string}
use tp_socks5_proxy.Socket.{op_write}
use tp_socks5_proxy.Stm.{read_ready, write_ready}
use tp_socks5_proxy.Admin.Reply.{Blank, Answered}
use tp_socks5_proxy.Admin.Connect.{init as init_connect}
use tp_socks5_proxy.Admin.Put.{init as init_put}
use tp_socks5_proxy.Admin.Put.Message.{no_name}
use tp_socks5_proxy.Admin.Edit.{init as init_edit}
use tp_socks5_proxy.Admin.Delete.{init as init_delete}
use tp_socks5_proxy.Mng.{
  Parsers, Mng, World, connect_write, request, request_put, replies, mng_error,
}
use tp_socks5_proxy.Mng.Requests.{connect_handler, edit_handler, put_handler}
use tp_socks5_proxy.Mng.Handlers.{handle}
use tp_socks5_proxy.Mng.Server.{
  mng_event, mng_new, mng_machine, mng_state_definition, mng_buffer_size,
}
use tp_socks5_proxy.Mng.Session.{standing, put_rest, session_put}
use tp_socks5_proxy.Mng.Token.{connect_lem, connect_message, connect_checked}
use tp_socks5_proxy.Mng.Messages.{Ends, request_edit_lem}
use tp_socks5_proxy.Mng.Replies.{request_put_refuses}
use tp_socks5_proxy.Mng.Overrun.{session_put_overrun}
use tp_socks5_proxy.Stm.{stm_init, in_order}
use tp_socks5_proxy.Mng.Sample.{
  connect, get, put, delete, edit, as_connect, views, holding, set_to, empty, conf, entries, world,
  sel-set, conf-IsTable, blank, held,
}

abbrev bob : Bytes
bob = b'b' ∷ b'o' ∷ b'b' ∷ []

abbrev word : Bytes
word = b'x' ∷ b'y' ∷ []

abbrev idle : World ℕ
idle = world (Parsers.get get) [] 24 (0x01 ∷ [])

reset-blank : Blank (reset (holding [] 24))
unfolding reset
reset-blank = blank

session_put_example :
    (w₁ : World ℕ) × (w₂ : World ℕ) × (mng_event read_ready (standing views request) idle
      ≡ some (standing views request_put, w₁))
    × (mng_event read_ready
          (standing views request_put)
          (record w₁ { received = some (put_rest bob word ++ []) })
        ≡ some (standing views replies, w₂))
    × IsTable w₂.config (entries ++ ((bob, word) ∷ []))
    × (check_user w₂.config bob word ≡ some true)
    × Answered (reset (holding [] 24)) 0x00 w₂.mng.write_buffer
session_put_example =
    session_put views idle entries bob word [] {s = set_to op_write}
      (refl, omega arith, reset-blank) refl sel-set conf-IsTable (λ e. cc) (λ e. cc)
      (omega arith, (omega arith, (omega arith, tt))) (omega arith, (omega arith, tt)) (omega arith)
      (omega arith) (omega arith) (omega arith)

abbrev guess : World ℕ
guess = world (Parsers.connect (init_connect connect)) [] 24 (0x00 ∷ 2 ∷ word ++ [])

room : (n : ℕ) → n ≤ 24 → (0 + n ≤ 25) × (0 + n ≤ 24)
room n l = (omega arith, omega arith)

connect_lem_example :
    (w' : World ℕ) × (handle (connect_handler views) guess ≡ some (connect_write, w'))
    × (w'.config ≡ conf)
    × (((word ≡ 116 ∷ []) × (w'.mng.is_open ≡ true) × Holds w'.mng.write_buffer (0x00 ∷ []))
        ⊎ ((word ≢ 116 ∷ []) × (w'.mng.is_open ≡ false) × Holds w'.mng.write_buffer (0x04 ∷ [])))
connect_lem_example =
    connect_lem views guess connect word [] refl
      (record { got = refl; held = held [] 24 (omega arith); room = room 4 (omega arith) })
      (λ e. cc) (omega arith, (omega arith, tt)) (omega arith, tt) (omega arith) sel-set
      (held [] 24 (omega arith)) (room 1 (omega arith))

abbrev removal : World ℕ
removal =
    world (Parsers.delete (init_delete delete)) (0x05 ∷ []) 23 (0x00 ∷ 1 ∷ (97 ∷ []) ++ (9 ∷ []))

room₁ : (n : ℕ) → n ≤ 23 → (1 + n ≤ 25) × (1 + n ≤ 24)
room₁ n l = (omega arith, omega arith)

abbrev right : World ℕ
right = world (Parsers.connect (init_connect connect)) [] 24 (0x00 ∷ 1 ∷ (116 ∷ []) ++ [])

connect_checked_example :
    (w' : World ℕ) × (w'.config ≡ conf)
    × (is_string (as_connect w'.mng.parsers).passwd (116 ∷ []) ≡ some true)
connect_checked_example =
    let (w', e, stays, _, _) =
      connect_message views right {s = set_to op_write} connect (116 ∷ []) (116 ∷ []) [] true refl
        (record { got = refl; held = held [] 24 (omega arith); room = room 3 (omega arith) })
        (λ e. cc) (omega arith) (same_string (116 ∷ []) _ (omega arith, tt)) sel-set
        (held [] 24 (omega arith)) (room 1 (omega arith)) in
    let (same, asked) = connect_checked views right e stays in (w', same, asked)

abbrev changing : World ℕ
changing =
    world (Parsers.edit (init_edit edit)) (0x02 ∷ []) 23
      (0x00 ∷ 1 ∷ ((97 ∷ []) ++ (1 ∷ 2 ∷ word)) ++ [])

-- The table with another password.
abbrev changed : Config
changed = record conf {
  users = record { name = 97 ∷ replicate 9 0; pass = word ++ replicate 8 0 } ∷ replicate 9 empty;
}

edited : edit_user conf (97 ∷ []) word 1 ≡ some (pos 0, changed)
unfolding edit_user edit_at get_user_loop set_user is_string
edited = refl

request_edit_lem_example :
    Ends views changing {s = set_to op_write} sel-set blank
      (handle (edit_handler views) changing)
      changed
      0x00
      []
request_edit_lem_example =
    request_edit_lem views changing {s = set_to op_write} sel-set blank edit (97 ∷ []) 1 word []
      refl
      (record {
        got = refl;
        held = held (0x02 ∷ []) 23 (omega arith);
        room = room₁ 7 (omega arith);
      })
      (inr refl) (λ e. cc) (λ e. cc) (omega arith, tt) (omega arith, (omega arith, tt)) (refl, refl)
      (omega arith) (omega arith) edited

abbrev nameless : World ℕ
nameless = world (Parsers.put (init_put put)) (0x01 ∷ []) 23 (0x00 ∷ 0 ∷ [])

request_put_refuses_example :
    (w' : World ℕ) × (handle (put_handler views) nameless ≡ some (mng_error, w'))
    × (w'.config ≡ conf)
    × Answered (holding [] 24) 0x03 w'.mng.write_buffer
request_put_refuses_example =
    request_put_refuses nameless views put 0x00 (0 ∷ []) [] refl no_name
      (record {
        got = refl;
        held = held (0x01 ∷ []) 23 (omega arith);
        room = room₁ 2 (omega arith);
      })
      {s = set_to op_write} sel-set blank

-- A new connection, with arrays of zeros.
abbrev zeros : Bytes
zeros = replicate mng_buffer_size 0

zeros-length : length zeros ≡ mng_buffer_size
zeros-length = length-replicate {A = ℕ} mng_buffer_size 0

abbrev fresh : Mng
fresh = record {
  client_fd = 1;
  parsers = Parsers.get get;
  read_buffer = record { mem = zeros; limit = 4097; read = 0; write = 0 };
  write_buffer = record { mem = zeros; limit = 4097; read = 0; write = 0 };
  is_open = true;
}

fresh-made :
    mng_new {D = ℕ} views 1 (Parsers.get get) zeros zeros
    ≡ some (record (mng_machine views) { current = none }, fresh)
unfolding mng_new stm_init in_order mng_state_definition init reset
fresh-made = refl

abbrev waiting : World ℕ
waiting = record idle { mng = fresh }

session_put_overrun_example :
    (w₁ : World ℕ) × (w₂ : World ℕ) × (mng_event read_ready (standing views request) waiting
      ≡ some (standing views request_put, w₁))
    × (mng_event read_ready
          (standing views request_put)
          (record w₁ { received = some (put_rest bob word ++ []) })
        ≡ some (standing views replies, w₂))
    × (mng_event write_ready (standing views replies) (record w₂ { sent = some 1 }) ≡ none)
session_put_overrun_example =
    session_put_overrun views 1 (Parsers.get get) zeros zeros zeros-length zeros-length fresh-made
      waiting entries bob word [] (some 1) {s = set_to op_write} (refl, refl) (refl, refl) refl
      sel-set conf-IsTable (λ e. cc) (λ e. cc) (omega arith, (omega arith, (omega arith, tt)))
      (omega arith, (omega arith, tt)) (omega arith) (omega arith) (omega arith) (omega arith)
