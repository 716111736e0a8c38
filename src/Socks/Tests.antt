-- ===== src/Socks/Tests.antt =====
-- A connection between the descriptors 0 and 1, and the theorems at it. Its buffers are of 24 bytes, with
-- the limit one behind them.
use mathlib.Core.List.{Mem}
use tp_socks5_proxy.Base.{
  ℕ, ◌+◌, ◌≤◌, ◌<◌, ◌≡◌, ◌⊎◌, inl, refl, true, false, Option, some, none, List, [], ◌∷◌, ◌++◌, ◌&&◌,
  Bytes, replicate, length, length-append, length-replicate, arith,
}
use tp_socks5_proxy.Buffer.{Buffer, pos, read_ptr, read_adv, can_read, can_write, compact}
use tp_socks5_proxy.Buffer.Holds.{Holds}
use tp_socks5_proxy.Selector.{
  Selector, Item, success, blank, selector_new, ensure_capacity, next_capacity, bits_of,
  selector_register, register_at, selector_set_interest, set_item, items_update_fdset_for_fd,
}
use tp_socks5_proxy.Selector.Items.{IsSelector, item_at}
use tp_socks5_proxy.Selector.Reach.{made, registered, Reach-IsSelector}
use tp_socks5_proxy.Config.{Config, User}
use tp_socks5_proxy.Config.Table.{Entry, Table, end, free, used, IsTable}
use tp_socks5_proxy.Socket.{op_write, op_read, offered, deliver}
use tp_socks5_proxy.Hello.{State as HelloState}
use tp_socks5_proxy.Auth.{init as init_auth}
use tp_socks5_proxy.Auth.Message.{message, credentials}
use tp_socks5_proxy.Sniffer.{Sniffer, initial}
use tp_socks5_proxy.Socks.{
  World, Socks, AddrInfo, AuthData, ClientData, copy, copying, hello, auth, auth_write,
  request_read, request_connecting, status_connecting,
}
use tp_socks5_proxy.Socks.Retry.{pending, retry_lem}
use tp_socks5_proxy.Socks.Connecting.{on_request_connecting, request_connect}
use tp_socks5_proxy.Socks.Attempts.{retries, Left, retries_lem}
use tp_socks5_proxy.Socks.Copying.{client, copy_read, interest_of}
use tp_socks5_proxy.Socks.Relay.{Awaits, copy_read_lem}
use tp_socks5_proxy.Socks.Greeting.{
  on_auth_read, on_auth_write, on_hello_write, sending, departed, auth_written, hello_written,
  after_hello, auth_success, auth_fail,
}
use tp_socks5_proxy.Socks.Closing.{finish_socks}
use tp_socks5_proxy.Socks.Admission.{auth_read_lem}
use tp_socks5_proxy.Socks.Guards.{Answered, auth_read_checks, auth_write_allows, hello_write_allows}
use tp_socks5_proxy.Socks.Release.{socks5_done_lem}

abbrev two : Selector ℕ
two = record blank { fds = none ∷ none ∷ []; fd_size = 2 }

new-two : selector_new {D = ℕ} 0 ≡ some two
unfolding selector_new ensure_capacity next_capacity bits_of
new-two = refl

abbrev item : ℕ → ℕ → Item ℕ
item fd i = record { fd = fd; interest = i; data_of = 7 }

abbrev one : Selector ℕ
one = items_update_fdset_for_fd (record two { fds = some (item 0 1) ∷ none ∷ [] }) 0 1

register-two : selector_register two 0 1 7 ≡ some (success, one)
unfolding selector_register register_at set_item
register-two = refl

abbrev both : Selector ℕ
both =
    items_update_fdset_for_fd
      (record one { fds = some (item 0 1) ∷ some (item 1 4) ∷ []; max_fd = 1 }) 1 4

register-one : selector_register one 1 4 7 ≡ some (success, both)
unfolding selector_register register_at set_item items_update_fdset_for_fd
register-one = refl

both-IsSelector : IsSelector both
both-IsSelector =
    Reach-IsSelector
      (registered 1 4 7 (registered 0 1 7 (made 0 (omega arith) new-two) register-two) register-one)

-- The selector with another interest of the client.
abbrev set_to : ℕ → Selector ℕ
set_to i =
    items_update_fdset_for_fd (record both { fds = some (item 0 i) ∷ some (item 1 4) ∷ [] }) 0 i

set-write : selector_set_interest both 0 op_write ≡ some (success, set_to op_write)
unfolding selector_set_interest set_item items_update_fdset_for_fd
set-write = refl

abbrev holding : Bytes → ℕ → Buffer
holding q n = record { mem = q ++ replicate n 0; limit = 25; read = 0; write = length q }

held : (q : Bytes) (n : ℕ) → length q + n ≡ 24 → Holds (holding q n) q
held q n l = record {
  pre = [];
  post = replicate n 0;
  layout = refl;
  read_at = refl;
  write_at = omega arith;
  within = omega arith;
  storage = omega (arith, length-append q (replicate n 0), length-replicate {A = ℕ} n 0);
}

abbrev empty : User
empty = record { name = replicate 10 0; pass = replicate 10 0 }

-- One user, "a" with "b".
abbrev conf : Config
conf = record {
  disectors_enabled = true;
  auth_enabled = true;
  socks_buffer_size = 24;
  mng_token = [];
  users = record { name = 97 ∷ replicate 9 0; pass = 98 ∷ replicate 9 0 } ∷ replicate 9 empty;
  users_size = 1;
}

abbrev entries : List Entry
entries = (97 ∷ [], 98 ∷ []) ∷ []

conf-IsTable : IsTable conf entries
conf-IsTable = record {
  table =
      used (record { post = replicate 8 0; layout = refl; text = (omega arith, tt); size = refl })
        (record { post = replicate 8 0; layout = refl; text = (omega arith, tt); size = refl })
        (unused (unused (unused (unused (unused (unused (unused (unused (unused end)))))))));
  size = refl;
  array = refl;
}
  where
    unused : {us : List User} → Table us [] → Table (empty ∷ us) []
    unused = free (refl, refl)

abbrev sniffer : Sniffer
sniffer = record {
  state = initial;
  username = [];
  passwd = [];
  read = 0;
  remaining = 0;
  check_read = 0;
  check_remaining = 0;
  buffer = holding [] 24;
}

abbrev socks : ClientData → Option ℕ → Bytes → ℕ → Socks
socks c fd q n = record {
  client_fd = 0;
  server_resolution = [];
  current_server_resolution = [];
  final_server_addr = [];
  server_domain = 0;
  final_server_fd = fd;
  client_data = c;
  server_copy = record { reads = true; writes = true };
  read_buffer = holding [] 24;
  write_buffer = holding q n;
  status = status_connecting;
  user = replicate 255 0;
  to_free = 0;
  freed = false;
  sniffer = sniffer;
}

abbrev world : Socks → Bytes → World ℕ
world s bs = record {
  socks = s;
  self = 7;
  fd = 0;
  selector = both;
  config = conf;
  metrics = record {
    sent_byte = 0;
    received_bytes = 0;
    historic_connections = pos 0;
    current_connections = pos 1;
    connecting_clients = pos 1;
  };
  sniffed = record { first = []; iterador_next = []; size = 0 };
  received = some bs;
  sent = some 2;
  attempts = [];
  sock_error = none;
}

abbrev asking : World ℕ
asking =
    world (socks (auth (record { parser = init_auth; status = none })) none [] 24)
      (message (97 ∷ []) (99 ∷ []) ++ [])

room : (n : ℕ) → n ≤ 24 → (0 + n ≤ 25) × (0 + n ≤ 24)
room n l = (omega arith, omega arith)

auth_read_lem_example :
    (w' : World ℕ) × (st : ℕ) × (on_auth_read asking ≡ some (auth_write, w'))
    × (w'.socks.client_data
        ≡ auth (record { parser = credentials (97 ∷ []) (99 ∷ []); status = some st }))
    × Holds w'.socks.write_buffer (0x01 ∷ st ∷ [])
    × (((st ≡ auth_success) × Mem (97 ∷ [], 99 ∷ []) entries)
        ⊎ ((st ≡ auth_fail) × ¬ Mem (97 ∷ [], 99 ∷ []) entries))
auth_read_lem_example =
    auth_read_lem asking entries (97 ∷ []) (99 ∷ []) [] {s = set_to op_write} refl refl
      (held [] 24 (omega arith)) (room 5 (omega arith)) (λ e. cc) (λ e. cc) (omega arith, tt)
      (omega arith, tt) (omega arith) (omega arith) refl conf-IsTable set-write
      (held [] 24 (omega arith)) (room 2 (omega arith))

auth_read_checks_example : (w' : World ℕ) × Answered asking w'
auth_read_checks_example =
    let (w', st, e, _, _, _) =
      auth_read_lem asking entries (97 ∷ []) (99 ∷ []) [] {s = set_to op_write} refl refl
        (held [] 24 (omega arith)) (room 5 (omega arith)) (λ e. cc) (λ e. cc) (omega arith, tt)
        (omega arith, tt) (omega arith) (omega arith) refl conf-IsTable set-write
        (held [] 24 (omega arith)) (room 2 (omega arith)) in
    (w', auth_read_checks asking e)

-- A client whose name and password are known, and the answer to it on its way.
abbrev known : AuthData
known = record { parser = init_auth; status = some auth_success }

abbrev answering : World ℕ
answering = world (socks (auth known) none (0x01 ∷ 0x00 ∷ []) 22) []

abbrev answered : World ℕ
answered = record answering {
  socks = record answering.socks {
    write_buffer = record (holding (0x01 ∷ 0x00 ∷ []) 22) { read = 0; write = 0 };
  };
  selector = set_to op_read;
}

answering-sent : on_auth_write answering ≡ some (request_read, answered)
unfolding on_auth_write sending departed auth_written offered deliver read_ptr read_adv can_read
    compact selector_set_interest set_item items_update_fdset_for_fd
answering-sent = refl

auth_write_allows_example : (a : AuthData) × (auth known ≡ auth a) × (a.status ≡ some auth_success)
auth_write_allows_example = auth_write_allows answering answering-sent

abbrev greeting : World ℕ
greeting =
    record (world
      (socks
        (hello
          (record { on_auth_method = none; data_of = 0; state = HelloState.done; remaining = 0 }))
        none (0x05 ∷ 0x00 ∷ []) 22)
      []) { config = record conf { auth_enabled = false } }

abbrev greeted : World ℕ
greeted = record greeting {
  socks = record greeting.socks {
    write_buffer = record (holding (0x05 ∷ 0x00 ∷ []) 22) { read = 0; write = 0 };
  };
  selector = set_to op_read;
}

greeting-sent : on_hello_write greeting ≡ some (request_read, greeted)
unfolding on_hello_write sending departed hello_written after_hello offered deliver read_ptr
    read_adv can_read compact selector_set_interest set_item items_update_fdset_for_fd
greeting-sent = refl

hello_write_allows_example : greeting.config.auth_enabled ≡ false
hello_write_allows_example = hello_write_allows greeting greeting-sent

abbrev ending : World ℕ
ending = world (socks (auth known) (some 1) [] 24) []

at-both : (item_at both.fds 0 ≡ some (item 0 1)) × (item_at both.fds 1 ≡ some (item 1 4))
unfolding items_update_fdset_for_fd
at-both = (refl, refl)

socks5_done_lem_example :
    (w' : World ℕ) × (finish_socks ending ≡ some w')
    × (w'.socks.freed ≡ true)
    × IsSelector w'.selector
    × (item_at w'.selector.fds 0 ≡ none)
    × (item_at w'.selector.fds 1 ≡ none)
socks5_done_lem_example =
    socks5_done_lem ending 1 both-IsSelector refl (λ e. omega arith) (omega arith) (omega arith)
      (item 0 1, at-both.0) (item 1 4, at-both.1) refl refl

-- A name with two addresses, the first of which is about to be tried.
abbrev address : ℕ → AddrInfo
address n = record { ai_family = 2; ai_addr = n ∷ [] }

abbrev resolved : Socks
resolved = record (socks (auth known) none [] 24) {
  server_resolution = address 1 ∷ address 2 ∷ [];
  current_server_resolution = address 1 ∷ address 2 ∷ [];
  final_server_addr = 1 ∷ [];
}

-- The connection of the first of them failed, and the system gives the number of its descriptor again.
abbrev refused : World ℕ
refused = record (world (record resolved { final_server_fd = some 1 }) []) {
  fd = 1;
  attempts = pending 1 ∷ [];
  sock_error = some 111;
}

both-size : both.fd_size ≡ 2
unfolding items_update_fdset_for_fd
both-size = refl

retry_lem_example :
    (w' : World ℕ) × (on_request_connecting refused ≡ some (request_connecting, w'))
    × (w'.socks.freed ≡ false)
    × (finish_socks w' ≡ none)
    × (request_connect (record w' { attempts = pending 1 ∷ [] }) ≡ none)
retry_lem_example =
    retry_lem refused 110 1 1 (address 1) (address 1) (address 2) (address 2 ∷ []) [] [] []
      (pending 1) refl refl refl refl both-IsSelector (omega arith) (omega arith) (omega arith)
      (λ e. omega arith) (λ e. omega arith) (λ e. omega (arith, both-size)) (item 0 1, at-both.0)
      (item 1 4, at-both.1) (inl refl) refl refl refl

retries_lem_example :
    ((1 ≤ 1) × Left (address 1) (address 1 ∷ address 2 ∷ []) 1 resolved)
    ⊎ ((1 < 1) × (retries 1 resolved ≡ none))
retries_lem_example =
    retries_lem 1 resolved (address 1) (address 1) (address 2 ∷ []) (address 2 ∷ []) refl refl refl

-- The client sends "hi" while nothing waits.
abbrev relaying : World ℕ
relaying =
    (let w =
        world (socks (copy (record { reads = true; writes = true })) (some 1) [] 24)
          (104 ∷ 105 ∷ []) in
      record w { config = record conf { disectors_enabled = false } })

copy_read_lem_example :
    (w' : World ℕ) × (copy_read (λ a. a) relaying ≡ some (copying, w'))
    × Holds w'.socks.read_buffer (104 ∷ 105 ∷ [])
    × (w'.socks.write_buffer ≡ relaying.socks.write_buffer)
    × (w'.metrics.sent_byte ≡ 2)
    × IsSelector w'.selector
    × Awaits w' w'.selector client 0 (item 0 1) (record { reads = true; writes = true })
    × (item_at w'.selector.fds 1
        ≡ some (record (item 1 4) {
          interest = interest_of (true && can_write relaying.socks.write_buffer) true;
        }))
copy_read_lem_example =
    copy_read_lem (λ a. a) relaying 104 (105 ∷ []) [] 1 (item 0 1) (item 1 4)
      (record { reads = true; writes = true }) refl refl (λ e. omega arith) refl refl
      (held [] 24 (omega arith)) (room 2 (omega arith)) refl both-IsSelector
      (record { small = omega arith; here = at-both.0 })
      (record { small = omega arith; here = at-both.1 })
