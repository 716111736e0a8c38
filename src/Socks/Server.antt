-- ===== src/Socks/Server.antt =====
-- src/socks5.c: the table of the states, a new connection, and the handlers that the selector calls.
use tp_socks5_proxy.Base.{
  ℕ, ◌+◌, Bool, false, ◌||◌, Option, none, some, List, [], ◌∷◌, Bytes, if◌then◌else◌, ◌>>=◌, ◌==◌,
  ltb,
}
use tp_socks5_proxy.Buffer.{ℤ, pos, negsuc, init}
use tp_socks5_proxy.Request.{Requests}
use tp_socks5_proxy.Selector.{Selector, selector_register}
use tp_socks5_proxy.Metrics.{Metrics, add_connecting_clients}
use tp_socks5_proxy.Sniffer.{Sniffer}
use tp_socks5_proxy.Stm.{
  Event, read_ready, write_ready, block_ready, Definition, Machine, stm_handler,
}
use tp_socks5_proxy.Socket.{op_read, is_success}
use tp_socks5_proxy.Socks.{
  World, Socks, ClientData, CopyData, hello_read, hello_write, auth_read, auth_write, request_read,
  request_resolv, request_connecting, request_write, copying, socks_done, socks_error,
  status_connecting,
}
use tp_socks5_proxy.Socks.Greeting.{
  hello_read_init, on_hello_read, on_hello_write, auth_read_init, on_auth_read, on_auth_write,
}
use tp_socks5_proxy.Socks.Closing.{finish_socks}
use tp_socks5_proxy.Socks.Connecting.{
  request_init, on_request_read, request_resolv_done, on_request_connecting, on_request_write,
}
use tp_socks5_proxy.Socks.Copying.{copy_init, copy_read, copy_write}

module _ {D : Type 0} where
  abbrev pub on :
      Option (World D → Option (ℕ × World D))
      → Option (World D → Option (ℕ × World D))
      → Option (World D → Option (ℕ × World D))
      → Event
      → Option (World D → Option (ℕ × World D))
  on r w b read_ready = r
  on r w b write_ready = w
  on r w b block_ready = b

  abbrev pub state :
      ℕ
      → Option (ℕ → World D → Option (World D))
      → (Event → Option (World D → Option (ℕ × World D)))
      → Definition (World D)
  state n arrival f = record { state = n; on_arrival = arrival; on_departure = none; on_ready = f }

  module _ (ip_to_str : Bytes → Bytes) (junk : Requests) where
    -- `socks_state_definition`.
    unfoldable pub socks_state_definition : List (Definition (World D))
    socks_state_definition =
        state hello_read (some hello_read_init) (on (some on_hello_read) none none)
        ∷ state hello_write none (on none (some on_hello_write) none)
        ∷ state auth_read (some auth_read_init) (on (some on_auth_read) none none)
        ∷ state auth_write none (on none (some on_auth_write) none)
        ∷ state request_read (some (request_init junk)) (on (some on_request_read) none none)
        ∷ state request_resolv none (on none none (some request_resolv_done))
        ∷ state request_connecting (some (λ n w. some w))
            (on none (some on_request_connecting) none)
        ∷ state request_write none (on none (some on_request_write) none)
        ∷ state copying (some copy_init)
            (on (some (copy_read ip_to_str)) (some (copy_write ip_to_str)) none)
        ∷ state socks_done none (on none none none)
        ∷ state socks_error none (on none none none)
        ∷ []

    abbrev pub socks_machine : Machine (World D)
    socks_machine = record {
      initial = hello_read;
      states = socks_state_definition;
      max_state = socks_error;
      current = some 0;
    }

    -- `socks5_read`, `socks5_write` and `socks5_block`.
    unfoldable pub socks5_event :
        Event → Machine (World D) → World D → Option (Machine (World D) × World D)
    socks5_event e m w = do
      (st, m', w') ← stm_handler e m w
      w'' ← (if (socks_error == st) || (socks_done == st) then finish_socks w' else some w')
      some (m', w'')

-- The memory that `malloc` gives for a connection and its two buffers.
pub record Memory : Type 0 where
  pub client_data : ClientData
  pub server_copy : CopyData
  pub user : Bytes
  pub sniffer : Sniffer
  pub raw_buff_a : Bytes
  pub raw_buff_b : Bytes

-- `socks5_new`, for the buffer size of the settings; the status is the one that `socks5_passive_accept`
-- sets.
unfoldable pub socks5_new : ℕ → Memory → ℕ → Socks
socks5_new size m client = record {
  client_fd = client;
  server_resolution = [];
  current_server_resolution = [];
  final_server_addr = [];
  server_domain = 0;
  final_server_fd = none;
  client_data = m.client_data;
  server_copy = m.server_copy;
  read_buffer = init (size + 1) m.raw_buff_b;
  write_buffer = init (size + 1) m.raw_buff_a;
  status = status_connecting;
  user = m.user;
  to_free = 0;
  freed = false;
  sniffer = m.sniffer;
}

-- `MAX_CONNECTIONS-1 < n`.
abbrev pub is_crowded : ℤ → Bool
is_crowded (pos n) = ltb 507 n
is_crowded (negsuc n) = false

-- `socks5_passive_accept`: `accept` and `selector_fd_set_nio` are the operating system's, `attached` is
-- what `socks5_new` made. With it: whether the client stays.
unfoldable pub socks5_passive_accept :
    {D : Type 0} → Option ℕ → Bool → D → Selector D → Metrics → Option (Bool × Selector D × Metrics)
socks5_passive_accept none nio attached s m = some (false, s, m)
socks5_passive_accept (some client) nio attached s m =
    if is_crowded m.current_connections
    then some (false, s, m)
    else if nio
    then (selector_register s client op_read attached >>= λ (status, s').
        some (is_success status, s', add_connecting_clients m))
    else some (false, s, add_connecting_clients m)
