-- ===== src/Socks/Connecting.antt =====
-- src/socks5_request.c: the client's request, the resolution of a name, and the connection to the server.
use tp_socks5_proxy.Base.{
  ℕ, zero, suc, Bool, true, false, ◌&&◌, Option, none, some, List, [], ◌∷◌, ◌++◌, Bytes,
  if◌then◌else◌, ◌>>=◌, ◌==◌, take, drop, not, assert,
}
use tp_socks5_proxy.Buffer.{write_ptr}
use tp_socks5_proxy.Selector.{selector_register, selector_set_interest}
use tp_socks5_proxy.Metrics.{add_connection}
use tp_socks5_proxy.Socket.{
  Received, op_noop, op_read, op_write, receive, raised, is_success, is_negative,
}
use tp_socks5_proxy.Request.{
  Requests, Request, init as init_request, is_done as is_done_request, request_consume,
  addrtype_ipv4, addrtype_ipv6, addrtype_domain, af_inet, af_inet6, sizeof_sockaddr_in,
  sizeof_sockaddr_in6,
}
use tp_socks5_proxy.Request.Answer.{errno_to_socks, marshall as request_marshall}
use tp_socks5_proxy.Socks.{
  World, Socks, AddrInfo, Attempt, connected, in_progress, failed, request, with_client, with_socks,
  with_read_buffer, with_write_buffer, with_status, as_request, ending, request_read,
  request_resolv, request_connecting, request_write, copying, socks_done, socks_error,
  status_succeeded, status_general, status_command, status_address_type,
}
use tp_socks5_proxy.Socks.Greeting.{sending}
use tp_socks5_proxy.Socks.Closing.{unregister_open}

-- `next_ip`: whether there is another address. What is copied is the head of `server_resolution`.
unfoldable pub next_of : List AddrInfo → List AddrInfo → Socks → Option Socks
next_of (first ∷ _) (_ ∷ a ∷ more) s = some (record s {
  current_server_resolution = a ∷ more;
  server_domain = first.ai_family;
  final_server_addr = first.ai_addr;
})
next_of _ _ s = none

unfoldable pub next_ip : Socks → Option Socks
unfolding next_of
next_ip s = next_of s.server_resolution s.current_server_resolution s

-- A descriptor that is open.
abbrev pub is_open : Option ℕ → Bool
is_open none = false
is_open (some fd) = true

-- `sockaddr_in` and `sockaddr_in6`: the family and the port, and what the request holds behind them.
abbrev pub sockaddr : Bytes → ℕ → Request → Bytes
sockaddr family size r = family ++ (r.dst_port ++ drop 4 (take size r.dst_addr))

module _ {D : Type 0} where
  -- The hook `request_init`; what the union held of the parser's counters is `junk`.
  unfoldable pub request_init : Requests → ℕ → World D → Option (World D)
  request_init junk state w = some (with_client (request (init_request junk)) w)

  -- The answer of `request_connect` that no address is left.
  unfoldable pub give_up : World D → Option (ℕ × World D)
  give_up w = do
    r ← as_request w.socks.client_data
    (n, b) ← request_marshall w.socks.write_buffer w.socks.status r.request
    let w' : World D = with_write_buffer b w
    (status, s) ← selector_set_interest w'.selector w'.socks.client_fd op_write
    some (
      if is_success status then ending (is_negative n) request_write else socks_error,
      record w' { selector = s },
    )

  -- `EINPROGRESS`: the new descriptor waits for the connection, and the client for the descriptor.
  unfoldable pub wait_for : ℕ → World D → Option (ℕ × World D)
  wait_for fd w = selector_register w.selector fd op_write w.self >>= λ (status, s).
      (let w' : World D = record w { selector = s } in
        let paused = selector_set_interest s w.socks.client_fd op_noop >>= λ (status', s'). some (
          if is_success status' then request_connecting else socks_error,
          record w' { selector = s' },
        ) in
        if is_success status then paused else some (socks_error, w'))

  -- `request_connect`, with what the system gives each of its calls. A connection that is made at once is
  -- an error too. A connection whose memory was freed with the old descriptor is not gone on with.
  unfoldable pub connect_loop : List Attempt → World D → Option (ℕ × World D)
  unfolding give_up wait_for next_ip
  connect_loop [] w = none
  connect_loop (a ∷ rest) w = do
    w₁ ← unregister_open w.socks.final_server_fd w
    _ ← assert (not w₁.socks.freed)
    let w₂ : World D = record w₁ {
      socks = record w₁.socks { final_server_fd = a.socket };
      attempts = rest;
    }
    let again : ℕ → Option (ℕ × World D) = λ e.
        (let w₃ : World D = with_status (errno_to_socks e) w₂ in
          elim (next_ip w₃.socks) [
            | none ↦ give_up w₃
            | some s ↦ connect_loop rest (with_socks s w₃)
          ])
    let tried : ℕ → Option (ℕ × World D) = λ fd. elim a.outcome [
      | connected ↦ some (socks_error, w₂)
      | in_progress ↦ wait_for fd w₂
      | failed e ↦ again e
    ]
    elim a.socket [
      | none ↦ some (socks_error, w₂)
      | some fd ↦ if a.nio then tried fd else some (socks_error, w₂)
    ]

  unfoldable pub request_connect : World D → Option (ℕ × World D)
  unfolding connect_loop
  request_connect w = connect_loop w.attempts w

  -- An answer that the request is not served: the result of the selector is not looked at, and nothing is
  -- written into the buffer.
  abbrev pub refuse : ℕ → World D → Option (ℕ × World D)
  refuse status w = do
    (_, s) ← selector_set_interest w.selector w.fd op_write
    some (request_write, record (with_status status w) { selector = s })

  -- `request_process`; the thread that resolves the name is taken to start.
  unfoldable pub request_process : Request → World D → Option (ℕ × World D)
  unfolding request_connect
  request_process r w =
      let towards = λ (addr : Bytes).
        request_connect (with_socks (record w.socks { final_server_addr = addr }) w) in
      let resolving = selector_set_interest w.selector w.fd op_noop >>= λ (_, s).
      some (request_resolv, record w { selector = s }) in
      if r.cmd == 0x01
      then (if r.dst_addr_type == addrtype_ipv4
          then towards (sockaddr af_inet sizeof_sockaddr_in r)
          else if r.dst_addr_type == addrtype_ipv6
          then towards (sockaddr af_inet6 sizeof_sockaddr_in6 r)
          else if r.dst_addr_type == addrtype_domain
          then resolving
          else refuse status_address_type w)
      else refuse status_command w

  -- `request_read` with its parser run.
  unfoldable pub request_parsed : Requests → Option Bool → World D → Option (ℕ × World D)
  unfolding request_process
  request_parsed p e w =
      let w' : World D = with_client (request p) w in
      let (done, e') = is_done_request p.state e in
      let processed =
        request_process p.request w' >>= λ (ret, w''). some (ending (raised e') ret, w'') in
      if done then processed else some (ending (raised e') request_read, w')

  unfoldable pub request_arrived : Received → World D → Option (ℕ × World D)
  unfolding request_parsed
  request_arrived none w = some (socks_error, w)
  request_arrived (some bs) w = do
    b ← receive w.socks.read_buffer bs
    r ← as_request w.socks.client_data
    (p, e, b') ← request_consume b r (some false)
    request_parsed p e (with_read_buffer b' w)

  -- The function `request_read`.
  unfoldable pub on_request_read : World D → Option (ℕ × World D)
  unfolding request_arrived
  on_request_read w = write_ptr w.socks.read_buffer >>= λ _. request_arrived w.received w

  -- `request_resolv_done`: without an address it goes on with the one that is there.
  unfoldable pub request_resolv_done : World D → Option (ℕ × World D)
  unfolding request_connect
  request_resolv_done w = elim w.socks.server_resolution [
    | [] ↦ request_connect (with_status status_general w)
    | first ∷ _ ↦ request_connect (
        with_socks
          (record w.socks { server_domain = first.ai_family; final_server_addr = first.ai_addr }) w)
  ]

  -- What `request_connecting` does with the answer; a buffer without room for it ends the program.
  unfoldable pub answer_client : World D → Option (ℕ × World D)
  answer_client w = do
    r ← as_request w.socks.client_data
    (n, b) ← request_marshall w.socks.write_buffer w.socks.status r.request
    let w' : World D = with_write_buffer b w
    let sent = selector_set_interest w'.selector w'.socks.client_fd op_write >>= λ (status, s).
        selector_set_interest s w'.fd op_noop >>= λ (status', s'). some (
          if is_success status && is_success status' then request_write else socks_error,
          record w' { selector = s' },
        )
    if is_negative n then none else sent

  -- `request_connecting` for what `getsockopt` gives.
  unfoldable pub connecting_on : Option ℕ → World D → Option (ℕ × World D)
  unfolding answer_client request_connect next_ip
  connecting_on none w = answer_client (with_status status_general w)
  connecting_on (some zero) w = answer_client (record w {
    socks = record w.socks { status = status_succeeded; final_server_fd = some (w.fd) };
    metrics = add_connection w.metrics;
  })
  connecting_on (some (suc n)) w =
      let w' : World D = with_status (errno_to_socks (suc n)) w in
      elim (next_ip w'.socks) [
        | none ↦ answer_client w'
        | some s ↦ request_connect (with_socks s w')
      ]

  -- The handler `request_connecting`, of the server's descriptor.
  unfoldable pub on_request_connecting : World D → Option (ℕ × World D)
  unfolding connecting_on
  on_request_connecting w = connecting_on w.sock_error w

  -- `selector_set_interest` of a descriptor, whose result is not looked at; -1 is not one of the selector.
  abbrev pub set_any : Option ℕ → ℕ → World D → Option (World D)
  set_any none interest w = some w
  set_any (some fd) interest w =
      selector_set_interest w.selector fd interest >>= λ (_, s). some (record w { selector = s })

  unfoldable pub request_written : World D → Option (ℕ × World D)
  request_written w =
      let served = set_any (some (w.socks.client_fd)) op_read w >>= λ w₁.
      set_any w.socks.final_server_fd op_read w₁ >>= λ w₂. some (copying, w₂) in
      let refused = set_any (some (w.socks.client_fd)) op_noop w >>= λ w₁.
      (let again = set_any (some (w.socks.client_fd)) op_noop w₁ in
        if is_open w.socks.final_server_fd then again else some w₁)
      >>= λ w₂. some (socks_done, w₂) in
      if w.socks.status == status_succeeded then served else refused

  -- The function `request_write`.
  unfoldable pub on_request_write : World D → Option (ℕ × World D)
  unfolding request_written
  on_request_write w = sending request_write request_written w
