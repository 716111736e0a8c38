-- ===== src/Mng/Server.antt =====
-- src/mng_handler.c: the table of the states of a management connection, a new connection, and the handlers
-- that the selector calls.
use tp_socks5_proxy.Base.{
  ℕ, ◌+◌, Bool, true, false, ◌||◌, Option, none, some, List, [], ◌∷◌, Bytes, if◌then◌else◌, ◌>>=◌,
  ◌==◌, ltb,
}
use tp_socks5_proxy.Buffer.{ℤ, pos, negsuc, init}
use tp_socks5_proxy.Selector.{Selector, selector_register, selector_unregister_fd}
use tp_socks5_proxy.Metrics.{Metrics, add_connecting_clients, end_connecting_clients}
use tp_socks5_proxy.Stm.{Event, read_ready, write_ready, Definition, Machine, stm_init, stm_handler}
use tp_socks5_proxy.Socket.{op_read, is_success}
use tp_socks5_proxy.Admin.Connect.{init as init_connect}
use tp_socks5_proxy.Admin.Get.{init as init_get}
use tp_socks5_proxy.Admin.Put.{init as init_put}
use tp_socks5_proxy.Admin.Edit.{init as init_edit}
use tp_socks5_proxy.Admin.Delete.{init as init_delete}
use tp_socks5_proxy.Admin.ConfigBuff.{init as init_configbuff}
use tp_socks5_proxy.Admin.ConfigStatus.{init as init_configstatus}
use tp_socks5_proxy.Mng.{
  Parsers, Views, Mng, World, with_parsers, connect_read, connect_write, request, request_get,
  request_put, request_edit, request_buffsize, request_configstatus, request_delete, replies,
  mng_done, mng_error,
}
use tp_socks5_proxy.Mng.Handlers.{handle, mng_connect_write, mng_request, mng_replies}
use tp_socks5_proxy.Mng.Requests.{
  Handler, connect_handler, get_handler, put_handler, edit_handler, delete_handler,
  buffsize_handler, configstatus_handler,
}

-- `MNG_BUFFER_SIZE`.
abbrev pub mng_buffer_size : ℕ
mng_buffer_size = 4096

module _ {D : Type 0} where
  -- The hooks on arrival, which reset the parser of the state.
  abbrev pub arriving : (Parsers → Parsers) → ℕ → World D → Option (World D)
  arriving f state w = some (with_parsers (f w.mng.parsers) w)

  abbrev pub on_read :
      (World D → Option (ℕ × World D)) → Event → Option (World D → Option (ℕ × World D))
  on_read f read_ready = some f
  on_read f _ = none

  abbrev pub on_write :
      (World D → Option (ℕ × World D)) → Event → Option (World D → Option (ℕ × World D))
  on_write f write_ready = some f
  on_write f _ = none

  abbrev pub reading : ℕ → (Parsers → Parsers) → Handler D → Definition (World D)
  reading n f h = record {
    state = n;
    on_arrival = some (arriving f);
    on_departure = none;
    on_ready = on_read (handle h);
  }

  abbrev pub plain : ℕ → (Event → Option (World D → Option (ℕ × World D))) → Definition (World D)
  plain n f = record { state = n; on_arrival = none; on_departure = none; on_ready = f }

  -- `mng_state_definition`.
  unfoldable pub mng_state_definition : Views → List (Definition (World D))
  mng_state_definition v =
      reading connect_read (λ x. Parsers.connect (init_connect (v.as_connect x)))
        (connect_handler v)
      ∷ plain connect_write (on_write mng_connect_write)
      ∷ plain request (on_read mng_request)
      ∷ reading request_get (λ x. Parsers.get (init_get (v.as_get x))) (get_handler v)
      ∷ reading request_put (λ x. Parsers.put (init_put (v.as_put x))) (put_handler v)
      ∷ reading request_edit (λ x. Parsers.edit (init_edit (v.as_edit x))) (edit_handler v)
      ∷ reading request_buffsize (λ x. Parsers.buff_size (init_configbuff (v.as_buff_size x)))
          (buffsize_handler v)
      ∷ reading request_configstatus
          (λ x. Parsers.conf_status (init_configstatus (v.as_conf_status x)))
          (configstatus_handler v)
      ∷ reading request_delete (λ x. Parsers.delete (init_delete (v.as_delete x)))
          (delete_handler v)
      ∷ plain replies (on_write mng_replies)
      ∷ plain mng_done (λ e. none)
      ∷ plain mng_error (λ e. none)
      ∷ []

  abbrev pub mng_machine : Views → Machine (World D)
  mng_machine v = record {
    initial = connect_read;
    states = mng_state_definition v;
    max_state = mng_error;
    current = some 0;
  }

  -- `mng_new`, with the arrays and the union as `malloc` gives them.
  unfoldable pub mng_new : Views → ℕ → Parsers → Bytes → Bytes → Option (Machine (World D) × Mng)
  mng_new v client junk raw_buff_a raw_buff_b = do
    m ← stm_init (mng_machine v)
    some (
      m,
      record {
        client_fd = client;
        parsers = junk;
        read_buffer = init (mng_buffer_size + 1) raw_buff_b;
        write_buffer = init (mng_buffer_size + 1) raw_buff_a;
        is_open = true;
      },
    )

  -- The function `mng_done`.
  pub finish_mng : World D → Option (World D)
  finish_mng w = selector_unregister_fd w.selector w.mng.client_fd >>= λ (_, _, s).
      some (record w { selector = s; metrics = end_connecting_clients w.metrics })

  -- `mng_read`, `mng_write` and `mng_block`.
  unfoldable pub mng_event :
      Event → Machine (World D) → World D → Option (Machine (World D) × World D)
  unfolding finish_mng
  mng_event e m w = do
    (st, m', w') ← stm_handler e m w
    w'' ← (if (mng_error == st) || (mng_done == st) then finish_mng w' else some w')
    some (m', w'')

-- `MAX_CONNECTIONS`.
abbrev pub max_connections : ℕ
max_connections = 508

-- `MAX_CONNECTIONS < n`.
abbrev pub is_crowded : ℤ → Bool
is_crowded (pos n) = ltb max_connections n
is_crowded (negsuc n) = false

-- `mng_passive_accept`: `accept` and `selector_fd_set_nio` are the operating system's, `attached` is what
-- `mng_new` made. With it: whether the client stays.
unfoldable pub mng_passive_accept :
    {D : Type 0} → Option ℕ → Bool → D → Selector D → Metrics → Option (Bool × Selector D × Metrics)
mng_passive_accept none nio attached s m = some (false, s, m)
mng_passive_accept (some client) nio attached s m =
    if is_crowded m.current_connections
    then some (false, s, m)
    else if nio
    then (selector_register s client op_read attached >>= λ (status, s').
        some (is_success status, s', add_connecting_clients m))
    else some (false, s, add_connecting_clients m)
