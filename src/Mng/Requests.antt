-- ===== src/Mng/Requests.antt =====
-- src/mng.c: what the reading handlers do when their parser is done, each as a `Handler`.
use tp_socks5_proxy.Base.{
  ℕ, zero, ◌^◌, Bool, true, false, Option, some, [], Bytes, if◌then◌else◌, ◌>>=◌, ◌==◌, leb,
  get_elem?,
}
use tp_socks5_proxy.Buffer.{ℤ, pos}
use tp_socks5_proxy.Parsing.{Parser}
use tp_socks5_proxy.Config.{
  is_string, add_user, edit_user, delete_user, set_buff_size, four_bytes_to_num, set_status,
  get_buff_size, get_auth_status, get_spoofing_status, num_to_4bytes,
}
use tp_socks5_proxy.Config.Report.{get_users, get_pop3_pass, num_to_8bytes}
use tp_socks5_proxy.Metrics.{to_u32}
use tp_socks5_proxy.Socket.{is_negative}
use tp_socks5_proxy.Admin.Connect.{
  Connect, State as ConnectState, parser as connect_parser, marshall as connect_marshall,
}
use tp_socks5_proxy.Admin.Get.{
  Get, State as GetState, parser as get_parser, marshall as get_marshall,
}
use tp_socks5_proxy.Admin.Put.{
  Put, State as PutState, parser as put_parser, marshall as put_marshall,
}
use tp_socks5_proxy.Admin.Edit.{
  Edit, State as EditState, parser as edit_parser, marshall as edit_marshall,
}
use tp_socks5_proxy.Admin.Delete.{
  Delete, State as DeleteState, parser as delete_parser, marshall as delete_marshall,
}
use tp_socks5_proxy.Admin.ConfigBuff.{
  ConfigBuff, State as ConfigBuffState, parser as configbuff_parser,
  marshall as configbuff_marshall,
}
use tp_socks5_proxy.Admin.ConfigStatus.{
  ConfigStatus, State as ConfigStatusState, parser as configstatus_parser,
}
use tp_socks5_proxy.Mng.{
  Parsers, Views, World, text_of, with_parsers, with_write_buffer, closing, answer, connect_read,
  connect_write, request_get, request_put, request_edit, request_buffsize, request_configstatus,
  request_delete, replies,
}

-- What tells the reading handlers apart: the parser and its member of the union, the state in which it
-- goes on and the one that follows, and what is done then, with whether `err` is set.
pub record Handler (D : Type 0) : Type 1 where
  pub k : Parser
  pub view : Parsers → k.P
  pub pack : k.P → Parsers
  pub stay : ℕ
  pub next : ℕ
  pub finish : k.P → World D → Option (Bool × World D)

-- `MAX_RES_SIZE`.
abbrev pub max_res_size : ℕ
max_res_size = 255

-- `r != 0`.
abbrev pub is_failure : ℤ → Bool
is_failure (pos zero) = false
is_failure _ = true

-- A number that is positive as an `int`.
abbrev pub is_positive : ℕ → Bool
is_positive n = if n == 0 then false else if leb (2 ^ 31) n then false else true

module _ {D : Type 0} where
  -- `mng_connect_read` behind its parser, by the parser's state.
  unfoldable pub connect_ends : ConnectState → Connect → World D → Option (Bool × World D)
  connect_ends ConnectState.done p w = is_string p.passwd w.config.mng_token >>= λ ok.
      if ok then answer connect_marshall 0x00 w else answer connect_marshall 0x04 (closing w)
  connect_ends _ p w = answer connect_marshall p.status (closing w)

  unfoldable pub finish_connect : Connect → World D → Option (Bool × World D)
  finish_connect p w = connect_ends p.state p w

  -- The queries of `request_get_request`; -1 as a count would be used as a size.
  unfoldable pub report : ℕ → World D → Option (Bytes × World D)
  report option w =
      let given = λ (res : Option Bytes). res >>= λ bs. some (bs, w) in
      let wide = λ (n : ℕ). num_to_8bytes max_res_size n >>= given in
      if option == 0
      then given (get_users w.config max_res_size)
      else if option == 1
      then (get_pop3_pass w.sniffed max_res_size >>= λ (bs, l). some (bs, record w { sniffed = l }))
      else if option == 2
      then given (get_buff_size w.config max_res_size)
      else if option == 3
      then given (get_auth_status w.config max_res_size)
      else if option == 4
      then given (get_spoofing_status w.config max_res_size)
      else if option == 5
      then wide w.metrics.sent_byte
      else if option == 6
      then wide w.metrics.sent_byte
      else if option == 7
      then given (num_to_4bytes max_res_size (to_u32 w.metrics.historic_connections))
      else if option == 8
      then given (num_to_4bytes max_res_size (to_u32 w.metrics.current_connections))
      else some ([], w)

  unfoldable pub finish_get : Get → World D → Option (Bool × World D)
  unfolding report
  finish_get p w = elim p.state [
    | GetState.done ↦ report p.option w >>= λ (res, w').
        get_marshall w'.mng.write_buffer p.status res >>= λ (r, b).
        some (is_negative r, with_write_buffer b w')
    | _ ↦ some (false, w)
  ]

  unfoldable pub finish_put : Put → World D → Option (Bool × World D)
  finish_put p w = elim p.state [
    | PutState.done ↦ text_of p.username >>= λ user. text_of p.passwd >>= λ pass.
        add_user w.config user pass >>= λ (r, c).
        (let status = if is_failure r then 0x05 else p.status in
          answer put_marshall status
            (with_parsers (Parsers.put (record p { status = status })) (record w { config = c })))
    | _ ↦ answer put_marshall p.status w
  ]

  unfoldable pub finish_edit : Edit → World D → Option (Bool × World D)
  finish_edit p w = elim p.state [
    | EditState.done ↦ text_of p.username >>= λ user. text_of p.value >>= λ value.
        edit_user w.config user value p.attr >>= λ (r, c).
        (let status = if is_failure r then 0x07 else p.status in
          answer edit_marshall status
            (with_parsers (Parsers.edit (record p { status = status })) (record w { config = c })))
    | _ ↦ answer edit_marshall p.status w
  ]

  unfoldable pub finish_delete : Delete → World D → Option (Bool × World D)
  finish_delete p w = elim p.state [
    | DeleteState.done ↦ text_of p.username >>= λ user. delete_user w.config user >>= λ (r, c).
        (let status = if is_failure r then 0x05 else p.status in
          answer delete_marshall status (
            with_parsers (Parsers.delete (record p { status = status })) (record w { config = c })))
    | _ ↦ answer delete_marshall p.status w
  ]

  -- The result of `set_buff_size` is an `int`.
  unfoldable pub finish_buffsize : ConfigBuff → World D → Option (Bool × World D)
  finish_buffsize p w = elim p.state [
    | ConfigBuffState.done ↦ get_elem? p.size 0 >>= λ x. get_elem? p.size 1 >>= λ y.
        get_elem? p.size 2 >>= λ z. get_elem? p.size 3 >>= λ t.
        (let ok = is_positive (four_bytes_to_num x y z t) in
          let status = if ok then p.status else 0x04 in
          let written = answer configbuff_marshall status (
            with_parsers (Parsers.buff_size (record p { status = status }))
              (record w { config = set_buff_size w.config x y z t })) in
          if ok then written else (written >>= λ (err, w'). some (true, w')))
    | _ ↦ answer configbuff_marshall p.status w
  ]

  unfoldable pub finish_configstatus : ConfigStatus → World D → Option (Bool × World D)
  finish_configstatus p w = elim p.state [
    | ConfigStatusState.done ↦
        answer configbuff_marshall p.status
          (record w { config = set_status w.config p.field p.config_status })
    | _ ↦ answer configbuff_marshall p.status w
  ]

  abbrev pub connect_handler : Views → Handler D
  connect_handler v = record {
    k = connect_parser;
    view = v.as_connect;
    pack = Parsers.connect;
    stay = connect_read;
    next = connect_write;
    finish = finish_connect;
  }

  abbrev pub get_handler : Views → Handler D
  get_handler v = record {
    k = get_parser;
    view = v.as_get;
    pack = Parsers.get;
    stay = request_get;
    next = replies;
    finish = finish_get;
  }

  abbrev pub put_handler : Views → Handler D
  put_handler v = record {
    k = put_parser;
    view = v.as_put;
    pack = Parsers.put;
    stay = request_put;
    next = replies;
    finish = finish_put;
  }

  abbrev pub edit_handler : Views → Handler D
  edit_handler v = record {
    k = edit_parser;
    view = v.as_edit;
    pack = Parsers.edit;
    stay = request_edit;
    next = replies;
    finish = finish_edit;
  }

  abbrev pub delete_handler : Views → Handler D
  delete_handler v = record {
    k = delete_parser;
    view = v.as_delete;
    pack = Parsers.delete;
    stay = request_delete;
    next = replies;
    finish = finish_delete;
  }

  abbrev pub buffsize_handler : Views → Handler D
  buffsize_handler v = record {
    k = configbuff_parser;
    view = v.as_buff_size;
    pack = Parsers.buff_size;
    stay = request_buffsize;
    next = replies;
    finish = finish_buffsize;
  }

  abbrev pub configstatus_handler : Views → Handler D
  configstatus_handler v = record {
    k = configstatus_parser;
    view = v.as_conf_status;
    pack = Parsers.conf_status;
    stay = request_configstatus;
    next = replies;
    finish = finish_configstatus;
  }
