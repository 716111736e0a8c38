-- ===== src/Mng/Sample.antt =====
-- A small management connection. Its buffers are of 24 bytes, with the limit one behind them.
use tp_socks5_proxy.Base.{
  ℕ, ◌+◌, ◌≡◌, refl, true, false, some, none, List, [], ◌∷◌, ◌++◌, Bytes, replicate, length,
  length-append, length-replicate, arith,
}
use tp_socks5_proxy.Buffer.{Buffer, pos}
use tp_socks5_proxy.Buffer.Holds.{Holds}
use tp_socks5_proxy.Selector.{
  Selector, success, selector_set_interest, set_item, items_update_fdset_for_fd,
}
use tp_socks5_proxy.Config.{Config, User}
use tp_socks5_proxy.Config.Table.{Entry, Table, end, free, used, IsTable}
use tp_socks5_proxy.Socket.{op_write}
use tp_socks5_proxy.Admin.Reply.{Blank}
use tp_socks5_proxy.Admin.Connect.{Connect, State as ConnectState}
use tp_socks5_proxy.Admin.Get.{Get, State as GetState}
use tp_socks5_proxy.Admin.Put.{Put, State as PutState}
use tp_socks5_proxy.Admin.Edit.{Edit, State as EditState}
use tp_socks5_proxy.Admin.Delete.{Delete, State as DeleteState}
use tp_socks5_proxy.Admin.ConfigBuff.{ConfigBuff, State as ConfigBuffState}
use tp_socks5_proxy.Admin.ConfigStatus.{ConfigStatus, State as ConfigStatusState}
use tp_socks5_proxy.Mng.{Parsers, Views, World}

abbrev pub connect : Connect
connect = record {
  state = ConnectState.done;
  passlen = 0;
  passwd = [];
  remaining = 0;
  read = 0;
  version = 0;
  status = 0;
}

abbrev pub get : Get
get = record { state = GetState.done; option = 0; status = 0 }

abbrev pub put : Put
put = record {
  state = PutState.done;
  field = 0;
  action = 0;
  userlen = 0;
  username = [];
  passlen = 0;
  passwd = [];
  remaining = 0;
  read = 0;
  status = 0;
}

abbrev pub delete : Delete
delete = record {
  state = DeleteState.done;
  ulen = 0;
  username = replicate 255 7;
  field = 0;
  action = 0;
  read = 0;
  remaining = 0;
  status = 0;
}

abbrev pub edit : Edit
edit = record {
  state = EditState.done;
  ulen = 0;
  username = replicate 255 7;
  field = 0;
  action = 0;
  attr = 0;
  valuelen = 0;
  value = replicate 255 7;
  remaining = 0;
  read = 0;
  status = 0;
}

abbrev pub configbuff : ConfigBuff
configbuff = record {
  state = ConfigBuffState.done;
  size = 0 ∷ 0 ∷ 0 ∷ 0 ∷ [];
  action = 0;
  remaining = 0;
  read = 0;
  status = 0;
}

abbrev pub configstatus : ConfigStatus
configstatus = record {
  state = ConfigStatusState.done;
  action = 0;
  field = 0;
  status = 0;
  config_status = 0;
}

abbrev pub as_connect : Parsers → Connect
as_connect (Parsers.connect p) = p
as_connect _ = connect

abbrev pub as_get : Parsers → Get
as_get (Parsers.get p) = p
as_get _ = get

abbrev pub as_put : Parsers → Put
as_put (Parsers.put p) = p
as_put _ = put

abbrev pub as_edit : Parsers → Edit
as_edit (Parsers.edit p) = p
as_edit _ = edit

abbrev pub as_buff_size : Parsers → ConfigBuff
as_buff_size (Parsers.buff_size p) = p
as_buff_size _ = configbuff

abbrev pub as_conf_status : Parsers → ConfigStatus
as_conf_status (Parsers.conf_status p) = p
as_conf_status _ = configstatus

abbrev pub as_delete : Parsers → Delete
as_delete (Parsers.delete p) = p
as_delete _ = delete

abbrev pub views : Views
views = record {
  as_connect = as_connect;
  as_get = as_get;
  as_put = as_put;
  as_edit = as_edit;
  as_buff_size = as_buff_size;
  as_conf_status = as_conf_status;
  as_delete = as_delete;
  as_connect_own = λ p. refl;
  as_get_own = λ p. refl;
  as_put_own = λ p. refl;
  as_edit_own = λ p. refl;
  as_buff_size_own = λ p. refl;
  as_conf_status_own = λ p. refl;
  as_delete_own = λ p. refl;
}

-- A buffer that holds the bytes `q` from its start.
abbrev pub holding : Bytes → ℕ → Buffer
holding q n = record { mem = q ++ replicate n 0; limit = 25; read = 0; write = length q }

abbrev pub sel : Selector ℕ
sel = record {
  fds = none ∷ some (record { fd = 1; interest = 1; data_of = 7 }) ∷ [];
  fd_size = 2;
  max_fd = 1;
  master_r = λ i. false;
  master_w = λ i. false;
}

abbrev pub set_to : ℕ → Selector ℕ
set_to i =
    items_update_fdset_for_fd
      (record sel { fds = none ∷ some (record { fd = 1; interest = i; data_of = 7 }) ∷ [] }) 1 i

pub sel-set : selector_set_interest sel 1 op_write ≡ some (success, set_to op_write)
unfolding selector_set_interest set_item
sel-set = refl

abbrev pub empty : User
empty = record { name = replicate 10 0; pass = replicate 10 0 }

-- One user, "a" with "b", and the token "t".
abbrev pub conf : Config
conf = record {
  disectors_enabled = true;
  auth_enabled = true;
  socks_buffer_size = 1024;
  mng_token = 116 ∷ [];
  users = record { name = 97 ∷ replicate 9 0; pass = 98 ∷ replicate 9 0 } ∷ replicate 9 empty;
  users_size = 1;
}

abbrev pub entries : List Entry
entries = (97 ∷ [], 98 ∷ []) ∷ []

pub conf-IsTable : IsTable conf entries
conf-IsTable = record {
  table =
      used (record { post = replicate 8 0; layout = refl; text = (omega arith, tt); size = refl })
        (record { post = replicate 8 0; layout = refl; text = (omega arith, tt); size = refl })
        (unused (unused (unused (unused (unused (unused (unused (unused (unused end)))))))));
  size = refl;
  array = refl;
}
  where
    unused : {us : List User} → Table us [] → Table (empty ∷ us) []
    unused = free (refl, refl)

-- The connection, with a parser, the bytes at hand and those that arrive.
abbrev pub world : Parsers → Bytes → ℕ → Bytes → World ℕ
world ps q n bs = record {
  mng = record {
    client_fd = 1;
    parsers = ps;
    read_buffer = holding q n;
    write_buffer = holding [] 24;
    is_open = true;
  };
  fd = 1;
  selector = sel;
  config = conf;
  metrics = record {
    sent_byte = 0;
    received_bytes = 0;
    historic_connections = pos 0;
    current_connections = pos 0;
    connecting_clients = pos 0;
  };
  sniffed = record { first = []; iterador_next = []; size = 0 };
  received = some bs;
  sent = none;
}

pub blank : Blank (holding [] 24)
blank = record {
  read_at = refl;
  write_at = refl;
  wide = omega arith;
  first = 0;
  rest = replicate 23 0;
  layout = refl;
}

pub held : (q : Bytes) (n : ℕ) → length q + n ≡ 24 → Holds (holding q n) q
held q n l = record {
  pre = [];
  post = replicate n 0;
  layout = refl;
  read_at = refl;
  write_at = omega arith;
  within = omega arith;
  storage = omega (arith, length-append q (replicate n 0), length-replicate {A = ℕ} n 0);
}
