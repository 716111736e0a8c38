-- ===== src/Mng.antt =====
-- src/mng.c, include/mng.h, src/mng_handler.c and include/mng_handler.h: a management connection, its
-- handlers over the buffers, the parsers, the settings and the selector.
--
-- `World` is the connection with what it reaches. A handler is one event, for which `received` and
-- `sent` are what `recv` and `send` give.
pub mod Requests
pub mod Handlers
pub mod Server
pub mod Handling
pub mod Messages
pub mod Outcome
pub mod Session
pub mod Overrun
pub mod Token
pub mod Replies
pub mod Sample
mod Tests
use tp_socks5_proxy.Base.{ℕ, Bool, false, ◌≡◌, Option, some, Bytes, ◌>>=◌, strlen, take}
use tp_socks5_proxy.Buffer.{Buffer, ℤ}
use tp_socks5_proxy.Selector.{Selector}
use tp_socks5_proxy.Config.{Config}
use tp_socks5_proxy.Config.Report.{SniffInfo}
use tp_socks5_proxy.Listgeneric.{ListCdt}
use tp_socks5_proxy.Metrics.{Metrics}
use tp_socks5_proxy.Socket.{Received, Sent, is_negative}
use tp_socks5_proxy.Admin.Connect.{Connect}
use tp_socks5_proxy.Admin.Get.{Get}
use tp_socks5_proxy.Admin.Put.{Put}
use tp_socks5_proxy.Admin.Edit.{Edit}
use tp_socks5_proxy.Admin.Delete.{Delete}
use tp_socks5_proxy.Admin.ConfigBuff.{ConfigBuff}
use tp_socks5_proxy.Admin.ConfigStatus.{ConfigStatus}

-- `enum mng_state`.
abbrev pub connect_read : ℕ
connect_read = 0

abbrev pub connect_write : ℕ
connect_write = 1

abbrev pub request : ℕ
request = 2

abbrev pub request_get : ℕ
request_get = 3

abbrev pub request_put : ℕ
request_put = 4

abbrev pub request_edit : ℕ
request_edit = 5

abbrev pub request_buffsize : ℕ
request_buffsize = 6

abbrev pub request_configstatus : ℕ
request_configstatus = 7

abbrev pub request_delete : ℕ
request_delete = 8

abbrev pub replies : ℕ
replies = 9

abbrev pub mng_done : ℕ
mng_done = 10

abbrev pub mng_error : ℕ
mng_error = 11

-- `union parsers`: the member that was written last.
pub data Parsers : Type 0 where
  connect : Connect → Parsers
  get : Get → Parsers
  put : Put → Parsers
  edit : Edit → Parsers
  buff_size : ConfigBuff → Parsers
  conf_status : ConfigStatus → Parsers
  delete : Delete → Parsers

-- How the union's bytes read as each member. The layout is the compiler's; a member that was written
-- is read back.
pub record Views : Type 0 where
  pub as_connect : Parsers → Connect
  pub as_get : Parsers → Get
  pub as_put : Parsers → Put
  pub as_edit : Parsers → Edit
  pub as_buff_size : Parsers → ConfigBuff
  pub as_conf_status : Parsers → ConfigStatus
  pub as_delete : Parsers → Delete
  pub as_connect_own : (p : Connect) → as_connect (Parsers.connect p) ≡ p
  pub as_get_own : (p : Get) → as_get (Parsers.get p) ≡ p
  pub as_put_own : (p : Put) → as_put (Parsers.put p) ≡ p
  pub as_edit_own : (p : Edit) → as_edit (Parsers.edit p) ≡ p
  pub as_buff_size_own : (p : ConfigBuff) → as_buff_size (Parsers.buff_size p) ≡ p
  pub as_conf_status_own : (p : ConfigStatus) → as_conf_status (Parsers.conf_status p) ≡ p
  pub as_delete_own : (p : Delete) → as_delete (Parsers.delete p) ≡ p

-- `struct mng`: what the handlers use. `is_open` is a `status` that is not CLOSE.
pub record Mng : Type 0 where
  pub client_fd : ℕ
  pub parsers : Parsers
  pub read_buffer : Buffer
  pub write_buffer : Buffer
  pub is_open : Bool

-- The connection, what it reaches, and what the system calls of the next event give. `fd` is the one
-- of the selector's key; `D` stands for what the selector's items refer to.
pub record World (D : Type 0) : Type 0 where
  pub mng : Mng
  pub fd : ℕ
  pub selector : Selector D
  pub config : Config
  pub metrics : Metrics
  pub sniffed : ListCdt SniffInfo
  pub received : Received
  pub sent : Sent

-- The C string in an array.
abbrev pub text_of : Bytes → Option Bytes
text_of a = do n ← strlen a; some (take n a)

module _ {D : Type 0} where
  abbrev pub with_parsers : Parsers → World D → World D
  with_parsers p w = record w { mng = record w.mng { parsers = p } }

  abbrev pub with_read_buffer : Buffer → World D → World D
  with_read_buffer b w = record w { mng = record w.mng { read_buffer = b } }

  abbrev pub with_write_buffer : Buffer → World D → World D
  with_write_buffer b w = record w { mng = record w.mng { write_buffer = b } }

  -- `ATTACH(key)->status = CLOSE`.
  abbrev pub closing : World D → World D
  closing w = record w { mng = record w.mng { is_open = false } }

  -- `if (marshall(buff_write, status) == -1) { err = true; }`.
  abbrev pub answer : (Buffer → ℕ → Option (ℤ × Buffer)) → ℕ → World D → Option (Bool × World D)
  answer marshall status w = do
    (r, b) ← marshall w.mng.write_buffer status
    some (is_negative r, with_write_buffer b w)
