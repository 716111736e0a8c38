-- ===== src/Socks.antt =====
-- src/socks5.c, include/socks5.h and the handlers of src/socks5_hello.c, src/socks5_auth.c,
-- src/socks5_request.c and src/socks5_copy.c: a connection of a client.
--
-- `World` is the connection with what it reaches. A handler is one event, for which `received`, `sent`,
-- `attempts` and `sock_error` are what the operating system gives; descriptors are numbers, and `none` is
-- -1. The pointers of the unions' members into the connection are written out. A member of a union that
-- was not written last is not read: reading one is `none`, as is a use of the memory that was freed.
pub mod Greeting
pub mod Attempts
pub mod Admission
pub mod Guards
pub mod Closing
pub mod Connecting
pub mod Release
pub mod Retry
pub mod Copying
pub mod Relay
pub mod Server
mod Tests
use tp_socks5_proxy.Base.{ℕ, Bool, Option, none, some, List, Bytes, if◌then◌else◌, ◌==◌}
use tp_socks5_proxy.Buffer.{Buffer}
use tp_socks5_proxy.Hello.{Hello}
use tp_socks5_proxy.Auth.{Auth}
use tp_socks5_proxy.Request.{Requests}
use tp_socks5_proxy.Selector.{Selector}
use tp_socks5_proxy.Config.{Config}
use tp_socks5_proxy.Config.Report.{SniffInfo}
use tp_socks5_proxy.Listgeneric.{ListCdt}
use tp_socks5_proxy.Metrics.{Metrics}
use tp_socks5_proxy.Sniffer.{Sniffer}
use tp_socks5_proxy.Socket.{Received, Sent}

-- `enum socks_state`.
abbrev pub hello_read : ℕ
hello_read = 0

abbrev pub hello_write : ℕ
hello_write = 1

abbrev pub auth_read : ℕ
auth_read = 2

abbrev pub auth_write : ℕ
auth_write = 3

abbrev pub request_read : ℕ
request_read = 4

abbrev pub request_resolv : ℕ
request_resolv = 5

abbrev pub request_connecting : ℕ
request_connecting = 6

abbrev pub request_write : ℕ
request_write = 7

abbrev pub copying : ℕ
copying = 8

abbrev pub socks_done : ℕ
socks_done = 9

abbrev pub socks_error : ℕ
socks_error = 10

-- `enum socks_response_status`, as far as the handlers name it.
abbrev pub status_succeeded : ℕ
status_succeeded = 0x00

abbrev pub status_general : ℕ
status_general = 0x01

abbrev pub status_connection_refused : ℕ
status_connection_refused = 0x05

abbrev pub status_command : ℕ
status_command = 0x07

abbrev pub status_address_type : ℕ
status_address_type = 0x08

abbrev pub status_close : ℕ
status_close = 0x09

abbrev pub status_connecting : ℕ
status_connecting = 0x10

-- `copy_data`: the interests, as the bits for reading and for writing.
pub record CopyData : Type 0 where
  pub reads : Bool
  pub writes : Bool

-- `auth_data`; the status is `none` before it is written.
pub record AuthData : Type 0 where
  pub parser : Auth
  pub status : Option ℕ

-- `union client_data`. The method of `hello_data` is the data of its parser.
pub data ClientData : Type 0 where
  hello : Hello ℕ → ClientData
  auth : AuthData → ClientData
  request : Requests → ClientData
  copy : CopyData → ClientData

-- `struct addrinfo`, with the list that `ai_next` begins as a list.
pub record AddrInfo : Type 0 where
  pub ai_family : ℕ
  pub ai_addr : Bytes

-- `struct socks5`: what the handlers use. `final_server_addr` is the bytes of the address, as many as
-- its length; `freed` is whether the memory of the connection was freed.
pub record Socks : Type 0 where
  pub client_fd : ℕ
  pub server_resolution : List AddrInfo
  pub current_server_resolution : List AddrInfo
  pub final_server_addr : Bytes
  pub server_domain : ℕ
  pub final_server_fd : Option ℕ
  pub client_data : ClientData
  pub server_copy : CopyData
  pub read_buffer : Buffer
  pub write_buffer : Buffer
  pub status : ℕ
  pub user : Bytes
  pub to_free : ℕ
  pub freed : Bool
  pub sniffer : Sniffer

-- What `connect` comes to.
pub data Outcome : Type 0 where
  connected in_progress : Outcome
  failed : ℕ → Outcome

-- What the system calls of one call of `request_connect` give: the descriptor of `socket`, whether it is
-- made not to block, and `connect`.
pub record Attempt : Type 0 where
  pub socket : Option ℕ
  pub nio : Bool
  pub outcome : Outcome

-- `D` stands for what the selector's items refer to, `self` for this connection.
pub record World (D : Type 0) : Type 0 where
  pub socks : Socks
  pub self : D
  pub fd : ℕ
  pub selector : Selector D
  pub config : Config
  pub metrics : Metrics
  pub sniffed : ListCdt SniffInfo
  pub received : Received
  pub sent : Sent
  pub attempts : List Attempt
  pub sock_error : Option ℕ

module _ {D : Type 0} where
  abbrev pub with_socks : Socks → World D → World D
  with_socks s w = record w { socks = s }

  abbrev pub with_client : ClientData → World D → World D
  with_client c w = record w { socks = record w.socks { client_data = c } }

  abbrev pub with_read_buffer : Buffer → World D → World D
  with_read_buffer b w = record w { socks = record w.socks { read_buffer = b } }

  abbrev pub with_write_buffer : Buffer → World D → World D
  with_write_buffer b w = record w { socks = record w.socks { write_buffer = b } }

  abbrev pub with_status : ℕ → World D → World D
  with_status n w = record w { socks = record w.socks { status = n } }

-- The members of the union, as the handlers read them.
abbrev pub as_hello : ClientData → Option (Hello ℕ)
as_hello (hello p) = some p
as_hello _ = none

abbrev pub as_auth : ClientData → Option AuthData
as_auth (auth a) = some a
as_auth _ = none

abbrev pub as_request : ClientData → Option Requests
as_request (request r) = some r
as_request _ = none

abbrev pub as_copy : ClientData → Option CopyData
as_copy (copy c) = some c
as_copy _ = none

-- `err ? ERROR : ret`.
abbrev pub ending : Bool → ℕ → ℕ
ending err ret = if err then socks_error else ret
