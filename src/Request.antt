-- ===== src/Request.antt =====
-- src/parsers/request.c and include/parsers/request.h: the parser of the client's request, an address
-- and a port to connect to.
--
-- `union socks_addr` is its 256 bytes of memory, the first 255 of which are `fqdn`, with `sockaddr_in` and `sockaddr_in6` laid out as on
-- x86-64 Linux, and `dst_port` is its two bytes in the order of the memory, which is network order.
pub mod Address
pub mod Domain
pub mod Answer
mod Tests
use tp_socks5_proxy.Base.{
  ℕ, zero, suc, ◌+◌, ◌-◌, ◌≡◌, refl, Bool, true, false, ◌||◌, Option, none, some, [], ◌∷◌, Bytes,
  if◌then◌else◌, ◌>>=◌, ◌==◌, leb, add8, store, blit, replicate,
}
use tp_socks5_proxy.Buffer.{Buffer}
use tp_socks5_proxy.Parsing.{Parser, Flag, raise, consume}

pub data State : Type 0 where
  version cmd rsv atyp dstaddr_fqdn dstaddr dstport done : State
  error error_unsupported_version error_unsupported_addresstype error_unsupported_cmd : State

-- `enum socks_addr_type`.
abbrev pub addrtype_ipv4 : ℕ
addrtype_ipv4 = 0x01

abbrev pub addrtype_domain : ℕ
addrtype_domain = 0x03

abbrev pub addrtype_ipv6 : ℕ
addrtype_ipv6 = 0x04

-- `struct request`.
pub record Request : Type 0 where
  pub cmd : ℕ
  pub dst_addr_type : ℕ
  pub dst_addr : Bytes
  pub dst_port : Bytes

-- `struct request_parser`; the request that it points to is a part of it.
pub record Requests : Type 0 where
  pub request : Request
  pub state : State
  pub total_bytes_to_read : ℕ
  pub bytes_read : ℕ

-- The request after `memset`.
unfoldable pub blank : Request
blank = record { cmd = 0; dst_addr_type = 0; dst_addr = replicate 256 0; dst_port = 0 ∷ 0 ∷ [] }

pub init : Requests → Requests
init p = record p { state = State.version; request = blank }

-- The offsets of `sin_addr` and `sin6_addr`, and the two bytes of the address families.
abbrev pub sin_addr : ℕ
sin_addr = 4

abbrev pub sin6_addr : ℕ
sin6_addr = 8

abbrev pub af_inet : Bytes
af_inet = 2 ∷ 0 ∷ []

abbrev pub af_inet6 : Bytes
af_inet6 = 10 ∷ 0 ∷ []

abbrev pub sizeof_sockaddr_in : ℕ
sizeof_sockaddr_in = 16

abbrev pub sizeof_sockaddr_in6 : ℕ
sizeof_sockaddr_in6 = 28

remaining_set : Requests → ℕ → Requests
remaining_set p n = record p { bytes_read = 0; total_bytes_to_read = n }

remaining_is_done : Requests → Bool
remaining_is_done p = leb p.total_bytes_to_read p.bytes_read

feed_version : ℕ → State
feed_version c = if c == 0x05 then State.cmd else error_unsupported_version

-- `cmd`: the commands that it takes are 1, 3 and 4.
feed_cmd : ℕ → Requests → Requests
feed_cmd c p =
    if c == 0x01 || c == 0x03 || c == 0x04
    then record p { request = record (p.request) { cmd = c }; state = rsv }
    else record p { state = error_unsupported_cmd }

-- `atyp`: an address of a fixed size is zeroed and gets its family; a domain's memory stays.
feed_atyp : ℕ → Requests → Option Requests
unfolding remaining_set
feed_atyp c p =
    let typed = record p { request = record (p.request) { dst_addr_type = c } } in
    if c == addrtype_ipv4
    then (do
      a ← blit p.request.dst_addr 0 (replicate sizeof_sockaddr_in 0)
      a' ← blit a 0 af_inet
      let q = remaining_set typed 4
      some (record q { request = record (typed.request) { dst_addr = a' }; state = dstaddr }))
    else if c == addrtype_ipv6
    then (do
      a ← blit p.request.dst_addr 0 (replicate sizeof_sockaddr_in6 0)
      a' ← blit a 0 af_inet6
      let q = remaining_set typed 16
      some (record q { request = record (typed.request) { dst_addr = a' }; state = dstaddr }))
    else if c == addrtype_domain
    then some (record typed { state = dstaddr_fqdn })
    else some (record typed { state = error_unsupported_addresstype })

-- `dstaddr_fqdn`: `fqdn[total_bytes_to_read - 1] = 0`, outside of the array for a length of 0.
feed_dstaddr_fqdn : ℕ → Requests → Option Requests
unfolding remaining_set
feed_dstaddr_fqdn zero p = none
feed_dstaddr_fqdn (suc n) p = do
  a ← store p.request.dst_addr n 0
  let q = remaining_set p (suc n)
  some (record q { request = record (p.request) { dst_addr = a }; state = dstaddr })

-- The switch of `dstaddr`: the byte goes to the address, and the count grows.
store_dstaddr : ℕ → Requests → Option Requests
store_dstaddr c p =
    let stored = λ (at : ℕ). store p.request.dst_addr at c >>= λ a. some (record p {
      request = record (p.request) { dst_addr = a };
      bytes_read = add8 p.bytes_read 1;
    }) in
    if p.request.dst_addr_type == addrtype_ipv4
    then stored (sin_addr + p.bytes_read)
    else if p.request.dst_addr_type == addrtype_ipv6
    then stored (sin6_addr + p.bytes_read)
    else if p.request.dst_addr_type == addrtype_domain
    then stored p.bytes_read
    else some p

feed_dstaddr : ℕ → Requests → Option Requests
unfolding store_dstaddr remaining_is_done remaining_set
feed_dstaddr c p = do
  q ← store_dstaddr c p
  if remaining_is_done q
      then some (record (remaining_set q 2) {
        request = record (q.request) { dst_port = 0 ∷ 0 ∷ [] };
        state = dstport;
      })
      else some (record q { state = dstaddr })

feed_dstport : ℕ → Requests → Option Requests
unfolding remaining_is_done
feed_dstport c p = do
  a ← store p.request.dst_port p.bytes_read c
  let q = record p {
    request = record (p.request) { dst_port = a };
    bytes_read = add8 p.bytes_read 1;
  }
  if remaining_is_done q
      then some (record q { state = done })
      else some (record q { state = dstport })

pub feed_in : State → Requests → ℕ → Option Requests
unfolding feed_version feed_cmd feed_atyp feed_dstaddr_fqdn feed_dstaddr feed_dstport
feed_in State.version p c = some (record p { state = feed_version c })
feed_in State.cmd p c = some (feed_cmd c p)
feed_in rsv p c = some (record p { state = atyp })
feed_in atyp p c = feed_atyp c p
feed_in dstaddr_fqdn p c = feed_dstaddr_fqdn c p
feed_in dstaddr p c = feed_dstaddr c p
feed_in dstport p c = feed_dstport c p
feed_in _ p c = some p

pub feed : Requests → ℕ → Option Requests
unfolding feed_in
feed p c = feed_in p.state p c

-- `request_is_done`.
abbrev pub is_done : State → Flag → Bool × Flag
is_done error e = (true, raise e)
is_done error_unsupported_version e = (true, raise e)
is_done error_unsupported_addresstype e = (true, raise e)
is_done error_unsupported_cmd e = (true, raise e)
is_done done e = (true, e)
is_done _ e = (false, e)

pub is_done_any : (s : State) (e e' : Flag) → (is_done s e).0 ≡ (is_done s e').0
is_done_any done e e' = refl
is_done_any _ e e' = refl

abbrev pub parser : Parser
parser = record {
  P = Requests;
  feed = feed;
  is_done = λ p. is_done p.state;
  is_done_any = λ p. is_done_any p.state;
}

unfoldable pub request_consume : Buffer → Requests → Flag → Option (Requests × Flag × Buffer)
request_consume = consume parser
