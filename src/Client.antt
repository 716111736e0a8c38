-- ===== src/Client.antt =====
-- src/management_protocol/management_protocol_handler.c: the requests that the management client sends. A
-- C string is its bytes without the terminator; `none` is the end of the client.
pub mod Parsed
mod Tests
use tp_socks5_proxy.Base.{
  ℕ, ◌+◌, ◌%◌, ◌/◌, ◌^◌, Option, none, some, [], ◌∷◌, ◌++◌, Bytes, if◌then◌else◌, ltb, length, take,
}

-- What `login` sends: two bytes behind the password, the second of which is the `junk` of the memory.
unfoldable pub login : ℕ → Bytes → Option Bytes
login junk password =
    let sent = 0x00 ∷ length password ∷ (password ++ (0 ∷ junk ∷ [])) in
    if ltb 255 (length password) then none else some sent

unfoldable pub send_get_request : ℕ → Bytes
send_get_request command = 0x00 ∷ command ∷ []

-- The request is cut at the number of bytes that `send` is given.
unfoldable pub send_put_request : Bytes → Bytes → Option Bytes
send_put_request username password =
    let sent =
      take (length username + length password + 4) (
        0x01 ∷ 0x00 ∷ length username ∷ (username ++ (length password ∷ (password ++ (0 ∷ []))))) in
    if ltb 10 (length username) then none else if ltb 10 (length password) then none else some sent

unfoldable pub send_edit_request : Bytes → ℕ → Bytes → Option Bytes
send_edit_request username attribute value =
    let sent = take (length username + length value + 6) (
      0x02
      ∷ 0x00
      ∷ length username
      ∷ (username ++ (attribute ∷ length value ∷ (value ++ (0 ∷ []))))) in
    if ltb 10 (length username) then none else if ltb 10 (length value) then none else some sent

-- The four bytes of an `unsigned int`, the highest one first.
unfoldable pub send_configbuffsize_request : ℕ → Bytes
send_configbuffsize_request size =
    0x03 ∷ size / 2 ^ 24 % 2 ^ 8 ∷ size / 2 ^ 16 % 2 ^ 8 ∷ size / 2 ^ 8 % 2 ^ 8 ∷ size % 2 ^ 8 ∷ []

unfoldable pub send_configstatus_request : ℕ → ℕ → Bytes
send_configstatus_request field status = 0x04 ∷ field ∷ status ∷ []

unfoldable pub send_delete_request : Bytes → Option Bytes
send_delete_request username =
    let sent =
      take (length username + 3) (0x05 ∷ 0x00 ∷ length username ∷ (username ++ (0 ∷ []))) in
    if ltb 10 (length username) then none else some sent
