-- ===== src/Config.antt =====
-- src/server_config.c and include/server_config.h: the server's settings and its table of users, which
-- the management protocol changes while the server runs.
--
-- A `char *` that a function is given is the list of the bytes before its NUL; the arrays of the table
-- are written out. The addresses that the server listens on are left out: no function of the file
-- uses them.
pub mod Table
pub mod Users
pub mod Delete
pub mod Edit
pub mod Settings
pub mod Report
mod Tests
use tp_socks5_proxy.Base.{
  ℕ, zero, suc, ◌+◌, ◌-◌, ◌*◌, ◌/◌, ◌%◌, ◌^◌, Bool, true, false, not, ◌&&◌, ◌||◌, Option, none,
  some, List, [], ◌∷◌, ◌++◌, Bytes, if◌then◌else◌, ◌>>=◌, ◌==◌, ltb, leb, length, get_elem?, take,
  replicate, blit, strlen,
}
use tp_socks5_proxy.Buffer.{ℤ, pos, negsuc}

abbrev pub max_socks_users : ℕ
max_socks_users = 10

abbrev pub max_username_size : ℕ
max_username_size = 10

-- `struct users`.
pub record User : Type 0 where
  pub name : Bytes
  pub pass : Bytes

-- `struct config`.
pub record Config : Type 0 where
  pub disectors_enabled : Bool
  pub auth_enabled : Bool
  pub socks_buffer_size : ℕ
  pub mng_token : Bytes
  pub users : List User
  pub users_size : ℕ

-- "holacomoestas".
abbrev pub default_token : Bytes
default_token = 104 ∷ 111 ∷ 108 ∷ 97 ∷ 99 ∷ 111 ∷ 109 ∷ 111 ∷ 101 ∷ 115 ∷ 116 ∷ 97 ∷ 115 ∷ []

-- `init_config`, without the list of the sniffer: the flag of the authentication stays.
pub init_config : Config → Config
init_config c = record c {
  disectors_enabled = true;
  mng_token = default_token;
  socks_buffer_size = 1024;
  users_size = 0;
}

-- `strcmp(array, s) == 0`.
unfoldable pub is_string : Bytes → Bytes → Option Bool
is_string [] s = none
is_string (zero ∷ a) [] = some true
is_string (suc c ∷ a) [] = some false
is_string (zero ∷ a) (x ∷ s) = some false
is_string (suc c ∷ a) (x ∷ s) = let rest = is_string a s in if suc c == x then rest else some false

-- `strcpy(array, s)`.
abbrev pub strcpy : Bytes → Bytes → Option Bytes
strcpy a s = blit a 0 (s ++ (0 ∷ []))

-- `strcpy(array, from)`, where the string is in an array too.
abbrev pub strcpy_array : Bytes → Bytes → Option Bytes
strcpy_array a from = do n ← strlen from; strcpy a (take n from)

-- The loop of `checkUser`, over the users that are left.
unfoldable pub check_loop : List User → ℕ → Bytes → Bytes → Option Bool
check_loop us zero user pass = some false
check_loop [] (suc n) user pass = none
check_loop (u ∷ us) (suc n) user pass = do
  let rest = check_loop us n user pass
  named ← is_string u.name user
  if named then (do known ← is_string u.pass pass; if known then some true else rest) else rest

unfoldable pub check_user : Config → Bytes → Bytes → Option Bool
unfolding check_loop
check_user c user pass = check_loop c.users c.users_size user pass

-- The loop of `delete_user`: the last user is copied over the one that is found, and the loop ends.
-- With it: whether the user was found.
unfoldable pub delete_loop : Option User → List User → ℕ → Bytes → Option (Bool × List User)
delete_loop last us zero user = some (false, us)
delete_loop last [] (suc n) user = none
delete_loop last (u ∷ us) (suc n) user = do
  let rest = delete_loop last us n user >>= λ (found, us'). some (found, u ∷ us')
  let copied = last >>= λ l. strcpy_array u.name l.name >>= λ name.
      strcpy_array u.pass l.pass >>= λ pass. some (true, record { name = name; pass = pass } ∷ us)
  hit ← is_string u.name user
  if hit then (if ltb 0 n then copied else some (true, u ∷ us)) else rest

unfoldable pub delete_user : Config → Bytes → Option (ℤ × Config)
unfolding delete_loop
delete_user c user = do
  (found, us) ← delete_loop (get_elem? c.users (c.users_size - 1)) c.users c.users_size user
  if found
      then some (pos 0, record c { users = us; users_size = c.users_size - 1 })
      else some (negsuc 0, record c { users = us })

-- The loop of `get_user`: the place of the user, and `none` inside is NULL.
unfoldable pub get_user_loop : List User → ℕ → Bytes → Option (Option ℕ)
get_user_loop us zero user = some none
get_user_loop [] (suc n) user = none
get_user_loop (u ∷ us) (suc n) user = do
  let rest = get_user_loop us n user
  hit ← is_string u.name user
  if hit then some (some 0) else (rest >>= λ r. some (r >>= λ i. some (suc i)))

-- `users[i] = u`.
unfoldable pub set_user : List User → ℕ → User → Option (List User)
set_user [] i v = none
set_user (u ∷ us) zero v = some (v ∷ us)
set_user (u ∷ us) (suc i) v = set_user us i v >>= λ us'. some (u ∷ us')

-- `edit_user` at the user that `get_user` points to.
unfoldable pub edit_at : Config → Bytes → ℕ → Option ℕ → Option (ℤ × Config)
unfolding set_user
edit_at c value attr none = some (negsuc 0, c)
edit_at c value attr (some i) =
    if leb max_username_size (length value) then some (negsuc 0, c) else (do
      u ← get_elem? c.users i
      u' ←
          (if attr == 0x00
            then (strcpy u.name value >>= λ a. some (record u { name = a }))
            else (strcpy u.pass value >>= λ a. some (record u { pass = a })))
      us ← set_user c.users i u'
      some (pos 0, record c { users = us }))

unfoldable pub edit_user : Config → Bytes → Bytes → ℕ → Option (ℤ × Config)
unfolding edit_at get_user_loop
edit_user c user value attr = get_user_loop c.users c.users_size user >>= edit_at c value attr

-- `add_user` behind its two checks.
pub add_entry : Config → Bytes → Bytes → Option (ℤ × Config)
unfolding set_user
add_entry c user pass = do
  u ← get_elem? c.users c.users_size
  name ← strcpy u.name user
  word ← strcpy u.pass pass
  us ← set_user c.users c.users_size (record { name = name; pass = word })
  some (pos 0, record c { users = us; users_size = c.users_size + 1 })

unfoldable pub add_user : Config → Bytes → Bytes → Option (ℤ × Config)
add_user c user pass =
    if leb max_socks_users (c.users_size + 1)
    then some (negsuc 0, c)
    else if ltb max_username_size (length user) || ltb max_username_size (length user)
    then some (negsuc 0, c)
    else add_entry c user pass

-- `set_auth_status`, `set_sniff_status` and `set_status`: a status of 0 turns on.
pub set_auth_status : Config → ℕ → Config
set_auth_status c status = record c { auth_enabled = status == 0 }

pub set_sniff_status : Config → ℕ → Config
set_sniff_status c status = record c { disectors_enabled = status == 0 }

unfoldable pub set_status : Config → ℕ → ℕ → Config
unfolding set_auth_status set_sniff_status
set_status c field status =
    if field == 0x03 then set_auth_status c status else set_sniff_status c status

-- The bytes' bits are apart, so that `|` is a sum; the first byte is `src[0]`. A first byte of 128 or more,
-- which is shifted into the sign of an `int`, is taken to give the bit that it has.
pub four_bytes_to_num : ℕ → ℕ → ℕ → ℕ → ℕ
four_bytes_to_num a b c d = d + c * 2 ^ 8 + b * 2 ^ 16 + a * 2 ^ 24

unfoldable pub set_buff_size : Config → ℕ → ℕ → ℕ → ℕ → Config
unfolding four_bytes_to_num
set_buff_size s a b c d = record s { socks_buffer_size = four_bytes_to_num a b c d }

-- `num_to_4bytes`: the bytes that it writes to `res`, and -1 as `none`.
pub num_to_4bytes : ℕ → ℕ → Option Bytes
num_to_4bytes size n =
    if ltb size 4
    then none
    else some ((n / 2 ^ 24) % 256 ∷ (n / 2 ^ 16) % 256 ∷ (n / 2 ^ 8) % 256 ∷ n % 256 ∷ [])

unfoldable pub get_buff_size : Config → ℕ → Option Bytes
unfolding num_to_4bytes
get_buff_size s size = num_to_4bytes size s.socks_buffer_size

-- `bool_to_bytes`.
pub bool_to_bytes : ℕ → Bool → Option Bytes
bool_to_bytes size n = if ltb size 1 then none else if n then some (0x00 ∷ []) else some (0x01 ∷ [])

unfoldable pub get_auth_status : Config → ℕ → Option Bytes
unfolding bool_to_bytes
get_auth_status s size = bool_to_bytes size s.auth_enabled

unfoldable pub get_spoofing_status : Config → ℕ → Option Bytes
unfolding bool_to_bytes
get_spoofing_status s size = bool_to_bytes size s.disectors_enabled
