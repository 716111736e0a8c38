-- ===== src/Config/Report.antt =====
-- The getters of src/server_config.c, which write the answers to the administrator's queries into the
-- array `res` of `res_size` bytes. `res` is the bytes that are written, of which `n` is the count.
pub mod Listing
use tp_socks5_proxy.Base.{
  ℕ, zero, suc, ◌+◌, ◌-◌, ◌*◌, ◌≤◌, ◌<◌, ◌≡◌, refl, sym, ap, subst, ◌∙◌, Bool, true, false, not,
  Option, none, some, List, [], ◌∷◌, ◌++◌, Bytes, if◌then◌else◌, ◌>>=◌, ltb, length, arith,
}
use tp_socks5_proxy.Config.{
  User, Config, get_buff_size, get_auth_status, get_spoofing_status, num_to_4bytes,
}
use tp_socks5_proxy.Metrics.{Metrics, to_u32}
use tp_socks5_proxy.Listgeneric.{ListCdt, list_has_next, list_next, list_to_begin}

-- `struct sniff_info`, with the text that `ip_to_str` gives for its address.
pub record SniffInfo : Type 0 where
  pub proxy_username : Bytes
  pub user : Bytes
  pub passwd : Bytes
  pub dest_ip : Bytes

-- `res[n++] = c`.
abbrev pub put_char : ℕ → ℕ → Bytes → Option Bytes
put_char res_size c res = if ltb (length res) res_size then some (res ++ (c ∷ [])) else none

-- `for (j = 0; text[j] != '\0' && bound > n; j++) { res[n] = text[j]; n++; }`, where the bound is
-- at most the size of `res`.
pub put_text : ℕ → Bytes → Bytes → Option Bytes
put_text bound [] res = none
put_text bound (zero ∷ text) res = some res
put_text bound (suc c ∷ text) res =
    let rest = put_text bound text (res ++ (suc c ∷ [])) in
    if ltb (length res) bound then rest else some res

-- The loop of `get_users`.
pub users_loop : ℕ → List User → ℕ → Bytes → Option Bytes
unfolding put_text
users_loop res_size us zero res = some res
users_loop res_size [] (suc n) res = none
users_loop res_size (u ∷ us) (suc n) res = do
  a ← put_text (res_size - 3) u.name res
  b ← put_char res_size b' ' a
  c ← put_text (res_size - 2) u.pass b
  d ← put_char res_size b'\n' c
  users_loop res_size us n d

unfoldable pub get_users : Config → ℕ → Option Bytes
unfolding users_loop
get_users c res_size = users_loop res_size c.users c.users_size [] >>= put_char res_size 0

-- The loop of `get_pop3_pass`, of as many rounds as elements are left.
pub pop3_loop : ℕ → ℕ → ListCdt SniffInfo → Bytes → Option (Bytes × ListCdt SniffInfo)
unfolding put_text list_next
pop3_loop res_size zero l res = some (res, l)
pop3_loop res_size (suc f) l res = elim (list_next l).0 [
  | none ↦ some (res, l)
  | some s ↦
      if ltb (length res) res_size
      then (do
        a ← put_text (res_size - 3) s.proxy_username res
        b ← put_char res_size b' ' a
        c ← put_text (res_size - 3) s.user b
        d ← put_char res_size b' ' c
        e ← put_text (res_size - 3) s.passwd d
        f' ← put_char res_size b' ' e
        g ← put_text (res_size - 2) s.dest_ip f'
        h ← put_char res_size b'\n' g
        pop3_loop res_size f (list_next l).1 h)
      else some (res, l)
]

unfoldable pub get_pop3_pass : ListCdt SniffInfo → ℕ → Option (Bytes × ListCdt SniffInfo)
unfolding pop3_loop list_has_next list_to_begin
get_pop3_pass l res_size =
    let l' = if list_has_next l then l else list_to_begin l in
    pop3_loop res_size (length l'.iterador_next) l' [] >>= λ (res, l'').
    put_char res_size 0 res >>= λ res'. some (res', l'')

-- `num_to_8bytes`: a `uint32_t` shifted by 56 bits first, which is undefined.
unfoldable pub num_to_8bytes : ℕ → ℕ → Option (Option Bytes)
num_to_8bytes res_size n = if ltb res_size 8 then some none else none
