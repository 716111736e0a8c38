-- ===== src/Config/Settings.antt =====
-- The settings that the management protocol writes and reads back.
use tp_socks5_proxy.Base.{
  ℕ, false, ◌==◌, ◌+◌, ◌*◌, ◌/◌, ◌%◌, ◌^◌, ◌≤◌, ◌<◌, ◌≡◌, refl, ap, ap₂, some, [], ◌∷◌, le→ltb,
  arith,
}
use tp_socks5_proxy.Config.{
  Config, set_status, set_auth_status, set_sniff_status, get_auth_status, get_spoofing_status,
  bool_to_bytes, set_buff_size, get_buff_size, num_to_4bytes, four_bytes_to_num,
}

pub buff_size_roundtrip :
    (s : Config) (a b c d size : ℕ)
    → a < 256
    → b < 256
    → c < 256
    → d < 256
    → 4 ≤ size
    → get_buff_size (set_buff_size s a b c d) size ≡ some (a ∷ b ∷ c ∷ d ∷ [])
unfolding get_buff_size set_buff_size num_to_4bytes four_bytes_to_num
buff_size_roundtrip s a b c d size ha hb hc hd room =
    let n = d + c * 2 ^ 8 + b * 2 ^ 16 + a * 2 ^ 24 in
    let d' : n % 256 ≡ d = omega arith in
    let c' : (n / 2 ^ 8) % 256 ≡ c = omega arith in
    let b' : (n / 2 ^ 16) % 256 ≡ b = omega arith in
    let a' : (n / 2 ^ 24) % 256 ≡ a = omega arith in
    rw (le→ltb size 4 room)
      (ap some (ap₂ (◌∷◌) a' (ap₂ (◌∷◌) b' (ap₂ (◌∷◌) c' (ap (λ x. x ∷ []) d')))))

pub status_roundtrip :
    (s : Config) (status size : ℕ)
    → status < 2
    → 1 ≤ size
    → (get_auth_status (set_status s 3 status) size ≡ some (status ∷ []))
      × (get_spoofing_status (set_status s 3 status) size ≡ get_spoofing_status s size)
      × (get_spoofing_status (set_status s 4 status) size ≡ some (status ∷ []))
      × (get_auth_status (set_status s 4 status) size ≡ get_auth_status s size)
unfolding get_auth_status get_spoofing_status set_status set_auth_status set_sniff_status
    bool_to_bytes
status_roundtrip s status size h room = (ground arith, refl, ground arith, refl)

-- A number that is not 0 has a byte that is not 0.
pub four_bytes_to_num_pos :
    (a b c d : ℕ) → 0 < four_bytes_to_num a b c d → (a + b + c + d == 0) ≡ false
unfolding four_bytes_to_num
four_bytes_to_num_pos a b c d h = ground arith
