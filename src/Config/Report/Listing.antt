-- ===== src/Config/Report/Listing.antt =====
-- The answer to the query for the users, over a table that holds a list of names and passwords.
use tp_socks5_proxy.Base.{
  ℕ, zero, suc, ◌+◌, ◌-◌, ◌*◌, ◌≤◌, ◌<◌, ◌≡◌, sym, ap, ◌∙◌, some, List, [], ◌∷◌, ◌++◌, append_assoc,
  append-nil, Bytes, lt→ltb, length, length-append, IsText, arith,
}
use tp_socks5_proxy.Config.{User, Config, max_username_size, max_socks_users}
use tp_socks5_proxy.Config.Table.{Spells, Entry, Table, free, used, end, IsTable}
use tp_socks5_proxy.Config.Report.{put_char, put_text, users_loop, get_users}

-- Each name, a space, the password and the end of the line.
abbrev pub listing : List Entry → Bytes
listing [] = []
listing ((n, p) ∷ t) = n ++ (b' ' ∷ (p ++ (b'\n' ∷ listing t)))

put_text_lem :
    (s post res : Bytes) (bound : ℕ)
    → IsText s
    → length res + length s ≤ bound
    → put_text bound (s ++ (0 ∷ post)) res ≡ some (res ++ s)
unfolding put_text
put_text_lem [] post res bound t l = ap some (sym (append-nil res))
put_text_lem (zero ∷ s) post res bound t l = absurd (omega arith)
put_text_lem (suc c ∷ s) post res bound t l = rw (lt→ltb (length res) bound (omega arith)) (
    put_text_lem s post (res ++ (suc c ∷ [])) bound t.1
      (omega (arith, length-append res (suc c ∷ [])))
    ∙ ap some (append_assoc res (suc c ∷ []) s))

spelled_lem :
    {a s : Bytes} (res : Bytes) (bound : ℕ)
    → Spells a s
    → length res + length s ≤ bound
    → put_text bound a res ≡ some (res ++ s)
spelled_lem {s = s} res bound h l =
    ap (λ a. put_text bound a res) h.layout ∙ put_text_lem s h.post res bound h.text l

put_char_lem :
    (size c : ℕ) (res : Bytes) → length res < size → put_char size c res ≡ some (res ++ (c ∷ []))
put_char_lem size c res l = rw (lt→ltb (length res) size l)

short : {a s : Bytes} → Spells a s → length s < max_username_size
short {s = s} h = omega (arith, h.size, ap length h.layout, length-append s (0 ∷ h.post))

length-line :
    (n p : Bytes) (rest : Bytes)
    → length (n ++ (b' ' ∷ (p ++ (b'\n' ∷ rest)))) ≡ length n + length p + 2 + length rest
length-line n p rest =
    omega (arith, length-append n (b' ' ∷ (p ++ (b'\n' ∷ rest))), length-append p (b'\n' ∷ rest))

length-listing : {us : List User} {t : List Entry} → Table us t → length (listing t) ≤ 20 * length t
length-listing end = omega arith
length-listing (free s tb) = omega arith
length-listing (used {e = e} {t = t} n p tb) =
    omega (arith, short n, short p, length-line e.0 e.1 (listing t), length-listing tb)

within : {us : List User} {t : List Entry} → Table us t → length t ≤ length us
within end = omega arith
within (free s tb) = omega arith
within (used n p tb) = omega (arith, within tb)

line_assoc :
    (res n p rest : Bytes)
    → ((((res ++ n) ++ (b' ' ∷ [])) ++ p) ++ (b'\n' ∷ [])) ++ rest
      ≡ res ++ (n ++ (b' ' ∷ (p ++ (b'\n' ∷ rest))))
line_assoc res n p rest = simp append_assoc

users_loop_lem :
    {us : List User} {t : List Entry} (size : ℕ) (res : Bytes)
    → Table us t
    → length res + length (listing t) < size
    → users_loop size us (length t) res ≡ some (res ++ listing t)
unfolding users_loop
users_loop_lem size res end l = ap some (sym (append-nil res))
users_loop_lem size res (free s tb) l = ap some (sym (append-nil res))
users_loop_lem size res (used {e = e} {t = t} named known tb) l =
    let (n, p) = e in
    let many = length-line n p (listing t) in
    let a = res ++ n in
    let b = a ++ (b' ' ∷ []) in
    let c = b ++ p in
    let d = c ++ (b'\n' ∷ []) in
    let la = length-append res n in
    let lb = length-append a (b' ' ∷ []) in
    let lc = length-append b p in
    let ld = length-append c (b'\n' ∷ []) in
    rw
      (
        spelled_lem res (size - 3) named (omega arith),
        put_char_lem size b' ' a (omega arith),
        spelled_lem b (size - 2) known (omega arith),
        put_char_lem size b'\n' c (omega arith),
      )
      (users_loop_lem size d tb (omega arith) ∙ ap some (line_assoc res n p (listing t)))

-- Over a table that holds a list of names and passwords, get_users with room for at least 201
-- bytes gives a line for each of them, in order, and a NUL, 201 bytes at most.
pub get_users-listing :
    (c : Config) (t : List Entry) (size : ℕ)
    → IsTable c t
    → 201 ≤ size
    → (get_users c size ≡ some (listing t ++ (0 ∷ []))) × (length (listing t ++ (0 ∷ [])) ≤ 201)
unfolding get_users
get_users-listing c t size h enough =
    let few : length t ≤ max_socks_users = omega (arith, h.array, within h.table) in
    let small = length-listing h.table in
    let run =
      ap (λ n. users_loop size c.users n []) h.size
      ∙ users_loop_lem size [] h.table (omega arith) in
    (
      rw run (put_char_lem size 0 (listing t) (omega arith)),
      omega (arith, length-append (listing t) (0 ∷ [])),
    )
