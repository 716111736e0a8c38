-- ===== src/Config/Users.antt =====
-- `checkUser` and `add_user` on the list of the names and passwords in use.
use mathlib.Core.List.{Mem, mem-cons, mem-cons_of_mem, mem-cons_self, not-mem-nil}
use mathlib.Core.Logic.Or
use mathlib.Core.HLevel.{⊥_prop}
use tp_socks5_proxy.Base.{
  suc, ◌+◌, ◌≤◌, ◌<◌, ◌≡◌, ◌≢◌, refl, sym, ap, ap₂, subst, ◌∙◌, ◌⊎◌, inl, inr, Bool, true, false,
  Option, none, some, List, [], ◌∷◌, ◌++◌, Bytes, length, get_elem?, length-append, IsText, arith,
}
use tp_socks5_proxy.Buffer.{pos, negsuc}
use tp_socks5_proxy.Config.{
  User, Config, is_string, check_loop, check_user, set_user, add_user, add_entry, max_username_size,
  max_socks_users,
}
use tp_socks5_proxy.Config.Table.{
  Spells, Entry, IsSlot, Table, end, free, used, IsTable, same_text, is_string-same,
  is_string-other, strcpy-Spells, strcpy_overruns,
}

-- Whether a user is known, and the answer.
abbrev pub Answers : Option Bool → Entry → List Entry → Type 0
Answers o e t = ((o ≡ some true) × Mem e t) ⊎ ((o ≡ some false) × ¬ Mem e t)

not_first : {e x : Entry} {t : List Entry} → e ≢ x → ¬ Mem e t → ¬ Mem e (x ∷ t)
not_first ne n h = Or.elim ⊥_prop (mem-cons.0 h) ne n

later :
    {o o' : Option Bool} {e x : Entry} {t : List Entry}
    → o' ≡ o
    → e ≢ x
    → Answers o e t
    → Answers o' e (x ∷ t)
later s ne (inl (a, m)) = inl (s ∙ a, mem-cons_of_mem _ m)
later s ne (inr (a, n)) = inr (s ∙ a, not_first ne n)

check_loop-Answers :
    (us : List User) (t : List Entry) (user pass : Bytes)
    → Table us t
    → IsText user
    → IsText pass
    → Answers (check_loop us (length t) user pass) (user, pass) t
unfolding check_loop
check_loop-Answers us [] user pass tb a b = inr (refl, not-mem-nil)
check_loop-Answers [] (e ∷ t) user pass tb a b = elim tb [ ]
check_loop-Answers (u ∷ us) ((n, p) ∷ t) user pass (used named known tb) a b =
    let rest = check_loop-Answers us t user pass tb a b in
    elim (same_text n user) [
      | yes e ↦
          let hit = subst (λ s. is_string u.name s ≡ some true) e (is_string-same named) in
          elim (same_text p pass) [
            | yes f ↦ inl (
              rw (hit, subst (λ s. is_string u.pass s ≡ some true) f (is_string-same known)) refl,
              subst (λ x. Mem x ((n, p) ∷ t)) (ap₂ (λ x y. (x, y)) e f) mem-cons_self,
            )
            | no g ↦
                later (rw (hit, is_string-other pass known b g) refl)
                  (λ q. g (sym (ap (λ x. x.1) q))) rest
          ]
      | no g ↦
          later (rw (is_string-other user named a g) refl) (λ q. g (sym (ap (λ x. x.0) q))) rest
    ]

pub check_user-Answers :
    (c : Config) (t : List Entry) (user pass : Bytes)
    → IsTable c t
    → IsText user
    → IsText pass
    → Answers (check_user c user pass) (user, pass) t
unfolding check_user
check_user-Answers c t user pass h a b =
    subst (λ n. Answers (check_loop c.users n user pass) (user, pass) t) (sym h.size)
      (check_loop-Answers c.users t user pass h.table a b)

-- The slot behind the users in use, and what the table is when it is taken.
abbrev Taken : List User → List Entry → User → User → Entry → Type 0
Taken us t u v e =
    (us' : List User) × (set_user us (length t) v ≡ some us')
    × Table us' (t ++ (e ∷ []))
    × (length us' ≡ length us)

next-IsSlot :
    {us : List User} {t : List Entry}
    → Table us t
    → length t < length us
    → (u : User) × (get_elem? us (length t) ≡ some u)
      × IsSlot u
      × ((v : User) (e : Entry) → Spells v.name e.0 → Spells v.pass e.1 → Taken us t u v e)
unfolding set_user
next-IsSlot end l = absurd (omega arith)
next-IsSlot (free {u = u} {us = us} s tb) l =
    (u, refl, s, λ v e n p. (v ∷ us, refl, used n p tb, refl))
next-IsSlot (used {u = w} {us = us} {e = x} {t = t} n p tb) l =
    let (u, at, s, take_it) = next-IsSlot tb (omega arith) in
    (
      u,
      at,
      s,
      λ v e n' p'.
          let (us', set, tb', k) = take_it v e n' p' in
          (w ∷ us', rw set refl, used n p tb', ap suc k),
    )

added :
    (c : Config) (user pass : Bytes)
    → c.users_size + 1 < max_socks_users
    → length user ≤ max_username_size
    → add_user c user pass ≡ add_entry c user pass
unfolding add_user
added c user pass room l = ground arith

pub add_user_lem :
    (c : Config) (t : List Entry) (user pass : Bytes)
    → IsTable c t
    → IsText user
    → IsText pass
    → length user < max_username_size
    → length pass < max_username_size
    → length t + 1 < max_socks_users
    → (c' : Config) × (add_user c user pass ≡ some (pos 0, c'))
      × IsTable c' (t ++ ((user, pass) ∷ []))
unfolding add_entry
add_user_lem c t user pass h a b l l' room =
    let (u, at, s, take_it) = next-IsSlot h.table (omega (arith, h.array)) in
    let (name, copied, named) = strcpy-Spells u.name user s.0 a l in
    let (word, copied', known) = strcpy-Spells u.pass pass s.1 b l' in
    let (us, set, tb, k) = take_it (record { name = name; pass = word }) (user, pass) named known in
    (
      record c { users = us; users_size = c.users_size + 1 },
      added c user pass (omega (arith, h.size)) (omega arith)
          ∙ rw (h.size, at, copied, copied', set) refl,
      record {
        table = tb;
        size = omega (arith, h.size, length-append t ((user, pass) ∷ []));
        array = k ∙ h.array;
      },
    )

-- A table of nine users, or a name of more than ten bytes, is left as it is.
pub add_user_refuses :
    (c : Config) (t : List Entry) (user pass : Bytes)
    → IsTable c t
    → (max_socks_users ≤ length t + 1) ⊎ (max_username_size < length user)
    → add_user c user pass ≡ some (negsuc 0, c)
unfolding add_user
add_user_refuses c t user pass h w = ground (arith, h.size)

-- A name of ten bytes passes the check and does not fit.
pub add_user_overrun :
    (c : Config) (t : List Entry) (user pass : Bytes)
    → IsTable c t
    → length user ≡ max_username_size
    → length t + 1 < max_socks_users
    → add_user c user pass ≡ none
unfolding add_entry
add_user_overrun c t user pass h l room =
    let (u, at, s, take_it) = next-IsSlot h.table (omega (arith, h.array)) in
    added c user pass (omega (arith, h.size)) (omega arith)
    ∙ rw (h.size, at, strcpy_overruns u.name user (omega (arith, s.0))) refl
