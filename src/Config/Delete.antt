-- ===== src/Config/Delete.antt =====
-- `delete_user` on the list of the names and passwords in use, of which it forgets the order.
use mathlib.Core.List.Perm
use mathlib.Core.List.{Mem, mem-cons, not-mem-nil, Perm}
use mathlib.Core.Logic.Or
use mathlib.Core.HLevel.{⊥_prop}
use tp_socks5_proxy.Base.{
  ℕ, suc, ◌-◌, ◌≡◌, ◌≢◌, refl, sym, ap, subst, ◌∙◌, ◌⊎◌, inl, inr, Bool, true, false, Option, some,
  List, [], ◌∷◌, Bytes, ◌>>=◌, lt→ltb, length, get_elem?, IsText, arith,
}
use tp_socks5_proxy.Buffer.{pos, negsuc}
use tp_socks5_proxy.Config.{User, Config, is_string, delete_loop, delete_user}
use tp_socks5_proxy.Config.Table.{
  Spells, Entry, Table, free, used, IsTable, same_text, is_string-same, is_string-other,
  strcpy_array-Spells,
}

-- The last of a list that is not empty, and the others.
abbrev last_of : Entry → List Entry → Entry
last_of e [] = e
last_of e (x ∷ t) = last_of x t

abbrev butlast : Entry → List Entry → List Entry
butlast e [] = []
butlast e (x ∷ t) = e ∷ butlast x t

length-butlast : (e : Entry) (t : List Entry) → length (butlast e t) ≡ length t
length-butlast e [] = refl
length-butlast e (x ∷ t) = ap suc (length-butlast x t)

last-Perm : (e : Entry) (t : List Entry) → Perm (e ∷ t) (last_of e t ∷ butlast e t)
last-Perm e [] = Perm.refl (e ∷ [])
last-Perm e (x ∷ t) =
    Perm.trans (Perm.cons e (last-Perm x t)) (Perm.swap (last_of x t) e (butlast x t))

-- Without its last entry, the table is one of fewer entries.
shrink : {us : List User} (e : Entry) (t : List Entry) → Table us (e ∷ t) → Table us (butlast e t)
shrink e [] (used n p tb) = free (n.size, p.size) tb
shrink e (x ∷ t) (used n p tb) = used n p (shrink x t tb)

-- The user `l` is the last one in use.
abbrev IsLast : User → List Entry → Type 0
IsLast l [] = Unit {0}
IsLast l (e ∷ t) = Spells l.name (last_of e t).0 × Spells l.pass (last_of e t).1

IsLast-tail : (l : User) (e : Entry) (t : List Entry) → IsLast l (e ∷ t) → IsLast l t
IsLast-tail l e [] h = tt
IsLast-tail l e (x ∷ t) h = h

IsLast-user :
    {us : List User} (e : Entry) (t : List Entry)
    → Table us (e ∷ t)
    → (l : User) × (get_elem? us (length t) ≡ some l) × IsLast l (e ∷ t)
IsLast-user e [] (used {u = u} n p tb) = (u, refl, (n, p))
IsLast-user e (x ∷ t) (used n p tb) = IsLast-user x t tb

-- The table after a deletion, and what was deleted from it.
pub record Deleted (user : Bytes) (t : List Entry) (k : ℕ) (us : List User) : Type 0 where
  pub pass : Bytes
  pub left : List Entry
  pub table : Table us left
  pub others : Perm t ((user, pass) ∷ left)
  pub size : length t ≡ suc (length left)
  pub array : length us ≡ k

abbrev Outcome : Bytes → List Entry → List User → Option (Bool × List User) → Type 0
Outcome user t us o =
    ((us' : List User) × (o ≡ some (true, us')) × Deleted user t (length us) us')
    ⊎ ((o ≡ some (false, us)) × ((p : Bytes) → ¬ Mem (user, p) t))

passed :
    {user : Bytes} {e : Entry} {t : List Entry} {u : User} {us : List User}
    {o o' : Option (Bool × List User)}
    → o' ≡ (o >>= λ (found, us'). some (found, u ∷ us'))
    → e.0 ≢ user
    → Spells u.name e.0
    → Spells u.pass e.1
    → Outcome user t us o
    → Outcome user (e ∷ t) (u ∷ us) o'
passed {user = user} {e = e} {u = u} s ne n p (inl (us', h, d)) = inl (
  u ∷ us',
  s ∙ ap (λ o. o >>= λ (found, us'). some (found, u ∷ us')) h,
  record {
    pass = d.pass;
    left = e ∷ d.left;
    table = used n p d.table;
    others = Perm.trans (Perm.cons e d.others) (Perm.swap (user, d.pass) e d.left);
    size = ap suc d.size;
    array = ap suc d.array;
  },
)
passed {u = u} s ne n p (inr (h, none_there)) = inr (
  s ∙ ap (λ o. o >>= λ (found, us'). some (found, u ∷ us')) h,
  λ q m. Or.elim ⊥_prop (mem-cons.0 m) (λ r. ne (sym (ap (λ x. x.0) r))) (none_there q),
)

found_here :
    (l : User) (us : List User) (e : Entry) (t : List Entry) (user : Bytes) (u : User)
    → Spells u.name e.0
    → Spells u.pass e.1
    → Table us t
    → IsLast l (e ∷ t)
    → is_string u.name user ≡ some true
    → e.0 ≡ user
    → Outcome user (e ∷ t) (u ∷ us) (delete_loop (some l) (u ∷ us) (suc (length t)) user)
unfolding delete_loop
found_here l us e [] user u n p tb h hit same = inl (
  u ∷ us,
  rw hit refl,
  record {
    pass = e.1;
    left = [];
    table = free (n.size, p.size) tb;
    others = subst (λ s. Perm (e ∷ []) ((s, e.1) ∷ [])) same (Perm.refl (e ∷ []));
    size = refl;
    array = refl;
  },
)
found_here l us e (x ∷ t) user u n p tb h hit same =
    let (name, copied, named) = strcpy_array-Spells u.name h.0 n.size in
    let (pass, copied', passed') = strcpy_array-Spells u.pass h.1 p.size in
    let rest = last_of x t ∷ butlast x t in
    inl (
      record { name = name; pass = pass } ∷ us,
      rw (hit, lt→ltb 0 (suc (length t)) (omega arith), copied, copied') refl,
      record {
        pass = e.1;
        left = rest;
        table = used named passed' (shrink x t tb);
        others = subst (λ s. Perm (e ∷ x ∷ t) ((s, e.1) ∷ rest)) same (Perm.cons e (last-Perm x t));
        size = ap suc (ap suc (sym (length-butlast x t)));
        array = refl;
      },
    )

delete_loop-Outcome :
    (l : User) (us : List User) (t : List Entry) (user : Bytes)
    → Table us t
    → IsText user
    → IsLast l t
    → Outcome user t us (delete_loop (some l) us (length t) user)
unfolding delete_loop
delete_loop-Outcome l us [] user tb a h = inr (refl, λ p. not-mem-nil)
delete_loop-Outcome l [] (e ∷ t) user tb a h = elim tb [ ]
delete_loop-Outcome l (u ∷ us) (e ∷ t) user (used n p tb) a h = elim (same_text e.0 user) [
  | yes same ↦
      found_here l us e t user u n p tb h
        (subst (λ s. is_string u.name s ≡ some true) same (is_string-same n)) same
  | no ne ↦
      passed (rw (is_string-other user n a ne) refl) ne n p
        (delete_loop-Outcome l us t user tb a (IsLast-tail l e t h))
]

abbrev Deletion : Config → Bytes → List Entry → Type 0
Deletion c user t =
    ((c' : Config) × (pass : Bytes) × (t' : List Entry) × (delete_user c user ≡ some (pos 0, c'))
      × IsTable c' t'
      × Perm t ((user, pass) ∷ t'))
    ⊎ ((delete_user c user ≡ some (negsuc 0, c)) × ((p : Bytes) → ¬ Mem (user, p) t))

delete_user-found :
    (c : Config) (t : List Entry) (user : Bytes)
    → IsTable c t
    → Outcome user t c.users
        (delete_loop (get_elem? c.users (c.users_size - 1)) c.users c.users_size user)
    → Deletion c user t
unfolding delete_user
delete_user-found c t user h (inl (us, o, d)) = inl (
  record c { users = us; users_size = c.users_size - 1 },
  d.pass,
  d.left,
  rw o refl,
  record { table = d.table; size = omega (arith, h.size, d.size); array = d.array ∙ h.array },
  d.others,
)
delete_user-found c t user h (inr (o, n)) = inr (rw o refl, n)

pub delete_user_lem :
    (c : Config) (t : List Entry) (user : Bytes) → IsTable c t → IsText user → Deletion c user t
unfolding delete_loop
delete_user_lem c [] user h a =
    delete_user-found c [] user h (rw (h.size) (inr (refl, λ p. not-mem-nil)))
delete_user_lem c (e ∷ t) user h a =
    let (l, at, last) = IsLast-user e t h.table in
    let place : c.users_size - 1 ≡ length t = omega (arith, h.size) in
    delete_user-found c (e ∷ t) user h
      (rw (place, at, h.size) (delete_loop-Outcome l c.users (e ∷ t) user h.table a last))
