-- ===== src/Config/Edit.antt =====
-- `edit_user` on the list of the names and passwords in use.
use mathlib.Core.List.{Mem, mem-cons, not-mem-nil}
use mathlib.Core.Logic.Or
use mathlib.Core.HLevel.{⊥_prop}
use tp_socks5_proxy.Base.{
  ℕ, suc, ◌<◌, ◌≡◌, ◌≢◌, refl, sym, ap, subst, ◌∙◌, ◌⊎◌, inl, inr, false, none, some, List, [], ◌∷◌,
  ◌++◌, Bytes, if◌then◌else◌, ◌==◌, leb, length, get_elem?, IsText, Bool-cases, arith,
}
use tp_socks5_proxy.Buffer.{pos, negsuc}
use tp_socks5_proxy.Config.{
  User, Config, is_string, set_user, get_user_loop, edit_at, edit_user, max_username_size,
}
use tp_socks5_proxy.Config.Table.{
  Spells, Entry, Table, used, IsTable, same_text, is_string-same, is_string-other, strcpy-Spells,
}

-- The first user of the name, and what the table is when that one is changed.
record Found (user : Bytes) (us : List User) (t : List Entry) : Type 0 where
  pub before : List Entry
  pub after : List Entry
  pub pass : Bytes
  pub split : t ≡ before ++ ((user, pass) ∷ after)
  pub slot : User
  pub found : get_user_loop us (length t) user ≡ some (some (length before))
  pub at : get_elem? us (length before) ≡ some slot
  pub named : Spells slot.name user
  pub known : Spells slot.pass pass
  pub change :
      (v : User) (e : Entry)
      → Spells v.name e.0
      → Spells v.pass e.1
      → (us' : List User) × (set_user us (length before) v ≡ some us')
        × Table us' (before ++ (e ∷ after))
        × (length us' ≡ length us)

abbrev Search : Bytes → List User → List Entry → Type 0
Search user us t =
    Found user us t
    ⊎ ((get_user_loop us (length t) user ≡ some none) × ((p : Bytes) → ¬ Mem (user, p) t))

first-Found :
    (u : User) (us : List User) (n p : Bytes) (t : List Entry)
    → Spells u.name n
    → Spells u.pass p
    → Table us t
    → Found n (u ∷ us) ((n, p) ∷ t)
unfolding get_user_loop set_user
first-Found u us n p t named known tb = record {
  before = [];
  after = t;
  pass = p;
  split = refl;
  slot = u;
  found = rw (is_string-same named) refl;
  at = refl;
  named = named;
  known = known;
  change = λ v e a b. (v ∷ us, refl, used a b tb, refl);
}

later-Found :
    (u : User) (us : List User) (e : Entry) (t : List Entry) (user : Bytes)
    → Spells u.name e.0
    → Spells u.pass e.1
    → is_string u.name user ≡ some false
    → Found user us t
    → Found user (u ∷ us) (e ∷ t)
unfolding get_user_loop set_user
later-Found u us e t user named known miss f = record {
  before = e ∷ f.before;
  after = f.after;
  pass = f.pass;
  split = ap (◌∷◌ e) f.split;
  slot = f.slot;
  found = rw (miss, f.found) refl;
  at = f.at;
  named = f.named;
  known = f.known;
  change = λ v x a b.
      let (us', set, tb, k) = f.change v x a b in
      (u ∷ us', rw set refl, used named known tb, ap suc k);
}

search :
    (us : List User) (t : List Entry) (user : Bytes) → Table us t → IsText user → Search user us t
unfolding get_user_loop
search us [] user tb a = inr (refl, λ p. not-mem-nil)
search [] (e ∷ t) user tb a = elim tb [ ]
search (u ∷ us) (e ∷ t) user (used named known tb) a = elim (same_text e.0 user) [
  | yes same ↦
      inl (subst (λ n. Found n (u ∷ us) (e ∷ t)) same (first-Found u us e.0 e.1 t named known tb))
  | no ne ↦
      later_search u us e t user named known (is_string-other user named a ne) ne
        (search us t user tb a)
]
  where
    later_search :
        (u : User) (us : List User) (e : Entry) (t : List Entry) (user : Bytes)
        → Spells u.name e.0
        → Spells u.pass e.1
        → is_string u.name user ≡ some false
        → e.0 ≢ user
        → Search user us t
        → Search user (u ∷ us) (e ∷ t)
    later_search u us e t user named known miss ne (inl f) =
        inl (later-Found u us e t user named known miss f)
    later_search u us e t user named known miss ne (inr (r, n)) = inr (
      rw (miss, r) refl,
      λ q m. Or.elim ⊥_prop (mem-cons.0 m) (λ s. ne (sym (ap (λ x. x.0) s))) (n q),
    )

-- The entry with its name or its password replaced.
abbrev pub edited : ℕ → Bytes → Entry → Entry
edited attr value e = if attr == 0x00 then (value, e.1) else (e.0, value)

abbrev Edit : Config → List Entry → Bytes → Bytes → ℕ → Type 0
Edit c t user value attr =
    ((c' : Config) × (pass : Bytes) × (pre : List Entry) × (post : List Entry) × (t
        ≡ pre ++ ((user, pass) ∷ post))
      × (edit_user c user value attr ≡ some (pos 0, c'))
      × IsTable c' (pre ++ (edited attr value (user, pass) ∷ post)))
    ⊎ ((edit_user c user value attr ≡ some (negsuc 0, c)) × ((p : Bytes) → ¬ Mem (user, p) t))

same_size :
    (pre : List Entry) (x y : Entry) (post : List Entry)
    → length (pre ++ (x ∷ post)) ≡ length (pre ++ (y ∷ post))
same_size [] x y post = refl
same_size (e ∷ pre) x y post = ap suc (same_size pre x y post)

edit-Found :
    (c : Config) (t : List Entry) (user value : Bytes) (attr : ℕ)
    → IsTable c t
    → IsText value
    → length value < max_username_size
    → (f : Found user c.users t)
    → (c' : Config) × (edit_at c value attr (some (length f.before)) ≡ some (pos 0, c'))
      × IsTable c' (f.before ++ (edited attr value (user, f.pass) ∷ f.after))
unfolding edit_at
edit-Found c t user value attr h a fits f =
    let count : c.users_size ≡ length (f.before ++ (edited attr value (user, f.pass) ∷ f.after)) =
      h.size ∙ ap length f.split ∙ same_size f.before (user, f.pass) _ f.after in
    let checked : leb max_username_size (length value) ≡ false = ground arith in
    elim (Bool-cases (attr == 0x00)) [
      | inl is_name ↦
          let (name, copied, spelled) = strcpy-Spells f.slot.name value f.named.size a fits in
          let (us, set, tb, k) =
            f.change (record (f.slot) { name = name }) (value, f.pass) spelled f.known in
          (
            record c { users = us },
            rw (checked, f.at, is_name, copied, set) refl,
            record { table = rw is_name tb; size = count; array = k ∙ h.array },
          )
      | inr is_pass ↦
          let (word, copied, spelled) = strcpy-Spells f.slot.pass value f.known.size a fits in
          let (us, set, tb, k) =
            f.change (record (f.slot) { pass = word }) (user, value) f.named spelled in
          (
            record c { users = us },
            rw (checked, f.at, is_pass, copied, set) refl,
            record { table = rw is_pass tb; size = count; array = k ∙ h.array },
          )
    ]

edit_at-found :
    (c : Config) (t : List Entry) (user value : Bytes) (attr : ℕ)
    → IsTable c t
    → IsText value
    → length value < max_username_size
    → Search user c.users t
    → Edit c t user value attr
unfolding edit_user
edit_at-found c t user value attr h b fits (inl f) =
    let (c', run, tb) = edit-Found c t user value attr h b fits f in
    let found = ap (λ n. get_user_loop c.users n user) h.size ∙ f.found in
    inl (c', f.pass, f.before, f.after, f.split, rw found run, tb)
edit_at-found c t user value attr h b fits (inr (r, n)) =
    inr (rw (ap (λ n. get_user_loop c.users n user) h.size ∙ r) refl, n)

pub edit_user_lem :
    (c : Config) (t : List Entry) (user value : Bytes) (attr : ℕ)
    → IsTable c t
    → IsText user
    → IsText value
    → length value < max_username_size
    → Edit c t user value attr
edit_user_lem c t user value attr h a b fits =
    edit_at-found c t user value attr h b fits (search c.users t user h.table a)
