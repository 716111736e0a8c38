-- ===== src/Config/Table.antt =====
-- The table of users against the list of the names and passwords that it stands for.
use native.Mathlib.Decide.{ℕ_discrete, dec_lt}
use mathlib.Core.List.{List-discrete}
use tp_socks5_proxy.Base.{
  ℕ, zero, suc, ◌+◌, ◌≤◌, ◌<◌, ◌≡◌, ◌≢◌, refl, ap, ap₂, ◌∙◌, true, false, none, some, List, [], ◌∷◌,
  ◌++◌, Bytes, length, length-append, drop, length-drop, take, take-append, append_assoc, blit,
  blit_front, store_inside, store_outside, strlen, strlen-append, IsText, arith,
}
use tp_socks5_proxy.Config.{
  User, Config, is_string, strcpy, strcpy_array, max_username_size, max_socks_users,
}

-- An array of the table that holds a C string.
pub record Spells (a s : Bytes) : Type 0 where
  pub post : Bytes
  pub layout : a ≡ s ++ (0 ∷ post)
  pub text : IsText s
  pub size : length a ≡ max_username_size

-- A name and a password.
abbrev pub Entry : Type 0
Entry = Bytes × Bytes

-- The arrays of a user that is not in use.
abbrev pub IsSlot : User → Type 0
IsSlot u = (length u.name ≡ max_username_size) × (length u.pass ≡ max_username_size)

pub data Table : List User → List Entry → Type 0 where
  end : Table [] []
  free : {u : User} {us : List User} → IsSlot u → Table us [] → Table (u ∷ us) []
  used :
      {u : User} {us : List User} {e : Entry} {t : List Entry}
      → Spells u.name e.0
      → Spells u.pass e.1
      → Table us t
      → Table (u ∷ us) (e ∷ t)

-- The configuration's table holds these entries.
pub record IsTable (c : Config) (t : List Entry) : Type 0 where
  pub table : Table c.users t
  pub size : c.users_size ≡ length t
  pub array : length c.users ≡ max_socks_users

abbrev pub same_text : (s s' : Bytes) → Dec (s ≡ s')
same_text = List-discrete ℕ_discrete

pub same_string : (s post : Bytes) → IsText s → is_string (s ++ (0 ∷ post)) s ≡ some true
unfolding is_string
same_string [] post t = refl
same_string (zero ∷ s) post t = absurd (omega arith)
same_string (suc c ∷ s) post t = ground (arith, same_string s post t.1)

pub other_string :
    (s post s' : Bytes)
    → IsText s
    → IsText s'
    → s ≢ s'
    → is_string (s ++ (0 ∷ post)) s' ≡ some false
unfolding is_string
other_string [] post [] t t' ne = absurd (ne refl)
other_string [] post (c ∷ s') t t' ne = refl
other_string (zero ∷ s) post s' t t' ne = absurd (omega arith)
other_string (suc c ∷ s) post [] t t' ne = refl
other_string (suc c ∷ s) post (x ∷ s') t t' ne = elim (ℕ_discrete (suc c) x) [
  | yes e ↦ ground (arith, other_string s post s' t.1 t'.1 (λ q. ne (ap₂ (◌∷◌) e q)))
  | no n ↦ ground arith
]

pub is_string-same : {a s : Bytes} → Spells a s → is_string a s ≡ some true
is_string-same {s = s} h = rw (h.layout) (same_string s h.post h.text)

pub is_string-other :
    {a s : Bytes} (s' : Bytes) → Spells a s → IsText s' → s ≢ s' → is_string a s' ≡ some false
is_string-other {s = s} s' h t ne = rw (h.layout) (other_string s h.post s' h.text t ne)

-- A text that fits into its array is stored there.
pub strcpy-Spells :
    (a s : Bytes)
    → length a ≡ max_username_size
    → IsText s
    → length s < max_username_size
    → (a' : Bytes) × (strcpy a s ≡ some a') × Spells a' s
strcpy-Spells a s l t fits =
    let new = s ++ (0 ∷ []) in
    let many : length new ≡ length s + 1 = length-append s (0 ∷ []) in
    let rest = drop (length new) a in
    (
      s ++ (0 ∷ rest),
      blit_front new a (omega arith) ∙ ap some (append_assoc s (0 ∷ []) rest),
      record {
        post = rest;
        layout = refl;
        text = t;
        size = omega (arith, length-append s (0 ∷ rest), length-drop (length new) a);
      },
    )

blit_overruns :
    (a : Bytes) (k : ℕ) (vs : Bytes) → k ≤ length a → length a < k + length vs → blit a k vs ≡ none
blit_overruns a k [] h l = absurd (omega arith)
blit_overruns a k (v ∷ vs) h l = elim (dec_lt k (length a)) [
  | yes i ↦
      let (a', e, same) = store_inside a k v i in
      rw e (blit_overruns a' (suc k) vs (omega (arith, same)) (omega (arith, same)))
  | no n ↦ rw (store_outside a k v (omega arith)) refl
]

pub strcpy_overruns : (a s : Bytes) → length a ≤ length s → strcpy a s ≡ none
strcpy_overruns a s l =
    blit_overruns a 0 (s ++ (0 ∷ [])) (omega arith) (omega (arith, length-append s (0 ∷ [])))

pub strcpy_array-Spells :
    {from s : Bytes} (a : Bytes)
    → Spells from s
    → length a ≡ max_username_size
    → (a' : Bytes) × (strcpy_array a from ≡ some a') × Spells a' s
strcpy_array-Spells {from} {s} a h l =
    let whole = ap length h.layout ∙ length-append s (0 ∷ h.post) in
    let (a', copied, spelled) = strcpy-Spells a s l h.text (omega (arith, h.size)) in
    let counted : strlen from ≡ some (length s) =
      ap strlen h.layout ∙ strlen-append s h.post h.text in
    let cut : take (length s) from ≡ s =
      ap (take (length s)) h.layout ∙ take-append s (0 ∷ h.post) (length s) refl in
    (a', rw (counted, cut) copied, spelled)
