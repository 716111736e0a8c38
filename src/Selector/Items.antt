-- ===== src/Selector/Items.antt =====
-- The table of items by place, and what it has to do with the sets and the highest descriptor.
use tp_socks5_proxy.Base.{
  ℕ, zero, suc, ◌≤◌, ◌<◌, ◌≡◌, ◌≢◌, refl, ap, Bool, false, Option, none, some, List, [], ◌∷◌, ◌++◌,
  ◌>>=◌, length, get_elem?, replicate, arith,
}
use tp_socks5_proxy.Selector.{Item, Selector, FdSet, fd_put, wants_read, wants_write, set_item}

module _ {D : Type 0} where
  -- The item at a place, none outside of the table.
  abbrev pub item_at : List (Option (Item D)) → ℕ → Option (Item D)
  item_at xs i = get_elem? xs i >>= λ x. x

  -- What the rest of the selector says of the item at a place.
  abbrev pub Agrees : Selector D → ℕ → Option (Item D) → Type 0
  Agrees s i none = (s.master_r i ≡ false) × (s.master_w i ≡ false)
  Agrees s i (some it) =
      (it.fd ≡ i)
      × (i ≤ s.max_fd)
      × (s.master_r i ≡ wants_read it.interest)
      × (s.master_w i ≡ wants_write it.interest)

  pub record IsSelector (s : Selector D) : Type 0 where
    pub size : length s.fds ≡ s.fd_size
    pub top : s.max_fd < s.fd_size
    pub agrees : (i : ℕ) → Agrees s i (item_at s.fds i)

  pub set_item_lem :
      (xs : List (Option (Item D))) (i : ℕ) (v : Option (Item D))
      → i < length xs
      → (ys : List (Option (Item D))) × (set_item xs i v ≡ some ys)
        × (length ys ≡ length xs)
        × (item_at ys i ≡ v)
        × ((j : ℕ) → j ≢ i → item_at ys j ≡ item_at xs j)
  unfolding set_item
  set_item_lem [] i v l = absurd (omega arith)
  set_item_lem (x ∷ xs) zero v l = (v ∷ xs, refl, refl, refl, other)
    where
      other : (j : ℕ) → j ≢ 0 → item_at (v ∷ xs) j ≡ item_at (x ∷ xs) j
      other zero ne = absurd (ne refl)
      other (suc j) ne = refl
  set_item_lem (x ∷ xs) (suc i) v l =
      let (ys, e, k, here, other) = set_item_lem xs i v (omega arith) in
      (x ∷ ys, rw e refl, ap suc k, here, shifted i ys other)
    where
      shifted :
          (i : ℕ) (ys : List (Option (Item D)))
          → ((j : ℕ) → j ≢ i → item_at ys j ≡ item_at xs j)
          → (j : ℕ) → j ≢ suc i
          → item_at (x ∷ ys) j ≡ item_at (x ∷ xs) j
      shifted i ys other zero ne = refl
      shifted i ys other (suc j) ne = other j (λ e. ne (ap suc e))

  -- Items that are not in use, behind the table, change no place.
  pub item_at-grown :
      (xs : List (Option (Item D))) (k j : ℕ) → item_at (xs ++ replicate k none) j ≡ item_at xs j
  item_at-grown [] zero j = refl
  item_at-grown [] (suc k) zero = refl
  item_at-grown [] (suc k) (suc j) = item_at-grown [] k j
  item_at-grown (x ∷ xs) k zero = refl
  item_at-grown (x ∷ xs) k (suc j) = item_at-grown xs k j

  -- In the table, a place is read as it is.
  pub get_elem?-item_at :
      (xs : List (Option (Item D))) (i : ℕ) → i < length xs → get_elem? xs i ≡ some (item_at xs i)
  get_elem?-item_at [] i l = absurd (omega arith)
  get_elem?-item_at (x ∷ xs) zero l = refl
  get_elem?-item_at (x ∷ xs) (suc i) l = get_elem?-item_at xs i (omega arith)

pub fd_put-same : (fd : ℕ) (b : Bool) (s : FdSet) → fd_put fd b s fd ≡ b
fd_put-same fd b s = ground arith

pub fd_put-other : (fd i : ℕ) (b : Bool) (s : FdSet) → i ≢ fd → fd_put fd b s i ≡ s i
fd_put-other fd i b s ne = ground arith
