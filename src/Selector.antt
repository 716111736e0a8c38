-- ===== src/Selector.antt =====
-- src/selector.c and include/selector.h: the multiplexer of file descriptors, a table of items with
-- the sets that select(2) is given.
--
-- What the user of the selector gives, the handlers with their data, is a parameter `D`; an `fd_set` is
-- a function into the truth values, of which select reads those below FD_SETSIZE = 1024. Memory is
-- taken to suffice. A descriptor is a number, and the selector and the handlers are given: the tests
-- for a negative descriptor and for NULL have no counterpart, nor have the assertions on sizes.
pub mod Items
pub mod Growth
pub mod Put
pub mod Register
pub mod Highest
pub mod Unregister
pub mod Reach
mod Tests
use tp_socks5_proxy.Base.{
  ℕ, zero, suc, ◌+◌, ◌-◌, ◌*◌, ◌/◌, ◌%◌, ◌^◌, Bool, true, false, not, ◌&&◌, Option, none, some,
  List, [], ◌∷◌, ◌++◌, if◌then◌else◌, ◌>>=◌, ◌==◌, ltb, leb, max, length, get_elem?, replicate,
}

-- `FD_SETSIZE`.
abbrev pub items_max_size : ℕ
items_max_size = 1024

-- `selector_status`.
pub data Status : Type 0 where
  success enomem maxfd iargs fdinuse io : Status

-- `fd_interest`: the bits 1 and 4.
abbrev pub op_noop : ℕ
op_noop = 0

abbrev pub wants_read : ℕ → Bool
wants_read i = i % 2 == 1

abbrev pub wants_write : ℕ → Bool
wants_write i = (i / 4) % 2 == 1

-- `struct item` in use, its handler a part of its data; one that is not in use is `none`.
pub record Item (D : Type 0) : Type 0 where
  pub fd : ℕ
  pub interest : ℕ
  pub data_of : D

abbrev pub FdSet : Type 0
FdSet = ℕ → Bool

-- `FD_CLR` and `FD_SET`.
abbrev pub fd_put : ℕ → Bool → FdSet → FdSet
fd_put fd b s i = if i == fd then b else s i

-- `struct fdselector`, without its timeouts and threads.
pub record Selector (D : Type 0) : Type 0 where
  pub fds : List (Option (Item D))
  pub fd_size : ℕ
  pub max_fd : ℕ
  pub master_r : FdSet
  pub master_w : FdSet

-- The count of bits of a number below 2 ^ fuel.
unfoldable pub bits_of : ℕ → ℕ → ℕ
bits_of zero tmp = 0
bits_of (suc f) tmp = let rest = bits_of f (tmp / 2) in if tmp == 0 then 0 else suc rest

-- `next_capacity`: a number has at most as many bits as it counts, which is the fuel.
unfoldable pub next_capacity : ℕ → ℕ
unfolding bits_of
next_capacity n =
    let tmp = 2 ^ bits_of n n in if ltb items_max_size tmp then suc items_max_size else suc tmp

module _ {D : Type 0} where
  -- `items_update_fdset_for_fd` for an item of this descriptor and interest.
  unfoldable pub items_update_fdset_for_fd : Selector D → ℕ → ℕ → Selector D
  items_update_fdset_for_fd s fd interest = record s {
    master_r = fd_put fd (wants_read interest) s.master_r;
    master_w = fd_put fd (wants_write interest) s.master_w;
  }

  -- `ensure_capacity`: the new items are not in use.
  unfoldable pub ensure_capacity : Selector D → ℕ → Status × Selector D
  ensure_capacity s n =
      if ltb n s.fd_size then (success, s) else if ltb items_max_size n then (maxfd, s) else (
        success,
        record s {
          fds = s.fds ++ replicate (next_capacity n - s.fd_size) none;
          fd_size = next_capacity n;
        },
      )

  -- The selector after `memset`.
  abbrev pub blank : Selector D
  blank = record { fds = []; fd_size = 0; max_fd = 0; master_r = λ i. false; master_w = λ i. false }

  -- `selector_new`; `none` is NULL.
  unfoldable pub selector_new : ℕ → Option (Selector D)
  selector_new n =
      let (status, s) = ensure_capacity blank n in elim status [ success ↦ some s | _ ↦ none ]

  -- `s->fds[i] = it`.
  unfoldable pub set_item :
      List (Option (Item D)) → ℕ → Option (Item D) → Option (List (Option (Item D)))
  set_item [] i it = none
  set_item (x ∷ xs) zero it = some (it ∷ xs)
  set_item (x ∷ xs) (suc i) it = set_item xs i it >>= λ ys. some (x ∷ ys)

  -- `selector_register` at an item: `s->fds + ufd` is outside of the table where it is `none`.
  unfoldable pub register_at : Selector D → ℕ → ℕ → D → Option (Status × Selector D)
  unfolding items_update_fdset_for_fd set_item
  register_at s fd interest data_of =
      let it : Item D = record { fd = fd; interest = interest; data_of = data_of } in
      get_elem? s.fds fd >>= λ old. elim old [
        | some _ ↦ some (fdinuse, s)
        | none ↦ set_item s.fds fd (some it) >>= λ xs. some (
          success,
          items_update_fdset_for_fd (record s { fds = xs; max_fd = max fd s.max_fd }) fd interest,
        )
      ]

  unfoldable pub selector_register : Selector D → ℕ → ℕ → D → Option (Status × Selector D)
  unfolding ensure_capacity register_at
  selector_register s fd interest data_of =
      if leb items_max_size fd
      then some (iargs, s)
      else if ltb s.fd_size fd
      then (let (status, s') = ensure_capacity s fd in
          elim status [ success ↦ register_at s' fd interest data_of | other ↦ some (other, s') ])
      else register_at s fd interest data_of

  -- The loop of `items_max_fd`, over the items from `i` on.
  pub max_loop : List (Option (Item D)) → ℕ → ℕ → ℕ → Option ℕ
  max_loop xs zero i m = some m
  max_loop xs (suc n) i m = do
    old ← get_elem? xs i
    let m' : ℕ = elim old [ none ↦ m | some it ↦ max it.fd m ]
    max_loop xs n (suc i) m'

  unfoldable pub items_max_fd : Selector D → Option ℕ
  unfolding max_loop
  items_max_fd s = max_loop s.fds (suc s.max_fd) 0 0

  -- `selector_unregister_fd`; with it, the item whose `handle_close` is called.
  unfoldable pub selector_unregister_fd :
      Selector D → ℕ → Option (Status × Option (Item D) × Selector D)
  unfolding items_max_fd items_update_fdset_for_fd set_item
  selector_unregister_fd s fd =
      if leb items_max_size fd
      then some (iargs, none, s)
      else (get_elem? s.fds fd >>= λ old. elim old [
        | none ↦ some (iargs, none, s)
        | some it ↦ set_item s.fds fd none >>= λ xs.
            let s' = items_update_fdset_for_fd (record s { fds = xs }) it.fd op_noop in
            items_max_fd s' >>= λ m. some (success, some it, record s' { max_fd = m })
      ])

  unfoldable pub selector_set_interest : Selector D → ℕ → ℕ → Option (Status × Selector D)
  unfolding items_update_fdset_for_fd set_item
  selector_set_interest s fd interest =
      if leb items_max_size fd
      then some (iargs, s)
      else (get_elem? s.fds fd >>= λ old. elim old [
        | none ↦ some (iargs, s)
        | some it ↦ set_item s.fds fd (some (record it { interest = interest })) >>= λ xs.
            some (success, items_update_fdset_for_fd (record s { fds = xs }) it.fd interest)
      ])
