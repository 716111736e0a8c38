-- ===== src/Listgeneric.antt =====
-- src/listgeneric.c and include/listgeneric.h: a list with an iterator. Nodes are taken to be allocated;
-- the iterator's node is the list from there on.
use tp_socks5_proxy.Base.{ℕ, suc, Bool, true, false, Option, none, some, List, [], ◌∷◌}

-- `struct listCDT`, without the function that frees the elements.
pub record ListCdt (A : Type 0) : Type 0 where
  pub first : List A
  pub iterador_next : List A
  pub size : ℕ

module _ {A : Type 0} where
  unfoldable pub new_list : ListCdt A
  new_list = record { first = []; iterador_next = []; size = 0 }

  -- `insert`: in front, and the iterator stays.
  unfoldable pub insert : A → ListCdt A → ListCdt A
  insert x l = record l { first = x ∷ l.first; size = suc l.size }

  unfoldable pub list_to_begin : ListCdt A → ListCdt A
  list_to_begin l = record l { iterador_next = l.first }

  unfoldable pub list_has_next : ListCdt A → Bool
  list_has_next l = elim l.iterador_next [ [] ↦ false | _ ∷ _ ↦ true ]

  -- `listNext`: NULL where no element is left.
  unfoldable pub list_next : ListCdt A → Option A × ListCdt A
  list_next l = elim l.iterador_next [
    | [] ↦ (none, l)
    | x ∷ xs ↦ (some x, record l { iterador_next = xs })
  ]
