-- ===== src/Selector/Tests.antt =====
-- A selector of two places, and the theorems at it.
use tp_socks5_proxy.Base.{ℕ, ◌≡◌, refl, none, some, [], ◌∷◌, arith}
use tp_socks5_proxy.Selector.{
  Item, Selector, success, blank, selector_new, ensure_capacity, next_capacity, bits_of,
  selector_register, register_at, set_item, items_update_fdset_for_fd, selector_unregister_fd,
}
use tp_socks5_proxy.Selector.Items.{IsSelector}
use tp_socks5_proxy.Selector.Reach.{made, registered, Reach-IsSelector}
use tp_socks5_proxy.Selector.Register.{Registered, selector_register_lem, selector_register_overrun}
use tp_socks5_proxy.Selector.Unregister.{Removed, selector_unregister_fd_lem}

abbrev two : Selector ℕ
two = record blank { fds = none ∷ none ∷ []; fd_size = 2 }

new-two : selector_new {D = ℕ} 0 ≡ some two
unfolding selector_new ensure_capacity next_capacity bits_of
new-two = refl

abbrev item : ℕ → Item ℕ
item fd = record { fd = fd; interest = 1; data_of = 7 }

two-IsSelector : IsSelector two
two-IsSelector = Reach-IsSelector (made 0 (omega arith) new-two)

-- The descriptor 1 registered for reading.
abbrev one : Selector ℕ
one = items_update_fdset_for_fd (record two { fds = none ∷ some (item 1) ∷ []; max_fd = 1 }) 1 1

register-two : selector_register two 1 1 7 ≡ some (success, one)
unfolding selector_register register_at set_item
register-two = refl

register-grown :
    (s : Selector ℕ) × (selector_register two 5 1 7 ≡ some (success, s)) × (s.fd_size ≡ 9)
unfolding selector_register register_at set_item ensure_capacity next_capacity bits_of
    items_update_fdset_for_fd
register-grown = (_, refl, refl)

one-IsSelector : IsSelector one
one-IsSelector = Reach-IsSelector (registered 1 1 7 (made 0 (omega arith) new-two) register-two)

one-size : one.fd_size ≡ 2
unfolding items_update_fdset_for_fd
one-size = refl

Reach-IsSelector_example : IsSelector one
Reach-IsSelector_example =
    Reach-IsSelector (registered 1 1 7 (made 0 (omega arith) new-two) register-two)

selector_register_lem_example : Registered two (item 5) (selector_register two 5 1 7)
selector_register_lem_example =
    selector_register_lem two (item 5) two-IsSelector (omega arith) (omega arith)

selector_register_overrun_example : selector_register two 2 1 7 ≡ none
selector_register_overrun_example =
    selector_register_overrun two 2 1 7 two-IsSelector refl (omega arith)

selector_unregister_fd_lem_example : Removed one 1 (selector_unregister_fd one 1)
selector_unregister_fd_lem_example =
    selector_unregister_fd_lem one 1 one-IsSelector (omega arith) (omega (arith, one-size))
