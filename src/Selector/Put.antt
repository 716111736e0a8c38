-- ===== src/Selector/Put.antt =====
-- A place of the table that is written together with the sets.
use native.Mathlib.Decide.{ℕ_discrete}
use tp_socks5_proxy.Base.{
  ℕ, ◌≤◌, ◌<◌, ◌≡◌, ◌≢◌, refl, sym, subst, ◌∙◌, Option, none, some, List, length, arith,
}
use tp_socks5_proxy.Selector.{Item, Selector, fd_put, wants_read, wants_write}
use tp_socks5_proxy.Selector.Items.{item_at, Agrees, IsSelector, fd_put-same, fd_put-other}

module _ {D : Type 0} where
  -- The selector with an item at a place, and the sets that belong to it.
  abbrev pub put : Selector D → List (Option (Item D)) → ℕ → ℕ → ℕ → Selector D
  put s xs fd interest top = record s {
    fds = xs;
    max_fd = top;
    master_r = fd_put fd (wants_read interest) s.master_r;
    master_w = fd_put fd (wants_write interest) s.master_w;
  }

  -- An item keeps its agreement with the sets, when another place is written and the top grows.
  pub Agrees-put :
      (s : Selector D) (xs : List (Option (Item D))) (fd interest top i : ℕ) (x : Option (Item D))
      → i ≢ fd
      → s.max_fd ≤ top
      → Agrees s i x
      → Agrees (put s xs fd interest top) i x
  Agrees-put s xs fd interest top i none ne l (r, w) =
      (fd_put-other fd i _ s.master_r ne ∙ r, fd_put-other fd i _ s.master_w ne ∙ w)
  Agrees-put s xs fd interest top i (some it) ne l (same, high, r, w) = (
    same,
    omega arith,
    fd_put-other fd i _ s.master_r ne ∙ r,
    fd_put-other fd i _ s.master_w ne ∙ w,
  )

  pub put-IsSelector :
      (s : Selector D) (xs : List (Option (Item D))) (it : Item D) (top : ℕ)
      → IsSelector s
      → length xs ≡ length s.fds
      → item_at xs it.fd ≡ some it
      → ((j : ℕ) → j ≢ it.fd → item_at xs j ≡ item_at s.fds j)
      → s.max_fd ≤ top
      → it.fd ≤ top
      → top < s.fd_size
      → IsSelector (put s xs it.fd it.interest top)
  put-IsSelector s xs it top ok k here other l l' fits = record {
    size = k ∙ ok.size;
    top = fits;
    agrees = λ i. elim (ℕ_discrete i it.fd) [
      | yes e ↦
          subst (λ j. Agrees (put s xs it.fd it.interest top) j (item_at xs j)) (sym e)
            (subst (Agrees (put s xs it.fd it.interest top) it.fd) (sym here)
              (refl, l', fd_put-same it.fd _ s.master_r, fd_put-same it.fd _ s.master_w))
      | no ne ↦
          subst (Agrees (put s xs it.fd it.interest top) i) (sym (other i ne))
            (Agrees-put s xs it.fd it.interest top i _ ne l (ok.agrees i))
    ];
  }
