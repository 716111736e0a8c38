-- ===== src/Admin/Delete/Message.antt =====
-- What `admin_delete_consume` makes of a stream.
use tp_socks5_proxy.Base.{
  ℕ, suc, ◌<◌, ◌≡◌, ◌≢◌, refl, ◌∙◌, none, some, [], ◌∷◌, ◌++◌, Bytes, ◌>>=◌, arith, length,
  length-pos, store, fill,
}
use tp_socks5_proxy.Buffer.{Buffer}
use tp_socks5_proxy.Buffer.Holds.{Holds}
use tp_socks5_proxy.Parsing.{Flag, raise}
use tp_socks5_proxy.Parsing.Stream.{run, consume-eq_of_run, consume-none_of_run}
use tp_socks5_proxy.Parsing.Text.{run_text, run_text_overrun}
use tp_socks5_proxy.Admin.Delete.{
  Delete, State, done, error_action, error_field, error_ulen, init, feed_in, feed, parser,
  admin_delete_consume,
}

-- The parser inside of a user name of `n` bytes, with `i` of them read.
abbrev at_username : Delete → ℕ → Bytes → ℕ → Delete
at_username p n a i = record p {
  state = State.username;
  action = 0x05;
  field = 0x00;
  ulen = n;
  username = a;
  remaining = n;
  read = i;
}

-- The parser behind the terminator.
abbrev closed : Delete → ℕ → Bytes → Delete
closed p n a = record (at_username p n a n) { state = done; status = 0x00 }

-- The parser after a message for the user `u`.
abbrev pub deleting : Delete → Bytes → Delete
deleting p u = closed p (length u) (fill u p.username)

module _ (p : Delete) (n : ℕ) (small : n < 256) where
  more :
      (a : Bytes) (i b : ℕ)
      → suc i < n
      → feed (at_username p n a i) b ≡ (store a i b >>= λ a'. some (at_username p n a' (suc i)))
  unfolding feed feed_in
  more a i b l = ground arith

  last :
      (a : Bytes) (i b : ℕ)
      → suc i ≡ n
      → feed (at_username p n a i) b
        ≡ (store a i b >>= λ a'. store a' n 0 >>= λ a''. some (closed p n a''))
  unfolding feed feed_in
  last a i b l = ground arith

  start :
      (e : Flag) (x : Bytes)
      → 0 < n
      → run parser (init p) e (0x05 ∷ 0x00 ∷ n ∷ x) ≡ run parser (at_username p n p.username 0) e x
  unfolding run feed feed_in init
  start e x h = ground arith

-- The action 5, the field 0 and the user name behind its length.
abbrev pub message : Bytes → Bytes
message u = 0x05 ∷ 0x00 ∷ length u ∷ u

module _ {b : Buffer} (p : Delete) (u rest : Bytes) (e : Flag) (held : Holds b (message u ++ rest))
    (ne : u ≢ []) (array : length p.username ≡ 255) where
  -- A user name of 1 to 254 bytes takes a parser from its start to `done`, with the status 0: it holds
  -- the name with its length and a terminator behind it; the flag is as it was, and what follows the
  -- message stays in the buffer.
  pub admin_delete_message :
      length u < 255
      → (b' : Buffer) × (admin_delete_consume b (init p) e ≡ some (deleting p u, e, b'))
        × Holds b' rest
        × (b'.limit ≡ b.limit)
  unfolding admin_delete_consume
  admin_delete_message l = consume-eq_of_run parser (init p) e whole held
    where
      small : length u < 256
      small = omega arith

      whole : run parser (init p) e (message u ++ rest) ≡ some (deleting p u, e, rest)
      whole =
          start p (length u) small e (u ++ rest) (length-pos u ne)
          ∙ run_text parser (at_username p (length u)) (length u) (closed p (length u))
              (more p (length u) small) (λ a i e. refl) (last p (length u) small) u p.username e
              rest ne refl (omega arith)

  -- A user name of 255 bytes makes the parser write the terminator behind the end of its array.
  pub admin_delete_overrun : length u ≡ 255 → admin_delete_consume b (init p) e ≡ none
  unfolding admin_delete_consume
  admin_delete_overrun l = consume-none_of_run parser (init p) e stopped held
    where
      small : length u < 256
      small = omega arith

      stopped : run parser (init p) e (message u ++ rest) ≡ none
      stopped =
          start p (length u) small e (u ++ rest) (length-pos u ne)
          ∙ run_text_overrun parser (at_username p (length u)) (length u) (closed p (length u))
              (more p (length u) small) (λ a i e. refl) (last p (length u) small) u p.username e
              rest ne refl (omega arith)

-- What the parser refuses, with the bytes up to the wrong one and the parser at the end.
pub data Refused (p : Delete) : Bytes → Delete → Type 0 where
  bad_action :
      (a : ℕ)
      → a ≢ 0x05
      → Refused p (a ∷ []) (record (init p) { state = error_action; status = 0x01 })
  bad_field :
      (f : ℕ)
      → f ≢ 0x00
      → Refused p
          (0x05 ∷ f ∷ [])
          (record (init p) { state = error_field; action = 0x05; status = 0x02 })
  no_name :
      Refused p
        (0x05 ∷ 0x00 ∷ 0 ∷ [])
        (record (init p) { state = error_ulen; action = 0x05; field = 0x00; status = 0x03 })

run-Refused :
    {p q : Delete} {taken : Bytes} (rest : Bytes) (e : Flag)
    → Refused p taken q
    → run parser (init p) e (taken ++ rest) ≡ some (q, raise e, rest)
unfolding run feed feed_in init
run-Refused rest e (bad_action a ne) = ground arith
run-Refused rest e (bad_field f ne) = ground arith
run-Refused rest e no_name = refl

-- Another action, another field and an empty user name take a parser from its start to their error
-- state, with the status of the protocol, raise the flag, and stop behind the byte that is wrong.
pub admin_delete_refuses :
    {b : Buffer} {p q : Delete} {taken : Bytes} (rest : Bytes) (e : Flag)
    → Refused p taken q
    → Holds b (taken ++ rest)
    → (b' : Buffer) × (admin_delete_consume b (init p) e ≡ some (q, raise e, b'))
      × Holds b' rest
      × (b'.limit ≡ b.limit)
unfolding admin_delete_consume
admin_delete_refuses {b} {p} rest e r held =
    consume-eq_of_run parser (init p) e (run-Refused rest e r) held
