-- ===== src/Admin/Edit/Message.antt =====
-- What `admin_edit_consume` makes of a stream.
use tp_socks5_proxy.Base.{
  ℕ, suc, ◌<◌, ◌≡◌, ◌≢◌, ◌⊎◌, inl, inr, refl, ap, ◌∙◌, none, some, [], ◌∷◌, ◌++◌, append_assoc,
  Bytes, ◌>>=◌, arith, length, length-pos, store, fill,
}
use tp_socks5_proxy.Buffer.{Buffer}
use tp_socks5_proxy.Buffer.Holds.{Holds}
use tp_socks5_proxy.Parsing.{Flag}
use tp_socks5_proxy.Parsing.Stream.{run, consume-eq_of_run, consume-none_of_run}
use tp_socks5_proxy.Parsing.Text.{run_text, run_text_overrun}
use tp_socks5_proxy.Admin.Edit.{
  Edit, State, done, attribute, init, feed_in, feed, parser, admin_edit_consume,
}

-- The parser inside of a field of `n` bytes, with `i` of them read, and behind its terminator.
abbrev at_name : Edit → ℕ → Bytes → ℕ → Edit
at_name p n a i = record p {
  state = State.username;
  action = 0x02;
  field = 0x00;
  ulen = n;
  username = a;
  remaining = n;
  read = i;
}

abbrev closed_name : Edit → ℕ → Bytes → Edit
closed_name p n a = record (at_name p n a n) { state = attribute }

abbrev at_value : Edit → ℕ → Bytes → ℕ → Edit
at_value p n a i = record p {
  state = State.value;
  valuelen = n;
  value = a;
  remaining = n;
  read = i;
}

abbrev closed_value : Edit → ℕ → Bytes → Edit
closed_value p n a = record (at_value p n a n) { state = done; status = 0x00 }

-- The parser after the user name `u`, and after the attribute `a` and its value `v` too.
abbrev pub naming : Edit → Bytes → Edit
naming p u = closed_name p (length u) (fill u p.username)

abbrev pub attributed : Edit → Bytes → ℕ → Edit
attributed p u a = record (naming p u) { attr = a; state = State.valuelen }

abbrev pub editing : Edit → Bytes → ℕ → Bytes → Edit
editing p u a v = closed_value (attributed p u a) (length v) (fill v p.value)

-- The two attributes, the user's name and the password.
abbrev pub IsAttribute : ℕ → Type 0
IsAttribute a = (a ≡ 0x00) ⊎ (a ≡ 0x01)

module _ (p : Edit) (n : ℕ) (small : n < 256) where
  more_name :
      (a : Bytes) (i b : ℕ)
      → suc i < n
      → feed (at_name p n a i) b ≡ (store a i b >>= λ a'. some (at_name p n a' (suc i)))
  unfolding feed feed_in
  more_name a i b l = ground arith

  last_name :
      (a : Bytes) (i b : ℕ)
      → suc i ≡ n
      → feed (at_name p n a i) b
        ≡ (store a i b >>= λ a'. store a' n 0 >>= λ a''. some (closed_name p n a''))
  unfolding feed feed_in
  last_name a i b l = ground arith

  more_value :
      (a : Bytes) (i b : ℕ)
      → suc i < n
      → feed (at_value p n a i) b ≡ (store a i b >>= λ a'. some (at_value p n a' (suc i)))
  unfolding feed feed_in
  more_value a i b l = ground arith

  last_value :
      (a : Bytes) (i b : ℕ)
      → suc i ≡ n
      → feed (at_value p n a i) b
        ≡ (store a i b >>= λ a'. store a' n 0 >>= λ a''. some (closed_value p n a''))
  unfolding feed feed_in
  last_value a i b l = ground arith

  start_name :
      (e : Flag) (x : Bytes)
      → 0 < n
      → run parser (init p) e (0x02 ∷ 0x00 ∷ n ∷ x) ≡ run parser (at_name p n p.username 0) e x
  unfolding run feed feed_in init
  start_name e x h = ground arith

  start_value :
      (u : Bytes) (a : ℕ) (e : Flag) (x : Bytes)
      → IsAttribute a
      → 0 < n
      → run parser (naming p u) e (a ∷ n ∷ x)
        ≡ run parser (at_value (attributed p u a) n p.value 0) e x
  unfolding run feed feed_in
  start_value u a e x is h = ground arith

module _ (p : Edit) (u rest : Bytes) (e : Flag) (ne : u ≢ [])
    (array : length p.username ≡ 255) where
  run_name :
      length u < 255
      → run parser (init p) e (0x02 ∷ 0x00 ∷ length u ∷ (u ++ rest))
        ≡ run parser (naming p u) e rest
  run_name l =
      start_name p (length u) (omega arith) e (u ++ rest) (length-pos u ne)
      ∙ run_text parser (at_name p (length u)) (length u) (closed_name p (length u))
          (more_name p (length u) (omega arith)) (λ a i e. refl)
          (last_name p (length u) (omega arith)) u p.username e rest ne refl (omega arith)

  run_name_overrun :
      length u ≡ 255 → run parser (init p) e (0x02 ∷ 0x00 ∷ length u ∷ (u ++ rest)) ≡ none
  run_name_overrun l =
      start_name p (length u) (omega arith) e (u ++ rest) (length-pos u ne)
      ∙ run_text_overrun parser (at_name p (length u)) (length u) (closed_name p (length u))
          (more_name p (length u) (omega arith)) (λ a i e. refl)
          (last_name p (length u) (omega arith)) u p.username e rest ne refl (omega arith)

module _ (p : Edit) (u : Bytes) (a : ℕ) (v rest : Bytes) (e : Flag) (is : IsAttribute a)
    (ne : v ≢ []) (array : length p.value ≡ 255) where
  run_value :
      length v < 255
      → run parser (naming p u) e (a ∷ length v ∷ (v ++ rest)) ≡ some (editing p u a v, e, rest)
  run_value l =
      start_value p (length v) (omega arith) u a e (v ++ rest) is (length-pos v ne)
      ∙ run_text parser (at_value (attributed p u a) (length v)) (length v)
          (closed_value (attributed p u a) (length v))
          (more_value (attributed p u a) (length v) (omega arith)) (λ a i e. refl)
          (last_value (attributed p u a) (length v) (omega arith)) v p.value e rest ne refl
          (omega arith)

  run_value_overrun : length v ≡ 255 → run parser (naming p u) e (a ∷ length v ∷ (v ++ rest)) ≡ none
  run_value_overrun l =
      start_value p (length v) (omega arith) u a e (v ++ rest) is (length-pos v ne)
      ∙ run_text_overrun parser (at_value (attributed p u a) (length v)) (length v)
          (closed_value (attributed p u a) (length v))
          (more_value (attributed p u a) (length v) (omega arith)) (λ a i e. refl)
          (last_value (attributed p u a) (length v) (omega arith)) v p.value e rest ne refl
          (omega arith)

-- The action 2, the field 0, the user name behind its length, the attribute, and the value behind its
-- length.
abbrev pub message : Bytes → ℕ → Bytes → Bytes
message u a v = 0x02 ∷ 0x00 ∷ length u ∷ (u ++ (a ∷ length v ∷ v))

split :
    (u : Bytes) (a : ℕ) (v rest : Bytes)
    → message u a v ++ rest ≡ 0x02 ∷ 0x00 ∷ length u ∷ (u ++ (a ∷ length v ∷ (v ++ rest)))
split u a v rest = ap (λ x. 0x02 ∷ 0x00 ∷ length u ∷ x) (append_assoc u (a ∷ length v ∷ v) rest)

module _ {b : Buffer} (p : Edit) (u : Bytes) (a : ℕ) (v rest : Bytes) (e : Flag)
    (held : Holds b (message u a v ++ rest)) (is : IsAttribute a) (une : u ≢ []) (vne : v ≢ [])
    (arrays : (length p.username ≡ 255) × (length p.value ≡ 255)) where
  -- A user name and a value of 1 to 254 bytes, with one of the two attributes, take a parser from its
  -- start to `done`, with the status 0: it holds the attribute and both texts, each with its length
  -- and a terminator behind it; the flag is as it was, and what follows the message stays in the
  -- buffer.
  pub admin_edit_message :
      length u < 255
      → length v < 255
      → (b' : Buffer) × (admin_edit_consume b (init p) e ≡ some (editing p u a v, e, b'))
        × Holds b' rest
        × (b'.limit ≡ b.limit)
  unfolding admin_edit_consume
  admin_edit_message ul vl =
      consume-eq_of_run parser (init p) e
        (ap (run parser (init p) e) (split u a v rest)
          ∙ run_name p u (a ∷ length v ∷ (v ++ rest)) e une arrays.0 ul
          ∙ run_value p u a v rest e is vne arrays.1 vl)
        held

  -- A user name or a value of 255 bytes, which the protocol allows, makes the parser write the
  -- terminator behind the end of its array.
  pub admin_edit_overrun :
      (length u ≡ 255) ⊎ ((length u < 255) × (length v ≡ 255))
      → admin_edit_consume b (init p) e ≡ none
  unfolding admin_edit_consume
  admin_edit_overrun (inl ul) =
      consume-none_of_run parser (init p) e
        (ap (run parser (init p) e) (split u a v rest)
          ∙ run_name_overrun p u (a ∷ length v ∷ (v ++ rest)) e une arrays.0 ul)
        held
  admin_edit_overrun (inr (ul, vl)) =
      consume-none_of_run parser (init p) e
        (ap (run parser (init p) e) (split u a v rest)
          ∙ run_name p u (a ∷ length v ∷ (v ++ rest)) e une arrays.0 ul
          ∙ run_value_overrun p u a v rest e is vne arrays.1 vl)
        held
