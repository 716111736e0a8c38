-- ===== src/Admin/Connect/Message.antt =====
-- What `admin_connect_consume` makes of a stream.
use tp_socks5_proxy.Base.{
  ℕ, suc, ◌<◌, ◌≡◌, ◌≢◌, refl, ◌∙◌, none, some, [], ◌∷◌, ◌++◌, Bytes, ◌>>=◌, arith, length,
  length-pos, store, fill,
}
use tp_socks5_proxy.Buffer.{Buffer}
use tp_socks5_proxy.Buffer.Holds.{Holds}
use tp_socks5_proxy.Parsing.{Flag, raise}
use tp_socks5_proxy.Parsing.Stream.{run, consume-eq_of_run, consume-none_of_run}
use tp_socks5_proxy.Parsing.Text.{run_text, run_text_overrun}
use tp_socks5_proxy.Admin.Connect.{
  Connect, State, done, error_version, error_passlen, init, blank, feed_in, feed, parser,
  admin_connect_consume,
}

length-blank : length blank ≡ 255
unfolding blank
length-blank = refl

-- The parser inside of a password of `n` bytes, with `i` of them read.
abbrev at_passwd : Connect → ℕ → Bytes → ℕ → Connect
at_passwd p n a i = record (init p) {
  state = State.passwd;
  passlen = n;
  passwd = a;
  remaining = n;
  read = i;
}

-- The parser behind the terminator.
abbrev closed : Connect → ℕ → Bytes → Connect
closed p n a = record (at_passwd p n a n) { state = done; status = 0x00 }

-- The parser after the password `w`.
abbrev pub connected : Connect → Bytes → Connect
connected p w = closed p (length w) (fill w blank)

module _ (p : Connect) (n : ℕ) (small : n < 256) where
  more :
      (a : Bytes) (i b : ℕ)
      → suc i < n
      → feed (at_passwd p n a i) b ≡ (store a i b >>= λ a'. some (at_passwd p n a' (suc i)))
  unfolding feed feed_in
  more a i b l = ground arith

  last :
      (a : Bytes) (i b : ℕ)
      → suc i ≡ n
      → feed (at_passwd p n a i) b
        ≡ (store a i b >>= λ a'. store a' n 0 >>= λ a''. some (closed p n a''))
  unfolding feed feed_in
  last a i b l = ground arith

  start :
      (e : Flag) (x : Bytes)
      → 0 < n
      → run parser (init p) e (0x00 ∷ n ∷ x) ≡ run parser (at_passwd p n blank 0) e x
  unfolding run feed feed_in init
  start e x h = ground arith

-- The administrator's first message: version 0 and a password behind its length.
abbrev pub message : Bytes → Bytes
message w = 0x00 ∷ length w ∷ w

module _ {b : Buffer} (p : Connect) (w rest : Bytes) (e : Flag) (held : Holds b (message w ++ rest))
    (ne : w ≢ []) where
  -- A password of 1 to 254 bytes takes a parser from its start to `done`, with the status 0: it holds
  -- the password with its length and a terminator behind it; the flag is as it was, and what follows
  -- the message stays in the buffer.
  pub admin_connect_message :
      length w < 255
      → (b' : Buffer) × (admin_connect_consume b (init p) e ≡ some (connected p w, e, b'))
        × Holds b' rest
        × (b'.limit ≡ b.limit)
  unfolding admin_connect_consume
  admin_connect_message l = consume-eq_of_run parser (init p) e whole held
    where
      small : length w < 256
      small = omega arith

      whole : run parser (init p) e (message w ++ rest) ≡ some (connected p w, e, rest)
      whole =
          start p (length w) small e (w ++ rest) (length-pos w ne)
          ∙ run_text parser (at_passwd p (length w)) (length w) (closed p (length w))
              (more p (length w) small) (λ a i e. refl) (last p (length w) small) w blank e rest ne
              refl (omega (arith, length-blank))

  -- A password of 255 bytes makes the parser write the terminator behind the end of its array.
  pub admin_connect_overrun : length w ≡ 255 → admin_connect_consume b (init p) e ≡ none
  unfolding admin_connect_consume
  admin_connect_overrun l = consume-none_of_run parser (init p) e stopped held
    where
      small : length w < 256
      small = omega arith

      stopped : run parser (init p) e (message w ++ rest) ≡ none
      stopped =
          start p (length w) small e (w ++ rest) (length-pos w ne)
          ∙ run_text_overrun parser (at_passwd p (length w)) (length w) (closed p (length w))
              (more p (length w) small) (λ a i e. refl) (last p (length w) small) w blank e rest ne
              refl (omega (arith, length-blank))

-- What the parser refuses, with the bytes up to the wrong one and the parser at the end.
pub data Refused (p : Connect) : Bytes → Connect → Type 0 where
  bad_version :
      (v : ℕ)
      → v ≢ 0x00
      → Refused p (v ∷ []) (record (init p) { state = error_version; status = 0x01 })
  no_password : Refused p (0x00 ∷ 0 ∷ []) (record (init p) { state = error_passlen; status = 0x02 })

run-Refused :
    {p q : Connect} {taken : Bytes} (rest : Bytes) (e : Flag)
    → Refused p taken q
    → run parser (init p) e (taken ++ rest) ≡ some (q, raise e, rest)
unfolding run feed feed_in init
run-Refused rest e (bad_version v ne) = ground arith
run-Refused rest e no_password = refl

-- Another version and an empty password take a parser from its start to their error state, with the
-- status of the protocol, raise the flag, and stop behind the byte that is wrong.
pub admin_connect_refuses :
    {b : Buffer} {p q : Connect} {taken : Bytes} (rest : Bytes) (e : Flag)
    → Refused p taken q
    → Holds b (taken ++ rest)
    → (b' : Buffer) × (admin_connect_consume b (init p) e ≡ some (q, raise e, b'))
      × Holds b' rest
      × (b'.limit ≡ b.limit)
unfolding admin_connect_consume
admin_connect_refuses {b} {p} rest e r held =
    consume-eq_of_run parser (init p) e (run-Refused rest e r) held
