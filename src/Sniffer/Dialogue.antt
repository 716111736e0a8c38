-- ===== src/Sniffer/Dialogue.antt =====
-- A whole POP3 dialogue through the machine of src/pop3_sniffer.c.
use tp_socks5_proxy.Base.{
  ℕ, suc, ◌+◌, ◌<◌, ◌≡◌, ◌≢◌, refl, ap, ◌∙◌, false, Option, none, some, some_injective,
  bind-eq-some, [], ◌∷◌, ◌++◌, Bytes, ◌>>=◌, ◌==◌, length, drop, store, store_terminator,
  store_outside, blit, blit_front, fill, arith,
}
use tp_socks5_proxy.Sniffer.{
  initial, user, read_user, password, read_password, check_password, ok, Sniffer, toupper,
  pop3_sniffer_parse, feed_in, feed_ok, feed_command, feed_read_user, feed_read_password,
  feed_check, ok_text, user_text, pass_text, err_text,
}

-- The machine fed with one byte after another.
unfoldable pub parse_all : Bytes → Sniffer → Option Sniffer
parse_all [] s = some s
parse_all (b ∷ bs) s = pop3_sniffer_parse s b >>= parse_all bs

-- Every byte is another one than `c` in both cases.
abbrev pub Lacks : ℕ → Bytes → Type 0
Lacks c [] = Unit {0}
Lacks c (b ∷ bs) = ((toupper b == c) ≡ false) × Lacks c bs

-- A line's bytes hold no newline.
abbrev pub IsLine : Bytes → Type 0
IsLine [] = Unit {0}
IsLine (b ∷ bs) = (b ≢ b'\n') × IsLine bs

parse_all-append :
    (xs ys : Bytes) (s : Sniffer) {s' : Sniffer}
    → parse_all xs s ≡ some s'
    → parse_all (xs ++ ys) s ≡ parse_all ys s'
unfolding parse_all
parse_all-append [] ys s h = ap (λ m. m >>= parse_all ys) h
parse_all-append (x ∷ xs) ys s {s'} h =
    let (t, fed, rest) = bind-eq-some (pop3_sniffer_parse s x) (parse_all xs) h in
    rw fed (parse_all-append xs ys t rest)

-- Waiting for a command, before its first byte.
abbrev waiting_user : Sniffer → Sniffer
waiting_user s = record s { state = user; read = 0; remaining = 5 }

abbrev pub waiting_password : Sniffer → Sniffer
waiting_password s = record s { state = password; read = 0; remaining = 5 }

skip_user :
    (xs : Bytes) (s : Sniffer)
    → Lacks b'U' xs
    → parse_all xs (waiting_user s) ≡ some (waiting_user s)
unfolding parse_all pop3_sniffer_parse feed_in feed_command
skip_user [] s h = refl
skip_user (x ∷ xs) s h = rw (h.0) (skip_user xs s h.1)

skip_password :
    (xs : Bytes) (s : Sniffer)
    → Lacks b'P' xs
    → parse_all xs (waiting_password s) ≡ some (waiting_password s)
unfolding parse_all pop3_sniffer_parse feed_in feed_command
skip_password [] s h = refl
skip_password (x ∷ xs) s h = rw (h.0) (skip_password xs s h.1)

abbrev pub naming : Sniffer → Bytes → ℕ → Sniffer
naming s a i = record s { state = read_user; username = a; read = i; remaining = 0 }

abbrev wording : Sniffer → Bytes → ℕ → Sniffer
wording s a i = record s { state = read_password; passwd = a; read = i; remaining = 0 }

greeted :
    (s : Sniffer)
    → parse_all ok_text (record s { state = initial; read = 0; remaining = 3 })
      ≡ some (waiting_user s)
unfolding parse_all pop3_sniffer_parse feed_in feed_ok
greeted s = refl

commanded : (s : Sniffer) → parse_all user_text (waiting_user s) ≡ some (naming s s.username 0)
unfolding parse_all pop3_sniffer_parse feed_in feed_command
commanded s = refl

asked : (s : Sniffer) → parse_all pass_text (waiting_password s) ≡ some (wording s s.passwd 0)
unfolding parse_all pop3_sniffer_parse feed_in feed_command
asked s = refl

-- A line that is stored byte by byte, for a machine `at` its array and its count.
module _ (at : Bytes → ℕ → Sniffer)
    (more : (a : Bytes) (i b : ℕ)
      → b ≢ b'\n'
      → i < 255
      → pop3_sniffer_parse (at a i) b ≡ (store a i b >>= λ a'. some (at a' (suc i)))) where
  stored_line :
      (n : Bytes) (a : Bytes) (i : ℕ) {a' : Bytes}
      → IsLine n
      → i + length n < 256
      → blit a i n ≡ some a'
      → parse_all n (at a i) ≡ some (at a' (i + length n))
  unfolding parse_all
  stored_line [] a i {a'} line l e =
      ap (λ x. some (at x i)) (some_injective e) ∙ ap (λ (k : ℕ). some (at a' k)) (omega arith)
  stored_line (b ∷ n) a i {a'} line l e =
      let (a₁, st, e') = bind-eq-some (store a i b) (λ x. blit x (suc i) n) e in
      rw (more a i b line.0 (omega arith), st)
        (stored_line n a₁ (suc i) line.1 (omega arith) e'
          ∙ ap (λ (k : ℕ). some (at a' k)) (omega arith))

  pub line_lem :
      (n a : Bytes)
      → IsLine n
      → length n < length a
      → length a ≡ 255
      → parse_all n (at a 0) ≡ some (at (n ++ drop (length n) a) (length n))
  line_lem n a line l k =
      stored_line n a 0 line (omega arith) (blit_front n a (omega arith))
      ∙ ap (λ (k : ℕ). some (at (n ++ drop (length n) a) k)) (omega arith)

more_name :
    (s : Sniffer) (a : Bytes) (i b : ℕ)
    → b ≢ b'\n'
    → i < 255
    → pop3_sniffer_parse (naming s a i) b ≡ (store a i b >>= λ a'. some (naming s a' (suc i)))
unfolding pop3_sniffer_parse feed_in feed_read_user
more_name s a i b ne l = ground arith

more_word :
    (s : Sniffer) (a : Bytes) (i b : ℕ)
    → b ≢ b'\n'
    → i < 255
    → pop3_sniffer_parse (wording s a i) b ≡ (store a i b >>= λ a'. some (wording s a' (suc i)))
unfolding pop3_sniffer_parse feed_in feed_read_password
more_word s a i b ne l = ground arith

-- The machine behind the line with the name, and behind the one with the password.
abbrev pub known : Sniffer → Bytes → Sniffer
known s n =
    waiting_password
      (record s { username = fill n s.username; check_read = 0; check_remaining = 4 })

abbrev pub checking : Sniffer → Bytes → Sniffer
checking s p = record s {
  state = check_password;
  passwd = fill p s.passwd;
  read = 0;
  check_read = 0;
  remaining = 0;
}

name_ends :
    (s : Sniffer) (n : Bytes)
    → length n < length s.username
    → parse_all (b'\n' ∷ []) (naming s (n ++ drop (length n) s.username) (length n))
      ≡ some (known s n)
unfolding parse_all pop3_sniffer_parse feed_in feed_read_user
name_ends s n l = rw (store_terminator n s.username l) refl

word_ends :
    (s : Sniffer) (p : Bytes)
    → length p < length s.passwd
    → parse_all (b'\n' ∷ []) (wording s (p ++ drop (length p) s.passwd) (length p))
      ≡ some (checking s p)
unfolding parse_all pop3_sniffer_parse feed_in feed_read_password
word_ends s p l = rw (store_terminator p s.passwd l) refl

-- The machine at the end of a dialogue that the server accepts.
abbrev pub sniffed : Sniffer → Bytes → Bytes → Sniffer
sniffed s n p = record (checking (known s n) p) { state = ok; read = 3 }

accepted :
    (s : Sniffer)
    → parse_all ok_text (record s { state = check_password; read = 0; check_read = 0 })
      ≡ some (record s { state = ok; read = 3; check_read = 0 })
unfolding parse_all pop3_sniffer_parse feed_in feed_check
accepted s = refl

-- The server's greeting, the command with the name, the server's answer, the command with the password, and
-- the acceptance. What stands between them holds no first letter of the command that follows.
abbrev pub dialogue : Bytes → Bytes → Bytes → Bytes → Bytes
dialogue n p skip skip' =
    ok_text
    ++ (skip
        ++ (user_text
            ++ (n ++ ((b'\n' ∷ []) ++ (skip' ++ (pass_text ++ (p ++ ((b'\n' ∷ []) ++ ok_text))))))))

-- A new sniffer that is fed with a greeting, the command USER with a name, an answer, the command
-- PASS with a password, each ended by a newline, and +OK, ends in ok and holds the name and the
-- password, of less than 255 bytes and without a newline, each with a terminator, if no U stands
-- between the greeting and USER and no P between the name and PASS.
pub dialogue_lem :
    (s : Sniffer) (n p skip skip' : Bytes)
    → length s.username ≡ 255
    → length s.passwd ≡ 255
    → IsLine n
    → IsLine p
    → length n < 255
    → length p < 255
    → Lacks b'U' skip
    → Lacks b'P' skip'
    → parse_all (dialogue n p skip skip') (record s { state = initial; read = 0; remaining = 3 })
      ≡ some (sniffed s n p)
dialogue_lem s n p skip skip' lu lp hn hp ln lp' hs hs' =
    let t = known s n in
    parse_all-append ok_text _ _ (greeted s)
    ∙ parse_all-append skip _ _ (skip_user skip s hs)
    ∙ parse_all-append user_text _ _ (commanded s)
    ∙ parse_all-append n _ _ (line_lem (naming s) (more_name s) n s.username hn (omega arith) lu)
    ∙ parse_all-append (b'\n' ∷ []) _ _ (name_ends s n (omega arith))
    ∙ parse_all-append skip' _ _ (skip_password skip' t hs')
    ∙ parse_all-append pass_text _ _ (asked t)
    ∙ parse_all-append p _ _ (line_lem (wording t) (more_word t) p s.passwd hp (omega arith) lp)
    ∙ parse_all-append (b'\n' ∷ []) _ _ (word_ends t p (omega arith))
    ∙ accepted (checking t p)

-- A name of 255 bytes leaves no room for its terminator.
pub name_overrun :
    (s : Sniffer) (a : Bytes) → length a ≡ 255 → pop3_sniffer_parse (naming s a 255) b'\n' ≡ none
unfolding pop3_sniffer_parse feed_in feed_read_user
name_overrun s a l = rw (store_outside a 255 0 (omega arith)) refl

-- A session whose password was refused starts again without its count: the next command with a name is
-- missed.
pub user_missed :
    (s : Sniffer) (p : Bytes)
    → parse_all (err_text ++ user_text) (checking s p)
      ≡ some (record (checking s p) { state = user; check_read = 4; read = 5; remaining = 251 })
unfolding parse_all pop3_sniffer_parse feed_in feed_command feed_check
user_missed s p = refl
