-- ===== src/Client/Parsed.antt =====
-- What the management server's parsers make of the requests of
-- src/management_protocol/management_protocol_handler.c.
use tp_socks5_proxy.Base.{
  ℕ, ◌≤◌, ◌<◌, ◌≡◌, ◌≢◌, ◌∙◌, refl, subst, sym, ap, Option, some, [], ◌∷◌, ◌++◌, ◌>>=◌, Bytes,
  append-nil, append_assoc, length, length-append, take-append, take, le→ltb, arith,
}
use tp_socks5_proxy.Buffer.{Buffer}
use tp_socks5_proxy.Buffer.Holds.{Holds, loaded, loaded-Holds}
use tp_socks5_proxy.Parsing.{Flag}
use tp_socks5_proxy.Admin.Connect.{Connect, init as init_connect, admin_connect_consume}
use tp_socks5_proxy.Admin.Connect.Message.{
  message as connect_message, connected, admin_connect_message,
}
use tp_socks5_proxy.Admin.Put.{Put, init as init_put, admin_put_consume}
use tp_socks5_proxy.Admin.Put.Message.{message as put_message, putting, admin_put_message}
use tp_socks5_proxy.Admin.Edit.{Edit, init as init_edit, admin_edit_consume}
use tp_socks5_proxy.Admin.Edit.Message.{
  message as edit_message, editing, IsAttribute, admin_edit_message,
}
use tp_socks5_proxy.Admin.Delete.{Delete, init as init_delete, admin_delete_consume}
use tp_socks5_proxy.Admin.Delete.Message.{message as delete_message, deleting, admin_delete_message}
use tp_socks5_proxy.Client.{login, send_put_request, send_edit_request, send_delete_request}

cut : (xs ys all : Bytes) (n : ℕ) → all ≡ xs ++ ys → n ≡ length xs → take n all ≡ xs
cut xs ys all n e l = ap (take n) e ∙ take-append xs ys n l

module _ (u v : Bytes) (ul : length u ≤ 10) (vl : length v ≤ 10) where
  put_sent : send_put_request u v ≡ some (put_message u v)
  unfolding send_put_request
  put_sent =
      rw (le→ltb 10 (length u) ul, le→ltb 10 (length v) vl)
        (ap some (
          cut (put_message u v) (0 ∷ []) _ _
            (ap (λ x. 0x01 ∷ 0x00 ∷ length u ∷ x) (sym (append_assoc u (length v ∷ v) (0 ∷ []))))
            (omega (arith, length-append u (length v ∷ v)))))

  edit_sent : (a : ℕ) → send_edit_request u a v ≡ some (edit_message u a v ++ (0 ∷ []))
  unfolding send_edit_request
  edit_sent a =
      rw (le→ltb 10 (length u) ul, le→ltb 10 (length v) vl)
        (ap some (
          cut (edit_message u a v ++ (0 ∷ [])) [] _ _
            (ap (λ x. 0x02 ∷ 0x00 ∷ length u ∷ x) (sym (append_assoc u (a ∷ length v ∷ v) (0 ∷ [])))
              ∙ sym (append-nil _))
            (omega (
              arith,
              length-append u (a ∷ length v ∷ v),
              length-append (u ++ (a ∷ length v ∷ v)) (0 ∷ []),
            ))))

delete_sent : (u : Bytes) → length u ≤ 10 → send_delete_request u ≡ some (delete_message u)
unfolding send_delete_request
delete_sent u ul =
    rw (le→ltb 10 (length u) ul) (ap some (cut (delete_message u) (0 ∷ []) _ _ refl (omega arith)))

login_sent :
    (junk : ℕ) (t : Bytes)
    → length t ≤ 255
    → login junk t ≡ some (connect_message t ++ (0 ∷ junk ∷ []))
unfolding login
login_sent junk t l = rw (le→ltb 255 (length t) l) refl

-- A parser that takes what was sent to its end, and what stays behind.
abbrev pub Taken :
    {P : Type 0} → Option Bytes → (Buffer → Option (P × Flag × Buffer)) → P → Flag → Bytes → Type 0
Taken {P} sent consume p e left =
    (b : Buffer) × ((sent >>= λ bs. consume (loaded bs)) ≡ some (p, e, b)) × Holds b left

-- For a token of 1 to 254 bytes, a user name and a password or value of 1 to 10 bytes and one of
-- the two attributes, what the client sends to log in and to add, change and remove a user takes
-- the parser of each from its start to done, with the token, the name, the password, the attribute
-- and the value; in a buffer that holds just what was sent, behind the first message a byte 0 and
-- one that was never written stay, behind the request to change a user a byte 0, behind the others
-- nothing.
pub requests_lem :
    (s : Connect) (p : Put) (q : Edit) (r : Delete) (t u v : Bytes) (a junk : ℕ) (e : Flag)
    → t ≢ []
    → u ≢ []
    → v ≢ []
    → length t < 255
    → length u ≤ 10
    → length v ≤ 10
    → IsAttribute a
    → (length q.username ≡ 255) × (length q.value ≡ 255)
    → length r.username ≡ 255
    → Taken
        (login junk t)
        (λ b. admin_connect_consume b (init_connect s) e)
        (connected s t)
        e
        (0 ∷ junk ∷ [])
      × Taken (send_put_request u v) (λ b. admin_put_consume b (init_put p) e) (putting p u v) e []
      × Taken
          (send_edit_request u a v)
          (λ b. admin_edit_consume b (init_edit q) e)
          (editing q u a v)
          e
          (0 ∷ [])
      × Taken
          (send_delete_request u)
          (λ b. admin_delete_consume b (init_delete r) e)
          (deleting r u)
          e
          []
requests_lem s p q r t u v a junk e tne une vne tl ul vl is arrays array =
    let (b₀, token, h₀, _) = admin_connect_message s t (0 ∷ junk ∷ []) e (loaded-Holds _) tne tl in
    let (b₁, put, h₁, _) =
      admin_put_message p u v [] e (whole (put_message u v)) une vne (omega arith) (omega arith) in
    let (b₂, edit, h₂, _) =
      admin_edit_message q u a v (0 ∷ []) e (loaded-Holds _) is une vne arrays (omega arith)
        (omega arith) in
    let (b₃, delete, h₃, _) =
      admin_delete_message r u [] e (whole (delete_message u)) une array (omega arith) in
    (
      (
        b₀,
        ap (λ o. o >>= λ bs. admin_connect_consume (loaded bs) (init_connect s) e)
              (login_sent junk t (omega arith))
            ∙ token,
        h₀,
      ),
      (
        b₁,
        ap (λ o. o >>= λ bs. admin_put_consume (loaded bs) (init_put p) e) (put_sent u v ul vl)
            ∙ put,
        h₁,
      ),
      (
        b₂,
        ap (λ o. o >>= λ bs. admin_edit_consume (loaded bs) (init_edit q) e) (edit_sent u v ul vl a)
            ∙ edit,
        h₂,
      ),
      (
        b₃,
        ap (λ o. o >>= λ bs. admin_delete_consume (loaded bs) (init_delete r) e) (delete_sent u ul)
            ∙ delete,
        h₃,
      ),
    )
  where
    whole : (bs : Bytes) → Holds (loaded bs) (bs ++ [])
    whole bs = subst (Holds (loaded bs)) (sym (append-nil bs)) (loaded-Holds bs)
