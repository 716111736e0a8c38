-- ===== src/Socks/Attempts.antt =====
-- The addresses that src/socks5_request.c tries one after another, `next_ip`.
use tp_socks5_proxy.Base.{
  ℕ, zero, suc, Option, none, some, List, [], ◌∷◌, ◌≡◌, ◌⊎◌, inl, inr, refl, ap, ◌∙◌, ◌>>=◌, ◌≤◌,
  ◌<◌, arith, length, drop,
}
use tp_socks5_proxy.Socks.{Socks, AddrInfo}
use tp_socks5_proxy.Socks.Connecting.{next_of, next_ip}

-- `next_ip`, as often as `n` tries that fail one after another.
unfoldable pub retries : ℕ → Socks → Option Socks
unfolding next_ip
retries zero s = some s
retries (suc n) s = next_ip s >>= retries n

pub next_ip_at :
    (s : Socks) (all left : List AddrInfo)
    → s.server_resolution ≡ all
    → s.current_server_resolution ≡ left
    → next_ip s ≡ next_of all left s
unfolding next_ip
next_ip_at s all left e f =
    ap (λ l. next_of l s.current_server_resolution s) e ∙ ap (λ l. next_of all l s) f

-- The address list that is left after `n` tries, and the address that is tried.
abbrev pub Left : AddrInfo → List AddrInfo → ℕ → Socks → Type 0
Left first list n s =
    (s' : Socks) × (retries n s ≡ some s')
    × (s'.current_server_resolution ≡ drop n list)
    × (s'.final_server_addr ≡ first.ai_addr)

-- From a connection that is about to try the first address of its list, after n tries that fail:
-- while addresses are left, next_ip has found another one n times, the list is n addresses
-- shorter, and the address to be tried is the first one again; once n reaches the length of the
-- list, there is none.
pub retries_lem :
    (n : ℕ) (s : Socks) (first a : AddrInfo) (rest more : List AddrInfo)
    → s.server_resolution ≡ first ∷ rest
    → s.current_server_resolution ≡ a ∷ more
    → s.final_server_addr ≡ first.ai_addr
    → ((n ≤ length more) × Left first (a ∷ more) n s) ⊎ ((length more < n) × (retries n s ≡ none))
unfolding retries next_ip next_of
retries_lem zero s first a rest more all left addr = inl (omega arith, (s, refl, left, addr))
retries_lem (suc n) s first a rest [] all left addr =
    inr (omega arith, ap (λ o. o >>= retries n) (next_ip_at s (first ∷ rest) (a ∷ []) all left))
retries_lem (suc n) s first a rest (b ∷ more) all left addr =
    let s' : Socks = record s {
      current_server_resolution = b ∷ more;
      server_domain = first.ai_family;
      final_server_addr = first.ai_addr;
    } in
    let step = ap (λ o. o >>= retries n) (next_ip_at s (first ∷ rest) (a ∷ b ∷ more) all left) in
    elim (retries_lem n s' first b rest more all refl refl) [
      | inl (le, (t, r, l, e)) ↦ inl (omega arith, (t, step ∙ r, l, e))
      | inr (lt, r) ↦ inr (omega arith, step ∙ r)
    ]
