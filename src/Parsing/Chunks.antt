-- ===== src/Parsing/Chunks.antt =====
-- A message that arrives in two chunks: `recv` returns what the network gives, and the handlers of
-- the states call the loop once for each chunk.
use tp_socks5_proxy.Base.{
  ◌≡◌, sym, ap, ◌∙◌, subst, false, Option, none, some, ◌++◌, Bytes, if◌then◌else◌, ◌>>=◌,
}
use tp_socks5_proxy.Buffer.{Buffer}
use tp_socks5_proxy.Buffer.Holds.{Holds, contents-Holds}
use tp_socks5_proxy.Parsing.{Parser, Flag, consume}
use tp_socks5_proxy.Parsing.Stream.{run, run-append, resume, consume-run, run_of_consume, Agrees}

module _ (k : Parser) where
  -- The same outcome on two buffers: the same parser and flag, and the same bytes left.
  abbrev pub Same : Option (k.P × Flag × Buffer) → Option (k.P × Flag × Buffer) → Type 0
  Same none none = Unit {0}
  Same (some (p, e, b)) (some (p', e', b')) =
      (p ≡ p') × (e ≡ e') × ((left : Bytes) × Holds b left × Holds b' left)
  Same _ _ = ⊥

  Same-of_Agrees :
      (l l' : _) (m m' : Option (k.P × Flag × Buffer)) (r : Option (k.P × Flag × Bytes))
      → Agrees k l m r
      → Agrees k l' m' r
      → Same m m'
  Same-of_Agrees l l' none none none h h' = tt
  Same-of_Agrees l l' none none (some r) h h' = absurd h
  Same-of_Agrees l l' none (some x') none h h' = absurd h'
  Same-of_Agrees l l' none (some x') (some r) h h' = absurd h
  Same-of_Agrees l l' (some x) none none h h' = absurd h
  Same-of_Agrees l l' (some x) none (some r) h h' = absurd h'
  Same-of_Agrees l l' (some x) (some x') none h h' = absurd h
  Same-of_Agrees l l' (some (p, e, b)) (some (p', e', b')) (some (q, f, left)) h h' =
      (h.0 ∙ sym h'.0, h.1 ∙ sym h'.1, (left, h.2, h'.2))

  -- A parser that is not done after a first chunk and goes on with the second one behind what the
  -- first left ends as if the two had arrived at once.
  pub consume_chunks :
      {b mid next whole : Buffer} {cs left : Bytes} (more : Bytes) (p : k.P) (e : Flag) {q : k.P}
      {f : Flag}
      → Holds b cs
      → Holds whole (cs ++ more)
      → (k.is_done p e).0 ≡ false
      → consume k b p e ≡ some (q, f, mid)
      → (k.is_done q f).0 ≡ false
      → Holds mid left
      → Holds next (left ++ more)
      → Same (consume k next q f) (consume k whole p e)
  consume_chunks {b} {mid} {next} {whole} {cs} {left} more p e {q} {f} h hw d c dq hl hn =
      let (left', r, held) = run_of_consume k p e c h in
      let same : left' ≡ left = sym (contents-Holds held) ∙ contents-Holds hl in
      Same-of_Agrees next.limit whole.limit (consume k next q f) (consume k whole p e)
        (run k q f (left ++ more)) (consume-run k q f hn)
        (subst (Agrees k whole.limit (consume k whole p e))
          (run-append k cs more p e d
            ∙ ap (λ m. m >>= resume k more) r
            ∙ ap (λ t. if t then some (q, f, left' ++ more) else run k q f (left' ++ more)) dq
            ∙ ap (λ x. run k q f (x ++ more)) same)
          (consume-run k p e hw))
