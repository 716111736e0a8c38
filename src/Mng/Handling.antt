-- ===== src/Mng/Handling.antt =====
-- The reading handlers of src/mng.c, which have one text: what an event makes of the bytes that arrive,
-- for what their parser makes of them.
use tp_socks5_proxy.Base.{
  ℕ, suc, ◌≡◌, refl, ap, ◌∙◌, true, false, ◌||◌, some, ◌∷◌, ◌++◌, Bytes, ◌>>=◌, length,
}
use tp_socks5_proxy.Buffer.{Buffer}
use tp_socks5_proxy.Buffer.Holds.{Holds, HasRoom}
use tp_socks5_proxy.Buffer.Queue.{write_ptr-Holds}
use tp_socks5_proxy.Parsing.{Parser, Flag, consume}
use tp_socks5_proxy.Selector.{Selector, success, selector_set_interest}
use tp_socks5_proxy.Config.{Config}
use tp_socks5_proxy.Socket.{op_write, raised}
use tp_socks5_proxy.Socket.Stream.{receive_lem}
use tp_socks5_proxy.Admin.Reply.{answer_all, Blank, Answered, answer_all_blank}
use tp_socks5_proxy.Mng.{Parsers, World, with_parsers, with_read_buffer, answer}
use tp_socks5_proxy.Mng.Requests.{Handler}
use tp_socks5_proxy.Mng.Handlers.{ending, arrived, serve, handle}

-- What a consuming call makes of a buffer that holds these bytes.
abbrev pub Parses : (k : Parser) → k.P → Bytes → k.P → Flag → Bytes → Type 0
Parses k p bs p' e left =
    (b : Buffer)
    → Holds b bs
    → (b' : Buffer) × (consume k b p (some false) ≡ some (p', e, b'))
      × Holds b' left
      × (b'.limit ≡ b.limit)

module _ {D : Type 0} where
  -- The world in which a request is carried out.
  abbrev pub parsed : Parsers → Buffer → Selector D → World D → World D
  parsed ps b s w = record (with_parsers ps (with_read_buffer b w)) { selector = s }

  -- A connection whose next event brings the bytes `c ∷ cs` behind `q`, and room for them.
  pub record Receives (w : World D) (q : Bytes) (c : ℕ) (cs : Bytes) : Type 0 where
    pub got : w.received ≡ some (c ∷ cs)
    pub held : Holds w.mng.read_buffer q
    pub room : HasRoom w.mng.read_buffer (suc (length cs))

  module _ (h : Handler D) (w : World D) (q : Bytes) (c : ℕ) (cs : Bytes) (p : h.k.P) (e : Flag)
      (left : Bytes) (r : Receives w q c cs)
      (ok : Parses h.k (h.view w.mng.parsers) (q ++ (c ∷ cs)) p e left) where
    handle_serves : handle h w ≡ serve h (c ∷ cs) w
    unfolding handle arrived
    handle_serves = rw (write_ptr-Holds r.held) (ap (λ o. arrived h o w) r.got)

    -- The parser goes on with the next event.
    pub handle_more :
        (h.k.is_done p e).0 ≡ false
        → (b' : Buffer) × (handle h w
            ≡ some (
              ending (raised (h.k.is_done p e).1) h.stay,
              with_parsers (h.pack p) (with_read_buffer b' w),
            ))
          × Holds b' left
    unfolding serve
    handle_more d =
        let (b, arrived, held, l) = receive_lem (c ∷ cs) r.held r.room in
        let (b', taken, held', l') = ok b held in
        (b', handle_serves ∙ rw (arrived, taken, d) refl, held')

    -- The request is carried out, with the connection set to write.
    pub handle_done :
        {s : Selector D}
        → (h.k.is_done p e).0 ≡ true
        → selector_set_interest w.selector w.fd op_write ≡ some (success, s)
        → (b' : Buffer) × (handle h w ≡ (
            h.finish p (parsed (h.pack p) b' s w) >>= λ (err, w'').
            some (ending (raised (h.k.is_done p e).1 || err) h.next, w'')))
          × Holds b' left
    unfolding serve
    handle_done d set =
        let (b, arrived, held, l) = receive_lem (c ∷ cs) r.held r.room in
        let (b', taken, held', l') = ok b held in
        (b', handle_serves ∙ rw (arrived, taken, d, set) refl, held')

  -- A request that is carried out and changes the settings, with the answer to it.
  pub handle_answers :
      (h : Handler D) (w : World D) (q : Bytes) (c : ℕ) (cs : Bytes) {p : h.k.P} (left : Bytes)
      {s : Selector D} (status : ℕ) (conf : Config) (ps : World D → Parsers)
      → Receives w q c cs
      → Parses h.k (h.view w.mng.parsers) (q ++ (c ∷ cs)) p (some false) left
      → h.k.is_done p (some false) ≡ (true, some false)
      → selector_set_interest w.selector w.fd op_write ≡ some (success, s)
      → Blank w.mng.write_buffer
      → ((w' : World D)
          → w'.config ≡ w.config
          → h.finish p w'
            ≡ answer answer_all status (with_parsers (ps w') (record w' { config = conf })))
      → (w' : World D) × (handle h w ≡ some (h.next, w'))
        × (w'.config ≡ conf)
        × Answered w.mng.write_buffer status w'.mng.write_buffer
        × Holds w'.mng.read_buffer left
        × (w'.selector ≡ s)
  handle_answers h w q c cs {p} left {s} status conf ps r ok d set k finished =
      let (b', e, held) = handle_done h w q c cs p (some false) left r ok (ap (λ x. x.0) d) set in
      let (b, answered, is) = answer_all_blank status k in
      let w₁ : World D = parsed (h.pack p) b' s w in
      let w₂ : World D = with_parsers (ps w₁) (record w₁ { config = conf }) in
      (
        record w₂ { mng = record w₂.mng { write_buffer = b } },
        e ∙ rw (finished w₁ refl, answered, d) refl,
        refl,
        is,
        held,
        refl,
      )
