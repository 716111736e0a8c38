-- ===== src/Mng/Session.antt =====
-- A management connection from its start, and a whole request of two events, in the machine of
-- src/mng_handler.c.
use mathlib.Core.List.{Mem, mem-cons_of_mem, mem-cons_self}
use tp_socks5_proxy.Base.{
  ℕ, suc, ◌+◌, ◌-◌, ◌≤◌, ◌<◌, ◌≡◌, ◌≢◌, refl, sym, ap, ◌∙◌, subst, inl, inr, true, none, some, List,
  [], ◌∷◌, ◌++◌, Bytes, length, le→ltb, IsText, arith,
}
use tp_socks5_proxy.Buffer.{Buffer, init, reset}
use tp_socks5_proxy.Buffer.Holds.{Holds, init-Holds}
use tp_socks5_proxy.Buffer.Queue.{write_ptr-Holds}
use tp_socks5_proxy.Selector.{Selector, success, selector_set_interest}
use tp_socks5_proxy.Config.{Config, check_user, max_username_size, max_socks_users}
use tp_socks5_proxy.Config.Table.{Entry, IsTable}
use tp_socks5_proxy.Config.Users.{check_user-Answers, add_user_lem}
use tp_socks5_proxy.Stm.{read_ready, Machine, stm_init, stm_handler, in_order, handle_first, jump}
use tp_socks5_proxy.Socket.{Received, op_write}
use tp_socks5_proxy.Socket.Stream.{receive_lem, receive-write}
use tp_socks5_proxy.Admin.Reply.{Blank, Answered}
use tp_socks5_proxy.Admin.Put.{init as init_put}
use tp_socks5_proxy.Mng.{
  Parsers, Views, Mng, World, with_parsers, with_read_buffer, with_write_buffer, request,
  request_put, replies,
}
use tp_socks5_proxy.Mng.Requests.{put_handler}
use tp_socks5_proxy.Mng.Handlers.{dispatch, handle, first_byte, mng_request}
use tp_socks5_proxy.Mng.Server.{
  mng_state_definition, mng_machine, mng_new, mng_buffer_size, mng_event,
}
use tp_socks5_proxy.Mng.Messages.{request_put_lem}

-- The bytes of a request that adds a user, behind the first one.
abbrev pub put_rest : Bytes → Bytes → Bytes
put_rest u x = 0x00 ∷ length u ∷ (u ++ (length x ∷ x))

last_one : {A : Type 0} (t : List A) (x : A) → Mem x (t ++ (x ∷ []))
last_one [] x = mem-cons_self
last_one (y ∷ t) x = mem-cons_of_mem _ (last_one t x)

known_last :
    (c : Config) (t : List Entry) (u x : Bytes)
    → IsTable c (t ++ ((u, x) ∷ []))
    → IsText u
    → IsText x
    → check_user c u x ≡ some true
known_last c t u x h ut xt = elim (check_user-Answers c (t ++ ((u, x) ∷ [])) u x h ut xt) [
  | inl (e, _) ↦ e
  | inr (_, n) ↦ absurd (n (last_one t (u, x)))
]

module _ {D : Type 0} (v : Views) where
  -- The machine in a state.
  abbrev pub standing : ℕ → Machine (World D)
  standing n = record (mng_machine v) { current = some n }

  pub mng_new_lem :
      (client : ℕ) (junk : Parsers) (a b : Bytes)
      → length a ≡ mng_buffer_size
      → length b ≡ mng_buffer_size
      → (m : Machine (World D)) × (mng : Mng) × (mng_new v client junk a b ≡ some (m, mng))
        × (m ≡ record (mng_machine v) { current = none })
        × Holds mng.read_buffer []
        × Holds mng.write_buffer []
        × (mng.is_open ≡ true)
  unfolding mng_new stm_init in_order mng_state_definition
  mng_new_lem client junk a b la lb = (
    _,
    _,
    refl,
    refl,
    init-Holds (mng_buffer_size + 1) b (omega arith),
    init-Holds (mng_buffer_size + 1) a (omega arith),
    refl,
  )

  -- The buffers of a connection, with a storage that is one byte short of the limit.
  abbrev pub AreBuffers : World D → Type 0
  AreBuffers w =
      (w.mng.read_buffer.limit ≡ suc (length w.mng.read_buffer.mem))
      × (1 < length w.mng.read_buffer.mem)
      × Blank (reset w.mng.write_buffer)

  mng_request_lem :
      (w : World D) (c : ℕ)
      → AreBuffers w
      → w.received ≡ some (c ∷ [])
      → (b : Buffer) × Holds b (c ∷ [])
        × (b.limit ≡ w.mng.read_buffer.limit)
        × (b.write ≡ 1)
        × (mng_request w
            ≡ some
                (dispatch c, with_read_buffer b (with_write_buffer (reset w.mng.write_buffer) w)))
  unfolding mng_request first_byte init
  mng_request_lem w c (l, big, k) got =
      let start : Holds (reset w.mng.read_buffer) [] =
        init-Holds w.mng.read_buffer.limit w.mng.read_buffer.mem (omega arith) in
      let w' : World D =
        with_read_buffer (reset w.mng.read_buffer)
          (with_write_buffer (reset w.mng.write_buffer) w) in
      let (b, arrived, held, lim) = receive_lem (c ∷ []) start (omega arith, omega arith) in
      (
        b,
        held,
        lim,
        receive-write _ (c ∷ []) arrived,
        rw (write_ptr-Holds start, le→ltb (w.mng.read_buffer.limit - 0) 2 (omega arith))
            (ap (λ (o : Received). first_byte o w') got ∙ rw arrived refl),
      )

  -- The first byte of a request that adds a user takes the machine to its state, with a new parser.
  put_begins :
      (w : World D)
      → AreBuffers w
      → w.received ≡ some (0x01 ∷ [])
      → (b : Buffer) × Holds b (0x01 ∷ [])
        × (b.limit ≡ w.mng.read_buffer.limit)
        × (b.write ≡ 1)
        × (mng_event read_ready (standing request) w
            ≡ some (
              standing request_put,
              with_parsers
                  (Parsers.put (init_put (v.as_put w.mng.parsers)))
                  (with_read_buffer b (with_write_buffer (reset w.mng.write_buffer) w)),
            ))
  unfolding mng_event stm_handler handle_first jump mng_state_definition dispatch
  put_begins w bufs got =
      let (b, held, lim, wr, asked) = mng_request_lem w 0x01 bufs got in
      (b, held, lim, wr, rw asked refl)

  -- A request of a state that answers it takes the machine to the state that sends the answer.
  put_ends :
      (w w' : World D)
      → handle (put_handler v) w ≡ some (replies, w')
      → mng_event read_ready (standing request_put) w ≡ some (standing replies, w')
  unfolding mng_event stm_handler handle_first jump mng_state_definition
  put_ends w w' e = rw e refl

  -- An administrator whose connection reads requests adds a user in two events, the first byte and
  -- the rest of the request, where the table holds at most 8 entries, the name and the password
  -- are texts of 1 to 9 bytes and the buffer has room: the machine goes on to the state of the
  -- request and then to the one that sends the answer, the table holds the user behind the others,
  -- checkUser knows it, and the answer 0 stands in front of the buffer, which is to be sent up to
  -- its limit.
  pub session_put :
      (w : World D) (t : List Entry) (u x left : Bytes) {s : Selector D}
      → AreBuffers w
      → w.received ≡ some (0x01 ∷ [])
      → selector_set_interest w.selector w.fd op_write ≡ some (success, s)
      → IsTable w.config t
      → u ≢ []
      → x ≢ []
      → IsText u
      → IsText x
      → length u < max_username_size
      → length x < max_username_size
      → length t + 1 < max_socks_users
      → 1 + length (put_rest u x ++ left) ≤ length w.mng.read_buffer.mem
      → (w₁ : World D) × (w₂ : World D) × (mng_event read_ready (standing request) w
          ≡ some (standing request_put, w₁))
        × (mng_event read_ready
              (standing request_put)
              (record w₁ { received = some (put_rest u x ++ left) })
            ≡ some (standing replies, w₂))
        × IsTable w₂.config (t ++ ((u, x) ∷ []))
        × (check_user w₂.config u x ≡ some true)
        × Answered (reset w.mng.write_buffer) 0x00 w₂.mng.write_buffer
  session_put w t u x left {s} bufs got set h une xne ut xt ul xl room fits =
      let (b, held, lim, wr, begun) = put_begins w bufs got in
      let w₁ : World D =
        with_parsers (Parsers.put (init_put (v.as_put w.mng.parsers)))
          (with_read_buffer b (with_write_buffer (reset w.mng.write_buffer) w)) in
      let next : World D = record w₁ { received = some (put_rest u x ++ left) } in
      let (c, added, h') = add_user_lem w.config t u x h ut xt ul xl room in
      let (w₂, served, conf, answered, _, _) =
        request_put_lem v next set bufs.2 (v.as_put w.mng.parsers) u x left refl
          (record {
            got = refl;
            held = held;
            room = (omega (arith, bufs.0), omega (arith, bufs.0, held.storage));
          })
          une xne ut xt (omega arith) (omega arith) added in
      (
        w₁,
        w₂,
        begun,
        put_ends next w₂ served,
        subst (λ y. IsTable y (t ++ ((u, x) ∷ []))) (sym conf) h',
        ap (λ y. check_user y u x) conf ∙ known_last c t u x h' ut xt,
        answered,
      )
