-- ===== src/Mng/Overrun.antt =====
-- The buffers of src/mng_handler.c, whose limit is behind their arrays, and what src/mng.c sends from them.
use tp_socks5_proxy.Base.{
  ℕ, ◌+◌, ◌≤◌, ◌<◌, ◌≡◌, ◌≢◌, refl, subst, ap, some_injective, none, some, List, [], ◌∷◌, ◌++◌,
  Bytes, length, IsText, arith,
}
use tp_socks5_proxy.Buffer.{Buffer, init, reset}
use tp_socks5_proxy.Selector.{Selector, success, selector_set_interest}
use tp_socks5_proxy.Config.{max_username_size, max_socks_users}
use tp_socks5_proxy.Config.Table.{Entry, IsTable}
use tp_socks5_proxy.Stm.{
  read_ready, write_ready, Machine, stm_init, stm_handler, in_order, handle_first,
}
use tp_socks5_proxy.Socket.{Sent, op_write}
use tp_socks5_proxy.Admin.Reply.{Blank}
use tp_socks5_proxy.Mng.{Parsers, Views, Mng, World, request, request_put, replies}
use tp_socks5_proxy.Mng.Handlers.{mng_replies}
use tp_socks5_proxy.Mng.Server.{mng_state_definition, mng_new, mng_buffer_size, mng_event}
use tp_socks5_proxy.Mng.Replies.{mng_replies_overrun}
use tp_socks5_proxy.Mng.Session.{standing, put_rest, AreBuffers, session_put}

-- A buffer with the limit of another one, over as large an array.
abbrev pub IsOver : Buffer → Buffer → Type 0
IsOver new b = (b.limit ≡ new.limit) × (length b.mem ≡ length new.mem)

-- The limit that `mng_new` gives is one more than its arrays have.
abbrev IsShort : Buffer → Type 0
IsShort b = (b.limit ≡ mng_buffer_size + 1) × (length b.mem ≡ mng_buffer_size)

reset-Blank : (b : Buffer) (a : Bytes) → b.mem ≡ a → 0 < length a → 0 < b.limit → Blank (reset b)
unfolding reset
reset-Blank b [] e l room = absurd (omega arith)
reset-Blank b (c ∷ cs) e l room = record {
  read_at = refl;
  write_at = refl;
  wide = room;
  first = c;
  rest = cs;
  layout = e;
}

module _ {D : Type 0} (v : Views) where
  mng_new-IsShort :
      (client : ℕ) (junk : Parsers) (a b : Bytes) {m : Machine (World D)} {new : Mng}
      → length a ≡ mng_buffer_size
      → length b ≡ mng_buffer_size
      → mng_new v client junk a b ≡ some (m, new)
      → IsShort new.read_buffer × IsShort new.write_buffer
  unfolding mng_new stm_init in_order mng_state_definition init
  mng_new-IsShort client junk a b la lb e =
      let read_ : init (mng_buffer_size + 1) b ≡ _ = ap (λ x. x.1.read_buffer) (some_injective e) in
      let write_ : init (mng_buffer_size + 1) a ≡ _ =
        ap (λ x. x.1.write_buffer) (some_injective e) in
      (subst IsShort read_ (refl, lb), subst IsShort write_ (refl, la))

  replies_stop :
      (w : World D) → mng_replies w ≡ none → mng_event write_ready (standing v replies) w ≡ none
  unfolding mng_event stm_handler handle_first mng_state_definition
  replies_stop w e = rw e refl

  -- In a connection whose buffers have the limits and the sizes that mng_new gives over arrays of
  -- MNG_BUFFER_SIZE bytes, and which reads requests, a request of two events to add a user, where
  -- the table holds at most 8 entries, the name and the password are texts of 1 to 9 bytes and the
  -- request fits into the array, takes the machine to the state that sends the answer, and there
  -- the next event to write reads behind the end of the array, whatever send returns.
  pub session_put_overrun :
      (client : ℕ) (junk : Parsers) (a b : Bytes) {m : Machine (World D)} {new : Mng}
      → length a ≡ mng_buffer_size
      → length b ≡ mng_buffer_size
      → mng_new v client junk a b ≡ some (m, new)
      → (w : World D) (t : List Entry) (u x left : Bytes) (o : Sent) {s : Selector D}
      → IsOver new.read_buffer w.mng.read_buffer
      → IsOver new.write_buffer w.mng.write_buffer
      → w.received ≡ some (0x01 ∷ [])
      → selector_set_interest w.selector w.fd op_write ≡ some (success, s)
      → IsTable w.config t
      → u ≢ []
      → x ≢ []
      → IsText u
      → IsText x
      → length u < max_username_size
      → length x < max_username_size
      → length t + 1 < max_socks_users
      → 1 + length (put_rest u x ++ left) ≤ mng_buffer_size
      → (w₁ : World D) × (w₂ : World D) × (mng_event read_ready (standing v request) w
          ≡ some (standing v request_put, w₁))
        × (mng_event read_ready
              (standing v request_put)
              (record w₁ { received = some (put_rest u x ++ left) })
            ≡ some (standing v replies, w₂))
        × (mng_event write_ready (standing v replies) (record w₂ { sent = o }) ≡ none)
  unfolding reset
  session_put_overrun client junk a b {m} {new} la lb made w t u x left o {s} over over' got set h
        une xne ut xt ul xl room fits =
      let ((lr, mr), (lw, mw)) = mng_new-IsShort client junk a b la lb made in
      let bufs : AreBuffers v w = (
        omega (arith, over),
        omega (arith, over),
        reset-Blank w.mng.write_buffer _ refl (omega (arith, over')) (omega (arith, over')),
      ) in
      let (w₁, w₂, begun, ended, _, _, answered) =
        session_put v w t u x left {s = s} bufs got set h une xne ut xt ul xl room
          (omega (arith, over)) in
      let last : World D = record w₂ { sent = o } in
      (
        w₁,
        w₂,
        begun,
        ended,
        replies_stop last (
            mng_replies_overrun last 0x00 (reset w.mng.write_buffer) (omega (arith, over'))
              answered),
      )
