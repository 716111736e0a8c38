-- ===== src/Mng/Handlers.antt =====
-- src/mng.c: the handlers of the states of a management connection.
use tp_socks5_proxy.Base.{
  ℕ, zero, suc, Bool, true, false, ◌||◌, Option, none, some, [], ◌∷◌, Bytes, if◌then◌else◌, ◌>>=◌,
  ◌==◌, ltb,
}
use tp_socks5_proxy.Buffer.{reset, can_read, write_ptr}
use tp_socks5_proxy.Parsing.{consume}
use tp_socks5_proxy.Selector.{selector_set_interest}
use tp_socks5_proxy.Socket.{
  Received, Sent, op_read, op_write, op_noop, receive, offered, deliver, raised, is_success,
}
use tp_socks5_proxy.Mng.{
  World, with_parsers, with_read_buffer, with_write_buffer, connect_write, request, request_get,
  request_put, request_edit, request_buffsize, request_configstatus, request_delete, replies,
  mng_done, mng_error,
}
use tp_socks5_proxy.Mng.Requests.{Handler}

-- `err ? MNG_ERROR : ret`.
abbrev pub ending : Bool → ℕ → ℕ
ending err ret = if err then mng_error else ret

-- The state for the first byte of a request; another byte stays in `REQUEST`.
unfoldable pub dispatch : ℕ → ℕ
dispatch c =
    if c == 0x00
    then request_get
    else if c == 0x01
    then request_put
    else if c == 0x02
    then request_edit
    else if c == 0x03
    then request_buffsize
    else if c == 0x04
    then request_configstatus
    else if c == 0x05
    then request_delete
    else request

module _ {D : Type 0} where
  -- The bytes at hand behind `recv`: the parser is run on the buffer; when it is done the connection is
  -- set to write, and the request is carried out.
  unfoldable pub serve : Handler D → Bytes → World D → Option (ℕ × World D)
  serve h bs w = do
    b ← receive w.mng.read_buffer bs
    (p, e, b') ← consume h.k b (h.view w.mng.parsers) (some false)
    let w' : World D = with_parsers (h.pack p) (with_read_buffer b' w)
    let (done, e') = h.k.is_done p e
    let carried = selector_set_interest w.selector w.fd op_write >>= λ (status, s).
        if is_success status
        then (h.finish p (record w' { selector = s }) >>= λ (err, w'').
            some (ending (raised e' || err) h.next, w''))
        else some (mng_error, record w' { selector = s })
    if done then carried else some (ending (raised e') h.stay, w')

  -- The tests of what `recv` returns.
  unfoldable pub arrived : Handler D → Received → World D → Option (ℕ × World D)
  unfolding serve
  arrived h none w = some (mng_error, w)
  arrived h (some []) w = some (mng_error, w)
  arrived h (some (c ∷ cs)) w = serve h (c ∷ cs) w

  -- `mng_connect_read` and the handlers `request_.._request`, which have one text.
  unfoldable pub handle : Handler D → World D → Option (ℕ × World D)
  unfolding arrived
  handle h w = write_ptr w.mng.read_buffer >>= λ _. arrived h w.received w

  -- The tests of what `send` returns.
  unfoldable pub departed :
      ℕ → (World D → Option (ℕ × World D)) → Sent → World D → Option (ℕ × World D)
  departed stay finished none w = some (mng_error, w)
  departed stay finished (some zero) w = some (mng_error, w)
  departed stay finished (some (suc n)) w = do
    b ← deliver w.mng.write_buffer (suc n)
    if can_read b then some (stay, with_write_buffer b w) else finished (with_write_buffer b w)

  -- `send` of what is to be written, with what follows when nothing is left.
  unfoldable pub sending : ℕ → (World D → Option (ℕ × World D)) → World D → Option (ℕ × World D)
  unfolding departed
  sending stay finished w = offered w.mng.write_buffer >>= λ _. departed stay finished w.sent w

  -- `mng_connect_write` with nothing left to send.
  unfoldable pub connect_written : World D → Option (ℕ × World D)
  connect_written w =
      if w.mng.is_open
      then (selector_set_interest w.selector w.fd op_read >>= λ (status, s).
          some
            (ending (if is_success status then false else true) request, record w { selector = s }))
      else some (mng_done, w)

  unfoldable pub mng_connect_write : World D → Option (ℕ × World D)
  unfolding sending connect_written
  mng_connect_write w = sending connect_write connect_written w

  -- One byte is asked for; it stays in the buffer for the parser.
  unfoldable pub first_byte : Received → World D → Option (ℕ × World D)
  unfolding dispatch
  first_byte none w = some (mng_error, w)
  first_byte (some []) w = some (mng_error, w)
  first_byte (some (c ∷ cs)) w = do
    b ← receive w.mng.read_buffer (c ∷ [])
    some (dispatch c, with_read_buffer b w)

  unfoldable pub mng_request : World D → Option (ℕ × World D)
  unfolding first_byte
  mng_request w = do
    let w' : World D =
        with_read_buffer (reset w.mng.read_buffer) (with_write_buffer (reset w.mng.write_buffer) w)
    size ← write_ptr w'.mng.read_buffer
    let asked = first_byte w.received w'
    if ltb size 2 then some (mng_error, w') else asked

  -- `mng_replies` with nothing left to send; the result of the selector is not looked at.
  unfoldable pub replied : World D → Option (ℕ × World D)
  replied w = do
    (_, s) ← selector_set_interest w.selector w.fd op_noop
    some (mng_done, record w { selector = s })

  unfoldable pub mng_replies : World D → Option (ℕ × World D)
  unfolding sending replied
  mng_replies w = sending replies replied w
