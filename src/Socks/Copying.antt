-- ===== src/Socks/Copying.antt =====
-- src/socks5_copy.c: the bytes between the client and the server. `shutdown` changes nothing here, and
-- `ip_to_str` is the text of an address.
use tp_socks5_proxy.Base.{
  ℕ, ◌+◌, Bool, true, false, ◌&&◌, ◌||◌, Option, none, some, [], ◌∷◌, Bytes, if◌then◌else◌, ◌>>=◌,
  ◌==◌, length, take,
}
use tp_socks5_proxy.Buffer.{Buffer, write_ptr, can_read, can_write}
use tp_socks5_proxy.Metrics.{add_sent_byte, add_received_bytes}
use tp_socks5_proxy.Sniffer.{pop3sniff}
use tp_socks5_proxy.Socket.{Received, Sent, receive, offered, deliver}
use tp_socks5_proxy.Socks.{
  World, Socks, CopyData, copy, with_client, with_read_buffer, with_write_buffer, with_status,
  as_copy, copying, socks_done, status_close,
}
use tp_socks5_proxy.Socks.Connecting.{set_any, is_open}

-- A side of the connection: the client's, or the server's. `rb` is where it reads to, `wb` what it writes.
pub data Side : Type 0 where
  client server : Side

abbrev pub other : Side → Side
other client = server
other server = client

abbrev pub fd_of : Side → Socks → Option ℕ
fd_of client s = some (s.client_fd)
fd_of server s = s.final_server_fd

abbrev pub rb_of : Side → Socks → Buffer
rb_of client s = s.read_buffer
rb_of server s = s.write_buffer

abbrev pub wb_of : Side → Socks → Buffer
wb_of client s = s.write_buffer
wb_of server s = s.read_buffer

abbrev pub data_of : Side → Socks → Option CopyData
data_of client s = as_copy s.client_data
data_of server s = some (s.server_copy)

-- `interest`: the bits 1 and 4.
abbrev pub interest_of : Bool → Bool → ℕ
interest_of r w = (if r then 1 else 0) + (if w then 4 else 0)

module _ {D : Type 0} where
  abbrev pub with_rb : Side → Buffer → World D → World D
  with_rb client = with_read_buffer
  with_rb server = with_write_buffer

  abbrev pub with_wb : Side → Buffer → World D → World D
  with_wb client = with_write_buffer
  with_wb server = with_read_buffer

  abbrev pub with_data : Side → CopyData → World D → World D
  with_data client c w = with_client (copy c) w
  with_data server c w = record w { socks = record w.socks { server_copy = c } }

  unfoldable pub copy_init : ℕ → World D → Option (World D)
  copy_init state w =
      let both : CopyData = record { reads = true; writes = true } in
      some (with_data server both (with_data client both w))

  -- `copy_determine_interests`, whose result is not looked at.
  unfoldable pub copy_determine_interests : Side → World D → Option (World D)
  copy_determine_interests side w = do
    c ← data_of side w.socks
    set_any (fd_of side w.socks)
        (interest_of (c.reads && can_write (rb_of side w.socks))
          (c.writes && can_read (wb_of side w.socks)))
        w

  -- `get_copy_data`.
  unfoldable pub get_copy_data : World D → Side
  get_copy_data w = if w.fd == w.socks.client_fd then client else server

  -- The end of `copy_read` and of `copy_write`.
  unfoldable pub copied : Side → ℕ → World D → Option (ℕ × World D)
  unfolding copy_determine_interests
  copied side ret w = do
    w₁ ← copy_determine_interests side w
    w₂ ← copy_determine_interests (other side) w₁
    c ← data_of side w₂.socks
    some (if c.reads || c.writes then ret else socks_done, w₂)

  -- A side whose bytes ended, or which is not there any more.
  abbrev pub stop_reading : Side → World D → Option (World D)
  stop_reading side w =
      data_of side w.socks >>= λ c. some (with_data side (record c { reads = false }) w)

  abbrev pub stop_writing : Side → World D → Option (World D)
  stop_writing side w =
      data_of side w.socks >>= λ c. some (with_data side (record c { writes = false }) w)

  module _ (ip_to_str : Bytes → Bytes) where
    -- `pop3sniff` on the bytes that passed.
    abbrev pub sniff : Bytes → World D → Option (World D)
    sniff bs w = do
      (s, l) ←
          pop3sniff w.config bs (ip_to_str w.socks.final_server_addr) (w.socks.sniffer, w.sniffed)
      some (record w { socks = record w.socks { sniffer = s }; sniffed = l })

    abbrev pub closing_read : Side → World D → Option (ℕ × World D)
    closing_read side w = do
      w₁ ← stop_reading side (with_status status_close w)
      w₂ ← (if is_open (fd_of (other side) w₁.socks) then stop_writing (other side) w₁ else some w₁)
      copied side socks_done w₂

    unfoldable pub copy_arrived : Side → Received → World D → Option (ℕ × World D)
    unfolding copied
    copy_arrived side none w = closing_read side w
    copy_arrived side (some []) w = closing_read side w
    copy_arrived side (some (c ∷ cs)) w = do
      b ← receive (rb_of side w.socks) (c ∷ cs)
      let w₁ : World D = with_rb side b w
      let counted : World D = record w₁ { metrics = add_sent_byte (length (c ∷ cs)) w₁.metrics }
      w₂ ← sniff (c ∷ cs) (elim side [ client ↦ counted | server ↦ w₁ ])
      copied side copying w₂

    unfoldable pub copy_read : World D → Option (ℕ × World D)
    unfolding copy_arrived get_copy_data
    copy_read w =
        let side = get_copy_data w in
        write_ptr (rb_of side w.socks) >>= λ _. copy_arrived side w.received w

    unfoldable pub copy_departed : Side → Bytes → Sent → World D → Option (ℕ × World D)
    unfolding copied
    copy_departed side bs none w = do
      w₁ ← stop_writing side (with_status status_close w)
      w₂ ← (if is_open (fd_of (other side) w₁.socks) then stop_reading (other side) w₁ else some w₁)
      copied side socks_done w₂
    copy_departed side bs (some n) w = do
      b ← deliver (wb_of side w.socks) n
      let w₁ : World D = with_wb side b w
      let counted : World D = record w₁ { metrics = add_received_bytes n w₁.metrics }
      w₂ ← sniff (take n bs) (elim side [ client ↦ counted | server ↦ w₁ ])
      copied side copying w₂

    unfoldable pub copy_write : World D → Option (ℕ × World D)
    unfolding copy_departed get_copy_data
    copy_write w =
        let side = get_copy_data w in
        offered (wb_of side w.socks) >>= λ bs. copy_departed side bs w.sent w
