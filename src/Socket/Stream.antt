-- ===== src/Socket/Stream.antt =====
-- Receiving and sending as operations on the queue that a buffer holds.
use tp_socks5_proxy.Base.{
  ◌+◌, ◌-◌, ◌≤◌, ◌≡◌, sym, ap, some, ◌++◌, Bytes, bind-eq-some, some_injective, blit, assert, leb,
  length, length-append, arith,
}
use tp_socks5_proxy.Buffer.{Buffer, read_ptr, write_ptr, write_adv, poke}
use tp_socks5_proxy.Buffer.Holds.{Holds, HasRoom, contents-Holds}
use tp_socks5_proxy.Buffer.Queue.{write_ptr-Holds, poke_lem}
use tp_socks5_proxy.Buffer.Compact.{read_adv_lem}
use tp_socks5_proxy.Socket.{receive, offered, deliver}

-- What arrives goes behind the queue.
pub receive_lem :
    {b : Buffer} {q : Bytes} (bs : Bytes)
    → Holds b q
    → HasRoom b (length bs)
    → (b' : Buffer) × (receive b bs ≡ some b') × Holds b' (q ++ bs) × (b'.limit ≡ b.limit)
unfolding receive
receive_lem bs h room =
    let (b', e, held, l) = poke_lem bs h room in (b', rw (write_ptr-Holds h) e, held, l)

-- What is offered is the whole queue.
pub offered_lem : {b : Buffer} {q : Bytes} → Holds b q → offered b ≡ some q
unfolding offered read_ptr
offered_lem {b} {q} h =
    let inside : b.read + (b.write - b.read) ≤ length b.mem = omega (
      arith,
      h.read_at,
      h.write_at,
      ap length h.layout,
      length-append h.pre (q ++ h.post),
      length-append q h.post,
    ) in
    ground (arith, contents-Holds h, h.read_at, h.write_at, inside)

-- What was sent leaves the front of the queue.
pub deliver_lem :
    {b : Buffer} (p q : Bytes)
    → Holds b (p ++ q)
    → (b' : Buffer) × (deliver b (length p) ≡ some b') × Holds b' q × (b'.limit ≡ b.limit)
unfolding deliver
deliver_lem p q h = let (b', e, held, l) = read_adv_lem p q h in (b', rw (offered_lem h) e, held, l)

-- The write pointer moves by what arrived.
pub receive-write :
    (b : Buffer) {b' : Buffer} (bs : Bytes)
    → receive b bs ≡ some b'
    → b'.write ≡ b.write + length bs
unfolding receive poke write_adv
receive-write b {b'} bs e =
    let (n, _, r) = bind-eq-some (write_ptr b) _ e in
    let (m, stored, r') = bind-eq-some (poke b bs) _ r in
    let (a, copied, same) = bind-eq-some (blit b.mem b.write bs) _ stored in
    let (_, _, at) = bind-eq-some (assert (leb (m.write + length bs) m.limit)) _ r' in
    let moved : b'.write ≡ m.write + length bs = ap (λ x. x.write) (sym (some_injective at)) in
    let kept : m.write ≡ b.write = ap (λ x. x.write) (sym (some_injective same)) in omega arith
