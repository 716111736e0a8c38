-- ===== src/Socks/Closing.antt =====
-- The end of a connection in src/socks5.c, and the memory that it leaves.
use tp_socks5_proxy.Base.{ℕ, suc, true, Option, none, some, [], if◌then◌else◌, ◌>>=◌, ◌==◌, ltb}
use tp_socks5_proxy.Selector.{selector_unregister_fd}
use tp_socks5_proxy.Metrics.{end_connection, end_connecting_clients}
use tp_socks5_proxy.Socks.{World, Socks, with_socks, status_close}

-- `socks5_free`.
abbrev pub socks5_free : Socks → Socks
socks5_free s = record s { freed = true; server_resolution = [] }

-- The descriptors of a connection that are closed already are counted.
unfoldable pub close_counted : Option ℕ → ℕ → Socks → Option Socks
close_counted none n s = some (socks5_free s)
close_counted (some fd) n s =
    if ltb 0 n then some (socks5_free s) else some (record s { to_free = suc n })

-- `socks5_close`, which may not be called once the memory is freed.
unfoldable pub socks5_close : Socks → Option Socks
unfolding close_counted
socks5_close s = if s.freed then none else close_counted s.final_server_fd s.to_free s

module _ {D : Type 0} where
  -- `selector_unregister_fd` with the `handle_close` of the item that it had.
  unfoldable pub unregister : ℕ → World D → Option (World D)
  unregister fd w = selector_unregister_fd w.selector fd >>= λ (_, item, s).
      (let w' : World D = record w { selector = s } in
        elim item [
          | none ↦ some w'
          | some _ ↦ socks5_close w.socks >>= λ k. some (with_socks k w')
        ])

  -- `if (fds[i] != -1) { selector_unregister_fd(key->s, fds[i]); }`.
  abbrev pub unregister_open : Option ℕ → World D → Option (World D)
  unregister_open none w = some w
  unregister_open (some fd) w = unregister fd w

  -- The function `socks5_done`; the descriptors are read first.
  unfoldable pub finish_socks : World D → Option (World D)
  finish_socks w =
      let counted =
        if w.socks.status == status_close then end_connection w.metrics else w.metrics in
      unregister w.socks.client_fd (record w { metrics = end_connecting_clients counted })
      >>= unregister_open w.socks.final_server_fd
