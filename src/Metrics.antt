-- ===== src/Metrics.antt =====
-- src/metrics.c and include/metrics.h: the counters of bytes, which wrap at 2 ^ 64, and of connections,
-- whose `int` is taken not to overflow.
use tp_socks5_proxy.Base.{ℕ, zero, suc, ◌+◌, ◌-◌, ◌%◌, ◌^◌}
use tp_socks5_proxy.Buffer.{ℤ, pos, negsuc}

pub record Metrics : Type 0 where
  pub sent_byte : ℕ
  pub received_bytes : ℕ
  pub historic_connections : ℤ
  pub current_connections : ℤ
  pub connecting_clients : ℤ

abbrev pub increment : ℤ → ℤ
increment (pos n) = pos (suc n)
increment (negsuc zero) = pos 0
increment (negsuc (suc n)) = negsuc n

abbrev pub decrement : ℤ → ℤ
decrement (pos zero) = negsuc 0
decrement (pos (suc n)) = pos n
decrement (negsuc n) = negsuc (suc n)

-- `init_metrics`: the count of clients stays.
unfoldable pub init_metrics : Metrics → Metrics
init_metrics m = record m {
  sent_byte = 0;
  received_bytes = 0;
  historic_connections = pos 0;
  current_connections = pos 0;
}

unfoldable pub add_connecting_clients : Metrics → Metrics
add_connecting_clients m = record m { connecting_clients = increment m.connecting_clients }

unfoldable pub end_connecting_clients : Metrics → Metrics
end_connecting_clients m = record m { connecting_clients = decrement m.connecting_clients }

unfoldable pub add_connection : Metrics → Metrics
add_connection m = record m {
  historic_connections = increment m.historic_connections;
  current_connections = increment m.current_connections;
}

unfoldable pub end_connection : Metrics → Metrics
end_connection m = record m { current_connections = decrement m.current_connections }

unfoldable pub add_sent_byte : ℕ → Metrics → Metrics
add_sent_byte n m = record m { sent_byte = (m.sent_byte + n) % 2 ^ 64 }

unfoldable pub add_received_bytes : ℕ → Metrics → Metrics
add_received_bytes n m = record m { received_bytes = (m.received_bytes + n) % 2 ^ 64 }

unfoldable pub get_transfered_bytes : Metrics → ℕ
get_transfered_bytes m = (m.sent_byte + m.received_bytes) % 2 ^ 64

-- An `int` as a `uint32_t`.
abbrev pub to_u32 : ℤ → ℕ
to_u32 (pos n) = n % 2 ^ 32
to_u32 (negsuc n) = 2 ^ 32 - suc (n % 2 ^ 32)
