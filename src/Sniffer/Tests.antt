-- ===== src/Sniffer/Tests.antt =====
-- A short dialogue, and the theorem at it.
use tp_socks5_proxy.Base.{◌≡◌, refl, some, [], ◌∷◌, Bytes, replicate, arith}
use tp_socks5_proxy.Sniffer.{Sniffer, initial}
use tp_socks5_proxy.Sniffer.Dialogue.{parse_all, dialogue, sniffed, dialogue_lem}

abbrev new : Sniffer
new = record {
  state = initial;
  username = replicate 255 0;
  passwd = replicate 255 0;
  read = 0;
  remaining = 3;
  check_read = 0;
  check_remaining = 0;
  buffer = record { mem = []; limit = 0; read = 0; write = 0 };
}

abbrev bob : Bytes
bob = b'b' ∷ b'o' ∷ b'b' ∷ []

abbrev word : Bytes
word = b'x' ∷ b'y' ∷ []

abbrev ready : Bytes
ready = b' ' ∷ b'h' ∷ b'i' ∷ 13 ∷ 10 ∷ []

abbrev fine : Bytes
fine = b'+' ∷ b'O' ∷ b'K' ∷ 13 ∷ 10 ∷ []

dialogue_lem_example : parse_all (dialogue bob word ready fine) new ≡ some (sniffed new bob word)
dialogue_lem_example =
    dialogue_lem new bob word ready fine refl refl
      ((λ e. omega arith), ((λ e. omega arith), ((λ e. omega arith), tt)))
      ((λ e. omega arith), ((λ e. omega arith), tt)) (omega arith) (omega arith)
      (refl, (refl, (refl, (refl, (refl, tt))))) (refl, (refl, (refl, (refl, (refl, tt)))))
