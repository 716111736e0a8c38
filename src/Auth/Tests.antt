-- ===== src/Auth/Tests.antt =====
-- A user and its password on their way through the parser.
use tp_socks5_proxy.Base.{
  ◌≡◌, inl, refl, true, false, none, some, [], ◌∷◌, ◌++◌, Bytes, arith, replicate,
}
use tp_socks5_proxy.Buffer.{Buffer}
use tp_socks5_proxy.Buffer.Holds.{Holds, loaded, loaded-Holds}
use tp_socks5_proxy.Auth.{error_user_len, init, auth_consume}
use tp_socks5_proxy.Auth.Message.{message, credentials, auth_consume_message, auth_consume_overrun}
use tp_socks5_proxy.Auth.Sound.{IsMessage, auth_consume_sound, no_name, auth_consume_refuses}

abbrev name : Bytes
name = b'b' ∷ b'o' ∷ b'b' ∷ []

abbrev word : Bytes
word = b'x' ∷ b'y' ∷ []

abbrev later : Bytes
later = 5 ∷ []

auth_consume_message_example :
    (b' : Buffer) × (auth_consume (loaded (message name word ++ later)) init (some false)
      ≡ some (credentials name word, some false, b'))
    × Holds b' later
    × (b'.limit ≡ 9)
auth_consume_message_example =
    auth_consume_message name word later (some false) (loaded-Holds (message name word ++ later))
      (λ e. cc) (omega arith) (λ e. cc) (omega arith)

read :
    auth_consume (loaded (message name word ++ later)) init (some false)
    ≡ some (credentials name word, some false, auth_consume_message_example.0)
read = auth_consume_message_example.1

auth_consume_sound_example :
    (rest : Bytes) × Holds auth_consume_message_example.0 rest
    × IsMessage (message name word ++ later) (some false) (credentials name word, some false, rest)
auth_consume_sound_example =
    auth_consume_sound (some false) (loaded-Holds (message name word ++ later)) (omega arith) read
      refl

abbrev long : Bytes
long = replicate 255 b'a'

auth_consume_overrun_example : auth_consume (loaded (message long word)) init (some false) ≡ none
auth_consume_overrun_example =
    auth_consume_overrun long word [] (some false) (loaded-Holds (message long word)) (inl refl)

auth_consume_refuses_example :
    (b' : Buffer) × (auth_consume (loaded (1 ∷ 0 ∷ later)) init (some false)
      ≡ some (record init { state = error_user_len }, some true, b'))
    × Holds b' later
    × (b'.limit ≡ 3)
auth_consume_refuses_example =
    auth_consume_refuses later (some false) no_name (loaded-Holds (1 ∷ 0 ∷ later))
