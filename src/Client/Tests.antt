-- ===== src/Client/Tests.antt =====
-- The requests of a client for a token, a name and a password of one byte.
use tp_socks5_proxy.Base.{refl, inr, none, [], ◌∷◌, Bytes, arith}
use tp_socks5_proxy.Admin.Connect.{init as init_connect, admin_connect_consume}
use tp_socks5_proxy.Admin.Connect.Message.{connected}
use tp_socks5_proxy.Admin.Put.{init as init_put, admin_put_consume}
use tp_socks5_proxy.Admin.Put.Message.{putting}
use tp_socks5_proxy.Admin.Edit.{init as init_edit, admin_edit_consume}
use tp_socks5_proxy.Admin.Edit.Message.{editing}
use tp_socks5_proxy.Admin.Delete.{init as init_delete, admin_delete_consume}
use tp_socks5_proxy.Admin.Delete.Message.{deleting}
use tp_socks5_proxy.Client.{login, send_put_request, send_edit_request, send_delete_request}
use tp_socks5_proxy.Client.Parsed.{Taken, requests_lem}
use tp_socks5_proxy.Mng.Sample.{connect, put, edit, delete}

abbrev name : Bytes
name = 97 ∷ []

abbrev word : Bytes
word = 98 ∷ []

requests_lem_example :
    Taken
      (login 7 (99 ∷ []))
      (λ b. admin_connect_consume b (init_connect connect) none)
      (connected connect (99 ∷ []))
      none
      (0 ∷ 7 ∷ [])
    × Taken
        (send_put_request name word)
        (λ b. admin_put_consume b (init_put put) none)
        (putting put name word)
        none
        []
    × Taken
        (send_edit_request name 0x01 word)
        (λ b. admin_edit_consume b (init_edit edit) none)
        (editing edit name 0x01 word)
        none
        (0 ∷ [])
    × Taken
        (send_delete_request name)
        (λ b. admin_delete_consume b (init_delete delete) none)
        (deleting delete name)
        none
        []
requests_lem_example =
    requests_lem connect put edit delete (99 ∷ []) name word 0x01 7 none (λ e. cc) (λ e. cc)
      (λ e. cc) (omega arith) (omega arith) (omega arith) (inr refl) (refl, refl) refl
