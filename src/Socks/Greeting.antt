-- ===== src/Socks/Greeting.antt =====
-- src/socks5_hello.c and src/socks5_auth.c: the choice of a method, and the name and the password.
use tp_socks5_proxy.Base.{
  ℕ, Bool, false, not, ◌&&◌, Option, none, some, [], ◌∷◌, if◌then◌else◌, ◌>>=◌, ◌==◌, leb, length,
  take, assert, blit,
}
use tp_socks5_proxy.Buffer.{write_ptr, can_read}
use tp_socks5_proxy.Selector.{selector_set_interest}
use tp_socks5_proxy.Config.{Config, check_user}
use tp_socks5_proxy.Socket.{
  Received, Sent, op_read, op_write, receive, offered, deliver, raised, is_success, is_negative,
}
use tp_socks5_proxy.Hello.{
  Hello, State as HelloState, init as init_hello, is_done as is_done_hello, hello_consume,
  marshall as hello_marshall,
}
use tp_socks5_proxy.Auth.{
  Auth, init as init_auth, is_done as is_done_auth, auth_consume, marshall as auth_marshall,
}
use tp_socks5_proxy.Mng.{text_of}
use tp_socks5_proxy.Socks.{
  World, hello, auth, with_client, with_read_buffer, with_write_buffer, as_hello, as_auth, ending,
  hello_write, auth_read, auth_write, request_read, socks_done, socks_error,
}

abbrev pub method_no_auth_required : ℕ
method_no_auth_required = 0x00

abbrev pub method_auth_required : ℕ
method_auth_required = 0x02

abbrev pub method_no_acceptable_methods : ℕ
method_no_acceptable_methods = 0xff

abbrev pub auth_success : ℕ
auth_success = 0x00

abbrev pub auth_fail : ℕ
auth_fail = 0x01

-- `on_hello_method`.
unfoldable pub on_hello_method : Config → ℕ → ℕ → ℕ
on_hello_method c selected method =
    if c.auth_enabled
    then (if method == method_auth_required then method else selected)
    else (if method == method_no_auth_required then method else selected)

-- The state behind the answer.
unfoldable pub after_hello : Config → ℕ → ℕ
after_hello c method =
    if (method == method_auth_required) && c.auth_enabled
    then auth_read
    else if (method == method_no_auth_required) && not c.auth_enabled
    then request_read
    else socks_done

-- `check_credentials`.
unfoldable pub check_credentials : Config → Auth → Option ℕ
check_credentials c p = do
  user ← text_of p.user.username
  pass ← text_of p.pass.passwd
  known ← check_user c user pass
  some (if known then auth_success else auth_fail)

module _ {D : Type 0} where
  -- `hello_read_init`: the callback reads the settings at each method; they are those of its event.
  unfoldable pub hello_read_init : ℕ → World D → Option (World D)
  hello_read_init state w = some (
      with_client
        (hello (
          init_hello (record {
            on_auth_method = some (on_hello_method w.config);
            data_of = method_no_acceptable_methods;
            state = HelloState.done;
            remaining = 0;
          })))
        w)

  -- `hello_read` with its parser run: a message that is not whole is an error.
  unfoldable pub hello_parsed : Hello ℕ → Option Bool → World D → Option (ℕ × World D)
  hello_parsed p e w =
      let w' : World D = with_client (hello p) w in
      let (done, e') = is_done_hello p.state e in
      let answered = selector_set_interest w.selector w.fd op_write >>= λ (status, s).
      (let w'' : World D = record w' { selector = s } in
        if is_success status
        then (hello_marshall w.socks.write_buffer p.data_of >>= λ (r, b). some (
          if is_negative r then socks_error else ending (raised e') hello_write,
          with_write_buffer b w'',
        ))
        else some (socks_error, w'')) in
      if done then answered else some (socks_error, w')

  unfoldable pub hello_arrived : Received → World D → Option (ℕ × World D)
  unfolding hello_parsed
  hello_arrived none w = some (socks_error, w)
  hello_arrived (some []) w = some (socks_error, w)
  hello_arrived (some (c ∷ cs)) w = do
    b ← receive w.socks.read_buffer (c ∷ cs)
    p ← as_hello w.socks.client_data
    (p', e, b') ← hello_consume b p (some false)
    hello_parsed p' e (with_read_buffer b' w)

  -- The function `hello_read`.
  unfoldable pub on_hello_read : World D → Option (ℕ × World D)
  unfolding hello_arrived
  on_hello_read w = write_ptr w.socks.read_buffer >>= λ _. hello_arrived w.received w

  -- `send` of what is to be written, with what follows when nothing is left; 0 bytes are not an error.
  unfoldable pub departed :
      ℕ → (World D → Option (ℕ × World D)) → Sent → World D → Option (ℕ × World D)
  departed stay finished none w = some (socks_error, w)
  departed stay finished (some n) w = do
    b ← deliver w.socks.write_buffer n
    if can_read b then some (stay, with_write_buffer b w) else finished (with_write_buffer b w)

  unfoldable pub sending : ℕ → (World D → Option (ℕ × World D)) → World D → Option (ℕ × World D)
  unfolding departed
  sending stay finished w = offered w.socks.write_buffer >>= λ _. departed stay finished w.sent w

  unfoldable pub hello_written : World D → Option (ℕ × World D)
  unfolding after_hello
  hello_written w = do
    (status, s) ← selector_set_interest w.selector w.fd op_read
    p ← as_hello w.socks.client_data
    some (
      if is_success status then after_hello w.config p.data_of else socks_error,
      record w { selector = s },
    )

  -- The function `hello_write`.
  unfoldable pub on_hello_write : World D → Option (ℕ × World D)
  unfolding sending hello_written
  on_hello_write w = sending hello_write hello_written w

  unfoldable pub auth_read_init : ℕ → World D → Option (World D)
  auth_read_init state w =
      some (with_client (auth (record { parser = init_auth; status = none })) w)

  -- `auth_process`.
  unfoldable pub auth_process : Auth → World D → Option (ℕ × World D)
  unfolding check_credentials
  auth_process p w = do
    status ← check_credentials w.config p
    (r, b) ← auth_marshall w.socks.write_buffer status
    some (
      if is_negative r then socks_error else auth_write,
      with_write_buffer b (with_client (auth (record { parser = p; status = some status })) w),
    )

  -- `memcpy(user, username, userlen)` into the connection.
  unfoldable pub copy_user : Auth → World D → Option (World D)
  copy_user p w = do
    _ ← assert (leb p.user.userlen (length p.user.username))
    u ← blit w.socks.user 0 (take p.user.userlen p.user.username)
    some (record w { socks = record w.socks { user = u } })

  -- `auth_read` with its parser run.
  unfoldable pub auth_parsed : Auth → Option ℕ → Option Bool → World D → Option (ℕ × World D)
  unfolding auth_process copy_user
  auth_parsed p old e w =
      let w' : World D = with_client (auth (record { parser = p; status = old })) w in
      let (done, e') = is_done_auth p.state e in
      let answered = selector_set_interest w.selector w.fd op_write >>= λ (status, s).
      (let w'' : World D = record w' { selector = s } in
        if is_success status
        then (auth_process p w'' >>= λ (ret, w₁).
            copy_user p w₁ >>= λ w₂. some (ending (raised e') ret, w₂))
        else some (socks_error, w'')) in
      if done then answered else some (ending (raised e') auth_read, w')

  unfoldable pub auth_arrived : Received → World D → Option (ℕ × World D)
  unfolding auth_parsed
  auth_arrived none w = some (socks_error, w)
  auth_arrived (some bs) w = do
    b ← receive w.socks.read_buffer bs
    a ← as_auth w.socks.client_data
    (p, e, b') ← auth_consume b a.parser (some false)
    auth_parsed p a.status e (with_read_buffer b' w)

  -- The function `auth_read`.
  unfoldable pub on_auth_read : World D → Option (ℕ × World D)
  unfolding auth_arrived
  on_auth_read w = write_ptr w.socks.read_buffer >>= λ _. auth_arrived w.received w

  unfoldable pub auth_written : World D → Option (ℕ × World D)
  auth_written w = do
    a ← as_auth w.socks.client_data
    status ← a.status
    let allowed = selector_set_interest w.selector w.fd op_read >>= λ (st, s).
        some (if is_success st then request_read else socks_error, record w { selector = s })
    if status == auth_success then allowed else some (socks_done, w)

  -- The function `auth_write`.
  unfoldable pub on_auth_write : World D → Option (ℕ × World D)
  unfolding sending auth_written
  on_auth_write w = sending auth_write auth_written w
