-- ===== src/Tls/Connect.antt =====
-- Cert_SSL_AddCACert and create_ssl_conect.
pub mod Rounds
pub mod Settled
use make_down_file.Prelude.{
  ℕ, zero, suc, ◌+◌, Bool, true, false, not, ◌||◌, Option, none, some, List, [], ◌∷◌, if◌then◌else◌,
}
use make_down_file.Run.{out_of_fuel, pure, ◌>>=◌, ◌>>◌}
use make_down_file.Tls.World.{
  ℤ, pos, negsuc, is_positive, SslError, want_read, want_write, other_error, File, ca_cert_file,
  ca_cert_file2, Call, ctx_set_sigalgs, ctx_set_cipher_list, ctx_set_verify, ctx_set_verify_depth,
  ssl_set_fd, ssl_set_options, usleep, select, Lib, World, M, call, undefined, tell, new_ctx,
  new_ssl, free_ssl, free_ctx, close_fd, add_cert, lock, unlock, alloc, found,
}

-- `retry` at its start.
abbrev pub retries : ℕ
retries = 200

module _ (lib : Lib) where
  -- A missing lock or block is used all the same. The lock stays taken when the certificate is there.
  unfoldable pub cert_ssl_add_ca_cert : File → M (Unit {0})
  unfolding call undefined add_cert lock unlock alloc found
  cert_ssl_add_ca_cert pwd = do
    cert ← call (Call.pem_read pwd) (λ t. lib.pem_read t pwd)
    elim cert [
      | none ↦ pure tt
      | some x ↦ (do
        made ← alloc lib
        block ← alloc lib
        elim block [
          | none ↦ undefined
          | some obj ↦ elim made [
            | none ↦ undefined
            | some l ↦ (do
              lock l
              there ← found lib x
              elim there [ true ↦ pure tt | false ↦ (do add_cert lib x; unlock l) ])
          ]
        ])
    ]

  abbrev pub wants_more : SslError → Bool
  wants_more want_read = true
  wants_more want_write = true
  wants_more other_error = false

  unfoldable pub ssl_connect : ℕ → M (ℤ × SslError)
  unfolding call
  ssl_connect ssl = do
    r ← call (Call.ssl_connect ssl) (λ t. lib.ssl_connect t ssl)
    err ← call (Call.ssl_get_error ssl r) (λ t. lib.ssl_get_error t ssl r)
    pure (r, err)

  -- `while ((err == …WANT_READ || err == …WANT_WRITE) && retry--)`
  unfoldable pub retry_loop : ℕ → ℕ → ℤ → SslError → M ℤ
  unfolding tell ssl_connect
  retry_loop zero ssl r err = pure r
  retry_loop (suc retry) ssl r err = elim (wants_more err) [
    | false ↦ pure r
    | true ↦ (do tell usleep; (r1, err1) ← ssl_connect ssl; retry_loop retry ssl r1 err1)
  ]

  -- One round of `for ( ; ; )`, up to the end of the first `if`. The error is asked for only if the
  -- handshake did not succeed.
  unfoldable pub handshake : ℕ → M ℤ
  unfolding call retry_loop
  handshake ssl = do
    r ← call (Call.ssl_connect ssl) (λ t. lib.ssl_connect t ssl)
    elim (is_positive r) [
      | true ↦ pure r
      | false ↦ (do
        err ← call (Call.ssl_get_error ssl r) (λ t. lib.ssl_get_error t ssl r)
        retry_loop retries ssl r err)
    ]

  -- The whole loop; waiting in `select` for the socket is one call.
  unfoldable pub connect_loop : ℕ → ℕ → ℕ → M ℤ
  unfolding call tell handshake
  connect_loop zero ssl fd = λ w. out_of_fuel
  connect_loop (suc fuel) ssl fd = do
    r ← handshake ssl
    again ← call (Call.sock_should_retry r) (λ t. lib.sock_should_retry t r)
    elim again [ false ↦ pure r | true ↦ (do tell (select fd); connect_loop fuel ssl fd) ]

  -- From `SSL_new` on; `main` has the same code.
  unfoldable pub connect_ssl : ℕ → ℕ → ℕ → M (Option ℕ)
  unfolding tell new_ssl free_ssl free_ctx close_fd connect_loop
  connect_ssl fuel ctx fd = do
    made ← new_ssl lib ctx
    elim made [
      | none ↦ pure none
      | some ssl ↦ (do
        tell (ssl_set_fd ssl fd)
        tell (ssl_set_options ssl)
        r ← connect_loop fuel ssl fd
        elim (is_positive r) [
          | true ↦ pure (some ssl)
          | false ↦ (do free_ssl ssl; free_ctx ctx; close_fd fd; pure none)
        ])
    ]

  unfoldable pub verify_peer : ℕ → Bool → M (Unit {0})
  unfolding tell cert_ssl_add_ca_cert
  verify_peer ctx false = pure tt
  verify_peer ctx true = do
    tell (ctx_set_verify ctx)
    tell (ctx_set_verify_depth ctx)
    cert_ssl_add_ca_cert ca_cert_file2
    cert_ssl_add_ca_cert ca_cert_file

  -- The argument `ctx` is overwritten at once.
  unfoldable pub create_ssl_conect : ℕ → ℕ → Bool → M (Option ℕ)
  unfolding tell new_ctx verify_peer connect_ssl
  create_ssl_conect fuel fd flag = do
    made ← new_ctx lib
    elim made [
      | none ↦ pure none
      | some ctx ↦ (do
        tell (ctx_set_sigalgs ctx)
        tell (ctx_set_cipher_list ctx)
        verify_peer ctx flag
        connect_ssl fuel ctx fd)
    ]
