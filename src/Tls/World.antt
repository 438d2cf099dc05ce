-- ===== src/Tls/World.antt =====
-- What the TLS client acts on: the contexts and connections of OpenSSL that it owns, its sockets, the
-- certificate store, the locks, and the calls made. The library's and the kernel's answers are
-- parameters.
use make_down_file.Prelude.{
  ℕ, zero, suc, ◌+◌, Bool, true, false, Option, none, some, List, [], ◌∷◌, ◌++◌, if◌then◌else◌, has,
  erase,
}
use make_down_file.Run.{Cmd, ok, fault}

-- C's `int`, over the native numbers.
pub data ℤ : Type 0 where
  pos negsuc : ℕ → ℤ

abbrev pub is_positive : ℤ → Bool
is_positive (pos zero) = false
is_positive (pos (suc n)) = true
is_positive (negsuc n) = false

-- What SSL_get_error tells, as far as the code looks at it.
pub data SslError : Type 0 where
  want_read want_write other_error : SslError

-- The files that the client reads.
pub data File : Type 0 where
  ca_cert_file ca_cert_file2 sign_cert_file sign_key_file encode_cert_file encode_key_file : File

pub data Call : Type 0 where
  ctx_new library_init : Call
  ctx_set_sigalgs ctx_set_cipher_list ctx_set_verify ctx_set_verify_depth : ℕ → Call
  pem_read : File → Call
  sk_find : ℕ → Call
  load_verify_locations gm_load_verify_locations use_certificate_file use_private_key_file :
      ℕ → File → Call
  check_private_key : ℕ → Call
  socket : Call
  connect : ℕ → Call
  ssl_new : ℕ → Call
  ssl_set_fd : ℕ → ℕ → Call
  ssl_set_options : ℕ → Call
  ssl_connect : ℕ → Call
  ssl_get_error : ℕ → ℤ → Call
  usleep : Call
  sock_should_retry : ℤ → Call
  select : ℕ → Call
  ssl_free ctx_free close : ℕ → Call

pub record Lib : Type 0 where
  pub memory : ℕ → Bool
  pub ctx_new : List Call → Option ℕ
  pub pem_read : List Call → File → Option ℕ
  pub sk_find : List ℕ → ℕ → Bool
  pub sk_sort : List ℕ → List ℕ
  pub load_file : List Call → Call → Bool
  pub socket : List Call → Option ℕ
  pub connect : List Call → ℕ → Bool
  pub ssl_new : List Call → ℕ → Option ℕ
  pub ssl_connect : List Call → ℕ → ℤ
  pub ssl_get_error : List Call → ℕ → ℤ → SslError
  pub sock_should_retry : List Call → ℤ → Bool

pub record World : Type 0 where
  pub next : ℕ
  pub ctxs : List ℕ
  pub ssls : List ℕ
  pub fds : List ℕ
  pub certs : List ℕ
  pub held_locks : List ℕ
  pub calls : List Call

abbrev pub M : Type 0 → Type 0
M A = Cmd World A

unfoldable pub call : {A : Type 0} → Call → (List Call → A) → M A
call c answer w = ok (answer w.calls) (record w { calls = c ∷ w.calls })

unfoldable pub undefined : {A : Type 0} → M A
undefined w = fault

-- A call with no answer that the code looks at.
unfoldable pub tell : Call → M (Unit {0})
unfolding call
tell c = call c (λ t. tt)

-- SSL_CTX_new, SSL_new and socket hand out something that the caller owns.
unfoldable pub new_ctx : Lib → M (Option ℕ)
new_ctx lib w = elim (lib.ctx_new w.calls) [
  | none ↦ ok none (record w { calls = Call.ctx_new ∷ w.calls })
  | some c ↦ ok (some c) (record w { ctxs = c ∷ w.ctxs; calls = Call.ctx_new ∷ w.calls })
]

unfoldable pub new_ssl : Lib → ℕ → M (Option ℕ)
new_ssl lib ctx w = elim (lib.ssl_new w.calls ctx) [
  | none ↦ ok none (record w { calls = Call.ssl_new ctx ∷ w.calls })
  | some s ↦ ok (some s) (record w { ssls = s ∷ w.ssls; calls = Call.ssl_new ctx ∷ w.calls })
]

unfoldable pub new_socket : Lib → M (Option ℕ)
new_socket lib w = elim (lib.socket w.calls) [
  | none ↦ ok none (record w { calls = Call.socket ∷ w.calls })
  | some fd ↦ ok (some fd) (record w { fds = fd ∷ w.fds; calls = Call.socket ∷ w.calls })
]

-- Freeing what is not live is undefined.
unfoldable pub free_ssl : ℕ → M (Unit {0})
free_ssl s w =
    if has s w.ssls
    then ok tt (record w { ssls = erase s w.ssls; calls = Call.ssl_free s ∷ w.calls })
    else fault

unfoldable pub free_ctx : ℕ → M (Unit {0})
free_ctx c w =
    if has c w.ctxs
    then ok tt (record w { ctxs = erase c w.ctxs; calls = Call.ctx_free c ∷ w.calls })
    else fault

unfoldable pub close_fd : ℕ → M (Unit {0})
close_fd fd w = ok tt (record w { fds = erase fd w.fds; calls = Call.close fd ∷ w.calls })

unfoldable pub add_cert : Lib → ℕ → M (Unit {0})
add_cert lib c w = ok tt (record w { certs = lib.sk_sort (w.certs ++ c ∷ []) })

unfoldable pub lock : ℕ → M (Unit {0})
lock l w = ok tt (record w { held_locks = l ∷ w.held_locks })

unfoldable pub unlock : ℕ → M (Unit {0})
unlock l w =
    if has l w.held_locks then ok tt (record w { held_locks = erase l w.held_locks }) else fault

-- A number for a new object: CRYPTO_THREAD_lock_new or CRYPTO_malloc.
unfoldable pub alloc : Lib → M (Option ℕ)
alloc lib w =
    if lib.memory w.next
    then ok (some w.next) (record w { next = w.next + 1 })
    else ok none (record w { next = w.next + 1 })

unfoldable pub found : Lib → ℕ → M Bool
found lib c w = ok (lib.sk_find w.certs c) (record w { calls = Call.sk_find c ∷ w.calls })
