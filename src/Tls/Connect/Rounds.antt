-- ===== src/Tls/Connect/Rounds.antt =====
-- One round of the handshake loop: how often SSL_connect is called.
use make_down_file.Prelude.{ℕ, zero, suc, ◌+◌, ◌≤◌, ◌≡◌, refl, true, false, List, [], ◌∷◌, arith}
use make_down_file.Run.{Returns, returns, Returns-mono, pure, ◌>>=◌, ◌>>◌}
use make_down_file.Tls.World.{
  ℤ, pos, negsuc, is_positive, SslError, want_read, want_write, other_error, Call, usleep, Lib,
  World, M, call, tell,
}
use make_down_file.Tls.Connect.{retries, ssl_connect, retry_loop, handshake}

-- Is the call one of SSL_connect?
abbrev pub is_connect : Call → ℕ
is_connect (Call.ssl_connect s) = 1
is_connect c = 0

unfoldable pub connects : List Call → ℕ
connects [] = 0
connects (c ∷ t) = is_connect c + connects t

-- Nothing is owned or given up, and from `low` to `high` handshakes are tried.
abbrev pub Tried : ℕ → ℕ → World → World → Type 0
Tried low high w w' =
    (w'.ctxs ≡ w.ctxs)
    × (w'.ssls ≡ w.ssls)
    × (w'.fds ≡ w.fds)
    × (connects w.calls + low ≤ connects w'.calls)
    × (connects w'.calls ≤ connects w.calls + high)

Tried-then :
    (a b c d low high : ℕ) (w0 w1 w2 : World)
    → low ≤ a + c
    → b + d ≤ high
    → Tried a b w0 w1
    → Tried c d w1 w2
    → Tried low high w0 w2
Tried-then a b c d low high w0 w1 w2 p q (x, s, f, l, h) (x1, s1, f1, l1, h1) =
    (rw (x1, x), rw (s1, s), rw (f1, f), omega arith, omega arith)

module _ (lib : Lib) where
  -- The calls of one handshake.
  abbrev tried : ℕ → ℤ → World → World
  tried ssl r w = record w { calls = Call.ssl_get_error ssl r ∷ Call.ssl_connect ssl ∷ w.calls }

  tried-Tried : (ssl : ℕ) (r : ℤ) (w : World) → Tried 1 1 w (tried ssl r w)
  unfolding connects
  tried-Tried ssl r w = (refl, refl, refl, omega arith, omega arith)

  slept-Tried : (w : World) → Tried 0 0 w (record w { calls = usleep ∷ w.calls })
  unfolding connects
  slept-Tried w = (refl, refl, refl, omega arith, omega arith)

  -- A pause, a handshake and the rest of the retries.
  retried :
      (retry ssl : ℕ) (w : World)
      → ((r : ℤ) (err : SslError) (w1 : World)
          → Returns (λ _ w'. Tried 0 retry w1 w') (retry_loop lib retry ssl r err w1))
      → Returns
          (λ _ w'. Tried 0 (suc retry) w w')
          ((tell usleep >> (ssl_connect lib ssl >>= λ (r1, err1). retry_loop lib retry ssl r1 err1))
            w)
  unfolding tell ssl_connect call
  retried retry ssl w ih =
      let w1 : World = record w { calls = usleep ∷ w.calls } in
      let r1 = lib.ssl_connect w1.calls ssl in
      Returns-mono
        (ih r1 (lib.ssl_get_error (Call.ssl_connect ssl ∷ w1.calls) ssl r1) (tried ssl r1 w1))
        (λ _ w' h.
          Tried-then 0 0 0 (suc retry) 0 (suc retry) w w1 w' (omega arith) (omega arith)
            (slept-Tried w)
            (Tried-then 1 1 0 retry 0 (suc retry) w1 (tried ssl r1 w1) w' (omega arith)
              (omega arith) (tried-Tried ssl r1 w1) h))

  retry_loop-Tried :
      (retry ssl : ℕ) (r : ℤ) (err : SslError) (w : World)
      → Returns (λ _ w'. Tried 0 retry w w') (retry_loop lib retry ssl r err w)
  unfolding retry_loop
  retry_loop-Tried zero ssl r err w = returns (refl, refl, refl, omega arith, omega arith)
  retry_loop-Tried (suc retry) ssl r other_error w =
      returns (refl, refl, refl, omega arith, omega arith)
  retry_loop-Tried (suc retry) ssl r want_read w = retried retry ssl w (retry_loop-Tried retry ssl)
  retry_loop-Tried (suc retry) ssl r want_write w = retried retry ssl w (retry_loop-Tried retry ssl)

  -- The rest of a round, on the handshake's result.
  after_connect :
      (r : ℤ) (ssl : ℕ) (w : World)
      → Returns
          (λ _ w'. Tried 1 (suc retries) w w')
          ((elim (is_positive r) as (λ _. M ℤ) [
            | true ↦ pure r
            | false ↦ (do
              err ← call (Call.ssl_get_error ssl r) (λ t. lib.ssl_get_error t ssl r)
              retry_loop lib retries ssl r err)
          ])
            (record w { calls = Call.ssl_connect ssl ∷ w.calls }))
  unfolding call connects
  after_connect (pos (suc m)) ssl w = returns (refl, refl, refl, omega arith, omega arith)
  after_connect (pos zero) ssl w =
      Returns-mono
        (retry_loop-Tried retries ssl (pos zero)
          (lib.ssl_get_error (Call.ssl_connect ssl ∷ w.calls) ssl (pos zero))
          (tried ssl (pos zero) w))
        (λ _ w' h.
          Tried-then 1 1 0 retries 1 (suc retries) w (tried ssl (pos zero) w) w' (omega arith)
            (omega arith) (tried-Tried ssl (pos zero) w) h)
  after_connect (negsuc m) ssl w =
      Returns-mono
        (retry_loop-Tried retries ssl (negsuc m)
          (lib.ssl_get_error (Call.ssl_connect ssl ∷ w.calls) ssl (negsuc m))
          (tried ssl (negsuc m) w))
        (λ _ w' h.
          Tried-then 1 1 0 retries 1 (suc retries) w (tried ssl (negsuc m) w) w' (omega arith)
            (omega arith) (tried-Tried ssl (negsuc m) w) h)

  -- A round makes from one to 201 handshakes.
  pub handshake-Tried :
      (ssl : ℕ) (w : World) → Returns (λ _ w'. Tried 1 (suc retries) w w') (handshake lib ssl w)
  unfolding handshake call
  handshake-Tried ssl w = after_connect (lib.ssl_connect w.calls ssl) ssl w
