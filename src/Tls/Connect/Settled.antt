-- ===== src/Tls/Connect/Settled.antt =====
-- create_ssl_conect ends once the socket asks for no further try, and owns the connection or nothing.
use mathlib.Core.Bool.{false≢true}
use make_down_file.Prelude.{
  ltb, ◌∙◌, ℕ, zero, suc, ◌+◌, ◌<◌, ◌≤◌, ◌≡◌, refl, sym, Bool, true, false, Option, none, some,
  List, ◌∷◌, arith, erase, ==_refl, Bool-cases, inl, inr,
}
use make_down_file.Run.{Returns, returns, Returns-mono, Returns-bind, Ends-Returns, pure, ◌>>◌}
use make_down_file.Tls.World.{
  ℤ, pos, negsuc, is_positive, File, ca_cert_file, ca_cert_file2, Call, ssl_set_fd, ssl_set_options,
  select, Lib, World, M, call, tell, new_ctx, new_ssl, free_ssl, free_ctx, close_fd,
}
use make_down_file.Tls.Connect.{
  retries, cert_ssl_add_ca_cert, connect_loop, connect_ssl, verify_peer, create_ssl_conect,
}
use make_down_file.Tls.Connect.Rounds.{connects, Tried, handshake-Tried}

-- After so many handshakes the socket asks for no further one.
abbrev pub Settles : Lib → ℕ → Type 0
Settles lib n = (t : List Call) (r : ℤ) → n ≤ connects t → lib.sock_should_retry t r ≡ false

abbrev Kept : World → World → Type 0
Kept w w' = (w'.ctxs ≡ w.ctxs) × (w'.ssls ≡ w.ssls) × (w'.fds ≡ w.fds)

-- What is owned in the end: the connection and its context after a success, nothing of them and no
-- socket otherwise.
abbrev pub Owned : ℕ → ℕ → ℕ → World → Option ℕ → World → Type 0
Owned ctx ssl fd w (some s) w' =
    (s ≡ ssl) × (w'.ssls ≡ ssl ∷ w.ssls) × (w'.ctxs ≡ ctx ∷ w.ctxs) × (w'.fds ≡ w.fds)
Owned ctx ssl fd w none w' = (w'.ssls ≡ w.ssls) × (w'.ctxs ≡ w.ctxs) × (w'.fds ≡ erase fd w.fds)

module _ (lib : Lib) where
  unsettled :
      (n : ℕ) (t : List Call) (r : ℤ)
      → Settles lib n
      → lib.sock_should_retry t r ≡ true
      → connects t < n
  unsettled n t r s y = elim (Bool-cases (ltb (connects t) n)) [
    | inl l ↦ ground arith
    | inr g ↦
        let enough : n ≤ connects t = ground arith in elim (false≢true (sym (s t r enough) ∙ y)) [ ]
  ]

  -- Asking the socket for another round.
  asked :
      (fuel ssl fd n : ℕ) (w w1 : World) (r : ℤ)
      → Settles lib n
      → n < connects w.calls + suc fuel
      → Tried 1 (suc retries) w w1
      → ((w2 : World)
          → 0 < fuel
          → n < connects w2.calls + fuel
          → Returns (λ _ w'. Kept w2 w') (connect_loop lib fuel ssl fd w2))
      → Returns
          (λ _ w'. Kept w w')
          ((elim (lib.sock_should_retry w1.calls r) as (λ _. M ℤ) [
            | false ↦ pure r
            | true ↦ (do tell (select fd); connect_loop lib fuel ssl fd)
          ])
            (record w1 { calls = Call.sock_should_retry r ∷ w1.calls }))
  unfolding call tell connects
  asked fuel ssl fd n w w1 r s h t ih = elim (Bool-cases (lib.sock_should_retry w1.calls r)) [
    | inr f ↦ rw f (returns (t.0, t.1, t.2))
    | inl y ↦
        let w2 : World = record w1 { calls = select fd ∷ Call.sock_should_retry r ∷ w1.calls } in
        let few : connects w1.calls < n = unsettled n w1.calls r s y in
        rw y (
          Returns-mono (ih w2 (omega arith) (omega arith))
            (λ _ w' (k : Kept w2 w'). (rw (k.0, t.0), rw (k.1, t.1), rw (k.2, t.2))))
  ]

  -- The loop ends when there is fuel for the handshakes that are missing.
  connect_loop-Kept :
      (fuel ssl fd n : ℕ) (w : World)
      → Settles lib n
      → 0 < fuel
      → n < connects w.calls + fuel
      → Returns (λ _ w'. Kept w w') (connect_loop lib fuel ssl fd w)
  unfolding connect_loop call
  connect_loop-Kept zero ssl fd n w s p h = let f : ⊥ = omega arith in elim f [ ]
  connect_loop-Kept (suc fuel) ssl fd n w s p h =
      Returns-bind (handshake-Tried lib ssl w) (λ (r : ℤ) w1 (t : Tried 1 (suc retries) w w1).
        asked fuel ssl fd n w w1 r s h t (λ w2. connect_loop-Kept fuel ssl fd n w2 s))

  -- A certificate added, or there already, or not readable.
  cert_ssl_add_ca_cert-Kept :
      (pwd : File) (w : World)
      → ((m : ℕ) → lib.memory m ≡ true)
      → Returns (λ _ w'. Kept w w') (cert_ssl_add_ca_cert lib pwd w)
  unfolding cert_ssl_add_ca_cert
  cert_ssl_add_ca_cert-Kept pwd w m = Ends-Returns _ (ground (arith, m w.next, m (w.next + 1)))

  verify_peer-Kept :
      (ctx : ℕ) (flag : Bool) (w : World)
      → ((m : ℕ) → lib.memory m ≡ true)
      → Returns (λ _ w'. Kept w w') (verify_peer lib ctx flag w)
  unfolding verify_peer tell call
  verify_peer-Kept ctx false w m = returns (refl, refl, refl)
  verify_peer-Kept ctx true w m =
      Returns-bind (cert_ssl_add_ca_cert-Kept ca_cert_file2 _ m) (λ _ w1 (k : Kept w w1).
        Returns-mono (cert_ssl_add_ca_cert-Kept ca_cert_file w1 m)
          (λ _ w2 (k2 : Kept w1 w2). (rw (k2.0, k.0), rw (k2.1, k.1), rw (k2.2, k.2))))

  finished :
      (r : ℤ) (ctx ssl fd : ℕ) (w w1 : World)
      → w1.ssls ≡ ssl ∷ w.ssls
      → w1.ctxs ≡ ctx ∷ w.ctxs
      → w1.fds ≡ w.fds
      → Returns (Owned ctx ssl fd w) (
          (elim (is_positive r) as (λ _. M (Option ℕ)) [
            | true ↦ pure (some ssl)
            | false ↦ (do free_ssl ssl; free_ctx ctx; close_fd fd; pure none)
          ])
            w1)
  unfolding free_ssl free_ctx close_fd
  finished (pos (suc m)) ctx ssl fd w w1 s c f = returns (refl, s, c, f)
  finished (pos zero) ctx ssl fd w w1 s c f =
      simp (s, c, f, ==_refl ssl, ==_refl ctx) (returns (refl, refl, refl))
  finished (negsuc m) ctx ssl fd w w1 s c f =
      simp (s, c, f, ==_refl ssl, ==_refl ctx) (returns (refl, refl, refl))

  connect_ssl-Owned :
      (n ctx ssl fd : ℕ) (w w0 : World)
      → Settles lib n
      → ((t : List Call) (c : ℕ) → lib.ssl_new t c ≡ some ssl)
      → w0.ctxs ≡ ctx ∷ w.ctxs
      → w0.ssls ≡ w.ssls
      → w0.fds ≡ w.fds
      → Returns (Owned ctx ssl fd w) (connect_ssl lib (suc n) ctx fd w0)
  unfolding connect_ssl new_ssl tell call
  connect_ssl-Owned n ctx ssl fd w w0 s made c e f =
      let w1 : World = record w0 {
        ssls = ssl ∷ w0.ssls;
        calls = ssl_set_options ssl ∷ ssl_set_fd ssl fd ∷ Call.ssl_new ctx ∷ w0.calls;
      } in
      rw (made w0.calls ctx, new_ssl)
        (Returns-bind (connect_loop-Kept (suc n) ssl fd n w1 s (omega arith) (omega arith))
          (λ (r : ℤ) w2 (k : Kept w1 w2).
            finished r ctx ssl fd w w2 (rw (k.1, e)) (rw (k.0, c)) (rw (k.2, f))))

  -- With every block, context and connection granted, and a socket that asks for no further try after
  -- n handshakes, create_ssl_conect ends within n + 1 rounds, without a fault. It gives the new
  -- connection, and then owns it and its context besides what was owned before; or it gives
  -- NULL, and has freed both and closed the socket.
  pub create_ssl_conect-Owned :
      (n ctx ssl fd : ℕ) (flag : Bool) (w : World)
      → Settles lib n
      → ((m : ℕ) → lib.memory m ≡ true)
      → lib.ctx_new w.calls ≡ some ctx
      → ((t : List Call) (c : ℕ) → lib.ssl_new t c ≡ some ssl)
      → Returns (Owned ctx ssl fd w) (create_ssl_conect lib (suc n) fd flag w)
  unfolding create_ssl_conect new_ctx tell call
  create_ssl_conect-Owned n ctx ssl fd flag w s m made made_ssl =
      rw (made, new_ctx)
        (Returns-bind (verify_peer-Kept ctx flag _ m)
          (λ _ w1 (k : (w1.ctxs ≡ ctx ∷ w.ctxs) × (w1.ssls ≡ w.ssls) × (w1.fds ≡ w.fds)).
            connect_ssl-Owned n ctx ssl fd w w1 s made_ssl k.0 k.1 k.2))
