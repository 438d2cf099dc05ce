-- ===== src/Cng/Store/Steps.antt =====
-- Reading a store to its end, as the client program does: the loop, and one step of it.
use make_down_file.Prelude.{
  ℕ, zero, suc, ◌≡◌, true, false, Option, some, List, ◌∷◌, ◌++◌, map, arith, if◌then◌else◌, is_some,
}
use make_down_file.Run.{ok, out_of_fuel, pure, and_then, ◌>>=◌}
use make_down_file.Cng.World.{Object, cert, pkey, Call, World, M, call, get_handle}
use make_down_file.Cng.Env.{Acquired, Env}
use make_down_file.Cng.Store.{
  StoreCtx, enum_next, load_another_privkey_from_store_into_context, load_another_cert,
  load_another_private_key, cng_store_load, cng_store_eof,
}
use make_down_file.Cng.Store.Keys.{with_key}

-- `while (!eof(ctx)) load(ctx);` with fuel, and the fuel of each search for a key.
unfoldable pub load_all : Env → ℕ → ℕ → StoreCtx → M StoreCtx
load_all env search zero ctx = λ w. out_of_fuel
load_all env search (suc fuel) ctx = elim (cng_store_eof ctx) [
  | true ↦ pure ctx
  | false ↦ (do (ctx', _) ← cng_store_load env search ctx; load_all env search fuel ctx')
]

-- The core accepts every private key.
abbrev pub AcceptsKeys : Env → Type 0
AcceptsKeys env = (t : List Call) (key h : ℕ) → env.callback t (pkey key h) ≡ true

-- What a drained store has delivered: its certificates, then a reference for each usable key, all of
-- them to the one key object.
unfoldable pub contents : (ℕ → Acquired) → (ℕ → ℕ) → ℕ → List ℕ → List ℕ → List Object
contents key_of handle_of key certs candidates =
    map cert certs ++ map (λ c. pkey key (handle_of c)) (with_key key_of candidates)

module _ (env : Env) (search : ℕ) where
  pub load_all-step :
      (fuel : ℕ) (ctx : StoreCtx) (w : World)
      → cng_store_eof ctx ≡ false
      → load_all env search (suc fuel) ctx w
        ≡ and_then (cng_store_load env search ctx w) (λ r. load_all env search fuel r.0)
  unfolding load_all
  load_all-step fuel ctx w e = rw (e, load_all)

  pub load_all-eof :
      (fuel : ℕ) (ctx : StoreCtx) (w : World)
      → ctx.cert_store_eof ≡ true
      → ctx.priv_key_store_eof ≡ true
      → load_all env search (suc fuel) ctx w ≡ ok ctx w
  unfolding load_all cng_store_eof
  load_all-eof fuel ctx w a b = ground arith

  abbrev pub handed : Object → World → World
  handed o w = record w { calls = Call.callback o ∷ w.calls }

  pub key_step :
      (ctx : StoreCtx) (w : World)
      → AcceptsKeys env
      → ctx.cert_store_eof ≡ true
      → ctx.priv_key_store_eof ≡ false
      → cng_store_load env search ctx w
        ≡ and_then
            (load_another_privkey_from_store_into_context env search ctx
              (handed (pkey ctx.key (w.windows_key_handle ctx.key)) w))
            (λ r. pure (r.0, true))
  unfolding cng_store_load load_another_private_key call get_handle
  key_step ctx w accepts a b =
      ground (arith, accepts w.calls ctx.key (w.windows_key_handle ctx.key))

  abbrev pub after_cert : ℕ → Option ℕ → StoreCtx → World → World
  after_cert c next ctx w = record w {
    calls =
        Call.cert_enum_certificates_in_store ctx.windows_certificate_store (some c)
        ∷ Call.callback (cert c)
        ∷ w.calls;
  }

  pub cert_step :
      (c : ℕ) (next : Option ℕ) (ctx : StoreCtx) (w : World)
      → ctx.cert_store_eof ≡ false
      → ctx.prev_cert_ctx ≡ some c
      → env.cert_enum_certificates_in_store
          (Call.callback (cert c) ∷ w.calls)
          ctx.windows_certificate_store
          (some c)
        ≡ next
      → cng_store_load env search ctx w
        ≡ ok
            (
              record ctx {
                prev_cert_ctx = next;
                cert_store_eof = if is_some next then ctx.cert_store_eof else true;
              },
              true,
            )
            (after_cert c next ctx w)
  unfolding cng_store_load load_another_cert enum_next call
  cert_step c next ctx w a b e = ground arith
