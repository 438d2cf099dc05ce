-- ===== src/Cng/Provider/Lifetime.antt =====
-- The provider from OSSL_provider_init to its teardown.
use make_down_file.Prelude.{ℕ, ◌≡◌, Bool, false, none, some, arith}
use make_down_file.Run.{◌>>=◌, ◌>>◌, pure, Ends}
use make_down_file.Cng.World.{Param, World, M}
use make_down_file.Cng.Env.{Env}
use make_down_file.Cng.Provider.{ossl_provider_init, cng_get_params, cng_teardown}

module _ (env : Env) where
  -- Loads the provider, asks for its parameters, and unloads it.
  unfoldable pub load_and_unload : ℕ → (Param → Bool) → M Bool
  unfolding ossl_provider_init cng_get_params cng_teardown
  load_and_unload core_functions params = do
    loaded ← ossl_provider_init env core_functions
    elim loaded [
      | none ↦ pure false
      | some provctx ↦ (do told ← cng_get_params env params; cng_teardown provctx; pure told)
    ]

  -- Loading the provider, asking for its parameters and unloading it ends without a fault, and the
  -- blocks are afterwards those from before, whatever memory is granted and parameters are set.
  pub load_and_unload-blocks :
      (core_functions : ℕ) (params : Param → Bool) (w : World)
      → Ends (λ told w'. w'.blocks ≡ w.blocks) (load_and_unload core_functions params w)
  unfolding load_and_unload
  load_and_unload-blocks core_functions params w = ground arith
