-- ===== src/Cng/Provider.antt =====
-- cng_provider.c: the provider's entry point and what it offers to the core.
pub mod Lifetime
use make_down_file.Prelude.{ℕ, Bool, true, false, not, Option, none, some, if◌then◌else◌}
use make_down_file.Run.{pure, ◌>>=◌, ◌>>◌}
use make_down_file.Cng.World.{Param, M, malloc, free}
use make_down_file.Cng.Env.{Env}
use make_down_file.Cng.KeyMgmt.{set_if_located}

-- The operation identifiers that the switch names, and any other number.
pub data Operation : Type 0 where
  digest cipher mac kdf rand keymgmt keyexch signature asym_cipher kem encoder decoder : Operation
  store : Operation
  other_operation : ℕ → Operation

pub data Algorithms : Type 0 where
  cng_store cng_keymgmt cng_signature : Algorithms

-- `in`, the core's dispatch table, is known by its address.
pub record ProviderCtx : Type 0 where
  pub addr : ℕ
  pub core_functions : ℕ

-- The algorithm table, and the value written to `no_cache`.
unfoldable pub cng_query_operation : Operation → Option Algorithms × ℕ
cng_query_operation store = (some cng_store, 0)
cng_query_operation keymgmt = (some cng_keymgmt, 0)
cng_query_operation signature = (some cng_signature, 0)
cng_query_operation _ = (none, 0)

unfoldable pub cng_prov_is_running : ℕ
cng_prov_is_running = 1

-- Numbers that stand for the provider's name, version and build texts.
abbrev pub provider_name_str : ℕ
provider_name_str = 0

abbrev pub provider_version_str : ℕ
provider_version_str = 1

abbrev pub provider_buildinfo_str : ℕ
provider_buildinfo_str = 2

module _ (env : Env) where
  unfoldable pub cng_get_params : (Param → Bool) → M Bool
  unfolding set_if_located cng_prov_is_running
  cng_get_params params = do
    name ← set_if_located env params Param.prov_name provider_name_str
    if not name then pure false else do
      version ← set_if_located env params Param.prov_version provider_version_str
      if not version then pure false else do
        buildinfo ← set_if_located env params Param.prov_buildinfo provider_buildinfo_str
        if not buildinfo
            then pure false
            else set_if_located env params Param.prov_status cng_prov_is_running

  unfoldable pub ossl_provider_init : ℕ → M (Option ProviderCtx)
  unfolding malloc
  ossl_provider_init core_functions = do
    block ← malloc env.memory
    elim block [
      | none ↦ pure none
      | some p ↦ pure (some (record { addr = p; core_functions = core_functions }))
    ]

unfoldable pub cng_teardown : ProviderCtx → M (Unit {0})
unfolding free
cng_teardown provctx = free provctx.addr
