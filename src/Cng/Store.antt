-- ===== src/Cng/Store.antt =====
-- store/cng_store_functions.c: the certificates and private keys of a Windows system store, handed
-- to the OpenSSL core one object at a time. The context struct has one owner at a time, so an
-- operation returns it anew; the key object in it is shared by its address.
pub mod Keys
pub mod Steps
pub mod Drain
pub mod Source
pub mod Open
pub mod Contents
pub mod Delivery
pub mod Unwritten
use make_down_file.Prelude.{
  ℕ, zero, suc, Bool, true, false, not, ◌&&◌, ◌||◌, Option, none, some, List, [], ◌∷◌, is_some,
  if◌then◌else◌, starts_with, drop,
}
use make_down_file.Run.{ok, fault, out_of_fuel, pure, ◌>>=◌, ◌>>◌}
use make_down_file.Cng.World.{
  StoreName, ca, my, root, Object, Call, World, M, call, malloc, free, get_handle, set_handle,
}
use make_down_file.Cng.Env.{Env}
use make_down_file.Cng.KeyMgmt.{cng_keymgmt_new, cng_keymgmt_free}

pub record StoreCtx : Type 0 where
  pub addr : ℕ
  pub expected_parameter_type : ℕ
  pub windows_certificate_store : ℕ
  pub prev_cert_ctx : Option ℕ
  pub cert_store_eof : Bool
  pub prev_key_cert_ctx : Option ℕ
  pub key : ℕ
  pub priv_key_store_eof : Bool
  pub windows_system_store_name : Option StoreName

-- The texts "cng://", "CA", "MY" and "ROOT".
abbrev pub uri_scheme : List ℕ
uri_scheme = b'c' ∷ b'n' ∷ b'g' ∷ b':' ∷ b'/' ∷ b'/' ∷ []

abbrev pub ca_text : List ℕ
ca_text = b'C' ∷ b'A' ∷ []

abbrev pub my_text : List ℕ
my_text = b'M' ∷ b'Y' ∷ []

abbrev pub root_text : List ℕ
root_text = b'R' ∷ b'O' ∷ b'O' ∷ b'T' ∷ []

-- Both arguments may be NULL.
unfoldable pub are_store_open_args_ok : Option ℕ → Option (List ℕ) → Bool
are_store_open_args_ok provctx none = false
are_store_open_args_ok none (some uri) = false
are_store_open_args_ok (some p) (some uri) = starts_with uri_scheme uri

-- A later test that passes overrides an earlier one.
unfoldable pub parse_uri_from_store_open : StoreCtx → List ℕ → StoreCtx × Bool
parse_uri_from_store_open store_ctx uri =
    let str = drop 6 uri in
    let n0 = store_ctx.windows_system_store_name in
    let n1 = if starts_with ca_text str then some ca else n0 in
    let n2 = if starts_with my_text str then some my else n1 in
    let n3 = if starts_with root_text str then some root else n2 in
    (record store_ctx { windows_system_store_name = n3 }, is_some n3)

unfoldable pub init_store_ctx : StoreCtx → StoreCtx
init_store_ctx store_ctx = record store_ctx {
  prev_cert_ctx = none;
  prev_key_cert_ctx = none;
  windows_system_store_name = none;
}

-- The result of OSSL_PARAM_locate_const for OSSL_STORE_PARAM_EXPECT; the array itself may be NULL.
pub data StoreParams : Type 0 where
  null_array : StoreParams
  expect : Option ℕ → StoreParams

unfoldable pub cng_store_set_ctx_params : StoreCtx → StoreParams → StoreCtx × Bool
cng_store_set_ctx_params store_ctx null_array = (store_ctx, true)
cng_store_set_ctx_params store_ctx (expect none) = (store_ctx, true)
cng_store_set_ctx_params store_ctx (expect (some param_type)) =
    (record store_ctx { expected_parameter_type = param_type }, true)

unfoldable pub cng_store_eof : StoreCtx → Bool
cng_store_eof store_ctx = store_ctx.cert_store_eof && store_ctx.priv_key_store_eof

-- How one attempt to load a private key ends: no certificate is left, the key is in the key object,
-- or it cannot be used, with the local handle, if that was written.
pub data Attempt : Type 0 where
  no_more loaded : Attempt
  unusable : Option ℕ → Attempt

module _ (env : Env) where
  unfoldable pub initialize_windows_cert_store : StoreCtx → M (StoreCtx × Bool)
  unfolding call
  initialize_windows_cert_store store_ctx = do
    opened ←
        call (Call.cert_open_system_store store_ctx.windows_system_store_name)
          (λ t. env.cert_open_system_store t store_ctx.windows_system_store_name)
    elim opened [
      | none ↦ pure (store_ctx, false)
      | some h ↦ pure (record store_ctx { windows_certificate_store = h }, true)
    ]

  -- CertEnumCertificatesInStore: the certificate after the given one.
  unfoldable pub enum_next : ℕ → Option ℕ → M (Option ℕ)
  unfolding call
  enum_next store prev =
      call (Call.cert_enum_certificates_in_store store prev)
        (λ t. env.cert_enum_certificates_in_store t store prev)

  unfoldable pub load_another_cert_from_store_into_context : StoreCtx → M StoreCtx
  unfolding enum_next
  load_another_cert_from_store_into_context store_ctx = do
    next ← enum_next store_ctx.windows_certificate_store store_ctx.prev_cert_ctx
    pure (record store_ctx { prev_cert_ctx = next; cert_store_eof = not (is_some next) })

  -- One call of the function, up to its recursion: the next certificate, and its private key.
  unfoldable pub try_next_key : StoreCtx → M (StoreCtx × Attempt)
  unfolding call enum_next set_handle
  try_next_key store_ctx = do
    next ← enum_next store_ctx.windows_certificate_store store_ctx.prev_key_cert_ctx
    let ctx = record store_ctx { prev_key_cert_ctx = next; priv_key_store_eof = not (is_some next) }
    elim next [
      | none ↦ pure (ctx, no_more)
      | some cert ↦ (do
        acquired ←
            call (Call.crypt_acquire_certificate_private_key cert)
              (λ t. env.crypt_acquire_certificate_private_key t cert)
        elim (acquired.retval && acquired.is_ncrypt_key_spec && acquired.caller_must_free) [
          | false ↦ pure (ctx, unusable acquired.key_handle)
          | true ↦ elim acquired.key_handle [
            | none ↦ (λ w. fault)
            | some h ↦ (do set_handle ctx.key h; pure (ctx, loaded))
          ]
        ])
    ]

  -- The way out of a level whose search failed: NCryptFreeObject reads the level's local handle, which is
  -- undefined if that was never written.
  unfoldable pub free_local : Option ℕ → StoreCtx → M (StoreCtx × Bool)
  unfolding call
  free_local none ctx w = fault
  free_local (some h) ctx w =
      (do call (Call.ncrypt_free_object (some h)) (λ t. tt); pure (ctx, false)) w

  -- The fuel is the depth of the recursion. When it fails, each level frees its own handle on the
  -- way out.
  unfoldable pub load_another_privkey_from_store_into_context : ℕ → StoreCtx → M (StoreCtx × Bool)
  unfolding try_next_key free_local
  load_another_privkey_from_store_into_context zero store_ctx w = out_of_fuel
  load_another_privkey_from_store_into_context (suc fuel) store_ctx w =
      (do
        (ctx, attempt) ← try_next_key store_ctx
        elim attempt [
          | no_more ↦ pure (ctx, false)
          | loaded ↦ pure (ctx, true)
          | unusable h ↦ (do
            (ctx', found) ← load_another_privkey_from_store_into_context fuel ctx
            if not found then free_local h ctx' else pure (ctx', true))
        ])
        w

  -- Makes the key object, opens the store, and loads the first certificate and the first key.
  unfoldable pub open_context : ℕ → StoreCtx → List ℕ → M (Option StoreCtx)
  unfolding free cng_keymgmt_new cng_keymgmt_free parse_uri_from_store_open
      initialize_windows_cert_store load_another_cert_from_store_into_context
      load_another_privkey_from_store_into_context
  open_context fuel store_ctx uri = do
    new_key ← cng_keymgmt_new env
    elim new_key [
      | none ↦ (do free store_ctx.addr; pure none)
      | some k ↦ (do
        let (ctx1, parsed) = parse_uri_from_store_open (record store_ctx { key = k }) uri
        if not parsed then (do cng_keymgmt_free env k; free store_ctx.addr; pure none) else (do
          (ctx2, opened) ← initialize_windows_cert_store ctx1
          if not opened then (do cng_keymgmt_free env k; free store_ctx.addr; pure none) else (do
            ctx3 ← load_another_cert_from_store_into_context ctx2
            (ctx4, _) ← load_another_privkey_from_store_into_context fuel ctx3
            pure (some ctx4))))
    ]

  -- `garbage` is what the block of the new context holds before it is written.
  unfoldable pub cng_store_open : ℕ → StoreCtx → Option ℕ → Option (List ℕ) → M (Option StoreCtx)
  unfolding malloc open_context
  cng_store_open fuel garbage provctx none = pure none
  cng_store_open fuel garbage provctx (some uri) =
      if not (are_store_open_args_ok provctx (some uri)) then pure none else do
        block ← malloc env.memory
        elim block [
          | none ↦ pure none
          | some p ↦ open_context fuel (init_store_ctx (record garbage { addr = p })) uri
        ]

  -- Hands the current certificate to the core, whatever the callback says, and fetches the next.
  unfoldable pub load_another_cert : StoreCtx → M StoreCtx
  unfolding call enum_next
  load_another_cert store_ctx = elim store_ctx.prev_cert_ctx [
    | none ↦ (λ w. fault)
    | some c ↦ (do
      ignored ← call (Call.callback (Object.cert c)) (λ t. env.callback t (Object.cert c))
      next ← enum_next store_ctx.windows_certificate_store (some c)
      pure (record store_ctx {
        prev_cert_ctx = next;
        cert_store_eof = if is_some next then store_ctx.cert_store_eof else true;
      }))
  ]

  -- Hands a reference to the key object to the core, then loads the next key into the same object.
  unfoldable pub load_another_private_key : ℕ → StoreCtx → M (StoreCtx × Bool)
  unfolding call get_handle load_another_privkey_from_store_into_context
  load_another_private_key fuel store_ctx =
      if store_ctx.priv_key_store_eof then pure (store_ctx, false) else do
        h ← get_handle store_ctx.key
        let object = Object.pkey store_ctx.key h
        taken ← call (Call.callback object) (λ t. env.callback t object)
        if not taken then pure (store_ctx, false) else do
          (ctx, _) ← load_another_privkey_from_store_into_context fuel store_ctx
          pure (ctx, true)

  unfoldable pub cng_store_load : ℕ → StoreCtx → M (StoreCtx × Bool)
  unfolding load_another_cert load_another_private_key
  cng_store_load fuel store_ctx =
      if not store_ctx.cert_store_eof
      then (do ctx ← load_another_cert store_ctx; pure (ctx, true))
      else if not store_ctx.priv_key_store_eof
      then load_another_private_key fuel store_ctx
      else pure (store_ctx, false)

  unfoldable pub cng_store_close : StoreCtx → M Bool
  unfolding call free cng_keymgmt_free
  cng_store_close store_ctx = do
    closed ←
        call (Call.cert_close_store store_ctx.windows_certificate_store)
          (λ t. env.cert_close_store t store_ctx.windows_certificate_store)
    if not closed
        then pure false
        else do cng_keymgmt_free env store_ctx.key; free store_ctx.addr; pure true
