-- ===== src/Cng/Signature.antt =====
-- signature/cng_signature_functions.c: signing contexts. A context points to a key object; the
-- struct itself has one owner at a time, so an operation returns it anew.
pub mod Final
pub mod Session
pub mod Success
pub mod Duplicate
use make_down_file.Prelude.{
  ℕ, ◌+◌, Bool, true, false, not, ◌&&◌, Option, none, some, List, ◌==◌, if◌then◌else◌, is_some,
}
use make_down_file.Run.{fault, ok, pure, ◌>>=◌, ◌>>◌}
use make_down_file.Cng.World.{
  BcryptAlg, sha256, sha384, sha512, PadFlags, no_flags, pad_pss, pad_pkcs1, PaddingInfo,
  no_padding, pss_padding, pkcs1_padding, Call, M, call, malloc, free, get_handle,
}
use make_down_file.Cng.Env.{Digest, Env}
use make_down_file.Cng.KeyMgmt.{from_option, cng_keymgmt_dup}

pub record SigCtx : Type 0 where
  pub addr : ℕ
  pub provctx : Option ℕ
  pub propq : Option (List ℕ)
  pub alg_identifier : Option BcryptAlg
  pub key : Option ℕ
  pub hash_handle : Option ℕ
  pub sign_hash_flags : PadFlags
  pub pss_salt_len : ℕ

-- A padding mode, as an integer or as a text, compared with the modes that OpenSSL names.
pub data PadMode : Type 0 where
  pss pkcs1 other_mode : PadMode

pub data PadValue : Type 0 where
  integer : PadMode → PadValue
  utf8_string : PadMode → PadValue
  wrong_pad_type : PadValue

pub data SaltName : Type 0 where
  salt_digest salt_max salt_auto other_salt : SaltName

pub data SaltValue : Type 0 where
  explicit : ℕ → SaltValue
  special : SaltName → SaltValue
  wrong_salt_type : SaltValue

-- The two parameters that OSSL_PARAM_locate_const is asked for.
pub record SigParams : Type 0 where
  pub pad_mode : Option PadValue
  pub salt_len : Option SaltValue

-- The name of a digest; a later test that passes overrides an earlier one.
unfoldable pub bcrypt_name : Digest → Option BcryptAlg
bcrypt_name md =
    let a0 : Option BcryptAlg = none in
    let a1 = if md.is_sha2_256 then some sha256 else a0 in
    let a2 = if md.is_sha2_384 then some sha384 else a1 in
    if md.is_sha2_512 then some sha512 else a2

-- The flags after a padding mode was set; `none` is refused. The text "pss" passes and sets nothing.
unfoldable pub set_pad_mode : PadFlags → PadValue → Option PadFlags
set_pad_mode flags (integer pss) = some pad_pss
set_pad_mode flags (integer pkcs1) = some pad_pkcs1
set_pad_mode flags (integer other_mode) = none
set_pad_mode flags (utf8_string pss) = some flags
set_pad_mode flags (utf8_string pkcs1) = some pad_pkcs1
set_pad_mode flags (utf8_string other_mode) = none
set_pad_mode flags wrong_pad_type = none

module _ (env : Env) where
  unfoldable pub cng_signature_newctx : Option ℕ → Option (List ℕ) → M (Option SigCtx)
  unfolding malloc
  cng_signature_newctx provctx propq = do
    block ← malloc env.memory
    elim block [
      | none ↦ pure none
      | some p ↦ pure (
          some (record {
            addr = p;
            provctx = provctx;
            propq = propq;
            alg_identifier = none;
            key = none;
            hash_handle = none;
            sign_hash_flags = no_flags;
            pss_salt_len = 0;
          }))
    ]

  -- The new context is not tested for NULL before it is written, and nothing is released when a
  -- step fails.
  unfoldable pub cng_signature_dupctx : SigCtx → M (Option SigCtx)
  unfolding call from_option cng_signature_newctx cng_keymgmt_dup
  cng_signature_dupctx old_sig_ctx = do
    block ← cng_signature_newctx old_sig_ctx.provctx old_sig_ctx.propq
    new_sig_ctx ← from_option block
    hash ←
        call (Call.bcrypt_duplicate_hash old_sig_ctx.hash_handle)
          (λ t. env.bcrypt_duplicate_hash t old_sig_ctx.hash_handle)
    if not (is_some hash) then pure none else do
      key ← cng_keymgmt_dup env old_sig_ctx.key
      if is_some old_sig_ctx.key && not (is_some key)
          then pure none
          else pure (
              some (record new_sig_ctx {
                hash_handle = hash;
                alg_identifier = old_sig_ctx.alg_identifier;
                key = key;
                sign_hash_flags = old_sig_ctx.sign_hash_flags;
                pss_salt_len = old_sig_ctx.pss_salt_len;
              }))

  unfoldable pub cng_signature_freectx : SigCtx → M (Unit {0})
  unfolding call free
  cng_signature_freectx sig_ctx = do
    call (Call.bcrypt_destroy_hash sig_ctx.hash_handle) (λ t. tt)
    free sig_ctx.addr

  -- The digest object is not freed.
  unfoldable pub fetched_digest : M (Unit {0})
  fetched_digest w = ok tt (record w { digests = w.digests + 1 })

  -- The new value of the context's identifier, and whether the name is known.
  unfoldable pub ossl_digest_name_to_bcrypt_digest_name :
      Option BcryptAlg → Option (List ℕ) → M (Option BcryptAlg × Bool)
  unfolding call bcrypt_name fetched_digest
  ossl_digest_name_to_bcrypt_digest_name old none = pure (old, false)
  ossl_digest_name_to_bcrypt_digest_name old (some mdname) = do
    fetched ← call (Call.evp_md_fetch mdname) (λ t. env.evp_md_fetch t mdname)
    elim fetched [
      | none ↦ pure (none, false)
      | some md ↦ (do fetched_digest; pure (bcrypt_name md, is_some (bcrypt_name md)))
    ]

  -- Makes the hash object of a context whose algorithm is chosen.
  unfoldable pub open_hash : SigCtx → M (SigCtx × Bool)
  unfolding call
  open_hash sig_ctx = do
    provider ←
        call (Call.bcrypt_open_algorithm_provider sig_ctx.alg_identifier)
          (λ t. env.bcrypt_open_algorithm_provider t sig_ctx.alg_identifier)
    elim provider [
      | none ↦ pure (sig_ctx, false)
      | some alg ↦ (do
        hash ← call (Call.bcrypt_create_hash alg) (λ t. env.bcrypt_create_hash t alg)
        call (Call.bcrypt_close_algorithm_provider alg) (λ t. tt)
        elim hash [
          | none ↦ pure (sig_ctx, false)
          | some h ↦ pure (record sig_ctx { hash_handle = some h }, true)
        ])
    ]

  unfoldable pub cng_signature_digest_sign_init :
      SigCtx → Option (List ℕ) → Option ℕ → M (SigCtx × Bool)
  unfolding ossl_digest_name_to_bcrypt_digest_name open_hash
  cng_signature_digest_sign_init sig_ctx mdname provkey = do
    (alg, known) ← ossl_digest_name_to_bcrypt_digest_name sig_ctx.alg_identifier mdname
    let ctx = record sig_ctx { key = provkey; alg_identifier = alg }
    if not known then pure (ctx, false) else open_hash ctx

  unfoldable pub cng_signature_digest_sign_update : SigCtx → List ℕ → M Bool
  unfolding call
  cng_signature_digest_sign_update sig_ctx bytes =
      call (Call.bcrypt_hash_data sig_ctx.hash_handle bytes)
        (λ t. env.bcrypt_hash_data t sig_ctx.hash_handle bytes)

  -- NCryptSignHash with the context's key, which is not tested for NULL.
  unfoldable pub sign_hash : SigCtx → PaddingInfo → PadFlags → Option (List ℕ) → M (Option ℕ)
  unfolding call from_option get_handle
  sign_hash sig_ctx padding flags hash = do
    key ← from_option sig_ctx.key
    h ← get_handle key
    call (Call.ncrypt_sign_hash h padding flags hash)
        (λ t. env.ncrypt_sign_hash t h padding flags hash)

  -- Signs the finished hash under a padding structure, then frees both blocks.
  unfoldable pub sign_padded : SigCtx → ℕ → List ℕ → PaddingInfo → M (Option ℕ)
  unfolding malloc free sign_hash
  sign_padded sig_ctx hash_buffer hash padding = do
    block ← malloc env.memory
    elim block [
      | none ↦ pure none
      | some p ↦ (do
        siglen ← sign_hash sig_ctx padding sig_ctx.sign_hash_flags (some hash)
        free p
        free hash_buffer
        pure siglen)
    ]

  -- The DWORD written to the low half of `siglen`, or `none` for a return of 0. `has_buffer` says that `sig` is not
  -- NULL.
  unfoldable pub cng_signature_digest_sign_final : SigCtx → Bool → M (Option ℕ)
  unfolding call malloc free sign_hash sign_padded
  cng_signature_digest_sign_final sig_ctx has_buffer = do
    hash_length ←
        call (Call.bcrypt_hash_length sig_ctx.hash_handle)
          (λ t. env.bcrypt_hash_length t sig_ctx.hash_handle)
    if not (is_some hash_length) then pure none else do
      block ← malloc env.memory
      elim block [
        | none ↦ pure none
        | some buffer ↦
            if not has_buffer
            then (do siglen ← sign_hash sig_ctx no_padding no_flags none; free buffer; pure siglen)
            else (do
              finished ←
                  call (Call.bcrypt_finish_hash sig_ctx.hash_handle)
                    (λ t. env.bcrypt_finish_hash t sig_ctx.hash_handle)
              elim finished [
                | none ↦ (do free buffer; pure none)
                | some hash ↦ elim sig_ctx.sign_hash_flags [
                  | pad_pss ↦
                      sign_padded sig_ctx buffer hash
                        (pss_padding sig_ctx.alg_identifier sig_ctx.pss_salt_len)
                  | pad_pkcs1 ↦
                      sign_padded sig_ctx buffer hash (pkcs1_padding sig_ctx.alg_identifier)
                  | no_flags ↦ (do free buffer; pure none)
                ]
              ])
      ]

  -- The context with the salt length set, and whether the value is accepted.
  unfoldable pub set_salt_len : SigCtx → SaltValue → M (SigCtx × Bool)
  unfolding call
  set_salt_len sig_ctx (explicit n) = pure (record sig_ctx { pss_salt_len = n }, true)
  set_salt_len sig_ctx (special salt_digest) = do
    got ←
        call (Call.bcrypt_hash_length sig_ctx.hash_handle)
          (λ t. env.bcrypt_hash_length t sig_ctx.hash_handle)
    elim got [
      | none ↦ pure (record sig_ctx { pss_salt_len = 0 }, false)
      | some (n, received) ↦
          if received == 0
          then pure (record sig_ctx { pss_salt_len = 0 }, false)
          else pure (record sig_ctx { pss_salt_len = n }, true)
    ]
  set_salt_len sig_ctx (special salt_max) = pure (sig_ctx, false)
  set_salt_len sig_ctx (special salt_auto) = pure (sig_ctx, false)
  set_salt_len sig_ctx (special other_salt) = pure (sig_ctx, false)
  set_salt_len sig_ctx wrong_salt_type = pure (sig_ctx, false)

  -- The salt length, once the padding mode is done; `param_set` says that the mode was given.
  unfoldable pub set_salt_param : SigCtx → Bool → Option SaltValue → M (SigCtx × Bool)
  unfolding set_salt_len
  set_salt_param sig_ctx param_set none = pure (sig_ctx, param_set)
  set_salt_param sig_ctx param_set (some v) = set_salt_len sig_ctx v

  unfoldable pub cng_signature_set_ctx_params : SigCtx → SigParams → M (SigCtx × Bool)
  unfolding set_pad_mode set_salt_param
  cng_signature_set_ctx_params sig_ctx params = elim params.pad_mode [
    | none ↦ set_salt_param sig_ctx false params.salt_len
    | some v ↦ elim (set_pad_mode sig_ctx.sign_hash_flags v) [
      | none ↦ pure (sig_ctx, false)
      | some flags ↦
          set_salt_param (record sig_ctx { sign_hash_flags = flags }) true params.salt_len
    ]
  ]
