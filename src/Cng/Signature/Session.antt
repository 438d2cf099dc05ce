-- ===== src/Cng/Signature/Session.antt =====
-- A whole signature, as the core makes it: a new context, init, parameters, the message chunk by
-- chunk, final, and the context freed.
use make_down_file.Prelude.{
  ℕ, ◌≡◌, Bool, true, false, Option, none, some, List, [], ◌∷◌, if◌then◌else◌,
}
use make_down_file.Run.{◌>>=◌, ◌>>◌, pure}
use make_down_file.Cng.World.{Call, M}
use make_down_file.Cng.Env.{Env}
use make_down_file.Cng.Signature.{
  SigCtx, SigParams, cng_signature_newctx, cng_signature_freectx, cng_signature_digest_sign_init,
  cng_signature_digest_sign_update, cng_signature_digest_sign_final, cng_signature_set_ctx_params,
}

-- The chunks hashed so far, newest first.
unfoldable pub hashed : List Call → List (List ℕ)
hashed [] = []
hashed (Call.bcrypt_hash_data h bytes ∷ calls) = bytes ∷ hashed calls
hashed (_ ∷ calls) = hashed calls

module _ (env : Env) where
  unfoldable pub update_all : SigCtx → List (List ℕ) → M Bool
  update_all sig_ctx [] = pure true
  update_all sig_ctx (bytes ∷ chunks) =
      cng_signature_digest_sign_update env sig_ctx bytes >>= λ done. elim done [
        | false ↦ pure false
        | true ↦ update_all sig_ctx chunks
      ]

  unfoldable pub hash_and_sign : SigCtx → List (List ℕ) → M (Option ℕ)
  hash_and_sign sig_ctx chunks = update_all sig_ctx chunks >>= λ fed.
      if fed then cng_signature_digest_sign_final env sig_ctx true else pure none

  -- With the context, which its owner frees later.
  unfoldable pub set_and_hash : SigCtx → SigParams → List (List ℕ) → M (SigCtx × Option ℕ)
  set_and_hash sig_ctx params chunks =
      cng_signature_set_ctx_params env sig_ctx params >>= λ (ctx, accepted).
      if accepted
      then (hash_and_sign ctx chunks >>= λ siglen. pure (ctx, siglen))
      else pure (ctx, none)

  unfoldable pub init_and_sign :
      SigCtx → Option (List ℕ) → Option ℕ → SigParams → List (List ℕ) → M (SigCtx × Option ℕ)
  init_and_sign sig_ctx mdname provkey params chunks =
      cng_signature_digest_sign_init env sig_ctx mdname provkey >>= λ (ctx, ready).
      if ready then set_and_hash ctx params chunks else pure (ctx, none)

  unfoldable pub then_free : M (SigCtx × Option ℕ) → M (Option ℕ)
  then_free work = work >>= λ (ctx, siglen). cng_signature_freectx env ctx >> pure siglen

  unfoldable pub sign_message :
      Option (List ℕ) → Option ℕ → SigParams → List (List ℕ) → M (Option ℕ)
  sign_message mdname provkey params chunks = cng_signature_newctx env none none >>= λ block.
      elim block [
        | none ↦ pure none
        | some ctx ↦ then_free (init_and_sign ctx mdname provkey params chunks)
      ]

  -- Enough memory: every block is granted.
  abbrev pub Grants : Type 0
  Grants = (n : ℕ) → env.memory n ≡ true
