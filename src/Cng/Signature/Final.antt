-- ===== src/Cng/Signature/Final.antt =====
-- cng_signature_digest_sign_final and cng_signature_set_ctx_params: which padding a signature is
-- made with, and what is freed.
use make_down_file.Prelude.{
  ℕ, ◌+◌, ◌≡◌, ◌⊎◌, Bool, true, false, Option, none, some, List, ◌∷◌, arith, head?,
}
use make_down_file.Run.{◌>>=◌, pure, Ends}
use make_down_file.Cng.World.{
  no_flags, pad_pss, pad_pkcs1, no_padding, pss_padding, pkcs1_padding, Call, World, M,
}
use make_down_file.Cng.Env.{Env}
use make_down_file.Cng.Signature.{
  SigCtx, PadValue, pss, utf8_string, cng_signature_digest_sign_final, cng_signature_set_ctx_params,
}

-- The call that signs for a context, if its padding mode is known.
unfoldable pub sign_call : SigCtx → ℕ → Bool → Option (List ℕ) → Option Call
sign_call sig_ctx h false hash = some (Call.ncrypt_sign_hash h no_padding no_flags none)
sign_call sig_ctx h true hash = elim sig_ctx.sign_hash_flags [
  | pad_pss ↦ some (
      Call.ncrypt_sign_hash h (pss_padding sig_ctx.alg_identifier sig_ctx.pss_salt_len) pad_pss
        hash)
  | pad_pkcs1 ↦ some (Call.ncrypt_sign_hash h (pkcs1_padding sig_ctx.alg_identifier) pad_pkcs1 hash)
  | no_flags ↦ none
]

module _ (env : Env) where
  -- Either the hash buffer is freed, or it leaks because the second allocation failed.
  abbrev pub Released : World → World → Type 0
  Released w w' =
      (w'.blocks ≡ w.blocks) ⊎ ((w'.blocks ≡ w.next ∷ w.blocks) × (env.memory (w.next + 1) ≡ false))

  -- The hash that BCryptFinishHash gives for the context's hash object.
  abbrev pub finished : SigCtx → World → Option (List ℕ)
  finished sig_ctx w =
      env.bcrypt_finish_hash (Call.bcrypt_hash_length sig_ctx.hash_handle ∷ w.calls)
        sig_ctx.hash_handle

  -- Finishing a signature with a context that has a key ends without a fault. Afterwards the hash
  -- buffer is freed, or it is left because the block for the padding was refused. Either the result
  -- is 0, or the last call was NCryptSignHash with the handle of the context's key and with the
  -- padding of the context's mode and the bytes that BCryptFinishHash gave, or with neither when only
  -- the length was asked for.
  pub digest_sign_final-Ends :
      (sig_ctx : SigCtx) (key : ℕ) (has_buffer : Bool) (w : World)
      → sig_ctx.key ≡ some key
      → Ends
          (λ siglen w'.
            Released w w'
            × ((siglen ≡ none)
                ⊎ (head? w'.calls
                    ≡ sign_call sig_ctx
                        (w.windows_key_handle key)
                        has_buffer
                        (finished sig_ctx w))))
          (cng_signature_digest_sign_final env sig_ctx has_buffer w)
  unfolding cng_signature_digest_sign_final sign_call
  digest_sign_final-Ends sig_ctx key has_buffer w k = ground arith

  -- Sets the padding mode, then asks for the signature.
  unfoldable pub set_and_sign : SigCtx → PadValue → M (Bool × Option ℕ)
  unfolding cng_signature_set_ctx_params cng_signature_digest_sign_final
  set_and_sign sig_ctx mode = do
    (ctx, accepted) ←
        cng_signature_set_ctx_params env sig_ctx (record { pad_mode = some mode; salt_len = none })
    siglen ← cng_signature_digest_sign_final env ctx true
    pure (accepted, siglen)

  -- A context without a padding mode accepts the text "pss" as its mode, and then makes no signature,
  -- whatever the libraries answer; the blocks are afterwards those from before.
  pub set_and_sign-text_pss :
      (sig_ctx : SigCtx) (w : World)
      → sig_ctx.sign_hash_flags ≡ no_flags
      → Ends
          (λ r w'. (r ≡ (true, none)) × (w'.blocks ≡ w.blocks))
          (set_and_sign sig_ctx (utf8_string pss) w)
  unfolding set_and_sign
  set_and_sign-text_pss sig_ctx w f = ground arith
