-- ===== src/Cng/Signature/Duplicate.antt =====
-- cng_signature_dupctx and cng_signature_freectx: what a copy of a context holds, and what freeing
-- the copy leaves behind.
use make_down_file.Prelude.{ℕ, ◌+◌, ◌≡◌, ◌⊎◌, true, Option, none, some, ◌∷◌, arith, is_some}
use make_down_file.Run.{◌>>=◌, ◌>>◌, pure, Ends}
use make_down_file.Cng.World.{World, M}
use make_down_file.Cng.Env.{Env}
use make_down_file.Cng.Signature.{SigCtx, cng_signature_dupctx, cng_signature_freectx}

module _ (env : Env) where
  -- The copy has the old context's settings, a key object of its own, and its own address.
  abbrev pub CopyOf : SigCtx → World → Option SigCtx → World → Type 0
  CopyOf old w none w' =
      (w'.blocks ≡ w.next ∷ w.blocks) ⊎ (w'.blocks ≡ (w.next + 1) ∷ w.next ∷ w.blocks)
  CopyOf old w (some ctx) w' =
      (w'.blocks ≡ (w.next + 1) ∷ w.next ∷ w.blocks)
      × (ctx.addr ≡ w.next)
      × (ctx.key ≡ some (w.next + 1))
      × (ctx.hash_handle ≡ env.bcrypt_duplicate_hash w.calls old.hash_handle)
      × (is_some ctx.hash_handle ≡ true)
      × (ctx.alg_identifier ≡ old.alg_identifier)
      × (ctx.sign_hash_flags ≡ old.sign_hash_flags)
      × (ctx.pss_salt_len ≡ old.pss_salt_len)
      × (ctx.propq ≡ old.propq)
      × (ctx.provctx ≡ old.provctx)

  -- Copying a context that has a key, if both blocks are granted, ends without a fault. Either there
  -- is no copy, and one or both of the new blocks stay allocated; or the copy stands in the first of
  -- them, has the second as its own key object, and has the hash handle that
  -- BCryptDuplicateHash made from the old one's, and the algorithm, padding mode, salt length,
  -- property query and provider context of the old one.
  pub dupctx-CopyOf :
      (old : SigCtx) (key : ℕ) (w : World)
      → old.key ≡ some key
      → env.memory w.next ≡ true
      → env.memory (w.next + 1) ≡ true
      → Ends (CopyOf old w) (cng_signature_dupctx env old w)
  unfolding cng_signature_dupctx
  dupctx-CopyOf old key w k m1 m2 = ground arith

  -- Copies a context and frees the copy.
  unfoldable pub dup_and_free : SigCtx → M (Option SigCtx)
  unfolding cng_signature_dupctx cng_signature_freectx
  dup_and_free old = do
    copied ← cng_signature_dupctx env old
    elim copied [
      | none ↦ pure none
      | some ctx ↦ (do cng_signature_freectx env ctx; pure (some ctx))
    ]

  -- Copying a context that has a key and freeing the copy, if both blocks are granted, ends without a
  -- fault; if there was a copy, its key object is still allocated afterwards, and nothing else new.
  pub dup_and_free-blocks :
      (old : SigCtx) (key : ℕ) (w : World)
      → old.key ≡ some key
      → env.memory w.next ≡ true
      → env.memory (w.next + 1) ≡ true
      → Ends
          (λ copied w'. (copied ≡ none) ⊎ (w'.blocks ≡ (w.next + 1) ∷ w.blocks))
          (dup_and_free old w)
  unfolding dup_and_free
  dup_and_free-blocks old key w k m1 m2 = ground arith
