-- ===== src/Cng/KeyMgmt/Duplicate.antt =====
-- Duplicating a key object.
use make_down_file.Prelude.{ℕ, ◌≡◌, ◌⊎◌, true, none, some, ◌∷◌, arith}
use make_down_file.Run.{Ends}
use make_down_file.Cng.World.{World}
use make_down_file.Cng.Env.{Env}
use make_down_file.Cng.KeyMgmt.{duplicate_key_handle, cng_keymgmt_dup}

module _ (env : Env) where
  -- Opening a key again frees what it allocates, and changes no handle but the new one, and that
  -- only on success.
  pub duplicate_key_handle-Ends :
      (old new : ℕ) (w : World)
      → Ends
          (λ r w'.
            (w'.blocks ≡ w.blocks)
            × ((k : ℕ)
                → ((k ≡ new) × (r ≡ true)) ⊎ (w'.windows_key_handle k ≡ w.windows_key_handle k)))
          (duplicate_key_handle env old new w)
  unfolding duplicate_key_handle
  duplicate_key_handle-Ends old new w = ground arith

  -- Copying a key object, if its memory is granted, ends without a fault. The result is the new
  -- object or NULL; in both cases the new block is allocated afterwards, the other blocks are those
  -- from before, and every other object has the handle that it had.
  pub cng_keymgmt_dup-Ends :
      (old : ℕ) (w : World)
      → env.memory w.next ≡ true
      → Ends
          (λ r w'.
            ((r ≡ none) ⊎ (r ≡ some w.next))
            × (w'.blocks ≡ w.next ∷ w.blocks)
            × ((k : ℕ) → (k ≡ w.next) ⊎ (w'.windows_key_handle k ≡ w.windows_key_handle k)))
          (cng_keymgmt_dup env (some old) w)
  unfolding cng_keymgmt_dup
  cng_keymgmt_dup-Ends old w m = ground arith
