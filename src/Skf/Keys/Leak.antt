-- ===== src/Skf/Keys/Leak.antt =====
-- ImportSessionKey_Test and its two blocks.
use make_down_file.Prelude.{ℕ, ◌+◌, ◌≡◌, true, false, some, List, ◌∷◌, arith}
use make_down_file.Run.{Ends}
use make_down_file.Skf.World.{Keys, World}
use make_down_file.Skf.Enumerate.{Rv}
use make_down_file.Skf.Keys.Import.{import_session_key_test}
use make_down_file.Skf.Keys.Checked.{succeeded}

-- The blocks that the test leaves behind: the one for the session key after a success.
abbrev pub Left : List ℕ → ℕ → Rv → World → Type 0
Left blocks cipher rv w' =
    (succeeded rv ≡ true → w'.blocks ≡ cipher ∷ blocks)
    × (succeeded rv ≡ false → w'.blocks ≡ blocks)

module _ (keys : Keys) where
  -- ImportSessionKey_Test, with the table loaded and both blocks granted, ends without a fault. If it
  -- fails, at whichever call, it has freed both blocks; if it succeeds, the block of the session key
  -- stays allocated.
  pub import_session_key_test-Left :
      (dev app api : ℕ) (w : World)
      → w.api ≡ some api
      → keys.token.memory w.next ≡ true
      → keys.token.memory (w.next + 1) ≡ true
      → Ends (Left w.blocks (w.next + 1)) (import_session_key_test keys dev app w)
  unfolding import_session_key_test
  import_session_key_test-Left dev app api w a m1 m2 = ground (arith, a, m1, m2)
