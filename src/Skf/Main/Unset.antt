-- ===== src/Skf/Main/Unset.antt =====
-- `main` when the token library cannot be loaded.
use make_down_file.Prelude.{◌≡◌, true, none, arith}
use make_down_file.Run.{fault}
use make_down_file.Skf.World.{Token, World}
use make_down_file.Skf.Main.{main_enumerate}

module _ (token : Token) where
  -- If the token library cannot be loaded and the error message can be allocated, the enumeration of
  -- `main` runs into undefined behaviour: it reads a number of devices that was never written.
  pub main_enumerate-no_library :
      (w : World)
      → w.api ≡ none
      → token.load_library w.calls ≡ none
      → token.memory w.next ≡ true
      → main_enumerate token w ≡ fault
  unfolding main_enumerate
  main_enumerate-no_library w a l m = ground arith
