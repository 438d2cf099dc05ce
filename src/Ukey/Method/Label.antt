-- ===== src/Ukey/Method/Label.antt =====
-- The label `error` of ukey_sign, at each stage of the function.
use make_down_file.Prelude.{ℕ, ◌+◌, ◌≤◌, ◌<◌, ◌≡◌, Option, none, some, List, ◌∷◌, arith}
use make_down_file.Run.{Ends}
use make_down_file.Ukey.World.{Lib, World, free, free_if}
use make_down_file.Ukey.Method.{Signed, sign_error}

-- How far ukey_sign has come: the copy of the text, the signature object, and its two numbers.
pub data Stage : Type 0 where
  started : Stage
  copied : ℕ → Stage
  shaped : ℕ → ℕ → Stage
  half : ℕ → ℕ → ℕ → Stage
  full : ℕ → ℕ → ℕ → ℕ → Stage

abbrev pub tbs_of : Stage → Option ℕ
tbs_of started = none
tbs_of (copied t) = some t
tbs_of (shaped t g) = some t
tbs_of (half t g r) = some t
tbs_of (full t g r s) = some t

abbrev pub sig_of : Stage → Option ℕ
sig_of started = none
sig_of (copied t) = none
sig_of (shaped t g) = some g
sig_of (half t g r) = some g
sig_of (full t g r s) = some g

abbrev pub r_of : Stage → Option ℕ
r_of (half t g r) = some r
r_of (full t g r s) = some r
r_of stage = none

abbrev pub s_of : Stage → Option ℕ
s_of (full t g r s) = some s
s_of stage = none

-- The objects of the stage, the last one first.
abbrev pub objects : Stage → List ℕ → List ℕ
objects started l = l
objects (copied t) l = t ∷ l
objects (shaped t g) l = g ∷ t ∷ l
objects (half t g r) l = r ∷ g ∷ t ∷ l
objects (full t g r s) l = s ∷ r ∷ g ∷ t ∷ l

-- They are numbered in the order in which they were made, from `low` on.
abbrev pub Rising : ℕ → Stage → Type 0
Rising low started = Unit
Rising low (copied t) = low ≤ t
Rising low (shaped t g) = (low ≤ t) × (t < g)
Rising low (half t g r) = (low ≤ t) × (t < g) × (g < r)
Rising low (full t g r s) = (low ≤ t) × (t < g) × (g < r) × (r < s)

abbrev pub listed : Option ℕ → List ℕ → List ℕ
listed none l = l
listed (some n) l = n ∷ l

abbrev pub above : Option ℕ → ℕ
above none = 0
above (some n) = n + 1

abbrev pub Freed : Signed → List ℕ → World → Signed → World → Type 0
Freed result base w r w' =
    (r ≡ result) × (w'.live ≡ base) × (w'.devs ≡ w.devs) × (w'.apps ≡ w.apps) × (w'.cons ≡ w.cons)

module _ (lib : Lib) where
  -- The label frees everything that is held.
  pub sign_error-Freed :
      (names : Option ℕ) (stage : Stage) (result : Signed) (base : List ℕ) (w : World)
      → Rising (above names) stage
      → w.live ≡ objects stage (listed names base)
      → Ends
          (Freed result base w)
          (sign_error lib (r_of stage) (s_of stage) names (tbs_of stage) (sig_of stage) result w)
  unfolding sign_error free_if free
  sign_error-Freed none started result base w o e = ground arith
  sign_error-Freed (some n) started result base w o e = ground arith
  sign_error-Freed none (copied t) result base w o e = ground arith
  sign_error-Freed (some n) (copied t) result base w o e = ground arith
  sign_error-Freed none (shaped t g) result base w o e = ground arith
  sign_error-Freed (some n) (shaped t g) result base w o e = ground arith
  sign_error-Freed none (half t g r) result base w o e = ground arith
  sign_error-Freed (some n) (half t g r) result base w o e = ground arith
  sign_error-Freed none (full t g r s) result base w o e = ground arith
  sign_error-Freed (some n) (full t g r s) result base w o e = ground arith
