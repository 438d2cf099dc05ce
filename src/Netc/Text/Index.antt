-- ===== src/Netc/Text/Index.antt =====
-- The loop over the entries of a name in NETC_SSL_X509ExtratTextByNID.
use make_down_file.Prelude.{
  ℕ, zero, suc, ◌<◌, ◌≡◌, refl, Option, none, some, List, [], ◌∷◌, arith, length, last?,
}
use make_down_file.Run.{ok}
use make_down_file.Netc.World.{Nid, Lib, World}
use make_down_file.Netc.Text.{last_index}

-- The indices that X509_NAME_get_index_by_NID gives one after the other, the first search being
-- from `current`.
unfoldable pub Lists : Lib → ℕ → Nid → Option ℕ → List ℕ → Type 0
Lists lib name nid current [] = lib.get_index_by_nid name nid current ≡ none
Lists lib name nid current (i ∷ is) =
    (lib.get_index_by_nid name nid current ≡ some i) × Lists lib name nid (some i) is

abbrev last_or : Option ℕ → List ℕ → Option ℕ
last_or current [] = current
last_or current (i ∷ is) = last_or (some i) is

last_or-last? : (i : ℕ) (is : List ℕ) → last_or (some i) is ≡ last? (i ∷ is)
last_or-last? i [] = refl
last_or-last? i (j ∷ is) = last_or-last? j is

module _ (lib : Lib) where
  last_index-last_or :
      (fuel name : ℕ) (nid : Nid) (current : Option ℕ) (is : List ℕ) (w : World)
      → Lists lib name nid current is
      → length is < fuel
      → last_index lib fuel name nid current w ≡ ok (last_or current is) w
  unfolding last_index Lists
  last_index-last_or zero name nid current is w l h = let f : ⊥ = omega arith in elim f [ ]
  last_index-last_or (suc fuel) name nid current [] w l h = rw (l, last_index)
  last_index-last_or (suc fuel) name nid current (i ∷ is) w (e, l) h =
      rw (e, last_index) (last_index-last_or fuel name nid (some i) is w l (omega arith))

  -- The loop ends at the last entry of the name that has the field, and calls nothing else.
  pub last_index-last? :
      (fuel name : ℕ) (nid : Nid) (is : List ℕ) (w : World)
      → Lists lib name nid none is
      → length is < fuel
      → last_index lib fuel name nid none w ≡ ok (last? is) w
  last_index-last? fuel name nid [] w l h = last_index-last_or fuel name nid none [] w l h
  last_index-last? fuel name nid (i ∷ is) w l h =
      rw (← last_or-last? i is) (last_index-last_or fuel name nid none (i ∷ is) w l h)
