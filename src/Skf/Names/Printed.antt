-- ===== src/Skf/Names/Printed.antt =====
-- print_strings on a block of names.
use make_down_file.Prelude.{
  ℕ, zero, suc, ◌+◌, ◌≤◌, ◌≡◌, refl, true, false, List, [], ◌∷◌, arith, length, ltb,
}
use make_down_file.Run.{ok}
use make_down_file.Skf.World.{World}
use make_down_file.Skf.Names.{print_strings}
use make_down_file.Skf.Names.Encoded.{
  AllNames, encode, first_length, first_bytes, encode_longer, behind_first,
}

past_end : (pos size : ℕ) → size ≤ pos → ltb pos size ≡ false
past_end pos size h = ground arith

inside : (pos size : ℕ) → suc pos ≤ size → ltb pos size ≡ true
inside pos size h = ground arith

-- On a block of at least one name, with fuel above the number of names, exactly the names are
-- printed, in their order, and nothing behind the block is read.
pub print_strings-encode :
    (fuel pos size : ℕ) (c : ℕ) (cs : List ℕ) (names : List (List ℕ)) (w : World)
    → AllNames ((c ∷ cs) ∷ names)
    → pos + length (encode ((c ∷ cs) ∷ names)) ≡ size
    → length ((c ∷ cs) ∷ names) + 1 ≤ fuel
    → print_strings fuel (encode ((c ∷ cs) ∷ names)) size pos w ≡ ok ((c ∷ cs) ∷ names) w
unfolding print_strings encode
print_strings-encode zero pos size c cs names w a l f = let h : ⊥ = omega arith in elim h [ ]
print_strings-encode (suc zero) pos size c cs names w a l f = let h : ⊥ = omega arith in elim h [ ]
print_strings-encode (suc fuel) pos size zero cs names w a l f = elim a.0 [ ]
print_strings-encode (suc (suc fuel)) pos size (suc c) cs [] w a l f =
    let grows = encode_longer c cs [] in
    rw
      (
        inside pos size (omega arith),
        first_length c cs [] a.0,
        behind_first c cs [],
        first_bytes c cs [],
        past_end (pos + (suc (length cs) + 1) + 1) size (omega arith),
        print_strings,
      )
      refl
print_strings-encode (suc fuel) pos size (suc c) cs ([] ∷ names) w a l f = elim a.1 [ ]
print_strings-encode (suc fuel) pos size (suc c) cs ((zero ∷ ds) ∷ names) w a l f = elim a.1.0 [ ]
print_strings-encode (suc fuel) pos size (suc c) cs ((suc d ∷ ds) ∷ names) w a l f =
    let grows = encode_longer c cs ((suc d ∷ ds) ∷ names) in
    rw
      (
        inside pos size (omega arith),
        first_length c cs ((suc d ∷ ds) ∷ names) a.0,
        behind_first c cs ((suc d ∷ ds) ∷ names),
        first_bytes c cs ((suc d ∷ ds) ∷ names),
        print_strings,
      )
      (rw
        (print_strings-encode fuel (pos + (suc (length cs) + 1)) size (suc d) ds names w a.1
          (omega arith) (omega arith))
        refl)
