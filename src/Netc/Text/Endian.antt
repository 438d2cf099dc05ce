-- ===== src/Netc/Text/Endian.antt =====
-- NETC_ChangeEndianOrder swaps the two bytes of each pair, and twice is as if never.
use mathlib.Core.List.{append_assoc}
use make_down_file.Prelude.{
  ℕ, zero, suc, ◌+◌, ◌/◌, ◌≡◌, refl, subst, ap, some, List, [], ◌∷◌, ◌++◌, arith, length, get_elem?,
  set, length-append,
}
use make_down_file.Netc.Text.{endian_loop, netc_change_endian_order}

-- The bytes of each pair swapped; a last byte alone stays.
unfoldable pub swap_pairs : List ℕ → List ℕ
swap_pairs [] = []
swap_pairs (a ∷ []) = a ∷ []
swap_pairs (a ∷ b ∷ rest) = b ∷ a ∷ swap_pairs rest

pub swap_pairs-swap_pairs : (xs : List ℕ) → swap_pairs (swap_pairs xs) ≡ xs
unfolding swap_pairs
swap_pairs-swap_pairs [] = refl
swap_pairs-swap_pairs (a ∷ []) = refl
swap_pairs-swap_pairs (a ∷ b ∷ rest) = ap (λ r. a ∷ b ∷ r) (swap_pairs-swap_pairs rest)

pub length-swap_pairs : (xs : List ℕ) → length (swap_pairs xs) ≡ length xs
unfolding swap_pairs
length-swap_pairs [] = refl
length-swap_pairs (a ∷ []) = refl
length-swap_pairs (a ∷ b ∷ rest) = ap (λ n. suc (suc n)) (length-swap_pairs rest)

get_elem?-second :
    (pre : List ℕ) (a b : ℕ) (rest : List ℕ)
    → get_elem? (pre ++ a ∷ b ∷ rest) (length pre + 1) ≡ some b
get_elem?-second [] a b rest = refl
get_elem?-second (x ∷ pre) a b rest =
    let e : suc (length pre) + 1 ≡ suc (length pre + 1) = omega arith in
    rw e (get_elem?-second pre a b rest)

get_elem?-first :
    (pre : List ℕ) (a : ℕ) (rest : List ℕ) → get_elem? (pre ++ a ∷ rest) (length pre) ≡ some a
get_elem?-first [] a rest = refl
get_elem?-first (x ∷ pre) a rest = get_elem?-first pre a rest

set_pair :
    (pre : List ℕ) (a b : ℕ) (rest : List ℕ)
    → set (set (pre ++ a ∷ b ∷ rest) (length pre) b) (length pre + 1) a ≡ pre ++ b ∷ a ∷ rest
set_pair [] a b rest = refl
set_pair (x ∷ pre) a b rest =
    let e : suc (length pre) + 1 ≡ suc (length pre + 1) = omega arith in
    rw e (ap (λ r. x ∷ r) (set_pair pre a b rest))

-- The loop swaps the pairs of `xs`, which stands behind `pre`.
endian_loop-swap_pairs :
    (rounds : ℕ) (pre xs rest : List ℕ)
    → length xs / 2 ≡ rounds
    → endian_loop rounds (length pre) (pre ++ (xs ++ rest)) ≡ some (pre ++ (swap_pairs xs ++ rest))
unfolding endian_loop swap_pairs
endian_loop-swap_pairs zero pre [] rest h = refl
endian_loop-swap_pairs zero pre (a ∷ []) rest h = refl
endian_loop-swap_pairs zero pre (a ∷ b ∷ xs) rest h = let f : ⊥ = omega arith in elim f [ ]
endian_loop-swap_pairs (suc rounds) pre [] rest h = let f : ⊥ = omega arith in elim f [ ]
endian_loop-swap_pairs (suc rounds) pre (a ∷ []) rest h = let f : ⊥ = omega arith in elim f [ ]
endian_loop-swap_pairs (suc rounds) pre (a ∷ b ∷ xs) rest h =
    let n : length (pre ++ b ∷ a ∷ []) ≡ length pre + 2 = length-append pre (b ∷ a ∷ []) in
    let ih = endian_loop-swap_pairs rounds (pre ++ b ∷ a ∷ []) xs rest (omega arith) in
    rw
      (
        get_elem?-first pre a (b ∷ (xs ++ rest)),
        get_elem?-second pre a b (xs ++ rest),
        set_pair pre a b (xs ++ rest),
        endian_loop,
      )
      rw (← append_assoc (b ∷ a ∷ []) (swap_pairs xs) rest, ← append_assoc (b ∷ a ∷ []) xs rest)
      (rw
        (
          n,
          append_assoc pre (b ∷ a ∷ []) (xs ++ rest),
          append_assoc pre (b ∷ a ∷ []) (swap_pairs xs ++ rest),
        )
        at ih)

-- The function swaps the pairs of the first bytes of a buffer, stays within these, and leaves the
-- others alone.
pub netc_change_endian_order-swap_pairs :
    (xs rest : List ℕ)
    → netc_change_endian_order (xs ++ rest) (length xs) ≡ some (swap_pairs xs ++ rest)
unfolding netc_change_endian_order
netc_change_endian_order-swap_pairs xs rest = endian_loop-swap_pairs (length xs / 2) [] xs rest refl

-- On the first bytes of a buffer, the function swaps the two bytes of each pair, a last byte alone
-- stays, the bytes behind are untouched, and a second call gives back the buffer of before.
pub netc_change_endian_order-netc_change_endian_order :
    (xs rest : List ℕ)
    → (netc_change_endian_order (xs ++ rest) (length xs) ≡ some (swap_pairs xs ++ rest))
      × (netc_change_endian_order (swap_pairs xs ++ rest) (length xs) ≡ some (xs ++ rest))
netc_change_endian_order-netc_change_endian_order xs rest = (
  netc_change_endian_order-swap_pairs xs rest,
  subst (λ n. netc_change_endian_order (swap_pairs xs ++ rest) n ≡ some (xs ++ rest))
      (length-swap_pairs xs)
      (subst
        (λ ys.
          netc_change_endian_order (swap_pairs xs ++ rest) (length (swap_pairs xs))
          ≡ some (ys ++ rest))
        (swap_pairs-swap_pairs xs) (netc_change_endian_order-swap_pairs (swap_pairs xs) rest)),
)
