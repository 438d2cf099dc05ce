-- ===== src/Cng/KeyMgmt/Reverse.antt =====
-- duplicate_buffer_in_reverse writes the buffer backwards.
use mathlib.Core.List.{append_assoc, reverse-append, reverse-reverse}
use mathlib.Core.Path.{subst}
use make_down_file.Prelude.{
  ℕ, zero, suc, ◌+◌, ◌-◌, ◌≤◌, ◌≡◌, ◌∙◌, refl, sym, ap, true, some, List, [], ◌∷◌, ◌++◌, reverse,
  arith, length, length-append, ltb, get_elem?, set, take, drop, replicate, take-append-drop,
}
use make_down_file.Cng.KeyMgmt.{reverse_loop}

length-reverse : (xs : List ℕ) → length (reverse xs) ≡ length xs
length-reverse [] = refl
length-reverse (x ∷ xs) =
    rw (reverse-append (x ∷ []) xs)
      (omega (arith, length-append {0} (reverse xs) (x ∷ []), length-reverse xs))

length-take : (n : ℕ) (xs : List ℕ) → n ≤ length xs → length (take n xs) ≡ n
length-take zero xs h = refl
length-take (suc n) [] h = elim h [ ]
length-take (suc n) (x ∷ xs) h = ap suc (length-take n xs (omega arith))

length-replicate : (n a : ℕ) → length (replicate n a) ≡ n
length-replicate zero a = refl
length-replicate (suc n) a = ap suc (length-replicate n a)

get_elem?-append_at :
    (xs : List ℕ) (y : ℕ) (ys : List ℕ) (i : ℕ)
    → i ≡ length xs
    → get_elem? (xs ++ y ∷ ys) i ≡ some y
get_elem?-append_at [] y ys zero h = refl
get_elem?-append_at [] y ys (suc i) h = absurd (omega arith)
get_elem?-append_at (x ∷ xs) y ys zero h = absurd (omega arith)
get_elem?-append_at (x ∷ xs) y ys (suc i) h = get_elem?-append_at xs y ys i (omega arith)

set-append_at :
    (xs : List ℕ) (y z : ℕ) (ys : List ℕ) (i : ℕ)
    → i ≡ length xs
    → set (xs ++ y ∷ ys) i z ≡ xs ++ z ∷ ys
set-append_at [] y z ys zero h = refl
set-append_at [] y z ys (suc i) h = absurd (omega arith)
set-append_at (x ∷ xs) y z ys zero h = absurd (omega arith)
set-append_at (x ∷ xs) y z ys (suc i) h =
    ap (λ (l : List ℕ). x ∷ l) (set-append_at xs y z ys i (omega arith))

-- The buffer, read from its end: `y` stands behind what is still to be read.
split_at :
    (done : List ℕ) (y : ℕ) (rest extra : List ℕ)
    → reverse (done ++ y ∷ rest) ++ extra ≡ reverse rest ++ y ∷ (reverse done ++ extra)
split_at done y rest extra =
    rw (reverse-append done (y ∷ rest), reverse-append (y ∷ []) rest) (simp append_assoc)

-- After `i` rounds the first `i` places hold the reversed list `done`, and `rest` is still to come.
reverse_loop-reverse :
    (rest done garbage extra buffer : List ℕ) (i size : ℕ)
    → buffer ≡ reverse (done ++ rest) ++ extra
    → i ≡ length done
    → size ≡ length done + length rest
    → length garbage ≡ length rest
    → reverse_loop (length rest) i buffer size (done ++ garbage) ≡ some (done ++ rest)
unfolding reverse_loop
reverse_loop-reverse [] done [] extra buffer i size b e s g = refl
reverse_loop-reverse [] done (x ∷ garbage) extra buffer i size b e s g = absurd (omega arith)
reverse_loop-reverse (y ∷ rest) done [] extra buffer i size b e s g = absurd (omega arith)
reverse_loop-reverse (y ∷ rest) done (x ∷ garbage) extra buffer i size b e s g =
    rw (read, inside, reverse_loop)
      (rw (set-append_at done x y garbage i e) (
        rw (← append_assoc done (y ∷ []) garbage, ← append_assoc done (y ∷ []) rest)
          (reverse_loop-reverse rest (done ++ y ∷ []) garbage extra buffer (i + 1) size
            (b ∙ rw append_assoc) (omega (arith, length-append {0} done (y ∷ [])))
            (omega (arith, length-append {0} done (y ∷ []))) (omega arith))))
  where
    inside : ltb i (length (done ++ x ∷ garbage)) ≡ true
    inside =
        let l : length (done ++ x ∷ garbage) ≡ length done + suc (length garbage) =
          length-append done (x ∷ garbage) in
        ground arith

    read : get_elem? buffer (size - i - 1) ≡ some y
    read =
        rw (b, split_at done y rest extra)
          (get_elem?-append_at (reverse rest) y (reverse done ++ extra) (size - i - 1)
            (omega (arith, length-reverse rest)))

-- Copying the first `size` bytes of a buffer of at least that length never reads or stores
-- out of bounds, and gives those bytes in reverse order.
pub reverse_loop-take :
    (buffer : List ℕ) (size : ℕ)
    → size ≤ length buffer
    → reverse_loop size 0 buffer size (replicate size 0) ≡ some (reverse (take size buffer))
reverse_loop-take buffer size h =
    let n : length (reverse (take size buffer)) ≡ size =
      length-reverse (take size buffer) ∙ length-take size buffer h in
    subst (λ k. reverse_loop k 0 buffer size (replicate size 0) ≡ some (reverse (take size buffer)))
      n
      (reverse_loop-reverse (reverse (take size buffer)) [] (replicate size 0) (drop size buffer)
        buffer 0 size (rw (reverse-reverse, take-append-drop size buffer)) refl (omega arith)
        (length-replicate size 0 ∙ sym n))
