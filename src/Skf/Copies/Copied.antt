-- ===== src/Skf/Copies/Copied.antt =====
-- GetContainerNames on a token that lists names: the copies, and what stays allocated when a block is
-- refused.
use mathlib.Core.Bool.{false≢true}
use make_down_file.Prelude.{
  ℕ, zero, suc, ◌+◌, ◌≤◌, ◌<◌, ◌≡◌, ◌∙◌, ◌⊎◌, inl, inr, refl, ap, Bool, true, false, Bool-cases,
  some, List, [], ◌∷◌, arith, length, ◌==◌, ltb, has, erase, ==_refl,
}
use make_down_file.Run.{ok, pure, Returns, returns, Returns-bind, Ends, Returns-Ends, ◌>>◌}
use make_down_file.Skf.World.{Call, Token, World, M, malloc, free}
use make_down_file.Skf.Names.Encoded.{
  AllNames, encode, count_loop-encode, before_end, at_end, first_length, first_bytes, behind_first,
  encode_longer,
}
use make_down_file.Skf.Names.{count_loop}
use make_down_file.Skf.Enumerate.{code, minus_one}
use make_down_file.Skf.Enumerate.Applications.{listing, encode_long}
use make_down_file.Skf.Copies.{Names, only, copy_loop, free_copies, copy_all, get_container_names}

-- The texts of the copies.
abbrev pub texts : List (ℕ × List ℕ) → List (List ℕ)
texts [] = []
texts (copy ∷ copies) = copy.1 ∷ texts copies

-- The addresses grow, from `n` on.
abbrev Rising : ℕ → List (ℕ × List ℕ) → Type 0
Rising n [] = Unit
Rising n (copy ∷ copies) = (n ≤ copy.0) × Rising (copy.0 + 1) copies

-- The copies' blocks upon others.
abbrev stacked : List (ℕ × List ℕ) → List ℕ → List ℕ
stacked [] base = base
stacked (copy ∷ copies) base = stacked copies (copy.0 ∷ base)

module _ (p : ℕ) where
  has-stacked :
      (n : ℕ) (copies : List (ℕ × List ℕ)) (base : List ℕ)
      → p < n
      → Rising n copies
      → has p (stacked copies base) ≡ has p base
  has-stacked n [] base h r = refl
  has-stacked n (copy ∷ copies) base h (a, r) =
      has-stacked (copy.0 + 1) copies (copy.0 ∷ base) (omega arith) r ∙ skip
    where
      skip : has p (copy.0 ∷ base) ≡ has p base
      skip = ground arith

  erase-stacked :
      (n : ℕ) (copies : List (ℕ × List ℕ)) (base : List ℕ)
      → p < n
      → Rising n copies
      → erase p (stacked copies base) ≡ stacked copies (erase p base)
  erase-stacked n [] base h r = refl
  erase-stacked n (copy ∷ copies) base h (a, r) =
      erase-stacked (copy.0 + 1) copies (copy.0 ∷ base) (omega arith) r
      ∙ ap (λ b. stacked copies b) skip
    where
      skip : erase p (copy.0 ∷ base) ≡ copy.0 ∷ erase p base
      skip = ground arith

module _ (token : Token) where
  -- After the loop, the granted blocks lie upon those from before, and hold the names if none was refused.
  abbrev Copied : List (List ℕ) → World → Bool × List (ℕ × List ℕ) → World → Type 0
  Copied names w (done, out) w' =
      Rising w.next out × (w'.blocks ≡ stacked out w.blocks) × (done ≡ true → texts out ≡ names)

  Copied-cons :
      (name : List ℕ) (names : List (List ℕ)) (w : World) (r : Bool × List (ℕ × List ℕ))
      (w' : World)
      → Copied names (record w { next = w.next + 1; blocks = w.next ∷ w.blocks }) r w'
      → Copied (name ∷ names) w (r.0, (w.next, name) ∷ r.1) w'
  Copied-cons name names w r w' (rising, blocks, done) =
      ((omega arith, rising), blocks, (λ d. ap (λ t. name ∷ t) (done d)))

  copy_loop-Copied :
      (cap fuel i pos len : ℕ) (names : List (List ℕ)) (w : World)
      → AllNames names
      → pos + length (encode names) ≡ len
      → length (encode names) + 1 ≤ fuel
      → i + length names ≤ cap
      → Returns (Copied names w) (copy_loop token cap fuel i pos len (encode names) w)
  unfolding copy_loop encode malloc
  copy_loop-Copied cap zero i pos len names w a l f b = let h : ⊥ = omega arith in elim h [ ]
  copy_loop-Copied cap (suc zero) i pos len [] w a l f b = let h : ⊥ = omega arith in elim h [ ]
  copy_loop-Copied cap (suc (suc fuel)) i pos len [] w a l f b =
      rw (before_end pos 1 len l (omega arith), at_end (pos + 1) len l, copy_loop)
        (returns (tt, refl, λ _. refl))
  copy_loop-Copied cap (suc fuel) i pos len ([] ∷ names) w a l f b = elim a [ ]
  copy_loop-Copied cap (suc fuel) i pos len ((zero ∷ cs) ∷ names) w a l f b = elim a.0 [ ]
  copy_loop-Copied cap (suc fuel) i pos len ((suc c ∷ cs) ∷ names) w a l f b =
      let grows = encode_longer c cs names in
      let room : ltb i cap ≡ true = ground arith in
      elim (Bool-cases (token.memory w.next)) [
        | inr m ↦
            rw
              (
                before_end pos _ len l (omega arith),
                first_length c cs names a.0,
                room,
                m,
                copy_loop,
              )
              (returns (tt, refl, λ d. elim (false≢true d) [ ]))
        | inl m ↦
            rw
              (
                before_end pos _ len l (omega arith),
                first_length c cs names a.0,
                room,
                m,
                first_bytes c cs names,
                behind_first c cs names,
                copy_loop,
              )
              (Returns-bind
                (copy_loop-Copied cap fuel (i + 1) (pos + (suc (length cs) + 1)) len names
                  (record w { next = w.next + 1; blocks = w.next ∷ w.blocks }) a.1 (omega arith)
                  (omega arith) (omega arith))
                (λ r w' k. returns (Copied-cons (suc c ∷ cs) names w r w' k)))
      ]

  -- A block below the copies is freed.
  free-stacked :
      (p n : ℕ) (copies : List (ℕ × List ℕ)) (base : List ℕ) (w : World)
      → p < n
      → Rising n copies
      → has p base ≡ true
      → w.blocks ≡ stacked copies base
      → free p w ≡ ok tt (record w { blocks = stacked copies (erase p base) })
  unfolding free
  free-stacked p n copies base w h r live e =
      simp (e, has-stacked p n copies base h r, erase-stacked p n copies base h r, live) refl

  free_copies_lem :
      (n : ℕ) (copies : List (ℕ × List ℕ)) (base : List ℕ) (w : World)
      → Rising n copies
      → w.blocks ≡ stacked copies base
      → Returns (λ _ w'. w'.blocks ≡ base) (free_copies token copies w)
  unfolding free_copies
  free_copies_lem n [] base w r e = returns e
  free_copies_lem n (copy ∷ copies) base w (a, r) e =
      rw
        (
          free-stacked copy.0 (copy.0 + 1) copies (copy.0 ∷ base) w (omega arith) r
              (rw (==_refl copy.0)) e,
          free_copies,
        )
        (free_copies_lem (copy.0 + 1) copies base
          (record w { blocks = stacked copies (erase copy.0 (copy.0 ∷ base)) }) r
          (rw (==_refl copy.0)))

  -- Nothing, and nothing allocated; or a copy of each name.
  abbrev pub Given : List (List ℕ) → List ℕ → ℕ → Names → World → Type 0
  Given names blocks array r w' =
      ((r ≡ only minus_one) × (w'.blocks ≡ blocks))
      ⊎ ((out : List (ℕ × List ℕ)) × (r
            ≡ record { rv = code 0; array = some (array, out); count = some (length names) })
          × (texts out ≡ names)
          × (w'.blocks ≡ stacked out (array ∷ blocks)))

  free_top :
      (p : ℕ) (bs : List ℕ) (w : World)
      → w.blocks ≡ p ∷ bs
      → free p w ≡ ok tt (record w { blocks = bs })
  unfolding free
  free_top p bs w e = simp (e, ==_refl p) refl

  free_list :
      (list array : ℕ) (out : List (ℕ × List ℕ)) (blocks : List ℕ) (n : ℕ) (w : World)
      → list < array
      → array < n
      → Rising n out
      → w.blocks ≡ stacked out (array ∷ list ∷ blocks)
      → free list w ≡ ok tt (record w { blocks = stacked out (array ∷ blocks) })
  free_list list array out blocks n w la an r e =
      let live : has list (array ∷ list ∷ blocks) ≡ true = ground arith in
      let gone : erase list (array ∷ list ∷ blocks) ≡ array ∷ blocks = ground arith in
      rw (← gone) (free-stacked list n out (array ∷ list ∷ blocks) w (omega arith) r live e)

  -- From the end of the loop on.
  ending :
      (list array : ℕ) (names : List (List ℕ)) (blocks : List ℕ) (w : World)
      (o : Bool × List (ℕ × List ℕ)) (w1 : World)
      → list < array
      → array < w.next
      → w.blocks ≡ array ∷ list ∷ blocks
      → Copied names w o w1
      → Returns (Given names blocks array) (
          (elim o.0 as (λ _. M Names) [
            | false ↦ (do free list; free_copies token o.1; free array; pure (only minus_one))
            | true ↦ (do
              free list
              pure (record { rv = code 0; array = some (array, o.1); count = some (length names) }))
          ])
            w1)
  ending list array names blocks w (true, out) w1 la an e (rising, b, done) =
      rw (free_list list array out blocks w.next w1 la an rising (b ∙ rw e))
        (returns (inr (out, refl, done refl, refl)))
  ending list array names blocks w (false, out) w1 la an e (rising, b, done) =
      rw (free_list list array out blocks w.next w1 la an rising (b ∙ rw e)) (
        Returns-bind
          (free_copies_lem w.next out (array ∷ blocks)
            (record w1 { blocks = stacked out (array ∷ blocks) }) rising refl)
          (λ _ w2 f. rw (free_top array blocks w2 f) (returns (inl (refl, refl)))))

  names_counted :
      (names : List (List ℕ)) (w : World)
      → AllNames names
      → count_loop 1 (length (encode names) + 1) 0 (length (encode names)) (encode names) 0 w
        ≡ ok (length names) w
  names_counted names w a =
      count_loop-encode (length (encode names) + 1) 0 (length (encode names)) 0 names w a
        (omega arith) (omega arith)
      ∙ (let e : 0 + length names ≡ length names = omega arith in rw e refl)

  copy_all-Given :
      (list : ℕ) (names : List (List ℕ)) (blocks : List ℕ) (w : World)
      → AllNames names
      → 1 ≤ length names
      → w.blocks ≡ list ∷ blocks
      → list < w.next
      → Returns (Given names blocks w.next) (copy_all token list (listing names) w)
  unfolding copy_all listing malloc
  copy_all-Given list names blocks w a n b l =
      let some_names : (length names == 0) ≡ false = ground arith in
      elim (Bool-cases (token.memory w.next)) [
        | inr m ↦
            rw
              (
                names_counted names w a,
                some_names,
                m,
                free_top list blocks (record w { next = w.next + 1 }) b,
              )
              (returns (inl (refl, refl)))
        | inl m ↦
            let w1 : World = record w { next = w.next + 1; blocks = w.next ∷ w.blocks } in
            rw (names_counted names w a, some_names, m)
              (Returns-bind
                (copy_loop-Copied (length names) (length (encode names) + 1) 0 0
                  (length (encode names)) names w1 a (omega arith) (omega arith) (omega arith))
                (λ (o : Bool × List (ℕ × List ℕ)) w2 (k : Copied names w1 o w2).
                  ending list w.next names blocks w1 o w2 l (omega arith) (rw b) k))
      ]

  -- GetContainerNames of an application whose token lists at least one name, with the table loaded,
  -- ends without a fault, whichever blocks are refused: no read or write is out of bounds, and each
  -- block is freed at most once. Either the status is -1, no array is given, and the blocks are those
  -- from before; or the status is SAR_OK, the array has a copy of each name in order, the number is that of
  -- the names, and the array and the copies are the only new blocks.
  pub get_container_names-Given :
      (app : ℕ) (names : List (List ℕ)) (api : ℕ) (w : World)
      → ((t : List Call) → token.enum_container t app ≡ listing names)
      → w.api ≡ some api
      → AllNames names
      → 1 ≤ length names
      → Ends (Given names w.blocks (w.next + 1)) (get_container_names token app w)
  unfolding get_container_names listing
  get_container_names-Given app names api w lists loaded a n =
      elim (Bool-cases (token.memory w.next)) [
        | inr m ↦ ground (arith, encode_long token names a n, lists w.calls)
        | inl m ↦
            let asked = Call.enum_container app false ∷ w.calls in
            let r = Returns-Ends (
              copy_all-Given w.next names w.blocks
                (record w {
                  next = w.next + 1;
                  blocks = w.next ∷ w.blocks;
                  calls = Call.enum_container app true ∷ asked;
                })
                a n refl (omega arith)) in
            ground (arith, encode_long token names a n, lists w.calls, lists asked, r)
      ]
