-- ===== src/Netc/Text/Kept.antt =====
-- A text that is put into the output buffer keeps the buffer's length and what is behind `size` bytes.
use make_down_file.Prelude.{
  ℕ, zero, suc, ◌+◌, ◌-◌, ◌<◌, ◌≤◌, ◌≡◌, refl, Option, none, some, List, [], ◌∷◌, ◌++◌, arith,
  length, drop, ltb, length-append, Bool-cases, inl, inr, Option-cases, length-drop, drop-drop,
}
use make_down_file.Netc.World.{Asn1Type, bmpstring, utf8string, printablestring, other_string, Lib}
use make_down_file.Netc.Text.Put.{length-replicate, shown, overlaid}
use make_down_file.Netc.Text.Convert.{converted, filled, outcome}

drop-append : (n : ℕ) (xs ys : List ℕ) → length xs ≤ n → drop n (xs ++ ys) ≡ drop (n - length xs) ys
drop-append n [] ys h = let e : n - 0 ≡ n = omega arith in rw e
drop-append zero (x ∷ xs) ys h = let f : ⊥ = omega arith in elim f [ ]
drop-append (suc n) (x ∷ xs) ys h =
    let e : suc n - suc (length xs) ≡ n - length xs = omega arith in
    rw e (drop-append n xs ys (omega arith))

-- As long as before, and unchanged from offset `size` on.
abbrev pub Kept : ℕ → List ℕ → List ℕ → Type 0
Kept size buf out = (length out ≡ length buf) × (drop size out ≡ drop size buf)

Kept-prefix :
    (size : ℕ) (buf front : List ℕ)
    → length front ≤ size
    → size ≤ length buf
    → Kept size buf (front ++ drop (length front) buf)
Kept-prefix size buf front h k = (
  omega (arith, length-append front (drop (length front) buf), length-drop (length front) buf),
  let e : length front + (size - length front) ≡ size = omega arith in
      rw
        (
          drop-append size front (drop (length front) buf) h,
          drop-drop (length front) (size - length front) buf,
          e,
        )
        refl,
)

shown_fits : (size : ℕ) (text : List ℕ) → 0 < size → length (shown size text) ≤ size
unfolding shown
shown_fits size text p = elim (Bool-cases (ltb (length text) size)) [
  | inl s ↦
      let short : length text < size = ground arith in
      rw (s, shown) (omega (arith, length-append text (0 ∷ [])))
  | inr l ↦ rw (l, shown) (omega (arith, length-replicate (size - 1) 0))
]

overlaid-Kept :
    (size : ℕ) (buf text : List ℕ)
    → 0 < size
    → size ≤ length buf
    → Kept size buf (overlaid (shown size text) buf)
unfolding overlaid
overlaid-Kept size buf text p h = Kept-prefix size buf (shown size text) (shown_fits size text p) h

module _ (lib : Lib) where
  filled-Kept :
      (type : Asn1Type) (size : ℕ) (buf text : List ℕ)
      → 0 < size
      → size ≤ length buf
      → Kept size buf (filled lib type size buf text)
  unfolding filled
  filled-Kept bmpstring size buf [] p h = (refl, refl)
  filled-Kept bmpstring size buf (c ∷ cs) p h = overlaid-Kept size buf (c ∷ cs) p h
  filled-Kept utf8string size buf [] p h = (refl, refl)
  filled-Kept utf8string size buf (c ∷ cs) p h = overlaid-Kept size buf (c ∷ cs) p h
  filled-Kept printablestring size buf text p h = overlaid-Kept size buf text p h
  filled-Kept other_string size buf text p h = overlaid-Kept size buf text p h

  abbrev pub KeptIn : ℕ → List ℕ → Option (List ℕ) → Type 0
  KeptIn size buf none = Unit {0}
  KeptIn size buf (some out) = Kept size buf out

  pub outcome-Kept :
      (type : Asn1Type) (size : ℕ) (buf bytes : List ℕ)
      → 0 < size
      → size ≤ length buf
      → KeptIn size buf (outcome lib type size buf bytes)
  unfolding outcome
  outcome-Kept type size buf bytes p h = elim (Option-cases (converted lib type bytes)) [
    | inl n ↦ rw (n, outcome) tt
    | inr (text, e) ↦ rw (e, outcome) (filled-Kept type size buf text p h)
  ]
