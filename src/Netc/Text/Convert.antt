-- ===== src/Netc/Text/Convert.antt =====
-- The conversion of an entry's string and what it leaves to free.
use mathlib.Core.Bool.{false≢true}
use make_down_file.Prelude.{
  ℕ, ◌≡◌, refl, Bool, true, Option, none, some, List, [], ◌∷◌, ◌++◌, arith, length, take, ltb,
  Bool-cases, inl, inr, Option-cases, take-append,
}
use make_down_file.Run.{Returns, returns}
use make_down_file.Netc.World.{
  Asn1Type, bmpstring, utf8string, printablestring, other_string, Lib, World, malloc, from_option,
}
use make_down_file.Netc.Text.Put.{shown, overlaid, put_text-overlaid}
use make_down_file.Netc.Text.{convert, copy_plain, put_converted}
use make_down_file.Netc.Text.Endian.{
  swap_pairs, length-swap_pairs, netc_change_endian_order-swap_pairs,
}

module _ (lib : Lib) where
  -- The text that the conversions give for a string.
  unfoldable pub converted : Asn1Type → List ℕ → Option (List ℕ)
  converted bmpstring [] = some []
  converted bmpstring (c ∷ cs) = lib.unicode_to_gbk (swap_pairs (c ∷ cs))
  converted utf8string [] = some []
  converted utf8string (c ∷ cs) = lib.utf8_to_gbk (c ∷ cs)
  converted printablestring bytes = some bytes
  converted other_string bytes = some bytes

  -- The output buffer with a text: an empty converted text leaves it as it is.
  unfoldable pub filled : Asn1Type → ℕ → List ℕ → List ℕ → List ℕ
  filled bmpstring size buf [] = buf
  filled bmpstring size buf (c ∷ cs) = overlaid (shown size (c ∷ cs)) buf
  filled utf8string size buf [] = buf
  filled utf8string size buf (c ∷ cs) = overlaid (shown size (c ∷ cs)) buf
  filled printablestring size buf text = overlaid (shown size text) buf
  filled other_string size buf text = overlaid (shown size text) buf

  abbrev pub pushed : Option ℕ → List ℕ → List ℕ
  pushed none bs = bs
  pushed (some p) bs = p ∷ bs

  -- The output buffer that a string gives, or `none` if a conversion fails.
  unfoldable pub outcome : Asn1Type → ℕ → List ℕ → List ℕ → Option (List ℕ)
  unfolding converted filled
  outcome type size buf bytes = elim (converted type bytes) [
    | none ↦ none
    | some text ↦ some (filled type size buf text)
  ]

  abbrev pub Converted :
      Asn1Type → ℕ → List ℕ → List ℕ → World → Option ℕ × List ℕ × Bool → World → Type 0
  Converted type size buf bytes w (nid_out, text, goes_on) w' =
      (w'.blocks ≡ pushed nid_out w.blocks)
      × (goes_on ≡ true
          → some (put_converted lib nid_out size (copy_plain lib type size buf bytes) text)
            ≡ outcome type size buf bytes)

  outcome-some :
      (type : Asn1Type) (size : ℕ) (buf bytes text : List ℕ)
      → converted type bytes ≡ some text
      → some (filled type size buf text) ≡ outcome type size buf bytes
  unfolding outcome
  outcome-some type size buf bytes text e = rw (e, outcome)

  some_bytes : (c : ℕ) (cs : List ℕ) → ltb 0 (length (c ∷ cs)) ≡ true
  some_bytes c cs = ground arith

  put_converted-bmpstring :
      (p size : ℕ) (buf text : List ℕ)
      → put_converted lib (some p) size buf text ≡ filled bmpstring size buf text
  unfolding put_converted filled
  put_converted-bmpstring p size buf [] = refl
  put_converted-bmpstring p size buf (c ∷ cs) =
      rw (some_bytes c cs) (put_text-overlaid size buf (c ∷ cs))

  put_converted-utf8string :
      (p size : ℕ) (buf text : List ℕ)
      → put_converted lib (some p) size buf text ≡ filled utf8string size buf text
  unfolding put_converted filled
  put_converted-utf8string p size buf [] = refl
  put_converted-utf8string p size buf (c ∷ cs) =
      rw (some_bytes c cs) (put_text-overlaid size buf (c ∷ cs))

  take-swap_pairs :
      (bytes : List ℕ) → take (length bytes) (swap_pairs bytes ++ 0 ∷ []) ≡ swap_pairs bytes
  take-swap_pairs bytes = rw (← length-swap_pairs bytes, take-append (swap_pairs bytes) (0 ∷ []))

  pub convert_lem :
      (type : Asn1Type) (size : ℕ) (buf bytes : List ℕ) (w : World)
      → Returns
          (Converted type size buf bytes w)
          (convert lib type (bytes ++ 0 ∷ []) (length bytes) w)
  unfolding convert malloc from_option put_converted copy_plain outcome converted filled
  convert_lem printablestring size buf bytes w =
      returns (refl, λ _. rw (put_text-overlaid size buf bytes) refl)
  convert_lem other_string size buf bytes w =
      returns (refl, λ _. rw (put_text-overlaid size buf bytes) refl)
  convert_lem utf8string size buf [] w = returns (refl, λ _. refl)
  convert_lem utf8string size buf (c ∷ cs) w = elim (Option-cases (lib.utf8_to_gbk (c ∷ cs))) [
    | inl n ↦
        rw (some_bytes c cs, take-append (c ∷ cs) (0 ∷ []), n, convert)
          (returns (refl, λ h. elim (false≢true h) [ ]))
    | inr (text, e) ↦
        rw (some_bytes c cs, take-append (c ∷ cs) (0 ∷ []), e, convert)
          (returns (
            refl,
            λ _.
                rw (put_converted-utf8string w.next size buf text)
                  (outcome-some utf8string size buf (c ∷ cs) text e),
          ))
  ]
  convert_lem bmpstring size buf [] w = elim (Bool-cases (lib.memory w.next)) [
    | inr f ↦ rw (f, convert) (returns (refl, λ h. elim (false≢true h) [ ]))
    | inl t ↦ rw (t, convert) (returns (refl, λ _. refl))
  ]
  convert_lem bmpstring size buf (c ∷ cs) w = elim (Bool-cases (lib.memory w.next)) [
    | inr f ↦ rw (f, convert) (returns (refl, λ h. elim (false≢true h) [ ]))
    | inl t ↦ elim (Option-cases (lib.unicode_to_gbk (swap_pairs (c ∷ cs)))) [
      | inl n ↦
          rw
            (
              t,
              netc_change_endian_order-swap_pairs (c ∷ cs) (0 ∷ []),
              some_bytes c cs,
              take-swap_pairs (c ∷ cs),
              n,
              convert,
            )
            (returns (refl, λ h. elim (false≢true h) [ ]))
      | inr (text, e) ↦
          rw
            (
              t,
              netc_change_endian_order-swap_pairs (c ∷ cs) (0 ∷ []),
              some_bytes c cs,
              take-swap_pairs (c ∷ cs),
              e,
              convert,
            )
            (returns (
              refl,
              λ _.
                  rw (put_converted-bmpstring w.next size buf text)
                    (outcome-some bmpstring size buf (c ∷ cs) text e),
            ))
    ]
  ]
