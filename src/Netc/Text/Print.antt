-- ===== src/Netc/Text/Print.antt =====
-- NETC_SSL_X509_ASN1_STRING_print writes the whole string, in pieces that fit into its buffer.
use mathlib.Core.List.{append_assoc, append-nil}
use mathlib.Core.Bool.{false≢true}
use make_down_file.Prelude.{
  ℕ, ◌+◌, ◌<◌, ◌≤◌, ◌≡◌, refl, Bool, true, false, ◌&&◌, Option, none, some, List, [], ◌∷◌, ◌++◌,
  arith, length, drop, ◌==◌, ltb, leb, if◌then◌else◌, length-append, ==_refl, Bool-cases, inl, inr,
}
use make_down_file.Run.{Returns, returns, Returns-mono, Returns-bind, pure}
use make_down_file.Netc.World.{Call, bio_new, bio_read, bio_free, Asn1String, Lib, World, M, call}
use make_down_file.Netc.Text.{acbuf_size, bio_write, print_loop, netc_ssl_x509_asn1_string_print}

-- What a memory BIO holds: what was written to it since it was made and not read yet. `calls` has the
-- last call first.
unfoldable pub in_bio : ℕ → List Call → List ℕ
in_bio bio [] = []
in_bio bio (Call.bio_write b bytes ∷ calls) =
    if b == bio then in_bio bio calls ++ bytes else in_bio bio calls
in_bio bio (bio_new ∷ calls) = in_bio bio calls
in_bio bio (bio_read b n ∷ calls) = if b == bio then drop n (in_bio bio calls) else in_bio bio calls
in_bio bio (bio_free b ∷ calls) = if b == bio then [] else in_bio bio calls

-- Every write hands over at least one byte, and at most the whole of `acbuf`.
unfoldable pub small_writes : List Call → Bool
small_writes [] = true
small_writes (Call.bio_write b bytes ∷ calls) =
    ltb 0 (length bytes) && (leb (length bytes) acbuf_size && small_writes calls)
small_writes (bio_new ∷ calls) = small_writes calls
small_writes (bio_read b n ∷ calls) = small_writes calls
small_writes (bio_free b ∷ calls) = small_writes calls

module _ (lib : Lib) (bio : ℕ) where
  -- After the loop: what is written and what is left in the buffer is what there was to write.
  abbrev Looped : List ℕ → World → Option (List ℕ) → World → Type 0
  Looped bytes w none w' = (small_writes w'.calls ≡ true) × (w'.blocks ≡ w.blocks)
  Looped bytes w (some left) w' =
      (in_bio bio w'.calls ++ left ≡ in_bio bio w.calls ++ bytes)
      × (length left < acbuf_size)
      × (small_writes w'.calls ≡ true)
      × (w'.blocks ≡ w.blocks)

  -- The call of BIO_write with a full buffer.
  abbrev flushed : List ℕ → World → World
  flushed acbuf w = record w { calls = Call.bio_write bio acbuf ∷ w.calls }

  in_bio-flushed :
      (acbuf : List ℕ) (w : World)
      → in_bio bio (flushed acbuf w).calls ≡ in_bio bio w.calls ++ acbuf
  unfolding in_bio
  in_bio-flushed acbuf w = rw (==_refl bio)

  small_writes-flushed :
      (acbuf : List ℕ) (w : World)
      → 0 < length acbuf
      → length acbuf ≤ acbuf_size
      → small_writes w.calls ≡ true
      → small_writes (flushed acbuf w).calls ≡ true
  unfolding small_writes
  small_writes-flushed acbuf w pos fits s = ground arith

  Looped-flushed :
      (acbuf rest : List ℕ) (w : World) (o : Option (List ℕ)) (w' : World)
      → Looped rest (flushed acbuf w) o w'
      → Looped (acbuf ++ rest) w o w'
  Looped-flushed acbuf rest w none w' h = h
  Looped-flushed acbuf rest w (some left) w' (e, n, s, b) =
      (rw (e, in_bio-flushed acbuf w, append_assoc (in_bio bio w.calls) acbuf rest), n, s, b)

  print_loop_lem :
      (bytes acbuf : List ℕ) (w : World)
      → length acbuf < acbuf_size
      → small_writes w.calls ≡ true
      → Returns (Looped (acbuf ++ bytes) w) (print_loop lib bio bytes acbuf w)
  unfolding print_loop bio_write call
  print_loop_lem [] acbuf w h s = returns (rw (append-nil acbuf), h, s, refl)
  print_loop_lem (c ∷ rest) acbuf w h s =
      let n : length (acbuf ++ c ∷ []) ≡ length acbuf + 1 = length-append acbuf (c ∷ []) in
      let fits : ltb (length acbuf) acbuf_size ≡ true = ground arith in
      let keep : length acbuf + 1 < acbuf_size
          → Returns (Looped (acbuf ++ c ∷ rest) w) (print_loop lib bio rest (acbuf ++ c ∷ []) w) =
        λ room.
          rw (← append_assoc acbuf (c ∷ []) rest)
            (print_loop_lem rest (acbuf ++ c ∷ []) w (omega arith) s) in
      let flush : Returns (Looped (acbuf ++ c ∷ rest) w)
          (print_loop lib bio rest [] (flushed (acbuf ++ c ∷ []) w)) =
        rw (← append_assoc acbuf (c ∷ []) rest) (
          Returns-mono
            (print_loop_lem rest [] (flushed (acbuf ++ c ∷ []) w) (omega arith)
              (small_writes-flushed (acbuf ++ c ∷ []) w (omega arith) (omega arith) s))
            (Looped-flushed (acbuf ++ c ∷ []) rest w)) in
      elim (Bool-cases (leb acbuf_size (length (acbuf ++ c ∷ [])))) [
        | inr f ↦ rw (fits, f, print_loop) (keep (ground arith))
        | inl t ↦ elim (Bool-cases (lib.bio_write w.calls bio (acbuf ++ c ∷ []))) [
          | inr f ↦
              rw (fits, t, f, print_loop)
                (returns
                  ((small_writes-flushed (acbuf ++ c ∷ []) w (omega arith) (omega arith) s), refl))
          | inl g ↦ rw (fits, t, g, print_loop) flush
        ]
      ]

  -- The postcondition of the function.
  abbrev pub Printed : List ℕ → World → Bool → World → Type 0
  Printed bytes w r w' =
      (r ≡ true → in_bio bio w'.calls ≡ in_bio bio w.calls ++ bytes)
      × (small_writes w'.calls ≡ true)
      × (w'.blocks ≡ w.blocks)

  Printed-Looped :
      (bytes left : List ℕ) (w w1 : World)
      → Looped bytes w (some left) w1
      → Returns
          (Printed bytes w)
          ((if ltb 0 (length left) then bio_write lib bio left else pure true) w1)
  unfolding bio_write call
  Printed-Looped bytes [] w w1 (e, n, s, b) =
      returns ((λ _. rw (← append-nil (in_bio bio w1.calls)) e), s, b)
  Printed-Looped bytes (c ∷ left) w w1 (e, n, s, b) =
      let s' = small_writes-flushed (c ∷ left) w1 (omega arith) (omega arith) s in
      let some_left : ltb 0 (length (c ∷ left)) ≡ true = ground arith in
      rw some_left (returns ((λ _. rw (in_bio-flushed (c ∷ left) w1) e), s', b))

  Printed-print_loop :
      (bytes : List ℕ) (w : World) (o : Option (List ℕ)) (w1 : World)
      → Looped bytes w o w1
      → Returns (Printed bytes w) (
          (elim o as (λ _. M Bool) [
            | none ↦ pure false
            | some left ↦ if ltb 0 (length left) then bio_write lib bio left else pure true
          ])
            w1)
  Printed-print_loop bytes w none w1 (s, b) = returns ((λ h. elim (false≢true h) [ ]), s, b)
  Printed-print_loop bytes w (some left) w1 h = Printed-Looped bytes left w w1 h

  -- The function ends and never writes outside of its buffer. Every BIO_write hands over from 1 to 80
  -- bytes, if that held of the calls before; no block is allocated or freed; and if 0 is returned,
  -- what was written is the string's bytes in their order.
  pub netc_ssl_x509_asn1_string_print-Printed :
      (str : Asn1String) (w : World)
      → small_writes w.calls ≡ true
      → Returns (Printed str.bytes w) (netc_ssl_x509_asn1_string_print lib bio (some str) w)
  unfolding netc_ssl_x509_asn1_string_print
  netc_ssl_x509_asn1_string_print-Printed str w s =
      Returns-bind (print_loop_lem str.bytes [] w (omega arith) s) (Printed-print_loop str.bytes w)
