-- ===== src/Netc/Text/Put.antt =====
-- What the copies into the output buffer put there.
use mathlib.Core.List.{append_assoc}
use make_down_file.Prelude.{
  ℕ, zero, suc, ◌+◌, ◌-◌, ◌≡◌, refl, ap, true, false, List, [], ◌∷◌, ◌++◌, arith, length, drop,
  replicate, leb, ltb, length-append, Bool-cases, inl, inr, if◌then◌else◌,
}
use make_down_file.Netc.Text.{put_text}

-- The bytes written for a text: the text and its terminator, if they fit into `size` bytes, and a
-- cleared buffer but for the last byte, if they do not.
unfoldable pub shown : ℕ → List ℕ → List ℕ
shown size text = if ltb (length text) size then text ++ 0 ∷ [] else replicate (size - 1) 0

-- The buffer with its first bytes replaced.
unfoldable pub overlaid : List ℕ → List ℕ → List ℕ
overlaid front buf = front ++ drop (length front) buf

pub length-replicate : (n a : ℕ) → length (replicate n a) ≡ n
length-replicate zero a = refl
length-replicate (suc n) a = ap suc (length-replicate n a)

put_text-cleared :
    (size : ℕ) (buf text : List ℕ)
    → leb size (length text) ≡ true
    → put_text size buf text
      ≡ replicate (size - 1) 0 ++ drop (length {A = ℕ} (replicate (size - 1) 0)) buf
unfolding put_text
put_text-cleared size buf text t = rw (length-replicate (size - 1) 0, t, put_text) refl

put_text-copied :
    (size : ℕ) (buf text : List ℕ)
    → leb size (length text) ≡ false
    → put_text size buf text ≡ (text ++ 0 ∷ []) ++ drop (length (text ++ 0 ∷ [])) buf
unfolding put_text
put_text-copied size buf text f =
    rw
      (
        length-append text (0 ∷ []),
        f,
        append_assoc text (0 ∷ []) (drop (length text + 1) buf),
        put_text,
      )
      refl

pub put_text-overlaid :
    (size : ℕ) (buf text : List ℕ) → put_text size buf text ≡ overlaid (shown size text) buf
unfolding shown overlaid
put_text-overlaid size buf text = elim (Bool-cases (leb size (length text))) [
  | inl t ↦
      let long : ltb (length text) size ≡ false = ground arith in
      rw (long, put_text-cleared size buf text t) refl
  | inr f ↦
      let short : ltb (length text) size ≡ true = ground arith in
      rw (short, put_text-copied size buf text f) refl
]
