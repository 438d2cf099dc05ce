-- ===== src/Skf/Names/Encoded.antt =====
-- Blocks that hold a list of names, as the token's enumeration functions fill them: each name is
-- closed by a zero byte, and one more zero closes the block.
use make_down_file.Prelude.{
  ℕ, zero, suc, ◌+◌, ◌≤◌, ◌≡◌, refl, true, false, some, List, [], ◌∷◌, ◌++◌, arith, length,
  length-append, take-append, take, drop, strlen, ◌==◌, ltb,
}
use make_down_file.Run.{Run, ok, fault, out_of_fuel, and_then, pure, ◌>>=◌}
use make_down_file.Skf.World.{World, M, undefined}
use make_down_file.Skf.Names.{count_loop, Pass, all, failed, open_loop}

abbrev pub ZeroFree : List ℕ → Type 0
ZeroFree [] = Unit
ZeroFree (zero ∷ cs) = ⊥
ZeroFree (suc c ∷ cs) = ZeroFree cs

-- A name has a byte, and no zero byte.
abbrev pub AllNames : List (List ℕ) → Type 0
AllNames [] = Unit
AllNames ([] ∷ names) = ⊥
AllNames ((c ∷ cs) ∷ names) = ZeroFree (c ∷ cs) × AllNames names

unfoldable pub encode : List (List ℕ) → List ℕ
encode [] = 0 ∷ []
encode (name ∷ names) = name ++ 0 ∷ encode names

pub strlen-append : (cs rest : List ℕ) → ZeroFree cs → strlen (cs ++ 0 ∷ rest) ≡ some (length cs)
unfolding strlen
strlen-append [] rest z = refl
strlen-append (zero ∷ cs) rest z = elim z [ ]
strlen-append (suc c ∷ cs) rest z = rw (strlen-append cs rest z) refl

drop-append : (cs rest : List ℕ) → drop (suc (length cs)) (cs ++ 0 ∷ rest) ≡ rest
drop-append [] rest = refl
drop-append (c ∷ cs) rest = drop-append cs rest

-- The first name of a block: its length, its bytes, and the block behind it.
module _ (c : ℕ) (cs : List ℕ) (names : List (List ℕ)) where
  pub first_length : ZeroFree cs → strlen (encode ((suc c ∷ cs) ∷ names)) ≡ some (suc (length cs))
  unfolding encode
  first_length z = strlen-append (suc c ∷ cs) (encode names) z

  pub first_bytes : take (suc (length cs)) (encode ((suc c ∷ cs) ∷ names)) ≡ suc c ∷ cs
  unfolding encode
  first_bytes = take-append (suc c ∷ cs) (0 ∷ encode names)

  pub behind_first : drop (suc (length cs) + 1) (encode ((suc c ∷ cs) ∷ names)) ≡ encode names
  unfolding encode
  behind_first =
      let e : suc (length cs) + 1 ≡ suc (suc (length cs)) = omega arith in
      rw e (drop-append (suc c ∷ cs) (encode names))

  pub encode_longer :
      length (encode ((suc c ∷ cs) ∷ names)) ≡ suc (length cs) + 1 + length (encode names)
  unfolding encode
  encode_longer = omega (arith, length-append cs (0 ∷ encode names))

pub before_end : (pos rest len : ℕ) → pos + rest ≡ len → 1 ≤ rest → (pos == len) ≡ false
before_end pos rest len l h = ground arith

pub at_end : (pos len : ℕ) → pos ≡ len → (pos == len) ≡ true
at_end pos len l = ground arith

-- On a block of names, with fuel above its length, the counting loop ends at the end of the block,
-- reads nothing behind it, and adds the number of the names to the count.
pub count_loop-encode :
    (fuel pos len n : ℕ) (names : List (List ℕ)) (w : World)
    → AllNames names
    → pos + length (encode names) ≡ len
    → length (encode names) + 1 ≤ fuel
    → count_loop 1 fuel pos len (encode names) n w ≡ ok (n + length names) w
unfolding count_loop encode
count_loop-encode zero pos len n names w a l f = let h : ⊥ = omega arith in elim h [ ]
count_loop-encode (suc zero) pos len n [] w a l f = let h : ⊥ = omega arith in elim h [ ]
count_loop-encode (suc (suc fuel)) pos len n [] w a l f =
    let e : n + 0 ≡ n = omega arith in
    rw (before_end pos 1 len l (omega arith), at_end (pos + 1) len l, e, count_loop) refl
count_loop-encode (suc fuel) pos len n ([] ∷ names) w a l f = elim a [ ]
count_loop-encode (suc fuel) pos len n ((zero ∷ cs) ∷ names) w a l f = elim a.0 [ ]
count_loop-encode (suc fuel) pos len n ((suc c ∷ cs) ∷ names) w a l f =
    let grows = encode_longer c cs names in
    let e : n + suc (length names) ≡ n + 1 + length names = omega arith in
    rw
      (
        before_end pos _ len l (omega arith),
        first_length c cs names a.0,
        behind_first c cs names,
        e,
        count_loop,
      )
      (count_loop-encode fuel (pos + (suc (length cs) + 1)) len (n + 1) names w a.1 (omega arith)
        (omega arith))

-- Opening the names one by one, up to the first that fails.
unfoldable pub open_each : (List ℕ → M (ℕ × ℕ)) → List (List ℕ) → List ℕ → M Pass
open_each open_name [] out = pure (all out)
open_each open_name (name ∷ names) out = open_name name >>= λ (rv, handle). elim rv [
  | suc code ↦ pure (failed (suc code) out)
  | zero ↦ open_each open_name names (out ++ handle ∷ [])
]

and_then-cong :
    {A B : Type 0} {k m : A → M B} (r : Run World A)
    → ((a : A) (s : World) → k a s ≡ m a s)
    → and_then r k ≡ and_then r m
and_then-cong (ok a s) e = e a s
and_then-cong fault e = refl
and_then-cong out_of_fuel e = refl

-- One store of the loop, with a place left for it.
store_step :
    (out : List ℕ) (cap : ℕ) (loop each : List ℕ → M Pass) (s : World)
    → ltb (length out) cap ≡ true
    → ((handle : ℕ) → loop (out ++ handle ∷ []) s ≡ each (out ++ handle ∷ []) s)
    → (rv handle : ℕ)
    → (elim rv as (λ _. M Pass) [
      | suc code ↦ pure (failed (suc code) out)
      | zero ↦ elim (ltb (length out) cap) as (λ _. M Pass) [
        | false ↦ undefined
        | true ↦ loop (out ++ handle ∷ [])
      ]
    ])
        s
      ≡ (elim rv as (λ _. M Pass) [
        | suc code ↦ pure (failed (suc code) out)
        | zero ↦ each (out ++ handle ∷ [])
      ])
          s
store_step out cap loop each s fits e (suc code) handle = refl
store_step out cap loop each s fits e zero handle = rw fits (e handle)

-- On a block of names, with fuel above its length and a place in the array for each name, the
-- opening loop does what opening the names one by one does: it reads nothing behind the block and
-- stores nothing behind the array.
pub open_loop-encode :
    (open_name : List ℕ → M (ℕ × ℕ)) (cap fuel pos len : ℕ) (names : List (List ℕ)) (out : List ℕ)
    (w : World)
    → AllNames names
    → pos + length (encode names) ≡ len
    → length (encode names) + 1 ≤ fuel
    → length out + length names ≤ cap
    → open_loop open_name cap 1 fuel pos len (encode names) out w ≡ open_each open_name names out w
unfolding open_loop encode open_each
open_loop-encode open_name cap zero pos len names out w a l f b =
    let h : ⊥ = omega arith in elim h [ ]
open_loop-encode open_name cap (suc zero) pos len [] out w a l f b =
    let h : ⊥ = omega arith in elim h [ ]
open_loop-encode open_name cap (suc (suc fuel)) pos len [] out w a l f b =
    rw (before_end pos 1 len l (omega arith), at_end (pos + 1) len l, open_loop) refl
open_loop-encode open_name cap (suc fuel) pos len ([] ∷ names) out w a l f b = elim a [ ]
open_loop-encode open_name cap (suc fuel) pos len ((zero ∷ cs) ∷ names) out w a l f b = elim a.0 [ ]
open_loop-encode open_name cap (suc fuel) pos len ((suc c ∷ cs) ∷ names) out w a l f b =
    let grows = encode_longer c cs names in
    rw
      (
        before_end pos _ len l (omega arith),
        first_length c cs names a.0,
        first_bytes c cs names,
        open_loop,
      )
      (and_then-cong (open_name (suc c ∷ cs) w) (λ r s.
        store_step out cap
          (open_loop open_name cap 1 fuel (pos + (suc (length cs) + 1)) len
            (drop (suc (length cs) + 1) (encode ((suc c ∷ cs) ∷ names))))
          (open_each open_name names) s (ground arith)
          (λ handle. rw (behind_first c cs names) (
            open_loop-encode open_name cap fuel (pos + (suc (length cs) + 1)) len names
              (out ++ handle ∷ []) s a.1 (omega arith) (omega arith)
              (rw (length-append out (handle ∷ [])) (omega arith))))
          r.0 r.1))
