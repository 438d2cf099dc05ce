-- ===== src/Skf/Names.antt =====
-- Lists of names in one block, each name closed by a zero byte, and the two passes that the
-- enumeration functions make over such a block: one counts the names, one opens each.
pub mod Encoded
pub mod Printed
use make_down_file.Prelude.{
  ℕ, zero, suc, ◌+◌, Bool, true, false, Option, none, some, List, [], ◌∷◌, ◌++◌, ◌==◌, ltb, take,
  drop, length, strlen, if◌then◌else◌,
}
use make_down_file.Run.{out_of_fuel, pure, ◌>>=◌, ◌>>◌}
use make_down_file.Skf.World.{M, undefined}

-- `while (list + len - pp)`, counting. `pp` is the rest of the block from the pointer on, `pos` the
-- offset of the pointer. Behind a name the pointer skips `skip` bytes more: 1 for the terminator in
-- the application and container lists, 0 in the device list.
unfoldable pub count_loop : ℕ → ℕ → ℕ → ℕ → List ℕ → ℕ → M ℕ
unfolding strlen undefined
count_loop skip zero pos len pp n = λ _. out_of_fuel
count_loop skip (suc fuel) pos len pp n = elim (pos == len) [
  | true ↦ pure n
  | false ↦ elim (strlen pp) [
    | none ↦ undefined
    | some zero ↦ count_loop skip fuel (pos + 1) len (drop 1 pp) n
    | some (suc k) ↦
        count_loop skip fuel (pos + (suc k + skip)) len (drop (suc k + skip) pp) (n + 1)
  ]
]

-- The result of a pass that opens names: the handles so far, and the status that stopped it.
pub data Pass : Type 0 where
  all : List ℕ → Pass
  failed : ℕ → List ℕ → Pass

-- The same walk, storing a handle for each name in an array of `cap` places: a store behind its end
-- is undefined.
unfoldable pub open_loop : (List ℕ → M (ℕ × ℕ)) → ℕ → ℕ → ℕ → ℕ → ℕ → List ℕ → List ℕ → M Pass
unfolding strlen undefined
open_loop open_name cap skip zero pos len pp out = λ _. out_of_fuel
open_loop open_name cap skip (suc fuel) pos len pp out = elim (pos == len) [
  | true ↦ pure (all out)
  | false ↦ elim (strlen pp) [
    | none ↦ undefined
    | some zero ↦ open_loop open_name cap skip fuel (pos + 1) len (drop 1 pp) out
    | some (suc k) ↦ (do
      (rv, handle) ← open_name (take (suc k) pp)
      elim rv [
        | suc code ↦ pure (failed (suc code) out)
        | zero ↦ elim (ltb (length out) cap) [
          | false ↦ undefined
          | true ↦
              open_loop open_name cap skip fuel (pos + (suc k + skip)) len (drop (suc k + skip) pp)
                (out ++ handle ∷ [])
        ]
      ])
  ]
]

-- print_strings: the texts that it prints.
unfoldable pub print_strings : ℕ → List ℕ → ℕ → ℕ → M (List (List ℕ))
unfolding strlen undefined
print_strings zero memory memory_size pos = λ _. out_of_fuel
print_strings (suc fuel) start memory_size pos = elim (ltb pos memory_size) [
  | false ↦ pure []
  | true ↦ elim (strlen start) [
    | none ↦ undefined
    | some n ↦ elim (drop (n + 1) start) [
      | [] ↦ undefined
      | zero ∷ rest ↦ (do
        texts ← print_strings fuel rest memory_size (pos + (n + 1) + 1)
        pure (take n start ∷ texts))
      | suc c ∷ rest ↦ (do
        texts ← print_strings fuel (suc c ∷ rest) memory_size (pos + (n + 1))
        pure (take n start ∷ texts))
    ]
  ]
]
