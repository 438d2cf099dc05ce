-- ===== src/Skf/Copies.antt =====
-- GetContainerNames: the names of an application's containers, each copied into a block of its own.
pub mod Copied
use make_down_file.Prelude.{
  ℕ, zero, suc, ◌+◌, Bool, true, false, Option, none, some, List, [], ◌∷◌, ◌==◌, ltb, take, drop,
  strlen, if◌then◌else◌,
}
use make_down_file.Run.{out_of_fuel, pure, ◌>>=◌, ◌>>◌}
use make_down_file.Skf.World.{Call, Listing, Token, M, malloc, free, undefined}
use make_down_file.Skf.Names.{count_loop}
use make_down_file.Skf.Enumerate.{Rv, code, minus_one, need_api, list_names}

-- What the function returns and stores: its status, the array behind the first out parameter with its
-- address and the copies in it, each with its address, and the number behind the second.
pub record Names : Type 0 where
  pub rv : Rv
  pub array : Option (ℕ × List (ℕ × List ℕ))
  pub count : Option ℕ

abbrev pub only : Rv → Names
only rv = record { rv = rv; array = none; count = none }

module _ (token : Token) where
  -- The loop that copies; `i` is the index in the array of `cap` places. The result says whether every
  -- block was granted.
  unfoldable pub copy_loop : ℕ → ℕ → ℕ → ℕ → ℕ → List ℕ → M (Bool × List (ℕ × List ℕ))
  unfolding strlen undefined malloc
  copy_loop cap zero i pos len pp = λ _. out_of_fuel
  copy_loop cap (suc fuel) i pos len pp = elim (pos == len) [
    | true ↦ pure (true, [])
    | false ↦ elim (strlen pp) [
      | none ↦ undefined
      | some zero ↦ copy_loop cap fuel i (pos + 1) len (drop 1 pp)
      | some (suc k) ↦ elim (ltb i cap) [
        | false ↦ undefined
        | true ↦ (do
          block ← malloc token.memory
          elim block [
            | none ↦ pure (false, [])
            | some p ↦ (do
              (done, rest) ←
                  copy_loop cap fuel (i + 1) (pos + (suc k + 1)) len (drop (suc k + 1) pp)
              pure (done, (p, take (suc k) pp) ∷ rest))
          ])
      ]
    ]
  ]

  unfoldable pub free_copies : List (ℕ × List ℕ) → M (Unit {0})
  unfolding free
  free_copies [] = pure tt
  free_copies (copy ∷ copies) = do free copy.0; free_copies copies

  -- From the listing on. A list without a name stays allocated.
  unfoldable pub copy_all : ℕ → Listing → M Names
  unfolding malloc free count_loop copy_loop free_copies
  copy_all list listed = do
    n ← count_loop 1 (listed.len + 1) 0 listed.len listed.mem 0
    if n == 0 then pure (only (code 0)) else do
      block ← malloc token.memory
      elim block [
        | none ↦ (do free list; pure (only minus_one))
        | some array ↦ (do
          (done, copies) ← copy_loop n (listed.len + 1) 0 0 listed.len listed.mem
          elim done [
            | false ↦ (do free list; free_copies copies; free array; pure (only minus_one))
            | true ↦ (do
              free list
              pure (record { rv = code 0; array = some (array, copies); count = some n }))
          ])
      ]

  unfoldable pub get_container_names : ℕ → M Names
  unfolding need_api list_names copy_all
  get_container_names app = do
    api ← need_api token
    elim api [
      | none ↦ pure (only (code 0))
      | some _ ↦ (do
        (rv, listed) ← list_names token (Call.enum_container app) (λ t. token.enum_container t app)
        elim listed [ none ↦ pure (only rv) | some (list, names) ↦ copy_all list names ])
    ]
