-- ===== src/Skf/Enumerate/Applications.antt =====
-- GetAppHandles and GetContainerHandles on a token that lists names: which arrays the caller gets,
-- and what stays allocated.
use make_down_file.Prelude.{
  ℕ, zero, suc, ◌+◌, ◌≤◌, ◌≡◌, ◌∙◌, ◌⊎◌, inl, inr, refl, true, false, Bool-cases, none, some, List,
  [], ◌∷◌, ◌++◌, arith, length, length-append,
}
use make_down_file.Run.{
  ok, pure, Returns, returns, Returns-bind, Returns-mono, Ends-Returns, Returns-run, Ends-ok, Ends,
}
use make_down_file.Skf.World.{Call, Listing, Token, World, M}
use make_down_file.Skf.Names.{Pass, all, failed, open_loop, count_loop}
use make_down_file.Skf.Names.Encoded.{
  AllNames, encode, open_each, count_loop-encode, open_loop-encode,
}
use make_down_file.Skf.Enumerate.{code, Handles, open_all, open_application, get_app_handles}

-- The answer of a token that has these names.
unfoldable pub listing : List (List ℕ) → Listing
listing names = record { rv = 0; len = length (encode names); mem = encode names }

-- A function that opens one name, and leaves the heap alone.
abbrev pub Opener : (List ℕ → M (ℕ × ℕ)) → Type 0
Opener open_name =
    (name : List ℕ) (w : World)
    → Ends (λ r w'. (w'.blocks ≡ w.blocks) × (w'.next ≡ w.next)) (open_name name w)

-- A pass stores as many handles as it opened names.
abbrev Passed : ℕ → World → Pass → World → Type 0
Passed n w (all out) w' = (length out ≡ n) × (w'.blocks ≡ w.blocks)
Passed n w (failed rv out) w' = (1 ≤ rv) × (w'.blocks ≡ w.blocks)

open_each-Passed :
    (open_name : List ℕ → M (ℕ × ℕ)) (names : List (List ℕ)) (out : List ℕ) (w : World)
    → Opener open_name
    → Returns (Passed (length out + length names) w) (open_each open_name names out w)
unfolding open_each
open_each-Passed open_name [] out w o = returns (omega arith, refl)
open_each-Passed open_name (name ∷ names) out w o =
    Returns-bind (Ends-Returns _ (o name w)) (λ (r : ℕ × ℕ) w1 b.
      next r.0 r.1 w1 b.0 (open_each-Passed open_name names (out ++ r.1 ∷ []) w1 o))
  where
    later :
        (handle : ℕ) (w1 : World)
        → w1.blocks ≡ w.blocks
        → (p : Pass) (w' : World) → Passed (length (out ++ handle ∷ []) + length names) w1 p w'
        → Passed (length out + suc (length names)) w p w'
    later handle w1 b (all out') w' x =
        (omega (arith, x.0, length-append out (handle ∷ [])), x.1 ∙ b)
    later handle w1 b (failed rv out') w' x = (x.0, x.1 ∙ b)

    next :
        (rv handle : ℕ) (w1 : World)
        → w1.blocks ≡ w.blocks
        → Returns
            (Passed (length (out ++ handle ∷ []) + length names) w1)
            (open_each open_name names (out ++ handle ∷ []) w1)
        → Returns (Passed (length out + suc (length names)) w) (
            (elim rv as (λ _. M Pass) [
              | suc c ↦ pure (failed (suc c) out)
              | zero ↦ open_each open_name names (out ++ handle ∷ [])
            ])
              w1)
    next zero handle w1 b ih = Returns-mono ih (later handle w1 b)
    next (suc c) handle w1 b ih = returns (omega arith, b)

module _ (token : Token) where
  -- Either nothing is given, or an array at `handles` with a handle for each name.
  abbrev pub Given : List (List ℕ) → List ℕ → ℕ → Handles → World → Type 0
  Given names blocks handles r w' =
      ((r.array ≡ none) × (r.count ≡ none) × (w'.blocks ≡ blocks))
      ⊎ ((r.rv ≡ code 0)
          × (r.count ≡ some (length names))
          × (w'.blocks ≡ handles ∷ blocks)
          × ((out : List ℕ) × (r.array ≡ some (handles, out)) × (length out ≡ length names)))

  module _ (open_name : List ℕ → M (ℕ × ℕ)) (list : ℕ) (names : List (List ℕ)) (w : World) where
    abbrev pub granted : World
    granted = record w { next = w.next + 1; blocks = w.next ∷ w.blocks }

    pub counted :
        AllNames names
        → count_loop 1 (length (encode names) + 1) 0 (length (encode names)) (encode names) 0 w
          ≡ ok (length names) w
    counted a =
        count_loop-encode (length (encode names) + 1) 0 (length (encode names)) 0 names w a
          (omega arith) (omega arith)
        ∙ (let e : 0 + length names ≡ length names = omega arith in rw e refl)

    pub opened :
        (p : Pass) (w1 : World)
        → AllNames names
        → open_each open_name names [] granted ≡ ok p w1
        → open_loop open_name
            (length names)
            1
            (length (encode names) + 1)
            0
            (length (encode names))
            (encode names)
            []
            granted
          ≡ ok p w1
    opened p w1 a e =
        open_loop-encode open_name (length names) (length (encode names) + 1) 0
          (length (encode names)) names [] granted a (omega arith) (omega arith) (omega arith)
        ∙ e

  pass-Given :
      (open_name : List ℕ → M (ℕ × ℕ)) (list : ℕ) (names : List (List ℕ)) (blocks : List ℕ)
      (w : World)
      → AllNames names
      → 1 ≤ length names
      → w.blocks ≡ list ∷ blocks
      → token.memory w.next ≡ true
      → (pass : Pass) (w1 : World)
      → open_each open_name names [] (granted open_name list names w) ≡ ok pass w1
      → Passed (0 + length names) (granted open_name list names w) pass w1
      → Ends (Given names blocks w.next) (open_all token open_name list (listing names) w)
  unfolding open_all listing
  pass-Given open_name list names blocks w a n b m (all out) w1 e p =
      Ends-ok (Given names blocks w.next)
        (record { rv = code 0; array = some (w.next, out); count = some (length names) })
        (record w1 { blocks = w.next ∷ blocks })
        (ground
          (arith, counted open_name list names w a, opened open_name list names w (all out) w1 a e))
        (inr (refl, refl, refl, (out, refl, omega (arith, p.0))))
  pass-Given open_name list names blocks w a n b m (failed rv out) w1 e p = ground (
    arith,
    counted open_name list names w a,
    opened open_name list names w (failed rv out) w1 a e,
  )

  open_all-Given :
      (open_name : List ℕ → M (ℕ × ℕ)) (list : ℕ) (names : List (List ℕ)) (blocks : List ℕ)
      (w : World)
      → Opener open_name
      → AllNames names
      → 1 ≤ length names
      → w.blocks ≡ list ∷ blocks
      → Ends (Given names blocks w.next) (open_all token open_name list (listing names) w)
  unfolding open_all listing
  open_all-Given open_name list names blocks w o a n b = elim (Bool-cases (token.memory w.next)) [
    | inr m ↦ ground (arith, counted open_name list names w a)
    | inl m ↦
        let (pass, w1, e, p) =
          Returns-run (open_each-Passed open_name names [] (granted open_name list names w) o) in
        pass-Given open_name list names blocks w a n b m pass w1 e p
  ]

  -- A block of at least one name has three bytes.
  pub encode_long :
      (names : List (List ℕ)) → AllNames names → 1 ≤ length names → 3 ≤ length (encode names)
  unfolding encode
  encode_long [] a n = let h : ⊥ = omega arith in elim h [ ]
  encode_long ([] ∷ names) a n = elim a [ ]
  encode_long ((c ∷ cs) ∷ names) a n =
      omega (arith, length-append cs (0 ∷ encode names), encode_some names)
    where
      encode_some : (names : List (List ℕ)) → 1 ≤ length (encode names)
      encode_some [] = omega arith
      encode_some (name ∷ names) = omega (arith, length-append name (0 ∷ encode names))

  application-Opener : (dev : ℕ) → Opener (open_application token dev)
  unfolding open_application
  application-Opener dev name w = ground arith

  -- Opening the applications of a device whose token lists at least one name, with the table loaded,
  -- ends without a fault: no read or write is out of bounds. Either no array is given and no number
  -- written, and the blocks are those from before; or the status is SAR_OK, the array has exactly one
  -- handle for each name, the number is that of the names, and the array is the only new block.
  pub get_app_handles-Given :
      (dev : ℕ) (names : List (List ℕ)) (api : ℕ) (w : World)
      → ((t : List Call) → token.enum_application t dev ≡ listing names)
      → w.api ≡ some api
      → AllNames names
      → 1 ≤ length names
      → Ends (Given names w.blocks (w.next + 1)) (get_app_handles token dev w)
  unfolding get_app_handles listing
  get_app_handles-Given dev names api w lists loaded a n = elim (Bool-cases (token.memory w.next)) [
    | inr m ↦ ground (arith, encode_long names a n, lists w.calls)
    | inl m ↦
        let asked = Call.enum_application dev false ∷ w.calls in
        let r =
          open_all-Given (open_application token dev) w.next names w.blocks
            (record w {
              next = w.next + 1;
              blocks = w.next ∷ w.blocks;
              calls = Call.enum_application dev true ∷ asked;
            })
            (application-Opener dev) a n refl in
        ground (arith, encode_long names a n, lists w.calls, lists asked, r)
  ]
