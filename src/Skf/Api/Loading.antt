-- ===== src/Skf/Api/Loading.antt =====
-- GetSKFAPI: loading the table, giving up, and finding it again.
use make_down_file.Prelude.{
  ℕ, ◌≡◌, ◌∙◌, inl, inr, refl, true, Bool-cases, Option-cases, Option, none, some, List, [], ◌∷◌,
  String, arith,
}
use make_down_file.Run.{
  Ends, Returns, returns, Returns-bind, Returns-mono, Ends-Returns, Returns-Ends,
}
use make_down_file.Skf.World.{Call, Token, World, call}
use make_down_file.Skf.Api.{proc_names, first_missing, finish_table, fill_table, get_skf_api}

-- The live blocks, with the message's if there is one.
abbrev pub with_message : Option ℕ → List ℕ → List ℕ
with_message none blocks = blocks
with_message (some e) blocks = e ∷ blocks

module _ (token : Token) where
  -- The calls after the names were asked for one by one, and that each of them had an address.
  abbrev pub looked_up : List String → List Call → List Call
  looked_up [] t = t
  looked_up (name ∷ names) t = looked_up names (Call.get_proc_address name ∷ t)

  abbrev pub AllFound : List String → List Call → Type 0
  AllFound [] t = Unit
  AllFound (name ∷ names) t =
      (token.get_proc_address t name ≡ true) × AllFound names (Call.get_proc_address name ∷ t)

  abbrev pub Complete : List String → World → Type 0
  Complete names w' = (t : List Call) × (w'.calls ≡ looked_up names t) × AllFound names t

  -- Either no table, and nothing but a message is left, or one table, kept and returned.
  abbrev pub Loaded : List ℕ → Option ℕ × Option ℕ → World → Type 0
  Loaded blocks (none, message) w' = (w'.api ≡ none) × (w'.blocks ≡ with_message message blocks)
  Loaded blocks (some api, message) w' =
      (w'.api ≡ some api) × (message ≡ none) × (w'.blocks ≡ api ∷ blocks) × Complete proc_names w'

  first_missing-Ends :
      (names : List String) (w : World)
      → Returns
          (λ r w'.
            (w'.blocks ≡ w.blocks)
            × (w'.api ≡ w.api)
            × (r ≡ none → (w'.calls ≡ looked_up names w.calls) × AllFound names w.calls))
          (first_missing token names w)
  unfolding first_missing call
  first_missing-Ends [] w = returns (refl, refl, λ n. (refl, tt))
  first_missing-Ends (name ∷ names) w = elim (Bool-cases (token.get_proc_address w.calls name)) [
    | inl e ↦ rw e (
        Returns-mono
          (first_missing-Ends names (record w { calls = Call.get_proc_address name ∷ w.calls }))
          (λ r w' x. (x.0, x.1, λ n. let f = x.2 n in (f.0, (refl, f.1)))))
    | inr e ↦ rw e (returns (refl, refl, λ n. let f : ⊥ = ground (arith, n) in elim f [ ]))
  ]

  finish_table-Loaded :
      (h api : ℕ) (blocks : List ℕ) (missing : Option String) (w : World)
      → w.blocks ≡ api ∷ blocks
      → w.api ≡ some api
      → (missing ≡ none → Complete proc_names w)
      → Ends (Loaded blocks) (finish_table token h api missing w)
  unfolding finish_table
  finish_table-Loaded h api blocks none w b a c = (a, refl, b, c refl)
  finish_table-Loaded h api blocks (some name) w b a c = ground arith

  fill_table-Loaded :
      (h api : ℕ) (blocks : List ℕ) (w : World)
      → w.blocks ≡ api ∷ blocks
      → w.api ≡ some api
      → Ends (Loaded blocks) (fill_table token h api proc_names w)
  unfolding fill_table
  fill_table-Loaded h api blocks w b a = Returns-Ends (
      Returns-bind (first_missing-Ends proc_names w) (λ missing w1 x. Ends-Returns _ (
        finish_table-Loaded h api blocks missing w1 (x.0 ∙ b) (x.1 ∙ a)
          (λ n. let f = x.2 n in (w.calls, f.0, f.1)))))

  -- The first call of GetSKFAPI ends without a fault, whatever the loader answers. Either there is no
  -- table, the static pointer is NULL and nothing but a message is allocated; or the table is
  -- returned without a message, kept in the static pointer, and the only new block, and the loader
  -- gave an address for each of the names, asked for in their order.
  pub get_skf_api-Loaded : (w : World) → w.api ≡ none → Ends (Loaded w.blocks) (get_skf_api token w)
  unfolding get_skf_api
  get_skf_api-Loaded w n = elim (Option-cases (token.load_library w.calls)) [
    | inl l ↦ rw (n, l) (ground arith)
    | inr (h, l) ↦ elim (Bool-cases (token.memory w.next)) [
      | inl m ↦ rw (n, l, m) (fill_table-Loaded h w.next w.blocks _ refl refl)
      | inr m ↦ rw (n, l, m) (ground arith)
    ]
  ]

  -- The library has every function.
  abbrev pub HasFunctions : Type 0
  HasFunctions = (t : List Call) (name : String) → token.get_proc_address t name ≡ true

  first_missing-none :
      (names : List String) (w : World)
      → HasFunctions
      → Returns
          (λ r w'. (r ≡ none) × (w'.blocks ≡ w.blocks) × (w'.api ≡ w.api))
          (first_missing token names w)
  unfolding first_missing
  first_missing-none [] w f = returns (refl, refl, refl)
  first_missing-none (name ∷ names) w f =
      rw (f w.calls name)
        (first_missing-none names (record w { calls = Call.get_proc_address name ∷ w.calls }) f)

  -- The table is returned, kept, and stays where it was.
  abbrev pub Table : ℕ → List ℕ → Option ℕ × Option ℕ → World → Type 0
  Table api blocks r w' = (r ≡ (some api, none)) × (w'.api ≡ some api) × (w'.blocks ≡ blocks)

  finish_table-Table :
      (h api : ℕ) (missing : Option String) (w : World)
      → missing ≡ none
      → w.api ≡ some api
      → Ends (Table api w.blocks) (finish_table token h api missing w)
  unfolding finish_table
  finish_table-Table h api missing w e a = ground arith

  fill_table-Table :
      (h api : ℕ) (names : List String) (w : World)
      → HasFunctions
      → w.api ≡ some api
      → Returns (Table api w.blocks) (fill_table token h api names w)
  unfolding fill_table
  fill_table-Table h api names w f a =
      Returns-bind (first_missing-none names w f)
        (λ (missing : Option String) w1
            (x : (missing ≡ none) × (w1.blocks ≡ w.blocks) × (w1.api ≡ w.api)).
          Returns-mono (Ends-Returns _ (finish_table-Table h api missing w1 x.0 (x.2 ∙ a)))
            (λ r w' (y : Table api w1.blocks r w'). (y.0, y.1, y.2 ∙ x.1)))

  -- The first call of GetSKFAPI, where the library loads and has every function and the table is
  -- granted, ends without a fault: the table is returned without a message, kept in the static
  -- pointer, and the only new block.
  pub get_skf_api-Table :
      (h : ℕ) (w : World)
      → HasFunctions
      → w.api ≡ none
      → token.load_library w.calls ≡ some h
      → token.memory w.next ≡ true
      → Returns (Table w.next (w.next ∷ w.blocks)) (get_skf_api token w)
  unfolding get_skf_api
  get_skf_api-Table h w f n l m = rw (n, l, m) (fill_table-Table h w.next proc_names _ f refl)
