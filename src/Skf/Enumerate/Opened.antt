-- ===== src/Skf/Enumerate/Opened.antt =====
-- GetAppHandles on a token that opens every application that it lists.
use mathlib.Core.List.{append_assoc, append-nil}
use make_down_file.Prelude.{
  ℕ, zero, suc, ◌+◌, ◌≤◌, ◌≡◌, ◌∙◌, ap, refl, true, false, some, List, [], ◌∷◌, ◌++◌, map, arith,
  length,
}
use make_down_file.Run.{
  ok, pure, Returns, returns, Returns-bind, Returns-mono, Returns-run, Ends, Ends-Returns, Ends-ok,
}
use make_down_file.Skf.World.{Call, Token, World, M}
use make_down_file.Skf.Names.{Pass, all, failed}
use make_down_file.Skf.Names.Encoded.{AllNames, open_each}
use make_down_file.Skf.Enumerate.{code, Handles, open_all, open_application, get_app_handles}
use make_down_file.Skf.Enumerate.Applications.{listing, granted, counted, opened, encode_long}

-- Every name is opened, with its handle, and the heap is left alone.
abbrev pub OpensEach : (List ℕ → M (ℕ × ℕ)) → (List ℕ → ℕ) → Type 0
OpensEach open_name handle_of =
    (name : List ℕ) (w : World)
    → Ends (λ r w'. (r ≡ (0, handle_of name)) × (w'.blocks ≡ w.blocks)) (open_name name w)

module _ (open_name : List ℕ → M (ℕ × ℕ)) (handle_of : List ℕ → ℕ)
    (opens : OpensEach open_name handle_of) where
  abbrev Filled : List (List ℕ) → List ℕ → World → Pass → World → Type 0
  Filled names out w p w' = (p ≡ all (out ++ map handle_of names)) × (w'.blocks ≡ w.blocks)

  open_next :
      (name : List ℕ) (names : List (List ℕ)) (out : List ℕ) (w w1 : World) (r : ℕ × ℕ)
      → (r ≡ (0, handle_of name)) × (w1.blocks ≡ w.blocks)
      → ((handle : ℕ)
          → Returns
              (Filled names (out ++ handle ∷ []) w1)
              (open_each open_name names (out ++ handle ∷ []) w1))
      → Returns (Filled (name ∷ names) out w) (
          (elim r.0 as (λ _. M Pass) [
            | suc c ↦ pure (failed (suc c) out)
            | zero ↦ open_each open_name names (out ++ r.1 ∷ [])
          ])
            w1)
  open_next name names out w w1 r e ih =
      rw (ap (λ q. q.0) e.0, ap (λ q. q.1) e.0)
        (Returns-mono (ih (handle_of name)) (λ p w' f.
          (f.0 ∙ ap all (append_assoc out (handle_of name ∷ []) (map handle_of names)), f.1 ∙ e.1)))

  open_each-Filled :
      (names : List (List ℕ)) (out : List ℕ) (w : World)
      → Returns (Filled names out w) (open_each open_name names out w)
  unfolding open_each
  open_each-Filled [] out w = returns (rw append-nil refl, refl)
  open_each-Filled (name ∷ names) out w =
      Returns-bind (Ends-Returns _ (opens name w))
        (λ (r : ℕ × ℕ) w1 (e : (r ≡ (0, handle_of name)) × (w1.blocks ≡ w.blocks)).
          open_next name names out w w1 r e
            (λ handle. open_each-Filled names (out ++ handle ∷ []) w1))

module _ (token : Token) where
  -- The whole array, at the given address.
  abbrev pub all_of : ℕ → List ℕ → ℕ → Handles
  all_of handles out n = record { rv = code 0; array = some (handles, out); count = some n }

  -- The handles of the names at the given address, in the only new block.
  abbrev pub Whole : (List ℕ → ℕ) → List (List ℕ) → List ℕ → ℕ → Handles → World → Type 0
  Whole handle_of names blocks handles r w' =
      (r ≡ all_of handles (map handle_of names) (length names)) × (w'.blocks ≡ handles ∷ blocks)

  open_all-all :
      (open_name : List ℕ → M (ℕ × ℕ)) (handle_of : List ℕ → ℕ) (list : ℕ) (names : List (List ℕ))
      (blocks : List ℕ) (w : World)
      → OpensEach open_name handle_of
      → AllNames names
      → 1 ≤ length names
      → w.blocks ≡ list ∷ blocks
      → token.memory w.next ≡ true
      → Ends (Whole handle_of names blocks w.next) (open_all token open_name list (listing names) w)
  unfolding open_all listing
  open_all-all open_name handle_of list names blocks w o a n b m =
      let (pass, w1, e, (p, same)) =
        Returns-run (
          open_each-Filled open_name handle_of o names [] (granted token open_name list names w)) in
      Ends-ok (Whole handle_of names blocks w.next)
        (all_of w.next (map handle_of names) (length names))
        (record w1 { blocks = w.next ∷ blocks })
        (ground (
          arith,
          counted token open_name list names w a,
          opened token open_name list names w (all (map handle_of names)) w1 a
              (e ∙ ap (λ q. ok q w1) p),
        ))
        (refl, refl)

  -- The token opens every application of the device.
  abbrev pub OpensApplications : ℕ → (List ℕ → ℕ) → Type 0
  OpensApplications dev handle_of =
      (t : List Call) (name : List ℕ)
      → token.open_application t dev name ≡ record { rv = 0; handle = handle_of name }

  application-OpensEach :
      (dev : ℕ) (handle_of : List ℕ → ℕ)
      → OpensApplications dev handle_of
      → OpensEach (open_application token dev) handle_of
  unfolding open_application
  application-OpensEach dev handle_of o name w = ground (arith, o w.calls name)

  -- Opening the applications of a device whose token lists at least one name and opens every
  -- application, with the table loaded and both blocks granted, ends without a fault and with
  -- SAR_OK: the array has the handles of the names in their order, the number is that of the names,
  -- and the array is the only new block.
  pub get_app_handles-all :
      (dev : ℕ) (names : List (List ℕ)) (handle_of : List ℕ → ℕ) (api : ℕ) (w : World)
      → ((t : List Call) → token.enum_application t dev ≡ listing names)
      → OpensApplications dev handle_of
      → w.api ≡ some api
      → AllNames names
      → 1 ≤ length names
      → token.memory w.next ≡ true
      → token.memory (w.next + 1) ≡ true
      → Ends (Whole handle_of names w.blocks (w.next + 1)) (get_app_handles token dev w)
  unfolding get_app_handles listing
  get_app_handles-all dev names handle_of api w lists o loaded a n m1 m2 =
      let asked = Call.enum_application dev false ∷ w.calls in
      let r =
        open_all-all (open_application token dev) handle_of w.next names w.blocks
          (record w {
            next = w.next + 1;
            blocks = w.next ∷ w.blocks;
            calls = Call.enum_application dev true ∷ asked;
          })
          (application-OpensEach dev handle_of o) a n refl m2 in
      ground (arith, encode_long token names a n, lists w.calls, lists asked, r)
