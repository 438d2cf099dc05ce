-- ===== src/Skf/Main.antt =====
-- The first part of `main`: every device, application, container and certificate of the machine.
pub mod Unset
use make_down_file.Prelude.{
  ℕ, zero, suc, ◌+◌, Bool, true, false, Option, none, some, List, [], ◌∷◌, get_elem?,
}
use make_down_file.Run.{pure, ◌>>=◌, ◌>>◌}
use make_down_file.Skf.World.{Call, Token, World, M, call, from_option, undefined}
use make_down_file.Skf.Enumerate.{
  Rv, code, minus_one, Handles, get_dev_handles, get_app_handles, get_container_handles,
  get_certificate_to_x509,
}

-- The array's place `i`; a place behind the end, or in a NULL array, is undefined.
unfoldable pub at_index : Option (ℕ × List ℕ) → ℕ → M ℕ
unfolding from_option undefined
at_index none i = undefined
at_index (some (_, hs)) i = from_option (get_elem? hs i)

-- `for (i = …; i < n; i++)`, with so many rounds left.
unfoldable pub for_each : (ℕ → M (Unit {0})) → ℕ → ℕ → M (Unit {0})
for_each body i zero = pure tt
for_each body i (suc rounds) = do body i; for_each body (i + 1) rounds

module _ (token : Token) where
  -- The common name of the signing certificate is printed.
  unfoldable pub show_container : Option (ℕ × List ℕ) → ℕ → M (Unit {0})
  unfolding call at_index get_certificate_to_x509
  show_container cons k = do
    con ← at_index cons k
    x ← get_certificate_to_x509 token con true
    elim x [ none ↦ pure tt | some cert ↦ call (Call.common_name cert) (λ t. tt) ]

  -- `numContainers` starts at 0, so an unwritten one is no loop; the status is ignored.
  unfoldable pub show_application : Option (ℕ × List ℕ) → ℕ → M (Unit {0})
  unfolding at_index for_each get_container_handles show_container
  show_application apps j = do
    app ← at_index apps j
    cons ← get_container_handles token app
    elim cons.count [ none ↦ pure tt | some n ↦ for_each (show_container cons.array) 0 n ]

  -- `appsize` has no first value: a loop up to it is undefined if it was not written.
  unfoldable pub show_device : Option (ℕ × List ℕ) → ℕ → M (Unit {0})
  unfolding at_index for_each from_option get_app_handles show_application
  show_device devs i = do
    dev ← at_index devs i
    apps ← get_app_handles token dev
    elim apps.rv [
      | minus_one ↦ pure tt
      | code rv ↦ elim rv [
        | suc _ ↦ pure tt
        | zero ↦ (do n ← from_option apps.count; for_each (show_application apps.array) 0 n)
      ]
    ]

  -- `devsize` has no first value either. The result says whether `main` goes on to the key tests.
  unfoldable pub main_enumerate : M Bool
  unfolding for_each from_option get_dev_handles show_device
  main_enumerate = do
    devs ← get_dev_handles token
    elim devs.rv [
      | minus_one ↦ pure false
      | code rv ↦ elim rv [
        | suc _ ↦ pure false
        | zero ↦ (do n ← from_option devs.count; for_each (show_device devs.array) 0 n; pure true)
      ]
    ]
