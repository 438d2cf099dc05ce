-- ===== src/Ukey/Session.antt =====
-- What ukey_sign and ukey_export share: opening the container of the first device, and closing it.
use make_down_file.Prelude.{ℕ, zero, suc, Option, none, some}
use make_down_file.Run.{◌>>=◌, ◌>>◌}
use make_down_file.Ukey.World.{
  Call, memory, Reply, Lib, M, call, make, opened_dev, opened_app, opened_con, closed_dev,
  closed_app, closed_con,
}

-- The three handles of an open container.
pub record Session : Type 0 where
  pub dev : ℕ
  pub app : ℕ
  pub con : ℕ

module _ (lib : Lib) {A : Type 0} where
  -- `if (SAR_OK != (retval = …)) goto error;`, where `fail` is the label's code.
  unfoldable pub check : Call → M A → (Reply → M A) → M A
  unfolding call
  check c fail next = do r ← call c (λ t. lib.reply t c); elim r.rv [ suc e ↦ fail | zero ↦ next r ]

  -- The list of devices; `szNameList` is still NULL if the token reports no length.
  unfoldable pub enum_devs : (Option ℕ → M A) → (Option ℕ → M A) → M A
  unfolding make check
  enum_devs fail next = check (Call.enum_dev none) (fail none) (λ sized. elim sized.len [
    | zero ↦ check (Call.enum_dev none) (fail none) (λ _. next none)
    | suc n ↦ (do
      block ← make lib memory
      elim block [
        | none ↦ fail none
        | some names ↦
            check (Call.enum_dev (some names)) (fail (some names)) (λ _. next (some names))
      ])
  ])

  unfoldable pub open_session : Option ℕ → M A → (Session → M A) → M A
  unfolding check opened_dev opened_app opened_con
  open_session names fail next = check (Call.connect_dev names) fail (λ dev. do
    opened_dev dev.handle
    check (Call.open_application dev.handle) fail (λ app. do
      opened_app app.handle
      check (Call.open_container app.handle) fail (λ con. do
        opened_con con.handle
        next (record { dev = dev.handle; app = app.handle; con = con.handle }))))

  unfoldable pub close_session : Session → M A → M A → M A
  unfolding check closed_dev closed_app closed_con
  close_session s fail next = check (Call.close_container s.con) fail (λ _. do
    closed_con s.con
    check (Call.close_application s.app) fail (λ _. do
      closed_app s.app
      check (Call.disconnect_dev s.dev) fail (λ _. do closed_dev s.dev; next)))
