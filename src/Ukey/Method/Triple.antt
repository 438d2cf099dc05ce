-- ===== src/Ukey/Method/Triple.antt =====
-- What a piece of the key methods does from every world with given objects and sessions.
use make_down_file.Prelude.{
  ℕ, zero, suc, ◌+◌, ◌≤◌, ◌≡◌, ◌⊎◌, Bool, true, false, Option, none, some, List, ◌∷◌, arith,
  ==_refl, erase, Bool-cases, inl, inr,
}
use make_down_file.Run.{Returns, ◌>>=◌}
use make_down_file.Ukey.World.{
  table, message, Call, Object, memory, Reply, Lib, World, M, call, make, opened_dev, opened_app,
  opened_con, closed_dev, closed_app, closed_con,
}
use make_down_file.Ukey.Session.{Session, check, enum_devs, open_session, close_session}
use make_down_file.Ukey.Method.{try, new}

-- GetSKFAPI gives its table or a message.
abbrev pub AnswersApi : Lib → Type 0
AnswersApi lib = (lib.skf_api ≡ table) ⊎ (lib.skf_api ≡ message)

-- The objects and the open handles; new objects are numbered from `from` on.
pub record Held : Type 0 where
  pub from : ℕ
  pub live : List ℕ
  pub devs : List ℕ
  pub apps : List ℕ
  pub cons : List ℕ

abbrev pub At : Held → World → Type 0
At h w =
    (h.from ≤ w.next)
    × (w.live ≡ h.live)
    × (w.devs ≡ h.devs)
    × (w.apps ≡ h.apps)
    × (w.cons ≡ h.cons)

abbrev pub Triple : {A : Type 0} → Held → M A → (A → World → Type 0) → Type 0
Triple h m P = (w : World) → At h w → Returns P (m w)

module _ (lib : Lib) {A : Type 0} (P : A → World → Type 0) where
  abbrev with_object : ℕ → Held → Held
  with_object p h = record h { from = p + 1; live = p ∷ h.live }

  abbrev pub with_session : Session → Held → Held
  with_session s h = record h {
    devs = s.dev ∷ h.devs;
    apps = s.app ∷ h.apps;
    cons = s.con ∷ h.cons;
  }

  pub check-Triple :
      (h : Held) (c : Call) (fail : M A) (next : Reply → M A)
      → Triple h fail P
      → ((r : Reply) → Triple h (next r) P)
      → Triple h (check lib c fail next) P
  unfolding check call
  check-Triple h c fail next f n w a = by_status (lib.reply w.calls c).rv (lib.reply w.calls c)
    where
      by_status :
          (rv : ℕ) (r : Reply)
          → Returns P (
              (elim rv as (λ _. M A) [ suc e ↦ fail | zero ↦ next r ])
                (record w { calls = c ∷ w.calls }))
      by_status zero r = n r (record w { calls = c ∷ w.calls }) a
      by_status (suc e) r = f (record w { calls = c ∷ w.calls }) a

  pub try-Triple :
      (h : Held) (c : Call) (fail next : M A)
      → Triple h fail P
      → Triple h next P
      → Triple h (try lib c fail next) P
  unfolding try call
  try-Triple h c fail next f n w a = by_result (lib.succeeds w.calls c)
    where
      by_result :
          (b : Bool)
          → Returns P (
              (elim b as (λ _. M A) [ false ↦ fail | true ↦ next ])
                (record w { calls = c ∷ w.calls }))
      by_result true = n (record w { calls = c ∷ w.calls }) a
      by_result false = f (record w { calls = c ∷ w.calls }) a

  pub new-Triple :
      (h : Held) (o : Object) (fail : M A) (next : ℕ → M A)
      → Triple h fail P
      → ((p : ℕ) → h.from ≤ p → Triple (with_object p h) (next p) P)
      → Triple h (new lib o fail next) P
  unfolding new make
  new-Triple h o fail next f n w (b, l, s, t, u) = elim (Bool-cases (lib.grants w.next o)) [
    | inr g ↦ rw (g, new, make) (f (record w { next = w.next + 1 }) (omega arith, l, s, t, u))
    | inl g ↦
        rw (g, new, make)
          (n w.next b (record w { next = w.next + 1; live = w.next ∷ w.live })
            (omega arith, rw l, s, t, u))
  ]

  pub enum_devs-Triple :
      (h : Held) (fail next : Option ℕ → M A)
      → Triple h (fail none) P
      → Triple h (next none) P
      → ((p : ℕ) → h.from ≤ p → Triple (with_object p h) (fail (some p)) P)
      → ((p : ℕ) → h.from ≤ p → Triple (with_object p h) (next (some p)) P)
      → Triple h (enum_devs lib fail next) P
  unfolding enum_devs new
  enum_devs-Triple h fail next f n fp np =
      check-Triple h (Call.enum_dev none) (fail none) _ f (λ sized. by_length sized.len)
    where
      by_length :
          (len : ℕ)
          → Triple h
              (elim len as (λ _. M A) [
                | zero ↦ check lib (Call.enum_dev none) (fail none) (λ _. next none)
                | suc m ↦ (do
                  block ← make lib memory
                  elim block [
                    | none ↦ fail none
                    | some names ↦
                        check lib
                          (Call.enum_dev (some names))
                          (fail (some names))
                          (λ _. next (some names))
                  ])
              ])
              P
      by_length zero = check-Triple h (Call.enum_dev none) (fail none) (λ _. next none) f (λ _. n)
      by_length (suc m) =
          new-Triple h memory (fail none)
            (λ names.
              check lib (Call.enum_dev (some names)) (fail (some names)) (λ _. next (some names)))
            f
            (λ p b.
              check-Triple (with_object p h) (Call.enum_dev (some p)) (fail (some p))
                (λ _. next (some p)) (fp p b) (λ _. np p b))

  -- Whatever is open.
  abbrev pub AnySession : Held → M A → Type 0
  AnySession h m =
      (devs apps cons : List ℕ) → Triple (record h { devs = devs; apps = apps; cons = cons }) m P

  pub open_session-Triple :
      (h : Held) (names : Option ℕ) (fail : M A) (next : Session → M A)
      → AnySession h fail
      → ((s : Session) → Triple (with_session s h) (next s) P)
      → Triple h (open_session lib names fail next) P
  unfolding open_session opened_dev opened_app opened_con
  open_session-Triple h names fail next f n =
      check-Triple h (Call.connect_dev names) fail _ (f h.devs h.apps h.cons) (λ dev w a.
        check-Triple (record h { devs = dev.handle ∷ h.devs }) (Call.open_application dev.handle)
          fail _ (f (dev.handle ∷ h.devs) h.apps h.cons)
          (λ app w1 a1.
            check-Triple (record h { devs = dev.handle ∷ h.devs; apps = app.handle ∷ h.apps })
              (Call.open_container app.handle) fail _
              (f (dev.handle ∷ h.devs) (app.handle ∷ h.apps) h.cons)
              (λ con w2 a2.
                n (record { dev = dev.handle; app = app.handle; con = con.handle })
                  (record w2 { cons = con.handle ∷ w2.cons }) (a2.0, a2.1, a2.2, a2.3, rw (a2.4)))
              (record w1 { apps = app.handle ∷ w1.apps }) (a1.0, a1.1, a1.2, rw (a1.3), a1.4))
          (record w { devs = dev.handle ∷ w.devs }) (a.0, a.1, rw (a.2), a.3, a.4))

  pub close_session-Triple :
      (h : Held) (s : Session) (fail next : M A)
      → AnySession h fail
      → Triple h next P
      → Triple (with_session s h) (close_session lib s fail next) P
  unfolding close_session closed_dev closed_app closed_con
  close_session-Triple h s fail next f n =
      check-Triple (with_session s h) (Call.close_container s.con) fail _
        (f (s.dev ∷ h.devs) (s.app ∷ h.apps) (s.con ∷ h.cons))
        (λ _ w a.
          check-Triple (record (with_session s h) { cons = h.cons }) (Call.close_application s.app)
            fail _ (f (s.dev ∷ h.devs) (s.app ∷ h.apps) h.cons)
            (λ _ w1 a1.
              check-Triple (record (with_session s h) { cons = h.cons; apps = h.apps })
                (Call.disconnect_dev s.dev) fail _ (f (s.dev ∷ h.devs) h.apps h.cons)
                (λ _ w2 a2.
                  n (record w2 { devs = erase s.dev w2.devs })
                    (a2.0, a2.1, rw (a2.2, ==_refl s.dev), a2.3, a2.4))
                (record w1 { apps = erase s.app w1.apps })
                (a1.0, a1.1, a1.2, rw (a1.3, ==_refl s.app), a1.4))
            (record w { cons = erase s.con w.cons }) (a.0, a.1, a.2, a.3, rw (a.4, ==_refl s.con)))
