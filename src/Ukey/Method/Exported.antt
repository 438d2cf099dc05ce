-- ===== src/Ukey/Method/Exported.antt =====
-- ukey_export leaves the object it returns on the heap, and nothing else.
pub mod Label
pub mod Parts
use make_down_file.Prelude.{
  ℕ, zero, suc, ◌+◌, ◌≤◌, ◌<◌, ◌≡◌, refl, ◌∙◌, Bool, true, false, Option, none, some, List, ◌∷◌,
  ◌++◌, take, drop, arith, ==_refl, erase, has, Bool-cases, inl, inr,
}
use make_down_file.Run.{Returns, returns, Returns-mono, Ends, Ends-Returns, ◌>>=◌, ◌>>◌}
use make_down_file.Ukey.World.{
  Call, set_public_key, set1_ec_key, set_alias_type, memory, pkey, ec_key, ec_point, x509, Reply,
  Lib, World, M, call, free, free_if,
}
use make_down_file.Ukey.Session.{Session, check, enum_devs, open_session, close_session}
use make_down_file.Ukey.Method.{try, new, export_error, export_cert, export_key, ukey_export}
use make_down_file.Ukey.Method.Label.{listed, above}
use make_down_file.Ukey.Method.Triple.{
  AnswersApi, Held, Triple, AnySession, with_session, check-Triple, try-Triple, new-Triple,
  enum_devs-Triple, open_session-Triple, close_session-Triple,
}
use make_down_file.Ukey.Method.Exported.Label.{
  Stage, started, certified, keyed, curved, pointed, cert_of, key_of, ec_of, point_of, objects,
  Rising, cert_stage, Exported, fails, returned,
}
use make_down_file.Ukey.Method.Exported.Parts.{export_cert-Triple, export_key-Triple}

module _ (lib : Lib) where
  module _ (w0 : World) (names : Option ℕ) where
    -- From the list of devices on.
    abbrev export_open : Bool → Bool → M (Option ℕ)
    export_open crt sign =
        open_session lib names (export_error lib none none none none none names none) (λ session.
          elim crt [
            | true ↦ export_cert lib names session sign (returned lib w0 names session)
            | false ↦ export_key lib names session sign (returned lib w0 names session none)
          ])

    abbrev closed : ℕ → Held
    closed from = record {
      from = from;
      live = listed names w0.live;
      devs = w0.devs;
      apps = w0.apps;
      cons = w0.cons;
    }

    export_open-Triple :
        (crt sign : Bool) (from : ℕ)
        → above names ≤ from
        → Triple (closed from) (export_open crt sign) (Exported w0)
    export_open-Triple crt sign from o =
        open_session-Triple lib (Exported w0) (closed from) names _ _
          (fails lib w0 names started (closed from) tt refl) (λ session. by_kind session crt)
      where
        by_kind :
            (session : Session) (crt : Bool)
            → Triple
                (with_session lib (Exported w0) session (closed from))
                (elim crt as (λ _. M (Option ℕ)) [
                  | true ↦ export_cert lib names session sign (returned lib w0 names session)
                  | false ↦ export_key lib names session sign (returned lib w0 names session none)
                ])
                (Exported w0)
        by_kind session true =
            export_cert-Triple lib w0 names session w0.devs w0.apps w0.cons sign from o
        by_kind session false =
            export_key-Triple lib w0 names session w0.devs w0.apps w0.cons sign from o

  -- ukey_export, where GetSKFAPI gives its table or a message, ends without a fault, whatever the
  -- token, the allocator and OpenSSL answer. What is allocated on the heap afterwards, besides what was before, is just the certificate or key that it returns, and
  -- nothing if it returns NULL.
  pub ukey_export-Exported :
      (crt sign : Bool) (w : World)
      → AnswersApi lib
      → Returns (Exported w) (ukey_export lib crt sign w)
  unfolding ukey_export
  ukey_export-Exported crt sign w api = elim api [
    | inr a ↦ rw (a, ukey_export) (returns refl)
    | inl a ↦
        rw (a, ukey_export)
          (enum_devs-Triple lib (Exported w) (closed w none w.next)
            (λ names. export_error lib none none none none none names none)
            (λ names. export_open w names crt sign)
            (fails lib w none started (closed w none w.next) tt refl w.devs w.apps w.cons)
            (export_open-Triple w none crt sign w.next (omega arith))
            (λ p b.
              fails lib w (some p) started (closed w (some p) (p + 1)) tt refl w.devs w.apps w.cons)
            (λ p b. export_open-Triple w (some p) crt sign (p + 1) (omega arith)) w
            (omega arith, refl, refl, refl, refl))
  ]
