-- ===== src/Ukey/Method/Exported/Parts.antt =====
-- The export of the certificate, and of the public key, from an open container.
use make_down_file.Prelude.{
  ℕ, zero, suc, ◌+◌, ◌≤◌, refl, Bool, Option, none, some, List, ◌∷◌, ◌++◌, take, drop, arith,
}
use make_down_file.Run.{◌>>◌}
use make_down_file.Ukey.World.{
  Call, set_public_key, set1_ec_key, set_alias_type, memory, pkey, ec_key, ec_point, x509, Lib,
  World, M, free,
}
use make_down_file.Ukey.Session.{Session, check}
use make_down_file.Ukey.Method.{try, new, export_error, export_cert, export_key}
use make_down_file.Ukey.Method.Label.{listed, above}
use make_down_file.Ukey.Method.Triple.{
  Held, Triple, with_session, check-Triple, try-Triple, new-Triple,
}
use make_down_file.Ukey.Method.Exported.Label.{
  Stage, started, certified, keyed, curved, pointed, cert_of, key_of, ec_of, point_of, objects,
  Rising, cert_stage, Exported, fails, returned, closes, free-Triple,
}

module _ (lib : Lib) (w0 : World) (names : Option ℕ) where
  module _ (session : Session) (devs apps cons : List ℕ) where
    -- With the container open and the objects of a stage.
    abbrev opened : ℕ → Stage → Held
    opened from stage = with_session lib (Exported w0) session (record {
      from = from;
      live = objects stage (listed names w0.live);
      devs = devs;
      apps = apps;
      cons = cons;
    })

    fails_at :
        (stage : Stage) (from : ℕ)
        → Rising (above names) stage
        → Triple
            (opened from stage)
            (export_error lib none
              (ec_of stage)
              (cert_of stage)
              (point_of stage)
              (key_of stage)
              names
              none)
            (Exported w0)
    fails_at stage from o =
        let h = opened from stage in fails lib w0 names stage h o refl h.devs h.apps h.cons

    certificate-Triple :
        (cert : Option ℕ) (from : ℕ)
        → above names ≤ from
        → above cert ≤ from
        → Rising (above names) (cert_stage cert)
        → Triple
            (opened from (cert_stage cert))
            (new lib x509
              (export_error lib none none cert none none names none)
              (returned lib w0 names session cert))
            (Exported w0)
    certificate-Triple none from b c r =
        new-Triple lib (Exported w0) (opened from started) x509 _
          (returned lib w0 names session none) (fails_at started from r)
          (λ x bx. closes lib w0 names none x session _ (omega arith) (omega arith) r refl)
    certificate-Triple (some c) from b d r =
        new-Triple lib (Exported w0) (opened from (certified c)) x509 _
          (returned lib w0 names session (some c)) (fails_at (certified c) from r)
          (λ x bx. closes lib w0 names (some c) x session _ (omega arith) (omega arith) r refl)

    pub export_cert-Triple :
        (sign : Bool) (from : ℕ)
        → above names ≤ from
        → Triple
            (opened from started)
            (export_cert lib names session sign (returned lib w0 names session))
            (Exported w0)
    unfolding export_cert
    export_cert-Triple sign from o =
        check-Triple lib (Exported w0) (opened from started)
          (Call.export_certificate session.con sign none) _ _ (fails_at started from tt)
          (λ sized. by_length sized.len)
      where
        by_length :
            (len : ℕ)
            → Triple
                (opened from started)
                (elim len as (λ _. M (Option ℕ)) [
                  | zero ↦
                      check lib
                        (Call.export_certificate session.con sign none)
                        (export_error lib none none none none none names none)
                        (λ exported.
                          new lib x509
                            (export_error lib none none none none none names none)
                            (returned lib w0 names session none))
                  | suc n ↦
                      new lib memory (export_error lib none none none none none names none) (λ cert.
                        check lib
                          (Call.export_certificate session.con sign (some cert))
                          (export_error lib none none (some cert) none none names none)
                          (λ exported.
                            new lib x509
                              (export_error lib none none (some cert) none none names none)
                              (returned lib w0 names session (some cert))))
                ])
                (Exported w0)
        by_length zero =
            check-Triple lib (Exported w0) (opened from started)
              (Call.export_certificate session.con sign none) _ _ (fails_at started from tt)
              (λ _. certificate-Triple none from o (omega arith) tt)
        by_length (suc n) =
            new-Triple lib (Exported w0) (opened from started) memory _ _ (fails_at started from tt)
              (λ c bc.
                check-Triple lib (Exported w0) (opened (c + 1) (certified c))
                  (Call.export_certificate session.con sign (some c)) _ _
                  (fails_at (certified c) (c + 1) (omega arith))
                  (λ _.
                    certificate-Triple (some c) (c + 1) (omega arith) (omega arith) (omega arith)))

    -- The steps of export_key behind the making of the point, the curve and the key.
    abbrev from_point : List ℕ → ℕ → ℕ → ℕ → M (Option ℕ)
    from_point bytes k e p =
        try lib (Call.oct2point bytes)
          (export_error lib none (some e) none (some p) (some k) names none)
          (try lib set_public_key (export_error lib none (some e) none (some p) (some k) names none)
            (free p
              >> try lib set1_ec_key (export_error lib none (some e) none none (some k) names none)
                  (free e
                    >> try lib set_alias_type
                        (export_error lib none none none none (some k) names none)
                        (returned lib w0 names session none k))))

    abbrev from_curve : List ℕ → ℕ → ℕ → M (Option ℕ)
    from_curve bytes k e =
        new lib ec_point (export_error lib none (some e) none none (some k) names none)
          (from_point bytes k e)

    abbrev from_key : List ℕ → ℕ → M (Option ℕ)
    from_key bytes k =
        new lib ec_key (export_error lib none none none none (some k) names none)
          (from_curve bytes k)

    from_point-Triple :
        (bytes : List ℕ) (k e p from : ℕ)
        → Rising (above names) (pointed k e p)
        → Triple (opened from (pointed k e p)) (from_point bytes k e p) (Exported w0)
    from_point-Triple bytes k e p from (o, b, c) =
        let P = Exported w0 in
        try-Triple lib P (opened from (pointed k e p)) _ _ _
          (fails_at (pointed k e p) from (o, b, c))
          (try-Triple lib P (opened from (pointed k e p)) _ _ _
            (fails_at (pointed k e p) from (o, b, c))
            (free-Triple lib w0 names p _ (opened from (pointed k e p)) _ refl (
              try-Triple lib P (opened from (curved k e)) _ _ _ (fails_at (curved k e) from (o, b))
                (free-Triple lib w0 names e _ (opened from (curved k e)) _ refl (
                  try-Triple lib P (opened from (keyed k)) _ _ _ (fails_at (keyed k) from o)
                    (closes lib w0 names none k session _ o (omega arith) tt refl))))))

    pub export_key-Triple :
        (sign : Bool) (from : ℕ)
        → above names ≤ from
        → Triple
            (opened from started)
            (export_key lib names session sign (returned lib w0 names session none))
            (Exported w0)
    unfolding export_key
    export_key-Triple sign from o =
        let P = Exported w0 in
        check-Triple lib P (opened from started) (Call.export_public_key session.con sign) _ _
          (fails_at started from tt)
          (λ public.
            let bytes = 4 ∷ take 32 (drop 32 public.bytes) ++ take 32 (drop 96 public.bytes) in
            new-Triple lib P (opened from started) pkey _ (from_key bytes)
              (fails_at started from tt)
              (λ k bk.
                new-Triple lib P (opened (k + 1) (keyed k)) ec_key _ (from_curve bytes k)
                  (fails_at (keyed k) (k + 1) (omega arith))
                  (λ e be.
                    new-Triple lib P (opened (e + 1) (curved k e)) ec_point _ (from_point bytes k e)
                      (fails_at (curved k e) (e + 1) (omega arith, omega arith))
                      (λ p bp.
                        from_point-Triple bytes k e p (p + 1)
                          (omega arith, omega arith, omega arith)))))
