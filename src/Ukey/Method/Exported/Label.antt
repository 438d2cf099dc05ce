-- ===== src/Ukey/Method/Exported/Label.antt =====
-- The label `error` of ukey_export, for what is held when it is reached.
use make_down_file.Prelude.{
  ℕ, ◌≤◌, ◌<◌, ◌≡◌, refl, ◌∙◌, Option, none, some, List, ◌∷◌, arith, ==_refl,
}
use make_down_file.Run.{Ends, Ends-Returns, ◌>>◌}
use make_down_file.Ukey.World.{Lib, World, M, free, free_if}
use make_down_file.Ukey.Session.{Session, close_session}
use make_down_file.Ukey.Method.{export_error}
use make_down_file.Ukey.Method.Label.{listed, above}
use make_down_file.Ukey.Method.Triple.{Held, Triple, AnySession, with_session, close_session-Triple}

-- What is held besides the list of devices: the certificate's bytes, or the parts of a key.
pub data Stage : Type 0 where
  started : Stage
  certified : ℕ → Stage
  keyed : ℕ → Stage
  curved : ℕ → ℕ → Stage
  pointed : ℕ → ℕ → ℕ → Stage

abbrev pub cert_of : Stage → Option ℕ
cert_of (certified c) = some c
cert_of stage = none

abbrev pub key_of : Stage → Option ℕ
key_of started = none
key_of (certified c) = none
key_of (keyed k) = some k
key_of (curved k e) = some k
key_of (pointed k e p) = some k

abbrev pub ec_of : Stage → Option ℕ
ec_of (curved k e) = some e
ec_of (pointed k e p) = some e
ec_of stage = none

abbrev pub point_of : Stage → Option ℕ
point_of (pointed k e p) = some p
point_of stage = none

abbrev pub objects : Stage → List ℕ → List ℕ
objects started l = l
objects (certified c) l = c ∷ l
objects (keyed k) l = k ∷ l
objects (curved k e) l = e ∷ k ∷ l
objects (pointed k e p) l = p ∷ e ∷ k ∷ l

abbrev pub Rising : ℕ → Stage → Type 0
Rising low started = Unit
Rising low (certified c) = low ≤ c
Rising low (keyed k) = low ≤ k
Rising low (curved k e) = (low ≤ k) × (k < e)
Rising low (pointed k e p) = (low ≤ k) × (k < e) × (e < p)

abbrev pub cert_stage : Option ℕ → Stage
cert_stage none = started
cert_stage (some c) = certified c

-- The heap as before, with the object that is returned.
abbrev pub Exported : World → Option ℕ → World → Type 0
Exported w r w' = w'.live ≡ listed r w.live

module _ (lib : Lib) where
  -- The label, when nothing is returned.
  pub export_error-none :
      (names : Option ℕ) (stage : Stage) (base : List ℕ) (w : World)
      → Rising (above names) stage
      → w.live ≡ objects stage (listed names base)
      → Ends
          (λ r w'. w'.live ≡ listed r base)
          (export_error lib none
            (ec_of stage)
            (cert_of stage)
            (point_of stage)
            (key_of stage)
            names
            none
            w)
  unfolding export_error free_if free
  export_error-none none started base w o e = ground arith
  export_error-none (some n) started base w o e = ground arith
  export_error-none none (certified c) base w o e = ground arith
  export_error-none (some n) (certified c) base w o e = ground arith
  export_error-none none (keyed k) base w o e = ground arith
  export_error-none (some n) (keyed k) base w o e = ground arith
  export_error-none none (curved k c) base w o e = ground arith
  export_error-none (some n) (curved k c) base w o e = ground arith
  export_error-none none (pointed k c p) base w o e = ground arith
  export_error-none (some n) (pointed k c p) base w o e = ground arith

  -- The label, when the object `x` is returned.
  pub export_error-some :
      (names cert : Option ℕ) (x : ℕ) (base : List ℕ) (w : World)
      → above names ≤ x
      → above cert ≤ x
      → Rising (above names) (cert_stage cert)
      → w.live ≡ x ∷ listed cert (listed names base)
      → Ends
          (λ r w'. w'.live ≡ listed r base)
          (export_error lib none none cert none none names (some x) w)
  unfolding export_error free_if free
  export_error-some none none x base w o c b e = ground arith
  export_error-some (some n) none x base w o c b e = ground arith
  export_error-some none (some m) x base w o c b e = ground arith
  export_error-some (some n) (some m) x base w o c b e = ground arith

  module _ (w0 : World) (names : Option ℕ) where
    pub fails :
        (stage : Stage) (h : Held)
        → Rising (above names) stage
        → h.live ≡ objects stage (listed names w0.live)
        → AnySession lib (Exported w0) h (
            export_error lib none
              (ec_of stage)
              (cert_of stage)
              (point_of stage)
              (key_of stage)
              names
              none)
    fails stage h o e devs apps cons w a =
        Ends-Returns _ (export_error-none names stage w0.live w o (a.1 ∙ e))

    pub gives :
        (cert : Option ℕ) (x : ℕ) (h : Held)
        → above names ≤ x
        → above cert ≤ x
        → Rising (above names) (cert_stage cert)
        → h.live ≡ x ∷ listed cert (listed names w0.live)
        → AnySession lib (Exported w0) h (export_error lib none none cert none none names (some x))
    gives cert x h o b c e devs apps cons w a =
        Ends-Returns _ (export_error-some names cert x w0.live w o b c (a.1 ∙ e))

    -- The object is returned, and the container closed or not.
    pub closes :
        (cert : Option ℕ) (x : ℕ) (session : Session) (h : Held)
        → above names ≤ x
        → above cert ≤ x
        → Rising (above names) (cert_stage cert)
        → h.live ≡ x ∷ listed cert (listed names w0.live)
        → Triple
            (with_session lib (Exported w0) session h)
            (close_session lib session
              (export_error lib none none cert none none names (some x))
              (export_error lib none none cert none none names (some x)))
            (Exported w0)
    closes cert x session h o b c e =
        close_session-Triple lib (Exported w0) h session _ _ (gives cert x h o b c e)
          (gives cert x h o b c e h.devs h.apps h.cons)

    pub free-Triple :
        (p : ℕ) (l : List ℕ) (h : Held) (next : M (Option ℕ))
        → h.live ≡ p ∷ l
        → Triple (record h { live = l }) next (Exported w0)
        → Triple h (free p >> next) (Exported w0)
    unfolding free
    free-Triple p l h next e n w (b, live, d, q, c) =
        rw (live ∙ e, ==_refl p) (n (record w { live = l }) (b, refl, d, q, c))

    abbrev pub returned : Session → Option ℕ → ℕ → M (Option ℕ)
    returned session cert x =
        close_session lib session (export_error lib none none cert none none names (some x))
          (export_error lib none none cert none none names (some x))
