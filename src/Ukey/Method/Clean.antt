-- ===== src/Ukey/Method/Clean.antt =====
-- ukey_sign frees what it allocates, and closes what it opens if it succeeds.
use mathlib.Core.Bool.{false≢true}
use make_down_file.Prelude.{
  ℕ, ◌+◌, ◌≤◌, ◌<◌, ◌≡◌, refl, ◌∙◌, Bool, true, false, Option, none, some, List, ◌∷◌, arith, ◌==◌,
  ==_refl, erase, Bool-cases, inl, inr, ltb, length,
}
use make_down_file.Run.{Returns, returns, Returns-mono, Ends-Returns, ◌>>=◌, ◌>>◌}
use make_down_file.Ukey.World.{Call, memory, ecdsa_sig, bignum, Lib, World, M, call, give_away}
use make_down_file.Ukey.Session.{Session, enum_devs}
use make_down_file.Ukey.Method.{
  Signed, size_max, sign_error, format_signature, sign_text, sign_on_token, ukey_sign,
}
use make_down_file.Ukey.Method.Label.{
  Stage, started, copied, shaped, half, full, tbs_of, sig_of, r_of, s_of, objects, Rising, listed,
  above, Freed, sign_error-Freed,
}
use make_down_file.Ukey.Method.Triple.{
  AnswersApi, Held, Triple, AnySession, with_session, check-Triple, try-Triple, new-Triple,
  enum_devs-Triple, open_session-Triple, close_session-Triple,
}

-- The heap as before, and after a success the sessions too.
abbrev pub Clean : World → Signed → World → Type 0
Clean w r w' =
    (w'.live ≡ w.live)
    × (r.ret ≡ true → (w'.devs ≡ w.devs) × (w'.apps ≡ w.apps) × (w'.cons ≡ w.cons))

module _ (lib : Lib) where
  -- The label after a failure, and after a success with the sessions closed.
  abbrev failed : ℕ → Signed
  failed siglen = record { ret = false; siglen = siglen; sig = none }

  module _ (w0 : World) (names : Option ℕ) where
    fails :
        (stage : Stage) (siglen : ℕ) (h : Held)
        → Rising (above names) stage
        → h.live ≡ objects stage (listed names w0.live)
        → AnySession lib (Clean w0) h (
            sign_error lib
              (r_of stage)
              (s_of stage)
              names
              (tbs_of stage)
              (sig_of stage)
              (failed siglen))
    fails stage siglen h o e devs apps cons w a =
        Returns-mono
          (Ends-Returns _ (sign_error-Freed lib names stage (failed siglen) w0.live w o (a.1 ∙ e)))
          (λ q w' (f : Freed (failed siglen) w0.live w q w').
            (f.1, λ t. elim (false≢true (rw (f.0) at t)) [ ]))

    succeeds :
        (stage : Stage) (result : Signed) (h : Held)
        → Rising (above names) stage
        → h.live ≡ objects stage (listed names w0.live)
        → h.devs ≡ w0.devs
        → h.apps ≡ w0.apps
        → h.cons ≡ w0.cons
        → Triple h
            (sign_error lib (r_of stage) (s_of stage) names (tbs_of stage) (sig_of stage) result)
            (Clean w0)
    succeeds stage result h o e d p c w a =
        Returns-mono
          (Ends-Returns _ (sign_error-Freed lib names stage result w0.live w o (a.1 ∙ e)))
          (λ q w' (f : Freed result w0.live w q w').
            (f.1, λ _. (f.2 ∙ (a.2 ∙ d), f.3 ∙ (a.3 ∙ p), f.4 ∙ (a.4 ∙ c))))

    -- What is held when the sessions are those of before.
    abbrev held : ℕ → Stage → Held
    held from stage = record {
      from = from;
      live = objects stage (listed names w0.live);
      devs = w0.devs;
      apps = w0.apps;
      cons = w0.cons;
    }

    fails_at :
        (stage : Stage) (siglen from : ℕ)
        → Rising (above names) stage
        → Triple
            (held from stage)
            (sign_error lib
              (r_of stage)
              (s_of stage)
              names
              (tbs_of stage)
              (sig_of stage)
              (failed siglen))
            (Clean w0)
    fails_at stage siglen from o =
        fails stage siglen (held from stage) o refl w0.devs w0.apps w0.cons

    succeeds_at :
        (stage : Stage) (result : Signed) (from : ℕ)
        → Rising (above names) stage
        → Triple
            (held from stage)
            (sign_error lib (r_of stage) (s_of stage) names (tbs_of stage) (sig_of stage) result)
            (Clean w0)
    succeeds_at stage result from o = succeeds stage result (held from stage) o refl refl refl refl

    give_away-Triple :
        (t g r s from : ℕ) (next : M Signed)
        → r < s
        → Triple (held from (shaped t g)) next (Clean w0)
        → Triple (held from (full t g r s)) (give_away r s >> next) (Clean w0)
    unfolding give_away
    give_away-Triple t g r s from next o n w (b, l, d, p, c) =
        n (record w { live = erase r (erase s w.live) }) (b, rw (l, ==_refl s, ==_refl r), d, p, c)

    encoded :
        (t g from : ℕ) (c : Call) (answer : List Call → Option (List ℕ))
        → Rising (above names) (shaped t g)
        → Triple
            (held from (shaped t g))
            (call c answer >>= λ der. elim der [
              | none ↦
                  sign_error lib none none names
                    (some t)
                    (some g)
                    (record { ret = true; siglen = size_max; sig = none })
              | some out ↦
                  sign_error lib none none names
                    (some t)
                    (some g)
                    (record { ret = ltb 0 (length out); siglen = length out; sig = some out })
            ])
            (Clean w0)
    unfolding call
    encoded t g from c answer o w a = by_der (answer w.calls)
      where
        by_der :
            (der : Option (List ℕ))
            → Returns (Clean w0) (
                (elim der as (λ _. M Signed) [
                  | none ↦
                      sign_error lib none none names
                        (some t)
                        (some g)
                        (record { ret = true; siglen = size_max; sig = none })
                  | some out ↦
                      sign_error lib none none names
                        (some t)
                        (some g)
                        (record { ret = ltb 0 (length out); siglen = length out; sig = some out })
                ])
                  (record w { calls = c ∷ w.calls }))
        by_der none =
            succeeds_at (shaped t g) (record { ret = true; siglen = size_max; sig = none }) from o
              (record w { calls = c ∷ w.calls }) a
        by_der (some out) =
            succeeds_at (shaped t g)
              (record { ret = ltb 0 (length out); siglen = length out; sig = some out }) from o
              (record w { calls = c ∷ w.calls }) a

    format_signature-Triple :
        (t from siglen : ℕ) (bytes : List ℕ)
        → above names ≤ t
        → t < from
        → Triple (held from (copied t)) (format_signature lib names t bytes siglen) (Clean w0)
    unfolding format_signature
    format_signature-Triple t from siglen bytes o b =
        new-Triple lib (Clean w0) (held from (copied t)) ecdsa_sig _ _
          (fails_at (copied t) siglen from o)
          (λ g bg.
            new-Triple lib (Clean w0) (held (g + 1) (shaped t g)) bignum _ _
              (fails_at (shaped t g) siglen (g + 1) (o, omega arith))
              (λ r br.
                new-Triple lib (Clean w0) (held (r + 1) (half t g r)) bignum _ _
                  (fails_at (half t g r) siglen (r + 1) (o, omega arith, omega arith))
                  (λ s bs.
                    try-Triple lib (Clean w0) (held (s + 1) (full t g r s)) _ _ _
                      (fails_at (full t g r s) siglen (s + 1)
                        (o, omega arith, omega arith, omega arith))
                      (give_away-Triple t g r s (s + 1) _ (omega arith)
                        (encoded t g (s + 1) _ _ (o, omega arith))))))

    sign_text-Triple :
        (session : Session) (tbs : List ℕ) (siglen t from : ℕ)
        → above names ≤ t
        → t < from
        → Triple
            (with_session lib (Clean w0) session (held from (copied t)))
            (sign_text lib session tbs siglen names t)
            (Clean w0)
    unfolding sign_text
    sign_text-Triple session tbs siglen t from o b =
        let h = with_session lib (Clean w0) session (held from (copied t)) in
        check-Triple lib (Clean w0) h (Call.ecc_sign_data session.con tbs) _ _
          (fails (copied t) siglen h o refl h.devs h.apps h.cons)
          (λ signature.
            close_session-Triple lib (Clean w0) (held from (copied t)) session _ _
              (fails (copied t) siglen (held from (copied t)) o refl)
              (format_signature-Triple t from siglen signature.bytes o b))

    sign_on_token-Triple :
        (pin tbs : List ℕ) (siglen from : ℕ)
        → above names ≤ from
        → Triple (held from started) (sign_on_token lib pin tbs siglen names) (Clean w0)
    unfolding sign_on_token
    sign_on_token-Triple pin tbs siglen from o =
        open_session-Triple lib (Clean w0) (held from started) names _ _
          (fails started siglen (held from started) tt refl)
          (λ session.
            let h = with_session lib (Clean w0) session (held from started) in
            check-Triple lib (Clean w0) h (Call.verify_pin session.app pin) _ _
              (fails started siglen h tt refl h.devs h.apps h.cons)
              (λ _.
                new-Triple lib (Clean w0) h memory _ (sign_text lib session tbs siglen names)
                  (fails started siglen h tt refl h.devs h.apps h.cons)
                  (λ t b.
                    sign_text-Triple session tbs siglen t (t + 1) (omega arith) (omega arith))))

  -- From the list of devices on.
  enum_and_sign-Clean :
      (pin tbs : List ℕ) (siglen : ℕ) (w : World)
      → Returns (Clean w) (
          enum_devs lib
            (λ names. sign_error lib none none names none none (failed siglen))
            (sign_on_token lib pin tbs siglen)
            w)
  enum_and_sign-Clean pin tbs siglen w =
      enum_devs-Triple lib (Clean w) (held w none w.next started)
        (λ names. sign_error lib none none names none none (failed siglen))
        (sign_on_token lib pin tbs siglen) (fails_at w none started siglen w.next tt)
        (sign_on_token-Triple w none pin tbs siglen w.next (omega arith))
        (λ p b. fails_at w (some p) started siglen (p + 1) tt)
        (λ p b. sign_on_token-Triple w (some p) pin tbs siglen (p + 1) (omega arith)) w
        (omega arith, refl, refl, refl, refl)

  -- ukey_sign, where GetSKFAPI gives its table or a message, ends without a fault, whatever the token,
  -- the allocator and OpenSSL answer: no block is freed twice. It frees everything that it allocated, and if it reports success, the device, the application
  -- and the container that it opened are closed again.
  pub ukey_sign-Clean :
      (pin tbs : List ℕ) (has_sig : Bool) (siglen : ℕ) (w : World)
      → AnswersApi lib
      → Returns (Clean w) (ukey_sign lib pin tbs has_sig siglen w)
  unfolding ukey_sign
  ukey_sign-Clean pin tbs has_sig siglen w api = elim (Bool-cases (lib.ecdsa_size == 0)) [
    | inl z ↦ rw (z, ukey_sign) (returns (refl, λ _. (refl, refl, refl)))
    | inr s ↦ by_buffer has_sig s
  ]
    where
      by_buffer :
          (has_sig : Bool)
          → (lib.ecdsa_size == 0) ≡ false
          → Returns (Clean w) (ukey_sign lib pin tbs has_sig siglen w)
      by_buffer false s = rw (s, ukey_sign) (returns (refl, λ _. (refl, refl, refl)))
      by_buffer true s = elim (Bool-cases (ltb siglen lib.ecdsa_size)) [
        | inl l ↦ rw (s, l, ukey_sign) (returns (refl, λ _. (refl, refl, refl)))
        | inr l ↦ elim api [
          | inr a ↦ rw (s, l, a, ukey_sign) (returns (refl, λ _. (refl, refl, refl)))
          | inl a ↦ rw (s, l, a, ukey_sign) (enum_and_sign-Clean pin tbs siglen w)
        ]
      ]
