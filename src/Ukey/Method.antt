-- ===== src/Ukey/Method.antt =====
-- ukey_sign and ukey_export.
pub mod Triple
pub mod Label
pub mod Clean
pub mod Exported
use make_down_file.Prelude.{
  ℕ, zero, suc, ◌-◌, ◌^◌, ltb, not, Bool, true, false, Option, none, some, List, [], ◌∷◌, ◌++◌,
  ◌==◌, length, take, drop, if◌then◌else◌,
}
use make_down_file.Run.{fault, pure, ◌>>=◌, ◌>>◌}
use make_down_file.Ukey.World.{
  table, message, neither, Call, set_public_key, set1_ec_key, set_alias_type, Object, memory,
  ecdsa_sig, bignum, pkey, ec_key, ec_point, x509, Reply, Lib, M, call, make, free, free_if,
  give_away,
}
use make_down_file.Ukey.Session.{Session, check, enum_devs, open_session, close_session}

-- What ukey_sign gives: its result, `*siglen`, and the bytes put into `sig`.
pub record Signed : Type 0 where
  pub ret : Bool
  pub siglen : ℕ
  pub sig : Option (List ℕ)

-- The largest `size_t`, which a negative result of i2d_ECDSA_SIG becomes.
abbrev pub size_max : ℕ
size_max = 2 ^ 64 - 1

module _ (lib : Lib) where
  unfoldable pub try : {A : Type 0} → Call → M A → M A → M A
  unfolding call
  try c fail next = do
    good ← call c (λ t. lib.succeeds t c)
    elim good [ false ↦ fail | true ↦ next ]

  unfoldable pub new : {A : Type 0} → Object → M A → (ℕ → M A) → M A
  unfolding make
  new o fail next = do made ← make lib o; elim made [ none ↦ fail | some p ↦ next p ]

  -- The label `error` of ukey_sign.
  unfoldable pub sign_error :
      Option ℕ → Option ℕ → Option ℕ → Option ℕ → Option ℕ → Signed → M Signed
  unfolding free_if
  sign_error r s names tbs_tmp sig result = do
    free_if r
    free_if s
    free_if names
    free_if tbs_tmp
    free_if sig
    pure result

  -- The two numbers of the token's signature as an ASN.1 structure. `bytes` holds `r`, then `s`, each
  -- in the last 32 of 64 places.
  unfoldable pub format_signature : Option ℕ → ℕ → List ℕ → ℕ → M Signed
  unfolding call new try give_away sign_error
  format_signature names tbs_tmp bytes siglen = do
    let failed : Signed = record { ret = false; siglen = siglen; sig = none }
    let r_bytes = take 32 (drop 32 bytes)
    let s_bytes = take 32 (drop 96 bytes)
    new ecdsa_sig (sign_error none none names (some tbs_tmp) none failed) (λ sig.
        new bignum (sign_error none none names (some tbs_tmp) (some sig) failed) (λ r.
          new bignum (sign_error (some r) none names (some tbs_tmp) (some sig) failed) (λ s.
            try (Call.sig_set0 r_bytes s_bytes)
              (sign_error (some r) (some s) names (some tbs_tmp) (some sig) failed)
              (do
                give_away r s
                der ←
                    call (Call.i2d_ecdsa_sig r_bytes s_bytes)
                      (λ t. lib.i2d_ecdsa_sig t r_bytes s_bytes)
                elim der [
                  | none ↦
                      sign_error none none names (some tbs_tmp) (some sig)
                        (record { ret = true; siglen = size_max; sig = none })
                  | some out ↦
                      sign_error none none names (some tbs_tmp) (some sig)
                        (record { ret = ltb 0 (length out); siglen = length out; sig = some out })
                ]))))

  -- From the token's signature on; the text is copied to the block `tbs_tmp` before.
  unfoldable pub sign_text : Session → List ℕ → ℕ → Option ℕ → ℕ → M Signed
  unfolding check close_session sign_error format_signature
  sign_text session tbs siglen names tbs_tmp = do
    let error =
        sign_error none none names (some tbs_tmp) none
          (record { ret = false; siglen = siglen; sig = none })
    check lib (Call.ecc_sign_data session.con tbs) error (λ signature.
        close_session lib session error (format_signature names tbs_tmp signature.bytes siglen))

  -- The private key operation, on the container's key.
  unfoldable pub sign_on_token : List ℕ → List ℕ → ℕ → Option ℕ → M Signed
  unfolding check new open_session sign_error sign_text
  sign_on_token pin tbs siglen names = do
    let error =
        sign_error none none names none none (record { ret = false; siglen = siglen; sig = none })
    open_session lib names error (λ session.
        check lib (Call.verify_pin session.app pin) error
          (λ _. new memory error (sign_text session tbs siglen names)))

  -- `has_sig` tells whether `sig` is not NULL. A NULL table without a message is not noticed, and the
  -- first use of the table is undefined.
  unfoldable pub ukey_sign : List ℕ → List ℕ → Bool → ℕ → M Signed
  unfolding enum_devs sign_error sign_on_token
  ukey_sign pin tbs has_sig siglen =
      if lib.ecdsa_size == 0
      then pure (record { ret = false; siglen = siglen; sig = none })
      else elim has_sig [
        | false ↦ pure (record { ret = true; siglen = lib.ecdsa_size; sig = none })
        | true ↦
            if ltb siglen lib.ecdsa_size
            then pure (record { ret = false; siglen = siglen; sig = none })
            else elim lib.skf_api [
              | message ↦ pure (record { ret = false; siglen = siglen; sig = none })
              | neither ↦ (λ w. fault)
              | table ↦
                  enum_devs lib
                    (λ names.
                      sign_error none none names none none
                        (record { ret = false; siglen = siglen; sig = none }))
                    (sign_on_token pin tbs siglen)
            ]
      ]

  -- The label `error` of ukey_export, for the objects that are still held.
  unfoldable pub export_error :
      Option ℕ → Option ℕ → Option ℕ → Option ℕ → Option ℕ → Option ℕ → Option ℕ → M (Option ℕ)
  unfolding free_if
  export_error x ec cert point key names ret = do
    free_if x
    free_if ec
    free_if cert
    free_if point
    free_if key
    free_if names
    pure ret

  -- The certificate, from a block of the length that the token reports.
  unfoldable pub export_cert :
      Option ℕ → Session → Bool → (Option ℕ → ℕ → M (Option ℕ)) → M (Option ℕ)
  unfolding check new export_error
  export_cert names session sign next = do
    let error = λ (cert : Option ℕ). export_error none none cert none none names none
    check lib (Call.export_certificate session.con sign none) (error none) (λ sized.
        elim sized.len [
          | zero ↦
              check lib (Call.export_certificate session.con sign none) (error none)
                (λ exported. new x509 (error none) (next none))
          | suc n ↦ new memory (error none) (λ cert.
              check lib (Call.export_certificate session.con sign (some cert)) (error (some cert))
                (λ exported. new x509 (error (some cert)) (next (some cert))))
        ])

  -- The public key: the point with the container's coordinates, on the curve of SM2.
  unfoldable pub export_key : Option ℕ → Session → Bool → (ℕ → M (Option ℕ)) → M (Option ℕ)
  unfolding check new try export_error free
  export_key names session sign next =
      check lib (Call.export_public_key session.con sign)
        (export_error none none none none none names none)
        (λ public. new pkey (export_error none none none none none names none) (λ key.
          new ec_key (export_error none none none none (some key) names none) (λ ec.
            new ec_point (export_error none (some ec) none none (some key) names none) (λ point.
              try
                (Call.oct2point
                  (4 ∷ take 32 (drop 32 public.bytes) ++ take 32 (drop 96 public.bytes)))
                (export_error none (some ec) none (some point) (some key) names none)
                (try set_public_key
                  (export_error none (some ec) none (some point) (some key) names none)
                  (do
                    free point
                    try set1_ec_key (export_error none (some ec) none none (some key) names none)
                        (do
                          free ec
                          try set_alias_type
                              (export_error none none none none (some key) names none)
                              (next key))))))))

  -- `crt` chooses between the certificate and the key. The object is returned whether or not the
  -- container can be closed.
  unfoldable pub ukey_export : Bool → Bool → M (Option ℕ)
  unfolding enum_devs open_session close_session export_error export_cert export_key
  ukey_export crt sign = elim lib.skf_api [
    | message ↦ pure none
    | neither ↦ (λ w. fault)
    | table ↦
        enum_devs lib (λ names. export_error none none none none none names none)
          (λ names.
            open_session lib names (export_error none none none none none names none) (λ session.
              elim crt [
                | true ↦ export_cert names session sign (λ cert x.
                    close_session lib session (export_error none none cert none none names (some x))
                      (export_error none none cert none none names (some x)))
                | false ↦ export_key names session sign (λ key.
                    close_session lib session
                      (export_error none none none none none names (some key))
                      (export_error none none none none none names (some key)))
              ]))
  ]
