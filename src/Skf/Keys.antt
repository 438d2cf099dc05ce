-- ===== src/Skf/Keys.antt =====
-- RasKeyPairTest, KeyPairTest and SM2KeyPairTest: making keys on a token, signing and verifying.
pub mod Import
pub mod Checked
pub mod Leak
use make_down_file.Prelude.{
  ℕ, zero, suc, ◌+◌, ◌*◌, ◌%◌, Bool, true, false, not, Option, none, some, List, [], ◌∷◌, ◌++◌,
  ◌==◌, is_some, if◌then◌else◌,
}
use make_down_file.Run.{pure, ◌>>=◌, ◌>>◌}
use make_down_file.Skf.World.{Call, KeyCall, Reply, Keys, World, M, call, malloc, from_option}
use make_down_file.Skf.Enumerate.{Rv, code, minus_one, need_api, open_container}

abbrev pub sar_fail : ℕ
sar_fail = 167772161

abbrev pub user_type : ℕ
user_type = 1

abbrev pub sgd_sm1_ecb : ℕ
sgd_sm1_ecb = 257

abbrev pub sgd_sm2_1 : ℕ
sgd_sm2_1 = 131328

abbrev pub sgd_sm2_3 : ℕ
sgd_sm2_3 = 132096

abbrev pub sgd_sm3 : ℕ
sgd_sm3 = 1

abbrev pub sgd_sha1 : ℕ
sgd_sha1 = 2

abbrev pub pin : List ℕ
pin = b'1' ∷ b'2' ∷ b'3' ∷ b'4' ∷ b'5' ∷ b'6' ∷ []

abbrev pub rsa_container : List ℕ
rsa_container =
    b'R' ∷ b'S' ∷ b'A' ∷ b'_' ∷ b'C' ∷ b'o' ∷ b'n' ∷ b't' ∷ b'a' ∷ b'i' ∷ b'n' ∷ b'e' ∷ b'r' ∷ []

abbrev pub sm2_container : List ℕ
sm2_container =
    b'S' ∷ b'M' ∷ b'2' ∷ b'_' ∷ b'C' ∷ b'o' ∷ b'n' ∷ b't' ∷ b'a' ∷ b'i' ∷ b'n' ∷ b'e' ∷ b'r' ∷ []

abbrev pub xcs : List ℕ
xcs = b'x' ∷ b'c' ∷ b's' ∷ []

abbrev pub feitian : List ℕ
feitian = b'f' ∷ b'e' ∷ b'i' ∷ b't' ∷ b'i' ∷ b'a' ∷ b'n' ∷ []

abbrev pub my_sin_certificate : List ℕ
my_sin_certificate =
    b'm' ∷ b'y' ∷ b'_' ∷ b's' ∷ b'i' ∷ b'n' ∷ b'C' ∷ b'e' ∷ b'r' ∷ b't' ∷ b'i' ∷ b'f' ∷ b'i' ∷ b'c'
    ∷ b'a' ∷ b't' ∷ b'e' ∷ b'.' ∷ b'p' ∷ b'e' ∷ b'm' ∷ []

abbrev pub my_enc_certificate : List ℕ
my_enc_certificate =
    b'm' ∷ b'y' ∷ b'_' ∷ b'e' ∷ b'n' ∷ b'c' ∷ b'C' ∷ b'e' ∷ b'r' ∷ b't' ∷ b'i' ∷ b'f' ∷ b'i' ∷ b'c'
    ∷ b'a' ∷ b't' ∷ b'e' ∷ b'.' ∷ b'p' ∷ b'e' ∷ b'm' ∷ []

-- The bytes of `pbData` from index `i` on, so many of them.
unfoldable pub data_from : ℕ → ℕ → List ℕ
data_from i zero = []
data_from i (suc n) = ((i * 4 + 3) % 256) ∷ data_from (i + 1) n

unfoldable pub test_data : List ℕ
unfolding data_from
test_data = data_from 0 1024

module _ (keys : Keys) where
  unfoldable pub key_call : KeyCall → M Reply
  unfolding call
  key_call c = call (Call.key_call c) (λ t. keys.reply t c)

  -- `rv = …; if (rv) { PrintError(…); return rv; }` and the rest of the function.
  unfoldable pub step : KeyCall → (Reply → M Rv) → M Rv
  unfolding key_call
  step c next = do r ← key_call c; elim r.rv [ suc e ↦ pure (code (suc e)) | zero ↦ next r ]

  -- The prologue with GetSKFAPI; its `return NULL` is the status 0.
  unfoldable pub with_api : M Rv → M Rv
  unfolding need_api
  with_api rest = do api ← need_api keys.token; elim api [ none ↦ pure (code 0) | some _ ↦ rest ]

  -- The container opened, or created if opening it fails with SAR_FAIL. After another failure
  -- RasKeyPairTest goes on with `hCon` unset, `none`.
  unfoldable pub ras_container : ℕ → (Option ℕ → M Rv) → M Rv
  unfolding step open_container
  ras_container app next = do
    (rv, con) ← open_container keys.token app rsa_container
    elim rv [
      | zero ↦ next (some con)
      | suc e ↦ elim (suc e == sar_fail) [
        | true ↦ step (KeyCall.create_container app rsa_container) (λ r. next (some r.handle))
        | false ↦ next none
      ]
    ]

  unfoldable pub ras_key_pair_test : ℕ → ℕ → M Rv
  unfolding step with_api from_option ras_container
  ras_key_pair_test dev app = with_api (
      step (KeyCall.verify_pin app user_type pin) (λ _. ras_container app (λ opened. do
        con ← from_option opened
        step (KeyCall.gen_rsa_key_pair con 1024) (λ key.
            step (KeyCall.digest_init dev sgd_sha1 [] []) (λ hash.
              step (KeyCall.digest hash.handle test_data) (λ digest.
                step (KeyCall.rsa_sign_data con digest.bytes) (λ signature.
                  step (KeyCall.rsa_verify dev key.bytes digest.bytes signature.bytes)
                    (λ _. pure (code 0)))))))))

  -- A digest of the data, signed in the container and verified with the public key.
  unfoldable pub sign_and_verify : ℕ → ℕ → List ℕ → List ℕ → M Rv → M Rv
  unfolding step
  sign_and_verify dev con key user_id rest =
      step (KeyCall.digest_init dev sgd_sm3 key user_id) (λ hash.
        step (KeyCall.digest hash.handle test_data) (λ digest.
          step (KeyCall.ecc_sign_data con digest.bytes) (λ signature.
            step (KeyCall.ecc_verify dev key digest.bytes signature.bytes) (λ _. rest))))

  unfoldable pub sm2_key_pair_test : ℕ → ℕ → M Rv
  unfolding step with_api sign_and_verify
  sm2_key_pair_test dev app = with_api (
      step (KeyCall.verify_pin app user_type pin) (λ _.
        step (KeyCall.create_container app sm2_container) (λ con.
          step (KeyCall.gen_ecc_key_pair con.handle sgd_sm2_1)
            (λ key. sign_and_verify dev con.handle key.bytes feitian (pure (code 0))))))

  -- The keys of a container that is there are exported. Its type is asked for and ignored.
  unfoldable pub existing_keys : ℕ → (ℕ → List ℕ → M Rv) → M Rv
  unfolding key_call step
  existing_keys con next = do
    type ← key_call (KeyCall.get_container_type con)
    step (KeyCall.export_public_key con true) (λ sign_key.
        step (KeyCall.export_public_key con false) (λ enc_key. next con sign_key.bytes))

  -- A new container, with two new keys.
  unfoldable pub new_keys : ℕ → (ℕ → List ℕ → M Rv) → M Rv
  unfolding step
  new_keys app next = step (KeyCall.create_container app sm2_container) (λ created.
      step (KeyCall.gen_ecc_key_pair created.handle sgd_sm2_1) (λ sign_key.
        step (KeyCall.gen_ecc_key_pair created.handle sgd_sm2_3)
          (λ enc_key. next created.handle sign_key.bytes)))

  -- The signing key of the container SM2_Container, which is created if opening it fails with SAR_FAIL.
  unfoldable pub sm2_keys : ℕ → (ℕ → List ℕ → M Rv) → M Rv
  unfolding open_container existing_keys new_keys
  sm2_keys app next = do
    (rv, con) ← open_container keys.token app sm2_container
    elim rv [
      | zero ↦ existing_keys con next
      | suc e ↦ elim (suc e == sar_fail) [ true ↦ new_keys app next | false ↦ pure (code (suc e)) ]
    ]

  unfoldable pub read_binary_certificate : List ℕ → M (Option ℕ)
  unfolding key_call
  read_binary_certificate bytes = do
    bio ← key_call (KeyCall.new_mem_buf bytes)
    cert ← key_call (KeyCall.d2i_x509_bio bio.handle)
    freed ← key_call (KeyCall.bio_free bio.handle)
    elim cert.handle [ zero ↦ pure none | suc c ↦ pure (some (suc c)) ]

  -- `true` for a result other than 0.
  unfoldable pub write_certificate_to_pem_file : ℕ → List ℕ → M Bool
  unfolding key_call
  write_certificate_to_pem_file cert filename = do
    bio ← key_call (KeyCall.new_file filename)
    elim bio.handle [
      | zero ↦ pure false
      | suc b ↦ (do
        result ← key_call (KeyCall.pem_write_bio_x509 (suc b) cert)
        freed ← key_call (KeyCall.bio_free (suc b))
        pure (not (result.rv == 0)))
    ]

  -- From the exported bytes on.
  unfoldable pub save_certificate : List ℕ → List ℕ → M Rv → M Rv
  unfolding key_call read_binary_certificate write_certificate_to_pem_file
  save_certificate bytes filename rest = do
    cert ← read_binary_certificate bytes
    elim cert [
      | none ↦ pure (code 1)
      | some x ↦ (do
        written ← write_certificate_to_pem_file x filename
        elim written [
          | false ↦ pure (code 1)
          | true ↦ (do freed ← key_call (KeyCall.x509_free x); rest)
        ])
    ]

  -- One certificate, from the token into a file. Its block stays allocated; without one the token is
  -- asked for the length again, and the certificate is read from NULL.
  unfoldable pub export_to_pem : ℕ → Bool → List ℕ → M Rv → M Rv
  unfolding call malloc save_certificate
  export_to_pem con sign_flag filename rest = do
    let answer = λ (t : List Call). keys.token.export_certificate t con sign_flag
    sized ← call (Call.export_certificate con sign_flag false) answer
    elim sized.rv [
      | suc e ↦ pure (code (suc e))
      | zero ↦ (do
        block ← malloc keys.token.memory
        exported ← call (Call.export_certificate con sign_flag (is_some block)) answer
        elim exported.rv [
          | suc e ↦ pure (code (suc e))
          | zero ↦ save_certificate (if is_some block then exported.mem else []) filename rest
        ])
    ]

  unfoldable pub export_certificates : ℕ → M Rv
  unfolding export_to_pem
  export_certificates con =
      export_to_pem con true my_sin_certificate
        (export_to_pem con false my_enc_certificate (pure (code 0)))

  unfoldable pub key_pair_test : ℕ → ℕ → M Rv
  unfolding step with_api sm2_keys sign_and_verify export_certificates
  key_pair_test dev app = with_api (
      step (KeyCall.verify_pin app user_type pin)
        (λ _. sm2_keys app (λ con key. sign_and_verify dev con key xcs (export_certificates con))))
