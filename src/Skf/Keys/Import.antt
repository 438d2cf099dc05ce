-- ===== src/Skf/Keys/Import.antt =====
-- ImportSM2KeyPair_Test, ImportSessionKey_Test, and the end of `main`.
use make_down_file.Prelude.{
  ℕ, zero, suc, true, false, Option, none, some, List, [], ◌∷◌, ◌++◌, leb, length, take, drop,
  replicate, is_some, if◌then◌else◌,
}
use make_down_file.Run.{pure, ◌>>=◌, ◌>>◌}
use make_down_file.Skf.World.{KeyCall, Reply, Keys, M, malloc, free, undefined}
use make_down_file.Skf.Enumerate.{Rv, code, minus_one, open_container}
use make_down_file.Skf.Main.{main_enumerate}
use make_down_file.Skf.Keys.{sm2_container, sgd_sm1_ecb, key_call, step, with_api, key_pair_test}

-- The bytes of `pEccPriBlb.PrivateKey`.
abbrev pub private_key : List ℕ
private_key =
    replicate 32 0
    ++ 64 ∷ 0 ∷ 20 ∷ 36 ∷ 131 ∷ 2 ∷ 20 ∷ 32 ∷ 66 ∷ 136 ∷ 2 ∷ 74 ∷ 16 ∷ 20 ∷ 128 ∷ 0 ∷ 2 ∷ 28 ∷ 0 ∷ 9
      ∷ 131 ∷ 88 ∷ 33 ∷ 172 ∷ 128 ∷ 0 ∷ 160 ∷ 19 ∷ 17 ∷ 0 ∷ 168 ∷ 89 ∷ []

-- The places of `cbEncryptedPriKey`: more bytes would run into the key behind it.
abbrev pub key_room : ℕ
key_room = 64

module _ (keys : Keys) where
  -- The container SM2_Container, which has to be there.
  unfoldable pub existing_container : ℕ → (ℕ → M Rv) → M Rv
  unfolding open_container
  existing_container app next = do
    (rv, con) ← open_container keys.token app sm2_container
    elim rv [ suc e ↦ pure (code (suc e)) | zero ↦ next con ]

  -- The block of the envelope: the test behind `malloc` is of the other pointer, so a missing block
  -- is written to. The first 32 encrypted bytes are cleared.
  unfoldable pub import_enveloped : ℕ → ℕ → List ℕ → List ℕ → M Rv
  unfolding malloc free undefined step
  import_enveloped con cipher_blob cipher encrypted = do
    block ← malloc keys.token.memory
    elim block [
      | none ↦ undefined
      | some envelope ↦ elim (leb (length encrypted) key_room) [
        | false ↦ undefined
        | true ↦
            step keys
              (KeyCall.import_ecc_key_pair con cipher
                (take (length encrypted) (replicate 32 0 ++ drop 32 encrypted)))
              (λ _. do free envelope; free cipher_blob; pure (code 0))
      ]
    ]

  -- `pEccCipherBlob` is written to without a test.
  unfoldable pub import_sm2_key_pair_test : ℕ → ℕ → M Rv
  unfolding malloc undefined step with_api existing_container import_enveloped
  import_sm2_key_pair_test dev app = with_api keys (
      existing_container app (λ con. step keys (KeyCall.export_public_key con true) (λ sign_key. do
        block ← malloc keys.token.memory
        elim block [
          | none ↦ undefined
          | some cipher_blob ↦
              step keys (KeyCall.ecc_export_session_key con sgd_sm1_ecb sign_key.bytes) (λ session.
                step keys (KeyCall.encrypt_init session.handle) (λ _.
                  step keys (KeyCall.encrypt_update session.handle private_key) (λ front.
                    step keys (KeyCall.encrypt_final session.handle) (λ rest.
                      import_enveloped con cipher_blob session.bytes (front.bytes ++ rest.bytes)))))
        ])))

  -- A call whose failure frees blocks: `if (rv) { free(…); return rv; }`.
  unfoldable pub step_or_free : M (Unit {0}) → KeyCall → (Reply → M Rv) → M Rv
  unfolding key_call
  step_or_free cleanup c next = do
    r ← key_call keys c
    elim r.rv [ suc e ↦ (do cleanup; pure (code (suc e))) | zero ↦ next r ]

  unfoldable pub free_given : Option ℕ → M (Unit {0})
  unfolding free
  free_given none = pure tt
  free_given (some p) = free p

  -- From the second block on; a missing one is cleared nevertheless. At the end `free(pCipherData)`
  -- frees NULL.
  unfoldable pub import_session_key : ℕ → Option ℕ → List ℕ → M Rv
  unfolding malloc free undefined step_or_free free_given
  import_session_key con blob key = do
    block ← malloc keys.token.memory
    elim block [
      | none ↦ undefined
      | some cipher ↦
          step_or_free (free_given blob >> free cipher)
            (KeyCall.ecc_export_session_key con sgd_sm1_ecb key)
            (λ session.
              step_or_free (free_given blob >> free cipher)
                (KeyCall.import_session_key con sgd_sm1_ecb session.bytes)
                (λ _. do free_given blob; pure (code 0)))
    ]

  -- The public key is exported into the block `pbBlob`; without one the call has nothing to fill, and
  -- the session key is asked for with a NULL key.
  unfoldable pub import_session_key_test : ℕ → ℕ → M Rv
  unfolding malloc with_api existing_container step_or_free free_given import_session_key
  import_session_key_test dev app = with_api keys (
      existing_container app (λ con. do
        blob ← malloc keys.token.memory
        step_or_free (free_given blob) (KeyCall.export_public_key con false)
            (λ key. import_session_key con blob (if is_some blob then key.bytes else []))))

  -- The tests run with `hDev` and `hApp`, which are still NULL. Each status other than 0 ends the
  -- program.
  unfoldable pub after_success : M Rv → M (Unit {0}) → M (Unit {0})
  after_success test rest = do
    rv ← test
    elim rv [ minus_one ↦ pure tt | code n ↦ elim n [ suc e ↦ pure tt | zero ↦ rest ] ]

  unfoldable pub close_all : ℕ → ℕ → M Rv
  unfolding step with_api
  close_all dev app = with_api keys (
      step keys (KeyCall.close_application app)
        (λ _. step keys (KeyCall.disconnect_dev dev) (λ _. pure (code 0))))

  unfoldable pub main : M (Unit {0})
  unfolding main_enumerate after_success key_pair_test import_sm2_key_pair_test
      import_session_key_test close_all
  main = do
    goes_on ← main_enumerate keys.token
    if goes_on
        then after_success (key_pair_test keys 0 0) (
            after_success (import_sm2_key_pair_test 0 0) (
              after_success (import_session_key_test 0 0)
                (after_success (close_all 0 0) (pure tt))))
        else pure tt
