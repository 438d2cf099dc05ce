-- ===== src/Skf/Keys/Checked.antt =====
-- The key tests stop at a call that they test and that fails, and report it.
use make_down_file.Prelude.{
  ℕ, zero, suc, ◌+◌, ◌≡◌, refl, sym, Bool, true, false, not, ◌&&◌, ◌||◌, Option, none, some, List,
  [], ◌∷◌, ◌==◌, arith, Bool-cases, inl, inr, is_some,
}
use make_down_file.Run.{Ends-Returns, Returns, returns, Returns-bind, pure, ◌>>=◌}
use make_down_file.Skf.World.{Call, KeyCall, Reply, Keys, World, M, call, malloc, get_api}
use make_down_file.Skf.Enumerate.{Rv, code, minus_one, need_api, open_container}
use make_down_file.Skf.Api.{get_skf_api}
use make_down_file.Skf.Keys.{
  sar_fail, user_type, pin, sm2_container, sgd_sm2_1, sgd_sm2_3, sgd_sm3, xcs, my_sin_certificate,
  my_enc_certificate, key_call, step, with_api, sign_and_verify, sm2_key_pair_test, existing_keys,
  new_keys, export_certificates, save_certificate, sm2_keys, test_data, feitian,
  read_binary_certificate, write_certificate_to_pem_file, export_to_pem, key_pair_test,
}

abbrev pub succeeded : Rv → Bool
succeeded minus_one = false
succeeded (code zero) = true
succeeded (code (suc e)) = false

module _ (keys : Keys) where
  -- Did a call of the key tests succeed, as far as they look? They test neither the status of
  -- SKF_GetContainerType, nor the BIO of a buffer, nor the calls that free.
  unfoldable pub key_call_ok : List Call → KeyCall → Bool
  key_call_ok t (KeyCall.get_container_type con) = true
  key_call_ok t (KeyCall.new_mem_buf bytes) = true
  key_call_ok t (KeyCall.bio_free bio) = true
  key_call_ok t (KeyCall.x509_free cert) = true
  key_call_ok t (KeyCall.d2i_x509_bio bio) =
      not ((keys.reply t (KeyCall.d2i_x509_bio bio)).handle == 0)
  key_call_ok t (KeyCall.new_file name) = not ((keys.reply t (KeyCall.new_file name)).handle == 0)
  key_call_ok t (KeyCall.pem_write_bio_x509 bio cert) =
      not ((keys.reply t (KeyCall.pem_write_bio_x509 bio cert)).rv == 0)
  key_call_ok t c = (keys.reply t c).rv == 0

  -- Opening a container may also fail with SAR_FAIL: the container is then created.
  unfoldable pub call_ok : List Call → Call → Bool
  unfolding key_call_ok
  call_ok t (Call.key_call c) = key_call_ok t c
  call_ok t (Call.open_container app name) =
      ((keys.token.open_container t app name).rv == 0)
      || ((keys.token.open_container t app name).rv == sar_fail)
  call_ok t (Call.export_certificate con sign_flag buffer) =
      (keys.token.export_certificate t con sign_flag).rv == 0
  call_ok t c = true

  -- Every tested call of a trace succeeded, given what came before it.
  unfoldable pub all_ok : List Call → Bool
  unfolding call_ok
  all_ok [] = true
  all_ok (c ∷ t) = call_ok t c && all_ok t

  -- The status is SAR_OK just when every tested call succeeded.
  abbrev pub Sound : Rv → World → Type 0
  Sound rv w = succeeded rv ≡ all_ok w.calls

  and_true : (b : Bool) → (b && true) ≡ b
  and_true true = refl
  and_true false = refl

  -- A call whose status is looked at, and nothing else.
  abbrev Tested : KeyCall → Type 0
  Tested c = (t : List Call) → key_call_ok t c ≡ ((keys.reply t c).rv == 0)

  -- After a call with the status `rv`.
  checked :
      (rv : ℕ) (rest : M Rv) (w : World)
      → all_ok w.calls ≡ (rv == 0)
      → (all_ok w.calls ≡ true → Returns Sound (rest w))
      → Returns Sound ((elim rv as (λ _. M Rv) [ suc e ↦ pure (code (suc e)) | zero ↦ rest ]) w)
  checked zero rest w h go = go h
  checked (suc e) rest w h go = returns (ground (arith, h))

  all_ok-Tested :
      (c : KeyCall) (t : List Call)
      → Tested c
      → all_ok t ≡ true
      → all_ok (Call.key_call c ∷ t) ≡ ((keys.reply t c).rv == 0)
  unfolding all_ok call_ok
  all_ok-Tested c t tested h = rw (tested t, h) (ground arith)

  step-Sound :
      (c : KeyCall) (next : Reply → M Rv) (w : World)
      → Tested c
      → all_ok w.calls ≡ true
      → ((r : Reply) (w1 : World) → all_ok w1.calls ≡ true → Returns Sound (next r w1))
      → Returns Sound (step keys c next w)
  unfolding step key_call call
  step-Sound c next w tested h go =
      let r = keys.reply w.calls c in
      let w1 : World = record w { calls = Call.key_call c ∷ w.calls } in
      checked r.rv (next r) w1 (all_ok-Tested c w.calls tested h) (go r w1)

  with_api-Sound :
      (api : ℕ) (rest : M Rv) (w : World)
      → w.api ≡ some api
      → Returns Sound (rest w)
      → Returns Sound (with_api keys rest w)
  unfolding with_api need_api get_skf_api get_api
  with_api-Sound api rest w a r = simp a r

  sign_and_verify-Sound :
      (dev con : ℕ) (key user_id : List ℕ) (rest : M Rv) (w : World)
      → all_ok w.calls ≡ true
      → ((w1 : World) → all_ok w1.calls ≡ true → Returns Sound (rest w1))
      → Returns Sound (sign_and_verify keys dev con key user_id rest w)
  unfolding sign_and_verify key_call_ok
  sign_and_verify-Sound dev con key user_id rest w h go =
      step-Sound (KeyCall.digest_init dev sgd_sm3 key user_id) _ w (λ t. refl) h
        (λ hash w1 h1.
          step-Sound (KeyCall.digest hash.handle test_data) _ w1 (λ t. refl) h1
            (λ digest w2 h2.
              step-Sound (KeyCall.ecc_sign_data con digest.bytes) _ w2 (λ t. refl) h2
                (λ signature w3 h3.
                  step-Sound (KeyCall.ecc_verify dev key digest.bytes signature.bytes) _ w3
                    (λ t. refl) h3 (λ _ w4 h4. go w4 h4))))

  abbrev Continues : (ℕ → List ℕ → M Rv) → Type 0
  Continues next =
      (con : ℕ) (key : List ℕ) (w : World) → all_ok w.calls ≡ true → Returns Sound (next con key w)

  existing_keys-Sound :
      (con : ℕ) (next : ℕ → List ℕ → M Rv) (w : World)
      → all_ok w.calls ≡ true
      → Continues next
      → Returns Sound (existing_keys keys con next w)
  unfolding existing_keys key_call call key_call_ok all_ok call_ok
  existing_keys-Sound con next w h go =
      step-Sound (KeyCall.export_public_key con true) _
        (record w { calls = Call.key_call (KeyCall.get_container_type con) ∷ w.calls }) (λ t. refl)
        h
        (λ sign_key w1 h1.
          step-Sound (KeyCall.export_public_key con false) _ w1 (λ t. refl) h1
            (λ enc_key w2 h2. go con sign_key.bytes w2 h2))

  new_keys-Sound :
      (app : ℕ) (next : ℕ → List ℕ → M Rv) (w : World)
      → all_ok w.calls ≡ true
      → Continues next
      → Returns Sound (new_keys keys app next w)
  unfolding new_keys key_call_ok
  new_keys-Sound app next w h go =
      step-Sound (KeyCall.create_container app sm2_container) _ w (λ t. refl) h
        (λ created w1 h1.
          step-Sound (KeyCall.gen_ecc_key_pair created.handle sgd_sm2_1) _ w1 (λ t. refl) h1
            (λ sign_key w2 h2.
              step-Sound (KeyCall.gen_ecc_key_pair created.handle sgd_sm2_3) _ w2 (λ t. refl) h2
                (λ enc_key w3 h3. go created.handle sign_key.bytes w3 h3)))

  by_status :
      (rv con app : ℕ) (next : ℕ → List ℕ → M Rv) (w : World)
      → all_ok w.calls ≡ ((rv == 0) || (rv == sar_fail))
      → Continues next
      → Returns Sound (
          (elim rv as (λ _. M Rv) [
            | zero ↦ existing_keys keys con next
            | suc e ↦ elim (suc e == sar_fail) as (λ _. M Rv) [
              | true ↦ new_keys keys app next
              | false ↦ pure (code (suc e))
            ]
          ])
            w)
  by_status zero con app next w h go = existing_keys-Sound con next w h go
  by_status (suc e) con app next w h go = elim (Bool-cases (suc e == sar_fail)) [
    | inl t ↦ rw t (new_keys-Sound app next w (ground (arith, h, t)) go)
    | inr f ↦ rw f (returns (ground (arith, h, f)))
  ]

  sm2_keys-Sound :
      (app : ℕ) (next : ℕ → List ℕ → M Rv) (w : World)
      → all_ok w.calls ≡ true
      → Continues next
      → Returns Sound (sm2_keys keys app next w)
  unfolding sm2_keys open_container call all_ok call_ok
  sm2_keys-Sound app next w h go =
      let opened = keys.token.open_container w.calls app sm2_container in
      by_status opened.rv opened.handle app next
        (record w { calls = Call.open_container app sm2_container ∷ w.calls })
        (rw h (and_true ((opened.rv == 0) || (opened.rv == sar_fail)))) go

  read_binary_certificate-is_some :
      (bytes : List ℕ) (w : World)
      → all_ok w.calls ≡ true
      → Returns (λ o w'. all_ok w'.calls ≡ is_some o) (read_binary_certificate keys bytes w)
  unfolding read_binary_certificate all_ok call_ok key_call_ok
  read_binary_certificate-is_some bytes w h = Ends-Returns _ (ground (arith, h))

  write_certificate_to_pem_file_lem :
      (cert : ℕ) (filename : List ℕ) (w : World)
      → all_ok w.calls ≡ true
      → Returns (λ b w'. all_ok w'.calls ≡ b) (write_certificate_to_pem_file keys cert filename w)
  unfolding write_certificate_to_pem_file all_ok call_ok key_call_ok
  write_certificate_to_pem_file_lem cert filename w h = Ends-Returns _ (ground (arith, h))

  written-Sound :
      (x : ℕ) (b : Bool) (rest : M Rv) (w : World)
      → all_ok w.calls ≡ b
      → ((w1 : World) → all_ok w1.calls ≡ true → Returns Sound (rest w1))
      → Returns Sound (
          (elim b as (λ _. M Rv) [
            | false ↦ pure (code 1)
            | true ↦ (do freed ← key_call keys (KeyCall.x509_free x); rest)
          ])
            w)
  unfolding key_call call all_ok call_ok key_call_ok
  written-Sound x false rest w h go = returns (sym h)
  written-Sound x true rest w h go =
      go (record w { calls = Call.key_call (KeyCall.x509_free x) ∷ w.calls }) h

  read-Sound :
      (o : Option ℕ) (filename : List ℕ) (rest : M Rv) (w : World)
      → all_ok w.calls ≡ is_some o
      → ((w1 : World) → all_ok w1.calls ≡ true → Returns Sound (rest w1))
      → Returns Sound (
          (elim o as (λ _. M Rv) [
            | none ↦ pure (code 1)
            | some x ↦ (do
              written ← write_certificate_to_pem_file keys x filename
              elim written [
                | false ↦ pure (code 1)
                | true ↦ (do freed ← key_call keys (KeyCall.x509_free x); rest)
              ])
          ])
            w)
  read-Sound none filename rest w h go = returns (sym h)
  read-Sound (some x) filename rest w h go =
      Returns-bind (write_certificate_to_pem_file_lem x filename w h)
        (λ (b : Bool) w1 (e : all_ok w1.calls ≡ b). written-Sound x b rest w1 e go)

  save_certificate-Sound :
      (bytes filename : List ℕ) (rest : M Rv) (w : World)
      → all_ok w.calls ≡ true
      → ((w1 : World) → all_ok w1.calls ≡ true → Returns Sound (rest w1))
      → Returns Sound (save_certificate keys bytes filename rest w)
  unfolding save_certificate
  save_certificate-Sound bytes filename rest w h go =
      Returns-bind (read_binary_certificate-is_some bytes w h)
        (λ (o : Option ℕ) w1 (e : all_ok w1.calls ≡ is_some o). read-Sound o filename rest w1 e go)

  all_ok-export :
      (con : ℕ) (sign_flag buffer : Bool) (t : List Call)
      → all_ok t ≡ true
      → all_ok (Call.export_certificate con sign_flag buffer ∷ t)
        ≡ ((keys.token.export_certificate t con sign_flag).rv == 0)
  unfolding all_ok call_ok
  all_ok-export con sign_flag buffer t h =
      rw h (and_true ((keys.token.export_certificate t con sign_flag).rv == 0))

  export_to_pem-Sound :
      (con : ℕ) (sign_flag : Bool) (filename : List ℕ) (rest : M Rv) (w : World)
      → all_ok w.calls ≡ true
      → ((w1 : World) → all_ok w1.calls ≡ true → Returns Sound (rest w1))
      → Returns Sound (export_to_pem keys con sign_flag filename rest w)
  unfolding export_to_pem call malloc
  export_to_pem-Sound con sign_flag filename rest w h go =
      let w1 : World = record w { calls = Call.export_certificate con sign_flag false ∷ w.calls } in
      checked (keys.token.export_certificate w.calls con sign_flag).rv _ w1
        (all_ok-export con sign_flag false w.calls h)
        (λ h1. elim (Bool-cases (keys.token.memory w.next)) [
          | inl t ↦ rw t (
              checked (keys.token.export_certificate w1.calls con sign_flag).rv _
                (record w1 {
                  next = w.next + 1;
                  blocks = w.next ∷ w.blocks;
                  calls = Call.export_certificate con sign_flag true ∷ w1.calls;
                })
                (all_ok-export con sign_flag true w1.calls h1)
                (λ h2.
                  save_certificate-Sound (keys.token.export_certificate w1.calls con sign_flag).mem
                    filename rest _ h2 go))
          | inr f ↦ rw f (
              checked (keys.token.export_certificate w1.calls con sign_flag).rv _
                (record w1 {
                  next = w.next + 1;
                  calls = Call.export_certificate con sign_flag false ∷ w1.calls;
                })
                (all_ok-export con sign_flag false w1.calls h1)
                (λ h2. save_certificate-Sound [] filename rest _ h2 go))
        ])

  export_certificates-Sound :
      (con : ℕ) (w : World) → all_ok w.calls ≡ true → Returns Sound (export_certificates keys con w)
  unfolding export_certificates
  export_certificates-Sound con w h =
      export_to_pem-Sound con true my_sin_certificate
        (export_to_pem keys con false my_enc_certificate (pure (code 0))) w h
        (λ w1 h1.
          export_to_pem-Sound con false my_enc_certificate (pure (code 0)) w1 h1
            (λ w2 h2. returns {a = code 0} {s = w2} (sym h2)))

  -- KeyPairTest, with the table loaded and no failed call before, ends without a fault, and returns
  -- SAR_OK just when every call that it tests succeeded, where SAR_FAIL of SKF_OpenContainer passes
  -- too: the container is then created. It does not test SKF_GetContainerType, BIO_new_mem_buf and
  -- the calls that free.
  pub key_pair_test-Sound :
      (dev app api : ℕ) (w : World)
      → w.api ≡ some api
      → all_ok w.calls ≡ true
      → Returns Sound (key_pair_test keys dev app w)
  unfolding key_pair_test key_call_ok
  key_pair_test-Sound dev app api w a h =
      let signed = λ (con : ℕ) (key : List ℕ).
        sign_and_verify keys dev con key xcs (export_certificates keys con) in
      with_api-Sound api _ w a (
        step-Sound (KeyCall.verify_pin app user_type pin) (λ _. sm2_keys keys app signed) w
          (λ t. refl) h
          (λ _ w1 h1. sm2_keys-Sound app signed w1 h1 (λ con key w2 h2.
            sign_and_verify-Sound dev con key xcs (export_certificates keys con) w2 h2
              (λ w3 h3. export_certificates-Sound con w3 h3))))

  -- SM2KeyPairTest, with the table loaded and no failed call before, ends without a fault, and returns
  -- SAR_OK just when every call that it made succeeded.
  sm2_key_pair_test-Sound :
      (dev app api : ℕ) (w : World)
      → w.api ≡ some api
      → all_ok w.calls ≡ true
      → Returns Sound (sm2_key_pair_test keys dev app w)
  unfolding sm2_key_pair_test key_call_ok
  sm2_key_pair_test-Sound dev app api w a h = with_api-Sound api _ w a (
      step-Sound (KeyCall.verify_pin app user_type pin) _ w (λ t. refl) h
        (λ _ w1 h1.
          step-Sound (KeyCall.create_container app sm2_container) _ w1 (λ t. refl) h1
            (λ con w2 h2.
              step-Sound (KeyCall.gen_ecc_key_pair con.handle sgd_sm2_1) _ w2 (λ t. refl) h2
                (λ key w3 h3.
                  sign_and_verify-Sound dev con.handle key.bytes feitian (pure (code 0)) w3 h3
                    (λ w4 h4. returns (sym h4))))))
