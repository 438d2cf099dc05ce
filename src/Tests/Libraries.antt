-- ===== src/Tests/Libraries.antt =====
-- Libraries that do what the provider asks of them, a store of two certificates, and states.
use make_down_file.Prelude.{
  ℕ, ◌+◌, ◌<◌, refl, ap, true, false, none, some, List, [], ◌∷◌, arith, length, head?, ◌==◌,
  if◌then◌else◌,
}
use make_down_file.Cng.World.{sha256, no_flags, pad_pss, KeyProperty, provider_handle, World}
use make_down_file.Cng.Env.{Acquired, RsaBlob, Env}
use make_down_file.Cng.KeyMgmt.{Selection}
use make_down_file.Cng.KeyMgmt.Export.{FullBlobs}
use make_down_file.Cng.Store.{StoreCtx}
use make_down_file.Cng.Store.Keys.{Enumerates, WritesHandle, with_key}
use make_down_file.Cng.Signature.{SigCtx}

abbrev pub two_certs : List ℕ
two_certs = 7 ∷ 8 ∷ []

abbrev pub key_of : ℕ → Acquired
key_of c = record {
  retval = true;
  is_ncrypt_key_spec = true;
  caller_must_free = true;
  key_handle = some (100 + c);
}

abbrev pub blob : RsaBlob
blob = record { cb_public_exp = 3; cb_modulus = 4; bytes = 1 ∷ 0 ∷ 1 ∷ 9 ∷ 8 ∷ 7 ∷ 6 ∷ [] }

-- A provider handle has eight bytes, and a DWORD four.
abbrev pub written_for : KeyProperty → ℕ
written_for provider_handle = 8
written_for _ = 4

-- A store of two certificates with usable keys, and libraries that do what they are asked.
abbrev pub willing : Env
willing = record {
  memory = λ n. true;
  cert_open_system_store = λ t name. some 60;
  cert_enum_certificates_in_store =
      λ t store prev. elim prev [ none ↦ some 7 | some c ↦ if c == 7 then some 8 else none ];
  crypt_acquire_certificate_private_key = λ t c. key_of c;
  cert_close_store = λ t store. true;
  ncrypt_get_property = λ t h p. record {
    success = true;
    written = written_for p;
    value = 2048;
    text = b'k' ∷ 0 ∷ [];
  };
  ncrypt_open_key = λ t provider name spec. some 90;
  ncrypt_export_size = λ t h. some 24;
  ncrypt_export_key = λ t h. some blob;
  ncrypt_sign_hash = λ t h padding flags hash. some 256;
  bcrypt_duplicate_hash = λ t h. some 80;
  bcrypt_open_algorithm_provider = λ t alg. some 81;
  bcrypt_create_hash = λ t alg. some 82;
  bcrypt_hash_data = λ t h bytes. true;
  bcrypt_hash_length = λ t h. some (32, 4);
  bcrypt_finish_hash = λ t h. some (5 ∷ 6 ∷ []);
  evp_md_fetch =
      λ t name. some (record { is_sha2_256 = true; is_sha2_384 = false; is_sha2_512 = false });
  param_set = λ t p v. true;
  callback = λ t o. true;
}

pub willing-Enumerates : (h : ℕ) → Enumerates willing h two_certs
willing-Enumerates h t [] post e = ap head? e
willing-Enumerates h t (a ∷ []) post e = ground arith
willing-Enumerates h t (a ∷ b ∷ []) post e = ground arith
willing-Enumerates h t (a ∷ b ∷ c ∷ pre) post e = ground arith

abbrev pub garbage : StoreCtx
garbage = record {
  addr = 0;
  expected_parameter_type = 77;
  windows_certificate_store = 77;
  prev_cert_ctx = some 77;
  cert_store_eof = false;
  prev_key_cert_ctx = some 77;
  key = 77;
  priv_key_store_eof = false;
  windows_system_store_name = none;
}

abbrev pub cng_my : List ℕ
cng_my = b'c' ∷ b'n' ∷ b'g' ∷ b':' ∷ b'/' ∷ b'/' ∷ b'M' ∷ b'Y' ∷ []

abbrev pub start : World
start = record { next = 1; blocks = []; windows_key_handle = λ k. 55; digests = 0; calls = [] }

abbrev pub with_key_object : World
with_key_object = record {
  next = 3;
  blocks = 2 ∷ 1 ∷ [];
  windows_key_handle = λ k. 55;
  digests = 0;
  calls = [];
}

abbrev pub context : SigCtx
context = record {
  addr = 1;
  provctx = none;
  propq = none;
  alg_identifier = some sha256;
  key = some 2;
  hash_handle = some 82;
  sign_hash_flags = no_flags;
  pss_salt_len = 32;
}

abbrev pub pss_context : SigCtx
pss_context = record context { sign_hash_flags = pad_pss }

abbrev pub public_only : Selection
public_only = record {
  private_key = false;
  public_key = true;
  domain_parameters = false;
  other_parameters = false;
}

pub enough_rounds : length two_certs + length (with_key key_of two_certs) + 1 < 6
unfolding with_key
enough_rounds = omega arith

pub willing-FullBlobs : FullBlobs willing
willing-FullBlobs t h pb e = ground arith

pub willing-WritesHandle : WritesHandle key_of (λ c. 100 + c) two_certs
willing-WritesHandle = (λ c u. refl, λ pre post c e k. (100 + c, refl))
