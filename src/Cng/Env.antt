-- ===== src/Cng/Env.antt =====
-- The libraries that the provider calls: Windows (ncrypt, bcrypt, wincrypt) and the OpenSSL core.
-- Each field is the answer of one function, given the calls made before it and its arguments;
-- `none` is a status other than success. NCryptSignHash is given the bytes of the hash, or `none` when
-- it is only asked for the length, with a buffer that was never written. The hash length comes with the number of bytes received.
use make_down_file.Prelude.{ℕ, Bool, Option, List}
use make_down_file.Cng.World.{
  StoreName, BcryptAlg, PadFlags, PaddingInfo, Object, KeyProperty, Param, Call,
}

-- NCryptGetProperty: the status, the number of bytes written, and the value as a number or a text.
pub record Property : Type 0 where
  pub success : Bool
  pub written : ℕ
  pub value : ℕ
  pub text : List ℕ

-- CryptAcquireCertificatePrivateKey: the handle is `none` if it was not written.
pub record Acquired : Type 0 where
  pub retval : Bool
  pub is_ncrypt_key_spec : Bool
  pub caller_must_free : Bool
  pub key_handle : Option ℕ

-- A BCRYPT_RSAKEY_BLOB: two lengths of its header, and the bytes behind the header.
pub record RsaBlob : Type 0 where
  pub cb_public_exp : ℕ
  pub cb_modulus : ℕ
  pub bytes : List ℕ

-- The digest that EVP_MD_fetch finds, as EVP_MD_is_a tells its name.
pub record Digest : Type 0 where
  pub is_sha2_256 : Bool
  pub is_sha2_384 : Bool
  pub is_sha2_512 : Bool

pub record Env : Type 0 where
  pub memory : ℕ → Bool
  pub cert_open_system_store : List Call → Option StoreName → Option ℕ
  pub cert_enum_certificates_in_store : List Call → ℕ → Option ℕ → Option ℕ
  pub crypt_acquire_certificate_private_key : List Call → ℕ → Acquired
  pub cert_close_store : List Call → ℕ → Bool
  pub ncrypt_get_property : List Call → ℕ → KeyProperty → Property
  pub ncrypt_open_key : List Call → ℕ → Option (List ℕ) → ℕ → Option ℕ
  pub ncrypt_export_size : List Call → ℕ → Option ℕ
  pub ncrypt_export_key : List Call → ℕ → Option RsaBlob
  pub ncrypt_sign_hash : List Call → ℕ → PaddingInfo → PadFlags → Option (List ℕ) → Option ℕ
  pub bcrypt_duplicate_hash : List Call → Option ℕ → Option ℕ
  pub bcrypt_open_algorithm_provider : List Call → Option BcryptAlg → Option ℕ
  pub bcrypt_create_hash : List Call → ℕ → Option ℕ
  pub bcrypt_hash_data : List Call → Option ℕ → List ℕ → Bool
  pub bcrypt_hash_length : List Call → Option ℕ → Option (ℕ × ℕ)
  pub bcrypt_finish_hash : List Call → Option ℕ → Option (List ℕ)
  pub evp_md_fetch : List Call → List ℕ → Option Digest
  pub param_set : List Call → Param → ℕ → Bool
  pub callback : List Call → Object → Bool
