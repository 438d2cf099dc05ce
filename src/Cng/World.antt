-- ===== src/Cng/World.antt =====
-- What the provider's code acts on: the heap of `malloc` and `free`, the key objects that live on
-- it, and the calls made of Windows (CNG and the certificate store) and of the OpenSSL core. The
-- answers of those libraries are parameters: functions of the calls made so far.
use make_down_file.Prelude.{
  ℕ, ◌+◌, Bool, Option, none, some, List, ◌∷◌, ◌==◌, if◌then◌else◌, has, erase,
}
use make_down_file.Run.{Cmd, ok, fault}

-- The names of system stores that a URI can select.
pub data StoreName : Type 0 where
  ca my root : StoreName

-- Digest identifiers of CNG that the provider knows.
pub data BcryptAlg : Type 0 where
  sha256 sha384 sha512 : BcryptAlg

-- `sign_hash_flags`: 0, BCRYPT_PAD_PSS or BCRYPT_PAD_PKCS1.
pub data PadFlags : Type 0 where
  no_flags pad_pss pad_pkcs1 : PadFlags

-- The padding structure handed to NCryptSignHash.
pub data PaddingInfo : Type 0 where
  no_padding : PaddingInfo
  pss_padding : Option BcryptAlg → ℕ → PaddingInfo
  pkcs1_padding : Option BcryptAlg → PaddingInfo

-- What a callback of the core is handed: an encoded certificate, a reference to a key object with
-- the handle in it, the two big numbers of an RSA public key, or no parameters.
pub data Object : Type 0 where
  cert : ℕ → Object
  pkey : ℕ → ℕ → Object
  rsa_public : List ℕ → List ℕ → Object
  null_params : Object

-- Properties read by NCryptGetProperty.
pub data KeyProperty : Type 0 where
  key_type provider_handle name length : KeyProperty

-- Keys of the OSSL_PARAM arrays that the core hands in.
pub data Param : Type 0 where
  prov_name prov_version prov_buildinfo prov_status : Param
  pkey_bits pkey_security_bits pkey_max_size : Param

pub data Call : Type 0 where
  cert_open_system_store : Option StoreName → Call
  cert_enum_certificates_in_store : ℕ → Option ℕ → Call
  crypt_acquire_certificate_private_key : ℕ → Call
  cert_close_store : ℕ → Call
  ncrypt_free_object : Option ℕ → Call
  ncrypt_get_property : ℕ → KeyProperty → Call
  ncrypt_open_key : ℕ → Option (List ℕ) → ℕ → Call
  ncrypt_export_key : ℕ → Call
  ncrypt_sign_hash : ℕ → PaddingInfo → PadFlags → Option (List ℕ) → Call
  bcrypt_duplicate_hash : Option ℕ → Call
  bcrypt_destroy_hash : Option ℕ → Call
  bcrypt_open_algorithm_provider : Option BcryptAlg → Call
  bcrypt_create_hash : ℕ → Call
  bcrypt_close_algorithm_provider : ℕ → Call
  bcrypt_hash_data : Option ℕ → List ℕ → Call
  bcrypt_hash_length : Option ℕ → Call
  bcrypt_finish_hash : Option ℕ → Call
  evp_md_fetch : List ℕ → Call
  param_set : Param → ℕ → Call
  callback : Object → Call

-- `malloc` hands out the addresses in order; `blocks` are the live ones, newest first. The key
-- object at an address holds a Windows handle, 0 if it is unset. `digests` counts the objects of
-- EVP_MD_fetch that were not freed.
pub record World : Type 0 where
  pub next : ℕ
  pub blocks : List ℕ
  pub windows_key_handle : ℕ → ℕ
  pub digests : ℕ
  pub calls : List Call

abbrev pub M : Type 0 → Type 0
M A = Cmd World A

-- A call of a library: its answer depends on the calls before it.
unfoldable pub call : {A : Type 0} → Call → (List Call → A) → M A
call c answer w = ok (answer w.calls) (record w { calls = c ∷ w.calls })

-- `malloc`, which may fail: `memory n` says whether the n-th block is granted.
unfoldable pub malloc : (ℕ → Bool) → M (Option ℕ)
malloc memory w =
    if memory w.next
    then ok (some w.next) (record w { next = w.next + 1; blocks = w.next ∷ w.blocks })
    else ok none (record w { next = w.next + 1 })

-- `free` of a live block; of any other it is undefined.
unfoldable pub free : ℕ → M (Unit {0})
free p w = if has p w.blocks then ok tt (record w { blocks = erase p w.blocks }) else fault

unfoldable pub free_opt : Option ℕ → M (Unit {0})
unfolding free
free_opt none w = ok tt w
free_opt (some p) w = free p w

unfoldable pub get_handle : ℕ → M ℕ
get_handle key w = ok (w.windows_key_handle key) w

unfoldable pub set_handle : ℕ → ℕ → M (Unit {0})
set_handle key h w =
    ok tt (record w { windows_key_handle = λ k. if k == key then h else w.windows_key_handle k })
