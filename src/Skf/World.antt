-- ===== src/Skf/World.antt =====
-- What the token test program acts on: the heap, the static table of GetSKFAPI, and the calls made
-- of the token library and of the loader. The token's answers are parameters.
use make_down_file.Prelude.{
  ℕ, ◌+◌, Bool, Option, none, some, List, ◌∷◌, String, if◌then◌else◌, has, erase,
}
use make_down_file.Run.{Cmd, ok, fault}

-- The calls of the key tests: of the token, and of OpenSSL for the files they write.
pub data KeyCall : Type 0 where
  verify_pin : ℕ → ℕ → List ℕ → KeyCall
  create_container : ℕ → List ℕ → KeyCall
  get_container_type : ℕ → KeyCall
  gen_rsa_key_pair : ℕ → ℕ → KeyCall
  gen_ecc_key_pair : ℕ → ℕ → KeyCall
  export_public_key : ℕ → Bool → KeyCall
  digest_init : ℕ → ℕ → List ℕ → List ℕ → KeyCall
  digest : ℕ → List ℕ → KeyCall
  rsa_sign_data : ℕ → List ℕ → KeyCall
  rsa_verify : ℕ → List ℕ → List ℕ → List ℕ → KeyCall
  ecc_sign_data : ℕ → List ℕ → KeyCall
  ecc_verify : ℕ → List ℕ → List ℕ → List ℕ → KeyCall
  ecc_export_session_key : ℕ → ℕ → List ℕ → KeyCall
  encrypt_init encrypt_final : ℕ → KeyCall
  encrypt_update : ℕ → List ℕ → KeyCall
  import_ecc_key_pair : ℕ → List ℕ → List ℕ → KeyCall
  import_session_key : ℕ → ℕ → List ℕ → KeyCall
  close_application disconnect_dev : ℕ → KeyCall
  new_mem_buf new_file : List ℕ → KeyCall
  d2i_x509_bio bio_free x509_free : ℕ → KeyCall
  pem_write_bio_x509 : ℕ → ℕ → KeyCall

-- Names are lists of bytes, without the terminator. `Bool` tells a call with a buffer from one that
-- asks for the length.
pub data Call : Type 0 where
  load_library : Call
  get_proc_address : String → Call
  free_library : ℕ → Call
  enum_dev : Bool → Call
  connect_dev : List ℕ → Call
  enum_application : ℕ → Bool → Call
  open_application : ℕ → List ℕ → Call
  enum_container : ℕ → Bool → Call
  open_container : ℕ → List ℕ → Call
  export_certificate : ℕ → Bool → Bool → Call
  d2i_x509 : List ℕ → Call
  common_name : ℕ → Call
  key_call : KeyCall → Call

-- SKF_Enum…: the status (SAR_OK is 0), the length reported, and what the caller's block then holds.
pub record Listing : Type 0 where
  pub rv : ℕ
  pub len : ℕ
  pub mem : List ℕ

-- SKF_Open… and SKF_ConnectDev: the status and the handle.
pub record Opened : Type 0 where
  pub rv : ℕ
  pub handle : ℕ

pub record Token : Type 0 where
  pub memory : ℕ → Bool
  pub load_library : List Call → Option ℕ
  pub get_proc_address : List Call → String → Bool
  pub enum_dev : List Call → Listing
  pub connect_dev : List Call → List ℕ → Opened
  pub enum_application : List Call → ℕ → Listing
  pub open_application : List Call → ℕ → List ℕ → Opened
  pub enum_container : List Call → ℕ → Listing
  pub open_container : List Call → ℕ → List ℕ → Opened
  pub export_certificate : List Call → ℕ → Bool → Listing
  pub d2i_x509 : List Call → List ℕ → Option ℕ

-- The answer to a call of the key tests: the status or result, the handle or pointer (0 is NULL), and
-- the bytes put out.
pub record Reply : Type 0 where
  pub rv : ℕ
  pub handle : ℕ
  pub bytes : List ℕ

pub record Keys : Type 0 where
  pub token : Token
  pub reply : List Call → KeyCall → Reply

pub record World : Type 0 where
  pub next : ℕ
  pub blocks : List ℕ
  pub api : Option ℕ
  pub calls : List Call

abbrev pub M : Type 0 → Type 0
M A = Cmd World A

unfoldable pub call : {A : Type 0} → Call → (List Call → A) → M A
call c answer w = ok (answer w.calls) (record w { calls = c ∷ w.calls })

-- `memory n` says whether the n-th block is granted.
unfoldable pub malloc : (ℕ → Bool) → M (Option ℕ)
malloc memory w =
    if memory w.next
    then ok (some w.next) (record w { next = w.next + 1; blocks = w.next ∷ w.blocks })
    else ok none (record w { next = w.next + 1 })

-- `free` of a live block; of any other it is undefined.
unfoldable pub free : ℕ → M (Unit {0})
free p w = if has p w.blocks then ok tt (record w { blocks = erase p w.blocks }) else fault

unfoldable pub get_api : M (Option ℕ)
get_api w = ok w.api w

unfoldable pub set_api : Option ℕ → M (Unit {0})
set_api a w = ok tt (record w { api = a })

-- The target of a pointer that the code does not test.
unfoldable pub from_option : {A : Type 0} → Option A → M A
from_option none w = fault
from_option (some a) w = ok a w

unfoldable pub undefined : {A : Type 0} → M A
undefined w = fault
