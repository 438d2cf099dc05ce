-- ===== src/Netc/World.antt =====
-- What the text helpers act on: the heap, and the calls made of OpenSSL's BIOs and names and of the
-- two conversions to GBK. The answers of those libraries are parameters.
use make_down_file.Prelude.{ℕ, ◌+◌, Bool, Option, none, some, List, ◌∷◌, if◌then◌else◌, has, erase}
use make_down_file.Run.{Cmd, ok, fault}

pub data Call : Type 0 where
  bio_new : Call
  bio_write : ℕ → List ℕ → Call
  bio_read : ℕ → ℕ → Call
  bio_free : ℕ → Call

-- The types of ASN.1 strings that the code tells apart.
pub data Asn1Type : Type 0 where
  bmpstring utf8string printablestring other_string : Asn1Type

pub record Asn1String : Type 0 where
  pub type : Asn1Type
  pub bytes : List ℕ

-- The fields of a name that the code asks for.
pub data Nid : Type 0 where
  common_name organizational_unit_name : Nid

-- `none` is -1 or NULL. A name is known by its address, an entry of it by its index.
pub record Lib : Type 0 where
  pub memory : ℕ → Bool
  pub bio_new : List Call → Option ℕ
  pub bio_write : List Call → ℕ → List ℕ → Bool
  pub bio_read : List Call → ℕ → ℕ → List ℕ
  pub get_index_by_nid : ℕ → Nid → Option ℕ → Option ℕ
  pub get_entry_data : ℕ → ℕ → Option Asn1String
  pub unicode_to_gbk : List ℕ → Option (List ℕ)
  pub utf8_to_gbk : List ℕ → Option (List ℕ)
  pub get_text_by_nid : ℕ → List ℕ → List ℕ
  pub issuer_name : ℕ → ℕ
  pub subject_name : ℕ → ℕ

pub record World : Type 0 where
  pub next : ℕ
  pub blocks : List ℕ
  pub calls : List Call

abbrev pub M : Type 0 → Type 0
M A = Cmd World A

unfoldable pub call : {A : Type 0} → Call → (List Call → A) → M A
call c answer w = ok (answer w.calls) (record w { calls = c ∷ w.calls })

-- `memory n` says whether the n-th block is granted.
unfoldable pub malloc : (ℕ → Bool) → M (Option ℕ)
malloc memory w =
    if memory w.next
    then ok (some w.next) (record w { next = w.next + 1; blocks = w.next ∷ w.blocks })
    else ok none (record w { next = w.next + 1 })

-- `free` of a live block; of any other it is undefined.
unfoldable pub free : ℕ → M (Unit {0})
free p w = if has p w.blocks then ok tt (record w { blocks = erase p w.blocks }) else fault

-- An access that the code does not guard.
unfoldable pub from_option : {A : Type 0} → Option A → M A
from_option none w = fault
from_option (some a) w = ok a w
