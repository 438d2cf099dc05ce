-- ===== src/Tests/Skf.antt =====
-- The token program on a concrete token.
use make_down_file.Prelude.{ℕ, ◌+◌, ◌≡◌, refl, true, none, some, List, [], ◌∷◌, arith, length}
use make_down_file.Run.{ok, fault, Ends, Returns}
use make_down_file.Skf.World.{KeyCall, Reply, Keys, Token, World}
use make_down_file.Skf.Keys.{key_pair_test, ras_key_pair_test}
use make_down_file.Skf.Keys.Import.{import_session_key_test}
use make_down_file.Skf.Keys.Checked.{all_ok, Sound, key_pair_test-Sound}
use make_down_file.Skf.Keys.Leak.{Left, import_session_key_test-Left}
use make_down_file.Skf.Api.{get_skf_api}
use make_down_file.Skf.Api.Loading.{Loaded, Table, get_skf_api-Loaded, get_skf_api-Table}
use make_down_file.Skf.Names.{open_loop, print_strings}
use make_down_file.Skf.Names.Encoded.{encode, open_each, open_loop-encode}
use make_down_file.Skf.Names.Printed.{print_strings-encode}
use make_down_file.Skf.Enumerate.{code, open_application, get_app_handles}
use make_down_file.Skf.Enumerate.Applications.{Given, listing, get_app_handles-Given}
use make_down_file.Skf.Enumerate.Opened.{Whole, get_app_handles-all}
use make_down_file.Skf.Copies.{get_container_names}
use make_down_file.Skf.Copies.Copied
use make_down_file.Skf.Copies.Copied.{get_container_names-Given}
use make_down_file.Skf.Main.{main_enumerate}
use make_down_file.Skf.Main.Unset.{main_enumerate-no_library}

abbrev two_names : List (List ℕ)
two_names = (b'A' ∷ b'p' ∷ []) ∷ (b'B' ∷ []) ∷ []

-- Lists two applications, and opens every name.
abbrev two_applications : Token
two_applications = record {
  memory = λ n. true;
  load_library = λ t. some 70;
  get_proc_address = λ t name. true;
  enum_dev = λ t. listing two_names;
  connect_dev = λ t name. record { rv = 0; handle = 30 };
  enum_application = λ t dev. listing two_names;
  open_application = λ t dev name. record { rv = 0; handle = 40 + length name };
  enum_container = λ t app. listing two_names;
  open_container = λ t app name. record { rv = 0; handle = 50 };
  export_certificate = λ t con sign. record { rv = 0; len = 0; mem = [] };
  d2i_x509 = λ t bytes. none;
}

-- Has no library.
abbrev no_library : Token
no_library = record two_applications { load_library = λ t. none }

abbrev start : World
start = record { next = 1; blocks = []; api = none; calls = [] }

abbrev with_table : World
with_table = record { next = 2; blocks = 1 ∷ []; api = some 1; calls = [] }

get_app_handles-Given_example :
    Ends
      (Given two_applications two_names with_table.blocks (with_table.next + 1))
      (get_app_handles two_applications 30 with_table)
get_app_handles-Given_example =
    get_app_handles-Given two_applications 30 two_names 1 with_table (λ t. refl) refl (tt, (tt, tt))
      (omega arith)

open_loop-encode_example :
    open_loop
      (open_application two_applications 30)
      2
      1
      (length (encode two_names) + 1)
      0
      (length (encode two_names))
      (encode two_names)
      []
      start
    ≡ open_each (open_application two_applications 30) two_names [] start
open_loop-encode_example =
    open_loop-encode (open_application two_applications 30) 2 (length (encode two_names) + 1) 0
      (length (encode two_names)) two_names [] start (tt, (tt, tt)) (omega arith) (omega arith)
      (omega arith)

print_strings-encode_example :
    print_strings 3 (encode two_names) (length (encode two_names)) 0 start ≡ ok two_names start
print_strings-encode_example =
    print_strings-encode 3 0 (length (encode two_names)) b'A' (b'p' ∷ []) ((b'B' ∷ []) ∷ []) start
      (tt, (tt, tt)) (omega arith) (omega arith)

get_skf_api-Loaded_example :
    Ends (Loaded two_applications start.blocks) (get_skf_api two_applications start)
get_skf_api-Loaded_example = get_skf_api-Loaded two_applications start refl

main_enumerate-no_library_example : main_enumerate no_library start ≡ fault
main_enumerate-no_library_example = main_enumerate-no_library no_library start refl refl refl

get_skf_api-Table_example :
    Returns
      (Table two_applications start.next (start.next ∷ start.blocks))
      (get_skf_api two_applications start)
get_skf_api-Table_example =
    get_skf_api-Table two_applications 70 start (λ t name. refl) refl refl refl

get_app_handles-all_example :
    Ends
      (Whole two_applications
        (λ name. 40 + length name)
        two_names
        with_table.blocks
        (with_table.next + 1))
      (get_app_handles two_applications 30 with_table)
get_app_handles-all_example =
    get_app_handles-all two_applications 30 two_names (λ name. 40 + length name) 1 with_table
      (λ t. refl) (λ t name. refl) refl (tt, (tt, tt)) (omega arith) refl refl

-- A result of 1 for PEM_write_bio_X509, a status of 0 for the others.
abbrev answer_to : KeyCall → Reply
answer_to (KeyCall.pem_write_bio_x509 bio cert) = record { rv = 1; handle = 60; bytes = [] }
answer_to c = record { rv = 0; handle = 60; bytes = 7 ∷ [] }

-- Every call succeeds; handles are 60, certificates of two bytes.
abbrev willing : Keys
willing = record {
  token = record two_applications {
    export_certificate = λ t con sign. record { rv = 0; len = 2; mem = 48 ∷ 0 ∷ [] };
  };
  reply = λ t c. answer_to c;
}

nothing_failed : all_ok willing with_table.calls ≡ true
unfolding all_ok
nothing_failed = refl

-- The key test ends with SAR_OK, and leaves its two blocks for certificates behind.
key_pair_test_test :
    Ends
      (λ r w'. (r ≡ code 0) × (w'.blocks ≡ 3 ∷ 2 ∷ 1 ∷ []))
      (key_pair_test willing 1 2 with_table)
unfolding key_pair_test
key_pair_test_test = (refl, refl)

-- RasKeyPairTest goes on with an unset handle if the container cannot be opened.
ras_key_pair_test_test :
    ras_key_pair_test
      (record willing {
        token = record two_applications {
          open_container = λ t app name. record { rv = 5; handle = 0 };
        };
      })
      1
      2
      with_table
    ≡ fault
unfolding ras_key_pair_test
ras_key_pair_test_test = refl

key_pair_test-Sound_example : Returns (Sound willing) (key_pair_test willing 1 2 with_table)
key_pair_test-Sound_example = key_pair_test-Sound willing 1 2 1 with_table refl nothing_failed

import_session_key_test-Left_example :
    Ends
      (Left with_table.blocks (with_table.next + 1))
      (import_session_key_test willing 1 2 with_table)
import_session_key_test-Left_example =
    import_session_key_test-Left willing 1 2 1 with_table refl refl refl

get_container_names-Given_example :
    Ends
      (Copied.Given two_applications two_names with_table.blocks (with_table.next + 1))
      (get_container_names two_applications 40 with_table)
get_container_names-Given_example =
    get_container_names-Given two_applications 40 two_names 1 with_table (λ t. refl) refl
      (tt, (tt, tt)) (omega arith)
