-- ===== src/Tests/Cng.antt =====
-- The provider on concrete libraries.
use make_down_file.Prelude.{
  ℕ, ◌+◌, ◌-◌, ◌≡◌, ◌⊎◌, refl, inr, true, false, none, some, List, [], ◌∷◌, ◌++◌, arith, reverse,
  take, replicate, head?,
}
use make_down_file.Run.{Returns, Ends}
use make_down_file.Cng.World.{sha256}
use make_down_file.Cng.KeyMgmt.{
  rsa_modulus_size_to_strength_bits, reverse_loop, cng_keymgmt_dup, cng_keymgmt_export,
}
use make_down_file.Cng.KeyMgmt.Strength.{sp800_57, strength-sp800_57}
use make_down_file.Cng.KeyMgmt.Reverse.{reverse_loop-take}
use make_down_file.Cng.KeyMgmt.Export.{Export, cng_keymgmt_export-Ends}
use make_down_file.Cng.KeyMgmt.Duplicate.{cng_keymgmt_dup-Ends}
use make_down_file.Cng.Store.Keys.{delivered}
use make_down_file.Cng.Store.Steps.{contents}
use make_down_file.Cng.Store.Contents.{
  read_store, open_and_close, ClosedOrRefused, open_and_close-blocks,
}
use make_down_file.Cng.Signature.{
  pss, integer, utf8_string, SigParams, explicit, cng_signature_dupctx,
  cng_signature_digest_sign_final,
}
use make_down_file.Cng.Signature.Final.{
  Released, finished, sign_call, digest_sign_final-Ends, set_and_sign, set_and_sign-text_pss,
}
use make_down_file.Cng.Signature.Session.{sign_message}
use make_down_file.Cng.Signature.Duplicate.{
  CopyOf, dupctx-CopyOf, dup_and_free, dup_and_free-blocks,
}
use make_down_file.Cng.Signature.Success.{Supports, Signed, plain_params, sign_message-signs}
use make_down_file.Cng.Signature.{bcrypt_name}
use make_down_file.Cng.KeyMgmt.Success.{Reopens, cng_keymgmt_dup-opens, cng_keymgmt_export-public}
use make_down_file.Cng.KeyMgmt.Export.{Handed, three_blocks, public_of}
use make_down_file.Cng.World.{World}
use make_down_file.Cng.Store.Keys.{with_key, Enumerates}
use make_down_file.Cng.Store.Source.{Source, next, Gives, cng_store_load-next}
use make_down_file.Run.{fault}
use make_down_file.Cng.Store.{
  load_another_privkey_from_store_into_context, StoreCtx, are_store_open_args_ok,
  parse_uri_from_store_open,
}
use make_down_file.Cng.Store.Unwritten.{load_privkey-unwritten}
use make_down_file.Cng.Store.Delivery.{NamesStore, read_store-delivers}
use make_down_file.Cng.Env.{Digest, Acquired, Env}
use make_down_file.Cng.Provider.Lifetime.{load_and_unload, load_and_unload-blocks}
use make_down_file.Tests.Libraries.{
  two_certs, key_of, blob, willing, willing-Enumerates, garbage, cng_my, start, with_key_object,
  context, pss_context, public_only, enough_rounds, willing-FullBlobs, willing-WritesHandle,
}

open_and_close-blocks_example :
    Returns
      (ClosedOrRefused willing start)
      (open_and_close willing 3 garbage (some 40) (some cng_my) start)
open_and_close-blocks_example =
    open_and_close-blocks willing 3 two_certs key_of (λ c. 100 + c) garbage (some 40) (some cng_my)
      start willing-Enumerates (λ t c. refl) willing-WritesHandle (λ t key h. refl) (omega arith)

cng_keymgmt_export-Ends_example :
    Ends
      (Export willing (with_key_object.windows_key_handle 2) public_only with_key_object)
      (cng_keymgmt_export willing 2 public_only with_key_object)
cng_keymgmt_export-Ends_example =
    cng_keymgmt_export-Ends willing 2 public_only with_key_object willing-FullBlobs

cng_keymgmt_dup-Ends_example :
    Ends
      (λ r w'.
        ((r ≡ none) ⊎ (r ≡ some with_key_object.next))
        × (w'.blocks ≡ with_key_object.next ∷ with_key_object.blocks)
        × ((k : ℕ)
            → (k ≡ with_key_object.next)
              ⊎ (w'.windows_key_handle k ≡ with_key_object.windows_key_handle k)))
      (cng_keymgmt_dup willing (some 2) with_key_object)
cng_keymgmt_dup-Ends_example = cng_keymgmt_dup-Ends willing 2 with_key_object refl

strength-sp800_57_example : rsa_modulus_size_to_strength_bits 3072 ≡ sp800_57 (3072 - 1)
strength-sp800_57_example = strength-sp800_57 3072

reverse_loop-take_example :
    reverse_loop 3 0 blob.bytes 3 (replicate 3 0) ≡ some (reverse (take 3 blob.bytes))
reverse_loop-take_example = reverse_loop-take blob.bytes 3 (omega arith)

digest_sign_final-Ends_example :
    Ends
      (λ siglen w'.
        Released willing with_key_object w'
        × ((siglen ≡ none)
            ⊎ (head? w'.calls
                ≡ sign_call pss_context
                    (with_key_object.windows_key_handle 2)
                    true
                    (finished willing pss_context with_key_object))))
      (cng_signature_digest_sign_final willing pss_context true with_key_object)
digest_sign_final-Ends_example =
    digest_sign_final-Ends willing pss_context 2 true with_key_object refl

set_and_sign-text_pss_example :
    Ends
      (λ r w'. (r ≡ (true, none)) × (w'.blocks ≡ with_key_object.blocks))
      (set_and_sign willing context (utf8_string pss) with_key_object)
set_and_sign-text_pss_example = set_and_sign-text_pss willing context with_key_object refl

abbrev sign_params : SigParams
sign_params = record { pad_mode = some (integer pss); salt_len = some (explicit 32) }

abbrev message : List (List ℕ)
message = (1 ∷ 2 ∷ []) ∷ (3 ∷ []) ∷ []

dupctx-CopyOf_example :
    Ends
      (CopyOf willing pss_context with_key_object)
      (cng_signature_dupctx willing pss_context with_key_object)
dupctx-CopyOf_example = dupctx-CopyOf willing pss_context 2 with_key_object refl refl refl

dup_and_free-blocks_example :
    Ends
      (λ copied w'.
        (copied ≡ none) ⊎ (w'.blocks ≡ (with_key_object.next + 1) ∷ with_key_object.blocks))
      (dup_and_free willing pss_context with_key_object)
dup_and_free-blocks_example =
    dup_and_free-blocks willing pss_context 2 with_key_object refl refl refl

load_and_unload-blocks_example :
    Ends (λ told w'. w'.blocks ≡ start.blocks) (load_and_unload willing 5 (λ p. true) start)
load_and_unload-blocks_example = load_and_unload-blocks willing 5 (λ p. true) start

cng_my-NamesStore : NamesStore cng_my
unfolding parse_uri_from_store_open
cng_my-NamesStore ctx = refl

args_ok : are_store_open_args_ok (some 40) (some cng_my) ≡ true
unfolding are_store_open_args_ok
args_ok = refl

abbrev sha2_256 : Digest
sha2_256 = record { is_sha2_256 = true; is_sha2_384 = false; is_sha2_512 = false }

known : bcrypt_name sha2_256 ≡ some sha256
unfolding bcrypt_name
known = refl

read_store-delivers_example :
    Returns
      (λ k v.
        (key : ℕ) × (k ≡ some key)
        × (delivered v.calls
            ≡ delivered start.calls ++ contents key_of (λ c. 100 + c) key two_certs two_certs))
      (read_store willing 3 6 garbage (some 40) (some cng_my) start)
read_store-delivers_example =
    read_store-delivers willing 3 6 two_certs key_of (λ c. 100 + c) garbage (some 40) cng_my 60
      start willing-Enumerates (λ t c. refl) willing-WritesHandle (λ t key h. refl) (omega arith)
      enough_rounds args_ok cng_my-NamesStore (λ t name. refl) refl refl

willing-Supports : Supports willing 256
willing-Supports = record {
  grants = λ k. refl;
  fetches = λ t name. (sha2_256, sha256, refl, known);
  algorithm = 81;
  opens = λ t alg. refl;
  hash = 82;
  creates = λ t a. refl;
  hashes = λ t h bytes. refl;
  hash_length = (32, 4);
  measures = λ t h. refl;
  digest = λ t h. 5 ∷ 6 ∷ [];
  finishes = λ t h. refl;
  signs = λ t h padding flags digest. refl;
}

sign_message-signs_example :
    Returns
      (Signed willing 256 willing-Supports 2 true 32 message start)
      (sign_message willing (some (1 ∷ [])) (some 2) (plain_params true 32) message start)
sign_message-signs_example =
    sign_message-signs willing 256 willing-Supports (1 ∷ []) 2 true 32 message start

willing-Reopens : Reopens willing 90
willing-Reopens = record {
  reports = λ t old p. refl;
  flags_in_full = λ t old. refl;
  provider_in_full = λ t old. refl;
  opens = λ t provider name flags. refl;
}

cng_keymgmt_dup-opens_example :
    Ends
      (λ r w'.
        (r ≡ some with_key_object.next)
        × (w'.windows_key_handle with_key_object.next ≡ 90)
        × (w'.blocks ≡ with_key_object.next ∷ with_key_object.blocks))
      (cng_keymgmt_dup willing (some 2) with_key_object)
cng_keymgmt_dup-opens_example =
    cng_keymgmt_dup-opens willing 90 willing-Reopens 2 with_key_object refl

cng_keymgmt_export-public_example :
    Ends
      (λ r w'.
        Handed willing with_key_object (three_blocks willing with_key_object) (public_of blob) w')
      (cng_keymgmt_export willing 2 public_only with_key_object)
cng_keymgmt_export-public_example =
    cng_keymgmt_export-public willing blob (omega arith) 2 public_only with_key_object refl refl
      ((λ t. (24, refl)), (λ t. refl)) refl refl refl

-- The opened store of two certificates: both, and then both keys, are still to come.
abbrev opened_store : StoreCtx
opened_store = record garbage {
  windows_certificate_store = 60;
  prev_cert_ctx = some 7;
  cert_store_eof = false;
  prev_key_cert_ctx = some 7;
  key = 2;
  priv_key_store_eof = false;
}

abbrev key_ready : World
key_ready = record {
  next = 3;
  blocks = 2 ∷ 1 ∷ [];
  windows_key_handle = λ k. 107;
  digests = 0;
  calls = [];
}

abbrev two_left : Source
two_left = record { certs = two_certs; keys = two_certs }

both_keys : two_certs ≡ 7 ∷ with_key key_of (8 ∷ [])
unfolding with_key
both_keys = refl

cng_store_load-next_example :
    Gives willing 3 two_certs key_of
      (λ c. 100 + c)
      60
      (willing-Enumerates 60)
      (λ t c. refl)
      willing-WritesHandle
      (λ t key h. refl)
      (omega arith)
      (next (λ c. 100 + c) 2 two_left)
      opened_store
      key_ready
cng_store_load-next_example =
    cng_store_load-next willing 3 two_certs key_of (λ c. 100 + c) 60 (willing-Enumerates 60)
      (λ t c. refl) willing-WritesHandle (λ t key h. refl) (omega arith) two_left opened_store
      key_ready
      (refl, (refl, refl, ([], refl)), inr (7, [], 8 ∷ [], refl, both_keys, refl, refl, refl))

-- A store of the two certificates, neither of which has a key.
abbrev no_key : ℕ → Acquired
no_key c = record {
  retval = false;
  is_ncrypt_key_spec = false;
  caller_must_free = false;
  key_handle = none;
}

abbrev keyless : Env
keyless = record willing { crypt_acquire_certificate_private_key = λ t c. no_key c }

keyless-Enumerates : (h : ℕ) → Enumerates keyless h two_certs
keyless-Enumerates h t pre post e = willing-Enumerates h t pre post e

no_keys : with_key no_key two_certs ≡ []
unfolding with_key
no_keys = refl

load_privkey-unwritten_example :
    load_another_privkey_from_store_into_context keyless 3
      (record opened_store { prev_key_cert_ctx = none })
      start
    ≡ fault
load_privkey-unwritten_example =
    load_privkey-unwritten keyless two_certs no_key 60 (keyless-Enumerates 60) (λ t c. refl) 3 []
      (7 ∷ []) 8 [] (record opened_store { prev_key_cert_ctx = none }) start refl refl refl no_keys
      refl (omega arith)
