-- ===== src/Tests/Netc.antt =====
-- The text helpers of the TLS client on a name with two common names, the second one in UTF-16.
use make_down_file.Prelude.{
  ℕ, zero, suc, ◌≡◌, refl, true, Option, none, some, List, [], ◌∷◌, ◌++◌, arith, take, replicate,
}
use make_down_file.Run.{ok, Returns}
use make_down_file.Netc.World.{
  Call, bio_new, Asn1String, bmpstring, printablestring, Nid, common_name, organizational_unit_name,
  Lib, World,
}
use make_down_file.Netc.Text.{
  netc_change_endian_order, netc_ssl_x509_asn1_string_print, netc_ssl_x509_extrat_text_by_nid,
}
use make_down_file.Netc.Text.Endian.{swap_pairs, netc_change_endian_order-netc_change_endian_order}
use make_down_file.Netc.Text.Print.{
  in_bio, small_writes, Printed, netc_ssl_x509_asn1_string_print-Printed,
}
use make_down_file.Netc.Text.Extract.{MemoryBio, Result, netc_ssl_x509_extrat_text_by_nid-wanted}
use make_down_file.Netc.Text.Bounds.{KeptOut, netc_ssl_x509_extrat_text_by_nid-Kept}
use make_down_file.Netc.Text.Index.{Lists}

abbrev bio_if_empty : List ℕ → Option ℕ
bio_if_empty [] = some 7
bio_if_empty (c ∷ cs) = none

-- Two common names, no unit.
abbrev next_index : Nid → Option ℕ → Option ℕ
next_index common_name none = some 0
next_index common_name (some zero) = some 2
next_index common_name (some (suc i)) = none
next_index organizational_unit_name i = none

abbrev entry : ℕ → Option Asn1String
entry zero = some (record { type = printablestring; bytes = b'o' ∷ b'l' ∷ b'd' ∷ [] })
entry (suc i) = some (record { type = bmpstring; bytes = 0 ∷ b'C' ∷ 0 ∷ b'A' ∷ [] })

-- Keeps the first byte of each pair, as for text within ASCII.
abbrev low_bytes : List ℕ → List ℕ
low_bytes [] = []
low_bytes (a ∷ []) = []
low_bytes (a ∷ b ∷ rest) = a ∷ low_bytes rest

abbrev library : Lib
unfolding in_bio
library = record {
  memory = λ n. true;
  bio_new = λ t. bio_if_empty (in_bio 7 t);
  bio_write = λ t b bytes. true;
  bio_read = λ t b n. take n (in_bio b t);
  get_index_by_nid = λ name. next_index;
  get_entry_data = λ name. entry;
  unicode_to_gbk = λ bytes. some (low_bytes bytes);
  utf8_to_gbk = λ bytes. some bytes;
  get_text_by_nid = λ name buf. buf;
  issuer_name = λ cert. cert;
  subject_name = λ cert. cert;
}

abbrev start : World
start = record { next = 40; blocks = 3 ∷ []; calls = [] }

bio_if_empty-empty : (xs : List ℕ) (b : ℕ) → bio_if_empty xs ≡ some b → (xs ≡ []) × (b ≡ 7)
bio_if_empty-empty [] b e = (refl, ground arith)
bio_if_empty-empty (c ∷ cs) b e = ground arith

library-MemoryBio : MemoryBio library
unfolding in_bio library
library-MemoryBio = record {
  fresh = λ t b e. let h = bio_if_empty-empty (in_bio 7 t) b e in rw (h.1) (h.0);
  read = λ t b n. refl;
}

abbrev buffer : List ℕ
buffer = b'-' ∷ b'-' ∷ b'-' ∷ b'-' ∷ []

-- The extraction gives "CA", the last of the two names, with its terminator.
extract_test :
    netc_ssl_x509_extrat_text_by_nid library 3 (some 1) common_name (some buffer) 4 start
    ≡ ok
        (true, some (b'C' ∷ b'A' ∷ 0 ∷ b'-' ∷ []))
        (record start {
          next = 42;
          calls =
              Call.bio_free 7
              ∷ Call.bio_read 7 4
              ∷ Call.bio_write 7 (0 ∷ b'C' ∷ 0 ∷ b'A' ∷ [])
              ∷ bio_new
              ∷ [];
        })
unfolding netc_ssl_x509_extrat_text_by_nid library
extract_test = refl

common_names-Lists : Lists library 1 common_name none (0 ∷ 2 ∷ [])
unfolding Lists library
common_names-Lists = (refl, (refl, refl))

start-small : small_writes start.calls ≡ true
unfolding small_writes
start-small = refl

netc_ssl_x509_extrat_text_by_nid-wanted_example :
    Returns
      (Result library 1 4 buffer start (some 2))
      (netc_ssl_x509_extrat_text_by_nid library 3 (some 1) common_name (some buffer) 4 start)
netc_ssl_x509_extrat_text_by_nid-wanted_example =
    netc_ssl_x509_extrat_text_by_nid-wanted library library-MemoryBio 3 1 common_name (0 ∷ 2 ∷ [])
      buffer 3 start common_names-Lists (omega arith) start-small (omega arith)

netc_ssl_x509_extrat_text_by_nid-Kept_example :
    Returns
      (KeptOut library 4 buffer)
      (netc_ssl_x509_extrat_text_by_nid library 3 (some 1) common_name (some buffer) 4 start)
netc_ssl_x509_extrat_text_by_nid-Kept_example =
    netc_ssl_x509_extrat_text_by_nid-Kept library library-MemoryBio 3 1 common_name (0 ∷ 2 ∷ [])
      buffer 3 start common_names-Lists (omega arith) start-small (omega arith)

netc_change_endian_order-netc_change_endian_order_example :
    (netc_change_endian_order (1 ∷ 2 ∷ 3 ∷ 4 ∷ 5 ∷ 0 ∷ []) 5
      ≡ some (swap_pairs (1 ∷ 2 ∷ 3 ∷ 4 ∷ 5 ∷ []) ++ 0 ∷ []))
    × (netc_change_endian_order (swap_pairs (1 ∷ 2 ∷ 3 ∷ 4 ∷ 5 ∷ []) ++ 0 ∷ []) 5
        ≡ some (1 ∷ 2 ∷ 3 ∷ 4 ∷ 5 ∷ 0 ∷ []))
netc_change_endian_order-netc_change_endian_order_example =
    netc_change_endian_order-netc_change_endian_order (1 ∷ 2 ∷ 3 ∷ 4 ∷ 5 ∷ []) (0 ∷ [])

-- Ninety bytes: two writes.
netc_ssl_x509_asn1_string_print-Printed_example :
    Returns (Printed library 7 (replicate 90 65) start) (
      netc_ssl_x509_asn1_string_print library 7
        (some (record { type = printablestring; bytes = replicate 90 65 }))
        start)
netc_ssl_x509_asn1_string_print-Printed_example =
    netc_ssl_x509_asn1_string_print-Printed library 7
      (record { type = printablestring; bytes = replicate 90 65 }) start start-small
