-- ===== src/Netc/Text.antt =====
-- NETC_SSL_X509_ASN1_STRING_print, NETC_ChangeEndianOrder and NETC_SSL_X509ExtratTextByNID.
pub mod Endian
pub mod Print
pub mod Index
pub mod Put
pub mod Kept
pub mod Convert
pub mod Extract
pub mod Bounds
use make_down_file.Prelude.{
  ℕ, zero, suc, ◌+◌, ◌-◌, ◌/◌, Bool, true, false, not, ◌||◌, Option, none, some, List, [], ◌∷◌,
  ◌++◌, ◌==◌, ltb, leb, length, get_elem?, set, take, drop, replicate, if◌then◌else◌, is_some,
}
use make_down_file.Run.{ok, fault, out_of_fuel, pure, ◌>>=◌, ◌>>◌}
use make_down_file.Netc.World.{
  Call, Asn1Type, bmpstring, utf8string, printablestring, other_string, Asn1String, Nid, Lib, World,
  M, call, malloc, free, from_option,
}

-- The size of the buffer `acbuf`.
abbrev pub acbuf_size : ℕ
acbuf_size = 80

-- The loop of NETC_ChangeEndianOrder, with so many rounds left and the pointer at offset `p`; `none`
-- is an access outside of the buffer.
unfoldable pub endian_loop : ℕ → ℕ → List ℕ → Option (List ℕ)
endian_loop zero p buf = some buf
endian_loop (suc rounds) p buf = elim (get_elem? buf p) [
  | none ↦ none
  | some temp ↦ elim (get_elem? buf (p + 1)) [
    | none ↦ none
    | some second ↦ endian_loop rounds (p + 2) (set (set buf p second) (p + 1) temp)
  ]
]

unfoldable pub netc_change_endian_order : List ℕ → ℕ → Option (List ℕ)
unfolding endian_loop
netc_change_endian_order bmp_string bmp_string_len = endian_loop (bmp_string_len / 2) 0 bmp_string

-- The text with a terminator, if it fits into the first `size` bytes of the buffer; otherwise all
-- of these but the last are cleared.
unfoldable pub put_text : ℕ → List ℕ → List ℕ → List ℕ
put_text size buf text =
    if leb size (length text)
    then replicate (size - 1) 0 ++ drop (size - 1) buf
    else text ++ 0 ∷ drop (length text + 1) buf

module _ (lib : Lib) where
  unfoldable pub bio_write : ℕ → List ℕ → M Bool
  unfolding call
  bio_write bio bytes = call (Call.bio_write bio bytes) (λ t. lib.bio_write t bio bytes)

  -- The loop over the string's bytes; `acbuf` is the filled part of the buffer of that name. The
  -- result is that part at the end of the loop, or `none` for a return of -1.
  unfoldable pub print_loop : ℕ → List ℕ → List ℕ → M (Option (List ℕ))
  unfolding bio_write
  print_loop bio [] acbuf = pure (some acbuf)
  print_loop bio (c ∷ rest) acbuf = elim (ltb (length acbuf) acbuf_size) [
    | false ↦ (λ w. fault)
    | true ↦ elim (leb acbuf_size (length (acbuf ++ c ∷ []))) [
      | false ↦ print_loop bio rest (acbuf ++ c ∷ [])
      | true ↦ (do
        written ← bio_write bio (acbuf ++ c ∷ [])
        elim written [ false ↦ pure none | true ↦ print_loop bio rest [] ])
    ]
  ]

  -- `true` is a return of 0.
  unfoldable pub netc_ssl_x509_asn1_string_print : ℕ → Option Asn1String → M Bool
  unfolding bio_write print_loop
  netc_ssl_x509_asn1_string_print bio none = pure false
  netc_ssl_x509_asn1_string_print bio (some str) = do
    left ← print_loop bio str.bytes []
    elim left [
      | none ↦ pure false
      | some acbuf ↦ if ltb 0 (length acbuf) then bio_write bio acbuf else pure true
    ]

  -- `while (0 <= (iNextIndex = X509_NAME_get_index_by_NID(…)))`: the last index with the field.
  unfoldable pub last_index : ℕ → ℕ → Nid → Option ℕ → M (Option ℕ)
  last_index zero name nid current = λ w. out_of_fuel
  last_index (suc fuel) name nid current = elim (lib.get_index_by_nid name nid current) [
    | none ↦ pure current
    | some index ↦ last_index fuel name nid (some index)
  ]

  -- The `switch` over the string's type. `tmp` holds the string and a terminator. The result is the
  -- block of the converted text, if there is one, that text, and whether the function goes on.
  -- VOS_Utf8toGBK allocates its block itself.
  unfoldable pub convert : Asn1Type → List ℕ → ℕ → M (Option ℕ × List ℕ × Bool)
  unfolding malloc from_option netc_change_endian_order
  convert bmpstring tmp in_len = do
    block ← malloc lib.memory
    elim block [
      | none ↦ pure (none, [], false)
      | some p ↦ (do
        swapped ← from_option (netc_change_endian_order tmp in_len)
        elim (ltb 0 in_len) [
          | false ↦ pure (some p, [], true)
          | true ↦ elim (lib.unicode_to_gbk (take in_len swapped)) [
            | none ↦ pure (some p, [], false)
            | some text ↦ pure (some p, text, true)
          ]
        ])
    ]
  convert utf8string tmp in_len = elim (ltb 0 in_len) [
    | false ↦ pure (none, [], true)
    | true ↦ elim (lib.utf8_to_gbk (take in_len tmp)) [
      | none ↦ pure (none, [], false)
      | some text ↦ (do block ← malloc (λ n. true); pure (block, text, true))
    ]
  ]
  convert printablestring tmp in_len = pure (none, [], true)
  convert other_string tmp in_len = pure (none, [], true)

  -- Strings of the other types are copied as they are.
  unfoldable pub copy_plain : Asn1Type → ℕ → List ℕ → List ℕ → List ℕ
  unfolding put_text
  copy_plain bmpstring size buf text = buf
  copy_plain utf8string size buf text = buf
  copy_plain printablestring size buf text = put_text size buf text
  copy_plain other_string size buf text = put_text size buf text

  unfoldable pub free_opt : Option ℕ → M (Unit {0})
  unfolding free
  free_opt none = pure tt
  free_opt (some p) = free p

  -- From `label_return` on.
  unfoldable pub label_return : ℕ → Option ℕ → Option ℕ → Bool → List ℕ → M (Bool × List ℕ)
  unfolding call free_opt
  label_return bio nid_out tmp result buf = do
    call (Call.bio_free bio) (λ t. tt)
    free_opt nid_out
    free_opt tmp
    pure (result, buf)

  -- The output buffer after the stores into it; one behind its end is undefined.
  unfoldable pub within : List ℕ → List ℕ → M (List ℕ)
  within buf out w = if length out == length buf then ok out w else fault

  -- The converted text goes out if there is any of it.
  unfoldable pub put_converted : Option ℕ → ℕ → List ℕ → List ℕ → List ℕ
  unfolding put_text
  put_converted none size buf text = buf
  put_converted (some p) size buf text = if ltb 0 (length text) then put_text size buf text else buf

  -- From the conversion on: `text` is the block `tmp`.
  unfoldable pub convert_out : ℕ → ℕ → Asn1Type → ℕ → List ℕ → ℕ → List ℕ → M (Bool × List ℕ)
  unfolding convert copy_plain put_converted within label_return
  convert_out bio tmp type in_len text size buf = do
    (nid_out, converted, goes_on) ← convert type text in_len
    elim goes_on [
      | false ↦ label_return bio nid_out (some tmp) false buf
      | true ↦ (do
        stored ←
            within buf
              (put_converted nid_out size (copy_plain type size buf (take in_len text)) converted)
        label_return bio nid_out (some tmp) true stored)
    ]

  -- From BIO_read on: the block `tmp` is cleared before.
  unfoldable pub copy_out : ℕ → ℕ → Asn1String → ℕ → List ℕ → M (Bool × List ℕ)
  unfolding call convert_out
  copy_out bio tmp str size buf = do
    let in_len = length str.bytes
    got ← call (Call.bio_read bio in_len) (λ t. lib.bio_read t bio in_len)
    convert_out bio tmp str.type in_len (got ++ replicate (in_len + 1 - length got) 0) size buf

  -- An entry's string, in a new memory BIO.
  unfoldable pub extract_entry : ℕ → Option Asn1String → ℕ → List ℕ → M (Bool × List ℕ)
  unfolding malloc netc_ssl_x509_asn1_string_print copy_out label_return
  extract_entry bio none size buf = label_return bio none none false buf
  extract_entry bio (some str) size buf = do
    printed ← netc_ssl_x509_asn1_string_print bio (some str)
    elim printed [
      | false ↦ label_return bio none none false buf
      | true ↦ (do
        block ← malloc lib.memory
        elim block [
          | none ↦ label_return bio none none false buf
          | some tmp ↦ copy_out bio tmp str size buf
        ])
    ]

  -- The status, `true` for 0, and the output buffer behind `pucOutputBuff`; `none` is a NULL pointer.
  unfoldable pub netc_ssl_x509_extrat_text_by_nid :
      ℕ → Option ℕ → Nid → Option (List ℕ) → ℕ → M (Bool × Option (List ℕ))
  unfolding call last_index extract_entry
  netc_ssl_x509_extrat_text_by_nid fuel none nid buf size = pure (false, buf)
  netc_ssl_x509_extrat_text_by_nid fuel (some name) nid none size = pure (false, none)
  netc_ssl_x509_extrat_text_by_nid fuel (some name) nid (some buf) zero = pure (false, some buf)
  netc_ssl_x509_extrat_text_by_nid fuel (some name) nid (some buf) (suc room) = do
    current ← last_index fuel name nid none
    elim current [
      | none ↦ pure (true, some buf)
      | some index ↦ (do
        bio ← call Call.bio_new lib.bio_new
        elim bio [
          | none ↦ pure (false, some buf)
          | some b ↦ (do
            (result, out) ← extract_entry b (lib.get_entry_data name index) (suc room) buf
            pure (result, some out))
        ])
    ]
