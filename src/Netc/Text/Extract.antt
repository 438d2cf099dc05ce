-- ===== src/Netc/Text/Extract.antt =====
-- NETC_SSL_X509ExtratTextByNID: the last entry of the name is read, converted and copied out.
use mathlib.Core.Bool.{false≢true, true≢false}
use make_down_file.Prelude.{
  ℕ, suc, ◌+◌, ◌-◌, ◌<◌, ◌≤◌, ◌≡◌, refl, sym, subst, ap, Bool, true, false, Option, none, some,
  List, [], ◌∷◌, ◌++◌, arith, length, take, replicate, ==_refl, Bool-cases, inl, inr, last?,
  Option-cases, take-append, take-length,
}
use make_down_file.Run.{ok, Returns, returns, Returns-mono, Returns-bind, pure, ◌>>=◌}
use make_down_file.Netc.World.{
  Call, bio_new, Asn1Type, Asn1String, Nid, Lib, World, M, call, malloc, free,
}
use make_down_file.Netc.Text.{
  within, copy_plain, free_opt, label_return, put_converted, extract_entry, copy_out, convert_out,
  netc_ssl_x509_extrat_text_by_nid,
}
use make_down_file.Netc.Text.Kept.{KeptIn, outcome-Kept}
use make_down_file.Netc.Text.Index.{Lists, last_index-last?}
use make_down_file.Netc.Text.Convert.{pushed, outcome, Converted, convert_lem}
use make_down_file.Netc.Text.Print.{
  in_bio, small_writes, Printed, netc_ssl_x509_asn1_string_print-Printed,
}

-- A memory BIO: a new one is empty, and BIO_read gives what it holds.
pub record MemoryBio (lib : Lib) : Type 0 where
  pub fresh : (t : List Call) (b : ℕ) → lib.bio_new t ≡ some b → in_bio b t ≡ []
  pub read : (t : List Call) (b n : ℕ) → lib.bio_read t b n ≡ take n (in_bio b t)

module _ (lib : Lib) where
  label_return_lem :
      (bio : ℕ) (nid_out tmp : Option ℕ) (result : Bool) (buf bs : List ℕ) (w : World)
      → w.blocks ≡ pushed lib nid_out (pushed lib tmp bs)
      → Returns
          (λ o w'. (o ≡ (result, buf)) × (w'.blocks ≡ bs))
          (label_return lib bio nid_out tmp result buf w)
  unfolding label_return free_opt free call
  label_return_lem bio none none result buf bs w e = returns (refl, e)
  label_return_lem bio none (some t) result buf bs w e = rw (e, ==_refl t) (returns (refl, refl))
  label_return_lem bio (some p) none result buf bs w e = rw (e, ==_refl p) (returns (refl, refl))
  label_return_lem bio (some p) (some t) result buf bs w e =
      rw (e, ==_refl p, ==_refl t) (returns (refl, refl))

  -- What an extraction leaves behind: the blocks are those of before, and the buffer is the one
  -- wanted, or, on a failure, as it was.
  abbrev Extracted : List ℕ → Option (List ℕ) → List ℕ → Bool × List ℕ → World → Type 0
  Extracted blocks wanted buf (r, out) w' =
      (w'.blocks ≡ blocks) × (r ≡ true → some out ≡ wanted) × (r ≡ false → out ≡ buf)

  -- A failure.
  fail_lem :
      (bio : ℕ) (nid_out tmp : Option ℕ) (wanted : Option (List ℕ)) (buf bs : List ℕ) (w : World)
      → w.blocks ≡ pushed lib nid_out (pushed lib tmp bs)
      → Returns (Extracted bs wanted buf) (label_return lib bio nid_out tmp false buf w)
  fail_lem bio nid_out tmp wanted buf bs w e =
      Returns-mono (label_return_lem bio nid_out tmp false buf bs w e)
        (λ (o : Bool × List ℕ) w' (h : (o ≡ (false, buf)) × (w'.blocks ≡ bs)).
          (h.1, (λ t. elim (false≢true (rw (h.0) at t)) [ ]), (λ f. ap (λ q. q.1) h.0)))

  succeed_lem :
      (bio : ℕ) (nid_out tmp : Option ℕ) (wanted : Option (List ℕ)) (buf out bs : List ℕ)
      (w : World)
      → w.blocks ≡ pushed lib nid_out (pushed lib tmp bs)
      → some out ≡ wanted
      → Returns (Extracted bs wanted buf) (label_return lib bio nid_out tmp true out w)
  succeed_lem bio nid_out tmp wanted buf out bs w e o =
      Returns-mono (label_return_lem bio nid_out tmp true out bs w e)
        (λ (q : Bool × List ℕ) w' (h : (q ≡ (true, out)) × (w'.blocks ≡ bs)).
          (h.1, (λ t. rw (h.0) o), (λ f. elim (true≢false (rw (h.0) at f)) [ ])))

  -- There is room for what may be stored.
  abbrev Room : ℕ → List ℕ → Type 0
  Room size buf = (0 < size) × (size ≤ length buf)

  within_lem :
      (type : Asn1Type) (size : ℕ) (buf bytes out : List ℕ) (w : World)
      → Room size buf
      → some out ≡ outcome lib type size buf bytes
      → within lib buf out w ≡ ok out w
  unfolding within
  within_lem type size buf bytes out w m e =
      let k : KeptIn lib size buf (some out) =
        subst (KeptIn lib size buf) (sym e) (outcome-Kept lib type size buf bytes m.0 m.1) in
      rw (k.0, ==_refl (length buf), within) refl

  ending :
      (bio tmp : ℕ) (str : Asn1String) (size : ℕ) (buf bs : List ℕ) (w : World)
      → Room size buf
      → w.blocks ≡ tmp ∷ bs
      → (o : Option ℕ × List ℕ × Bool) (w1 : World)
      → Converted lib str.type size buf str.bytes w o w1
      → Returns (Extracted bs (outcome lib str.type size buf str.bytes) buf) (
          (elim o.2 as (λ _. M (Bool × List ℕ)) [
            | false ↦ label_return lib bio o.0 (some tmp) false buf
            | true ↦ (do
              stored ← within lib buf (
                  put_converted lib o.0 size
                    (copy_plain lib str.type size buf
                      (take (length str.bytes) (str.bytes ++ 0 ∷ [])))
                    o.1)
              label_return lib bio o.0 (some tmp) true stored)
          ])
            w1)
  ending bio tmp str size buf bs w m e (nid_out, text, false) w1 (b, g) =
      fail_lem bio nid_out (some tmp) (outcome lib str.type size buf str.bytes) buf bs w1
        (rw (b, e))
  ending bio tmp str size buf bs w m e (nid_out, text, true) w1 (b, g) =
      let out =
        put_converted lib nid_out size
          (copy_plain lib str.type size buf (take (length str.bytes) (str.bytes ++ 0 ∷ []))) text in
      let h : some out ≡ outcome lib str.type size buf str.bytes =
        rw (take-append str.bytes (0 ∷ [])) (g refl) in
      rw (within_lem str.type size buf str.bytes out w1 m h) (
        succeed_lem bio nid_out (some tmp) (outcome lib str.type size buf str.bytes) buf out bs w1
          (rw (b, e)) h)

  -- The block with the string read from the BIO and the terminator.
  read_text :
      MemoryBio lib
      → (bio : ℕ) (bytes : List ℕ) (w : World) → in_bio bio w.calls ≡ bytes
      → lib.bio_read w.calls bio (length bytes)
          ++ replicate (length bytes + 1 - length (lib.bio_read w.calls bio (length bytes))) 0
        ≡ bytes ++ 0 ∷ []
  read_text mem bio bytes w h =
      let e : length bytes + 1 - length bytes ≡ 1 = omega arith in
      rw (mem.read w.calls bio (length bytes), h, take-length bytes, e)

  convert_out_lem :
      (bio tmp : ℕ) (str : Asn1String) (size : ℕ) (buf bs : List ℕ) (w : World)
      → Room size buf
      → w.blocks ≡ tmp ∷ bs
      → Returns
          (Extracted bs (outcome lib str.type size buf str.bytes) buf)
          (convert_out lib bio tmp str.type (length str.bytes) (str.bytes ++ 0 ∷ []) size buf w)
  unfolding convert_out
  convert_out_lem bio tmp str size buf bs w m e =
      Returns-bind (convert_lem lib str.type size buf str.bytes w)
        (ending bio tmp str size buf bs w m e)

  copy_out_lem :
      MemoryBio lib
      → (bio tmp : ℕ) (str : Asn1String) (size : ℕ) (buf bs : List ℕ) (w : World) → Room size buf
      → w.blocks ≡ tmp ∷ bs
      → in_bio bio w.calls ≡ str.bytes
      → Returns
          (Extracted bs (outcome lib str.type size buf str.bytes) buf)
          (copy_out lib bio tmp str size buf w)
  unfolding copy_out call
  copy_out_lem mem bio tmp str size buf bs w m e h =
      let w1 : World = record w { calls = Call.bio_read bio (length str.bytes) ∷ w.calls } in
      subst
        (λ text.
          Returns (Extracted bs (outcome lib str.type size buf str.bytes) buf)
            (convert_out lib bio tmp str.type (length str.bytes) text size buf w1))
        (sym (read_text mem bio str.bytes w h)) (convert_out_lem bio tmp str size buf bs w1 m e)

  after_print :
      MemoryBio lib
      → (bio : ℕ) (str : Asn1String) (size : ℕ) (buf : List ℕ) (w : World) → Room size buf
      → in_bio bio w.calls ≡ []
      → (a : Bool) (w1 : World) → Printed lib bio str.bytes w a w1
      → Returns (Extracted w.blocks (outcome lib str.type size buf str.bytes) buf) (
          (elim a as (λ _. M (Bool × List ℕ)) [
            | false ↦ label_return lib bio none none false buf
            | true ↦ (do
              block ← malloc lib.memory
              elim block [
                | none ↦ label_return lib bio none none false buf
                | some tmp ↦ copy_out lib bio tmp str size buf
              ])
          ])
            w1)
  unfolding malloc
  after_print mem bio str size buf w m e false w1 (p, s, b) =
      fail_lem bio none none (outcome lib str.type size buf str.bytes) buf w.blocks w1 b
  after_print mem bio str size buf w m e true w1 (p, s, b) =
      elim (Bool-cases (lib.memory w1.next)) [
        | inr f ↦ rw f (
            fail_lem bio none none (outcome lib str.type size buf str.bytes) buf w.blocks
              (record w1 { next = w1.next + 1 }) b)
        | inl t ↦ rw t (
            copy_out_lem mem bio w1.next str size buf w.blocks
              (record w1 { next = w1.next + 1; blocks = w1.next ∷ w1.blocks }) m (rw b)
              (rw (p refl, e)))
      ]

  extract_entry_lem :
      MemoryBio lib
      → (bio : ℕ) (str : Asn1String) (size : ℕ) (buf : List ℕ) (w : World) → Room size buf
      → small_writes w.calls ≡ true
      → in_bio bio w.calls ≡ []
      → Returns
          (Extracted w.blocks (outcome lib str.type size buf str.bytes) buf)
          (extract_entry lib bio (some str) size buf w)
  unfolding extract_entry
  extract_entry_lem mem bio str size buf w m s e =
      Returns-bind (netc_ssl_x509_asn1_string_print-Printed lib bio str w s)
        (after_print mem bio str size buf w m e)

  small_writes-bio_new :
      (w : World) → small_writes w.calls ≡ true → small_writes (bio_new ∷ w.calls) ≡ true
  unfolding small_writes
  small_writes-bio_new w s = s

  in_bio-bio_new : (b : ℕ) (w : World) → in_bio b w.calls ≡ [] → in_bio b (bio_new ∷ w.calls) ≡ []
  unfolding in_bio
  in_bio-bio_new b w e = e

  -- What the last of the entries gives: `none` if it has no string or a conversion fails.
  unfoldable pub wanted : Option ℕ → ℕ → ℕ → List ℕ → Option (List ℕ)
  unfolding outcome
  wanted none name size buf = some buf
  wanted (some index) name size buf = elim (lib.get_entry_data name index) [
    | none ↦ none
    | some str ↦ outcome lib str.type size buf str.bytes
  ]

  abbrev pub Result : ℕ → ℕ → List ℕ → World → Option ℕ → Bool × Option (List ℕ) → World → Type 0
  Result name size buf w last (r, none) w' = ⊥
  Result name size buf w last (r, some out) w' =
      (w'.blocks ≡ w.blocks)
      × (r ≡ true → some out ≡ wanted last name size buf)
      × (r ≡ false → out ≡ buf)

  Result-Extracted :
      (name index size : ℕ) (buf : List ℕ) (w : World) (o : Bool × List ℕ) (w' : World)
      → Extracted w.blocks (wanted (some index) name size buf) buf o w'
      → Result name size buf w (some index) (o.0, some o.1) w'
  Result-Extracted name index size buf w o w' (b, t, f) = (b, t, f)

  extract_entry-wanted :
      MemoryBio lib
      → (bio name index size : ℕ) (buf : List ℕ) (w : World) → Room size buf
      → small_writes w.calls ≡ true
      → in_bio bio w.calls ≡ []
      → (o : Option Asn1String) → lib.get_entry_data name index ≡ o
      → Returns
          (Extracted w.blocks (wanted (some index) name size buf) buf)
          (extract_entry lib bio o size buf w)
  unfolding extract_entry wanted
  extract_entry-wanted mem bio name index size buf w m s e none d =
      fail_lem bio none none (wanted (some index) name size buf) buf w.blocks w refl
  extract_entry-wanted mem bio name index size buf w m s e (some str) d =
      rw (d, wanted) (extract_entry_lem mem bio str size buf w m s e)

  from_index :
      MemoryBio lib
      → (name size : ℕ) (buf : List ℕ) (w : World) → Room size buf
      → small_writes w.calls ≡ true
      → (current : Option ℕ)
      → Returns (Result name size buf w current) (
          (elim current as (λ _. M (Bool × Option (List ℕ))) [
            | none ↦ pure (true, some buf)
            | some index ↦ (do
              bio ← call Call.bio_new lib.bio_new
              elim bio [
                | none ↦ pure (false, some buf)
                | some b ↦ (do
                  (result, out) ← extract_entry lib b (lib.get_entry_data name index) size buf
                  pure (result, some out))
              ])
          ])
            w)
  unfolding call wanted
  from_index mem name size buf w m s none = returns (refl, (λ _. refl), (λ _. refl))
  from_index mem name size buf w m s (some index) = elim (Option-cases (lib.bio_new w.calls)) [
    | inl n ↦ rw n (returns (refl, (λ t. elim (false≢true t) [ ]), (λ _. refl)))
    | inr (b, e) ↦
        let w1 : World = record w { calls = bio_new ∷ w.calls } in
        rw e (
          Returns-bind
            (extract_entry-wanted mem b name index size buf w1 m (small_writes-bio_new w s)
              (in_bio-bio_new b w (mem.fresh w.calls b e)) (lib.get_entry_data name index) refl)
            (λ (o : Bool × List ℕ) w'
                (h : Extracted w.blocks (wanted (some index) name size buf) buf o w').
              returns (Result-Extracted name index size buf w o w' h)))
  ]

  -- With a memory BIO, an output buffer of at least the stated length, and fuel for all entries of the
  -- field, the function ends, stores nothing behind its buffers, and frees every block that it allocates. When it returns 0, the first bytes of the output buffer are the text of the
  -- last of the entries, in the encoding that its type asks for, with a terminator, if both fit into the
  -- stated length, and zeros but for the last byte if they do not; the bytes behind are as they were. The whole
  -- buffer is as it was if there is no entry, if a converted text is empty, or on a failure.
  pub netc_ssl_x509_extrat_text_by_nid-wanted :
      MemoryBio lib
      → (fuel name : ℕ) (nid : Nid) (is : List ℕ) (buf : List ℕ) (room : ℕ) (w : World)
      → Lists lib name nid none is
      → length is < fuel
      → small_writes w.calls ≡ true
      → suc room ≤ length buf
      → Returns
          (Result name (suc room) buf w (last? is))
          (netc_ssl_x509_extrat_text_by_nid lib fuel (some name) nid (some buf) (suc room) w)
  unfolding netc_ssl_x509_extrat_text_by_nid
  netc_ssl_x509_extrat_text_by_nid-wanted mem fuel name nid is buf room w l h s k =
      rw (last_index-last? lib fuel name nid is w l h)
        (from_index mem name (suc room) buf w (omega arith, k) s (last? is))
