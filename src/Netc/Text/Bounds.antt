-- ===== src/Netc/Text/Bounds.antt =====
-- NETC_SSL_X509ExtratTextByNID writes into the first bytes of its output buffer only.
use make_down_file.Prelude.{
  ℕ, suc, ◌<◌, ◌≤◌, ◌≡◌, refl, sym, subst, Bool, true, false, Option, none, some, List, arith,
  length, inl, inr, last?, Option-cases,
}
use make_down_file.Run.{Returns, Returns-mono}
use make_down_file.Netc.World.{Nid, Lib, World}
use make_down_file.Netc.Text.{netc_ssl_x509_extrat_text_by_nid}
use make_down_file.Netc.Text.Index.{Lists}
use make_down_file.Netc.Text.Print.{small_writes}
use make_down_file.Netc.Text.Extract.{
  MemoryBio, wanted, Result, netc_ssl_x509_extrat_text_by_nid-wanted,
}
use make_down_file.Netc.Text.Kept.{Kept, KeptIn, outcome-Kept}

module _ (lib : Lib) where
  wanted-Kept :
      (last : Option ℕ) (name size : ℕ) (buf : List ℕ)
      → 0 < size
      → size ≤ length buf
      → KeptIn lib size buf (wanted lib last name size buf)
  unfolding wanted
  wanted-Kept none name size buf p h = (refl, refl)
  wanted-Kept (some index) name size buf p h = elim (Option-cases (lib.get_entry_data name index)) [
    | inl n ↦ rw (n, wanted) tt
    | inr (str, e) ↦ rw (e, wanted) (outcome-Kept lib str.type size buf str.bytes p h)
  ]

  abbrev pub KeptOut : ℕ → List ℕ → Bool × Option (List ℕ) → World → Type 0
  KeptOut size buf (r, none) w' = ⊥
  KeptOut size buf (r, some out) w' = Kept size buf out

  Result-Kept :
      (name size : ℕ) (buf : List ℕ) (w : World) (last : Option ℕ)
      → 0 < size
      → size ≤ length buf
      → (o : Bool × Option (List ℕ)) (w' : World) → Result lib name size buf w last o w'
      → KeptOut size buf o w'
  Result-Kept name size buf w last p h (r, none) w' f = elim f [ ]
  Result-Kept name size buf w last p h (true, some out) w' (b, t, f) =
      subst (KeptIn lib size buf) (sym (t refl)) (wanted-Kept last name size buf p h)
  Result-Kept name size buf w last p h (false, some out) w' (b, t, f) = rw (f refl) (refl, refl)

  -- With a memory BIO and fuel for all entries of the field, the function writes only into the first
  -- `ulOutputBuffLen` bytes of an output buffer that is at least that long: the buffer keeps its
  -- length and its other bytes, whether the text fits, is too long, or cannot be converted.
  pub netc_ssl_x509_extrat_text_by_nid-Kept :
      MemoryBio lib
      → (fuel name : ℕ) (nid : Nid) (is : List ℕ) (buf : List ℕ) (room : ℕ) (w : World)
      → Lists lib name nid none is
      → length is < fuel
      → small_writes w.calls ≡ true
      → suc room ≤ length buf
      → Returns
          (KeptOut (suc room) buf)
          (netc_ssl_x509_extrat_text_by_nid lib fuel (some name) nid (some buf) (suc room) w)
  netc_ssl_x509_extrat_text_by_nid-Kept mem fuel name nid is buf room w l h s k =
      Returns-mono
        (netc_ssl_x509_extrat_text_by_nid-wanted lib mem fuel name nid is buf room w l h s k)
        (Result-Kept name (suc room) buf w (last? is) (omega arith) k)
