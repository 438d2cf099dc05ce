-- ===== src/Cng/KeyMgmt/Export.antt =====
-- Exporting a key: what reaches the callback, and what stays allocated.
use make_down_file.Prelude.{
  ℕ, ◌+◌, ◌≤◌, ◌≡◌, ◌⊎◌, inl, inr, refl, Bool, true, false, ◌||◌, Bool-cases, Option-cases, Option,
  none, some, List, [], ◌∷◌, reverse, arith, length, length-drop, ◌++◌, take, drop, if◌then◌else◌,
}
use make_down_file.Run.{ok, and_then, Ends, Returns-bind, pure, Ends-Returns, Returns-Ends}
use make_down_file.Cng.World.{Object, rsa_public, null_params, Call, World, M, call}
use make_down_file.Cng.Env.{RsaBlob, Env}
use make_down_file.Cng.KeyMgmt.{
  Selection, duplicate_buffer_in_reverse, export_public, cng_keymgmt_export,
}
use make_down_file.Cng.KeyMgmt.Reverse.{reverse_loop-take}

-- A public key blob is as long as its header says.
abbrev pub FullBlobs : Env → Type 0
FullBlobs env =
    (t : List Call) (h : ℕ) (pb : RsaBlob)
    → env.ncrypt_export_key t h ≡ some pb
    → pb.cb_public_exp + pb.cb_modulus ≤ length pb.bytes

-- The two numbers of a blob, each with its bytes reversed.
abbrev pub public_of : RsaBlob → Object
public_of pb =
    rsa_public (reverse (take pb.cb_public_exp pb.bytes))
      (reverse (take pb.cb_modulus (drop pb.cb_public_exp pb.bytes)))

-- The objects handed to a callback so far, newest first.
unfoldable pub handed : List Call → List Object
handed [] = []
handed (Call.callback o ∷ calls) = o ∷ handed calls
handed (_ ∷ calls) = handed calls

module _ (env : Env) where
  abbrev pub one_more : World → World
  one_more w = record w { next = w.next + 1; blocks = w.next ∷ w.blocks }

  abbrev skipped : World → World
  skipped w = record w { next = w.next + 1 }

  pub duplicate_lem :
      (buffer : List ℕ) (size : ℕ) (w : World)
      → size ≤ length buffer
      → duplicate_buffer_in_reverse env buffer size w ≡ (
          if env.memory w.next
          then ok (some (w.next, reverse (take size buffer))) (one_more w)
          else ok none (skipped w))
  unfolding duplicate_buffer_in_reverse
  duplicate_lem buffer size w h = ground (arith, reverse_loop-take buffer size)

  abbrev pub exporting : ℕ → World → World
  exporting h w = record w {
    next = w.next + 1;
    blocks = w.next ∷ w.blocks;
    calls = Call.ncrypt_export_key h ∷ Call.ncrypt_export_key h ∷ w.calls;
  }

  -- What `export_public` leaves: nothing at all, or the parameters and three blocks.
  abbrev Exported : ℕ → World → Option Object → World → Type 0
  Exported h w none w' = (w'.blocks ≡ w.blocks) × (handed w'.calls ≡ handed w.calls)
  Exported h w (some o) w' =
      (w'.blocks ≡ (w.next + 1 + 1) ∷ (w.next + 1) ∷ w.next ∷ w.blocks)
      × (handed w'.calls ≡ handed w.calls)
      × ((pb : RsaBlob) × (env.ncrypt_export_key (Call.ncrypt_export_key h ∷ w.calls) h ≡ some pb)
          × (o ≡ public_of pb))

  pub first_fits :
      (pb : RsaBlob)
      → pb.cb_public_exp + pb.cb_modulus ≤ length pb.bytes
      → pb.cb_public_exp ≤ length pb.bytes
  first_fits pb full = omega arith

  pub second_fits :
      (pb : RsaBlob)
      → pb.cb_public_exp + pb.cb_modulus ≤ length pb.bytes
      → pb.cb_modulus ≤ length (drop pb.cb_public_exp pb.bytes)
  second_fits pb full = ground (arith, length-drop pb.cb_public_exp pb.bytes)

  export_public-Ends :
      (h : ℕ) (w : World) → FullBlobs env → Ends (Exported h w) (export_public env h w)
  unfolding export_public handed
  export_public-Ends h w full = elim (Option-cases (env.ncrypt_export_size w.calls h)) [
    | inl s ↦ ground arith
    | inr (size, s) ↦ elim (Bool-cases (env.memory w.next)) [
      | inl m ↦ elim (Option-cases (env.ncrypt_export_key (Call.ncrypt_export_key h ∷ w.calls) h)) [
        | inl e ↦ ground arith
        | inr (pb, e) ↦ ground (
          arith,
          duplicate_lem pb.bytes pb.cb_public_exp (exporting h w) (first_fits pb (full _ h pb e)),
          duplicate_lem (drop pb.cb_public_exp pb.bytes) pb.cb_modulus (one_more (exporting h w))
              (second_fits pb (full _ h pb e)),
        )
      ]
      | inr m ↦ ground arith
    ]
  ]

  -- How an export can end: refused with no trace, or with one object handed to the callback.
  abbrev pub Refused : World → Bool → World → Type 0
  Refused w r w' = (r ≡ false) × (w'.blocks ≡ w.blocks) × (handed w'.calls ≡ handed w.calls)

  abbrev pub Handed : World → List ℕ → Object → World → Type 0
  Handed w leaked o w' = (w'.blocks ≡ leaked ++ w.blocks) × (handed w'.calls ≡ o ∷ handed w.calls)

  -- The three blocks that an export of a public key allocates.
  abbrev pub three_blocks : World → List ℕ
  three_blocks w = (w.next + 1 + 1) ∷ (w.next + 1) ∷ w.next ∷ []

  -- An export of selected parts of the key with handle `h`.
  abbrev pub Export : ℕ → Selection → World → Bool → World → Type 0
  Export h selection w r w' =
      Refused w r w'
      ⊎ ((selection.private_key ≡ false)
          × (selection.public_key ≡ true)
          × ((pb : RsaBlob) × (env.ncrypt_export_key (Call.ncrypt_export_key h ∷ w.calls) h
                ≡ some pb)
              × Handed w (three_blocks w) (public_of pb) w'))
      ⊎ ((selection.private_key ≡ false)
          × (selection.public_key ≡ false)
          × (selection.domain_parameters || selection.other_parameters ≡ false)
          × Handed w [] null_params w')

  abbrev pub hand_out : Option Object → M Bool
  hand_out params = elim params [
    | none ↦ pure false
    | some p ↦ call (Call.callback p) (λ t. env.callback t p)
  ]

  hand_out-Export :
      (h : ℕ) (selection : Selection) (w : World) (o : Option Object) (w1 : World)
      → selection.private_key ≡ false
      → selection.public_key ≡ true
      → Exported h w o w1
      → Ends (Export h selection w) (hand_out o w1)
  unfolding call handed
  hand_out-Export h selection w none w1 p q x = inl (refl, x.0, x.1)
  hand_out-Export h selection w (some o) w1 p q x =
      inr (inl (p, q, (x.2.0, x.2.1, (x.0, rw (x.1, x.2.2) refl))))

  pub public_run :
      (key : ℕ) (selection : Selection) (w : World)
      → selection.private_key ≡ false
      → selection.public_key ≡ true
      → cng_keymgmt_export env key selection w
        ≡ and_then (export_public env (w.windows_key_handle key) w) hand_out
  unfolding cng_keymgmt_export
  public_run key selection w p q = rw (p, q) refl

  -- Exporting a key, where the blobs of Windows are as long as their headers say, ends without a
  -- fault, in one of three ways. It is refused: the result is 0, the blocks are those from before and
  -- the callback was handed nothing. Or only the public key counts: the callback was handed the
  -- exponent and the modulus of the blob that Windows gave for this handle, each with its bytes
  -- reversed, and the blob and both copies stay allocated. Or none of the selection bits that the
  -- code tests is set: the callback was handed no parameters, and the blocks are those from before. A
  -- selection with the private key in it is always refused.
  pub cng_keymgmt_export-Ends :
      (key : ℕ) (selection : Selection) (w : World)
      → FullBlobs env
      → Ends
          (Export (w.windows_key_handle key) selection w)
          (cng_keymgmt_export env key selection w)
  unfolding cng_keymgmt_export handed
  cng_keymgmt_export-Ends key selection w full = elim (Bool-cases selection.private_key) [
    | inl p ↦ ground arith
    | inr p ↦ elim (Bool-cases selection.public_key) [
      | inl q ↦
          (rw (public_run key selection w p q) (
            Returns-Ends (
              Returns-bind (Ends-Returns _ (export_public-Ends (w.windows_key_handle key) w full))
                (λ o w1 x.
                  Ends-Returns _
                    (hand_out-Export (w.windows_key_handle key) selection w o w1 p q x)))))
      | inr q ↦ elim (Bool-cases (selection.domain_parameters || selection.other_parameters)) [
        | inl d ↦ ground arith
        | inr d ↦ ground arith
      ]
    ]
  ]
