-- ===== src/Cng/KeyMgmt/Success.antt =====
-- Copying and exporting a key that Windows opens again and exports.
use make_down_file.Prelude.{
  ℕ, ◌+◌, ◌≡◌, ◌≤◌, refl, true, false, Option, none, some, List, ◌∷◌, ◌++◌, arith, length, drop,
  ◌==◌, if◌then◌else◌,
}
use make_down_file.Run.{Ends, Ends-Returns, Returns-Ends, Returns-bind}
use make_down_file.Cng.World.{Object, Call, KeyProperty, World, call}
use make_down_file.Cng.Env.{RsaBlob, Env}
use make_down_file.Cng.KeyMgmt.{Selection, cng_keymgmt_dup, cng_keymgmt_export, export_public}
use make_down_file.Cng.KeyMgmt.Export.{
  public_of, handed, three_blocks, duplicate_lem, exporting, one_more, first_fits, second_fits,
  hand_out, public_run, Handed,
}

-- Windows reports the properties of every key in full, and opens a key again with handle `h`.
pub record Reopens (env : Env) (h : ℕ) : Type 0 where
  pub reports :
      (t : List Call) (old : ℕ) (p : KeyProperty) → (env.ncrypt_get_property t old p).success ≡ true
  pub flags_in_full :
      (t : List Call) (old : ℕ) → (env.ncrypt_get_property t old KeyProperty.key_type).written ≡ 4
  pub provider_in_full :
      (t : List Call) (old : ℕ)
      → (env.ncrypt_get_property t old KeyProperty.provider_handle).written ≡ 8
  pub opens :
      (t : List Call) (provider : ℕ) (name : Option (List ℕ)) (flags : ℕ)
      → env.ncrypt_open_key t provider name flags ≡ some h

module _ (env : Env) (h : ℕ) (reopens : Reopens env h) where
  -- Copying a key object that Windows opens again, with its memory granted, ends without a fault and
  -- with the new object. It has the new handle, and it is the only new block.
  pub cng_keymgmt_dup-opens :
      (old : ℕ) (w : World)
      → env.memory w.next ≡ true
      → Ends
          (λ r w'.
            (r ≡ some w.next)
            × (w'.windows_key_handle w.next ≡ h)
            × (w'.blocks ≡ w.next ∷ w.blocks))
          (cng_keymgmt_dup env (some old) w)
  unfolding cng_keymgmt_dup
  cng_keymgmt_dup-opens old w m =
      let key = if old == w.next then 0 else w.windows_key_handle old in
      let t1 = Call.ncrypt_get_property key KeyProperty.key_type ∷ w.calls in
      let t2 = Call.ncrypt_get_property key KeyProperty.provider_handle ∷ t1 in
      let t3 = Call.ncrypt_get_property key KeyProperty.name ∷ t2 in
      let t4 = Call.ncrypt_get_property key KeyProperty.name ∷ t3 in
      let flags = (env.ncrypt_get_property w.calls key KeyProperty.key_type).value in
      let provider = (env.ncrypt_get_property t1 key KeyProperty.provider_handle).value in
      let name = (env.ncrypt_get_property t3 key KeyProperty.name).text in
      ground (
        arith,
        reopens.reports w.calls key KeyProperty.key_type,
        reopens.flags_in_full w.calls key,
        reopens.reports t1 key KeyProperty.provider_handle,
        reopens.provider_in_full t1 key,
        reopens.reports t2 key KeyProperty.name,
        reopens.reports t3 key KeyProperty.name,
        reopens.opens t4 provider (some name) flags,
        reopens.opens t4 provider none flags,
      )

-- Windows exports the public key of handle `h` as the blob `pb`.
abbrev pub Exports : Env → ℕ → RsaBlob → Type 0
Exports env h pb =
    ((t : List Call) → (size : ℕ) × (env.ncrypt_export_size t h ≡ some size))
    × ((t : List Call) → env.ncrypt_export_key t h ≡ some pb)

module _ (env : Env) (pb : RsaBlob)
    (full : pb.cb_public_exp + pb.cb_modulus ≤ length pb.bytes) where
  -- What an export of `pb` leaves before the callback is called.
  abbrev Made : World → Option Object → World → Type 0
  Made w o w' =
      (o ≡ some (public_of pb))
      × (w'.blocks ≡ three_blocks env w ++ w.blocks)
      × (handed w'.calls ≡ handed w.calls)

  export_public-Made :
      (h : ℕ) (w : World)
      → Exports env h pb
      → env.memory w.next ≡ true
      → env.memory (w.next + 1) ≡ true
      → env.memory (w.next + 1 + 1) ≡ true
      → Ends (Made w) (export_public env h w)
  unfolding export_public handed
  export_public-Made h w x m1 m2 m3 =
      let (size, sized) = x.0 w.calls in
      ground (
        arith,
        sized,
        x.1 (Call.ncrypt_export_key h ∷ w.calls),
        duplicate_lem env pb.bytes pb.cb_public_exp (exporting env h w) (first_fits env pb full),
        duplicate_lem env (drop pb.cb_public_exp pb.bytes) pb.cb_modulus
            (one_more env (exporting env h w)) (second_fits env pb full),
      )

  hand_out-Handed :
      (w : World) (o : Option Object) (w1 : World)
      → Made w o w1
      → Ends (λ r w'. Handed env w (three_blocks env w) (public_of pb) w') (hand_out env o w1)
  unfolding handed call
  hand_out-Handed w none w1 x = ground (arith, x.0)
  hand_out-Handed w (some o) w1 x = let e : o ≡ public_of pb = cc (x.0) in (x.1, rw (e, x.2) refl)

  -- Exporting the public part of a key whose blob is as long as its header says, with the three blocks
  -- granted, ends without a fault: the callback was handed the exponent and the modulus of the
  -- blob, each with its bytes reversed, and nothing else, and the three blocks stay allocated.
  pub cng_keymgmt_export-public :
      (key : ℕ) (selection : Selection) (w : World)
      → selection.private_key ≡ false
      → selection.public_key ≡ true
      → Exports env (w.windows_key_handle key) pb
      → env.memory w.next ≡ true
      → env.memory (w.next + 1) ≡ true
      → env.memory (w.next + 1 + 1) ≡ true
      → Ends
          (λ r w'. Handed env w (three_blocks env w) (public_of pb) w')
          (cng_keymgmt_export env key selection w)
  cng_keymgmt_export-public key selection w p q x m1 m2 m3 =
      rw (public_run env key selection w p q) (
        Returns-Ends (
          Returns-bind (Ends-Returns _ (export_public-Made (w.windows_key_handle key) w x m1 m2 m3))
            (λ o w1 y. Ends-Returns _ (hand_out-Handed w o w1 y))))
