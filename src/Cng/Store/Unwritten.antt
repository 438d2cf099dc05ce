-- ===== src/Cng/Store/Unwritten.antt =====
-- The search for a key behind the last usable one, when a certificate has no handle.
use mathlib.Core.List.{append_assoc}
use make_down_file.Prelude.{
  ℕ, zero, suc, ◌<◌, ◌≡◌, ◌⊎◌, ◌∙◌, refl, Bool, true, false, not, Bool-cases, inl, inr, Option,
  none, some, List, [], ◌∷◌, ◌++◌, arith, length, last?, last?-append_one, if◌then◌else◌,
}
use make_down_file.Run.{Run, ok, fault, and_then, pure}
use make_down_file.Cng.World.{Call, World}
use make_down_file.Cng.Env.{Acquired, Env}
use make_down_file.Cng.Store.{
  StoreCtx, unusable, try_next_key, free_local, load_another_privkey_from_store_into_context,
}
use make_down_file.Cng.Store.Keys.{Enumerates, AcquiresBy, usable, with_key}

-- A search that faults, or finds nothing.
abbrev Lost : Run World (StoreCtx × Bool) → Type 0
Lost r = (r ≡ fault) ⊎ ((ctx : StoreCtx) × (w : World) × (r ≡ ok (ctx, false) w))

module _ (env : Env) (certs : List ℕ) (key_of : ℕ → Acquired) (store : ℕ)
    (enumerates : Enumerates env store certs) (acquires : AcquiresBy env key_of) where
  abbrev passed : ℕ → StoreCtx → StoreCtx
  passed c ctx = record ctx { prev_key_cert_ctx = some c; priv_key_store_eof = false }

  abbrev asked : ℕ → StoreCtx → World → World
  asked c ctx w = record w {
    calls =
        Call.crypt_acquire_certificate_private_key c
        ∷ Call.cert_enum_certificates_in_store ctx.windows_certificate_store ctx.prev_key_cert_ctx
        ∷ w.calls;
  }

  try-unusable :
      (c : ℕ) (ctx : StoreCtx) (w : World)
      → env.cert_enum_certificates_in_store w.calls ctx.windows_certificate_store
          ctx.prev_key_cert_ctx
        ≡ some c
      → usable (key_of c) ≡ false
      → try_next_key env ctx w ≡ ok (passed c ctx, unusable (key_of c).key_handle) (asked c ctx w)
  unfolding try_next_key
  try-unusable c ctx w e u =
      let t =
        Call.cert_enum_certificates_in_store ctx.windows_certificate_store ctx.prev_key_cert_ctx
        ∷ w.calls in
      ground (arith, acquires t c)

  skip_step :
      (fuel c : ℕ) (ctx : StoreCtx) (w : World)
      → env.cert_enum_certificates_in_store w.calls ctx.windows_certificate_store
          ctx.prev_key_cert_ctx
        ≡ some c
      → usable (key_of c) ≡ false
      → load_another_privkey_from_store_into_context env (suc fuel) ctx w
        ≡ and_then
            (load_another_privkey_from_store_into_context env fuel (passed c ctx) (asked c ctx w))
            (λ (ctx', found).
              if not found then free_local env (key_of c).key_handle ctx' else pure (ctx', true))
  unfolding load_another_privkey_from_store_into_context
  skip_step fuel c ctx w e u = rw (try-unusable c ctx w e u) refl

  end_step :
      (fuel : ℕ) (ctx : StoreCtx) (w : World)
      → env.cert_enum_certificates_in_store w.calls ctx.windows_certificate_store
          ctx.prev_key_cert_ctx
        ≡ none
      → Lost (load_another_privkey_from_store_into_context env (suc fuel) ctx w)
  unfolding load_another_privkey_from_store_into_context try_next_key
  end_step fuel ctx w e = rw (e, try_next_key) (inr (_, _, refl))

  with_key-unusable :
      (c : ℕ) (post : List ℕ)
      → with_key key_of (c ∷ post) ≡ []
      → (usable (key_of c) ≡ false) × (with_key key_of post ≡ [])
  unfolding with_key
  with_key-unusable c post e = elim (Bool-cases (usable (key_of c))) [
    | inr u ↦ (u, rw u at e)
    | inl u ↦ let b : ⊥ = cc (rw u at e) in elim b [ ]
  ]

  way_out :
      (c : ℕ) (r : Run World (StoreCtx × Bool))
      → Lost r
      → Lost (
          and_then r (λ (ctx', found).
            if not found then free_local env (key_of c).key_handle ctx' else pure (ctx', true)))
  unfolding free_local
  way_out c r (inl f) = inl (rw f refl)
  way_out c r (inr (ctx, w, e)) = rw e (by_handle (key_of c).key_handle)
    where
      by_handle : (h : Option ℕ) → Lost (free_local env h ctx w)
      by_handle none = inl refl
      by_handle (some h) = inr (_, _, refl)

  search-Lost :
      (fuel : ℕ) (pre post : List ℕ) (ctx : StoreCtx) (w : World)
      → certs ≡ pre ++ post
      → ctx.windows_certificate_store ≡ store
      → ctx.prev_key_cert_ctx ≡ last? pre
      → with_key key_of post ≡ []
      → length post < fuel
      → Lost (load_another_privkey_from_store_into_context env fuel ctx w)
  search-Lost zero pre post ctx w e s p k h = absurd (omega arith)
  search-Lost (suc fuel) pre [] ctx w e s p k h =
      end_step fuel ctx w (rw (s, p) (enumerates w.calls pre [] e))
  search-Lost (suc fuel) pre (c ∷ post) ctx w e s p k h =
      let u = with_key-unusable c post k in
      rw (skip_step fuel c ctx w (rw (s, p) (enumerates w.calls pre (c ∷ post) e)) u.0) (
        way_out c _ (
          search-Lost fuel (pre ++ c ∷ []) post (passed c ctx) (asked c ctx w) (e ∙ rw append_assoc)
            s (rw last?-append_one) u.1 (omega arith)))

  faults :
      (c : ℕ) (r : Run World (StoreCtx × Bool))
      → (key_of c).key_handle ≡ none
      → Lost r
      → and_then r (λ (ctx', found).
        if not found then free_local env (key_of c).key_handle ctx' else pure (ctx', true))
        ≡ fault
  unfolding free_local
  faults c r n (inl f) = rw f refl
  faults c r n (inr (ctx, w, e)) = rw (e, n, free_local) refl

  -- If no certificate behind the current one has a usable key, and for one of them the acquisition did
  -- not write a handle, then the search for the next key, with fuel above their number, has undefined
  -- behaviour: on its way out it hands the local handle, which was never written, to NCryptFreeObject.
  pub load_privkey-unwritten :
      (fuel : ℕ) (pre mid : List ℕ) (c : ℕ) (rest : List ℕ) (ctx : StoreCtx) (w : World)
      → certs ≡ pre ++ (mid ++ c ∷ rest)
      → ctx.windows_certificate_store ≡ store
      → ctx.prev_key_cert_ctx ≡ last? pre
      → with_key key_of (mid ++ c ∷ rest) ≡ []
      → (key_of c).key_handle ≡ none
      → length (mid ++ c ∷ rest) < fuel
      → load_another_privkey_from_store_into_context env fuel ctx w ≡ fault
  load_privkey-unwritten zero pre mid c rest ctx w e s p k n h = absurd (omega arith)
  load_privkey-unwritten (suc fuel) pre [] c rest ctx w e s p k n h =
      let u = with_key-unusable c rest k in
      rw (skip_step fuel c ctx w (rw (s, p) (enumerates w.calls pre (c ∷ rest) e)) u.0) (
        faults c _ n (
          search-Lost fuel (pre ++ c ∷ []) rest (passed c ctx) (asked c ctx w) (e ∙ rw append_assoc)
            s (rw last?-append_one) u.1 (omega arith)))
  load_privkey-unwritten (suc fuel) pre (d ∷ mid) c rest ctx w e s p k n h =
      let u = with_key-unusable d (mid ++ c ∷ rest) k in
      rw
        (
          skip_step fuel d ctx w (rw (s, p) (enumerates w.calls pre (d ∷ (mid ++ c ∷ rest)) e)) u.0,
          load_privkey-unwritten fuel (pre ++ d ∷ []) mid c rest (passed d ctx) (asked d ctx w)
              (e ∙ rw append_assoc) s (rw last?-append_one) u.1 n (omega arith),
        )
        refl
