-- ===== src/Cng/Store/Drain.antt =====
-- Reading a store to its end, as the client program does: what reaches the core's callback.
use mathlib.Core.List.{append-nil, append_assoc}
use make_down_file.Prelude.{
  ℕ, zero, suc, ◌+◌, ◌<◌, ◌≡◌, ◌⊎◌, ◌∙◌, refl, sym, ap, inl, inr, Bool, true, false, not, none,
  some, List, [], ◌∷◌, ◌++◌, map, arith, length, length-append, head?, last?-append_one, is_some,
}
use make_down_file.Run.{ok, Returns, returns, Returns-bind, Returns-mono}
use make_down_file.Cng.World.{Object, cert, pkey, Call, World}
use make_down_file.Cng.Env.{Acquired, Env}
use make_down_file.Cng.Store.{StoreCtx, cng_store_eof}
use make_down_file.Cng.Store.Steps.{
  load_all, AcceptsKeys, contents, load_all-step, load_all-eof, handed, key_step, after_cert,
  cert_step,
}
use make_down_file.Cng.Store.Keys.{
  delivered, Enumerates, AcquiresBy, WritesHandle, with_key, Searched, load_privkey-Searched,
}

module _ (env : Env) (search : ℕ) (certs : List ℕ) (key_of : ℕ → Acquired) (handle_of : ℕ → ℕ)
    (store : ℕ) (enumerates : Enumerates env store certs) (acquires : AcquiresBy env key_of)
    (writes : WritesHandle key_of handle_of certs) (accepts : AcceptsKeys env)
    (deep : length certs < search) where
  abbrev key_objects : ℕ → List ℕ → List Object
  key_objects key ks = map (λ c. pkey key (handle_of c)) ks

  -- The keys `ks` are still to come, the first of them being loaded.
  abbrev pub Remaining : List ℕ → StoreCtx → World → Type 0
  Remaining ks ctx w =
      ((ctx.priv_key_store_eof ≡ true) × (ks ≡ []))
      ⊎ ((c : ℕ) × (before : List ℕ) × (rest : List ℕ) × (certs ≡ before ++ c ∷ rest)
          × (ks ≡ c ∷ with_key key_of rest)
          × (ctx.priv_key_store_eof ≡ false)
          × (ctx.prev_key_cert_ctx ≡ some c)
          × (w.windows_key_handle ctx.key ≡ handle_of c))

  pub Searched-Remaining :
      (post : List ℕ) (ctx : StoreCtx) (w : World) (ctx' : StoreCtx) (w' : World)
      → Searched env certs key_of handle_of store enumerates acquires writes post ctx w ctx' w'
      → Remaining (with_key key_of post) ctx' w'
  Searched-Remaining post ctx w ctx' w' s = elim s.outcome [
    | inl (eof, empty) ↦ inl (eof, empty)
    | inr l ↦ inr (l.cert, l.before, l.rest, l.splits, l.keys, l.open_still, l.current, l.handle)
  ]

  -- Fuel above the number of all certificates is enough for a search among some of them.
  pub deep_enough :
      (before rest : List ℕ) (c : ℕ) → certs ≡ before ++ c ∷ rest → length rest < search
  deep_enough before rest c e =
      omega (arith, ap (λ (l : List ℕ). length l) e, length-append {0} before (c ∷ rest))

  pub eof-key :
      (ctx : StoreCtx)
      → ctx.cert_store_eof ≡ true
      → ctx.priv_key_store_eof ≡ false
      → cng_store_eof ctx ≡ false
  unfolding cng_store_eof
  eof-key ctx a b = ground arith

  abbrev Found : List ℕ → StoreCtx → World → StoreCtx → World → Type 0
  Found rest ctx w ctx' w' =
      Searched env certs key_of handle_of store enumerates acquires writes rest ctx
        (handed env search (pkey ctx.key (w.windows_key_handle ctx.key)) w) ctx' w'

  key-Found :
      (rest : List ℕ) (ctx : StoreCtx) (w : World) (ctx' : StoreCtx) (w' : World)
      → Found rest ctx w ctx' w'
      → Returns (λ (r : StoreCtx × Bool) v. Found rest ctx w r.0 v) (ok (ctx', true) w')
  key-Found rest ctx w ctx' w' f = returns f

  key_joined :
      (c : ℕ) (rest ks : List ℕ) (ctx : StoreCtx) (w : World) (ctx' : StoreCtx) (w' : World)
      → w.windows_key_handle ctx.key ≡ handle_of c
      → ks ≡ c ∷ with_key key_of rest
      → Found rest ctx w ctx' w'
      → delivered w'.calls ++ key_objects ctx'.key (with_key key_of rest)
        ≡ delivered w.calls ++ key_objects ctx.key ks
  unfolding delivered
  key_joined c rest ks ctx w ctx' w' handle keys f =
      rw (f.same_delivered, f.same_key, handle, keys, append_assoc)

  keys_delivered :
      (fuel : ℕ) (ks : List ℕ) (ctx : StoreCtx) (w : World)
      → ctx.cert_store_eof ≡ true
      → ctx.windows_certificate_store ≡ store
      → Remaining ks ctx w
      → length ks < fuel
      → Returns
          (λ _ w'. delivered w'.calls ≡ delivered w.calls ++ key_objects ctx.key ks)
          (load_all env search fuel ctx w)
  unfolding delivered
  keys_delivered zero ks ctx w a s r h = absurd (omega arith)
  keys_delivered (suc fuel) ks ctx w a s (inl (eof, empty)) h =
      rw (load_all-eof env search fuel ctx w a eof) (returns (rw (empty, append-nil)))
  keys_delivered (suc fuel) ks ctx w a s
        (inr (c, before, rest, splits, keys, live, current, handle)) h =
      rw
        (
          load_all-step env search fuel ctx w (eof-key ctx a live),
          key_step env search ctx w accepts a live,
        )
        (Returns-bind
          (Returns-bind
            (load_privkey-Searched env certs key_of handle_of store enumerates acquires writes
              search (before ++ c ∷ []) rest ctx
              (handed env search (pkey ctx.key (w.windows_key_handle ctx.key)) w)
              (splits ∙ rw append_assoc) s (rw last?-append_one current)
              (deep_enough before rest c splits))
            (λ r w1 f. key-Found rest ctx w r.0 w1 f))
          (λ r w1 f.
            Returns-mono
              (keys_delivered fuel (with_key key_of rest) r.0 w1 (f.same_eof ∙ a) (f.same_store ∙ s)
                (Searched-Remaining rest ctx
                  (handed env search (pkey ctx.key (w.windows_key_handle ctx.key)) w) r.0 w1 f)
                (omega (arith, ap (λ (l : List ℕ). length l) keys)))
              (λ _ w2 d. d ∙ key_joined c rest ks ctx w r.0 w1 handle keys f)))

  pub eof-cert : (ctx : StoreCtx) → ctx.cert_store_eof ≡ false → cng_store_eof ctx ≡ false
  unfolding cng_store_eof
  eof-cert ctx a = ground arith

  -- What the enumeration gives behind `c`.
  pub behind :
      (pre post : List ℕ) (c : ℕ) (t : List Call)
      → certs ≡ pre ++ c ∷ post
      → env.cert_enum_certificates_in_store t store (some c) ≡ head? post
  behind pre post c t e =
      rw (last?-append_one pre c) at (enumerates t (pre ++ c ∷ []) post (e ∙ rw append_assoc))

  certs_delivered :
      (post : List ℕ) (fuel : ℕ) (pre ks : List ℕ) (c : ℕ) (ctx : StoreCtx) (w : World)
      → certs ≡ pre ++ c ∷ post
      → ctx.cert_store_eof ≡ false
      → ctx.prev_cert_ctx ≡ some c
      → ctx.windows_certificate_store ≡ store
      → Remaining ks ctx w
      → length post + length ks + 1 < fuel
      → Returns
          (λ _ w'.
            delivered w'.calls
            ≡ delivered w.calls ++ (map cert (c ∷ post) ++ key_objects ctx.key ks))
          (load_all env search fuel ctx w)
  unfolding delivered
  certs_delivered post zero pre ks c ctx w e a p s r h = absurd (omega arith)
  certs_delivered [] (suc fuel) pre ks c ctx w e a p s r h =
      rw
        (
          load_all-step env search fuel ctx w (eof-cert ctx a),
          cert_step env search c none ctx w a p
              (rw s (behind pre [] c (Call.callback (cert c) ∷ w.calls) e)),
        )
        (Returns-mono
          (keys_delivered fuel ks _ (after_cert env search c none ctx w) refl s r (omega arith))
          (λ _ w' d. d ∙ append_assoc (delivered w.calls) (cert c ∷ []) (key_objects ctx.key ks)))
  certs_delivered (d ∷ post) (suc fuel) pre ks c ctx w e a p s r h =
      rw
        (
          load_all-step env search fuel ctx w (eof-cert ctx a),
          cert_step env search c (some d) ctx w a p
              (rw s (behind pre (d ∷ post) c (Call.callback (cert c) ∷ w.calls) e)),
        )
        (Returns-mono
          (certs_delivered post fuel (pre ++ c ∷ []) ks d _ (after_cert env search c (some d) ctx w)
            (e ∙ rw append_assoc) a refl s r (omega arith))
          (λ _ w' q.
            q
            ∙ append_assoc (delivered w.calls) (cert c ∷ [])
                (map cert (d ∷ post) ++ key_objects ctx.key ks)))

  -- A context from which everything in the store is still to come.
  abbrev pub Ready : StoreCtx → World → Type 0
  Ready ctx w =
      (ctx.windows_certificate_store ≡ store)
      × (ctx.prev_cert_ctx ≡ head? certs)
      × (ctx.cert_store_eof ≡ not (is_some (head? certs)))
      × Remaining (with_key key_of certs) ctx w

  pub all_delivered :
      (fuel : ℕ) (ctx : StoreCtx) (w : World) (cs : List ℕ)
      → certs ≡ cs
      → Ready ctx w
      → length cs + length (with_key key_of certs) + 1 < fuel
      → Returns
          (λ _ w'.
            delivered w'.calls ≡ delivered w.calls ++ contents key_of handle_of ctx.key certs certs)
          (load_all env search fuel ctx w)
  unfolding contents
  all_delivered fuel ctx w [] e (s, p, a, r) h =
      Returns-mono
        (keys_delivered fuel (with_key key_of certs) ctx w
          (a ∙ ap (λ (l : List ℕ). not (is_some (head? l))) e) s r (omega arith))
        (λ _ w' d.
          d
          ∙ ap
              (λ (l : List ℕ).
                delivered w.calls ++ (map cert l ++ key_objects ctx.key (with_key key_of certs)))
              (sym e))
  all_delivered fuel ctx w (c ∷ cs) e (s, p, a, r) h =
      Returns-mono
        (certs_delivered cs fuel [] (with_key key_of certs) c ctx w e
          (a ∙ ap (λ (l : List ℕ). not (is_some (head? l))) e) (p ∙ ap (λ (l : List ℕ). head? l) e)
          s r (omega arith))
        (λ _ w' d.
          d
          ∙ ap
              (λ (l : List ℕ).
                delivered w.calls ++ (map cert l ++ key_objects ctx.key (with_key key_of certs)))
              (sym e))
