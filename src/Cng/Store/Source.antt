-- ===== src/Cng/Store/Source.antt =====
-- What a loaded store promises the core: a source of objects that each load takes the next one from.
use mathlib.Core.List.{append_assoc}
use make_down_file.Prelude.{
  ℕ, ◌<◌, ◌≡◌, ◌∙◌, refl, ap, inl, inr, Bool, true, false, Option, none, some, List, [], ◌∷◌, ◌++◌,
  arith, length, drop, last?-append_one,
}
use make_down_file.Run.{Returns, returns, Returns-bind}
use make_down_file.Cng.World.{Object, cert, pkey, Call, World}
use make_down_file.Cng.Env.{Acquired, Env}
use make_down_file.Cng.Store.{StoreCtx, cng_store_load, cng_store_eof}
use make_down_file.Cng.Store.Steps.{AcceptsKeys, handed, key_step, cert_step}
use make_down_file.Cng.Store.Keys.{
  delivered, Enumerates, AcquiresBy, WritesHandle, with_key, Searched, load_privkey-Searched,
}
use make_down_file.Cng.Store.Drain.{
  Remaining, Searched-Remaining, deep_enough, eof-key, eof-cert, behind,
}

-- The abstract store: the certificates and the certificates of the keys that are still to come.
pub record Source : Type 0 where
  pub certs : List ℕ
  pub keys : List ℕ

-- The next object, and what is left: first the certificates, then the keys.
unfoldable pub next : (ℕ → ℕ) → ℕ → Source → Option (Object × Source)
next handle_of key s = elim s.certs [
  | c ∷ rest ↦ some (cert c, record s { certs = rest })
  | [] ↦ elim s.keys [
    | [] ↦ none
    | c ∷ rest ↦ some (pkey key (handle_of c), record s { keys = rest })
  ]
]

-- The first of the list.
abbrev first_or : ℕ → List ℕ → ℕ
first_or n [] = n
first_or n (c ∷ cs) = c

module _ (env : Env) (search : ℕ) (certs : List ℕ) (key_of : ℕ → Acquired) (handle_of : ℕ → ℕ)
    (store : ℕ) (enumerates : Enumerates env store certs) (acquires : AcquiresBy env key_of)
    (writes : WritesHandle key_of handle_of certs) (accepts : AcceptsKeys env)
    (deep : length certs < search) where
  abbrev CertsLeft : List ℕ → StoreCtx → Type 0
  CertsLeft [] ctx = ctx.cert_store_eof ≡ true
  CertsLeft (c ∷ post) ctx =
      (ctx.cert_store_eof ≡ false)
      × (ctx.prev_cert_ctx ≡ some c)
      × ((pre : List ℕ) × (certs ≡ pre ++ c ∷ post))

  abbrev KeysLeft : List ℕ → StoreCtx → World → Type 0
  KeysLeft ks ctx w =
      Remaining env search certs key_of handle_of store enumerates acquires writes accepts deep ks
        ctx w

  -- The context and the world stand for the source.
  abbrev pub Holds : Source → StoreCtx → World → Type 0
  Holds s ctx w =
      (ctx.windows_certificate_store ≡ store) × CertsLeft s.certs ctx × KeysLeft s.keys ctx w

  -- After a load that gave `o`.
  abbrev pub Loaded : Object → Source → StoreCtx → World → StoreCtx × Bool → World → Type 0
  Loaded o s ctx w r w' =
      (r.1 ≡ true)
      × (delivered w'.calls ≡ delivered w.calls ++ o ∷ [])
      × (r.0.key ≡ ctx.key)
      × Holds s r.0 w'

  abbrev pub Gives : Option (Object × Source) → StoreCtx → World → Type 0
  Gives none ctx w = cng_store_eof ctx ≡ true
  Gives (some (o, s)) ctx w =
      (cng_store_eof ctx ≡ false) × Returns (Loaded o s ctx w) (cng_store_load env search ctx w)

  load_cert :
      (c : ℕ) (post ks : List ℕ) (ctx : StoreCtx) (w : World)
      → Holds (record { certs = c ∷ post; keys = ks }) ctx w
      → Returns
          (Loaded (cert c) (record { certs = post; keys = ks }) ctx w)
          (cng_store_load env search ctx w)
  unfolding delivered
  load_cert c [] ks ctx w (s, (a, p, (pre, e)), r) =
      rw
        (cert_step env search c none ctx w a p (
          rw s (
            behind env search certs key_of handle_of store enumerates acquires writes accepts deep
              pre [] c (Call.callback (cert c) ∷ w.calls) e)))
        (returns (refl, refl, refl, (s, refl, r)))
  load_cert c (d ∷ post) ks ctx w (s, (a, p, (pre, e)), r) =
      rw
        (cert_step env search c (some d) ctx w a p (
          rw s (
            behind env search certs key_of handle_of store enumerates acquires writes accepts deep
              pre (d ∷ post) c (Call.callback (cert c) ∷ w.calls) e)))
        (returns (refl, refl, refl, (s, (a, refl, (pre ++ c ∷ [], e ∙ rw append_assoc)), r)))

  -- The keys left behind the first one.
  key_Loaded :
      (c d : ℕ) (ks rest : List ℕ) (ctx : StoreCtx) (w : World) (r : StoreCtx) (w1 : World)
      → ctx.windows_certificate_store ≡ store
      → ctx.cert_store_eof ≡ true
      → c ∷ ks ≡ d ∷ with_key key_of rest
      → w.windows_key_handle ctx.key ≡ handle_of d
      → Searched env certs key_of handle_of store enumerates acquires writes rest ctx
          (handed env search (pkey ctx.key (w.windows_key_handle ctx.key)) w)
          r
          w1
      → Loaded (pkey ctx.key (handle_of c)) (record { certs = []; keys = ks }) ctx w (r, true) w1
  unfolding delivered
  key_Loaded c d ks rest ctx w r w1 s a keys handle f =
      let first : c ≡ d = ap (λ (l : List ℕ). first_or 0 l) keys in
      let others : ks ≡ with_key key_of rest = ap (λ (l : List ℕ). drop 1 l) keys in
      (
        refl,
        rw (f.same_delivered, handle, first),
        f.same_key,
        (
          f.same_store ∙ s,
          f.same_eof ∙ a,
          rw others (
              Searched-Remaining env search certs key_of handle_of store enumerates acquires writes
                accepts deep rest ctx
                (handed env search (pkey ctx.key (w.windows_key_handle ctx.key)) w) r w1 f),
        ),
      )

  load_key :
      (c : ℕ) (ks : List ℕ) (ctx : StoreCtx) (w : World)
      → Holds (record { certs = []; keys = c ∷ ks }) ctx w
      → (ctx.priv_key_store_eof ≡ false)
        × Returns
            (Loaded (pkey ctx.key (handle_of c)) (record { certs = []; keys = ks }) ctx w)
            (cng_store_load env search ctx w)
  load_key c ks ctx w (s, a, inl (eof, empty)) = let f : ⊥ = cc (empty) in elim f [ ]
  load_key c ks ctx w (s, a, inr (d, before, rest, splits, keys, live, current, handle)) = (
    live,
    rw (key_step env search ctx w accepts a live) (
        Returns-bind
          (load_privkey-Searched env certs key_of handle_of store enumerates acquires writes search
            (before ++ d ∷ []) rest ctx
            (handed env search (pkey ctx.key (w.windows_key_handle ctx.key)) w)
            (splits ∙ rw append_assoc) s (rw last?-append_one current)
            (deep_enough env search certs key_of handle_of store enumerates acquires writes accepts
              deep before rest d splits))
          (λ r w1 f. returns (key_Loaded c d ks rest ctx w r.0 w1 s a keys handle f))),
  )

  no_more :
      (ctx : StoreCtx) (w : World) → CertsLeft [] ctx → KeysLeft [] ctx w → cng_store_eof ctx ≡ true
  unfolding cng_store_eof
  no_more ctx w a (inl (eof, empty)) = ground arith
  no_more ctx w a (inr (d, before, rest, splits, keys, live, current, handle)) =
      let f : ⊥ = cc (keys) in elim f [ ]

  gives :
      (post ks : List ℕ) (ctx : StoreCtx) (w : World)
      → Holds (record { certs = post; keys = ks }) ctx w
      → Gives (next handle_of ctx.key (record { certs = post; keys = ks })) ctx w
  unfolding next
  gives (c ∷ post) ks ctx w h = (
    eof-cert env search certs key_of handle_of store enumerates acquires writes accepts deep ctx
        (h.1).0,
    load_cert c post ks ctx w h,
  )
  gives [] [] ctx w h = no_more ctx w h.1 h.2
  gives [] (c ∷ ks) ctx w h =
      let l = load_key c ks ctx w h in
      (
        eof-key env search certs key_of handle_of store enumerates acquires writes accepts deep ctx
            h.1 l.0,
        l.1,
      )

  -- For a store of the certificates `certs`, where a handle was written for each usable key and for each
  -- certificate behind the last of these, the core accepts keys, and the fuel is above the number of
  -- certificates: a context that stands for a source gives what the source gives: if the source is empty the context
  -- is at its end, and otherwise it is not, and one load ends without a fault, hands the core the
  -- source's next object and nothing else, and stands for the rest.
  pub cng_store_load-next :
      (s : Source) (ctx : StoreCtx) (w : World)
      → Holds s ctx w
      → Gives (next handle_of ctx.key s) ctx w
  cng_store_load-next s ctx w h = gives s.certs s.keys ctx w h
