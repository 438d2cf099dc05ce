-- ===== src/Cng/Store/Keys.antt =====
-- Loading the next private key: the search through the certificates that are left.
use mathlib.Core.List.{append_assoc}
use make_down_file.Prelude.{
  ℕ, zero, suc, ◌<◌, ◌≡◌, ◌⊎◌, ◌∙◌, refl, inl, inr, Bool, true, false, not, ◌&&◌, Bool-cases,
  Option, none, some, List, [], ◌∷◌, ◌++◌, ◌==◌, ==_refl, arith, length, head?, last?,
  last?-append_one, if◌then◌else◌, is_some,
}
use make_down_file.Run.{ok, Returns, returns, Returns-bind, Returns-mono}
use make_down_file.Cng.World.{Object, Call, World}
use make_down_file.Cng.Env.{Acquired, Env}
use make_down_file.Cng.Store.{
  StoreCtx, no_more, loaded, unusable, free_local, try_next_key,
  load_another_privkey_from_store_into_context,
}

-- What the callback was handed, in order.
unfoldable pub delivered : List Call → List Object
delivered [] = []
delivered (Call.callback o ∷ t) = delivered t ++ o ∷ []
delivered (_ ∷ t) = delivered t

-- The documented behaviour of CertEnumCertificatesInStore on a store that holds `certs`: behind
-- the certificates `pre` comes the first of the others, and NULL behind the last one.
abbrev pub Enumerates : Env → ℕ → List ℕ → Type 0
Enumerates env store certs =
    (t : List Call) (pre post : List ℕ)
    → certs ≡ pre ++ post
    → env.cert_enum_certificates_in_store t store (last? pre) ≡ head? post

-- The answers about private keys do not change: `key_of c` is the one for certificate `c`.
abbrev pub AcquiresBy : Env → (ℕ → Acquired) → Type 0
AcquiresBy env key_of =
    (t : List Call) (c : ℕ) → env.crypt_acquire_certificate_private_key t c ≡ key_of c

-- A key that the provider can use: an NCrypt key whose handle the caller owns.
abbrev pub usable : Acquired → Bool
usable a = a.retval && a.is_ncrypt_key_spec && a.caller_must_free

-- The certificates whose keys can be used.
unfoldable pub with_key : (ℕ → Acquired) → List ℕ → List ℕ
with_key key_of [] = []
with_key key_of (c ∷ cs) = if usable (key_of c) then c ∷ with_key key_of cs else with_key key_of cs

-- A successful acquisition has written a handle; so has the one for each certificate behind the last
-- usable key. The search for a further key frees the handles of the latter.
abbrev pub WritesHandle : (ℕ → Acquired) → (ℕ → ℕ) → List ℕ → Type 0
WritesHandle key_of handle_of certs =
    ((c : ℕ) → usable (key_of c) ≡ true → (key_of c).key_handle ≡ some (handle_of c))
    × ((pre post : List ℕ) (c : ℕ)
        → certs ≡ pre ++ c ∷ post
        → with_key key_of (c ∷ post) ≡ []
        → (h : ℕ) × ((key_of c).key_handle ≡ some h))

module _ (env : Env) (certs : List ℕ) (key_of : ℕ → Acquired) (handle_of : ℕ → ℕ) (store : ℕ)
    (enumerates : Enumerates env store certs) (acquires : AcquiresBy env key_of)
    (writes : WritesHandle key_of handle_of certs) where
  -- The state in which the key of certificate `c` is loaded, with `post` still to come.
  pub record Loaded (post : List ℕ) (ctx : StoreCtx) (w : World) : Type 0 where
    pub cert : ℕ
    pub before : List ℕ
    pub rest : List ℕ
    pub splits : certs ≡ before ++ cert ∷ rest
    pub keys : with_key key_of post ≡ cert ∷ with_key key_of rest
    pub shorter : length rest < length post
    pub open_still : ctx.priv_key_store_eof ≡ false
    pub current : ctx.prev_key_cert_ctx ≡ some cert
    pub handle : w.windows_key_handle ctx.key ≡ handle_of cert

  -- What the search leaves alone, and what it finds.
  pub record Searched (post : List ℕ) (ctx : StoreCtx) (w : World) (ctx' : StoreCtx) (w' : World)
      : Type 0 where
    pub same_key : ctx'.key ≡ ctx.key
    pub same_addr : ctx'.addr ≡ ctx.addr
    pub same_store : ctx'.windows_certificate_store ≡ ctx.windows_certificate_store
    pub same_cert : ctx'.prev_cert_ctx ≡ ctx.prev_cert_ctx
    pub same_eof : ctx'.cert_store_eof ≡ ctx.cert_store_eof
    pub same_blocks : w'.blocks ≡ w.blocks
    pub same_delivered : delivered w'.calls ≡ delivered w.calls
    pub outcome :
        ((ctx'.priv_key_store_eof ≡ true) × (with_key key_of post ≡ [])) ⊎ Loaded post ctx' w'

  abbrev moved : StoreCtx → Option ℕ → StoreCtx
  moved ctx next = record ctx { prev_key_cert_ctx = next; priv_key_store_eof = not (is_some next) }

  abbrev asked : StoreCtx → World → World
  asked ctx w = record w {
    calls =
        Call.cert_enum_certificates_in_store ctx.windows_certificate_store ctx.prev_key_cert_ctx
        ∷ w.calls;
  }

  abbrev tried : ℕ → StoreCtx → World → World
  tried c ctx w = record w {
    calls = Call.crypt_acquire_certificate_private_key c ∷ (asked ctx w).calls;
  }

  module _ (ctx : StoreCtx) (w : World) {next : Option ℕ}
      (e : env.cert_enum_certificates_in_store w.calls ctx.windows_certificate_store
          ctx.prev_key_cert_ctx
        ≡ next) where
    try-none : next ≡ none → try_next_key env ctx w ≡ ok (moved ctx none, no_more) (asked ctx w)
    unfolding try_next_key
    try-none n = ground arith

    try-unusable :
        (c : ℕ)
        → next ≡ some c
        → usable (key_of c) ≡ false
        → try_next_key env ctx w
          ≡ ok (moved ctx (some c), unusable (key_of c).key_handle) (tried c ctx w)
    unfolding try_next_key
    try-unusable c n u = ground (arith, acquires (asked ctx w).calls c)

    try-loaded :
        (c : ℕ)
        → next ≡ some c
        → usable (key_of c) ≡ true
        → try_next_key env ctx w
          ≡ ok
              (moved ctx (some c), loaded)
              (record (tried c ctx w) {
                windows_key_handle =
                    λ k. if k == ctx.key then handle_of c else w.windows_key_handle k;
              })
    unfolding try_next_key
    try-loaded c n u = ground (arith, acquires (asked ctx w).calls c, writes.0 c u)

  Loaded-skip :
      (c : ℕ) (post : List ℕ) (ctx : StoreCtx) (w : World)
      → usable (key_of c) ≡ false
      → Loaded post ctx w
      → Loaded (c ∷ post) ctx w
  unfolding with_key
  Loaded-skip c post ctx w u l = record {
    cert = l.cert;
    before = l.before;
    rest = l.rest;
    splits = l.splits;
    keys = rw u l.keys;
    shorter = omega arith;
    open_still = l.open_still;
    current = l.current;
    handle = l.handle;
  }

  Searched-skip :
      (c : ℕ) (post : List ℕ) (ctx : StoreCtx) (w : World) (ctx' : StoreCtx) (w' : World)
      → usable (key_of c) ≡ false
      → Searched post (moved ctx (some c)) (tried c ctx w) ctx' w'
      → Searched (c ∷ post) ctx w ctx' w'
  unfolding with_key delivered
  Searched-skip c post ctx w ctx' w' u f = record {
    same_key = f.same_key;
    same_addr = f.same_addr;
    same_store = f.same_store;
    same_cert = f.same_cert;
    same_eof = f.same_eof;
    same_blocks = f.same_blocks;
    same_delivered = f.same_delivered;
    outcome = elim f.outcome [
      | inl (eof, empty) ↦ inl (eof, rw u empty)
      | inr l ↦ inr (Loaded-skip c post ctx' w' u l)
    ];
  }

  -- Freeing an object changes nothing that the search is about.
  abbrev freeing : ℕ → World → World
  freeing h w = record w { calls = Call.ncrypt_free_object (some h) ∷ w.calls }

  Searched-freeing :
      (h : ℕ) (post : List ℕ) (ctx : StoreCtx) (w : World) (ctx' : StoreCtx) (w' : World)
      → Searched post ctx w ctx' w'
      → Searched post ctx w ctx' (freeing h w')
  unfolding delivered
  Searched-freeing h post ctx w ctx' w' f = record {
    same_key = f.same_key;
    same_addr = f.same_addr;
    same_store = f.same_store;
    same_cert = f.same_cert;
    same_eof = f.same_eof;
    same_blocks = f.same_blocks;
    same_delivered = f.same_delivered;
    outcome = elim f.outcome [
      | inl end ↦ inl end
      | inr l ↦ inr (record {
        cert = l.cert;
        before = l.before;
        rest = l.rest;
        splits = l.splits;
        keys = l.keys;
        shorter = l.shorter;
        open_still = l.open_still;
        current = l.current;
        handle = l.handle;
      })
    ];
  }

  -- A search that reports no key has come to the end, and there was none.
  lost-with_key :
      (post : List ℕ) (ctx : StoreCtx) (w : World) (ctx' : StoreCtx) (w' : World) (found : Bool)
      → Searched post ctx w ctx' w'
      → found ≡ not ctx'.priv_key_store_eof
      → found ≡ false
      → (ctx'.priv_key_store_eof ≡ true) × (with_key key_of post ≡ [])
  lost-with_key post ctx w ctx' w' found s e f = elim s.outcome [
    | inl o ↦ o
    | inr l ↦ let o = l.open_still in let b : ⊥ = ground arith in elim b [ ]
  ]

  free_local-some :
      (h : ℕ) (a : Option ℕ) (ctx : StoreCtx) (w : World)
      → a ≡ some h
      → free_local env a ctx w ≡ ok (ctx, false) (freeing h w)
  unfolding free_local
  free_local-some h a ctx w e = rw e refl

  search-Searched :
      (fuel : ℕ) (pre post : List ℕ) (ctx : StoreCtx) (w : World)
      → certs ≡ pre ++ post
      → ctx.windows_certificate_store ≡ store
      → ctx.prev_key_cert_ctx ≡ last? pre
      → length post < fuel
      → Returns
          (λ r w'. Searched post ctx w r.0 w' × (r.1 ≡ not r.0.priv_key_store_eof))
          (load_another_privkey_from_store_into_context env fuel ctx w)
  unfolding load_another_privkey_from_store_into_context delivered with_key
  search-Searched zero pre post ctx w e s p h = absurd (omega arith)
  search-Searched (suc fuel) pre [] ctx w e s p h =
      rw (try-none ctx w (rw (s, p) (enumerates w.calls pre [] e)) refl) (
        returns (
          record {
            same_key = refl;
            same_addr = refl;
            same_store = refl;
            same_cert = refl;
            same_eof = refl;
            same_blocks = refl;
            same_delivered = refl;
            outcome = inl (refl, refl);
          },
          refl,
        ))
  search-Searched (suc fuel) pre (c ∷ post) ctx w e s p h = elim (Bool-cases (usable (key_of c))) [
    | inl u ↦ rw (try-loaded ctx w (rw (s, p) (enumerates w.calls pre (c ∷ post) e)) c refl u) (
        returns (
          record {
            same_key = refl;
            same_addr = refl;
            same_store = refl;
            same_cert = refl;
            same_eof = refl;
            same_blocks = refl;
            same_delivered = refl;
            outcome = inr (record {
              cert = c;
              before = pre;
              rest = post;
              splits = e;
              keys = rw u;
              shorter = omega arith;
              open_still = refl;
              current = refl;
              handle = rw (==_refl ctx.key);
            });
          },
          refl,
        ))
    | inr u ↦ rw (try-unusable ctx w (rw (s, p) (enumerates w.calls pre (c ∷ post) e)) c refl u) (
        Returns-bind
          (search-Searched fuel (pre ++ c ∷ []) post (moved ctx (some c)) (tried c ctx w)
            (e ∙ rw append_assoc) s (rw last?-append_one) (omega arith))
          (λ r w' (found, agrees). elim (Bool-cases r.1) [
            | inl got ↦
                rw got (returns (Searched-skip c post ctx w r.0 w' u found, rw got at agrees))
            | inr lost ↦
                let end = lost-with_key post _ _ r.0 w' r.1 found agrees lost in
                let written = writes.1 pre post c e (rw u end.1) in
                rw (lost, free_local-some written.0 _ r.0 w' written.1)
                  (returns (
                    Searched-freeing written.0 (c ∷ post) ctx w r.0 w'
                        (Searched-skip c post ctx w r.0 w' u found),
                    rw end.0 refl,
                  ))
          ]))
  ]

  -- The search through the certificates that are left ends without a fault. It finds the first one
  -- with a usable key and puts that key's handle into the key object, or reports the end if there is
  -- none; nothing is delivered meanwhile, and no block is allocated or freed.
  pub load_privkey-Searched :
      (fuel : ℕ) (pre post : List ℕ) (ctx : StoreCtx) (w : World)
      → certs ≡ pre ++ post
      → ctx.windows_certificate_store ≡ store
      → ctx.prev_key_cert_ctx ≡ last? pre
      → length post < fuel
      → Returns
          (λ r w'. Searched post ctx w r.0 w')
          (load_another_privkey_from_store_into_context env fuel ctx w)
  load_privkey-Searched fuel pre post ctx w e s p h =
      Returns-mono (search-Searched fuel pre post ctx w e s p h) (λ r w' f. f.0)
