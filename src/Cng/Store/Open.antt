-- ===== src/Cng/Store/Open.antt =====
-- Opening a store: no leak on a failure, and a context ready to be read on success.
use make_down_file.Prelude.{
  ℕ, ◌+◌, ◌<◌, ◌≡◌, ◌∙◌, refl, inl, inr, Bool, true, false, not, Bool-cases, Option-cases, Option,
  none, some, List, [], ◌∷◌, arith, length, head?, if◌then◌else◌, is_some, ◌==◌,
}
use make_down_file.Run.{
  Run, pure, and_then, Returns, returns, Returns-bind, Returns-mono, Ends, Ends-Returns,
}
use make_down_file.Cng.World.{Call, World}
use make_down_file.Cng.Env.{Acquired, Env}
use make_down_file.Cng.Store.{
  StoreCtx, parse_uri_from_store_open, open_context, load_another_privkey_from_store_into_context,
}
use make_down_file.Cng.Store.Keys.{
  delivered, Enumerates, AcquiresBy, WritesHandle, load_privkey-Searched, Searched,
}
use make_down_file.Cng.Store.Steps.{AcceptsKeys}
use make_down_file.Cng.Store.Drain.{Ready, Searched-Remaining}

module _ (env : Env) (fuel : ℕ) (ctx : StoreCtx) (uri : List ℕ) (w : World) (bs : List ℕ)
    (top : w.blocks ≡ ctx.addr ∷ bs) (below : ctx.addr < w.next) where
  -- The context once the URI is parsed.
  abbrev parsed : StoreCtx × Bool
  parsed = parse_uri_from_store_open (record ctx { key = w.next }) uri

  -- A NULL result: both blocks are freed, and nothing was delivered.
  abbrev Failed : Option StoreCtx → World → Type 0
  Failed r w' = (r ≡ none) × (w'.blocks ≡ bs) × (delivered w'.calls ≡ delivered w.calls)

  open_no_key : env.memory w.next ≡ false → Ends Failed (open_context env fuel ctx uri w)
  unfolding open_context delivered
  open_no_key m = ground arith

  open_no_name :
      env.memory w.next ≡ true → parsed.1 ≡ false → Ends Failed (open_context env fuel ctx uri w)
  unfolding open_context delivered
  open_no_name m p = ground arith

  open_no_store :
      env.memory w.next ≡ true
      → parsed.1 ≡ true
      → env.cert_open_system_store w.calls parsed.0.windows_system_store_name ≡ none
      → Ends Failed (open_context env fuel ctx uri w)
  unfolding open_context delivered
  open_no_store m p o = ground arith

  -- The context and the world after the first certificate was fetched.
  abbrev fetched : ℕ → Option ℕ → StoreCtx
  fetched h first = record parsed.0 {
    windows_certificate_store = h;
    prev_cert_ctx = first;
    cert_store_eof = not (is_some first);
  }

  abbrev opened_world : ℕ → World
  opened_world h = record w {
    next = w.next + 1;
    blocks = w.next ∷ w.blocks;
    windows_key_handle = λ k. if k == w.next then 0 else w.windows_key_handle k;
    calls =
        Call.cert_enum_certificates_in_store h parsed.0.prev_cert_ctx
        ∷ Call.cert_open_system_store parsed.0.windows_system_store_name
        ∷ w.calls;
  }

  open_store :
      (h : ℕ) {first : Option ℕ}
      → env.memory w.next ≡ true
      → parsed.1 ≡ true
      → env.cert_open_system_store w.calls parsed.0.windows_system_store_name ≡ some h
      → env.cert_enum_certificates_in_store
          (Call.cert_open_system_store parsed.0.windows_system_store_name ∷ w.calls)
          h
          parsed.0.prev_cert_ctx
        ≡ first
      → open_context env fuel ctx uri w
        ≡ and_then
            (load_another_privkey_from_store_into_context env fuel
              (fetched h first)
              (opened_world h))
            (λ r. pure (some r.0))
  unfolding open_context
  open_store h m p o f = ground arith

  module _ (certs : List ℕ) (key_of : ℕ → Acquired) (handle_of : ℕ → ℕ)
      (enumerates : (h : ℕ) → Enumerates env h certs) (acquires : AcquiresBy env key_of)
      (writes : WritesHandle key_of handle_of certs) (accepts : AcceptsKeys env)
      (deep : length certs < fuel)
      (starts : (ctx.prev_cert_ctx ≡ none) × (ctx.prev_key_cert_ctx ≡ none)) where
    -- A NULL result, with the blocks as they were; or a context, with two blocks more, from which
    -- everything is still to come.
    abbrev pub Opened : Option StoreCtx → World → Type 0
    Opened none w' = (w'.blocks ≡ bs) × (delivered w'.calls ≡ delivered w.calls)
    Opened (some c) w' =
        (w'.blocks ≡ c.key ∷ c.addr ∷ bs)
        × (delivered w'.calls ≡ delivered w.calls)
        × ((h : ℕ) × Ready env fuel certs key_of handle_of h (enumerates h) acquires writes accepts
              deep c w')

    Opened_of_Searched :
        (h : ℕ) (c : StoreCtx) (w' : World)
        → Searched env certs key_of handle_of h
            (enumerates h)
            acquires
            writes
            certs
            (fetched h (head? certs))
            (opened_world h)
            c
            w'
        → Opened (some c) w'
    unfolding parse_uri_from_store_open delivered
    Opened_of_Searched h c w' f = (
      f.same_blocks ∙ rw (f.same_key, f.same_addr, top),
      f.same_delivered,
      (
        h,
        (
          f.same_store,
          f.same_cert,
          f.same_eof,
          Searched-Remaining env fuel certs key_of handle_of h (enumerates h) acquires writes
              accepts deep certs (fetched h (head? certs)) (opened_world h) c w' f,
        ),
      ),
    )

    Opened_of_Failed : {r : Run World (Option StoreCtx)} → Ends Failed r → Returns Opened r
    Opened_of_Failed {r} e = Returns-mono (Ends-Returns r e) none_only
      where
        none_only : (c : Option StoreCtx) (v : World) → Failed c v → Opened c v
        none_only none v f = (f.1, f.2)
        none_only (some c) v f = cc (f.0)

    none_before :
        (h : ℕ) (t : List Call)
        → env.cert_enum_certificates_in_store t h parsed.0.prev_cert_ctx ≡ head? certs
    unfolding parse_uri_from_store_open
    none_before h t = rw starts.0 (enumerates h t [] certs refl)

    open_context-found :
        (h : ℕ)
        → env.memory w.next ≡ true
        → parsed.1 ≡ true
        → env.cert_open_system_store w.calls parsed.0.windows_system_store_name ≡ some h
        → Returns Opened (open_context env fuel ctx uri w)
    unfolding parse_uri_from_store_open
    open_context-found h m p o = rw (open_store h m p o (none_before h _)) (
        Returns-bind
          (load_privkey-Searched env certs key_of handle_of h (enumerates h) acquires writes fuel []
            certs (fetched h (head? certs)) (opened_world h) refl refl starts.1 deep)
          (λ r w' f. returns (Opened_of_Searched h r.0 w' f)))

    pub open_context-some :
        (h : ℕ)
        → env.memory w.next ≡ true
        → parsed.1 ≡ true
        → env.cert_open_system_store w.calls parsed.0.windows_system_store_name ≡ some h
        → Returns (λ r w'. (c : StoreCtx) × (r ≡ some c)) (open_context env fuel ctx uri w)
    unfolding parse_uri_from_store_open
    open_context-some h m p o = rw (open_store h m p o (none_before h _)) (
        Returns-bind
          (load_privkey-Searched env certs key_of handle_of h (enumerates h) acquires writes fuel []
            certs (fetched h (head? certs)) (opened_world h) refl refl starts.1 deep)
          (λ r w' f. returns (r.0, refl)))

    pub open_context-Opened : Returns Opened (open_context env fuel ctx uri w)
    open_context-Opened = elim (Bool-cases (env.memory w.next)) [
      | inr m ↦ Opened_of_Failed (open_no_key m)
      | inl m ↦ elim (Bool-cases parsed.1) [
        | inr p ↦ Opened_of_Failed (open_no_name m p)
        | inl p ↦
            elim (Option-cases
              (env.cert_open_system_store w.calls parsed.0.windows_system_store_name)) [
                | inl o ↦ Opened_of_Failed (open_no_store m p o)
                | inr (h, o) ↦ open_context-found h m p o
              ]
      ]
    ]
