-- ===== src/Cng/Store/Contents.antt =====
-- What a store hands out over its life, from its URI to its end.
use make_down_file.Prelude.{
  ℕ, ◌+◌, ◌<◌, ◌≡◌, ◌⊎◌, refl, inl, inr, Bool, true, false, Bool-cases, Option, none, some, List,
  ◌∷◌, arith, length,
}
use make_down_file.Run.{
  pure, ◌>>=◌, Returns, returns, Returns-bind, Returns-mono, Ends, Ends-Returns,
}
use make_down_file.Cng.World.{Call, World, M}
use make_down_file.Cng.Env.{Acquired, Env}
use make_down_file.Cng.Store.{
  StoreCtx, are_store_open_args_ok, init_store_ctx, open_context, cng_store_open, cng_store_close,
}
use make_down_file.Cng.Store.Keys.{delivered, Enumerates, AcquiresBy, WritesHandle}
use make_down_file.Cng.Store.Steps.{load_all, AcceptsKeys}
use make_down_file.Cng.Store.Drain.{Ready}
use make_down_file.Cng.Store.Open.{Opened, open_context-Opened}

-- A client that opens a store and reads it to its end: the address of its key object, or `none` if
-- the store was not opened.
unfoldable pub read_opened : Env → ℕ → ℕ → Option StoreCtx → M (Option ℕ)
read_opened env fuel rounds none = pure none
read_opened env fuel rounds (some ctx) = do end ← load_all env fuel rounds ctx; pure (some ctx.key)

unfoldable pub read_store : Env → ℕ → ℕ → StoreCtx → Option ℕ → Option (List ℕ) → M (Option ℕ)
unfolding cng_store_open read_opened
read_store env fuel rounds garbage provctx uri = do
  opened ← cng_store_open env fuel garbage provctx uri
  read_opened env fuel rounds opened

-- A client that opens a store and closes it again; a store that did not open needs no closing.
unfoldable pub close_opened : Env → Option StoreCtx → M Bool
unfolding cng_store_close
close_opened env none = pure true
close_opened env (some ctx) = cng_store_close env ctx

unfoldable pub open_and_close : Env → ℕ → StoreCtx → Option ℕ → Option (List ℕ) → M Bool
unfolding cng_store_open close_opened
open_and_close env fuel garbage provctx uri = do
  opened ← cng_store_open env fuel garbage provctx uri
  close_opened env opened

-- Everything is freed and 1 is returned; or the last call was a CertCloseStore that Windows refused,
-- 0 is returned, and the context and its key object stay.
abbrev pub ClosedOrRefused : Env → World → Bool → World → Type 0
ClosedOrRefused env w done v =
    ((done ≡ true) × (v.blocks ≡ w.blocks))
    ⊎ ((done ≡ false)
        × ((h : ℕ) × (t : List Call) × (v.calls ≡ Call.cert_close_store h ∷ t)
            × (env.cert_close_store t h ≡ false))
        × ((key : ℕ) × (addr : ℕ) × (v.blocks ≡ key ∷ addr ∷ w.blocks)))

module _ (env : Env) (fuel : ℕ) (certs : List ℕ) (key_of : ℕ → Acquired) (handle_of : ℕ → ℕ)
    (enumerates : (h : ℕ) → Enumerates env h certs) (acquires : AcquiresBy env key_of)
    (writes : WritesHandle key_of handle_of certs) (accepts : AcceptsKeys env)
    (deep : length certs < fuel) where
  abbrev pub OpenedIn : World → Option StoreCtx → World → Type 0
  OpenedIn w none w' = (w'.blocks ≡ w.blocks) × (delivered w'.calls ≡ delivered w.calls)
  OpenedIn w (some c) w' =
      (w'.blocks ≡ c.key ∷ c.addr ∷ w.blocks)
      × (delivered w'.calls ≡ delivered w.calls)
      × ((h : ℕ) × Ready env fuel certs key_of handle_of h (enumerates h) acquires writes accepts
            deep c w')

  abbrev pub block_of : StoreCtx → World → StoreCtx
  block_of garbage w = init_store_ctx (record garbage { addr = w.next })

  pub lt-add_one : (n : ℕ) → n < n + 1
  lt-add_one n = omega arith

  unfoldable pub granted : World → World
  granted w = record w { next = w.next + 1; blocks = w.next ∷ w.blocks }

  pub cng_store_open-granted :
      (garbage : StoreCtx) (provctx : Option ℕ) (uri : List ℕ) (w : World)
      → are_store_open_args_ok provctx (some uri) ≡ true
      → env.memory w.next ≡ true
      → cng_store_open env fuel garbage provctx (some uri) w
        ≡ open_context env fuel (block_of garbage w) uri (granted w)
  unfolding cng_store_open granted
  cng_store_open-granted garbage provctx uri w a m = rw (a, m, cng_store_open)

  cng_store_open-refused :
      (garbage : StoreCtx) (provctx : Option ℕ) (uri : List ℕ) (w : World)
      → (are_store_open_args_ok provctx (some uri) ≡ false) ⊎ (env.memory w.next ≡ false)
      → Ends
          (λ r w'. (r ≡ none) × OpenedIn w none w')
          (cng_store_open env fuel garbage provctx (some uri) w)
  unfolding cng_store_open
  cng_store_open-refused garbage provctx uri w h = ground arith

  pub cng_store_open-OpenedIn :
      (garbage : StoreCtx) (provctx : Option ℕ) (uri : Option (List ℕ)) (w : World)
      → Returns (OpenedIn w) (cng_store_open env fuel garbage provctx uri w)
  unfolding cng_store_open granted init_store_ctx
  cng_store_open-OpenedIn garbage provctx none w = returns (refl, refl)
  cng_store_open-OpenedIn garbage provctx (some uri) w =
      elim (Bool-cases (are_store_open_args_ok provctx (some uri))) [
        | inr a ↦ refused (inl a)
        | inl a ↦ elim (Bool-cases (env.memory w.next)) [
          | inr m ↦ refused (inr m)
          | inl m ↦ rw (cng_store_open-granted garbage provctx uri w a m) (
              Returns-mono
                (open_context-Opened env fuel (block_of garbage w) uri (granted w) w.blocks refl
                  (lt-add_one w.next) certs key_of handle_of enumerates acquires writes accepts deep
                  (refl, refl))
                widen)
        ]
      ]
    where
      none_only :
          (c : Option StoreCtx) (v : World) → (c ≡ none) × OpenedIn w none v → OpenedIn w c v
      none_only none v f = f.1
      none_only (some c) v f = cc (f.0)

      refused :
          (are_store_open_args_ok provctx (some uri) ≡ false) ⊎ (env.memory w.next ≡ false)
          → Returns (OpenedIn w) (cng_store_open env fuel garbage provctx (some uri) w)
      refused h =
          Returns-mono (Ends-Returns _ (cng_store_open-refused garbage provctx uri w h)) none_only

      widen :
          (c : Option StoreCtx) (v : World)
          → Opened env fuel
              (block_of garbage w)
              uri
              (granted w)
              w.blocks
              refl
              (lt-add_one w.next)
              certs
              key_of
              handle_of
              enumerates
              acquires
              writes
              accepts
              deep
              (refl, refl)
              c
              v
          → OpenedIn w c v
      widen none v f = f
      widen (some c) v f = f

  close_on :
      (w : World) (r : Option StoreCtx) (w' : World)
      → OpenedIn w r w'
      → Ends (ClosedOrRefused env w) (close_opened env r w')
  unfolding close_opened
  close_on w none w' o = inl (refl, o.0)
  close_on w (some c) w' (b, d, (s, ready)) =
      elim (Bool-cases (env.cert_close_store w'.calls c.windows_certificate_store)) [
        | inl closed ↦ ground arith
        | inr refused ↦
            rw refused (
              inr
                (refl, (c.windows_certificate_store, w'.calls, refl, refused), (c.key, c.addr, b)))
      ]

-- Opening a store and closing it again ends without a fault, whatever the arguments, for a store in
-- which every certificate behind the last usable key has a handle. Either the result is 1 and the
-- blocks are those from before; or the last call was a CertCloseStore that Windows refused, the
-- result is 0, and exactly the two blocks of the store stay allocated.
pub open_and_close-blocks :
    (env : Env) (fuel : ℕ) (certs : List ℕ) (key_of : ℕ → Acquired) (handle_of : ℕ → ℕ)
    (garbage : StoreCtx) (provctx : Option ℕ) (uri : Option (List ℕ)) (w : World)
    → ((h : ℕ) → Enumerates env h certs)
    → AcquiresBy env key_of
    → WritesHandle key_of handle_of certs
    → AcceptsKeys env
    → length certs < fuel
    → Returns (ClosedOrRefused env w) (open_and_close env fuel garbage provctx uri w)
unfolding open_and_close
open_and_close-blocks env fuel certs key_of handle_of garbage provctx uri w enumerates acquires
      writes accepts deep =
    Returns-bind
      (cng_store_open-OpenedIn env fuel certs key_of handle_of enumerates acquires writes accepts
        deep garbage provctx uri w)
      (λ r w' o.
        Ends-Returns _ (
          close_on env fuel certs key_of handle_of enumerates acquires writes accepts deep w r w'
            o))
