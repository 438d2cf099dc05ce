-- ===== src/Cng/Store/Delivery.antt =====
-- A store that can be opened is opened, and delivers what it holds.
use make_down_file.Prelude.{
  ℕ, ◌+◌, ◌<◌, ◌≡◌, ◌∙◌, refl, arith, true, Option, none, some, List, ◌++◌, length,
}
use make_down_file.Run.{Returns, returns, Returns-bind, Returns-both}
use make_down_file.Cng.World.{StoreName, Call, World}
use make_down_file.Cng.Env.{Acquired, Env}
use make_down_file.Cng.Store.{
  StoreCtx, are_store_open_args_ok, parse_uri_from_store_open, init_store_ctx, cng_store_open,
}
use make_down_file.Cng.Store.Keys.{delivered, Enumerates, AcquiresBy, WritesHandle, with_key}
use make_down_file.Cng.Store.Steps.{AcceptsKeys, contents}
use make_down_file.Cng.Store.Drain.{all_delivered}
use make_down_file.Cng.Store.Open.{open_context-some}
use make_down_file.Cng.Store.Contents.{
  read_store, read_opened, OpenedIn, granted, lt-add_one, cng_store_open-OpenedIn,
  cng_store_open-granted,
}

-- The URI names a system store.
abbrev pub NamesStore : List ℕ → Type 0
NamesStore uri = (ctx : StoreCtx) → (parse_uri_from_store_open ctx uri).1 ≡ true

-- Windows opens every system store.
abbrev pub OpensStores : Env → ℕ → Type 0
OpensStores env h =
    (t : List Call) (name : Option StoreName) → env.cert_open_system_store t name ≡ some h

module _ (env : Env) (fuel : ℕ) (certs : List ℕ) (key_of : ℕ → Acquired) (handle_of : ℕ → ℕ)
    (enumerates : (h : ℕ) → Enumerates env h certs) (acquires : AcquiresBy env key_of)
    (writes : WritesHandle key_of handle_of certs) (accepts : AcceptsKeys env)
    (deep : length certs < fuel) where
  cng_store_open-some :
      (garbage : StoreCtx) (provctx : Option ℕ) (uri : List ℕ) (h : ℕ) (w : World)
      → are_store_open_args_ok provctx (some uri) ≡ true
      → NamesStore uri
      → OpensStores env h
      → env.memory w.next ≡ true
      → env.memory (w.next + 1) ≡ true
      → Returns
          (λ r w'. (c : StoreCtx) × (r ≡ some c))
          (cng_store_open env fuel garbage provctx (some uri) w)
  unfolding granted init_store_ctx
  cng_store_open-some garbage provctx uri h w a names opens m1 m2 =
      rw
        (cng_store_open-granted env fuel certs key_of handle_of enumerates acquires writes accepts
          deep garbage provctx uri w a m1)
        (open_context-some env fuel _ uri _ w.blocks refl
          (lt-add_one env fuel certs key_of handle_of enumerates acquires writes accepts deep
            w.next)
          certs key_of handle_of enumerates acquires writes accepts deep (refl, refl) h m2 (names _)
          (opens _ _))

  read_all :
      (rounds : ℕ) (w : World)
      → length certs + length (with_key key_of certs) + 1 < rounds
      → (r : Option StoreCtx) (w' : World)
      → OpenedIn env fuel certs key_of handle_of enumerates acquires writes accepts deep w r w'
        × ((c : StoreCtx) × (r ≡ some c))
      → Returns
          (λ k v.
            (key : ℕ) × (k ≡ some key)
            × (delivered v.calls ≡ delivered w.calls ++ contents key_of handle_of key certs certs))
          (read_opened env fuel rounds r w')
  unfolding read_opened
  read_all rounds w h none w' (o, (c, e)) = let f : ⊥ = ground (arith, e) in elim f [ ]
  read_all rounds w h (some c) w' ((b, d, (s, ready)), some_c) =
      Returns-bind
        (all_delivered env fuel certs key_of handle_of s (enumerates s) acquires writes accepts deep
          rounds c w' certs refl ready h)
        (λ end v q. returns (c.key, refl, q ∙ rw d))

-- Reading a store to its end, where the URI names a store that Windows opens, the two blocks of the
-- store are granted, the store holds the certificates `certs`, a handle was written for each usable
-- key and for each certificate behind the last of these, and the core accepts keys. With
-- fuel above the number of certificates for each search and above that of all objects for the
-- loop, the run ends without a fault and the store is opened: the callback was handed each
-- certificate once, in the store's order, and then each usable private key once, in the same order,
-- through one key object.
pub read_store-delivers :
    (env : Env) (fuel rounds : ℕ) (certs : List ℕ) (key_of : ℕ → Acquired) (handle_of : ℕ → ℕ)
    (garbage : StoreCtx) (provctx : Option ℕ) (uri : List ℕ) (h : ℕ) (w : World)
    → ((s : ℕ) → Enumerates env s certs)
    → AcquiresBy env key_of
    → WritesHandle key_of handle_of certs
    → AcceptsKeys env
    → length certs < fuel
    → length certs + length (with_key key_of certs) + 1 < rounds
    → are_store_open_args_ok provctx (some uri) ≡ true
    → NamesStore uri
    → OpensStores env h
    → env.memory w.next ≡ true
    → env.memory (w.next + 1) ≡ true
    → Returns
        (λ k v.
          (key : ℕ) × (k ≡ some key)
          × (delivered v.calls ≡ delivered w.calls ++ contents key_of handle_of key certs certs))
        (read_store env fuel rounds garbage provctx (some uri) w)
unfolding read_store
read_store-delivers env fuel rounds certs key_of handle_of garbage provctx uri h w enumerates
      acquires writes accepts deep enough args names opens m1 m2 =
    Returns-bind
      (Returns-both
        (cng_store_open-OpenedIn env fuel certs key_of handle_of enumerates acquires writes accepts
          deep garbage provctx (some uri) w)
        (cng_store_open-some env fuel certs key_of handle_of enumerates acquires writes accepts deep
          garbage provctx uri h w args names opens m1 m2))
      (read_all env fuel certs key_of handle_of enumerates acquires writes accepts deep rounds w
        enough)
