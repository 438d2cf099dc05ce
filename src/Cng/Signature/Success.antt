-- ===== src/Cng/Signature/Success.antt =====
-- A signature that every library supports is made.
use make_down_file.Prelude.{
  ℕ, ◌+◌, ◌≡◌, ◌∙◌, refl, ap, Bool, true, false, Option, none, some, List, [], ◌∷◌, ==_refl, arith,
  if◌then◌else◌,
}
use make_down_file.Run.{
  pure, ◌>>=◌, ◌>>◌, Returns, returns, Returns-bind, Returns-mono, Ends, Ends-Returns,
}
use make_down_file.Cng.World.{
  free, call, BcryptAlg, PadFlags, no_flags, pad_pss, pad_pkcs1, PaddingInfo, pss_padding,
  pkcs1_padding, Call, World, M,
}
use make_down_file.Cng.Env.{Digest, Env}
use make_down_file.Cng.Signature.{
  SigCtx, pss, pkcs1, integer, SigParams, explicit, bcrypt_name, cng_signature_newctx,
  cng_signature_freectx, cng_signature_digest_sign_init, cng_signature_digest_sign_update,
  cng_signature_digest_sign_final, cng_signature_set_ctx_params,
}
use make_down_file.Cng.Signature.Session.{
  update_all, hash_and_sign, set_and_hash, init_and_sign, then_free, sign_message, Grants, hashed,
}

-- Windows and the core support the digest, hash, and sign with signatures of `n` bytes.
pub record Supports (env : Env) (n : ℕ) : Type 0 where
  pub grants : Grants env
  pub fetches :
      (t : List Call) (name : List ℕ)
      → (md : Digest) × (alg : BcryptAlg) × (env.evp_md_fetch t name ≡ some md)
        × (bcrypt_name md ≡ some alg)
  pub algorithm : ℕ
  pub opens :
      (t : List Call) (alg : Option BcryptAlg)
      → env.bcrypt_open_algorithm_provider t alg ≡ some algorithm
  pub hash : ℕ
  pub creates : (t : List Call) (a : ℕ) → env.bcrypt_create_hash t a ≡ some hash
  pub hashes :
      (t : List Call) (h : Option ℕ) (bytes : List ℕ) → env.bcrypt_hash_data t h bytes ≡ true
  pub hash_length : ℕ × ℕ
  pub measures : (t : List Call) (h : Option ℕ) → env.bcrypt_hash_length t h ≡ some hash_length
  pub digest : List Call → Option ℕ → List ℕ
  pub finishes : (t : List Call) (h : Option ℕ) → env.bcrypt_finish_hash t h ≡ some (digest t h)
  pub signs :
      (t : List Call) (h : ℕ) (padding : PaddingInfo) (flags : PadFlags) (digest : Option (List ℕ))
      → env.ncrypt_sign_hash t h padding flags digest ≡ some n

-- Parameters that name a padding mode by its number and the salt by its length.
abbrev pub plain_params : Bool → ℕ → SigParams
plain_params is_pss salt = record {
  pad_mode = some (integer (if is_pss then pss else pkcs1));
  salt_len = some (explicit salt);
}

abbrev pub flags_of : Bool → PadFlags
flags_of true = pad_pss
flags_of false = pad_pkcs1

abbrev pub padding_of : Bool → Option BcryptAlg → ℕ → PaddingInfo
padding_of true alg salt = pss_padding alg salt
padding_of false alg salt = pkcs1_padding alg

-- The calls after the chunks were hashed into `h`, one by one.
unfoldable pub fed : Option ℕ → List (List ℕ) → List Call → List Call
fed h [] t = t
fed h (bytes ∷ chunks) t = fed h chunks (Call.bcrypt_hash_data h bytes ∷ t)

-- The branch that a test takes which is known to hold.
taken :
    {A : Type 0} {P : A → World → Type 0} (b : Bool) (k m : M A) (w : World)
    → b ≡ true
    → Returns P (k w)
    → Returns P ((if b then k else m) w)
taken true k m w e x = x
taken false k m w e x = let f : ⊥ = ground (arith, e) in elim f [ ]

go_on :
    {P : Bool → World → Type 0} (b : Bool) (k : M Bool) (w : World)
    → b ≡ true
    → Returns P (k w)
    → Returns P ((elim b as (λ _. M Bool) [ false ↦ pure false | true ↦ k ]) w)
go_on true k w e x = x
go_on false k w e x = let f : ⊥ = ground (arith, e) in elim f [ ]

module _ (env : Env) (n : ℕ) (supports : Supports env n) where
  -- The hash object.
  abbrev hash : Option ℕ
  hash = some supports.hash

  -- A context that hashes into the object, and signs with the key.
  abbrev Prepared : ℕ → SigCtx → Type 0
  Prepared key ctx = (ctx.key ≡ some key) × (ctx.hash_handle ≡ hash)

  abbrev Padded : Bool → ℕ → SigCtx → Type 0
  Padded is_pss salt ctx = (ctx.sign_hash_flags ≡ flags_of is_pss) × (ctx.pss_salt_len ≡ salt)

  abbrev SameKeys : World → World → Type 0
  SameKeys w w' = w'.windows_key_handle ≡ w.windows_key_handle

  init_ready :
      (sig_ctx : SigCtx) (mdname : List ℕ) (key : ℕ) (w : World)
      → Ends
          (λ r w'.
            (r.1 ≡ true)
            × Prepared key r.0
            × SameKeys w w'
            × (w'.digests ≡ w.digests + 1)
            × (hashed w'.calls ≡ hashed w.calls)
            × (w'.blocks ≡ w.blocks)
            × (r.0.addr ≡ sig_ctx.addr))
          (cng_signature_digest_sign_init env sig_ctx (some mdname) (some key) w)
  unfolding cng_signature_digest_sign_init hashed
  init_ready sig_ctx mdname key w =
      let (md, alg, fetched, named) = supports.fetches w.calls mdname in
      let t1 = Call.evp_md_fetch mdname ∷ w.calls in
      let t2 = Call.bcrypt_open_algorithm_provider (bcrypt_name md) ∷ t1 in
      ground (
        arith,
        fetched,
        named,
        supports.opens t1 (bcrypt_name md),
        supports.creates t2 supports.algorithm,
      )

  set_accepted :
      (sig_ctx : SigCtx) (is_pss : Bool) (salt : ℕ) (w : World)
      → Ends
          (λ r w'.
            (r.1 ≡ true)
            × (r.0.key ≡ sig_ctx.key)
            × (r.0.hash_handle ≡ sig_ctx.hash_handle)
            × Padded is_pss salt r.0
            × (w' ≡ w)
            × (r.0.addr ≡ sig_ctx.addr))
          (cng_signature_set_ctx_params env sig_ctx (plain_params is_pss salt) w)
  unfolding cng_signature_set_ctx_params
  set_accepted sig_ctx true salt w = (refl, refl, refl, (refl, refl), refl, refl)
  set_accepted sig_ctx false salt w = (refl, refl, refl, (refl, refl), refl, refl)

  update_accepted :
      (sig_ctx : SigCtx) (bytes : List ℕ) (w : World)
      → Ends
          (λ r w'.
            (r ≡ true)
            × (w' ≡ record w { calls = Call.bcrypt_hash_data sig_ctx.hash_handle bytes ∷ w.calls }))
          (cng_signature_digest_sign_update env sig_ctx bytes w)
  unfolding cng_signature_digest_sign_update
  update_accepted sig_ctx bytes w = (supports.hashes w.calls sig_ctx.hash_handle bytes, refl)

  update_all-accepted :
      (sig_ctx : SigCtx) (chunks : List (List ℕ)) (w : World)
      → Returns
          (λ r w'. (r ≡ true) × (w' ≡ record w { calls = fed sig_ctx.hash_handle chunks w.calls }))
          (update_all env sig_ctx chunks w)
  unfolding update_all fed
  update_all-accepted sig_ctx [] w = returns (refl, refl)
  update_all-accepted sig_ctx (bytes ∷ chunks) w =
      Returns-bind (Ends-Returns _ (update_accepted sig_ctx bytes w)) (λ (done : Bool) w1 e.
        go_on done (update_all env sig_ctx chunks) w1 e.0 (
          Returns-mono (update_all-accepted sig_ctx chunks w1) (λ q w' f. (
            f.0,
            f.1
                ∙ ap (λ (v : World). record v { calls = fed sig_ctx.hash_handle chunks v.calls })
                    e.1,
          ))))

  -- The calls of a signature in the world `w`, from the first chunk on.
  abbrev trace : ℕ → Bool → Option BcryptAlg → ℕ → List (List ℕ) → World → List Call → List Call
  trace key is_pss alg salt chunks w t =
      let measured = Call.bcrypt_hash_length hash ∷ fed hash chunks t in
      Call.ncrypt_sign_hash (w.windows_key_handle key) (padding_of is_pss alg salt)
        (flags_of is_pss) (some (supports.digest measured hash))
      ∷ Call.bcrypt_finish_hash hash
      ∷ measured

  final_signs :
      (sig_ctx : SigCtx) (key : ℕ) (is_pss : Bool) (salt : ℕ) (w : World)
      → Prepared key sig_ctx
      → Padded is_pss salt sig_ctx
      → Ends
          (λ r w'.
            (r ≡ some n)
            × (w'.calls ≡ trace key is_pss sig_ctx.alg_identifier salt [] w w.calls)
            × (w'.digests ≡ w.digests)
            × (w'.blocks ≡ w.blocks))
          (cng_signature_digest_sign_final env sig_ctx true w)
  unfolding cng_signature_digest_sign_final fed
  final_signs sig_ctx key true salt w (k, h) (f, l) =
      let t1 = Call.bcrypt_hash_length hash ∷ w.calls in
      let t2 = Call.bcrypt_finish_hash hash ∷ t1 in
      let padding = pss_padding sig_ctx.alg_identifier salt in
      ground (
        arith,
        supports.grants w.next,
        supports.grants (w.next + 1),
        supports.measures w.calls hash,
        supports.finishes t1 hash,
        supports.signs t2 (w.windows_key_handle key) padding pad_pss
            (some (supports.digest t1 hash)),
      )
  final_signs sig_ctx key false salt w (k, h) (f, l) =
      let t1 = Call.bcrypt_hash_length hash ∷ w.calls in
      let t2 = Call.bcrypt_finish_hash hash ∷ t1 in
      let padding = pkcs1_padding sig_ctx.alg_identifier in
      ground (
        arith,
        supports.grants w.next,
        supports.grants (w.next + 1),
        supports.measures w.calls hash,
        supports.finishes t1 hash,
        supports.signs t2 (w.windows_key_handle key) padding pad_pkcs1
            (some (supports.digest t1 hash)),
      )

  -- A signature by `work`, in a world that had the trace `t` when the hashing began.
  abbrev Signs : ℕ → Bool → ℕ → List (List ℕ) → World → Option ℕ → World → Type 0
  Signs key is_pss salt chunks w r w' =
      (r ≡ some n)
      × ((alg : Option BcryptAlg) × (t : List Call) × (hashed t ≡ hashed w.calls)
          × (w'.calls ≡ trace key is_pss alg salt chunks w t))
      × (w'.digests ≡ w.digests + 1)
      × (w'.blocks ≡ w.blocks)

  -- The same, with the context at the end.
  abbrev SignsWith : ℕ → ℕ → Bool → ℕ → List (List ℕ) → World → SigCtx × Option ℕ → World → Type 0
  SignsWith addr key is_pss salt chunks w r w' =
      (r.0.addr ≡ addr) × (r.0.hash_handle ≡ hash) × Signs key is_pss salt chunks w r.1 w'

  traced :
      (sig_ctx : SigCtx) (key : ℕ) (is_pss : Bool) (salt : ℕ) (chunks : List (List ℕ))
      (w w1 w2 : World)
      → sig_ctx.hash_handle ≡ hash
      → SameKeys w w1
      → w2 ≡ record w1 { calls = fed sig_ctx.hash_handle chunks w1.calls }
      → trace key is_pss sig_ctx.alg_identifier salt [] w2 w2.calls
        ≡ trace key is_pss sig_ctx.alg_identifier salt chunks w w1.calls
  unfolding fed
  traced sig_ctx key is_pss salt chunks w w1 w2 h same e =
      rw (ap (λ (v : World). v.calls) e, ap (λ (v : World). v.windows_key_handle) e, same, h) refl

  hash_and_sign-Signs :
      (sig_ctx : SigCtx) (key : ℕ) (is_pss : Bool) (salt : ℕ) (chunks : List (List ℕ))
      (w w1 : World)
      → Prepared key sig_ctx
      → Padded is_pss salt sig_ctx
      → SameKeys w w1
      → w1.digests ≡ w.digests + 1
      → hashed w1.calls ≡ hashed w.calls
      → w1.blocks ≡ w.blocks
      → Returns (Signs key is_pss salt chunks w) (hash_and_sign env sig_ctx chunks w1)
  unfolding hash_and_sign
  hash_and_sign-Signs sig_ctx key is_pss salt chunks w w1 k p same d c b =
      Returns-bind (update_all-accepted sig_ctx chunks w1) (λ (done : Bool) w2 e.
        taken done (cng_signature_digest_sign_final env sig_ctx true) (pure none) w2 e.0 (
          Returns-mono (Ends-Returns _ (final_signs sig_ctx key is_pss salt w2 k p)) (λ r w' x. (
            x.0,
            (
              sig_ctx.alg_identifier,
              w1.calls,
              c,
              x.1 ∙ traced sig_ctx key is_pss salt chunks w w1 w2 k.1 same e.1,
            ),
            x.2 ∙ ap (λ (v : World). v.digests) e.1 ∙ d,
            x.3 ∙ ap (λ (v : World). v.blocks) e.1 ∙ b,
          ))))

  init_and_sign-SignsWith :
      (sig_ctx : SigCtx) (mdname : List ℕ) (key : ℕ) (is_pss : Bool) (salt : ℕ)
      (chunks : List (List ℕ)) (w : World)
      → Returns
          (SignsWith sig_ctx.addr key is_pss salt chunks w)
          (init_and_sign env sig_ctx (some mdname) (some key) (plain_params is_pss salt) chunks w)
  unfolding init_and_sign set_and_hash
  init_and_sign-SignsWith sig_ctx mdname key is_pss salt chunks w =
      Returns-bind (Ends-Returns _ (init_ready sig_ctx mdname key w)) (λ (r : SigCtx × Bool) w1 e.
        taken r.1 (set_and_hash env r.0 (plain_params is_pss salt) chunks) (pure (r.0, none)) w1 e.0
          (Returns-bind (Ends-Returns _ (set_accepted r.0 is_pss salt w1))
            (λ (q : SigCtx × Bool) w2 f.
              taken q.1 (hash_and_sign env q.0 chunks >>= λ siglen. pure (q.0, siglen))
                (pure (q.0, none)) w2 f.0
                (Returns-bind
                  (hash_and_sign-Signs q.0 key is_pss salt chunks w w2
                    (f.1 ∙ (e.1).0, f.2 ∙ (e.1).1) f.3
                    (ap (λ (v : World). v.windows_key_handle) f.4 ∙ e.2)
                    (ap (λ (v : World). v.digests) f.4 ∙ e.3)
                    (ap (λ (v : World). hashed v.calls) f.4 ∙ e.4)
                    (ap (λ (v : World). v.blocks) f.4 ∙ e.5))
                  (λ siglen w3 x. returns (f.5 ∙ e.6, f.2 ∙ (e.1).1, x))))))

  abbrev fresh : World → SigCtx
  fresh w = record {
    addr = w.next;
    provctx = none;
    propq = none;
    alg_identifier = none;
    key = none;
    hash_handle = none;
    sign_hash_flags = no_flags;
    pss_salt_len = 0;
  }

  abbrev granted : World → World
  granted w = record w { next = w.next + 1; blocks = w.next ∷ w.blocks }

  -- What a whole signature leaves: one over the hash of the chunks, and one digest object.
  abbrev pub Signed : ℕ → Bool → ℕ → List (List ℕ) → World → Option ℕ → World → Type 0
  Signed key is_pss salt chunks w siglen w' =
      (siglen ≡ some n)
      × (w'.blocks ≡ w.blocks)
      × (w'.digests ≡ w.digests + 1)
      × ((alg : Option BcryptAlg) × (t : List Call) × (hashed t ≡ hashed w.calls)
          × (w'.calls ≡ Call.bcrypt_destroy_hash hash ∷ trace key is_pss alg salt chunks w t))

  freed :
      (key : ℕ) (is_pss : Bool) (salt : ℕ) (chunks : List (List ℕ)) (w w2 : World)
      (r : SigCtx × Option ℕ)
      → SignsWith w.next key is_pss salt chunks (granted w) r w2
      → Ends (Signed key is_pss salt chunks w) ((cng_signature_freectx env r.0 >> pure r.1) w2)
  unfolding cng_signature_freectx free call
  freed key is_pss salt chunks w w2 r (a, h, (e, (alg, t, s, c), d, b)) =
      rw (b, a, h, ==_refl w.next) (e, refl, d, (alg, t, s, rw c refl))

  -- A whole signature, with a key and a padding mode given by its number, where memory is granted and
  -- the libraries support the digest, hash, and sign, ends without a fault and with a signature of
  -- the length that Windows gave. The chunks of the message, each once and in their order, are all that is
  -- hashed, into the hash object that BCryptCreateHash made, and what BCryptFinishHash then gives for that
  -- object is signed with the key's handle under the padding asked for. The blocks are afterwards
  -- those from before, and the one digest object that was fetched is left.
  pub sign_message-signs :
      (mdname : List ℕ) (key : ℕ) (is_pss : Bool) (salt : ℕ) (chunks : List (List ℕ)) (w : World)
      → Returns
          (Signed key is_pss salt chunks w)
          (sign_message env (some mdname) (some key) (plain_params is_pss salt) chunks w)
  unfolding sign_message cng_signature_newctx then_free
  sign_message-signs mdname key is_pss salt chunks w = rw (supports.grants w.next) (
      Returns-bind (init_and_sign-SignsWith (fresh w) mdname key is_pss salt chunks (granted w))
        (λ r w2 x. Ends-Returns _ (freed key is_pss salt chunks w w2 r x)))
