-- ===== src/Ukey/World.antt =====
-- What the key methods act on: the heap with OpenSSL's objects, the devices, applications and
-- containers that are open on the token, and the calls made. The answers of the token and of OpenSSL
-- are parameters.
use make_down_file.Prelude.{ℕ, ◌+◌, Bool, Option, none, some, List, ◌∷◌, if◌then◌else◌, has, erase}
use make_down_file.Run.{Cmd, ok, fault, pure}

pub data Call : Type 0 where
  enum_dev : Option ℕ → Call
  connect_dev : Option ℕ → Call
  open_application open_container : ℕ → Call
  verify_pin : ℕ → List ℕ → Call
  ecc_sign_data : ℕ → List ℕ → Call
  close_container close_application disconnect_dev : ℕ → Call
  export_certificate : ℕ → Bool → Option ℕ → Call
  export_public_key : ℕ → Bool → Call
  oct2point : List ℕ → Call
  set_public_key set1_ec_key set_alias_type : Call
  sig_set0 : List ℕ → List ℕ → Call
  i2d_ecdsa_sig : List ℕ → List ℕ → Call

-- The objects that OpenSSL is asked for, besides plain memory.
pub data Object : Type 0 where
  memory ecdsa_sig bignum pkey ec_key ec_point x509 : Object

-- A status with a handle, a length or bytes.
pub record Reply : Type 0 where
  pub rv : ℕ
  pub handle : ℕ
  pub len : ℕ
  pub bytes : List ℕ

-- What GetSKFAPI gives: its table; an error message, which the caller frees again; or neither, if
-- `strdup` fails. The table stays in a static variable, and is not among the live objects.
pub data Api : Type 0 where
  table message neither : Api

-- `grants` says whether the n-th object is made; `reply` is a call's answer, in which SAR_OK is 0;
-- `succeeds` tells of a call of OpenSSL whether its result is 1.
pub record Lib : Type 0 where
  pub grants : ℕ → Object → Bool
  pub reply : List Call → Call → Reply
  pub succeeds : List Call → Call → Bool
  pub skf_api : Api
  pub ecdsa_size : ℕ
  pub i2d_ecdsa_sig : List Call → List ℕ → List ℕ → Option (List ℕ)

pub record World : Type 0 where
  pub next : ℕ
  pub live : List ℕ
  pub devs : List ℕ
  pub apps : List ℕ
  pub cons : List ℕ
  pub calls : List Call

abbrev pub M : Type 0 → Type 0
M A = Cmd World A

unfoldable pub call : {A : Type 0} → Call → (List Call → A) → M A
call c answer w = ok (answer w.calls) (record w { calls = c ∷ w.calls })

unfoldable pub make : Lib → Object → M (Option ℕ)
make lib o w =
    if lib.grants w.next o
    then ok (some w.next) (record w { next = w.next + 1; live = w.next ∷ w.live })
    else ok none (record w { next = w.next + 1 })

-- Freeing what is not live is undefined.
unfoldable pub free : ℕ → M (Unit {0})
free p w = if has p w.live then ok tt (record w { live = erase p w.live }) else fault

unfoldable pub free_if : Option ℕ → M (Unit {0})
unfolding free
free_if none = pure tt
free_if (some p) = free p

-- ECDSA_SIG_set0 gives both numbers to the signature, with which they are freed.
unfoldable pub give_away : ℕ → ℕ → M (Unit {0})
give_away p q w = ok tt (record w { live = erase p (erase q w.live) })

unfoldable pub opened_dev : ℕ → M (Unit {0})
opened_dev h w = ok tt (record w { devs = h ∷ w.devs })

unfoldable pub opened_app : ℕ → M (Unit {0})
opened_app h w = ok tt (record w { apps = h ∷ w.apps })

unfoldable pub opened_con : ℕ → M (Unit {0})
opened_con h w = ok tt (record w { cons = h ∷ w.cons })

unfoldable pub closed_dev : ℕ → M (Unit {0})
closed_dev h w = ok tt (record w { devs = erase h w.devs })

unfoldable pub closed_app : ℕ → M (Unit {0})
closed_app h w = ok tt (record w { apps = erase h w.apps })

unfoldable pub closed_con : ℕ → M (Unit {0})
closed_con h w = ok tt (record w { cons = erase h w.cons })
