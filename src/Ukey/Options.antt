-- ===== src/Ukey/Options.antt =====
-- The options of main in tasslukey/main.c. `same` says whether strcasecmp gives 0, and `hex` whether
-- a text is one that OPENSSL_hexstr2buf can read. AuthKeyNewLen, which nothing reads, is left out.
pub mod Given
use make_down_file.Prelude.{
  ℕ, Bool, true, false, Option, none, some, List, [], ◌∷◌, ◌||◌, String, if◌then◌else◌,
}
use make_down_file.Run.{fault, pure, ◌>>=◌}
use make_down_file.Ukey.World.{memory, Lib, M, make}

-- The settings that an argument follows.
pub data Setting : Type 0 where
  auth_key auth_key_new user_pin ca sign_cert enc_cert host : Setting

pub data Kind : Type 0 where
  help ukeysslcli verify unknown : Kind
  takes : Setting → Kind

-- The variables that main sets; the two keys are buffers.
pub record Options : Type 0 where
  pub ukeysslcli : Bool
  pub user_pin : Option String
  pub auth_key : Option ℕ
  pub auth_key_new : Option ℕ
  pub ca : Option String
  pub sign_cert : Option String
  pub enc_cert : Option String
  pub verify_peer : Bool
  pub host : Option String

-- `good` is false after `goto error`.
pub record Parsed : Type 0 where
  pub good : Bool
  pub options : Options

module _ (lib : Lib) (same : String → String → Bool) (hex : String → Bool) where
  pub kind_of : String → Kind
  kind_of arg =
      if same arg "--help" || same arg "-h"
      then help
      else if same arg "--Ukeysslcli"
      then Kind.ukeysslcli
      else if same arg "-AuthKey"
      then takes auth_key
      else if same arg "-AuthKeyNew"
      then takes auth_key_new
      else if same arg "-UserPin"
      then takes user_pin
      else if same arg "-ca"
      then takes ca
      else if same arg "-sc"
      then takes sign_cert
      else if same arg "-ec"
      then takes enc_cert
      else if same arg "-s"
      then takes host
      else if same arg "--verify"
      then verify
      else unknown

  -- The buffer of a key; what follows the last argument is NULL, which must not be read.
  pub hexstr2buf : Option String → M (Option ℕ)
  unfolding make
  hexstr2buf none w = fault
  hexstr2buf (some text) w = if hex text then make lib memory w else pure none w

  pub assign : Setting → Option String → Options → M Options
  unfolding hexstr2buf
  assign auth_key value o = do key ← hexstr2buf value; pure (record o { auth_key = key })
  assign auth_key_new value o = do key ← hexstr2buf value; pure (record o { auth_key_new = key })
  assign user_pin value o = pure (record o { user_pin = value })
  assign ca value o = pure (record o { ca = value })
  assign sign_cert value o = pure (record o { sign_cert = value })
  assign enc_cert value o = pure (record o { enc_cert = value })
  assign host value o = pure (record o { host = value })

  unfoldable pub option_loop : List String → Options → M Parsed
  unfolding kind_of assign
  option_loop [] o = pure (record { good = true; options = o })
  option_loop (arg ∷ []) o = elim (kind_of arg) [
    | help ↦ pure (record { good = false; options = o })
    | unknown ↦ pure (record { good = false; options = o })
    | Kind.ukeysslcli ↦ pure (record { good = true; options = record o { ukeysslcli = true } })
    | verify ↦ pure (record { good = true; options = record o { verify_peer = true } })
    | takes s ↦ do o' ← assign s none o; pure (record { good = true; options = o' })
  ]
  option_loop (arg ∷ value ∷ args) o = elim (kind_of arg) [
    | help ↦ pure (record { good = false; options = o })
    | unknown ↦ pure (record { good = false; options = o })
    | Kind.ukeysslcli ↦ option_loop (value ∷ args) (record o { ukeysslcli = true })
    | verify ↦ option_loop (value ∷ args) (record o { verify_peer = true })
    | takes s ↦ do o' ← assign s (some value) o; option_loop args o'
  ]
