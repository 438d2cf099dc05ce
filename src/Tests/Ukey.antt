-- ===== src/Tests/Ukey.antt =====
-- Signing on a token that refuses nothing.
use text.Mathlib.Text.{◌==◌}
use make_down_file.Prelude.{◌≡◌, refl, inl, true, false, none, some, List, [], ◌∷◌, replicate}
use make_down_file.Run.{Returns, Ends, pure, and_then}
use make_down_file.Ukey.World.{table, Lib, World}
use make_down_file.Ukey.Method.{ukey_sign, ukey_export}
use make_down_file.Ukey.Options.{
  auth_key, auth_key_new, user_pin, ca, sign_cert, enc_cert, host, Options, option_loop,
}
use make_down_file.Ukey.Options.Given.{
  Item, verified, give, long_help, short_help, client_name, verify_name, setting, TellsApart,
  render, apply, option_loop-render,
}
use make_down_file.Ukey.Method.Clean.{Clean, ukey_sign-Clean}
use make_down_file.Ukey.Method.Exported.{ukey_export-Exported}
use make_down_file.Ukey.Method.Exported.Label.{Exported}

-- Handles are 9, lists of devices have eight bytes.
abbrev willing : Lib
willing = record {
  grants = λ n o. true;
  reply = λ t c. record { rv = 0; handle = 9; len = 8; bytes = replicate 128 7 };
  succeeds = λ t c. true;
  skf_api = table;
  ecdsa_size = 72;
  i2d_ecdsa_sig = λ t r s. some (48 ∷ 0 ∷ []);
}

abbrev start : World
start = record { next = 4; live = 3 ∷ []; devs = []; apps = []; cons = 9 ∷ []; calls = [] }

ukey_sign_test :
    Ends
      (λ r w'.
        (r ≡ record { ret = true; siglen = 2; sig = some (48 ∷ 0 ∷ []) })
        × (w'.live ≡ 3 ∷ [])
        × (w'.cons ≡ 9 ∷ []))
      (ukey_sign willing (b'1' ∷ []) (5 ∷ 6 ∷ []) true 80 start)
unfolding ukey_sign
ukey_sign_test = (refl, refl, refl)

-- A negative length of the signature is taken for a success.
ukey_sign_negative_test :
    Ends
      (λ r w'. r.ret ≡ true)
      (ukey_sign
        (record willing { i2d_ecdsa_sig = λ t r s. none })
        (b'1' ∷ [])
        (5 ∷ 6 ∷ [])
        true
        80
        start)
unfolding ukey_sign
ukey_sign_negative_test = refl

-- The exported key is the only new object.
ukey_export_test :
    Ends
      (λ r w'. (r ≡ some 5) × (w'.live ≡ 5 ∷ 3 ∷ []) × (w'.devs ≡ []))
      (ukey_export willing false true start)
unfolding ukey_export
ukey_export_test = (refl, refl, refl)

ukey_sign-Clean_example :
    Returns (Clean start) (ukey_sign willing (b'1' ∷ []) (5 ∷ 6 ∷ []) true 80 start)
ukey_sign-Clean_example = ukey_sign-Clean willing (b'1' ∷ []) (5 ∷ 6 ∷ []) true 80 start (inl refl)

ukey_export-Exported_example : Returns (Exported start) (ukey_export willing true false start)
ukey_export-Exported_example = ukey_export-Exported willing true false start (inl refl)

-- Equality of texts, in the place of strcasecmp.
texts_differ-TellsApart : TellsApart (λ a b. a == b)
texts_differ-TellsApart long_help = refl
texts_differ-TellsApart short_help = refl
texts_differ-TellsApart client_name = refl
texts_differ-TellsApart verify_name = refl
texts_differ-TellsApart (setting auth_key) = refl
texts_differ-TellsApart (setting auth_key_new) = refl
texts_differ-TellsApart (setting user_pin) = refl
texts_differ-TellsApart (setting ca) = refl
texts_differ-TellsApart (setting sign_cert) = refl
texts_differ-TellsApart (setting enc_cert) = refl
texts_differ-TellsApart (setting host) = refl

abbrev no_options : Options
no_options = record {
  ukeysslcli = false;
  user_pin = none;
  auth_key = none;
  auth_key_new = none;
  ca = none;
  sign_cert = none;
  enc_cert = none;
  verify_peer = false;
  host = none;
}

abbrev some_items : List Item
some_items = give user_pin "1234" ∷ give auth_key "00ff" ∷ verified ∷ give host "localhost:443" ∷ []

-- Two keys, of which the first one is lost.
option_loop_test :
    Ends
      (λ r w'. (r.good ≡ true) × (r.options.auth_key ≡ some 5) × (w'.live ≡ 5 ∷ 4 ∷ 3 ∷ []))
      (option_loop willing
        (λ a b. a == b)
        (λ t. true)
        ("-AuthKey" ∷ "00" ∷ "-AuthKey" ∷ "01" ∷ [])
        no_options
        start)
unfolding option_loop
option_loop_test = (refl, refl, refl)

option_loop-render_example :
    option_loop willing (λ a b. a == b) (λ t. true) (render some_items) no_options start
    ≡ and_then
        (apply willing (λ a b. a == b) (λ t. true) some_items no_options start)
        (λ o'. pure (record { good = true; options = o' }))
option_loop-render_example =
    option_loop-render willing (λ a b. a == b) (λ t. true) texts_differ-TellsApart some_items
      no_options start
