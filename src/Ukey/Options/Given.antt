-- ===== src/Ukey/Options/Given.antt =====
-- What main reads from a command line that is put together from options.
use make_down_file.Prelude.{
  ℕ, zero, suc, ◌≡◌, refl, ap, ◌∙◌, Bool, true, false, Option, none, some, List, [], ◌∷◌, map,
  String, ◌==◌, ◌||◌, if◌then◌else◌,
}
use make_down_file.Run.{Run, ok, fault, out_of_fuel, pure, ◌>>=◌, and_then}
use make_down_file.Ukey.World.{memory, Lib, World, M, make}
use make_down_file.Ukey.Options.{
  Setting, auth_key, auth_key_new, user_pin, ca, sign_cert, enc_cert, host, Kind, help, ukeysslcli,
  verify, takes, unknown, Options, Parsed, kind_of, hexstr2buf, assign, option_loop,
}

-- What a user asks for.
pub data Item : Type 0 where
  client verified : Item
  give : Setting → String → Item

-- The names that main compares with.
pub data Name : Type 0 where
  long_help short_help client_name verify_name : Name
  setting : Setting → Name

abbrev pub spelling : Name → String
spelling long_help = "--help"
spelling short_help = "-h"
spelling client_name = "--Ukeysslcli"
spelling (setting auth_key) = "-AuthKey"
spelling (setting auth_key_new) = "-AuthKeyNew"
spelling (setting user_pin) = "-UserPin"
spelling (setting ca) = "-ca"
spelling (setting sign_cert) = "-sc"
spelling (setting enc_cert) = "-ec"
spelling (setting host) = "-s"
spelling verify_name = "--verify"

abbrev pub index : Name → ℕ
index long_help = 0
index short_help = 1
index client_name = 2
index (setting auth_key) = 3
index (setting auth_key_new) = 4
index (setting user_pin) = 5
index (setting ca) = 6
index (setting sign_cert) = 7
index (setting enc_cert) = 8
index (setting host) = 9
index verify_name = 10

abbrev pub names : List Name
names =
    long_help
    ∷ short_help
    ∷ client_name
    ∷ setting auth_key
    ∷ setting auth_key_new
    ∷ setting user_pin
    ∷ setting ca
    ∷ setting sign_cert
    ∷ setting enc_cert
    ∷ setting host
    ∷ verify_name
    ∷ []

-- strcasecmp tells the names apart: each is the same as itself and as no other.
abbrev pub TellsApart : (String → String → Bool) → Type 0
TellsApart same =
    (i : Name)
    → map (λ j. same (spelling i) (spelling j)) names ≡ map (λ j. index i == index j) names

abbrev pub render : List Item → List String
render [] = []
render (client ∷ items) = spelling client_name ∷ render items
render (verified ∷ items) = spelling verify_name ∷ render items
render (give s value ∷ items) = spelling (setting s) ∷ value ∷ render items

abbrev nth : ℕ → List Bool → Bool
nth n [] = false
nth zero (x ∷ l) = x
nth (suc n) (x ∷ l) = nth n l

module _ (lib : Lib) (same : String → String → Bool) (hex : String → Bool) where
  -- A new buffer for a text of hexadecimal digits, if memory is granted, and NULL for any other.
  abbrev buffer_of : String → M (Option ℕ)
  buffer_of text w = if hex text then make lib memory w else ok none w

  -- What the options mean: each sets the variable that the usage text names for it.
  abbrev pub apply : List Item → Options → M Options
  apply [] o = pure o
  apply (client ∷ items) o = apply items (record o { ukeysslcli = true })
  apply (verified ∷ items) o = apply items (record o { verify_peer = true })
  apply (give auth_key text ∷ items) o =
      buffer_of text >>= λ b. apply items (record o { auth_key = b })
  apply (give auth_key_new text ∷ items) o =
      buffer_of text >>= λ b. apply items (record o { auth_key_new = b })
  apply (give user_pin text ∷ items) o = apply items (record o { user_pin = some text })
  apply (give ca text ∷ items) o = apply items (record o { ca = some text })
  apply (give sign_cert text ∷ items) o = apply items (record o { sign_cert = some text })
  apply (give enc_cert text ∷ items) o = apply items (record o { enc_cert = some text })
  apply (give host text ∷ items) o = apply items (record o { host = some text })

  module _ (apart : TellsApart same) where
    cell : (i j : Name) → same (spelling i) (spelling j) ≡ (index i == index j)
    cell i long_help = ap (nth 0) (apart i)
    cell i short_help = ap (nth 1) (apart i)
    cell i client_name = ap (nth 2) (apart i)
    cell i (setting auth_key) = ap (nth 3) (apart i)
    cell i (setting auth_key_new) = ap (nth 4) (apart i)
    cell i (setting user_pin) = ap (nth 5) (apart i)
    cell i (setting ca) = ap (nth 6) (apart i)
    cell i (setting sign_cert) = ap (nth 7) (apart i)
    cell i (setting enc_cert) = ap (nth 8) (apart i)
    cell i (setting host) = ap (nth 9) (apart i)
    cell i verify_name = ap (nth 10) (apart i)

    abbrev kind_at : ℕ → Kind
    kind_at n =
        if (n == 0) || (n == 1)
        then help
        else if n == 2
        then ukeysslcli
        else if n == 3
        then takes auth_key
        else if n == 4
        then takes auth_key_new
        else if n == 5
        then takes user_pin
        else if n == 6
        then takes ca
        else if n == 7
        then takes sign_cert
        else if n == 8
        then takes enc_cert
        else if n == 9
        then takes host
        else if n == 10
        then verify
        else unknown

    kind_of-spelling : (i : Name) → kind_of lib same hex (spelling i) ≡ kind_at (index i)
    unfolding kind_of
    kind_of-spelling i =
        rw
          (
            cell i long_help,
            cell i short_help,
            cell i client_name,
            cell i (setting auth_key),
            cell i (setting auth_key_new),
            cell i (setting user_pin),
            cell i (setting ca),
            cell i (setting sign_cert),
            cell i (setting enc_cert),
            cell i (setting host),
            cell i verify_name,
          )
          refl

    kind_at-index : (s : Setting) → kind_at (index (setting s)) ≡ takes s
    kind_at-index auth_key = refl
    kind_at-index auth_key_new = refl
    kind_at-index user_pin = refl
    kind_at-index ca = refl
    kind_at-index sign_cert = refl
    kind_at-index enc_cert = refl
    kind_at-index host = refl

    ukeysslcli_step :
        (arg : String) (args : List String) (o : Options)
        → kind_of lib same hex arg ≡ ukeysslcli
        → option_loop lib same hex (arg ∷ args) o
          ≡ option_loop lib same hex args (record o { ukeysslcli = true })
    unfolding option_loop
    ukeysslcli_step arg [] o e = rw (e, option_loop) refl
    ukeysslcli_step arg (value ∷ args) o e = rw (e, option_loop) refl

    verify_step :
        (arg : String) (args : List String) (o : Options)
        → kind_of lib same hex arg ≡ verify
        → option_loop lib same hex (arg ∷ args) o
          ≡ option_loop lib same hex args (record o { verify_peer = true })
    unfolding option_loop
    verify_step arg [] o e = rw (e, option_loop) refl
    verify_step arg (value ∷ args) o e = rw (e, option_loop) refl

    setting_step :
        (arg value : String) (args : List String) (o : Options) (s : Setting)
        → kind_of lib same hex arg ≡ takes s
        → option_loop lib same hex (arg ∷ value ∷ args) o
          ≡ (assign lib same hex s (some value) o >>= option_loop lib same hex args)
    unfolding option_loop
    setting_step arg value args o s e = rw (e, option_loop) refl

    set_then :
        (r : Run World (Option ℕ)) (f : Option ℕ → Options) (g : Options → M Options)
        → and_then (and_then r (λ b. pure (f b))) g ≡ and_then r (λ b. g (f b))
    set_then (ok b w) f g = refl
    set_then fault f g = refl
    set_then out_of_fuel f g = refl

    apply-give :
        (s : Setting) (value : String) (items : List Item) (o : Options) (w : World)
        → and_then (assign lib same hex s (some value) o w) (apply items)
          ≡ apply (give s value ∷ items) o w
    unfolding assign hexstr2buf
    apply-give auth_key value items o w =
        set_then (buffer_of value w) (λ b. record o { auth_key = b }) (apply items)
    apply-give auth_key_new value items o w =
        set_then (buffer_of value w) (λ b. record o { auth_key_new = b }) (apply items)
    apply-give user_pin value items o w = refl
    apply-give ca value items o w = refl
    apply-give sign_cert value items o w = refl
    apply-give enc_cert value items o w = refl
    apply-give host value items o w = refl

    and_then_cong :
        (r : Run World Options) (k : Options → M Parsed) (f : Options → M Options)
        (g : Options → M Parsed)
        → ((o : Options) (w : World) → k o w ≡ and_then (f o w) g)
        → and_then r k ≡ and_then (and_then r f) g
    and_then_cong (ok o w) k f g e = e o w
    and_then_cong fault k f g e = refl
    and_then_cong out_of_fuel k f g e = refl

    -- If strcasecmp tells the names of the options apart, then main reads back every list of options
    -- that is written out with their names, and accepts the command line: it sets the variable of each
    -- option to the text behind it, the two keys to a new buffer if that text is hexadecimal, one
    -- after the other and as often as they are given.
    pub option_loop-render :
        (items : List Item) (o : Options) (w : World)
        → option_loop lib same hex (render items) o w
          ≡ and_then (apply items o w) (λ o'. pure (record { good = true; options = o' }))
    unfolding option_loop
    option_loop-render [] o w = refl
    option_loop-render (client ∷ items) o w =
        ap (λ m. m w) (ukeysslcli_step _ (render items) o (kind_of-spelling client_name))
        ∙ option_loop-render items (record o { ukeysslcli = true }) w
    option_loop-render (verified ∷ items) o w =
        ap (λ m. m w) (verify_step _ (render items) o (kind_of-spelling verify_name))
        ∙ option_loop-render items (record o { verify_peer = true }) w
    option_loop-render (give s value ∷ items) o w =
        ap (λ m. m w)
          (setting_step _ value (render items) o s (kind_of-spelling (setting s) ∙ kind_at-index s))
        ∙ and_then_cong (assign lib same hex s (some value) o w) _ (apply items) _
            (option_loop-render items)
        ∙ ap (λ r. and_then r (λ o'. pure (record { good = true; options = o' })))
            (apply-give s value items o w)
