-- ===== src/Tls/Client.antt =====
-- The client's `main`, up to the first use of its text buffer.
use make_down_file.Prelude.{ℕ, Bool, true, false, none, some, List, [], ◌∷◌}
use make_down_file.Run.{pure, ◌>>=◌, ◌>>◌}
use make_down_file.Tls.World.{
  ca_cert_file, ca_cert_file2, sign_cert_file, sign_key_file, encode_cert_file, encode_key_file,
  Call, library_init, ctx_set_sigalgs, ctx_set_cipher_list, load_verify_locations,
  gm_load_verify_locations, use_certificate_file, use_private_key_file, check_private_key, Lib, M,
  call, undefined, tell, new_ctx, new_socket,
}
use make_down_file.Tls.Connect.{connect_ssl}

-- The files in the order in which they are loaded, and the checks of the keys.
abbrev pub loads : ℕ → List Call
loads ctx =
    load_verify_locations ctx ca_cert_file
    ∷ load_verify_locations ctx ca_cert_file2
    ∷ gm_load_verify_locations ctx ca_cert_file
    ∷ gm_load_verify_locations ctx ca_cert_file2
    ∷ use_certificate_file ctx sign_cert_file
    ∷ use_private_key_file ctx sign_key_file
    ∷ check_private_key ctx
    ∷ use_certificate_file ctx encode_cert_file
    ∷ use_private_key_file ctx encode_key_file
    ∷ check_private_key ctx
    ∷ []

module _ (lib : Lib) where
  -- Whether all succeed; the first that fails is the last.
  unfoldable pub load_all : List Call → M Bool
  unfolding call
  load_all [] = pure true
  load_all (c ∷ cs) = do
    loaded ← call c (λ t. lib.load_file t c)
    elim loaded [ false ↦ pure false | true ↦ load_all cs ]

  -- What `main` returns: `true` is its end, `false` a return of -1. `szBuffer` has no first value, so
  -- the first `strcat` behind the handshake is undefined.
  unfoldable pub client_main : ℕ → M Bool
  unfolding call undefined tell new_ctx new_socket connect_ssl load_all
  client_main fuel = do
    tell library_init
    made ← new_ctx lib
    elim made [
      | none ↦ pure false
      | some ctx ↦ (do
        tell (ctx_set_sigalgs ctx)
        tell (ctx_set_cipher_list ctx)
        loaded ← load_all (loads ctx)
        elim loaded [
          | false ↦ pure false
          | true ↦ (do
            opened ← new_socket lib
            elim opened [
              | none ↦ pure false
              | some fd ↦ (do
                connected ← call (Call.connect fd) (λ t. lib.connect t fd)
                elim connected [
                  | false ↦ pure false
                  | true ↦ (do
                    made_ssl ← connect_ssl lib fuel ctx fd
                    elim made_ssl [ none ↦ pure false | some ssl ↦ undefined ])
                ])
            ])
        ])
    ]
