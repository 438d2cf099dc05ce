-- ===== src/Skf/Api.antt =====
-- GetSKFAPI: the table of the token library's functions, loaded once and kept in a static variable.
pub mod Loading
use make_down_file.Prelude.{
  ℕ, Bool, true, false, not, Option, none, some, List, [], ◌∷◌, String, if◌then◌else◌, ◌+◌,
}
use make_down_file.Run.{ok, pure, ◌>>=◌, ◌>>◌}
use make_down_file.Skf.World.{Call, Token, World, M, call, malloc, free, get_api, set_api}

-- The functions whose addresses are taken, in the order of the macro's calls.
abbrev pub proc_names : List String
proc_names =
    "SKF_VerifyPIN" ∷ "SKF_GetPINInfo" ∷ "SKF_UnblockPIN" ∷ "SKF_ClearSecureState"
    ∷ "SKF_CreateApplication" ∷ "SKF_EnumApplication" ∷ "SKF_DeleteApplication"
    ∷ "SKF_OpenApplication" ∷ "SKF_CloseApplication" ∷ "SKF_CreateFile" ∷ "SKF_DeleteFile"
    ∷ "SKF_EnumFiles" ∷ "SKF_GetFileInfo" ∷ "SKF_ReadFile" ∷ "SKF_WriteFile" ∷ "SKF_GenRandom"
    ∷ "SKF_GenExtRSAKey" ∷ "SKF_GenRSAKeyPair" ∷ "SKF_ImportRSAKeyPair" ∷ "SKF_RSASignData"
    ∷ "SKF_RSAVerify" ∷ "SKF_RSAExportSessionKey" ∷ "SKF_ExtRSAPubKeyOperation"
    ∷ "SKF_ExtRSAPriKeyOperation" ∷ "SKF_GenECCKeyPair" ∷ "SKF_ImportECCKeyPair" ∷ "SKF_ECCSignData"
    ∷ "SKF_ECCVerify" ∷ "SKF_ECCExportSessionKey" ∷ "SKF_ExtECCEncrypt" ∷ "SKF_ExtECCDecrypt"
    ∷ "SKF_ExtECCSign" ∷ "SKF_ExtECCVerify" ∷ "SKF_ExportPublicKey" ∷ "SKF_ImportSessionKey"
    ∷ "SKF_SetSymmKey" ∷ "SKF_EncryptInit" ∷ "SKF_Encrypt" ∷ "SKF_EncryptUpdate"
    ∷ "SKF_EncryptFinal" ∷ "SKF_DecryptInit" ∷ "SKF_Decrypt" ∷ "SKF_DecryptUpdate"
    ∷ "SKF_DecryptFinal" ∷ "SKF_DigestInit" ∷ "SKF_Digest" ∷ "SKF_DigestUpdate" ∷ "SKF_DigestFinal"
    ∷ "SKF_MacInit" ∷ "SKF_Mac" ∷ "SKF_MacUpdate" ∷ "SKF_MacFinal" ∷ "SKF_CloseHandle"
    ∷ "SKF_CreateContainer" ∷ "SKF_DeleteContainer" ∷ "SKF_OpenContainer" ∷ "SKF_CloseContainer"
    ∷ "SKF_EnumContainer" ∷ "SKF_GetContainerType" ∷ "SKF_ImportCertificate"
    ∷ "SKF_ExportCertificate" ∷ "SKF_EnumDev" ∷ "SKF_ConnectDev" ∷ "SKF_DisConnectDev"
    ∷ "SKF_WaitForDevEvent" ∷ "SKF_CancelWaitForDevEvent" ∷ []

module _ (token : Token) where
  -- The first name with no address.
  unfoldable pub first_missing : List String → M (Option String)
  unfolding call
  first_missing [] = pure none
  first_missing (name ∷ names) = do
    found ← call (Call.get_proc_address name) (λ t. token.get_proc_address t name)
    elim found [ false ↦ pure (some name) | true ↦ first_missing names ]

  -- The message is a copy made by `strdup`, which may fail.
  unfoldable pub error_message : M (Option ℕ)
  unfolding malloc
  error_message = malloc token.memory

  -- Keeps the table, or gives up: the table is freed, the static variable reset, the library freed.
  unfoldable pub finish_table : ℕ → ℕ → Option String → M (Option ℕ × Option ℕ)
  unfolding call free set_api error_message
  finish_table module_handle api none = pure (some api, none)
  finish_table module_handle api (some name) = do
    message ← error_message
    free api
    set_api none
    call (Call.free_library module_handle) (λ t. tt)
    pure (none, message)

  unfoldable pub fill_table : ℕ → ℕ → List String → M (Option ℕ × Option ℕ)
  unfolding first_missing finish_table
  fill_table module_handle api names = do
    missing ← first_missing names
    finish_table module_handle api missing

  -- The table and the error message, either of which may be NULL.
  unfoldable pub get_skf_api : M (Option ℕ × Option ℕ)
  unfolding call malloc get_api set_api error_message fill_table
  get_skf_api = do
    cached ← get_api
    elim cached [
      | some api ↦ pure (some api, none)
      | none ↦ (do
        loaded ← call Call.load_library token.load_library
        elim loaded [
          | none ↦ (do message ← error_message; pure (none, message))
          | some h ↦ (do
            block ← malloc token.memory
            elim block [
              | none ↦ (do
                message ← error_message
                call (Call.free_library h) (λ t. tt)
                pure (none, message))
              | some api ↦ (do set_api (some api); fill_table h api proc_names)
            ])
        ])
    ]
