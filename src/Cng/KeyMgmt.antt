-- ===== src/Cng/KeyMgmt.antt =====
-- keymgmt/cng_keymgmt_functions.c: the provider's key objects. A key object is known by its
-- address; the struct's one field, the Windows handle, is `windows_key_handle` of the world.
pub mod Strength
pub mod Reverse
pub mod Export
pub mod Duplicate
pub mod Success
use make_down_file.Prelude.{
  ℕ, zero, suc, ◌+◌, ◌-◌, Bool, true, false, not, ◌&&◌, ◌||◌, Option, none, some, List, [], ◌∷◌,
  ◌==◌, ltb, length, if◌then◌else◌, set, get_elem?, drop, replicate,
}
use make_down_file.Run.{ok, fault, pure, ◌>>=◌, ◌>>◌}
use make_down_file.Cng.World.{
  Object, rsa_public, null_params, Call, KeyProperty, Param, World, M, call, malloc, free, free_opt,
  get_handle, set_handle,
}
use make_down_file.Cng.Env.{Property, RsaBlob, Env}

-- sizeof(DWORD) and sizeof(NCRYPT_PROV_HANDLE), on 64-bit Windows.
abbrev pub dword_size : ℕ
dword_size = 4

abbrev pub prov_handle_size : ℕ
prov_handle_size = 8

-- Bits of security of an RSA modulus of so many bits.
unfoldable pub rsa_modulus_size_to_strength_bits : ℕ → ℕ
rsa_modulus_size_to_strength_bits bits =
    let s0 : ℕ = 0 in
    let s1 = if ltb 1024 bits then 80 else s0 in
    let s2 = if ltb 2048 bits then 112 else s1 in
    let s3 = if ltb 3072 bits then 128 else s2 in
    let s4 = if ltb 7680 bits then 192 else s3 in if ltb 15360 bits then 256 else s4

-- The loop of duplicate_buffer_in_reverse, from index `i` with so many rounds left. `none` is a
-- read or a store outside of the buffers.
unfoldable pub reverse_loop : ℕ → ℕ → List ℕ → ℕ → List ℕ → Option (List ℕ)
reverse_loop zero i buffer size out = some out
reverse_loop (suc rounds) i buffer size out = elim (get_elem? buffer (size - i - 1)) [
  | none ↦ none
  | some c ↦ elim (ltb i (length out)) [
    | false ↦ none
    | true ↦ reverse_loop rounds (i + 1) buffer size (set out i c)
  ]
]

-- The selection bits that the code tests.
pub record Selection : Type 0 where
  pub private_key : Bool
  pub public_key : Bool
  pub domain_parameters : Bool
  pub other_parameters : Bool

-- Descriptors of the parameters that an export can produce.
pub data ExportType : Type 0 where
  rsa_e rsa_n : ExportType

unfoldable pub from_option : {A : Type 0} → Option A → M A
from_option none w = fault
from_option (some a) w = ok a w

-- A key object is taken to have every part.
unfoldable pub cng_keymgmt_has : Selection → Bool
cng_keymgmt_has selection = true

-- What a buffer holds after a call has filled it; a NULL buffer stays NULL.
abbrev pub filled : Option ℕ → List ℕ → Option (List ℕ)
filled none text = none
filled (some _) text = some text

module _ (env : Env) where
  get_property : ℕ → KeyProperty → M Property
  unfolding call
  get_property h p = call (Call.ncrypt_get_property h p) (λ t. env.ncrypt_get_property t h p)

  -- Opens the key again, under the name, flags and provider that it reports.
  unfoldable pub duplicate_key_handle : ℕ → ℕ → M Bool
  unfolding call malloc free_opt get_property set_handle
  duplicate_key_handle old_key_handle new_key = do
    flags ← get_property old_key_handle KeyProperty.key_type
    if not flags.success || not (dword_size == flags.written) then pure false else do
      provider ← get_property old_key_handle KeyProperty.provider_handle
      if not provider.success || not (prov_handle_size == provider.written) then pure false else do
        name_len ← get_property old_key_handle KeyProperty.name
        if not name_len.success then pure false else do
          key_name ← malloc env.memory
          name ← get_property old_key_handle KeyProperty.name
          if not name.success then (do free_opt key_name; pure false) else do
            let text = filled key_name name.text
            opened ←
                call (Call.ncrypt_open_key provider.value text flags.value)
                  (λ t. env.ncrypt_open_key t provider.value text flags.value)
            elim opened [
              | none ↦ (do free_opt key_name; pure false)
              | some h ↦ (do set_handle new_key h; free_opt key_name; pure true)
            ]

  -- The copy with its address, or `none` if there is no memory.
  unfoldable pub duplicate_buffer_in_reverse : List ℕ → ℕ → M (Option (ℕ × List ℕ))
  unfolding malloc from_option reverse_loop
  duplicate_buffer_in_reverse buffer buffer_size = do
    reverse_buffer ← malloc env.memory
    elim reverse_buffer [
      | none ↦ pure none
      | some p ↦ (do
        out ← from_option (reverse_loop buffer_size 0 buffer buffer_size (replicate buffer_size 0))
        pure (some (p, out)))
    ]

  unfoldable pub get_key_name : ℕ → M (Option (ℕ × List ℕ))
  unfolding call malloc get_handle get_property
  get_key_name key = do
    h ← get_handle key
    size ← get_property h KeyProperty.name
    if not size.success then pure none else do
      name ← malloc env.memory
      elim name [
        | none ↦ pure none
        | some p ↦ (do text ← get_property h KeyProperty.name; pure (some (p, text.text)))
      ]

  unfoldable pub cng_keymgmt_new : M (Option ℕ)
  unfolding malloc set_handle
  cng_keymgmt_new = do
    keydata ← malloc env.memory
    elim keydata [ none ↦ pure none | some k ↦ (do set_handle k 0; pure (some k)) ]

  -- Neither the new object nor the old one is tested for NULL before it is used.
  unfoldable pub cng_keymgmt_dup : Option ℕ → M (Option ℕ)
  unfolding cng_keymgmt_new from_option get_handle duplicate_key_handle
  cng_keymgmt_dup keydata_from = do
    new_keydata ← cng_keymgmt_new
    new_key ← from_option new_keydata
    old_key ← from_option keydata_from
    old_handle ← get_handle old_key
    done ← duplicate_key_handle old_handle new_key
    if not done then pure none else pure (some new_key)

  unfoldable pub cng_keymgmt_free : ℕ → M (Unit {0})
  unfolding call free get_handle
  cng_keymgmt_free keydata = do
    h ← get_handle keydata
    call (Call.ncrypt_free_object (some h)) (λ t. tt)
    free keydata

  unfoldable pub cng_keymgmt_load : Option ℕ → M (Option ℕ)
  unfolding cng_keymgmt_dup
  cng_keymgmt_load reference = cng_keymgmt_dup reference

  -- Sets one parameter, if the caller asked for it.
  unfoldable pub set_if_located : (Param → Bool) → Param → ℕ → M Bool
  unfolding call
  set_if_located params p v =
      if params p then call (Call.param_set p v) (λ t. env.param_set t p v) else pure true

  -- The security bits, from the modulus length that the key reports.
  unfoldable pub set_security_bits : ℕ → (Param → Bool) → M Bool
  unfolding set_if_located get_handle get_property
  set_security_bits key params = do
    h ← get_handle key
    key_length ← get_property h KeyProperty.length
    if not key_length.success || not (key_length.written == dword_size)
        then pure false
        else set_if_located params Param.pkey_security_bits
            (rsa_modulus_size_to_strength_bits key_length.value)

  unfoldable pub cng_keymgmt_get_params : ℕ → (Param → Bool) → M Bool
  unfolding set_if_located set_security_bits
  cng_keymgmt_get_params key params = do
    bits ← set_if_located params Param.pkey_bits 512
    if not bits then pure false else do
      strength ←
          (if params Param.pkey_security_bits then set_security_bits key params else pure true)
      if not strength then pure false else set_if_located params Param.pkey_max_size 4096

  -- The parameters that a public export hands out; `none` is an early `return 0`.
  unfoldable pub export_public : ℕ → M (Option Object)
  unfolding call malloc free duplicate_buffer_in_reverse
  export_public h = do
    size ← call (Call.ncrypt_export_key h) (λ t. env.ncrypt_export_size t h)
    elim size [
      | none ↦ pure none
      | some _ ↦ (do
        public_blob ← malloc env.memory
        elim public_blob [
          | none ↦ pure none
          | some blob ↦ (do
            exported ← call (Call.ncrypt_export_key h) (λ t. env.ncrypt_export_key t h)
            elim exported [
              | none ↦ (do free blob; pure none)
              | some pb ↦ (do
                e ← duplicate_buffer_in_reverse pb.bytes pb.cb_public_exp
                elim e [
                  | none ↦ (do free blob; pure none)
                  | some (ep, exp) ↦ (do
                    n ← duplicate_buffer_in_reverse (drop pb.cb_public_exp pb.bytes) pb.cb_modulus
                    elim n [
                      | none ↦ (do free blob; free ep; pure none)
                      | some (np, modulus) ↦ pure (some (rsa_public exp modulus))
                    ])
                ])
            ])
        ])
    ]

  -- `params` is NULL unless the public key was selected.
  unfoldable pub cng_keymgmt_export : ℕ → Selection → M Bool
  unfolding call get_handle export_public
  cng_keymgmt_export key selection =
      if selection.private_key
      then pure false
      else if selection.public_key
      then (do
        h ← get_handle key
        params ← export_public h
        elim params [ none ↦ pure false | some p ↦ call (Call.callback p) (λ t. env.callback t p) ])
      else if selection.domain_parameters || selection.other_parameters
      then pure false
      else call (Call.callback null_params) (λ t. env.callback t null_params)

unfoldable pub cng_keymgmt_export_types : Selection → Option (List ExportType)
cng_keymgmt_export_types selection =
    if selection.public_key then some (rsa_e ∷ rsa_n ∷ []) else none
