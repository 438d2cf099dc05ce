-- ===== src/Skf/Enumerate.antt =====
-- GetDevHandles, GetAppHandles, GetContainerHandles and GetCertificateToX509.
pub mod Applications
pub mod Opened
use make_down_file.Prelude.{
  ℕ, zero, suc, ◌+◌, Bool, true, false, not, Option, none, some, List, [], ◌∷◌, ◌++◌, ◌==◌, ltb,
  length, if◌then◌else◌,
}
use make_down_file.Run.{pure, ◌>>=◌, ◌>>◌}
use make_down_file.Skf.World.{
  Call, Listing, Token, World, M, call, malloc, free, from_option, undefined,
}
use make_down_file.Skf.Api.{get_skf_api}
use make_down_file.Skf.Names.{count_loop, Pass, all, failed, open_loop}

-- A status that a function returns: one of the token's, or -1.
pub data Rv : Type 0 where
  code : ℕ → Rv
  minus_one : Rv

-- What a function returns and stores: its status, the array behind the first out parameter with its
-- address, and the number behind the second. `none` is a NULL array and a number never written.
pub record Handles : Type 0 where
  pub rv : Rv
  pub array : Option (ℕ × List ℕ)
  pub count : Option ℕ

abbrev pub returned : Rv → Handles
returned rv = record { rv = rv; array = none; count = none }

module _ (token : Token) where
  -- The prologue of each function: `none` is its `return NULL`, taken when there is a message.
  unfoldable pub need_api : M (Option ℕ)
  unfolding free from_option get_skf_api
  need_api = do
    (api, errmsg) ← get_skf_api token
    elim errmsg [
      | some e ↦ (do free e; pure none)
      | none ↦ (do pf_skf ← from_option api; pure (some pf_skf))
    ]

  -- The names that an enumeration call lists: the length first, then the list in a block of that
  -- length. The block stays allocated.
  unfoldable pub list_names : (Bool → Call) → (List Call → Listing) → M (Rv × Option (ℕ × Listing))
  unfolding call malloc free
  list_names enum answer = do
    sized ← call (enum false) answer
    if not (sized.rv == 0)
        then pure (code sized.rv, none)
        else if ltb sized.len 2
        then pure (minus_one, none)
        else (do
          block ← malloc token.memory
          elim block [
            | none ↦ pure (minus_one, none)
            | some list ↦ (do
              listed ← call (enum true) answer
              if not (listed.rv == 0)
                  then (do free list; pure (code listed.rv, none))
                  else pure (code 0, some (list, listed)))
          ])

  -- From the listing on: count, allocate the array, open each name.
  unfoldable pub open_all : (List ℕ → M (ℕ × ℕ)) → ℕ → Listing → M Handles
  unfolding malloc free count_loop open_loop
  open_all open_name list listed = do
    n ← count_loop 1 (listed.len + 1) 0 listed.len listed.mem 0
    if n == 0 then pure (returned (code 0)) else do
      block ← malloc token.memory
      elim block [
        | none ↦ (do free list; pure (returned minus_one))
        | some handles ↦ (do
          pass ← open_loop open_name n 1 (listed.len + 1) 0 listed.len listed.mem []
          elim pass [
            | failed rv _ ↦ (do free handles; free list; pure (returned (code rv)))
            | all out ↦ (do
              free list
              pure (record { rv = code 0; array = some (handles, out); count = some n }))
          ])
      ]

  unfoldable pub open_application : ℕ → List ℕ → M (ℕ × ℕ)
  unfolding call
  open_application dev name = do
    opened ← call (Call.open_application dev name) (λ t. token.open_application t dev name)
    pure (opened.rv, opened.handle)

  unfoldable pub get_app_handles : ℕ → M Handles
  unfolding need_api list_names open_all open_application
  get_app_handles dev = do
    api ← need_api
    elim api [
      | none ↦ pure (returned (code 0))
      | some _ ↦ (do
        (rv, listed) ← list_names (Call.enum_application dev) (λ t. token.enum_application t dev)
        elim listed [
          | none ↦ pure (returned rv)
          | some (list, names) ↦ open_all (open_application dev) list names
        ])
    ]

  unfoldable pub open_container : ℕ → List ℕ → M (ℕ × ℕ)
  unfolding call
  open_container app name = do
    opened ← call (Call.open_container app name) (λ t. token.open_container t app name)
    pure (opened.rv, opened.handle)

  unfoldable pub get_container_handles : ℕ → M Handles
  unfolding need_api list_names open_all open_container
  get_container_handles app = do
    api ← need_api
    elim api [
      | none ↦ pure (returned (code 0))
      | some _ ↦ (do
        (rv, listed) ← list_names (Call.enum_container app) (λ t. token.enum_container t app)
        elim listed [
          | none ↦ pure (returned rv)
          | some (list, names) ↦ open_all (open_container app) list names
        ])
    ]

  unfoldable pub connect_dev : List ℕ → M (ℕ × ℕ)
  unfolding call
  connect_dev name = do
    opened ← call (Call.connect_dev name) (λ t. token.connect_dev t name)
    pure (opened.rv, opened.handle)

  -- The device list is walked without skipping terminators; an empty one is no special case, and a
  -- failing connection leaves the array allocated.
  unfoldable pub open_devices : ℕ → Listing → M Handles
  unfolding malloc free count_loop open_loop connect_dev
  open_devices list listed = do
    size ← count_loop 0 (listed.len + 1) 0 listed.len listed.mem 0
    block ← malloc token.memory
    elim block [
      | none ↦ (do free list; pure (returned minus_one))
      | some devs ↦ (do
        pass ← open_loop connect_dev size 0 (listed.len + 1) 0 listed.len listed.mem []
        elim pass [
          | failed rv out ↦ (do
            free list
            pure (record { rv = code rv; array = some (devs, out); count = none }))
          | all out ↦ (do
            free list
            pure (record { rv = code 0; array = some (devs, out); count = some (length out) }))
        ])
    ]

  unfoldable pub get_dev_handles : M Handles
  unfolding need_api list_names open_devices
  get_dev_handles = do
    api ← need_api
    elim api [
      | none ↦ pure (returned (code 0))
      | some _ ↦ (do
        (rv, listed) ← list_names Call.enum_dev token.enum_dev
        elim listed [ none ↦ pure (returned rv) | some (list, names) ↦ open_devices list names ])
    ]

  -- The certificate of a container; `pbCert` is NULL if the token reports no length.
  unfoldable pub get_certificate_to_x509 : ℕ → Bool → M (Option ℕ)
  unfolding call malloc free need_api
  get_certificate_to_x509 container sign_flag = do
    api ← need_api
    elim api [
      | none ↦ pure none
      | some _ ↦ (do
        let answer = λ (t : List Call). token.export_certificate t container sign_flag
        sized ← call (Call.export_certificate container sign_flag false) answer
        if not (sized.rv == 0)
            then pure none
            else if sized.len == 0
            then (do
              exported ← call (Call.export_certificate container sign_flag false) answer
              if not (exported.rv == 0)
                  then pure none
                  else call (Call.d2i_x509 []) (λ t. token.d2i_x509 t []))
            else (do
              block ← malloc token.memory
              elim block [
                | none ↦ pure none
                | some cert ↦ (do
                  exported ← call (Call.export_certificate container sign_flag true) answer
                  if not (exported.rv == 0) then (do free cert; pure none) else (do
                    x ← call (Call.d2i_x509 exported.mem) (λ t. token.d2i_x509 t exported.mem)
                    free cert
                    pure x))
              ]))
    ]
