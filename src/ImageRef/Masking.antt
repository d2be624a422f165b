-- ===== src/ImageRef/Masking.antt =====
-- What pkg/imageref/debug_keychain.go logs of credentials: maskCredential, the log of a resolution, and
-- LogWorkloadIdentityEnv.
use aqua_scan_gate.Common.{
  ℕ, ◌-◌, Text, codes, List, [], ◌∷◌, ◌++◌, Bool, not, Option, none, some, Result, ok, err, leb,
  ltb, length, take, drop, ◌==◌, if◌then◌else◌,
}
use aqua_scan_gate.ImageRef.{Reference}
use aqua_scan_gate.ImageRef.Keychains.{Credentials, Authenticator, Keychain, is_empty}

unfoldable pub mask_credential : Text → Text
unfolding ◌==◌
mask_credential s =
    if s == []
    then []
    else if leb (length s) 4
    then codes "****"
    else take 2 s ++ (codes "****" ++ drop (length s - 2) s)

-- The fields "hasUsername", "hasPassword", "hasToken" and "hasIdentityToken" of a log line.
pub record Presence : Type 0 where
  pub has_username : Bool
  pub has_password : Bool
  pub has_token : Bool
  pub has_identity_token : Bool

unfoldable pub presence : Credentials → Presence
unfolding ◌==◌
presence c = record {
  has_username = not (c.username == []);
  has_password = not (c.password == []);
  has_token = not (c.registry_token == []);
  has_identity_token = not (c.identity_token == []);
}

-- The log lines, each with its values.
pub data Entry : Type 0 where
  resolving resolved_anonymous getting_authorization nil_config : Text → Entry
  failed_to_resolve failed_authorization : Text → Text → Entry
  got_credentials : Text → Presence → Text → Entry
  trying returned_anonymous empty_credentials : Text → Entry
  keychain_error authorization_error : Text → Text → Entry
  keychain_succeeded : Text → Presence → Entry
  no_keychain : Text → Entry
  searching : Text → List Text → Entry

-- `DebugKeychain.Resolve`, after the answer of the inner keychain
unfoldable pub wrap_answer :
    Text → Result Text Authenticator → Result Text Authenticator × List Entry
wrap_answer target (err e) = (err e, resolving target ∷ failed_to_resolve target e ∷ [])
wrap_answer target (ok Authenticator.anonymous) =
    (ok Authenticator.anonymous, resolving target ∷ resolved_anonymous target ∷ [])
wrap_answer target (ok (Authenticator.credentials c)) =
    (ok (Authenticator.credentials c), resolving target ∷ [])

unfoldable pub debug_resolve : Keychain → Text → Result Text Authenticator × List Entry
unfolding wrap_answer
debug_resolve inner target = wrap_answer target (inner target)

-- `debugAuthenticator.Authorization`, after the answer of the inner authenticator
unfoldable pub debug_authorization :
    Text → Result Text (Option Credentials) → Result Text (Option Credentials) × List Entry
unfolding mask_credential presence
debug_authorization target (err e) =
    (err e, getting_authorization target ∷ failed_authorization target e ∷ [])
debug_authorization target (ok none) =
    (ok none, getting_authorization target ∷ nil_config target ∷ [])
debug_authorization target (ok (some c)) = (
  ok (some c),
  getting_authorization target
      ∷ got_credentials target (presence c) (mask_credential c.username)
      ∷ [],
)

-- the end of the loop body of `DebugMultiKeychain.Resolve`: what is logged, and the answer if the loop
-- stops
unfoldable pub judge_answer : Text → Result Text Authenticator → Option Authenticator × List Entry
unfolding is_empty presence
judge_answer name (err e) = (none, keychain_error name e ∷ [])
judge_answer name (ok Authenticator.anonymous) = (none, returned_anonymous name ∷ [])
judge_answer name (ok (Authenticator.credentials (err e))) = (none, authorization_error name e ∷ [])
judge_answer name (ok (Authenticator.credentials (ok none))) = (none, empty_credentials name ∷ [])
judge_answer name (ok (Authenticator.credentials (ok (some c)))) =
    if is_empty c
    then (none, empty_credentials name ∷ [])
    else (some (Authenticator.credentials (ok (some c))), keychain_succeeded name (presence c) ∷ [])

-- the loop of `DebugMultiKeychain.Resolve`, with its log
unfoldable pub try_keychains : List (Text × Keychain) → Text → Authenticator × List Entry
unfolding judge_answer
try_keychains [] target = (Authenticator.anonymous, no_keychain target ∷ [])
try_keychains ((name, kc) ∷ kcs) target =
    let rest = try_keychains kcs target in
    let judged = judge_answer name (kc target) in
    elim judged.0 [
      | some auth ↦ (auth, trying name ∷ judged.1)
      | none ↦ (rest.0, trying name ∷ judged.1 ++ rest.1)
    ]

abbrev pub names_of : List (Text × Keychain) → List Text
names_of [] = []
names_of ((name, kc) ∷ kcs) = name ∷ names_of kcs

-- `DebugMultiKeychain.Resolve`
unfoldable pub debug_multi_resolve : List (Text × Keychain) → Text → Authenticator × List Entry
unfolding try_keychains
debug_multi_resolve kcs target =
    let r = try_keychains kcs target in (r.0, searching target (names_of kcs) ∷ r.1)

-- `ParseRegistryFromImage`
unfoldable pub parse_registry_from_image : (Text → Result Text Reference) → Text → Result Text Text
parse_registry_from_image parse_reference image = elim (parse_reference image) [
  | err e ↦ err (codes "parsing image reference: " ++ e)
  | ok (Reference.tag registry repository name) ↦ ok registry
  | ok (Reference.digest registry repository name) ↦ ok registry
]

-- The log lines of LogWorkloadIdentityEnv, less the first and the last, which are always the same.
pub data EnvEntry : Type 0 where
  not_set : Text → EnvEntry
  token_file : Text → Text → ℕ → Text → EnvEntry
  unreadable token_file_missing : Text → Text → Text → EnvEntry
  set_masked set_to : Text → Text → EnvEntry

-- os.Getenv, the error of os.Stat, and os.ReadFile
pub record Environment : Type 0 where
  pub getenv : Text → Text
  pub stat_error : Text → Option Text
  pub read_file : Text → Result Text Text

unfoldable pub token_preview : Text → Text
token_preview content = if ltb 50 (length content) then take 50 content ++ codes "..." else content

unfoldable pub log_token_file : Environment → Text → Text → EnvEntry
unfolding token_preview
log_token_file os env path = elim (os.stat_error path) [
  | some e ↦ EnvEntry.token_file_missing env path e
  | none ↦ elim (os.read_file path) [
    | err e ↦ EnvEntry.unreadable env path e
    | ok content ↦ EnvEntry.token_file env path (length content) (token_preview content)
  ]
]

-- one turn of the loop; of the four names only the first holds "CLIENT_ID"
unfoldable pub log_variable : Environment → Text → EnvEntry
unfolding log_token_file mask_credential ◌==◌
log_variable os env =
    let value = os.getenv env in
    if value == []
    then EnvEntry.not_set env
    else if env == codes "AZURE_FEDERATED_TOKEN_FILE"
    then log_token_file os env value
    else if env == codes "AZURE_CLIENT_ID"
    then EnvEntry.set_masked env (mask_credential value)
    else EnvEntry.set_to env value

unfoldable pub log_workload_identity_env : Environment → List EnvEntry
unfolding log_variable
log_workload_identity_env os =
    log_variable os (codes "AZURE_CLIENT_ID")
    ∷ log_variable os (codes "AZURE_TENANT_ID")
    ∷ log_variable os (codes "AZURE_FEDERATED_TOKEN_FILE")
    ∷ log_variable os (codes "AZURE_AUTHORITY_HOST")
    ∷ []
