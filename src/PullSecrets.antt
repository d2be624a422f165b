-- ===== src/PullSecrets.antt =====
-- `getImagePullSecrets` and `buildResolverForPod` of internal/controller/pod_gate_controller.go. The
-- keychains of the libraries, and a resolver made from a list of them, are parameters, and so is the
-- order in which Go ranges over a map.
pub mod Access
use aqua_scan_gate.Common.{
  Text, codes, List, [], ◌∷◌, ◌++◌, Bool, false, ◌||◌, Result, ok, err, ◌==◌, if◌then◌else◌,
}
use aqua_scan_gate.Kube.{
  Pod, NamespacedName, ApiError, not_found, other, already_exists, ServiceAccount, Secret, Server,
}
use aqua_scan_gate.Session.{Session, Resolver, get_service_account, get_secret}

-- secretNames[name] = true, for each name
unfoldable pub is_name : Text → List Text → Bool
unfolding ◌==◌
is_name name [] = false
is_name name (n ∷ names) = n == name || is_name name names

unfoldable pub add_names : List Text → List Text → List Text
unfolding is_name
add_names names [] = names
add_names names (ref ∷ refs) =
    add_names (if is_name ref names then names else names ++ ref ∷ []) refs

unfoldable pub service_account_name : Pod → Text
unfolding ◌==◌
service_account_name pod =
    if pod.spec.service_account_name == [] then codes "default" else pod.spec.service_account_name

-- the answer for the ServiceAccount: a missing one adds no names
unfoldable pub account_names :
    List Text → Result ApiError ServiceAccount → Result ApiError (List Text)
account_names names (ok account) = ok (add_names names account.image_pull_secrets)
account_names names (err not_found) = ok names
account_names names (err already_exists) = err already_exists
account_names names (err (other e)) = err (other e)

-- the answer for one secret: a missing one is skipped
unfoldable pub add_secret : List Secret → Result ApiError Secret → Result ApiError (List Secret)
add_secret secrets (ok secret) = ok (secrets ++ secret ∷ [])
add_secret secrets (err not_found) = ok secrets
add_secret secrets (err already_exists) = err already_exists
add_secret secrets (err (other e)) = err (other e)

module _ {W : Type 0} (server : Server W) where
  -- the loop over the names
  unfoldable pub fetch_secrets :
      Text → List Text → List Secret → Session W → Result ApiError (List Secret) × Session W
  fetch_secrets namespace [] secrets s = (ok secrets, s)
  fetch_secrets namespace (name ∷ names) secrets s =
      let r = get_secret server (record { namespace = namespace; name = name }) s in
      elim (add_secret secrets r.0) [
        | err e ↦ (err e, r.1)
        | ok secrets' ↦ fetch_secrets namespace names secrets' r.1
      ]

  -- Go ranges over the set of names in an order of its own.
  unfoldable pub get_image_pull_secrets :
      (List Text → List Text) → Pod → Session W → Result ApiError (List Secret) × Session W
  get_image_pull_secrets range_order pod s =
      let key : NamespacedName = record {
        namespace = pod.namespace;
        name = service_account_name pod;
      } in
      let r = get_service_account server key s in
      elim (account_names (add_names [] pod.spec.image_pull_secrets) r.0) [
        | err e ↦ (err e, r.1)
        | ok names ↦ fetch_secrets pod.namespace (range_order names) [] r.1
      ]

pub record NamedKeychain (K : Type 0) : Type 0 where
  pub keychain : K
  pub name : Text

pub record Keychains (K : Type 0) : Type 0 where
  pub new_from_pull_secrets : List Secret → Result Text K
  pub acr_keychain : K
  pub default_keychain : K

module _ {W K : Type 0} (server : Server W) (range_order : List Text → List Text)
    (library : Keychains K) (new_resolver : List (NamedKeychain K) → Resolver W) where
  -- a failure to get the secrets, or to make a keychain of them, leaves them out
  unfoldable pub secret_keychains : Result ApiError (List Secret) → List (NamedKeychain K)
  secret_keychains (err e) = []
  secret_keychains (ok []) = []
  secret_keychains (ok (secret ∷ secrets)) =
      elim (library.new_from_pull_secrets (secret ∷ secrets)) [
        | err e ↦ []
        | ok k ↦ record { keychain = k; name = codes "imagePullSecrets" } ∷ []
      ]

  unfoldable pub build_resolver_for_pod : Pod → Session W → Resolver W × Session W
  build_resolver_for_pod pod s =
      let r = get_image_pull_secrets server range_order pod s in
      (
        new_resolver (
            secret_keychains r.0
            ++ record { keychain = library.acr_keychain; name = codes "ACR-WorkloadIdentity" }
              ∷ record { keychain = library.default_keychain; name = codes "DefaultKeychain" }
              ∷ []),
        r.1,
      )
