-- ===== src/PullSecrets/Access.antt =====
-- Which objects buildResolverForPod of internal/controller/pod_gate_controller.go reads for a pod.
use aqua_scan_gate.Common.{
  Text, List, [], ◌∷◌, ◌++◌, Result, ok, err, Bool-cases, Result-cases, ◌≡◌, refl, subst, ◌⊎◌, inl,
  inr, Memᴰ, All, All-imp, All-append, All-mem,
}
use aqua_scan_gate.Kube.{
  Pod, NamespacedName, ApiError, not_found, already_exists, other, ServiceAccount, Secret, Server,
}
use aqua_scan_gate.Session.{
  Session, Call, Resolver, service_account_read, secret_read, get_service_account, get_secret,
}
use aqua_scan_gate.Session.Trace.{ExtendsBy, same, more, ExtendsBy-trans}
use aqua_scan_gate.PullSecrets.{
  is_name, add_names, service_account_name, account_names, add_secret, fetch_secrets,
  get_image_pull_secrets, Keychains, NamedKeychain, build_resolver_for_pod,
}

-- The name is in the pull secrets of the pod, or in those of the service account as the server answered.
abbrev pub IsOwnName : Pod → Result ApiError ServiceAccount → Text → Type 0
IsOwnName pod (ok account) name =
    Memᴰ name pod.spec.image_pull_secrets ⊎ Memᴰ name account.image_pull_secrets
IsOwnName pod (err e) name = Memᴰ name pod.spec.image_pull_secrets

-- A read of the service account of the pod, or of one of the pull secrets of the two, all of it in the
-- pod's namespace.
abbrev pub IsOwnRead : Pod → Result ApiError ServiceAccount → Call → Type 0
IsOwnRead pod account (service_account_read key answer) =
    (key.namespace ≡ pod.namespace) × (key.name ≡ service_account_name pod)
IsOwnRead pod account (secret_read key answer) =
    (key.namespace ≡ pod.namespace) × IsOwnName pod account key.name
IsOwnRead pod account _ = ⊥

module _ (P : Text → Type 0) where
  add_names-All : (names refs : List Text) → All P names → All P refs → All P (add_names names refs)
  unfolding add_names
  add_names-All names [] h k = h
  add_names-All names (ref ∷ refs) h (p, k) = elim (Bool-cases (is_name ref names)) [
    | inl y ↦ rw y (add_names-All names refs h k)
    | inr n ↦ rw n (add_names-All (names ++ ref ∷ []) refs (All-append P names _ h (p, tt)) k)
  ]

All-self : (xs ys : List Text) → ((x : Text) → Memᴰ x xs → Memᴰ x ys) → All (λ x. Memᴰ x ys) xs
All-self [] ys f = tt
All-self (x ∷ xs) ys f = (f x (Memᴰ.head refl), All-self xs ys (λ z m. f z (Memᴰ.tail m)))

account_names-IsOwnName :
    (pod : Pod) (answer : Result ApiError ServiceAccount) (names : List Text)
    → account_names (add_names [] pod.spec.image_pull_secrets) answer ≡ ok names
    → All (IsOwnName pod answer) names
unfolding account_names
account_names-IsOwnName pod (ok account) names h =
    let P = IsOwnName pod (ok account) in
    let same_names : add_names (add_names [] pod.spec.image_pull_secrets) account.image_pull_secrets
        ≡ names =
      cc in
    let pods = All-imp _ (λ x m. inl m) (All-self pod.spec.image_pull_secrets _ (λ x m. m)) in
    let accounts = All-imp _ (λ x m. inr m) (All-self account.image_pull_secrets _ (λ x m. m)) in
    subst (All P) same_names (
      add_names-All P _ account.image_pull_secrets
        (add_names-All P [] pod.spec.image_pull_secrets tt pods) accounts)
account_names-IsOwnName pod (err not_found) names h =
    let P = IsOwnName pod (err not_found) in
    let same_names : add_names [] pod.spec.image_pull_secrets ≡ names = cc in
    subst (All P) same_names (
      add_names-All P [] pod.spec.image_pull_secrets tt
        (All-self pod.spec.image_pull_secrets _ (λ x m. m)))
account_names-IsOwnName pod (err already_exists) names h = cc
account_names-IsOwnName pod (err (other e)) names h = cc

abbrev pub account_key : Pod → NamespacedName
account_key pod = record { namespace = pod.namespace; name = service_account_name pod }

module _ {W : Type 0} (server : Server W) where
  fetch_secrets-IsOwnRead :
      (pod : Pod) (answer : Result ApiError ServiceAccount) (names : List Text)
      (secrets : List Secret) (s : Session W)
      → All (IsOwnName pod answer) names
      → ExtendsBy
          (IsOwnRead pod answer)
          s.calls
          (fetch_secrets server pod.namespace names secrets s).1.calls
  unfolding fetch_secrets get_secret
  fetch_secrets-IsOwnRead pod answer [] secrets s h = same
  fetch_secrets-IsOwnRead pod answer (name ∷ names) secrets s (own, h) =
      let r = get_secret server (record { namespace = pod.namespace; name = name }) s in
      elim (Result-cases (add_secret secrets r.0)) [
        | inl (secrets', e) ↦
            rw (e, fetch_secrets)
              (ExtendsBy-trans (more (refl, own) same)
                (fetch_secrets-IsOwnRead pod answer names secrets' r.1 h))
        | inr (failure, e) ↦ rw (e, fetch_secrets) (more (refl, own) same)
      ]

  get_image_pull_secrets-IsOwnRead :
      (range_order : List Text → List Text) (pod : Pod) (s : Session W)
      → ((names : List Text) (name : Text) → Memᴰ name (range_order names) → Memᴰ name names)
      → ExtendsBy
          (IsOwnRead pod (get_service_account server (account_key pod) s).0)
          s.calls
          (get_image_pull_secrets server range_order pod s).1.calls
  unfolding get_image_pull_secrets get_service_account
  get_image_pull_secrets-IsOwnRead range_order pod s order =
      let r = get_service_account server (account_key pod) s in
      elim (Result-cases (account_names (add_names [] pod.spec.image_pull_secrets) r.0)) [
        | inr (failure, e) ↦ rw (e, get_image_pull_secrets) (more (refl, refl) same)
        | inl (names, e) ↦
            let own = account_names-IsOwnName pod r.0 names e in
            let ordered = All-self (range_order names) names (order names) in
            rw (e, get_image_pull_secrets)
              (ExtendsBy-trans (more (refl, refl) same) (
                fetch_secrets-IsOwnRead pod r.0 (range_order names) [] r.1 (
                  All-imp (range_order names) (λ x m. All-mem (IsOwnName pod r.0) names own m)
                    ordered)))
      ]

  -- For the credentials of a pod nothing is read but the service account of the pod and the secrets that
  -- the pod or that account name as pull secrets, and all of it in the pod's own namespace, as long as
  -- ranging over the set of names yields names of the set.
  pub build_resolver_for_pod-IsOwnRead :
      {K : Type 0} (range_order : List Text → List Text) (library : Keychains K)
      (new_resolver : List (NamedKeychain K) → Resolver W) (pod : Pod) (s : Session W)
      → ((names : List Text) (name : Text) → Memᴰ name (range_order names) → Memᴰ name names)
      → ExtendsBy
          (IsOwnRead pod (get_service_account server (account_key pod) s).0)
          s.calls
          (build_resolver_for_pod server range_order library new_resolver pod s).1.calls
  unfolding build_resolver_for_pod
  build_resolver_for_pod-IsOwnRead range_order library new_resolver pod s order =
      get_image_pull_secrets-IsOwnRead range_order pod s order
