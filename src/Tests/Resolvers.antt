-- ===== src/Tests/Resolvers.antt =====
-- Digests from a registry with one index, and a chain of keychains.
use aqua_scan_gate.Common.{
  ℕ, ◌+◌, Text, codes, List, [], ◌∷◌, ◌++◌, none, some, Result, ok, err, ◌==◌, ◌≡◌, ◌≢◌, ◌⊎◌, refl,
}
use aqua_scan_gate.Aqua.Mirrors.{RegistryMirror, apply_registry_mirror}
use aqua_scan_gate.Aqua.Mirroring.{IsMirrored, apply_registry_mirror-IsMirrored}
use aqua_scan_gate.ImageRef.{ImageRef, Reference}
use aqua_scan_gate.ImageRef.Resolver.{Manifest, Remote, default_platform, resolve_image_ref}
use aqua_scan_gate.ImageRef.Resolution.{IsDigestOf, resolve_image_ref_sound}
use aqua_scan_gate.Session.{get_service_account}
use aqua_scan_gate.Session.Trace.{ExtendsBy}
use aqua_scan_gate.PullSecrets.{build_resolver_for_pod}
use aqua_scan_gate.PullSecrets.Access.{IsOwnRead, account_key, build_resolver_for_pod-IsOwnRead}
use aqua_scan_gate.Tests.World.{gated_pod, server, external, registered_scan, start}
use aqua_scan_gate.ImageRef.Masking.{mask_credential, presence, token_preview, debug_multi_resolve}
use aqua_scan_gate.ImageRef.Discretion.{debug_multi_resolve-discreet}
use aqua_scan_gate.ImageRef.Keychains.{
  Keychain, Authenticator, Credentials, multi_resolve, IsFirstUsable, multi_resolve-IsFirstUsable,
}

abbrev arm : Manifest
arm = record {
  platform = some (record { architecture = codes "arm64"; os = codes "linux" });
  digest = codes "sha256:aa";
}

abbrev amd : Manifest
amd = record { platform = some default_platform; digest = codes "sha256:bb" }

-- The world counts the calls.
abbrev remote : Remote ℕ
remote = record {
  index = λ ref w. (ok (ok (record { platform = none; digest = [] } ∷ arm ∷ amd ∷ [])), w + 1);
  image = λ ref w. (err (codes "no image"), w + 1);
}

abbrev parse : Text → Result Text Reference
parse t = ok (Reference.tag (codes "index.docker.io") t (codes "1"))

abbrev nginx_ref : ImageRef
nginx_ref = record { image = codes "nginx:1"; digest = [] }

abbrev nginx_resolved : ImageRef
nginx_resolved = record { image = codes "nginx:1"; digest = codes "sha256:bb" }

resolvers : Unit {0}
unfolding resolve_image_ref multi_resolve ◌==◌
resolvers = tt

resolve_image_ref_sound_example :
    (nginx_resolved.image ≡ nginx_ref.image)
    × (((nginx_ref.digest ≢ []) × (nginx_resolved.digest ≡ nginx_ref.digest))
        ⊎ IsDigestOf parse remote default_platform nginx_ref.image 0 nginx_resolved.digest)
unfolding resolvers
resolve_image_ref_sound_example =
    resolve_image_ref_sound parse remote default_platform nginx_ref nginx_resolved 0 refl

abbrev token_only : Credentials
token_only = record {
  username = [];
  password = [];
  registry_token = [];
  identity_token = codes "id";
}

abbrev no_credentials : Credentials
no_credentials = record token_only { identity_token = [] }

abbrev keychains : List Keychain
keychains =
    (λ t. err (codes "broken"))
    ∷ (λ t. ok Authenticator.anonymous)
    ∷ (λ t. ok (Authenticator.credentials (ok (some no_credentials))))
    ∷ (λ t. ok (Authenticator.credentials (ok (some token_only))))
    ∷ []

multi_resolve-IsFirstUsable_example : IsFirstUsable keychains (codes "ghcr.io")
multi_resolve-IsFirstUsable_example = multi_resolve-IsFirstUsable keychains (codes "ghcr.io")

chain_test :
    multi_resolve keychains (codes "ghcr.io")
    ≡ ok (Authenticator.credentials (ok (some token_only)))
unfolding resolvers
chain_test = refl

abbrev mirror_list : List RegistryMirror
mirror_list =
    record { source = codes "gcr.io"; mirror = codes "mirror/gcr" }
    ∷ record { source = codes "https://docker.io/"; mirror = codes "mirror/hub" }
    ∷ []

apply_registry_mirror-IsMirrored_example :
    IsMirrored
      (codes "index.docker.io")
      (codes "library/nginx")
      mirror_list
      (apply_registry_mirror (codes "index.docker.io") (codes "library/nginx") mirror_list)
apply_registry_mirror-IsMirrored_example =
    apply_registry_mirror-IsMirrored (codes "index.docker.io") (codes "library/nginx") mirror_list

mirrors : Unit {0}
unfolding apply_registry_mirror
mirrors = tt

mirror_test :
    apply_registry_mirror (codes "index.docker.io") (codes "library/nginx") mirror_list
    ≡ (codes "mirror", codes "hub/library/nginx")
unfolding mirrors
mirror_test = refl

abbrev with_secret : Text → List (Text × Keychain)
with_secret secret =
    (codes "secrets", λ t. err (codes "broken"))
    ∷ (
      codes "acr",
      λ t. ok (
          Authenticator.credentials (
            ok (
              some (record {
                username = codes "user" ++ (secret ++ codes "me");
                password = secret;
                registry_token = [];
                identity_token = [];
              })))),
    )
    ∷ []

debug_multi_resolve-discreet_example :
    (debug_multi_resolve (with_secret (codes "hunter2")) (codes "ghcr.io")).1
    ≡ (debug_multi_resolve (with_secret (codes "12345678")) (codes "ghcr.io")).1
unfolding presence mask_credential ◌==◌
debug_multi_resolve-discreet_example =
    debug_multi_resolve-discreet (with_secret (codes "hunter2")) (with_secret (codes "12345678"))
      (codes "ghcr.io") refl

mask_test : mask_credential (codes "administrator") ≡ codes "ad****or"
unfolding mask_credential ◌==◌
mask_test = refl

-- A token file of fifty bytes or less is logged as it is.
token_preview_test : token_preview (codes "short-token") ≡ codes "short-token"
unfolding token_preview
token_preview_test = refl

build_resolver_for_pod-IsOwnRead_example :
    ExtendsBy
      (IsOwnRead gated_pod
        (get_service_account server (account_key gated_pod) (start registered_scan)).0)
      []
      (build_resolver_for_pod server external.range_order external.keychains external.new_resolver
        gated_pod
        (start registered_scan)).1.calls
build_resolver_for_pod-IsOwnRead_example =
    build_resolver_for_pod-IsOwnRead server external.range_order external.keychains
      external.new_resolver gated_pod (start registered_scan) (λ names name m. m)
