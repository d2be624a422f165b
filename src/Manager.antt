-- ===== src/Manager.antt =====
-- cmd/main.go: the flags of the manager become the configuration of the two controllers and of the
-- webhook. What controller-runtime does with them and the log lines are left out.
pub mod Namespaces
pub mod Process
use aqua_scan_gate.Common.{
  ℕ, ◌*◌, Text, List, [], ◌∷◌, Bool, true, none, Result, ok, err, ◌==◌, split, trim_space, ◌>>=◌,
  if◌then◌else◌,
}
use aqua_scan_gate.Aqua.Mirrors.{RegistryMirror}
use aqua_scan_gate.Aqua.MirrorList.{MirrorError, parse_registry_mirrors}
use aqua_scan_gate.Aqua.Tokens.{nanoseconds}
use aqua_scan_gate.Aqua.Setup.{ClientConfig}
use aqua_scan_gate.Webhook.{PodMutator}
use aqua_scan_gate.PodGate.Config.{PodGateReconciler}

-- The values of the flags that are read below.
pub record Flags : Type 0 where
  pub url : Text
  pub auth_url : Text
  pub api_key : Text
  pub hmac_secret : Text
  pub excluded_namespaces : Text
  pub included_namespaces : Text
  pub scan_namespace : Text
  pub rescan_interval : ℕ
  pub registry_mirrors : Text
  pub resolver_registry_mirrors : Text

-- one of the two loops over the names of a flag; the map is one by its entries
unfoldable pub add_namespaces : List (Text × Bool) → List Text → List (Text × Bool)
unfolding trim_space ◌==◌
add_namespaces m [] = m
add_namespaces m (ns ∷ rest) =
    add_namespaces (if trim_space ns == [] then m else (trim_space ns, true) ∷ m) rest

unfoldable pub parse_namespaces : Text → List (Text × Bool)
unfolding add_namespaces split
parse_namespaces flag = add_namespaces [] (split b',' flag)

unfoldable pub client_config : Flags → List RegistryMirror → ClientConfig
client_config flags mirrors = record {
  base_url = flags.url;
  api_key = [];
  auth = record {
    api_key = flags.api_key;
    hmac_secret = flags.hmac_secret;
    auth_url = flags.auth_url;
    token_validity = 0;
  };
  registry = [];
  registry_mirrors = mirrors;
  timeout = 30 * nanoseconds;
  cache_ttl = 0;
  file_cache_enabled = none;
  file_cache_dir = [];
}

unfoldable pub pod_gate_reconciler :
    {W : Type 0} → Flags → List RegistryMirror → PodGateReconciler W
unfolding parse_namespaces
pod_gate_reconciler flags mirrors = record {
  recorder = true;
  scan_namespace = flags.scan_namespace;
  excluded_namespaces = parse_namespaces flags.excluded_namespaces;
  included_namespaces = parse_namespaces flags.included_namespaces;
  resolver = none;
  registry_mirrors = mirrors;
}

unfoldable pub pod_mutator : Flags → PodMutator
unfolding parse_namespaces
pod_mutator flags = record {
  excluded_namespaces = parse_namespaces flags.excluded_namespaces;
  included_namespaces = parse_namespaces flags.included_namespaces;
  excluded_images = [];
}

-- What `main` hands to the manager. `rescan_interval` is the interval of `ImageScanReconciler`.
pub record Parts (W : Type 0) : Type 0 where
  pub aqua_client : ClientConfig
  pub rescan_interval : ℕ
  pub pod_gate : PodGateReconciler W
  pub mutator : PodMutator

-- An error is one of the two exits for a list of mirrors.
unfoldable pub configure : {W : Type 0} → Flags → Result MirrorError (Parts W)
unfolding parse_registry_mirrors client_config pod_gate_reconciler pod_mutator
configure flags = do
  mirrors ← parse_registry_mirrors flags.registry_mirrors
  resolver_mirrors ← parse_registry_mirrors flags.resolver_registry_mirrors
  ok (record {
    aqua_client = client_config flags mirrors;
    rescan_interval = flags.rescan_interval;
    pod_gate = pod_gate_reconciler flags resolver_mirrors;
    mutator = pod_mutator flags;
  })
