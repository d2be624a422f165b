-- ===== src/Tests/World.antt =====
-- A cluster with one gated pod and one scan, an Aqua that knows every image, and a registry that gives
-- every image one digest.
use aqua_scan_gate.Common.{Text, codes, [], ◌∷◌, none, some, true, ok, err}
use aqua_scan_gate.Api.{ImageScan, ScanPhase, empty_status}
use aqua_scan_gate.Kube.{Container, SchedulingGate, PodSpec, Pod, NamespacedName, Server}
use aqua_scan_gate.ImageRef.{tag}
use aqua_scan_gate.Gate.{scheduling_gate_name}
use aqua_scan_gate.Aqua.{Client, ScanStatus}
use aqua_scan_gate.Session.{Session, Resolver}
use aqua_scan_gate.PodGate.Config.{PodGateReconciler}
use aqua_scan_gate.PodGate.Reconcile.{External}

abbrev pub container : Text → Container
container image = record { image = image }

abbrev pub nginx : Text
nginx = codes "nginx:1"

abbrev pub gate : SchedulingGate
gate = record { name = scheduling_gate_name }

abbrev pub other_gate : SchedulingGate
other_gate = record { name = codes "example.com/other" }

abbrev pub plain_spec : PodSpec
plain_spec = record {
  init_containers = container (codes "busybox@sha256:ab") ∷ [];
  containers = container nginx ∷ container nginx ∷ [];
  ephemeral_containers = [];
  scheduling_gates = other_gate ∷ [];
  image_pull_secrets = [];
  service_account_name = [];
}

abbrev pub plain_pod : Pod
plain_pod = record {
  name = codes "web";
  namespace = codes "shop";
  annotations = none;
  labels = none;
  spec = plain_spec;
}

abbrev pub gated_pod : Pod
gated_pod = record plain_pod {
  spec = record plain_spec { scheduling_gates = other_gate ∷ gate ∷ [] };
}

abbrev pub key : NamespacedName
key = record { namespace = codes "shop"; name = codes "web" }

abbrev pub new_scan_of_nginx : ImageScan
new_scan_of_nginx = record {
  name = codes "sha256-cd";
  namespace = codes "shop";
  labels = none;
  spec = record { image = nginx; digest = codes "sha256:cd"; registry = [] };
  status = empty_status;
}

abbrev pub registered_scan : ImageScan
registered_scan = record new_scan_of_nginx {
  status = record empty_status { phase = ScanPhase.registered };
}

-- The world is the scan.
abbrev pub server : Server ImageScan
server = record {
  get_pod = λ k w. (ok gated_pod, w);
  update_pod = λ p w. (none, w);
  list_gated_pods = λ g w. (ok (gated_pod ∷ []), w);
  get_scan = λ k w. (ok w, w);
  create_scan = λ scan w. (none, scan);
  update_status = λ scan w. (none, scan);
  get_service_account = λ k w. (ok (record { image_pull_secrets = codes "pull" ∷ [] }), w);
  get_secret = λ k w. (ok (record { name = k.name; content = [] }), w);
}

abbrev pub aqua : Client ImageScan
aqua = record {
  get_scan_result = λ image digest w.
      (ok (record { status = ScanStatus.found; image = image; digest = digest }), w);
  trigger_scan = λ image digest w. (ok image, w);
}

abbrev pub failing_aqua : Client ImageScan
failing_aqua = record aqua { get_scan_result = λ image digest w. (err (codes "503"), w) }

abbrev pub resolver : Resolver ImageScan
resolver = record {
  resolve_image_ref = λ img w. (ok (record { image = img.image; digest = codes "sha256:cd" }), w);
}

abbrev pub reconciler : PodGateReconciler ImageScan
reconciler = record {
  recorder = true;
  scan_namespace = [];
  excluded_namespaces = (codes "kube-system", true) ∷ [];
  included_namespaces = [];
  resolver = none;
  registry_mirrors = [];
}

abbrev pub external : External ImageScan Text
external = record {
  hash_string = λ t. t;
  parse_reference = λ t. some (tag (codes "index.docker.io") t (codes "latest"));
  range_order = λ names. names;
  keychains = record {
    new_from_pull_secrets = λ secrets. ok (codes "secrets");
    acr_keychain = codes "acr";
    default_keychain = codes "default";
  };
  new_resolver = λ keychains. resolver;
}

abbrev pub start : ImageScan → Session ImageScan
start scan = record { world = scan; calls = [] }
