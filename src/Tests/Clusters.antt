-- ===== src/Tests/Clusters.antt =====
-- Both controllers on the API server in memory: a pod is reconciled, then each of its scans, then the pod.
use aqua_scan_gate.Common.{
  ℕ, Text, codes, List, [], ◌∷◌, true, some, ok, ◌≡◌, refl, sym, subst, inl, Memᴰ, All,
}
use aqua_scan_gate.Api.{is_valid_digest}
use aqua_scan_gate.Kube.{Pod}
use aqua_scan_gate.ImageRef.{ImageRef, tag, extract_from_pod}
use aqua_scan_gate.Gate.{scheduling_gate_name, has_scheduling_gate, is_bypassed}
use aqua_scan_gate.Aqua.{Client, ScanStatus}
use aqua_scan_gate.Session.{Session, Resolver}
use aqua_scan_gate.ImageScans
use aqua_scan_gate.PodGate.Config.{PodGateReconciler}
use aqua_scan_gate.PodGate.Reconcile.{External, choose_resolver}
use aqua_scan_gate.PodGate.Wakeups.{pod_key}
use aqua_scan_gate.Cluster.{IsAnswering, KeepsCluster, IsSteady, AllValid}
use aqua_scan_gate.Cluster.Evolution.{ungate, Evolves}
use aqua_scan_gate.Cluster.GateRounds.{reconcile-Evolves}
use aqua_scan_gate.Cluster.Refusals.{IsRefused, reconcile-IsRefused}
use aqua_scan_gate.PodGate.Reconcile
use aqua_scan_gate.Cluster.Submission.{handle-IsReturned}
use aqua_scan_gate.Webhook.{
  PodMutator, Request, Response, patch_response_from_raw, add_gate, admit, marshaled,
  all_images_excluded, handle,
}
use aqua_scan_gate.Webhook
use aqua_scan_gate.Webhook.Gating.{has_gate-add_gate}
use aqua_scan_gate.Cluster.Runs.{stay, go, scan_reconcile}
use aqua_scan_gate.Cluster.Liveness.{
  All-tabulate, images_of_pod, key_of_scan, OwnRun, IsOwnServed, IsOwnUnfailed, round,
  reconcile-IsUngated,
}
use aqua_scan_gate.Tests.Memory.{Memory, view, memory_server, memory_server-IsApiServer, find}
use aqua_scan_gate.Tests.World.{plain_pod}

abbrev valid_digest : Text
valid_digest = codes "sha256:0123456789abcdef0123456789abcdef0123456789abcdef0123456789abcdef"

-- A pod whose image has no digest yet.
abbrev web_pod : Pod
web_pod = record plain_pod {
  spec = record plain_pod.spec {
    init_containers = [];
    containers = record { image = codes "nginx:1" } ∷ [];
    ephemeral_containers = [];
  };
}

abbrev gated_pod : Pod
gated_pod = add_gate web_pod

abbrev aqua : Client Memory
aqua = record {
  get_scan_result = λ image digest w.
      (ok (record { status = ScanStatus.found; image = image; digest = digest }), w);
  trigger_scan = λ image digest w. (ok image, w);
}

answering : IsAnswering view aqua
answering = record {
  get_scan_result_lem = λ image digest w. (_, refl, (λ k. refl, λ k. refl));
  trigger_scan_lem = λ image digest w. (_, refl, (λ k. refl, λ k. refl));
}

abbrev resolver : Resolver Memory
resolver = record {
  resolve_image_ref = λ img w. (ok (record { image = img.image; digest = valid_digest }), w);
}

abbrev reconciler : PodGateReconciler Memory
reconciler = record {
  recorder = true;
  scan_namespace = [];
  excluded_namespaces = [];
  included_namespaces = [];
  resolver = some resolver;
  registry_mirrors = [];
}

abbrev external : External Memory (Unit {0})
external = record {
  hash_string = λ t. t;
  parse_reference = λ t. some (tag (codes "index.docker.io") t (codes "latest"));
  range_order = λ names. names;
  keychains = record {
    new_from_pull_secrets = λ secrets. ok tt;
    acr_keychain = tt;
    default_keychain = tt;
  };
  new_resolver = λ keychains. resolver;
}

abbrev clock : Memory → ℕ
clock w = 7

keeps :
    (pod : Pod) (s : Session Memory)
    → KeepsCluster view (choose_resolver memory_server external reconciler.resolver pod s).0
unfolding choose_resolver
keeps pod s img w = (λ k. refl, λ k. refl)

steady :
    (s : Session Memory)
    → IsSteady
        (λ img. valid_digest)
        (choose_resolver memory_server external reconciler.resolver gated_pod s).0
unfolding choose_resolver
steady s img w = (_, refl, refl)

gated : has_scheduling_gate gated_pod scheduling_gate_name ≡ true
gated = has_gate-add_gate web_pod

abbrev start : Session Memory
start = record {
  world = record { pods = gated_pod ∷ []; scans = []; unknown_left = 0 };
  calls = [];
}

abbrev images : List ImageRef
images =
    images_of_pod view memory_server memory_server-IsApiServer reconciler external keeps aqua
      answering clock gated_pod gated (λ img. valid_digest) steady

abbrev next_round : Session Memory → Session Memory
next_round =
    round view memory_server memory_server-IsApiServer reconciler external keeps aqua answering
      clock gated_pod gated (λ img. valid_digest) steady

abbrev OurRun : Session Memory → Session Memory → Type 0
OurRun =
    OwnRun view memory_server memory_server-IsApiServer reconciler external keeps aqua answering
      clock gated_pod gated (λ img. valid_digest) steady

abbrev OurServed : Session Memory → Session Memory → ImageRef → Type 0
OurServed =
    IsOwnServed view memory_server memory_server-IsApiServer reconciler external keeps aqua
      answering clock gated_pod gated (λ img. valid_digest) steady

abbrev serve_one : ImageRef → Session Memory → Session Memory
serve_one img s =
    (ImageScans.reconcile memory_server aqua clock
      (key_of_scan view memory_server memory_server-IsApiServer reconciler external keeps aqua
        answering clock gated_pod gated (λ i. valid_digest) steady img)
      s).1

serve : List ImageRef → Session Memory → Session Memory
serve [] s = s
serve (img ∷ rest) s = serve rest (serve_one img s)

serve-Run : (l : List ImageRef) {s t : Session Memory} → OurRun s t → OurRun s (serve l t)
unfolding serve
serve-Run [] run = run
serve-Run (img ∷ rest) run = serve-Run rest (go run (scan_reconcile _))

serve-IsServed :
    (l : List ImageRef) (img : ImageRef) {s t : Session Memory}
    → OurRun s t
    → Memᴰ img l
    → OurServed s (serve l t) img
unfolding serve
serve-IsServed [] img run m = elim m [ ]
serve-IsServed (i ∷ rest) img {s} {t} run (Memᴰ.head e) =
    subst (λ j. OurServed s (serve (i ∷ rest) t) j) (sym e)
      (record {
        at = t;
        before = run;
        known = λ scan there. (_, refl, refl);
        afterwards = serve-Run rest stay;
      })
serve-IsServed (i ∷ rest) img run (Memᴰ.tail m) =
    serve-IsServed rest img (go run (scan_reconcile _)) m

unfailed :
    All
      (IsOwnUnfailed view memory_server memory_server-IsApiServer reconciler external keeps aqua
        answering clock gated_pod gated
        (λ img. valid_digest)
        steady
        start.world)
      images
unfolding find
unfailed = All-tabulate images (λ img m scan there. cc)

valid : AllValid images
unfolding extract_from_pod add_gate is_valid_digest
valid = (refl, tt)

held : view.pod_at (pod_key gated_pod) start.world ≡ some gated_pod
unfolding find add_gate
held = refl

abbrev served : Session Memory
served = serve images (next_round start)

reconcile-IsUngated_example :
    view.pod_at (pod_key gated_pod) (next_round served).world ≡ some (ungate gated_pod)
reconcile-IsUngated_example =
    reconcile-IsUngated view memory_server memory_server-IsApiServer reconciler external keeps aqua
      answering clock gated_pod gated (λ img. valid_digest) steady start served (inl (refl, refl))
      held valid unfailed (serve-Run images stay)
      (All-tabulate images (λ img m. serve-IsServed images img stay m))

abbrev mutator : PodMutator
mutator = record { excluded_namespaces = []; included_namespaces = []; excluded_images = [] }

abbrev request : Request Pod
request = record { namespace = web_pod.namespace; object = web_pod }

patched : handle ok ok mutator request ≡ patch_response_from_raw web_pod gated_pod
unfolding handle admit marshaled all_images_excluded Webhook.is_namespace_excluded is_bypassed
    has_scheduling_gate
patched = refl

handle-IsReturned_example :
    (returned : Pod) × (view.pod_at (pod_key web_pod) (next_round served).world ≡ some returned)
    × (returned.spec ≡ web_pod.spec)
unfolding add_gate
handle-IsReturned_example =
    handle-IsReturned view memory_server memory_server-IsApiServer reconciler external keeps aqua
      answering clock ok ok web_pod (λ img. valid_digest) steady mutator request gated_pod gated_pod
      start served refl refl refl refl patched (λ p e. sym e) refl held valid unfailed
      (serve-Run images stay) (All-tabulate images (λ img m. serve-IsServed images img stay m))

reconcile-Evolves_example : Evolves view start.world (next_round start).world
reconcile-Evolves_example =
    reconcile-Evolves view memory_server memory_server-IsApiServer reconciler external keeps
      (pod_key gated_pod) start

-- A pod whose image names a digest that is too short.
abbrev short_pod : Pod
short_pod = record gated_pod {
  spec = record gated_pod.spec { containers = record { image = codes "web@sha256:ab" } ∷ [] };
}

abbrev short_image : ImageRef
short_image = record { image = codes "web@sha256:ab"; digest = codes "sha256:ab" }

short_gated : has_scheduling_gate short_pod scheduling_gate_name ≡ true
unfolding has_scheduling_gate add_gate
short_gated = refl

short_steady :
    (s : Session Memory)
    → IsSteady
        (λ img. valid_digest)
        (choose_resolver memory_server external reconciler.resolver short_pod s).0
unfolding choose_resolver
short_steady s img w = (_, refl, refl)

abbrev short_start : Session Memory
short_start = record {
  world = record { pods = short_pod ∷ []; scans = []; unknown_left = 0 };
  calls = [];
}

reconcile-IsRefused_example :
    IsRefused view memory_server memory_server-IsApiServer reconciler external keeps short_pod
      short_gated
      (λ img. valid_digest)
      short_steady
      short_image
      (Reconcile.reconcile memory_server external reconciler (pod_key short_pod) short_start)
unfolding extract_from_pod add_gate is_valid_digest is_bypassed find
reconcile-IsRefused_example =
    reconcile-IsRefused view memory_server memory_server-IsApiServer reconciler external keeps
      short_pod short_gated (λ img. valid_digest) short_steady short_image short_start
      (inl (refl, refl)) refl refl (Memᴰ.head refl) (λ same. refl, tt) refl
