-- ===== src/Tests/Pods.antt =====
-- Extraction, naming, and reconciles of pods.
use aqua_scan_gate.Common.{
  codes, List, [], ◌∷◌, map, Option, none, some, ◌≡◌, refl, eq_iff, ◌≤◌, false, Memᴰ, length, ◌==◌,
  arith,
}
use aqua_scan_gate.Kube.{Pod}
use aqua_scan_gate.ImageRef.{
  extract_from_pod_spec, extract_from_pod, scan_name, parse_registry_image_and_tag,
}
use aqua_scan_gate.ImageRef.Extraction.{
  extract_from_pod_spec-eq-first_uses, extract-covers, ref_of, first_uses, used_images,
  all_containers,
}
use aqua_scan_gate.ImageRef.Naming.{length-scan_name-le, scan_name-same_digest}
use aqua_scan_gate.Session.{
  pod_updated, Call, get_pod, update_pod, get_scan, create_scan, resolve_image_ref,
  get_service_account, get_secret, record_event,
}
use aqua_scan_gate.Gate.Removal.{remove_scheduling_gate-gates}
use aqua_scan_gate.PodGate.Reconcile.{
  after_update, record_pending, release, conclude, choose_resolver, after_resolve, scan_images,
  by_images, gate_pod, reconcile,
}
use aqua_scan_gate.PodGate.Config.{is_namespace_excluded, scan_namespace_of}
use aqua_scan_gate.PodGate.Resolution.{
  apply_mirrors_to_image_ref, mirrored, use_answer, resolve_image, resolve_images,
}
use aqua_scan_gate.PodGate.Checking.{
  after_create, new_scan, scan_key, judge, check_answer, check_image, check_images,
}
use aqua_scan_gate.PullSecrets.{
  build_resolver_for_pod, secret_keychains, get_image_pull_secrets, fetch_secrets, add_secret,
  account_names, add_names, is_name, service_account_name,
}
use aqua_scan_gate.Aqua.Mirrors.{apply_registry_mirror}
use aqua_scan_gate.PodGate.History.{IsWarrantedHistory, reconcile-IsWarrantedHistory}
use aqua_scan_gate.Gate.{
  is_bypassed, has_scheduling_gate, remove_scheduling_gate, scheduling_gate_name,
}
use aqua_scan_gate.Tests.World.{
  plain_spec, gated_pod, other_gate, key, registered_scan, server, reconciler, external, start,
  nginx, container, new_scan_of_nginx,
}

extract_test :
    extract_from_pod_spec plain_spec
    ≡ record { image = codes "busybox@sha256:ab"; digest = codes "sha256:ab" }
      ∷ record { image = nginx; digest = [] }
      ∷ []
unfolding extract_from_pod_spec
extract_test = refl

abbrev latest_call : List Call → Option Pod
latest_call [] = none
latest_call (pod_updated pod answer ∷ cs) = some pod
latest_call (_ ∷ cs) = latest_call cs

-- All that a run of the pod controller computes with.
unfoldable pub pod_gate : Unit {0}
unfolding reconcile gate_pod by_images scan_images after_resolve conclude release after_update
    record_pending choose_resolver is_namespace_excluded scan_namespace_of
    apply_mirrors_to_image_ref mirrored use_answer resolve_image resolve_images after_create
    new_scan scan_key judge check_answer check_image check_images build_resolver_for_pod
    secret_keychains get_image_pull_secrets fetch_secrets add_secret account_names add_names is_name
    service_account_name get_pod update_pod get_scan create_scan resolve_image_ref
    get_service_account get_secret record_event has_scheduling_gate is_bypassed
    remove_scheduling_gate extract_from_pod scan_name parse_registry_image_and_tag
    apply_registry_mirror ◌==◌
pod_gate = tt

-- The whole run: both images have a registered scan, and the gate comes off.
release_test :
    latest_call (reconcile server external reconciler key (start registered_scan)).1.calls
    ≡ some (record gated_pod { spec = record plain_spec { scheduling_gates = other_gate ∷ [] } })
unfolding pod_gate
release_test = refl

-- With a scan that is not registered yet the pod is left alone.
pending_test :
    latest_call (reconcile server external reconciler key (start new_scan_of_nginx)).1.calls ≡ none
unfolding pod_gate
pending_test = refl

reconcile-IsWarrantedHistory_example :
    IsWarrantedHistory server external reconciler
      (reconcile server external reconciler key (start registered_scan)).1.calls
reconcile-IsWarrantedHistory_example =
    reconcile-IsWarrantedHistory server external reconciler key (start registered_scan) tt

extract_from_pod_spec-eq-first_uses_example :
    extract_from_pod_spec plain_spec
    ≡ map ref_of (first_uses (used_images (all_containers plain_spec)))
extract_from_pod_spec-eq-first_uses_example = extract_from_pod_spec-eq-first_uses plain_spec

extract-covers_test : Memᴰ (ref_of nginx) (extract_from_pod_spec plain_spec)
extract-covers_test =
    extract-covers plain_spec {c = container nginx} (Memᴰ.tail (Memᴰ.head refl)) (ground arith)

length-scan_name-le_test :
    length (scan_name external.hash_string (record { image = nginx; digest = codes "sha256:cd" }))
    ≤ 63
length-scan_name-le_test =
    length-scan_name-le external.hash_string (record { image = nginx; digest = codes "sha256:cd" })

same_digest_test :
    scan_name external.hash_string (record { image = nginx; digest = codes "sha256:cd" })
    ≡ scan_name external.hash_string
        (record { image = codes "mirror/nginx:1"; digest = codes "sha256:cd" })
same_digest_test =
    scan_name-same_digest external.hash_string
      (record { image = nginx; digest = codes "sha256:cd" })
      (record { image = codes "mirror/nginx:1"; digest = codes "sha256:cd" }) (ground arith) refl

gates_test :
    (has_scheduling_gate
        (remove_scheduling_gate gated_pod scheduling_gate_name)
        scheduling_gate_name
      ≡ false)
    × (has_scheduling_gate
          (remove_scheduling_gate gated_pod scheduling_gate_name)
          (codes "other/gate")
        ≡ has_scheduling_gate gated_pod (codes "other/gate"))
gates_test =
    remove_scheduling_gate-gates gated_pod scheduling_gate_name (codes "other/gate")
      (ground (arith, eq_iff (codes "other/gate") scheduling_gate_name))
