-- ===== src/Tests/Wakeups.antt =====
-- Which pods a scan wakes, and the release of a pod.
use aqua_scan_gate.Common.{Text, codes, [], ◌∷◌, ok, ◌≡◌, ◌↔◌, ◌==◌, refl, inl, inr, Memᴰ}
use aqua_scan_gate.Api.{ImageScan, ScanPhase, empty_status}
use aqua_scan_gate.Kube.{Pod, Server}
use aqua_scan_gate.Gate.{has_scheduling_gate}
use aqua_scan_gate.PullSecrets.{build_resolver_for_pod}
use aqua_scan_gate.ImageRef.{ImageRef, extract_from_pod}
use aqua_scan_gate.Session.{get_pod}
use aqua_scan_gate.ImageScans.Outcomes.{IsFinal}
use aqua_scan_gate.PodGate.Checking.{new_scan, scan_key}
use aqua_scan_gate.PodGate.Reconcile.{reconcile, choose_resolver}
use aqua_scan_gate.PodGate.Wakeups.{pod_key, map_image_scan_to_pods}
use aqua_scan_gate.PodGate.Waking.{IsWaitingFor, map_image_scan_to_pods_iff}
use aqua_scan_gate.PodGate.OwnScans.{new_scan-wakes}
use aqua_scan_gate.PodGate.Release.{IsReleased, reconcile-IsReleased}
use aqua_scan_gate.Tests.World.{
  gated_pod, nginx, key, registered_scan, server, reconciler, external, start,
}

abbrev same_hash : Text → Text
same_hash t = t

wakeups : Unit {0}
unfolding map_image_scan_to_pods reconcile extract_from_pod
wakeups = tt

map_image_scan_to_pods_iff_example :
    Memᴰ key
      (map_image_scan_to_pods same_hash server reconciler registered_scan (start registered_scan)).0
    ↔ (IsFinal ScanPhase.registered
        × (pod : Pod) × Memᴰ pod (gated_pod ∷ [])
        × (key ≡ pod_key pod)
        × IsWaitingFor same_hash reconciler registered_scan pod)
map_image_scan_to_pods_iff_example =
    map_image_scan_to_pods_iff same_hash reconciler server registered_scan (start registered_scan)
      (gated_pod ∷ []) key refl

wakes_test :
    (map_image_scan_to_pods same_hash server reconciler registered_scan (start registered_scan)).0
    ≡ key ∷ []
unfolding wakeups
wakes_test = refl

abbrev nginx_ref : ImageRef
nginx_ref = record { image = nginx; digest = codes "sha256:cd" }

abbrev finished_scan : ImageScan
finished_scan =
    record (new_scan same_hash (scan_key same_hash reconciler gated_pod nginx_ref) nginx_ref) {
      status = record empty_status { phase = ScanPhase.error };
    }

new_scan-wakes_example :
    Memᴰ key
      (map_image_scan_to_pods same_hash server reconciler finished_scan (start registered_scan)).0
unfolding wakeups
new_scan-wakes_example =
    new_scan-wakes same_hash server reconciler gated_pod (record { image = nginx; digest = [] })
      (codes "sha256:cd") (record empty_status { phase = ScanPhase.error }) (start registered_scan)
      (gated_pod ∷ []) refl (Memᴰ.head refl) (inl (refl, refl)) (Memᴰ.tail (Memᴰ.head refl))
      (inr refl)

-- Every scan is registered.
abbrev settled : Server ImageScan
settled = record server { get_scan = λ k w. (ok registered_scan, w) }

releases : Unit {0}
unfolding choose_resolver build_resolver_for_pod has_scheduling_gate ◌==◌ get_pod
releases = tt

reconcile-IsReleased_test :
    IsReleased gated_pod (reconcile settled external reconciler key (start registered_scan)).1.calls
unfolding releases
reconcile-IsReleased_test =
    reconcile-IsReleased settled external reconciler (λ k w. (registered_scan, refl, refl)) key
      gated_pod (start registered_scan) (inl (refl, refl)) refl refl
      (λ img w. (record { image = img.image; digest = codes "sha256:cd" }, refl))
