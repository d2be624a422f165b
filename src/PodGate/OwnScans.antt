-- ===== src/PodGate/OwnScans.antt =====
-- The scan that a reconcile creates for an image of a pod wakes that pod.
use aqua_scan_gate.Common.{
  Text, List, [], Bool, true, false, ok, ◌==◌, if◌then◌else◌, take, ◌≡◌, refl, sym, Memᴰ,
}
use aqua_scan_gate.Scope.{InScope}
use aqua_scan_gate.Api.{ImageScan, ImageScanStatus}
use aqua_scan_gate.Kube.{Pod, NamespacedName, Server}
use aqua_scan_gate.ImageRef.{ImageRef, extract_from_pod}
use aqua_scan_gate.Gate.{scheduling_gate_name}
use aqua_scan_gate.Session.{Session}
use aqua_scan_gate.ImageScans.Outcomes.{IsFinal}
use aqua_scan_gate.PodGate.Config.{PodGateReconciler}
use aqua_scan_gate.PodGate.Checking.{new_scan, scan_key}
use aqua_scan_gate.PodGate.Wakeups.{
  pod_key, image_hash, hash_label, scan_hash, map_image_scan_to_pods,
}
use aqua_scan_gate.PodGate.Waking.{map_image_scan_to_pods_iff}

if_same : {A : Type 0} (b : Bool) (a : A) → (if b then a else a) ≡ a
if_same true a = refl
if_same false a = refl

module _ (hash_string : Text → Text) where
  scan_hash-new_scan :
      (key : NamespacedName) (img : ImageRef) (status : ImageScanStatus)
      → scan_hash hash_string (record (new_scan hash_string key img) { status = status })
        ≡ image_hash hash_string img.image
  unfolding scan_hash hash_label new_scan ◌==◌
  scan_hash-new_scan key img status =
      if_same (take 16 (hash_string img.image) == []) (take 16 (hash_string img.image))

  -- Let the scan be the one that a reconcile of a pod creates for one of its images, with whatever
  -- digest that image was resolved to, and let it have reached a final phase. If the gated pods are
  -- listed without an error, the pod is among them and its namespace is in scope, it is woken.
  pub new_scan-wakes :
      {W : Type 0} (server : Server W) (r : PodGateReconciler W) (pod : Pod) (img : ImageRef)
      → (resolved_digest : Text) (status : ImageScanStatus) (s : Session W) (pods : List Pod)
      → (server.list_gated_pods scheduling_gate_name s.world).0 ≡ ok pods
      → Memᴰ pod pods
      → InScope r.included_namespaces r.excluded_namespaces pod.namespace
      → Memᴰ img (extract_from_pod pod)
      → IsFinal status.phase
      → let img' : ImageRef = record { image = img.image; digest = resolved_digest } in
        let scan : ImageScan =
          record (new_scan hash_string (scan_key hash_string r pod img') img') {
            status = status;
          } in
        Memᴰ (pod_key pod) (map_image_scan_to_pods hash_string server r scan s).0
  unfolding new_scan scan_key
  new_scan-wakes server r pod img resolved_digest status s pods listed m scope used final =
      let img' : ImageRef = record { image = img.image; digest = resolved_digest } in
      let key = scan_key hash_string r pod img' in
      let scan : ImageScan = record (new_scan hash_string key img') { status = status } in
      (map_image_scan_to_pods_iff hash_string r server scan s pods (pod_key pod) listed).1
        (final, pod, m, refl, (scope, refl, img, used, sym (scan_hash-new_scan key img' status)))
