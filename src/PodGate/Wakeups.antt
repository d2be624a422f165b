-- ===== src/PodGate/Wakeups.antt =====
-- `mapImageScanToPods` of internal/controller/pod_gate_controller.go: which pods are reconciled again
-- when a scan changes.
use aqua_scan_gate.Common.{
  Text, List, [], ◌∷◌, Bool, false, not, ◌&&◌, ◌||◌, Option, none, some, Result, ok, err, ◌==◌,
  get_or_empty, take, if◌then◌else◌,
}
use aqua_scan_gate.Api.{ImageScan, ScanPhase}
use aqua_scan_gate.Kube.{Pod, NamespacedName, ApiError, Server}
use aqua_scan_gate.ImageRef.{ImageRef, extract_from_pod}
use aqua_scan_gate.Gate.{scheduling_gate_name}
use aqua_scan_gate.Session.{Session, list_gated_pods}
use aqua_scan_gate.PodGate.Config.{
  PodGateReconciler, is_namespace_excluded, scan_namespace_of, label_image_hash,
}

-- the label of a scan, "" if it has none
unfoldable pub hash_label : Option (List (Text × Text)) → Text
hash_label none = []
hash_label (some labels) = get_or_empty label_image_hash labels

abbrev pub pod_key : Pod → NamespacedName
pod_key pod = record { namespace = pod.namespace; name = pod.name }

module _ (hash_string : Text → Text) where
  abbrev pub image_hash : Text → Text
  image_hash image = take 16 (hash_string image)

  -- the hash by which pods are matched, with the fallback for a scan without the label
  unfoldable pub scan_hash : ImageScan → Text
  unfolding hash_label ◌==◌
  scan_hash scan =
      if hash_label scan.labels == [] then image_hash scan.spec.image else hash_label scan.labels

  -- the inner loop, which stops at the first image with the hash
  unfoldable pub uses_image : Text → List ImageRef → Bool
  unfolding ◌==◌
  uses_image hash [] = false
  uses_image hash (img ∷ images) = image_hash img.image == hash || uses_image hash images

  -- the tests of one round of the outer loop
  unfoldable pub is_waiting : {W : Type 0} → PodGateReconciler W → ImageScan → Pod → Bool
  unfolding uses_image scan_hash is_namespace_excluded scan_namespace_of ◌==◌ extract_from_pod
  is_waiting r scan pod =
      not (is_namespace_excluded r pod.namespace)
      && scan_namespace_of r pod == scan.namespace
      && uses_image (scan_hash scan) (extract_from_pod pod)

  unfoldable pub requests_for :
      {W : Type 0} → PodGateReconciler W → ImageScan → List Pod → List NamespacedName
  unfolding is_waiting
  requests_for r scan [] = []
  requests_for r scan (pod ∷ pods) =
      let rest = requests_for r scan pods in
      if is_waiting r scan pod then pod_key pod ∷ rest else rest

  -- the pods that are listed; an error is only logged
  unfoldable pub requests_of_listed :
      {W : Type 0}
      → PodGateReconciler W
      → ImageScan
      → Result ApiError (List Pod)
      → List NamespacedName
  unfolding requests_for
  requests_of_listed r scan (err e) = []
  requests_of_listed r scan (ok pods) = requests_for r scan pods

  unfoldable pub map_by_phase :
      {W : Type 0}
      → Server W
      → PodGateReconciler W
      → ImageScan
      → ScanPhase
      → Session W
      → List NamespacedName × Session W
  unfolding requests_of_listed list_gated_pods
  map_by_phase server r scan ScanPhase.unset s = ([], s)
  map_by_phase server r scan ScanPhase.pending s = ([], s)
  map_by_phase server r scan ScanPhase.registered s =
      let listed = list_gated_pods server scheduling_gate_name s in
      (requests_of_listed r scan listed.0, listed.1)
  map_by_phase server r scan ScanPhase.error s =
      let listed = list_gated_pods server scheduling_gate_name s in
      (requests_of_listed r scan listed.0, listed.1)

  unfoldable pub map_image_scan_to_pods :
      {W : Type 0}
      → Server W
      → PodGateReconciler W
      → ImageScan
      → Session W
      → List NamespacedName × Session W
  unfolding map_by_phase
  map_image_scan_to_pods server r scan s = map_by_phase server r scan scan.status.phase s
