-- ===== src/PodGate/Checking.antt =====
-- The scans of the images: the second loop of `Reconcile` in
-- internal/controller/pod_gate_controller.go.
use aqua_scan_gate.Common.{Text, List, [], ◌∷◌, Option, none, some, Result, ok, err, take}
use aqua_scan_gate.Api.{ImageScan, ScanPhase, empty_status}
use aqua_scan_gate.Kube.{Pod, NamespacedName, ApiError, not_found, already_exists, other, Server}
use aqua_scan_gate.ImageRef.{ImageRef, scan_name}
use aqua_scan_gate.Session.{Session, scan_error, record_event, get_scan, create_scan}
use aqua_scan_gate.PodGate.Config.{
  PodGateReconciler, scan_namespace_of, Progress, add_pending, label_image_hash,
}

-- `err != nil && !apierrors.IsAlreadyExists(err)` after the creation
unfoldable pub after_create : Progress → Option ApiError → Result ApiError Progress
after_create p none = ok p
after_create p (some already_exists) = ok p
after_create p (some not_found) = err not_found
after_create p (some (other e)) = err (other e)

module _ {W : Type 0} where
  -- the switch on imageScan.Status.Phase
  unfoldable pub judge :
      PodGateReconciler W
      → ImageRef
      → ImageScan
      → ScanPhase
      → Progress
      → Session W
      → Progress × Session W
  judge r img scan ScanPhase.registered p s = (p, s)
  judge r img scan ScanPhase.error p s = (
    add_pending p img.image,
    record_event r.recorder (scan_error img.image scan.status.message) s,
  )
  judge r img scan ScanPhase.pending p s = (add_pending p img.image, s)
  judge r img scan ScanPhase.unset p s = (add_pending p img.image, s)

module _ (hash_string : Text → Text) where
  -- the ImageScan that is created for an image
  unfoldable pub new_scan : NamespacedName → ImageRef → ImageScan
  new_scan key img = record {
    name = key.name;
    namespace = key.namespace;
    labels = some ((label_image_hash, take 16 (hash_string img.image)) ∷ []);
    spec = record { image = img.image; digest = img.digest; registry = [] };
    status = empty_status;
  }

  unfoldable pub scan_key : {W : Type 0} → PodGateReconciler W → Pod → ImageRef → NamespacedName
  scan_key r pod img = record {
    namespace = scan_namespace_of r pod;
    name = scan_name hash_string img;
  }

module _ {W : Type 0} (server : Server W) (hash_string : Text → Text) where
  -- what follows the answer to `r.Get` for the scan; an error ends the reconcile
  unfoldable pub check_answer :
      PodGateReconciler W
      → Pod
      → ImageRef
      → Progress
      → Result ApiError ImageScan
      → Session W
      → Result ApiError Progress × Session W
  check_answer r pod img p (ok scan) s =
      let judged = judge r img scan scan.status.phase p s in (ok judged.0, judged.1)
  check_answer r pod img p (err not_found) s =
      let made = create_scan server (new_scan hash_string (scan_key hash_string r pod img) img) s in
      (after_create (add_pending p img.image) made.0, made.1)
  check_answer r pod img p (err already_exists) s = (err already_exists, s)
  check_answer r pod img p (err (other e)) s = (err (other e), s)

  -- one round of the loop over the images
  unfoldable pub check_image :
      PodGateReconciler W
      → Pod
      → ImageRef
      → Progress
      → Session W
      → Result ApiError Progress × Session W
  check_image r pod img p s =
      let got = get_scan server (scan_key hash_string r pod img) s in
      check_answer r pod img p got.0 got.1

  unfoldable pub check_images :
      PodGateReconciler W
      → Pod
      → List ImageRef
      → Progress
      → Session W
      → Result ApiError Progress × Session W
  check_images r pod [] p s = (ok p, s)
  check_images r pod (img ∷ images) p s =
      let c = check_image r pod img p s in
      elim c.0 [ err e ↦ (err e, c.1) | ok p' ↦ check_images r pod images p' c.1 ]
