-- ===== src/PodGate/Config.antt =====
-- The fields of `PodGateReconciler` in internal/controller/pod_gate_controller.go, the
-- namespaces in its scope, and the variables of its loop over the images.
use aqua_scan_gate.Common.{
  Text, codes, List, [], ◌∷◌, ◌++◌, Bool, true, false, not, Option, ◌==◌, is_key, if◌then◌else◌,
}
use aqua_scan_gate.Kube.{Pod}
use aqua_scan_gate.Aqua.Mirrors.{RegistryMirror}
use aqua_scan_gate.Session.{Resolver}

pub record PodGateReconciler (W : Type 0) : Type 0 where
  pub recorder : Bool
  pub scan_namespace : Text
  pub excluded_namespaces : List (Text × Bool)
  pub included_namespaces : List (Text × Bool)
  pub resolver : Option (Resolver W)
  pub registry_mirrors : List RegistryMirror

abbrev pub label_image_hash : Text
label_image_hash = codes "scans.aquasec.community/image-hash"

module _ {W : Type 0} where
  unfoldable pub is_namespace_excluded : PodGateReconciler W → Text → Bool
  is_namespace_excluded r ns = elim r.included_namespaces [
    | [] ↦ is_key ns r.excluded_namespaces
    | _ ∷ _ ↦ not (is_key ns r.included_namespaces)
  ]

  unfoldable pub scan_namespace_of : PodGateReconciler W → Pod → Text
  unfolding ◌==◌
  scan_namespace_of r pod = if r.scan_namespace == [] then pod.namespace else r.scan_namespace

-- What the loop over the images has found: allPassed and pendingImages.
pub record Progress : Type 0 where
  pub all_passed : Bool
  pub pending_images : List Text

abbrev pub no_progress : Progress
no_progress = record { all_passed = true; pending_images = [] }

abbrev pub add_pending : Progress → Text → Progress
add_pending p image = record { all_passed = false; pending_images = p.pending_images ++ image ∷ [] }
