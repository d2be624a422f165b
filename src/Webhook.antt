-- ===== src/Webhook.antt =====
-- internal/webhook/pod_webhook.go: the mutating webhook that puts the gate on new pods. The decoder
-- and json.Marshal are parameters; PatchResponseFromRaw's two arguments stand for its result.
pub mod Gated
pub mod Gating
use aqua_scan_gate.Common.{
  ℕ, Text, codes, List, [], ◌∷◌, ◌++◌, Bool, true, false, ◌&&◌, not, Option, none, some, Result, ok,
  err, ◌==◌, is_key, if◌then◌else◌,
}
use aqua_scan_gate.Kube.{Container, Pod, SchedulingGate}
use aqua_scan_gate.Gate.{scheduling_gate_name, is_bypassed, has_scheduling_gate}

pub record PodMutator : Type 0 where
  pub excluded_namespaces : List (Text × Bool)
  pub included_namespaces : List (Text × Bool)
  pub excluded_images : List Text

unfoldable pub is_namespace_excluded : PodMutator → Text → Bool
is_namespace_excluded m ns = elim m.included_namespaces [
  | [] ↦ is_key ns m.excluded_namespaces
  | _ ∷ _ ↦ not (is_key ns m.included_namespaces)
]

-- excludedSet[image]
unfoldable pub listed : Text → List Text → Bool
unfolding ◌==◌
listed image [] = false
listed image (x ∷ xs) = if x == image then true else listed image xs

unfoldable pub all_listed : List Text → List Container → Bool
unfolding listed
all_listed images [] = true
all_listed images (c ∷ cs) = listed c.image images && all_listed images cs

unfoldable pub all_images_excluded : PodMutator → Pod → Bool
unfolding all_listed
all_images_excluded m pod = elim m.excluded_images [
  | [] ↦ false
  | _ ∷ _ ↦
      all_listed m.excluded_images pod.spec.init_containers
      && all_listed m.excluded_images pod.spec.containers
]

-- m[key] = value on a map[string]string
unfoldable pub set_entry : Text → Text → List (Text × Text) → List (Text × Text)
unfolding ◌==◌
set_entry key value [] = (key, value) ∷ []
set_entry key value ((k, v) ∷ m) =
    if k == key then (key, value) ∷ m else (k, v) ∷ set_entry key value m

abbrev pub gated_label : Text
gated_label = codes "scans.aquasec.community/gated"

unfoldable pub add_label : Option (List (Text × Text)) → Option (List (Text × Text))
unfolding set_entry
add_label none = some (set_entry gated_label (codes "true") [])
add_label (some labels) = some (set_entry gated_label (codes "true") labels)

-- the two assignments of `Handle` to the decoded pod
unfoldable pub add_gate : Pod → Pod
unfolding add_label
add_gate pod = record pod {
  labels = add_label pod.labels;
  spec = record pod.spec {
    scheduling_gates = pod.spec.scheduling_gates ++ record { name = scheduling_gate_name } ∷ [];
  };
}

pub data Reason : Type 0 where
  namespace_not_in_scope bypass_annotation gate_already_present all_images_excluded_reason : Reason

pub data Response (Raw : Type 0) : Type 0 where
  errored : ℕ → Text → Response Raw
  allowed : Reason → Response Raw
  patch_response_from_raw : Raw → Raw → Response Raw

pub record Request (Raw : Type 0) : Type 0 where
  pub namespace : Text
  pub object : Raw

module _ {Raw : Type 0} (decode : Raw → Result Text Pod) (marshal : Pod → Result Text Raw) where
  unfoldable pub marshaled : Raw → Result Text Raw → Response Raw
  marshaled object (ok raw) = patch_response_from_raw object raw
  marshaled object (err e) = errored 500 e

  unfoldable pub admit : PodMutator → Request Raw → Pod → Response Raw
  admit m req pod =
      if is_namespace_excluded m req.namespace
      then allowed namespace_not_in_scope
      else if is_bypassed pod
      then allowed bypass_annotation
      else if has_scheduling_gate pod scheduling_gate_name
      then allowed gate_already_present
      else if all_images_excluded m pod
      then allowed all_images_excluded_reason
      else marshaled req.object (marshal (add_gate pod))

  unfoldable pub handle : PodMutator → Request Raw → Response Raw
  handle m req = elim (decode req.object) [ err e ↦ errored 400 e | ok pod ↦ admit m req pod ]
