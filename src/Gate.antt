-- ===== src/Gate.antt =====
-- The scheduling gate on a pod: the constants and helpers of
-- internal/controller/pod_gate_controller.go that internal/webhook/pod_webhook.go repeats.
pub mod Removal
use aqua_scan_gate.Common.{
  Text, codes, List, [], ◌∷◌, Bool, true, false, ◌||◌, not, Option, none, some, ◌==◌, get_or_empty,
  if◌then◌else◌,
}
use aqua_scan_gate.Kube.{Pod, SchedulingGate}

abbrev pub scheduling_gate_name : Text
scheduling_gate_name = codes "scans.aquasec.community/aqua-scan"

abbrev pub annotation_bypass_scan : Text
annotation_bypass_scan = codes "scans.aquasec.community/bypass-scan"

-- pod.Annotations[key], on a nil map too
unfoldable pub annotation : Text → Option (List (Text × Text)) → Text
annotation key none = []
annotation key (some m) = get_or_empty key m

unfoldable pub is_bypassed : Pod → Bool
unfolding annotation ◌==◌
is_bypassed pod = annotation annotation_bypass_scan pod.annotations == codes "true"

unfoldable pub has_gate : Text → List SchedulingGate → Bool
unfolding ◌==◌
has_gate name [] = false
has_gate name (g ∷ gates) = g.name == name || has_gate name gates

unfoldable pub has_scheduling_gate : Pod → Text → Bool
unfolding has_gate
has_scheduling_gate pod name = has_gate name pod.spec.scheduling_gates

unfoldable pub drop_gate : Text → List SchedulingGate → List SchedulingGate
unfolding ◌==◌
drop_gate name [] = []
drop_gate name (g ∷ gates) =
    if not (g.name == name) then g ∷ drop_gate name gates else drop_gate name gates

unfoldable pub remove_scheduling_gate : Pod → Text → Pod
unfolding drop_gate
remove_scheduling_gate pod name = record pod {
  spec = record pod.spec { scheduling_gates = drop_gate name pod.spec.scheduling_gates };
}
