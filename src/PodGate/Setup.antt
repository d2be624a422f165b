-- ===== src/PodGate/Setup.antt =====
-- `PodGateReconciler.SetupWithManager` of internal/controller/pod_gate_controller.go: the index by which
-- gated pods are listed, and the filter of pod events. An object that is no pod is `none`.
use aqua_scan_gate.Common.{
  Text, List, [], ◌∷◌, map, Bool, true, false, Option, none, some, ok, ◌==◌, eq_iff, Bool-cases,
  ◌≡◌, refl, sym, inl, inr, ◌↔◌, Memᴰ, All, All-mem, arith,
}
use aqua_scan_gate.Api.{ImageScan}
use aqua_scan_gate.Kube.{Pod, NamespacedName, SchedulingGate, Server}
use aqua_scan_gate.Gate.{scheduling_gate_name, has_gate, has_scheduling_gate}
use aqua_scan_gate.Session.{Session}
use aqua_scan_gate.PodGate.Config.{PodGateReconciler}
use aqua_scan_gate.PodGate.Wakeups.{pod_key, map_image_scan_to_pods}
use aqua_scan_gate.PodGate.Waking.{map_image_scan_to_pods_iff}

abbrev gate_name : SchedulingGate → Text
gate_name gate = gate.name

-- the function given to IndexField
unfoldable pub index_values : Option Pod → List Text
index_values none = []
index_values (some pod) = map gate_name pod.spec.scheduling_gates

-- the predicate given to the builder
unfoldable pub is_reconciled : Option Pod → Bool
unfolding has_scheduling_gate
is_reconciled none = false
is_reconciled (some pod) = has_scheduling_gate pod scheduling_gate_name

has_gate-Memᴰ :
    (name : Text) (gates : List SchedulingGate)
    → Memᴰ name (map gate_name gates)
    → has_gate name gates ≡ true
unfolding has_gate
has_gate-Memᴰ name [] m = elim m [ ]
has_gate-Memᴰ name (g ∷ gates) (Memᴰ.head e) = rw ((eq_iff g.name name).1 (sym e)) refl
has_gate-Memᴰ name (g ∷ gates) (Memᴰ.tail m) = ground (arith, has_gate-Memᴰ name gates m)

Memᴰ-has_gate :
    (name : Text) (gates : List SchedulingGate)
    → has_gate name gates ≡ true
    → Memᴰ name (map gate_name gates)
unfolding has_gate
Memᴰ-has_gate name [] h = cc
Memᴰ-has_gate name (g ∷ gates) h = elim (Bool-cases (g.name == name)) [
  | inl e ↦ Memᴰ.head (sym ((eq_iff g.name name).0 e))
  | inr n ↦ Memᴰ.tail (Memᴰ-has_gate name gates (ground arith))
]

-- The index and the filter agree: a pod is listed under the gate of the scan exactly if its events are
-- reconciled.
pub index_values_iff :
    (pod : Pod)
    → Memᴰ scheduling_gate_name (index_values (some pod)) ↔ (is_reconciled (some pod) ≡ true)
unfolding index_values is_reconciled has_scheduling_gate
index_values_iff pod = (
  has_gate-Memᴰ scheduling_gate_name pod.spec.scheduling_gates,
  Memᴰ-has_gate scheduling_gate_name pod.spec.scheduling_gates,
)

-- Where the server lists under the gate only pods with that value in the index, a change of a scan wakes
-- only pods that have the gate, so that the reconcile has something to do.
pub woken-IsReconciled :
    {W : Type 0} (hash_string : Text → Text) (server : Server W) (r : PodGateReconciler W)
    (scan : ImageScan) (s : Session W) (pods : List Pod) (key : NamespacedName)
    → (server.list_gated_pods scheduling_gate_name s.world).0 ≡ ok pods
    → All (λ pod. Memᴰ scheduling_gate_name (index_values (some pod))) pods
    → Memᴰ key (map_image_scan_to_pods hash_string server r scan s).0
    → (pod : Pod) × Memᴰ pod pods × (key ≡ pod_key pod) × (is_reconciled (some pod) ≡ true)
woken-IsReconciled hash_string server r scan s pods key listed indexed m =
    let (_, pod, m', e, _) =
      (map_image_scan_to_pods_iff hash_string r server scan s pods key listed).0 m in
    (pod, m', e, (index_values_iff pod).0 (All-mem _ pods indexed m'))
