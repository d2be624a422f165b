-- ===== src/Gate/Removal.antt =====
-- What `removeSchedulingGate` of internal/controller/pod_gate_controller.go does to a pod.
use aqua_scan_gate.Common.{
  Text, List, [], ◌∷◌, ◌++◌, true, false, ◌≡◌, refl, ◌≢◌, arith, eq_iff, append-nil,
}
use aqua_scan_gate.Kube.{Pod, SchedulingGate}
use aqua_scan_gate.Gate.{has_gate, drop_gate, has_scheduling_gate, remove_scheduling_gate}

pub has_gate-drop_gate :
    (name : Text) (gs : List SchedulingGate) → has_gate name (drop_gate name gs) ≡ false
unfolding has_gate drop_gate
has_gate-drop_gate name [] = refl
has_gate-drop_gate name (g ∷ gs) = ground (arith, has_gate-drop_gate name gs)

has_gate-drop_gate_ne :
    (name other : Text) (gs : List SchedulingGate)
    → other ≢ name
    → has_gate other (drop_gate name gs) ≡ has_gate other gs
unfolding has_gate drop_gate
has_gate-drop_gate_ne name other [] h = refl
has_gate-drop_gate_ne name other (g ∷ gs) h =
    ground (arith, eq_iff g.name name, eq_iff g.name other, has_gate-drop_gate_ne name other gs h)

drop_gate_absent :
    (name : Text) (gs : List SchedulingGate) → has_gate name gs ≡ false → drop_gate name gs ≡ gs
unfolding has_gate drop_gate
drop_gate_absent name [] h = refl
drop_gate_absent name (g ∷ gs) h = ground (arith, drop_gate_absent name gs)

drop_gate-append :
    (name : Text) (gs hs : List SchedulingGate)
    → drop_gate name (gs ++ hs) ≡ drop_gate name gs ++ drop_gate name hs
unfolding drop_gate
drop_gate-append name [] hs = refl
drop_gate-append name (g ∷ gs) hs = ground (arith, drop_gate-append name gs hs)

pub drop_gate-concat :
    (name : Text) (gs : List SchedulingGate)
    → has_gate name gs ≡ false
    → drop_gate name (gs ++ record { name = name } ∷ []) ≡ gs
unfolding drop_gate
drop_gate-concat name gs h =
    rw (drop_gate-append name gs (record { name = name } ∷ []), drop_gate_absent name gs h)
      (ground (arith, eq_iff name name, append-nil gs))

pub has_gate-append :
    (name : Text) (gs : List SchedulingGate)
    → has_gate name (gs ++ record { name = name } ∷ []) ≡ true
unfolding has_gate
has_gate-append name [] = ground (arith, eq_iff name name)
has_gate-append name (g ∷ gs) = ground (arith, has_gate-append name gs)

-- After a removal the pod lacks the gate, and it holds any other gate if and only if it held it.
pub remove_scheduling_gate-gates :
    (pod : Pod) (name other : Text)
    → other ≢ name
    → (has_scheduling_gate (remove_scheduling_gate pod name) name ≡ false)
      × (has_scheduling_gate (remove_scheduling_gate pod name) other
          ≡ has_scheduling_gate pod other)
unfolding has_scheduling_gate remove_scheduling_gate
remove_scheduling_gate-gates pod name other h =
    let gates = pod.spec.scheduling_gates in
    (has_gate-drop_gate name gates, has_gate-drop_gate_ne name other gates h)
