-- ===== src/Webhook/Gated.antt =====
-- What `PodMutator.Handle` of internal/webhook/pod_webhook.go makes of a pod that it gates.
use aqua_scan_gate.Common.{
  Text, codes, List, [], ◌∷◌, ◌++◌, false, Option, none, some, ◌==◌, eq_iff, eq_refl, Bool-cases,
  inl, inr, ◌≡◌, ◌≢◌, refl, sym, arith, lookup,
}
use aqua_scan_gate.Kube.{Pod}
use aqua_scan_gate.Webhook.{set_entry, gated_label, add_label, add_gate}

-- m[key] of the labels, where nil has no keys
abbrev pub label_in : Text → Option (List (Text × Text)) → Option Text
label_in key none = none
label_in key (some labels) = lookup key labels

lookup-set_entry :
    (key value : Text) (m : List (Text × Text)) → lookup key (set_entry key value m) ≡ some value
unfolding set_entry
lookup-set_entry key value [] = rw (eq_refl key) refl
lookup-set_entry key value ((k, v) ∷ m) = elim (Bool-cases (k == key)) [
  | inl y ↦ rw (y, set_entry, eq_refl key) refl
  | inr n ↦ rw (n, set_entry, n) (lookup-set_entry key value m)
]

lookup-set_entry_other :
    (j key value : Text) (m : List (Text × Text))
    → (key == j) ≡ false
    → lookup j (set_entry key value m) ≡ lookup j m
unfolding set_entry
lookup-set_entry_other j key value [] h = rw h refl
lookup-set_entry_other j key value ((k, v) ∷ m) h =
    ground (arith, eq_iff k key, eq_iff k j, eq_iff key j, lookup-set_entry_other j key value m)

eq_false : {s t : Text} → s ≢ t → (s == t) ≡ false
eq_false {s} {t} differs = elim (Bool-cases (s == t)) [
  | inl y ↦ absurd (differs ((eq_iff s t).0 y))
  | inr n ↦ n
]

label_in-add_label :
    (labels : Option (List (Text × Text)))
    → label_in gated_label (add_label labels) ≡ some (codes "true")
unfolding add_label
label_in-add_label none = lookup-set_entry gated_label (codes "true") []
label_in-add_label (some labels) = lookup-set_entry gated_label (codes "true") labels

label_in-add_label_other :
    (labels : Option (List (Text × Text))) (key : Text)
    → key ≢ gated_label
    → label_in key (add_label labels) ≡ label_in key labels
unfolding add_label
label_in-add_label_other none key differs =
    lookup-set_entry_other key gated_label (codes "true") [] (eq_false (λ e. differs (sym e)))
label_in-add_label_other (some labels) key differs =
    lookup-set_entry_other key gated_label (codes "true") labels (eq_false (λ e. differs (sym e)))

-- The pod with the gate after the ones it had and the label that says so; all else is as it was.
abbrev pub IsGatedFrom : Pod → Pod → Type 0
IsGatedFrom pod gated =
    (gated.spec.scheduling_gates
      ≡ pod.spec.scheduling_gates
        ++ record { name = codes "scans.aquasec.community/aqua-scan" } ∷ [])
    × (record gated.spec { scheduling_gates = pod.spec.scheduling_gates } ≡ pod.spec)
    × (label_in (codes "scans.aquasec.community/gated") gated.labels ≡ some (codes "true"))
    × ((key : Text)
        → key ≢ codes "scans.aquasec.community/gated"
        → label_in key gated.labels ≡ label_in key pod.labels)
    × (gated.name ≡ pod.name)
    × (gated.namespace ≡ pod.namespace)
    × (gated.annotations ≡ pod.annotations)

pub add_gate-IsGatedFrom : (pod : Pod) → IsGatedFrom pod (add_gate pod)
unfolding add_gate
add_gate-IsGatedFrom pod = (
  refl,
  refl,
  label_in-add_label pod.labels,
  label_in-add_label_other pod.labels,
  refl,
  refl,
  refl,
)
