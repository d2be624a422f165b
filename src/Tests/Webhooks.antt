-- ===== src/Tests/Webhooks.antt =====
-- Admission requests.
use aqua_scan_gate.Common.{
  Text, codes, [], ◌∷◌, some, Result, ok, ◌≡◌, refl, ◌≢◌, inl, Memᴰ, true, ◌==◌, eq_iff,
}
use aqua_scan_gate.Kube.{Pod}
use aqua_scan_gate.Gate.{
  annotation_bypass_scan, is_bypassed, has_scheduling_gate, scheduling_gate_name,
  remove_scheduling_gate,
}
use aqua_scan_gate.Webhook.{
  PodMutator, Request, allowed, patch_response_from_raw, namespace_not_in_scope, bypass_annotation,
  gate_already_present, is_namespace_excluded, all_images_excluded, add_gate, marshaled, admit,
  handle,
}
use aqua_scan_gate.Webhook.Gated.{IsGatedFrom}
use aqua_scan_gate.Webhook.Gating.{
  IsPatchTo, MayPass, handle_gates, handle_allowed, handle-handle, remove_scheduling_gate-add_gate,
}
use aqua_scan_gate.Tests.World.{plain_pod, gated_pod, container, nginx}

abbrev mutator : PodMutator
mutator = record {
  excluded_namespaces = (codes "kube-system", true) ∷ [];
  included_namespaces = [];
  excluded_images = codes "pause:3" ∷ [];
}

-- A raw object is the pod itself.
abbrev decode : Pod → Result Text Pod
decode pod = ok pod

abbrev request : Pod → Request Pod
request pod = record { namespace = codes "shop"; object = pod }

abbrev bypassing_pod : Pod
bypassing_pod = record plain_pod {
  annotations = some ((annotation_bypass_scan, codes "true") ∷ []);
}

webhook : Unit {0}
unfolding handle admit marshaled add_gate is_namespace_excluded all_images_excluded is_bypassed
    has_scheduling_gate ◌==◌
webhook = tt

handle_tests :
    (handle decode ok mutator (request plain_pod)
      ≡ patch_response_from_raw plain_pod (add_gate plain_pod))
    × (handle decode ok mutator (request gated_pod) ≡ allowed gate_already_present)
    × (handle decode ok mutator (request bypassing_pod) ≡ allowed bypass_annotation)
    × (handle decode ok mutator (record { namespace = codes "kube-system"; object = plain_pod })
        ≡ allowed namespace_not_in_scope)
unfolding webhook
handle_tests = (refl, refl, refl, refl)

not_bypassing : ◌≢◌ {A = Text} [] (codes "true")
not_bypassing = cc

not_excluded : ¬ Memᴰ nginx (codes "pause:3" ∷ [])
unfolding webhook
not_excluded (Memᴰ.head e) = cc ((eq_iff nginx (codes "pause:3")).1 e)
not_excluded (Memᴰ.tail m) = elim m [ ]

handle_gates_example :
    (gated : Pod) × IsGatedFrom plain_pod gated
    × IsPatchTo decode ok gated plain_pod (handle decode ok mutator (request plain_pod))
unfolding webhook
handle_gates_example =
    handle_gates decode ok mutator (request plain_pod) plain_pod (container nginx) refl
      (inl (refl, refl)) not_bypassing refl (Memᴰ.tail (Memᴰ.head refl)) not_excluded

handle_allowed_example : MayPass mutator (codes "shop") bypassing_pod
unfolding webhook
handle_allowed_example =
    handle_allowed decode ok mutator (request bypassing_pod) bypassing_pod bypass_annotation refl
      refl

same_pod :
    (pod raw : Pod)
    → ◌≡◌ {A = Result Text Pod} (ok pod) (ok raw)
    → ◌≡◌ {A = Result Text Pod} (ok raw) (ok pod)
same_pod pod raw e = cc

handle_twice_test :
    handle decode ok mutator (request (add_gate plain_pod)) ≡ allowed gate_already_present
handle_twice_test =
    handle-handle decode ok mutator (request plain_pod) (add_gate plain_pod) same_pod handle_tests.0

remove_scheduling_gate-add_gate_test :
    (remove_scheduling_gate (add_gate plain_pod) scheduling_gate_name).spec ≡ plain_pod.spec
unfolding webhook
remove_scheduling_gate-add_gate_test = remove_scheduling_gate-add_gate plain_pod refl
