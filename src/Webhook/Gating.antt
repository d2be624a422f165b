-- ===== src/Webhook/Gating.antt =====
-- Which pods `PodMutator.Handle` of internal/webhook/pod_webhook.go gates.
use aqua_scan_gate.Common.{
  Text, codes, List, [], ◌∷◌, ◌++◌, true, false, Result, ok, err, ◌≡◌, refl, ◌≢◌, ◌⊎◌, inl, inr, ap,
  sym, ◌==◌, eq_iff, arith, Memᴰ, All, All-append, All-mem, Result-cases, Bool-cases,
}
use aqua_scan_gate.Kube.{Container, Pod}
use aqua_scan_gate.Scope.{InScope}
use aqua_scan_gate.Gate.{
  scheduling_gate_name, annotation_bypass_scan, annotation, is_bypassed, has_scheduling_gate,
  remove_scheduling_gate,
}
use aqua_scan_gate.Gate.Removal.{has_gate-append, drop_gate-concat}
use aqua_scan_gate.Webhook.Gated.{IsGatedFrom, add_gate-IsGatedFrom}
use aqua_scan_gate.Webhook.{
  Response, errored, PodMutator, Request, allowed, patch_response_from_raw, Reason,
  gate_already_present, is_namespace_excluded, listed, all_listed, all_images_excluded, add_gate,
  marshaled, admit, handle,
}

abbrev pub IsBypassed : Pod → Type 0
IsBypassed pod = annotation annotation_bypass_scan pod.annotations ≡ codes "true"

abbrev pub HasExcludedImage : PodMutator → Container → Type 0
HasExcludedImage m c = Memᴰ c.image m.excluded_images

is_namespace_excluded_of_InScope :
    (m : PodMutator) (ns : Text)
    → InScope m.included_namespaces m.excluded_namespaces ns
    → is_namespace_excluded m ns ≡ false
unfolding is_namespace_excluded
is_namespace_excluded_of_InScope m ns h = ground arith

pub is_namespace_excluded-InScope :
    (m : PodMutator) (ns : Text)
    → is_namespace_excluded m ns ≡ false
    → InScope m.included_namespaces m.excluded_namespaces ns
unfolding is_namespace_excluded
is_namespace_excluded-InScope m ns h = ground arith

Memᴰ_of_listed : (t : Text) (xs : List Text) → listed t xs ≡ true → Memᴰ t xs
unfolding listed
Memᴰ_of_listed t [] h = absurd (ground arith)
Memᴰ_of_listed t (x ∷ xs) h = elim (Bool-cases (x == t)) [
  | inl y ↦ Memᴰ.head (sym ((eq_iff x t).0 y))
  | inr n ↦ Memᴰ.tail (Memᴰ_of_listed t xs (ground arith))
]

all_listed-All :
    (xs : List Text) (cs : List Container) → all_listed xs cs ≡ true → All (λ c. Memᴰ c.image xs) cs
unfolding all_listed
all_listed-All xs [] h = tt
all_listed-All xs (c ∷ cs) h =
    (Memᴰ_of_listed c.image xs (ground arith), all_listed-All xs cs (ground arith))

all_images_excluded_sound :
    (m : PodMutator) (pod : Pod)
    → all_images_excluded m pod ≡ true
    → All (HasExcludedImage m) (pod.spec.init_containers ++ pod.spec.containers)
unfolding all_images_excluded
all_images_excluded_sound m pod h =
    All-append (HasExcludedImage m) pod.spec.init_containers pod.spec.containers
      (all_listed-All m.excluded_images pod.spec.init_containers (ground arith))
      (all_listed-All m.excluded_images pod.spec.containers (ground arith))

not_excluded_of_Memᴰ :
    (m : PodMutator) (pod : Pod) {c : Container}
    → Memᴰ c (pod.spec.init_containers ++ pod.spec.containers)
    → ¬ HasExcludedImage m c
    → all_images_excluded m pod ≡ false
not_excluded_of_Memᴰ m pod c_in fresh = elim (Bool-cases (all_images_excluded m pod)) [
  | inl y ↦ absurd (fresh (All-mem (HasExcludedImage m) _ (all_images_excluded_sound m pod y) c_in))
  | inr n ↦ n
]

not_bypassed : (pod : Pod) → ¬ IsBypassed pod → is_bypassed pod ≡ false
unfolding is_bypassed
not_bypassed pod h = elim (Bool-cases (is_bypassed pod)) [
  | inl y ↦ absurd (h ((eq_iff _ _).0 y))
  | inr n ↦ n
]

is_bypassed-IsBypassed : (pod : Pod) → is_bypassed pod ≡ true → IsBypassed pod
unfolding is_bypassed
is_bypassed-IsBypassed pod h = (eq_iff _ _).0 h

-- Why a pod that decodes may be admitted without a change.
pub data MayPass (m : PodMutator) (ns : Text) (pod : Pod) : Type 0 where
  out_of_scope : ¬ InScope m.included_namespaces m.excluded_namespaces ns → MayPass m ns pod
  bypassed : IsBypassed pod → MayPass m ns pod
  gated : has_scheduling_gate pod scheduling_gate_name ≡ true → MayPass m ns pod
  excluded :
      All (HasExcludedImage m) (pod.spec.init_containers ++ pod.spec.containers) → MayPass m ns pod

pub has_gate-add_gate : (pod : Pod) → has_scheduling_gate (add_gate pod) scheduling_gate_name ≡ true
unfolding has_scheduling_gate add_gate
has_gate-add_gate pod = has_gate-append scheduling_gate_name pod.spec.scheduling_gates

is_bypassed-add_gate : (pod : Pod) → is_bypassed (add_gate pod) ≡ is_bypassed pod
unfolding is_bypassed add_gate
is_bypassed-add_gate pod = refl

-- For a pod without the gate, removing the gate takes back all that adding it did to the spec.
pub remove_scheduling_gate-add_gate :
    (pod : Pod)
    → has_scheduling_gate pod scheduling_gate_name ≡ false
    → (remove_scheduling_gate (add_gate pod) scheduling_gate_name).spec ≡ pod.spec
unfolding remove_scheduling_gate add_gate has_scheduling_gate
remove_scheduling_gate-add_gate pod h =
    ap (λ gates. record pod.spec { scheduling_gates = gates })
      (drop_gate-concat scheduling_gate_name pod.spec.scheduling_gates h)

module _ {Raw : Type 0} (decode : Raw → Result Text Pod) (marshal : Pod → Result Text Raw) where
  -- An answer of the webhook that is made of a pod's encoding, or reports that there is none.
  abbrev pub IsPatchTo : Pod → Raw → Response Raw → Type 0
  IsPatchTo after object answer =
      ((raw : Raw) × (marshal after ≡ ok raw) × (answer ≡ patch_response_from_raw object raw))
      ⊎ ((e : Text) × (marshal after ≡ err e) × (answer ≡ errored 500 e))

  marshaled-IsPatchTo :
      (after : Pod) (object : Raw)
      → IsPatchTo after object (marshaled decode marshal object (marshal after))
  unfolding marshaled
  marshaled-IsPatchTo after object = elim (Result-cases (marshal after)) [
    | inl (raw, e) ↦ inl (raw, e, rw (e, marshaled) refl)
    | inr (failure, e) ↦ inr (failure, e, rw (e, marshaled) refl)
  ]

  -- A pod that can be decoded, is in a namespace in scope, asks for no bypass, has no gate yet, and has a
  -- container or init container whose image is not excluded, is answered with the patch to the encoding
  -- of a pod that has the gate after the gates it had, carries the label that says so, and is the
  -- submitted one in the rest; or with the code 500, if that pod cannot be encoded.
  pub handle_gates :
      (m : PodMutator) (req : Request Raw) (pod : Pod) (c : Container)
      → decode req.object ≡ ok pod
      → InScope m.included_namespaces m.excluded_namespaces req.namespace
      → ¬ IsBypassed pod
      → has_scheduling_gate pod scheduling_gate_name ≡ false
      → Memᴰ c (pod.spec.init_containers ++ pod.spec.containers)
      → ¬ HasExcludedImage m c
      → (after : Pod) × IsGatedFrom pod after
        × IsPatchTo after req.object (handle decode marshal m req)
  unfolding handle admit
  handle_gates m req pod c decoded scope plain ungated c_in fresh = (
    add_gate pod,
    add_gate-IsGatedFrom pod,
    rw
        (
          decoded,
          handle,
          admit,
          is_namespace_excluded_of_InScope m req.namespace scope,
          not_bypassed pod plain,
          ungated,
          not_excluded_of_Memᴰ m pod c_in fresh,
        )
        (marshaled-IsPatchTo (add_gate pod) req.object),
  )

  marshaled_ne_allowed :
      (object : Raw) (r : Result Text Raw) (why : Reason)
      → marshaled decode marshal object r ≢ allowed why
  unfolding marshaled
  marshaled_ne_allowed object (ok raw) why = cc
  marshaled_ne_allowed object (err e) why = cc

  admit_allowed :
      (m : PodMutator) (req : Request Raw) (pod : Pod) (why : Reason)
      → admit decode marshal m req pod ≡ allowed why
      → MayPass m req.namespace pod
  unfolding admit
  admit_allowed m req pod why h = elim (Bool-cases (is_namespace_excluded m req.namespace)) [
    | inl y ↦ out_of_scope (λ s. cc (y, is_namespace_excluded_of_InScope m req.namespace s))
    | inr n₁ ↦ elim (Bool-cases (is_bypassed pod)) [
      | inl y ↦ bypassed (is_bypassed-IsBypassed pod y)
      | inr n₂ ↦ elim (Bool-cases (has_scheduling_gate pod scheduling_gate_name)) [
        | inl y ↦ gated y
        | inr n₃ ↦ elim (Bool-cases (all_images_excluded m pod)) [
          | inl y ↦ excluded (all_images_excluded_sound m pod y)
          | inr n₄ ↦
              absurd (marshaled_ne_allowed req.object (marshal (add_gate pod)) why (ground arith))
        ]
      ]
    ]
  ]

  -- A decodable pod is admitted unchanged only if its namespace is out of scope, it asks for the
  -- bypass, it has the gate already, or the images of all its containers and init containers are
  -- excluded ones.
  pub handle_allowed :
      (m : PodMutator) (req : Request Raw) (pod : Pod) (why : Reason)
      → decode req.object ≡ ok pod
      → handle decode marshal m req ≡ allowed why
      → MayPass m req.namespace pod
  unfolding handle
  handle_allowed m req pod why decoded h = admit_allowed m req pod why (ground (arith, decoded))

  admit_patched :
      (m : PodMutator) (req : Request Raw) (pod : Pod) (raw : Raw)
      → admit decode marshal m req pod ≡ patch_response_from_raw req.object raw
      → (is_namespace_excluded m req.namespace ≡ false)
        × (is_bypassed pod ≡ false)
        × (marshal (add_gate pod) ≡ ok raw)
  unfolding admit marshaled
  admit_patched m req pod raw h = ground arith

  admit_patched_ungated :
      (m : PodMutator) (req : Request Raw) (pod : Pod) (raw : Raw)
      → admit decode marshal m req pod ≡ patch_response_from_raw req.object raw
      → has_scheduling_gate pod scheduling_gate_name ≡ false
  unfolding admit
  admit_patched_ungated m req pod raw h = ground arith

  -- What a pod is like that is answered with a patch, and what the patch makes of it.
  pub handle_patched :
      (m : PodMutator) (req : Request Raw) (pod : Pod) (raw : Raw)
      → decode req.object ≡ ok pod
      → handle decode marshal m req ≡ patch_response_from_raw req.object raw
      → InScope m.included_namespaces m.excluded_namespaces req.namespace
        × (has_scheduling_gate pod scheduling_gate_name ≡ false)
        × (marshal (add_gate pod) ≡ ok raw)
  unfolding handle
  handle_patched m req pod raw decoded h =
      let answered : admit decode marshal m req pod ≡ patch_response_from_raw req.object raw =
        ground (arith, decoded) in
      let (inside, _, encoded) = admit_patched m req pod raw answered in
      (
        is_namespace_excluded-InScope m req.namespace inside,
        admit_patched_ungated m req pod raw answered,
        encoded,
      )

  admit-add_gate :
      (m : PodMutator) (req : Request Raw) (pod : Pod)
      → is_namespace_excluded m req.namespace ≡ false
      → is_bypassed pod ≡ false
      → admit decode marshal m req (add_gate pod) ≡ allowed gate_already_present
  unfolding admit
  admit-add_gate m req pod h k = ground (arith, has_gate-add_gate pod, is_bypassed-add_gate pod)

  -- Where decoding gives back the pod that was encoded, the patched pod is not patched again.
  pub handle-handle :
      (m : PodMutator) (req : Request Raw) (raw : Raw)
      → ((pod : Pod) (r : Raw) → marshal pod ≡ ok r → decode r ≡ ok pod)
      → handle decode marshal m req ≡ patch_response_from_raw req.object raw
      → handle decode marshal m (record req { object = raw }) ≡ allowed gate_already_present
  unfolding handle
  handle-handle m req raw roundtrip h = elim (Result-cases (decode req.object)) [
    | inl (pod, e) ↦
        let (scope, plain, encoded) = admit_patched m req pod raw (ground arith) in
        rw (roundtrip (add_gate pod) raw encoded, handle)
          (admit-add_gate m (record req { object = raw }) pod scope plain)
    | inr (failure, e) ↦ absurd (ground arith)
  ]
