-- ===== src/PodGate/Waking.antt =====
-- Which pods a change of a scan wakes.
use aqua_scan_gate.Common.{
  if◌then◌else◌, Text, List, [], ◌∷◌, Bool, false, true, not, ◌&&◌, ◌||◌, ok, Bool-cases, ◌==◌,
  eq_iff, ◌≡◌, refl, sym, ap, subst, ◌⊎◌, inl, inr, ◌↔◌, Memᴰ, arith,
}
use aqua_scan_gate.Api.{ImageScan, ScanPhase}
use aqua_scan_gate.Kube.{Pod, NamespacedName, Server}
use aqua_scan_gate.ImageRef.{ImageRef, extract_from_pod}
use aqua_scan_gate.Scope.{InScope}
use aqua_scan_gate.Gate.{scheduling_gate_name}
use aqua_scan_gate.Session.{Session}
use aqua_scan_gate.ImageScans.Outcomes.{IsFinal}
use aqua_scan_gate.PodGate.Config.{PodGateReconciler, is_namespace_excluded, scan_namespace_of}
use aqua_scan_gate.PodGate.Wakeups.{
  pod_key, image_hash, scan_hash, uses_image, is_waiting, requests_for, requests_of_listed,
  map_by_phase, map_image_scan_to_pods,
}

module _ {A : Type 0} where
  Memᴰ-when :
      {a x : A} {l : List A} (b : Bool)
      → Memᴰ a (if b then x ∷ l else l)
      → ((b ≡ true) × (a ≡ x)) ⊎ Memᴰ a l
  Memᴰ-when true (Memᴰ.head e) = inl (refl, e)
  Memᴰ-when true (Memᴰ.tail m) = inr m
  Memᴰ-when false m = inr m

  Memᴰ-when_head :
      {a x : A} (l : List A) (b : Bool) → b ≡ true → a ≡ x → Memᴰ a (if b then x ∷ l else l)
  Memᴰ-when_head l true h e = Memᴰ.head e
  Memᴰ-when_head l false h e = absurd (ground arith)

  Memᴰ-when_tail :
      {a : A} {l : List A} (x : A) (b : Bool) → Memᴰ a l → Memᴰ a (if b then x ∷ l else l)
  Memᴰ-when_tail x true m = Memᴰ.tail m
  Memᴰ-when_tail x false m = m

or_true : (b c : Bool) → (b ≡ true) ⊎ (c ≡ true) → (b || c) ≡ true
or_true true c h = refl
or_true false c h = ground arith

and3_true : (a b c : Bool) → (a && b && c) ≡ true → (a ≡ true) × (b ≡ true) × (c ≡ true)
and3_true true true c h = (refl, refl, h)
and3_true true false c h = absurd (ground arith)
and3_true false b c h = absurd (ground arith)

true_and3 : (a b c : Bool) → a ≡ true → b ≡ true → c ≡ true → (a && b && c) ≡ true
true_and3 true true c h k l = l
true_and3 true false c h k l = k
true_and3 false b c h k l = h

module _ (hash_string : Text → Text) where
  uses_image_sound :
      (hash : Text) (images : List ImageRef)
      → uses_image hash_string hash images ≡ true
      → (img : ImageRef) × Memᴰ img images × (image_hash hash_string img.image ≡ hash)
  unfolding uses_image
  uses_image_sound hash [] h = absurd (ground arith)
  uses_image_sound hash (img ∷ images) h =
      elim (Bool-cases (image_hash hash_string img.image == hash)) [
        | inl e ↦ (img, Memᴰ.head refl, (eq_iff _ _).0 e)
        | inr e ↦
            let (img', m, f) = uses_image_sound hash images (ground arith) in (img', Memᴰ.tail m, f)
      ]

  uses_image_complete :
      (hash : Text) (img : ImageRef) (images : List ImageRef)
      → Memᴰ img images
      → image_hash hash_string img.image ≡ hash
      → uses_image hash_string hash images ≡ true
  unfolding uses_image
  uses_image_complete hash img [] m e = elim m [ ]
  uses_image_complete hash img (img' ∷ images) (Memᴰ.head f) e =
      let g : image_hash hash_string img'.image ≡ hash =
        subst (λ i. image_hash hash_string i.image ≡ hash) f e in
      or_true (image_hash hash_string img'.image == hash) _ (inl ((eq_iff _ _).1 g))
  uses_image_complete hash img (img' ∷ images) (Memᴰ.tail m) e =
      or_true (image_hash hash_string img'.image == hash) _
        (inr (uses_image_complete hash img images m e))

  module _ {W : Type 0} (r : PodGateReconciler W) where
    requests_for_sound :
        (scan : ImageScan) (key : NamespacedName) (pods : List Pod)
        → Memᴰ key (requests_for hash_string r scan pods)
        → (pod : Pod) × Memᴰ pod pods
          × (key ≡ pod_key pod)
          × (is_waiting hash_string r scan pod ≡ true)
    unfolding requests_for
    requests_for_sound scan key [] m = elim m [ ]
    requests_for_sound scan key (pod ∷ pods) m =
        elim (Memᴰ-when (is_waiting hash_string r scan pod) m) [
          | inl (e, f) ↦ (pod, Memᴰ.head refl, f, e)
          | inr k ↦
              let (pod', m', f, e) = requests_for_sound scan key pods k in
              (pod', Memᴰ.tail m', f, e)
        ]

    requests_for_complete :
        (scan : ImageScan) (pod : Pod) (pods : List Pod)
        → Memᴰ pod pods
        → is_waiting hash_string r scan pod ≡ true
        → Memᴰ (pod_key pod) (requests_for hash_string r scan pods)
    unfolding requests_for
    requests_for_complete scan pod [] m h = elim m [ ]
    requests_for_complete scan pod (pod' ∷ pods) (Memᴰ.head e) h =
        let same : pod_key pod ≡ pod_key pod' = ap pod_key e in
        let h' : is_waiting hash_string r scan pod' ≡ true =
          subst (λ p. is_waiting hash_string r scan p ≡ true) e h in
        Memᴰ-when_head _ (is_waiting hash_string r scan pod') h' same
    requests_for_complete scan pod (pod' ∷ pods) (Memᴰ.tail m) h =
        Memᴰ-when_tail (pod_key pod') (is_waiting hash_string r scan pod')
          (requests_for_complete scan pod pods m h)

    scope_of_not_excluded :
        (ns : Text)
        → not (is_namespace_excluded r ns) ≡ true
        → InScope r.included_namespaces r.excluded_namespaces ns
    unfolding is_namespace_excluded
    scope_of_not_excluded ns h = ground arith

    not_excluded_of_scope :
        (ns : Text)
        → InScope r.included_namespaces r.excluded_namespaces ns
        → not (is_namespace_excluded r ns) ≡ true
    unfolding is_namespace_excluded
    not_excluded_of_scope ns h = ground arith

    -- A pod in scope whose scans live where this one does, and an image of which has the hash that the
    -- scan is labelled with.
    abbrev pub IsWaitingFor : ImageScan → Pod → Type 0
    IsWaitingFor scan pod =
        InScope r.included_namespaces r.excluded_namespaces pod.namespace
        × (scan_namespace_of r pod ≡ scan.namespace)
        × (img : ImageRef) × Memᴰ img (extract_from_pod pod)
        × (image_hash hash_string img.image ≡ scan_hash hash_string scan)

    is_waiting_sound :
        (scan : ImageScan) (pod : Pod)
        → is_waiting hash_string r scan pod ≡ true
        → IsWaitingFor scan pod
    unfolding is_waiting
    is_waiting_sound scan pod h =
        let (scope, home, uses) = and3_true (not (is_namespace_excluded r pod.namespace)) _ _ h in
        let (img, m, e) = uses_image_sound _ _ uses in
        (scope_of_not_excluded pod.namespace scope, (eq_iff _ _).0 home, img, m, e)

    is_waiting_complete :
        (scan : ImageScan) (pod : Pod)
        → IsWaitingFor scan pod
        → is_waiting hash_string r scan pod ≡ true
    unfolding is_waiting
    is_waiting_complete scan pod (scope, home, img, m, e) =
        true_and3 (not (is_namespace_excluded r pod.namespace)) _ _
          (not_excluded_of_scope pod.namespace scope) ((eq_iff _ _).1 home)
          (uses_image_complete _ img _ m e)

    module _ (server : Server W) where
      listed_of_map :
          (scan : ImageScan) (phase : ScanPhase) (s : Session W) (key : NamespacedName)
          → Memᴰ key (map_by_phase hash_string server r scan phase s).0
          → IsFinal phase
            × Memᴰ key (
                requests_of_listed hash_string r scan
                  (server.list_gated_pods scheduling_gate_name s.world).0)
      unfolding map_by_phase
      listed_of_map scan ScanPhase.unset s key m = elim m [ ]
      listed_of_map scan ScanPhase.pending s key m = elim m [ ]
      listed_of_map scan ScanPhase.registered s key m = (inl refl, m)
      listed_of_map scan ScanPhase.error s key m = (inr refl, m)

      map_of_listed :
          (scan : ImageScan) (phase : ScanPhase) (s : Session W) (key : NamespacedName)
          → IsFinal phase
          → Memᴰ key (
              requests_of_listed hash_string r scan
                (server.list_gated_pods scheduling_gate_name s.world).0)
          → Memᴰ key (map_by_phase hash_string server r scan phase s).0
      unfolding map_by_phase
      map_of_listed scan ScanPhase.unset s key final m = absurd (ground arith)
      map_of_listed scan ScanPhase.pending s key final m = absurd (ground arith)
      map_of_listed scan ScanPhase.registered s key final m = m
      map_of_listed scan ScanPhase.error s key final m = m

      -- If the gated pods are listed without an error, a change of a scan wakes exactly the keys of
      -- the listed pods in scope whose scans live in the namespace of this scan and one of whose
      -- images has the hash that the scan is labelled with, and it wakes any only in a final phase.
      pub map_image_scan_to_pods_iff :
          (scan : ImageScan) (s : Session W) (pods : List Pod) (key : NamespacedName)
          → (server.list_gated_pods scheduling_gate_name s.world).0 ≡ ok pods
          → Memᴰ key (map_image_scan_to_pods hash_string server r scan s).0 ↔ (
              IsFinal scan.status.phase
              × (pod : Pod) × Memᴰ pod pods
              × (key ≡ pod_key pod)
              × IsWaitingFor scan pod)
      unfolding map_image_scan_to_pods
      map_image_scan_to_pods_iff scan s pods key listed = (
        λ m.
            let (final, k) = listed_of_map scan scan.status.phase s key m in
            let (pod, m', e, w) =
              requests_for_sound scan key pods
                (subst (λ l. Memᴰ key (requests_of_listed hash_string r scan l)) listed k) in
            (final, pod, m', e, is_waiting_sound scan pod w),
        λ (final, pod, m', e, w). map_of_listed scan scan.status.phase s key final (
            subst (λ l. Memᴰ key (requests_of_listed hash_string r scan l)) (sym listed)
              (subst (λ k. Memᴰ k (requests_for hash_string r scan pods)) (sym e)
                (requests_for_complete scan pod pods m' (is_waiting_complete scan pod w)))),
      )
