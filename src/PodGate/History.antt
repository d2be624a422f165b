-- ===== src/PodGate/History.antt =====
-- Why `PodGateReconciler` writes a pod: over every history of reconciles, a gate is taken off only a
-- pod that asked for the bypass or whose images all have a registered scan.
use aqua_scan_gate.Common.{
  Text, codes, List, [], ◌∷◌, true, false, Option, none, some, Result, ok, err, Result-cases,
  Bool-cases, ◌≡◌, refl, sym, ap, subst, ◌⊎◌, inl, inr, arith, Memᴰ, All, eq_iff,
}
use aqua_scan_gate.Kube.{Pod, NamespacedName, ApiError, Server}
use aqua_scan_gate.ImageRef.{ImageRef, extract_from_pod}
use aqua_scan_gate.Scope.{InScope}
use aqua_scan_gate.Gate.{
  scheduling_gate_name, annotation_bypass_scan, annotation, is_bypassed, has_scheduling_gate,
  remove_scheduling_gate,
}
use aqua_scan_gate.Session.{
  Session, Call, Event, pod_read, pod_updated, get_pod, update_pod, scan_bypassed, scan_passed,
}
use aqua_scan_gate.Session.Trace.{ExtendsBy, same, more, ExtendsBy-trans, Memᴰ-ExtendsBy}
use aqua_scan_gate.PodGate.Config.{PodGateReconciler, is_namespace_excluded, Progress, no_progress}
use aqua_scan_gate.PodGate.Resolution.{resolve_images}
use aqua_scan_gate.PodGate.Checking.{scan_key, check_images}
use aqua_scan_gate.PodGate.Reconcile.{
  External, release, conclude, choose_resolver, after_resolve, scan_images, by_images, gate_pod,
  reconcile,
}
use aqua_scan_gate.PodGate.Clearance.{
  IsQuiet, IsRegistered, AllRegistered, check_images-IsQuiet, check_images-passed,
}
use aqua_scan_gate.PodGate.Digests.{
  IsResolved, IsResolved-ExtendsBy, AllResolved, resolve_images-IsQuiet, resolve_images-AllResolved,
}
use aqua_scan_gate.PodGate.Quiet.{
  after_update-IsQuiet, record_pending-IsQuiet, choose_resolver-IsQuiet,
}

-- The webhook's and the controller's test of the annotation, as an equation.
abbrev pub AsksForBypass : Pod → Type 0
AsksForBypass pod = annotation annotation_bypass_scan pod.annotations ≡ codes "true"

is_bypassed-AsksForBypass : (pod : Pod) → is_bypassed pod ≡ true → AsksForBypass pod
unfolding is_bypassed
is_bypassed-AsksForBypass pod h = (eq_iff _ _).0 h

module _ {W K : Type 0} (server : Server W) (ext : External W K) (r : PodGateReconciler W) where
  -- The image has a digest, its own or one that the resolver gave, and the scan of that image and
  -- digest has been read with the phase Registered.
  abbrev pub IsCleared : Pod → List Call → ImageRef → Type 0
  IsCleared pod cs img =
      (img' : ImageRef) × IsResolved ext.parse_reference r img img' cs
      × IsRegistered (scan_key ext.hash_string r pod img') cs

  -- A written pod is a pod that was read in a namespace in scope, less the gate, and either asked for
  -- the bypass or has cleared images only.
  abbrev pub IsWarranted : Call → List Call → Type 0
  IsWarranted (pod_updated pod' answer) cs =
      (pod : Pod) × (key : NamespacedName) × Memᴰ (pod_read key (ok pod)) cs
      × InScope r.included_namespaces r.excluded_namespaces key.namespace
      × (pod' ≡ remove_scheduling_gate pod scheduling_gate_name)
      × (AsksForBypass pod ⊎ All (IsCleared pod cs) (extract_from_pod pod))
  IsWarranted _ cs = Unit

  abbrev pub IsWarrantedHistory : List Call → Type 0
  IsWarrantedHistory [] = Unit
  IsWarrantedHistory (c ∷ cs) = IsWarranted c cs × IsWarrantedHistory cs

  pub quiet_IsWarranted : (c : Call) (cs : List Call) → IsQuiet c → IsWarranted c cs
  quiet_IsWarranted (pod_updated pod answer) cs q = absurd q
  quiet_IsWarranted _ cs q = tt

  quiet_keeps :
      {cs ds : List Call} → IsWarrantedHistory cs → ExtendsBy IsQuiet cs ds → IsWarrantedHistory ds
  quiet_keeps h same = h
  quiet_keeps h (more {c} {ds} q e) = (quiet_IsWarranted c ds q, quiet_keeps h e)

  is_namespace_excluded-InScope :
      (ns : Text)
      → is_namespace_excluded r ns ≡ false
      → InScope r.included_namespaces r.excluded_namespaces ns
  unfolding is_namespace_excluded
  is_namespace_excluded-InScope ns h = ground arith

  All-IsCleared :
      (pod : Pod) (images images' : List ImageRef) (cs : List Call)
      → AllResolved ext.parse_reference r images images' cs
      → AllRegistered server ext.hash_string r pod images' cs
      → All (IsCleared pod cs) images
  All-IsCleared pod [] [] cs h k = tt
  All-IsCleared pod [] (_ ∷ _) cs h k = tt
  All-IsCleared pod (_ ∷ _) [] cs h k = absurd h
  All-IsCleared pod (img ∷ images) (img' ∷ images') cs (h, hs) (k, ks) =
      ((img', h, k), All-IsCleared pod images images' cs hs ks)

  AllResolved-ExtendsBy :
      (images images' : List ImageRef) {cs ds : List Call}
      → ExtendsBy IsQuiet cs ds
      → AllResolved ext.parse_reference r images images' cs
      → AllResolved ext.parse_reference r images images' ds
  AllResolved-ExtendsBy [] [] e h = tt
  AllResolved-ExtendsBy [] (_ ∷ _) e h = absurd h
  AllResolved-ExtendsBy (_ ∷ _) [] e h = absurd h
  AllResolved-ExtendsBy (img ∷ images) (img' ∷ images') e (h, hs) = (
    IsResolved-ExtendsBy ext.parse_reference r img img' e h,
    AllResolved-ExtendsBy images images' e hs,
  )

  module _ (pod : Pod) (key : NamespacedName)
      (scope : InScope r.included_namespaces r.excluded_namespaces key.namespace) where
    release-warranted :
        (event : Option Event) (s : Session W)
        → IsWarrantedHistory s.calls
        → Memᴰ (pod_read key (ok pod)) s.calls
        → AsksForBypass pod ⊎ All (IsCleared pod s.calls) (extract_from_pod pod)
        → IsWarrantedHistory (release server r pod event s).1.calls
    unfolding release update_pod
    release-warranted event s h read why =
        quiet_keeps ((pod, key, read, scope, refl, why), h) (after_update-IsQuiet r event _ _)

    conclude-warranted :
        (answer : Result ApiError Progress) (s : Session W)
        → IsWarrantedHistory s.calls
        → Memᴰ (pod_read key (ok pod)) s.calls
        → ((p : Progress)
            → answer ≡ ok p
            → p.all_passed ≡ true
            → All (IsCleared pod s.calls) (extract_from_pod pod))
        → IsWarrantedHistory (conclude server r pod answer s).1.calls
    unfolding conclude
    conclude-warranted (err e) s h read cleared = h
    conclude-warranted (ok p) s h read cleared = elim (Bool-cases p.all_passed) [
      | inl e ↦
          rw (e, conclude) (release-warranted (some scan_passed) s h read (inr (cleared p refl e)))
      | inr e ↦ rw (e, conclude) (quiet_keeps h (record_pending-IsQuiet r p.pending_images s))
    ]

    after_resolve-warranted :
        (answer : Option (List ImageRef)) (s : Session W)
        → IsWarrantedHistory s.calls
        → Memᴰ (pod_read key (ok pod)) s.calls
        → ((images : List ImageRef)
            → answer ≡ some images
            → AllResolved ext.parse_reference r (extract_from_pod pod) images s.calls)
        → IsWarrantedHistory (after_resolve server ext r pod answer s).1.calls
    unfolding after_resolve
    after_resolve-warranted none s h read resolved = h
    after_resolve-warranted (some images) s h read resolved =
        let checked = check_images server ext.hash_string r pod images no_progress s in
        let quiet = check_images-IsQuiet server ext.hash_string r pod images no_progress s in
        conclude-warranted checked.0 checked.1 (quiet_keeps h quiet) (Memᴰ-ExtendsBy read quiet)
          λ p e passed.
            All-IsCleared pod (extract_from_pod pod) images checked.1.calls
              (AllResolved-ExtendsBy (extract_from_pod pod) images quiet (resolved images refl))
              (check_images-passed server ext.hash_string r pod images no_progress p s e passed).1

    scan_images-warranted :
        (s : Session W)
        → IsWarrantedHistory s.calls
        → Memᴰ (pod_read key (ok pod)) s.calls
        → IsWarrantedHistory (scan_images server ext r pod (extract_from_pod pod) s).1.calls
    unfolding scan_images
    scan_images-warranted s h read =
        let chosen = choose_resolver server ext r.resolver pod s in
        let images = extract_from_pod pod in
        let resolved = resolve_images ext.parse_reference r chosen.0 [] images chosen.1 in
        let quiet =
          ExtendsBy-trans (choose_resolver-IsQuiet server ext r r.resolver pod s)
            (resolve_images-IsQuiet ext.parse_reference r chosen.0 [] images chosen.1) in
        after_resolve-warranted resolved.0 resolved.1 (quiet_keeps h quiet)
          (Memᴰ-ExtendsBy read quiet)
          λ out e.
            let (rest, same_list, all) =
              resolve_images-AllResolved ext.parse_reference r chosen.0 [] images out chosen.1 e in
            subst (λ l. AllResolved ext.parse_reference r images l resolved.1.calls) (sym same_list)
              all

    by_images-warranted :
        (images : List ImageRef) (s : Session W)
        → images ≡ extract_from_pod pod
        → IsWarrantedHistory s.calls
        → Memᴰ (pod_read key (ok pod)) s.calls
        → IsWarrantedHistory (by_images server ext r pod images s).1.calls
    unfolding by_images
    by_images-warranted [] s e h read =
        release-warranted none s h read (inr (subst (All (IsCleared pod s.calls)) e tt))
    by_images-warranted (img ∷ images) s e h read =
        subst (λ l. IsWarrantedHistory (scan_images server ext r pod l s).1.calls) (sym e)
          (scan_images-warranted s h read)

    gate_pod-warranted :
        (s : Session W)
        → IsWarrantedHistory s.calls
        → Memᴰ (pod_read key (ok pod)) s.calls
        → IsWarrantedHistory (gate_pod server ext r pod s).1.calls
    unfolding gate_pod
    gate_pod-warranted s h read = elim (Bool-cases (has_scheduling_gate pod scheduling_gate_name)) [
      | inr absent ↦ rw (absent, gate_pod) h
      | inl present ↦ elim (Bool-cases (is_bypassed pod)) [
        | inl bypass ↦
            rw (present, gate_pod, bypass)
              (release-warranted (some scan_bypassed) s h read
                (inl (is_bypassed-AsksForBypass pod bypass)))
        | inr plain ↦
            rw (present, gate_pod, plain) (by_images-warranted (extract_from_pod pod) s refl h read)
      ]
    ]

  -- However the server, the resolver and the registries behave, a reconcile keeps this true of the
  -- history: every pod written back is a pod read before in a namespace in scope, less the gate,
  -- and it asked for the bypass or each of its images was resolved to a digest for which a scan in
  -- the phase Registered was read before the write.
  pub reconcile-IsWarrantedHistory :
      (key : NamespacedName) (s : Session W)
      → IsWarrantedHistory s.calls
      → IsWarrantedHistory (reconcile server ext r key s).1.calls
  unfolding reconcile get_pod
  reconcile-IsWarrantedHistory key s h = elim (Bool-cases (is_namespace_excluded r key.namespace)) [
    | inl out ↦ rw (out, reconcile) h
    | inr inside ↦ elim (Result-cases (get_pod server key s).0) [
      | inl (pod, e) ↦
          rw (inside, reconcile, e)
            (gate_pod-warranted pod key (is_namespace_excluded-InScope key.namespace inside)
              (get_pod server key s).1 (tt, h) (Memᴰ.head (ap (pod_read key) (sym e))))
      | inr (failure, e) ↦ rw (inside, reconcile, e) (tt, h)
    ]
  ]
