-- ===== src/Cluster/PodRounds.antt =====
-- The rounds of one gated pod: what its first reconcile leaves, and what one does when all of its scans are
-- registered.
use aqua_scan_gate.Common.{
  Text, List, [], ◌∷◌, map, true, none, some, Bool-cases, ◌≡◌, refl, sym, ◌∙◌, subst, ◌⊎◌, inl, inr,
}
use aqua_scan_gate.Kube.{Pod, NamespacedName, Server}
use aqua_scan_gate.Scope.{InScope}
use aqua_scan_gate.ImageRef.{ImageRef, extract_from_pod}
use aqua_scan_gate.Gate.{scheduling_gate_name, is_bypassed, has_scheduling_gate}
use aqua_scan_gate.Session.{Session, scan_bypassed, get_pod}
use aqua_scan_gate.PodGate.Config.{PodGateReconciler}
use aqua_scan_gate.PodGate.Reconcile.{
  External, choose_resolver, after_resolve, scan_images, by_images, gate_pod, reconcile,
}
use aqua_scan_gate.ImageScans.{Outcome}
use aqua_scan_gate.PodGate.Release.{is_namespace_excluded_of_InScope}
use aqua_scan_gate.PodGate.Wakeups.{pod_key}
use aqua_scan_gate.Cluster.{View, IsApiServer, KeepsCluster, IsSteady, AllValid}
use aqua_scan_gate.Cluster.Evolution.{IsSame-Evolves}
use aqua_scan_gate.Cluster.GateReads.{with_digest, resolve_images-eq-map}
use aqua_scan_gate.Cluster.GateEffects.{
  IsHeld, IsUngatedAt, HasScans, AllRegisteredAt, AllRegisteredAt-Evolves, release-IsUngatedAt,
  after_resolve-HasScans, after_resolve-IsUngatedAt,
}
use aqua_scan_gate.Cluster.GateRounds.{
  resolution, resolution-IsSame, get_pod-IsHeld, reconcile_step,
}

module _ {W K : Type 0} (view : View W) (server : Server W) (up : IsApiServer view server)
    (r : PodGateReconciler W) (ext : External W K)
    (keeps : (pod : Pod) (s : Session W)
      → KeepsCluster view (choose_resolver server ext r.resolver pod s).0) where
  module _ (pod : Pod) (gated : has_scheduling_gate pod scheduling_gate_name ≡ true)
      (digest_of : ImageRef → Text)
      (steady : (s : Session W)
        → IsSteady digest_of (choose_resolver server ext r.resolver pod s).0) where
    -- The pod's images with their digests.
    abbrev pub resolved_images : List ImageRef
    resolved_images = map (with_digest digest_of ext.parse_reference r) (extract_from_pod pod)

    pub resolution-eq-map :
        (images : List ImageRef) (s : Session W)
        → (resolution view server up r ext keeps pod images s).0
          ≡ some (map (with_digest digest_of ext.parse_reference r) images)
    resolution-eq-map images s =
        let chosen = choose_resolver server ext r.resolver pod s in
        resolve_images-eq-map digest_of ext.parse_reference r chosen.0 (steady s) images [] chosen.1

    -- A gated pod either leaves the gate at once, or each of its images has a scan.
    abbrev pub IsBegun : W → Type 0
    IsBegun w =
        IsUngatedAt view server up r pod w ⊎ HasScans view server up r ext pod resolved_images w

    scan_images-HasScans :
        (images : List ImageRef) (s : Session W)
        → IsHeld view server up r pod s.world
        → AllValid (map (with_digest digest_of ext.parse_reference r) images)
        → HasScans view server up r ext pod
            (map (with_digest digest_of ext.parse_reference r) images)
            (scan_images server ext r pod images s).1.world
    unfolding scan_images
    scan_images-HasScans images s held valid =
        let resolved = resolution view server up r ext keeps pod images s in
        let with_digests = map (with_digest digest_of ext.parse_reference r) images in
        subst
          (λ answer.
            HasScans view server up r ext pod with_digests
              (after_resolve server ext r pod answer resolved.1).1.world)
          (sym (resolution-eq-map images s))
          (after_resolve-HasScans view server up r ext pod with_digests resolved.1
            ((resolution-IsSame view server up r ext keeps pod images s).0 (pod_key pod) ∙ held)
            valid).1

    scan_images-IsUngatedAt :
        (images : List ImageRef) (s : Session W)
        → IsHeld view server up r pod s.world
        → AllRegisteredAt view server up r ext pod
            (map (with_digest digest_of ext.parse_reference r) images)
            s.world
        → IsUngatedAt view server up r pod (scan_images server ext r pod images s).1.world
    unfolding scan_images
    scan_images-IsUngatedAt images s held registered =
        let resolved = resolution view server up r ext keeps pod images s in
        let same = resolution-IsSame view server up r ext keeps pod images s in
        let with_digests = map (with_digest digest_of ext.parse_reference r) images in
        subst
          (λ answer.
            IsUngatedAt view server up r pod
              (after_resolve server ext r pod answer resolved.1).1.world)
          (sym (resolution-eq-map images s))
          (after_resolve-IsUngatedAt view server up r ext pod with_digests resolved.1
            (same.0 (pod_key pod) ∙ held)
            (AllRegisteredAt-Evolves view server up r ext pod with_digests registered
              (IsSame-Evolves view same)))

    by_images-IsBegun :
        (s : Session W)
        → IsHeld view server up r pod s.world
        → AllValid resolved_images
        → (images : List ImageRef) → images ≡ extract_from_pod pod
        → IsBegun (by_images server ext r pod images s).1.world
    unfolding by_images
    by_images-IsBegun s held valid [] e =
        inl (release-IsUngatedAt view server up r pod none s held).1
    by_images-IsBegun s held valid (img ∷ images) e = inr (
        subst
          (λ l.
            HasScans view server up r ext pod (map (with_digest digest_of ext.parse_reference r) l)
              (scan_images server ext r pod (img ∷ images) s).1.world)
          e
          (scan_images-HasScans (img ∷ images) s held (
            subst (λ l. AllValid (map (with_digest digest_of ext.parse_reference r) l)) (sym e)
              valid)))

    gate_pod-IsBegun :
        (s : Session W)
        → IsHeld view server up r pod s.world
        → AllValid resolved_images
        → IsBegun (gate_pod server ext r pod s).1.world
    unfolding gate_pod
    gate_pod-IsBegun s held valid = elim (Bool-cases (is_bypassed pod)) [
      | inl bypass ↦
          rw (gated, bypass, gate_pod)
            (inl (release-IsUngatedAt view server up r pod (some scan_bypassed) s held).1)
      | inr plain ↦
          rw (gated, plain, gate_pod) (by_images-IsBegun s held valid (extract_from_pod pod) refl)
    ]

    -- The first reconcile of a gated pod in scope whose digests fit lets it through or leaves a scan for each image.
    pub reconcile-IsBegun :
        (key : NamespacedName) (s : Session W)
        → InScope r.included_namespaces r.excluded_namespaces key.namespace
        → view.pod_at key s.world ≡ some pod
        → AllValid resolved_images
        → IsBegun (reconcile server ext r key s).1.world
    reconcile-IsBegun key s scope held valid =
        let inside = is_namespace_excluded_of_InScope r key.namespace scope in
        subst (λ (t : Outcome × Session W). IsBegun t.1.world)
          (sym (reconcile_step view server up r ext keeps key pod s inside held))
          (gate_pod-IsBegun (get_pod server key s).1
            (get_pod-IsHeld view server up r ext keeps key pod s held) valid)

    by_images-IsUngatedAt :
        (s : Session W)
        → IsHeld view server up r pod s.world
        → (images : List ImageRef)
        → AllRegisteredAt view server up r ext pod
            (map (with_digest digest_of ext.parse_reference r) images)
            s.world
        → IsUngatedAt view server up r pod (by_images server ext r pod images s).1.world
    unfolding by_images
    by_images-IsUngatedAt s held [] registered =
        (release-IsUngatedAt view server up r pod none s held).1
    by_images-IsUngatedAt s held (img ∷ images) registered =
        scan_images-IsUngatedAt (img ∷ images) s held registered

    gate_pod-IsUngatedAt :
        (s : Session W)
        → IsHeld view server up r pod s.world
        → AllRegisteredAt view server up r ext pod resolved_images s.world
        → IsUngatedAt view server up r pod (gate_pod server ext r pod s).1.world
    unfolding gate_pod
    gate_pod-IsUngatedAt s held registered = elim (Bool-cases (is_bypassed pod)) [
      | inl bypass ↦
          rw (gated, bypass, gate_pod)
            (release-IsUngatedAt view server up r pod (some scan_bypassed) s held).1
      | inr plain ↦
          rw (gated, plain, gate_pod)
            (by_images-IsUngatedAt s held (extract_from_pod pod) registered)
    ]

    -- A reconcile of a gated pod in scope takes the gate off, if the scans of all images are registered.
    pub reconcile-IsUngatedAt :
        (key : NamespacedName) (s : Session W)
        → InScope r.included_namespaces r.excluded_namespaces key.namespace
        → view.pod_at key s.world ≡ some pod
        → AllRegisteredAt view server up r ext pod resolved_images s.world
        → IsUngatedAt view server up r pod (reconcile server ext r key s).1.world
    unfolding get_pod
    reconcile-IsUngatedAt key s scope held registered =
        let inside = is_namespace_excluded_of_InScope r key.namespace scope in
        subst (λ (t : Outcome × Session W). IsUngatedAt view server up r pod t.1.world)
          (sym (reconcile_step view server up r ext keeps key pod s inside held))
          (gate_pod-IsUngatedAt (get_pod server key s).1
            (get_pod-IsHeld view server up r ext keeps key pod s held)
            (AllRegisteredAt-Evolves view server up r ext pod resolved_images registered
              (IsSame-Evolves view (up.get_pod_lem key s.world).1)))
