-- ===== src/PodGate/Release.antt =====
-- Progress of `PodGateReconciler`: where every registry and every scan answers well, a reconcile takes
-- the gate off.
use aqua_scan_gate.Common.{
  Text, List, [], ◌∷◌, true, false, Option, none, some, Result, ok, Bool-cases, ◌==◌, ◌≡◌, refl, ap,
  inl, inr, Memᴰ, arith,
}
use aqua_scan_gate.Scope.{InScope}
use aqua_scan_gate.Api.{ImageScan, ScanPhase}
use aqua_scan_gate.Kube.{Pod, NamespacedName, ApiError, Server}
use aqua_scan_gate.ImageRef.{ImageRef, Reference, extract_from_pod}
use aqua_scan_gate.Gate.{
  scheduling_gate_name, has_scheduling_gate, is_bypassed, remove_scheduling_gate,
}
use aqua_scan_gate.Session.{
  Session, Event, Call, pod_updated, Resolver, get_pod, get_scan, update_pod, resolve_image_ref,
  scan_passed, scan_bypassed,
}
use aqua_scan_gate.Session.Trace.{Memᴰ-ExtendsBy}
use aqua_scan_gate.PodGate.Config.{PodGateReconciler, is_namespace_excluded, Progress, no_progress}
use aqua_scan_gate.PodGate.Resolution.{
  apply_mirrors_to_image_ref, use_answer, resolve_image, resolve_images,
}
use aqua_scan_gate.PodGate.Checking.{judge, scan_key, check_answer, check_image, check_images}
use aqua_scan_gate.PodGate.Reconcile.{
  External, release, conclude, choose_resolver, after_resolve, scan_images, by_images, gate_pod,
  reconcile,
}
use aqua_scan_gate.PodGate.Quiet.{after_update-IsQuiet}

module _ {W : Type 0} where
  -- The resolver finds a digest for every reference.
  abbrev pub AlwaysResolves : Resolver W → Type 0
  AlwaysResolves resolver =
      (img : ImageRef) (w : W)
      → (found : ImageRef) × ((resolver.resolve_image_ref img w).0 ≡ ok found)

  -- Every scan is there, in the phase Registered.
  abbrev pub AlwaysRegistered : Server W → Type 0
  AlwaysRegistered server =
      (key : NamespacedName) (w : W)
      → (scan : ImageScan) × ((server.get_scan key w).0 ≡ ok scan)
        × (scan.status.phase ≡ ScanPhase.registered)

-- The pod has been written without the gate.
abbrev pub IsReleased : Pod → List Call → Type 0
IsReleased pod cs =
    (answer : Option ApiError) × Memᴰ
      (pod_updated (remove_scheduling_gate pod scheduling_gate_name) answer) cs

module _ {W : Type 0} (parse_reference : Text → Option Reference) (r : PodGateReconciler W)
    (resolver : Resolver W) (resolves : AlwaysResolves resolver) where
  resolve_image_found :
      (img : ImageRef) (s : Session W)
      → (img' : ImageRef) × ((resolve_image parse_reference r resolver img s).0 ≡ some img')
  unfolding resolve_image use_answer resolve_image_ref
  resolve_image_found img s = elim (Bool-cases (img.digest == [])) [
    | inl e ↦
        let mirrored_img = apply_mirrors_to_image_ref parse_reference r.registry_mirrors img in
        let (found, f) = resolves mirrored_img s.world in
        let img' : ImageRef = record { image = img.image; digest = found.digest } in
        (img', rw (e, f, resolve_image) refl)
    | inr e ↦ rw (e, resolve_image) (img, refl)
  ]

  resolve_images_found :
      (images resolved : List ImageRef) (s : Session W)
      → (images' : List ImageRef) × ((resolve_images parse_reference r resolver resolved images s).0
          ≡ some images')
  unfolding resolve_images
  resolve_images_found [] resolved s = (resolved, refl)
  resolve_images_found (img ∷ images) resolved s =
      let (img', e) = resolve_image_found img s in
      rw (e, resolve_images) (resolve_images_found images _ _)

module _ {W : Type 0} (r : PodGateReconciler W) where
  pub judge_registered :
      (img : ImageRef) (scan : ImageScan) (phase : ScanPhase) (p : Progress) (s : Session W)
      → phase ≡ ScanPhase.registered
      → judge r img scan phase p s ≡ (p, s)
  unfolding judge
  judge_registered img scan ScanPhase.registered p s e = refl
  judge_registered img scan ScanPhase.error p s e = absurd (ground arith)
  judge_registered img scan ScanPhase.pending p s e = absurd (ground arith)
  judge_registered img scan ScanPhase.unset p s e = absurd (ground arith)

module _ {W : Type 0} (server : Server W) (hash_string : Text → Text) (r : PodGateReconciler W)
    (pod : Pod) (registered : AlwaysRegistered server) where
  check_image_registered :
      (img : ImageRef) (p : Progress) (s : Session W)
      → (check_image server hash_string r pod img p s).0 ≡ ok p
  unfolding check_image check_answer get_scan
  check_image_registered img p s =
      let (scan, e, phase) = registered (scan_key hash_string r pod img) s.world in
      rw (e, check_image)
        (ap (λ j. ok j.0) (judge_registered r img scan scan.status.phase p _ phase))

  check_images_registered :
      (images : List ImageRef) (p : Progress) (s : Session W)
      → (check_images server hash_string r pod images p s).0 ≡ ok p
  unfolding check_images
  check_images_registered [] p s = refl
  check_images_registered (img ∷ images) p s =
      rw (check_image_registered img p s, check_images) (check_images_registered images p _)

  release-IsReleased :
      (event : Option Event) (s : Session W) → IsReleased pod (release server r pod event s).1.calls
  unfolding release update_pod
  release-IsReleased event s =
      let u = update_pod server (remove_scheduling_gate pod scheduling_gate_name) s in
      (u.0, Memᴰ-ExtendsBy (Memᴰ.head refl) (after_update-IsQuiet r event u.0 u.1))

  conclude-IsReleased :
      (checked : Result ApiError Progress) (s : Session W)
      → checked ≡ ok no_progress
      → IsReleased pod (conclude server r pod checked s).1.calls
  unfolding conclude
  conclude-IsReleased checked s e = rw (e, conclude) (release-IsReleased (some scan_passed) s)

pub is_namespace_excluded_of_InScope :
    {W : Type 0} (r : PodGateReconciler W) (ns : Text)
    → InScope r.included_namespaces r.excluded_namespaces ns
    → is_namespace_excluded r ns ≡ false
unfolding is_namespace_excluded
is_namespace_excluded_of_InScope r ns h = ground arith

module _ {W K : Type 0} (server : Server W) (ext : External W K) (r : PodGateReconciler W)
    (registered : AlwaysRegistered server) where
  scan_images-IsReleased :
      (pod : Pod) (images : List ImageRef) (s : Session W)
      → AlwaysResolves (choose_resolver server ext r.resolver pod s).0
      → IsReleased pod (scan_images server ext r pod images s).1.calls
  unfolding scan_images after_resolve
  scan_images-IsReleased pod images s resolves =
      let chosen = choose_resolver server ext r.resolver pod s in
      let (images', e) =
        resolve_images_found ext.parse_reference r chosen.0 resolves images [] chosen.1 in
      rw (e, scan_images, after_resolve)
        (conclude-IsReleased server ext.hash_string r pod registered _ _
          (check_images_registered server ext.hash_string r pod registered images' no_progress _))

  by_images-IsReleased :
      (pod : Pod) (images : List ImageRef) (s : Session W)
      → AlwaysResolves (choose_resolver server ext r.resolver pod s).0
      → IsReleased pod (by_images server ext r pod images s).1.calls
  unfolding by_images
  by_images-IsReleased pod [] s resolves =
      release-IsReleased server ext.hash_string r pod registered none s
  by_images-IsReleased pod (img ∷ images) s resolves =
      scan_images-IsReleased pod (img ∷ images) s resolves

  gate_pod-IsReleased :
      (pod : Pod) (s : Session W)
      → has_scheduling_gate pod scheduling_gate_name ≡ true
      → AlwaysResolves (choose_resolver server ext r.resolver pod s).0
      → IsReleased pod (gate_pod server ext r pod s).1.calls
  unfolding gate_pod
  gate_pod-IsReleased pod s gated resolves = elim (Bool-cases (is_bypassed pod)) [
    | inl e ↦
        rw (gated, e, gate_pod)
          (release-IsReleased server ext.hash_string r pod registered (some scan_bypassed) s)
    | inr e ↦ rw (gated, e, gate_pod) (by_images-IsReleased pod (extract_from_pod pod) s resolves)
  ]

  -- Where every scan is read in the phase Registered and the pod's resolver always finds a digest, a
  -- reconcile of a gated pod in scope, if the pod can be read, writes it back without the gate.
  pub reconcile-IsReleased :
      (key : NamespacedName) (pod : Pod) (s : Session W)
      → InScope r.included_namespaces r.excluded_namespaces key.namespace
      → (server.get_pod key s.world).0 ≡ ok pod
      → has_scheduling_gate pod scheduling_gate_name ≡ true
      → AlwaysResolves (choose_resolver server ext r.resolver pod (get_pod server key s).1).0
      → IsReleased pod (reconcile server ext r key s).1.calls
  unfolding reconcile get_pod
  reconcile-IsReleased key pod s scope read gated resolves =
      let inside = is_namespace_excluded_of_InScope r key.namespace scope in
      rw (inside, read, reconcile) (gate_pod-IsReleased pod (get_pod server key s).1 gated resolves)
