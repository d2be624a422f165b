-- ===== src/System/Calls.antt =====
-- The calls that each controller of internal/controller leaves to the other.
use aqua_scan_gate.Common.{
  ℕ, Text, List, [], ◌∷◌, Option, none, some, Result, ok, err, Bool-cases, Result-cases, inl, inr,
}
use aqua_scan_gate.Api.{ImageScan, ScanPhase}
use aqua_scan_gate.Kube.{Pod, NamespacedName, ApiError, Server}
use aqua_scan_gate.ImageRef.{ImageRef, extract_from_pod}
use aqua_scan_gate.Gate.{scheduling_gate_name, is_bypassed, has_scheduling_gate}
use aqua_scan_gate.Aqua.{ScanStatus, Client}
use aqua_scan_gate.Session.{
  Session, Call, Event, pod_updated, status_updated, scan_triggered, get_pod, update_pod, get_scan,
  get_scan_result, trigger_scan, list_gated_pods, scan_bypassed, scan_passed,
}
use aqua_scan_gate.Session.Trace.{ExtendsBy, same, more, ExtendsBy-trans, ExtendsBy-imp}
use aqua_scan_gate.ImageScans
use aqua_scan_gate.PodGate.Config.{PodGateReconciler, is_namespace_excluded, Progress, no_progress}
use aqua_scan_gate.PodGate.Resolution.{resolve_images}
use aqua_scan_gate.PodGate.Checking.{check_images}
use aqua_scan_gate.PodGate.Clearance.{IsQuiet, check_images-IsQuiet}
use aqua_scan_gate.PodGate.Digests.{resolve_images-IsQuiet}
use aqua_scan_gate.PodGate.Wakeups.{map_by_phase, map_image_scan_to_pods}
use aqua_scan_gate.PodGate.Reconcile.{
  External, release, conclude, choose_resolver, after_resolve, scan_images, by_images, gate_pod,
  reconcile,
}
use aqua_scan_gate.PodGate.Quiet.{
  after_update-IsQuiet, record_pending-IsQuiet, choose_resolver-IsQuiet,
}

-- A call that writes no pod.
abbrev pub IsScanCall : Call → Type 0
IsScanCall (pod_updated pod answer) = ⊥
IsScanCall _ = Unit

-- A call that writes no status and triggers no scan.
abbrev pub IsGateCall : Call → Type 0
IsGateCall (status_updated scan answer) = ⊥
IsGateCall (scan_triggered image digest answer) = ⊥
IsGateCall _ = Unit

quiet_IsGateCall : (c : Call) → IsQuiet c → IsGateCall c
quiet_IsGateCall (status_updated scan answer) q = q
quiet_IsGateCall (scan_triggered image digest answer) q = q
quiet_IsGateCall (pod_updated pod answer) q = tt
quiet_IsGateCall _ q = tt

pub quiet_IsScanCall : (c : Call) → IsQuiet c → IsScanCall c
quiet_IsScanCall (status_updated scan answer) q = tt
quiet_IsScanCall (scan_triggered image digest answer) q = tt
quiet_IsScanCall (pod_updated pod answer) q = q
quiet_IsScanCall _ q = tt

pub quietly : {cs ds : List Call} → ExtendsBy IsQuiet cs ds → ExtendsBy IsGateCall cs ds
quietly = ExtendsBy-imp quiet_IsGateCall

module _ {W : Type 0} (server : Server W) (aqua : Client W) (clock : W → ℕ) where
  start_scan-IsScanCall :
      (scan : ImageScan) (s : Session W)
      → ExtendsBy IsScanCall s.calls (ImageScans.start_scan server aqua clock scan s).1.calls
  unfolding ImageScans.start_scan
  start_scan-IsScanCall scan s =
      elim (Result-cases (trigger_scan aqua scan.spec.image scan.spec.digest s).0) [
        | inl (scan_id, e) ↦ rw (e, ImageScans.start_scan) (more tt (more tt same))
        | inr (message, e) ↦ rw (e, ImageScans.start_scan) (more tt (more tt same))
      ]

  by_status-IsScanCall :
      (scan : ImageScan) (status : ScanStatus) (s : Session W)
      → ExtendsBy IsScanCall s.calls (ImageScans.by_status server aqua clock scan status s).1.calls
  unfolding ImageScans.by_status ImageScans.after_found
  by_status-IsScanCall scan ScanStatus.not_found s = start_scan-IsScanCall scan s
  by_status-IsScanCall scan ScanStatus.found s = more tt same
  by_status-IsScanCall scan (ScanStatus.other text) s = same

  check_aqua-IsScanCall :
      (scan : ImageScan) (s : Session W)
      → ExtendsBy IsScanCall s.calls (ImageScans.check_aqua server aqua clock scan s).1.calls
  unfolding ImageScans.check_aqua
  check_aqua-IsScanCall scan s =
      let r = get_scan_result aqua scan.spec.image scan.spec.digest s in
      elim (Result-cases r.0) [
        | inl (result, e) ↦
            rw (e, ImageScans.check_aqua)
              (ExtendsBy-trans (more tt same) (by_status-IsScanCall scan result.status r.1))
        | inr (message, e) ↦ rw (e, ImageScans.check_aqua) (more tt (more tt same))
      ]

  by_phase-IsScanCall :
      (phase : ScanPhase) (scan : ImageScan) (s : Session W)
      → ExtendsBy IsScanCall s.calls (ImageScans.by_phase server aqua clock phase scan s).1.calls
  unfolding ImageScans.by_phase
  by_phase-IsScanCall ScanPhase.error scan s = same
  by_phase-IsScanCall ScanPhase.registered scan s = same
  by_phase-IsScanCall ScanPhase.pending scan s = check_aqua-IsScanCall scan s
  by_phase-IsScanCall ScanPhase.unset scan s = check_aqua-IsScanCall scan s

  pub scan_reconcile-IsScanCall :
      (key : NamespacedName) (s : Session W)
      → ExtendsBy IsScanCall s.calls (ImageScans.reconcile server aqua clock key s).1.calls
  unfolding ImageScans.reconcile
  scan_reconcile-IsScanCall key s =
      let r = get_scan server key s in
      elim (Result-cases r.0) [
        | inl (scan, e) ↦
            rw (e, ImageScans.reconcile)
              (ExtendsBy-trans (more tt same) (by_phase-IsScanCall scan.status.phase scan r.1))
        | inr (failure, e) ↦ rw (e, ImageScans.reconcile) (more tt same)
      ]

module _ {W K : Type 0} (server : Server W) (ext : External W K) (r : PodGateReconciler W) where
  release-IsGateCall :
      (pod : Pod) (event : Option Event) (s : Session W)
      → ExtendsBy IsGateCall s.calls (release server r pod event s).1.calls
  unfolding release update_pod
  release-IsGateCall pod event s =
      ExtendsBy-trans (more tt same) (quietly (after_update-IsQuiet r event _ _))

  conclude-IsGateCall :
      (pod : Pod) (answer : Result ApiError Progress) (s : Session W)
      → ExtendsBy IsGateCall s.calls (conclude server r pod answer s).1.calls
  unfolding conclude
  conclude-IsGateCall pod (err e) s = same
  conclude-IsGateCall pod (ok p) s = elim (Bool-cases p.all_passed) [
    | inl e ↦ rw (e, conclude) (release-IsGateCall pod (some scan_passed) s)
    | inr e ↦ rw (e, conclude) (quietly (record_pending-IsQuiet r p.pending_images s))
  ]

  after_resolve-IsGateCall :
      (pod : Pod) (answer : Option (List ImageRef)) (s : Session W)
      → ExtendsBy IsGateCall s.calls (after_resolve server ext r pod answer s).1.calls
  unfolding after_resolve
  after_resolve-IsGateCall pod none s = same
  after_resolve-IsGateCall pod (some images) s =
      let checked = check_images server ext.hash_string r pod images no_progress s in
      ExtendsBy-trans
        (quietly (check_images-IsQuiet server ext.hash_string r pod images no_progress s))
        (conclude-IsGateCall pod checked.0 checked.1)

  by_images-IsGateCall :
      (pod : Pod) (images : List ImageRef) (s : Session W)
      → ExtendsBy IsGateCall s.calls (by_images server ext r pod images s).1.calls
  unfolding by_images scan_images
  by_images-IsGateCall pod [] s = release-IsGateCall pod none s
  by_images-IsGateCall pod (img ∷ rest) s =
      let images = img ∷ rest in
      let chosen = choose_resolver server ext r.resolver pod s in
      let resolved = resolve_images ext.parse_reference r chosen.0 [] images chosen.1 in
      ExtendsBy-trans
        (quietly (
          ExtendsBy-trans (choose_resolver-IsQuiet server ext r r.resolver pod s)
            (resolve_images-IsQuiet ext.parse_reference r chosen.0 [] images chosen.1)))
        (after_resolve-IsGateCall pod resolved.0 resolved.1)

  gate_pod-IsGateCall :
      (pod : Pod) (s : Session W)
      → ExtendsBy IsGateCall s.calls (gate_pod server ext r pod s).1.calls
  unfolding gate_pod
  gate_pod-IsGateCall pod s = elim (Bool-cases (has_scheduling_gate pod scheduling_gate_name)) [
    | inr absent ↦ rw (absent, gate_pod) same
    | inl present ↦ elim (Bool-cases (is_bypassed pod)) [
      | inl bypass ↦ rw (present, gate_pod, bypass) (release-IsGateCall pod (some scan_bypassed) s)
      | inr plain ↦
          rw (present, gate_pod, plain) (by_images-IsGateCall pod (extract_from_pod pod) s)
    ]
  ]

  pub gate_reconcile-IsGateCall :
      (key : NamespacedName) (s : Session W)
      → ExtendsBy IsGateCall s.calls (reconcile server ext r key s).1.calls
  unfolding reconcile get_pod
  gate_reconcile-IsGateCall key s = elim (Bool-cases (is_namespace_excluded r key.namespace)) [
    | inl out ↦ rw (out, reconcile) same
    | inr inside ↦ elim (Result-cases (get_pod server key s).0) [
      | inl (pod, e) ↦
          rw (inside, reconcile, e)
            (ExtendsBy-trans (more tt same) (gate_pod-IsGateCall pod (get_pod server key s).1))
      | inr (failure, e) ↦ rw (inside, reconcile, e) (more tt same)
    ]
  ]

module _ {W : Type 0} (hash_string : Text → Text) (server : Server W) (r : PodGateReconciler W)
    (scan : ImageScan) where
  map_by_phase-IsQuiet :
      (phase : ScanPhase) (s : Session W)
      → ExtendsBy IsQuiet s.calls (map_by_phase hash_string server r scan phase s).1.calls
  unfolding map_by_phase list_gated_pods
  map_by_phase-IsQuiet ScanPhase.unset s = same
  map_by_phase-IsQuiet ScanPhase.pending s = same
  map_by_phase-IsQuiet ScanPhase.registered s = more tt same
  map_by_phase-IsQuiet ScanPhase.error s = more tt same

  pub map_image_scan_to_pods-IsQuiet :
      (s : Session W)
      → ExtendsBy IsQuiet s.calls (map_image_scan_to_pods hash_string server r scan s).1.calls
  unfolding map_image_scan_to_pods
  map_image_scan_to_pods-IsQuiet s = map_by_phase-IsQuiet scan.status.phase s
