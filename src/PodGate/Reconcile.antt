-- ===== src/PodGate/Reconcile.antt =====
-- `PodGateReconciler.Reconcile` of internal/controller/pod_gate_controller.go around its two
-- loops.
use aqua_scan_gate.Common.{
  Text, List, [], ◌∷◌, ◌*◌, not, Option, none, some, Result, ok, err, if◌then◌else◌,
}
use aqua_scan_gate.Kube.{Pod, NamespacedName, ApiError, Server}
use aqua_scan_gate.ImageRef.{ImageRef, Reference, extract_from_pod}
use aqua_scan_gate.Gate.{
  scheduling_gate_name, is_bypassed, has_scheduling_gate, remove_scheduling_gate,
}
use aqua_scan_gate.Session.{
  Session, Event, scan_bypassed, scan_passed, scan_pending, Resolver, record_event, get_pod,
  update_pod,
}
use aqua_scan_gate.PullSecrets.{Keychains, NamedKeychain, build_resolver_for_pod}
use aqua_scan_gate.Backoff.{second}
use aqua_scan_gate.ImageScans.{Outcome, done, retry_after, ignore_not_found}
use aqua_scan_gate.PodGate.Config.{PodGateReconciler, is_namespace_excluded, Progress, no_progress}
use aqua_scan_gate.PodGate.Resolution.{resolve_images}
use aqua_scan_gate.PodGate.Checking.{check_images}

module _ {W : Type 0} where
  -- what follows the answer to `r.Update`
  unfoldable pub after_update :
      PodGateReconciler W → Option Event → Option ApiError → Session W → Outcome × Session W
  after_update r event (some e) s = ((done, some e), s)
  after_update r none none s = ((done, none), s)
  after_update r (some event) none s = ((done, none), record_event r.recorder event s)

  -- `len(pendingImages) > 0 && r.Recorder != nil`
  unfoldable pub record_pending : PodGateReconciler W → List Text → Session W → Session W
  record_pending r [] s = s
  record_pending r (image ∷ images) s = record_event r.recorder (scan_pending (image ∷ images)) s

module _ {W : Type 0} (server : Server W) where
  -- The gate is taken off, the pod written back, and the event recorded if that succeeds.
  unfoldable pub release :
      PodGateReconciler W → Pod → Option Event → Session W → Outcome × Session W
  release r pod event s =
      let u = update_pod server (remove_scheduling_gate pod scheduling_gate_name) s in
      after_update r event u.0 u.1

  -- the end of the reconcile, after the loop over the images
  unfoldable pub conclude :
      PodGateReconciler W → Pod → Result ApiError Progress → Session W → Outcome × Session W
  conclude r pod (err e) s = ((done, some e), s)
  conclude r pod (ok p) s =
      if p.all_passed
      then release r pod (some scan_passed) s
      else ((done, none), record_pending r p.pending_images s)

-- The code of other packages that a reconcile runs.
pub record External (W K : Type 0) : Type 0 where
  pub hash_string : Text → Text
  pub parse_reference : Text → Option Reference
  pub range_order : List Text → List Text
  pub keychains : Keychains K
  pub new_resolver : List (NamedKeychain K) → Resolver W

module _ {W K : Type 0} (server : Server W) (ext : External W K) where
  unfoldable pub choose_resolver : Option (Resolver W) → Pod → Session W → Resolver W × Session W
  choose_resolver (some resolver) pod s = (resolver, s)
  choose_resolver none pod s =
      build_resolver_for_pod server ext.range_order ext.keychains ext.new_resolver pod s

  -- `none` stands for a digest that was not resolved: the pod is tried again after 30 seconds.
  unfoldable pub after_resolve :
      PodGateReconciler W → Pod → Option (List ImageRef) → Session W → Outcome × Session W
  after_resolve r pod none s = ((retry_after (30 * second), none), s)
  after_resolve r pod (some images) s =
      let checked = check_images server ext.hash_string r pod images no_progress s in
      conclude server r pod checked.0 checked.1

  -- from the resolution of the digests on
  unfoldable pub scan_images :
      PodGateReconciler W → Pod → List ImageRef → Session W → Outcome × Session W
  scan_images r pod images s =
      let chosen = choose_resolver r.resolver pod s in
      let resolved = resolve_images ext.parse_reference r chosen.0 [] images chosen.1 in
      after_resolve r pod resolved.0 resolved.1

  -- a gated pod without the bypass; one with no images is released and no event recorded
  unfoldable pub by_images :
      PodGateReconciler W → Pod → List ImageRef → Session W → Outcome × Session W
  by_images r pod [] s = release server r pod none s
  by_images r pod (img ∷ images) s = scan_images r pod (img ∷ images) s

  -- a pod that has been read
  unfoldable pub gate_pod : PodGateReconciler W → Pod → Session W → Outcome × Session W
  gate_pod r pod s =
      if not (has_scheduling_gate pod scheduling_gate_name)
      then ((done, none), s)
      else if is_bypassed pod
      then release server r pod (some scan_bypassed) s
      else by_images r pod (extract_from_pod pod) s

  unfoldable pub reconcile : PodGateReconciler W → NamespacedName → Session W → Outcome × Session W
  reconcile r key s =
      let got = get_pod server key s in
      if is_namespace_excluded r key.namespace then ((done, none), s) else elim got.0 [
        | err e ↦ ((done, ignore_not_found e), got.1)
        | ok pod ↦ gate_pod r pod got.1
      ]
