-- ===== src/Cluster/GateEffects.antt =====
-- What a reconcile of `PodGateReconciler` does to the cluster, step by step.
use aqua_scan_gate.Common.{
  Text, List, [], ◌∷◌, Option, none, some, Result, ok, err, Bool-cases, ◌≡◌, ◌∙◌, inl, inr, All,
  All-imp,
}
use aqua_scan_gate.Kube.{Pod, ApiError, Server}
use aqua_scan_gate.ImageRef.{ImageRef}
use aqua_scan_gate.Gate.{remove_scheduling_gate}
use aqua_scan_gate.Session.{Session, Event, scan_passed, update_pod}
use aqua_scan_gate.PodGate.Config.{PodGateReconciler, Progress, no_progress}
use aqua_scan_gate.PodGate.Checking.{scan_key, check_images}
use aqua_scan_gate.PodGate.Reconcile.{
  External, after_update, record_pending, release, conclude, after_resolve,
}
use aqua_scan_gate.PodGate.Wakeups.{pod_key}
use aqua_scan_gate.Cluster.{View, IsSame, IsApiServer, AllValid}
use aqua_scan_gate.Cluster.Evolution.{
  ungate, Evolves, IsSame-Evolves, Evolves-trans, HasScan, HasScan-Evolves, IsRegisteredAt,
  IsRegisteredAt-Evolves,
}
use aqua_scan_gate.Cluster.Writes.{IsPodStored-Evolves}
use aqua_scan_gate.Cluster.GateReads.{IsSame-refl, record_event-IsSame}
use aqua_scan_gate.Cluster.GateScans.{
  check_images-HasScan, check_images-IsGrown, check_images_registered,
}

module _ {W : Type 0} (view : View W) (server : Server W) (up : IsApiServer view server)
    (r : PodGateReconciler W) where
  abbrev pub IsHeld : Pod → W → Type 0
  IsHeld pod w = view.pod_at (pod_key pod) w ≡ some pod

  abbrev pub IsUngatedAt : Pod → W → Type 0
  IsUngatedAt pod w = view.pod_at (pod_key pod) w ≡ some (ungate pod)

  after_update-IsSame :
      (event : Option Event) (answer : Option ApiError) (s : Session W)
      → IsSame view s.world (after_update r event answer s).1.world
  unfolding after_update
  after_update-IsSame event (some e) s = IsSame-refl view s.world
  after_update-IsSame none none s = IsSame-refl view s.world
  after_update-IsSame (some event) none s = record_event-IsSame view r.recorder event s

  record_pending-IsSame :
      (images : List Text) (s : Session W) → IsSame view s.world (record_pending r images s).world
  unfolding record_pending
  record_pending-IsSame [] s = IsSame-refl view s.world
  record_pending-IsSame (image ∷ images) s = record_event-IsSame view r.recorder _ s

  pub release-IsUngatedAt :
      (pod : Pod) (event : Option Event) (s : Session W)
      → IsHeld pod s.world
      → let t = (release server r pod event s).1 in
        Evolves view s.world t.world × IsUngatedAt pod t.world
  unfolding release update_pod remove_scheduling_gate
  release-IsUngatedAt pod event s held =
      let stored = up.update_pod_lem (ungate pod) pod s.world held in
      let u = update_pod server (ungate pod) s in
      let same = after_update-IsSame event u.0 u.1 in
      (
        Evolves-trans view (IsPodStored-Evolves view pod held stored) (IsSame-Evolves view same),
        same.0 (pod_key pod) ∙ stored.0,
      )

  conclude-Evolves :
      (pod : Pod) (answer : Result ApiError Progress) (s : Session W)
      → IsHeld pod s.world
      → Evolves view s.world (conclude server r pod answer s).1.world
  unfolding conclude
  conclude-Evolves pod (err e) s held = IsSame-Evolves view (IsSame-refl view s.world)
  conclude-Evolves pod (ok p) s held = elim (Bool-cases p.all_passed) [
    | inl e ↦ rw (e, conclude) (release-IsUngatedAt pod (some scan_passed) s held).0
    | inr e ↦ rw (e, conclude) (IsSame-Evolves view (record_pending-IsSame p.pending_images s))
  ]

  conclude-IsUngatedAt :
      (pod : Pod) (answer : Result ApiError Progress) (s : Session W)
      → IsHeld pod s.world
      → answer ≡ ok no_progress
      → IsUngatedAt pod (conclude server r pod answer s).1.world
  unfolding conclude
  conclude-IsUngatedAt pod answer s held e =
      rw (e, conclude) (release-IsUngatedAt pod (some scan_passed) s held).1

  module _ {K : Type 0} (ext : External W K) where
    abbrev pub HasScans : Pod → List ImageRef → W → Type 0
    HasScans pod images w = All (λ img. HasScan view (scan_key ext.hash_string r pod img) w) images

    abbrev pub AllRegisteredAt : Pod → List ImageRef → W → Type 0
    AllRegisteredAt pod images w =
        All (λ img. IsRegisteredAt view (scan_key ext.hash_string r pod img) w) images

    HasScans-Evolves :
        (pod : Pod) (images : List ImageRef) {w w' : W}
        → HasScans pod images w
        → Evolves view w w'
        → HasScans pod images w'
    HasScans-Evolves pod images h evolves =
        All-imp images
          (λ img (scan, held).
            let (later, there, _) =
              HasScan-Evolves view (scan_key ext.hash_string r pod img) scan held evolves in
            (later, there))
          h

    pub AllRegisteredAt-Evolves :
        (pod : Pod) (images : List ImageRef) {w w' : W}
        → AllRegisteredAt pod images w
        → Evolves view w w'
        → AllRegisteredAt pod images w'
    AllRegisteredAt-Evolves pod images h evolves =
        All-imp images (λ img known. IsRegisteredAt-Evolves view known evolves) h

    pub after_resolve-HasScans :
        (pod : Pod) (images : List ImageRef) (s : Session W)
        → IsHeld pod s.world
        → AllValid images
        → let t = (after_resolve server ext r pod (some images) s).1 in
          Evolves view s.world t.world × HasScans pod images t.world
    unfolding after_resolve
    after_resolve-HasScans pod images s held valid =
        let checked = check_images server ext.hash_string r pod images no_progress s in
        let (_, _, all, grown) =
          check_images-HasScan view server up ext.hash_string r pod images no_progress s valid in
        let concluded = conclude-Evolves pod checked.0 checked.1 (grown.0 (pod_key pod) ∙ held) in
        (Evolves-trans view grown.1 concluded, HasScans-Evolves pod images all concluded)

    pub after_resolve-Evolves :
        (pod : Pod) (answer : Option (List ImageRef)) (s : Session W)
        → IsHeld pod s.world
        → Evolves view s.world (after_resolve server ext r pod answer s).1.world
    unfolding after_resolve
    after_resolve-Evolves pod none s held = IsSame-Evolves view (IsSame-refl view s.world)
    after_resolve-Evolves pod (some images) s held =
        let checked = check_images server ext.hash_string r pod images no_progress s in
        let grown =
          check_images-IsGrown view server up ext.hash_string r pod images no_progress s in
        Evolves-trans view grown.1
          (conclude-Evolves pod checked.0 checked.1 (grown.0 (pod_key pod) ∙ held))

    pub after_resolve-IsUngatedAt :
        (pod : Pod) (images : List ImageRef) (s : Session W)
        → IsHeld pod s.world
        → AllRegisteredAt pod images s.world
        → IsUngatedAt pod (after_resolve server ext r pod (some images) s).1.world
    unfolding after_resolve
    after_resolve-IsUngatedAt pod images s held registered =
        let grown =
          check_images-IsGrown view server up ext.hash_string r pod images no_progress s in
        conclude-IsUngatedAt pod _
          (check_images server ext.hash_string r pod images no_progress s).1
          (grown.0 (pod_key pod) ∙ held)
          (check_images_registered view server up ext.hash_string r pod images no_progress s
            registered)
