-- ===== src/Cluster/Runs.antt =====
-- Runs of the two controllers on a cluster that others may change too, as long as they spare one pod and
-- its scans; and the service that a scan gets within a run.
use aqua_scan_gate.Common.{ℕ, Text, Option, none, some, ◌≡◌, ◌≢◌, refl, subst, sym}
use aqua_scan_gate.Api.{ImageScan, ScanPhase}
use aqua_scan_gate.Kube.{Pod, NamespacedName, Server}
use aqua_scan_gate.Aqua.{Client}
use aqua_scan_gate.Session.{Session, list_gated_pods}
use aqua_scan_gate.ImageScans
use aqua_scan_gate.PodGate.Config.{PodGateReconciler}
use aqua_scan_gate.PodGate.Reconcile
use aqua_scan_gate.PodGate.Reconcile.{External, choose_resolver}
use aqua_scan_gate.PodGate.Wakeups.{map_by_phase, map_image_scan_to_pods}
use aqua_scan_gate.Cluster.{View, IsSame, IsApiServer, IsAnswering, KeepsCluster}
use aqua_scan_gate.Cluster.Evolution.{
  Advances, Advances-trans, Ungates, Ungates-trans, Evolves, IsSame-Evolves, some_of_Advances,
  HasScan, IsRegisteredAt,
}
use aqua_scan_gate.Cluster.ScanEffects
use aqua_scan_gate.Cluster.ScanEffects.{IsKnown, reconcile-Registered}
use aqua_scan_gate.Cluster.GateReads.{IsSame-refl}
use aqua_scan_gate.Cluster.GateRounds

module _ {W : Type 0} (view : View W) (server : Server W) (up : IsApiServer view server) where
  map_by_phase-IsSame :
      (hash_string : Text → Text) (r : PodGateReconciler W) (scan : ImageScan) (phase : ScanPhase)
      → (s : Session W)
      → IsSame view s.world (map_by_phase hash_string server r scan phase s).1.world
  unfolding map_by_phase list_gated_pods
  map_by_phase-IsSame hash_string r scan ScanPhase.unset s = IsSame-refl view s.world
  map_by_phase-IsSame hash_string r scan ScanPhase.pending s = IsSame-refl view s.world
  map_by_phase-IsSame hash_string r scan ScanPhase.registered s = up.list_lem _ s.world
  map_by_phase-IsSame hash_string r scan ScanPhase.error s = up.list_lem _ s.world

  map_image_scan_to_pods-Evolves :
      (hash_string : Text → Text) (r : PodGateReconciler W) (scan : ImageScan) (s : Session W)
      → Evolves view s.world (map_image_scan_to_pods hash_string server r scan s).1.world
  unfolding map_image_scan_to_pods
  map_image_scan_to_pods-Evolves hash_string r scan s =
      IsSame-Evolves view (map_by_phase-IsSame hash_string r scan scan.status.phase s)

module _ {W : Type 0} (view : View W) (name : NamespacedName)
    (IsWatched : NamespacedName → Type 0) where
  -- Of the pod of that name at most the gate has gone, and no watched scan has gone, newly failed or lost
  -- its registration. Anything else may have happened.
  pub record Spares (w w' : W) : Type 0 where
    pub pod : Ungates (view.pod_at name w) (view.pod_at name w')
    pub scans : (k : NamespacedName) → IsWatched k → Advances (view.scan_at k w) (view.scan_at k w')

  pub Evolves-Spares : {w w' : W} → Evolves view w w' → Spares w w'
  Evolves-Spares e = record { pod = e.pods name; scans = λ k _. e.scans k }

  Spares-refl : {w : W} → Spares w w
  Spares-refl {w} = Evolves-Spares (IsSame-Evolves view (IsSame-refl view w))

  pub Spares-trans : {w v u : W} → Spares w v → Spares v u → Spares w u
  Spares-trans h k = record {
    pod = Ungates-trans _ _ _ h.pod k.pod;
    scans = λ key watched. Advances-trans _ _ _ (h.scans key watched) (k.scans key watched);
  }

  pub HasScan-Spares :
      {k : NamespacedName} {w w' : W}
      → IsWatched k
      → HasScan view k w
      → Spares w w'
      → HasScan view k w'
  HasScan-Spares {k} {w} {w'} watched (scan, held) spares =
      let (later, there, _) =
        some_of_Advances scan (view.scan_at k w')
          (subst (λ o. Advances o (view.scan_at k w')) held (spares.scans k watched)) in
      (later, there)

  pub IsRegisteredAt-Spares :
      {k : NamespacedName} {w w' : W}
      → IsWatched k
      → IsRegisteredAt view k w
      → Spares w w'
      → IsRegisteredAt view k w'
  IsRegisteredAt-Spares {k} {w} {w'} watched (scan, held, phase) spares =
      let (later, there, advances) =
        some_of_Advances scan (view.scan_at k w')
          (subst (λ o. Advances o (view.scan_at k w')) held (spares.scans k watched)) in
      (later, there, advances.0 phase)

  -- The scan, if it is there, has not failed.
  abbrev pub IsUnfailedAt : NamespacedName → W → Type 0
  IsUnfailedAt k w =
      (scan : ImageScan) → view.scan_at k w ≡ some scan → scan.status.phase ≢ ScanPhase.error

  unfailed_later :
      (o : Option ImageScan) (b : ImageScan)
      → ((a : ImageScan) → o ≡ some a → a.status.phase ≢ ScanPhase.error)
      → Advances o (some b)
      → b.status.phase ≢ ScanPhase.error
  unfailed_later none b h later = later
  unfailed_later (some a) b h later = λ e. h a refl (later.1 e)

  pub IsUnfailedAt-Spares :
      {k : NamespacedName} {w w' : W}
      → IsWatched k
      → IsUnfailedAt k w
      → Spares w w'
      → IsUnfailedAt k w'
  IsUnfailedAt-Spares {k} {w} watched h spares b there =
      unfailed_later (view.scan_at k w) b h
        (subst (Advances (view.scan_at k w)) there (spares.scans k watched))

  module _ {K : Type 0} (server : Server W) (up : IsApiServer view server) (r : PodGateReconciler W)
      (ext : External W K)
      (keeps : (pod : Pod) (s : Session W)
        → KeepsCluster view (choose_resolver server ext r.resolver pod s).0)
      (aqua : Client W) (answering : IsAnswering view aqua) (clock : W → ℕ) where
    pub data Move : Session W → Session W → Type 0 where
      gate_reconcile :
          {s : Session W} (key : NamespacedName) → Move s (Reconcile.reconcile server ext r key s).1
      scan_reconcile :
          {s : Session W} (key : NamespacedName)
          → Move s (ImageScans.reconcile server aqua clock key s).1
      scan_event :
          {s : Session W} (scan : ImageScan)
          → Move s (map_image_scan_to_pods ext.hash_string server r scan s).1
      elsewhere : {s : Session W} (w : W) → Spares s.world w → Move s (record s { world = w })

    Move-Spares : {s t : Session W} → Move s t → Spares s.world t.world
    Move-Spares {s} (gate_reconcile key) =
        Evolves-Spares (GateRounds.reconcile-Evolves view server up r ext keeps key s)
    Move-Spares {s} (scan_reconcile key) =
        Evolves-Spares (ScanEffects.reconcile-Evolves view server up aqua answering clock key s)
    Move-Spares {s} (scan_event scan) =
        Evolves-Spares (map_image_scan_to_pods-Evolves view server up ext.hash_string r scan s)
    Move-Spares (elsewhere w spares) = spares

    pub data Run (s : Session W) : Session W → Type 0 where
      stay : Run s s
      go : {t u : Session W} → Run s t → Move t u → Run s u

    pub Run-Spares : {s t : Session W} → Run s t → Spares s.world t.world
    Run-Spares stay = Spares-refl
    Run-Spares (go run move) = Spares-trans (Run-Spares run) (Move-Spares move)

    -- Somewhere in the run from s to t the scan is reconciled, and if it is there then, Aqua answers that
    -- it knows the image.
    pub record IsServed (k : NamespacedName) (s t : Session W) : Type 0 where
      pub at : Session W
      pub before : Run s at
      pub known :
          (scan : ImageScan)
          → view.scan_at k at.world ≡ some scan
          → IsKnown view server up aqua answering clock scan at
      pub afterwards : Run (ImageScans.reconcile server aqua clock k at).1 t

    -- A scan that is there, has not failed and is served in the run ends up registered.
    pub IsServed-IsRegisteredAt :
        {k : NamespacedName} {s t : Session W}
        → IsWatched k
        → HasScan view k s.world
        → IsUnfailedAt k s.world
        → IsServed k s t
        → IsRegisteredAt view k t.world
    IsServed-IsRegisteredAt {k} watched there unfailed served =
        let spares = Run-Spares served.before in
        let (scan, held) = HasScan-Spares watched there spares in
        let sound = IsUnfailedAt-Spares watched unfailed spares scan held in
        let named = up.scan_named k served.at.world scan held in
        let registered : IsRegisteredAt view k
            (ImageScans.reconcile server aqua clock k served.at).1.world =
          subst
            (λ key.
              IsRegisteredAt view key
                (ImageScans.reconcile server aqua clock key served.at).1.world)
            named
            (reconcile-Registered view server up aqua answering clock scan served.at
              (subst (λ key. view.scan_at key served.at.world ≡ some scan) (sym named) held) sound
              (served.known scan held)) in
        IsRegisteredAt-Spares watched registered (Run-Spares served.afterwards)
