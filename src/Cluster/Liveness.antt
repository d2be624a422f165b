-- ===== src/Cluster/Liveness.antt =====
-- Progress of the whole program: how a gated pod gets through.
use aqua_scan_gate.Common.{
  ℕ, Text, List, [], ◌∷◌, true, Option, some, ◌≡◌, refl, ◌∙◌, subst, inl, inr, Memᴰ, All, All-mem,
}
use aqua_scan_gate.Kube.{Pod, NamespacedName, Server}
use aqua_scan_gate.Scope.{InScope}
use aqua_scan_gate.ImageRef.{ImageRef}
use aqua_scan_gate.Gate.{scheduling_gate_name, has_scheduling_gate}
use aqua_scan_gate.Aqua.{Client}
use aqua_scan_gate.Session.{Session}
use aqua_scan_gate.PodGate.Config.{PodGateReconciler}
use aqua_scan_gate.PodGate.Checking.{scan_key}
use aqua_scan_gate.PodGate.Reconcile
use aqua_scan_gate.PodGate.Reconcile.{External, choose_resolver}
use aqua_scan_gate.PodGate.Wakeups.{pod_key}
use aqua_scan_gate.Cluster.{View, IsApiServer, IsAnswering, KeepsCluster, IsSteady, AllValid}
use aqua_scan_gate.Cluster.Evolution.{ungate, Ungates, ungate-Ungates}
use aqua_scan_gate.Cluster.GateEffects.{IsUngatedAt, HasScans, AllRegisteredAt}
use aqua_scan_gate.Cluster.GateRounds.{reconcile-Evolves}
use aqua_scan_gate.Cluster.PodRounds.{resolved_images, reconcile-IsBegun, reconcile-IsUngatedAt}
use aqua_scan_gate.Cluster.Runs.{
  Spares, Evolves-Spares, Spares-trans, IsUnfailedAt, IsUnfailedAt-Spares, Run, Run-Spares,
  IsServed, IsServed-IsRegisteredAt,
}

module _ {ℓ κ} {A : Type ℓ} {P : A → Type κ} where
  pub All-tabulate : (xs : List A) → ((x : A) → Memᴰ x xs → P x) → All P xs
  All-tabulate [] h = tt
  All-tabulate (x ∷ xs) h = (h x (Memᴰ.head refl), All-tabulate xs (λ y m. h y (Memᴰ.tail m)))

module _ {W K : Type 0} (view : View W) (server : Server W) (up : IsApiServer view server)
    (r : PodGateReconciler W) (ext : External W K)
    (keeps : (pod : Pod) (s : Session W)
      → KeepsCluster view (choose_resolver server ext r.resolver pod s).0)
    (aqua : Client W) (answering : IsAnswering view aqua) (clock : W → ℕ) (pod : Pod)
    (gated : has_scheduling_gate pod scheduling_gate_name ≡ true) (digest_of : ImageRef → Text)
    (steady : (s : Session W)
      → IsSteady digest_of (choose_resolver server ext r.resolver pod s).0) where
  -- The images of the pod with their digests.
  abbrev pub images_of_pod : List ImageRef
  images_of_pod = resolved_images view server up r ext keeps pod gated digest_of steady

  abbrev pub key_of_scan : ImageRef → NamespacedName
  key_of_scan img = scan_key ext.hash_string r pod img

  -- the scans of the pod's images
  abbrev pub IsOwnScan : NamespacedName → Type 0
  IsOwnScan k = (img : ImageRef) × Memᴰ img images_of_pod × (k ≡ key_of_scan img)

  -- A run in which others spare this pod and its scans.
  abbrev pub OwnRun : Session W → Session W → Type 0
  OwnRun = Run view (pod_key pod) IsOwnScan server up r ext keeps aqua answering clock

  abbrev pub IsOwnServed : Session W → Session W → ImageRef → Type 0
  IsOwnServed s t img =
      IsServed view (pod_key pod) IsOwnScan server up r ext keeps aqua answering clock
        (key_of_scan img) s t

  abbrev pub IsOwnUnfailed : W → ImageRef → Type 0
  IsOwnUnfailed w img = IsUnfailedAt view (pod_key pod) IsOwnScan (key_of_scan img) w

  begun-AllRegisteredAt :
      (s t : Session W)
      → HasScans view server up r ext pod images_of_pod s.world
      → All (IsOwnUnfailed s.world) images_of_pod
      → All (IsOwnServed s t) images_of_pod
      → AllRegisteredAt view server up r ext pod images_of_pod t.world
  begun-AllRegisteredAt s t there unfailed served = All-tabulate images_of_pod λ img m.
      IsServed-IsRegisteredAt view (pod_key pod) IsOwnScan server up r ext keeps aqua answering
        clock (img, m, refl) (All-mem _ images_of_pod there m)
        (All-mem (IsOwnUnfailed s.world) images_of_pod unfailed m)
        (All-mem (IsOwnServed s t) images_of_pod served m)

  -- A reconcile of the pod.
  abbrev pub round : Session W → Session W
  round s = (Reconcile.reconcile server ext r (pod_key pod) s).1

  round-Spares : (s : Session W) → Spares view (pod_key pod) IsOwnScan s.world (round s).world
  round-Spares s =
      Evolves-Spares view (pod_key pod) IsOwnScan
        (reconcile-Evolves view server up r ext keeps (pod_key pod) s)

  -- A pod that has lost its gate keeps being without it.
  ungated_later :
      {w w' : W}
      → IsUngatedAt view server up r pod w
      → Spares view (pod_key pod) IsOwnScan w w'
      → IsUngatedAt view server up r pod w'
  ungated_later {w} {w'} ungated spares =
      ungate-Ungates pod (subst (λ o. Ungates o (view.pod_at (pod_key pod) w')) ungated spares.pod)

  unfailed_images :
      (s : Session W)
      → All (IsOwnUnfailed s.world) images_of_pod
      → All (IsOwnUnfailed (round s).world) images_of_pod
  unfailed_images s h = All-tabulate images_of_pod λ img m.
      IsUnfailedAt-Spares view (pod_key pod) IsOwnScan (img, m, refl)
        (All-mem (IsOwnUnfailed s.world) images_of_pod h m) (round-Spares s)

  last_round :
      (t : Session W) (o : Option Pod)
      → InScope r.included_namespaces r.excluded_namespaces pod.namespace
      → view.pod_at (pod_key pod) t.world ≡ o
      → Ungates (some pod) o
      → AllRegisteredAt view server up r ext pod images_of_pod t.world
      → IsUngatedAt view server up r pod (round t).world
  last_round t o scope e (inr ungated) registered = ungated_later (e ∙ ungated) (round-Spares t)
  last_round t o scope e (inl held) registered =
      reconcile-IsUngatedAt view server up r ext keeps pod gated digest_of steady (pod_key pod) t
        scope (e ∙ held) registered

  -- Let the server be up, Aqua not fail, and the resolvers leave the cluster alone and find the same digest
  -- for an image each time; let the pod be in scope and have the gate, let the digests of its images fit
  -- the pattern of ImageScan, and none of its scans have failed. Reconcile the pod once; let then anything
  -- happen, in any order, in which others at most spare the pod and its scans, and each of its scans is
  -- reconciled once when Aqua knows its image. If the pod is reconciled again after that, the server holds
  -- it without the gate, and otherwise as it was.
  pub reconcile-IsUngated :
      (s t : Session W)
      → InScope r.included_namespaces r.excluded_namespaces pod.namespace
      → view.pod_at (pod_key pod) s.world ≡ some pod
      → AllValid images_of_pod
      → All (IsOwnUnfailed s.world) images_of_pod
      → OwnRun (round s) t
      → All (IsOwnServed (round s) t) images_of_pod
      → view.pod_at (pod_key pod) (round t).world ≡ some (ungate pod)
  reconcile-IsUngated s t scope held valid unfailed run served =
      let spares =
        Run-Spares view (pod_key pod) IsOwnScan server up r ext keeps aqua answering clock run in
      elim (reconcile-IsBegun view server up r ext keeps pod gated digest_of steady (pod_key pod) s
        scope held valid) [
          | inl ungated ↦ ungated_later (ungated_later ungated spares) (round-Spares t)
          | inr there ↦
              let since = Spares-trans view (pod_key pod) IsOwnScan (round-Spares s) spares in
              last_round t (view.pod_at (pod_key pod) t.world) scope refl
                (subst (λ o. Ungates o (view.pod_at (pod_key pod) t.world)) held since.pod)
                (begun-AllRegisteredAt (round s) t there (unfailed_images s unfailed) served)
        ]
