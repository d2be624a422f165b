-- ===== src/Cluster/GateRounds.antt =====
-- A reconcile of `PodGateReconciler` on a cluster is a step of the cluster's evolution.
use aqua_scan_gate.Common.{
  List, [], ◌∷◌, false, Option, none, some, Result, ok, err, Option-cases, Bool-cases, ◌≡◌, sym, ap,
  ◌∙◌, subst, inl, inr,
}
use aqua_scan_gate.Kube.{Pod, NamespacedName, ApiError, Server}
use aqua_scan_gate.ImageRef.{ImageRef, extract_from_pod}
use aqua_scan_gate.Gate.{scheduling_gate_name, is_bypassed, has_scheduling_gate}
use aqua_scan_gate.Session.{Session, scan_bypassed, get_pod}
use aqua_scan_gate.PodGate.Config.{PodGateReconciler, is_namespace_excluded}
use aqua_scan_gate.PodGate.Resolution.{resolve_images}
use aqua_scan_gate.PodGate.Reconcile.{
  External, choose_resolver, scan_images, by_images, gate_pod, reconcile,
}
use aqua_scan_gate.ImageScans.{Outcome, done, ignore_not_found}
use aqua_scan_gate.PodGate.Wakeups.{pod_key}
use aqua_scan_gate.Cluster.{View, IsSame, IsApiServer, found_or, KeepsCluster}
use aqua_scan_gate.Cluster.Evolution.{Evolves, IsSame-Evolves, Evolves-trans, IsSame-trans}
use aqua_scan_gate.Cluster.GateReads.{IsSame-refl, choose_resolver-IsSame, resolve_images-IsSame}
use aqua_scan_gate.Cluster.GateEffects.{IsHeld, release-IsUngatedAt, after_resolve-Evolves}

module _ {W K : Type 0} (view : View W) (server : Server W) (up : IsApiServer view server)
    (r : PodGateReconciler W) (ext : External W K)
    (keeps : (pod : Pod) (s : Session W)
      → KeepsCluster view (choose_resolver server ext r.resolver pod s).0) where
  -- the session after the digests were resolved
  abbrev pub resolution : Pod → List ImageRef → Session W → Option (List ImageRef) × Session W
  resolution pod images s =
      let chosen = choose_resolver server ext r.resolver pod s in
      resolve_images ext.parse_reference r chosen.0 [] images chosen.1

  pub resolution-IsSame :
      (pod : Pod) (images : List ImageRef) (s : Session W)
      → IsSame view s.world (resolution pod images s).1.world
  resolution-IsSame pod images s =
      let chosen = choose_resolver server ext r.resolver pod s in
      IsSame-trans view (choose_resolver-IsSame view server up ext r.resolver pod s)
        (resolve_images-IsSame view ext.parse_reference r chosen.0 (keeps pod s) images [] chosen.1)

  scan_images-Evolves :
      (pod : Pod) (images : List ImageRef) (s : Session W)
      → IsHeld view server up r pod s.world
      → Evolves view s.world (scan_images server ext r pod images s).1.world
  unfolding scan_images
  scan_images-Evolves pod images s held =
      let resolved = resolution pod images s in
      let same = resolution-IsSame pod images s in
      Evolves-trans view (IsSame-Evolves view same) (
        after_resolve-Evolves view server up r ext pod resolved.0 resolved.1
          (same.0 (pod_key pod) ∙ held))

  by_images-Evolves :
      (pod : Pod) (images : List ImageRef) (s : Session W)
      → IsHeld view server up r pod s.world
      → Evolves view s.world (by_images server ext r pod images s).1.world
  unfolding by_images
  by_images-Evolves pod [] s held = (release-IsUngatedAt view server up r pod none s held).0
  by_images-Evolves pod (img ∷ images) s held = scan_images-Evolves pod (img ∷ images) s held

  gate_pod-Evolves :
      (pod : Pod) (s : Session W)
      → IsHeld view server up r pod s.world
      → Evolves view s.world (gate_pod server ext r pod s).1.world
  unfolding gate_pod
  gate_pod-Evolves pod s held = elim (Bool-cases (has_scheduling_gate pod scheduling_gate_name)) [
    | inr ungated ↦ rw (ungated, gate_pod) (IsSame-Evolves view (IsSame-refl view s.world))
    | inl gated ↦ elim (Bool-cases (is_bypassed pod)) [
      | inl bypass ↦
          rw (gated, bypass, gate_pod)
            (release-IsUngatedAt view server up r pod (some scan_bypassed) s held).0
      | inr plain ↦
          rw (gated, plain, gate_pod) (by_images-Evolves pod (extract_from_pod pod) s held)
    ]
  ]

  pub get_pod-IsHeld :
      (key : NamespacedName) (pod : Pod) (s : Session W)
      → view.pod_at key s.world ≡ some pod
      → IsHeld view server up r pod (get_pod server key s).1.world
  unfolding get_pod
  get_pod-IsHeld key pod s held =
      (up.get_pod_lem key s.world).1.0 (pod_key pod)
      ∙ (ap (λ k. view.pod_at k s.world) (up.pod_named key s.world pod held) ∙ held)

  abbrev answered : NamespacedName → Session W → Result ApiError Pod → Outcome × Session W
  answered key s answer = elim answer [
    | err e ↦ ((done, ignore_not_found e), (get_pod server key s).1)
    | ok pod ↦ gate_pod server ext r pod (get_pod server key s).1
  ]

  -- In scope, a reconcile of a pod that the server holds goes on with that pod.
  pub reconcile_step :
      (key : NamespacedName) (pod : Pod) (s : Session W)
      → is_namespace_excluded r key.namespace ≡ false
      → view.pod_at key s.world ≡ some pod
      → reconcile server ext r key s ≡ gate_pod server ext r pod (get_pod server key s).1
  unfolding reconcile get_pod
  reconcile_step key pod s inside held =
      let answer : (get_pod server key s).0 ≡ ok pod =
        (up.get_pod_lem key s.world).0 ∙ ap found_or held in
      rw (inside, reconcile) (ap (answered key s) answer)

  -- On a server that is up, with resolvers that leave the cluster alone, a reconcile of any key takes
  -- nothing away from the cluster but gates: every pod is as it was or is the same pod without the gate of
  -- the scan, every scan is still there, one that was registered is registered, and none newly fails.
  pub reconcile-Evolves :
      (key : NamespacedName) (s : Session W)
      → Evolves view s.world (reconcile server ext r key s).1.world
  unfolding reconcile get_pod
  reconcile-Evolves key s = elim (Bool-cases (is_namespace_excluded r key.namespace)) [
    | inl out ↦ rw (out, reconcile) (IsSame-Evolves view (IsSame-refl view s.world))
    | inr inside ↦
        let read = up.get_pod_lem key s.world in
        elim (Option-cases (view.pod_at key s.world)) [
          | inl missing ↦ rw (inside, read.0, missing, reconcile) (IsSame-Evolves view read.1)
          | inr (pod, held) ↦
              subst (λ (t : Outcome × Session W). Evolves view s.world t.1.world)
                (sym (reconcile_step key pod s inside held))
                (Evolves-trans view (IsSame-Evolves view read.1)
                  (gate_pod-Evolves pod (get_pod server key s).1 (get_pod-IsHeld key pod s held)))
        ]
  ]
