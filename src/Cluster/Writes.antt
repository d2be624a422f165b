-- ===== src/Cluster/Writes.antt =====
-- What the writes of the controllers do to the cluster: each is a step of its evolution.
use native.Mathlib.Decide.{ℕ_discrete}
use mathlib.Core.Option
use aqua_scan_gate.Common.{some, ◌≡◌, sym, ap, ◌∙◌, subst, inl, inr}
use aqua_scan_gate.Api.{ImageScan}
use aqua_scan_gate.Kube.{Pod, NamespacedName}
use aqua_scan_gate.Gate.{remove_scheduling_gate}
use aqua_scan_gate.PodGate.Wakeups.{pod_key}
use aqua_scan_gate.Cluster.{View, IsPodStored, IsScanStored, scan_id}
use aqua_scan_gate.Cluster.Evolution.{Advances, Advances-refl, ungate, Evolves}

NamespacedName-discrete : Discrete NamespacedName
NamespacedName-discrete = hlevel ℕ_discrete

module _ {W : Type 0} (view : View W) where
  -- A pod written without its gate.
  pub IsPodStored-Evolves :
      (pod : Pod) {w w' : W}
      → view.pod_at (pod_key pod) w ≡ some pod
      → IsPodStored view (ungate pod) w w'
      → Evolves view w w'
  unfolding remove_scheduling_gate
  IsPodStored-Evolves pod {w} {w'} held (now, others, scans) = record {
    scans = λ k. subst (Advances (view.scan_at k w)) (sym (scans k)) (Advances-refl _);
    pods = λ k. elim (NamespacedName-discrete k (pod_key pod)) [
      | yes e ↦ inr (
          subst (λ key. view.pod_at key w' ≡ Option.map ungate (view.pod_at key w)) (sym e)
            (now ∙ sym (ap (Option.map ungate) held)))
      | no differs ↦ inl (others k differs)
    ];
  }

  -- A scan written in a later state.
  pub IsScanStored-Evolves :
      (scan : ImageScan) {w w' : W}
      → Advances (view.scan_at (scan_id scan) w) (some scan)
      → IsScanStored view scan w w'
      → Evolves view w w'
  IsScanStored-Evolves scan {w} {w'} later (now, others, pods) = record {
    scans = λ k. elim (NamespacedName-discrete k (scan_id scan)) [
      | yes e ↦
          subst (λ key. Advances (view.scan_at key w) (view.scan_at key w')) (sym e)
            (subst (Advances (view.scan_at (scan_id scan) w)) (sym now) later)
      | no differs ↦ subst (Advances (view.scan_at k w)) (sym (others k differs)) (Advances-refl _)
    ];
    pods = λ k. inl (pods k);
  }
