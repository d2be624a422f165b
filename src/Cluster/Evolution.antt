-- ===== src/Cluster/Evolution.antt =====
-- How the objects of a cluster change: scans come and do not go, a registered one stays registered and
-- none newly fails, and of a pod at most the gate goes.
use aqua_scan_gate.Common.{
  Option, none, some, ◌≡◌, ◌≢◌, refl, sym, ap, ◌∙◌, subst, ◌⊎◌, inl, inr, List, [], ◌∷◌, arith,
  Text,
}
use mathlib.Core.Option
use aqua_scan_gate.Api.{ImageScan, ScanPhase}
use aqua_scan_gate.Kube.{Pod, NamespacedName, SchedulingGate}
use aqua_scan_gate.Gate.{scheduling_gate_name, remove_scheduling_gate, drop_gate}
use aqua_scan_gate.PodGate.Wakeups.{pod_key}
use aqua_scan_gate.Cluster.{View, IsSame}

abbrev pub PhaseAdvances : ScanPhase → ScanPhase → Type 0
PhaseAdvances p q =
    (p ≡ ScanPhase.registered → q ≡ ScanPhase.registered)
    × (q ≡ ScanPhase.error → p ≡ ScanPhase.error)

abbrev pub Advances : Option ImageScan → Option ImageScan → Type 0
Advances none none = Unit
Advances none (some b) = b.status.phase ≢ ScanPhase.error
Advances (some a) none = ⊥
Advances (some a) (some b) = PhaseAdvances a.status.phase b.status.phase

pub Advances-refl : (o : Option ImageScan) → Advances o o
Advances-refl none = tt
Advances-refl (some a) = (λ h. h, λ h. h)

pub Advances-trans : (o p q : Option ImageScan) → Advances o p → Advances p q → Advances o q
Advances-trans none none none h k = tt
Advances-trans none none (some c) h k = k
Advances-trans none (some b) none h k = tt
Advances-trans none (some b) (some c) h k = λ e. h (k.1 e)
Advances-trans (some a) none q h k = absurd h
Advances-trans (some a) (some b) none h k = k
Advances-trans (some a) (some b) (some c) h k = (λ e. k.0 (h.0 e), λ e. h.1 (k.1 e))

pub some_of_Advances :
    (a : ImageScan) (o : Option ImageScan)
    → Advances (some a) o
    → (b : ImageScan) × (o ≡ some b) × Advances (some a) (some b)
some_of_Advances a none h = absurd h
some_of_Advances a (some b) h = (b, refl, h)

abbrev pub ungate : Pod → Pod
ungate pod = remove_scheduling_gate pod scheduling_gate_name

drop_gate-drop_gate :
    (name : Text) (gates : List SchedulingGate)
    → drop_gate name (drop_gate name gates) ≡ drop_gate name gates
unfolding drop_gate
drop_gate-drop_gate name [] = refl
drop_gate-drop_gate name (g ∷ gates) = ground (arith, drop_gate-drop_gate name gates)

pub ungate-ungate : (pod : Pod) → ungate (ungate pod) ≡ ungate pod
unfolding remove_scheduling_gate
ungate-ungate pod =
    ap (λ gates. record pod { spec = record pod.spec { scheduling_gates = gates } })
      (drop_gate-drop_gate scheduling_gate_name pod.spec.scheduling_gates)

pub pod_key-ungate : (pod : Pod) → pod_key (ungate pod) ≡ pod_key pod
unfolding remove_scheduling_gate
pod_key-ungate pod = refl

-- At most the gate of the pod is gone.
abbrev pub Ungates : Option Pod → Option Pod → Type 0
Ungates o o' = (o' ≡ o) ⊎ (o' ≡ Option.map ungate o)

map-ungate-ungate : (o : Option Pod) → Option.map ungate (Option.map ungate o) ≡ Option.map ungate o
map-ungate-ungate none = refl
map-ungate-ungate (some pod) = ap some (ungate-ungate pod)

pub Ungates-trans : (o p q : Option Pod) → Ungates o p → Ungates p q → Ungates o q
Ungates-trans o p q (inl h) (inl k) = inl (k ∙ h)
Ungates-trans o p q (inl h) (inr k) = inr (k ∙ ap (Option.map ungate) h)
Ungates-trans o p q (inr h) (inl k) = inr (k ∙ h)
Ungates-trans o p q (inr h) (inr k) = inr (k ∙ (ap (Option.map ungate) h ∙ map-ungate-ungate o))

pub ungate-Ungates :
    {o : Option Pod} (pod : Pod) → Ungates (some (ungate pod)) o → o ≡ some (ungate pod)
ungate-Ungates pod (inl h) = h
ungate-Ungates pod (inr h) = h ∙ ap some (ungate-ungate pod)

module _ {W : Type 0} (view : View W) where
  pub record Evolves (w w' : W) : Type 0 where
    pub scans : (k : NamespacedName) → Advances (view.scan_at k w) (view.scan_at k w')
    pub pods : (k : NamespacedName) → Ungates (view.pod_at k w) (view.pod_at k w')

  pub IsSame-Evolves : {w w' : W} → IsSame view w w' → Evolves w w'
  IsSame-Evolves {w} (pods, scans) = record {
    scans = λ k. subst (Advances (view.scan_at k w)) (sym (scans k)) (Advances-refl _);
    pods = λ k. inl (pods k);
  }

  pub Evolves-trans : {w v u : W} → Evolves w v → Evolves v u → Evolves w u
  Evolves-trans h k = record {
    scans = λ key. Advances-trans _ _ _ (h.scans key) (k.scans key);
    pods = λ key. Ungates-trans _ _ _ (h.pods key) (k.pods key);
  }

  pub IsSame-trans : {w v u : W} → IsSame view w v → IsSame view v u → IsSame view w u
  IsSame-trans (p, s) (q, t) = (λ k. q k ∙ p k, λ k. t k ∙ s k)

  -- The scan under the key is there, in the phase Registered.
  abbrev pub IsRegisteredAt : NamespacedName → W → Type 0
  IsRegisteredAt k w =
      (scan : ImageScan) × (view.scan_at k w ≡ some scan)
      × (scan.status.phase ≡ ScanPhase.registered)

  abbrev pub HasScan : NamespacedName → W → Type 0
  HasScan k w = (scan : ImageScan) × (view.scan_at k w ≡ some scan)

  -- A scan that is there does not go, and does not fail.
  pub HasScan-Evolves :
      (k : NamespacedName) {w w' : W} (scan : ImageScan)
      → view.scan_at k w ≡ some scan
      → Evolves w w'
      → (later : ImageScan) × (view.scan_at k w' ≡ some later) × Advances (some scan) (some later)
  HasScan-Evolves k {w} {w'} scan e evolves =
      some_of_Advances scan (view.scan_at k w')
        (subst (λ o. Advances o (view.scan_at k w')) e (evolves.scans k))

  pub IsRegisteredAt-Evolves :
      {k : NamespacedName} {w w' : W} → IsRegisteredAt k w → Evolves w w' → IsRegisteredAt k w'
  IsRegisteredAt-Evolves {k} (scan, held, phase) evolves =
      let (later, there, advances) = HasScan-Evolves k scan held evolves in
      (later, there, advances.0 phase)
