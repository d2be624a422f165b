-- ===== src/Tests/Memory.antt =====
-- An API server in memory, which keeps to the laws of one: the latest version of an object counts.
use aqua_scan_gate.Common.{
  ℕ, Text, codes, List, [], ◌∷◌, Bool, true, false, not, ◌&&◌, Bool-cases, Option, none, some, ok,
  err, ◌==◌, eq_iff, eq_refl, if◌then◌else◌, ◌≡◌, ◌≢◌, refl, sym, inl, inr, arith,
}
use aqua_scan_gate.Api.{ImageScan, is_valid_digest}
use aqua_scan_gate.Kube.{Pod, NamespacedName, ApiError, not_found, already_exists, other, Server}
use aqua_scan_gate.PodGate.Wakeups.{pod_key}
use aqua_scan_gate.Cluster.{View, IsApiServer, IsSame, IsPodStored, IsScanStored, found_or, scan_id}

unfoldable pub same_key : NamespacedName → NamespacedName → Bool
unfolding ◌==◌
same_key a b = a.namespace == b.namespace && a.name == b.name

same_key_refl : (a : NamespacedName) → same_key a a ≡ true
unfolding same_key
same_key_refl a = ground (arith, eq_refl a.namespace, eq_refl a.name)

same_key_sound : (a b : NamespacedName) → same_key a b ≡ true → a ≡ b
unfolding same_key
same_key_sound a b h = ground (arith, eq_iff a.namespace b.namespace, eq_iff a.name b.name)

module _ {A : Type 0} (id_of : A → NamespacedName) where
  unfoldable pub find : NamespacedName → List A → Option A
  unfolding same_key
  find k [] = none
  find k (a ∷ rest) = let later = find k rest in if same_key (id_of a) k then some a else later

  find_named : (k : NamespacedName) (l : List A) (a : A) → find k l ≡ some a → id_of a ≡ k
  unfolding find
  find_named k [] a h = cc
  find_named k (b ∷ rest) a h = elim (Bool-cases (same_key (id_of b) k)) [
    | inl e ↦ ground (arith, same_key_sound (id_of b) k)
    | inr e ↦ find_named k rest a (ground arith)
  ]

  find_head : (a : A) (l : List A) → find (id_of a) (a ∷ l) ≡ some a
  unfolding find
  find_head a l = rw (same_key_refl (id_of a)) refl

  find_tail : (a : A) (l : List A) (k : NamespacedName) → k ≢ id_of a → find k (a ∷ l) ≡ find k l
  unfolding find
  find_tail a l k differs = elim (Bool-cases (same_key (id_of a) k)) [
    | inl e ↦ absurd (differs (sym (same_key_sound (id_of a) k e)))
    | inr e ↦ rw e refl
  ]

-- The last number is how often Aqua will still answer that it does not know an image.
pub record Memory : Type 0 where
  pub pods : List Pod
  pub scans : List ImageScan
  pub unknown_left : ℕ

abbrev pub view : View Memory
view = record { pod_at = λ k w. find pod_key k w.pods; scan_at = λ k w. find scan_id k w.scans }

unfoldable pub update_pod : Pod → Memory → Option ApiError × Memory
update_pod pod w = elim (find pod_key (pod_key pod) w.pods) [
  | none ↦ (some not_found, w)
  | some old ↦ (none, record w { pods = pod ∷ w.pods })
]

unfoldable pub create_scan : ImageScan → Memory → Option ApiError × Memory
create_scan scan w =
    if not (is_valid_digest scan.spec.digest)
    then (some (other (codes "Invalid value")), w)
    else elim (find scan_id (scan_id scan) w.scans) [
      | none ↦ (none, record w { scans = scan ∷ w.scans })
      | some old ↦ (some already_exists, w)
    ]

unfoldable pub update_status : ImageScan → Memory → Option ApiError × Memory
update_status scan w = elim (find scan_id (scan_id scan) w.scans) [
  | none ↦ (some not_found, w)
  | some old ↦ (none, record w { scans = record old { status = scan.status } ∷ w.scans })
]

abbrev pub memory_server : Server Memory
memory_server = record {
  get_pod = λ k w. (found_or (view.pod_at k w), w);
  update_pod = update_pod;
  list_gated_pods = λ gate w. (ok w.pods, w);
  get_scan = λ k w. (found_or (view.scan_at k w), w);
  create_scan = create_scan;
  update_status = update_status;
  get_service_account = λ k w. (err not_found, w);
  get_secret = λ k w. (err not_found, w);
}

unchanged : (w : Memory) → IsSame view w w
unchanged w = (λ k. refl, λ k. refl)

scan_put :
    (scan : ImageScan) (w : Memory) → IsScanStored view scan w (record w { scans = scan ∷ w.scans })
scan_put scan w = (find_head scan_id scan w.scans, find_tail scan_id scan w.scans, λ k. refl)

update_pod-IsPodStored :
    (pod old : Pod) (w : Memory)
    → view.pod_at (pod_key pod) w ≡ some old
    → IsPodStored view pod w (update_pod pod w).1
unfolding update_pod
update_pod-IsPodStored pod old w held =
    rw (held, update_pod) (find_head pod_key pod w.pods, find_tail pod_key pod w.pods, λ k. refl)

create_scan_new :
    (scan : ImageScan) (w : Memory)
    → is_valid_digest scan.spec.digest ≡ true
    → view.scan_at (scan_id scan) w ≡ none
    → ((create_scan scan w).0 ≡ none) × IsScanStored view scan w (create_scan scan w).1
unfolding create_scan
create_scan_new scan w valid missing = rw (valid, missing, create_scan) (refl, scan_put scan w)

create_scan_invalid :
    (scan : ImageScan) (w : Memory)
    → is_valid_digest scan.spec.digest ≡ false
    → view.scan_at (scan_id scan) w ≡ none
    → ((e : Text) × ((create_scan scan w).0 ≡ some (other e)))
      × IsSame view w (create_scan scan w).1
unfolding create_scan
create_scan_invalid scan w invalid missing = rw (invalid, create_scan) ((_, refl), unchanged w)

update_status-IsScanStored :
    (scan old : ImageScan) (w : Memory)
    → view.scan_at (scan_id scan) w ≡ some old
    → IsScanStored view (record old { status = scan.status }) w (update_status scan w).1
unfolding update_status
update_status-IsScanStored scan old w held =
    rw (held, update_status) (scan_put (record old { status = scan.status }) w)

pub memory_server-IsApiServer : IsApiServer view memory_server
memory_server-IsApiServer = record {
  pod_named = λ k w. find_named pod_key k w.pods;
  scan_named = λ k w. find_named scan_id k w.scans;
  get_pod_lem = λ k w. (refl, unchanged w);
  get_scan_lem = λ k w. (refl, unchanged w);
  list_lem = λ gate w. unchanged w;
  get_service_account_lem = λ k w. unchanged w;
  get_secret_lem = λ k w. unchanged w;
  update_pod_lem = update_pod-IsPodStored;
  create_scan_new = create_scan_new;
  create_scan_invalid = create_scan_invalid;
  update_status_lem = update_status-IsScanStored;
}
