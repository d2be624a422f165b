-- ===== src/Cluster/Refusals.antt =====
-- What `PodGateReconciler` does about a digest that the resource ImageScan does not accept.
use aqua_scan_gate.Common.{
  Text, List, [], ◌∷◌, map, true, false, Option, none, some, Result, err, Bool-cases, Result-cases,
  ◌≡◌, refl, sym, ap, ◌∙◌, subst, inl, inr, Memᴰ, All, arith,
}
use aqua_scan_gate.Api.{ImageScan, is_valid_digest}
use aqua_scan_gate.Kube.{Pod, NamespacedName, ApiError, other, Server}
use aqua_scan_gate.Scope.{InScope}
use aqua_scan_gate.ImageRef.{ImageRef, extract_from_pod}
use aqua_scan_gate.Gate.{scheduling_gate_name, is_bypassed, has_scheduling_gate}
use aqua_scan_gate.Session.{Session, get_scan, create_scan, get_pod}
use aqua_scan_gate.ImageScans.{Outcome, done}
use aqua_scan_gate.PodGate.Config.{PodGateReconciler, Progress, no_progress}
use aqua_scan_gate.PodGate.Checking.{
  after_create, new_scan, scan_key, check_answer, check_image, check_images,
}
use aqua_scan_gate.PodGate.Release.{is_namespace_excluded_of_InScope}
use aqua_scan_gate.PodGate.Reconcile.{
  External, choose_resolver, conclude, after_resolve, scan_images, by_images, gate_pod, reconcile,
}
use aqua_scan_gate.PodGate.Wakeups.{pod_key}
use aqua_scan_gate.Cluster.{View, IsApiServer, KeepsCluster, IsSteady, found_or}
use aqua_scan_gate.Cluster.GateReads.{with_digest}
use aqua_scan_gate.Cluster.GateScans.{judge-IsSame, check_images-IsGrown}
use aqua_scan_gate.Cluster.GateRounds.{resolution, resolution-IsSame, reconcile_step}
use aqua_scan_gate.Cluster.PodRounds.{resolved_images, resolution-eq-map}

module _ {W : Type 0} (view : View W) (server : Server W) (up : IsApiServer view server)
    (hash_string : Text → Text) (r : PodGateReconciler W) (pod : Pod) (key : NamespacedName) where
  abbrev IsMissing : W → Type 0
  IsMissing w = view.scan_at key w ≡ none

  -- No digest that fits leads to a scan under the key.
  abbrev pub IsUnfit : ImageRef → Type 0
  IsUnfit img = scan_key hash_string r pod img ≡ key → is_valid_digest img.digest ≡ false

  create-IsMissing :
      (img : ImageRef) (s : Session W)
      → IsUnfit img
      → IsMissing s.world
      → view.scan_at (scan_key hash_string r pod img) s.world ≡ none
      → let scan = new_scan hash_string (scan_key hash_string r pod img) img in
        IsMissing (create_scan server scan s).1.world
  unfolding create_scan new_scan
  create-IsMissing img s unfit missing free =
      let scan = new_scan hash_string (scan_key hash_string r pod img) img in
      elim (Bool-cases (is_valid_digest img.digest)) [
        | inl valid ↦
            let stored = (up.create_scan_new scan s.world valid free).1 in
            stored.1 key (λ same. cc (valid, unfit (sym same))) ∙ missing
        | inr invalid ↦ (up.create_scan_invalid scan s.world invalid free).1.1 key ∙ missing
      ]

  check_answer-IsMissing :
      (img : ImageRef) (p : Progress) (s : Session W) (o : Option ImageScan)
      → IsUnfit img
      → IsMissing s.world
      → view.scan_at (scan_key hash_string r pod img) s.world ≡ o
      → IsMissing (check_answer server hash_string r pod img p (found_or o) s).1.world
  unfolding check_answer
  check_answer-IsMissing img p s none unfit missing free = create-IsMissing img s unfit missing free
  check_answer-IsMissing img p s (some scan) unfit missing held =
      (judge-IsSame view server up hash_string r pod img scan scan.status.phase p s).1 key ∙ missing

  check_image-IsMissing :
      (img : ImageRef) (p : Progress) (s : Session W)
      → IsUnfit img
      → IsMissing s.world
      → IsMissing (check_image server hash_string r pod img p s).1.world
  unfolding check_image get_scan
  check_image-IsMissing img p s unfit missing =
      let own = scan_key hash_string r pod img in
      let got = get_scan server own s in
      let (answer, same) = up.get_scan_lem own s.world in
      subst (λ a. IsMissing (check_answer server hash_string r pod img p a got.1).1.world)
        (sym answer)
        (check_answer-IsMissing img p got.1 (view.scan_at own s.world) unfit (same.1 key ∙ missing)
          (same.1 own))

  -- A round for an image of that key ends in an error.
  check_image_refused :
      (img : ImageRef) (p : Progress) (s : Session W)
      → scan_key hash_string r pod img ≡ key
      → is_valid_digest img.digest ≡ false
      → IsMissing s.world
      → (e : ApiError) × ((check_image server hash_string r pod img p s).0 ≡ err e)
  unfolding check_image check_answer get_scan create_scan new_scan after_create
  check_image_refused img p s own invalid missing =
      let k = scan_key hash_string r pod img in
      let free : view.scan_at k s.world ≡ none = ap (λ j. view.scan_at j s.world) own ∙ missing in
      let (answer, same) = up.get_scan_lem k s.world in
      let got = get_scan server k s in
      let scan = new_scan hash_string k img in
      let ((e, refused), _) = up.create_scan_invalid scan got.1.world invalid (same.1 k ∙ free) in
      (other e, rw (answer, free, refused) refl)

  -- The loop ends in an error, if one of its images has that key and no digest of that key fits.
  pub check_images_refused :
      {img : ImageRef} (images : List ImageRef) (p : Progress) (s : Session W)
      → Memᴰ img images
      → scan_key hash_string r pod img ≡ key
      → All IsUnfit images
      → IsMissing s.world
      → let c = check_images server hash_string r pod images p s in
        ((e : ApiError) × (c.0 ≡ err e)) × IsMissing c.1.world
  unfolding check_images
  check_images_refused [] p s m own unfit missing = elim m [ ]
  check_images_refused {img} (x ∷ images) p s m own (unfit, rest) missing =
      let c = check_image server hash_string r pod x p s in
      let still = check_image-IsMissing x p s unfit missing in
      elim (Result-cases c.0) [
        | inr (failure, e) ↦ rw (e, check_images) ((failure, refl), still)
        | inl (p', e) ↦ elim m [
          | Memᴰ.head same ↦
              let here : scan_key hash_string r pod x ≡ key =
                ap (λ i. scan_key hash_string r pod i) (sym same) ∙ own in
              let (failure, f) = check_image_refused x p s here (unfit here) missing in
              absurd (ground (arith))
          | Memᴰ.tail later ↦
              rw (e, check_images) (check_images_refused images p' c.1 later own rest still)
        ]
      ]

module _ {W K : Type 0} (view : View W) (server : Server W) (up : IsApiServer view server)
    (r : PodGateReconciler W) (ext : External W K)
    (keeps : (pod : Pod) (s : Session W)
      → KeepsCluster view (choose_resolver server ext r.resolver pod s).0)
    (pod : Pod) (gated : has_scheduling_gate pod scheduling_gate_name ≡ true)
    (digest_of : ImageRef → Text)
    (steady : (s : Session W) → IsSteady digest_of (choose_resolver server ext r.resolver pod s).0)
    (img : ImageRef) where
  abbrev key_of : NamespacedName
  key_of = scan_key ext.hash_string r pod img

  abbrev pub NoneFits : List ImageRef → Type 0
  NoneFits images = All (IsUnfit view server up ext.hash_string r pod key_of) images

  -- The reconcile ends in an error; the server holds the pod as it was, and still no scan of the image.
  abbrev pub IsRefused : Outcome × Session W → Type 0
  IsRefused t =
      ((e : ApiError) × (t.0 ≡ (done, some e)))
      × (view.pod_at (pod_key pod) t.1.world ≡ some pod)
      × (view.scan_at key_of t.1.world ≡ none)

  conclude-IsRefused :
      (answer : Result ApiError Progress) (s : Session W) (e : ApiError)
      → answer ≡ err e
      → view.pod_at (pod_key pod) s.world ≡ some pod
      → view.scan_at key_of s.world ≡ none
      → IsRefused (conclude server r pod answer s)
  unfolding conclude
  conclude-IsRefused answer s e failed held missing =
      rw (failed, conclude) ((e, refl), held, missing)

  after_resolve-IsRefused :
      (images : List ImageRef) (s : Session W)
      → view.pod_at (pod_key pod) s.world ≡ some pod
      → view.scan_at key_of s.world ≡ none
      → Memᴰ img images
      → NoneFits images
      → IsRefused (after_resolve server ext r pod (some images) s)
  unfolding after_resolve
  after_resolve-IsRefused images s held missing m unfit =
      let checked = check_images server ext.hash_string r pod images no_progress s in
      let grown = check_images-IsGrown view server up ext.hash_string r pod images no_progress s in
      let ((e, failed), still) =
        check_images_refused view server up ext.hash_string r pod key_of images no_progress s m refl
          unfit missing in
      conclude-IsRefused checked.0 checked.1 e failed (grown.0 (pod_key pod) ∙ held) still

  scan_images-IsRefused :
      (images : List ImageRef) (s : Session W)
      → view.pod_at (pod_key pod) s.world ≡ some pod
      → view.scan_at key_of s.world ≡ none
      → Memᴰ img (map (with_digest digest_of ext.parse_reference r) images)
      → NoneFits (map (with_digest digest_of ext.parse_reference r) images)
      → IsRefused (scan_images server ext r pod images s)
  unfolding scan_images
  scan_images-IsRefused images s held missing m unfit =
      let resolved = resolution view server up r ext keeps pod images s in
      let same = resolution-IsSame view server up r ext keeps pod images s in
      subst (λ answer. IsRefused (after_resolve server ext r pod answer resolved.1))
        (sym (resolution-eq-map view server up r ext keeps pod gated digest_of steady images s))
        (after_resolve-IsRefused (map (with_digest digest_of ext.parse_reference r) images)
          resolved.1 (same.0 (pod_key pod) ∙ held) (same.1 key_of ∙ missing) m unfit)

  by_images-IsRefused :
      (images : List ImageRef) (s : Session W)
      → view.pod_at (pod_key pod) s.world ≡ some pod
      → view.scan_at key_of s.world ≡ none
      → Memᴰ img (map (with_digest digest_of ext.parse_reference r) images)
      → NoneFits (map (with_digest digest_of ext.parse_reference r) images)
      → IsRefused (by_images server ext r pod images s)
  unfolding by_images
  by_images-IsRefused [] s held missing m unfit = elim m [ ]
  by_images-IsRefused (x ∷ images) s held missing m unfit =
      scan_images-IsRefused (x ∷ images) s held missing m unfit

  -- Let the server be up, let the resolvers leave the cluster alone and find the same digest for an image
  -- each time, and let the server hold a gated pod in scope that asks for no bypass, one of whose images has
  -- no scan yet. If neither that image nor any other of the pod whose scan would have the same name has a
  -- digest of the form that ImageScan asks for, a reconcile of the pod ends in an error, and the server
  -- holds the pod as it was, with its gate, and still no scan for that image.
  pub reconcile-IsRefused :
      (s : Session W)
      → InScope r.included_namespaces r.excluded_namespaces pod.namespace
      → view.pod_at (pod_key pod) s.world ≡ some pod
      → is_bypassed pod ≡ false
      → Memᴰ img (resolved_images view server up r ext keeps pod gated digest_of steady)
      → NoneFits (resolved_images view server up r ext keeps pod gated digest_of steady)
      → view.scan_at key_of s.world ≡ none
      → IsRefused (reconcile server ext r (pod_key pod) s)
  unfolding gate_pod get_pod
  reconcile-IsRefused s scope held plain m unfit missing =
      let inside = is_namespace_excluded_of_InScope r pod.namespace scope in
      let got = get_pod server (pod_key pod) s in
      let read = (up.get_pod_lem (pod_key pod) s.world).1 in
      subst IsRefused
        (sym (reconcile_step view server up r ext keeps (pod_key pod) pod s inside held))
        (rw (gated, plain, gate_pod)
          (by_images-IsRefused (extract_from_pod pod) got.1 (read.0 (pod_key pod) ∙ held)
            (read.1 key_of ∙ missing) m unfit))
