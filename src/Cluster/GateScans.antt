-- ===== src/Cluster/GateScans.antt =====
-- The loop of `PodGateReconciler` over the scans of a pod's images: it makes the ones that are missing,
-- and passes if all are registered.
use aqua_scan_gate.Common.{
  Text, List, [], ◌∷◌, Option, none, some, Result, ok, ◌≡◌, refl, sym, ap, ◌∙◌, subst, All, All-imp,
  true, Bool-cases, Result-cases, inl, inr, arith,
}
use aqua_scan_gate.Api.{ImageScan, ScanPhase, is_valid_digest}
use aqua_scan_gate.Kube.{Pod, ApiError, Server}
use aqua_scan_gate.ImageRef.{ImageRef}
use aqua_scan_gate.Session.{Session, get_scan, create_scan}
use aqua_scan_gate.PodGate.Config.{PodGateReconciler, Progress, no_progress, add_pending}
use aqua_scan_gate.PodGate.Checking.{
  after_create, judge, new_scan, scan_key, check_answer, check_image, check_images,
}
use aqua_scan_gate.PodGate.Release.{judge_registered}
use aqua_scan_gate.Cluster.{View, IsSame, SamePods, IsApiServer, AllValid, found_or}
use aqua_scan_gate.Cluster.Evolution.{
  Evolves, IsSame-Evolves, Evolves-trans, HasScan, HasScan-Evolves, IsRegisteredAt,
  IsRegisteredAt-Evolves,
}
use aqua_scan_gate.Cluster.Writes.{IsScanStored-Evolves}
use aqua_scan_gate.Cluster.GateReads.{IsSame-refl, record_event-IsSame}

module _ {W : Type 0} (view : View W) where
  -- The scans may have grown in number, the pods are as they were.
  abbrev pub IsGrown : W → W → Type 0
  IsGrown w w' = SamePods view w w' × Evolves view w w'

  IsGrown-trans : {w v u : W} → IsGrown w v → IsGrown v u → IsGrown w u
  IsGrown-trans (p, e) (q, f) = (λ k. q k ∙ p k, Evolves-trans view e f)

  IsSame-IsGrown : {w w' : W} → IsSame view w w' → IsGrown w w'
  IsSame-IsGrown same = (same.0, IsSame-Evolves view same)

  module _ (server : Server W) (up : IsApiServer view server) (hash_string : Text → Text)
      (r : PodGateReconciler W) (pod : Pod) where
    pub judge-IsSame :
        (img : ImageRef) (scan : ImageScan) (phase : ScanPhase) (p : Progress) (s : Session W)
        → IsSame view s.world (judge r img scan phase p s).1.world
    unfolding judge
    judge-IsSame img scan ScanPhase.registered p s = IsSame-refl view s.world
    judge-IsSame img scan ScanPhase.error p s = record_event-IsSame view r.recorder _ s
    judge-IsSame img scan ScanPhase.pending p s = IsSame-refl view s.world
    judge-IsSame img scan ScanPhase.unset p s = IsSame-refl view s.world

    -- What one round of the loop leaves: no error, and the scan of its image.
    abbrev IsChecked : ImageRef → Session W → Result ApiError Progress × Session W → Type 0
    IsChecked img s c =
        (p : Progress) × (c.0 ≡ ok p)
        × HasScan view (scan_key hash_string r pod img) c.1.world
        × IsGrown s.world c.1.world

    create-IsChecked :
        (img : ImageRef) (p : Progress) (s : Session W)
        → is_valid_digest img.digest ≡ true
        → view.scan_at (scan_key hash_string r pod img) s.world ≡ none
        → let made =
            create_scan server (new_scan hash_string (scan_key hash_string r pod img) img) s in
          IsChecked img s (after_create (add_pending p img.image) made.0, made.1)
    unfolding create_scan new_scan after_create
    create-IsChecked img p s valid missing =
        let scan = new_scan hash_string (scan_key hash_string r pod img) img in
        let (answer, stored) = up.create_scan_new scan s.world valid missing in
        (
          add_pending p img.image,
          rw answer refl,
          (scan, stored.0),
          (
            stored.2,
            IsScanStored-Evolves view scan (rw missing (λ e. absurd (ground arith))) stored,
          ),
        )

    check_answer-IsChecked :
        (img : ImageRef) (p : Progress) (s : Session W) (o : Option ImageScan)
        → is_valid_digest img.digest ≡ true
        → view.scan_at (scan_key hash_string r pod img) s.world ≡ o
        → IsChecked img s (check_answer server hash_string r pod img p (found_or o) s)
    unfolding check_answer
    check_answer-IsChecked img p s none valid missing = create-IsChecked img p s valid missing
    check_answer-IsChecked img p s (some scan) valid held =
        let judged = judge r img scan scan.status.phase p s in
        let same = judge-IsSame img scan scan.status.phase p s in
        (
          judged.0,
          refl,
          (scan, same.1 (scan_key hash_string r pod img) ∙ held),
          IsSame-IsGrown same,
        )

    check_image-IsChecked :
        (img : ImageRef) (p : Progress) (s : Session W)
        → is_valid_digest img.digest ≡ true
        → IsChecked img s (check_image server hash_string r pod img p s)
    unfolding check_image get_scan
    check_image-IsChecked img p s valid =
        let key = scan_key hash_string r pod img in
        let got = get_scan server key s in
        let (answer, same) = up.get_scan_lem key s.world in
        let (p', e, there, grown) =
          subst (λ a. IsChecked img got.1 (check_answer server hash_string r pod img p a got.1))
            (sym answer)
            (check_answer-IsChecked img p got.1 (view.scan_at key s.world) valid (same.1 key)) in
        (p', e, there, IsGrown-trans (IsSame-IsGrown same) grown)

    abbrev AllChecked : List ImageRef → Session W → Result ApiError Progress × Session W → Type 0
    AllChecked images s c =
        (p : Progress) × (c.0 ≡ ok p)
        × All (λ img. HasScan view (scan_key hash_string r pod img) c.1.world) images
        × IsGrown s.world c.1.world

    check_images_step :
        (img : ImageRef) (images : List ImageRef) (p p' : Progress) (s : Session W)
        → (check_image server hash_string r pod img p s).0 ≡ ok p'
        → check_images server hash_string r pod (img ∷ images) p s
          ≡ check_images server hash_string r pod images p'
              (check_image server hash_string r pod img p s).1
    unfolding check_images
    check_images_step img images p p' s e = rw (e, check_images) refl

    -- The whole loop over digests that fit: no error, and a scan for each image.
    pub check_images-HasScan :
        (images : List ImageRef) (p : Progress) (s : Session W)
        → AllValid images
        → AllChecked images s (check_images server hash_string r pod images p s)
    unfolding check_images
    check_images-HasScan [] p s valid = (p, refl, tt, IsSame-IsGrown (IsSame-refl view s.world))
    check_images-HasScan (img ∷ images) p s (valid, rest_valid) =
        let c = check_image server hash_string r pod img p s in
        let (p', e, (scan, held), grown) = check_image-IsChecked img p s valid in
        let (p'', f, all, grown') = check_images-HasScan images p' c.1 rest_valid in
        let (later, there, _) =
          HasScan-Evolves view (scan_key hash_string r pod img) scan held grown'.1 in
        subst (AllChecked (img ∷ images) s) (sym (check_images_step img images p p' s e))
          (p'', f, ((later, there), all), IsGrown-trans grown grown')

    -- Whatever the digests are, the loop leaves the pods as they were and takes no scan away.
    create-IsGrown :
        (img : ImageRef) (s : Session W)
        → view.scan_at (scan_key hash_string r pod img) s.world ≡ none
        → let scan = new_scan hash_string (scan_key hash_string r pod img) img in
          IsGrown s.world (create_scan server scan s).1.world
    unfolding create_scan new_scan
    create-IsGrown img s missing = elim (Bool-cases (is_valid_digest img.digest)) [
      | inl valid ↦ let (_, _, _, grown) = create-IsChecked img no_progress s valid missing in grown
      | inr invalid ↦
          let scan = new_scan hash_string (scan_key hash_string r pod img) img in
          IsSame-IsGrown (up.create_scan_invalid scan s.world invalid missing).1
    ]

    check_answer-IsGrown :
        (img : ImageRef) (p : Progress) (s : Session W) (o : Option ImageScan)
        → view.scan_at (scan_key hash_string r pod img) s.world ≡ o
        → IsGrown s.world (check_answer server hash_string r pod img p (found_or o) s).1.world
    unfolding check_answer
    check_answer-IsGrown img p s none missing = create-IsGrown img s missing
    check_answer-IsGrown img p s (some scan) held =
        IsSame-IsGrown (judge-IsSame img scan scan.status.phase p s)

    check_image-IsGrown :
        (img : ImageRef) (p : Progress) (s : Session W)
        → IsGrown s.world (check_image server hash_string r pod img p s).1.world
    unfolding check_image get_scan
    check_image-IsGrown img p s =
        let key = scan_key hash_string r pod img in
        let got = get_scan server key s in
        let (answer, same) = up.get_scan_lem key s.world in
        IsGrown-trans (IsSame-IsGrown same) (
          subst
            (λ a. IsGrown got.1.world (check_answer server hash_string r pod img p a got.1).1.world)
            (sym answer) (check_answer-IsGrown img p got.1 (view.scan_at key s.world) (same.1 key)))

    pub check_images-IsGrown :
        (images : List ImageRef) (p : Progress) (s : Session W)
        → IsGrown s.world (check_images server hash_string r pod images p s).1.world
    unfolding check_images
    check_images-IsGrown [] p s = IsSame-IsGrown (IsSame-refl view s.world)
    check_images-IsGrown (img ∷ images) p s =
        let c = check_image server hash_string r pod img p s in
        let grown = check_image-IsGrown img p s in
        elim (Result-cases c.0) [
          | inl (p', e) ↦
              rw (e, check_images) (IsGrown-trans grown (check_images-IsGrown images p' c.1))
          | inr (failure, e) ↦ rw (e, check_images) grown
        ]

    check_image_registered :
        (img : ImageRef) (p : Progress) (s : Session W)
        → IsRegisteredAt view (scan_key hash_string r pod img) s.world
        → (check_image server hash_string r pod img p s).0 ≡ ok p
    unfolding check_image check_answer get_scan
    check_image_registered img p s (scan, held, phase) =
        let key = scan_key hash_string r pod img in
        let (answer, same) = up.get_scan_lem key s.world in
        rw (answer, held, check_image)
          (ap (λ (j : Progress × Session W). ok j.0)
            (judge_registered r img scan scan.status.phase p _ phase))

    -- If the scans of all images are registered, the loop passes.
    pub check_images_registered :
        (images : List ImageRef) (p : Progress) (s : Session W)
        → All (λ img. IsRegisteredAt view (scan_key hash_string r pod img) s.world) images
        → (check_images server hash_string r pod images p s).0 ≡ ok p
    unfolding check_images
    check_images_registered [] p s h = refl
    check_images_registered (img ∷ images) p s (h, hs) =
        let grown = check_image-IsGrown img p s in
        rw (check_images_step img images p p s (check_image_registered img p s h)) (
          check_images_registered images p (check_image server hash_string r pod img p s).1
            (All-imp images (λ img' known. IsRegisteredAt-Evolves view known grown.1) hs))
