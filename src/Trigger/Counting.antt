-- ===== src/Trigger/Counting.antt =====
-- The summary of cmd/trigger/aqua-trigger.go: how the images of a run are counted, and which counts make
-- it fail.
use aqua_scan_gate.Common.{
  ℕ, ◌+◌, ltb, ◌≤◌, Text, List, [], ◌∷◌, true, Option, Result, ok, err, Option-cases, Bool-cases,
  length, length-append, ◌≡◌, refl, inl, inr, arith, ◌==◌,
}
use aqua_scan_gate.ImageRef.{ImageRef}
use aqua_scan_gate.Aqua.{ScanStatus, ScanResult, Client}
use aqua_scan_gate.Aqua.Mirrors.{RegistryMirror}
use aqua_scan_gate.Aqua.MirrorList.{MirrorError}
use aqua_scan_gate.Session.{Session, Resolver, resolve_image_ref, trigger_scan}
use aqua_scan_gate.Trigger.{Config}
use aqua_scan_gate.Trigger.Manifests.{
  Decoder, Input, extract_images_from_manifests, deduplicate_images,
}
use aqua_scan_gate.Trigger.Distinct.{distinct_count, length-deduplicate_images}
use aqua_scan_gate.Trigger.Resolution.{Resolved, no_images, with_resolved, resolve_one, resolve_all}
use aqua_scan_gate.Trigger.Processing.{
  Counts, no_counts, count_trigger, trigger_image, by_status, by_result, process_image,
  process_images,
}
use aqua_scan_gate.Trigger.Run.{
  Report, RunError, Tools, total_of, conclude, is_lost, read_mirrors, client_config, scan_all,
  with_mirrors, after_resolve, run_images, run,
}

abbrev pub total : Counts → ℕ
total c = c.scans_triggered + c.already_scanned + c.scan_errors

abbrev seen_so_far : Resolved → ℕ
seen_so_far p = length p.resolved_images + p.resolve_errors

module _ {W : Type 0} (resolver : Resolver W) where
  with_resolved-count :
      (p : Resolved) (answer : Result Text ImageRef)
      → seen_so_far (with_resolved p answer) ≡ seen_so_far p + 1
  unfolding with_resolved
  with_resolved-count p (ok img) = omega (arith, length-append p.resolved_images (img ∷ []))
  with_resolved-count p (err e) = omega arith

  resolve_one-count :
      (p : Resolved) (img : ImageRef) (s : Session W)
      → seen_so_far (resolve_one resolver p img s).0 ≡ seen_so_far p + 1
  unfolding resolve_one resolve_image_ref
  resolve_one-count p img s = elim (Bool-cases (img.digest == [])) [
    | inl y ↦ rw (resolve_one, y) (with_resolved-count p _)
    | inr n ↦ rw (resolve_one, n) (with_resolved-count p (ok img))
  ]

  resolve_all-count :
      (p : Resolved) (images : List ImageRef) (s : Session W)
      → seen_so_far (resolve_all resolver p images s).0 ≡ seen_so_far p + length images
  unfolding resolve_all
  resolve_all-count p [] s = omega arith
  resolve_all-count p (img ∷ images) s =
      let r = resolve_one resolver p img s in
      omega (arith, resolve_one-count p img s, resolve_all-count r.0 images r.1)

count_trigger_count :
    (c : Counts) (answer : Result Text Text) → total (count_trigger c answer) ≡ total c + 1
unfolding count_trigger
count_trigger_count c (ok scan_id) = omega arith
count_trigger_count c (err e) = omega arith

abbrev CountsAll : Counts → List ImageRef → Result Text Counts → Type 0
CountsAll c images (err e) = Unit
CountsAll c images (ok c') = total c' ≡ total c + length images

CountsAll-more :
    (c c' : Counts) (img : ImageRef) (images : List ImageRef) (r : Result Text Counts)
    → total c' ≡ total c + 1
    → CountsAll c' images r
    → CountsAll c (img ∷ images) r
CountsAll-more c c' img images (err e) h k = tt
CountsAll-more c c' img images (ok d) h k = omega arith

module _ {W : Type 0} (aqua : Client W) where
  trigger_image-count :
      (c : Counts) (img : ImageRef) (s : Session W)
      → total (trigger_image aqua c img s).0 ≡ total c + 1
  unfolding trigger_image trigger_scan
  trigger_image-count c img s = count_trigger_count c _

  by_status-count :
      (c : Counts) (img : ImageRef) (status : ScanStatus) (s : Session W)
      → total (by_status aqua c img status s).0 ≡ total c + 1
  unfolding by_status
  by_status-count c img ScanStatus.found s = omega arith
  by_status-count c img ScanStatus.not_found s = trigger_image-count c img s
  by_status-count c img (ScanStatus.other text) s = trigger_image-count c img s

  by_result-count :
      (c : Counts) (img : ImageRef) (answer : Result Text ScanResult) (s : Session W)
      → total (by_result aqua c img answer s).0 ≡ total c + 1
  unfolding by_result
  by_result-count c img (err e) s = omega arith
  by_result-count c img (ok result) s = by_status-count c img result.status s

  process_images-CountsAll :
      (done : W → Option Text) (c : Counts) (images : List ImageRef) (s : Session W)
      → CountsAll c images (process_images aqua done c images s).0
  unfolding process_images process_image
  process_images-CountsAll done c [] s = omega arith
  process_images-CountsAll done c (img ∷ images) s = elim (Option-cases (done s.world)) [
    | inr (e, f) ↦ rw (process_images, f) tt
    | inl n ↦
        let r = process_image aqua c img s in
        rw (process_images, n)
          (CountsAll-more c r.0 img images _ (by_result-count c img _ _)
            (process_images-CountsAll done r.0 images r.1))
  ]

-- What the outcome of a run says of the images that were extracted.
abbrev pub IsCounted : List ImageRef → Result RunError Report → Type 0
IsCounted images (ok Report.nothing_found) = images ≡ []
IsCounted images (ok (Report.would_scan listed n)) = length listed + n ≡ distinct_count images
IsCounted images (ok (Report.summary c)) = (c.scan_errors ≡ 0) × (total c ≡ distinct_count images)
IsCounted images (err (RunError.images_failed c n)) =
    (1 ≤ c.scan_errors + n) × (total c + n ≡ distinct_count images)
IsCounted images (err RunError.none_resolved) = 1 ≤ distinct_count images
IsCounted images (err (RunError.parsing_manifests e)) = ⊥
IsCounted images (err (RunError.parsing_mirrors e)) = Unit
IsCounted images (err (RunError.interrupted e)) = Unit

total_of-IsCounted :
    (images : List ImageRef) (c : Counts) (n : ℕ)
    → total c + n ≡ distinct_count images
    → IsCounted images (total_of c n)
unfolding total_of
total_of-IsCounted images c n h = elim (Bool-cases (ltb 0 (n + c.scan_errors))) [
  | inl y ↦ rw (total_of, y) (ground arith, h)
  | inr k ↦ rw (total_of, k) (ground arith, ground arith)
]

is_lost-some : (p : Resolved) → is_lost p ≡ true → 1 ≤ seen_so_far p
unfolding is_lost
is_lost-some p h = ground arith

conclude-IsCounted :
    (images resolved : List ImageRef) (n : ℕ) (r : Result Text Counts)
    → length resolved + n ≡ distinct_count images
    → CountsAll no_counts resolved r
    → IsCounted images (conclude n r)
unfolding conclude
conclude-IsCounted images resolved n (err e) h k = tt
conclude-IsCounted images resolved n (ok c) h k = total_of-IsCounted images c n (omega arith)

module _ {W : Type 0} (tools : Tools W) (decoder : Decoder) (cfg : Config) where
  with_mirrors-IsCounted :
      (images : List ImageRef) (mirrors : Result MirrorError (List RegistryMirror)) (p : Resolved)
      (s : Session W)
      → seen_so_far p ≡ distinct_count images
      → IsCounted images (with_mirrors tools decoder cfg mirrors p s).0
  unfolding with_mirrors scan_all
  with_mirrors-IsCounted images (err e) p s h = tt
  with_mirrors-IsCounted images (ok mirrors) p s h = elim (Bool-cases cfg.dry_run) [
    | inl y ↦ rw (with_mirrors, y) h
    | inr n ↦
        let client = tools.new_client (client_config cfg mirrors) in
        rw (with_mirrors, n)
          (conclude-IsCounted images p.resolved_images p.resolve_errors _ h
            (process_images-CountsAll client tools.done no_counts p.resolved_images s))
  ]

  after_resolve-IsCounted :
      (images : List ImageRef) (p : Resolved) (s : Session W)
      → seen_so_far p ≡ distinct_count images
      → IsCounted images (after_resolve tools decoder cfg p s).0
  unfolding after_resolve
  after_resolve-IsCounted images p s h = elim (Bool-cases (is_lost p)) [
    | inl y ↦ rw (after_resolve, y) (omega (arith, is_lost-some p y))
    | inr n ↦ rw (after_resolve, n) (with_mirrors-IsCounted images (read_mirrors cfg) p s h)
  ]

  run_images-IsCounted :
      (images : List ImageRef) (s : Session W)
      → IsCounted images (run_images tools decoder cfg (ok images) s).0
  unfolding run_images
  run_images-IsCounted [] s = refl
  run_images-IsCounted (img ∷ rest) s =
      let images = deduplicate_images (img ∷ rest) in
      let r = resolve_all tools.resolver no_images images s in
      after_resolve-IsCounted (img ∷ rest) r.0 r.1 (
        omega (
          arith,
          resolve_all-count tools.resolver no_images images s,
          length-deduplicate_images (img ∷ rest),
        ))

  -- The outcome of a run over manifests that could be read, where images are counted by their different
  -- texts. In a summary without an error, those triggered and those scanned before add up to the count. A
  -- run that fails for its images has at least one failure, and triggered, scanned before, failed at Aqua
  -- and without a digest add up to the count, as do those that a dry run lists and those without a digest.
  -- "No images" is said only of manifests without images, and that none was resolved only of some.
  pub run-IsCounted :
      (input : Input) (images : List ImageRef) (s : Session W)
      → extract_images_from_manifests decoder input ≡ ok images
      → IsCounted images (run tools decoder cfg input s).0
  unfolding run
  run-IsCounted input images s h = rw h (run_images-IsCounted images s)
