-- ===== src/PodGate/Clearance.antt =====
-- What the loops of `PodGateReconciler.Reconcile` have seen when they let an image pass.
use aqua_scan_gate.Common.{
  Text, List, [], ◌∷◌, true, false, Option, Result, ok, err, Result-cases, ◌≡◌, refl, sym, ap,
  subst, inl, inr, arith, Memᴰ, All,
}
use aqua_scan_gate.Api.{ImageScan, ScanPhase}
use aqua_scan_gate.Kube.{Pod, NamespacedName, ApiError, not_found, already_exists, other, Server}
use aqua_scan_gate.ImageRef.{ImageRef}
use aqua_scan_gate.Session.{
  Session, Call, pod_updated, status_updated, scan_triggered, scan_read, get_scan, create_scan,
  scan_error,
}
use aqua_scan_gate.Session.Trace.{
  ExtendsBy, same, more, ExtendsBy-trans, Memᴰ-ExtendsBy, record_event-ExtendsBy,
}
use aqua_scan_gate.PodGate.Config.{PodGateReconciler, Progress, add_pending}
use aqua_scan_gate.PodGate.Checking.{
  scan_key, after_create, judge, check_answer, check_image, check_images,
}

-- A call that writes neither a pod nor the status of a scan and triggers no scan.
abbrev pub IsQuiet : Call → Type 0
IsQuiet (pod_updated pod answer) = ⊥
IsQuiet (status_updated scan answer) = ⊥
IsQuiet (scan_triggered image digest answer) = ⊥
IsQuiet _ = Unit

-- The scan under the key has been read with the phase Registered.
abbrev pub IsRegistered : NamespacedName → List Call → Type 0
IsRegistered key cs =
    (scan : ImageScan) × Memᴰ (scan_read key (ok scan)) cs
    × (scan.status.phase ≡ ScanPhase.registered)

after_create-pending :
    (p p' : Progress) (image : Text) (answer : Option ApiError)
    → after_create (add_pending p image) answer ≡ ok p'
    → p'.all_passed ≡ false
unfolding after_create
after_create-pending p p' image answer h = ground arith

module _ {W : Type 0} (r : PodGateReconciler W) where
  judge-IsQuiet :
      (img : ImageRef) (scan : ImageScan) (phase : ScanPhase) (p : Progress) (s : Session W)
      → ExtendsBy IsQuiet s.calls (judge r img scan phase p s).1.calls
  unfolding judge
  judge-IsQuiet img scan ScanPhase.registered p s = same
  judge-IsQuiet img scan ScanPhase.error p s =
      record_event-ExtendsBy IsQuiet r.recorder (scan_error img.image scan.status.message) s tt
  judge-IsQuiet img scan ScanPhase.pending p s = same
  judge-IsQuiet img scan ScanPhase.unset p s = same

  judge-passed :
      (img : ImageRef) (scan : ImageScan) (phase : ScanPhase) (p : Progress) (s : Session W)
      → (judge r img scan phase p s).0.all_passed ≡ true
      → (p.all_passed ≡ true) × (phase ≡ ScanPhase.registered)
  unfolding judge
  judge-passed img scan phase p s h = ground arith

module _ {W : Type 0} (server : Server W) (hash_string : Text → Text) (r : PodGateReconciler W)
    (pod : Pod) where
  check_answer-IsQuiet :
      (img : ImageRef) (p : Progress) (answer : Result ApiError ImageScan) (s : Session W)
      → ExtendsBy IsQuiet s.calls (check_answer server hash_string r pod img p answer s).1.calls
  unfolding check_answer create_scan
  check_answer-IsQuiet img p (ok scan) s = judge-IsQuiet r img scan scan.status.phase p s
  check_answer-IsQuiet img p (err not_found) s = more tt same
  check_answer-IsQuiet img p (err already_exists) s = same
  check_answer-IsQuiet img p (err (other e)) s = same

  check_image-IsQuiet :
      (img : ImageRef) (p : Progress) (s : Session W)
      → ExtendsBy IsQuiet s.calls (check_image server hash_string r pod img p s).1.calls
  unfolding check_image get_scan
  check_image-IsQuiet img p s =
      ExtendsBy-trans (more tt same) (check_answer-IsQuiet img p _ (get_scan server _ s).1)

  pub check_images-IsQuiet :
      (images : List ImageRef) (p : Progress) (s : Session W)
      → ExtendsBy IsQuiet s.calls (check_images server hash_string r pod images p s).1.calls
  unfolding check_images
  check_images-IsQuiet [] p s = same
  check_images-IsQuiet (img ∷ images) p s =
      let c = check_image server hash_string r pod img p s in
      elim (Result-cases c.0) [
        | inl (p', e) ↦
            rw (e, check_images)
              (ExtendsBy-trans (check_image-IsQuiet img p s) (check_images-IsQuiet images p' c.1))
        | inr (failure, e) ↦ rw (e, check_images) (check_image-IsQuiet img p s)
      ]

  check_answer-passed :
      (img : ImageRef) (p p' : Progress) (answer : Result ApiError ImageScan) (s : Session W)
      → (check_answer server hash_string r pod img p answer s).0 ≡ ok p'
      → p'.all_passed ≡ true
      → (p.all_passed ≡ true)
        × ((scan : ImageScan) × (answer ≡ ok scan) × (scan.status.phase ≡ ScanPhase.registered))
  unfolding check_answer
  check_answer-passed img p p' (ok scan) s h passed =
      let (before, phase) = judge-passed r img scan scan.status.phase p s (cc) in
      (before, (scan, refl, phase))
  check_answer-passed img p p' (err not_found) s h passed =
      absurd (ground (arith, after_create-pending p p' img.image _ h))
  check_answer-passed img p p' (err already_exists) s h passed = absurd (ground arith)
  check_answer-passed img p p' (err (other e)) s h passed = absurd (ground arith)

  check_image-passed :
      (img : ImageRef) (p p' : Progress) (s : Session W)
      → (check_image server hash_string r pod img p s).0 ≡ ok p'
      → p'.all_passed ≡ true
      → (p.all_passed ≡ true)
        × IsRegistered
            (scan_key hash_string r pod img)
            (check_image server hash_string r pod img p s).1.calls
  unfolding check_image get_scan
  check_image-passed img p p' s h passed =
      let got = get_scan server (scan_key hash_string r pod img) s in
      let (before, (scan, read, phase)) = check_answer-passed img p p' got.0 got.1 h passed in
      let logged : Memᴰ (scan_read (scan_key hash_string r pod img) (ok scan)) got.1.calls =
        Memᴰ.head (ap (scan_read (scan_key hash_string r pod img)) (sym read)) in
      (before, (scan, Memᴰ-ExtendsBy logged (check_answer-IsQuiet img p got.0 got.1), phase))

  -- Every image of the list has a registered scan.
  abbrev pub AllRegistered : List ImageRef → List Call → Type 0
  AllRegistered images cs = All (λ img. IsRegistered (scan_key hash_string r pod img) cs) images

  check_images_step :
      (img : ImageRef) (images : List ImageRef) (p p' : Progress) (s : Session W)
      → (check_image server hash_string r pod img p s).0 ≡ ok p'
      → check_images server hash_string r pod (img ∷ images) p s
        ≡ check_images server hash_string r pod images p'
            (check_image server hash_string r pod img p s).1
  unfolding check_images
  check_images_step img images p p' s e = rw (e, check_images)

  pub check_images-passed :
      (images : List ImageRef) (p p' : Progress) (s : Session W)
      → (check_images server hash_string r pod images p s).0 ≡ ok p'
      → p'.all_passed ≡ true
      → (p.all_passed ≡ true)
        × AllRegistered images (check_images server hash_string r pod images p s).1.calls
  unfolding check_images
  check_images-passed [] p p' s h passed = (ground arith, tt)
  check_images-passed (img ∷ images) p p' s h passed =
      let c = check_image server hash_string r pod img p s in
      elim (Result-cases c.0) [
        | inl (p₁, e) ↦
            let (mid, rest) =
              check_images-passed images p₁ p' c.1 (rw (e, check_images) at h) passed in
            let (before, (scan, logged, phase)) = check_image-passed img p p₁ s e mid in
            (
              before,
              subst (λ d. AllRegistered (img ∷ images) d.1.calls)
                  (sym (check_images_step img images p p₁ s e))
                  ((scan, Memᴰ-ExtendsBy logged (check_images-IsQuiet images p₁ c.1), phase), rest),
            )
        | inr (failure, e) ↦ absurd (ground arith)
      ]
