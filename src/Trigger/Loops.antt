-- ===== src/Trigger/Loops.antt =====
-- What the two loops of `run` in cmd/trigger/aqua-trigger.go have done for each image when they end.
use aqua_scan_gate.Common.{
  Text, List, [], ◌∷◌, Option, Result, ok, err, Option-cases, Bool-cases, ◌≡◌, ◌≢◌, refl, sym,
  subst, ◌⊎◌, inl, inr, arith, Memᴰ, Memᴰ-append_left, Memᴰ-append_right, All, ◌==◌, eq_iff,
}
use aqua_scan_gate.ImageRef.{ImageRef}
use aqua_scan_gate.Aqua.{ScanStatus, ScanResult, Client}
use aqua_scan_gate.Session.{
  Session, Call, Resolver, result_read, digest_resolved, resolve_image_ref, get_scan_result,
  trigger_scan,
}
use aqua_scan_gate.Session.Trace.{ExtendsBy, same, more, ExtendsBy-trans, Memᴰ-ExtendsBy}
use aqua_scan_gate.Trigger.Resolution.{Resolved, with_resolved, resolve_one, resolve_all}
use aqua_scan_gate.Trigger.Processing.{
  Counts, trigger_image, by_status, by_result, process_image, process_images,
}
use aqua_scan_gate.Trigger.Rehearsal.{IsDigestCall, resolve_all-IsDigestCall}

abbrev pub IsAny : Call → Type 0
IsAny c = Unit

-- Aqua has been asked about the image and its digest.
abbrev pub IsAskedAbout : List Call → ImageRef → Type 0
IsAskedAbout cs img =
    (answer : Result Text ScanResult) × Memᴰ (result_read img.image img.digest answer) cs

-- The second reference is the first with a digest: its own, or what the resolver answered.
abbrev pub IsDigestOf : List Call → ImageRef → ImageRef → Type 0
IsDigestOf cs img img' =
    ((img.digest ≢ []) × (img' ≡ img))
    ⊎ ((img.digest ≡ []) × Memᴰ (digest_resolved img (ok img')) cs)

abbrev pub IsUnresolved : List Call → ImageRef → Type 0
IsUnresolved cs img = (e : Text) × Memᴰ (digest_resolved img (err e)) cs

module _ {W : Type 0} (aqua : Client W) where
  by_status-grows :
      (c : Counts) (img : ImageRef) (status : ScanStatus) (s : Session W)
      → ExtendsBy IsAny s.calls (by_status aqua c img status s).1.calls
  unfolding by_status trigger_image trigger_scan
  by_status-grows c img ScanStatus.found s = same
  by_status-grows c img ScanStatus.not_found s = more tt same
  by_status-grows c img (ScanStatus.other text) s = more tt same

  by_result-grows :
      (c : Counts) (img : ImageRef) (answer : Result Text ScanResult) (s : Session W)
      → ExtendsBy IsAny s.calls (by_result aqua c img answer s).1.calls
  unfolding by_result
  by_result-grows c img (err e) s = same
  by_result-grows c img (ok result) s = by_status-grows c img result.status s

  process_image-asks :
      (c : Counts) (img : ImageRef) (s : Session W)
      → IsAskedAbout (process_image aqua c img s).1.calls img
  unfolding process_image get_scan_result
  process_image-asks c img s =
      let r = get_scan_result aqua img.image img.digest s in
      (r.0, Memᴰ-ExtendsBy (Memᴰ.head refl) (by_result-grows c img r.0 r.1))

  pub process_images-grows :
      (done : W → Option Text) (c : Counts) (images : List ImageRef) (s : Session W)
      → ExtendsBy IsAny s.calls (process_images aqua done c images s).1.calls
  unfolding process_images process_image get_scan_result
  process_images-grows done c [] s = same
  process_images-grows done c (img ∷ images) s = elim (Option-cases (done s.world)) [
    | inr (e, f) ↦ rw (process_images, f) same
    | inl n ↦
        let r = process_image aqua c img s in
        rw (process_images, n)
          (ExtendsBy-trans (ExtendsBy-trans (more tt same) (by_result-grows c img _ _))
            (process_images-grows done r.0 images r.1))
  ]

  pub process_images-asks :
      (done : W → Option Text) (c d : Counts) (images : List ImageRef) (s : Session W)
      → (process_images aqua done c images s).0 ≡ ok d
      → All (IsAskedAbout (process_images aqua done c images s).1.calls) images
  unfolding process_images
  process_images-asks done c d [] s h = tt
  process_images-asks done c d (img ∷ images) s h = elim (Option-cases (done s.world)) [
    | inr (e, f) ↦ let stopped : err e ≡ ok d = rw (process_images, f) at h in absurd (ground arith)
    | inl n ↦
        let r = process_image aqua c img s in
        let finished : (process_images aqua done r.0 images r.1).0 ≡ ok d =
          rw (process_images, n) at h in
        let (answer, m) = process_image-asks c img s in
        let next : process_images aqua done c (img ∷ images) s
            ≡ process_images aqua done r.0 images r.1 =
          rw (process_images, n) refl in
        subst (λ end. All (IsAskedAbout end.1.calls) (img ∷ images)) (sym next)
          (
            (answer, Memᴰ-ExtendsBy m (process_images-grows done r.0 images r.1)),
            process_images-asks done r.0 d images r.1 finished,
          )
  ]

-- An image has a reference with a digest in the list, or the resolver failed.
abbrev pub IsGiven : List Call → List ImageRef → ImageRef → Type 0
IsGiven cs resolved img =
    ((img' : ImageRef) × Memᴰ img' resolved × IsDigestOf cs img img') ⊎ IsUnresolved cs img

with_resolved-keeps :
    {img : ImageRef} (p : Resolved) (answer : Result Text ImageRef)
    → Memᴰ img p.resolved_images
    → Memᴰ img (with_resolved p answer).resolved_images
unfolding with_resolved
with_resolved-keeps p (ok found) m = Memᴰ-append_left (found ∷ []) m
with_resolved-keeps p (err e) m = m

IsGiven-ExtendsBy :
    {cs ds : List Call} {old new : List ImageRef} (img : ImageRef)
    → ExtendsBy IsDigestCall cs ds
    → ((img' : ImageRef) → Memᴰ img' old → Memᴰ img' new)
    → IsGiven cs old img
    → IsGiven ds new img
IsGiven-ExtendsBy img e k (inr (failure, m)) = inr (failure, Memᴰ-ExtendsBy m e)
IsGiven-ExtendsBy img e k (inl (img', m, inl own)) = inl (img', k img' m, inl own)
IsGiven-ExtendsBy img e k (inl (img', m, inr (bare, f))) =
    inl (img', k img' m, inr (bare, Memᴰ-ExtendsBy f e))

own_IsGiven :
    (p : Resolved) (img : ImageRef) (cs : List Call)
    → img.digest ≢ []
    → IsGiven cs (with_resolved p (ok img)).resolved_images img
unfolding with_resolved
own_IsGiven p img cs h =
    inl (img, Memᴰ-append_right p.resolved_images (Memᴰ.head refl), inl (h, refl))

module _ {W : Type 0} (resolver : Resolver W) where
  resolve_one-keeps :
      {img' : ImageRef} (p : Resolved) (img : ImageRef) (s : Session W)
      → Memᴰ img' p.resolved_images
      → Memᴰ img' (resolve_one resolver p img s).0.resolved_images
  unfolding resolve_one resolve_image_ref
  resolve_one-keeps p img s m = elim (Bool-cases (img.digest == [])) [
    | inl y ↦ rw (resolve_one, y) (with_resolved-keeps p _ m)
    | inr n ↦ rw (resolve_one, n) (with_resolved-keeps p (ok img) m)
  ]

  resolve_all-keeps :
      {img' : ImageRef} (p : Resolved) (images : List ImageRef) (s : Session W)
      → Memᴰ img' p.resolved_images
      → Memᴰ img' (resolve_all resolver p images s).0.resolved_images
  unfolding resolve_all
  resolve_all-keeps p [] s m = m
  resolve_all-keeps p (img ∷ images) s m =
      let r = resolve_one resolver p img s in
      resolve_all-keeps r.0 images r.1 (resolve_one-keeps p img s m)

  with_answer-IsGiven :
      (p : Resolved) (img : ImageRef) (answer : Result Text ImageRef) (cs : List Call)
      → img.digest ≡ []
      → IsGiven (digest_resolved img answer ∷ cs) (with_resolved p answer).resolved_images img
  unfolding with_resolved
  with_answer-IsGiven p img (ok found) cs e =
      inl (found, Memᴰ-append_right p.resolved_images (Memᴰ.head refl), inr (e, Memᴰ.head refl))
  with_answer-IsGiven p img (err failure) cs e = inr (failure, Memᴰ.head refl)

  resolve_one-IsGiven :
      (p : Resolved) (img : ImageRef) (s : Session W)
      → let r = resolve_one resolver p img s in IsGiven r.1.calls r.0.resolved_images img
  unfolding resolve_one resolve_image_ref
  resolve_one-IsGiven p img s = elim (Bool-cases (img.digest == [])) [
    | inl y ↦ rw (resolve_one, y) (with_answer-IsGiven p img _ s.calls ((eq_iff _ _).0 y))
    | inr n ↦ rw (resolve_one, n) (own_IsGiven p img s.calls (ground (arith, eq_iff img.digest [])))
  ]

  pub resolve_all-IsGiven :
      (p : Resolved) (images : List ImageRef) (s : Session W)
      → let r = resolve_all resolver p images s in
        All (IsGiven r.1.calls r.0.resolved_images) images
  unfolding resolve_all
  resolve_all-IsGiven p [] s = tt
  resolve_all-IsGiven p (img ∷ images) s =
      let r = resolve_one resolver p img s in
      (
        IsGiven-ExtendsBy img (resolve_all-IsDigestCall resolver r.0 images r.1)
            (λ img' m. resolve_all-keeps r.0 images r.1 m) (resolve_one-IsGiven p img s),
        resolve_all-IsGiven r.0 images r.1,
      )
