-- ===== src/PodGate/Digests.antt =====
-- What the first loop of `PodGateReconciler.Reconcile` has seen when it gives an image a digest.
use aqua_scan_gate.Common.{
  Text, List, [], ◌∷◌, ◌++◌, Option, some, Result, ok, err, Option-cases, Bool-cases, ◌≡◌, refl,
  sym, ap, subst, ◌∙◌, ◌≢◌, ◌⊎◌, inl, inr, arith, Memᴰ, ◌==◌, eq_iff, append_assoc, append-nil,
}
use aqua_scan_gate.ImageRef.{ImageRef, Reference}
use aqua_scan_gate.Session.{
  Session, Call, digest_resolved, Resolver, resolve_image_ref, digest_resolution_failed,
}
use aqua_scan_gate.Session.Trace.{
  ExtendsBy, same, more, ExtendsBy-trans, Memᴰ-ExtendsBy, record_event-ExtendsBy,
}
use aqua_scan_gate.PodGate.Config.{PodGateReconciler}
use aqua_scan_gate.PodGate.Resolution.{
  apply_mirrors_to_image_ref, use_answer, resolve_image, resolve_images,
}
use aqua_scan_gate.PodGate.Clearance.{IsQuiet}

module _ {W : Type 0} (r : PodGateReconciler W) (img : ImageRef) where
  use_answer-IsQuiet :
      (answer : Result Text ImageRef) (s : Session W)
      → ExtendsBy IsQuiet s.calls (use_answer r img answer s).1.calls
  unfolding use_answer
  use_answer-IsQuiet (ok found) s = same
  use_answer-IsQuiet (err e) s =
      record_event-ExtendsBy IsQuiet r.recorder (digest_resolution_failed img.image e) s tt

  use_answer-some :
      (answer : Result Text ImageRef) (img' : ImageRef) (s : Session W)
      → (use_answer r img answer s).0 ≡ some img'
      → (found : ImageRef) × (answer ≡ ok found)
        × (img'.image ≡ img.image)
        × (img'.digest ≡ found.digest)
  unfolding use_answer
  use_answer-some (ok found) img' s h = (found, refl, ground arith, ground arith)
  use_answer-some (err e) img' s h = absurd (ground arith)

module _ {W : Type 0} (parse_reference : Text → Option Reference) (r : PodGateReconciler W) where
  -- The second reference is the first with its own digest, or with the one that the resolver has
  -- answered for its mirrored form.
  abbrev pub IsResolved : ImageRef → ImageRef → List Call → Type 0
  IsResolved img img' cs =
      (img'.image ≡ img.image)
      × (((img.digest ≢ []) × (img'.digest ≡ img.digest))
          ⊎ ((img.digest ≡ [])
              × ((found : ImageRef) × Memᴰ
                    (digest_resolved
                      (apply_mirrors_to_image_ref parse_reference r.registry_mirrors img)
                      (ok found))
                    cs
                  × (img'.digest ≡ found.digest))))

  pub IsResolved-ExtendsBy :
      (img img' : ImageRef) {cs ds : List Call}
      → ExtendsBy IsQuiet cs ds
      → IsResolved img img' cs
      → IsResolved img img' ds
  IsResolved-ExtendsBy img img' e (image, inl own) = (image, inl own)
  IsResolved-ExtendsBy img img' e (image, inr (bare, (found, logged, digest))) =
      (image, inr (bare, (found, Memᴰ-ExtendsBy logged e, digest)))

  abbrev pub AllResolved : List ImageRef → List ImageRef → List Call → Type 0
  AllResolved [] [] cs = Unit
  AllResolved [] (_ ∷ _) cs = ⊥
  AllResolved (_ ∷ _) [] cs = ⊥
  AllResolved (img ∷ imgs) (img' ∷ imgs') cs = IsResolved img img' cs × AllResolved imgs imgs' cs

  resolve_image-IsQuiet :
      (resolver : Resolver W) (img : ImageRef) (s : Session W)
      → ExtendsBy IsQuiet s.calls (resolve_image parse_reference r resolver img s).1.calls
  unfolding resolve_image resolve_image_ref
  resolve_image-IsQuiet resolver img s = elim (Bool-cases (img.digest == [])) [
    | inl e ↦ rw (e, resolve_image) (ExtendsBy-trans (more tt same) (use_answer-IsQuiet r img _ _))
    | inr e ↦ rw (e, resolve_image) same
  ]

  resolve_image-IsResolved :
      (resolver : Resolver W) (img img' : ImageRef) (s : Session W)
      → (resolve_image parse_reference r resolver img s).0 ≡ some img'
      → IsResolved img img' (resolve_image parse_reference r resolver img s).1.calls
  unfolding resolve_image resolve_image_ref
  resolve_image-IsResolved resolver img img' s h = elim (Bool-cases (img.digest == [])) [
    | inl e ↦
        let mirrored = apply_mirrors_to_image_ref parse_reference r.registry_mirrors img in
        let resolved = resolve_image_ref resolver mirrored s in
        let (found, answer, image, digest) =
          use_answer-some r img resolved.0 img' resolved.1 (rw (e, resolve_image) at h) in
        let logged : Memᴰ (digest_resolved mirrored (ok found)) resolved.1.calls =
          Memᴰ.head (ap (digest_resolved mirrored) (sym answer)) in
        rw (e, resolve_image)
          (
            image,
            inr (
              (eq_iff img.digest []).0 e,
              (
                found,
                Memᴰ-ExtendsBy logged (use_answer-IsQuiet r img resolved.0 resolved.1),
                digest,
              ),
            ),
          )
    | inr e ↦
        let kept : some img ≡ some img' = rw (e, resolve_image) at h in
        rw (e, resolve_image)
          (cc (kept), inl ((λ bare. ground (arith, eq_iff img.digest [])), cc (kept)))
  ]

  pub resolve_images-IsQuiet :
      (resolver : Resolver W) (acc images : List ImageRef) (s : Session W)
      → ExtendsBy IsQuiet s.calls (resolve_images parse_reference r resolver acc images s).1.calls
  unfolding resolve_images
  resolve_images-IsQuiet resolver acc [] s = same
  resolve_images-IsQuiet resolver acc (img ∷ images) s =
      let c = resolve_image parse_reference r resolver img s in
      elim (Option-cases c.0) [
        | inl e ↦ rw (e, resolve_images) (resolve_image-IsQuiet resolver img s)
        | inr (img', e) ↦
            rw (e, resolve_images)
              (ExtendsBy-trans (resolve_image-IsQuiet resolver img s)
                (resolve_images-IsQuiet resolver (acc ++ img' ∷ []) images c.1))
      ]

  resolve_images_step :
      (resolver : Resolver W) (acc : List ImageRef) (img img' : ImageRef) (images : List ImageRef)
      (s : Session W)
      → (resolve_image parse_reference r resolver img s).0 ≡ some img'
      → resolve_images parse_reference r resolver acc (img ∷ images) s
        ≡ resolve_images parse_reference r resolver
            (acc ++ img' ∷ [])
            images
            (resolve_image parse_reference r resolver img s).1
  unfolding resolve_images
  resolve_images_step resolver acc img img' images s e = rw (e, resolve_images)

  -- The loop ends with a reference for each image, in order, resolved by the calls made so far.
  pub resolve_images-AllResolved :
      (resolver : Resolver W) (acc images out : List ImageRef) (s : Session W)
      → (resolve_images parse_reference r resolver acc images s).0 ≡ some out
      → (rest : List ImageRef) × (out ≡ acc ++ rest)
        × AllResolved images rest (resolve_images parse_reference r resolver acc images s).1.calls
  unfolding resolve_images
  resolve_images-AllResolved resolver acc [] out s h = ([], cc (h, append-nil acc), tt)
  resolve_images-AllResolved resolver acc (img ∷ images) out s h =
      let c = resolve_image parse_reference r resolver img s in
      elim (Option-cases c.0) [
        | inl e ↦ absurd (ground arith)
        | inr (img', e) ↦
            let next = acc ++ img' ∷ [] in
            let (rest, out_eq, resolved) =
              resolve_images-AllResolved resolver next images out c.1
                (rw (e, resolve_images) at h) in
            let quiet = resolve_images-IsQuiet resolver next images c.1 in
            (
              img' ∷ rest,
              out_eq ∙ append_assoc acc (img' ∷ []) rest,
              subst (λ d. AllResolved (img ∷ images) (img' ∷ rest) d.1.calls)
                  (sym (resolve_images_step resolver acc img img' images s e))
                  (
                    IsResolved-ExtendsBy img img' quiet
                        (resolve_image-IsResolved resolver img img' s e),
                    resolved,
                  ),
            )
      ]
