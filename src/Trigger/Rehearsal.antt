-- ===== src/Trigger/Rehearsal.antt =====
-- The dry run of cmd/trigger/aqua-trigger.go, and the calls that come before the client is made.
use aqua_scan_gate.Common.{
  Text, List, [], ◌∷◌, true, Result, ok, err, Bool-cases, ◌≡◌, refl, inl, inr, ◌==◌,
}
use aqua_scan_gate.ImageRef.{ImageRef}
use aqua_scan_gate.Aqua.Mirrors.{RegistryMirror}
use aqua_scan_gate.Aqua.MirrorList.{MirrorError}
use aqua_scan_gate.Session.{Session, Call, Resolver, digest_resolved, resolve_image_ref}
use aqua_scan_gate.Session.Trace.{ExtendsBy, same, more, ExtendsBy-trans}
use aqua_scan_gate.Trigger.{Config}
use aqua_scan_gate.Trigger.Manifests.{
  Decoder, Input, extract_images_from_manifests, deduplicate_images,
}
use aqua_scan_gate.Trigger.Resolution.{Resolved, no_images, resolve_one, resolve_all}
use aqua_scan_gate.Trigger.Run.{
  Tools, is_lost, read_mirrors, with_mirrors, after_resolve, run_images, run,
}

-- The call asks the container registry for a digest, and nothing else.
abbrev pub IsDigestCall : Call → Type 0
IsDigestCall (digest_resolved img answer) = Unit
IsDigestCall _ = ⊥

module _ {W : Type 0} (resolver : Resolver W) where
  resolve_one-IsDigestCall :
      (p : Resolved) (img : ImageRef) (s : Session W)
      → ExtendsBy IsDigestCall s.calls (resolve_one resolver p img s).1.calls
  unfolding resolve_one resolve_image_ref
  resolve_one-IsDigestCall p img s = elim (Bool-cases (img.digest == [])) [
    | inl y ↦ rw (resolve_one, y) (more tt same)
    | inr n ↦ rw (resolve_one, n) same
  ]

  pub resolve_all-IsDigestCall :
      (p : Resolved) (images : List ImageRef) (s : Session W)
      → ExtendsBy IsDigestCall s.calls (resolve_all resolver p images s).1.calls
  unfolding resolve_all
  resolve_all-IsDigestCall p [] s = same
  resolve_all-IsDigestCall p (img ∷ images) s =
      let r = resolve_one resolver p img s in
      ExtendsBy-trans (resolve_one-IsDigestCall p img s) (resolve_all-IsDigestCall r.0 images r.1)

module _ {W : Type 0} (tools : Tools W) (decoder : Decoder) (cfg : Config) where
  with_mirrors-dry :
      (mirrors : Result MirrorError (List RegistryMirror)) (p : Resolved) (s : Session W)
      → cfg.dry_run ≡ true
      → (with_mirrors tools decoder cfg mirrors p s).1 ≡ s
  unfolding with_mirrors
  with_mirrors-dry (err e) p s h = refl
  with_mirrors-dry (ok mirrors) p s h = rw (with_mirrors, h) refl

  after_resolve-dry :
      (p : Resolved) (s : Session W)
      → cfg.dry_run ≡ true
      → (after_resolve tools decoder cfg p s).1 ≡ s
  unfolding after_resolve
  after_resolve-dry p s h = elim (Bool-cases (is_lost p)) [
    | inl y ↦ rw (after_resolve, y) refl
    | inr n ↦ rw (after_resolve, n) (with_mirrors-dry (read_mirrors cfg) p s h)
  ]

  run_images-dry :
      (found : Result Text (List ImageRef)) (s : Session W)
      → cfg.dry_run ≡ true
      → ExtendsBy IsDigestCall s.calls (run_images tools decoder cfg found s).1.calls
  unfolding run_images
  run_images-dry (err e) s h = same
  run_images-dry (ok []) s h = same
  run_images-dry (ok (img ∷ images)) s h =
      rw (run_images, after_resolve-dry, h)
        (resolve_all-IsDigestCall tools.resolver no_images (deduplicate_images (img ∷ images)) s)

  -- A dry run asks container registries for digests and does nothing else: it makes no call to Aqua.
  pub run-IsDigestCall :
      (input : Input) (s : Session W)
      → cfg.dry_run ≡ true
      → ExtendsBy IsDigestCall s.calls (run tools decoder cfg input s).1.calls
  unfolding run
  run-IsDigestCall input s h = run_images-dry (extract_images_from_manifests decoder input) s h
