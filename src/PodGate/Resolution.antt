-- ===== src/PodGate/Resolution.antt =====
-- The digests of the images: `applyMirrorsToImageRef` and the first loop of `Reconcile` in
-- internal/controller/pod_gate_controller.go.
use aqua_scan_gate.Common.{
  Text, codes, List, [], ◌∷◌, ◌++◌, ◌&&◌, Option, none, some, Result, ok, err, ◌==◌, if◌then◌else◌,
}
use aqua_scan_gate.ImageRef.{ImageRef, Reference, parse_registry_image_and_tag}
use aqua_scan_gate.Aqua.Mirrors.{RegistryMirror, apply_registry_mirror}
use aqua_scan_gate.Session.{
  Session, digest_resolution_failed, Resolver, record_event, resolve_image_ref,
}
use aqua_scan_gate.PodGate.Config.{PodGateReconciler}

module _ (parse_reference : Text → Option Reference) where
  unfoldable pub mirrored : ImageRef → Text × Text × Text → List RegistryMirror → ImageRef
  mirrored img (registry, image_name, tag_or_digest) mirrors =
      let m = apply_registry_mirror registry image_name mirrors in
      if m.0 == registry && m.1 == image_name
      then img
      else record { image = m.0 ++ (codes "/" ++ (m.1 ++ tag_or_digest)); digest = img.digest }

  unfoldable pub apply_mirrors_to_image_ref : List RegistryMirror → ImageRef → ImageRef
  unfolding mirrored
  apply_mirrors_to_image_ref [] img = img
  apply_mirrors_to_image_ref (m ∷ mirrors) img =
      mirrored img (parse_registry_image_and_tag parse_reference img.image) (m ∷ mirrors)

module _ {W : Type 0} where
  -- what follows the resolver's answer; `none` is the early return after a failure
  unfoldable pub use_answer :
      PodGateReconciler W
      → ImageRef
      → Result Text ImageRef
      → Session W
      → Option ImageRef × Session W
  use_answer r img (ok found) s = (some (record { image = img.image; digest = found.digest }), s)
  use_answer r img (err e) s =
      (none, record_event r.recorder (digest_resolution_failed img.image e) s)

module _ {W : Type 0} (parse_reference : Text → Option Reference) where
  -- An image that has no digest gets the one that the resolver finds for its mirrored reference.
  unfoldable pub resolve_image :
      PodGateReconciler W → Resolver W → ImageRef → Session W → Option ImageRef × Session W
  resolve_image r resolver img s =
      let mirrored_img = apply_mirrors_to_image_ref parse_reference r.registry_mirrors img in
      let resolved = resolve_image_ref resolver mirrored_img s in
      if img.digest == [] then use_answer r img resolved.0 resolved.1 else (some img, s)

  -- the loop `for i, img := range images`
  unfoldable pub resolve_images :
      PodGateReconciler W
      → Resolver W
      → List ImageRef
      → List ImageRef
      → Session W
      → Option (List ImageRef) × Session W
  resolve_images r resolver resolved [] s = (some resolved, s)
  resolve_images r resolver resolved (img ∷ images) s =
      let c = resolve_image r resolver img s in
      elim c.0 [
        | none ↦ (none, c.1)
        | some img' ↦ resolve_images r resolver (resolved ++ img' ∷ []) images c.1
      ]
