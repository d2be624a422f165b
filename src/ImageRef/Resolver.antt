-- ===== src/ImageRef/Resolver.antt =====
-- pkg/imageref/resolver.go: the digest of an image, as its registry gives it.
use aqua_scan_gate.Common.{
  Text, codes, List, [], ◌∷◌, ◌++◌, Bool, false, ◌&&◌, Option, none, some, Result, ok, err, ◌==◌,
  if◌then◌else◌,
}
use aqua_scan_gate.ImageRef.{ImageRef, Reference}

pub record Platform : Type 0 where
  pub architecture : Text
  pub os : Text

-- One entry of an index manifest; `none` is a nil platform.
pub record Manifest : Type 0 where
  pub platform : Option Platform
  pub digest : Text

-- `remote.Index` with `IndexManifest`, and `remote.Image` with `Digest`: each call may fail, and so may
-- the reading of what it answers.
pub record Remote (W : Type 0) : Type 0 where
  pub index : Reference → W → Result Text (Result Text (List Manifest)) × W
  pub image : Reference → W → Result Text (Result Text Text) × W

-- the platform of `NewResolver`
abbrev pub default_platform : Platform
default_platform = record { architecture = codes "amd64"; os = codes "linux" }

unfoldable pub is_for : Platform → Option Platform → Bool
unfolding ◌==◌
is_for target none = false
is_for target (some p) = p.os == target.os && p.architecture == target.architecture

-- the loop of `resolveFromIndex`
unfoldable pub find_manifest : Platform → List Manifest → Result Text Text
unfolding is_for
find_manifest target [] =
    err
      (codes "no manifest found for platform " ++ (target.os ++ (codes "/" ++ target.architecture)))
find_manifest target (m ∷ ms) =
    if is_for target m.platform then ok m.digest else find_manifest target ms

unfoldable pub resolve_from_index : Platform → Result Text (List Manifest) → Result Text Text
unfolding find_manifest
resolve_from_index target (err e) = err (codes "getting index manifest: " ++ e)
resolve_from_index target (ok ms) = find_manifest target ms

-- `fetchIndex`, from the answer of remote.Index on
unfoldable pub digest_of_index :
    Platform → Result Text (Result Text (List Manifest)) → Result Text Text
unfolding resolve_from_index
digest_of_index target (err e) = err e
digest_of_index target (ok idx) = elim (resolve_from_index target idx) [
  | err e ↦ err (codes "resolving from index: " ++ e)
  | ok digest ↦ ok digest
]

-- `fetchImage`, from the answer of remote.Image on
unfoldable pub digest_of_image : Result Text (Result Text Text) → Result Text Text
digest_of_image (err e) = err (codes "fetching image: " ++ e)
digest_of_image (ok (err e)) = err (codes "getting digest: " ++ e)
digest_of_image (ok (ok digest)) = ok digest

module _ {W : Type 0} (parse : Text → Result Text Reference) (remote : Remote W)
    (target : Platform) where
  -- a single image, after an index was not to be had
  unfoldable pub after_index : Reference → Result Text Text → W → Result Text Text × W
  unfolding digest_of_image
  after_index ref (ok digest) w = (ok digest, w)
  after_index ref (err e) w = let i = remote.image ref w in (digest_of_image i.0, i.1)

  -- by the kind of reference
  unfoldable pub resolve_reference : Reference → W → Result Text Text × W
  unfolding after_index digest_of_index
  resolve_reference (Reference.digest registry repository digest) w = (ok digest, w)
  resolve_reference (Reference.tag registry repository name) w =
      let i = remote.index (Reference.tag registry repository name) w in
      after_index (Reference.tag registry repository name) (digest_of_index target i.0) i.1

  unfoldable pub resolve_digest : Text → W → Result Text Text × W
  unfolding resolve_reference
  resolve_digest image w = elim (parse image) [
    | err e ↦ (err (codes "parsing image reference: " ++ e), w)
    | ok ref ↦ resolve_reference ref w
  ]

  unfoldable pub with_digest : ImageRef → Result Text Text → Result Text ImageRef
  with_digest img (ok digest) = ok (record { image = img.image; digest = digest })
  with_digest img (err e) = err e

  unfoldable pub resolve_image_ref : ImageRef → W → Result Text ImageRef × W
  unfolding resolve_digest with_digest ◌==◌
  resolve_image_ref img w =
      let r = resolve_digest img.image w in
      if img.digest == [] then (with_digest img r.0, r.1) else (ok img, w)
