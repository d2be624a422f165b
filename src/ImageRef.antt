-- ===== src/ImageRef.antt =====
-- pkg/imageref/imageref.go: image references, their extraction from a pod, and the names of scans.
-- SHA-256 in hexadecimal (`HashString`) and go-containerregistry's parser are parameters.
pub mod Extraction
pub mod Naming
pub mod Resolver
pub mod Keychains
pub mod Masking
pub mod Discretion
pub mod Resolution
use Prim.Native.Nat.{◌≤◌}
use aqua_scan_gate.Common.{
  ℕ, suc, ◌+◌, Text, codes, List, [], ◌∷◌, ◌++◌, Bool, true, false, ◌||◌, Option, none, some,
  Result, ok, err, ltb, ◌==◌, index_of, replace_byte, drop, take, length, if◌then◌else◌,
}
use aqua_scan_gate.Kube.{Container, PodSpec, Pod}

pub record ImageRef : Type 0 where
  pub image : Text
  pub digest : Text

abbrev pub digest_mark : Text
digest_mark = codes "@sha256:"

-- the digest part of `addImage`
unfoldable pub digest_of : Text → Text
unfolding index_of
digest_of image = elim (index_of image digest_mark) [ none ↦ [] | some idx ↦ drop (idx + 1) image ]

-- seen[image]
unfoldable pub seen : Text → List ImageRef → Bool
unfolding ◌==◌
seen image [] = false
seen image (r ∷ rs) = r.image == image || seen image rs

-- `addImage`: the images collected so far are the ones seen, in the order of their first use
unfoldable pub add_image : List ImageRef → Text → List ImageRef
unfolding digest_of seen
add_image images image =
    if image == [] || seen image images
    then images
    else images ++ record { image = image; digest = digest_of image } ∷ []

-- one of the three loops of `ExtractFromPodSpec`
unfoldable pub add_images : List ImageRef → List Container → List ImageRef
unfolding add_image
add_images images [] = images
add_images images (c ∷ cs) = add_images (add_image images c.image) cs

unfoldable pub extract_from_pod_spec : PodSpec → List ImageRef
unfolding add_images
extract_from_pod_spec spec =
    add_images (add_images (add_images [] spec.init_containers) spec.containers)
      spec.ephemeral_containers

unfoldable pub extract_from_pod : Pod → List ImageRef
unfolding extract_from_pod_spec
extract_from_pod pod = extract_from_pod_spec pod.spec

module _ (hash_string : Text → Text) where
  unfoldable pub scan_name : ImageRef → Text
  unfolding replace_byte
  scan_name img =
      if img.digest == []
      then codes "img-" ++ take 56 (hash_string img.image)
      else let name = replace_byte b':' b'-' img.digest in
        if ltb 63 (length name) then take 63 name else name

-- What go-containerregistry's name.ParseReference returns.
pub data Reference : Type 0 where
  tag digest : Text → Text → Text → Reference

module _ (parse_reference : Text → Option Reference) where
  -- registry, repository, and the tag or digest with its separator
  unfoldable pub parse_registry_image_and_tag : Text → Text × Text × Text
  parse_registry_image_and_tag image = elim (parse_reference image) [
    | none ↦ ([], image, [])
    | some (tag registry repository name) ↦ (registry, repository, b':' ∷ name)
    | some (digest registry repository name) ↦ (registry, repository, b'@' ∷ name)
  ]
