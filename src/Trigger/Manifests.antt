-- ===== src/Trigger/Manifests.antt =====
-- The images in the manifests: extractImagesFromManifests, extractImagesFromDocument and
-- deduplicateImages of cmd/trigger/aqua-trigger.go. The YAML reader and decoder are parameters.
use aqua_scan_gate.Common.{
  Text, codes, List, [], ◌∷◌, ◌++◌, Option, none, some, Result, ok, err, ◌==◌, trim_space,
  if◌then◌else◌,
}
use aqua_scan_gate.Kube.{PodSpec}
use aqua_scan_gate.ImageRef.{ImageRef, seen, extract_from_pod_spec}

-- yaml.Unmarshal of a document: its kind, and the pod spec within a resource of each kind.
pub record Decoder : Type 0 where
  pub kind : Text → Result Text Text
  pub pod : Text → Result Text PodSpec
  pub deployment : Text → Result Text PodSpec
  pub stateful_set : Text → Result Text PodSpec
  pub daemon_set : Text → Result Text PodSpec
  pub replica_set : Text → Result Text PodSpec
  pub job : Text → Result Text PodSpec
  pub cron_job : Text → Result Text PodSpec

-- What the YAML reader gives: documents, and then the end of the input or an error.
pub record Input : Type 0 where
  pub documents : List Text
  pub failure : Option Text

-- one case of the switch, and what follows the switch
unfoldable pub images_of : Text → Result Text PodSpec → Result Text (List ImageRef)
unfolding extract_from_pod_spec
images_of context (err e) = err (codes "parsing " ++ (context ++ (codes ": " ++ e)))
images_of context (ok spec) = ok (extract_from_pod_spec spec)

module _ (decoder : Decoder) where
  unfoldable pub images_by_kind : Text → Text → Result Text (List ImageRef)
  unfolding images_of ◌==◌
  images_by_kind kind doc =
      if kind == codes "Pod"
      then images_of (codes "Pod") (decoder.pod doc)
      else if kind == codes "Deployment"
      then images_of (codes "Deployment") (decoder.deployment doc)
      else if kind == codes "StatefulSet"
      then images_of (codes "StatefulSet") (decoder.stateful_set doc)
      else if kind == codes "DaemonSet"
      then images_of (codes "DaemonSet") (decoder.daemon_set doc)
      else if kind == codes "ReplicaSet"
      then images_of (codes "ReplicaSet") (decoder.replica_set doc)
      else if kind == codes "Job"
      then images_of (codes "Job") (decoder.job doc)
      else if kind == codes "CronJob"
      then images_of (codes "CronJob") (decoder.cron_job doc)
      else ok []

  unfoldable pub extract_images_from_document : Text → Result Text (List ImageRef)
  unfolding images_by_kind
  extract_images_from_document doc = elim (decoder.kind doc) [
    | err e ↦ err (codes "parsing type meta: " ++ e)
    | ok kind ↦ images_by_kind kind doc
  ]

  -- a document that fails is skipped
  unfoldable pub or_none : Result Text (List ImageRef) → List ImageRef
  or_none (ok images) = images
  or_none (err e) = []

  unfoldable pub extract_documents : List ImageRef → List Text → List ImageRef
  unfolding extract_images_from_document or_none trim_space ◌==◌
  extract_documents all_images [] = all_images
  extract_documents all_images (doc ∷ docs) =
      let images =
        if trim_space doc == [] then [] else or_none (extract_images_from_document doc) in
      extract_documents (all_images ++ images) docs

  unfoldable pub extract_images_from_manifests : Input → Result Text (List ImageRef)
  unfolding extract_documents
  extract_images_from_manifests input = elim input.failure [
    | some e ↦ err (codes "reading YAML document: " ++ e)
    | none ↦ ok (extract_documents [] input.documents)
  ]

-- the loop of `deduplicateImages`: the images in the result are the ones seen
unfoldable pub add_unseen : List ImageRef → List ImageRef → List ImageRef
unfolding seen
add_unseen result [] = result
add_unseen result (img ∷ images) =
    add_unseen (if seen img.image result then result else result ++ img ∷ []) images

unfoldable pub deduplicate_images : List ImageRef → List ImageRef
unfolding add_unseen
deduplicate_images images = add_unseen [] images
