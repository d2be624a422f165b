-- ===== src/Trigger/Distinct.antt =====
-- How many images `deduplicateImages` of cmd/trigger/aqua-trigger.go leaves.
use aqua_scan_gate.Common.{
  suc, ℕ, Text, List, [], ◌∷◌, ◌++◌, map, Bool-cases, inl, inr, length, ◌≡◌, refl, sym, ap, ◌∙◌,
  append_assoc, append-nil,
}
use aqua_scan_gate.ImageRef.{ImageRef, seen}
use aqua_scan_gate.ImageRef.Extraction.{
  first_uses, without, excluding, excluding-nil, excluding-without, excluding-concat,
}
use aqua_scan_gate.Trigger.Manifests.{add_unseen, deduplicate_images}

abbrev pub texts : List ImageRef → List Text
texts = map (λ img. img.image)

-- The number of different texts among the images.
abbrev pub distinct_count : List ImageRef → ℕ
distinct_count images = length (first_uses (texts images))

texts-concat :
    (acc : List ImageRef) (img : ImageRef) → texts (acc ++ img ∷ []) ≡ texts acc ++ img.image ∷ []
texts-concat [] img = refl
texts-concat (x ∷ acc) img = ap (λ l. x.image ∷ l) (texts-concat acc img)

texts-add_unseen :
    (acc images : List ImageRef)
    → texts (add_unseen acc images) ≡ texts acc ++ excluding acc (first_uses (texts images))
unfolding add_unseen first_uses excluding
texts-add_unseen acc [] = sym (append-nil (texts acc))
texts-add_unseen acc (img ∷ images) =
    let uses = first_uses (texts images) in
    elim (Bool-cases (seen img.image acc)) [
      | inl y ↦ rw (y, excluding-without img.image acc uses y) (texts-add_unseen acc images)
      | inr n ↦ rw n (
          texts-add_unseen (acc ++ img ∷ []) images
          ∙ (rw (texts-concat acc img, excluding-concat img acc uses)
              (append_assoc (texts acc) (img.image ∷ []) (excluding acc (without img.image uses)))))
    ]

length-texts : (images : List ImageRef) → length (texts images) ≡ length images
length-texts [] = refl
length-texts (img ∷ images) = ap (λ n. suc n) (length-texts images)

-- As many as there are different texts.
pub length-deduplicate_images :
    (images : List ImageRef) → length (deduplicate_images images) ≡ distinct_count images
unfolding deduplicate_images
length-deduplicate_images images =
    sym (length-texts (add_unseen [] images))
    ∙ ap (λ l. length l) (texts-add_unseen [] images ∙ excluding-nil (first_uses (texts images)))
