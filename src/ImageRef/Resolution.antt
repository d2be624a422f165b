-- ===== src/ImageRef/Resolution.antt =====
-- Where a resolved digest comes from.
use aqua_scan_gate.Common.{
  Text, List, [], ◌∷◌, ◌++◌, true, false, Result, ok, err, Result-cases, Bool-cases, ◌==◌, eq_iff,
  ◌≡◌, ◌≢◌, refl, ap, ◌∙◌, ◌⊎◌, inl, inr, All, arith, some, Option-cases, ◌&&◌,
}
use aqua_scan_gate.ImageRef.{ImageRef, Reference}
use aqua_scan_gate.ImageRef.Resolver.{
  Platform, Manifest, Remote, is_for, find_manifest, resolve_from_index, digest_of_index,
  digest_of_image, after_index, resolve_reference, resolve_digest, with_digest, resolve_image_ref,
}

-- An entry of an index for the system and the architecture.
abbrev pub IsForPlatform : Platform → Manifest → Type 0
IsForPlatform target m =
    (p : Platform) × (m.platform ≡ some p)
    × (p.os ≡ target.os)
    × (p.architecture ≡ target.architecture)

is_for-IsForPlatform :
    (target : Platform) (m : Manifest) → is_for target m.platform ≡ true → IsForPlatform target m
unfolding is_for
is_for-IsForPlatform target m h = elim (Option-cases m.platform) [
  | inl e ↦ absurd (ground arith)
  | inr (p, e) ↦
      let both : (p.os == target.os && p.architecture == target.architecture) ≡ true =
        rw (e, is_for) at h in
      (
        p,
        e,
        ground (arith, eq_iff p.os target.os),
        ground (arith, eq_iff p.architecture target.architecture),
      )
]

is_not_for :
    (target : Platform) (m : Manifest) → is_for target m.platform ≡ false → ¬ IsForPlatform target m
unfolding is_for
is_not_for target m h (p, e, os, architecture) =
    let differs : (p.os == target.os && p.architecture == target.architecture) ≡ false =
      rw (e, is_for) at h in
    ground (arith, eq_iff p.os target.os, eq_iff p.architecture target.architecture)

-- The digest of the first manifest for the platform.
abbrev pub IsFirstFor : Platform → List Manifest → Text → Type 0
IsFirstFor target ms digest =
    (before : List Manifest) × (m : Manifest) × (after : List Manifest) × (ms ≡ before ++ m ∷ after)
    × All (λ n. ¬ IsForPlatform target n) before
    × IsForPlatform target m
    × (m.digest ≡ digest)

-- An answer to the request for an index that has no entry for the platform.
abbrev pub GivesNone : Platform → Result Text (Result Text (List Manifest)) → Type 0
GivesNone target (err e) = Unit
GivesNone target (ok (err e)) = Unit
GivesNone target (ok (ok ms)) = All (λ n. ¬ IsForPlatform target n) ms

find_manifest_sound :
    (target : Platform) (ms : List Manifest) (digest : Text)
    → find_manifest target ms ≡ ok digest
    → IsFirstFor target ms digest
unfolding find_manifest
find_manifest_sound target [] digest h = absurd (ground arith)
find_manifest_sound target (m ∷ ms) digest h = elim (Bool-cases (is_for target m.platform)) [
  | inl e ↦
      let same : ◌≡◌ {A = Result Text Text} (ok m.digest) (ok digest) =
        rw (e, find_manifest) at h in
      ([], m, ms, refl, tt, is_for-IsForPlatform target m e, cc)
  | inr e ↦
      let (before, m', after, split, others, fits, d) =
        find_manifest_sound target ms digest (rw (e, find_manifest) at h) in
      (m ∷ before, m', after, ap (λ l. m ∷ l) split, (is_not_for target m e, others), fits, d)
]

find_manifest_none :
    (target : Platform) (ms : List Manifest) (failure : Text)
    → find_manifest target ms ≡ err failure
    → All (λ n. ¬ IsForPlatform target n) ms
unfolding find_manifest
find_manifest_none target [] failure h = tt
find_manifest_none target (m ∷ ms) failure h = elim (Bool-cases (is_for target m.platform)) [
  | inl e ↦
      let no : ◌≡◌ {A = Result Text Text} (ok m.digest) (err failure) =
        rw (e, find_manifest) at h in
      absurd (ground arith)
  | inr e ↦
      (is_not_for target m e, find_manifest_none target ms failure (rw (e, find_manifest) at h))
]

digest_of_index-GivesNone :
    (target : Platform) (answer : Result Text (Result Text (List Manifest))) (failure : Text)
    → digest_of_index target answer ≡ err failure
    → GivesNone target answer
unfolding digest_of_index resolve_from_index
digest_of_index-GivesNone target (err e) failure h = tt
digest_of_index-GivesNone target (ok (err e)) failure h = tt
digest_of_index-GivesNone target (ok (ok ms)) failure h =
    elim (Result-cases (find_manifest target ms)) [
      | inl (found, e) ↦
          let no : ◌≡◌ {A = Result Text Text} (ok found) (err failure) =
            rw (e, digest_of_index) at h in
          absurd (ground arith)
      | inr (missing, e) ↦ find_manifest_none target ms missing e
    ]

digest_of_index_sound :
    (target : Platform) (answer : Result Text (Result Text (List Manifest))) (digest : Text)
    → digest_of_index target answer ≡ ok digest
    → (ms : List Manifest) × (answer ≡ ok (ok ms)) × IsFirstFor target ms digest
unfolding digest_of_index resolve_from_index
digest_of_index_sound target (err e) digest h = absurd (ground arith)
digest_of_index_sound target (ok (err e)) digest h = absurd (ground arith)
digest_of_index_sound target (ok (ok ms)) digest h = elim (Result-cases (find_manifest target ms)) [
  | inl (found, e) ↦
      (ms, refl, find_manifest_sound target ms digest (e ∙ (rw (e, digest_of_index) at h)))
  | inr (failure, e) ↦ absurd (ground arith)
]

digest_of_image_sound :
    (answer : Result Text (Result Text Text)) (digest : Text)
    → digest_of_image answer ≡ ok digest
    → answer ≡ ok (ok digest)
unfolding digest_of_image
digest_of_image_sound (err e) digest h = absurd (ground arith)
digest_of_image_sound (ok (err e)) digest h = absurd (ground arith)
digest_of_image_sound (ok (ok d)) digest h = ap (λ r. ok r) h

module _ {W : Type 0} (parse : Text → Result Text Reference) (remote : Remote W)
    (target : Platform) where
  -- The registry gave the digest: in an index, for the platform, or, where no index has any for it, as
  -- a single image.
  abbrev pub IsGiven : Reference → W → Text → Type 0
  IsGiven ref w digest =
      ((ms : List Manifest) × ((remote.index ref w).0 ≡ ok (ok ms)) × IsFirstFor target ms digest)
      ⊎ (GivesNone target (remote.index ref w).0
          × ((remote.image ref (remote.index ref w).1).0 ≡ ok (ok digest)))

  -- The digest stands in the reference, or the registry gave it.
  abbrev pub IsDigestOf : Text → W → Text → Type 0
  IsDigestOf image w digest =
      (registry : Text) × (repository : Text) × ((parse image
          ≡ ok (Reference.digest registry repository digest))
        ⊎ ((name : Text) × (parse image ≡ ok (Reference.tag registry repository name))
            × IsGiven (Reference.tag registry repository name) w digest))

  after_index_sound :
      (ref : Reference) (w : W) (digest : Text)
      → (after_index parse remote target ref
          (digest_of_index target (remote.index ref w).0)
          (remote.index ref w).1).0
        ≡ ok digest
      → IsGiven ref w digest
  unfolding after_index
  after_index_sound ref w digest h =
      elim (Result-cases (digest_of_index target (remote.index ref w).0)) [
        | inl (d, e) ↦ inl (digest_of_index_sound target _ digest (e ∙ (rw (e, after_index) at h)))
        | inr (failure, e) ↦ inr (
          digest_of_index-GivesNone target (remote.index ref w).0 failure e,
          digest_of_image_sound _ digest (rw (e, after_index) at h),
        )
      ]

  resolve_reference_sound :
      (image : Text) (ref : Reference) (w : W) (digest : Text)
      → parse image ≡ ok ref
      → (resolve_reference parse remote target ref w).0 ≡ ok digest
      → IsDigestOf image w digest
  unfolding resolve_reference
  resolve_reference_sound image (Reference.digest registry repository d) w digest e h =
      let same : d ≡ digest = cc in
      (registry, repository, inl (e ∙ ap (λ x. ok (Reference.digest registry repository x)) same))
  resolve_reference_sound image (Reference.tag registry repository name) w digest e h = (
    registry,
    repository,
    inr (name, e, after_index_sound (Reference.tag registry repository name) w digest h),
  )

  resolve_digest_sound :
      (image : Text) (w : W) (digest : Text)
      → (resolve_digest parse remote target image w).0 ≡ ok digest
      → IsDigestOf image w digest
  unfolding resolve_digest
  resolve_digest_sound image w digest h = elim (Result-cases (parse image)) [
    | inl (ref, e) ↦ resolve_reference_sound image ref w digest e (rw (e, resolve_digest) at h)
    | inr (failure, e) ↦
        let no : ◌≡◌ {A = Result Text Text} (err _) (ok digest) = rw (e, resolve_digest) at h in
        absurd (ground arith)
  ]

  with_digest_sound :
      (img img' : ImageRef) (answer : Result Text Text)
      → with_digest parse remote target img answer ≡ ok img'
      → (img'.image ≡ img.image) × (answer ≡ ok img'.digest)
  unfolding with_digest
  with_digest_sound img img' (ok digest) h = (cc, cc)
  with_digest_sound img img' (err e) h = absurd (ground arith)

  -- A resolved reference keeps the image's text. A digest that was there is kept too; any other stands
  -- in the image's text, or the registry gave it: as the first entry of an index for the system
  -- and the architecture, or, if there was no index to read or no entry of it was for them, as that of a
  -- single image.
  pub resolve_image_ref_sound :
      (img img' : ImageRef) (w : W)
      → (resolve_image_ref parse remote target img w).0 ≡ ok img'
      → (img'.image ≡ img.image)
        × (((img.digest ≢ []) × (img'.digest ≡ img.digest)) ⊎ IsDigestOf img.image w img'.digest)
  unfolding resolve_image_ref
  resolve_image_ref_sound img img' w h = elim (Bool-cases (img.digest == [])) [
    | inl e ↦
        let r = resolve_digest parse remote target img.image w in
        let (same, answer) = with_digest_sound img img' r.0 (rw (e, resolve_image_ref) at h) in
        (same, inr (resolve_digest_sound img.image w img'.digest answer))
    | inr e ↦
        let same : ◌≡◌ {A = Result Text ImageRef} (ok img) (ok img') =
          rw (e, resolve_image_ref) at h in
        let full : img.digest ≢ [] = ground (arith, eq_iff img.digest []) in (cc, inl (full, cc))
  ]
