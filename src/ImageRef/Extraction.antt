-- ===== src/ImageRef/Extraction.antt =====
-- What `ExtractFromPodSpec` of pkg/imageref/imageref.go collects: the images in use, each once, in
-- the order of their first use.
use aqua_scan_gate.Common.{
  Text, List, [], ◌∷◌, ◌++◌, map, true, ◌||◌, ◌≡◌, refl, sym, ap, ◌∙◌, ◌≢◌, arith, ◌==◌, eq_iff,
  if◌then◌else◌, Bool-cases, inl, inr, All, Memᴰ, append_assoc, append-nil,
}
use aqua_scan_gate.Kube.{Container, PodSpec}
use aqua_scan_gate.ImageRef.{
  ImageRef, digest_of, seen, add_image, add_images, extract_from_pod_spec,
}

-- The independent description, on the list of all images of the containers.
abbrev pub ref_of : Text → ImageRef
ref_of image = record { image = image; digest = digest_of image }

unfoldable pub without : Text → List Text → List Text
without t [] = []
without t (x ∷ xs) = if x == t then without t xs else x ∷ without t xs

unfoldable pub first_uses : List Text → List Text
first_uses [] = []
first_uses (t ∷ ts) = t ∷ without t (first_uses ts)

pub used_images : List Container → List Text
used_images [] = []
used_images (c ∷ cs) = if c.image == [] then used_images cs else c.image ∷ used_images cs

abbrev pub all_containers : PodSpec → List Container
all_containers spec = spec.init_containers ++ (spec.containers ++ spec.ephemeral_containers)

unfoldable pub excluding : List ImageRef → List Text → List Text
excluding acc [] = []
excluding acc (x ∷ xs) = if seen x acc then excluding acc xs else x ∷ excluding acc xs

pub excluding-nil : (l : List Text) → excluding [] l ≡ l
unfolding excluding seen
excluding-nil [] = refl
excluding-nil (x ∷ xs) = ap (◌∷◌ x) (excluding-nil xs)

seen-concat :
    (x : Text) (img : ImageRef) (acc : List ImageRef)
    → seen x (acc ++ img ∷ []) ≡ (seen x acc || img.image == x)
unfolding seen
seen-concat x img [] = ground arith
seen-concat x img (r ∷ acc) = ground (arith, seen-concat x img acc)

pub excluding-without :
    (t : Text) (acc : List ImageRef) (l : List Text)
    → seen t acc ≡ true
    → excluding acc (without t l) ≡ excluding acc l
unfolding excluding without
excluding-without t acc [] h = refl
excluding-without t acc (x ∷ l) h = ground (arith, eq_iff x t, excluding-without t acc l h)

pub excluding-concat :
    (img : ImageRef) (acc : List ImageRef) (l : List Text)
    → excluding (acc ++ img ∷ []) l ≡ excluding acc (without img.image l)
unfolding excluding without
excluding-concat img acc [] = refl
excluding-concat img acc (x ∷ l) = ground (
  arith,
  seen-concat x img acc,
  eq_iff x img.image,
  eq_iff img.image x,
  excluding-concat img acc l,
)

add_images-eq-first_uses :
    (acc : List ImageRef) (cs : List Container)
    → add_images acc cs ≡ acc ++ map ref_of (excluding acc (first_uses (used_images cs)))
unfolding add_images first_uses used_images excluding
add_images-eq-first_uses acc [] = sym (append-nil acc)
add_images-eq-first_uses acc (c ∷ cs) =
    let images = first_uses (used_images cs) in
    let added = acc ++ ref_of c.image ∷ [] in
    ground (
      arith,
      add_images-eq-first_uses acc cs,
      add_images-eq-first_uses added cs,
      excluding-concat (ref_of c.image) acc images,
      excluding-without c.image acc images,
      append_assoc acc (ref_of c.image ∷ []) (map ref_of (excluding acc (without c.image images))),
    )

add_images-append :
    (acc : List ImageRef) (cs ds : List Container)
    → add_images (add_images acc cs) ds ≡ add_images acc (cs ++ ds)
unfolding add_images
add_images-append acc [] ds = refl
add_images-append acc (c ∷ cs) ds = add_images-append (add_image acc c.image) cs ds

-- The extraction returns every image that some container uses, once, in the order of first use,
-- each with the digest that its text holds; images that are empty are left out.
pub extract_from_pod_spec-eq-first_uses :
    (spec : PodSpec)
    → extract_from_pod_spec spec ≡ map ref_of (first_uses (used_images (all_containers spec)))
unfolding extract_from_pod_spec
extract_from_pod_spec-eq-first_uses spec =
    rw
      (
        add_images-append [] spec.init_containers spec.containers,
        add_images-append [] (spec.init_containers ++ spec.containers) spec.ephemeral_containers,
        append_assoc spec.init_containers spec.containers spec.ephemeral_containers,
      )
      (add_images-eq-first_uses [] (all_containers spec)
        ∙ ap (map ref_of) (excluding-nil (first_uses (used_images (all_containers spec)))))

abbrev pub Differs : Text → List Text → Type 0
Differs t = All (λ x. x ≢ t)

abbrev pub IsDistinct : List Text → Type 0
IsDistinct [] = Unit
IsDistinct (x ∷ xs) = Differs x xs × IsDistinct xs

without-Differs : (t : Text) (xs : List Text) → Differs t (without t xs)
unfolding without
without-Differs t [] = tt
without-Differs t (x ∷ xs) = ground (arith, eq_iff x t, without-Differs t xs)

Differs-without : (t u : Text) (xs : List Text) → Differs u xs → Differs u (without t xs)
unfolding without
Differs-without t u [] h = tt
Differs-without t u (x ∷ xs) h = ground (arith, Differs-without t u xs)

without-IsDistinct : (t : Text) (xs : List Text) → IsDistinct xs → IsDistinct (without t xs)
unfolding without
without-IsDistinct t [] h = tt
without-IsDistinct t (x ∷ xs) h = ground (arith, without-IsDistinct t xs, Differs-without t x xs)

pub first_uses-IsDistinct : (ts : List Text) → IsDistinct (first_uses ts)
unfolding first_uses
first_uses-IsDistinct [] = tt
first_uses-IsDistinct (t ∷ ts) = (
  without-Differs t (first_uses ts),
  without-IsDistinct t (first_uses ts) (first_uses-IsDistinct ts),
)

Memᴰ-without : (t : Text) {a : Text} (xs : List Text) → a ≢ t → Memᴰ a xs → Memᴰ a (without t xs)
unfolding without
Memᴰ-without t [] h m = elim m [ ]
Memᴰ-without t {a} (x ∷ xs) h (Memᴰ.head e) = elim (Bool-cases (x == t)) [
  | inl y ↦ absurd (h (e ∙ (eq_iff x t).0 y))
  | inr n ↦ rw n (Memᴰ.head e)
]
Memᴰ-without t (x ∷ xs) h (Memᴰ.tail m) = elim (Bool-cases (x == t)) [
  | inl y ↦ rw y (Memᴰ-without t xs h m)
  | inr n ↦ rw n (Memᴰ.tail (Memᴰ-without t xs h m))
]

Memᴰ-first_uses : {a : Text} (ts : List Text) → Memᴰ a ts → Memᴰ a (first_uses ts)
unfolding first_uses
Memᴰ-first_uses [] m = elim m [ ]
Memᴰ-first_uses (t ∷ ts) (Memᴰ.head e) = Memᴰ.head e
Memᴰ-first_uses {a} (t ∷ ts) (Memᴰ.tail m) = elim (Bool-cases (a == t)) [
  | inl y ↦ Memᴰ.head ((eq_iff a t).0 y)
  | inr n ↦
      Memᴰ.tail
        (Memᴰ-without t (first_uses ts) (λ e. ground (arith, eq_iff a t)) (Memᴰ-first_uses ts m))
]

Memᴰ-used_images :
    {c : Container} (cs : List Container) → Memᴰ c cs → c.image ≢ [] → Memᴰ c.image (used_images cs)
unfolding used_images
Memᴰ-used_images [] m h = elim m [ ]
Memᴰ-used_images {c} (d ∷ cs) (Memᴰ.head e) h = elim (Bool-cases (d.image == [])) [
  | inl y ↦ absurd (h (ap (λ (x : Container). x.image) e ∙ (eq_iff d.image []).0 y))
  | inr n ↦ rw n (Memᴰ.head (ap (λ (x : Container). x.image) e))
]
Memᴰ-used_images (d ∷ cs) (Memᴰ.tail m) h = elim (Bool-cases (d.image == [])) [
  | inl y ↦ rw y (Memᴰ-used_images cs m h)
  | inr n ↦ rw n (Memᴰ.tail (Memᴰ-used_images cs m h))
]

Memᴰ-map_ref_of : {a : Text} (ts : List Text) → Memᴰ a ts → Memᴰ (ref_of a) (map ref_of ts)
Memᴰ-map_ref_of [] m = elim m [ ]
Memᴰ-map_ref_of (t ∷ ts) (Memᴰ.head e) = Memᴰ.head (ap ref_of e)
Memᴰ-map_ref_of (t ∷ ts) (Memᴰ.tail m) = Memᴰ.tail (Memᴰ-map_ref_of ts m)

-- No container of the pod escapes: its image is among the extracted ones, unless it is empty.
pub extract-covers :
    (spec : PodSpec) {c : Container}
    → Memᴰ c (all_containers spec)
    → c.image ≢ []
    → Memᴰ (ref_of c.image) (extract_from_pod_spec spec)
extract-covers spec m h =
    rw extract_from_pod_spec-eq-first_uses
      (Memᴰ-map_ref_of _ (Memᴰ-first_uses _ (Memᴰ-used_images (all_containers spec) m h)))
