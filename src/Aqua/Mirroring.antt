-- ===== src/Aqua/Mirroring.antt =====
-- Which mirror ApplyRegistryMirror of pkg/aqua/client.go applies to an image, and what it makes of it.
use mathlib.Core.Option
use aqua_scan_gate.Common.{
  ℕ, suc, subst, Text, codes, List, [], ◌∷◌, ◌++◌, ◌+◌, true, false, Option, none, some, Bool-cases,
  Option-cases, nat_eq, ◌==◌, eq_iff, ◌||◌, ◌&&◌, ◌≡◌, ◌≢◌, refl, ap, ◌⊎◌, inl, inr, All, Lacks,
  take, drop, index_of, arith,
}
use aqua_scan_gate.Aqua.Mirrors.{
  RegistryMirror, normalize_registry_url, is_docker_hub_alias, split_host, mirrors_registry,
  parse_mirror_url, adjusted_name, apply_registry_mirror,
}
use aqua_scan_gate.Aqua.Normalizing.{IsNormal, normalize-IsNormal, IsNormal-eq-normalize}

abbrev pub IsDockerHub : Text → Type 0
IsDockerHub address = (address ≡ codes "docker.io") ⊎ (address ≡ codes "index.docker.io")

-- The source and the registry are the same address, or both are names of Docker Hub.
abbrev pub IsSourceOf : Text → RegistryMirror → Type 0
IsSourceOf registry m =
    (a : Text) × (b : Text) × IsNormal registry a
    × IsNormal m.source b
    × ((a ≡ b) ⊎ (IsDockerHub a × IsDockerHub b))

is_docker_hub_alias_sound : (t : Text) → is_docker_hub_alias t ≡ true → IsDockerHub t
unfolding is_docker_hub_alias
is_docker_hub_alias_sound t h =
    ground (arith, eq_iff t (codes "docker.io"), eq_iff t (codes "index.docker.io"))

is_docker_hub_alias_complete : (t : Text) → IsDockerHub t → is_docker_hub_alias t ≡ true
unfolding is_docker_hub_alias
is_docker_hub_alias_complete t h =
    ground (arith, h, eq_iff t (codes "docker.io"), eq_iff t (codes "index.docker.io"))

same_address_sound :
    (a b : Text)
    → (a == b || (is_docker_hub_alias a && is_docker_hub_alias b)) ≡ true
    → (a ≡ b) ⊎ (IsDockerHub a × IsDockerHub b)
same_address_sound a b h = elim (Bool-cases (a == b)) [
  | inl y ↦ inl ((eq_iff a b).0 y)
  | inr n ↦
      inr (is_docker_hub_alias_sound a (ground arith), is_docker_hub_alias_sound b (ground arith))
]

mirrors_registry-IsSourceOf :
    (registry : Text) (m : RegistryMirror)
    → mirrors_registry registry m ≡ true
    → IsSourceOf registry m
unfolding mirrors_registry
mirrors_registry-IsSourceOf registry m h =
    let a = normalize_registry_url registry in
    let b = normalize_registry_url m.source in
    (a, b, normalize-IsNormal registry, normalize-IsNormal m.source, same_address_sound a b h)

same_address :
    (a b : Text)
    → ((a ≡ b) ⊎ (IsDockerHub a × IsDockerHub b))
    → (a == b || (is_docker_hub_alias a && is_docker_hub_alias b)) ≡ true
same_address a b (inl e) = ground (arith, (eq_iff a b).1 e)
same_address a b (inr (p, q)) =
    ground (arith, is_docker_hub_alias_complete a p, is_docker_hub_alias_complete b q)

IsSourceOf-mirrors_registry :
    (registry : Text) (m : RegistryMirror)
    → IsSourceOf registry m
    → mirrors_registry registry m ≡ true
unfolding mirrors_registry
IsSourceOf-mirrors_registry registry m (a, b, na, nb, same) =
    rw (← IsNormal-eq-normalize registry a na, ← IsNormal-eq-normalize m.source b nb)
      (same_address a b same)

not_source :
    (registry : Text) (m : RegistryMirror)
    → mirrors_registry registry m ≡ false
    → ¬ IsSourceOf registry m
not_source registry m h s = cc (h, IsSourceOf-mirrors_registry registry m s)

-- The address is the host, or the host, a slash and the path.
abbrev pub IsHostOf : Text → Text → Text → Type 0
IsHostOf address host path =
    Lacks b'/' host × (((address ≡ host) × (path ≡ [])) ⊎ (address ≡ host ++ b'/' ∷ path))

abbrev FoundAt : Text → Option ℕ → Type 0
FoundAt s none = Lacks b'/' s
FoundAt s (some i) = Lacks b'/' (take i s) × (s ≡ take i s ++ b'/' ∷ drop (i + 1) s)

FoundAt-tail :
    (c : ℕ) (s : Text) (o : Option ℕ)
    → nat_eq c b'/' ≡ false
    → FoundAt s o
    → FoundAt (c ∷ s) (Option.map suc o)
FoundAt-tail c s none h lacks = (h, lacks)
FoundAt-tail c s (some i) h (lacks, e) =
    let after : suc i + 1 ≡ suc (i + 1) = omega arith in ((h, lacks), rw after (ap (λ l. c ∷ l) e))

index_of-FoundAt : (s : Text) → FoundAt s (index_of s (codes "/"))
unfolding index_of
index_of-FoundAt [] = tt
index_of-FoundAt (c ∷ s) = elim (Bool-cases (nat_eq c b'/')) [
  | inl y ↦ let same : c ≡ b'/' = ground arith in rw (y, index_of) (tt, ap (λ d. d ∷ s) same)
  | inr n ↦ rw (n, index_of) (FoundAt-tail c s _ n (index_of-FoundAt s))
]

split_host-IsHostOf :
    (address : Text) → IsHostOf address (split_host address).0 (split_host address).1
unfolding split_host
split_host-IsHostOf address =
    let found = index_of-FoundAt address in
    elim (Option-cases (index_of address (codes "/"))) [
      | inl e ↦ rw (e, split_host) (subst (FoundAt address) e found, inl (refl, refl))
      | inr (i, e) ↦
          let (lacks, split) = subst (FoundAt address) e found in
          rw (e, split_host) (lacks, inr split)
    ]

-- The path, if there is one, stands in front of the image's name.
abbrev pub IsUnder : Text → Text → Text → Type 0
IsUnder path image_name name =
    ((path ≡ []) × (name ≡ image_name)) ⊎ ((path ≢ []) × (name ≡ path ++ b'/' ∷ image_name))

adjusted_name-IsUnder :
    (path image_name : Text) → IsUnder path image_name (adjusted_name path image_name)
unfolding adjusted_name
adjusted_name-IsUnder path image_name = elim (Bool-cases (path == [])) [
  | inl y ↦ rw (y, adjusted_name) (inl ((eq_iff path []).0 y, refl))
  | inr n ↦ rw (n, adjusted_name) (inr (ground (arith, eq_iff path []), refl))
]

-- The registry is the host of the mirror's address, and the name has its path in front.
abbrev pub IsMirroredBy : RegistryMirror → Text → Text × Text → Type 0
IsMirroredBy m image_name (registry, name) =
    (address : Text) × (path : Text) × IsNormal m.mirror address
    × IsHostOf address registry path
    × IsUnder path image_name name

parse_mirror_url-IsMirroredBy :
    (m : RegistryMirror) (image_name : Text)
    → IsMirroredBy m image_name
        ((parse_mirror_url m.mirror).0, adjusted_name (parse_mirror_url m.mirror).1 image_name)
unfolding parse_mirror_url
parse_mirror_url-IsMirroredBy m image_name =
    let address = normalize_registry_url m.mirror in
    (
      address,
      (split_host address).1,
      normalize-IsNormal m.mirror,
      split_host-IsHostOf address,
      adjusted_name-IsUnder (split_host address).1 image_name,
    )

-- No mirror is for the registry and nothing changes, or the first one that is for it is applied.
abbrev pub IsMirrored : Text → Text → List RegistryMirror → Text × Text → Type 0
IsMirrored registry image_name mirrors answer =
    (All (λ m. ¬ IsSourceOf registry m) mirrors × (answer ≡ (registry, image_name)))
    ⊎ ((before : List RegistryMirror) × (m : RegistryMirror) × (after : List RegistryMirror)
        × (mirrors ≡ before ++ m ∷ after)
        × All (λ n. ¬ IsSourceOf registry n) before
        × IsSourceOf registry m
        × IsMirroredBy m image_name answer)

-- The first mirror whose source is the registry, up to schemes, a slash at the end and the two names of
-- Docker Hub, replaces the registry by the host of its own address and puts the path of that address, if
-- it has one, in front of the image's name; if there is none, both are kept.
pub apply_registry_mirror-IsMirrored :
    (registry image_name : Text) (mirrors : List RegistryMirror)
    → IsMirrored registry image_name mirrors (apply_registry_mirror registry image_name mirrors)
unfolding apply_registry_mirror
apply_registry_mirror-IsMirrored registry image_name [] = inl (tt, refl)
apply_registry_mirror-IsMirrored registry image_name (m ∷ mirrors) =
    elim (Bool-cases (mirrors_registry registry m)) [
      | inl e ↦
          rw (e, apply_registry_mirror)
            (inr (
              [],
              m,
              mirrors,
              refl,
              tt,
              mirrors_registry-IsSourceOf registry m e,
              parse_mirror_url-IsMirroredBy m image_name,
            ))
      | inr e ↦
          let other = not_source registry m e in
          rw (e, apply_registry_mirror)
            (elim (apply_registry_mirror-IsMirrored registry image_name mirrors) [
              | inl (others, answer) ↦ inl ((other, others), answer)
              | inr (before, m', after, split, others, fits, made) ↦
                  inr (m ∷ before, m', after, ap (λ l. m ∷ l) split, (other, others), fits, made)
            ])
    ]
