-- ===== src/Aqua/Normalizing.antt =====
-- normalizeRegistryURL of pkg/aqua/client.go, described without it.
use aqua_scan_gate.Common.{
  Text, codes, ◌≡◌, subst, IsWithoutPrefix, IsWithoutSuffix, trim_prefix,
  trim_prefix-IsWithoutPrefix, trim_suffix-IsWithoutSuffix, IsWithoutPrefix-unique,
  IsWithoutSuffix-unique,
}
use aqua_scan_gate.Aqua.Mirrors.{normalize_registry_url}

-- The address without the schemes in front and without a slash at its end.
abbrev pub IsNormal : Text → Text → Type 0
IsNormal url address =
    (u : Text) × IsWithoutPrefix (codes "https://") url u
    × (v : Text) × IsWithoutPrefix (codes "http://") u v
    × IsWithoutSuffix (codes "/") v address

pub normalize-IsNormal : (url : Text) → IsNormal url (normalize_registry_url url)
unfolding normalize_registry_url
normalize-IsNormal url =
    let u = trim_prefix url (codes "https://") in
    let v = trim_prefix u (codes "http://") in
    (
      u,
      trim_prefix-IsWithoutPrefix (codes "https://") url,
      v,
      trim_prefix-IsWithoutPrefix (codes "http://") u,
      trim_suffix-IsWithoutSuffix (codes "/") v,
    )

IsNormal-unique : (url a b : Text) → IsNormal url a → IsNormal url b → a ≡ b
IsNormal-unique url a b (u, hu, v, hv, ha) (u', hu', v', hv', hb) =
    let same_u : u ≡ u' = IsWithoutPrefix-unique (codes "https://") u u' hu hu' in
    let same_v : v ≡ v' =
      IsWithoutPrefix-unique (codes "http://") v v'
        (subst (λ x. IsWithoutPrefix (codes "http://") x v) same_u hv) hv' in
    IsWithoutSuffix-unique (codes "/") a b (subst (λ x. IsWithoutSuffix (codes "/") x a) same_v ha)
      hb

pub IsNormal-eq-normalize : (url a : Text) → IsNormal url a → a ≡ normalize_registry_url url
IsNormal-eq-normalize url a h =
    IsNormal-unique url a (normalize_registry_url url) h (normalize-IsNormal url)
