-- ===== src/Common/Trims.antt =====
-- What trim_prefix and trim_suffix leave, described without them.
use Prim.Native.Nat.{◌-◌}
use mathlib.Core.Path.{◌≡◌, refl, sym, ap, ◌∙◌}
use mathlib.Core.Logic.{◌≢◌, ◌⊎◌, inl, inr}
use mathlib.Core.Bool.{true}
use mathlib.Core.List.{[], ◌∷◌, ◌++◌, reverse, reverse-append, reverse-reverse}
use native.Mathlib.Omega.{arith}
use aqua_scan_gate.Common.Tests.{Bool-cases}
use aqua_scan_gate.Common.Lists.{length, take, drop, length-append}
use aqua_scan_gate.Common.Texts.{
  Text, has_prefix, has_suffix, trim_prefix, trim_suffix, has_prefix_sound,
}

-- What is behind the prefix, if it is there, and otherwise the text itself.
abbrev pub IsWithoutPrefix : Text → Text → Text → Type 0
IsWithoutPrefix p s t = (s ≡ p ++ t) ⊎ (((rest : Text) → s ≢ p ++ rest) × (t ≡ s))

abbrev pub IsWithoutSuffix : Text → Text → Text → Type 0
IsWithoutSuffix p s t = (s ≡ t ++ p) ⊎ (((front : Text) → s ≢ front ++ p) × (t ≡ s))

has_prefix-append : (p t : Text) → has_prefix (p ++ t) p ≡ true
unfolding has_prefix
has_prefix-append [] t = refl
has_prefix-append (a ∷ p) t = ground (arith, has_prefix-append p t)

drop-append : (p t : Text) → drop (length p) (p ++ t) ≡ t
drop-append [] t = refl
drop-append (a ∷ p) t = drop-append p t

take-append : (t p : Text) → take (length t) (t ++ p) ≡ t
take-append [] p = refl
take-append (a ∷ t) p = ap (λ l. a ∷ l) (take-append t p)

take-front : (t p : Text) → take (length (t ++ p) - length p) (t ++ p) ≡ t
take-front t p =
    let same : length (t ++ p) - length p ≡ length t = omega (arith, length-append t p) in
    rw same (take-append t p)

pub trim_prefix-IsWithoutPrefix : (p s : Text) → IsWithoutPrefix p s (trim_prefix s p)
unfolding trim_prefix
trim_prefix-IsWithoutPrefix p s = elim (Bool-cases (has_prefix s p)) [
  | inl y ↦
      let (rest, e) = has_prefix_sound s p y in
      rw (y, trim_prefix)
        (inl (e ∙ ap (λ l. p ++ l) (sym (ap (drop (length p)) e ∙ drop-append p rest))))
  | inr n ↦
      rw (n, trim_prefix)
        (inr (λ rest e. cc (n, ap (λ l. has_prefix l p) e ∙ has_prefix-append p rest), refl))
]

has_suffix_sound : (s p : Text) → has_suffix s p ≡ true → (front : Text) × (s ≡ front ++ p)
unfolding has_suffix
has_suffix_sound s p h =
    let (rest, e) = has_prefix_sound (reverse s) (reverse p) h in
    (
      reverse rest,
      sym (reverse-reverse s)
          ∙ ap (λ l. reverse l) e
          ∙ reverse-append (reverse p) rest
          ∙ ap (λ l. reverse rest ++ l) (reverse-reverse p),
    )

has_suffix-append : (front p : Text) → has_suffix (front ++ p) p ≡ true
unfolding has_suffix
has_suffix-append front p =
    ap (λ l. has_prefix l (reverse p)) (reverse-append front p)
    ∙ has_prefix-append (reverse p) (reverse front)

pub trim_suffix-IsWithoutSuffix : (p s : Text) → IsWithoutSuffix p s (trim_suffix s p)
unfolding trim_suffix
trim_suffix-IsWithoutSuffix p s = elim (Bool-cases (has_suffix s p)) [
  | inl y ↦
      let (front, e) = has_suffix_sound s p y in
      let cut : take (length s - length p) s ≡ front =
        ap (λ l. take (length l - length p) l) e ∙ take-front front p in
      rw (y, trim_suffix) (inl (e ∙ ap (λ l. l ++ p) (sym cut)))
  | inr n ↦
      rw (n, trim_suffix)
        (inr (λ front e. cc (n, ap (λ l. has_suffix l p) e ∙ has_suffix-append front p), refl))
]

pub IsWithoutPrefix-unique :
    (p : Text) {s : Text} (t u : Text) → IsWithoutPrefix p s t → IsWithoutPrefix p s u → t ≡ u
IsWithoutPrefix-unique p t u (inl e) (inl f) =
    sym (drop-append p t) ∙ ap (drop (length p)) (sym e ∙ f) ∙ drop-append p u
IsWithoutPrefix-unique p t u (inl e) (inr (absent, same)) = absurd (absent t e)
IsWithoutPrefix-unique p t u (inr (absent, same)) (inl f) = absurd (absent u f)
IsWithoutPrefix-unique p t u (inr (_, e)) (inr (_, f)) = e ∙ sym f

pub IsWithoutSuffix-unique :
    (p : Text) {s : Text} (t u : Text) → IsWithoutSuffix p s t → IsWithoutSuffix p s u → t ≡ u
IsWithoutSuffix-unique p t u (inl e) (inl f) =
    sym (take-front t p) ∙ ap (λ l. take (length l - length p) l) (sym e ∙ f) ∙ take-front u p
IsWithoutSuffix-unique p t u (inl e) (inr (absent, same)) = absurd (absent t e)
IsWithoutSuffix-unique p t u (inr (absent, same)) (inl f) = absurd (absent u f)
IsWithoutSuffix-unique p t u (inr (_, e)) (inr (_, f)) = e ∙ sym f
