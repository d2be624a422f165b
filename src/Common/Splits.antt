-- ===== src/Common/Splits.antt =====
-- strings.Split, strings.SplitN and strings.TrimSpace, for a separator of one byte and for the white
-- space of ASCII.
use Prim.Native.Nat.{ℕ}
use mathlib.Core.Path.{◌≡◌, refl, ap, ◌∙◌}
use mathlib.Core.Bool.{Bool, false, ◌&&◌, ◌||◌}
use mathlib.Core.Option.{Option, none, some}
use mathlib.Core.List.{List, [], ◌∷◌, ◌++◌}
use native.Mathlib.Omega.{arith}
use aqua_scan_gate.Common.Tests.{nat_eq, leb, if◌then◌else◌}
use aqua_scan_gate.Common.Lists.{All}
use aqua_scan_gate.Common.Texts.{Text, ◌==◌}

-- the byte goes in front of the first part
unfoldable pub onto_first : ℕ → List Text → List Text
onto_first c [] = (c ∷ []) ∷ []
onto_first c (p ∷ ps) = (c ∷ p) ∷ ps

-- strings.Split
unfoldable pub split : ℕ → Text → List Text
unfolding onto_first
split sep [] = [] ∷ []
split sep (c ∷ s) = let rest = split sep s in if nat_eq c sep then [] ∷ rest else onto_first c rest

-- strings.SplitN(s, sep, 2): the texts before and after the first separator, if there is one
unfoldable pub cut_at : ℕ → Text → Option (Text × Text)
cut_at sep [] = none
cut_at sep (c ∷ s) =
    let rest = cut_at sep s in
    if nat_eq c sep
    then some ([], s)
    else elim rest [ none ↦ none | some (before, after) ↦ some (c ∷ before, after) ]

unfoldable pub is_space : ℕ → Bool
is_space c = nat_eq c 32 || (leb 9 c && leb c 13)

unfoldable pub trim_left : Text → Text
unfolding is_space
trim_left [] = []
trim_left (c ∷ s) = let rest = trim_left s in if is_space c then rest else c ∷ s

unfoldable pub trim_right : Text → Text
unfolding is_space ◌==◌
trim_right [] = []
trim_right (c ∷ s) = let rest = trim_right s in if is_space c && rest == [] then [] else c ∷ rest

-- strings.TrimSpace
unfoldable pub trim_space : Text → Text
unfolding trim_left trim_right
trim_space s = trim_right (trim_left s)

-- strings.Join
abbrev pub join : ℕ → List Text → Text
join sep [] = []
join sep (p ∷ []) = p
join sep (p ∷ q ∷ ps) = p ++ sep ∷ join sep (q ∷ ps)

abbrev pub Lacks : ℕ → Text → Type 0
Lacks sep s = All (λ c. nat_eq c sep ≡ false) s

abbrev pub IsSolid : Text → Type 0
IsSolid s = All (λ c. is_space c ≡ false) s

split_whole : (sep : ℕ) (p : Text) → Lacks sep p → split sep p ≡ p ∷ []
unfolding split
split_whole sep [] h = refl
split_whole sep (c ∷ p) (h, hs) = rw (h, split) (ap (onto_first c) (split_whole sep p hs))

split_first : (sep : ℕ) (p s : Text) → Lacks sep p → split sep (p ++ sep ∷ s) ≡ p ∷ split sep s
unfolding split
split_first sep [] s h = ground arith
split_first sep (c ∷ p) s (h, hs) = rw (h, split) (ap (onto_first c) (split_first sep p s hs))

-- Splitting a join gives the parts back, if there is a part and none holds the separator.
pub split-join :
    (sep : ℕ) (p : Text) (ps : List Text)
    → All (Lacks sep) (p ∷ ps)
    → split sep (join sep (p ∷ ps)) ≡ p ∷ ps
split-join sep p [] (h, hs) = split_whole sep p h
split-join sep p (q ∷ ps) (h, hs) = split_first sep p _ h ∙ ap (λ l. p ∷ l) (split-join sep q ps hs)

pub cut_at_first : (sep : ℕ) (p s : Text) → Lacks sep p → cut_at sep (p ++ sep ∷ s) ≡ some (p, s)
unfolding cut_at
cut_at_first sep [] s h = ground arith
cut_at_first sep (c ∷ p) s (h, hs) = rw (h, cut_at, cut_at_first sep p s hs) refl

trim_left_solid : (s : Text) → IsSolid s → trim_left s ≡ s
unfolding trim_left
trim_left_solid [] h = refl
trim_left_solid (c ∷ s) (h, hs) = rw (h, trim_left) refl

trim_right_solid : (s : Text) → IsSolid s → trim_right s ≡ s
unfolding trim_right
trim_right_solid [] h = refl
trim_right_solid (c ∷ s) (h, hs) = rw (h, trim_right) (ap (λ t. c ∷ t) (trim_right_solid s hs))

pub trim_space_solid : (s : Text) → IsSolid s → trim_space s ≡ s
unfolding trim_space
trim_space_solid s h = ap trim_right (trim_left_solid s h) ∙ trim_right_solid s h
