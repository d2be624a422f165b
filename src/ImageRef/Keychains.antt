-- ===== src/ImageRef/Keychains.antt =====
-- `DebugMultiKeychain` of pkg/imageref/debug_keychain.go: credentials for a registry, from the first
-- keychain that has some. Its log lines are left out.
use aqua_scan_gate.Common.{
  ap, ◌∙◌, Text, List, [], ◌∷◌, ◌++◌, Bool, true, false, ◌&&◌, not, Option, none, some, Result, ok,
  err, Bool-cases, ◌==◌, if◌then◌else◌, ◌≡◌, refl, ◌⊎◌, inl, inr, All, ◌≢◌, eq_iff, arith,
}

-- authn.AuthConfig
pub record Credentials : Type 0 where
  pub username : Text
  pub password : Text
  pub registry_token : Text
  pub identity_token : Text

-- An authn.Authenticator: `credentials` is what Authorization() returns, with `none` for nil.
pub data Authenticator : Type 0 where
  anonymous : Authenticator
  credentials : Result Text (Option Credentials) → Authenticator

-- An authn.Keychain, for one state of its environment.
abbrev pub Keychain : Type 0
Keychain = Text → Result Text Authenticator

unfoldable pub is_empty : Credentials → Bool
unfolding ◌==◌
is_empty c =
    c.username == [] && c.password == [] && c.registry_token == [] && c.identity_token == []

-- whether the loop of `Resolve` stops at an answer
unfoldable pub is_usable : Result Text Authenticator → Bool
unfolding is_empty
is_usable (err e) = false
is_usable (ok Authenticator.anonymous) = false
is_usable (ok (Authenticator.credentials (err e))) = false
is_usable (ok (Authenticator.credentials (ok none))) = false
is_usable (ok (Authenticator.credentials (ok (some c)))) = not (is_empty c)

unfoldable pub multi_resolve : List Keychain → Text → Result Text Authenticator
unfolding is_usable
multi_resolve [] target = ok Authenticator.anonymous
multi_resolve (kc ∷ kcs) target =
    if is_usable (kc target) then kc target else multi_resolve kcs target

-- An answer that offers credentials, of which at least one part is not empty.
abbrev pub HasCredentials : Result Text Authenticator → Type 0
HasCredentials answer =
    (c : Credentials) × (answer ≡ ok (Authenticator.credentials (ok (some c))))
    × ((c.username ≢ [])
        ⊎ ((c.password ≢ []) ⊎ ((c.registry_token ≢ []) ⊎ (c.identity_token ≢ []))))

-- The first keychain with credentials answers, or none has any and the answer is anonymous.
abbrev pub IsFirstUsable : List Keychain → Text → Type 0
IsFirstUsable kcs target =
    (All (λ kc. ¬ HasCredentials (kc target)) kcs
      × (multi_resolve kcs target ≡ ok Authenticator.anonymous))
    ⊎ ((before : List Keychain) × (kc : Keychain) × (after : List Keychain) × (kcs
          ≡ before ++ kc ∷ after)
        × All (λ kc'. ¬ HasCredentials (kc' target)) before
        × HasCredentials (kc target)
        × (multi_resolve kcs target ≡ kc target))

some_part :
    (c : Credentials)
    → is_empty c ≡ false
    → (c.username ≢ []) ⊎ ((c.password ≢ []) ⊎ ((c.registry_token ≢ []) ⊎ (c.identity_token ≢ [])))
unfolding is_empty
some_part c h = ground (
  arith,
  eq_iff c.username [],
  eq_iff c.password [],
  eq_iff c.registry_token [],
  eq_iff c.identity_token [],
)

is_usable-HasCredentials :
    (answer : Result Text Authenticator) → is_usable answer ≡ true → HasCredentials answer
unfolding is_usable
is_usable-HasCredentials (err e) h = absurd (ground arith)
is_usable-HasCredentials (ok Authenticator.anonymous) h = absurd (ground arith)
is_usable-HasCredentials (ok (Authenticator.credentials (err e))) h = absurd (ground arith)
is_usable-HasCredentials (ok (Authenticator.credentials (ok none))) h = absurd (ground arith)
is_usable-HasCredentials (ok (Authenticator.credentials (ok (some c)))) h =
    (c, refl, some_part c (ground arith))

HasCredentials-is_usable :
    (answer : Result Text Authenticator) → HasCredentials answer → is_usable answer ≡ true
unfolding is_usable is_empty
HasCredentials-is_usable answer (c, e, part) =
    rw (e, is_usable)
      (ground (
        arith,
        part,
        eq_iff c.username [],
        eq_iff c.password [],
        eq_iff c.registry_token [],
        eq_iff c.identity_token [],
      ))

not_usable :
    (answer : Result Text Authenticator) → is_usable answer ≡ false → ¬ HasCredentials answer
not_usable answer h k = cc (h, HasCredentials-is_usable answer k)

multi_resolve_skip :
    (kc : Keychain) (kcs : List Keychain) (target : Text)
    → is_usable (kc target) ≡ false
    → multi_resolve (kc ∷ kcs) target ≡ multi_resolve kcs target
unfolding multi_resolve
multi_resolve_skip kc kcs target h = rw (h, multi_resolve) refl

-- The chain answers as the first of its keychains that offers credentials of which a part is not empty,
-- and if there is none it answers anonymous.
pub multi_resolve-IsFirstUsable : (kcs : List Keychain) (target : Text) → IsFirstUsable kcs target
unfolding multi_resolve
multi_resolve-IsFirstUsable [] target = inl (tt, refl)
multi_resolve-IsFirstUsable (kc ∷ kcs) target = elim (Bool-cases (is_usable (kc target))) [
  | inl e ↦
      inr
        ([], kc, kcs, refl, tt, is_usable-HasCredentials (kc target) e, rw (e, multi_resolve) refl)
  | inr e ↦
      let none_here = not_usable (kc target) e in
      let skip = multi_resolve_skip kc kcs target e in
      elim (multi_resolve-IsFirstUsable kcs target) [
        | inl (others, answer) ↦ inl ((none_here, others), skip ∙ answer)
        | inr (before, kc', after, split, others, offers, answer) ↦ inr (
          kc ∷ before,
          kc',
          after,
          ap (λ l. kc ∷ l) split,
          (none_here, others),
          offers,
          skip ∙ answer,
        )
      ]
]
