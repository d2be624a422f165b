-- ===== src/ImageRef/Discretion.antt =====
-- What the log of pkg/imageref/debug_keychain.go shows of credentials, and what it is to the answers.
use aqua_scan_gate.Common.{
  Text, List, [], ◌∷◌, ◌++◌, map, Bool, true, false, not, ◌||◌, Option, none, some, Result, ok, err,
  Bool-cases, Option-cases, subst, append-nil, if◌then◌else◌, ◌≡◌, refl, sym, ap, ◌∙◌, inl, inr,
  arith,
}
use aqua_scan_gate.ImageRef.Keychains.{
  Credentials, Authenticator, Keychain, is_empty, is_usable, multi_resolve,
}
use aqua_scan_gate.ImageRef.Masking.{
  mask_credential, Presence, presence, Entry, judge_answer, try_keychains, names_of,
  debug_multi_resolve,
}

abbrev pub no_log : List (Text × Keychain) → List Keychain
no_log [] = []
no_log ((name, kc) ∷ kcs) = kc ∷ no_log kcs

-- What a log may show of an answer: which fields are filled, and the mask of the username.
pub data Shape : Type 0 where
  resolve_failed authorization_failed : Text → Shape
  is_anonymous without_config : Shape
  with_config : Presence → Text → Shape

abbrev pub shape_of : Result Text Authenticator → Shape
shape_of (err e) = resolve_failed e
shape_of (ok Authenticator.anonymous) = is_anonymous
shape_of (ok (Authenticator.credentials (err e))) = authorization_failed e
shape_of (ok (Authenticator.credentials (ok none))) = without_config
shape_of (ok (Authenticator.credentials (ok (some c)))) =
    with_config (presence c) (mask_credential c.username)

-- A named keychain by its name and the shape of its answer.
abbrev pub shown : Text → Text × Keychain → Text × Shape
shown target (name, kc) = (name, shape_of (kc target))

-- whether a shape ends the search
ends : Shape → Bool
ends (with_config p masked) =
    p.has_username || p.has_password || p.has_token || p.has_identity_token
ends _ = false

lines_of : Text → Shape → List Entry
lines_of name (resolve_failed e) = Entry.keychain_error name e ∷ []
lines_of name is_anonymous = Entry.returned_anonymous name ∷ []
lines_of name (authorization_failed e) = Entry.authorization_error name e ∷ []
lines_of name without_config = Entry.empty_credentials name ∷ []
lines_of name (with_config p masked) =
    if ends (with_config p masked)
    then Entry.keychain_succeeded name p ∷ []
    else Entry.empty_credentials name ∷ []

log_of : Text → List (Text × Shape) → List Entry
log_of target [] = Entry.no_keychain target ∷ []
log_of target ((name, shape) ∷ rest) =
    let later = log_of target rest in
    Entry.trying name ∷ lines_of name shape ++ (if ends shape then [] else later)

is_empty-ends :
    (c : Credentials) (masked : Text) → ends (with_config (presence c) masked) ≡ not (is_empty c)
unfolding ends is_empty presence
is_empty-ends c masked = ground arith

judge_answer-lines :
    (name : Text) (a : Result Text Authenticator)
    → (judge_answer name a).1 ≡ lines_of name (shape_of a)
unfolding judge_answer lines_of
judge_answer-lines name (err e) = refl
judge_answer-lines name (ok Authenticator.anonymous) = refl
judge_answer-lines name (ok (Authenticator.credentials (err e))) = refl
judge_answer-lines name (ok (Authenticator.credentials (ok none))) = refl
judge_answer-lines name (ok (Authenticator.credentials (ok (some c)))) =
    elim (Bool-cases (is_empty c)) [
      | inl y ↦ rw (is_empty-ends, judge_answer, y) refl
      | inr n ↦ rw (is_empty-ends, judge_answer, n) refl
    ]

-- Whether the search stops, and with what.
abbrev IsJudged : Option Authenticator → Result Text Authenticator → Type 0
IsJudged (some auth) a = (a ≡ ok auth) × (ends (shape_of a) ≡ true) × (is_usable a ≡ true)
IsJudged none a = (ends (shape_of a) ≡ false) × (is_usable a ≡ false)

judge_answer-IsJudged :
    (name : Text) (a : Result Text Authenticator) → IsJudged (judge_answer name a).0 a
unfolding judge_answer ends is_usable
judge_answer-IsJudged name (err e) = (refl, refl)
judge_answer-IsJudged name (ok Authenticator.anonymous) = (refl, refl)
judge_answer-IsJudged name (ok (Authenticator.credentials (err e))) = (refl, refl)
judge_answer-IsJudged name (ok (Authenticator.credentials (ok none))) = (refl, refl)
judge_answer-IsJudged name (ok (Authenticator.credentials (ok (some c)))) =
    elim (Bool-cases (is_empty c)) [
      | inl y ↦
          rw (judge_answer, y) (is_empty-ends c (mask_credential c.username) ∙ ap not y, ap not y)
      | inr n ↦
          rw (judge_answer, n)
            (refl, is_empty-ends c (mask_credential c.username) ∙ ap not n, ap not n)
    ]

try_keychains-log :
    (kcs : List (Text × Keychain)) (target : Text)
    → (try_keychains kcs target).1 ≡ log_of target (map (shown target) kcs)
unfolding try_keychains log_of
try_keychains-log [] target = refl
try_keychains-log ((name, kc) ∷ kcs) target =
    let judged = judge_answer-IsJudged name (kc target) in
    elim (Option-cases (judge_answer name (kc target)).0) [
      | inl n ↦
          let (going, _) = subst (λ o. IsJudged o (kc target)) n judged in
          rw
            (
              try_keychains,
              n,
              going,
              judge_answer-lines name (kc target),
              try_keychains-log kcs target,
            )
            refl
      | inr (auth, e) ↦
          let (_, stops, _) = subst (λ o. IsJudged o (kc target)) e judged in
          rw (try_keychains, e, stops, judge_answer-lines name (kc target), append-nil) refl
    ]

try_keychains-multi_resolve :
    (kcs : List (Text × Keychain)) (target : Text)
    → ok (try_keychains kcs target).0 ≡ multi_resolve (no_log kcs) target
unfolding try_keychains multi_resolve
try_keychains-multi_resolve [] target = refl
try_keychains-multi_resolve ((name, kc) ∷ kcs) target =
    let judged = judge_answer-IsJudged name (kc target) in
    elim (Option-cases (judge_answer name (kc target)).0) [
      | inl n ↦
          let (_, useless) = subst (λ o. IsJudged o (kc target)) n judged in
          rw (try_keychains, multi_resolve, n, useless) (try_keychains-multi_resolve kcs target)
      | inr (auth, e) ↦
          let (answer, _, usable) = subst (λ o. IsJudged o (kc target)) e judged in
          rw (try_keychains, multi_resolve, e, usable) (sym answer)
    ]

-- Logging a search through keychains changes no answer: it is that of the search without a log.
pub debug_multi_resolve-multi_resolve :
    (kcs : List (Text × Keychain)) (target : Text)
    → ok (debug_multi_resolve kcs target).0 ≡ multi_resolve (no_log kcs) target
unfolding debug_multi_resolve
debug_multi_resolve-multi_resolve kcs target = try_keychains-multi_resolve kcs target

names_of-shown :
    (kcs : List (Text × Keychain)) (target : Text)
    → names_of kcs ≡ map (λ p. p.0) (map (shown target) kcs)
names_of-shown [] target = refl
names_of-shown ((name, kc) ∷ kcs) target = ap (λ l. name ∷ l) (names_of-shown kcs target)

-- The log of a search gives no secret away: it is the same for two chains of keychains with the same
-- names whose answers differ only in what their shapes hide, which is the passwords and tokens, but
-- for whether there are any, and the usernames, but for their masks.
pub debug_multi_resolve-discreet :
    (kcs kds : List (Text × Keychain)) (target : Text)
    → map (shown target) kcs ≡ map (shown target) kds
    → (debug_multi_resolve kcs target).1 ≡ (debug_multi_resolve kds target).1
unfolding debug_multi_resolve
debug_multi_resolve-discreet kcs kds target h =
    let lines : (try_keychains kcs target).1 ≡ (try_keychains kds target).1 =
      try_keychains-log kcs target ∙ ap (log_of target) h ∙ sym (try_keychains-log kds target) in
    let names : names_of kcs ≡ names_of kds =
      names_of-shown kcs target ∙ ap (map (λ p. p.0)) h ∙ sym (names_of-shown kds target) in
    rw (lines, names) refl
