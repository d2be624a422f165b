-- ===== src/Aqua/Decimals.antt =====
-- The timestamps of pkg/aqua/auth.go, and the numbers that they stand for.
use aqua_scan_gate.Common.{
  ℕ, zero, suc, ◌+◌, ◌-◌, ◌*◌, ◌/◌, ◌^◌, ◌<◌, Text, codes, [], ◌∷◌, ◌++◌, Bool-cases, ltb, ◌≡◌,
  refl, inl, inr, arith, some, lookup, ◌==◌,
}
use aqua_scan_gate.Aqua.Http.{HttpRequest, Formats}
use aqua_scan_gate.Aqua.Tokens.{AuthConfig, digits, decimal, nanoseconds, token_request}

-- The number that a text of digits stands for.
abbrev pub value_from : ℕ → Text → ℕ
value_from acc [] = acc
value_from acc (c ∷ s) = value_from (acc * 10 + (c - 48)) s

value_from-concat :
    (acc : ℕ) (s : Text) (c : ℕ) → value_from acc (s ++ c ∷ []) ≡ value_from acc s * 10 + (c - 48)
value_from-concat acc [] c = refl
value_from-concat acc (d ∷ s) c = value_from-concat (acc * 10 + (d - 48)) s c

value_from-digits : (fuel n : ℕ) → n < 10 ^ fuel → value_from 0 (digits fuel n) ≡ n
value_from-digits zero n h = omega arith
value_from-digits (suc fuel) n h = elim (Bool-cases (ltb n 10)) [
  | inl y ↦ rw y (omega arith)
  | inr k ↦
      let smaller : n / 10 < 10 ^ fuel = omega arith in
      rw (k, value_from-concat, value_from-digits fuel (n / 10) smaller) (omega arith)
]

-- Every number of 64 bits is printed in full: read as a decimal number, the text gives it back.
pub value_from-decimal : (n : ℕ) → n < 2 ^ 64 → value_from 0 (decimal n) ≡ n
value_from-decimal n h = value_from-digits 20 n (omega arith)

-- The request carries a timestamp that reads as the seconds, and a signature of that timestamp together
-- with the method, the path and the body.
abbrev pub IsStamped : Formats → AuthConfig → ℕ → HttpRequest → Type 0
IsStamped fmt auth seconds req =
    (timestamp : Text) × (lookup (codes "X-Timestamp") req.headers ≡ some timestamp)
    × (value_from 0 timestamp ≡ seconds)
    × (lookup (codes "X-Signature") req.headers
        ≡ some (
            fmt.hmac (timestamp ++ (req.method ++ (codes "/v2/tokens" ++ req.body)))
              auth.hmac_secret))

-- A token request made at a time whose seconds fit into 64 bits has a timestamp that reads as those
-- seconds, and its signature covers that timestamp, its method, the path of the tokens and its body.
pub token_request-IsStamped :
    (fmt : Formats) (auth : AuthConfig) (now : ℕ) (body : Text)
    → now / nanoseconds < 2 ^ 64
    → IsStamped fmt auth (now / nanoseconds) (token_request fmt auth now body)
unfolding token_request ◌==◌
token_request-IsStamped fmt auth now body h =
    (decimal (now / nanoseconds), refl, value_from-decimal (now / nanoseconds) h, refl)
