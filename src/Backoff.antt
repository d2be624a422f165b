-- ===== src/Backoff.antt =====
-- `calculateBackoff` of internal/controller/imagescan_controller.go. A duration is a number of
-- nanoseconds, an int64 by its bit pattern.
use Prim.Native.Nat.{min}
use native.Mathlib.Nat.{pow-suc}
use aqua_scan_gate.Common.{
  ℕ, zero, suc, ◌*◌, ◌%◌, ◌^◌, ◌≤◌, ◌<◌, ◌≡◌, ap, Bool-cases, inl, inr, arith, true, false, ltb,
  if◌then◌else◌,
}

abbrev pub second : ℕ
second = 10 ^ 9

abbrev pub base_backoff : ℕ
base_backoff = 30 * second

abbrev pub max_backoff : ℕ
max_backoff = 600 * second

-- the loop; `rounds` is retryCount - i
unfoldable pub double_backoff : ℕ → ℕ → ℕ
double_backoff zero backoff = backoff
double_backoff (suc rounds) backoff = elim (ltb backoff max_backoff) [
  | true ↦ double_backoff rounds ((backoff * 2) % 2 ^ 64)
  | false ↦ backoff
]

-- A negative count makes no round.
abbrev rounds_of : ℕ → ℕ
rounds_of retry_count = if ltb retry_count (2 ^ 63) then retry_count else 0

abbrev cap_backoff : ℕ → ℕ
cap_backoff backoff = if ltb max_backoff backoff then max_backoff else backoff

unfoldable pub calculate_backoff : ℕ → ℕ
unfolding double_backoff
calculate_backoff retry_count = cap_backoff (double_backoff (rounds_of retry_count) base_backoff)

one-le-pow : (n : ℕ) → 1 ≤ 2 ^ n
one-le-pow zero = omega arith
one-le-pow (suc n) = omega (arith, pow-suc 2 n, one-le-pow n)

min_above : (a b : ℕ) → b ≤ a → min a b ≡ b
min_above a b h = omega arith

le-mul : (a b c : ℕ) → c ≤ a → 1 ≤ b → c ≤ a * b
le-mul a b c h k = grind arith

ltb→lt : (a b : ℕ) → ltb a b ≡ true → a < b
ltb→lt a b h = ground arith

double_pow : (b n : ℕ) → b * 2 ^ suc n ≡ b * 2 * 2 ^ n
double_pow b n = omega (arith, pow-suc 2 n, ap (λ (p : ℕ). b * p) (pow-suc 2 n))

pow_above : (b n : ℕ) → ltb b max_backoff ≡ false → max_backoff ≤ b * 2 ^ suc n
pow_above b n h = le-mul b (2 ^ suc n) max_backoff (ground arith) (one-le-pow (suc n))

rounds_of_small : (n : ℕ) → n < 2 ^ 63 → rounds_of n ≡ n
rounds_of_small n h = ground arith

cap-double_backoff :
    (n b : ℕ) → b < 2 * max_backoff → cap_backoff (double_backoff n b) ≡ min (b * 2 ^ n) max_backoff
unfolding double_backoff
cap-double_backoff zero b h = ground arith
cap-double_backoff (suc n) b h = elim (Bool-cases (ltb b max_backoff)) [
  | inl below ↦
      let fits : (b * 2) % 2 ^ 64 ≡ b * 2 = omega (arith, ltb→lt b max_backoff below) in
      rw (below, double_backoff, fits, double_pow b n)
        (cap-double_backoff n (b * 2) (omega (arith, ltb→lt b max_backoff below)))
  | inr above ↦
      rw (above, double_backoff, min_above (b * 2 ^ suc n) max_backoff (pow_above b n above))
        (ground arith)
]

-- For a count n below 2^63 the delay is 30 s times 2^n, cut at 10 min; no doubling wraps around.
pub calculate_backoff-eq-min :
    (n : ℕ) → n < 2 ^ 63 → calculate_backoff n ≡ min (base_backoff * 2 ^ n) max_backoff
unfolding calculate_backoff
calculate_backoff-eq-min n h =
    rw (rounds_of_small n h) (cap-double_backoff n base_backoff (omega arith))

bounded_min :
    (n d : ℕ) → d ≡ min (base_backoff * 2 ^ n) max_backoff → (base_backoff ≤ d) × (d ≤ max_backoff)
bounded_min n d e = omega (arith, e, one-le-pow n)

-- Whatever the count, the delay lies between 30 s and 10 min.
pub calculate_backoff_bounds :
    (n : ℕ) → (base_backoff ≤ calculate_backoff n) × (calculate_backoff n ≤ max_backoff)
unfolding calculate_backoff
calculate_backoff_bounds n =
    bounded_min (rounds_of n) (calculate_backoff n)
      (cap-double_backoff (rounds_of n) base_backoff (omega arith))
