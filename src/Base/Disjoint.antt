-- ===== src/Base/Disjoint.antt =====
-- `bit_or` of numbers without a common bit is their sum.
use Prim.Native.Nat.{
  ℕ, zero, suc, ◌+◌, ◌*◌, ◌/◌, ◌%◌, ◌^◌, ◌≤◌, ◌<◌, max, bit_or, digits, bit_or-bitwise,
}
use mathlib.Core.Path.{◌≡◌, ◌∙◌}
use native.Mathlib.Omega.{arith}

-- The lowest `k` bits of the number are clear.
abbrev ClearBelow : ℕ → ℕ → Type 0
ClearBelow zero x = Unit {0}
ClearBelow (suc k) x = (x % 2 ≡ 0) × ClearBelow k (x / 2)

-- No bit of the number from `k` on is set.
abbrev IsLow : ℕ → ℕ → Type 0
IsLow zero b = b ≡ 0
IsLow (suc k) b = IsLow k (b / 2)

disjoint_digits :
    (n k x b : ℕ) → ClearBelow k x → IsLow k b → x ≤ n → digits (λ d. d) max n x b ≡ x + b
disjoint_digits zero k x b high low le = omega (arith, le)
disjoint_digits (suc n) k zero b high low le = omega arith
disjoint_digits (suc n) zero (suc x) b high low le = omega (
  arith,
  low,
  disjoint_digits n zero (suc x / 2) (b / 2) tt (omega (arith, low)) (omega (arith, le)),
)
disjoint_digits (suc n) (suc k) (suc x) b high low le =
    omega (arith, high.0, disjoint_digits n k (suc x / 2) (b / 2) high.1 low (omega (arith, le)))

double : (k c : ℕ) → c * 2 ^ suc k ≡ c * 2 ^ k * 2
double k c = grind arith

multiple-ClearBelow : (k c x : ℕ) → x ≡ c * 2 ^ k → ClearBelow k x
multiple-ClearBelow zero c x e = tt
multiple-ClearBelow (suc k) c x e =
    (omega (arith, e, double k c), multiple-ClearBelow k c (x / 2) (omega (arith, e, double k c)))

small-IsLow : (k b : ℕ) → b < 2 ^ k → IsLow k b
small-IsLow zero b lt = omega (arith, lt)
small-IsLow (suc k) b lt = small-IsLow k (b / 2) (omega (arith, lt))

-- The number `x` is one shifted by `k` bits, and `b` has `k` bits.
pub bit_or_shifted : (k c x b : ℕ) → x ≡ c * 2 ^ k → b < 2 ^ k → bit_or x b ≡ x + b
bit_or_shifted k c x b e lt =
    (λ i. bit_or-bitwise x b i)
    ∙ disjoint_digits x k x b (multiple-ClearBelow k c x e) (small-IsLow k b lt) (omega arith)
