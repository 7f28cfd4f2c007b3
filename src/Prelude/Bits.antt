-- ===== src/Prelude/Bits.antt =====
-- `x & (2^k - 1)` and `(a << k) | b`, as arithmetic.
use Prim.Native.Nat.{
  ℕ, zero, suc, ◌+◌, ◌*◌, ◌/◌, ◌%◌, ◌≤◌, ◌<◌, min, max, bit_and, bit_or, digits, bit_and-bitwise,
  bit_or-bitwise,
}
use mathlib.Core.Path.{◌≡◌, refl}
use native.Mathlib.Omega.{arith}

-- The native operations stand for a recursion on the digits. Its fuel does not matter.
module _ (rest : ℕ → ℕ) (digit : ℕ → ℕ → ℕ) where
  digits-enough : (f g x y : ℕ) → x ≤ f → x ≤ g → digits rest digit f x y ≡ digits rest digit g x y
  digits-enough zero zero x y p q = refl
  digits-enough zero (suc g) zero y p q = refl
  digits-enough zero (suc g) (suc x) y p q = absurd (omega arith)
  digits-enough (suc f) zero zero y p q = refl
  digits-enough (suc f) zero (suc x) y p q = absurd (omega arith)
  digits-enough (suc f) (suc g) zero y p q = refl
  digits-enough (suc f) (suc g) (suc x) y p q =
      let halves = digits-enough f g (suc x / 2) (y / 2) (omega arith) (omega arith) in
      omega (arith, halves)

bit_and_step : (x y : ℕ) → bit_and x y ≡ bit_and (x / 2) (y / 2) * 2 + min (x % 2) (y % 2)
bit_and_step zero y = omega (arith, bit_and-bitwise 0 y, bit_and-bitwise 0 (y / 2))
bit_and_step (suc x) y =
    let halves = digits-enough (λ z. zero) min x (suc x / 2) (suc x / 2) (y / 2) in
    omega (
      arith,
      halves (omega arith) (omega arith),
      bit_and-bitwise (suc x) y,
      bit_and-bitwise (suc x / 2) (y / 2),
    )

bit_or_step : (x y : ℕ) → bit_or x y ≡ bit_or (x / 2) (y / 2) * 2 + max (x % 2) (y % 2)
bit_or_step zero y = omega (arith, bit_or-bitwise 0 y, bit_or-bitwise 0 (y / 2))
bit_or_step (suc x) y =
    let halves = digits-enough (λ z. z) max x (suc x / 2) (suc x / 2) (y / 2) in
    omega (
      arith,
      halves (omega arith) (omega arith),
      bit_or-bitwise (suc x) y,
      bit_or-bitwise (suc x / 2) (y / 2),
    )

-- 2^k and 2^k - 1 by doubling.
abbrev pub pow2 : ℕ → ℕ
pow2 zero = 1
pow2 (suc k) = pow2 k * 2

abbrev pub ones : ℕ → ℕ
ones zero = 0
ones (suc k) = ones k * 2 + 1

-- The lowest k bits and the rest.
abbrev low : ℕ → ℕ → ℕ
low zero x = 0
low (suc k) x = low k (x / 2) * 2 + x % 2

abbrev high : ℕ → ℕ → ℕ
high zero x = x
high (suc k) x = high k (x / 2)

pow2_pos : (k : ℕ) → 0 < pow2 k
pow2_pos zero = omega arith
pow2_pos (suc k) = omega (arith, pow2_pos k)

low-lt : (k x : ℕ) → low k x < pow2 k
low-lt zero x = omega arith
low-lt (suc k) x = omega (arith, low-lt k (x / 2))

low-high : (k x : ℕ) → x ≡ low k x + pow2 k * high k x
low-high zero x = omega arith
low-high (suc k) x = omega (arith, low-high k (x / 2))

bit_and-zero : (n a : ℕ) → a ≤ n → bit_and a 0 ≡ 0
bit_and-zero n zero h = refl
bit_and-zero zero (suc a) h = absurd (omega arith)
bit_and-zero (suc n) (suc a) h =
    omega (arith, bit_and_step (suc a) 0, bit_and-zero n (suc a / 2) (omega arith))

bit_and-ones : (k x : ℕ) → bit_and x (ones k) ≡ low k x
bit_and-ones zero x = bit_and-zero x x (omega arith)
bit_and-ones (suc k) x =
    let half : (ones k * 2 + 1) / 2 ≡ ones k = omega arith in
    omega (arith, rw half at (bit_and_step x (ones k * 2 + 1)), bit_and-ones k (x / 2))

bit_or-zero : (n a : ℕ) → a ≤ n → bit_or a 0 ≡ a
bit_or-zero n zero h = refl
bit_or-zero zero (suc a) h = absurd (omega arith)
bit_or-zero (suc n) (suc a) h =
    omega (arith, bit_or_step (suc a) 0, bit_or-zero n (suc a / 2) (omega arith))

bit_or-shifted : (k a b : ℕ) → b < pow2 k → bit_or (a * pow2 k) b ≡ a * pow2 k + b
bit_or-shifted zero a b h =
    let none_left : b ≡ 0 = omega arith in
    rw none_left (omega (arith, bit_or-zero (a * 1) (a * 1) (omega arith)))
bit_or-shifted (suc k) a b h =
    let half : (a * (pow2 k * 2)) / 2 ≡ a * pow2 k = omega arith in
    omega (
      arith,
      rw half at (bit_or_step (a * (pow2 k * 2)) b),
      bit_or-shifted k a (b / 2) (omega arith),
    )

-- `x & (1 << 20 - 1)`
pub bit_and_mask20 : (x : ℕ) → bit_and x 1048575 ≡ x % 1048576
bit_and_mask20 x = omega (arith, bit_and-ones 20 x, low-lt 20 x, low-high 20 x)

-- `(a << 20) | b`
pub bit_or_shift20 : (a b : ℕ) → b < 1048576 → bit_or (a * 1048576) b ≡ a * 1048576 + b
bit_or_shift20 a b h = bit_or-shifted 20 a b h
