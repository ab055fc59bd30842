-- ===== src/Common/Bitwise.antt =====
-- The bits of a word, and what the bit operations do to them.
use Prim.Native.Nat.{
  ℕ, zero, suc, ◌+◌, ◌-◌, ◌*◌, ◌/◌, ◌%◌, ◌^◌, ◌<◌, ◌≤◌, min, max, bit_and, bit_or, digits,
  bit_and-bitwise, bit_or-bitwise,
}
use mathlib.Core.Path.{◌≡◌, refl, ap}
use native.Mathlib.Omega.{arith}
use pet_ps.Common.Tests.{◌==◌, if◌then◌else◌}
use pet_ps.Common.Pow.{pow-pos, pow_double, mod_double, shift_double}

-- Two amounts of fuel that cover the number give the same digits.
module _ (base : ℕ → ℕ) (f : ℕ → ℕ → ℕ) where
  same_digits : (n m a b : ℕ) → a ≤ n → a ≤ m → digits base f n a b ≡ digits base f m a b
  same_digits zero zero zero b p q = refl
  same_digits zero (suc m) zero b p q = refl
  same_digits (suc n) zero zero b p q = refl
  same_digits (suc n) (suc m) zero b p q = refl
  same_digits zero m (suc a) b p q = absurd (omega arith)
  same_digits (suc n) zero (suc a) b p q = absurd (omega arith)
  same_digits (suc n) (suc m) (suc a) b p q =
      omega (arith, same_digits n m (suc a / 2) (b / 2) (omega arith) (omega arith))

-- The lowest digit and the rest.
pub bit_and_step : (a b : ℕ) → bit_and a b ≡ bit_and (a / 2) (b / 2) * 2 + min (a % 2) (b % 2)
bit_and_step zero b = omega (arith, bit_and-bitwise 0 b, bit_and-bitwise 0 (b / 2))
bit_and_step (suc a) b = omega (
  arith,
  bit_and-bitwise (suc a) b,
  bit_and-bitwise (suc a / 2) (b / 2),
  same_digits (λ _. 0) min a (suc a / 2) (suc a / 2) (b / 2) (omega arith) (omega arith),
)

pub bit_or_step : (a b : ℕ) → bit_or a b ≡ bit_or (a / 2) (b / 2) * 2 + max (a % 2) (b % 2)
bit_or_step zero b = omega (arith, bit_or-bitwise 0 b, bit_or-bitwise 0 (b / 2))
bit_or_step (suc a) b = omega (
  arith,
  bit_or-bitwise (suc a) b,
  bit_or-bitwise (suc a / 2) (b / 2),
  same_digits (λ t. t) max a (suc a / 2) (suc a / 2) (b / 2) (omega arith) (omega arith),
)

zero-bit_or : (b : ℕ) → bit_or 0 b ≡ b
zero-bit_or b = bit_or-bitwise 0 b

-- `(v >> k) & 1`, by recursion on `k`.
unfoldable pub bit : ℕ → ℕ → ℕ
bit v zero = v % 2
bit v (suc k) = bit (v / 2) k

pub bit-le : (v k : ℕ) → bit v k ≤ 1
unfolding bit
bit-le v zero = omega arith
bit-le v (suc k) = bit-le (v / 2) k

pub bit-bit_and : (k a b : ℕ) → bit (bit_and a b) k ≡ min (bit a k) (bit b k)
unfolding bit
bit-bit_and zero a b = omega (arith, bit_and_step a b)
bit-bit_and (suc k) a b =
    let half : bit_and a b / 2 ≡ bit_and (a / 2) (b / 2) = omega (arith, bit_and_step a b) in
    rw half (bit-bit_and k (a / 2) (b / 2))

pub bit-bit_or : (k a b : ℕ) → bit (bit_or a b) k ≡ max (bit a k) (bit b k)
unfolding bit
bit-bit_or zero a b = omega (arith, bit_or_step a b)
bit-bit_or (suc k) a b =
    let half : bit_or a b / 2 ≡ bit_or (a / 2) (b / 2) = omega (arith, bit_or_step a b) in
    rw half (bit-bit_or k (a / 2) (b / 2))

pub bit-zero : (k : ℕ) → bit 0 k ≡ 0
unfolding bit
bit-zero zero = refl
bit-zero (suc k) = bit-zero k

pub bit-pow : (j k : ℕ) → bit (2 ^ j) k ≡ (if j == k then 1 else 0)
unfolding bit
bit-pow zero zero = refl
bit-pow zero (suc k) = ground (arith, bit-zero k)
bit-pow (suc j) zero = ground (arith, pow_double j)
bit-pow (suc j) (suc k) =
    let half : 2 ^ suc j / 2 ≡ 2 ^ j = omega (arith, pow_double j) in
    rw half (ground (arith, bit-pow j k))

-- `~v` on `w` bits.
pub bit-complement : (w k v : ℕ) → v < 2 ^ w → k < w → bit (2 ^ w - 1 - v) k ≡ 1 - bit v k
unfolding bit
bit-complement zero k v l h = absurd (omega arith)
bit-complement (suc w) zero v l h = omega (arith, pow_double w)
bit-complement (suc w) (suc k) v l h =
    let half : (2 ^ suc w - 1 - v) / 2 ≡ 2 ^ w - 1 - v / 2 = omega (arith, pow_double w) in
    rw half (bit-complement w k (v / 2) (omega (arith, pow_double w)) (omega arith))

bit_and-zero : (n a : ℕ) → a ≤ n → bit_and a 0 ≡ 0
bit_and-zero zero a h = let none_left : a ≡ 0 = omega arith in rw none_left
bit_and-zero (suc n) zero h = refl
bit_and-zero (suc n) (suc a) h =
    omega (arith, bit_and_step (suc a) 0, bit_and-zero n (suc a / 2) (omega arith))

-- `a & (2 ^ k - 1)`
pub bit_and_mask : (k a : ℕ) → bit_and a (2 ^ k - 1) ≡ a % 2 ^ k
bit_and_mask zero a = omega (arith, bit_and-zero a a (omega arith))
bit_and_mask (suc k) a =
    let half : (2 ^ suc k - 1) / 2 ≡ 2 ^ k - 1 = omega (arith, pow_double k, pow-pos k) in
    let ih : bit_and (a / 2) ((2 ^ suc k - 1) / 2) ≡ a / 2 % 2 ^ k =
      rw half (bit_and_mask k (a / 2)) in
    omega (arith, bit_and_step a (2 ^ suc k - 1), ih, mod_double k a, pow_double k, pow-pos k)

-- `lo | (hi << k)` is a sum when `lo` fits `k` bits.
pub bit_or_fields : (k lo hi : ℕ) → lo < 2 ^ k → bit_or lo (hi * 2 ^ k) ≡ lo + hi * 2 ^ k
bit_or_fields zero lo hi h =
    let none_left : lo ≡ 0 = omega arith in rw none_left (omega (arith, zero-bit_or (hi * 1)))
bit_or_fields (suc k) lo hi h =
    let twice : hi * 2 ^ suc k ≡ 2 * (hi * 2 ^ k) =
      omega (arith, ap (λ (t : ℕ). hi * t) (pow_double k)) in
    let half : hi * 2 ^ suc k / 2 ≡ hi * 2 ^ k = omega (arith, twice) in
    let ih : bit_or (lo / 2) (hi * 2 ^ suc k / 2) ≡ lo / 2 + hi * 2 ^ k =
      rw half (bit_or_fields k (lo / 2) hi (omega (arith, pow_double k))) in
    omega (arith, bit_or_step lo (hi * 2 ^ suc k), ih, twice)

-- `(v >> k) & 1` as the code writes it.
pub bit-shift : (k v : ℕ) → bit_and (v / 2 ^ k) 1 ≡ bit v k
unfolding bit
bit-shift zero v = omega (arith, bit_and_mask 1 (v / 1))
bit-shift (suc k) v = rw (shift_double k v) (bit-shift k (v / 2))

pub bit_or-lt : (w a b : ℕ) → a < 2 ^ w → b < 2 ^ w → bit_or a b < 2 ^ w
bit_or-lt zero a b p q =
    let left : a ≡ 0 = omega arith in
    let right : b ≡ 0 = omega arith in rw (left, right) (omega arith)
bit_or-lt (suc w) a b p q = omega (
  arith,
  pow_double w,
  bit_or_step a b,
  bit_or-lt w (a / 2) (b / 2) (omega (arith, pow_double w)) (omega (arith, pow_double w)),
)

pub bit_and-le : (n a b : ℕ) → a ≤ n → bit_and a b ≤ a
bit_and-le zero a b h =
    let left : a ≡ 0 = omega arith in rw left (omega (arith, bit_and-bitwise 0 b))
bit_and-le (suc n) zero b h = omega (arith, bit_and-bitwise 0 b)
bit_and-le (suc n) (suc a) b h =
    omega (arith, bit_and_step (suc a) b, bit_and-le n (suc a / 2) (b / 2) (omega arith))
