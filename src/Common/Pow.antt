-- ===== src/Common/Pow.antt =====
-- Powers of two: residues of sums, and of products with an odd number.
use Prim.Native.Nat.{ℕ, zero, suc, ◌+◌, ◌-◌, ◌*◌, ◌/◌, ◌%◌, ◌^◌, ◌<◌, ◌≤◌}
use mathlib.Core.Path.{◌≡◌, ap, sym, ◌∙◌}
use mathlib.Core.Logic.{inl, inr}
use native.Mathlib.Omega.{arith}
use pet_ps.Common.Tests.{eq_cases}
use native.Mathlib.Nat.{
  pow-suc, mod-lt, div-add-mod, mod-eq_of_lt, mul-add-mod_self_left, div-div-eq-div-mul, zero-add,
  one-mul, mul-mod_right, le-div_iff_mul-le, div-mul-le_self, mul-le-mul_left, add-mul-div_left,
  add-mul-mod_self_left,
}

pub pow-pos : (k : ℕ) → 0 < 2 ^ k
pow-pos zero = omega arith
pow-pos (suc k) = omega (arith, pow-pos k, pow-suc 2 k)

pub pow_double : (k : ℕ) → 2 ^ suc k ≡ 2 * 2 ^ k
pow_double k = omega (arith, pow-suc 2 k)

pub shift_double : (k v : ℕ) → v / 2 ^ suc k ≡ v / 2 / 2 ^ k
shift_double k v = ap (λ (t : ℕ). v / t) (pow_double k) ∙ sym (div-div-eq-div-mul v 2 (2 ^ k))

-- The lowest bit and the others, of a remainder by a power of two.
pub mod_double : (k a : ℕ) → a % 2 ^ suc k ≡ a / 2 % 2 ^ k * 2 + a % 2
mod_double k a =
    let whole = div-add-mod a (2 * 2 ^ k) in
    let same : a / (2 * 2 ^ k) ≡ a / 2 / 2 ^ k = sym (div-div-eq-div-mul a 2 (2 ^ k)) in
    rw (pow_double k)
      (omega (arith, whole, div-add-mod (a / 2) (2 ^ k), ap (λ (t : ℕ). 2 ^ k * t) same))

-- A product with an odd number is a multiple of a power of two only if the other factor is.
pub odd_cancel : (k d s : ℕ) → s % 2 ≡ 1 → d * s % 2 ^ k ≡ 0 → d % 2 ^ k ≡ 0
odd_cancel zero d s odd h = omega arith
odd_cancel (suc k) d s odd h =
    let split : s ≡ 2 * (s / 2) + 1 = omega arith in
    let product : d * s ≡ 2 * (d * (s / 2)) + d = omega (arith, ap (λ (t : ℕ). d * t) split) in
    let even : d ≡ 2 * (d / 2) = omega (arith, mod_double k (d * s)) in
    let halves : d * s ≡ 2 * (d / 2 * s) = omega (arith, ap (λ (t : ℕ). t * s) even) in
    let half : d * s / 2 ≡ d / 2 * s = omega arith in
    let rest : d * s / 2 % 2 ^ k ≡ 0 = omega (arith, mod_double k (d * s)) in
    omega (arith, mod_double k d, odd_cancel k (d / 2) s odd (rw (← half) rest))

pub pow-lt_pow : (j w : ℕ) → j < w → 2 ^ j < 2 ^ w
pow-lt_pow j zero h = absurd (omega arith)
pow-lt_pow zero (suc w) h = omega (arith, pow_double w, pow-pos w)
pow-lt_pow (suc j) (suc w) h =
    omega (arith, pow_double w, pow_double j, pow-lt_pow j w (omega arith))

pub pow_add : (a b : ℕ) → 2 ^ (a + b) ≡ 2 ^ a * 2 ^ b
pow_add zero b = simp (zero-add, one-mul)
pow_add (suc a) b =
    let left : 2 ^ (suc a + b) ≡ 2 * 2 ^ (a + b) =
      ap (λ (t : ℕ). 2 ^ t) (omega arith) ∙ pow_double (a + b) in
    omega
      (arith, left, ap (λ (t : ℕ). t * 2 ^ b) (pow_double a), ap (λ (t : ℕ). 2 * t) (pow_add a b))

div_mono : (n a b : ℕ) → 0 < n → a ≤ b → a / n ≤ b / n
div_mono n a b pos l =
    (le-div_iff_mul-le {x = a / n} {y = b} pos).1 (omega (arith, div-mul-le_self a n))

-- A summand that does not change a remainder is a multiple of the modulus.
pub mod_cancel : (n x y : ℕ) → 0 < n → (x + y) % n ≡ x % n → y % n ≡ 0
mod_cancel n x y pos h =
    let low = div-add-mod x n in
    let high = div-add-mod (x + y) n in
    let grows : x / n ≤ (x + y) / n = div_mono n x (x + y) pos (omega arith) in
    let rest : y ≡ n * ((x + y) / n - x / n) =
      omega (arith, ap (λ (t : ℕ). n * t) (split_sum (x / n) ((x + y) / n) grows)) in
    ap (λ (t : ℕ). t % n) rest ∙ mul-mod_right n ((x + y) / n - x / n)
  where
    split_sum : (a b : ℕ) → a ≤ b → b ≡ a + (b - a)
    split_sum a b l = omega arith

-- Modulo `2 * n` a number is its remainder by `n`, or that and `n`.
mod_twice : (n x : ℕ) → 0 < n → x % (2 * n) ≡ x % n + n * (x / n % 2)
mod_twice n x pos =
    let b = x / n in
    let whole = div-add-mod x n in
    let split : n * b ≡ 2 * n * (b / 2) + n * (b % 2) =
      omega (arith, ap (λ (t : ℕ). n * t) (halves b)) in
    let parts : x ≡ 2 * n * (b / 2) + (x % n + n * (b % 2)) = omega arith in
    let small : x % n + n * (b % 2) < 2 * n = below in
    ap (λ (t : ℕ). t % (2 * n)) parts
    ∙ mul-add-mod_self_left (2 * n) (b / 2) (x % n + n * (b % 2))
    ∙ mod-eq_of_lt small
  where
    halves : (b : ℕ) → b ≡ 2 * (b / 2) + b % 2
    halves b = omega arith

    bit_le : (b : ℕ) → b % 2 ≤ 1
    bit_le b = omega arith

    below : x % n + n * (x / n % 2) < 2 * n
    below = omega (arith, mod-lt x pos, mul-le-mul_left n (bit_le (x / n)))

-- Every residue is a multiple of an odd number.
pub odd_solve : (k s t : ℕ) → s % 2 ≡ 1 → (m : ℕ) × (m < 2 ^ k) × (m * s % 2 ^ k ≡ t % 2 ^ k)
odd_solve zero s t odd = (0, omega arith, omega arith)
odd_solve (suc k) s t odd =
    let n = 2 ^ k in
    let pos = pow-pos k in
    let (m, l, e) = odd_solve k s t odd in
    let here = mod_twice n (m * s) pos in
    let goal = mod_twice n t pos in
    let wide : (m + n) * s ≡ m * s + n * s = omega arith in
    let there = mod_twice n (m * s + n * s) pos in
    let low = add-mul-mod_self_left (m * s) n s in
    let high = add-mul-div_left (m * s) s {y = n} pos in
    elim (eq_cases (m * s / n % 2) (t / n % 2)) [
      | inl same ↦ (
        m,
        omega (arith, pow_double k),
        rw (pow_double k) (omega (arith, ap (λ (b : ℕ). n * b) same)),
      )
      | inr apart ↦
          let flips : (m * s + n * s) / n % 2 ≡ t / n % 2 = omega arith in
          (
            m + n,
            omega (arith, pow_double k),
            rw (pow_double k, wide) (omega (arith, ap (λ (b : ℕ). n * b) flips)),
          )
    ]
