-- ===== src/Common/Bits.antt =====
-- Laws of `&`, `|` and `~` on words, digit by digit, from the recursion that the native operations
-- stand for.
use Prim.Native.Nat.{ℕ, zero, suc, ◌+◌, ◌-◌, ◌/◌, ◌%◌, ◌^◌, ◌<◌, ◌≤◌, bit_and}
use mathlib.Core.Path.{◌≡◌, ◌∙◌, ap}
use native.Mathlib.Omega.{arith}
use mathlib.Core.Bool.{true}
use mathlib.Core.Logic.{◌≢◌, inl, inr}
use pet_ps.Common.Tests.{◌==◌, if◌then◌else◌, Bool-cases}
use pet_ps.Common.Pow.{pow-pos, pow_double}
use pet_ps.Common.Bitwise.{bit, bit-bit_and, bit-zero}

-- `__builtin_ctz`, over the `w` bits that are left.
unfoldable pub ctz : ℕ → ℕ → ℕ
ctz zero v = 0
ctz (suc w) v = if v % 2 == 0 then suc (ctz w (v / 2)) else 0

pub ctz_lem :
    (w v : ℕ)
    → v < 2 ^ w
    → v ≢ 0
    → (ctz w v < w) × (bit v (ctz w v) ≡ 1) × ((j : ℕ) → j < ctz w v → bit v j ≡ 0)
unfolding ctz bit
ctz_lem zero v l h = absurd (h (omega arith))
ctz_lem (suc w) v l h = elim (Bool-cases (v % 2 == 0)) [
  | inl even ↦
      let half : v / 2 ≢ 0 = ground arith in
      let (small, one, zeros) = ctz_lem w (v / 2) (omega (arith, pow_double w)) half in
      rw even (omega arith, one, low even zeros)
  | inr odd ↦ rw odd (omega arith, ground arith, λ j k. absurd (omega arith))
]
  where
    low :
        (v % 2 == 0) ≡ true
        → ((j : ℕ) → j < ctz w (v / 2) → bit (v / 2) j ≡ 0)
        → (j : ℕ) → j < suc (ctz w (v / 2))
        → bit v j ≡ 0
    low even zeros zero k = ground arith
    low even zeros (suc j) k = zeros j (omega arith)

-- The bits of `m - 1`.
pub bit-pred_ctz : (w m : ℕ) → m < 2 ^ w → m ≢ 0 → bit (m - 1) (ctz w m) ≡ 0
unfolding ctz bit
bit-pred_ctz zero m l h = absurd (h (omega arith))
bit-pred_ctz (suc w) m l h = elim (Bool-cases (m % 2 == 0)) [
  | inl even ↦
      let half : m / 2 ≢ 0 = ground arith in
      let below : (m - 1) / 2 ≡ m / 2 - 1 = ground arith in
      rw even (
        ap (λ (t : ℕ). bit t (ctz w (m / 2))) below
        ∙ bit-pred_ctz w (m / 2) (omega (arith, pow_double w)) half)
  | inr odd ↦ rw odd (ground arith)
]

pub bit-pred_above : (w k m : ℕ) → m < 2 ^ w → m ≢ 0 → ctz w m < k → bit (m - 1) k ≡ bit m k
unfolding ctz bit
bit-pred_above w zero m l h a = absurd (omega arith)
bit-pred_above zero (suc k) m l h a = absurd (h (omega arith))
bit-pred_above (suc w) (suc k) m l h a = elim (Bool-cases (m % 2 == 0)) [
  | inl even ↦
      let half : m / 2 ≢ 0 = ground arith in
      let below : (m - 1) / 2 ≡ m / 2 - 1 = ground arith in
      rw below (bit-pred_above w k (m / 2) (omega (arith, pow_double w)) half (ground arith))
  | inr odd ↦ ap (λ (t : ℕ). bit t k) (ground arith)
]

-- `m & (m - 1)` clears the lowest bit that is set.
pub bit-drop_lowest :
    (w k m : ℕ)
    → m < 2 ^ w
    → m ≢ 0
    → bit (bit_and m (m - 1)) k ≡ (if ctz w m == k then 0 else bit m k)
bit-drop_lowest w k m l h =
    let (small, one, zeros) = ctz_lem w m l h in
    ground (arith, bit-bit_and k m (m - 1), bit-pred_ctz w m l h, bit-pred_above w k m l h, zeros k)

pub zero_of_bits : (w m : ℕ) → m < 2 ^ w → ((k : ℕ) → k < w → bit m k ≡ 0) → m ≡ 0
unfolding bit
zero_of_bits zero m l h = omega arith
zero_of_bits (suc w) m l h = omega (
  arith,
  h 0 (omega arith),
  zero_of_bits w (m / 2) (omega (arith, pow_double w)) (λ k j. h (suc k) (omega arith)),
)

pub bit_high : (w k v : ℕ) → v < 2 ^ w → w ≤ k → bit v k ≡ 0
unfolding bit
bit_high zero k v l h = let none_left : v ≡ 0 = omega arith in rw none_left (bit-zero k)
bit_high (suc w) zero v l h = absurd (omega arith)
bit_high (suc w) (suc k) v l h = bit_high w k (v / 2) (omega (arith, pow_double w)) (omega arith)

-- A number below `2 ^ n` with the bit `n` added.
pub bit-add_pow : (n k v : ℕ) → v < 2 ^ n → bit (v + 2 ^ n) k ≡ (if n == k then 1 else bit v k)
unfolding bit
bit-add_pow zero zero v l = ground arith
bit-add_pow zero (suc k) v l =
    let none_left : v ≡ 0 = omega arith in rw none_left (ground (arith, bit-zero k))
bit-add_pow (suc n) zero v l = ground (arith, pow_double n)
bit-add_pow (suc n) (suc k) v l =
    let half : (v + 2 ^ suc n) / 2 ≡ v / 2 + 2 ^ n = omega (arith, pow_double n) in
    rw half (ground (arith, bit-add_pow n k (v / 2), pow_double n))

pub bit-mask : (n k : ℕ) → k < n → bit (2 ^ n - 1) k ≡ 1
unfolding bit
bit-mask zero k l = absurd (omega arith)
bit-mask (suc n) zero l = omega (arith, pow_double n, pow-pos n)
bit-mask (suc n) (suc k) l =
    let half : (2 ^ suc n - 1) / 2 ≡ 2 ^ n - 1 = omega (arith, pow_double n, pow-pos n) in
    rw half (bit-mask n k (omega arith))
