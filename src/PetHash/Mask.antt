-- ===== src/PetHash/Mask.antt =====
-- `SparseMaskIter`: the positions of the bits of a mask, lowest first.
use pet_ps.Common.{
  ℕ, zero, suc, ◌+◌, ◌-◌, ◌^◌, ◌<◌, bit_and, Bool, true, false, not, Option, none, some, ◌==◌,
  if◌then◌else◌, ◌≡◌, ap, arith, ==→eq, ==→ne, Bool-cases, inl, inr,
}
use pet_ps.Common.Bits.{ctz, ctz_lem, bit-drop_lowest, zero_of_bits}
use pet_ps.Common.Bitwise.{bit, bit-zero, bit_and-le}

unfoldable pub has_next : ℕ → Bool
has_next mask = not (mask == 0)

-- The position, and the mask that is left.
unfoldable pub next : ℕ → ℕ × ℕ
next mask = (ctz 32 mask, bit_and mask (mask - 1))

-- `while (it.HasNext()) { id = it.Next(); if (test(id)) return id; }`, with the rounds left.
unfoldable pub first_where : (ℕ → Bool) → ℕ → ℕ → Option ℕ
unfolding has_next next
first_where test zero mask = none
first_where test (suc left) mask =
    let (id, mask') = next mask in
    let rest = first_where test left mask' in
    if has_next mask then (if test id then some id else rest) else none

-- What the loop finds passes the test, and its bit is set.
pub first_where-some :
    (test : ℕ → Bool) (left mask : ℕ) {id : ℕ}
    → mask < 2 ^ 32
    → first_where test left mask ≡ some id
    → (bit mask id ≡ 1) × (test id ≡ true)
unfolding first_where
first_where-some test zero mask l h = cc
first_where-some test (suc left) mask {id} l h = elim (Bool-cases (mask == 0)) [
  | inl e ↦ ground arith
  | inr e ↦
      let (small, one, zeros) = ctz_lem 32 mask l (ground arith) in
      let mask' = bit_and mask (mask - 1) in
      let fits : mask' < 2 ^ 32 = omega (arith, bit_and-le mask mask (mask - 1)) in
      elim (Bool-cases (test (ctz 32 mask))) [
        | inl hit ↦ ground arith
        | inr miss ↦ ground (
          arith,
          first_where-some test left mask' {id = id} fits (ground arith),
          bit-drop_lowest 32 id mask l,
        )
      ]
]

-- With a round for each bit, it passes over no set bit that the test accepts.
pub first_where-none :
    (test : ℕ → Bool) (left i mask : ℕ)
    → i + left ≡ 14
    → mask < 2 ^ 14
    → ((k : ℕ) → k < i → bit mask k ≡ 0)
    → first_where test left mask ≡ none
    → (id : ℕ) → bit mask id ≡ 1
    → test id ≡ false
unfolding first_where
first_where-none test zero i mask e l low h id set =
    let gone = zero_of_bits 14 mask l (λ k j. low k (omega arith)) in
    absurd (omega (arith, ap (λ (t : ℕ). bit t id) gone, bit-zero id))
first_where-none test (suc left) i mask e l low h id set = elim (Bool-cases (mask == 0)) [
  | inl z ↦ absurd (omega (arith, ap (λ (t : ℕ). bit t id) (==→eq mask 0 z), bit-zero id))
  | inr more ↦
      let nonzero = ==→ne mask 0 more in
      let (small, one, zeros) = ctz_lem 32 mask (omega arith) nonzero in
      let mask' = bit_and mask (mask - 1) in
      let drop = λ (k : ℕ). bit-drop_lowest 32 k mask (omega arith) nonzero in
      elim (Bool-cases (test (ctz 32 mask))) [
        | inl hit ↦ ground arith
        | inr miss ↦ elim (Bool-cases (ctz 32 mask == id)) [
          | inl same ↦ ground arith
          | inr apart ↦
              first_where-none test left (i + 1) mask' (omega arith)
                (omega (arith, bit_and-le mask mask (mask - 1)))
                (λ k j. ground (arith, drop k, low k, low (ctz 32 mask), zeros k)) (ground arith) id
                (ground (arith, drop id))
        ]
      ]
]
