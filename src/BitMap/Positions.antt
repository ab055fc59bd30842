-- ===== src/BitMap/Positions.antt =====
-- The search for the first zero bit, and the write of `set_zero_pos` there.
use pet_ps.Common.{
  ℕ, zero, suc, ◌+◌, ◌-◌, ◌*◌, ◌/◌, ◌%◌, ◌<◌, ◌≤◌, true, false, Option, none, some, ltb, ◌==◌, ◌≡◌,
  refl, ap, subst, arith, Bool-cases, ◌≢◌, inl, inr,
}
use pet_ps.Common.Bits.{ctz, ctz_lem}
use pet_ps.Common.Bitwise.{bit, bit-le, bit-complement, bit-zero}
use pet_ps.BitMap.{
  BitMap, word_max, get, set, first_zero_from, first_zero_pos, set_zero_from, set_zero_pos,
}
use pet_ps.BitMap.Words.{IsValid, get-eq-bit}

-- What a search from `lo` up to `hi` may answer.
abbrev pub IsFirstZero : BitMap → ℕ → ℕ → Option ℕ → Type 0
IsFirstZero m lo hi none = (q : ℕ) → lo ≤ q → q < hi → get m q ≡ true
IsFirstZero m lo hi (some p) =
    (lo ≤ p) × (p < hi) × (get m p ≡ false) × ((q : ℕ) → lo ≤ q → q < p → get m q ≡ true)

module _ (m : BitMap) (v : IsValid m) (i : ℕ) (l : i < m.n / 64) where
  flipped : (q : ℕ) → q / 64 ≡ i → bit (word_max - m.bits i) (q % 64) ≡ 1 - bit (m.bits i) (q % 64)
  flipped q e = bit-complement 64 (q % 64) (m.bits i) (v.words i l) (omega arith)

  full_word : word_max - m.bits i ≡ 0 → (q : ℕ) → q / 64 ≡ i → get m q ≡ true
  full_word e q at = ground (
    arith,
    get-eq-bit m q,
    flipped q at,
    ap (λ (t : ℕ). bit t (q % 64)) e,
    bit-zero (q % 64),
    bit-le (m.bits i) (q % 64),
    ap m.bits at,
  )

  open_word :
      word_max - m.bits i ≢ 0
      → IsFirstZero m (i * 64) ((i + 1) * 64) (some (i * 64 + ctz 64 (word_max - m.bits i)))
  open_word h =
      let b = word_max - m.bits i in
      let (small, one, zeros) = ctz_lem 64 b (omega arith) h in
      let p = i * 64 + ctz 64 b in
      let word : p / 64 ≡ i = omega arith in
      let place : p % 64 ≡ ctz 64 b = omega arith in
      (
        omega arith,
        omega arith,
        ground (
          arith,
          get-eq-bit m p,
          flipped p word,
          ap (bit b) place,
          one,
          bit-le (m.bits i) (p % 64),
          ap m.bits word,
        ),
        λ q lo hi.
            let at : q / 64 ≡ i = omega arith in
            ground (
              arith,
              get-eq-bit m q,
              flipped q at,
              zeros (q % 64) (omega arith),
              bit-le (m.bits i) (q % 64),
              ap m.bits at,
            ),
      )

-- The search continued behind a word that is all ones.
extend_search :
    (m : BitMap) (lo mid hi : ℕ)
    → lo ≤ mid
    → ((q : ℕ) → lo ≤ q → q < mid → get m q ≡ true)
    → (r : Option ℕ) → IsFirstZero m mid hi r
    → IsFirstZero m lo hi r
extend_search m lo mid hi le full none h = λ q a b. elim (Bool-cases (ltb q mid)) [
  | inl e ↦ full q a (ground arith)
  | inr e ↦ h q (ground arith) b
]
extend_search m lo mid hi le full (some p) h = (
  omega arith,
  h.1,
  h.2,
  λ q a b. elim (Bool-cases (ltb q mid)) [
    | inl e ↦ full q a (ground arith)
    | inr e ↦ h.3 q (ground arith) b
  ],
)

shorten :
    (m : BitMap) (lo mid hi p : ℕ)
    → mid ≤ hi
    → IsFirstZero m lo mid (some p)
    → IsFirstZero m lo hi (some p)
shorten m lo mid hi p le h = (h.0, omega arith, h.2, h.3)

first_zero_from_lem :
    (m : BitMap) (left i : ℕ)
    → IsValid m
    → i + left ≤ m.n / 64
    → IsFirstZero m (i * 64) ((i + left) * 64) (first_zero_from m left i)
unfolding first_zero_from
first_zero_from_lem m zero i v l = λ q a b. absurd (omega arith)
first_zero_from_lem m (suc left) i v l = elim (Bool-cases (word_max - m.bits i == 0)) [
  | inl e ↦
      let same : (i + 1 + left) * 64 ≡ (i + suc left) * 64 = omega arith in
      rw (e, ← same)
        (extend_search m (i * 64) ((i + 1) * 64) ((i + 1 + left) * 64) (omega arith)
          (λ q a b. full_word m v i (omega arith) (ground arith) q (omega arith))
          (first_zero_from m left (i + 1)) (first_zero_from_lem m left (i + 1) v (omega arith)))
  | inr e ↦ rw e (
      shorten m (i * 64) ((i + 1) * 64) ((i + suc left) * 64) _ (omega arith)
        (open_word m v i (omega arith) (ground arith)))
]

-- The search finds the least position below `n` whose bit is clear, and finds none only if every
-- bit below `n` is set, in a well-formed map.
pub first_zero_pos_lem : (m : BitMap) → IsValid m → IsFirstZero m 0 m.n (first_zero_pos m)
unfolding first_zero_pos
first_zero_pos_lem m v =
    let whole : (0 + m.n / 64) * 64 ≡ m.n = omega (arith, v.whole) in
    subst (λ (hi : ℕ). IsFirstZero m 0 hi (first_zero_from m (m.n / 64) 0)) whole
      (first_zero_from_lem m (m.n / 64) 0 v (omega arith))

-- The write of `set_zero_pos`.
abbrev pub set_found : BitMap → Option ℕ → BitMap × Option ℕ
set_found m none = (m, none)
set_found m (some p) = (set m p, some p)

set_zero_from-eq :
    (m : BitMap) (left i : ℕ)
    → IsValid m
    → i + left ≤ m.n / 64
    → set_zero_from m left i ≡ set_found m (first_zero_from m left i)
unfolding set_zero_from first_zero_from set
set_zero_from-eq m zero i v l = refl
set_zero_from-eq m (suc left) i v l = elim (Bool-cases (word_max - m.bits i == 0)) [
  | inl e ↦ rw e (set_zero_from-eq m left (i + 1) v (omega arith))
  | inr e ↦
      let b = word_max - m.bits i in
      let small = (ctz_lem 64 b (omega arith) (ground arith)).0 in
      let word : (i * 64 + ctz 64 b) / 64 ≡ i = omega arith in
      let place : (i * 64 + ctz 64 b) % 64 ≡ ctz 64 b = omega arith in rw (e, word, place)
]

-- `set_zero_pos` sets the bit that `first_zero_pos` finds and returns its position; it returns no
-- position and changes nothing where there is none, in a well-formed map.
pub set_zero_pos-first_zero_pos :
    (m : BitMap) → IsValid m → set_zero_pos m ≡ set_found m (first_zero_pos m)
unfolding set_zero_pos first_zero_pos
set_zero_pos-first_zero_pos m v = set_zero_from-eq m (m.n / 64) 0 v (omega arith)
