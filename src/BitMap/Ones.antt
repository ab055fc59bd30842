-- ===== src/BitMap/Ones.antt =====
-- The population count under `set`, `clear` and `set_zero_pos`.
use pet_ps.Common.{
  ℕ, zero, suc, ◌+◌, ◌/◌, ◌<◌, Bool, true, false, Option, none, some, ◌==◌, if◌then◌else◌, ◌≡◌,
  refl, ap, sym, arith, ◌≢◌, sum_below, sum_below-replace, sum_below-const, sum_below-congr,
}
use pet_ps.BitMap.{
  BitMap, get, set, clear, ones_below, number_of_ones, first_zero_pos, set_zero_pos,
}
use pet_ps.BitMap.Words.{IsValid, get-set, get-clear, set-IsValid}
use pet_ps.BitMap.Positions.{
  IsFirstZero, set_found, first_zero_pos_lem, set_zero_pos-first_zero_pos,
}

abbrev one_if : Bool → ℕ
one_if b = if b then 1 else 0

ones_below-eq-sum : (m : BitMap) (i : ℕ) → ones_below m i ≡ sum_below i (λ j. one_if (get m j))
unfolding ones_below sum_below
ones_below-eq-sum m zero = refl
ones_below-eq-sum m (suc i) = omega (arith, ones_below-eq-sum m i)

pub number_of_ones-eq-sum : (m : BitMap) → number_of_ones m ≡ sum_below m.n (λ j. one_if (get m j))
unfolding number_of_ones
number_of_ones-eq-sum m = ones_below-eq-sum m m.n

-- Maps of one length whose bits differ at one position.
pub number_of_ones-replace :
    (m m' : BitMap) (pos : ℕ)
    → m'.n ≡ m.n
    → pos < m.n
    → ((q : ℕ) → q ≢ pos → get m' q ≡ get m q)
    → number_of_ones m' + one_if (get m pos) ≡ number_of_ones m + one_if (get m' pos)
number_of_ones-replace m m' pos e l h =
    let swap =
      sum_below-replace m.n pos (λ j. one_if (get m j)) (λ j. one_if (get m' j)) l
        (λ j k ne. ap one_if (sym (h j ne))) in
    omega (
      arith,
      swap,
      number_of_ones-eq-sum m,
      number_of_ones-eq-sum m',
      ap (λ (k : ℕ). sum_below k (λ j. one_if (get m' j))) e,
    )

pub number_of_ones-set :
    (m : BitMap) (pos : ℕ)
    → pos < m.n
    → get m pos ≡ false
    → number_of_ones (set m pos) ≡ number_of_ones m + 1
number_of_ones-set m pos l e =
    let step =
      number_of_ones-replace m (set m pos) pos (unfold set in refl) l
        (λ q ne. ground (arith, get-set m pos q)) in
    ground (arith, step, get-set m pos pos)

-- Clearing a set bit below `n` takes one from the count.
pub number_of_ones-clear :
    (m : BitMap) (pos : ℕ)
    → IsValid m
    → pos < m.n
    → get m pos ≡ true
    → number_of_ones (clear m pos) + 1 ≡ number_of_ones m
number_of_ones-clear m pos v l e =
    let word = v.words (pos / 64) (omega (arith, v.whole)) in
    let step =
      number_of_ones-replace m (clear m pos) pos (unfold clear in refl) l
        (λ q ne. ground (arith, get-clear m pos q word)) in
    ground (arith, step, get-clear m pos pos word)

-- What an allocation in the map does.
abbrev pub Allocates : BitMap → BitMap × Option ℕ → Type 0
Allocates m (m', none) = (m' ≡ m) × (number_of_ones m ≡ m.n)
Allocates m (m', some p) =
    (p < m.n)
    × (get m p ≡ false)
    × ((q : ℕ) → q < p → get m q ≡ true)
    × ((q : ℕ) → get m' q ≡ (if p == q then true else get m q))
    × (number_of_ones m' ≡ number_of_ones m + 1)
    × IsValid m'

Allocates-found :
    (m : BitMap) (r : Option ℕ) → IsValid m → IsFirstZero m 0 m.n r → Allocates m (set_found m r)
Allocates-found m none v h = (
  refl,
  omega (
    arith,
    number_of_ones-eq-sum m,
    sum_below-congr m.n (λ j. one_if (get m j)) (λ _. 1) (λ j l. ap one_if (h j (omega arith) l)),
    sum_below-const m.n 1,
  ),
)
Allocates-found m (some p) v h = (
  h.1,
  h.2,
  λ q l. h.3 q (omega arith) l,
  λ q. get-set m p q,
  number_of_ones-set m p h.1 h.2,
  set-IsValid m p v,
)

-- In a well-formed map `set_zero_pos` takes the least clear position below `n`: that position was
-- clear and all before it set, afterwards it alone has changed and the count of ones is one more.
-- It answers with no position only when all `n` bits are set, and then changes nothing.
pub set_zero_pos-Allocates : (m : BitMap) → IsValid m → Allocates m (set_zero_pos m)
set_zero_pos-Allocates m v =
    rw (set_zero_pos-first_zero_pos m v)
      (Allocates-found m (first_zero_pos m) v (first_zero_pos_lem m v))
