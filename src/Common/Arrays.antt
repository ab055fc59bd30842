-- ===== src/Common/Arrays.antt =====
-- Arrays of the program as functions of the index, with sums over their first elements.
use Prim.Native.Nat.{ℕ, zero, suc, ◌+◌, ◌<◌, ◌≤◌, ◌*◌}
use mathlib.Core.Path.{◌≡◌, refl, ap}
use mathlib.Core.Logic.{◌≢◌, inl, inr}
use native.Mathlib.Omega.{arith}
use native.Mathlib.Nat.{zero-mul}
use pet_ps.Common.Tests.{◌==◌, if◌then◌else◌, Bool-cases}

-- `a[i] = v`
abbrev pub update {ℓ} : {A : Type ℓ} → (ℕ → A) → ℕ → A → ℕ → A
update a i v j = if i == j then v else a j

unfoldable pub sum_below : ℕ → (ℕ → ℕ) → ℕ
sum_below zero f = 0
sum_below (suc n) f = f n + sum_below n f

pub sum_below-congr :
    (n : ℕ) (f g : ℕ → ℕ) → ((j : ℕ) → j < n → f j ≡ g j) → sum_below n f ≡ sum_below n g
unfolding sum_below
sum_below-congr zero f g h = refl
sum_below-congr (suc n) f g h =
    omega (arith, h n (omega arith), sum_below-congr n f g (λ j l. h j (omega arith)))

-- Two arrays that differ at one index.
pub sum_below-replace :
    (n i : ℕ) (f g : ℕ → ℕ)
    → i < n
    → ((j : ℕ) → j < n → j ≢ i → f j ≡ g j)
    → sum_below n g + f i ≡ sum_below n f + g i
unfolding sum_below
sum_below-replace zero i f g l h = absurd (omega arith)
sum_below-replace (suc n) i f g l h = elim (Bool-cases (n == i)) [
  | inl e ↦
      let same : n ≡ i = ground arith in
      let rest = sum_below-congr n f g (λ j k. h j (omega arith) (omega arith)) in
      omega (arith, rest, ap f same, ap g same)
  | inr e ↦
      let apart : n ≢ i = ground arith in
      omega (
        arith,
        h n (omega arith) apart,
        sum_below-replace n i f g (omega arith) (λ j k. h j (omega arith)),
      )
]

pub le-sum_below : (n i : ℕ) (f : ℕ → ℕ) → i < n → f i ≤ sum_below n f
unfolding sum_below
le-sum_below zero i f l = absurd (omega arith)
le-sum_below (suc n) i f l = elim (Bool-cases (n == i)) [
  | inl e ↦ let same : n ≡ i = ground arith in omega (arith, ap f same)
  | inr e ↦ omega (arith, le-sum_below n i f (ground arith))
]

pub sum_below-le :
    (n : ℕ) (f g : ℕ → ℕ) → ((j : ℕ) → j < n → f j ≤ g j) → sum_below n f ≤ sum_below n g
unfolding sum_below
sum_below-le zero f g h = omega arith
sum_below-le (suc n) f g h =
    omega (arith, h n (omega arith), sum_below-le n f g (λ j l. h j (omega arith)))

pub sum_below-const : (n c : ℕ) → sum_below n (λ _. c) ≡ n * c
unfolding sum_below
sum_below-const zero c = omega arith
sum_below-const (suc n) c = omega (arith, sum_below-const n c)

pub sum_below-shift : (n : ℕ) (f : ℕ → ℕ) → sum_below (suc n) f ≡ f 0 + sum_below n (λ j. f (suc j))
unfolding sum_below
sum_below-shift zero f = omega arith
sum_below-shift (suc n) f = omega (arith, sum_below-shift n f)

pub sum_below-append :
    (a b : ℕ) (f : ℕ → ℕ) → sum_below (b + a) f ≡ sum_below a f + sum_below b (λ j. f (a + j))
unfolding sum_below
sum_below-append a zero f =
    let plain : 0 + a ≡ a = omega arith in omega (arith, ap (λ (n : ℕ). sum_below n f) plain)
sum_below-append a (suc b) f =
    let shape : suc b + a ≡ suc (b + a) = omega arith in
    omega (arith, ap (λ (n : ℕ). sum_below n f) shape, sum_below-append a b f, ap f (comm a b))
  where
    comm : (a b : ℕ) → b + a ≡ a + b
    comm a b = omega arith

-- A sum in blocks of `m`.
pub sum_below_blocks :
    (m n : ℕ) (f : ℕ → ℕ)
    → sum_below (n * m) f ≡ sum_below n (λ p. sum_below m (λ j. f (p * m + j)))
unfolding sum_below
sum_below_blocks m zero f = ap (λ (n : ℕ). sum_below n f) (zero-mul m)
sum_below_blocks m (suc n) f = omega (
  arith,
  ap (λ (n : ℕ). sum_below n f) (shape m n),
  sum_below-append (n * m) m f,
  sum_below_blocks m n f,
)
  where
    shape : (m n : ℕ) → suc n * m ≡ m + n * m
    shape m n = omega arith
