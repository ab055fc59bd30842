-- ===== src/Load/Values.antt =====
-- Lists of floats, cut at a length.
use pet_ps.Common.{
  ℕ, zero, suc, ◌+◌, ◌<◌, false, List, [], ◌∷◌, ◌++◌, length, take, ◌≡◌, refl, ap, ◌∙◌, arith,
}
use pet_ps.Load.{drop, is_empty}

pub take-append : (xs ys : List ℕ) (n : ℕ) → length xs ≡ n → take n (xs ++ ys) ≡ xs
take-append [] ys zero h = refl
take-append [] ys (suc n) h = absurd (omega (arith, h))
take-append (x ∷ xs) ys zero h = absurd (omega (arith, h))
take-append (x ∷ xs) ys (suc n) h = ap (λ zs. x ∷ zs) (take-append xs ys n (omega (arith, h)))

pub drop-append : (xs ys : List ℕ) (n m : ℕ) → length xs ≡ n → drop (n + m) (xs ++ ys) ≡ drop m ys
drop-append [] ys n m h = ap (λ k. drop k ys) (omega (arith, h))
drop-append (x ∷ xs) ys zero m h = absurd (omega (arith, h))
drop-append (x ∷ xs) ys (suc n) m h =
    let shape : suc n + m ≡ suc (n + m) = omega arith in
    ap (λ k. drop k (x ∷ (xs ++ ys))) shape ∙ drop-append xs ys n m (omega (arith, h))

pub append_assoc : (xs ys zs : List ℕ) → (xs ++ ys) ++ zs ≡ xs ++ (ys ++ zs)
append_assoc [] ys zs = refl
append_assoc (x ∷ xs) ys zs = ap (λ ws. x ∷ ws) (append_assoc xs ys zs)

pub is_empty-take : (xs ys : List ℕ) → take 4 xs ≡ ys → 0 < length ys → is_empty xs ≡ false
is_empty-take [] ys h some =
    let none_there : 0 ≡ length ys = ap length h in absurd (omega (arith, some, none_there))
is_empty-take (x ∷ xs) ys h some = refl
