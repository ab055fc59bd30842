-- ===== src/Common/Outcome.antt =====
-- How a call ends: with a value, in a failed CHECK or LOG(FATAL), which abort the process, or in a
-- loop that only another thread's write can end.
use mathlib.Core.Path.{◌≡◌, subst, sym, ap}

pub data Outcome {ℓ} (A : Type ℓ) : Type ℓ where
  done : A → Outcome A
  fatal : Outcome A
  spin : Outcome A

infixl 5 ◌>>=◌
abbrev pub ◌>>=◌ {ℓ κ} : {A : Type ℓ} {B : Type κ} → Outcome A → (A → Outcome B) → Outcome B
done a >>= f = f a
fatal >>= f = fatal
spin >>= f = spin

-- The call ends with a value that satisfies `P`.
abbrev pub Returns {ℓ κ} : {A : Type ℓ} → Outcome A → (A → Type κ) → Type (ℓ ⊔ κ)
Returns {A} r P = (a : A) × (r ≡ done a) × P a

-- If the call ends with a value, the value satisfies `P`: the step of an induction, and no claim that
-- it ends with one.
abbrev pub Ensures {ℓ κ} : {A : Type ℓ} → Outcome A → (A → Type κ) → Type κ
Ensures (done a) P = P a
Ensures fatal P = Unit
Ensures spin P = Unit

pub Ensures-done {ℓ κ} :
    {A : Type ℓ} (o : Outcome A) (P : A → Type κ) {a : A} → Ensures o P → o ≡ done a → P a
Ensures-done o P h e = subst (λ x. Ensures x P) e h

pub Ensures-map {ℓ κ} :
    {A : Type ℓ} (o : Outcome A) (P Q : A → Type κ)
    → ((a : A) → P a → Q a)
    → Ensures o P
    → Ensures o Q
Ensures-map (done a) P Q f h = f a h
Ensures-map fatal P Q f h = tt
Ensures-map spin P Q f h = tt

pub Ensures-eq {ℓ κ} :
    {A : Type ℓ} (P : A → Type κ) {o o' : Outcome A} → o ≡ o' → Ensures o' P → Ensures o P
Ensures-eq P e h = subst (λ x. Ensures x P) (sym e) h

pub >>=-done {ℓ κ} :
    {A : Type ℓ} {B : Type κ} (f : A → Outcome B) {m : Outcome A} {a : A}
    → m ≡ done a
    → (m >>= f) ≡ f a
>>=-done f e = ap (λ x. x >>= f) e
