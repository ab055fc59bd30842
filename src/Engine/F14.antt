-- ===== src/Engine/F14.antt =====
-- src/kv_engine/engine_f14.h: `KVEngineF14`, over folly's F14FastMap, which is a parameter.
use pet_ps.Common.{
  ℕ, zero, suc, ◌+◌, Option, none, some, List, [], ◌∷◌, ◌++◌, length, ◌==◌, if◌then◌else◌, ◌≡◌,
  refl, ap, ◌∙◌, arith, Bool-cases, inl, inr,
}
use pet_ps.Common.Outcome.{Outcome, done, fatal, spin, ◌>>=◌}
use pet_ps.KvData.{Config}
use pet_ps.Engine.{Engine, HashTable, Floats, floats_of, batch_from}
use pet_ps.Engine

-- The element of a vector at a position, `none` behind its end.
unfoldable pub read_at {ℓ} : {V : Type ℓ} → List V → ℕ → Option V
read_at [] n = none
read_at (v ∷ vs) zero = some v
read_at (v ∷ vs) (suc n) = read_at vs n

module _ {T : Type 0} (table : HashTable T) (config : Config) where
  unfoldable pub get : Engine T → ℕ → Outcome (List ℕ)
  get = Engine.get table config

  unfoldable pub put : Engine T → ℕ → List ℕ → Outcome (Engine T)
  put = Engine.put table config

  -- The loop over positions, less the prefetch of the next key.
  unfoldable pub batch_at : Engine T → List ℕ → ℕ → ℕ → List Floats → Outcome (List Floats)
  batch_at e keys i zero values = done values
  batch_at e keys i (suc left) values = elim (read_at keys i) [
    | none ↦ fatal
    | some key ↦ floats_of table config e (table.find e.hash_table key) >>= λ v.
        batch_at e keys (i + 1) left (values ++ (v ∷ []))
  ]

  unfoldable pub batch_get : ℕ → Engine T → List ℕ → Outcome (List Floats)
  batch_get prefetch_method e keys =
      if prefetch_method == 0
      then batch_from table config e keys []
      else batch_at e keys 0 (length keys) []

  >>=-cong :
      {A B : Type 0} (m : Outcome A) (f g : A → Outcome B)
      → ((a : A) → f a ≡ g a)
      → (m >>= f) ≡ (m >>= g)
  >>=-cong (done a) f g h = h a
  >>=-cong fatal f g h = refl
  >>=-cong spin f g h = refl

  -- Keys from position `i` on.
  batch_at-from :
      (e : Engine T) (keys : List ℕ) (i : ℕ) (after : List ℕ) (values : List Floats)
      → ((n : ℕ) → read_at keys (i + n) ≡ read_at after n)
      → batch_at e keys i (length after) values ≡ batch_from table config e after values
  unfolding batch_at batch_from read_at
  batch_at-from e keys i [] values same = refl
  batch_at-from e keys i (k ∷ after) values same =
      let here : read_at keys i ≡ some k = ap (read_at keys) (plain i) ∙ same 0 in
      rw (batch_at, here)
        (>>=-cong (floats_of table config e (table.find e.hash_table k)) _ _ (λ v.
          batch_at-from e keys (i + 1) after (values ++ (v ∷ []))
            (λ n. ap (read_at keys) (shape i n) ∙ same (suc n))))
    where
      plain : (i : ℕ) → i ≡ i + 0
      plain i = omega arith

      shape : (i n : ℕ) → i + 1 + n ≡ i + suc n
      shape i n = omega arith

  -- The two loops of `BatchGet` return the same.
  pub batch_get-prefetch :
      (prefetch_method : ℕ) (e : Engine T) (keys : List ℕ)
      → batch_get prefetch_method e keys ≡ Engine.batch_get table config e keys
  unfolding batch_get Engine.batch_get
  batch_get-prefetch prefetch_method e keys = elim (Bool-cases (prefetch_method == 0)) [
    | inl none_asked ↦ rw none_asked refl
    | inr asked ↦ rw asked (batch_at-from e keys 0 keys [] (λ n. ap (read_at keys) (plain n)))
  ]
    where
      plain : (n : ℕ) → 0 + n ≡ n
      plain n = omega arith
