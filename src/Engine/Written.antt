-- ===== src/Engine/Written.antt =====
-- The maps that keep the value of a key that they have, and the reference store's counterpart.
use pet_ps.Common.{
  ℕ, Option, none, some, List, if◌then◌else◌, ◌≡◌, ◌≢◌, refl, ap, ◌∙◌, inl, inr, eq→==, ne→==,
  Option-cases,
}
use pet_ps.StdKv.{TestDb, write, write_expiring}
use pet_ps.Engine.{HashTable}

-- `find` and `insert` of a map that keeps the value of a key that it has.
pub record IsTable {T : Type 0} (table : HashTable T) : Type 0 where
  pub new_key :
      (t : T) (key word : ℕ)
      → table.find t key ≡ none
      → table.find (table.insert t key word) key ≡ some word
  pub old_key :
      (t : T) (key word old : ℕ)
      → table.find t key ≡ some old
      → table.find (table.insert t key word) key ≡ some old
  pub other_key :
      (t : T) (key word other : ℕ)
      → other ≢ key
      → table.find (table.insert t key word) other ≡ table.find t other

-- The reference store's `Write`, for a key that it does not have.
abbrev pub write_over : Option (ℕ × List ℕ) → TestDb → ℕ → List ℕ → TestDb
write_over none db key value = (write db key value).0
write_over (some old) db key value = db

abbrev pub write_new : TestDb → ℕ → List ℕ → TestDb
write_new db key value = write_over (db key) db key value

pub write_new-key :
    (db : TestDb) (key : ℕ) (value : List ℕ)
    → db key ≡ none
    → write_new db key value key ≡ some (0, value)
unfolding write write_expiring
write_new-key db key value absent =
    ap (λ o. write_over o db key value key) absent
    ∙ ap (λ b. if b then some (0, value) else db key) (eq→== key key refl)

pub write_new-old :
    (db : TestDb) (key : ℕ) (value : List ℕ) {old : ℕ × List ℕ}
    → db key ≡ some old
    → write_new db key value ≡ db
write_new-old db key value there = ap (λ o. write_over o db key value) there

pub write_new-other :
    (db : TestDb) (key : ℕ) (value : List ℕ) (other : ℕ)
    → key ≢ other
    → write_new db key value other ≡ db other
unfolding write write_expiring
write_new-other db key value other apart = elim (Option-cases (db key)) [
  | inl absent ↦
      ap (λ o. write_over o db key value other) absent
      ∙ ap (λ b. if b then some (0, value) else db other) (ne→== key other apart)
  | inr (old, there) ↦ ap (λ o. write_over o db key value other) there
]
