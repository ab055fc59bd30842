-- ===== src/Engine/Batch.antt =====
-- `BatchGet` against the reference store.
use pet_ps.Common.{
  ℕ, ◌*◌, ◌/◌, Bool, true, false, Option, none, some, List, [], ◌∷◌, ◌++◌, map, ◌≡◌, refl, ap, sym,
  ◌∙◌, inl, inr, arith,
}
use pet_ps.Common.Bytes.{read_bytes}
use pet_ps.Common.Outcome.{Returns, >>=-done}
use pet_ps.KvData.{Config}
use pet_ps.StdKv.{TestDb, read_expiring}
use pet_ps.Engine.{Engine, HashTable, Floats, floats_of, batch_from, batch_get}
use pet_ps.Engine.Stored.{Represents}

abbrev pub bytes_in : TestDb → ℕ → List ℕ
bytes_in db key = (read_expiring db key 0).0

bytes_in-eq :
    (db : TestDb) (key : ℕ) (o : Option (ℕ × List ℕ))
    → db key ≡ o
    → bytes_in db key ≡ elim o [ none ↦ [] | some (expire, bytes) ↦ bytes ]
unfolding read_expiring
bytes_in-eq db key o e = ap bytes_at e ∙ same o
  where
    bytes_at : Option (ℕ × List ℕ) → List ℕ
    bytes_at o =
        (elim o as (λ _. List ℕ × ℕ × Bool) [
          | none ↦ ([], 0, false)
          | some (expire, bytes) ↦ (bytes, expire, true)
        ]).0

    same :
        (o : Option (ℕ × List ℕ)) → bytes_at o ≡ elim o [ none ↦ [] | some (expire, bytes) ↦ bytes ]
    same none = refl
    same (some (expire, bytes)) = refl

module _ {T : Type 0} (table : HashTable T) (config : Config) where
  -- The bytes of a float array.
  abbrev pub view : Engine T → Floats → List ℕ
  view e (none, n) = []
  view e (some offset, n) = read_bytes e.memory offset (n * 4)

  floats_of-view :
      (e : Engine T) (db : TestDb) (key : ℕ)
      → Represents table config e db
      → Returns
          (floats_of table config e (table.find e.hash_table key))
          (λ v. view e v ≡ bytes_in db key)
  unfolding floats_of
  floats_of-view e db key v = elim (v.keys key) [
    | inl (absent, no_value) ↦ ((none, 0), rw absent refl, sym (bytes_in-eq db key none no_value))
    | inr h ↦
        let slab = e.shm_malloc.slab_size in
        let whole : slab / 4 * 4 ≡ slab = omega (arith, v.aligned) in
        (
          (some h.offset, slab / 4),
          rw (h.found, floats_of, h.decoded, h.size) refl,
          ap (read_bytes e.memory h.offset) whole ∙ sym (bytes_in-eq db key _ h.value),
        )
  ]

  append_assoc :
      (xs : List (List ℕ)) (y : List ℕ) (ys : List (List ℕ))
      → (xs ++ (y ∷ [])) ++ ys ≡ xs ++ (y ∷ ys)
  append_assoc [] y ys = refl
  append_assoc (x ∷ xs) y ys = ap (λ zs. x ∷ zs) (append_assoc xs y ys)

  map-append : (f : Floats → List ℕ) (xs ys : List Floats) → map f (xs ++ ys) ≡ map f xs ++ map f ys
  map-append f [] ys = refl
  map-append f (x ∷ xs) ys = ap (λ zs. f x ∷ zs) (map-append f xs ys)

  append_none : (xs : List (List ℕ)) → xs ++ [] ≡ xs
  append_none [] = refl
  append_none (x ∷ xs) = ap (λ zs. x ∷ zs) (append_none xs)

  batch_from-view :
      (e : Engine T) (db : TestDb) (keys : List ℕ) (values : List Floats)
      → Represents table config e db
      → Returns
          (batch_from table config e keys values)
          (λ vs. map (view e) vs ≡ map (view e) values ++ map (bytes_in db) keys)
  unfolding batch_from
  batch_from-view e db [] values v = (values, refl, sym (append_none (map (view e) values)))
  batch_from-view e db (k ∷ keys) values v =
      let (x, run, seen) = floats_of-view e db k v in
      let (vs, run', rest) = batch_from-view e db keys (values ++ (x ∷ [])) v in
      (
        vs,
        >>=-done _ run ∙ run',
        rest
            ∙ ap (λ bs. bs ++ map (bytes_in db) keys) (map-append (view e) values (x ∷ []))
            ∙ append_assoc (map (view e) values) (view e x) (map (bytes_in db) keys)
            ∙ ap (λ b. map (view e) values ++ (b ∷ map (bytes_in db) keys)) seen,
      )

  -- `BatchGet` of an engine that represents a reference store returns one float array for each key, in the
  -- keys' order, whose bytes are what `Read` has for the key, and no bytes where it has none.
  pub batch_get-view :
      (e : Engine T) (db : TestDb) (keys : List ℕ)
      → Represents table config e db
      → Returns (batch_get table config e keys) (λ vs. map (view e) vs ≡ map (bytes_in db) keys)
  unfolding batch_get
  batch_get-view e db keys v = batch_from-view e db keys [] v
