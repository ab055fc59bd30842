-- ===== src/MultiKv/Batch.antt =====
-- `BatchGet` of the shards and of the engine against the reference store.
use pet_ps.Common.{
  ℕ, suc, ◌*◌, ◌/◌, ◌%◌, ◌<◌, Bool, true, false, Option, none, some, List, [], ◌∷◌, ◌++◌, map,
  length, replicate, ◌==◌, if◌then◌else◌, ◌≡◌, ◌≢◌, refl, sym, ap, ◌∙◌, ◌⊎◌, inl, inr, arith, eq→==,
  ne→==, Option-cases,
}
use pet_ps.Common.Bytes.{Memory, read_bytes, length-read_bytes}
use pet_ps.Common.Outcome.{Outcome, done, fatal, spin, Returns, ◌>>=◌, >>=-done}
use pet_ps.KvData.{Config, shm_malloc_offset}
use pet_ps.PetKv.{PetKv, PetKvReadData, read_found, read_data}
use pet_ps.PetHash.Search
use pet_ps.KvData
use pet_ps.MemoryPool.Sized.{get_malloc_size}
use pet_ps.PetKv
use pet_ps.PetKv.Store.{value_of}
use pet_ps.StdKv.{TestDb}
use pet_ps.MultiKv.{MultiKv, Floats, get, floats_of, batch_get, engine_batch_from, engine_batch_get}
use pet_ps.MultiKv.Refines.{Represents, shard_of, bytes_in}

append_assoc :
    (xs : List Floats) (y : Floats) (ys : List Floats) → (xs ++ (y ∷ [])) ++ ys ≡ xs ++ (y ∷ ys)
append_assoc [] y ys = refl
append_assoc (x ∷ xs) y ys = ap (λ zs. x ∷ zs) (append_assoc xs y ys)

append_none : (xs : List Floats) → xs ++ [] ≡ xs
append_none [] = refl
append_none (x ∷ xs) = ap (λ zs. x ∷ zs) (append_none xs)

-- The bytes at a pointer, where there is one.
abbrev pointed : Memory → Option ℕ → ℕ → Option (List ℕ)
pointed memory none n = none
pointed memory (some ptr) n = some (read_bytes memory ptr n)

pointer-eq :
    (memory : Memory) (d : Option ℕ) (n : ℕ) (x : Option (List ℕ))
    → (elim d as (λ _. Outcome (Option (List ℕ))) [
      | none ↦ done none
      | some ptr ↦ done (some (read_bytes memory ptr n))
    ])
      ≡ done x
    → pointed memory d n ≡ x
pointer-eq memory none n x h = cc h
pointer-eq memory (some ptr) n x h = cc h

read-cases :
    (o : Outcome PetKvReadData) (memory : Memory) (x : Option (List ℕ))
    → (o >>= λ (r : PetKvReadData). elim r.value_data [
      | none ↦ done none
      | some ptr ↦ done (some (read_bytes memory ptr r.size))
    ])
      ≡ done x
    → (r : PetKvReadData) × (o ≡ done r) × (pointed memory r.value_data r.size ≡ x)
read-cases fatal memory x h = absurd (cc h)
read-cases spin memory x h = absurd (cc h)
read-cases (done r) memory x h = (r, refl, pointer-eq memory r.value_data r.size x h)

module _ (crc : ℕ → ℕ) (get_hash : ℕ → ℕ) (config : Config) (pre : ℕ) where
  abbrev Multi : Type 0
  Multi = MultiKv crc get_hash config pre

  -- The bytes of a key's float array. Without a pointer it is the buffer of zeros.
  abbrev pub view : Multi → ℕ → Floats → List ℕ
  view m key (none, n) = replicate (n * 4) 0
  view m key (some ptr, n) = read_bytes (shard_of crc get_hash config pre m key).memory ptr (n * 4)

  abbrev pub views : Multi → List ℕ → List Floats → List (List ℕ)
  views m (key ∷ keys) (v ∷ vs) = view m key v ∷ views m keys vs
  views m _ _ = []

  -- The reference store's answer: without a value no bytes, or as many zeros as a value has that is known
  -- to have `pre` bytes.
  abbrev pub answer : ℕ → TestDb → ℕ → List ℕ
  answer prefetch_method db key = elim (bytes_in crc get_hash config pre db key) [
    | none ↦ if prefetch_method == 0 then [] else replicate (pre / 4 * 4) 0
    | some bytes ↦ bytes
  ]

  read_key :
      (m : Multi) (db : TestDb) (key : ℕ)
      → Represents crc get_hash config pre m db
      → (r : PetKvReadData) × (get crc get_hash config pre m key ≡ done r)
        × (pointed (shard_of crc get_hash config pre m key).memory r.value_data r.size
            ≡ bytes_in crc get_hash config pre db key)
  unfolding get value_of
  read_key m db key v =
      let kv = shard_of crc get_hash config pre m key in
      read-cases (PetKv.get crc config pre kv key) kv.memory
        (bytes_in crc get_hash config pre db key) (v.reads key)

  -- Every value has whole floats, and one at least.
  abbrev pub AreFloats : TestDb → Type 0
  AreFloats db =
      (key : ℕ) (bytes : List ℕ)
      → bytes_in crc get_hash config pre db key ≡ some bytes
      → (length bytes % 4 ≡ 0) × (0 < length bytes)

  -- What a loop of `BatchGet` adds for a key that has a pointer or none.
  abbrev own_floats : PetKvReadData → Floats
  own_floats r = (r.value_data, r.size / 4)

  found-view :
      (m : Multi) (key ptr n k : ℕ) (bytes : List ℕ)
      → read_bytes (shard_of crc get_hash config pre m key).memory ptr n ≡ bytes
      → length bytes % 4 ≡ 0
      → k ≡ n / 4
      → view m key (some ptr, k) ≡ bytes
  found-view m key ptr n k bytes reads whole e =
      let memory = (shard_of crc get_hash config pre m key).memory in
      let size : n ≡ length bytes = sym (length-read_bytes memory ptr n) ∙ ap length reads in
      let back : k * 4 ≡ n = omega (arith, e, size, whole) in
      ap (read_bytes memory ptr) back ∙ reads

  -- A read without a pointer has the size 0.
  read_found-size :
      (kv : PetKv crc config pre) (w : ℕ × Bool) (r : PetKvReadData)
      → read_found crc config pre kv w ≡ done r
      → (r.value_data ≢ none) ⊎ (r.size ≡ 0)
  unfolding read_data
  read_found-size kv (cache, false) r h = inr (sym (ap size_of h))
    where
      size_of : Outcome PetKvReadData → ℕ
      size_of (done r) = r.size
      size_of fatal = 0
      size_of spin = 0
  read_found-size kv (cache, true) r h = elim (Option-cases (shm_malloc_offset config cache)) [
    | inl e ↦
        let dies : read_data crc config pre kv cache ≡ fatal = rw (read_data, e) refl in
        let wrong : fatal ≡ done r = sym dies ∙ h in absurd (cc wrong)
    | inr (ptr, e) ↦ inl (λ missing.
        let there : (x : PetKvReadData) × (read_data crc config pre kv cache ≡ done x)
            × (x.value_data ≡ some ptr) =
          (
            record {
              expire_timet = KvData.expire_timet config cache;
              value_data = some ptr;
              size =
                  if pre == 0 then get_malloc_size false kv.recycler.malloc kv.memory ptr else pre;
            },
            rw (read_data, e) refl,
            refl,
          ) in
        let same : done r ≡ done there.0 = sym h ∙ there.1 in
        let wrong : none ≡ some ptr = sym missing ∙ ap data_of same ∙ there.2 in cc wrong)
  ]
    where
      data_of : Outcome PetKvReadData → Option ℕ
      data_of (done r) = r.value_data
      data_of fatal = none
      data_of spin = none

  get-size :
      (kv : PetKv crc config pre) (o : Outcome (ℕ × Bool)) (r : PetKvReadData)
      → (o >>= read_found crc config pre kv) ≡ done r
      → (r.value_data ≢ none) ⊎ (r.size ≡ 0)
  get-size kv (done w) r h = read_found-size kv w r h
  get-size kv fatal r h = absurd (cc h)
  get-size kv spin r h = absurd (cc h)

  get-found :
      (m : Multi) (key : ℕ) (r : PetKvReadData)
      → get crc get_hash config pre m key ≡ done r
      → (Search.get crc (shard_of crc get_hash config pre m key).dict key
          >>= read_found crc config pre (shard_of crc get_hash config pre m key))
        ≡ done r
  unfolding get PetKv.get
  get-found m key r run = run

  floats-answer :
      (m : Multi) (key : ℕ) (d : Option ℕ) (n : ℕ) (x : Option (List ℕ))
      → pointed (shard_of crc get_hash config pre m key).memory d n ≡ x
      → ((bytes : List ℕ) → x ≡ some bytes → (length bytes % 4 ≡ 0) × (0 < length bytes))
      → (d ≢ none) ⊎ (n ≡ 0)
      → view m key (d, n / 4) ≡ elim x as (λ _. List ℕ) [ none ↦ [] | some bytes ↦ bytes ]
  floats-answer m key none n none seen f size = elim size [
    | inl held ↦ absurd (held refl)
    | inr empty ↦
        let no_floats : n / 4 * 4 ≡ 0 = omega (arith, empty) in ap (λ k. replicate k 0) no_floats
  ]
  floats-answer m key none n (some bytes) seen f size = absurd (cc seen)
  floats-answer m key (some ptr) n none seen f size = absurd (cc seen)
  floats-answer m key (some ptr) n (some bytes) seen f size =
      found-view m key ptr n (n / 4) bytes (cc seen) (f bytes refl).0 refl

  view-answer :
      (m : Multi) (db : TestDb) (key : ℕ) (r : PetKvReadData)
      → AreFloats db
      → pointed (shard_of crc get_hash config pre m key).memory r.value_data r.size
        ≡ bytes_in crc get_hash config pre db key
      → (r.value_data ≢ none) ⊎ (r.size ≡ 0)
      → view m key (own_floats r) ≡ answer 0 db key
  view-answer m db key r f seen size =
      floats-answer m key r.value_data r.size (bytes_in crc get_hash config pre db key) seen (f key)
        size

  engine_batch_from-views :
      (m : Multi) (db : TestDb) (keys : List ℕ) (values : List Floats)
      → Represents crc get_hash config pre m db
      → AreFloats db
      → Returns (engine_batch_from crc get_hash config pre m keys values) (λ vs.
        (new : List Floats) × (vs ≡ values ++ new)
        × (length new ≡ length keys)
        × (views m keys new ≡ map (answer 0 db) keys))
  unfolding engine_batch_from
  engine_batch_from-views m db [] values v f =
      (values, refl, ([], sym (append_none values), refl, refl))
  engine_batch_from-views m db (k ∷ keys) values v f =
      let (r, run, seen) = read_key m db k v in
      let (vs, run', (new, all, count, rest)) =
        engine_batch_from-views m db keys (values ++ (own_floats r ∷ [])) v f in
      (
        vs,
        >>=-done _ run ∙ run',
        (
          own_floats r ∷ new,
          all ∙ append_assoc values (own_floats r) new,
          ap suc count,
          let first : view m k (own_floats r) ≡ answer 0 db k = view-answer m db k r f seen (
                get-size (shard_of crc get_hash config pre m k)
                  (Search.get crc (shard_of crc get_hash config pre m k).dict k) r
                  (get-found m k r run)) in
              ap (λ x. x ∷ views m keys new) first ∙ ap (λ xs. answer 0 db k ∷ xs) rest,
        ),
      )

  -- The float array of `PetMultiKV::BatchGet`.
  zeros-answer :
      (m : Multi) (key : ℕ) (e : ℕ) (d : Option ℕ) (n : ℕ) (x : Option (List ℕ))
      → pointed (shard_of crc get_hash config pre m key).memory d n ≡ x
      → ((bytes : List ℕ) → x ≡ some bytes → (length bytes % 4 ≡ 0) × (0 < length bytes))
      → (d ≢ none) ⊎ (n ≡ 0)
      → view m key (
          floats_of crc get_hash config pre (record { expire_timet = e; value_data = d; size = n }))
        ≡ elim x as (λ _. List ℕ) [ none ↦ replicate (pre / 4 * 4) 0 | some bytes ↦ bytes ]
  unfolding floats_of
  zeros-answer m key e none n none seen f size = elim size [
    | inl held ↦ absurd (held refl)
    | inr empty ↦ rw (eq→== n 0 empty) refl
  ]
  zeros-answer m key e none n (some bytes) seen f size = absurd (cc seen)
  zeros-answer m key e (some ptr) n none seen f size = absurd (cc seen)
  zeros-answer m key e (some ptr) n (some bytes) seen f size =
      let memory = (shard_of crc get_hash config pre m key).memory in
      let reads : read_bytes memory ptr n ≡ bytes = cc seen in
      let long : n ≡ length bytes = sym (length-read_bytes memory ptr n) ∙ ap length reads in
      let (whole, some_bytes) = f bytes refl in
      rw (ne→== n 0 (omega (arith, long, some_bytes)))
        (found-view m key ptr n (n / 4) bytes reads whole refl)

  batch_get-views :
      (m : Multi) (db : TestDb) (keys : List ℕ) (values : List Floats)
      → Represents crc get_hash config pre m db
      → AreFloats db
      → Returns (batch_get crc get_hash config pre m keys values) (λ vs.
        (new : List Floats) × (vs ≡ values ++ new)
        × (length new ≡ length keys)
        × (views m keys new ≡ map (answer 1 db) keys))
  unfolding batch_get
  batch_get-views m db [] values v f = (values, refl, ([], sym (append_none values), refl, refl))
  batch_get-views m db (k ∷ keys) values v f =
      let kv = shard_of crc get_hash config pre m k in
      let (r, run, seen) = read_key m db k v in
      let here = floats_of crc get_hash config pre r in
      let (vs, run', (new, all, count, rest)) =
        batch_get-views m db keys (values ++ (here ∷ [])) v f in
      let size = get-size kv (Search.get crc kv.dict k) r (get-found m k r run) in
      let first : view m k here ≡ answer 1 db k =
        zeros-answer m k r.expire_timet r.value_data r.size (bytes_in crc get_hash config pre db k)
          seen (f k) size in
      (
        vs,
        >>=-done _ run ∙ run',
        (
          here ∷ new,
          all ∙ append_assoc values here new,
          ap suc count,
          ap (λ x. x ∷ views m keys new) first ∙ ap (λ xs. answer 1 db k ∷ xs) rest,
        ),
      )

  -- In shards that behave as a reference store whose values have whole floats, one at least, `BatchGet` of
  -- the engine returns exactly one float array for each key, in the keys' order, with the prefetch method 0 or 1.
  -- Its bytes are the value that the reference store has for the key; where it has none, they are no bytes
  -- with method 0, and with method 1 as many zeros as whole floats fit in the known size of a value.
  pub engine_batch_get-views :
      (m : Multi) (db : TestDb) (keys : List ℕ) (prefetch_method : ℕ) (values : List Floats)
      → Represents crc get_hash config pre m db
      → AreFloats db
      → (prefetch_method ≡ 0) ⊎ (prefetch_method ≡ 1)
      → Returns (engine_batch_get crc get_hash config pre m keys prefetch_method values) (λ vs.
        (length vs ≡ length keys) × (views m keys vs ≡ map (answer prefetch_method db) keys))
  unfolding engine_batch_get
  engine_batch_get-views m db keys prefetch_method values v f method = elim method [
    | inl plain ↦
        let (vs, run, (new, all, count, seen)) = engine_batch_from-views m db keys [] v f in
        (vs, rw plain run, (ap length all ∙ count, rw plain (ap (views m keys) all ∙ seen)))
    | inr ahead ↦
        let (vs, run, (new, all, count, seen)) = batch_get-views m db keys [] v f in
        (vs, rw ahead run, (ap length all ∙ count, rw ahead (ap (views m keys) all ∙ seen)))
  ]
