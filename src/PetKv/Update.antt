-- ===== src/PetKv/Update.antt =====
-- `Update` as a whole.
use pet_ps.Common.{
  ℕ, ◌^◌, ◌<◌, Bool, true, false, some, List, length, ◌==◌, if◌then◌else◌, ◌≡◌, refl, inl, inr, ◌⊎◌,
}
use pet_ps.Common.Outcome.{done, fatal, Returns}
use pet_ps.KvData.{Config}
use pet_ps.PetHash.Table.{full}
use pet_ps.PetHash.Lookup.{get_internal-cases}
use pet_ps.MemoryPool.{listed_size}
use pet_ps.MemoryPool.Sized
use pet_ps.MemoryPool.Sized.{get_malloc_offset}
use pet_ps.MemoryPool.Placement.{size_for, Exhausted, new-Placed}
use pet_ps.PetKv.{PetKv, perfect_fit_mod, slab_sizes, write_value, update}
use pet_ps.PetKv.Store.{IsStore, value_of}
use pet_ps.PetKv.Finish.{Next, Next-IsStore, Next-reads}
use pet_ps.PetKv.Writing.{whole_size, missing-Next, stored-Next}

-- Where `New` aborts, so does `Update`.
update-fatal :
    (crc : ℕ → ℕ) (config : Config) (pre : ℕ) (kv : PetKv crc config pre) (key : ℕ) (log : List ℕ)
    → IsStore crc config pre kv
    → Sized.new (perfect_fit_mod pre) (slab_sizes pre) kv.recycler.malloc kv.memory (length log)
      ≡ fatal
    → update crc config pre kv key log ≡ fatal
unfolding update write_value
update-fatal crc config pre kv key log v dies =
    let dead : write_value crc config pre kv log ≡ fatal = rw dies refl in
    elim (get_internal-cases crc v.index key) [
      | inl (p, id, st, e) ↦ rw (update, e) (rw dead refl)
      | inr (absent, e) ↦ rw (update, e) (rw dead refl)
    ]

-- What `Update` does to the store: it stays well formed, the key reads as what was stored, byte for
-- byte, and every other key as before.
pub record Updated (crc : ℕ → ℕ) (config : Config) (pre : ℕ) (kv : PetKv crc config pre) (key : ℕ)
    (log : List ℕ) (r : PetKv crc config pre × Bool) : Type 0 where
  pub answer : r.1 ≡ true
  pub sound : IsStore crc config pre r.0
  pub reads :
      (j : ℕ)
      → value_of crc config pre r.0 j
        ≡ (if j == key then done (some log) else value_of crc config pre kv j)

-- In a well-formed store whose index is not full, for a value of fewer than 2 ^ 32 bytes that a slab
-- size of the pool takes, `Update` returns true and leaves a well-formed store in which the key
-- reads as the value, byte for byte, and every other key as before; it aborts only when no chunk is
-- free and the pool refuses the size.
pub update-Updated :
    (crc : ℕ → ℕ) (config : Config) (pre : ℕ) (kv : PetKv crc config pre) (key : ℕ) (log : List ℕ)
    (s : ℕ)
    → IsStore crc config pre kv
    → full kv.dict ≡ false
    → size_for (perfect_fit_mod pre) (slab_sizes pre) (length log) ≡ some s
    → listed_size (slab_sizes pre) s ≡ true
    → length log < 2 ^ 32
    → ((update crc config pre kv key log ≡ fatal) × Exhausted kv.recycler.malloc s)
      ⊎ Returns (update crc config pre kv key log) (Updated crc config pre kv key log)
unfolding update
update-Updated crc config pre kv key log s v room fit listed small =
    let served = v.served s listed in
    let pos = served.positive in
    let sizes = slab_sizes pre in
    let whole = whole_size pre (length log) s fit listed in
    elim (new-Placed (perfect_fit_mod pre) kv.recycler.malloc kv.memory sizes (length log) s
      v.queue.sound fit served small) [
        | inl (dies, empty) ↦ inl (update-fatal crc config pre kv key log v dies, empty)
        | inr (r, new, a) ↦
            let done_with =
              λ (x : PetKv crc config pre × Bool) (ok : x.1 ≡ true)
                  (next : Next crc config pre kv key log s r x.0).
                let result : Updated crc config pre kv key log x = record {
                  answer = ok;
                  sound = Next-IsStore crc config pre kv key log s r v a pos whole x.0 next;
                  reads = Next-reads crc config pre kv key log s r v a pos whole x.0 next;
                } in
                result in
            inr (elim (get_internal-cases crc v.index key) [
              | inl (p, id, st, e) ↦
                  let (x, run, (ok, next)) =
                    stored-Next crc config pre kv key log s r v pos a new p id st in
                  (x, run, done_with x ok next)
              | inr (absent, e) ↦
                  let (x, run, (ok, next)) =
                    missing-Next crc config pre kv key log s r v pos a new absent room in
                  (x, run, done_with x ok next)
            ])
      ]
