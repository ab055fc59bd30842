-- ===== src/Tests/Stores.antt =====
-- A store of slabs of five sizes over five chunks, after a first start.
use pet_ps.Common.{
  ◌∙◌, ℕ, ◌-◌, ◌*◌, ◌%◌, ◌^◌, ◌<◌, true, false, some, none, List, [], ◌∷◌, map, length, ◌==◌,
  if◌then◌else◌, ◌≡◌, ◌≢◌, refl, ap, arith, ◌⊎◌, inl, inr, Bool-cases, ==→eq, subst, sym,
}
use pet_ps.Common.Outcome.{Outcome, done, fatal, spin, Returns}
use pet_ps.KvData.{Config}
use pet_ps.KvData.Fields.{IsLayout}
use pet_ps.Pool.{chunk_size, entries_for, header_size}
use pet_ps.PetHash.Table.{full, over_fall_chunk_num, initialize}
use pet_ps.PetHash.Chunk.{max_size}
use pet_ps.PetHash.Valid.{valid}
use pet_ps.MemoryPool
use pet_ps.MemoryPool.{listed_size, opened, clear_from, push_free}
use pet_ps.MemoryPool.Sized.{lower_bound}
use pet_ps.MemoryPool.Placement.{Exhausted}
use pet_ps.Epoch.{start}
use pet_ps.PetKv.{PetKv, slab_sizes, perfect_fit_mod}
use pet_ps.PetKv
use pet_ps.PetKv.Start.{Files, construct, open_dict, put_together}
use pet_ps.PetKv.Fresh.{AreSizes, construct-IsStore}
use pet_ps.PetKv.Store.{IsStore, value_of}
use pet_ps.PetKv.Update.{Updated, update-Updated}
use pet_ps.StdKv
use pet_ps.StdKv.{TestDb}
use pet_ps.MultiKv
use pet_ps.MultiKv.{MultiKv}
use pet_ps.MultiKv.Batch.{views, answer, AreFloats, engine_batch_get-views}
use pet_ps.MultiKv.Refines.{
  sharing-IsStore, value_of-sharing, Represents, shard_of, engine_put-Represents, engine_put-get,
}
use pet_ps.Tests.Tables.{crc, scale, memory}
use pet_ps.Tests.Pools.{unused}

abbrev pub layout : Config
layout = record {
  expire_reduct_bit = 16;
  expire_reduct_mark = 2 ^ 16 - 1;
  expire_bit = 16;
  expire_mark = 2 ^ 16 - 1;
  no_malloc_offset = 2 ^ 48 - 1;
}

pub layout-IsLayout : IsLayout 48 layout
layout-IsLayout = record { expire_width = refl; mask = refl; sentinel = refl }

abbrev files : Files
files = record {
  chunks = λ _. unused;
  memory = λ _. 0;
  pool_exists = false;
  dict = memory;
  dict_file_size = 4096;
  epoch_manager = start;
  scale = scale;
  size_of_chunk = 256;
}

not_valid : valid crc scale 256 memory 4096 ≡ done false
unfolding valid
not_valid = refl

fits_40 : entries_for 40 ≢ 0
unfolding entries_for header_size
fits_40 = λ e. absurd (omega (arith, e))

fits_72 : entries_for 72 ≢ 0
unfolding entries_for header_size
fits_72 = λ e. absurd (omega (arith, e))

fits_136 : entries_for 136 ≢ 0
unfolding entries_for header_size
fits_136 = λ e. absurd (omega (arith, e))

fits_520 : entries_for 520 ≢ 0
unfolding entries_for header_size
fits_520 = λ e. absurd (omega (arith, e))

fits_1032 : entries_for 1032 ≢ 0
unfolding entries_for header_size
fits_1032 = λ e. absurd (omega (arith, e))

listed :
    (P : ℕ → Type 0)
    → P 40
    → P 72
    → P 136
    → P 520
    → P 1032
    → (s : ℕ) → listed_size (slab_sizes 0) s ≡ true
    → P s
listed P a b c d e s h = elim (Bool-cases (40 == s)) [
  | inl k ↦ subst P (==→eq 40 s k) a
  | inr k ↦ elim (Bool-cases (72 == s)) [
    | inl l ↦ subst P (==→eq 72 s l) b
    | inr l ↦ elim (Bool-cases (136 == s)) [
      | inl m ↦ subst P (==→eq 136 s m) c
      | inr m ↦ elim (Bool-cases (520 == s)) [
        | inl n ↦ subst P (==→eq 520 s n) d
        | inr n ↦ subst P (ground (arith, h, k, l, m, n)) e
      ]
    ]
  ]
]

sizes : AreSizes 0
sizes = record {
  positive =
      listed (λ s. 0 < s) (omega arith) (omega arith) (omega arith) (omega arith) (omega arith);
  aligned = listed (λ s. s % 8 ≡ 0) refl refl refl refl refl;
  cut = listed (λ s. entries_for s ≢ 0) fits_40 fits_72 fits_136 fits_520 fits_1032;
}

few : over_fall_chunk_num 20 * max_size < 2 ^ 64
unfolding over_fall_chunk_num
few = omega arith

construct-IsStore_example : Returns (construct crc layout 0 files (5 * chunk_size) 20) (λ kv.
    IsStore crc layout 0 kv
    × ((key : ℕ) → value_of crc layout 0 kv key ≡ done none)
    × (kv.dict ≡ initialize scale memory 20 true))
construct-IsStore_example =
    construct-IsStore crc layout 0 files (5 * chunk_size) 20 48 refl not_valid layout-IsLayout
      (omega arith) (omega arith) (omega arith) sizes (omega arith) few

abbrev store : PetKv crc layout 0
store = construct-IsStore_example.0

abbrev log : List ℕ
log = 1 ∷ 2 ∷ 3 ∷ 4 ∷ []

table_room : full (initialize scale memory 20 true) ≡ false
unfolding full initialize
table_room = refl

store_room : full store.dict ≡ false
store_room = subst (λ t. full t ≡ false) (sym construct-IsStore_example.2.2) table_room

fit : lower_bound (slab_sizes 0) 12 ≡ some 40
unfolding lower_bound
fit = refl

update-Updated_example :
    ((PetKv.update crc layout 0 store 7 log ≡ fatal) × Exhausted store.recycler.malloc 40)
    ⊎ Returns (PetKv.update crc layout 0 store 7 log) (Updated crc layout 0 store 7 log)
update-Updated_example =
    update-Updated crc layout 0 store 7 log 40 construct-IsStore_example.2.0 store_room fit refl
      (omega arith)

-- Sixteen shards of that store, and the empty reference store.
abbrev shards : MultiKv crc crc layout 0
shards = record { shard_num = 16; shm_kv = λ _. store; epoch_manager = start }

abbrev empty : TestDb
empty = λ _. none

shards-Represents : Represents crc crc layout 0 shards empty
shards-Represents = record {
  shards = omega arith;
  sound = λ i l. sharing-IsStore crc crc layout 0 start store construct-IsStore_example.2.0;
  reads =
      λ key. value_of-sharing crc crc layout 0 start store key ∙ construct-IsStore_example.2.1 key;
}

engine_put-Represents_example :
    ((MultiKv.engine_put crc crc layout 0 shards 7 log ≡ fatal)
      × Exhausted (shard_of crc crc layout 0 shards 7).recycler.malloc 40)
    ⊎ Returns
        (MultiKv.engine_put crc crc layout 0 shards 7 log)
        (λ m'. Represents crc crc layout 0 m' (StdKv.write empty 7 log).0)
engine_put-Represents_example =
    engine_put-Represents crc crc layout 0 shards empty 7 log 40 shards-Represents store_room fit
      refl (omega arith)

abbrev free_chunks_of : Outcome (PetKv crc layout 0) → List ℕ
free_chunks_of (done kv) = kv.recycler.malloc.free_chunks
free_chunks_of fatal = []
free_chunks_of spin = []

store_chunks : store.recycler.malloc.free_chunks ≢ []
unfolding construct open_dict put_together MemoryPool.construct opened clear_from push_free valid
    initialize
store_chunks e =
    let free : free_chunks_of (construct crc layout 0 files (5 * chunk_size) 20)
        ≡ 0 ∷ 1 ∷ 2 ∷ 3 ∷ 4 ∷ [] =
      refl in
    let same = ap free_chunks_of construct-IsStore_example.1 in cc (free, same, e)

-- The shards after a value has been put.
filled :
    Returns
      (MultiKv.engine_put crc crc layout 0 shards 7 log)
      (λ m'. Represents crc crc layout 0 m' (StdKv.write empty 7 log).0)
filled =
    elim (engine_put-Represents crc crc layout 0 shards empty 7 log 40 shards-Represents store_room
      fit refl (omega arith)) [ inl (dies, no_room) ↦ absurd (store_chunks no_room.1) | inr r ↦ r ]

engine_put-get_example :
    ((MultiKv.engine_put crc crc layout 0 shards 7 log ≡ fatal)
      × Exhausted (shard_of crc crc layout 0 shards 7).recycler.malloc 40)
    ⊎ Returns (MultiKv.engine_put crc crc layout 0 shards 7 log) (λ m'.
      (k : ℕ) (old : List ℕ)
      → MultiKv.engine_get crc crc layout 0 m' k old
        ≡ (if 7 == k then done log else MultiKv.engine_get crc crc layout 0 shards k old))
engine_put-get_example =
    engine_put-get crc crc layout 0 shards empty 7 log 40 shards-Represents store_room fit refl
      (omega arith)

log-AreFloats : AreFloats crc crc layout 0 (StdKv.write empty 7 log).0
unfolding StdKv.write StdKv.write_expiring
log-AreFloats key bytes h = elim (Bool-cases (7 == key)) [
  | inl same ↦
      let h' : some log ≡ some bytes = rw same at h in
      let e : log ≡ bytes = cc h' in
      subst (λ (b : List ℕ). (length b % 4 ≡ 0) × (0 < length b)) e (refl, omega arith)
  | inr apart ↦ let h' : none ≡ some bytes = rw apart at h in absurd (cc h')
]

engine_batch_get-views_example :
    Returns (MultiKv.engine_batch_get crc crc layout 0 filled.0 (7 ∷ 9 ∷ []) 1 []) (λ vs.
      (length vs ≡ 2)
      × (views crc crc layout 0 filled.0 (7 ∷ 9 ∷ []) vs
          ≡ map (answer crc crc layout 0 1 (StdKv.write empty 7 log).0) (7 ∷ 9 ∷ [])))
engine_batch_get-views_example =
    engine_batch_get-views crc crc layout 0 filled.0 (StdKv.write empty 7 log).0 (7 ∷ 9 ∷ []) 1 []
      filled.2 log-AreFloats (inr refl)
