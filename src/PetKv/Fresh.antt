-- ===== src/PetKv/Fresh.antt =====
-- A first start.
use pet_ps.Common.{
  ℕ, ◌+◌, ◌*◌, ◌/◌, ◌%◌, ◌^◌, ◌<◌, ◌≤◌, Bool, true, false, none, [], length, count, ◌==◌,
  if◌then◌else◌, ◌≡◌, ◌≢◌, refl, ap, ◌∙◌, arith, eq→==,
}
use pet_ps.Common.Outcome.{done, fatal, Returns, >>=-done}
use pet_ps.KvData.{Config}
use pet_ps.KvData.Fields.{IsLayout}
use pet_ps.Pool.{chunk_size, entries_for}
use pet_ps.PetHash.Chunk.{max_size}
use pet_ps.PetHash.Table.{initialize, over_fall_chunk_num}
use pet_ps.PetHash.Valid.{valid}
use pet_ps.PetHash.Setup.{initialize-Inv}
use pet_ps.PetHash.Search
use pet_ps.MemoryPool
use pet_ps.MemoryPool.{MemoryPool, listed_size}
use pet_ps.MemoryPool.Start.{construct-fresh}
use pet_ps.PetKv.{PetKv, slab_sizes}
use pet_ps.PetKv.Start.{Files, construct, open_dict, put_together}
use pet_ps.PetKv.Store.{IsStore, value_of, value_of-none}

-- The slab sizes of the pool can be used: they are multiples of 8 of which some fit into a chunk.
pub record AreSizes (pre : ℕ) : Type 0 where
  pub positive : (s : ℕ) → listed_size (slab_sizes pre) s ≡ true → 0 < s
  pub aligned : (s : ℕ) → listed_size (slab_sizes pre) s ≡ true → s % 8 ≡ 0
  pub cut : (s : ℕ) → listed_size (slab_sizes pre) s ≡ true → entries_for s ≢ 0

no_pointer : (ptr : ℕ) → ¬ (0 < count ptr [])
unfolding count
no_pointer ptr h = absurd (omega (arith, h))

no_count : (ptr : ℕ) → count ptr [] ≤ 1
unfolding count
no_count ptr = omega arith

-- With no pool file and an index file that `Valid` refuses, for sizes of slabs that are positive,
-- multiples of 8 and of which a chunk holds at least one slab, for a memory of at least as many chunks
-- as there are sizes, whose offsets the layout covers, and for a capacity whose slots can be counted in
-- 64 bits, the constructor returns a well-formed store with the index of `Initialize`, in which every
-- key is missing.
pub construct-IsStore :
    (crc : ℕ → ℕ) (config : Config) (pre : ℕ) (files : Files) (memory_size capacity width : ℕ)
    → files.pool_exists ≡ false
    → valid crc files.scale files.size_of_chunk files.dict files.dict_file_size ≡ done false
    → IsLayout width config
    → memory_size + 16 ≤ 2 ^ (width + 3)
    → memory_size + 16 ≤ 2 ^ 64
    → length (slab_sizes pre) ≤ memory_size / chunk_size
    → AreSizes pre
    → capacity < 2 ^ 64
    → over_fall_chunk_num capacity * max_size < 2 ^ 64
    → Returns (construct crc config pre files memory_size capacity) (λ kv.
      IsStore crc config pre kv
      × ((key : ℕ) → value_of crc config pre kv key ≡ done none)
      × (kv.dict ≡ initialize files.scale files.dict capacity true))
unfolding construct open_dict put_together
construct-IsStore crc config pre files memory_size capacity width new invalid layout covers small
      enough sizes asked room =
    let sz = slab_sizes pre in
    let (pool, run, (sound, num, known, total)) =
      construct-fresh files.chunks memory_size sz enough in
    let dict = initialize files.scale files.dict capacity true in
    let (v, le, none_there) = initialize-Inv crc files.scale files.dict capacity true asked room in
    let run' : MemoryPool.construct files.chunks memory_size sz files.pool_exists ≡ done pool =
      ap (MemoryPool.construct files.chunks memory_size sz) new ∙ run in
    let opened : open_dict crc config pre files capacity ≡ done dict = >>=-done _ invalid in
    let size : dict.size ≡ 0 = unfold initialize in refl in
    let empty : (dict.size % 2 ^ 32 == pool.total_malloc) ≡ true =
      eq→== _ _ (omega (arith, size, total)) in
    let kv : PetKv crc config pre = record {
      dict = dict;
      memory = files.memory;
      recycler = record {
        malloc = pool;
        epoch_manager = files.epoch_manager;
        recycle_ptr = [];
        recycled_count = 0;
      };
    } in
    let together : put_together crc config pre files dict pool ≡ done kv =
      ap (λ (b : Bool). if b then done kv else fatal) empty in
    let missing : (key : ℕ) (word : ℕ) → Search.get crc dict key ≢ done (word, true) =
      λ key word g. cc (g, none_there key) in
    (
      kv,
      >>=-done _ run' ∙ >>=-done _ opened ∙ together,
      (
        record {
          width = width;
          layout = layout;
          covers = omega (arith, num, covers);
          small = omega (arith, num, small);
          served = λ s l. record {
            positive = sizes.positive s l;
            aligned = sizes.aligned s l;
            cut = sizes.cut s l;
            known = known s l;
          };
          index = v;
          queue = record {
            sound = sound;
            held = λ ptr h. absurd (no_pointer ptr h);
            once = λ ptr. no_count ptr;
          };
          values = λ key word g. absurd (missing key word g);
          alone = λ key word key' word' ptr g g' o o'. absurd (missing key word g);
          unqueued = λ key word ptr g o. absurd (missing key word g);
        },
        λ key. value_of-none crc config pre kv key (none_there key),
        refl,
      ),
    )
