-- ===== src/PetKv/Writing.antt =====
-- What the steps of `Update` return.
use pet_ps.Common.{
  ℕ, ◌*◌, ◌/◌, ◌%◌, ◌<◌, Bool, true, false, Option, some, List, [], ◌∷◌, length, ◌==◌,
  if◌then◌else◌, ◌≡◌, ◌≢◌, refl, ap, ◌∙◌, arith, Bool-cases, inl, inr, eq→==,
}
use pet_ps.Common.Bytes.{Memory, write_bytes}
use pet_ps.Common.Outcome.{Outcome, done, Returns, >>=-done}
use pet_ps.KvData.{Config, shm_malloc_offset, set_shm_malloc_offset}
use pet_ps.Pool.{chunk_size}
use pet_ps.PetHash.Table.{full}
use pet_ps.PetHash.Search
use pet_ps.PetHash.Search.{at, missing, get_internal}
use pet_ps.PetHash.Insert.{assign}
use pet_ps.PetHash.Invariant.{Stored, Absent}
use pet_ps.PetHash.Lookup.{get_internal-Stored, get_internal-Absent, get-Stored}
use pet_ps.PetHash.Assign.{assign-Inv, assign-get}
use pet_ps.PetHash.Setting.{insert-Inserted}
use pet_ps.MemoryPool.{MemoryPool, listed_size}
use pet_ps.MemoryPool.Sized
use pet_ps.MemoryPool.Sized.{get_malloc_offset}
use pet_ps.MemoryPool.Slabs.{Slab-empty}
use pet_ps.MemoryPool.Placement.{meta_of, size_for, Placed}
use pet_ps.PetKv.{PetKv, perfect_fit_mod, slab_sizes, write_value, store_offset, free_shm, update}
use pet_ps.PetKv.Queue.{IsQueue}
use pet_ps.PetKv.Store.{IsStore, sized}
use pet_ps.PetKv.Written.{pointer_read, Slab-bound, Slab-Apart}
use pet_ps.PetKv.Retire.{recycle-Drained, longer_absent, longer-IsQueue}
use pet_ps.PetKv.Finish.{Next}

-- A listed size that fits perfectly is the known one.
pub whole_size :
    (pre n s : ℕ)
    → size_for (perfect_fit_mod pre) (slab_sizes pre) n ≡ some s
    → listed_size (slab_sizes pre) s ≡ true
    → perfect_fit_mod pre ≡ true
    → pre ≡ n
whole_size pre n s h l e = elim (Bool-cases (pre == 0)) [
  | inl z ↦ absurd (ground (arith, z, e))
  | inr z ↦
      let h' : some n ≡ some s = rw z at h in
      let l' : listed_size (pre ∷ []) s ≡ true = rw z at l in ground (arith, l', h')
]

-- A word that is written over a word.
twice :
    (b : Bool) (word old : ℕ) (o g : Outcome (ℕ × Bool))
    → g ≡ (if b then done (old, true) else o)
    → (if b then done (word, true) else g) ≡ (if b then done (word, true) else o)
twice true word old o g e = refl
twice false word old o g e = e

module _ (crc : ℕ → ℕ) (config : Config) (pre : ℕ) (kv : PetKv crc config pre) where
  abbrev perfect : Bool
  perfect = perfect_fit_mod pre

  -- The store after the value is written.
  abbrev after_write : List ℕ → MemoryPool × Memory × ℕ → PetKv crc config pre
  after_write log r = record kv {
    memory = write_bytes r.1 r.2 log;
    recycler = record kv.recycler { malloc = r.0 };
  }

  write_value-run :
      (log : List ℕ) (r : MemoryPool × Memory × ℕ)
      → Sized.new perfect (slab_sizes pre) kv.recycler.malloc kv.memory (length log) ≡ done r
      → r.2 % 8 ≡ 0
      → write_value crc config pre kv log
        ≡ done (after_write log r, set_shm_malloc_offset config 0 (some r.2))
  unfolding write_value get_malloc_offset
  write_value-run log r run aligned =
      let whole : (r.2 / 8 * 8 == r.2) ≡ true = eq→== _ _ (omega (arith, aligned)) in
      let step : get_malloc_offset r.2 ≡ done r.2 = rw whole refl in
      >>=-done _ run ∙ >>=-done _ step

  store_offset-run :
      (k : PetKv crc config pre) (pos id new_cache ptr : ℕ)
      → shm_malloc_offset config new_cache ≡ some ptr
      → ((d : ℕ) → shm_malloc_offset config (set_shm_malloc_offset config d (some ptr)) ≡ some ptr)
      → store_offset crc config pre k pos id new_cache
        ≡ done (record k {
          dict =
              assign k.dict pos id (
                set_shm_malloc_offset config ((k.dict.chunk_table pos).value id).second (some ptr));
        })
  unfolding store_offset
  store_offset-run k pos id new_cache ptr e back =
      let d = ((k.dict.chunk_table pos).value id).second in
      rw (store_offset, e, back d, eq→== ptr ptr refl)
        (ap
          (λ (o : Option ℕ).
            done (record k { dict = assign k.dict pos id (set_shm_malloc_offset config d o) }))
          e)

  module _ (key : ℕ) (log : List ℕ) (s : ℕ) (r : MemoryPool × Memory × ℕ)
      (v : IsStore crc config pre kv) (positive : 0 < s)
      (a : Placed perfect kv.recycler.malloc kv.memory (length log) s r)
      (new : Sized.new perfect (slab_sizes pre) kv.recycler.malloc kv.memory (length log)
        ≡ done r) where
    abbrev ptr : ℕ
    ptr = r.2

    read_back :
        (d : ℕ) → shm_malloc_offset config (set_shm_malloc_offset config d (some ptr)) ≡ some ptr
    read_back d =
        let (low, high) = Slab-bound (meta_of perfect) r.0 ptr (length log) a.sound a.slab in
        pointer_read v.layout d ptr (kv.recycler.malloc.nr_chunks * chunk_size)
          (omega (arith, high, a.keeps.num)) v.covers v.small a.aligned

    abbrev new_cache : ℕ
    new_cache = set_shm_malloc_offset config 0 (some ptr)

    wrote : write_value crc config pre kv log ≡ done (after_write log r, new_cache)
    wrote = write_value-run log r new a.aligned

    -- The slabs that wait in the queue stay allocated.
    IsQueue-after : IsQueue perfect r.0 kv.recycler.recycle_ptr
    IsQueue-after = record {
      sound = a.sound;
      held = λ x h.
          (Slab-Apart perfect pre kv.recycler.malloc kv.memory log s r v.queue.sound a positive x 0
            (v.queue.held x h)).0;
      once = v.queue.once;
    }

    -- A key that is missing is inserted.
    pub missing-Next :
        Absent kv.dict key
        → full kv.dict ≡ false
        → Returns
            (update crc config pre kv key log)
            (λ x. (x.1 ≡ true) × Next crc config pre kv key log s r x.0)
    unfolding update
    missing-Next absent room =
        let find = get_internal-Absent crc v.index key absent in
        let (t, run, ok) = insert-Inserted crc key new_cache true kv.dict v.index absent room in
        let d = ((t.0.chunk_table t.1).value t.2).second in
        let word = set_shm_malloc_offset config d (some ptr) in
        let k : PetKv crc config pre = record (after_write log r) { dict = t.0 } in
        let k' : PetKv crc config pre = record k { dict = assign t.0 t.1 t.2 word } in
        let stored = store_offset-run k t.1 t.2 new_cache ptr (read_back 0) read_back in
        (
          (k', true),
          rw (update, find) (>>=-done _ wrote ∙ >>=-done _ run ∙ >>=-done _ stored),
          (
            refl,
            record {
              memory = refl;
              left = record { num = refl; known = λ x h. h };
              word = word;
              named = read_back d;
              index = assign-Inv crc ok.sound t.1 t.2 word;
              reads = λ q.
                  assign-get crc ok.sound key t.1 t.2 word q ok.entry
                  ∙ twice (q == key) word new_cache (Search.get crc kv.dict q)
                      (Search.get crc t.0 q) (ok.reads q);
              queue = IsQueue-after;
              stay = λ x n slab h kept. (slab, h);
            },
          ),
        )

    -- The value of a key that is stored is replaced, and its slab goes to the recycler.
    pub stored-Next :
        (p id : ℕ)
        → Stored kv.dict key p id
        → Returns
            (update crc config pre kv key log)
            (λ x. (x.1 ≡ true) × Next crc config pre kv key log s r x.0)
    unfolding update free_shm
    stored-Next p id st =
        let find = get_internal-Stored crc v.index key p id st in
        let old = ((kv.dict.chunk_table p).value id).second in
        let g : Search.get crc kv.dict key ≡ done (old, true) =
          get-Stored crc v.index key p id st in
        let t = v.values key old g in
        let n = sized perfect pre kv.memory t.ptr in
        let (t', far, low, apart) =
          Slab-Apart perfect pre kv.recycler.malloc kv.memory log s r v.queue.sound a positive t.ptr
            n t.slab in
        let (above, below) = Slab-bound (meta_of perfect) r.0 t.ptr n a.sound t' in
        let k = after_write log r in
        let stamp = kv.recycler.epoch_manager.current_epoch in
        let queue = kv.recycler.recycle_ptr in
        let longer_ok =
          longer-IsQueue perfect r.0 t.ptr stamp queue IsQueue-after (Slab-empty _ _ _ _ t')
            (v.unqueued key old t.ptr g t.named) in
        let (rec, run, d) =
          recycle-Drained perfect k.recycler t.ptr (omega (arith, above)) longer_ok in
        let k1 : PetKv crc config pre = record k { recycler = rec } in
        let freed : free_shm crc config pre k (shm_malloc_offset config old) ≡ done k1 =
          rw t.named (>>=-done _ run) in
        let word = set_shm_malloc_offset config old (some ptr) in
        let k2 : PetKv crc config pre = record k1 { dict = assign kv.dict p id word } in
        let stored = store_offset-run k1 p id new_cache ptr (read_back 0) read_back in
        (
          (k2, true),
          rw (update, find) (>>=-done _ wrote ∙ >>=-done _ freed ∙ >>=-done _ stored),
          (
            refl,
            record {
              memory = refl;
              left = d.left;
              word = word;
              named = read_back old;
              index = assign-Inv crc v.index p id word;
              reads = λ q. assign-get crc v.index key p id word q st;
              queue = d.queued;
              stay = λ x m slab h kept.
                  let ne : x ≢ t.ptr = λ e. absurd (kept old g (rw e t.named)) in
                  let out = longer_absent perfect x t.ptr stamp queue h ne in
                  (d.others x m out slab, omega (arith, d.fewer x, out));
            },
          ),
        )
