-- ===== src/Engine/Stored.antt =====
-- An engine against the reference store.
use pet_ps.Common.{
  ℕ, ◌+◌, ◌-◌, ◌/◌, ◌%◌, ◌^◌, ◌<◌, ◌≤◌, true, none, some, List, length, ltb, ◌≡◌, ◌≢◌, refl, ap,
  sym, ◌∙◌, subst, ◌⊎◌, inl, inr, arith, eq_cases, eq→==, ne→==,
}
use pet_ps.Common.Bytes.{read_bytes, write_bytes, read_bytes-write_self, read_bytes-write-Apart}
use pet_ps.Common.Outcome.{done, Returns, >>=-done}
use pet_ps.Common.Pow.{pow_add}
use pet_ps.KvData.{Config, shm_malloc_offset, set_shm_malloc_offset}
use pet_ps.KvData.Fields.{IsLayout, shm_malloc_offset-set_some}
use pet_ps.SimpleMalloc.{SimpleMalloc, get_malloc_size, get_malloc_offset}
use pet_ps.SimpleMalloc
use pet_ps.SimpleMalloc.Cursor.{IsCursor, handed, new-goes}
use pet_ps.StdKv.{TestDb, write, write_expiring, read_expiring}
use pet_ps.Engine.{Engine, HashTable, get, put, read_value}
use pet_ps.Engine.Written.{IsTable, write_new, write_new-key, write_new-old, write_new-other}

module _ {T : Type 0} (table : HashTable T) (config : Config) where
  -- A key with a value, whose slab lies below the cursor.
  pub record HasValue (e : Engine T) (db : TestDb) (key : ℕ) : Type 0 where
    pub word : ℕ
    pub offset : ℕ
    pub found : table.find e.hash_table key ≡ some word
    pub decoded : shm_malloc_offset config word ≡ some offset
    pub below : offset + e.shm_malloc.slab_size ≤ e.shm_malloc.allocated
    pub size : get_malloc_size e.shm_malloc offset ≡ e.shm_malloc.slab_size
    pub value : db key ≡ some (0, read_bytes e.memory offset e.shm_malloc.slab_size)

  pub record Represents (e : Engine T) (db : TestDb) : Type 0 where
    pub cursor : IsCursor e.shm_malloc
    pub width : ℕ
    pub layout : IsLayout width config
    pub covers : e.shm_malloc.memory_size < 2 ^ (width + 3)
    pub aligned : e.shm_malloc.slab_size % 8 ≡ 0
    pub cursor_aligned : e.shm_malloc.allocated % 8 ≡ 0
    pub keys :
        (key : ℕ) → ((table.find e.hash_table key ≡ none) × (db key ≡ none)) ⊎ HasValue e db key

  -- `Get` of an engine that represents a reference store returns what `Read` has for the key, and an
  -- empty string where it has none.
  pub get-Represents :
      (e : Engine T) (db : TestDb) (key : ℕ)
      → Represents e db
      → get table config e key ≡ done (read_expiring db key 0).0
  unfolding get read_expiring read_value
  get-Represents e db key v = elim (v.keys key) [
    | inl (absent, no_value) ↦ rw (get, absent, read_expiring, no_value) refl
    | inr h ↦ rw (get, h.found, read_expiring, h.value, read_value, h.decoded, h.size) refl
  ]

  -- The state after `Put` of a value at the cursor.
  abbrev pub after_put : Engine T → ℕ → List ℕ → Engine T
  after_put e key value = record {
    hash_table =
        table.insert e.hash_table key
          (set_shm_malloc_offset config 0 (some e.shm_malloc.allocated));
    shm_malloc =
        handed e.shm_malloc e.shm_malloc.allocated
          (e.shm_malloc.allocated + e.shm_malloc.slab_size);
    memory = write_bytes e.memory e.shm_malloc.allocated value;
  }

  pub put-done :
      (e : Engine T) (key : ℕ) (value : List ℕ)
      → IsCursor e.shm_malloc
      → length value ≡ e.shm_malloc.slab_size
      → e.shm_malloc.allocated + e.shm_malloc.slab_size < e.shm_malloc.memory_size
      → put table config e key value ≡ done (after_put e key value)
  unfolding put get_malloc_offset
  put-done e key value v fits room =
      let new : SimpleMalloc.new e.shm_malloc (length value)
          ≡ done (
            handed e.shm_malloc e.shm_malloc.allocated
                (e.shm_malloc.allocated + e.shm_malloc.slab_size),
            e.shm_malloc.allocated,
          ) =
        rw fits (new-goes e.shm_malloc v room) in
      let inside : ltb (e.shm_malloc.allocated + e.shm_malloc.slab_size) e.shm_malloc.memory_size
          ≡ true =
        ground (arith, room) in
      >>=-done _ new ∙ rw inside refl

  -- The offset that is stored for the cursor is read back.
  decoded-cursor :
      (e : Engine T) (db : TestDb)
      → Represents e db
      → e.shm_malloc.allocated + e.shm_malloc.slab_size < e.shm_malloc.memory_size
      → shm_malloc_offset config (set_shm_malloc_offset config 0 (some e.shm_malloc.allocated))
        ≡ some e.shm_malloc.allocated
  decoded-cursor e db v room =
      let eight : 8 ≤ e.shm_malloc.slab_size = omega (arith, v.aligned, v.cursor.slab) in
      let fits : e.shm_malloc.allocated / 8 < 2 ^ v.width - 1 =
        omega (arith, room, eight, v.covers, pow_add v.width 3) in
      let small : e.shm_malloc.allocated < 2 ^ 64 =
        omega (arith, v.cursor.bound, v.cursor.inside) in
      let exact : e.shm_malloc.allocated - e.shm_malloc.allocated % 8 ≡ e.shm_malloc.allocated =
        omega (arith, v.cursor_aligned) in
      shm_malloc_offset-set_some v.layout 0 e.shm_malloc.allocated fits small ∙ ap some exact

  -- A value that lies below the cursor after `Put`.
  kept_value :
      (e : Engine T) (db : TestDb) (key : ℕ) (value : List ℕ) (other : ℕ)
      → Represents e db
      → length value ≡ e.shm_malloc.slab_size
      → (h : HasValue e db other)
      → (get_malloc_size (after_put e key value).shm_malloc h.offset ≡ e.shm_malloc.slab_size)
        × (read_bytes (after_put e key value).memory h.offset e.shm_malloc.slab_size
            ≡ read_bytes e.memory h.offset e.shm_malloc.slab_size)
  unfolding get_malloc_size
  kept_value e db key value other v fits h = (
    elim (eq_cases (e.shm_malloc.allocated / e.shm_malloc.slab_size)
        (h.offset / e.shm_malloc.slab_size)) [
          | inl same ↦ rw (eq→== _ _ same) refl
          | inr apart ↦ rw (ne→== _ _ apart) h.size
        ],
    read_bytes-write-Apart e.memory e.shm_malloc.allocated value h.offset e.shm_malloc.slab_size
        (inl h.below),
  )

  still-HasValue :
      (e : Engine T) (db : TestDb) (key : ℕ) (value : List ℕ) (other : ℕ)
      → Represents e db
      → length value ≡ e.shm_malloc.slab_size
      → (h : HasValue e db other)
      → table.find (after_put e key value).hash_table other ≡ some h.word
      → write_new db key value other ≡ db other
      → HasValue (after_put e key value) (write_new db key value) other
  still-HasValue e db key value other v fits h found same =
      let (size, bytes) = kept_value e db key value other v fits h in
      record {
        word = h.word;
        offset = h.offset;
        found = found;
        decoded = h.decoded;
        below = omega (arith, h.below);
        size = size;
        value = same ∙ h.value ∙ ap (λ bs. some (0, bs)) (sym bytes);
      }

  own-HasValue :
      (laws : IsTable table) (e : Engine T) (db : TestDb) (key : ℕ) (value : List ℕ)
      → Represents e db
      → length value ≡ e.shm_malloc.slab_size
      → e.shm_malloc.allocated + e.shm_malloc.slab_size < e.shm_malloc.memory_size
      → HasValue (after_put e key value) (write_new db key value) key
  unfolding get_malloc_size
  own-HasValue laws e db key value v fits room = elim (v.keys key) [
    | inl (absent, no_value) ↦ record {
      word = set_shm_malloc_offset config 0 (some e.shm_malloc.allocated);
      offset = e.shm_malloc.allocated;
      found = laws.new_key e.hash_table key _ absent;
      decoded = decoded-cursor e db v room;
      below = omega arith;
      size = rw (eq→== (e.shm_malloc.allocated / e.shm_malloc.slab_size) _ refl) refl;
      value =
          write_new-key db key value no_value
          ∙ ap (λ bs. some (0, bs))
              (sym (read_bytes-write_self e.memory e.shm_malloc.allocated value)
                ∙ ap
                    (read_bytes (write_bytes e.memory e.shm_malloc.allocated value)
                      e.shm_malloc.allocated)
                    fits);
    }
    | inr h ↦
        still-HasValue e db key value key v fits h (laws.old_key e.hash_table key _ h.word h.found)
          (ap (λ (d : TestDb). d key) (write_new-old db key value h.value))
  ]

  other-HasValue :
      (laws : IsTable table) (e : Engine T) (db : TestDb) (key : ℕ) (value : List ℕ)
      → Represents e db
      → length value ≡ e.shm_malloc.slab_size
      → (other : ℕ) → key ≢ other
      → ((table.find (after_put e key value).hash_table other ≡ none)
          × (write_new db key value other ≡ none))
        ⊎ HasValue (after_put e key value) (write_new db key value) other
  other-HasValue laws e db key value v fits other apart =
      let find =
        laws.other_key e.hash_table key
          (set_shm_malloc_offset config 0 (some e.shm_malloc.allocated)) other
          (λ h. apart (sym h)) in
      let same = write_new-other db key value other apart in
      elim (v.keys other) [
        | inl (absent, no_value) ↦ inl (find ∙ absent, same ∙ no_value)
        | inr h ↦ inr (still-HasValue e db key value other v fits h (find ∙ h.found) same)
      ]

  -- `Put` of a value of the slab's size, with a slab left before the cursor wraps: it returns, and the
  -- engine then represents the reference store after `Write`, if the key is new, and the store as it was if
  -- the key is not: the value of a key that is there already is not replaced.
  pub put-Represents :
      (laws : IsTable table) (e : Engine T) (db : TestDb) (key : ℕ) (value : List ℕ)
      → Represents e db
      → length value ≡ e.shm_malloc.slab_size
      → e.shm_malloc.allocated + e.shm_malloc.slab_size < e.shm_malloc.memory_size
      → Returns (put table config e key value) (λ e'. Represents e' (write_new db key value))
  unfolding write write_expiring
  put-Represents laws e db key value v fits room = (
    after_put e key value,
    put-done e key value v.cursor fits room,
    record {
      cursor = record {
        slab = v.cursor.slab;
        room = v.cursor.room;
        bound = v.cursor.bound;
        inside = omega (arith, room);
      };
      width = v.width;
      layout = v.layout;
      covers = v.covers;
      aligned = v.aligned;
      cursor_aligned = omega (arith, v.aligned, v.cursor_aligned);
      keys = λ other. elim (eq_cases key other) [
        | inl same ↦
            subst
              (λ k.
                ((table.find (after_put e key value).hash_table k ≡ none)
                  × (write_new db key value k ≡ none))
                ⊎ HasValue (after_put e key value) (write_new db key value) k)
              same (inr (own-HasValue laws e db key value v fits room))
        | inr apart ↦ other-HasValue laws e db key value v fits other apart
      ];
    },
  )
