-- ===== src/PetKv/Finish.antt =====
-- From the parts of `Update` to the store as a whole.
use pet_ps.Common.{
  ℕ, ◌<◌, Bool, true, some, List, length, count, ◌==◌, if◌then◌else◌, ◌≡◌, ◌≢◌, refl, sym, ap, ◌∙◌,
  arith, Bool-cases, inl, inr, ◌⊎◌, ==→eq, ==→ne, eq_cases, subst,
}
use pet_ps.Common.Bytes.{Memory, read_bytes, write_bytes, read_bytes-write_self}
use pet_ps.Common.Outcome.{done}
use pet_ps.KvData.{Config, shm_malloc_offset}
use pet_ps.PetHash.Search
use pet_ps.PetHash.Invariant.{Inv}
use pet_ps.MemoryPool.{MemoryPool}
use pet_ps.MemoryPool.Slabs.{Slab}
use pet_ps.MemoryPool.Placement.{meta_of, Placed}
use pet_ps.PetKv.{PetKv, perfect_fit_mod}
use pet_ps.PetKv.Queue.{pointers, IsQueue, Left}
use pet_ps.PetKv.Store.{sized, IsValue, IsStore, value_of, value_of-some, value_of-none, dict-cases}
use pet_ps.PetKv.Written.{
  written, Slab-Apart, bytes_kept, size_kept, size_written, sized-kept, sized-written,
}

module _ (crc : ℕ → ℕ) (config : Config) (pre : ℕ) (kv : PetKv crc config pre) (key : ℕ)
    (log : List ℕ) (s : ℕ) (r : MemoryPool × Memory × ℕ) where
  abbrev perfect : Bool
  perfect = perfect_fit_mod pre

  -- The pointer is not that of the value that is replaced.
  abbrev pub IsKept : ℕ → Type 0
  IsKept x =
      (word : ℕ)
      → Search.get crc kv.dict key ≡ done (word, true)
      → shm_malloc_offset config word ≢ some x

  -- A store with the new value, in which the other slabs stay.
  pub record Next (kv' : PetKv crc config pre) : Type 0 where
    pub memory : kv'.memory ≡ write_bytes r.1 r.2 log
    pub left : Left perfect r.0 kv'.recycler.malloc
    pub word : ℕ
    pub named : shm_malloc_offset config word ≡ some r.2
    pub index : Inv crc kv'.dict (λ _. 0)
    pub reads :
        (j : ℕ)
        → Search.get crc kv'.dict j
          ≡ (if j == key then done (word, true) else Search.get crc kv.dict j)
    pub queue : IsQueue perfect kv'.recycler.malloc kv'.recycler.recycle_ptr
    pub stay :
        (x n : ℕ)
        → Slab (meta_of perfect) r.0 x n
        → count x (pointers kv.recycler.recycle_ptr) ≡ 0
        → IsKept x
        → Slab (meta_of perfect) kv'.recycler.malloc x n
          × (count x (pointers kv'.recycler.recycle_ptr) ≡ 0)

  module _ (v : IsStore crc config pre kv)
      (a : Placed perfect kv.recycler.malloc kv.memory (length log) s r) (positive : 0 < s)
      (whole : perfect ≡ true → pre ≡ length log) (kv' : PetKv crc config pre)
      (next : Next kv') where
    abbrev after : Memory
    after = written perfect pre kv.recycler.malloc kv.memory log s r v.queue.sound a positive

    -- Another key's value is where and as it was.
    record Other (word : ℕ) (t : IsValue crc config pre kv.recycler.malloc kv.memory word)
        : Type 0 where
      slab : Slab (meta_of perfect) kv'.recycler.malloc t.ptr (sized perfect pre kv.memory t.ptr)
      unqueued : count t.ptr (pointers kv'.recycler.recycle_ptr) ≡ 0
      size : sized perfect pre kv'.memory t.ptr ≡ sized perfect pre kv.memory t.ptr
      bytes :
          read_bytes kv'.memory t.ptr (sized perfect pre kv.memory t.ptr)
          ≡ read_bytes kv.memory t.ptr (sized perfect pre kv.memory t.ptr)
      apart : t.ptr ≢ r.2

    others :
        (j word : ℕ)
        → j ≢ key
        → (g : Search.get crc kv.dict j ≡ done (word, true)) → Other word (v.values j word g)
    others j word ne g =
        let t = v.values j word g in
        let n = sized perfect pre kv.memory t.ptr in
        let p = kv.recycler.malloc in
        let (t', far, low, apart) =
          Slab-Apart perfect pre p kv.memory log s r v.queue.sound a positive t.ptr n t.slab in
        let kept : IsKept t.ptr =
          λ w g' o. absurd (ne (v.alone j word key w t.ptr g g' t.named o)) in
        let (slab, unqueued) = next.stay t.ptr n t' (v.unqueued j word t.ptr g t.named) kept in
        record {
          slab = slab;
          unqueued = unqueued;
          size =
              ap (λ (m : Memory). sized perfect pre m t.ptr) next.memory
              ∙ sized-kept perfect pre kv.memory after t.ptr (
                  size_kept perfect pre p kv.memory log s r v.queue.sound a positive t.ptr n low
                    far);
          bytes =
              ap (λ (m : Memory). read_bytes m t.ptr n) next.memory
              ∙ bytes_kept perfect pre p kv.memory log s r v.queue.sound a positive t.ptr n low far;
          apart = apart;
        }

    fresh : count r.2 (pointers kv.recycler.recycle_ptr) ≡ 0
    fresh = elim (eq_cases (count r.2 (pointers kv.recycler.recycle_ptr)) 0) [
      | inl e ↦ e
      | inr ne ↦
          let t = v.queue.held r.2 (omega (arith, ne)) in
          let (t', far, low, apart) =
            Slab-Apart perfect pre kv.recycler.malloc kv.memory log s r v.queue.sound a positive r.2
              0 t in
          absurd (apart refl)
    ]

    kept : IsKept r.2
    kept word g o =
        let t = v.values key word g in
        let (t', far, low, apart) =
          Slab-Apart perfect pre kv.recycler.malloc kv.memory log s r v.queue.sound a positive t.ptr
            (sized perfect pre kv.memory t.ptr) t.slab in
        absurd (apart (cc (t.named, o)))

    new_size : sized perfect pre kv'.memory r.2 ≡ length log
    new_size =
        ap (λ (m : Memory). sized perfect pre m r.2) next.memory
        ∙ sized-written perfect pre after r.2 (length log) whole
            (size_written perfect pre kv.recycler.malloc kv.memory log s r v.queue.sound a positive)

    stored_now :
        Slab (meta_of perfect) kv'.recycler.malloc r.2 (length log)
        × (count r.2 (pointers kv'.recycler.recycle_ptr) ≡ 0)
    stored_now = next.stay r.2 (length log) a.slab fresh kept

    -- What the index has for a key.
    word-cases :
        (j word : ℕ)
        → Search.get crc kv'.dict j ≡ done (word, true)
        → ((j ≡ key) × (word ≡ next.word))
          ⊎ ((j ≢ key) × (Search.get crc kv.dict j ≡ done (word, true)))
    word-cases j word g = elim (Bool-cases (j == key)) [
      | inl e ↦
          let now : Search.get crc kv'.dict j ≡ done (next.word, true) = next.reads j ∙ rw e refl in
          inl (==→eq j key e, cc (now, g))
      | inr e ↦
          let now : Search.get crc kv'.dict j ≡ Search.get crc kv.dict j =
            next.reads j ∙ rw e refl in
          inr (==→ne j key e, sym now ∙ g)
    ]

    -- The pointer of another key is not the new one.
    not_new :
        (j word : ℕ)
        → j ≢ key
        → Search.get crc kv.dict j ≡ done (word, true)
        → shm_malloc_offset config word ≢ some r.2
    not_new j word ne g o =
        let t = v.values j word g in absurd ((others j word ne g).apart (cc (t.named, o)))

    new-IsValue :
        (word : ℕ) → word ≡ next.word → IsValue crc config pre kv'.recycler.malloc kv'.memory word
    new-IsValue word e = record {
      ptr = r.2;
      named = rw e next.named;
      slab =
          subst (λ (n : ℕ). Slab (meta_of perfect) kv'.recycler.malloc r.2 n) (sym new_size)
            stored_now.0;
    }

    old-IsValue :
        (j word : ℕ)
        → j ≢ key
        → Search.get crc kv.dict j ≡ done (word, true)
        → IsValue crc config pre kv'.recycler.malloc kv'.memory word
    old-IsValue j word ne g =
        let t = v.values j word g in
        let o = others j word ne g in
        record {
          ptr = t.ptr;
          named = t.named;
          slab =
              subst (λ (n : ℕ). Slab (meta_of perfect) kv'.recycler.malloc t.ptr n) (sym o.size)
                o.slab;
        }

    pub Next-IsStore : IsStore crc config pre kv'
    Next-IsStore =
        let num : kv'.recycler.malloc.nr_chunks ≡ kv.recycler.malloc.nr_chunks =
          next.left.num ∙ a.keeps.num in
        record {
          width = v.width;
          layout = v.layout;
          covers = rw num v.covers;
          small = rw num v.small;
          served = λ x l.
              let old = v.served x l in
              record {
                positive = old.positive;
                aligned = old.aligned;
                cut = old.cut;
                known = next.left.known x (a.keeps.known x old.known);
              };
          index = next.index;
          queue = next.queue;
          values = λ j word g. elim (word-cases j word g) [
            | inl (e, w) ↦ new-IsValue word w
            | inr (ne, h) ↦ old-IsValue j word ne h
          ];
          alone = λ j word j' word' ptr g g' o o'. elim (word-cases j word g) [
            | inl (e, w) ↦
                let here : some ptr ≡ some r.2 = sym o ∙ rw w next.named in
                elim (word-cases j' word' g') [
                  | inl (e', w') ↦ e ∙ sym e'
                  | inr (ne', h') ↦ absurd (not_new j' word' ne' h' (o' ∙ here))
                ]
            | inr (ne, h) ↦ elim (word-cases j' word' g') [
              | inl (e', w') ↦
                  let here : some ptr ≡ some r.2 = sym o' ∙ rw w' next.named in
                  absurd (not_new j word ne h (o ∙ here))
              | inr (ne', h') ↦ v.alone j word j' word' ptr h h' o o'
            ]
          ];
          unqueued = λ j word ptr g o. elim (word-cases j word g) [
            | inl (e, w) ↦
                let here : some r.2 ≡ some ptr = sym next.named ∙ rw (← w) o in
                subst (λ (x : ℕ). count x (pointers kv'.recycler.recycle_ptr) ≡ 0) (cc here)
                  stored_now.1
            | inr (ne, h) ↦
                let t = v.values j word h in
                let same : t.ptr ≡ ptr = cc (t.named, o) in
                subst (λ (x : ℕ). count x (pointers kv'.recycler.recycle_ptr) ≡ 0) same
                  (others j word ne h).unqueued
          ];
        }

    pub Next-reads :
        (j : ℕ)
        → value_of crc config pre kv' j
          ≡ (if j == key then done (some log) else value_of crc config pre kv j)
    Next-reads j = elim (Bool-cases (j == key)) [
      | inl e ↦
          let now : Search.get crc kv'.dict j ≡ done (next.word, true) = next.reads j ∙ rw e refl in
          rw e (
            value_of-some crc config pre kv' j next.word r.2 now next.named
            ∙ ap (λ (n : ℕ). done (some (read_bytes kv'.memory r.2 n))) new_size
            ∙ ap (λ (m : Memory). done (some (read_bytes m r.2 (length log)))) next.memory
            ∙ ap (λ l. done (some l)) (read_bytes-write_self r.1 r.2 log))
      | inr e ↦
          let now : Search.get crc kv'.dict j ≡ Search.get crc kv.dict j =
            next.reads j ∙ rw e refl in
          rw e (elim (dict-cases crc config pre kv j v) [
            | inr g ↦
                value_of-none crc config pre kv' j (now ∙ g)
                ∙ sym (value_of-none crc config pre kv j g)
            | inl (word, g) ↦
                let t = v.values j word g in
                let o = others j word (==→ne j key e) g in
                value_of-some crc config pre kv' j word t.ptr (now ∙ g) t.named
                ∙ ap (λ (n : ℕ). done (some (read_bytes kv'.memory t.ptr n))) o.size
                ∙ ap (λ l. done (some l)) o.bytes
                ∙ sym (value_of-some crc config pre kv j word t.ptr g t.named)
          ])
    ]
