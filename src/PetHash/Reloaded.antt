-- ===== src/PetHash/Reloaded.antt =====
-- The table after `Reload`.
use pet_ps.Common.{
  ℕ, ◌*◌, ◌^◌, ◌<◌, Bool, true, false, ◌==◌, if◌then◌else◌, sum_below, sum_below-congr, ◌≡◌, ◌≢◌,
  refl, sym, ap, ◌∙◌, arith, Bool-cases, inl, inr, ==→ne, ne→==, lt→ltb, subst,
}
use pet_ps.Common.Outcome.{done, Returns}
use pet_ps.PetHash.Chunk.{Item, Chunk, max_size, empty_key}
use pet_ps.PetHash.Find.{used}
use pet_ps.PetHash.Table.{PetHash, tag_of, step_of, home_chunk, over_fall_chunk_num}
use pet_ps.PetHash.Search.{get}
use pet_ps.PetHash.Probe.{step_of_odd, home_chunk-lt, tag_of-ne-zero, pos_at_onto}
use pet_ps.PetHash.Walk.{KeyArrives, walk-pos_at}
use pet_ps.PetHash.Invariant.{Stored, Absent, Inv}
use pet_ps.PetHash.Lookup.{get-Stored, get-Absent}
use pet_ps.PetHash.Setup.{over_fall_chunk_num_lem}
use pet_ps.PetHash.Reload.{repair_chunk, count_entries, repaired, reload}
use pet_ps.PetHash.Repair.{is_entry, IsConsistent, repair_chunk-fields}
use pet_ps.PetHash.Recount.{mark_chunks-Inv}
use pet_ps.PetHash.Marked.{maxed, full_counter}

-- Every chunk of the table is met by the walk for every key.
arrives_all : (crc : ℕ → ℕ) (n k key p : ℕ) → n ≡ 2 ^ k → p < n → KeyArrives crc n key p
arrives_all crc n k key p e l =
    subst (λ x. p < x → KeyArrives crc x key p) (sym e)
      (λ h.
        let home = home_chunk (2 ^ k) key in
        let (m, less, at_p) =
          pos_at_onto k (step_of crc key) home p (step_of_odd crc key) (home_chunk-lt k key) h in
        subst (λ x. KeyArrives crc (2 ^ k) key x) at_p (walk-pos_at crc k key m less).0)
      l

-- What a file may hold: slots without an entry have no tag, no chunk is being migrated, and no key
-- has two entries.
pub record IsSaved (n : ℕ) (table : ℕ → Chunk) : Type 0 where
  pub consistent : (p : ℕ) → p < n → IsConsistent (table p)
  pub settled : (p : ℕ) → p < n → (table p).is_migrating ≡ false
  pub single :
      (p id p' id' : ℕ)
      → p < n
      → p' < n
      → ((table p).value id).first ≢ empty_key
      → ((table p).value id).first ≡ ((table p').value id').first
      → (p ≡ p') × (id ≡ id')

module _ (crc : ℕ → ℕ) (scale : ℕ → ℕ) (t : PetHash) (capacity : ℕ) (ignore : Bool) where
  abbrev asked : ℕ
  asked = if ignore then capacity else scale capacity

  abbrev n : ℕ
  n = over_fall_chunk_num asked

  abbrev r : PetHash
  r = repaired crc scale t capacity ignore

  module _ (saved : IsSaved n t.chunk_table) (small : asked < 2 ^ 64)
      (room : n * max_size < 2 ^ 64) where
    repaired_chunk : (p : ℕ) → p < n → r.chunk_table p ≡ repair_chunk crc (t.chunk_table p)
    unfolding repaired
    repaired_chunk p l = rw (lt→ltb p n l) refl

    repaired_fields :
        (p : ℕ)
        → p < n
        → let c = t.chunk_table p in
          let d = r.chunk_table p in
          (d.value ≡ c.value)
          × (d.overflow_count ≡ 0)
          × (d.is_migrating ≡ false)
          × (d.size ≡ sum_below max_size (is_entry c))
          × ((id : ℕ)
              → id < max_size
              → d.tags id
                ≡ (if (c.value id).first == empty_key then 0 else tag_of crc (c.value id).first))
    repaired_fields p l =
        let c = t.chunk_table p in
        let (value, over, migrating, size, tags) =
          repair_chunk-fields crc c (saved.consistent p l) in
        rw (repaired_chunk p l) (value, over, migrating ∙ saved.settled p l, size, tags)

    -- A slot with a tag has an entry, under its key's tag.
    entry_of :
        (key p id : ℕ)
        → p < n
        → id < max_size
        → (r.chunk_table p).tags id ≢ 0
        → ((r.chunk_table p).value id).first ≡ key
        → (((t.chunk_table p).value id).first ≡ key)
          × (key ≢ empty_key)
          × ((r.chunk_table p).tags id ≡ tag_of crc key)
    entry_of key p id l k busy named =
        let (value, _, _, _, tags) = repaired_fields p l in
        let name : ((t.chunk_table p).value id).first ≡ key =
          sym (ap (λ (g : ℕ → Item). (g id).first) value) ∙ named in
        elim (Bool-cases (((t.chunk_table p).value id).first == empty_key)) [
          | inl e ↦
              let none_there : (r.chunk_table p).tags id ≡ 0 = rw e at (tags id k) in
              absurd (busy none_there)
          | inr e ↦
              let tag : (r.chunk_table p).tags id ≡ tag_of crc ((t.chunk_table p).value id).first =
                rw e at (tags id k) in
              (name, λ h. ==→ne _ empty_key e (name ∙ h), tag ∙ ap (tag_of crc) name)
        ]

    used-entry :
        (p id : ℕ)
        → p < n
        → id < max_size
        → used (full_counter (r.chunk_table p)) id ≡ is_entry (t.chunk_table p) id
    unfolding used
    used-entry p id l k =
        let (_, _, _, _, tags) = repaired_fields p l in
        let c = t.chunk_table p in
        elim (Bool-cases ((c.value id).first == empty_key)) [
          | inl e ↦ let z : (r.chunk_table p).tags id ≡ 0 = rw e at (tags id k) in rw (e, z) refl
          | inr e ↦
              let z : (r.chunk_table p).tags id ≡ tag_of crc (c.value id).first =
                rw e at (tags id k) in
              rw (e, z, ne→== _ 0 (tag_of-ne-zero crc (c.value id).first)) refl
        ]

    repaired-Inv : Inv crc (maxed r) (λ _. 0)
    unfolding repaired count_entries
    repaired-Inv =
        let (j, power, _) = over_fall_chunk_num_lem asked small in
        record {
          width = j;
          power = power;
          room = room;
          slots = refl;
          counted = λ p l. record {
            counted =
                (repaired_fields p l).3
                ∙ sum_below-congr max_size _ _ (λ id k. sym (used-entry p id l k));
          };
          bytes = λ p l. omega arith;
          settled = λ p l. (repaired_fields p l).2;
          tagged = λ key p id s. (entry_of key p id s.chunk s.slot s.busy s.named).2;
          placed = λ key p id s. arrives_all crc n j key p power s.chunk;
          unique = λ key p id p' id' s s'.
              let (name, ne, _) = entry_of key p id s.chunk s.slot s.busy s.named in
              let (name', _, _) = entry_of key p' id' s'.chunk s'.slot s'.busy s'.named in
              saved.single p id p' id' s.chunk s'.chunk (λ e. ne (sym name ∙ e)) (name ∙ sym name');
          covered = λ c l. inl refl;
          total = sum_below-congr n _ _ (λ p l. sym (repaired_fields p l).3);
        }

    -- The table after both passes has the slots of the first.
    reload_run :
        Returns
          (reload crc scale t capacity ignore)
          (λ t'. Inv crc t' (λ _. 0) × (maxed t' ≡ maxed r))
    unfolding reload
    reload_run =
        mark_chunks-Inv crc r repaired-Inv (λ c l. (repaired_fields c (unfold repaired in l)).1)

    -- `Reload` of a table whose slots without an entry have no tag, in which no chunk is being
    -- migrated and no key has two entries, and whose slots can be counted in 64 bits, returns a
    -- well-formed table in which the key of every entry reads its value, whatever the tags, the
    -- sizes and the overflow counters were.
    pub reload-get :
        (p id : ℕ)
        → p < n
        → id < max_size
        → ((t.chunk_table p).value id).first ≢ empty_key
        → Returns (reload crc scale t capacity ignore) (λ t'.
          Inv crc t' (λ _. 0)
          × (get crc t' ((t.chunk_table p).value id).first
              ≡ done (((t.chunk_table p).value id).second, true)))
    reload-get p id l k ne =
        let (t', run, (v, same)) = reload_run in
        let (value, _, _, _, tags) = repaired_fields p l in
        let key = ((t.chunk_table p).value id).first in
        let items : (t'.chunk_table p).value ≡ (t.chunk_table p).value =
          ap (λ (x : PetHash). (x.chunk_table p).value) same ∙ value in
        let tag : (t'.chunk_table p).tags id ≡ tag_of crc key =
          ap (λ (x : PetHash). (x.chunk_table p).tags id) same
          ∙ (rw (ne→== key empty_key ne) at (tags id k)) in
        let s : Stored t' key p id = record {
          chunk = rw (ap (λ (x : PetHash). x.chunk_num) same) (unfold repaired in l);
          slot = k;
          busy = λ e. tag_of-ne-zero crc key (sym tag ∙ e);
          named = ap (λ (g : ℕ → Item). (g id).first) items;
        } in
        (
          t',
          run,
          (
            v,
            get-Stored crc v key p id s ∙ ap (λ (g : ℕ → Item). done ((g id).second, true)) items,
          ),
        )

    -- After such a `Reload` a key without an entry reads as missing.
    pub reload-missing :
        (q : ℕ)
        → ((p id : ℕ) → p < n → id < max_size → ((t.chunk_table p).value id).first ≢ q)
        → Returns (reload crc scale t capacity ignore) (λ t'. get crc t' q ≡ done (0, false))
    reload-missing q none_there =
        let (t', run, (v, same)) = reload_run in
        let absent : Absent t' q = λ p id s.
          let l : p < n =
            unfold repaired in (rw (ap (λ (x : PetHash). x.chunk_num) same) at s.chunk) in
          let value = (repaired_fields p l).0 in
          none_there p id l s.slot (
            sym (ap (λ (g : ℕ → Item). (g id).first) value)
            ∙ sym (ap (λ (x : PetHash). ((x.chunk_table p).value id).first) same)
            ∙ s.named) in
        (t', run, get-Absent crc v q absent)
