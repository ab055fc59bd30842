-- ===== src/PetHash/Insertion.antt =====
-- `Insert` into a well-formed table.
use pet_ps.Common.{
  ℕ, suc, ◌+◌, ◌^◌, ◌<◌, ◌≤◌, true, ◌==◌, if◌then◌else◌, ◌≡◌, ap, sym, ◌∙◌, arith, Option-cases,
  inl, inr, count, subst, sum_below, sum_below-le, sum_below-const, some, none,
}
use pet_ps.Common.Outcome.{done}
use pet_ps.PetHash.Chunk
use pet_ps.PetHash.Chunk.{Item, Chunk, max_size}
use pet_ps.PetHash.Slots.{insert-room, filled}
use pet_ps.PetHash.Table.{PetHash, tag_of, step_of, home_chunk, next_pos, full}
use pet_ps.PetHash.Search.{get}
use pet_ps.PetHash.Probe.{step_of_odd, home_chunk-lt, pos_at, pos_at-lt, pos_at_onto}
use pet_ps.PetHash.Walk.{key_walk, KeyArrives, seen, walk-pos_at}
use pet_ps.PetHash.Invariant.{Stored, Absent, Inv}
use pet_ps.PetHash.Lookup.{find-Stored}
use pet_ps.PetHash.Bump.{moved, moved-Inv, Stored_moved}
use pet_ps.PetHash.Fill.{put-Inv, put-get}
use pet_ps.PetHash.Filled.{put, put_Stored}

-- A table whose chunks are all full is full.
pub full_of_chunks :
    (crc : ℕ → ℕ) (t : PetHash) {pending : ℕ → ℕ}
    → Inv crc t pending
    → ((p : ℕ) → p < t.chunk_num → max_size ≤ (t.chunk_table p).size)
    → full t ≡ true
unfolding full
full_of_chunks crc t v h = ground (
  arith,
  v.total,
  v.slots,
  sum_below-le t.chunk_num (λ _. max_size) (λ q. (t.chunk_table q).size) h,
  sum_below-const t.chunk_num max_size,
)

-- The chunk that an insertion of `key` reaches after `m` steps.
abbrev pub reached : (ℕ → ℕ) → ℕ → ℕ → ℕ → ℕ
reached crc n key m = pos_at n (step_of crc key) (home_chunk n key) m

abbrev pub passed_by : (ℕ → ℕ) → ℕ → ℕ → ℕ → ℕ → ℕ
passed_by crc n key m c = seen n (step_of crc key) (home_chunk n key) m c

reached-walk :
    (crc : ℕ → ℕ) (n k key m : ℕ)
    → n ≡ 2 ^ k
    → m < n
    → (reached crc n key m < n)
      × KeyArrives crc n key (reached crc n key m)
      × ((c : ℕ) → count c (key_walk crc n key (reached crc n key m)) ≡ passed_by crc n key m c)
reached-walk crc n k key m e l =
    subst
      (λ x.
        m < x
        → (reached crc x key m < x)
          × KeyArrives crc x key (reached crc x key m)
          × ((c : ℕ)
              → count c (key_walk crc x key (reached crc x key m)) ≡ passed_by crc x key m c))
      (sym e)
      (λ h.
        let (arrives, counts) = walk-pos_at crc k key m h in
        (
          pos_at-lt k (step_of crc key) (home_chunk (2 ^ k) key) m (home_chunk-lt k key),
          arrives,
          counts,
        ))
      l

pub reached_all :
    (crc : ℕ → ℕ) (n k key p : ℕ)
    → n ≡ 2 ^ k
    → p < n
    → (m : ℕ) × (m < n) × (reached crc n key m ≡ p)
reached_all crc n k key p e l =
    subst (λ x. p < x → (m : ℕ) × (m < x) × (reached crc x key m ≡ p)) (sym e)
      (λ h.
        pos_at_onto k (step_of crc key) (home_chunk (2 ^ k) key) p (step_of_odd crc key)
          (home_chunk-lt k key) h)
      l

passed_by-suc :
    (crc : ℕ → ℕ) (n key m c : ℕ)
    → passed_by crc n key (suc m) c
      ≡ passed_by crc n key m c + (if reached crc n key m == c then 1 else 0)
unfolding seen sum_below
passed_by-suc crc n key m c = omega arith

module _ (crc : ℕ → ℕ) (key value : ℕ) where
  -- An insertion that has walked `m` chunks, each of them past a full chunk.
  pub record Underway (t : PetHash) (m pos : ℕ) : Type 0 where
    pub pending : ℕ → ℕ
    pub sound : Inv crc t pending
    pub inside : m < t.chunk_num
    pub place : pos ≡ reached crc t.chunk_num key m
    pub passed : (c : ℕ) → pending c ≡ passed_by crc t.chunk_num key m c
    pub fresh : Absent t key

  -- `find` sees no entry of the key.
  pub find-Underway :
      (t : PetHash) (m pos : ℕ)
      → Underway t m pos
      → Chunk.find (t.chunk_table pos) key (tag_of crc key) ≡ none
  find-Underway t m pos u =
      elim (Option-cases (Chunk.find (t.chunk_table pos) key (tag_of crc key))) [
        | inl e ↦ e
        | inr (id, e) ↦
            let (l, _, _) =
              reached-walk crc t.chunk_num u.sound.width key m u.sound.power u.inside in
            absurd (u.fresh pos id (find-Stored crc u.sound key pos (rw u.place l) e))
      ]

  -- In a chunk that is not full the insertion ends.
  pub ends :
      (t : PetHash) (m pos : ℕ)
      → Underway t m pos
      → (t.chunk_table pos).size < max_size
      → (id : ℕ) × (Chunk.insert (t.chunk_table pos) key value (tag_of crc key)
          ≡ some (filled (t.chunk_table pos) id key value (tag_of crc key), id))
        × Inv crc (put crc t key value pos id) (λ _. 0)
        × Stored (put crc t key value pos id) key pos id
        × ((q : ℕ)
            → get crc (put crc t key value pos id) q
              ≡ (if q == key then done (value, true) else get crc t q))
  ends t m pos u room =
      let v = u.sound in
      let (l, arrives, counts) = reached-walk crc t.chunk_num v.width key m v.power u.inside in
      let l' : pos < t.chunk_num = rw u.place l in
      let arrives' : KeyArrives crc t.chunk_num key pos = rw u.place arrives in
      let passed : (c : ℕ) → u.pending c ≡ count c (key_walk crc t.chunk_num key pos) =
        λ c. u.passed c ∙ sym (rw u.place (counts c)) in
      let (id, run, slot, free) =
        insert-room (t.chunk_table pos) key value (tag_of crc key) (v.counted pos l') room in
      (
        id,
        run,
        put-Inv crc v key value pos id arrives' passed u.fresh l' slot free room,
        put_Stored crc t key value pos id l' slot,
        put-get crc v key value pos id arrives' passed u.fresh l' slot free room,
      )

  -- Past a full chunk it goes on.
  pub goes_on :
      (t : PetHash) (m pos : ℕ)
      → Underway t m pos
      → suc m < t.chunk_num
      → Underway (moved t pos) (suc m) (next_pos t.chunk_num (step_of crc key) pos)
  unfolding pos_at
  goes_on t m pos u l =
      let v' = moved-Inv crc u.sound pos in
      record {
        pending = _;
        sound = v';
        inside = l;
        place = ap (next_pos t.chunk_num (step_of crc key)) u.place;
        passed = λ c. rw u.place (omega (arith, passed_by-suc crc t.chunk_num key m c, u.passed c));
        fresh = λ p id s. u.fresh p id (Stored_moved t pos s);
      }
