-- ===== src/PetHash/Lookup.antt =====
-- In a well-formed table a search finds exactly the entries that are stored.
use pet_ps.Common.{
  ℕ, zero, suc, ◌<◌, true, false, ◌==◌, ◌≡◌, ◌≢◌, refl, sym, ◌∙◌, arith, Bool-cases, Option-cases,
  inl, inr, ◌⊎◌, count, none, some, ne→==, eq→==, subst,
}
use pet_ps.Common.Outcome.{done}
use pet_ps.PetHash.Chunk.{find}
use pet_ps.PetHash.Find.{find-some, find-none}
use pet_ps.PetHash.Table.{PetHash, tag_of, step_of, home_chunk, next_pos}
use pet_ps.PetHash.Search.{at, missing, search_from, get_internal, get}
use pet_ps.PetHash.Probe.{tag_of-ne-zero, home_chunk-lt, next_pos-lt}
use pet_ps.PetHash.Walk.{walk, Arrives, key_walk}
use pet_ps.PetHash.Invariant.{Stored, Absent, Inv, load-le-demand}

module _ (crc : ℕ → ℕ) {t : PetHash} {pending : ℕ → ℕ} (v : Inv crc t pending) where
  pub next_pos_bound : (step pos : ℕ) → next_pos t.chunk_num step pos < t.chunk_num
  next_pos_bound step pos = rw v.power (next_pos-lt v.width step pos)

  pub home_chunk_bound : (key : ℕ) → home_chunk t.chunk_num key < t.chunk_num
  home_chunk_bound key = rw v.power (home_chunk-lt v.width key)

  -- What the search of a chunk finds is stored.
  pub find-Stored :
      (key p : ℕ) {id : ℕ}
      → p < t.chunk_num
      → find (t.chunk_table p) key (tag_of crc key) ≡ some id
      → Stored t key p id
  find-Stored key p {id} l h =
      let (slot, tag, name) = find-some (t.chunk_table p) key (tag_of crc key) h in
      record {
        chunk = l;
        slot = slot;
        busy = λ e. tag_of-ne-zero crc key (sym tag ∙ e);
        named = name;
      }

  pub find-not-Stored :
      (key p : ℕ)
      → find (t.chunk_table p) key (tag_of crc key) ≡ none
      → (id : ℕ) → ¬ Stored t key p id
  find-not-Stored key p h id s =
      find-none (t.chunk_table p) key (tag_of crc key) h id s.slot (v.tagged key p id s) s.named

  module _ (key p id : ℕ) (s : Stored t key p id) where
    -- A chunk that the walk to an entry passes does not stop the search.
    passed :
        (c : ℕ)
        → c < t.chunk_num
        → 0 < count c (key_walk crc t.chunk_num key p)
        → (t.chunk_table c).overflow_count ≢ 0
    passed c l some_pass e = elim (v.covered c l) [
      | inl full ↦ absurd (omega arith)
      | inr enough ↦ absurd (omega (arith, load-le-demand crc t key p id c s))
    ]

    search_from-Stored :
        (left pos : ℕ)
        → pos < t.chunk_num
        → Arrives t.chunk_num (step_of crc key) p left pos
        → ((c : ℕ)
            → 0 < count c (walk t.chunk_num (step_of crc key) p left pos)
            → 0 < count c (key_walk crc t.chunk_num key p))
        → search_from crc t key left pos false ≡ at p id
    unfolding search_from walk count
    search_from-Stored zero pos l arrives inside = absurd arrives
    search_from-Stored (suc left) pos l arrives inside =
        elim (Option-cases (find (t.chunk_table pos) key (tag_of crc key))) [
          | inr (i, e) ↦
              let (same, slot) = v.unique key pos i p id (find-Stored key pos l e) s in
              rw (e, search_from, same, slot)
          | inl e ↦
              let apart : pos ≢ p =
                λ h. find-not-Stored key pos e id (subst (λ x. Stored t key x id) (sym h) s) in
              let step = step_of crc key in
              let here : count pos (walk t.chunk_num step p (suc left) pos) ≢ 0 =
                rw (ne→== pos p apart, eq→== pos pos refl) (omega arith) in
              let busy = passed pos l (inside pos (omega arith)) in
              rw (e, search_from, v.settled pos l, ne→== _ 0 busy)
                (search_from-Stored left (next_pos t.chunk_num step pos) (next_pos_bound step pos)
                  (arrives apart) (λ c h. inside c (rw (ne→== pos p apart) (omega (arith, h)))))
        ]

    -- A search for a stored key finds its slot.
    pub get_internal-Stored : get_internal crc t key ≡ at p id
    unfolding get_internal
    get_internal-Stored =
        search_from-Stored t.chunk_num (home_chunk t.chunk_num key) (home_chunk_bound key)
          (v.placed key p id s) (λ c h. h)

  search_from-Absent :
      (key : ℕ)
      → Absent t key
      → (left pos : ℕ) → pos < t.chunk_num
      → search_from crc t key left pos false ≡ missing
  unfolding search_from
  search_from-Absent key none_stored zero pos l = refl
  search_from-Absent key none_stored (suc left) pos l =
      elim (Option-cases (find (t.chunk_table pos) key (tag_of crc key))) [
        | inr (i, e) ↦ absurd (none_stored pos i (find-Stored key pos l e))
        | inl e ↦
            let step = step_of crc key in
            let rest =
              search_from-Absent key none_stored left (next_pos t.chunk_num step pos)
                (next_pos_bound step pos) in
            elim (Bool-cases ((t.chunk_table pos).overflow_count == 0)) [
              | inl stop ↦ rw (e, search_from, v.settled pos l, stop)
              | inr more ↦ rw (e, search_from, v.settled pos l, more) rest
            ]
      ]

  -- A search for a key that is not stored ends without one.
  pub get_internal-Absent : (key : ℕ) → Absent t key → get_internal crc t key ≡ missing
  unfolding get_internal
  get_internal-Absent key none_stored =
      search_from-Absent key none_stored t.chunk_num (home_chunk t.chunk_num key)
        (home_chunk_bound key)

  found_from :
      (key left pos : ℕ)
      → pos < t.chunk_num
      → ((p : ℕ) × (id : ℕ) × Stored t key p id) ⊎ (search_from crc t key left pos false ≡ missing)
  unfolding search_from
  found_from key zero pos l = inr refl
  found_from key (suc left) pos l =
      elim (Option-cases (find (t.chunk_table pos) key (tag_of crc key))) [
        | inr (i, e) ↦ inl (pos, i, find-Stored key pos l e)
        | inl e ↦ elim (Bool-cases ((t.chunk_table pos).overflow_count == 0)) [
          | inl stop ↦ inr (rw (e, search_from, v.settled pos l, stop))
          | inr more ↦
              elim (found_from key left (next_pos t.chunk_num (step_of crc key) pos)
                (next_pos_bound (step_of crc key) pos)) [
                  | inl s ↦ inl s
                  | inr h ↦ inr (rw (e, search_from, v.settled pos l, more) h)
                ]
        ]
      ]

  -- In a well-formed table, a key is stored and its search ends at its slot, or it is not and its search ends with none.
  pub get_internal-cases :
      (key : ℕ)
      → ((p : ℕ) × (id : ℕ) × Stored t key p id × (get_internal crc t key ≡ at p id))
        ⊎ (Absent t key × (get_internal crc t key ≡ missing))
  unfolding get_internal
  get_internal-cases key =
      elim (found_from key t.chunk_num (home_chunk t.chunk_num key) (home_chunk_bound key)) [
        | inl (p, id, s) ↦ inl (p, id, s, get_internal-Stored key p id s)
        | inr e ↦ inr ((λ p id s. cc (get_internal-Stored key p id s)), e)
      ]

  -- A stored key is read with its value.
  pub get-Stored :
      (key p id : ℕ)
      → Stored t key p id
      → get crc t key ≡ done (((t.chunk_table p).value id).second, true)
  unfolding get
  get-Stored key p id s = rw (get_internal-Stored key p id s, get)

  pub get-Absent : (key : ℕ) → Absent t key → get crc t key ≡ done (0, false)
  unfolding get
  get-Absent key none_stored = rw (get_internal-Absent key none_stored, get)

  pub get-cases : (key : ℕ) → ((p : ℕ) × (id : ℕ) × Stored t key p id) ⊎ (Absent t key)
  get-cases key = elim (get_internal-cases key) [
    | inl (p, id, s, e) ↦ inl (p, id, s)
    | inr (a, e) ↦ inr a
  ]
