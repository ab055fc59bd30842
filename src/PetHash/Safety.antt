-- ===== src/PetHash/Safety.antt =====
-- `Insert` and `Set` with any `check_func`, forced or not, into any well-formed table.
use pet_ps.Common.{
  ℕ, zero, suc, ◌+◌, ◌%◌, ◌≤◌, Bool, true, false, ◌==◌, if◌then◌else◌, ◌≡◌, refl, ◌∙◌, arith,
  Bool-cases, inl, inr, ◌⊎◌, ltb, ltb→lt, Option,
}
use pet_ps.Common.Outcome.{Outcome, done, fatal, Returns}
use pet_ps.PetHash.Chunk.{max_size}
use pet_ps.PetHash.Table.{PetHash, tag_of, home_chunk, full}
use pet_ps.PetHash.Search.{get}
use pet_ps.PetHash.Insert.{CheckFunc, insert_from, insert, set, assign}
use pet_ps.PetHash.Invariant.{Stored, Absent, Inv}
use pet_ps.PetHash.Lookup.{get_internal-cases}
use pet_ps.PetHash.Steps.{step_room, step_on, step_stop, step_victim}
use pet_ps.PetHash.Bump.{moved, moved-get}
use pet_ps.PetHash.Filled.{put}
use pet_ps.PetHash.Fading.{Fades, Fades-Absent, delete-Fades, expire-Fades}
use pet_ps.PetHash.Assign.{assign-Inv, assign-get, assign_Stored}
use pet_ps.PetHash.Insertion.{Underway, find-Underway, ends, goes_on}
use pet_ps.PetHash.Setting.{starts}

module _ (crc : ℕ → ℕ) (key value : ℕ) where
  -- The new table is well formed and has the entry at the slot, the key reads the value, and every
  -- other key reads as before or as missing.
  pub record Kept (t : PetHash) (result : PetHash × ℕ × ℕ) : Type 0 where
    pub sound : Inv crc result.0 (λ _. 0)
    pub num : result.0.chunk_num ≡ t.chunk_num
    pub entry : Stored result.0 key result.1 result.2
    pub reads :
        (q : ℕ)
        → (get crc result.0 q ≡ (if q == key then done (value, true) else get crc t q))
          ⊎ (((q == key) ≡ false) × (get crc result.0 q ≡ done (0, false)))

  abbrev pub Safe : PetHash → Outcome (PetHash × ℕ × ℕ) → Type 0
  Safe t r = (r ≡ fatal) ⊎ Returns r (Kept t)

  -- What comes before fades keys only.
  Safe-after :
      (t t₁ : PetHash) {r r' : Outcome (PetHash × ℕ × ℕ)}
      → Fades crc t t₁
      → r ≡ r'
      → Safe t₁ r'
      → Safe t r
  Safe-after t t₁ (num, f) e (inl stop) = inl (e ∙ stop)
  Safe-after t t₁ (num, f) e (inr (result, run, kept)) = inr (
    result,
    e ∙ run,
    record {
      sound = kept.sound;
      num = kept.num ∙ num;
      entry = kept.entry;
      reads = λ q. elim (kept.reads q) [
        | inr gone ↦ inr gone
        | inl same ↦ elim (Bool-cases (q == key)) [
          | inl e ↦ inl (same ∙ rw e refl)
          | inr e ↦ elim (f q) [
            | inl old ↦ inl (same ∙ rw e old)
            | inr gone ↦ inr (e, same ∙ rw e gone)
          ]
        ]
      ];
    },
  )

  -- Deletions leave the walk where it is.
  Underway-after :
      {t t₁ : PetHash} {m pos : ℕ}
      → (u : Underway crc key value t m pos) → Inv crc t₁ u.pending
      → Fades crc t t₁
      → Underway crc key value t₁ m pos
  Underway-after {t} {t₁} u v f = record {
    pending = u.pending;
    sound = v;
    inside = rw f.0 u.inside;
    place = rw f.0 u.place;
    passed = rw f.0 u.passed;
    fresh = Fades-Absent crc t t₁ u.sound v f key u.fresh;
  }

  module _ (check_func : Option CheckFunc) (force_insert : Bool) where
    pub insert_from-Safe :
        (left m i pos : ℕ) (t : PetHash)
        → Underway crc key value t m pos
        → m + left ≤ t.chunk_num
        → Safe t (insert_from crc key value check_func force_insert left i t pos)
    unfolding insert_from
    insert_from-Safe zero m i pos t u rounds = inl refl
    insert_from-Safe (suc left) m i pos t₀ u₀ rounds =
        let (t, swept, (v, faded)) = expire-Fades crc check_func pos u₀.sound in
        let u = Underway-after u₀ v faded in
        let miss = find-Underway crc key value t m pos u in
        Safe-after t₀ t faded refl (elim (Bool-cases (ltb (t.chunk_table pos).size max_size)) [
          | inl room ↦
              let (id, run, v', entry, reads) = ends crc key value t m pos u (ltb→lt _ _ room) in
              inr (
                (put crc t key value pos id, pos, id),
                step_room crc key value check_func force_insert left i pos t₀ t swept miss room run,
                record { sound = v'; num = refl; entry = entry; reads = λ q. inl (reads q) },
              )
          | inr no_room ↦ elim (Bool-cases (full t)) [
            | inr not_full ↦
                let passes =
                  step_on crc key value check_func force_insert left i pos t₀ t swept miss no_room
                    not_full in
                elim (Bool-cases (ltb (suc m) t.chunk_num)) [
                  | inl more ↦
                      let u' = goes_on crc key value t m pos u (ltb→lt _ _ more) in
                      Safe-after t (moved t pos) (refl, λ q. inl (moved-get crc u.sound pos q))
                        passes
                        (insert_from-Safe left (suc m) (i + 1) _ (moved t pos) u'
                          (omega (arith, rounds, faded.0)))
                  | inr last ↦
                      let no_round : left ≡ 0 = ground (arith, rounds, faded.0, last) in
                      inl (passes ∙ rw no_round refl)
                ]
            | inl is_full ↦ elim (Bool-cases force_insert) [
              | inr calm ↦ inl (
                  step_stop crc key value check_func force_insert left i pos t₀ t swept miss no_room
                    is_full calm)
              | inl force ↦
                  let victim =
                    ((t.chunk_table pos).value ((tag_of crc key + i) % max_size)).first in
                  let (t', run, (v', faded')) = delete-Fades crc u.sound victim in
                  let u' = Underway-after u v' faded' in
                  Safe-after t t' faded'
                    (step_victim crc key value check_func force_insert left i pos t₀ t swept miss
                      no_room is_full force run)
                    (insert_from-Safe left m (i + 1) pos t' u'
                      (omega (arith, rounds, faded'.0, faded.0)))
            ]
          ]
        ])

    pub insert-Safe :
        (t : PetHash)
        → Inv crc t (λ _. 0)
        → Absent t key
        → Safe t (insert crc key value check_func force_insert t)
    unfolding insert
    insert-Safe t v fresh =
        insert_from-Safe t.chunk_num 0 0 (home_chunk t.chunk_num key) t
          (starts crc key value t v fresh) (omega arith)

    -- On a well-formed table `Set`, with any check function, forced or not, never waits on another
    -- thread: it aborts, or it returns a well-formed table of as many chunks with the key at the
    -- returned slot, in which the key reads the value and every other key reads as before or is
    -- missing.
    pub set-Safe :
        (t : PetHash) → Inv crc t (λ _. 0) → Safe t (set crc key value check_func force_insert t)
    unfolding set
    set-Safe t v = elim (get_internal-cases crc v key) [
      | inl (p, id, s, e) ↦ inr (
        (assign t p id value, p, id),
        rw (set, e) refl,
        record {
          sound = assign-Inv crc v p id value;
          num = refl;
          entry = assign_Stored t p id value s;
          reads = λ q. inl (assign-get crc v key p id value q s);
        },
      )
      | inr (fresh, e) ↦ rw (set, e) (insert-Safe t v fresh)
    ]
