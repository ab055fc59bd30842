-- ===== src/PetHash/Setting.antt =====
-- `Insert` and `Set` as a whole, without `check_func`.
use pet_ps.Common.{ℕ, Bool, false, ◌≡◌, refl, arith, inl, inr, none, sum_below}
use pet_ps.Common.Outcome.{Returns}
use pet_ps.Common.Pow.{pow-pos}
use pet_ps.PetHash.Table.{PetHash, home_chunk, full}
use pet_ps.PetHash.Insert.{insert, set, assign}
use pet_ps.PetHash.Probe.{pos_at}
use pet_ps.PetHash.Walk.{seen}
use pet_ps.PetHash.Invariant.{Absent, Inv}
use pet_ps.PetHash.Lookup.{get_internal-cases}
use pet_ps.PetHash.Assign.{assign-Inv, assign-get, assign_Stored}
use pet_ps.PetHash.Insertion.{Underway}
use pet_ps.PetHash.Room.{Inserted, insert_from-room}

-- At its start an insertion has passed no chunk.
pub starts :
    (crc : ℕ → ℕ) (key value : ℕ) (t : PetHash)
    → Inv crc t (λ _. 0)
    → Absent t key
    → Underway crc key value t 0 (home_chunk t.chunk_num key)
unfolding pos_at seen sum_below
starts crc key value t v fresh = record {
  pending = λ _. 0;
  sound = v;
  inside = omega (arith, v.power, pow-pos v.width);
  place = refl;
  passed = λ c. refl;
  fresh = fresh;
}

-- In a well-formed table that is not full, and for a key that is not stored, `Insert` without a
-- check function returns: the result is a well-formed table of as many chunks with the key at the
-- returned slot, the key reads its value, and every other key reads as before.
pub insert-Inserted :
    (crc : ℕ → ℕ) (key value : ℕ) (force_insert : Bool) (t : PetHash)
    → Inv crc t (λ _. 0)
    → Absent t key
    → full t ≡ false
    → Returns (insert crc key value none force_insert t) (Inserted crc key value force_insert t)
unfolding insert
insert-Inserted crc key value force_insert t v fresh not_full =
    insert_from-room crc key value force_insert t.chunk_num 0 (home_chunk t.chunk_num key) t
      (starts crc key value t v fresh) (omega arith) not_full (λ j l. absurd (omega arith))

-- In a well-formed table that is not full `Set` without a check function returns: the result is a
-- well-formed table of as many chunks with the key at the returned slot, the key reads the value,
-- and every other key reads as before, whether or not the key was stored.
pub set-Inserted :
    (crc : ℕ → ℕ) (key value : ℕ) (force_insert : Bool) (t : PetHash)
    → Inv crc t (λ _. 0)
    → full t ≡ false
    → Returns (set crc key value none force_insert t) (Inserted crc key value force_insert t)
unfolding set
set-Inserted crc key value force_insert t v not_full = elim (get_internal-cases crc v key) [
  | inl (p, id, s, e) ↦ (
    (assign t p id value, p, id),
    rw (set, e) refl,
    record {
      sound = assign-Inv crc v p id value;
      num = refl;
      entry = assign_Stored t p id value s;
      reads = λ q. assign-get crc v key p id value q s;
    },
  )
  | inr (fresh, e) ↦
      let (result, run, ok) = insert-Inserted crc key value force_insert t v fresh not_full in
      (result, rw (set, e) run, ok)
]
