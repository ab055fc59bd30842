-- ===== src/PetHash/ById.antt =====
-- The index that `Lookup` gives for a key.
use pet_ps.Common.{
  ℕ, ◌+◌, ◌*◌, ◌/◌, ◌%◌, ◌<◌, true, false, Option, none, some, leb, ◌≡◌, refl, arith, inl, inr,
  ne→==,
}
use pet_ps.Common.Outcome.{done}
use pet_ps.PetHash.Chunk.{max_size}
use pet_ps.PetHash.Table.{PetHash, index_in_use, get_by_id}
use pet_ps.PetHash.Search.{get, lookup}
use pet_ps.PetHash.Invariant.{Inv}
use pet_ps.PetHash.Lookup.{get_internal-cases, get-Stored, get-Absent}

-- What `Lookup` may answer: the index, in use, of the key's entry, whose value `Get` returns; or
-- none, when `Get` finds no value.
abbrev pub IsIndex : (ℕ → ℕ) → PetHash → ℕ → Option ℕ → Type 0
IsIndex crc t key none = get crc t key ≡ done (0, false)
IsIndex crc t key (some pos) =
    (pos < t.capacity)
    × (index_in_use t pos ≡ true)
    × ((get_by_id t pos).first ≡ key)
    × (get crc t key ≡ done ((get_by_id t pos).second, true))

-- In a well-formed table `Lookup` ends: with the index of the key's entry, which `IndexInUse` and
-- `GetById` agree to, or with none when the key is not stored.
pub lookup-IsIndex :
    (crc : ℕ → ℕ) (t : PetHash) (key : ℕ)
    → Inv crc t (λ _. 0)
    → (r : Option ℕ) × (lookup crc t key ≡ done r) × IsIndex crc t key r
unfolding lookup index_in_use get_by_id
lookup-IsIndex crc t key v = elim (get_internal-cases crc v key) [
  | inr (a, e) ↦ (none, rw (lookup, e) refl, get-Absent crc v key a)
  | inl (p, id, s, e) ↦
      let pos = p * max_size + id in
      let chunk : pos / max_size ≡ p = omega (arith, s.slot) in
      let slot : pos % max_size ≡ id = omega (arith, s.slot) in
      let inside : pos < t.capacity = omega (arith, s.slot, s.chunk, v.slots) in
      let out : leb t.capacity pos ≡ false = ground (arith, inside) in
      (
        some pos,
        rw (lookup, e) refl,
        (
          inside,
          rw (out, chunk, slot, ne→== _ 0 s.busy) refl,
          rw (get_by_id, chunk, slot) s.named,
          rw (get_by_id, chunk, slot) (get-Stored crc v key p id s),
        ),
      )
]
