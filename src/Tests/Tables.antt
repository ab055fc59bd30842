-- ===== src/Tests/Tables.antt =====
-- A table of two chunks, with the identity for the hash instruction.
use pet_ps.Common.{
  ◌&&◌, ◌≢◌, ℕ, ◌+◌, ◌*◌, ◌/◌, ◌^◌, ◌<◌, ◌≤◌, true, false, ◌==◌, if◌then◌else◌, ◌≡◌, refl, arith,
  Option, some, none, ◌⊎◌, sum_below,
}
use pet_ps.Common.Outcome.{done, Returns}
use pet_ps.PetHash.Chunk.{Chunk, empty_key, max_size}
use pet_ps.PetHash.Find.{IsCounted, used}
use pet_ps.PetHash.Table.{PetHash, zero_chunk, initialize, over_fall_chunk_num, full}
use pet_ps.PetHash.Search.{get, get_internal, at, missing, lookup}
use pet_ps.PetHash.Insert.{set}
use pet_ps.PetHash.Insert
use pet_ps.PetHash.Delete.{delete}
use pet_ps.PetHash.Probe.{pos_at, pos_at_onto}
use pet_ps.PetHash.Invariant.{Stored, Absent, Inv}
use pet_ps.PetHash.Lookup.{get_internal-cases}
use pet_ps.PetHash.ById.{IsIndex, lookup-IsIndex}
use pet_ps.PetHash.Erase.{delete-get}
use pet_ps.PetHash.Room.{Inserted}
use pet_ps.PetHash.Setting.{set-Inserted, insert-Inserted}
use pet_ps.PetHash.Safety.{Safe, set-Safe}
use pet_ps.PetHash.Table.{memory_size}
use pet_ps.PetHash.Valid.{valid, valid-Inv}
use pet_ps.PetHash.Reload.{reload}
use pet_ps.PetHash.Reloaded.{IsSaved, reload-get, reload-missing}
use pet_ps.PetHash.Setup.{initialize-Inv, fresh_Absent}

abbrev pub crc : ℕ → ℕ
crc x = x

abbrev pub scale : ℕ → ℕ
scale x = x + x / 9

abbrev pub memory : PetHash
memory = record { capacity = 0; chunk_num = 0; size = 0; chunk_table = λ _. zero_chunk }

abbrev table : PetHash
table = initialize scale memory 20 true

small : 20 < 2 ^ 64
small = omega arith

few : over_fall_chunk_num 20 * max_size < 2 ^ 64
unfolding over_fall_chunk_num
few = omega arith

initialize-Inv_example :
    Inv crc table (λ _. 0) × (20 ≤ table.capacity) × ((q : ℕ) → get crc table q ≡ done (0, false))
initialize-Inv_example = initialize-Inv crc scale memory 20 true small few

table-Inv : Inv crc table (λ _. 0)
table-Inv = initialize-Inv_example.0

table-room : full table ≡ false
unfolding full initialize
table-room = refl

set-Inserted_example : Returns (set crc 7 70 none false table) (Inserted crc 7 70 false table)
set-Inserted_example = set-Inserted crc 7 70 false table table-Inv table-room

insert-Inserted_example :
    Returns (Insert.insert crc 7 70 none true table) (Inserted crc 7 70 true table)
insert-Inserted_example =
    insert-Inserted crc 7 70 true table table-Inv (fresh_Absent crc scale memory 20 true 7)
      table-room

-- The table with the key 7.
abbrev seven : PetHash × ℕ × ℕ
seven = set-Inserted_example.0

seven-Inv : Inv crc seven.0 (λ _. 0)
seven-Inv = set-Inserted_example.2.sound

delete-get_example : Returns (delete crc seven.0 7) (λ t'.
    Inv crc t' (λ _. 0)
    × (t'.chunk_num ≡ seven.0.chunk_num)
    × ((q : ℕ) → get crc t' q ≡ (if q == 7 then done (0, false) else get crc seven.0 q)))
delete-get_example = delete-get crc seven-Inv 7

abbrev never : Insert.CheckFunc
never key value force_delete = false

set-Safe_example : Safe crc 9 90 seven.0 (set crc 9 90 (some never) true seven.0)
set-Safe_example = set-Safe crc 9 90 (some never) true seven.0 seven-Inv

lookup-IsIndex_example : (r : Option ℕ) × (lookup crc seven.0 7 ≡ done r) × IsIndex crc seven.0 7 r
lookup-IsIndex_example = lookup-IsIndex crc seven.0 7 seven-Inv

get_internal-cases_example :
    ((p : ℕ) × (id : ℕ) × Stored seven.0 7 p id × (get_internal crc seven.0 7 ≡ at p id))
    ⊎ (Absent seven.0 7 × (get_internal crc seven.0 7 ≡ missing))
get_internal-cases_example = get_internal-cases crc seven-Inv 7

pos_at_onto_example : (m : ℕ) × (m < 2 ^ 3) × (pos_at (2 ^ 3) 5 2 m ≡ 6)
pos_at_onto_example = pos_at_onto 3 5 2 6 (omega arith) (omega arith) (omega arith)

zero-IsCounted : IsCounted zero_chunk
unfolding used sum_below
zero-IsCounted = record { counted = refl }

valid-Inv_example :
    valid crc scale 320 table (memory_size scale 320 table.capacity true) ≡ done true
valid-Inv_example = valid-Inv crc table table-Inv scale 320

-- A chunk as a crash may leave it: the entry of the key 7 has no tag, and the counts are wrong.
abbrev torn_chunk : ℕ → Chunk
torn_chunk p = record {
  tags = λ _. 0;
  size = 9;
  padding = 0;
  overflow_count = 77;
  is_migrating = false;
  value = λ i. record { first = if (p == 0) && (i == 3) then 7 else empty_key; second = 70 };
}

abbrev torn : PetHash
torn = record { capacity = 0; chunk_num = 0; size = 0; chunk_table = torn_chunk }

torn-IsSaved : IsSaved (over_fall_chunk_num 20) torn_chunk
torn-IsSaved = record {
  consistent = λ p l id k e. refl;
  settled = λ p l. refl;
  single = λ p id p' id' l l' ne e. ground arith;
}

some_chunk : 0 < over_fall_chunk_num 20
unfolding over_fall_chunk_num
some_chunk = omega arith

reload-get_example :
    Returns
      (reload crc scale torn 20 true)
      (λ t'. Inv crc t' (λ _. 0) × (get crc t' 7 ≡ done (70, true)))
reload-get_example =
    reload-get crc scale torn 20 true torn-IsSaved small few 0 3 some_chunk (omega arith)
      (λ e. absurd (omega (arith, e)))

not_eight :
    (p id : ℕ) → p < over_fall_chunk_num 20 → id < max_size → ((torn_chunk p).value id).first ≢ 8
not_eight p id l k e = ground arith

reload-missing_example :
    Returns (reload crc scale torn 20 true) (λ t'. get crc t' 8 ≡ done (0, false))
reload-missing_example = reload-missing crc scale torn 20 true torn-IsSaved small few 8 not_eight
