-- ===== src/PetHash.antt =====
-- src/pet_kv/pet_hash.h: the hash index, as `PetHash<uint64, PetKVData, true>` uses it.
-- `Chunk` and `Table` hold the data and what every operation reads, `Search`, `Insert`, `Delete`
-- the operations, and the other modules the proofs.
pub mod Mask
pub mod Chunk
pub mod Find
pub mod Slots
pub mod Table
pub mod Search
pub mod Delete
pub mod Insert
pub mod Probe
pub mod Walk
pub mod Invariant
pub mod Lookup
pub mod ById
pub mod Removal
pub mod Erased
pub mod Erase
pub mod Bump
pub mod Filled
pub mod Fill
pub mod Fading
pub mod Insertion
pub mod Steps
pub mod Assign
pub mod Room
pub mod Setting
pub mod Safety
pub mod Setup
pub mod Valid
pub mod Reload
pub mod Repair
pub mod Marked
pub mod Recount
pub mod Reloaded
pub mod Migration
