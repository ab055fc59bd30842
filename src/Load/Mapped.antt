-- ===== src/Load/Mapped.antt =====
-- The engine over a map as the store that `PreLoadDB` fills: the room that it has for more keys.
use pet_ps.Common.{
  ℕ, suc, ◌+◌, ◌*◌, ◌<◌, Option, none, some, List, [], length, ◌≡◌, refl, sym, ap, ◌∙◌, arith, inl,
  inr, Bool, true, false,
}
use pet_ps.Common.Bytes.{read_bytes, length-read_bytes}
use pet_ps.Common.Outcome.{Outcome, done, fatal, spin}
use pet_ps.KvData.{Config}
use pet_ps.StdKv.{TestDb, read_expiring}
use pet_ps.Engine.{Engine, HashTable}
use pet_ps.Engine
use pet_ps.Engine.Written.{IsTable, write_new, write_new-key, write_new-other}
use pet_ps.Engine.Stored.{Represents, put-Represents, get-Represents, after_put, put-done}
use pet_ps.Load.{BaseKv}
use pet_ps.Load.Filled.{IsKv}

module _ {T : Type 0} (table : HashTable T) (config : Config) where
  -- The bytes that `Get` leaves in an empty string.
  abbrev pub bytes_got : Outcome (List ℕ) → List ℕ
  bytes_got (done bytes) = bytes
  bytes_got fatal = []
  bytes_got spin = []

  abbrev pub map_kv : BaseKv (Engine T)
  map_kv = record {
    put = λ e key bytes i. Engine.put table config e key bytes;
    get = λ e key i. bytes_got (Engine.get table config e key);
  }

  -- Slabs of the values' size, of which `n` more fit behind the cursor.
  pub record HasSlabs (size n : ℕ) (e : Engine T) : Type 0 where
    pub db : TestDb
    pub sound : Represents table config e db
    pub slab : e.shm_malloc.slab_size ≡ size
    pub room : e.shm_malloc.allocated + n * e.shm_malloc.slab_size < e.shm_malloc.memory_size

  abbrev bytes_in : Option (ℕ × List ℕ) → List ℕ
  bytes_in none = []
  bytes_in (some (expire, bytes)) = bytes

  get-bytes_in :
      (e : Engine T) (db : TestDb) (key : ℕ)
      → Represents table config e db
      → bytes_got (Engine.get table config e key) ≡ bytes_in (db key)
  unfolding read_expiring
  get-bytes_in e db key v =
      ap bytes_got (get-Represents table config e db key v) ∙ first_part (db key)
    where
      first_part :
          (o : Option (ℕ × List ℕ))
          → (elim o as (λ _. List ℕ × ℕ × Bool) [
            | none ↦ ([], 0, false)
            | some (expire, bytes) ↦ (bytes, expire, true)
          ]).0
            ≡ bytes_in o
      first_part none = refl
      first_part (some (expire, bytes)) = refl

  -- A key that reads as nothing has no value, for the values are not empty.
  fresh-absent :
      (e : Engine T) (db : TestDb) (key : ℕ)
      → Represents table config e db
      → bytes_got (Engine.get table config e key) ≡ []
      → db key ≡ none
  fresh-absent e db key v fresh = elim (v.keys key) [
    | inl (absent, no_value) ↦ no_value
    | inr h ↦
        let empty : read_bytes e.memory h.offset e.shm_malloc.slab_size ≡ [] =
          sym (ap bytes_in h.value) ∙ sym (get-bytes_in e db key v) ∙ fresh in
        let size = length-read_bytes e.memory h.offset e.shm_malloc.slab_size in
        let nothing = ap length empty in absurd (omega (arith, size, nothing, v.cursor.slab))
  ]

  result : Engine T → Outcome (Engine T) → Engine T
  result e (done e') = e'
  result e fatal = e
  result e spin = e

  pub map_kv-IsKv : (size : ℕ) → IsTable table → IsKv map_kv size (HasSlabs size)
  unfolding result
  map_kv-IsKv size laws = record {
    stores = λ n e key bytes i room fits fresh.
        let here : length bytes ≡ e.shm_malloc.slab_size = fits ∙ sym room.slab in
        let next : suc n * e.shm_malloc.slab_size
            ≡ n * e.shm_malloc.slab_size + e.shm_malloc.slab_size =
          omega arith in
        let some_room : e.shm_malloc.allocated + e.shm_malloc.slab_size < e.shm_malloc.memory_size =
          omega (arith, room.room, next) in
        let absent = fresh-absent e room.db key room.sound (fresh 0) in
        let (e', run, v) =
          put-Represents table config laws e room.db key bytes room.sound here some_room in
        let run' = put-done table config e key bytes room.sound.cursor here some_room in
        let same : e' ≡ after_put table config e key bytes = ap (result e) (sym run ∙ run') in
        let cursor = ap (λ (x : Engine T). x.shm_malloc.allocated) same in
        let slab = ap (λ (x : Engine T). x.shm_malloc.slab_size) same in
        let whole = ap (λ (x : Engine T). x.shm_malloc.memory_size) same in
        let room' : HasSlabs size n e' = record {
          db = write_new room.db key bytes;
          sound = v;
          slab = slab ∙ room.slab;
          room = rw (cursor, slab, whole) (omega (arith, room.room, next));
        } in
        (
          e',
          run,
          (
            room',
            λ j.
                get-bytes_in e' (write_new room.db key bytes) key v
                ∙ ap bytes_in (write_new-key room.db key bytes absent),
            λ other j apart.
                get-bytes_in e' (write_new room.db key bytes) other v
                ∙ ap bytes_in (write_new-other room.db key bytes other (λ h. apart (sym h)))
                ∙ sym (get-bytes_in e room.db other room.sound),
          ),
        );
  }
