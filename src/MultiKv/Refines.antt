-- ===== src/MultiKv/Refines.antt =====
-- The shards together behave as the reference store of src/pet_kv/std_kv.h.
use pet_ps.Common.{
  ℕ, ◌%◌, ◌^◌, ◌<◌, Bool, true, false, Option, none, some, List, [], length, ◌==◌, if◌then◌else◌,
  update, ◌≡◌, refl, sym, ap, ◌∙◌, Bool-cases, inl, inr, ◌⊎◌, ==→eq, ==→ne, eq→==, ne→==,
}
use native.Mathlib.Nat.{mod-lt}
use pet_ps.Common.Bytes.{Memory, read_bytes}
use pet_ps.Common.Outcome.{Outcome, done, fatal, spin, Returns, ◌>>=◌, >>=-done}
use pet_ps.KvData.{Config}
use pet_ps.PetHash.Table.{full}
use pet_ps.MemoryPool.{listed_size}
use pet_ps.MemoryPool.Placement.{size_for, Exhausted}
use pet_ps.PetKv.{PetKv, PetKvReadData, perfect_fit_mod, slab_sizes}
use pet_ps.PetKv
use pet_ps.PetKv.Store.{IsStore, value_of}
use pet_ps.PetKv.Update.{Updated, update-Updated}
use pet_ps.StdKv.{TestDb, read_expiring, write, write_expiring}
use pet_ps.Epoch.{EpochManager}
use pet_ps.MultiKv.{MultiKv, sharing, shard_at, get_shard, engine_put, engine_get, get, update_key}

module _ (crc : ℕ → ℕ) (get_hash : ℕ → ℕ) (config : Config) (pre : ℕ) where
  abbrev Multi : Type 0
  Multi = MultiKv crc get_hash config pre

  -- The shard of a key.
  abbrev pub shard_of : Multi → ℕ → PetKv crc config pre
  shard_of m key = shard_at crc get_hash config pre m (get_shard crc get_hash config pre m key)

  -- What a read of the reference store has for the key.
  abbrev pub bytes_of : Option (ℕ × List ℕ) → Option (List ℕ)
  bytes_of none = none
  bytes_of (some (expire, bytes)) = some bytes

  abbrev pub bytes_in : TestDb → ℕ → Option (List ℕ)
  bytes_in db key = bytes_of (db key)

  -- Every shard is well formed, and every key reads in its shard as in the reference store.
  pub record Represents (m : Multi) (db : TestDb) : Type 0 where
    pub shards : 0 < m.shard_num
    pub sound :
        (i : ℕ) → i < m.shard_num → IsStore crc config pre (shard_at crc get_hash config pre m i)
    pub reads : (key : ℕ) → value_of crc config pre (shard_of m key) key ≡ done (bytes_in db key)

  -- The store with what `Update` leaves of a key's shard.
  abbrev with_shard : Multi → ℕ → PetKv crc config pre → Multi
  with_shard m key kv = record m {
    shm_kv = update m.shm_kv (get_shard crc get_hash config pre m key) kv;
    epoch_manager = kv.recycler.epoch_manager;
  }

  abbrev sharing_kv : EpochManager → PetKv crc config pre → PetKv crc config pre
  sharing_kv = sharing crc get_hash config pre

  -- A shard is well formed and reads the same under any epoch manager.
  pub sharing-IsStore :
      (epoch_manager : EpochManager) (kv : PetKv crc config pre)
      → IsStore crc config pre kv
      → IsStore crc config pre (sharing_kv epoch_manager kv)
  sharing-IsStore epoch_manager kv v = record {
    width = v.width;
    layout = v.layout;
    covers = v.covers;
    small = v.small;
    served = v.served;
    index = v.index;
    queue = v.queue;
    values = v.values;
    alone = v.alone;
    unqueued = v.unqueued;
  }

  pub value_of-sharing :
      (epoch_manager : EpochManager) (kv : PetKv crc config pre) (key : ℕ)
      → value_of crc config pre (sharing_kv epoch_manager kv) key ≡ value_of crc config pre kv key
  unfolding value_of PetKv.get PetKv.read_data
  value_of-sharing epoch_manager kv key = refl

  put_run :
      (m : Multi) (key : ℕ) (log : List ℕ) (r : PetKv crc config pre × Bool)
      → PetKv.update crc config pre (shard_of m key) key log ≡ done r
      → r.1 ≡ true
      → engine_put crc get_hash config pre m key log ≡ done (with_shard m key r.0)
  unfolding engine_put update_key
  put_run m key log r run ok =
      let m' = with_shard m key r.0 in
      let step : update_key crc get_hash config pre m key log ≡ done (m', r.1) = >>=-done _ run in
      >>=-done _ step ∙ ap (λ (b : Bool). if b then done m' else fatal) ok

  put_fatal :
      (m : Multi) (key : ℕ) (log : List ℕ)
      → PetKv.update crc config pre (shard_of m key) key log ≡ fatal
      → engine_put crc get_hash config pre m key log ≡ fatal
  unfolding engine_put update_key
  put_fatal m key log run = rw run refl

  -- The reads of the store with a shard replaced by what `Update` leaves.
  Updated-reads :
      (m : Multi) (db : TestDb) (key : ℕ) (log : List ℕ) (r : PetKv crc config pre × Bool)
      → Represents m db
      → Updated crc config pre (shard_of m key) key log r
      → Represents (with_shard m key r.0) (write db key log).0
  unfolding get_shard write write_expiring
  Updated-reads m db key log r v u =
      let shard = get_hash key % m.shard_num in
      record {
        shards = v.shards;
        sound = λ i l. elim (Bool-cases (shard == i)) [
          | inl e ↦ rw e u.sound
          | inr e ↦ rw e (
              sharing-IsStore r.0.recycler.epoch_manager (shard_at crc get_hash config pre m i)
                (v.sound i l))
        ];
        reads = λ j. elim (Bool-cases (shard == get_hash j % m.shard_num)) [
          | inr e ↦
              let ne : (key == j) ≡ false = elim (Bool-cases (key == j)) [
                | inr d ↦ d
                | inl same ↦
                    absurd
                      (==→ne _ _ e (ap (λ (k : ℕ). get_hash k % m.shard_num) (==→eq key j same)))
              ] in
              rw (e, ne) (value_of-sharing r.0.recycler.epoch_manager (shard_of m j) j ∙ v.reads j)
          | inl e ↦
              let here : shard_of m j ≡ shard_of m key =
                ap (shard_at crc get_hash config pre m)
                  (sym (==→eq shard (get_hash j % m.shard_num) e)) in
              let old : value_of crc config pre (shard_of m key) j ≡ done (bytes_in db j) =
                ap (λ k. value_of crc config pre k j) (sym here) ∙ v.reads j in
              rw e (u.reads j ∙ written (shard_of m key) db key j log old)
        ];
      }
    where
      written :
          (kv : PetKv crc config pre) (db : TestDb) (key j : ℕ) (log : List ℕ)
          → value_of crc config pre kv j ≡ done (bytes_in db j)
          → (if j == key then done (some log) else value_of crc config pre kv j)
            ≡ done (bytes_in (update db key (some (0, log))) j)
      written kv db key j log old = elim (Bool-cases (j == key)) [
        | inl e ↦
            let now : update db key (some (0, log)) j ≡ some (0, log) =
              rw (eq→== key j (sym (==→eq j key e))) refl in
            rw e (ap (λ o. done (bytes_of o)) (sym now))
        | inr e ↦
            let now : update db key (some (0, log)) j ≡ db j =
              rw (ne→== key j (λ h. absurd (==→ne j key e (sym h)))) refl in
            rw e (old ∙ ap (λ o. done (bytes_of o)) (sym now))
      ]

  -- In a store of well-formed shards that reads as a reference store, for a key whose shard's index is
  -- not full and a value of fewer than 2 ^ 32 bytes that a slab size takes, the engine's `Put` leads to
  -- well-formed shards that read, for every key, as the reference store after its `Write`; it aborts
  -- only when the shard's pool has no chunk free and refuses the size.
  pub engine_put-Represents :
      (m : Multi) (db : TestDb) (key : ℕ) (log : List ℕ) (s : ℕ)
      → Represents m db
      → full (shard_of m key).dict ≡ false
      → size_for (perfect_fit_mod pre) (slab_sizes pre) (length log) ≡ some s
      → listed_size (slab_sizes pre) s ≡ true
      → length log < 2 ^ 32
      → ((engine_put crc get_hash config pre m key log ≡ fatal)
          × Exhausted (shard_of m key).recycler.malloc s)
        ⊎ Returns
            (engine_put crc get_hash config pre m key log)
            (λ m'. Represents m' (write db key log).0)
  unfolding get_shard
  engine_put-Represents m db key log s v room fit listed small =
      let sound = v.sound (get_hash key % m.shard_num) (mod-lt (get_hash key) v.shards) in
      elim (update-Updated crc config pre (shard_of m key) key log s sound room fit listed small) [
        | inl (dies, empty) ↦ inl (put_fatal m key log dies, empty)
        | inr (r, run, u) ↦
            inr (_, put_run m key log r run u.answer, Updated-reads m db key log r v u)
      ]

  from_pointer :
      (d : Option ℕ) (n : ℕ) (memory : Memory) (old : List ℕ) (x : Option (List ℕ))
      → (elim d as (λ _. Outcome (Option (List ℕ))) [
        | none ↦ done none
        | some ptr ↦ done (some (read_bytes memory ptr n))
      ])
        ≡ done x
      → (elim d as (λ _. Outcome (List ℕ)) [
        | none ↦ done old
        | some ptr ↦ done (read_bytes memory ptr n)
      ])
        ≡ done (elim x [ none ↦ old | some bytes ↦ bytes ])
  from_pointer none n memory old x h =
      let e : none ≡ x = cc h in
      ap
        (λ (y : Option (List ℕ)).
          done (elim y as (λ _. List ℕ) [ none ↦ old | some bytes ↦ bytes ]))
        e
  from_pointer (some ptr) n memory old x h =
      let e : some (read_bytes memory ptr n) ≡ x = cc h in
      ap
        (λ (y : Option (List ℕ)).
          done (elim y as (λ _. List ℕ) [ none ↦ old | some bytes ↦ bytes ]))
        e

  agrees :
      (o : Option (ℕ × List ℕ)) (expire_timet : ℕ) (old : List ℕ)
      → (elim (bytes_of o) as (λ _. List ℕ) [ none ↦ old | some bytes ↦ bytes ]) ≡ (
          let (bytes, expire, found) = elim o as (λ _. List ℕ × ℕ × Bool) [
            | none ↦ ([], expire_timet, false)
            | some (expire, bytes) ↦ (bytes, expire, true)
          ] in
          if found then bytes else old)
  agrees none expire_timet old = refl
  agrees (some (expire, bytes)) expire_timet old = refl

  get-value_of :
      (o : Outcome PetKvReadData) (memory : Memory) (old : List ℕ) (x : Option (List ℕ))
      → (o >>= λ (r : PetKvReadData). elim r.value_data [
        | none ↦ done none
        | some ptr ↦ done (some (read_bytes memory ptr r.size))
      ])
        ≡ done x
      → (o >>= λ (r : PetKvReadData). elim r.value_data [
        | none ↦ done old
        | some ptr ↦ done (read_bytes memory ptr r.size)
      ])
        ≡ done (elim x [ none ↦ old | some bytes ↦ bytes ])
  get-value_of fatal memory old x h = cc
  get-value_of spin memory old x h = cc
  get-value_of (done r) memory old x h = from_pointer r.value_data r.size memory old x h

  -- In such a store the engine's `Get` returns the bytes that the reference store has for the key, and
  -- leaves the caller's string alone where `Read` finds none.
  pub engine_get-read :
      (m : Multi) (db : TestDb) (key expire_timet : ℕ) (old : List ℕ)
      → Represents m db
      → engine_get crc get_hash config pre m key old
        ≡ done (
            let (bytes, expire, found) = read_expiring db key expire_timet in
            if found then bytes else old)
  unfolding engine_get get read_expiring value_of
  engine_get-read m db key expire_timet old v =
      let kv = shard_of m key in
      get-value_of (PetKv.get crc config pre kv key) kv.memory old (bytes_in db key) (v.reads key)
      ∙ ap done (agrees (db key) expire_timet old)

  -- In a store of well-formed shards that reads as a reference store, for a key whose shard's index is
  -- not full and a value of fewer than 2 ^ 32 bytes that a slab size takes: `Put` of the engine aborts,
  -- when the shard's pool has no chunk free and refuses the size; or it returns, and from then on `Get` of
  -- the engine gives exactly the bytes that were put for that key, and what it gave before for every other.
  pub engine_put-get :
      (m : Multi) (db : TestDb) (key : ℕ) (log : List ℕ) (s : ℕ)
      → Represents m db
      → full (shard_of m key).dict ≡ false
      → size_for (perfect_fit_mod pre) (slab_sizes pre) (length log) ≡ some s
      → listed_size (slab_sizes pre) s ≡ true
      → length log < 2 ^ 32
      → ((engine_put crc get_hash config pre m key log ≡ fatal)
          × Exhausted (shard_of m key).recycler.malloc s)
        ⊎ Returns (engine_put crc get_hash config pre m key log) (λ m'.
          (k : ℕ) (old : List ℕ)
          → engine_get crc get_hash config pre m' k old
            ≡ (if key == k then done log else engine_get crc get_hash config pre m k old))
  unfolding write write_expiring read_expiring
  engine_put-get m db key log s v room fit listed small =
      elim (engine_put-Represents m db key log s v room fit listed small) [
        | inl dies ↦ inl dies
        | inr (m', run, v') ↦ inr (
          m',
          run,
          λ k old. elim (Bool-cases (key == k)) [
            | inl same ↦
                let here : update db key (some (0, log)) k ≡ some (0, log) = rw same refl in
                rw same
                  (engine_get-read m' (write db key log).0 k 0 old v' ∙ ap (answer_of old) here)
            | inr apart ↦
                let here : update db key (some (0, log)) k ≡ db k = rw apart refl in
                rw apart (
                  engine_get-read m' (write db key log).0 k 0 old v'
                  ∙ ap (answer_of old) here
                  ∙ sym (engine_get-read m db k 0 old v))
          ],
        )
      ]
    where
      answer_of : List ℕ → Option (ℕ × List ℕ) → Outcome (List ℕ)
      answer_of old o = done (
          let (bytes, expire, found) = elim o as (λ _. List ℕ × ℕ × Bool) [
            | none ↦ ([], 0, false)
            | some (expire, bytes) ↦ (bytes, expire, true)
          ] in
          if found then bytes else old)
