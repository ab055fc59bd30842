-- ===== src/Load.antt =====
-- src/ps/load_db.h: `LoadDBHelper`, which fills a server's store with the keys of its shard before it
-- serves, and reads them back. The server's id is a parameter, as are the hash and the number of servers.
-- The store behind `BaseKV` is a parameter, and so are the bytes of a number as a float and the test
-- `fabs(emb[k] - key) < 1e-6`. The threads run one after the other.
pub mod Ranges
pub mod Filled
pub mod Loaded
pub mod Values
pub mod Checked
pub mod Mapped
use pet_ps.Common.{
  ◌^◌, Option, none, some, ltb, ℕ, zero, suc, ◌+◌, ◌-◌, ◌*◌, ◌/◌, ◌%◌, min, Bool, true, false, List,
  [], ◌∷◌, ◌++◌, length, take, replicate, ◌==◌, if◌then◌else◌, ◌&&◌,
}
use pet_ps.Common.Outcome.{Outcome, done, fatal, ◌>>=◌}
use pet_ps.AllShards.{key_partition}

-- `Put` and `Get` of `BaseKV`. The last number is the thread.
pub record BaseKv (K : Type 0) : Type 0 where
  pub put : K → ℕ → List ℕ → ℕ → Outcome K
  pub get : K → ℕ → ℕ → List ℕ

pub record LoadDbHelper : Type 0 where
  pub warm_thread_count : ℕ
  pub warm_capacity : ℕ
  pub warmup_kv_count_in_this_ps : ℕ

abbrev pub check_thread_num : ℕ
check_thread_num = 36

abbrev pub drop {ℓ} : {A : Type ℓ} → ℕ → List A → List A
drop zero xs = xs
drop (suc n) [] = []
drop (suc n) (x ∷ xs) = drop n xs

abbrev pub is_empty : List ℕ → Bool
is_empty [] = true
is_empty (_ ∷ _) = false

-- The first key of thread `i`, and the number of rounds of its loop.
unfoldable pub first_key : ℕ → ℕ → ℕ
first_key per i = 1 + i * per

unfoldable pub rounds : ℕ → ℕ → ℕ → ℕ
rounds capacity per i = min (capacity + 1) (1 + (i + 1) * per) - (1 + i * per)

-- `int j` of `CheckDBLoad` starts at the low 32 bits of the first key; from 2 ^ 31 on it is negative, which
-- the comparison with an unsigned number makes large, so that no round is run.
abbrev pub int_of : ℕ → ℕ
int_of n = n % 2 ^ 32

unfoldable pub check_rounds : ℕ → ℕ → ℕ → ℕ
unfolding first_key
check_rounds capacity per i =
    let j = int_of (first_key per i) in
    if ltb j (2 ^ 31) then min (capacity + 1) (1 + (i + 1) * per) - j else 0

-- The sum of two counts of right and missing keys, where both have one.
abbrev pub added : Option (ℕ × ℕ) → Option (ℕ × ℕ) → Option (ℕ × ℕ)
added none counts = none
added (some here) none = none
added (some (r, m)) (some (right, missing)) = some (r + right, m + missing)

-- Whether the keys found are as many as were counted, and the two counts.
abbrev pub verdict : ℕ → Option (ℕ × ℕ) → Option (Bool × ℕ × ℕ)
verdict kv_count none = none
verdict kv_count (some (inserted, missing)) = some (inserted == kv_count, inserted, missing)

unfoldable pub kv_per_thread : ℕ → ℕ → ℕ
kv_per_thread capacity threads = (capacity + threads - 1) / threads

module _ (get_hash : ℕ → ℕ) (shards : ℕ) (server_id : ℕ) where
  abbrev pub is_own : ℕ → Bool
  is_own key = key_partition get_hash shards key == server_id

  -- The count before the threads start.
  unfoldable pub count_own : ℕ → ℕ → ℕ
  count_own j zero = 0
  count_own j (suc left) = let rest = count_own (j + 1) left in if is_own j then 1 + rest else rest

  -- `to_insert_keys`
  unfoldable pub to_insert_keys : ℕ → ℕ → List ℕ
  to_insert_keys j zero = []
  to_insert_keys j (suc left) =
      let rest = to_insert_keys (j + 1) left in if is_own j then j ∷ rest else rest

  module _ {K : Type 0} (kv_api : BaseKv K) (float_bytes : ℕ → List ℕ) (value_size : ℕ) where
    -- `emb` as floats.
    unfoldable pub fill : ℕ → ℕ → List ℕ
    fill key zero = []
    fill key (suc k) = float_bytes key ++ fill key k

    -- What `Put` is given: the floats, and what `memset(pool, 'e', …)` left behind them.
    unfoldable pub warm_value : ℕ → List ℕ
    warm_value key = fill key (value_size / 4) ++ replicate (value_size % 4) 101

    -- A thread of `PreLoadDB`.
    unfoldable pub load_thread : ℕ → ℕ → ℕ → K → Outcome K
    load_thread i j zero kv = done kv
    load_thread i j (suc left) kv =
        (if is_own j then kv_api.put kv j (warm_value j) i else done kv)
        >>= load_thread i (j + 1) left

    unfoldable pub load_threads : ℕ → ℕ → ℕ → ℕ → K → Outcome K
    load_threads capacity per i zero kv = done kv
    load_threads capacity per i (suc left) kv =
        load_thread i (first_key per i) (rounds capacity per i) kv
        >>= load_threads capacity per (i + 1) left

    -- The loop over `to_insert_keys`.
    unfoldable pub load_keys : List ℕ → K → Outcome K
    load_keys [] kv = done kv
    load_keys (key ∷ keys) kv = kv_api.put kv key (warm_value key) 0 >>= load_keys keys

    unfoldable pub pre_load_db : Bool → LoadDbHelper → K → Outcome (LoadDbHelper × K)
    pre_load_db shuffle_load h kv =
        let h' = record h { warmup_kv_count_in_this_ps = count_own 1 h.warm_capacity } in
        let per = kv_per_thread h.warm_capacity h.warm_thread_count in
        let loaded =
          if shuffle_load
          then if h.warm_thread_count == 1
            then load_keys (to_insert_keys 1 h.warm_capacity) kv
            else fatal
          else load_threads h.warm_capacity per 0 h.warm_thread_count kv in
        loaded >>= λ kv'. done (h', kv')

    module _ (close : List ℕ → ℕ → Bool) where
      -- `subright`, from float `k` on.
      unfoldable pub sub_right : List ℕ → ℕ → ℕ → ℕ → Bool
      sub_right value key k zero = true
      sub_right value key k (suc left) =
          close (take 4 (drop (4 * k) value)) key && sub_right value key (k + 1) left

      -- A key of `CheckDBLoad`: what it adds to `right` and `missing`.
      unfoldable pub check_key : K → ℕ → ℕ → ℕ × ℕ
      check_key kv i key =
          let value = kv_api.get kv key i in
          if is_empty value
          then (0, 1)
          else if sub_right value key 0 (value_size / 4)
          then (1, 0)
          else (0, 0)

      -- A thread, whose `++j` has no meaning at the largest `int` (`none`).
      unfoldable pub check_thread : K → ℕ → ℕ → ℕ → Option (ℕ × ℕ)
      check_thread kv i j zero = some (0, 0)
      check_thread kv i j (suc left) =
          let rest = check_thread kv i (j + 1) left in
          let here = if is_own j then check_key kv i j else (0, 0) in
          if ltb (j + 1) (2 ^ 31) then added (some here) rest else none

      unfoldable pub check_threads : K → ℕ → ℕ → ℕ → ℕ → Option (ℕ × ℕ)
      check_threads kv capacity per i zero = some (0, 0)
      check_threads kv capacity per i (suc left) =
          added (check_thread kv i (int_of (first_key per i)) (check_rounds capacity per i))
            (check_threads kv capacity per (i + 1) left)

      -- `CheckDBLoad`: whether all were inserted, and the two counts that it logs otherwise.
      unfoldable pub check_db_load : LoadDbHelper → K → Option (Bool × ℕ × ℕ)
      check_db_load h kv =
          let per = kv_per_thread h.warm_capacity check_thread_num in
          verdict h.warmup_kv_count_in_this_ps
            (check_threads kv h.warm_capacity per 0 check_thread_num)
