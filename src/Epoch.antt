-- ===== src/Epoch.antt =====
-- src/memory/epoch_manager.h: the epochs under which threads read, and the safe epoch.
-- A thread is its entry's index in the table; an entry's deque is a list with its front first.
pub mod Safe
pub mod Steps
pub mod Guarded
pub mod Kept
pub mod Alone
pub mod Trace
pub mod Entries
use pet_ps.Common.{
  ℕ, zero, suc, ◌+◌, ◌-◌, ◌%◌, ◌^◌, max, Bool, true, false, not, ◌&&◌, Option, none, some, List, [],
  ◌∷◌, ◌++◌, length, ltb, leb, ◌==◌, if◌then◌else◌, update,
}

abbrev pub max_thread_num : ℕ
max_thread_num = 64

-- `std::min_element` behind an element `m`.
unfoldable pub min_element : ℕ → List ℕ → ℕ
min_element m [] = m
min_element m (e ∷ es) = min_element (if ltb e m then e else m) es

unfoldable pub min_epoch : List ℕ → ℕ
unfolding min_element
min_epoch [] = 0
min_epoch (e ∷ es) = min_element e es

-- A round of the loop of `MinEpochTable::ComputeNewSafeToReclaimEpoch`, over an entry's deque.
abbrev pub scan_entry : List ℕ → ℕ → ℕ
scan_entry epochs oldest_call =
    let entry_epoch = min_epoch epochs in
    if not (entry_epoch == 0) && ltb entry_epoch oldest_call then entry_epoch else oldest_call

-- The loop of `MinEpochTable::ComputeNewSafeToReclaimEpoch`, with its rounds left and `i`.
unfoldable pub oldest_from : (ℕ → List ℕ) → ℕ → ℕ → ℕ → ℕ
oldest_from table zero i oldest_call = oldest_call
oldest_from table (suc left) i oldest_call =
    oldest_from table left (i + 1) (scan_entry (table i) oldest_call)

abbrev pub epoch_before : ℕ → ℕ
epoch_before oldest_call = (oldest_call + (2 ^ 64 - 1)) % 2 ^ 64

unfoldable pub safe_epoch : (ℕ → List ℕ) → ℕ → ℕ
safe_epoch table current_epoch = epoch_before (oldest_from table max_thread_num 0 current_epoch)

-- `MaxPendingEpochNumPerThread`, after `i` rounds.
unfoldable pub max_pending_from : (ℕ → List ℕ) → ℕ → ℕ
max_pending_from table zero = 0
max_pending_from table (suc i) = max (max_pending_from table i) (length (table i))

-- `EpochManager` with its table.
pub record EpochManager : Type 0 where
  pub current_epoch : ℕ
  pub safe_to_reclaim_epoch : ℕ
  pub epoch_table : ℕ → List ℕ

abbrev pub start : EpochManager
start = record { current_epoch = 1; safe_to_reclaim_epoch = 0; epoch_table = λ _. [] }

-- `EnqueProtect` of a thread: `push_back`.
abbrev pub enque_protect : ℕ → ℕ → EpochManager → EpochManager
enque_protect thread epoch m = record m {
  epoch_table = update m.epoch_table thread (m.epoch_table thread ++ (epoch ∷ []));
}

-- `Protect` with nothing between its load of the current epoch and its push: Epoch/Trace has the two
-- apart.
unfoldable pub protect : ℕ → EpochManager → EpochManager
protect thread m = enque_protect thread m.current_epoch m

-- `UnProtect`: `pop_front`, which has no meaning on an empty deque (`none`).
unfoldable pub un_protect : ℕ → EpochManager → Option EpochManager
un_protect thread m = elim (m.epoch_table thread) [
  | [] ↦ none
  | e ∷ es ↦ some (record m { epoch_table = update m.epoch_table thread es })
]

-- `current_epoch_.fetch_add(1)`, without its answer, and `safe_to_reclaim_epoch_.store`.
abbrev pub fetch_add : EpochManager → EpochManager
fetch_add m = record m { current_epoch = (m.current_epoch + 1) % 2 ^ 64 }

abbrev pub store_safe : ℕ → EpochManager → EpochManager
store_safe epoch m = record m { safe_to_reclaim_epoch = epoch }

-- `BumpCurrentEpoch` with nothing between its parts: Epoch/Trace has them apart.
unfoldable pub bump_current_epoch : EpochManager → EpochManager
bump_current_epoch m =
    let bumped = fetch_add m in store_safe (safe_epoch bumped.epoch_table m.current_epoch) bumped

unfoldable pub is_safe_to_reclaim : EpochManager → ℕ → Bool
is_safe_to_reclaim m epoch = leb epoch m.safe_to_reclaim_epoch

-- `ReserveEntry`: one pass over the entries, with its rounds left; 0 is an entry that no thread has.
-- The result is the entry's index. A pass that finds none is repeated until it is given up.
unfoldable pub reserve_from : (ℕ → ℕ) → ℕ → ℕ → ℕ → Option ℕ
reserve_from thread_ids start_index zero i = none
reserve_from thread_ids start_index (suc left) i =
    let index = (start_index + i) % max_thread_num in
    let rest = reserve_from thread_ids start_index left (i + 1) in
    if thread_ids index == 0 then some index else rest

unfoldable pub reserve_entry : (ℕ → ℕ) → ℕ → ℕ → Option ((ℕ → ℕ) × ℕ)
unfolding reserve_from
reserve_entry thread_ids start_index thread_id =
    elim (reserve_from thread_ids start_index max_thread_num 0) [
      | none ↦ none
      | some index ↦ some (update thread_ids index thread_id, index)
    ]
