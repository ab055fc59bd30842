-- ===== src/Epoch/Steps.antt =====
-- The runs of the epoch manager: any interleaving of the steps of its threads' operations.
-- `Protect` loads the current epoch and then pushes it; `BumpCurrentEpoch` adds to the counter, then
-- scans the table's entries one by one, and then stores the safe epoch. Each of these is one step.
use pet_ps.Common.{ℕ, ◌+◌, ◌^◌, ◌<◌, ◌≤◌, Option, some, none, update, ◌≡◌}
use pet_ps.Epoch.{
  max_thread_num, EpochManager, start, enque_protect, un_protect, fetch_add, store_safe, scan_entry,
  epoch_before,
}

-- A bump that has begun: the entries that its loop has passed, and the oldest epoch so far.
pub record Bump : Type 0 where
  pub next : ℕ
  pub oldest_call : ℕ

-- The manager, the epoch that a thread has loaded and not yet pushed, and the bumps that have begun.
pub record Run : Type 0 where
  pub manager : EpochManager
  pub loaded : ℕ → Option ℕ
  pub bumping : ℕ → Option Bump

abbrev pub first_run : Run
first_run = record { manager = start; loaded = λ _. none; bumping = λ _. none }

-- One step of one thread, where at most `lag` bumps begin between a load and its push, and the counter
-- of epochs is not bumped past 64 bits.
pub data Step (lag : ℕ) : Run → Run → Type 0 where
  loads :
      {s : Run} (thread : ℕ)
      → s.loaded thread ≡ none
      → Step lag s (record s { loaded = update s.loaded thread (some s.manager.current_epoch) })
  pushes :
      {s : Run} (thread epoch : ℕ)
      → s.loaded thread ≡ some epoch
      → s.manager.current_epoch ≤ epoch + lag
      → Step lag s (record s {
        manager = enque_protect thread epoch s.manager;
        loaded = update s.loaded thread none;
      })
  leaves :
      {s : Run} {m : EpochManager} (thread : ℕ)
      → un_protect thread s.manager ≡ some m
      → Step lag s (record s { manager = m })
  adds :
      {s : Run} (thread : ℕ)
      → s.bumping thread ≡ none
      → s.manager.current_epoch + 1 < 2 ^ 64
      → Step lag s (record s {
        manager = fetch_add s.manager;
        bumping =
            update s.bumping thread
              (some (record { next = 0; oldest_call = s.manager.current_epoch }));
      })
  scans :
      {s : Run} (thread : ℕ) (b : Bump)
      → s.bumping thread ≡ some b
      → b.next < max_thread_num
      → Step lag s (record s {
        bumping = update s.bumping thread (
            some (record {
              next = b.next + 1;
              oldest_call = scan_entry (s.manager.epoch_table b.next) b.oldest_call;
            }));
      })
  stores :
      {s : Run} (thread : ℕ) (b : Bump)
      → s.bumping thread ≡ some b
      → b.next ≡ max_thread_num
      → Step lag s (record s {
        manager = store_safe (epoch_before b.oldest_call) s.manager;
        bumping = update s.bumping thread none;
      })

pub data Reachable (lag : ℕ) : Run → Type 0 where
  started : Reachable lag first_run
  stepped : {s s' : Run} → Reachable lag s → Step lag s s' → Reachable lag s'
