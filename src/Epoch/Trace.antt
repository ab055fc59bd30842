-- ===== src/Epoch/Trace.antt =====
-- What holds in every interleaving of the steps of the epoch manager's operations.
use pet_ps.Common.{ℕ, ◌<◌, ◌≤◌, false, count, ◌≡◌, arith}
use pet_ps.Epoch.{max_thread_num, is_safe_to_reclaim}
use pet_ps.Epoch.Steps.{
  Run, Step, loads, pushes, leaves, adds, scans, stores, Reachable, started, stepped,
}
use pet_ps.Epoch.Guarded.{IsGuarded, first_run-IsGuarded}
use pet_ps.Epoch.Kept.{
  loads-IsGuarded, pushes-IsGuarded, leaves-IsGuarded, adds-IsGuarded, scans-IsGuarded,
  stores-IsGuarded,
}

Step-IsGuarded : {lag : ℕ} {s s' : Run} → lag ≤ 1 → IsGuarded s → Step lag s s' → IsGuarded s'
Step-IsGuarded {lag} {s} few v (loads thread h) = loads-IsGuarded s thread v
Step-IsGuarded {lag} {s} few v (pushes thread epoch h late) =
    pushes-IsGuarded s thread epoch v h (omega arith)
Step-IsGuarded {lag} {s} few v (leaves {m = m} thread h) = leaves-IsGuarded s m thread v h
Step-IsGuarded {lag} {s} few v (adds thread h room) = adds-IsGuarded s thread v room
Step-IsGuarded {lag} {s} few v (scans thread b h l) = scans-IsGuarded s thread b v h
Step-IsGuarded {lag} {s} few v (stores thread b h l) = stores-IsGuarded s thread b v h l

Reachable-IsGuarded : {lag : ℕ} {s : Run} → lag ≤ 1 → Reachable lag s → IsGuarded s
Reachable-IsGuarded few started = first_run-IsGuarded
Reachable-IsGuarded few (stepped r st) = Step-IsGuarded few (Reachable-IsGuarded few r) st

-- In every state that the threads' steps reach from the first one, the loads, pushes, pops, additions,
-- scans of one entry and stores of several readers and bumps in any order, with at most one bump begun
-- between a reader's load and its push and no bump past 64 bits: what was removed in an epoch in which a
-- thread still reads, or in a later one, is not safe to reclaim.
pub Reachable-not_reclaimed :
    {lag : ℕ} {s : Run} (thread read_epoch removal_epoch : ℕ)
    → lag ≤ 1
    → Reachable lag s
    → thread < max_thread_num
    → 0 < count read_epoch (s.manager.epoch_table thread)
    → read_epoch ≤ removal_epoch
    → is_safe_to_reclaim s.manager removal_epoch ≡ false
unfolding is_safe_to_reclaim
Reachable-not_reclaimed thread read_epoch removal_epoch few r l h later =
    ground (arith, (Reachable-IsGuarded few r).guarded thread read_epoch l h)
