-- ===== src/Tests/Memory.antt =====
-- Readers, recyclers and chunks of memory.
use pet_ps.Common.{
  ℕ, ◌+◌, ◌^◌, ◌<◌, ◌≤◌, Bool, true, false, ◌==◌, if◌then◌else◌, ◌≡◌, refl, arith, List, [], ◌∷◌,
  ◌++◌, count, inl, Option, none, some, update, ap, ◌∙◌,
}
use mathlib.Core.List.{Memᴰ}
use pet_ps.Common.Outcome.{done, ◌>>=◌}
use pet_ps.BitMap
use pet_ps.BitMap.{BitMap, number_of_ones}
use pet_ps.Epoch.{
  EpochManager, start, protect, enque_protect, bump_current_epoch, safe_epoch, oldest_from,
  min_epoch, is_safe_to_reclaim,
}
use pet_ps.Epoch.Safe.{count-enque_protect}
use pet_ps.Epoch.Steps.{Bump, Run, first_run, Reachable, started, stepped, loads, pushes}
use pet_ps.Epoch.Alone.{Reaches, bumps-bump_current_epoch, protects-protect}
use pet_ps.Epoch.Trace.{Reachable-not_reclaimed}
use pet_ps.Recycle.{clear, delayed_recycle, EpochRecycle, pushed, bumped}
use pet_ps.Recycle.Safety.{delayed_recycle-ready}
use pet_ps.Pool.{Chunk, entry, recovery, malloc, free_slab}
use pet_ps.Pool.Slab.{
  IsChunk, IsMalloced, SameSlabs, malloc-IsMalloced, free_slab-entry, recovery-IsChunk,
}

abbrev reading : EpochManager
reading = protect 3 start

-- A thread enters, and another one's bump is run alone behind it.
entered :
    (s : Run) × Reachable 1 s
    × (s.manager ≡ protect 3 first_run.manager)
    × (s.bumping ≡ first_run.bumping)
entered = protects-protect 1 3 first_run refl started

entered_room : entered.0.manager.current_epoch + 1 < 2 ^ 64
unfolding protect
entered_room = rw entered.2 (omega arith)

later : Reaches 1 entered.0 (bump_current_epoch entered.0.manager) entered.0.loaded 7 none
later =
    bumps-bump_current_epoch 1 7 entered.0 (ap (λ (b : ℕ → Option Bump). b 7) entered.3)
      entered_room entered.1

later-reading : 0 < count 1 (later.0.manager.epoch_table 3)
unfolding bump_current_epoch protect count
later-reading = rw (later.2, entered.2) (omega arith)

Reachable-not_reclaimed_example : is_safe_to_reclaim later.0.manager 1 ≡ false
Reachable-not_reclaimed_example =
    Reachable-not_reclaimed 3 1 1 (omega arith) later.1 (omega arith) later-reading (omega arith)

-- Two bumps between a load and its push: the thread reads in an epoch that is safe to reclaim.
abbrev loading : Run
loading = record first_run { loaded = update first_run.loaded 3 (some 1) }

once : Reaches 2 loading (bump_current_epoch start) loading.loaded 7 none
once = bumps-bump_current_epoch 2 7 loading refl (omega arith) (stepped started (loads 3 refl))

once_room : once.0.manager.current_epoch + 1 < 2 ^ 64
unfolding bump_current_epoch
once_room = rw once.2 (omega arith)

twice : Reaches 2 once.0 (bump_current_epoch once.0.manager) once.0.loaded 7 none
twice = bumps-bump_current_epoch 2 7 once.0 once.4 once_room once.1

twice_manager : twice.0.manager ≡ bump_current_epoch (bump_current_epoch start)
twice_manager = twice.2 ∙ ap bump_current_epoch once.2

twice_epochs : (twice.0.manager.current_epoch ≡ 3) × (is_safe_to_reclaim twice.0.manager 1 ≡ true)
unfolding bump_current_epoch safe_epoch is_safe_to_reclaim oldest_from min_epoch
twice_epochs = rw twice_manager (refl, refl)

pushed_late : Reachable 2 (record twice.0 {
  manager = enque_protect 3 1 twice.0.manager;
  loaded = update twice.0.loaded 3 none;
})
pushed_late =
    stepped twice.1 (
      pushes 3 1 (ap (λ (l : ℕ → Option ℕ). l 3) (twice.3 ∙ once.3))
        (omega (arith, twice_epochs.0)))

late_reader :
    (0 < count 1 ((enque_protect 3 1 twice.0.manager).epoch_table 3))
    × (is_safe_to_reclaim (enque_protect 3 1 twice.0.manager) 1 ≡ true)
unfolding is_safe_to_reclaim
late_reader = (omega (arith, count-enque_protect twice.0.manager 3 1 3 1), twice_epochs.1)

-- A heap that logs what is freed.
abbrev free : List ℕ → ℕ → List ℕ × Bool
free log ptr = (ptr ∷ log, true)

abbrev recycler : EpochRecycle free
recycler = record {
  malloc = [];
  epoch_manager = reading;
  recycle_ptr = (0, 16) ∷ [];
  recycled_count = 999;
}

abbrev after : EpochRecycle free
after = bumped free (pushed free recycler 8)

delayed_recycle-ready_example :
    let queue' : List (ℕ × ℕ) = (90, 8) ∷ (200, 16) ∷ [] in
    (freed : List (ℕ × ℕ)) × (rest : List (ℕ × ℕ)) × (delayed_recycle free 100 200 250
        ((90, 8) ∷ [])
        []
        16
      ≡ (clear free freed [] >>= λ h'. done (rest, h')))
    × (queue' ≡ freed ++ rest)
    × ((r p : ℕ) → Memᴰ (r, p) freed → r + 100 < 250)
    × ((r p : ℕ) (more : List (ℕ × ℕ)) → rest ≡ (r, p) ∷ more → 250 ≤ r + 100)
delayed_recycle-ready_example = delayed_recycle-ready free 100 200 250 16 ((90, 8) ∷ []) []

-- A chunk after a restart, with its first entry taken.
abbrev chunk : Chunk
chunk = record {
  is_used = true;
  slab_size = 1024;
  nr_entries = 64;
  bitmap = record { n = 64; bits = λ _. 1 };
  is_recovered = false;
  allocated_entries = 5;
}

chunk-IsChunk : IsChunk chunk
chunk-IsChunk = record {
  map = record { whole = refl; words = λ i l. omega arith };
  entries = refl;
  slab = omega arith;
  allocated = inl refl;
}

malloc-IsMalloced_example : IsMalloced 4096 (recovery chunk) (malloc 4096 chunk)
malloc-IsMalloced_example = malloc-IsMalloced 4096 chunk chunk-IsChunk

first_taken : BitMap.get chunk.bitmap 0 ≡ true
unfolding BitMap.get
first_taken = refl

free_slab-entry_example :
    let c' = free_slab 4096 chunk (entry 4096 (recovery chunk) 0) in
    IsChunk c'
    × ((q : ℕ) → BitMap.get c'.bitmap q ≡ (if 0 == q then false else BitMap.get chunk.bitmap q))
    × (c'.allocated_entries + 1 ≡ number_of_ones chunk.bitmap)
free_slab-entry_example = free_slab-entry 4096 chunk 0 chunk-IsChunk (omega arith) first_taken

recovery-IsChunk_example :
    IsChunk (recovery chunk)
    × ((recovery chunk).allocated_entries ≡ number_of_ones chunk.bitmap)
    × SameSlabs (recovery chunk) chunk
recovery-IsChunk_example = recovery-IsChunk chunk chunk-IsChunk
