-- ===== src/Recycle.antt =====
-- src/memory/malloc.h: the recyclers, which keep freed memory until no reader can hold it.
-- The allocator behind `MallocApi` is a type `Heap` of states with its `free`, whose Boolean is the
-- one that the recyclers check. A pointer is a number, 0 the null pointer.
pub mod Safety
use pet_ps.Common.{
  ℕ, zero, suc, ◌+◌, ◌-◌, ◌%◌, ◌^◌, Bool, true, false, not, List, [], ◌∷◌, ◌++◌, length, ltb, ◌==◌,
  if◌then◌else◌,
}
use pet_ps.Common.Outcome.{Outcome, done, fatal, ◌>>=◌}
use pet_ps.Epoch.{EpochManager, bump_current_epoch, is_safe_to_reclaim}

module _ {ℓ} {Heap : Type ℓ} (free : Heap → ℕ → Heap × Bool) where
  -- `CHECK(malloc_->Free(…))`
  unfoldable pub checked_free : Heap → ℕ → Outcome Heap
  checked_free h ptr = let (h', ok) = free h ptr in if ok then done h' else fatal

  -- The loop that frees from the front of `recycle_ptr_` while `due` holds of the stamp there.
  unfoldable pub drain : (ℕ → Bool) → List (ℕ × ℕ) → Heap → Outcome (List (ℕ × ℕ) × Heap)
  drain due [] h = done ([], h)
  drain due ((stamp, ptr) ∷ queue) h = elim (due stamp) [
    | true ↦ checked_free h ptr >>= λ h'. drain due queue h'
    | false ↦ done ((stamp, ptr) ∷ queue, h)
  ]

  -- `Clear`
  unfoldable pub clear : List (ℕ × ℕ) → Heap → Outcome Heap
  clear [] h = done h
  clear ((stamp, ptr) ∷ queue) h = checked_free h ptr >>= λ h'. clear queue h'

  unfoldable pub direct_recycle : Heap → ℕ → Heap
  direct_recycle h ptr = (free h ptr).0

  -- `DelayedRecycle::Recycle`, with the two readings of the clock. `front().first < now - delay_ts_`
  -- compares signed numbers and is written as a sum.
  unfoldable pub delayed_recycle :
      ℕ → ℕ → ℕ → List (ℕ × ℕ) → Heap → ℕ → Outcome (List (ℕ × ℕ) × Heap)
  unfolding drain
  delayed_recycle delay_ts pushed_at now queue h ptr =
      let queue' = if ptr == 0 then queue else queue ++ ((pushed_at, ptr) ∷ []) in
      drain (λ stamp. ltb (stamp + delay_ts) now) queue' h

  -- `ShmEpochRecycle`, with the epoch manager that it shares with the readers.
  pub record EpochRecycle : Type ℓ where
    pub malloc : Heap
    pub epoch_manager : EpochManager
    pub recycle_ptr : List (ℕ × ℕ)
    pub recycled_count : ℕ

  unfoldable pub pushed : EpochRecycle → ℕ → EpochRecycle
  pushed s ptr = record s {
    recycled_count = s.recycled_count + 1;
    recycle_ptr =
        if ptr == 0
        then s.recycle_ptr
        else s.recycle_ptr ++ ((s.epoch_manager.current_epoch, ptr) ∷ []);
  }

  unfoldable pub bumped : EpochRecycle → EpochRecycle
  bumped s = record s {
    epoch_manager =
        if s.recycled_count % 1000 == 0
        then bump_current_epoch s.epoch_manager
        else s.epoch_manager;
  }

  unfoldable pub recycle : EpochRecycle → ℕ → Outcome EpochRecycle
  recycle s ptr =
      let s' = bumped (pushed s ptr) in
      drain (is_safe_to_reclaim s'.epoch_manager) s'.recycle_ptr s'.malloc >>= λ (queue, h).
      done (record s' { recycle_ptr = queue; malloc = h })
