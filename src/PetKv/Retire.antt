-- ===== src/PetKv/Retire.antt =====
-- A value that is replaced goes to the recycler.
use pet_ps.Common.{
  ℕ, ◌+◌, Bool, List, [], ◌∷◌, ◌++◌, count, count-append, ◌==◌, if◌then◌else◌, ◌≡◌, ◌≢◌, refl, ap,
  ◌∙◌, arith, inl, inr, eq_cases, ne→==, subst,
}
use pet_ps.Common.Outcome.{done, Returns}
use pet_ps.Epoch.{is_safe_to_reclaim}
use pet_ps.MemoryPool.{MemoryPool}
use pet_ps.MemoryPool.Sized.{free}
use pet_ps.MemoryPool.Slabs.{Slab}
use pet_ps.MemoryPool.Placement.{meta_of}
use pet_ps.Recycle.{EpochRecycle, drain, pushed, bumped, recycle}
use pet_ps.PetKv.Queue.{pointers, pointers-append, IsQueue, Drained, drain-Drained}

module _ (perfect : Bool) where
  -- The queue after the push.
  abbrev pub longer : EpochRecycle (free perfect) → ℕ → List (ℕ × ℕ)
  longer s ptr = s.recycle_ptr ++ ((s.epoch_manager.current_epoch, ptr) ∷ [])

  pub recycle-Drained :
      (s : EpochRecycle (free perfect)) (ptr : ℕ)
      → ptr ≢ 0
      → IsQueue perfect s.malloc (longer s ptr)
      → Returns
          (recycle (free perfect) s ptr)
          (λ s'. Drained perfect s.malloc (longer s ptr) (s'.recycle_ptr, s'.malloc))
  unfolding recycle bumped pushed
  recycle-Drained s ptr ne v =
      let s' = bumped (free perfect) (pushed (free perfect) s ptr) in
      let due = is_safe_to_reclaim s'.epoch_manager in
      let same : s'.recycle_ptr ≡ longer s ptr = rw (ne→== ptr 0 ne) refl in
      let (r, run, d) = drain-Drained perfect due (longer s ptr) s.malloc v in
      let run' : drain (free perfect) due s'.recycle_ptr s'.malloc ≡ done r =
        ap (λ q. drain (free perfect) due q s.malloc) same ∙ run in
      (record s' { recycle_ptr = r.0; malloc = r.1 }, rw run' refl, d)

  count-longer :
      (x ptr stamp : ℕ) (queue : List (ℕ × ℕ))
      → count x (pointers (queue ++ ((stamp, ptr) ∷ [])))
        ≡ count x (pointers queue) + (if ptr == x then 1 else 0)
  unfolding count
  count-longer x ptr stamp queue =
      ap (count x) (pointers-append queue ((stamp, ptr) ∷ []))
      ∙ count-append x (pointers queue) (ptr ∷ [])
      ∙ ap (λ (n : ℕ). count x (pointers queue) + n) (omega arith)

  pub longer_absent :
      (x ptr stamp : ℕ) (queue : List (ℕ × ℕ))
      → count x (pointers queue) ≡ 0
      → x ≢ ptr
      → count x (pointers (queue ++ ((stamp, ptr) ∷ []))) ≡ 0
  longer_absent x ptr stamp queue h ne = ground (arith, count-longer x ptr stamp queue, h, ne)

  -- A slab that is not in the queue joins it.
  pub longer-IsQueue :
      (p : MemoryPool) (ptr stamp : ℕ) (queue : List (ℕ × ℕ))
      → IsQueue perfect p queue
      → Slab (meta_of perfect) p ptr 0
      → count ptr (pointers queue) ≡ 0
      → IsQueue perfect p (queue ++ ((stamp, ptr) ∷ []))
  longer-IsQueue p ptr stamp queue v s fresh = record {
    sound = v.sound;
    held = λ x h. elim (eq_cases ptr x) [
      | inl e ↦ subst (λ y. Slab (meta_of perfect) p y 0) e s
      | inr ne ↦ v.held x (ground (arith, count-longer x ptr stamp queue, h, ne))
    ];
    once = λ x. elim (eq_cases ptr x) [
      | inl e ↦
          let fresh' : count x (pointers queue) ≡ 0 =
            subst (λ y. count y (pointers queue) ≡ 0) e fresh in
          ground (arith, count-longer x ptr stamp queue, fresh')
      | inr ne ↦ ground (arith, count-longer x ptr stamp queue, v.once x, ne)
    ];
  }
