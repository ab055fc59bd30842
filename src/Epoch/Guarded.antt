-- ===== src/Epoch/Guarded.antt =====
-- The invariant of the interleavings of the epoch manager's steps.
use pet_ps.Common.{
  ℕ, ◌+◌, ◌^◌, ◌<◌, ◌≤◌, Option, some, count, ◌==◌, update, ◌≡◌, refl, sym, ◌∙◌, arith, Bool-cases,
  inl, inr, ◌⊎◌,
}
use pet_ps.Epoch.{max_thread_num, EpochManager}
use pet_ps.Epoch.Steps.{Bump, Run, first_run}

-- A bump's result so far lies before what it has passed, and is older than the current epoch.
pub record Covers (m : EpochManager) (b : Bump) : Type 0 where
  pub pos : 0 < b.oldest_call
  pub older : b.oldest_call < m.current_epoch
  pub passed :
      (tid e : ℕ)
      → tid < max_thread_num
      → 0 < count e (m.epoch_table tid)
      → (b.oldest_call ≤ e) ⊎ (b.next ≤ tid)

pub record IsGuarded (s : Run) : Type 0 where
  pub pos : 0 < s.manager.current_epoch
  pub bound : s.manager.current_epoch < 2 ^ 64
  pub stored :
      (s.manager.safe_to_reclaim_epoch ≡ 0)
      ⊎ (s.manager.safe_to_reclaim_epoch + 2 ≤ s.manager.current_epoch)
  pub held : (thread epoch : ℕ) → s.loaded thread ≡ some epoch → 0 < epoch
  pub guarded :
      (tid e : ℕ)
      → tid < max_thread_num
      → 0 < count e (s.manager.epoch_table tid)
      → s.manager.safe_to_reclaim_epoch < e
  pub plain : (tid : ℕ) → count 0 (s.manager.epoch_table tid) ≡ 0
  pub covered : (thread : ℕ) (b : Bump) → s.bumping thread ≡ some b → Covers s.manager b

pub first_run-IsGuarded : IsGuarded first_run
unfolding count
first_run-IsGuarded = record {
  pos = omega arith;
  bound = omega arith;
  stored = inl refl;
  held = λ thread epoch h. absurd (cc h);
  guarded = λ tid e l h. absurd (omega (arith, h));
  plain = λ tid. refl;
  covered = λ thread b h. absurd (cc h);
}

pub update-cases {ℓ} :
    {A : Type ℓ} (f : ℕ → A) (i : ℕ) (v : A) (j : ℕ) → (update f i v j ≡ v) ⊎ (update f i v j ≡ f j)
update-cases f i v j = elim (Bool-cases (i == j)) [
  | inl same ↦ inl (rw same refl)
  | inr apart ↦ inr (rw apart refl)
]

pub some_injective {ℓ} : {A : Type ℓ} {a b : A} → some a ≡ some b → a ≡ b
some_injective h = cc h

-- What is found after an update was written or was there.
pub update-some {ℓ} :
    {A : Type ℓ} (f : ℕ → Option A) (i : ℕ) (v : Option A) (j : ℕ) (x : A)
    → update f i v j ≡ some x
    → (v ≡ some x) ⊎ (f j ≡ some x)
update-some f i v j x h = elim (update-cases f i v j) [
  | inl e ↦ inl (sym e ∙ h)
  | inr e ↦ inr (sym e ∙ h)
]
