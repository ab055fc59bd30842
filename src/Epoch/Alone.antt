-- ===== src/Epoch/Alone.antt =====
-- The steps of one operation of the epoch manager with no other step between them.
use pet_ps.Common.{
  ℕ, zero, suc, ◌+◌, ◌^◌, ◌<◌, Option, none, some, update, ◌≡◌, refl, ap, sym, arith, eq→==,
}
use pet_ps.Epoch.{
  max_thread_num, EpochManager, protect, bump_current_epoch, fetch_add, store_safe, epoch_before,
  scan_entry, safe_epoch, oldest_from,
}
use pet_ps.Epoch.Steps.{Bump, Run, Reachable, stepped, loads, pushes, adds, scans, stores}

update-here {ℓ} : {A : Type ℓ} (f : ℕ → A) (i : ℕ) (v : A) → update f i v i ≡ v
update-here f i v = rw (eq→== i i refl) refl

-- What an operation that is run alone reaches.
abbrev pub Reaches : ℕ → Run → EpochManager → (ℕ → Option ℕ) → ℕ → Option Bump → Type 0
Reaches lag s m loaded thread bump =
    (s' : Run) × Reachable lag s'
    × (s'.manager ≡ m)
    × (s'.loaded ≡ loaded)
    × (s'.bumping thread ≡ bump)

-- A bump's scans lead to the result of the loop of `ComputeNewSafeToReclaimEpoch`.
scans-oldest_from :
    (lag left i oldest thread : ℕ) (s : Run)
    → i + left ≡ max_thread_num
    → s.bumping thread ≡ some (record { next = i; oldest_call = oldest })
    → Reachable lag s
    → Reaches lag s s.manager s.loaded thread (
        some (record {
          next = max_thread_num;
          oldest_call = oldest_from s.manager.epoch_table left i oldest;
        }))
unfolding oldest_from
scans-oldest_from lag zero i oldest thread s whole h r =
    let last : i ≡ max_thread_num = omega arith in (s, r, refl, refl, rw (sym last) h)
scans-oldest_from lag (suc left) i oldest thread s whole h r =
    let b : Bump = record { next = i; oldest_call = oldest } in
    let b' : Bump = record {
      next = i + 1;
      oldest_call = scan_entry (s.manager.epoch_table i) oldest;
    } in
    let s' : Run = record s { bumping = update s.bumping thread (some b') } in
    scans-oldest_from lag left (i + 1) b'.oldest_call thread s' (omega arith)
      (update-here s.bumping thread (some b')) (stepped r (scans thread b h (omega arith)))

-- The steps of a bump lead to what `BumpCurrentEpoch` gives.
pub bumps-bump_current_epoch :
    (lag thread : ℕ) (s : Run)
    → s.bumping thread ≡ none
    → s.manager.current_epoch + 1 < 2 ^ 64
    → Reachable lag s
    → Reaches lag s (bump_current_epoch s.manager) s.loaded thread none
unfolding bump_current_epoch safe_epoch
bumps-bump_current_epoch lag thread s idle room r =
    let b : Bump = record { next = 0; oldest_call = s.manager.current_epoch } in
    let s1 : Run = record s {
      manager = fetch_add s.manager;
      bumping = update s.bumping thread (some b);
    } in
    let (s2, r2, m2, l2, b2) =
      scans-oldest_from lag max_thread_num 0 s.manager.current_epoch thread s1 (omega arith)
        (update-here s.bumping thread (some b)) (stepped r (adds thread idle room)) in
    let oldest = oldest_from s.manager.epoch_table max_thread_num 0 s.manager.current_epoch in
    (
      record s2 {
        manager = store_safe (epoch_before oldest) s2.manager;
        bumping = update s2.bumping thread none;
      },
      stepped r2 (stores thread (record { next = max_thread_num; oldest_call = oldest }) b2 refl),
      ap (store_safe (epoch_before oldest)) m2,
      l2,
      update-here s2.bumping thread none,
    )

-- The steps of an entry into a read lead to what `Protect` gives.
pub protects-protect :
    (lag thread : ℕ) (s : Run)
    → s.loaded thread ≡ none
    → Reachable lag s
    → (s' : Run) × Reachable lag s'
      × (s'.manager ≡ protect thread s.manager)
      × (s'.bumping ≡ s.bumping)
unfolding protect
protects-protect lag thread s idle r =
    let s1 : Run = record s { loaded = update s.loaded thread (some s.manager.current_epoch) } in
    (
      _,
      stepped (stepped r (loads thread idle)) (
          pushes {s = s1} thread s.manager.current_epoch
            (update-here s.loaded thread (some s.manager.current_epoch)) (omega arith)),
      refl,
      refl,
    )
