-- ===== src/Epoch/Kept.antt =====
-- Every step of the epoch manager's operations keeps the invariant.
use pet_ps.Common.{
  ℕ, ◌+◌, ◌^◌, ◌<◌, ◌≤◌, some, none, count, ◌==◌, update, ◌≡◌, arith, Bool-cases, inl, inr, ==→eq,
  ==→ne, subst,
}
use pet_ps.Epoch.{
  max_thread_num, EpochManager, enque_protect, un_protect, fetch_add, store_safe, scan_entry,
  epoch_before,
}
use pet_ps.Epoch.Safe.{count-enque_protect, un_protect-less, scan_entry_lem}
use pet_ps.Epoch.Steps.{Bump, Run}
use pet_ps.Epoch.Guarded.{Covers, IsGuarded, some_injective, update-some}

pub loads-IsGuarded :
    (s : Run) (thread : ℕ)
    → IsGuarded s
    → IsGuarded (record s { loaded = update s.loaded thread (some s.manager.current_epoch) })
loads-IsGuarded s thread v = record {
  pos = v.pos;
  bound = v.bound;
  stored = v.stored;
  held = λ tid epoch h.
      elim (update-some s.loaded thread (some s.manager.current_epoch) tid epoch h) [
        | inl now ↦ omega (arith, v.pos, some_injective now)
        | inr before ↦ v.held tid epoch before
      ];
  guarded = v.guarded;
  plain = v.plain;
  covered = v.covered;
}

-- An entry that is pushed at most one bump late is guarded by the safe epoch and by every bump.
pub pushes-IsGuarded :
    (s : Run) (thread epoch : ℕ)
    → IsGuarded s
    → s.loaded thread ≡ some epoch
    → s.manager.current_epoch ≤ epoch + 1
    → IsGuarded (record s {
      manager = enque_protect thread epoch s.manager;
      loaded = update s.loaded thread none;
    })
pushes-IsGuarded s thread epoch v h late =
    let grown = count-enque_protect s.manager thread epoch in
    record {
      pos = v.pos;
      bound = v.bound;
      stored = v.stored;
      held = λ tid e k. elim (update-some s.loaded thread none tid e k) [
        | inl never ↦ absurd (cc never)
        | inr before ↦ v.held tid e before
      ];
      guarded = λ tid e l k. elim (Bool-cases (epoch == e)) [
        | inr other ↦ v.guarded tid e l (ground (arith, k, grown tid e, other))
        | inl same ↦ elim v.stored [
          | inl none_yet ↦ ground (arith, none_yet, v.held thread epoch h, same)
          | inr before ↦ ground (arith, before, late, same)
        ]
      ];
      plain = λ tid. ground (arith, v.plain tid, grown tid 0, v.held thread epoch h);
      covered = λ bumper b k.
          let c = v.covered bumper b k in
          record {
            pos = c.pos;
            older = c.older;
            passed = λ tid e l m. elim (Bool-cases (epoch == e)) [
              | inr other ↦ c.passed tid e l (ground (arith, m, grown tid e, other))
              | inl same ↦ inl (ground (arith, c.older, late, same))
            ];
          };
    }

pub leaves-IsGuarded :
    (s : Run) (m : EpochManager) (thread : ℕ)
    → IsGuarded s
    → un_protect thread s.manager ≡ some m
    → IsGuarded (record s { manager = m })
leaves-IsGuarded s m thread v h =
    let (epoch, safe, less) = un_protect-less s.manager m thread h in
    record {
      pos = rw epoch v.pos;
      bound = rw epoch v.bound;
      stored = rw (epoch, safe) v.stored;
      held = v.held;
      guarded = λ tid e l k. rw safe (v.guarded tid e l (omega (arith, k, less tid e)));
      plain = λ tid. omega (arith, v.plain tid, less tid 0);
      covered = λ bumper b k.
          let c = v.covered bumper b k in
          record {
            pos = c.pos;
            older = rw epoch c.older;
            passed = λ tid e l n. c.passed tid e l (omega (arith, n, less tid e));
          };
    }

pub adds-IsGuarded :
    (s : Run) (thread : ℕ)
    → IsGuarded s
    → s.manager.current_epoch + 1 < 2 ^ 64
    → IsGuarded (record s {
      manager = fetch_add s.manager;
      bumping =
          update s.bumping thread
            (some (record { next = 0; oldest_call = s.manager.current_epoch }));
    })
adds-IsGuarded s thread v room =
    let first : Bump = record { next = 0; oldest_call = s.manager.current_epoch } in
    record {
      pos = omega arith;
      bound = omega arith;
      stored = elim v.stored [ inl e ↦ inl e | inr l ↦ inr (omega (arith, l)) ];
      held = v.held;
      guarded = v.guarded;
      plain = v.plain;
      covered = λ bumper b k. elim (update-some s.bumping thread (some first) bumper b k) [
        | inl now ↦
            subst (Covers (fetch_add s.manager)) (some_injective now)
              (record { pos = v.pos; older = omega arith; passed = λ tid e l m. inr (omega arith) })
        | inr before ↦
            let c = v.covered bumper b before in
            record { pos = c.pos; older = omega (arith, c.older); passed = c.passed }
      ];
    }

abbrev pub scanned : EpochManager → Bump → Bump
scanned m b = record {
  next = b.next + 1;
  oldest_call = scan_entry (m.epoch_table b.next) b.oldest_call;
}

pub scanned-Covers :
    (m : EpochManager) (b : Bump)
    → ((tid : ℕ) → count 0 (m.epoch_table tid) ≡ 0)
    → Covers m b
    → Covers m (scanned m b)
scanned-Covers m b plain c =
    let (pos, down, all) =
      scan_entry_lem (m.epoch_table b.next) b.oldest_call (plain b.next) c.pos in
    record {
      pos = pos;
      older = omega (arith, down, c.older);
      passed = λ tid e l h. elim (Bool-cases (b.next == tid)) [
        | inl here ↦ inl (all e (rw (==→eq b.next tid here) h))
        | inr apart ↦ elim (c.passed tid e l h) [
          | inl below ↦ inl (omega (arith, down, below))
          | inr ahead ↦ inr (omega (arith, ahead, ==→ne b.next tid apart))
        ]
      ];
    }

pub scans-IsGuarded :
    (s : Run) (thread : ℕ) (b : Bump)
    → IsGuarded s
    → s.bumping thread ≡ some b
    → IsGuarded (record s { bumping = update s.bumping thread (some (scanned s.manager b)) })
scans-IsGuarded s thread b v h = record {
  pos = v.pos;
  bound = v.bound;
  stored = v.stored;
  held = v.held;
  guarded = v.guarded;
  plain = v.plain;
  covered = λ bumper x k.
      elim (update-some s.bumping thread (some (scanned s.manager b)) bumper x k) [
        | inl now ↦
            subst (Covers s.manager) (some_injective now)
              (scanned-Covers s.manager b v.plain (v.covered thread b h))
        | inr before ↦ v.covered bumper x before
      ];
}

pub stores-IsGuarded :
    (s : Run) (thread : ℕ) (b : Bump)
    → IsGuarded s
    → s.bumping thread ≡ some b
    → b.next ≡ max_thread_num
    → IsGuarded (record s {
      manager = store_safe (epoch_before b.oldest_call) s.manager;
      bumping = update s.bumping thread none;
    })
stores-IsGuarded s thread b v h whole =
    let c = v.covered thread b h in
    let safe : epoch_before b.oldest_call + 1 ≡ b.oldest_call =
      omega (arith, c.pos, c.older, v.bound) in
    record {
      pos = v.pos;
      bound = v.bound;
      stored = inr (omega (arith, safe, c.older));
      held = v.held;
      guarded = λ tid e l k. elim (c.passed tid e l k) [
        | inl below ↦ omega (arith, safe, below)
        | inr ahead ↦ absurd (omega (arith, whole, ahead, l))
      ];
      plain = v.plain;
      covered = λ bumper x k. elim (update-some s.bumping thread none bumper x k) [
        | inl never ↦ absurd (cc never)
        | inr before ↦
            let d = v.covered bumper x before in
            record { pos = d.pos; older = d.older; passed = d.passed }
      ];
    }
