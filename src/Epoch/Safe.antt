-- ===== src/Epoch/Safe.antt =====
-- The safe epoch lies before every protected one.
use pet_ps.Common.{
  ℕ, zero, suc, ◌+◌, ◌^◌, ◌<◌, ◌≤◌, not, ◌&&◌, Option, none, some, List, [], ◌∷◌, count,
  count-append, ltb, ◌==◌, if◌then◌else◌, update, ◌≡◌, refl, ap, sym, ◌∙◌, arith, Bool-cases, inl,
  inr, ◌⊎◌, ==→eq, subst,
}
use pet_ps.Epoch.{
  max_thread_num, min_element, min_epoch, oldest_from, safe_epoch, scan_entry, EpochManager, start,
  protect, enque_protect, un_protect, bump_current_epoch,
}

min_element_le : (m : ℕ) (es : List ℕ) → min_element m es ≤ m
unfolding min_element
min_element_le m [] = omega arith
min_element_le m (e ∷ es) = ground (arith, min_element_le (if ltb e m then e else m) es)

min_element_lem : (m : ℕ) (es : List ℕ) (e : ℕ) → 0 < count e es → min_element m es ≤ e
unfolding min_element count
min_element_lem m [] e h = absurd (omega arith)
min_element_lem m (x ∷ es) e h =
    let next = if ltb x m then x else m in
    elim (Bool-cases (x == e)) [
      | inl same ↦ ground (arith, min_element_le next es, same)
      | inr apart ↦ min_element_lem next es e (ground (arith, h, apart))
    ]

min_element_pos : (m : ℕ) (es : List ℕ) → 0 < m → count 0 es ≡ 0 → 0 < min_element m es
unfolding min_element count
min_element_pos m [] p h = p
min_element_pos m (x ∷ es) p h =
    min_element_pos (if ltb x m then x else m) es (ground arith) (ground arith)

min_epoch_lem :
    (es : List ℕ) (e : ℕ)
    → count 0 es ≡ 0
    → 0 < count e es
    → (0 < min_epoch es) × (min_epoch es ≤ e)
unfolding min_epoch count
min_epoch_lem [] e plain h = absurd (omega arith)
min_epoch_lem (x ∷ es) e plain h = (
  min_element_pos x es (ground arith) (ground arith),
  elim (Bool-cases (x == e)) [
    | inl same ↦ ground (arith, min_element_le x es, same)
    | inr apart ↦ min_element_lem x es e (ground (arith, h, apart))
  ],
)

-- The loop's result is a lower bound of every protected epoch of the entries it passes.
oldest_from_lem :
    (table : ℕ → List ℕ) (left i oldest : ℕ)
    → ((tid : ℕ) → count 0 (table tid) ≡ 0)
    → 0 < oldest
    → (0 < oldest_from table left i oldest)
      × (oldest_from table left i oldest ≤ oldest)
      × ((tid e : ℕ)
          → i ≤ tid
          → tid < i + left
          → 0 < count e (table tid)
          → oldest_from table left i oldest ≤ e)
unfolding oldest_from
oldest_from_lem table zero i oldest plain pos =
    (pos, omega arith, λ tid e a b h. absurd (omega arith))
oldest_from_lem table (suc left) i oldest plain pos =
    let entry_epoch = min_epoch (table i) in
    let next = if not (entry_epoch == 0) && ltb entry_epoch oldest then entry_epoch else oldest in
    let (pos', down, all) = oldest_from_lem table left (i + 1) next plain (ground arith) in
    (
      pos',
      ground (arith, down),
      λ tid e a b h. elim (Bool-cases (i == tid)) [
        | inr apart ↦ all tid e (ground arith) (omega arith) h
        | inl same ↦
            ground (arith, down, min_epoch_lem (table i) e (plain i) (rw (==→eq i tid same) h))
      ],
    )

-- An `EpochManager` whose safe epoch lies before every epoch under which a thread reads, and whose
-- threads read under epochs that have begun.
pub record IsSafe (m : EpochManager) : Type 0 where
  pub begun : m.safe_to_reclaim_epoch < m.current_epoch
  pub bound : m.current_epoch < 2 ^ 64
  pub guarded :
      (tid e : ℕ)
      → tid < max_thread_num
      → 0 < count e (m.epoch_table tid)
      → (m.safe_to_reclaim_epoch < e) × (e ≤ m.current_epoch)
  pub plain : (tid : ℕ) → count 0 (m.epoch_table tid) ≡ 0

pub start-IsSafe : IsSafe start
unfolding count
start-IsSafe = record {
  begun = omega arith;
  bound = omega arith;
  guarded = λ tid e l h. absurd (omega arith);
  plain = λ tid. refl;
}

count_one : (e x : ℕ) → count e (x ∷ []) ≡ (if x == e then 1 else 0)
unfolding count
count_one e x = omega arith

pub count-enque_protect :
    (m : EpochManager) (thread epoch tid e : ℕ)
    → count e ((enque_protect thread epoch m).epoch_table tid)
      ≡ count e (m.epoch_table tid) + (if thread == tid then (if epoch == e then 1 else 0) else 0)
count-enque_protect m thread epoch tid e = elim (Bool-cases (thread == tid)) [
  | inr apart ↦ rw apart (omega arith)
  | inl same ↦
      rw (same, ==→eq thread tid same)
        (omega (arith, count-append e (m.epoch_table tid) (epoch ∷ []), count_one e epoch))
]

-- Entering a read keeps the manager safe.
pub protect-IsSafe : (m : EpochManager) (thread : ℕ) → IsSafe m → IsSafe (protect thread m)
unfolding protect
protect-IsSafe m thread v = record {
  begun = v.begun;
  bound = v.bound;
  guarded = λ tid e l h. elim (Bool-cases (m.current_epoch == e)) [
    | inl now ↦ ground (arith, v.begun, now)
    | inr other ↦
        v.guarded tid e l
          (ground (arith, h, count-enque_protect m thread m.current_epoch tid e, other))
  ];
  plain = λ tid.
      ground (arith, v.plain tid, count-enque_protect m thread m.current_epoch tid 0, v.begun);
}

list-cases : (es : List ℕ) → (es ≡ []) ⊎ ((e : ℕ) × (rest : List ℕ) × (es ≡ e ∷ rest))
list-cases [] = inl refl
list-cases (e ∷ rest) = inr (e, rest, refl)

abbrev value_or : EpochManager → Option EpochManager → EpochManager
value_or m none = m
value_or m (some m') = m'

-- What a deque holds after its front is gone.
popped_count :
    (m : EpochManager) (thread front : ℕ) (rest : List ℕ)
    → m.epoch_table thread ≡ front ∷ rest
    → (tid e : ℕ) → count e (update m.epoch_table thread rest tid) ≤ count e (m.epoch_table tid)
unfolding count
popped_count m thread front rest h tid e = elim (Bool-cases (thread == tid)) [
  | inr apart ↦ rw apart (omega arith)
  | inl same ↦
      let here : m.epoch_table tid ≡ front ∷ rest = rw (sym (==→eq thread tid same)) h in
      rw (same, here) (omega arith)
]

-- Leaving a read takes an epoch from the thread's deque and leaves the counter and the safe epoch.
pub un_protect-less :
    (m m' : EpochManager) (thread : ℕ)
    → un_protect thread m ≡ some m'
    → (m'.current_epoch ≡ m.current_epoch)
      × (m'.safe_to_reclaim_epoch ≡ m.safe_to_reclaim_epoch)
      × ((tid e : ℕ) → count e (m'.epoch_table tid) ≤ count e (m.epoch_table tid))
unfolding un_protect
un_protect-less m m' thread h = elim (list-cases (m.epoch_table thread)) [
  | inl empty ↦
      let run : un_protect thread m ≡ none = rw (un_protect, empty) refl in absurd (cc (run, h))
  | inr (front, rest, e) ↦
      let next : EpochManager = record m { epoch_table = update m.epoch_table thread rest } in
      let run : un_protect thread m ≡ some next = rw (un_protect, e) refl in
      let same : next ≡ m' = ap (value_or m) (sym run ∙ h) in
      subst
        (λ (x : EpochManager).
          (x.current_epoch ≡ m.current_epoch)
          × (x.safe_to_reclaim_epoch ≡ m.safe_to_reclaim_epoch)
          × ((tid x_epoch : ℕ)
              → count x_epoch (x.epoch_table tid) ≤ count x_epoch (m.epoch_table tid)))
        same (refl, refl, popped_count m thread front rest e)
]

-- A round of the loop keeps the result, or takes an entry's oldest epoch that is older.
pub scan_entry_lem :
    (es : List ℕ) (oldest : ℕ)
    → count 0 es ≡ 0
    → 0 < oldest
    → (0 < scan_entry es oldest)
      × (scan_entry es oldest ≤ oldest)
      × ((e : ℕ) → 0 < count e es → scan_entry es oldest ≤ e)
scan_entry_lem es oldest plain pos =
    (ground arith, ground arith, λ e h. ground (arith, min_epoch_lem es e plain h))

pub bump_current_epoch-IsSafe :
    (m : EpochManager) → IsSafe m → m.current_epoch + 1 < 2 ^ 64 → IsSafe (bump_current_epoch m)
unfolding bump_current_epoch safe_epoch
bump_current_epoch-IsSafe m v room =
    let (pos, down, all) =
      oldest_from_lem m.epoch_table max_thread_num 0 m.current_epoch v.plain
        (omega (arith, v.begun)) in
    record {
      begun = omega (arith, pos, down);
      bound = omega arith;
      guarded = λ tid e l h.
          omega (arith, pos, down, all tid e (omega arith) (omega arith) h, v.guarded tid e l h);
      plain = v.plain;
    }
