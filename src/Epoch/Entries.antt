-- ===== src/Epoch/Entries.antt =====
-- The entry that a thread reserves.
use pet_ps.Common.{
  ℕ, zero, suc, ◌+◌, ◌-◌, ◌%◌, ◌<◌, ◌≤◌, Option, none, some, ◌==◌, if◌then◌else◌, ◌≡◌, ◌≢◌, refl,
  ap, sym, ◌∙◌, arith, Bool-cases, Option-cases, inl, inr, ==→eq, ==→ne,
}
use pet_ps.Epoch.{max_thread_num, reserve_from, reserve_entry}

-- What a pass over the entries may answer.
abbrev pub IsReserved : (ℕ → ℕ) → ℕ → Option ((ℕ → ℕ) × ℕ) → Type 0
IsReserved thread_ids thread_id none = (index : ℕ) → index < max_thread_num → thread_ids index ≢ 0
IsReserved thread_ids thread_id (some (thread_ids', index)) =
    (index < max_thread_num)
    × (thread_ids index ≡ 0)
    × ((i : ℕ) → thread_ids' i ≡ (if index == i then thread_id else thread_ids i))

abbrev IsFree : (ℕ → ℕ) → ℕ → ℕ → ℕ → Option ℕ → Type 0
IsFree thread_ids start_index left i none =
    (j : ℕ) → i ≤ j → j < i + left → thread_ids ((start_index + j) % max_thread_num) ≢ 0
IsFree thread_ids start_index left i (some index) =
    (index < max_thread_num) × (thread_ids index ≡ 0)

reserve_from_lem :
    (thread_ids : ℕ → ℕ) (start_index left i : ℕ)
    → IsFree thread_ids start_index left i (reserve_from thread_ids start_index left i)
unfolding reserve_from
reserve_from_lem thread_ids start_index zero i = λ j a b. absurd (omega arith)
reserve_from_lem thread_ids start_index (suc left) i =
    let index = (start_index + i) % max_thread_num in
    let rest = reserve_from_lem thread_ids start_index left (i + 1) in
    elim (Bool-cases (thread_ids index == 0)) [
      | inl free ↦ rw free (omega arith, ==→eq _ 0 free)
      | inr taken ↦
          rw taken (elim (Option-cases (reserve_from thread_ids start_index left (i + 1))) [
            | inr (x, e) ↦ rw e (rw e at rest)
            | inl e ↦ rw e (λ j a b. elim (Bool-cases (i == j)) [
              | inl same ↦ rw (sym (==→eq i j same)) (==→ne _ 0 taken)
              | inr apart ↦ (rw e at rest) j (omega (arith, ==→ne i j apart)) (omega arith)
            ])
          ])
    ]

-- A pass of `ReserveEntry` gives the thread an entry that no thread has, and changes no other; it
-- finds none only when every entry is taken.
pub reserve_entry_lem :
    (thread_ids : ℕ → ℕ) (start_index thread_id : ℕ)
    → IsReserved thread_ids thread_id (reserve_entry thread_ids start_index thread_id)
unfolding reserve_entry
reserve_entry_lem thread_ids start_index thread_id =
    let free = reserve_from_lem thread_ids start_index max_thread_num 0 in
    elim (Option-cases (reserve_from thread_ids start_index max_thread_num 0)) [
      | inr (index, e) ↦
          let (l, z) : IsFree thread_ids start_index max_thread_num 0 (some index) = rw e at free in
          rw (IsReserved, e) (l, z, λ i. refl)
      | inl e ↦
          let none_free : IsFree thread_ids start_index max_thread_num 0 none = rw e at free in
          rw (IsReserved, e)
            (λ index l.
              let j = (index + (max_thread_num - start_index % max_thread_num)) % max_thread_num in
              let place : (start_index + j) % max_thread_num ≡ index = omega arith in
              λ z. none_free j (omega arith) (omega arith) (ap thread_ids place ∙ z))
    ]
