-- ===== src/Recycle/Safety.antt =====
-- What the recyclers free.
use pet_ps.Common.{
  ℕ, ◌+◌, ◌<◌, ◌≤◌, Bool, true, false, List, [], ◌∷◌, ◌++◌, ltb, ◌==◌, if◌then◌else◌, ◌≡◌, refl, ap,
  sym, ◌∙◌, arith, Bool-cases, inl, inr, ltb→lt,
}
use mathlib.Core.List.{Memᴰ}
use mathlib.Core.List.Memᴰ
use pet_ps.Common.Outcome.{Outcome, done, fatal, spin, ◌>>=◌}
use pet_ps.Recycle.{checked_free, drain, clear, delayed_recycle}

-- The part of the queue that is due, from its front, and the rest.
abbrev pub ready : (ℕ → Bool) → List (ℕ × ℕ) → List (ℕ × ℕ)
ready due [] = []
ready due ((stamp, ptr) ∷ queue) = if due stamp then (stamp, ptr) ∷ ready due queue else []

abbrev pub waiting : (ℕ → Bool) → List (ℕ × ℕ) → List (ℕ × ℕ)
waiting due [] = []
waiting due ((stamp, ptr) ∷ queue) = if due stamp then waiting due queue else (stamp, ptr) ∷ queue

ready-waiting :
    (due : ℕ → Bool) (queue : List (ℕ × ℕ)) → queue ≡ ready due queue ++ waiting due queue
ready-waiting due [] = refl
ready-waiting due ((stamp, ptr) ∷ queue) = elim (Bool-cases (due stamp)) [
  | inl late ↦ rw late (ap (λ q. (stamp, ptr) ∷ q) (ready-waiting due queue))
  | inr early ↦ rw early refl
]

ready-due :
    (due : ℕ → Bool) (queue : List (ℕ × ℕ)) (r p : ℕ) → Memᴰ (r, p) (ready due queue) → due r ≡ true
ready-due due [] r p m = absurd (Memᴰ.not-nil m)
ready-due due ((stamp, ptr) ∷ queue) r p m = elim (Bool-cases (due stamp)) [
  | inr early ↦ let m' : Memᴰ (r, p) [] = rw early at m in absurd (Memᴰ.not-nil m')
  | inl late ↦
      let m' : Memᴰ (r, p) ((stamp, ptr) ∷ ready due queue) = rw late at m in
      elim (Memᴰ.cases_cons m') [
        | inl e ↦ ap (λ (x : ℕ × ℕ). due x.0) e ∙ late
        | inr rest ↦ ready-due due queue r p rest
      ]
]

abbrev first_entry : List (ℕ × ℕ) → ℕ × ℕ
first_entry [] = (0, 0)
first_entry (entry ∷ queue) = entry

-- What stays has a front that is not due.
waiting-front :
    (due : ℕ → Bool) (queue : List (ℕ × ℕ)) (r p : ℕ) (more : List (ℕ × ℕ))
    → waiting due queue ≡ (r, p) ∷ more
    → due r ≡ false
waiting-front due [] r p more h = absurd (cc h)
waiting-front due ((stamp, ptr) ∷ queue) r p more h = elim (Bool-cases (due stamp)) [
  | inl late ↦ waiting-front due queue r p more (rw late at h)
  | inr early ↦
      let h' : (stamp, ptr) ∷ queue ≡ (r, p) ∷ more = rw early at h in
      ap (λ (q : List (ℕ × ℕ)). due (first_entry q).0) (sym h') ∙ early
]

bind_assoc {ℓ κ μ} :
    {A : Type ℓ} {B : Type κ} {C : Type μ} (r : Outcome A) (f : A → Outcome B) (g : B → Outcome C)
    → ((r >>= f) >>= g) ≡ (r >>= λ a. f a >>= g)
bind_assoc (done a) f g = refl
bind_assoc fatal f g = refl
bind_assoc spin f g = refl

bind_congr {ℓ κ} :
    {A : Type ℓ} {B : Type κ} (r : Outcome A) (f g : A → Outcome B)
    → ((a : A) → f a ≡ g a)
    → (r >>= f) ≡ (r >>= g)
bind_congr (done a) f g h = h a
bind_congr fatal f g h = refl
bind_congr spin f g h = refl

module _ {ℓ} {Heap : Type ℓ} (free : Heap → ℕ → Heap × Bool) where
  -- The loop frees what is due, in order, and leaves the rest.
  pub drain-ready :
      (due : ℕ → Bool) (queue : List (ℕ × ℕ)) (h : Heap)
      → drain free due queue h
        ≡ (clear free (ready due queue) h >>= λ h'. done (waiting due queue, h'))
  unfolding drain clear
  drain-ready due [] h = refl
  drain-ready due ((stamp, ptr) ∷ queue) h = elim (Bool-cases (due stamp)) [
    | inr early ↦ rw (drain, early) refl
    | inl late ↦
        rw (drain, late)
          (bind_congr (checked_free free h ptr) _ _ (λ h'. drain-ready due queue h')
            ∙ sym (bind_assoc (checked_free free h ptr) _ _))
  ]

  -- `DelayedRecycle::Recycle` with a delay frees, in the queue's order, the longest front part of the
  -- queue, behind which the new pointer stands, whose entries were all pushed longer ago than the delay;
  -- the rest of the queue stays as it is.
  pub delayed_recycle-ready :
      (delay_ts pushed_at now ptr : ℕ) (queue : List (ℕ × ℕ)) (h : Heap)
      → let queue' = if ptr == 0 then queue else queue ++ ((pushed_at, ptr) ∷ []) in
        (freed : List (ℕ × ℕ)) × (rest : List (ℕ × ℕ)) × (delayed_recycle free delay_ts pushed_at
            now queue h ptr
          ≡ (clear free freed h >>= λ h'. done (rest, h')))
        × (queue' ≡ freed ++ rest)
        × ((r p : ℕ) → Memᴰ (r, p) freed → r + delay_ts < now)
        × ((r p : ℕ) (more : List (ℕ × ℕ)) → rest ≡ (r, p) ∷ more → now ≤ r + delay_ts)
  unfolding delayed_recycle
  delayed_recycle-ready delay_ts pushed_at now ptr queue h =
      let due = λ (stamp : ℕ). ltb (stamp + delay_ts) now in
      let queue' = if ptr == 0 then queue else queue ++ ((pushed_at, ptr) ∷ []) in
      (
        ready due queue',
        waiting due queue',
        drain-ready due queue' h,
        ready-waiting due queue',
        λ r p m. ltb→lt (r + delay_ts) now (ready-due due queue' r p m),
        λ r p more e. ground (arith, waiting-front due queue' r p more e),
      )
