-- ===== src/Load/Filled.antt =====
-- The store after a run of keys has been put by one thread of `PreLoadDB`.
use pet_ps.Common.{
  ◌*◌, ◌/◌, ◌%◌, [], length, replicate, length-append, length-replicate, ℕ, zero, suc, ◌+◌, ◌<◌,
  ◌≤◌, Bool, true, false, List, if◌then◌else◌, ◌≡◌, ◌≢◌, refl, ap, sym, ◌∙◌, subst, ◌⊎◌, inl, inr,
  arith, Bool-cases,
}
use pet_ps.Common.Outcome.{done, Returns, >>=-done}
use pet_ps.Load.{BaseKv, count_own, to_insert_keys, fill, warm_value, load_thread, load_keys}
use pet_ps.Load.Ranges.{own, number}

-- `Room n kv` says that the store takes `n` more keys. With room, `Put` of a value of `size` bytes for a
-- key that reads as nothing returns, and changes what `Get` returns for that key and for no other.
pub record IsKv {K : Type 0} (kv_api : BaseKv K) (size : ℕ) (Room : ℕ → K → Type 0) : Type 0 where
  pub stores :
      (n : ℕ) (kv : K) (key : ℕ) (bytes : List ℕ) (i : ℕ)
      → Room (suc n) kv
      → length bytes ≡ size
      → ((j : ℕ) → kv_api.get kv key j ≡ [])
      → Returns (kv_api.put kv key bytes i) (λ kv'.
        Room n kv'
        × ((j : ℕ) → kv_api.get kv' key j ≡ bytes)
        × ((other j : ℕ) → other ≢ key → kv_api.get kv' other j ≡ kv_api.get kv other j))

module _ (get_hash : ℕ → ℕ) (shards server_id : ℕ) {K : Type 0} (kv_api : BaseKv K)
    (float_bytes : ℕ → List ℕ) (value_size : ℕ) (Room : ℕ → K → Type 0) where
  abbrev mine : ℕ → Bool
  mine = own get_hash shards server_id

  abbrev total : ℕ → ℕ → ℕ
  total = number get_hash shards server_id

  abbrev warm : ℕ → List ℕ
  warm = warm_value get_hash shards server_id kv_api float_bytes value_size

  -- The server's keys from `a` to before `b` have their values, and nothing else has changed.
  pub record IsFilled (kv kv' : K) (a b : ℕ) : Type 0 where
    pub filled : (key j : ℕ) → a ≤ key → key < b → mine key ≡ true → kv_api.get kv' key j ≡ warm key
    pub foreign : (key j : ℕ) → mine key ≡ false → kv_api.get kv' key j ≡ kv_api.get kv key j
    pub outside : (key j : ℕ) → (key < a) ⊎ (b ≤ key) → kv_api.get kv' key j ≡ kv_api.get kv key j

  pub IsFilled-empty : (kv : K) (a b : ℕ) → b ≤ a → IsFilled kv kv a b
  IsFilled-empty kv a b h = record {
    filled = λ key j l m o. absurd (omega (arith, h, l, m));
    foreign = λ key j o. refl;
    outside = λ key j o. refl;
  }

  IsFilled-idle :
      (kv kv' : K) (x y a b : ℕ) → IsFilled kv kv' x y → y ≤ x → b ≤ a → IsFilled kv kv' a b
  IsFilled-idle kv kv' x y a b f h k = record {
    filled = λ key j l m o. absurd (omega (arith, k, l, m));
    foreign = f.foreign;
    outside =
        λ key j o. let split : (key < x) ⊎ (y ≤ key) = omega (arith, h) in f.outside key j split;
  }

  pub IsFilled-compose :
      (kv kv' kv'' : K) (a b c : ℕ)
      → a ≤ b
      → b ≤ c
      → IsFilled kv kv' a b
      → IsFilled kv' kv'' b c
      → IsFilled kv kv'' a c
  IsFilled-compose kv kv' kv'' a b c l m f g = record {
    filled = λ key j from to o.
        let split : (key < b) ⊎ (b ≤ key) = omega arith in
        elim split [
          | inl low ↦ g.outside key j (inl low) ∙ f.filled key j from low o
          | inr high ↦ g.filled key j high to o
        ];
    foreign = λ key j o. g.foreign key j o ∙ f.foreign key j o;
    outside =
        λ key j o. g.outside key j (ground (arith, o, l)) ∙ f.outside key j (ground (arith, o, m));
  }

  -- The server's keys from `a` to before `b` read as nothing.
  abbrev pub IsFresh : K → ℕ → ℕ → Type 0
  IsFresh kv a b = (key j : ℕ) → a ≤ key → key < b → mine key ≡ true → kv_api.get kv key j ≡ []

  pub IsFresh-rest :
      (kv kv' : K) (a b c : ℕ) → IsFilled kv kv' a b → a ≤ b → IsFresh kv a c → IsFresh kv' b c
  IsFresh-rest kv kv' a b c f l fresh key j from to o =
      f.outside key j (inr from) ∙ fresh key j (omega (arith, from, l)) to o

  abbrev pub Filled : K → ℕ → ℕ → ℕ → K → Type 0
  Filled kv a b n kv' = IsFilled kv kv' a b × Room n kv'

  length-fill :
      (key k : ℕ)
      → length (float_bytes key) ≡ 4
      → length (fill get_hash shards server_id kv_api float_bytes value_size key k) ≡ 4 * k
  unfolding fill
  length-fill key zero four = omega arith
  length-fill key (suc k) four = omega (
    arith,
    length-append (float_bytes key)
        (fill get_hash shards server_id kv_api float_bytes value_size key k),
    length-fill key k four,
    four,
  )

  length-warm : (key : ℕ) → length (float_bytes key) ≡ 4 → length (warm key) ≡ value_size
  unfolding warm_value
  length-warm key four =
      let floats =
        fill get_hash shards server_id kv_api float_bytes value_size key (value_size / 4) in
      omega (
        arith,
        length-append floats (replicate (value_size % 4) 101),
        length-fill key (value_size / 4) four,
        length-replicate {A = ℕ} (value_size % 4) 101,
      )

  -- One round of a thread.
  round-IsFilled :
      (laws : IsKv kv_api value_size Room) (i j n : ℕ) (kv : K)
      → length (float_bytes j) ≡ 4
      → Room ((if mine j then 1 else 0) + n) kv
      → IsFresh kv j (j + 1)
      → Returns (if mine j then kv_api.put kv j (warm j) i else done kv) (Filled kv j (j + 1) n)
  round-IsFilled laws i j n kv four room fresh = elim (Bool-cases (mine j)) [
    | inl held ↦
        let room' : Room (1 + n) kv = rw held at room in
        let shape : 1 + n ≡ suc n = omega arith in
        let (kv', run, (left, stored, kept)) =
          laws.stores n kv j (warm j) i (subst (λ m. Room m kv) shape room') (length-warm j four)
            (λ t. fresh j t (omega arith) (omega arith) held) in
        (
          kv',
          rw held run,
          (
            record {
              filled = λ key t l m o.
                  let same : key ≡ j = omega (arith, l, m) in
                  subst (λ k. kv_api.get kv' k t ≡ warm k) (sym same) (stored t);
              foreign = λ key t o. kept key t (λ e. absurd (cc (held, o, ap mine e)));
              outside = λ key t o. kept key t (ground (arith, o));
            },
            left,
          ),
        )
    | inr other ↦ (
      kv,
      rw other refl,
      (
        record {
          filled = λ key t l m o.
              let same : key ≡ j = omega (arith, l, m) in absurd (cc (other, o, ap mine same));
          foreign = λ key t o. refl;
          outside = λ key t o. refl;
        },
        let room' : Room (0 + n) kv = rw other at room in
            let shape : 0 + n ≡ n = omega arith in subst (λ m. Room m kv) shape room',
      ),
    )
  ]

  -- The room for a range is that for its first key and that for the rest.
  total-suc :
      (j left n : ℕ) → total j (suc left) + n ≡ (if mine j then 1 else 0) + (total (j + 1) left + n)
  unfolding count_own
  total-suc j left n = elim (Bool-cases (mine j)) [
    | inl held ↦ rw held (omega arith)
    | inr other ↦ rw other (omega arith)
  ]

  pub load_thread-IsFilled :
      (laws : IsKv kv_api value_size Room) (i j left n : ℕ) (kv : K)
      → ((key : ℕ) → length (float_bytes key) ≡ 4)
      → Room (total j left + n) kv
      → IsFresh kv j (j + left)
      → Returns
          (load_thread get_hash shards server_id kv_api float_bytes value_size i j left kv)
          (Filled kv j (j + left) n)
  unfolding load_thread count_own
  load_thread-IsFilled laws i j zero n kv four room fresh =
      let shape : 0 + n ≡ n = omega arith in
      (kv, refl, (IsFilled-empty kv j (j + 0) (omega arith), subst (λ m. Room m kv) shape room))
  load_thread-IsFilled laws i j (suc left) n kv four room fresh =
      let shape : j + 1 + left ≡ j + suc left = omega arith in
      let (kv', run, (first, room')) =
        round-IsFilled laws i j (total (j + 1) left + n) kv (four j)
          (subst (λ m. Room m kv) (total-suc j left n) room)
          (λ key t l m. fresh key t l (omega (arith, m))) in
      let (kv'', run', (rest, room'')) =
        load_thread-IsFilled laws i (j + 1) left n kv' four room' (λ key t l m.
          IsFresh-rest kv kv' j (j + 1) (j + suc left) first (omega arith) fresh key t l
            (omega (arith, m, shape))) in
      (
        kv'',
        >>=-done _ run ∙ run',
        (
          subst (λ b. IsFilled kv kv'' j b) shape
              (IsFilled-compose kv kv' kv'' j (j + 1) (j + 1 + left) (omega arith) (omega arith)
                first rest),
          room'',
        ),
      )

  pub load_keys-IsFilled :
      (laws : IsKv kv_api value_size Room) (j left n : ℕ) (kv : K)
      → ((key : ℕ) → length (float_bytes key) ≡ 4)
      → Room (total j left + n) kv
      → IsFresh kv j (j + left)
      → Returns
          (load_keys get_hash shards server_id kv_api float_bytes value_size
            (to_insert_keys get_hash shards server_id j left)
            kv)
          (Filled kv j (j + left) n)
  unfolding load_keys to_insert_keys count_own
  load_keys-IsFilled laws j zero n kv four room fresh =
      let shape : 0 + n ≡ n = omega arith in
      (kv, refl, (IsFilled-empty kv j (j + 0) (omega arith), subst (λ m. Room m kv) shape room))
  load_keys-IsFilled laws j (suc left) n kv four room fresh =
      let shape : j + 1 + left ≡ j + suc left = omega arith in
      let (kv', run, (first, room')) =
        round-IsFilled laws 0 j (total (j + 1) left + n) kv (four j)
          (subst (λ m. Room m kv) (total-suc j left n) room)
          (λ key t l m. fresh key t l (omega (arith, m))) in
      let (kv'', run', (rest, room'')) =
        load_keys-IsFilled laws (j + 1) left n kv' four room' (λ key t l m.
          IsFresh-rest kv kv' j (j + 1) (j + suc left) first (omega arith) fresh key t l
            (omega (arith, m, shape))) in
      let whole =
        subst (λ b. IsFilled kv kv'' j b) shape
          (IsFilled-compose kv kv' kv'' j (j + 1) (j + 1 + left) (omega arith) (omega arith) first
            rest) in
      elim (Bool-cases (mine j)) [
        | inl held ↦
            let put : kv_api.put kv j (warm j) 0 ≡ done kv' = rw held at run in
            (kv'', rw held (>>=-done _ put ∙ run'), (whole, room''))
        | inr other ↦
            let skip : done kv ≡ done kv' = rw other at run in
            (
              kv'',
              rw other (
                  ap
                    (load_keys get_hash shards server_id kv_api float_bytes value_size
                      (to_insert_keys get_hash shards server_id (j + 1) left))
                    (cc skip)
                  ∙ run'),
              (whole, room''),
            )
      ]
