-- ===== src/Engine/Maps.antt =====
-- The maps of the engines keep the value of a key that they have.
use pet_ps.Common.{
  ℕ, Option, none, some, if◌then◌else◌, ◌≡◌, ◌≢◌, refl, ap, sym, ◌∙◌, inl, inr, eq_cases, eq→==,
  ne→==,
}
use pet_ps.Engine.{std_map, inserted}
use pet_ps.Engine.Written.{IsTable}
use pet_ps.Engine.MultiMapPm.{multi_map, shard_of, Tables}

inserted-other :
    (o : Option ℕ) (t : ℕ → Option ℕ) (key word other : ℕ)
    → key ≢ other
    → inserted o t key word other ≡ t other
inserted-other none t key word other apart =
    ap (λ b. if b then some word else t other) (ne→== key other apart)
inserted-other (some old) t key word other apart = refl

pub std_map-IsTable : IsTable std_map
std_map-IsTable = record {
  new_key = λ t key word absent.
      ap (λ o. inserted o t key word key) absent
      ∙ ap (λ b. if b then some word else t key) (eq→== key key refl);
  old_key = λ t key word old there. ap (λ o. inserted o t key word key) there ∙ there;
  other_key =
      λ t key word other apart. inserted-other (t key) t key word other (λ h. apart (sym h));
}

module _ (get_hash : ℕ → ℕ) where
  -- A key's map, after an insertion.
  own_map :
      (t : Tables) (key word : ℕ)
      → (multi_map get_hash).insert t key word (shard_of get_hash key)
        ≡ std_map.insert (t (shard_of get_hash key)) key word
  own_map t key word =
      let s = shard_of get_hash key in
      ap (λ b. if b then std_map.insert (t s) key word else t s) (eq→== s s refl)

  multi_map-IsTable : IsTable (multi_map get_hash)
  multi_map-IsTable = record {
    new_key = λ t key word absent.
        ap (λ (m : ℕ → Option ℕ). m key) (own_map t key word)
        ∙ std_map-IsTable.new_key (t (shard_of get_hash key)) key word absent;
    old_key = λ t key word old there.
        ap (λ (m : ℕ → Option ℕ). m key) (own_map t key word)
        ∙ std_map-IsTable.old_key (t (shard_of get_hash key)) key word old there;
    other_key = λ t key word other apart.
        let s = shard_of get_hash key in
        let s' = shard_of get_hash other in
        elim (eq_cases s s') [
          | inl same ↦
              ap (λ b. (if b then std_map.insert (t s) key word else t s') other) (eq→== s s' same)
              ∙ std_map-IsTable.other_key (t s) key word other apart
              ∙ ap (λ i. t i other) same
          | inr differ ↦
              ap (λ b. (if b then std_map.insert (t s) key word else t s') other)
                (ne→== s s' differ)
        ];
  }
