-- ===== src/Tests/Words.antt =====
-- Bit maps and packed words.
use pet_ps.Common.{◌-◌, ◌%◌, ◌^◌, true, ◌==◌, if◌then◌else◌, ◌≡◌, refl, arith, some}
use pet_ps.BitMap.{BitMap, get, set_zero_pos}
use pet_ps.BitMap.Words.{IsValid}
use pet_ps.BitMap.Ones.{Allocates, set_zero_pos-Allocates}
use pet_ps.KvData.{
  Config, config, choose_offset_bit, shm_malloc_offset, set_shm_malloc_offset, expire_timet,
}
use pet_ps.KvData.Fields.{chosen_layout-roundtrip}

-- A map of 128 bits with the first five set.
abbrev five : BitMap
five = record { n = 128; bits = λ i. if i == 0 then 31 else 0 }

five-IsValid : IsValid five
five-IsValid = record { whole = refl; words = λ i l. ground arith }

set_zero_pos-Allocates_example : Allocates five (set_zero_pos five)
set_zero_pos-Allocates_example = set_zero_pos-Allocates five five-IsValid

five-get : get five 4 ≡ true
unfolding get
five-get = refl

abbrev layout : Config
layout = record {
  expire_reduct_bit = 6;
  expire_reduct_mark = 2 ^ 6 - 1;
  expire_bit = 26;
  expire_mark = 2 ^ 26 - 1;
  no_malloc_offset = 2 ^ 38 - 1;
}

terabyte : config (choose_offset_bit (2 ^ 40)) ≡ some layout
unfolding config choose_offset_bit
terabyte = refl

chosen_layout-roundtrip_example :
    let d' = set_shm_malloc_offset layout 123 (some 4099) in
    (shm_malloc_offset layout d' ≡ some (4099 - 4099 % 8))
    × (expire_timet layout d' ≡ expire_timet layout 123)
chosen_layout-roundtrip_example =
    chosen_layout-roundtrip (2 ^ 40) 4099 123 layout (omega arith) terabyte (omega arith)
