-- ===== src/Types/Fuzzy.antt =====
-- Fuzzy of dev-utils/cpp_utils/include/cpp_utils/types/impl/Fuzzy.ipp: a value with the level of
-- certainty at which it was set. Levels are `short`s.
use ddsproxy.Common.{Bool, not}
use ddsproxy.Common.Int.{ℤ, pos, negsuc, ◌<ℤ?◌}

abbrev pub fuzzy_level_unset : ℤ
fuzzy_level_unset = negsuc 19

abbrev pub fuzzy_level_default : ℤ
fuzzy_level_default = pos 0

abbrev pub fuzzy_level_fuzzy : ℤ
fuzzy_level_fuzzy = pos 20

abbrev pub fuzzy_level_set : ℤ
fuzzy_level_set = pos 40

abbrev pub fuzzy_level_hard : ℤ
fuzzy_level_hard = pos 60

pub record Fuzzy (A : Type 0) : Type 0 where
  pub value : A
  pub fuzzy_level : ℤ

module _ {A : Type 0} where
  unfoldable pub is_valid : Fuzzy A → Bool
  is_valid f = not (f.fuzzy_level <ℤ? fuzzy_level_default)

  unfoldable pub is_set : Fuzzy A → Bool
  is_set f = not (f.fuzzy_level <ℤ? fuzzy_level_fuzzy)

  unfoldable pub set_value : A → ℤ → Fuzzy A
  set_value new_value level = record { value = new_value; fuzzy_level = level }

  unfoldable pub unset : Fuzzy A → Fuzzy A
  unset f = record f { fuzzy_level = fuzzy_level_unset }
