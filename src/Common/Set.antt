-- ===== src/Common/Set.antt =====
-- `std::set`: lists kept in order, without an element twice.
use mathlib.Core.Path.{◌≡◌, refl}
use mathlib.Core.Bool.{Bool, false, ◌||◌}
use mathlib.Core.List.{List, [], ◌∷◌}
use native.Mathlib.Omega.{arith}
use ddsproxy.Common.Tests.{Key, ◌==◌, ◌<?◌, if◌then◌else◌}
use ddsproxy.Common.Lists.{any}

module _ {ℓ} {K : Type ℓ} ⦃key : Key K⦄ where
  -- `count`
  unfoldable pub member : K → List K → Bool
  member k [] = false
  member k (j ∷ s) = k == j || member k s

  unfoldable pub insert : K → List K → List K
  insert k [] = k ∷ []
  insert k (j ∷ s) = if k == j then j ∷ s else if k <? j then k ∷ j ∷ s else j ∷ insert k s

  unfoldable pub erase : K → List K → List K
  erase k [] = []
  erase k (j ∷ s) = if k == j then erase k s else j ∷ erase k s

  pub any-insert : (p : K → Bool) (k : K) (s : List K) → any p (insert k s) ≡ (p k || any p s)
  unfolding insert
  any-insert p k [] = refl
  any-insert p k (j ∷ s) = ground (arith, key.beq_iff k j, any-insert p k s)

  pub member-insert : (i k : K) (s : List K) → member i (insert k s) ≡ (i == k || member i s)
  unfolding member insert
  member-insert i k [] = refl
  member-insert i k (j ∷ s) =
      ground (arith, key.beq_iff k j, key.beq_iff i k, key.beq_iff i j, member-insert i k s)

  pub member-erase :
      (i k : K) (s : List K) → member i (erase k s) ≡ (if i == k then false else member i s)
  unfolding member erase
  member-erase i k [] = ground arith
  member-erase i k (j ∷ s) =
      ground (arith, key.beq_iff k j, key.beq_iff i k, key.beq_iff i j, member-erase i k s)

  -- Without an element that fails the test, as many pass.
  pub any-erase-false :
      (p : K → Bool) (k : K) (s : List K) → p k ≡ false → any p (erase k s) ≡ any p s
  unfolding erase
  any-erase-false p k [] h = refl
  any-erase-false p k (j ∷ s) h = ground (arith, key.beq_iff k j, any-erase-false p k s h)
