-- ===== src/Common/Map.antt =====
-- `std::map` and `std::set`: association lists kept in the order of their keys.
use mathlib.Core.Path.{◌≡◌, refl}
use mathlib.Core.Logic.{◌≢◌}
use mathlib.Core.Bool.{Bool, true, false, ◌||◌}
use mathlib.Core.Option.{Option, none, some}
use mathlib.Core.List.{List, [], ◌∷◌}
use native.Mathlib.Omega.{arith}
use ddsproxy.Common.Tests.{Key, ◌==◌, ◌<?◌, if◌then◌else◌, beq_refl, beq_ne}

abbrev pub Map {ℓ κ} : Type ℓ → Type κ → Type (ℓ ⊔ κ)
Map K V = List (K × V)

module _ {ℓ κ} {K : Type ℓ} {V : Type κ} ⦃key : Key K⦄ where
  -- `find`
  unfoldable pub find : K → Map K V → Option V
  find k [] = none
  find k ((j, v) ∷ m) = if k == j then some v else find k m

  -- `count`
  unfoldable pub has : K → Map K V → Bool
  has k [] = false
  has k ((j, v) ∷ m) = k == j || has k m

  -- `operator []` with an assignment
  unfoldable pub insert : K → V → Map K V → Map K V
  insert k v [] = (k, v) ∷ []
  insert k v ((j, w) ∷ m) =
      if k == j then (j, v) ∷ m else if k <? j then (k, v) ∷ (j, w) ∷ m else (j, w) ∷ insert k v m

  unfoldable pub erase : K → Map K V → Map K V
  erase k [] = []
  erase k ((j, w) ∷ m) = if k == j then erase k m else (j, w) ∷ erase k m

  pub find-insert :
      (i k : K) (v : V) (m : Map K V)
      → find i (insert k v m) ≡ (if i == k then some v else find i m)
  unfolding find insert
  find-insert i k v [] = refl
  find-insert i k v ((j, w) ∷ m) =
      ground (arith, key.beq_iff i k, key.beq_iff k j, key.beq_iff i j, find-insert i k v m)

  pub find-erase :
      (i k : K) (m : Map K V) → find i (erase k m) ≡ (if i == k then none else find i m)
  unfolding find erase
  find-erase i k [] = ground arith
  find-erase i k ((j, w) ∷ m) =
      ground (arith, key.beq_iff i k, key.beq_iff k j, key.beq_iff i j, find-erase i k m)

  pub has-find :
      (k : K) (m : Map K V) → has k m ≡ (elim (find k m) [ none ↦ false | some v ↦ true ])
  unfolding find has
  has-find k [] = refl
  has-find k ((j, w) ∷ m) = ground (arith, has-find k m)

  pub find-insert_self : (k : K) (v : V) (m : Map K V) → find k (insert k v m) ≡ some v
  find-insert_self k v m = rw (find-insert k k v m, beq_refl k)

  pub find-insert_ne : (i k : K) (v : V) (m : Map K V) → i ≢ k → find i (insert k v m) ≡ find i m
  find-insert_ne i k v m h = rw (find-insert i k v m, beq_ne i k h)

  pub find-erase_self : (k : K) (m : Map K V) → find k (erase k m) ≡ none
  find-erase_self k m = rw (find-erase k k m, beq_refl k)

  pub find-erase_ne : (i k : K) (m : Map K V) → i ≢ k → find i (erase k m) ≡ find i m
  find-erase_ne i k m h = rw (find-erase i k m, beq_ne i k h)

  pub has_of_none : (k : K) (m : Map K V) → find k m ≡ none → has k m ≡ false
  has_of_none k m h = rw (has-find k m, h)

  pub has_of_some : (k : K) (m : Map K V) {v : V} → find k m ≡ some v → has k m ≡ true
  has_of_some k m h = rw (has-find k m, h)

  pub has-insert : (i k : K) (v : V) (m : Map K V) → has i (insert k v m) ≡ (i == k || has i m)
  has-insert i k v m =
      rw (has-find i (insert k v m), find-insert i k v m, has-find i m) (ground arith)

  -- No key twice.
  abbrev pub OnceEach : Map K V → Type 0
  OnceEach [] = Unit {0}
  OnceEach ((j, v) ∷ m) = (has j m ≡ false) × OnceEach m

  pub insert-OnceEach :
      (k : K) (v : V) (m : Map K V) → has k m ≡ false → OnceEach m → OnceEach (insert k v m)
  unfolding insert has
  insert-OnceEach k v [] h d = (refl, tt)
  insert-OnceEach k v ((j, w) ∷ m) h d =
      ground (arith, key.beq_iff k j, key.beq_iff j k, has-insert j k v m, insert-OnceEach k v m)

  -- An assignment to a key that is there.
  unfoldable pub replace : K → V → Map K V → Map K V
  replace k v [] = []
  replace k v ((j, w) ∷ m) = if k == j then (j, v) ∷ m else (j, w) ∷ replace k v m

  pub find-replace :
      (i k : K) (v : V) (m : Map K V)
      → has k m ≡ true
      → find i (replace k v m) ≡ (if i == k then some v else find i m)
  unfolding find replace has
  find-replace i k v [] h = cc
  find-replace i k v ((j, w) ∷ m) h =
      ground (arith, key.beq_iff i k, key.beq_iff k j, key.beq_iff i j, find-replace i k v m)

  pub has-replace : (i k : K) (v : V) (m : Map K V) → has i (replace k v m) ≡ has i m
  unfolding replace has
  has-replace i k v [] = refl
  has-replace i k v ((j, w) ∷ m) = ground (arith, has-replace i k v m)

  pub replace-OnceEach : (k : K) (v : V) (m : Map K V) → OnceEach m → OnceEach (replace k v m)
  unfolding replace has
  replace-OnceEach k v [] d = tt
  replace-OnceEach k v ((j, w) ∷ m) d = ground (arith, has-replace j k v m, replace-OnceEach k v m)

  pub has-erase : (i k : K) (m : Map K V) → has i (erase k m) ≡ (if i == k then false else has i m)
  has-erase i k m = ground (arith, has-find i (erase k m), find-erase i k m, has-find i m)
