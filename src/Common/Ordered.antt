-- ===== src/Common/Ordered.antt =====
-- Maps whose keys are numbers: rising keys, the first entry, and the number of entries.
use Prim.Native.Nat.{ℕ, suc, ◌+◌, ◌≤◌, ◌<◌}
use mathlib.Core.Path.{◌≡◌, refl}
use mathlib.Core.Bool.{false}
use mathlib.Core.Option.{Option, none, some}
use mathlib.Core.List.{[], ◌∷◌}
use native.Mathlib.Omega.{arith}
use ddsproxy.Common.Tests.{if◌then◌else◌, nat_beq, nat_key, ltb}
use ddsproxy.Common.Lists.{length}
use ddsproxy.Common.Map.{Map, find, has, insert, erase}

module _ {ℓ} {V : Type ℓ} where
  -- `m.erase(m.begin())`
  unfoldable pub erase_begin : Map ℕ V → Map ℕ V
  erase_begin [] = []
  erase_begin (e ∷ m) = m

  -- Every key is above `n`, and the keys rise.
  abbrev pub Above : ℕ → Map ℕ V → Type 0
  Above n [] = Unit {0}
  Above n ((j, v) ∷ m) = (n < j) × Above j m

  abbrev pub IsSorted : Map ℕ V → Type 0
  IsSorted [] = Unit {0}
  IsSorted ((j, v) ∷ m) = Above j m

  Above-IsSorted : (n : ℕ) (m : Map ℕ V) → Above n m → IsSorted m
  Above-IsSorted n [] a = tt
  Above-IsSorted n ((j, v) ∷ m) a = a.1

  Above-mono : (n k : ℕ) (m : Map ℕ V) → n ≤ k → Above k m → Above n m
  Above-mono n k [] h a = tt
  Above-mono n k ((j, v) ∷ m) h a = (omega arith, a.1)

  insert-Above : (n k : ℕ) (v : V) (m : Map ℕ V) → n < k → Above n m → Above n (insert k v m)
  unfolding insert
  insert-Above n k v [] h a = (h, tt)
  insert-Above n k v ((j, w) ∷ m) h a = ground (arith, insert-Above j k v m)

  pub insert-IsSorted : (k : ℕ) (v : V) (m : Map ℕ V) → IsSorted m → IsSorted (insert k v m)
  unfolding insert
  insert-IsSorted k v [] a = tt
  insert-IsSorted k v ((j, w) ∷ m) a = ground (arith, insert-Above j k v m)

  erase-Above : (n k : ℕ) (m : Map ℕ V) → Above n m → Above n (erase k m)
  unfolding erase
  erase-Above n k [] a = tt
  erase-Above n k ((j, w) ∷ m) a = ground (arith, erase-Above j k m a.1, Above-mono n j (erase k m))

  pub erase-IsSorted : (k : ℕ) (m : Map ℕ V) → IsSorted m → IsSorted (erase k m)
  unfolding erase
  erase-IsSorted k [] a = tt
  erase-IsSorted k ((j, w) ∷ m) a =
      ground (arith, erase-Above j k m a, Above-IsSorted j (erase k m))

  pub erase_begin-IsSorted : (m : Map ℕ V) → IsSorted m → IsSorted (erase_begin m)
  unfolding erase_begin
  erase_begin-IsSorted [] a = tt
  erase_begin-IsSorted ((j, v) ∷ []) a = tt
  erase_begin-IsSorted ((j, v) ∷ (i, w) ∷ m) a = a.1

  -- The smallest sequence number.
  abbrev pub oldest : Map ℕ V → Option ℕ
  oldest [] = none
  oldest ((j, v) ∷ m) = some j

  find-Above : (n k : ℕ) (m : Map ℕ V) → Above n m → k ≤ n → find k m ≡ none
  unfolding find
  find-Above n k [] a h = refl
  find-Above n k ((j, v) ∷ m) a h = ground (arith, find-Above j k m a.1)

  -- Dropping the first entry hides the smallest key and no other.
  pub find-erase_begin :
      (i j : ℕ) (m : Map ℕ V)
      → IsSorted m
      → oldest m ≡ some j
      → find i (erase_begin m) ≡ (if nat_beq i j then none else find i m)
  unfolding erase_begin find
  find-erase_begin i j [] a e = ground arith
  find-erase_begin i j ((k, v) ∷ m) a e = ground (arith, find-Above k k m)

  pub length-insert_new :
      (k : ℕ) (v : V) (m : Map ℕ V) → has k m ≡ false → length (insert k v m) ≡ length m + 1
  unfolding has insert
  length-insert_new k v [] h = omega arith
  length-insert_new k v ((j, w) ∷ m) h = ground (arith, length-insert_new k v m)

  pub length-erase-le : (k : ℕ) (m : Map ℕ V) → length (erase k m) ≤ length m
  unfolding erase
  length-erase-le k [] = omega arith
  length-erase-le k ((j, w) ∷ m) = ground (arith, length-erase-le k m)

  pub length-erase_begin : (m : Map ℕ V) {n : ℕ} → length m ≡ suc n → length (erase_begin m) ≡ n
  unfolding erase_begin
  length-erase_begin [] h = omega arith
  length-erase_begin (e ∷ m) h = omega arith

  pub oldest-insert : (k : ℕ) (v : V) (m : Map ℕ V) → (j : ℕ) × (oldest (insert k v m) ≡ some j)
  unfolding insert
  oldest-insert k v [] = (k, refl)
  oldest-insert k v ((j, w) ∷ m) =
      (if nat_beq k j then j else if ltb k j then k else j, ground arith)

  pub oldest-insert_above :
      (j k : ℕ) (v : V) (m : Map ℕ V) → oldest m ≡ some j → j < k → oldest (insert k v m) ≡ some j
  unfolding insert
  oldest-insert_above j k v [] e h = cc
  oldest-insert_above j k v ((i, w) ∷ m) e h = ground arith

  find-IsSorted-Above : (k j : ℕ) (v : V) (m : Map ℕ V) → Above j m → find k m ≡ some v → j < k
  unfolding find
  find-IsSorted-Above k j v [] a h = cc
  find-IsSorted-Above k j v ((i, u) ∷ m) a h = ground (arith, find-IsSorted-Above k i v m a.1)

  pub length-insert_old :
      (k : ℕ) (v w : V) (m : Map ℕ V)
      → IsSorted m
      → find k m ≡ some w
      → length (insert k v m) ≡ length m
  unfolding find insert
  length-insert_old k v w [] a h = cc
  length-insert_old k v w ((j, u) ∷ m) a h =
      ground
        (arith, find-IsSorted-Above k j w m a, length-insert_old k v w m (Above-IsSorted j m a))

  erase_of_Above : (n k : ℕ) (m : Map ℕ V) → Above n m → k ≤ n → erase k m ≡ m
  unfolding erase
  erase_of_Above n k [] a h = refl
  erase_of_Above n k ((j, v) ∷ m) a h = ground (arith, erase_of_Above j k m a.1)

  pub length-erase_has :
      (k : ℕ) (w : V) (m : Map ℕ V)
      → IsSorted m
      → find k m ≡ some w
      → length (erase k m) + 1 ≡ length m
  unfolding find erase
  length-erase_has k w [] a h = cc
  length-erase_has k w ((j, u) ∷ m) a h =
      ground (arith, erase_of_Above j k m a, length-erase_has k w m (Above-IsSorted j m a))

  pub length-pos_of_found : (k : ℕ) (w : V) (m : Map ℕ V) → find k m ≡ some w → 0 < length m
  unfolding find
  length-pos_of_found k w [] h = cc
  length-pos_of_found k w ((j, u) ∷ m) h = omega arith
