-- ===== src/Common/DbQueue.antt =====
-- The DBQueue of Fast DDS behind its documented behaviour, and one such queue for tests.
use mathlib.Core.Path.{◌≡◌, refl}
use mathlib.Core.Logic.{◌≢◌}
use mathlib.Core.Bool.{Bool, true, false, ◌&&◌}
use mathlib.Core.Option.{Option, none, some}
use mathlib.Core.List.{List, [], ◌∷◌, ◌++◌}

-- DBQueue: what is pushed waits in the background. A swap clears the foreground first.
pub record DbQueue (A : Type 0) : Type 1 where
  pub Queue : Type 0
  pub push : A → Queue → Queue
  pub swap : Queue → Queue
  pub front : Queue → Option A
  pub pop : Queue → Queue
  pub both_empty : Queue → Bool
  pub foreground : Queue → List A
  pub background : Queue → List A
  pub foreground-push : (a : A) (q : Queue) → foreground (push a q) ≡ foreground q
  pub background-push : (a : A) (q : Queue) → background (push a q) ≡ background q ++ a ∷ []
  pub foreground-swap : (q : Queue) → foreground (swap q) ≡ background q
  pub background-swap : (q : Queue) → background (swap q) ≡ []
  pub front-nil : (q : Queue) → foreground q ≡ [] → front q ≡ none
  pub front-cons : (q : Queue) (a : A) (as_ : List A) → foreground q ≡ a ∷ as_ → front q ≡ some a
  pub foreground-pop :
      (q : Queue) (a : A) (as_ : List A) → foreground q ≡ a ∷ as_ → foreground (pop q) ≡ as_
  pub both_empty-nil : (q : Queue) → foreground q ≡ [] → background q ≡ [] → both_empty q ≡ true
  pub both_empty-ne : (q : Queue) → background q ≢ [] → both_empty q ≡ false
  pub background-pop : (q : Queue) → background (pop q) ≡ background q

module _ {A : Type 0} where
  abbrev front_of : List A → Option A
  front_of [] = none
  front_of (item ∷ items) = some item

  abbrev rest_of : List A → List A
  rest_of [] = []
  rest_of (item ∷ items) = items

  pub front_of-nil : (items : List A) → items ≡ [] → front_of items ≡ none
  front_of-nil items e = rw e refl

  pub front_of-cons :
      (items : List A) (a : A) (as_ : List A) → items ≡ a ∷ as_ → front_of items ≡ some a
  front_of-cons items a as_ e = rw e refl

  pub rest_of-cons : (items : List A) (a : A) (as_ : List A) → items ≡ a ∷ as_ → rest_of items ≡ as_
  rest_of-cons items a as_ e = rw e refl

  abbrev no_items : List A → Bool
  no_items [] = true
  no_items (a ∷ as_) = false

  pub no_items-nil :
      (q : List A × List A) → q.0 ≡ [] → q.1 ≡ [] → (no_items q.0 && no_items q.1) ≡ true
  no_items-nil q e f = rw (e, f) refl

  pub no_items-ne : (q : List A × List A) → q.1 ≢ [] → (no_items q.0 && no_items q.1) ≡ false
  no_items-ne (fs, []) h = absurd (h refl)
  no_items-ne ([], x ∷ bs) h = refl
  no_items-ne (y ∷ fs, x ∷ bs) h = refl

  -- A queue as two lists, of which the first one is the foreground.
  abbrev pub two_lists : DbQueue A
  two_lists = record {
    Queue = List A × List A;
    push = λ a q. (q.0, q.1 ++ a ∷ []);
    swap = λ q. (q.1, []);
    front = λ q. front_of q.0;
    pop = λ q. (rest_of q.0, q.1);
    both_empty = λ q. no_items q.0 && no_items q.1;
    foreground = λ q. q.0;
    background = λ q. q.1;
    foreground-push = λ a q. refl;
    background-push = λ a q. refl;
    foreground-swap = λ q. refl;
    background-swap = λ q. refl;
    front-nil = λ q. front_of-nil q.0;
    front-cons = λ q. front_of-cons q.0;
    foreground-pop = λ q. rest_of-cons q.0;
    both_empty-nil = no_items-nil;
    both_empty-ne = no_items-ne;
    background-pop = λ q. refl;
  }
