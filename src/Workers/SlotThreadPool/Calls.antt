-- ===== src/Workers/SlotThreadPool/Calls.antt =====
-- How often the threads of a SlotThreadPool have a task in hand, and how often it was called.
use ddsproxy.Common.{
  ℕ, ◌≡◌, refl, none, some, Option, List, [], ◌∷◌, All, sum, arith, nat_key, nat_beq, if◌then◌else◌,
  ap,
}
use ddsproxy.Common.Map.{Map, find, insert, find-insert}
use ddsproxy.Workers.SlotThreadPool.{
  Thread, choosing, entering, sleeping, popping, looking, running, finished, broken,
}
use ddsproxy.Workers.SlotThreadPool.Accounts.{IsSlot, IsFit}

-- 1 for the task, 0 for none and for another one.
abbrev pub is_task : ℕ → Option ℕ → ℕ
is_task task none = 0
is_task task (some other) = if nat_beq other task then 1 else 0

-- How often the task is among the slots of some ids, among some tasks, and in the hand of a thread.
abbrev pub called : Map ℕ ℕ → ℕ → List ℕ → ℕ
called slots task ids = sum (λ id. is_task task (find id slots)) ids

abbrev pub count : ℕ → List ℕ → ℕ
count task tasks = sum (λ other. is_task task (some other)) tasks

abbrev pub in_hand : Map ℕ ℕ → ℕ → Thread → ℕ
in_hand slots task (looking id) = is_task task (find id slots)
in_hand slots task (running other) = is_task task (some other)
in_hand slots task _ = 0

-- A slot more changes nothing for the ids that have theirs.
module _ (k v : ℕ) (slots : Map ℕ ℕ) (new : find k slots ≡ none) where
  find-insert_other : (id : ℕ) → IsSlot slots id → find id (insert k v slots) ≡ find id slots
  find-insert_other id h = ground (arith, find-insert id k v slots, nat_key.beq_iff id k)

  pub called-insert :
      (task : ℕ) (ids : List ℕ)
      → All (IsSlot slots) ids
      → called (insert k v slots) task ids ≡ called slots task ids
  called-insert task [] h = refl
  called-insert task (id ∷ ids) h =
      rw (find-insert_other id h.0) (omega (arith, called-insert task ids h.1))

  in_hand-insert :
      (task : ℕ) (w : Thread)
      → IsFit slots w
      → in_hand (insert k v slots) task w ≡ in_hand slots task w
  in_hand-insert task (looking id) h = ap (is_task task) (find-insert_other id h)
  in_hand-insert task choosing h = refl
  in_hand-insert task (entering q) h = refl
  in_hand-insert task (sleeping q) h = refl
  in_hand-insert task (popping q) h = refl
  in_hand-insert task (running other) h = refl
  in_hand-insert task finished h = refl
  in_hand-insert task (broken e) h = refl

  pub held-insert :
      (task : ℕ) (ws : List Thread)
      → All (IsFit slots) ws
      → sum (in_hand (insert k v slots) task) ws ≡ sum (in_hand slots task) ws
  held-insert task [] h = refl
  held-insert task (w ∷ ws) h = omega (arith, in_hand-insert task w h.0, held-insert task ws h.1)
