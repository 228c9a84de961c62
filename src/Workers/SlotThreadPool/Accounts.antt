-- ===== src/Workers/SlotThreadPool/Accounts.antt =====
-- What the counters, the queues and the threads of a SlotThreadPool agree on.
use ddsproxy.Common.{
  ℕ, ◌+◌, ◌^◌, ◌<◌, ◌≡◌, ◌≢◌, Bool, none, some, Option, List, [], ◌∷◌, ◌++◌, length, All, sum,
  arith, nat_key, Option-cases, ok, inl, inr,
}
use mathlib.Core.List.{append_assoc}
use ddsproxy.Common.Map.{Map, find}
use ddsproxy.Common.DbQueue.{DbQueue}
use ddsproxy.Workers.WaitHandler.{begin_wait, end_wait, end_wait_and_decrement, decrease_1}
use ddsproxy.Workers.Consumer.{contents, get_next_value, get_next_value-contents}
use ddsproxy.Workers.SlotThreadPool.{
  Priority, priority_0, priority_1, Thread, choosing, entering, sleeping, popping, looking, running,
  finished, broken, has_timeout, consumed, SlotThreadPool, queue_of, counter_of, queued, move,
}

abbrev pub pops : Priority → Thread → ℕ
pops priority_0 (popping priority_0) = 1
pops priority_1 (popping priority_1) = 1
pops _ _ = 0

abbrev pub sleeps : Priority → Thread → ℕ
sleeps priority_0 (sleeping priority_0) = 1
sleeps priority_1 (sleeping priority_1) = 1
sleeps _ _ = 0

abbrev pub counting : Priority → Option Priority → ℕ
counting priority_0 (some priority_0) = 1
counting priority_1 (some priority_1) = 1
counting _ _ = 0

abbrev pub IsSlot : Map ℕ ℕ → ℕ → Type 0
IsSlot slots task_id = find task_id slots ≢ none

abbrev pub IsFit : Map ℕ ℕ → Thread → Type 0
IsFit slots (looking task_id) = IsSlot slots task_id
IsFit slots (broken e) = ⊥
IsFit slots _ = Unit {0}

module _ (db : DbQueue ℕ) where
  -- Every id in the queue is counted, or its emitter is about to count it, or a thread is about to
  -- take it; and the threads that sleep are counted.
  abbrev pub Counted : Priority → SlotThreadPool db → List Thread → Type 0
  Counted q p threads =
      ((counter_of db q p).value + (sum (pops q) threads + counting q p.emitter)
        ≡ length (queued db q p))
      × (length (queued db q p) < 2 ^ 32)
      × ((counter_of db q p).threads_waiting ≡ sum (sleeps q) threads)

  -- What went into the queue has been taken, in this order, or is there.
  abbrev pub Logged : Priority → SlotThreadPool db → Type 0
  Logged q p = (queue_of db q p).emitted ≡ (queue_of db q p).taken ++ queued db q p

  -- Every id that waits or is looked up has its task, and 0 is no id.
  abbrev pub Fit : SlotThreadPool db → List Thread → Type 0
  Fit p threads =
      (find 0 p.slots ≡ none)
      × All (IsSlot p.slots) (queued db priority_0 p)
      × All (IsSlot p.slots) (queued db priority_1 p)
      × All (IsFit p.slots) threads

  abbrev pub Sound : SlotThreadPool db → List Thread → Type 0
  Sound p threads =
      Counted priority_0 p threads
      × Counted priority_1 p threads
      × Logged priority_0 p
      × Logged priority_1 p
      × Fit p threads

  abbrev pub AllSound : List Thread → Option (SlotThreadPool db × Thread) → Type 0
  AllSound rest none = Unit {0}
  AllSound rest (some (p, w)) = Sound p (w ∷ rest)

  pub next_value :
      (q : Priority) (p : SlotThreadPool db) (rest : List Thread)
      → Counted q p (popping q ∷ rest)
      → (task_id : ℕ) × (queue : db.Queue) × (get_next_value db (queue_of db q p).handler.queue
          ≡ ok (task_id, queue))
        × (queued db q p ≡ task_id ∷ contents db queue)
  next_value q p rest c =
      get_next_value-contents db (queue_of db q p).handler.queue (λ e. ground arith)

  move-popping :
      (q : Priority) (over : Bool) (p : SlotThreadPool db) (rest : List Thread)
      → Sound p (popping q ∷ rest)
      → AllSound rest (move db over p (popping q))
  unfolding move consumed
  move-popping priority_0 over p rest s =
      let (task_id, queue, e, f) = next_value priority_0 p rest s.0 in
      rw (AllSound, e)
        (ground
          (arith, f, append_assoc p.task_queue_priority_0.taken (task_id ∷ []) (contents db queue)))
  move-popping priority_1 over p rest s =
      let (task_id, queue, e, f) = next_value priority_1 p rest s.1 in
      rw (AllSound, e)
        (ground
          (arith, f, append_assoc p.task_queue_priority_1.taken (task_id ∷ []) (contents db queue)))

  pub move-Sound :
      (over : Bool) (p : SlotThreadPool db) (w : Thread) (rest : List Thread)
      → Sound p (w ∷ rest)
      → AllSound rest (move db over p w)
  unfolding move begin_wait end_wait end_wait_and_decrement decrease_1 has_timeout consumed
  move-Sound over p choosing rest c = ground arith
  move-Sound over p (entering priority_0) rest c = ground arith
  move-Sound over p (entering priority_1) rest c = ground arith
  move-Sound over p (sleeping priority_0) rest c = ground arith
  move-Sound over p (sleeping priority_1) rest c = ground arith
  move-Sound over p (popping r) rest c = move-popping r over p rest c
  move-Sound over p (looking task_id) rest c = elim (Option-cases p.emitter) [
    | inr (q, e) ↦ rw (AllSound, e) tt
    | inl e ↦ elim (Option-cases (find task_id p.slots)) [
      | inl f ↦ absurd (c.4.3.0 f)
      | inr (task, f) ↦ rw (AllSound, e, f) (ground arith)
    ]
  ]
  move-Sound over p (running task) rest c = ground arith
  move-Sound over p finished rest c = tt
  move-Sound over p (broken e) rest c = tt
