-- ===== src/Workers/SlotThreadPool/Executions.antt =====
-- The tasks that the threads of a SlotThreadPool run are those of the ids that they took.
use ddsproxy.Common.{
  ℕ, ◌+◌, ◌≡◌, refl, Bool, false, none, some, Option, List, [], ◌∷◌, ◌++◌, All, All-append,
  All-weaker, sum, sum-append, sum-middle, arith, nat_key, Exception, inl, inr, sym, ◌∙◌, ap,
  if_cases, Option-cases,
}
use mathlib.Core.Path.{subst}
use mathlib.Core.List.{Memᴰ}
use ddsproxy.Common.Map.{Map, find, insert}
use ddsproxy.Common.DbQueue.{DbQueue}
use ddsproxy.Workers.WaitHandler
use ddsproxy.Workers.WaitHandler.{begin_wait, end_wait, end_wait_and_decrement, increment}
use ddsproxy.Workers.Consumer.{contents, add_value}
use ddsproxy.Workers.SlotThreadPool.{
  Priority, priority_0, priority_1, disabling, joining, Thread, choosing, entering, sleeping,
  popping, looking, running, finished, broken, replicate, has_timeout, consumed, SlotThreadPool,
  new_pool, new_task_queue, queued, push_task, count_task, enable, disable_queue, begin_disable,
  move,
}
use ddsproxy.Workers.SlotThreadPool.Steps.{
  Step, registers, emits, emits_by_priority, counts, enables, disables, disables_second, joins,
  moves, Run, stay, later, slot_cases, emit_cases, emit_by_priority_cases,
}
use ddsproxy.Workers.SlotThreadPool.Accounts.{IsSlot, Sound, next_value}
use ddsproxy.Workers.SlotThreadPool.Calls.{
  is_task, called, count, in_hand, held-insert, called-insert,
}
use ddsproxy.Workers.SlotThreadPool.Runs.{
  Kept, Run-Kept, Run-new_pool, new_pool-Sound, never_broken, front-Sound, insert-IsSlot,
  sum-replicate, sum-finished,
}

module _ (db : DbQueue ℕ) (task : ℕ) where
  -- Every id that was taken has its slot, and its task has run or is in the hand of a thread.
  abbrev Ran : SlotThreadPool db → List Thread → Type 0
  Ran p threads =
      All (IsSlot p.slots) p.task_queue_priority_0.taken
      × All (IsSlot p.slots) p.task_queue_priority_1.taken
      × (count task p.executed + sum (in_hand p.slots task) threads
          ≡ called p.slots task p.task_queue_priority_0.taken
            + called p.slots task p.task_queue_priority_1.taken)

  abbrev AllRan : List Thread → Option (SlotThreadPool db × Thread) → Type 0
  AllRan rest none = Unit {0}
  AllRan rest (some (p, w)) = Ran p (w ∷ rest)

  move-popping_Ran :
      (q : Priority) (over : Bool) (p : SlotThreadPool db) (rest : List Thread)
      → Sound db p (popping q ∷ rest)
      → Ran p (popping q ∷ rest)
      → AllRan rest (move db over p (popping q))
  unfolding move consumed
  move-popping_Ran priority_0 over p rest s r =
      let (id, queue, e, f) = next_value db priority_0 p rest s.0 in
      let taken = p.task_queue_priority_0.taken in
      let fits : All (IsSlot p.slots) (id ∷ contents db queue) =
        subst (All (IsSlot p.slots)) f s.4.1 in
      rw (AllRan, e)
        (
          All-append (IsSlot p.slots) taken (id ∷ []) r.0 (fits.0, tt),
          r.1,
          omega (arith, r.2, sum-append (λ x. is_task task (find x p.slots)) taken (id ∷ [])),
        )
  move-popping_Ran priority_1 over p rest s r =
      let (id, queue, e, f) = next_value db priority_1 p rest s.1 in
      let taken = p.task_queue_priority_1.taken in
      let fits : All (IsSlot p.slots) (id ∷ contents db queue) =
        subst (All (IsSlot p.slots)) f s.4.2 in
      rw (AllRan, e)
        (
          r.0,
          All-append (IsSlot p.slots) taken (id ∷ []) r.1 (fits.0, tt),
          ground
              (arith, s.4.0, r.2, sum-append (λ x. is_task task (find x p.slots)) taken (id ∷ [])),
        )

  move-Ran :
      (over : Bool) (p : SlotThreadPool db) (w : Thread) (rest : List Thread)
      → Sound db p (w ∷ rest)
      → Ran p (w ∷ rest)
      → AllRan rest (move db over p w)
  unfolding move begin_wait end_wait end_wait_and_decrement has_timeout consumed
  move-Ran over p choosing rest s r = ground arith
  move-Ran over p (entering priority_0) rest s r = ground arith
  move-Ran over p (entering priority_1) rest s r = ground arith
  move-Ran over p (sleeping priority_0) rest s r = ground arith
  move-Ran over p (sleeping priority_1) rest s r = ground arith
  move-Ran over p (popping q) rest s r = move-popping_Ran q over p rest s r
  move-Ran over p (looking id) rest s r = elim (Option-cases p.emitter) [
    | inr (q, e) ↦ rw (AllRan, e) tt
    | inl e ↦ elim (Option-cases (find id p.slots)) [
      | inl f ↦ absurd (s.4.3.0 f)
      | inr (other, f) ↦ rw (AllRan, e, f) (ground (arith, r.2, f))
    ]
  ]
  move-Ran over p (running other) rest s r = (
    r.0,
    r.1,
    omega (arith, r.2, sum-append (λ x. is_task task (some x)) p.executed (other ∷ [])),
  )
  move-Ran over p finished rest s r = tt
  move-Ran over p (broken e) rest s r = tt

  -- This depends on the threads by a sum only.
  Ran-same :
      (p : SlotThreadPool db) (ts us : List Thread)
      → sum (in_hand p.slots task) ts ≡ sum (in_hand p.slots task) us
      → Ran p ts
      → Ran p us
  Ran-same p ts us e r = (r.0, r.1, omega (arith, e, r.2))

  abbrev RanAll : SlotThreadPool db → Type 0
  RanAll p = Ran p p.threads

  slot-RanAll :
      (id other : ℕ) (p : SlotThreadPool db)
      → find id p.slots ≡ none
      → Kept db p
      → RanAll p
      → RanAll (record p { slots = insert id other p.slots })
  slot-RanAll id other p new s r =
      let grown = insert-IsSlot id other p.slots in
      (
        All-weaker _ _ p.task_queue_priority_0.taken grown r.0,
        All-weaker _ _ p.task_queue_priority_1.taken grown r.1,
        omega (
          arith,
          r.2,
          held-insert id other p.slots new task p.threads s.4.3,
          called-insert id other p.slots new task p.task_queue_priority_0.taken r.0,
          called-insert id other p.slots new task p.task_queue_priority_1.taken r.1,
        ),
      )

  queue-RanAll :
      (q : Priority) (p : SlotThreadPool db)
      → RanAll p
      → ((id : ℕ) → RanAll (push_task db q id p))
        × RanAll (count_task db q p)
        × RanAll (disable_queue db q p)
  unfolding push_task add_value count_task disable_queue increment WaitHandler.disable
  queue-RanAll priority_0 p r = (λ id. r, r, r)
  queue-RanAll priority_1 p r = (λ id. r, r, r)

  Step-RanAll :
      (p : SlotThreadPool db) {p' : SlotThreadPool db}
      → Step db p p'
      → Kept db p
      → RanAll p
      → RanAll p'
  unfolding enable begin_disable
  Step-RanAll p (registers id other e k f) s r =
      let (new, grown) = slot_cases db id other p f in
      subst RanAll grown (slot-RanAll id other p new s r)
  Step-RanAll p (emits id e b f) s r =
      subst RanAll (emit_cases db id p f).1 ((queue-RanAll priority_0 p r).0 id)
  Step-RanAll p (emits_by_priority id priority_id e b c f) s r =
      let (q, known, pushed) = emit_by_priority_cases db id priority_id p f in
      subst RanAll pushed ((queue-RanAll q p r).0 id)
  Step-RanAll p (counts q e) s r = (queue-RanAll q p r).1
  Step-RanAll p (enables e) s r =
      if_cases RanAll p.enabled (λ on. r)
        (λ off.
          Ran-same p p.threads (p.threads ++ replicate p.number_of_threads choosing)
            (sym (sum-replicate (in_hand p.slots task) p.number_of_threads p.threads refl)) r)
  Step-RanAll p (disables e) s r =
      if_cases RanAll p.enabled
        (λ on. (queue-RanAll priority_0 (record p { enabled = false; stopping = disabling }) r).2)
        (λ off. r)
  Step-RanAll p (disables_second e) s r =
      (queue-RanAll priority_1 (record p { stopping = joining }) r).2
  Step-RanAll p (joins e h) s r =
      Ran-same p p.threads [] (sum-finished (in_hand p.slots task) p.threads refl h) r
  Step-RanAll p (moves over before after w w' p' e f) s r =
      let held : (slots : Map ℕ ℕ) → Thread → ℕ = λ slots. in_hand slots task in
      let front =
        Ran-same p p.threads (w ∷ before ++ after)
          (ap (sum (held p.slots)) e ∙ sum-middle (held p.slots) before w after) r in
      Ran-same p' (w' ∷ before ++ after) (before ++ w' ∷ after)
        (sym (sum-middle (held p'.slots) before w' after))
        (subst (AllRan (before ++ after)) f
          (move-Ran over p w (before ++ after) (front-Sound db p before after w e s) front))

  Run-RanAll : {p p' : SlotThreadPool db} → Run db p p' → Kept db p → RanAll p → RanAll p'
  Run-RanAll stay s r = r
  Run-RanAll (later {p'} h step) s r = Step-RanAll p' step (Run-Kept db h s) (Run-RanAll h s r)

-- However the threads of a pool and its callers interleave, from two empty queues on and with fewer
-- than 2 ^ 32 - 1 ids in a queue at each emission: no thread meets an empty queue or an id without
-- a task, each queue hands out its ids once each in the order in which they were emitted, and
-- every task has run as often as one of its ids was handed out, but for the calls that are in the
-- hands of the threads.
pub pool_accounts :
    (db : DbQueue ℕ) (n : ℕ) (q r : db.Queue) {p : SlotThreadPool db}
    → contents db q ≡ []
    → contents db r ≡ []
    → Run db (new_pool db n q r) p
    → ((e : Exception) → Memᴰ (broken e) p.threads → ⊥)
      × (p.task_queue_priority_0.emitted ≡ p.task_queue_priority_0.taken ++ queued db priority_0 p)
      × (p.task_queue_priority_1.emitted ≡ p.task_queue_priority_1.taken ++ queued db priority_1 p)
      × ((task : ℕ)
          → count task p.executed + sum (in_hand p.slots task) p.threads
            ≡ called p.slots task p.task_queue_priority_0.taken
              + called p.slots task p.task_queue_priority_1.taken)
unfolding new_pool new_task_queue
pool_accounts db n q r {p} e f h =
    let s = Run-new_pool db n q r e f h in
    (
      never_broken p.slots p.threads s.4.3,
      s.2,
      s.3,
      λ task. (Run-RanAll db task h (new_pool-Sound db n q r e f) (tt, tt, omega arith)).2,
    )
