-- ===== src/Workers/SlotThreadPool/Restart.antt =====
-- A SlotThreadPool after `disable`: its queues stay disabled, since `enable` does not touch them.
use ddsproxy.Common.{
  ℕ, zero, suc, ◌≡◌, refl, Bool, true, false, none, some, Option, List, [], ◌∷◌, ◌++◌, All,
  All-append, All-middle, arith, nat_key,
}
use mathlib.Core.Path.{subst}
use ddsproxy.Common.DbQueue.{DbQueue}
use ddsproxy.Workers.WaitHandler
use ddsproxy.Workers.WaitHandler.{begin_wait, end_wait, end_wait_and_decrement, increment}
use ddsproxy.Workers.Consumer.{add_value}
use ddsproxy.Workers.SlotThreadPool.{
  Priority, priority_0, priority_1, Thread, disabling, joining, choosing, entering, sleeping,
  popping, looking, running, finished, broken, replicate, SlotThreadPool, counter_of, push_task,
  count_task, enable, disable_queue, begin_disable, move,
}
use ddsproxy.Workers.SlotThreadPool.Steps.{
  Step, registers, emits, emits_by_priority, counts, enables, disables, disables_second, joins,
  moves, Run, stay, later, slot_cases, emit_cases, emit_by_priority_cases,
}

-- The thread has no task and no id, and sleeps in no queue.
abbrev is_idle : Thread → Bool
is_idle choosing = true
is_idle (entering q) = true
is_idle finished = true
is_idle _ = false

abbrev IsIdle : Thread → Type 0
IsIdle w = is_idle w ≡ true

replicate-IsIdle : (n : ℕ) → All IsIdle (replicate n choosing)
replicate-IsIdle zero = tt
replicate-IsIdle (suc n) = (refl, replicate-IsIdle n)

module _ (db : DbQueue ℕ) (old : SlotThreadPool db) where
  -- Both queues are disabled, no thread has anything, and nothing was handed out or run since `old`.
  abbrev Off : SlotThreadPool db → List Thread → Type 0
  Off p ts =
      ((counter_of db priority_0 p).enabled ≡ false)
      × ((counter_of db priority_1 p).enabled ≡ false)
      × (p.executed ≡ old.executed)
      × (p.task_queue_priority_0.taken ≡ old.task_queue_priority_0.taken)
      × (p.task_queue_priority_1.taken ≡ old.task_queue_priority_1.taken)
      × All IsIdle ts

  abbrev AllOff : List Thread → Option (SlotThreadPool db × Thread) → Type 0
  AllOff rest none = Unit {0}
  AllOff rest (some (p, w)) = Off p (w ∷ rest)

  move-Off :
      (over : Bool) (p : SlotThreadPool db) (w : Thread) (rest : List Thread)
      → Off p (w ∷ rest)
      → AllOff rest (move db over p w)
  unfolding move begin_wait
  move-Off over p choosing rest c = c
  move-Off over p (entering priority_0) rest c = ground arith
  move-Off over p (entering priority_1) rest c = ground arith
  move-Off over p (sleeping r) rest c = absurd (cc (c.5.0))
  move-Off over p (popping r) rest c = absurd (cc (c.5.0))
  move-Off over p (looking task_id) rest c = absurd (cc (c.5.0))
  move-Off over p (running task) rest c = absurd (cc (c.5.0))
  move-Off over p finished rest c = tt
  move-Off over p (broken e) rest c = tt

  abbrev Stays : SlotThreadPool db → Type 0
  Stays p = Off p p.threads

  queue-Stays :
      (q : Priority) (p : SlotThreadPool db)
      → Stays p
      → ((id : ℕ) → Stays (push_task db q id p))
        × Stays (count_task db q p)
        × Stays (disable_queue db q p)
  unfolding push_task add_value count_task disable_queue increment WaitHandler.disable
  queue-Stays priority_0 p s = (λ id. ground arith, ground arith, ground arith)
  queue-Stays priority_1 p s = (λ id. ground arith, ground arith, ground arith)

  Step-Stays : (p : SlotThreadPool db) {p' : SlotThreadPool db} → Step db p p' → Stays p → Stays p'
  unfolding enable begin_disable
  Step-Stays p (registers id task e k f) s = subst Stays (slot_cases db id task p f).1 s
  Step-Stays p (emits id e b f) s =
      subst Stays (emit_cases db id p f).1 ((queue-Stays priority_0 p s).0 id)
  Step-Stays p (emits_by_priority id priority_id e b c f) s =
      let (q, known, pushed) = emit_by_priority_cases db id priority_id p f in
      subst Stays pushed ((queue-Stays q p s).0 id)
  Step-Stays p (counts q e) s = (queue-Stays q p s).1
  Step-Stays p (enables e) s = ground (
    arith,
    All-append IsIdle p.threads (replicate p.number_of_threads choosing) s.5
        (replicate-IsIdle p.number_of_threads),
  )
  Step-Stays p (disables e) s =
      ground
        (arith, (queue-Stays priority_0 (record p { enabled = false; stopping = disabling }) s).2)
  Step-Stays p (disables_second e) s =
      (queue-Stays priority_1 (record p { stopping = joining }) s).2
  Step-Stays p (joins e h) s = ground arith
  Step-Stays p (moves over before after w w' p' e f) s =
      let (c0, c1, x, t0, t1, idle) = s in
      let front = (All-middle IsIdle before w after).0 (subst (All IsIdle) e idle) in
      let (d0, d1, y, u0, u1, idle') =
        subst (AllOff (before ++ after)) f
          (move-Off over p w (before ++ after) (c0, c1, x, t0, t1, front)) in
      (d0, d1, y, u0, u1, (All-middle IsIdle before w' after).1 idle')

  Run-Stays : {p p' : SlotThreadPool db} → Run db p p' → Stays p → Stays p'
  Run-Stays stay s = s
  Run-Stays (later {p'} h step) s = Step-Stays p' step (Run-Stays h s)

-- Once the queues of a pool are disabled and its threads joined, as `disable` leaves it, nothing that
-- is called later makes it run a task again, and no id is taken from its queues: not after `enable`
-- either.
pub restart-runs_nothing :
    (db : DbQueue ℕ) (p : SlotThreadPool db) {p' : SlotThreadPool db}
    → (counter_of db priority_0 p).enabled ≡ false
    → (counter_of db priority_1 p).enabled ≡ false
    → p.threads ≡ []
    → Run db p p'
    → (p'.executed ≡ p.executed)
      × (p'.task_queue_priority_0.taken ≡ p.task_queue_priority_0.taken)
      × (p'.task_queue_priority_1.taken ≡ p.task_queue_priority_1.taken)
restart-runs_nothing db p e f g h =
    let s = Run-Stays db p h (e, f, refl, refl, refl, rw g tt) in (s.2, s.3, s.4)
