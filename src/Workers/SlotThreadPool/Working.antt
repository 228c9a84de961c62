-- ===== src/Workers/SlotThreadPool/Working.antt =====
-- Some thread of a SlotThreadPool can always go on with the tasks of the second queue.
use ddsproxy.Common.{
  ℕ, zero, suc, ◌≡◌, ◌≢◌, refl, Bool, true, false, none, some, Option, List, [], ◌∷◌, ◌++◌, All,
  All-append, All-middle, arith, if_cases, sym, Exception,
}
use mathlib.Core.Path.{subst}
use mathlib.Core.List.{Memᴰ}
use ddsproxy.Common.DbQueue.{DbQueue}
use ddsproxy.Workers.WaitHandler
use ddsproxy.Workers.WaitHandler.{begin_wait, end_wait, end_wait_and_decrement, increment}
use ddsproxy.Workers.Consumer.{contents, add_value}
use ddsproxy.Workers.SlotThreadPool.{
  Priority, priority_0, priority_1, Thread, disabling, joining, choosing, entering, sleeping,
  popping, looking, running, finished, broken, replicate, consumed, SlotThreadPool, new_pool,
  counter_of, queued, push_task, count_task, enable, disable_queue, begin_disable, move,
}
use ddsproxy.Workers.SlotThreadPool.Steps.{
  Step, registers, emits, emits_by_priority, counts, enables, disables, disables_second, joins,
  moves, Run, stay, later, slot_cases, emit_cases, emit_by_priority_cases,
}
use ddsproxy.Workers.SlotThreadPool.Runs.{never_broken, Run-new_pool}
use ddsproxy.Workers.SlotThreadPool.Awake.{waits_at_first, not_all_wait}

-- The thread has not left its loop.
abbrev is_there : Thread → Bool
is_there finished = false
is_there _ = true

abbrev IsThere : Thread → Type 0
IsThere w = is_there w ≡ true

-- The thread is in its loop, and does not wait for the first queue.
abbrev pub works : Thread → Bool
works (entering priority_0) = false
works (sleeping priority_0) = false
works finished = false
works (broken e) = false
works _ = true

replicate-IsThere : (n : ℕ) → All IsThere (replicate n choosing)
replicate-IsThere zero = tt
replicate-IsThere (suc n) = (refl, replicate-IsThere n)

IsThere-member : (w : Thread) (ts : List Thread) → Memᴰ w ts → All IsThere ts → IsThere w
IsThere-member w [] m h = elim m [ ]
IsThere-member w (t ∷ ts) (Memᴰ.head e) h = subst IsThere (sym e) h.0
IsThere-member w (t ∷ ts) (Memᴰ.tail m) h = IsThere-member w ts m h.1

module _ (db : DbQueue ℕ) where
  -- A thread leaves its loop only if a queue is disabled.
  abbrev Staying : SlotThreadPool db → List Thread → Type 0
  Staying p ts =
      (counter_of db priority_0 p).enabled ≡ true
      → (counter_of db priority_1 p).enabled ≡ true
      → All IsThere ts

  abbrev AllStaying : List Thread → Option (SlotThreadPool db × Thread) → Type 0
  AllStaying rest none = Unit {0}
  AllStaying rest (some (p, w)) = Staying p (w ∷ rest)

  move-Staying :
      (over : Bool) (p : SlotThreadPool db) (w : Thread) (rest : List Thread)
      → Staying p (w ∷ rest)
      → AllStaying rest (move db over p w)
  unfolding move begin_wait end_wait end_wait_and_decrement consumed
  move-Staying over p choosing rest c = ground arith
  move-Staying over p (entering priority_0) rest c = ground arith
  move-Staying over p (entering priority_1) rest c = ground arith
  move-Staying over p (sleeping priority_0) rest c = ground arith
  move-Staying over p (sleeping priority_1) rest c = ground arith
  move-Staying over p (popping priority_0) rest c = ground arith
  move-Staying over p (popping priority_1) rest c = ground arith
  move-Staying over p (looking task_id) rest c = ground arith
  move-Staying over p (running task) rest c = ground arith
  move-Staying over p finished rest c = tt
  move-Staying over p (broken e) rest c = tt

  abbrev Stays : SlotThreadPool db → Type 0
  Stays p = Staying p p.threads

  queue-Stays :
      (q : Priority) (p : SlotThreadPool db)
      → Stays p
      → ((id : ℕ) → Stays (push_task db q id p))
        × Stays (count_task db q p)
        × Stays (disable_queue db q p)
  unfolding push_task add_value count_task disable_queue increment WaitHandler.disable
  queue-Stays priority_0 p s = (λ id. ground arith, ground arith, ground arith)
  queue-Stays priority_1 p s = (λ id. ground arith, ground arith, ground arith)

  Step-Stays : (p : SlotThreadPool db) {p' : SlotThreadPool db} → Step db p p' → Stays p → Stays p'
  unfolding enable begin_disable
  Step-Stays p (registers id task e k f) s = subst Stays (slot_cases db id task p f).1 s
  Step-Stays p (emits id e b f) s =
      subst Stays (emit_cases db id p f).1 ((queue-Stays priority_0 p s).0 id)
  Step-Stays p (emits_by_priority id priority_id e b c f) s =
      let (q, known, pushed) = emit_by_priority_cases db id priority_id p f in
      subst Stays pushed ((queue-Stays q p s).0 id)
  Step-Stays p (counts q e) s = (queue-Stays q p s).1
  Step-Stays p (enables e) s =
      if_cases Stays p.enabled (λ on. s)
        (λ off on_0 on_1.
          All-append IsThere p.threads (replicate p.number_of_threads choosing) (s on_0 on_1)
            (replicate-IsThere p.number_of_threads))
  Step-Stays p (disables e) s =
      if_cases Stays p.enabled
        (λ on. (queue-Stays priority_0 (record p { enabled = false; stopping = disabling }) s).2)
        (λ off. s)
  Step-Stays p (disables_second e) s =
      (queue-Stays priority_1 (record p { stopping = joining }) s).2
  Step-Stays p (joins e h) s = λ _ _. tt
  Step-Stays p (moves over before after w w' p' e f) s =
      let front : Staying p (w ∷ before ++ after) =
        λ on_0 on_1. (All-middle IsThere before w after).0 (subst (All IsThere) e (s on_0 on_1)) in
      let moved =
        subst (AllStaying (before ++ after)) f (move-Staying over p w (before ++ after) front) in
      λ on_0 on_1. (All-middle IsThere before w' after).1 (moved on_0 on_1)

  Run-Stays : {p p' : SlotThreadPool db} → Run db p p' → Stays p → Stays p'
  Run-Stays stay s = s
  Run-Stays (later {p'} h step) s = Step-Stays p' step (Run-Stays h s)

  at_work :
      (w : Thread)
      → waits_at_first w ≡ false
      → IsThere w
      → ((e : Exception) → w ≢ broken e)
      → works w ≡ true
  at_work (entering priority_0) e there sound = absurd (cc e)
  at_work (sleeping priority_0) e there sound = absurd (cc e)
  at_work finished e there sound = absurd (cc there)
  at_work choosing e there sound = refl
  at_work (entering priority_1) e there sound = refl
  at_work (sleeping priority_1) e there sound = refl
  at_work (popping q) e there sound = refl
  at_work (looking id) e there sound = refl
  at_work (running task) e there sound = refl
  at_work (broken x) e there sound = absurd (sound x refl)

  -- However the threads of a pool and its callers interleave, from two empty queues on: while the
  -- pool and its queues are enabled, it has at least one thread and its first queue is empty, some
  -- thread is there that does not wait for the first queue: it chooses a queue, is at the second
  -- one, or takes, looks up or runs a task.
  pub never_stuck :
      (n : ℕ) (q r : db.Queue) {p : SlotThreadPool db}
      → contents db q ≡ []
      → contents db r ≡ []
      → Run db (new_pool db n q r) p
      → p.enabled ≡ true
      → (counter_of db priority_0 p).enabled ≡ true
      → (counter_of db priority_1 p).enabled ≡ true
      → p.number_of_threads ≢ 0
      → queued db priority_0 p ≡ []
      → (w : Thread) × Memᴰ w p.threads × (works w ≡ true)
  unfolding new_pool
  never_stuck n q r {p} eq er h on on_0 on_1 k e =
      let (w, m, free) = not_all_wait db n q r h on k e in
      let sound = never_broken p.slots p.threads (Run-new_pool db n q r eq er h).4.3 in
      let there = IsThere-member w p.threads m (Run-Stays h (λ _ _. tt) on_0 on_1) in
      (w, m, at_work w free there (λ x f. sound x (subst (λ t. Memᴰ t p.threads) f m)))
