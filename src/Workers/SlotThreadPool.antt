-- ===== src/Workers/SlotThreadPool.antt =====
-- SlotThreadPool of dev-utils/cpp_utils/src/cpp/thread_pool/pool/SlotThreadPool.cpp: tasks under ids,
-- two queues of ids by priority, and the threads that run them. The threads, the emitters and who
-- enables and disables the pool interleave; a step is one locked region.
pub mod Steps
pub mod Accounts
pub mod Runs
pub mod Awake
pub mod Working
pub mod Calls
pub mod Executions
pub mod Restart
mod Tests
use ddsproxy.Common.{
  ℕ, zero, suc, ◌+◌, ◌^◌, ◌<◌, ◌≡◌, ◌≢◌, Bool, true, false, ◌&&◌, Option, none, some, List, [], ◌∷◌,
  ◌++◌, if◌then◌else◌, nat_beq, length, All, Exception, Result, ok, throw, nat_key,
  inconsistency_exception, value_not_allowed_exception,
}
use ddsproxy.Common.Map.{Map, find, insert}
use ddsproxy.Common.DbQueue.{DbQueue}
use ddsproxy.Workers.WaitHandler
use ddsproxy.Workers.WaitHandler.{
  WaitHandler, disabled, timeout, condition_met, increment, begin_wait, end_wait_and_decrement,
}
use ddsproxy.Workers.Consumer.{
  DbQueueWaitHandler, new_consumer, add_value, get_next_value, contents,
}

pub data Priority : Type 0 where
  priority_0 priority_1 : Priority

-- Where a thread is in `thread_routine_`: before the test of the first queue, before `blocking_wait_`,
-- in it, before `get_next_value_`, before the search of the slot, in the task, out of the loop by
-- a DisabledException, or stopped by an exception that nothing catches.
pub data Thread : Type 0 where
  choosing : Thread
  entering sleeping popping : Priority → Thread
  looking running : ℕ → Thread
  finished : Thread
  broken : Exception → Thread

-- The thread that calls `disable`: not there, before it disables the second queue, or joining.
pub data Stopping : Type 0 where
  nobody disabling joining : Stopping

-- Only the second queue is read with a time limit.
unfoldable pub has_timeout : Priority → Bool
has_timeout priority_0 = false
has_timeout priority_1 = true

-- The id that `consume` returned, 0 after a timeout.
unfoldable pub consumed : Priority → ℕ → Thread
consumed priority_0 task_id = looking task_id
consumed priority_1 task_id = if nat_beq task_id 0 then choosing else looking task_id

unfoldable pub priority_of : ℕ → Option Priority
priority_of zero = some priority_0
priority_of (suc zero) = some priority_1
priority_of (suc (suc n)) = none

abbrev pub replicate {ℓ} : {A : Type ℓ} → ℕ → A → List A
replicate zero a = []
replicate (suc n) a = a ∷ replicate n a

abbrev pub IsFinished : Thread → Type 0
IsFinished w = w ≡ finished

module _ (db : DbQueue ℕ) where
  open db use {Queue, both_empty}

  -- A queue of the pool; `emitted` and `taken` only record what went in and out.
  pub record TaskQueue : Type 0 where
    pub handler : DbQueueWaitHandler db
    pub emitted : List ℕ
    pub taken : List ℕ

  -- `emitter` is the queue of the thread that holds `slots_mutex_` between the push and the increment
  -- of `produce`; `executed` only records the tasks that have run.
  pub record SlotThreadPool : Type 0 where
    pub number_of_threads : ℕ
    pub task_queue_priority_0 : TaskQueue
    pub task_queue_priority_1 : TaskQueue
    pub threads : List Thread
    pub slots : Map ℕ ℕ
    pub enabled : Bool
    pub emitter : Option Priority
    pub stopping : Stopping
    pub executed : List ℕ

  unfoldable pub new_task_queue : Queue → TaskQueue
  new_task_queue q = record { handler = new_consumer db q; emitted = []; taken = [] }

  -- The constructor, over two empty queues.
  unfoldable pub new_pool : ℕ → Queue → Queue → SlotThreadPool
  new_pool n_threads q r = record {
    number_of_threads = n_threads;
    task_queue_priority_0 = new_task_queue q;
    task_queue_priority_1 = new_task_queue r;
    threads = [];
    slots = [];
    enabled = false;
    emitter = none;
    stopping = nobody;
    executed = [];
  }

  abbrev pub queue_of : Priority → SlotThreadPool → TaskQueue
  queue_of priority_0 p = p.task_queue_priority_0
  queue_of priority_1 p = p.task_queue_priority_1

  abbrev pub set_queue : Priority → TaskQueue → SlotThreadPool → SlotThreadPool
  set_queue priority_0 t p = record p { task_queue_priority_0 = t }
  set_queue priority_1 t p = record p { task_queue_priority_1 = t }

  abbrev pub counter_of : Priority → SlotThreadPool → WaitHandler ℕ
  counter_of q p = (queue_of q p).handler.counter

  abbrev pub set_counter : Priority → WaitHandler ℕ → SlotThreadPool → SlotThreadPool
  set_counter q c p =
      let t = queue_of q p in
      set_queue q (record t { handler = record t.handler { counter = c } }) p

  -- What is in a queue, the oldest first.
  abbrev pub queued : Priority → SlotThreadPool → List ℕ
  queued q p = contents db (queue_of q p).handler.queue

  unfoldable pub slot : ℕ → ℕ → SlotThreadPool → Result SlotThreadPool
  slot task_id task p = elim (find task_id p.slots) [
    | some other ↦ throw value_not_allowed_exception
    | none ↦ ok (record p { slots = insert task_id task p.slots })
  ]

  -- `produce` up to the push.
  unfoldable pub push_task : Priority → ℕ → SlotThreadPool → SlotThreadPool
  push_task q task_id p =
      let t = queue_of q p in
      let grown = record t {
        handler = add_value db task_id t.handler;
        emitted = t.emitted ++ task_id ∷ [];
      } in
      set_queue q grown (record p { emitter = some q })

  -- The rest of `produce`.
  unfoldable pub count_task : Priority → SlotThreadPool → SlotThreadPool
  count_task q p = set_counter q (increment (counter_of q p)) (record p { emitter = none })

  unfoldable pub emit : ℕ → SlotThreadPool → Result SlotThreadPool
  emit task_id p = elim (find task_id p.slots) [
    | none ↦ throw value_not_allowed_exception
    | some task ↦ ok (push_task priority_0 task_id p)
  ]

  unfoldable pub emit_by_priority : ℕ → ℕ → SlotThreadPool → Result SlotThreadPool
  emit_by_priority task_id priority_id p = elim (find task_id p.slots) [
    | none ↦ throw value_not_allowed_exception
    | some task ↦ elim (priority_of priority_id) [
      | some q ↦ ok (push_task q task_id p)
      | none ↦ throw value_not_allowed_exception
    ]
  ]

  unfoldable pub enable : SlotThreadPool → SlotThreadPool
  enable p = if p.enabled then p else record p {
    enabled = true;
    threads = p.threads ++ replicate p.number_of_threads choosing;
  }

  unfoldable pub disable_queue : Priority → SlotThreadPool → SlotThreadPool
  disable_queue q p = set_counter q (WaitHandler.disable (counter_of q p)) p

  -- `disable` up to the second queue; it goes on only if the pool was enabled.
  unfoldable pub begin_disable : SlotThreadPool → SlotThreadPool
  begin_disable p =
      if p.enabled
      then disable_queue priority_0 (record p { enabled = false; stopping = disabling })
      else p

  -- One step of a thread, with whether the time of its wait is over; nothing if it cannot go on.
  unfoldable pub move : Bool → SlotThreadPool → Thread → Option (SlotThreadPool × Thread)
  move time_over p choosing = some (
    p,
    entering (if both_empty p.task_queue_priority_0.handler.queue then priority_1 else priority_0),
  )
  move time_over p (entering q) =
      let (left, c) = begin_wait (counter_of q p) in
      elim left [
        | some reason ↦ some (set_counter q c p, finished)
        | none ↦ some (set_counter q c p, sleeping q)
      ]
  move time_over p (sleeping q) =
      elim (end_wait_and_decrement 0 (time_over && has_timeout q) (counter_of q p)) [
        | none ↦ none
        | some (disabled, c) ↦ some (set_counter q c p, finished)
        | some (timeout, c) ↦ some (set_counter q c p, consumed q 0)
        | some (condition_met, c) ↦ some (set_counter q c p, popping q)
      ]
  move time_over p (popping q) =
      let t = queue_of q p in
      elim (get_next_value db t.handler.queue) [
        | throw e ↦ some (p, broken e)
        | ok (task_id, rest) ↦ some (
          set_queue q
              (record t {
                handler = record t.handler { queue = rest };
                taken = t.taken ++ task_id ∷ [];
              })
              p,
          consumed q task_id,
        )
      ]
  move time_over p (looking task_id) = elim p.emitter [
    | some q ↦ none
    | none ↦ elim (find task_id p.slots) [
      | none ↦ some (p, broken inconsistency_exception)
      | some task ↦ some (p, running task)
    ]
  ]
  move time_over p (running task) = some (record p { executed = p.executed ++ task ∷ [] }, choosing)
  move time_over p finished = none
  move time_over p (broken e) = none
