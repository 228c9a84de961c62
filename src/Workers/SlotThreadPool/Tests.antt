-- ===== src/Workers/SlotThreadPool/Tests.antt =====
-- A SlotThreadPool of two threads, with task 7 under the id 1, over queues of two lists.
use ddsproxy.Common.{
  ℕ, ◌+◌, ◌≡◌, refl, Bool, true, false, Option, none, some, List, [], ◌∷◌, ◌++◌, sum, Exception,
  arith,
}
use mathlib.Core.List.{Memᴰ}
use ddsproxy.Common.Map.{Map, find, insert}
use ddsproxy.Common.DbQueue.{two_lists}
use ddsproxy.Workers.WaitHandler
use ddsproxy.Workers.WaitHandler.{
  WaitHandler, increment, begin_wait, end_wait, end_wait_and_decrement, decrease_1,
}
use ddsproxy.Workers.Consumer.{new_consumer, add_value, get_next_value}
use ddsproxy.Workers.SlotThreadPool.{
  Priority, priority_0, priority_1, Thread, choosing, entering, sleeping, popping, looking, running,
  finished, broken, nobody, TaskQueue, SlotThreadPool, new_pool, new_task_queue, queued, slot,
  push_task, count_task, emit_by_priority, priority_of, consumed, enable, move,
}
use ddsproxy.Workers.SlotThreadPool.Steps.{
  Step, registers, emits_by_priority, counts, enables, moves, Run, stay, later,
}
use ddsproxy.Workers.SlotThreadPool.Calls.{in_hand, count, called}
use ddsproxy.Workers.SlotThreadPool.Executions.{pool_accounts}
use ddsproxy.Workers.SlotThreadPool.Working.{works, never_stuck}
use ddsproxy.Workers.SlotThreadPool.Restart.{restart-runs_nothing}

abbrev Pool : Type 0
Pool = SlotThreadPool two_lists

-- A queue whose ids came in order, with what is left of them in the background.
abbrev lane : ℕ → Bool → List ℕ → List ℕ → TaskQueue two_lists
lane value enabled taken back = record {
  handler = record {
    counter = record { value = value; enabled = enabled; threads_waiting = 0 };
    queue = ([], back);
  };
  emitted = taken ++ back;
  taken = taken;
}

abbrev pool : Map ℕ ℕ → Bool → List Thread → Option Priority → TaskQueue two_lists → Pool
pool slots enabled threads emitter first = record {
  number_of_threads = 2;
  task_queue_priority_0 = first;
  task_queue_priority_1 = lane 0 true [] [];
  threads = threads;
  slots = slots;
  enabled = enabled;
  emitter = emitter;
  stopping = nobody;
  executed = [];
}

abbrev step_to :
    {old p : Pool} → Run two_lists old p → (p' : Pool) → Step two_lists p p' → Run two_lists old p'
step_to h p' step = later h step

abbrev fresh_pool : Pool
fresh_pool = pool [] false [] none (lane 0 true [] [])

-- Task 7 is registered, the pool is enabled, and the id 1 is counted in the first queue.
abbrev slots_of_7 : Map ℕ ℕ
slots_of_7 = (1, 7) ∷ []

abbrev idle_threads : List Thread
idle_threads = choosing ∷ choosing ∷ []

abbrev loaded_pool : Pool
loaded_pool = pool slots_of_7 true idle_threads none (lane 1 true [] (1 ∷ []))

loaded : Run two_lists fresh_pool loaded_pool
unfolding slot emit_by_priority push_task count_task enable find insert priority_of add_value
    increment
loaded =
    let registered =
      step_to {old = fresh_pool} {p = fresh_pool} stay
        (pool slots_of_7 false [] none (lane 0 true [] []))
        (registers 1 7 refl (λ e. absurd (omega (arith, e))) refl) in
    let enabled =
      step_to registered (pool slots_of_7 true idle_threads none (lane 0 true [] []))
        (enables refl) in
    let emitted =
      step_to enabled
        (pool slots_of_7 true idle_threads (some priority_0) (lane 0 true [] (1 ∷ [])))
        (emits_by_priority 1 0 refl (omega arith) (omega arith) refl) in
    step_to emitted loaded_pool (counts priority_0 refl)

-- Both threads saw the id; the first one has it, and the second one waits for another.
abbrev working_pool : Pool
working_pool =
    pool slots_of_7 true (running 7 ∷ entering priority_0 ∷ []) none (lane 0 true (1 ∷ []) [])

abbrev first_at : Thread → TaskQueue two_lists → Pool
first_at w first = pool slots_of_7 true (w ∷ entering priority_0 ∷ []) none first

abbrev sleeping_lane : TaskQueue two_lists
sleeping_lane = record {
  handler = record {
    counter = record { value = 1; enabled = true; threads_waiting = 1 };
    queue = ([], 1 ∷ []);
  };
  emitted = 1 ∷ [];
  taken = [];
}

working : Run two_lists fresh_pool working_pool
unfolding move begin_wait end_wait_and_decrement end_wait decrease_1 get_next_value consumed find
working =
    let others = entering priority_0 ∷ [] in
    let second =
      step_to loaded (pool slots_of_7 true (choosing ∷ others) none (lane 1 true [] (1 ∷ [])))
        (moves false (choosing ∷ []) [] choosing (entering priority_0) loaded_pool refl refl) in
    let first =
      step_to second (first_at (entering priority_0) (lane 1 true [] (1 ∷ [])))
        (moves false [] others choosing (entering priority_0) _ refl refl) in
    let slept = step_to first (first_at (sleeping priority_0) sleeping_lane) (
      moves false [] others (entering priority_0) (sleeping priority_0)
        (first_at (entering priority_0) sleeping_lane) refl refl) in
    let woken = step_to slept (first_at (popping priority_0) (lane 0 true [] (1 ∷ []))) (
      moves false [] others (sleeping priority_0) (popping priority_0)
        (first_at (sleeping priority_0) (lane 0 true [] (1 ∷ []))) refl refl) in
    let popped = step_to woken (first_at (looking 1) (lane 0 true (1 ∷ []) [])) (
      moves false [] others (popping priority_0) (looking 1)
        (first_at (popping priority_0) (lane 0 true (1 ∷ []) [])) refl refl) in
    step_to popped working_pool (
      moves false [] others (looking 1) (running 7) (first_at (looking 1) (lane 0 true (1 ∷ []) []))
        refl refl)

pool_accounts_example :
    ((e : Exception) → Memᴰ (broken e) working_pool.threads → ⊥)
    × (working_pool.task_queue_priority_0.emitted
        ≡ working_pool.task_queue_priority_0.taken ++ queued two_lists priority_0 working_pool)
    × (working_pool.task_queue_priority_1.emitted
        ≡ working_pool.task_queue_priority_1.taken ++ queued two_lists priority_1 working_pool)
    × ((task : ℕ)
        → count task working_pool.executed
            + sum (in_hand working_pool.slots task) working_pool.threads
          ≡ called working_pool.slots task working_pool.task_queue_priority_0.taken
            + called working_pool.slots task working_pool.task_queue_priority_1.taken)
unfolding new_pool new_task_queue new_consumer WaitHandler.new_wait_handler
pool_accounts_example = pool_accounts two_lists 2 ([], []) ([], []) refl refl working

never_stuck_example : (w : Thread) × Memᴰ w working_pool.threads × (works w ≡ true)
unfolding new_pool new_task_queue new_consumer WaitHandler.new_wait_handler
never_stuck_example =
    never_stuck two_lists 2 ([], []) ([], []) refl refl working refl refl refl
      (λ e. absurd (omega (arith, e))) refl

-- What a `disable` of the loaded pool leaves; it is enabled again, and a thread comes.
abbrev off_lane : List ℕ → TaskQueue two_lists
off_lane back = lane 1 false [] back

abbrev off_pool : Pool
off_pool = record (pool slots_of_7 false [] none (lane 1 false [] (1 ∷ []))) {
  task_queue_priority_1 = lane 0 false [] [];
}

abbrev restarted_pool : Pool
restarted_pool = record off_pool { enabled = true; threads = finished ∷ choosing ∷ [] }

restarted : Run two_lists off_pool restarted_pool
unfolding move enable begin_wait
restarted =
    let others = choosing ∷ [] in
    let enabled =
      step_to {old = off_pool} {p = off_pool} stay
        (record off_pool { enabled = true; threads = idle_threads }) (enables refl) in
    let chosen =
      step_to enabled (record off_pool { enabled = true; threads = entering priority_0 ∷ others })
        (moves false [] others choosing (entering priority_0) _ refl refl) in
    step_to chosen restarted_pool (
      moves false [] others (entering priority_0) finished
        (record off_pool { enabled = true; threads = entering priority_0 ∷ others }) refl refl)

restart-runs_nothing_example :
    (restarted_pool.executed ≡ off_pool.executed)
    × (restarted_pool.task_queue_priority_0.taken ≡ off_pool.task_queue_priority_0.taken)
    × (restarted_pool.task_queue_priority_1.taken ≡ off_pool.task_queue_priority_1.taken)
restart-runs_nothing_example = restart-runs_nothing two_lists off_pool refl refl refl restarted
