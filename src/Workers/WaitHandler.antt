-- ===== src/Workers/WaitHandler.antt =====
-- WaitHandler of dev-utils/cpp_utils/include/cpp_utils/wait/impl/WaitHandler.ipp, and the counting and
-- boolean handlers of src/cpp/wait. A function is one locked region; a wait is two of them, since
-- the mutex is free while the thread sleeps on the condition variable.
use ddsproxy.Common.{
  ℕ, ◌+◌, ◌-◌, ◌^◌, ◌%◌, Bool, false, not, ◌||◌, Option, none, some, ltb, if◌then◌else◌,
}

pub data AwakeReason : Type 0 where
  disabled timeout condition_met : AwakeReason

pub record WaitHandler {ℓ} (T : Type ℓ) : Type ℓ where
  pub value : T
  pub enabled : Bool
  pub threads_waiting : ℕ

module _ {ℓ} {T : Type ℓ} where
  unfoldable pub new_wait_handler : T → Bool → WaitHandler T
  new_wait_handler init_value enabled = record {
    value = init_value;
    enabled = enabled;
    threads_waiting = 0;
  }

  unfoldable pub disable : WaitHandler T → WaitHandler T
  disable w = if w.enabled then record w { enabled = false } else w

  -- `blocking_wait_` up to the condition variable: the reason if it returns at once.
  unfoldable pub begin_wait : WaitHandler T → Option AwakeReason × WaitHandler T
  begin_wait w =
      if w.enabled
      then (none, record w { threads_waiting = w.threads_waiting + 1 })
      else (some disabled, w)

  -- `blocking_wait_` when the condition variable wakes, with whether the time is over: nothing
  -- if the thread sleeps again.
  unfoldable pub end_wait : (T → Bool) → Bool → WaitHandler T → Option (AwakeReason × WaitHandler T)
  end_wait predicate time_over w =
      let finished_for_condition_met = not w.enabled || predicate w.value in
      let left = record w { threads_waiting = w.threads_waiting - 1 } in
      if finished_for_condition_met || time_over
      then some (
        (if not w.enabled
            then disabled
            else if finished_for_condition_met
            then condition_met
            else timeout),
        left,
      )
      else none

-- `CounterType` is `unsigned int`.
unfoldable pub increment : WaitHandler ℕ → WaitHandler ℕ
increment w = record w { value = (w.value + 1) % 2 ^ 32 }

unfoldable pub decrease_1 : WaitHandler ℕ → WaitHandler ℕ
decrease_1 w = record w { value = (w.value + (2 ^ 32 - 1)) % 2 ^ 32 }

-- `wait_and_decrement` when the condition variable wakes.
unfoldable pub end_wait_and_decrement :
    ℕ → Bool → WaitHandler ℕ → Option (AwakeReason × WaitHandler ℕ)
end_wait_and_decrement threshold time_over w =
    elim (end_wait (λ value. ltb threshold value) time_over w) [
      | none ↦ none
      | some (condition_met, v) ↦ some (condition_met, decrease_1 v)
      | some (timeout, v) ↦ some (timeout, v)
      | some (disabled, v) ↦ some (disabled, v)
    ]
