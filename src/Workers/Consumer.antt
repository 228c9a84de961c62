-- ===== src/Workers/Consumer.antt =====
-- ConsumerWaitHandler and DBQueueWaitHandler of dev-utils/cpp_utils/include/cpp_utils/wait/impl: a
-- counter of what can be consumed, and the DBQueue that holds it.
use ddsproxy.Common.{
  ℕ, ◌≡◌, ◌≢◌, refl, true, none, some, List, [], ◌∷◌, ◌++◌, arith, ◌∙◌, inl, inr, List-cases,
  Result, ok, throw, inconsistency_exception,
}
use ddsproxy.Common.DbQueue.{DbQueue}
use ddsproxy.Workers.WaitHandler.{WaitHandler, new_wait_handler}
use mathlib.Core.List.{append-nil, append_assoc}

module _ {A : Type 0} (db : DbQueue A) where
  open db use {
    Queue, push, swap, front, pop, foreground, background, foreground-push, background-push,
    foreground-swap, background-swap, front-nil, front-cons, foreground-pop, background-pop,
  }

  pub record DbQueueWaitHandler : Type 0 where
    pub counter : WaitHandler ℕ
    pub queue : Queue

  -- The default constructor.
  unfoldable pub new_consumer : Queue → DbQueueWaitHandler
  new_consumer q = record { counter = new_wait_handler 0 true; queue = q }

  -- The first half of `produce`; the second is `increment`.
  unfoldable pub add_value : A → DbQueueWaitHandler → DbQueueWaitHandler
  add_value value h = record h { queue = push value h.queue }

  -- `get_next_value_`; `front` of nothing is `Empty`.
  unfoldable pub get_next_value : Queue → Result (A × Queue)
  get_next_value q = elim (front q) [
    | some value ↦ ok (value, pop q)
    | none ↦ elim (front (swap q)) [
      | some value ↦ ok (value, pop (swap q))
      | none ↦ throw inconsistency_exception
    ]
  ]

  -- What is in the queue, the oldest first.
  abbrev pub contents : Queue → List A
  contents q = foreground q ++ background q

  pub contents-push : (a : A) (q : Queue) → contents (push a q) ≡ contents q ++ a ∷ []
  contents-push a q =
      rw (foreground-push a q, background-push a q, append_assoc (foreground q) (background q)) refl

  pub get_next_value-contents :
      (q : Queue)
      → contents q ≢ []
      → (a : A) × (q' : Queue) × (get_next_value q ≡ ok (a, q')) × (contents q ≡ a ∷ contents q')
  unfolding get_next_value
  get_next_value-contents q h = elim (List-cases (foreground q)) [
    | inr (a, as_, e) ↦ (
      a,
      pop q,
      ground (arith, front-cons q a as_ e),
      rw (foreground-pop q a as_ e, background-pop q, e) refl,
    )
    | inl e ↦ elim (List-cases (background q)) [
      | inl e' ↦ absurd (h (rw (e, e') refl))
      | inr (a, as_, e') ↦
          let s = foreground-swap q ∙ e' in
          (
            a,
            pop (swap q),
            ground (arith, front-nil q e, front-cons (swap q) a as_ s),
            rw
                (
                  foreground-pop (swap q) a as_ s,
                  background-pop (swap q),
                  background-swap q,
                  e,
                  e',
                  append-nil,
                )
                refl,
          )
    ]
  ]
