-- ===== src/Workers/SlotThreadPool/Awake.antt =====
-- Not all threads of a SlotThreadPool sleep in the first queue without cause.
use ddsproxy.Common.{
  ℕ, zero, suc, ◌≡◌, ◌≢◌, refl, ◌⊎◌, inl, inr, sym, ◌∙◌, Bool, true, false, none, some, Option,
  List, [], ◌∷◌, ◌++◌, All, All-middle, arith, nat_key, Bool-cases, if_cases, length-append,
}
use mathlib.Core.Path.{subst}
use mathlib.Core.List.{Memᴰ}
use ddsproxy.Common.DbQueue.{DbQueue}
use ddsproxy.Workers.WaitHandler.{begin_wait, end_wait, end_wait_and_decrement}
use ddsproxy.Workers.Consumer.{contents-push, add_value}
use ddsproxy.Workers.SlotThreadPool.{
  Priority, priority_0, priority_1, Thread, disabling, joining, nobody, choosing, entering,
  sleeping, popping, looking, running, finished, broken, replicate, has_timeout, consumed,
  SlotThreadPool, new_pool, queued, push_task, count_task, enable, disable_queue, begin_disable,
  move,
}
use ddsproxy.Workers.SlotThreadPool.Steps.{
  Step, registers, emits, emits_by_priority, counts, enables, disables, disables_second, joins,
  moves, Run, stay, later, slot_cases, emit_cases, emit_by_priority_cases,
}

-- The thread waits for the first queue, which has no time limit.
abbrev pub waits_at_first : Thread → Bool
waits_at_first (entering priority_0) = true
waits_at_first (sleeping priority_0) = true
waits_at_first _ = false

abbrev pub IsAtFirst : Thread → Type 0
IsAtFirst w = waits_at_first w ≡ true

middle-ne : (xs : List Thread) (w : Thread) (ys : List Thread) → xs ++ w ∷ ys ≢ []
middle-ne [] w ys = ground arith
middle-ne (x ∷ xs) w ys = ground arith

-- New threads do not wait for the first queue.
started-All :
    (n : ℕ) (ts : List Thread)
    → All IsAtFirst (ts ++ replicate n choosing)
    → (n ≡ 0) × All IsAtFirst ts
started-All zero [] h = (refl, tt)
started-All (suc n) [] h = absurd (cc (h.0))
started-All n (t ∷ ts) h = let (e, hs) = started-All n ts h.1 in (e, (h.0, hs))

started-ne : (n : ℕ) (ts : List Thread) → (ts ≢ []) ⊎ (n ≢ 0) → ts ++ replicate n choosing ≢ []
started-ne zero [] h = elim h [ inl e ↦ e | inr e ↦ absurd (e refl) ]
started-ne (suc n) [] h = ground arith
started-ne n (t ∷ ts) h = ground arith

started_of_zero : (ts : List Thread) → ts ++ replicate 0 choosing ≢ [] → ts ≢ []
started_of_zero ts h e = h (rw e refl)

outsider :
    (ts : List Thread)
    → (All IsAtFirst ts → ⊥)
    → (w : Thread) × Memᴰ w ts × (waits_at_first w ≡ false)
outsider [] h = absurd (h tt)
outsider (t ∷ ts) h = elim (Bool-cases (waits_at_first t)) [
  | inr e ↦ (t, Memᴰ.head refl, e)
  | inl e ↦ let (w, m, f) = outsider ts (λ hs. h (e, hs)) in (w, Memᴰ.tail m, f)
]

module _ (db : DbQueue ℕ) where
  -- What a step of a thread leaves: a pool in which all threads wait for the first queue has
  -- something there, and the step does not enable or disable.
  abbrev AllRoused : SlotThreadPool db → List Thread → Option (SlotThreadPool db × Thread) → Type 0
  AllRoused old rest none = Unit {0}
  AllRoused old rest (some (p, w)) =
      (All IsAtFirst (w ∷ rest) → queued db priority_0 p ≢ [])
      × (p.enabled ≡ old.enabled)
      × (p.number_of_threads ≡ old.number_of_threads)
      × (p.stopping ≡ old.stopping)

  move-Roused :
      (over : Bool) (p : SlotThreadPool db) (w : Thread) (rest : List Thread)
      → (All IsAtFirst (w ∷ rest) → queued db priority_0 p ≢ [])
      → AllRoused p rest (move db over p w)
  unfolding move begin_wait end_wait end_wait_and_decrement has_timeout consumed
  move-Roused over p choosing rest c =
      ground (arith, db.both_empty-nil p.task_queue_priority_0.handler.queue)
  move-Roused over p (entering priority_0) rest c = ground arith
  move-Roused over p (entering priority_1) rest c = ground arith
  move-Roused over p (sleeping priority_0) rest c = ground arith
  move-Roused over p (sleeping priority_1) rest c = ground arith
  move-Roused over p (popping priority_0) rest c = ground arith
  move-Roused over p (popping priority_1) rest c = ground arith
  move-Roused over p (looking task_id) rest c = ground arith
  move-Roused over p (running task) rest c = ground arith
  move-Roused over p finished rest c = tt
  move-Roused over p (broken e) rest c = tt

  -- Without a call of `disable` under way, an enabled pool has its threads.
  abbrev Stirring : SlotThreadPool db → Type 0
  Stirring p =
      (All IsAtFirst p.threads → p.threads ≢ [] → queued db priority_0 p ≢ [])
      × (p.enabled ≡ true → p.number_of_threads ≢ 0 → p.threads ≢ [])
      × (p.stopping ≢ nobody → p.enabled ≡ false)

  push_task-Stirring :
      (q : Priority) (id : ℕ) (p : SlotThreadPool db) → Stirring p → Stirring (push_task db q id p)
  unfolding push_task add_value
  push_task-Stirring priority_0 id p s =
      rw (contents-push db id p.task_queue_priority_0.handler.queue)
        (ground (arith, length-append (queued db priority_0 p) (id ∷ [])))
  push_task-Stirring priority_1 id p s = ground arith

  counter-Stirring :
      (q : Priority) (p : SlotThreadPool db)
      → Stirring p
      → Stirring (count_task db q p) × Stirring (disable_queue db q p)
  unfolding count_task disable_queue
  counter-Stirring priority_0 p s = ground arith
  counter-Stirring priority_1 p s = ground arith

  enable-Stirring :
      (p : SlotThreadPool db) → p.stopping ≡ nobody → Stirring p → Stirring (enable db p)
  unfolding enable
  enable-Stirring p e s =
      if_cases Stirring p.enabled (λ on. s)
        (λ off. (
          λ h ne.
              let (no_more, at_first) = started-All p.number_of_threads p.threads h in
              s.0 at_first (started_of_zero p.threads (λ g. ne (rw (no_more, g) refl))),
          λ _ k. started-ne p.number_of_threads p.threads (inr k),
          λ k. absurd (k e),
        ))

  Step-Stirring :
      (p : SlotThreadPool db) {p' : SlotThreadPool db} → Step db p p' → Stirring p → Stirring p'
  unfolding begin_disable
  Step-Stirring p (registers id task e k f) s = subst Stirring (slot_cases db id task p f).1 s
  Step-Stirring p (emits id e b f) s =
      subst Stirring (emit_cases db id p f).1 (push_task-Stirring priority_0 id p s)
  Step-Stirring p (emits_by_priority id priority_id e b c f) s =
      let (q, known, pushed) = emit_by_priority_cases db id priority_id p f in
      subst Stirring pushed (push_task-Stirring q id p s)
  Step-Stirring p (counts q e) s = (counter-Stirring q p s).0
  Step-Stirring p (enables e) s = enable-Stirring p e s
  Step-Stirring p (disables e) s =
      if_cases Stirring p.enabled
        (λ on.
          (counter-Stirring priority_0 (record p { enabled = false; stopping = disabling })
            (s.0, λ off. absurd (cc off), λ _. refl)).1)
        (λ off. s)
  Step-Stirring p (disables_second e) s =
      (counter-Stirring priority_1 (record p { stopping = joining })
        (s.0, s.1, λ _. s.2 (λ k. absurd (cc (e, k))))).1
  Step-Stirring p (joins e h) s = ground arith
  Step-Stirring p (moves over before after w w' p' e f) s =
      let (first, threaded, off) = s in
      let at_front : All IsAtFirst (w ∷ before ++ after) → queued db priority_0 p ≢ [] = λ h.
        first (subst (All IsAtFirst) (sym e) ((All-middle IsAtFirst before w after).1 h))
          (rw e (middle-ne before w after)) in
      let (first', same_enabled, same_number, same_stopping) =
        subst (AllRoused p (before ++ after)) f (move-Roused over p w (before ++ after) at_front) in
      (
        λ h _. first' ((All-middle IsAtFirst before w' after).0 h),
        λ _ _. middle-ne before w' after,
        λ k. same_enabled ∙ off (λ g. k (same_stopping ∙ g)),
      )

  Run-Stirring : {p p' : SlotThreadPool db} → Run db p p' → Stirring p → Stirring p'
  Run-Stirring stay s = s
  Run-Stirring (later {p'} h step) s = Step-Stirring p' step (Run-Stirring h s)

  -- While a pool is enabled with at least one thread and its first queue is empty, some thread does
  -- not wait for that queue.
  pub not_all_wait :
      (n : ℕ) (q r : db.Queue) {p : SlotThreadPool db}
      → Run db (new_pool db n q r) p
      → p.enabled ≡ true
      → p.number_of_threads ≢ 0
      → queued db priority_0 p ≡ []
      → (w : Thread) × Memᴰ w p.threads × (waits_at_first w ≡ false)
  unfolding new_pool
  not_all_wait n q r {p} h on k e =
      let (busy, threaded, off) =
        Run-Stirring h (λ _ ne. absurd (ne refl), λ f. absurd (cc f), λ ne. absurd (ne refl)) in
      outsider p.threads (λ at_first. busy at_first (threaded on k) e)
