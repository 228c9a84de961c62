-- ===== src/Workers/SlotThreadPool/Runs.antt =====
-- The accounts of a SlotThreadPool through any steps.
use ddsproxy.Common.{
  ℕ, zero, suc, ◌+◌, ◌^◌, ◌<◌, ◌≡◌, ◌≢◌, refl, false, none, some, List, [], ◌∷◌, ◌++◌, length,
  length-append, All, All-append, All-middle, All-weaker, sum, sum-middle, arith, nat_key,
  Exception, inl, inr, sym, Bool-cases,
}
use mathlib.Core.Path.{subst}
use mathlib.Core.List.{append_assoc, Memᴰ}
use ddsproxy.Common.Map.{Map, find, insert, find-insert}
use ddsproxy.Common.DbQueue.{DbQueue}
use ddsproxy.Workers.WaitHandler
use ddsproxy.Workers.WaitHandler.{increment, new_wait_handler}
use ddsproxy.Workers.Consumer.{contents, contents-push, new_consumer, add_value}
use ddsproxy.Workers.SlotThreadPool.{
  Priority, priority_0, priority_1, disabling, joining, Thread, choosing, entering, sleeping,
  popping, looking, running, broken, replicate, IsFinished, finished, SlotThreadPool, new_pool,
  new_task_queue, queued, push_task, count_task, enable, disable_queue, begin_disable,
}
use ddsproxy.Workers.SlotThreadPool.Steps.{
  Step, registers, emits, emits_by_priority, counts, enables, disables, disables_second, joins,
  moves, Run, stay, later, slot_cases, emit_cases, emit_by_priority_cases,
}
use ddsproxy.Workers.SlotThreadPool.Accounts.{
  pops, sleeps, IsSlot, IsFit, Sound, AllSound, move-Sound,
}

-- A sum over threads that are all the same, or all out of the loop.
pub sum-replicate :
    (f : Thread → ℕ) (n : ℕ) (ts : List Thread)
    → f choosing ≡ 0
    → sum f (ts ++ replicate n choosing) ≡ sum f ts
sum-replicate f zero [] e = refl
sum-replicate f (suc n) [] e = omega (arith, e, sum-replicate f n [] e)
sum-replicate f n (t ∷ ts) e = omega (arith, sum-replicate f n ts e)

pub sum-finished :
    (f : Thread → ℕ) (ts : List Thread) → f finished ≡ 0 → All IsFinished ts → sum f ts ≡ 0
sum-finished f [] e h = refl
sum-finished f (t ∷ ts) e h = rw (h.0, e) (omega (arith, sum-finished f ts e h.1))

replicate-IsFit : (slots : Map ℕ ℕ) (n : ℕ) → All (IsFit slots) (replicate n choosing)
replicate-IsFit slots zero = tt
replicate-IsFit slots (suc n) = (tt, replicate-IsFit slots n)

pub insert-IsSlot :
    (k v : ℕ) (slots : Map ℕ ℕ) (id : ℕ) → IsSlot slots id → IsSlot (insert k v slots) id
insert-IsSlot k v slots id h e = ground (arith, find-insert id k v slots)

insert-IsFit : (k v : ℕ) (slots : Map ℕ ℕ) (w : Thread) → IsFit slots w → IsFit (insert k v slots) w
insert-IsFit k v slots (looking id) h = insert-IsSlot k v slots id h
insert-IsFit k v slots choosing h = tt
insert-IsFit k v slots (entering q) h = tt
insert-IsFit k v slots (sleeping q) h = tt
insert-IsFit k v slots (popping q) h = tt
insert-IsFit k v slots (running task) h = tt
insert-IsFit k v slots finished h = tt
insert-IsFit k v slots (broken e) h = h

pub never_broken :
    (slots : Map ℕ ℕ) (ts : List Thread)
    → All (IsFit slots) ts
    → (e : Exception) → Memᴰ (broken e) ts
    → ⊥
never_broken slots [] h e m = elim m [ ]
never_broken slots (t ∷ ts) h e (Memᴰ.head q) = subst (IsFit slots) (sym q) h.0
never_broken slots (t ∷ ts) h e (Memᴰ.tail m) = never_broken slots ts h.1 e m

module _ (db : DbQueue ℕ) where
  -- The accounts depend on the threads by these sums only.
  Sound-same :
      (p : SlotThreadPool db) (ts us : List Thread)
      → ((f : Thread → ℕ) → f choosing ≡ 0 → f finished ≡ 0 → sum f ts ≡ sum f us)
      → (All (IsFit p.slots) ts → All (IsFit p.slots) us)
      → Sound db p ts
      → Sound db p us
  Sound-same p ts us same fit s = ground (
    arith,
    same (pops priority_0) refl refl,
    same (pops priority_1) refl refl,
    same (sleeps priority_0) refl refl,
    same (sleeps priority_1) refl refl,
    fit s.4.3,
  )

  abbrev pub Kept : SlotThreadPool db → Type 0
  Kept p = Sound db p p.threads

  pub new_pool-Sound :
      (n : ℕ) (q r : db.Queue)
      → contents db q ≡ []
      → contents db r ≡ []
      → Sound db (new_pool db n q r) []
  unfolding new_pool new_task_queue new_consumer new_wait_handler find
  new_pool-Sound n q r e f = rw (e, f) (ground arith)

  push_task-Kept :
      (q : Priority) (id : ℕ) (p : SlotThreadPool db)
      → p.emitter ≡ none
      → IsSlot p.slots id
      → length (queued db q p) + 1 < 2 ^ 32
      → Kept p
      → Kept (push_task db q id p)
  unfolding push_task add_value
  push_task-Kept priority_0 id p e k b s =
      rw (contents-push db id p.task_queue_priority_0.handler.queue) (
        ground (
          arith,
          length-append (queued db priority_0 p) (id ∷ []),
          append_assoc p.task_queue_priority_0.taken (queued db priority_0 p) (id ∷ []),
          All-append (IsSlot p.slots) (queued db priority_0 p) (id ∷ []) s.4.1 (k, tt),
        ))
  push_task-Kept priority_1 id p e k b s =
      rw (contents-push db id p.task_queue_priority_1.handler.queue) (
        ground (
          arith,
          length-append (queued db priority_1 p) (id ∷ []),
          append_assoc p.task_queue_priority_1.taken (queued db priority_1 p) (id ∷ []),
          All-append (IsSlot p.slots) (queued db priority_1 p) (id ∷ []) s.4.2 (k, tt),
        ))

  count_task-Kept :
      (q : Priority) (p : SlotThreadPool db)
      → p.emitter ≡ some q
      → Kept p
      → Kept (count_task db q p)
  unfolding count_task increment
  count_task-Kept priority_0 p e s = ground arith
  count_task-Kept priority_1 p e s = ground arith

  slot-Kept :
      (id task : ℕ) (p : SlotThreadPool db)
      → id ≢ 0
      → Kept p
      → Kept (record p { slots = insert id task p.slots })
  slot-Kept id task p k s =
      let grown = insert-IsSlot id task p.slots in
      ground (
        arith,
        find-insert 0 id task p.slots,
        All-weaker _ _ (queued db priority_0 p) grown s.4.1,
        All-weaker _ _ (queued db priority_1 p) grown s.4.2,
        All-weaker _ _ p.threads (insert-IsFit id task p.slots) s.4.3,
      )

  enable-Kept : (p : SlotThreadPool db) → Kept p → Kept (enable db p)
  unfolding enable
  enable-Kept p s = elim (Bool-cases p.enabled) [
    | inl e ↦ rw e s
    | inr e ↦
        let fresh = replicate p.number_of_threads choosing in
        rw e (
          Sound-same p p.threads (p.threads ++ fresh)
            (λ f z y. sym (sum-replicate f p.number_of_threads p.threads z))
            (λ h. All-append _ p.threads fresh h (replicate-IsFit p.slots p.number_of_threads)) s)
  ]

  disable_queue-Kept : (q : Priority) (p : SlotThreadPool db) → Kept p → Kept (disable_queue db q p)
  unfolding disable_queue WaitHandler.disable
  disable_queue-Kept priority_0 p s = ground arith
  disable_queue-Kept priority_1 p s = ground arith

  begin_disable-Kept : (p : SlotThreadPool db) → Kept p → Kept (begin_disable db p)
  unfolding begin_disable
  begin_disable-Kept p s = elim (Bool-cases p.enabled) [
    | inl e ↦
        rw e (disable_queue-Kept priority_0 (record p { enabled = false; stopping = disabling }) s)
    | inr e ↦ rw e s
  ]

  room :
      (q : Priority) (p : SlotThreadPool db)
      → length (queued db priority_0 p) + 1 < 2 ^ 32
      → length (queued db priority_1 p) + 1 < 2 ^ 32
      → length (queued db q p) + 1 < 2 ^ 32
  room priority_0 p b c = b
  room priority_1 p b c = c

  -- The thread that moves comes first.
  pub front-Sound :
      (p : SlotThreadPool db) (before after : List Thread) (w : Thread)
      → p.threads ≡ before ++ w ∷ after
      → Kept p
      → Sound db p (w ∷ before ++ after)
  front-Sound p before after w e s =
      Sound-same p p.threads (w ∷ before ++ after) (λ g y z. rw e (sum-middle g before w after))
        (λ h. (All-middle _ before w after).0 (subst (All (IsFit p.slots)) e h)) s

  Step-Kept : (p : SlotThreadPool db) {p' : SlotThreadPool db} → Step db p p' → Kept p → Kept p'
  Step-Kept p (registers id task e k f) s =
      subst Kept (slot_cases db id task p f).1 (slot-Kept id task p k s)
  Step-Kept p (emits id e b f) s =
      let (known, pushed) = emit_cases db id p f in
      subst Kept pushed (push_task-Kept priority_0 id p e known b s)
  Step-Kept p (emits_by_priority id priority_id e b c f) s =
      let (q, known, pushed) = emit_by_priority_cases db id priority_id p f in
      subst Kept pushed (push_task-Kept q id p e known (room q p b c) s)
  Step-Kept p (counts q e) s = count_task-Kept q p e s
  Step-Kept p (enables e) s = enable-Kept p s
  Step-Kept p (disables e) s = begin_disable-Kept p s
  Step-Kept p (disables_second e) s =
      disable_queue-Kept priority_1 (record p { stopping = joining }) s
  Step-Kept p (joins e h) s =
      Sound-same p p.threads [] (λ f y z. sum-finished f p.threads z h) (λ _. tt) s
  Step-Kept p (moves over before after w w' p' e f) s =
      let front = front-Sound p before after w e s in
      Sound-same p' (w' ∷ before ++ after) (before ++ w' ∷ after)
        (λ g y z. sym (sum-middle g before w' after)) (All-middle _ before w' after).1
        (subst (AllSound db (before ++ after)) f (move-Sound db over p w (before ++ after) front))

  pub Run-Kept : {p p' : SlotThreadPool db} → Run db p p' → Kept p → Kept p'
  Run-Kept stay s = s
  Run-Kept (later {p'} h step) s = Step-Kept p' step (Run-Kept h s)

  pub Run-new_pool :
      (n : ℕ) (q r : db.Queue) {p : SlotThreadPool db}
      → contents db q ≡ []
      → contents db r ≡ []
      → Run db (new_pool db n q r) p
      → Kept p
  unfolding new_pool
  Run-new_pool n q r e f h = Run-Kept h (new_pool-Sound n q r e f)
