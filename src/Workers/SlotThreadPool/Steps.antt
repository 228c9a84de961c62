-- ===== src/Workers/SlotThreadPool/Steps.antt =====
-- The steps of a SlotThreadPool and of those who call it.
use ddsproxy.Common.{
  ℕ, ◌+◌, ◌^◌, ◌<◌, ◌≡◌, ◌≢◌, Bool, none, some, List, [], ◌∷◌, ◌++◌, length, All, ok, Option-cases,
  inl, inr, arith, nat_key,
}
use ddsproxy.Common.Map.{find, insert}
use ddsproxy.Common.DbQueue.{DbQueue}
use ddsproxy.Workers.SlotThreadPool.{
  Priority, priority_0, priority_1, Thread, nobody, disabling, joining, IsFinished, priority_of,
  SlotThreadPool, queued, slot, push_task, count_task, emit, emit_by_priority, enable,
  disable_queue, begin_disable, move,
}

module _ (db : DbQueue ℕ) where
  pub data Step (p : SlotThreadPool db) : SlotThreadPool db → Type 0 where
    -- The ids of tasks start at 1.
    registers :
        {p' : SlotThreadPool db} (task_id task : ℕ)
        → p.emitter ≡ none
        → task_id ≢ 0
        → slot db task_id task p ≡ ok p'
        → Step p p'
    -- Fewer than 2 ^ 32 - 1 ids wait in a queue when one more comes.
    emits :
        {p' : SlotThreadPool db} (task_id : ℕ)
        → p.emitter ≡ none
        → length (queued db priority_0 p) + 1 < 2 ^ 32
        → emit db task_id p ≡ ok p'
        → Step p p'
    emits_by_priority :
        {p' : SlotThreadPool db} (task_id priority_id : ℕ)
        → p.emitter ≡ none
        → length (queued db priority_0 p) + 1 < 2 ^ 32
        → length (queued db priority_1 p) + 1 < 2 ^ 32
        → emit_by_priority db task_id priority_id p ≡ ok p'
        → Step p p'
    counts : (q : Priority) → p.emitter ≡ some q → Step p (count_task db q p)
    enables : p.stopping ≡ nobody → Step p (enable db p)
    disables : p.stopping ≡ nobody → Step p (begin_disable db p)
    disables_second :
        p.stopping ≡ disabling
        → Step p (disable_queue db priority_1 (record p { stopping = joining }))
    joins :
        p.stopping ≡ joining
        → All IsFinished p.threads
        → Step p (record p { threads = []; stopping = nobody })
    moves :
        (time_over : Bool) (before after : List Thread) (w w' : Thread) (p' : SlotThreadPool db)
        → p.threads ≡ before ++ w ∷ after
        → move db time_over p w ≡ some (p', w')
        → Step p (record p' { threads = before ++ w' ∷ after })

  pub data Run (p : SlotThreadPool db) : SlotThreadPool db → Type 0 where
    stay : Run p p
    later : {p' p'' : SlotThreadPool db} → Run p p' → Step p' p'' → Run p p''

  -- What a call that returns has done.
  pub slot_cases :
      (id task : ℕ) (p : SlotThreadPool db) {p' : SlotThreadPool db}
      → slot db id task p ≡ ok p'
      → (find id p.slots ≡ none) × (record p { slots = insert id task p.slots } ≡ p')
  unfolding slot
  slot_cases id task p e = ground arith

  pub emit_by_priority_cases :
      (id priority_id : ℕ) (p : SlotThreadPool db) {p' : SlotThreadPool db}
      → emit_by_priority db id priority_id p ≡ ok p'
      → (q : Priority) × (find id p.slots ≢ none) × (push_task db q id p ≡ p')
  unfolding emit_by_priority
  emit_by_priority_cases id priority_id p {p'} e = elim (Option-cases (find id p.slots)) [
    | inl f ↦ absurd (ground arith)
    | inr (task, f) ↦ elim (Option-cases (priority_of priority_id)) [
      | inl g ↦ absurd (ground arith)
      | inr (q, g) ↦ (q, ground arith, ground arith)
    ]
  ]

  pub emit_cases :
      (id : ℕ) (p : SlotThreadPool db) {p' : SlotThreadPool db}
      → emit db id p ≡ ok p'
      → (find id p.slots ≢ none) × (push_task db priority_0 id p ≡ p')
  unfolding emit
  emit_cases id p e = ground arith
