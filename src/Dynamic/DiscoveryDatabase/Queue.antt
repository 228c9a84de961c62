-- ===== src/Dynamic/DiscoveryDatabase/Queue.antt =====
-- The queue of DiscoveryDatabase.cpp and its thread: `add_endpoint`, `update_endpoint` and
-- `erase_endpoint` push, the thread swaps the buffers and processes what was pushed.
use ddsproxy.Common.{
  ℕ, zero, suc, Bool, true, false, not, none, some, List, [], ◌∷◌, ◌++◌, ◌≡◌, refl, ◌∙◌, sym, ap,
  arith, length, if◌then◌else◌,
}
use mathlib.Core.List.{append-nil, append_assoc}
use ddsproxy.Common.DbQueue.{DbQueue}
use ddsproxy.Types.Endpoint.{Endpoint}
use ddsproxy.Dynamic.DiscoveryDatabase.{
  DatabaseOperation, add, update, erase_op, Notification, Entities, clear_all_callbacks,
  process_item,
}

abbrev pub Item : Type 0
Item = DatabaseOperation × Endpoint

-- The items one after the other, with the notifications in the order of their calls.
unfoldable pub process_all : List Item → Entities → Entities × List Notification
process_all [] db = (db, [])
process_all (item ∷ items) db =
    let (db', out) = process_item item db in
    let (db'', out') = process_all items db' in (db'', out ++ out')

-- What is pushed in the next round, and in the rounds after it.
abbrev pub head_of : List (List Item) → List Item
head_of [] = []
head_of (items ∷ arrivals) = items

abbrev pub tail_of : List (List Item) → List (List Item)
tail_of [] = []
tail_of (items ∷ arrivals) = arrivals

-- What is pushed in the first `n` rounds.
unfoldable pub pushed : ℕ → List (List Item) → List Item
pushed zero arrivals = []
pushed (suc n) arrivals = head_of arrivals ++ pushed n (tail_of arrivals)

module _ (queue : DbQueue Item) where
  open queue use {
    Queue, push, swap, front, pop, both_empty, foreground, background, foreground-push,
    background-push, foreground-swap, background-swap, front-nil, front-cons, foreground-pop,
    background-pop, both_empty-ne,
  }

  pub record DiscoveryDatabase : Type 0 where
    pub store : Entities
    pub exit_flag : Bool
    pub enabled : Bool
    pub thread_running : Bool
    pub entities_to_process : Queue

  -- The constructor of the class.
  unfoldable pub init : Entities → Queue → DiscoveryDatabase
  init store q = record {
    store = store;
    exit_flag = false;
    enabled = false;
    thread_running = false;
    entities_to_process = q;
  }

  unfoldable pub start : DiscoveryDatabase → DiscoveryDatabase
  start d = if d.enabled then d else record d { enabled = true; thread_running = true }

  -- The thread is joined: it leaves its loop by the exit flag.
  unfoldable pub stop : DiscoveryDatabase → DiscoveryDatabase
  unfolding clear_all_callbacks
  stop d =
      if d.enabled
      then record d {
        store = clear_all_callbacks d.store;
        exit_flag = true;
        enabled = false;
        thread_running = false;
      }
      else d

  unfoldable pub push_item_to_queue : Item → DiscoveryDatabase → DiscoveryDatabase
  push_item_to_queue item d = record d { entities_to_process = push item d.entities_to_process }

  unfoldable push_items : List Item → Queue → Queue
  push_items [] q = q
  push_items (item ∷ items) q = push_items items (push item q)

  unfoldable pub add_endpoint : Endpoint → DiscoveryDatabase → DiscoveryDatabase
  add_endpoint e d = push_item_to_queue (add, e) d

  unfoldable pub update_endpoint : Endpoint → DiscoveryDatabase → DiscoveryDatabase
  update_endpoint e d = push_item_to_queue (update, e) d

  unfoldable pub erase_endpoint : Endpoint → DiscoveryDatabase → DiscoveryDatabase
  erase_endpoint e d = push_item_to_queue (erase_op, e) d

  -- The loop of `process_queue_`, with fuel. Other threads push meanwhile: `arrivals` has what they
  -- push in each round.
  unfoldable pub drain :
      ℕ → List (List Item) → Queue → Entities → Queue × Entities × List Notification
  unfolding push_items
  drain zero arrivals q db = (q, db, [])
  drain (suc n) arrivals q db = elim (front q) [
    | none ↦ (q, db, [])
    | some item ↦
        let (db', out) = process_item item db in
        let (q', db'', out') =
          drain n (tail_of arrivals) (push_items (head_of arrivals) (pop q)) db' in
        (q', db'', out ++ out')
  ]

  unfoldable pub process_queue :
      List (List Item) → DiscoveryDatabase → DiscoveryDatabase × List Notification
  unfolding drain
  process_queue arrivals d =
      let q = swap d.entities_to_process in
      let (q', store, out) = drain (length (foreground q)) arrivals q d.store in
      (record d { store = store; entities_to_process = q' }, out)

  -- One round of the thread: it waits, leaves its loop, or processes what is queued.
  unfoldable pub routine_round :
      List (List Item) → DiscoveryDatabase → DiscoveryDatabase × List Notification
  unfolding process_queue
  routine_round arrivals d =
      if not d.thread_running
      then (d, [])
      else if d.exit_flag
      then (record d { thread_running = false }, [])
      else if both_empty d.entities_to_process
      then (d, [])
      else process_queue arrivals d

  push_items-sides :
      (items : List Item) (q : Queue)
      → (foreground (push_items items q) ≡ foreground q)
        × (background (push_items items q) ≡ background q ++ items)
  unfolding push_items
  push_items-sides [] q = (refl, sym (append-nil _))
  push_items-sides (item ∷ items) q =
      let (e, f) = push_items-sides items (push item q) in
      (
        e ∙ foreground-push item q,
        f
            ∙ (ap (λ l. l ++ items) (background-push item q)
                ∙ append_assoc (background q) (item ∷ []) items),
      )

  drain-all :
      (n : ℕ) (items : List Item) (arrivals : List (List Item)) (q : Queue) (db : Entities)
      → length items ≡ n
      → foreground q ≡ items
      → (q' : Queue) × (drain n arrivals q db
          ≡ (q', (process_all items db).0, (process_all items db).1))
        × (foreground q' ≡ [])
        × (background q' ≡ background q ++ pushed n arrivals)
  unfolding drain process_all pushed
  drain-all zero [] arrivals q db n e = (q, refl, e, sym (append-nil _))
  drain-all zero (x ∷ items) arrivals q db n e = absurd (omega arith)
  drain-all (suc k) [] arrivals q db n e = absurd (omega arith)
  drain-all (suc k) (x ∷ items) arrivals q db n e =
      let (front_same, back) = push_items-sides (head_of arrivals) (pop q) in
      let (q', ran, empty, same) =
        drain-all k items (tail_of arrivals) (push_items (head_of arrivals) (pop q))
          (process_item x db).0 (omega arith) (front_same ∙ foreground-pop q x items e) in
      (
        q',
        rw (front-cons q x items e, drain) (rw ran refl),
        empty,
        same
            ∙ (ap (λ l. l ++ pushed k (tail_of arrivals))
                  (back ∙ ap (λ l. l ++ head_of arrivals) (background-pop q))
                ∙ append_assoc (background q) (head_of arrivals) (pushed k (tail_of arrivals))),
      )

  -- Whatever is pushed meanwhile, the thread processes exactly what was queued, in the order of the
  -- pushes, and leaves its side of the queue empty; what was pushed meanwhile waits on the other
  -- side, in order, and nothing else.
  pub process_queue-all :
      (d : DiscoveryDatabase) (arrivals : List (List Item))
      → let items = background d.entities_to_process in
        ((process_queue arrivals d).0.store ≡ (process_all items d.store).0)
        × ((process_queue arrivals d).1 ≡ (process_all items d.store).1)
        × (foreground (process_queue arrivals d).0.entities_to_process ≡ [])
        × (background (process_queue arrivals d).0.entities_to_process
            ≡ pushed (length items) arrivals)
  unfolding process_queue
  process_queue-all d arrivals =
      let q = swap d.entities_to_process in
      let (q', ran, empty, same) =
        drain-all (length (foreground q)) (background d.entities_to_process) arrivals q d.store
          (ap length (sym (foreground-swap d.entities_to_process)))
          (foreground-swap d.entities_to_process) in
      (
        ap (λ r. r.1) ran,
        ap (λ r. r.2) ran,
        ap (λ r. foreground r.0) ran ∙ empty,
        ap (λ r. background r.0) ran
            ∙ (same
                ∙ (ap (λ l. l ++ pushed (length (foreground q)) arrivals)
                      (background-swap d.entities_to_process)
                    ∙ ap (λ l. pushed (length l) arrivals)
                        (foreground-swap d.entities_to_process))),
      )

  unfoldable pub push_all : List Item → DiscoveryDatabase → DiscoveryDatabase
  push_all [] d = d
  push_all (item ∷ items) d = push_all items (push_item_to_queue item d)

  pub push_all-background :
      (items : List Item) (d : DiscoveryDatabase)
      → (background (push_all items d).entities_to_process
          ≡ background d.entities_to_process ++ items)
        × ((push_all items d).store ≡ d.store)
  unfolding push_all push_item_to_queue
  push_all-background [] d = (sym (append-nil _), refl)
  push_all-background (item ∷ items) d =
      let (e, s) = push_all-background items (push_item_to_queue item d) in
      (
        e
            ∙ (ap (λ l. l ++ items) (background-push item d.entities_to_process)
                ∙ append_assoc (background d.entities_to_process) (item ∷ []) items),
        s,
      )

  push_all_flags :
      (items : List Item) (d : DiscoveryDatabase)
      → ((push_all items d).thread_running ≡ d.thread_running)
        × ((push_all items d).exit_flag ≡ d.exit_flag)
  unfolding push_all push_item_to_queue
  push_all_flags [] d = (refl, refl)
  push_all_flags (item ∷ items) d = push_all_flags items (push_item_to_queue item d)

  start-stop_flags :
      (d : DiscoveryDatabase)
      → d.enabled ≡ true
      → ((start (stop d)).thread_running ≡ true) × ((start (stop d)).exit_flag ≡ true)
  unfolding start stop
  start-stop_flags d e = rw e (refl, refl)

  -- With a running thread, the exit flag not set and nothing waiting, after queueing items one round
  -- of the thread has processed exactly these, in order, whatever is pushed meanwhile.
  pub routine_round-push_all :
      (d : DiscoveryDatabase) (item : Item) (items : List Item) (arrivals : List (List Item))
      → d.thread_running ≡ true
      → d.exit_flag ≡ false
      → background d.entities_to_process ≡ []
      → let queued = push_all (item ∷ items) d in
        ((routine_round arrivals queued).0.store ≡ (process_all (item ∷ items) d.store).0)
        × ((routine_round arrivals queued).1 ≡ (process_all (item ∷ items) d.store).1)
  unfolding routine_round
  routine_round-push_all d item items arrivals runs stays none_left =
      let q = push_all (item ∷ items) d in
      let (e, s) = push_all-background (item ∷ items) d in
      let (f, g) = push_all_flags (item ∷ items) d in
      let waiting : background q.entities_to_process ≡ item ∷ items = e ∙ rw none_left refl in
      let (a, b, _, _) = process_queue-all q arrivals in
      rw (f ∙ runs, g ∙ stays, both_empty-ne q.entities_to_process (λ z. cc (z, waiting)))
        (
          a
              ∙ (ap (λ l. (process_all l q.store).0) waiting
                  ∙ ap (λ st. (process_all (item ∷ items) st).0) s),
          b
              ∙ (ap (λ l. (process_all l q.store).1) waiting
                  ∙ ap (λ st. (process_all (item ∷ items) st).1) s),
        )

  -- After a stop a new start runs nothing: the thread finds the exit flag still set and leaves,
  -- whatever was queued, so the endpoints and the queue stay as they are.
  pub restart-processes_nothing :
      (d : DiscoveryDatabase) (items : List Item) (arrivals : List (List Item))
      → d.enabled ≡ true
      → let restarted = push_all items (start (stop d)) in
        (routine_round arrivals restarted ≡ (record restarted { thread_running = false }, []))
  unfolding routine_round
  restart-processes_nothing d items arrivals on =
      let (f, g) = push_all_flags items (start (stop d)) in
      let (h, k) = start-stop_flags d on in rw (f ∙ h, g ∙ k) refl
