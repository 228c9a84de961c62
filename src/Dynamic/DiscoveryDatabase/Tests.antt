-- ===== src/Dynamic/DiscoveryDatabase/Tests.antt =====
-- The discovery database at concrete contents, over a queue of two lists.
use ddsproxy.Common.{◌≡◌, refl, true, false, List, [], ◌∷◌, length, string_key}
use ddsproxy.Common.DbQueue.{two_lists}
use ddsproxy.Types.TopicQos.{set_default_qos}
use ddsproxy.Types.Topic.{DdsTopic, default_participant_id, internal_topic_type_rtps}
use ddsproxy.Types.Endpoint.{Endpoint, reader}
use ddsproxy.Dynamic.DiscoveryDatabase.{Entities, add, update, erase_op, process_item}
use ddsproxy.Dynamic.DiscoveryDatabase.Queue.{
  Item, process_all, pushed, DiscoveryDatabase, init, start, stop, push_all, process_queue,
  routine_round, process_queue-all, routine_round-push_all, restart-processes_nothing,
}
use ddsproxy.Dynamic.DiscoveryDatabase.Refinement.{known, apply_all, known-process_all}
use ddsproxy.Dynamic.DiscoveryDatabase.Silence.{hear_all, hear-process_item}

abbrev square : DdsTopic
unfolding set_default_qos
square = record {
  m_topic_name = "Square";
  m_internal_type_discriminator = internal_topic_type_rtps;
  m_topic_discoverer = default_participant_id;
  topic_qos = set_default_qos;
  type_name = "ShapeType";
}

-- A reader that went away, and a listener of everything behind callback 3.
abbrev gone : Endpoint
gone = record {
  kind = reader;
  guid = 5;
  topic = square;
  active = false;
  discoverer_participant_id = "lan";
}

abbrev back : Endpoint
back = record gone { active = true }

abbrev store : Entities
store = record {
  entities = (5, gone) ∷ [];
  added_endpoint_callbacks = 3 ∷ [];
  updated_endpoint_callbacks = 3 ∷ [];
  erased_endpoint_callbacks = 3 ∷ [];
}

abbrev items : List Item
items = (update, back) ∷ (erase_op, back) ∷ (add, back) ∷ []

-- Items that other threads push while the thread is in its loop.
abbrev meanwhile : List (List Item)
meanwhile = [] ∷ ((update, gone) ∷ (add, gone) ∷ []) ∷ []

known-process_all_example : known (process_all items store).0 ≡ apply_all items (known store)
known-process_all_example = known-process_all items store

hear-process_item_example :
    hear_all 3 (process_item (update, back) store).1 (known store) 5
    ≡ known (process_item (update, back) store).0 5
hear-process_item_example =
    hear-process_item 3 update back store 5 refl refl refl (λ old e there. cc)

running : DiscoveryDatabase two_lists
unfolding init start
running = start two_lists (init two_lists store ([], []))

process_queue-all_example :
    ((process_queue two_lists meanwhile (push_all two_lists items running)).0.store
      ≡ (process_all
          (two_lists.background (push_all two_lists items running).entities_to_process)
          (push_all two_lists items running).store).0)
    × ((process_queue two_lists meanwhile (push_all two_lists items running)).1
        ≡ (process_all
            (two_lists.background (push_all two_lists items running).entities_to_process)
            (push_all two_lists items running).store).1)
    × (two_lists.foreground
          (process_queue two_lists meanwhile
            (push_all two_lists items running)).0.entities_to_process
        ≡ [])
    × (two_lists.background
          (process_queue two_lists meanwhile
            (push_all two_lists items running)).0.entities_to_process
        ≡ pushed
            (length (two_lists.background (push_all two_lists items running).entities_to_process))
            meanwhile)
process_queue-all_example = process_queue-all two_lists (push_all two_lists items running) meanwhile

routine_round-push_all_example :
    ((routine_round two_lists meanwhile (push_all two_lists items running)).0.store
      ≡ (process_all items running.store).0)
    × ((routine_round two_lists meanwhile (push_all two_lists items running)).1
        ≡ (process_all items running.store).1)
unfolding running init start
routine_round-push_all_example =
    routine_round-push_all two_lists running (update, back) ((erase_op, back) ∷ (add, back) ∷ [])
      meanwhile refl refl refl

restart-processes_nothing_example :
    routine_round two_lists meanwhile
      (push_all two_lists items (start two_lists (stop two_lists running)))
    ≡ (
      record (push_all two_lists items (start two_lists (stop two_lists running))) {
        thread_running = false;
      },
      [],
    )
unfolding running init start
restart-processes_nothing_example = restart-processes_nothing two_lists running items meanwhile refl
