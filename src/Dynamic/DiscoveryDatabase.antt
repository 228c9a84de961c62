-- ===== src/Dynamic/DiscoveryDatabase.antt =====
-- DiscoveryDatabase of ddspipe/ddspipe_core/src/cpp/dynamic/DiscoveryDatabase.cpp. The queue is the
-- DBQueue of Fast DDS, a parameter behind its documented behaviour. A callback is a number, and a
-- call of it a notification; each locked region is one step.
pub mod Queue
pub mod Refinement
pub mod Silence
mod Tests
use ddsproxy.Common.{
  ℕ, zero, suc, Bool, true, false, ◌||◌, not, Option, none, some, List, [], ◌∷◌, ◌++◌, map, ◌≡◌,
  ◌≢◌, if◌then◌else◌, nat_key, Result, ok, throw, inconsistency_exception, any,
}
use ddsproxy.Common.Map.{Map, find, insert, erase, has}
use ddsproxy.Types.Topic.{DdsTopic, same_topic}
use ddsproxy.Types.Endpoint.{Endpoint}

pub data DatabaseOperation : Type 0 where
  add update erase_op : DatabaseOperation

pub data Notification : Type 0 where
  discovered updated erased : ℕ → Endpoint → Notification

pub record Entities : Type 0 where
  pub entities : Map ℕ Endpoint
  pub added_endpoint_callbacks : List ℕ
  pub updated_endpoint_callbacks : List ℕ
  pub erased_endpoint_callbacks : List ℕ

unfoldable pub topic_exists : DdsTopic → Entities → Bool
topic_exists topic db = any (λ entity. same_topic entity.1.topic topic) db.entities

unfoldable pub endpoint_exists : ℕ → Entities → Bool
endpoint_exists guid db = has guid db.entities

unfoldable pub add_endpoint_now : Endpoint → Entities → Result (Entities × List Notification)
add_endpoint_now e db = elim (find e.guid db.entities) [
  | some old ↦
      if old.active
      then throw inconsistency_exception
      else ok (record db { entities = insert e.guid e db.entities }, [])
  | none ↦ ok (
    record db { entities = insert e.guid e db.entities },
    map (λ c. discovered c e) db.added_endpoint_callbacks,
  )
]

unfoldable pub update_endpoint_now : Endpoint → Entities → Result (Entities × List Notification)
update_endpoint_now e db = elim (find e.guid db.entities) [
  | none ↦ throw inconsistency_exception
  | some old ↦ ok (
    record db { entities = insert e.guid e db.entities },
    map (λ c. updated c e) db.updated_endpoint_callbacks,
  )
]

unfoldable pub erase_endpoint_now : Endpoint → Entities → Result (Entities × List Notification)
erase_endpoint_now e db = elim (find e.guid db.entities) [
  | none ↦ throw inconsistency_exception
  | some old ↦ ok (
    record db { entities = erase e.guid db.entities },
    map (λ c. erased c e) db.erased_endpoint_callbacks,
  )
]

unfoldable pub get_endpoint : ℕ → Entities → Result Endpoint
get_endpoint guid db = elim (find guid db.entities) [
  | none ↦ throw inconsistency_exception
  | some e ↦ ok e
]

unfoldable pub endpoints_from : (Endpoint → Bool) → Map ℕ Endpoint → Map ℕ Endpoint → Map ℕ Endpoint
endpoints_from is_valid_endpoint result [] = result
endpoints_from is_valid_endpoint result ((guid, entity) ∷ rest) =
    endpoints_from is_valid_endpoint
      (if is_valid_endpoint entity then insert guid entity result else result) rest

unfoldable pub get_endpoints : (Endpoint → Bool) → Entities → Map ℕ Endpoint
unfolding endpoints_from
get_endpoints is_valid_endpoint db = endpoints_from is_valid_endpoint [] db.entities

unfoldable pub add_endpoint_discovered_callback : ℕ → Entities → Entities
add_endpoint_discovered_callback c db = record db {
  added_endpoint_callbacks = db.added_endpoint_callbacks ++ c ∷ [];
}

unfoldable pub add_endpoint_updated_callback : ℕ → Entities → Entities
add_endpoint_updated_callback c db = record db {
  updated_endpoint_callbacks = db.updated_endpoint_callbacks ++ c ∷ [];
}

unfoldable pub add_endpoint_erased_callback : ℕ → Entities → Entities
add_endpoint_erased_callback c db = record db {
  erased_endpoint_callbacks = db.erased_endpoint_callbacks ++ c ∷ [];
}

unfoldable pub clear_all_callbacks : Entities → Entities
clear_all_callbacks db = record db {
  added_endpoint_callbacks = [];
  updated_endpoint_callbacks = [];
  erased_endpoint_callbacks = [];
}

-- The `try` of `process_queue_` for one item: an inconsistency is logged and passed over.
unfoldable pub handled :
    Entities → Result (Entities × List Notification) → Entities × List Notification
handled db (ok r) = r
handled db (throw e) = (db, [])

unfoldable pub process_item : DatabaseOperation × Endpoint → Entities → Entities × List Notification
unfolding add_endpoint_now update_endpoint_now erase_endpoint_now handled
process_item (add, e) db = handled db (add_endpoint_now e db)
process_item (update, e) db = handled db (update_endpoint_now e db)
process_item (erase_op, e) db = handled db (erase_endpoint_now e db)
