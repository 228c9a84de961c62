-- ===== src/Dynamic/DiscoveryDatabase/Refinement.antt =====
-- DiscoveryDatabase.cpp against its abstract view: what is known of each GUID.
use ddsproxy.Common.{
  ℕ, Option, none, some, List, [], ◌∷◌, ◌≡◌, refl, ◌∙◌, arith, if◌then◌else◌, nat_key, nat_beq,
  nat_beq_iff, Option-cases, inl, inr,
}
use mathlib.Core.Path.{fun_ext}
use ddsproxy.Common.Map.{find, find-insert, find-erase}
use ddsproxy.Types.Endpoint.{Endpoint}
use ddsproxy.Dynamic.DiscoveryDatabase.{
  DatabaseOperation, add, update, erase_op, Entities, add_endpoint_now, update_endpoint_now,
  erase_endpoint_now, process_item, handled,
}
use ddsproxy.Dynamic.DiscoveryDatabase.Queue.{Item, process_all}

abbrev pub Known : Type 0
Known = ℕ → Option Endpoint

abbrev pub known : Entities → Known
known db guid = find guid db.entities

-- What an operation means for the endpoint's own GUID: an add does nothing to an active entry, an
-- update nothing to a missing one.
abbrev pub after_item : DatabaseOperation → Endpoint → Option Endpoint → Option Endpoint
after_item add e none = some e
after_item add e (some old) = if old.active then some old else some e
after_item update e none = none
after_item update e (some old) = some e
after_item erase_op e o = none

abbrev pub apply_item : Item → Known → Known
apply_item (op, e) k guid = if nat_beq guid e.guid then after_item op e (k guid) else k guid

abbrev pub apply_all : List Item → Known → Known
apply_all [] k = k
apply_all (item ∷ items) k = apply_all items (apply_item item k)

known-process_item :
    (item : Item) (db : Entities) (guid : ℕ)
    → known (process_item item db).0 guid ≡ apply_item item (known db) guid
unfolding process_item add_endpoint_now update_endpoint_now erase_endpoint_now handled
known-process_item (add, e) db guid = elim (Option-cases (find e.guid db.entities)) [
  | inl new ↦ ground (arith, new, nat_beq_iff guid e.guid, find-insert guid e.guid e db.entities)
  | inr (old, there) ↦
      ground (arith, there, nat_beq_iff guid e.guid, find-insert guid e.guid e db.entities)
]
known-process_item (update, e) db guid = elim (Option-cases (find e.guid db.entities)) [
  | inl new ↦ ground (arith, new, nat_beq_iff guid e.guid, find-insert guid e.guid e db.entities)
  | inr (old, there) ↦
      ground (arith, there, nat_beq_iff guid e.guid, find-insert guid e.guid e db.entities)
]
known-process_item (erase_op, e) db guid = elim (Option-cases (find e.guid db.entities)) [
  | inl new ↦ ground (arith, new, nat_beq_iff guid e.guid, find-erase guid e.guid db.entities)
  | inr (old, there) ↦
      ground (arith, there, nat_beq_iff guid e.guid, find-erase guid e.guid db.entities)
]

-- Processing a sequence of operations gives, for every GUID, what the operations mean for it one
-- after the other; an operation that is inconsistent with what is known changes nothing.
pub known-process_all :
    (items : List Item) (db : Entities)
    → known (process_all items db).0 ≡ apply_all items (known db)
unfolding process_all
known-process_all [] db = refl
known-process_all (item ∷ items) db = known-process_all items (process_item item db).0 ∙ λ i.
    apply_all items (fun_ext (known-process_item item db) i)
