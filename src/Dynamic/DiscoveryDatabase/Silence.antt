-- ===== src/Dynamic/DiscoveryDatabase/Silence.antt =====
-- What the callbacks of DiscoveryDatabase.cpp tell, and what they do not.
use ddsproxy.Common.{
  ℕ, true, false, none, some, List, [], ◌∷◌, map, ◌≡◌, refl, ◌∙◌, arith, if◌then◌else◌, nat_key,
  nat_beq, nat_beq_iff, Option-cases, inl, inr, any,
}
use ddsproxy.Common.Map.{find, find-insert, find-erase}
use ddsproxy.Types.Endpoint.{Endpoint}
use ddsproxy.Dynamic.DiscoveryDatabase.{
  DatabaseOperation, add, update, erase_op, Entities, Notification, discovered, updated, erased,
  add_endpoint_now, update_endpoint_now, erase_endpoint_now, process_item, handled,
}
use ddsproxy.Dynamic.DiscoveryDatabase.Refinement.{Known, known}

-- What a listener behind callback `c` knows that believes each of its notifications.
abbrev pub hear : ℕ → Notification → Known → Known
hear c (discovered k e) v g =
    if nat_beq c k then (if nat_beq g e.guid then some e else v g) else v g
hear c (updated k e) v g = if nat_beq c k then (if nat_beq g e.guid then some e else v g) else v g
hear c (erased k e) v g = if nat_beq c k then (if nat_beq g e.guid then none else v g) else v g

abbrev pub hear_all : ℕ → List Notification → Known → Known
hear_all c [] v = v
hear_all c (n ∷ ns) v = hear_all c ns (hear c n v)

hear-discovered :
    (c : ℕ) (ks : List ℕ) (e : Endpoint) (v : Known) (g : ℕ)
    → hear_all c (map (λ k. discovered k e) ks) v g
      ≡ (if any (nat_beq c) ks then (if nat_beq g e.guid then some e else v g) else v g)
hear-discovered c [] e v g = refl
hear-discovered c (k ∷ ks) e v g =
    hear-discovered c ks e (hear c (discovered k e) v) g ∙ ground arith

hear-updated :
    (c : ℕ) (ks : List ℕ) (e : Endpoint) (v : Known) (g : ℕ)
    → hear_all c (map (λ k. updated k e) ks) v g
      ≡ (if any (nat_beq c) ks then (if nat_beq g e.guid then some e else v g) else v g)
hear-updated c [] e v g = refl
hear-updated c (k ∷ ks) e v g = hear-updated c ks e (hear c (updated k e) v) g ∙ ground arith

hear-erased :
    (c : ℕ) (ks : List ℕ) (e : Endpoint) (v : Known) (g : ℕ)
    → hear_all c (map (λ k. erased k e) ks) v g
      ≡ (if any (nat_beq c) ks then (if nat_beq g e.guid then none else v g) else v g)
hear-erased c [] e v g = refl
hear-erased c (k ∷ ks) e v g = hear-erased c ks e (hear c (erased k e) v) g ∙ ground arith

-- A listener whose callback is registered for all three events knows after each operation what
-- the database knows, unless the operation adds an endpoint whose entry is there and inactive.
pub hear-process_item :
    (c : ℕ) (op : DatabaseOperation) (e : Endpoint) (db : Entities) (g : ℕ)
    → any (nat_beq c) db.added_endpoint_callbacks ≡ true
    → any (nat_beq c) db.updated_endpoint_callbacks ≡ true
    → any (nat_beq c) db.erased_endpoint_callbacks ≡ true
    → ((old : Endpoint) → op ≡ add → known db e.guid ≡ some old → old.active ≡ true)
    → hear_all c (process_item (op, e) db).1 (known db) g ≡ known (process_item (op, e) db).0 g
unfolding process_item add_endpoint_now update_endpoint_now erase_endpoint_now handled
hear-process_item c add e db g a u r act = elim (Option-cases (find e.guid db.entities)) [
  | inl new ↦ ground (
    arith,
    new,
    find-insert g e.guid e db.entities,
    hear-discovered c db.added_endpoint_callbacks e (known db) g,
  )
  | inr (old, there) ↦ ground (arith, there, act old refl there)
]
hear-process_item c update e db g a u r act = elim (Option-cases (find e.guid db.entities)) [
  | inl new ↦ ground (arith, new)
  | inr (old, there) ↦ ground (
    arith,
    there,
    find-insert g e.guid e db.entities,
    hear-updated c db.updated_endpoint_callbacks e (known db) g,
  )
]
hear-process_item c erase_op e db g a u r act = elim (Option-cases (find e.guid db.entities)) [
  | inl new ↦ ground (arith, new)
  | inr (old, there) ↦ ground (
    arith,
    there,
    find-erase g e.guid db.entities,
    hear-erased c db.erased_endpoint_callbacks e (known db) g,
  )
]

-- Adding an endpoint whose entry is there and inactive replaces the entry and calls no callback,
-- whoever is registered.
pub process_item-silent :
    (e old : Endpoint) (db : Entities)
    → known db e.guid ≡ some old
    → old.active ≡ false
    → ((process_item (add, e) db).1 ≡ []) × (known (process_item (add, e) db).0 e.guid ≡ some e)
unfolding process_item add_endpoint_now handled
process_item-silent e old db there inactive =
    ground (arith, find-insert e.guid e.guid e db.entities, nat_beq_iff e.guid e.guid)
