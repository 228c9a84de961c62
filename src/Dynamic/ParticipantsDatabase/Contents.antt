-- ===== src/Dynamic/ParticipantsDatabase/Contents.antt =====
-- What a ParticipantsDatabase holds, seen through its getters.
use Prim.Native.String.{String}
use ddsproxy.Common.{
  ◌≡◌, ◌≢◌, refl, ◌∙◌, Bool, true, false, ◌||◌, Option, none, some, List, [], ◌∷◌, arith,
  if◌then◌else◌, string_key, Option-cases, inl, inr, ◌⊎◌, ok, throw, inconsistency_exception,
}
use ddsproxy.Common.Map.{
  Map, find, has, insert, find-insert, find-insert_self, find-insert_ne, has-find, OnceEach,
  insert-OnceEach, has_of_none, has_of_some,
}
use ddsproxy.Common.Set
use ddsproxy.Common.Set.{member, member-insert}
use ddsproxy.Dynamic.ParticipantsDatabase.{
  Participant, ParticipantsDatabase, get_participant, collect_ids, get_participants_ids,
  get_rtps_participants_ids, repeater_map_from, get_participants_repeater_map, add_participant,
}

module _ (test : Participant → Bool) where
  passes : Option Participant → Bool
  passes none = false
  passes (some p) = test p

  member-collect_ids :
      (i : String) (acc : List String) (db : ParticipantsDatabase)
      → OnceEach db
      → member i (collect_ids test acc db) ≡ (member i acc || passes (find i db))
  unfolding collect_ids find passes
  member-collect_ids i acc [] d = ground arith
  member-collect_ids i acc ((id, p) ∷ rest) d =
      member-collect_ids i (if test p then Set.insert id acc else acc) rest d.1
      ∙ ground (arith, member-insert i id acc, string_key.beq_iff i id, has-find id rest)

find-repeater_map_from :
    (i : String) (acc : Map String Bool) (db : ParticipantsDatabase)
    → OnceEach db
    → find i (repeater_map_from acc db)
      ≡ (elim (find i db) [ none ↦ find i acc | some p ↦ some p.is_repeater ])
unfolding repeater_map_from find
find-repeater_map_from i acc [] d = refl
find-repeater_map_from i acc ((id, p) ∷ rest) d =
    find-repeater_map_from i (insert id p.is_repeater acc) rest d.1
    ∙ ground (arith, find-insert i id p.is_repeater acc, string_key.beq_iff i id, has-find id rest)

-- The getters of a database tell the same: an id is among the ids exactly if it has a participant,
-- among the RTPS ids exactly if that participant is of RTPS kind, and the repeater map gives every
-- id what its participant says. No id may be in the database twice.
pub getters-agree :
    (db : ParticipantsDatabase) (id : String)
    → OnceEach db
    → (member id (get_participants_ids db) ≡ has id db)
      × (member id (get_rtps_participants_ids db)
          ≡ (elim (get_participant id db) [ none ↦ false | some p ↦ p.is_rtps_kind ]))
      × (find id (get_participants_repeater_map db)
          ≡ (elim (get_participant id db) [ none ↦ none | some p ↦ some p.is_repeater ]))
unfolding get_participants_ids get_rtps_participants_ids get_participants_repeater_map
    get_participant passes member find
getters-agree db id d = (
  ground (arith, member-collect_ids (λ p. true) id [] db d, has-find id db),
  ground (arith, member-collect_ids (λ p. p.is_rtps_kind) id [] db d),
  ground (arith, find-repeater_map_from id [] db d),
)

-- Adding to a database fails exactly if the id is taken. Otherwise the id reads as the new
-- participant, every other id as before, and still no id is there twice.
pub add_participant_cases :
    (id : String) (p : Participant) (db : ParticipantsDatabase)
    → OnceEach db
    → ((has id db ≡ true) × (add_participant id p db ≡ throw inconsistency_exception))
      ⊎ ((db' : ParticipantsDatabase) × (has id db ≡ false)
          × (add_participant id p db ≡ ok db')
          × (get_participant id db' ≡ some p)
          × ((i : String) → i ≢ id → get_participant i db' ≡ get_participant i db)
          × OnceEach db')
unfolding add_participant get_participant
add_participant_cases id p db d = elim (Option-cases (find id db)) [
  | inl new ↦ inr (
    insert id p db,
    has_of_none id db new,
    rw (new, add_participant),
    find-insert_self id p db,
    λ i other. find-insert_ne i id p db other,
    insert-OnceEach id p db (has_of_none id db new) d,
  )
  | inr (q, taken) ↦ inl (has_of_some id db taken, rw (taken, add_participant))
]
