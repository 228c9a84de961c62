-- ===== src/Dynamic/ParticipantsDatabase.antt =====
-- ParticipantsDatabase of ddspipe/ddspipe_core/src/cpp/dynamic/ParticipantsDatabase.cpp. A
-- participant stands by what the pipe asks of it.
pub mod Contents
use Prim.Native.String.{String}
use ddsproxy.Common.{
  ℕ, Bool, true, false, Option, none, some, List, [], ◌∷◌, length, if◌then◌else◌, string_key,
  Result, ok, throw, inconsistency_exception,
}
use ddsproxy.Common.Map.{Map, find, insert}
use ddsproxy.Common.Map
use ddsproxy.Common.Set
use ddsproxy.Types.TopicQos.{TopicQos}

pub record Participant : Type 0 where
  pub id : String
  pub is_repeater : Bool
  pub is_rtps_kind : Bool
  pub topic_qos : TopicQos

abbrev pub ParticipantsDatabase : Type 0
ParticipantsDatabase = Map String Participant

unfoldable pub get_participant : String → ParticipantsDatabase → Option Participant
get_participant id db = find id db

-- The loops that collect the keys into a new set.
unfoldable pub collect_ids : (Participant → Bool) → List String → ParticipantsDatabase → List String
collect_ids test result [] = result
collect_ids test result ((id, p) ∷ rest) =
    collect_ids test (if test p then Set.insert id result else result) rest

unfoldable pub get_participants_ids : ParticipantsDatabase → List String
unfolding collect_ids
get_participants_ids db = collect_ids (λ p. true) [] db

unfoldable pub get_rtps_participants_ids : ParticipantsDatabase → List String
unfolding collect_ids
get_rtps_participants_ids db = collect_ids (λ p. p.is_rtps_kind) [] db

unfoldable pub repeater_map_from : Map String Bool → ParticipantsDatabase → Map String Bool
repeater_map_from result [] = result
repeater_map_from result ((id, p) ∷ rest) = repeater_map_from (insert id p.is_repeater result) rest

unfoldable pub get_participants_repeater_map : ParticipantsDatabase → Map String Bool
unfolding repeater_map_from
get_participants_repeater_map db = repeater_map_from [] db

unfoldable pub empty : ParticipantsDatabase → Bool
empty [] = true
empty (e ∷ db) = false

abbrev pub size : ParticipantsDatabase → ℕ
size db = length db

unfoldable pub add_participant :
    String → Participant → ParticipantsDatabase → Result ParticipantsDatabase
add_participant id participant db = elim (find id db) [
  | some p ↦ throw inconsistency_exception
  | none ↦ ok (insert id participant db)
]
