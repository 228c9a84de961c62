-- ===== src/Communication/DdsBridge.antt =====
-- DdsBridge of ddspipe/ddspipe_core/src/cpp/communication/dds/DdsBridge.cpp: the tracks of one topic,
-- and the routes by which they get their writers. Each public call holds the mutex and is one step.
pub mod Creation
pub mod Routes
pub mod Refinement
pub mod Start
pub mod Kept
pub mod Calls
pub mod Selection
pub mod Total
pub mod Tracks
pub mod Uniform
pub mod Interface
pub mod Qos
mod Tests
use Prim.Native.String.{String}
use ddsproxy.Common.{
  ℕ, zero, Bool, true, false, not, ◌&&◌, ◌||◌, Option, none, some, List, [], ◌∷◌, length,
  if◌then◌else◌, string_key, ◌==◌, nat_beq,
}
use ddsproxy.Common.Map.{Map, find, insert, erase, has}
use ddsproxy.Common.Set
use ddsproxy.Common.Set.{member}
use ddsproxy.Types.Fuzzy.{fuzzy_level_hard}
use ddsproxy.Types.TopicQos.{TopicQos, set_qos}
use ddsproxy.Types.Topic.{DdsTopic, default_participant_id}
use ddsproxy.Dynamic.ParticipantsDatabase.{
  Participant, ParticipantsDatabase, get_participant, get_participants_ids,
}
use ddsproxy.Configuration.{RoutesMap, ManualTopic}
use ddsproxy.Communication.Attempt.{Attempt, made, init_failed, null_pointer, ◌>>=◌}
use ddsproxy.Communication.Handles.{Handles, no_handles}
use ddsproxy.Communication.Handles
use ddsproxy.Communication.Track.{
  Track, new_track, add_writer, has_writer, has_writers, change_master,
}
use ddsproxy.Communication.Track

pub record DdsBridge : Type 0 where
  pub topic : DdsTopic
  pub participants : ParticipantsDatabase
  pub routes : RoutesMap
  pub manual_topics : List ManualTopic
  pub tracks : Map String Track
  pub enabled : Bool
  pub master_flag : Bool
  pub handles : Handles

-- The loop over the manual topics.
unfoldable pub manual_qos : List ManualTopic → String → TopicQos → TopicQos
unfolding set_qos
manual_qos [] id qos = qos
manual_qos ((filter, ids) ∷ rest) id qos = manual_qos rest id (
    if nat_beq (length ids) 0 || member id ids
    then set_qos qos filter.topic_qos.value fuzzy_level_hard
    else qos)

unfoldable pub create_topic_for_participant : List ManualTopic → DdsTopic → Participant → DdsTopic
unfolding manual_qos set_qos
create_topic_for_participant manual_topics topic participant = record topic {
  topic_qos =
      set_qos (manual_qos manual_topics participant.id topic.topic_qos) participant.topic_qos
        fuzzy_level_hard;
}

-- `participants_->get_participant(id)`, and a call through the pointer.
abbrev pub participant_of : String → DdsBridge → Attempt Participant
participant_of id b = elim (get_participant id b.participants) [
  | none ↦ null_pointer
  | some p ↦ made p
]

abbrev insert_all : List String → List String → List String
insert_all [] set = set
insert_all (id ∷ ids) set = insert_all ids (Set.insert id set)

-- The writers of the first loop of `create_all_tracks_` for one participant.
unfoldable pub writers_ids : List String → String → DdsBridge → Attempt (List String)
writers_ids ids id b = elim (find id b.routes) [
  | some route ↦ made route
  | none ↦ do p ← participant_of id b; made (if p.is_repeater then ids else Set.erase id ids)
]

-- That loop, over the ids that are left.
unfoldable pub writers_to_create :
    List String → List String → List String → DdsBridge → Attempt (List String)
unfolding writers_ids
writers_to_create ids [] set b = made set
writers_to_create ids (id ∷ rest) set b = do
  writers ← writers_ids ids id b
  writers_to_create ids rest (insert_all writers set) b

-- The writers that a track gets of those that are new: the ones on the reader's route, or every one
-- but the reader's own unless that is a repeater.
unfoldable pub writers_in_route : List String → Map String ℕ → Map String ℕ
writers_in_route [] writers = []
writers_in_route (id ∷ route) writers =
    let rest = writers_in_route route writers in
    elim (find id writers) [ none ↦ rest | some w ↦ insert id w rest ]

unfoldable pub writers_of_track : Map String ℕ → String → DdsBridge → Attempt (Map String ℕ)
unfolding writers_in_route
writers_of_track writers id b = elim (find id b.routes) [
  | some route ↦ made (writers_in_route route writers)
  | none ↦ do p ← participant_of id b; made (if p.is_repeater then writers else erase id writers)
]

-- The loop that adds the writers to a track that is there.
unfoldable pub add_writers : Map String ℕ → Track → Handles → Track × Handles
unfolding has_writer add_writer
add_writers [] t h = (t, h)
add_writers ((id, w) ∷ rest) t h =
    let (t', h') = if has_writer id t then (t, h) else add_writer id w t h in add_writers rest t' h'

-- The loops over the tracks of `enable` and `disable`.
unfoldable pub enable_tracks : Map String Track → Handles → Map String Track × Handles
unfolding Track.enable
enable_tracks [] h = ([], h)
enable_tracks ((id, t) ∷ ts) h =
    let (t', h') = Track.enable t h in let (ts', h'') = enable_tracks ts h' in ((id, t') ∷ ts', h'')

unfoldable pub disable_tracks : Map String Track → Handles → Map String Track × Handles
unfolding Track.disable
disable_tracks [] h = ([], h)
disable_tracks ((id, t) ∷ ts) h =
    let (t', h') = Track.disable t h in
    let (ts', h'') = disable_tracks ts h' in ((id, t') ∷ ts', h'')

unfoldable pub enable : DdsBridge → DdsBridge
unfolding enable_tracks
enable b =
    let (ts, h) = enable_tracks b.tracks b.handles in
    if b.enabled then b else record b { tracks = ts; handles = h; enabled = true }

unfoldable pub disable : DdsBridge → DdsBridge
unfolding disable_tracks
disable b =
    let (ts, h) = disable_tracks b.tracks b.handles in
    if b.enabled then record b { tracks = ts; handles = h; enabled = false } else b

-- The loop over the tracks: a track that is left without writers goes, and its destructor disables
-- its reader.
unfoldable pub remove_from_tracks : String → Map String Track → Handles → Map String Track × Handles
unfolding Track.remove_writer has_writers Track.disable
remove_from_tracks id [] h = ([], h)
remove_from_tracks id ((reader_id, t) ∷ ts) h =
    let t' = Track.remove_writer id t in
    let h' = if has_writers t' then h else (Track.disable t' h).1 in
    let (rest, h'') = remove_from_tracks id ts h' in
    (if has_writers t' then (reader_id, t') ∷ rest else rest, h'')

unfoldable pub remove_writer : String → DdsBridge → DdsBridge
unfolding remove_from_tracks
remove_writer id b =
    let (ts, h) = remove_from_tracks id b.tracks b.handles in record b { tracks = ts; handles = h }

unfoldable pub change_masters : Bool → Map String Track → Map String Track
unfolding change_master
change_masters flag [] = []
change_masters flag ((id, t) ∷ ts) = (id, change_master flag t) ∷ change_masters flag ts

unfoldable pub change_master_flag : Bool → DdsBridge → DdsBridge
unfolding change_masters
change_master_flag flag b = record b { master_flag = flag; tracks = change_masters flag b.tracks }
