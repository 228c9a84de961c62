-- ===== src/Communication/DdsBridge/Creation.antt =====
-- How a DdsBridge of DdsBridge.cpp gets its writers and its tracks.
use Prim.Native.String.{String}
use ddsproxy.Common.{
  ℕ, Bool, false, not, ◌&&◌, none, some, List, [], ◌∷◌, length, if◌then◌else◌, string_key, ◌==◌,
  nat_beq,
}
use ddsproxy.Common.Map.{Map, find, insert, replace}
use ddsproxy.Types.Topic.{DdsTopic, default_participant_id}
use ddsproxy.Dynamic.ParticipantsDatabase.{Participant, ParticipantsDatabase, get_participants_ids}
use ddsproxy.Configuration.{RoutesMap, ManualTopic}
use ddsproxy.Communication.Attempt.{Attempt, made, init_failed, ◌>>=◌}
use ddsproxy.Communication.Handles.{Handles, no_handles}
use ddsproxy.Communication.Handles
use ddsproxy.Communication.Track.{
  Track, new_track, add_writer, has_writer, has_writers, change_master,
}
use ddsproxy.Communication.Track
use ddsproxy.Communication.DdsBridge.{
  DdsBridge, create_topic_for_participant, participant_of, writers_to_create, writers_of_track,
  add_writers,
}

-- The members when the body of the constructor creates the tracks.
unfoldable pub new_bridge :
    ParticipantsDatabase → DdsTopic → RoutesMap → Bool → List ManualTopic → DdsBridge
new_bridge participants topic routes master_flag manual_topics = record {
  topic = topic;
  participants = participants;
  routes = routes;
  manual_topics = manual_topics;
  tracks = [];
  enabled = false;
  master_flag = master_flag;
  handles = no_handles;
}

-- `creates_writer` and `creates_reader` tell whether a participant creates its endpoint for a topic,
-- or throws an InitializationException.
module _ (creates_writer creates_reader : Participant → DdsTopic → Bool) (garbage : Bool) where
  unfoldable pub create_one :
      (Participant → DdsTopic → Bool) → String → DdsBridge → Attempt (ℕ × DdsBridge)
  unfolding create_topic_for_participant Handles.create
  create_one creates id b = do
    p ← participant_of id b
    let (k, h) = Handles.create b.handles
    if creates p (create_topic_for_participant b.manual_topics b.topic p)
        then made (k, record b { handles = h })
        else init_failed

  -- The loop that creates the writers.
  unfoldable pub create_writers :
      List String → Map String ℕ → DdsBridge → Attempt (Map String ℕ × DdsBridge)
  unfolding create_one
  create_writers [] writers b = made (writers, b)
  create_writers (id ∷ ids) writers b = do
    (w, b') ← create_one creates_writer id b
    create_writers ids (insert id w writers) b'

  -- The track of a new reader, enabled if the bridge is.
  unfoldable pub track_added : String → Map String ℕ → ℕ → DdsBridge → DdsBridge
  unfolding new_track change_master Track.enable
  track_added id writers reader b =
      let t = change_master b.master_flag (new_track garbage id reader writers) in
      let (t', h) = if b.enabled then Track.enable t b.handles else (t, b.handles) in
      record b { tracks = insert id t' b.tracks; handles = h }

  unfoldable pub create_track : String → Map String ℕ → DdsBridge → Attempt DdsBridge
  unfolding create_one track_added
  create_track id writers b = do
    (reader, b') ← create_one creates_reader id b
    made (track_added id writers reader b')

  -- One round of `add_writers_to_tracks_nts_` for a participant with writers to add.
  unfoldable pub add_to_track : String → Map String ℕ → DdsBridge → Attempt DdsBridge
  unfolding add_writers create_track
  add_to_track id writers b = elim (find id b.tracks) [
    | some t ↦
        let (t', h) = add_writers writers t b.handles in
        made (record b { tracks = replace id t' b.tracks; handles = h })
    | none ↦ create_track id writers b
  ]

  unfoldable pub add_writers_from : Map String ℕ → List String → DdsBridge → Attempt DdsBridge
  unfolding writers_of_track add_to_track
  add_writers_from writers [] b = made b
  add_writers_from writers (id ∷ ids) b = do
    of_track ← writers_of_track writers id b
    b' ← if nat_beq (length of_track) 0 then made b else add_to_track id of_track b
    add_writers_from writers ids b'

  unfoldable pub add_writers_to_tracks : Map String ℕ → DdsBridge → Attempt DdsBridge
  unfolding add_writers_from
  add_writers_to_tracks writers b = add_writers_from writers (get_participants_ids b.participants) b

  unfoldable pub create_all_tracks : DdsBridge → Attempt DdsBridge
  unfolding writers_to_create create_writers add_writers_to_tracks
  create_all_tracks b = do
    let ids = get_participants_ids b.participants
    to_create ← writers_to_create ids ids [] b
    (writers, b') ← create_writers to_create [] b
    add_writers_to_tracks writers b'

  unfoldable pub create_writer : String → DdsBridge → Attempt DdsBridge
  unfolding create_one add_writers_to_tracks
  create_writer id b = do
    (w, b') ← create_one creates_writer id b
    add_writers_to_tracks ((id, w) ∷ []) b'

  -- The constructor.
  unfoldable pub make :
      ParticipantsDatabase
      → DdsTopic
      → RoutesMap
      → Bool
      → Bool
      → List ManualTopic
      → Attempt DdsBridge
  unfolding create_writer create_all_tracks new_bridge
  make participants topic routes remove_unused_entities master_flag manual_topics =
      let b = new_bridge participants topic routes master_flag manual_topics in
      if remove_unused_entities && not (topic.m_topic_discoverer == default_participant_id)
      then create_writer topic.m_topic_discoverer b
      else create_all_tracks b
