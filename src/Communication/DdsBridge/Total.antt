-- ===== src/Communication/DdsBridge/Total.antt =====
-- When the constructor of DdsBridge.cpp returns.
use Prim.Native.String.{String}
use ddsproxy.Common.{
  ℕ, ◌≡◌, ◌≢◌, refl, ◌∙◌, sym, ap, Bool, true, false, not, ◌&&◌, List, [], ◌∷◌, length, arith,
  if◌then◌else◌, string_key, nat_key, ◌==◌, nat_beq, Option-cases, Bool-cases, inl, inr, All,
}
use mathlib.Core.Path.{subst}
use ddsproxy.Common.Map.{Map, OnceEach, has, find, insert}
use ddsproxy.Common.Set.{member}
use ddsproxy.Configuration.{RoutesMap, ManualTopic}
use ddsproxy.Configuration.Validity.{IsRoute}
use ddsproxy.Types.Topic.{DdsTopic, default_participant_id}
use ddsproxy.Dynamic.ParticipantsDatabase.{
  Participant, ParticipantsDatabase, get_participants_ids, get_participants_repeater_map,
}
use ddsproxy.Communication.Attempt.{Attempt, made, made-made}
use ddsproxy.Communication.DdsBridge.{
  DdsBridge, participant_of, writers_to_create, writers_of_track,
}
use ddsproxy.Communication.DdsBridge.Creation.{
  new_bridge, create_one, create_writers, create_track, add_to_track, add_writers_from,
  add_writers_to_tracks, create_writer, create_all_tracks, make,
}
use ddsproxy.Communication.DdsBridge.Routes.{create_one_lem}
use ddsproxy.Communication.DdsBridge.Refinement.{one_round}
use ddsproxy.Communication.DdsBridge.Start.{has-create_writers}
use ddsproxy.Communication.DdsBridge.Selection.{
  Returns, Known, Valid, Returns-then, Same-Valid, new_bridge-Valid, writers_to_create_returns,
  writers_of_track-Returns, participant_of-Returns,
}

either-Returns :
    {A : Type 0} (c : Bool) {x y : Attempt A} → Returns x → Returns y → Returns (if c then x else y)
either-Returns true p q = p
either-Returns false p q = q

-- With participants that create every endpoint.
module _ (creates_writer creates_reader : Participant → DdsTopic → Bool) (garbage : Bool)
    (accepts_writer : (p : Participant) (t : DdsTopic) → creates_writer p t ≡ true)
    (accepts_reader : (p : Participant) (t : DdsTopic) → creates_reader p t ≡ true) where
  create_one-Returns :
      (creates : Participant → DdsTopic → Bool)
      → ((p : Participant) (t : DdsTopic) → creates p t ≡ true)
      → (id : String) (b : DdsBridge) → has id b.participants ≡ true
      → Returns (create_one creates_writer creates_reader garbage creates id b)
  unfolding create_one
  create_one-Returns creates accepts id b h =
      Returns-then (participant_of id b) _ (participant_of-Returns id b h)
        (λ p e. rw (accepts p) (_, refl))

  create_writers-Returns :
      (ids : List String) (writers : Map String ℕ) (b : DdsBridge)
      → Known b ids
      → Returns (create_writers creates_writer creates_reader garbage ids writers b)
  unfolding create_writers member
  create_writers-Returns [] writers b k = (_, refl)
  create_writers-Returns (id ∷ ids) writers b k =
      Returns-then (create_one creates_writer creates_reader garbage creates_writer id b) _
        (create_one-Returns creates_writer accepts_writer id b
          (k id (ground (arith, string_key.beq_iff id id))))
        (λ (w, b') e.
          let (_, is) =
            create_one_lem creates_writer creates_reader garbage creates_writer id b b' w e in
          create_writers-Returns ids (insert id w writers) b'
            (λ i m. ap (λ c. has i c.participants) is ∙ k i (ground arith)))

  add_to_track-Returns :
      (ws : Map String ℕ) (id : String) (b : DdsBridge)
      → has id b.participants ≡ true
      → Returns (add_to_track creates_writer creates_reader garbage id ws b)
  unfolding add_to_track create_track
  add_to_track-Returns ws id b h = elim (Option-cases (find id b.tracks)) [
    | inr (t, there) ↦ rw (there, add_to_track) (_, refl)
    | inl missing ↦
        rw (missing, add_to_track, create_track)
          (Returns-then (create_one creates_writer creates_reader garbage creates_reader id b) _
            (create_one-Returns creates_reader accepts_reader id b h) (λ x e. (_, refl)))
  ]

  add_writers_from-Returns :
      (writers : Map String ℕ) (ids : List String) (b : DdsBridge)
      → OnceEach b.tracks
      → Known b ids
      → Returns (add_writers_from creates_writer creates_reader garbage writers ids b)
  unfolding add_writers_from member
  add_writers_from-Returns writers [] b d k = (_, refl)
  add_writers_from-Returns writers (id ∷ ids) b d k =
      let here : has id b.participants ≡ true = k id (ground (arith, string_key.beq_iff id id)) in
      Returns-then (writers_of_track writers id b) _ (writers_of_track-Returns writers id b here)
        (λ ws _.
          Returns-then
            (if nat_beq (length ws) 0
              then made b
              else add_to_track creates_writer creates_reader garbage id ws b)
            _ (either-Returns (nat_beq (length ws) 0) (b, refl) (add_to_track-Returns ws id b here))
            (λ b1 e.
              let (s, d1, _) = one_round creates_writer creates_reader garbage ws id b b1 e d in
              add_writers_from-Returns writers ids b1 d1
                (λ i m. ap (has i) s.participants ∙ k i (ground arith))))

  create_writer-Returns :
      (p : String) (b : DdsBridge)
      → Valid b
      → OnceEach b.tracks
      → has p b.participants ≡ true
      → Returns (create_writer creates_writer creates_reader garbage p b)
  unfolding create_writer add_writers_to_tracks
  create_writer-Returns p b v d h =
      Returns-then (create_one creates_writer creates_reader garbage creates_writer p b) _
        (create_one-Returns creates_writer accepts_writer p b h)
        (λ (w, b') e.
          let (_, is) =
            create_one_lem creates_writer creates_reader garbage creates_writer p b b' w e in
          let ps = ap (λ c. c.participants) is in
          add_writers_from-Returns ((p, w) ∷ []) (get_participants_ids b'.participants) b'
            (subst (λ c. OnceEach c.tracks) (sym is) d)
            (λ i m.
              ap (has i) ps
              ∙ v.ids_known i (ap (λ q. member i (get_participants_ids q)) (sym ps) ∙ m)))

  create_all_tracks-Returns :
      (b : DdsBridge)
      → Valid b
      → b.tracks ≡ []
      → Returns (create_all_tracks creates_writer creates_reader garbage b)
  unfolding create_all_tracks add_writers_to_tracks member
  create_all_tracks-Returns b v new =
      let ids = get_participants_ids b.participants in
      let (to_create, e, known) =
        writers_to_create_returns ids ids [] b v v.ids_known v.ids_known (λ w m. absurd (cc m)) in
      Returns-then (writers_to_create ids ids [] b) _ (to_create, e)
        (λ cs ec.
          let same : cs ≡ to_create = made-made (sym ec ∙ e) in
          Returns-then (create_writers creates_writer creates_reader garbage cs [] b) _
            (create_writers-Returns cs [] b (subst (Known b) (sym same) known))
            (λ (ws, b1) e1.
              let (s, tracks, _) =
                has-create_writers creates_writer creates_reader garbage cs [] ws b b1 e1 in
              add_writers_from-Returns ws (get_participants_ids b1.participants) b1
                (subst OnceEach (sym (tracks ∙ new)) tt) (Same-Valid b b1 s v).ids_known))

  -- The constructor returns if the participants create every endpoint that is asked of them, no
  -- participant is there twice, the routes lead from participants to participants, and the one that
  -- discovered the topic is there where the bridge starts with its writer alone.
  pub make-Returns :
      (participants : ParticipantsDatabase) (topic : DdsTopic) (routes : RoutesMap)
      (remove_unused_entities master_flag : Bool) (manual_topics : List ManualTopic)
      → OnceEach participants
      → All (IsRoute (get_participants_repeater_map participants)) routes
      → (topic.m_topic_discoverer ≢ default_participant_id
          → has topic.m_topic_discoverer participants ≡ true)
      → Returns (
          make creates_writer creates_reader garbage participants topic routes
            remove_unused_entities master_flag manual_topics)
  unfolding make new_bridge
  make-Returns participants topic routes remove_unused_entities master_flag manual_topics once valid
        discovered =
      let b = new_bridge participants topic routes master_flag manual_topics in
      let v = new_bridge-Valid participants topic routes master_flag manual_topics once valid in
      elim (Bool-cases
        (remove_unused_entities && not (topic.m_topic_discoverer == default_participant_id))) [
          | inl one ↦ rw one (
              create_writer-Returns topic.m_topic_discoverer b v tt (
                discovered (λ e.
                  ground
                    (arith, string_key.beq_iff topic.m_topic_discoverer default_participant_id))))
          | inr all ↦ rw all (create_all_tracks-Returns b v refl)
        ]
