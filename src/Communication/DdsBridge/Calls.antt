-- ===== src/Communication/DdsBridge/Calls.antt =====
-- The calls that DdsPipe.cpp makes of a DdsBridge of DdsBridge.cpp, in any order.
use Prim.Native.String.{String}
use ddsproxy.Common.{
  ◌≡◌, refl, ◌∙◌, sym, Bool, false, not, ◌&&◌, ◌||◌, List, [], ◌∷◌, arith, if◌then◌else◌,
  string_key, nat_key, ◌==◌, Bool-cases, inl, inr,
}
use mathlib.Core.Path.{subst}
use ddsproxy.Common.Map.{OnceEach, has, find}
use ddsproxy.Common.Set.{member}
use ddsproxy.Configuration.{RoutesMap, ManualTopic}
use ddsproxy.Types.Topic.{DdsTopic, default_participant_id}
use ddsproxy.Dynamic.ParticipantsDatabase.{
  Participant, ParticipantsDatabase, get_participant, get_participants_ids,
}
use ddsproxy.Communication.Attempt.{Attempt, made, ◌>>=◌, made-made, >>=-eq-made}
use ddsproxy.Communication.DdsBridge.{DdsBridge, enable, disable, remove_writer, change_master_flag}
use ddsproxy.Communication.DdsBridge.Creation.{new_bridge, create_writer, make}
use ddsproxy.Communication.DdsBridge.Routes.{forwards, reaches}
use ddsproxy.Communication.DdsBridge.Refinement.{Follows, create_writer-Follows}
use ddsproxy.Communication.DdsBridge.Start.{create_all_tracks-Follows}
use ddsproxy.Communication.DdsBridge.Kept.{
  Kept, enable-Kept, disable-Kept, change_master_flag-Kept, remove_writer-Kept,
}

pub data Call : Type 0 where
  enables : Call
  disables : Call
  creates : String → Call
  removes : String → Call
  masters : Bool → Call

-- The participants whose writers exist, before any call and after each.
abbrev pub actives_at_start : ParticipantsDatabase → DdsTopic → Bool → String → Bool
actives_at_start participants topic remove_unused_entities w =
    if remove_unused_entities && not (topic.m_topic_discoverer == default_participant_id)
    then w == topic.m_topic_discoverer
    else has w participants

abbrev pub actives_after : Call → (String → Bool) → String → Bool
actives_after enables active w = active w
actives_after disables active w = active w
actives_after (creates p) active w = w == p || active w
actives_after (removes p) active w = not (w == p) && active w
actives_after (masters flag) active w = active w

abbrev pub actives : List Call → (String → Bool) → String → Bool
actives [] active = active
actives (c ∷ cs) active = actives cs (actives_after c active)

module _ (creates_writer creates_reader : Participant → DdsTopic → Bool) (garbage : Bool) where
  unfoldable pub call : Call → DdsBridge → Attempt DdsBridge
  call enables b = made (enable b)
  call disables b = made (disable b)
  call (creates p) b = create_writer creates_writer creates_reader garbage p b
  call (removes p) b = made (remove_writer p b)
  call (masters flag) b = made (change_master_flag flag b)

  unfoldable pub run : List Call → DdsBridge → Attempt DdsBridge
  unfolding call
  run [] b = made b
  run (c ∷ cs) b = call c b >>= run cs

  call-Kept :
      (c : Call) (active : String → Bool) (b b' : DdsBridge)
      → call c b ≡ made b'
      → Follows active b
      → Kept (actives_after c active) b b'
  unfolding call
  call-Kept enables active b b' e f = subst (Kept active b) (made-made e) (enable-Kept active b f)
  call-Kept disables active b b' e f = subst (Kept active b) (made-made e) (disable-Kept active b f)
  call-Kept (creates p) active b b' e f =
      let (g, s) = create_writer-Follows creates_writer creates_reader garbage active p b b' e f in
      (g, s.participants, s.routes)
  call-Kept (removes p) active b b' e f =
      subst (Kept (actives_after (removes p) active) b) (made-made e)
        (remove_writer-Kept active p b f)
  call-Kept (masters flag) active b b' e f =
      subst (Kept active b) (made-made e) (change_master_flag-Kept active flag b f)

  run-Kept :
      (cs : List Call) (active : String → Bool) (b b' : DdsBridge)
      → run cs b ≡ made b'
      → Follows active b
      → Kept (actives cs active) b b'
  unfolding run
  run-Kept [] active b b' e f = subst (Kept active b) (made-made e) (f, refl, refl)
  run-Kept (c ∷ cs) active b b' e f =
      let (b1, called, ran) = >>=-eq-made (call c b) (run cs) e in
      let (f1, p1, r1) = call-Kept c active b b1 called f in
      let (f2, p2, r2) = run-Kept cs (actives_after c active) b1 b' ran f1 in (f2, p2 ∙ p1, r2 ∙ r1)

  make-Kept :
      (participants : ParticipantsDatabase) (topic : DdsTopic) (routes : RoutesMap)
      (remove_unused_entities master_flag : Bool) (manual_topics : List ManualTopic) (b : DdsBridge)
      → make creates_writer creates_reader garbage participants topic routes remove_unused_entities
          master_flag manual_topics
        ≡ made b
      → OnceEach participants
      → Kept
          (actives_at_start participants topic remove_unused_entities)
          (new_bridge participants topic routes master_flag manual_topics)
          b
  unfolding make new_bridge find
  make-Kept participants topic routes remove_unused_entities master_flag manual_topics b e known =
      let start = new_bridge participants topic routes master_flag manual_topics in
      elim (Bool-cases
        (remove_unused_entities && not (topic.m_topic_discoverer == default_participant_id))) [
          | inl one ↦
              let (g, s) =
                create_writer-Follows creates_writer creates_reader garbage (λ w. false)
                  topic.m_topic_discoverer start b (sym (rw one refl) ∙ e)
                  (record { once = tt; routed = λ id w. refl }) in
              (
                record { once = g.once; routed = λ id w. g.routed id w ∙ ground (arith, one) },
                s.participants,
                s.routes,
              )
          | inr all ↦
              let (g, s) =
                create_all_tracks-Follows creates_writer creates_reader garbage start b known refl
                  (sym (rw all refl) ∙ e) in
              (
                record { once = g.once; routed = λ id w. g.routed id w ∙ ground (arith, all) },
                s.participants,
                s.routes,
              )
        ]

  -- From the constructor on, through any calls that return, the data of the reader of `id` goes to
  -- the writer of `w` exactly if that writer is there (it was created at the start or later, and not
  -- removed since), `id` is a participant, and the routes want it.
  pub run-forwards :
      (participants : ParticipantsDatabase) (topic : DdsTopic) (routes : RoutesMap)
      (remove_unused_entities master_flag : Bool) (manual_topics : List ManualTopic)
      (cs : List Call) (b b' : DdsBridge)
      → OnceEach participants
      → make creates_writer creates_reader garbage participants topic routes remove_unused_entities
          master_flag manual_topics
        ≡ made b
      → run cs b ≡ made b'
      → (id w : String)
      → forwards b' id w ≡ (
          actives cs (actives_at_start participants topic remove_unused_entities) w
          && (member id (get_participants_ids participants)
              && reaches (new_bridge participants topic routes master_flag manual_topics) id w))
  unfolding new_bridge get_participant
  run-forwards participants topic routes remove_unused_entities master_flag manual_topics cs b b'
        known e ran id w =
      let (f, p, r) =
        make-Kept participants topic routes remove_unused_entities master_flag manual_topics b e
          known in
      let (g, p2, r2) =
        run-Kept cs (actives_at_start participants topic remove_unused_entities) b b' ran f in
      ground (arith, g.routed id w, p2 ∙ p, r2 ∙ r)
