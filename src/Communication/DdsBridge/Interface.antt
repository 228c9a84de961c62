-- ===== src/Communication/DdsBridge/Interface.antt =====
-- DdsBridge.cpp as the bridge that DdsPipe.cpp uses. A constructor or a `create_writer` that throws
-- or that calls through a null pointer leaves the pipe without a bridge.
use Prim.Native.String.{String}
use ddsproxy.Common.{
  ℕ, ◌≡◌, refl, ◌∙◌, sym, ap, Bool, false, not, ◌&&◌, Option, none, some, List, [], ◌∷◌, length,
  nat_beq, if◌then◌else◌, Option-cases, arith, string_key, ◌==◌, Bool-cases, inl, inr, All,
}
use ddsproxy.Common.Map.{Map, find, replace}
use ddsproxy.Configuration.{RoutesMap, ManualTopic, DdsPipeConfiguration}
use ddsproxy.Types.Topic.{DdsTopic, default_participant_id}
use ddsproxy.Dynamic.ParticipantsDatabase.{
  Participant, ParticipantsDatabase, get_participants_repeater_map, get_participants_ids,
}
use ddsproxy.Communication.Attempt.{
  Attempt, made, init_failed, null_pointer, made-made, >>=-eq-made,
}
use ddsproxy.Communication.DdsBridge.{
  DdsBridge, enable, disable, remove_writer, change_master_flag, writers_to_create,
  writers_of_track, add_writers,
}
use ddsproxy.Communication.DdsBridge.Creation.{
  new_bridge, create_writer, create_all_tracks, make, create_one, create_writers, add_writers_from,
  add_to_track, create_track, track_added, add_writers_to_tracks,
}
use ddsproxy.Communication.DdsBridge.Routes.{create_one_lem}
use ddsproxy.Communication.DdsBridge.Start.{has-create_writers}
use ddsproxy.Pipe.Interfaces.{BridgeOps, BridgeLaws, RpcBridgeOps}
use ddsproxy.Pipe.{DdsPipe}
use ddsproxy.Pipe.Discovery.{make_pipe}
use ddsproxy.Pipe.Allowed.{Distinguished, Consistent}
use ddsproxy.Pipe.Runs.{Event, Shows, run, run-Consistent}

abbrev option_of : {A : Type 0} → Attempt A → Option A
option_of (made a) = some a
option_of init_failed = none
option_of null_pointer = none

made_of_some : {A : Type 0} (m : Attempt A) {a : A} → option_of m ≡ some a → m ≡ made a
made_of_some (made a) e = cc
made_of_some init_failed e = cc
made_of_some null_pointer e = cc

module _ (creates_writer creates_reader : Participant → DdsTopic → Bool) (garbage : Bool)
    (participants : ParticipantsDatabase) where
  -- A null pointer in a creation, where the program crashes, stands as the failure that the pipe
  -- catches: the pipe may go on from it in more runs than those of the program.
  abbrev pub bridge_ops : BridgeOps DdsBridge
  bridge_ops = record {
    make = λ topic routes unused master manual.
        option_of (
          make creates_writer creates_reader garbage participants topic routes unused master
            manual);
    enable = enable;
    disable = disable;
    create_writer = λ id b. option_of (create_writer creates_writer creates_reader garbage id b);
    remove_writer = remove_writer;
    change_master_flag = change_master_flag;
  }

  add_to_track_enabled :
      (ws : Map String ℕ) (id : String) (b b' : DdsBridge)
      → add_to_track creates_writer creates_reader garbage id ws b ≡ made b'
      → b'.enabled ≡ b.enabled
  unfolding add_to_track create_track track_added
  add_to_track_enabled ws id b b' e = elim (Option-cases (find id b.tracks)) [
    | inr (t, there) ↦
        let (t', h) = add_writers ws t b.handles in
        let is : add_to_track creates_writer creates_reader garbage id ws b
            ≡ made (record b { tracks = replace id t' b.tracks; handles = h }) =
          rw (there, add_to_track) refl in
        sym (ap (λ c. c.enabled) (made-made (sym is ∙ e)))
    | inl missing ↦
        let is : add_to_track creates_writer creates_reader garbage id ws b
            ≡ create_track creates_writer creates_reader garbage id ws b =
          rw (missing, add_to_track) refl in
        let ((r, b1), created, ran) =
          >>=-eq-made (create_one creates_writer creates_reader garbage creates_reader id b)
            (λ x. made (track_added creates_writer creates_reader garbage id ws x.0 x.1))
            (sym is ∙ e) in
        let (_, is1) =
          create_one_lem creates_writer creates_reader garbage creates_reader id b b1 r created in
        sym (ap (λ c. c.enabled) (made-made ran)) ∙ ap (λ c. c.enabled) is1
  ]

  add_writers_from_enabled :
      (writers : Map String ℕ) (ids : List String) (b b' : DdsBridge)
      → add_writers_from creates_writer creates_reader garbage writers ids b ≡ made b'
      → b'.enabled ≡ b.enabled
  unfolding add_writers_from
  add_writers_from_enabled writers [] b b' e = sym (ap (λ c. c.enabled) (made-made e))
  add_writers_from_enabled writers (id ∷ ids) b b' e =
      let (ws, selected, ran) = >>=-eq-made (writers_of_track writers id b) _ e in
      let (b1, added, rest) =
        >>=-eq-made
          (if nat_beq (length ws) 0
            then made b
            else add_to_track creates_writer creates_reader garbage id ws b)
          _ ran in
      add_writers_from_enabled writers ids b1 b' rest ∙ (elim (Bool-cases (nat_beq (length ws) 0)) [
        | inl empty ↦
            let is : made b ≡ made b1 = sym (rw empty refl) ∙ added in
            sym (ap (λ c. c.enabled) (made-made is))
        | inr some_left ↦ add_to_track_enabled ws id b b1 (sym (rw some_left refl) ∙ added)
      ])

  create_writer_enabled :
      (p : String) (b b' : DdsBridge)
      → create_writer creates_writer creates_reader garbage p b ≡ made b'
      → b'.enabled ≡ b.enabled
  unfolding create_writer add_writers_to_tracks
  create_writer_enabled p b b' e =
      let ((k, b1), created, ran) =
        >>=-eq-made (create_one creates_writer creates_reader garbage creates_writer p b) _ e in
      let (_, is1) =
        create_one_lem creates_writer creates_reader garbage creates_writer p b b1 k created in
      add_writers_from_enabled ((p, k) ∷ []) (get_participants_ids b1.participants) b1 b' ran
      ∙ ap (λ c. c.enabled) is1

  make_enabled :
      (topic : DdsTopic) (routes : RoutesMap) (unused master : Bool) (manual : List ManualTopic)
      (b : DdsBridge)
      → make creates_writer creates_reader garbage participants topic routes unused master manual
        ≡ made b
      → b.enabled ≡ false
  unfolding make new_bridge create_all_tracks add_writers_to_tracks
  make_enabled topic routes unused master manual b e =
      let start = new_bridge participants topic routes master manual in
      elim (Bool-cases (unused && not (topic.m_topic_discoverer == default_participant_id))) [
        | inl one ↦ create_writer_enabled topic.m_topic_discoverer start b (sym (rw one refl) ∙ e)
        | inr all ↦
            let ids = get_participants_ids participants in
            let is : create_all_tracks creates_writer creates_reader garbage start ≡ made b =
              sym (rw all refl) ∙ e in
            let (to_create, _, ran) = >>=-eq-made (writers_to_create ids ids [] start) _ is in
            let ((ws, b1), created, ran1) =
              >>=-eq-made (create_writers creates_writer creates_reader garbage to_create [] start)
                _ ran in
            let (s, _, _) =
              has-create_writers creates_writer creates_reader garbage to_create [] ws start b1
                created in
            add_writers_from_enabled ws (get_participants_ids b1.participants) b1 b ran1 ∙ s.enabled
      ]

  pub bridge_laws : BridgeLaws bridge_ops
  unfolding enable disable remove_writer change_master_flag
  bridge_laws = record {
    is_enabled = λ b. b.enabled;
    make-is_enabled = λ t r u m ms b e. make_enabled t r u m ms b (made_of_some _ e);
    enable-is_enabled = λ b. ground arith;
    disable-is_enabled = λ b. ground arith;
    create_writer-is_enabled = λ id b b' e. create_writer_enabled id b b' (made_of_some _ e);
    remove_writer-is_enabled = λ id b. refl;
    change_master_flag-is_enabled = λ f b. refl;
  }

  -- Over the DDS bridges of the code: after any events that a pipe handles, from its construction
  -- on, a topic that it has found is active exactly if the pipe is enabled and the topic is allowed,
  -- and each DDS bridge is enabled exactly if its topic is active. Two topics of the run with the
  -- same unique name have the same name and the same type name.
  pub bridges-Consistent :
      {RpcBridge : Type 0} (rpc : RpcBridgeOps RpcBridge) (match_pattern : String → String → Bool)
      (Seen : DdsTopic → Type 0) (distinguished : Distinguished Seen) (c : DdsPipeConfiguration)
      (events : List Event) (constructed p : DdsPipe DdsBridge RpcBridge)
      → All Seen c.builtin_topics
      → All (Shows Seen) events
      → make_pipe bridge_ops rpc match_pattern c (get_participants_repeater_map participants)
        ≡ some (some constructed)
      → run bridge_ops rpc match_pattern
          (get_participants_repeater_map participants)
          events
          constructed
        ≡ some p
      → Consistent bridge_ops rpc match_pattern bridge_laws Seen distinguished p
  bridges-Consistent rpc match_pattern Seen distinguished c events constructed p builtin seen built
        ran =
      run-Consistent bridge_ops rpc match_pattern (get_participants_repeater_map participants)
        bridge_laws Seen distinguished c events constructed p builtin seen built ran
