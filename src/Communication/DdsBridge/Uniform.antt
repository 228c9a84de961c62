-- ===== src/Communication/DdsBridge/Uniform.antt =====
-- The tracks of a DdsBridge of DdsBridge.cpp have its state, through all its calls.
use Prim.Native.String.{String}
use ddsproxy.Common.{
  ℕ, ◌≡◌, refl, ◌∙◌, sym, ap, Bool, not, ◌&&◌, List, [], ◌∷◌, length, arith, if◌then◌else◌,
  string_key, ◌==◌, nat_beq, Option-cases, Bool-cases, inl, inr, All,
}
use mathlib.Core.Path.{subst}
use ddsproxy.Common.Map.{Map, find, insert, replace}
use ddsproxy.Configuration.{RoutesMap, ManualTopic}
use ddsproxy.Types.Topic.{DdsTopic, default_participant_id}
use ddsproxy.Dynamic.ParticipantsDatabase.{Participant, ParticipantsDatabase, get_participants_ids}
use ddsproxy.Communication.Attempt.{made, made-made, >>=-eq-made}
use ddsproxy.Communication.Track.{
  Track, new_track, add_writer, has_writer, has_writers, change_master,
}
use ddsproxy.Communication.Track
use ddsproxy.Communication.DdsBridge.{
  DdsBridge, add_writers, enable, disable, remove_writer, change_master_flag, writers_to_create,
  writers_of_track,
}
use ddsproxy.Communication.DdsBridge.Creation.{
  new_bridge, create_one, create_writers, track_added, create_track, add_to_track, add_writers_from,
  add_writers_to_tracks, create_all_tracks, create_writer, make,
}
use ddsproxy.Communication.DdsBridge.Routes.{create_one_lem}
use ddsproxy.Communication.DdsBridge.Kept.{either_branch}
use ddsproxy.Communication.DdsBridge.Calls.{
  Call, enables, disables, creates, removes, masters, call, run,
}
use ddsproxy.Communication.DdsBridge.Tracks.{
  Fits, Uniform, insert-Fits, replace-Fits, find-Fits, add_writers-Fits, remove_from_tracks-Fits,
  enable_tracks-Fits, disable_tracks-Fits, change_masters-Fits,
}

module _ (creates_writer creates_reader : Participant → DdsTopic → Bool) (garbage : Bool) where
  create_one-Uniform :
      (creates : Participant → DdsTopic → Bool) (id : String) (b b' : DdsBridge) (k : ℕ)
      → create_one creates_writer creates_reader garbage creates id b ≡ made (k, b')
      → Uniform b
      → Uniform b'
  create_one-Uniform test id b b' k e u =
      let (_, is) = create_one_lem creates_writer creates_reader garbage test id b b' k e in
      subst Uniform (sym is) u

  track_added-Uniform :
      (id : String) (ws : Map String ℕ) (r : ℕ) (b : DdsBridge)
      → Uniform b
      → Uniform (track_added creates_writer creates_reader garbage id ws r b)
  unfolding track_added new_track change_master Track.enable
  track_added-Uniform id ws r b u =
      let t = change_master b.master_flag (new_track garbage id r ws) in
      let t' = (if b.enabled then Track.enable t b.handles else (t, b.handles)).0 in
      let fits : Fits b.enabled b.master_flag (id, t') = ground arith in
      insert-Fits b.enabled b.master_flag id t' b.tracks fits u

  add_to_track-Uniform :
      (ws : Map String ℕ) (id : String) (b b' : DdsBridge)
      → add_to_track creates_writer creates_reader garbage id ws b ≡ made b'
      → Uniform b
      → Uniform b'
  unfolding add_to_track create_track
  add_to_track-Uniform ws id b b' e u = elim (Option-cases (find id b.tracks)) [
    | inr (t, there) ↦
        let (t', h) = add_writers ws t b.handles in
        let is : add_to_track creates_writer creates_reader garbage id ws b
            ≡ made (record b { tracks = replace id t' b.tracks; handles = h }) =
          rw (there, add_to_track) refl in
        subst Uniform (made-made (sym is ∙ e)) (
          replace-Fits b.enabled b.master_flag id t' b.tracks
            (add_writers-Fits b.enabled b.master_flag id ws t b.handles
              (find-Fits b.enabled b.master_flag id t b.tracks u there))
            u)
    | inl missing ↦
        let is : add_to_track creates_writer creates_reader garbage id ws b
            ≡ create_track creates_writer creates_reader garbage id ws b =
          rw (missing, add_to_track) refl in
        let ((r, b1), created, ran) =
          >>=-eq-made (create_one creates_writer creates_reader garbage creates_reader id b)
            (λ x. made (track_added creates_writer creates_reader garbage id ws x.0 x.1))
            (sym is ∙ e) in
        subst Uniform (made-made ran)
          (track_added-Uniform id ws r b1 (create_one-Uniform creates_reader id b b1 r created u))
  ]

  add_writers_from-Uniform :
      (writers : Map String ℕ) (ids : List String) (b b' : DdsBridge)
      → add_writers_from creates_writer creates_reader garbage writers ids b ≡ made b'
      → Uniform b
      → Uniform b'
  unfolding add_writers_from
  add_writers_from-Uniform writers [] b b' e u = subst Uniform (made-made e) u
  add_writers_from-Uniform writers (id ∷ ids) b b' e u =
      let (ws, selected, ran) = >>=-eq-made (writers_of_track writers id b) _ e in
      let (b1, added, rest) =
        >>=-eq-made
          (if nat_beq (length ws) 0
            then made b
            else add_to_track creates_writer creates_reader garbage id ws b)
          _ ran in
      add_writers_from-Uniform writers ids b1 b' rest (elim (Bool-cases (nat_beq (length ws) 0)) [
        | inl empty ↦
            let is : made b ≡ made b1 = sym (rw empty refl) ∙ added in
            subst Uniform (made-made is) u
        | inr some_left ↦ add_to_track-Uniform ws id b b1 (sym (rw some_left refl) ∙ added) u
      ])

  create_writer-Uniform :
      (p : String) (b b' : DdsBridge)
      → create_writer creates_writer creates_reader garbage p b ≡ made b'
      → Uniform b
      → Uniform b'
  unfolding create_writer add_writers_to_tracks
  create_writer-Uniform p b b' e u =
      let ((k, b1), created, ran) =
        >>=-eq-made (create_one creates_writer creates_reader garbage creates_writer p b) _ e in
      add_writers_from-Uniform ((p, k) ∷ []) (get_participants_ids b1.participants) b1 b' ran
        (create_one-Uniform creates_writer p b b1 k created u)

  create_writers-Uniform :
      (ids : List String) (writers ws : Map String ℕ) (b b' : DdsBridge)
      → create_writers creates_writer creates_reader garbage ids writers b ≡ made (ws, b')
      → Uniform b
      → Uniform b'
  unfolding create_writers
  create_writers-Uniform [] writers ws b b' e u = subst Uniform (ap (λ x. x.1) (made-made e)) u
  create_writers-Uniform (id ∷ ids) writers ws b b' e u =
      let ((k, b1), created, ran) =
        >>=-eq-made (create_one creates_writer creates_reader garbage creates_writer id b) _ e in
      create_writers-Uniform ids (insert id k writers) ws b1 b' ran
        (create_one-Uniform creates_writer id b b1 k created u)

  make-Uniform :
      (participants : ParticipantsDatabase) (topic : DdsTopic) (routes : RoutesMap)
      (unused master : Bool) (manual : List ManualTopic) (b : DdsBridge)
      → make creates_writer creates_reader garbage participants topic routes unused master manual
        ≡ made b
      → Uniform b
  unfolding make new_bridge create_all_tracks add_writers_to_tracks
  make-Uniform participants topic routes unused master manual b e =
      let start = new_bridge participants topic routes master manual in
      elim (Bool-cases (unused && not (topic.m_topic_discoverer == default_participant_id))) [
        | inl one ↦
            create_writer-Uniform topic.m_topic_discoverer start b (sym (rw one refl) ∙ e) tt
        | inr all ↦
            let is : create_all_tracks creates_writer creates_reader garbage start ≡ made b =
              sym (rw all refl) ∙ e in
            let ids = get_participants_ids participants in
            let (to_create, _, ran) = >>=-eq-made (writers_to_create ids ids [] start) _ is in
            let ((ws, b1), created, ran1) =
              >>=-eq-made (create_writers creates_writer creates_reader garbage to_create [] start)
                _ ran in
            add_writers_from-Uniform ws (get_participants_ids b1.participants) b1 b ran1
              (create_writers-Uniform to_create [] ws start b1 created tt)
      ]

  call-Uniform :
      (c : Call) (b b' : DdsBridge)
      → call creates_writer creates_reader garbage c b ≡ made b'
      → Uniform b
      → Uniform b'
  unfolding call enable disable remove_writer change_master_flag
  call-Uniform enables b b' e u = subst Uniform (made-made e) (
      either_branch Uniform b.enabled u
        (enable_tracks-Fits b.enabled b.master_flag b.tracks b.handles u))
  call-Uniform disables b b' e u = subst Uniform (made-made e) (
      either_branch Uniform b.enabled
        (disable_tracks-Fits b.enabled b.master_flag b.tracks b.handles u) u)
  call-Uniform (creates p) b b' e u = create_writer-Uniform p b b' e u
  call-Uniform (removes p) b b' e u =
      subst Uniform (made-made e)
        (remove_from_tracks-Fits b.enabled b.master_flag p b.tracks b.handles u)
  call-Uniform (masters flag) b b' e u =
      subst Uniform (made-made e) (change_masters-Fits b.enabled b.master_flag flag b.tracks u)

  run-Uniform :
      (cs : List Call) (b b' : DdsBridge)
      → run creates_writer creates_reader garbage cs b ≡ made b'
      → Uniform b
      → Uniform b'
  unfolding run
  run-Uniform [] b b' e u = subst Uniform (made-made e) u
  run-Uniform (c ∷ cs) b b' e u =
      let (b1, called, ran) =
        >>=-eq-made (call creates_writer creates_reader garbage c b)
          (run creates_writer creates_reader garbage cs) e in
      run-Uniform cs b1 b' ran (call-Uniform c b b1 called u)

  -- From the constructor on, through any calls that return, every track is enabled exactly if the
  -- bridge is, has the master flag of the bridge, and stands under the id of its reader.
  pub run-make-Uniform :
      (participants : ParticipantsDatabase) (topic : DdsTopic) (routes : RoutesMap)
      (unused master : Bool) (manual : List ManualTopic) (cs : List Call) (b b' : DdsBridge)
      → make creates_writer creates_reader garbage participants topic routes unused master manual
        ≡ made b
      → run creates_writer creates_reader garbage cs b ≡ made b'
      → All (Fits b'.enabled b'.master_flag) b'.tracks
  run-make-Uniform participants topic routes unused master manual cs b b' e ran =
      run-Uniform cs b b' ran (make-Uniform participants topic routes unused master manual b e)
