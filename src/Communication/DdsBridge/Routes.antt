-- ===== src/Communication/DdsBridge/Routes.antt =====
-- Which readers of DdsBridge.cpp forward to which writers.
use Prim.Native.String.{String}
use ddsproxy.Common.{
  ℕ, ◌+◌, ◌≡◌, refl, ◌∙◌, sym, ap, Bool, true, false, not, ◌&&◌, ◌||◌, none, some, List, [], ◌∷◌,
  arith, if◌then◌else◌, string_key, nat_key, ◌==◌, Option-cases, Bool-cases, inl, inr,
}
use mathlib.Core.Path.{subst}
use ddsproxy.Common.Map.{
  Map, find, insert, replace, has, OnceEach, has-insert, has-erase, has-find, find-insert,
  find-replace, has_of_some, has_of_none, insert-OnceEach, replace-OnceEach,
}
use ddsproxy.Common.Set.{member}
use ddsproxy.Dynamic.ParticipantsDatabase.{Participant, get_participant}
use ddsproxy.Types.Topic.{DdsTopic}
use ddsproxy.Communication.Attempt.{made, init_failed, made-made, >>=-eq-made}
use ddsproxy.Communication.Handles.{Handles}
use ddsproxy.Communication.Handles
use ddsproxy.Communication.Track.{Track, has_writer, add_writer, change_master, new_track}
use ddsproxy.Communication.Track
use ddsproxy.Communication.DdsBridge.{
  DdsBridge, participant_of, create_topic_for_participant, writers_in_route, writers_of_track,
  add_writers,
}
use ddsproxy.Communication.DdsBridge.Creation.{create_one, track_added, create_track, add_to_track}

-- The data of a reader goes to a writer.
abbrev pub forwards : DdsBridge → String → String → Bool
forwards b id w = elim (find id b.tracks) [ none ↦ false | some t ↦ has w t.writers ]

-- The configuration wants it to: by the route of the reader, or to every other participant, and to
-- the reader's own if that is a repeater.
abbrev pub reaches : DdsBridge → String → String → Bool
reaches b id w = elim (find id b.routes) [
  | some route ↦ member w route
  | none ↦ elim (get_participant id b.participants) [
    | none ↦ false
    | some p ↦ p.is_repeater || not (w == id)
  ]
]

has-writers_in_route :
    (route : List String) (writers : Map String ℕ) (w : String)
    → has w (writers_in_route route writers) ≡ (member w route && has w writers)
unfolding writers_in_route member has
has-writers_in_route [] writers w = refl
has-writers_in_route (id ∷ route) writers w = elim (Option-cases (find id writers)) [
  | inl missing ↦ ground (
    arith,
    missing,
    has-writers_in_route route writers w,
    string_key.beq_iff w id,
    has-find id writers,
  )
  | inr (k, there) ↦ ground (
    arith,
    there,
    has-writers_in_route route writers w,
    string_key.beq_iff w id,
    has-insert w id k (writers_in_route route writers),
    has-find id writers,
  )
]

pub has-writers_of_track :
    (writers ws : Map String ℕ) (id : String) (b : DdsBridge) (w : String)
    → writers_of_track writers id b ≡ made ws
    → has w ws ≡ (has w writers && reaches b id w)
unfolding writers_of_track get_participant
has-writers_of_track writers ws id b w e = elim (Option-cases (find id b.routes)) [
  | inr (route, own) ↦ ground (arith, own, has-writers_in_route route writers w)
  | inl no_route ↦ elim (Option-cases (find id b.participants)) [
    | inl missing ↦ absurd (ground (arith, no_route, missing))
    | inr (p, there) ↦ ground (arith, no_route, there, has-erase w id writers)
  ]
]

has-add_writers :
    (ws : Map String ℕ) (t : Track) (h : Handles) (w : String)
    → has w (add_writers ws t h).0.writers ≡ (has w t.writers || has w ws)
unfolding add_writers has_writer add_writer has
has-add_writers [] t h w = ground arith
has-add_writers ((id, k) ∷ ws) t h w = elim (Bool-cases (has id t.writers)) [
  | inl there ↦
      rw (there, add_writers)
        (has-add_writers ws t h w ∙ ground (arith, there, string_key.beq_iff w id))
  | inr new ↦
      rw (new, add_writers)
        (has-add_writers ws (add_writer id k t h).0 (add_writer id k t h).1 w
          ∙ ground (arith, has-insert w id k t.writers))
]

-- What the creation of endpoints leaves alone.
pub record Same (b b' : DdsBridge) : Type 0 where
  pub participants : b'.participants ≡ b.participants
  pub routes : b'.routes ≡ b.routes
  pub enabled : b'.enabled ≡ b.enabled

pub Same-reaches :
    (b b' : DdsBridge) → Same b b' → (id w : String) → reaches b' id w ≡ reaches b id w
unfolding get_participant
Same-reaches b b' s id w = rw (s.routes, s.participants) refl

pub Same-trans : (a b c : DdsBridge) → Same a b → Same b c → Same a c
Same-trans a b c s t = record {
  participants = t.participants ∙ s.participants;
  routes = t.routes ∙ s.routes;
  enabled = t.enabled ∙ s.enabled;
}

made_of_if :
    {A : Type 0} (c : Bool) {x y : A} → (if c then made x else init_failed) ≡ made y → x ≡ y
made_of_if true e = made-made e
made_of_if false e = cc

module _ (creates_writer creates_reader : Participant → DdsTopic → Bool) (garbage : Bool) where
  -- A new endpoint takes a new handle and nothing else.
  pub create_one_lem :
      (creates : Participant → DdsTopic → Bool) (id : String) (b b' : DdsBridge) (k : ℕ)
      → create_one creates_writer creates_reader garbage creates id b ≡ made (k, b')
      → (k ≡ b.handles.next)
        × (b' ≡ record b {
          handles = record {
            next = b.handles.next + 1;
            enabled = insert b.handles.next false b.handles.enabled;
          };
        })
  unfolding create_one Handles.create get_participant
  create_one_lem creates id b b' k e =
      let (p, there, ran) =
        >>=-eq-made (participant_of id b)
          (λ p.
            if creates p (create_topic_for_participant b.manual_topics b.topic p)
            then made (b.handles.next, record b { handles = (Handles.create b.handles).1 })
            else init_failed)
          e in
      let pair =
        made_of_if (creates p (create_topic_for_participant b.manual_topics b.topic p)) ran in
      (sym (ap (λ x. x.0) pair), sym (ap (λ x. x.1) pair))

  enable_writers : (t : Track) (h : Handles) → (Track.enable t h).0.writers ≡ t.writers
  unfolding Track.enable
  enable_writers t h = ground arith

  -- A change that adds writers to the track of one reader.
  abbrev pub Adds : String → Map String ℕ → DdsBridge → DdsBridge → Type 0
  Adds id ws b c =
      Same b c
      × OnceEach c.tracks
      × ((i w : String) → forwards c i w ≡ (forwards b i w || (i == id && has w ws)))

  track_added-Adds :
      (ws : Map String ℕ) (id : String) (r : ℕ) (b : DdsBridge)
      → OnceEach b.tracks
      → find id b.tracks ≡ none
      → Adds id ws b (track_added creates_writer creates_reader garbage id ws r b)
  unfolding track_added new_track change_master
  track_added-Adds ws id r b d missing =
      let t = change_master b.master_flag (new_track garbage id r ws) in
      let t' = (if b.enabled then Track.enable t b.handles else (t, b.handles)).0 in
      let same : t'.writers ≡ ws = ground (arith, enable_writers t b.handles) in
      (
        record { participants = refl; routes = refl; enabled = refl },
        insert-OnceEach id t' b.tracks (has_of_none id b.tracks missing) d,
        λ i w. ground (arith, find-insert i id t' b.tracks, string_key.beq_iff i id, missing, same),
      )

  create_track-Adds :
      (ws : Map String ℕ) (id : String) (b b' : DdsBridge)
      → create_track creates_writer creates_reader garbage id ws b ≡ made b'
      → OnceEach b.tracks
      → find id b.tracks ≡ none
      → Adds id ws b b'
  unfolding create_track
  create_track-Adds ws id b b' e d missing =
      let ((r, b1), created, ran) =
        >>=-eq-made (create_one creates_writer creates_reader garbage creates_reader id b)
          (λ x. made (track_added creates_writer creates_reader garbage id ws x.0 x.1)) e in
      let (_, is1) = create_one_lem creates_reader id b b1 r created in
      let c = record b {
        handles = record {
          next = b.handles.next + 1;
          enabled = insert b.handles.next false b.handles.enabled;
        };
      } in
      subst (Adds id ws b)
        (ap (λ x. track_added creates_writer creates_reader garbage id ws r x) (sym is1)
          ∙ made-made ran)
        (let (s, once, f) = track_added-Adds ws id r c d missing in
          (
            record { participants = s.participants; routes = s.routes; enabled = s.enabled },
            once,
            f,
          ))

  pub add_to_track-Adds :
      (ws : Map String ℕ) (id : String) (b b' : DdsBridge)
      → add_to_track creates_writer creates_reader garbage id ws b ≡ made b'
      → OnceEach b.tracks
      → Adds id ws b b'
  unfolding add_to_track
  add_to_track-Adds ws id b b' e d = elim (Option-cases (find id b.tracks)) [
    | inl missing ↦
        create_track-Adds ws id b b' (sym (rw (missing, add_to_track) refl) ∙ e) d missing
    | inr (t, there) ↦
        let (t', h) = add_writers ws t b.handles in
        let is : add_to_track creates_writer creates_reader garbage id ws b
            ≡ made (record b { tracks = replace id t' b.tracks; handles = h }) =
          rw (there, add_to_track) refl in
        subst (Adds id ws b) (made-made (sym is ∙ e)) (
          record { participants = refl; routes = refl; enabled = refl },
          replace-OnceEach id t' b.tracks d,
          λ i w. ground (
            arith,
            find-replace i id t' b.tracks (has_of_some id b.tracks there),
            has-add_writers ws t b.handles w,
            string_key.beq_iff i id,
            there,
          ),
        )
  ]
