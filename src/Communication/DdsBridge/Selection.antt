-- ===== src/Communication/DdsBridge/Selection.antt =====
-- When the selection of writers and tracks of DdsBridge.cpp finds every participant.
use Prim.Native.String.{String}
use ddsproxy.Common.{
  ℕ, ◌≡◌, refl, ◌∙◌, sym, ap, Bool, true, some, List, [], ◌∷◌, arith, if◌then◌else◌, string_key,
  nat_key, Option-cases, Bool-cases, inl, inr, All,
}
use ddsproxy.Common.Map.{Map, OnceEach, has, find, has-find}
use ddsproxy.Common.Set
use ddsproxy.Common.Set.{member, member-erase}
use ddsproxy.Configuration.{RoutesMap, ManualTopic}
use ddsproxy.Configuration.Validity.{IsDestination, IsRoute}
use ddsproxy.Types.Topic.{DdsTopic}
use ddsproxy.Dynamic.ParticipantsDatabase.{
  ParticipantsDatabase, get_participant, get_participants_ids, get_participants_repeater_map,
}
use ddsproxy.Dynamic.ParticipantsDatabase.Contents.{getters-agree}
use ddsproxy.Communication.Attempt.{Attempt, made, ◌>>=◌}
use ddsproxy.Communication.DdsBridge.{
  DdsBridge, participant_of, insert_all, writers_ids, writers_to_create, writers_of_track,
}
use ddsproxy.Communication.DdsBridge.Creation.{new_bridge}
use ddsproxy.Communication.DdsBridge.Routes.{Same}
use ddsproxy.Communication.DdsBridge.Start.{member-insert_all}

abbrev pub Returns : {A : Type 0} → Attempt A → Type 0
Returns {A = A} m = (x : A) × (m ≡ made x)

pub Returns-then :
    {A B : Type 0} (m : Attempt A) (f : A → Attempt B)
    → Returns m
    → ((x : A) → m ≡ made x → Returns (f x))
    → Returns (m >>= f)
Returns-then m f (x, e) h = let (y, e') = h x e in (y, ap (λ n. n >>= f) e ∙ e')

-- Ids and routes name participants that are there.
pub record Valid (b : DdsBridge) : Type 0 where
  pub ids_known :
      (id : String)
      → member id (get_participants_ids b.participants) ≡ true
      → has id b.participants ≡ true
  pub routes_known :
      (id w : String) (route : List String)
      → find id b.routes ≡ some route
      → member w route ≡ true
      → has w b.participants ≡ true

pub Same-Valid : (b b' : DdsBridge) → Same b b' → Valid b → Valid b'
Same-Valid b b' s v = record {
  ids_known = λ id m.
      ap (has id) s.participants
      ∙ v.ids_known id (ap (λ ps. member id (get_participants_ids ps)) (sym s.participants) ∙ m);
  routes_known = λ id w route r m.
      ap (has w) s.participants ∙ v.routes_known id w route (ap (find id) (sym s.routes) ∙ r) m;
}

member-destinations :
    (ids : Map String Bool) (src w : String) (r : Bool) (dsts : List String)
    → All (IsDestination ids src r) dsts
    → member w dsts ≡ true
    → has w ids ≡ true
unfolding member
member-destinations ids src w r [] h m = absurd (cc m)
member-destinations ids src w r (d ∷ dsts) (h, hs) m =
    ground (arith, string_key.beq_iff w d, h.0, member-destinations ids src w r dsts hs)

find-IsRoute :
    (ids : Map String Bool) (routes : RoutesMap) (id w : String) (route : List String)
    → All (IsRoute ids) routes
    → find id routes ≡ some route
    → member w route ≡ true
    → has w ids ≡ true
unfolding find
find-IsRoute ids [] id w route h e m = cc
find-IsRoute ids ((src, dsts) ∷ rest) id w route ((r, _, ds), hs) e m =
    ground (arith, member-destinations ids src w r dsts ds, find-IsRoute ids rest id w route hs)

pub new_bridge-Valid :
    (participants : ParticipantsDatabase) (topic : DdsTopic) (routes : RoutesMap)
    (master_flag : Bool) (manual_topics : List ManualTopic)
    → OnceEach participants
    → All (IsRoute (get_participants_repeater_map participants)) routes
    → Valid (new_bridge participants topic routes master_flag manual_topics)
unfolding new_bridge get_participant
new_bridge-Valid participants topic routes master_flag manual_topics once valid = record {
  ids_known = λ id m. sym (getters-agree participants id once).0 ∙ m;
  routes_known = λ id w route e m.
      let (_, _, repeats) = getters-agree participants w once in
      let there =
        find-IsRoute (get_participants_repeater_map participants) routes id w route valid e m in
      ground (
        arith,
        repeats,
        there,
        has-find w participants,
        has-find w (get_participants_repeater_map participants),
      );
}

pub participant_of-Returns :
    (id : String) (b : DdsBridge) → has id b.participants ≡ true → Returns (participant_of id b)
unfolding get_participant
participant_of-Returns id b h = elim (Option-cases (find id b.participants)) [
  | inl missing ↦ absurd (ground (arith, missing, has-find id b.participants))
  | inr (p, there) ↦ (p, rw (there, participant_of) refl)
]

writers_ids-Returns :
    (ids : List String) (id : String) (b : DdsBridge)
    → has id b.participants ≡ true
    → Returns (writers_ids ids id b)
unfolding writers_ids
writers_ids-Returns ids id b h = elim (Option-cases (find id b.routes)) [
  | inr (route, own) ↦ (route, rw (own, writers_ids) refl)
  | inl no_route ↦
      let (p, there) = participant_of-Returns id b h in
      (if p.is_repeater then ids else Set.erase id ids, rw (no_route, writers_ids) (rw there refl))
]

abbrev pub Known : DdsBridge → List String → Type 0
Known b ids = (w : String) → member w ids ≡ true → has w b.participants ≡ true

writers_ids-Known :
    (ids out : List String) (id : String) (b : DdsBridge)
    → Valid b
    → Known b ids
    → writers_ids ids id b ≡ made out
    → Known b out
unfolding writers_ids get_participant
writers_ids-Known ids out id b v k e w m = elim (Option-cases (find id b.routes)) [
  | inr (route, own) ↦ v.routes_known id w route own (ground (arith, own))
  | inl no_route ↦ elim (Option-cases (find id b.participants)) [
    | inl missing ↦ absurd (ground (arith, no_route, missing))
    | inr (p, there) ↦ k w (ground (arith, no_route, there, member-erase w id ids))
  ]
]

pub writers_to_create_returns :
    (ids rest set : List String) (b : DdsBridge)
    → Valid b
    → Known b ids
    → Known b rest
    → Known b set
    → (out : List String) × (writers_to_create ids rest set b ≡ made out) × Known b out
unfolding writers_to_create member
writers_to_create_returns ids [] set b v k ks kset = (set, refl, kset)
writers_to_create_returns ids (id ∷ rest) set b v k ks kset =
    let (ws, e) = writers_ids-Returns ids id b (ks id (ground (arith, string_key.beq_iff id id))) in
    let (out, e', kout) =
      writers_to_create_returns ids rest (insert_all ws set) b v k (λ w m. ks w (ground arith))
        (λ w m. elim (Bool-cases (member w ws)) [
          | inl new ↦ writers_ids-Known ids ws id b v k e w new
          | inr old ↦ kset w (ground (arith, member-insert_all ws set w))
        ]) in
    (out, ap (λ m. m >>= (λ ws. writers_to_create ids rest (insert_all ws set) b)) e ∙ e', kout)

pub writers_of_track-Returns :
    (writers : Map String ℕ) (id : String) (b : DdsBridge)
    → has id b.participants ≡ true
    → Returns (writers_of_track writers id b)
unfolding writers_of_track
writers_of_track-Returns writers id b h = elim (Option-cases (find id b.routes)) [
  | inr (route, own) ↦ rw (own, writers_of_track) (_, refl)
  | inl no_route ↦
      rw (no_route, writers_of_track)
        (Returns-then (participant_of id b) _ (participant_of-Returns id b h) (λ p e. (_, refl)))
]
