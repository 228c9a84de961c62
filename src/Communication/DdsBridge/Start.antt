-- ===== src/Communication/DdsBridge/Start.antt =====
-- The construction of a DdsBridge of DdsBridge.cpp with every writer that a route wants.
use Prim.Native.String.{String}
use ddsproxy.Common.{
  ℕ, ◌≡◌, refl, ◌∙◌, sym, ap, Bool, true, false, ◌&&◌, ◌||◌, none, some, List, [], ◌∷◌, arith,
  string_key, nat_key, ◌==◌, Option-cases, Bool-cases, inl, inr,
}
use mathlib.Core.Path.{subst}
use ddsproxy.Common.Map.{Map, find, insert, has, OnceEach, has-insert, has_of_some}
use ddsproxy.Common.Set.{member}
use ddsproxy.Dynamic.ParticipantsDatabase.{Participant, get_participant, get_participants_ids}
use ddsproxy.Types.Topic.{DdsTopic}
use ddsproxy.Communication.Attempt.{made, made-made, >>=-eq-made}
use ddsproxy.Communication.Track.{Track}
use ddsproxy.Communication.DdsBridge.{DdsBridge}
use ddsproxy.Communication.DdsBridge.Creation.{create_one, add_writers_to_tracks}
use ddsproxy.Communication.DdsBridge.Routes.{
  reaches, Same, Same-reaches, Same-trans, create_one_lem,
}
use ddsproxy.Common.Set
use ddsproxy.Dynamic.ParticipantsDatabase.Contents.{getters-agree}
use ddsproxy.Common.Set.{member-insert, member-erase}
use ddsproxy.Communication.DdsBridge.{insert_all, writers_ids, writers_to_create}
use ddsproxy.Communication.DdsBridge.Creation.{create_writers, create_all_tracks}
use ddsproxy.Communication.DdsBridge.Refinement.{Follows, add_writers_from-forwards}

pub member-insert_all :
    (ids set : List String) (w : String)
    → member w (insert_all ids set) ≡ (member w ids || member w set)
unfolding member
member-insert_all [] set w = refl
member-insert_all (id ∷ ids) set w =
    member-insert_all ids (Set.insert id set) w ∙ ground (arith, member-insert w id set)

-- The participant is wanted as a writer of a reader.
abbrev target : List String → DdsBridge → String → String → Bool
target ids b id w = elim (find id b.routes) [
  | some route ↦ member w route
  | none ↦ reaches b id w && member w ids
]

target_of_reaches :
    (ids : List String) (b : DdsBridge) (id w : String)
    → reaches b id w ≡ true
    → member w ids ≡ true
    → target ids b id w ≡ true
target_of_reaches ids b id w r m = elim (Option-cases (find id b.routes)) [
  | inr (route, own) ↦ ground (arith, own)
  | inl no_route ↦ ground (arith, no_route)
]

no_tracks :
    (ts : Map String Track) (id w : String)
    → ts ≡ []
    → (elim (find id ts) [ none ↦ false | some t ↦ has w t.writers ]) ≡ false
unfolding find
no_tracks ts id w e = rw e refl

member-writers_ids :
    (ids out : List String) (id : String) (b : DdsBridge) (w : String)
    → writers_ids ids id b ≡ made out
    → member w out ≡ target ids b id w
unfolding writers_ids get_participant
member-writers_ids ids out id b w e = elim (Option-cases (find id b.routes)) [
  | inr (route, own) ↦ ground (arith, own)
  | inl no_route ↦ elim (Option-cases (find id b.participants)) [
    | inl missing ↦ absurd (ground (arith, no_route, missing))
    | inr (p, there) ↦ ground (arith, no_route, there, member-erase w id ids)
  ]
]

-- What is wanted by a reader of the loop is in its result, and nothing that was there goes.
member-writers_to_create :
    (ids rest set out : List String) (b : DdsBridge)
    → writers_to_create ids rest set b ≡ made out
    → (w : String)
    → (member w set ≡ true → member w out ≡ true)
      × ((i : String) → member i rest ≡ true → target ids b i w ≡ true → member w out ≡ true)
unfolding writers_to_create member
member-writers_to_create ids [] set out b e w =
    (λ h. ap (member w) (sym (made-made e)) ∙ h, λ i h t. absurd (cc h))
member-writers_to_create ids (id ∷ rest) set out b e w =
    let (ws, got, ran) = >>=-eq-made (writers_ids ids id b) _ e in
    let (keeps, adds) = member-writers_to_create ids rest (insert_all ws set) out b ran w in
    let here = member-insert_all ws set w in
    (
      λ h. keeps (here ∙ ground arith),
      λ i h t. elim (Bool-cases (i == id)) [
        | inl same ↦
            keeps
              (here ∙ ground (arith, string_key.beq_iff i id, member-writers_ids ids ws id b w got))
        | inr other ↦ adds i (ground arith) t
      ],
    )

module _ (creates_writer creates_reader : Participant → DdsTopic → Bool) (garbage : Bool) where
  -- A participant that creates an endpoint is there.
  create_one_known :
      (creates : Participant → DdsTopic → Bool) (id : String) (b : DdsBridge) (x : ℕ × DdsBridge)
      → create_one creates_writer creates_reader garbage creates id b ≡ made x
      → has id b.participants ≡ true
  unfolding create_one get_participant
  create_one_known creates id b x e = elim (Option-cases (find id b.participants)) [
    | inl missing ↦ absurd (ground (arith, missing))
    | inr (p, there) ↦ has_of_some id b.participants there
  ]

  pub has-create_writers :
      (ids : List String) (writers ws : Map String ℕ) (b b' : DdsBridge)
      → create_writers creates_writer creates_reader garbage ids writers b ≡ made (ws, b')
      → Same b b'
        × (b'.tracks ≡ b.tracks)
        × ((w : String)
            → (has w ws ≡ (member w ids || has w writers))
              × (member w ids ≡ true → has w b.participants ≡ true))
  unfolding create_writers member
  has-create_writers [] writers ws b b' e =
      let pair = made-made e in
      (
        record {
          participants = sym (ap (λ x. x.1.participants) pair);
          routes = sym (ap (λ x. x.1.routes) pair);
          enabled = sym (ap (λ x. x.1.enabled) pair);
        },
        sym (ap (λ x. x.1.tracks) pair),
        λ w. (sym (ap (λ x. has w x.0) pair), λ h. absurd (cc h)),
      )
  has-create_writers (id ∷ ids) writers ws b b' e =
      let ((k, b1), created, ran) =
        >>=-eq-made (create_one creates_writer creates_reader garbage creates_writer id b) _ e in
      let (_, is1) =
        create_one_lem creates_writer creates_reader garbage creates_writer id b b1 k created in
      let s1 : Same b b1 = record {
        participants = ap (λ c. c.participants) is1;
        routes = ap (λ c. c.routes) is1;
        enabled = ap (λ c. c.enabled) is1;
      } in
      let (s, tracks, h) = has-create_writers ids (insert id k writers) ws b1 b' ran in
      (
        Same-trans b b1 b' s1 s,
        tracks ∙ ap (λ c. c.tracks) is1,
        λ w. (
          (h w).0 ∙ ground (arith, has-insert w id k writers),
          λ m. elim (Bool-cases (w == id)) [
            | inl same ↦ ground (
              arith,
              string_key.beq_iff w id,
              create_one_known creates_writer id b (k, b1) created,
            )
            | inr other ↦ ap (has w) (sym s1.participants) ∙ (h w).1 (ground arith)
          ],
        ),
      )

  -- The bridge with all its writers: each reader forwards to every participant that it reaches.
  pub create_all_tracks-Follows :
      (b b' : DdsBridge)
      → OnceEach b.participants
      → b.tracks ≡ []
      → create_all_tracks creates_writer creates_reader garbage b ≡ made b'
      → Follows (λ w. has w b.participants) b' × Same b b'
  unfolding create_all_tracks add_writers_to_tracks has
  create_all_tracks-Follows b b' known new e =
      let ids = get_participants_ids b.participants in
      let (to_create, wanted, ran) = >>=-eq-made (writers_to_create ids ids [] b) _ e in
      let ((ws, b1), created, ran1) =
        >>=-eq-made (create_writers creates_writer creates_reader garbage to_create [] b) _ ran in
      let (s1, tracks, h) = has-create_writers to_create [] ws b b1 created in
      let (s2, d, g) =
        add_writers_from-forwards creates_writer creates_reader garbage ws
          (get_participants_ids b1.participants) b1 b' ran1
          (subst OnceEach (sym (tracks ∙ new)) tt) in
      let s = Same-trans b b1 b' s1 s2 in
      (
        record {
          once = d;
          routed = λ id w.
              let (_, wants) = member-writers_to_create ids ids [] to_create b wanted w in
              let (has_ws, knows) = h w in
              let (agree, _, _) = getters-agree b.participants w known in
              ground (
                arith,
                g id w,
                no_tracks b1.tracks id w (tracks ∙ new),
                has_ws,
                knows,
                wants id,
                agree,
                target_of_reaches ids b id w,
                Same-reaches b b1 s1 id w,
                Same-reaches b b' s id w,
                ap get_participants_ids s1.participants,
                ap get_participants_ids s.participants,
              );
        },
        s,
      )
