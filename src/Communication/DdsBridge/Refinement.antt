-- ===== src/Communication/DdsBridge/Refinement.antt =====
-- DdsBridge.cpp against its abstract view: the set of participants whose writers exist decides, with
-- the routes, where the data of each reader goes.
use Prim.Native.String.{String}
use ddsproxy.Common.{
  ℕ, ◌≡◌, refl, ◌∙◌, sym, ap, Bool, true, false, ◌&&◌, ◌||◌, List, [], ◌∷◌, length, arith,
  if◌then◌else◌, string_key, nat_key, ◌==◌, nat_beq, Bool-cases, inl, inr,
}
use mathlib.Core.Path.{subst}
use ddsproxy.Common.Map.{Map, has, OnceEach}
use ddsproxy.Common.Set.{member}
use ddsproxy.Dynamic.ParticipantsDatabase.{Participant, get_participants_ids}
use ddsproxy.Types.Topic.{DdsTopic}
use ddsproxy.Communication.Attempt.{made, made-made, >>=-eq-made}
use ddsproxy.Communication.DdsBridge.{DdsBridge, writers_of_track}
use ddsproxy.Communication.DdsBridge.Creation.{
  create_one, add_to_track, add_writers_from, add_writers_to_tracks, create_writer,
}
use ddsproxy.Communication.DdsBridge.Routes.{
  forwards, reaches, Same, Same-reaches, Same-trans, Adds, add_to_track-Adds, has-writers_of_track,
  create_one_lem,
}

-- With the writers of `active` created, each reader forwards to those of them that it reaches.
pub record Follows (active : String → Bool) (b : DdsBridge) : Type 0 where
  pub once : OnceEach b.tracks
  pub routed :
      (id w : String)
      → forwards b id w
        ≡ (active w && (member id (get_participants_ids b.participants) && reaches b id w))

pub has_of_empty : (m : Map String ℕ) (w : String) → nat_beq (length m) 0 ≡ true → has w m ≡ false
unfolding has
has_of_empty [] w e = refl
has_of_empty (x ∷ m) w e = absurd (ground arith)

module _ (creates_writer creates_reader : Participant → DdsTopic → Bool) (garbage : Bool) where
  pub one_round :
      (ws : Map String ℕ) (id : String) (b b' : DdsBridge)
      → (if nat_beq (length ws) 0
          then made b
          else add_to_track creates_writer creates_reader garbage id ws b)
        ≡ made b'
      → OnceEach b.tracks
      → Adds creates_writer creates_reader garbage id ws b b'
  one_round ws id b b' e d = elim (Bool-cases (nat_beq (length ws) 0)) [
    | inr some_left ↦
        add_to_track-Adds creates_writer creates_reader garbage ws id b b'
          (sym (rw some_left refl) ∙ e) d
    | inl empty ↦
        let is : b ≡ b' = made-made (sym (rw empty refl) ∙ e) in
        subst (Adds creates_writer creates_reader garbage id ws b) is (
          record { participants = refl; routes = refl; enabled = refl },
          d,
          λ i w. ground (arith, has_of_empty ws w empty),
        )
  ]

  pub add_writers_from-forwards :
      (writers : Map String ℕ) (ids : List String) (b b' : DdsBridge)
      → add_writers_from creates_writer creates_reader garbage writers ids b ≡ made b'
      → OnceEach b.tracks
      → Same b b'
        × OnceEach b'.tracks
        × ((i w : String)
            → forwards b' i w
              ≡ (forwards b i w || (member i ids && (has w writers && reaches b i w))))
  unfolding add_writers_from member
  add_writers_from-forwards writers [] b b' e d =
      subst
        (λ (c : DdsBridge).
          Same b c
          × OnceEach c.tracks
          × ((i w : String) → forwards c i w ≡ (forwards b i w || false)))
        (made-made e)
        (record { participants = refl; routes = refl; enabled = refl }, d, λ i w. ground arith)
  add_writers_from-forwards writers (id ∷ ids) b b' e d =
      let (ws, selected, ran) = >>=-eq-made (writers_of_track writers id b) _ e in
      let (b1, added, rest) =
        >>=-eq-made
          (if nat_beq (length ws) 0
            then made b
            else add_to_track creates_writer creates_reader garbage id ws b)
          _ ran in
      let (s1, d1, f1) = one_round ws id b b1 added d in
      let (s2, d2, f2) = add_writers_from-forwards writers ids b1 b' rest d1 in
      (
        Same-trans b b1 b' s1 s2,
        d2,
        λ i w. ground (
          arith,
          f2 i w,
          f1 i w,
          has-writers_of_track writers ws id b w selected,
          Same-reaches b b1 s1 i w,
          string_key.beq_iff i id,
        ),
      )

  -- One more writer.
  pub create_writer-Follows :
      (active : String → Bool) (p : String) (b b' : DdsBridge)
      → create_writer creates_writer creates_reader garbage p b ≡ made b'
      → Follows active b
      → Follows (λ w. w == p || active w) b' × Same b b'
  unfolding create_writer add_writers_to_tracks has
  create_writer-Follows active p b b' e f =
      let ((k, b1), created, ran) =
        >>=-eq-made (create_one creates_writer creates_reader garbage creates_writer p b) _ e in
      let (_, is1) =
        create_one_lem creates_writer creates_reader garbage creates_writer p b b1 k created in
      let (s, d, g) =
        add_writers_from-forwards ((p, k) ∷ []) (get_participants_ids b1.participants) b1 b' ran
          (subst (λ (c : DdsBridge). OnceEach c.tracks) (sym is1) f.once) in
      let s1 : Same b b1 = record {
        participants = ap (λ c. c.participants) is1;
        routes = ap (λ c. c.routes) is1;
        enabled = ap (λ c. c.enabled) is1;
      } in
      let same = Same-trans b b1 b' s1 s in
      (
        record {
          once = d;
          routed = λ id w. ground (
            arith,
            g id w,
            ap (λ c. forwards c id w) is1,
            f.routed id w,
            Same-reaches b b1 s1 id w,
            Same-reaches b b' same id w,
            ap get_participants_ids s1.participants,
            ap get_participants_ids same.participants,
          );
        },
        same,
      )
