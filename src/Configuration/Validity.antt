-- ===== src/Configuration/Validity.antt =====
-- What a valid configuration of routes guarantees.
use Prim.Native.String.{String}
use ddsproxy.Common.{
  Bool, true, ◌≡◌, refl, ◌↔◌, some, List, [], ◌∷◌, arith, All, string_key, Option-cases, inl, inr,
}
use ddsproxy.Common.Map.{Map, find, has}
use ddsproxy.Types.Topic.{DdsTopic, topic_unique_name}
use ddsproxy.Configuration.{
  RoutesMap, DdsPipeConfiguration, are_valid_destinations, are_valid_routes, are_valid_topic_routes,
  is_valid, get_routes_config,
}

-- A destination is a participant, and the source itself only if that is a repeater.
abbrev pub IsDestination : Map String Bool → String → Bool → String → Type 0
IsDestination ids src is_repeater dst = (has dst ids ≡ true) × (dst ≡ src → is_repeater ≡ true)

abbrev pub IsRoute : Map String Bool → String × List String → Type 0
IsRoute ids (src, dsts) =
    (is_repeater : Bool) × (find src ids ≡ some is_repeater)
    × All (IsDestination ids src is_repeater) dsts

destinations_sound :
    (ids : Map String Bool) (src : String) (r : Bool) (dsts : List String)
    → are_valid_destinations ids src r dsts ≡ true
    → All (IsDestination ids src r) dsts
unfolding are_valid_destinations
destinations_sound ids src r [] h = tt
destinations_sound ids src r (d ∷ dsts) h = (
  (ground arith, λ e. ground (arith, string_key.beq_iff d src)),
  destinations_sound ids src r dsts (ground arith),
)

destinations_complete :
    (ids : Map String Bool) (src : String) (r : Bool) (dsts : List String)
    → All (IsDestination ids src r) dsts
    → are_valid_destinations ids src r dsts ≡ true
unfolding are_valid_destinations
destinations_complete ids src r [] h = refl
destinations_complete ids src r (d ∷ dsts) h =
    ground (arith, string_key.beq_iff d src, destinations_complete ids src r dsts h.1, h.0.0, h.0.1)

routes_sound :
    (ids : Map String Bool) (rs : RoutesMap) → are_valid_routes ids rs ≡ true → All (IsRoute ids) rs
unfolding are_valid_routes
routes_sound ids [] h = tt
routes_sound ids ((src, dsts) ∷ rs) h = elim (Option-cases (find src ids)) [
  | inl missing ↦ absurd (ground (arith, missing))
  | inr (r, there) ↦ (
    (r, there, destinations_sound ids src r dsts (ground (arith, there))),
    routes_sound ids rs (ground (arith, there)),
  )
]

routes_complete :
    (ids : Map String Bool) (rs : RoutesMap) → All (IsRoute ids) rs → are_valid_routes ids rs ≡ true
unfolding are_valid_routes
routes_complete ids [] h = refl
routes_complete ids ((src, dsts) ∷ rs) ((r, there, ds), hs) =
    rw (there, are_valid_routes)
      (rw (destinations_complete ids src r dsts ds, routes_complete ids rs hs) refl)

-- Routes are valid exactly if every source is a participant, every destination is one, and a source
-- is among its own destinations only if it is a repeater.
pub are_valid_routes_iff :
    (ids : Map String Bool) (routes : RoutesMap)
    → (are_valid_routes ids routes ≡ true) ↔ All (IsRoute ids) routes
are_valid_routes_iff ids routes = (routes_sound ids routes, routes_complete ids routes)

topic_routes-find :
    (ids : Map String Bool) (m : Map String RoutesMap) (topic : String) (routes : RoutesMap)
    → are_valid_topic_routes ids m ≡ true
    → find topic m ≡ some routes
    → are_valid_routes ids routes ≡ true
unfolding are_valid_topic_routes find
topic_routes-find ids [] topic routes h e = cc
topic_routes-find ids ((t, rs) ∷ m) topic routes h e =
    ground (arith, topic_routes-find ids m topic routes)

-- A valid configuration gives every topic routes between participants, on which no participant but
-- a repeater is its own destination.
pub get_routes_config-IsRoute :
    (c : DdsPipeConfiguration) (ids : Map String Bool) (topic : DdsTopic)
    → is_valid c ids ≡ true
    → All (IsRoute ids) (get_routes_config c topic)
unfolding is_valid get_routes_config
get_routes_config-IsRoute c ids topic h =
    elim (Option-cases (find (topic_unique_name topic) c.topic_routes)) [
      | inl generic ↦ rw (generic, get_routes_config) (routes_sound ids c.routes (ground arith))
      | inr (routes, own) ↦
          rw (own, get_routes_config)
            (routes_sound ids routes (
              topic_routes-find ids c.topic_routes (topic_unique_name topic) routes (ground arith)
                own))
    ]
