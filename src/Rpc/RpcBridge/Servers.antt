-- ===== src/Rpc/RpcBridge/Servers.antt =====
-- The servers that an RpcBridge of RpcBridge.cpp knows, and what creating its endpoints leaves alone.
use Prim.Native.String.{String}
use ddsproxy.Common.{
  ℕ, ◌≡◌, refl, ◌∙◌, sym, Bool, true, false, List, [], ◌∷◌, length, arith, if◌then◌else◌,
  string_key, nat_key, ◌==◌, ltb, Option-cases, Bool-cases, inl, inr,
}
use ddsproxy.Common.Map.{Map, find, insert}
use ddsproxy.Common.Set
use ddsproxy.Types.Topic.{DdsTopic}
use ddsproxy.Dynamic.ParticipantsDatabase.{Participant, get_participant}
use ddsproxy.Rpc.RpcBridge.{
  RpcBridge, Ran, returned, thrown, null_pointer, ◌>>◌, servers_available, servers_of, touch,
  create_endpoint, create_slot, create_proxy_client, create_proxy_server, enable_registry,
  init_from,
}

pub servers_available-insert :
    (id : String) (servers : List ℕ) (m : Map String (List ℕ))
    → ltb 0 (length servers) ≡ true
    → servers_available (insert id servers m) ≡ true
unfolding servers_available insert
servers_available-insert id servers [] h = ground (arith, h)
servers_available-insert id servers ((j, s) ∷ m) h =
    ground (arith, servers_available-insert id servers m h, h)

servers_available-insert_empty :
    (id : String) (servers : List ℕ) (m : Map String (List ℕ))
    → ltb 0 (length servers) ≡ false
    → ltb 0 (length (servers_of id m)) ≡ false
    → servers_available (insert id servers m) ≡ servers_available m
unfolding servers_available insert servers_of find
servers_available-insert_empty id servers [] h e = ground (arith, h)
servers_available-insert_empty id servers ((j, s) ∷ m) h e = elim (Bool-cases (id == j)) [
  | inl same ↦ ground (arith, h)
  | inr other ↦ ground (arith, h, servers_available-insert_empty id servers m h)
]

servers_available_of :
    (id : String) (m : Map String (List ℕ))
    → ltb 0 (length (servers_of id m)) ≡ true
    → servers_available m ≡ true
unfolding servers_available servers_of find
servers_available_of id [] h = absurd (ground (arith, h))
servers_available_of id ((j, s) ∷ m) h = elim (Bool-cases (id == j)) [
  | inl same ↦ ground (arith, h)
  | inr other ↦ ground (arith, h, servers_available_of id m)
]

servers_available-touch :
    (id : String) (m : Map String (List ℕ)) → servers_available (touch id m) ≡ servers_available m
unfolding touch
servers_available-touch id m = elim (Bool-cases (ltb 0 (length (servers_of id m)))) [
  | inl some_there ↦
      servers_available-insert id (servers_of id m) m some_there
      ∙ sym (servers_available_of id m some_there)
  | inr none_there ↦ servers_available-insert_empty id (servers_of id m) m none_there none_there
]

pub nonempty-insert : (x : ℕ) (s : List ℕ) → ltb 0 (length (Set.insert x s)) ≡ true
unfolding Set.insert
nonempty-insert x [] = ground arith
nonempty-insert x (y ∷ s) = ground arith

module _ {SampleIdentity : Type 0} where
  -- A property of the state in which a call ends.
  abbrev pub Ends : (RpcBridge SampleIdentity → Type 0) → Ran SampleIdentity → Type 0
  Ends P (returned b) = P b
  Ends P (thrown b) = P b
  Ends P null_pointer = Unit {0}

  pub Ends-then :
      (P : RpcBridge SampleIdentity → Type 0) (m : Ran SampleIdentity)
      (f : RpcBridge SampleIdentity → Ran SampleIdentity)
      → Ends P m
      → ((b : RpcBridge SampleIdentity) → P b → Ends P (f b))
      → Ends P (m >> f)
  Ends-then P (returned b) f h g = g b h
  Ends-then P (thrown b) f h g = h
  Ends-then P null_pointer f h g = tt

  pub Ends-if :
      (P : RpcBridge SampleIdentity → Type 0) (c : Bool) (m n : Ran SampleIdentity)
      → (c ≡ true → Ends P m)
      → (c ≡ false → Ends P n)
      → Ends P (if c then m else n)
  Ends-if P true m n f g = f refl
  Ends-if P false m n f g = g refl

  -- The bridge is as it was, as far as whether it is enabled and has servers goes.
  abbrev pub Alike : Bool → Bool → RpcBridge SampleIdentity → Type 0
  Alike on served b = (b.enabled ≡ on) × (servers_available b.current_servers ≡ served)

  module _ (creates_writer creates_reader : Participant → DdsTopic → Bool) (on served : Bool) where
    create_proxy_client-Alike :
        (p : Participant) (id : String) (b : RpcBridge SampleIdentity)
        → Alike on served b
        → Ends (Alike on served) (create_proxy_client creates_writer creates_reader p id b)
    unfolding create_proxy_client create_endpoint create_slot
    create_proxy_client-Alike p id b a =
        elim (Bool-cases (creates_writer p b.rpc_topic.request_topic)) [
          | inr throws ↦ rw throws a
          | inl fine ↦ elim (Bool-cases (creates_reader p b.rpc_topic.reply_topic)) [
            | inr throws ↦ rw fine (rw throws a)
            | inl works ↦ rw fine (rw works a)
          ]
        ]

    create_proxy_server-Alike :
        (p : Participant) (id : String) (b : RpcBridge SampleIdentity)
        → Alike on served b
        → Ends (Alike on served) (create_proxy_server creates_writer creates_reader p id b)
    unfolding create_proxy_server create_endpoint create_slot
    create_proxy_server-Alike p id b a =
        elim (Bool-cases (creates_writer p b.rpc_topic.reply_topic)) [
          | inr throws ↦ rw throws a
          | inl fine ↦ elim (Bool-cases (creates_reader p b.rpc_topic.request_topic)) [
            | inr throws ↦ rw fine (rw throws a)
            | inl works ↦ rw fine (rw works a)
          ]
        ]

    enable_registry-Alike :
        (id : String) (b : RpcBridge SampleIdentity)
        → Alike on served b
        → Ends (Alike on served) (enable_registry creates_writer creates_reader id b)
    unfolding enable_registry
    enable_registry-Alike id b a =
        let same = servers_available-touch id b.current_servers ∙ a.1 in
        elim (Bool-cases (ltb 0 (length (servers_of id b.current_servers)))) [
          | inr none_there ↦ rw none_there (a.0, same)
          | inl some_there ↦ elim (Option-cases (find id b.service_registries)) [
            | inl missing ↦ rw some_there (rw missing tt)
            | inr (r, there) ↦ rw some_there (rw there (a.0, same))
          ]
        ]

    pub init_from-Alike :
        (ids : List String) (b : RpcBridge SampleIdentity)
        → Alike on served b
        → Ends (Alike on served) (init_from creates_writer creates_reader ids b)
    unfolding init_from
    init_from-Alike [] b a = a
    init_from-Alike (id ∷ ids) b a = elim (Option-cases (get_participant id b.participants)) [
      | inl missing ↦ rw (missing, init_from) tt
      | inr (p, there) ↦
          rw (there, init_from)
            (Ends-then (Alike on served) _ (init_from creates_writer creates_reader ids)
              (Ends-then (Alike on served) _ (enable_registry creates_writer creates_reader id)
                (Ends-then (Alike on served) _
                  (create_proxy_server creates_writer creates_reader p id)
                  (create_proxy_client-Alike p id b a) (create_proxy_server-Alike p id))
                (enable_registry-Alike id))
              (init_from-Alike ids))
    ]
