-- ===== src/Rpc/RpcBridge.antt =====
-- RpcBridge of ddspipe/ddspipe_core/src/cpp/communication/rpc/RpcBridge.cpp: for each participant a
-- proxy client and a proxy server of one service. Each call that holds the mutex is one step. The
-- GUID of a reader is the number of its handle.
pub mod Transmit
pub mod Servers
pub mod Enabled
pub mod Replies
pub mod Tasks
mod Tests
use Prim.Native.String.{String}
use ddsproxy.Common.{
  ℕ, Bool, true, false, not, ◌&&◌, ◌||◌, Option, none, some, List, [], ◌∷◌, length, if◌then◌else◌,
  string_key, nat_key, nat_beq, ltb,
}
use ddsproxy.Common.Map.{Map, find, insert, has}
use ddsproxy.Common.Set
use ddsproxy.Types.Topic.{DdsTopic}
use ddsproxy.Types.Rpc.{RpcTopic}
use ddsproxy.Dynamic.ParticipantsDatabase.{
  Participant, ParticipantsDatabase, get_participant, get_rtps_participants_ids,
}
use ddsproxy.Communication.Handles.{Handles, no_handles, create, set_all}
use ddsproxy.Rpc.ServiceRegistry.{ServiceRegistry}
use ddsproxy.Rpc.ServiceRegistry

pub record RpcBridge (SampleIdentity : Type 0) : Type 0 where
  pub rpc_topic : RpcTopic
  pub participants : ParticipantsDatabase
  pub enabled : Bool
  pub initialised : Bool
  pub request_readers : Map String ℕ
  pub reply_writers : Map String ℕ
  pub reply_readers : Map String ℕ
  pub request_writers : Map String ℕ
  -- Whether the task of a reader is queued.
  pub tasks_map : Map ℕ Bool
  pub service_registries : Map String (ServiceRegistry SampleIdentity)
  pub current_servers : Map String (List ℕ)
  pub handles : Handles

-- `servers_available_`
unfoldable pub servers_available : Map String (List ℕ) → Bool
servers_available [] = false
servers_available ((id, servers) ∷ rest) = ltb 0 (length servers) || servers_available rest

-- `current_servers_[id]`, which inserts an empty set where there is none.
unfoldable pub servers_of : String → Map String (List ℕ) → List ℕ
servers_of id m = elim (find id m) [ none ↦ [] | some servers ↦ servers ]

unfoldable pub touch : String → Map String (List ℕ) → Map String (List ℕ)
unfolding servers_of
touch id m = insert id (servers_of id m) m

-- The state in which a call returns or throws an InitializationException, or a call through a null
-- pointer.
pub data Ran (SampleIdentity : Type 0) : Type 0 where
  returned thrown : RpcBridge SampleIdentity → Ran SampleIdentity
  null_pointer : Ran SampleIdentity

infixl 5 ◌>>◌
abbrev pub ◌>>◌ :
    {SampleIdentity : Type 0}
    → Ran SampleIdentity
    → (RpcBridge SampleIdentity → Ran SampleIdentity)
    → Ran SampleIdentity
returned b >> f = f b
thrown b >> f = thrown b
null_pointer >> f = null_pointer

module _ {SampleIdentity : Type 0} where
  unfoldable pub new_rpc_bridge : RpcTopic → ParticipantsDatabase → RpcBridge SampleIdentity
  new_rpc_bridge topic participants = record {
    rpc_topic = topic;
    participants = participants;
    enabled = false;
    initialised = false;
    request_readers = [];
    reply_writers = [];
    reply_readers = [];
    request_writers = [];
    tasks_map = [];
    service_registries = [];
    current_servers = [];
    handles = no_handles;
  }

  unfoldable pub create_slot : ℕ → RpcBridge SampleIdentity → RpcBridge SampleIdentity
  create_slot reader b = record b { tasks_map = insert reader false b.tasks_map }

  -- One endpoint of a participant, which `store` puts in its place, unless `creates` says that the
  -- participant throws.
  unfoldable pub create_endpoint :
      (Participant → DdsTopic → Bool)
      → DdsTopic
      → Participant
      → (ℕ → RpcBridge SampleIdentity → RpcBridge SampleIdentity)
      → RpcBridge SampleIdentity
      → Ran SampleIdentity
  unfolding create
  create_endpoint creates topic p store b =
      let (k, h) = create b.handles in
      if creates p topic then returned (store k (record b { handles = h })) else thrown b

  unfoldable pub switch_on : RpcBridge SampleIdentity → RpcBridge SampleIdentity
  unfolding set_all
  switch_on b =
      let written = set_all true b.reply_writers (set_all true b.request_writers b.handles) in
      record b {
        enabled = true;
        handles = set_all true b.request_readers (set_all true b.reply_readers written);
      }

  unfoldable pub disable : RpcBridge SampleIdentity → RpcBridge SampleIdentity
  unfolding set_all
  disable b =
      let read = set_all false b.reply_readers (set_all false b.request_readers b.handles) in
      if b.enabled
      then record b {
        enabled = false;
        handles = set_all false b.request_writers (set_all false b.reply_writers read);
      }
      else b

  unfoldable pub discovered_service : String → ℕ → RpcBridge SampleIdentity → Ran SampleIdentity
  unfolding servers_of ServiceRegistry.enable
  discovered_service id prefix b =
      let b' = record b {
        current_servers =
            insert id (Set.insert prefix (servers_of id b.current_servers)) b.current_servers;
      } in
      if b.initialised
      then elim (find id b.service_registries) [
        | none ↦ null_pointer
        | some r ↦ returned (record b' {
          service_registries = insert id (ServiceRegistry.enable r) b.service_registries;
        })
      ]
      else returned b'

  unfoldable pub removed_service : String → ℕ → RpcBridge SampleIdentity → RpcBridge SampleIdentity
  unfolding servers_of servers_available disable
  removed_service id prefix b =
      let left = Set.erase prefix (servers_of id b.current_servers) in
      let b' = record b { current_servers = insert id left b.current_servers } in
      if nat_beq (length left) 0 && not (servers_available b'.current_servers)
      then disable b'
      else b'

  -- `creates_writer` and `creates_reader` tell whether a participant creates its endpoint.
  module _ (creates_writer creates_reader : Participant → DdsTopic → Bool) where
    unfoldable pub create_proxy_client :
        Participant → String → RpcBridge SampleIdentity → Ran SampleIdentity
    unfolding create_endpoint create_slot ServiceRegistry.init
    create_proxy_client p id b =
        create_endpoint creates_writer b.rpc_topic.request_topic p
          (λ k c. record c { request_writers = insert id k c.request_writers }) b
        >> create_endpoint creates_reader b.rpc_topic.reply_topic p
            (λ k c. create_slot k (record c { reply_readers = insert id k c.reply_readers }))
        >> (λ c. returned (record c {
          service_registries = insert id (ServiceRegistry.init id) c.service_registries;
        }))

    unfoldable pub create_proxy_server :
        Participant → String → RpcBridge SampleIdentity → Ran SampleIdentity
    unfolding create_endpoint create_slot
    create_proxy_server p id b =
        create_endpoint creates_writer b.rpc_topic.reply_topic p
          (λ k c. record c { reply_writers = insert id k c.reply_writers }) b
        >> create_endpoint creates_reader b.rpc_topic.request_topic p
            (λ k c. create_slot k (record c { request_readers = insert id k c.request_readers }))

    -- `if (current_servers_[id].size()) service_registries_[id]->enable();`
    unfoldable pub enable_registry : String → RpcBridge SampleIdentity → Ran SampleIdentity
    unfolding touch servers_of ServiceRegistry.enable
    enable_registry id b =
        let b' = record b { current_servers = touch id b.current_servers } in
        if ltb 0 (length (servers_of id b.current_servers))
        then elim (find id b.service_registries) [
          | none ↦ null_pointer
          | some r ↦ returned (record b' {
            service_registries = insert id (ServiceRegistry.enable r) b.service_registries;
          })
        ]
        else returned b'

    -- The loop of `init_nts_` over the participants of RTPS kind.
    unfoldable pub init_from : List String → RpcBridge SampleIdentity → Ran SampleIdentity
    unfolding create_proxy_client create_proxy_server enable_registry
    init_from [] b = returned b
    init_from (id ∷ ids) b = elim (get_participant id b.participants) [
      | none ↦ null_pointer
      | some p ↦
          create_proxy_client p id b
          >> create_proxy_server p id
          >> enable_registry id
          >> init_from ids
    ]

    unfoldable pub init : RpcBridge SampleIdentity → Ran SampleIdentity
    unfolding init_from
    init b =
        init_from (get_rtps_participants_ids b.participants) b
        >> (λ c. returned (record c { initialised = true }))

    -- An exception of `init_nts_` is caught and leaves the bridge disabled.
    unfoldable pub enable : RpcBridge SampleIdentity → Ran SampleIdentity
    unfolding init switch_on servers_available
    enable b =
        if not b.enabled && servers_available b.current_servers
        then (if b.initialised then returned (switch_on b) else elim (init b) [
          | returned c ↦ returned (switch_on c)
          | thrown c ↦ returned c
          | null_pointer ↦ null_pointer
        ])
        else returned b
