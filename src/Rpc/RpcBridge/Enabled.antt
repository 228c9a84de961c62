-- ===== src/Rpc/RpcBridge/Enabled.antt =====
-- When an RpcBridge of RpcBridge.cpp is enabled.
use Prim.Native.String.{String}
use ddsproxy.Common.{
  ℕ, ◌≡◌, refl, Bool, true, false, not, ◌&&◌, List, [], ◌∷◌, length, arith, string_key, nat_key,
  nat_beq, Option-cases, Bool-cases, inl, inr,
}
use ddsproxy.Common.Map.{find, insert}
use ddsproxy.Common.Set
use ddsproxy.Types.Topic.{DdsTopic}
use ddsproxy.Types.Rpc.{RpcTopic}
use ddsproxy.Dynamic.ParticipantsDatabase.{
  Participant, ParticipantsDatabase, get_rtps_participants_ids,
}
use ddsproxy.Rpc.RpcBridge.{
  RpcBridge, Ran, returned, thrown, null_pointer, ◌>>◌, servers_available, servers_of,
  new_rpc_bridge, init_from, init, switch_on, enable, disable, discovered_service, removed_service,
}
use ddsproxy.Rpc.RpcBridge.Servers.{
  servers_available-insert, nonempty-insert, Ends, Ends-then, Ends-if, Alike, init_from-Alike,
}

pub data Call : Type 0 where
  enables disables : Call
  discovers removes : String → ℕ → Call

module _ {SampleIdentity : Type 0} where
  -- It is enabled only once its endpoints are created, and only while there is a server.
  pub record Serves (b : RpcBridge SampleIdentity) : Type 0 where
    pub served : b.enabled ≡ true → servers_available b.current_servers ≡ true
    pub ready : b.enabled ≡ true → b.initialised ≡ true

  module _ (creates_writer creates_reader : Participant → DdsTopic → Bool) where
    unfoldable pub call : Call → RpcBridge SampleIdentity → Ran SampleIdentity
    call enables b = enable creates_writer creates_reader b
    call disables b = returned (disable b)
    call (discovers id prefix) b = discovered_service id prefix b
    call (removes id prefix) b = returned (removed_service id prefix b)

    unfoldable pub run : List Call → RpcBridge SampleIdentity → Ran SampleIdentity
    unfolding call
    run [] b = returned b
    run (c ∷ cs) b = call c b >> run cs

    switch_on-Serves :
        (b : RpcBridge SampleIdentity)
        → servers_available b.current_servers ≡ true
        → b.initialised ≡ true
        → Serves (switch_on b)
    unfolding switch_on
    switch_on-Serves b h i = record { served = λ e. h; ready = λ e. i }

    disable-Serves : (b : RpcBridge SampleIdentity) → Serves b → Serves (disable b)
    unfolding disable
    disable-Serves b s = elim (Bool-cases b.enabled) [
      | inl on ↦ record { served = λ e. ground arith; ready = λ e. ground arith }
      | inr off ↦ record { served = λ e. ground arith; ready = λ e. ground arith }
    ]

    finish :
        (m : Ran SampleIdentity)
        → Ends (Alike false true) m
        → Ends Serves (elim (m >> (λ c. returned (record c { initialised = true }))) [
          | returned c ↦ returned (switch_on c)
          | thrown c ↦ returned c
          | null_pointer ↦ null_pointer
        ])
    finish (returned c) a = switch_on-Serves (record c { initialised = true }) a.1 refl
    finish (thrown c) a = record {
      served = λ e. absurd (cc (a.0, e));
      ready = λ e. absurd (cc (a.0, e));
    }
    finish null_pointer a = tt

    enable-Serves :
        (b : RpcBridge SampleIdentity)
        → Serves b
        → Ends Serves (enable creates_writer creates_reader b)
    unfolding enable init
    enable-Serves b s =
        Ends-if Serves (not b.enabled && servers_available b.current_servers) _ _
          (λ goes.
            let off : b.enabled ≡ false = ground arith in
            let there : servers_available b.current_servers ≡ true = ground arith in
            Ends-if Serves b.initialised _ _ (switch_on-Serves b there) (λ first.
              finish
                (init_from creates_writer creates_reader (get_rtps_participants_ids b.participants)
                  b)
                (init_from-Alike creates_writer creates_reader false true
                  (get_rtps_participants_ids b.participants) b (off, there))))
          (λ stays. s)

    discovered_service-Serves :
        (id : String) (prefix : ℕ) (b : RpcBridge SampleIdentity)
        → Serves b
        → Ends Serves (discovered_service id prefix b)
    unfolding discovered_service
    discovered_service-Serves id prefix b s =
        let servers = Set.insert prefix (servers_of id b.current_servers) in
        let grown : servers_available (insert id servers b.current_servers) ≡ true =
          servers_available-insert id servers b.current_servers
            (nonempty-insert prefix (servers_of id b.current_servers)) in
        elim (Bool-cases b.initialised) [
          | inr early ↦
              rw (early, discovered_service)
                (record { served = λ e. grown; ready = λ e. ground (arith, s.ready) })
          | inl late ↦ elim (Option-cases (find id b.service_registries)) [
            | inl missing ↦ rw (late, missing, discovered_service) tt
            | inr (r, there) ↦
                rw (late, there, discovered_service)
                  (record { served = λ e. grown; ready = λ e. ground (arith, late) })
          ]
        ]

    removed_service-Serves :
        (id : String) (prefix : ℕ) (b : RpcBridge SampleIdentity)
        → Serves b
        → Serves (removed_service id prefix b)
    unfolding removed_service disable
    removed_service-Serves id prefix b s =
        let left = Set.erase prefix (servers_of id b.current_servers) in
        let some_left : nat_beq (length left) 0 ≡ false
            → servers_available (insert id left b.current_servers) ≡ true =
          λ h. servers_available-insert id left b.current_servers (ground (arith, h)) in
        record {
          served = λ e. ground (arith, s.served, some_left);
          ready = λ e. ground (arith, s.ready);
        }

    call-Serves : (c : Call) (b : RpcBridge SampleIdentity) → Serves b → Ends Serves (call c b)
    unfolding call
    call-Serves enables b s = enable-Serves b s
    call-Serves disables b s = disable-Serves b s
    call-Serves (discovers id prefix) b s = discovered_service-Serves id prefix b s
    call-Serves (removes id prefix) b s = removed_service-Serves id prefix b s

    run-Serves : (cs : List Call) (b : RpcBridge SampleIdentity) → Serves b → Ends Serves (run cs b)
    unfolding run
    run-Serves [] b s = s
    run-Serves (c ∷ cs) b s =
        Ends-then Serves (call c b) (run cs) (call-Serves c b s) (run-Serves cs)

-- Through any calls from its construction on, a bridge of a service is enabled only while some
-- participant has a server of the service, and only once its endpoints are created.
pub run-new_rpc_bridge-Serves :
    (SampleIdentity : Type 0) (creates_writer creates_reader : Participant → DdsTopic → Bool)
    (topic : RpcTopic) (participants : ParticipantsDatabase) (cs : List Call)
    → Ends Serves (
        run creates_writer creates_reader cs
          (new_rpc_bridge {SampleIdentity = SampleIdentity} topic participants))
unfolding new_rpc_bridge
run-new_rpc_bridge-Serves SampleIdentity creates_writer creates_reader topic participants cs =
    run-Serves creates_writer creates_reader cs (new_rpc_bridge topic participants)
      (record { served = λ e. absurd (cc e); ready = λ e. absurd (cc e) })
