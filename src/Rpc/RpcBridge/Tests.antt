-- ===== src/Rpc/RpcBridge/Tests.antt =====
-- A service with a server in wan, and a client in lan.
use Prim.Native.String.{String}
use ddsproxy.Common.{
  ℕ, ◌≡◌, refl, Bool, true, false, not, ◌&&◌, ◌||◌, Option, none, some, List, [], ◌∷◌, arith,
  string_key, nat_key, nat_beq, ◌==◌,
}
use ddsproxy.Common.Map.{find, insert, has}
use ddsproxy.Common.Set
use ddsproxy.Common.Set.{member}
use ddsproxy.Types.TopicQos.{set_default_qos}
use ddsproxy.Types.Topic.{DdsTopic, internal_topic_type_rtps}
use ddsproxy.Types.Rpc.{RpcTopic}
use ddsproxy.Dynamic.ParticipantsDatabase.{
  Participant, ParticipantsDatabase, get_participant, get_rtps_participants_ids,
}
use ddsproxy.Rpc.ServiceRegistry.{ServiceRegistry}
use ddsproxy.Rpc.RpcBridge.{
  RpcBridge, Ran, returned, thrown, null_pointer, new_rpc_bridge, enable, discovered_service,
  removed_service,
}
use ddsproxy.Rpc.RpcBridge.Transmit.{
  Identities, RpcPayloadData, is_repeater, transmit_request, transmit_reply, skips,
}
use ddsproxy.Rpc.RpcBridge.Servers.{Ends}
use ddsproxy.Rpc.RpcBridge.Enabled.{
  Call, enables, discovers, removes, run, Serves, run-new_rpc_bridge-Serves,
}
use ddsproxy.Rpc.RpcBridge.Replies.{
  succeeds, member-transmit_request, transmit_reply-transmit_request,
}

abbrev topic : String → DdsTopic
unfolding set_default_qos
topic name = record {
  m_topic_name = name;
  m_internal_type_discriminator = internal_topic_type_rtps;
  m_topic_discoverer = "wan";
  topic_qos = set_default_qos;
  type_name = "Add";
}

abbrev service : RpcTopic
unfolding topic
service = record {
  service_name = "add";
  request_topic = topic "rq/addRequest";
  reply_topic = topic "rr/addReply";
}

abbrev participant : String → Participant
unfolding set_default_qos
participant id = record {
  id = id;
  is_rtps_kind = true;
  is_repeater = false;
  topic_qos = set_default_qos;
}

abbrev participants : ParticipantsDatabase
unfolding participant
participants = ("lan", participant "lan") ∷ ("wan", participant "wan") ∷ []

accepts : Participant → DdsTopic → Bool
accepts p t = true

abbrev calls : List Call
calls = enables ∷ discovers "wan" 5 ∷ enables ∷ removes "wan" 5 ∷ discovers "wan" 6 ∷ enables ∷ []

is_running : Ran (ℕ × ℕ) → Bool
is_running (returned b) = b.enabled
is_running (thrown b) = false
is_running null_pointer = false

-- Without a server it is not enabled.
calls_enabled : is_running (run accepts accepts calls (new_rpc_bridge service participants)) ≡ true
unfolding is_running run accepts enable new_rpc_bridge discovered_service insert Set.insert find
    get_rtps_participants_ids participants get_participant removed_service Set.erase
calls_enabled = refl

run-new_rpc_bridge-Serves_example :
    Ends Serves
      (run accepts accepts calls (new_rpc_bridge {SampleIdentity = ℕ × ℕ} service participants))
run-new_rpc_bridge-Serves_example =
    run-new_rpc_bridge-Serves (ℕ × ℕ) accepts accepts service participants calls

-- A writer and a sequence number.
abbrev identities : Identities (ℕ × ℕ)
identities = record {
  unknown = (0, 0);
  is_unknown = λ i. nat_beq i.0 0 && nat_beq i.1 0;
  writer_guid = λ i. i.0;
  sequence_number = λ i. i.1;
  set_sequence_number = λ n i. (i.0, n);
}

abbrev wan_registry : ServiceRegistry (ℕ × ℕ)
wan_registry = record { participant_id = "wan"; enabled = true; registry = [] }

abbrev bridge : RpcBridge (ℕ × ℕ)
unfolding new_rpc_bridge
bridge = record (new_rpc_bridge service participants) {
  service_registries =
      ("lan", record { participant_id = "lan"; enabled = true; registry = [] })
      ∷ ("wan", wan_registry)
      ∷ [];
}

abbrev request : RpcPayloadData (ℕ × ℕ)
request = record {
  participant_receiver = "lan";
  sample_identity = (40, 0);
  origin_sequence_number = 3;
}

abbrev reply : RpcPayloadData (ℕ × ℕ)
reply = record {
  participant_receiver = "wan";
  sample_identity = (2, 17);
  origin_sequence_number = 9;
}

write : String → Option ℕ
write id = some 17

writes : String → Bool
writes id = true

member-transmit_request_example :
    member "wan" (transmit_request identities write request bridge).1
    ≡ (elim (find "wan" bridge.service_registries) [
      | none ↦ false
      | some r ↦
          (r.enabled
            && (not (request.participant_receiver == "wan")
                || is_repeater identities bridge.participants "wan"))
          && succeeds identities write "wan"
    ])
unfolding bridge has
member-transmit_request_example =
    member-transmit_request identities write request bridge "wan" (refl, (refl, tt)) refl

transmit_reply-transmit_request_example :
    let sent = transmit_request identities write request bridge in
    let replied = transmit_reply identities writes "wan" 2 reply sent.0 in
    (replied.1 ≡ some ("lan", (40, 3)))
    × (transmit_reply identities writes "wan" 2 reply replied.0 ≡ (replied.0, none))
unfolding bridge find skips write writes
transmit_reply-transmit_request_example =
    transmit_reply-transmit_request identities write writes request reply bridge "wan" wan_registry
      refl refl refl refl refl (omega arith) (λ e. cc e) refl
