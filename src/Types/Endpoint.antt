-- ===== src/Types/Endpoint.antt =====
-- Endpoint of ddspipe/ddspipe_core/src/cpp/types/dds/Endpoint.cpp. A GUID of 16 octets is a number,
-- its prefix the 12 leading ones. The specific QoS is left out: nothing here reads it.
use Prim.Native.String.{String}
use ddsproxy.Common.{ℕ, ◌/◌, ◌^◌, Bool, true, false, ◌&&◌, ◌||◌}
use ddsproxy.Types.Topic.{DdsTopic}
use ddsproxy.Types.Rpc.{is_request_topic, is_reply_topic}

pub data EndpointKind : Type 0 where
  invalid writer reader : EndpointKind

pub record Endpoint : Type 0 where
  pub kind : EndpointKind
  pub guid : ℕ
  pub topic : DdsTopic
  pub active : Bool
  pub discoverer_participant_id : String

unfoldable pub guid_prefix : ℕ → ℕ
guid_prefix guid = guid / 2 ^ 32

unfoldable pub is_writer : Endpoint → Bool
is_writer e = elim e.kind [ writer ↦ true | _ ↦ false ]

unfoldable pub is_reader : Endpoint → Bool
is_reader e = elim e.kind [ reader ↦ true | _ ↦ false ]

unfoldable pub is_server_endpoint : Endpoint → Bool
unfolding is_writer is_reader
is_server_endpoint e =
    (is_reader e && is_request_topic e.topic) || (is_writer e && is_reply_topic e.topic)
