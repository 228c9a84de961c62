-- ===== src/Rpc/RpcBridge/Transmit.antt =====
-- What one round of `transmit_` of RpcBridge.cpp does with the request or the reply that it took. The
-- identity of a sample is a type of Fast DDS, here with the parts of it that the code uses. What a
-- `write` returns is given: for a request the sequence number that it was sent with, unless it fails.
use Prim.Native.String.{String}
use ddsproxy.Common.{
  ℕ, Bool, false, not, ◌&&◌, ◌||◌, Option, none, some, List, [], ◌∷◌, if◌then◌else◌, string_key,
  nat_key, ◌==◌, nat_beq,
}
use ddsproxy.Common.Map.{Map, find, insert}
use ddsproxy.Dynamic.ParticipantsDatabase.{ParticipantsDatabase, get_participant}
use ddsproxy.Rpc.ServiceRegistry.{ServiceRegistry, add, erase_entry, get}
use ddsproxy.Rpc.RpcBridge.{RpcBridge}

-- SampleIdentity of Fast DDS
pub record Identities (SampleIdentity : Type 0) : Type 0 where
  pub unknown : SampleIdentity
  pub is_unknown : SampleIdentity → Bool
  pub writer_guid : SampleIdentity → ℕ
  pub sequence_number : SampleIdentity → ℕ
  pub set_sequence_number : ℕ → SampleIdentity → SampleIdentity

pub record RpcPayloadData (SampleIdentity : Type 0) : Type 0 where
  pub participant_receiver : String
  pub sample_identity : SampleIdentity
  pub origin_sequence_number : ℕ

module _ {SampleIdentity : Type 0} (ids : Identities SampleIdentity) where
  abbrev pub Registries : Type 0
  Registries = Map String (ServiceRegistry SampleIdentity)

  -- The participants of the registries are in the database, since `init` found them there.
  unfoldable pub is_repeater : ParticipantsDatabase → String → Bool
  is_repeater participants id = elim (get_participant id participants) [
    | none ↦ false
    | some p ↦ p.is_repeater
  ]

  -- The participant that received the request does not get it back, unless it is a repeater, and
  -- one without servers does not get it either.
  unfoldable pub skips :
      ParticipantsDatabase → String → String → ServiceRegistry SampleIdentity → Bool
  unfolding is_repeater
  skips participants receiver id r =
      (receiver == id && not (is_repeater participants id)) || not r.enabled

  -- The loop over the registries, and the participants that the request was sent through.
  unfoldable pub send_request :
      ParticipantsDatabase
      → (String → Option ℕ)
      → String × SampleIdentity
      → Registries
      → Registries × List String
  unfolding skips
  send_request participants write entry [] = ([], [])
  send_request participants write entry ((id, r) ∷ rest) =
      let (rs, sent) = send_request participants write entry rest in
      if skips participants entry.0 id r then ((id, r) ∷ rs, sent) else elim (write id) [
        | none ↦ ((id, r) ∷ rs, sent)
        | some sequence_number ↦ ((id, add sequence_number entry r) ∷ rs, id ∷ sent)
      ]

  unfoldable pub transmit_request :
      (String → Option ℕ)
      → RpcPayloadData SampleIdentity
      → RpcBridge SampleIdentity
      → RpcBridge SampleIdentity × List String
  unfolding send_request
  transmit_request write sample b =
      let identity = ids.set_sequence_number sample.origin_sequence_number sample.sample_identity in
      let (rs, sent) =
        send_request b.participants write (sample.participant_receiver, identity)
          b.service_registries in
      if ids.is_unknown identity then (b, []) else (record b { service_registries = rs }, sent)

  -- A reply from the reader of a participant: the proxy server that it was written through, with the
  -- identity of the request. The registry of that participant was created with its reader.
  unfoldable pub transmit_reply :
      (String → Bool)
      → String
      → ℕ
      → RpcPayloadData SampleIdentity
      → RpcBridge SampleIdentity
      → RpcBridge SampleIdentity × Option (String × SampleIdentity)
  unfolding get erase_entry
  transmit_reply write reader_id reader_guid sample b =
      let idx = ids.sequence_number sample.sample_identity in
      if not (nat_beq (ids.writer_guid sample.sample_identity) reader_guid)
      then (b, none)
      else elim (find reader_id b.service_registries) [
        | none ↦ (b, none)
        | some r ↦
            let (to, identity) = get ids.unknown idx r in
            if to == ""
            then (b, none)
            else if write to
            then (
              record b {
                service_registries = insert reader_id (erase_entry idx r) b.service_registries;
              },
              some (to, identity),
            )
            else (b, none)
      ]
