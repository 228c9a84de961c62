-- ===== src/Rpc/RpcBridge/Replies.antt =====
-- Requests and their replies through RpcBridge.cpp: to whom a request goes, and that its reply goes
-- back to whom it came from, once.
use Prim.Native.String.{String}
use ddsproxy.Common.{
  ℕ, ◌+◌, ◌<◌, ◌≡◌, ◌≢◌, refl, sym, ap, Bool, true, false, not, ◌&&◌, ◌||◌, Option, none, some, [],
  ◌∷◌, length, arith, if◌then◌else◌, string_key, nat_key, nat_beq_iff, ◌==◌, nat_beq, Option-cases,
  inl, inr, beq_ne,
}
use mathlib.Core.Path.{subst}
use ddsproxy.Common.Map.{find, insert, OnceEach, has-find, find-insert_self}
use ddsproxy.Common.Set.{member}
use ddsproxy.Dynamic.ParticipantsDatabase.{ParticipantsDatabase}
use ddsproxy.Rpc.ServiceRegistry.{ServiceRegistry, default_max_entries, add, erase_entry, get}
use ddsproxy.Rpc.ServiceRegistry.Capacity.{get-add-erase_entry}
use ddsproxy.Rpc.RpcBridge.{RpcBridge}
use ddsproxy.Rpc.RpcBridge.Transmit.{
  Identities, RpcPayloadData, Registries, is_repeater, skips, send_request, transmit_request,
  transmit_reply,
}

module _ {SampleIdentity : Type 0} (ids : Identities SampleIdentity) where
  -- The write through the proxy client of a participant returns fine.
  abbrev pub succeeds : (String → Option ℕ) → String → Bool
  succeeds write id = elim (write id) [ none ↦ false | some n ↦ true ]

  -- A registry after the loop.
  abbrev after :
      ParticipantsDatabase
      → (String → Option ℕ)
      → String × SampleIdentity
      → String
      → ServiceRegistry SampleIdentity
      → ServiceRegistry SampleIdentity
  after participants write entry id r =
      if skips ids participants entry.0 id r
      then r
      else elim (write id) [ none ↦ r | some n ↦ add n entry r ]

  find-send_request :
      (participants : ParticipantsDatabase) (write : String → Option ℕ)
      (entry : String × SampleIdentity) (rs : Registries ids) (i : String)
      → find i (send_request ids participants write entry rs).0
        ≡ (elim (find i rs) [ none ↦ none | some r ↦ some (after participants write entry i r) ])
  unfolding send_request find
  find-send_request participants write entry [] i = refl
  find-send_request participants write entry ((id, r) ∷ rs) i =
      ground (arith, find-send_request participants write entry rs i, string_key.beq_iff i id)

  member-send_request :
      (participants : ParticipantsDatabase) (write : String → Option ℕ)
      (entry : String × SampleIdentity) (rs : Registries ids) (i : String)
      → OnceEach rs
      → member i (send_request ids participants write entry rs).1 ≡ (elim (find i rs) [
        | none ↦ false
        | some r ↦ not (skips ids participants entry.0 i r) && succeeds write i
      ])
  unfolding send_request find member
  member-send_request participants write entry [] i d = refl
  member-send_request participants write entry ((id, r) ∷ rs) i d = ground (
    arith,
    member-send_request participants write entry rs i,
    string_key.beq_iff i id,
    has-find id rs,
  )

  -- A request that is well formed is sent through exactly those proxy clients whose write succeeds
  -- and whose registry is enabled, but not back through the participant that received it, unless
  -- that is a repeater. No participant has two registries.
  pub member-transmit_request :
      (write : String → Option ℕ) (request : RpcPayloadData SampleIdentity)
      (b : RpcBridge SampleIdentity) (i : String)
      → OnceEach b.service_registries
      → ids.is_unknown
          (ids.set_sequence_number request.origin_sequence_number request.sample_identity)
        ≡ false
      → member i (transmit_request ids write request b).1 ≡ (elim (find i b.service_registries) [
        | none ↦ false
        | some r ↦
            (r.enabled
              && (not (request.participant_receiver == i) || is_repeater ids b.participants i))
            && succeeds write i
      ])
  unfolding transmit_request skips
  member-transmit_request write request b i once formed =
      let identity =
        ids.set_sequence_number request.origin_sequence_number request.sample_identity in
      let sent =
        member-send_request b.participants write (request.participant_receiver, identity)
          b.service_registries i once in
      elim (Option-cases (find i b.service_registries)) [
        | inl missing ↦ ground (arith, formed, sent, missing)
        | inr (r, there) ↦ ground (arith, formed, sent, there)
      ]

  transmit_reply_found :
      (write : String → Bool) (reader_id : String) (reply : RpcPayloadData SampleIdentity)
      (b : RpcBridge SampleIdentity) (r : ServiceRegistry SampleIdentity) (to : String)
      (identity : SampleIdentity)
      → find reader_id b.service_registries ≡ some r
      → get ids.unknown (ids.sequence_number reply.sample_identity) r ≡ (to, identity)
      → to ≢ ""
      → write to ≡ true
      → transmit_reply ids write reader_id (ids.writer_guid reply.sample_identity) reply b ≡ (
        record b {
          service_registries =
              insert reader_id
                (erase_entry (ids.sequence_number reply.sample_identity) r)
                b.service_registries;
        },
        some (to, identity),
      )
  unfolding transmit_reply
  transmit_reply_found write reader_id reply b r to identity there got named fine =
      let own : nat_beq (ids.writer_guid reply.sample_identity)
            (ids.writer_guid reply.sample_identity)
          ≡ true =
        ground (
          arith,
          nat_beq_iff (ids.writer_guid reply.sample_identity)
              (ids.writer_guid reply.sample_identity),
        ) in
      rw (own, there, got, beq_ne to "" named, fine, transmit_reply) refl

  transmit_reply_gone :
      (write : String → Bool) (reader_id : String) (reply : RpcPayloadData SampleIdentity)
      (b : RpcBridge SampleIdentity) (r : ServiceRegistry SampleIdentity)
      → find reader_id b.service_registries ≡ some r
      → get ids.unknown (ids.sequence_number reply.sample_identity) r ≡ ("", ids.unknown)
      → transmit_reply ids write reader_id (ids.writer_guid reply.sample_identity) reply b
        ≡ (b, none)
  unfolding transmit_reply
  transmit_reply_gone write reader_id reply b r there got =
      let own : nat_beq (ids.writer_guid reply.sample_identity)
            (ids.writer_guid reply.sample_identity)
          ≡ true =
        ground (
          arith,
          nat_beq_iff (ids.writer_guid reply.sample_identity)
              (ids.writer_guid reply.sample_identity),
        ) in
      rw (own, there, got, transmit_reply) refl

  -- A request that is sent through a proxy client with room in its registry, under a sequence number
  -- that is new there: its reply goes to the participant that received the request, with the
  -- identity of the request, and a second reply to it goes nowhere.
  pub transmit_reply-transmit_request :
      (write : String → Option ℕ) (write_reply : String → Bool)
      (request reply : RpcPayloadData SampleIdentity) (b : RpcBridge SampleIdentity)
      (client : String) (r : ServiceRegistry SampleIdentity)
      → find client b.service_registries ≡ some r
      → skips ids b.participants request.participant_receiver client r ≡ false
      → ids.is_unknown
          (ids.set_sequence_number request.origin_sequence_number request.sample_identity)
        ≡ false
      → write client ≡ some (ids.sequence_number reply.sample_identity)
      → find (ids.sequence_number reply.sample_identity) r.registry ≡ none
      → length r.registry + 1 < default_max_entries
      → request.participant_receiver ≢ ""
      → write_reply request.participant_receiver ≡ true
      → let guid = ids.writer_guid reply.sample_identity in
        let sent = transmit_request ids write request b in
        let replied = transmit_reply ids write_reply client guid reply sent.0 in
        (replied.1
          ≡ some (
            request.participant_receiver,
            ids.set_sequence_number request.origin_sequence_number request.sample_identity,
          ))
        × (transmit_reply ids write_reply client guid reply replied.0 ≡ (replied.0, none))
  unfolding transmit_request
  transmit_reply-transmit_request write write_reply request reply b client r there passes formed
        written new room named fine =
      let idx = ids.sequence_number reply.sample_identity in
      let guid = ids.writer_guid reply.sample_identity in
      let identity =
        ids.set_sequence_number request.origin_sequence_number request.sample_identity in
      let entry : String × SampleIdentity = (request.participant_receiver, identity) in
      let sent = transmit_request ids write request b in
      let (stored, erased, _, _) = get-add-erase_entry ids.unknown idx entry r new room in
      let kept : find client sent.0.service_registries ≡ some (add idx entry r) = ground (
        arith,
        formed,
        find-send_request b.participants write entry b.service_registries client,
        there,
        passes,
        written,
      ) in
      let is =
        transmit_reply_found write_reply client reply sent.0 (add idx entry r)
          request.participant_receiver identity kept stored named fine in
      let last = record sent.0 {
        service_registries =
            insert client (erase_entry idx (add idx entry r)) sent.0.service_registries;
      } in
      let gone : transmit_reply ids write_reply client guid reply last ≡ (last, none) =
        transmit_reply_gone write_reply client reply last (erase_entry idx (add idx entry r))
          (find-insert_self client (erase_entry idx (add idx entry r)) sent.0.service_registries)
          erased in
      (
        ap (λ x. x.1) is,
        subst (λ c. transmit_reply ids write_reply client guid reply c ≡ (c, none))
            (sym (ap (λ x. x.0) is)) gone,
      )
