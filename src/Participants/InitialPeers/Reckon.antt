-- ===== src/Participants/InitialPeers/Reckon.antt =====
-- The transports and locators of an initial peers participant, address by address.
use Prim.Native.String.{String}
use ddsproxy.Common.{
  ℕ, Bool, true, false, not, ◌&&◌, Option, none, some, List, [], ◌∷◌, ◌++◌, keep, if◌then◌else◌,
  string_key, Result, ok, throw, ◌>>=◌,
}
use ddsproxy.Participants.Address
use ddsproxy.Participants.Address.{
  Address, IpLocator, LocatorKind, udp_v4, udp_v6, tcp_v4, tcp_v6, is_tcp, is_ipv4,
  get_locator_kind,
}
use ddsproxy.Participants.TlsConfiguration.{is_active, enable_tls}
use ddsproxy.Participants.InitialPeers.{
  Descriptor, Attributes, Needs, no_attributes, no_needs, find_wan_address, listening_locator,
  connection_locator, empty_locator,
}
use ddsproxy.Participants.Configuration.{InitialPeersParticipantConfiguration}

module _ (locator : IpLocator) where
  -- `create_descriptor`, which keeps the addresses of the version of the transport.
  unfoldable pub create_descriptor : LocatorKind → List String → Descriptor
  create_descriptor kind whitelist = record {
    kind = kind;
    interface_whitelist = elim kind [
      | udp_v4 ↦ keep locator.is_ipv4_correct whitelist
      | tcp_v4 ↦ keep locator.is_ipv4_correct whitelist
      | udp_v6 ↦ keep locator.is_ipv6_correct whitelist
      | tcp_v6 ↦ keep locator.is_ipv6_correct whitelist
    ];
    listener_ports = [];
    wan_address = "";
    tls_config = none;
  }

  module _ (c : InitialPeersParticipantConfiguration) where
    -- TLS, if it is active, in a new descriptor.
    unfoldable pub secure : Bool → Descriptor → Result Descriptor
    secure as_client d =
        if is_active c.tls_configuration
        then elim (enable_tls c.tls_configuration as_client) [
          | ok settings ↦ ok (record d { tls_config = some settings })
          | throw e ↦ throw e
        ]
        else ok d

    -- A listening TCP address: its port in a descriptor at the end of the transports.
    unfoldable pub listen_tcp_v4 : ℕ → Address → List Descriptor → Option (Result (List Descriptor))
    listen_tcp_v4 fuel a transports = elim (find_wan_address fuel a.ip transports) [
      | none ↦ none
      | some (some d, rest) ↦
          some (ok (rest ++ record d { listener_ports = d.listener_ports ++ a.port ∷ [] } ∷ []))
      | some (none, rest) ↦
          let fresh = record (create_descriptor tcp_v4 c.whitelist) {
            listener_ports = a.port ∷ [];
            wan_address = a.ip;
          } in
          some (elim (secure false fresh) [ ok d ↦ ok (rest ++ d ∷ []) | throw e ↦ throw e ])
    ]

    unfoldable pub listen_tcp_v6 : Address → List Descriptor → Result (List Descriptor)
    listen_tcp_v6 a transports =
        let fresh = record (create_descriptor tcp_v6 c.whitelist) {
          listener_ports = a.port ∷ [];
        } in
        elim (secure false fresh) [ ok d ↦ ok (transports ++ d ∷ []) | throw e ↦ throw e ]

    -- The transports after one valid listening address.
    unfoldable pub listen_transports :
        ℕ → Address → List Descriptor → Option (Result (List Descriptor))
    listen_transports fuel a transports =
        if is_tcp a
        then (if is_ipv4 a
            then listen_tcp_v4 fuel a transports
            else some (listen_tcp_v6 a transports))
        else some (ok transports)

    unfoldable pub listen_needs : Address → Needs → Needs
    listen_needs a n =
        let listening = record n { has_listening_addresses = true } in
        if is_tcp a
        then (if is_ipv4 a
            then record listening { has_listening_tcp_ipv4 = true }
            else record listening { has_listening_tcp_ipv6 = true })
        else record listening { has_udp_ipv4 = is_ipv4 a; has_udp_ipv6 = not (is_ipv4 a) }

    unfoldable pub add_listening_locator : Address → Attributes → Attributes
    add_listening_locator a p = record p {
      metatraffic_unicast_locators = p.metatraffic_unicast_locators ++ listening_locator a ∷ [];
      default_unicast_locators = p.default_unicast_locators ++ listening_locator a ∷ [];
    }

    -- The loop over the listening addresses.
    unfoldable pub set_listening_addresses :
        ℕ → List Address → Needs → Attributes → Option (Result (Needs × Attributes))
    set_listening_addresses fuel [] n p = some (ok (n, p))
    set_listening_addresses fuel (a ∷ rest) n p =
        let skipped = set_listening_addresses fuel rest n p in
        if Address.is_valid locator a
        then (elim (listen_transports fuel a p.user_transports) [
          | none ↦ none
          | some (throw e) ↦ some (throw e)
          | some (ok transports) ↦
              set_listening_addresses fuel rest (listen_needs a n)
                (add_listening_locator a (record p { user_transports = transports }))
        ])
        else skipped

    unfoldable pub connection_needs : Address → Needs → Needs
    connection_needs a n =
        if is_tcp a
        then record n {
          has_connection_tcp_ipv4 = is_ipv4 a;
          has_connection_tcp_ipv6 = not (is_ipv4 a);
        }
        else record n {
          has_connection_udp_ipv4 = is_ipv4 a;
          has_connection_udp_ipv6 = not (is_ipv4 a);
          has_udp_ipv4 = is_ipv4 a;
          has_udp_ipv6 = not (is_ipv4 a);
        }

    -- The loop over the connection addresses.
    unfoldable pub set_connection_addresses : List Address → Needs → Attributes → Needs × Attributes
    set_connection_addresses [] n p = (n, p)
    set_connection_addresses (a ∷ rest) n p =
        if Address.is_valid locator a
        then set_connection_addresses rest (connection_needs a n)
            (record p { initial_peers = p.initial_peers ++ connection_locator a ∷ [] })
        else set_connection_addresses rest n p

    -- A descriptor that connections need, and that no listening address has brought.
    unfoldable pub add_descriptor : Bool → LocatorKind → Attributes → Result Attributes
    add_descriptor needed kind p =
        if needed
        then elim (secure true (create_descriptor kind c.whitelist)) [
          | ok d ↦ ok (record p { user_transports = p.user_transports ++ d ∷ [] })
          | throw e ↦ throw e
        ]
        else ok p

    unfoldable pub add_udp_descriptor : Bool → LocatorKind → Attributes → Attributes
    add_udp_descriptor needed kind p =
        if needed
        then record p {
          user_transports = p.user_transports ++ create_descriptor kind c.whitelist ∷ [];
        }
        else p

    unfoldable pub add_empty_locator : Bool → LocatorKind → Attributes → Attributes
    add_empty_locator needed kind p =
        if needed
        then record p {
          metatraffic_unicast_locators = p.metatraffic_unicast_locators ++ empty_locator kind ∷ [];
        }
        else p

    -- What follows the loops.
    unfoldable pub add_transports : Needs → Attributes → Result Attributes
    add_transports n p = do
      with_v4 ← add_descriptor (n.has_connection_tcp_ipv4 && not n.has_listening_tcp_ipv4) tcp_v4 p
      with_v6 ←
          add_descriptor (n.has_connection_tcp_ipv6 && not n.has_listening_tcp_ipv6) tcp_v6 with_v4
      let with_udp =
          add_udp_descriptor n.has_udp_ipv6 udp_v6
            (add_udp_descriptor n.has_udp_ipv4 udp_v4 with_v6)
      let alone = not n.has_listening_addresses
      ok (
          add_empty_locator (alone && n.has_connection_udp_ipv6) udp_v6
            (add_empty_locator (alone && n.has_connection_udp_ipv4) udp_v4 with_udp))

    unfoldable pub reckon_participant_attributes : ℕ → Option (Result Attributes)
    reckon_participant_attributes fuel =
        elim (set_listening_addresses fuel c.listening_addresses no_needs no_attributes) [
          | none ↦ none
          | some (throw e) ↦ some (throw e)
          | some (ok (n, p)) ↦
              let (n', p') = set_connection_addresses c.connection_addresses n p in
              some (add_transports n' p')
        ]
