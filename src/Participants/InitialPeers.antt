-- ===== src/Participants/InitialPeers.antt =====
-- InitialPeersParticipant::reckon_participant_attributes_ of
-- ddspipe/ddspipe_participants/src/cpp/participant/rtps/InitialPeersParticipant.cpp: the transports and
-- the locators that an initial peers participant asks of Fast DDS. What IPLocator writes into a locator
-- is kept as its arguments. The search for a WAN address has fuel, since the code does not move its
-- iterator; nothing is the result when the fuel runs out.
pub mod Reckon
pub mod Secure
pub mod Locators
pub mod Returns
mod Tests
use Prim.Native.String.{String}
use ddsproxy.Common.{
  ℕ, zero, suc, Bool, true, false, not, ◌&&◌, Option, none, some, List, [], ◌∷◌, ◌++◌, keep,
  if◌then◌else◌, string_key, ◌==◌, Result, ok, throw, ◌>>=◌,
}
use ddsproxy.Participants.Address
use ddsproxy.Participants.Address.{
  Address, IpLocator, LocatorKind, udp_v4, udp_v6, tcp_v4, tcp_v6, is_tcp, is_ipv4,
  get_locator_kind,
}
use ddsproxy.Participants.TlsConfiguration.{TlsConfiguration, TlsSettings, is_active, enable_tls}
use ddsproxy.Participants.Configuration.{InitialPeersParticipantConfiguration}

pub record Descriptor : Type 0 where
  pub kind : LocatorKind
  pub interface_whitelist : List String
  pub listener_ports : List ℕ
  pub wan_address : String
  pub tls_config : Option TlsSettings

pub record Locator : Type 0 where
  pub kind : LocatorKind
  pub ip : Option String
  pub wan : Option String
  pub physical_port : Option ℕ
  pub logical_port : Option ℕ

-- The fields of RTPSParticipantAttributes that the function changes, after those of the parent: no
-- transports and no locators.
pub record Attributes : Type 0 where
  pub user_transports : List Descriptor
  pub metatraffic_unicast_locators : List Locator
  pub default_unicast_locators : List Locator
  pub initial_peers : List Locator

-- The flags of the function.
pub record Needs : Type 0 where
  pub has_listening_addresses : Bool
  pub has_listening_tcp_ipv4 : Bool
  pub has_listening_tcp_ipv6 : Bool
  pub has_connection_tcp_ipv4 : Bool
  pub has_connection_tcp_ipv6 : Bool
  pub has_connection_udp_ipv4 : Bool
  pub has_connection_udp_ipv6 : Bool
  pub has_udp_ipv4 : Bool
  pub has_udp_ipv6 : Bool

abbrev pub no_attributes : Attributes
no_attributes = record {
  user_transports = [];
  metatraffic_unicast_locators = [];
  default_unicast_locators = [];
  initial_peers = [];
}

abbrev pub no_needs : Needs
no_needs = record {
  has_listening_addresses = false;
  has_listening_tcp_ipv4 = false;
  has_listening_tcp_ipv6 = false;
  has_connection_tcp_ipv4 = false;
  has_connection_tcp_ipv6 = false;
  has_connection_udp_ipv4 = false;
  has_connection_udp_ipv6 = false;
  has_udp_ipv4 = false;
  has_udp_ipv6 = false;
}

-- `set_WAN_address` and `get_WAN_address` take the address through four octets: this is for addresses
-- without leading zeros, which come back as they were given.
unfoldable pub is_tcp_v4_of : String → Descriptor → Bool
is_tcp_v4_of ip d = elim d.kind [ tcp_v4 ↦ ip == d.wan_address | _ ↦ false ]

-- The loop over the transports: `it` stays at the first one. What is found is taken out.
unfoldable pub find_wan_address :
    ℕ → String → List Descriptor → Option (Option Descriptor × List Descriptor)
find_wan_address zero ip transports = none
find_wan_address (suc fuel) ip [] = some (none, [])
find_wan_address (suc fuel) ip (d ∷ rest) =
    let again = find_wan_address fuel ip (d ∷ rest) in
    if is_tcp_v4_of ip d then some (some d, rest) else again

unfoldable pub listening_locator : Address → Locator
listening_locator a = record {
  kind = get_locator_kind a;
  ip = some a.ip;
  wan = if is_ipv4 a then some a.ip else none;
  physical_port = some (if is_tcp a then a.external_port else a.port);
  logical_port = if is_tcp a then some a.external_port else none;
}

unfoldable pub connection_locator : Address → Locator
connection_locator a = record {
  kind = get_locator_kind a;
  ip = some a.ip;
  wan = none;
  physical_port = some a.port;
  logical_port = if is_tcp a then some a.port else none;
}

-- The locator of a kind alone.
unfoldable pub empty_locator : LocatorKind → Locator
empty_locator kind = record {
  kind = kind;
  ip = none;
  wan = none;
  physical_port = none;
  logical_port = none;
}
