-- ===== src/Participants/Address.antt =====
-- Address of ddspipe/ddspipe_participants/src/cpp/types/address/Address.cpp. The checks of IP addresses
-- are those of IPLocator of Fast DDS, a parameter.
use Prim.Native.String.{String}
use ddsproxy.Common.{ℕ, Bool, true, false, not, ◌&&◌, nat_beq, if◌then◌else◌}

pub data IpVersion : Type 0 where
  v4 v6 : IpVersion

pub data TransportProtocol : Type 0 where
  udp tcp : TransportProtocol

pub record Address : Type 0 where
  pub ip : String
  pub domain : String
  pub has_domain : Bool
  pub has_valid_domain : Bool
  pub port : ℕ
  pub external_port : ℕ
  pub ip_version : IpVersion
  pub transport_protocol : TransportProtocol

-- `IPLocator::isIPv4` and `IPLocator::isIPv6`
pub record IpLocator : Type 0 where
  pub is_ipv4_correct : String → Bool
  pub is_ipv6_correct : String → Bool

unfoldable pub is_udp : Address → Bool
is_udp a = elim a.transport_protocol [ udp ↦ true | tcp ↦ false ]

unfoldable pub is_tcp : Address → Bool
is_tcp a = elim a.transport_protocol [ udp ↦ false | tcp ↦ true ]

unfoldable pub is_ipv4 : Address → Bool
is_ipv4 a = elim a.ip_version [ v4 ↦ true | v6 ↦ false ]

pub data LocatorKind : Type 0 where
  udp_v4 udp_v6 tcp_v4 tcp_v6 : LocatorKind

unfoldable pub get_locator_kind : Address → LocatorKind
get_locator_kind a = elim a.ip_version [
  | v4 ↦ elim a.transport_protocol [ udp ↦ udp_v4 | tcp ↦ tcp_v4 ]
  | v6 ↦ elim a.transport_protocol [ udp ↦ udp_v6 | tcp ↦ tcp_v6 ]
]

module _ (locator : IpLocator) where
  unfoldable pub is_correct_ip : Address → Bool
  is_correct_ip a = elim a.ip_version [
    | v4 ↦ locator.is_ipv4_correct a.ip
    | v6 ↦ locator.is_ipv6_correct a.ip
  ]

  unfoldable pub is_valid : Address → Bool
  unfolding is_udp is_correct_ip
  is_valid a =
      if a.has_domain && not a.has_valid_domain
      then false
      else if is_udp a && not (nat_beq a.port a.external_port)
      then false
      else is_correct_ip a
