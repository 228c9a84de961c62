-- ===== src/Participants/InitialPeers/Tests.antt =====
-- Initial peers participants with one and with two WAN addresses.
use Prim.Native.String.{String}
use ddsproxy.Common.{◌≡◌, refl, true, false, not, List, [], ◌∷◌, string_key, ◌==◌}
use ddsproxy.Participants.Address.{
  Address, IpLocator, v4, v6, udp, tcp, is_udp, is_tcp, is_ipv4, is_correct_ip, get_locator_kind,
}
use ddsproxy.Participants.Address
use ddsproxy.Participants.TlsConfiguration.{both, is_active, compatible}
use ddsproxy.Participants.Configuration.{
  InitialPeersParticipantConfiguration, is_valid_simple, is_tls_enough, has_none,
}
use ddsproxy.Participants.Configuration
use ddsproxy.Participants.InitialPeers.Reckon.{reckon_participant_attributes}
use ddsproxy.Participants.InitialPeers.Locators.{Addressed, reckon_participant_attributes-Addressed}
use ddsproxy.Participants.InitialPeers.Returns.{is_some, tcp_ips, all_same, reckon_returns_iff}

abbrev ip_locator : IpLocator
ip_locator = record { is_ipv4_correct = λ ip. not (ip == ""); is_ipv6_correct = λ ip. ip == "::1" }

abbrev tcp_address : String → Address
tcp_address ip = record {
  ip = ip;
  domain = "";
  has_domain = false;
  has_valid_domain = false;
  port = 11600;
  external_port = 11601;
  ip_version = v4;
  transport_protocol = tcp;
}

abbrev peers : List Address → InitialPeersParticipantConfiguration
peers listening = record {
  id = "wan";
  domain = 0;
  whitelist = [];
  listening_addresses = listening;
  connection_addresses =
      record (tcp_address "10.0.0.9") { transport_protocol = udp; external_port = 11600 } ∷ [];
  tls_configuration = record {
    kind = both;
    verify_peer = true;
    certificate_authority_file = "ca.crt";
    sni_server_name = "";
    private_key_file_password = "";
    private_key_file = "proxy.key";
    certificate_chain_file = "proxy.crt";
    dh_params_file = "dh.pem";
  };
}

abbrev one_wan : InitialPeersParticipantConfiguration
one_wan = peers (tcp_address "1.1.1.1" ∷ record (tcp_address "1.1.1.1") { port = 11700 } ∷ [])

abbrev two_wans : InitialPeersParticipantConfiguration
two_wans = peers (tcp_address "1.1.1.1" ∷ tcp_address "2.2.2.2" ∷ [])

reckon_participant_attributes-Addressed_example :
    Addressed ip_locator one_wan (reckon_participant_attributes ip_locator one_wan 1)
unfolding Configuration.is_valid is_valid_simple Address.is_valid has_none is_tls_enough is_active
    compatible
reckon_participant_attributes-Addressed_example =
    reckon_participant_attributes-Addressed ip_locator one_wan refl 1

-- The second WAN address is not the one of the first descriptor, and the search goes on for ever.
reckon_returns_iff_example :
    is_some (reckon_participant_attributes ip_locator two_wans 6)
    ≡ all_same (tcp_ips two_wans.listening_addresses)
unfolding Configuration.is_valid is_valid_simple Address.is_valid has_none is_tls_enough is_active
    compatible is_tcp is_ipv4
reckon_returns_iff_example = reckon_returns_iff ip_locator two_wans refl refl 5
