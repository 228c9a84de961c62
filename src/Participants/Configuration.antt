-- ===== src/Participants/Configuration.antt =====
-- Validity of the configurations of participants: ParticipantConfiguration, SimpleParticipantConfiguration
-- and InitialPeersParticipantConfiguration of ddspipe/ddspipe_participants/src/cpp/configuration.
use Prim.Native.String.{String}
use ddsproxy.Common.{
  ℕ, Bool, true, false, not, ◌&&◌, List, [], ◌∷◌, if◌then◌else◌, string_key, ◌==◌, leb, all,
}
use ddsproxy.Participants.Address.{Address, IpLocator}
use ddsproxy.Participants.Address
use ddsproxy.Participants.TlsConfiguration.{TlsConfiguration, server, client, is_active, compatible}

abbrev pub max_domain_id : ℕ
max_domain_id = 232

pub record InitialPeersParticipantConfiguration : Type 0 where
  pub id : String
  pub domain : ℕ
  pub whitelist : List String
  pub listening_addresses : List Address
  pub connection_addresses : List Address
  pub tls_configuration : TlsConfiguration

unfoldable pub has_none {ℓ} : {A : Type ℓ} → List A → Bool
has_none [] = true
has_none (a ∷ as_) = false

-- The test of TLS at the end: an active configuration supports what the addresses need.
unfoldable pub is_tls_enough : InitialPeersParticipantConfiguration → Bool
is_tls_enough c =
    if is_active c.tls_configuration
    then (if not (has_none c.listening_addresses) && not (compatible server c.tls_configuration)
        then false
        else if not (has_none c.connection_addresses) && not (compatible client c.tls_configuration)
        then false
        else true)
    else true

module _ (locator : IpLocator) where
  -- `SimpleParticipantConfiguration::is_valid`, with that of its parent.
  unfoldable pub is_valid_simple : InitialPeersParticipantConfiguration → Bool
  is_valid_simple c =
      if c.id == ""
      then false
      else if leb c.domain max_domain_id
      then all locator.is_ipv4_correct c.whitelist
      else false

  unfoldable pub is_valid : InitialPeersParticipantConfiguration → Bool
  is_valid c =
      if not (is_valid_simple c)
      then false
      else if not (all (Address.is_valid locator) c.listening_addresses)
      then false
      else if not (all (Address.is_valid locator) c.connection_addresses)
      then false
      else if has_none c.listening_addresses && has_none c.connection_addresses
      then false
      else is_tls_enough c
