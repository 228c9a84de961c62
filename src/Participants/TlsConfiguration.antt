-- ===== src/Participants/TlsConfiguration.antt =====
-- TlsConfiguration of ddspipe/ddspipe_participants/src/cpp/types/security/tls/TlsConfiguration.cpp. What
-- it sets in a descriptor of Fast DDS is a record of the settings.
use Prim.Native.String.{String}
use ddsproxy.Common.{
  Bool, true, false, ◌&&◌, Option, none, some, List, [], ◌∷◌, ◌++◌, if◌then◌else◌, string_key,
  Result, ok, throw, configuration_exception,
}

pub data TlsKind : Type 0 where
  inactive client server both : TlsKind

pub record TlsConfiguration : Type 0 where
  pub kind : TlsKind
  pub verify_peer : Bool
  pub certificate_authority_file : String
  pub sni_server_name : String
  pub private_key_file_password : String
  pub private_key_file : String
  pub certificate_chain_file : String
  pub dh_params_file : String

unfoldable pub is_active : TlsConfiguration → Bool
is_active t = elim t.kind [ inactive ↦ false | _ ↦ true ]

unfoldable pub same_kind : TlsKind → TlsKind → Bool
same_kind inactive inactive = true
same_kind client client = true
same_kind server server = true
same_kind both both = true
same_kind _ _ = false

-- `compatible<Kind>`
unfoldable pub compatible : TlsKind → TlsConfiguration → Bool
compatible inactive t = false
compatible kind t = elim t.kind [ inactive ↦ false | both ↦ true | other ↦ same_kind kind other ]

-- The settings of a descriptor: the modes that were added for the verification of the peer, and the
-- files of a client and of a server.
pub data VerifyMode : Type 0 where
  mode_none mode_peer mode_fail_if_no_peer_cert : VerifyMode

pub record TlsSettings : Type 0 where
  pub verify_modes : List VerifyMode
  pub client_files : Option (String × String)
  pub server_files : Option (String × String × String × String)

unfoldable pub enable_tls_client : TlsConfiguration → Bool → TlsSettings → TlsSettings
enable_tls_client t only_client s = record s {
  verify_modes =
      if only_client && t.verify_peer
      then s.verify_modes ++ mode_fail_if_no_peer_cert ∷ []
      else s.verify_modes;
  client_files = some (t.certificate_authority_file, t.sni_server_name);
}

unfoldable pub enable_tls_server : TlsConfiguration → TlsSettings → TlsSettings
enable_tls_server t s = record s {
  server_files =
      some (
        t.private_key_file_password, t.private_key_file, t.certificate_chain_file, t.dh_params_file,
      );
}

unfoldable pub enable_tls : TlsConfiguration → Bool → Result TlsSettings
enable_tls t as_client =
    let base : TlsSettings = record {
      verify_modes = (if t.verify_peer then mode_peer else mode_none) ∷ [];
      client_files = none;
      server_files = none;
    } in
    if as_client
    then (if compatible client t
        then ok (enable_tls_client t true base)
        else throw configuration_exception)
    else if compatible server t
    then ok (
        if compatible client t
        then enable_tls_client t false (enable_tls_server t base)
        else enable_tls_server t base)
    else throw configuration_exception
