-- ===== src/Participants/InitialPeers/Secure.antt =====
-- TLS in the descriptors of a valid initial peers participant.
use ddsproxy.Common.{
  ℕ, ◌≡◌, refl, ◌⊎◌, inl, inr, Bool, true, false, ◌&&◌, Option, none, some, List, [], ◌∷◌, ◌++◌,
  if◌then◌else◌, arith, Result, ok, Bool-cases, if_cases,
}
use ddsproxy.Participants.Address.{Address, IpLocator, tcp_v4, tcp_v6, is_tcp, is_ipv4}
use ddsproxy.Participants.TlsConfiguration.{
  TlsConfiguration, TlsSettings, client, server, is_active, compatible, enable_tls,
}
use ddsproxy.Participants.Configuration.{
  InitialPeersParticipantConfiguration, has_none, is_tls_enough,
}
use ddsproxy.Participants.InitialPeers.{Descriptor, find_wan_address}
use ddsproxy.Participants.InitialPeers.Reckon.{
  create_descriptor, secure, listen_tcp_v4, listen_tcp_v6, listen_transports,
}

pub and_cases : (a b : Bool) → (a && b) ≡ true → (a ≡ true) × (b ≡ true)
and_cases a b e = ground arith

accepted {ℓ} :
    {A : Type ℓ} {b : Bool} (x : A) (y : Result A)
    → b ≡ true
    → (s : A) × ((if b then ok x else y) ≡ ok s)
accepted x y e = (x, rw e refl)

enable_tls_cases :
    (t : TlsConfiguration)
    → (compatible server t ≡ true → (s : TlsSettings) × (enable_tls t false ≡ ok s))
      × (compatible client t ≡ true → (s : TlsSettings) × (enable_tls t true ≡ ok s))
unfolding enable_tls
enable_tls_cases t = (λ e. accepted _ _ e, λ e. accepted _ _ e)

module _ (locator : IpLocator) (c : InitialPeersParticipantConfiguration) where
  -- TLS works for the role that some address needs.
  pub secure_listening :
      is_tls_enough c ≡ true
      → has_none c.listening_addresses ≡ false
      → (d : Descriptor)
      → (d' : Descriptor) × (secure locator c false d ≡ ok d')
        × (d'.kind ≡ d.kind)
        × (d'.wan_address ≡ d.wan_address)
  unfolding secure is_tls_enough
  secure_listening enough some_listening d = elim (Bool-cases (is_active c.tls_configuration)) [
    | inr off ↦ (d, rw off refl, refl, refl)
    | inl on ↦
        let (s, e) = (enable_tls_cases c.tls_configuration).0 (ground arith) in
        (record d { tls_config = some s }, rw (on, e) refl, refl, refl)
  ]

  pub secure_connection :
      is_tls_enough c ≡ true
      → has_none c.connection_addresses ≡ false
      → (d : Descriptor) → (d' : Descriptor) × (secure locator c true d ≡ ok d')
  unfolding secure is_tls_enough
  secure_connection enough some_connection d = elim (Bool-cases (is_active c.tls_configuration)) [
    | inr off ↦ (d, rw off refl)
    | inl on ↦
        let (s, e) = (enable_tls_cases c.tls_configuration).1 (ground arith) in
        (record d { tls_config = some s }, rw (on, e) refl)
  ]

  -- The transports after a listening address: the search does not end, or they are there.
  abbrev pub Settles : Option (Result (List Descriptor)) → Type 0
  Settles r = (r ≡ none) ⊎ ((ts : List Descriptor) × (r ≡ some (ok ts)))

  module _ (enough : is_tls_enough c ≡ true)
      (some_listening : has_none c.listening_addresses ≡ false) where
    listen_tcp_v6_ok :
        (a : Address) (ts : List Descriptor)
        → (ts' : List Descriptor) × (listen_tcp_v6 locator c a ts ≡ ok ts')
    unfolding listen_tcp_v6
    listen_tcp_v6_ok a ts =
        let fresh = record (create_descriptor locator tcp_v6 c.whitelist) {
          listener_ports = a.port ∷ [];
        } in
        let (d, e, kind, wan) = secure_listening enough some_listening fresh in
        (ts ++ d ∷ [], rw (listen_tcp_v6, e) refl)

    listen_tcp_v4_of :
        (fuel : ℕ) (a : Address) (ts : List Descriptor)
        (r : Option (Option Descriptor × List Descriptor))
        → find_wan_address fuel a.ip ts ≡ r
        → Settles (listen_tcp_v4 locator c fuel a ts)
    unfolding listen_tcp_v4
    listen_tcp_v4_of fuel a ts none e = inl (rw (listen_tcp_v4, e) refl)
    listen_tcp_v4_of fuel a ts (some (some d, rest)) e = inr (
      rest ++ record d { listener_ports = d.listener_ports ++ a.port ∷ [] } ∷ [],
      rw (listen_tcp_v4, e) refl,
    )
    listen_tcp_v4_of fuel a ts (some (none, rest)) e =
        let fresh = record (create_descriptor locator tcp_v4 c.whitelist) {
          listener_ports = a.port ∷ [];
          wan_address = a.ip;
        } in
        let (d, f, kind, wan) = secure_listening enough some_listening fresh in
        inr (rest ++ d ∷ [], rw (listen_tcp_v4, e, f) refl)

    pub listen_transports-Settles :
        (fuel : ℕ) (a : Address) (ts : List Descriptor)
        → Settles (listen_transports locator c fuel a ts)
    unfolding listen_transports
    listen_transports-Settles fuel a ts =
        if_cases Settles (is_tcp a)
          (λ _.
            if_cases Settles (is_ipv4 a)
              (λ _. listen_tcp_v4_of fuel a ts (find_wan_address fuel a.ip ts) refl)
              (λ _. let (ts', e) = listen_tcp_v6_ok a ts in inr (ts', rw e refl)))
          (λ _. inr (ts, refl))
