-- ===== src/Participants/InitialPeers/Locators.antt =====
-- A valid initial peers participant has its TLS, and the locators of its addresses.
use ddsproxy.Common.{
  ℕ, ◌≡◌, refl, inl, inr, ◌∙◌, sym, ap, Bool, true, false, not, ◌&&◌, Option, none, some, List, [],
  ◌∷◌, ◌++◌, map, all, arith, Result, ok, throw,
}
use mathlib.Core.List.{append-nil, append_assoc}
use ddsproxy.Participants.Address
use ddsproxy.Participants.Address.{
  Address, IpLocator, LocatorKind, udp_v4, udp_v6, tcp_v4, tcp_v6, is_tcp, is_ipv4,
}
use ddsproxy.Participants.Configuration.{
  InitialPeersParticipantConfiguration, has_none, is_tls_enough,
}
use ddsproxy.Participants.Configuration
use ddsproxy.Participants.InitialPeers.{
  Descriptor, Attributes, Needs, no_attributes, no_needs, listening_locator, connection_locator,
}
use ddsproxy.Participants.InitialPeers.Secure.{
  and_cases, secure_connection, listen_transports-Settles,
}
use ddsproxy.Participants.InitialPeers.Reckon.{
  create_descriptor, listen_needs, add_listening_locator, set_listening_addresses, connection_needs,
  set_connection_addresses, add_descriptor, add_udp_descriptor, add_empty_locator, add_transports,
  reckon_participant_attributes,
}

module _ (locator : IpLocator) (c : InitialPeersParticipantConfiguration) where
  -- What the loop over listening addresses leaves: no new need of a connection, and the locators.
  abbrev Listens : List Address → Needs → Attributes → Option (Result (Needs × Attributes)) → Type 0
  Listens as_ n p none = Unit {0}
  Listens as_ n p (some (throw e)) = ⊥
  Listens as_ n p (some (ok (n', p'))) =
      (n'.has_connection_tcp_ipv4 ≡ n.has_connection_tcp_ipv4)
      × (n'.has_connection_tcp_ipv6 ≡ n.has_connection_tcp_ipv6)
      × (p'.default_unicast_locators ≡ p.default_unicast_locators ++ map listening_locator as_)
      × (p'.initial_peers ≡ p.initial_peers)

  needs_kept :
      (a : Address) (n : Needs)
      → ((listen_needs locator c a n).has_connection_tcp_ipv4 ≡ n.has_connection_tcp_ipv4)
        × ((listen_needs locator c a n).has_connection_tcp_ipv6 ≡ n.has_connection_tcp_ipv6)
  unfolding listen_needs
  needs_kept a n = ground arith

  Listens-cons :
      (a : Address) (as_ : List Address) (n : Needs) (p : Attributes) (ts : List Descriptor)
      (r : Option (Result (Needs × Attributes)))
      → Listens as_
          (listen_needs locator c a n)
          (add_listening_locator locator c a (record p { user_transports = ts }))
          r
      → Listens (a ∷ as_) n p r
  unfolding add_listening_locator
  Listens-cons a as_ n p ts none l = tt
  Listens-cons a as_ n p ts (some (throw e)) l = l
  Listens-cons a as_ n p ts (some (ok (n', p'))) l =
      let (four, six) = needs_kept a n in
      (
        l.0 ∙ four,
        l.1 ∙ six,
        l.2
            ∙ append_assoc p.default_unicast_locators (listening_locator a ∷ [])
                (map listening_locator as_),
        l.3,
      )

  module _ (enough : is_tls_enough c ≡ true)
      (some_listening : has_none c.listening_addresses ≡ false) where
    set_listening_addresses-Listens :
        (fuel : ℕ) (as_ : List Address) (n : Needs) (p : Attributes)
        → all (Address.is_valid locator) as_ ≡ true
        → Listens as_ n p (set_listening_addresses locator c fuel as_ n p)
    unfolding set_listening_addresses
    set_listening_addresses-Listens fuel [] n p v =
        (refl, refl, sym (append-nil p.default_unicast_locators), refl)
    set_listening_addresses-Listens fuel (a ∷ as_) n p v =
        let (here, rest) =
          and_cases (Address.is_valid locator a) (all (Address.is_valid locator) as_) v in
        elim (listen_transports-Settles locator c enough some_listening fuel a p.user_transports) [
          | inl e ↦ rw (Listens, here, e) tt
          | inr (ts, e) ↦
              rw (Listens, here, e)
                (Listens-cons a as_ n p ts _ (set_listening_addresses-Listens fuel as_ _ _ rest))
        ]

  listening_loop :
      is_tls_enough c ≡ true
      → (fuel : ℕ) (as_ : List Address) → c.listening_addresses ≡ as_
      → all (Address.is_valid locator) as_ ≡ true
      → Listens as_ no_needs no_attributes
          (set_listening_addresses locator c fuel as_ no_needs no_attributes)
  unfolding set_listening_addresses has_none
  listening_loop enough fuel [] e valid = (refl, refl, refl, refl)
  listening_loop enough fuel (a ∷ as_) e valid =
      set_listening_addresses-Listens enough (rw e refl) fuel (a ∷ as_) no_needs no_attributes valid

  -- What the loop over connection addresses leaves.
  abbrev Connects : List Address → Attributes → Attributes → Type 0
  Connects as_ p p' =
      (p'.default_unicast_locators ≡ p.default_unicast_locators)
      × (p'.initial_peers ≡ p.initial_peers ++ map connection_locator as_)

  set_connection_addresses-Connects :
      (as_ : List Address) (n : Needs) (p : Attributes)
      → all (Address.is_valid locator) as_ ≡ true
      → Connects as_ p (set_connection_addresses locator c as_ n p).1
  unfolding set_connection_addresses
  set_connection_addresses-Connects [] n p v = (refl, sym (append-nil p.initial_peers))
  set_connection_addresses-Connects (a ∷ as_) n p v =
      let (here, rest) =
        and_cases (Address.is_valid locator a) (all (Address.is_valid locator) as_) v in
      let added = record p { initial_peers = p.initial_peers ++ connection_locator a ∷ [] } in
      let (same, peers) =
        set_connection_addresses-Connects as_ (connection_needs locator c a n) added rest in
      rw here (
        same,
        peers
            ∙ append_assoc p.initial_peers (connection_locator a ∷ []) (map connection_locator as_),
      )

  abbrev Same : Attributes → Attributes → Type 0
  Same p p' =
      (p'.default_unicast_locators ≡ p.default_unicast_locators)
      × (p'.initial_peers ≡ p.initial_peers)

  -- No descriptor for connections fails if it is needed only with an address to connect to.
  add_descriptor_ok :
      is_tls_enough c ≡ true
      → (needed : Bool) (kind : LocatorKind) (p : Attributes)
      → (needed ≡ true → has_none c.connection_addresses ≡ false)
      → (p' : Attributes) × (add_descriptor locator c needed kind p ≡ ok p') × Same p p'
  unfolding add_descriptor
  add_descriptor_ok enough false kind p h = (p, refl, (refl, refl))
  add_descriptor_ok enough true kind p h =
      let (d, e) =
        secure_connection locator c enough (h refl) (create_descriptor locator kind c.whitelist) in
      (
        record p { user_transports = p.user_transports ++ d ∷ [] },
        rw (add_descriptor, e) refl,
        (refl, refl),
      )

  add_udp_descriptor-Same :
      (needed : Bool) (kind : LocatorKind) (p : Attributes)
      → Same p (add_udp_descriptor locator c needed kind p)
        × Same p (add_empty_locator locator c needed kind p)
  unfolding add_udp_descriptor add_empty_locator
  add_udp_descriptor-Same needed kind p = ground arith

  add_transports_ok :
      is_tls_enough c ≡ true
      → (n : Needs) (p : Attributes)
      → (n.has_connection_tcp_ipv4 ≡ true → has_none c.connection_addresses ≡ false)
      → (n.has_connection_tcp_ipv6 ≡ true → has_none c.connection_addresses ≡ false)
      → (p' : Attributes) × (add_transports locator c n p ≡ ok p') × Same p p'
  unfolding add_transports
  add_transports_ok enough n p h4 h6 =
      let (p4, e4, r4) =
        add_descriptor_ok enough (n.has_connection_tcp_ipv4 && not n.has_listening_tcp_ipv4) tcp_v4
          p (λ e. h4 (and_cases n.has_connection_tcp_ipv4 (not n.has_listening_tcp_ipv4) e).0) in
      let (p6, e6, r6) =
        add_descriptor_ok enough (n.has_connection_tcp_ipv6 && not n.has_listening_tcp_ipv6) tcp_v6
          p4 (λ e. h6 (and_cases n.has_connection_tcp_ipv6 (not n.has_listening_tcp_ipv6) e).0) in
      let u4 = add_udp_descriptor locator c n.has_udp_ipv4 udp_v4 p6 in
      let u6 = add_udp_descriptor locator c n.has_udp_ipv6 udp_v6 u4 in
      let alone = not n.has_listening_addresses in
      let l4 = add_empty_locator locator c (alone && n.has_connection_udp_ipv4) udp_v4 u6 in
      let s1 = (add_udp_descriptor-Same n.has_udp_ipv4 udp_v4 p6).0 in
      let s2 = (add_udp_descriptor-Same n.has_udp_ipv6 udp_v6 u4).0 in
      let s3 = (add_udp_descriptor-Same (alone && n.has_connection_udp_ipv4) udp_v4 u6).1 in
      let s4 = (add_udp_descriptor-Same (alone && n.has_connection_udp_ipv6) udp_v6 l4).1 in
      (
        add_empty_locator locator c (alone && n.has_connection_udp_ipv6) udp_v6 l4,
        rw (add_transports, e4, e6) refl,
        (s4.0 ∙ s3.0 ∙ s2.0 ∙ s1.0 ∙ r6.0 ∙ r4.0, s4.1 ∙ s3.1 ∙ s2.1 ∙ s1.1 ∙ r6.1 ∙ r4.1),
      )

  -- The parts of validity.
  pub valid_cases :
      Configuration.is_valid locator c ≡ true
      → (all (Address.is_valid locator) c.listening_addresses ≡ true)
        × (all (Address.is_valid locator) c.connection_addresses ≡ true)
        × (is_tls_enough c ≡ true)
  unfolding Configuration.is_valid
  valid_cases v = ground arith

  connection_flags :
      (as_ : List Address) (n : Needs) (p : Attributes)
      → c.connection_addresses ≡ as_
      → n.has_connection_tcp_ipv4 ≡ false
      → n.has_connection_tcp_ipv6 ≡ false
      → let n' = (set_connection_addresses locator c as_ n p).0 in
        (n'.has_connection_tcp_ipv4 ≡ true → has_none c.connection_addresses ≡ false)
        × (n'.has_connection_tcp_ipv6 ≡ true → has_none c.connection_addresses ≡ false)
  unfolding set_connection_addresses has_none
  connection_flags [] n p e f4 f6 = (λ g. absurd (cc (f4, g)), λ g. absurd (cc (f6, g)))
  connection_flags (a ∷ as_) n p e f4 f6 = (λ _. rw e refl, λ _. rw e refl)

  -- What a result says: nothing, or attributes with the locators.
  abbrev pub Addressed : Option (Result Attributes) → Type 0
  Addressed none = Unit {0}
  Addressed (some (throw e)) = ⊥
  Addressed (some (ok p)) =
      (p.default_unicast_locators ≡ map listening_locator c.listening_addresses)
      × (p.initial_peers ≡ map connection_locator c.connection_addresses)

  reckon_of :
      all (Address.is_valid locator) c.connection_addresses ≡ true
      → is_tls_enough c ≡ true
      → (fuel : ℕ) (s : Option (Result (Needs × Attributes)))
      → set_listening_addresses locator c fuel c.listening_addresses no_needs no_attributes ≡ s
      → Listens c.listening_addresses no_needs no_attributes s
      → Addressed (reckon_participant_attributes locator c fuel)
  unfolding reckon_participant_attributes
  reckon_of connection enough fuel none f l = rw (Addressed, reckon_participant_attributes, f) tt
  reckon_of connection enough fuel (some (throw x)) f l = elim l [ ]
  reckon_of connection enough fuel (some (ok (n, p))) f l =
      let (flag_4, flag_6) = connection_flags c.connection_addresses n p refl l.0 l.1 in
      let (n', p') = set_connection_addresses locator c c.connection_addresses n p in
      let (same, peers) = set_connection_addresses-Connects c.connection_addresses n p connection in
      let (q, e, (same_q, peers_q)) = add_transports_ok enough n' p' flag_4 flag_6 in
      rw (Addressed, reckon_participant_attributes, f, e)
        (
          same_q ∙ same ∙ l.2,
          peers_q ∙ peers ∙ ap (λ i. i ++ map connection_locator c.connection_addresses) l.3,
        )

  -- For a valid configuration, and as far as the search for WAN addresses ends: TLS raises no
  -- exception, and there is a locator for each listening address and an initial peer for each
  -- connection address, in their orders.
  pub reckon_participant_attributes-Addressed :
      Configuration.is_valid locator c ≡ true
      → (fuel : ℕ) → Addressed (reckon_participant_attributes locator c fuel)
  reckon_participant_attributes-Addressed v fuel =
      let (listening, connection, enough) = valid_cases v in
      reckon_of connection enough fuel _ refl
        (listening_loop enough fuel c.listening_addresses refl listening)
