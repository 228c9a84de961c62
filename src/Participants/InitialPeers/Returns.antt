-- ===== src/Participants/InitialPeers/Returns.antt =====
-- Whether the search for WAN addresses of an initial peers participant ends.
use Prim.Native.String.{String}
use ddsproxy.Common.{
  ℕ, zero, suc, ◌≡◌, refl, inl, inr, ◌∙◌, Bool, true, false, not, ◌||◌, Option, none, some, List,
  [], ◌∷◌, ◌++◌, all, if◌then◌else◌, arith, Result, ok, throw, Bool-cases, string_key, ◌==◌,
}
use ddsproxy.Participants.Address
use ddsproxy.Participants.Address.{Address, IpLocator, tcp_v4, is_tcp, is_ipv4}
use ddsproxy.Participants.Configuration.{
  InitialPeersParticipantConfiguration, has_none, is_tls_enough,
}
use ddsproxy.Participants.Configuration
use ddsproxy.Participants.InitialPeers.{
  Descriptor, Attributes, Needs, no_attributes, no_needs, is_tcp_v4_of, find_wan_address,
}
use ddsproxy.Participants.InitialPeers.Reckon.{
  create_descriptor, listen_tcp_v4, listen_transports, listen_needs, add_listening_locator,
  set_listening_addresses, reckon_participant_attributes,
}
use ddsproxy.Participants.InitialPeers.Secure.{and_cases, secure_listening}
use ddsproxy.Participants.InitialPeers.Locators.{valid_cases}

abbrev pub is_some {ℓ} : {A : Type ℓ} → Option A → Bool
is_some none = false
is_some (some a) = true

-- The IP addresses that are listened to over TCP, in order.
abbrev pub tcp_ips : List Address → List String
tcp_ips [] = []
tcp_ips (a ∷ as_) = if is_tcp a then a.ip ∷ tcp_ips as_ else tcp_ips as_

abbrev pub all_same : List String → Bool
all_same [] = true
all_same (ip ∷ ips) = all (λ other. other == ip) ips

abbrev pub not_tcp_v6 : Address → Bool
not_tcp_v6 a = not (is_tcp a) || is_ipv4 a

-- The iterator stays at a descriptor that does not match, whatever the fuel.
find_wan_address-none :
    (fuel : ℕ) (ip : String) (d : Descriptor) (ds : List Descriptor)
    → is_tcp_v4_of ip d ≡ false
    → find_wan_address fuel ip (d ∷ ds) ≡ none
unfolding find_wan_address
find_wan_address-none zero ip d ds e = refl
find_wan_address-none (suc fuel) ip d ds e = rw e (find_wan_address-none fuel ip d ds e)

module _ (locator : IpLocator) (c : InitialPeersParticipantConfiguration) where
  listen_udp :
      (fuel : ℕ) (a : Address) (ts : List Descriptor)
      → is_tcp a ≡ false
      → listen_transports locator c fuel a ts ≡ some (ok ts)
  unfolding listen_transports
  listen_udp fuel a ts e = rw e refl

  -- A descriptor for one WAN address.
  abbrev IsFor : String → Descriptor → Type 0
  IsFor ip d = (d.kind ≡ tcp_v4) × (d.wan_address ≡ ip)

  is_tcp_v4_of-IsFor : (i ip : String) (d : Descriptor) → IsFor ip d → is_tcp_v4_of i d ≡ (i == ip)
  unfolding is_tcp_v4_of
  is_tcp_v4_of-IsFor i ip d (kind, wan) = rw (is_tcp_v4_of, kind, wan) refl

  listen_same :
      (fuel : ℕ) (a : Address) (d : Descriptor) (ip : String)
      → is_tcp a ≡ true
      → is_ipv4 a ≡ true
      → is_tcp_v4_of a.ip d ≡ true
      → IsFor ip d
      → (d' : Descriptor) × (listen_transports locator c (suc fuel) a (d ∷ [])
          ≡ some (ok (d' ∷ [])))
        × IsFor ip d'
  unfolding listen_transports listen_tcp_v4 find_wan_address
  listen_same fuel a d ip e f same for = (
    record d { listener_ports = d.listener_ports ++ a.port ∷ [] },
    rw (e, f, listen_tcp_v4, find_wan_address, same) refl,
    for,
  )

  listen_other :
      (fuel : ℕ) (a : Address) (d : Descriptor)
      → is_tcp a ≡ true
      → is_ipv4 a ≡ true
      → is_tcp_v4_of a.ip d ≡ false
      → listen_transports locator c fuel a (d ∷ []) ≡ none
  unfolding listen_transports listen_tcp_v4
  listen_other fuel a d e f other =
      rw (e, f, listen_tcp_v4, find_wan_address-none fuel a.ip d [] other) refl

  module _ (enough : is_tls_enough c ≡ true)
      (some_listening : has_none c.listening_addresses ≡ false) where
    listen_first :
        (fuel : ℕ) (a : Address)
        → is_tcp a ≡ true
        → is_ipv4 a ≡ true
        → (d : Descriptor) × (listen_transports locator c (suc fuel) a [] ≡ some (ok (d ∷ [])))
          × IsFor a.ip d
    unfolding listen_transports listen_tcp_v4 find_wan_address create_descriptor
    listen_first fuel a e f =
        let fresh = record (create_descriptor locator tcp_v4 c.whitelist) {
          listener_ports = a.port ∷ [];
          wan_address = a.ip;
        } in
        let (d, g, kind, wan) = secure_listening locator c enough some_listening fresh in
        (d, rw (e, f, listen_tcp_v4, find_wan_address, g) refl, (kind, wan))

    -- The loop goes on after an address if its search ends.
    loop_goes_on :
        (fuel : ℕ) (a : Address) (as_ : List Address) (n : Needs) (p : Attributes)
        (ts : List Descriptor)
        → Address.is_valid locator a ≡ true
        → listen_transports locator c fuel a p.user_transports ≡ some (ok ts)
        → set_listening_addresses locator c fuel (a ∷ as_) n p
          ≡ set_listening_addresses locator c fuel as_
              (listen_needs locator c a n)
              (add_listening_locator locator c a (record p { user_transports = ts }))
    unfolding set_listening_addresses
    loop_goes_on fuel a as_ n p ts v e = rw (v, e) refl

    loop_sticks :
        (fuel : ℕ) (a : Address) (as_ : List Address) (n : Needs) (p : Attributes)
        → Address.is_valid locator a ≡ true
        → listen_transports locator c fuel a p.user_transports ≡ none
        → set_listening_addresses locator c fuel (a ∷ as_) n p ≡ none
    unfolding set_listening_addresses
    loop_sticks fuel a as_ n p v e = rw (v, e) refl

    -- The loop with one descriptor so far.
    returns_with :
        (fuel : ℕ) (as_ : List Address) (n : Needs) (p : Attributes) (d : Descriptor) (ip : String)
        → p.user_transports ≡ d ∷ []
        → IsFor ip d
        → all (Address.is_valid locator) as_ ≡ true
        → all not_tcp_v6 as_ ≡ true
        → is_some (set_listening_addresses locator c (suc fuel) as_ n p)
          ≡ all (λ other. other == ip) (tcp_ips as_)
    unfolding set_listening_addresses add_listening_locator
    returns_with fuel [] n p d ip u for v w = refl
    returns_with fuel (a ∷ as_) n p d ip u for v w =
        let (here, rest) =
          and_cases (Address.is_valid locator a) (all (Address.is_valid locator) as_) v in
        let (four, fours) = and_cases (not_tcp_v6 a) (all not_tcp_v6 as_) w in
        let same_ip = is_tcp_v4_of-IsFor a.ip ip d for in
        elim (Bool-cases (is_tcp a)) [
          | inr e ↦
              let goes =
                loop_goes_on (suc fuel) a as_ n p (d ∷ []) here
                  (rw u (listen_udp (suc fuel) a (d ∷ []) e)) in
              rw (goes, e) (returns_with fuel as_ _ _ d ip refl for rest fours)
          | inl e ↦ elim (Bool-cases (is_tcp_v4_of a.ip d)) [
            | inr other ↦
                let sticks =
                  loop_sticks (suc fuel) a as_ n p here
                    (rw u (listen_other (suc fuel) a d e (ground arith) other)) in
                rw (sticks, e) (ground arith)
            | inl same ↦
                let (d', f, for') = listen_same fuel a d ip e (ground arith) same for in
                let goes = loop_goes_on (suc fuel) a as_ n p (d' ∷ []) here (rw u f) in
                rw (goes, e) (returns_with fuel as_ _ _ d' ip refl for' rest fours ∙ ground arith)
          ]
        ]

    returns_iff_same :
        (fuel : ℕ) (as_ : List Address) (n : Needs) (p : Attributes)
        → p.user_transports ≡ []
        → all (Address.is_valid locator) as_ ≡ true
        → all not_tcp_v6 as_ ≡ true
        → is_some (set_listening_addresses locator c (suc fuel) as_ n p) ≡ all_same (tcp_ips as_)
    unfolding set_listening_addresses add_listening_locator
    returns_iff_same fuel [] n p u v w = refl
    returns_iff_same fuel (a ∷ as_) n p u v w =
        let (here, rest) =
          and_cases (Address.is_valid locator a) (all (Address.is_valid locator) as_) v in
        let (four, fours) = and_cases (not_tcp_v6 a) (all not_tcp_v6 as_) w in
        elim (Bool-cases (is_tcp a)) [
          | inr e ↦
              let goes =
                loop_goes_on (suc fuel) a as_ n p [] here (rw u (listen_udp (suc fuel) a [] e)) in
              rw (goes, e) (returns_iff_same fuel as_ _ _ refl rest fours)
          | inl e ↦
              let (d, f, for) = listen_first fuel a e (ground arith) in
              let goes = loop_goes_on (suc fuel) a as_ n p (d ∷ []) here (rw u f) in
              rw (goes, e) (returns_with fuel as_ _ _ d a.ip refl for rest fours)
        ]

  reckon_as_loop :
      (fuel : ℕ) (r : Option (Result (Needs × Attributes)))
      → set_listening_addresses locator c fuel c.listening_addresses no_needs no_attributes ≡ r
      → is_some (reckon_participant_attributes locator c fuel) ≡ is_some r
  unfolding reckon_participant_attributes
  reckon_as_loop fuel none e = rw (reckon_participant_attributes, e) refl
  reckon_as_loop fuel (some (throw x)) e = rw (reckon_participant_attributes, e) refl
  reckon_as_loop fuel (some (ok (n, p))) e = rw (reckon_participant_attributes, e) refl

  loop_returns_iff :
      is_tls_enough c ≡ true
      → (fuel : ℕ) (as_ : List Address) → c.listening_addresses ≡ as_
      → all (Address.is_valid locator) as_ ≡ true
      → all not_tcp_v6 as_ ≡ true
      → is_some (set_listening_addresses locator c (suc fuel) as_ no_needs no_attributes)
        ≡ all_same (tcp_ips as_)
  unfolding set_listening_addresses has_none
  loop_returns_iff enough fuel [] e v w = refl
  loop_returns_iff enough fuel (a ∷ as_) e v w =
      returns_iff_same enough (rw e refl) fuel (a ∷ as_) no_needs no_attributes refl v w

  -- For a valid configuration that listens over TCP with IPv4 only, the function returns exactly if
  -- all of the addresses that it listens to over TCP have one IP address; otherwise no fuel is
  -- enough.
  pub reckon_returns_iff :
      Configuration.is_valid locator c ≡ true
      → all not_tcp_v6 c.listening_addresses ≡ true
      → (fuel : ℕ)
      → is_some (reckon_participant_attributes locator c (suc fuel))
        ≡ all_same (tcp_ips c.listening_addresses)
  reckon_returns_iff v w fuel =
      let (listening, connection, enough) = valid_cases locator c v in
      reckon_as_loop (suc fuel) _ refl
      ∙ loop_returns_iff enough fuel c.listening_addresses refl listening w
