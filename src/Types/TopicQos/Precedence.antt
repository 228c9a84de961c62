-- ===== src/Types/TopicQos/Precedence.antt =====
-- Which Topic QoS wins when several are imposed on a topic.
use ddsproxy.Common.{
  true, false, ◌≡◌, refl, ◌∙◌, List, [], ◌∷◌, map, if◌then◌else◌, Bool-cases, inl, inr,
}
use ddsproxy.Common.Int.{◌<ℤ?◌}
use ddsproxy.Types.Fuzzy.{Fuzzy, fuzzy_level_hard, is_set, set_value}
use ddsproxy.Types.TopicQos.{TopicQos, set_if_weaker, set_qos}

-- The QoS of a list imposed one after the other, at the highest level.
unfoldable pub impose : TopicQos → List TopicQos → TopicQos
impose t [] = t
impose t (q ∷ qs) = impose (set_qos t q fuzzy_level_hard) qs

module _ {A : Type 0} where
  -- The first value of the list that is set.
  abbrev pub first_set : Fuzzy A → List (Fuzzy A) → Fuzzy A
  first_set own [] = own
  first_set own (f ∷ fs) =
      if is_set f
      then record { value = f.value; fuzzy_level = fuzzy_level_hard }
      else first_set own fs

  -- A value set at the highest level stays; any other gives way to the first of the list that is
  -- set.
  abbrev pub resolve : Fuzzy A → List (Fuzzy A) → Fuzzy A
  resolve own fs = if own.fuzzy_level <ℤ? fuzzy_level_hard then first_set own fs else own

  abbrev impose_field : Fuzzy A → List (Fuzzy A) → Fuzzy A
  impose_field own [] = own
  impose_field own (f ∷ fs) = impose_field (set_if_weaker fuzzy_level_hard own f) fs

  impose_field-hard :
      (own : Fuzzy A) (fs : List (Fuzzy A))
      → (own.fuzzy_level <ℤ? fuzzy_level_hard) ≡ false
      → impose_field own fs ≡ own
  unfolding set_if_weaker
  impose_field-hard own [] h = refl
  impose_field-hard own (f ∷ fs) h = rw h (impose_field-hard own fs h)

  impose_field-weak :
      (own : Fuzzy A) (fs : List (Fuzzy A))
      → (own.fuzzy_level <ℤ? fuzzy_level_hard) ≡ true
      → impose_field own fs ≡ first_set own fs
  unfolding set_if_weaker set_value
  impose_field-weak own [] h = refl
  impose_field-weak own (f ∷ fs) h = elim (Bool-cases (is_set f)) [
    | inl e ↦
        rw (h, e)
          (impose_field-hard (record { value = f.value; fuzzy_level = fuzzy_level_hard }) fs refl)
    | inr e ↦ rw (h, e) (impose_field-weak own fs h)
  ]

  impose_field_lem : (own : Fuzzy A) (fs : List (Fuzzy A)) → impose_field own fs ≡ resolve own fs
  impose_field_lem own fs = elim (Bool-cases (own.fuzzy_level <ℤ? fuzzy_level_hard)) [
    | inl e ↦ rw e (impose_field-weak own fs e)
    | inr e ↦ rw e (impose_field-hard own fs e)
  ]

impose-fields :
    (t : TopicQos) (qs : List TopicQos)
    → impose t qs ≡ record {
      durability_qos = impose_field t.durability_qos (map (λ q. q.durability_qos) qs);
      reliability_qos = impose_field t.reliability_qos (map (λ q. q.reliability_qos) qs);
      ownership_qos = impose_field t.ownership_qos (map (λ q. q.ownership_qos) qs);
      use_partitions = impose_field t.use_partitions (map (λ q. q.use_partitions) qs);
      keyed = impose_field t.keyed (map (λ q. q.keyed) qs);
      history_depth = impose_field t.history_depth (map (λ q. q.history_depth) qs);
      max_tx_rate = impose_field t.max_tx_rate (map (λ q. q.max_tx_rate) qs);
      max_rx_rate = impose_field t.max_rx_rate (map (λ q. q.max_rx_rate) qs);
      downsampling = impose_field t.downsampling (map (λ q. q.downsampling) qs);
      transport_priority = impose_field t.transport_priority (map (λ q. q.transport_priority) qs);
    }
unfolding impose set_qos
impose-fields t [] = refl
impose-fields t (q ∷ qs) = impose-fields (set_qos t q fuzzy_level_hard) qs

-- Imposing a list of Topic QoS sets each field to its first value in the list that is set, and
-- leaves a field alone that is at the highest level already or that no QoS of the list sets.
pub impose-resolve :
    (t : TopicQos) (qs : List TopicQos)
    → impose t qs ≡ record {
      durability_qos = resolve t.durability_qos (map (λ q. q.durability_qos) qs);
      reliability_qos = resolve t.reliability_qos (map (λ q. q.reliability_qos) qs);
      ownership_qos = resolve t.ownership_qos (map (λ q. q.ownership_qos) qs);
      use_partitions = resolve t.use_partitions (map (λ q. q.use_partitions) qs);
      keyed = resolve t.keyed (map (λ q. q.keyed) qs);
      history_depth = resolve t.history_depth (map (λ q. q.history_depth) qs);
      max_tx_rate = resolve t.max_tx_rate (map (λ q. q.max_tx_rate) qs);
      max_rx_rate = resolve t.max_rx_rate (map (λ q. q.max_rx_rate) qs);
      downsampling = resolve t.downsampling (map (λ q. q.downsampling) qs);
      transport_priority = resolve t.transport_priority (map (λ q. q.transport_priority) qs);
    }
impose-resolve t qs = impose-fields t qs ∙ λ i. record {
  durability_qos = impose_field_lem t.durability_qos (map (λ q. q.durability_qos) qs) i;
  reliability_qos = impose_field_lem t.reliability_qos (map (λ q. q.reliability_qos) qs) i;
  ownership_qos = impose_field_lem t.ownership_qos (map (λ q. q.ownership_qos) qs) i;
  use_partitions = impose_field_lem t.use_partitions (map (λ q. q.use_partitions) qs) i;
  keyed = impose_field_lem t.keyed (map (λ q. q.keyed) qs) i;
  history_depth = impose_field_lem t.history_depth (map (λ q. q.history_depth) qs) i;
  max_tx_rate = impose_field_lem t.max_tx_rate (map (λ q. q.max_tx_rate) qs) i;
  max_rx_rate = impose_field_lem t.max_rx_rate (map (λ q. q.max_rx_rate) qs) i;
  downsampling = impose_field_lem t.downsampling (map (λ q. q.downsampling) qs) i;
  transport_priority = impose_field_lem t.transport_priority (map (λ q. q.transport_priority) qs) i;
}
