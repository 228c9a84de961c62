-- ===== src/Dynamic/Tests.antt =====
-- The run-time databases at concrete contents.
use Prim.Native.String.{String}
use ddsproxy.Common.{
  ◌≡◌, refl, Bool, true, false, not, ◌&&◌, ◌||◌, none, some, List, [], ◌∷◌, any, string_key, ◌==◌,
}
use ddsproxy.Common.Map.{find, has}
use ddsproxy.Common.Set.{member}
use ddsproxy.Types.Fuzzy.{fuzzy_level_set, fuzzy_level_unset}
use ddsproxy.Types.TopicQos.{set_default_qos}
use ddsproxy.Types.Topic.{DdsTopic, default_participant_id, internal_topic_type_rtps}
use ddsproxy.Types.Filter.{WildcardDdsFilterTopic, dds_topic, matches, same_filter}
use ddsproxy.Dynamic.AllowedTopicList.{is_topic_allowed, make_allowed_topic_list, is_empty}
use ddsproxy.Dynamic.AllowedTopicList.Meaning.{is_topic_allowed-make}
use ddsproxy.Dynamic.ParticipantsDatabase.{
  Participant, ParticipantsDatabase, get_participant, get_participants_ids,
  get_rtps_participants_ids, get_participants_repeater_map,
}
use ddsproxy.Dynamic.ParticipantsDatabase.Contents.{getters-agree}

-- Without wildcards a pattern matches itself only.
literal_match : String → String → Bool
literal_match pattern text = pattern == text

filter : String → WildcardDdsFilterTopic
unfolding set_default_qos
filter name = record {
  topic_name = record { value = name; fuzzy_level = fuzzy_level_set };
  type_name = record { value = ""; fuzzy_level = fuzzy_level_unset };
  topic_qos = record { value = set_default_qos; fuzzy_level = fuzzy_level_unset };
}

abbrev square : DdsTopic
unfolding set_default_qos
square = record {
  m_topic_name = "Square";
  m_internal_type_discriminator = internal_topic_type_rtps;
  m_topic_discoverer = default_participant_id;
  topic_qos = set_default_qos;
  type_name = "ShapeType";
}

abbrev allowed : List WildcardDdsFilterTopic
allowed = filter "Square" ∷ filter "Circle" ∷ []

abbrev block : List WildcardDdsFilterTopic
block = filter "Circle" ∷ []

is_topic_allowed-make_example :
    is_topic_allowed literal_match (make_allowed_topic_list allowed block) (dds_topic square) ≡ (
      (is_empty allowed || any (λ f. matches literal_match f (dds_topic square)) allowed)
      && not (any (λ f. matches literal_match f (dds_topic square)) block))
unfolding filter same_filter
is_topic_allowed-make_example =
    is_topic_allowed-make literal_match allowed block (dds_topic square) ((refl, tt), (tt, tt))
      (tt, tt)

abbrev lan : Participant
unfolding set_default_qos
lan = record { id = "lan"; is_repeater = false; is_rtps_kind = true; topic_qos = set_default_qos }

abbrev wan : Participant
unfolding set_default_qos
wan = record { id = "wan"; is_repeater = true; is_rtps_kind = false; topic_qos = set_default_qos }

abbrev participants : ParticipantsDatabase
participants = ("lan", lan) ∷ ("wan", wan) ∷ []

getters-agree_example :
    (member "wan" (get_participants_ids participants) ≡ has "wan" participants)
    × (member "wan" (get_rtps_participants_ids participants)
        ≡ (elim (get_participant "wan" participants) [ none ↦ false | some p ↦ p.is_rtps_kind ]))
    × (find "wan" (get_participants_repeater_map participants)
        ≡ (elim (get_participant "wan" participants) [ none ↦ none | some p ↦ some p.is_repeater ]))
unfolding has
getters-agree_example = getters-agree participants "wan" (refl, (refl, tt))
