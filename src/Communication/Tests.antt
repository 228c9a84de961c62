-- ===== src/Communication/Tests.antt =====
-- The bridge of a topic with three participants.
use Prim.Native.String.{String}
use ddsproxy.Common.{All}
use ddsproxy.Common.{ℕ, ◌≡◌, refl, Bool, true, false, ◌&&◌, List, [], ◌∷◌, ◌++◌, string_key}
use ddsproxy.Common.Map.{Map, OnceEach, find, insert, has}
use ddsproxy.Common.Set.{member}
use ddsproxy.Configuration.{RoutesMap, ManualTopic}
use ddsproxy.Configuration.{are_valid_routes}
use ddsproxy.Configuration.Validity.{are_valid_routes_iff}
use ddsproxy.Types.Filter.{WildcardDdsFilterTopic}
use ddsproxy.Types.Fuzzy.{fuzzy_level_hard, fuzzy_level_fuzzy}
use ddsproxy.Types.TopicQos.{TopicQos, set_default_qos, set_if_weaker}
use ddsproxy.Types.Topic.{DdsTopic, internal_topic_type_rtps}
use ddsproxy.Dynamic.ParticipantsDatabase.{
  Participant, ParticipantsDatabase, get_participant, get_participants_ids,
  get_participants_repeater_map,
}
use ddsproxy.Communication.Attempt.{Attempt, made, init_failed, null_pointer}
use ddsproxy.Communication.DdsBridge
use ddsproxy.Common.Map
use ddsproxy.Common.Set
use ddsproxy.Communication.DdsBridge.{DdsBridge, create_topic_for_participant}
use ddsproxy.Communication.DdsBridge.Creation.{new_bridge, make}
use ddsproxy.Communication.DdsBridge.Routes.{forwards, reaches}
use ddsproxy.Communication.DdsBridge.Calls.{
  Call, enables, disables, creates, removes, masters, actives, actives_at_start, run, run-forwards,
}
use ddsproxy.Communication.DdsBridge.Tracks.{Fits}
use ddsproxy.Communication.DdsBridge.Uniform.{run-make-Uniform}
use ddsproxy.Communication.DdsBridge.Total.{make-Returns}
use ddsproxy.Communication.DdsBridge.Selection.{Returns}
use ddsproxy.Communication.DdsBridge.Qos.{
  applicable, resolve_qos, create_topic_for_participant-resolve_qos,
}

abbrev square : DdsTopic
unfolding set_default_qos
square = record {
  m_topic_name = "Square";
  m_internal_type_discriminator = internal_topic_type_rtps;
  m_topic_discoverer = "lan";
  topic_qos = set_default_qos;
  type_name = "ShapeType";
}

abbrev participant : String → Bool → Participant
unfolding set_default_qos
participant id repeats = record {
  id = id;
  is_rtps_kind = true;
  is_repeater = repeats;
  topic_qos = set_default_qos;
}

abbrev participants : ParticipantsDatabase
participants =
    ("echo", participant "echo" true)
    ∷ ("lan", participant "lan" false)
    ∷ ("wan", participant "wan" false)
    ∷ []

-- The reader of lan forwards to wan only; the others have no route.
abbrev routes : RoutesMap
routes = ("lan", "wan" ∷ []) ∷ []

accepts : Participant → DdsTopic → Bool
accepts p t = true

abbrev calls : List Call
calls = enables ∷ creates "echo" ∷ creates "wan" ∷ removes "lan" ∷ disables ∷ masters true ∷ []

-- A bridge that is made, or else one without tracks.
given : Attempt DdsBridge → DdsBridge
given (made b) = b
given init_failed = new_bridge participants square routes false []
given null_pointer = new_bridge participants square routes false []

abbrev first_bridge : DdsBridge
first_bridge = given (make accepts accepts false participants square routes true false [])

abbrev last_bridge : DdsBridge
last_bridge = given (run accepts accepts false calls first_bridge)

last_bridge-forwards :
    (forwards last_bridge "lan" "wan" ≡ true)
    × (forwards last_bridge "lan" "echo" ≡ false)
    × (forwards last_bridge "echo" "echo" ≡ true)
    × (forwards last_bridge "wan" "lan" ≡ false)
unfolding given accepts make run find get_participant DdsBridge.enable square get_participants_ids
    Set.insert Map.erase insert Map.replace DdsBridge.change_master_flag DdsBridge.disable
    DdsBridge.remove_writer has
last_bridge-forwards = (refl, refl, refl, refl)

run-forwards_example : forwards last_bridge "echo" "wan" ≡ (
    actives calls (actives_at_start participants square true) "wan"
    && (member "echo" (get_participants_ids participants)
        && reaches (new_bridge participants square routes false []) "echo" "wan"))
unfolding given accepts make run find get_participant DdsBridge.enable square get_participants_ids
    Set.insert Map.erase insert Map.replace DdsBridge.change_master_flag DdsBridge.disable
    DdsBridge.remove_writer has
run-forwards_example =
    run-forwards accepts accepts false participants square routes true false [] calls first_bridge
      last_bridge (refl, (refl, (refl, tt))) refl refl "echo" "wan"

run-make-Uniform_example : All (Fits last_bridge.enabled last_bridge.master_flag) last_bridge.tracks
unfolding given accepts make run find get_participant DdsBridge.enable square get_participants_ids
    Set.insert Map.erase insert Map.replace DdsBridge.change_master_flag DdsBridge.disable
    DdsBridge.remove_writer has
run-make-Uniform_example =
    run-make-Uniform accepts accepts false participants square routes true false [] calls
      first_bridge last_bridge refl refl

make-Returns_example : Returns (make accepts accepts false participants square routes false true [])
unfolding accepts find has get_participants_repeater_map insert are_valid_routes participant square
make-Returns_example =
    make-Returns accepts accepts false (λ p t. refl) (λ p t. refl) participants square routes false
      true [] (refl, (refl, (refl, tt)))
      ((are_valid_routes_iff (get_participants_repeater_map participants) routes).0 refl)
      (λ other. refl)

-- The first manual topic is for wan only, the second for all.
abbrev deep : ℕ → TopicQos
unfolding set_default_qos
deep n = record set_default_qos {
  history_depth = record { value = n; fuzzy_level = fuzzy_level_hard };
}

abbrev wildcard : ℕ → WildcardDdsFilterTopic
wildcard n = record {
  topic_name = record { value = "*"; fuzzy_level = fuzzy_level_fuzzy };
  type_name = record { value = "*"; fuzzy_level = fuzzy_level_fuzzy };
  topic_qos = record { value = deep n; fuzzy_level = fuzzy_level_fuzzy };
}

abbrev manual : List ManualTopic
manual = (wildcard 10, "wan" ∷ []) ∷ (wildcard 20, []) ∷ []

depth_for_wan :
    (create_topic_for_participant manual square
      (participant "wan" false)).topic_qos.history_depth.value
    ≡ 10
unfolding create_topic_for_participant square set_default_qos set_if_weaker member
depth_for_wan = refl

depth_for_echo :
    (create_topic_for_participant manual square
      (participant "echo" true)).topic_qos.history_depth.value
    ≡ 20
unfolding create_topic_for_participant square set_default_qos set_if_weaker member
depth_for_echo = refl

create_topic_for_participant-resolve_qos_example :
    create_topic_for_participant manual square (participant "echo" true) ≡ record square {
      topic_qos = resolve_qos square.topic_qos (
          applicable manual (participant "echo" true).id
          ++ ((participant "echo" true).topic_qos ∷ []));
    }
create_topic_for_participant-resolve_qos_example =
    create_topic_for_participant-resolve_qos manual square (participant "echo" true)
