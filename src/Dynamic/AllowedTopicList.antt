-- ===== src/Dynamic/AllowedTopicList.antt =====
-- AllowedTopicList of ddspipe/ddspipe_core/src/cpp/dynamic/AllowedTopicList.cpp: which topics and
-- services may be forwarded.
pub mod Meaning
use Prim.Native.String.{String}
use ddsproxy.Common.{Bool, true, false, ◌&&◌, List, [], ◌∷◌, if◌then◌else◌, any}
use ddsproxy.Types.Topic.{DdsTopic}
use ddsproxy.Types.Rpc.{RpcTopic}
use ddsproxy.Types.Filter.{
  WildcardDdsFilterTopic, AnyTopic, dds_topic, same_filter, filter_before, contains, matches,
}

pub record AllowedTopicList : Type 0 where
  pub allowlist : List WildcardDdsFilterTopic
  pub blocklist : List WildcardDdsFilterTopic

-- `insert` and `erase` of `std::set<Heritable<IFilterTopic>>`; an element that is there stays.
unfoldable pub insert_filter :
    WildcardDdsFilterTopic → List WildcardDdsFilterTopic → List WildcardDdsFilterTopic
insert_filter f [] = f ∷ []
insert_filter f (g ∷ gs) =
    if same_filter f g
    then g ∷ gs
    else if filter_before f g
    then f ∷ g ∷ gs
    else g ∷ insert_filter f gs

unfoldable pub erase_filter :
    WildcardDdsFilterTopic → List WildcardDdsFilterTopic → List WildcardDdsFilterTopic
erase_filter f [] = []
erase_filter f (g ∷ gs) = if same_filter f g then erase_filter f gs else g ∷ erase_filter f gs

unfoldable pub erase_filters :
    List WildcardDdsFilterTopic → List WildcardDdsFilterTopic → List WildcardDdsFilterTopic
unfolding erase_filter
erase_filters [] gs = gs
erase_filters (f ∷ fs) gs = erase_filters fs (erase_filter f gs)

-- The inner loop: whether to add the filter, and which stored ones it makes superfluous.
unfoldable pub compare_with :
    WildcardDdsFilterTopic → List WildcardDdsFilterTopic → Bool × List WildcardDdsFilterTopic
unfolding contains
compare_with new_topic [] = (true, [])
compare_with new_topic (stored ∷ rest) =
    let (add_it, repeated) = compare_with new_topic rest in
    if contains stored new_topic
    then (false, [])
    else if contains new_topic stored
    then (add_it, stored ∷ repeated)
    else (add_it, repeated)

unfoldable pub add_without_repetition :
    List WildcardDdsFilterTopic → WildcardDdsFilterTopic → List WildcardDdsFilterTopic
unfolding compare_with erase_filters insert_filter
add_without_repetition stored new_topic =
    let (add_it, repeated) = compare_with new_topic stored in
    let rest = erase_filters repeated stored in
    if add_it then insert_filter new_topic rest else rest

unfoldable pub without_repetition_from :
    List WildcardDdsFilterTopic → List WildcardDdsFilterTopic → List WildcardDdsFilterTopic
unfolding add_without_repetition
without_repetition_from stored [] = stored
without_repetition_from stored (f ∷ fs) =
    without_repetition_from (add_without_repetition stored f) fs

unfoldable pub get_topic_list_without_repetition :
    List WildcardDdsFilterTopic → List WildcardDdsFilterTopic
unfolding without_repetition_from
get_topic_list_without_repetition list = without_repetition_from [] list

unfoldable pub make_allowed_topic_list :
    List WildcardDdsFilterTopic → List WildcardDdsFilterTopic → AllowedTopicList
unfolding get_topic_list_without_repetition
make_allowed_topic_list allowlist blocklist = record {
  allowlist = get_topic_list_without_repetition allowlist;
  blocklist = get_topic_list_without_repetition blocklist;
}

unfoldable pub clear : AllowedTopicList → AllowedTopicList
clear l = record { allowlist = []; blocklist = [] }

abbrev pub is_empty {ℓ} : {A : Type ℓ} → List A → Bool
is_empty [] = true
is_empty (x ∷ xs) = false

module _ (match_pattern : String → String → Bool) where
  unfoldable pub is_topic_allowed : AllowedTopicList → AnyTopic → Bool
  unfolding matches
  is_topic_allowed l topic =
      let accepted =
        if any (λ f. matches match_pattern f topic) l.allowlist
        then true
        else is_empty l.allowlist in
      if accepted
      then (if any (λ f. matches match_pattern f topic) l.blocklist then false else true)
      else false

  unfoldable pub is_service_allowed : AllowedTopicList → RpcTopic → Bool
  unfolding is_topic_allowed
  is_service_allowed l topic =
      is_topic_allowed l (dds_topic topic.request_topic)
      && is_topic_allowed l (dds_topic topic.reply_topic)

-- `operator ==` of two sets.
unfoldable pub same_filters : List WildcardDdsFilterTopic → List WildcardDdsFilterTopic → Bool
same_filters [] [] = true
same_filters [] (g ∷ gs) = false
same_filters (f ∷ fs) [] = false
same_filters (f ∷ fs) (g ∷ gs) = same_filter f g && same_filters fs gs

unfoldable pub same_allowed_topics : AllowedTopicList → AllowedTopicList → Bool
unfolding same_filters
same_allowed_topics a b =
    same_filters a.allowlist b.allowlist && same_filters a.blocklist b.blocklist
