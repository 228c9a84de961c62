-- ===== src/Dynamic/AllowedTopicList/Meaning.antt =====
-- What an AllowedTopicList made of two sets of filters lets through.
use Prim.Native.String.{String}
use ddsproxy.Common.{
  ◌≡◌, refl, ◌∙◌, Bool, true, false, not, ◌&&◌, ◌||◌, List, [], ◌∷◌, arith, any, All,
}
use ddsproxy.Types.Filter.{WildcardDdsFilterTopic, AnyTopic, same_filter, matches}
use ddsproxy.Dynamic.AllowedTopicList.{
  insert_filter, erase_filters, compare_with, add_without_repetition, is_empty,
  without_repetition_from, get_topic_list_without_repetition, make_allowed_topic_list,
  is_topic_allowed,
}

-- A `std::set` of filters holds no two that are printed alike.
abbrev pub Distinct : List WildcardDdsFilterTopic → Type 0
Distinct [] = Unit {0}
Distinct (f ∷ fs) = All (λ g. same_filter g f ≡ false) fs × Distinct fs

any-insert_filter :
    (p : WildcardDdsFilterTopic → Bool) (f : WildcardDdsFilterTopic)
    (gs : List WildcardDdsFilterTopic)
    → any (same_filter f) gs ≡ false
    → any p (insert_filter f gs) ≡ (p f || any p gs)
unfolding insert_filter
any-insert_filter p f [] h = refl
any-insert_filter p f (g ∷ gs) h = ground (arith, any-insert_filter p f gs)

-- No wildcard filter is found to contain another, so each new one is only inserted.
add-insert_filter :
    (stored : List WildcardDdsFilterTopic) (f : WildcardDdsFilterTopic)
    → add_without_repetition stored f ≡ insert_filter f stored
unfolding add_without_repetition erase_filters
add-insert_filter stored f = rw (compare_none stored) refl
  where
    compare_none : (gs : List WildcardDdsFilterTopic) → compare_with f gs ≡ (true, [])
    compare_none [] = refl
    compare_none (g ∷ gs) = rw (compare_none gs) refl

apart :
    (f : WildcardDdsFilterTopic) (stored fs : List WildcardDdsFilterTopic)
    → any (same_filter f) stored ≡ false
    → All (λ g. same_filter g f ≡ false) fs
    → All (λ g. any (same_filter g) stored ≡ false) fs
    → All (λ g. any (same_filter g) (insert_filter f stored) ≡ false) fs
apart f stored [] h d a = tt
apart f stored (g ∷ fs) h d a =
    (rw (any-insert_filter (same_filter g) f stored h) (ground arith), apart f stored fs h d.1 a.1)

any-without_repetition_from :
    (p : WildcardDdsFilterTopic → Bool) (stored fs : List WildcardDdsFilterTopic)
    → Distinct fs
    → All (λ f. any (same_filter f) stored ≡ false) fs
    → any p (without_repetition_from stored fs) ≡ (any p stored || any p fs)
unfolding without_repetition_from
any-without_repetition_from p stored [] d a = ground arith
any-without_repetition_from p stored (f ∷ fs) d a = rw (add-insert_filter stored f) (
    any-without_repetition_from p (insert_filter f stored) fs d.1 (apart f stored fs a.0 d.0 a.1)
    ∙ rw (any-insert_filter p f stored a.0) (ground arith))

any-get_topic_list :
    (p : WildcardDdsFilterTopic → Bool) (fs : List WildcardDdsFilterTopic)
    → Distinct fs
    → any p (get_topic_list_without_repetition fs) ≡ any p fs
unfolding get_topic_list_without_repetition
any-get_topic_list p fs d = any-without_repetition_from p [] fs d (nothing fs)
  where
    nothing : (gs : List WildcardDdsFilterTopic) → All (λ f. any (same_filter f) [] ≡ false) gs
    nothing [] = tt
    nothing (g ∷ gs) = (refl, nothing gs)

is_empty-any : (fs : List WildcardDdsFilterTopic) → is_empty fs ≡ not (any (λ f. true) fs)
is_empty-any [] = refl
is_empty-any (f ∷ fs) = refl

-- Removing repetitions changes no verdict: a topic is allowed exactly if the allowlist is empty or
-- one of its filters matches, and no filter of the blocklist matches.
pub is_topic_allowed-make :
    (match_pattern : String → String → Bool) (allow block : List WildcardDdsFilterTopic)
    (t : AnyTopic)
    → Distinct allow
    → Distinct block
    → is_topic_allowed match_pattern (make_allowed_topic_list allow block) t ≡ (
        (is_empty allow || any (λ f. matches match_pattern f t) allow)
        && not (any (λ f. matches match_pattern f t) block))
unfolding is_topic_allowed make_allowed_topic_list
is_topic_allowed-make match_pattern allow block t d e = ground (
  arith,
  any-get_topic_list (λ f. matches match_pattern f t) allow d,
  any-get_topic_list (λ f. matches match_pattern f t) block e,
  any-get_topic_list (λ f. true) allow d,
  is_empty-any allow,
  is_empty-any (get_topic_list_without_repetition allow),
)
