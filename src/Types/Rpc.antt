-- ===== src/Types/Rpc.antt =====
-- RpcTopic of ddspipe/ddspipe_core/src/cpp/types/topic/rpc/RpcTopic.cpp: how a topic is recognised
-- as one half of a service, and how the other half is named.
pub mod Recognise
use Prim.Native.Char.{Char}
use Prim.Native.String.{String, ◌++◌}
use ddsproxy.Common.{
  ℕ, zero, suc, ◌-◌, Bool, ◌&&◌, ◌||◌, Option, none, some, List, [], ◌∷◌, length, if◌then◌else◌,
  string_key, ◌<?◌,
}
use ddsproxy.Types.Search.{codes, is_prefix, ends_before}
use ddsproxy.Types.Topic.{DdsTopic, internal_topic_type_rpc}

abbrev pub request_prefix_str : String
request_prefix_str = "rq/"

abbrev pub reply_prefix_str : String
reply_prefix_str = "rr/"

abbrev pub request_str : String
request_str = "Request"

abbrev pub reply_str : String
reply_str = "Reply"

abbrev pub response_str : String
response_str = "Response"

pub record RpcTopic : Type 0 where
  pub service_name : String
  pub request_topic : DdsTopic
  pub reply_topic : DdsTopic

unfoldable pub is_request_topic : DdsTopic → Bool
unfolding is_prefix ends_before
is_request_topic topic =
    is_prefix (codes request_prefix_str) (codes topic.m_topic_name)
    && (ends_before (codes request_str) 0 (codes topic.m_topic_name)
        && ends_before (codes request_str) 1 (codes topic.type_name))

unfoldable pub is_reply_topic : DdsTopic → Bool
unfolding is_prefix ends_before
is_reply_topic topic =
    is_prefix (codes reply_prefix_str) (codes topic.m_topic_name)
    && (ends_before (codes reply_str) 0 (codes topic.m_topic_name)
        && ends_before (codes response_str) 1 (codes topic.type_name))

unfoldable pub is_service_topic : DdsTopic → Bool
unfolding is_request_topic is_reply_topic
is_service_topic topic = is_request_topic topic || is_reply_topic topic

-- The length of the first word of the list that the text begins with.
unfoldable pub match_word : List String → String → Option ℕ
unfolding is_prefix
match_word [] s = none
match_word (w ∷ ws) s =
    if is_prefix (codes w) (codes s) then some (length (codes w)) else match_word ws s

-- `std::regex_replace(s, std::regex(w1 + "|" + w2 ...), to)` for words, from left to right; the
-- first argument counts the characters of a match that are still to be passed over.
unfoldable pub replace_from : ℕ → List String → String → String → String
unfolding match_word
replace_from k words to String.[] = String.[]
replace_from (suc k) words to (String.◌∷◌ c s) = replace_from k words to s
replace_from zero words to (String.◌∷◌ c s) = elim (match_word words (String.◌∷◌ c s)) [
  | none ↦ String.◌∷◌ c (replace_from zero words to s)
  | some n ↦ to ++ replace_from (n - 1) words to s
]

abbrev pub regex_replace : String → List String → String → String
regex_replace s words to = replace_from zero words to s

-- The constructor from one of the two topics; `none` where the code aborts.
unfoldable pub make_rpc_topic : DdsTopic → Option RpcTopic
unfolding is_request_topic is_reply_topic replace_from
make_rpc_topic topic =
    if is_request_topic topic
    then some (record {
      service_name = regex_replace topic.m_topic_name (request_prefix_str ∷ request_str ∷ []) "";
      request_topic = record topic { m_internal_type_discriminator = internal_topic_type_rpc };
      reply_topic = record topic {
        m_topic_name =
            regex_replace
              (regex_replace topic.m_topic_name (request_prefix_str ∷ []) reply_prefix_str)
              (request_str ∷ []) reply_str;
        type_name = regex_replace topic.type_name (request_str ∷ []) response_str;
        m_internal_type_discriminator = internal_topic_type_rpc;
      };
    })
    else if is_reply_topic topic
    then some (record {
      service_name = regex_replace topic.m_topic_name (reply_prefix_str ∷ reply_str ∷ []) "";
      request_topic = record topic {
        m_topic_name =
            regex_replace
              (regex_replace topic.m_topic_name (reply_prefix_str ∷ []) request_prefix_str)
              (reply_str ∷ []) request_str;
        type_name = regex_replace topic.type_name (response_str ∷ []) request_str;
        m_internal_type_discriminator = internal_topic_type_rpc;
      };
      reply_topic = record topic { m_internal_type_discriminator = internal_topic_type_rpc };
    })
    else none

-- `RpcTopic::operator <`
unfoldable pub rpc_before : RpcTopic → RpcTopic → Bool
rpc_before a b = a.service_name <? b.service_name
