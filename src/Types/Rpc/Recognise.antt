-- ===== src/Types/Rpc/Recognise.antt =====
-- Which topics RpcTopic takes for services.
use ddsproxy.Common.{
  ℕ, ◌+◌, ◌<◌, ◌≡◌, ◌≢◌, refl, true, false, none, List, [], ◌∷◌, ◌++◌, arith, length, Option-cases,
  inl, inr,
}
use ddsproxy.Types.Search.{
  codes, is_prefix, last_occurrence, rfind, ends_before, size_mod, prefix-append,
  last_occurrence_bound, ends_before-append,
}
use ddsproxy.Types.Topic.{DdsTopic}
use ddsproxy.Types.Rpc.{is_request_topic, is_reply_topic}

-- A topic that is recognised as a request has a name that starts with "rq/" and ends in
-- "Request", and a type name that ends in "Request" and one more character, unless its name has
-- 6 characters or its type name 7. Both are shorter than the address space.
pub is_request_topic-append :
    (t : DdsTopic)
    → is_request_topic t ≡ true
    → length (codes t.m_topic_name) + 1 < size_mod
    → length (codes t.type_name) + 1 < size_mod
    → length (codes t.m_topic_name) ≢ 6
    → length (codes t.type_name) ≢ 7
    → ((r : List ℕ) × (codes t.m_topic_name ≡ codes "rq/" ++ r))
      × ((a : List ℕ) × (codes t.m_topic_name ≡ a ++ codes "Request"))
      × ((a b : List ℕ) × (codes t.type_name ≡ a ++ (codes "Request" ++ b)) × (length b ≡ 1))
unfolding is_request_topic
is_request_topic-append t h short_name short_type six seven =
    let (a, b, e, n) =
      ends_before-append (codes "Request") 0 (codes t.m_topic_name) (ground arith) (omega arith)
        (omega arith) (omega arith) (omega arith) in
    (
      prefix-append (codes "rq/") (codes t.m_topic_name) (ground arith),
      (a, at_end a b e n),
      ends_before-append (codes "Request") 1 (codes t.type_name) (ground arith) (omega arith)
          (omega arith) (omega arith) (omega arith),
    )
  where
    at_end :
        (a b : List ℕ)
        → codes t.m_topic_name ≡ a ++ (codes "Request" ++ b)
        → length b ≡ 0
        → codes t.m_topic_name ≡ a ++ codes "Request"
    at_end a [] e n = e
    at_end a (x ∷ b) e n = absurd (omega arith)

-- No topic is recognised both as a request and as a reply.
pub is_request_topic-excludes :
    (t : DdsTopic) → is_request_topic t ≡ true → is_reply_topic t ≡ false
unfolding is_request_topic is_reply_topic
is_request_topic-excludes t h =
    let (r, e) = prefix-append (codes "rq/") (codes t.m_topic_name) (ground arith) in rw e refl

-- The overflow of `npos`: every topic whose name has 6 characters and starts with "rq/", and whose
-- type name has 7 characters without being "Request", is recognised as a request, though neither
-- of them contains that word.
pub is_request_topic_short :
    (t : DdsTopic)
    → is_prefix (codes "rq/") (codes t.m_topic_name) ≡ true
    → length (codes t.m_topic_name) ≡ 6
    → length (codes t.type_name) ≡ 7
    → last_occurrence (codes "Request") (codes t.type_name) ≡ none
    → is_request_topic t ≡ true
unfolding is_request_topic ends_before rfind
is_request_topic_short t pre six seven absent = ground (arith, absent, no_word)
  where
    no_word : last_occurrence (codes "Request") (codes t.m_topic_name) ≡ none
    no_word = elim (Option-cases (last_occurrence (codes "Request") (codes t.m_topic_name))) [
      | inl e ↦ e
      | inr (i, e) ↦
          absurd (omega (arith, last_occurrence_bound (codes "Request") (codes t.m_topic_name) i e))
    ]
