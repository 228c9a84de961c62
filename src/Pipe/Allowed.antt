-- ===== src/Pipe/Allowed.antt =====
-- That DdsPipe.cpp keeps exactly the allowed topics active, and their bridges with them, as long as
-- it is enabled.
use Prim.Native.String.{String}
use mathlib.Core.Path.{subst}
use ddsproxy.Common.{
  ◌≡◌, ◌≢◌, refl, sym, ◌∙◌, ap, inl, inr, Bool, false, ◌&&◌, some, List, [], ◌∷◌, arith, string_key,
  ◌==◌, Bool-cases, beq→eq, beq_refl, beq_ne, any,
}
use ddsproxy.Common.Map.{Map, find, OnceEach, has, has_of_some}
use ddsproxy.Types.Topic.{DdsTopic, topic_unique_name}
use ddsproxy.Types.Filter.{WildcardDdsFilterTopic, matches, dds_topic}
use ddsproxy.Dynamic.AllowedTopicList.{is_topic_allowed}
use ddsproxy.Pipe.Interfaces.{BridgeOps, RpcBridgeOps, BridgeLaws}
use ddsproxy.Pipe.{DdsPipe, set_current, is_allowed}
use ddsproxy.Pipe.Flags.{
  find-set_current, set_current_cases, Sets, Follows, Sets-Follows, same_entry,
}

-- The topics of a run: two of the same unique name have the same name and the same type name.
abbrev pub Distinguished : (DdsTopic → Type 0) → Type 0
Distinguished Seen =
    (t u : DdsTopic)
    → Seen t
    → Seen u
    → topic_unique_name t ≡ topic_unique_name u
    → (t.m_topic_name ≡ u.m_topic_name) × (t.type_name ≡ u.type_name)

any-matches :
    (match_pattern : String → String → Bool) (t u : DdsTopic) (fs : List WildcardDdsFilterTopic)
    → t.m_topic_name ≡ u.m_topic_name
    → t.type_name ≡ u.type_name
    → any (λ f. matches match_pattern f (dds_topic t)) fs
      ≡ any (λ f. matches match_pattern f (dds_topic u)) fs
unfolding matches
any-matches match_pattern t u [] e h = refl
any-matches match_pattern t u (f ∷ fs) e h = rw (e, h, any-matches match_pattern t u fs e h) refl

module _ {Bridge RpcBridge : Type 0} (ops : BridgeOps Bridge) (rpc : RpcBridgeOps RpcBridge)
    (match_pattern : String → String → Bool) (laws : BridgeLaws ops) (Seen : DdsTopic → Type 0)
    (distinguished : Distinguished Seen) where
  abbrev pub allowed : DdsPipe Bridge RpcBridge → DdsTopic → Bool
  allowed p t = is_allowed ops rpc match_pattern p t

  pub allowed_same :
      (p : DdsPipe Bridge RpcBridge) (t u : DdsTopic)
      → Seen t
      → Seen u
      → topic_unique_name t ≡ topic_unique_name u
      → allowed p t ≡ allowed p u
  unfolding is_allowed is_topic_allowed
  allowed_same p t u seen_t seen_u e =
      let (names, types) = distinguished t u seen_t seen_u e in
      ground (
        arith,
        any-matches match_pattern t u p.allowed_topics.allowlist names types,
        any-matches match_pattern t u p.allowed_topics.blocklist names types,
      )

  -- The flags follow the list of allowed topics.
  pub record Consistent (p : DdsPipe Bridge RpcBridge) : Type 0 where
    pub bridges : Follows ops rpc match_pattern laws Seen p
    pub flags :
        (k : String) (t : DdsTopic) (a : Bool)
        → find k p.current_topics ≡ some (t, a)
        → a ≡ (p.enabled && allowed p t)

  -- The flags in the middle of a loop over topics, of which the entries of `rest` still come.
  pub record Underway (rest : Map String (DdsTopic × Bool)) (p : DdsPipe Bridge RpcBridge)
      : Type 0 where
    pub bridges : Follows ops rpc match_pattern laws Seen p
    pub once : OnceEach rest
    pub stored :
        (k : String) (t : DdsTopic) (a : Bool)
        → find k rest ≡ some (t, a)
        → find k p.current_topics ≡ some (t, a)
    pub done :
        (k : String) (t : DdsTopic) (a : Bool)
        → find k p.current_topics ≡ some (t, a)
        → has k rest ≡ false
        → a ≡ (p.enabled && allowed p t)

  pub begins :
      (p : DdsPipe Bridge RpcBridge)
      → Follows ops rpc match_pattern laws Seen p
      → Underway p.current_topics p
  begins p f = record {
    bridges = f;
    once = f.once;
    stored = λ k t a e. e;
    done = λ k t a e h. absurd (cc (h, has_of_some k p.current_topics e));
  }

  pub ends : (p : DdsPipe Bridge RpcBridge) → Underway [] p → Consistent p
  unfolding has
  ends p u = record { bridges = u.bridges; flags = λ k t a e. u.done k t a e refl }

  head_named :
      (n : String) (t : DdsTopic) (b : Bool) (rest : Map String (DdsTopic × Bool))
      (p : DdsPipe Bridge RpcBridge)
      → Underway ((n, (t, b)) ∷ rest) p
      → (topic_unique_name t ≡ n) × Seen t
  unfolding find
  head_named n t b rest p u = u.bridges.named n t b (u.stored n t b (rw (beq_refl n) refl))

  tail_stored :
      (n : String) (t : DdsTopic) (b : Bool) (rest : Map String (DdsTopic × Bool))
      (p : DdsPipe Bridge RpcBridge)
      → Underway ((n, (t, b)) ∷ rest) p
      → (k : String) (v : DdsTopic) (a : Bool) → find k rest ≡ some (v, a)
      → (find k p.current_topics ≡ some (v, a)) × (k ≢ n)
  unfolding find
  tail_stored n t b rest p u k v a e = (u.stored k v a (rw (beq_ne k n other) e), other)
    where
      other : k ≢ n
      other same = cc (u.once.0, has_of_some k rest e)

  -- One round that leaves a topic alone whose flag is right.
  pub stays :
      (n : String) (t : DdsTopic) (b : Bool) (rest : Map String (DdsTopic × Bool))
      (p : DdsPipe Bridge RpcBridge)
      → Underway ((n, (t, b)) ∷ rest) p
      → b ≡ (p.enabled && allowed p t)
      → Underway rest p
  unfolding find has
  stays n t b rest p u right = record {
    bridges = u.bridges;
    once = u.once.1;
    stored = λ k v a e. (tail_stored n t b rest p u k v a e).0;
    done = λ k v a e h. elim (Bool-cases (k == n)) [
      | inl same ↦ at_head k v a e (beq→eq k n same)
      | inr other ↦ u.done k v a e (rw (other, h) refl)
    ];
  }
    where
      at_head :
          (k : String) (v : DdsTopic) (a : Bool)
          → find k p.current_topics ≡ some (v, a)
          → k ≡ n
          → a ≡ (p.enabled && allowed p v)
      at_head k v a e same =
          let (is_v, is_a) = same_entry {x = (v, a)} {y = (t, b)} (
            sym e
            ∙ (ap (λ j. find j p.current_topics) same ∙ u.stored n t b (rw (beq_refl n) refl))) in
          is_a ∙ (right ∙ ap (λ w. p.enabled && allowed p w) (sym is_v))

  -- One round that sets the flag of a topic.
  pub sets :
      (n : String) (t : DdsTopic) (b a : Bool) (rest : Map String (DdsTopic × Bool))
      (p p' : DdsPipe Bridge RpcBridge)
      → Underway ((n, (t, b)) ∷ rest) p
      → Sets ops rpc match_pattern laws t a p p'
      → a ≡ (p.enabled && allowed p t)
      → Underway rest p'
  unfolding is_allowed has
  sets n t b a rest p p' u s right =
      let (name, seen) = head_named n t b rest p u in
      let f = Sets-Follows ops rpc match_pattern laws Seen t a p p' seen s u.bridges in
      let f' : Follows ops rpc match_pattern laws Seen
          (record p { current_topics = set_current t a p.current_topics; bridges = s.bridges' }) =
        subst (Follows ops rpc match_pattern laws Seen) s.is f in
      subst (Underway rest) (sym s.is) (record {
        bridges = f';
        once = u.once.1;
        stored = λ k v c e.
            let (before, other) = tail_stored n t b rest p u k v c e in
            rw
              (
                find-set_current t a p.current_topics k,
                beq_ne k (topic_unique_name t) (λ h. other (h ∙ name)),
              )
              before;
        done = λ k v c e h. elim (set_current_cases t a p.current_topics k v c e) [
          | inl (same, _, is_a) ↦
              let (named, seen_v) = f'.named k v c e in
              sym is_a
              ∙ (right
                  ∙ ap (λ w. p.enabled && w)
                      (allowed_same p t v seen seen_v (sym same ∙ sym named)))
          | inr (other, before) ↦
              u.done k v c before (rw (beq_ne k n (λ i. other (i ∙ sym name)), h) refl)
        ];
      })
