-- ===== src/Pipe/Topics.antt =====
-- What the discovery of a topic in DdsPipe.cpp does to the flags.
use Prim.Native.String.{String}
use mathlib.Core.Path.{subst}
use ddsproxy.Common.{
  ◌≡◌, ◌≢◌, refl, sym, ◌∙◌, ap, inl, inr, Bool, true, false, not, ◌&&◌, none, some, arith,
  if◌then◌else◌, string_key, ◌==◌, Option-cases, Bool-cases, beq→eq, beq_ne,
}
use ddsproxy.Common.Map.{Map, find, insert, find-insert}
use ddsproxy.Types.Topic.{DdsTopic, topic_unique_name, default_participant_id}
use ddsproxy.Pipe.Interfaces.{BridgeOps, RpcBridgeOps, BridgeLaws}
use ddsproxy.Pipe.{DdsPipe, set_current, emplace_current, is_allowed, activate_topic}
use ddsproxy.Pipe.Discovery.{discovered_topic}
use ddsproxy.Pipe.Flags.{
  Sets, Follows, Sets-Follows, set_current_cases, activate_topic-Sets, absent,
}
use ddsproxy.Pipe.Allowed.{Distinguished, Consistent, allowed, allowed_same}
use ddsproxy.Pipe.Serving.{from_some}

module _ {Bridge RpcBridge : Type 0} (ops : BridgeOps Bridge) (rpc : RpcBridgeOps RpcBridge)
    (match_pattern : String → String → Bool) (laws : BridgeLaws ops) (Seen : DdsTopic → Type 0)
    (distinguished : Distinguished Seen) where
  open laws use {is_enabled, create_writer-is_enabled}

  abbrev Good : DdsPipe Bridge RpcBridge → Type 0
  Good p = Consistent ops rpc match_pattern laws Seen distinguished p

  abbrev lets : DdsPipe Bridge RpcBridge → DdsTopic → Bool
  lets p t = allowed ops rpc match_pattern laws Seen distinguished p t

  -- Bridges changed without a change of what is enabled.
  pub Bridged-Good :
      (p : DdsPipe Bridge RpcBridge) (m : Map String Bridge)
      → ((k : String) (b : Bridge)
          → find k m ≡ some b
          → (c : Bridge) × (find k p.bridges ≡ some c) × (is_enabled b ≡ is_enabled c))
      → Good p
      → Good (record p { bridges = m })
  unfolding is_allowed
  Bridged-Good p m h g = record {
    bridges = record {
      once = g.bridges.once;
      named = g.bridges.named;
      follows = λ k b e.
          let (c, there, same) = h k b e in
          let (t, stored) = g.bridges.follows k c there in
          (t, stored ∙ ap (λ a. some (t, a)) (sym same));
    };
    flags = g.flags;
  }

  -- One bridge exchanged for another that is enabled as it was.
  pub exchanged-Good :
      (p : DdsPipe Bridge RpcBridge) (n : String) (b b' : Bridge)
      → find n p.bridges ≡ some b
      → is_enabled b' ≡ is_enabled b
      → Good p
      → Good (record p { bridges = insert n b' p.bridges })
  exchanged-Good p n b b' there same g =
      Bridged-Good p (insert n b' p.bridges)
        (λ k c e. elim (Bool-cases (k == n)) [
          | inl here ↦ (
            b,
            ap (λ j. find j p.bridges) (beq→eq k n here) ∙ there,
            ap is_enabled (from_some (sym e ∙ rw (find-insert k n b' p.bridges, here) refl)) ∙ same,
          )
          | inr other ↦ (c, ground (arith, find-insert k n b' p.bridges), refl)
        ])
        g

  -- The flag of one topic set as it should be, the others being right.
  Sets-Good :
      (t : DdsTopic) (a : Bool) (p p' : DdsPipe Bridge RpcBridge)
      → Seen t
      → Sets ops rpc match_pattern laws t a p p'
      → Follows ops rpc match_pattern laws Seen p
      → ((k : String) (u : DdsTopic) (c : Bool)
          → k ≢ topic_unique_name t
          → find k p.current_topics ≡ some (u, c)
          → c ≡ (p.enabled && lets p u))
      → a ≡ (p.enabled && lets p t)
      → Good p'
  unfolding is_allowed
  Sets-Good t a p p' seen s f rest right =
      let f' : Follows ops rpc match_pattern laws Seen
          (record p { current_topics = set_current t a p.current_topics; bridges = s.bridges' }) =
        subst (Follows ops rpc match_pattern laws Seen) s.is
          (Sets-Follows ops rpc match_pattern laws Seen t a p p' seen s f) in
      subst Good (sym s.is) (record {
        bridges = f';
        flags = λ k v c e. elim (set_current_cases t a p.current_topics k v c e) [
          | inl (same, _, is_a) ↦
              let (named, seen_v) = f'.named k v c e in
              sym is_a
              ∙ (right
                  ∙ ap (λ w. p.enabled && w)
                      (allowed_same ops rpc match_pattern laws Seen distinguished p t v seen seen_v
                        (sym same ∙ sym named)))
          | inr (other, before) ↦ rest k v c other before
        ];
      })

  emplaced :
      (t : DdsTopic) (p : DdsPipe Bridge RpcBridge)
      → find (topic_unique_name t) p.bridges ≡ none
      → find (topic_unique_name t) p.current_topics ≡ none
      → Sets ops rpc match_pattern laws t false p
          (record p { current_topics = emplace_current t p.current_topics })
  unfolding emplace_current set_current
  emplaced t p missing new = record {
    bridges' = p.bridges;
    is = ap with_topics equal;
    others = absent ops rpc match_pattern laws (topic_unique_name t) false p.bridges missing;
  }
    where
      with_topics : Map String (DdsTopic × Bool) → DdsPipe Bridge RpcBridge
      with_topics m = record p { current_topics = m }

      equal : emplace_current t p.current_topics ≡ set_current t false p.current_topics
      equal = rw (new, emplace_current, set_current) refl

  -- A topic without a bridge, after it is in the map.
  activated-Good :
      (t : DdsTopic) (p : DdsPipe Bridge RpcBridge)
      → Seen t
      → Follows ops rpc match_pattern laws Seen p
      → ((k : String) (u : DdsTopic) (c : Bool)
          → k ≢ topic_unique_name t
          → find k p.current_topics ≡ some (u, c)
          → c ≡ (p.enabled && lets p u))
      → (p.enabled && lets p t) ≡ true
      → Good (activate_topic ops rpc match_pattern t p)
  activated-Good t p seen f rest on =
      Sets-Good t true p (activate_topic ops rpc match_pattern t p) seen
        (activate_topic-Sets ops rpc match_pattern laws t p) f rest (sym on)

  find-emplace_current :
      (t : DdsTopic) (m : Map String (DdsTopic × Bool)) (k : String) (x : DdsTopic × Bool)
      → k ≢ topic_unique_name t
      → find k (emplace_current t m) ≡ some x
      → find k m ≡ some x
  unfolding emplace_current
  find-emplace_current t m k x other e = elim (Option-cases (find (topic_unique_name t) m)) [
    | inl new ↦ ground (
      arith,
      new,
      find-insert k (topic_unique_name t) (t, false) m,
      beq_ne k (topic_unique_name t) other,
    )
    | inr (y, there) ↦ ground (arith, there)
  ]

  -- What `discovered_topic` ends with for a topic without a bridge.
  abbrev emplaced_pipe : DdsTopic → DdsPipe Bridge RpcBridge → DdsPipe Bridge RpcBridge
  emplaced_pipe t p = record p { current_topics = emplace_current t p.current_topics }

  new_topic-Good :
      (t : DdsTopic) (p : DdsPipe Bridge RpcBridge)
      → Seen t
      → find (topic_unique_name t) p.bridges ≡ none
      → Good p
      → Good (
          if p.enabled && lets p t
          then activate_topic ops rpc match_pattern t (emplaced_pipe t p)
          else emplaced_pipe t p)
  unfolding is_allowed emplace_current
  new_topic-Good t p seen missing g =
      elim (Option-cases (find (topic_unique_name t) p.current_topics)) [
        | inr ((u, c), there) ↦
            let same : emplace_current t p.current_topics ≡ p.current_topics =
              rw (there, emplace_current) refl in
            subst
              (λ m. Good (
                if p.enabled && lets p t
                then activate_topic ops rpc match_pattern t (record p { current_topics = m })
                else record p { current_topics = m }))
              (sym same)
              (elim (Bool-cases (p.enabled && lets p t)) [
                | inr off ↦
                    subst (λ b. Good (if b then activate_topic ops rpc match_pattern t p else p))
                      (sym off) g
                | inl on ↦
                    subst (λ b. Good (if b then activate_topic ops rpc match_pattern t p else p))
                      (sym on) (activated-Good t p seen g.bridges (λ k v a other. g.flags k v a) on)
              ])
        | inl new ↦
            let s = emplaced t p missing new in
            let p1 = emplaced_pipe t p in
            let f = Sets-Follows ops rpc match_pattern laws Seen t false p p1 seen s g.bridges in
            elim (Bool-cases (p.enabled && lets p t)) [
              | inr off ↦
                  subst (λ b. Good (if b then activate_topic ops rpc match_pattern t p1 else p1))
                    (sym off)
                    (Sets-Good t false p p1 seen s g.bridges (λ k u c other. g.flags k u c)
                      (sym off))
              | inl on ↦
                  subst (λ b. Good (if b then activate_topic ops rpc match_pattern t p1 else p1))
                    (sym on)
                    (activated-Good t p1 seen f
                      (λ k u c other e.
                        g.flags k u c (find-emplace_current t p.current_topics k (u, c) other e))
                      on)
            ]
      ]

  pub discovered_topic-Good :
      (t : DdsTopic) (p p' : DdsPipe Bridge RpcBridge)
      → Seen t
      → Good p
      → discovered_topic ops rpc match_pattern t p ≡ some p'
      → Good p'
  unfolding discovered_topic is_allowed
  discovered_topic-Good t p p' seen g e =
      elim (Option-cases (find (topic_unique_name t) p.bridges)) [
        | inl missing ↦
            subst Good (from_some (sym (rw (missing, discovered_topic) refl) ∙ e))
              (new_topic-Good t p seen missing g)
        | inr (b, there) ↦
            elim (Bool-cases (
              p.configuration.remove_unused_entities
              && not (t.m_topic_discoverer == default_participant_id))) [
                | inr keeps ↦
                    subst Good (from_some (sym (rw (there, keeps, discovered_topic) refl) ∙ e)) g
                | inl adds ↦ elim (Option-cases (ops.create_writer t.m_topic_discoverer b)) [
                  | inl failed ↦ absurd (ground (arith, there, adds, failed))
                  | inr (b', made) ↦
                      subst Good
                        (from_some (sym (rw (there, adds, made, discovered_topic) refl) ∙ e))
                        (exchanged-Good p (topic_unique_name t) b b' there
                          (create_writer-is_enabled t.m_topic_discoverer b b' made) g)
                ]
              ]
      ]
