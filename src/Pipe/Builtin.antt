-- ===== src/Pipe/Builtin.antt =====
-- The constructor of DdsPipe.cpp: what the builtin topics do to the flags of a new pipe.
use Prim.Native.String.{String}
use mathlib.Core.Path.{subst}
use ddsproxy.Common.{
  ◌≡◌, refl, sym, ◌∙◌, ap, inl, inr, Bool, false, not, ◌&&◌, Option, some, List, [], ◌∷◌, arith,
  if◌then◌else◌, string_key, ◌==◌, Option-cases, Bool-cases, beq→eq, All,
}
use ddsproxy.Common.Map.{Map, find, insert, find-insert, find-insert_self}
use ddsproxy.Types.Topic.{DdsTopic, topic_unique_name, default_participant_id}
use ddsproxy.Types.Filter.{dds_topic}
use ddsproxy.Configuration.{DdsPipeConfiguration, is_valid, get_routes_config, get_manual_topics}
use ddsproxy.Pipe.Interfaces.{BridgeOps, RpcBridgeOps, BridgeLaws}
use ddsproxy.Pipe.{DdsPipe, is_allowed, emplace_current, activate_topic, create_new_bridge, enable}
use ddsproxy.Pipe.Discovery.{discovered_topic, init_bridges, new_pipe, enable_if_set, make_pipe}
use ddsproxy.Pipe.Allowed.{Distinguished, Consistent, allowed}
use ddsproxy.Pipe.Serving.{from_some}
use ddsproxy.Pipe.Steps.{enable-Good}
use ddsproxy.Pipe.Topics.{discovered_topic-Good}

module _ {Bridge RpcBridge : Type 0} (ops : BridgeOps Bridge) (rpc : RpcBridgeOps RpcBridge)
    (match_pattern : String → String → Bool) (laws : BridgeLaws ops) (Seen : DdsTopic → Type 0)
    (distinguished : Distinguished Seen) where
  open laws use {is_enabled, make-is_enabled}

  abbrev Good : DdsPipe Bridge RpcBridge → Type 0
  Good p = Consistent ops rpc match_pattern laws Seen distinguished p

  -- A pipe that is not enabled and has stored a topic.
  abbrev Stored : DdsTopic → DdsPipe Bridge RpcBridge → Type 0
  Stored t p =
      (p.enabled ≡ false)
      × (entry : DdsTopic × Bool) × (find (topic_unique_name t) p.current_topics ≡ some entry)

  emplaced-Stored :
      (t : DdsTopic) (p : DdsPipe Bridge RpcBridge)
      → p.enabled ≡ false
      → Stored t (record p { current_topics = emplace_current t p.current_topics })
  unfolding emplace_current
  emplaced-Stored t p off = elim (Option-cases (find (topic_unique_name t) p.current_topics)) [
    | inl new ↦ (
      off,
      (t, false),
      rw (new, emplace_current)
          (find-insert_self (topic_unique_name t) (t, false) p.current_topics),
    )
    | inr (entry, there) ↦ (off, entry, rw (there, emplace_current) there)
  ]

  comes :
      (t : DdsTopic) (q p' : DdsPipe Bridge RpcBridge) {o : Option (DdsPipe Bridge RpcBridge)}
      → o ≡ some q
      → o ≡ some p'
      → Stored t q
      → Stored t p'
  comes t q p' is e here = subst (Stored t) (from_some (sym is ∙ e)) here

  discovered_topic-Stored :
      (t : DdsTopic) (p p' : DdsPipe Bridge RpcBridge)
      → p.enabled ≡ false
      → Good p
      → discovered_topic ops rpc match_pattern t p ≡ some p'
      → Stored t p'
  unfolding discovered_topic
  discovered_topic-Stored t p p' off g e =
      elim (Option-cases (find (topic_unique_name t) p.bridges)) [
        | inl missing ↦
            let p1 = record p { current_topics = emplace_current t p.current_topics } in
            let on = activate_topic ops rpc match_pattern t p1 in
            comes t
              (if p.enabled && allowed ops rpc match_pattern laws Seen distinguished p t
                then on
                else p1)
              p' (rw (missing, discovered_topic) refl) e
              (subst
                (λ b. Stored t (
                  if b && allowed ops rpc match_pattern laws Seen distinguished p t
                  then on
                  else p1))
                (sym off) (emplaced-Stored t p off))
        | inr (b, there) ↦
            let (u, stored) = g.bridges.follows (topic_unique_name t) b there in
            let here : Stored t p = (off, (u, is_enabled b), stored) in
            elim (Bool-cases (
              p.configuration.remove_unused_entities
              && not (t.m_topic_discoverer == default_participant_id))) [
                | inr keeps ↦ comes t p p' (rw (there, keeps, discovered_topic) refl) e here
                | inl adds ↦ elim (Option-cases (ops.create_writer t.m_topic_discoverer b)) [
                  | inl failed ↦ absurd (ground (arith, there, adds, failed))
                  | inr (b', made) ↦
                      comes t (record p { bridges = insert (topic_unique_name t) b' p.bridges }) p'
                        (rw (there, adds, made, discovered_topic) refl) e here
                ]
              ]
      ]

  created-Good :
      (t : DdsTopic) (p : DdsPipe Bridge RpcBridge)
      → Stored t p
      → Good p
      → Good (create_new_bridge ops rpc match_pattern t false p)
  unfolding create_new_bridge is_allowed
  created-Good t p (off, entry, there) g =
      let n = topic_unique_name t in
      let routes = get_routes_config p.configuration t in
      let unused = p.configuration.remove_unused_entities in
      let manual = get_manual_topics match_pattern p.configuration (dds_topic t) in
      elim (Option-cases (ops.make t routes unused p.configuration.master_flag manual)) [
        | inl failed ↦
            let same : create_new_bridge ops rpc match_pattern t false p ≡ p =
              rw (failed, create_new_bridge) refl in
            subst Good (sym same) g
        | inr (b, made) ↦
            let is : create_new_bridge ops rpc match_pattern t false p
                ≡ record p { bridges = insert n b p.bridges } =
              rw (made, create_new_bridge) refl in
            let quiet = make-is_enabled t routes unused p.configuration.master_flag manual b made in
            let inactive : entry.1 ≡ false = g.flags n entry.0 entry.1 there ∙ rw off refl in
            subst Good (sym is) (record {
              bridges = record {
                once = g.bridges.once;
                named = g.bridges.named;
                follows = λ k c e. elim (Bool-cases (k == n)) [
                  | inl here ↦ (
                    entry.0,
                    ap (λ j. find j p.current_topics) (beq→eq k n here)
                        ∙ (there
                            ∙ ap (λ a. some (entry.0, a))
                                (inactive
                                  ∙ (sym quiet
                                      ∙ ap is_enabled (
                                          from_some (
                                            sym (rw (find-insert k n b p.bridges, here) refl)
                                            ∙ e))))),
                  )
                  | inr other ↦ g.bridges.follows k c (ground (arith, find-insert k n b p.bridges))
                ];
              };
              flags = g.flags;
            })
      ]

  create_new_bridge_enabled :
      (t : DdsTopic) (p : DdsPipe Bridge RpcBridge)
      → (create_new_bridge ops rpc match_pattern t false p).enabled ≡ p.enabled
  unfolding create_new_bridge
  create_new_bridge_enabled t p =
      elim (Option-cases (
        ops.make t (get_routes_config p.configuration t) p.configuration.remove_unused_entities
          p.configuration.master_flag
          (get_manual_topics match_pattern p.configuration (dds_topic t)))) [
            | inl failed ↦ rw (failed, create_new_bridge) refl
            | inr (b, made) ↦ rw (made, create_new_bridge) refl
          ]

  init_bridges-Good :
      (topics : List DdsTopic) (p p' : DdsPipe Bridge RpcBridge)
      → All Seen topics
      → p.enabled ≡ false
      → Good p
      → init_bridges ops rpc match_pattern topics p ≡ some p'
      → Good p'
  unfolding init_bridges
  init_bridges-Good [] p p' seen off g e = subst Good (from_some e) g
  init_bridges-Good (t ∷ rest) p p' seen off g e =
      elim (Option-cases (discovered_topic ops rpc match_pattern t p)) [
        | inl failed ↦ absurd (ground (arith, failed))
        | inr (q, ran) ↦
            let good_q : Good q =
              discovered_topic-Good ops rpc match_pattern laws Seen distinguished t p q seen.0 g
                ran in
            let stored = discovered_topic-Stored t p q off g ran in
            init_bridges-Good rest (create_new_bridge ops rpc match_pattern t false q) p' seen.1
              (create_new_bridge_enabled t q ∙ stored.0) (created-Good t q stored good_q)
              (sym (rw (ran, init_bridges) refl) ∙ e)
      ]

  new_pipe-Good : (c : DdsPipeConfiguration) → Good (new_pipe ops rpc match_pattern c)
  unfolding new_pipe find
  new_pipe-Good c = record {
    bridges = record {
      once = tt;
      named = λ k t a e. absurd (cc e);
      follows = λ k b e. absurd (cc e);
    };
    flags = λ k t a e. absurd (cc e);
  }

  new_pipe_off : (c : DdsPipeConfiguration) → (new_pipe ops rpc match_pattern c).enabled ≡ false
  unfolding new_pipe
  new_pipe_off c = refl

  enable_if_set-Good :
      (p p' : DdsPipe Bridge RpcBridge)
      → Good p
      → enable_if_set ops rpc match_pattern p ≡ some p'
      → Good p'
  unfolding enable_if_set
  enable_if_set-Good p p' g e = elim (Bool-cases p.configuration.init_enabled) [
    | inr off ↦ subst Good (from_some (sym (ground (arith, off)) ∙ e)) g
    | inl on ↦ elim (Option-cases (enable ops rpc match_pattern p)) [
      | inl failed ↦ absurd (ground (arith, on, failed))
      | inr (r, ran) ↦
          subst Good (from_some (sym (ground (arith, on, ran)) ∙ e))
            (enable-Good ops rpc match_pattern laws Seen distinguished p r g ran)
    ]
  ]

  pub make_pipe-Good :
      (c : DdsPipeConfiguration) (participants : Map String Bool) (p : DdsPipe Bridge RpcBridge)
      → All Seen c.builtin_topics
      → make_pipe ops rpc match_pattern c participants ≡ some (some p)
      → Good p
  unfolding make_pipe
  make_pipe-Good c participants p seen e = elim (Bool-cases (is_valid c participants)) [
    | inr refused ↦ absurd (ground (arith, refused))
    | inl valid ↦
        let start = new_pipe ops rpc match_pattern c in
        elim (Option-cases (init_bridges ops rpc match_pattern c.builtin_topics start)) [
          | inl failed ↦ absurd (ground (arith, valid, failed))
          | inr (q, ran) ↦ elim (Option-cases (enable_if_set ops rpc match_pattern q)) [
            | inl failed ↦ absurd (ground (arith, valid, ran, failed))
            | inr (q', set) ↦
                subst Good (from_some (from_some (sym (rw (valid, ran, set, make_pipe) refl) ∙ e)))
                  (enable_if_set-Good q q'
                    (init_bridges-Good c.builtin_topics start q seen (new_pipe_off c)
                      (new_pipe-Good c) ran)
                    set)
          ]
        ]
  ]
