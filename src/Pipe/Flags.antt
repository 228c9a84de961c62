-- ===== src/Pipe/Flags.antt =====
-- The flags of DdsPipe.cpp: which topics are active, and which of their bridges are enabled.
use Prim.Native.String.{String}
use ddsproxy.Common.{
  ◌≡◌, ◌≢◌, refl, sym, ◌∙◌, ap, ◌⊎◌, inl, inr, Bool, true, false, none, some, arith, if◌then◌else◌,
  string_key, ◌==◌, Option-cases, Bool-cases, beq→eq, beq_refl, beq_ne,
}
use mathlib.Core.Path.{subst}
use ddsproxy.Common.Map.{
  Map, find, insert, find-insert, OnceEach, insert-OnceEach, has_of_some, find-replace,
  replace-OnceEach, has_of_none,
}
use ddsproxy.Types.Topic.{DdsTopic, topic_unique_name}
use ddsproxy.Types.Filter.{dds_topic}
use ddsproxy.Configuration.{get_routes_config, get_manual_topics}
use ddsproxy.Pipe.Interfaces.{BridgeOps, RpcBridgeOps, BridgeLaws}
use ddsproxy.Pipe.{DdsPipe, set_current, create_new_bridge, activate_topic, deactivate_topic}

-- The entry that `set_current` writes: the stored topic, or the new one.
abbrev pub kept : DdsTopic → Map String (DdsTopic × Bool) → DdsTopic
kept t m = elim (find (topic_unique_name t) m) [ none ↦ t | some entry ↦ entry.0 ]

pub find-set_current :
    (t : DdsTopic) (a : Bool) (m : Map String (DdsTopic × Bool)) (k : String)
    → find k (set_current t a m)
      ≡ (if k == topic_unique_name t then some (kept t m, a) else find k m)
unfolding set_current
find-set_current t a m k = elim (Option-cases (find (topic_unique_name t) m)) [
  | inl new ↦ rw (new, set_current, kept) (find-insert k (topic_unique_name t) (t, a) m)
  | inr (entry, e) ↦
      rw (e, set_current, kept)
        (find-replace k (topic_unique_name t) (entry.0, a) m
          (has_of_some (topic_unique_name t) m e))
]

pub same_entry : {x y : DdsTopic × Bool} → some x ≡ some y → (x.0 ≡ y.0) × (x.1 ≡ y.1)
same_entry {x} {y} e = (ap (λ z. z.0) whole, ap (λ z. z.1) whole)
  where
    whole : x ≡ y
    whole = cc

-- What an entry after `set_current` is.
pub set_current_cases :
    (t : DdsTopic) (a : Bool) (m : Map String (DdsTopic × Bool)) (k : String) (u : DdsTopic)
    (b : Bool)
    → find k (set_current t a m) ≡ some (u, b)
    → (k ≡ topic_unique_name t) × (kept t m ≡ u) × (a ≡ b)
      ⊎ (k ≢ topic_unique_name t) × (find k m ≡ some (u, b))
set_current_cases t a m k u b e = elim (Bool-cases (k == topic_unique_name t)) [
  | inl same ↦
      let (is_kept, is_set) =
        same_entry {x = (kept t m, a)} {y = (u, b)} (ground (arith, find-set_current t a m k)) in
      inl (beq→eq k (topic_unique_name t) same, is_kept, is_set)
  | inr other ↦ inr (
    λ same. ground (arith, string_key.beq_iff k (topic_unique_name t)),
    ground (arith, find-set_current t a m k),
  )
]

set_current-OnceEach :
    (t : DdsTopic) (a : Bool) (m : Map String (DdsTopic × Bool))
    → OnceEach m
    → OnceEach (set_current t a m)
unfolding set_current
set_current-OnceEach t a m d = elim (Option-cases (find (topic_unique_name t) m)) [
  | inl new ↦
      rw (new, set_current)
        (insert-OnceEach (topic_unique_name t) (t, a) m (has_of_none (topic_unique_name t) m new) d)
  | inr (entry, e) ↦ rw (e, set_current) (replace-OnceEach (topic_unique_name t) (entry.0, a) m d)
]

module _ {Bridge RpcBridge : Type 0} (ops : BridgeOps Bridge) (rpc : RpcBridgeOps RpcBridge)
    (match_pattern : String → String → Bool) (laws : BridgeLaws ops) where
  open laws use {is_enabled, make-is_enabled, enable-is_enabled, disable-is_enabled}

  -- A change of the flag of one topic, and of its bridge with it.
  pub record Sets (t : DdsTopic) (a : Bool) (p p' : DdsPipe Bridge RpcBridge) : Type 0 where
    pub bridges' : Map String Bridge
    pub is : p' ≡ record p { current_topics = set_current t a p.current_topics; bridges = bridges' }
    pub others :
        (k : String) (b : Bridge)
        → find k bridges' ≡ some b
        → (k ≡ topic_unique_name t) × (is_enabled b ≡ a)
          ⊎ (find k p.bridges ≡ some b) × (k ≢ topic_unique_name t)

  -- The bridge of one topic replaced.
  replaced :
      (n : String) (a : Bool) (b : Bridge) (m : Map String Bridge)
      → is_enabled b ≡ a
      → (k : String) (c : Bridge) → find k (insert n b m) ≡ some c
      → (k ≡ n) × (is_enabled c ≡ a) ⊎ (find k m ≡ some c) × (k ≢ n)
  replaced n a b m e k c h = elim (Bool-cases (k == n)) [
    | inl same ↦ inl (beq→eq k n same, ground (arith, find-insert k n b m))
    | inr other ↦
        inr (ground (arith, find-insert k n b m), λ same. ground (arith, string_key.beq_iff k n))
  ]

  pub absent :
      (n : String) (a : Bool) (m : Map String Bridge)
      → find n m ≡ none
      → (k : String) (c : Bridge) → find k m ≡ some c
      → (k ≡ n) × (is_enabled c ≡ a) ⊎ (find k m ≡ some c) × (k ≢ n)
  absent n a m missing k c h = inr (h, λ same. cc)

  pub activate_topic-Sets :
      (t : DdsTopic) (p : DdsPipe Bridge RpcBridge)
      → Sets t true p (activate_topic ops rpc match_pattern t p)
  unfolding activate_topic create_new_bridge
  activate_topic-Sets t p = elim (Option-cases (find (topic_unique_name t) p.bridges)) [
    | inr (b, there) ↦ record {
      bridges' = insert (topic_unique_name t) (ops.enable b) p.bridges;
      is = rw (there, activate_topic) refl;
      others = replaced (topic_unique_name t) true (ops.enable b) p.bridges (enable-is_enabled b);
    }
    | inl missing ↦
        elim (Option-cases (
          ops.make t (get_routes_config p.configuration t) p.configuration.remove_unused_entities
            p.configuration.master_flag
            (get_manual_topics match_pattern p.configuration (dds_topic t)))) [
              | inr (b, made) ↦ record {
                bridges' = insert (topic_unique_name t) (ops.enable b) p.bridges;
                is = rw (missing, made, activate_topic, create_new_bridge) refl;
                others =
                    replaced (topic_unique_name t) true (ops.enable b) p.bridges
                      (enable-is_enabled b);
              }
              | inl failed ↦ record {
                bridges' = p.bridges;
                is = rw (missing, failed, activate_topic, create_new_bridge) refl;
                others = absent (topic_unique_name t) true p.bridges missing;
              }
            ]
  ]

  pub deactivate_topic-Sets :
      (t : DdsTopic) (p : DdsPipe Bridge RpcBridge)
      → Sets t false p (deactivate_topic ops rpc match_pattern t p)
  unfolding deactivate_topic
  deactivate_topic-Sets t p = elim (Option-cases (find (topic_unique_name t) p.bridges)) [
    | inr (b, there) ↦ record {
      bridges' = insert (topic_unique_name t) (ops.disable b) p.bridges;
      is = rw (there, deactivate_topic) refl;
      others =
          replaced (topic_unique_name t) false (ops.disable b) p.bridges (disable-is_enabled b);
    }
    | inl missing ↦ record {
      bridges' = p.bridges;
      is = rw (missing, deactivate_topic) refl;
      others = absent (topic_unique_name t) false p.bridges missing;
    }
  ]

  -- Every stored topic has its own name as the key and is one of those seen; every bridge belongs
  -- to a stored topic and is enabled exactly if that is active.
  pub record Follows (Seen : DdsTopic → Type 0) (p : DdsPipe Bridge RpcBridge) : Type 0 where
    pub once : OnceEach p.current_topics
    pub named :
        (k : String) (t : DdsTopic) (a : Bool)
        → find k p.current_topics ≡ some (t, a)
        → (topic_unique_name t ≡ k) × Seen t
    pub follows :
        (k : String) (b : Bridge)
        → find k p.bridges ≡ some b
        → (t : DdsTopic) × (find k p.current_topics ≡ some (t, is_enabled b))

  module _ (Seen : DdsTopic → Type 0) where
    kept_named :
        (p : DdsPipe Bridge RpcBridge) (t : DdsTopic)
        → Follows Seen p
        → Seen t
        → (topic_unique_name (kept t p.current_topics) ≡ topic_unique_name t)
          × Seen (kept t p.current_topics)
    kept_named p t f seen = elim (Option-cases (find (topic_unique_name t) p.current_topics)) [
      | inl new ↦ rw (new, kept) (refl, seen)
      | inr ((u, a), e) ↦ rw (e, kept) (f.named (topic_unique_name t) u a e)
    ]

    pub Sets-Follows :
        (t : DdsTopic) (a : Bool) (p p' : DdsPipe Bridge RpcBridge)
        → Seen t
        → Sets t a p p'
        → Follows Seen p
        → Follows Seen p'
    Sets-Follows t a p p' seen s f = subst (Follows Seen) (sym s.is) (record {
      once = set_current-OnceEach t a p.current_topics f.once;
      named = λ k u b e. elim (set_current_cases t a p.current_topics k u b e) [
        | inl (same, is_kept, _) ↦
            let (name, was_seen) = kept_named p t f seen in
            (ap topic_unique_name (sym is_kept) ∙ (name ∙ sym same), subst Seen is_kept was_seen)
        | inr (other, before) ↦ f.named k u b before
      ];
      follows = λ k b e. elim (s.others k b e) [
        | inl (same, on) ↦ (
          kept t p.current_topics,
          rw
              (
                on,
                same,
                find-set_current t a p.current_topics (topic_unique_name t),
                beq_refl (topic_unique_name t),
              )
              refl,
        )
        | inr (before, other) ↦
            let (u, stored) = f.follows k b before in
            (
              u,
              rw (find-set_current t a p.current_topics k, beq_ne k (topic_unique_name t) other)
                  stored,
            )
      ];
    })
