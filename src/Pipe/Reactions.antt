-- ===== src/Pipe/Reactions.antt =====
-- What each callback and each reload of DdsPipe.cpp does to the flags.
use Prim.Native.String.{String}
use mathlib.Core.Path.{subst}
use ddsproxy.Common.{
  ◌≡◌, refl, sym, ◌∙◌, ap, inl, inr, Bool, true, false, ◌&&◌, some, [], ◌∷◌, arith, if◌then◌else◌,
  string_key, ◌==◌, Option-cases, Bool-cases, ℕ,
}
use ddsproxy.Common.Map.{Map, find, insert, has}
use ddsproxy.Types.Topic.{DdsTopic, topic_unique_name, default_participant_id}
use ddsproxy.Types.Rpc.{RpcTopic}
use ddsproxy.Types.Endpoint.{Endpoint}
use ddsproxy.Dynamic.AllowedTopicList.{make_allowed_topic_list, is_service_allowed}
use ddsproxy.Configuration.{DdsPipeConfiguration, is_valid}
use ddsproxy.Pipe.Interfaces.{BridgeOps, RpcBridgeOps, BridgeLaws}
use ddsproxy.Pipe.{DdsPipe, ReturnCode, call_rpc}
use ddsproxy.Pipe.Reload.{change_all, reload_master_flag, reload_configuration}
use ddsproxy.Pipe.Discovery.{
  discovered_service, removed_service, create_new_service, current_service, remove_subscriber,
}
use ddsproxy.Pipe.Allowed.{Distinguished, Consistent}
use ddsproxy.Pipe.Serving.{from_some, Serves, call_rpc-Serves}
use ddsproxy.Pipe.Steps.{Serves-Good, reload_allowed_topics-Good}
use ddsproxy.Pipe.Topics.{Bridged-Good, exchanged-Good}

pub either : {A : Type 0} (P : A → Type 0) (b : Bool) {x y : A} → P x → P y → P (if b then x else y)
either P true x y = x
either P false x y = y

module _ {Bridge RpcBridge : Type 0} (ops : BridgeOps Bridge) (rpc : RpcBridgeOps RpcBridge)
    (match_pattern : String → String → Bool) (laws : BridgeLaws ops) (Seen : DdsTopic → Type 0)
    (distinguished : Distinguished Seen) where
  open laws use {is_enabled, change_master_flag-is_enabled, remove_writer-is_enabled}

  abbrev Good : DdsPipe Bridge RpcBridge → Type 0
  Good p = Consistent ops rpc match_pattern laws Seen distinguished p

  find-change_all :
      (f : Bool) (m : Map String Bridge) (k : String) (b : Bridge)
      → find k (change_all ops rpc match_pattern f m) ≡ some b
      → (c : Bridge) × (find k m ≡ some c) × (is_enabled b ≡ is_enabled c)
  unfolding change_all find
  find-change_all f [] k b e = absurd (cc e)
  find-change_all f ((n, c) ∷ m) k b e = elim (Bool-cases (k == n)) [
    | inl here ↦ (
      c,
      rw here refl,
      ap is_enabled (from_some (sym e ∙ rw here refl)) ∙ change_master_flag-is_enabled f c,
    )
    | inr other ↦
        let (d, there, same) = find-change_all f m k b (sym (rw other refl) ∙ e) in
        (d, rw other there, same)
  ]

  reload_master_flag-Good :
      (f : Bool) (p : DdsPipe Bridge RpcBridge)
      → Good p
      → Good (reload_master_flag ops rpc match_pattern f p)
  unfolding reload_master_flag
  reload_master_flag-Good f p g =
      Bridged-Good ops rpc match_pattern laws Seen distinguished p
        (change_all ops rpc match_pattern f p.bridges) (find-change_all f p.bridges) g

  pub reload_configuration-Good :
      (c : DdsPipeConfiguration) (participants : Map String Bool) (p : DdsPipe Bridge RpcBridge)
      (r : DdsPipe Bridge RpcBridge × ReturnCode)
      → Good p
      → reload_configuration ops rpc match_pattern c participants p ≡ some (some r)
      → Good r.0
  unfolding reload_configuration
  reload_configuration-Good c participants p r g e = elim (Bool-cases (is_valid c participants)) [
    | inr refused ↦ absurd (ground (arith, refused))
    | inl valid ↦
        reload_allowed_topics-Good ops rpc match_pattern laws Seen distinguished
          (make_allowed_topic_list c.allowlist c.blocklist)
          (reload_master_flag ops rpc match_pattern c.master_flag p) r
          (reload_master_flag-Good c.master_flag p g)
          (from_some (sym (rw (valid, reload_configuration) refl) ∙ e))
  ]

  create_new_service-Serves :
      (t : RpcTopic) (p : DdsPipe Bridge RpcBridge)
      → Serves ops rpc match_pattern p (create_new_service ops rpc match_pattern t p)
  unfolding create_new_service
  create_new_service-Serves t p =
      either (Serves ops rpc match_pattern p) (has t.service_name p.rpc_bridges)
        (record { rpc_bridges' = p.rpc_bridges; services' = p.current_services; is = refl })
        (record {
          rpc_bridges' = insert t.service_name (rpc.make_rpc t) p.rpc_bridges;
          services' =
              insert t.service_name (t, is_service_allowed match_pattern p.allowed_topics t)
                p.current_services;
          is = refl;
        })

  pub discovered_service-Good :
      (t : RpcTopic) (server : String) (prefix : ℕ) (p p' : DdsPipe Bridge RpcBridge)
      → Good p
      → discovered_service ops rpc match_pattern t server prefix p ≡ some p'
      → Good p'
  unfolding discovered_service
  discovered_service-Good t server prefix p p' g e =
      let serves = Serves-Good ops rpc match_pattern laws Seen distinguished in
      let p1 = create_new_service ops rpc match_pattern t p in
      let hear = rpc.discovered_service server prefix in
      let good1 : Good p1 = serves p p1 (create_new_service-Serves t p) g in
      let lets = current_service ops rpc match_pattern t.service_name p1.current_services in
      elim (Option-cases (call_rpc ops rpc match_pattern t.service_name hear p1)) [
        | inl failed ↦ absurd (ground (arith, failed))
        | inr (p2, ran) ↦
            let good2 : Good p2 =
              serves p1 p2 (call_rpc-Serves ops rpc match_pattern t.service_name hear p1 p2 ran)
                good1 in
            elim (Bool-cases (p.enabled && lets)) [
              | inr off ↦
                  subst Good (from_some (sym (rw (ran, off, discovered_service) refl) ∙ e)) good2
              | inl on ↦
                  serves p2 p'
                    (call_rpc-Serves ops rpc match_pattern t.service_name rpc.enable_rpc p2 p'
                      (sym (rw (ran, on, discovered_service) refl) ∙ e))
                    good2
            ]
      ]

  pub removed_service-Good :
      (t : RpcTopic) (server : String) (prefix : ℕ) (p : DdsPipe Bridge RpcBridge)
      → Good p
      → Good (removed_service ops rpc match_pattern t server prefix p)
  unfolding removed_service
  removed_service-Good t server prefix p g =
      elim (Option-cases (find t.service_name p.rpc_bridges)) [
        | inl missing ↦
            let same : removed_service ops rpc match_pattern t server prefix p ≡ p =
              rw (missing, removed_service) refl in
            subst Good (sym same) g
        | inr (b, there) ↦
            rw (there, removed_service)
              (Serves-Good ops rpc match_pattern laws Seen distinguished p
                (record p {
                  rpc_bridges =
                      insert t.service_name (rpc.removed_service server prefix b) p.rpc_bridges;
                })
                (record {
                  rpc_bridges' =
                      insert t.service_name (rpc.removed_service server prefix b) p.rpc_bridges;
                  services' = p.current_services;
                  is = refl;
                })
                g)
      ]

  pub remove_subscriber-Good :
      (endpoint : Endpoint) (p : DdsPipe Bridge RpcBridge)
      → Good p
      → Good (remove_subscriber ops rpc match_pattern endpoint p)
  unfolding remove_subscriber
  remove_subscriber-Good endpoint p g =
      elim (Option-cases (find (topic_unique_name endpoint.topic) p.bridges)) [
        | inl missing ↦
            let same : remove_subscriber ops rpc match_pattern endpoint p ≡ p =
              rw (missing, remove_subscriber) refl in
            subst Good (sym same) g
        | inr (b, there) ↦
            rw (there, remove_subscriber)
              (either Good (endpoint.discoverer_participant_id == default_participant_id) g (
                exchanged-Good ops rpc match_pattern laws Seen distinguished p
                  (topic_unique_name endpoint.topic) b
                  (ops.remove_writer endpoint.discoverer_participant_id b) there
                  (remove_writer-is_enabled endpoint.discoverer_participant_id b) g))
      ]
