-- ===== src/Pipe/Loops.antt =====
-- The loops of DdsPipe.cpp over the topics: each ends with the flags that the allowed topics ask for.
use Prim.Native.String.{String}
use ddsproxy.Common.{
  ◌≡◌, refl, ◌∙◌, ap, inl, inr, Bool, true, false, [], ◌∷◌, string_key, Bool-cases, All,
}
use ddsproxy.Common.Map.{Map}
use ddsproxy.Types.Topic.{DdsTopic}
use ddsproxy.Pipe.Interfaces.{BridgeOps, RpcBridgeOps, BridgeLaws}
use ddsproxy.Pipe.{DdsPipe, activate_topic, deactivate_topic, activate_topics, deactivate_topics}
use ddsproxy.Pipe.Reload.{reload_topics}
use ddsproxy.Pipe.Flags.{activate_topic-Sets, deactivate_topic-Sets}
use ddsproxy.Pipe.Allowed.{Distinguished, Consistent, Underway, allowed, ends, stays, sets}

module _ {Bridge RpcBridge : Type 0} (ops : BridgeOps Bridge) (rpc : RpcBridgeOps RpcBridge)
    (match_pattern : String → String → Bool) (laws : BridgeLaws ops) (Seen : DdsTopic → Type 0)
    (distinguished : Distinguished Seen) where
  pub activate_topics-Underway :
      (rest : Map String (DdsTopic × Bool)) (p : DdsPipe Bridge RpcBridge)
      → p.enabled ≡ true
      → All (λ entry. entry.1.1 ≡ false) rest
      → Underway ops rpc match_pattern laws Seen distinguished rest p
      → Consistent ops rpc match_pattern laws Seen distinguished
          (activate_topics ops rpc match_pattern rest p)
  unfolding activate_topics
  activate_topics-Underway [] p on off u = ends ops rpc match_pattern laws Seen distinguished p u
  activate_topics-Underway ((n, (t, b)) ∷ rest) p on off u =
      elim (Bool-cases (allowed ops rpc match_pattern laws Seen distinguished p t)) [
        | inl lets ↦
            let p' = activate_topic ops rpc match_pattern t p in
            let s = activate_topic-Sets ops rpc match_pattern laws t p in
            rw lets (
              activate_topics-Underway rest p' (ap (λ q. q.enabled) s.is ∙ on) off.1 (
                sets ops rpc match_pattern laws Seen distinguished n t b true rest p p' u s
                  (rw (on, lets) refl)))
        | inr blocks ↦ rw blocks (
            activate_topics-Underway rest p on off.1 (
              stays ops rpc match_pattern laws Seen distinguished n t b rest p u
                (rw (off.0, on, blocks) refl)))
      ]

  pub deactivate_topics-Underway :
      (rest : Map String (DdsTopic × Bool)) (p : DdsPipe Bridge RpcBridge)
      → p.enabled ≡ false
      → Underway ops rpc match_pattern laws Seen distinguished rest p
      → Consistent ops rpc match_pattern laws Seen distinguished
          (deactivate_topics ops rpc match_pattern rest p)
  unfolding deactivate_topics
  deactivate_topics-Underway [] p off u = ends ops rpc match_pattern laws Seen distinguished p u
  deactivate_topics-Underway ((n, (t, b)) ∷ rest) p off u =
      let p' = deactivate_topic ops rpc match_pattern t p in
      let s = deactivate_topic-Sets ops rpc match_pattern laws t p in
      deactivate_topics-Underway rest p' (ap (λ q. q.enabled) s.is ∙ off)
        (sets ops rpc match_pattern laws Seen distinguished n t b false rest p p' u s (rw off refl))

  pub reload_topics-Underway :
      (rest : Map String (DdsTopic × Bool)) (p : DdsPipe Bridge RpcBridge)
      → p.enabled ≡ true
      → Underway ops rpc match_pattern laws Seen distinguished rest p
      → Consistent ops rpc match_pattern laws Seen distinguished
          (reload_topics ops rpc match_pattern rest p)
  unfolding reload_topics
  reload_topics-Underway [] p on u = ends ops rpc match_pattern laws Seen distinguished p u
  reload_topics-Underway ((n, (t, true)) ∷ rest) p on u =
      elim (Bool-cases (allowed ops rpc match_pattern laws Seen distinguished p t)) [
        | inl lets ↦ rw lets (
            reload_topics-Underway rest p on (
              stays ops rpc match_pattern laws Seen distinguished n t true rest p u
                (rw (on, lets) refl)))
        | inr blocks ↦
            let p' = deactivate_topic ops rpc match_pattern t p in
            let s = deactivate_topic-Sets ops rpc match_pattern laws t p in
            rw blocks (
              reload_topics-Underway rest p' (ap (λ q. q.enabled) s.is ∙ on) (
                sets ops rpc match_pattern laws Seen distinguished n t true false rest p p' u s
                  (rw (on, blocks) refl)))
      ]
  reload_topics-Underway ((n, (t, false)) ∷ rest) p on u =
      elim (Bool-cases (allowed ops rpc match_pattern laws Seen distinguished p t)) [
        | inl lets ↦
            let p' = activate_topic ops rpc match_pattern t p in
            let s = activate_topic-Sets ops rpc match_pattern laws t p in
            rw lets (
              reload_topics-Underway rest p' (ap (λ q. q.enabled) s.is ∙ on) (
                sets ops rpc match_pattern laws Seen distinguished n t false true rest p p' u s
                  (rw (on, lets) refl)))
        | inr blocks ↦ rw blocks (
            reload_topics-Underway rest p on (
              stays ops rpc match_pattern laws Seen distinguished n t false rest p u
                (rw (on, blocks) refl)))
      ]
