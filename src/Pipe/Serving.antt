-- ===== src/Pipe/Serving.antt =====
-- What the loops over services of DdsPipe.cpp change: the services only.
use Prim.Native.String.{String}
use ddsproxy.Common.{
  ◌≡◌, refl, sym, ◌∙◌, ap, inl, inr, Bool, true, false, some, [], ◌∷◌, arith, if◌then◌else◌,
  string_key, Option-cases,
}
use ddsproxy.Common.Map.{Map, find, insert}
use ddsproxy.Types.Rpc.{RpcTopic}
use ddsproxy.Dynamic.AllowedTopicList.{is_service_allowed}
use ddsproxy.Pipe.Interfaces.{BridgeOps, RpcBridgeOps}
use ddsproxy.Pipe.{DdsPipe, call_rpc, enable_services}
use ddsproxy.Pipe.Reload.{reload_services}

pub from_some : {A : Type 0} {x y : A} → some x ≡ some y → x ≡ y
from_some e = cc

module _ {Bridge RpcBridge : Type 0} (ops : BridgeOps Bridge) (rpc : RpcBridgeOps RpcBridge)
    (match_pattern : String → String → Bool) where
  -- A change of the services only.
  pub record Serves (p p' : DdsPipe Bridge RpcBridge) : Type 0 where
    pub rpc_bridges' : Map String RpcBridge
    pub services' : Map String (RpcTopic × Bool)
    pub is : p' ≡ record p { rpc_bridges = rpc_bridges'; current_services = services' }

  pub Serves-then : (p q r : DdsPipe Bridge RpcBridge) → Serves p q → Serves q r → Serves p r
  Serves-then p q r a b = record {
    rpc_bridges' = b.rpc_bridges';
    services' = b.services';
    is = b.is ∙ ap with_services a.is;
  }
    where
      with_services : DdsPipe Bridge RpcBridge → DdsPipe Bridge RpcBridge
      with_services x = record x { rpc_bridges = b.rpc_bridges'; current_services = b.services' }

  pub call_rpc-Serves :
      (name : String) (call : RpcBridge → RpcBridge) (p p' : DdsPipe Bridge RpcBridge)
      → call_rpc ops rpc match_pattern name call p ≡ some p'
      → Serves p p'
  unfolding call_rpc
  call_rpc-Serves name call p p' e = elim (Option-cases (find name p.rpc_bridges)) [
    | inl missing ↦ absurd (ground (arith, missing))
    | inr (b, there) ↦
        let ran : call_rpc ops rpc match_pattern name call p
            ≡ some (record p { rpc_bridges = insert name (call b) p.rpc_bridges }) =
          rw (there, call_rpc) refl in
        record {
          rpc_bridges' = insert name (call b) p.rpc_bridges;
          services' = p.current_services;
          is = sym (from_some (sym ran ∙ e));
        }
  ]

  pub enable_services-Serves :
      (services : Map String (RpcTopic × Bool)) (p p' : DdsPipe Bridge RpcBridge)
      → enable_services ops rpc match_pattern services p ≡ some p'
      → Serves p p'
  unfolding enable_services
  enable_services-Serves [] p p' e = record {
    rpc_bridges' = p.rpc_bridges;
    services' = p.current_services;
    is = sym (from_some e);
  }
  enable_services-Serves ((n, (t, true)) ∷ rest) p p' e =
      elim (Option-cases (call_rpc ops rpc match_pattern n rpc.enable_rpc p)) [
        | inl failed ↦ absurd (ground (arith, failed))
        | inr (q, ran) ↦
            Serves-then p q p' (call_rpc-Serves n rpc.enable_rpc p q ran)
              (enable_services-Serves rest q p' (sym (rw (ran, enable_services) refl) ∙ e))
      ]
  enable_services-Serves ((n, (t, false)) ∷ rest) p p' e = enable_services-Serves rest p p' e

  pub reload_services-Serves :
      (services : Map String (RpcTopic × Bool)) (p p' : DdsPipe Bridge RpcBridge)
      → reload_services ops rpc match_pattern services p ≡ some p'
      → Serves p p'
  unfolding reload_services
  reload_services-Serves [] p p' e = record {
    rpc_bridges' = p.rpc_bridges;
    services' = p.current_services;
    is = sym (from_some e);
  }
  reload_services-Serves ((n, (t, a)) ∷ rest) p p' e =
      let lets = is_service_allowed match_pattern p.allowed_topics t in
      let q0 = record p { current_services = insert n (t, lets) p.current_services } in
      let call = if lets then rpc.enable_rpc else rpc.disable_rpc in
      elim (Option-cases (call_rpc ops rpc match_pattern n call q0)) [
        | inl failed ↦ absurd (ground (arith, failed))
        | inr (q, ran) ↦
            Serves-then p q p'
              (Serves-then p q0 q
                (record {
                  rpc_bridges' = p.rpc_bridges;
                  services' = q0.current_services;
                  is = refl;
                })
                (call_rpc-Serves n call q0 q ran))
              (reload_services-Serves rest q p' (sym (rw (ran, reload_services) refl) ∙ e))
      ]
