-- ===== src/Pipe/Runs.antt =====
-- Every life of a DdsPipe of DdsPipe.cpp, from its construction on.
use Prim.Native.String.{String}
use mathlib.Core.Path.{subst}
use ddsproxy.Common.{
  ◌≡◌, refl, sym, ◌∙◌, ap, inl, inr, Bool, Option, none, some, List, [], ◌∷◌, arith, string_key,
  Option-cases, All,
}
use ddsproxy.Common.Map.{Map}
use ddsproxy.Types.Topic.{DdsTopic}
use ddsproxy.Types.Endpoint.{Endpoint}
use ddsproxy.Dynamic.DiscoveryDatabase.{Entities}
use ddsproxy.Configuration.{DdsPipeConfiguration}
use ddsproxy.Pipe.Interfaces.{BridgeOps, RpcBridgeOps, BridgeLaws}
use ddsproxy.Pipe.{DdsPipe, ReturnCode, enable, disable}
use ddsproxy.Pipe.Reload.{reload_configuration}
use ddsproxy.Pipe.Discovery.{discovered_endpoint, removed_endpoint, updated_endpoint, make_pipe}
use ddsproxy.Pipe.Allowed.{Distinguished, Consistent}
use ddsproxy.Pipe.Serving.{from_some}
use ddsproxy.Pipe.Steps.{enable-Good, disable-Good}
use ddsproxy.Pipe.Builtin.{make_pipe-Good}
use ddsproxy.Pipe.Reactions.{reload_configuration-Good}
use ddsproxy.Pipe.Endpoints.{discovered_endpoint-Good, updated_endpoint-Good, removed_endpoint-Good}

-- What can happen to a pipe; the discovery database calls with its entities at the time.
pub data Event : Type 0 where
  enables disables : Event
  reloads : DdsPipeConfiguration → Event
  discovers updates removes : Entities → Endpoint → Event

module _ {Bridge RpcBridge : Type 0} (ops : BridgeOps Bridge) (rpc : RpcBridgeOps RpcBridge)
    (match_pattern : String → String → Bool) (participants : Map String Bool) where
  abbrev fst_of : Option (DdsPipe Bridge RpcBridge × ReturnCode) → Option (DdsPipe Bridge RpcBridge)
  fst_of none = none
  fst_of (some r) = some r.0

  -- A configuration that is refused leaves the pipe as it is.
  unfoldable pub step : Event → DdsPipe Bridge RpcBridge → Option (DdsPipe Bridge RpcBridge)
  step enables p = fst_of (enable ops rpc match_pattern p)
  step disables p = some (disable ops rpc match_pattern p).0
  step (reloads c) p = elim (reload_configuration ops rpc match_pattern c participants p) [
    | none ↦ some p
    | some r ↦ fst_of r
  ]
  step (discovers db e) p = discovered_endpoint ops rpc match_pattern db e p
  step (updates db e) p = updated_endpoint ops rpc match_pattern db e p
  step (removes db e) p = removed_endpoint ops rpc match_pattern db e p

  unfoldable pub run : List Event → DdsPipe Bridge RpcBridge → Option (DdsPipe Bridge RpcBridge)
  run [] p = some p
  run (event ∷ events) p = elim (step event p) [ none ↦ none | some p' ↦ run events p' ]

-- The topics of an event are among those of the run.
abbrev pub Shows : (DdsTopic → Type 0) → Event → Type 0
Shows Seen (discovers db e) = Seen e.topic
Shows Seen (updates db e) = Seen e.topic
Shows Seen (removes db e) = Seen e.topic
Shows Seen other = Unit {0}

module _ {Bridge RpcBridge : Type 0} (ops : BridgeOps Bridge) (rpc : RpcBridgeOps RpcBridge)
    (match_pattern : String → String → Bool) (participants : Map String Bool)
    (laws : BridgeLaws ops) (Seen : DdsTopic → Type 0) (distinguished : Distinguished Seen) where
  abbrev Good : DdsPipe Bridge RpcBridge → Type 0
  Good p = Consistent ops rpc match_pattern laws Seen distinguished p

  fst_of-some :
      (o : Option (DdsPipe Bridge RpcBridge × ReturnCode)) (p' : DdsPipe Bridge RpcBridge)
      → fst_of ops rpc match_pattern participants o ≡ some p'
      → (r : DdsPipe Bridge RpcBridge × ReturnCode) × (o ≡ some r) × (r.0 ≡ p')
  fst_of-some none p' e = absurd (cc e)
  fst_of-some (some r) p' e = (r, refl, from_some e)

  step-Good :
      (event : Event) (p p' : DdsPipe Bridge RpcBridge)
      → Shows Seen event
      → Good p
      → step ops rpc match_pattern participants event p ≡ some p'
      → Good p'
  unfolding step
  step-Good enables p p' seen g e =
      let (r, ran, is) = fst_of-some (enable ops rpc match_pattern p) p' e in
      subst Good is (enable-Good ops rpc match_pattern laws Seen distinguished p r g ran)
  step-Good disables p p' seen g e =
      subst Good (from_some e) (disable-Good ops rpc match_pattern laws Seen distinguished p g)
  step-Good (reloads c) p p' seen g e =
      elim (Option-cases (reload_configuration ops rpc match_pattern c participants p)) [
        | inl refused ↦ subst Good (from_some (sym (rw (refused, step) refl) ∙ e)) g
        | inr (o, ran) ↦
            let (r, gave, is) = fst_of-some o p' (sym (rw (ran, step) refl) ∙ e) in
            subst Good is (
              reload_configuration-Good ops rpc match_pattern laws Seen distinguished c participants
                p r g (ran ∙ ap (λ x. some x) gave))
      ]
  step-Good (discovers db endpoint) p p' seen g e =
      discovered_endpoint-Good ops rpc match_pattern laws Seen distinguished db endpoint p p' seen g
        e
  step-Good (updates db endpoint) p p' seen g e =
      updated_endpoint-Good ops rpc match_pattern laws Seen distinguished db endpoint p p' seen g e
  step-Good (removes db endpoint) p p' seen g e =
      removed_endpoint-Good ops rpc match_pattern laws Seen distinguished db endpoint p p' g e

  run-Good :
      (events : List Event) (p p' : DdsPipe Bridge RpcBridge)
      → All (Shows Seen) events
      → Good p
      → run ops rpc match_pattern participants events p ≡ some p'
      → Good p'
  unfolding run
  run-Good [] p p' seen g e = subst Good (from_some e) g
  run-Good (event ∷ events) p p' seen g e =
      elim (Option-cases (step ops rpc match_pattern participants event p)) [
        | inl failed ↦ absurd (ground (arith, failed))
        | inr (q, ran) ↦
            run-Good events q p' seen.1 (step-Good event p q seen.0 g ran)
              (sym (rw (ran, run) refl) ∙ e)
      ]

  -- Whatever happens to a pipe after its construction, in any order and as long as the process goes
  -- on: a topic that it has found is active exactly if the pipe is enabled and the topic is allowed
  -- by the present lists, and each bridge is enabled exactly if its topic is active. Two topics of
  -- the run with the same unique name have the same name and the same type name, and the bridges
  -- keep their laws.
  pub run-Consistent :
      (c : DdsPipeConfiguration) (events : List Event) (constructed p : DdsPipe Bridge RpcBridge)
      → All Seen c.builtin_topics
      → All (Shows Seen) events
      → make_pipe ops rpc match_pattern c participants ≡ some (some constructed)
      → run ops rpc match_pattern participants events constructed ≡ some p
      → Consistent ops rpc match_pattern laws Seen distinguished p
  run-Consistent c events constructed p builtin seen made e =
      run-Good events constructed p seen
        (make_pipe-Good ops rpc match_pattern laws Seen distinguished c participants constructed
          builtin made)
        e
