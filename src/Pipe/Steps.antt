-- ===== src/Pipe/Steps.antt =====
-- Each public operation of DdsPipe.cpp keeps the flags as the allowed topics ask for.
use Prim.Native.String.{String}
use mathlib.Core.Path.{subst}
use ddsproxy.Common.{
  ◌≡◌, refl, sym, ◌∙◌, ap, inl, inr, Bool, true, false, Option, some, [], ◌∷◌, arith, string_key,
  Option-cases, Bool-cases, beq_refl, beq_ne, All,
}
use ddsproxy.Common.Map.{Map, find, OnceEach, has_of_some}
use ddsproxy.Types.Topic.{DdsTopic}
use ddsproxy.Dynamic.AllowedTopicList.{AllowedTopicList, same_allowed_topics}
use ddsproxy.Pipe.Interfaces.{BridgeOps, RpcBridgeOps, BridgeLaws}
use ddsproxy.Pipe.{
  DdsPipe, ReturnCode, retcode_ok, retcode_no_data, retcode_precondition_not_met, is_allowed,
  enable_services, enable, disable, activate_topics,
}
use ddsproxy.Pipe.Reload.{reload_topics, reload_services, reload_allowed_topics}
use ddsproxy.Pipe.Flags.{Follows}
use ddsproxy.Pipe.Allowed.{Distinguished, Consistent, begins}
use ddsproxy.Pipe.Loops.{
  activate_topics-Underway, deactivate_topics-Underway, reload_topics-Underway,
}
use ddsproxy.Pipe.Serving.{Serves, enable_services-Serves, reload_services-Serves}

module _ {Bridge RpcBridge : Type 0} (ops : BridgeOps Bridge) (rpc : RpcBridgeOps RpcBridge)
    (match_pattern : String → String → Bool) (laws : BridgeLaws ops) (Seen : DdsTopic → Type 0)
    (distinguished : Distinguished Seen) where
  abbrev pub Good : DdsPipe Bridge RpcBridge → Type 0
  Good p = Consistent ops rpc match_pattern laws Seen distinguished p

  pub Serves-Good :
      (p p' : DdsPipe Bridge RpcBridge) → Serves ops rpc match_pattern p p' → Good p → Good p'
  unfolding is_allowed
  Serves-Good p p' s g = subst Good (sym s.is) (record {
    bridges = record {
      once = g.bridges.once;
      named = g.bridges.named;
      follows = g.bridges.follows;
    };
    flags = g.flags;
  })

  -- A pipe that is not enabled has no active topic, whatever is allowed.
  off_after :
      (p : DdsPipe Bridge RpcBridge)
      → Good p
      → p.enabled ≡ false
      → All (λ entry. entry.1.1 ≡ false) p.current_topics
  unfolding find
  off_after p g off =
      all_off p.current_topics g.bridges.once (λ k t a e. g.flags k t a e ∙ rw off refl)
    where
      all_off :
          (m : Map String (DdsTopic × Bool))
          → OnceEach m
          → ((k : String) (t : DdsTopic) (a : Bool) → find k m ≡ some (t, a) → a ≡ false)
          → All (λ entry. entry.1.1 ≡ false) m
      all_off [] d h = tt
      all_off ((n, (t, a)) ∷ m) d h = (
        h n t a (rw (beq_refl n) refl),
        all_off m d.1
            (λ k v b e. h k v b (rw (beq_ne k n (λ same. cc (d.0, has_of_some k m e))) e)),
      )

  switched :
      (a : Bool) (p : DdsPipe Bridge RpcBridge)
      → Follows ops rpc match_pattern laws Seen p
      → Follows ops rpc match_pattern laws Seen (record p { enabled = a })
  switched a p f = record { once = f.once; named = f.named; follows = f.follows }

  listed :
      (l : AllowedTopicList) (p : DdsPipe Bridge RpcBridge)
      → Follows ops rpc match_pattern laws Seen p
      → Follows ops rpc match_pattern laws Seen (record p { allowed_topics = l })
  listed l p f = record { once = f.once; named = f.named; follows = f.follows }

  gives :
      (q : DdsPipe Bridge RpcBridge) (c : ReturnCode) (r : DdsPipe Bridge RpcBridge × ReturnCode)
      {o : Option (DdsPipe Bridge RpcBridge × ReturnCode)}
      → o ≡ some (q, c)
      → o ≡ some r
      → Good q
      → Good r.0
  gives q c r is e g = subst Good (ap (λ x. x.0) whole) g
    where
      whole : (q, c) ≡ r
      whole = cc

  pub enable-Good :
      (p : DdsPipe Bridge RpcBridge) (r : DdsPipe Bridge RpcBridge × ReturnCode)
      → Good p
      → enable ops rpc match_pattern p ≡ some r
      → Good r.0
  unfolding enable
  enable-Good p r g e = elim (Bool-cases p.enabled) [
    | inl on ↦ gives p retcode_precondition_not_met r (rw (on, enable) refl) e g
    | inr off ↦
        let p_on = record p { enabled = true } in
        let q = activate_topics ops rpc match_pattern p.current_topics p_on in
        let good_q : Good q =
          activate_topics-Underway ops rpc match_pattern laws Seen distinguished p.current_topics
            p_on refl (off_after p g off)
            (begins ops rpc match_pattern laws Seen distinguished p_on
              (switched true p g.bridges)) in
        elim (Option-cases (enable_services ops rpc match_pattern p.current_services q)) [
          | inl failed ↦ absurd (ground (arith, failed, off))
          | inr (q', ran) ↦ gives q' retcode_ok r (rw (off, ran, enable) refl) e (
              Serves-Good q q'
                (enable_services-Serves ops rpc match_pattern p.current_services q q' ran) good_q)
        ]
  ]

  pub disable-Good :
      (p : DdsPipe Bridge RpcBridge) → Good p → Good (disable ops rpc match_pattern p).0
  unfolding disable
  disable-Good p g = elim (Bool-cases p.enabled) [
    | inl on ↦
        let p_off = record p { enabled = false } in
        rw (on, disable)
          (deactivate_topics-Underway ops rpc match_pattern laws Seen distinguished p.current_topics
            p_off refl
            (begins ops rpc match_pattern laws Seen distinguished p_off
              (switched false p g.bridges)))
    | inr off ↦
        let is : disable ops rpc match_pattern p ≡ (p, retcode_precondition_not_met) =
          ground (arith, off) in
        subst (λ (r : DdsPipe Bridge RpcBridge × ReturnCode). Good r.0) (sym is) g
  ]

  pub reload_allowed_topics-Good :
      (l : AllowedTopicList) (p : DdsPipe Bridge RpcBridge)
      (r : DdsPipe Bridge RpcBridge × ReturnCode)
      → Good p
      → reload_allowed_topics ops rpc match_pattern l p ≡ some r
      → Good r.0
  unfolding reload_allowed_topics
  reload_allowed_topics-Good l p r g e =
      elim (Bool-cases (same_allowed_topics l p.allowed_topics)) [
        | inl same ↦ gives p retcode_no_data r (rw (same, reload_allowed_topics) refl) e g
        | inr other ↦ elim (Bool-cases p.enabled) [
          | inr off ↦
              gives (record p { allowed_topics = l }) retcode_ok r
                (rw (other, off, reload_allowed_topics) refl) e
                (record {
                  bridges = listed l p g.bridges;
                  flags = λ k t a h. g.flags k t a h ∙ rw off refl;
                })
          | inl on ↦
              let p' = record p { allowed_topics = l } in
              let q = reload_topics ops rpc match_pattern p.current_topics p' in
              let good_q : Good q =
                reload_topics-Underway ops rpc match_pattern laws Seen distinguished
                  p.current_topics p' on
                  (begins ops rpc match_pattern laws Seen distinguished p'
                    (listed l p g.bridges)) in
              elim (Option-cases (reload_services ops rpc match_pattern p.current_services q)) [
                | inl failed ↦ absurd (ground (arith, failed, other, on))
                | inr (q', ran) ↦ gives q' retcode_ok r (ground (arith, other, on, ran)) e (
                    Serves-Good q q'
                      (reload_services-Serves ops rpc match_pattern p.current_services q q' ran)
                      good_q)
              ]
        ]
      ]
