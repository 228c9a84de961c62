-- ===== src/Payload/Fast/Clients.antt =====
-- The users of a FastPayloadPool, in threads: they hold the payloads that they got and did not release,
-- and `releasing` has the payloads whose `release_payload` is between its two accesses to the counter.
use ddsproxy.Common.{
  ℕ, ◌≤◌, Bool, true, false, none, some, List, [], ◌∷◌, length, get_elem?, remove_at,
}
use ddsproxy.Payload.Memory.{Payload, Outcome, done, thrown, fault, ◌>>=◌, empty_payload}
use ddsproxy.Payload.Holders.{AllApart}
use ddsproxy.Payload.Pool.{PoolState, init}
use ddsproxy.Payload.Fast.{get_payload, get_payload_from, drop_reference, finish_release}

pub record World : Type 0 where
  pub pool : PoolState
  pub held : List Payload
  pub releasing : List Payload

-- A new payload of some size; a copy of a payload of another owner, whose length is within its
-- size; a second reference to the `i`-th held payload; the first access of the release of the `i`-th;
-- and the second one of the `i`-th release that is under way.
pub data Request : Type 0 where
  reserves : ℕ → Request
  copies : (src : Payload) (octets : List ℕ) → length octets ≤ src.max_size → Request
  shares releases finishes : ℕ → Request

abbrev pub obtained : World → Outcome PoolState (Bool × Payload) → Outcome World (Unit {0})
obtained w (done (true, p) s) = done tt (record w { pool = s; held = p ∷ w.held })
obtained w (done (false, p) s) = done tt (record w { pool = s })
obtained w (thrown e s) = thrown e (record w { pool = s })
obtained w fault = fault

abbrev pub returned : {A : Type 0} → World → Outcome PoolState A → Outcome World (Unit {0})
returned w (done r s) = done tt (record w { pool = s })
returned w (thrown e s) = thrown e (record w { pool = s })
returned w fault = fault

unfoldable pub step : ℕ → Request → World → Outcome World (Unit {0})
step this (reserves size) w = obtained w (get_payload size empty_payload w.pool)
step this (copies src octets _) w =
    obtained w (get_payload_from this src octets none empty_payload w.pool)
step this (shares i) w = elim (get_elem? w.held i) [
  | none ↦ done tt w
  | some src ↦ obtained w (get_payload_from this src [] (some this) empty_payload w.pool)
]
step this (releases i) w = elim (get_elem? w.held i) [
  | none ↦ done tt w
  | some p ↦
      returned (record w { held = remove_at w.held i; releasing = p ∷ w.releasing })
        (drop_reference p w.pool)
]
step this (finishes i) w = elim (get_elem? w.releasing i) [
  | none ↦ done tt w
  | some p ↦ returned (record w { releasing = remove_at w.releasing i }) (finish_release p w.pool)
]

unfoldable pub run : ℕ → List Request → World → Outcome World (Unit {0})
run this [] w = done tt w
run this (r ∷ rs) w = step this r w >>= λ x. run this rs x.1

unfoldable pub start : World
unfolding init
start = record { pool = init; held = []; releasing = [] }

-- A release does not start while another one of the same block is under way.
abbrev pub IsAlone : Request → World → Type 0
IsAlone (releases i) w = elim (get_elem? w.held i) [
  | none ↦ Unit {0}
  | some p ↦ AllApart p w.releasing
]
IsAlone _ w = Unit {0}

abbrev pub AfterDone : (World → Type 0) → Outcome World (Unit {0}) → Type 0
AfterDone f (done _ w) = f w
AfterDone f _ = Unit {0}

abbrev pub Apart : ℕ → List Request → World → Type 0
Apart this [] w = Unit {0}
Apart this (r ∷ rs) w = IsAlone r w × AfterDone (Apart this rs) (step this r w)
