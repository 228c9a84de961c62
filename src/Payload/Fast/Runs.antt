-- ===== src/Payload/Fast/Runs.antt =====
-- Every use of a FastPayloadPool by its users, from the first reservation to the last release.
use ddsproxy.Common.{
  ℕ, ◌+◌, ◌<◌, ◌≤◌, ◌≡◌, refl, true, some, List, [], ◌∷◌, arith, nat_beq, nat_key, length,
  get_elem?, Option-cases, inl, inr, beq_refl, ap, sym, ◌∙◌, ◌↔◌,
}
use mathlib.Core.Path.{subst}
use ddsproxy.Common.Map.{Map, find}
use ddsproxy.Payload.Memory.{Payload, Block, done}
use ddsproxy.Payload.Pool.{uint64_mod, init, is_clean}
use ddsproxy.Payload.Holders.{holders, HaveData}
use ddsproxy.Payload.Fast.{uint32_mod}
use ddsproxy.Payload.Fast.Steps.{
  Ends, stays, weaken, reserves-Ends, copies-Ends, shares-Ends, releases-Ends, finishes-Ends,
}
use ddsproxy.Payload.Fast.Clients.{
  World, Request, reserves, copies, shares, releases, finishes, step, run, start, IsAlone,
  AfterDone, Apart,
}
use ddsproxy.Payload.Fast.Sharing.{Inv, references_at}

step-Ends :
    (this : ℕ) (r : Request) (w : World)
    → IsAlone r w
    → Inv w
    → length w.held + 1 < uint32_mod
    → w.pool.reserve_count + 1 < uint64_mod
    → Ends (step this r w) (length w.held + 1) (w.pool.reserve_count + 1)
unfolding step
step-Ends this (reserves size) w alone v room count =
    reserves-Ends this w.pool w.held w.releasing v room count size
step-Ends this (copies src octets fits) w alone v room count =
    copies-Ends this w.pool w.held w.releasing v room count src octets fits
step-Ends this (shares i) w alone v room count = elim (Option-cases (get_elem? w.held i)) [
  | inl out ↦ rw (out, step) (stays w 1 1 v)
  | inr (src, e) ↦ rw (e, step) (shares-Ends this w.pool w.held w.releasing v room count i src e)
]
step-Ends this (releases i) w alone v room count = elim (Option-cases (get_elem? w.held i)) [
  | inl out ↦ rw (out, step) (stays w 1 1 v)
  | inr (h, e) ↦
      rw (e, step)
        (weaken (
          releases-Ends this w.pool w.held w.releasing v room count i h e
            (rw (IsAlone, e) at alone)))
]
step-Ends this (finishes i) w alone v room count = elim (Option-cases (get_elem? w.releasing i)) [
  | inl out ↦ rw (out, step) (stays w 1 1 v)
  | inr (h, e) ↦
      rw (e, step) (weaken (finishes-Ends this w.pool w.held w.releasing v room count i h e))
]

run-Ends :
    (this : ℕ) (rs : List Request) (w : World)
    → Apart this rs w
    → Inv w
    → length w.held + length rs < uint32_mod
    → w.pool.reserve_count + length rs < uint64_mod
    → Ends (run this rs w) (length w.held + length rs) (w.pool.reserve_count + length rs)
unfolding run
run-Ends this [] w apart v room count = stays w 0 0 v
run-Ends this (r ∷ rs) w apart v room count =
    let one = step-Ends this r w apart.0 v (omega arith) (omega arith) in
    let few : length one.world.held ≤ length w.held + 1 = one.few in
    let counts : one.world.pool.reserve_count ≤ w.pool.reserve_count + 1 = one.counts in
    let rest =
      run-Ends this rs one.world (subst (AfterDone (Apart this rs)) one.ends apart.1) one.inv
        (omega arith) (omega arith) in
    record {
      world = rest.world;
      ends = rw one.ends rest.ends;
      inv = rest.inv;
      few = omega (arith, rest.few);
      counts = omega (arith, rest.counts);
    }

start-Inv : Inv start
unfolding start init find
start-Inv = record {
  counted = λ p. refl;
  referenced = λ p b e. cc;
  fresh = λ p le. refl;
  single = λ p. omega arith;
  there = λ p e. refl;
  have_data = tt;
  releasing_data = tt;
  ordered = tt;
  balanced = omega arith;
}

-- Whatever the users of a FastPayloadPool do and however the two accesses of their releases interleave,
-- as long as there are fewer than 2 ^ 32 requests and no release of a block starts while another one
-- of the same block is between its two accesses: no request touches memory that is not there or
-- throws, and the invariant of the counters holds at the end.
pub run-Inv :
    (this : ℕ) (rs : List Request)
    → length rs < uint32_mod
    → Apart this rs start
    → (w : World) × (run this rs start ≡ done tt w) × Inv w
unfolding start init
run-Inv this rs few apart =
    let e = run-Ends this rs start apart start-Inv (omega arith) (omega arith) in
    (e.world, e.ends, e.inv)

no_blocks :
    (m : Map ℕ Block)
    → ((p : ℕ) → references_at p m ≡ 0)
    → ((p : ℕ) (b : Block) → find p m ≡ some b → 0 < b.references)
    → m ≡ []
unfolding find
no_blocks [] zeros pos = refl
no_blocks ((p, b) ∷ m) zeros pos = absurd (ground (arith, zeros p, pos p b, beq_refl p))

no_holders : (hs : List Payload) → HaveData hs → ((p : ℕ) → holders p hs ≡ 0) → hs ≡ []
no_holders [] d zeros = refl
no_holders (h ∷ hs) d zeros = elim (Option-cases h.data_) [
  | inl e ↦ absurd (d.0 e)
  | inr (p, e) ↦ absurd (ground (arith, zeros p, beq_refl p))
]

clean-Inv :
    (w : World)
    → Inv w
    → ((is_clean w.pool ≡ true) ↔ ((w.held ≡ []) × (w.releasing ≡ [])))
      × (w.held ≡ [] → w.releasing ≡ [] → w.pool.memory.blocks ≡ [])
unfolding is_clean find
clean-Inv w v = (
  (
    λ clean. (
      no_holders w.held v.have_data (none_held (emptied clean)),
      no_holders w.releasing v.releasing_data (λ p. v.there p (rw (emptied clean) refl)),
    ),
    λ e. ground (arith, v.balanced, ap length (freed e.0 e.1)),
  ),
  freed,
)
  where
    freed : w.held ≡ [] → w.releasing ≡ [] → w.pool.memory.blocks ≡ []
    freed e f =
        no_blocks w.pool.memory.blocks (λ p. ground (arith, v.counted p))
          (λ p b g. ground (arith, v.referenced p b g, ap (holders p) f))

    emptied : nat_beq w.pool.reserve_count w.pool.release_count ≡ true → w.pool.memory.blocks ≡ []
    emptied clean = no_length w.pool.memory.blocks (ground (arith, v.balanced))
      where
        no_length : (m : Map ℕ Block) → length m ≡ 0 → m ≡ []
        no_length [] e = refl
        no_length (x ∷ m) e = absurd (omega arith)

    none_held : w.pool.memory.blocks ≡ [] → (p : ℕ) → holders p w.held ≡ 0
    none_held e p = sym (v.counted p) ∙ rw e refl

-- As long as there are fewer than 2 ^ 32 requests and no release of a block starts while another one
-- of the same block is between its two accesses: a FastPayloadPool reports that it is clean exactly
-- when every payload that it gave out was released and no release is under way, and then no block is
-- left.
pub is_clean_iff :
    (this : ℕ) (rs : List Request) (w : World)
    → length rs < uint32_mod
    → Apart this rs start
    → run this rs start ≡ done tt w
    → ((is_clean w.pool ≡ true) ↔ ((w.held ≡ []) × (w.releasing ≡ [])))
      × (w.held ≡ [] → w.releasing ≡ [] → w.pool.memory.blocks ≡ [])
is_clean_iff this rs w few apart e =
    let (u, ran, v) = run-Inv this rs few apart in clean-Inv w (subst Inv (same u ran) v)
  where
    same : (u : World) → run this rs start ≡ done tt u → u ≡ w
    same u ran = cc
