-- ===== src/KeepAlive/Takeover.antt =====
-- When a slave becomes the master.
use ddsproxy.Common.{
  ◌≢◌, ◌⊎◌, inl, inr, not, ℕ, zero, suc, ◌≡◌, Bool, true, false, ◌||◌, List, [], ◌∷◌, nat_beq, any,
  arith,
}
use ddsproxy.KeepAlive.Roles.{happen-master}
use ddsproxy.KeepAlive.{
  watching, sleeping, KeepAlive, proceeds, sample_arrives, check_heartbeat, proceed, has_subscriber,
  hear, happen,
}

-- `n` heartbeats of a master that is alive.
unfoldable pub heartbeats : ℕ → KeepAlive → KeepAlive
heartbeats zero k = k
heartbeats (suc n) k = heartbeats n (happen (sample_arrives true true) k)

-- The thread goes to sleep, hears its heartbeats, and wakes, once for each number.
unfoldable pub intervals : List ℕ → KeepAlive → KeepAlive
intervals [] k = k
intervals (n ∷ ns) k =
    intervals ns (happen (proceeds true) (heartbeats n (happen (proceeds true) k)))

-- A slave in front of the loop of its subscriber, with no heartbeat heard and no stop.
abbrev pub IsSlave : KeepAlive → Type 0
IsSlave k =
    (k.phase ≡ watching)
    × (k.master_flag ≡ false)
    × (k.force_exit ≡ false)
    × (k.heartbeat_arrived ≡ false)

abbrev IsAsleep : Bool → KeepAlive → Type 0
IsAsleep heard k =
    (k.phase ≡ sleeping)
    × (k.master_flag ≡ false)
    × (k.force_exit ≡ false)
    × (k.heartbeat_arrived ≡ heard)

heartbeats-IsAsleep :
    (n : ℕ) (heard : Bool) (k : KeepAlive)
    → IsAsleep heard k
    → IsAsleep (heard || not (nat_beq n 0)) (heartbeats n k)
unfolding heartbeats happen hear has_subscriber
heartbeats-IsAsleep zero heard k s = ground arith
heartbeats-IsAsleep (suc n) heard k s =
    let rest = heartbeats-IsAsleep n true (happen (sample_arrives true true) k) (ground arith) in
    ground arith

heartbeats-master :
    (n : ℕ) (k : KeepAlive) → k.master_flag ≡ true → (heartbeats n k).master_flag ≡ true
unfolding heartbeats
heartbeats-master zero k m = m
heartbeats-master (suc n) k m =
    heartbeats-master n (happen (sample_arrives true true) k) (happen-master _ k m)

intervals-master :
    (ns : List ℕ) (k : KeepAlive) → k.master_flag ≡ true → (intervals ns k).master_flag ≡ true
unfolding intervals
intervals-master [] k m = m
intervals-master (n ∷ ns) k m = intervals-master ns _ (
    happen-master (proceeds true) (heartbeats n (happen (proceeds true) k))
      (heartbeats-master n (happen (proceeds true) k) (happen-master (proceeds true) k m)))

proceed-IsAsleep : (k : KeepAlive) → IsSlave k → IsAsleep false (happen (proceeds true) k)
unfolding happen proceed
proceed-IsAsleep k s = ground arith

wake :
    (heard : Bool) (k : KeepAlive)
    → IsAsleep heard k
    → (heard ≡ true → IsSlave (happen (proceeds true) k))
      × (heard ≡ false → (happen (proceeds true) k).master_flag ≡ true)
unfolding happen proceed check_heartbeat
wake heard k s = ground arith

interval_cases :
    (n : ℕ) (k : KeepAlive)
    → IsSlave k
    → let k' = happen (proceeds true) (heartbeats n (happen (proceeds true) k)) in
      ((n ≡ 0) × (k'.master_flag ≡ true)) ⊎ ((n ≢ 0) × IsSlave k')
interval_cases n k s =
    let asleep = heartbeats-IsAsleep n false (happen (proceeds true) k) (proceed-IsAsleep k s) in
    let woken = wake (not (nat_beq n 0)) (heartbeats n (happen (proceeds true) k)) asleep in
    ground arith

-- A slave that sleeps once for each number of a list, and hears so many heartbeats of a live master
-- each time, is the master at the end exactly if one of the numbers is 0.
pub takes_over_iff :
    (ns : List ℕ) (k : KeepAlive)
    → IsSlave k
    → (intervals ns k).master_flag ≡ any (λ n. nat_beq n 0) ns
unfolding intervals
takes_over_iff [] k s = s.1
takes_over_iff (n ∷ ns) k s = elim (interval_cases n k s) [
  | inl (e, m) ↦ ground (
    arith,
    intervals-master ns (happen (proceeds true) (heartbeats n (happen (proceeds true) k))) m,
  )
  | inr (ne, s') ↦ ground (
    arith,
    takes_over_iff ns (happen (proceeds true) (heartbeats n (happen (proceeds true) k))) s',
  )
]
