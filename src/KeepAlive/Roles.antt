-- ===== src/KeepAlive/Roles.antt =====
-- The roles of a proxy whatever happens, and the end of its thread.
use ddsproxy.Common.{ℕ, ◌+◌, ◌-◌, ◌≤◌, ◌≡◌, refl, Bool, true, false, List, [], ◌∷◌, arith}
use ddsproxy.KeepAlive.{
  Phase, deciding, publishing, watching, sleeping, ended, KeepAlive, Event, proceeds,
  sample_arrives, publication_matched, stop, start_keep_alive, publish, decide, check_heartbeat,
  proceed, has_subscriber, hear, match, is_publishing, happen, happen_all,
}

abbrev Fit : KeepAlive → Type 0
Fit k =
    (is_publishing k.phase ≡ true → k.master_flag ≡ true)
    × (has_subscriber k.phase ≡ true → k.master_flag ≡ false)
    × (k.master_flag ≡ false → k.written ≡ 0)

happen-Fit : (event : Event) (k : KeepAlive) → Fit k → Fit (happen event k)
unfolding happen proceed decide publish check_heartbeat hear match has_subscriber is_publishing
happen-Fit (proceeds inits) k f = ground arith
happen-Fit (sample_arrives returned_ok alive) k f = ground arith
happen-Fit (publication_matched change n) k f = ground arith
happen-Fit stop k f = ground arith

pub happen-master :
    (event : Event) (k : KeepAlive) → k.master_flag ≡ true → (happen event k).master_flag ≡ true
unfolding happen proceed decide publish check_heartbeat hear match
happen-master (proceeds inits) k m = ground arith
happen-master (sample_arrives returned_ok alive) k m = ground arith
happen-master (publication_matched change n) k m = ground arith
happen-master stop k m = ground arith

happen_all-Fit : (events : List Event) (k : KeepAlive) → Fit k → Fit (happen_all events k)
unfolding happen_all
happen_all-Fit [] k f = f
happen_all-Fit (event ∷ events) k f = happen_all-Fit events (happen event k) (happen-Fit event k f)

happen_all-master :
    (events : List Event) (k : KeepAlive)
    → k.master_flag ≡ true
    → (happen_all events k).master_flag ≡ true
unfolding happen_all
happen_all-master [] k m = m
happen_all-master (event ∷ events) k m =
    happen_all-master events (happen event k) (happen-master event k m)

-- Whatever happens to a proxy from its start on: it publishes heartbeats only as the master, it
-- listens to them only as a slave, it has sent none while it is a slave, and a master stays the
-- master through everything that follows.
pub keep_alive_roles :
    (master : Bool) (events later : List Event)
    → let k = happen_all events (start_keep_alive master) in
      (is_publishing k.phase ≡ true → k.master_flag ≡ true)
      × (has_subscriber k.phase ≡ true → k.master_flag ≡ false)
      × (k.master_flag ≡ false → k.written ≡ 0)
      × (k.master_flag ≡ true → (happen_all later k).master_flag ≡ true)
unfolding start_keep_alive is_publishing has_subscriber
keep_alive_roles master events later =
    let f = happen_all-Fit events (start_keep_alive master) (ground arith) in
    (f.0, f.1, f.2, happen_all-master later (happen_all events (start_keep_alive master)))

-- The steps that the thread has left after a stop.
abbrev steps_left : Phase → ℕ
steps_left ended = 0
steps_left deciding = 1
steps_left publishing = 2
steps_left watching = 2
steps_left sleeping = 3

abbrev is_step : Event → ℕ
is_step (proceeds inits) = 1
is_step _ = 0

abbrev pub count_steps : List Event → ℕ
count_steps [] = 0
count_steps (event ∷ events) = is_step event + count_steps events

happen-steps_left :
    (event : Event) (k : KeepAlive)
    → k.force_exit ≡ true
    → (steps_left (happen event k).phase ≤ steps_left k.phase - is_step event)
      × ((happen event k).force_exit ≡ true)
unfolding happen proceed decide publish check_heartbeat hear match
happen-steps_left (proceeds inits) k x = ground arith
happen-steps_left (sample_arrives returned_ok alive) k x = ground arith
happen-steps_left (publication_matched change n) k x = ground arith
happen-steps_left stop k x = ground arith

happen_all-steps_left :
    (events : List Event) (k : KeepAlive)
    → k.force_exit ≡ true
    → steps_left (happen_all events k).phase ≤ steps_left k.phase - count_steps events
unfolding happen_all
happen_all-steps_left [] k x = ground arith
happen_all-steps_left (event ∷ events) k x =
    let (fewer, x') = happen-steps_left event k x in
    omega (arith, fewer, happen_all-steps_left events (happen event k) x')

steps_left-le : (phase : Phase) → steps_left phase ≤ 3
steps_left-le phase = ground arith

steps_left-eq_zero : (phase : Phase) → steps_left phase ≡ 0 → phase ≡ ended
steps_left-eq_zero phase e = ground arith

-- After a stop, in whatever state the thread is, three steps of it end it, whatever else happens in
-- between, so that the process can join it.
pub alive_topic_ends :
    (k : KeepAlive) (events : List Event)
    → 3 ≤ count_steps events
    → (happen_all events (happen stop k)).phase ≡ ended
unfolding happen
alive_topic_ends k events three =
    let few = happen_all-steps_left events (happen stop k) refl in
    steps_left-eq_zero _ (omega (arith, few, steps_left-le k.phase))
