-- ===== src/Communication/Track/Wake.antt =====
-- No sample is left behind by a Track of Track.cpp: while the track is enabled, a sample in the
-- reader has a thread on its way to it.
use ddsproxy.Common.{
  ℕ, ◌+◌, ◌^◌, ◌<◌, ◌≤◌, ◌≡◌, ◌≢◌, Bool, true, false, not, ◌||◌, nat_beq, ltb, arith,
}
use ddsproxy.Communication.Track.{no_more_data, transmitting_data}
use ddsproxy.Communication.Track.Transmit.{
  Transmission, Phase, free, testing, taking, closing, forwarding, Control, resting, enabling,
  arming, starting, disabling, stopping, silencing, should_transmit, DataAvailable, arrives,
  arrives_unheard, arrives_removed, arrives_disabled, hears, ignores, adds, emits, Transmits,
  starts, stores, spins, quits, takes, skips, finds_nothing, leaves, loses, closes, goes_on,
  forwards, Controls, enables, resets, arms, wakes, disables, drains, mutes, silences, exits,
  others, masters, Step, of_listener, of_pool, of_control, Reach, start, later, new_transmission,
  fetch_add, fetch_sub, in_loop,
}
use ddsproxy.Communication.Track.Order.{Ordered, Reach-Ordered}

-- `enable` has stored `no_more_data`.
abbrev is_reset : Control → Bool
is_reset arming = true
is_reset starting = true
is_reset resting = true
is_reset enabling = false
is_reset disabling = false
is_reset stopping = false
is_reset silencing = false

-- The thread that transmits looks at the reader again before it goes.
abbrev looks_again : Phase → ℕ → Bool
looks_again free status = false
looks_again testing status = true
looks_again taking status = true
looks_again closing status = not (nat_beq status transmitting_data)
looks_again forwarding status = true

-- A thread is on its way to the reader.
abbrev pub is_awake : Transmission → Bool
is_awake s =
    ltb 0 (s.listeners + (s.callbacks + (s.emitters + s.tasks)))
    || looks_again s.phase s.data_available_status

abbrev is_free : Phase → Bool
is_free free = true
is_free testing = false
is_free taking = false
is_free closing = false
is_free forwarding = false

abbrev pub Awake : Transmission → Type 0
Awake s =
    -- A status other than `no_more_data` has its task or its thread.
    (s.enabled ≡ true
      → is_reset s.control ≡ true
      → s.data_available_status ≢ no_more_data
      → s.emitters + s.tasks ≡ 0
      → is_free s.phase ≡ false)
    × (s.enabled ≡ true
        → s.control ≡ resting
        → (s.reliable || s.heard) ≡ true
        → s.waiting ≢ 0
        → is_awake s ≡ true)
    × (in_loop s.phase ≡ true
        → (s.data_available_status ≤ s.since + s.since + 1) × (s.since < 2 ^ 31))

DataAvailable-Awake :
    (s : Transmission) {t : Transmission} → DataAvailable s t → Ordered s → Awake s → Awake t
unfolding fetch_add
DataAvailable-Awake s (arrives e) i a = ground arith
DataAvailable-Awake s (arrives_unheard e kept) i a = ground arith
DataAvailable-Awake s (arrives_removed e best_effort) i a = ground arith
DataAvailable-Awake s (arrives_disabled e) i a = ground arith
DataAvailable-Awake s (hears {n} e on) i a = ground arith
DataAvailable-Awake s (ignores {n} e off) i a = ground arith
DataAvailable-Awake s (adds {n} e few) i a = ground arith
DataAvailable-Awake s (emits {n} e) i a = ground arith

Transmits-Awake :
    (s : Transmission) {t : Transmission} → Transmits s t → Ordered s → Awake s → Awake t
unfolding should_transmit fetch_sub
Transmits-Awake s (starts {n} e f) i a = ground arith
Transmits-Awake s (stores f sh m) i a = ground arith
Transmits-Awake s (spins f sh m) i a = ground arith
Transmits-Awake s (quits f sh) i a = ground arith
Transmits-Awake s (takes {n} f r w) i a = ground arith
Transmits-Awake s (skips {n} f r w) i a = ground arith
Transmits-Awake s (finds_nothing f r w) i a = ground arith
Transmits-Awake s (leaves f) i a = ground arith
Transmits-Awake s (loses {n} f r w) i a = ground arith
Transmits-Awake s (closes f st) i a = ground arith
Transmits-Awake s (goes_on f st) i a = ground arith
Transmits-Awake s (forwards f) i a = ground arith

Controls-Awake :
    (s : Transmission) {t : Transmission} → Controls s t → Ordered s → Awake s → Awake t
Controls-Awake s (enables c off ex) i a = ground arith
Controls-Awake s (resets c) i a = ground arith
Controls-Awake s (arms c) i a = ground arith
Controls-Awake s (wakes c) i a = ground arith
Controls-Awake s (disables c on) i a = ground arith
Controls-Awake s (drains c f) i a = ground arith
Controls-Awake s (mutes c) i a = ground arith
Controls-Awake s (silences c) i a = ground arith
Controls-Awake s (exits c off) i a = ground arith
Controls-Awake s (others flag) i a = ground arith
Controls-Awake s (masters flag) i a = ground arith

pub Step-Awake : (s t : Transmission) → Step s t → Ordered s → Awake s → Awake t
Step-Awake s t (of_listener m) i a = DataAvailable-Awake s m i a
Step-Awake s t (of_pool m) i a = Transmits-Awake s m i a
Step-Awake s t (of_control m) i a = Controls-Awake s m i a

pub Reach-Awake :
    (reliable flag : Bool) {s : Transmission} → Reach (new_transmission reliable flag) s → Awake s
Reach-Awake reliable flag start = ground arith
Reach-Awake reliable flag (later {t} {u} r m) =
    Step-Awake t u m (Reach-Ordered reliable flag r) (Reach-Awake reliable flag r)

-- However the threads of a Track interleave, with fewer than 2 ^ 31 callbacks between two stores of
-- the status: while the track is enabled, no call of `enable` is under way, and the topic is reliable
-- or a sample came since the reader was enabled, a sample in the reader has a listener, a task or the
-- transmitting thread on its way to it.
pub sample_noticed :
    (reliable flag : Bool) {s : Transmission}
    → Reach (new_transmission reliable flag) s
    → s.enabled ≡ true
    → s.control ≡ resting
    → (s.reliable || s.heard) ≡ true
    → s.waiting ≢ 0
    → is_awake s ≡ true
sample_noticed reliable flag r on rests noted some_left =
    (Reach-Awake reliable flag r).1 on rests noted some_left
