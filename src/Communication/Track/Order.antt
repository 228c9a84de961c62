-- ===== src/Communication/Track/Order.antt =====
-- What the order of the steps of `enable`, `disable` and `transmit_` of Track.cpp gives.
use ddsproxy.Common.{ℕ, ◌≡◌, Bool, true, false, arith}
use ddsproxy.Communication.Track.Transmit.{
  Transmission, Phase, free, testing, taking, closing, forwarding, Control, resting, enabling,
  arming, starting, disabling, stopping, silencing, should_transmit, DataAvailable, arrives,
  arrives_unheard, arrives_removed, arrives_disabled, hears, ignores, adds, emits, Transmits,
  starts, stores, spins, quits, takes, skips, finds_nothing, leaves, loses, closes, goes_on,
  forwards, Controls, enables, resets, arms, wakes, disables, drains, mutes, silences, exits,
  others, masters, Step, of_listener, of_pool, of_control, Reach, start, later, new_transmission,
  in_loop,
}

abbrev pub in_hand : Phase → ℕ
in_hand forwarding = 1
in_hand free = 0
in_hand testing = 0
in_hand taking = 0
in_hand closing = 0

-- `disable` has changed `enabled_` and is under way.
abbrev is_stopping : Control → Bool
is_stopping disabling = true
is_stopping stopping = true
is_stopping silencing = true
is_stopping resting = false
is_stopping enabling = false
is_stopping arming = false
is_stopping starting = false

abbrev is_enabling : Control → Bool
is_enabling enabling = true
is_enabling arming = true
is_enabling starting = true
is_enabling disabling = false
is_enabling stopping = false
is_enabling silencing = false
is_enabling resting = false

abbrev pub Ordered : Transmission → Type 0
Ordered s =
    (is_stopping s.control ≡ true → s.enabled ≡ false)
    × (is_enabling s.control ≡ true → s.enabled ≡ true)
    × (s.exit_flag ≡ true → s.enabled ≡ false)
    × (s.control ≡ resting → s.enabled ≡ s.reader_enabled)
    × (s.control ≡ disabling → s.reader_enabled ≡ true)
    × (s.control ≡ starting → s.other_disabled ≡ false → s.writers_enabled ≡ true)
    × (s.control ≡ silencing → s.reader_enabled ≡ false)
    × (s.reader_enabled ≡ true → s.other_disabled ≡ false → s.writers_enabled ≡ true)
    × (in_loop s.phase ≡ true → s.enabled ≡ false → s.control ≡ disabling)
    × (s.phase ≡ forwarding → s.reader_enabled ≡ true)

DataAvailable-Ordered :
    (s : Transmission) {t : Transmission} → DataAvailable s t → Ordered s → Ordered t
DataAvailable-Ordered s (arrives e) i = ground arith
DataAvailable-Ordered s (arrives_unheard e kept) i = ground arith
DataAvailable-Ordered s (arrives_removed e best_effort) i = ground arith
DataAvailable-Ordered s (arrives_disabled e) i = ground arith
DataAvailable-Ordered s (hears {n} e on) i = ground arith
DataAvailable-Ordered s (ignores {n} e off) i = ground arith
DataAvailable-Ordered s (adds {n} e few) i = ground arith
DataAvailable-Ordered s (emits {n} e) i = ground arith

Transmits-Ordered : (s : Transmission) {t : Transmission} → Transmits s t → Ordered s → Ordered t
unfolding should_transmit
Transmits-Ordered s (starts {n} e f) i = ground arith
Transmits-Ordered s (stores f sh m) i = ground arith
Transmits-Ordered s (spins f sh m) i = ground arith
Transmits-Ordered s (quits f sh) i = ground arith
Transmits-Ordered s (takes {n} f r w) i = ground arith
Transmits-Ordered s (skips {n} f r w) i = ground arith
Transmits-Ordered s (finds_nothing f r w) i = ground arith
Transmits-Ordered s (leaves f) i = ground arith
Transmits-Ordered s (loses {n} f r w) i = ground arith
Transmits-Ordered s (closes f st) i = ground arith
Transmits-Ordered s (goes_on f st) i = ground arith
Transmits-Ordered s (forwards f) i = ground arith

Controls-Ordered : (s : Transmission) {t : Transmission} → Controls s t → Ordered s → Ordered t
Controls-Ordered s (enables c off ex) i = ground arith
Controls-Ordered s (resets c) i = ground arith
Controls-Ordered s (arms c) i = ground arith
Controls-Ordered s (wakes c) i = ground arith
Controls-Ordered s (disables c on) i = ground arith
Controls-Ordered s (drains c f) i = ground arith
Controls-Ordered s (mutes c) i = ground arith
Controls-Ordered s (silences c) i = ground arith
Controls-Ordered s (exits c off) i = ground arith
Controls-Ordered s (others flag) i = ground arith
Controls-Ordered s (masters flag) i = ground arith

pub Step-Ordered : (s t : Transmission) → Step s t → Ordered s → Ordered t
Step-Ordered s t (of_listener m) i = DataAvailable-Ordered s m i
Step-Ordered s t (of_pool m) i = Transmits-Ordered s m i
Step-Ordered s t (of_control m) i = Controls-Ordered s m i

pub Reach-Ordered :
    (reliable flag : Bool) {s : Transmission} → Reach (new_transmission reliable flag) s → Ordered s
Reach-Ordered reliable flag start = ground arith
Reach-Ordered reliable flag (later {t} {u} r m) = Step-Ordered t u m (Reach-Ordered reliable flag r)

-- However the threads of a Track and the other tracks interleave: a sample is forwarded only while
-- the reader is enabled, and the writers are enabled too, unless another track that shares them has
-- disabled one since; and once `disable` has returned none is taken from the reader until `enable` is
-- called.
pub forwarding_enabled :
    (reliable flag : Bool) {s : Transmission}
    → Reach (new_transmission reliable flag) s
    → (s.phase ≡ forwarding
        → (s.reader_enabled ≡ true) × (s.other_disabled ≡ false → s.writers_enabled ≡ true))
      × (s.control ≡ resting → s.enabled ≡ false → in_loop s.phase ≡ false)
forwarding_enabled reliable flag {s} r = let i = Reach-Ordered reliable flag r in ground arith
