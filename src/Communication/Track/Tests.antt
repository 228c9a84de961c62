-- ===== src/Communication/Track/Tests.antt =====
-- The life of a Track: it is enabled, and samples come while a thread transmits.
use ddsproxy.Common.{◌≡◌, refl, true, false, arith}
use ddsproxy.Communication.Track.{transmitting_data}
use ddsproxy.Communication.Track.Transmit.{
  Transmission, forwarding, resting, should_transmit, arrives, hears, adds, emits, starts, stores,
  takes, enables, resets, arms, wakes, of_listener, of_pool, of_control, Reach, start, later,
  new_transmission, in_loop,
}
use ddsproxy.Communication.Track.Order.{forwarding_enabled}
use ddsproxy.Communication.Track.Wake.{is_awake, sample_noticed}
use ddsproxy.Communication.Track.Progress.{Emptied, all_forwarded}

-- `enable` has returned, and its call of the listener is yet to come.
abbrev enabled_track : Transmission
enabled_track = record (new_transmission true true) {
  enabled = true;
  reader_enabled = true;
  writers_enabled = true;
  listeners = 1;
}

enabled_reach : Reach (new_transmission true true) enabled_track
enabled_reach =
    later
      (later (later (later start (of_control (enables refl refl refl))) (of_control (resets refl)))
        (of_control (arms refl)))
      (of_control (wakes refl))

-- Two samples came, one call of the listener has emitted the task, and its thread has the first.
abbrev forwarding_track : Transmission
forwarding_track = record enabled_track {
  data_available_status = transmitting_data;
  phase = forwarding;
  waiting = 1;
  listeners = 2;
  heard = true;
}

forwarding_reach : Reach (new_transmission true true) forwarding_track
unfolding should_transmit
forwarding_reach =
    let two =
      later (later enabled_reach (of_listener (arrives refl))) (of_listener (arrives refl)) in
    let emitted =
      later
        (later (later two (of_listener (hears refl refl)))
          (of_listener (adds refl (λ e. absurd (cc e)))))
        (of_listener (emits refl)) in
    later (later (later emitted (of_pool (starts refl refl))) (of_pool (stores refl refl refl)))
      (of_pool (takes refl refl refl))

forwarding_enabled_example :
    (forwarding_track.phase ≡ forwarding
      → (forwarding_track.reader_enabled ≡ true)
        × (forwarding_track.other_disabled ≡ false → forwarding_track.writers_enabled ≡ true))
    × (forwarding_track.control ≡ resting
        → forwarding_track.enabled ≡ false
        → in_loop forwarding_track.phase ≡ false)
forwarding_enabled_example = forwarding_enabled true true forwarding_reach

sample_noticed_example : is_awake forwarding_track ≡ true
sample_noticed_example =
    sample_noticed true true forwarding_reach refl refl refl (λ e. absurd (omega (arith, e)))

all_forwarded_example : Emptied forwarding_track
all_forwarded_example =
    all_forwarded true true forwarding_reach (refl, refl, refl, refl, refl, refl)
