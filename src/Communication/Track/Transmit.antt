-- ===== src/Communication/Track/Transmit.antt =====
-- The transmission of data by a Track of Track.cpp, in threads: the listener of the reader calls
-- `data_available_`, the thread pool calls `transmit_`, and `enable`, `disable` and the destructor
-- come from elsewhere. One step is one access to what they share, and the steps interleave freely.
use ddsproxy.Common.{
  ℕ, ◌+◌, ◌-◌, ◌^◌, ◌%◌, ◌<◌, ◌≡◌, ◌≢◌, Bool, true, false, not, ◌&&◌, nat_beq, if◌then◌else◌,
}
use ddsproxy.Communication.Track.{no_more_data, transmitting_data, new_data_arrived}

-- Where the thread is that holds `on_transmission_mutex_`, if one does: before `should_transmit_`,
-- before `take`, before `fetch_sub`, or before the loop over the writers.
pub data Phase : Type 0 where
  free testing taking closing forwarding : Phase

-- The thread of `transmit_` is past `should_transmit_`.
abbrev pub in_loop : Phase → Bool
in_loop free = false
in_loop testing = false
in_loop taking = true
in_loop closing = true
in_loop forwarding = true

-- Where the thread is that holds `track_mutex_` in `enable` or `disable`, if one does.
pub data Control : Type 0 where
  resting enabling arming starting disabling stopping silencing : Control

-- `enabled_`, `exit_`, the global `master_flag` and `data_available_status_`; whether the reader and
-- the writers are enabled; the samples in the reader; the listeners before the test of `enabled_`,
-- before `fetch_add` and before `emit_by_priority`; the tasks that were emitted and do not hold the
-- mutex yet. `reliable` is of the topic. The writers are shared with other tracks of the bridge:
-- `writers_enabled` tells that all of them are enabled. The last fields only record: whether a sample
-- came since the reader was enabled, whether another track was the last to switch the writers and
-- disabled them, the calls of `fetch_add` since `transmit_` stored its status, and the samples that
-- were forwarded, and that `take` dropped.
pub record Transmission : Type 0 where
  pub reliable : Bool
  pub enabled : Bool
  pub exit_flag : Bool
  pub master_flag : Bool
  pub data_available_status : ℕ
  pub reader_enabled : Bool
  pub writers_enabled : Bool
  pub phase : Phase
  pub control : Control
  pub waiting : ℕ
  pub listeners : ℕ
  pub callbacks : ℕ
  pub emitters : ℕ
  pub tasks : ℕ
  pub heard : Bool
  pub other_disabled : Bool
  pub since : ℕ
  pub sent : ℕ
  pub lost : ℕ

unfoldable pub should_transmit : Transmission → Bool
should_transmit s = not s.exit_flag && s.enabled

-- `fetch_add` and `fetch_sub` of an `unsigned int`
unfoldable pub fetch_add : ℕ → ℕ → ℕ
fetch_add n status = (status + n) % 2 ^ 32

unfoldable pub fetch_sub : ℕ → ℕ → ℕ
fetch_sub n status = (status + (2 ^ 32 - n)) % 2 ^ 32

-- Samples come to the reader, and the listener calls `data_available_`. While it is not enabled, a
-- reader of RTPS keeps a sample of a reliable topic quietly and removes any other; a reader of DDS
-- keeps every sample and calls the listener.
pub data DataAvailable (s : Transmission) : Transmission → Type 0 where
  arrives :
      s.reader_enabled ≡ true
      → DataAvailable s
          (record s { waiting = s.waiting + 1; heard = true; listeners = s.listeners + 1 })
  arrives_unheard :
      s.reader_enabled ≡ false
      → s.reliable ≡ true
      → DataAvailable s (record s { waiting = s.waiting + 1 })
  arrives_removed : s.reader_enabled ≡ false → s.reliable ≡ false → DataAvailable s s
  arrives_disabled :
      s.reader_enabled ≡ false
      → DataAvailable s (record s { waiting = s.waiting + 1; listeners = s.listeners + 1 })
  hears :
      {n : ℕ}
      → s.listeners ≡ n + 1
      → s.enabled ≡ true
      → DataAvailable s (record s { listeners = n; callbacks = s.callbacks + 1 })
  ignores :
      {n : ℕ}
      → s.listeners ≡ n + 1
      → s.enabled ≡ false
      → DataAvailable s (record s { listeners = n })
  -- Fewer than 2 ^ 31 callbacks come between two stores of `transmit_`.
  adds :
      {n : ℕ}
      → s.callbacks ≡ n + 1
      → (in_loop s.phase ≡ true → s.since + 1 < 2 ^ 31)
      → DataAvailable s (record s {
        callbacks = n;
        data_available_status = fetch_add new_data_arrived s.data_available_status;
        since = s.since + 1;
        emitters =
            if nat_beq s.data_available_status no_more_data then s.emitters + 1 else s.emitters;
      })
  emits :
      {n : ℕ}
      → s.emitters ≡ n + 1
      → DataAvailable s (record s { emitters = n; tasks = s.tasks + 1 })

-- `transmit_`. A `take` with an error other than RETCODE_NO_DATA leaves its sample or loses it; one
-- of a reader that is not enabled always is such. A `take` drops the samples that are not acceptable
-- on its way to one that is.
pub data Transmits (s : Transmission) : Transmission → Type 0 where
  starts :
      {n : ℕ}
      → s.tasks ≡ n + 1
      → s.phase ≡ free
      → Transmits s (record s { tasks = n; phase = testing })
  stores :
      s.phase ≡ testing
      → should_transmit s ≡ true
      → s.master_flag ≡ true
      → Transmits s
          (record s { phase = taking; data_available_status = transmitting_data; since = 0 })
  spins : s.phase ≡ testing → should_transmit s ≡ true → s.master_flag ≡ false → Transmits s s
  quits : s.phase ≡ testing → should_transmit s ≡ false → Transmits s (record s { phase = free })
  takes :
      {n : ℕ}
      → s.phase ≡ taking
      → s.reader_enabled ≡ true
      → s.waiting ≡ n + 1
      → Transmits s (record s { waiting = n; phase = forwarding })
  skips :
      {n : ℕ}
      → s.phase ≡ taking
      → s.reader_enabled ≡ true
      → s.waiting ≡ n + 1
      → Transmits s (record s { waiting = n; lost = s.lost + 1 })
  finds_nothing :
      s.phase ≡ taking
      → s.reader_enabled ≡ true
      → s.waiting ≡ 0
      → Transmits s (record s { phase = closing })
  leaves : s.phase ≡ taking → Transmits s (record s { phase = testing })
  loses :
      {n : ℕ}
      → s.phase ≡ taking
      → s.reader_enabled ≡ true
      → s.waiting ≡ n + 1
      → Transmits s (record s { waiting = n; lost = s.lost + 1; phase = testing })
  closes :
      s.phase ≡ closing
      → s.data_available_status ≡ transmitting_data
      → Transmits s (record s {
        data_available_status = fetch_sub transmitting_data s.data_available_status;
        phase = free;
      })
  goes_on :
      s.phase ≡ closing
      → s.data_available_status ≢ transmitting_data
      → Transmits s (record s {
        data_available_status = fetch_sub transmitting_data s.data_available_status;
        phase = testing;
      })
  forwards : s.phase ≡ forwarding → Transmits s (record s { sent = s.sent + 1; phase = testing })

-- `enable`, `disable` and the destructor, the changes of the global `master_flag`, and the other
-- tracks, which enable and disable the writers that they share. A reader of a reliable topic that
-- becomes enabled calls the listener for what it has kept.
pub data Controls (s : Transmission) : Transmission → Type 0 where
  enables :
      s.control ≡ resting
      → s.enabled ≡ false
      → s.exit_flag ≡ false
      → Controls s (record s { enabled = true; control = enabling })
  resets :
      s.control ≡ enabling
      → Controls s (record s { data_available_status = no_more_data; control = arming })
  arms :
      s.control ≡ arming
      → Controls s (record s { writers_enabled = true; other_disabled = false; control = starting })
  wakes :
      s.control ≡ starting
      → Controls s (record s {
        reader_enabled = true;
        heard = false;
        listeners = if s.reliable then s.listeners + 1 else s.listeners;
        control = resting;
      })
  disables :
      s.control ≡ resting
      → s.enabled ≡ true
      → Controls s (record s { enabled = false; control = disabling })
  drains : s.control ≡ disabling → s.phase ≡ free → Controls s (record s { control = stopping })
  mutes :
      s.control ≡ stopping → Controls s (record s { reader_enabled = false; control = silencing })
  silences :
      s.control ≡ silencing → Controls s (record s { writers_enabled = false; control = resting })
  exits : s.control ≡ resting → s.enabled ≡ false → Controls s (record s { exit_flag = true })
  others :
      (flag : Bool) → Controls s (record s { writers_enabled = flag; other_disabled = not flag })
  masters : (flag : Bool) → Controls s (record s { master_flag = flag })

pub data Step (s t : Transmission) : Type 0 where
  of_listener : DataAvailable s t → Step s t
  of_pool : Transmits s t → Step s t
  of_control : Controls s t → Step s t

-- A new Track of a topic that is reliable or not, with the global flag as it is.
abbrev pub new_transmission : Bool → Bool → Transmission
new_transmission reliable flag = record {
  reliable = reliable;
  enabled = false;
  exit_flag = false;
  master_flag = flag;
  data_available_status = no_more_data;
  reader_enabled = false;
  writers_enabled = false;
  phase = free;
  control = resting;
  waiting = 0;
  listeners = 0;
  callbacks = 0;
  emitters = 0;
  tasks = 0;
  heard = false;
  other_disabled = false;
  since = 0;
  sent = 0;
  lost = 0;
}

pub data Reach (s : Transmission) : Transmission → Type 0 where
  start : Reach s s
  later : {t u : Transmission} → Reach s t → Step t u → Reach s u
