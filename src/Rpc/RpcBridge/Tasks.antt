-- ===== src/Rpc/RpcBridge/Tasks.antt =====
-- The tasks of one reader of an RpcBridge of RpcBridge.cpp: the listener calls `data_available_`
-- with the mutex of the reader, the thread pool calls `transmit_`, which tests under that mutex, and
-- `enable` and `disable` come from elsewhere. The steps interleave freely.
mod Tests
use ddsproxy.Common.{
  ℕ, zero, suc, ◌+◌, ◌≤◌, ◌≡◌, ◌≢◌, refl, Bool, true, false, not, ◌&&◌, ◌||◌, ltb, if◌then◌else◌,
  arith,
}

-- Where the thread is that holds `mutex_` in `enable` or `disable`, if one does.
pub data Switch : Type 0 where
  resting starting stopping muting : Switch

-- Whether the topic is reliable; `enabled_`, the flag of the reader in `tasks_map_`, whether the reader
-- is enabled and its unread count; `heard` only records whether a sample came since that; the tasks that were emitted and did not start, and the threads in `transmit_` before the test
-- and before `take`.
pub record Service : Type 0 where
  pub reliable : Bool
  pub enabled : Bool
  pub queued : Bool
  pub reader_enabled : Bool
  pub unread : ℕ
  pub heard : Bool
  pub tasks : ℕ
  pub testing : ℕ
  pub taking : ℕ
  pub switch : Switch

-- `create_slot_`, before the first `enable`.
abbrev pub new_service : Bool → Service
new_service reliable = record {
  reliable = reliable;
  enabled = false;
  queued = false;
  reader_enabled = false;
  unread = 0;
  heard = false;
  tasks = 0;
  testing = 0;
  taking = 0;
  switch = resting;
}

unfoldable pub data_available : Service → Service
data_available s =
    if s.enabled
    then (if s.queued then s else record s { queued = true; tasks = s.tasks + 1 })
    else s

-- What `enable_nts_` of the reader does.
unfoldable pub woken : Service → Service
woken s = if s.reliable then data_available s else s

-- The test of the loop of `transmit_`.
unfoldable pub should_go_on : Service → Bool
should_go_on s = s.enabled && ltb 0 s.unread

-- A reader that is not enabled keeps a sample of a reliable topic and removes any other; when it
-- becomes enabled it calls the listener if the topic is reliable.
pub data Serving (s : Service) : Service → Type 0 where
  arrives :
      s.reader_enabled ≡ true
      → Serving s (data_available (record s { unread = s.unread + 1; heard = true }))
  arrives_unheard :
      s.reader_enabled ≡ false → s.reliable ≡ true → Serving s (record s { unread = s.unread + 1 })
  arrives_removed : s.reader_enabled ≡ false → s.reliable ≡ false → Serving s s
  starts : {n : ℕ} → s.tasks ≡ n + 1 → Serving s (record s { tasks = n; testing = s.testing + 1 })
  goes_on :
      {n : ℕ}
      → s.testing ≡ n + 1
      → should_go_on s ≡ true
      → Serving s (record s { testing = n; taking = s.taking + 1 })
  finishes :
      {n : ℕ}
      → s.testing ≡ n + 1
      → should_go_on s ≡ false
      → Serving s (record s { testing = n; queued = false })
  takes :
      {n m : ℕ}
      → s.taking ≡ n + 1
      → s.unread ≡ m + 1
      → Serving s (record s { taking = n; unread = m; testing = s.testing + 1 })
  -- A `take` with an error may leave the sample.
  fails : {n : ℕ} → s.taking ≡ n + 1 → Serving s (record s { taking = n; testing = s.testing + 1 })
  enables :
      s.switch ≡ resting
      → s.enabled ≡ false
      → Serving s (record s { enabled = true; switch = starting })
  wakes :
      s.switch ≡ starting
      → Serving s (woken (record s { reader_enabled = true; heard = false; switch = resting }))
  disables :
      s.switch ≡ resting
      → s.enabled ≡ true
      → Serving s (record s { enabled = false; switch = stopping })
  -- `on_transmission_mutex_` is free of the threads in `transmit_`.
  drains : s.switch ≡ stopping → s.testing + s.taking ≡ 0 → Serving s (record s { switch = muting })
  mutes : s.switch ≡ muting → Serving s (record s { reader_enabled = false; switch = resting })

pub data Served (reliable : Bool) : Service → Type 0 where
  start : Served reliable (new_service reliable)
  later : {s t : Service} → Served reliable s → Serving s t → Served reliable t

abbrev Sound : Service → Type 0
Sound s =
    (s.tasks + (s.testing + s.taking) ≡ (if s.queued then 1 else 0))
    × (s.switch ≡ resting → s.enabled ≡ s.reader_enabled)
    × (s.switch ≡ starting → s.enabled ≡ true)
    × (s.switch ≡ muting → s.enabled ≡ false)
    × (s.switch ≡ stopping → s.enabled ≡ false)
    × (s.taking ≢ 0 → s.unread ≢ 0)
    × (s.enabled ≡ true
        → s.switch ≡ resting
        → (s.reliable || s.heard) ≡ true
        → s.unread ≢ 0
        → s.queued ≡ true)

Serving-Sound : (s : Service) {t : Service} → Serving s t → Sound s → Sound t
unfolding data_available woken should_go_on
Serving-Sound s (arrives e) i = ground arith
Serving-Sound s (arrives_unheard e kept) i = ground arith
Serving-Sound s (arrives_removed e best_effort) i = ground arith
Serving-Sound s (starts {n} e) i = ground arith
Serving-Sound s (goes_on {n} e g) i = ground arith
Serving-Sound s (finishes {n} e g) i = ground arith
Serving-Sound s (takes {n} {m} e u) i = ground arith
Serving-Sound s (fails {n} e) i = ground arith
Serving-Sound s (enables w off) i = ground arith
Serving-Sound s (wakes w) i = ground arith
Serving-Sound s (disables w on) i = ground arith
Serving-Sound s (drains w f) i = ground arith
Serving-Sound s (mutes w) i = ground arith

Served-Sound : {reliable : Bool} {s : Service} → Served reliable s → Sound s
Served-Sound start = ground arith
Served-Sound (later {s} r m) = Serving-Sound s m (Served-Sound r)

-- However the threads interleave: a reader of a service has at most one task or thread; that thread
-- calls `take` only when there is a sample, so that it does not get RETCODE_NO_DATA; and while the
-- bridge is enabled, no call of `enable` is under way, and the topic is reliable or a sample came
-- since the reader was enabled, a sample in the reader has its task or its thread.
pub service_served :
    {reliable : Bool} {s : Service}
    → Served reliable s
    → (s.tasks + (s.testing + s.taking) ≤ 1)
      × (s.taking ≢ 0 → s.unread ≢ 0)
      × (s.enabled ≡ true
          → s.switch ≡ resting
          → (s.reliable || s.heard) ≡ true
          → s.unread ≢ 0
          → s.tasks + (s.testing + s.taking) ≡ 1)
service_served {s} r = let i = Served-Sound r in ground arith
