-- ===== src/KeepAlive.antt =====
-- The thread of ddsproxy/ddsproxy_main/src/cpp/main.cpp that watches the master, with the publisher
-- and the subscriber of heartbeats of keep_alived, and the arguments that give a proxy its role. An
-- event is one thing that happens to the thread: its own next step, a heartbeat, a match, a stop.
pub mod Takeover
pub mod Roles
mod Tests
use ddsproxy.Common.{
  ℕ, zero, suc, ◌+◌, ◌-◌, Bool, true, false, not, ◌||◌, Option, none, some, List, [], ◌∷◌, ltb,
  ◌==◌, string_key, if◌then◌else◌,
}
use Prim.Native.String.{String}

-- Where the thread is: before the test of its loop, in the loop of the publisher, before the test of
-- the loop of the subscriber, asleep there, or returned.
pub data Phase : Type 0 where
  deciding publishing watching sleeping ended : Phase

-- `master_flag`, `heartbeat_arrived` and `force_exit` are global; `matched` and `first_connected` are of
-- the listener of the present publisher, `samples` of the one of the present subscriber; `written`
-- only counts the heartbeats that this proxy has sent.
pub record KeepAlive : Type 0 where
  pub master_flag : Bool
  pub heartbeat_arrived : Bool
  pub force_exit : Bool
  pub phase : Phase
  pub matched : ℕ
  pub first_connected : Bool
  pub samples : ℕ
  pub written : ℕ

-- A change of the matched readers: one more, one less, or another number that is reported only.
pub data Change : Type 0 where
  matches unmatches other : Change

-- `proceeds` tells whether `init` works, should the thread call it; `sample_arrives` whether
-- `take_next_sample` returns a sample, and whether its instance is alive.
pub data Event : Type 0 where
  proceeds : Bool → Event
  sample_arrives : Bool → Bool → Event
  publication_matched : Change → ℕ → Event
  stop : Event

-- The arguments after the command: whether this proxy is the master, the text of its interval if
-- it is not, and the other arguments; nothing where the code reads past them. An unknown first
-- argument is skipped, and the flag keeps its first value, false.
unfoldable pub parse_role : List String → Option (Bool × Option String × List String)
parse_role [] = none
parse_role (role ∷ args) = if role == "master" then some (true, none, args) else read_interval args
  where
    read_interval : List String → Option (Bool × Option String × List String)
    read_interval [] = none
    read_interval (interval ∷ rest) = some (false, some interval, rest)

unfoldable pub start_keep_alive : Bool → KeepAlive
start_keep_alive master = record {
  master_flag = master;
  heartbeat_arrived = false;
  force_exit = false;
  phase = deciding;
  matched = 0;
  first_connected = false;
  samples = 0;
  written = 0;
}

-- `ProxyKeepAlivedPublisher::publish`.
unfoldable pub publish : Bool → KeepAlive → KeepAlive
publish wait_for_listener k =
    if k.first_connected || (not wait_for_listener || ltb 0 k.matched)
    then record k { written = k.written + 1 }
    else k

-- The body of the loop of the thread, up to the loop of the publisher or subscriber.
unfoldable pub decide : Bool → KeepAlive → KeepAlive
decide inits k =
    if k.master_flag
    then (if inits
        then record k { phase = publishing; matched = 0; first_connected = false }
        else k)
    else (if inits then record k { phase = watching; samples = 0 } else k)

-- The subscriber after its sleep.
unfoldable pub check_heartbeat : KeepAlive → KeepAlive
check_heartbeat k =
    if k.heartbeat_arrived
    then record k { heartbeat_arrived = false; phase = watching }
    else record k { master_flag = true; phase = deciding }

-- `alive_topic`, with `run` of the publisher and of the subscriber: one step of the thread.
unfoldable pub proceed : Bool → KeepAlive → KeepAlive
proceed inits k = elim k.phase [
  | deciding ↦ if k.force_exit then record k { phase = ended } else decide inits k
  | publishing ↦ if k.force_exit then record k { phase = deciding } else publish true k
  | watching ↦ if k.force_exit then record k { phase = deciding } else record k { phase = sleeping }
  | sleeping ↦ check_heartbeat k
  | ended ↦ k
]

-- The subscriber is there, and with it the listener of heartbeats.
unfoldable pub has_subscriber : Phase → Bool
has_subscriber watching = true
has_subscriber sleeping = true
has_subscriber _ = false

-- `on_data_available`.
unfoldable pub hear : Bool → Bool → KeepAlive → KeepAlive
hear returned_ok alive k =
    if returned_ok
    then (if alive then record k { samples = k.samples + 1; heartbeat_arrived = true } else k)
    else k

-- `on_publication_matched`.
unfoldable pub match : Change → ℕ → KeepAlive → KeepAlive
match matches total_count k = record k { matched = total_count; first_connected = true }
match unmatches total_count k = record k { matched = total_count }
match other total_count k = k

unfoldable pub is_publishing : Phase → Bool
is_publishing publishing = true
is_publishing _ = false

-- A listener hears only while its publisher or subscriber is there.
unfoldable pub happen : Event → KeepAlive → KeepAlive
happen (proceeds inits) k = proceed inits k
happen (sample_arrives returned_ok alive) k =
    if has_subscriber k.phase then hear returned_ok alive k else k
happen (publication_matched change total_count) k =
    if is_publishing k.phase then match change total_count k else k
happen stop k = record k { force_exit = true }

unfoldable pub happen_all : List Event → KeepAlive → KeepAlive
happen_all [] k = k
happen_all (event ∷ events) k = happen_all events (happen event k)
