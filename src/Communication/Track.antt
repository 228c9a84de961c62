-- ===== src/Communication/Track.antt =====
-- Track of ddspipe/ddspipe_core/src/cpp/communication/dds/Track.cpp: one reader and the writers that
-- its data goes to. The operations under `track_mutex_` are here, each one step; the transmission
-- of data is in the child Transmit.
pub mod Transmit
pub mod Order
pub mod Wake
pub mod Progress
mod Tests
use Prim.Native.String.{String}
use ddsproxy.Common.{ℕ, Bool, true, false, ltb, length, string_key, if◌then◌else◌}
use ddsproxy.Common.Map.{Map, insert, erase, has}
use ddsproxy.Communication.Handles.{Handles, set_enabled, set_all}

-- The values of `DataAvailableStatus`.
abbrev pub no_more_data : ℕ
no_more_data = 0

abbrev pub transmitting_data : ℕ
transmitting_data = 1

abbrev pub new_data_arrived : ℕ
new_data_arrived = 2

pub record Track : Type 0 where
  pub reader_participant_id : String
  pub reader : ℕ
  pub writers : Map String ℕ
  pub enabled : Bool
  pub master_flag : Bool
  pub exit_flag : Bool
  pub data_available_status : ℕ

-- The constructor. `master_flag_` is not initialised: its first value is a parameter.
unfoldable pub new_track : Bool → String → ℕ → Map String ℕ → Track
new_track garbage id reader writers = record {
  reader_participant_id = id;
  reader = reader;
  writers = writers;
  enabled = false;
  master_flag = garbage;
  exit_flag = false;
  data_available_status = no_more_data;
}

-- Writers are enabled before the reader.
unfoldable pub enable : Track → Handles → Track × Handles
unfolding set_enabled set_all
enable t h = if t.enabled then (t, h) else (
  record t { enabled = true; data_available_status = no_more_data },
  set_enabled true t.reader (set_all true t.writers h),
)

unfoldable pub disable : Track → Handles → Track × Handles
unfolding set_enabled set_all
disable t h =
    if t.enabled
    then (record t { enabled = false }, set_all false t.writers (set_enabled false t.reader h))
    else (t, h)

unfoldable pub add_writer : String → ℕ → Track → Handles → Track × Handles
unfolding set_enabled
add_writer id writer t h = (
  record t { writers = insert id writer t.writers },
  if t.enabled then set_enabled true writer h else h,
)

unfoldable pub remove_writer : String → Track → Track
remove_writer id t = record t { writers = erase id t.writers }

unfoldable pub has_writer : String → Track → Bool
has_writer id t = has id t.writers

unfoldable pub has_writers : Track → Bool
has_writers t = ltb 0 (length t.writers)

unfoldable pub change_master : Bool → Track → Track
change_master flag t = record t { master_flag = flag }
