-- ===== src/Readers.antt =====
-- BaseReader of ddspipe/ddspipe_participants/src/cpp/reader/auxiliar/BaseReader.cpp: which samples a
-- reader lets through. A time is the number of nanoseconds since the beginning of time.
pub mod Sampling
mod Tests
use Prim.Native.Nat.{◌/◌, ◌*◌}
use ddsproxy.Common.{
  ℕ, zero, suc, ◌+◌, ◌-◌, ◌%◌, ◌^◌, Bool, true, false, not, ◌&&◌, List, [], ◌∷◌, if◌then◌else◌,
  nat_beq, ltb,
}

-- The bits that two numbers below `2 ^ w` share.
unfoldable pub bit_and : ℕ → ℕ → ℕ → ℕ
bit_and zero a b = 0
bit_and (suc w) a b = (a % 2) * (b % 2) + 2 * bit_and w (a / 2) (b / 2)

-- utils::is_power_of_2 and utils::fast_module of dev-utils/cpp_utils
unfoldable pub is_power_of_2 : ℕ → Bool
unfolding bit_and
is_power_of_2 number = not (nat_beq number 0) && nat_beq (bit_and 32 number (number - 1)) 0

unfoldable pub fast_module : ℕ → ℕ → ℕ
unfolding is_power_of_2 bit_and
fast_module dividend divisor =
    if ltb dividend divisor
    then dividend
    else if nat_beq dividend divisor
    then 0
    else if nat_beq divisor 2
    then bit_and 32 dividend 1
    else if is_power_of_2 divisor
    then bit_and 32 dividend (divisor - 1)
    else dividend % divisor

-- `max_rx_rate_` counts by whether it is positive, and by the period that the constructor gets from
-- it in floating point.
pub record BaseReader : Type 0 where
  pub has_max_rx_rate : Bool
  pub min_intersample_period : ℕ
  pub downsampling : ℕ
  pub downsampling_idx : ℕ
  pub last_received_ts : ℕ

unfoldable pub new_base_reader : Bool → ℕ → ℕ → BaseReader
new_base_reader has_max_rx_rate period downsampling = record {
  has_max_rx_rate = has_max_rx_rate;
  min_intersample_period = if has_max_rx_rate then period else 0;
  downsampling = downsampling;
  downsampling_idx = 0;
  last_received_ts = 0;
}

-- For a sample that comes at `now`.
unfoldable pub should_accept_sample : ℕ → BaseReader → Bool × BaseReader
should_accept_sample now r =
    let r' = record r {
      downsampling_idx = fast_module ((r.downsampling_idx + 1) % 2 ^ 32) r.downsampling;
    } in
    if r.has_max_rx_rate && ltb now (r.last_received_ts + r.min_intersample_period)
    then (false, r)
    else if not (nat_beq r.downsampling_idx 0)
    then (false, r')
    else (true, record r' { last_received_ts = now })

-- The samples of a sequence that come through, by their times.
unfoldable pub accepted : List ℕ → BaseReader → List ℕ
accepted [] r = []
accepted (now ∷ times) r =
    let (accepts, r') = should_accept_sample now r in
    let rest = accepted times r' in if accepts then now ∷ rest else rest
