-- ===== src/Payload/Pool.antt =====
-- PayloadPool of ddspipe/ddspipe_core/src/cpp/efficiency/payload/PayloadPool.cpp: the counters of
-- every pool, and the calls of Fast DDS on a cache change, over the virtual calls of a pool.
use ddsproxy.Common.{
  ℕ, ◌+◌, ◌%◌, ◌^◌, Bool, true, false, Option, none, some, List, [], inconsistency_exception,
  nat_key, nat_beq, ltb, if◌then◌else◌,
}
use ddsproxy.Payload.Memory.{Payload, Memory, Outcome, done, thrown, ◌>>=◌}

abbrev pub uint64_mod : ℕ
uint64_mod = 2 ^ 64

-- The state of a pool: its memory and its two `uint64_t` counters.
pub record PoolState : Type 0 where
  pub memory : Memory
  pub reserve_count : ℕ
  pub release_count : ℕ

unfoldable pub init : PoolState
init = record { memory = record { next = 1; blocks = [] }; reserve_count = 0; release_count = 0 }

unfoldable pub is_clean : PoolState → Bool
is_clean s = nat_beq s.reserve_count s.release_count

unfoldable pub add_reserved_payload : PoolState → PoolState
add_reserved_payload s = record s { reserve_count = (s.reserve_count + 1) % uint64_mod }

unfoldable pub add_release_payload : PoolState → Outcome PoolState (Unit {0})
add_release_payload s =
    let s' = record s { release_count = (s.release_count + 1) % uint64_mod } in
    if ltb s'.reserve_count s'.release_count then thrown inconsistency_exception s' else done tt s'

-- The virtual calls of a pool with states in `S`, at its own address.
pub record PoolOps (S : Type 0) : Type 0 where
  pub this : ℕ
  pub get_payload : ℕ → Payload → S → Outcome S (Bool × Payload)
  pub get_payload_from : Payload → List ℕ → Option ℕ → Payload → S → Outcome S (Bool × Payload)
  pub release_payload : Payload → S → Outcome S (Bool × Payload)

-- `CacheChange_t`, by the fields that the pools touch.
pub record CacheChange : Type 0 where
  pub serialized_payload : Payload
  pub payload_owner : Option ℕ

module _ {S : Type 0} (pool : PoolOps S) where
  settle : CacheChange → (Bool × Payload) × S → Outcome S (Bool × CacheChange)
  settle change ((true, p), s) =
      done (true, record { serialized_payload = p; payload_owner = some pool.this }) s
  settle change ((false, p), s) = done (false, record change { serialized_payload = p }) s

  unfoldable pub get_payload_change : ℕ → CacheChange → S → Outcome S (Bool × CacheChange)
  unfolding settle
  get_payload_change size change s =
      pool.get_payload size change.serialized_payload s >>= settle change

  unfoldable pub get_payload_change_from :
      Payload → List ℕ → Option ℕ → CacheChange → S → Outcome S (Bool × CacheChange)
  unfolding settle
  get_payload_change_from data_ octets data_owner change s =
      pool.get_payload_from data_ octets data_owner change.serialized_payload s >>= settle change

  settle_release : CacheChange → (Bool × Payload) × S → Outcome S (Bool × CacheChange)
  settle_release change ((true, p), s) =
      done (true, record { serialized_payload = p; payload_owner = none }) s
  settle_release change ((false, p), s) = done (false, record change { serialized_payload = p }) s

  owned_by_this : Option ℕ → Bool
  owned_by_this none = false
  owned_by_this (some owner) = nat_beq owner pool.this

  unfoldable pub release_payload_change : CacheChange → S → Outcome S (Bool × CacheChange)
  unfolding settle_release owned_by_this
  release_payload_change change s =
      if owned_by_this change.payload_owner
      then (pool.release_payload change.serialized_payload s >>= settle_release change)
      else thrown inconsistency_exception s
