-- ===== src/Payload/Fast.antt =====
-- FastPayloadPool of ddspipe/ddspipe_core/src/cpp/efficiency/payload/FastPayloadPool.cpp: the number
-- of payloads that share a block stands in front of its data.
pub mod Clients
pub mod Sharing
pub mod Steps
pub mod Runs
pub mod Race
use ddsproxy.Common.{
  ℕ, ◌+◌, ◌-◌, ◌%◌, ◌^◌, Bool, true, false, Option, none, some, List, [], nat_key, nat_beq,
  if◌then◌else◌,
}
use ddsproxy.Common.Map.{find, insert}
use ddsproxy.Payload.Memory.{
  Payload, Block, Memory, Outcome, done, fault, ◌>>=◌, empty_payload, malloc, free, memcpy,
}
use ddsproxy.Payload.Pool.{PoolState, PoolOps, add_reserved_payload, add_release_payload}

-- `MetaInfoType` is an `unsigned int`.
abbrev pub uint32_mod : ℕ
uint32_mod = 2 ^ 32

unfoldable pub reserve : ℕ → Payload → PoolState → Outcome PoolState (Bool × Payload)
unfolding malloc
reserve size payload s =
    let (p, m) = malloc (record { references = 1; size = size; octets = [] }) s.memory in
    if nat_beq size 0
    then done (false, payload) s
    else done (true, record payload { data_ = some p; max_size = size })
        (add_reserved_payload (record s { memory = m }))

unfoldable pub get_payload : ℕ → Payload → PoolState → Outcome PoolState (Bool × Payload)
unfolding reserve
get_payload size payload s = reserve size payload s

-- `free` of the block, and the payload cleared.
unfoldable pub release : ℕ → PoolState → Outcome PoolState (Bool × Payload)
unfolding free
release p s = do
  (_, s') ← add_release_payload (record s { memory = free p s.memory })
  done (true, empty_payload) s'

-- The counter in front of the data that a pointer shows; a pointer to no block is a fault.
block_at : Option ℕ → Memory → Option (ℕ × Block)
block_at none m = none
block_at (some p) m = elim (find p m.blocks) [ none ↦ none | some b ↦ some (p, b) ]

-- `src_payload` is copied unless this pool owns it; `octets` is what its data shows up to its
-- length.
copy_payload : Payload → List ℕ → (Bool × Payload) × PoolState → Outcome PoolState (Bool × Payload)
unfolding memcpy
copy_payload src octets ((false, target), s) = done (false, target) s
copy_payload src octets ((true, target), s) = elim target.data_ [
  | none ↦ fault
  | some p ↦ elim (memcpy p octets s.memory) [
    | none ↦ fault
    | some m ↦ done (true, record target { length_ = src.length_ }) (record s { memory = m })
  ]
]

share_payload : Payload → Payload → PoolState → Outcome PoolState (Bool × Payload)
unfolding block_at
share_payload src target s = elim (block_at src.data_ s.memory) [
  | none ↦ fault
  | some (p, b) ↦
      done
        (true, record target { data_ = src.data_; length_ = src.length_; max_size = src.max_size })
        (record s {
          memory = record s.memory {
            blocks =
                insert p (record b { references = (b.references + 1) % uint32_mod })
                  s.memory.blocks;
          };
        })
]

unfoldable pub get_payload_from :
    ℕ → Payload → List ℕ → Option ℕ → Payload → PoolState → Outcome PoolState (Bool × Payload)
unfolding copy_payload share_payload
get_payload_from this src octets data_owner target s =
    let copied = get_payload src.max_size target s >>= copy_payload src octets in
    elim data_owner [
      | none ↦ copied
      | some owner ↦ if nat_beq owner this then share_payload src target s else copied
    ]

-- The first access of `release_payload` to the counter, which takes one from it. No lock is held, so
-- that other threads come between this and the second access.
unfoldable pub drop_reference : Payload → PoolState → Outcome PoolState (Unit {0})
unfolding block_at
drop_reference payload s = elim (block_at payload.data_ s.memory) [
  | none ↦ fault
  | some (p, b) ↦ done tt (record s {
    memory = record s.memory {
      blocks =
          insert p (record b { references = (b.references + uint32_mod - 1) % uint32_mod })
            s.memory.blocks;
    };
  })
]

-- The second access, which reads the counter again, and what follows, taken as one step.
unfoldable pub finish_release : Payload → PoolState → Outcome PoolState (Bool × Payload)
unfolding block_at
finish_release payload s = elim (block_at payload.data_ s.memory) [
  | none ↦ fault
  | some (p, b) ↦
      if nat_beq b.references 0
      then (do (_, s') ← release p s; done (true, empty_payload) s')
      else done (true, empty_payload) s
]

-- Both, when nobody comes between.
unfoldable pub release_payload : Payload → PoolState → Outcome PoolState (Bool × Payload)
release_payload payload s = do (_, s') ← drop_reference payload s; finish_release payload s'

abbrev pub fast_ops : ℕ → PoolOps PoolState
fast_ops this = record {
  this = this;
  get_payload = get_payload;
  get_payload_from = get_payload_from this;
  release_payload = release_payload;
}
