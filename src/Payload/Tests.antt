-- ===== src/Payload/Tests.antt =====
-- Runs of a FastPayloadPool, and its theorems at concrete ones.
use ddsproxy.Common.{◌≡◌, ◌↔◌, refl, true, none, some, List, [], ◌∷◌, arith}
use ddsproxy.Payload.Memory.{Payload, Block, Outcome, done, ◌>>=◌}
use ddsproxy.Common.Map.{find, insert, erase}
use ddsproxy.Payload.Pool.{PoolState, is_clean, init, add_reserved_payload, add_release_payload}
use ddsproxy.Payload.Fast.{release, get_payload, get_payload_from, drop_reference, finish_release}
use ddsproxy.Payload.Fast.Clients.{
  World, Request, reserves, copies, shares, releases, finishes, Apart, run, start, step,
}
use ddsproxy.Payload.Fast.Sharing.{Inv}
use ddsproxy.Payload.Fast.Runs.{run-Inv, is_clean_iff}

abbrev foreign : Payload
foreign = record { data_ = none; length_ = 3; max_size = 4; pos = 0 }

-- A payload is reserved and shared, another one copied; all three are released, two of them with
-- their accesses interleaved.
abbrev requests : List Request
requests =
    reserves 8
    ∷ shares 0
    ∷ copies foreign (1 ∷ 2 ∷ 3 ∷ []) (omega arith)
    ∷ releases 1
    ∷ releases 0
    ∷ finishes 1
    ∷ finishes 0
    ∷ releases 0
    ∷ finishes 0
    ∷ []

world_of : Outcome World (Unit {0}) → World
world_of (done _ w) = w
world_of other = start

abbrev finished : World
finished = world_of (run 7 requests start)

requests-Apart : Apart 7 requests start
unfolding step start init get_payload get_payload_from drop_reference finish_release release find
    insert erase add_reserved_payload add_release_payload
requests-Apart = (tt, (tt, (tt, (tt, ((λ e. ground arith, tt), (tt, (tt, (tt, (tt, tt)))))))))

run-Inv_example : (w : World) × (run 7 requests start ≡ done tt w) × Inv w
run-Inv_example = run-Inv 7 requests (omega arith) requests-Apart

is_clean_iff_example :
    ((is_clean finished.pool ≡ true) ↔ ((finished.held ≡ []) × (finished.releasing ≡ [])))
    × (finished.held ≡ [] → finished.releasing ≡ [] → finished.pool.memory.blocks ≡ [])
unfolding run world_of start init step get_payload get_payload_from drop_reference finish_release
    release find insert erase add_reserved_payload add_release_payload
is_clean_iff_example = is_clean_iff 7 requests finished (omega arith) requests-Apart refl

-- Two holders of block 1, and the release that both call.
abbrev both_hold : Payload
both_hold = record { data_ = some 1; length_ = 0; max_size = 8; pos = 0 }

abbrev shared_block : Block
shared_block = record { references = 2; size = 8; octets = [] }

abbrev shared_pool : PoolState
shared_pool = record {
  memory = record { next = 2; blocks = (1, shared_block) ∷ [] };
  reserve_count = 1;
  release_count = 0;
}
