-- ===== src/Payload/Fast/Steps.antt =====
-- One call of a FastPayloadPool by a user that holds what it got from the pool.
use ddsproxy.Common.{
  ℕ, ◌+◌, ◌-◌, ◌<◌, ◌≤◌, ◌≡◌, refl, none, some, List, [], ◌∷◌, ◌++◌, arith, nat_beq, nat_key,
  length, drop, get_elem?, remove_at, Option-cases, Bool-cases, inl, inr, beq_refl,
}
use native.Mathlib.Decide.{ℕ_discrete}
use ddsproxy.Common.Map.{find, find-insert_self}
use ddsproxy.Common.Ordered.{length-pos_of_found}
use ddsproxy.Payload.Memory.{Payload, Block, Outcome, done, empty_payload}
use ddsproxy.Payload.Pool.{PoolState, uint64_mod, add_reserved_payload, add_release_payload}
use ddsproxy.Payload.Holders.{
  holders, AllApart, holders-zero, HaveData-get, holders_pos, holders-le-length, length-remove_at,
}
use ddsproxy.Payload.Fast.{
  uint32_mod, get_payload, get_payload_from, release, drop_reference, finish_release,
}
use ddsproxy.Payload.Fast.Clients.{World, obtained, returned}
use ddsproxy.Payload.Fast.Sharing.{
  Inv, grow-Inv, write-Inv, share-Inv, drop-Inv, left-Inv, last-Inv,
}

-- The calls run to their end from `w`, in a state that keeps the invariant.
pub record Ends (o : Outcome World (Unit {0})) (held reserved : ℕ) : Type 0 where
  pub world : World
  pub ends : o ≡ done tt world
  pub inv : Inv world
  pub few : length world.held ≤ held
  pub counts : world.pool.reserve_count ≤ reserved

pub stays :
    (w : World) (n k : ℕ) → Inv w → Ends (done tt w) (length w.held + n) (w.pool.reserve_count + k)
stays w n k v = record { world = w; ends = refl; inv = v; few = omega arith; counts = omega arith }

pub weaken :
    {o : Outcome World (Unit {0})} {held reserved : ℕ}
    → Ends o held reserved
    → Ends o (held + 1) (reserved + 1)
weaken e = record {
  world = e.world;
  ends = e.ends;
  inv = e.inv;
  few = omega (arith, e.few);
  counts = omega (arith, e.counts);
}

module _ (this : ℕ) (s : PoolState) (hs rs : List Payload)
    (v : Inv (record { pool = s; held = hs; releasing = rs })) (room : length hs + 1 < uint32_mod)
    (count : s.reserve_count + 1 < uint64_mod) where
  pub reserves-Ends :
      (size : ℕ)
      → Ends
          (obtained
            (record { pool = s; held = hs; releasing = rs })
            (get_payload size empty_payload s))
          (length hs + 1)
          (s.reserve_count + 1)
  unfolding get_payload add_reserved_payload
  reserves-Ends size = elim (Bool-cases (nat_beq size 0)) [
    | inl zero_size ↦ rw zero_size (record {
      world = record { pool = s; held = hs; releasing = rs };
      ends = refl;
      inv = v;
      few = omega arith;
      counts = omega arith;
    })
    | inr some_size ↦ rw some_size (record {
      world = _;
      ends = ground arith;
      inv =
          grow-Inv s hs rs v (record { references = 1; size = size; octets = [] })
            (record { data_ = some s.memory.next; length_ = 0; max_size = size; pos = 0 }) refl
            refl;
      few = omega arith;
      counts = omega arith;
    })
  ]

  pub copies-Ends :
      (src : Payload) (octets : List ℕ)
      → length octets ≤ src.max_size
      → Ends
          (obtained
            (record { pool = s; held = hs; releasing = rs })
            (get_payload_from this src octets none empty_payload s))
          (length hs + 1)
          (s.reserve_count + 1)
  unfolding get_payload_from get_payload add_reserved_payload
  copies-Ends src octets fits = elim (Bool-cases (nat_beq src.max_size 0)) [
    | inl zero_size ↦ rw zero_size (record {
      world = record { pool = s; held = hs; releasing = rs };
      ends = refl;
      inv = v;
      few = omega arith;
      counts = omega arith;
    })
    | inr some_size ↦ rw some_size (record {
      world = _;
      ends = ground (arith, find-insert_self s.memory.next fresh_block s.memory.blocks);
      inv =
          write-Inv _ _ _ (grow-Inv s hs rs v fresh_block copied refl refl) s.memory.next
            fresh_block (record fresh_block { octets = octets ++ drop (length octets) [] })
            (find-insert_self s.memory.next fresh_block s.memory.blocks) refl;
      few = omega arith;
      counts = omega arith;
    })
  ]
    where
      fresh_block : Block
      fresh_block = record { references = 1; size = src.max_size; octets = [] }

      copied : Payload
      copied = record {
        data_ = some s.memory.next;
        length_ = src.length_;
        max_size = src.max_size;
        pos = 0;
      }

  -- The block that a held payload shows.
  held_block :
      (i : ℕ) (h : Payload)
      → get_elem? hs i ≡ some h
      → (p : ℕ) × (b : Block) × (h.data_ ≡ some p)
        × (find p s.memory.blocks ≡ some b)
        × (b.references ≡ holders p hs)
  held_block i h e =
      let (p, here) = HaveData-get hs i h v.have_data e in
      elim (Option-cases (find p s.memory.blocks)) [
        | inl gone ↦ absurd (ground (arith, v.counted p, holders_pos p hs i h e here))
        | inr (b, found) ↦ (p, b, here, found, ground (arith, v.counted p))
      ]

  pub shares-Ends :
      (i : ℕ) (src : Payload)
      → get_elem? hs i ≡ some src
      → Ends
          (obtained
            (record { pool = s; held = hs; releasing = rs })
            (get_payload_from this src [] (some this) empty_payload s))
          (length hs + 1)
          (s.reserve_count + 1)
  unfolding get_payload_from
  shares-Ends i src e =
      let (p, b, here, found, counted) = held_block i src e in
      record {
        world = _;
        ends = ground (arith, beq_refl this, holders-le-length p hs);
        inv =
            share-Inv s hs rs v p b (record b { references = b.references + 1 })
              (record {
                data_ = src.data_;
                length_ = src.length_;
                max_size = src.max_size;
                pos = 0;
              })
              found refl here;
        few = omega arith;
        counts = omega arith;
      }

  pub releases-Ends :
      (i : ℕ) (h : Payload)
      → get_elem? hs i ≡ some h
      → AllApart h rs
      → Ends
          (returned
            (record { pool = s; held = remove_at hs i; releasing = h ∷ rs })
            (drop_reference h s))
          (length hs)
          s.reserve_count
  unfolding drop_reference
  releases-Ends i h e apart =
      let (p, b, here, found, counted) = held_block i h e in
      let held_by_one = holders_pos p hs i h e here in
      record {
        world = _;
        ends = ground (arith, holders-le-length p hs);
        inv =
            drop-Inv s hs rs v i p h b (record b { references = b.references - 1 }) e here found
              (omega (arith, counted, held_by_one)) (holders-zero p h rs here apart);
        few = omega (arith, length-remove_at hs i h e);
        counts = omega arith;
      }

  pub finishes-Ends :
      (i : ℕ) (h : Payload)
      → get_elem? rs i ≡ some h
      → Ends
          (returned
            (record { pool = s; held = hs; releasing = remove_at rs i })
            (finish_release h s))
          (length hs)
          s.reserve_count
  unfolding finish_release release add_release_payload
  finishes-Ends i h e =
      let (p, here) = HaveData-get rs i h v.releasing_data e in
      elim (Option-cases (find p s.memory.blocks)) [
        | inl gone ↦ absurd (omega (arith, v.there p gone, holders_pos p rs i h e here))
        | inr (b, found) ↦ elim (ℕ_discrete b.references 0) [
          | yes last ↦ record {
            world = _;
            ends = ground (arith, v.balanced, length-pos_of_found p b s.memory.blocks found);
            inv = last-Inv s hs rs v i p h b e here found last;
            few = omega arith;
            counts = omega arith;
          }
          | no others ↦ record {
            world = _;
            ends = ground arith;
            inv = left-Inv s hs rs v i p h b e here found (omega arith);
            few = omega arith;
            counts = omega arith;
          }
        ]
      ]
