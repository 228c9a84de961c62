-- ===== src/Payload/Fast/Sharing.antt =====
-- What a FastPayloadPool keeps while its users reserve, copy, share and release payloads.
use ddsproxy.Common.{
  ℕ, suc, ◌+◌, ◌<◌, ◌≤◌, ◌≡◌, none, some, List, ◌∷◌, arith, nat_key, nat_beq_iff, length, get_elem?,
  remove_at,
}
use ddsproxy.Common.Map.{Map, find, insert, erase, find-insert, find-erase, has_of_none}
use ddsproxy.Common.Ordered.{
  IsSorted, insert-IsSorted, erase-IsSorted, length-insert_new, length-insert_old, length-erase_has,
}
use ddsproxy.Payload.Memory.{Payload, Block}
use ddsproxy.Payload.Pool.{PoolState}
use ddsproxy.Payload.Holders.{holders, HaveData, holders-remove_at, HaveData-remove_at}
use ddsproxy.Payload.Fast.Clients.{World}

-- The counter in front of block `p`, or 0 where there is no block.
abbrev pub references_at : ℕ → Map ℕ Block → ℕ
references_at p m = elim (find p m) [ none ↦ 0 | some b ↦ b.references ]

-- The counters count the holders. A block has a holder or a release that is under way, at most one,
-- and each of these has its block; the pool's two counts differ by the number of blocks.
pub record Inv (w : World) : Type 0 where
  pub counted : (p : ℕ) → references_at p w.pool.memory.blocks ≡ holders p w.held
  pub referenced :
      (p : ℕ) (b : Block)
      → find p w.pool.memory.blocks ≡ some b
      → 0 < b.references + holders p w.releasing
  pub single : (p : ℕ) → holders p w.releasing ≤ 1
  pub there : (p : ℕ) → find p w.pool.memory.blocks ≡ none → holders p w.releasing ≡ 0
  pub fresh : (p : ℕ) → w.pool.memory.next ≤ p → find p w.pool.memory.blocks ≡ none
  pub have_data : HaveData w.held
  pub releasing_data : HaveData w.releasing
  pub ordered : IsSorted w.pool.memory.blocks
  pub balanced : w.pool.reserve_count ≡ w.pool.release_count + length w.pool.memory.blocks

module _ (s : PoolState) (hs rs : List Payload)
    (v : Inv (record { pool = s; held = hs; releasing = rs })) where
  -- A new block with one holder.
  pub grow-Inv :
      (b : Block) (h : Payload)
      → b.references ≡ 1
      → h.data_ ≡ some s.memory.next
      → Inv (record {
        pool = record {
          memory = record {
            next = suc s.memory.next;
            blocks = insert s.memory.next b s.memory.blocks;
          };
          reserve_count = s.reserve_count + 1;
          release_count = s.release_count;
        };
        held = h ∷ hs;
        releasing = rs;
      })
  grow-Inv b h one here = record {
    counted = λ p.
        ground
          (arith, find-insert p n b m, v.counted p, v.fresh n, nat_beq_iff p n, nat_beq_iff n p);
    referenced = λ p c e. ground (arith, find-insert p n b m, v.referenced p c);
    single = v.single;
    there = λ p e. ground (arith, find-insert p n b m, v.there p);
    fresh = λ p le. ground (arith, find-insert p n b m, v.fresh p);
    have_data = (λ e. cc, v.have_data);
    releasing_data = v.releasing_data;
    ordered = insert-IsSorted n b m v.ordered;
    balanced = ground (arith, length-insert_new n b m, has_of_none n m, v.fresh n, v.balanced);
  }
    where
      n : ℕ
      n = s.memory.next

      m : Map ℕ Block
      m = s.memory.blocks

  -- Writing to a block changes no counter.
  pub write-Inv :
      (p : ℕ) (b b' : Block)
      → find p s.memory.blocks ≡ some b
      → b'.references ≡ b.references
      → Inv (record {
        pool = record s { memory = record s.memory { blocks = insert p b' s.memory.blocks } };
        held = hs;
        releasing = rs;
      })
  write-Inv p b b' e same = record {
    counted = λ q. ground (arith, find-insert q p b' m, v.counted q, nat_beq_iff q p);
    referenced = λ q c f.
        ground (arith, find-insert q p b' m, v.referenced q c, v.referenced p b e, nat_beq_iff q p);
    single = v.single;
    there = λ q f. ground (arith, find-insert q p b' m, v.there q);
    fresh = λ q le. ground (arith, find-insert q p b' m, v.fresh q le, nat_beq_iff q p);
    have_data = v.have_data;
    releasing_data = v.releasing_data;
    ordered = insert-IsSorted p b' m v.ordered;
    balanced = ground (arith, length-insert_old p b' b m v.ordered e, v.balanced);
  }
    where
      m : Map ℕ Block
      m = s.memory.blocks

  -- One more holder of a block.
  pub share-Inv :
      (p : ℕ) (b b' : Block) (h : Payload)
      → find p s.memory.blocks ≡ some b
      → b'.references ≡ b.references + 1
      → h.data_ ≡ some p
      → Inv (record {
        pool = record s { memory = record s.memory { blocks = insert p b' s.memory.blocks } };
        held = h ∷ hs;
        releasing = rs;
      })
  share-Inv p b b' h e more here = record {
    counted =
        λ q. ground (arith, find-insert q p b' m, v.counted q, nat_beq_iff q p, nat_beq_iff p q);
    referenced = λ q c f. ground (arith, find-insert q p b' m, v.referenced q c);
    single = v.single;
    there = λ q f. ground (arith, find-insert q p b' m, v.there q);
    fresh = λ q le. ground (arith, find-insert q p b' m, v.fresh q le, nat_beq_iff q p);
    have_data = (λ f. cc, v.have_data);
    releasing_data = v.releasing_data;
    ordered = insert-IsSorted p b' m v.ordered;
    balanced = ground (arith, length-insert_old p b' b m v.ordered e, v.balanced);
  }
    where
      m : Map ℕ Block
      m = s.memory.blocks

  -- A holder begins to release its block, and no other one does.
  pub drop-Inv :
      (i p : ℕ) (h : Payload) (b b' : Block)
      → get_elem? hs i ≡ some h
      → h.data_ ≡ some p
      → find p s.memory.blocks ≡ some b
      → b.references ≡ b'.references + 1
      → holders p rs ≡ 0
      → Inv (record {
        pool = record s { memory = record s.memory { blocks = insert p b' s.memory.blocks } };
        held = remove_at hs i;
        releasing = h ∷ rs;
      })
  drop-Inv i p h b b' at_i here e less alone = record {
    counted = λ q. ground (
      arith,
      find-insert q p b' m,
      v.counted q,
      nat_beq_iff q p,
      nat_beq_iff p q,
      holders-remove_at q hs i h at_i,
    );
    referenced = λ q c f.
        ground (arith, find-insert q p b' m, v.referenced q c, nat_beq_iff q p, nat_beq_iff p q);
    single = λ q. ground (arith, v.single q, nat_beq_iff p q);
    there =
        λ q f. ground (arith, find-insert q p b' m, v.there q, nat_beq_iff q p, nat_beq_iff p q);
    fresh = λ q le. ground (arith, find-insert q p b' m, v.fresh q le, nat_beq_iff q p);
    have_data = HaveData-remove_at hs i v.have_data;
    releasing_data = (λ f. cc, v.releasing_data);
    ordered = insert-IsSorted p b' m v.ordered;
    balanced = ground (arith, length-insert_old p b' b m v.ordered e, v.balanced);
  }
    where
      m : Map ℕ Block
      m = s.memory.blocks

  module _ (i p : ℕ) (h : Payload) (b : Block) (at_i : get_elem? rs i ≡ some h)
      (here : h.data_ ≡ some p) (e : find p s.memory.blocks ≡ some b) where
    -- A release ends while the block has other holders.
    pub left-Inv :
        0 < b.references → Inv (record { pool = s; held = hs; releasing = remove_at rs i })
    left-Inv left = record {
      counted = v.counted;
      referenced = λ q c f.
          ground (arith, v.referenced q c f, nat_beq_iff p q, holders-remove_at q rs i h at_i);
      single = λ q. ground (arith, v.single q, holders-remove_at q rs i h at_i);
      there = λ q f. ground (arith, v.there q f, holders-remove_at q rs i h at_i);
      fresh = v.fresh;
      have_data = v.have_data;
      releasing_data = HaveData-remove_at rs i v.releasing_data;
      ordered = v.ordered;
      balanced = v.balanced;
    }

    -- The release of the last holder ends, and the block goes.
    pub last-Inv :
        b.references ≡ 0
        → Inv (record {
          pool = record {
            memory = record s.memory { blocks = erase p s.memory.blocks };
            reserve_count = s.reserve_count;
            release_count = s.release_count + 1;
          };
          held = hs;
          releasing = remove_at rs i;
        })
    last-Inv zero_left = record {
      counted = λ q. ground (arith, find-erase q p m, v.counted q, nat_beq_iff q p);
      referenced = λ q c f. ground (
        arith,
        find-erase q p m,
        v.referenced q c,
        nat_beq_iff q p,
        nat_beq_iff p q,
        holders-remove_at q rs i h at_i,
      );
      single = λ q. ground (arith, v.single q, holders-remove_at q rs i h at_i);
      there = λ q f. ground (
        arith,
        find-erase q p m,
        v.there q,
        v.single q,
        nat_beq_iff q p,
        nat_beq_iff p q,
        holders-remove_at q rs i h at_i,
      );
      fresh = λ q le. ground (arith, find-erase q p m, v.fresh q le);
      have_data = v.have_data;
      releasing_data = HaveData-remove_at rs i v.releasing_data;
      ordered = erase-IsSorted p m v.ordered;
      balanced = omega (arith, v.balanced, length-erase_has p b m v.ordered e);
    }
      where
        m : Map ℕ Block
        m = s.memory.blocks
