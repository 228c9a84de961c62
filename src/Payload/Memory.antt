-- ===== src/Payload/Memory.antt =====
-- The memory that payload pools hand out. A pointer to an octet array is the number of its block;
-- `none` is `nullptr`. `malloc` never fails and never hands out a block that is still in use.
use ddsproxy.Common.{
  ℕ, suc, Option, none, some, List, Exception, nat_key, length, drop, ◌++◌, leb, if◌then◌else◌,
}
use ddsproxy.Common.Map.{Map, find, insert, erase}

-- `SerializedPayload_t`, by the fields that the pools touch.
pub record Payload : Type 0 where
  pub data_ : Option ℕ
  pub length_ : ℕ
  pub max_size : ℕ
  pub pos : ℕ

abbrev pub empty_payload : Payload
empty_payload = record { data_ = none; length_ = 0; max_size = 0; pos = 0 }

-- A block: the `MetaInfoType` counter in front of the data, the size asked for, and the octets
-- that were written.
pub record Block : Type 0 where
  pub references : ℕ
  pub size : ℕ
  pub octets : List ℕ

pub record Memory : Type 0 where
  pub next : ℕ
  pub blocks : Map ℕ Block

-- What a call does: it returns, it throws in some state, or it touches memory that it may not.
pub data Outcome (S A : Type 0) : Type 0 where
  done : A → S → Outcome S A
  thrown : Exception → S → Outcome S A
  fault : Outcome S A

infixl 5 ◌>>=◌
abbrev pub ◌>>=◌ : {S A B : Type 0} → Outcome S A → (A × S → Outcome S B) → Outcome S B
done a s >>= f = f (a, s)
thrown e s >>= f = thrown e s
fault >>= f = fault

unfoldable pub malloc : Block → Memory → ℕ × Memory
malloc b m = (m.next, record { next = suc m.next; blocks = insert m.next b m.blocks })

unfoldable pub free : ℕ → Memory → Memory
free p m = record m { blocks = erase p m.blocks }

-- `std::memcpy` to the start of a block; past its end it is a fault.
unfoldable pub memcpy : ℕ → List ℕ → Memory → Option Memory
memcpy p octets m = elim (find p m.blocks) [
  | none ↦ none
  | some b ↦
      if leb (length octets) b.size
      then some (record m {
        blocks = insert p (record b { octets = octets ++ drop (length octets) b.octets }) m.blocks;
      })
      else none
]
