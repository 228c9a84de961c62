-- ===== src/Common/Int.antt =====
-- Signed numbers, as far as the code compares them.
use Prim.Native.Nat.{ℕ}
use mathlib.Core.Bool.{Bool, true, false}
use ddsproxy.Common.Tests.{ltb, nat_beq}

-- `negsuc n` is -(n + 1).
pub data ℤ : Type 0 where
  pos : ℕ → ℤ
  negsuc : ℕ → ℤ

infix 50 ◌<ℤ?◌
abbrev pub ◌<ℤ?◌ : ℤ → ℤ → Bool
pos a <ℤ? pos b = ltb a b
pos a <ℤ? negsuc b = false
negsuc a <ℤ? pos b = true
negsuc a <ℤ? negsuc b = ltb b a

infix 50 ◌==ℤ◌
abbrev pub ◌==ℤ◌ : ℤ → ℤ → Bool
pos a ==ℤ pos b = nat_beq a b
pos a ==ℤ negsuc b = false
negsuc a ==ℤ pos b = false
negsuc a ==ℤ negsuc b = nat_beq a b
