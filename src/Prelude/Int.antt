-- ===== src/Prelude/Int.antt =====
-- C's `int`: a two's complement bit pattern, and the integer that it stands for.
use Prim.Native.Nat.{ℕ, suc, ◌+◌, ◌-◌, ◌^◌, ◌%◌, ◌≤◌, ◌<◌}
use mathlib.Core.Path.{◌≡◌, ap}
use mathlib.Core.Bool.{Bool}
use native.Mathlib.Omega.{arith}
use esp32_wifi_gnss.Prelude.Tests.{ltb, if◌then◌else◌}

-- `negsuc n` is -(n + 1).
pub data ℤ : Type 0 where
  pos : ℕ → ℤ
  negsuc : ℕ → ℤ

abbrev pub pos_part : ℤ → ℕ
pos_part (pos n) = n
pos_part (negsuc n) = 0

abbrev pub neg_part : ℤ → ℕ
neg_part (pos n) = 0
neg_part (negsuc n) = suc n

infix 50 ◌≤ℤ◌ ◌<ℤ◌
abbrev pub ◌≤ℤ◌ : ℤ → ℤ → Type 0
a ≤ℤ b = pos_part a + neg_part b ≤ pos_part b + neg_part a

abbrev pub ◌<ℤ◌ : ℤ → ℤ → Type 0
a <ℤ b = pos_part a + neg_part b < pos_part b + neg_part a

abbrev pub ltb_ℤ : ℤ → ℤ → Bool
ltb_ℤ a b = ltb (pos_part a + neg_part b) (pos_part b + neg_part a)

-- The `int32_t` of a bit pattern, taken modulo 2 ^ 32.
abbrev pub signed32 : ℕ → ℤ
signed32 w = let u = w % 2 ^ 32 in if ltb u (2 ^ 31) then pos u else negsuc (2 ^ 32 - u - 1)

pub signed32_small : (w : ℕ) → w < 2 ^ 31 → signed32 w ≡ pos w
signed32_small w h = ground arith

pub signed32_cong : (a b : ℕ) → a % 2 ^ 32 ≡ b % 2 ^ 32 → signed32 a ≡ signed32 b
signed32_cong a b h = ap (λ (u : ℕ). if ltb u (2 ^ 31) then pos u else negsuc (2 ^ 32 - u - 1)) h
