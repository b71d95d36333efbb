-- ===== src/Prelude/Bits.antt =====
-- Facts on the bits of bytes, checked over all values.
use Prim.Native.Nat.{ℕ, zero, suc, ◌<◌, bit_xor}
use mathlib.Core.Path.{◌≡◌, refl}
use mathlib.Core.Bool.{Bool, true, ◌&&◌}
use native.Mathlib.Omega.{arith}
use esp32_wifi_gnss.Prelude.Tests.{◌==◌, ltb}

-- `test` holds of every number under the bound.
unfoldable pub all_below : (ℕ → Bool) → ℕ → Bool
all_below test zero = true
all_below test (suc bound) = all_below test bound && test bound

pub all_below_use :
    (test : ℕ → Bool) (bound : ℕ)
    → all_below test bound ≡ true
    → (n : ℕ) → n < bound
    → test n ≡ true
unfolding all_below
all_below_use test zero all n under = absurd (omega arith)
all_below_use test (suc bound) all n under = ground (arith, all_below_use test bound _ n)

abbrev xor_back : ℕ → ℕ → Bool
xor_back a b =
    (bit_xor (bit_xor a b) b == a) && (ltb (bit_xor a b) 256 && (bit_xor a b == bit_xor b a))

xor_back_table : all_below (λ a. all_below (xor_back a) 256) 256 ≡ true
unfolding all_below
xor_back_table = refl

xor_back_lem : (a b : ℕ) → a < 256 → b < 256 → xor_back a b ≡ true
xor_back_lem a b ha hb =
    all_below_use (xor_back a) 256
      (all_below_use (λ x. all_below (xor_back x) 256) 256 xor_back_table a ha) b hb

pub bit_xor-lt : (a b : ℕ) → a < 256 → b < 256 → bit_xor a b < 256
bit_xor-lt a b ha hb = ground (arith, xor_back_lem a b ha hb)

pub bit_xor_cancel : (a b : ℕ) → a < 256 → b < 256 → bit_xor (bit_xor a b) b ≡ a
bit_xor_cancel a b ha hb = ground (arith, xor_back_lem a b ha hb)

pub bit_xor_comm : (a b : ℕ) → a < 256 → b < 256 → bit_xor a b ≡ bit_xor b a
bit_xor_comm a b ha hb = ground (arith, xor_back_lem a b ha hb)
