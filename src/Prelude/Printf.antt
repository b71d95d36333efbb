-- ===== src/Prelude/Printf.antt =====
-- What the program uses of `snprintf` and its formats.
use Prim.Native.Nat.{ℕ, zero, suc, ◌+◌, ◌-◌, ◌/◌, ◌%◌, ◌≤◌}
use mathlib.Core.List.{[], ◌∷◌}
use native.Mathlib.Omega.{arith}
use esp32_wifi_gnss.Prelude.Lists.{Bytes, length, take, length-take}
use esp32_wifi_gnss.Prelude.Tests.{ltb, if◌then◌else◌}

-- A buffer of `size` bytes holds at most `size - 1` characters of the text.
abbrev pub snprintf : ℕ → Bytes → Bytes
snprintf size text = take (size - 1) text

-- The digits of `n` before `rest`, at most `digits` of them.
unfoldable pub put_digits : ℕ → ℕ → Bytes → Bytes
put_digits zero n rest = rest
put_digits (suc digits) n rest =
    let more = put_digits digits (n / 10) ((b'0' + n % 10) ∷ rest) in
    if ltb n 10 then (b'0' + n % 10) ∷ rest else more

-- `%u`: a 32-bit number has at most ten digits.
unfoldable pub unsigned_text : ℕ → Bytes
unfolding put_digits
unsigned_text n = put_digits 10 n []

pub length-snprintf : (size : ℕ) (text : Bytes) → length (snprintf size text) ≤ size - 1
length-snprintf size text = omega (arith, length-take (size - 1) text)
