-- ===== src/Prelude/Samples.antt =====
-- Texts as bytes, and `All` by evaluation.
use Prim.Native.String.{String}
use Prim.Native.Char.{code}
use Prim.Native.Nat.{ℕ}
use mathlib.Core.Path.{◌≡◌}
use mathlib.Core.Bool.{Bool, true, ◌&&◌}
use mathlib.Core.List.{[], ◌∷◌}
use native.Mathlib.Omega.{arith}
use esp32_wifi_gnss.Prelude.Lists.{Bytes, All}

abbrev pub codes : String → Bytes
codes String.[] = []
codes (String.◌∷◌ c s) = code c ∷ codes s

-- The same for the texts of a program, which proofs do not take apart.
unfoldable pub text_codes : String → Bytes
text_codes s = codes s

abbrev pub every : (ℕ → Bool) → Bytes → Bool
every p [] = true
every p (x ∷ l) = p x && every p l

pub every-All :
    (P : ℕ → Type 0) (p : ℕ → Bool)
    → ((x : ℕ) → p x ≡ true → P x)
    → (l : Bytes) → every p l ≡ true
    → All P l
every-All P p sound [] h = tt
every-All P p sound (x ∷ l) h = (sound x (ground arith), every-All P p sound l (ground arith))
