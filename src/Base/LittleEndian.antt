-- ===== src/Base/LittleEndian.antt =====
-- Words as their bytes, the least significant first.
use Prim.Native.Nat.{ℕ, zero, suc, ◌+◌, ◌*◌, ◌/◌, ◌%◌, ◌^◌, ◌<◌}
use mathlib.Core.Path.{◌≡◌, refl, ap}
use mathlib.Core.List.{List, [], ◌∷◌}
use native.Mathlib.Omega.{arith}
use native.Mathlib.Nat.{pow-suc}
use metri_engine.Base.Lists.{length}

-- `to_le_bytes` of a word of `w` bytes
unfoldable pub to_le_bytes : ℕ → ℕ → List ℕ
to_le_bytes zero n = []
to_le_bytes (suc w) n = (n % 256) ∷ to_le_bytes w (n / 256)

unfoldable pub from_le_bytes : List ℕ → ℕ
from_le_bytes [] = 0
from_le_bytes (b ∷ bs) = b + from_le_bytes bs * 256

pub length-to_le_bytes : (w n : ℕ) → length (to_le_bytes w n) ≡ w
unfolding to_le_bytes
length-to_le_bytes zero n = refl
length-to_le_bytes (suc w) n = ap suc (length-to_le_bytes w (n / 256))

-- a word that fits is read back
pub from_le_bytes-to_le_bytes : (w n : ℕ) → n < 256 ^ w → from_le_bytes (to_le_bytes w n) ≡ n
unfolding to_le_bytes from_le_bytes
from_le_bytes-to_le_bytes zero n h = omega arith
from_le_bytes-to_le_bytes (suc w) n h =
    omega
      (arith, pow-suc 256 w, from_le_bytes-to_le_bytes w (n / 256) (omega (arith, pow-suc 256 w)))
