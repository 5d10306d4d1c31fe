-- ===== src/Base/Strings.antt =====
-- `&str` operations of the standard library, on texts as their bytes.
use mathlib.Core.Path.{◌≡◌, refl}
use mathlib.Core.Logic.{◌≢◌}
use mathlib.Core.Bool.{Bool, true, false, ◌||◌}
use mathlib.Core.Option.{Option, none, some}
use mathlib.Core.List.{[], ◌∷◌, ◌++◌}
use Prim.Native.Nat.{ℕ}
use native.Mathlib.Omega.{arith}
use metri_engine.Base.Tests.{Text, nat_eq, nat_eq_iff, if◌then◌else◌}

-- s.strip_prefix(p)
unfoldable pub strip_prefix : Text → Text → Option Text
strip_prefix s [] = some s
strip_prefix [] (p ∷ ps) = none
strip_prefix (c ∷ s) (p ∷ ps) = let rest = strip_prefix s ps in if nat_eq c p then rest else none

pub strip_prefix-append : (p s : Text) → strip_prefix (p ++ s) p ≡ some s
unfolding strip_prefix
strip_prefix-append [] [] = refl
strip_prefix-append [] (c ∷ s) = refl
strip_prefix-append (c ∷ p) s = rw ((nat_eq_iff c c).1 refl) (strip_prefix-append p s)

pub strip_prefix_sound : (s p r : Text) → strip_prefix s p ≡ some r → s ≡ p ++ r
unfolding strip_prefix
strip_prefix_sound [] [] r h = cc
strip_prefix_sound (c ∷ s) [] r h = cc
strip_prefix_sound [] (p ∷ ps) r h = cc
strip_prefix_sound (c ∷ s) (p ∷ ps) r h = ground (arith, nat_eq_iff c p, strip_prefix_sound s ps r)

-- s.split_once(c), for a character of one byte
unfoldable pub split_once : ℕ → Text → Option (Text × Text)
split_once sep [] = none
split_once sep (c ∷ cs) =
    let rest = split_once sep cs in
    if nat_eq c sep
    then some ([], cs)
    else elim rest [ none ↦ none | some (l, r) ↦ some (c ∷ l, r) ]

-- s.contains(c)
unfoldable pub contains : ℕ → Text → Bool
contains c [] = false
contains c (x ∷ xs) = nat_eq x c || contains c xs

-- s.is_empty()
abbrev pub is_empty : Text → Bool
is_empty [] = true
is_empty (c ∷ cs) = false

pub split_once-append :
    (sep : ℕ) (l r : Text) → contains sep l ≡ false → split_once sep (l ++ (sep ∷ r)) ≡ some (l, r)
unfolding split_once contains
split_once-append sep [] r h = ground arith
split_once-append sep (c ∷ l) r h = ground (arith, split_once-append sep l r)

pub split_once-inv :
    (sep : ℕ) (w l r : Text)
    → split_once sep w ≡ some (l, r)
    → (w ≡ l ++ (sep ∷ r)) × (contains sep l ≡ false)
unfolding split_once contains
split_once-inv sep [] l r h = cc
split_once-inv sep (c ∷ w) [] r h = ground arith
split_once-inv sep (c ∷ w) (d ∷ l) r h = ground (arith, split_once-inv sep w l r)

pub is_empty-ne : (s : Text) → is_empty s ≡ false → s ≢ []
is_empty-ne [] h = cc
is_empty-ne (c ∷ s) h = λ e. cc

pub ne-is_empty : (s : Text) → s ≢ [] → is_empty s ≡ false
ne-is_empty [] h = absurd (h refl)
ne-is_empty (c ∷ s) h = refl
