-- ===== src/Base/Wrap.antt =====
-- 128-bit arithmetic that wraps: a sum may wrap at each step, or once at its end.
use Prim.Native.Nat.{ℕ, suc, ◌+◌, ◌-◌, ◌%◌, ◌^◌, ◌<◌}
use mathlib.Core.Path.{◌≡◌, refl, sym, ap, ◌∙◌}
use native.Mathlib.Omega.{arith}
use metri_engine.Base.Int.{ℤ, pos, negsuc, ◌+ℤ◌, ◌-ℤ◌, wrap, as_signed}

abbrev modulus : ℕ
modulus = 2 ^ 128

-- what is left of a number modulo 2^128
residue : ℤ → ℕ
residue (pos n) = n % modulus
residue (negsuc n) = modulus - suc (n % modulus)

wrap-residue : (a : ℤ) → wrap 128 a ≡ as_signed 128 (residue a)
unfolding wrap residue
wrap-residue (pos n) = refl
wrap-residue (negsuc n) = refl

residue-as_signed : (r : ℕ) → r < modulus → residue (as_signed 128 r) ≡ r
unfolding residue
residue-as_signed r h = ground arith

residue-lt : (a : ℤ) → residue a < modulus
unfolding residue
residue-lt (pos n) = omega arith
residue-lt (negsuc n) = omega arith

residue-add : (a b : ℤ) → residue (a +ℤ b) ≡ (residue a + residue b) % modulus
unfolding residue ◌+ℤ◌
residue-add (pos n) (pos m) = ground arith
residue-add (pos n) (negsuc m) = ground arith
residue-add (negsuc n) (pos m) = ground arith
residue-add (negsuc n) (negsuc m) = ground arith

residue-wrap : (a : ℤ) → residue (wrap 128 a) ≡ residue a
residue-wrap a = ap residue (wrap-residue a) ∙ residue-as_signed (residue a) (residue-lt a)

pub wrap-add_left : (a b : ℤ) → wrap 128 (wrap 128 a +ℤ b) ≡ wrap 128 (a +ℤ b)
wrap-add_left a b =
    wrap-residue (wrap 128 a +ℤ b)
    ∙ ap (as_signed 128) (
        residue-add (wrap 128 a) b
        ∙ ap (λ r. (r + residue b) % modulus) (residue-wrap a)
        ∙ sym (residue-add a b))
    ∙ sym (wrap-residue (a +ℤ b))

pub wrap-add_right : (a b : ℤ) → wrap 128 (a +ℤ wrap 128 b) ≡ wrap 128 (a +ℤ b)
wrap-add_right a b =
    wrap-residue (a +ℤ wrap 128 b)
    ∙ ap (as_signed 128) (
        residue-add a (wrap 128 b)
        ∙ ap (λ r. (residue a + r) % modulus) (residue-wrap b)
        ∙ sym (residue-add a b))
    ∙ sym (wrap-residue (a +ℤ b))

residue-sub : (a b : ℤ) → residue (a -ℤ b) ≡ (residue a + (modulus - residue b)) % modulus
unfolding residue ◌-ℤ◌
residue-sub (pos n) (pos m) = ground arith
residue-sub (pos n) (negsuc m) = ground arith
residue-sub (negsuc n) (pos m) = ground arith
residue-sub (negsuc n) (negsuc m) = ground arith

pub wrap-sub : (a b : ℤ) → wrap 128 (wrap 128 a -ℤ wrap 128 b) ≡ wrap 128 (a -ℤ b)
wrap-sub a b =
    wrap-residue (wrap 128 a -ℤ wrap 128 b)
    ∙ ap (as_signed 128) (
        residue-sub (wrap 128 a) (wrap 128 b)
        ∙ ap (λ r. (r + (modulus - residue (wrap 128 b))) % modulus) (residue-wrap a)
        ∙ ap (λ r. (residue a + (modulus - r)) % modulus) (residue-wrap b)
        ∙ sym (residue-sub a b))
    ∙ sym (wrap-residue (a -ℤ b))
