-- ===== src/Base/Lists.antt =====
-- Lists measured and indexed by native numbers, under the library's names.
use Prim.Native.Nat.{ℕ, zero, suc, ◌+◌, min}
use mathlib.Core.Path.{◌≡◌, refl, ap, sym, ◌∙◌}
use mathlib.Core.Option.{Option, none, some}
use mathlib.Core.List.{List, [], ◌∷◌, ◌++◌, reverse, reverse_aux}
use native.Mathlib.Omega.{arith}

module _ {ℓ} {A : Type ℓ} where
  abbrev pub length : List A → ℕ
  length [] = 0
  length (x ∷ xs) = suc (length xs)

  abbrev pub take : ℕ → List A → List A
  take zero xs = []
  take (suc n) [] = []
  take (suc n) (x ∷ xs) = x ∷ take n xs

  abbrev pub drop : ℕ → List A → List A
  drop zero xs = xs
  drop (suc n) [] = []
  drop (suc n) (x ∷ xs) = drop n xs

  abbrev pub get_elem? : List A → ℕ → Option A
  get_elem? [] i = none
  get_elem? (x ∷ xs) zero = some x
  get_elem? (x ∷ xs) (suc i) = get_elem? xs i

  -- a write out of bounds changes nothing
  abbrev pub set : List A → ℕ → A → List A
  set [] i v = []
  set (x ∷ xs) zero v = v ∷ xs
  set (x ∷ xs) (suc i) v = x ∷ set xs i v

  pub length-set : (xs : List A) (i : ℕ) (v : A) → length (set xs i v) ≡ length xs
  length-set [] i v = refl
  length-set (x ∷ xs) zero v = refl
  length-set (x ∷ xs) (suc i) v = ap suc (length-set xs i v)

  pub length-append : (xs ys : List A) → length (xs ++ ys) ≡ length xs + length ys
  length-append [] ys = omega arith
  length-append (x ∷ xs) ys = omega (arith, length-append xs ys)

  pub length-take : (n : ℕ) (xs : List A) → length (take n xs) ≡ min n (length xs)
  length-take zero xs = omega arith
  length-take (suc n) [] = omega arith
  length-take (suc n) (x ∷ xs) = omega (arith, length-take n xs)

  pub take-append : (xs ys : List A) → take (length xs) (xs ++ ys) ≡ xs
  take-append [] ys = refl
  take-append (x ∷ xs) ys = ap (λ l. x ∷ l) (take-append xs ys)

  pub drop-append : (xs ys : List A) → drop (length xs) (xs ++ ys) ≡ ys
  drop-append [] ys = refl
  drop-append (x ∷ xs) ys = drop-append xs ys

  pub take-of-append : (n : ℕ) (xs ys : List A) → length xs ≡ n → take n (xs ++ ys) ≡ xs
  take-of-append n xs ys e = ap (λ k. take k (xs ++ ys)) (sym e) ∙ take-append xs ys

  pub drop-of-append : (n : ℕ) (xs ys : List A) → length xs ≡ n → drop n (xs ++ ys) ≡ ys
  drop-of-append n xs ys e = ap (λ k. drop k (xs ++ ys)) (sym e) ∙ drop-append xs ys

  length-reverse_aux : (xs ys : List A) → length (reverse_aux xs ys) ≡ length xs + length ys
  length-reverse_aux [] ys = omega arith
  length-reverse_aux (x ∷ xs) ys = omega (arith, length-reverse_aux xs (x ∷ ys))

  pub length-reverse : (xs : List A) → length (reverse xs) ≡ length xs
  length-reverse xs = omega (arith, length-reverse_aux xs [])

  -- two lists split after as many elements
  pub append_inj :
      (xs ys us vs : List A) → length xs ≡ length ys → xs ++ us ≡ ys ++ vs → (xs ≡ ys) × (us ≡ vs)
  append_inj [] [] us vs e h = (refl, h)
  append_inj [] (y ∷ ys) us vs e h = absurd (omega (arith, e))
  append_inj (x ∷ xs) [] us vs e h = absurd (omega (arith, e))
  append_inj (x ∷ xs) (y ∷ ys) us vs e h =
      let (p, q) = append_inj xs ys us vs (omega (arith, e)) (cc) in (cc, q)
