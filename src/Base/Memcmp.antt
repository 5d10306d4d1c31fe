-- ===== src/Base/Memcmp.antt =====
-- The order of byte sequences that begin with words.
use metri_engine.Base.{
  ℕ, ◌^◌, ◌<◌, ◌≡◌, refl, sym, ◌∙◌, true, false, List, [], ◌∷◌, ◌++◌, arith, ◌⊎◌, inl, inr,
  nat_eq_iff, ltb, ◌||◌, ◌&&◌, leb,
}
use metri_engine.Base.BigEndian.{to_be_bytes, memcmp_lt, memcmp_lt-same, memcmp_lt-to_be_bytes}

pub memcmp_lt-nil : (e : List ℕ) → memcmp_lt e [] ≡ false
unfolding memcmp_lt
memcmp_lt-nil [] = refl
memcmp_lt-nil (x ∷ e) = refl

pub memcmp_lt-asym : (xs ys : List ℕ) → memcmp_lt xs ys ≡ true → memcmp_lt ys xs ≡ false
unfolding memcmp_lt
memcmp_lt-asym [] [] h = refl
memcmp_lt-asym (x ∷ xs) [] h = cc
memcmp_lt-asym [] (y ∷ ys) h = refl
memcmp_lt-asym (x ∷ xs) (y ∷ ys) h =
    ground (arith, nat_eq_iff x y, nat_eq_iff y x, memcmp_lt-asym xs ys)

-- Words of 64 bits are compared before what follows them.
pub compare_words :
    (x y : ℕ) (e f : List ℕ)
    → x < 2 ^ 64
    → y < 2 ^ 64
    → memcmp_lt (to_be_bytes 8 x ++ e) (to_be_bytes 8 y ++ f)
      ≡ (ltb x y || (leb x y && memcmp_lt e f))
compare_words x y e f h g = elim (three x y) [
  | inl k ↦ memcmp_lt-to_be_bytes 8 x y e f k (omega arith) ∙ ground arith
  | inr (inl k) ↦ rw (sym k) (memcmp_lt-same (to_be_bytes 8 x) e f ∙ ground arith)
  | inr (inr k) ↦
      memcmp_lt-asym (to_be_bytes 8 y ++ f) (to_be_bytes 8 x ++ e)
        (memcmp_lt-to_be_bytes 8 y x f e k (omega arith))
      ∙ ground arith
]
  where
    three : (x y : ℕ) → (x < y) ⊎ (x ≡ y) ⊎ (y < x)
    three x y = ground arith
