-- ===== src/Mbf/Ledger/Hamilton.antt =====
-- Hamilton's method distributes the whole: the shares add up to the total.
use metri_engine.Base.{
  ℕ, zero, suc, ◌+◌, ◌-◌, ◌*◌, ◌/◌, ◌^◌, ◌≤◌, ◌<◌, ◌≡◌, ◌≢◌, refl, sym, ap, subst, ◌∙◌, Bool, true,
  false, List, [], ◌∷◌, ok, nat_eq, nat_eq_iff, length, take, length-take, arith,
}
use native.Mathlib.Nat.{
  mul-add, add-mul, div-mul-le_self, lt-div-mul-add, le_of_mul-le-mul_right, mul_comm,
}
use metri_engine.Base.Int.{ℤ, pos, negsuc, ◌+ℤ◌, int_laws, neg_parts}
use metri_engine.Base.Sorting.{sort_by, All, length-sort_by, sort_by-All, take-All}
use metri_engine.Mbf.Ledger.{
  FixedDecimal128, unsigned_abs, is_negative, times_sign, weight_sum, product, floor_shares,
  remainders_from, comes_before, add_sign, add_signs, signed, allocate_hamilton,
}

-- the sum of the shares, without a bound
unfoldable pub total_of : List ℤ → ℤ
total_of [] = pos 0
total_of (share ∷ shares) = share +ℤ total_of shares

-- no product leaves 128 bits
abbrev pub FitsProducts : ℕ → List ℕ → Type 0
FitsProducts abs_total weights = All (λ w. abs_total * w < 2 ^ 128) weights

floors_below :
    (t s : ℕ) (ws : List ℕ)
    → FitsProducts t ws
    → weight_sum (floor_shares t s ws) * s ≤ t * weight_sum ws
unfolding weight_sum floor_shares
floors_below t s [] h = omega arith
floors_below t s (w ∷ ws) (f, h) = omega (
  arith,
  floors_below t s ws h,
  add-mul (product t w / s) (weight_sum (floor_shares t s ws)) s,
  mul-add t w (weight_sum ws),
  div-mul-le_self (product t w) s,
  f,
)

floors_near :
    (t s : ℕ) (ws : List ℕ)
    → 0 < s
    → FitsProducts t ws
    → t * weight_sum ws ≤ (weight_sum (floor_shares t s ws) + length ws) * s
unfolding weight_sum floor_shares
floors_near t s [] p h = omega (arith, mul_comm t 0)
floors_near t s (w ∷ ws) p (f, h) = omega (
  arith,
  floors_near t s ws p h,
  add-mul (product t w / s) (weight_sum (floor_shares t s ws)) s,
  add-mul (product t w / s + weight_sum (floor_shares t s ws)) (suc (length ws)) s,
  add-mul (weight_sum (floor_shares t s ws)) (length ws) s,
  add-mul 1 (length ws) s,
  mul-add t w (weight_sum ws),
  lt-div-mul-add {a = product t w} {b = s} p,
  f,
)

-- adding a unit to one share adds it to the sum
total_of-add_sign :
    (negative : Bool) (idx : ℕ) (shares : List ℤ)
    → idx < length shares
    → total_of (add_sign negative idx shares) ≡ total_of shares +ℤ times_sign negative 1
unfolding total_of add_sign
total_of-add_sign negative idx [] h = absurd (omega arith)
total_of-add_sign negative zero (share ∷ shares) h = omega int_laws
total_of-add_sign negative (suc idx) (share ∷ shares) h =
    ap (λ t. share +ℤ t) (total_of-add_sign negative idx shares (omega arith)) ∙ omega int_laws

length-add_sign :
    (negative : Bool) (idx : ℕ) (shares : List ℤ)
    → length (add_sign negative idx shares) ≡ length shares
unfolding add_sign
length-add_sign negative idx [] = refl
length-add_sign negative zero (share ∷ shares) = refl
length-add_sign negative (suc idx) (share ∷ shares) = ap suc (length-add_sign negative idx shares)

length-add_signs :
    (negative : Bool) (chosen : List (ℕ × ℕ)) (shares : List ℤ)
    → length (add_signs negative chosen shares) ≡ length shares
unfolding add_signs
length-add_signs negative [] shares = refl
length-add_signs negative ((idx, rem) ∷ chosen) shares =
    length-add_signs negative chosen (add_sign negative idx shares)
    ∙ length-add_sign negative idx shares

pub times_sign-suc :
    (negative : Bool) (a b : ℕ)
    → times_sign negative a +ℤ times_sign negative b ≡ times_sign negative (a + b)
unfolding times_sign
times_sign-suc true a b = omega (int_laws, neg_parts (pos a))
times_sign-suc false a b = omega int_laws

+ℤ_assoc : (a b c : ℤ) → a +ℤ b +ℤ c ≡ a +ℤ (b +ℤ c)
+ℤ_assoc a b c = omega int_laws

zero_signed : (negative : Bool) → pos 0 ≡ times_sign negative 0
unfolding times_sign
zero_signed true = omega (int_laws, neg_parts (pos 0))
zero_signed false = refl

-- the sum after adding units
total_of-add_signs :
    (negative : Bool) (chosen : List (ℕ × ℕ)) (shares : List ℤ)
    → All (λ entry. entry.0 < length shares) chosen
    → total_of (add_signs negative chosen shares)
      ≡ total_of shares +ℤ times_sign negative (length chosen)
unfolding add_signs
total_of-add_signs negative [] shares h =
    zero_right ∙ ap (λ t. total_of shares +ℤ t) (zero_signed negative)
  where
    zero_right : total_of shares ≡ total_of shares +ℤ pos 0
    zero_right = omega int_laws
total_of-add_signs negative ((idx, rem) ∷ chosen) shares (h, hs) =
    total_of-add_signs negative chosen (add_sign negative idx shares) (
      subst (λ n. All (λ entry. entry.0 < n) chosen) (sym (length-add_sign negative idx shares)) hs)
    ∙ ap (λ t. t +ℤ times_sign negative (length chosen)) (total_of-add_sign negative idx shares h)
    ∙ +ℤ_assoc (total_of shares) (times_sign negative 1) (times_sign negative (length chosen))
    ∙ ap (λ t. total_of shares +ℤ t) (times_sign-suc negative 1 (length chosen))
    ∙ ap (λ n. total_of shares +ℤ times_sign negative n) (omega arith)

total_of-signed :
    (negative : Bool) (qs : List ℕ)
    → total_of (signed negative qs) ≡ times_sign negative (weight_sum qs)
unfolding total_of signed weight_sum
total_of-signed negative [] = zero_signed negative
total_of-signed negative (q ∷ qs) =
    ap (λ t. times_sign negative q +ℤ t) (total_of-signed negative qs)
    ∙ times_sign-suc negative q (weight_sum qs)

length-signed : (negative : Bool) (qs : List ℕ) → length (signed negative qs) ≡ length qs
unfolding signed
length-signed negative [] = refl
length-signed negative (q ∷ qs) = ap suc (length-signed negative qs)

length-floor_shares : (t s : ℕ) (ws : List ℕ) → length (floor_shares t s ws) ≡ length ws
unfolding floor_shares
length-floor_shares t s [] = refl
length-floor_shares t s (w ∷ ws) = ap suc (length-floor_shares t s ws)

length-remainders_from : (i t s : ℕ) (ws : List ℕ) → length (remainders_from i t s ws) ≡ length ws
unfolding remainders_from
length-remainders_from i t s [] = refl
length-remainders_from i t s (w ∷ ws) = ap suc (length-remainders_from (suc i) t s ws)

-- the indices are those of the weights
remainders_from-All :
    (i t s n : ℕ) (ws : List ℕ)
    → i + length ws ≤ n
    → All (λ entry. entry.0 < n) (remainders_from i t s ws)
unfolding remainders_from
remainders_from-All i t s n [] h = tt
remainders_from-All i t s n (w ∷ ws) h =
    (omega arith, remainders_from-All (suc i) t s n ws (omega arith))

sign_of-total : (a : ℤ) → times_sign (is_negative a) (unsigned_abs a) ≡ a
unfolding times_sign
sign_of-total (pos n) = omega int_laws
sign_of-total (negsuc n) = omega (int_laws, neg_parts (pos (suc n)))

module _ (total : FixedDecimal128) (weights : List ℕ) (weighty : weight_sum weights ≢ 0)
    (fits : FitsProducts (unsigned_abs total) weights) where
  abbrev whole : ℕ
  whole = unsigned_abs total

  abbrev floors : List ℕ
  floors = floor_shares whole (weight_sum weights) weights

  floors_sum : weight_sum floors ≤ whole
  floors_sum =
      le_of_mul-le-mul_right {k = weight_sum weights}
        (floors_below whole (weight_sum weights) weights fits) (omega arith)

  floors_few : whole ≤ weight_sum floors + length weights
  floors_few =
      le_of_mul-le-mul_right {k = weight_sum weights}
        (floors_near whole (weight_sum weights) weights (omega arith) fits) (omega arith)

  abbrev chosen : List (ℕ × ℕ)
  chosen =
      take (whole - weight_sum floors)
        (sort_by comes_before (remainders_from 0 whole (weight_sum weights) weights))

  length-chosen : length chosen ≡ whole - weight_sum floors
  length-chosen = omega (
    arith,
    length-take (whole - weight_sum floors)
        (sort_by comes_before (remainders_from 0 whole (weight_sum weights) weights)),
    length-sort_by comes_before (remainders_from 0 whole (weight_sum weights) weights),
    length-remainders_from 0 whole (weight_sum weights) weights,
    floors_few,
  )

  abbrev sign : Bool
  sign = is_negative total

  chosen-All : All (λ entry. entry.0 < length (signed sign floors)) chosen
  chosen-All =
      take-All (λ entry. entry.0 < length (signed sign floors)) (whole - weight_sum floors)
        (sort_by comes_before (remainders_from 0 whole (weight_sum weights) weights))
        (sort_by-All (λ entry. entry.0 < length (signed sign floors)) comes_before
          (remainders_from 0 whole (weight_sum weights) weights)
          (remainders_from-All 0 whole (weight_sum weights) (length (signed sign floors)) weights (
            omega (
              arith,
              length-signed sign floors,
              length-floor_shares whole (weight_sum weights) weights,
            ))))

  shares_total : total_of (add_signs sign chosen (signed sign floors)) ≡ total
  shares_total =
      total_of-add_signs sign chosen (signed sign floors) chosen-All
      ∙ ap (λ t. t +ℤ times_sign sign (length chosen)) (total_of-signed sign floors)
      ∙ times_sign-suc sign (weight_sum floors) (length chosen)
      ∙ ap (times_sign sign) (omega (arith, length-chosen, floors_sum))
      ∙ sign_of-total total

-- Where some weight is not 0, and no product of the total with a weight leaves 128 bits, the total is
-- distributed into one share for each weight, and the shares add up to the total exactly.
pub allocate_hamilton-total_of :
    (total : FixedDecimal128) (weights : List ℕ)
    → weight_sum weights ≢ 0
    → FitsProducts (unsigned_abs total) weights
    → (shares : List FixedDecimal128) × (allocate_hamilton total weights ≡ ok shares)
      × (length shares ≡ length weights)
      × (total_of shares ≡ total)
unfolding allocate_hamilton
allocate_hamilton-total_of total weights weighty fits = (
  add_signs (sign total weights weighty fits) (chosen total weights weighty fits)
      (signed (sign total weights weighty fits) (floors total weights weighty fits)),
  rw not_zero refl,
  length-add_signs (is_negative total) (chosen total weights weighty fits)
        (signed (is_negative total) (floors total weights weighty fits))
      ∙ length-signed (is_negative total) (floors total weights weighty fits)
      ∙ length-floor_shares (unsigned_abs total) (weight_sum weights) weights,
  shares_total total weights weighty fits,
)
  where
    not_zero : nat_eq (weight_sum weights) 0 ≡ false
    not_zero = ground (arith, nat_eq_iff (weight_sum weights) 0)
