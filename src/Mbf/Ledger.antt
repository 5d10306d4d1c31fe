-- ===== src/Mbf/Ledger.antt =====
-- The fixed-point numbers of the financial ledger: `FixedDecimal128`, src/mbf/zones/financial_ledger.rs. A
-- number is its raw value, an i128 scaled by 10^4.
use metri_engine.Base.{
  ℕ, zero, suc, ◌+◌, ◌-◌, ◌*◌, ◌/◌, ◌%◌, ◌^◌, Bool, true, false, not, ◌&&◌, ◌||◌, List, [], ◌∷◌,
  Result, ok, err, if◌then◌else◌, ltb, nat_eq, length, take,
}
use metri_engine.Base.Int.{ℤ, pos, negsuc, neg, ◌+ℤ◌, pos_part, neg_part}
use metri_engine.Base.Sorting.{sort_by}
use metri_engine.Errors.{ErrorCode, mbf_ledger_unbalanced001}
pub mod Hamilton
pub mod Rounding
pub mod Fenwick
pub mod Zone
pub mod Inventory
pub mod Chain
pub mod Tamper
pub mod Codec

abbrev pub FixedDecimal128 : Type 0
FixedDecimal128 = ℤ

-- i128::unsigned_abs
abbrev pub unsigned_abs : ℤ → ℕ
unsigned_abs a = pos_part a + neg_part a

abbrev pub is_negative : ℤ → Bool
is_negative (pos n) = false
is_negative (negsuc n) = true

-- n * sign, of a sign that is -1 or 1
unfoldable pub times_sign : Bool → ℕ → ℤ
times_sign true n = neg (pos n)
times_sign false n = pos n

-- weights.iter().sum()
unfoldable pub weight_sum : List ℕ → ℕ
weight_sum [] = 0
weight_sum (w ∷ ws) = w + weight_sum ws

-- abs_total * w, in 128 bits
abbrev pub product : ℕ → ℕ → ℕ
product abs_total w = abs_total * w % 2 ^ 128

unfoldable pub floor_shares : ℕ → ℕ → List ℕ → List ℕ
floor_shares abs_total sum [] = []
floor_shares abs_total sum (w ∷ ws) = (product abs_total w / sum) ∷ floor_shares abs_total sum ws

-- the remainders with their indices
unfoldable pub remainders_from : ℕ → ℕ → ℕ → List ℕ → List (ℕ × ℕ)
remainders_from idx abs_total sum [] = []
remainders_from idx abs_total sum (w ∷ ws) =
    (idx, product abs_total w % sum) ∷ remainders_from (suc idx) abs_total sum ws

-- the larger remainder first, of equal ones the smaller index
abbrev pub comes_before : ℕ × ℕ → ℕ × ℕ → Bool
comes_before (i, r) (j, s) = ltb s r || (nat_eq r s && ltb i j)

-- shares[idx] += sign
unfoldable pub add_sign : Bool → ℕ → List ℤ → List ℤ
add_sign negative idx [] = []
add_sign negative zero (share ∷ shares) = (share +ℤ times_sign negative 1) ∷ shares
add_sign negative (suc idx) (share ∷ shares) = share ∷ add_sign negative idx shares

unfoldable pub add_signs : Bool → List (ℕ × ℕ) → List ℤ → List ℤ
add_signs negative [] shares = shares
add_signs negative ((idx, rem) ∷ rest) shares =
    add_signs negative rest (add_sign negative idx shares)

unfoldable pub signed : Bool → List ℕ → List ℤ
signed negative [] = []
signed negative (q ∷ qs) = times_sign negative q ∷ signed negative qs

unfoldable pub allocate_hamilton :
    FixedDecimal128 → List ℕ → Result ErrorCode (List FixedDecimal128)
allocate_hamilton total weights =
    let sum : ℕ = weight_sum weights in
    let floors : List ℕ = floor_shares (unsigned_abs total) sum weights in
    let leftover : ℕ = unsigned_abs total - weight_sum floors in
    let remainders : List (ℕ × ℕ) = remainders_from 0 (unsigned_abs total) sum weights in
    if nat_eq sum 0
    then err mbf_ledger_unbalanced001
    else ok (
        add_signs (is_negative total) (take leftover (sort_by comes_before remainders))
          (signed (is_negative total) floors))

abbrev pub xor : Bool → Bool → Bool
xor true b = not b
xor false b = b

-- The quotient is rounded to the nearest integer, a tie to the even one. The raw values are i128.
-- Doubling the remainder stays one for a denominator of at most 2^126; the division itself panics on the
-- least i128 over -1, where this gives 2^127.
unfoldable pub div_bankers_raw : ℤ → ℤ → FixedDecimal128
div_bankers_raw numerator denominator =
    let negative : Bool = xor (is_negative numerator) (is_negative denominator) in
    let q : ℕ = unsigned_abs numerator / unsigned_abs denominator in
    let abs_r2 : ℕ = unsigned_abs numerator % unsigned_abs denominator * 2 in
    let abs_d : ℕ = unsigned_abs denominator in
    if ltb abs_d abs_r2
    then times_sign negative q +ℤ times_sign negative 1
    else (if ltb abs_r2 abs_d
        then times_sign negative q
        else (if nat_eq (q % 2) 1
            then times_sign negative q +ℤ times_sign negative 1
            else times_sign negative q))
