-- ===== src/Base/Tests.antt =====
-- Boolean tests on numbers, the conditional, and equality as an interface (Rust's `==`).
use Prim.Native.Nat.{ℕ, ◌-◌, ◌≤◌, ◌<◌, compare, Ordering}
use Prim.Native.Char.{code}
use Prim.Native.String.{String}
use mathlib.Core.Path.{◌≡◌, refl}
use mathlib.Core.Logic.{◌↔◌, ◌⊎◌, inl, inr}
use mathlib.Core.Bool.{Bool, true, false, ◌&&◌}
use mathlib.Core.Option.{Option, none, some}
use mathlib.Core.List.{List, [], ◌∷◌}
use native.Mathlib.Omega.{arith}

abbrev pub ltb : ℕ → ℕ → Bool
ltb a b = elim (compare a b) [ Ordering.lt ↦ true | _ ↦ false ]

abbrev pub leb : ℕ → ℕ → Bool
leb a b = elim (compare a b) [ Ordering.gt ↦ false | _ ↦ true ]

abbrev pub nat_eq : ℕ → ℕ → Bool
nat_eq a b = elim (compare a b) [ Ordering.eq ↦ true | _ ↦ false ]

infix 1 if◌then◌else◌
abbrev pub if◌then◌else◌ {ℓ} : {A : Type ℓ} → Bool → A → A → A
if true then x else y = x
if false then x else y = y

pub ltb→lt : (a b : ℕ) → ltb a b ≡ true → a < b
ltb→lt a b h = ground arith

pub lt→ltb : (a b : ℕ) → a < b → ltb a b ≡ true
lt→ltb a b h = ground arith

pub leb→le : (a b : ℕ) → leb a b ≡ true → a ≤ b
leb→le a b h = ground arith

pub nat_eq_iff : (a b : ℕ) → (nat_eq a b ≡ true) ↔ (a ≡ b)
nat_eq_iff a b = ground arith

pub Bool-cases : (b : Bool) → (b ≡ true) ⊎ (b ≡ false)
Bool-cases true = inl refl
Bool-cases false = inr refl

pub Option-cases {ℓ} : {A : Type ℓ} (o : Option A) → (o ≡ none) ⊎ ((a : A) × (o ≡ some a))
Option-cases none = inl refl
Option-cases (some a) = inr (a, refl)

-- A text is the list of the bytes of its UTF-8 form.
abbrev pub Text : Type 0
Text = List ℕ

abbrev pub codes : String → Text
codes String.[] = []
codes (String.◌∷◌ letter letters) = code letter ∷ codes letters

-- `PartialEq`, with what makes it an equality.
pub record HasEq {ℓ} (K : Type ℓ) : Type ℓ where
  pub eqb : K → K → Bool
  pub eqb_iff : (j k : K) → (eqb j k ≡ true) ↔ (j ≡ k)

infix 50 ◌==◌
abbrev pub ◌==◌ {κ} : {K : Type κ} ⦃h : HasEq K⦄ → K → K → Bool
◌==◌ ⦃h⦄ = h.eqb

unfoldable pub text_eq : Text → Text → Bool
text_eq [] [] = true
text_eq [] (y ∷ ys) = false
text_eq (x ∷ xs) [] = false
text_eq (x ∷ xs) (y ∷ ys) = nat_eq x y && text_eq xs ys

pub text_eq_iff : (s t : Text) → (text_eq s t ≡ true) ↔ (s ≡ t)
unfolding text_eq
text_eq_iff [] [] = ground arith
text_eq_iff [] (y ∷ ys) = ground arith
text_eq_iff (x ∷ xs) [] = ground arith
text_eq_iff (x ∷ xs) (y ∷ ys) = ground (arith, text_eq_iff xs ys)

instance abbrev pub nat_Eq : HasEq ℕ
nat_Eq = record { eqb = nat_eq; eqb_iff = nat_eq_iff }

instance abbrev pub text_Eq : HasEq Text
text_Eq = record { eqb = text_eq; eqb_iff = text_eq_iff }

module _ {ℓ κ} {A : Type ℓ} {B : Type κ} ⦃a : HasEq A⦄ ⦃b : HasEq B⦄ where
  abbrev pub pair_eq : A × B → A × B → Bool
  pair_eq (x, y) (x', y') = a.eqb x x' && b.eqb y y'

  pub pair_eq_iff : (p q : A × B) → (pair_eq p q ≡ true) ↔ (p ≡ q)
  pair_eq_iff (x, y) (x', y') = ground (arith, a.eqb_iff x x', b.eqb_iff y y')

  instance abbrev pub pair_Eq : HasEq (A × B)
  pair_Eq = record { eqb = pair_eq; eqb_iff = pair_eq_iff }

pub eqb_refl {ℓ} : {A : Type ℓ} ⦃e : HasEq A⦄ (x : A) → (x == x) ≡ true
eqb_refl ⦃e⦄ x = (e.eqb_iff x x).1 refl

-- str::to_uppercase, on ASCII
unfoldable pub upper : Text → Text
upper [] = []
upper (c ∷ cs) = (if leb b'a' c && leb c b'z' then c - 32 else c) ∷ upper cs
