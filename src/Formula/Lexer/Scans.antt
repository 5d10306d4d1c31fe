-- ===== src/Formula/Lexer/Scans.antt =====
-- Numbers and names are scanned whole, up to what ends them.
use metri_engine.Base.{
  ℕ, ◌≡◌, ◌⊎◌, refl, Bool, true, false, [], ◌∷◌, ◌++◌, Text, nat_eq, inl, inr, arith,
}
use metri_engine.Formula.Lexer.{scan_number, scan_identifier, is_ascii_digit, starts_name, in_name}

-- where a number or a name ends: at the end of the text, a space, or a closing parenthesis
abbrev pub Stops : Text → Type 0
Stops [] = Unit
Stops (c ∷ cs) = (c ≡ 32) ⊎ (c ≡ b')')

abbrev pub AllOf : (ℕ → Bool) → Text → Type 0
AllOf test [] = Unit
AllOf test (c ∷ cs) = (test c ≡ true) × AllOf test cs

-- digits, one at least
abbrev pub IsNumeral : Text → Type 0
IsNumeral [] = ⊥
IsNumeral (c ∷ cs) = AllOf is_ascii_digit (c ∷ cs)

-- a letter or `_`, and more of these, digits and dashes
abbrev pub IsName : Text → Type 0
IsName [] = ⊥
IsName (c ∷ cs) = (starts_name c ≡ true) × AllOf in_name cs

scan_number_nothing : (b : Bool) (rest : Text) → Stops rest → scan_number b rest ≡ ([], rest)
unfolding scan_number
scan_number_nothing b [] h = refl
scan_number_nothing b (c ∷ cs) (inl e) = rw e refl
scan_number_nothing b (c ∷ cs) (inr e) = rw e refl

pub scan_number-digits :
    (digits rest : Text)
    → AllOf is_ascii_digit digits
    → Stops rest
    → scan_number false (digits ++ rest) ≡ (digits, rest)
unfolding scan_number
scan_number-digits [] rest h s = scan_number_nothing false rest s
scan_number-digits (c ∷ cs) rest (d, h) s = rw (d, point c d, scan_number-digits cs rest h s) refl
  where
    point : (c : ℕ) → is_ascii_digit c ≡ true → nat_eq c b'.' ≡ false
    point c d = ground arith

scan_identifier_nothing : (rest : Text) → Stops rest → scan_identifier rest ≡ ([], rest)
unfolding scan_identifier
scan_identifier_nothing [] h = refl
scan_identifier_nothing (c ∷ cs) (inl e) = rw e refl
scan_identifier_nothing (c ∷ cs) (inr e) = rw e refl

pub scan_identifier-name :
    (name rest : Text)
    → AllOf in_name name
    → Stops rest
    → scan_identifier (name ++ rest) ≡ (name, rest)
unfolding scan_identifier
scan_identifier-name [] rest h s = scan_identifier_nothing rest s
scan_identifier-name (c ∷ cs) rest (d, h) s = rw (d, scan_identifier-name cs rest h s) refl
