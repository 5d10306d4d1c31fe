-- ===== src/Formula/Lexer/Steps.antt =====
-- How the lexer's loop goes on from the tokens and the text that it has reached.
use metri_engine.Base.{
  ℕ, zero, suc, ◌≤◌, ◌<◌, ◌≡◌, ◌≢◌, refl, sym, ◌∙◌, Bool, true, false, ◌||◌, Option, none, some,
  List, [], ◌∷◌, ◌++◌, Text, Result, ok, leb, nat_eq, length, Result-cases, inl, inr, arith,
}
use metri_engine.Formula.Token.{Token, FormulaError, literal, variable}
use metri_engine.Formula.Lexer.{
  skip_whitespace, is_ascii_digit, starts_name, in_name, is_blank_char, symbol_token, minus_token,
  lex_char, lex_loop, opens,
}
use metri_engine.Formula.Lexer.Total.{length-lex_char}
use metri_engine.Formula.Lexer.Scans.{
  Stops, IsNumeral, IsName, scan_number-digits, scan_identifier-name,
}

-- digits and letters are no symbols
symbol_token-none : (F : Type 0) (c : ℕ) → 48 ≤ c → c ≢ 94 → symbol_token {F = F} c ≡ none
unfolding symbol_token
symbol_token-none F c h n = ground arith

-- what may follow an expression: nothing, a parenthesis, or a space and an operator
pub data Follows : Text → Type 0 where
  ends : Follows []
  closes : (cs : Text) → Follows (b')' ∷ cs)
  goes_on : (d : ℕ) (cs : Text) → 33 ≤ d → d ≤ 126 → nat_eq d b'(' ≡ false → Follows (32 ∷ d ∷ cs)

pub Follows-Stops : {rest : Text} → Follows rest → Stops rest
Follows-Stops ends = tt
Follows-Stops (closes cs) = inr refl
Follows-Stops (goes_on d cs low high not_open) = inl refl

-- What `char::is_whitespace` says of the ASCII characters from the space on.
pub record IsWhitespace (is_whitespace : ℕ → Bool) : Type 0 where
  pub space : is_whitespace 32 ≡ true
  pub visible : (c : ℕ) → 33 ≤ c → c ≤ 126 → is_whitespace c ≡ false

module _ {F : Type 0} (is_whitespace : ℕ → Bool) (white : IsWhitespace is_whitespace)
    (to_uppercase : Text → Text) (parse : Text → Option F) (total : ℕ) where
  abbrev one : List (Token F) → ℕ → Text → Result FormulaError (List (Token F) × Text)
  one = lex_char is_whitespace to_uppercase parse total

  abbrev pub loop : ℕ → List (Token F) → Text → Option (Result FormulaError (List (Token F)))
  loop n = lex_loop is_whitespace to_uppercase parse n total

  -- more fuel than characters changes nothing
  loop_fuel :
      (m n : ℕ) (tokens : List (Token F)) (cs : Text)
      → length cs ≤ m
      → length cs ≤ n
      → loop m tokens cs ≡ loop n tokens cs
  unfolding lex_loop
  loop_fuel zero zero tokens cs h g = refl
  loop_fuel zero (suc n) tokens [] h g = refl
  loop_fuel (suc m) zero tokens [] h g = refl
  loop_fuel (suc m) (suc n) tokens [] h g = refl
  loop_fuel zero (suc n) tokens (c ∷ cs) h g = absurd (omega arith)
  loop_fuel (suc m) zero tokens (c ∷ cs) h g = absurd (omega arith)
  loop_fuel (suc m) (suc n) tokens (c ∷ cs) h g = elim (Result-cases (one tokens c cs)) [
    | inr (e, k) ↦ rw (k, lex_loop) refl
    | inl ((more, rest), k) ↦
        let shorter : length rest ≤ length cs =
          length-lex_char is_whitespace to_uppercase parse total tokens more c cs rest k in
        rw (k, lex_loop) (loop_fuel m n more rest (omega arith) (omega arith))
  ]

  -- the loop goes on from the one to the other
  pub record Leads (tokens : List (Token F)) (cs : Text) (tokens' : List (Token F)) (cs' : Text)
      : Type 0 where
    pub goes : (m n : ℕ) → length cs ≤ m → length cs' ≤ n → loop m tokens cs ≡ loop n tokens' cs'

  pub through :
      {t u v : List (Token F)} {a b c : Text} → Leads t a u b → Leads u b v c → Leads t a v c
  through {b = b} p q = record {
    goes = λ m n h g. p.goes m (length b) h (omega arith) ∙ q.goes (length b) n (omega arith) g;
  }

  pub stay : {t : List (Token F)} (cs : Text) → Leads t cs t cs
  stay {t} cs = record { goes = λ m n h g. loop_fuel m n t cs h g }

  back : {t u : List (Token F)} {a b : Text} → Leads t a u b → Leads u b t a
  back p = record { goes = λ m n h g. sym (p.goes n m g h) }

  step :
      (tokens more : List (Token F)) (c : ℕ) (cs rest : Text)
      → one tokens c cs ≡ ok (more, rest)
      → Leads tokens (c ∷ cs) more rest
  unfolding lex_loop
  step tokens more c cs rest k = record { goes = go }
    where
      shorter : length rest ≤ length cs
      shorter = length-lex_char is_whitespace to_uppercase parse total tokens more c cs rest k

      go :
          (m n : ℕ)
          → length (c ∷ cs) ≤ m
          → length rest ≤ n
          → loop m tokens (c ∷ cs) ≡ loop n more rest
      go zero n h g = absurd (omega arith)
      go (suc m) n h g = rw (k, lex_loop) (loop_fuel m n more rest (omega (arith, shorter)) g)

  -- one more token may come
  abbrev pub HasRoom : List (Token F) → Type 0
  HasRoom tokens = length tokens < 512

  pub blank :
      (tokens : List (Token F)) (cs : Text) → HasRoom tokens → Leads tokens (32 ∷ cs) tokens cs
  unfolding lex_char
  blank tokens cs h = step tokens tokens 32 cs cs (ground arith)

  pub symbol_step :
      (tokens : List (Token F)) (c : ℕ) (t : Token F) (cs : Text)
      → is_blank_char c ≡ false
      → symbol_token c ≡ some t
      → HasRoom tokens
      → Leads tokens (c ∷ cs) (t ∷ tokens) cs
  unfolding lex_char
  symbol_step tokens c t cs not_blank is_symbol h =
      step tokens (t ∷ tokens) c cs cs (rw (room, not_blank, is_symbol) refl)
    where
      room : leb 512 (length tokens) ≡ false
      room = ground arith

  pub minus_step :
      (tokens : List (Token F)) (cs : Text)
      → HasRoom tokens
      → Leads tokens (b'-' ∷ cs) (minus_token tokens ∷ tokens) cs
  unfolding lex_char symbol_token
  minus_step tokens cs h = step tokens (minus_token tokens ∷ tokens) b'-' cs cs (rw room refl)
    where
      room : leb 512 (length tokens) ≡ false
      room = ground arith

  pub number_step :
      (tokens : List (Token F)) (c : ℕ) (cs rest : Text) (v : F)
      → IsNumeral (c ∷ cs)
      → Stops rest
      → parse (c ∷ cs) ≡ some v
      → HasRoom tokens
      → Leads tokens ((c ∷ cs) ++ rest) (literal v ∷ tokens) rest
  unfolding lex_char
  number_step tokens c cs rest v (d, digits) stops parsed h =
      step tokens (literal v ∷ tokens) c (cs ++ rest) rest (
        rw
          (
            room,
            not_blank c d,
            no_symbol c d,
            not_minus c d,
            d,
            scan_number-digits (c ∷ cs) rest (d, digits) stops,
            parsed,
          )
          refl)
    where
      room : leb 512 (length tokens) ≡ false
      room = ground arith

      not_blank : (c : ℕ) → is_ascii_digit c ≡ true → is_blank_char c ≡ false
      not_blank c d = ground arith

      not_minus : (c : ℕ) → is_ascii_digit c ≡ true → nat_eq c b'-' ≡ false
      not_minus c d = ground arith

      no_symbol : (c : ℕ) → is_ascii_digit c ≡ true → symbol_token {F = F} c ≡ none
      no_symbol c d = symbol_token-none F c (ground arith) (λ e. ground arith)

  -- after a name the space is skipped, after a number it is read
  skipped :
      (tokens : List (Token F)) {rest : Text}
      → Follows rest
      → HasRoom tokens
      → (opens (skip_whitespace is_whitespace rest) ≡ false)
        × Leads tokens (skip_whitespace is_whitespace rest) tokens rest
  unfolding skip_whitespace
  skipped tokens ends room = (refl, stay [])
  skipped tokens (closes cs) room =
      rw (white.visible b')' (omega arith) (omega arith)) (refl, stay (b')' ∷ cs))
  skipped tokens (goes_on d cs low high not_open) room =
      rw (white.space, white.visible d low high) (not_open, back (blank tokens (d ∷ cs) room))

  pub name_step :
      (tokens : List (Token F)) (c : ℕ) (cs : Text) {rest : Text}
      → IsName (c ∷ cs)
      → Follows rest
      → suc (length tokens) < 512
      → Leads tokens ((c ∷ cs) ++ rest) (variable (c ∷ cs) ∷ tokens) rest
  unfolding lex_char
  name_step tokens c cs {rest} (d, name) follows h =
      let (not_open, goes_back) = skipped (variable (c ∷ cs) ∷ tokens) follows h in
      through
        (step tokens (variable (c ∷ cs) ∷ tokens) c (cs ++ rest)
          (skip_whitespace is_whitespace rest)
          (rw
            (
              room,
              not_blank c d,
              symbol_token-none F c (large c d) (no_caret c d),
              not_minus c d,
              not_number c d,
              d,
              scan_identifier-name (c ∷ cs) rest (starts c d, name) (Follows-Stops follows),
              not_open,
            )
            refl))
        goes_back
    where
      room : leb 512 (length tokens) ≡ false
      room = ground arith

      large : (c : ℕ) → starts_name c ≡ true → 48 ≤ c
      large c d = ground arith

      no_caret : (c : ℕ) → starts_name c ≡ true → c ≢ 94
      no_caret c d e = ground arith

      not_blank : (c : ℕ) → starts_name c ≡ true → is_blank_char c ≡ false
      not_blank c d = ground arith

      not_minus : (c : ℕ) → starts_name c ≡ true → nat_eq c b'-' ≡ false
      not_minus c d = ground arith

      not_number : (c : ℕ) → starts_name c ≡ true → is_ascii_digit c || nat_eq c b'.' ≡ false
      not_number c d = ground arith

      starts : (c : ℕ) → starts_name c ≡ true → in_name c ≡ true
      starts c d = ground arith
