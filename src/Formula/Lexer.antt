-- ===== src/Formula/Lexer.antt =====
-- src/aegis/formula/lexer.rs: a formula becomes its tokens. A formula is the list of its characters' code
-- points. `char::is_whitespace`, `str::to_uppercase` and the parsing of an f64 are parameters. The loop
-- runs on fuel, one unit for each character.
use metri_engine.Base.{
  ℕ, zero, suc, ◌+◌, ◌-◌, Bool, true, false, not, ◌&&◌, ◌||◌, Option, none, some, List, [], ◌∷◌,
  Text, Result, ok, err, if◌then◌else◌, ltb, leb, nat_eq, length,
}
use metri_engine.Formula.Token.{
  Token, FormulaError, add, sub, mul, div, mod_, power, neg, literal, variable, operator, function,
  paren_open, paren_close, comma, unexpected_token, empty_formula, formula_too_long,
  too_many_tokens,
}
use mathlib.Core.List.{reverse}
pub mod Total
pub mod Scans
pub mod Steps
pub mod Printed

-- char::len_utf8
unfoldable pub len_utf8 : ℕ → ℕ
len_utf8 c = if ltb c 0x80 then 1 else (if ltb c 0x800 then 2 else (if ltb c 0x10000 then 3 else 4))

-- str::len
unfoldable pub byte_len : Text → ℕ
byte_len [] = 0
byte_len (c ∷ cs) = len_utf8 c + byte_len cs

abbrev pub is_ascii_digit : ℕ → Bool
is_ascii_digit c = leb b'0' c && leb c b'9'

abbrev pub is_ascii_alphabetic : ℕ → Bool
is_ascii_alphabetic c = (leb b'a' c && leb c b'z') || (leb b'A' c && leb c b'Z')

-- the digits in front, with one point at most
unfoldable pub scan_number : Bool → Text → Text × Text
scan_number has_dot [] = ([], [])
scan_number has_dot (c ∷ cs) =
    let (digits, rest) = scan_number (has_dot || nat_eq c b'.') cs in
    if is_ascii_digit c || (nat_eq c b'.' && not has_dot) then (c ∷ digits, rest) else ([], c ∷ cs)

abbrev pub starts_name : ℕ → Bool
starts_name c = is_ascii_alphabetic c || nat_eq c b'_'

abbrev pub next_starts_name : Text → Bool
next_starts_name [] = false
next_starts_name (c ∷ cs) = starts_name c

abbrev pub in_name : ℕ → Bool
in_name c = is_ascii_alphabetic c || (is_ascii_digit c || (nat_eq c b'_' || nat_eq c b'-'))

-- the name in front; a `/` belongs to it before a letter or `_`
unfoldable pub scan_identifier : Text → Text × Text
scan_identifier [] = ([], [])
scan_identifier (c ∷ cs) =
    let (ident, rest) = scan_identifier cs in
    if in_name c || (nat_eq c b'/' && next_starts_name cs) then (c ∷ ident, rest) else ([], c ∷ cs)

module _ (is_whitespace : ℕ → Bool) where
  unfoldable pub skip_whitespace : Text → Text
  skip_whitespace [] = []
  skip_whitespace (c ∷ cs) =
      let rest = skip_whitespace cs in if is_whitespace c then rest else c ∷ cs

  -- formula.trim().is_empty()
  unfoldable pub is_blank : Text → Bool
  is_blank [] = true
  is_blank (c ∷ cs) = is_whitespace c && is_blank cs

-- ' ' | '\t' | '\n' | '\r'
abbrev pub is_blank_char : ℕ → Bool
is_blank_char c = nat_eq c 32 || (nat_eq c 9 || (nat_eq c 10 || nat_eq c 13))

-- peek() == Some('(')
abbrev pub opens : Text → Bool
opens [] = false
opens (c ∷ cs) = nat_eq c b'('

module _ {F : Type 0} where
  -- the tokens of one character, but for the minus
  unfoldable pub symbol_token : ℕ → Option (Token F)
  symbol_token c =
      if nat_eq c b'+'
      then some (operator add)
      else (if nat_eq c b'*'
          then some (operator mul)
          else (if nat_eq c b'/'
              then some (operator div)
              else (if nat_eq c b'%'
                  then some (operator mod_)
                  else (if nat_eq c b'^'
                      then some (operator power)
                      else (if nat_eq c b'('
                          then some paren_open
                          else (if nat_eq c b')'
                              then some paren_close
                              else (if nat_eq c b',' then some comma else none)))))))

  -- The tokens so far have the last in front: a minus after none of them, or after an operator, an
  -- opening parenthesis or a comma, is a negation.
  abbrev pub is_unary : List (Token F) → Bool
  is_unary [] = true
  is_unary (operator op ∷ ts) = true
  is_unary (paren_open ∷ ts) = true
  is_unary (comma ∷ ts) = true
  is_unary (t ∷ ts) = false

  abbrev pub minus_token : List (Token F) → Token F
  minus_token tokens = if is_unary tokens then operator neg else operator sub

  abbrev pub number_token :
      ℕ → Option F → List (Token F) → Text × Text → Result FormulaError (List (Token F) × Text)
  number_token position none tokens (num_str, rest) = err (unexpected_token position num_str)
  number_token position (some val) tokens (num_str, rest) = ok (literal val ∷ tokens, rest)

  module _ (is_whitespace : ℕ → Bool) (to_uppercase : Text → Text) (parse : Text → Option F) where
    abbrev pub name_token : List (Token F) → Text → Text → List (Token F) × Text
    name_token tokens ident rest =
        ((if opens rest then function (to_uppercase ident) 0 else variable ident) ∷ tokens, rest)

    abbrev pub scanned : ℕ → List (Token F) → ℕ → Text → Result FormulaError (List (Token F) × Text)
    scanned position tokens c cs =
        if nat_eq c b'-'
        then ok (minus_token tokens ∷ tokens, cs)
        else (if is_ascii_digit c || nat_eq c b'.'
            then number_token position (parse ((scan_number false (c ∷ cs)).0)) tokens
                (scan_number false (c ∷ cs))
            else (if starts_name c
                then ok (
                    name_token tokens ((scan_identifier (c ∷ cs)).0)
                      (skip_whitespace is_whitespace ((scan_identifier (c ∷ cs)).1)))
                else err (unexpected_token position (c ∷ []))))

    -- one round of the loop, at the character `c` before `cs`; `total` is the formula's length
    unfoldable pub lex_char :
        ℕ → List (Token F) → ℕ → Text → Result FormulaError (List (Token F) × Text)
    lex_char total tokens c cs =
        if leb 512 (length tokens)
        then err (too_many_tokens (length tokens + 1) 512)
        else (if is_blank_char c then ok (tokens, cs) else elim (symbol_token c) [
          | some token ↦ ok (token ∷ tokens, cs)
          | none ↦ scanned (total - byte_len (c ∷ cs)) tokens c cs
        ])

    -- The tokens, the last in front; none if the fuel does not suffice.
    unfoldable pub lex_loop :
        ℕ → ℕ → List (Token F) → Text → Option (Result FormulaError (List (Token F)))
    lex_loop fuel total tokens [] = some (ok tokens)
    lex_loop zero total tokens (c ∷ cs) = none
    lex_loop (suc fuel) total tokens (c ∷ cs) = elim (lex_char total tokens c cs) [
      | err e ↦ some (err e)
      | ok (more, rest) ↦ lex_loop fuel total more rest
    ]

    abbrev pub in_order :
        Option (Result FormulaError (List (Token F)))
        → Option (Result FormulaError (List (Token F)))
    in_order none = none
    in_order (some (err e)) = some (err e)
    in_order (some (ok tokens)) = some (ok (reverse tokens))

    unfoldable pub tokenize : Text → Option (Result FormulaError (List (Token F)))
    tokenize formula =
        if is_blank is_whitespace formula
        then some (err empty_formula)
        else (if ltb 4096 (byte_len formula)
            then some (err (formula_too_long (byte_len formula) 4096))
            else in_order (lex_loop (length formula) (byte_len formula) [] formula))
