-- ===== src/Formula/Lexer/Total.antt =====
-- The lexer ends on every formula, and what it gives is in order.
use mathlib.Core.List.{reverse, reverse-reverse}
use metri_engine.Base.{
  ℕ, zero, suc, ◌-◌, ◌≤◌, ◌≡◌, refl, sym, subst, Bool, true, false, ◌||◌, Option, none, some, List,
  [], ◌∷◌, Text, Result, ok, err, if◌then◌else◌, leb, nat_eq, ltb, length, length-reverse,
  Option-cases, Result-cases, Bool-cases, inl, inr, arith,
}
use metri_engine.Formula.Token.{
  Token, FormulaError, add, sub, mul, div, mod_, power, neg, literal, variable, operator, function,
  paren_open, paren_close, comma, empty_formula, formula_too_long,
}
use metri_engine.Formula.Lexer.{
  byte_len, scan_number, scan_identifier, skip_whitespace, is_ascii_digit, starts_name,
  is_blank_char, symbol_token, minus_token, number_token, name_token, scanned, opens, lex_char,
  lex_loop, tokenize, in_order, is_blank,
}

length-scan_number : (has_dot : Bool) (cs : Text) → length ((scan_number has_dot cs).1) ≤ length cs
unfolding scan_number
length-scan_number has_dot [] = omega arith
length-scan_number has_dot (c ∷ cs) =
    ground (arith, length-scan_number (has_dot || nat_eq c b'.') cs)

-- what starts a number is taken
scan_number-takes :
    (c : ℕ) (cs : Text)
    → is_ascii_digit c || nat_eq c b'.' ≡ true
    → length ((scan_number false (c ∷ cs)).1) ≤ length cs
unfolding scan_number
scan_number-takes c cs h = ground (arith, length-scan_number (nat_eq c b'.') cs)

length-scan_identifier : (cs : Text) → length ((scan_identifier cs).1) ≤ length cs
unfolding scan_identifier
length-scan_identifier [] = omega arith
length-scan_identifier (c ∷ cs) = ground (arith, length-scan_identifier cs)

scan_identifier-takes :
    (c : ℕ) (cs : Text) → starts_name c ≡ true → length ((scan_identifier (c ∷ cs)).1) ≤ length cs
unfolding scan_identifier
scan_identifier-takes c cs h = ground (arith, length-scan_identifier cs)

length-skip_whitespace :
    (is_whitespace : ℕ → Bool) (cs : Text) → length (skip_whitespace is_whitespace cs) ≤ length cs
unfolding skip_whitespace
length-skip_whitespace is_whitespace [] = omega arith
length-skip_whitespace is_whitespace (c ∷ cs) =
    ground (arith, length-skip_whitespace is_whitespace cs)

module _ {F : Type 0} where
  -- The place of a sign, by the tokens before it, the last in front: none, an operator, an opening
  -- parenthesis or a comma.
  abbrev pub TakesSign : List (Token F) → Type 0
  TakesSign [] = Unit
  TakesSign (operator op ∷ ts) = Unit
  TakesSign (literal v ∷ ts) = ⊥
  TakesSign (variable v ∷ ts) = ⊥
  TakesSign (function f a ∷ ts) = ⊥
  TakesSign (paren_open ∷ ts) = Unit
  TakesSign (paren_close ∷ ts) = ⊥
  TakesSign (comma ∷ ts) = Unit

  -- a negation stands in the place of a sign, a subtraction does not
  abbrev pub WellPlaced : List (Token F) → Type 0
  WellPlaced [] = Unit
  WellPlaced (operator neg ∷ ts) = TakesSign ts × WellPlaced ts
  WellPlaced (operator sub ∷ ts) = ¬ TakesSign ts × WellPlaced ts
  WellPlaced (t ∷ ts) = WellPlaced ts

  abbrev NotMinus : Token F → Type 0
  NotMinus (operator neg) = ⊥
  NotMinus (operator sub) = ⊥
  NotMinus t = Unit

  place : (t : Token F) (ts : List (Token F)) → NotMinus t → WellPlaced ts → WellPlaced (t ∷ ts)
  place (operator neg) ts n h = absurd n
  place (operator sub) ts n h = absurd n
  place (operator add) ts n h = h
  place (operator mul) ts n h = h
  place (operator div) ts n h = h
  place (operator mod_) ts n h = h
  place (operator power) ts n h = h
  place (literal v) ts n h = h
  place (variable v) ts n h = h
  place (function f a) ts n h = h
  place paren_open ts n h = h
  place paren_close ts n h = h
  place comma ts n h = h

  minus_token-WellPlaced : (ts : List (Token F)) → WellPlaced ts → WellPlaced (minus_token ts ∷ ts)
  minus_token-WellPlaced [] h = (tt, h)
  minus_token-WellPlaced (operator op ∷ ts) h = (tt, h)
  minus_token-WellPlaced (literal v ∷ ts) h = (λ x. x, h)
  minus_token-WellPlaced (variable v ∷ ts) h = (λ x. x, h)
  minus_token-WellPlaced (function f a ∷ ts) h = (λ x. x, h)
  minus_token-WellPlaced (paren_open ∷ ts) h = (tt, h)
  minus_token-WellPlaced (paren_close ∷ ts) h = (λ x. x, h)
  minus_token-WellPlaced (comma ∷ ts) h = (tt, h)

  -- what one round may leave: as many characters at most, one token more at most
  abbrev Fits : List (Token F) → Text → Result FormulaError (List (Token F) × Text) → Type 0
  Fits tokens cs (err e) = Unit
  Fits tokens cs (ok (more, rest)) =
      (length rest ≤ length cs)
      × (length more ≤ suc (length tokens))
      × (WellPlaced tokens → WellPlaced more)

  abbrev SymbolFits : Option (Token F) → Type 0
  SymbolFits none = Unit
  SymbolFits (some t) = NotMinus t

  if-SymbolFits :
      (b : Bool) (o p : Option (Token F))
      → SymbolFits o
      → SymbolFits p
      → SymbolFits (if b then o else p)
  if-SymbolFits true o p h g = h
  if-SymbolFits false o p h g = g

symbol_token-SymbolFits : (F : Type 0) (c : ℕ) → SymbolFits (symbol_token {F = F} c)
unfolding symbol_token
symbol_token-SymbolFits F c = if-SymbolFits (nat_eq c b'+') _ _ tt (
    if-SymbolFits (nat_eq c b'*') _ _ tt (
      if-SymbolFits (nat_eq c b'/') _ _ tt (
        if-SymbolFits (nat_eq c b'%') _ _ tt (
          if-SymbolFits (nat_eq c b'^') _ _ tt (
            if-SymbolFits (nat_eq c b'(') _ _ tt
              (if-SymbolFits (nat_eq c b')') _ _ tt (if-SymbolFits (nat_eq c b',') _ _ tt tt)))))))

module _ {F : Type 0} (is_whitespace : ℕ → Bool) (to_uppercase : Text → Text)
    (parse : Text → Option F) where
  number_token-Fits :
      (position : ℕ) (o : Option F) (tokens : List (Token F)) (cs : Text) (scan : Text × Text)
      → length (scan.1) ≤ length cs
      → Fits tokens cs (number_token position o tokens scan)
  number_token-Fits position none tokens cs (num_str, rest) h = tt
  number_token-Fits position (some v) tokens cs (num_str, rest) h = (h, omega arith, λ w. w)

  name_token-Fits :
      (tokens : List (Token F)) (cs ident rest : Text)
      → length rest ≤ length cs
      → Fits tokens cs (ok (name_token is_whitespace to_uppercase parse tokens ident rest))
  name_token-Fits tokens cs ident rest h = elim (Bool-cases (opens rest)) [
    | inl e ↦ rw e (h, omega arith, λ w. w)
    | inr e ↦ rw e (h, omega arith, λ w. w)
  ]

  scanned-Fits :
      (position : ℕ) (tokens : List (Token F)) (c : ℕ) (cs : Text)
      → Fits tokens cs (scanned is_whitespace to_uppercase parse position tokens c cs)
  scanned-Fits position tokens c cs = elim (Bool-cases (nat_eq c b'-')) [
    | inl e ↦ rw e (omega arith, omega arith, minus_token-WellPlaced tokens)
    | inr e ↦ elim (Bool-cases (is_ascii_digit c || nat_eq c b'.')) [
      | inl f ↦
          rw (e, f)
            (number_token-Fits position (parse ((scan_number false (c ∷ cs)).0)) tokens cs
              (scan_number false (c ∷ cs)) (scan_number-takes c cs f))
      | inr f ↦ elim (Bool-cases (starts_name c)) [
        | inl g ↦
            rw (e, f, g)
              (name_token-Fits tokens cs ((scan_identifier (c ∷ cs)).0)
                (skip_whitespace is_whitespace ((scan_identifier (c ∷ cs)).1))
                (omega (
                  arith,
                  length-skip_whitespace is_whitespace ((scan_identifier (c ∷ cs)).1),
                  scan_identifier-takes c cs g,
                )))
        | inr g ↦ rw (e, f, g) tt
      ]
    ]
  ]

  lex_char-Fits :
      (total : ℕ) (tokens : List (Token F)) (c : ℕ) (cs : Text)
      → Fits tokens cs (lex_char is_whitespace to_uppercase parse total tokens c cs)
  unfolding lex_char
  lex_char-Fits total tokens c cs = elim (Bool-cases (leb 512 (length tokens))) [
    | inl e ↦ rw (e, lex_char) tt
    | inr e ↦ elim (Bool-cases (is_blank_char c)) [
      | inl f ↦ rw (e, f, lex_char) (omega arith, omega arith, λ w. w)
      | inr f ↦ elim (Option-cases (symbol_token {F = F} c)) [
        | inl g ↦ rw (e, f, g, lex_char) (scanned-Fits (total - byte_len (c ∷ cs)) tokens c cs)
        | inr (t, g) ↦
            rw (e, f, g, lex_char)
              (
                omega arith,
                omega arith,
                place t tokens (subst SymbolFits g (symbol_token-SymbolFits F c)),
              )
      ]
    ]
  ]

  pub length-lex_char :
      (total : ℕ) (tokens more : List (Token F)) (c : ℕ) (cs rest : Text)
      → lex_char is_whitespace to_uppercase parse total tokens c cs ≡ ok (more, rest)
      → length rest ≤ length cs
  length-lex_char total tokens more c cs rest h =
      (subst (Fits tokens cs) h (lex_char-Fits total tokens c cs)).0

  lex_char_few :
      (total : ℕ) (tokens : List (Token F)) (c : ℕ) (cs : Text) (next : List (Token F) × Text)
      → lex_char is_whitespace to_uppercase parse total tokens c cs ≡ ok next
      → suc (length tokens) ≤ 512
  unfolding lex_char
  lex_char_few total tokens c cs next h = elim (Bool-cases (leb 512 (length tokens))) [
    | inl e ↦ absurd (failed (rw (e, lex_char) at h))
    | inr e ↦ ground (arith, e)
  ]
    where
      failed : {e : FormulaError} → err e ≡ ok next → ⊥
      failed k = cc

  -- of what the loop gives, the last token in front
  abbrev Sound : Result FormulaError (List (Token F)) → Type 0
  Sound (err e) = Unit
  Sound (ok tokens) = (length tokens ≤ 512) × WellPlaced tokens

  lex_loop_total :
      (fuel total : ℕ) (tokens : List (Token F)) (cs : Text)
      → length cs ≤ fuel
      → length tokens ≤ 512
      → WellPlaced tokens
      → (r : Result FormulaError (List (Token F))) × (lex_loop is_whitespace to_uppercase parse fuel
            total tokens cs
          ≡ some r)
        × Sound r
  unfolding lex_loop
  lex_loop_total fuel total tokens [] enough few w = (ok tokens, refl, (few, w))
  lex_loop_total zero total tokens (c ∷ cs) enough few w = absurd (omega arith)
  lex_loop_total (suc fuel) total tokens (c ∷ cs) enough few w =
      elim (Result-cases (lex_char is_whitespace to_uppercase parse total tokens c cs)) [
        | inr (e, h) ↦ (err e, rw (h, lex_loop) refl, tt)
        | inl ((more, rest), h) ↦
            let (shorter, longer, placed) =
              subst (Fits tokens cs) h (lex_char-Fits total tokens c cs) in
            let (r, ends, sound) =
              lex_loop_total fuel total more rest (omega (arith, enough, shorter))
                (omega (arith, longer, lex_char_few total tokens c cs (more, rest) h)) (placed w) in
            (r, rw (h, lex_loop) ends, sound)
      ]

  -- of the tokens in their order
  abbrev pub InOrder : Result FormulaError (List (Token F)) → Type 0
  InOrder (err e) = Unit
  InOrder (ok tokens) = (length tokens ≤ 512) × WellPlaced (reverse tokens)

  -- Every formula is read to its end: the fuel suffices, whatever the text. What comes is an error, or
  -- at most 512 tokens, in which a minus is the negation just where no token stands before it, or an
  -- operator, an opening parenthesis or a comma, and the subtraction elsewhere.
  pub tokenize_total :
      (formula : Text)
      → (r : Result FormulaError (List (Token F))) × (tokenize is_whitespace to_uppercase parse
            formula
          ≡ some r)
        × InOrder r
  unfolding tokenize
  tokenize_total formula = elim (Bool-cases (is_blank is_whitespace formula)) [
    | inl e ↦ (err empty_formula, rw e refl, tt)
    | inr e ↦ elim (Bool-cases (ltb 4096 (byte_len formula))) [
      | inl f ↦ (err (formula_too_long (byte_len formula) 4096), rw (e, f) refl, tt)
      | inr f ↦
          let (r, ends, sound) =
            lex_loop_total (length formula) (byte_len formula) [] formula (omega arith)
              (omega arith) tt in
          turned r (rw (e, f, ends) refl) sound
    ]
  ]
    where
      turned :
          (r : Result FormulaError (List (Token F)))
          → tokenize is_whitespace to_uppercase parse formula
            ≡ in_order is_whitespace to_uppercase parse (some r)
          → Sound r
          → (r' : Result FormulaError (List (Token F))) × (tokenize is_whitespace to_uppercase parse
                formula
              ≡ some r')
            × InOrder r'
      turned (err e) h s = (err e, h, tt)
      turned (ok tokens) h (few, placed) = (
        ok (reverse tokens),
        h,
        (
          omega (arith, length-reverse tokens, few),
          subst WellPlaced (sym (reverse-reverse tokens)) placed,
        ),
      )
