-- ===== src/Formula/Lexer/Printed.antt =====
-- A formula written with parentheses around its operators and a space on each side of those between two
-- operands is read as its tokens, and so evaluated to what it means.
use mathlib.Core.List.{reverse_aux}
use metri_engine.Base.{
  ℕ, suc, ◌+◌, ◌≤◌, ◌<◌, ◌≡◌, refl, ap, ◌∙◌, Bool, false, Option, some, List, [], ◌∷◌, ◌++◌, Text,
  ok, ltb, length, arith,
}
use metri_engine.Formula.Token.{
  Token, add, mul, div, mod_, power, neg, literal, variable, operator, paren_open, paren_close,
}
use metri_engine.Formula.Parser.Parenthesised.{
  Binary, Expr, plus, minus, times, over, modulo, to_the, constant, named, negative, binary, symbol,
  infix_form,
}
use metri_engine.Formula.Lexer.{
  byte_len, is_blank_char, is_blank, symbol_token, is_unary, lex_loop, tokenize,
}
use metri_engine.Formula.Lexer.Steps.{
  Leads, Follows, ends, closes, goes_on, Follows-Stops, IsWhitespace, through, blank, symbol_step,
  minus_step, number_step, name_step,
}
use metri_engine.Formula.Lexer.Scans.{IsNumeral, IsName}

-- the character of an operator
abbrev pub sign : Binary → ℕ
sign plus = b'+'
sign minus = b'-'
sign times = b'*'
sign over = b'/'
sign modulo = b'%'
sign to_the = b'^'

module _ {F : Type 0} (spell : F → Text) where
  -- the text of an expression, before `rest`
  abbrev pub text_form : Expr F → Text → Text
  text_form (constant v) rest = spell v ++ rest
  text_form (named n) rest = n ++ rest
  text_form (negative e) rest = b'(' ∷ b'-' ∷ text_form e (b')' ∷ rest)
  text_form (binary op l r) rest =
      b'(' ∷ text_form l (32 ∷ sign op ∷ 32 ∷ text_form r (b')' ∷ rest))

module _ {F : Type 0} where
  -- its tokens, the last in front, before those in front of it
  abbrev pushed : Expr F → List (Token F) → List (Token F)
  pushed (constant v) tokens = literal v ∷ tokens
  pushed (named n) tokens = variable n ∷ tokens
  pushed (negative e) tokens = paren_close ∷ pushed e (operator neg ∷ paren_open ∷ tokens)
  pushed (binary op l r) tokens =
      paren_close ∷ pushed r (operator (symbol op) ∷ pushed l (paren_open ∷ tokens))

  reverse-pushed :
      (e : Expr F) (tokens rest : List (Token F))
      → reverse_aux (pushed e tokens) rest ≡ reverse_aux tokens (infix_form e rest)
  reverse-pushed (constant v) tokens rest = refl
  reverse-pushed (named n) tokens rest = refl
  reverse-pushed (negative e) tokens rest =
      reverse-pushed e (operator neg ∷ paren_open ∷ tokens) (paren_close ∷ rest)
  reverse-pushed (binary op l r) tokens rest =
      reverse-pushed r (operator (symbol op) ∷ pushed l (paren_open ∷ tokens)) (paren_close ∷ rest)
      ∙ reverse-pushed l (paren_open ∷ tokens)
          (operator (symbol op) ∷ infix_form r (paren_close ∷ rest))

  -- how many tokens
  abbrev pub size : Expr F → ℕ
  size (constant v) = 1
  size (named n) = 1
  size (negative e) = size e + 3
  size (binary op l r) = size l + size r + 3

  length-pushed :
      (e : Expr F) (tokens : List (Token F)) → length (pushed e tokens) ≡ length tokens + size e
  length-pushed (constant v) tokens = omega arith
  length-pushed (named n) tokens = omega arith
  length-pushed (negative e) tokens =
      omega (arith, length-pushed e (operator neg ∷ paren_open ∷ tokens))
  length-pushed (binary op l r) tokens = omega (
    arith,
    length-pushed l (paren_open ∷ tokens),
    length-pushed r (operator (symbol op) ∷ pushed l (paren_open ∷ tokens)),
  )

  operand : (e : Expr F) (tokens : List (Token F)) → is_unary (pushed e tokens) ≡ false
  operand (constant v) tokens = refl
  operand (named n) tokens = refl
  operand (negative e) tokens = refl
  operand (binary op l r) tokens = refl

before_sign : (op : Binary) (cs : Text) → Follows (32 ∷ sign op ∷ cs)
before_sign plus cs = goes_on b'+' cs (omega arith) (omega arith) refl
before_sign minus cs = goes_on b'-' cs (omega arith) (omega arith) refl
before_sign times cs = goes_on b'*' cs (omega arith) (omega arith) refl
before_sign over cs = goes_on b'/' cs (omega arith) (omega arith) refl
before_sign modulo cs = goes_on b'%' cs (omega arith) (omega arith) refl
before_sign to_the cs = goes_on b'^' cs (omega arith) (omega arith) refl

module _ {F : Type 0} (is_whitespace : ℕ → Bool) (white : IsWhitespace is_whitespace)
    (to_uppercase : Text → Text) (parse : Text → Option F) (spell : F → Text) where
  -- numbers that are spelled in digits and parsed back, and names that are names
  abbrev pub IsPrintable : Expr F → Type 0
  IsPrintable (constant v) = IsNumeral (spell v) × (parse (spell v) ≡ some v)
  IsPrintable (named n) = IsName n
  IsPrintable (negative e) = IsPrintable e
  IsPrintable (binary op l r) = IsPrintable l × IsPrintable r

  abbrev Goes : ℕ → List (Token F) → Text → List (Token F) → Text → Type 0
  Goes total = Leads is_whitespace white to_uppercase parse total

  on :
      (total : ℕ) {t u v : List (Token F)} {a b c : Text}
      → Goes total t a u b
      → Goes total u b v c
      → Goes total t a v c
  on total p q = through is_whitespace white to_uppercase parse total p q

  number_read :
      (total : ℕ) (v : F) (s : Text) (tokens : List (Token F)) {rest : Text}
      → IsNumeral s
      → parse s ≡ some v
      → Follows rest
      → length tokens < 512
      → Goes total tokens (s ++ rest) (literal v ∷ tokens) rest
  number_read total v [] tokens h parsed follows room = absurd h
  number_read total v (c ∷ cs) tokens {rest} h parsed follows room =
      number_step is_whitespace white to_uppercase parse total tokens c cs rest v h
        (Follows-Stops follows) parsed room

  name_read :
      (total : ℕ) (n : Text) (tokens : List (Token F)) {rest : Text}
      → IsName n
      → Follows rest
      → suc (length tokens) < 512
      → Goes total tokens (n ++ rest) (variable n ∷ tokens) rest
  name_read total [] tokens h follows room = absurd h
  name_read total (c ∷ cs) tokens h follows room =
      name_step is_whitespace white to_uppercase parse total tokens c cs h follows room

  -- the operator's character and the space after it
  sign_read :
      (total : ℕ) (op : Binary) (tokens : List (Token F)) (cs : Text)
      → is_unary tokens ≡ false
      → suc (length tokens) < 512
      → Goes total tokens (32 ∷ sign op ∷ 32 ∷ cs) (operator (symbol op) ∷ tokens) cs
  unfolding symbol_token
  sign_read total op tokens cs after_operand room =
      on total
        (blank is_whitespace white to_uppercase parse total tokens (sign op ∷ 32 ∷ cs)
          (omega arith))
        (on total (at_sign op) (
          blank is_whitespace white to_uppercase parse total (operator (symbol op) ∷ tokens) cs
            room))
    where
      at_symbol :
          (c : ℕ) (t : Token F)
          → is_blank_char c ≡ false
          → symbol_token c ≡ some t
          → Goes total tokens (c ∷ 32 ∷ cs) (t ∷ tokens) (32 ∷ cs)
      at_symbol c t b e =
          symbol_step is_whitespace white to_uppercase parse total tokens c t (32 ∷ cs) b e
            (omega arith)

      at_sign :
          (op : Binary)
          → Goes total tokens (sign op ∷ 32 ∷ cs) (operator (symbol op) ∷ tokens) (32 ∷ cs)
      at_sign plus = at_symbol b'+' (operator add) refl refl
      at_sign minus =
          rw after_operand at
            (minus_step is_whitespace white to_uppercase parse total tokens (32 ∷ cs) (omega arith))
      at_sign times = at_symbol b'*' (operator mul) refl refl
      at_sign over = at_symbol b'/' (operator div) refl refl
      at_sign modulo = at_symbol b'%' (operator mod_) refl refl
      at_sign to_the = at_symbol b'^' (operator power) refl refl

  open_read :
      (total : ℕ) (tokens : List (Token F)) (cs : Text)
      → length tokens < 512
      → Goes total tokens (b'(' ∷ cs) (paren_open ∷ tokens) cs
  unfolding symbol_token
  open_read total tokens cs room =
      symbol_step is_whitespace white to_uppercase parse total tokens b'(' paren_open cs refl refl
        room

  close_read :
      (total : ℕ) (tokens : List (Token F)) (cs : Text)
      → length tokens < 512
      → Goes total tokens (b')' ∷ cs) (paren_close ∷ tokens) cs
  unfolding symbol_token
  close_read total tokens cs room =
      symbol_step is_whitespace white to_uppercase parse total tokens b')' paren_close cs refl refl
        room

  expression_read :
      (total : ℕ) (e : Expr F) (tokens : List (Token F)) {rest : Text}
      → IsPrintable e
      → Follows rest
      → length tokens + size e < 512
      → Goes total tokens (text_form spell e rest) (pushed e tokens) rest
  expression_read total (constant v) tokens (h, parsed) follows room =
      number_read total v (spell v) tokens h parsed follows (omega arith)
  expression_read total (named n) tokens h follows room =
      name_read total n tokens h follows (omega arith)
  expression_read total (negative e) tokens {rest} h follows room =
      let opened : List (Token F) = operator neg ∷ paren_open ∷ tokens in
      on total (open_read total tokens (b'-' ∷ text_form spell e (b')' ∷ rest)) (omega arith)) (
        on total
          (minus_step is_whitespace white to_uppercase parse total (paren_open ∷ tokens)
            (text_form spell e (b')' ∷ rest)) (omega arith))
          (on total (expression_read total e opened h (closes rest) (omega arith))
            (close_read total (pushed e opened) rest (omega (arith, length-pushed e opened)))))
  expression_read total (binary op l r) tokens {rest} (hl, hr) follows room =
      let opened : List (Token F) = paren_open ∷ tokens in
      let left : List (Token F) = pushed l opened in
      let signed : List (Token F) = operator (symbol op) ∷ left in
      let right : Text = text_form spell r (b')' ∷ rest) in
      on total
        (open_read total tokens (text_form spell l (32 ∷ sign op ∷ 32 ∷ right)) (omega arith))
        (on total (expression_read total l opened hl (before_sign op (32 ∷ right)) (omega arith)) (
          on total
            (sign_read total op left right (operand l opened)
              (omega (arith, length-pushed l opened)))
            (on total
              (expression_read total r signed hr (closes rest)
                (omega (arith, length-pushed l opened)))
              (close_read total (pushed r signed) rest
                (omega (arith, length-pushed l opened, length-pushed r signed))))))

  visible_start : (c : ℕ) (cs : Text) → 33 ≤ c → c ≤ 126 → is_blank is_whitespace (c ∷ cs) ≡ false
  unfolding is_blank
  visible_start c cs low high = rw (white.visible c low high) refl

  numeral_start : (s rest : Text) → IsNumeral s → is_blank is_whitespace (s ++ rest) ≡ false
  numeral_start [] rest h = absurd h
  numeral_start (c ∷ cs) rest (d, h) = visible_start c (cs ++ rest) (ground arith) (ground arith)

  name_start : (s rest : Text) → IsName s → is_blank is_whitespace (s ++ rest) ≡ false
  name_start [] rest h = absurd h
  name_start (c ∷ cs) rest (d, h) = visible_start c (cs ++ rest) (ground arith) (ground arith)

  is_blank-text_form :
      (e : Expr F) (rest : Text)
      → IsPrintable e
      → is_blank is_whitespace (text_form spell e rest) ≡ false
  is_blank-text_form (constant v) rest (h, parsed) = numeral_start (spell v) rest h
  is_blank-text_form (named n) rest h = name_start n rest h
  is_blank-text_form (negative e) rest h =
      visible_start b'(' (b'-' ∷ text_form spell e (b')' ∷ rest)) (omega arith) (omega arith)
  is_blank-text_form (binary op l r) rest h =
      visible_start b'(' (text_form spell l (32 ∷ sign op ∷ 32 ∷ text_form spell r (b')' ∷ rest)))
        (omega arith) (omega arith)

  -- The text of an expression is read as its tokens: numbers in digits that parse back, names of
  -- letters, `_`, digits and dashes, fewer than 512 tokens and at most 4096 bytes.
  pub tokenize-text_form :
      (e : Expr F)
      → IsPrintable e
      → size e < 512
      → byte_len (text_form spell e []) ≤ 4096
      → tokenize is_whitespace to_uppercase parse (text_form spell e [])
        ≡ some (ok (infix_form e []))
  unfolding tokenize lex_loop
  tokenize-text_form e h few short =
      let total : ℕ = byte_len (text_form spell e []) in
      let read : Goes total [] (text_form spell e []) (pushed e []) [] =
        expression_read total e [] h ends (omega arith) in
      rw
        (
          is_blank-text_form e [] h,
          below,
          read.goes (length (text_form spell e [])) 0 (omega arith) (omega arith),
          lex_loop,
        )
        (ap (λ ts. some (ok ts)) (reverse-pushed e [] []))
    where
      below : ltb 4096 (byte_len (text_form spell e [])) ≡ false
      below = ground (arith, short)
