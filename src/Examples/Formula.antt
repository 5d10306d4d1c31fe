-- ===== src/Examples/Formula.antt =====
-- The formula engine on `(-(2) * (x + 1))`, with numbers for floats.
use metri_engine.Base.{
  ℕ, ◌+◌, ◌-◌, ◌*◌, ◌/◌, ◌%◌, ◌^◌, ◌≡◌, ◌≤◌, refl, Bool, false, Text, List, ◌∷◌, Option, none,
  Result, some, [], codes, ok, ◌>>=◌, nat_eq, arith,
}
use metri_engine.Formula.Token.{Token, FormulaError}
use metri_engine.Formula.Lexer.{tokenize, byte_len, len_utf8}
use metri_engine.Formula.Lexer.Total.{InOrder, tokenize_total}
use metri_engine.Formula.Lexer.Steps.{IsWhitespace}
use metri_engine.Formula.Lexer.Printed.{text_form}
use metri_engine.Formula.Measure.{measure, measure-text_form}
use metri_engine.Formula.Functions.{FunctionRegistry}
use metri_engine.Formula.Parser.{to_rpn}
use metri_engine.Formula.Evaluator.{Floats, evaluate}
use metri_engine.Formula.Parser.Parenthesised.{
  Expr, constant, named, negative, binary, plus, times, infix_form, evaluate-to_rpn,
}

-- numbers in place of floats, where the negative of a number is 100 more
abbrev numbers : Floats ℕ
numbers = record {
  plus = λ a b. a + b;
  minus = λ a b. a - b;
  times = λ a b. a * b;
  divided = λ a b. a / b;
  remainder = λ a b. a % b;
  powf = λ a b. a ^ b;
  negated = λ a. a + 100;
  nan = 0;
  is_zero = λ a. nat_eq a 0;
}

abbrev product : Expr ℕ
product = binary times (negative (constant 2)) (binary plus (named (codes "x")) (constant 1))

abbrev no_functions : FunctionRegistry ℕ
no_functions = record { functions = [] }

evaluate-to_rpn_example :
    (to_rpn (λ t. t) (infix_form product []) no_functions
      >>= evaluate numbers (λ t. t) (λ name. some 4) no_functions)
    ≡ ok 510
evaluate-to_rpn_example =
    evaluate-to_rpn numbers (λ t. t) (λ name. some 4) no_functions product (omega arith)

-- the space is the only white character here
abbrev is_space : ℕ → Bool
is_space c = nat_eq c 32

visible : (c : ℕ) → 33 ≤ c → c ≤ 126 → is_space c ≡ false
visible c low high = ground arith

abbrev white : IsWhitespace is_space
white = record { space = refl; visible = visible }

-- numbers of one digit
abbrev spelled : ℕ → Text
spelled n = (n + 48) ∷ []

abbrev read_digit : Text → Option ℕ
read_digit (c ∷ []) = some (c - 48)
read_digit digits = none

-- ((-2) * (x + 1))
measure-text_form_example :
    measure numbers is_space
      (λ t. t)
      read_digit
      (λ name. some 4)
      no_functions
      (text_form spelled product [])
    ≡ some (ok 510)
unfolding byte_len len_utf8
measure-text_form_example =
    measure-text_form numbers is_space (λ t. t) read_digit (λ name. some 4) no_functions spelled
      white product (((refl, tt), refl), ((refl, tt), ((refl, tt), refl))) (omega arith)
      (omega arith) (omega arith)

tokenize_total_example :
    (r : Result FormulaError (List (Token ℕ))) × (tokenize is_space
        (λ t. t)
        read_digit
        (codes "a/b--(2 ^ -rate) % MAX(1, 3)")
      ≡ some r)
    × InOrder is_space (λ t. t) read_digit r
tokenize_total_example =
    tokenize_total is_space (λ t. t) read_digit (codes "a/b--(2 ^ -rate) % MAX(1, 3)")
