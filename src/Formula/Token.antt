-- ===== src/Formula/Token.antt =====
-- src/aegis/formula/token.rs and errors.rs: operators, tokens and the errors of the engine.
use metri_engine.Base.{ℕ, Bool, true, false, Text}

pub data Operator : Type 0 where
  add sub mul div mod_ power neg : Operator

unfoldable pub precedence : Operator → ℕ
precedence add = 1
precedence sub = 1
precedence mul = 2
precedence div = 2
precedence mod_ = 2
precedence power = 3
precedence neg = 4

unfoldable pub is_left_associative : Operator → Bool
is_left_associative neg = false
is_left_associative power = false
is_left_associative other = true

-- `F` is the type of the floating-point numbers, f64.
pub data Token (F : Type 0) : Type 0 where
  literal : F → Token F
  variable : Text → Token F
  operator : Operator → Token F
  function : Text → ℕ → Token F
  paren_open paren_close comma : Token F

-- `FormulaError`, with the variants that the lexer, the parser and the evaluator return; the texts
-- that explain a domain error are left out.
pub data FormulaError : Type 0 where
  unexpected_token : ℕ → Text → FormulaError
  unbalanced_parentheses : ℕ → FormulaError
  unknown_function : Text → FormulaError
  arity_mismatch : Text → ℕ → ℕ → FormulaError
  empty_formula math_domain_error : FormulaError
  formula_too_long nesting_too_deep too_many_tokens function_nesting_too_deep : ℕ → ℕ → FormulaError
