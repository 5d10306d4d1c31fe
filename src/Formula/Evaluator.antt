-- ===== src/Formula/Evaluator.antt =====
-- src/aegis/formula/evaluator.rs: the stack machine that evaluates a postfix sequence. The arithmetic
-- of f64 is a parameter.
use metri_engine.Base.{
  ℕ, zero, suc, Bool, Option, none, some, List, [], ◌∷◌, Text, Result, ok, err, ◌>>=◌,
  if◌then◌else◌, nat_eq,
}
use metri_engine.Formula.Token.{
  Operator, Token, FormulaError, add, sub, mul, div, mod_, power, neg, literal, variable, operator,
  function, empty_formula, unknown_function, arity_mismatch, math_domain_error,
}
use metri_engine.Formula.Functions.{FormulaFunction, FunctionRegistry, lookup}

-- The operations of f64 that the evaluator calls.
pub record Floats (F : Type 0) : Type 0 where
  pub plus : F → F → F
  pub minus : F → F → F
  pub times : F → F → F
  pub divided : F → F → F
  pub remainder : F → F → F
  pub powf : F → F → F
  pub negated : F → F
  pub nan : F
  pub is_zero : F → Bool

abbrev pub value_or : {F : Type 0} → F → Option F → F
value_or d (some v) = v
value_or d none = d

module _ {F : Type 0} (floats : Floats F) where
  -- match op, with the operator that is not binary last
  unfoldable pub apply : Operator → F → F → Result FormulaError F
  apply add left right = ok (floats.plus left right)
  apply sub left right = ok (floats.minus left right)
  apply mul left right = ok (floats.times left right)
  apply div left right = ok (if floats.is_zero right then floats.nan else floats.divided left right)
  apply mod_ left right =
      ok (if floats.is_zero right then floats.nan else floats.remainder left right)
  apply power left right = ok (floats.powf left right)
  apply neg left right = err math_domain_error

  unfoldable pub evaluate_operator : Operator → List F → Result FormulaError (List F)
  evaluate_operator neg [] = err empty_formula
  evaluate_operator neg (operand ∷ stack) = ok (floats.negated operand ∷ stack)
  evaluate_operator op [] = err empty_formula
  evaluate_operator op (right ∷ []) = err empty_formula
  evaluate_operator op (right ∷ left ∷ stack) =
      apply op left right >>= λ result. ok (result ∷ stack)

  -- the last `arity` values, the first argument in front, and the stack below them
  unfoldable pub pop_args : ℕ → List F → List F → Result FormulaError (List F × List F)
  pop_args zero args stack = ok (args, stack)
  pop_args (suc n) args [] = err empty_formula
  pop_args (suc n) args (v ∷ stack) = pop_args n (v ∷ args) stack

  abbrev arity_fits : Text → Option ℕ → ℕ → Result FormulaError (Unit {0})
  arity_fits name none got = ok tt
  arity_fits name (some expected) got =
      if nat_eq got expected then ok tt else err (arity_mismatch name expected got)

  abbrev call : Text → ℕ → Option (FormulaFunction F) → List F → Result FormulaError (List F)
  call name arity none stack = err (unknown_function name)
  call name arity (some func) stack = arity_fits name func.arity arity >>= λ u.
      pop_args arity [] stack >>= λ popped.
      ok (value_or floats.nan (func.evaluate popped.0) ∷ popped.1)

  module _ (to_uppercase : Text → Text) (resolve : Text → Option F)
      (functions : FunctionRegistry F) where
    unfoldable pub evaluate_token : Token F → List F → Result FormulaError (List F)
    evaluate_token (literal v) stack = ok (v ∷ stack)
    evaluate_token (variable name) stack = ok (value_or floats.nan (resolve name) ∷ stack)
    evaluate_token (operator op) stack = evaluate_operator op stack
    evaluate_token (function name arity) stack =
        call name arity (lookup to_uppercase functions name) stack
    evaluate_token other stack = ok stack

    unfoldable pub evaluate_all : List (Token F) → List F → Result FormulaError (List F)
    evaluate_all [] stack = ok stack
    evaluate_all (t ∷ ts) stack = evaluate_token t stack >>= evaluate_all ts

    abbrev pub top : List F → Result FormulaError F
    top [] = err empty_formula
    top (v ∷ stack) = ok v

    unfoldable pub evaluate : List (Token F) → Result FormulaError F
    evaluate rpn_tokens = evaluate_all rpn_tokens [] >>= top
