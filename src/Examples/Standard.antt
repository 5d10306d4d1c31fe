-- ===== src/Examples/Standard.antt =====
-- The standard functions in a measure's formula, with numbers for floats.
use metri_engine.Base.{
  ℕ, ◌+◌, ◌-◌, ◌*◌, ◌/◌, ◌%◌, ◌^◌, ◌≡◌, refl, Bool, false, Text, List, [], ◌∷◌, Option, none, some,
  Result, ok, err, codes, nat_eq, ltb, leb, if◌then◌else◌,
}
use metri_engine.Base.Int.{pos, pos_part}
use metri_engine.Formula.Token.{FormulaError, unknown_function, arity_mismatch}
use metri_engine.Formula.Functions.{FunctionRegistry}
use metri_engine.Formula.Evaluator.{Floats}
use metri_engine.Formula.Standard.{Math, standard}
use metri_engine.Formula.Resolver.{resolve, resolve_to_sql_column}
use metri_engine.Formula.Measure.{measure}

-- 99 stands for NaN
abbrev numbers : Floats ℕ
numbers = record {
  plus = λ a b. a + b;
  minus = λ a b. a - b;
  times = λ a b. a * b;
  divided = λ a b. a / b;
  remainder = λ a b. a % b;
  powf = λ a b. a ^ b;
  negated = λ a. a + 100;
  nan = 99;
  is_zero = λ a. nat_eq a 0;
}

abbrev larger : ℕ → ℕ → ℕ
larger a b = if ltb a b then b else a

abbrev smaller : ℕ → ℕ → ℕ
smaller a b = if ltb a b then a else b

abbrev math : Math ℕ
math = record {
  floats = numbers;
  of_int = pos_part;
  less = ltb;
  at_most = leb;
  equal = nat_eq;
  is_nan = λ a. nat_eq a 99;
  abs = λ a. a;
  round = λ a. a;
  ceil = λ a. a;
  floor = λ a. a;
  sqrt = λ a. a;
  ln = λ a. a;
  log10 = λ a. a;
  max = larger;
  min = smaller;
  clamp = λ x lo hi. larger lo (smaller x hi);
  as_i32 = pos;
  powi = λ a n. a ^ pos_part n;
}

abbrev registry : FunctionRegistry ℕ
registry = standard (λ t. t) math

abbrev read_digit : Text → Option ℕ
read_digit (c ∷ []) = some (c - 48)
read_digit digits = none

abbrev row : List (Text × ℕ)
row = (codes "asset/load", 5) ∷ (codes "rate", 4) ∷ []

abbrev on_row : Text → Option ℕ
on_row = resolve some row

abbrev measured : Text → Option (Result FormulaError ℕ)
measured = measure numbers (λ c. nat_eq c 32) (λ t. t) read_digit on_row registry

functions_test :
    (measured (codes "GREATEST(asset/load, plan/rate, 3) * 2") ≡ some (ok 10))
    × (measured (codes "COALESCE(absent, NULLIF(rate, 4), CLAMP(asset/load, 1, 3))") ≡ some (ok 3))
    × (measured (codes "MEDIAN(1, 2)") ≡ some (err (unknown_function (codes "MEDIAN"))))
    × (measured (codes "ABS(1, 2)") ≡ some (err (arity_mismatch (codes "ABS") 1 2)))
unfolding measure metri_engine.Formula.Lexer.tokenize metri_engine.Formula.Lexer.is_blank
    metri_engine.Formula.Lexer.byte_len metri_engine.Formula.Lexer.len_utf8
    metri_engine.Formula.Lexer.lex_loop metri_engine.Formula.Lexer.lex_char
    metri_engine.Formula.Lexer.symbol_token metri_engine.Formula.Lexer.skip_whitespace
    metri_engine.Formula.Lexer.scan_identifier metri_engine.Formula.Lexer.scan_number
    metri_engine.Formula.Parser.to_rpn metri_engine.Formula.Parser.shunt_all
    metri_engine.Formula.Parser.shunt metri_engine.Formula.Parser.flush
    metri_engine.Formula.Parser.flush_to_paren metri_engine.Formula.Parser.pop_operators
    metri_engine.Formula.Parser.pop_to_paren metri_engine.Formula.Functions.is_registered
    metri_engine.Formula.Functions.lookup metri_engine.Base.get metri_engine.Base.insert
    metri_engine.Base.text_eq metri_engine.Formula.Evaluator.apply
    metri_engine.Formula.Evaluator.evaluate metri_engine.Formula.Evaluator.evaluate_all
    metri_engine.Formula.Evaluator.evaluate_operator metri_engine.Formula.Evaluator.evaluate_token
    metri_engine.Formula.Evaluator.pop_args metri_engine.Formula.Token.is_left_associative
    metri_engine.Formula.Token.precedence standard metri_engine.Formula.Standard.register_all
    metri_engine.Formula.Standard.coalesce_of metri_engine.Formula.Standard.nullif_of
    metri_engine.Formula.Standard.clamp_of resolve metri_engine.Formula.Resolver.last_part
    metri_engine.Base.Strings.contains
functions_test = (refl, refl, refl, refl)

column_test : resolve_to_sql_column (codes "asset/health-score") ≡ codes "health_score"
unfolding resolve_to_sql_column metri_engine.Base.text_eq metri_engine.Formula.Resolver.replace
    metri_engine.Formula.Resolver.last_part metri_engine.Base.Strings.contains
column_test = refl
