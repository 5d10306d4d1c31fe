-- ===== src/Formula/Measure.antt =====
-- A measure's formula on one row: `apply_output_cast_fbs`, src/aegis/oltp/caster.rs, reads, parses and
-- evaluates it. What becomes of the number, or of an error, is left out.
use metri_engine.Base.{ℕ, ◌<◌, ◌≤◌, ◌≡◌, Bool, Option, none, some, [], Text, Result, ok, ◌>>=◌, ap}
use metri_engine.Formula.Token.{FormulaError}
use metri_engine.Formula.Functions.{FunctionRegistry}
use metri_engine.Formula.Lexer.{tokenize, byte_len}
use metri_engine.Formula.Lexer.Steps.{IsWhitespace}
use metri_engine.Formula.Lexer.Printed.{text_form, IsPrintable, size, tokenize-text_form}
use metri_engine.Formula.Parser.{to_rpn}
use metri_engine.Formula.Parser.Parenthesised.{Expr, depth, value, evaluate-to_rpn}
use metri_engine.Formula.Evaluator.{Floats, evaluate}

module _ {F : Type 0} (floats : Floats F) (is_whitespace : ℕ → Bool) (to_uppercase : Text → Text)
    (parse : Text → Option F) (resolve : Text → Option F) (registry : FunctionRegistry F) where
  -- none: the lexer's fuel does not suffice
  unfoldable pub measure : Text → Option (Result FormulaError F)
  measure formula = elim (tokenize is_whitespace to_uppercase parse formula) [
    | none ↦ none
    | some tokens ↦ some (
        tokens >>= λ infix_tokens.
        to_rpn to_uppercase infix_tokens registry >>= evaluate floats to_uppercase resolve registry)
  ]

  -- A formula written with parentheses around its operators, and a space on each side of those between
  -- two operands, is read, parsed and evaluated to its value: the operators applied as the parentheses
  -- say, NaN for a variable that does not resolve and for a division or remainder by zero. Its numbers are
  -- digits that parse back, it calls no function, is nested at most 32 deep, and has fewer than 512 tokens
  -- and at most 4096 bytes.
  pub measure-text_form :
      (spell : F → Text)
      → (white : IsWhitespace is_whitespace) (e : Expr F)
      → IsPrintable is_whitespace white to_uppercase parse spell e
      → depth e ≤ 32
      → size e < 512
      → byte_len (text_form spell e []) ≤ 4096
      → measure (text_form spell e []) ≡ some (ok (value floats to_uppercase resolve registry e))
  unfolding measure
  measure-text_form spell white e printable shallow few short =
      rw
        (
          tokenize-text_form is_whitespace white to_uppercase parse spell e printable few short,
          measure,
        )
        (ap some (evaluate-to_rpn floats to_uppercase resolve registry e shallow))
