-- ===== src/Formula/Parser.antt =====
-- src/aegis/formula/parser.rs: Dijkstra's shunting yard. The stacks have their tops in front.
use metri_engine.Base.{
  ℕ, suc, ◌+◌, ◌-◌, Bool, true, false, not, ◌&&◌, ◌||◌, List, [], ◌∷◌, ◌++◌, Text, Result, ok, err,
  ◌>>=◌, if◌then◌else◌, ltb, leb, nat_eq,
}
use metri_engine.Formula.Token.{
  Operator, Token, FormulaError, add, sub, mul, div, mod_, power, neg, literal, variable, operator,
  function, paren_open, paren_close, comma, precedence, is_left_associative, unbalanced_parentheses,
  unknown_function, nesting_too_deep, function_nesting_too_deep,
}
use metri_engine.Formula.Functions.{FunctionRegistry, is_registered}
pub mod Parenthesised

-- The local variables of `to_rpn`.
pub record Yard (F : Type 0) : Type 0 where
  pub output : List (Token F)
  pub op_stack : List (Token F)
  pub arity_stack : List ℕ
  pub paren_depth : ℕ
  pub func_depth : ℕ

-- if let Some(arity) = arity_stack.last_mut() { if *arity == 0 { *arity = 1; } }
abbrev pub touch : List ℕ → List ℕ
touch [] = []
touch (a ∷ rest) = (if nat_eq a 0 then 1 else a) ∷ rest

-- if let Some(arity) = arity_stack.last_mut() { *arity += 1; }
abbrev pub count_comma : List ℕ → List ℕ
count_comma [] = []
count_comma (a ∷ rest) = (a + 1) ∷ rest

abbrev pub should_pop : Operator → Operator → Bool
should_pop op top =
    (is_left_associative op && leb (precedence op) (precedence top))
    || (not (is_left_associative op) && ltb (precedence op) (precedence top))

abbrev is_neg : Operator → Bool
is_neg neg = true
is_neg other = false

module _ {F : Type 0} where
  -- a comma's loop: operators go out up to the parenthesis, which stays
  unfoldable pub flush_to_paren : List (Token F) → List (Token F) → List (Token F) × List (Token F)
  flush_to_paren output [] = (output, [])
  flush_to_paren output (paren_open ∷ stack) = (output, paren_open ∷ stack)
  flush_to_paren output (top ∷ stack) = flush_to_paren (output ++ (top ∷ [])) stack

  -- an operator's loop: operators that bind at least as tightly go out
  unfoldable pub pop_operators :
      Operator → List (Token F) → List (Token F) → List (Token F) × List (Token F)
  pop_operators op output (operator top ∷ stack) =
      let rest : List (Token F) × List (Token F) =
        pop_operators op (output ++ (operator top ∷ [])) stack in
      if should_pop op top then rest else (output, operator top ∷ stack)
  pop_operators op output stack = (output, stack)

  -- a closing parenthesis's loop, with whether its opening one was found
  unfoldable pub pop_to_paren :
      List (Token F) → List (Token F) → Bool × List (Token F) × List (Token F)
  pop_to_paren output [] = (false, output, [])
  pop_to_paren output (paren_open ∷ stack) = (true, output, stack)
  pop_to_paren output (top ∷ stack) = pop_to_paren (output ++ (top ∷ [])) stack

  -- the function before a parenthesis goes out with its arity; `arity_stack.pop().unwrap_or(0)`
  abbrev pub emit_function : Text → List (Token F) → List (Token F) → List ℕ → Yard F → Yard F
  emit_function name output stack [] y = record y {
    output = output ++ (function name 0 ∷ []);
    op_stack = stack;
    arity_stack = [];
    paren_depth = y.paren_depth - 1;
    func_depth = y.func_depth - 1;
  }
  emit_function name output stack (a ∷ rest) y = record y {
    output = output ++ (function name a ∷ []);
    op_stack = stack;
    arity_stack = rest;
    paren_depth = y.paren_depth - 1;
    func_depth = y.func_depth - 1;
  }

  abbrev pub close_paren :
      Bool × List (Token F) × List (Token F) → Yard F → Result FormulaError (Yard F)
  close_paren (false, output, stack) y = err (unbalanced_parentheses 0)
  close_paren (true, output, function name a ∷ stack) y =
      ok (emit_function name output stack y.arity_stack y)
  close_paren (true, output, stack) y =
      ok (record y { output = output; op_stack = stack; paren_depth = y.paren_depth - 1 })

  abbrev pub push_operator : Operator → List (Token F) × List (Token F) → Yard F → Yard F
  push_operator op (output, stack) y = record y {
    output = output;
    op_stack = operator op ∷ stack;
    arity_stack = if is_neg op then touch y.arity_stack else y.arity_stack;
  }

  abbrev pub after_comma : List (Token F) × List (Token F) → Yard F → Yard F
  after_comma (output, stack) y = record y {
    output = output;
    op_stack = stack;
    arity_stack = count_comma y.arity_stack;
  }

  abbrev pub put_out : Token F → Yard F → Yard F
  put_out token y = record y {
    output = y.output ++ (token ∷ []);
    arity_stack = touch y.arity_stack;
  }

  module _ (to_uppercase : Text → Text) (registry : FunctionRegistry F) where
    -- one round of `for token in tokens`
    unfoldable pub shunt : Token F → Yard F → Result FormulaError (Yard F)
    shunt (literal v) y = ok (put_out (literal v) y)
    shunt (variable name) y = ok (put_out (variable name) y)
    shunt (function name a) y =
        if not (is_registered to_uppercase registry name)
        then err (unknown_function name)
        else (if ltb 16 (y.func_depth + 1)
            then err (function_nesting_too_deep (y.func_depth + 1) 16)
            else ok (record y {
              op_stack = function name a ∷ y.op_stack;
              arity_stack = 0 ∷ touch y.arity_stack;
              func_depth = y.func_depth + 1;
            }))
    shunt comma y = ok (after_comma (flush_to_paren y.output y.op_stack) y)
    shunt (operator op) y = ok (push_operator op (pop_operators op y.output y.op_stack) y)
    shunt paren_open y =
        if ltb 32 (y.paren_depth + 1)
        then err (nesting_too_deep (y.paren_depth + 1) 32)
        else ok (record y {
          op_stack = paren_open ∷ y.op_stack;
          arity_stack = touch y.arity_stack;
          paren_depth = y.paren_depth + 1;
        })
    shunt paren_close y =
        if nat_eq y.paren_depth 0
        then err (unbalanced_parentheses 0)
        else close_paren (pop_to_paren y.output y.op_stack) y

    unfoldable pub shunt_all : List (Token F) → Yard F → Result FormulaError (Yard F)
    shunt_all [] y = ok y
    shunt_all (t ∷ ts) y = shunt t y >>= shunt_all ts

  -- the operators that remain
  unfoldable pub flush : List (Token F) → List (Token F) → Result FormulaError (List (Token F))
  flush output [] = ok output
  flush output (paren_open ∷ stack) = err (unbalanced_parentheses 0)
  flush output (top ∷ stack) = flush (output ++ (top ∷ [])) stack

  abbrev pub empty_yard : Yard F
  empty_yard = record {
    output = [];
    op_stack = [];
    arity_stack = [];
    paren_depth = 0;
    func_depth = 0;
  }

  unfoldable pub to_rpn :
      (Text → Text) → List (Token F) → FunctionRegistry F → Result FormulaError (List (Token F))
  to_rpn to_uppercase tokens registry =
      shunt_all to_uppercase registry tokens empty_yard >>= λ y. flush y.output y.op_stack
