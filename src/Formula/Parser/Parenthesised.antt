-- ===== src/Formula/Parser/Parenthesised.antt =====
-- Formulas with a pair of parentheses around every operator: what the parser and the evaluator make
-- of them is what they mean.
use mathlib.Core.List.{append_assoc, append-nil}
use metri_engine.Base.{
  ℕ, ◌+◌, ◌-◌, ◌≤◌, max, ◌≡◌, refl, ◌∙◌, ap, subst, Bool, true, false, Option, List, [], ◌∷◌, ◌++◌,
  Text, Result, ok, ◌>>=◌, if◌then◌else◌, arith, nat_eq, nat_eq_iff, ltb→lt,
}
use metri_engine.Formula.Token.{
  Operator, Token, FormulaError, add, sub, mul, div, mod_, power, neg, literal, variable, operator,
  function, paren_open, paren_close, comma,
}
use metri_engine.Formula.Functions.{FunctionRegistry}
use metri_engine.Formula.Parser.{
  Yard, touch, pop_operators, pop_to_paren, close_paren, shunt, shunt_all, flush, to_rpn,
}
use metri_engine.Formula.Evaluator.{
  Floats, value_or, apply, evaluate_operator, evaluate_token, evaluate_all, evaluate, top,
}

pub data Binary : Type 0 where
  plus minus times over modulo to_the : Binary

pub data Expr (F : Type 0) : Type 0 where
  constant : F → Expr F
  named : Text → Expr F
  negative : Expr F → Expr F
  binary : Binary → Expr F → Expr F → Expr F

abbrev pub symbol : Binary → Operator
symbol plus = add
symbol minus = sub
symbol times = mul
symbol over = div
symbol modulo = mod_
symbol to_the = power

touch-touch : (a : List ℕ) → touch (touch a) ≡ touch a
touch-touch [] = refl
touch-touch (a ∷ rest) = ground (arith, nat_eq_iff a 0, nat_eq_iff 1 0)

nat_eq-suc : (n : ℕ) → nat_eq (n + 1) 0 ≡ false
nat_eq-suc n = ground (arith, nat_eq_iff (n + 1) 0)

module _ {F : Type 0} where
  -- the tokens of an expression, before `rest`
  abbrev pub infix_form : Expr F → List (Token F) → List (Token F)
  infix_form (constant v) rest = literal v ∷ rest
  infix_form (named n) rest = variable n ∷ rest
  infix_form (negative e) rest = paren_open ∷ operator neg ∷ infix_form e (paren_close ∷ rest)
  infix_form (binary op l r) rest =
      paren_open ∷ infix_form l (operator (symbol op) ∷ infix_form r (paren_close ∷ rest))

  abbrev pub postfix_form : Expr F → List (Token F)
  postfix_form (constant v) = literal v ∷ []
  postfix_form (named n) = variable n ∷ []
  postfix_form (negative e) = postfix_form e ++ (operator neg ∷ [])
  postfix_form (binary op l r) = postfix_form l ++ (postfix_form r ++ (operator (symbol op) ∷ []))

  abbrev pub depth : Expr F → ℕ
  depth (constant v) = 0
  depth (named n) = 0
  depth (negative e) = depth e + 1
  depth (binary op l r) = max (depth l) (depth r) + 1

  abbrev yard : List (Token F) → List (Token F) → List ℕ → ℕ → ℕ → Yard F
  yard out stack arities d f = record {
    output = out;
    op_stack = stack;
    arity_stack = arities;
    paren_depth = d;
    func_depth = f;
  }

  abbrev is_call : List (Token F) → Bool
  is_call (function name a ∷ stack) = true
  is_call stack = false

  closed_yard :
      (out stack : List (Token F)) (arities : List ℕ) (d f : ℕ)
      → ◌≡◌ {A = Result FormulaError (Yard F)}
          (ok (yard out stack arities (d + 1 - 1) f))
          (ok (yard out stack arities d f))
  closed_yard out stack arities d f = ap (λ n. ok (yard out stack arities n f)) (omega arith)

  close-lem :
      (out o stack s : List (Token F)) (arities : List ℕ) (d f : ℕ)
      → is_call stack ≡ false
      → close_paren (true, out, stack) (yard o s arities (d + 1) f)
        ≡ ok (yard out stack arities d f)
  close-lem out o [] s arities d f h = closed_yard out [] arities d f
  close-lem out o (literal v ∷ stack) s arities d f h =
      closed_yard out (literal v ∷ stack) arities d f
  close-lem out o (variable v ∷ stack) s arities d f h =
      closed_yard out (variable v ∷ stack) arities d f
  close-lem out o (operator v ∷ stack) s arities d f h =
      closed_yard out (operator v ∷ stack) arities d f
  close-lem out o (function v a ∷ stack) s arities d f h = cc
  close-lem out o (paren_open ∷ stack) s arities d f h =
      closed_yard out (paren_open ∷ stack) arities d f
  close-lem out o (paren_close ∷ stack) s arities d f h =
      closed_yard out (paren_close ∷ stack) arities d f
  close-lem out o (comma ∷ stack) s arities d f h = closed_yard out (comma ∷ stack) arities d f

  module _ (to_uppercase : Text → Text) (registry : FunctionRegistry F) where
    step :
        (t : Token F) (ts : List (Token F)) (y : Yard F) {y' : Yard F}
        → shunt to_uppercase registry t y ≡ ok y'
        → shunt_all to_uppercase registry (t ∷ ts) y ≡ shunt_all to_uppercase registry ts y'
    unfolding shunt_all
    step t ts y h = ap (λ r. r >>= shunt_all to_uppercase registry ts) h

    opens :
        (out stack : List (Token F)) (arities : List ℕ) (d f : ℕ)
        → d + 1 ≤ 32
        → shunt to_uppercase registry paren_open (yard out stack arities d f)
          ≡ ok (yard out (paren_open ∷ stack) (touch arities) (d + 1) f)
    unfolding shunt
    opens out stack arities d f h = ground (arith, ltb→lt 32 (d + 1))

    closes :
        (o : Operator) (out stack : List (Token F)) (arities : List ℕ) (d f : ℕ)
        → is_call stack ≡ false
        → shunt to_uppercase registry paren_close
            (yard out (operator o ∷ paren_open ∷ stack) arities (d + 1) f)
          ≡ ok (yard (out ++ (operator o ∷ [])) stack arities d f)
    unfolding shunt pop_to_paren
    closes o out stack arities d f h = rw (nat_eq-suc d) (
        close-lem (out ++ (operator o ∷ [])) out stack (operator o ∷ paren_open ∷ stack) arities d f
          h)

    operates :
        (op : Binary) (out stack : List (Token F)) (arities : List ℕ) (d f : ℕ)
        → shunt to_uppercase registry
            (operator (symbol op))
            (yard out (paren_open ∷ stack) arities d f)
          ≡ ok (yard out (operator (symbol op) ∷ paren_open ∷ stack) arities d f)
    unfolding shunt pop_operators
    operates plus out stack arities d f = refl
    operates minus out stack arities d f = refl
    operates times out stack arities d f = refl
    operates over out stack arities d f = refl
    operates modulo out stack arities d f = refl
    operates to_the out stack arities d f = refl

    negates :
        (out stack : List (Token F)) (arities : List ℕ) (d f : ℕ)
        → shunt to_uppercase registry (operator neg) (yard out (paren_open ∷ stack) arities d f)
          ≡ ok (yard out (operator neg ∷ paren_open ∷ stack) (touch arities) d f)
    unfolding shunt pop_operators
    negates out stack arities d f = refl

    shunt_all-infix_form :
        (e : Expr F) (rest out stack : List (Token F)) (arities : List ℕ) (d f : ℕ)
        → d + depth e ≤ 32
        → is_call stack ≡ false
        → shunt_all to_uppercase registry (infix_form e rest) (yard out stack arities d f)
          ≡ shunt_all to_uppercase registry rest
              (yard (out ++ postfix_form e) stack (touch arities) d f)
    unfolding shunt_all shunt
    shunt_all-infix_form (constant v) rest out stack arities d f h g = refl
    shunt_all-infix_form (named n) rest out stack arities d f h g = refl
    shunt_all-infix_form (negative e) rest out stack arities d f h g =
        step paren_open (operator neg ∷ infix_form e (paren_close ∷ rest)) _
          (opens out stack arities d f (omega arith))
        ∙ step (operator neg) (infix_form e (paren_close ∷ rest)) _
            (negates out stack (touch arities) (d + 1) f)
        ∙ shunt_all-infix_form e (paren_close ∷ rest) out (operator neg ∷ paren_open ∷ stack) _
            (d + 1) f (omega arith) refl
        ∙ step paren_close rest _ (closes neg (out ++ postfix_form e) stack _ d f g)
        ∙ rw (append_assoc, touch-touch, touch-touch) refl
    shunt_all-infix_form (binary op l r) rest out stack arities d f h g =
        step paren_open (infix_form l (operator (symbol op) ∷ infix_form r (paren_close ∷ rest))) _
          (opens out stack arities d f (omega arith))
        ∙ shunt_all-infix_form l (operator (symbol op) ∷ infix_form r (paren_close ∷ rest)) out
            (paren_open ∷ stack) (touch arities) (d + 1) f (omega arith) refl
        ∙ step (operator (symbol op)) (infix_form r (paren_close ∷ rest)) _
            (operates op (out ++ postfix_form l) stack (touch (touch arities)) (d + 1) f)
        ∙ shunt_all-infix_form r (paren_close ∷ rest) (out ++ postfix_form l)
            (operator (symbol op) ∷ paren_open ∷ stack) (touch (touch arities)) (d + 1) f
            (omega arith) refl
        ∙ step paren_close rest _ (
            closes (symbol op) (out ++ postfix_form l ++ postfix_form r) stack
              (touch (touch (touch arities))) d f g)
        ∙ rw (append_assoc, append_assoc, touch-touch, touch-touch) refl

module _ {F : Type 0} (floats : Floats F) (to_uppercase : Text → Text) (resolve : Text → Option F)
    (registry : FunctionRegistry F) where
  -- what an operator means; a division by zero is no number
  abbrev pub denote : Binary → F → F → F
  denote plus a b = floats.plus a b
  denote minus a b = floats.minus a b
  denote times a b = floats.times a b
  denote over a b = if floats.is_zero b then floats.nan else floats.divided a b
  denote modulo a b = if floats.is_zero b then floats.nan else floats.remainder a b
  denote to_the a b = floats.powf a b

  abbrev pub value : Expr F → F
  value (constant v) = v
  value (named n) = value_or floats.nan (resolve n)
  value (negative e) = floats.negated (value e)
  value (binary op l r) = denote op (value l) (value r)

  evaluates :
      (op : Binary) (a b : F) (stack : List F)
      → evaluate_operator floats (symbol op) (b ∷ a ∷ stack) ≡ ok (denote op a b ∷ stack)
  unfolding evaluate_operator apply
  evaluates plus a b stack = refl
  evaluates minus a b stack = refl
  evaluates times a b stack = refl
  evaluates over a b stack = refl
  evaluates modulo a b stack = refl
  evaluates to_the a b stack = refl

  evaluate_all-postfix_form :
      (e : Expr F) (rest : List (Token F)) (stack : List F)
      → evaluate_all floats to_uppercase resolve registry (postfix_form e ++ rest) stack
        ≡ evaluate_all floats to_uppercase resolve registry rest (value e ∷ stack)
  unfolding evaluate_all evaluate_token evaluate_operator
  evaluate_all-postfix_form (constant v) rest stack = refl
  evaluate_all-postfix_form (named n) rest stack = refl
  evaluate_all-postfix_form (negative e) rest stack =
      rw append_assoc (evaluate_all-postfix_form e (operator neg ∷ rest) stack)
  evaluate_all-postfix_form (binary op l r) rest stack =
      rw (append_assoc, append_assoc)
        (evaluate_all-postfix_form l (postfix_form r ++ (operator (symbol op) ∷ rest)) stack
          ∙ evaluate_all-postfix_form r (operator (symbol op) ∷ rest) (value l ∷ stack)
          ∙ ap (λ s. s >>= evaluate_all floats to_uppercase resolve registry rest)
              (evaluates op (value l) (value r) stack))

  evaluate-postfix_form :
      (e : Expr F) → evaluate floats to_uppercase resolve registry (postfix_form e) ≡ ok (value e)
  unfolding evaluate evaluate_all
  evaluate-postfix_form e =
      subst (λ ts. evaluate floats to_uppercase resolve registry ts ≡ ok (value e))
        (append-nil (postfix_form e))
        (ap (λ r. r >>= top floats to_uppercase resolve registry)
          (evaluate_all-postfix_form e [] []))

  -- A formula without function calls, with parentheses around each of its operators, nested at
  -- most 32 deep, is parsed and evaluated to its value: the operators applied as the parentheses
  -- say, NaN for a variable that does not resolve and for a division or remainder by zero.
  pub evaluate-to_rpn :
      (e : Expr F)
      → depth e ≤ 32
      → (to_rpn to_uppercase (infix_form e []) registry
          >>= evaluate floats to_uppercase resolve registry)
        ≡ ok (value e)
  unfolding to_rpn flush evaluate evaluate_all shunt_all
  evaluate-to_rpn e h =
      rw (shunt_all-infix_form to_uppercase registry e [] [] [] [] 0 0 (omega arith) refl)
        (evaluate-postfix_form e)
