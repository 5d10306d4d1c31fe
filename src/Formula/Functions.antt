-- ===== src/Formula/Functions.antt =====
-- src/aegis/formula/functions_registry.rs: the functions by name, without regard to case. The
-- upper-case form of a text, `str::to_uppercase`, is a parameter; so are the registered functions.
use metri_engine.Base.{ℕ, Bool, true, false, Option, none, some, List, Text, get, insert, text_Eq}

-- `dyn FormulaFunction`: no arity, if it takes any number of arguments.
pub record FormulaFunction (F : Type 0) : Type 0 where
  pub name : Text
  pub arity : Option ℕ
  pub evaluate : List F → Option F

pub record FunctionRegistry (F : Type 0) : Type 0 where
  pub functions : List (Text × FormulaFunction F)

module _ {F : Type 0} (to_uppercase : Text → Text) where
  abbrev pub register : FormulaFunction F → FunctionRegistry F → FunctionRegistry F
  register func reg = record { functions = insert reg.functions (to_uppercase func.name) func }

  unfoldable pub lookup : FunctionRegistry F → Text → Option (FormulaFunction F)
  lookup reg name = get reg.functions (to_uppercase name)

  abbrev is_some : Option (FormulaFunction F) → Bool
  is_some none = false
  is_some (some f) = true

  unfoldable pub is_registered : FunctionRegistry F → Text → Bool
  is_registered reg name = is_some (lookup reg name)
