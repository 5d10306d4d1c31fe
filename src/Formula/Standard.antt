-- ===== src/Formula/Standard.antt =====
-- src/aegis/formula/functions.rs, and `FunctionRegistry::standard` of functions_registry.rs: the standard
-- functions. The operations and comparisons of f64 are parameters, NaN and all.
use metri_engine.Base.{Bool, not, Option, none, some, List, [], ◌∷◌, Text, if◌then◌else◌, codes}
use metri_engine.Base.Int.{ℤ, pos, negsuc}
use metri_engine.Formula.Functions.{FormulaFunction, FunctionRegistry, register}
use metri_engine.Formula.Evaluator.{Floats}

-- What the functions call beside the operators. The code's `clamp` panics for bounds out of order or NaN;
-- the parameter stands for its other calls.
pub record Math (F : Type 0) : Type 0 where
  pub floats : Floats F
  -- the literals 0.0, 1.0, -1.0 and 10.0
  pub of_int : ℤ → F
  -- x < y, x <= y and x == y, false for NaN
  pub less : F → F → Bool
  pub at_most : F → F → Bool
  pub equal : F → F → Bool
  pub is_nan : F → Bool
  pub abs : F → F
  pub round : F → F
  pub ceil : F → F
  pub floor : F → F
  pub sqrt : F → F
  pub ln : F → F
  pub log10 : F → F
  pub max : F → F → F
  pub min : F → F → F
  pub clamp : F → F → F → F
  -- x as i32, and powi
  pub as_i32 : F → ℤ
  pub powi : F → ℤ → F

-- args.first().map(op)
abbrev on_first : {F : Type 0} → (F → F) → List F → Option F
on_first op [] = none
on_first op (x ∷ more) = some (op x)

-- args.iter().copied().reduce(op)
abbrev reduce_from : {F : Type 0} → (F → F → F) → F → List F → F
reduce_from op acc [] = acc
reduce_from op acc (x ∷ more) = reduce_from op (op acc x) more

abbrev reduce : {F : Type 0} → (F → F → F) → List F → Option F
reduce op [] = none
reduce op (x ∷ more) = some (reduce_from op x more)

module _ {F : Type 0} (math : Math F) where
  abbrev fzero : F
  fzero = math.of_int (pos 0)

  abbrev pub abs_function : FormulaFunction F
  abs_function = record { name = codes "ABS"; arity = some 1; evaluate = on_first math.abs }

  abbrev rounded : F → ℤ → F
  rounded x n =
      let factor : F = math.powi (math.of_int (pos 10)) n in
      math.floats.divided (math.round (math.floats.times x factor)) factor

  unfoldable pub round_of : List F → Option F
  round_of [] = none
  round_of (x ∷ []) = some (rounded x (math.as_i32 fzero))
  round_of (x ∷ n ∷ more) = some (rounded x (math.as_i32 n))

  abbrev pub round_function : FormulaFunction F
  round_function = record { name = codes "ROUND"; arity = none; evaluate = round_of }

  abbrev pub ceil_function : FormulaFunction F
  ceil_function = record { name = codes "CEIL"; arity = some 1; evaluate = on_first math.ceil }

  abbrev pub floor_function : FormulaFunction F
  floor_function = record { name = codes "FLOOR"; arity = some 1; evaluate = on_first math.floor }

  unfoldable pub power_of : List F → Option F
  power_of (base ∷ exponent ∷ more) = some (math.floats.powf base exponent)
  power_of few = none

  abbrev pub power_function : FormulaFunction F
  power_function = record { name = codes "POWER"; arity = some 2; evaluate = power_of }

  unfoldable pub sqrt_of : List F → Option F
  sqrt_of [] = none
  sqrt_of (x ∷ more) = if math.less x fzero then none else some (math.sqrt x)

  abbrev pub sqrt_function : FormulaFunction F
  sqrt_function = record { name = codes "SQRT"; arity = some 1; evaluate = sqrt_of }

  unfoldable pub log_of : (F → F) → List F → Option F
  log_of log [] = none
  log_of log (x ∷ more) = if math.at_most x fzero then none else some (log x)

  abbrev pub log_function : FormulaFunction F
  log_function = record { name = codes "LOG"; arity = some 1; evaluate = log_of math.ln }

  abbrev pub log10_function : FormulaFunction F
  log10_function = record { name = codes "LOG10"; arity = some 1; evaluate = log_of math.log10 }

  unfoldable pub mod_of : List F → Option F
  mod_of (x ∷ y ∷ more) = if math.equal y fzero then none else some (math.floats.remainder x y)
  mod_of few = none

  abbrev pub mod_function : FormulaFunction F
  mod_function = record { name = codes "MOD"; arity = some 2; evaluate = mod_of }

  unfoldable pub sign_of : List F → Option F
  sign_of [] = none
  sign_of (x ∷ more) = some (
      if math.is_nan x
      then math.floats.nan
      else (if math.less fzero x
          then math.of_int (pos 1)
          else (if math.less x fzero then math.of_int (negsuc 0) else fzero)))

  abbrev pub sign_function : FormulaFunction F
  sign_function = record { name = codes "SIGN"; arity = some 1; evaluate = sign_of }

  unfoldable pub nullif_of : List F → Option F
  nullif_of (x ∷ y ∷ more) = if math.equal x y then none else some x
  nullif_of few = none

  abbrev pub nullif_function : FormulaFunction F
  nullif_function = record { name = codes "NULLIF"; arity = some 2; evaluate = nullif_of }

  -- the first argument that is not NaN
  unfoldable pub coalesce_of : List F → Option F
  coalesce_of [] = none
  coalesce_of (x ∷ more) = let later = coalesce_of more in if math.is_nan x then later else some x

  abbrev pub coalesce_function : FormulaFunction F
  coalesce_function = record { name = codes "COALESCE"; arity = none; evaluate = coalesce_of }

  unfoldable pub if_of : List F → Option F
  if_of (condition ∷ then_val ∷ else_val ∷ more) =
      some (if not (math.equal condition fzero) then then_val else else_val)
  if_of few = none

  abbrev pub if_function : FormulaFunction F
  if_function = record { name = codes "IF"; arity = some 3; evaluate = if_of }

  abbrev pub greatest_function : FormulaFunction F
  greatest_function = record { name = codes "GREATEST"; arity = none; evaluate = reduce math.max }

  abbrev pub least_function : FormulaFunction F
  least_function = record { name = codes "LEAST"; arity = none; evaluate = reduce math.min }

  unfoldable pub clamp_of : List F → Option F
  clamp_of (x ∷ lo ∷ hi ∷ more) = some (math.clamp x lo hi)
  clamp_of few = none

  abbrev pub clamp_function : FormulaFunction F
  clamp_function = record { name = codes "CLAMP"; arity = some 3; evaluate = clamp_of }

  abbrev pub catalogue : List (FormulaFunction F)
  catalogue =
      abs_function ∷ round_function ∷ ceil_function ∷ floor_function ∷ power_function
      ∷ sqrt_function ∷ log_function ∷ log10_function ∷ mod_function ∷ sign_function
      ∷ nullif_function ∷ coalesce_function ∷ if_function ∷ greatest_function ∷ least_function
      ∷ clamp_function ∷ []

unfoldable pub register_all :
    {F : Type 0}
    → (Text → Text)
    → List (FormulaFunction F)
    → FunctionRegistry F
    → FunctionRegistry F
register_all to_uppercase [] reg = reg
register_all to_uppercase (func ∷ funcs) reg =
    register_all to_uppercase funcs (register to_uppercase func reg)

unfoldable pub standard : {F : Type 0} → (Text → Text) → Math F → FunctionRegistry F
standard to_uppercase math = register_all to_uppercase (catalogue math) (record { functions = [] })
