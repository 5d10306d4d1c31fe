-- ===== src/Formula/Resolver.antt =====
-- src/aegis/formula/resolver.rs: the values of a formula's variables. A row is a JSON object; the reading
-- of a JSON value as a float, `as_f64`, is a parameter.
use metri_engine.Base.{
  ℕ, ◌≡◌, refl, true, false, Option, none, some, List, [], ◌∷◌, ◌++◌, Text, arith, if◌then◌else◌,
  nat_eq, text_eq, text_Eq, codes, get,
}
use metri_engine.Base.Strings.{contains}

-- s.split(c).next_back()
unfoldable pub last_part : ℕ → Text → Text
last_part sep [] = []
last_part sep (c ∷ cs) =
    let rest = last_part sep cs in
    if contains sep cs then rest else (if nat_eq c sep then cs else c ∷ cs)

-- s.replace(from, to), for characters of one byte
unfoldable pub replace : ℕ → ℕ → Text → Text
replace from to [] = []
replace from to (c ∷ cs) = (if nat_eq c from then to else c) ∷ replace from to cs

-- OltpVariableResolver: the name as it stands, or without its namespace
module _ {V F : Type 0} (as_f64 : V → Option F) where
  abbrev value_of : Option V → Option V → Option F
  value_of (some v) bare = as_f64 v
  value_of none (some v) = as_f64 v
  value_of none none = none

  unfoldable pub resolve : List (Text × V) → Text → Option F
  resolve row var_name = value_of (get row var_name) (get row (last_part b'/' var_name))

-- system_attrs::TENANT_NAME
abbrev tenant_name : Text
tenant_name = codes "tenant/id"

-- OlapVariableResolver
unfoldable pub resolve_to_sql_column : Text → Text
resolve_to_sql_column var_name =
    if text_eq var_name tenant_name
    then codes "_tenant"
    else replace b'-' b'_' (last_part b'/' var_name)

last_part_bare : (sep : ℕ) (name : Text) → contains sep name ≡ false → last_part sep name ≡ name
unfolding last_part contains
last_part_bare sep [] h = refl
last_part_bare sep (c ∷ cs) h = ground arith

contains-append : (sep : ℕ) (ns name : Text) → contains sep (ns ++ (sep ∷ name)) ≡ true
unfolding contains
contains-append sep [] name = ground arith
contains-append sep (c ∷ ns) name = ground (arith, contains-append sep ns name)

-- A name behind its namespace is what is left of them.
pub last_part-append :
    (sep : ℕ) (ns name : Text)
    → contains sep name ≡ false
    → last_part sep (ns ++ (sep ∷ name)) ≡ name
unfolding last_part
last_part-append sep [] name h = ground arith
last_part-append sep (c ∷ ns) name h =
    rw (contains-append sep ns name) (last_part-append sep ns name h)
