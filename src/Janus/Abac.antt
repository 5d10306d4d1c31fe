-- ===== src/Janus/Abac.antt =====
-- src/janus/abac_clauses.rs, `build_abac_node`. A boundary is here what the function reads of its JSON:
-- the scope, if it is a string, and the locations, if they are an array, with no text for an element
-- that is no string. The set of locations is a list, in the order in which they were met.
use metri_engine.Base.{
  ℕ, suc, ◌+◌, Bool, true, false, not, ◌&&◌, ◌||◌, Option, none, some, List, [], ◌∷◌, ◌++◌, Text,
  codes, text_eq, Result, ok, err, nat_eq, if◌then◌else◌,
}
use metri_engine.Errors.{ErrorCode, janus403}
use metri_engine.Cedar.Rules.{contains}
pub mod Visibility

pub record Boundary : Type 0 where
  pub query_scope : Option Text
  pub permitted_locations : Option (List (Option Text))

-- The JSON of a condition.
pub data Node : Type 0 where
  equals : Text → Text → Node
  within : Text → List Text → Node
  both either : Node → Node → Node

-- The local variables of the loop.
pub record Scan : Type 0 where
  pub has_all : Bool
  pub has_own : Bool
  pub has_assigned : Bool
  pub has_own_or_assigned : Bool
  pub valid_scopes_count : ℕ
  pub all_permitted_locations : List Text
  pub location_restricted : Bool

abbrev pub start : Scan
start = record {
  has_all = false;
  has_own = false;
  has_assigned = false;
  has_own_or_assigned = false;
  valid_scopes_count = 0;
  all_permitted_locations = [];
  location_restricted = true;
}

abbrev pub scope_of : Option Text → Text
scope_of none = codes "NONE"
scope_of (some scope) = scope

abbrev add : Text → List Text → List Text
add x xs = if contains xs x then xs else x ∷ xs

unfoldable pub insert_all : List (Option Text) → List Text → List Text
insert_all [] set = set
insert_all (none ∷ locs) set = insert_all locs set
insert_all (some loc ∷ locs) set = insert_all locs (add loc set)

abbrev pub with_locations : Option (List (Option Text)) → Scan → Scan
with_locations none s = record s { location_restricted = false }
with_locations (some []) s = record s { location_restricted = false }
with_locations (some (loc ∷ locs)) s = record s {
  all_permitted_locations = insert_all (loc ∷ locs) s.all_permitted_locations;
}

abbrev pub with_scope : Text → Scan → Scan
with_scope scope s = record s {
  has_all = text_eq scope (codes "ALL") || s.has_all;
  has_own = text_eq scope (codes "OWN") || s.has_own;
  has_assigned = text_eq scope (codes "ASSIGNED") || s.has_assigned;
  has_own_or_assigned = text_eq scope (codes "OWN_OR_ASSIGNED") || s.has_own_or_assigned;
  valid_scopes_count = s.valid_scopes_count + 1;
}

unfoldable pub scan_one : Boundary → Scan → Scan
scan_one b s =
    if text_eq (scope_of b.query_scope) (codes "NONE")
    then s
    else with_locations b.permitted_locations (with_scope (scope_of b.query_scope) s)

unfoldable pub scan : List Boundary → Scan → Scan
scan [] s = s
scan (b ∷ boundaries) s = scan boundaries (scan_one b s)

pub data Scope : Type 0 where
  all own assigned own_or_assigned : Scope

unfoldable pub consolidated_scope : Scan → Scope
consolidated_scope s =
    if s.has_all
    then all
    else (if s.has_own_or_assigned || (s.has_own && s.has_assigned)
        then own_or_assigned
        else (if s.has_own then own else assigned))

abbrev is_empty : List Text → Bool
is_empty [] = true
is_empty (x ∷ xs) = false

unfoldable pub loc_node : Text → Scan → Option Node
loc_node entity s =
    if s.location_restricted && not (is_empty s.all_permitted_locations)
    then some (within (entity ++ codes "/location_id") s.all_permitted_locations)
    else none

abbrev field_node : Option Text → Text → Option Node
field_node none user_id = none
field_node (some field) user_id = some (equals field user_id)

unfoldable pub scope_node : Scope → Option Text → Option Text → Text → Option Node
scope_node all owner assignee user_id = none
scope_node own owner assignee user_id = field_node owner user_id
scope_node assigned owner assignee user_id = field_node assignee user_id
scope_node own_or_assigned (some o) (some a) user_id =
    some (either (equals o user_id) (equals a user_id))
scope_node own_or_assigned (some o) none user_id = some (equals o user_id)
scope_node own_or_assigned none (some a) user_id = some (equals a user_id)
scope_node own_or_assigned none none user_id = none

abbrev pub joined : Option Node → Option Node → Option Node
joined (some loc) (some scope) = some (both loc scope)
joined (some loc) none = some loc
joined none scope = scope

unfoldable pub build_abac_node :
    Text → List Boundary → Option Text → Option Text → Text → Result ErrorCode (Option Node)
build_abac_node entity boundaries owner_field assignee_field user_id =
    let s = scan boundaries start in
    if nat_eq s.valid_scopes_count 0
    then err janus403
    else ok (
        joined (loc_node entity s)
          (scope_node (consolidated_scope s) owner_field assignee_field user_id))
