-- ===== src/Examples/Janus.antt =====
-- The conditions of boundaries at concrete inputs.
use mathlib.Core.List.{Memᴰ}
use metri_engine.Base.{
  ◌≡◌, refl, true, false, ◌&&◌, Option, none, some, List, [], ◌∷◌, Text, codes, text_eq, ok,
  if◌then◌else◌,
}
use metri_engine.Cedar.Rules.{contains}
use metri_engine.Cedar.Perimeter.{intersect_or_inherit}
use metri_engine.Janus.Abac.{
  Boundary, Node, build_abac_node, equals, within, both, scan, scan_one, start, loc_node,
  scope_node, consolidated_scope, insert_all,
}
use metri_engine.Janus.Abac.Visibility.{
  role_boundary, disjoint_unrestricted, allows, some_permits, build_abac_node_permits,
}

disjoint_unrestricted_example :
    build_abac_node
      (codes "asset")
      (role_boundary (intersect_or_inherit (codes "north" ∷ []) (codes "south" ∷ [])) ∷ [])
      none
      none
      (codes "ana")
    ≡ ok none
unfolding contains text_eq
disjoint_unrestricted_example =
    disjoint_unrestricted (codes "asset") (codes "ana") none none (codes "north") (codes "south") []
      [] only_north
  where
    only_north : (x : Text) → Memᴰ x (codes "north" ∷ []) → contains (codes "south" ∷ []) x ≡ false
    only_north x (Memᴰ.head e) = rw e refl
    only_north x (Memᴰ.tail m) = elim m [ ]

abbrev own_north : List Boundary
own_north =
    record {
      query_scope = some (codes "OWN");
      permitted_locations = some (some (codes "north") ∷ []);
    }
    ∷ []

abbrev condition : Option Node
condition = some (
    both (within (codes "asset/location_id") (codes "north" ∷ []))
      (equals (codes "asset/owner") (codes "ana")))

-- a row of ana's, in the north
abbrev row : Text → Option Text
row f = if text_eq f (codes "asset/owner") then some (codes "ana") else some (codes "north")

build_abac_node_permits_example : allows row condition ≡ (
    allows row (loc_node (codes "asset") (scan own_north start))
    && some_permits true false own_north)
unfolding build_abac_node scan scan_one text_eq loc_node scope_node consolidated_scope insert_all
    contains
build_abac_node_permits_example =
    build_abac_node_permits (codes "asset") (codes "asset/owner") (codes "asset/assignee")
      (codes "ana") own_north condition row refl refl
