-- ===== src/Cedar/Perimeter.antt =====
-- src/cedar/principal_graph.rs, `intersect_or_inherit`: the perimeter of a role within that of the
-- groups. A HashSet is a list of its elements.
use metri_engine.Base.{List, [], ◌∷◌, Text, if◌then◌else◌}
use metri_engine.Cedar.Rules.{contains}

-- role.intersection(&group)
unfoldable pub intersection : List Text → List Text → List Text
intersection [] group = []
intersection (x ∷ role) group =
    if contains group x then x ∷ intersection role group else intersection role group

unfoldable pub intersect_or_inherit : List Text → List Text → List Text
intersect_or_inherit role [] = role
intersect_or_inherit [] (g ∷ group) = g ∷ group
intersect_or_inherit (r ∷ role) (g ∷ group) = intersection (r ∷ role) (g ∷ group)
