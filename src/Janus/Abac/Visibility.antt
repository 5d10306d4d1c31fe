-- ===== src/Janus/Abac/Visibility.antt =====
-- Which rows the condition lets a principal see.
use mathlib.Core.List.{Memᴰ}
use metri_engine.Base.{
  ◌≡◌, refl, sym, ◌∙◌, ap, ◌⊎◌, inl, inr, Bool, true, false, ◌&&◌, ◌||◌, Option, none, some, List,
  [], ◌∷◌, map, Text, codes, text_eq, text_eq_iff, Result, ok, nat_eq, if◌then◌else◌, arith,
  Bool-cases,
}
use metri_engine.Errors.{ErrorCode}
use metri_engine.Cedar.Rules.{contains}
use metri_engine.Cedar.Perimeter.{intersection, intersect_or_inherit}
use metri_engine.Janus.Abac.{
  Boundary, Node, Scan, start, scope_of, scan_one, scan, with_scope, with_locations,
  consolidated_scope, loc_node, scope_node, joined, build_abac_node, all, own, assigned,
  own_or_assigned, equals, within, both, either,
}

disjoint-intersection :
    (role group : List Text)
    → ((x : Text) → Memᴰ x role → contains group x ≡ false)
    → intersection role group ≡ []
unfolding intersection
disjoint-intersection [] group h = refl
disjoint-intersection (x ∷ role) group h =
    rw (h x (Memᴰ.head refl)) (disjoint-intersection role group (λ y m. h y (Memᴰ.tail m)))

-- the boundary of a role whose scope is ALL
abbrev pub role_boundary : List Text → Boundary
role_boundary locations = record {
  query_scope = some (codes "ALL");
  permitted_locations = some (map some locations);
}

-- A role of scope ALL and a group, with perimeters that are not empty and have no location in
-- common, give no condition at all: their principal sees the rows of every location.
pub disjoint_unrestricted :
    (entity user : Text) (owner assignee : Option Text) (r g : Text) (role group : List Text)
    → ((x : Text) → Memᴰ x (r ∷ role) → contains (g ∷ group) x ≡ false)
    → build_abac_node entity
        (role_boundary (intersect_or_inherit (r ∷ role) (g ∷ group)) ∷ [])
        owner
        assignee
        user
      ≡ ok none
unfolding build_abac_node scan scan_one intersect_or_inherit consolidated_scope loc_node scope_node
    text_eq
disjoint_unrestricted entity user owner assignee r g role group h =
    rw (disjoint-intersection (r ∷ role) (g ∷ group) h) refl

-- A condition on a row: the values of its attributes.
abbrev is_value : Option Text → Text → Bool
is_value none v = false
is_value (some w) v = text_eq w v

abbrev is_among : Option Text → List Text → Bool
is_among none vs = false
is_among (some w) vs = contains vs w

abbrev pub holds : (Text → Option Text) → Node → Bool
holds row (equals f v) = is_value (row f) v
holds row (within f vs) = is_among (row f) vs
holds row (both m n) = holds row m && holds row n
holds row (either m n) = holds row m || holds row n

abbrev pub allows : (Text → Option Text) → Option Node → Bool
allows row none = true
allows row (some n) = holds row n

-- The scopes that there are.
abbrev pub IsKnown : Boundary → Type 0
IsKnown b =
    (scope_of b.query_scope ≡ codes "NONE")
    ⊎ (scope_of b.query_scope ≡ codes "ALL")
    ⊎ (scope_of b.query_scope ≡ codes "OWN")
    ⊎ (scope_of b.query_scope ≡ codes "ASSIGNED")
    ⊎ (scope_of b.query_scope ≡ codes "OWN_OR_ASSIGNED")

abbrev pub AllKnown : List Boundary → Type 0
AllKnown [] = Unit {0}
AllKnown (b ∷ bs) = IsKnown b × AllKnown bs

-- what one boundary lets through, of a row that is the user's own or assigned to the user
abbrev pub permits : Bool → Bool → Boundary → Bool
permits mine given b =
    text_eq (scope_of b.query_scope) (codes "ALL")
    || ((text_eq (scope_of b.query_scope) (codes "OWN") && mine)
        || ((text_eq (scope_of b.query_scope) (codes "ASSIGNED") && given)
            || (text_eq (scope_of b.query_scope) (codes "OWN_OR_ASSIGNED") && (mine || given))))

abbrev pub some_permits : Bool → Bool → List Boundary → Bool
some_permits mine given [] = false
some_permits mine given (b ∷ bs) = permits mine given b || some_permits mine given bs

-- the same of what the loop has noted
abbrev noted : Bool → Bool → Scan → Bool
noted mine given s =
    s.has_all
    || ((s.has_own && mine)
        || ((s.has_assigned && given) || (s.has_own_or_assigned && (mine || given))))

noted_locations :
    (mine given : Bool) (l : Option (List (Option Text))) (s : Scan)
    → noted mine given (with_locations l s) ≡ noted mine given s
noted_locations mine given none s = refl
noted_locations mine given (some []) s = refl
noted_locations mine given (some (x ∷ xs)) s = refl

-- a scope adds what it lets through to what was noted
scope_step :
    (mine given : Bool) (scope : Text) (s : Scan)
    → noted mine given (with_scope scope s) ≡ (
        (text_eq scope (codes "ALL")
          || ((text_eq scope (codes "OWN") && mine)
              || ((text_eq scope (codes "ASSIGNED") && given)
                  || (text_eq scope (codes "OWN_OR_ASSIGNED") && (mine || given)))))
        || noted mine given s)
scope_step mine given scope s =
    shuffle (text_eq scope (codes "ALL")) (text_eq scope (codes "OWN"))
      (text_eq scope (codes "ASSIGNED")) (text_eq scope (codes "OWN_OR_ASSIGNED")) s.has_all
      s.has_own s.has_assigned s.has_own_or_assigned
  where
    shuffle :
        (a o g b a' o' g' b' : Bool)
        → ((a || a')
            || (((o || o') && mine) || (((g || g') && given) || ((b || b') && (mine || given)))))
          ≡ ((a || ((o && mine) || ((g && given) || (b && (mine || given)))))
              || (a' || ((o' && mine) || ((g' && given) || (b' && (mine || given))))))
    shuffle a o g b a' o' g' b' = ground arith

noted-step :
    (mine given : Bool) (b : Boundary) (s : Scan)
    → noted mine given (scan_one b s) ≡ (permits mine given b || noted mine given s)
unfolding scan_one text_eq
noted-step mine given b s = elim (Bool-cases (text_eq (scope_of b.query_scope) (codes "NONE"))) [
  | inl e ↦ rw (e, (text_eq_iff (scope_of b.query_scope) (codes "NONE")).0 e) refl
  | inr e ↦ rw e (
      noted_locations mine given b.permitted_locations (with_scope (scope_of b.query_scope) s)
      ∙ scope_step mine given (scope_of b.query_scope) s)
]

swap : (x p y : Bool) → (x || (p || y)) ≡ ((p || x) || y)
swap x p y = ground arith

noted-scan :
    (mine given : Bool) (bs : List Boundary) (s : Scan)
    → noted mine given (scan bs s) ≡ (some_permits mine given bs || noted mine given s)
unfolding scan
noted-scan mine given [] s = refl
noted-scan mine given (b ∷ bs) s =
    noted-scan mine given bs (scan_one b s)
    ∙ ap (λ x. some_permits mine given bs || x) (noted-step mine given b s)
    ∙ swap (some_permits mine given bs) (permits mine given b) (noted mine given s)

allows-joined :
    (row : Text → Option Text) (l n : Option Node)
    → allows row (joined l n) ≡ (allows row l && allows row n)
allows-joined row (some l) (some n) = refl
allows-joined row (some l) none = ground arith
allows-joined row none n = refl

-- the condition of the consolidated scope, when some scope was noted
allows-scope_node :
    (row : Text → Option Text) (o a user : Text) (s : Scan)
    → noted true true s ≡ true
    → allows row (scope_node (consolidated_scope s) (some o) (some a) user)
      ≡ noted (is_value (row o) user) (is_value (row a) user) s
unfolding scope_node consolidated_scope
allows-scope_node row o a user s h =
    by_flags s.has_all s.has_own s.has_assigned s.has_own_or_assigned h
  where
    by_flags :
        (al ow as_ oa : Bool)
        → (al || ((ow && true) || ((as_ && true) || (oa && true)))) ≡ true
        → allows row (
            scope_node
              (if al
                then all
                else (if oa || (ow && as_)
                    then own_or_assigned
                    else (if ow then own else assigned)))
              (some o)
              (some a)
              user)
          ≡ (al
              || ((ow && is_value (row o) user)
                  || ((as_ && is_value (row a) user)
                      || (oa && (is_value (row o) user || is_value (row a) user)))))
    by_flags true ow as_ oa k = refl
    by_flags false true true oa k = ground arith
    by_flags false true false true k = ground arith
    by_flags false true false false k = ground arith
    by_flags false false true true k = ground arith
    by_flags false false true false k = ground arith
    by_flags false false false true k = ground arith
    by_flags false false false false k = cc

-- With an owner's and an assignee's attribute, and a boundary of some known scope, the condition that is
-- built lets a row through if and only if the condition on its location does, and one of the boundaries
-- lets it through: ALL any row, OWN a row that is the user's own, ASSIGNED one that is assigned to the
-- user, OWN_OR_ASSIGNED one that is either.
pub build_abac_node_permits :
    (entity o a user : Text) (bs : List Boundary) (n : Option Node) (row : Text → Option Text)
    → some_permits true true bs ≡ true
    → build_abac_node entity bs (some o) (some a) user ≡ ok n
    → allows row n ≡ (
        allows row (loc_node entity (scan bs start))
        && some_permits (is_value (row o) user) (is_value (row a) user) bs)
unfolding build_abac_node
build_abac_node_permits entity o a user bs n row some_scope built =
    elim (Bool-cases (nat_eq (scan bs start).valid_scopes_count 0)) [
      | inl e ↦ cc (rw (e, build_abac_node) at built)
      | inr e ↦
          ap (allows row) (sym (inner (rw (e, build_abac_node) at built)))
          ∙ allows-joined row (loc_node entity (scan bs start)) _
          ∙ ap (λ x. allows row (loc_node entity (scan bs start)) && x)
              (allows-scope_node row o a user (scan bs start) (
                  noted-scan true true bs start ∙ or_false (some_permits true true bs) ∙ some_scope)
                ∙ noted-scan (is_value (row o) user) (is_value (row a) user) bs start
                ∙ or_false (some_permits (is_value (row o) user) (is_value (row a) user) bs))
    ]
  where
    or_false : (x : Bool) → (x || false) ≡ x
    or_false true = refl
    or_false false = refl

    inner : {m : Option Node} → ◌≡◌ {A = Result ErrorCode (Option Node)} (ok m) (ok n) → m ≡ n
    inner h = cc
