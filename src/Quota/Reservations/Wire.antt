-- ===== src/Quota/Reservations/Wire.antt =====
-- The reservation id that the client sees, `{tenant}:{ulid}`: `wire_id` and `split_wire_id`.
use metri_engine.Base.{
  ◌≡◌, ◌≢◌, ◌↔◌, false, ◌||◌, Option, none, some, [], ◌∷◌, ◌++◌, Text, codes, Option-cases, inl,
  inr, if◌then◌else◌, arith,
}
use metri_engine.Base.Strings.{
  split_once, contains, is_empty, split_once-append, split_once-inv, is_empty-ne, ne-is_empty,
}

unfoldable pub wire_id : Text → Text → Text
wire_id tenant_id id = tenant_id ++ (codes ":" ++ id)

abbrev check_parts : Text × Text → Option (Text × Text)
check_parts (tenant, id) =
    if is_empty tenant || (is_empty id || contains b':' id) then none else some (tenant, id)

unfoldable pub split_wire_id : Text → Option (Text × Text)
unfolding split_once contains
split_wire_id wire = elim (split_once b':' wire) [ none ↦ none | some parts ↦ check_parts parts ]

-- A part of a ticket: not empty and without the separator.
abbrev pub IsPart : Text → Type 0
IsPart s = (s ≢ []) × (contains b':' s ≡ false)

check_parts-inv :
    (t i tenant id : Text)
    → contains b':' t ≡ false
    → check_parts (t, i) ≡ some (tenant, id)
    → (t ≡ tenant) × (i ≡ id) × IsPart t × IsPart i
check_parts-inv [] i tenant id none_in h = cc
check_parts-inv (c ∷ t) [] tenant id none_in h = cc
check_parts-inv (c ∷ t) (d ∷ i) tenant id none_in h =
    ground (arith, is_empty-ne (c ∷ t), is_empty-ne (d ∷ i))

split_wire_id-inv :
    (wire tenant id : Text)
    → split_wire_id wire ≡ some (tenant, id)
    → (wire ≡ wire_id tenant id) × IsPart tenant × IsPart id
unfolding split_wire_id wire_id
split_wire_id-inv wire tenant id h = elim (Option-cases (split_once b':' wire)) [
  | inl e ↦ cc (rw (e, split_wire_id) at h)
  | inr ((t, i), e) ↦
      let parts = split_once-inv b':' wire t i e in
      ground (arith, parts, check_parts-inv t i tenant id)
]

split_wire_id-wire_id :
    (tenant id : Text)
    → IsPart tenant
    → IsPart id
    → split_wire_id (wire_id tenant id) ≡ some (tenant, id)
unfolding split_wire_id wire_id
split_wire_id-wire_id tenant id t i =
    ground (arith, split_once-append b':' tenant id t.1, ne-is_empty tenant t.0, ne-is_empty id i.0)

-- A wire id splits into a tenant and an id exactly when it is `{tenant}:{id}` with both parts not
-- empty and without a colon; every other form, the four-part one of older versions included, is
-- refused.
pub split_wire_id_iff :
    (wire tenant id : Text)
    → (split_wire_id wire ≡ some (tenant, id))
      ↔ ((wire ≡ wire_id tenant id) × IsPart tenant × IsPart id)
split_wire_id_iff wire tenant id =
    (split_wire_id-inv wire tenant id, λ h. rw (h.0) (split_wire_id-wire_id tenant id h.1 h.2))
