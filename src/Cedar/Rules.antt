-- ===== src/Cedar/Rules.antt =====
-- src/cedar/rules.rs: system entities, tenant isolation, time windows. The configured master tenant
-- (`engine_config()`) is a parameter. Of an error the code is kept, not its message.
pub mod Isolation
use metri_engine.Base.{
  ℕ, ◌+◌, ◌*◌, Bool, true, false, not, ◌&&◌, ◌||◌, List, [], ◌∷◌, Text, codes, text_eq, nat_eq, leb,
  if◌then◌else◌, Result, ok, err,
}
use metri_engine.Errors.{ErrorCode, auth403}

unfoldable pub contains : List Text → Text → Bool
unfolding text_eq
contains [] x = false
contains (y ∷ ys) x = text_eq y x || contains ys x

abbrev pub master_only_entities : List Text
master_only_entities =
    codes "tenant"
    ∷ codes "domain_quota"
    ∷ codes "quota"
    ∷ codes "domain_plugin"
    ∷ codes "tenant_plugin"
    ∷ []

unfoldable pub is_master_only_entity : Text → Bool
unfolding contains
is_master_only_entity entity_type = contains master_only_entities entity_type

unfoldable pub is_quota_exempt : Text → Bool
unfolding contains
is_quota_exempt entity_type = contains master_only_entities entity_type

unfoldable pub is_self_service_row : Text → Text → Text → Bool
unfolding text_eq
is_self_service_row entity_type row_tenant_id caller_tenant_id =
    text_eq entity_type (codes "tenant_plugin") && text_eq row_tenant_id caller_tenant_id

unfoldable pub is_self_service_read : Text → Text → Text → Bool
unfolding text_eq
is_self_service_read entity_type row_tenant_id caller_tenant_id =
    (text_eq entity_type (codes "tenant_plugin") || text_eq entity_type (codes "domain_quota"))
    && text_eq row_tenant_id caller_tenant_id

module _ (master_tenant_id : Text) where
  unfoldable pub is_master_tenant : Text → Bool
  is_master_tenant tenant_id =
      text_eq tenant_id (codes "system")
      || (text_eq tenant_id (codes "tnt_master") || text_eq tenant_id master_tenant_id)

  unfoldable pub check_crud_authorization : Text → Text → Text → Result ErrorCode (Unit {0})
  unfolding is_master_only_entity is_master_tenant
  check_crud_authorization entity_type tenant_id user_id =
      if is_master_only_entity entity_type
      then (if not (is_master_tenant tenant_id) && not (text_eq user_id (codes "usr_system_bff"))
          then err auth403
          else ok tt)
      else ok tt

  unfoldable pub check_tenant_isolation : Text → Text → Text → Result ErrorCode (Unit {0})
  unfolding is_master_tenant
  check_tenant_isolation target_tenant_id caller_tenant_id caller_user_id =
      if not (text_eq target_tenant_id caller_tenant_id)
        && (not (is_master_tenant caller_tenant_id)
            && not (text_eq caller_user_id (codes "usr_system_bff")))
      then err auth403
      else ok tt

-- `TimeRestriction`, and an instant as its ISO weekday (Monday is 1), hour and minute
pub record TimeRestriction : Type 0 where
  pub days_of_week : List ℕ
  pub start_minute : ℕ
  pub end_minute : ℕ

pub record Instant : Type 0 where
  pub weekday : ℕ
  pub hour : ℕ
  pub minute : ℕ

unfoldable pub has_day : List ℕ → ℕ → Bool
has_day [] d = false
has_day (x ∷ xs) d = nat_eq x d || has_day xs d

unfoldable pub in_window : Instant → TimeRestriction → Bool
unfolding has_day
in_window now r =
    let minute = now.hour * 60 + now.minute in
    has_day r.days_of_week now.weekday && (leb r.start_minute minute && leb minute r.end_minute)

unfoldable pub any_window : Instant → List TimeRestriction → Bool
unfolding in_window
any_window now [] = false
any_window now (r ∷ rs) = in_window now r || any_window now rs

unfoldable pub validate_time_window : List TimeRestriction → Instant → Result ErrorCode (Unit {0})
unfolding any_window
validate_time_window [] now = ok tt
validate_time_window (r ∷ rs) now = if any_window now (r ∷ rs) then ok tt else err auth403
