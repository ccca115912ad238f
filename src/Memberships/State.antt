-- ===== src/Memberships/State.antt =====
-- The data that `MembershipsService` works on: the rows, the request's context, the requests, the
-- errors, and the checks of the actor's role.
use wctm.Prelude.{
  Key, Date, Bool, true, false, not, ◌&&◌, ◌||◌, Option, none, some, List, [], ◌∷◌, ◌==◌, is_some,
  if◌then◌else◌, Result, ok, err, ⊤,
}

pub data Role : Type 0 where
  owner admin member : Role

abbrev pub is_owner : Role → Bool
is_owner owner = true
is_owner admin = false
is_owner member = false

abbrev pub is_admin : Role → Bool
is_admin owner = false
is_admin admin = true
is_admin member = false

-- `===` on roles
abbrev pub same_role : Role → Role → Bool
same_role owner r = is_owner r
same_role admin r = is_admin r
same_role member r = not (is_owner r || is_admin r)

pub record Membership : Type 0 where
  pub id : Key
  pub tenant_id : Key
  pub user_id : Key
  pub role : Role
  pub deleted_at : Option Date

pub record User : Type 0 where
  pub id : Key

pub record Tenant : Type 0 where
  pub id : Key
  pub deleted_at : Option Date

-- `TenantContextService.active`
pub record Context : Type 0 where
  pub tenant_id : Key
  pub user_id : Key
  pub membership_role : Role

pub data AuditAction : Type 0 where
  membership_created membership_reactivated : Role → AuditAction
  membership_role_updated : Role → Role → AuditAction
  membership_removed : Role → AuditAction

pub record AuditEntry : Type 0 where
  pub tenant_id : Key
  pub user_id : Key
  pub action : AuditAction
  pub entity_id : Key

pub record Directory : Type 0 where
  pub users : List User
  pub tenants : List Tenant
  pub memberships : List Membership
  pub audit_log : List AuditEntry

pub data Error : Type 0 where
  management_forbidden owner_role_forbidden owner_target_forbidden : Error
  user_not_found membership_not_found : Error
  already_active membership_changed last_owner : Error
  unique_violation : Error

-- `tenant: { deletedAt: null }`, a filter on the row that the key `tenant_id` refers to
abbrev pub tenant_live : List Tenant → Key → Bool
tenant_live [] id = false
tenant_live (t ∷ ts) id = t.id == id && not (is_some t.deleted_at) || tenant_live ts id

abbrev pub is_live : Membership → Bool
is_live m = not (is_some m.deleted_at)

-- `assertManagementRole`
unfoldable pub assert_management_role : Role → Result Error Role
assert_management_role owner = ok owner
assert_management_role admin = ok admin
assert_management_role member = err management_forbidden

-- `assertRoleAssignmentAllowed`
unfoldable pub assert_role_assignment_allowed : Role → Role → Result Error ⊤
assert_role_assignment_allowed actor assigned =
    if is_admin actor && is_owner assigned then err owner_role_forbidden else ok tt

abbrev assigns_owner : Option Role → Bool
assigns_owner none = false
assigns_owner (some r) = is_owner r

-- `assertTargetManagementAllowed`
unfoldable pub assert_target_management_allowed : Role → Role → Option Role → Result Error ⊤
assert_target_management_allowed actor target assigned =
    if is_admin actor && (is_owner target || assigns_owner assigned)
    then err owner_target_forbidden
    else ok tt
