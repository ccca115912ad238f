-- ===== src/Memberships/Service.antt =====
-- The methods of `MembershipsService`, with those of `TenantScopedPrismaService` that they call.
-- The identifier of a new row and the time are arguments. A `$transaction` is serializable, so its
-- body runs on one state; between the steps of a method that are no transaction, the model lets no
-- other request run.
use wctm.Prelude.{
  Key, Date, Bool, not, ◌&&◌, Option, none, some, List, ◌∷◌, ◌==◌, leb, is_some, if◌then◌else◌, ok,
  err, Action, ⊤, pure, throw_if, or_throw, lift, get, transaction, ◌>>=◌, ◌>>◌,
}
use wctm.Database.Methods.{Client}
use wctm.Memberships.State.{
  Role, is_owner, same_role, Membership, User, Tenant, Context, AuditAction, membership_created,
  membership_reactivated, membership_role_updated, membership_removed, Directory, Error,
  user_not_found, membership_not_found, already_active, membership_changed, last_owner,
  unique_violation, tenant_live, is_live, assert_management_role, assert_role_assignment_allowed,
  assert_target_management_allowed,
}

-- `AuditService.record`
unfoldable pub record_audit : Context → AuditAction → Key → Action Error Directory ⊤
record_audit ctx action id s = (
  ok tt,
  record s {
    audit_log =
        record { tenant_id = ctx.tenant_id; user_id = ctx.user_id; action = action; entity_id = id }
        ∷ s.audit_log;
  },
)

-- The `where` of `findActiveMembershipById`, and of the reads in the two transactions.
abbrev pub active_by_id : List Tenant → Key → Key → Membership → Bool
active_by_id tenants tenant_id id m =
    m.id == id && m.tenant_id == tenant_id && is_live m && tenant_live tenants m.tenant_id

-- The `where` of the two guarded writes.
abbrev pub unchanged : Key → Key → Role → Membership → Bool
unchanged tenant_id id role m =
    m.id == id && m.tenant_id == tenant_id && is_live m && same_role m.role role

-- The `where` that counts the owners of a Tenant.
abbrev pub owner_in : List Tenant → Key → Membership → Bool
owner_in tenants tenant_id m =
    m.tenant_id == tenant_id && is_owner m.role && is_live m && tenant_live tenants m.tenant_id

abbrev pub by_user : Key → Key → Membership → Bool
by_user tenant_id user_id m = m.tenant_id == tenant_id && m.user_id == user_id

-- The `where` of `reactivateMembership`.
abbrev pub deleted_by_id : Key → Key → Membership → Bool
deleted_by_id tenant_id id m = m.id == id && m.tenant_id == tenant_id && is_some m.deleted_at

abbrev pub added : Role → Option Membership → AuditAction
added role none = membership_created role
added role (some m) = membership_reactivated role

module _ (db : Client Membership) where
  -- `updateMany`, whose `count` must be 1
  unfoldable pub update_one :
      (Membership → Bool) → (Membership → Membership) → Error → Action Error Directory ⊤
  update_one p f e s =
      let (rows, n) = db.update_many p f s.memberships in
      if n == 1 then (ok tt, record s { memberships = rows }) else (err e, s)

  -- `requireActiveMembership`
  unfoldable pub require_active_membership : Context → Key → Action Error Directory Membership
  require_active_membership ctx id s =
      or_throw (db.find_first (active_by_id s.tenants ctx.tenant_id id) s.memberships)
        membership_not_found s

  unfoldable pub list_memberships : Context → Action Error Directory (List Membership)
  unfolding assert_management_role
  list_memberships ctx = do
    lift (assert_management_role ctx.membership_role)
    s ← get
    pure (
        db.find_many
          (λ m. m.tenant_id == ctx.tenant_id && is_live m && tenant_live s.tenants m.tenant_id)
          s.memberships)

  unfoldable pub create_membership : Context → Key → Key → Role → Action Error Directory ⊤
  create_membership ctx id user_id role s =
      elim (db.create
        (record {
          id = id;
          tenant_id = ctx.tenant_id;
          user_id = user_id;
          role = role;
          deleted_at = none;
        })
        s.memberships) [
          | none ↦ (err unique_violation, s)
          | some rows ↦ (ok tt, record s { memberships = rows })
        ]

  -- The part of `addMembership` that writes the row, and gives its identifier.
  unfoldable pub store_membership :
      Context → Key → Key → Role → Option Membership → Action Error Directory Key
  store_membership ctx new_id user_id role none = do
    create_membership ctx new_id user_id role
    pure new_id
  store_membership ctx new_id user_id role (some m) = do
    throw_if (is_live m) already_active
    update_one (deleted_by_id ctx.tenant_id m.id) (λ r. record r { role = role; deleted_at = none })
        membership_changed
    pure m.id

  -- `assertAnotherOwnerExists`, which runs where the target is an owner that loses the role
  unfoldable pub assert_another_owner_exists : Bool → Context → Action Error Directory ⊤
  assert_another_owner_exists loses_owner ctx s =
      throw_if (loses_owner && leb (db.count (owner_in s.tenants ctx.tenant_id) s.memberships) 1)
        last_owner s

  unfoldable pub write_role :
      Context → Key → Role → Membership → Action Error Directory (Option Role)
  write_role ctx id role membership =
      if same_role membership.role role
      then pure none
      else (update_one (unchanged ctx.tenant_id id membership.role) (λ m. record m { role = role })
            membership_changed
          >> pure (some membership.role))

  -- The body of the transaction of `updateMembershipRole`: the role before, or `null` if the
  -- membership has the role already.
  unfoldable pub change_role : Context → Role → Key → Role → Action Error Directory (Option Role)
  change_role ctx actor_role id role = do
    s ← get
    membership ←
        or_throw (db.find_first (active_by_id s.tenants ctx.tenant_id id) s.memberships)
          membership_not_found
    lift (assert_target_management_allowed actor_role membership.role (some role))
    assert_another_owner_exists (is_owner membership.role && not (is_owner role)) ctx
    write_role ctx id role membership

  unfoldable pub audit_role_change : Context → Key → Role → Option Role → Action Error Directory ⊤
  audit_role_change ctx id role none = pure tt
  audit_role_change ctx id role (some previous) =
      record_audit ctx (membership_role_updated previous role) id

  unfoldable pub update_membership_role : Context → Key → Role → Action Error Directory Membership
  update_membership_role ctx id role = do
    actor_role ← lift (assert_management_role ctx.membership_role)
    previous_role ← transaction (change_role ctx actor_role id role)
    audit_role_change ctx id role previous_role
    require_active_membership ctx id

  -- The body of the transaction of `removeMembership`.
  unfoldable pub delete_membership : Context → Role → Key → Date → Action Error Directory Role
  delete_membership ctx actor_role id now = do
    s ← get
    membership ←
        or_throw (db.find_first (active_by_id s.tenants ctx.tenant_id id) s.memberships)
          membership_not_found
    lift (assert_target_management_allowed actor_role membership.role none)
    assert_another_owner_exists (is_owner membership.role) ctx
    update_one (unchanged ctx.tenant_id id membership.role)
        (λ m. record m { deleted_at = some now }) membership_changed
    pure membership.role

  unfoldable pub remove_membership : Context → Key → Date → Action Error Directory ⊤
  remove_membership ctx id now = do
    actor_role ← lift (assert_management_role ctx.membership_role)
    removed_role ← transaction (delete_membership ctx actor_role id now)
    record_audit ctx (membership_removed removed_role) id

module _ (users : Client User) (db : Client Membership) where
  unfoldable pub add_membership : Context → Key → Key → Role → Action Error Directory Membership
  add_membership ctx new_id user_id role = do
    actor_role ← lift (assert_management_role ctx.membership_role)
    lift (assert_role_assignment_allowed actor_role role)
    s ← get
    user ← or_throw (users.find_first (λ u. u.id == user_id) s.users) user_not_found
    let existing = db.find_first (by_user ctx.tenant_id user_id) s.memberships
    id ← store_membership db ctx new_id user_id role existing
    membership ← require_active_membership db ctx id
    record_audit ctx (added role existing) id
    pure membership
