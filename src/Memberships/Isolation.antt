-- ===== src/Memberships/Isolation.antt =====
-- Which memberships a request leaves as they were: those of the other Tenants, and, where an
-- administrator asks, those of the owners.
use wctm.Prelude.{
  Key, Date, ◌≡◌, refl, Bool, true, false, not, ◌&&◌, Option, none, some, List, arith, ◌==◌, ok,
  err, Option-cases, inl, inr,
}
use wctm.Database.Methods.{Client}
use wctm.Database.Rows.{filter_where, filter_where-map_where}
use wctm.Memberships.State.{
  assert_management_role, assert_role_assignment_allowed, assert_target_management_allowed,
  membership_changed, Role, owner, admin, member, is_owner, is_live, Membership, User, Context,
  Directory, Error, management_forbidden,
}
use wctm.Memberships.Service.{
  list_memberships, update_membership_role, audit_role_change, record_audit,
  require_active_membership, remove_membership, store_membership, create_membership, deleted_by_id,
  by_user, add_membership, active_by_id, unchanged, update_one, write_role, change_role,
  delete_membership,
}
use wctm.Memberships.Owners.{Request, serve, allowed_cases, guard_cases}

-- `q` names the rows that are to stay.
abbrev kept : (Membership → Bool) → Directory → List Membership
kept q s = filter_where q s.memberships

abbrev pub live_owner : Membership → Bool
live_owner m = is_owner m.role && is_live m

module _ (db : Client Membership) (q : Membership → Bool) where
  kept-update_one :
      (p : Membership → Bool) (f : Membership → Membership) (e : Error) (s : Directory)
      → ((m : Membership) → p m ≡ true → (q m ≡ false) × (q (f m) ≡ false))
      → kept q (update_one db p f e s).1 ≡ kept q s
  unfolding update_one
  kept-update_one p f e s h = ground (
    arith,
    db.update_many_rows p f s.memberships,
    filter_where-map_where q p f s.memberships (λ m u. (h m u).0) (λ m u. (h m u).1),
  )

  kept-create_membership :
      (ctx : Context) (id user_id : Key) (role : Role) (s : Directory)
      → q (record {
        id = id;
        tenant_id = ctx.tenant_id;
        user_id = user_id;
        role = role;
        deleted_at = none;
      })
        ≡ false
      → kept q (create_membership db ctx id user_id role s).1 ≡ kept q s
  unfolding create_membership filter_where
  kept-create_membership ctx id user_id role s h =
      let row : Membership = record {
        id = id;
        tenant_id = ctx.tenant_id;
        user_id = user_id;
        role = role;
        deleted_at = none;
      } in
      elim (Option-cases (db.create row s.memberships)) [
        | inl e ↦ rw (e, create_membership)
        | inr (ts, e) ↦ rw (e, create_membership) (rw (db.created row s.memberships ts e) (rw h))
      ]

  kept-write_role :
      (ctx : Context) (id : Key) (role : Role) (m : Membership) (s : Directory)
      → ((r : Membership)
          → unchanged ctx.tenant_id id m.role r ≡ true
          → (q r ≡ false) × (q (record r { role = role }) ≡ false))
      → kept q (write_role db ctx id role m s).1 ≡ kept q s
  unfolding write_role
  kept-write_role ctx id role m s h = ground (
    arith,
    kept-update_one (unchanged ctx.tenant_id id m.role) (λ r. record r { role = role })
        membership_changed s h,
  )

  kept-change_role :
      (ctx : Context) (actor : Role) (id : Key) (role : Role) (s : Directory)
      → ((m r : Membership)
          → assert_target_management_allowed actor m.role (some role) ≡ ok tt
          → unchanged ctx.tenant_id id m.role r ≡ true
          → (q r ≡ false) × (q (record r { role = role }) ≡ false))
      → kept q (change_role db ctx actor id role s).1 ≡ kept q s
  unfolding change_role
  kept-change_role ctx actor id role s h =
      elim (Option-cases (db.find_first (active_by_id s.tenants ctx.tenant_id id) s.memberships)) [
        | inl e ↦ ground arith
        | inr (m, e) ↦ rw e (elim (allowed_cases actor m.role (some role)) [
          | inl refused ↦ rw refused
          | inr allowed ↦
              rw allowed (elim (guard_cases db (is_owner m.role && not (is_owner role)) ctx s) [
                | inl blocked ↦ rw blocked
                | inr (free, many) ↦
                    rw free (kept-write_role ctx id role m s (λ r u. h m r allowed u))
              ])
        ])
      ]

  kept-delete_membership :
      (ctx : Context) (actor : Role) (id : Key) (now : Date) (s : Directory)
      → ((m r : Membership)
          → assert_target_management_allowed actor m.role none ≡ ok tt
          → unchanged ctx.tenant_id id m.role r ≡ true
          → (q r ≡ false) × (q (record r { deleted_at = some now }) ≡ false))
      → kept q (delete_membership db ctx actor id now s).1 ≡ kept q s
  unfolding delete_membership
  kept-delete_membership ctx actor id now s h =
      elim (Option-cases (db.find_first (active_by_id s.tenants ctx.tenant_id id) s.memberships)) [
        | inl e ↦ ground arith
        | inr (m, e) ↦ rw e (elim (allowed_cases actor m.role none) [
          | inl refused ↦ rw refused
          | inr allowed ↦ rw allowed (elim (guard_cases db (is_owner m.role) ctx s) [
            | inl blocked ↦ rw blocked
            | inr (free, many) ↦ rw free (
                ground (
                  arith,
                  kept-update_one (unchanged ctx.tenant_id id m.role)
                      (λ r. record r { deleted_at = some now }) membership_changed s
                      (λ r u. h m r allowed u),
                ))
          ])
        ])
      ]

  kept-store_membership :
      (ctx : Context) (new_id user_id : Key) (role : Role) (o : Option Membership) (s : Directory)
      → ((r : Membership)
          → deleted_by_id ctx.tenant_id r.id r ≡ true
          → (q r ≡ false) × (q (record r { role = role; deleted_at = none }) ≡ false))
      → q (record {
        id = new_id;
        tenant_id = ctx.tenant_id;
        user_id = user_id;
        role = role;
        deleted_at = none;
      })
        ≡ false
      → kept q (store_membership db ctx new_id user_id role o s).1 ≡ kept q s
  unfolding store_membership
  kept-store_membership ctx new_id user_id role none s h g =
      ground (arith, kept-create_membership ctx new_id user_id role s g)
  kept-store_membership ctx new_id user_id role (some m) s h g = ground (
    arith,
    kept-update_one (deleted_by_id ctx.tenant_id m.id)
        (λ r. record r { role = role; deleted_at = none }) membership_changed s
        (λ r u. h r (ground arith)),
  )

  kept-update_membership_role :
      (ctx : Context) (id : Key) (role : Role) (s : Directory)
      → ((m r : Membership)
          → assert_target_management_allowed ctx.membership_role m.role (some role) ≡ ok tt
          → unchanged ctx.tenant_id id m.role r ≡ true
          → (q r ≡ false) × (q (record r { role = role }) ≡ false))
      → kept q (update_membership_role db ctx id role s).1 ≡ kept q s
  unfolding update_membership_role audit_role_change record_audit require_active_membership
      assert_management_role
  kept-update_membership_role ctx id role s h =
      ground (arith, kept-change_role ctx ctx.membership_role id role s h)

  kept-remove_membership :
      (ctx : Context) (id : Key) (now : Date) (s : Directory)
      → ((m r : Membership)
          → assert_target_management_allowed ctx.membership_role m.role none ≡ ok tt
          → unchanged ctx.tenant_id id m.role r ≡ true
          → (q r ≡ false) × (q (record r { deleted_at = some now }) ≡ false))
      → kept q (remove_membership db ctx id now s).1 ≡ kept q s
  unfolding remove_membership record_audit assert_management_role
  kept-remove_membership ctx id now s h =
      ground (arith, kept-delete_membership ctx ctx.membership_role id now s h)

module _ (users : Client User) (db : Client Membership) where
  kept-add_membership :
      (q : Membership → Bool) (ctx : Context) (new_id user_id : Key) (role : Role) (s : Directory)
      → (assert_role_assignment_allowed ctx.membership_role role ≡ ok tt
          → (r : Membership) → r.tenant_id ≡ ctx.tenant_id
          → (is_live r ≡ false → q r ≡ false) × (r.role ≡ role → q r ≡ false))
      → kept q (add_membership users db ctx new_id user_id role s).1 ≡ kept q s
  unfolding add_membership record_audit require_active_membership assert_management_role
  kept-add_membership q ctx new_id user_id role s h =
      elim (Option-cases (users.find_first (λ u. u.id == user_id) s.users)) [
        | inl e ↦ ground arith
        | inr (u, e) ↦ ground (arith, store)
      ]
    where
      store :
          assert_role_assignment_allowed ctx.membership_role role ≡ ok tt
          → kept q
              (store_membership db ctx new_id user_id role
                (db.find_first (by_user ctx.tenant_id user_id) s.memberships)
                s).1
            ≡ kept q s
      store a =
          kept-store_membership db q ctx new_id user_id role
            (db.find_first (by_user ctx.tenant_id user_id) s.memberships) s
            (λ r d. (
              (h a r (ground arith)).0 (ground arith),
              (h a (record r { role = role; deleted_at = none }) (ground arith)).1 refl,
            ))
            ((h a
                (record {
                  id = new_id;
                  tenant_id = ctx.tenant_id;
                  user_id = user_id;
                  role = role;
                  deleted_at = none;
                })
                refl).1
              refl)

  -- A request leaves the memberships of every other Tenant as they were, whether it succeeds or throws.
  pub serve_isolated :
      (ctx : Context) (r : Request) (s : Directory)
      → filter_where
          (λ m. not (m.tenant_id == ctx.tenant_id))
          (serve users db (ctx, r) s).memberships
        ≡ filter_where (λ m. not (m.tenant_id == ctx.tenant_id)) s.memberships
  serve_isolated ctx (Request.add new_id user_id role) s =
      kept-add_membership (λ m. not (m.tenant_id == ctx.tenant_id)) ctx new_id user_id role s
        (λ a r t. (λ d. ground arith, λ e. ground arith))
  serve_isolated ctx (Request.update_role id role) s =
      kept-update_membership_role db (λ m. not (m.tenant_id == ctx.tenant_id)) ctx id role s
        (λ m r a u. (ground arith, ground arith))
  serve_isolated ctx (Request.remove id now) s =
      kept-remove_membership db (λ m. not (m.tenant_id == ctx.tenant_id)) ctx id now s
        (λ m r a u. (ground arith, ground arith))

  not_live_owner :
      (tenant_id id : Key) (target : Role) (r : Membership)
      → is_owner target ≡ false
      → unchanged tenant_id id target r ≡ true
      → live_owner r ≡ false
  not_live_owner tenant_id id owner r o u = cc
  not_live_owner tenant_id id admin r o u = ground arith
  not_live_owner tenant_id id member r o u = ground arith

  -- An administrator neither makes, demotes, removes nor changes an owner: the active owners, in
  -- every Tenant, are the same after any request of an administrator.
  pub admin_spares_owners :
      (ctx : Context) (r : Request) (s : Directory)
      → ctx.membership_role ≡ admin
      → filter_where live_owner (serve users db (ctx, r) s).memberships
        ≡ filter_where live_owner s.memberships
  unfolding assert_role_assignment_allowed assert_target_management_allowed
  admin_spares_owners ctx (Request.add new_id user_id role) s h =
      kept-add_membership live_owner ctx new_id user_id role s
        (λ a r t. (λ d. ground arith, λ e. ground arith))
  admin_spares_owners ctx (Request.update_role id role) s h =
      kept-update_membership_role db live_owner ctx id role s
        (λ m r a u. (not_live_owner ctx.tenant_id id m.role r (ground arith) u, ground arith))
  admin_spares_owners ctx (Request.remove id now) s h =
      kept-remove_membership db live_owner ctx id now s
        (λ m r a u. (not_live_owner ctx.tenant_id id m.role r (ground arith) u, ground arith))

  -- A plain member is refused every operation of the service, the listing included, and nothing
  -- changes.
  pub member_refused :
      (ctx : Context) (s : Directory) (id user_id : Key) (role : Role) (now : Date)
      → ctx.membership_role ≡ member
      → (list_memberships db ctx s ≡ (err management_forbidden, s))
        × (add_membership users db ctx id user_id role s ≡ (err management_forbidden, s))
        × (update_membership_role db ctx id role s ≡ (err management_forbidden, s))
        × (remove_membership db ctx id now s ≡ (err management_forbidden, s))
  unfolding list_memberships add_membership update_membership_role remove_membership
      assert_management_role
  member_refused ctx s id user_id role now h =
      (ground arith, ground arith, ground arith, ground arith)
