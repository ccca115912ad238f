-- ===== src/Memberships/Owners.antt =====
-- A Tenant never loses its last owner, whatever the requests.
use wctm.Prelude.{
  ℕ, ◌+◌, ◌≤◌, Key, Date, ◌≡◌, refl, ◌≢◌, ◌⊎◌, Bool, true, false, Option, none, some, List, [], ◌∷◌,
  arith, ok, err, Option-cases, Bool-cases, inl, inr, ◌==◌, ◌<◌, ◌&&◌, not, leb,
}
use wctm.Database.Methods.{Client}
use wctm.Database.Rows.{count_where, count_where-map_where, count_where-map_where_other}
use wctm.Memberships.State.{
  assert_management_role, assert_role_assignment_allowed, membership_changed, last_owner,
  owner_target_forbidden, assert_target_management_allowed, Role, same_role, owner, admin, member,
  is_owner, Membership, User, Tenant, Context, Directory, Error,
}
use wctm.Memberships.Service.{
  update_membership_role, audit_role_change, record_audit, require_active_membership,
  remove_membership, store_membership, create_membership, deleted_by_id, by_user, add_membership,
  active_by_id, owner_in, unchanged, update_one, write_role, change_role, delete_membership,
  assert_another_owner_exists,
}

pub data Request : Type 0 where
  add : Key → Key → Role → Request
  update_role : Key → Role → Request
  remove : Key → Date → Request

-- How many active owners a Tenant has.
abbrev pub owners : Key → Directory → ℕ
owners tenant_id s = count_where (owner_in s.tenants tenant_id) s.memberships

pub allowed_cases :
    (actor target : Role) (assigned : Option Role)
    → (assert_target_management_allowed actor target assigned ≡ err owner_target_forbidden)
      ⊎ (assert_target_management_allowed actor target assigned ≡ ok tt)
unfolding assert_target_management_allowed
allowed_cases actor target assigned = ground arith

loses_role :
    (old new : Role)
    → same_role old new ≡ false
    → (is_owner old && not (is_owner new)) ≡ false
    → is_owner old ≡ false
loses_role owner owner ne n = cc
loses_role owner admin ne n = n
loses_role owner member ne n = n
loses_role admin new ne n = refl
loses_role member new ne n = refl

module _ (db : Client Membership) where
  -- A guarded write lowers the number of owners by one at most, and not at all if it fails.
  owners-update_one :
      (t : Key) (p : Membership → Bool) (f : Membership → Membership) (e : Error) (s : Directory)
      → owners t s ≤ owners t (update_one db p f e s).1 + 1
  unfolding update_one
  owners-update_one t p f e s = ground (
    arith,
    db.update_many_rows p f s.memberships,
    db.update_many_count p f s.memberships,
    count_where-map_where (owner_in s.tenants t) p f s.memberships,
  )

  -- It lowers the number not at all if it selects no owner.
  owners-update_one_other :
      (t : Key) (p : Membership → Bool) (f : Membership → Membership) (e : Error) (s : Directory)
      → ((m : Membership) → p m ≡ true → owner_in s.tenants t m ≡ false)
      → owners t s ≤ owners t (update_one db p f e s).1
  unfolding update_one
  owners-update_one_other t p f e s h = ground (
    arith,
    db.update_many_rows p f s.memberships,
    count_where-map_where_other (owner_in s.tenants t) p f s.memberships h,
  )

  not_owner :
      (ts : List Tenant) (t tenant_id id : Key) (role : Role) (m : Membership)
      → (t ≢ tenant_id) ⊎ (is_owner role ≡ false)
      → unchanged tenant_id id role m ≡ true
      → owner_in ts t m ≡ false
  not_owner ts t tenant_id id owner m h u = ground arith
  not_owner ts t tenant_id id admin m h u = ground arith
  not_owner ts t tenant_id id member m h u = ground arith

  write_spares_owners :
      (t : Key) (ctx : Context) (id : Key) (role : Role) (loses : Bool)
      (f : Membership → Membership) (e : Error) (s : Directory)
      → (loses ≡ false → is_owner role ≡ false)
      → (loses ≡ true → 1 < owners ctx.tenant_id s)
      → 1 ≤ owners t s
      → 1 ≤ owners t (update_one db (unchanged ctx.tenant_id id role) f e s).1
  write_spares_owners t ctx id role loses f e s safe many h =
      elim (Bool-cases (t == ctx.tenant_id)) [
        | inr ne ↦ other (inl (ground arith))
        | inl eq ↦ elim (Bool-cases loses) [
          | inr no_loss ↦ other (inr (safe no_loss))
          | inl loss ↦
              let q : t ≡ ctx.tenant_id = ground arith in
              rw q (
                omega (
                  arith,
                  many loss,
                  owners-update_one ctx.tenant_id (unchanged ctx.tenant_id id role) f e s,
                ))
        ]
      ]
    where
      other :
          (t ≢ ctx.tenant_id) ⊎ (is_owner role ≡ false)
          → 1 ≤ owners t (update_one db (unchanged ctx.tenant_id id role) f e s).1
      other o = omega (
        arith,
        h,
        owners-update_one_other t (unchanged ctx.tenant_id id role) f e s
            (λ m u. not_owner s.tenants t ctx.tenant_id id role m o u),
      )

  -- The count of the owners stops a request, or there are two at least.
  pub guard_cases :
      (loses : Bool) (ctx : Context) (s : Directory)
      → (assert_another_owner_exists db loses ctx s ≡ (err last_owner, s))
        ⊎ (assert_another_owner_exists db loses ctx s ≡ (ok tt, s))
          × (loses ≡ true → 1 < owners ctx.tenant_id s)
  unfolding assert_another_owner_exists
  guard_cases loses ctx s =
      elim (Bool-cases
        (loses && leb (db.count (owner_in s.tenants ctx.tenant_id) s.memberships) 1)) [
          | inl blocked ↦ inl (rw blocked)
          | inr free ↦ inr (
            rw free,
            λ l. ground (arith, db.count_rows (owner_in s.tenants ctx.tenant_id) s.memberships),
          )
        ]

  write_role-owners :
      (t : Key) (ctx : Context) (id : Key) (role : Role) (m : Membership) (s : Directory)
      → (is_owner m.role && not (is_owner role) ≡ true → 1 < owners ctx.tenant_id s)
      → 1 ≤ owners t s
      → 1 ≤ owners t (write_role db ctx id role m s).1
  unfolding write_role
  write_role-owners t ctx id role m s many h = elim (Bool-cases (same_role m.role role)) [
    | inl eq ↦ rw eq h
    | inr ne ↦ rw ne (
        ground (
          arith,
          write_spares_owners t ctx id m.role (is_owner m.role && not (is_owner role))
              (λ r. record r { role = role }) membership_changed s
              (λ n. loses_role m.role role ne n) many h,
        ))
  ]

  change_role-owners :
      (t : Key) (ctx : Context) (actor : Role) (id : Key) (role : Role) (s : Directory)
      → 1 ≤ owners t s
      → 1 ≤ owners t (change_role db ctx actor id role s).1
  unfolding change_role
  change_role-owners t ctx actor id role s h =
      elim (Option-cases (db.find_first (active_by_id s.tenants ctx.tenant_id id) s.memberships)) [
        | inl e ↦ ground arith
        | inr (m, e) ↦ rw e (elim (allowed_cases actor m.role (some role)) [
          | inl refused ↦ rw refused h
          | inr allowed ↦
              rw allowed (elim (guard_cases (is_owner m.role && not (is_owner role)) ctx s) [
                | inl blocked ↦ rw blocked h
                | inr (free, many) ↦ rw free (write_role-owners t ctx id role m s many h)
              ])
        ])
      ]

  delete_membership-owners :
      (t : Key) (ctx : Context) (actor : Role) (id : Key) (now : Date) (s : Directory)
      → 1 ≤ owners t s
      → 1 ≤ owners t (delete_membership db ctx actor id now s).1
  unfolding delete_membership
  delete_membership-owners t ctx actor id now s h =
      elim (Option-cases (db.find_first (active_by_id s.tenants ctx.tenant_id id) s.memberships)) [
        | inl e ↦ ground arith
        | inr (m, e) ↦ rw e (elim (allowed_cases actor m.role none) [
          | inl refused ↦ rw refused h
          | inr allowed ↦ rw allowed (elim (guard_cases (is_owner m.role) ctx s) [
            | inl blocked ↦ rw blocked h
            | inr (free, many) ↦ rw free (
                ground (
                  arith,
                  write_spares_owners t ctx id m.role (is_owner m.role)
                      (λ r. record r { deleted_at = some now }) membership_changed s (λ n. n) many
                      h,
                ))
          ])
        ])
      ]

  update_membership_role-owners :
      (t : Key) (ctx : Context) (id : Key) (role : Role) (s : Directory)
      → 1 ≤ owners t s
      → 1 ≤ owners t (update_membership_role db ctx id role s).1
  unfolding update_membership_role audit_role_change record_audit require_active_membership
      assert_management_role
  update_membership_role-owners t ctx id role s h =
      ground (arith, change_role-owners t ctx ctx.membership_role id role s h)

  remove_membership-owners :
      (t : Key) (ctx : Context) (id : Key) (now : Date) (s : Directory)
      → 1 ≤ owners t s
      → 1 ≤ owners t (remove_membership db ctx id now s).1
  unfolding remove_membership record_audit assert_management_role
  remove_membership-owners t ctx id now s h =
      ground (arith, delete_membership-owners t ctx ctx.membership_role id now s h)

  create_membership-owners :
      (t : Key) (ctx : Context) (id user_id : Key) (role : Role) (s : Directory)
      → 1 ≤ owners t s
      → 1 ≤ owners t (create_membership db ctx id user_id role s).1
  unfolding create_membership count_where
  create_membership-owners t ctx id user_id role s h =
      let row : Membership = record {
        id = id;
        tenant_id = ctx.tenant_id;
        user_id = user_id;
        role = role;
        deleted_at = none;
      } in
      elim (Option-cases (db.create row s.memberships)) [
        | inl e ↦ rw (e, create_membership) h
        | inr (ts, e) ↦
            rw (e, create_membership) (rw (db.created row s.memberships ts e) (omega (arith, h)))
      ]

  store_membership-owners :
      (t : Key) (ctx : Context) (new_id user_id : Key) (role : Role) (o : Option Membership)
      (s : Directory)
      → 1 ≤ owners t s
      → 1 ≤ owners t (store_membership db ctx new_id user_id role o s).1
  unfolding store_membership
  store_membership-owners t ctx new_id user_id role none s h =
      ground (arith, create_membership-owners t ctx new_id user_id role s h)
  store_membership-owners t ctx new_id user_id role (some m) s h = ground (
    arith,
    owners-update_one_other t (deleted_by_id ctx.tenant_id m.id)
        (λ r. record r { role = role; deleted_at = none }) membership_changed s
        (λ r e. ground arith),
  )

module _ (users : Client User) (db : Client Membership) where
  add_membership-owners :
      (t : Key) (ctx : Context) (new_id user_id : Key) (role : Role) (s : Directory)
      → 1 ≤ owners t s
      → 1 ≤ owners t (add_membership users db ctx new_id user_id role s).1
  unfolding add_membership record_audit require_active_membership assert_management_role
      assert_role_assignment_allowed
  add_membership-owners t ctx new_id user_id role s h = ground (
    arith,
    store_membership-owners db t ctx new_id user_id role
        (db.find_first (by_user ctx.tenant_id user_id) s.memberships) s h,
  )

  -- A request to the members of a Tenant, with the context that the guard has established.
  abbrev pub serve : Context × Request → Directory → Directory
  serve (ctx, Request.add new_id user_id role) s =
      (add_membership users db ctx new_id user_id role s).1
  serve (ctx, Request.update_role id role) s = (update_membership_role db ctx id role s).1
  serve (ctx, Request.remove id now) s = (remove_membership db ctx id now s).1

  -- Any sequence of requests, each served to its end, whether it succeeds or throws.
  pub serve_all : List (Context × Request) → Directory → Directory
  serve_all [] s = s
  serve_all (r ∷ rs) s = serve_all rs (serve r s)

  serve-owners :
      (t : Key) (r : Context × Request) (s : Directory) → 1 ≤ owners t s → 1 ≤ owners t (serve r s)
  serve-owners t (ctx, Request.add new_id user_id role) s h =
      add_membership-owners t ctx new_id user_id role s h
  serve-owners t (ctx, Request.update_role id role) s h =
      update_membership_role-owners db t ctx id role s h
  serve-owners t (ctx, Request.remove id now) s h = remove_membership-owners db t ctx id now s h

  -- A Tenant that has an active owner has one after any sequence of requests to add, promote,
  -- demote or remove members, by any actors of any Tenants, whether they succeed or fail.
  pub serve_all_keeps_owner :
      (t : Key) (rs : List (Context × Request)) (s : Directory)
      → 1 ≤ owners t s
      → 1 ≤ owners t (serve_all rs s)
  unfolding serve_all
  serve_all_keeps_owner t [] s h = h
  serve_all_keeps_owner t (r ∷ rs) s h =
      serve_all_keeps_owner t rs (serve r s) (serve-owners t r s h)
