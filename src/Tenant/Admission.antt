-- ===== src/Tenant/Admission.antt =====
-- Who the guard lets through.
use wctm.Prelude.{
  Key, Text, ◌≡◌, refl, inl, inr, Bool, true, false, Option, none, some, List, Memᴰ, arith,
  Bool-cases, Option-cases, Result, ok, err, bind_result,
}
use wctm.Database.Methods.{Client}
use wctm.Memberships.{Membership, Tenant}
use wctm.Tenant.Guard.{
  Claim, not_text, text, JwtPayload, Route, RequestContext, GuardError, is_empty, tenant_live,
  active_membership, role_permitted, sub_of, tenant_id_of, set_tenant, active, required_claim,
  admit, admit_member, can_activate,
}

module _ (trim : Text → Text) (key_of : Text → Key) (db : Client Membership) where
  -- A claim that spells the identifier, and is more than blanks.
  abbrev pub Spells : Claim → Key → Type 0
  Spells c k = (v : Text) × (c ≡ text v) × (is_empty (trim v) ≡ false) × (key_of v ≡ k)

  -- The context is of a member that the token names, of a Tenant that is not deleted, with a role that
  -- the route permits.
  abbrev pub Admitted :
      Route → Option JwtPayload → List Tenant → List Membership → Option RequestContext → Type 0
  Admitted route payload tenants memberships c =
      (m : Membership) × Memᴰ m memberships
      × (m.deleted_at ≡ none)
      × (tenant_live m.tenant_id tenants ≡ true)
      × (role_permitted route.required_membership_roles m.role ≡ true)
      × Spells (sub_of payload) m.user_id
      × Spells (tenant_id_of payload) m.tenant_id
      × (active c
          ≡ ok (record { tenant_id = m.tenant_id; user_id = m.user_id; membership_role = m.role }))

  required_claim-Spells :
      (c : Claim) (k : Key) → required_claim trim key_of db c ≡ ok k → Spells c k
  unfolding required_claim
  required_claim-Spells Claim.absent k h = cc
  required_claim-Spells not_text k h = cc
  required_claim-Spells (text v) k h = elim (Bool-cases (is_empty (trim v))) [
    | inl e ↦ absurd (cc (let g = rw e at h in g))
    | inr e ↦ let g : key_of v ≡ k = ground arith in (v, refl, e, g)
  ]

  -- A member that was found is admitted where the call returns.
  found-Admitted :
      (route : Route) (payload : Option JwtPayload) (tenants : List Tenant)
      (memberships : List Membership) (m : Membership) (c : Option RequestContext) (b : Bool)
      → Memᴰ m memberships
      → m.deleted_at ≡ none
      → tenant_live m.tenant_id tenants ≡ true
      → Spells (sub_of payload) m.user_id
      → Spells (tenant_id_of payload) m.tenant_id
      → (admit trim key_of db route (some m) c).0 ≡ ok b
      → Admitted route payload tenants memberships (admit trim key_of db route (some m) c).1
  unfolding set_tenant active
  found-Admitted route payload tenants memberships m none b k d l s t h =
      elim (Bool-cases (role_permitted route.required_membership_roles m.role)) [
        | inl y ↦ absurd (cc (let g = rw y at h in g))
        | inr n ↦ absurd (cc (let g = rw n at h in g))
      ]
  found-Admitted route payload tenants memberships m (some c) b k d l s t h =
      elim (Bool-cases (role_permitted route.required_membership_roles m.role)) [
        | inl y ↦ rw y (m, k, d, l, y, s, t, refl)
        | inr n ↦ absurd (cc (let g = rw n at h in g))
      ]

  admit_member-Admitted :
      (route : Route) (payload : Option JwtPayload) (tenants : List Tenant)
      (memberships : List Membership) (user tenant : Key) (c : Option RequestContext) (b : Bool)
      → Spells (sub_of payload) user
      → Spells (tenant_id_of payload) tenant
      → (admit_member trim key_of db route tenants memberships user tenant c).0 ≡ ok b
      → Admitted route payload tenants memberships
          (admit_member trim key_of db route tenants memberships user tenant c).1
  unfolding admit_member
  admit_member-Admitted route payload tenants memberships user tenant c b s t h =
      elim (Option-cases (db.find_first (active_membership tenant user tenants) memberships)) [
        | inl n ↦ absurd (cc (let g = rw (n, admit_member) at h in g))
        | inr (m, f) ↦
            let (k, a) = db.found (active_membership tenant user tenants) memberships m f in
            let et : m.tenant_id ≡ tenant = ground arith in
            let eu : m.user_id ≡ user = ground arith in
            let d : m.deleted_at ≡ none = ground arith in
            let l : tenant_live m.tenant_id tenants ≡ true = ground arith in
            rw (f, admit_member)
              (found-Admitted route payload tenants memberships m c b k d l (rw eu s) (rw et t)
                (rw (f, admit_member) at h))
      ]

  -- Where a route is neither public nor optional in the Tenant and the guard returns, whatever it answers,
  -- the context that is active afterwards is of a membership that is stored and not deleted, of the user
  -- and the Tenant that the two claims of the token spell, which are texts with more than blanks; that
  -- Tenant is not deleted, and the route permits the role.
  pub can_activate-Admitted :
      (route : Route) (payload : Option JwtPayload) (tenants : List Tenant)
      (memberships : List Membership) (c : Option RequestContext) (b : Bool)
      → route.is_public ≡ false
      → route.is_tenant_optional ≡ false
      → (can_activate trim key_of db route payload tenants memberships c).0 ≡ ok b
      → Admitted route payload tenants memberships
          (can_activate trim key_of db route payload tenants memberships c).1
  unfolding can_activate
  can_activate-Admitted route payload tenants memberships c b p o h =
      rw (p, o, can_activate)
        (by_user (required_claim trim key_of db (sub_of payload)) refl
          (rw (p, o, can_activate) at h))
    where
      by_tenant :
          (user : Key)
          → Spells (sub_of payload) user
          → (r : Result GuardError Key) → required_claim trim key_of db (tenant_id_of payload) ≡ r
          → (bind_result (r, c) (admit_member trim key_of db route tenants memberships user)).0
            ≡ ok b
          → Admitted route payload tenants memberships
              (bind_result (r, c) (admit_member trim key_of db route tenants memberships user)).1
      by_tenant user s (err e) q g = absurd (cc (g))
      by_tenant user s (ok tenant) q g =
          admit_member-Admitted route payload tenants memberships user tenant c b s
            (required_claim-Spells (tenant_id_of payload) tenant q) g

      by_user :
          (r : Result GuardError Key)
          → required_claim trim key_of db (sub_of payload) ≡ r
          → (bind_result
              (r, c)
              (λ user d.
                bind_result
                  (required_claim trim key_of db (tenant_id_of payload), d)
                  (admit_member trim key_of db route tenants memberships user))).0
            ≡ ok b
          → Admitted route payload tenants memberships
              (bind_result
                (r, c)
                (λ user d.
                  bind_result
                    (required_claim trim key_of db (tenant_id_of payload), d)
                    (admit_member trim key_of db route tenants memberships user))).1
      by_user (err e) q g = absurd (cc (g))
      by_user (ok user) q g =
          by_tenant user (required_claim-Spells (sub_of payload) user q)
            (required_claim trim key_of db (tenant_id_of payload)) refl g
