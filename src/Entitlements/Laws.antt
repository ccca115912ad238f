-- ===== src/Entitlements/Laws.antt =====
-- What `EntitlementService` promises: when a Tenant counts as active, that the three ways to ask
-- agree, and what an operator's change does and leaves alone.
use wctm.Prelude.{
  ◌≤◌, ◌<◌, Key, Date, ◌≡◌, refl, Bool, true, false, not, Option, none, some, List, ◌∷◌, Memᴰ,
  arith, ◌==◌, is_some, ok, err, Option-cases, inl, inr, ◌⊎◌, ◌||◌, Bool-cases,
}
use mathlib.Core.Logic.{◌↔◌}
use wctm.Database.Methods.{Client}
use wctm.Database.Rows.{filter_where}
use wctm.Database.Keys.{find_first-update_many, filter_where-update_many}
use wctm.Entitlements.State.{
  Status, EffectiveState, Tenant, Summary, Store, Change, ManageInput, live_tenant, change,
  change_entry, to_summary, effective_tenant_entitlement_state, resolve_tenant, assert_active,
  manage, manage_found, tenant_not_found,
}

-- An expiry that has not come yet, or none.
abbrev pub NotPast : Option Date → Date → Type 0
NotPast none now = Unit
NotPast (some t) now = now < t

-- A Tenant is effectively active exactly when it is not suspended and its expiry, if it has one, lies in the future.
pub effective_state-active :
    (s : Status) (e : Option Date) (now : Date)
    → (effective_tenant_entitlement_state s e now ≡ EffectiveState.active)
      ↔ ((s ≡ Status.active) × NotPast e now)
unfolding effective_tenant_entitlement_state
effective_state-active Status.active none now = (λ h. (refl, tt), λ h. refl)
effective_state-active Status.active (some t) now = (λ h. ground arith, λ h. ground arith)
effective_state-active Status.suspended e now = (λ h. cc, λ h. cc (h.0))

-- Time alone never makes an inactive Tenant active again.
pub effective_state_monotone :
    (s : Status) (e : Option Date) (now later : Date)
    → now ≤ later
    → effective_tenant_entitlement_state s e later ≡ EffectiveState.active
    → effective_tenant_entitlement_state s e now ≡ EffectiveState.active
unfolding effective_tenant_entitlement_state
effective_state_monotone Status.active none now later le h = refl
effective_state_monotone Status.active (some t) now later le h = ground arith
effective_state_monotone Status.suspended e now later le h = cc

abbrev pub other_tenant : Key → Tenant → Bool
other_tenant id t = not (t.id == id)

module _ (db : Client Tenant) where
  -- `assertActive` lets a request through only for a Tenant that is in the table, is not deleted,
  -- is not suspended and has no expiry that has come; it answers with the summary of that Tenant.
  pub assert_active_sound :
      (id : Key) (now : Date) (tenants : List Tenant) (s : Summary)
      → assert_active db id now tenants ≡ ok s
      → (t : Tenant) × Memᴰ t tenants
        × (t.id ≡ id)
        × (t.deleted_at ≡ none)
        × (t.entitlement_status ≡ Status.active)
        × NotPast t.entitlement_expires_at now
        × (s ≡ to_summary t now)
  unfolding assert_active
  assert_active_sound id now tenants s h =
      elim (Option-cases (db.find_first (live_tenant id) tenants)) [
        | inl e ↦ absurd (ground arith)
        | inr (t, e) ↦
            let (m, u) = db.found (live_tenant id) tenants t e in
            (t, m, ground arith, ground arith, ground arith, ground arith, ground arith)
      ]

  manage_missing :
      (input : ManageInput) (now : Date) (s : Store)
      → db.find_first (live_tenant input.tenant_id) s.tenants ≡ none
      → manage db input now s ≡ (err tenant_not_found, s)
  unfolding manage
  manage_missing input now s e = ground arith

  manage_lem :
      (input : ManageInput) (now : Date) (s : Store) (t : Tenant)
      → db.find_first (live_tenant input.tenant_id) s.tenants ≡ some t
      → manage db input now s ≡ manage_found db input now t s
  unfolding manage
  manage_lem input now s t e = ground arith

  found_frame :
      (input : ManageInput) (now : Date) (s : Store) (t : Tenant)
      → db.find_first (live_tenant input.tenant_id) s.tenants ≡ some t
      → filter_where (other_tenant input.tenant_id) (manage_found db input now t s).1.tenants
        ≡ filter_where (other_tenant input.tenant_id) s.tenants
  unfolding manage_found
  found_frame input now s t e =
      let same_id : t.id ≡ input.tenant_id =
        ground (arith, db.found (live_tenant input.tenant_id) s.tenants t e) in
      elim (Bool-cases (is_some input.status || is_some input.expires_at)) [
        | inl m ↦ rw m (
            filter_where-update_many db (other_tenant input.tenant_id) (λ x. x.id == t.id)
              (change input) s.tenants (λ r h. ground arith) (λ r h. ground arith))
        | inr m ↦ rw m
      ]

  -- A change by an operator leaves every other Tenant as it was, whether it succeeds or fails.
  pub manage_frame :
      (input : ManageInput) (now : Date) (s : Store)
      → filter_where (other_tenant input.tenant_id) (manage db input now s).1.tenants
        ≡ filter_where (other_tenant input.tenant_id) s.tenants
  unfolding manage_found
  manage_frame input now s =
      elim (Option-cases (db.find_first (live_tenant input.tenant_id) s.tenants)) [
        | inl e ↦ rw (manage_missing input now s e)
        | inr (t, e) ↦ rw (manage_lem input now s t e) (found_frame input now s t e)
      ]

  resolve_found :
      (input : ManageInput) (now : Date) (s : Store) (r : Summary) (t : Tenant)
      → db.find_first (live_tenant input.tenant_id) s.tenants ≡ some t
      → ((x y : Tenant) → Memᴰ x s.tenants → Memᴰ y s.tenants → x.id ≡ y.id → x ≡ y)
      → (manage_found db input now t s).0 ≡ ok r
      → resolve_tenant db input.tenant_id now (manage_found db input now t s).1.tenants ≡ ok r
  unfolding resolve_tenant manage_found
  resolve_found input now s r t e unique h =
      let (m, u) = db.found (live_tenant input.tenant_id) s.tenants t e in
      elim (Bool-cases (is_some input.status || is_some input.expires_at)) [
        | inl b ↦
            let reads : db.find_first (live_tenant input.tenant_id)
                  (db.update_many (λ x. x.id == t.id) (change input) s.tenants).0
                ≡ some (change input t) =
              find_first-update_many db (live_tenant input.tenant_id) (λ x. x.id == t.id)
                (change input) s.tenants t m u (ground arith) (λ x v. v)
                (λ x n v. unique x t n m (ground arith)) in
            ground arith
        | inr b ↦ ground arith
      ]

  -- After a change that succeeds, the Tenant resolves at that time to the very summary that the operator was shown, if it is the only live Tenant with its id.
  pub resolve_tenant-manage :
      (input : ManageInput) (now : Date) (s : Store) (r : Summary)
      → ((x y : Tenant) → Memᴰ x s.tenants → Memᴰ y s.tenants → x.id ≡ y.id → x ≡ y)
      → (manage db input now s).0 ≡ ok r
      → resolve_tenant db input.tenant_id now (manage db input now s).1.tenants ≡ ok r
  unfolding resolve_tenant
  resolve_tenant-manage input now s r unique h =
      elim (Option-cases (db.find_first (live_tenant input.tenant_id) s.tenants)) [
        | inl e ↦ cc (let u = rw (manage_missing input now s e) at h in u)
        | inr (t, e) ↦
            rw (manage_lem input now s t e)
              (resolve_found input now s r t e unique (rw (manage_lem input now s t e) at h))
      ]

  found_audit :
      (input : ManageInput) (now : Date) (s : Store) (r : Summary) (t : Tenant)
      → (is_some input.status || is_some input.expires_at) ≡ true
      → (manage_found db input now t s).0 ≡ ok r
      → (manage_found db input now t s).1.audit_log
        ≡ change_entry input (to_summary t now) r ∷ s.audit_log
  unfolding manage_found
  found_audit input now s r t b h = ground arith

  found_reads :
      (input : ManageInput) (now : Date) (s : Store) (t : Tenant)
      → (is_some input.status || is_some input.expires_at) ≡ false
      → (manage_found db input now t s).1 ≡ s
  unfolding manage_found
  found_reads input now s t b = ground arith

  -- The audit log gets one entry for a change that sets anything, with the Tenant, its new status and
  -- its new effective state, and a call that sets nothing changes nothing.
  pub manage_audit :
      (input : ManageInput) (now : Date) (s : Store) (r : Summary)
      → (manage db input now s).0 ≡ ok r
      → (((is_some input.status || is_some input.expires_at) ≡ true)
          × (c : Change) × ((manage db input now s).1.audit_log ≡ c ∷ s.audit_log)
          × (c.tenant_id ≡ input.tenant_id)
          × (c.new_status ≡ r.status)
          × (c.effective_state ≡ r.effective_state))
        ⊎ (((is_some input.status || is_some input.expires_at) ≡ false)
            × ((manage db input now s).1 ≡ s))
  unfolding manage_found
  manage_audit input now s r h =
      elim (Option-cases (db.find_first (live_tenant input.tenant_id) s.tenants)) [
        | inl e ↦ cc (let u = rw (manage_missing input now s e) at h in u)
        | inr (t, e) ↦
            let k = rw (manage_lem input now s t e) at h in
            rw (manage_lem input now s t e)
              (elim (Bool-cases (is_some input.status || is_some input.expires_at)) [
                | inl b ↦ inl (
                  b,
                  change_entry input (to_summary t now) r,
                  found_audit input now s r t b k,
                  refl,
                  refl,
                  refl,
                )
                | inr b ↦ inr (b, found_reads input now s t b)
              ])
      ]
