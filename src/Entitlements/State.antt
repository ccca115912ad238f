-- ===== src/Entitlements/State.antt =====
-- The data and the methods of `EntitlementService`. The log lines that `manage` writes after its
-- transaction have no effect on the state and are left out.
use wctm.Prelude.{
  Key, Date, Bool, true, false, not, ◌&&◌, ◌||◌, Option, none, some, List, ◌∷◌, leb, ◌==◌, is_some,
  if◌then◌else◌, Result, ok, err, Action, or_throw, get, transaction, ◌>>=◌,
}
use wctm.Database.Methods.{Client}

pub data Plan : Type 0 where
  free pro agency : Plan

-- `TenantEntitlementStatus`
pub data Status : Type 0 where
  active suspended : Status

-- `EffectiveTenantEntitlementState`
pub data EffectiveState : Type 0 where
  active suspended expired : EffectiveState

-- The columns of a Tenant that the service reads and writes.
pub record Tenant : Type 0 where
  pub id : Key
  pub plan : Plan
  pub entitlement_status : Status
  pub entitlement_expires_at : Option Date
  pub deleted_at : Option Date

pub record Summary : Type 0 where
  pub plan : Plan
  pub status : Status
  pub effective_state : EffectiveState
  pub expires_at : Option Date

-- `expiresAt !== null && now >= expiresAt`
abbrev pub is_past : Option Date → Date → Bool
is_past none now = false
is_past (some t) now = leb t now

unfoldable pub effective_tenant_entitlement_state : Status → Option Date → Date → EffectiveState
effective_tenant_entitlement_state Status.suspended expires_at now = EffectiveState.suspended
effective_tenant_entitlement_state Status.active expires_at now =
    if is_past expires_at now then EffectiveState.expired else EffectiveState.active

-- The ISO form of the expiry is as good as its instant.
unfoldable pub to_summary : Tenant → Date → Summary
unfolding effective_tenant_entitlement_state
to_summary t now = record {
  plan = t.plan;
  status = t.entitlement_status;
  effective_state =
      effective_tenant_entitlement_state t.entitlement_status t.entitlement_expires_at now;
  expires_at = t.entitlement_expires_at;
}

abbrev pub is_active : EffectiveState → Bool
is_active EffectiveState.active = true
is_active EffectiveState.suspended = false
is_active EffectiveState.expired = false

pub data Error : Type 0 where
  tenant_not_found : Error
  entitlement_inactive : EffectiveState → Error

-- An entry of the audit log, `tenant.entitlement.changed`.
pub record Change : Type 0 where
  pub tenant_id : Key
  pub correlation_id : Key
  pub previous_status : Status
  pub new_status : Status
  pub previous_expiry_present : Bool
  pub new_expiry_present : Bool
  pub effective_state : EffectiveState

pub record Store : Type 0 where
  pub tenants : List Tenant
  pub audit_log : List Change

-- `ManageTenantEntitlementInput`: a field that is `undefined` is `none`; an expiry of `some none`
-- is `null`, which removes it.
pub record ManageInput : Type 0 where
  pub tenant_id : Key
  pub status : Option Status
  pub expires_at : Option (Option Date)
  pub correlation_id : Key

abbrev pub live_tenant : Key → Tenant → Bool
live_tenant id t = t.id == id && not (is_some t.deleted_at)

abbrev pub given {ℓ} : {A : Type ℓ} → Option A → A → A
given none old = old
given (some a) old = a

unfoldable pub change : ManageInput → Tenant → Tenant
change input t = record t {
  entitlement_status = given input.status t.entitlement_status;
  entitlement_expires_at = given input.expires_at t.entitlement_expires_at;
}

unfoldable pub change_entry : ManageInput → Summary → Summary → Change
change_entry input old new = record {
  tenant_id = input.tenant_id;
  correlation_id = input.correlation_id;
  previous_status = old.status;
  new_status = new.status;
  previous_expiry_present = is_some old.expires_at;
  new_expiry_present = is_some new.expires_at;
  effective_state = new.effective_state;
}

abbrev pub require_active : Result Error Summary → Result Error Summary
require_active (err e) = err e
require_active (ok s) =
    if is_active s.effective_state then ok s else err (entitlement_inactive s.effective_state)

abbrev pub summary_active : Result Error Summary → Result Error Bool
summary_active (err e) = err e
summary_active (ok s) = ok (is_active s.effective_state)

module _ (db : Client Tenant) where
  unfoldable pub resolve_tenant : Key → Date → List Tenant → Result Error Summary
  unfolding to_summary
  resolve_tenant id now tenants = elim (db.find_first (live_tenant id) tenants) [
    | none ↦ err tenant_not_found
    | some t ↦ ok (to_summary t now)
  ]

  unfoldable pub assert_active : Key → Date → List Tenant → Result Error Summary
  unfolding resolve_tenant
  assert_active id now tenants = require_active (resolve_tenant id now tenants)

  unfoldable pub is_tenant_active : Key → Date → List Tenant → Result Error Bool
  unfolding resolve_tenant
  is_tenant_active id now tenants = summary_active (resolve_tenant id now tenants)

  -- The body of the transaction of `manage`, with the Tenant that was found.
  unfoldable pub manage_found : ManageInput → Date → Tenant → Action Error Store Summary
  unfolding change change_entry to_summary
  manage_found input now current s =
      if is_some input.status || is_some input.expires_at
      then (let updated = change input current in
          let new = to_summary updated now in
          (
            ok new,
            record {
              tenants = (db.update_many (λ t. t.id == current.id) (change input) s.tenants).0;
              audit_log = change_entry input (to_summary current now) new ∷ s.audit_log;
            },
          ))
      else (ok (to_summary current now), s)

  unfoldable pub manage : ManageInput → Date → Action Error Store Summary
  unfolding manage_found
  manage input now = transaction (do
    s ← get
    current ← or_throw (db.find_first (live_tenant input.tenant_id) s.tenants) tenant_not_found
    manage_found input now current)
