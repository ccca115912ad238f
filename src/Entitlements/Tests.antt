-- ===== src/Entitlements/Tests.antt =====
-- Runs of the entitlement service on a small table.
use wctm.Prelude.{◌≡◌, refl, none, some, List, [], ◌∷◌, Memᴰ, arith, ◌==◌, ok, false, true, ◌⊎◌}
use mathlib.Core.Logic.{◌↔◌}
use wctm.Database.Methods.{Client}
use wctm.Database.Keys.{HasKeys-pair}
use wctm.Database.Memory.{memory}
use wctm.Entitlements.State.{
  Plan, Status, EffectiveState, Tenant, Summary, Store, Change, ManageInput, to_summary,
  effective_tenant_entitlement_state, assert_active, resolve_tenant, manage,
}
use wctm.Entitlements.Laws.{
  NotPast, effective_state-active, assert_active_sound, resolve_tenant-manage, manage_audit,
}

abbrev shop : Tenant
shop = record {
  id = 1;
  plan = Plan.pro;
  entitlement_status = Status.active;
  entitlement_expires_at = some 100;
  deleted_at = none;
}

abbrev rival : Tenant
rival = record {
  id = 2;
  plan = Plan.free;
  entitlement_status = Status.suspended;
  entitlement_expires_at = none;
  deleted_at = none;
}

abbrev table : Client Tenant
table = memory (λ a b. a.id == b.id)

abbrev tenants : List Tenant
tenants = shop ∷ rival ∷ []

abbrev store : Store
store = record { tenants = tenants; audit_log = [] }

abbrev renewal : ManageInput
renewal = record { tenant_id = 1; status = none; expires_at = some (some 200); correlation_id = 7 }

abbrev renewed : Summary
renewed = record {
  plan = Plan.pro;
  status = Status.active;
  effective_state = EffectiveState.active;
  expires_at = some 200;
}

effective_state-active_example :
    (effective_tenant_entitlement_state Status.active (some 100) 99 ≡ EffectiveState.active)
    ↔ ((Status.active ≡ Status.active) × NotPast (some 100) 99)
effective_state-active_example = effective_state-active Status.active (some 100) 99

assert_active_sound_example :
    (t : Tenant) × Memᴰ t tenants
    × (t.id ≡ 1)
    × (t.deleted_at ≡ none)
    × (t.entitlement_status ≡ Status.active)
    × NotPast t.entitlement_expires_at 50
    × (to_summary shop 50 ≡ to_summary t 50)
unfolding assert_active memory to_summary
assert_active_sound_example = assert_active_sound table 1 50 tenants (to_summary shop 50) refl

resolve_tenant-manage_example :
    resolve_tenant table 1 150 (manage table renewal 150 store).1.tenants ≡ ok renewed
unfolding manage memory
resolve_tenant-manage_example =
    resolve_tenant-manage table renewal 150 store renewed
      (HasKeys-pair (λ t. t.id) shop rival (λ h. omega arith)) refl

manage_audit_example :
    ((true ≡ true)
      × (c : Change) × ((manage table renewal 150 store).1.audit_log ≡ c ∷ [])
      × (c.tenant_id ≡ 1)
      × (c.new_status ≡ Status.active)
      × (c.effective_state ≡ EffectiveState.active))
    ⊎ ((true ≡ false) × ((manage table renewal 150 store).1 ≡ store))
unfolding manage memory
manage_audit_example = manage_audit table renewal 150 store renewed refl
