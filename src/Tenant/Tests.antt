-- ===== src/Tenant/Tests.antt =====
-- An owner and an admin of a shop, and a route for owners.
use wctm.Prelude.{
  Key, Text, codes, ◌≡◌, refl, true, false, Option, none, some, [], ◌∷◌, ◌==◌, ok, err,
}
use wctm.Database.Methods.{Client}
use wctm.Database.Memory.{memory}
use wctm.Memberships.{Role, Membership, Tenant}
use wctm.Tenant.Guard.{
  text, JwtPayload, Route, RequestContext, GuardError, can_activate, required_claim, admit_member,
  set_tenant,
}
use wctm.Tenant.Admission.{Admitted, can_activate-Admitted}

-- The texts of the test have no blanks around them.
abbrev trim : Text → Text
trim s = s

abbrev key_of : Text → Key
key_of [] = 0
key_of (c ∷ s) = c

abbrev table : Client Membership
table = memory (λ a b. a.id == b.id)

abbrev shop : Tenant
shop = record { id = 84; deleted_at = none }

abbrev owner : Membership
owner = record { id = 1; tenant_id = 84; user_id = 65; role = Role.owner; deleted_at = none }

abbrev admin : Membership
admin = record { id = 2; tenant_id = 84; user_id = 66; role = Role.admin; deleted_at = none }

abbrev owners_only : Route
owners_only = record {
  is_public = false;
  is_tenant_optional = false;
  required_membership_roles = some (Role.owner ∷ []);
}

abbrev token : Text → Option JwtPayload
token user = some (record { sub = text user; tenant_id = text (codes "T") })

abbrev opened : Option RequestContext
opened = some (record { request_id = codes "r1"; telegram_update_id = none; tenant = none })

owner_passes :
    (can_activate trim key_of table owners_only
      (token (codes "A"))
      (shop ∷ [])
      (owner ∷ admin ∷ [])
      opened).0
    ≡ ok true
unfolding can_activate required_claim admit_member set_tenant memory
owner_passes = refl

admin_stays_out :
    can_activate trim key_of table owners_only
      (token (codes "B"))
      (shop ∷ [])
      (owner ∷ admin ∷ [])
      opened
    ≡ (err GuardError.role_not_permitted, opened)
unfolding can_activate required_claim admit_member set_tenant memory
admin_stays_out = refl

can_activate-Admitted_example :
    Admitted trim key_of table owners_only
      (token (codes "A"))
      (shop ∷ [])
      (owner ∷ admin ∷ [])
      (can_activate trim key_of table owners_only
        (token (codes "A"))
        (shop ∷ [])
        (owner ∷ admin ∷ [])
        opened).1
can_activate-Admitted_example =
    can_activate-Admitted trim key_of table owners_only (token (codes "A")) (shop ∷ [])
      (owner ∷ admin ∷ []) opened true refl refl owner_passes
