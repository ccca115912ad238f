-- ===== src/Tenant/Guard.antt =====
-- `TenantContextGuard` and `TenantContextService`, with the context of a request that
-- `RequestContextService` of backend/src/common/request-context keeps.
use wctm.Prelude.{
  Key, Text, Bool, true, false, not, ◌&&◌, ◌||◌, Option, none, some, List, [], ◌∷◌, ◌==◌, is_some,
  if◌then◌else◌, Result, ok, err, Action, ⊤, pure, lift, ◌>>=◌, ◌>>◌,
}
use wctm.Database.Methods.{Client}
use wctm.Memberships.{Role, same_role, Membership, Tenant, Context}

-- A claim of a token: any value of JSON, of which only a text is read.
pub data Claim : Type 0 where
  absent not_text : Claim
  text : Text → Claim

pub record JwtPayload : Type 0 where
  pub sub : Claim
  pub tenant_id : Claim

-- The metadata of a handler and its class.
pub record Route : Type 0 where
  pub is_public : Bool
  pub is_tenant_optional : Bool
  pub required_membership_roles : Option (List Role)

pub record RequestContext : Type 0 where
  pub request_id : Text
  pub telegram_update_id : Option Text
  pub tenant : Option Context

pub data GuardError : Type 0 where
  claim_required membership_required role_not_permitted : GuardError
  tenant_context_unavailable request_context_unavailable : GuardError

abbrev pub is_empty : Text → Bool
is_empty [] = true
is_empty (c ∷ s) = false

abbrev pub tenant_live : Key → List Tenant → Bool
tenant_live id [] = false
tenant_live id (t ∷ ts) = (t.id == id && not (is_some t.deleted_at)) || tenant_live id ts

-- The `where` of the guard.
abbrev pub active_membership : Key → Key → List Tenant → Membership → Bool
active_membership tenant user tenants m =
    m.tenant_id == tenant
    && m.user_id == user
    && not (is_some m.deleted_at)
    && tenant_live m.tenant_id tenants

-- `includes`
abbrev pub has_role : List Role → Role → Bool
has_role [] r = false
has_role (x ∷ xs) r = same_role x r || has_role xs r

-- No required roles, or the role is one of them.
abbrev pub role_permitted : Option (List Role) → Role → Bool
role_permitted none r = true
role_permitted (some []) r = true
role_permitted (some (x ∷ xs)) r = has_role (x ∷ xs) r

abbrev pub sub_of : Option JwtPayload → Claim
sub_of none = Claim.absent
sub_of (some p) = p.sub

abbrev pub tenant_id_of : Option JwtPayload → Claim
tenant_id_of none = Claim.absent
tenant_id_of (some p) = p.tenant_id

-- `RequestContextService.setTenant`, in the store of the request, where there is one
unfoldable pub set_tenant : Context → Action GuardError (Option RequestContext) ⊤
set_tenant tenant none = (err request_context_unavailable, none)
set_tenant tenant (some c) = (ok tt, some (record c { tenant = some tenant }))

-- `TenantContextService.active`
unfoldable pub active : Option RequestContext → Result GuardError Context
active none = err tenant_context_unavailable
active (some c) = of_tenant c.tenant
  where
    of_tenant : Option Context → Result GuardError Context
    of_tenant none = err tenant_context_unavailable
    of_tenant (some t) = ok t

-- `trim` is the language's, and `key_of` is the identifier that a text spells.
module _ (trim : Text → Text) (key_of : Text → Key) (db : Client Membership) where
  -- `requiredClaim`
  unfoldable pub required_claim : Claim → Result GuardError Key
  required_claim Claim.absent = err claim_required
  required_claim not_text = err claim_required
  required_claim (text v) = if is_empty (trim v) then err claim_required else ok (key_of v)

  abbrev pub admit : Route → Option Membership → Action GuardError (Option RequestContext) Bool
  admit route none c = (err membership_required, c)
  admit route (some m) c =
      if role_permitted route.required_membership_roles m.role
      then (set_tenant
              (record { tenant_id = m.tenant_id; user_id = m.user_id; membership_role = m.role })
            >> pure true)
          c
      else (err role_not_permitted, c)

  -- From the claims on.
  unfoldable pub admit_member :
      Route
      → List Tenant
      → List Membership
      → Key
      → Key
      → Action GuardError (Option RequestContext) Bool
  unfolding set_tenant
  admit_member route tenants memberships user tenant =
      admit route (db.find_first (active_membership tenant user tenants) memberships)

  -- `canActivate`
  unfoldable pub can_activate :
      Route
      → Option JwtPayload
      → List Tenant
      → List Membership
      → Action GuardError (Option RequestContext) Bool
  unfolding required_claim admit_member
  can_activate route payload tenants memberships =
      if route.is_public
      then pure true
      else if route.is_tenant_optional
      then pure true
      else (lift (required_claim (sub_of payload)) >>= λ user.
          lift (required_claim (tenant_id_of payload)) >>= λ tenant.
          admit_member route tenants memberships user tenant)
