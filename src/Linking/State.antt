-- ===== src/Linking/State.antt =====
-- The rows that the linking service reads and writes, and its results.
use wctm.Prelude.{Key, Date, Bool, false, not, ◌&&◌, Option, none, some, List, ◌==◌, leb, is_some}
use wctm.Entitlements.{Tenant, Summary, EffectiveState}

-- `TelegramLinkToken`
pub record LinkToken : Type 0 where
  pub id : Key
  pub user_id : Key
  pub token_hash : Key
  pub expires_at : Date
  pub consumed_at : Option Date

-- `TelegramAccount`
pub record Account : Type 0 where
  pub id : Key
  pub telegram_user_id : Key
  pub user_id : Key
  pub last_redeem_update_id : Option Key
  pub last_unlink_update_id : Option Key
  pub deleted_at : Option Date

-- `TelegramChatAuthorization`; the type of a chat that is linked is always a private one
pub record ChatAuthorization : Type 0 where
  pub id : Key
  pub telegram_account_id : Key
  pub telegram_chat_id : Key
  pub active_tenant_id : Option Key
  pub active_store_id : Option Key
  pub revoked_at : Option Date

-- `Membership`, what of it `resolveContext` reads
pub record Membership : Type 0 where
  pub tenant_id : Key
  pub user_id : Key
  pub deleted_at : Option Date

-- `Store`, what of it `resolveContext` reads
pub record StoreRow : Type 0 where
  pub id : Key
  pub tenant_id : Key
  pub is_active : Bool
  pub deleted_at : Option Date
  pub last_healthy_at : Option Date
  pub webhook_secret_encrypted : Option Key
  pub webhook_endpoint_key : Option Key

pub record Tables : Type 0 where
  pub users : List Key
  pub tenants : List Tenant
  pub memberships : List Membership
  pub stores : List StoreRow
  pub tokens : List LinkToken
  pub accounts : List Account
  pub chats : List ChatAuthorization

-- `membershipState`
pub data MembershipState : Type 0 where
  active none_active : MembershipState

-- `TelegramAuthorizationStatus`
pub record AuthorizationStatus : Type 0 where
  pub linked : Bool
  pub authorized : Bool
  pub membership_state : MembershipState
  pub active_tenant_id : Option Key
  pub active_store_id : Option Key
  pub tenant_selection_required : Bool
  pub store_selection_required : Bool
  pub selection_required : Bool
  pub entitlement : Option Summary

-- `TelegramRedeemResult`
pub data RedeemResult : Type 0 where
  invalid_or_expired : RedeemResult
  entitlement_inactive : Summary → RedeemResult
  linked : AuthorizationStatus → RedeemResult

-- `TelegramUnlinkResult`
pub data UnlinkResult : Type 0 where
  confirmation_required unauthorized unlinked : UnlinkResult

-- The exceptions that the service throws, and the two errors of the database that it looks at
-- (`P2002` and `P2034`).
pub data Error : Type 0 where
  unauthenticated user_not_found : Error
  one_tenant_required one_store_required : Error
  inactive : EffectiveState → Error
  tenant_not_found service_unavailable : Error
  unique_violation write_conflict : Error

-- `TelegramRedeemDto`, with the hash of its token
pub record RedeemInput : Type 0 where
  pub token_hash : Key
  pub telegram_user_id : Key
  pub telegram_chat_id : Key
  pub update_id : Key

-- `TelegramUnlinkDto`
pub record UnlinkInput : Type 0 where
  pub confirmed : Bool
  pub telegram_user_id : Key
  pub telegram_chat_id : Key
  pub update_id : Key

-- `unauthorizedStatus`
unfoldable pub unauthorized_status : AuthorizationStatus
unauthorized_status = record {
  linked = false;
  authorized = false;
  membership_state = MembershipState.none_active;
  active_tenant_id = none;
  active_store_id = none;
  tenant_selection_required = false;
  store_selection_required = false;
  selection_required = false;
  entitlement = none;
}

-- The `where` of the reads and of the writes.
abbrev pub has_hash : Key → LinkToken → Bool
has_hash h k = k.token_hash == h

abbrev pub of_telegram_user : Key → Account → Bool
of_telegram_user u a = a.telegram_user_id == u

abbrev pub of_user : Key → Account → Bool
of_user u a = a.user_id == u

abbrev pub in_chat : Key → ChatAuthorization → Bool
in_chat c x = x.telegram_chat_id == c

-- A chat of an account, by its relation.
abbrev pub chat_of : Account → Key → ChatAuthorization → Bool
chat_of a c x = x.telegram_account_id == a.id && x.telegram_chat_id == c

abbrev pub open_chat_of : Account → ChatAuthorization → Bool
open_chat_of a x = x.telegram_account_id == a.id && not (is_some x.revoked_at)

abbrev pub consumable : LinkToken → Date → LinkToken → Bool
consumable k now x = x.id == k.id && not (is_some x.consumed_at) && not (leb x.expires_at now)

unfoldable pub consume : Date → LinkToken → LinkToken
consume now k = record k { consumed_at = some now }

unfoldable pub relink : RedeemInput → Key → Account → Account
relink input user a = record a {
  telegram_user_id = input.telegram_user_id;
  user_id = user;
  deleted_at = none;
  last_redeem_update_id = some input.update_id;
}

unfoldable pub authorize : AuthorizationStatus → ChatAuthorization → ChatAuthorization
authorize s x = record x {
  revoked_at = none;
  active_tenant_id = s.active_tenant_id;
  active_store_id = s.active_store_id;
}

unfoldable pub revoke : Date → ChatAuthorization → ChatAuthorization
revoke at x = record x { revoked_at = some at; active_tenant_id = none; active_store_id = none }

unfoldable pub unlink_account : Date → Key → Account → Account
unlink_account at update a = record a { deleted_at = some at; last_unlink_update_id = some update }
