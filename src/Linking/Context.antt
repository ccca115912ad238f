-- ===== src/Linking/Context.antt =====
-- `resolveContext` and `issueToken` of `TelegramLinkingService`. The instants at which a call reads the
-- clock, itself and for the entitlement, are arguments. A token is known by its hash.
use wctm.Prelude.{
  ℕ, ◌+◌, ◌*◌, Key, Date, Bool, true, false, not, ◌&&◌, ◌||◌, Option, none, some, List, [], ◌∷◌,
  ◌==◌, is_some, take, if◌then◌else◌, Result, ok, err, Action, ⊤, pure, throw, lift, get, ◌>>=◌,
  ◌>>◌,
}
use wctm.Database.Methods.{Client}
use wctm.Entitlements
use wctm.Entitlements.{Tenant, Summary, EffectiveState, is_active, resolve_tenant}
use wctm.Linking.State.{
  LinkToken, Account, ChatAuthorization, Membership, StoreRow, Tables, MembershipState,
  AuthorizationStatus, Error, unauthenticated, user_not_found, one_tenant_required,
  one_store_required, inactive, tenant_not_found, unique_violation,
}

-- The client of each table.
pub record Database : Type 0 where
  pub tenants : Client Tenant
  pub memberships : Client Membership
  pub stores : Client StoreRow
  pub tokens : Client LinkToken
  pub accounts : Client Account
  pub chats : Client ChatAuthorization

abbrev pub tenant_live : Key → List Tenant → Bool
tenant_live id [] = false
tenant_live id (t ∷ ts) = (t.id == id && not (is_some t.deleted_at)) || tenant_live id ts

abbrev pub live_membership : Key → List Tenant → Membership → Bool
live_membership user tenants m =
    m.user_id == user && not (is_some m.deleted_at) && tenant_live m.tenant_id tenants

abbrev pub live_store : Key → List Tenant → StoreRow → Bool
live_store tenant tenants s =
    s.tenant_id == tenant
    && s.is_active
    && not (is_some s.deleted_at)
    && tenant_live s.tenant_id tenants

-- `activeTenantId`: the Tenant of the only membership
abbrev pub only_tenant : List Membership → Option Key
only_tenant [] = none
only_tenant (m ∷ []) = some m.tenant_id
only_tenant (m ∷ n ∷ ms) = none

abbrev pub is_healthy : StoreRow → Bool
is_healthy s =
    is_some s.last_healthy_at
    && is_some s.webhook_secret_encrypted
    && is_some s.webhook_endpoint_key

-- The only Store, if it is healthy.
abbrev pub only_store : List StoreRow → Option Key
only_store [] = none
only_store (s ∷ []) = if is_healthy s then some s.id else none
only_store (s ∷ r ∷ ss) = none

abbrev pub has_membership : List Membership → Bool
has_membership [] = false
has_membership (m ∷ ms) = true

-- The status that `resolveContext` makes of what it has read.
unfoldable pub context_of :
    List Membership → Option Key → Option Key → Option Summary → AuthorizationStatus
context_of memberships tenant store entitlement = record {
  linked = true;
  authorized = has_membership memberships;
  membership_state =
      if has_membership memberships then MembershipState.active else MembershipState.none_active;
  active_tenant_id = if is_some store then tenant else none;
  active_store_id = store;
  tenant_selection_required = not (is_some tenant);
  store_selection_required = is_some tenant && not (is_some store);
  selection_required = not (is_some tenant) || (is_some tenant && not (is_some store));
  entitlement = entitlement;
}

module _ (db : Database) where
  -- `resolveContext`
  unfoldable pub resolve_context : Key → Date → Tables → Result Error AuthorizationStatus
  unfolding context_of resolve_tenant
  resolve_context user now t =
      with_tenant (take 2 (db.memberships.find_many (live_membership user t.tenants) t.memberships))
    where
      with_entitlement :
          List Membership
          → Key
          → Result Entitlements.Error Summary
          → Result Error AuthorizationStatus
      with_entitlement ms tenant (err e) = err tenant_not_found
      with_entitlement ms tenant (ok s) =
          let store =
            only_store (take 2 (db.stores.find_many (live_store tenant t.tenants) t.stores)) in
          ok (context_of ms (some tenant) store (some s))

      by_tenant : List Membership → Option Key → Result Error AuthorizationStatus
      by_tenant ms none = ok (context_of ms none none none)
      by_tenant ms (some tenant) =
          with_entitlement ms tenant (resolve_tenant db.tenants tenant now t.tenants)

      with_tenant : List Membership → Result Error AuthorizationStatus
      with_tenant ms = by_tenant ms (only_tenant ms)

  -- `context.entitlement && effectiveState !== 'ACTIVE'`
  abbrev pub inactive_state : Option Summary → Option EffectiveState
  inactive_state none = none
  inactive_state (some s) = if is_active s.effective_state then none else some s.effective_state

  abbrev pub eligible_entitlement : AuthorizationStatus → Option EffectiveState → Result Error ⊤
  eligible_entitlement c (some e) = err (inactive e)
  eligible_entitlement c none = if is_some c.active_store_id then ok tt else err one_store_required

  abbrev pub eligible_context : Result Error AuthorizationStatus → Result Error ⊤
  eligible_context (err e) = err e
  eligible_context (ok c) =
      if c.tenant_selection_required
      then err one_tenant_required
      else eligible_entitlement c (inactive_state c.entitlement)

  -- `assertLinkingEligible`
  unfoldable pub assert_linking_eligible : Key → Date → Tables → Result Error ⊤
  unfolding resolve_context
  assert_linking_eligible user now t = eligible_context (resolve_context user now t)

  abbrev pub has_user : Key → List Key → Bool
  has_user u [] = false
  has_user u (x ∷ xs) = x == u || has_user u xs

  -- The row of `issueToken`, whose user must exist.
  unfoldable pub create_token : LinkToken → Action Error Tables ⊤
  create_token k t =
      if has_user k.user_id t.users
      then stored (db.tokens.create k t.tokens)
      else (err user_not_found, t)
    where
      stored : Option (List LinkToken) → Result Error ⊤ × Tables
      stored none = (err unique_violation, t)
      stored (some rows) = (ok tt, record t { tokens = rows })

  abbrev pub new_token : Key → Key → Key → Date → LinkToken
  new_token id user hash expires_at = record {
    id = id;
    user_id = user;
    token_hash = hash;
    expires_at = expires_at;
    consumed_at = none;
  }

  -- `issueToken`, for the subject of a payload; it answers with the expiry of the token
  unfoldable pub issue_token : Option Key → Key → Key → ℕ → Date → Date → Action Error Tables Date
  unfolding assert_linking_eligible create_token
  issue_token none id hash ttl_seconds resolved_at now = throw unauthenticated
  issue_token (some user) id hash ttl_seconds resolved_at now = do
    t ← get
    lift (assert_linking_eligible user resolved_at t)
    create_token (new_token id user hash (now + ttl_seconds * 1000))
    pure (now + ttl_seconds * 1000)
