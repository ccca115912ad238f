-- ===== src/Linking/Redemption.antt =====
-- `redeem` of `TelegramLinkingService`. The instants at which a call reads the clock, itself and for the
-- entitlement, are arguments, and so is whether the database refuses the transaction as a conflict of
-- concurrent ones (`P2034`).
use wctm.Prelude.{
  Key, Date, Bool, true, false, not, ◌&&◌, ◌||◌, Option, none, some, List, ◌==◌, leb, is_some,
  holds, or_else, if◌then◌else◌, Result, ok, err, Action, ⊤, pure, transaction, ◌>>=◌, ◌>>◌,
}
use wctm.Entitlements.{Summary, is_active}
use wctm.Linking.State.{
  LinkToken, Account, ChatAuthorization, Tables, AuthorizationStatus, RedeemResult,
  invalid_or_expired, entitlement_inactive, linked, Error, service_unavailable, unique_violation,
  write_conflict, RedeemInput, has_hash, of_telegram_user, of_user, in_chat, consumable, consume,
  relink, authorize,
}
use wctm.Linking.Context.{Database, resolve_context}

module _ (db : Database) where
  -- `conflictingAccounts`
  abbrev pub conflicting_accounts : Option Account → Option Account → Bool
  conflicting_accounts (some a) (some b) = not (a.id == b.id)
  conflicting_accounts (some a) none = false
  conflicting_accounts none b = false

  -- `telegramIdentityConflict`: only an unlinked identity is released for another user
  abbrev pub telegram_identity_conflict : Option Account → Option Account → Key → Bool
  telegram_identity_conflict none by_user user = false
  telegram_identity_conflict (some a) by_user user =
      not (a.user_id == user) && not (is_some a.deleted_at && not (is_some by_user))

  -- `saasIdentityConflict`
  abbrev pub saas_identity_conflict : Option Account → Key → Bool
  saas_identity_conflict none telegram_user = false
  saas_identity_conflict (some b) telegram_user = not (b.telegram_user_id == telegram_user)

  -- The account has redeemed this very update before.
  abbrev pub same_redemption : Option Account → LinkToken → RedeemInput → Bool
  same_redemption none k input = false
  same_redemption (some a) k input =
      is_some k.consumed_at
      && a.telegram_user_id == input.telegram_user_id
      && a.user_id == k.user_id
      && holds a.last_redeem_update_id input.update_id
      && not (is_some a.deleted_at)

  -- The chat is the account's, and open.
  abbrev pub open_for : Option ChatAuthorization → Option Account → Bool
  open_for none a = false
  open_for (some x) none = false
  open_for (some x) (some a) = x.telegram_account_id == a.id && not (is_some x.revoked_at)

  -- `existingChat.telegramAccountId !== existingAccount?.id`
  abbrev pub other_account : Option ChatAuthorization → Option Account → Bool
  other_account none a = false
  other_account (some x) none = true
  other_account (some x) (some a) = not (x.telegram_account_id == a.id)

  abbrev pub linked_result : Result Error AuthorizationStatus → Result Error RedeemResult
  linked_result (err e) = err e
  linked_result (ok c) = ok (linked c)

  -- The write of the account; it answers with its identifier.
  unfoldable pub write_account : RedeemInput → Key → Key → Option Account → Action Error Tables Key
  unfolding relink
  write_account input user new_id (some a) t = (
    ok a.id,
    record t {
      accounts = (db.accounts.update_many (λ x. x.id == a.id) (relink input user) t.accounts).0;
    },
  )
  write_account input user new_id none t = created (
      db.accounts.create
        (record {
          id = new_id;
          telegram_user_id = input.telegram_user_id;
          user_id = user;
          last_redeem_update_id = some input.update_id;
          last_unlink_update_id = none;
          deleted_at = none;
        })
        t.accounts)
    where
      created : Option (List Account) → Result Error Key × Tables
      created none = (err unique_violation, t)
      created (some rows) = (ok new_id, record t { accounts = rows })

  -- The write of the chat.
  unfoldable pub write_chat :
      RedeemInput
      → AuthorizationStatus
      → Key
      → Key
      → Option ChatAuthorization
      → Action Error Tables ⊤
  unfolding authorize
  write_chat input c account new_id (some x) t = (
    ok tt,
    record t {
      chats = (db.chats.update_many (in_chat input.telegram_chat_id) (authorize c) t.chats).0;
    },
  )
  write_chat input c account new_id none t = created (
      db.chats.create
        (record {
          id = new_id;
          telegram_account_id = account;
          telegram_chat_id = input.telegram_chat_id;
          active_tenant_id = c.active_tenant_id;
          active_store_id = c.active_store_id;
          revoked_at = none;
        })
        t.chats)
    where
      created : Option (List ChatAuthorization) → Result Error ⊤ × Tables
      created none = (err unique_violation, t)
      created (some rows) = (ok tt, record t { chats = rows })

-- The identifiers that a redemption may need.
pub record NewIds : Type 0 where
  pub account : Key
  pub chat : Key

module _ (db : Database) (ids : NewIds) (now resolved_at : Date) (input : RedeemInput) where
  -- What is written once the token is consumed.
  unfoldable pub link :
      LinkToken
      → Option Account
      → Option ChatAuthorization
      → AuthorizationStatus
      → Action Error Tables RedeemResult
  unfolding write_account write_chat
  link k existing chat c = do
    account ← write_account db input k.user_id ids.account existing
    write_chat db input c account ids.chat chat
    pure (linked c)

  -- The token is consumed, if nobody else has done so.
  unfoldable pub consume_and_link :
      LinkToken
      → Option Account
      → Option ChatAuthorization
      → AuthorizationStatus
      → Action Error Tables RedeemResult
  unfolding link consume
  consume_and_link k existing chat c t =
      let w = db.tokens.update_many (consumable k now) (consume now) t.tokens in
      let u = record t { tokens = w.0 } in
      if w.1 == 1 then link k existing chat c u else (ok invalid_or_expired, u)

  -- From the check of the chat on.
  unfoldable pub redeem_context :
      LinkToken → Option Account → AuthorizationStatus → Action Error Tables RedeemResult
  unfolding consume_and_link
  redeem_context k existing c t =
      let chat = db.chats.find_first (in_chat input.telegram_chat_id) t.chats in
      if is_some c.active_tenant_id
        && is_some c.active_store_id
        && not (other_account db chat existing)
      then consume_and_link k existing chat c t
      else (ok invalid_or_expired, t)

  abbrev pub redeem_entitled :
      LinkToken
      → Option Account
      → AuthorizationStatus
      → Option Summary
      → Action Error Tables RedeemResult
  redeem_entitled k existing c none t = (ok invalid_or_expired, t)
  redeem_entitled k existing c (some s) t =
      if is_active s.effective_state
      then redeem_context k existing c t
      else (ok (entitlement_inactive s), t)

  abbrev pub redeem_resolved :
      LinkToken
      → Option Account
      → Result Error AuthorizationStatus
      → Action Error Tables RedeemResult
  redeem_resolved k existing (err e) t = (err e, t)
  redeem_resolved k existing (ok c) t = redeem_entitled k existing c c.entitlement t

  -- A redemption that is no repetition.
  unfoldable pub redeem_fresh : LinkToken → Option Account → Action Error Tables RedeemResult
  unfolding redeem_context
  redeem_fresh k existing t =
      if is_some k.consumed_at || leb k.expires_at now
      then (ok invalid_or_expired, t)
      else redeem_resolved k existing (resolve_context db k.user_id resolved_at t) t

  -- `redeemInTransaction`, of a token that was found
  unfoldable pub redeem_token : LinkToken → Action Error Tables RedeemResult
  unfolding redeem_fresh
  redeem_token k t =
      let by_telegram =
        db.accounts.find_first (of_telegram_user input.telegram_user_id) t.accounts in
      let by_user = db.accounts.find_first (of_user k.user_id) t.accounts in
      let existing = or_else by_user by_telegram in
      if conflicting_accounts db by_telegram by_user
        || telegram_identity_conflict db by_telegram by_user k.user_id
        || saas_identity_conflict db by_user input.telegram_user_id
      then (ok invalid_or_expired, t)
      else if same_redemption db existing k input
          && open_for db (db.chats.find_first (in_chat input.telegram_chat_id) t.chats) existing
      then (linked_result db (resolve_context db k.user_id resolved_at t), t)
      else redeem_fresh k existing t

  unfoldable pub redeem_in_transaction : Action Error Tables RedeemResult
  unfolding redeem_token
  redeem_in_transaction t = with_token (db.tokens.find_first (has_hash input.token_hash) t.tokens) t
    where
      with_token : Option LinkToken → Action Error Tables RedeemResult
      with_token none u = (ok invalid_or_expired, u)
      with_token (some k) u = redeem_token k u

  -- The `catch` of `redeem`, with `isExpectedLinkConflict`
  abbrev pub caught : Result Error RedeemResult × Tables → Result Error RedeemResult × Tables
  caught (ok r, t) = (ok r, t)
  caught (err unique_violation, t) = (ok invalid_or_expired, t)
  caught (err write_conflict, t) = (err service_unavailable, t)
  caught (err e, t) = (err e, t)

  -- `redeem`
  unfoldable pub redeem : Bool → Action Error Tables RedeemResult
  unfolding redeem_in_transaction
  redeem refused t =
      caught (if refused then (err write_conflict, t) else transaction redeem_in_transaction t)
