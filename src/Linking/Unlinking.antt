-- ===== src/Linking/Unlinking.antt =====
-- `status` and `unlink` of `TelegramLinkingService`. The instant of a call is an argument, and so is
-- whether the database refuses the transaction as a conflict of concurrent ones (`P2034`).
use wctm.Prelude.{
  Key, Date, Bool, false, not, ◌&&◌, ◌||◌, Option, none, some, List, [], ◌∷◌, ◌==◌, is_some, holds,
  if◌then◌else◌, Result, ok, err, Action, transaction,
}
use wctm.Linking.State.{
  Account, ChatAuthorization, Tables, AuthorizationStatus, UnlinkResult, confirmation_required,
  unauthorized, unlinked, Error, write_conflict, UnlinkInput, unauthorized_status, of_telegram_user,
  chat_of, open_chat_of, revoke, unlink_account,
}
use wctm.Linking.Context.{Database, resolve_context}

module _ (db : Database) where
  -- The account's only authorization of the chat is its own.
  abbrev pub only_own : Account → List ChatAuthorization → Bool
  only_own a [] = false
  only_own a (x ∷ []) = x.telegram_account_id == a.id
  only_own a (x ∷ y ∷ xs) = false

  abbrev pub only_open : Account → List ChatAuthorization → Bool
  only_open a [] = false
  only_open a (x ∷ []) = x.telegram_account_id == a.id && not (is_some x.revoked_at)
  only_open a (x ∷ y ∷ xs) = false

  -- `status`
  unfoldable pub status : Key → Key → Date → Tables → Result Error AuthorizationStatus
  unfolding resolve_context unauthorized_status
  status telegram_user chat now t =
      of_account (db.accounts.find_first (of_telegram_user telegram_user) t.accounts)
    where
      of_account : Option Account → Result Error AuthorizationStatus
      of_account none = ok unauthorized_status
      of_account (some a) =
          if is_some a.deleted_at || not (only_open a (db.chats.find_many (chat_of a chat) t.chats))
          then ok unauthorized_status
          else resolve_context db a.user_id now t

  -- The two writes of `unlink`.
  unfoldable pub unlink_found : Account → UnlinkInput → Date → Tables → Tables
  unfolding revoke unlink_account
  unlink_found a input now t = record t {
    chats = (db.chats.update_many (open_chat_of a) (revoke now) t.chats).0;
    accounts =
        (db.accounts.update_many (λ x. x.id == a.id) (unlink_account now input.update_id)
          t.accounts).0;
  }

  -- The body of the transaction of `unlink`.
  unfoldable pub unlink_in_transaction : UnlinkInput → Date → Action Error Tables UnlinkResult
  unfolding unlink_found
  unlink_in_transaction input now t =
      of_account (db.accounts.find_first (of_telegram_user input.telegram_user_id) t.accounts)
    where
      of_account : Option Account → Result Error UnlinkResult × Tables
      of_account none = (ok unauthorized, t)
      of_account (some a) =
          let own = only_own a (db.chats.find_many (chat_of a input.telegram_chat_id) t.chats) in
          if holds a.last_unlink_update_id input.update_id && is_some a.deleted_at && own
          then (ok unlinked, t)
          else if is_some a.deleted_at || not own
          then (ok unauthorized, t)
          else (ok unlinked, unlink_found a input now t)

  -- `unlink`
  unfoldable pub unlink : Bool → UnlinkInput → Date → Action Error Tables UnlinkResult
  unfolding unlink_in_transaction
  unlink refused input now t =
      if input.confirmed
      then if refused
        then (err write_conflict, t)
        else transaction (unlink_in_transaction input now) t
      else (ok confirmation_required, t)
