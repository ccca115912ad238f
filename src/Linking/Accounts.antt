-- ===== src/Linking/Accounts.antt =====
-- An account that was unlinked.
use wctm.Prelude.{
  ◌≡◌, refl, inl, inr, Key, Date, Bool, true, not, ◌&&◌, ◌||◌, some, Bool-cases, Option-cases, ◌==◌,
  is_some, holds, arith, Result, ok, err, roll_back,
}
use wctm.Database.Keys.{HasKeys, find_first-update_many}
use wctm.Linking.{
  Account, Tables, UnlinkResult, unlinked, Error, UnlinkInput, unauthorized_status,
  of_telegram_user, chat_of, unlink_account, Database, only_own, status, unlink_found,
  unlink_in_transaction, unlink,
}

module _ (db : Database) where
  -- An account that is deleted has no status but the one of a stranger.
  deleted_status :
      (telegram_user chat : Key) (later : Date) (a : Account) (t : Tables)
      → db.accounts.find_first (of_telegram_user telegram_user) t.accounts ≡ some a
      → is_some a.deleted_at ≡ true
      → status db telegram_user chat later t ≡ ok unauthorized_status
  unfolding status
  deleted_status telegram_user chat later a t n e = rw (n, e, status) refl

  in_transaction-deleted :
      (input : UnlinkInput) (now : Date) (t : Tables)
      → HasKeys (λ a. a.telegram_user_id) t.accounts
      → (unlink_in_transaction db input now t).0 ≡ ok unlinked
      → (a : Account) × (db.accounts.find_first
            (of_telegram_user input.telegram_user_id)
            (unlink_in_transaction db input now t).1.accounts
          ≡ some a)
        × (is_some a.deleted_at ≡ true)
  unfolding unlink_in_transaction unlink_found unlink_account
  in_transaction-deleted input now t keys h =
      let q = of_telegram_user input.telegram_user_id in
      elim (Option-cases (db.accounts.find_first q t.accounts)) [
        | inl n ↦ absurd (cc (let g = rw (n, unlink_in_transaction) at h in g))
        | inr (a, n) ↦
            let own =
              only_own db a (db.chats.find_many (chat_of a input.telegram_chat_id) t.chats) in
            let (m, e) = db.accounts.found q t.accounts a n in
            elim (Bool-cases
              (holds a.last_unlink_update_id input.update_id && is_some a.deleted_at && own)) [
                | inl y ↦ (a, rw (n, y, unlink_in_transaction) n, ground arith)
                | inr y ↦ elim (Bool-cases (is_some a.deleted_at || not own)) [
                  | inl d ↦ absurd (cc (let g = rw (n, y, d, unlink_in_transaction) at h in g))
                  | inr d ↦ (
                    unlink_account now input.update_id a,
                    rw (n, y, d, unlink_in_transaction)
                        (find_first-update_many db.accounts q (λ x. x.id == a.id)
                          (unlink_account now input.update_id) t.accounts a m e (ground arith)
                          (λ x f. f) (λ x o f. keys x a o m (ground arith))),
                    refl,
                  )
                ]
              ]
      ]

  -- Where no two accounts have the same Telegram user: after a call of `unlink` that answers that the
  -- account is unlinked, `status` answers for that Telegram user, in any chat and at any time, as it
  -- does for a stranger.
  pub status-unlink :
      (refused : Bool) (input : UnlinkInput) (now : Date) (t : Tables) (chat : Key) (later : Date)
      → HasKeys (λ a. a.telegram_user_id) t.accounts
      → (unlink db refused input now t).0 ≡ ok unlinked
      → status db input.telegram_user_id chat later (unlink db refused input now t).1
        ≡ ok unauthorized_status
  unfolding unlink
  status-unlink refused input now t chat later keys h = elim (Bool-cases input.confirmed) [
    | inr n ↦ absurd (cc (let g = rw (n, unlink) at h in g))
    | inl y ↦ elim (Bool-cases refused) [
      | inl r ↦ absurd (cc (let g = rw (y, r, unlink) at h in g))
      | inr r ↦
          rw (y, r, unlink)
            (ran (unlink_in_transaction db input now t) (in_transaction-deleted input now t keys)
              (rw (y, r, unlink) at h))
    ]
  ]
    where
      ran :
          (r : Result Error UnlinkResult × Tables)
          → (r.0 ≡ ok unlinked
              → (a : Account) × (db.accounts.find_first
                    (of_telegram_user input.telegram_user_id)
                    r.1.accounts
                  ≡ some a)
                × (is_some a.deleted_at ≡ true))
          → (roll_back t r).0 ≡ ok unlinked
          → status db input.telegram_user_id chat later (roll_back t r).1 ≡ ok unauthorized_status
      ran (ok x, u) deleted g =
          let (a, n, e) = deleted g in deleted_status input.telegram_user_id chat later a u n e
      ran (err x, u) deleted g = absurd (cc (g))
