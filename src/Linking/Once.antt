-- ===== src/Linking/Once.antt =====
-- A token links once.
use mathlib.Core.Path.{subst}
use wctm.Prelude.{
  ◌≡◌, refl, sym, ◌∙◌, inl, inr, Date, Bool, true, false, ◌&&◌, ◌||◌, some, Bool-cases,
  Option-cases, is_some, or_else, arith, Result, ok, err, roll_back,
}
use wctm.Database.Keys.{HasKeys, find_first-update_many}
use wctm.Linking.{
  LinkToken, Tables, AuthorizationStatus, RedeemResult, linked, Error, unique_violation,
  write_conflict, unauthenticated, user_not_found, one_tenant_required, one_store_required,
  inactive, tenant_not_found, service_unavailable, RedeemInput, has_hash, of_telegram_user, of_user,
  in_chat, consumable, consume, Database, NewIds, resolve_context, conflicting_accounts,
  telegram_identity_conflict, saas_identity_conflict, same_redemption, open_for, redeem_fresh,
  redeem_token, redeem_in_transaction, caught, redeem,
}
use wctm.Linking.Tokens.{IsLinked, Redeemed, token-Redeemed}

module _ (db : Database) (ids : NewIds) (now resolved_at : Date) (input : RedeemInput) where
  -- What the caller of the transaction sees where it has linked.
  redeem_ran :
      (refused : Bool) (c : AuthorizationStatus) (t : Tables)
      → IsLinked (redeem db ids now resolved_at input refused t).0 c
      → IsLinked (redeem_in_transaction db ids now resolved_at input t).0 c
        × ((redeem db ids now resolved_at input refused t).1
            ≡ (redeem_in_transaction db ids now resolved_at input t).1)
  unfolding redeem
  redeem_ran true c t h = absurd (cc (h))
  redeem_ran false c t h = ran (redeem_in_transaction db ids now resolved_at input t) h
    where
      ran :
          (r : Result Error RedeemResult × Tables)
          → IsLinked (caught db ids now resolved_at input (roll_back t r)).0 c
          → IsLinked r.0 c × ((caught db ids now resolved_at input (roll_back t r)).1 ≡ r.1)
      ran (ok x, u) g = (g, refl)
      ran (err unique_violation, u) g = absurd (cc (g))
      ran (err write_conflict, u) g = absurd (cc (g))
      ran (err unauthenticated, u) g = absurd (cc (g))
      ran (err user_not_found, u) g = absurd (cc (g))
      ran (err one_tenant_required, u) g = absurd (cc (g))
      ran (err one_store_required, u) g = absurd (cc (g))
      ran (err (inactive e), u) g = absurd (cc (g))
      ran (err tenant_not_found, u) g = absurd (cc (g))
      ran (err service_unavailable, u) g = absurd (cc (g))

  -- A redemption that links answers with the status of the user that the token was issued to. Either
  -- the token had been consumed and nothing changes: then there is an account, not deleted, of the
  -- Telegram user and of the token's user, whose last redemption was by this very update, and the chat
  -- is open for it. Or the token had not been consumed and had not run out, the user's Tenant is
  -- entitled and has its one Store, and the token is consumed.
  pub redeem-Redeemed :
      (refused : Bool) (c : AuthorizationStatus) (t : Tables)
      → IsLinked (redeem db ids now resolved_at input refused t).0 c
      → (k : LinkToken) × (db.tokens.find_first (has_hash input.token_hash) t.tokens ≡ some k)
        × (resolve_context db k.user_id resolved_at t ≡ ok c)
        × Redeemed db ids now resolved_at input k c t
            (redeem db ids now resolved_at input refused t).1
  unfolding redeem_in_transaction
  redeem-Redeemed refused c t h =
      let (g, same) = redeem_ran refused c t h in
      elim (Option-cases (db.tokens.find_first (has_hash input.token_hash) t.tokens)) [
        | inl n ↦ absurd (cc (let f = rw (n, redeem_in_transaction) at g in f))
        | inr (k, n) ↦
            let (r, q) =
              token-Redeemed db ids now resolved_at input k c t
                (rw (n, redeem_in_transaction) at g) in
            (k, n, r, rw (same, n, redeem_in_transaction) q)
      ]

  caught_keeps :
      (r : Result Error RedeemResult × Tables) → (caught db ids now resolved_at input r).1 ≡ r.1
  caught_keeps (ok x, u) = refl
  caught_keeps (err unique_violation, u) = refl
  caught_keeps (err write_conflict, u) = refl
  caught_keeps (err unauthenticated, u) = refl
  caught_keeps (err user_not_found, u) = refl
  caught_keeps (err one_tenant_required, u) = refl
  caught_keeps (err one_store_required, u) = refl
  caught_keeps (err (inactive e), u) = refl
  caught_keeps (err tenant_not_found, u) = refl
  caught_keeps (err service_unavailable, u) = refl

  rolled_back_keeps :
      (t : Tables) (r : Result Error RedeemResult × Tables) → r.1 ≡ t → (roll_back t r).1 ≡ t
  rolled_back_keeps t (ok x, u) h = h
  rolled_back_keeps t (err e, u) h = refl

  token_unchanged :
      (k : LinkToken) (t : Tables)
      → is_some k.consumed_at ≡ true
      → (redeem_token db ids now resolved_at input k t).1 ≡ t
  unfolding redeem_token redeem_fresh
  token_unchanged k t e =
      let by_telegram =
        db.accounts.find_first (of_telegram_user input.telegram_user_id) t.accounts in
      let by_user = db.accounts.find_first (of_user k.user_id) t.accounts in
      let existing = or_else by_user by_telegram in
      elim (Bool-cases (
        conflicting_accounts db by_telegram by_user
        || telegram_identity_conflict db by_telegram by_user k.user_id
        || saas_identity_conflict db by_user input.telegram_user_id)) [
          | inl y ↦ rw (y, redeem_token) refl
          | inr n ↦
              elim (Bool-cases (
                same_redemption db existing k input
                && open_for db (db.chats.find_first (in_chat input.telegram_chat_id) t.chats)
                    existing)) [
                      | inl y ↦ rw (n, y, redeem_token) refl
                      | inr m ↦ rw (n, m, redeem_token) (rw (e, redeem_fresh) refl)
                    ]
        ]

  -- A token that is consumed changes nothing any more.
  pub consumed_unchanged :
      (refused : Bool) (k : LinkToken) (t : Tables)
      → db.tokens.find_first (has_hash input.token_hash) t.tokens ≡ some k
      → is_some k.consumed_at ≡ true
      → (redeem db ids now resolved_at input refused t).1 ≡ t
  unfolding redeem redeem_in_transaction
  consumed_unchanged true k t n e = refl
  consumed_unchanged false k t n e =
      let r = redeem_in_transaction db ids now resolved_at input t in
      let same : r.1 ≡ t = rw (n, redeem_in_transaction) (token_unchanged k t e) in
      caught_keeps (roll_back t r) ∙ rolled_back_keeps t r same

  -- After a redemption that links, a read of the token finds it consumed.
  linked_consumed :
      (refused : Bool) (c : AuthorizationStatus) (t : Tables)
      → HasKeys (λ k. k.token_hash) t.tokens
      → IsLinked (redeem db ids now resolved_at input refused t).0 c
      → (k : LinkToken) × (db.tokens.find_first
            (has_hash input.token_hash)
            (redeem db ids now resolved_at input refused t).1.tokens
          ≡ some k)
        × (is_some k.consumed_at ≡ true)
  unfolding consume
  linked_consumed refused c t keys h =
      let (k, n, r, q) = redeem-Redeemed refused c t h in
      let (m, e) = db.tokens.found (has_hash input.token_hash) t.tokens k n in
      elim q [
        | inl (y, same, repeated) ↦ (k, rw same n, y)
        | inr (fresh, unexpired, s, tenant, store, tokens) ↦ (
          consume now k,
          rw tokens (
              find_first-update_many db.tokens (has_hash input.token_hash) (consumable k now)
                (consume now) t.tokens k m e (ground arith) (λ x f. f)
                (λ x o f. keys x k o m (ground arith))),
          refl,
        )
      ]

-- Where no two tokens have the same hash: once a redemption of a token has linked, no redemption of
-- the same token, by any update of any chat of any Telegram user and at any time, changes anything.
pub redeem_once :
    (db : Database) (ids ids' : NewIds) (now resolved_at now' resolved_at' : Date)
    (input input' : RedeemInput) (refused refused' : Bool) (c : AuthorizationStatus) (t : Tables)
    → HasKeys (λ k. k.token_hash) t.tokens
    → (redeem db ids now resolved_at input refused t).0 ≡ ok (linked c)
    → input'.token_hash ≡ input.token_hash
    → let u = (redeem db ids now resolved_at input refused t).1 in
      (redeem db ids' now' resolved_at' input' refused' u).1 ≡ u
redeem_once db ids ids' now resolved_at now' resolved_at' input input' refused refused' c t keys h
      same =
    let u = (redeem db ids now resolved_at input refused t).1 in
    let (k, n, e) = linked_consumed db ids now resolved_at input refused c t keys h in
    consumed_unchanged db ids' now' resolved_at' input' refused' k u
      (subst (λ x. db.tokens.find_first (has_hash x) u.tokens ≡ some k) (sym same) n) e
