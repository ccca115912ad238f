-- ===== src/Linking/Issued.antt =====
-- A token that was issued can be redeemed.
use mathlib.Core.Path.{subst}
use wctm.Prelude.{
  ℕ, ◌+◌, ◌*◌, ◌≡◌, ◌≢◌, ◌<◌, refl, sym, ap, ◌∙◌, inl, inr, ◌⊎◌, Key, Date, true, false, ◌||◌,
  Option, none, some, List, ◌∷◌, Memᴰ, Bool-cases, Option-cases, leb, is_some, arith, Result, ok,
  err, ⊤, take, roll_back,
}
use wctm.Database.Rows.{count_where, count_where_none}
use wctm.Database.Keys.{find_first_unique}
use wctm.Entitlements
use wctm.Entitlements.{Summary, EffectiveState, is_active, resolve_tenant}
use wctm.Linking.{
  LinkToken, Account, ChatAuthorization, Tables, AuthorizationStatus, RedeemResult, linked, Error,
  RedeemInput, has_hash, of_telegram_user, of_user, in_chat, consumable, consume, Database, NewIds,
  live_membership, live_store, only_tenant, only_store, context_of, resolve_context, inactive_state,
  eligible_context, assert_linking_eligible, has_user, create_token, new_token, issue_token,
  write_account, write_chat, link, consume_and_link, redeem_context, redeem_entitled, redeem_fresh,
  redeem_token, redeem_in_transaction, caught, redeem,
}

-- What the status of an eligible user says.
abbrev pub Eligible : AuthorizationStatus → Type 0
Eligible c =
    ((s : Summary) × (c.entitlement ≡ some s) × (is_active s.effective_state ≡ true))
    × (is_some c.active_tenant_id ≡ true)
    × (is_some c.active_store_id ≡ true)

is_some-some : {A : Type 0} {o : Option A} → is_some o ≡ true → (a : A) × (o ≡ some a)
is_some-some {o = none} h = cc
is_some-some {o = some a} h = (a, refl)

module _ (db : Database) where
  -- A status with a Store has a Tenant and its entitlement.
  abbrev Whole : Result Error AuthorizationStatus → Type 0
  Whole (err e) = Unit
  Whole (ok c) =
      (is_some c.active_store_id ≡ false)
      ⊎ ((is_some c.active_tenant_id ≡ true) × (is_some c.entitlement ≡ true))

  resolve_context-Whole :
      (user : Key) (now : Date) (t : Tables) → Whole (resolve_context db user now t)
  unfolding resolve_context context_of
  resolve_context-Whole user now t =
      let ms = take 2 (db.memberships.find_many (live_membership user t.tenants) t.memberships) in
      elim (Option-cases (only_tenant ms)) [
        | inl n ↦ rw (n, resolve_context) (inl refl)
        | inr (tenant, n) ↦ resolved n (resolve_tenant db.tenants tenant now t.tenants) refl
      ]
    where
      resolved :
          {tenant : Key}
          → only_tenant
              (take 2 (db.memberships.find_many (live_membership user t.tenants) t.memberships))
            ≡ some tenant
          → (r : Result Entitlements.Error Summary)
          → resolve_tenant db.tenants tenant now t.tenants ≡ r
          → Whole (resolve_context db user now t)
      resolved n (err e) m = rw (n, m, resolve_context) tt
      resolved {tenant} n (ok s) m =
          elim (Option-cases
            (only_store (take 2 (db.stores.find_many (live_store tenant t.tenants) t.stores)))) [
              | inl x ↦ rw (n, m, x, resolve_context) (inl refl)
              | inr (id, x) ↦ rw (n, m, x, resolve_context) (inr (refl, refl))
            ]

  eligible_lem :
      (c : AuthorizationStatus)
      → eligible_context db (ok c) ≡ ok tt
      → (is_some c.active_store_id ≡ true) × (inactive_state db c.entitlement ≡ none)
  eligible_lem c g = elim (Bool-cases c.tenant_selection_required) [
    | inl y ↦ cc (let f = rw y at g in f)
    | inr n ↦ elim (Option-cases (inactive_state db c.entitlement)) [
      | inr (e, i) ↦ cc (let f = rw (n, i) at g in f)
      | inl i ↦ elim (Bool-cases (is_some c.active_store_id)) [
        | inl s ↦ (s, i)
        | inr s ↦ cc (let f = rw (n, i, s) at g in f)
      ]
    ]
  ]

  active_entitlement :
      (o : Option Summary)
      → is_some o ≡ true
      → inactive_state db o ≡ none
      → (s : Summary) × (o ≡ some s) × (is_active s.effective_state ≡ true)
  active_entitlement none y i = cc
  active_entitlement (some s) y i = elim (Bool-cases (is_active s.effective_state)) [
    | inl a ↦ (s, refl, a)
    | inr a ↦ cc (let f = rw a at i in f)
  ]

  context-Eligible :
      (c : AuthorizationStatus) → Whole (ok c) → eligible_context db (ok c) ≡ ok tt → Eligible c
  context-Eligible c w g =
      let (store, i) = eligible_lem c g in
      elim w [
        | inl n ↦ cc (n, store)
        | inr (tenant, e) ↦ (active_entitlement c.entitlement e i, tenant, store)
      ]

  assert_linking_eligible-Eligible :
      (user : Key) (now : Date) (t : Tables)
      → assert_linking_eligible db user now t ≡ ok tt
      → (c : AuthorizationStatus) × (resolve_context db user now t ≡ ok c) × Eligible c
  unfolding assert_linking_eligible
  assert_linking_eligible-Eligible user now t h =
      of_context (resolve_context db user now t) refl (resolve_context-Whole user now t) h
    where
      of_context :
          (r : Result Error AuthorizationStatus)
          → resolve_context db user now t ≡ r
          → Whole r
          → eligible_context db r ≡ ok tt
          → (c : AuthorizationStatus) × (resolve_context db user now t ≡ ok c) × Eligible c
      of_context (err e) m w g = absurd (cc (g))
      of_context (ok c) m w g = (c, m, context-Eligible c w g)

  -- A call that issues a token adds it to the tokens.
  issue_token_lem :
      (user id hash : Key) (ttl : ℕ) (resolved_at now : Date) (t : Tables)
      → (issue_token db (some user) id hash ttl resolved_at now t).0 ≡ ok (now + ttl * 1000)
      → (issue_token db (some user) id hash ttl resolved_at now t).1
        ≡ record t { tokens = new_token db id user hash (now + ttl * 1000) ∷ t.tokens }
  unfolding issue_token create_token
  issue_token_lem user id hash ttl resolved_at now t h =
      eligible (assert_linking_eligible db user resolved_at t) refl
    where
      eligible :
          (r : Result Error ⊤)
          → assert_linking_eligible db user resolved_at t ≡ r
          → (issue_token db (some user) id hash ttl resolved_at now t).1
            ≡ record t { tokens = new_token db id user hash (now + ttl * 1000) ∷ t.tokens }
      eligible (err e) m = absurd (cc (let f = rw (m, issue_token) at h in f))
      eligible (ok x) m =
          let k = new_token db id user hash (now + ttl * 1000) in
          elim (Bool-cases (has_user db user t.users)) [
            | inr n ↦ absurd (cc (let f = rw (m, n, issue_token) at h in f))
            | inl y ↦ elim (Option-cases (db.tokens.create k t.tokens)) [
              | inl n ↦ absurd (cc (let f = rw (m, y, n, issue_token) at h in f))
              | inr (rows, n) ↦
                  rw (m, y, n, issue_token)
                    (ap (λ (l : List LinkToken). record t { tokens = l })
                      (db.tokens.created k t.tokens rows n))
            ]
          ]

  module _ (ids : NewIds) (now resolved_at : Date) (input : RedeemInput) (user : Key) (t : Tables)
      (stranger : db.accounts.find_first (of_telegram_user input.telegram_user_id) t.accounts
        ≡ none)
      (unlinked_user : db.accounts.find_first (of_user user) t.accounts ≡ none)
      (new_chat : db.chats.find_first (in_chat input.telegram_chat_id) t.chats ≡ none)
      (account_fits : (a : Account)
        → a.id ≡ ids.account
        → a.telegram_user_id ≡ input.telegram_user_id
        → a.user_id ≡ user
        → is_some (db.accounts.create a t.accounts) ≡ true)
      (chat_fits : (x : ChatAuthorization)
        → x.id ≡ ids.chat
        → x.telegram_chat_id ≡ input.telegram_chat_id
        → is_some (db.chats.create x t.chats) ≡ true) where
    link-linked :
        (k : LinkToken) (c : AuthorizationStatus) (tokens : List LinkToken)
        → k.user_id ≡ user
        → (link db ids now resolved_at input k none none c (record t { tokens = tokens })).0
          ≡ ok (linked c)
    unfolding link write_account write_chat
    link-linked k c tokens e =
        let a : Account = record {
          id = ids.account;
          telegram_user_id = input.telegram_user_id;
          user_id = k.user_id;
          last_redeem_update_id = some input.update_id;
          last_unlink_update_id = none;
          deleted_at = none;
        } in
        let x : ChatAuthorization = record {
          id = ids.chat;
          telegram_account_id = ids.account;
          telegram_chat_id = input.telegram_chat_id;
          active_tenant_id = c.active_tenant_id;
          active_store_id = c.active_store_id;
          revoked_at = none;
        } in
        let (accounts, p) = is_some-some (account_fits a refl refl e) in
        let (chats, q) = is_some-some (chat_fits x refl refl) in rw (p, q, link) refl

    -- Of the tokens, the new one is consumed.
    one_consumed :
        (k : LinkToken)
        → k.consumed_at ≡ none
        → now < k.expires_at
        → ((x : LinkToken) → Memᴰ x t.tokens → x.id ≢ k.id)
        → (db.tokens.update_many (consumable k now) (consume now) (k ∷ t.tokens)).1 ≡ 1
    unfolding count_where
    one_consumed k unconsumed unexpired apart =
        let none_other = count_where_none (consumable k now) t.tokens (λ x m.
          elim (Bool-cases (consumable k now x)) [
            | inr n ↦ n
            | inl y ↦ absurd (apart x m (ground arith))
          ]) in
        let own : consumable k now k ≡ true = ground arith in
        db.tokens.update_many_count (consumable k now) (consume now) (k ∷ t.tokens)
        ∙ rw own (omega (arith, none_other))

    token-linked :
        (k : LinkToken) (c : AuthorizationStatus)
        → k.user_id ≡ user
        → k.consumed_at ≡ none
        → now < k.expires_at
        → ((x : LinkToken) → Memᴰ x t.tokens → x.id ≢ k.id)
        → resolve_context db k.user_id resolved_at t ≡ ok c
        → Eligible c
        → (redeem_token db ids now resolved_at input k (record t { tokens = k ∷ t.tokens })).0
          ≡ ok (linked c)
    unfolding redeem_token redeem_fresh redeem_context consume_and_link resolve_context
    token-linked k c e unconsumed unexpired apart context ((s, entitled, active), tenant, store) =
        let u = record t { tokens = k ∷ t.tokens } in
        let fresh : (is_some k.consumed_at || leb k.expires_at now) ≡ false = ground arith in
        let by_user : db.accounts.find_first (of_user k.user_id) t.accounts ≡ none =
          rw e unlinked_user in
        let one = one_consumed k unconsumed unexpired apart in
        rw (stranger, by_user, redeem_token)
          (rw (fresh, context, redeem_fresh)
            (subst
              (λ o. (redeem_entitled db ids now resolved_at input k none c o u).0 ≡ ok (linked c))
              (sym entitled)
              (rw active (
                rw (tenant, store, new_chat, redeem_context)
                  (rw (one, consume_and_link)
                    (link-linked k c
                      (db.tokens.update_many (consumable k now) (consume now) (k ∷ t.tokens)).0
                      e))))))

-- A token that was issued links the account, within its time to live, of a Telegram user, a user and a
-- chat that are not known yet, where the user is still eligible for linking, the hash and the
-- identifier of the token are new, the rows of the new account and of its chat can be stored, and the
-- database does not refuse the transaction.
pub redeem-issue_token :
    (db : Database) (ids : NewIds) (issued_at issue_resolved_at now resolved_at : Date)
    (input : RedeemInput) (user id hash : Key) (ttl : ℕ) (t : Tables)
    → db.accounts.find_first (of_telegram_user input.telegram_user_id) t.accounts ≡ none
    → db.accounts.find_first (of_user user) t.accounts ≡ none
    → db.chats.find_first (in_chat input.telegram_chat_id) t.chats ≡ none
    → ((a : Account)
        → a.id ≡ ids.account
        → a.telegram_user_id ≡ input.telegram_user_id
        → a.user_id ≡ user
        → is_some (db.accounts.create a t.accounts) ≡ true)
    → ((x : ChatAuthorization)
        → x.id ≡ ids.chat
        → x.telegram_chat_id ≡ input.telegram_chat_id
        → is_some (db.chats.create x t.chats) ≡ true)
    → ((x : LinkToken) → Memᴰ x t.tokens → x.id ≢ id)
    → ((x : LinkToken) → Memᴰ x t.tokens → x.token_hash ≢ hash)
    → (issue_token db (some user) id hash ttl issue_resolved_at issued_at t).0
      ≡ ok (issued_at + ttl * 1000)
    → input.token_hash ≡ hash
    → now < issued_at + ttl * 1000
    → assert_linking_eligible db user resolved_at t ≡ ok tt
    → (c : AuthorizationStatus) × ((redeem db ids now resolved_at input false
          (issue_token db (some user) id hash ttl issue_resolved_at issued_at t).1).0
        ≡ ok (linked c))
unfolding redeem redeem_in_transaction
redeem-issue_token db ids issued_at issue_resolved_at now resolved_at input user id hash ttl t
      stranger unlinked_user new_chat account_fits chat_fits new_id new_hash issued same unexpired
      eligible =
    let k = new_token db id user hash (issued_at + ttl * 1000) in
    let u = record t { tokens = k ∷ t.tokens } in
    let (c, context, e) = assert_linking_eligible-Eligible db user resolved_at t eligible in
    let found : db.tokens.find_first (has_hash input.token_hash) (k ∷ t.tokens) ≡ some k =
      find_first_unique db.tokens (has_hash input.token_hash) (k ∷ t.tokens) k (Memᴰ.head refl)
        (ground arith) only_one in
    let run =
      token-linked db ids now resolved_at input user t stranger unlinked_user new_chat account_fits
        chat_fits k c refl refl unexpired new_id context e in
    (
      c,
      rw (issue_token_lem db user id hash ttl issue_resolved_at issued_at t issued) (
          ran (redeem_in_transaction db ids now resolved_at input u)
            (rw (found, redeem_in_transaction) run)),
    )
  where
    only_one :
        (x : LinkToken)
        → Memᴰ x (new_token db id user hash (issued_at + ttl * 1000) ∷ t.tokens)
        → has_hash input.token_hash x ≡ true
        → x ≡ new_token db id user hash (issued_at + ttl * 1000)
    only_one x (Memᴰ.head e) h = e
    only_one x (Memᴰ.tail m) h = absurd (new_hash x m (ground arith))

    ran :
        {c : AuthorizationStatus} (r : Result Error RedeemResult × Tables)
        → r.0 ≡ ok (linked c)
        → (caught db ids now resolved_at input (
            roll_back
              (record t { tokens = new_token db id user hash (issued_at + ttl * 1000) ∷ t.tokens })
              r)).0
          ≡ ok (linked c)
    ran (ok x, v) h = h
    ran (err x, v) h = absurd (cc (h))
