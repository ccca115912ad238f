-- ===== src/Linking/Tokens.antt =====
-- What a redemption of a token does, and that a token links once.
use mathlib.Core.Path.{subst}
use wctm.Prelude.{
  ◌≡◌, ◌<◌, refl, sym, ap, ◌∙◌, inl, inr, ◌⊎◌, Key, Date, true, false, not, ◌&&◌, ◌||◌, Option,
  none, some, Bool-cases, ◌==◌, leb, is_some, or_else, holds, Memᴰ, arith, Result, ok, err, ⊤,
  bind_result,
}
use wctm.Entitlements.{Summary, is_active}
use wctm.Linking.{
  LinkToken, Account, ChatAuthorization, Tables, AuthorizationStatus, RedeemResult, linked, Error,
  RedeemInput, of_telegram_user, of_user, in_chat, consumable, consume, Database, NewIds,
  resolve_context, conflicting_accounts, telegram_identity_conflict, saas_identity_conflict,
  same_redemption, open_for, other_account, linked_result, write_account, write_chat, link,
  consume_and_link, redeem_context, redeem_entitled, redeem_fresh, redeem_token,
}

-- A result that says that the account is linked.
abbrev pub IsLinked : Result Error RedeemResult → AuthorizationStatus → Type 0
IsLinked r c = r ≡ ok (linked c)

module _ (db : Database) (ids : NewIds) (now resolved_at : Date) (input : RedeemInput) where
  write_account-tokens :
      (user id : Key) (a : Option Account) (t : Tables)
      → (write_account db input user id a t).1.tokens ≡ t.tokens
  unfolding write_account
  write_account-tokens user id none t = ground arith
  write_account-tokens user id (some a) t = refl

  write_chat-tokens :
      (c : AuthorizationStatus) (account id : Key) (x : Option ChatAuthorization) (t : Tables)
      → (write_chat db input c account id x t).1.tokens ≡ t.tokens
  unfolding write_chat
  write_chat-tokens c account id none t = ground arith
  write_chat-tokens c account id (some x) t = refl

  -- Linking writes no token, and its status is the one that was resolved.
  link_lem :
      (k : LinkToken) (existing : Option Account) (chat : Option ChatAuthorization)
      (c : AuthorizationStatus) (t : Tables)
      → ((link db ids now resolved_at input k existing chat c t).1.tokens ≡ t.tokens)
        × ((d : AuthorizationStatus)
            → IsLinked (link db ids now resolved_at input k existing chat c t).0 d
            → d ≡ c)
  unfolding link
  link_lem k existing chat c t =
      account_written (write_account db input k.user_id ids.account existing t)
        (write_account-tokens k.user_id ids.account existing t)
    where
      linked_injective : {c d : AuthorizationStatus} → IsLinked (ok (linked c)) d → d ≡ c
      linked_injective h = cc

      chat_written :
          (r : Result Error ⊤ × Tables)
          → r.1.tokens ≡ t.tokens
          → ((bind_result r (λ _ v. (ok (linked c), v))).1.tokens ≡ t.tokens)
            × ((d : AuthorizationStatus)
                → IsLinked (bind_result r (λ _ v. (ok (linked c), v))).0 d
                → d ≡ c)
      chat_written (ok x, u) h = (h, λ d e. linked_injective e)
      chat_written (err x, u) h = (h, λ d e. absurd (cc (e)))

      account_written :
          (r : Result Error Key × Tables)
          → r.1.tokens ≡ t.tokens
          → ((bind_result r (λ account v.
                bind_result
                  (write_chat db input c account ids.chat chat v)
                  (λ _ v'. (ok (linked c), v')))).1.tokens
              ≡ t.tokens)
            × ((d : AuthorizationStatus)
                → IsLinked
                    (bind_result r (λ account v.
                      bind_result
                        (write_chat db input c account ids.chat chat v)
                        (λ _ v'. (ok (linked c), v')))).0
                    d
                → d ≡ c)
      account_written (ok account, u) h =
          chat_written (write_chat db input c account ids.chat chat u)
            (write_chat-tokens c account ids.chat chat u ∙ h)
      account_written (err x, u) h = (h, λ d e. absurd (cc (e)))

  -- What has held where a token that is not consumed has linked: it had not run out, the Tenant was
  -- entitled and had its Store, and the token was consumed by this call.
  abbrev pub Linked : LinkToken → AuthorizationStatus → Tables → Tables → Type 0
  Linked k c t u =
      (is_some k.consumed_at ≡ false)
      × (now < k.expires_at)
      × ((s : Summary) × (c.entitlement ≡ some s) × (is_active s.effective_state ≡ true))
      × (is_some c.active_tenant_id ≡ true)
      × (is_some c.active_store_id ≡ true)
      × (u.tokens ≡ (db.tokens.update_many (consumable k now) (consume now) t.tokens).0)

  consume_and_link_lem :
      (k : LinkToken) (existing : Option Account) (chat : Option ChatAuthorization)
      (c d : AuthorizationStatus) (t : Tables)
      → IsLinked (consume_and_link db ids now resolved_at input k existing chat c t).0 d
      → (d ≡ c)
        × ((consume_and_link db ids now resolved_at input k existing chat c t).1.tokens
            ≡ (db.tokens.update_many (consumable k now) (consume now) t.tokens).0)
  unfolding consume_and_link
  consume_and_link_lem k existing chat c d t h =
      let w = db.tokens.update_many (consumable k now) (consume now) t.tokens in
      let u = record t { tokens = w.0 } in
      let (tokens, status) = link_lem k existing chat c u in
      elim (Bool-cases (w.1 == 1)) [
        | inl y ↦ rw (y, consume_and_link) (status d (rw (y, consume_and_link) at h), tokens)
        | inr n ↦ cc (let g = rw (n, consume_and_link) at h in g)
      ]

  redeem_context_lem :
      (k : LinkToken) (existing : Option Account) (c d : AuthorizationStatus) (t : Tables)
      → IsLinked (redeem_context db ids now resolved_at input k existing c t).0 d
      → (d ≡ c)
        × (is_some c.active_tenant_id ≡ true)
        × (is_some c.active_store_id ≡ true)
        × ((redeem_context db ids now resolved_at input k existing c t).1.tokens
            ≡ (db.tokens.update_many (consumable k now) (consume now) t.tokens).0)
  unfolding redeem_context
  redeem_context_lem k existing c d t h =
      let chat = db.chats.find_first (in_chat input.telegram_chat_id) t.chats in
      elim (Bool-cases (
        is_some c.active_tenant_id
        && is_some c.active_store_id
        && not (other_account db chat existing))) [
          | inl y ↦
              let (e, tokens) =
                consume_and_link_lem k existing chat c d t (rw (y, redeem_context) at h) in
              (e, ground arith, ground arith, rw (y, redeem_context) tokens)
          | inr n ↦ cc (let g = rw (n, redeem_context) at h in g)
        ]

  redeem_entitled_lem :
      (k : LinkToken) (existing : Option Account) (c d : AuthorizationStatus) (o : Option Summary)
      (t : Tables)
      → c.entitlement ≡ o
      → IsLinked (redeem_entitled db ids now resolved_at input k existing c o t).0 d
      → (d ≡ c)
        × ((s : Summary) × (c.entitlement ≡ some s) × (is_active s.effective_state ≡ true))
        × (is_some c.active_tenant_id ≡ true)
        × (is_some c.active_store_id ≡ true)
        × ((redeem_entitled db ids now resolved_at input k existing c o t).1.tokens
            ≡ (db.tokens.update_many (consumable k now) (consume now) t.tokens).0)
  redeem_entitled_lem k existing c d none t e h = absurd (cc (h))
  redeem_entitled_lem k existing c d (some s) t e h =
      elim (Bool-cases (is_active s.effective_state)) [
        | inl y ↦
            let (q, tenant, store, tokens) = redeem_context_lem k existing c d t (rw y at h) in
            (q, (s, e, y), tenant, store, rw y tokens)
        | inr n ↦ cc (let g = rw n at h in g)
      ]

  -- Where a token that was found links.
  fresh-Linked :
      (k : LinkToken) (existing : Option Account) (d : AuthorizationStatus) (t : Tables)
      → IsLinked (redeem_fresh db ids now resolved_at input k existing t).0 d
      → (resolve_context db k.user_id resolved_at t ≡ ok d)
        × Linked k d t (redeem_fresh db ids now resolved_at input k existing t).1
  unfolding redeem_fresh
  fresh-Linked k existing d t h =
      elim (Bool-cases (is_some k.consumed_at || leb k.expires_at now)) [
        | inl y ↦ cc (let g = rw (y, redeem_fresh) at h in g)
        | inr n ↦ resolved n (resolve_context db k.user_id resolved_at t) refl
      ]
    where
      resolved :
          (is_some k.consumed_at || leb k.expires_at now) ≡ false
          → (r : Result Error AuthorizationStatus) → resolve_context db k.user_id resolved_at t ≡ r
          → (resolve_context db k.user_id resolved_at t ≡ ok d)
            × Linked k d t (redeem_fresh db ids now resolved_at input k existing t).1
      resolved n (err e) m = absurd (cc (let g = rw (n, m, redeem_fresh) at h in g))
      resolved n (ok c) m =
          let (q, s, tenant, store, tokens) =
            redeem_entitled_lem k existing c d c.entitlement t refl
              (rw (n, m, redeem_fresh) at h) in
          (
            m ∙ ap ok (sym q),
            (
              ground arith,
              ground arith,
              subst
                  (λ x.
                    (s : Summary) × (x.entitlement ≡ some s) × (is_active s.effective_state ≡ true))
                  (sym q) s,
              subst (λ x. is_some x.active_tenant_id ≡ true) (sym q) tenant,
              subst (λ x. is_some x.active_store_id ≡ true) (sym q) store,
              rw (n, m, redeem_fresh) tokens,
            ),
          )

  -- The account of the Telegram user and of the token's user, which is not deleted, has redeemed with
  -- this very update before, and has this chat open.
  abbrev pub IsRepetition : LinkToken → Tables → Type 0
  IsRepetition k t =
      (a : Account) × Memᴰ a t.accounts
      × (a.telegram_user_id ≡ input.telegram_user_id)
      × (a.user_id ≡ k.user_id)
      × (holds a.last_redeem_update_id input.update_id ≡ true)
      × (is_some a.deleted_at ≡ false)
      × ((x : ChatAuthorization) × Memᴰ x t.chats
          × (x.telegram_chat_id ≡ input.telegram_chat_id)
          × (x.telegram_account_id ≡ a.id)
          × (is_some x.revoked_at ≡ false))

  -- What a redemption that links has done: it repeated one that had, and changed nothing, or it
  -- consumed the token.
  abbrev pub Redeemed : LinkToken → AuthorizationStatus → Tables → Tables → Type 0
  Redeemed k c t u = ((is_some k.consumed_at ≡ true) × (u ≡ t) × IsRepetition k t) ⊎ Linked k c t u

  pub token-Redeemed :
      (k : LinkToken) (d : AuthorizationStatus) (t : Tables)
      → IsLinked (redeem_token db ids now resolved_at input k t).0 d
      → (resolve_context db k.user_id resolved_at t ≡ ok d)
        × Redeemed k d t (redeem_token db ids now resolved_at input k t).1
  unfolding redeem_token
  token-Redeemed k d t h =
      let by_telegram =
        db.accounts.find_first (of_telegram_user input.telegram_user_id) t.accounts in
      let by_user = db.accounts.find_first (of_user k.user_id) t.accounts in
      let existing = or_else by_user by_telegram in
      elim (Bool-cases (
        conflicting_accounts db by_telegram by_user
        || telegram_identity_conflict db by_telegram by_user k.user_id
        || saas_identity_conflict db by_user input.telegram_user_id)) [
          | inl y ↦ cc (let g = rw (y, redeem_token) at h in g)
          | inr n ↦
              elim (Bool-cases (
                same_redemption db existing k input
                && open_for db (db.chats.find_first (in_chat input.telegram_chat_id) t.chats)
                    existing)) [
                      | inl y ↦ (
                        status (resolve_context db k.user_id resolved_at t)
                            (rw (n, y, redeem_token) at h),
                        inl (
                          consumed existing (ground arith),
                          rw (n, y, redeem_token) refl,
                          stored_account existing
                              (λ a e.
                                either by_user by_telegram a
                                  (λ f. (db.accounts.found (of_user k.user_id) t.accounts a f).0)
                                  (λ f.
                                    (db.accounts.found (of_telegram_user input.telegram_user_id)
                                      t.accounts a f).0)
                                  e)
                              (ground arith) (ground arith),
                        ),
                      )
                      | inr m ↦
                          let (r, l) = fresh-Linked k existing d t (rw (n, m, redeem_token) at h) in
                          (r, inr (rw (n, m, redeem_token) l))
                    ]
        ]
    where
      status : (r : Result Error AuthorizationStatus) → IsLinked (linked_result db r) d → r ≡ ok d
      status (err e) g = absurd (cc (g))
      status (ok c) g = ap ok (cc (g))

      either :
          (b c : Option Account) (a : Account)
          → (b ≡ some a → Memᴰ a t.accounts)
          → (c ≡ some a → Memᴰ a t.accounts)
          → or_else b c ≡ some a
          → Memᴰ a t.accounts
      either none c a f g e = g e
      either (some x) c a f g e = f e

      chat_open :
          (a : Account) (o : Option ChatAuthorization)
          → db.chats.find_first (in_chat input.telegram_chat_id) t.chats ≡ o
          → open_for db o (some a) ≡ true
          → (x : ChatAuthorization) × Memᴰ x t.chats
            × (x.telegram_chat_id ≡ input.telegram_chat_id)
            × (x.telegram_account_id ≡ a.id)
            × (is_some x.revoked_at ≡ false)
      chat_open a none f g = absurd (cc (g))
      chat_open a (some x) f g =
          let (m, s) = db.chats.found (in_chat input.telegram_chat_id) t.chats x f in
          (x, m, ground arith, ground arith, ground arith)

      repetition :
          (a : Account)
          → Memᴰ a t.accounts
          → same_redemption db (some a) k input ≡ true
          → open_for db (db.chats.find_first (in_chat input.telegram_chat_id) t.chats) (some a)
            ≡ true
          → IsRepetition k t
      repetition a m s o = (
        a,
        m,
        ground arith,
        ground arith,
        ground arith,
        ground arith,
        chat_open a (db.chats.find_first (in_chat input.telegram_chat_id) t.chats) refl o,
      )

      stored_account :
          (a : Option Account)
          → ((x : Account) → a ≡ some x → Memᴰ x t.accounts)
          → same_redemption db a k input ≡ true
          → open_for db (db.chats.find_first (in_chat input.telegram_chat_id) t.chats) a ≡ true
          → IsRepetition k t
      stored_account none there s o = absurd (cc (s))
      stored_account (some a) there s o = repetition a (there a refl) s o

      consumed :
          (a : Option Account) → same_redemption db a k input ≡ true → is_some k.consumed_at ≡ true
      consumed none g = cc
      consumed (some a) g = ground arith
