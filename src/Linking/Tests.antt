-- ===== src/Linking/Tests.antt =====
-- A user links a Telegram account, and unlinks it.
use wctm.Prelude.{
  ◌≡◌, refl, true, false, none, some, [], ◌∷◌, Memᴰ, ◌==◌, arith, ok, sym, ◌∙◌, ◌||◌,
}
use wctm.Database.Memory.{memory}
use wctm.Database.Keys.{HasKeys}
use wctm.Entitlements.{Tenant, Plan, Status, EffectiveState}
use wctm.Linking.State.{
  LinkToken, Account, ChatAuthorization, StoreRow, Tables, AuthorizationStatus, linked, unlinked,
  RedeemInput, UnlinkInput, MembershipState, unauthorized_status, has_hash,
}
use wctm.Linking.Context.{Database, resolve_context, assert_linking_eligible, issue_token}
use wctm.Linking.Redemption.{NewIds, redeem}
use wctm.Linking.Unlinking.{status, unlink}
use wctm.Linking.Tokens.{Redeemed}
use wctm.Linking.Once.{redeem-Redeemed, redeem_once}
use wctm.Linking.Issued.{redeem-issue_token}
use wctm.Linking.Accounts.{status-unlink}

abbrev database : Database
database = record {
  tenants = memory (λ a b. a.id == b.id);
  memberships = memory (λ a b. false);
  stores = memory (λ a b. a.id == b.id);
  tokens = memory (λ a b. a.id == b.id || a.token_hash == b.token_hash);
  accounts = memory (λ a b. a.telegram_user_id == b.telegram_user_id || a.user_id == b.user_id);
  chats = memory (λ a b. a.telegram_chat_id == b.telegram_chat_id);
}

abbrev tenant : Tenant
tenant = record {
  id = 10;
  plan = Plan.pro;
  entitlement_status = Status.active;
  entitlement_expires_at = none;
  deleted_at = none;
}

abbrev store : StoreRow
store = record {
  id = 1;
  tenant_id = 10;
  is_active = true;
  deleted_at = none;
  last_healthy_at = some 900;
  webhook_secret_encrypted = some 5;
  webhook_endpoint_key = some 77;
}

abbrev empty : Tables
empty = record {
  users = 7 ∷ [];
  tenants = tenant ∷ [];
  memberships = record { tenant_id = 10; user_id = 7; deleted_at = none } ∷ [];
  stores = store ∷ [];
  tokens = [];
  accounts = [];
  chats = [];
}

abbrev token : LinkToken
token = record { id = 3; user_id = 7; token_hash = 33; expires_at = 601000; consumed_at = none }

abbrev issued : Tables
issued = record empty { tokens = token ∷ [] }

abbrev ids : NewIds
ids = record { account = 20; chat = 30 }

abbrev input : RedeemInput
input = record { token_hash = 33; telegram_user_id = 50; telegram_chat_id = 40; update_id = 1 }

abbrev stolen : RedeemInput
stolen = record { token_hash = 33; telegram_user_id = 51; telegram_chat_id = 41; update_id = 2 }

issue_run : (issue_token database (some 7) 3 33 600 1000 1000 empty).0 ≡ ok 601000
unfolding issue_token memory
issue_run = refl

eligible_run : assert_linking_eligible database 7 2000 empty ≡ ok tt
unfolding assert_linking_eligible memory
eligible_run = refl

redeem-issue_token_example :
    (c : AuthorizationStatus) × ((redeem database ids 2000 2000 input false
        (issue_token database (some 7) 3 33 600 1000 1000 empty).1).0
      ≡ ok (linked c))
unfolding memory
redeem-issue_token_example =
    redeem-issue_token database ids 1000 1000 2000 2000 input 7 3 33 600 empty refl refl refl
      (λ a e f g. refl) (λ x e f. refl) (λ x m. absurd (no_token x m))
      (λ x m. absurd (no_token x m)) issue_run refl (omega arith) eligible_run
  where
    no_token : (x : LinkToken) → Memᴰ x [] → ⊥
    no_token x m = elim m [ ]

abbrev context : AuthorizationStatus
context = record {
  linked = true;
  authorized = true;
  membership_state = MembershipState.active;
  active_tenant_id = some 10;
  active_store_id = some 1;
  tenant_selection_required = false;
  store_selection_required = false;
  selection_required = false;
  entitlement = some (record {
    plan = Plan.pro;
    status = Status.active;
    effective_state = EffectiveState.active;
    expires_at = none;
  });
}

linked_run : (redeem database ids 2000 2000 input false issued).0 ≡ ok (linked context)
unfolding redeem memory resolve_context
linked_run = refl

redeem-Redeemed_example :
    (k : LinkToken) × (database.tokens.find_first (has_hash 33) issued.tokens ≡ some k)
    × (resolve_context database k.user_id 2000 issued ≡ ok context)
    × Redeemed database ids 2000 2000 input k context issued
        (redeem database ids 2000 2000 input false issued).1
redeem-Redeemed_example =
    redeem-Redeemed database ids 2000 2000 input false context issued linked_run

one_token : HasKeys (λ k. k.token_hash) issued.tokens
one_token x y (Memᴰ.head e) (Memᴰ.head f) h = e ∙ sym f
one_token x y (Memᴰ.tail m) n h = elim m [ ]
one_token x y m (Memᴰ.tail n) h = elim n [ ]

redeem_once_example :
    let u = (redeem database ids 2000 2000 input false issued).1 in
    (redeem database ids 3000 3000 stolen false u).1 ≡ u
redeem_once_example =
    redeem_once database ids ids 2000 2000 3000 3000 input stolen false false context issued
      one_token linked_run refl

abbrev account : Account
account = record {
  id = 20;
  telegram_user_id = 50;
  user_id = 7;
  last_redeem_update_id = some 1;
  last_unlink_update_id = none;
  deleted_at = none;
}

abbrev chat : ChatAuthorization
chat = record {
  id = 30;
  telegram_account_id = 20;
  telegram_chat_id = 40;
  active_tenant_id = some 10;
  active_store_id = some 1;
  revoked_at = none;
}

abbrev joined : Tables
joined = record empty { accounts = account ∷ []; chats = chat ∷ [] }

abbrev leave : UnlinkInput
leave = record { confirmed = true; telegram_user_id = 50; telegram_chat_id = 40; update_id = 9 }

unlinked_run : (unlink database false leave 5000 joined).0 ≡ ok unlinked
unfolding unlink memory
unlinked_run = refl

one_account : HasKeys (λ a. a.telegram_user_id) joined.accounts
one_account x y (Memᴰ.head e) (Memᴰ.head f) h = e ∙ sym f
one_account x y (Memᴰ.tail m) n h = elim m [ ]
one_account x y m (Memᴰ.tail n) h = elim n [ ]

status-unlink_example :
    status database 50 40 6000 (unlink database false leave 5000 joined).1 ≡ ok unauthorized_status
status-unlink_example =
    status-unlink database false leave 5000 joined 40 6000 one_account unlinked_run
