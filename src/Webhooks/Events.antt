-- ===== src/Webhooks/Events.antt =====
-- The rows of `webhook_events`, `stores` and `tenants` that the worker reads and writes, the
-- `where` of each of its writes and the `data` that it puts.
use wctm.Prelude.{
  ℕ, ◌+◌, Key, Date, Bool, true, false, not, ◌&&◌, ◌||◌, Option, none, some, List, [], ◌∷◌, ◌==◌,
  leb, ltb, is_some, holds, Text, take, codes,
}

-- `WebhookEventStatus`
pub data Status : Type 0 where
  received queued processing completed failed : Status

pub data StoreStatus : Type 0 where
  pending active disconnected disabled : StoreStatus

-- `WooCommerceErrorCategory`
pub data Category : Type 0 where
  auth not_found transport rate_limited timeout unexpected : Category

pub record WebhookEvent : Type 0 where
  pub id : Key
  pub tenant_id : Key
  pub store_id : Key
  pub webhook_id : Text
  pub delivery_id : Text
  pub dedupe_key : Text
  pub topic : Text
  pub payload : Key
  pub status : Status
  pub received_at : Date
  pub queued_at : Option Date
  pub processing_started_at : Option Date
  pub processing_attempt_count : ℕ
  pub failure_category : Option Category
  pub failure_message : Option Text
  pub last_failure_at : Option Date
  pub completed_at : Option Date
  pub failed_at : Option Date

pub record Store : Type 0 where
  pub id : Key
  pub tenant_id : Key
  pub status : StoreStatus
  pub deleted_at : Option Date
  pub webhook_endpoint_key : Option Key
  pub webhook_secret_encrypted : Option Key

pub record Tenant : Type 0 where
  pub id : Key
  pub deleted_at : Option Date

abbrev pub is_active : StoreStatus → Bool
is_active pending = false
is_active active = true
is_active disconnected = false
is_active disabled = false

-- `tenant: { deletedAt: null }`
abbrev pub tenant_live : List Tenant → Key → Bool
tenant_live [] id = false
tenant_live (t ∷ ts) id = t.id == id && not (is_some t.deleted_at) || tenant_live ts id

abbrev pub store_live : List Tenant → Store → Bool
store_live ts s = is_active s.status && not (is_some s.deleted_at) && tenant_live ts s.tenant_id

-- `store: { status: ACTIVE, deletedAt: null, tenant: { deletedAt: null } }`
abbrev pub has_live_store : List Tenant → List Store → Key → Bool
has_live_store ts [] id = false
has_live_store ts (s ∷ ss) id = s.id == id && store_live ts s || has_live_store ts ss id

-- `WEBHOOK_PROCESSING_LEASE_TTL_MS`
abbrev pub lease_ttl_ms : ℕ
lease_ttl_ms = 30000

-- `processingStartedAt <= now - TTL`, which a `null` does not meet
abbrev pub lease_over : Option Date → Date → Bool
lease_over none now = false
lease_over (some t) now = leb (t + lease_ttl_ms) now

-- `processingStartedAt > now - TTL`
abbrev pub lease_held : Option Date → Date → Bool
lease_held none now = false
lease_held (some t) now = ltb now (t + lease_ttl_ms)

abbrev pub is_processing : Status → Bool
is_processing processing = true
is_processing _ = false

abbrev pub is_completed : Status → Bool
is_completed completed = true
is_completed _ = false

abbrev pub is_received : Status → Bool
is_received received = true
is_received _ = false

-- `{ in: [RECEIVED, QUEUED, PROCESSING] }`
abbrev pub is_open : Status → Bool
is_open received = true
is_open queued = true
is_open processing = true
is_open completed = false
is_open failed = false

-- The three alternatives of the claim.
abbrev pub may_claim : Status → Option Date → Date → Bool
may_claim received started now = true
may_claim queued started now = true
may_claim processing started now = lease_over started now
may_claim completed started now = false
may_claim failed started now = false

-- `WooCommerceWebhookJobData`
pub record JobData : Type 0 where
  pub webhook_event_id : Key
  pub tenant_id : Key
  pub store_id : Key

abbrev pub claimable : List Tenant → List Store → JobData → Date → WebhookEvent → Bool
claimable ts ss job now e =
    e.id == job.webhook_event_id
    && e.tenant_id == job.tenant_id
    && e.store_id == job.store_id
    && has_live_store ts ss e.store_id
    && may_claim e.status e.processing_started_at now

unfoldable pub take_lease : Date → WebhookEvent → WebhookEvent
take_lease now e = record e {
  status = processing;
  processing_started_at = some now;
  processing_attempt_count = e.processing_attempt_count + 1;
}

-- The `where` of the writes of the worker that claimed the event at that time.
abbrev pub leased : Key → Date → WebhookEvent → Bool
leased id claimed_at e =
    e.id == id && is_processing e.status && holds e.processing_started_at claimed_at

unfoldable pub complete : Date → WebhookEvent → WebhookEvent
complete now e = record e {
  status = completed;
  processing_started_at = none;
  completed_at = some now;
  failure_category = none;
  failure_message = none;
  last_failure_at = none;
}

-- `FailureDiagnostic`
pub record Diagnostic : Type 0 where
  pub category : Category
  pub message : Text

unfoldable pub release : Diagnostic → Date → WebhookEvent → WebhookEvent
release d now e = record e {
  status = queued;
  processing_started_at = none;
  failure_category = some d.category;
  failure_message = some d.message;
  last_failure_at = some now;
}

-- The `data` of `failClaimed` and of `markFailed`.
unfoldable pub fail : Diagnostic → Date → WebhookEvent → WebhookEvent
fail d now e = record e {
  status = failed;
  processing_started_at = none;
  failure_category = some d.category;
  failure_message = some d.message;
  last_failure_at = some now;
  failed_at = some now;
}

-- The `where` of `markFailed`: it asks neither for the Tenant nor for the lease.
abbrev pub open_by_id : Key → WebhookEvent → Bool
open_by_id id e = e.id == id && is_open e.status

-- A thrown error, as `failureDiagnostic` tells errors apart: a failure of a projection, or any
-- other.
pub data Failure : Type 0 where
  projection : Category → Text → Bool → Failure
  other : Failure

-- `MAX_FAILURE_MESSAGE_LENGTH`
abbrev pub max_failure_message_length : ℕ
max_failure_message_length = 191

abbrev pub webhook_processing_failed : Text
webhook_processing_failed = codes "webhook-processing-failed"

abbrev pub store_disconnected_message : Text
store_disconnected_message = codes "store-disconnected"

unfoldable pub failure_diagnostic : Failure → Diagnostic
failure_diagnostic (projection category code retryable) = record {
  category = category;
  message = take max_failure_message_length code;
}
failure_diagnostic other = record { category = unexpected; message = webhook_processing_failed }

unfoldable pub is_retryable : Failure → Bool
is_retryable (projection category code retryable) = retryable
is_retryable other = true
