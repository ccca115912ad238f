-- ===== src/Webhooks/Ingestion.antt =====
-- `WooCommerceWebhookIngestionService.receive`: a delivery is authenticated, stored once and handed
-- to the queue. Node's cryptography, JSON and the queue are parameters, and so is the minimizer of
-- payloads, a module of its own. The log lines are left out.
use wctm.Prelude.{
  Key, Date, Text, Bool, not, ◌&&◌, Option, none, some, List, ◌==◌, holds, text_eq, if◌then◌else◌,
  Result, ok, err, Action, ⊤, pure, throw_if, or_throw, lift, get, ◌>>=◌, ◌>>◌,
}
use wctm.Database.Methods.{Client}
use wctm.Webhooks.Events.{
  received, queued, WebhookEvent, Store, Tenant, store_live, JobData, is_received,
}
use wctm.Webhooks.Headers.{
  Headers, RequiredHeaders, Error, endpoint_not_found, invalid_signature, malformed_request,
  unavailable, require_headers,
}

pub record Services (Queue : Type 0) : Type 0 where
  -- `decrypt`, which may throw
  pub decrypt : Key → Option Text
  -- `createHmac('sha256', secret).update(body).digest()`
  pub hmac : Text → Text → Text
  -- `Buffer.from(text, 'base64')`
  pub from_base64 : Text → Text
  -- `JSON.parse`, which may throw
  pub parse : Text → Option Key
  -- `minimizeWebhookPayload`
  pub minimize : Text → Key → Key
  -- `jobs.enqueue`, which may throw
  pub enqueue : JobData → Queue → Option Queue

-- The tables that the service works on, and the queue.
pub record Inbox (Queue : Type 0) : Type 0 where
  pub events : List WebhookEvent
  pub stores : List Store
  pub tenants : List Tenant
  pub queue : Queue

-- `signaturesMatch`: equal lengths and equal bytes
abbrev pub signatures_match : (Text → Text → Text) → Text → Text → Text → Bool
signatures_match hmac body secret supplied = text_eq (hmac secret body) supplied

-- The `where` of `resolveStore`; the endpoint's key is unique among the Stores.
abbrev pub routed : List Tenant → Key → Store → Bool
routed ts key s = holds s.webhook_endpoint_key key && store_live ts s

-- The unique key of a delivery.
abbrev pub same_delivery : Key → Text → WebhookEvent → Bool
same_delivery store_id key e = e.store_id == store_id && text_eq e.dedupe_key key

abbrev pub fresh_event : Key → Store → RequiredHeaders → Key → Date → WebhookEvent
fresh_event id store headers payload now = record {
  id = id;
  tenant_id = store.tenant_id;
  store_id = store.id;
  webhook_id = headers.webhook_id;
  delivery_id = headers.delivery_id;
  dedupe_key = headers.delivery_id;
  topic = headers.topic;
  payload = payload;
  status = received;
  received_at = now;
  queued_at = none;
  processing_started_at = none;
  processing_attempt_count = 0;
  failure_category = none;
  failure_message = none;
  last_failure_at = none;
  completed_at = none;
  failed_at = none;
}

unfoldable pub acknowledge : Date → WebhookEvent → WebhookEvent
acknowledge now e = record e { status = queued; queued_at = some now }

abbrev pub job_of : WebhookEvent → JobData
job_of e = record { webhook_event_id = e.id; tenant_id = e.tenant_id; store_id = e.store_id }

-- The `where` of the write that records the hand-over.
abbrev pub still_received : WebhookEvent → WebhookEvent → Bool
still_received e r =
    r.id == e.id && r.tenant_id == e.tenant_id && r.store_id == e.store_id && is_received r.status

module _ {Queue : Type 0} (svc : Services Queue) (events : Client WebhookEvent)
    (stores : Client Store) where
  -- `decryptSecret`
  unfoldable pub decrypt_secret : Option Key → Result Error Text
  decrypt_secret none = err invalid_signature
  decrypt_secret (some c) = elim (svc.decrypt c) [ none ↦ err invalid_signature | some s ↦ ok s ]

  -- What comes before the first write: the Store, the headers, the signature and the payload.
  unfoldable pub authenticate :
      Key → Headers → Option Text → Action Error (Inbox Queue) (Store × RequiredHeaders × Key)
  authenticate endpoint_key headers raw_body = do
    s ← get
    store ← or_throw (stores.find_first (routed s.tenants endpoint_key) s.stores) endpoint_not_found
    required ← lift (require_headers svc.from_base64 headers)
    body ← or_throw raw_body malformed_request
    secret ← lift (decrypt_secret store.webhook_secret_encrypted)
    throw_if (not (signatures_match svc.hmac body secret required.signature)) invalid_signature
    parsed ← or_throw (svc.parse body) malformed_request
    pure (store, required, svc.minimize required.topic parsed)

  -- `persistOrFind`, where the unique key is taken
  unfoldable pub find_existing : Store → RequiredHeaders → Action Error (Inbox Queue) WebhookEvent
  find_existing store headers s =
      elim (events.find_first (same_delivery store.id headers.delivery_id) s.events) [
        | none ↦ (err unavailable, s)
        | some e ↦ if e.tenant_id == store.tenant_id then (ok e, s) else (err unavailable, s)
      ]

  -- `persistOrFind`
  unfoldable pub persist_or_find :
      Key → Store → RequiredHeaders → Key → Date → Action Error (Inbox Queue) WebhookEvent
  persist_or_find id store headers payload now s =
      let e = fresh_event id store headers payload now in
      elim (events.create e s.events) [
        | none ↦ find_existing store headers s
        | some rows ↦ (ok e, record s { events = rows })
      ]

  -- The hand-over to the queue, and the record of it; a known delivery is only acknowledged.
  unfoldable pub hand_over : WebhookEvent → Date → Action Error (Inbox Queue) ⊤
  hand_over e now s =
      if is_received e.status
      then elim (svc.enqueue (job_of e) s.queue) [
        | none ↦ (err unavailable, s)
        | some q ↦ (
          ok tt,
          record s {
            events = (events.update_many (still_received e) (acknowledge now) s.events).0;
            queue = q;
          },
        )
      ]
      else (ok tt, s)

  unfoldable pub store_delivery :
      Key → Date → Date → Store × RequiredHeaders × Key → Action Error (Inbox Queue) ⊤
  store_delivery id received_at queued_at (store, required, payload) = do
    e ← persist_or_find id store required payload received_at
    hand_over e queued_at

  -- `receive`; the identifier of a new row and the two instants are arguments
  unfoldable pub receive :
      Key → Date → Date → Key → Headers → Option Text → Action Error (Inbox Queue) ⊤
  receive id received_at queued_at endpoint_key headers raw_body = do
    request ← authenticate endpoint_key headers raw_body
    store_delivery id received_at queued_at request
