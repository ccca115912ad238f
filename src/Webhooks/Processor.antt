-- ===== src/Webhooks/Processor.antt =====
-- `WooCommerceWebhookProcessor`. The projections and the schedulers of notifications, modules of
-- their own, are an interface here. The instants at which a call reads the clock are arguments.
-- A call of `process` runs on one state; Webhooks/Steps.antt interleaves the writes of several
-- workers.
use wctm.Prelude.{
  ℕ, Key, Date, Text, codes, starts_with, Bool, true, false, ◌&&◌, Option, none, some, List, [],
  ◌∷◌, ◌==◌, if◌then◌else◌, Result, ok, err, Action, ⊤, pure, throw, or_throw, lift, get, ◌>>=◌,
  ◌>>◌,
}
use wctm.Database.Methods.{Client}
use wctm.Webhooks.Events.{
  Status, received, completed, processing, WebhookEvent, Store, Tenant, store_live, JobData,
  claimable, take_lease, leased, complete, release, fail, open_by_id, Failure, Diagnostic,
  failure_diagnostic, is_retryable, lease_held, store_disconnected_message, unexpected,
}

-- `ClaimedWebhookEvent`: the event with its Store
pub record ClaimedEvent : Type 0 where
  pub id : Key
  pub topic : Text
  pub payload : Key
  pub received_at : Date
  pub store : Store

-- The order and inventory projections and the notification schedulers, over the rest of the
-- database and the queues. `Signal` is `InventoryAlertSignal`.
pub record Pipeline (Outside Signal : Type 0) : Type 0 where
  pub project_order : ClaimedEvent → Action Failure Outside ⊤
  pub schedule_order : ClaimedEvent → Action Failure Outside ⊤
  pub project_product : ClaimedEvent → Action Failure Outside (List Signal)
  pub schedule_inventory : Key → Key → Signal → Action Failure Outside ⊤

pub record World (Outside : Type 0) : Type 0 where
  pub events : List WebhookEvent
  pub stores : List Store
  pub tenants : List Tenant
  pub outside : Outside

-- Why a job is given up, or tried again by the queue.
pub data Reason : Type 0 where
  event_identity tenant_identity store_identity : Reason
  event_unavailable store_disconnected not_queued_yet lifecycle_update_failed : Reason
  processing_failed : Failure → Reason

-- `UnrecoverableError` ends the job; any other error lets the queue retry it.
pub data Thrown : Type 0 where
  unrecoverable retry : Reason → Thrown

-- A job's payload: `none` is a field that is missing, or is no text of the pattern.
pub record JobFields : Type 0 where
  pub webhook_event_id : Option Key
  pub tenant_id : Option Key
  pub store_id : Option Key

-- `validateWooCommerceWebhookJobData`
unfoldable pub validate_job_data : JobFields → Result Thrown JobData
validate_job_data j = check j.webhook_event_id j.tenant_id j.store_id
  where
    check : Option Key → Option Key → Option Key → Result Thrown JobData
    check none t s = err (unrecoverable event_identity)
    check (some e) none s = err (unrecoverable tenant_identity)
    check (some e) (some t) none = err (unrecoverable store_identity)
    check (some e) (some t) (some s) =
        ok (record { webhook_event_id = e; tenant_id = t; store_id = s })

-- `WooCommerceWebhookJobResult`, whose `processed` is always true
pub record JobResult : Type 0 where
  pub webhook_event_id : Key
  pub tenant_id : Key
  pub store_id : Key

abbrev pub result : Key → Store → JobResult
result id s = record { webhook_event_id = id; tenant_id = s.tenant_id; store_id = s.id }

-- When a call reads the clock: at the claim, at its end, and where it could not claim.
pub record Instants : Type 0 where
  pub claimed_at : Date
  pub settled_at : Date
  pub resolved_at : Date

-- The answer to a job whose event could not be claimed. Every event has a Store, by its key.
unfoldable pub settle_unclaimed :
    Option WebhookEvent → Option Store → Date → Result Thrown JobResult
settle_unclaimed none o now = err (unrecoverable event_unavailable)
settle_unclaimed (some e) none now = err (unrecoverable event_unavailable)
settle_unclaimed (some e) (some s) now = by_status e.status
  where
    by_status : Status → Result Thrown JobResult
    by_status completed = ok (result e.id s)
    by_status processing =
        if lease_held e.processing_started_at now
        then ok (result e.id s)
        else err (unrecoverable event_unavailable)
    by_status received = err (retry not_queued_yet)
    by_status _ = err (unrecoverable event_unavailable)

abbrev pub claimed_event : WebhookEvent → Store → ClaimedEvent
claimed_event e s = record {
  id = e.id;
  topic = e.topic;
  payload = e.payload;
  received_at = e.received_at;
  store = s;
}

module _ {Outside Signal : Type 0} (pipe : Pipeline Outside Signal) where
  unfoldable pub schedule_all : Key → Key → List Signal → Action Failure Outside ⊤
  schedule_all tenant_id store_id [] = pure tt
  schedule_all tenant_id store_id (s ∷ ss) =
      pipe.schedule_inventory tenant_id store_id s >> schedule_all tenant_id store_id ss

  -- The `try` block: what is done with an event depends on its topic alone.
  unfoldable pub handle : ClaimedEvent → Action Failure Outside ⊤
  handle e =
      if starts_with e.topic (codes "order.")
      then pipe.project_order e >> pipe.schedule_order e
      else if starts_with e.topic (codes "product.")
      then pipe.project_product e >>= schedule_all e.store.tenant_id e.store.id
      else pure tt

-- The Store that a row's `store_id` refers to.
abbrev pub store_of : Client Store → List Store → WebhookEvent → Option Store
store_of db ss e = db.find_first (λ s. s.id == e.store_id) ss

abbrev pub store_of_found : Client Store → List Store → Option WebhookEvent → Option Store
store_of_found db ss none = none
store_of_found db ss (some e) = store_of db ss e

module _ {Outside : Type 0} (events : Client WebhookEvent) where
  -- `updateMany` on the events, with its `count`
  unfoldable pub write_events :
      (WebhookEvent → Bool) → (WebhookEvent → WebhookEvent) → Action Thrown (World Outside) ℕ
  write_events p f w =
      let (rows, n) = events.update_many p f w.events in (ok n, record w { events = rows })

  unfoldable pub claim : JobData → Date → Action Thrown (World Outside) ℕ
  claim job now w = write_events (claimable w.tenants w.stores job now) (take_lease now) w

  -- `releaseForRetry`
  unfoldable pub release_for_retry :
      Key → Date → Diagnostic → Date → Action Thrown (World Outside) ⊤
  release_for_retry id claimed_at d now =
      write_events (leased id claimed_at) (release d now) >> pure tt

  -- `failClaimed`
  unfoldable pub fail_claimed : Key → Date → Diagnostic → Date → Action Thrown (World Outside) ⊤
  fail_claimed id claimed_at d now = write_events (leased id claimed_at) (fail d now) >> pure tt

  unfoldable pub record_completion :
      ClaimedEvent → Instants → Action Thrown (World Outside) JobResult
  record_completion e times = do
    n ← write_events (leased e.id times.claimed_at) (complete times.settled_at)
    if n == 1 then pure (result e.id e.store) else throw (retry lifecycle_update_failed)

  -- The `catch` block.
  unfoldable pub record_failure :
      ClaimedEvent → Instants → Failure → Action Thrown (World Outside) JobResult
  record_failure e times f =
      let d = failure_diagnostic f in
      if is_retryable f
      then release_for_retry e.id times.claimed_at d times.settled_at
        >> throw (retry (processing_failed f))
      else fail_claimed e.id times.claimed_at d times.settled_at
        >> throw (unrecoverable (processing_failed f))

  unfoldable pub settle :
      ClaimedEvent → Instants → Result Failure ⊤ → Action Thrown (World Outside) JobResult
  settle e times (ok u) = record_completion e times
  settle e times (err f) = record_failure e times f

  -- `markFailed`, for a job whose attempts are used up
  unfoldable pub mark_failed : JobFields → Failure → Date → Action Thrown (World Outside) ⊤
  mark_failed fields f now = do
    job ← lift (validate_job_data fields)
    write_events (open_by_id job.webhook_event_id) (fail (failure_diagnostic f) now)
    pure tt

module _ {Outside Signal : Type 0} (pipe : Pipeline Outside Signal) (events : Client WebhookEvent)
    (stores : Client Store) where
  -- `resolveUnclaimed`
  unfoldable pub resolve_unclaimed : Key → Date → Action Thrown (World Outside) JobResult
  resolve_unclaimed id now w =
      let found = events.find_first (λ e. e.id == id) w.events in
      (settle_unclaimed found (store_of_found stores w.stores found) now, w)

  -- The handlers run on the rest of the world, and what they wrote before they threw stays.
  unfoldable pub run_handler : ClaimedEvent → Action Thrown (World Outside) (Result Failure ⊤)
  run_handler e w = let (r, o) = handle pipe e w.outside in (ok r, record w { outside = o })

  unfoldable pub process_event :
      ClaimedEvent → Instants → Bool → Action Thrown (World Outside) JobResult
  process_event e times true = run_handler e >>= settle events e times
  process_event e times false =
      fail_claimed events e.id times.claimed_at
        (record { category = unexpected; message = store_disconnected_message }) times.settled_at
      >> throw (unrecoverable store_disconnected)

  -- What follows a claim: the event is read, its Store is checked again, and it is handled.
  unfoldable pub process_claimed : JobData → Instants → Action Thrown (World Outside) JobResult
  process_claimed job times = do
    w ← get
    e ←
        or_throw (events.find_first (λ e. e.id == job.webhook_event_id) w.events)
          (unrecoverable event_unavailable)
    let still_active =
        stores.count
          (λ s. s.id == job.store_id && s.tenant_id == job.tenant_id && store_live w.tenants s)
          w.stores
    s ← or_throw (store_of stores w.stores e) (unrecoverable event_unavailable)
    process_event (claimed_event e s) times (still_active == 1)

  unfoldable pub process : JobFields → Instants → Action Thrown (World Outside) JobResult
  process fields times = do
    job ← lift (validate_job_data fields)
    n ← claim events job times.claimed_at
    if n == 1
        then process_claimed job times
        else resolve_unclaimed job.webhook_event_id times.resolved_at
