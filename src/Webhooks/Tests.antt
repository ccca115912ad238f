-- ===== src/Webhooks/Tests.antt =====
-- Deliveries and jobs on small tables.
use wctm.Prelude.{
  ℕ, ◌+◌, Text, codes, ◌≡◌, refl, ◌⊎◌, inl, inr, true, false, none, some, List, [], ◌∷◌, Memᴰ,
  arith, ◌==◌, ◌&&◌, text_eq, ok, err, pure, ap, sym, ◌∙◌, if◌then◌else◌,
}
use wctm.Database.Methods.{Client}
use wctm.Database.Keys.{HasKeys-pair}
use wctm.Database.Memory.{memory}
use wctm.Webhooks.Events.{
  queued, completed, active, WebhookEvent, Store, Tenant, JobData, take_lease, is_received, Failure,
}
use wctm.Webhooks.Processor.{
  Pipeline, World, JobFields, Instants, Thrown, claim, settle, process, write_events, claimed_event,
  result, validate_job_data, handle, process_claimed, process_event, run_handler, record_completion,
}
use wctm.Webhooks.Headers.{
  Headers, single, RequiredHeaders, Error, require_headers, check_signature,
  require_identity_header, signature_header,
}
use wctm.Webhooks.Ingestion.{
  Services, Inbox, receive, authenticate, decrypt_secret, persist_or_find, hand_over,
  store_delivery, same_delivery,
}
use wctm.Webhooks.Lifecycle.{IsSound}
use wctm.Webhooks.Lease.{stale_worker}
use wctm.Webhooks.Exclusion.{ReachSparing, claim_exclusive}
use wctm.Webhooks.Steps.{Reach, here, next, claims, settles, AllSound, Reach-AllSound, Reach-final}
use wctm.Webhooks.Outcome.{Answered, process_answer}
use wctm.Webhooks.Handling.{Unhandled, Ran, process-Ran}
use wctm.Webhooks.Stored.{HandedOver}
use wctm.Webhooks.Deliveries.{
  IsAuthentic, receive-IsAuthentic, receive_stored, redelivery_unchanged,
}

abbrev shop : Store
shop = record {
  id = 1;
  tenant_id = 10;
  status = active;
  deleted_at = none;
  webhook_endpoint_key = some 77;
  webhook_secret_encrypted = some 5;
}

abbrev tenants : List Tenant
tenants = record { id = 10; deleted_at = none } ∷ []

abbrev waiting : WebhookEvent
waiting = record {
  id = 3;
  tenant_id = 10;
  store_id = 1;
  webhook_id = codes "w-1";
  delivery_id = codes "d-1";
  dedupe_key = codes "d-1";
  topic = codes "order.updated";
  payload = 0;
  status = queued;
  received_at = 1000;
  queued_at = some 1001;
  processing_started_at = none;
  processing_attempt_count = 0;
  failure_category = none;
  failure_message = none;
  last_failure_at = none;
  completed_at = none;
  failed_at = none;
}

abbrev done : WebhookEvent
done = record waiting {
  id = 4;
  delivery_id = codes "d-2";
  dedupe_key = codes "d-2";
  status = completed;
  processing_attempt_count = 1;
  completed_at = some 1500;
}

abbrev world : World ℕ
world = record { events = waiting ∷ done ∷ []; stores = shop ∷ []; tenants = tenants; outside = 0 }

abbrev events : Client WebhookEvent
events = memory (λ a b. a.store_id == b.store_id && text_eq a.dedupe_key b.dedupe_key)

abbrev stores : Client Store
stores = memory (λ a b. a.id == b.id)

abbrev job : JobData
job = record { webhook_event_id = 3; tenant_id = 10; store_id = 1 }

abbrev fields : JobFields
fields = record { webhook_event_id = some 3; tenant_id = some 10; store_id = some 1 }

-- A projection that counts its runs.
abbrev pipe : Pipeline ℕ ℕ
pipe = record {
  project_order = λ e n. (ok tt, n + 1);
  schedule_order = λ e. pure tt;
  project_product = λ e. pure [];
  schedule_inventory = λ t s i. pure tt;
}

abbrev times : Instants
times = record { claimed_at = 2000; settled_at = 2500; resolved_at = 2600 }

one_run : (process pipe events stores fields times world).0 ≡ ok (result 3 shop)
unfolding process claim write_events memory validate_job_data settle handle take_lease
    process_claimed process_event run_handler record_completion
one_run = refl

-- Another claim is tried, and a worker with a lease of an earlier time releases nothing.
between :
    ReachSparing events 3 2000
      (claim events job 2000 world).1
      (settle events
        (claimed_event waiting shop)
        (record times { claimed_at = 1000 })
        (err Failure.other)
        (claim events job 3000 (claim events job 2000 world).1).1).1
between =
    ReachSparing.next (ReachSparing.next ReachSparing.here (claims job 3000 refl) (omega arith))
      (settles (claimed_event waiting shop) (record times { claimed_at = 1000 }) (err Failure.other)
        refl)
      (inr (inr (λ h. omega arith)))

claim_exclusive_example :
    let u =
      (settle events
        (claimed_event waiting shop)
        (record times { claimed_at = 1000 })
        (err Failure.other)
        (claim events job 3000 (claim events job 2000 world).1).1).1 in
    claim events job 31999 u ≡ (ok 0, u)
unfolding claim memory write_events
claim_exclusive_example =
    claim_exclusive events job job 2000 31999 world
      (settle events (claimed_event waiting shop) (record times { claimed_at = 1000 })
        (err Failure.other) (claim events job 3000 (claim events job 2000 world).1).1).1
      (HasKeys-pair (λ e. e.id) waiting done (λ h. omega arith)) refl between refl (omega arith)

stale_worker_example :
    let w' = (claim events job 40000 world).1 in
    ((settle events (claimed_event waiting shop) times (ok tt) w').1 ≡ w')
    × (x : Thrown) × ((settle events (claimed_event waiting shop) times (ok tt) w').0 ≡ err x)
unfolding claim memory write_events
stale_worker_example =
    stale_worker events job 40000 world (claimed_event waiting shop) times (ok tt)
      (HasKeys-pair (λ e. e.id) waiting done (λ h. omega arith)) refl refl (λ h. omega arith)

waiting-IsSound : IsSound waiting
waiting-IsSound = record {
  lease = refl;
  completion = inl refl;
  failure = inl refl;
  attempted = inl refl;
  message = tt;
}

done-IsSound : IsSound done
done-IsSound = record {
  lease = refl;
  completion = inr (refl, refl);
  failure = inl refl;
  attempted = inr (omega arith);
  message = tt;
}

claimed-Reach : Reach events world (claim events job 2000 world).1
claimed-Reach = next here (claims job 2000 refl)

Reach-AllSound_example : AllSound events (claim events job 2000 world).1
Reach-AllSound_example = Reach-AllSound events claimed-Reach (waiting-IsSound, (done-IsSound, tt))

Reach-final_example : Memᴰ done (claim events job 2000 world).1.events
Reach-final_example = Reach-final events done refl claimed-Reach (Memᴰ.tail (Memᴰ.head refl))

process-Ran_example :
    Unhandled pipe events stores world (process pipe events stores fields times world).1
    ⊎ ((j : JobData) × (validate_job_data fields ≡ ok j)
        × ((claim events j 2000 world).0 ≡ ok 1)
        × Ran pipe events stores j times
            (claim events j 2000 world).1
            (process pipe events stores fields times world))
process-Ran_example = process-Ran pipe events stores fields times world

process_answer_example :
    Answered pipe events stores 2600
      (result 3 shop)
      (process pipe events stores fields times world).1
process_answer_example =
    process_answer pipe events stores fields times world (result 3 shop) one_run

-- The signature is any text of 32 bytes, and the digest is the same text.
abbrev digest : Text
digest = codes "0123456789abcdef0123456789abcdef"

abbrev services : Services ℕ
services = record {
  decrypt = λ c. some (codes "secret");
  hmac = λ secret body. digest;
  from_base64 = λ t. digest;
  parse = λ t. some 9;
  minimize = λ topic p. p;
  enqueue = λ j q. some (q + 1);
}

abbrev signature : Text
signature = codes "MDEyMzQ1Njc4OWFiY2RlZjAxMjM0NTY3ODlhYmNkZWY="

-- One text is the signature, every other header is an identity.
abbrev headers : Headers
headers name = if text_eq name signature_header then single signature else single (codes "d-9")

abbrev inbox : Inbox ℕ
inbox = record { events = waiting ∷ done ∷ []; stores = shop ∷ []; tenants = tenants; queue = 0 }

abbrev required : RequiredHeaders
required = record {
  signature = digest;
  webhook_id = codes "d-9";
  delivery_id = codes "d-1";
  topic = codes "order.updated";
}

received_run :
    (receive services events stores 8 3000 3001 77 headers (some (codes "{}")) inbox).0 ≡ ok tt
unfolding receive memory authenticate require_headers check_signature require_identity_header
    decrypt_secret store_delivery persist_or_find hand_over
received_run = refl

receive-IsAuthentic_example :
    ((x : Error) × (receive services events stores 8 3000 3001 77 headers (some (codes "{}")) inbox
        ≡ (err x, inbox)))
    ⊎ ((s : Store) × (h : RequiredHeaders) × IsAuthentic services events stores 77 headers
          (some (codes "{}"))
          inbox
          s
          h)
receive-IsAuthentic_example =
    receive-IsAuthentic services events stores 8 3000 3001 77 headers (some (codes "{}")) inbox

receive_stored_example :
    (s : Store) × (h : RequiredHeaders) × IsAuthentic services events stores 77 headers
      (some (codes "{}"))
      inbox
      s
      h
    × ((r : WebhookEvent) × Memᴰ r
          (receive services events stores 8 3000 3001 77 headers (some (codes "{}")) inbox).1.events
        × (is_received r.status ≡ false)
        × (same_delivery s.id h.delivery_id r ≡ true)
        × HandedOver services events stores r inbox
            (receive services events stores 8 3000 3001 77 headers (some (codes "{}")) inbox).1)
receive_stored_example =
    receive_stored services events stores 8 3000 3001 77 headers (some (codes "{}")) inbox tt
      received_run

delivered_once :
    (x : WebhookEvent) → Memᴰ x inbox.events → same_delivery 1 (codes "d-1") x ≡ true → x ≡ waiting
delivered_once x (Memᴰ.head e) h = e
delivered_once x (Memᴰ.tail (Memᴰ.head e)) h =
    cc (let u : false ≡ true = ap (same_delivery 1 (codes "d-1")) (sym e) ∙ h in u)
delivered_once x (Memᴰ.tail (Memᴰ.tail m)) h = elim m [ ]

redelivery_unchanged_example :
    store_delivery services events stores 8 3000 3001 (shop, required, 9) inbox ≡ (ok tt, inbox)
unfolding memory
redelivery_unchanged_example =
    redelivery_unchanged services events stores 8 3000 3001 shop required 9 inbox waiting refl
      (Memᴰ.head refl) refl delivered_once refl refl
