-- ===== src/Webhooks/Steps.antt =====
-- The life of an event when any number of workers, the queue's last-failure hook and the ingestion
-- write to the table in any order. A step is one of their writes, or a change elsewhere.
use wctm.Prelude.{
  ◌≤◌, Key, Date, length, ◌≡◌, refl, Bool, true, false, List, ◌∷◌, Memᴰ, arith, ok, err, Result, ⊤,
  Bool-cases, inl, inr, ◌⊎◌,
}
use wctm.Database.Methods.{Client}
use wctm.Database.Rows.{All, All-map_where, map_where_keeps}
use wctm.Webhooks.Events.{
  WebhookEvent, Store, Tenant, JobData, claimable, take_lease, leased, fail, open_by_id, Failure,
  Diagnostic, failure_diagnostic, is_retryable,
}
use wctm.Webhooks.Processor.{
  World, ClaimedEvent, Instants, JobFields, write_events, claim, settle, record_completion,
  record_failure, release_for_retry, fail_claimed, mark_failed, validate_job_data, Thrown,
}
use wctm.Webhooks.Headers.{RequiredHeaders}
use wctm.Webhooks.Lifecycle.{
  IsSound, diagnostic_fits, take_lease-IsSound, fail-IsSound, acknowledge-IsSound, outcome,
  outcome-IsSound, IsFinal,
}
use wctm.Webhooks.Ingestion.{fresh_event, acknowledge, still_received}

module _ {Outside : Type 0} (events : Client WebhookEvent) where
  pub data Step (w w' : World Outside) : Type 0 where
    -- a worker claims an event, or finds none to claim
    claims : (job : JobData) (now : Date) → w' ≡ (claim events job now w).1 → Step w w'
    -- a worker records how its work ended
    settles :
        (e : ClaimedEvent) (times : Instants) (r : Result Failure ⊤)
        → w' ≡ (settle events e times r w).1
        → Step w w'
    -- a worker that found the Store disconnected gives its event up
    disconnects :
        (id : Key) (claimed_at : Date) (d : Diagnostic) (now : Date)
        → length d.message ≤ 191
        → w' ≡ (fail_claimed events id claimed_at d now w).1
        → Step w w'
    -- the queue has used up the attempts of a job
    gives_up :
        (fields : JobFields) (f : Failure) (now : Date)
        → w' ≡ (mark_failed events fields f now w).1
        → Step w w'
    -- the ingestion stores a delivery, and records that it is handed over
    delivers :
        (id : Key) (s : Store) (h : RequiredHeaders) (payload : Key) (now : Date)
        → w' ≡ record w { events = fresh_event id s h payload now ∷ w.events }
        → Step w w'
    acknowledges :
        (e : WebhookEvent) (now : Date)
        → w' ≡ (write_events events (still_received e) (acknowledge now) w).1
        → Step w w'
    -- Stores, Tenants and the rest of the world change
    elsewhere :
        (ss : List Store) (ts : List Tenant) (o : Outside)
        → w' ≡ record w { stores = ss; tenants = ts; outside = o }
        → Step w w'

  pub data Reach (w : World Outside) : World Outside → Type 0 where
    here : Reach w w
    next : {v u : World Outside} → Reach w v → Step v u → Reach w u

  abbrev pub AllSound : World Outside → Type 0
  AllSound w = All IsSound w.events

  write_events-AllSound :
      (p : WebhookEvent → Bool) (f : WebhookEvent → WebhookEvent) (w : World Outside)
      → ((e : WebhookEvent) → p e ≡ true → IsSound e → IsSound (f e))
      → AllSound w
      → AllSound (write_events events p f w).1
  unfolding write_events
  write_events-AllSound p f w keep h =
      rw (events.update_many_rows p f w.events)
        (All-map_where IsSound p f w.events (λ e v q. keep e q v) h)

  pub settle_write :
      (e : ClaimedEvent) (times : Instants) (r : Result Failure ⊤) (w : World Outside)
      → (settle events e times r w).1
        ≡ (write_events events (leased e.id times.claimed_at) (outcome times r) w).1
  unfolding settle record_completion record_failure release_for_retry fail_claimed write_events
  settle_write e times (ok u) w = ground arith
  settle_write e times (err f) w = elim (Bool-cases (is_retryable f)) [
    | inl y ↦ rw y
    | inr n ↦ rw n
  ]

  -- The write of `markFailed`, if the job's payload is valid.
  pub mark_failed_write :
      (fields : JobFields) (f : Failure) (now : Date) (w : World Outside)
      → ((mark_failed events fields f now w).1 ≡ w)
        ⊎ ((id : Key) × ((mark_failed events fields f now w).1
              ≡ (write_events events (open_by_id id) (fail (failure_diagnostic f) now) w).1))
  unfolding mark_failed write_events
  mark_failed_write fields f now w = validated (validate_job_data fields) refl
    where
      validated :
          (v : Result Thrown JobData)
          → validate_job_data fields ≡ v
          → ((mark_failed events fields f now w).1 ≡ w)
            ⊎ ((id : Key) × ((mark_failed events fields f now w).1
                  ≡ (write_events events (open_by_id id) (fail (failure_diagnostic f) now) w).1))
      validated (ok job) e = inr (job.webhook_event_id, rw e)
      validated (err x) e = inl (rw e)

  Step-AllSound : {w w' : World Outside} → Step w w' → AllSound w → AllSound w'
  unfolding claim fail_claimed write_events
  Step-AllSound {w} (claims job now e) h = rw e (
      write_events-AllSound (claimable w.tenants w.stores job now) (take_lease now) w
        (λ r q v. take_lease-IsSound now r v) h)
  Step-AllSound {w} (settles c times r e) h =
      rw (e, settle_write c times r w)
        (write_events-AllSound (leased c.id times.claimed_at) (outcome times r) w
          (λ x q v. outcome-IsSound c.id times r x q v) h)
  Step-AllSound {w} (disconnects id claimed_at d now l e) h = rw e (
      write_events-AllSound (leased id claimed_at) (fail d now) w
        (λ x q v. fail-IsSound d now x l v) h)
  Step-AllSound {w} (gives_up fields f now e) h = elim (mark_failed_write fields f now w) [
    | inl n ↦ rw (e, n) h
    | inr (id, n) ↦
        rw (e, n)
          (write_events-AllSound (open_by_id id) (fail (failure_diagnostic f) now) w
            (λ x q v. fail-IsSound (failure_diagnostic f) now x (diagnostic_fits f) v) h)
  ]
  Step-AllSound {w} (delivers id s hd payload now e) h = rw e (ground arith, h)
  Step-AllSound {w} (acknowledges x now e) h = rw e (
      write_events-AllSound (still_received x) (acknowledge now) w
        (λ r q v. acknowledge-IsSound x now r q v) h)
  Step-AllSound {w} (elsewhere ss ts o e) h = rw e h

  -- Every event is sound in every state that any interleaving of the writes reaches from a state in
  -- which all are: it has a lease exactly while it is processed, a completed one has its time and no
  -- failure category, a failed one its time and a category, one that is processed or completed has been
  -- attempted, and a failure message has at most 191 characters.
  pub Reach-AllSound : {w w' : World Outside} → Reach w w' → AllSound w → AllSound w'
  Reach-AllSound here h = h
  Reach-AllSound (next r s) h = Step-AllSound s (Reach-AllSound r h)

  write_events-mem :
      (p : WebhookEvent → Bool) (f : WebhookEvent → WebhookEvent) (w : World Outside)
      (e : WebhookEvent)
      → p e ≡ false
      → Memᴰ e w.events
      → Memᴰ e (write_events events p f w).1.events
  unfolding write_events
  write_events-mem p f w e q m =
      rw (events.update_many_rows p f w.events) (map_where_keeps p f e w.events m q)

  Step-final :
      {w w' : World Outside} (e : WebhookEvent)
      → IsFinal e
      → Step w w'
      → Memᴰ e w.events
      → Memᴰ e w'.events
  unfolding claim fail_claimed write_events
  Step-final {w} e d (claims job now q) m = rw q (
      write_events-mem (claimable w.tenants w.stores job now) (take_lease now) w e (ground arith) m)
  Step-final {w} e d (settles c times r q) m =
      rw (q, settle_write c times r w)
        (write_events-mem (leased c.id times.claimed_at) (outcome times r) w e (ground arith) m)
  Step-final {w} e d (disconnects id claimed_at x now l q) m =
      rw q (write_events-mem (leased id claimed_at) (fail x now) w e (ground arith) m)
  Step-final {w} e d (gives_up fields f now q) m = elim (mark_failed_write fields f now w) [
    | inl n ↦ rw (q, n) m
    | inr (id, n) ↦
        rw (q, n)
          (write_events-mem (open_by_id id) (fail (failure_diagnostic f) now) w e (ground arith) m)
  ]
  Step-final {w} e d (delivers id s hd payload now q) m = rw q (Memᴰ.tail m)
  Step-final {w} e d (acknowledges x now q) m =
      rw q (write_events-mem (still_received x) (acknowledge now) w e (ground arith) m)
  Step-final {w} e d (elsewhere ss ts o q) m = rw q m

  -- A completed or failed event is never written again: it stays in the table as it is, whatever the
  -- workers, the queue and the ingestion do.
  pub Reach-final :
      {w w' : World Outside} (e : WebhookEvent)
      → IsFinal e
      → Reach w w'
      → Memᴰ e w.events
      → Memᴰ e w'.events
  Reach-final e d here m = m
  Reach-final e d (next r s) m = Step-final e d s (Reach-final e d r m)
