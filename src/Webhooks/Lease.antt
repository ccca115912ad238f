-- ===== src/Webhooks/Lease.antt =====
-- The lease of a worker on an event: what a claim writes, and what a worker that has lost it can still
-- do.
use wctm.Prelude.{
  Key, Date, ◌≡◌, ◌≢◌, refl, ap, ◌∙◌, Bool, false, some, Memᴰ, arith, ok, err, Bool-cases, inl, inr,
  Result, ⊤, ◌==◌,
}
use wctm.Database.Methods.{Client}
use wctm.Database.Rows.{map_where, count_where, count_where_none, map_where_unchanged}
use wctm.Database.Keys.{HasKeys, written_row}
use wctm.Webhooks.Events.{
  complete, release, fail, failure_diagnostic, is_retryable, processing, WebhookEvent, JobData,
  claimable, take_lease, leased, Failure,
}
use wctm.Webhooks.Processor.{
  World, ClaimedEvent, Instants, write_events, claim, settle, record_completion, record_failure,
  release_for_retry, fail_claimed, Thrown, retry, unrecoverable, lifecycle_update_failed,
  processing_failed,
}

not_leased :
    (id : Key) (claimed_at : Date) (e : WebhookEvent) (now : Date)
    → claimed_at ≢ now
    → (e.id ≡ id → (e.status ≡ processing) × (e.processing_started_at ≡ some now))
    → leased id claimed_at e ≡ false
not_leased id claimed_at e now late h = elim (Bool-cases (e.id == id)) [
  | inl y ↦ let k = h (ground arith) in ground arith
  | inr n ↦ ground arith
]

module _ {Outside : Type 0} (events : Client WebhookEvent) where
  claim_rows :
      (job : JobData) (now : Date) (w : World Outside)
      → (claim events job now w).1 ≡ record w {
        events = map_where (claimable w.tenants w.stores job now) (take_lease now) w.events;
      }
  unfolding claim write_events
  claim_rows job now w =
      rw (events.update_many_rows (claimable w.tenants w.stores job now) (take_lease now) w.events)

  claim_count :
      (job : JobData) (now : Date) (w : World Outside)
      → (claim events job now w).0
        ≡ ok (count_where (claimable w.tenants w.stores job now) w.events)
  unfolding claim write_events
  claim_count job now w =
      ap ok
        (events.update_many_count (claimable w.tenants w.stores job now) (take_lease now) w.events)

  -- After a claim that succeeded, every row with the event's identifier is leased since then.
  pub claimed_row :
      (job : JobData) (now : Date) (w : World Outside) (e : WebhookEvent)
      → HasKeys (λ e. e.id) w.events
      → (claim events job now w).0 ≡ ok 1
      → Memᴰ e (claim events job now w).1.events
      → e.id ≡ job.webhook_event_id
      → (e.status ≡ processing) × (e.processing_started_at ≡ some now)
  unfolding take_lease
  claimed_row job now w e keys h m same =
      let (x, n, t, u) =
        written_row (λ e. e.id) (claimable w.tenants w.stores job now) (take_lease now) w.events
          job.webhook_event_id e keys (λ y v. ground arith) (ground (arith, claim_count job now w))
          (rw (claim_rows job now w) at m) same in
      (ap (λ (r : WebhookEvent). r.status) u, ap (λ (r : WebhookEvent). r.processing_started_at) u)

  pub write_nothing :
      (p : WebhookEvent → Bool) (f : WebhookEvent → WebhookEvent) (w : World Outside)
      → ((e : WebhookEvent) → Memᴰ e w.events → p e ≡ false)
      → write_events events p f w ≡ (ok 0, w)
  unfolding write_events
  write_nothing p f w none_selected =
      let c = count_where_none p w.events none_selected in
      rw (
        events.update_many_rows p f w.events,
        events.update_many_count p f w.events,
        map_where_unchanged p f w.events c,
        c,
      )

  settle_nothing :
      (e : ClaimedEvent) (times : Instants) (r : Result Failure ⊤) (w : World Outside)
      → ((x : WebhookEvent) → Memᴰ x w.events → leased e.id times.claimed_at x ≡ false)
      → ((settle events e times r w).1 ≡ w) × (x : Thrown) × ((settle events e times r w).0 ≡ err x)
  unfolding settle record_completion record_failure release_for_retry fail_claimed
  settle_nothing e times (ok u) w h =
      let n = write_nothing (leased e.id times.claimed_at) (complete times.settled_at) w h in
      rw n (refl, retry lifecycle_update_failed, refl)
  settle_nothing e times (err f) w h = elim (Bool-cases (is_retryable f)) [
    | inl y ↦
        rw
          (
            y,
            write_nothing (leased e.id times.claimed_at)
                (release (failure_diagnostic f) times.settled_at) w h,
          )
          (refl, retry (processing_failed f), refl)
    | inr n ↦
        rw
          (
            n,
            write_nothing (leased e.id times.claimed_at)
                (fail (failure_diagnostic f) times.settled_at) w h,
          )
          (refl, unrecoverable (processing_failed f), refl)
  ]

  -- Where no two events have the same identifier: once an event has been claimed again, at another
  -- time than the worker's own claim, what the worker does at the end of its work, however it ended,
  -- changes nothing, and the worker throws.
  pub stale_worker :
      (job : JobData) (now : Date) (w : World Outside) (e : ClaimedEvent) (times : Instants)
      (r : Result Failure ⊤)
      → HasKeys (λ x. x.id) w.events
      → (claim events job now w).0 ≡ ok 1
      → e.id ≡ job.webhook_event_id
      → times.claimed_at ≢ now
      → let w' = (claim events job now w).1 in
        ((settle events e times r w').1 ≡ w')
        × (x : Thrown) × ((settle events e times r w').0 ≡ err x)
  stale_worker job now w e times r keys h same late =
      settle_nothing e times r (claim events job now w).1 (λ x m.
        not_leased e.id times.claimed_at x now late
          (λ s. claimed_row job now w x keys h m (s ∙ same)))
