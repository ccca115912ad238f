-- ===== src/Webhooks/Outcome.antt =====
-- A whole call of `process`: the steps of Webhooks/Steps.antt that it takes, and what its answer means.
use wctm.Prelude.{
  ℕ, Key, Date, ◌≡◌, refl, Bool, true, false, Option, none, some, Memᴰ, arith, ok, err, Result, ⊤,
  Option-cases, Bool-cases, inl, inr, ◌⊎◌, if◌then◌else◌, ◌==◌,
}
use wctm.Database.Methods.{Client}
use wctm.Database.Rows.{count_where-found}
use wctm.Database.Keys.{map_where-mem}
use wctm.Webhooks.Events.{
  WebhookEvent, Store, JobData, leased, lease_held, complete, Failure, unexpected,
  store_disconnected_message, is_completed, is_processing,
}
use wctm.Webhooks.Processor.{
  Pipeline, World, ClaimedEvent, Instants, JobFields, JobResult, Thrown, write_events, claim,
  fail_claimed, settle, record_completion, record_failure, release_for_retry, validate_job_data,
  claimed_event, store_of, settle_unclaimed, resolve_unclaimed, run_handler, handle, process_event,
  process_claimed, process,
}
use wctm.Webhooks.Steps.{Reach, claims, settles, disconnects, elsewhere, here, next}

module _ {Outside Signal : Type 0} (pipe : Pipeline Outside Signal) (events : Client WebhookEvent)
    (stores : Client Store) where
  process_event-Reach :
      (e : ClaimedEvent) (times : Instants) (b : Bool) (w : World Outside)
      → Reach events w (process_event pipe events stores e times b w).1
  unfolding process_event run_handler fail_claimed write_events
  process_event-Reach e times true w =
      next (next here (elsewhere w.stores w.tenants (handle pipe e w.outside).1 refl))
        (settles e times (handle pipe e w.outside).0 refl)
  process_event-Reach e times false w = next here (
      disconnects e.id times.claimed_at
        (record { category = unexpected; message = store_disconnected_message }) times.settled_at
        (omega arith) refl)

  process_claimed-Reach :
      (job : JobData) (times : Instants) (w : World Outside)
      → Reach events w (process_claimed pipe events stores job times w).1
  unfolding process_claimed
  process_claimed-Reach job times w =
      elim (Option-cases (events.find_first (λ e. e.id == job.webhook_event_id) w.events)) [
        | inl n ↦ rw n here
        | inr (e, f) ↦ rw f (elim (Option-cases (store_of stores w.stores e)) [
          | inl n ↦ rw n here
          | inr (s, g) ↦ rw g (process_event-Reach (claimed_event e s) times _ w)
        ])
      ]

  Reach-trans : {u v w : World Outside} → Reach events u v → Reach events v w → Reach events u w
  Reach-trans r here = r
  Reach-trans r (next q s) = next (Reach-trans r q) s

  -- A call of `process` that nothing interrupts does nothing to the world but steps of the kinds that
  -- Webhooks/Steps.antt lists, whether it returns or throws.
  process-Reach :
      (fields : JobFields) (times : Instants) (w : World Outside)
      → Reach events w (process pipe events stores fields times w).1
  unfolding process resolve_unclaimed claim write_events
  process-Reach fields times w = validated (validate_job_data fields) refl
    where
      after :
          (job : JobData) (w' : World Outside) (n : ℕ)
          → Reach events w'
              ((if n == 1
                  then process_claimed pipe events stores job times
                  else resolve_unclaimed pipe events stores job.webhook_event_id times.resolved_at)
                w').1
      after job w' n = elim (Bool-cases (n == 1)) [
        | inl y ↦ rw y (process_claimed-Reach job times w')
        | inr no_claim ↦ rw no_claim here
      ]

      validated :
          (v : Result Thrown JobData)
          → validate_job_data fields ≡ v
          → Reach events w (process pipe events stores fields times w).1
      validated (err x) e = rw (e, process) here
      validated (ok job) e =
          let w' = (claim events job times.claimed_at w).1 in
          rw (e, process)
            (Reach-trans (next here (claims job times.claimed_at refl)) (after job w' _))

  -- The event of an answer is completed, or another worker holds its lease.
  abbrev pub IsTakenCareOf : Date → WebhookEvent → Type 0
  IsTakenCareOf now e =
      (is_completed e.status ≡ true)
      ⊎ (is_processing e.status ≡ true) × (lease_held e.processing_started_at now ≡ true)

  completion_lem :
      (e : ClaimedEvent) (times : Instants) (w : World Outside) (r : JobResult)
      → (record_completion events e times w).0 ≡ ok r
      → (x : WebhookEvent) × Memᴰ x (record_completion events e times w).1.events
        × (is_completed x.status ≡ true)
        × (x.id ≡ r.webhook_event_id)
  unfolding record_completion write_events complete
  completion_lem e times w r h =
      let p : WebhookEvent → Bool = leased e.id times.claimed_at in
      elim (Bool-cases (
        (events.update_many (leased e.id times.claimed_at) (complete times.settled_at) w.events).1
        == 1)) [
          | inr n ↦ absurd (ground arith)
          | inl y ↦
              let (x, m, t) = count_where-found (leased e.id times.claimed_at) w.events (
                ground (
                  arith,
                  events.update_many_count (leased e.id times.claimed_at)
                      (complete times.settled_at) w.events,
                )) in
              rw
                (
                  y,
                  events.update_many_rows (leased e.id times.claimed_at) (complete times.settled_at)
                      w.events,
                )
                (
                  complete times.settled_at x,
                  map_where-mem (leased e.id times.claimed_at) (complete times.settled_at) x
                      w.events m t,
                  refl,
                  ground arith,
                )
        ]

  settle_unclaimed_lem :
      (e : WebhookEvent) (o : Option Store) (now : Date) (r : JobResult)
      → settle_unclaimed (some e) o now ≡ ok r
      → IsTakenCareOf now e × (e.id ≡ r.webhook_event_id)
  unfolding settle_unclaimed
  settle_unclaimed_lem e none now r h = cc
  settle_unclaimed_lem e (some s) now r h = ground arith

  settle_unclaimed-none :
      (o : Option Store) (now : Date) (r : JobResult) → settle_unclaimed none o now ≡ ok r → ⊥
  unfolding settle_unclaimed
  settle_unclaimed-none o now r h = cc

  -- What an answer of `process` says of the state in which it is given.
  abbrev pub Answered : Date → JobResult → World Outside → Type 0
  Answered now r w =
      (x : WebhookEvent) × Memᴰ x w.events × IsTakenCareOf now x × (x.id ≡ r.webhook_event_id)

  process_event-Answered :
      (e : ClaimedEvent) (times : Instants) (b : Bool) (w : World Outside) (r : JobResult)
      → (process_event pipe events stores e times b w).0 ≡ ok r
      → Answered times.resolved_at r (process_event pipe events stores e times b w).1
  unfolding process_event run_handler fail_claimed write_events settle record_failure
      release_for_retry
  process_event-Answered e times false w r h = absurd (ground arith)
  process_event-Answered e times true w r h =
      settled (handle pipe e w.outside).0 (record w { outside = (handle pipe e w.outside).1 }) h
    where
      settled :
          (o : Result Failure ⊤) (v : World Outside)
          → (settle events e times o v).0 ≡ ok r
          → Answered times.resolved_at r (settle events e times o v).1
      settled (ok u) v q = let (x, m, d, i) = completion_lem e times v r q in (x, m, inl d, i)
      settled (err f) v q = absurd (ground arith)

  process_claimed-Answered :
      (job : JobData) (times : Instants) (w : World Outside) (r : JobResult)
      → (process_claimed pipe events stores job times w).0 ≡ ok r
      → Answered times.resolved_at r (process_claimed pipe events stores job times w).1
  unfolding process_claimed
  process_claimed-Answered job times w r h =
      elim (Option-cases (events.find_first (λ e. e.id == job.webhook_event_id) w.events)) [
        | inl n ↦ absurd (ground arith)
        | inr (e, f) ↦ elim (Option-cases (store_of stores w.stores e)) [
          | inl n ↦ absurd (ground arith)
          | inr (s, g) ↦
              rw (f, g) (process_event-Answered (claimed_event e s) times _ w r (rw (f, g) at h))
        ]
      ]

  resolve_unclaimed-Answered :
      (id : Key) (now : Date) (w : World Outside) (r : JobResult)
      → (resolve_unclaimed pipe events stores id now w).0 ≡ ok r
      → Answered now r w
  unfolding resolve_unclaimed
  resolve_unclaimed-Answered id now w r h =
      elim (Option-cases (events.find_first (λ e. e.id == id) w.events)) [
        | inl n ↦ absurd (settle_unclaimed-none none now r (rw n at h))
        | inr (e, f) ↦
            let (t, i) = settle_unclaimed_lem e (store_of stores w.stores e) now r (rw f at h) in
            (e, (events.found (λ e. e.id == id) w.events e f).0, t, i)
      ]

  -- A job that `process` answers is taken care of: its event is in the table, and is completed, or
  -- another worker holds a lease on it that has not run out.
  pub process_answer :
      (fields : JobFields) (times : Instants) (w : World Outside) (r : JobResult)
      → (process pipe events stores fields times w).0 ≡ ok r
      → Answered times.resolved_at r (process pipe events stores fields times w).1
  unfolding process claim write_events resolve_unclaimed
  process_answer fields times w r h = validated (validate_job_data fields) refl
    where
      after :
          (job : JobData) (w' : World Outside) (n : ℕ)
          → ((if n == 1
                then process_claimed pipe events stores job times
                else resolve_unclaimed pipe events stores job.webhook_event_id times.resolved_at)
              w').0
            ≡ ok r
          → Answered times.resolved_at r
              ((if n == 1
                  then process_claimed pipe events stores job times
                  else resolve_unclaimed pipe events stores job.webhook_event_id times.resolved_at)
                w').1
      after job w' n q = elim (Bool-cases (n == 1)) [
        | inl y ↦ rw y (process_claimed-Answered job times w' r (rw y at q))
        | inr no_claim ↦ rw no_claim (
            resolve_unclaimed-Answered job.webhook_event_id times.resolved_at w' r
              (rw no_claim at q))
      ]

      validated :
          (v : Result Thrown JobData)
          → validate_job_data fields ≡ v
          → Answered times.resolved_at r (process pipe events stores fields times w).1
      validated (err x) e = absurd (cc (let q = rw (e, process) at h in q))
      validated (ok job) e =
          rw (e, process)
            (after job (claim events job times.claimed_at w).1 _ (rw (e, process) at h))
