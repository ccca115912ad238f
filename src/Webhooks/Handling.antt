-- ===== src/Webhooks/Handling.antt =====
-- When a call of `process` runs the handlers of an event, and what it leaves where it does not.
use wctm.Prelude.{
  ℕ, ◌≡◌, refl, ap, ◌∙◌, Bool, true, false, Memᴰ, arith, ok, err, Result, ⊤, Option-cases,
  Bool-cases, inl, inr, ◌⊎◌, ◌==◌, ◌&&◌,
}
use wctm.Database.Methods.{Client}
use wctm.Database.Rows.{map_where, count_where-found}
use wctm.Database.Keys.{mem-map_where}
use wctm.Webhooks.Events.{
  WebhookEvent, Store, JobData, leased, fail, take_lease, claimable, Failure, unexpected,
  store_live, store_disconnected_message, is_completed,
}
use wctm.Webhooks.Processor.{
  Pipeline, World, ClaimedEvent, Instants, JobFields, JobResult, Thrown, write_events, claim,
  fail_claimed, settle, record_failure, release_for_retry, validate_job_data, claimed_event,
  store_of, resolve_unclaimed, run_handler, handle, process_event, process_claimed, process,
}
use wctm.Webhooks.Lifecycle.{outcome}
use wctm.Webhooks.Steps.{settle_write}

module _ {Outside Signal : Type 0} (pipe : Pipeline Outside Signal) (events : Client WebhookEvent)
    (stores : Client Store) where
  -- No handler has run: the rest of the world is as it was, and no event is completed that was not.
  abbrev pub Unhandled : World Outside → World Outside → Type 0
  Unhandled w u =
      (u.outside ≡ w.outside)
      × ((x : WebhookEvent) → Memᴰ x u.events → is_completed x.status ≡ true → Memᴰ x w.events)

  -- The handlers have run once: for an event of the table and its Store, of a job whose Store is live;
  -- the rest of the world is what they left, the rows under the lease have their outcome, and there is
  -- an answer only where they succeeded.
  abbrev pub Ran :
      JobData → Instants → World Outside → Result Thrown JobResult × World Outside → Type 0
  Ran job times w r =
      (e : WebhookEvent) × Memᴰ e w.events
      × (e.id ≡ job.webhook_event_id)
      × (s : Store) × Memᴰ s w.stores
      × (s.id ≡ e.store_id)
      × ((l : Store) × Memᴰ l w.stores × (l.id ≡ job.store_id) × (store_live w.tenants l ≡ true))
      × (r.1.outside ≡ (handle pipe (claimed_event e s) w.outside).1)
      × (r.1.events
          ≡ map_where (leased e.id times.claimed_at)
              (outcome times (handle pipe (claimed_event e s) w.outside).0) w.events)
      × ((x : JobResult)
          → r.0 ≡ ok x
          → (u : ⊤) × ((handle pipe (claimed_event e s) w.outside).0 ≡ ok u))

  Unhandled-write :
      (p : WebhookEvent → Bool) (f : WebhookEvent → WebhookEvent) (w : World Outside)
      → ((e : WebhookEvent) → is_completed (f e).status ≡ false)
      → Unhandled w (write_events events p f w).1
  unfolding write_events
  Unhandled-write p f w never = rw (events.update_many_rows p f w.events) (
    refl,
    λ x m c.
        let (y, n, u) = mem-map_where p f w.events x m in
        elim (Bool-cases (p y)) [
          | inl t ↦
              let v : x ≡ f y = rw t at u in
              absurd (cc (c, never y, ap (λ z. is_completed z.status) v))
          | inr t ↦ let v : x ≡ y = rw t at u in rw v n
        ],
  )

  Unhandled-trans : (u v w : World Outside) → Unhandled u v → Unhandled v w → Unhandled u w
  Unhandled-trans u v w (o, h) (q, k) = (q ∙ o, λ x m c. h x (k x m c) c)

  -- An answer comes only from a success of the handlers.
  settle_ok :
      (e : ClaimedEvent) (times : Instants) (o : Result Failure ⊤) (v : World Outside)
      (x : JobResult)
      → (settle events e times o v).0 ≡ ok x
      → (u : ⊤) × (o ≡ ok u)
  unfolding settle record_failure release_for_retry fail_claimed write_events
  settle_ok e times (ok u) v x h = (u, refl)
  settle_ok e times (err f) v x h = absurd (ground arith)

  settle_outside :
      (e : ClaimedEvent) (times : Instants) (o : Result Failure ⊤) (v : World Outside)
      → ((settle events e times o v).1.outside ≡ v.outside)
        × ((settle events e times o v).1.events
            ≡ map_where (leased e.id times.claimed_at) (outcome times o) v.events)
  unfolding write_events
  settle_outside e times o v =
      rw
        (
          settle_write events e times o v,
          events.update_many_rows (leased e.id times.claimed_at) (outcome times o) v.events,
        )
        (refl, refl)

  given_up-Unhandled :
      (e : WebhookEvent) (s : Store) (times : Instants) (w : World Outside)
      → Unhandled w (process_event pipe events stores (claimed_event e s) times false w).1
  unfolding process_event fail_claimed write_events fail
  given_up-Unhandled e s times w =
      Unhandled-write (leased e.id times.claimed_at)
        (fail (record { category = unexpected; message = store_disconnected_message })
          times.settled_at)
        w (λ x. refl)

  handled-Ran :
      (job : JobData) (times : Instants) (w : World Outside) (e : WebhookEvent) (s : Store)
      → Memᴰ e w.events
      → e.id ≡ job.webhook_event_id
      → Memᴰ s w.stores
      → s.id ≡ e.store_id
      → (l : Store) × Memᴰ l w.stores × (l.id ≡ job.store_id) × (store_live w.tenants l ≡ true)
      → Ran job times w (process_event pipe events stores (claimed_event e s) times true w)
  unfolding process_event run_handler
  handled-Ran job times w e s m t n q found =
      let (o, v) = handle pipe (claimed_event e s) w.outside in
      let (same, rows) = settle_outside (claimed_event e s) times o (record w { outside = v }) in
      (
        e,
        m,
        t,
        s,
        n,
        q,
        found,
        same,
        rows,
        λ x h. settle_ok (claimed_event e s) times o (record w { outside = v }) x h,
      )

  process_claimed-Ran :
      (job : JobData) (times : Instants) (w : World Outside)
      → Unhandled w (process_claimed pipe events stores job times w).1
        ⊎ Ran job times w (process_claimed pipe events stores job times w)
  unfolding process_claimed
  process_claimed-Ran job times w =
      elim (Option-cases (events.find_first (λ e. e.id == job.webhook_event_id) w.events)) [
        | inl n ↦ inl (rw n (refl, λ x m c. m))
        | inr (e, f) ↦ elim (Option-cases (store_of stores w.stores e)) [
          | inl n ↦ inl (rw (f, n) (refl, λ x m c. m))
          | inr (s, g) ↦
              rw (f, g)
                (by_activity e s (events.found (λ e. e.id == job.webhook_event_id) w.events e f)
                  (stores.found (λ s. s.id == e.store_id) w.stores s g) _ refl)
        ]
      ]
    where
      live : Store → Bool
      live s = s.id == job.store_id && s.tenant_id == job.tenant_id && store_live w.tenants s

      by_activity :
          (e : WebhookEvent) (s : Store)
          → Memᴰ e w.events × ((e.id == job.webhook_event_id) ≡ true)
          → Memᴰ s w.stores × ((s.id == e.store_id) ≡ true)
          → (b : Bool) → (stores.count live w.stores == 1) ≡ b
          → Unhandled w (process_event pipe events stores (claimed_event e s) times b w).1
            ⊎ Ran job times w (process_event pipe events stores (claimed_event e s) times b w)
      by_activity e s (m, t) (n, q) false a = inl (given_up-Unhandled e s times w)
      by_activity e s (m, t) (n, q) true a =
          let (l, o, h) =
            count_where-found live w.stores (ground (arith, stores.count_rows live w.stores)) in
          inr (
            handled-Ran job times w e s m (ground arith) n (ground arith)
              (l, o, ground arith, ground arith))

  -- After a call of `process`, whether it returns or throws, one of two things holds. Either the rest
  -- of the world is as it was and no event is completed that was not. Or the call has claimed the event
  -- of its job, the Store that the job names is live, and the rest of the world is what one run of the
  -- handlers for that event and its Store leaves; then the rows under the worker's lease have the
  -- outcome of that run, no other row has changed since the claim, and there is an answer only where
  -- the handlers succeeded.
  pub process-Ran :
      (fields : JobFields) (times : Instants) (w : World Outside)
      → Unhandled w (process pipe events stores fields times w).1
        ⊎ ((job : JobData) × (validate_job_data fields ≡ ok job)
            × ((claim events job times.claimed_at w).0 ≡ ok 1)
            × Ran job times
                (claim events job times.claimed_at w).1
                (process pipe events stores fields times w))
  unfolding process resolve_unclaimed claim write_events take_lease
  process-Ran fields times w = validated (validate_job_data fields) refl
    where
      claimed : JobData → ℕ
      claimed job =
          (events.update_many (claimable w.tenants w.stores job times.claimed_at)
            (take_lease times.claimed_at) w.events).1

      validated :
          (v : Result Thrown JobData)
          → validate_job_data fields ≡ v
          → Unhandled w (process pipe events stores fields times w).1
            ⊎ ((job : JobData) × (validate_job_data fields ≡ ok job)
                × ((claim events job times.claimed_at w).0 ≡ ok 1)
                × Ran job times
                    (claim events job times.claimed_at w).1
                    (process pipe events stores fields times w))
      validated (err x) v = inl (rw (v, process) (refl, λ x m c. m))
      validated (ok job) v =
          let w' = (claim events job times.claimed_at w).1 in
          let start : Unhandled w w' =
            Unhandled-write (claimable w.tenants w.stores job times.claimed_at)
              (take_lease times.claimed_at) w (λ e. refl) in
          elim (Bool-cases (claimed job == 1)) [
            | inr n ↦ inl (rw (v, n, process) start)
            | inl y ↦ elim (process_claimed-Ran job times w') [
              | inl q ↦ inl (
                  rw (v, y, process)
                    (Unhandled-trans w w' (process_claimed pipe events stores job times w').1 start
                      q))
              | inr q ↦ inr (job, v, ap ok (ground arith), rw (v, y, process) q)
            ]
          ]
