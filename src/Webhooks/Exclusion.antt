-- ===== src/Webhooks/Exclusion.antt =====
-- For how long a claim of an event keeps every other worker from it, whatever happens in between.
use wctm.Prelude.{
  ◌+◌, ◌<◌, Key, Date, ◌≡◌, ◌≢◌, refl, Bool, true, false, List, some, ⊤, arith, ok, err, Result,
  Bool-cases, inl, inr, ◌⊎◌, ◌==◌,
}
use wctm.Database.Methods.{Client}
use wctm.Database.Rows.{All, All-mem, All-map_where, mem-All}
use wctm.Database.Keys.{HasKeys}
use wctm.Webhooks.Events.{
  complete, release, fail, failure_diagnostic, is_retryable, processing, WebhookEvent, JobData,
  claimable, take_lease, leased, lease_ttl_ms, open_by_id, Failure, Store, Tenant,
}
use wctm.Webhooks.Processor.{World, Instants, write_events, claim, fail_claimed}
use wctm.Webhooks.Ingestion.{acknowledge, still_received}
use wctm.Webhooks.Lifecycle.{IsFinal, outcome}
use wctm.Webhooks.Lease.{claimed_row, write_nothing}
use wctm.Webhooks.Steps.{
  Step, claims, settles, disconnects, gives_up, delivers, acknowledges, elsewhere, settle_write,
  mark_failed_write,
}

-- The event is held by the worker that claimed it then, or is over for good.
abbrev Held : Key → Date → WebhookEvent → Type 0
Held id since e =
    e.id ≡ id → IsFinal e ⊎ ((e.status ≡ processing) × (e.processing_started_at ≡ some since))

Held-not_claimable :
    (ts : List Tenant) (ss : List Store) (id : Key) (since later : Date) (job : JobData)
    (e : WebhookEvent)
    → later < since + lease_ttl_ms
    → job.webhook_event_id ≡ id
    → Held id since e
    → claimable ts ss job later e ≡ false
Held-not_claimable ts ss id since later job e early same h =
    elim (Bool-cases (e.id == job.webhook_event_id)) [
      | inr n ↦ ground arith
      | inl y ↦ elim (h (ground arith)) [ inl k ↦ ground arith | inr k ↦ ground arith ]
    ]

take_lease-Held :
    (ts : List Tenant) (ss : List Store) (id : Key) (since later : Date) (job : JobData)
    (e : WebhookEvent)
    → later < since + lease_ttl_ms
    → claimable ts ss job later e ≡ true
    → Held id since e
    → Held id since (take_lease later e)
unfolding take_lease
take_lease-Held ts ss id since later job e early t h same = elim (h same) [
  | inl k ↦ absurd (ground arith)
  | inr k ↦ absurd (ground arith)
]

-- The outcome that a worker records does not give the event back to the queue: it is no failure to
-- retry, or the worker is not the one with the lease.
abbrev pub KeepsHold : Key → Date → Key → Instants → Result Failure ⊤ → Type 0
KeepsHold id since c times (ok x) = Unit
KeepsHold id since c times (err f) =
    (is_retryable f ≡ false) ⊎ (c ≢ id) ⊎ (times.claimed_at ≢ since)

outcome-Held :
    (id : Key) (since : Date) (c : Key) (times : Instants) (r : Result Failure ⊤) (e : WebhookEvent)
    → KeepsHold id since c times r
    → leased c times.claimed_at e ≡ true
    → Held id since e
    → Held id since (outcome times r e)
unfolding complete release fail
outcome-Held id since c times (ok x) e k l h = λ same. inl refl
outcome-Held id since c times (err f) e (inl n) l h = rw n (λ same. inl refl)
outcome-Held id since c times (err f) e (inr (inl n)) l h = elim (Bool-cases (is_retryable f)) [
  | inl y ↦ rw y (λ same. absurd (n (ground arith)))
  | inr m ↦ rw m (λ same. inl refl)
]
outcome-Held id since c times (err f) e (inr (inr n)) l h = elim (Bool-cases (is_retryable f)) [
  | inr m ↦ rw m (λ same. inl refl)
  | inl y ↦
      rw y (λ same. elim (h same) [
        | inl k ↦ absurd (ground arith)
        | inr k ↦ absurd (n (ground arith))
      ])
]

module _ {Outside : Type 0} (events : Client WebhookEvent) where
  -- A step that leaves the event with its worker: other claims come within 30 seconds, the event is not
  -- given back to the queue, and a new event has another identifier.
  abbrev pub Spares : Key → Date → {w u : World Outside} → Step events w u → Type 0
  Spares id since (claims job later e) = later < since + lease_ttl_ms
  Spares id since (settles c times r e) = KeepsHold id since c.id times r
  Spares id since (disconnects c claimed_at d now l e) = Unit
  Spares id since (gives_up fields f now e) = Unit
  Spares id since (delivers new s h payload now e) = new ≢ id
  Spares id since (acknowledges e now q) = Unit
  Spares id since (elsewhere ss ts o e) = Unit

  pub data ReachSparing (id : Key) (since : Date) (w : World Outside) : World Outside → Type 0 where
    here : ReachSparing id since w w
    next :
        {v u : World Outside}
        → ReachSparing id since w v
        → (s : Step events v u) → Spares id since s
        → ReachSparing id since w u

  write_events-Held :
      (id : Key) (since : Date) (p : WebhookEvent → Bool) (f : WebhookEvent → WebhookEvent)
      (w : World Outside)
      → ((e : WebhookEvent) → p e ≡ true → Held id since e → Held id since (f e))
      → All (Held id since) w.events
      → All (Held id since) (write_events events p f w).1.events
  unfolding write_events
  write_events-Held id since p f w keep h =
      rw (events.update_many_rows p f w.events)
        (All-map_where (Held id since) p f w.events (λ e v q. keep e q v) h)

  Step-Held :
      {w u : World Outside} (id : Key) (since : Date) (s : Step events w u)
      → Spares id since s
      → All (Held id since) w.events
      → All (Held id since) u.events
  unfolding claim fail_claimed write_events fail acknowledge
  Step-Held {w} id since (claims job later e) k h = rw e (
      write_events-Held id since (claimable w.tenants w.stores job later) (take_lease later) w
        (λ x t v. take_lease-Held w.tenants w.stores id since later job x k t v) h)
  Step-Held {w} id since (settles c times r e) k h =
      rw (e, settle_write events c times r w)
        (write_events-Held id since (leased c.id times.claimed_at) (outcome times r) w
          (λ x t v. outcome-Held id since c.id times r x k t v) h)
  Step-Held {w} id since (disconnects c claimed_at d now l e) k h =
      rw e
        (write_events-Held id since (leased c claimed_at) (fail d now) w (λ x t v same. inl refl) h)
  Step-Held {w} id since (gives_up fields f now e) k h =
      elim (mark_failed_write events fields f now w) [
        | inl n ↦ rw (e, n) h
        | inr (c, n) ↦
            rw (e, n)
              (write_events-Held id since (open_by_id c) (fail (failure_diagnostic f) now) w
                (λ x t v same. inl refl) h)
      ]
  Step-Held {w} id since (delivers new s hd payload now e) k h = rw e ((λ same. absurd (k same)), h)
  Step-Held {w} id since (acknowledges x now e) k h = rw e (
      write_events-Held id since (still_received x) (acknowledge now) w
        (λ r t v same. elim (v same) [
          | inl y ↦ absurd (ground arith)
          | inr y ↦ absurd (ground arith)
        ])
        h)
  Step-Held {w} id since (elsewhere ss ts o e) k h = rw e h

  ReachSparing-Held :
      {w : World Outside} (id : Key) (since : Date) {u : World Outside}
      → ReachSparing id since w u
      → All (Held id since) w.events
      → All (Held id since) u.events
  ReachSparing-Held id since here h = h
  ReachSparing-Held id since (next r s k) h =
      Step-Held id since s k (ReachSparing-Held id since r h)

  -- Where no two events have the same identifier: after a claim of an event that succeeds, a claim of
  -- the event within 30 seconds selects no row and changes nothing, whatever writes of workers, the
  -- queue and the ingestion come in between, except a release of the event for a retry under the
  -- lease of that claim. The claims in between are within those 30 seconds too, and the identifiers of new
  -- events are other ones.
  pub claim_exclusive :
      (job other : JobData) (now later : Date) (w u : World Outside)
      → HasKeys (λ e. e.id) w.events
      → (claim events job now w).0 ≡ ok 1
      → ReachSparing job.webhook_event_id now (claim events job now w).1 u
      → other.webhook_event_id ≡ job.webhook_event_id
      → later < now + lease_ttl_ms
      → claim events other later u ≡ (ok 0, u)
  unfolding claim
  claim_exclusive job other now later w u keys h r same early =
      let start : All (Held job.webhook_event_id now) (claim events job now w).1.events =
        mem-All (Held job.webhook_event_id now) (claim events job now w).1.events
          (λ e m s. inr (claimed_row events job now w e keys h m s)) in
      let held = ReachSparing-Held job.webhook_event_id now r start in
      write_nothing events (claimable u.tenants u.stores other later) (take_lease later) u (λ e m.
        Held-not_claimable u.tenants u.stores job.webhook_event_id now later other e early same
          (All-mem (Held job.webhook_event_id now) e u.events held m))
