-- ===== src/Webhooks/Lifecycle.antt =====
-- What holds of one row of `webhook_events` between two writes, and that each write keeps it.
use wctm.Prelude.{
  ◌≤◌, Key, Date, Text, length, length-take-le, ◌≡◌, Bool, true, false, ◌||◌, Option, none, some,
  arith, is_some, ok, err, Result, ⊤, Bool-cases, inl, inr, ◌⊎◌, if◌then◌else◌,
}
use wctm.Webhooks.Events.{
  Status, failed, is_processing, is_completed, WebhookEvent, take_lease, leased, complete, release,
  fail, Failure, Diagnostic, failure_diagnostic, is_retryable,
}
use wctm.Webhooks.Processor.{Instants}
use wctm.Webhooks.Ingestion.{acknowledge, still_received}

abbrev pub is_failed : Status → Bool
is_failed failed = true
is_failed _ = false

abbrev pub Fits : Option Text → Type 0
Fits none = Unit
Fits (some t) = length t ≤ 191

-- What holds of a row between two writes: a lease exactly while it is being processed, the time and
-- no failure category on a completed one, the time and the cause on a failed one, at least one attempt
-- behind a lease or a completion, and a failure message that fits its column.
pub record IsSound (e : WebhookEvent) : Type 0 where
  pub lease : is_some e.processing_started_at ≡ is_processing e.status
  pub completion :
      (is_completed e.status ≡ false)
      ⊎ ((is_some e.completed_at ≡ true) × (e.failure_category ≡ none))
  pub failure :
      (is_failed e.status ≡ false)
      ⊎ ((is_some e.failed_at ≡ true) × (is_some e.failure_category ≡ true))
  pub attempted :
      ((is_processing e.status || is_completed e.status) ≡ false) ⊎ (1 ≤ e.processing_attempt_count)
  pub message : Fits e.failure_message

pub diagnostic_fits : (f : Failure) → length (failure_diagnostic f).message ≤ 191
unfolding failure_diagnostic
diagnostic_fits (Failure.projection category code retryable) = length-take-le 191 code
diagnostic_fits Failure.other = omega arith

pub take_lease-IsSound : (now : Date) (e : WebhookEvent) → IsSound e → IsSound (take_lease now e)
unfolding take_lease
take_lease-IsSound now e h = ground arith

pub complete-IsSound :
    (id : Key) (claimed_at now : Date) (e : WebhookEvent)
    → leased id claimed_at e ≡ true
    → IsSound e
    → IsSound (complete now e)
unfolding complete
complete-IsSound id claimed_at now e l h = ground arith

pub release-IsSound :
    (d : Diagnostic) (now : Date) (e : WebhookEvent)
    → length d.message ≤ 191
    → IsSound e
    → IsSound (release d now e)
unfolding release
release-IsSound d now e l h = ground arith

pub fail-IsSound :
    (d : Diagnostic) (now : Date) (e : WebhookEvent)
    → length d.message ≤ 191
    → IsSound e
    → IsSound (fail d now e)
unfolding fail
fail-IsSound d now e l h = ground arith

pub acknowledge-IsSound :
    (x : WebhookEvent) (now : Date) (e : WebhookEvent)
    → still_received x e ≡ true
    → IsSound e
    → IsSound (acknowledge now e)
unfolding acknowledge
acknowledge-IsSound x now e p h = ground arith

-- What a worker writes to its event at the end.
abbrev pub outcome : Instants → Result Failure ⊤ → WebhookEvent → WebhookEvent
outcome times (ok u) = complete times.settled_at
outcome times (err f) =
    if is_retryable f
    then release (failure_diagnostic f) times.settled_at
    else fail (failure_diagnostic f) times.settled_at

pub outcome-IsSound :
    (id : Key) (times : Instants) (r : Result Failure ⊤) (e : WebhookEvent)
    → leased id times.claimed_at e ≡ true
    → IsSound e
    → IsSound (outcome times r e)
outcome-IsSound id times (ok u) e l h = complete-IsSound id times.claimed_at times.settled_at e l h
outcome-IsSound id times (err f) e l h = elim (Bool-cases (is_retryable f)) [
  | inl y ↦ rw y (release-IsSound (failure_diagnostic f) times.settled_at e (diagnostic_fits f) h)
  | inr n ↦ rw n (fail-IsSound (failure_diagnostic f) times.settled_at e (diagnostic_fits f) h)
]

abbrev pub IsFinal : WebhookEvent → Type 0
IsFinal e = (is_completed e.status || is_failed e.status) ≡ true
