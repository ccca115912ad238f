-- ===== src/Notifications/Processor.antt =====
-- `OrderNotificationProcessor` and `InventoryNotificationProcessor`, which are one program over a
-- `Kind`. The services that they ask are an interface, over the rest of the database. The
-- instants at which a call reads the clock are arguments.
use wctm.Prelude.{
  ℕ, Key, Date, Text, codes, Bool, true, false, ◌&&◌, Option, none, some, List, ◌∷◌, ◌++◌, ◌==◌,
  if◌then◌else◌, Result, ok, err, Action, ⊤, pure, throw, lift, get, ◌>>=◌, ◌>>◌,
}
use wctm.Database.Methods.{Client}
use wctm.Notifications.State.{
  DeliveryState, Delivery, JobData, is_final, is_in_flight, claimable, flying, flying_since,
  exhausted, of_job, take_off, land, fall, give_up,
}
use wctm.Notifications.Client.{SendResult, Answer, send_result}

-- A row of `telegram_chat_authorizations`.
pub record Authorization : Type 0 where
  pub id : Key
  pub telegram_account_id : Key
  pub telegram_chat_id : Key
  pub revoked_at : Option Date
  pub updated_at : Date

-- `TelegramOrderNotificationRecipient`
pub record Recipient : Type 0 where
  pub telegram_account_id : Key
  pub telegram_chat_authorization_id : Key
  pub telegram_user_id : Key
  pub telegram_chat_id : Key

-- The state of a notification that was not prepared, in small letters.
pub data Prepared : Type 0 where
  ready : Key → Prepared
  unauthorized disabled : Prepared
  other : Text → Prepared

-- `PreparedTelegramMessage`, whose presentation and notification are opaque
pub record Message : Type 0 where
  pub chat_id : Key
  pub presentation : Key
  pub notification : Key

pub data Reason : Type 0 where
  delivery_identity tenant_identity store_identity : Reason
  delivery_unavailable not_claimed outcome_not_persisted delivery_retryable elsewhere : Reason

-- `UnrecoverableError` ends the job; any other error lets the queue retry it.
pub data Thrown : Type 0 where
  unrecoverable retry : Reason → Thrown

pub data Outcome : Type 0 where
  delivered terminal_failure ambiguous already_final : Outcome

-- What the two processors differ in.
pub record Kind (Subject : Type 0) : Type 0 where
  -- what is asked of the authorization of a delivery, beyond its identity
  pub allows : Authorization → Delivery Subject → Bool
  pub code_prefix : Text
  pub category : Text

-- `EntitlementService.isActive`, the relations of a delivery, the service that prepares a
-- notification, `TelegramPresentationService.resolve` and the request to the bot.
pub record Services (Subject Outside : Type 0) : Type 0 where
  pub is_active : Key → Action Thrown Outside Bool
  pub authorization : Key → Outside → Authorization
  pub telegram_user : Key → Outside → Key
  pub prepare : Recipient → Delivery Subject → Action Thrown Outside Prepared
  pub present : Recipient → Action Thrown Outside Key
  pub request : Message → Outside → Option Answer × Outside

-- `sent` is the deliveries whose message was handed to the bot, the last one first.
pub record World (Subject Outside : Type 0) : Type 0 where
  pub deliveries : List (Delivery Subject)
  pub sent : List Key
  pub outside : Outside

-- A job's payload: `none` is a field that is missing, or is no text of the pattern.
pub record JobFields : Type 0 where
  pub delivery_id : Option Key
  pub tenant_id : Option Key
  pub store_id : Option Key

-- `validateOrderNotificationJobData` and `validateInventoryNotificationJobData`
unfoldable pub validate_job_data : JobFields → Result Thrown JobData
validate_job_data j = check j.delivery_id j.tenant_id j.store_id
  where
    check : Option Key → Option Key → Option Key → Result Thrown JobData
    check none t s = err (unrecoverable delivery_identity)
    check (some d) none s = err (unrecoverable tenant_identity)
    check (some d) (some t) none = err (unrecoverable store_identity)
    check (some d) (some t) (some s) = ok (record { delivery_id = d; tenant_id = t; store_id = s })

pub record Instants : Type 0 where
  pub claimed_at : Date
  pub delivered_at : Date

-- The category and the code of a notification that was refused.
abbrev pub refusal_category : Text → Prepared → Text
refusal_category subject unauthorized = codes "authorization"
refusal_category subject disabled = codes "policy"
refusal_category subject (ready content) = subject
refusal_category subject (other state) = subject

abbrev pub refusal_state : Prepared → Text
refusal_state unauthorized = codes "unauthorized"
refusal_state disabled = codes "disabled"
refusal_state (ready content) = codes "ok"
refusal_state (other state) = state

module _ {Subject Outside : Type 0} (db : Client (Delivery Subject)) where
  -- `updateMany` on the deliveries, with its `count`
  unfoldable pub write_deliveries :
      (Delivery Subject → Bool)
      → (Delivery Subject → Delivery Subject)
      → Action Thrown (World Subject Outside) ℕ
  write_deliveries p f w =
      let (rows, n) = db.update_many p f w.deliveries in (ok n, record w { deliveries = rows })

  unfoldable pub claim : JobData → Date → Action Thrown (World Subject Outside) ℕ
  claim job now = write_deliveries (claimable job) (take_off now)

  abbrev pub require_one : ℕ → Action Thrown (World Subject Outside) ⊤
  require_one n w = if n == 1 then (ok tt, w) else (err (retry outcome_not_persisted), w)

  -- `persistState`
  unfoldable pub persist_state :
      JobData → DeliveryState → Text → Text → Action Thrown (World Subject Outside) ⊤
  persist_state job s category code =
      write_deliveries (flying job) (fall s category code) >>= require_one

  -- `persistFailure`, for each of its two states
  unfoldable pub persist_terminal :
      JobData → Text → Text → Action Thrown (World Subject Outside) Outcome
  persist_terminal job category code =
      persist_state job DeliveryState.terminal_failure category code
      >> pure Outcome.terminal_failure

  unfoldable pub persist_ambiguous :
      JobData → Text → Text → Action Thrown (World Subject Outside) Outcome
  persist_ambiguous job category code =
      persist_state job DeliveryState.ambiguous category code >> pure Outcome.ambiguous

  -- `resolveUnclaimed`
  unfoldable pub resolve_unclaimed : JobData → Action Thrown (World Subject Outside) Outcome
  resolve_unclaimed job w = elim (db.find_first (of_job job) w.deliveries) [
    | none ↦ (err (unrecoverable delivery_unavailable), w)
    | some d ↦
        if is_in_flight d.state
        then persist_ambiguous job (codes "dispatch") (codes "in-flight-outcome-unknown") w
        else if is_final d.state
        then (ok already_final, w)
        else (err (retry not_claimed), w)
  ]

  -- What follows the answer of the bot.
  unfoldable pub settle :
      JobData → Instants → SendResult → Action Thrown (World Subject Outside) Outcome
  settle job times (SendResult.delivered id) =
      write_deliveries (flying_since job times.claimed_at) (land id times.delivered_at)
      >>= require_one
      >> pure Outcome.delivered
  settle job times (SendResult.retryable_failure category code) =
      persist_state job DeliveryState.retryable_failure category code
      >> throw (retry delivery_retryable)
  settle job times (SendResult.terminal_failure category code) = persist_terminal job category code
  settle job times (SendResult.ambiguous category code) = persist_ambiguous job category code

  -- `markFailed`, for a job whose attempts are used up
  unfoldable pub mark_failed : JobFields → Action Thrown (World Subject Outside) ⊤
  mark_failed fields = do
    job ← lift (validate_job_data fields)
    write_deliveries (exhausted job) give_up
    pure tt

module _ {Subject Outside : Type 0} (kind : Kind Subject) (svc : Services Subject Outside)
    (db : Client (Delivery Subject)) where
  -- A call of a service: it works on the rest of the world.
  unfoldable pub ask :
      {A : Type 0} → Action Thrown Outside A → Action Thrown (World Subject Outside) A
  ask m w = let (r, o) = m w.outside in (r, record w { outside = o })

  abbrev pub recipient_of : Delivery Subject → Authorization → Outside → Recipient
  recipient_of d a o = record {
    telegram_account_id = d.telegram_account_id;
    telegram_chat_authorization_id = d.telegram_chat_authorization_id;
    telegram_user_id = svc.telegram_user d.telegram_account_id o;
    telegram_chat_id = a.telegram_chat_id;
  }

  abbrev pub is_recipient : Delivery Subject → Authorization → Bool
  is_recipient d a =
      a.id == d.telegram_chat_authorization_id
      && a.telegram_account_id == d.telegram_account_id
      && kind.allows a d

  -- The delivery that is being attempted, with a recipient that may get it.
  unfoldable pub load : JobData → World Subject Outside → Option (Recipient × Delivery Subject)
  load job w = elim (db.find_first (flying job) w.deliveries) [
    | none ↦ none
    | some d ↦
        let a = svc.authorization d.telegram_chat_authorization_id w.outside in
        if is_recipient d a then some (recipient_of d a w.outside, d) else none
  ]

  unfoldable pub send : Key → Message → Action Thrown (World Subject Outside) SendResult
  send id m w =
      let (a, o) = svc.request m w.outside in
      (ok (send_result a), record w { sent = id ∷ w.sent; outside = o })

  abbrev pub not_entitled : JobData → Action Thrown (World Subject Outside) Outcome
  not_entitled job = persist_terminal db job (codes "policy") (codes "entitlement-inactive")

  -- The message is sent, if the Tenant is still entitled, and its outcome recorded.
  unfoldable pub dispatch :
      JobData → Instants → Message → Bool → Action Thrown (World Subject Outside) Outcome
  dispatch job times m false = not_entitled job
  dispatch job times m true = send job.delivery_id m >>= settle db job times

  unfoldable pub deliver :
      JobData → Instants → Recipient → Prepared → Action Thrown (World Subject Outside) Outcome
  deliver job times r (ready content) = do
    presentation ← ask (svc.present r)
    entitled ← ask (svc.is_active job.tenant_id)
    dispatch job times
        (record {
          chat_id = r.telegram_chat_id;
          presentation = presentation;
          notification = content;
        })
        entitled
  deliver job times r p =
      persist_terminal db job (refusal_category kind.category p)
        (kind.code_prefix ++ refusal_state p)

  unfoldable pub attempt_loaded :
      JobData
      → Instants
      → Option (Recipient × Delivery Subject)
      → Action Thrown (World Subject Outside) Outcome
  attempt_loaded job times none =
      persist_terminal db job (codes "authorization") (codes "recipient-context-invalid")
  attempt_loaded job times (some (r, d)) = ask (svc.prepare r d) >>= deliver job times r

  unfoldable pub attempt : JobData → Instants → Bool → Action Thrown (World Subject Outside) Outcome
  attempt job times false = not_entitled job
  attempt job times true = do w ← get; attempt_loaded job times (load job w)

  unfoldable pub process_claimed :
      JobData → Instants → Action Thrown (World Subject Outside) Outcome
  process_claimed job times = ask (svc.is_active job.tenant_id) >>= attempt job times

  unfoldable pub process : JobFields → Instants → Action Thrown (World Subject Outside) Outcome
  process fields times = do
    job ← lift (validate_job_data fields)
    n ← claim db job times.claimed_at
    if n == 1 then process_claimed job times else resolve_unclaimed db job
