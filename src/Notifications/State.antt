-- ===== src/Notifications/State.antt =====
-- The rows of the two tables of deliveries, which differ in what a delivery is about, `Subject`, and
-- the `where` and the `data` of each write to them.
use wctm.Prelude.{
  ℕ, ◌+◌, Key, Date, Text, codes, Bool, true, false, ◌&&◌, Option, none, some, ◌==◌, holds, take,
}

-- `TelegramOrderNotificationState` and `TelegramInventoryNotificationState`
pub data DeliveryState : Type 0 where
  pending in_flight delivered retryable_failure terminal_failure ambiguous : DeliveryState

pub record Delivery (Subject : Type 0) : Type 0 where
  pub id : Key
  pub tenant_id : Key
  pub store_id : Key
  pub subject : Subject
  pub telegram_account_id : Key
  pub telegram_chat_authorization_id : Key
  pub state : DeliveryState
  pub attempt_count : ℕ
  pub last_attempt_at : Option Date
  pub telegram_message_id : Option Text
  pub failure_category : Option Text
  pub failure_code : Option Text
  pub delivered_at : Option Date
  pub source_webhook_event_id : Key
  pub created_at : Date

-- `OrderNotificationJobData` and `InventoryNotificationJobData`
pub record JobData : Type 0 where
  pub delivery_id : Key
  pub tenant_id : Key
  pub store_id : Key

abbrev pub is_waiting : DeliveryState → Bool
is_waiting pending = true
is_waiting retryable_failure = true
is_waiting _ = false

abbrev pub is_in_flight : DeliveryState → Bool
is_in_flight in_flight = true
is_in_flight _ = false

abbrev pub is_retryable_failure : DeliveryState → Bool
is_retryable_failure retryable_failure = true
is_retryable_failure _ = false

abbrev pub is_delivered : DeliveryState → Bool
is_delivered delivered = true
is_delivered _ = false

-- The states that `resolveUnclaimed` takes as final.
abbrev pub is_final : DeliveryState → Bool
is_final delivered = true
is_final terminal_failure = true
is_final ambiguous = true
is_final _ = false

module _ {Subject : Type 0} where
  -- The Tenant and the Store stand beside the identifier in every `where`.
  abbrev pub of_job : JobData → Delivery Subject → Bool
  of_job job d =
      d.id == job.delivery_id && d.tenant_id == job.tenant_id && d.store_id == job.store_id

  abbrev pub claimable : JobData → Delivery Subject → Bool
  claimable job d = of_job job d && is_waiting d.state

  abbrev pub flying : JobData → Delivery Subject → Bool
  flying job d = of_job job d && is_in_flight d.state

  -- The `where` of the write of a success: the attempt is the caller's own.
  abbrev pub flying_since : JobData → Date → Delivery Subject → Bool
  flying_since job at d = flying job d && holds d.last_attempt_at at

  abbrev pub exhausted : JobData → Delivery Subject → Bool
  exhausted job d = of_job job d && is_retryable_failure d.state

  unfoldable pub take_off : Date → Delivery Subject → Delivery Subject
  take_off at d = record d {
    state = in_flight;
    attempt_count = d.attempt_count + 1;
    last_attempt_at = some at;
    failure_category = none;
    failure_code = none;
  }

  unfoldable pub land : Text → Date → Delivery Subject → Delivery Subject
  land message_id now d = record d {
    state = delivered;
    telegram_message_id = some message_id;
    delivered_at = some now;
  }

  -- The `data` of `persistState`.
  unfoldable pub fall : DeliveryState → Text → Text → Delivery Subject → Delivery Subject
  fall s category code d = record d {
    state = s;
    failure_category = some (take 32 category);
    failure_code = some (take 191 code);
  }

  -- The `data` of `markFailed`.
  unfoldable pub give_up : Delivery Subject → Delivery Subject
  give_up d = record d {
    state = terminal_failure;
    failure_category = some (codes "retry-exhausted");
    failure_code = some (codes "telegram-retry-exhausted");
  }
