-- ===== src/Notifications/Tests.antt =====
-- Deliveries of an order on small tables.
use wctm.Prelude.{
  ℕ, Key, codes, ◌≡◌, ◌≤◌, refl, ◌⊎◌, true, none, some, [], ◌∷◌, List, Memᴰ, arith, ◌==◌, ok, pure,
  Option,
}
use wctm.Database.Methods.{Client}
use wctm.Database.Keys.{HasKeys-pair}
use wctm.Database.Memory.{memory}
use wctm.Notifications.State.{DeliveryState, Delivery, JobData, take_off}
use wctm.Notifications.Client.{Answer, Body, send_result, retryable_failure, parse_delivery_result}
use wctm.Notifications.Processor.{
  Services, World, JobFields, Instants, Outcome, ready, validate_job_data, claim, process,
  process_claimed, mark_failed, resolve_unclaimed, attempt, attempt_loaded, load, deliver, dispatch,
  send, settle, write_deliveries, ask,
}
use wctm.Notifications.Kinds.{order_kind}
use wctm.Notifications.Sends.{process-AtMostOne}
use wctm.Notifications.Finality.{times_sent, Call, runs, gives_up, calls, final_not_sent}
use wctm.Notifications.Answers.{SaysRetryable, send_result_retryable}
use wctm.Notifications.Outcome.{Recorded, process-Recorded}

abbrev waiting : Delivery Key
waiting = record {
  id = 3;
  tenant_id = 10;
  store_id = 1;
  subject = 500;
  telegram_account_id = 20;
  telegram_chat_authorization_id = 30;
  state = DeliveryState.pending;
  attempt_count = 0;
  last_attempt_at = none;
  telegram_message_id = none;
  failure_category = none;
  failure_code = none;
  delivered_at = none;
  source_webhook_event_id = 900;
  created_at = 1000;
}

abbrev gone : Delivery Key
gone = record waiting { id = 4; state = DeliveryState.delivered; attempt_count = 1 }

abbrev answered : Body
answered = record {
  outcome = some (codes "delivered");
  message_id = some (codes "812");
  category = none;
  code = none;
}

-- The bot answers that every message is delivered, and counts them.
abbrev services : Services Key ℕ
services = record {
  is_active = λ t. pure true;
  authorization = λ k n. record {
    id = k;
    telegram_account_id = 20;
    telegram_chat_id = 40;
    revoked_at = none;
    updated_at = 900;
  };
  telegram_user = λ k n. 50;
  prepare = λ r d. pure (ready 60);
  present = λ r. pure 70;
  request = λ m n. (some (record { status = 200; body = some answered }), n);
}

abbrev deliveries : Client (Delivery Key)
deliveries = memory (λ a b. a.id == b.id)

abbrev world : World Key ℕ
world = record { deliveries = waiting ∷ gone ∷ []; sent = []; outside = 0 }

abbrev fields : JobFields
fields = record { delivery_id = some 3; tenant_id = some 10; store_id = some 1 }

abbrev old_fields : JobFields
old_fields = record { delivery_id = some 4; tenant_id = some 10; store_id = some 1 }

abbrev times : Instants
times = record { claimed_at = 2000; delivered_at = 2500 }

one_run : (process order_kind services deliveries fields times world).0 ≡ ok Outcome.delivered
unfolding process claim write_deliveries memory validate_job_data process_claimed attempt
    attempt_loaded load deliver dispatch send settle ask send_result parse_delivery_result take_off
one_run = refl

process-AtMostOne_example :
    ((process order_kind services deliveries fields times world).1.sent ≡ [])
    ⊎ ((job : JobData) × (validate_job_data fields ≡ ok job)
        × ((claim deliveries job 2000 world).0 ≡ ok 1)
        × ((process order_kind services deliveries fields times world).1.sent
            ≡ job.delivery_id ∷ []))
process-AtMostOne_example = process-AtMostOne order_kind services deliveries fields times world

-- A job for it, its last failure, and a job for the other delivery, which is sent.
abbrev three_calls : List Call
three_calls = runs old_fields times ∷ gives_up old_fields ∷ runs fields times ∷ []

three_sent : (calls order_kind services deliveries three_calls world).sent ≡ 3 ∷ []
unfolding process mark_failed claim write_deliveries memory validate_job_data process_claimed
    resolve_unclaimed attempt attempt_loaded load deliver dispatch send settle ask send_result
    parse_delivery_result take_off
three_sent = refl

final_not_sent_example :
    times_sent 4 (calls order_kind services deliveries three_calls world).sent ≡ times_sent 4 []
final_not_sent_example =
    final_not_sent order_kind services deliveries gone refl three_calls world
      (HasKeys-pair (λ d. d.id) waiting gone (λ h. omega arith)) (Memᴰ.tail (Memᴰ.head refl))

process-Recorded_example :
    (job : JobData) × (validate_job_data fields ≡ ok job)
    × Recorded job Outcome.delivered (process order_kind services deliveries fields times world).1
process-Recorded_example =
    process-Recorded order_kind services deliveries fields times world Outcome.delivered one_run

abbrev busy : Option Answer
busy = some (record {
  status = 200;
  body = some (record {
    outcome = some (codes "retryable_failure");
    message_id = none;
    category = some (codes "telegram");
    code = some (codes "too-many-requests");
  });
})

busy_run : send_result busy ≡ retryable_failure (codes "telegram") (codes "too-many-requests")
unfolding send_result parse_delivery_result
busy_run = refl

send_result_retryable_example :
    (x : Answer) × (busy ≡ some x) × (200 ≤ x.status) × (x.status ≤ 299) × SaysRetryable x.body
send_result_retryable_example =
    send_result_retryable busy (codes "telegram") (codes "too-many-requests") busy_run
