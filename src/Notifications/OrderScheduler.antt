-- ===== src/Notifications/OrderScheduler.antt =====
-- `OrderNotificationScheduler`.
use wctm.Prelude.{
  Key, Date, Text, codes, text_eq, Bool, true, false, ◌&&◌, Option, none, some, List, [], ◌∷◌, ◌==◌,
  if◌then◌else◌, Result, ok, err, Action, ⊤, pure, throw, ◌>>=◌, ◌>>◌,
}
use wctm.Database.Methods.{Client}
use wctm.Notifications.State.{DeliveryState, Delivery, JobData}
use wctm.Notifications.Recipients.{Candidate, Settings, recipients_of}

-- `ProjectableWebhookEvent`
pub record OrderEvent : Type 0 where
  pub id : Key
  pub topic : Text
  pub payload : Key
  pub tenant_id : Key
  pub store_id : Key

pub data ScheduleError : Type 0 where
  order_unavailable other : ScheduleError

-- The rest of the database, the mapper, `eligibleNotificationRecipients` and the queue. The
-- identifier of a new delivery is drawn.
pub record OrderServices (Outside : Type 0) : Type 0 where
  pub is_active : Key → Action ScheduleError Outside Bool
  pub settings : (tenant store : Key) → Outside → Option Settings
  pub read_order_id : Key → Result ScheduleError Key
  pub find_order : (tenant store wc_order_id : Key) → Outside → Option Key
  pub eligible : (tenant store : Key) → Action ScheduleError Outside (List Candidate)
  pub new_id : Outside → Key
  pub add_job : JobData → Action ScheduleError Outside ⊤

pub record OrderWorld (Outside : Type 0) : Type 0 where
  pub deliveries : List (Delivery Key)
  pub outside : Outside

-- The unique key of the upsert.
abbrev pub of_order_and_chat : Key → Key → Delivery Key → Bool
of_order_and_chat order chat d = d.subject == order && d.telegram_chat_authorization_id == chat

abbrev pub new_order_delivery : OrderEvent → Key → Candidate → Key → Date → Delivery Key
new_order_delivery event order c id now = record {
  id = id;
  tenant_id = event.tenant_id;
  store_id = event.store_id;
  subject = order;
  telegram_account_id = c.telegram_account_id;
  telegram_chat_authorization_id = c.telegram_chat_authorization_id;
  state = DeliveryState.pending;
  attempt_count = 0;
  last_attempt_at = none;
  telegram_message_id = none;
  failure_category = none;
  failure_code = none;
  delivered_at = none;
  source_webhook_event_id = event.id;
  created_at = now;
}

module _ {Outside : Type 0} (svc : OrderServices Outside) (db : Client (Delivery Key))
    (now : Date) where
  unfoldable pub order_ask :
      {A : Type 0} → Action ScheduleError Outside A → Action ScheduleError (OrderWorld Outside) A
  order_ask m w = let (r, o) = m w.outside in (r, record w { outside = o })

  -- `upsert`, with an update that writes nothing; it answers with the identifier of the delivery
  unfoldable pub upsert_delivery :
      OrderEvent → Key → Candidate → Action ScheduleError (OrderWorld Outside) Key
  upsert_delivery event order c w =
      found (db.find_first (of_order_and_chat order c.telegram_chat_authorization_id) w.deliveries)
    where
      id : Key
      id = svc.new_id w.outside

      stored : Option (List (Delivery Key)) → Result ScheduleError Key × OrderWorld Outside
      stored none = (err other, w)
      stored (some rows) = (ok id, record w { deliveries = rows })

      found : Option (Delivery Key) → Result ScheduleError Key × OrderWorld Outside
      found (some d) = (ok d.id, w)
      found none = stored (db.create (new_order_delivery event order c id now) w.deliveries)

  unfoldable pub schedule_recipients :
      OrderEvent → Key → List Candidate → Action ScheduleError (OrderWorld Outside) ⊤
  unfolding upsert_delivery order_ask
  schedule_recipients event order [] = pure tt
  schedule_recipients event order (c ∷ cs) = do
    id ← upsert_delivery event order c
    order_ask (
        svc.add_job
          (record { delivery_id = id; tenant_id = event.tenant_id; store_id = event.store_id }))
    schedule_recipients event order cs

  abbrev pub schedule_order :
      OrderEvent → Settings → Option Key → Action ScheduleError (OrderWorld Outside) ⊤
  schedule_order event s none = throw order_unavailable
  schedule_order event s (some order) =
      order_ask (svc.eligible event.tenant_id event.store_id) >>= λ eligible.
      schedule_recipients event order (recipients_of s eligible)

  abbrev pub schedule_with :
      OrderEvent → Option Settings → Action ScheduleError (OrderWorld Outside) ⊤
  schedule_with event none w = (ok tt, w)
  schedule_with event (some s) w =
      if s.category_enabled then by_order (svc.read_order_id event.payload) else (ok tt, w)
    where
      by_order : Result ScheduleError Key → Result ScheduleError ⊤ × OrderWorld Outside
      by_order (err e) = (err e, w)
      by_order (ok id) =
          schedule_order event s (svc.find_order event.tenant_id event.store_id id w.outside) w

  abbrev pub schedule_active : OrderEvent → Bool → Action ScheduleError (OrderWorld Outside) ⊤
  schedule_active event false w = (ok tt, w)
  schedule_active event true w =
      schedule_with event (svc.settings event.tenant_id event.store_id w.outside) w

  -- `schedule`
  unfoldable pub schedule_order_notification :
      OrderEvent → Action ScheduleError (OrderWorld Outside) ⊤
  unfolding schedule_recipients order_ask recipients_of
  schedule_order_notification event =
      if text_eq event.topic (codes "order.created")
      then order_ask (svc.is_active event.tenant_id) >>= schedule_active event
      else pure tt
