-- ===== src/Notifications/InventoryScheduler.antt =====
-- `InventoryNotificationScheduler` of backend/src/queue/inventory-notification.scheduler.ts.
use wctm.Prelude.{
  ℕ, Key, Date, Bool, true, false, not, ◌&&◌, Option, none, some, List, [], ◌∷◌, ◌==◌, holds,
  is_some, if◌then◌else◌, ok, err, Action, ⊤, pure, ◌>>=◌, ◌>>◌,
}
use wctm.Database.Methods.{Client}
use wctm.Inventory.{Item, Signal, AlertLevel}
use wctm.Notifications.State.{DeliveryState, Delivery, JobData, is_waiting}
use wctm.Notifications.Kinds.{Alert}
use wctm.Notifications.Recipients.{Candidate, Settings, recipients_of}
use wctm.Notifications.OrderScheduler.{ScheduleError, other}

pub record AlertServices (Outside : Type 0) : Type 0 where
  pub is_active : Key → Action ScheduleError Outside Bool
  pub settings : (tenant store : Key) → Outside → Option Settings
  pub eligible : (tenant store : Key) → Action ScheduleError Outside (List Candidate)
  pub new_ids : Outside → List Candidate → List (Key × Candidate)
  pub add_job : JobData → Action ScheduleError Outside ⊤
  -- the database refuses the transaction as a conflict of concurrent ones
  pub refuses : Outside → Bool

pub record AlertWorld (Outside : Type 0) : Type 0 where
  pub items : List Item
  pub deliveries : List (Delivery Alert)
  pub outside : Outside

-- The columns of the level of an alert.
abbrev pub alert_source : AlertLevel → Item → Option Key
alert_source AlertLevel.low_stock i = i.low_alert_source_webhook_event_id
alert_source AlertLevel.out_of_stock i = i.out_alert_source_webhook_event_id

abbrev pub captured_at : AlertLevel → Item → Option Date
captured_at AlertLevel.low_stock i = i.low_alert_recipients_captured_at
captured_at AlertLevel.out_of_stock i = i.out_alert_recipients_captured_at

unfoldable pub set_captured : AlertLevel → Date → Item → Item
set_captured AlertLevel.low_stock now i = record i { low_alert_recipients_captured_at = some now }
set_captured AlertLevel.out_of_stock now i = record i {
  out_alert_recipients_captured_at = some now;
}

abbrev pub same_level : AlertLevel → AlertLevel → Bool
same_level AlertLevel.low_stock AlertLevel.low_stock = true
same_level AlertLevel.low_stock AlertLevel.out_of_stock = false
same_level AlertLevel.out_of_stock AlertLevel.low_stock = false
same_level AlertLevel.out_of_stock AlertLevel.out_of_stock = true

abbrev pub of_signal : Key → Key → Signal → Item → Bool
of_signal tenant store s i =
    i.id == s.inventory_item_id
    && i.tenant_id == tenant
    && i.store_id == store
    && i.incident_generation == s.incident_generation

-- `signalMatches`
abbrev pub signal_matches : Item → Signal → Bool
signal_matches i s = holds (alert_source s.alert_level i) s.source_webhook_event_id

-- The `where` of the capture.
abbrev pub capturable : Key → Key → Signal → Item → Bool
capturable tenant store s i =
    of_signal tenant store s i && signal_matches i s && not (is_some (captured_at s.alert_level i))

abbrev pub waiting_for : Key → Key → Signal → Delivery Alert → Bool
waiting_for tenant store s d =
    d.tenant_id == tenant
    && d.store_id == store
    && d.subject.inventory_item_id == s.inventory_item_id
    && d.subject.incident_generation == s.incident_generation
    && same_level d.subject.alert_level s.alert_level
    && d.source_webhook_event_id == s.source_webhook_event_id
    && is_waiting d.state

abbrev pub new_alert_delivery : Key → Key → Signal → ℕ → Date → Key × Candidate → Delivery Alert
new_alert_delivery tenant store s version now (id, c) = record {
  id = id;
  tenant_id = tenant;
  store_id = store;
  subject = record {
    inventory_item_id = s.inventory_item_id;
    incident_generation = s.incident_generation;
    alert_level = s.alert_level;
    policy_version = version;
  };
  telegram_account_id = c.telegram_account_id;
  telegram_chat_authorization_id = c.telegram_chat_authorization_id;
  state = DeliveryState.pending;
  attempt_count = 0;
  last_attempt_at = none;
  telegram_message_id = none;
  failure_category = none;
  failure_code = none;
  delivered_at = none;
  source_webhook_event_id = s.source_webhook_event_id;
  created_at = now;
}

module _ {Outside : Type 0} (svc : AlertServices Outside) (db_items : Client Item)
    (db : Client (Delivery Alert)) (tenant store : Key) (signal : Signal) (now : Date) where
  unfoldable pub alert_ask :
      {A : Type 0} → Action ScheduleError Outside A → Action ScheduleError (AlertWorld Outside) A
  alert_ask m w = let (r, o) = m w.outside in (r, record w { outside = o })

  -- `createMany` with `skipDuplicates`
  unfoldable pub create_skipping :
      List (Delivery Alert) → List (Delivery Alert) → List (Delivery Alert)
  create_skipping [] rows = rows
  create_skipping (d ∷ ds) rows = create_skipping ds (or_same (db.create d rows))
    where
      or_same : Option (List (Delivery Alert)) → List (Delivery Alert)
      or_same none = rows
      or_same (some after) = after

  -- `captureRecipients`
  unfoldable pub capture_recipients :
      List (Delivery Alert) → Action ScheduleError (AlertWorld Outside) ⊤
  unfolding create_skipping set_captured
  capture_recipients deliveries w =
      let captured =
        db_items.update_many (capturable tenant store signal) (set_captured signal.alert_level now)
          w.items in
      if svc.refuses w.outside
      then (err other, w)
      else if captured.1 == 1
      then (
        ok tt,
        record w { items = captured.0; deliveries = create_skipping deliveries w.deliveries },
      )
      else (ok tt, record w { items = captured.0 })

  unfoldable pub new_deliveries : ℕ → List (Key × Candidate) → List (Delivery Alert)
  new_deliveries version [] = []
  new_deliveries version (c ∷ cs) =
      new_alert_delivery tenant store signal version now c ∷ new_deliveries version cs

  abbrev pub capture_eligible :
      Settings → List Candidate → Action ScheduleError (AlertWorld Outside) ⊤
  capture_eligible s eligible w =
      capture_recipients
        (new_deliveries s.policy_version (svc.new_ids w.outside (recipients_of s eligible))) w

  -- The recipients are chosen by the settings of the Store, and captured with the incident.
  unfoldable pub capture_chosen : Option Settings → Action ScheduleError (AlertWorld Outside) ⊤
  unfolding capture_recipients new_deliveries alert_ask recipients_of
  capture_chosen none w = capture_recipients [] w
  capture_chosen (some s) w =
      if s.category_enabled
      then (alert_ask (svc.eligible tenant store) >>= capture_eligible s) w
      else capture_recipients [] w

  unfoldable pub add_jobs : List (Delivery Alert) → Action ScheduleError (AlertWorld Outside) ⊤
  unfolding alert_ask
  add_jobs [] = pure tt
  add_jobs (d ∷ ds) = do
    alert_ask (svc.add_job (record { delivery_id = d.id; tenant_id = tenant; store_id = store }))
    add_jobs ds

  -- The deliveries that wait are handed over.
  unfoldable pub hand_over_deliveries : Action ScheduleError (AlertWorld Outside) ⊤
  unfolding add_jobs
  hand_over_deliveries w = add_jobs (db.find_many (waiting_for tenant store signal) w.deliveries) w

  -- With the entitlement, and with whether the recipients were captured before.
  unfoldable pub schedule_captured : Bool → Bool → Action ScheduleError (AlertWorld Outside) ⊤
  unfolding capture_chosen hand_over_deliveries capture_recipients
  schedule_captured false false w = capture_recipients [] w
  schedule_captured false true w = (ok tt, w)
  schedule_captured true true w = hand_over_deliveries w
  schedule_captured true false w =
      (capture_chosen (svc.settings tenant store w.outside) >> hand_over_deliveries) w

  abbrev pub schedule_item : Option Item → Action ScheduleError (AlertWorld Outside) ⊤
  schedule_item none = pure tt
  schedule_item (some i) =
      if signal_matches i signal
      then (alert_ask (svc.is_active tenant) >>= λ active.
          schedule_captured active (is_some (captured_at signal.alert_level i)))
      else pure tt

  -- `schedule`
  unfoldable pub schedule_inventory_notification : Action ScheduleError (AlertWorld Outside) ⊤
  unfolding schedule_captured alert_ask
  schedule_inventory_notification w =
      schedule_item (db_items.find_first (of_signal tenant store signal) w.items) w
