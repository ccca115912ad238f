-- ===== src/Notifications/SchedulerTests.antt =====
-- A stock alert and a new order with two members, on small tables.
use wctm.Prelude.{
  ℕ, ◌+◌, Key, codes, ◌≡◌, refl, true, false, ◌&&◌, none, some, List, [], ◌∷◌, Memᴰ, ◌==◌, ok, pure,
  ◌∙◌, sym,
}
use wctm.Database.Methods.{Client}
use wctm.Database.Keys.{HasKeys}
use wctm.Database.Memory.{memory}
use wctm.Inventory.{Item, Kind, Signal, AlertLevel, low_stock}
use wctm.Notifications.State.{DeliveryState, Delivery}
use wctm.Notifications.Kinds.{Alert}
use wctm.Notifications.Recipients.{Candidate, Settings, recipients_of, selected_of}
use wctm.Notifications.OrderScheduler.{
  OrderEvent, OrderServices, OrderWorld, schedule_order_notification, schedule_recipients,
  upsert_delivery, order_ask,
}
use wctm.Notifications.InventoryScheduler.{
  AlertServices, AlertWorld, schedule_inventory_notification, set_captured, alert_ask,
  create_skipping, capture_recipients, new_deliveries, capture_chosen, add_jobs,
  hand_over_deliveries, schedule_captured,
}
use wctm.Notifications.Captured.{schedule_once}
use wctm.Notifications.OnePerChat.{OnePerChat, schedule_order_notification-OnePerChat}

-- Running low since the event 900, with the recipients not yet captured.
abbrev short : Item
short = record {
  id = 5;
  tenant_id = 10;
  store_id = 1;
  wc_item_id = 50;
  parent_wc_product_id = none;
  kind = Kind.product;
  display_name = codes "Tea";
  sku = none;
  variation_context = 0;
  manages_stock = true;
  stock_quantity = some (codes "1");
  stock_status = codes "instock";
  wc_modified_at = 1000;
  projection_fingerprint = 11;
  last_synced_at = 1100;
  last_webhook_received_at = some 1100;
  remote_deleted_at = none;
  alert_classification = low_stock;
  incident_generation = 3;
  low_alert_source_webhook_event_id = some 900;
  low_alert_recipients_captured_at = none;
  out_alert_source_webhook_event_id = none;
  out_alert_recipients_captured_at = none;
}

abbrev signal : Signal
signal = record {
  inventory_item_id = 5;
  incident_generation = 3;
  alert_level = AlertLevel.low_stock;
  source_webhook_event_id = 900;
}

abbrev owner : Candidate
owner = record {
  membership_id = some 70;
  telegram_account_id = 20;
  telegram_chat_authorization_id = 30;
}

abbrev staff : Candidate
staff = record {
  membership_id = some 71;
  telegram_account_id = 21;
  telegram_chat_authorization_id = 31;
}

-- Only the owner is selected.
abbrev settings : Settings
settings = record {
  category_enabled = true;
  all_eligible = false;
  policy_version = 4;
  selected_membership_ids = 70 ∷ [];
}

abbrev identified : ℕ → List Candidate → List (Key × Candidate)
identified k [] = []
identified k (c ∷ cs) = (k, c) ∷ identified k cs

-- The state outside counts the jobs of the queue.
abbrev alerts : AlertServices ℕ
alerts = record {
  is_active = λ t. pure true;
  settings = λ t s k. some settings;
  eligible = λ t s. pure (owner ∷ staff ∷ []);
  new_ids = identified;
  add_job = λ j k. (ok tt, k + 1);
  refuses = λ k. false;
}

abbrev items : Client Item
items = memory (λ a b. a.id == b.id)

abbrev alert_deliveries : Client (Delivery Alert)
alert_deliveries = memory (λ a b.
    a.subject.inventory_item_id == b.subject.inventory_item_id
    && a.subject.incident_generation == b.subject.incident_generation
    && a.telegram_chat_authorization_id == b.telegram_chat_authorization_id)

abbrev before : AlertWorld ℕ
before = record { items = short ∷ []; deliveries = []; outside = 0 }

only_short : HasKeys (λ i. i.id) before.items
only_short x y (Memᴰ.head e) (Memᴰ.head f) h = e ∙ sym f
only_short x y (Memᴰ.tail m) n h = elim m [ ]
only_short x y m (Memᴰ.tail n) h = elim n [ ]

schedule_run :
    (schedule_inventory_notification alerts items alert_deliveries 10 1 signal 2000 before).0
    ≡ ok tt
unfolding schedule_inventory_notification memory set_captured alert_ask create_skipping
    capture_recipients new_deliveries capture_chosen add_jobs hand_over_deliveries schedule_captured
    recipients_of selected_of
schedule_run = refl

-- One delivery is made, for the owner, and its job is added.
schedule_jobs :
    (schedule_inventory_notification alerts items alert_deliveries 10 1 signal 2000
      before).1.outside
    ≡ 1
unfolding schedule_inventory_notification memory set_captured alert_ask create_skipping
    capture_recipients new_deliveries capture_chosen add_jobs hand_over_deliveries schedule_captured
    recipients_of selected_of
schedule_jobs = refl

schedule_once_example :
    let u =
      (schedule_inventory_notification alerts items alert_deliveries 10 1 signal 2000 before).1 in
    ((schedule_inventory_notification alerts items alert_deliveries 10 1 signal 2060 u).1.items
      ≡ u.items)
    × ((schedule_inventory_notification alerts items alert_deliveries 10 1 signal 2060
          u).1.deliveries
        ≡ u.deliveries)
schedule_once_example =
    schedule_once alerts items alert_deliveries 10 1 signal 2000 2060 before only_short schedule_run

-- The order 500 was told to the owner already.
abbrev told : Delivery Key
told = record {
  id = 3;
  tenant_id = 10;
  store_id = 1;
  subject = 500;
  telegram_account_id = 20;
  telegram_chat_authorization_id = 30;
  state = DeliveryState.delivered;
  attempt_count = 1;
  last_attempt_at = some 1000;
  telegram_message_id = some (codes "812");
  failure_category = none;
  failure_code = none;
  delivered_at = some 1000;
  source_webhook_event_id = 901;
  created_at = 1000;
}

abbrev orders : OrderServices ℕ
orders = record {
  is_active = λ t. pure true;
  settings = λ t s k. some (record settings { all_eligible = true });
  read_order_id = λ p. ok p;
  find_order = λ t s o k. some 500;
  eligible = λ t s. pure (owner ∷ staff ∷ []);
  new_id = λ k. k + 40;
  add_job = λ j k. (ok tt, k + 1);
}

abbrev order_deliveries : Client (Delivery Key)
order_deliveries = memory (λ a b. a.id == b.id)

abbrev created : OrderEvent
created = record {
  id = 901;
  topic = codes "order.created";
  payload = 77;
  tenant_id = 10;
  store_id = 1;
}

abbrev told_before : OrderWorld ℕ
told_before = record { deliveries = told ∷ []; outside = 0 }

only_told : OnePerChat told_before.deliveries
only_told x y (Memᴰ.head e) (Memᴰ.head f) s c = e ∙ sym f
only_told x y (Memᴰ.tail m) n s c = elim m [ ]
only_told x y m (Memᴰ.tail n) s c = elim n [ ]

-- Only the delivery for the staff is new, and both have a job.
schedule_order_run :
    schedule_order_notification orders order_deliveries 2000 created told_before ≡ (
      ok tt,
      record {
        deliveries =
            record told {
              id = 41;
              telegram_account_id = 21;
              telegram_chat_authorization_id = 31;
              state = DeliveryState.pending;
              attempt_count = 0;
              last_attempt_at = none;
              telegram_message_id = none;
              delivered_at = none;
              created_at = 2000;
            }
            ∷ told
            ∷ [];
        outside = 2;
      },
    )
unfolding schedule_order_notification memory schedule_recipients upsert_delivery order_ask
    recipients_of
schedule_order_run = refl

schedule_order_notification-OnePerChat_example :
    OnePerChat
      (schedule_order_notification orders order_deliveries 2000 created told_before).1.deliveries
schedule_order_notification-OnePerChat_example =
    schedule_order_notification-OnePerChat orders order_deliveries 2000 created told_before
      only_told
