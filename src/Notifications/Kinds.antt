-- ===== src/Notifications/Kinds.antt =====
-- What the processors of orders and of stock alerts differ in.
use wctm.Prelude.{Key, ℕ, codes, true, not, ◌&&◌, leb, is_some, Action, ⊤}
use wctm.Database.Methods.{Client}
use wctm.Inventory.{AlertLevel}
use wctm.Notifications.State.{Delivery}
use wctm.Notifications.Processor.{
  Kind, Services, World, JobFields, Instants, Thrown, Outcome, process, mark_failed,
}

-- What an alert's delivery is about.
pub record Alert : Type 0 where
  pub inventory_item_id : Key
  pub incident_generation : ℕ
  pub alert_level : AlertLevel
  pub policy_version : ℕ

-- The subject of an order's delivery is the identifier of the order.
abbrev pub order_kind : Kind Key
order_kind = record {
  allows = λ a d. true;
  code_prefix = codes "notification-";
  category = codes "order";
}

-- An authorization that was revoked, or changed after the delivery was made, gets no alert.
abbrev pub alert_kind : Kind Alert
alert_kind = record {
  allows = λ a d. not (is_some a.revoked_at) && leb a.updated_at d.created_at;
  code_prefix = codes "inventory-notification-";
  category = codes "inventory";
}

module _ {Outside : Type 0} where
  -- `OrderNotificationProcessor.process`
  unfoldable pub process_order_notification :
      Services Key Outside
      → Client (Delivery Key)
      → JobFields
      → Instants
      → Action Thrown (World Key Outside) Outcome
  unfolding process
  process_order_notification svc db = process order_kind svc db

  -- `InventoryNotificationProcessor.process`
  unfoldable pub process_inventory_notification :
      Services Alert Outside
      → Client (Delivery Alert)
      → JobFields
      → Instants
      → Action Thrown (World Alert Outside) Outcome
  unfolding process
  process_inventory_notification svc db = process alert_kind svc db

  -- `OrderNotificationProcessor.markFailed`
  unfoldable pub mark_order_notification_failed :
      Client (Delivery Key) → JobFields → Action Thrown (World Key Outside) ⊤
  unfolding mark_failed
  mark_order_notification_failed db = mark_failed db

  -- `InventoryNotificationProcessor.markFailed`
  unfoldable pub mark_inventory_notification_failed :
      Client (Delivery Alert) → JobFields → Action Thrown (World Alert Outside) ⊤
  unfolding mark_failed
  mark_inventory_notification_failed db = mark_failed db
