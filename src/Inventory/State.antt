-- ===== src/Inventory/State.antt =====
-- The data of inventory-projection.service.ts and of inventory-payload.mapper.ts: an item's row, a
-- mapped payload, where it comes from, and the classification of the stock.
use wctm.Prelude.{
  ℕ, Key, Date, Text, codes, text_eq, Bool, true, false, ◌&&◌, Option, none, some, ◌==◌, ltb,
  if◌then◌else◌,
}

-- `InventoryAlertClassification`
pub data Classification : Type 0 where
  out_of_stock low_stock healthy : Classification

-- `InventoryAlertLevel`
pub data AlertLevel : Type 0 where
  low_stock out_of_stock : AlertLevel

pub data Kind : Type 0 where
  product variation : Kind

-- `InventoryProjection`; the context of a variation is opaque
pub record Projection : Type 0 where
  pub wc_item_id : Key
  pub parent_wc_product_id : Option Key
  pub kind : Kind
  pub display_name : Text
  pub sku : Option Text
  pub variation_context : Key
  pub manages_stock : Bool
  pub stock_quantity : Option Text
  pub stock_status : Text
  pub wc_modified_at : Date
  pub active : Bool
  pub projection_fingerprint : Key

pub record Item : Type 0 where
  pub id : Key
  pub tenant_id : Key
  pub store_id : Key
  pub wc_item_id : Key
  pub parent_wc_product_id : Option Key
  pub kind : Kind
  pub display_name : Text
  pub sku : Option Text
  pub variation_context : Key
  pub manages_stock : Bool
  pub stock_quantity : Option Text
  pub stock_status : Text
  pub wc_modified_at : Date
  pub projection_fingerprint : Key
  pub last_synced_at : Date
  pub last_webhook_received_at : Option Date
  pub remote_deleted_at : Option Date
  pub alert_classification : Classification
  pub incident_generation : ℕ
  pub low_alert_source_webhook_event_id : Option Key
  pub low_alert_recipients_captured_at : Option Date
  pub out_alert_source_webhook_event_id : Option Key
  pub out_alert_recipients_captured_at : Option Date

-- `InventoryAlertSignal`
pub record Signal : Type 0 where
  pub inventory_item_id : Key
  pub incident_generation : ℕ
  pub alert_level : AlertLevel
  pub source_webhook_event_id : Key

-- `ProjectionSource`
pub record Source : Type 0 where
  pub baseline : Bool
  pub source_webhook_event_id : Option Key
  pub webhook_received_at : Option Date
  pub clear_deletion : Bool

-- `ProjectionDecision`
pub data Decision : Type 0 where
  apply noop reconcile : Decision

abbrev pub is_apply : Decision → Bool
is_apply apply = true
is_apply noop = false
is_apply reconcile = false

abbrev pub is_noop : Decision → Bool
is_noop apply = false
is_noop noop = true
is_noop reconcile = false

abbrev pub is_healthy : Classification → Bool
is_healthy Classification.out_of_stock = false
is_healthy Classification.low_stock = false
is_healthy healthy = true

abbrev pub same_class : Classification → Classification → Bool
same_class Classification.out_of_stock Classification.out_of_stock = true
same_class Classification.low_stock Classification.low_stock = true
same_class healthy healthy = true
same_class _ _ = false

-- `decideInventoryProjection`
unfoldable pub decide_inventory_projection : Date → Key → Date → Key → Bool → Decision
decide_inventory_projection stored_at stored incoming_at incoming authoritative =
    if ltb incoming_at stored_at
    then noop
    else if ltb stored_at incoming_at
    then apply
    else if stored == incoming
    then noop
    else if authoritative
    then apply
    else reconcile

-- `Number(stockQuantity) <= lowStockThreshold`; reading a decimal is the language's, `at_most`
abbrev pub is_low : (Text → ℕ → Bool) → Option Text → Option ℕ → Bool
is_low at_most none threshold = false
is_low at_most (some q) none = false
is_low at_most (some q) (some t) = at_most q t

-- `classifyInventoryItem`
unfoldable pub classify_inventory_item :
    (Text → ℕ → Bool) → Bool → Option Text → Text → Option ℕ → Classification
classify_inventory_item at_most manages_stock quantity status threshold =
    if text_eq status (codes "outofstock")
    then Classification.out_of_stock
    else if manages_stock && is_low at_most quantity threshold
    then Classification.low_stock
    else healthy
