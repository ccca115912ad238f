-- ===== src/Inventory/Tests.antt =====
-- A product that sells out, by a webhook.
use wctm.Prelude.{
  ℕ, Text, codes, ◌≡◌, refl, Bool, true, false, none, some, [], ◌∷◌, Memᴰ, ◌==◌, ◌&&◌, Result, sym,
  ◌∙◌, inr, ok,
}
use wctm.Database.Methods.{Client}
use wctm.Database.Rows.{All}
use wctm.Database.Memory.{memory}
use wctm.Projection.Retry.{Environment, Others}
use wctm.Inventory.State.{AlertLevel, healthy, Kind, Item, Signal, Source, Projection, apply}
use wctm.Inventory.Incident.{alert}
use wctm.Inventory.Apply.{
  apply_in_transaction, item_of, StoreRow, Store, Tables, Error, Outcome, apply_projection,
}
use wctm.Inventory.Redelivery.{replayed_signal}
use wctm.Inventory.Signals.{Raised}
use wctm.Inventory.Alerts.{apply_projection_backed}
use wctm.Inventory.Freshness.{HasLater, apply_projection_advances}

abbrev pub sold_out : Projection
sold_out = record {
  wc_item_id = 50;
  parent_wc_product_id = none;
  kind = Kind.product;
  display_name = codes "Tea";
  sku = none;
  variation_context = 0;
  manages_stock = true;
  stock_quantity = some (codes "0");
  stock_status = codes "outofstock";
  wc_modified_at = 2000;
  active = true;
  projection_fingerprint = 12;
}

abbrev pub item : Item
item = record {
  id = 5;
  tenant_id = 10;
  store_id = 1;
  wc_item_id = 50;
  parent_wc_product_id = none;
  kind = Kind.product;
  display_name = codes "Tea";
  sku = none;
  variation_context = 0;
  manages_stock = true;
  stock_quantity = some (codes "9");
  stock_status = codes "instock";
  wc_modified_at = 1000;
  projection_fingerprint = 11;
  last_synced_at = 1100;
  last_webhook_received_at = some 1100;
  remote_deleted_at = none;
  alert_classification = healthy;
  incident_generation = 2;
  low_alert_source_webhook_event_id = none;
  low_alert_recipients_captured_at = none;
  out_alert_source_webhook_event_id = none;
  out_alert_recipients_captured_at = none;
}

abbrev pub tables : Tables
tables = record {
  tenants = record { id = 10; deleted_at = none } ∷ [];
  stores = record { id = 1; tenant_id = 10; deleted_at = none; low_stock_threshold = some 3 } ∷ [];
  items = item ∷ [];
}

abbrev pub store : Store
store = record { id = 1; tenant_id = 10 }

abbrev webhook : Source
webhook = record {
  baseline = false;
  source_webhook_event_id = some 900;
  webhook_received_at = some 2100;
  clear_deletion = false;
}

abbrev pub alone : Environment Tables
alone = record { others = λ k t. t; refuses = λ k. false }

abbrev pub never : Text → ℕ → Bool
never q t = false

abbrev pub store_table : Client StoreRow
store_table = memory (λ a b. a.id == b.id)

abbrev pub item_table : Client Item
item_table = memory (λ a b. a.store_id == b.store_id && a.wc_item_id == b.wc_item_id)

abbrev outcome : Result Error Outcome × Tables
outcome =
    apply_projection never store_table item_table 2200 6 alone store sold_out false webhook tables

abbrev signal : Signal
signal = alert 5 3 AlertLevel.out_of_stock 900

ran : outcome ≡ (ok (record { decision = apply; signal = some signal }), outcome.1)
unfolding apply_projection memory
ran = refl

apply_projection_backed_example :
    (i : Item) × Memᴰ i outcome.1.items × Raised webhook i (some signal)
apply_projection_backed_example =
    apply_projection_backed never store_table item_table 2200 6 alone store sold_out false webhook
      tables outcome.1 (record { decision = apply; signal = some signal }) signal ran refl

apply_projection_advances_example :
    (v : Tables) × Others alone tables v × All (HasLater false webhook outcome.1.items) v.items
apply_projection_advances_example =
    apply_projection_advances never store_table item_table 2200 6 alone store sold_out false webhook
      tables outcome.1 (record { decision = apply; signal = some signal }) ran

one_item :
    (x y : Item)
    → Memᴰ x (item ∷ [])
    → Memᴰ y (item ∷ [])
    → item_of store 50 x ≡ true
    → item_of store 50 y ≡ true
    → x ≡ y
one_item x y (Memᴰ.head e) (Memᴰ.head f) h k = e ∙ sym f
one_item x y (Memᴰ.tail m) n h k = elim m [ ]
one_item x y m (Memᴰ.tail n) h k = elim n [ ]

abbrev once : Result Error Outcome × Tables
once = apply_in_transaction never store_table item_table 2200 6 store sold_out false webhook tables

ran_once : once ≡ (ok (record { decision = apply; signal = some signal }), once.1)
unfolding apply_in_transaction memory
ran_once = refl

replayed_signal_example :
    (o : Outcome) × (apply_in_transaction never store_table item_table 9000 7 store sold_out false
        webhook once.1
      ≡ (ok o, once.1))
    × (o.signal ≡ some signal)
replayed_signal_example =
    replayed_signal never store_table item_table 2200 9000 6 7 store sold_out false webhook tables
      once.1 (record { decision = apply; signal = some signal }) signal one_item (inr refl, tt)
      ran_once refl
