-- ===== src/Inventory/Apply.antt =====
-- `applyProjection`: a mapped payload is written over the item that it is about, or makes it.
use wctm.Prelude.{
  ℕ, Key, Date, Text, codes, Bool, true, false, not, ◌&&◌, ◌||◌, Option, none, some, List, [], ◌∷◌,
  ◌==◌, same, leb, is_some, or_else, if◌then◌else◌, Action, pure, Result, ok, err,
}
use wctm.Database.Methods.{Client}
use wctm.Projection.Retry.{Environment, with_projection_transaction}
use wctm.Inventory.State.{
  Classification, AlertLevel, healthy, is_healthy, same_class, Item, Signal, Source, Projection,
  Decision, apply, noop, reconcile, is_noop, decide_inventory_projection, classify_inventory_item,
}
use wctm.Inventory.Incident.{
  entry_alert_level, entry_signal, replay_signal, replay_unless_baseline, next_incident, Incident,
}

pub record Tenant : Type 0 where
  pub id : Key
  pub deleted_at : Option Date

pub record StoreRow : Type 0 where
  pub id : Key
  pub tenant_id : Key
  pub deleted_at : Option Date
  pub low_stock_threshold : Option ℕ

-- `InventoryProjectableStore`, what of it the write uses
pub record Store : Type 0 where
  pub id : Key
  pub tenant_id : Key

pub record Tables : Type 0 where
  pub tenants : List Tenant
  pub stores : List StoreRow
  pub items : List Item

-- `InventoryProjectionFailure`, the two errors of the database that are concurrent ones (`P2002` and
-- `P2034`), and `ConcurrentInventoryProjectionError`
pub data Error : Type 0 where
  failure : (category code : Text) (retryable : Bool) → Error
  unique_violation write_conflict concurrent_projection : Error

-- `isConcurrentProjectionError`
abbrev pub is_concurrent : Error → Bool
is_concurrent (failure category code retryable) = false
is_concurrent unique_violation = true
is_concurrent write_conflict = true
is_concurrent concurrent_projection = true

pub record Outcome : Type 0 where
  pub decision : Decision
  pub signal : Option Signal

-- `tenant: { deletedAt: null }`
abbrev pub tenant_live : Key → List Tenant → Bool
tenant_live id [] = false
tenant_live id (t ∷ ts) = (t.id == id && not (is_some t.deleted_at)) || tenant_live id ts

abbrev pub live_store : Store → List Tenant → StoreRow → Bool
live_store store tenants r =
    r.id == store.id
    && r.tenant_id == store.tenant_id
    && not (is_some r.deleted_at)
    && tenant_live r.tenant_id tenants

-- the `where` of `findItem`
abbrev pub item_of : Store → Key → Item → Bool
item_of store wc_item_id i =
    i.tenant_id == store.tenant_id && i.store_id == store.id && i.wc_item_id == wc_item_id

-- `optimisticItemWhere`
unfoldable pub optimistic_item_where : Item → Item → Bool
optimistic_item_where e i =
    i.id == e.id
    && i.tenant_id == e.tenant_id
    && i.store_id == e.store_id
    && i.wc_modified_at == e.wc_modified_at
    && i.projection_fingerprint == e.projection_fingerprint
    && same i.remote_deleted_at e.remote_deleted_at
    && same_class i.alert_classification e.alert_classification
    && i.incident_generation == e.incident_generation

-- The signal of a new item: its incident is the first.
abbrev pub first_generation : Classification → ℕ
first_generation c = if is_healthy c then 0 else 1

abbrev pub source_of_level : AlertLevel → Option Signal → Option Key
source_of_level level none = none
source_of_level AlertLevel.low_stock (some s) = low s.alert_level
  where
    low : AlertLevel → Option Key
    low AlertLevel.low_stock = some s.source_webhook_event_id
    low AlertLevel.out_of_stock = none
source_of_level AlertLevel.out_of_stock (some s) = out s.alert_level
  where
    out : AlertLevel → Option Key
    out AlertLevel.low_stock = none
    out AlertLevel.out_of_stock = some s.source_webhook_event_id

-- The row of a new item.
abbrev pub new_item :
    Store → Projection → Source → Classification → Option Signal → Date → Key → Item
new_item store p source c s now id = record {
  id = id;
  tenant_id = store.tenant_id;
  store_id = store.id;
  wc_item_id = p.wc_item_id;
  parent_wc_product_id = p.parent_wc_product_id;
  kind = p.kind;
  display_name = p.display_name;
  sku = p.sku;
  variation_context = p.variation_context;
  manages_stock = p.manages_stock;
  stock_quantity = p.stock_quantity;
  stock_status = p.stock_status;
  wc_modified_at = p.wc_modified_at;
  projection_fingerprint = p.projection_fingerprint;
  last_synced_at = now;
  last_webhook_received_at = source.webhook_received_at;
  remote_deleted_at = none;
  alert_classification = c;
  incident_generation = first_generation c;
  low_alert_source_webhook_event_id = source_of_level AlertLevel.low_stock s;
  low_alert_recipients_captured_at = none;
  out_alert_source_webhook_event_id = source_of_level AlertLevel.out_of_stock s;
  out_alert_recipients_captured_at = none;
}

-- `source.webhookReceivedAt ?? new Date()`
abbrev pub or_now : Option Date → Date → Date
or_now none now = now
or_now (some d) now = d

abbrev pub preserved_deletion : Item → Source → Option Date
preserved_deletion e source = if source.clear_deletion then none else e.remote_deleted_at

abbrev pub effective_classification : Item → Source → Classification → Classification
effective_classification e source c = if is_some (preserved_deletion e source) then healthy else c

-- The `data` of the update, on a row.
abbrev pub overwritten :
    Projection → Source → Item → Classification → (Item → Item) → Date → Item → Item
overwritten p source e c incident now r = incident (record r {
  parent_wc_product_id = p.parent_wc_product_id;
  kind = p.kind;
  display_name = p.display_name;
  sku = p.sku;
  variation_context = p.variation_context;
  manages_stock = p.manages_stock;
  stock_quantity = p.stock_quantity;
  stock_status = p.stock_status;
  wc_modified_at = p.wc_modified_at;
  projection_fingerprint = p.projection_fingerprint;
  last_synced_at = now;
  last_webhook_received_at = or_else source.webhook_received_at r.last_webhook_received_at;
  remote_deleted_at =
      if p.active
      then preserved_deletion e source
      else some (or_now source.webhook_received_at now);
  alert_classification = c;
})

-- A page that was read before a webhook does not win a race with it.
abbrev pub stale_baseline : Source → Item → Projection → Bool
stale_baseline source e p =
    source.baseline && is_some e.last_webhook_received_at && leb p.wc_modified_at e.wc_modified_at

-- The decision, with a reactivation of a deleted item taken into account.
unfoldable pub decided : Item → Projection → Bool → Source → Decision
unfolding decide_inventory_projection
decided e p authoritative source =
    let d =
      decide_inventory_projection e.wc_modified_at e.projection_fingerprint p.wc_modified_at
        p.projection_fingerprint authoritative in
    if is_some e.remote_deleted_at && source.clear_deletion && is_noop d
    then if authoritative then apply else reconcile
    else d

module _ (at_most : Text → ℕ → Bool) (db_stores : Client StoreRow) (db_items : Client Item)
    (now : Date) (new_id : Key) where
  unfoldable pub create_item :
      Store → Projection → Source → Classification → Action Error Tables Outcome
  unfolding entry_alert_level
  create_item store p source c t =
      let s =
        entry_signal new_id (first_generation c) (entry_alert_level c) source.baseline
          source.source_webhook_event_id in
      stored (db_items.create (new_item store p source c s now new_id) t.items) s
    where
      stored : Option (List Item) → Option Signal → Result Error Outcome × Tables
      stored none s = (err unique_violation, t)
      stored (some rows) s =
          (ok (record { decision = apply; signal = s }), record t { items = rows })

  unfoldable pub update_item :
      Item → Projection → Source → Classification → Incident → Action Error Tables Outcome
  unfolding optimistic_item_where
  update_item e p source c incident t =
      let w =
        db_items.update_many (optimistic_item_where e)
          (overwritten p source e c incident.data_of now) t.items in
      if w.1 == 1
      then (ok (record { decision = apply; signal = incident.signal }), record t { items = w.0 })
      else (err concurrent_projection, record t { items = w.0 })

  unfoldable pub apply_to_item :
      Item → Projection → Bool → Source → Classification → Action Error Tables Outcome
  unfolding next_incident update_item decided replay_signal
  apply_to_item e p authoritative source c =
      if stale_baseline source e p
      then pure (record { decision = noop; signal = none })
      else decide (decided e p authoritative source)
    where
      decide : Decision → Action Error Tables Outcome
      decide apply =
          let new = effective_classification e source c in
          update_item e p source new (next_incident e source e.alert_classification new)
      decide d = pure (record { decision = d; signal = replay_unless_baseline e source })

  abbrev pub classified : Projection → StoreRow → Classification
  classified p settings =
      if p.active
      then classify_inventory_item at_most p.manages_stock p.stock_quantity p.stock_status
          settings.low_stock_threshold
      else healthy

  -- The body of the transaction.
  unfoldable pub apply_in_transaction :
      Store → Projection → Bool → Source → Action Error Tables Outcome
  unfolding create_item apply_to_item classify_inventory_item
  apply_in_transaction store p authoritative source t =
      with_settings (db_stores.find_first (live_store store t.tenants) t.stores)
        (db_items.find_first (item_of store p.wc_item_id) t.items)
    where
      with_item : Classification → Option Item → Result Error Outcome × Tables
      with_item c none =
          if p.active
          then create_item store p source c t
          else (ok (record { decision = apply; signal = none }), t)
      with_item c (some e) = apply_to_item e p authoritative source c t

      with_settings : Option StoreRow → Option Item → Result Error Outcome × Tables
      with_settings none found =
          (err (failure (codes "not-found") (codes "inventory-store-unavailable") false), t)
      with_settings (some settings) found = with_item (classified p settings) found

  -- `applyProjection`
  unfoldable pub apply_projection :
      Environment Tables → Store → Projection → Bool → Source → Action Error Tables Outcome
  unfolding with_projection_transaction apply_in_transaction
  apply_projection env store p authoritative source =
      with_projection_transaction is_concurrent write_conflict env
        (apply_in_transaction store p authoritative source)
