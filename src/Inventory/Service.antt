-- ===== src/Inventory/Service.antt =====
-- The other methods of `InventoryProjectionService`. The mapper of payloads and the client of
-- WooCommerce are an interface. A topic and a category of an error are told by their texts.
use wctm.Prelude.{
  Key, Date, Text, codes, text_eq, Bool, true, false, not, ◌&&◌, ◌||◌, Option, none, some, List, [],
  ◌∷◌, ◌++◌, ◌==◌, holds, leb, or_else, if◌then◌else◌, Result, ok, err, Action, ⊤, pure, throw,
  ◌>>=◌, ◌>>◌, ℕ,
}
use wctm.Database.Methods.{Client}
use wctm.Projection.Retry.{Environment}
use wctm.Inventory.State.{
  healthy, Item, Signal, Source, Projection, Decision, apply, noop, reconcile,
}
use wctm.Inventory.Apply.{
  StoreRow, Store, Tables, Error, failure, unique_violation, write_conflict, concurrent_projection,
  Outcome, apply_projection,
}

-- `InventoryPayloadMappingError`, with the identifiers that it may carry, or another error.
pub data MappingError : Type 0 where
  mapping : Text → (item parent : Option Key) → MappingError
  other : MappingError

-- `WooCommerceClientError`, with its category, or another error.
pub data ClientError : Type 0 where
  client : Text → ClientError
  other : ClientError

-- `inventory-payload.mapper.ts` and the client of a Store.
pub record Remote : Type 0 where
  -- `mapWooCommerceInventoryItem`
  pub map_item : Key → Result MappingError Projection
  -- `readWooCommerceInventoryItemId`
  pub read_item_id : Key → Result MappingError Key
  -- `readWooCommerceInventoryModifiedAt`, or `undefined` where it throws
  pub read_modified_at : Key → Option Date
  -- `readWooCommerceParentProductId`, or `undefined` where it throws
  pub read_parent_id : Key → Option Key
  pub fetch_product : Store → Key → Result ClientError Key
  pub fetch_product_variation : Store → Key → Key → Result ClientError Key

-- `InventoryProjectableWebhookEvent`
pub record Event : Type 0 where
  pub id : Key
  pub topic : Text
  pub payload : Key
  pub received_at : Date
  pub store : Store

-- What the others do in a call: around its first transaction, around its second one, and between
-- what a deletion reads and what it writes.
pub record Course : Type 0 where
  pub first : Environment Tables
  pub second : Environment Tables
  pub meanwhile : Tables → Tables

abbrev pub has_topic : Event → Text → Bool
has_topic e t = text_eq e.topic t

-- `PRODUCT_TOPICS`
abbrev pub is_product_topic : Event → Bool
is_product_topic e =
    has_topic e (codes "product.created")
    || has_topic e (codes "product.updated")
    || has_topic e (codes "product.deleted")
    || has_topic e (codes "product.restored")

-- `RETRYABLE_WOOCOMMERCE_CATEGORIES`
abbrev pub is_retryable : Text → Bool
is_retryable c =
    text_eq c (codes "transport") || text_eq c (codes "rate-limited") || text_eq c (codes "timeout")

abbrev pub unexpected : Text → Error
unexpected code = failure (codes "unexpected") code false

-- What a mapping error becomes that no read of the item can mend.
abbrev pub mapping_failure : MappingError → Error
mapping_failure (mapping code item parent) = unexpected code
mapping_failure other = unexpected (codes "malformed-inventory-payload")

-- What an error of the client becomes.
abbrev pub client_failure : ClientError → Error
client_failure (client c) = failure c (codes "woocommerce-" ++ c) (is_retryable c)
client_failure other = unexpected (codes "woocommerce-unexpected")

-- What the `catch` of `projectDeletion` makes of an error of `projectBootstrapPayload`.
abbrev pub rebaseline_failure : Error → Error
rebaseline_failure (failure category code retryable) = failure category code retryable
rebaseline_failure unique_violation = unexpected (codes "woocommerce-unexpected")
rebaseline_failure write_conflict = unexpected (codes "woocommerce-unexpected")
rebaseline_failure concurrent_projection = unexpected (codes "woocommerce-unexpected")

abbrev pub signals_of : Option Signal → List Signal
signals_of none = []
signals_of (some s) = s ∷ []

abbrev pub webhook_source : Event → Bool → Source
webhook_source event clear = record {
  baseline = false;
  source_webhook_event_id = some event.id;
  webhook_received_at = some event.received_at;
  clear_deletion = clear;
}

abbrev pub bootstrap_source : Source
bootstrap_source = record {
  baseline = true;
  source_webhook_event_id = none;
  webhook_received_at = none;
  clear_deletion = true;
}

-- `clearDeletion` of `projectWebhook`
abbrev pub clears : Event → Bool
clears event =
    has_topic event (codes "product.created") || has_topic event (codes "product.restored")

-- `where` of the items that a deletion is about: the product and its variations
abbrev pub in_family : Store → Key → Item → Bool
in_family store id i =
    i.tenant_id == store.tenant_id
    && i.store_id == store.id
    && (i.wc_item_id == id || holds i.parent_wc_product_id id)

-- `null` or `lte`
abbrev pub not_after : Option Date → Date → Bool
not_after none d = true
not_after (some x) d = leb x d

-- `lte` where there is a date of the deletion
abbrev pub not_newer : Date → Option Date → Bool
not_newer modified_at none = true
not_newer modified_at (some d) = leb modified_at d

abbrev pub deletable : Event → Key → Option Date → Item → Bool
deletable event id deleted_at i =
    in_family event.store id i
    && not_newer i.wc_modified_at deleted_at
    && not_after i.last_webhook_received_at event.received_at

-- The `data` of the update of `projectDeletion`.
unfoldable pub marked_deleted : Date → Date → Item → Item
marked_deleted at now i = record i {
  remote_deleted_at = some at;
  last_webhook_received_at = some at;
  last_synced_at = now;
  alert_classification = healthy;
  low_alert_source_webhook_event_id = none;
  low_alert_recipients_captured_at = none;
  out_alert_source_webhook_event_id = none;
  out_alert_recipients_captured_at = none;
}

-- `existing.some((item) => item.wcModifiedAt.getTime() === deletedModifiedAt.getTime())`
abbrev pub some_modified_at : Date → List Item → Bool
some_modified_at d [] = false
some_modified_at d (i ∷ is) = i.wc_modified_at == d || some_modified_at d is

-- `needsAuthoritativeRead`
abbrev pub needs_read : Option Date → List Item → Bool
needs_read none existing = true
needs_read (some d) existing = some_modified_at d existing

-- `existing.find((item) => item.parentWcProductId !== null)?.parentWcProductId`
abbrev pub first_parent : List Item → Option Key
first_parent [] = none
first_parent (i ∷ is) = or_else i.parent_wc_product_id (first_parent is)

abbrev pub parent_of : Option Item → Option Key
parent_of none = none
parent_of (some i) = i.parent_wc_product_id

-- `parentWcProductId !== undefined && mapped.parentWcProductId !== parentWcProductId`
abbrev pub other_parent : Option Key → Projection → Bool
other_parent none p = false
other_parent (some parent) p = not (holds p.parent_wc_product_id parent)

module _ (remote : Remote) where
  abbrev pub fetch_item : Store → Option Key → Key → Result ClientError Key
  fetch_item store (some parent) id = remote.fetch_product_variation store parent id
  fetch_item store none id = remote.fetch_product store id

module _ (remote : Remote) (at_most : Text → ℕ → Bool) (db_stores : Client StoreRow)
    (db_items : Client Item) (now : Date) (new_id : Key) where
  abbrev pub apply_item :
      Environment Tables → Store → Projection → Bool → Source → Action Error Tables Outcome
  apply_item = apply_projection at_most db_stores db_items now new_id

  -- `reconcile`, from the payload that was read
  unfoldable pub reconcile_payload :
      Environment Tables
      → Store
      → Key
      → Option Key
      → Source
      → Key
      → Action Error Tables (List Signal)
  reconcile_payload env store id parent source payload = elim (remote.map_item payload) [
    | err e ↦ throw (unexpected (codes "malformed-inventory-reconciliation-payload"))
    | ok p ↦
        if not (p.wc_item_id == id) || other_parent parent p
        then throw (unexpected (codes "inventory-reconciliation-identity-mismatch"))
        else apply_item env store p true source >>= λ o. pure (signals_of o.signal)
  ]

  -- What `reconcile` makes of the read.
  abbrev pub fetched_payload :
      Environment Tables
      → Store
      → Key
      → Source
      → Tables
      → Option Key
      → Result ClientError Key
      → Result Error (List Signal) × Tables
  fetched_payload env store id source t parent (err e) = (err (client_failure e), t)
  fetched_payload env store id source t parent (ok payload) =
      reconcile_payload env store id parent source payload t

  -- `reconcile`
  unfoldable pub reconcile_item :
      Environment Tables → Store → Key → Option Key → Source → Action Error Tables (List Signal)
  unfolding reconcile_payload
  reconcile_item env store id supplied source t =
      let parent = or_else supplied (
        parent_of (
          db_items.find_first
            (λ i. i.tenant_id == store.tenant_id && i.store_id == store.id && i.wc_item_id == id)
            t.items)) in
      fetched_payload env store id source t parent (fetch_item remote store parent id)

  -- `reconcileMappingFailure`
  unfoldable pub reconcile_mapping_failure :
      Environment Tables → Event → MappingError → Action Error Tables (List Signal)
  unfolding reconcile_item
  reconcile_mapping_failure env event (mapping code (some id) parent) =
      reconcile_item env event.store id parent
        (webhook_source event (has_topic event (codes "product.restored")))
  reconcile_mapping_failure env event e = throw (mapping_failure e)

  -- `projectBootstrapPayload`
  unfoldable pub project_bootstrap_payload :
      Environment Tables → Store → Key → Action Error Tables ⊤
  project_bootstrap_payload env store payload = elim (remote.map_item payload) [
    | err e ↦ throw (mapping_failure e)
    | ok p ↦ apply_item env store p true bootstrap_source >> pure tt
  ]

  -- The write at the end of `projectDeletion`.
  unfoldable pub mark_deleted : Event → Key → Option Date → Action Error Tables ⊤
  unfolding marked_deleted
  mark_deleted event id deleted_at t = (
    ok tt,
    record t {
      items =
          (db_items.update_many (deletable event id deleted_at)
            (marked_deleted event.received_at now) t.items).0;
    },
  )

  abbrev pub rebaselined : Result Error ⊤ × Tables → Result Error ⊤ × Tables
  rebaselined (ok x, u) = (ok x, u)
  rebaselined (err e, u) = (err (rebaseline_failure e), u)

  -- What follows the authoritative read of a deletion.
  unfoldable pub after_read :
      Course → Event → Key → Option Date → Result ClientError Key → Action Error Tables ⊤
  unfolding mark_deleted project_bootstrap_payload
  after_read course event id deleted_at (ok payload) t =
      rebaselined (project_bootstrap_payload course.first event.store payload t)
  after_read course event id deleted_at (err (client c)) t =
      if text_eq c (codes "not-found")
      then mark_deleted event id deleted_at (course.meanwhile t)
      else (err (client_failure (client c)), t)
  after_read course event id deleted_at (err ClientError.other) t =
      (err (client_failure ClientError.other), t)

  -- What `projectDeletion` does to the items that it has found.
  unfoldable pub delete_existing :
      Course → Event → Key → Tables → List Item → Result Error ⊤ × Tables
  unfolding after_read mark_deleted
  delete_existing course event id t [] = (ok tt, t)
  delete_existing course event id t (i ∷ is) =
      let deleted_at = remote.read_modified_at event.payload in
      let parent = or_else (remote.read_parent_id event.payload) (first_parent (i ∷ is)) in
      if needs_read deleted_at (i ∷ is)
      then after_read course event id deleted_at (fetch_item remote event.store parent id) t
      else mark_deleted event id deleted_at (course.meanwhile t)

  -- `projectDeletion`, of an item whose identifier was read
  unfoldable pub delete_item : Course → Event → Key → Action Error Tables ⊤
  unfolding delete_existing
  delete_item course event id t =
      delete_existing course event id t (db_items.find_many (in_family event.store id) t.items)

  -- `projectDeletion`
  unfoldable pub project_deletion : Course → Event → Action Error Tables ⊤
  unfolding delete_item
  project_deletion course event = elim (remote.read_item_id event.payload) [
    | err e ↦ throw (mapping_failure e)
    | ok id ↦ delete_item course event id
  ]

  -- The read of a parent, after the signals that there are.
  abbrev pub with_parent :
      Course → Event → Source → List Signal → Option Key → Action Error Tables (List Signal)
  with_parent course event source signals none = pure signals
  with_parent course event source signals (some id) =
      reconcile_item course.second event.store id none source >>= λ more. pure (signals ++ more)

  -- An item that has left the watch may be one whose parent now owns the stock.
  unfoldable pub reconcile_parent :
      Course → Event → Projection → Source → List Signal → Action Error Tables (List Signal)
  unfolding reconcile_item
  reconcile_parent course event p source signals =
      with_parent course event source signals (if p.active then none else p.parent_wc_product_id)

  abbrev pub follow_decision :
      Course
      → Event
      → Projection
      → Source
      → Option Signal
      → Decision
      → Action Error Tables (List Signal)
  follow_decision course event p source signal reconcile =
      reconcile_item course.second event.store p.wc_item_id p.parent_wc_product_id source
  follow_decision course event p source signal apply =
      reconcile_parent course event p source (signals_of signal)
  follow_decision course event p source signal noop =
      reconcile_parent course event p source (signals_of signal)

  -- What follows the first transaction of `projectWebhook`.
  unfoldable pub follow_up :
      Course → Event → Projection → Source → Outcome → Action Error Tables (List Signal)
  unfolding reconcile_item reconcile_parent
  follow_up course event p source o = follow_decision course event p source o.signal o.decision

  -- `projectWebhook`
  unfoldable pub project_webhook : Course → Event → Action Error Tables (List Signal)
  unfolding project_deletion reconcile_mapping_failure follow_up
  project_webhook course event =
      if is_product_topic event
      then if has_topic event (codes "product.deleted")
        then project_deletion course event >> pure []
        else mapped (remote.map_item event.payload)
      else pure []
    where
      mapped : Result MappingError Projection → Action Error Tables (List Signal)
      mapped (err e) = reconcile_mapping_failure course.first event e
      mapped (ok p) =
          let source = webhook_source event (clears event) in
          apply_item course.first event.store p false source >>= follow_up course event p source
