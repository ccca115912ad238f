-- ===== src/Orders/Service.antt =====
-- The methods of `OrderProjectionService`. The mapper of payloads and the hash that it takes, and
-- the client of WooCommerce, are an interface. A topic is told by its text.
use wctm.Prelude.{
  Key, Date, Text, codes, text_eq, Bool, true, false, ◌||◌, Option, none, some, List, ◌==◌, leb,
  if◌then◌else◌, Result, ok, err, Action, ⊤, pure, throw, ◌>>=◌, ◌>>◌, ◌++◌,
}
use wctm.Database.Methods.{Client}
use wctm.Projection.Retry.{Environment, with_projection_transaction}
use wctm.Orders.State.{
  Content, OrderProjection, Order, ProjectableStore, DeletionMode, clear, preserve, Decision, apply,
  noop, reconcile, Category, unexpected, is_retryable, Error, failure, unique_violation,
  write_conflict, concurrent_projection, is_concurrent, decide_order_projection, order_of,
  optimistic_order_where,
}

-- `OrderPayloadMappingError`, with the identifier that it may carry, or another error.
pub data MappingError : Type 0 where
  mapping : Text → Option Key → MappingError
  other : MappingError

-- `WooCommerceClientError`, or another error.
pub data ClientError : Type 0 where
  client : Category → ClientError
  other : ClientError

-- `order-payload.mapper.ts` and the client.
pub record Remote : Type 0 where
  -- `mapWooCommerceOrder`
  pub map_order : Key → Result MappingError OrderProjection
  -- `readWooCommerceOrderId`
  pub read_order_id : Key → Result MappingError Key
  -- `orderProjectionFingerprint`
  pub fingerprint : Key → Content → Key
  -- `fetchOrder`, by the client of a Store
  pub fetch_order : ProjectableStore → Key → Result ClientError Key
  -- the name of a category in a code
  pub category_name : Category → Text

-- `ProjectableWebhookEvent`
pub record Event : Type 0 where
  pub topic : Text
  pub payload : Key
  pub received_at : Date
  pub store : ProjectableStore

abbrev pub mapping_code : MappingError → Text
mapping_code (mapping code id) = code
mapping_code other = codes "malformed-order-payload"

abbrev pub has_topic : Event → Text → Bool
has_topic e t = text_eq e.topic t

-- `ORDER_TOPICS`
abbrev pub is_order_topic : Event → Bool
is_order_topic e =
    has_topic e (codes "order.created")
    || has_topic e (codes "order.updated")
    || has_topic e (codes "order.deleted")
    || has_topic e (codes "order.restored")

-- `existing.remoteDeletedAt && event.receivedAt <= existing.remoteDeletedAt`
abbrev pub is_late : Option Date → Date → Bool
is_late none received_at = false
is_late (some d) received_at = leb received_at d

module _ (remote : Remote) where
  -- `withRemoteDeletedAt`
  unfoldable pub with_remote_deleted_at : OrderProjection → Option Date → OrderProjection
  with_remote_deleted_at p d =
      let next = record p.content { remote_deleted_at = d } in
      record p { content = next; projection_fingerprint = remote.fingerprint p.wc_order_id next }

  unfoldable pub in_mode : DeletionMode → OrderProjection → Order → OrderProjection
  unfolding with_remote_deleted_at
  in_mode preserve p e = with_remote_deleted_at p e.content.remote_deleted_at
  in_mode clear p e = p

abbrev pub new_order : ProjectableStore → OrderProjection → Date → Key → Order
new_order store p now id = record {
  id = id;
  tenant_id = store.tenant_id;
  store_id = store.id;
  wc_order_id = p.wc_order_id;
  content = p.content;
  projection_fingerprint = p.projection_fingerprint;
  last_synced_at = now;
}

-- The `data` of the update of `applyProjection`.
abbrev pub projected : OrderProjection → Date → Order → Order
projected p now o = record o {
  content = p.content;
  projection_fingerprint = p.projection_fingerprint;
  last_synced_at = now;
}

module _ (db : Client Order) where
  -- `updateMany` of the one order that was read
  unfoldable pub update_order : Order → (Order → Order) → Action Error (List Order) ⊤
  unfolding optimistic_order_where
  update_order e f rows =
      let w = db.update_many (optimistic_order_where e) f rows in
      if w.1 == 1 then (ok tt, w.0) else (err concurrent_projection, w.0)

  unfoldable pub create_order : Order → Action Error (List Order) Decision
  create_order o rows = elim (db.create o rows) [
    | none ↦ (err unique_violation, rows)
    | some after ↦ (ok apply, after)
  ]

module _ (remote : Remote) (db : Client Order) (now : Date) (new_id : Key) where
  unfoldable pub write_decided :
      Decision → OrderProjection → Order → Action Error (List Order) Decision
  unfolding update_order
  write_decided apply p e = update_order db e (projected p now) >> pure apply
  write_decided noop p e = pure noop
  write_decided reconcile p e = pure reconcile

  abbrev pub decided : Order → OrderProjection → Bool → Decision
  decided e p authoritative =
      decide_order_projection e.content.wc_modified_at e.projection_fingerprint
        p.content.wc_modified_at p.projection_fingerprint authoritative

  -- The body of the transaction of `applyProjection`.
  unfoldable pub apply_in_transaction :
      ProjectableStore → OrderProjection → Bool → DeletionMode → Action Error (List Order) Decision
  unfolding create_order write_decided in_mode decide_order_projection
  apply_in_transaction store candidate authoritative mode rows =
      elim (db.find_first (order_of store candidate.wc_order_id) rows) [
        | none ↦ create_order db (new_order store candidate now new_id) rows
        | some e ↦
            write_decided (decided e (in_mode remote mode candidate e) authoritative)
              (in_mode remote mode candidate e) e rows
      ]

  -- The `data` of the update of `projectDeletion`.
  abbrev pub deleted : Order → Date → Order → Order
  deleted e at o = record o {
    content = record o.content { remote_deleted_at = some at };
    projection_fingerprint =
        remote.fingerprint e.wc_order_id (record e.content { remote_deleted_at = some at });
    last_synced_at = now;
  }

  -- The body of the transaction of `projectDeletion`.
  unfoldable pub delete_in_transaction : ProjectableStore → Key → Date → Action Error (List Order) ⊤
  unfolding update_order
  delete_in_transaction store wc_order_id received_at rows =
      elim (db.find_first (order_of store wc_order_id) rows) [
        | none ↦ (ok tt, rows)
        | some e ↦
            if is_late e.content.remote_deleted_at received_at
            then (ok tt, rows)
            else update_order db e (deleted e received_at) rows
      ]

  -- `applyProjection`
  unfoldable pub apply_order_projection :
      Environment (List Order)
      → ProjectableStore
      → OrderProjection
      → Bool
      → DeletionMode
      → Action Error (List Order) Decision
  unfolding apply_in_transaction
  apply_order_projection env store candidate authoritative mode =
      with_projection_transaction is_concurrent write_conflict env
        (apply_in_transaction store candidate authoritative mode)

  -- `projectDeletion`
  unfoldable pub project_deletion : Environment (List Order) → Event → Action Error (List Order) ⊤
  unfolding delete_in_transaction
  project_deletion env event = elim (remote.read_order_id event.payload) [
    | err e ↦ throw (failure unexpected (mapping_code e) false)
    | ok id ↦
        with_projection_transaction is_concurrent write_conflict env
          (delete_in_transaction event.store id event.received_at)
  ]

  -- `reconcileAuthoritativeOrder`
  unfoldable pub reconcile_authoritative_order :
      Environment (List Order) → ProjectableStore → Key → Key → Action Error (List Order) ⊤
  unfolding apply_order_projection
  reconcile_authoritative_order env store payload expected = elim (remote.map_order payload) [
    | err e ↦ throw (failure unexpected (codes "malformed-reconciliation-payload") false)
    | ok p ↦
        if p.wc_order_id == expected
        then apply_order_projection env store p true clear >> pure tt
        else throw (failure unexpected (codes "reconciliation-order-identity-mismatch") false)
  ]

  -- `reconcile`
  unfoldable pub reconcile_order :
      Environment (List Order) → ProjectableStore → Key → Action Error (List Order) ⊤
  unfolding reconcile_authoritative_order
  reconcile_order env store wc_order_id = elim (remote.fetch_order store wc_order_id) [
    | err (client c) ↦
        throw (failure c (codes "woocommerce-" ++ remote.category_name c) (is_retryable c))
    | err ClientError.other ↦ throw (failure unexpected (codes "woocommerce-unexpected") false)
    | ok payload ↦ reconcile_authoritative_order env store payload wc_order_id
  ]

  -- `reconcileMappingFailure`
  unfoldable pub reconcile_mapping_failure :
      Environment (List Order) → Event → MappingError → Action Error (List Order) ⊤
  unfolding reconcile_order
  reconcile_mapping_failure env event (mapping code (some id)) = reconcile_order env event.store id
  reconcile_mapping_failure env event e = throw (failure unexpected (mapping_code e) false)

  abbrev pub follow_up :
      Environment (List Order) → Event → Key → Decision → Action Error (List Order) ⊤
  follow_up env event id reconcile = reconcile_order env event.store id
  follow_up env event id d = pure tt

  -- `project`; each of its transactions has its environment
  unfoldable pub project :
      Environment (List Order) → Environment (List Order) → Event → Action Error (List Order) ⊤
  unfolding apply_order_projection project_deletion reconcile_mapping_failure reconcile_order
  project env later event =
      if is_order_topic event
      then if has_topic event (codes "order.deleted")
        then project_deletion env event
        else project_mapped (remote.map_order event.payload)
      else pure tt
    where
      project_mapped : Result MappingError OrderProjection → Action Error (List Order) ⊤
      project_mapped (err e) = reconcile_mapping_failure env event e
      project_mapped (ok p) =
          let mode = if has_topic event (codes "order.restored") then clear else preserve in
          apply_order_projection env event.store p false mode
          >>= follow_up later event p.wc_order_id
