-- ===== src/Orders/State.antt =====
-- The data of order-projection.service.ts and order-payload.mapper.ts. The columns of an order that
-- a projection writes as a whole are one record, `Content`; its texts and snapshots are opaque.
use wctm.Prelude.{Key, Date, Text, Bool, true, false, Option, ◌&&◌, ◌==◌, same, ltb, if◌then◌else◌}

pub record Content : Type 0 where
  pub order_number : Key
  pub status : Key
  pub currency : Key
  pub totals : Key
  pub customer_snapshot : Key
  pub line_items_snapshot : Key
  pub payment_snapshot : Key
  pub shipping_lines_snapshot : Key
  pub wc_created_at : Date
  pub wc_modified_at : Date
  pub remote_deleted_at : Option Date

-- `OrderProjection`
pub record OrderProjection : Type 0 where
  pub wc_order_id : Key
  pub content : Content
  pub projection_fingerprint : Key

pub record Order : Type 0 where
  pub id : Key
  pub tenant_id : Key
  pub store_id : Key
  pub wc_order_id : Key
  pub content : Content
  pub projection_fingerprint : Key
  pub last_synced_at : Date

-- `ProjectableStore`; its address and its keys, which only the client of WooCommerce reads, are one
pub record ProjectableStore : Type 0 where
  pub id : Key
  pub tenant_id : Key
  pub connection : Key

-- `RemoteDeletionMode`
pub data DeletionMode : Type 0 where
  clear preserve : DeletionMode

-- `ProjectionDecision`
pub data Decision : Type 0 where
  apply noop reconcile : Decision

-- `WooCommerceErrorCategory`
pub data Category : Type 0 where
  auth not_found transport rate_limited timeout unexpected : Category

-- `RETRYABLE_WOOCOMMERCE_CATEGORIES`
abbrev pub is_retryable : Category → Bool
is_retryable auth = false
is_retryable not_found = false
is_retryable transport = true
is_retryable rate_limited = true
is_retryable timeout = true
is_retryable unexpected = false

-- `OrderProjectionFailure`, the concurrent errors of the database (`P2002` and `P2034`), and
-- `ConcurrentOrderProjectionError`. The code of a failure is a text.
pub data Error : Type 0 where
  failure : Category → Text → Bool → Error
  unique_violation write_conflict concurrent_projection : Error

-- `isConcurrentProjectionError`
abbrev pub is_concurrent : Error → Bool
is_concurrent (failure category code retryable) = false
is_concurrent unique_violation = true
is_concurrent write_conflict = true
is_concurrent concurrent_projection = true

-- `decideOrderProjection`
unfoldable pub decide_order_projection : Date → Key → Date → Key → Bool → Decision
decide_order_projection stored_at stored incoming_at incoming authoritative =
    if ltb incoming_at stored_at
    then noop
    else if ltb stored_at incoming_at
    then apply
    else if stored == incoming
    then noop
    else if authoritative
    then apply
    else reconcile

-- the `where` of `findOrder`
abbrev pub order_of : ProjectableStore → Key → Order → Bool
order_of store wc_order_id o =
    o.tenant_id == store.tenant_id && o.store_id == store.id && o.wc_order_id == wc_order_id

-- `optimisticOrderWhere`
unfoldable pub optimistic_order_where : Order → Order → Bool
optimistic_order_where e o =
    o.id == e.id
    && o.tenant_id == e.tenant_id
    && o.store_id == e.store_id
    && o.content.wc_modified_at == e.content.wc_modified_at
    && o.projection_fingerprint == e.projection_fingerprint
    && same o.content.remote_deleted_at e.content.remote_deleted_at
