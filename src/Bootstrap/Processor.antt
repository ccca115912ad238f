-- ===== src/Bootstrap/Processor.antt =====
-- `InventoryBootstrapProcessor`. The projection of a payload, the client of WooCommerce, the mapper
-- and the queue are an interface, over the rest of the world. The instants at which a call reads the
-- clock are arguments.
use wctm.Prelude.{
  ℕ, Key, Date, Text, codes, text_eq, Bool, true, false, ◌&&◌, ◌||◌, Option, none, some, List, [],
  ◌∷◌, ◌++◌, ◌==◌, ltb, length, take, is_some, if◌then◌else◌, Result, ok, err, Action, ⊤, pure,
  throw, lift, ◌>>=◌, ◌>>◌,
}
use wctm.Database.Methods.{Client}
use wctm.Bootstrap.State.{
  ready, same_state, Progress, Store, Tenant, JobData, page_size, after_variations,
  write_variations, after_products, is_ready, syncing_at, claimable, leased, loadable, lease,
  unlease, advanced, fail,
}

-- `InventoryProjectionFailure`, `WooCommerceClientError`, `UnrecoverableError`, which ends the job, and
-- any other error.
pub data Error : Type 0 where
  projection_failure : (category code : Text) (retryable : Bool) → Error
  client_error : (category : Text) → Error
  unrecoverable : (message : Text) → Error
  other : Error

pub record Services (Outside : Type 0) : Type 0 where
  -- `projectBootstrapPayload`
  pub project : Store → Key → Action Error Outside ⊤
  -- `woocommerceClient`, which decrypts the credentials of a Store
  pub connect : Store → Action Error Outside ⊤
  -- what the client answers; `none` is no array
  pub fetch_products_page : Store → (page : ℕ) → Action Error Outside (Option (List Key))
  pub fetch_variations_page :
      Store → (parent : Key) (page : ℕ) → Action Error Outside (Option (List Key))
  -- `productRequiresVariationScan` and `readWooCommerceInventoryItemId`, of a payload that was
  -- projected
  pub requires_variation_scan : Key → Bool
  pub item_id : Key → Key
  -- `addInventoryBootstrapJob`
  pub add_job : JobData → Action Error Outside ⊤

pub record World (Outside : Type 0) : Type 0 where
  pub stores : List Store
  pub tenants : List Tenant
  pub outside : Outside

-- A job's payload: `none` is a field that is missing or not valid.
pub record JobFields : Type 0 where
  pub tenant_id : Option Key
  pub store_id : Option Key
  pub revision : Option ℕ

-- `validateInventoryBootstrapJobData`
unfoldable pub validate_job_data : JobFields → Result Error JobData
validate_job_data j = check j.tenant_id j.store_id j.revision
  where
    check : Option Key → Option Key → Option ℕ → Result Error JobData
    check none s r =
        err (
          unrecoverable (codes "Inventory bootstrap tenant identity is required and must be valid"))
    check (some t) none r =
        err
          (unrecoverable (codes "Inventory bootstrap Store identity is required and must be valid"))
    check (some t) (some s) none =
        err (unrecoverable (codes "Inventory bootstrap revision is required and must be valid"))
    check (some t) (some s) (some r) = ok (record { tenant_id = t; store_id = s; revision = r })

-- `RETRYABLE_CATEGORIES`
abbrev pub is_retryable_category : Text → Bool
is_retryable_category c =
    text_eq c (codes "transport") || text_eq c (codes "rate-limited") || text_eq c (codes "timeout")

-- `isRetryable`
unfoldable pub is_retryable : Error → Bool
is_retryable (projection_failure category code retryable) = retryable
is_retryable (client_error category) = is_retryable_category category
is_retryable (unrecoverable message) = false
is_retryable other = false

-- `failureCode`
unfoldable pub failure_code_of : Error → Text
failure_code_of (projection_failure category code retryable) = take 191 code
failure_code_of (client_error category) = codes "woocommerce-" ++ category
failure_code_of (unrecoverable message) = take 191 message
failure_code_of other = codes "inventory-bootstrap-failed"

pub record Instants : Type 0 where
  pub claimed_at : Date
  pub advanced_at : Date

abbrev pub job_of : Store → JobData
job_of s = record { tenant_id = s.tenant_id; store_id = s.id; revision = s.revision }

module _ {Outside : Type 0} (svc : Services Outside) (db : Client Store) where
  unfoldable pub ask : {A : Type 0} → Action Error Outside A → Action Error (World Outside) A
  ask m w = let (r, o) = m w.outside in (r, record w { outside = o })

  -- `updateMany` on the Stores, with its `count`
  unfoldable pub write_stores : (Store → Bool) → (Store → Store) → Action Error (World Outside) ℕ
  write_stores p f w =
      let (rows, n) = db.update_many p f w.stores in (ok n, record w { stores = rows })

  -- `loadStore`
  unfoldable pub load_store : JobData → Action Error (World Outside) (Option Store)
  load_store job w = (ok (db.find_first (loadable job w.tenants) w.stores), w)

  abbrev pub malformed_page : Error
  malformed_page =
      projection_failure (codes "unexpected") (codes "malformed-inventory-bootstrap-page") false

  -- `requirePage`
  unfoldable pub require_page : Option (List Key) → Action Error (World Outside) (List Key)
  require_page none w = (err malformed_page, w)
  require_page (some items) w =
      if ltb page_size (length items) then (err malformed_page, w) else (ok items, w)

  unfoldable pub project_all : Store → List Key → Action Error (World Outside) ⊤
  unfolding ask
  project_all store [] = pure tt
  project_all store (item ∷ items) = do ask (svc.project store item); project_all store items

  -- The parents of a page of products whose variations are to be scanned.
  unfoldable pub parents_of : List Key → List Key
  parents_of [] = []
  parents_of (item ∷ items) =
      let rest = parents_of items in
      if svc.requires_variation_scan item then svc.item_id item ∷ rest else rest

  -- A parent that is gone has no variations.
  abbrev pub or_gone :
      Result Error (Option (List Key)) × World Outside
      → Result Error (Option (List Key)) × World Outside
  or_gone (ok page, w) = (ok page, w)
  or_gone (err (client_error c), w) =
      if text_eq c (codes "not-found") then (ok (some []), w) else (err (client_error c), w)
  or_gone (err e, w) = (err e, w)

  -- `advance`
  unfoldable pub advance :
      Store → Instants → (Progress → Progress) → Bool → Action Error (World Outside) ⊤
  unfolding write_stores advanced
  advance store times f done = do
    n ← write_stores (leased (job_of store) times.claimed_at) (advanced f done times.advanced_at)
    if n == 1 then pure tt else throw other

  -- A page of variations of the first parent.
  unfoldable pub scan_variations : Store → Instants → Key → Action Error (World Outside) Bool
  unfolding advance require_page project_all after_variations write_variations
  scan_variations store times parent = do
    payload ←
        λ w. or_gone (ask (svc.fetch_variations_page store parent store.progress.variation_page) w)
    page ← require_page payload
    project_all store page
    advance store times (write_variations (after_variations store.progress (length page)))
        (is_ready (after_variations store.progress (length page)))
    pure (is_ready (after_variations store.progress (length page)))

  -- A page of products.
  unfoldable pub scan_products : Store → Instants → Action Error (World Outside) Bool
  unfolding advance require_page project_all after_products parents_of
  scan_products store times = do
    payload ← ask (svc.fetch_products_page store store.progress.product_page)
    page ← require_page payload
    project_all store page
    advance store times (λ p. after_products store.progress (length page) (parents_of page))
        (is_ready (after_products store.progress (length page) (parents_of page)))
    pure (is_ready (after_products store.progress (length page) (parents_of page)))

  -- Without a parent: the scan has ended, or there is a page of products.
  abbrev pub products_unit : Store → Instants → Bool → Action Error (World Outside) Bool
  products_unit store times true = advance store times (λ p. p) true >> pure true
  products_unit store times false = scan_products store times

  abbrev pub one_unit : Store → Instants → List Key → Action Error (World Outside) Bool
  one_unit store times (parent ∷ parents) = scan_variations store times parent
  one_unit store times [] = products_unit store times store.progress.products_done

  -- `processOneUnit`
  unfoldable pub process_one_unit : Store → Instants → Action Error (World Outside) Bool
  unfolding scan_variations scan_products ask
  process_one_unit store times =
      ask (svc.connect store) >> one_unit store times store.progress.parent_ids

  -- The next job, of the revision that the Store has now.
  abbrev pub enqueue_newer : JobData → Option Store → Action Error (World Outside) ⊤
  enqueue_newer job none w = (ok tt, w)
  enqueue_newer job (some s) w =
      if ltb job.revision s.revision then ask (svc.add_job (job_of s)) w else (ok tt, w)

  -- The body of the `try` of `process`.
  unfoldable pub process_unit : JobData → Instants → Store → Action Error (World Outside) Bool
  unfolding process_one_unit load_store
  process_unit job times store = do
    done ← process_one_unit store times
    if done then pure true else load_store job >>= enqueue_newer job >> pure false

  -- `releaseLease`
  unfoldable pub release_lease : JobData → Date → Action Error (World Outside) ℕ
  unfolding write_stores unlease
  release_lease job at = write_stores (leased job at) unlease

  -- The `catch` of `process`.
  abbrev pub released :
      JobData → Date → Result Error Bool × World Outside → Result Error Bool × World Outside
  released job at (ok done, w) = (ok done, w)
  released job at (err e, w) =
      let (r, v) = release_lease job at w in
      if is_retryable e then (err e, v) else (err (unrecoverable (failure_code_of e)), v)

  abbrev pub unavailable : Error
  unavailable = unrecoverable (codes "Inventory bootstrap Store is unavailable for processing")

  abbrev pub process_loaded : JobData → Instants → Option Store → Action Error (World Outside) Bool
  process_loaded job times none w = (err unavailable, w)
  process_loaded job times (some store) w =
      released job times.claimed_at (process_unit job times store w)

  -- `resolveUnclaimed`, with the Store that it has loaded
  abbrev pub resolve_loaded : JobData → Option Store → Action Error (World Outside) Bool
  resolve_loaded job none w = (err unavailable, w)
  resolve_loaded job (some s) w =
      if same_state s.sync_state ready
      then (ok true, w)
      else if ltb job.revision s.revision
      then (ask (svc.add_job (job_of s)) >> pure false) w
      else if s.revision == job.revision && is_some s.lease_at
      then (err other, w)
      else (err (unrecoverable (codes "Inventory bootstrap job is no longer active")), w)

  -- The claim of `process`.
  unfoldable pub claim : JobData → Date → Action Error (World Outside) ℕ
  unfolding write_stores lease
  claim job at = write_stores (claimable job at) (lease at)

  -- `process`; it answers whether the scan is ready
  unfoldable pub process : JobFields → Instants → Action Error (World Outside) Bool
  unfolding claim process_unit release_lease load_store
  process fields times = do
    job ← lift (validate_job_data fields)
    n ← claim job times.claimed_at
    store ← load_store job
    if n == 1 then process_loaded job times store else resolve_loaded job store

  -- `markFailed`
  unfoldable pub mark_failed : JobFields → Error → Date → Action Error (World Outside) ⊤
  unfolding write_stores fail
  mark_failed fields e now = do
    job ← lift (validate_job_data fields)
    write_stores (syncing_at job) (fail (failure_code_of e) now)
    pure tt
