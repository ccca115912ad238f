-- ===== src/Bootstrap/State.antt =====
-- The columns of a Store that the scan uses, and its progress from a page to the next.
use wctm.Prelude.{
  ℕ, ◌+◌, Key, Date, Text, Bool, true, false, not, ◌&&◌, ◌||◌, Option, none, some, List, [], ◌∷◌,
  ◌==◌, ltb, leb, holds, is_some, if◌then◌else◌,
}

-- `InventorySyncState`
pub data SyncState : Type 0 where
  uninitialized syncing ready failed : SyncState

abbrev pub same_state : SyncState → SyncState → Bool
same_state uninitialized uninitialized = true
same_state syncing syncing = true
same_state ready ready = true
same_state failed failed = true
same_state _ _ = false

-- Where a scan stands: the next page of products, the parents whose variations are still to be
-- read, and the next page of the first one's.
pub record Progress : Type 0 where
  pub product_page : ℕ
  pub variation_page : ℕ
  pub parent_ids : List Key
  pub products_done : Bool

pub record Store : Type 0 where
  pub id : Key
  pub tenant_id : Key
  pub is_active : Bool
  pub deleted_at : Option Date
  pub sync_state : SyncState
  pub progress : Progress
  pub revision : ℕ
  pub lease_at : Option Date
  pub started_at : Option Date
  pub completed_at : Option Date
  pub failed_at : Option Date
  pub failure_code : Option Text

pub record Tenant : Type 0 where
  pub id : Key
  pub deleted_at : Option Date

-- `InventoryBootstrapJobData`
pub record JobData : Type 0 where
  pub tenant_id : Key
  pub store_id : Key
  pub revision : ℕ

-- `BOOTSTRAP_PAGE_SIZE`
abbrev pub page_size : ℕ
page_size = 25

-- `BOOTSTRAP_LEASE_MS`
abbrev pub lease_ms : ℕ
lease_ms = 30000

-- `slice(1)`
abbrev pub rest_of : List Key → List Key
rest_of [] = []
rest_of (x ∷ xs) = xs

abbrev pub has : Key → List Key → Bool
has k [] = false
has k (x ∷ xs) = x == k || has k xs

-- `[...new Set(ids)]`: the first of each, in order. `seen` is what came before.
unfoldable pub distinct_after : List Key → List Key → List Key
distinct_after seen [] = []
distinct_after seen (x ∷ xs) =
    let skipped = distinct_after seen xs in
    let kept = distinct_after (x ∷ seen) xs in if has x seen then skipped else x ∷ kept

abbrev pub distinct : List Key → List Key
distinct = distinct_after []

-- The progress after a page of variations, of a length.
unfoldable pub after_variations : Progress → ℕ → Progress
after_variations p n =
    let complete = ltb n page_size in
    record p {
      parent_ids = if complete then rest_of p.parent_ids else p.parent_ids;
      variation_page = if complete then 1 else p.variation_page + 1;
    }

-- The progress after a page of products, of a length, with the parents that are to be scanned.
unfoldable pub after_products : Progress → ℕ → List Key → Progress
after_products p n parents = record {
  product_page = p.product_page + 1;
  variation_page = 1;
  parent_ids = distinct parents;
  products_done = ltb n page_size;
}

-- What a page of variations writes: the other columns stay.
unfoldable pub write_variations : Progress → Progress → Progress
write_variations new p = record p {
  parent_ids = new.parent_ids;
  variation_page = new.variation_page;
}

abbrev pub no_parents : List Key → Bool
no_parents [] = true
no_parents (x ∷ xs) = false

-- `ready`: nothing is left to be read
abbrev pub is_ready : Progress → Bool
is_ready p = p.products_done && no_parents p.parent_ids

abbrev pub tenant_live : Key → List Tenant → Bool
tenant_live id [] = false
tenant_live id (t ∷ ts) = (t.id == id && not (is_some t.deleted_at)) || tenant_live id ts

-- `leaseAt: null`, or not after the cutoff; the cutoff is the claim's instant less the lease
abbrev pub lease_over : Option Date → Date → Bool
lease_over none now = true
lease_over (some d) now = leb (d + lease_ms) now

abbrev pub of_store : Key → Key → Store → Bool
of_store tenant store s = s.id == store && s.tenant_id == tenant

abbrev pub syncing_at : JobData → Store → Bool
syncing_at job s =
    of_store job.tenant_id job.store_id s
    && same_state s.sync_state syncing
    && s.revision == job.revision

-- The `where` of the claim.
abbrev pub claimable : JobData → Date → Store → Bool
claimable job now s =
    syncing_at job s && s.is_active && not (is_some s.deleted_at) && lease_over s.lease_at now

-- The `where` of the writes of the holder of a lease.
abbrev pub leased : JobData → Date → Store → Bool
leased job at s = syncing_at job s && holds s.lease_at at

-- The `where` of `loadStore`.
abbrev pub loadable : JobData → List Tenant → Store → Bool
loadable job tenants s =
    of_store job.tenant_id job.store_id s
    && s.is_active
    && not (is_some s.deleted_at)
    && tenant_live s.tenant_id tenants

unfoldable pub lease : Date → Store → Store
lease at s = record s { lease_at = some at }

unfoldable pub unlease : Store → Store
unlease s = record s { lease_at = none }

-- The `data` of `advance`.
unfoldable pub advanced : (Progress → Progress) → Bool → Date → Store → Store
advanced f done now s = record s {
  progress = f s.progress;
  sync_state = if done then ready else syncing;
  completed_at = if done then some now else s.completed_at;
  failed_at = none;
  failure_code = none;
  lease_at = none;
  revision = s.revision + 1;
}

-- The `data` of `markFailed`.
unfoldable pub fail : Text → Date → Store → Store
fail code now s = record s {
  sync_state = failed;
  failed_at = some now;
  failure_code = some code;
  lease_at = none;
}
