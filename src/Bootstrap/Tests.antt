-- ===== src/Bootstrap/Tests.antt =====
-- A Store with one variable product.
use wctm.Prelude.{
  ℕ, ◌≡◌, refl, sym, ◌∙◌, Memᴰ, ap, Key, true, false, none, some, List, [], ◌∷◌, arith, ok, pure,
  ◌==◌, if◌then◌else◌,
}
use wctm.Database.Methods.{Client}
use wctm.Database.Keys.{HasKeys}
use wctm.Database.Memory.{memory}
use wctm.Bootstrap.State.{syncing, Store, is_ready, distinct_after}
use wctm.Bootstrap.Processor.{Services, World, Instants, process_one_unit, parents_of}
use wctm.Bootstrap.Scan.{Catalog, scan, first_progress, scan_ready}
use wctm.Bootstrap.Units.{Serves, Made, process_one_unit-Made}

-- One product, with one page of two variations.
abbrev catalog : Catalog
catalog = record {
  products = λ page. if page == 1 then 5 ∷ [] else [];
  variations = λ parent page. if page == 1 then 6 ∷ 7 ∷ [] else [];
  parents = λ page. page;
}

scan_ready_example : (n : ℕ) × (is_ready (scan n catalog first_progress) ≡ true)
scan_ready_example =
    scan_ready catalog 1 (λ k. 1) (omega arith) (λ k. omega arith) (λ k. omega arith) (omega arith)

two_jobs : is_ready (scan 2 catalog first_progress) ≡ true
unfolding scan distinct_after
two_jobs = refl

abbrev services : Services ℕ
services = record {
  connect = λ s. pure tt;
  project = λ s item n. (ok tt, n);
  fetch_products_page = λ s page. pure (some (catalog.products page));
  fetch_variations_page = λ s parent page. pure (some (catalog.variations parent page));
  requires_variation_scan = λ item. true;
  item_id = λ item. item;
  add_job = λ job. pure tt;
}

abbrev store : Store
store = record {
  id = 1;
  tenant_id = 10;
  is_active = true;
  deleted_at = none;
  sync_state = syncing;
  progress = first_progress;
  revision = 1;
  lease_at = some 2000;
  started_at = some 1000;
  completed_at = none;
  failed_at = none;
  failure_code = none;
}

abbrev stores : Client Store
stores = memory (λ a b. a.id == b.id)

abbrev world : World ℕ
world = record {
  stores = store ∷ [];
  tenants = record { id = 10; deleted_at = none } ∷ [];
  outside = 0;
}

abbrev times : Instants
times = record { claimed_at = 2000; advanced_at = 2500 }

all_parents : (page : List Key) → page ≡ parents_of services stores page
unfolding parents_of
all_parents [] = refl
all_parents (x ∷ xs) = ap (λ l. x ∷ l) (all_parents xs)

serves : Serves services stores catalog
serves = record {
  products = λ s page o. refl;
  variations = λ s parent page o. refl;
  parents = all_parents;
}

one_unit_run : (process_one_unit services stores store times world).0 ≡ ok false
unfolding process_one_unit memory distinct_after
one_unit_run = refl

only_store : HasKeys (λ s. s.id) world.stores
only_store x y (Memᴰ.head e) (Memᴰ.head f) h = e ∙ sym f
only_store x y (Memᴰ.tail m) n h = elim m [ ]
only_store x y m (Memᴰ.tail n) h = elim n [ ]

process_one_unit-Made_example :
    Made services stores catalog store times false world
      (process_one_unit services stores store times world).1
process_one_unit-Made_example =
    process_one_unit-Made services stores catalog serves store times false world only_store
      (Memᴰ.head refl) one_unit_run
