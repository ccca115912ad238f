-- ===== src/Inventory/ServiceTests.antt =====
-- Webhooks of a product and of its variation.
use wctm.Prelude.{codes, ◌≡◌, refl, none, some, [], ◌∷◌, Memᴰ, ok, err, ap, arith}
use wctm.Inventory.State.{Kind, Item}
use wctm.Inventory.Apply.{Tables}
use wctm.Inventory.Service.{Remote, Event, Course, client, project_deletion, mark_deleted}
use wctm.Inventory.Deletion.{deletion_reads_variation}
use wctm.Inventory.Tests.{sold_out, item, store, alone, never, store_table, item_table, tables}

abbrev variation : Item
variation = record item {
  id = 6;
  wc_item_id = 51;
  parent_wc_product_id = some 50;
  kind = Kind.variation;
}

abbrev family : Tables
family = record tables { items = item ∷ variation ∷ [] }

-- WooCommerce has the product, and no variation of it.
abbrev remote : Remote
remote = record {
  map_item = λ payload. ok sold_out;
  read_item_id = λ payload. ok 50;
  read_modified_at = λ payload. none;
  read_parent_id = λ payload. none;
  fetch_product = λ s id. ok 0;
  fetch_product_variation = λ s parent id. err (client (codes "not-found"));
}

abbrev quiet : Course
quiet = record { first = alone; second = alone; meanwhile = λ t. t }

abbrev update : Event
update = record {
  id = 900;
  topic = codes "product.updated";
  payload = 0;
  received_at = 2100;
  store = store;
}

abbrev deletion : Event
deletion = record update { topic = codes "product.deleted" }

no_parent : (i : Item) → Memᴰ i family.items → i.wc_item_id ≡ 50 → i.parent_wc_product_id ≡ none
no_parent i (Memᴰ.head e) h = ap (λ (x : Item). x.parent_wc_product_id) e
no_parent i (Memᴰ.tail (Memᴰ.head e)) h =
    let k : i.wc_item_id ≡ 51 = ap (λ (x : Item). x.wc_item_id) e in absurd (omega (arith, h, k))
no_parent i (Memᴰ.tail (Memᴰ.tail m)) h = elim m [ ]

deletion_reads_variation_example :
    project_deletion remote never store_table item_table 2200 6 quiet deletion family
    ≡ mark_deleted remote never store_table item_table 2200 6 deletion 50 none family
deletion_reads_variation_example =
    deletion_reads_variation remote never store_table item_table 2200 6 quiet deletion 50 family
      variation refl refl refl (Memᴰ.tail (Memᴰ.head refl)) refl refl no_parent refl
