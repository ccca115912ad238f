-- ===== src/Orders/Tests.antt =====
-- An order that is delivered twice, and a deletion.
use wctm.Prelude.{
  ◌+◌, Key, Date, codes, ◌≡◌, refl, sym, ◌∙◌, true, false, Option, none, some, List, [], ◌∷◌, Memᴰ,
  ◌==◌, ◌&&◌, ok,
}
use wctm.Database.Methods.{Client}
use wctm.Database.Rows.{map_where, count_where}
use wctm.Database.Memory.{memory, first}
use wctm.Projection.Retry.{Environment}
use wctm.Orders.State.{
  Content, OrderProjection, Order, ProjectableStore, preserve, apply, noop, decide_order_projection,
  order_of, optimistic_order_where,
}
use wctm.Orders.Service.{
  Remote, Event, project, apply_in_transaction, write_decided, update_order, in_mode,
  with_remote_deleted_at,
}
use wctm.Orders.Evolution.{Evolves, project-Evolves}
use wctm.Orders.Reapply.{reapplied_unchanged}

abbrev content : Date → Key → Content
content at status = record {
  order_number = 1;
  status = status;
  currency = 2;
  totals = 3;
  customer_snapshot = 4;
  line_items_snapshot = 5;
  payment_snapshot = 6;
  shipping_lines_snapshot = 7;
  wc_created_at = 500;
  wc_modified_at = at;
  remote_deleted_at = none;
}

abbrev deletion_mark : Option Date → Key
deletion_mark none = 0
deletion_mark (some d) = d

abbrev hash : Key → Content → Key
hash id c = c.wc_modified_at + c.status + deletion_mark c.remote_deleted_at

abbrev paid : OrderProjection
paid = record {
  wc_order_id = 70;
  content = content 2000 9;
  projection_fingerprint = hash 70 (content 2000 9);
}

abbrev stored : Order
stored = record {
  id = 1;
  tenant_id = 10;
  store_id = 1;
  wc_order_id = 70;
  content = record (content 1000 8) { remote_deleted_at = some 1500 };
  projection_fingerprint = 2508;
  last_synced_at = 1600;
}

abbrev remote : Remote
remote = record {
  map_order = λ payload. ok paid;
  read_order_id = λ payload. ok 70;
  fingerprint = hash;
  fetch_order = λ store id. ok 0;
  category_name = λ c. [];
}

abbrev table : Client Order
table = memory (λ a b. a.store_id == b.store_id && a.wc_order_id == b.wc_order_id)

abbrev store : ProjectableStore
store = record { id = 1; tenant_id = 10; connection = 0 }

abbrev alone : Environment (List Order)
alone = record { others = λ k rows. rows; refuses = λ k. false }

abbrev update : Event
update = record { topic = codes "order.updated"; payload = 0; received_at = 2100; store = store }

project-Evolves_example :
    Evolves alone alone
      (stored ∷ [])
      (project remote table 2200 2 alone alone update (stored ∷ [])).1
project-Evolves_example = project-Evolves alone alone (stored ∷ []) table remote 2200 2 update

-- The order stays deleted, and is what the payload says.
abbrev after : List Order
after =
    record stored {
      content = record (content 2000 9) { remote_deleted_at = some 1500 };
      projection_fingerprint = 3509;
      last_synced_at = 2200;
    }
    ∷ []

one_order :
    (x y : Order)
    → Memᴰ x (stored ∷ [])
    → Memᴰ y (stored ∷ [])
    → order_of store 70 x ≡ true
    → order_of store 70 y ≡ true
    → x ≡ y
one_order x y (Memᴰ.head e) (Memᴰ.head f) h k = e ∙ sym f
one_order x y (Memᴰ.tail m) n h k = elim m [ ]
one_order x y m (Memᴰ.tail n) h k = elim n [ ]

first_delivery :
    apply_in_transaction remote table 2200 2 store paid false preserve (stored ∷ [])
    ≡ (ok apply, after)
unfolding apply_in_transaction memory write_decided update_order in_mode with_remote_deleted_at
    decide_order_projection optimistic_order_where map_where count_where first
first_delivery = refl

reapplied_unchanged_example :
    apply_in_transaction remote table 2400 3 store paid false preserve after ≡ (ok noop, after)
reapplied_unchanged_example =
    reapplied_unchanged remote table 2200 2400 2 3 store paid false false preserve (stored ∷ [])
      after refl one_order first_delivery
