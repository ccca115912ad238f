-- ===== src/Inventory/Deletion.antt =====
-- Which items a deletion marks, and the route by which it asks WooCommerce for the item.
use wctm.Prelude.{
  ℕ, Key, Date, Text, codes, ◌≡◌, refl, sym, ap, ◌∙◌, inl, inr, ◌⊎◌, Bool, true, Option, none, some,
  List, [], ◌∷◌, Memᴰ, Bool-cases, ok, err, arith, ◌==◌, holds,
}
use wctm.Database.Rows.{filter_where, All, mem-All}
use wctm.Database.Methods.{Client}
use wctm.Database.Keys.{mem-map_where}
use wctm.Inventory.{
  Item, StoreRow, Store, Tables, client, Remote, Event, Course, deletable, marked_deleted,
  needs_read, first_parent, in_family, mark_deleted, after_read, delete_existing, delete_item,
  project_deletion, not_after, not_newer,
}

module _ {R : Type 0} where
  mem-filter_where :
      (p : R → Bool) (rs : List R) (r : R) → Memᴰ r (filter_where p rs) → Memᴰ r rs × (p r ≡ true)
  unfolding filter_where
  mem-filter_where p [] r m = elim m [ ]
  mem-filter_where p (x ∷ rs) r m = elim (Bool-cases (p x)) [
    | inl y ↦ kept (mem-filter_where p rs r) y (rw y at m)
    | inr y ↦ let (n, e) = mem-filter_where p rs r (rw y at m) in (Memᴰ.tail n, e)
  ]
    where
      kept :
          (Memᴰ r (filter_where p rs) → Memᴰ r rs × (p r ≡ true))
          → p x ≡ true
          → Memᴰ r (x ∷ filter_where p rs)
          → Memᴰ r (x ∷ rs) × (p r ≡ true)
      kept rest y (Memᴰ.head e) = (Memᴰ.head e, ap p e ∙ y)
      kept rest y (Memᴰ.tail n) = let (k, e) = rest n in (Memᴰ.tail k, e)

  filter_where-mem :
      (p : R → Bool) (rs : List R) (r : R) → Memᴰ r rs → p r ≡ true → Memᴰ r (filter_where p rs)
  unfolding filter_where
  filter_where-mem p [] r m e = elim m [ ]
  filter_where-mem p (x ∷ rs) r (Memᴰ.head s) e =
      let t : p x ≡ true = ap p (sym s) ∙ e in rw t (Memᴰ.head s)
  filter_where-mem p (x ∷ rs) r (Memᴰ.tail m) e = elim (Bool-cases (p x)) [
    | inl y ↦ rw y (Memᴰ.tail (filter_where-mem p rs r m e))
    | inr y ↦ rw y (filter_where-mem p rs r m e)
  ]

-- The first parent among the rows of a product and its variations is the product, where no row of
-- the product itself has a parent.
first_parent_lem :
    (id : Key) (rs : List Item) (v : Item)
    → All (λ i. (i.parent_wc_product_id ≡ none) ⊎ (i.parent_wc_product_id ≡ some id)) rs
    → Memᴰ v rs
    → v.parent_wc_product_id ≡ some id
    → first_parent rs ≡ some id
first_parent_lem id [] v h m e = elim m [ ]
first_parent_lem id (i ∷ is) v (inr y, h) m e = rw y refl
first_parent_lem id (i ∷ is) v (inl n, h) (Memᴰ.head s) e =
    absurd (cc (n, e, ap (λ (x : Item). x.parent_wc_product_id) s))
first_parent_lem id (i ∷ is) v (inl n, h) (Memᴰ.tail m) e = rw n (first_parent_lem id is v h m e)

family_identity :
    (store : Store) (id : Key) (i : Item)
    → in_family store id i ≡ true
    → (i.wc_item_id ≡ id) ⊎ (i.parent_wc_product_id ≡ some id)
family_identity store id i f = elim (Bool-cases (i.wc_item_id == id)) [
  | inl y ↦ inl (ground arith)
  | inr y ↦ inr (holds_some i.parent_wc_product_id (ground arith))
]
  where
    holds_some : (o : Option Key) → holds o id ≡ true → o ≡ some id
    holds_some none h = cc
    holds_some (some k) h = ground arith

family_parent :
    (store : Store) (id : Key) (i : Item)
    → in_family store id i ≡ true
    → (i.wc_item_id ≡ id → i.parent_wc_product_id ≡ none)
    → (i.parent_wc_product_id ≡ none) ⊎ (i.parent_wc_product_id ≡ some id)
family_parent store id i f alone = elim (family_identity store id i f) [
  | inl y ↦ inl (alone y)
  | inr y ↦ inr y
]

module _ (remote : Remote) (at_most : Text → ℕ → Bool) (db_stores : Client StoreRow)
    (db_items : Client Item) (now : Date) (new_id : Key) (course : Course) where
  delete_existing_lem :
      (event : Event) (id : Key) (t : Tables) (rows : List Item) (v : Item)
      → Memᴰ v rows
      → remote.read_parent_id event.payload ≡ none
      → first_parent rows ≡ some id
      → needs_read (remote.read_modified_at event.payload) rows ≡ true
      → remote.fetch_product_variation event.store id id ≡ err (client (codes "not-found"))
      → delete_existing remote at_most db_stores db_items now new_id course event id t rows
        ≡ mark_deleted remote at_most db_stores db_items now new_id event id
            (remote.read_modified_at event.payload)
            (course.meanwhile t)
  unfolding delete_existing after_read
  delete_existing_lem event id t [] v m parent first needs missing = elim m [ ]
  delete_existing_lem event id t (i ∷ is) v m parent first needs missing =
      rw (needs, parent, first, missing, delete_existing) refl

  -- A deletion of a product that has a variation among the items, whose payload names no parent and
  -- which has to be checked against WooCommerce, asks for the variation of the product that has the
  -- product's own identifier. Where no item with that identifier has a parent and WooCommerce has no
  -- such variation, the product and its variations are marked deleted, whatever the read of the
  -- product itself would have answered.
  pub deletion_reads_variation :
      (event : Event) (id : Key) (t : Tables) (v : Item)
      → remote.read_item_id event.payload ≡ ok id
      → remote.read_parent_id event.payload ≡ none
      → needs_read
          (remote.read_modified_at event.payload)
          (db_items.find_many (in_family event.store id) t.items)
        ≡ true
      → Memᴰ v t.items
      → in_family event.store id v ≡ true
      → v.parent_wc_product_id ≡ some id
      → ((i : Item) → Memᴰ i t.items → i.wc_item_id ≡ id → i.parent_wc_product_id ≡ none)
      → remote.fetch_product_variation event.store id id ≡ err (client (codes "not-found"))
      → project_deletion remote at_most db_stores db_items now new_id course event t
        ≡ mark_deleted remote at_most db_stores db_items now new_id event id
            (remote.read_modified_at event.payload)
            (course.meanwhile t)
  unfolding project_deletion delete_item
  deletion_reads_variation event id t v read parent needs m f e alone missing =
      let family = in_family event.store id in
      let rows = filter_where family t.items in
      let found : db_items.find_many family t.items ≡ rows =
        db_items.find_many_rows family t.items in
      let n : Memᴰ v rows = filter_where-mem family t.items v m f in
      let parents =
        mem-All (λ i. (i.parent_wc_product_id ≡ none) ⊎ (i.parent_wc_product_id ≡ some id)) rows
          (λ i k.
            let (o, g) = mem-filter_where family t.items i k in
            family_parent event.store id i g (alone i o)) in
      rw (read, project_deletion)
        (rw found (
          delete_existing_lem event id t rows v n parent (first_parent_lem id rows v parents n e)
            (rw found at needs) missing))

  -- What a deletion marks is the product or a variation of it, in the Store of the event, with no
  -- webhook after the event, and no change after the deletion where its date is given; every other
  -- item stays as it was.
  pub mark_deleted_guarded :
      (event : Event) (id : Key) (d : Option Date) (t : Tables) (i' : Item)
      → Memᴰ i' (mark_deleted remote at_most db_stores db_items now new_id event id d t).1.items
      → Memᴰ i' t.items
        ⊎ ((i : Item) × Memᴰ i t.items
            × (i' ≡ marked_deleted event.received_at now i)
            × (i.tenant_id ≡ event.store.tenant_id)
            × (i.store_id ≡ event.store.id)
            × ((i.wc_item_id ≡ id) ⊎ (i.parent_wc_product_id ≡ some id))
            × (not_newer i.wc_modified_at d ≡ true)
            × (not_after i.last_webhook_received_at event.received_at ≡ true))
  unfolding mark_deleted
  mark_deleted_guarded event id d t i' m =
      let q = deletable event id d in
      let f = marked_deleted event.received_at now in
      let (i, n, e) =
        mem-map_where q f t.items i' (rw (db_items.update_many_rows q f t.items) at m) in
      elim (Bool-cases (q i)) [
        | inr y ↦ let s : i' ≡ i = rw y at e in inl (rw s n)
        | inl y ↦ inr (
          i,
          n,
          rw y at e,
          ground arith,
          ground arith,
          family_identity event.store id i (ground arith),
          ground arith,
          ground arith,
        )
      ]
