-- ===== src/Inventory/Freshness.antt =====
-- What `applyProjection` leaves of the items that were there: their times of change and the
-- generations of their incidents only go up.
use mathlib.Core.Path.{subst}
use wctm.Prelude.{
  ℕ, ◌≡◌, inl, inr, Key, Date, Text, Bool, some, List, Memᴰ, Bool-cases, Option-cases, ◌==◌, Result,
  ok, err,
}
use wctm.Database.Rows.{All, mem-All, map_where_keeps}
use wctm.Database.Methods.{Client}
use wctm.Database.Keys.{map_where-mem}
use wctm.Projection.Retry.{Environment, Others, Once, with_projection_transaction-Once}
use wctm.Inventory.{
  Classification, Item, Source, Projection, classify_inventory_item, next_incident, StoreRow, Store,
  Tables, Error, Outcome, optimistic_item_where, decided, create_item, update_item, apply_to_item,
  apply_in_transaction, apply_projection, effective_classification, overwritten, classified,
  stale_baseline, live_store, item_of, first_generation, entry_alert_level, entry_signal, new_item,
  is_concurrent, write_conflict,
}
use wctm.Inventory.Advance.{
  Advanced, Advances, Advances-refl, Fresher, Decision-cases, decided-Fresher, overwritten-Advances,
}

-- Among some rows there is a later one of the same item.
abbrev pub HasLater : Bool → Source → List Item → Item → Type 0
HasLater a source ts r = (r' : Item) × Memᴰ r' ts × Advances a source r r'

module _ (db_items : Client Item) where
  update-Advanced :
      (e : Item) (p : Projection) (authoritative : Bool) (source : Source) (c : Classification)
      (now : Date) (rs : List Item)
      → Fresher authoritative source e.remote_deleted_at e.wc_modified_at p.wc_modified_at
      → Advanced authoritative source rs
          (db_items.update_many
            (optimistic_item_where e)
            (overwritten p source e c (next_incident e source e.alert_classification c).data_of now)
            rs).0
  update-Advanced e p authoritative source c now rs fresh r m =
      let f =
        overwritten p source e c (next_incident e source e.alert_classification c).data_of now in
      elim (Bool-cases (optimistic_item_where e r)) [
        | inl w ↦ (
          f r,
          rw (db_items.update_many_rows (optimistic_item_where e) f rs)
              (map_where-mem (optimistic_item_where e) f r rs m w),
          overwritten-Advances e r p authoritative source c now w fresh,
        )
        | inr w ↦ (
          r,
          rw (db_items.update_many_rows (optimistic_item_where e) f rs)
              (map_where_keeps (optimistic_item_where e) f r rs m w),
          Advances-refl authoritative source r,
        )
      ]

module _ (at_most : Text → ℕ → Bool) (db_stores : Client StoreRow) (db_items : Client Item)
    (now : Date) (new_id : Key) where
  -- Of the state after an action: nothing is lost where it answers.
  abbrev pub Forward : Bool → Source → Tables → Result Error Outcome × Tables → Type 0
  Forward authoritative source t (ok o, u) = Advanced authoritative source t.items u.items
  Forward authoritative source t (err e, u) = Unit

  kept : (a : Bool) (source : Source) (rs : List Item) → Advanced a source rs rs
  kept a source rs r m = (r, m, Advances-refl a source r)

  update_item-Forward :
      (e : Item) (p : Projection) (a : Bool) (source : Source) (c : Classification) (t : Tables)
      → Fresher a source e.remote_deleted_at e.wc_modified_at p.wc_modified_at
      → Forward a source t (
          update_item at_most db_stores db_items now new_id e p source c
            (next_incident e source e.alert_classification c)
            t)
  unfolding update_item
  update_item-Forward e p a source c t fresh =
      let w =
        db_items.update_many (optimistic_item_where e)
          (overwritten p source e c (next_incident e source e.alert_classification c).data_of now)
          t.items in
      elim (Bool-cases (w.1 == 1)) [
        | inl h ↦ rw h (update-Advanced db_items e p a source c now t.items fresh)
        | inr h ↦ rw h tt
      ]

  apply_to_item-Forward :
      (e : Item) (p : Projection) (a : Bool) (source : Source) (c : Classification) (t : Tables)
      → Forward a source t (apply_to_item at_most db_stores db_items now new_id e p a source c t)
  unfolding apply_to_item update_item
  apply_to_item-Forward e p a source c t = elim (Bool-cases (stale_baseline source e p)) [
    | inl s ↦ rw s (kept a source t.items)
    | inr s ↦ elim (Decision-cases (decided e p a source)) [
      | inl d ↦
          rw (s, d, apply_to_item)
            (update_item-Forward e p a source (effective_classification e source c) t
              (decided-Fresher e p a source d))
      | inr (inl d) ↦ rw (s, d, apply_to_item) (kept a source t.items)
      | inr (inr d) ↦ rw (s, d, apply_to_item) (kept a source t.items)
    ]
  ]

  created-Advanced :
      (a : Bool) (source : Source) (i : Item) (rs ts : List Item)
      → db_items.create i rs ≡ some ts
      → Advanced a source rs ts
  created-Advanced a source i rs ts h r m =
      rw (db_items.created i rs ts h) (r, Memᴰ.tail m, Advances-refl a source r)

  create_item-Forward :
      (store : Store) (p : Projection) (a : Bool) (source : Source) (c : Classification)
      (t : Tables)
      → Forward a source t (create_item at_most db_stores db_items now new_id store p source c t)
  unfolding create_item
  create_item-Forward store p a source c t =
      let s =
        entry_signal new_id (first_generation c) (entry_alert_level c) source.baseline
          source.source_webhook_event_id in
      let i = new_item store p source c s now new_id in
      elim (Option-cases (db_items.create i t.items)) [
        | inl h ↦ rw (h, create_item) tt
        | inr (rows, h) ↦ rw (h, create_item) (created-Advanced a source i t.items rows h)
      ]

  pub apply_in_transaction-Forward :
      (store : Store) (p : Projection) (a : Bool) (source : Source) (t : Tables)
      → Forward a source t
          (apply_in_transaction at_most db_stores db_items now new_id store p a source t)
  unfolding apply_in_transaction
  apply_in_transaction-Forward store p a source t =
      elim (Option-cases (db_stores.find_first (live_store store t.tenants) t.stores)) [
        | inl n ↦ rw (n, apply_in_transaction) tt
        | inr (settings, n) ↦
            elim (Option-cases (db_items.find_first (item_of store p.wc_item_id) t.items)) [
              | inl m ↦ elim (Bool-cases p.active) [
                | inl y ↦
                    rw (n, m, y, apply_in_transaction)
                      (create_item-Forward store p a source
                        (classify_inventory_item at_most p.manages_stock p.stock_quantity
                          p.stock_status settings.low_stock_threshold)
                        t)
                | inr y ↦ rw (n, m, y, apply_in_transaction) (kept a source t.items)
              ]
              | inr (e, m) ↦
                  rw (n, m, apply_in_transaction)
                    (apply_to_item-Forward e p a source
                      (classified at_most db_stores db_items now new_id p settings) t)
            ]
      ]

  -- Where `applyProjection` answers, whatever its source, every item that the others had left there
  -- when its transaction ran is still there, with an incident generation that is the same, or one
  -- higher where the item was healthy and is so no more; its time of change is no earlier than
  -- before, unless the item was deleted and an authoritative payload may clear that.
  pub apply_projection_advances :
      (env : Environment Tables) (store : Store) (p : Projection) (a : Bool) (source : Source)
      (t u : Tables) (o : Outcome)
      → apply_projection at_most db_stores db_items now new_id env store p a source t ≡ (ok o, u)
      → (v : Tables) × Others env t v × All (HasLater a source u.items) v.items
  unfolding apply_projection
  apply_projection_advances env store p a source t u o h =
      let op = apply_in_transaction at_most db_stores db_items now new_id store p a source in
      let (v, others, run) =
        subst (Once is_concurrent write_conflict env op t) h
          (with_projection_transaction-Once is_concurrent write_conflict env op t) in
      (
        v,
        others,
        mem-All (HasLater a source u.items) v.items
            (subst (Forward a source v) run (apply_in_transaction-Forward store p a source v)),
      )
