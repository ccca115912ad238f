-- ===== src/Inventory/Alerts.antt =====
-- What stands behind an alert signal: the row of an item whose column for the level of the alert
-- holds the webhook event. The notifications look the row up by it.
use mathlib.Core.Path.{subst}
use wctm.Prelude.{
  ℕ, ◌≡◌, refl, ◌⊎◌, inl, inr, Key, Date, Text, Bool, none, some, Memᴰ, Bool-cases, Option-cases,
  ◌==◌, Result, ok, err,
}
use wctm.Database.Methods.{Client}
use wctm.Database.Keys.{map_where-mem}
use wctm.Projection.Retry.{Environment, Once, with_projection_transaction-Once}
use wctm.Inventory.{
  Classification, Item, Signal, Source, Projection, classify_inventory_item, next_incident,
  StoreRow, Store, Tables, Error, Outcome, optimistic_item_where, decided, create_item, update_item,
  apply_to_item, apply_in_transaction, apply_projection, effective_classification, overwritten,
  classified, stale_baseline, live_store, item_of, first_generation, entry_alert_level,
  entry_signal, new_item, is_concurrent, write_conflict,
}
use wctm.Inventory.Advance.{Decision-cases}
use wctm.Inventory.Signals.{
  Raised, replay-Raised, next_incident-Raised, new_item-Raised, optimistic_item_where_refl,
}

module _ (at_most : Text → ℕ → Bool) (db_stores : Client StoreRow) (db_items : Client Item)
    (now : Date) (new_id : Key) where
  -- An answer's signal is backed by a row of the state that is left.
  abbrev pub Backed : Source → Result Error Outcome × Tables → Type 0
  Backed source (ok o, u) =
      (o.signal ≡ none) ⊎ ((i : Item) × Memᴰ i u.items × Raised source i o.signal)
  Backed source (err e, u) = Unit

  update_item-Backed :
      (e : Item) (p : Projection) (source : Source) (c : Classification) (t : Tables)
      → Memᴰ e t.items
      → Backed source (
          update_item at_most db_stores db_items now new_id e p source c
            (next_incident e source e.alert_classification c)
            t)
  unfolding update_item
  update_item-Backed e p source c t m =
      let incident = next_incident e source e.alert_classification c in
      let f = overwritten p source e c incident.data_of now in
      let q = optimistic_item_where e in
      elim (Bool-cases ((db_items.update_many q f t.items).1 == 1)) [
        | inl h ↦ rw h (
            inr (
              f e,
              rw (db_items.update_many_rows q f t.items)
                  (map_where-mem q f e t.items m (optimistic_item_where_refl e)),
              next_incident-Raised e source e.alert_classification c
                  (overwritten p source e c (λ y. y) now e) (refl, refl, refl, refl),
            ))
        | inr h ↦ rw h tt
      ]

  apply_to_item-Backed :
      (e : Item) (p : Projection) (a : Bool) (source : Source) (c : Classification) (t : Tables)
      → Memᴰ e t.items
      → Backed source (apply_to_item at_most db_stores db_items now new_id e p a source c t)
  unfolding apply_to_item
  apply_to_item-Backed e p a source c t m = elim (Bool-cases (stale_baseline source e p)) [
    | inl s ↦ rw s (inl refl)
    | inr s ↦ elim (Decision-cases (decided e p a source)) [
      | inl d ↦
          rw (s, d, apply_to_item)
            (update_item-Backed e p source (effective_classification e source c) t m)
      | inr (inl d) ↦ rw (s, d, apply_to_item) (inr (e, m, replay-Raised e source))
      | inr (inr d) ↦ rw (s, d, apply_to_item) (inr (e, m, replay-Raised e source))
    ]
  ]

  create_item-Backed :
      (store : Store) (p : Projection) (source : Source) (c : Classification) (t : Tables)
      → Backed source (create_item at_most db_stores db_items now new_id store p source c t)
  unfolding create_item
  create_item-Backed store p source c t =
      let s =
        entry_signal new_id (first_generation c) (entry_alert_level c) source.baseline
          source.source_webhook_event_id in
      let i = new_item store p source c s now new_id in
      elim (Option-cases (db_items.create i t.items)) [
        | inl h ↦ rw (h, create_item) tt
        | inr (rows, h) ↦
            rw (h, create_item)
              (inr (
                i,
                rw (db_items.created i t.items rows h) (Memᴰ.head refl),
                new_item-Raised store p source c now new_id source.baseline
                    source.source_webhook_event_id refl refl,
              ))
      ]

  apply_in_transaction-Backed :
      (store : Store) (p : Projection) (a : Bool) (source : Source) (t : Tables)
      → Backed source
          (apply_in_transaction at_most db_stores db_items now new_id store p a source t)
  unfolding apply_in_transaction
  apply_in_transaction-Backed store p a source t =
      elim (Option-cases (db_stores.find_first (live_store store t.tenants) t.stores)) [
        | inl n ↦ rw (n, apply_in_transaction) tt
        | inr (settings, n) ↦
            elim (Option-cases (db_items.find_first (item_of store p.wc_item_id) t.items)) [
              | inl m ↦ elim (Bool-cases p.active) [
                | inl y ↦
                    rw (n, m, y, apply_in_transaction)
                      (create_item-Backed store p source
                        (classify_inventory_item at_most p.manages_stock p.stock_quantity
                          p.stock_status settings.low_stock_threshold)
                        t)
                | inr y ↦ rw (n, m, y, apply_in_transaction) (inl refl)
              ]
              | inr (e, m) ↦
                  rw (n, m, apply_in_transaction)
                    (apply_to_item-Backed e p a source
                      (classified at_most db_stores db_items now new_id p settings) t
                      (db_items.found (item_of store p.wc_item_id) t.items e m).0)
            ]
      ]

  -- A signal that `applyProjection` answers with is no baseline's and names the webhook event of its
  -- source, and a row of the items then has the signal's identifier and its generation, and the
  -- event in the column of the signal's level.
  pub apply_projection_backed :
      (env : Environment Tables) (store : Store) (p : Projection) (a : Bool) (source : Source)
      (t u : Tables) (o : Outcome) (s : Signal)
      → apply_projection at_most db_stores db_items now new_id env store p a source t ≡ (ok o, u)
      → o.signal ≡ some s
      → (i : Item) × Memᴰ i u.items × Raised source i (some s)
  unfolding apply_projection
  apply_projection_backed env store p a source t u o s h g =
      let op = apply_in_transaction at_most db_stores db_items now new_id store p a source in
      let (v, others, run) =
        subst (Once is_concurrent write_conflict env op t) h
          (with_projection_transaction-Once is_concurrent write_conflict env op t) in
      elim (subst (Backed source) run (apply_in_transaction-Backed store p a source v)) [
        | inl n ↦ absurd (cc (n, g))
        | inr (i, m, r) ↦ (i, m, subst (Raised source i) g r)
      ]
