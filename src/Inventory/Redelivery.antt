-- ===== src/Inventory/Redelivery.antt =====
-- A webhook event that is delivered again, when the first delivery has been applied.
use mathlib.Core.Path.{subst}
use wctm.Prelude.{
  ℕ, ◌≡◌, refl, sym, ap, ◌∙◌, ◌⊎◌, inl, inr, Key, Date, Text, Bool, true, false, none, some, List,
  ◌∷◌, Memᴰ, arith, Bool-cases, Option-cases, if◌then◌else◌, ◌==◌, ok,
}
use wctm.Database.Rows.{All, All-mem}
use wctm.Database.Methods.{Client}
use wctm.Database.Keys.{find_first-update_many, find_first_unique}
use wctm.Inventory.{
  Classification, healthy, Item, Signal, Source, Projection, apply, noop, classify_inventory_item,
  next_incident, StoreRow, Store, Tables, Outcome, optimistic_item_where, decided, create_item,
  update_item, apply_to_item, apply_in_transaction, effective_classification, overwritten,
  classified, stale_baseline, live_store, item_of, first_generation, entry_alert_level,
  entry_signal, new_item,
}
use wctm.Inventory.Incident.{Incident}
use wctm.Inventory.Advance.{Decision-cases}
use wctm.Inventory.Signals.{
  Raised, next_incident-Raised, new_item-Raised, optimistic_item_where_refl,
}
use wctm.Inventory.Replay.{
  Settled, Unraised, decided-Settled, replay_signal-again, next_incident-Keeps, not_deleted,
  healthy-silent, next_incident-item_of, new_item-Unraised, signal_of,
}

module _ (at_most : Text → ℕ → Bool) (db_stores : Client StoreRow) (db_items : Client Item)
    (now later : Date) (id id' : Key) where
  -- A row that the payload has been applied to, and that has raised the signal, raises it again.
  settled_lem :
      (i : Item) (p : Projection) (a : Bool) (source : Source) (c : Classification) (u : Tables)
      (s : Signal)
      → Settled p source i
      → Raised source i (some s)
      → Unraised s i
      → apply_to_item at_most db_stores db_items later id' i p a source c u
        ≡ (ok (record { decision = noop; signal = some s }), u)
  unfolding apply_to_item
  settled_lem i p a source c u s settled raised un =
      let d = decided-Settled i p a source settled in
      let g = replay_signal-again source i s raised un in
      let n : stale_baseline source i p ≡ false = rw (raised.0) refl in
      rw (n, d, g, apply_to_item) refl

  -- A first run on a row: the same is decided again, or the row is as the payload says.
  abbrev AppliedTo :
      Item → Projection → Bool → Source → Classification → Tables → Signal → Tables → Type 0
  AppliedTo e p a source c t s u =
      ((u ≡ t)
        × ((o : Outcome) × (apply_to_item at_most db_stores db_items later id' e p a source c t
              ≡ (ok o, t))
            × (o.signal ≡ some s)))
      ⊎ (let new = effective_classification e source c in
          let f =
            overwritten p source e new (next_incident e source e.alert_classification new).data_of
              now in
          (u ≡ record t { items = (db_items.update_many (optimistic_item_where e) f t.items).0 })
          × Settled p source (f e)
          × Raised source (f e) (some s)
          × Unraised s (f e))

  update_item_lem :
      (e : Item) (p : Projection) (source : Source) (c : Classification) (incident : Incident)
      (t u : Tables) (o : Outcome)
      → update_item at_most db_stores db_items now id e p source c incident t ≡ (ok o, u)
      → (u ≡ record t {
        items =
            (db_items.update_many
              (optimistic_item_where e)
              (overwritten p source e c incident.data_of now)
              t.items).0;
      })
        × (o.signal ≡ incident.signal)
  unfolding update_item
  update_item_lem e p source c incident t u o h =
      elim (Bool-cases (
        (db_items.update_many (optimistic_item_where e)
          (overwritten p source e c incident.data_of now) t.items).1
        == 1)) [
          | inl n ↦ let k = rw n at h in (sym (ap (λ r. r.1) k), ap (λ r. signal_of r.0) (sym k))
          | inr n ↦ absurd (cc (let k = rw n at h in ap (λ r. r.0) k))
        ]

  applied :
      (e : Item) (p : Projection) (a : Bool) (source : Source) (c : Classification) (t u : Tables)
      (o : Outcome) (s : Signal)
      → (p.active ≡ false → c ≡ healthy)
      → Unraised s e
      → o.signal ≡ some s
      → (let new = effective_classification e source c in
          update_item at_most db_stores db_items now id e p source new
            (next_incident e source e.alert_classification new)
            t
          ≡ (ok o, u))
      → AppliedTo e p a source c t s u
  applied e p a source c t u o s inactive un g h =
      let new = effective_classification e source c in
      let old = e.alert_classification in
      let incident = next_incident e source old new in
      let x = overwritten p source e new (λ y. y) now e in
      let (rows, sig) = update_item_lem e p source new incident t u o h in
      let raises : incident.signal ≡ some s = sym sig ∙ g in
      let (w, k, d, un') = next_incident-Keeps e source old new x s un raises in
      let gone = not_deleted e p source c now inactive (healthy-silent e source old new s raises) in
      inr (
        rows,
        (w, k, rw (d, gone) refl),
        subst (Raised source (incident.data_of x)) raises
            (next_incident-Raised e source old new x (refl, refl, refl, refl)),
        un',
      )

  apply_to_item_cases :
      (e : Item) (p : Projection) (a : Bool) (source : Source) (c : Classification) (t u : Tables)
      (o : Outcome) (s : Signal)
      → (p.active ≡ false → c ≡ healthy)
      → Unraised s e
      → apply_to_item at_most db_stores db_items now id e p a source c t ≡ (ok o, u)
      → o.signal ≡ some s
      → AppliedTo e p a source c t s u
  unfolding apply_to_item
  apply_to_item_cases e p a source c t u o s inactive un h g =
      elim (Bool-cases (stale_baseline source e p)) [
        | inl n ↦ absurd (cc (g, (let k = rw n at h in ap (λ r. r.0) k)))
        | inr n ↦ elim (Decision-cases (decided e p a source)) [
          | inl d ↦ applied e p a source c t u o s inactive un g (rw (n, d, apply_to_item) at h)
          | inr (inl d) ↦
              let k = rw (n, d, apply_to_item) at h in
              inl (sym (ap (λ r. r.1) k), (o, rw (n, d, apply_to_item) (ap (λ r. (r.0, t)) k), g))
          | inr (inr d) ↦
              let k = rw (n, d, apply_to_item) at h in
              inl (sym (ap (λ r. r.1) k), (o, rw (n, d, apply_to_item) (ap (λ r. (r.0, t)) k), g))
        ]
      ]

  again_lem :
      (store : Store) (p : Projection) (a : Bool) (source : Source) (t u : Tables)
      (settings : StoreRow) (i : Item) (rows : List Item) (s : Signal)
      → u ≡ record t { items = rows }
      → db_stores.find_first (live_store store t.tenants) t.stores ≡ some settings
      → db_items.find_first (item_of store p.wc_item_id) rows ≡ some i
      → Settled p source i
      → Raised source i (some s)
      → Unraised s i
      → (o' : Outcome) × (apply_in_transaction at_most db_stores db_items later id' store p a source
            u
          ≡ (ok o', u))
        × (o'.signal ≡ some s)
  unfolding apply_in_transaction
  again_lem store p a source t u settings i rows s e n m settled raised un =
      let v = record t { items = rows } in
      let run : apply_in_transaction at_most db_stores db_items later id' store p a source v
          ≡ (ok (record { decision = noop; signal = some s }), v) =
        rw (n, m, apply_in_transaction)
          (settled_lem i p a source (classified at_most db_stores db_items later id' p settings) v s
            settled raised un) in
      (record { decision = noop; signal = some s }, rw e run, refl)

  create_item_lem :
      (store : Store) (p : Projection) (source : Source) (c : Classification) (t u : Tables)
      (o : Outcome)
      → create_item at_most db_stores db_items now id store p source c t ≡ (ok o, u)
      → (let s =
            entry_signal id
              (first_generation c)
              (entry_alert_level c)
              source.baseline
              source.source_webhook_event_id in
          (u ≡ record t { items = new_item store p source c s now id ∷ t.items }) × (o.signal ≡ s))
  unfolding create_item
  create_item_lem store p source c t u o h =
      let s =
        entry_signal id (first_generation c) (entry_alert_level c) source.baseline
          source.source_webhook_event_id in
      let i = new_item store p source c s now id in
      elim (Option-cases (db_items.create i t.items)) [
        | inl n ↦ absurd (cc (let k = rw (n, create_item) at h in ap (λ r. r.0) k))
        | inr (rows, n) ↦
            let k = rw (n, create_item) at h in
            (
              sym (ap (λ r. r.1) k)
                  ∙ ap (λ ts. record t { items = ts }) (db_items.created i t.items rows n),
              ap (λ r. signal_of r.0) (sym k),
            )
      ]

  created_again_lem :
      (store : Store) (p : Projection) (a : Bool) (source : Source) (c : Classification)
      (t u : Tables) (s : Signal) (settings : StoreRow)
      → db_stores.find_first (live_store store t.tenants) t.stores ≡ some settings
      → db_items.find_first (item_of store p.wc_item_id) t.items ≡ none
      → (let g =
            entry_signal id
              (first_generation c)
              (entry_alert_level c)
              source.baseline
              source.source_webhook_event_id in
          u ≡ record t { items = new_item store p source c g now id ∷ t.items })
      → entry_signal id
          (first_generation c)
          (entry_alert_level c)
          source.baseline
          source.source_webhook_event_id
        ≡ some s
      → (o' : Outcome) × (apply_in_transaction at_most db_stores db_items later id' store p a source
            u
          ≡ (ok o', u))
        × (o'.signal ≡ some s)
  created_again_lem store p a source c t u s settings n m rows sig =
      let g =
        entry_signal id (first_generation c) (entry_alert_level c) source.baseline
          source.source_webhook_event_id in
      let i = new_item store p source c g now id in
      let found =
        find_first_unique db_items (item_of store p.wc_item_id) (i ∷ t.items) i (Memᴰ.head refl)
          (ground arith) (only (item_of store p.wc_item_id) i m) in
      again_lem store p a source t u settings i (i ∷ t.items) s rows n found (refl, refl, refl)
        (subst (Raised source i) sig (
          new_item-Raised store p source c now id source.baseline source.source_webhook_event_id
            refl refl))
        (new_item-Unraised store p source c now id source.baseline source.source_webhook_event_id s
          sig)
    where
      only :
          (q : Item → Bool) (i : Item)
          → db_items.find_first q t.items ≡ none
          → (x : Item) → Memᴰ x (i ∷ t.items)
          → q x ≡ true
          → x ≡ i
      only q i m x (Memᴰ.head e) h = e
      only q i m x (Memᴰ.tail k) h =
          absurd (cc (h, All-mem (λ y. q y ≡ false) x t.items (db_items.missing q t.items m) k))

  -- The same event again, with the same payload: the signal that `applyProjection` has answered with
  -- is answered again, and nothing changes, where an item of a Store is there once, and where, unless
  -- the signal is a low-stock one, the event has raised no low-stock alert of an item before.
  pub replayed_signal :
      (store : Store) (p : Projection) (a : Bool) (source : Source) (t u : Tables) (o : Outcome)
      (s : Signal)
      → ((x y : Item)
          → Memᴰ x t.items
          → Memᴰ y t.items
          → item_of store p.wc_item_id x ≡ true
          → item_of store p.wc_item_id y ≡ true
          → x ≡ y)
      → All (Unraised s) t.items
      → apply_in_transaction at_most db_stores db_items now id store p a source t ≡ (ok o, u)
      → o.signal ≡ some s
      → (o' : Outcome) × (apply_in_transaction at_most db_stores db_items later id' store p a source
            u
          ≡ (ok o', u))
        × (o'.signal ≡ some s)
  unfolding apply_in_transaction
  replayed_signal store p a source t u o s unique unraised h g =
      elim (Option-cases (db_stores.find_first (live_store store t.tenants) t.stores)) [
        | inl n ↦ absurd (cc (let k = rw (n, apply_in_transaction) at h in ap (λ r. r.0) k))
        | inr (settings, n) ↦
            elim (Option-cases (db_items.find_first (item_of store p.wc_item_id) t.items)) [
              | inl m ↦ by_creation settings n m (rw (n, m, apply_in_transaction) at h)
              | inr (e, m) ↦
                  let k = rw (n, m, apply_in_transaction) at h in
                  let c = classified at_most db_stores db_items now id p settings in
                  let q = item_of store p.wc_item_id in
                  let (there, selected) = db_items.found q t.items e m in
                  let un = All-mem (Unraised s) e t.items unraised there in
                  elim (apply_to_item_cases e p a source c t u o s (λ y. rw y refl) un k g) [
                    | inl (same_tables, (o', run, again)) ↦
                        (o', rw (same_tables, n, m, apply_in_transaction) run, again)
                    | inr (tables, settled, raised, un') ↦
                        let new = effective_classification e source c in
                        let f =
                          overwritten p source e new
                            (next_incident e source e.alert_classification new).data_of now in
                        let key = λ (x : Item).
                          next_incident-item_of store p.wc_item_id e source e.alert_classification
                            new (overwritten p source e new (λ y. y) now x) in
                        let found =
                          find_first-update_many db_items q (optimistic_item_where e) f t.items e
                            there (key e ∙ selected) (optimistic_item_where_refl e)
                            (λ x y. sym (key x) ∙ y) (λ x i y. unique x e i there y selected) in
                        again_lem store p a source t u settings (f e) _ s tables n found settled
                          raised un'
                  ]
            ]
      ]
    where
      by_creation :
          (settings : StoreRow)
          → db_stores.find_first (live_store store t.tenants) t.stores ≡ some settings
          → db_items.find_first (item_of store p.wc_item_id) t.items ≡ none
          → (if p.active
              then create_item at_most db_stores db_items now id store p source
                  (classified at_most db_stores db_items now id p settings)
                  t
              else (ok (record { decision = apply; signal = none }), t))
            ≡ (ok o, u)
          → (o' : Outcome) × (apply_in_transaction at_most db_stores db_items later id' store p a
                source u
              ≡ (ok o', u))
            × (o'.signal ≡ some s)
      by_creation settings n m k = elim (Bool-cases p.active) [
        | inr y ↦ absurd (cc (g, (let v = rw y at k in ap (λ r. signal_of r.0) v)))
        | inl y ↦
            let c =
              classify_inventory_item at_most p.manages_stock p.stock_quantity p.stock_status
                settings.low_stock_threshold in
            let (rows, sig) = create_item_lem store p source c t u o (rw y at k) in
            created_again_lem store p a source c t u s settings n m rows (sym sig ∙ g)
      ]
