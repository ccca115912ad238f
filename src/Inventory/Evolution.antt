-- ===== src/Inventory/Evolution.antt =====
-- What the methods of the inventory projection do to the items, whatever the event, the answers of
-- WooCommerce and the others' changes, and whether they return or throw.
use mathlib.Core.Path.{subst}
use wctm.Prelude.{
  ℕ, ◌+◌, ◌-◌, ◌≤◌, Key, Date, Text, ◌≡◌, refl, sym, ap, ◌∙◌, length, ◌&&◌, inl, inr, Bool, true,
  Option, none, some, List, [], ◌∷◌, ◌++◌, Bool-cases, ◌==◌, ◌||◌, not, or_else, Result, ok, err,
  Action, bind_result, arith,
}
use wctm.Database.Rows.{All}
use wctm.Database.Methods.{Client}
use wctm.Projection.Retry.{
  Environment, Others, start, commit, Once, with_projection_transaction-Once,
}
use wctm.Inventory.{
  Item, Signal, Source, Projection, StoreRow, Store, Tables, Error, Outcome, apply_in_transaction,
  apply_projection, is_concurrent, write_conflict, MappingError, ClientError, Remote, Course,
  parent_of, other_parent, signals_of, fetch_item, apply_item, reconcile_payload, reconcile_item,
  fetched_payload,
}
use wctm.Inventory.Alerts.{apply_projection_backed}
use wctm.Inventory.Advance.{Advanced}
use wctm.Inventory.Freshness.{Forward, apply_in_transaction-Forward}

-- One of the environments of a call.
pub data IsOf (course : Course) : Environment Tables → Type 1 where
  of_first : IsOf course course.first
  of_second : IsOf course course.second

-- What can have happened to the tables in a call: the others' changes, and writes of its own, by
-- which every item has a later row.
pub data Evolves (course : Course) (s : Tables) : Tables → Type 1 where
  unchanged : Evolves course s s
  others :
      {t : Tables} {env : Environment Tables} (k : ℕ)
      → IsOf course env
      → Evolves course s t
      → Evolves course s (env.others k t)
  meanwhile : {t : Tables} → Evolves course s t → Evolves course s (course.meanwhile t)
  advance :
      {t u : Tables} (a : Bool) (source : Source)
      → Evolves course s t
      → Advanced a source t.items u.items
      → Evolves course s u

module _ (course : Course) (s : Tables) where
  pub Others-Evolves :
      {env : Environment Tables} {t u : Tables}
      → IsOf course env
      → Evolves course s t
      → Others env t u
      → Evolves course s u
  Others-Evolves of e start = e
  Others-Evolves of e (commit k o) = others k of (Others-Evolves of e o)

  -- What follows a call, with what it answers or without.
  pub bind-Evolves :
      {A B : Type 0} (r : Result Error A × Tables) (f : A → Action Error Tables B)
      → Evolves course s r.1
      → ((x : A) (u : Tables) → Evolves course s u → Evolves course s (f x u).1)
      → Evolves course s (bind_result r f).1
  bind-Evolves (ok x, u) f e next = next x u e
  bind-Evolves (err x, u) f e next = e

-- The signals of a webhook event: some at most, each with the event as its source.
abbrev pub Sourced : ℕ → Key → List Signal → Type 0
Sourced n event signals =
    (length signals ≤ n) × All (λ s. s.source_webhook_event_id ≡ event) signals

pub signals_of-Sourced :
    (event : Key) (o : Option Signal)
    → ((s : Signal) → o ≡ some s → s.source_webhook_event_id ≡ event)
    → Sourced 1 event (signals_of o)
signals_of-Sourced event none h = (omega arith, tt)
signals_of-Sourced event (some s) h = (omega arith, (h s refl, tt))

pub ++-Sourced :
    (event : Key) (n m : ℕ) (xs ys : List Signal)
    → Sourced n event xs
    → Sourced m event ys
    → Sourced (n + m) event (xs ++ ys)
++-Sourced event n m [] ys x y = (omega (arith, x.0, y.0), y.1)
++-Sourced event n m (s ∷ xs) ys x y =
    let more : (length xs ≤ n - 1) × All (λ s. s.source_webhook_event_id ≡ event) xs =
      (omega (arith, x.0), x.1.1) in
    let r = ++-Sourced event (n - 1) m xs ys more y in (omega (arith, x.0, r.0), (x.1.0, r.1))

module _ (course : Course) (s : Tables) where
  -- The tables have evolved, and the signals that are returned, if any, are the event's.
  abbrev pub Answer : ℕ → Key → Result Error (List Signal) × Tables → Type 1
  Answer n event (ok signals, u) = Evolves course s u × Sourced n event signals
  Answer n event (err x, u) = Evolves course s u

  pub Answer-le :
      (n m : ℕ) (event : Key) (r : Result Error (List Signal) × Tables)
      → n ≤ m
      → Answer n event r
      → Answer m event r
  Answer-le n m event (ok signals, u) le (e, (k, a)) = (e, (omega (arith, le, k), a))
  Answer-le n m event (err x, u) le e = e

  pub bind-Answer :
      {A : Type 0} (n : ℕ) (event : Key) (P : A → Type 0) (r : Result Error A × Tables)
      (f : A → Action Error Tables (List Signal))
      → Evolves course s r.1
      → ((x : A) → r.0 ≡ ok x → P x)
      → ((x : A) (u : Tables) → Evolves course s u → P x → Answer n event (f x u))
      → Answer n event (bind_result r f)
  bind-Answer n event P (ok x, u) f e p next = next x u e (p x refl)
  bind-Answer n event P (err x, u) f e p next = e

module _ (remote : Remote) (at_most : Text → ℕ → Bool) (db_stores : Client StoreRow)
    (db_items : Client Item) (now : Date) (new_id : Key) (course : Course) (s : Tables) where
  pub apply_item-Evolves :
      {env : Environment Tables} (of : IsOf course env) (store : Store) (p : Projection) (a : Bool)
      (source : Source) (t : Tables)
      → Evolves course s t
      → Evolves course s
          (apply_item remote at_most db_stores db_items now new_id env store p a source t).1
  unfolding apply_projection
  apply_item-Evolves {env} of store p a source t e =
      ran (apply_projection at_most db_stores db_items now new_id env store p a source t) (
        with_projection_transaction-Once is_concurrent write_conflict env
          (apply_in_transaction at_most db_stores db_items now new_id store p a source) t)
    where
      ran :
          (r : Result Error Outcome × Tables)
          → Once is_concurrent write_conflict env
              (apply_in_transaction at_most db_stores db_items now new_id store p a source)
              t
              r
          → Evolves course s r.1
      ran (ok o, u) (v, before, run) = advance a source (Others-Evolves course s of e before) (
          subst (Forward at_most db_stores db_items now new_id a source v) run
            (apply_in_transaction-Forward at_most db_stores db_items now new_id store p a source v))
      ran (err x, u) before = Others-Evolves course s of e before

  -- The signal of a source with a webhook event has that event.
  pub apply_item-Sourced :
      (env : Environment Tables) (store : Store) (p : Projection) (a : Bool) (source : Source)
      (event : Key) (t : Tables) (o : Outcome)
      → source.source_webhook_event_id ≡ some event
      → (apply_item remote at_most db_stores db_items now new_id env store p a source t).0 ≡ ok o
      → Sourced 1 event (signals_of o.signal)
  apply_item-Sourced env store p a source event t o w h = signals_of-Sourced event o.signal (λ g q.
      let r = apply_projection at_most db_stores db_items now new_id env store p a source t in
      let (i, m, raised) =
        apply_projection_backed at_most db_stores db_items now new_id env store p a source t r.1 o g
          (ap (λ x. (x, r.1)) h) q in
      some_injective (sym raised.1 ∙ w))
    where
      some_injective : {x y : Key} → some x ≡ some y → x ≡ y
      some_injective h = cc

  module _ (event : Key) {env : Environment Tables} (of : IsOf course env) (store : Store)
      (source : Source) (w : source.source_webhook_event_id ≡ some event) where
    reconcile_payload-Answer :
        (id : Key) (parent : Option Key) (payload : Key) (t : Tables)
        → Evolves course s t
        → Answer course s 1 event (
            reconcile_payload remote at_most db_stores db_items now new_id env store id parent
              source payload t)
    unfolding reconcile_payload
    reconcile_payload-Answer id parent payload t e = mapped (remote.map_item payload) refl
      where
        mapped :
            (r : Result MappingError Projection)
            → remote.map_item payload ≡ r
            → Answer course s 1 event (
                reconcile_payload remote at_most db_stores db_items now new_id env store id parent
                  source payload t)
        mapped (err x) m = rw (m, reconcile_payload) e
        mapped (ok p) m = elim (Bool-cases (not (p.wc_item_id == id) || other_parent parent p)) [
          | inl y ↦ rw (m, y, reconcile_payload) e
          | inr y ↦
              rw (m, y, reconcile_payload)
                (bind-Answer course s 1 event (λ o. Sourced 1 event (signals_of o.signal))
                  (apply_item remote at_most db_stores db_items now new_id env store p true source
                    t)
                  _ (apply_item-Evolves of store p true source t e)
                  (λ o h. apply_item-Sourced env store p true source event t o w h)
                  (λ o u h k. (h, k)))
        ]

    pub reconcile_item-Answer :
        (id : Key) (supplied : Option Key) (t : Tables)
        → Evolves course s t
        → Answer course s 1 event (
            reconcile_item remote at_most db_stores db_items now new_id env store id supplied source
              t)
    unfolding reconcile_item
    reconcile_item-Answer id supplied t e =
        let parent = or_else supplied (
          parent_of (
            db_items.find_first
              (λ i. i.tenant_id == store.tenant_id && i.store_id == store.id && i.wc_item_id == id)
              t.items)) in
        fetched parent (fetch_item remote store parent id)
      where
        fetched :
            (parent : Option Key) (r : Result ClientError Key)
            → Answer course s 1 event (
                fetched_payload remote at_most db_stores db_items now new_id env store id source t
                  parent r)
        fetched parent (err x) = e
        fetched parent (ok payload) = reconcile_payload-Answer id parent payload t e
