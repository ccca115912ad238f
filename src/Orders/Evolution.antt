-- ===== src/Orders/Evolution.antt =====
-- What a call of `project` does to the orders, whatever the event, the answers of WooCommerce and the
-- others' changes, and whether it returns or throws.
use mathlib.Core.Path.{subst}
use wctm.Prelude.{
  ℕ, Key, Date, codes, ◌≡◌, refl, inl, inr, true, false, none, some, List, Bool-cases, ◌==◌,
  if◌then◌else◌, Result, ok, err, Action, ⊤, bind_result, pure,
}
use wctm.Database.Methods.{Client}
use wctm.Projection.Retry.{
  Environment, Others, start, commit, Once, with_projection_transaction,
  with_projection_transaction-Once,
}
use wctm.Orders.State.{
  OrderProjection, Order, ProjectableStore, clear, preserve, Decision, apply, noop, reconcile,
  Error, is_concurrent, write_conflict,
}
use wctm.Orders.Service.{
  Remote, Event, MappingError, mapping, ClientError, client, has_topic, is_order_topic,
  apply_in_transaction, delete_in_transaction, apply_order_projection, project_deletion,
  reconcile_authoritative_order, reconcile_order, reconcile_mapping_failure, follow_up, project,
}
use wctm.Orders.Progress.{
  Progressed, Forward, apply_in_transaction-Forward, delete_in_transaction-Forward,
}

-- What can have happened to the orders in a call: the others' changes, before an attempt of either of
-- its transactions, and writes of its own, by which every order has a later row.
pub data Evolves (env later : Environment (List Order)) (rows : List Order)
    : List Order → Type 0 where
  unchanged : Evolves env later rows rows
  others :
      {ts : List Order} (k : ℕ)
      → Evolves env later rows ts
      → Evolves env later rows (env.others k ts)
  others_later :
      {ts : List Order} (k : ℕ)
      → Evolves env later rows ts
      → Evolves env later rows (later.others k ts)
  progress :
      {ts us : List Order}
      → Evolves env later rows ts
      → Progressed ts us
      → Evolves env later rows us

module _ (env later : Environment (List Order)) (rows : List Order) where
  Others-Evolves :
      {ts us : List Order}
      → Evolves env later rows ts
      → Others env ts us
      → Evolves env later rows us
  Others-Evolves e start = e
  Others-Evolves e (commit k o) = others k (Others-Evolves e o)

  Others-Evolves_later :
      {ts us : List Order}
      → Evolves env later rows ts
      → Others later ts us
      → Evolves env later rows us
  Others-Evolves_later e start = e
  Others-Evolves_later e (commit k o) = others_later k (Others-Evolves_later e o)

  module _ {A : Type 0} (db : Client Order) (op : Action Error (List Order) A)
      (forward : (ts : List Order) → Forward db ts (op ts)) where
    Once-Evolves :
        (ts : List Order) (r : Result Error A × List Order)
        → Evolves env later rows ts
        → Once is_concurrent write_conflict env op ts r
        → Evolves env later rows r.1
    Once-Evolves ts (ok a, us) e (v, o, run) =
        progress (Others-Evolves e o) (subst (Forward db v) run (forward v))
    Once-Evolves ts (err x, us) e o = Others-Evolves e o

    Once-Evolves_later :
        (ts : List Order) (r : Result Error A × List Order)
        → Evolves env later rows ts
        → Once is_concurrent write_conflict later op ts r
        → Evolves env later rows r.1
    Once-Evolves_later ts (ok a, us) e (v, o, run) =
        progress (Others-Evolves_later e o) (subst (Forward db v) run (forward v))
    Once-Evolves_later ts (err x, us) e o = Others-Evolves_later e o

-- A retried transaction of the environment `e` evolves the orders.
abbrev Runs :
    Environment (List Order)
    → Environment (List Order)
    → Environment (List Order)
    → List Order
    → Client Order
    → Type 1
Runs env later e rows db =
    (A : Type 0) (op : Action Error (List Order) A)
    → ((ts : List Order) → Forward db ts (op ts))
    → (ts : List Order) → Evolves env later rows ts
    → Evolves env later rows (with_projection_transaction is_concurrent write_conflict e op ts).1

module _ (env later : Environment (List Order)) (rows : List Order) (db : Client Order) where
  first_run : Runs env later env rows db
  first_run A op forward ts e =
      Once-Evolves env later rows db op forward ts
        (with_projection_transaction is_concurrent write_conflict env op ts) e
        (with_projection_transaction-Once is_concurrent write_conflict env op ts)

  second_run : Runs env later later rows db
  second_run A op forward ts e =
      Once-Evolves_later env later rows db op forward ts
        (with_projection_transaction is_concurrent write_conflict later op ts) e
        (with_projection_transaction-Once is_concurrent write_conflict later op ts)

  module _ (remote : Remote) (now : Date) (new_id : Key) where
    reconcile_authoritative-Evolves :
        (e : Environment (List Order)) (run : Runs env later e rows db) (store : ProjectableStore)
        (payload expected : Key) (ts : List Order)
        → Evolves env later rows ts
        → Evolves env later rows
            (reconcile_authoritative_order remote db now new_id e store payload expected ts).1
    unfolding reconcile_authoritative_order apply_order_projection
    reconcile_authoritative-Evolves e run store payload expected ts h =
        mapped (remote.map_order payload) refl
      where
        void :
            (r : Result Error Decision × List Order)
            → Evolves env later rows r.1
            → Evolves env later rows (bind_result r (λ _. pure tt)).1
        void (ok a, us) q = q
        void (err x, us) q = q

        mapped :
            (r : Result MappingError OrderProjection)
            → remote.map_order payload ≡ r
            → Evolves env later rows
                (reconcile_authoritative_order remote db now new_id e store payload expected ts).1
        mapped (err x) m = rw (m, reconcile_authoritative_order) h
        mapped (ok p) m = elim (Bool-cases (p.wc_order_id == expected)) [
          | inl y ↦
              rw (m, y, reconcile_authoritative_order)
                (void (apply_order_projection remote db now new_id e store p true clear ts) (
                  run Decision (apply_in_transaction remote db now new_id store p true clear)
                    (apply_in_transaction-Forward remote db now new_id store p true clear) ts h))
          | inr y ↦ rw (m, y, reconcile_authoritative_order) h
        ]

    reconcile_order-Evolves :
        (e : Environment (List Order)) (run : Runs env later e rows db) (store : ProjectableStore)
        (id : Key) (ts : List Order)
        → Evolves env later rows ts
        → Evolves env later rows (reconcile_order remote db now new_id e store id ts).1
    unfolding reconcile_order
    reconcile_order-Evolves e run store id ts h = fetched (remote.fetch_order store id) refl
      where
        fetched :
            (r : Result ClientError Key)
            → remote.fetch_order store id ≡ r
            → Evolves env later rows (reconcile_order remote db now new_id e store id ts).1
        fetched (err (client c)) m = rw (m, reconcile_order) h
        fetched (err ClientError.other) m = rw (m, reconcile_order) h
        fetched (ok payload) m =
            rw (m, reconcile_order) (reconcile_authoritative-Evolves e run store payload id ts h)

    deletion-Evolves :
        (event : Event)
        → Evolves env later rows (project_deletion remote db now new_id env event rows).1
    unfolding project_deletion
    deletion-Evolves event = by_id (remote.read_order_id event.payload) refl
      where
        by_id :
            (r : Result MappingError Key)
            → remote.read_order_id event.payload ≡ r
            → Evolves env later rows (project_deletion remote db now new_id env event rows).1
        by_id (err x) m = rw (m, project_deletion) unchanged
        by_id (ok id) m =
            rw (m, project_deletion)
              (first_run ⊤
                (delete_in_transaction remote db now new_id event.store id event.received_at)
                (delete_in_transaction-Forward remote db now new_id event.store id
                  event.received_at)
                rows unchanged)

    mapping_failure-Evolves :
        (event : Event) (x : MappingError)
        → Evolves env later rows (reconcile_mapping_failure remote db now new_id env event x rows).1
    unfolding reconcile_mapping_failure
    mapping_failure-Evolves event (mapping code (some id)) =
        reconcile_order-Evolves env first_run event.store id rows unchanged
    mapping_failure-Evolves event (mapping code none) = unchanged
    mapping_failure-Evolves event MappingError.other = unchanged

    follow_up-Evolves :
        (event : Event) (id : Key) (r : Result Error Decision × List Order)
        → Evolves env later rows r.1
        → Evolves env later rows (bind_result r (follow_up remote db now new_id later event id)).1
    follow_up-Evolves event id (ok apply, us) h = h
    follow_up-Evolves event id (ok noop, us) h = h
    follow_up-Evolves event id (ok reconcile, us) h =
        reconcile_order-Evolves later second_run event.store id us h
    follow_up-Evolves event id (err x, us) h = h

    mapped-Evolves :
        (event : Event)
        → is_order_topic event ≡ true
        → has_topic event (codes "order.deleted") ≡ false
        → Evolves env later rows (project remote db now new_id env later event rows).1
    unfolding project apply_order_projection
    mapped-Evolves event y d = by_result (remote.map_order event.payload) refl
      where
        by_result :
            (r : Result MappingError OrderProjection)
            → remote.map_order event.payload ≡ r
            → Evolves env later rows (project remote db now new_id env later event rows).1
        by_result (err x) m = rw (y, d, m, project) (mapping_failure-Evolves event x)
        by_result (ok p) m =
            let mode = if has_topic event (codes "order.restored") then clear else preserve in
            rw (y, d, m, project)
              (follow_up-Evolves event p.wc_order_id
                (apply_order_projection remote db now new_id env event.store p false mode rows)
                (first_run Decision
                  (apply_in_transaction remote db now new_id event.store p false mode)
                  (apply_in_transaction-Forward remote db now new_id event.store p false mode) rows
                  unchanged))

    -- The orders after a call of `project`, which returns or throws, come from those before it by
    -- the others' changes and by writes that lose no order and move none back in its time of change.
    pub project-Evolves :
        (event : Event)
        → Evolves env later rows (project remote db now new_id env later event rows).1
    unfolding project project_deletion apply_order_projection
    project-Evolves event = elim (Bool-cases (is_order_topic event)) [
      | inr n ↦ rw (n, project) unchanged
      | inl y ↦ elim (Bool-cases (has_topic event (codes "order.deleted"))) [
        | inl d ↦ rw (y, d, project) (deletion-Evolves event)
        | inr d ↦ mapped-Evolves event y d
      ]
    ]
