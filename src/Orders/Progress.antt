-- ===== src/Orders/Progress.antt =====
-- What the projection of orders does to the orders that are there: none is lost, and none goes back
-- to an earlier time of change, whatever the events and the order in which they come.
use wctm.Prelude.{
  Key, Date, ◌≡◌, refl, ◌≤◌, inl, inr, Bool, true, List, ◌∷◌, Memᴰ, arith, Bool-cases, Option-cases,
  ◌==◌, Result, ok, err, ⊤, bind_result, pure,
}
use wctm.Database.Rows.{All, mem-All, map_where_keeps, map_where}
use wctm.Database.Methods.{Client}
use wctm.Database.Keys.{map_where-mem}
use wctm.Orders.State.{
  OrderProjection, Order, ProjectableStore, DeletionMode, clear, preserve, Decision, apply, noop,
  reconcile, Error, decide_order_projection, order_of, optimistic_order_where,
}
use wctm.Orders.Service.{
  Remote, is_late, in_mode, new_order, projected, update_order, create_order, write_decided,
  decided, apply_in_transaction, deleted, delete_in_transaction, with_remote_deleted_at,
}

-- A later row of the same order.
abbrev pub Later : Order → Order → Type 0
Later r r' =
    (r'.id ≡ r.id)
    × (r'.wc_order_id ≡ r.wc_order_id)
    × (r.content.wc_modified_at ≤ r'.content.wc_modified_at)

abbrev pub HasLater : List Order → Order → Type 0
HasLater rows r = (r' : Order) × Memᴰ r' rows × Later r r'

-- Every order has a later row.
abbrev pub Progressed : List Order → List Order → Type 0
Progressed before after = All (HasLater after) before

Progressed-refl : (rows : List Order) → Progressed rows rows
Progressed-refl rows = mem-All (HasLater rows) rows (λ r m. (r, m, (refl, refl, omega arith)))

optimistic_order_where_lem :
    (e o : Order)
    → optimistic_order_where e o ≡ true
    → (o.content.wc_modified_at ≡ e.content.wc_modified_at)
unfolding optimistic_order_where
optimistic_order_where_lem e o h = ground arith

decided_fresh :
    (stored_at : Date) (stored : Key) (at : Date) (incoming : Key) (a : Bool)
    → decide_order_projection stored_at stored at incoming a ≡ apply
    → stored_at ≤ at
unfolding decide_order_projection
decided_fresh stored_at stored at incoming a h = ground arith

module _ (db : Client Order) where
  -- A guarded write that moves no order back.
  update-Progressed :
      (e : Order) (f : Order → Order) (rows : List Order)
      → ((o : Order) → optimistic_order_where e o ≡ true → Later o (f o))
      → Progressed rows (db.update_many (optimistic_order_where e) f rows).0
  update-Progressed e f rows later =
      let q = optimistic_order_where e in
      rw (db.update_many_rows q f rows) (
        mem-All (HasLater (map_where q f rows)) rows (λ r m. elim (Bool-cases (q r)) [
          | inl w ↦ (f r, map_where-mem q f r rows m w, later r w)
          | inr w ↦ (r, map_where_keeps q f r rows m w, (refl, refl, omega arith))
        ]))

  -- Where a method answers, every order has a later row.
  abbrev pub Forward : {A : Type 0} → List Order → Result Error A × List Order → Type 0
  Forward rows (ok a, after) = Progressed rows after
  Forward rows (err e, after) = Unit

  update_order-Forward :
      (e : Order) (f : Order → Order) (rows : List Order)
      → ((o : Order) → optimistic_order_where e o ≡ true → Later o (f o))
      → Forward rows (update_order db e f rows)
  unfolding update_order
  update_order-Forward e f rows later =
      elim (Bool-cases ((db.update_many (optimistic_order_where e) f rows).1 == 1)) [
        | inl h ↦ rw h (update-Progressed e f rows later)
        | inr h ↦ rw h tt
      ]

  create_order-Forward : (o : Order) (rows : List Order) → Forward rows (create_order db o rows)
  unfolding create_order
  create_order-Forward o rows = elim (Option-cases (db.create o rows)) [
    | inl m ↦ rw (m, create_order) tt
    | inr (after, m) ↦
        rw (m, create_order)
          (rw (db.created o rows after m) (
            mem-All (HasLater (o ∷ rows)) rows
              (λ r n. (r, Memᴰ.tail n, (refl, refl, omega arith)))))
  ]

module _ (remote : Remote) (db : Client Order) (now : Date) (new_id : Key) where
  write_decided-Forward :
      (d : Decision) (p : OrderProjection) (e : Order) (rows : List Order)
      → (d ≡ apply → e.content.wc_modified_at ≤ p.content.wc_modified_at)
      → Forward db rows (write_decided remote db now new_id d p e rows)
  unfolding write_decided
  write_decided-Forward noop p e rows fresh = Progressed-refl rows
  write_decided-Forward reconcile p e rows fresh = Progressed-refl rows
  write_decided-Forward apply p e rows fresh =
      let later : (o : Order) → optimistic_order_where e o ≡ true → Later o (projected p now o) =
        λ o w. (refl, refl, omega (arith, fresh refl, optimistic_order_where_lem e o w)) in
      answered (update_order db e (projected p now) rows)
        (update_order-Forward db e (projected p now) rows later)
    where
      answered :
          (r : Result Error ⊤ × List Order)
          → Forward db rows r
          → Forward db rows (bind_result r (λ _. pure apply))
      answered (ok a, after) h = h
      answered (err x, after) h = tt

  in_mode_time :
      (mode : DeletionMode) (p : OrderProjection) (e : Order)
      → (in_mode remote mode p e).content.wc_modified_at ≡ p.content.wc_modified_at
  unfolding in_mode with_remote_deleted_at
  in_mode_time clear p e = refl
  in_mode_time preserve p e = refl

  pub apply_in_transaction-Forward :
      (store : ProjectableStore) (p : OrderProjection) (a : Bool) (mode : DeletionMode)
      (rows : List Order)
      → Forward db rows (apply_in_transaction remote db now new_id store p a mode rows)
  unfolding apply_in_transaction
  apply_in_transaction-Forward store p a mode rows =
      elim (Option-cases (db.find_first (order_of store p.wc_order_id) rows)) [
        | inl n ↦
            rw (n, apply_in_transaction)
              (create_order-Forward db (new_order store p now new_id) rows)
        | inr (e, n) ↦
            let q = in_mode remote mode p e in
            rw (n, apply_in_transaction)
              (write_decided-Forward (decided remote db now new_id e q a) q e rows (
                decided_fresh e.content.wc_modified_at e.projection_fingerprint
                  q.content.wc_modified_at q.projection_fingerprint a))
      ]

  pub delete_in_transaction-Forward :
      (store : ProjectableStore) (id : Key) (at : Date) (rows : List Order)
      → Forward db rows (delete_in_transaction remote db now new_id store id at rows)
  unfolding delete_in_transaction
  delete_in_transaction-Forward store id at rows =
      elim (Option-cases (db.find_first (order_of store id) rows)) [
        | inl n ↦ rw (n, delete_in_transaction) (Progressed-refl rows)
        | inr (e, n) ↦ elim (Bool-cases (is_late e.content.remote_deleted_at at)) [
          | inl l ↦ rw (n, l, delete_in_transaction) (Progressed-refl rows)
          | inr l ↦
              rw (n, l, delete_in_transaction)
                (update_order-Forward db e (deleted remote db now new_id e at) rows
                  (λ o w. (refl, refl, omega arith)))
        ]
      ]
