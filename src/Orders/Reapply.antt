-- ===== src/Orders/Reapply.antt =====
-- An order that is projected again from the same payload, as a delivery that is repeated does.
use wctm.Prelude.{
  Key, Date, ◌≡◌, refl, sym, ap, ◌∙◌, inl, inr, Bool, true, false, Option, none, some, List, ◌∷◌,
  Memᴰ, arith, Bool-cases, Option-cases, ◌==◌, ok, same, pure, ◌>>◌,
}
use wctm.Database.Rows.{All-mem}
use wctm.Database.Methods.{Client}
use wctm.Database.Keys.{find_first-update_many, find_first_unique}
use wctm.Orders.State.{
  OrderProjection, Order, ProjectableStore, DeletionMode, clear, preserve, Decision, apply, noop,
  reconcile, decide_order_projection, order_of, optimistic_order_where,
}
use wctm.Orders.Service.{
  Remote, in_mode, new_order, projected, update_order, create_order, write_decided, decided,
  apply_in_transaction, with_remote_deleted_at,
}

decide_same :
    (at : Date) (fingerprint : Key) (a : Bool)
    → decide_order_projection at fingerprint at fingerprint a ≡ noop
unfolding decide_order_projection
decide_same at fingerprint a = ground arith

same_refl : (o : Option Date) → same o o ≡ true
same_refl none = refl
same_refl (some d) = ground arith

where_refl : (e : Order) → optimistic_order_where e e ≡ true
unfolding optimistic_order_where
where_refl e = ground (arith, same_refl e.content.remote_deleted_at)

module _ (remote : Remote) where
  -- The payload that a stored row was made of is the same in the mode as when it was stored.
  in_mode-projected :
      (mode : DeletionMode) (p : OrderProjection) (now : Date) (e : Order)
      → in_mode remote mode p (projected (in_mode remote mode p e) now e) ≡ in_mode remote mode p e
  unfolding in_mode with_remote_deleted_at
  in_mode-projected clear p now e = refl
  in_mode-projected preserve p now e = refl

  in_mode-new_order :
      (mode : DeletionMode) (p : OrderProjection) (store : ProjectableStore) (now : Date) (id : Key)
      → p.projection_fingerprint ≡ remote.fingerprint p.wc_order_id p.content
      → in_mode remote mode p (new_order store p now id) ≡ p
  unfolding in_mode with_remote_deleted_at
  in_mode-new_order clear p store now id h = refl
  in_mode-new_order preserve p store now id h =
      ap (λ k. record p { projection_fingerprint = k }) (sym h)

module _ (remote : Remote) (db : Client Order) where
  -- A row that is what the payload says is left alone.
  settled_lem :
      (later : Date) (id : Key) (store : ProjectableStore) (p : OrderProjection) (a : Bool)
      (mode : DeletionMode) (rows : List Order) (o : Order)
      → db.find_first (order_of store p.wc_order_id) rows ≡ some o
      → (in_mode remote mode p o).content ≡ o.content
      → (in_mode remote mode p o).projection_fingerprint ≡ o.projection_fingerprint
      → apply_in_transaction remote db later id store p a mode rows ≡ (ok noop, rows)
  unfolding apply_in_transaction write_decided
  settled_lem later id store p a mode rows o n c f =
      let d : decided remote db later id o (in_mode remote mode p o) a ≡ noop =
        rw (c, f) (decide_same o.content.wc_modified_at o.projection_fingerprint a) in
      rw (n, d, apply_in_transaction) refl

  update_lem :
      (e : Order) (f : Order → Order) (rows after : List Order) (d : Decision)
      → (update_order db e f >> pure d) rows ≡ (ok d, after)
      → after ≡ (db.update_many (optimistic_order_where e) f rows).0
  unfolding update_order
  update_lem e f rows after d h =
      elim (Bool-cases ((db.update_many (optimistic_order_where e) f rows).1 == 1)) [
        | inl k ↦ ap (λ r. r.1) (sym (rw k at h))
        | inr k ↦ absurd (cc (let u = rw k at h in u))
      ]

  created_lem :
      (o : Order) (rows after : List Order)
      → create_order db o rows ≡ (ok apply, after)
      → after ≡ o ∷ rows
  unfolding create_order
  created_lem o rows after h = elim (Option-cases (db.create o rows)) [
    | inl k ↦ absurd (cc (let u = rw (k, create_order) at h in u))
    | inr (ts, k) ↦ ap (λ r. r.1) (sym (rw (k, create_order) at h)) ∙ db.created o rows ts k
  ]

  -- An order that has been projected is projected again from the same payload, at any later time and
  -- as authoritative or not, without any change, where the fingerprint of the payload is the one
  -- that the mapper gives, and an order of a Store is there once.
  pub reapplied_unchanged :
      (now later : Date) (id id' : Key) (store : ProjectableStore) (p : OrderProjection)
      (a a' : Bool) (mode : DeletionMode) (rows after : List Order)
      → p.projection_fingerprint ≡ remote.fingerprint p.wc_order_id p.content
      → ((x y : Order)
          → Memᴰ x rows
          → Memᴰ y rows
          → order_of store p.wc_order_id x ≡ true
          → order_of store p.wc_order_id y ≡ true
          → x ≡ y)
      → apply_in_transaction remote db now id store p a mode rows ≡ (ok apply, after)
      → apply_in_transaction remote db later id' store p a' mode after ≡ (ok noop, after)
  unfolding apply_in_transaction create_order
  reapplied_unchanged now later id id' store p a a' mode rows after law unique h =
      elim (Option-cases (db.find_first (order_of store p.wc_order_id) rows)) [
        | inl n ↦ by_creation n (rw (n, apply_in_transaction) at h)
        | inr (e, n) ↦
            by_update e n (decided remote db now id e (in_mode remote mode p e) a) refl
              (rw (n, apply_in_transaction) at h)
      ]
    where
      only :
          (q : Order → Bool) (o : Order)
          → db.find_first q rows ≡ none
          → (x : Order) → Memᴰ x (o ∷ rows)
          → q x ≡ true
          → x ≡ o
      only q o n x (Memᴰ.head s) h = s
      only q o n x (Memᴰ.tail i) h =
          absurd (cc (h, All-mem (λ y. q y ≡ false) x rows (db.missing q rows n) i))

      by_creation :
          db.find_first (order_of store p.wc_order_id) rows ≡ none
          → create_order db (new_order store p now id) rows ≡ (ok apply, after)
          → apply_in_transaction remote db later id' store p a' mode after ≡ (ok noop, after)
      by_creation n k =
          let o = new_order store p now id in
          let q = order_of store p.wc_order_id in
          let rows' : after ≡ o ∷ rows = created_lem o rows after k in
          let found : db.find_first q (o ∷ rows) ≡ some o =
            find_first_unique db q (o ∷ rows) o (Memᴰ.head refl) (ground arith) (only q o n) in
          let e = in_mode-new_order remote mode p store now id law in
          settled_lem later id' store p a' mode after o (rw rows' found) (ap (λ r. r.content) e)
            (ap (λ r. r.projection_fingerprint) e)

      by_update :
          (e : Order)
          → db.find_first (order_of store p.wc_order_id) rows ≡ some e
          → (d : Decision) → decided remote db now id e (in_mode remote mode p e) a ≡ d
          → write_decided remote db now id
              (decided remote db now id e (in_mode remote mode p e) a)
              (in_mode remote mode p e)
              e
              rows
            ≡ (ok apply, after)
          → apply_in_transaction remote db later id' store p a' mode after ≡ (ok noop, after)
      by_update e n apply w k =
          let q = order_of store p.wc_order_id in
          let m = in_mode remote mode p e in
          let (there, selected) = db.found q rows e n in
          let rows' =
            update_lem e (projected m now) rows after apply (rw (w, write_decided) at k) in
          let found =
            find_first-update_many db q (optimistic_order_where e) (projected m now) rows e there
              selected (where_refl e) (λ x s. s) (λ x i s. unique x e i there s selected) in
          let same_payload = in_mode-projected remote mode p now e in
          settled_lem later id' store p a' mode after (projected m now e) (rw rows' found)
            (ap (λ r. r.content) same_payload) (ap (λ r. r.projection_fingerprint) same_payload)
      by_update e n noop w k = absurd (cc (let u = rw (w, write_decided) at k in u))
      by_update e n reconcile w k = absurd (cc (let u = rw (w, write_decided) at k in u))
