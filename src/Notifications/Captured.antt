-- ===== src/Notifications/Captured.antt =====
-- That the recipients of an alert are captured once.
use wctm.Prelude.{
  Key, Date, ◌≡◌, refl, ap, ◌∙◌, inl, inr, ◌⊎◌, Bool, true, false, Option, none, some, List, [],
  ◌∷◌, arith, Bool-cases, Option-cases, ◌==◌, is_some, Result, ok, err, ⊤, bind_result,
}
use wctm.Database.Methods.{Client}
use wctm.Database.Keys.{HasKeys, find_first-update_many}
use wctm.Inventory.{Item, Signal, AlertLevel}
use wctm.Notifications.{
  Delivery, Alert, Candidate, Settings, ScheduleError, AlertServices, AlertWorld, captured_at,
  set_captured, of_signal, signal_matches, capturable, waiting_for, alert_ask, capture_recipients,
  capture_eligible, new_deliveries, capture_chosen, add_jobs, hand_over_deliveries,
  schedule_captured, schedule_inventory_notification, recipients_of,
}

module _ {Outside : Type 0} (svc : AlertServices Outside) (db_items : Client Item)
    (db : Client (Delivery Alert)) (tenant store : Key) (signal : Signal) where
  -- A call that changes neither the items nor the deliveries.
  abbrev Still :
      {A : Type 0} → Result ScheduleError A × AlertWorld Outside → AlertWorld Outside → Type 0
  Still r w = (r.1.items ≡ w.items) × (r.1.deliveries ≡ w.deliveries)

  module _ (now : Date) where
    set_captured-same :
        (l : AlertLevel) (i : Item)
        → of_signal tenant store signal i ≡ true
        → of_signal tenant store signal (set_captured l now i) ≡ true
    unfolding set_captured
    set_captured-same AlertLevel.low_stock i t = t
    set_captured-same AlertLevel.out_of_stock i t = t

    set_captured-back :
        (l : AlertLevel) (i : Item)
        → of_signal tenant store signal (set_captured l now i) ≡ true
        → of_signal tenant store signal i ≡ true
    unfolding set_captured
    set_captured-back AlertLevel.low_stock i t = t
    set_captured-back AlertLevel.out_of_stock i t = t

    set_captured-captured :
        (l : AlertLevel) (i : Item) → is_some (captured_at l (set_captured l now i)) ≡ true
    unfolding set_captured
    set_captured-captured AlertLevel.low_stock i = refl
    set_captured-captured AlertLevel.out_of_stock i = refl

    add_jobs-Still :
        (ds : List (Delivery Alert)) (w : AlertWorld Outside)
        → Still (add_jobs svc db_items db tenant store signal now ds w) w
    unfolding add_jobs alert_ask
    add_jobs-Still [] w = (refl, refl)
    add_jobs-Still (d ∷ ds) w =
        rest (add_jobs-Still ds)
          (alert_ask svc db_items db tenant store signal now
            (svc.add_job (record { delivery_id = d.id; tenant_id = tenant; store_id = store })) w)
          refl refl
      where
        rest :
            ((v : AlertWorld Outside)
              → Still (add_jobs svc db_items db tenant store signal now ds v) v)
            → (r : Result ScheduleError ⊤ × AlertWorld Outside) → r.1.items ≡ w.items
            → r.1.deliveries ≡ w.deliveries
            → Still (bind_result r (λ _. add_jobs svc db_items db tenant store signal now ds)) w
        rest ih (ok x, v) e f = let (g, h) = ih v in (g ∙ e, h ∙ f)
        rest ih (err x, v) e f = (e, f)

    -- With the recipients captured before, nothing is written.
    captured-Still :
        (active : Bool) (w : AlertWorld Outside)
        → Still (schedule_captured svc db_items db tenant store signal now active true w) w
    unfolding schedule_captured hand_over_deliveries
    captured-Still false w = (refl, refl)
    captured-Still true w =
        add_jobs-Still (db.find_many (waiting_for tenant store signal) w.deliveries) w

    -- No item of the signal, or one that does not match it, or one whose recipients were captured.
    abbrev Settled : AlertWorld Outside → Type 0
    Settled w =
        (db_items.find_first (of_signal tenant store signal) w.items ≡ none)
        ⊎ ((i : Item) × (db_items.find_first (of_signal tenant store signal) w.items ≡ some i)
            × ((signal_matches i signal ≡ false)
                ⊎ (is_some (captured_at signal.alert_level i) ≡ true)))

    Settled-Still :
        (w : AlertWorld Outside)
        → Settled w
        → Still (schedule_inventory_notification svc db_items db tenant store signal now w) w
    unfolding schedule_inventory_notification alert_ask
    Settled-Still w (inl n) = rw (n, schedule_inventory_notification) (refl, refl)
    Settled-Still w (inr (i, n, inl m)) = rw (n, m, schedule_inventory_notification) (refl, refl)
    Settled-Still w (inr (i, n, inr c)) = elim (Bool-cases (signal_matches i signal)) [
      | inr m ↦ rw (n, m, schedule_inventory_notification) (refl, refl)
      | inl m ↦
          rw (n, m, c, schedule_inventory_notification)
            (asked (alert_ask svc db_items db tenant store signal now (svc.is_active tenant) w) refl
              refl)
    ]
      where
        asked :
            (r : Result ScheduleError Bool × AlertWorld Outside)
            → r.1.items ≡ w.items
            → r.1.deliveries ≡ w.deliveries
            → Still
                (bind_result r
                  (λ active. schedule_captured svc db_items db tenant store signal now active true))
                w
        asked (ok active, v) e f = let (g, h) = captured-Still active v in (g ∙ e, h ∙ f)
        asked (err x, v) e f = (e, f)

    -- The items after a capture that answers.
    abbrev captured_items : List Item → List Item
    captured_items items =
        (db_items.update_many (capturable tenant store signal) (set_captured signal.alert_level now)
          items).0

    capture_items :
        (ds : List (Delivery Alert)) (w : AlertWorld Outside)
        → (capture_recipients svc db_items db tenant store signal now ds w).0 ≡ ok tt
        → (capture_recipients svc db_items db tenant store signal now ds w).1.items
          ≡ captured_items w.items
    unfolding capture_recipients
    capture_items ds w h = elim (Bool-cases (svc.refuses w.outside)) [
      | inl y ↦ absurd (cc (let g = rw (y, capture_recipients) at h in g))
      | inr n ↦
          let k =
            (db_items.update_many (capturable tenant store signal)
              (set_captured signal.alert_level now) w.items).1 in
          elim (Bool-cases (k == 1)) [
            | inl y ↦ rw (n, y, capture_recipients) refl
            | inr m ↦ rw (n, m, capture_recipients) refl
          ]
    ]

    chosen_items :
        (o : Option Settings) (w : AlertWorld Outside)
        → (capture_chosen svc db_items db tenant store signal now o w).0 ≡ ok tt
        → (capture_chosen svc db_items db tenant store signal now o w).1.items
          ≡ captured_items w.items
    unfolding capture_chosen alert_ask
    chosen_items none w h = capture_items [] w h
    chosen_items (some s) w h = elim (Bool-cases s.category_enabled) [
      | inr n ↦ rw (n, capture_chosen) (capture_items [] w (rw (n, capture_chosen) at h))
      | inl y ↦
          rw (y, capture_chosen)
            (asked (alert_ask svc db_items db tenant store signal now (svc.eligible tenant store) w)
              refl (rw (y, capture_chosen) at h))
    ]
      where
        asked :
            (r : Result ScheduleError (List Candidate) × AlertWorld Outside)
            → r.1.items ≡ w.items
            → (bind_result r (capture_eligible svc db_items db tenant store signal now s)).0 ≡ ok tt
            → (bind_result r (capture_eligible svc db_items db tenant store signal now s)).1.items
              ≡ captured_items w.items
        asked (ok l, v) e g =
            capture_items
              (new_deliveries svc db_items db tenant store signal now s.policy_version
                (svc.new_ids v.outside (recipients_of s l)))
              v g
            ∙ ap captured_items e
        asked (err x, v) e g = absurd (cc (g))

    -- After a capture, a read of the item finds it captured.
    captured-Settled :
        (items : List Item) (i : Item) (w : AlertWorld Outside)
        → HasKeys (λ i. i.id) items
        → db_items.find_first (of_signal tenant store signal) items ≡ some i
        → signal_matches i signal ≡ true
        → is_some (captured_at signal.alert_level i) ≡ false
        → w.items ≡ captured_items items
        → Settled w
    captured-Settled items i w keys n m c e =
        let q = of_signal tenant store signal in
        let f = set_captured signal.alert_level now in
        let (k, t) = db_items.found q items i n in
        let found : db_items.find_first q (captured_items items) ≡ some (f i) =
          find_first-update_many db_items q (capturable tenant store signal) f items i k
            (set_captured-same signal.alert_level i t) (ground arith)
            (λ x g. set_captured-back signal.alert_level x g)
            (λ x o g. keys x i o k (ground arith)) in
        inr (f i, (rw e found), inr (set_captured-captured signal.alert_level i))

    -- A capture, and then the hand-over, leave the item captured.
    schedule_captured-Settled :
        (active : Bool) (i : Item) (w : AlertWorld Outside)
        → HasKeys (λ i. i.id) w.items
        → db_items.find_first (of_signal tenant store signal) w.items ≡ some i
        → signal_matches i signal ≡ true
        → is_some (captured_at signal.alert_level i) ≡ false
        → (schedule_captured svc db_items db tenant store signal now active false w).0 ≡ ok tt
        → Settled (schedule_captured svc db_items db tenant store signal now active false w).1
    unfolding schedule_captured hand_over_deliveries
    schedule_captured-Settled false i w keys n m c h =
        captured-Settled w.items i
          (capture_recipients svc db_items db tenant store signal now [] w).1 keys n m c
          (capture_items [] w h)
    schedule_captured-Settled true i w keys n m c h =
        handed
          (capture_chosen svc db_items db tenant store signal now
            (svc.settings tenant store w.outside) w)
          (chosen_items (svc.settings tenant store w.outside) w) h
      where
        handed :
            (r : Result ScheduleError ⊤ × AlertWorld Outside)
            → (r.0 ≡ ok tt → r.1.items ≡ captured_items w.items)
            → (bind_result r (λ _. hand_over_deliveries svc db_items db tenant store signal now)).0
              ≡ ok tt
            → Settled
                (bind_result r
                  (λ _. hand_over_deliveries svc db_items db tenant store signal now)).1
        handed (ok x, v) e g =
            captured-Settled w.items i
              (hand_over_deliveries svc db_items db tenant store signal now v).1 keys n m c
              ((add_jobs-Still (db.find_many (waiting_for tenant store signal) v.deliveries) v).0
                ∙ e refl)
        handed (err x, v) e g = absurd (cc (g))

    schedule-Settled :
        (w : AlertWorld Outside)
        → HasKeys (λ i. i.id) w.items
        → (schedule_inventory_notification svc db_items db tenant store signal now w).0 ≡ ok tt
        → Settled (schedule_inventory_notification svc db_items db tenant store signal now w).1
    unfolding schedule_inventory_notification alert_ask
    schedule-Settled w keys h =
        elim (Option-cases (db_items.find_first (of_signal tenant store signal) w.items)) [
          | inl n ↦ rw (n, schedule_inventory_notification) (inl n)
          | inr (i, n) ↦ elim (Bool-cases (signal_matches i signal)) [
            | inr m ↦ rw (n, m, schedule_inventory_notification) (inr (i, n, inl m))
            | inl m ↦ elim (Bool-cases (is_some (captured_at signal.alert_level i))) [
              | inl c ↦
                  let s = Settled-Still w (inr (i, n, inr c)) in
                  inr (
                    i,
                    ap (λ l. db_items.find_first (of_signal tenant store signal) l) (s.0) ∙ n,
                    inr c,
                  )
              | inr c ↦
                  rw (n, m, c, schedule_inventory_notification)
                    (asked i n m c
                      (alert_ask svc db_items db tenant store signal now (svc.is_active tenant) w)
                      refl (rw (n, m, c, schedule_inventory_notification) at h))
            ]
          ]
        ]
      where
        asked :
            (i : Item)
            → db_items.find_first (of_signal tenant store signal) w.items ≡ some i
            → signal_matches i signal ≡ true
            → is_some (captured_at signal.alert_level i) ≡ false
            → (r : Result ScheduleError Bool × AlertWorld Outside) → r.1.items ≡ w.items
            → (bind_result r (λ active.
                schedule_captured svc db_items db tenant store signal now active false)).0
              ≡ ok tt
            → Settled
                (bind_result r (λ active.
                  schedule_captured svc db_items db tenant store signal now active false)).1
        asked i n m c (ok active, v) e g =
            schedule_captured-Settled active i v (rw e keys) (rw e n) m c g
        asked i n m c (err x, v) e g = absurd (cc (g))

  -- Where no two items have the same identifier: once a call of `schedule` for a signal of the inventory
  -- has returned, no later call for that signal makes a delivery or captures recipients again, whatever
  -- the entitlement, the settings and the members are by then.
  pub schedule_once :
      (now later : Date) (w : AlertWorld Outside)
      → HasKeys (λ i. i.id) w.items
      → (schedule_inventory_notification svc db_items db tenant store signal now w).0 ≡ ok tt
      → let u = (schedule_inventory_notification svc db_items db tenant store signal now w).1 in
        ((schedule_inventory_notification svc db_items db tenant store signal later u).1.items
          ≡ u.items)
        × ((schedule_inventory_notification svc db_items db tenant store signal later
              u).1.deliveries
            ≡ u.deliveries)
  schedule_once now later w keys h =
      Settled-Still later
        (schedule_inventory_notification svc db_items db tenant store signal now w).1
        (schedule-Settled now w keys h)
