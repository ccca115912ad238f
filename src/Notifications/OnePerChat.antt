-- ===== src/Notifications/OnePerChat.antt =====
-- That an order is told to a chat by one delivery, however often it is scheduled.
use wctm.Prelude.{
  Key, Date, ◌≡◌, sym, ap, ◌∙◌, inl, inr, Bool, true, false, Option, none, some, List, [], ◌∷◌,
  Memᴰ, arith, Bool-cases, Option-cases, text_eq, codes, if◌then◌else◌, Result, ok, err, ⊤,
  bind_result,
}
use wctm.Database.Methods.{Client}
use wctm.Database.Rows.{All, All-mem}
use wctm.Notifications.{
  Delivery, Candidate, Settings, ScheduleError, OrderEvent, OrderServices, OrderWorld,
  of_order_and_chat, new_order_delivery, order_ask, upsert_delivery, schedule_recipients,
  schedule_order, schedule_with, schedule_active, schedule_order_notification, recipients_of,
}

-- No two deliveries are of the same order and for the same chat.
abbrev pub OnePerChat : List (Delivery Key) → Type 0
OnePerChat ds =
    (x y : Delivery Key)
    → Memᴰ x ds
    → Memᴰ y ds
    → x.subject ≡ y.subject
    → x.telegram_chat_authorization_id ≡ y.telegram_chat_authorization_id
    → x ≡ y

OnePerChat-cons :
    (d : Delivery Key) (ds : List (Delivery Key))
    → All (λ r. of_order_and_chat d.subject d.telegram_chat_authorization_id r ≡ false) ds
    → OnePerChat ds
    → OnePerChat (d ∷ ds)
OnePerChat-cons d ds fresh one x y (Memᴰ.head e) (Memᴰ.head f) s c = e ∙ sym f
OnePerChat-cons d ds fresh one x y (Memᴰ.head e) (Memᴰ.tail n) s c =
    let g =
      All-mem (λ r. of_order_and_chat d.subject d.telegram_chat_authorization_id r ≡ false) y ds
        fresh n in
    let h : d.subject ≡ y.subject = ap (λ r. r.subject) (sym e) ∙ s in
    let k : d.telegram_chat_authorization_id ≡ y.telegram_chat_authorization_id =
      ap (λ r. r.telegram_chat_authorization_id) (sym e) ∙ c in
    absurd (ground arith)
OnePerChat-cons d ds fresh one x y (Memᴰ.tail m) (Memᴰ.head f) s c =
    let g =
      All-mem (λ r. of_order_and_chat d.subject d.telegram_chat_authorization_id r ≡ false) x ds
        fresh m in
    let h : x.subject ≡ d.subject = s ∙ ap (λ r. r.subject) f in
    let k : x.telegram_chat_authorization_id ≡ d.telegram_chat_authorization_id =
      c ∙ ap (λ r. r.telegram_chat_authorization_id) f in
    absurd (ground arith)
OnePerChat-cons d ds fresh one x y (Memᴰ.tail m) (Memᴰ.tail n) s c = one x y m n s c

module _ {Outside : Type 0} (svc : OrderServices Outside) (db : Client (Delivery Key)) (now : Date)
    (event : OrderEvent) where
  upsert_delivery-OnePerChat :
      (order : Key) (c : Candidate) (w : OrderWorld Outside)
      → OnePerChat w.deliveries
      → OnePerChat (upsert_delivery svc db now event order c w).1.deliveries
  unfolding upsert_delivery
  upsert_delivery-OnePerChat order c w one =
      let q = of_order_and_chat order c.telegram_chat_authorization_id in
      let d = new_order_delivery event order c (svc.new_id w.outside) now in
      elim (Option-cases (db.find_first q w.deliveries)) [
        | inr (o, f) ↦ rw (f, upsert_delivery) one
        | inl f ↦ elim (Option-cases (db.create d w.deliveries)) [
          | inl g ↦ rw (f, g, upsert_delivery) one
          | inr (rows, g) ↦
              let e = db.created d w.deliveries rows g in
              rw (f, g, e, upsert_delivery)
                (OnePerChat-cons d w.deliveries (db.missing q w.deliveries f) one)
        ]
      ]

  schedule_recipients-OnePerChat :
      (order : Key) (cs : List Candidate) (w : OrderWorld Outside)
      → OnePerChat w.deliveries
      → OnePerChat (schedule_recipients svc db now event order cs w).1.deliveries
  unfolding schedule_recipients order_ask
  schedule_recipients-OnePerChat order [] w one = one
  schedule_recipients-OnePerChat order (c ∷ cs) w one =
      told (schedule_recipients-OnePerChat order cs) (upsert_delivery svc db now event order c w)
        (upsert_delivery-OnePerChat order c w one)
    where
      after :
          ((v : OrderWorld Outside)
            → OnePerChat v.deliveries
            → OnePerChat (schedule_recipients svc db now event order cs v).1.deliveries)
          → (r : Result ScheduleError ⊤ × OrderWorld Outside) → OnePerChat r.1.deliveries
          → OnePerChat
              (bind_result r (λ _. schedule_recipients svc db now event order cs)).1.deliveries
      after ih (ok x, v) o = ih v o
      after ih (err x, v) o = o

      told :
          ((v : OrderWorld Outside)
            → OnePerChat v.deliveries
            → OnePerChat (schedule_recipients svc db now event order cs v).1.deliveries)
          → (r : Result ScheduleError Key × OrderWorld Outside) → OnePerChat r.1.deliveries
          → OnePerChat
              (bind_result r (λ id v.
                bind_result
                  (order_ask svc db now
                    (svc.add_job (record {
                      delivery_id = id;
                      tenant_id = event.tenant_id;
                      store_id = event.store_id;
                    }))
                    v)
                  (λ _. schedule_recipients svc db now event order cs))).1.deliveries
      told ih (ok id, v) o =
          after ih
            (order_ask svc db now
              (svc.add_job (record {
                delivery_id = id;
                tenant_id = event.tenant_id;
                store_id = event.store_id;
              }))
              v)
            o
      told ih (err x, v) o = o

  schedule_order-OnePerChat :
      (s : Settings) (o : Option Key) (w : OrderWorld Outside)
      → OnePerChat w.deliveries
      → OnePerChat (schedule_order svc db now event s o w).1.deliveries
  unfolding order_ask
  schedule_order-OnePerChat s none w one = one
  schedule_order-OnePerChat s (some order) w one =
      asked (order_ask svc db now (svc.eligible event.tenant_id event.store_id) w) one
    where
      asked :
          (r : Result ScheduleError (List Candidate) × OrderWorld Outside)
          → OnePerChat r.1.deliveries
          → OnePerChat
              (bind_result r (λ eligible.
                schedule_recipients svc db now event order (recipients_of s eligible))).1.deliveries
      asked (ok l, v) o = schedule_recipients-OnePerChat order (recipients_of s l) v o
      asked (err x, v) o = o

  schedule_with-OnePerChat :
      (o : Option Settings) (w : OrderWorld Outside)
      → OnePerChat w.deliveries
      → OnePerChat (schedule_with svc db now event o w).1.deliveries
  schedule_with-OnePerChat none w one = one
  schedule_with-OnePerChat (some s) w one = gate s.category_enabled
    where
      by_order : Result ScheduleError Key → Result ScheduleError ⊤ × OrderWorld Outside
      by_order (err e) = (err e, w)
      by_order (ok id) =
          schedule_order svc db now event s
            (svc.find_order event.tenant_id event.store_id id w.outside) w

      read : (r : Result ScheduleError Key) → OnePerChat (by_order r).1.deliveries
      read (err e) = one
      read (ok id) =
          schedule_order-OnePerChat s (svc.find_order event.tenant_id event.store_id id w.outside) w
            one

      gate :
          (b : Bool)
          → OnePerChat
              (if b then by_order (svc.read_order_id event.payload) else (ok tt, w)).1.deliveries
      gate true = read (svc.read_order_id event.payload)
      gate false = one

  -- Where no two deliveries are of the same order and for the same chat, none are after `schedule` of an
  -- order's event, whether it returns or fails on the way.
  pub schedule_order_notification-OnePerChat :
      (w : OrderWorld Outside)
      → OnePerChat w.deliveries
      → OnePerChat (schedule_order_notification svc db now event w).1.deliveries
  unfolding schedule_order_notification order_ask
  schedule_order_notification-OnePerChat w one =
      elim (Bool-cases (text_eq event.topic (codes "order.created"))) [
        | inr n ↦ rw (n, schedule_order_notification) one
        | inl y ↦
            rw (y, schedule_order_notification)
              (asked (order_ask svc db now (svc.is_active event.tenant_id) w) one)
      ]
    where
      asked :
          (r : Result ScheduleError Bool × OrderWorld Outside)
          → OnePerChat r.1.deliveries
          → OnePerChat (bind_result r (schedule_active svc db now event)).1.deliveries
      asked (ok false, v) o = o
      asked (ok true, v) o =
          schedule_with-OnePerChat (svc.settings event.tenant_id event.store_id v.outside) v o
      asked (err x, v) o = o
