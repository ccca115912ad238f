-- ===== src/Webhooks/Stored.antt =====
-- What storing a delivery and handing it over leaves in the table and the queue.
use mathlib.Core.Path.{subst}
use wctm.Prelude.{
  ◌==◌, ◌∷◌, Key, Date, ◌≡◌, refl, sym, ap, ◌∙◌, true, false, some, Memᴰ, arith, text_eq_refl,
  Result, ok, err, ⊤, Option-cases, Bool-cases, inl, inr, ◌⊎◌,
}
use wctm.Database.Methods.{Client}
use wctm.Database.Keys.{map_where-mem}
use wctm.Webhooks.Events.{WebhookEvent, Store, is_received}
use wctm.Webhooks.Headers.{RequiredHeaders}
use wctm.Webhooks.Ingestion.{
  Services, Inbox, persist_or_find, find_existing, hand_over, store_delivery, same_delivery,
  acknowledge, still_received, fresh_event, job_of,
}

pub Result-cases :
    {E A : Type 0} (r : Result E A) → ((e : E) × (r ≡ err e)) ⊎ ((a : A) × (r ≡ ok a))
Result-cases (ok a) = inr (a, refl)
Result-cases (err e) = inl (e, refl)

module _ {Queue : Type 0} (svc : Services Queue) (events : Client WebhookEvent)
    (stores : Client Store) where
  found_existing :
      (s : Store) (h : RequiredHeaders) (w : Inbox Queue) (e : WebhookEvent)
      → (find_existing svc events stores s h w).0 ≡ ok e
      → Memᴰ e (find_existing svc events stores s h w).1.events
        × (same_delivery s.id h.delivery_id e ≡ true)
        × (e.tenant_id ≡ s.tenant_id)
  unfolding find_existing
  found_existing s h w e q =
      elim (Option-cases (events.find_first (same_delivery s.id h.delivery_id) w.events)) [
        | inl n ↦ absurd (ground arith)
        | inr (x, f) ↦
            let (m, t) = events.found (same_delivery s.id h.delivery_id) w.events x f in
            elim (Bool-cases (x.tenant_id == s.tenant_id)) [
              | inl y ↦
                  let xe : x ≡ e = ground arith in
                  rw (f, find_existing)
                    (rw y (
                      subst (λ z. Memᴰ z w.events) xe m,
                      ap (same_delivery s.id h.delivery_id) (sym xe) ∙ t,
                      ground arith,
                    ))
              | inr n ↦ absurd (ground arith)
            ]
      ]

  -- The row that a delivery is stored in, or was stored in before.
  persisted :
      (id : Key) (s : Store) (h : RequiredHeaders) (p : Key) (now : Date) (w : Inbox Queue)
      (e : WebhookEvent)
      → (persist_or_find svc events stores id s h p now w).0 ≡ ok e
      → Memᴰ e (persist_or_find svc events stores id s h p now w).1.events
        × (same_delivery s.id h.delivery_id e ≡ true)
        × (e.tenant_id ≡ s.tenant_id)
  unfolding persist_or_find
  persisted id s h p now w e q =
      let x = fresh_event id s h p now in
      elim (Option-cases (events.create x w.events)) [
        | inl n ↦
            rw (n, persist_or_find)
              (found_existing s h w e (let v = rw (n, persist_or_find) at q in v))
        | inr (ts, c) ↦
            let xe : x ≡ e = ground arith in
            rw (c, persist_or_find)
              (rw (events.created x w.events ts c) (
                Memᴰ.head (sym xe),
                ap (same_delivery s.id h.delivery_id) (sym xe)
                    ∙ ground (arith, text_eq_refl h.delivery_id),
                ap (λ (z : WebhookEvent). z.tenant_id) (sym xe),
              ))
      ]

  find_existing_same :
      (s : Store) (h : RequiredHeaders) (w : Inbox Queue)
      → (find_existing svc events stores s h w).1 ≡ w
  unfolding find_existing
  find_existing_same s h w =
      elim (Option-cases (events.find_first (same_delivery s.id h.delivery_id) w.events)) [
        | inl n ↦ rw (n, find_existing) refl
        | inr (x, f) ↦
            rw (f, find_existing)
              (elim (Bool-cases (x.tenant_id == s.tenant_id)) [
                | inl y ↦ rw y refl
                | inr n ↦ rw n refl
              ])
      ]

  persist_or_find_queue :
      (id : Key) (s : Store) (h : RequiredHeaders) (p : Key) (now : Date) (w : Inbox Queue)
      → (persist_or_find svc events stores id s h p now w).1.queue ≡ w.queue
  unfolding persist_or_find
  persist_or_find_queue id s h p now w =
      elim (Option-cases (events.create (fresh_event id s h p now) w.events)) [
        | inl n ↦ rw (n, persist_or_find) (ap (λ x. x.queue) (find_existing_same s h w))
        | inr (ts, c) ↦ rw (c, persist_or_find) refl
      ]

  -- A row past RECEIVED that is there after a delivery is stored was there before.
  persisted_before :
      (id : Key) (s : Store) (h : RequiredHeaders) (p : Key) (now : Date) (w : Inbox Queue)
      (r : WebhookEvent)
      → Memᴰ r (persist_or_find svc events stores id s h p now w).1.events
      → is_received r.status ≡ false
      → Memᴰ r w.events
  unfolding persist_or_find
  persisted_before id s h p now w r m beyond =
      let x = fresh_event id s h p now in
      elim (Option-cases (events.create x w.events)) [
        | inl n ↦
            subst (λ v. Memᴰ r v.events) (find_existing_same s h w) (rw (n, persist_or_find) at m)
        | inr (ts, c) ↦
            older x
              (subst (λ l. Memᴰ r l) (events.created x w.events ts c)
                (rw (c, persist_or_find) at m))
              refl
      ]
    where
      older :
          (x : WebhookEvent) → Memᴰ r (x ∷ w.events) → is_received x.status ≡ true → Memᴰ r w.events
      older x (Memᴰ.head e) fresh =
          absurd (cc (beyond, fresh, ap (λ (z : WebhookEvent). is_received z.status) e))
      older x (Memᴰ.tail n) fresh = n

  -- The row was there before and the queue is as it was, or the queue has taken the row's job.
  abbrev pub HandedOver : WebhookEvent → Inbox Queue → Inbox Queue → Type 0
  HandedOver r w u =
      (Memᴰ r w.events × (u.queue ≡ w.queue)) ⊎ (svc.enqueue (job_of r) w.queue ≡ some u.queue)

  handed_over :
      (e : WebhookEvent) (now : Date) (w : Inbox Queue) (u : ⊤)
      → Memᴰ e w.events
      → (hand_over svc events stores e now w).0 ≡ ok u
      → (r : WebhookEvent) × Memᴰ r (hand_over svc events stores e now w).1.events
        × (is_received r.status ≡ false)
        × (r.store_id ≡ e.store_id)
        × (r.dedupe_key ≡ e.dedupe_key)
        × HandedOver r w (hand_over svc events stores e now w).1
  unfolding hand_over acknowledge
  handed_over e now w u m h = elim (Bool-cases (is_received e.status)) [
    | inr beyond ↦ rw beyond (e, m, beyond, refl, refl, inl (m, refl))
    | inl fresh ↦ elim (Option-cases (svc.enqueue (job_of e) w.queue)) [
      | inl n ↦ absurd (ground arith)
      | inr (q, n) ↦
          rw (fresh, n, events.update_many_rows (still_received e) (acknowledge now) w.events)
            (
              acknowledge now e,
              map_where-mem (still_received e) (acknowledge now) e w.events m (ground arith),
              refl,
              refl,
              refl,
              inr n,
            )
    ]
  ]

  pub stored :
      (id : Key) (received_at queued_at : Date) (s : Store) (h : RequiredHeaders) (p : Key)
      (w : Inbox Queue) (u : ⊤)
      → (store_delivery svc events stores id received_at queued_at (s, h, p) w).0 ≡ ok u
      → (r : WebhookEvent) × Memᴰ r
          (store_delivery svc events stores id received_at queued_at (s, h, p) w).1.events
        × (is_received r.status ≡ false)
        × (same_delivery s.id h.delivery_id r ≡ true)
        × HandedOver r w (store_delivery svc events stores id received_at queued_at (s, h, p) w).1
  unfolding store_delivery
  stored id received_at queued_at s h p w u q =
      elim (Result-cases (persist_or_find svc events stores id s h p received_at w).0) [
        | inl (x, b) ↦ absurd (ground arith)
        | inr (e, b) ↦
            let w' = (persist_or_find svc events stores id s h p received_at w).1 in
            let (m, t, v) = persisted id s h p received_at w e b in
            let (r, n, beyond, j, k, o) = handed_over e queued_at w' u m (rw b at q) in
            rw b (
              r,
              n,
              beyond,
              ground arith,
              earlier r beyond (hand_over svc events stores e queued_at w').1 o,
            )
      ]
    where
      earlier :
          (r : WebhookEvent)
          → is_received r.status ≡ false
          → (v : Inbox Queue)
          → HandedOver r (persist_or_find svc events stores id s h p received_at w).1 v
          → HandedOver r w v
      earlier r beyond v (inl (m, same)) = inl (
        persisted_before id s h p received_at w r m beyond,
        same ∙ persist_or_find_queue id s h p received_at w,
      )
      earlier r beyond v (inr e) =
          inr (ap (svc.enqueue (job_of r)) (sym (persist_or_find_queue id s h p received_at w)) ∙ e)
