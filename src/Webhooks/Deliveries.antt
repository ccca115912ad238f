-- ===== src/Webhooks/Deliveries.antt =====
-- What `receive` promises: only an authentic delivery is stored, one that is acknowledged is stored
-- and handed over, and a repeated one changes nothing.
use wctm.Prelude.{
  Key, Date, Text, ◌≡◌, refl, true, false, Option, none, some, Memᴰ, arith, holds, text_eq_sound,
  ok, err, ⊤, Option-cases, Bool-cases, inl, inr, ◌⊎◌,
}
use wctm.Database.Methods.{Client}
use wctm.Database.Keys.{find_first_unique}
use wctm.Webhooks.Events.{WebhookEvent, Store, store_live, is_received}
use wctm.Webhooks.Headers.{
  Headers, RequiredHeaders, Error, require_headers, endpoint_not_found, malformed_request,
  invalid_signature,
}
use wctm.Webhooks.Ingestion.{
  Services, Inbox, authenticate, decrypt_secret, persist_or_find, find_existing, hand_over,
  store_delivery, receive, same_delivery, routed, fresh_event, signatures_match,
}
use wctm.Webhooks.Stored.{Result-cases, HandedOver, stored}

module _ {Queue : Type 0} (svc : Services Queue) (events : Client WebhookEvent)
    (stores : Client Store) where
  -- The Store of the endpoint is live, and the body is signed with its secret.
  abbrev pub IsAuthentic :
      Key → Headers → Option Text → Inbox Queue → Store → RequiredHeaders → Type 0
  IsAuthentic endpoint_key headers raw_body w s required =
      Memᴰ s w.stores
      × (holds s.webhook_endpoint_key endpoint_key ≡ true)
      × (store_live w.tenants s ≡ true)
      × (require_headers svc.from_base64 headers ≡ ok required)
      × (body secret : Text) × (raw_body ≡ some body)
      × (decrypt_secret svc events stores s.webhook_secret_encrypted ≡ ok secret)
      × (svc.hmac secret body ≡ required.signature)

  authenticate_cases :
      (key : Key) (headers : Headers) (raw_body : Option Text) (w : Inbox Queue)
      → ((x : Error) × (authenticate svc events stores key headers raw_body w ≡ (err x, w)))
        ⊎ ((s : Store) × (h : RequiredHeaders) × (p : Key) × (authenticate svc events stores key
                headers raw_body w
              ≡ (ok (s, h, p), w))
            × IsAuthentic key headers raw_body w s h)
  unfolding authenticate
  authenticate_cases key headers raw_body w =
      elim (Option-cases (stores.find_first (routed w.tenants key) w.stores)) [
        | inl e ↦ inl (endpoint_not_found, rw e)
        | inr (s, e) ↦ rw e (elim (Result-cases (require_headers svc.from_base64 headers)) [
          | inl (x, h) ↦ inl (x, rw h)
          | inr (r, h) ↦ rw h (elim (Option-cases raw_body) [
            | inl b ↦ inl (malformed_request, rw b)
            | inr (body, b) ↦
                rw b
                  (elim (Result-cases
                    (decrypt_secret svc events stores s.webhook_secret_encrypted)) [
                      | inl (x, d) ↦ inl (x, rw d)
                      | inr (secret, d) ↦
                          rw d
                            (elim (Bool-cases (signatures_match svc.hmac body secret r.signature)) [
                              | inr no_match ↦ inl (invalid_signature, rw no_match)
                              | inl sound ↦ rw sound (elim (Option-cases (svc.parse body)) [
                                | inl j ↦ inl (malformed_request, rw j)
                                | inr (p, j) ↦
                                    let (m, t) = stores.found (routed w.tenants key) w.stores s e in
                                    inr (
                                      s,
                                      r,
                                      svc.minimize r.topic p,
                                      rw j,
                                      (
                                        m,
                                        ground arith,
                                        ground arith,
                                        refl,
                                        body,
                                        secret,
                                        refl,
                                        d,
                                        text_eq_sound (svc.hmac secret body) r.signature sound,
                                      ),
                                    )
                              ])
                            ])
                    ])
          ])
        ])
      ]

  -- A request that `receive` acknowledges, or by which it changes anything, comes to a live Store's
  -- endpoint and is signed with the secret of that Store; any other request is refused and changes
  -- nothing.
  pub receive-IsAuthentic :
      (id : Key) (received_at queued_at : Date) (key : Key) (headers : Headers)
      (raw_body : Option Text) (w : Inbox Queue)
      → ((x : Error) × (receive svc events stores id received_at queued_at key headers raw_body w
            ≡ (err x, w)))
        ⊎ ((s : Store) × (h : RequiredHeaders) × IsAuthentic key headers raw_body w s h)
  unfolding receive
  receive-IsAuthentic id received_at queued_at key headers raw_body w =
      elim (authenticate_cases key headers raw_body w) [
        | inl (x, e) ↦ inl (x, rw e)
        | inr (s, h, p, e, a) ↦ inr (s, h, a)
      ]

  -- A request that `receive` acknowledges is authentic and stored: there is an event of the Store of
  -- the endpoint with the delivery's key, and it is past RECEIVED. Either that row was there before, as
  -- it is, and the queue is as it was; or the queue afterwards is the one that has taken the row's job.
  pub receive_stored :
      (id : Key) (received_at queued_at : Date) (key : Key) (headers : Headers)
      (raw_body : Option Text) (w : Inbox Queue) (u : ⊤)
      → (receive svc events stores id received_at queued_at key headers raw_body w).0 ≡ ok u
      → (s : Store) × (h : RequiredHeaders) × IsAuthentic key headers raw_body w s h
        × ((r : WebhookEvent) × Memᴰ r
              (receive svc events stores id received_at queued_at key headers raw_body w).1.events
            × (is_received r.status ≡ false)
            × (same_delivery s.id h.delivery_id r ≡ true)
            × HandedOver svc events stores r w
                (receive svc events stores id received_at queued_at key headers raw_body w).1)
  unfolding receive
  receive_stored id received_at queued_at key headers raw_body w u q =
      elim (authenticate_cases key headers raw_body w) [
        | inl (x, e) ↦ absurd (ground arith)
        | inr (s, h, p, e, a) ↦
            rw e (s, h, a, stored svc events stores id received_at queued_at s h p w u (rw e at q))
      ]

  -- A repeat of a delivery that is stored, of the same Tenant and past RECEIVED, is acknowledged and
  -- changes nothing, where the table refuses a second row with the delivery's key and holds one.
  pub redelivery_unchanged :
      (id : Key) (received_at queued_at : Date) (s : Store) (h : RequiredHeaders) (p : Key)
      (w : Inbox Queue) (e : WebhookEvent)
      → events.create (fresh_event id s h p received_at) w.events ≡ none
      → Memᴰ e w.events
      → same_delivery s.id h.delivery_id e ≡ true
      → ((x : WebhookEvent) → Memᴰ x w.events → same_delivery s.id h.delivery_id x ≡ true → x ≡ e)
      → e.tenant_id ≡ s.tenant_id
      → is_received e.status ≡ false
      → store_delivery svc events stores id received_at queued_at (s, h, p) w ≡ (ok tt, w)
  unfolding store_delivery persist_or_find find_existing hand_over
  redelivery_unchanged id received_at queued_at s h p w e refused m same one t beyond =
      let f = find_first_unique events (same_delivery s.id h.delivery_id) w.events e m same one in
      ground arith
