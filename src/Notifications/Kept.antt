-- ===== src/Notifications/Kept.antt =====
-- That `process` and `markFailed` leave a delivery that is over as it is.
use wctm.Prelude.{
  ℕ, Date, Text, codes, ◌≡◌, refl, sym, ap, ◌∙◌, inl, inr, Bool, true, false, Option, none, some,
  arith, Bool-cases, Option-cases, ◌==◌, Result, ok, err, Action, bind_result,
}
use wctm.Database.Rows.{All, All-map_where}
use wctm.Database.Methods.{Client}
use wctm.Notifications.State.{
  DeliveryState, Delivery, JobData, is_in_flight, is_final, claimable, of_job, take_off, flying,
  flying_since, exhausted, fall, land, give_up,
}
use wctm.Notifications.Client.{SendResult}
use wctm.Notifications.Processor.{
  Kind, Services, World, JobFields, Instants, Thrown, Prepared, ready, unauthorized, disabled,
  Recipient, Message, validate_job_data, write_deliveries, claim, require_one, persist_state,
  persist_terminal, persist_ambiguous, resolve_unclaimed, settle, ask, load, send, dispatch,
  deliver, attempt_loaded, attempt, process_claimed, process, mark_failed,
}

module _ {Subject Outside : Type 0} (db : Client (Delivery Subject)) (d : Delivery Subject) where
  -- Every row with the identifier of the delivery is the delivery as it is.
  abbrev pub Fixed : World Subject Outside → Type 0
  Fixed w = All (λ x. x.id ≡ d.id → x ≡ d) w.deliveries

  abbrev pub Keeps : {A : Type 0} → Action Thrown (World Subject Outside) A → Type 0
  Keeps m = (w : World Subject Outside) → Fixed w → Fixed (m w).1

  Keeps-bind :
      {A B : Type 0} (r : Result Thrown A × World Subject Outside)
      (f : A → Action Thrown (World Subject Outside) B)
      → Fixed r.1
      → ((a : A) → Keeps (f a))
      → Fixed (bind_result r f).1
  Keeps-bind (ok a, v) f h next = next a v h
  Keeps-bind (err e, v) f h next = h

  write_deliveries-Keeps :
      (p : Delivery Subject → Bool) (f : Delivery Subject → Delivery Subject)
      → p d ≡ false
      → ((x : Delivery Subject) → (f x).id ≡ x.id)
      → Keeps (write_deliveries db p f)
  unfolding write_deliveries
  write_deliveries-Keeps p f spared same w h = rw (db.update_many_rows p f w.deliveries) (
      All-map_where (λ x. x.id ≡ d.id → x ≡ d) p f w.deliveries
        (λ x only t e. let y : x ≡ d = only (sym (same x) ∙ e) in absurd (cc (spared, t, ap p y)))
        h)

  require_one-Keeps : (n : ℕ) → Keeps (require_one db n)
  require_one-Keeps n w h = elim (Bool-cases (n == 1)) [ inl y ↦ rw y h | inr m ↦ rw m h ]

  module _ (over : is_final d.state ≡ true) where
    persist_state-Keeps :
        (job : JobData) (s : DeliveryState) (category code : Text)
        → Keeps (persist_state db job s category code)
    unfolding persist_state fall
    persist_state-Keeps job s category code w h =
        Keeps-bind (write_deliveries db (flying job) (fall s category code) w) (require_one db)
          (write_deliveries-Keeps (flying job) (fall s category code) (ground arith) (λ x. refl) w
            h)
          require_one-Keeps

    persist_terminal-Keeps :
        (job : JobData) (category code : Text) → Keeps (persist_terminal db job category code)
    unfolding persist_terminal
    persist_terminal-Keeps job category code w h =
        Keeps-bind (persist_state db job DeliveryState.terminal_failure category code w) _
          (persist_state-Keeps job DeliveryState.terminal_failure category code w h) (λ _ v k. k)

    persist_ambiguous-Keeps :
        (job : JobData) (category code : Text) → Keeps (persist_ambiguous db job category code)
    unfolding persist_ambiguous
    persist_ambiguous-Keeps job category code w h =
        Keeps-bind (persist_state db job DeliveryState.ambiguous category code w) _
          (persist_state-Keeps job DeliveryState.ambiguous category code w h) (λ _ v k. k)

    resolve_unclaimed-Keeps : (job : JobData) → Keeps (resolve_unclaimed db job)
    unfolding resolve_unclaimed
    resolve_unclaimed-Keeps job w h =
        elim (Option-cases (db.find_first (of_job job) w.deliveries)) [
          | inl n ↦ rw (n, resolve_unclaimed) h
          | inr (x, n) ↦ elim (Bool-cases (is_in_flight x.state)) [
            | inl f ↦
                rw (n, f, resolve_unclaimed)
                  (persist_ambiguous-Keeps job (codes "dispatch")
                    (codes "in-flight-outcome-unknown") w h)
            | inr f ↦ elim (Bool-cases (is_final x.state)) [
              | inl g ↦ rw (n, f, g, resolve_unclaimed) h
              | inr g ↦ rw (n, f, g, resolve_unclaimed) h
            ]
          ]
        ]

    settle-Keeps :
        (job : JobData) (times : Instants) (s : SendResult) → Keeps (settle db job times s)
    unfolding settle land
    settle-Keeps job times (SendResult.delivered id) w h =
        Keeps-bind
          (bind_result
            (write_deliveries db (flying_since job times.claimed_at) (land id times.delivered_at) w)
            (require_one db))
          _
          (Keeps-bind
            (write_deliveries db (flying_since job times.claimed_at) (land id times.delivered_at) w)
            (require_one db)
            (write_deliveries-Keeps (flying_since job times.claimed_at) (land id times.delivered_at)
              (ground arith) (λ x. refl) w h)
            require_one-Keeps)
          (λ _ v k. k)
    settle-Keeps job times (SendResult.retryable_failure category code) w h =
        Keeps-bind (persist_state db job DeliveryState.retryable_failure category code w) _
          (persist_state-Keeps job DeliveryState.retryable_failure category code w h) (λ _ v k. k)
    settle-Keeps job times (SendResult.terminal_failure category code) w h =
        persist_terminal-Keeps job category code w h
    settle-Keeps job times (SendResult.ambiguous category code) w h =
        persist_ambiguous-Keeps job category code w h

    pub mark_failed-Keeps : (fields : JobFields) → Keeps (mark_failed db fields)
    unfolding mark_failed give_up write_deliveries
    mark_failed-Keeps fields w h = validated (validate_job_data fields) refl
      where
        validated :
            (r : Result Thrown JobData)
            → validate_job_data fields ≡ r
            → Fixed (mark_failed db fields w).1
        validated (err e) v = rw (v, mark_failed) h
        validated (ok job) v =
            rw (v, mark_failed)
              (write_deliveries-Keeps (exhausted job) give_up (ground arith) (λ x. refl) w h)

module _ {Subject Outside : Type 0} (kind : Kind Subject) (svc : Services Subject Outside)
    (db : Client (Delivery Subject)) (d : Delivery Subject) (over : is_final d.state ≡ true) where
  ask-Keeps : {A : Type 0} (m : Action Thrown Outside A) → Keeps db d (ask kind svc db m)
  unfolding ask
  ask-Keeps m w h = h

  dispatch-Keeps :
      (job : JobData) (times : Instants) (m : Message) (b : Bool)
      → Keeps db d (dispatch kind svc db job times m b)
  unfolding dispatch send
  dispatch-Keeps job times m false w h =
      persist_terminal-Keeps db d over job (codes "policy") (codes "entitlement-inactive") w h
  dispatch-Keeps job times m true w h = settle-Keeps db d over job times _ _ h

  deliver-Keeps :
      (job : JobData) (times : Instants) (r : Recipient) (p : Prepared)
      → Keeps db d (deliver kind svc db job times r p)
  unfolding deliver
  deliver-Keeps job times r (ready content) w h =
      Keeps-bind db d (ask kind svc db (svc.present r) w) _ (ask-Keeps (svc.present r) w h)
        (λ presentation v k.
          Keeps-bind db d (ask kind svc db (svc.is_active job.tenant_id) v) _
            (ask-Keeps (svc.is_active job.tenant_id) v k)
            (λ entitled u g. dispatch-Keeps job times _ entitled u g))
  deliver-Keeps job times r unauthorized w h = persist_terminal-Keeps db d over job _ _ w h
  deliver-Keeps job times r disabled w h = persist_terminal-Keeps db d over job _ _ w h
  deliver-Keeps job times r (Prepared.other s) w h = persist_terminal-Keeps db d over job _ _ w h

  attempt-Keeps :
      (job : JobData) (times : Instants) (b : Bool) → Keeps db d (attempt kind svc db job times b)
  unfolding attempt attempt_loaded
  attempt-Keeps job times false w h =
      persist_terminal-Keeps db d over job (codes "policy") (codes "entitlement-inactive") w h
  attempt-Keeps job times true w h = loaded (load kind svc db job w)
    where
      loaded :
          (o : Option (Recipient × Delivery Subject))
          → Fixed db d (attempt_loaded kind svc db job times o w).1
      loaded none = persist_terminal-Keeps db d over job _ _ w h
      loaded (some (r, x)) =
          Keeps-bind db d (ask kind svc db (svc.prepare r x) w) _ (ask-Keeps (svc.prepare r x) w h)
            (λ p v k. deliver-Keeps job times r p v k)

  claimed-Keeps :
      (job : JobData) (times : Instants) → Keeps db d (process_claimed kind svc db job times)
  unfolding process_claimed
  claimed-Keeps job times w h =
      Keeps-bind db d (ask kind svc db (svc.is_active job.tenant_id) w) _
        (ask-Keeps (svc.is_active job.tenant_id) w h) (λ b v k. attempt-Keeps job times b v k)

  claim-Keeps : (job : JobData) (now : Date) → Keeps {Outside = Outside} db d (claim db job now)
  unfolding claim take_off
  claim-Keeps job now w h =
      write_deliveries-Keeps db d (claimable job) (take_off now) (ground arith) (λ x. refl) w h

  pub process-Keeps :
      (fields : JobFields) (times : Instants) → Keeps db d (process kind svc db fields times)
  unfolding process claim write_deliveries
  process-Keeps fields times w h = validated (validate_job_data fields) refl
    where
      validated :
          (r : Result Thrown JobData)
          → validate_job_data fields ≡ r
          → Fixed db d (process kind svc db fields times w).1
      validated (err e) v = rw (v, process) h
      validated (ok job) v =
          let c = db.update_many (claimable job) (take_off times.claimed_at) w.deliveries in
          let w' = record w { deliveries = c.0 } in
          let k = claim-Keeps job times.claimed_at w h in
          elim (Bool-cases (c.1 == 1)) [
            | inr n ↦ rw (v, n, process) (resolve_unclaimed-Keeps db d over job w' k)
            | inl y ↦ rw (v, y, process) (claimed-Keeps job times w' k)
          ]
