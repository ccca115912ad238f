-- ===== src/Notifications/Sends.antt =====
-- How often the message of a delivery is handed to the bot.
use mathlib.Core.Path.{subst}
use wctm.Prelude.{
  ℕ, Key, Text, codes, ◌≡◌, refl, sym, ap, ◌∙◌, inl, inr, ◌⊎◌, Bool, true, false, Option, none,
  some, List, ◌∷◌, Memᴰ, arith, Bool-cases, Option-cases, ◌==◌, Result, ok, err, Action,
  bind_result,
}
use wctm.Database.Rows.{count_where_none}
use wctm.Database.Methods.{Client}
use wctm.Database.Keys.{HasKeys}
use wctm.Notifications.State.{
  DeliveryState, Delivery, JobData, is_waiting, is_in_flight, is_final, claimable, of_job, take_off,
}
use wctm.Notifications.Client.{SendResult}
use wctm.Notifications.Processor.{
  Kind, Services, World, JobFields, Instants, Thrown, Reason, Outcome, Prepared, ready,
  unauthorized, disabled, Recipient, Message, validate_job_data, write_deliveries, claim,
  persist_state, persist_terminal, persist_ambiguous, resolve_unclaimed, settle, ask, load, send,
  dispatch, deliver, attempt_loaded, attempt, process_claimed, process,
}

-- The message of a delivery was handed over once more, or not.
abbrev pub AtMostOne : {Subject Outside : Type 0} → Key → List Key → World Subject Outside → Type 0
AtMostOne id sent w = (w.sent ≡ sent) ⊎ (w.sent ≡ id ∷ sent)

module _ {Subject Outside : Type 0} where
  -- What follows a call that sends nothing.
  quiet_bind :
      {A B : Type 0} (P : World Subject Outside → Type 0) (sent : List Key)
      (r : Result Thrown A × World Subject Outside)
      (f : A → Action Thrown (World Subject Outside) B)
      → ((v : World Subject Outside) → v.sent ≡ sent → P v)
      → r.1.sent ≡ sent
      → ((a : A) (v : World Subject Outside) → v.sent ≡ sent → P (f a v).1)
      → P (bind_result r f).1
  quiet_bind P sent (ok a, v) f base q next = next a v q
  quiet_bind P sent (err e, v) f base q next = base v q

module _ {Subject Outside : Type 0} (db : Client (Delivery Subject)) where
  abbrev Quiet : {A : Type 0} → Action Thrown (World Subject Outside) A → Type 0
  Quiet m = (w : World Subject Outside) → (m w).1.sent ≡ w.sent

  persist_state-Quiet :
      (job : JobData) (s : DeliveryState) (category code : Text)
      → Quiet (persist_state db job s category code)
  unfolding persist_state write_deliveries
  persist_state-Quiet job s category code w = ground arith

  persist_terminal-Quiet :
      (job : JobData) (category code : Text) → Quiet (persist_terminal db job category code)
  unfolding persist_terminal
  persist_terminal-Quiet job category code w =
      quiet_bind (λ v. v.sent ≡ w.sent) w.sent
        (persist_state db job DeliveryState.terminal_failure category code w)
        (λ _ v. (ok Outcome.terminal_failure, v)) (λ v q. q)
        (persist_state-Quiet job DeliveryState.terminal_failure category code w) (λ _ v q. q)

  persist_ambiguous-Quiet :
      (job : JobData) (category code : Text) → Quiet (persist_ambiguous db job category code)
  unfolding persist_ambiguous
  persist_ambiguous-Quiet job category code w =
      quiet_bind (λ v. v.sent ≡ w.sent) w.sent
        (persist_state db job DeliveryState.ambiguous category code w)
        (λ _ v. (ok Outcome.ambiguous, v)) (λ v q. q)
        (persist_state-Quiet job DeliveryState.ambiguous category code w) (λ _ v q. q)

  resolve_unclaimed-Quiet : (job : JobData) → Quiet (resolve_unclaimed db job)
  unfolding resolve_unclaimed
  resolve_unclaimed-Quiet job w = elim (Option-cases (db.find_first (of_job job) w.deliveries)) [
    | inl n ↦ rw (n, resolve_unclaimed) refl
    | inr (d, n) ↦ elim (Bool-cases (is_in_flight d.state)) [
      | inl f ↦
          rw (n, f, resolve_unclaimed)
            (persist_ambiguous-Quiet job (codes "dispatch") (codes "in-flight-outcome-unknown") w)
      | inr f ↦ elim (Bool-cases (is_final d.state)) [
        | inl g ↦ rw (n, f, g, resolve_unclaimed) refl
        | inr g ↦ rw (n, f, g, resolve_unclaimed) refl
      ]
    ]
  ]

  settle-Quiet : (job : JobData) (times : Instants) (s : SendResult) → Quiet (settle db job times s)
  unfolding settle write_deliveries
  settle-Quiet job times (SendResult.delivered id) w = ground arith
  settle-Quiet job times (SendResult.retryable_failure category code) w =
      quiet_bind (λ v. v.sent ≡ w.sent) w.sent
        (persist_state db job DeliveryState.retryable_failure category code w)
        (λ _ v. (err (Thrown.retry Reason.delivery_retryable), v)) (λ v q. q)
        (persist_state-Quiet job DeliveryState.retryable_failure category code w) (λ _ v q. q)
  settle-Quiet job times (SendResult.terminal_failure category code) w =
      persist_terminal-Quiet job category code w
  settle-Quiet job times (SendResult.ambiguous category code) w =
      persist_ambiguous-Quiet job category code w

module _ {Subject Outside : Type 0} (kind : Kind Subject) (svc : Services Subject Outside)
    (db : Client (Delivery Subject)) where
  ask-Quiet :
      {A : Type 0} (m : Action Thrown Outside A) (w : World Subject Outside)
      → (ask kind svc db m w).1.sent ≡ w.sent
  unfolding ask
  ask-Quiet m w = refl

  dispatch-AtMostOne :
      (job : JobData) (times : Instants) (m : Message) (b : Bool) (sent : List Key)
      (w : World Subject Outside)
      → w.sent ≡ sent
      → AtMostOne job.delivery_id sent (dispatch kind svc db job times m b w).1
  unfolding dispatch send
  dispatch-AtMostOne job times m false sent w q =
      inl (persist_terminal-Quiet db job (codes "policy") (codes "entitlement-inactive") w ∙ q)
  dispatch-AtMostOne job times m true sent w q =
      inr (settle-Quiet db job times _ _ ∙ ap (λ l. job.delivery_id ∷ l) q)

  deliver-AtMostOne :
      (job : JobData) (times : Instants) (r : Recipient) (p : Prepared) (sent : List Key)
      (w : World Subject Outside)
      → w.sent ≡ sent
      → AtMostOne job.delivery_id sent (deliver kind svc db job times r p w).1
  unfolding deliver
  deliver-AtMostOne job times r (ready content) sent w q =
      quiet_bind (AtMostOne job.delivery_id sent) sent (ask kind svc db (svc.present r) w) _
        (λ v e. inl e) (ask-Quiet (svc.present r) w ∙ q)
        (λ presentation v e.
          quiet_bind (AtMostOne job.delivery_id sent) sent
            (ask kind svc db (svc.is_active job.tenant_id) v) _ (λ u x. inl x)
            (ask-Quiet (svc.is_active job.tenant_id) v ∙ e)
            (λ entitled u x. dispatch-AtMostOne job times _ entitled sent u x))
  deliver-AtMostOne job times r unauthorized sent w q =
      inl (persist_terminal-Quiet db job _ _ w ∙ q)
  deliver-AtMostOne job times r disabled sent w q = inl (persist_terminal-Quiet db job _ _ w ∙ q)
  deliver-AtMostOne job times r (Prepared.other s) sent w q =
      inl (persist_terminal-Quiet db job _ _ w ∙ q)

  attempt-AtMostOne :
      (job : JobData) (times : Instants) (b : Bool) (sent : List Key) (w : World Subject Outside)
      → w.sent ≡ sent
      → AtMostOne job.delivery_id sent (attempt kind svc db job times b w).1
  unfolding attempt attempt_loaded
  attempt-AtMostOne job times false sent w q =
      inl (persist_terminal-Quiet db job (codes "policy") (codes "entitlement-inactive") w ∙ q)
  attempt-AtMostOne job times true sent w q = loaded (load kind svc db job w)
    where
      loaded :
          (o : Option (Recipient × Delivery Subject))
          → AtMostOne job.delivery_id sent (attempt_loaded kind svc db job times o w).1
      loaded none = inl (persist_terminal-Quiet db job _ _ w ∙ q)
      loaded (some (r, d)) =
          quiet_bind (AtMostOne job.delivery_id sent) sent (ask kind svc db (svc.prepare r d) w) _
            (λ v e. inl e) (ask-Quiet (svc.prepare r d) w ∙ q)
            (λ p v e. deliver-AtMostOne job times r p sent v e)

  claimed-AtMostOne :
      (job : JobData) (times : Instants) (sent : List Key) (w : World Subject Outside)
      → w.sent ≡ sent
      → AtMostOne job.delivery_id sent (process_claimed kind svc db job times w).1
  unfolding process_claimed
  claimed-AtMostOne job times sent w q =
      quiet_bind (AtMostOne job.delivery_id sent) sent
        (ask kind svc db (svc.is_active job.tenant_id) w) _ (λ v e. inl e)
        (ask-Quiet (svc.is_active job.tenant_id) w ∙ q)
        (λ b v e. attempt-AtMostOne job times b sent v e)

  -- A call of `process` hands the message of its delivery to the bot at most once, and only where
  -- the call has claimed the delivery; whether it returns or throws, no other message is sent.
  pub process-AtMostOne :
      (fields : JobFields) (times : Instants) (w : World Subject Outside)
      → ((process kind svc db fields times w).1.sent ≡ w.sent)
        ⊎ ((job : JobData) × (validate_job_data fields ≡ ok job)
            × ((claim db job times.claimed_at w).0 ≡ ok 1)
            × ((process kind svc db fields times w).1.sent ≡ job.delivery_id ∷ w.sent))
  unfolding process claim write_deliveries
  process-AtMostOne fields times w = validated (validate_job_data fields) refl
    where
      validated :
          (r : Result Thrown JobData)
          → validate_job_data fields ≡ r
          → ((process kind svc db fields times w).1.sent ≡ w.sent)
            ⊎ ((job : JobData) × (validate_job_data fields ≡ ok job)
                × ((claim db job times.claimed_at w).0 ≡ ok 1)
                × ((process kind svc db fields times w).1.sent ≡ job.delivery_id ∷ w.sent))
      validated (err e) v = inl (rw (v, process) refl)
      validated (ok job) v =
          let c = db.update_many (claimable job) (take_off times.claimed_at) w.deliveries in
          let w' = record w { deliveries = c.0 } in
          elim (Bool-cases (c.1 == 1)) [
            | inr n ↦ inl (rw (v, n, process) (resolve_unclaimed-Quiet db job w'))
            | inl y ↦ elim (claimed-AtMostOne job times w.sent w' refl) [
              | inl q ↦ inl (rw (v, y, process) q)
              | inr q ↦ inr (job, v, ap ok (ground arith), rw (v, y, process) q)
            ]
          ]

  -- Where no two deliveries have the same identifier: a job for a delivery that, when the job starts, has
  -- an attempt on the way, has been delivered, or has failed for good or with an unknown outcome, sends
  -- no message.
  process_no_resend :
      (fields : JobFields) (times : Instants) (w : World Subject Outside) (job : JobData)
      (d : Delivery Subject)
      → HasKeys (λ x. x.id) w.deliveries
      → validate_job_data fields ≡ ok job
      → Memᴰ d w.deliveries
      → of_job job d ≡ true
      → is_waiting d.state ≡ false
      → (process kind svc db fields times w).1.sent ≡ w.sent
  unfolding claim write_deliveries
  process_no_resend fields times w job d keys v m o n = elim (process-AtMostOne fields times w) [
    | inl q ↦ q
    | inr (job', v', c, q) ↦
        let same : job' ≡ job = ap (job_of job) (sym v' ∙ v) in
        let zero : (db.update_many (claimable job) (take_off times.claimed_at) w.deliveries).1 ≡ 0 =
          db.update_many_count (claimable job) (take_off times.claimed_at) w.deliveries
          ∙ count_where_none (claimable job) w.deliveries none_waits in
        let one : (db.update_many (claimable job) (take_off times.claimed_at) w.deliveries).1 ≡ 1 =
          ap count_of (subst (λ j. (claim db j times.claimed_at w).0 ≡ ok 1) same c) in
        absurd (omega (arith, zero, one))
  ]
    where
      count_of : Result Thrown ℕ → ℕ
      count_of (ok k) = k
      count_of (err e) = 0

      job_of : JobData → Result Thrown JobData → JobData
      job_of j (ok k) = k
      job_of j (err e) = j

      none_waits : (r : Delivery Subject) → Memᴰ r w.deliveries → claimable job r ≡ false
      none_waits r i = elim (Bool-cases (claimable job r)) [
        | inr k ↦ k
        | inl k ↦
            let e : r ≡ d = keys r d i m (ground arith) in
            absurd (
              cc (
                n,
                (let h : is_waiting r.state ≡ true = ground arith in
                    ap (λ x. is_waiting x.state) (sym e) ∙ h),
              ))
      ]
