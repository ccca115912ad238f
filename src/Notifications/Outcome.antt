-- ===== src/Notifications/Outcome.antt =====
-- The answer of `process`, against the row of the delivery.
use mathlib.Core.Path.{subst}
use wctm.Prelude.{
  Text, codes, ◌≡◌, refl, ap, inl, inr, Bool, true, false, ◌&&◌, Option, none, some, Memᴰ, arith,
  Bool-cases, Option-cases, ◌==◌, Result, ok, err, Action, bind_result, holds,
}
use wctm.Database.Rows.{count_where-found}
use wctm.Database.Methods.{Client}
use wctm.Database.Keys.{map_where-mem}
use wctm.Notifications.State.{
  DeliveryState, Delivery, JobData, is_in_flight, is_final, claimable, flying, flying_since, of_job,
  take_off, land, fall,
}
use wctm.Notifications.Client.{SendResult}
use wctm.Notifications.Processor.{
  Kind, Services, World, JobFields, Instants, Thrown, Outcome, Prepared, ready, unauthorized,
  disabled, Recipient, Message, validate_job_data, write_deliveries, claim, persist_state,
  persist_terminal, persist_ambiguous, resolve_unclaimed, settle, ask, load, send, dispatch,
  deliver, attempt_loaded, attempt, process_claimed, process,
}

-- The state that an answer stands for.
abbrev pub Matches : Outcome → DeliveryState → Type 0
Matches Outcome.delivered s = s ≡ DeliveryState.delivered
Matches Outcome.terminal_failure s = s ≡ DeliveryState.terminal_failure
Matches Outcome.ambiguous s = s ≡ DeliveryState.ambiguous
Matches Outcome.already_final s = is_final s ≡ true

abbrev or_outcome : Outcome → Result Thrown Outcome → Outcome
or_outcome o (ok q) = q
or_outcome o (err e) = o

and_left : (a b : Bool) → (a && b) ≡ true → a ≡ true
and_left true b h = refl
and_left false b h = cc

module _ {Subject Outside : Type 0} where
  -- The job's delivery is in that state.
  abbrev pub Recorded : JobData → Outcome → World Subject Outside → Type 0
  Recorded job o w =
      (d : Delivery Subject) × Memᴰ d w.deliveries × (of_job job d ≡ true) × Matches o d.state

  abbrev Answer : JobData → Result Thrown Outcome × World Subject Outside → Type 0
  Answer job (ok o, w) = Recorded job o w
  Answer job (err e, w) = Unit

  bind-Answer :
      {A : Type 0} (job : JobData) (r : Result Thrown A × World Subject Outside)
      (f : A → Action Thrown (World Subject Outside) Outcome)
      → ((a : A) (v : World Subject Outside) → r ≡ (ok a, v) → Answer job (f a v))
      → Answer job (bind_result r f)
  bind-Answer job (ok a, v) f h = h a v refl
  bind-Answer job (err e, v) f h = tt

module _ {Subject Outside : Type 0} (db : Client (Delivery Subject)) where
  -- A write that must select a row has selected one.
  written :
      (job : JobData) (p : Delivery Subject → Bool) (f : Delivery Subject → Delivery Subject)
      (o : Outcome) (w : World Subject Outside)
      → ((d : Delivery Subject) → p d ≡ true → (of_job job (f d) ≡ true) × Matches o (f d).state)
      → (db.update_many p f w.deliveries).1 ≡ 1
      → Recorded job o (record w { deliveries = (db.update_many p f w.deliveries).0 })
  written job p f o w matches one =
      let (d, m, s) =
        count_where-found p w.deliveries
          (omega (arith, one, db.update_many_count p f w.deliveries)) in
      (
        f d,
        rw (db.update_many_rows p f w.deliveries) (map_where-mem p f d w.deliveries m s),
        (matches d s).0,
        (matches d s).1,
      )

  persist_terminal-Answer :
      (job : JobData) (category code : Text) (w : World Subject Outside)
      → Answer job (persist_terminal db job category code w)
  unfolding persist_terminal persist_state write_deliveries fall
  persist_terminal-Answer job category code w =
      let f = fall DeliveryState.terminal_failure category code in
      elim (Bool-cases ((db.update_many (flying job) f w.deliveries).1 == 1)) [
        | inl y ↦ rw y (
            written job (flying job) f Outcome.terminal_failure w
              (λ d s. (and_left (of_job job d) (is_in_flight d.state) s, refl)) (ground arith))
        | inr n ↦ rw n tt
      ]

  persist_ambiguous-Answer :
      (job : JobData) (category code : Text) (w : World Subject Outside)
      → Answer job (persist_ambiguous db job category code w)
  unfolding persist_ambiguous persist_state write_deliveries fall
  persist_ambiguous-Answer job category code w =
      let f = fall DeliveryState.ambiguous category code in
      elim (Bool-cases ((db.update_many (flying job) f w.deliveries).1 == 1)) [
        | inl y ↦ rw y (
            written job (flying job) f Outcome.ambiguous w
              (λ d s. (and_left (of_job job d) (is_in_flight d.state) s, refl)) (ground arith))
        | inr n ↦ rw n tt
      ]

  resolve_unclaimed-Answer :
      (job : JobData) (w : World Subject Outside) → Answer job (resolve_unclaimed db job w)
  unfolding resolve_unclaimed
  resolve_unclaimed-Answer job w = elim (Option-cases (db.find_first (of_job job) w.deliveries)) [
    | inl n ↦ rw (n, resolve_unclaimed) tt
    | inr (d, n) ↦
        let (m, s) = db.found (of_job job) w.deliveries d n in
        elim (Bool-cases (is_in_flight d.state)) [
          | inl f ↦
              rw (n, f, resolve_unclaimed)
                (persist_ambiguous-Answer job (codes "dispatch") (codes "in-flight-outcome-unknown")
                  w)
          | inr f ↦ elim (Bool-cases (is_final d.state)) [
            | inl g ↦ rw (n, f, g, resolve_unclaimed) (d, m, s, g)
            | inr g ↦ rw (n, f, g, resolve_unclaimed) tt
          ]
        ]
  ]

  settle-Answer :
      (job : JobData) (times : Instants) (r : SendResult) (w : World Subject Outside)
      → Answer job (settle db job times r w)
  unfolding settle write_deliveries land
  settle-Answer job times (SendResult.delivered id) w =
      let p = flying_since job times.claimed_at in
      let f = land id times.delivered_at in
      elim (Bool-cases ((db.update_many p f w.deliveries).1 == 1)) [
        | inl y ↦ rw y (
            written job p f Outcome.delivered w
              (λ d s. (
                and_left (of_job job d) (is_in_flight d.state)
                    (and_left (flying job d) (holds d.last_attempt_at times.claimed_at) s),
                refl,
              ))
              (ground arith))
        | inr n ↦ rw n tt
      ]
  settle-Answer job times (SendResult.retryable_failure category code) w =
      bind-Answer job (persist_state db job DeliveryState.retryable_failure category code w) _
        (λ a v e. tt)
  settle-Answer job times (SendResult.terminal_failure category code) w =
      persist_terminal-Answer job category code w
  settle-Answer job times (SendResult.ambiguous category code) w =
      persist_ambiguous-Answer job category code w

module _ {Subject Outside : Type 0} (kind : Kind Subject) (svc : Services Subject Outside)
    (db : Client (Delivery Subject)) where
  deliver-Answer :
      (job : JobData) (times : Instants) (r : Recipient) (p : Prepared) (w : World Subject Outside)
      → Answer job (deliver kind svc db job times r p w)
  unfolding deliver dispatch send
  deliver-Answer job times r (ready content) w =
      bind-Answer job (ask kind svc db (svc.present r) w) _ (λ presentation v e.
        bind-Answer job (ask kind svc db (svc.is_active job.tenant_id) v) _ (λ b u e'.
          dispatched
            (record {
              chat_id = r.telegram_chat_id;
              presentation = presentation;
              notification = content;
            })
            b u))
    where
      dispatched :
          (m : Message) (b : Bool) (u : World Subject Outside)
          → Answer job (dispatch kind svc db job times m b u)
      dispatched m false u = persist_terminal-Answer db job _ _ u
      dispatched m true u = settle-Answer db job times _ _
  deliver-Answer job times r unauthorized w = persist_terminal-Answer db job _ _ w
  deliver-Answer job times r disabled w = persist_terminal-Answer db job _ _ w
  deliver-Answer job times r (Prepared.other s) w = persist_terminal-Answer db job _ _ w

  attempt-Answer :
      (job : JobData) (times : Instants) (b : Bool) (w : World Subject Outside)
      → Answer job (attempt kind svc db job times b w)
  unfolding attempt attempt_loaded
  attempt-Answer job times false w = persist_terminal-Answer db job _ _ w
  attempt-Answer job times true w = loaded (load kind svc db job w)
    where
      loaded :
          (o : Option (Recipient × Delivery Subject))
          → Answer job (attempt_loaded kind svc db job times o w)
      loaded none = persist_terminal-Answer db job _ _ w
      loaded (some (r, d)) =
          bind-Answer job (ask kind svc db (svc.prepare r d) w) _
            (λ p v e. deliver-Answer job times r p v)

  -- Whatever `process` answers stands in the row of the job's delivery: delivered, failed for good,
  -- of unknown outcome, or one of these from before.
  pub process-Recorded :
      (fields : JobFields) (times : Instants) (w : World Subject Outside) (o : Outcome)
      → (process kind svc db fields times w).0 ≡ ok o
      → (job : JobData) × (validate_job_data fields ≡ ok job)
        × Recorded job o (process kind svc db fields times w).1
  unfolding process process_claimed claim write_deliveries
  process-Recorded fields times w o h = validated (validate_job_data fields) refl
    where
      of_result :
          (job : JobData) (r : Result Thrown Outcome × World Subject Outside)
          → Answer job r
          → r.0 ≡ ok o
          → Recorded job o r.1
      of_result job (ok q, v) a e = subst (λ x. Recorded job x v) (ap (or_outcome o) e) a
      of_result job (err x, v) a e = absurd (cc (e))

      validated :
          (r : Result Thrown JobData)
          → validate_job_data fields ≡ r
          → (job : JobData) × (validate_job_data fields ≡ ok job)
            × Recorded job o (process kind svc db fields times w).1
      validated (err e) v = absurd (cc (let k = rw (v, process) at h in k))
      validated (ok job) v =
          let c = db.update_many (claimable job) (take_off times.claimed_at) w.deliveries in
          let w' = record w { deliveries = c.0 } in
          elim (Bool-cases (c.1 == 1)) [
            | inr n ↦ (
              job,
              v,
              rw (v, n, process)
                  (of_result job (resolve_unclaimed db job w') (resolve_unclaimed-Answer db job w')
                    (rw (v, n, process) at h)),
            )
            | inl y ↦ (
              job,
              v,
              rw (v, y, process)
                  (of_result job (process_claimed kind svc db job times w')
                    (bind-Answer job (ask kind svc db (svc.is_active job.tenant_id) w') _
                      (λ b u e. attempt-Answer job times b u))
                    (rw (v, y, process) at h)),
            )
          ]
