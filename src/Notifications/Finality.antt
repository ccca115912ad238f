-- ===== src/Notifications/Finality.antt =====
-- That a delivery that is over is never sent again, by whatever calls of `process` and `markFailed`.
use wctm.Prelude.{
  ℕ, ◌+◌, Key, ◌≡◌, refl, sym, ap, ◌∙◌, inl, inr, true, List, [], ◌∷◌, Memᴰ, arith, Bool-cases,
  ◌==◌, Result, ok, err, Action, ⊤, if◌then◌else◌,
}
use wctm.Database.Rows.{All-mem, mem-All, count_where-found}
use wctm.Database.Methods.{Client}
use wctm.Database.Keys.{HasKeys}
use wctm.Notifications.State.{Delivery, JobData, is_waiting, is_final, claimable, take_off}
use wctm.Notifications.Processor.{
  Kind, Services, World, JobFields, Instants, Thrown, validate_job_data, write_deliveries, claim,
  process, mark_failed,
}
use wctm.Notifications.Sends.{process-AtMostOne}
use wctm.Notifications.Kept.{Fixed, Keeps, mark_failed-Keeps, process-Keeps}

-- How often the message of a delivery has been handed to the bot.
unfoldable pub times_sent : Key → List Key → ℕ
times_sent k [] = 0
times_sent k (x ∷ xs) = (if x == k then 1 else 0) + times_sent k xs

-- A call of `process` or of `markFailed`.
pub data Call : Type 0 where
  runs : JobFields → Instants → Call
  gives_up : JobFields → Call

module _ {Subject Outside : Type 0} (kind : Kind Subject) (svc : Services Subject Outside)
    (db : Client (Delivery Subject)) where
  abbrev finished :
      {A : Type 0}
      → Result Thrown A × World Subject Outside
      → Result Thrown ⊤ × World Subject Outside
  finished (r, w) = (ok tt, w)

  abbrev pub call : Call → Action Thrown (World Subject Outside) ⊤
  call (runs fields times) w = finished (process kind svc db fields times w)
  call (gives_up fields) w = mark_failed db fields w

  -- What calls leave, one after another.
  abbrev pub calls : List Call → World Subject Outside → World Subject Outside
  calls [] w = w
  calls (c ∷ cs) w = calls cs (call c w).1

module _ {Subject Outside : Type 0} (kind : Kind Subject) (svc : Services Subject Outside)
    (db : Client (Delivery Subject)) (d : Delivery Subject) (over : is_final d.state ≡ true) where
  -- A job does not send the delivery.
  not_sent :
      (fields : JobFields) (times : Instants) (w : World Subject Outside)
      → Fixed db d w
      → times_sent d.id (process kind svc db fields times w).1.sent ≡ times_sent d.id w.sent
  unfolding claim write_deliveries times_sent
  not_sent fields times w h = elim (process-AtMostOne kind svc db fields times w) [
    | inl q ↦ ap (times_sent d.id) q
    | inr (job, v, c, q) ↦ ap (times_sent d.id) q ∙ elim (Bool-cases (job.delivery_id == d.id)) [
      | inr n ↦ rw n (omega arith)
      | inl y ↦
          let (x, m, t) = count_where-found (claimable job) w.deliveries (
            ground (
              arith,
              db.update_many_count (claimable job) (take_off times.claimed_at) w.deliveries,
            )) in
          let e : x ≡ d = All-mem (λ x. x.id ≡ d.id → x ≡ d) x w.deliveries h m (ground arith) in
          let waits : is_waiting d.state ≡ true =
            ap (λ z. is_waiting z.state) (sym e) ∙ ground arith in
          absurd (ground arith)
    ]
  ]

  mark_failed_sent :
      (fields : JobFields) (w : World Subject Outside) → (mark_failed db fields w).1.sent ≡ w.sent
  unfolding mark_failed write_deliveries
  mark_failed_sent fields w = validated (validate_job_data fields) refl
    where
      validated :
          (r : Result Thrown JobData)
          → validate_job_data fields ≡ r
          → (mark_failed db fields w).1.sent ≡ w.sent
      validated (err e) v = rw (v, mark_failed) refl
      validated (ok job) v = rw (v, mark_failed) refl

  call-Keeps : (c : Call) → Keeps db d (call kind svc db c)
  call-Keeps (runs fields times) w h = process-Keeps kind svc db d over fields times w h
  call-Keeps (gives_up fields) w h = mark_failed-Keeps db d over fields w h

  Fixed-not_sent :
      (cs : List Call) (w : World Subject Outside)
      → Fixed db d w
      → times_sent d.id (calls kind svc db cs w).sent ≡ times_sent d.id w.sent
  Fixed-not_sent [] w h = refl
  Fixed-not_sent (c ∷ cs) w h = Fixed-not_sent cs _ (call-Keeps c w h) ∙ once c
    where
      once : (c : Call) → times_sent d.id (call kind svc db c w).1.sent ≡ times_sent d.id w.sent
      once (runs fields times) = not_sent fields times w h
      once (gives_up fields) = ap (times_sent d.id) (mark_failed_sent fields w)

  -- Where no two deliveries have the same identifier: once a delivery has been delivered, or has
  -- failed for good or with an unknown outcome, no sequence of jobs and of calls of `markFailed`, one
  -- after another and for any deliveries, hands its message to the bot again.
  pub final_not_sent :
      (cs : List Call) (w : World Subject Outside)
      → HasKeys (λ x. x.id) w.deliveries
      → Memᴰ d w.deliveries
      → times_sent d.id (calls kind svc db cs w).sent ≡ times_sent d.id w.sent
  final_not_sent cs w keys m =
      Fixed-not_sent cs w
        (mem-All (λ x. x.id ≡ d.id → x ≡ d) w.deliveries (λ x n e. keys x d n m e))
