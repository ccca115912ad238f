-- ===== src/Notifications/Answers.antt =====
-- When `TelegramDeliveryClient` says that a message may be sent again.
use wctm.Prelude.{
  ◌≤◌, Text, codes, ◌≡◌, refl, inl, inr, true, false, ◌&&◌, Option, none, some, arith, Bool-cases,
  ◌==◌, leb, ◌||◌, text_eq_sound, ap,
}
use wctm.Notifications.Client.{
  retryable_failure, Body, Answer, is_outcome, is_category, is_code, is_message_id, failure_result,
  parse_failure, parse_body, parse_delivery_result, send_result,
}

-- The body of an answer says that the message failed and may be sent again.
abbrev pub SaysRetryable : Option Body → Type 0
SaysRetryable none = absurd_type
  where
    absurd_type : Type 0
    absurd_type = true ≡ false
SaysRetryable (some b) = b.outcome ≡ some (codes "retryable_failure")

outcome_lem : (o : Option Text) (t : Text) → is_outcome o t ≡ true → o ≡ some t
outcome_lem none t h = cc
outcome_lem (some s) t h = ap some (text_eq_sound s t h)

failure_lem :
    (o : Option Text) (c k category code : Text)
    → failure_result o c k ≡ retryable_failure category code
    → o ≡ some (codes "retryable_failure")
failure_lem o c k category code h = elim (Bool-cases (is_category c && is_code k)) [
  | inr n ↦ cc (let u = rw n at h in u)
  | inl y ↦ elim (Bool-cases (is_outcome o (codes "retryable_failure"))) [
    | inl r ↦ outcome_lem o (codes "retryable_failure") r
    | inr r ↦ elim (Bool-cases (is_outcome o (codes "terminal_failure"))) [
      | inl q ↦ cc (let u = rw (y, r, q) at h in u)
      | inr q ↦ elim (Bool-cases (is_outcome o (codes "ambiguous"))) [
        | inl p ↦ cc (let u = rw (y, r, q, p) at h in u)
        | inr p ↦ cc (let u = rw (y, r, q, p) at h in u)
      ]
    ]
  ]
]

parse_failure_lem :
    (o : Option Text) (c k : Option Text) (category code : Text)
    → parse_failure o c k ≡ retryable_failure category code
    → o ≡ some (codes "retryable_failure")
parse_failure_lem o none k category code h = cc
parse_failure_lem o (some c) none category code h = cc
parse_failure_lem o (some c) (some k) category code h = failure_lem o c k category code h

parse_body_lem :
    (o i c k : Option Text) (category code : Text)
    → parse_body o i c k ≡ retryable_failure category code
    → o ≡ some (codes "retryable_failure")
parse_body_lem o none c k category code h = parse_failure_lem o c k category code h
parse_body_lem o (some i) c k category code h =
    elim (Bool-cases (is_outcome o (codes "delivered") && is_message_id i)) [
      | inl y ↦ cc (let u = rw y at h in u)
      | inr n ↦ parse_failure_lem o c k category code (rw n at h)
    ]

parse_lem :
    (b : Option Body) (category code : Text)
    → parse_delivery_result b ≡ retryable_failure category code
    → SaysRetryable b
unfolding parse_delivery_result
parse_lem none category code h = cc
parse_lem (some b) category code h =
    parse_body_lem b.outcome b.message_id b.category b.code category code h

-- The client calls a failure retryable only where the bot has answered so, with a status from 200 to
-- 299: not where the request fails or is cut off, nor where the answer cannot be read.
pub send_result_retryable :
    (a : Option Answer) (category code : Text)
    → send_result a ≡ retryable_failure category code
    → (x : Answer) × (a ≡ some x) × (200 ≤ x.status) × (x.status ≤ 299) × SaysRetryable x.body
unfolding send_result
send_result_retryable none category code h = cc
send_result_retryable (some a) category code h =
    elim (Bool-cases (a.status == 401 || a.status == 403)) [
      | inl y ↦ cc (let u = rw y at h in u)
      | inr n ↦ elim (Bool-cases (a.status == 400)) [
        | inl y ↦ cc (let u = rw (n, y) at h in u)
        | inr m ↦ elim (Bool-cases (leb 200 a.status && leb a.status 299)) [
          | inr k ↦ cc (let u = rw (n, m, k) at h in u)
          | inl k ↦ (
            a,
            refl,
            ground arith,
            ground arith,
            parse_lem a.body category code (rw (n, m, k) at h),
          )
        ]
      ]
    ]
