-- ===== src/Limits/Tests.antt =====
-- Updates and requests at small bounds.
use wctm.Prelude.{
  ℕ, ◌+◌, ◌-◌, ◌≤◌, ◌≡◌, refl, Text, codes, text_eq, true, false, [], ◌∷◌, arith, if◌then◌else◌,
}
use wctm.Limits.{
  accept, accept_all, Redis, Configuration, Request, login, register, window_key, passes,
}
use wctm.Limits.Repeats.{accept_no_repeat}
use wctm.Limits.Counting.{passes_bounded}

first_call : (accept 2 7 []).0 ≡ true
unfolding accept
first_call = refl

other_calls : (accept_all 2 (7 ∷ 8 ∷ 8 ∷ []) (accept 2 7 []).1).1 ≡ 1
unfolding accept accept_all
other_calls = refl

accept_no_repeat_example :
    (accept 2 7 (accept_all 2 (7 ∷ 8 ∷ 8 ∷ []) (accept 2 7 []).1).0).0 ≡ false
accept_no_repeat_example =
    accept_no_repeat 2 7 [] (7 ∷ 8 ∷ 8 ∷ []) (omega arith) first_call (omega (arith, other_calls))

-- A store of counters as a function, which never lapse.
abbrev counters : Redis (Text → ℕ)
counters = record {
  available = λ s. true;
  value = λ k s. s k;
  incr = λ k s. (s k + 1, λ j. if text_eq k j then s j + 1 else s j);
  expire = λ k n s. s;
  incr_answer = λ k s. refl;
  incr_value = λ j k s. refl;
  expire_value = λ j k n s. refl;
}

abbrev configuration : Configuration
configuration = record {
  register_rate_limit = 1;
  register_rate_window_seconds = 60;
  login_rate_limit = 2;
  login_rate_window_seconds = 60;
  plugin_rate_limit = 5;
  plugin_rate_window_seconds = 60;
}

abbrev attempt : Request
attempt = login (codes "a") (codes "b")

passes_bounded_example :
    passes counters configuration
      (window_key attempt)
      (attempt ∷ register (codes "a") (codes "b") ∷ attempt ∷ attempt ∷ [])
      (λ k. 0)
    ≤ 2 - 0
passes_bounded_example =
    passes_bounded counters configuration attempt
      (attempt ∷ register (codes "a") (codes "b") ∷ attempt ∷ attempt ∷ []) (λ k. 0)
