-- ===== src/Limits/Counting.antt =====
-- How many requests the limiters let pass in one window.
use wctm.Prelude.{
  ◌+◌, ◌-◌, ◌≤◌, ◌≡◌, refl, ap, ◌∙◌, inl, inr, Text, text_eq, text_eq_sound, true, ◌&&◌, List, [],
  ◌∷◌, arith, Bool-cases, if◌then◌else◌,
}
use wctm.Limits.{
  Redis, Configuration, Request, plugin_registration, register, login, window_key, limit_of,
  window_of, increment_fixed_window, assert_allowed, is_ok, passes,
}

-- Requests that are counted at the same key have the same limit.
same_limit :
    (c : Configuration) (r q : Request)
    → text_eq (window_key r) (window_key q) ≡ true
    → limit_of c r ≡ limit_of c q
unfolding window_key
same_limit c (plugin_registration i t) (plugin_registration j u) h = refl
same_limit c (register i t) (register j u) h = refl
same_limit c (login i t) (login j u) h = refl
same_limit c (plugin_registration i t) (register j u) h = cc
same_limit c (plugin_registration i t) (login j u) h = cc
same_limit c (register i t) (plugin_registration j u) h = cc
same_limit c (login i t) (plugin_registration j u) h = cc
same_limit c (register i t) (login j u) h = cc
same_limit c (login i t) (register j u) h = cc

module _ {S : Type 0} (redis : Redis S) where
  -- What one request leaves at a key.
  value-assert_allowed :
      (c : Configuration) (r : Request) (k : Text) (s : S)
      → redis.value k (assert_allowed redis c r s).1 ≡ (
          if redis.available s && text_eq (window_key r) k
          then redis.value k s + 1
          else redis.value k s)
  unfolding assert_allowed increment_fixed_window
  value-assert_allowed c r k s = elim (Bool-cases (redis.available s)) [
    | inr n ↦ rw n refl
    | inl y ↦
        let key = window_key r in
        let (n, t) = redis.incr key s in
        let v = redis.incr_value k key s in
        let e = redis.expire_value k key (window_of c r) t in ground arith
  ]

  -- A request passes only where its number is within its limit.
  assert_allowed_ok :
      (c : Configuration) (r : Request) (s : S)
      → is_ok redis (assert_allowed redis c r s).0 ≡ true
      → (redis.available s ≡ true) × (redis.value (window_key r) s + 1 ≤ limit_of c r)
  unfolding assert_allowed increment_fixed_window
  assert_allowed_ok c r s h =
      let a = redis.incr_answer (window_key r) s in (ground arith, ground arith)

  -- Of the requests that are counted at the key of a request, no more pass in one window than the
  -- limit leaves, whatever other requests come between them and whichever of them find no Redis.
  pub passes_bounded :
      (c : Configuration) (q : Request) (rs : List Request) (s : S)
      → passes redis c (window_key q) rs s ≤ limit_of c q - redis.value (window_key q) s
  unfolding passes
  passes_bounded c q [] s = omega arith
  passes_bounded c q (r ∷ rs) s =
      let k = window_key q in
      let v = value-assert_allowed c r k s in
      let ih = passes_bounded c q rs (assert_allowed redis c r s).1 in
      elim (Bool-cases (text_eq (window_key r) k)) [
        | inr n ↦ ground arith
        | inl y ↦ elim (Bool-cases (is_ok redis (assert_allowed redis c r s).0)) [
          | inr m ↦ ground arith
          | inl m ↦
              let (av, le) = assert_allowed_ok c r s m in
              let at : redis.value (window_key r) s ≡ redis.value k s =
                ap (λ x. redis.value x s) (text_eq_sound (window_key r) k y) in
              let next : redis.value k (assert_allowed redis c r s).1 ≡ redis.value k s + 1 =
                v ∙ rw (av, y) refl in
              rw (y, m) (omega (arith, ih, next, le, at, same_limit c r q y))
        ]
      ]
