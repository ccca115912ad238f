-- ===== src/Limits/Window.antt =====
-- `incrementFixedWindow`, over Redis, and the limiters `PluginRegistrationRateLimiter` and
-- `PublicAuthRateLimiter`. A hash is a text; hashing is the caller's.
use wctm.Prelude.{
  ℕ, ◌+◌, ◌≡◌, Text, codes, text_eq, Bool, true, false, List, [], ◌∷◌, ◌++◌, ◌==◌, ltb, take,
  if◌then◌else◌, Result, ok, err, Action, ⊤,
}

-- What the script calls of Redis, between two lapses of its keys. `value` is the number at a key, or
-- 0; `available` says whether a command can be run.
pub record Redis (S : Type 0) : Type 0 where
  pub available : S → Bool
  pub value : Text → S → ℕ
  -- `INCR`
  pub incr : Text → S → ℕ × S
  -- `EXPIRE`
  pub expire : Text → ℕ → S → S
  pub incr_answer : (k : Text) (s : S) → (incr k s).0 ≡ value k s + 1
  pub incr_value :
      (j k : Text) (s : S)
      → value j (incr k s).1 ≡ (if text_eq k j then value j s + 1 else value j s)
  pub expire_value : (j k : Text) (n : ℕ) (s : S) → value j (expire k n s) ≡ value j s

pub data Error : Type 0 where
  counter_failed service_unavailable too_many_requests : Error

-- `configuration.publicAuth` and `configuration.pluginRegistration`
pub record Configuration : Type 0 where
  pub register_rate_limit : ℕ
  pub register_rate_window_seconds : ℕ
  pub login_rate_limit : ℕ
  pub login_rate_window_seconds : ℕ
  pub plugin_rate_limit : ℕ
  pub plugin_rate_window_seconds : ℕ

-- A call of a limiter, with the hashes of what it is given.
pub data Request : Type 0 where
  plugin_registration : (ip_hash token_hash : Text) → Request
  register login : (ip_hash email_hash : Text) → Request

unfoldable pub window_key : Request → Text
window_key (plugin_registration ip token) =
    codes "plugin-registration:" ++ ip ++ codes ":" ++ take 16 token
window_key (register ip email) =
    codes "public-auth:" ++ codes "register" ++ codes ":" ++ ip ++ codes ":" ++ email
window_key (login ip email) =
    codes "public-auth:" ++ codes "login" ++ codes ":" ++ ip ++ codes ":" ++ email

abbrev pub limit_of : Configuration → Request → ℕ
limit_of c (plugin_registration ip token) = c.plugin_rate_limit
limit_of c (register ip email) = c.register_rate_limit
limit_of c (login ip email) = c.login_rate_limit

abbrev pub window_of : Configuration → Request → ℕ
window_of c (plugin_registration ip token) = c.plugin_rate_window_seconds
window_of c (register ip email) = c.register_rate_window_seconds
window_of c (login ip email) = c.login_rate_window_seconds

module _ {S : Type 0} (redis : Redis S) where
  -- `incrementFixedWindow`
  unfoldable pub increment_fixed_window : Text → ℕ → Action Error S ℕ
  increment_fixed_window key seconds s =
      if redis.available s then counted (redis.incr key s) else (err counter_failed, s)
    where
      counted : ℕ × S → Result Error ℕ × S
      counted (n, t) =
          let u = if n == 1 then redis.expire key seconds t else t in
          if ltb n 1 then (err counter_failed, u) else (ok n, u)

  -- The `catch` and the comparison of `assertAllowed`.
  abbrev pub within : ℕ → Result Error ℕ × S → Result Error ⊤ × S
  within limit (err e, t) = (err service_unavailable, t)
  within limit (ok n, t) = if ltb limit n then (err too_many_requests, t) else (ok tt, t)

  -- `assertAllowed` of the two limiters
  unfoldable pub assert_allowed : Configuration → Request → Action Error S ⊤
  unfolding increment_fixed_window
  assert_allowed c r s =
      within (limit_of c r) (increment_fixed_window (window_key r) (window_of c r) s)

  abbrev pub is_ok : Result Error ⊤ → Bool
  is_ok (ok x) = true
  is_ok (err e) = false

  -- The number of the requests that pass, among those that are counted at a key.
  unfoldable pub passes : Configuration → Text → List Request → S → ℕ
  unfolding assert_allowed
  passes c k [] s = 0
  passes c k (r ∷ rs) s =
      let (a, t) = assert_allowed c r s in
      (if text_eq (window_key r) k then if is_ok a then 1 else 0 else 0) + passes c k rs t
