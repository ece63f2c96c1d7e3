-- ===== src/RateLimit/Window.antt =====
-- How many requests one window of media_service/core/rate_limit.py lets through.
use media_service_m.Prelude.{
  ℕ, suc, ◌+◌, ◌*◌, ◌-◌, ◌≤◌, Option, none, some, List, [], ◌∷◌, ◌≡◌, refl, inl, inr, arith, Text,
  Option-cases, max, ◌⊎◌,
}
use media_service_m.Effect.{Error}
use media_service_m.RateLimit.{
  Redis, RedisConfig, RateLimiter, FailureMode, Check, Verdict, check_window, ip_key, user_key,
  apply, resolve_failure_mode, within, exceeded, redis_error, pass, refuse, fail_closed,
  ip_limit_factor, settled, then_ip,
}

-- The counter of a key while its window lasts: INCR that returns counts one up and says so, and
-- nothing counts down; a call that raised may have counted.
pub record IsCounter {N : Type 0} (redis : Redis N) (count : Text → N → ℕ) : Type 0 where
  pub incr_returns :
      (key : Text) (n : N) (c : ℕ)
      → (redis.incr key n).0 ≡ some c
      → (c ≡ suc (count key n)) × (count key (redis.incr key n).1 ≡ suc (count key n))
  pub incr_grows : (key other : Text) (n : N) → count other n ≤ count other (redis.incr key n).1
  pub expire_keeps :
      (key other : Text) (seconds : ℕ) (n : N)
      → count other (redis.expire key seconds n).1 ≡ count other n

verdict-cases : (v : Verdict) → (v ≡ pass) ⊎ ((e : Error) × (v ≡ refuse e))
verdict-cases pass = inl refl
verdict-cases (refuse e) = inr (e, refl)

-- A request: by the user at the limiter, or any other request at any limiter.
pub data Call : Type 0 where
  own : Option Text → Call
  any_other : RateLimiter → Option Text → Option Text → Call

abbrev one_if_pass : Verdict → ℕ
one_if_pass pass = 1
one_if_pass (refuse e) = 0

module _ {N : Type 0} (redis : Redis N) (config : RedisConfig) (setting : FailureMode)
    (r : RateLimiter) (u : Text) where
  -- How many of the user's requests pass, in the order that they arrive.
  unfoldable pub passes : List Call → N → ℕ
  passes [] n = 0
  passes (own peer ∷ calls) n =
      let done = apply redis config setting r peer (some u) n in
      one_if_pass done.0 + passes calls done.1
  passes (any_other r' peer u' ∷ calls) n = passes calls (apply redis config setting r' peer u' n).1

module _ {N : Type 0} (redis : Redis N) (count : Text → N → ℕ) (laws : IsCounter redis count) where
  check_window-grows :
      (key : Text) (limit window : ℕ) (n : N) (other : Text)
      → count other n ≤ count other (check_window redis key limit window n).1
  unfolding check_window
  check_window-grows key limit window n other =
      ground (
        arith,
        laws.incr_grows key other n,
        laws.expire_keeps key other window (redis.incr key n).1,
      )

  check_window-within :
      (key : Text) (limit window : ℕ) (n : N)
      → (check_window redis key limit window n).0 ≡ within
      → (suc (count key n) ≤ limit)
        × (suc (count key n) ≤ count key (check_window redis key limit window n).1)
  unfolding check_window
  check_window-within key limit window n h = elim (Option-cases (redis.incr key n).0) [
    | inl raised ↦ absurd (ground arith)
    | inr (c, e) ↦
        let returned = laws.incr_returns key n c e in
        let same = laws.expire_keeps key key window (redis.incr key n).1 in
        (ground (arith, returned.0, e), ground (arith, returned.1, same, e))
  ]

  module _ (config : RedisConfig) (setting : FailureMode) where
    settled-state : (mode : FailureMode) (q : Check × N) → (settled mode q).1 ≡ q.1
    settled-state mode (within, n) = refl
    settled-state mode (exceeded, n) = refl
    settled-state mode (redis_error, n) = refl

    then_ip-grows :
        (r : RateLimiter) (peer : Option Text) (q : Check × N) (other : Text)
        → count other q.1 ≤ count other (then_ip redis config setting r peer q).1
    then_ip-grows r peer (exceeded, n) other = omega arith
    then_ip-grows r peer (redis_error, n) other = omega arith
    then_ip-grows r peer (within, n) other =
        let key = ip_key redis config setting r peer in
        let checked = check_window redis key (r.limit * ip_limit_factor) r.window_seconds n in
        rw (settled-state (resolve_failure_mode setting r.failure_mode) checked)
          (check_window-grows key (r.limit * ip_limit_factor) r.window_seconds n other)

    apply-grows :
        (r : RateLimiter) (peer u : Option Text) (n : N) (other : Text)
        → count other n ≤ count other (apply redis config setting r peer u n).1
    unfolding apply
    apply-grows r peer none n other = then_ip-grows r peer (within, n) other
    apply-grows r peer (some u) n other =
        let key = user_key redis config setting r u in
        omega (
          arith,
          check_window-grows key r.limit r.window_seconds n other,
          then_ip-grows r peer (check_window redis key r.limit r.window_seconds n) other,
        )

    then_ip-pass :
        (r : RateLimiter) (peer : Option Text) (q : Check × N)
        → resolve_failure_mode setting r.failure_mode ≡ fail_closed
        → (then_ip redis config setting r peer q).0 ≡ pass
        → q.0 ≡ within
    then_ip-pass r peer (exceeded, n) closed h = cc
    then_ip-pass r peer (redis_error, n) closed h = cc (rw closed at h)
    then_ip-pass r peer (within, n) closed h = refl

    -- A request of the user that passes is one of the first `limit`.
    apply-pass :
        (r : RateLimiter) (peer : Option Text) (u : Text) (n : N)
        → resolve_failure_mode setting r.failure_mode ≡ fail_closed
        → (apply redis config setting r peer (some u) n).0 ≡ pass
        → (suc (count (user_key redis config setting r u) n) ≤ r.limit)
          × (suc (count (user_key redis config setting r u) n)
              ≤ count
                  (user_key redis config setting r u)
                  (apply redis config setting r peer (some u) n).1)
    unfolding apply
    apply-pass r peer u n closed h =
        let key = user_key redis config setting r u in
        let checked = check_window redis key r.limit r.window_seconds n in
        let passed =
          check_window-within key r.limit r.window_seconds n
            (then_ip-pass r peer checked closed h) in
        (passed.0, omega (arith, passed.1, then_ip-grows r peer checked key))

    module _ (r : RateLimiter) (u : Text) where
      abbrev pub own_count : N → ℕ
      own_count n = count (user_key redis config setting r u) n

      passes-le :
          resolve_failure_mode setting r.failure_mode ≡ fail_closed
          → (calls : List Call) (n : N)
          → passes redis config setting r u calls n + own_count n ≤ max r.limit (own_count n)
      unfolding passes
      passes-le closed [] n = omega arith
      passes-le closed (any_other r' peer u' ∷ calls) n = omega (
        arith,
        passes-le closed calls (apply redis config setting r' peer u' n).1,
        apply-grows r' peer u' n (user_key redis config setting r u),
      )
      passes-le closed (own peer ∷ calls) n =
          elim (verdict-cases (apply redis config setting r peer (some u) n).0) [
            | inl passed ↦ rw passed (
                omega (
                  arith,
                  passes-le closed calls (apply redis config setting r peer (some u) n).1,
                  apply-pass r peer u n closed passed,
                ))
            | inr (e, refused) ↦ rw refused (
                omega (
                  arith,
                  passes-le closed calls (apply redis config setting r peer (some u) n).1,
                  apply-grows r peer (some u) n (user_key redis config setting r u),
                ))
          ]

      -- While a window lasts, a limiter that fails closed lets at most `limit` requests of a user
      -- through, whatever other requests, of any caller at any limiter, come in between and wherever
      -- Redis raises: less what the window had counted before.
      pub passes-IsBounded :
          resolve_failure_mode setting r.failure_mode ≡ fail_closed
          → (calls : List Call) (n : N)
          → passes redis config setting r u calls n ≤ r.limit - own_count n
      passes-IsBounded closed calls n = omega (arith, passes-le closed calls n)
