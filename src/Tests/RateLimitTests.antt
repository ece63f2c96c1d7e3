-- ===== src/Tests/RateLimitTests.antt =====
-- A Redis that keeps the keys that it counted, and a limiter of two requests.
use media_service_m.Prelude.{
  ℕ, suc, ◌+◌, ◌-◌, ◌≤◌, true, none, some, List, [], ◌∷◌, ◌≡◌, refl, arith, Text, codes, text_eq,
  text_eq_refl, if◌then◌else◌,
}
use media_service_m.RateLimit.{
  Redis, RedisConfig, RateLimiter, fail_closed, user_key, apply, check_window, redis_key, ip_key,
}
use media_service_m.RateLimit.Window.{
  IsCounter, Call, own, any_other, passes, own_count, passes-IsBounded,
}

times : Text → List Text → ℕ
times key [] = 0
times key (k ∷ log) = (if text_eq k key then 1 else 0) + times key log

abbrev log_redis : Redis (List Text)
log_redis = record {
  incr = λ key log. (some (suc (times key log)), key ∷ log);
  expire = λ key seconds log. (true, log);
}

log_redis-IsCounter : IsCounter log_redis times
unfolding times
log_redis-IsCounter = record {
  incr_returns = λ key log c e. (ground arith, ground (arith, text_eq_refl key));
  incr_grows = λ key other log. ground arith;
  expire_keeps = λ key other seconds log. refl;
}

abbrev config : RedisConfig
config = record { namespace = codes "media"; is_printable = λ c. true }

abbrev two_a_minute : RateLimiter
two_a_minute = record {
  action = codes "list";
  limit = 2;
  window_seconds = 60;
  failure_mode = some fail_closed;
}

abbrev alice_id : Text
alice_id = codes "1"

abbrev home : Text
home = codes "10.0.0.7"

abbrev three_calls : List Call
three_calls = own (some home) ∷ own none ∷ any_other two_a_minute none none ∷ own (some home) ∷ []

three_calls_pass : passes log_redis config fail_closed two_a_minute alice_id three_calls [] ≡ 2
unfolding passes apply check_window ip_key user_key redis_key times text_eq
three_calls_pass = refl

passes-IsBounded_example :
    passes log_redis config fail_closed two_a_minute alice_id three_calls []
    ≤ 2 - own_count log_redis times log_redis-IsCounter config fail_closed two_a_minute alice_id []
passes-IsBounded_example =
    passes-IsBounded log_redis times log_redis-IsCounter config fail_closed two_a_minute alice_id
      refl three_calls []
