-- ===== src/RateLimit.antt =====
-- The fixed-window limiters of media_service/core/rate_limit.py. Redis is a parameter: a call that
-- raises answers `none` or `false` beside the state that it left.
pub mod Window
use media_service_m.Prelude.{
  ℕ, ◌*◌, Bool, true, false, Option, none, some, ◌==◌, ltb, if◌then◌else◌, Text, codes, take,
  filter, ◌++◌, [], ◌∷◌,
}
use mathlib.Core.List.{reverse}
use media_service_m.Effect.{Error, http, rate_limited, limiter_unavailable}

pub record Redis (N : Type 0) : Type 0 where
  pub incr : Text → N → Option ℕ × N
  pub expire : Text → ℕ → N → Bool × N

-- The namespace of `MediaRedisConfig`, and `str.isprintable` of a character.
pub record RedisConfig : Type 0 where
  pub namespace : Text
  pub is_printable : ℕ → Bool

-- `part.strip(":")`.
unfoldable pub lstrip_colons : Text → Text
lstrip_colons [] = []
lstrip_colons (c ∷ t) = let rest = lstrip_colons t in if c == b':' then rest else c ∷ t

abbrev strip_colons : Text → Text
strip_colons t = reverse (lstrip_colons (reverse (lstrip_colons t)))

-- One more part of a key, unless it is empty.
abbrev joined : Text → Text → Text
joined key [] = key
joined key (c ∷ t) = key ++ (codes ":" ++ strip_colons (c ∷ t))

-- `MediaRedisConfig.key`, of two parts.
unfoldable pub redis_key : RedisConfig → Text → Text → Text
unfolding lstrip_colons
redis_key config scope name = joined (joined config.namespace scope) name

pub data FailureMode : Type 0 where
  fail_open fail_closed : FailureMode

pub record RateLimiter : Type 0 where
  pub action : Text
  pub limit : ℕ
  pub window_seconds : ℕ
  pub failure_mode : Option FailureMode

-- How a check ends: within the window's limit, over it, or with an error of Redis.
pub data Check : Type 0 where
  within exceeded redis_error : Check

-- How a request ends: it goes on, or an `HTTPException` is raised.
pub data Verdict : Type 0 where
  pass : Verdict
  refuse : Error → Verdict

abbrev pub ip_limit_factor : ℕ
ip_limit_factor = 10

abbrev max_ip_len : ℕ
max_ip_len = 45

abbrev compared : ℕ → ℕ → Check
compared limit count = if ltb limit count then exceeded else within

abbrev expired : {N : Type 0} → Check → Bool × N → Check × N
expired check (true, n) = (check, n)
expired check (false, n) = (redis_error, n)

-- `_resolve_failure_mode`, with the value of the settings.
abbrev pub resolve_failure_mode : FailureMode → Option FailureMode → FailureMode
resolve_failure_mode setting none = setting
resolve_failure_mode setting (some mode) = mode

-- `_handle_redis_error`.
abbrev pub handle_redis_error : FailureMode → Verdict
handle_redis_error fail_closed = refuse (http 503 limiter_unavailable)
handle_redis_error fail_open = pass

abbrev settled : {N : Type 0} → FailureMode → Check × N → Verdict × N
settled mode (within, n) = (pass, n)
settled mode (exceeded, n) = (refuse (http 429 rate_limited), n)
settled mode (redis_error, n) = (handle_redis_error mode, n)

module _ {N : Type 0} (redis : Redis N) where
  abbrev counted : Text → ℕ → ℕ → Option ℕ × N → Check × N
  counted key limit window (none, n) = (redis_error, n)
  counted key limit window (some count, n) =
      if count == 1
      then expired (compared limit count) (redis.expire key window n)
      else (compared limit count, n)

  -- `_check_window`.
  unfoldable pub check_window : Text → ℕ → ℕ → N → Check × N
  check_window key limit window n = counted key limit window (redis.incr key n)

  module _ (config : RedisConfig) (setting : FailureMode) where
    -- The peer's address without what is not printable, cut to its length.
    abbrev peer_text : Option Text → Text
    peer_text none = codes "unknown"
    peer_text (some peer) = peer

    unfoldable pub ip_of : Option Text → Text
    ip_of peer = take max_ip_len (filter config.is_printable (peer_text peer))

    unfoldable pub ip_key : RateLimiter → Option Text → Text
    unfolding ip_of
    ip_key r peer = redis_key config (codes "ratelimit:ip:" ++ r.action) (ip_of peer)

    unfoldable pub user_key : RateLimiter → Text → Text
    user_key r user_id = redis_key config (codes "ratelimit:" ++ r.action) user_id

    abbrev mode_of : RateLimiter → FailureMode
    mode_of r = resolve_failure_mode setting r.failure_mode

    -- The second window of a caller whose own one did not refuse.
    abbrev then_ip : RateLimiter → Option Text → Check × N → Verdict × N
    then_ip r peer (exceeded, n) = (refuse (http 429 rate_limited), n)
    then_ip r peer (redis_error, n) = (handle_redis_error (mode_of r), n)
    then_ip r peer (within, n) =
        settled (mode_of r)
          (check_window (ip_key r peer) (r.limit * ip_limit_factor) r.window_seconds n)

    -- `_apply`, of `RateLimiter` and of `OptionalRateLimiter`.
    unfoldable pub apply : RateLimiter → Option Text → Option Text → N → Verdict × N
    unfolding ip_key user_key
    apply r peer none n = then_ip r peer (within, n)
    apply r peer (some user_id) n =
        then_ip r peer (check_window (user_key r user_id) r.limit r.window_seconds n)

    -- `AnonRateLimiter.__call__`.
    unfoldable pub apply_anonymous : RateLimiter → Option Text → N → Verdict × N
    unfolding ip_key
    apply_anonymous r peer n =
        settled (mode_of r) (check_window (ip_key r peer) r.limit r.window_seconds n)
