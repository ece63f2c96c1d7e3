-- ===== src/Tests/OutboxTests.antt =====
-- The delivery theorems on one due event, one that is not due, and a hook that answers 500.
use media_service_m.Prelude.{
  ℕ, ◌+◌, true, false, ◌≡◌, refl, some, List, [], ◌∷◌, any, take, if◌then◌else◌, arith, leb,
}
use media_service_m.Model.Enums.{OutboxStatus}
use media_service_m.Outbox.{Network, DeliveryPolicy}
use media_service_m.Outbox.Settling.{AllHaveAttemptsLeft}
use media_service_m.Outbox.Retries.{Attempt, accepts, runs_left, settle_all, settle_all-settles}
use media_service_m.Tests.Data.{rows, event}

-- A hook whose answers are counted, and which accepts from the second on.
abbrev network : Network ℕ
network = record {
  url_guard = λ url calls. (true, calls);
  post = λ hook e calls. (some (if leb 1 calls then 200 else 500), calls + 1);
}

abbrev policy : DeliveryPolicy
policy = record { limit = 10; max_attempts = 3; backoff_base_seconds = 2 }

rows-HaveAttemptsLeft : AllHaveAttemptsLeft policy rows
rows-HaveAttemptsLeft e he pending = ground arith

abbrev two_refusals : List Attempt
two_refusals =
    record { at = 7; accepted = false }
    ∷ record { at = 9; accepted = false }
    ∷ record { at = 20; accepted = true }
    ∷ []

settle_all-settles_example : (settle_all policy two_refusals event).status ≡ (
    if any accepts (take (runs_left policy event) two_refusals)
    then OutboxStatus.delivered
    else OutboxStatus.failed)
settle_all-settles_example = settle_all-settles policy two_refusals event refl (omega arith)
