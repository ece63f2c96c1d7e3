-- ===== src/Outbox/Retries.antt =====
-- An event over the runs of media_service/controllers/outbox.py that claim it.
use media_service_m.Prelude.{
  ℕ, zero, suc, ◌+◌, ◌-◌, ◌<◌, ◌≤◌, max, Bool, true, false, ◌||◌, List, [], ◌∷◌, ◌≡◌, refl, inl,
  inr, arith, leb, length, if◌then◌else◌, Bool-cases, any, take,
}
use media_service_m.Model.Enums.{OutboxStatus, outbox_status_eq}
use media_service_m.Model.Rows.{OutboxEvent}
use media_service_m.Outbox.{DeliveryPolicy, settle}

abbrev pub is_pending : OutboxEvent → Bool
is_pending e = outbox_status_eq e.status OutboxStatus.pending

-- A run as one event meets it: when it was, and whether every target accepted.
pub record Attempt : Type 0 where
  pub at : ℕ
  pub accepted : Bool

-- The runs that find the event due, one after another: only a pending event is claimed.
unfoldable pub settle_all : DeliveryPolicy → List Attempt → OutboxEvent → OutboxEvent
settle_all p [] e = e
settle_all p (a ∷ attempts) e =
    let settled = settle_all p attempts (settle p a.at a.accepted e) in
    let kept = settle_all p attempts e in if is_pending e then settled else kept

settled_stays :
    (p : DeliveryPolicy) (attempts : List Attempt) (e : OutboxEvent)
    → is_pending e ≡ false
    → settle_all p attempts e ≡ e
unfolding settle_all
settled_stays p [] e h = refl
settled_stays p (a ∷ attempts) e h = rw h (settled_stays p attempts e h)

-- What a pending event still allows: at least one run, and as many as its attempts leave.
abbrev pub runs_left : DeliveryPolicy → OutboxEvent → ℕ
runs_left p e = max 1 (p.max_attempts - e.attempts)

abbrev pub accepts : Attempt → Bool
accepts a = a.accepted

runs_left-retry :
    (p : DeliveryPolicy) (now : ℕ) (e : OutboxEvent)
    → leb p.max_attempts (e.attempts + 1) ≡ false
    → runs_left p e ≡ suc (runs_left p (settle p now false e))
unfolding settle
runs_left-retry p now e more = ground arith

settle_all-pending :
    (p : DeliveryPolicy) (a : Attempt) (attempts : List Attempt) (e : OutboxEvent)
    → is_pending e ≡ true
    → settle_all p (a ∷ attempts) e ≡ settle_all p attempts (settle p a.at a.accepted e)
unfolding settle_all
settle_all-pending p a attempts e waiting = rw waiting

any-take :
    (k : ℕ) (a : Attempt) (attempts : List Attempt)
    → 0 < k
    → any accepts (take k (a ∷ attempts)) ≡ (a.accepted || any accepts (take (k - 1) attempts))
any-take zero a attempts h = absurd (omega arith)
any-take (suc k) a attempts h = rw (take_pred k)
  where
    take_pred : (k : ℕ) → suc k - 1 ≡ k
    take_pred k = omega arith

settle-accepted :
    (p : DeliveryPolicy) (now : ℕ) (e : OutboxEvent)
    → (settle p now true e).status ≡ OutboxStatus.delivered
unfolding settle
settle-accepted p now e = refl

settle-last :
    (p : DeliveryPolicy) (now : ℕ) (e : OutboxEvent)
    → leb p.max_attempts (e.attempts + 1) ≡ true
    → ((settle p now false e).status ≡ OutboxStatus.failed) × (runs_left p e ≡ 1)
unfolding settle
settle-last p now e last = (ground arith, ground arith)

settle-more :
    (p : DeliveryPolicy) (now : ℕ) (e : OutboxEvent)
    → leb p.max_attempts (e.attempts + 1) ≡ false
    → is_pending e ≡ true
    → is_pending (settle p now false e) ≡ true
unfolding settle
settle-more p now e more waiting = ground arith

-- A pending event that is tried often enough settles, within the attempts that the policy leaves it:
-- as delivered if one of those runs had every target accept, and as failed otherwise. No later run
-- changes that.
pub settle_all-settles :
    (p : DeliveryPolicy) (attempts : List Attempt) (e : OutboxEvent)
    → is_pending e ≡ true
    → runs_left p e ≤ length attempts
    → (settle_all p attempts e).status ≡ (
        if any accepts (take (runs_left p e) attempts)
        then OutboxStatus.delivered
        else OutboxStatus.failed)
settle_all-settles p [] e waiting h = absurd (omega arith)
settle_all-settles p (a ∷ attempts) e waiting h =
    let step = settle_all-pending p a attempts e waiting in
    let counts = any-take (runs_left p e) a attempts (omega arith) in
    elim (Bool-cases a.accepted) [
      | inl accepted ↦ ground (
        arith,
        step,
        counts,
        settle-accepted p a.at e,
        settled_stays p attempts (settle p a.at true e),
      )
      | inr not_accepted ↦ elim (Bool-cases (leb p.max_attempts (e.attempts + 1))) [
        | inl last ↦ ground (
          arith,
          step,
          counts,
          settle-last p a.at e last,
          settled_stays p attempts (settle p a.at false e),
        )
        | inr more ↦
            let fewer = runs_left-retry p a.at e more in
            let rest =
              settle_all-settles p attempts (settle p a.at false e)
                (settle-more p a.at e more waiting) (omega arith) in
            ground (arith, step, counts, rest, fewer)
      ]
    ]
