-- ===== src/Outbox.antt =====
-- The transactional outbox: `record_event` of media_service/core/outbox.py and the delivery run of
-- media_service/controllers/outbox.py.
pub mod Settling
pub mod Retries
use media_service_m.Prelude.{
  ℕ, zero, suc, ◌+◌, ◌-◌, ◌*◌, ◌^◌, Bool, true, false, ◌&&◌, ◌||◌, Option, none, some, List, [],
  ◌∷◌, ◌++◌, map, take, filter, ltb, leb, ◌==◌, if◌then◌else◌, Text, codes, text_elem,
}
use media_service_m.Model.Enums.{OutboxStatus, outbox_status_eq}
use media_service_m.Model.Rows.{OutboxEvent, Subscription, Db}
use media_service_m.Model.Table.{save_row}

-- `record_event`, with the row's new id; the row is staged and not committed.
abbrev pub record_event : Text → ℕ → List (Text × Text) → ℕ → ℕ → Db → Db
record_event event_type object_id payload event_id now d = record d {
  events =
      d.events
      ++ record {
        id = event_id;
        event_type = event_type;
        object_id = object_id;
        payload = payload;
        status = OutboxStatus.pending;
        attempts = 0;
        next_attempt_at = now;
        created_at = now;
        delivered_at = none;
      }
        ∷ [];
}

-- The HTTP client and the guard as the run meets them: `url_guard(url)`, and the status of a POST of
-- an event to a URL, with none where the client raised. Both may answer differently at each call, so
-- the run's state `N` is passed on.
pub record Network (N : Type 0) : Type 0 where
  pub url_guard : Text → N → Bool × N
  pub post : Subscription → OutboxEvent → N → Option ℕ × N

abbrev pub is_due : ℕ → OutboxEvent → Bool
is_due now e = outbox_status_eq e.status OutboxStatus.pending && leb e.next_attempt_at now

-- `ORDER BY created_at`: a stable insertion by creation time.
unfoldable pub insert_by_created : OutboxEvent → List OutboxEvent → List OutboxEvent
insert_by_created e [] = e ∷ []
insert_by_created e (x ∷ rest) =
    let deeper = x ∷ insert_by_created e rest in
    if leb e.created_at x.created_at then e ∷ x ∷ rest else deeper

unfoldable pub sort_by_created : List OutboxEvent → List OutboxEvent
unfolding insert_by_created
sort_by_created [] = []
sort_by_created (e ∷ rest) = insert_by_created e (sort_by_created rest)

-- `_claim_due`.
unfoldable pub claim_due : ℕ → ℕ → List OutboxEvent → List OutboxEvent
unfolding sort_by_created
claim_due now limit events = take limit (sort_by_created (filter (is_due now) events))

abbrev is_active : Subscription → Bool
is_active s = s.active

abbrev pub active_subscriptions : List Subscription → List Subscription
active_subscriptions subs = filter is_active subs

-- `_wants`: an empty filter means all types.
abbrev pub wants : Text → Subscription → Bool
wants event_type s = elim s.event_types [ [] ↦ true | _ ∷ _ ↦ text_elem event_type s.event_types ]

abbrev is_2xx : Option ℕ → Bool
is_2xx none = false
is_2xx (some code) = leb 200 code && ltb code 300

module _ {N : Type 0} (net : Network N) where
  -- `_post_one`: the guard is asked before every request, and a blocked target is not posted to.
  unfoldable pub post_one : Subscription → OutboxEvent → N → Bool × N
  post_one s e n =
      let (safe, n') = net.url_guard s.url n in
      if safe then (let (code, n'') = net.post s e n' in (is_2xx code, n'')) else (false, n')

  -- `all([...])` over a list: every target is posted to, also after one has failed.
  unfoldable pub post_all : List Subscription → OutboxEvent → N → Bool × N
  unfolding post_one
  post_all [] e n = (true, n)
  post_all (s ∷ targets) e n =
      let (first, n') = post_one s e n in
      let (rest, n'') = post_all targets e n' in (first && rest, n'')

  -- `_deliver_event`; without targets it is delivered.
  unfoldable pub deliver_event : OutboxEvent → List Subscription → N → Bool × N
  unfolding post_all
  deliver_event e subs n = post_all (filter (wants e.event_type) subs) e n

-- The settings of a run.
pub record DeliveryPolicy : Type 0 where
  pub limit : ℕ
  pub max_attempts : ℕ
  pub backoff_base_seconds : ℕ

-- How one event is settled.
unfoldable pub settle : DeliveryPolicy → ℕ → Bool → OutboxEvent → OutboxEvent
settle p now true e = record e { status = OutboxStatus.delivered; delivered_at = some now }
settle p now false e =
    let tried = record e { attempts = e.attempts + 1 } in
    if leb p.max_attempts tried.attempts
    then record tried { status = OutboxStatus.failed }
    else record tried { next_attempt_at = now + p.backoff_base_seconds * 2 ^ (tried.attempts - 1) }

pub record OutboxDeliveryReport : Type 0 where
  pub delivered : ℕ
  pub retried : ℕ
  pub failed : ℕ

abbrev counted : DeliveryPolicy → Bool → OutboxEvent → OutboxDeliveryReport → OutboxDeliveryReport
counted p true e r = record r { delivered = r.delivered + 1 }
counted p false e r =
    if leb p.max_attempts (e.attempts + 1)
    then record r { failed = r.failed + 1 }
    else record r { retried = r.retried + 1 }

abbrev pub event_is : ℕ → OutboxEvent → Bool
event_is k e = e.id == k

module _ {N : Type 0} (net : Network N) (p : DeliveryPolicy) (now : ℕ) where
  -- The loop of `deliver_pending` over the claimed events.
  unfoldable pub deliver_each :
      List OutboxEvent
      → List Subscription
      → List OutboxEvent
      → OutboxDeliveryReport
      → N
      → List OutboxEvent × OutboxDeliveryReport × N
  unfolding settle
  deliver_each [] subs rows r n = (rows, r, n)
  deliver_each (e ∷ claimed) subs rows r n =
      let (accepted, n') = deliver_event net e subs n in
      deliver_each claimed subs (save_row (event_is e.id) (settle p now accepted e) rows)
        (counted p accepted e r) n'

  -- `OutboxDeliveryController.deliver_pending`.
  unfoldable pub deliver_pending : Db → N → OutboxDeliveryReport × Db × N
  unfolding deliver_each claim_due
  deliver_pending d n =
      let start : OutboxDeliveryReport = record { delivered = 0; retried = 0; failed = 0 } in
      let (rows, report, n') =
        deliver_each (claim_due now p.limit d.events) (active_subscriptions d.subscriptions)
          d.events start n in
      (report, record d { events = rows }, n')
