-- ===== src/Outbox/Settling.antt =====
-- One delivery run of media_service/controllers/outbox.py: its claims, its report and its rows.
use mathlib.Core.Path.{subst}
use media_service_m.Prelude.{
  In-take, In-filter, ℕ, ◌+◌, ◌≤◌, ◌<◌, Bool, true, false, List, [], ◌∷◌, ◌≡◌, refl, ◌⊎◌, inl, inr,
  arith, length, length-take-le, Bool-cases, In, filter, ◌==◌, ==_iff, sym, ◌∙◌,
}
use media_service_m.Model.Rows.{OutboxEvent, Subscription, Db}
use media_service_m.Model.Table.{find_row, save_row, find_row-save_row_other, In-save_row}
use media_service_m.Outbox.{
  Network, DeliveryPolicy, OutboxDeliveryReport, settle, is_due, insert_by_created, sort_by_created,
  claim_due, deliver_event, deliver_each, deliver_pending, counted, event_is, active_subscriptions,
}
use media_service_m.Outbox.Retries.{is_pending}

In-insert_by_created :
    (e x : OutboxEvent) (rows : List OutboxEvent)
    → In e (insert_by_created x rows)
    → (e ≡ x) ⊎ In e rows
unfolding insert_by_created
In-insert_by_created e x [] h = h
In-insert_by_created e x (y ∷ rows) h = ground (arith, In-insert_by_created e x rows)

In-sort_by_created :
    (e : OutboxEvent) (rows : List OutboxEvent) → In e (sort_by_created rows) → In e rows
unfolding sort_by_created
In-sort_by_created e [] h = h
In-sort_by_created e (x ∷ rows) h =
    ground (arith, In-insert_by_created e x (sort_by_created rows), In-sort_by_created e rows)

-- Only events that are due are claimed.
claimed_are_due :
    (now limit : ℕ) (rows : List OutboxEvent) (e : OutboxEvent)
    → In e (claim_due now limit rows)
    → In e rows × (is_due now e ≡ true)
unfolding claim_due
claimed_are_due now limit rows e h = In-filter (is_due now) e rows (
    In-sort_by_created e (filter (is_due now) rows)
      (In-take limit e (sort_by_created (filter (is_due now) rows)) h))

abbrev total : OutboxDeliveryReport → ℕ
total r = r.delivered + r.retried + r.failed

total-counted :
    (p : DeliveryPolicy) (b : Bool) (e : OutboxEvent) (r : OutboxDeliveryReport)
    → total (counted p b e r) ≡ total r + 1
total-counted p true e r = omega arith
total-counted p false e r = ground arith

module _ {N : Type 0} (net : Network N) (p : DeliveryPolicy) (now : ℕ) where
  total-deliver_each :
      (claimed : List OutboxEvent) (subs : List Subscription) (rows : List OutboxEvent)
      (r : OutboxDeliveryReport) (n : N)
      → total (deliver_each net p now claimed subs rows r n).1 ≡ total r + length claimed
  unfolding deliver_each
  total-deliver_each [] subs rows r n = omega arith
  total-deliver_each (e ∷ claimed) subs rows r n =
      let (b, n') = deliver_event net e subs n in
      omega (
        arith,
        total-counted p b e r,
        total-deliver_each claimed subs (save_row (event_is e.id) (settle p now b e) rows)
            (counted p b e r) n',
      )

  id-settle : (b : Bool) (e : OutboxEvent) → (settle p now b e).id ≡ e.id
  unfolding settle
  id-settle true e = refl
  id-settle false e = ground arith

  -- A row whose id is not claimed is left alone.
  deliver_each-others :
      (k : ℕ) (claimed : List OutboxEvent) (subs : List Subscription) (rows : List OutboxEvent)
      (r : OutboxDeliveryReport) (n : N)
      → ((e : OutboxEvent) → In e claimed → (e.id == k) ≡ false)
      → find_row (event_is k) (deliver_each net p now claimed subs rows r n).0
        ≡ find_row (event_is k) rows
  unfolding deliver_each
  deliver_each-others k [] subs rows r n h = refl
  deliver_each-others k (e ∷ claimed) subs rows r n h =
      let (b, n') = deliver_event net e subs n in
      let other = h e (inl refl) in
      deliver_each-others k claimed subs (save_row (event_is e.id) (settle p now b e) rows)
        (counted p b e r) n' (λ x hx. h x (inr hx))
      ∙ find_row-save_row_other (event_is e.id) (event_is k) (settle p now b e) rows
          (λ x hx. ground arith) (ground (arith, id-settle b e))

  -- Pending events have attempts left.
  abbrev pub HasAttemptsLeft : OutboxEvent → Type 0
  HasAttemptsLeft e = is_pending e ≡ true → e.attempts < p.max_attempts

  HasAttemptsLeft-settle : (b : Bool) (e : OutboxEvent) → HasAttemptsLeft (settle p now b e)
  unfolding settle
  HasAttemptsLeft-settle true e = λ h. ground arith
  HasAttemptsLeft-settle false e = λ h. ground arith

  deliver_each-HasAttemptsLeft :
      (claimed : List OutboxEvent) (subs : List Subscription) (rows : List OutboxEvent)
      (r : OutboxDeliveryReport) (n : N)
      → ((e : OutboxEvent) → In e rows → HasAttemptsLeft e)
      → (e : OutboxEvent) → In e (deliver_each net p now claimed subs rows r n).0
      → HasAttemptsLeft e
  unfolding deliver_each
  deliver_each-HasAttemptsLeft [] subs rows r n h = h
  deliver_each-HasAttemptsLeft (c ∷ claimed) subs rows r n h =
      let (b, n') = deliver_event net c subs n in
      deliver_each-HasAttemptsLeft claimed subs (save_row (event_is c.id) (settle p now b c) rows)
        (counted p b c r) n'
        (λ e he. elim (In-save_row e (event_is c.id) (settle p now b c) rows he) [
          | inl same ↦ subst HasAttemptsLeft (sym same) (HasAttemptsLeft-settle b c)
          | inr old ↦ h e old
        ])

-- Every pending event of the outbox has attempts left.
abbrev pub AllHaveAttemptsLeft : DeliveryPolicy → Db → Type 0
AllHaveAttemptsLeft p d =
    (e : OutboxEvent) → In e d.events → is_pending e ≡ true → e.attempts < p.max_attempts

claimed-le : (now limit : ℕ) (rows : List OutboxEvent) → length (claim_due now limit rows) ≤ limit
unfolding claim_due
claimed-le now limit rows = length-take-le limit (sort_by_created (filter (is_due now) rows))

-- A delivery run counts every claimed event once, and claims at most its limit.
pub deliver_pending-report :
    {N : Type 0} (net : Network N) (p : DeliveryPolicy) (now : ℕ) (d : Db) (n : N)
    → let r = (deliver_pending net p now d n).0 in
      (r.delivered + r.retried + r.failed ≡ length (claim_due now p.limit d.events))
      × (r.delivered + r.retried + r.failed ≤ p.limit)
unfolding deliver_pending
deliver_pending-report {N = N} net p now d n =
    let start : OutboxDeliveryReport = record { delivered = 0; retried = 0; failed = 0 } in
    let claimed = claim_due now p.limit d.events in
    let counts =
      total-deliver_each net p now claimed (active_subscriptions d.subscriptions) d.events start
        n in
    (omega (arith, counts), omega (arith, counts, claimed-le now p.limit d.events))

-- A run leaves alone every event that is delivered, failed or not due yet, if ids are not shared.
pub deliver_pending-untouched :
    {N : Type 0} (net : Network N) (p : DeliveryPolicy) (now : ℕ) (d : Db) (n : N) (e : OutboxEvent)
    → ((a b : OutboxEvent) → In a d.events → In b d.events → a.id ≡ b.id → a ≡ b)
    → In e d.events
    → is_due now e ≡ false
    → find_row (event_is e.id) (deliver_pending net p now d n).1.events
      ≡ find_row (event_is e.id) d.events
unfolding deliver_pending
deliver_pending-untouched net p now d n e unique there not_due =
    deliver_each-others net p now e.id (claim_due now p.limit d.events)
      (active_subscriptions d.subscriptions) d.events
      (record { delivered = 0; retried = 0; failed = 0 }) n
      (λ c hc. elim (Bool-cases (c.id == e.id)) [
        | inr other ↦ other
        | inl same ↦ absurd (claimed_not_due c hc same)
      ])
  where
    claimed_not_due :
        (c : OutboxEvent) → In c (claim_due now p.limit d.events) → (c.id == e.id) ≡ true → ⊥
    claimed_not_due c hc same =
        let due = claimed_are_due now p.limit d.events c hc in
        let c_is_e = unique c e due.0 there ((==_iff c.id e.id).0 same) in
        cc (due.1, not_due, c_is_e)

-- If every pending event has attempts left, then so it is after a run: what has used its last attempt
-- is not pending any more.
pub deliver_pending-HasAttemptsLeft :
    {N : Type 0} (net : Network N) (p : DeliveryPolicy) (now : ℕ) (d : Db) (n : N)
    → AllHaveAttemptsLeft p d
    → AllHaveAttemptsLeft p (deliver_pending net p now d n).1
unfolding deliver_pending
deliver_pending-HasAttemptsLeft net p now d n left =
    deliver_each-HasAttemptsLeft net p now (claim_due now p.limit d.events)
      (active_subscriptions d.subscriptions) d.events
      (record { delivered = 0; retried = 0; failed = 0 }) n left
