-- ===== src/Shares/Uses.antt =====
-- The uses of a link under interleaved transactions: `_consume_use`, `revoke` and `create` of
-- media_service/controllers/shares.py.
use mathlib.Core.Path.{subst, sym}
use media_service_m.Prelude.{
  ℕ, ◌+◌, ◌≤◌, Bool, true, false, not, ◌&&◌, ◌||◌, ◌⊎◌, Option, none, some, List, [], ◌∷◌, ◌++◌,
  ◌==◌, ◌≡◌, refl, ap, arith, if◌then◌else◌, filter, length, sum_by, sum_by-append, All,
  Option-cases, Bool-cases, inl, inr,
}
use media_service_m.Model.Rows.{ShareToken, Db, UserModel, share_is}
use media_service_m.Model.Store.{Settings}
use media_service_m.Effect.{Result-cases}
use media_service_m.Access.{load_object}
use media_service_m.Model.Table.{find_row, save_row, sum_by-save_row, find_row-passes}
use media_service_m.Shares.{
  is_consumable, one_more_use, consumed, consume_use, add_share, save_share, find_share,
  load_owned_share, revoke, create, ShareTokenCreate, too_long, share_of,
}

-- Within its bound.
abbrev pub IsWithinUses : ShareToken → Type 0
IsWithinUses s = elim s.max_uses [ none ↦ Unit | some limit ↦ s.uses ≤ limit ]

-- The uses that the rows of the link `k` have recorded; the primary key leaves one such row.
abbrev uses_in : ℕ → ShareToken → ℕ
uses_in k s = if share_is k s then s.uses else 0

abbrev pub uses_of : ℕ → List ShareToken → ℕ
uses_of k rows = sum_by (uses_in k) rows

one_more_use-IsWithinUses :
    (k now : ℕ) (s : ShareToken) → is_consumable k now s ≡ true → IsWithinUses (one_more_use s)
one_more_use-IsWithinUses k now s h = elim (Option-cases s.max_uses) [
  | inl unbounded ↦ rw unbounded tt
  | inr (limit, bounded) ↦ rw bounded (ground arith)
]

consumed-IsWithinUses :
    (k now : ℕ) (rows : List ShareToken)
    → All IsWithinUses rows
    → All IsWithinUses (consumed k now rows)
consumed-IsWithinUses k now [] h = tt
consumed-IsWithinUses k now (s ∷ rows) h = elim (Bool-cases (is_consumable k now s)) [
  | inl taken ↦
      rw taken (one_more_use-IsWithinUses k now s taken, consumed-IsWithinUses k now rows h.1)
  | inr kept ↦ rw kept (h.0, consumed-IsWithinUses k now rows h.1)
]

consumed-uses :
    (k now : ℕ) (rows : List ShareToken)
    → uses_of k (consumed k now rows) ≡ uses_of k rows + length (filter (is_consumable k now) rows)
consumed-uses k now [] = refl
consumed-uses k now (s ∷ rows) = ground (arith, consumed-uses k now rows)

consumed-uses_other :
    (j k now : ℕ) (rows : List ShareToken) → uses_of k rows ≤ uses_of k (consumed j now rows)
consumed-uses_other j k now [] = omega arith
consumed-uses_other j k now (s ∷ rows) = ground (arith, consumed-uses_other j k now rows)

All-save_row :
    (P : ShareToken → Type 0) (p : ShareToken → Bool) (r : ShareToken) (rows : List ShareToken)
    → P r
    → All P rows
    → All P (save_row p r rows)
All-save_row P p r [] h hs = (h, tt)
All-save_row P p r (x ∷ rows) h hs = elim (Bool-cases (p x)) [
  | inl here ↦ rw here (h, hs.1)
  | inr later ↦ rw later (hs.0, All-save_row P p r rows h hs.1)
]

All-find_row :
    (P : ShareToken → Type 0) (p : ShareToken → Bool) (r : ShareToken) (rows : List ShareToken)
    → All P rows
    → find_row p rows ≡ some r
    → P r
All-find_row P p r [] hs e = absurd (ground arith)
All-find_row P p r (x ∷ rows) hs e = elim (Bool-cases (p x)) [
  | inl here ↦ subst P (ground arith) hs.0
  | inr later ↦ All-find_row P p r rows hs.1 (ground arith)
]

All-append_one :
    (P : ShareToken → Type 0) (rows : List ShareToken) (r : ShareToken)
    → All P rows
    → P r
    → All P (rows ++ r ∷ [])
All-append_one P [] r hs h = (h, tt)
All-append_one P (x ∷ rows) r hs h = (hs.0, All-append_one P rows r hs.1 h)

-- What a step that consumes nothing does to the link `k`.
record IsQuiet (k : ℕ) (before after : Db) : Type 0 where
  within : All IsWithinUses before.shares → All IsWithinUses after.shares
  same_uses : uses_of k after.shares ≡ uses_of k before.shares

revoked_share-IsQuiet :
    (k : ℕ) (s : ShareToken) (d : Db)
    → find_share s.id d ≡ some s
    → IsQuiet k d (save_share (record s { revoked = true }) d)
revoked_share-IsQuiet k s d found =
    let r : ShareToken = record s { revoked = true } in
    record {
      within = λ hs.
          All-save_row IsWithinUses (share_is s.id) r d.shares
            (All-find_row IsWithinUses (share_is s.id) s d.shares hs found) hs;
      same_uses = omega (arith, sum_by-save_row (uses_in k) (share_is s.id) r s d.shares found);
    }

unchanged-IsQuiet : (k : ℕ) (d : Db) → IsQuiet k d d
unchanged-IsQuiet k d = record { within = λ hs. hs; same_uses = refl }

revoke-cases :
    (u : UserModel) (token_id : ℕ) (d : Db)
    → ((revoke u token_id d).1 ≡ d)
      ⊎ ((s : ShareToken) × (find_share s.id d ≡ some s)
          × ((revoke u token_id d).1 ≡ save_share (record s { revoked = true }) d))
unfolding revoke load_owned_share
revoke-cases u token_id d = elim (Option-cases (find_share token_id d)) [
  | inl missing ↦ inl (ground arith)
  | inr (s, found) ↦
      elim (Bool-cases (s.revoked || (not u.is_superuser && not (s.owner_user_id == u.id)))) [
        | inl unchanged ↦ inl (ground arith)
        | inr revokes ↦
            inr (
              s,
              ground (arith, find_row-passes (share_is token_id) d.shares s found),
              ground arith,
            )
      ]
]

revoke-IsQuiet :
    (k : ℕ) (u : UserModel) (token_id : ℕ) (d : Db) → IsQuiet k d (revoke u token_id d).1
revoke-IsQuiet k u token_id d = elim (revoke-cases u token_id d) [
  | inl same ↦ subst (IsQuiet k d) (sym same) (unchanged-IsQuiet k d)
  | inr (s, found, saved) ↦ subst (IsQuiet k d) (sym saved) (revoked_share-IsQuiet k s d found)
]

create-cases :
    (conf : Settings) (u : UserModel) (object_id : ℕ) (body : ShareTokenCreate) (token_id now : ℕ)
    (d : Db)
    → ((create conf u object_id body token_id now d).1 ≡ d)
      ⊎ ((s : ShareToken) × (s.uses ≡ 0)
          × ((create conf u object_id body token_id now d).1 ≡ add_share s d))
unfolding create
create-cases conf u object_id body token_id now d =
    elim (Result-cases (load_object u object_id false d)) [
      | inr (e, l) ↦ inl (ground arith)
      | inl (o, l) ↦ elim (Bool-cases (too_long conf.share_max_expires_seconds body.expires_in)) [
        | inl refused ↦ inl (ground arith)
        | inr fits ↦ inr (share_of conf o body token_id now, refl, rw (l, fits) refl)
      ]
    ]

fresh-IsWithinUses : (s : ShareToken) → s.uses ≡ 0 → IsWithinUses s
fresh-IsWithinUses s h = elim (Option-cases s.max_uses) [
  | inl unbounded ↦ rw unbounded tt
  | inr (limit, bounded) ↦ rw bounded (omega arith)
]

add_share-IsQuiet : (k : ℕ) (s : ShareToken) (d : Db) → s.uses ≡ 0 → IsQuiet k d (add_share s d)
add_share-IsQuiet k s d h = record {
  within = λ hs. All-append_one IsWithinUses d.shares s hs (fresh-IsWithinUses s h);
  same_uses = ground (arith, sum_by-append (uses_in k) d.shares (s ∷ []));
}

create-IsQuiet :
    (k : ℕ) (conf : Settings) (u : UserModel) (object_id : ℕ) (body : ShareTokenCreate)
    (token_id now : ℕ) (d : Db)
    → IsQuiet k d (create conf u object_id body token_id now d).1
create-IsQuiet k conf u object_id body token_id now d =
    elim (create-cases conf u object_id body token_id now d) [
      | inl same ↦ subst (IsQuiet k d) (sym same) (unchanged-IsQuiet k d)
      | inr (s, fresh, added) ↦ subst (IsQuiet k d) (sym added) (add_share-IsQuiet k s d fresh)
    ]

-- One transaction on the links, with the uses of the link `k` that it hands out: a resolver's
-- conditional update, a revocation, a creation, or anything that leaves the links alone.
pub data ShareStep (k : ℕ) (d : Db) : ℕ → Db → Type 0 where
  consume_own :
      (now : ℕ) → ShareStep k d (if (consume_use k now d).0 then 1 else 0) (consume_use k now d).1
  consume_other : (j now : ℕ) → (j == k) ≡ false → ShareStep k d 0 (consume_use j now d).1
  revokes : (u : UserModel) (token_id : ℕ) → ShareStep k d 0 (revoke u token_id d).1
  creates :
      (conf : Settings) (u : UserModel) (object_id : ℕ) (body : ShareTokenCreate) (token_id now : ℕ)
      → ShareStep k d 0 (create conf u object_id body token_id now d).1
  elsewhere : (e : Db) → e.shares ≡ d.shares → ShareStep k d 0 e

pub data ShareHistory (k : ℕ) (d : Db) : ℕ → Db → Type 0 where
  start : ShareHistory k d 0 d
  next :
      {e f : Db} {n m : ℕ} → ShareHistory k d n e → ShareStep k e m f → ShareHistory k d (n + m) f

consume_own-uses :
    (k now : ℕ) (d : Db)
    → uses_of k d.shares + (if (consume_use k now d).0 then 1 else 0)
      ≤ uses_of k (consume_use k now d).1.shares
unfolding consume_use
consume_own-uses k now d = ground (arith, consumed-uses k now d.shares)

-- What every step does: bounds stay respected, and the uses handed out are recorded.
abbrev IsCounted : ℕ → ℕ → Db → Db → Type 0
IsCounted k n d e =
    (All IsWithinUses d.shares → All IsWithinUses e.shares)
    × (uses_of k d.shares + n ≤ uses_of k e.shares)

quiet-IsCounted : (k : ℕ) (d e : Db) → IsQuiet k d e → IsCounted k 0 d e
quiet-IsCounted k d e q = (q.within, omega (arith, q.same_uses))

step-IsCounted : (k : ℕ) (d e : Db) (n : ℕ) → ShareStep k d n e → IsCounted k n d e
unfolding consume_use
step-IsCounted k d e n (consume_own now) =
    (consumed-IsWithinUses k now d.shares, consume_own-uses k now d)
step-IsCounted k d e n (consume_other j now apart) =
    (consumed-IsWithinUses j now d.shares, omega (arith, consumed-uses_other j k now d.shares))
step-IsCounted k d e n (revokes u token_id) = quiet-IsCounted k d e (revoke-IsQuiet k u token_id d)
step-IsCounted k d e n (creates conf u object_id body token_id now) =
    quiet-IsCounted k d e (create-IsQuiet k conf u object_id body token_id now d)
step-IsCounted k d _ n (elsewhere e same) = (λ hs. rw same hs, rw same (omega arith))

history-IsCounted : (k : ℕ) (d e : Db) (n : ℕ) → ShareHistory k d n e → IsCounted k n d e
history-IsCounted k d e n start = (λ hs. hs, omega arith)
history-IsCounted k d f n (next {e = e} {n = before} {m = more} h step) =
    let (within, counted) = history-IsCounted k d e before h in
    let (within', counted') = step-IsCounted k e f more step in
    (λ hs. within' (within hs), omega arith)

uses_of-filter :
    (k : ℕ) (rows : List ShareToken)
    → uses_of k rows ≡ sum_by (λ (s : ShareToken). s.uses) (filter (share_is k) rows)
uses_of-filter k [] = refl
uses_of-filter k (s ∷ rows) = ground (arith, uses_of-filter k rows)

All-filter :
    (P : ShareToken → Type 0) (p : ShareToken → Bool) (rows : List ShareToken)
    → All P rows
    → All P (filter p rows)
All-filter P p [] h = tt
All-filter P p (s ∷ rows) h = elim (Bool-cases (p s)) [
  | inl kept ↦ rw kept (h.0, All-filter P p rows h.1)
  | inr dropped ↦ rw dropped (All-filter P p rows h.1)
]

IsWithinUses-le :
    (s : ShareToken) (limit : ℕ) → IsWithinUses s → s.max_uses ≡ some limit → s.uses ≤ limit
IsWithinUses-le s limit h bounded =
    subst (λ (m : Option ℕ). elim m [ none ↦ Unit | some limit ↦ s.uses ≤ limit ]) bounded h

-- In any interleaving of resolutions, revocations and creations, by any callers at any times, the
-- link `k` with the bound `limit`, one row by its primary key, hands out at most `limit` uses, less
-- those that it had recorded before.
pub history-limit :
    (k : ℕ) (d e : Db) (n : ℕ) (row : ShareToken) (limit : ℕ)
    → ShareHistory k d n e
    → All IsWithinUses d.shares
    → filter (share_is k) e.shares ≡ row ∷ []
    → row.max_uses ≡ some limit
    → uses_of k d.shares + n ≤ limit
history-limit k d e n row limit h within alone bounded =
    let (kept, counted) = history-IsCounted k d e n h in
    let rows =
      subst (All IsWithinUses) alone
        (All-filter IsWithinUses (share_is k) e.shares (kept within)) in
    let total = uses_of-filter k e.shares in
    let one_row = ap (sum_by (λ (s : ShareToken). s.uses)) alone in
    omega (arith, IsWithinUses-le row limit rows.0 bounded)
