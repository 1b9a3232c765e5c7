-- ===== src/Refresh/Admit.antt =====
-- internal/engine/engine.go `admitTx`, with internal/engine/tenant.go, `AdvisoryEligible`, and the
-- statements of internal/store/store.go that open a review: what a refresh makes of a fetched item.
use rusui.Common.{
  ℕ, ◌+◌, ◌-◌, Bool, true, false, ◌&&◌, ◌||◌, not, Option, none, some, List, [], ◌∷◌, String, ok,
  err, if◌then◌else◌, ◌==◌, ltb, str_eq, find_where, select_where, update_where, count_where,
  max_of,
}
use rusui.Store.{
  State, queued, leased, completed, Job, Item, SnapshotRow, ReviewRow, Db, Tx, ◌>>=◌, ◌>>◌, return,
}
use rusui.Store.Turns.{
  get_job_at, update_job, load_snapshot, save_snapshot, count_reviews_today, is_leased, find_job,
}
use rusui.Policy.{Effective}
use rusui.Policy.Review.{review_access, decide_review, is_allowed}
use rusui.Refresh.Session.{tenant_mismatch, ensure_review_session, insert_turn, stamp_review_tenant}
use rusui.Refresh.{Intake, Rooms, Request, Invalidation, set_intake}
use rusui.Refresh.Queue.{find_request}

-- `AdvisoryEligible`.
unfoldable pub advisory_eligible : Item → Bool
advisory_eligible it =
    if str_eq it.item_kind "issue"
    then str_eq it.state "open"
    else if str_eq it.item_kind "pull"
    then str_eq it.state "open"
      && (not it.draft && (not (str_eq it.base_ref "") && str_eq it.base_ref it.default_branch))
    else false

-- What `admitTx` returns, other errors apart: nil, `ErrReviewIneligible` or `ErrReviewBudget`.
pub data Admission : Type 0 where
  settled ineligible over_budget : Admission

-- The row of `review_revisions` with an id; ids count from 1.
abbrev pub review_at : ℕ → List ReviewRow → Option ReviewRow
review_at n [] = none
review_at n (r ∷ rest) = if n == 1 then some r else review_at (n - 1) rest

-- The join of an invalidation with its revision and its turn.
abbrev pub is_of_item : {X : Type 0} → Db X → String → ℕ → Invalidation → Bool
is_of_item db repo item v = elim (review_at v.review_revision db.reviews) [
  | none ↦ false
  | some r ↦ elim (find_job r.job db.turns) [
    | none ↦ false
    | some j ↦ not v.consumed && (str_eq j.repo repo && j.item == item)
  ]
]

abbrev pub has_pending : Option Job → Bool
has_pending none = false
has_pending (some j) = ltb 0 j.pending_revision

abbrev pub is_completed : State → Bool
is_completed completed = true
is_completed _ = false

abbrev pub is_new_or_completed : Option Job → Bool
is_new_or_completed none = true
is_new_or_completed (some j) = is_completed j.state

abbrev pub next_revision : Option Job → ℕ
next_revision none = 1
next_revision (some j) = j.pending_revision + 1

abbrev pub revise_job : ℕ → Job → Job
revise_job rev j = record j {
  pending_revision = rev;
  retry_count = 0;
  state = if is_leased j.state then leased else queued;
}

abbrev pub latest_in : List SnapshotRow → Option SnapshotRow
latest_in rows =
    find_where (λ (r : SnapshotRow). r.revision == max_of (λ (s : SnapshotRow). s.revision) rows)
      rows

module _ {Y G : Type 0} (rooms : Rooms Y) (policy : Effective G) where
  -- `LatestSnapshotHashTx`: the stored hash is that of the payload.
  abbrev pub is_latest : String → ℕ → String → List SnapshotRow → Bool
  is_latest repo item hash rows =
      elim (latest_in
        (select_where (λ (r : SnapshotRow). str_eq r.repo repo && r.item == item) rows)) [
          | none ↦ false
          | some r ↦
              not (str_eq (rooms.item_hash r.payload) "") && str_eq (rooms.item_hash r.payload) hash
        ]

  abbrev pub is_stale : String → ℕ → ℕ → List Request → Bool
  is_stale repo item gen requests = elim (find_request repo item requests) [
    | none ↦ false
    | some r ↦ not (r.generation == gen)
  ]

  -- The turn of the new revision: a new one, or the item's own.
  unfoldable pub put_revision : Item → ℕ → Option Job → Tx (Intake Y) (Unit {0})
  unfolding ensure_review_session insert_turn stamp_review_tenant
  put_revision it rev none = do
    s ← ensure_review_session rooms policy it.repo it.item it.item_kind
    insert_turn rooms policy s rev
    stamp_review_tenant rooms policy it.repo it.item
  put_revision it rev (some j) = update_job (revise_job rev j)

  unfoldable pub consume_invalidations : Bool → String → ℕ → Tx (Intake Y) (Unit {0})
  consume_invalidations false repo item db = ok (tt, db)
  consume_invalidations true repo item db = ok (
    tt,
    set_intake
        (record db.rest {
          invalidations =
              update_where (is_of_item db repo item)
                (λ (v : Invalidation). record v { consumed = true }) db.rest.invalidations;
        })
        db,
  )

  unfoldable pub write_revision : Item → Bool → Option Job → Tx (Intake Y) Admission
  unfolding put_revision consume_invalidations
  write_revision it forced j = do
    consume_invalidations forced it.repo it.item
    save_snapshot it.repo it.item (next_revision j) it
    put_revision it (next_revision j) j
    return settled

  -- The day's budget, where the caller enforces it.
  unfoldable pub within_budget : Item → String → Bool → Tx (Intake Y) Bool
  within_budget it day false = return true
  within_budget it day true = do
    n ← count_reviews_today it.repo day
    return (is_allowed policy (decide_review policy it.repo false n))

  -- Whether the fetched item is the one of the last revision.
  unfoldable pub is_unchanged : Item → Bool → Option Job → Tx (Intake Y) Bool
  is_unchanged it forced none db =
      ok (not forced && is_latest it.repo it.item (rooms.item_hash it) db.snapshots, db)
  is_unchanged it forced (some j) db =
      if ltb 0 j.pending_revision
      then elim (load_snapshot it.repo it.item j.pending_revision db) [
        | ok (pend, next) ↦
            ok (not forced && str_eq (rooms.item_hash pend) (rooms.item_hash it), next)
        | err e ↦ err e
      ]
      else ok (
        not forced
            && (is_latest it.repo it.item (rooms.item_hash it) db.snapshots
                && is_completed j.state),
        db,
      )

  unfoldable pub admit_changed : Item → String → Bool → Bool → Option Job → Tx (Intake Y) Admission
  unfolding within_budget write_revision
  admit_changed it day forced enforce j = do
    within ← within_budget it day enforce
    if within then write_revision it forced j else return over_budget

  unfoldable pub admit_eligible : Item → String → Bool → Bool → Option Job → Tx (Intake Y) Admission
  unfolding is_unchanged admit_changed
  admit_eligible it day forced enforce j = do
    same ← is_unchanged it forced j
    if same then return settled else admit_changed it day forced enforce j

  abbrev pub count_invalidated : String → ℕ → Db (Intake Y) → ℕ
  count_invalidated repo item db = count_where (is_of_item db repo item) db.rest.invalidations

  abbrev pub is_some : Option Job → Bool
  is_some none = false
  is_some (some j) = true

  unfoldable pub admit_current : Item → String → Bool → Bool → Option Job → Tx (Intake Y) Admission
  unfolding admit_eligible
  admit_current it day force enforce j db =
      if is_some j && tenant_mismatch rooms policy it.repo it.item db.rest.sessions
      then ok (settled, db)
      else if not (advisory_eligible it) && not (has_pending j)
      then ok (if enforce then ineligible else settled, db)
      else admit_eligible it day (force && ltb 0 (count_invalidated it.repo it.item db)) enforce j
          db

  -- `admitTx`.
  unfoldable pub admit_tx : Item → String → Bool → ℕ → Bool → Tx (Intake Y) Admission
  unfolding admit_current
  admit_tx it day force gen enforce db =
      if is_stale it.repo it.item gen db.rest.requests
        || not (is_allowed policy (review_access policy it.repo false))
      then ok (settled, db)
      else (get_job_at it.repo it.item "review" >>= admit_current it day force enforce) db
