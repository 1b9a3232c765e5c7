-- ===== src/Store/Turns.antt =====
-- internal/store/store.go: turns, snapshots, receipts, and the daily review counts.
use rusui.Common.{
  ℕ, ◌+◌, ◌-◌, Bool, true, false, ◌&&◌, Option, none, some, List, [], ◌∷◌, ◌++◌, String, ok, err,
  if◌then◌else◌, ◌==◌, ltb, str_eq, length, find_where, update_where, select_where, count_where,
  max_of, first_by,
}
use rusui.Store.{
  State, leased, Job, Item, SnapshotRow, Kind, Payload, Receipt, ReviewRow, CountRow, Db, no_rows,
  constraint, count_missing, Tx,
}

abbrev pub find_job : ℕ → List Job → Option Job
find_job id = find_where (λ (t : Job). t.id == id)

-- `GetJobByIDTx`, and `GetTurnTx`, which reads the same row of `turns`.
unfoldable pub get_job : {X : Type 0} → ℕ → Tx X Job
get_job id db = elim (find_job id db.turns) [ none ↦ err no_rows | some j ↦ ok (j, db) ]

unfoldable pub get_turn : {X : Type 0} → ℕ → Tx X Job
get_turn id db = elim (find_job id db.turns) [ none ↦ err no_rows | some j ↦ ok (j, db) ]

-- `GetJobTx`: no row is no error.
unfoldable pub get_job_at : {X : Type 0} → String → ℕ → String → Tx X (Option Job)
get_job_at repo item lane db = ok (
  find_where (λ (t : Job). str_eq t.repo repo && (t.item == item && str_eq t.lane lane)) db.turns,
  db,
)

-- `ListTurnsForSession`, ORDER BY id: the first turn of the session.
unfoldable pub first_turn : {X : Type 0} → ℕ → Db X → Option Job
first_turn session db =
    first_by (λ (t : Job). t.id) (select_where (λ (t : Job). t.session == session) db.turns)

-- `UPDATE turns SET … WHERE id=?`: the seven columns of the statement, and no other.
abbrev pub set_columns : Job → Job → Job
set_columns j t = record t {
  pending_revision = j.pending_revision;
  claimed_revision = j.claimed_revision;
  lease_generation = j.lease_generation;
  lease_expires_at = j.lease_expires_at;
  execution_deadline_at = j.execution_deadline_at;
  retry_count = j.retry_count;
  state = j.state;
}

unfoldable pub update_job : {X : Type 0} → Job → Tx X (Unit {0})
update_job j db =
    ok (tt, record db { turns = update_where (λ (t : Job). t.id == j.id) (set_columns j) db.turns })

abbrev pub is_snapshot : String → ℕ → ℕ → SnapshotRow → Bool
is_snapshot repo item rev r = str_eq r.repo repo && (r.item == item && r.revision == rev)

unfoldable pub load_snapshot : {X : Type 0} → String → ℕ → ℕ → Tx X Item
load_snapshot repo item rev db = elim (find_where (is_snapshot repo item rev) db.snapshots) [
  | none ↦ err no_rows
  | some r ↦ ok (r.payload, db)
]

-- The primary key is (repo, item, revision).
unfoldable pub save_snapshot : {X : Type 0} → String → ℕ → ℕ → Item → Tx X (Unit {0})
save_snapshot repo item rev it db = elim (find_where (is_snapshot repo item rev) db.snapshots) [
  | none ↦ ok (
    tt,
    record db {
      snapshots = record { repo = repo; item = item; revision = rev; payload = it } ∷ db.snapshots;
    },
  )
  | some _ ↦ err constraint
]

abbrev pub is_receipt : ℕ → ℕ → ℕ → Receipt → Bool
is_receipt job gen claimed r =
    r.job == job && (r.lease_generation == gen && r.claimed_revision == claimed)

abbrev pub find_receipt : ℕ → ℕ → ℕ → List Receipt → Option Receipt
find_receipt job gen claimed = find_where (is_receipt job gen claimed)

unfoldable pub get_receipt : {X : Type 0} → ℕ → ℕ → ℕ → Tx X (Option Receipt)
get_receipt job gen claimed db = ok (find_receipt job gen claimed db.receipts, db)

-- The primary key is (job_id, lease_generation, claimed_revision).
unfoldable pub insert_receipt : {X : Type 0} → ℕ → ℕ → ℕ → Kind → Payload → Tx X (Unit {0})
insert_receipt job gen claimed kind payload db = elim (find_receipt job gen claimed db.receipts) [
  | none ↦ ok (
    tt,
    record db {
      receipts =
          record {
            job = job;
            lease_generation = gen;
            claimed_revision = claimed;
            kind = kind;
            payload = payload;
          }
          ∷ db.receipts;
    },
  )
  | some _ ↦ err constraint
]

-- `INSERT INTO review_revisions`, answering the new row's id.
unfoldable pub insert_review : {X : Type 0} → ReviewRow → Tx X ℕ
insert_review r db = ok (length db.reviews + 1, record db { reviews = db.reviews ++ (r ∷ []) })

abbrev pub is_count : String → String → CountRow → Bool
is_count repo day r = str_eq r.repo repo && str_eq r.day day

unfoldable pub count_reviews_today : {X : Type 0} → String → String → Tx X ℕ
count_reviews_today repo day db = elim (find_where (is_count repo day) db.counts) [
  | none ↦ ok (0, db)
  | some r ↦ ok (r.count, db)
]

unfoldable pub incr_reviews_today : {X : Type 0} → String → String → Tx X (Unit {0})
incr_reviews_today repo day db = elim (find_where (is_count repo day) db.counts) [
  | none ↦ ok (tt, record db { counts = record { repo = repo; day = day; count = 1 } ∷ db.counts })
  | some _ ↦ ok (
    tt,
    record db {
      counts =
          update_where (is_count repo day) (λ (r : CountRow). record r { count = r.count + 1 })
            db.counts;
    },
  )
]

-- Only a positive count is lowered, and the statement must have changed one row.
unfoldable pub decr_reviews_today : {X : Type 0} → String → String → Tx X (Unit {0})
decr_reviews_today repo day db =
    let selects = λ (r : CountRow). is_count repo day r && ltb 0 r.count in
    if count_where selects db.counts == 1
    then ok (
      tt,
      record db {
        counts =
            update_where selects (λ (r : CountRow). record r { count = r.count - 1 }) db.counts;
      },
    )
    else err count_missing

-- An empty hash clears the column.
unfoldable pub set_turn_claim_token : {X : Type 0} → ℕ → String → Tx X (Unit {0})
set_turn_claim_token id hash db =
    let token : Option String = if str_eq hash "" then none else some hash in
    ok (
      tt,
      record db {
        turns =
            update_where (λ (t : Job). t.id == id)
              (λ (t : Job). record t { claim_token_hash = token }) db.turns;
      },
    )

abbrev pub is_leased : State → Bool
is_leased leased = true
is_leased _ = false

abbrev pub holds_token : String → Job → Bool
holds_token hash t = elim t.claim_token_hash [
  | none ↦ false
  | some token ↦ str_eq token hash && is_leased t.state
]

-- ORDER BY id DESC LIMIT 1: the greatest id, or 0 when there is none.
unfoldable pub leased_turn_by_claim_token : {X : Type 0} → String → Tx X ℕ
leased_turn_by_claim_token hash db =
    if str_eq hash ""
    then ok (0, db)
    else ok (max_of (λ (t : Job). t.id) (select_where (holds_token hash) db.turns), db)
