-- ===== src/Store.antt =====
-- internal/store: the rows the lease engine reads and writes, transactions, and (in the children)
-- the statements over them. SQLite itself is not code of the repository: a table is the list of
-- its rows, and a statement does to the list what its SQL text says.
--
-- Text columns that hold JSON are kept as the values they encode. Times are instants, numbers of
-- nanoseconds. Errors other than those the code tests for are told apart only as far as needed.
pub mod Turns
pub mod FollowUps
pub mod Steers
pub mod Logic
pub mod Frame
pub mod Run
pub mod Order
use rusui.Common.{
  ℕ, suc, ◌≡◌, Bool, true, false, Option, none, some, List, [], ◌∷◌, String, Result, ok, err,
}

-- The `state` column of `turns`: the four values the code writes.
pub data State : Type 0 where
  queued leased completed failed : State

-- `Job`: a row of the `jobs` view, which is `turns` joined with its session; `session` is the
-- `session_id` column that `GetTurnTx` reads from the same row, and `claim_token_hash` a column of
-- `turns` that only the claim reads and writes.
pub record Job : Type 0 where
  pub id : ℕ
  pub session : ℕ
  pub repo : String
  pub item : ℕ
  pub item_kind : String
  pub lane : String
  pub pending_revision : ℕ
  pub claimed_revision : ℕ
  pub lease_generation : ℕ
  pub lease_expires_at : Option ℕ
  pub execution_deadline_at : Option ℕ
  pub retry_count : ℕ
  pub state : State
  pub claim_token_hash : Option String

-- snapshot.Item.
pub record Item : Type 0 where
  pub repo : String
  pub item : ℕ
  pub item_kind : String
  pub state : String
  pub title : String
  pub body : String
  pub labels : List String
  pub assignees : List String
  pub author_association : String
  pub draft : Bool
  pub merged : Bool
  pub head_sha : String
  pub base_sha : String
  pub updated_at : String
  pub non_bot_comment_count : ℕ
  pub linked_same_repo_items : List ℕ
  pub default_branch : String
  pub main_sha : String
  pub created_at : String
  pub last_non_bot_comment_at : String
  pub merged_into_default : Bool
  pub merge_commit_sha : String
  pub base_ref : String

pub record SnapshotRow : Type 0 where
  pub repo : String
  pub item : ℕ
  pub revision : ℕ
  pub payload : Item

pub data Kind : Type 0 where
  complete fail cancelled : Kind

-- The JSON payload of a receipt.
pub data Payload : Type 0 where
  failed_turn cancelled_turn halted_turn : Payload
  completed_turn : ℕ → Payload

pub record Receipt : Type 0 where
  pub job : ℕ
  pub lease_generation : ℕ
  pub claimed_revision : ℕ
  pub kind : Kind
  pub payload : Payload

-- A row of `followup_queue`.
pub record FollowUpRow : Type 0 where
  pub session : ℕ
  pub seq : ℕ
  pub prompt : String
  pub consumed : Bool
  pub queued : Bool
  pub dropped : Bool

-- A row of `turn_steers`.
pub record SteerRow : Type 0 where
  pub id : ℕ
  pub session : ℕ
  pub turn : ℕ
  pub lease_generation : ℕ
  pub prompt : String
  pub followup_seq : ℕ
  pub offered : Bool
  pub received : Bool
  pub acknowledged : Bool
  pub promoted : Bool

-- A row of `review_revisions`; its id is its place in the table, from 1.
pub record ReviewRow : Type 0 where
  pub job : ℕ
  pub claimed_revision : ℕ
  pub item_hash : String
  pub main_sha : String

-- A row of `daily_review_counts`.
pub record CountRow : Type 0 where
  pub repo : String
  pub day : String
  pub count : ℕ

-- The tables of the lease engine, and in `rest` whatever the other components keep.
pub record Db (X : Type 0) : Type 0 where
  pub turns : List Job
  pub snapshots : List SnapshotRow
  pub receipts : List Receipt
  pub followups : List FollowUpRow
  pub steers : List SteerRow
  pub reviews : List ReviewRow
  pub counts : List CountRow
  pub rest : X

pub data Error : Type 0 where
  reject no_rows constraint paused archived retention_expired prompt_required no_turns : Error
  unknown_receipt unknown_acknowledgement no_review_job not_failed count_missing : Error
  policy_denied budget_exhausted : Error
  other : String → Error

-- A function over an open `*sql.Tx`. An error leaves nothing to commit.
abbrev pub Tx : Type 0 → Type 0 → Type 0
Tx X A = Db X → Result Error (A × Db X)

infixl 5 ◌>>=◌ ◌>>◌
abbrev pub ◌>>=◌ : {X A B : Type 0} → Tx X A → (A → Tx X B) → Tx X B
◌>>=◌ m f db = elim (m db) [ ok (a, next) ↦ f a next | err e ↦ err e ]

abbrev pub ◌>>◌ : {X B : Type 0} → Tx X (Unit {0}) → Tx X B → Tx X B
m >> k = m >>= λ _. k

abbrev pub return : {X A : Type 0} → A → Tx X A
return a db = ok (a, db)

abbrev pub fail_with : {X A : Type 0} → Error → Tx X A
fail_with e db = err e

-- `Store.Tx`: commit what the function leaves, or roll everything back on its error.
abbrev pub run_tx : {X A : Type 0} → Tx X A → Db X → Db X × Result Error A
run_tx fn db = elim (fn db) [ ok (a, next) ↦ (next, ok a) | err e ↦ (db, err e) ]

-- A statement on what the other components keep.
abbrev pub elsewhere : {X : Type 0} → (X → Result Error X) → Tx X (Unit {0})
elsewhere f db = elim (f db.rest) [ ok x ↦ ok (tt, record db { rest = x }) | err e ↦ err e ]
