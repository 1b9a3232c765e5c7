-- ===== src/Refresh.antt =====
-- internal/engine/engine.go and internal/store/store.go: deliveries, the queue of refresh requests,
-- and the admission of what a refresh fetched. The rows are kept beside those of the lease engine.
pub mod Queue
pub mod Session
pub mod Admit
pub mod Step
pub mod Keys
pub mod Moves
pub mod Frame
pub mod Operations
pub mod Trace
pub mod Deliveries
pub mod Owners
pub mod Admitted
pub mod Ways
pub mod Again
pub mod Settles
pub mod Asked
pub mod Leases
pub mod Tests
use rusui.Common.{ℕ, ◌*◌, Bool, Option, List, String, Result, ok, err}
use rusui.Store.{Item, Db, Error, Tx}

-- RefreshRetryLimit.
abbrev pub refresh_retry_limit : ℕ
refresh_retry_limit = 5

-- Nanoseconds.
abbrev pub second : ℕ
second = 1_000_000_000

-- EventMaxAge.
abbrev pub event_max_age : ℕ
event_max_age = 24 * (60 * (60 * second))

-- The `state` column of `refresh_requests`.
pub data RequestState : Type 0 where
  queued running idle failed : RequestState

-- A row of `refresh_requests`.
pub record Request : Type 0 where
  pub repo : String
  pub item : ℕ
  pub item_kind : String
  pub generation : ℕ
  pub owner : Bool
  pub owner_expires_at : Option ℕ
  pub retry_count : ℕ
  pub needs_another : Bool
  pub force : Bool
  pub state : RequestState
  pub not_before : Option ℕ

-- A row of `deliveries`.
pub record Delivery : Type 0 where
  pub delivery_id : String
  pub repo : String
  pub item : ℕ
  pub item_kind : String
  pub received_at : ℕ

-- A row of `events`.
pub record Event : Type 0 where
  pub session : Option ℕ
  pub source : String
  pub delivery : Delivery

-- A row of `evidence_invalidations`.
pub record Invalidation : Type 0 where
  pub review_revision : ℕ
  pub action : String
  pub consumed : Bool

-- A row of `sessions` of kind review.
pub record ReviewSession : Type 0 where
  pub id : ℕ
  pub environment : ℕ
  pub repo : String
  pub item : ℕ
  pub item_kind : String
  pub tenant : String

-- The tables of this component, and in `rest` those of the components that it calls.
pub record Intake (Y : Type 0) : Type 0 where
  pub requests : List Request
  pub deliveries : List Delivery
  pub events : List Event
  pub invalidations : List Invalidation
  pub sessions : List ReviewSession
  pub rest : Y

-- The calls that admission makes into the environments and the sessions' other columns, with
-- `snapshot.ItemHash` and Go's `strings.TrimSpace`.
pub record Rooms (Y : Type 0) : Type 0 where
  pub item_hash : Item → String
  pub trim_space : String → String
  pub insert_environment : String → ℕ → Y → Result Error (ℕ × Y)
  pub ensure_session_retention : ℕ → Y → Result Error Y
  pub set_session_execution : ℕ → Y → Result Error Y

abbrev pub set_intake : {Y : Type 0} → Intake Y → Db (Intake Y) → Db (Intake Y)
set_intake x db = record db { rest = x }

-- A call on what the components that it calls keep.
abbrev pub outside : {Y : Type 0} → (Y → Result Error Y) → Tx (Intake Y) (Unit {0})
outside f db = elim (f db.rest.rest) [
  | ok y ↦ ok (tt, set_intake (record db.rest { rest = y }) db)
  | err e ↦ err e
]
