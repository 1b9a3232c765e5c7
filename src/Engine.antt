-- ===== src/Engine.antt =====
-- internal/engine/engine.go: the constants of the lease engine, its artifacts, and the interface to
-- the components that a lease transaction calls and that keep their rows elsewhere.
pub mod Pause
pub mod FollowUp
pub mod Lease
pub mod Complete
pub mod Claim
pub mod Scope
pub mod Choose
pub mod ClaimToken
pub mod Sorted
pub mod Eligible
pub mod Grants
pub mod Paused
pub mod Cap
pub mod ClaimTests
pub mod Stop
pub mod Prompt
pub mod Protocol
pub mod Refine
pub mod Trace
pub mod Replay
pub mod Answers
pub mod Repeat
pub mod Tests
use rusui.Common.{ℕ, ◌+◌, ◌*◌, Bool, Option, List, String, Result}
use rusui.Store.{State, Job, Item, Error}

abbrev pub retry_limit : ℕ
retry_limit = 3

-- Nanoseconds.
abbrev pub minute : ℕ
minute = 60_000_000_000

abbrev pub liveness : ℕ
liveness = 3 * minute

abbrev pub exec_deadline : ℕ
exec_deadline = 12 * minute

abbrev pub run_exec_deadline : ℕ
run_exec_deadline = 45 * minute

abbrev pub grant_ttl : ℕ
grant_ttl = 10 * minute

abbrev pub result_schema : ℕ
result_schema = 1

pub record Finding : Type 0 where
  pub title : String
  pub body : String

-- Whether `Publish` and `Draft` were sent is all that the transaction of Complete tests.
pub record TaskResult : Type 0 where
  pub schema_version : ℕ
  pub source_hash : String
  pub candidate_sha : String
  pub findings : List Finding
  pub blocked_reason : String
  pub agent_verified : Bool
  pub pull_request : ℕ
  pub has_publish : Bool
  pub has_draft : Bool
  pub outcome : String

pub record Artifact : Type 0 where
  pub repo : String
  pub item : ℕ
  pub item_kind : String
  pub claimed_revision : ℕ
  pub snapshot_hash : String
  pub main_sha : String
  pub head_sha : String
  pub verdict : String
  pub guest_session_id : String
  pub result : Option TaskResult

pub record PromptFile : Type 0 where
  pub name : String
  pub body : String

-- What the prompt handlers read of a session.
pub record Session : Type 0 where
  pub id : ℕ
  pub project : String
  pub archived : Bool
  pub retention_expired : Bool

-- The calls that a lease transaction makes into other components: environments, measurements,
-- credentials, attachments, actions, flight records and the apply stage. Each may fail, which rolls
-- the transaction back. `item_hash` is `snapshot.ItemHash`, and `overlay_get` is `store.OverlayGet`, which
-- answers the empty text for a key without a row.
pub record Calls (X : Type 0) : Type 0 where
  pub item_hash : Item → String
  pub env_ttl : ℕ
  pub touch_session_environment : ℕ → ℕ → ℕ → X → Result Error X
  pub begin_measurement : ℕ → ℕ → X → Result Error X
  pub finish_measurement : ℕ → State → Option Artifact → ℕ → X → Result Error X
  pub set_session_prompt : ℕ → String → X → Result Error X
  pub bind_prompt_attachments : ℕ → ℕ → ℕ → X → Result Error X
  pub insert_prompt_attachments : Job → ℕ → ℕ → List PromptFile → ℕ → X → Result Error X
  pub check_child_reactivation : List Job → ℕ → X → Result Error X
  pub bind_session_guest : ℕ → X → Result Error X
  pub check_requested_secrets : X → Result Error X
  pub renew_turn_credential : ℕ → ℕ → ℕ → X → Result Error X
  pub renew_grant : ℕ → ℕ → X → Result Error X
  pub record_proposals : Job → ℕ → Artifact → X → Result Error X
  pub record_flight : ℕ → ℕ → ℕ → X → Result Error X
  pub set_guest_session : ℕ → String → X → Result Error X
  pub maybe_enqueue_apply : Job → Item → ℕ → Artifact → X → Result Error X
  pub insert_operator_steer : ℕ → Job → String → String → X → Result Error X
  pub insert_retry_audit : ℕ → String → ℕ → ℕ → ℕ → X → Result Error X
  pub publish_pending_comments : String → ℕ → X → X
  pub get_session : ℕ → X → Result Error Session
  pub overlay_get : String → X → Result Error String
  pub valid_prompt_files : String → List PromptFile → Option Error
