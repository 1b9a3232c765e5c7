-- ===== src/Engine/Claim.antt =====
-- internal/engine/engine.go: how a claim grants a lease, answers a repeated claim, and gives a lease
-- back. Which queued turn is claimed is chosen before `grant_lease`.
use rusui.Common.{
  ℕ, ◌+◌, Bool, ◌&&◌, ◌||◌, not, Option, none, some, String, Result, if◌then◌else◌, ◌==◌, str_eq,
}
use rusui.Store.{
  queued, leased, Job, Item, Db, Error, reject, Tx, ◌>>=◌, ◌>>◌, return, elsewhere, run_tx,
}
use rusui.Store.Turns.{
  get_job, get_turn, update_job, load_snapshot, is_leased, set_turn_claim_token,
  leased_turn_by_claim_token, incr_reviews_today, decr_reviews_today,
}
use rusui.Engine.{Calls, liveness, run_exec_deadline}
use rusui.Engine.Lease.{is_past, require}

pub record Claim : Type 0 where
  pub job : Job
  pub snapshot : Item
  pub item_hash : String
  pub review_count_day : String

-- A run turn has its own, longer execution deadline.
abbrev pub deadline_for : Job → ℕ → ℕ → ℕ
deadline_for j exec_deadline now =
    if str_eq j.lane "run" then now + run_exec_deadline else now + exec_deadline

abbrev pub lease_job : ℕ → ℕ → Job → Job
lease_job exec_deadline now j = record j {
  lease_generation = j.lease_generation + 1;
  claimed_revision = j.pending_revision;
  state = leased;
  lease_expires_at = some (now + liveness);
  execution_deadline_at = some (deadline_for j exec_deadline now);
}

module _ {X : Type 0} (calls : Calls X) (now : ℕ) where
  unfoldable pub count_review : String → String → Job → Tx X String
  count_review repo day j =
      if str_eq j.lane "review" then incr_reviews_today repo day >> return day else return ""

  -- The end of `ClaimToken`'s transaction, once the turn `id` is chosen.
  unfoldable pub grant_lease : ℕ → String → String → String → ℕ → Tx X Claim
  unfolding count_review
  grant_lease exec_deadline repo day token id = do
    j ← get_job id
    turn ← get_turn id
    elsewhere (calls.bind_session_guest turn.session)
    elsewhere calls.check_requested_secrets
    elsewhere (calls.begin_measurement id now)
    let held = lease_job exec_deadline now j
    update_job held
    set_turn_claim_token held.id token
    counted ← count_review repo day held
    snap ← load_snapshot held.repo held.item held.claimed_revision
    return (record {
      job = held;
      snapshot = snap;
      item_hash = calls.item_hash snap;
      review_count_day = counted;
    })

  -- The lease that the token already holds, if it is live.
  unfoldable pub replay_found : ℕ → Tx X (Option Claim)
  replay_found id = do
    j ← get_job id
    if not (is_leased j.state)
          || (is_past j.lease_expires_at now || is_past j.execution_deadline_at now)
        then return none
        else (do
          snap ← load_snapshot j.repo j.item j.claimed_revision
          return (
              some (record {
                job = j;
                snapshot = snap;
                item_hash = calls.item_hash snap;
                review_count_day = "";
              })))

  -- `replayClaimTx`.
  unfoldable pub replay_claim : String → Tx X (Option Claim)
  unfolding replay_found
  replay_claim token = do
    id ← leased_turn_by_claim_token token
    if id == 0 then return none else replay_found id

  unfoldable pub restore_budget : Claim → String → Tx X (Unit {0})
  restore_budget c repo =
      if str_eq c.review_count_day "" then return tt else decr_reviews_today repo c.review_count_day

  abbrev pub is_current : Claim → Job → Bool
  is_current c j =
      is_leased j.state
      && (j.lease_generation == c.job.lease_generation
          && j.claimed_revision == c.job.claimed_revision)

  unfoldable pub requeue_tx : Claim → Tx X (Unit {0})
  unfolding restore_budget
  requeue_tx c = do
    j ← get_job c.job.id
    require (is_current c j) reject
    restore_budget c j.repo
    update_job (record j { state = queued; lease_expires_at = none; execution_deadline_at = none })

  -- `requeueBusyEnvironmentClaim`: the environment is busy, so the lease is given back.
  unfoldable pub requeue_busy : Claim → Db X → Db X × Result Error (Unit {0})
  unfolding requeue_tx
  requeue_busy c = run_tx (requeue_tx c)
