-- ===== src/Engine/Stop.antt =====
-- internal/engine/cancel.go `cancelTurnTx`, internal/engine/halt.go `haltLeasedTurnTx`, and
-- internal/engine/engine.go `OperatorRetry`: what an operator does to a turn.
use rusui.Common.{ℕ, ◌+◌, Option, none, some, Result, if◌then◌else◌, ◌==◌, ltb, String}
use rusui.Store.{
  queued, failed, Job, cancelled, cancelled_turn, halted_turn, Db, Error, not_failed, no_review_job,
  Tx, ◌>>=◌, ◌>>◌, return, fail_with, elsewhere, run_tx,
}
use rusui.Store.Turns.{get_job, get_turn, update_job, insert_receipt, is_leased, get_job_at}
use rusui.Store.Steers.{promote_steers}
use rusui.Engine.{Calls}
use rusui.Engine.FollowUp.{apply_next_follow_up, is_queued}
use rusui.Engine.Lease.{touch, measure_if_failed, is_failed, require}

module _ {X : Type 0} (calls : Calls X) (now : ℕ) where
  -- Follow-ups and steers that are still owed requeue the turn.
  unfoldable pub settle_cancelled : Job → ℕ → Tx X Job
  settle_cancelled j steers =
      if ltb j.claimed_revision j.pending_revision
      then return (record j { state = queued })
      else if ltb 0 steers
      then apply_next_follow_up calls (record j { state = queued; retry_count = 0 })
      else return (record j { state = failed })

  unfoldable pub cancel_leased : Job → Tx X (Unit {0})
  unfolding settle_cancelled
  cancel_leased j = do
    insert_receipt j.id j.lease_generation j.claimed_revision cancelled cancelled_turn
    steers ← promote_steers j.id j.lease_generation
    settled ← settle_cancelled j steers
    update_job settled
    measure_if_failed calls now settled
    turn ← get_turn j.id
    touch calls now turn.session

  unfoldable pub cancel_queued : Job → Tx X (Unit {0})
  cancel_queued j =
      update_job (record j { state = failed })
      >> elsewhere (calls.finish_measurement j.id failed none now)

  unfoldable pub cancel_turn : ℕ → Tx X (Unit {0})
  unfolding cancel_leased cancel_queued
  cancel_turn id = do
    j ← get_job id
    if is_queued j.state
        then cancel_queued j
        else if is_leased j.state
        then cancel_leased j
        else return tt

  unfoldable pub settle_halted : Job → ℕ → Tx X Job
  settle_halted j steers =
      let requeued = record j { lease_generation = j.lease_generation + 1; state = queued } in
      if ltb 0 steers
      then (let fresh = record requeued { retry_count = 0 } in
          if j.claimed_revision == j.pending_revision
          then apply_next_follow_up calls fresh
          else return fresh)
      else return requeued

  unfoldable pub halt_leased : Job → Tx X (Unit {0})
  unfolding settle_halted
  halt_leased j = do
    insert_receipt j.id j.lease_generation j.claimed_revision cancelled halted_turn
    steers ← promote_steers j.id j.lease_generation
    settled ← settle_halted j steers
    update_job settled
    turn ← get_turn j.id
    touch calls now turn.session

  unfoldable pub halt_turn : ℕ → Tx X (Unit {0})
  unfolding halt_leased
  halt_turn id = do j ← get_job id; if is_leased j.state then halt_leased j else return tt

  unfoldable pub retry_job : String → Option Job → Tx X (Unit {0})
  retry_job actor none = fail_with no_review_job
  retry_job actor (some j) =
      require (is_failed j.state) not_failed
      >> (elsewhere (calls.insert_retry_audit j.id actor now j.pending_revision j.retry_count)
          >> update_job (record j { retry_count = 0; state = queued }))

  -- `OperatorRetry`.
  unfoldable pub operator_retry : String → ℕ → String → Db X → Db X × Result Error (Unit {0})
  unfolding retry_job
  operator_retry repo item actor =
      run_tx do found ← get_job_at repo item "review"; retry_job actor found
