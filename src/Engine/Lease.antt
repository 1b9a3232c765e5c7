-- ===== src/Engine/Lease.antt =====
-- internal/engine/engine.go: how a lease is checked, kept alive, expired, and failed.
use rusui.Common.{
  ℕ, ◌+◌, Bool, true, false, ◌&&◌, ◌||◌, not, Option, none, some, List, [], ◌∷◌, Result, ok, err,
  if◌then◌else◌, ◌==◌, leb, ltb,
}
use rusui.Store.{
  State, queued, failed, Job, SteerRow, Receipt, complete, fail, cancelled, Payload, failed_turn,
  Db, Error, reject, Tx, ◌>>=◌, ◌>>◌, return, fail_with, elsewhere, run_tx,
}
use rusui.Store.Turns.{get_job, get_turn, update_job, get_receipt, insert_receipt, is_leased}
use rusui.Store.Steers.{promote_steers, receive_steer, next_steer}
use rusui.Engine.{Calls, retry_limit, liveness, grant_ttl}
use rusui.Engine.FollowUp.{apply_next_follow_up}

-- `t != nil && !now.Before(*t)`.
abbrev pub is_past : Option ℕ → ℕ → Bool
is_past none now = false
is_past (some t) now = leb t now

abbrev pub is_failed : State → Bool
is_failed failed = true
is_failed _ = false

-- `acceptLeaseIdentity`: the caller holds the lease that is current.
unfoldable pub accept_lease_identity : Job → ℕ → ℕ → Bool
accept_lease_identity j gen claimed =
    is_leased j.state && (j.lease_generation == gen && j.claimed_revision == claimed)

unfoldable pub accept_lease : Job → ℕ → ℕ → ℕ → Bool
unfolding accept_lease_identity
accept_lease j gen claimed now =
    accept_lease_identity j gen claimed
    && (not (is_past j.lease_expires_at now) && not (is_past j.execution_deadline_at now))

abbrev pub require : {X : Type 0} → Bool → Error → Tx X (Unit {0})
require b e db = if b then ok (tt, db) else err e

-- An error of the callee is reported as `errReject`.
abbrev pub or_reject : {X : Type 0} → Tx X (Unit {0}) → Tx X (Unit {0})
or_reject m db = elim (m db) [ ok (a, next) ↦ ok (a, next) | err _ ↦ err reject ]

module _ {X : Type 0} (calls : Calls X) (now : ℕ) where
  unfoldable pub touch : ℕ → Tx X (Unit {0})
  touch session = elsewhere (calls.touch_session_environment session now (now + calls.env_ttl))

  -- `if j.State == "failed" { finishMeasurementTx }`.
  unfoldable pub measure_if_failed : Job → Tx X (Unit {0})
  measure_if_failed j =
      if is_failed j.state
      then elsewhere (calls.finish_measurement j.id j.state none now)
      else return tt

  -- What a revision that is not retried leaves: the next prompt, or a failed turn.
  unfoldable pub next_or_failed : Job → Tx X Job
  next_or_failed j = do
    next ← apply_next_follow_up calls j
    return (
        if ltb j.pending_revision next.pending_revision
        then record next { retry_count = 0; state = queued }
        else record next { state = failed })

  unfoldable pub record_failure : Job → ℕ → ℕ → Option Receipt → Tx X (Unit {0})
  record_failure j gen claimed none = insert_receipt j.id gen claimed fail failed_turn
  record_failure j gen claimed (some r) = elim r.kind [
    | fail ↦ return tt
    | complete ↦ fail_with reject
    | cancelled ↦ fail_with reject
  ]

  unfoldable pub close_failed : Job → Tx X (Unit {0})
  unfolding next_or_failed measure_if_failed
  close_failed j =
      if ltb j.claimed_revision j.pending_revision
      then update_job (record j { state = queued })
      else (do settled ← next_or_failed j; update_job settled; measure_if_failed settled)

  abbrev pub bump_if : Bool → Job → Job
  bump_if bump j = if bump then record j { lease_generation = j.lease_generation + 1 } else j

  -- `failClosedTx`: the execution deadline has passed; the revision is not retried.
  unfoldable pub fail_closed : Job → ℕ → ℕ → Bool → Tx X (Unit {0})
  unfolding record_failure touch close_failed
  fail_closed j gen claimed bump = do
    found ← get_receipt j.id gen claimed
    record_failure j gen claimed found
    steers ← promote_steers j.id gen
    turn ← get_turn j.id
    touch turn.session
    close_failed (bump_if bump j)

  unfoldable pub retry_or_fail : Job → ℕ → Tx X (Unit {0})
  unfolding next_or_failed measure_if_failed
  retry_or_fail j steers =
      if ltb 0 steers || leb retry_limit j.retry_count
      then (do settled ← next_or_failed j; update_job settled; measure_if_failed settled)
      else update_job (record j { state = queued })

  -- `finalizeFailureTx`: the runner failed the turn in time, or its result was refused.
  unfoldable pub finalize_failure : Job → ℕ → ℕ → Tx X (Unit {0})
  unfolding touch retry_or_fail
  finalize_failure j gen claimed = do
    turn ← get_turn j.id
    touch turn.session
    insert_receipt j.id gen claimed fail failed_turn
    steers ← promote_steers j.id gen
    if ltb j.claimed_revision j.pending_revision
        then update_job (record j { state = queued })
        else retry_or_fail (record j { retry_count = j.retry_count + 1 }) steers

  -- What an expired lease becomes, given how many of its steers were promoted.
  unfoldable pub settle_expired : Job → ℕ → Tx X Job
  settle_expired j steers =
      if ltb 0 steers
      then (let j' = record j { retry_count = 0; state = queued } in
          if j.claimed_revision == j.pending_revision
          then apply_next_follow_up calls j'
          else return j')
      else if j.claimed_revision == j.pending_revision && leb retry_limit j.retry_count
      then (do
        next ← apply_next_follow_up calls j
        return (
            if ltb next.claimed_revision next.pending_revision
            then record next { retry_count = 0; state = queued }
            else record next { state = failed }))
      else return (record j { state = queued })

  abbrev pub count_attempt : Job → Job
  count_attempt j = record j {
    retry_count =
        if j.claimed_revision == j.pending_revision then j.retry_count + 1 else j.retry_count;
    lease_generation = j.lease_generation + 1;
  }

  unfoldable pub release_expired : Job → Tx X (Unit {0})
  unfolding settle_expired measure_if_failed touch
  release_expired j = do
    steers ← promote_steers j.id j.lease_generation
    settled ← settle_expired (count_attempt j) steers
    update_job settled
    measure_if_failed settled
    turn ← get_turn j.id
    touch turn.session

  -- `expireLeaseTx`.
  unfoldable pub expire_lease : Job → Tx X (Unit {0})
  unfolding fail_closed release_expired
  expire_lease j =
      if not (is_leased j.state)
      then return tt
      else if not (is_past j.lease_expires_at now) && not (is_past j.execution_deadline_at now)
      then return tt
      else if is_past j.execution_deadline_at now
      then fail_closed j j.lease_generation j.claimed_revision true
      else release_expired j

  unfoldable pub fail_held : Job → ℕ → ℕ → Tx X (Unit {0})
  unfolding accept_lease_identity fail_closed finalize_failure
  fail_held j gen claimed =
      require (accept_lease_identity j gen claimed) reject
      >> (if is_past j.execution_deadline_at now
          then fail_closed j gen claimed false
          else if is_past j.lease_expires_at now
          then fail_with reject
          else finalize_failure j gen claimed)

  abbrev pub payload_of : Option Receipt → Option Payload
  payload_of none = none
  payload_of (some r) = some r.payload

  unfoldable pub fail_unanswered : ℕ → ℕ → ℕ → Option Receipt → Tx X (Option Payload)
  unfolding fail_held
  fail_unanswered id gen claimed (some r) = return (some r.payload)
  fail_unanswered id gen claimed none = do
    j ← get_job id
    fail_held j gen claimed
    found ← get_receipt id gen claimed
    return (payload_of found)

  unfoldable pub fail_tx : ℕ → ℕ → ℕ → Tx X (Option Payload)
  unfolding fail_unanswered
  fail_tx id gen claimed = do
    found ← get_receipt id gen claimed
    fail_unanswered id gen claimed found

  -- `Fail`.
  unfoldable pub fail_turn : ℕ → ℕ → ℕ → Db X → Db X × Result Error (Option Payload)
  unfolding fail_tx
  fail_turn id gen claimed = run_tx (fail_tx id gen claimed)

  unfoldable pub receive_each : ℕ → ℕ → List ℕ → Tx X (Unit {0})
  receive_each id gen [] = return tt
  receive_each id gen (s ∷ rest) = or_reject (receive_steer id gen s) >> receive_each id gen rest

  unfoldable pub heartbeat_tx : ℕ → ℕ → ℕ → List ℕ → Tx X (Option SteerRow)
  unfolding accept_lease receive_each
  heartbeat_tx id gen claimed received = do
    j ← get_job id
    require (accept_lease j gen claimed now) reject
    receive_each id gen received
    update_job (record j { lease_expires_at = some (now + liveness) })
    elsewhere (calls.renew_turn_credential id gen (now + grant_ttl))
    elsewhere (calls.renew_grant id (now + grant_ttl))
    turn ← get_turn id
    next_steer turn.id gen

  -- `HeartbeatSteerReceived`.
  unfoldable pub heartbeat : ℕ → ℕ → ℕ → List ℕ → Db X → Db X × Result Error (Option SteerRow)
  unfolding heartbeat_tx
  heartbeat id gen claimed received = run_tx (heartbeat_tx id gen claimed received)
