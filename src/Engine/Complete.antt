-- ===== src/Engine/Complete.antt =====
-- internal/engine/engine.go `CompleteWithSteers` and internal/engine/result.go `ValidateResult`: the
-- transaction that records a turn's result, and the publication of pending comments after it. The
-- artifact is the one that the publishing and observing calls before the transaction leave.
use rusui.Common.{
  ℕ, Bool, true, false, ◌&&◌, ◌||◌, not, Option, none, some, List, [], ◌∷◌, String, Result, ok, err,
  if◌then◌else◌, ◌==◌, ltb, str_eq, ◌≡◌, refl, subst, sym,
}
use rusui.Store.{
  queued, completed, Job, Item, Receipt, complete, fail, cancelled, Payload, completed_turn, Db,
  Error, reject, Tx, ◌>>=◌, ◌>>◌, return, fail_with, elsewhere, run_tx,
}
use rusui.Store.Turns.{
  get_job, get_turn, update_job, load_snapshot, get_receipt, insert_receipt, insert_review,
}
use rusui.Store.Steers.{promote_steers, ack_steer}
use rusui.Engine.{Calls, Artifact, TaskResult, Finding, result_schema}
use rusui.Engine.FollowUp.{apply_next_follow_up}
use rusui.Engine.Lease.{accept_lease, require, or_reject, touch, finalize_failure}

abbrev pub no_findings : List Finding → Bool
no_findings [] = true
no_findings (f ∷ fs) = false

abbrev pub result_is_empty : TaskResult → Bool
result_is_empty r =
    no_findings r.findings
    && (str_eq r.blocked_reason ""
        && (r.pull_request == 0 && (not r.has_publish && not r.has_draft)))

-- `ValidateResult(art) == nil`.
unfoldable pub validate_result : Artifact → Bool
validate_result art = if not (str_eq art.item_kind "run") then true else elim art.result [
  | none ↦ false
  | some r ↦
      r.schema_version == result_schema
      && (not (str_eq r.source_hash "" || not (str_eq r.source_hash art.snapshot_hash))
          && (not r.agent_verified && not (result_is_empty r)))
]

-- The result names the turn's own item, at the claimed revision and the snapshot it was given.
unfoldable pub names_snapshot : Job → Item → String → Artifact → Bool
names_snapshot j snap want art =
    str_eq art.repo j.repo
    && (art.item == j.item
        && (str_eq art.item_kind j.item_kind
            && (art.claimed_revision == j.claimed_revision
                && (str_eq art.snapshot_hash want
                    && (not (str_eq j.item_kind "pull") || str_eq art.head_sha snap.head_sha)))))

module _ {X : Type 0} (calls : Calls X) (now : ℕ) where
  unfoldable pub ack_each : ℕ → ℕ → List ℕ → Tx X (Unit {0})
  ack_each id gen [] = return tt
  ack_each id gen (s ∷ rest) = or_reject (ack_steer id gen s) >> ack_each id gen rest

  -- A turn that cannot be read is no error here.
  unfoldable pub keep_guest_session : Job → Artifact → Tx X (Unit {0})
  keep_guest_session j art db = elim (get_turn j.id db) [
    | err _ ↦ ok (tt, db)
    | ok (turn, next) ↦
        if str_eq art.guest_session_id ""
        then ok (tt, next)
        else elsewhere (calls.set_guest_session turn.session art.guest_session_id) next
  ]

  -- The turn is completed, unless another revision is owed.
  unfoldable pub settle_complete : Job → Item → ℕ → Artifact → Tx X (Unit {0})
  settle_complete j snap rev art =
      if j.claimed_revision == j.pending_revision
      then (do
        next ← apply_next_follow_up calls j
        if ltb next.claimed_revision next.pending_revision
            then update_job (record next { state = queued })
            else (do
              update_job (record next { state = completed })
              elsewhere (calls.finish_measurement j.id completed (some art) now)
              elsewhere
                  (calls.maybe_enqueue_apply (record next { state = completed }) snap rev art)))
      else update_job (record j { state = queued })

  unfoldable pub record_complete : Job → Item → ℕ → ℕ → Artifact → List ℕ → Tx X (Option Payload)
  unfolding ack_each keep_guest_session settle_complete
  record_complete j snap gen claimed art acknowledged = do
    ack_each j.id gen acknowledged
    turn ← get_turn j.id
    touch calls now turn.session
    let stored = record art { main_sha = snap.main_sha; snapshot_hash = calls.item_hash snap }
    rev ← insert_review (record {
      job = j.id;
      claimed_revision = j.claimed_revision;
      item_hash = calls.item_hash snap;
      main_sha = snap.main_sha;
    })
    elsewhere (calls.record_proposals j rev stored)
    insert_receipt j.id gen claimed complete (completed_turn rev)
    elsewhere (calls.record_flight j.id gen claimed)
    steers ← promote_steers j.id gen
    keep_guest_session j stored
    settle_complete j snap rev stored
    return (some (completed_turn rev))

  -- A result that is refused fails the turn, and the request itself succeeds with no receipt.
  unfoldable pub complete_held : Job → ℕ → ℕ → Artifact → List ℕ → Tx X (Option Payload)
  unfolding record_complete
  complete_held j gen claimed art acknowledged = do
    snap ← load_snapshot j.repo j.item j.claimed_revision
    if names_snapshot j snap (calls.item_hash snap) art && validate_result art
        then record_complete j snap gen claimed art acknowledged
        else (finalize_failure calls now j gen claimed >> return none)

  unfoldable pub complete_unanswered :
      ℕ → ℕ → ℕ → Artifact → List ℕ → Option Receipt → Tx X (Option Payload)
  unfolding complete_held
  complete_unanswered id gen claimed art acknowledged (some r) = elim r.kind [
    | complete ↦ return (some r.payload)
    | fail ↦ fail_with reject
    | cancelled ↦ fail_with reject
  ]
  complete_unanswered id gen claimed art acknowledged none = do
    j ← get_job id
    require (accept_lease j gen claimed now) reject
    complete_held j gen claimed art acknowledged

  unfoldable pub complete_tx : ℕ → ℕ → ℕ → Artifact → List ℕ → Tx X (Option Payload)
  unfolding complete_unanswered
  complete_tx id gen claimed art acknowledged = do
    found ← get_receipt id gen claimed
    complete_unanswered id gen claimed art acknowledged found

  -- `publishPendingComments`, after a request that named a repository. Its error is only logged.
  unfoldable pub publish_pending : Artifact → Db X → Db X
  publish_pending art db =
      if str_eq art.repo ""
      then db
      else record db { rest = calls.publish_pending_comments art.repo art.item db.rest }

  -- What follows the transaction.
  abbrev pub after_complete :
      {A : Type 0} → Artifact → Db X × Result Error A → Db X × Result Error A
  after_complete art (db, ok a) = (publish_pending art db, ok a)
  after_complete art (db, err e) = (db, err e)

  -- `CompleteWithSteers`.
  unfoldable pub complete_turn :
      ℕ → ℕ → ℕ → Artifact → List ℕ → Db X → Db X × Result Error (Option Payload)
  unfolding complete_tx publish_pending
  complete_turn id gen claimed art acknowledged db =
      after_complete art (run_tx (complete_tx id gen claimed art acknowledged) db)

  kept_if :
      {A : Type 0} (f : Db X → A) (b : Bool) (db next : Db X)
      → f next ≡ f db
      → f (if b then db else next) ≡ f db
  kept_if f true db next e = refl
  kept_if f false db next e = e

  pub publish_pending-receipts :
      (art : Artifact) (db : Db X) → (publish_pending art db).receipts ≡ db.receipts
  unfolding publish_pending
  publish_pending-receipts art db =
      kept_if (λ d. d.receipts) (str_eq art.repo "") db
        (record db { rest = calls.publish_pending_comments art.repo art.item db.rest }) refl

  pub publish_pending-turns :
      (art : Artifact) (db : Db X) → (publish_pending art db).turns ≡ db.turns
  unfolding publish_pending
  publish_pending-turns art db =
      kept_if (λ d. d.turns) (str_eq art.repo "") db
        (record db { rest = calls.publish_pending_comments art.repo art.item db.rest }) refl

  -- What holds of the turns and the receipts after the transaction holds after the request.
  pub after_complete-rows :
      {A : Type 0} (P : List Job → List Receipt → Type 0) (art : Artifact)
      (out : Db X × Result Error A)
      → P out.0.turns out.0.receipts
      → P (after_complete art out).0.turns (after_complete art out).0.receipts
  after_complete-rows P art (db, ok a) h =
      subst (λ r. P (publish_pending art db).turns r) (sym (publish_pending-receipts art db))
        (subst (λ t. P t db.receipts) (sym (publish_pending-turns art db)) h)
  after_complete-rows P art (db, err e) h = h
