-- ===== src/Engine/Replay.antt =====
-- internal/engine/engine.go: what a runner that lost its lease can still do, and what a runner that
-- repeats a request is told.
use rusui.Common.{ℕ, ◌≡◌, refl, false, Option, none, some, List, Result, ok, err, ap, ◌∙◌, arith}
use rusui.Store.{Job, Receipt, complete, fail, cancelled, Payload, Db, Error, reject, Tx, run_tx}
use rusui.Store.Turns.{find_job, find_receipt, get_job, get_receipt}
use rusui.Store.Run.{bind-err, bind-ok, run_tx-err, get_job-found}
use rusui.Engine.{Calls, Artifact}
use rusui.Engine.Lease.{
  accept_lease, accept_lease_identity, require, fail_turn, heartbeat, fail_tx, heartbeat_tx,
  fail_unanswered, fail_held,
}
use rusui.Engine.Complete.{complete_turn, complete_tx, complete_unanswered, after_complete}
use rusui.Engine.Protocol.{IsOver, Found}
use rusui.Engine.Trace.{Op, run, run-IsOver}

-- No lease that is over is accepted.
refused : (j : Job) (gen claimed now : ℕ) → IsOver gen j → accept_lease j gen claimed now ≡ false
unfolding accept_lease accept_lease_identity
refused j gen claimed now o = ground arith

refused_identity :
    (j : Job) (gen claimed : ℕ) → IsOver gen j → accept_lease_identity j gen claimed ≡ false
unfolding accept_lease_identity
refused_identity j gen claimed o = ground arith

module _ {X : Type 0} (calls : Calls X) where
  heartbeat_over :
      (now id gen claimed : ℕ) (received : List ℕ) (db : Db X)
      → Found id db.turns (IsOver gen)
      → heartbeat calls now id gen claimed received db ≡ (db, err reject)
  unfolding heartbeat heartbeat_tx
  heartbeat_over now id gen claimed received db (j, e, o) =
      run_tx-err (heartbeat_tx calls now id gen claimed received) db reject (
        bind-ok (get_job id) _ db j db (get_job-found id j db e)
        ∙ bind-err (require (accept_lease j gen claimed now) reject) _ db reject
            (rw (refused j gen claimed now o) refl))

  -- A runner whose lease is over is refused its heartbeat, after any requests and at any time, and
  -- nothing changes.
  pub heartbeat-run :
      (ops : List Op) (db : Db X) (now id gen claimed : ℕ) (received : List ℕ) (j : Job)
      → find_job id db.turns ≡ some j
      → IsOver gen j
      → let later = run calls ops db in
        heartbeat calls now id gen claimed received later ≡ (later, err reject)
  heartbeat-run ops db now id gen claimed received j e o =
      heartbeat_over now id gen claimed received (run calls ops db)
        (run-IsOver calls ops db id gen j e o)

  -- What a runner is told that completes a lease which is over.
  unfoldable pub answer_complete : Option Receipt → Result Error (Option Payload)
  answer_complete none = err reject
  answer_complete (some r) = elim r.kind [
    | complete ↦ ok (some r.payload)
    | fail ↦ err reject
    | cancelled ↦ err reject
  ]

  unfoldable pub answer_fail : Option Receipt → Result Error (Option Payload)
  answer_fail none = err reject
  answer_fail (some r) = ok (some r.payload)

  complete_over :
      (now id gen claimed : ℕ) (art : Artifact) (acks : List ℕ) (db : Db X)
      → Found id db.turns (IsOver gen)
      → run_tx (complete_tx calls now id gen claimed art acks) db
        ≡ (db, answer_complete (find_receipt id gen claimed db.receipts))
  unfolding complete_tx get_receipt complete_unanswered answer_complete
  complete_over now id gen claimed art acks db (j, e, o) =
      told (find_receipt id gen claimed db.receipts)
    where
      told :
          (f : Option Receipt)
          → run_tx (complete_unanswered calls now id gen claimed art acks f) db
            ≡ (db, answer_complete f)
      told none =
          run_tx-err (complete_unanswered calls now id gen claimed art acks none) db reject (
            bind-ok (get_job id) _ db j db (get_job-found id j db e)
            ∙ bind-err (require (accept_lease j gen claimed now) reject) _ db reject
                (rw (refused j gen claimed now o) refl))
      told (some r) =
          elim r.kind
            as (λ k.
              run_tx
                (elim k as (λ _. Tx X (Option Payload)) [
                  | complete ↦ (λ d. ok (some r.payload, d))
                  | fail ↦ (λ d. err reject)
                  | cancelled ↦ (λ d. err reject)
                ])
                db
              ≡ (
                db,
                elim k [
                  | complete ↦ ok (some r.payload)
                  | fail ↦ err reject
                  | cancelled ↦ err reject
                ],
              )) [ complete ↦ refl | fail ↦ refl | cancelled ↦ refl ]

  -- A runner whose lease is over cannot record a result, after any requests and at any time: it is
  -- told the result that its lease recorded, or refused. Its transaction changes nothing, and when it is
  -- told a result, the pending comments of the item that it names are published after it.
  pub complete_turn-run :
      (ops : List Op) (db : Db X) (now id gen claimed : ℕ) (art : Artifact) (acks : List ℕ)
      (j : Job)
      → find_job id db.turns ≡ some j
      → IsOver gen j
      → let later = run calls ops db in
        complete_turn calls now id gen claimed art acks later
        ≡ after_complete calls now art
            (later, answer_complete (find_receipt id gen claimed later.receipts))
  unfolding complete_turn
  complete_turn-run ops db now id gen claimed art acks j e o = ap (after_complete calls now art) (
      complete_over now id gen claimed art acks (run calls ops db)
        (run-IsOver calls ops db id gen j e o))

  fail_over :
      (now id gen claimed : ℕ) (db : Db X)
      → Found id db.turns (IsOver gen)
      → fail_turn calls now id gen claimed db
        ≡ (db, answer_fail (find_receipt id gen claimed db.receipts))
  unfolding fail_turn fail_tx get_receipt fail_unanswered answer_fail fail_held
  fail_over now id gen claimed db (j, e, o) = told (find_receipt id gen claimed db.receipts)
    where
      told :
          (f : Option Receipt)
          → run_tx (fail_unanswered calls now id gen claimed f) db ≡ (db, answer_fail f)
      told none = run_tx-err (fail_unanswered calls now id gen claimed none) db reject (
          bind-ok (get_job id) _ db j db (get_job-found id j db e)
          ∙ bind-err (fail_held calls now j gen claimed) _ db reject (
              bind-err (require (accept_lease_identity j gen claimed) reject) _ db reject
                (rw (refused_identity j gen claimed o) refl)))
      told (some r) = refl

  -- A runner whose lease is over cannot fail the turn, after any requests and at any time: it is told
  -- how its lease ended, or refused, and nothing changes.
  pub fail_turn-run :
      (ops : List Op) (db : Db X) (now id gen claimed : ℕ) (j : Job)
      → find_job id db.turns ≡ some j
      → IsOver gen j
      → let later = run calls ops db in
        fail_turn calls now id gen claimed later
        ≡ (later, answer_fail (find_receipt id gen claimed later.receipts))
  fail_turn-run ops db now id gen claimed j e o =
      fail_over now id gen claimed (run calls ops db) (run-IsOver calls ops db id gen j e o)
