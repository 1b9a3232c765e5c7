-- ===== src/Engine/Tests.antt =====
-- The lease engine run on one turn, and the theorems about it applied there.
use rusui.Common.{ℕ, ◌*◌, ◌≡◌, refl, true, false, none, some, List, [], ◌∷◌, ok, err, ◌<◌, arith}
use rusui.Store.{queued, leased, Job, complete, completed_turn, Receipt, Db, reject}
use rusui.Store.Turns.{
  find_receipt, get_job, get_turn, update_job, load_snapshot, insert_review, insert_receipt,
  get_receipt,
}
use rusui.Store.FollowUps.{next_follow_up, enqueue_follow_up}
use rusui.Store.Order.{enqueue_follow_up-taken, new_row, seq_in, steer_seq_in}
use rusui.Store.Steers.{promote_steers, promote_each}
use rusui.Engine.{Calls, Artifact, Session, minute}
use rusui.Engine.FollowUp.{prompt_item, apply_next_follow_up, apply_found}
use rusui.Engine.Lease.{accept_lease, accept_lease_identity, touch, heartbeat, fail_turn}
use rusui.Engine.Complete.{
  complete_turn, complete_tx, publish_pending, after_complete, complete_unanswered, complete_held,
  record_complete, ack_each, keep_guest_session, settle_complete, names_snapshot, validate_result,
}
use rusui.Engine.Protocol.{Outcome, IsFresh, Later, Found, IsOver}
use rusui.Engine.Trace.{
  Op, grant, expire, cancel, steer, apply, run, apply-Outcome, run-IsFresh, run-receipt, run-Later,
  run-IsOver,
}
use rusui.Engine.Replay.{
  heartbeat-run, complete_turn-run, fail_turn-run, answer_complete, answer_fail,
}
use rusui.Engine.Repeat.{complete_turn-repeated}

abbrev one_session : Session
one_session = record { id = 7; project = "p"; archived = false; retention_expired = false }

-- Other components that accept every call.
abbrev pub quiet : Calls (Unit {0})
quiet = record {
  item_hash = λ it. it.title;
  env_ttl = minute;
  touch_session_environment = λ session now until x. ok x;
  begin_measurement = λ id now x. ok x;
  finish_measurement = λ id state art now x. ok x;
  set_session_prompt = λ session prompt x. ok x;
  bind_prompt_attachments = λ session seq rev x. ok x;
  insert_prompt_attachments = λ j session seq files now x. ok x;
  check_child_reactivation = λ turns session x. ok x;
  bind_session_guest = λ session x. ok x;
  check_requested_secrets = λ x. ok x;
  renew_turn_credential = λ id gen until x. ok x;
  renew_grant = λ id until x. ok x;
  record_proposals = λ j rev art x. ok x;
  record_flight = λ id gen claimed x. ok x;
  set_guest_session = λ session guest x. ok x;
  maybe_enqueue_apply = λ j snap rev art x. ok x;
  insert_operator_steer = λ id j prompt kind x. ok x;
  insert_retry_audit = λ id actor now rev count x. ok x;
  publish_pending_comments = λ repo item x. x;
  get_session = λ session x. ok one_session;
  overlay_get = λ key x. ok "";
  valid_prompt_files = λ prompt files. none;
}

-- A queued review of an issue.
abbrev pub waiting : Job
waiting = record {
  id = 1;
  session = 7;
  repo = "o/r";
  item = 3;
  item_kind = "issue";
  lane = "review";
  pending_revision = 1;
  claimed_revision = 0;
  lease_generation = 0;
  lease_expires_at = none;
  execution_deadline_at = none;
  retry_count = 0;
  state = queued;
  claim_token_hash = none;
}

-- The same under its first lease.
abbrev pub working : Job
working = record waiting {
  claimed_revision = 1;
  lease_generation = 1;
  state = leased;
  lease_expires_at = some (3 * minute);
  execution_deadline_at = some (12 * minute);
}

-- A store with one turn.
abbrev pub store_of : Job → List Receipt → Db (Unit {0})
store_of j receipts = record {
  turns = j ∷ [];
  snapshots = record { repo = "o/r"; item = 3; revision = 1; payload = prompt_item j "body" } ∷ [];
  receipts = receipts;
  followups = [];
  steers = [];
  reviews = [];
  counts = [];
  rest = tt;
}

abbrev first_receipt : Receipt
first_receipt = record {
  job = 1;
  lease_generation = 1;
  claimed_revision = 1;
  kind = complete;
  payload = completed_turn 1;
}

abbrev verdict : Artifact
verdict = record {
  repo = "o/r";
  item = 3;
  item_kind = "issue";
  claimed_revision = 1;
  snapshot_hash = "follow-up";
  main_sha = "";
  head_sha = "";
  verdict = "keep";
  guest_session_id = "";
  result = none;
}

-- A lease that expires, the next one, which is cancelled, and a prompt.
abbrev busy : List Op
busy =
    expire (4 * minute) 1
    ∷ grant (5 * minute) (12 * minute) "o/r" "day" "token" 1
    ∷ cancel (6 * minute) 1
    ∷ steer (7 * minute) 7 "again"
    ∷ []

apply-Outcome_example :
    let db = store_of waiting [] in
    let op = grant 0 (12 * minute) "o/r" "day" "token" 1 in
    Outcome db.turns db.receipts (apply quiet op db).turns (apply quiet op db).receipts
apply-Outcome_example =
    apply-Outcome quiet (grant 0 (12 * minute) "o/r" "day" "token" 1) (store_of waiting [])

run-IsFresh_example :
    IsFresh
      (run quiet busy (store_of working [])).turns
      (run quiet busy (store_of working [])).receipts
run-IsFresh_example =
    run-IsFresh quiet busy (store_of working [])
      (record { no_receipt = λ id gen claimed j e l. refl })

run-receipt_example :
    find_receipt 1 1 1 (run quiet busy (store_of working (first_receipt ∷ []))).receipts
    ≡ some first_receipt
run-receipt_example =
    run-receipt quiet busy (store_of working (first_receipt ∷ [])) 1 1 1 first_receipt refl

run-Later_example : Found 1 (run quiet busy (store_of working [])).turns (Later working)
run-Later_example = run-Later quiet busy (store_of working []) 1 working refl

run-IsOver_example : Found 1 (run quiet busy (store_of working [])).turns (IsOver 0)
run-IsOver_example = run-IsOver quiet busy (store_of working []) 1 0 working refl (omega arith)

heartbeat-run_example :
    heartbeat quiet (8 * minute) 1 0 0 [] (run quiet busy (store_of working []))
    ≡ (run quiet busy (store_of working []), err reject)
heartbeat-run_example =
    heartbeat-run quiet busy (store_of working []) (8 * minute) 1 0 0 [] working refl (omega arith)

complete_turn-run_example :
    complete_turn quiet (8 * minute) 1 0 0 verdict [] (run quiet busy (store_of working []))
    ≡ after_complete quiet (8 * minute) verdict (
      run quiet busy (store_of working []),
      answer_complete quiet (find_receipt 1 0 0 (run quiet busy (store_of working [])).receipts),
    )
complete_turn-run_example =
    complete_turn-run quiet busy (store_of working []) (8 * minute) 1 0 0 verdict [] working refl
      (omega arith)

fail_turn-run_example :
    fail_turn quiet (8 * minute) 1 0 0 (run quiet busy (store_of working [])) ≡ (
      run quiet busy (store_of working []),
      answer_fail quiet (find_receipt 1 0 0 (run quiet busy (store_of working [])).receipts),
    )
fail_turn-run_example =
    fail_turn-run quiet busy (store_of working []) (8 * minute) 1 0 0 working refl (omega arith)

-- The store after the result.
abbrev finished : Db (Unit {0})
finished = (complete_turn quiet minute 1 1 1 verdict [] (store_of working [])).0

result_taken :
    complete_turn quiet minute 1 1 1 verdict [] (store_of working [])
    ≡ (finished, ok (some (completed_turn 1)))
unfolding complete_turn complete_tx complete_unanswered complete_held record_complete ack_each
    keep_guest_session settle_complete names_snapshot validate_result accept_lease
    accept_lease_identity touch get_job get_turn update_job load_snapshot insert_review
    insert_receipt get_receipt next_follow_up promote_steers promote_each apply_next_follow_up
    apply_found
result_taken = refl

complete_turn-repeated_example :
    complete_turn quiet
      (8 * minute)
      1
      1
      1
      (record verdict { verdict = "close" })
      []
      (run quiet busy finished)
    ≡ (
      publish_pending quiet
          (8 * minute)
          (record verdict { verdict = "close" })
          (run quiet busy finished),
      ok (some (completed_turn 1)),
    )
complete_turn-repeated_example =
    complete_turn-repeated quiet (store_of working []) finished minute 1 1 1 verdict []
      (completed_turn 1) result_taken busy (8 * minute) (record verdict { verdict = "close" }) []

enqueue_follow_up-taken_example :
    (seq : ℕ) × (enqueue_follow_up 7 "again" true (store_of waiting [])
      ≡ ok (seq, record (store_of waiting []) { followups = new_row 7 seq "again" true ∷ [] }))
    × (seq_in 7 [] < seq)
    × (steer_seq_in 7 [] < seq)
enqueue_follow_up-taken_example = enqueue_follow_up-taken 7 "again" true (store_of waiting [])
