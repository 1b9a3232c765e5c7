-- ===== src/Refresh/Tests.antt =====
-- The refresh queue run on one item, and the theorems about it applied there.
use rusui.Common.{
  suc, ◌+◌, ◌*◌, ◌≤◌, ◌≡◌, ℕ, refl, true, false, none, some, List, [], ◌∷◌, ok, arith, subst,
}
use rusui.Store.{Job, Item, Db}
use rusui.Store.Turns.{find_job, get_job_at, save_snapshot, load_snapshot, update_job}
use rusui.Engine.{minute}
use rusui.Policy.Review.{review_access, bound_access}
use rusui.Policy.Parse.{project_for_repo}
use rusui.Policy.Tests.{effective}
use rusui.Refresh.{queued, Request, Intake, Rooms, second}
use rusui.Refresh.Queue.{backoff, release, ingest_webhook, expire_refresh_owners}
use rusui.Refresh.Step.{
  Ticket, ticket_of, take_row, take_request, finish_refresh, finish_tx, finish_held, get_request,
  update_request,
}
use rusui.Refresh.Admit.{
  settled, advisory_eligible, put_revision, consume_invalidations, write_revision, within_budget,
  is_unchanged, admit_changed, admit_eligible, admit_current, admit_tx, revise_job,
}
use rusui.Refresh.Session.{
  insert_review_session, insert_environment, open_review_session, ensure_review_session,
  insert_turn, stamp_review_tenant,
}
use rusui.Refresh.Admitted.{find_review}
use rusui.Refresh.Leases.{SameLease, admit_tx-SameLease}
use rusui.Engine.Protocol.{Found}
use rusui.Engine.Tests.{working}
use rusui.Refresh.Moves.{IsQueue, Advance, FoundRow}
use rusui.Refresh.Trace.{
  Op, webhook, take, finish, expire, run, run-IsQueue, run-Advance, finish_refresh-run,
}
use rusui.Refresh.Deliveries.{ingest_webhook-repeated}
use rusui.Refresh.Owners.{
  IsReleased, backoff-bounds, expire_refresh_owners-IsReleased, take_request-released,
}
use rusui.Refresh.Again.{admit_tx-again}
use rusui.Refresh.Asked.{IsAsked, IsWaiting, ingest_webhook-IsAsked, finish_refresh-IsWaiting}

abbrev bare_rooms : Rooms (Unit {0})
bare_rooms = record {
  item_hash = λ it. it.title;
  trim_space = λ s. s;
  insert_environment = λ repo item y. ok (1, y);
  ensure_session_retention = λ session y. ok y;
  set_session_execution = λ session y. ok y;
}

-- An open issue of the repository of the policy.
abbrev issue : Item
issue = record {
  repo = "o/r";
  item = 3;
  item_kind = "issue";
  state = "open";
  title = "a title";
  body = "";
  labels = [];
  assignees = [];
  author_association = "";
  draft = false;
  merged = false;
  head_sha = "";
  base_sha = "";
  updated_at = "";
  non_bot_comment_count = 0;
  linked_same_repo_items = [];
  default_branch = "main";
  main_sha = "";
  created_at = "";
  last_non_bot_comment_at = "";
  merged_into_default = false;
  merge_commit_sha = "";
  base_ref = "";
}

-- The issue's request while a step holds it and another has asked.
abbrev held : Request
held = record {
  repo = "o/r";
  item = 3;
  item_kind = "issue";
  generation = 1;
  owner = true;
  owner_expires_at = some (2 * minute);
  retry_count = 0;
  needs_another = true;
  force = false;
  state = queued;
  not_before = none;
}

abbrev with_requests : List Request → Db (Intake (Unit {0}))
with_requests rs = record {
  turns = [];
  snapshots = [];
  receipts = [];
  followups = [];
  steers = [];
  reviews = [];
  counts = [];
  rest = record {
    requests = rs;
    deliveries = [];
    events = [];
    invalidations = [];
    sessions = [];
    rest = tt;
  };
}

abbrev ticket : Ticket
ticket = record { repo = "o/r"; item = 3; kind = "issue"; gen = 1; force = false }

-- Two webhooks, with a step between them that ends after its owner has expired.
abbrev late : List Op
late =
    webhook 0 "d1" "o/r" 3 "issue"
    ∷ take second (2 * minute) "" 0
    ∷ webhook (2 * second) "d2" "o/r" 3 "issue"
    ∷ expire (3 * minute)
    ∷ finish ticket "" (some issue) "day" false
    ∷ []

run-IsQueue_example : IsQueue (run bare_rooms effective late (with_requests [])).rest.requests
run-IsQueue_example =
    run-IsQueue bare_rooms effective late (with_requests []) (record { unique = tt; sound = tt })

run-Advance_example :
    FoundRow "o/r" 3
      (run bare_rooms effective late (with_requests (held ∷ []))).rest.requests
      (Advance held)
run-Advance_example =
    run-Advance bare_rooms effective late (with_requests (held ∷ [])) "o/r" 3 held (refl, tt) refl

finish_refresh-run_example :
    finish_refresh bare_rooms effective
      (record ticket { gen = 0 })
      ""
      (some issue)
      "day"
      false
      (run bare_rooms effective late (with_requests (held ∷ [])))
    ≡ (run bare_rooms effective late (with_requests (held ∷ [])), ok settled)
finish_refresh-run_example =
    finish_refresh-run bare_rooms effective late (with_requests (held ∷ []))
      (record ticket { gen = 0 }) held "" (some issue) "day" false (refl, tt) refl (omega arith)

ingest_webhook-repeated_example :
    let next =
      run bare_rooms effective late (ingest_webhook 0 "d0" "o/r" 3 "issue" (with_requests [])).0 in
    ingest_webhook minute "d0" "o/r" 4 "pull" next ≡ (next, ok tt)
ingest_webhook-repeated_example =
    ingest_webhook-repeated bare_rooms effective "d0" 0 "o/r" 3 "issue" (with_requests []) late
      minute "o/r" 4 "pull"

backoff-bounds_example :
    (second ≤ backoff 3)
    × (backoff 3 ≤ minute)
    × (backoff 3 ≤ backoff (suc 3))
    × (7 ≤ 3 → backoff 3 ≡ minute)
backoff-bounds_example = backoff-bounds 3

expire_refresh_owners-IsReleased_example :
    FoundRow "o/r" 3
      (expire_refresh_owners (3 * minute) (with_requests (held ∷ []))).0.rest.requests
      (IsReleased (3 * minute) held)
expire_refresh_owners-IsReleased_example =
    expire_refresh_owners-IsReleased (3 * minute) "o/r" 3 (with_requests (held ∷ [])) held refl refl
      refl

take_request-released_example :
    let db = with_requests (held ∷ []) in
    let freed = (expire_refresh_owners (3 * minute) db).0 in
    take_request (3 * minute + minute) minute "o/r" 3 freed ≡ (
      take_row (3 * minute + minute + minute) (release (3 * minute) held) freed,
      ok (some (ticket_of (release (3 * minute) held))),
    )
take_request-released_example =
    take_request-released (3 * minute) "o/r" 3 (with_requests (held ∷ [])) held minute refl refl
      refl (omega arith) (omega arith) refl

ingest_webhook-IsAsked_example :
    FoundRow "o/r" 3
      (ingest_webhook 0 "d1" "o/r" 3 "issue" (with_requests [])).0.rest.requests
      IsAsked
ingest_webhook-IsAsked_example =
    ingest_webhook-IsAsked 0 "d1" "o/r" 3 "issue" (with_requests []) refl

-- The store after the step.
abbrev finished : Db (Intake (Unit {0}))
finished =
    (finish_refresh bare_rooms effective ticket "" (some issue) "day" false
      (with_requests (held ∷ []))).0

step_ended :
    finish_refresh bare_rooms effective ticket ""
      (some issue)
      "day"
      false
      (with_requests (held ∷ []))
    ≡ (finished, ok settled)
unfolding finish_refresh finish_tx finish_held get_request update_request admit_tx admit_current
    admit_eligible admit_changed is_unchanged within_budget write_revision consume_invalidations
    put_revision stamp_review_tenant insert_turn ensure_review_session open_review_session
    insert_environment insert_review_session advisory_eligible review_access bound_access get_job_at
    save_snapshot project_for_repo
step_ended = refl

finish_refresh-IsWaiting_example : FoundRow "o/r" 3 finished.rest.requests IsWaiting
finish_refresh-IsWaiting_example =
    finish_refresh-IsWaiting bare_rooms effective ticket issue "day" held false
      (with_requests (held ∷ [])) finished settled (λ k. absurd (cc)) refl refl refl refl step_ended

-- The store after the issue is admitted.
abbrev admitted : Db (Intake (Unit {0}))
admitted = record finished { rest = record finished.rest { requests = held ∷ [] } }

first_admission :
    admit_tx bare_rooms effective issue "day" false 1 false (with_requests (held ∷ []))
    ≡ ok (settled, admitted)
unfolding finish_refresh finish_tx finish_held get_request update_request admit_tx admit_current
    admit_eligible admit_changed is_unchanged within_budget write_revision consume_invalidations
    put_revision stamp_review_tenant insert_turn ensure_review_session open_review_session
    insert_environment insert_review_session advisory_eligible review_access bound_access get_job_at
    save_snapshot project_for_repo
first_admission = refl

admit_tx-again_example :
    admit_tx bare_rooms effective issue "day" false 1 false admitted ≡ ok (settled, admitted)
admit_tx-again_example =
    admit_tx-again bare_rooms effective issue "day" false 1 false (with_requests (held ∷ []))
      admitted first_admission

-- The issue's turn under a lease, at a revision with other content.
abbrev busy : Db (Intake (Unit {0}))
busy = record (with_requests (held ∷ [])) {
  turns = working ∷ [];
  snapshots =
      record {
        repo = "o/r";
        item = 3;
        revision = 1;
        payload = record issue { title = "an old title" };
      }
      ∷ [];
}

abbrev revised_busy : Db (Intake (Unit {0}))
revised_busy = record busy {
  turns = revise_job 2 working ∷ [];
  snapshots = record { repo = "o/r"; item = 3; revision = 2; payload = issue } ∷ busy.snapshots;
}

lease_kept :
    admit_tx bare_rooms effective issue "day" false 1 false busy ≡ ok (settled, revised_busy)
unfolding admit_tx admit_current admit_eligible admit_changed is_unchanged within_budget
    write_revision consume_invalidations put_revision advisory_eligible review_access bound_access
    get_job_at save_snapshot load_snapshot update_job
lease_kept = refl

own_row :
    (r : Job) → find_review "o/r" 3 (working ∷ []) ≡ some r → find_job r.id (working ∷ []) ≡ some r
own_row r e =
    let same : working ≡ r = cc in
    subst (λ (k : Job). find_job k.id (working ∷ []) ≡ some k) same refl

admit_tx-SameLease_example :
    (revised_busy.receipts ≡ busy.receipts)
    × ((id : ℕ) (j : Job)
        → find_job id busy.turns ≡ some j
        → Found id revised_busy.turns (SameLease j))
admit_tx-SameLease_example =
    admit_tx-SameLease bare_rooms effective issue "day" false 1 false busy revised_busy settled
      own_row lease_kept
