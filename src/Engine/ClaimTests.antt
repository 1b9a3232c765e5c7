-- ===== src/Engine/ClaimTests.antt =====
-- A claim of one repository with one queued review, and the theorems about claims applied there.
use rusui.Common.{
  ◌*◌, ◌≤◌, ◌≡◌, refl, true, false, none, some, [], ◌∷◌, ok, err, arith, All, str_eq, if◌then◌else◌,
}
use rusui.Store.{Db, CountRow, paused}
use rusui.Store.Turns.{
  get_job, get_turn, update_job, load_snapshot, set_turn_claim_token, leased_turn_by_claim_token,
  incr_reviews_today, count_reviews_today,
}
use rusui.Policy.Review.{Reason, review_access, bound_access, decide_review, review_budget}
use rusui.Policy.Tests.{effective, web, bound}
use rusui.Engine.{Calls, minute}
use rusui.Engine.FollowUp.{prompt_item}
use rusui.Engine.Claim.{Claim, lease_job, count_review, grant_lease, replay_claim, replay_found}
use rusui.Engine.Pause.{is_paused}
use rusui.Engine.Scope.{
  SessionRow, Desk, Scope, max_concurrent_leases, choose_guest, claim_scope, claim_select_repos,
  claim_lanes,
}
use rusui.Engine.Choose.{
  Candidate, queued_turns, count_leased_turns, count_tree_leased_turns, may_run, choose_turn,
}
use rusui.Engine.ClaimToken.{
  expire_each, expire_due_leases, expire_keys, scope_tx, decide_tx, grant_chosen, claim_lanes_tx,
  claim_scope_tx, claim_next, claim_tx, claim_token,
}
use rusui.Engine.Eligible.{choose_turn-runs}
use rusui.Engine.Grants.{IsGranted, claim_tx-IsGranted}
use rusui.Engine.Paused.{bound_project, claim_token-paused}
use rusui.Engine.Cap.{KeepsSessions, grant_chosen-bounded}
use rusui.Engine.Tests.{quiet, waiting, store_of}

abbrev session : SessionRow
session = record {
  id = 7;
  environment = 1;
  repo = "o/r";
  project = "web";
  tenant = "default";
  act = "";
  archived = false;
  parent = 0;
}

abbrev desk : Desk (Unit {0})
desk = record {
  sessions = λ x. session ∷ [];
  halted = λ tenant project act x. ok false;
  session_guest = λ id x. ok "";
  is_busy = λ id. false;
  default_guest = "grok";
  check_guest = λ name. none;
  parse_project_key = λ repo. none;
  project_key = λ slug. "project:web";
  normalize_tenant = λ tenant. "default";
}

abbrev empty_desk : Db (Unit {0})
empty_desk = store_of waiting []

abbrev claimed : Claim
claimed = record {
  job = lease_job (12 * minute) 0 waiting;
  snapshot = prompt_item waiting "body";
  item_hash = "follow-up";
  review_count_day = "day";
}

abbrev first_count : CountRow
first_count = record { repo = "o/r"; day = "day"; count = 1 }

abbrev after : Db (Unit {0})
after =
    record (store_of
      (record (lease_job (12 * minute) 0 waiting) { claim_token_hash = some "token" }) []) {
        snapshots = empty_desk.snapshots;
        counts = first_count ∷ [];
      }

abbrev candidate : Candidate
candidate = record { turn = waiting; session = session }

leased_one :
    claim_tx quiet desk effective 0 (12 * minute) "o/r" "day" "token" empty_desk
    ≡ ok (some claimed, after)
unfolding is_paused claim_tx claim_next scope_tx decide_tx claim_scope_tx claim_lanes_tx
    grant_chosen expire_keys expire_due_leases expire_each choose_turn may_run queued_turns
    count_leased_turns count_tree_leased_turns choose_guest claim_scope claim_select_repos
    claim_lanes max_concurrent_leases review_access bound_access decide_review review_budget
    grant_lease count_review replay_claim replay_found get_job get_turn update_job load_snapshot
    set_turn_claim_token leased_turn_by_claim_token incr_reviews_today count_reviews_today
leased_one = refl

not_repeated : replay_claim quiet 0 "token" empty_desk ≡ ok (none, empty_desk)
unfolding replay_claim leased_turn_by_claim_token
not_repeated = refl

claim_tx-IsGranted_example :
    (s : Scope) × (decision : Reason) × (scope_tx quiet desk effective 0 "o/r" empty_desk
      ≡ ok (s, empty_desk))
    × (decide_tx quiet desk effective 0 "o/r" "day" s empty_desk ≡ ok (decision, empty_desk))
    × IsGranted quiet desk effective 0 (12 * minute) "o/r" "day" "token" s decision claimed after
claim_tx-IsGranted_example =
    claim_tx-IsGranted quiet desk effective 0 (12 * minute) "o/r" "day" "token" claimed empty_desk
      after not_repeated leased_one

chosen_one :
    choose_turn desk effective "web"
      (queued_turns ("o/r" ∷ []) ("review" ∷ []) "default" (session ∷ []) (waiting ∷ []))
      empty_desk
    ≡ ok (some candidate, empty_desk)
unfolding choose_turn may_run queued_turns choose_guest count_tree_leased_turns
    max_concurrent_leases
chosen_one = refl

choose_turn-runs_example :
    All
      (λ (x : Candidate).
        str_eq x.turn.lane "run" ≡ true
        → may_run desk effective "web" x empty_desk ≡ ok (false, empty_desk))
      (queued_turns ("o/r" ∷ []) ("review" ∷ []) "default" (session ∷ []) (waiting ∷ []))
choose_turn-runs_example =
    choose_turn-runs desk effective "web" empty_desk ("o/r" ∷ []) ("review" ∷ []) "default"
      (session ∷ []) (waiting ∷ []) candidate empty_desk chosen_one refl

granted_one :
    grant_chosen quiet desk effective 0
      (12 * minute)
      "o/r"
      "day"
      "token"
      web
      false
      (some candidate)
      empty_desk
    ≡ ok (some claimed, after)
unfolding grant_chosen count_leased_turns max_concurrent_leases grant_lease count_review get_job
    get_turn update_job load_snapshot set_turn_claim_token incr_reviews_today
granted_one = refl

quiet-KeepsSessions : KeepsSessions quiet desk
quiet-KeepsSessions = record {
  bind_session_guest = λ s x y e. refl;
  check_requested_secrets = λ x y e. refl;
  begin_measurement = λ id now x y e. refl;
}

grant_chosen-bounded_example :
    count_leased_turns "web" ("o/r" ∷ []) (session ∷ []) after.turns ≤ max_concurrent_leases web
grant_chosen-bounded_example =
    grant_chosen-bounded quiet desk effective quiet-KeepsSessions 0 (12 * minute) "o/r" "day"
      "token" web false candidate claimed empty_desk after (omega arith) granted_one

-- The project of the repository is paused.
abbrev stopped : Calls (Unit {0})
stopped = record quiet { overlay_get = λ key x. if str_eq key "pause:web" then ok "1" else ok "" }

first_time : replay_claim stopped 0 "" empty_desk ≡ ok (none, empty_desk)
unfolding replay_claim leased_turn_by_claim_token
first_time = refl

claim_token-paused_example :
    claim_token stopped desk effective 0 (12 * minute) "o/r" "day" "" empty_desk
    ≡ (empty_desk, err paused)
claim_token-paused_example =
    claim_token-paused stopped desk effective 0 (12 * minute) "o/r" "day" "" empty_desk first_time
      (bound_project bound "" refl refl (λ h. absurd (cc)) refl refl)
