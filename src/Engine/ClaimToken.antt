-- ===== src/Engine/ClaimToken.antt =====
-- internal/engine/engine.go `ClaimToken`: the transaction that answers a repeated claim or leases the
-- next turn of a claim key.
use rusui.Common.{
  ℕ, Bool, true, false, ◌&&◌, ◌||◌, Option, none, some, List, [], ◌∷◌, String, Result, ok, err,
  if◌then◌else◌, leb, str_eq, select_where,
}
use rusui.Store.{
  Job, Db, Error, policy_denied, budget_exhausted, Tx, ◌>>=◌, ◌>>◌, return, fail_with, run_tx,
}
use rusui.Store.Turns.{get_job, is_leased, count_reviews_today}
use rusui.Policy.{Effective, Project}
use rusui.Policy.Review.{Reason}
use rusui.Engine.Pause.{is_paused}
use rusui.Engine.{Calls}
use rusui.Engine.Lease.{is_past, expire_lease}
use rusui.Engine.Claim.{Claim, grant_lease, replay_claim}
use rusui.Engine.Scope.{
  Desk, max_concurrent_leases, Scope, claim_scope, pause_slug, claim_select_repos, review_decision,
  is_daily_budget, claim_lanes, is_empty,
}
use rusui.Engine.Choose.{Candidate, queued_turns, count_leased_turns, choose_turn}

-- `ListDueLeasedJobsTx`.
abbrev pub is_due_lease : ℕ → String → String → Job → Bool
is_due_lease now repo lane j =
    is_leased j.state
    && ((is_past j.lease_expires_at now || is_past j.execution_deadline_at now)
        && (str_eq repo "" || (str_eq j.repo repo && str_eq j.lane lane)))

abbrev pub has_none : List Candidate → Bool
has_none [] = true
has_none (c ∷ cs) = false

module _ {X G : Type 0} (calls : Calls X) (desk : Desk X) (policy : Effective G) (now : ℕ) where
  unfoldable pub expire_each : List Job → Tx X (Unit {0})
  expire_each [] = return tt
  expire_each (j ∷ js) = expire_lease calls now j >> expire_each js

  -- `expireDueLeasesTx`.
  unfoldable pub expire_due_leases : String → String → Tx X (Unit {0})
  unfolding expire_each
  expire_due_leases repo lane db =
      expire_each (select_where (is_due_lease now repo lane) db.turns) db

  unfoldable pub expire_keys : List String → Tx X (Unit {0})
  unfolding expire_due_leases
  expire_keys [] = return tt
  expire_keys (key ∷ keys) = do
    expire_due_leases key "review"
    expire_due_leases key "run"
    expire_due_leases key "scheduled"
    expire_keys keys

  unfoldable pub scope_tx : String → Tx X Scope
  scope_tx repo db = elim (is_paused calls (pause_slug desk policy repo) db.rest) [
    | err e ↦ err e
    | ok is_paused ↦ elim (claim_scope desk policy repo is_paused (desk.sessions db.rest)) [
      | err e ↦ err e
      | ok s ↦ ok (s, db)
    ]
  ]

  -- The review lane is decided on today's count, which is read only for a repository under review.
  unfoldable pub decide_tx : String → String → Scope → Tx X Reason
  decide_tx repo day s =
      if s.review
      then (do n ← count_reviews_today repo day; return (review_decision desk policy repo s n))
      else return (review_decision desk policy repo s 0)

  abbrev pub select_tx : String → List String → Scope → Tx X (List Candidate)
  select_tx repo lanes s db = ok (
    queued_turns (claim_select_repos desk policy repo s.project) lanes
        (desk.normalize_tenant s.project.tenant) (desk.sessions db.rest) db.turns,
    db,
  )

  abbrev pub leased_tx : Project → Tx X ℕ
  leased_tx p db = ok (count_leased_turns p.slug p.repos (desk.sessions db.rest) db.turns, db)

  -- What is left to do with the turn that was chosen, or with none.
  unfoldable pub grant_chosen :
      ℕ → String → String → String → Project → Bool → Option Candidate → Tx X (Option Claim)
  unfolding grant_lease
  grant_chosen exec_deadline repo day token p spent none =
      if spent then fail_with budget_exhausted else return none
  grant_chosen exec_deadline repo day token p spent (some c) = do
    j ← get_job c.turn.id
    held ← leased_tx p
    if leb (max_concurrent_leases p) held then return none else (do
      claim ← grant_lease calls now exec_deadline repo day token c.turn.id
      return (some claim))

  unfoldable pub claim_lanes_tx :
      ℕ → String → String → String → Scope → Reason → List String → Tx X (Option Claim)
  unfolding expire_keys choose_turn grant_chosen
  claim_lanes_tx exec_deadline repo day token s decision lanes = do
    expire_keys (claim_select_repos desk policy repo s.project)
    queued ← select_tx repo lanes s
    found ← choose_turn desk policy s.project.slug queued
    grant_chosen exec_deadline repo day token s.project
        (is_daily_budget desk policy decision && has_none queued) found

  unfoldable pub claim_scope_tx :
      ℕ → String → String → String → Scope → Reason → Tx X (Option Claim)
  unfolding claim_lanes_tx
  claim_scope_tx exec_deadline repo day token s decision =
      let lanes = claim_lanes desk policy s decision in
      if is_empty lanes
      then fail_with
          (if is_daily_budget desk policy decision then budget_exhausted else policy_denied)
      else claim_lanes_tx exec_deadline repo day token s decision lanes

  unfoldable pub claim_next : ℕ → String → String → String → Tx X (Option Claim)
  unfolding scope_tx decide_tx claim_scope_tx
  claim_next exec_deadline repo day token = do
    s ← scope_tx repo
    decision ← decide_tx repo day s
    claim_scope_tx exec_deadline repo day token s decision

  abbrev pub or_next : Tx X (Option Claim) → Option Claim → Tx X (Option Claim)
  or_next next none = next
  or_next next (some c) = return (some c)

  unfoldable pub claim_tx : ℕ → String → String → String → Tx X (Option Claim)
  unfolding claim_next
  claim_tx exec_deadline repo day token = do
    found ← replay_claim calls now token
    or_next (claim_next exec_deadline repo day token) found

  -- The transaction of `ClaimToken`.
  unfoldable pub claim_token :
      ℕ → String → String → String → Db X → Db X × Result Error (Option Claim)
  unfolding claim_tx
  claim_token exec_deadline repo day token = run_tx (claim_tx exec_deadline repo day token)
