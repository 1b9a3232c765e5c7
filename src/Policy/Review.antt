-- ===== src/Policy/Review.antt =====
-- internal/policy/decision.go: whether policy and runtime state permit a review.
use rusui.Common.{
  ℕ, Bool, true, false, Option, none, some, String, if◌then◌else◌, leb, str_eq, ℤ, pos, negsuc,
}
use rusui.Policy.{Effective, Repo}
use rusui.Policy.Parse.{find_repo, find_project}

-- A decision: the reason, `allowed` when the review is.
pub data Reason : Type 0 where
  allowed invalid_repo unbound_repo missing_project disabled paused daily_budget : Reason

-- `ReviewBudget`.
unfoldable pub review_budget : ℕ → ℤ → Reason
review_budget today (negsuc n) = daily_budget
review_budget today (pos limit) = if leb limit today then daily_budget else allowed

module _ {G : Type 0} (e : Effective G) where
  unfoldable pub bound_access : Option Repo → Reason
  bound_access none = unbound_repo
  bound_access (some r) = elim (find_project e r.project) [
    | none ↦ missing_project
    | some p ↦ if r.review then allowed else disabled
  ]

  -- `ReviewAccess`.
  unfoldable pub review_access : String → Bool → Reason
  unfolding bound_access
  review_access repo is_paused =
      if is_paused
      then paused
      else if str_eq repo ""
      then invalid_repo
      else bound_access (find_repo e repo)

  abbrev pub is_allowed : Reason → Bool
  is_allowed allowed = true
  is_allowed _ = false

  -- The limit of an unbound repository is that of the zero `Repo`.
  abbrev pub review_limit : Option Repo → ℤ
  review_limit none = pos 0
  review_limit (some r) = r.max_reviews

  -- `DecideReview`.
  unfoldable pub decide_review : String → Bool → ℕ → Reason
  unfolding review_access review_budget
  decide_review repo is_paused today =
      let access = review_access repo is_paused in
      if is_allowed access then review_budget today (review_limit (find_repo e repo)) else access
