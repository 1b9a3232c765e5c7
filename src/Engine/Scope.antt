-- ===== src/Engine/Scope.antt =====
-- internal/engine/engine.go `claimScope`, `claimSelectRepos` and the lanes of `ClaimToken`, and
-- internal/engine/guest.go `chooseGuest`: what a claim key admits.
use rusui.Common.{
  ℕ, Bool, true, false, ◌&&◌, not, Option, none, some, List, [], ◌∷◌, ◌++◌, String, Result, ok, err,
  if◌then◌else◌, ◌==◌, str_eq, str_in, count_where, lookup, ℤ, pos, negsuc,
}
use rusui.Store.{Error, paused, policy_denied, other}
use rusui.Policy.{Effective, Repo, Project}
use rusui.Policy.Checks.{max_concurrent_leases_key}
use rusui.Policy.Parse.{find_repo, find_project, allows_kind}
use rusui.Policy.Review.{
  Reason, allowed, invalid_repo, unbound_repo, missing_project, disabled, daily_budget,
  review_access, decide_review, is_allowed,
}

-- The columns of `sessions` that a claim reads; a parent of 0 is none.
pub record SessionRow : Type 0 where
  pub id : ℕ
  pub environment : ℕ
  pub repo : String
  pub project : String
  pub tenant : String
  pub act : String
  pub archived : Bool
  pub parent : ℕ

-- What a claim reads of the components that keep sessions, halts, guests and running environment
-- operations, and the names of internal/policy/project_key.go, which Policy/Names.antt models on
-- runes. `check_guest` is the part of `chooseGuest` that asks the guest registry.
pub record Desk (X : Type 0) : Type 0 where
  pub sessions : X → List SessionRow
  pub halted : String → String → String → X → Result Error Bool
  pub session_guest : ℕ → X → Result Error String
  pub is_busy : ℕ → Bool
  pub default_guest : String
  pub check_guest : String → Option Error
  pub parse_project_key : String → Option String
  pub project_key : String → String
  pub normalize_tenant : String → String

-- `MaxConcurrentLeases`: a limit that is missing or below 1 is 1.
abbrev pub at_least_one : Option ℤ → ℕ
at_least_one none = 1
at_least_one (some (negsuc n)) = 1
at_least_one (some (pos n)) = if n == 0 then 1 else n

unfoldable pub max_concurrent_leases : Project → ℕ
max_concurrent_leases p = at_least_one (lookup max_concurrent_leases_key p.budgets)

-- Whether a guest is chosen, is not allowed to the project, or is refused with another error.
pub data Choice : Type 0 where
  chosen : String → Choice
  not_allowed : Choice
  refused : Error → Choice

abbrev pub checked : String → Option Error → Choice
checked name none = chosen name
checked name (some e) = refused e

-- `chooseGuest`.
unfoldable pub choose_guest : (String → Option Error) → String → Option Project → String → Choice
choose_guest check fallback none requested = refused (other "guest: project not found")
choose_guest check fallback (some p) requested = elim p.guests [
  | none ↦
      let name = if str_eq requested "" then fallback else requested in
      if str_eq name fallback then checked name (check name) else not_allowed
  | some g ↦
      let name = if str_eq requested "" then g.default else requested in
      if str_in name g.allowed then checked name (check name) else not_allowed
]

-- The project of a claim, and whether its key is that of a repository under review.
pub record Scope : Type 0 where
  pub project : Project
  pub review : Bool

abbrev pub is_open_session : String → SessionRow → Bool
is_open_session repo s = str_eq s.repo repo && not s.archived

abbrev pub is_empty : List String → Bool
is_empty [] = true
is_empty (x ∷ xs) = false

module _ {X G : Type 0} (desk : Desk X) (policy : Effective G) where
  abbrev pub project_scope : String → List SessionRow → Option Project → Result Error Scope
  project_scope repo sessions none = err policy_denied
  project_scope repo sessions (some p) =
      if not (is_empty p.repos) && count_where (is_open_session repo) sessions == 0
      then err policy_denied
      else ok (record { project = p; review = false })

  abbrev pub repo_scope : Option Repo → Result Error Scope
  repo_scope none = err policy_denied
  repo_scope (some r) = elim (find_project policy r.project) [
    | none ↦ err policy_denied
    | some p ↦ ok (record { project = p; review = r.review })
  ]

  -- A repository that is paused, or whose name or project the policy does not have, admits nothing;
  -- one without review still admits runs.
  abbrev pub access_scope : String → Reason → Result Error Scope
  access_scope repo Reason.paused = err paused
  access_scope repo invalid_repo = err policy_denied
  access_scope repo unbound_repo = err policy_denied
  access_scope repo missing_project = err policy_denied
  access_scope repo allowed = repo_scope (find_repo policy repo)
  access_scope repo disabled = repo_scope (find_repo policy repo)
  access_scope repo daily_budget = repo_scope (find_repo policy repo)

  -- `claimScope`.
  unfoldable pub claim_scope : String → Bool → List SessionRow → Result Error Scope
  claim_scope repo is_paused sessions = elim (desk.parse_project_key repo) [
    | some slug ↦
        if is_paused then err paused else project_scope repo sessions (find_project policy slug)
    | none ↦ access_scope repo (review_access policy repo is_paused)
  ]

  -- The project whose pause `repoPaused` reads; an empty name reads the global one only.
  abbrev pub pause_slug : String → String
  pause_slug repo = elim (desk.parse_project_key repo) [
    | some slug ↦ slug
    | none ↦ elim (find_repo policy repo) [ none ↦ "" | some r ↦ r.project ]
  ]

  -- `claimSelectRepos`.
  unfoldable pub claim_select_repos : String → Project → List String
  claim_select_repos repo p = elim (desk.parse_project_key repo) [
    | some slug ↦ repo ∷ []
    | none ↦
        let key = desk.project_key p.slug in if str_eq key repo then repo ∷ [] else repo ∷ key ∷ []
  ]

  -- What today's count of reviews makes of the review lane.
  abbrev pub review_decision : String → Scope → ℕ → Reason
  review_decision repo s today =
      if s.review then decide_review policy repo false today else disabled

  abbrev pub is_daily_budget : Reason → Bool
  is_daily_budget daily_budget = true
  is_daily_budget _ = false

  -- The lanes that a claim may take from.
  unfoldable pub claim_lanes : Scope → Reason → List String
  claim_lanes s decision =
      (if is_allowed policy decision then "review" ∷ [] else [])
      ++ ((if allows_kind s.project "run" then "run" ∷ [] else [])
          ++ (if allows_kind s.project "scheduled" then "scheduled" ∷ [] else []))
