-- ===== src/Refresh/Session.antt =====
-- internal/engine/tenant.go and the statements of internal/store/store.go that open the session of a
-- review and insert its turn.
use rusui.Common.{
  ℕ, ◌+◌, Bool, false, ◌&&◌, not, Option, none, some, List, [], ◌∷◌, ◌++◌, String, ok, err,
  if◌then◌else◌, ◌==◌, str_eq, find_where, update_where, max_of,
}
use rusui.Store.{queued, Job, Db, constraint, no_rows, Tx, ◌>>=◌, ◌>>◌, return}
use rusui.Policy.{Effective, Project}
use rusui.Policy.Parse.{project_for_repo}
use rusui.Refresh.{Intake, Rooms, ReviewSession, set_intake, outside}
use rusui.Refresh.Queue.{find_session}

-- A new job of `admitTx`, with the columns that the session gives it.
abbrev pub review_job : ℕ → ReviewSession → ℕ → Job
review_job id s rev = record {
  id = id;
  session = s.id;
  repo = s.repo;
  item = s.item;
  item_kind = s.item_kind;
  lane = "review";
  pending_revision = rev;
  claimed_revision = 0;
  lease_generation = 0;
  lease_expires_at = none;
  execution_deadline_at = none;
  retry_count = 0;
  state = queued;
  claim_token_hash = none;
}

module _ {Y G : Type 0} (rooms : Rooms Y) (policy : Effective G) where
  -- `NormalizeTenantID`.
  abbrev pub normalize_tenant : String → String
  normalize_tenant id =
      let trimmed = rooms.trim_space id in if str_eq trimmed "" then "default" else trimmed

  -- The tenant of `ProjectForRepo`, or the default one.
  abbrev pub review_tenant : Option Project → String
  review_tenant none = "default"
  review_tenant (some p) = normalize_tenant p.tenant

  -- `reviewTenantMismatchTx`.
  abbrev pub tenant_mismatch : String → ℕ → List ReviewSession → Bool
  tenant_mismatch repo item sessions = elim (find_session repo item sessions) [
    | none ↦ false
    | some s ↦
        not (str_eq (normalize_tenant s.tenant) (review_tenant (project_for_repo policy repo)))
  ]

  -- `ensureReviewSessionTx`.
  unfoldable pub insert_review_session : String → ℕ → String → ℕ → Tx (Intake Y) ReviewSession
  insert_review_session repo item kind environment db =
      let s : ReviewSession = record {
        id = max_of (λ (s : ReviewSession). s.id) db.rest.sessions + 1;
        environment = environment;
        repo = repo;
        item = item;
        item_kind = kind;
        tenant = "default";
      } in
      ok (s, set_intake (record db.rest { sessions = s ∷ db.rest.sessions }) db)

  unfoldable pub insert_environment : String → ℕ → Tx (Intake Y) ℕ
  insert_environment repo item db = elim (rooms.insert_environment repo item db.rest.rest) [
    | ok (id, y) ↦ ok (id, set_intake (record db.rest { rest = y }) db)
    | err e ↦ err e
  ]

  unfoldable pub open_review_session : String → ℕ → String → Tx (Intake Y) ReviewSession
  unfolding insert_review_session insert_environment
  open_review_session repo item kind = do
    environment ← insert_environment repo item
    s ← insert_review_session repo item kind environment
    outside (rooms.ensure_session_retention s.id)
    return s

  unfoldable pub ensure_review_session : String → ℕ → String → Tx (Intake Y) ReviewSession
  unfolding open_review_session
  ensure_review_session repo item kind db = elim (find_session repo item db.rest.sessions) [
    | none ↦ open_review_session repo item kind db
    | some s ↦ ok (s, db)
  ]

  abbrev pub with_turn : ReviewSession → ℕ → Db (Intake Y) → Db (Intake Y)
  with_turn s rev db = record db {
    turns = db.turns ++ (review_job (max_of (λ (t : Job). t.id) db.turns + 1) s rev ∷ []);
  }

  -- `INSERT INTO turns`, where (session_id, lane) is unique.
  unfoldable pub insert_turn : ReviewSession → ℕ → Tx (Intake Y) (Unit {0})
  insert_turn s rev db =
      elim (find_where (λ (t : Job). t.session == s.id && str_eq t.lane "review") db.turns) [
        | none ↦ ok (tt, with_turn s rev db)
        | some _ ↦ err constraint
      ]

  -- `stampReviewTenantTx`.
  unfoldable pub stamp_review_tenant : String → ℕ → Tx (Intake Y) (Unit {0})
  stamp_review_tenant repo item db = elim (find_session repo item db.rest.sessions) [
    | none ↦ err no_rows
    | some s ↦
        let tenant = normalize_tenant (review_tenant (project_for_repo policy repo)) in
        outside (rooms.set_session_execution s.id) (
          set_intake
            (record db.rest {
              sessions =
                  update_where (λ (x : ReviewSession). x.id == s.id)
                    (λ (x : ReviewSession). record x { tenant = tenant }) db.rest.sessions;
            })
            db)
  ]
