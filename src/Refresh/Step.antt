-- ===== src/Refresh/Step.antt =====
-- internal/engine/engine.go `stepRefresh`: one request is taken, its item is fetched, and a second
-- transaction admits the item and releases the request. Anything may run between the two.
use rusui.Common.{
  ℕ, ◌+◌, Bool, true, false, ◌&&◌, ◌||◌, not, Option, none, some, String, Result, ok, err,
  if◌then◌else◌, ◌==◌, ltb, leb, str_eq, find_where, update_where,
}
use rusui.Store.{Item, Db, Error, no_rows, Tx, ◌>>=◌, ◌>>◌, return, run_tx}
use rusui.Policy.{Effective}
use rusui.Refresh.{
  RequestState, queued, running, idle, failed, Request, Intake, Rooms, set_intake,
  refresh_retry_limit,
}
use rusui.Refresh.Queue.{is_request, find_request}
use rusui.Refresh.Admit.{Admission, settled, ineligible, over_budget, admit_tx}

-- The request that a step has taken.
pub record Ticket : Type 0 where
  pub repo : String
  pub item : ℕ
  pub kind : String
  pub gen : ℕ
  pub force : Bool

abbrev pub ticket_of : Request → Ticket
ticket_of r = record {
  repo = r.repo;
  item = r.item;
  kind = r.item_kind;
  gen = r.generation + 1;
  force = r.force;
}

abbrev pub is_queued : RequestState → Bool
is_queued queued = true
is_queued _ = false

abbrev pub is_due : ℕ → Option ℕ → Bool
is_due now none = true
is_due now (some t) = leb t now

-- The filters of a step: an empty name and item 0 select every request.
abbrev pub is_ready : ℕ → String → ℕ → Request → Bool
is_ready now filter_repo filter_item r =
    is_queued r.state
    && (not r.owner
        && (is_due now r.not_before
            && ((str_eq filter_repo "" || str_eq r.repo filter_repo)
                && (not (ltb 0 filter_item) || r.item == filter_item))))

abbrev pub take_by : ℕ → ℕ → Request → Request
take_by until gen r = record r {
  owner = true;
  generation = gen;
  owner_expires_at = some until;
  state = running;
}

-- A fetch that failed: the request is queued again, until the limit.
abbrev pub miss : Request → Request
miss r =
    let n = r.retry_count + 1 in
    record r {
      owner = false;
      retry_count = n;
      state = if leb refresh_retry_limit n then failed else queued;
    }

-- The release after admission. `force` is that of the ticket or of the row.
abbrev pub let_go : Admission → Bool → Request → Request
let_go ineligible force r = record r {
  owner = false;
  needs_another = false;
  force = false;
  state = idle;
}
let_go over_budget force r = record r {
  owner = false;
  needs_another = false;
  force = force;
  state = if r.needs_another || force then queued else idle;
}
let_go settled force r = record r {
  owner = false;
  needs_another = false;
  force = false;
  state = if r.needs_another then queued else idle;
}

module _ {Y : Type 0} where
  unfoldable pub update_request : String → ℕ → (Request → Request) → Tx (Intake Y) (Unit {0})
  update_request repo item f db = ok (
    tt,
    set_intake
        (record db.rest { requests = update_where (is_request repo item) f db.rest.requests }) db,
  )

  abbrev pub take_row : ℕ → Request → Db (Intake Y) → Db (Intake Y)
  take_row until r db =
      set_intake
        (record db.rest {
          requests =
              update_where (λ (x : Request). is_request r.repo r.item x && not x.owner)
                (take_by until (r.generation + 1)) db.rest.requests;
        })
        db

  -- The first transaction: no ticket when nothing is ready.
  unfoldable pub take_tx : ℕ → ℕ → String → ℕ → Tx (Intake Y) (Option Ticket)
  take_tx now owner_ttl filter_repo filter_item db =
      elim (find_where (is_ready now filter_repo filter_item) db.rest.requests) [
        | none ↦ ok (none, db)
        | some r ↦ ok (some (ticket_of r), take_row (now + owner_ttl) r db)
      ]

  unfoldable pub take_request :
      ℕ → ℕ → String → ℕ → Db (Intake Y) → Db (Intake Y) × Result Error (Option Ticket)
  unfolding take_tx
  take_request now owner_ttl filter_repo filter_item =
      run_tx (take_tx now owner_ttl filter_repo filter_item)

  unfoldable pub get_request : String → ℕ → Tx (Intake Y) Request
  get_request repo item db = elim (find_request repo item db.rest.requests) [
    | none ↦ err no_rows
    | some r ↦ ok (r, db)
  ]

module _ {Y G : Type 0} (rooms : Rooms Y) (policy : Effective G) where
  abbrev pub expected : String → Option Item → Option Item
  expected kind none = none
  expected kind (some it) =
      if not (str_eq kind "") && not (str_eq it.item_kind kind) then none else some it

  unfoldable pub finish_held :
      Ticket → Option Item → String → Bool → Request → Tx (Intake Y) Admission
  unfolding update_request admit_tx
  finish_held t none day enforce r = update_request t.repo t.item miss >> return settled
  finish_held t (some it) day enforce r = do
    admitted ← admit_tx rooms policy it day (t.force || r.force) t.gen enforce
    update_request t.repo t.item (let_go admitted (t.force || r.force))
    return admitted

  -- The second transaction. A request that has changed hands is left alone.
  unfoldable pub finish_tx : Ticket → Option Item → String → Bool → Tx (Intake Y) Admission
  unfolding get_request finish_held
  finish_tx t fetched day enforce = do
    r ← get_request t.repo t.item
    if not (r.generation == t.gen) || not r.owner
        then return settled
        else finish_held t fetched day enforce r

  -- `fetched` is what GitHub returned, none when it failed, and `expected_kind` the kind asked for.
  unfoldable pub finish_refresh :
      Ticket
      → String
      → Option Item
      → String
      → Bool
      → Db (Intake Y)
      → Db (Intake Y) × Result Error Admission
  unfolding finish_tx
  finish_refresh t expected_kind fetched day enforce =
      run_tx (finish_tx t (expected expected_kind fetched) day enforce)
