-- ===== src/Refresh/Queue.antt =====
-- internal/store/store.go and internal/engine/engine.go: deliveries and events, and the requests
-- they queue; owners that have expired.
use rusui.Common.{
  ℕ, ◌+◌, ◌-◌, ◌*◌, ◌^◌, min, Bool, true, false, ◌&&◌, ◌||◌, Option, none, some, List, ◌∷◌, String,
  Result, ok, if◌then◌else◌, ◌==◌, ltb, leb, str_eq, find_where, update_where,
}
use rusui.Store.{Db, Error, constraint, Tx, ◌>>=◌, return, fail_with, run_tx}
use rusui.Engine.{minute}
use rusui.Refresh.{
  queued, failed, Request, Delivery, Event, ReviewSession, Intake, set_intake, refresh_retry_limit,
  second, event_max_age,
}

abbrev pub is_request : String → ℕ → Request → Bool
is_request repo item r = str_eq r.repo repo && r.item == item

abbrev pub find_request : String → ℕ → List Request → Option Request
find_request repo item = find_where (is_request repo item)

abbrev pub find_delivery : String → List Delivery → Option Delivery
find_delivery id = find_where (λ (d : Delivery). str_eq d.delivery_id id)

abbrev pub find_session : String → ℕ → List ReviewSession → Option ReviewSession
find_session repo item = find_where (λ (s : ReviewSession). str_eq s.repo repo && s.item == item)

abbrev pub new_request : String → ℕ → String → Bool → Request
new_request repo item kind force = record {
  repo = repo;
  item = item;
  item_kind = kind;
  generation = 0;
  owner = false;
  owner_expires_at = none;
  retry_count = 0;
  needs_another = false;
  force = force;
  state = queued;
  not_before = none;
}

-- What `EnsureRefreshQueuedTx` does to a row: a request that is owned is to run once more.
abbrev pub ask : Bool → Request → Request
ask force r =
    if r.owner
    then record r { needs_another = true; force = force || r.force; state = queued }
    else record r { state = queued; force = force || r.force }

abbrev pub ask_in : String → ℕ → String → Bool → List Request → List Request
ask_in repo item kind force requests = elim (find_request repo item requests) [
  | none ↦ new_request repo item kind force ∷ requests
  | some r ↦ update_where (is_request repo item) (ask force) requests
]

-- What happens to a request whose owner has expired at the time `now`.
abbrev pub backoff : ℕ → ℕ
backoff n = min (2 ^ min (n - 1) 6 * second) minute

abbrev pub is_dead : ℕ → Request → Bool
is_dead now r = elim r.owner_expires_at [ none ↦ true | some t ↦ leb t now ]

abbrev pub release : ℕ → Request → Request
release now r =
    let n = r.retry_count + 1 in
    record r {
      owner = false;
      retry_count = n;
      state = if leb refresh_retry_limit n then failed else queued;
      not_before = some (now + backoff n);
      generation = r.generation + 1;
    }

abbrev pub session_id : Option ReviewSession → Option ℕ
session_id none = none
session_id (some s) = some s.id

abbrev pub delivery_of : String → String → ℕ → String → ℕ → Delivery
delivery_of id repo item kind at = record {
  delivery_id = id;
  repo = repo;
  item = item;
  item_kind = kind;
  received_at = at;
}

abbrev pub is_too_old : ℕ → Option ℕ → Bool
is_too_old now none = false
is_too_old now (some at) = ltb event_max_age (now - at)

abbrev pub at_or : ℕ → Option ℕ → ℕ
at_or now none = now
at_or now (some at) = at

abbrev pub github_intake_item : String → ℕ → Bool
github_intake_item kind item = ltb 0 item && (str_eq kind "issue" || str_eq kind "pull")

module _ {Y : Type 0} where
  abbrev pub ask_db : String → ℕ → String → Bool → Db (Intake Y) → Db (Intake Y)
  ask_db repo item kind force db =
      set_intake (record db.rest { requests = ask_in repo item kind force db.rest.requests }) db

  -- `EnsureRefreshQueuedTx`.
  unfoldable pub ensure_refresh_queued : String → ℕ → String → Bool → Tx (Intake Y) (Unit {0})
  ensure_refresh_queued repo item kind force db = ok (tt, ask_db repo item kind force db)

  abbrev pub add_event : String → Delivery → Db (Intake Y) → Db (Intake Y)
  add_event source d db =
      let event : Event = record {
        session = session_id (find_session d.repo d.item db.rest.sessions);
        source = source;
        delivery = d;
      } in
      set_intake
        (record db.rest { deliveries = d ∷ db.rest.deliveries; events = event ∷ db.rest.events }) db

  -- `InsertDeliveryTx` and `InsertEventTx`, which differ in the source of the event: INSERT OR IGNORE
  -- on the delivery's id.
  unfoldable pub insert_event : String → Delivery → Tx (Intake Y) Bool
  insert_event source d db = elim (find_delivery d.delivery_id db.rest.deliveries) [
    | some _ ↦ ok (false, db)
    | none ↦ ok (true, add_event source d db)
  ]

  -- The transaction of `IngestWebhook` and of `IngestEvent`.
  unfoldable pub ingest_tx : String → Delivery → Tx (Intake Y) (Unit {0})
  unfolding insert_event ensure_refresh_queued
  ingest_tx source d = do
    inserted ← insert_event source d
    if inserted then ensure_refresh_queued d.repo d.item d.item_kind false else return tt

  -- `IngestWebhook`.
  unfoldable pub ingest_webhook :
      ℕ → String → String → ℕ → String → Db (Intake Y) → Db (Intake Y) × Result Error (Unit {0})
  ingest_webhook now id repo item kind =
      run_tx (ingest_tx "github" (delivery_of id repo item kind now))

  abbrev pub event_tx : ℕ → String → Option ℕ → Delivery → Tx (Intake Y) (Unit {0})
  event_tx now source occurred_at d =
      if str_eq d.delivery_id "" || (str_eq d.repo "" || (d.item == 0 || str_eq d.item_kind ""))
      then fail_with constraint
      else if is_too_old now occurred_at
      then return tt
      else ingest_tx (if str_eq source "" then "generic" else source) d

  -- `IngestEvent`: `occurred_at` is none when it is the zero time.
  unfoldable pub ingest_event :
      ℕ
      → String
      → String
      → String
      → ℕ
      → String
      → Option ℕ
      → Db (Intake Y)
      → Db (Intake Y) × Result Error (Unit {0})
  ingest_event now id source repo item kind occurred_at =
      run_tx
        (event_tx now source occurred_at (delivery_of id repo item kind (at_or now occurred_at)))

  abbrev pub catch_up_tx : String → ℕ → String → Tx (Intake Y) (Unit {0})
  catch_up_tx repo item kind =
      if github_intake_item kind item then ensure_refresh_queued repo item kind false else return tt

  -- `CatchUpItem`.
  unfoldable pub catch_up_item :
      String → ℕ → String → Db (Intake Y) → Db (Intake Y) × Result Error (Unit {0})
  catch_up_item repo item kind = run_tx (catch_up_tx repo item kind)

  -- `ExpireRefreshOwners`.
  unfoldable pub expire_refresh_owners : ℕ → Db (Intake Y) → Db (Intake Y) × Result Error (Unit {0})
  expire_refresh_owners now = run_tx λ db. ok (
    tt,
    set_intake
        (record db.rest {
          requests =
              update_where (λ (r : Request). r.owner && is_dead now r) (release now)
                db.rest.requests;
        })
        db,
  )

  -- `StartupExpireOwners`.
  unfoldable pub startup_expire_owners : Db (Intake Y) → Db (Intake Y) × Result Error (Unit {0})
  startup_expire_owners = run_tx λ db. ok (
    tt,
    set_intake
        (record db.rest {
          requests =
              update_where (λ (r : Request). r.owner)
                (λ (r : Request). record r {
                  owner = false;
                  state = queued;
                  generation = r.generation + 1;
                })
                db.rest.requests;
        })
        db,
  )
