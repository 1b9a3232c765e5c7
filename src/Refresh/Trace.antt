-- ===== src/Refresh/Trace.antt =====
-- Every operation on the refresh queue, in any order: a step's two transactions are two operations,
-- and anything may come between them.
use rusui.Common.{ℕ, ◌≡◌, refl, Bool, Option, some, List, [], ◌∷◌, String, ok, arith, ◌<◌}
use rusui.Store.{Item, Db}
use rusui.Store.Run.{run_tx-ok}
use rusui.Policy.{Effective}
use rusui.Refresh.{Request, Intake, Rooms}
use rusui.Refresh.Queue.{
  find_request, ensure_refresh_queued, ingest_tx, ingest_webhook, ingest_event, catch_up_item,
  catch_up_tx, event_tx, delivery_of, at_or, expire_refresh_owners, startup_expire_owners,
}
use rusui.Refresh.Step.{
  Ticket, expected, take_tx, take_request, get_request, finish_tx, finish_refresh,
}
use rusui.Refresh.Admit.{settled}
use rusui.Refresh.Moves.{
  IsQueue, Advance, Advance-refl, Advance-trans, FoundRow, IsMove-release, IsMove-restart, Moved,
  updated, Moved-IsUnique, Moved-IsSound, Moved-Advance,
}
use rusui.Refresh.Operations.{
  Moved-run_tx, Moved-ingest_tx, Moved-catch_up_tx, Moved-event_tx, Moved-take_tx, Moved-finish_tx,
}
use rusui.Refresh.Keys.{IsUnique}

pub data Op : Type 0 where
  webhook : ℕ → String → String → ℕ → String → Op
  event : ℕ → String → String → String → ℕ → String → Option ℕ → Op
  catch_up : String → ℕ → String → Op
  take : ℕ → ℕ → String → ℕ → Op
  finish : Ticket → String → Option Item → String → Bool → Op
  expire : ℕ → Op
  restart : Op

module _ {Y G : Type 0} (rooms : Rooms Y) (policy : Effective G) where
  unfoldable pub apply : Op → Db (Intake Y) → Db (Intake Y)
  apply (webhook now id repo item kind) db = (ingest_webhook now id repo item kind db).0
  apply (event now id source repo item kind at) db =
      (ingest_event now id source repo item kind at db).0
  apply (catch_up repo item kind) db = (catch_up_item repo item kind db).0
  apply (take now ttl repo item) db = (take_request now ttl repo item db).0
  apply (finish t kind fetched day enforce) db =
      (finish_refresh rooms policy t kind fetched day enforce db).0
  apply (expire now) db = (expire_refresh_owners now db).0
  apply restart db = (startup_expire_owners db).0

  unfoldable pub run : List Op → Db (Intake Y) → Db (Intake Y)
  run [] db = db
  run (op ∷ ops) db = run ops (apply op db)

module _ {Y G : Type 0} (rooms : Rooms Y) (policy : Effective G) where
  -- Each operation is a move of the queue.
  pub apply-Moved :
      (op : Op) (db : Db (Intake Y))
      → IsUnique db.rest.requests
      → Moved db.rest.requests (apply rooms policy op db).rest.requests
  unfolding apply ingest_webhook ingest_event catch_up_item ensure_refresh_queued take_request
      finish_refresh expire_refresh_owners startup_expire_owners
  apply-Moved (webhook now id repo item kind) db u =
      let d = delivery_of id repo item kind now in
      Moved-run_tx (ingest_tx "github" d) db (Moved-ingest_tx "github" d db)
  apply-Moved (event now id source repo item kind at) db u =
      let d = delivery_of id repo item kind (at_or now at) in
      Moved-run_tx (event_tx now source at d) db (Moved-event_tx now source at d db)
  apply-Moved (catch_up repo item kind) db u =
      Moved-run_tx (catch_up_tx repo item kind) db (Moved-catch_up_tx repo item kind db)
  apply-Moved (take now ttl repo item) db u =
      Moved-run_tx (take_tx now ttl repo item) db (Moved-take_tx now ttl repo item db u)
  apply-Moved (finish t kind fetched day enforce) db u =
      let got = expected rooms policy kind fetched in
      Moved-run_tx (finish_tx rooms policy t got day enforce) db
        ((Moved-finish_tx rooms policy t got day enforce db.rest.requests).at db refl)
  apply-Moved (expire now) db u = updated _ _ (IsMove-release db.rest.requests _ now) refl
  apply-Moved restart db u = updated _ _ (IsMove-restart db.rest.requests _) refl

  -- Through any operations, from a queue in order the queue stays in order: one row for each request,
  -- which runs with an owner, waits without one or to run once more, is idle with nothing left to
  -- do, or has failed.
  pub run-IsQueue :
      (ops : List Op) (db : Db (Intake Y))
      → IsQueue db.rest.requests
      → IsQueue (run rooms policy ops db).rest.requests
  unfolding run
  run-IsQueue [] db h = h
  run-IsQueue (op ∷ ops) db h =
      let m = apply-Moved op db h.unique in
      run-IsQueue ops (apply rooms policy op db)
        (record { unique = Moved-IsUnique _ _ m h.unique; sound = Moved-IsSound _ _ m h.sound })

  -- Through any operations, from a queue with one row for each request, no request is lost, and
  -- neither its generation nor its count of retries goes back.
  pub run-Advance :
      (ops : List Op) (db : Db (Intake Y)) (repo : String) (item : ℕ) (r : Request)
      → IsUnique db.rest.requests
      → find_request repo item db.rest.requests ≡ some r
      → FoundRow repo item (run rooms policy ops db).rest.requests (Advance r)
  unfolding run
  run-Advance [] db repo item r u e = (r, e, Advance-refl r)
  run-Advance (op ∷ ops) db repo item r u e =
      let m = apply-Moved op db u in
      let (s, f, a) = Moved-Advance _ _ m repo item r e in
      let (q, g, b) =
        run-Advance ops (apply rooms policy op db) repo item s (Moved-IsUnique _ _ m u) f in
      (q, g, Advance-trans r s q a b)

  finish_tx-stale :
      (t : Ticket) (fetched : Option Item) (day : String) (enforce : Bool) (db : Db (Intake Y))
      (r : Request)
      → find_request t.repo t.item db.rest.requests ≡ some r
      → t.gen < r.generation
      → finish_tx rooms policy t fetched day enforce db ≡ ok (settled, db)
  unfolding finish_tx get_request
  finish_tx-stale t fetched day enforce db r e l = ground arith

  -- A step whose request has since been taken over or expired, and so has a later generation than
  -- its ticket, changes nothing, whatever came between and whatever it fetched.
  pub finish_refresh-run :
      (ops : List Op) (db : Db (Intake Y)) (t : Ticket) (r : Request) (kind : String)
      (fetched : Option Item) (day : String) (enforce : Bool)
      → IsUnique db.rest.requests
      → find_request t.repo t.item db.rest.requests ≡ some r
      → t.gen < r.generation
      → finish_refresh rooms policy t kind fetched day enforce (run rooms policy ops db)
        ≡ (run rooms policy ops db, ok settled)
  unfolding finish_refresh
  finish_refresh-run ops db t r kind fetched day enforce u e l =
      let (s, f, a) = run-Advance ops db t.repo t.item r u e in
      let got = expected rooms policy kind fetched in
      run_tx-ok (finish_tx rooms policy t got day enforce) (run rooms policy ops db) settled _ (
        finish_tx-stale t got day enforce (run rooms policy ops db) s f
          (omega (arith, a.generation, l)))
