-- ===== src/Refresh/Deliveries.antt =====
-- A delivery is taken once: `deliveries` has one row for each id, and no operation removes one.
use rusui.Common.{
  ℕ, ◌≡◌, refl, Bool, ◌||◌, not, Option, none, some, List, [], ◌∷◌, String, Result, ok, err, arith,
  ◌==◌, if◌then◌else◌, Bool-cases, Option-cases, inl, inr, ap, ◌∙◌, subst, sym, str_eq, eq_iff,
  find_where,
}
use rusui.Store.{Item, Db, Error, Tx, run_tx}
use rusui.Store.Run.{run_tx-ok}
use rusui.Store.Logic.{Post, Post-weaken, Yields, Yields-bind, Yields-if, Yields-return}
use rusui.Policy.{Effective}
use rusui.Refresh.{Request, Delivery, Intake, Rooms}
use rusui.Refresh.Queue.{
  find_delivery, delivery_of, at_or, is_too_old, github_intake_item, ingest_tx, event_tx,
  catch_up_tx, ensure_refresh_queued, ingest_webhook, ingest_event, catch_up_item,
  expire_refresh_owners, startup_expire_owners,
}
use rusui.Refresh.Step.{
  Ticket, expected, is_ready, take_tx, take_request, get_request, update_request, finish_held,
  finish_tx, finish_refresh,
}
use rusui.Refresh.Admit.{settled, admit_tx}
use rusui.Refresh.Frame.{Leaves-admit_tx}
use rusui.Refresh.Operations.{ingest_tx-new, ingest_tx-known, take_tx-ready, take_tx-idle}
use rusui.Refresh.Trace.{Op, webhook, event, catch_up, take, finish, expire, restart, apply, run}

Seen-add :
    (id : String) (d e : Delivery) (ds : List Delivery)
    → find_delivery e.delivery_id ds ≡ none
    → find_delivery id ds ≡ some d
    → find_delivery id (e ∷ ds) ≡ some d
Seen-add id d e ds missing s = elim (Bool-cases (str_eq e.delivery_id id)) [
  | inl hit ↦
      (let apart = λ (h : e.delivery_id ≡ id). ap (λ (k : String). find_delivery k ds) h in
        let same = (eq_iff e.delivery_id id).0 hit in ground (arith, apart same))
  | inr miss ↦ rw miss s
]

find_delivery_self :
    (d : Delivery) (ds : List Delivery) → find_delivery d.delivery_id (d ∷ ds) ≡ some d
find_delivery_self d ds = ground (arith, (eq_iff d.delivery_id d.delivery_id).1 refl)

module _ {Y : Type 0} (id : String) (d : Delivery) where
  -- The delivery is in the table.
  abbrev Seen : Db (Intake Y) → Type 0
  Seen db = find_delivery id db.rest.deliveries ≡ some d

  Seen-settle :
      {A : Type 0} (db : Db (Intake Y)) (r : Result Error (A × Db (Intake Y)))
      → Seen db
      → Post (λ (a : A). Seen) r
      → Seen
          (elim r as (λ _. Db (Intake Y) × Result Error A) [
            | ok (a, next) ↦ (next, ok a)
            | err e ↦ (db, err e)
          ]).0
  Seen-settle db (ok (a, next)) s h = h
  Seen-settle db (err e) s h = s

  Seen-ingest_tx :
      (source : String) (e : Delivery) (db : Db (Intake Y))
      → Seen db
      → Post (λ _. Seen) (ingest_tx source e db)
  Seen-ingest_tx source e db s =
      elim (Option-cases (find_delivery e.delivery_id db.rest.deliveries)) [
        | inl missing ↦
            subst (Post λ _. Seen) (sym (ingest_tx-new source e db missing))
              (Seen-add id d e db.rest.deliveries missing s)
        | inr (x, found) ↦ subst (Post λ _. Seen) (sym (ingest_tx-known source e x db found)) s
      ]

  Yields-ingest_tx :
      (source : String) (e : Delivery) → Yields {X = Intake Y} Seen (ingest_tx source e) (λ _. Seen)
  Yields-ingest_tx source e = record { at = Seen-ingest_tx source e }

  Yields-event_tx :
      (now : ℕ) (source : String) (at : Option ℕ) (e : Delivery)
      → Yields {X = Intake Y} Seen (event_tx now source at e) (λ _. Seen)
  Yields-event_tx now source at e =
      Yields-if
        (str_eq e.delivery_id "" || (str_eq e.repo "" || (e.item == 0 || str_eq e.item_kind "")))
        (λ _. record { at = λ db s. tt })
        λ _.
          Yields-if (is_too_old now at) (λ _. Yields-return tt λ db s. s)
            λ _. Yields-ingest_tx (if str_eq source "" then "generic" else source) e

  Yields-catch_up_tx :
      (repo : String) (item : ℕ) (kind : String)
      → Yields {X = Intake Y} Seen (catch_up_tx repo item kind) (λ _. Seen)
  unfolding ensure_refresh_queued
  Yields-catch_up_tx repo item kind =
      Yields-if (github_intake_item kind item) (λ _. record { at = λ db s. s })
        λ _. Yields-return tt λ db s. s

  Seen-take_tx :
      (now ttl : ℕ) (repo : String) (item : ℕ) (db : Db (Intake Y))
      → Seen db
      → Post (λ _. Seen) (take_tx now ttl repo item db)
  Seen-take_tx now ttl repo item db s =
      elim (Option-cases (find_where (is_ready now repo item) db.rest.requests)) [
        | inl e ↦ subst (Post λ _. Seen) (sym (take_tx-idle now ttl repo item db e)) s
        | inr (r, e) ↦ subst (Post λ _. Seen) (sym (take_tx-ready now ttl repo item db r e)) s
      ]

module _ {Y G : Type 0} (rooms : Rooms Y) (policy : Effective G) (id : String) (d : Delivery) where
  Yields-get_request :
      (repo : String) (item : ℕ)
      → Yields {X = Intake Y} (Seen id d) (get_request repo item) (λ _. Seen id d)
  unfolding get_request
  Yields-get_request repo item = record { at = λ db s. ground arith }

  Yields-admit_tx :
      (it : Item) (day : String) (force : Bool) (gen : ℕ) (enforce : Bool)
      → Yields (Seen id d) (admit_tx rooms policy it day force gen enforce) (λ _. Seen id d)
  Yields-admit_tx it day force gen enforce = record {
    at = λ db s.
        Post-weaken (λ a next q. ap (find_delivery id) q.deliveries_are ∙ s)
          (admit_tx rooms policy it day force gen enforce db)
          ((Leaves-admit_tx rooms policy it day force gen enforce).at db.rest.requests
            db.rest.deliveries db (record { requests_are = refl; deliveries_are = refl }));
  }

  Yields-finish_held :
      (t : Ticket) (fetched : Option Item) (day : String) (enforce : Bool) (r : Request)
      → Yields (Seen id d) (finish_held rooms policy t fetched day enforce r) (λ _. Seen id d)
  unfolding finish_held update_request
  Yields-finish_held t none day enforce r = record { at = λ db s. s }
  Yields-finish_held t (some it) day enforce r =
      Yields-bind (Yields-admit_tx it day (t.force || r.force) t.gen enforce)
        λ admitted. record { at = λ db s. s }

  Yields-finish_tx :
      (t : Ticket) (fetched : Option Item) (day : String) (enforce : Bool)
      → Yields (Seen id d) (finish_tx rooms policy t fetched day enforce) (λ _. Seen id d)
  unfolding finish_tx
  Yields-finish_tx t fetched day enforce = Yields-bind (Yields-get_request t.repo t.item) λ r.
      Yields-if (not (r.generation == t.gen) || not r.owner) (λ _. Yields-return settled λ db s. s)
        (λ _. Yields-finish_held t fetched day enforce r)

  Seen-run_tx :
      {A : Type 0} (m : Tx (Intake Y) A) (db : Db (Intake Y))
      → Yields (Seen id d) m (λ _. Seen id d)
      → Seen id d db
      → Seen id d (run_tx m db).0
  Seen-run_tx m db y s = Seen-settle id d db (m db) s (y.at db s)

  Seen-apply : (op : Op) (db : Db (Intake Y)) → Seen id d db → Seen id d (apply rooms policy op db)
  unfolding apply ingest_webhook ingest_event catch_up_item take_request finish_refresh
      expire_refresh_owners startup_expire_owners
  Seen-apply (webhook now x repo item kind) db s =
      let e = delivery_of x repo item kind now in
      Seen-run_tx (ingest_tx "github" e) db (Yields-ingest_tx id d "github" e) s
  Seen-apply (event now x source repo item kind at) db s =
      let e = delivery_of x repo item kind (at_or now at) in
      Seen-run_tx (event_tx now source at e) db (Yields-event_tx id d now source at e) s
  Seen-apply (catch_up repo item kind) db s =
      Seen-run_tx (catch_up_tx repo item kind) db (Yields-catch_up_tx id d repo item kind) s
  Seen-apply (take now ttl repo item) db s =
      Seen-run_tx (take_tx now ttl repo item) db
        (record { at = Seen-take_tx id d now ttl repo item }) s
  Seen-apply (finish t kind fetched day enforce) db s =
      let got = expected rooms policy kind fetched in
      Seen-run_tx (finish_tx rooms policy t got day enforce) db (Yields-finish_tx t got day enforce)
        s
  Seen-apply (expire now) db s = s
  Seen-apply restart db s = s

  Seen-run :
      (ops : List Op) (db : Db (Intake Y)) → Seen id d db → Seen id d (run rooms policy ops db)
  unfolding run
  Seen-run [] db s = s
  Seen-run (op ∷ ops) db s = Seen-run ops (apply rooms policy op db) (Seen-apply op db s)

module _ {Y : Type 0} where
  ingest_webhook-Seen :
      (now : ℕ) (id repo : String) (item : ℕ) (kind : String) (db : Db (Intake Y))
      → (d : Delivery) × Seen id d (ingest_webhook now id repo item kind db).0
  unfolding ingest_webhook
  ingest_webhook-Seen now id repo item kind db =
      let e = delivery_of id repo item kind now in
      elim (Option-cases (find_delivery id db.rest.deliveries)) [
        | inl missing ↦ (
          e,
          ap (λ (p : Db (Intake Y) × Result Error (Unit {0})). find_delivery id p.0.rest.deliveries)
                (run_tx-ok (ingest_tx "github" e) db tt _ (ingest_tx-new "github" e db missing))
              ∙ find_delivery_self e db.rest.deliveries,
        )
        | inr (x, found) ↦ (
          x,
          ap (λ (p : Db (Intake Y) × Result Error (Unit {0})). find_delivery id p.0.rest.deliveries)
                (run_tx-ok (ingest_tx "github" e) db tt db (ingest_tx-known "github" e x db found))
              ∙ found,
        )
      ]

-- A webhook that is delivered again, with whatever content and after whatever operations, changes
-- nothing.
pub ingest_webhook-repeated :
    {Y G : Type 0} (rooms : Rooms Y) (policy : Effective G) (id : String) (now : ℕ) (repo : String)
    (item : ℕ) (kind : String) (db : Db (Intake Y)) (ops : List Op) (later : ℕ) (repo' : String)
    (item' : ℕ) (kind' : String)
    → let next = run rooms policy ops (ingest_webhook now id repo item kind db).0 in
      ingest_webhook later id repo' item' kind' next ≡ (next, ok tt)
unfolding ingest_webhook
ingest_webhook-repeated rooms policy id now repo item kind db ops later repo' item' kind' =
    let (d, s) = ingest_webhook-Seen now id repo item kind db in
    let next = run rooms policy ops (ingest_webhook now id repo item kind db).0 in
    let e = delivery_of id repo' item' kind' later in
    run_tx-ok (ingest_tx "github" e) next tt next (
      ingest_tx-known "github" e d next
        (Seen-run rooms policy id d ops (ingest_webhook now id repo item kind db).0 s))
