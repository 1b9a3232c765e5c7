-- ===== src/Refresh/Operations.antt =====
-- Each transaction on the refresh queue makes one move of it.
use rusui.Common.{
  ℕ, ◌≡◌, refl, Bool, false, ◌||◌, not, Option, none, some, List, String, Result, ok, err, arith,
  ◌==◌, if◌then◌else◌, Option-cases, inl, inr, str_eq, subst, sym, ◌+◌, find_where,
}
use rusui.Store.{Item, Db, Error, Tx, run_tx}
use rusui.Store.Logic.{Post, Post-weaken, Yields, Yields-bind, Yields-if, Yields-return}
use rusui.Policy.{Effective}
use rusui.Refresh.{Request, Delivery, Intake, Rooms}
use rusui.Refresh.Queue.{
  is_request, find_delivery, ask_db, add_event, insert_event, ensure_refresh_queued, ingest_tx,
  catch_up_tx, event_tx, github_intake_item, is_too_old,
}
use rusui.Refresh.Step.{
  Ticket, ticket_of, take_row, is_ready, take_tx, get_request, update_request, finish_held,
  finish_tx,
}
use rusui.Refresh.Admit.{settled, admit_tx}
use rusui.Refresh.Moves.{IsMove-miss, IsMove-let_go, IsMove-take, Moved, same, asked, updated}
use rusui.Refresh.Keys.{IsUnique, find_request_unique}
use rusui.Refresh.Frame.{Leaves-admit_tx}

module _ {Y : Type 0} where
  Moved-settle :
      {A : Type 0} (db : Db (Intake Y)) (r : Result Error (A × Db (Intake Y)))
      → Post (λ (a : A) next. Moved db.rest.requests next.rest.requests) r
      → Moved db.rest.requests
          (elim r as (λ _. Db (Intake Y) × Result Error A) [
            | ok (a, next) ↦ (next, ok a)
            | err e ↦ (db, err e)
          ]).0.rest.requests
  Moved-settle db (ok (a, next)) h = h
  Moved-settle db (err e) h = same refl

  pub Moved-run_tx :
      {A : Type 0} (m : Tx (Intake Y) A) (db : Db (Intake Y))
      → Post (λ (a : A) next. Moved db.rest.requests next.rest.requests) (m db)
      → Moved db.rest.requests (run_tx m db).0.rest.requests
  Moved-run_tx m db h = Moved-settle db (m db) h

  -- A delivery that is new queues its request.
  pub ingest_tx-new :
      (source : String) (d : Delivery) (db : Db (Intake Y))
      → find_delivery d.delivery_id db.rest.deliveries ≡ none
      → ingest_tx source d db
        ≡ ok (tt, ask_db d.repo d.item d.item_kind false (add_event source d db))
  unfolding ingest_tx insert_event ensure_refresh_queued
  ingest_tx-new source d db e = ground arith

  -- A delivery that is known does nothing.
  pub ingest_tx-known :
      (source : String) (d x : Delivery) (db : Db (Intake Y))
      → find_delivery d.delivery_id db.rest.deliveries ≡ some x
      → ingest_tx source d db ≡ ok (tt, db)
  unfolding ingest_tx insert_event
  ingest_tx-known source d x db e = ground arith

  pub Moved-ingest_tx :
      (source : String) (d : Delivery) (db : Db (Intake Y))
      → Post (λ _ next. Moved db.rest.requests next.rest.requests) (ingest_tx source d db)
  Moved-ingest_tx source d db =
      elim (Option-cases (find_delivery d.delivery_id db.rest.deliveries)) [
        | inl e ↦
            subst (Post λ _ next. Moved db.rest.requests next.rest.requests)
              (sym (ingest_tx-new source d db e)) (asked d.repo d.item d.item_kind false refl)
        | inr (x, e) ↦
            subst (Post λ _ next. Moved db.rest.requests next.rest.requests)
              (sym (ingest_tx-known source d x db e)) (same refl)
      ]

  pub take_tx-ready :
      (now ttl : ℕ) (repo : String) (item : ℕ) (db : Db (Intake Y)) (r : Request)
      → find_where (is_ready now repo item) db.rest.requests ≡ some r
      → take_tx now ttl repo item db ≡ ok (some (ticket_of r), take_row (now + ttl) r db)
  unfolding take_tx
  take_tx-ready now ttl repo item db r e = ground arith

  pub take_tx-idle :
      (now ttl : ℕ) (repo : String) (item : ℕ) (db : Db (Intake Y))
      → find_where (is_ready now repo item) db.rest.requests ≡ none
      → take_tx now ttl repo item db ≡ ok (none, db)
  unfolding take_tx
  take_tx-idle now ttl repo item db e = ground arith

  pub Moved-take_tx :
      (now ttl : ℕ) (repo : String) (item : ℕ) (db : Db (Intake Y))
      → IsUnique db.rest.requests
      → Post (λ _ next. Moved db.rest.requests next.rest.requests) (take_tx now ttl repo item db)
  Moved-take_tx now ttl repo item db u =
      elim (Option-cases (find_where (is_ready now repo item) db.rest.requests)) [
        | inl e ↦
            subst (Post λ _ next. Moved db.rest.requests next.rest.requests)
              (sym (take_tx-idle now ttl repo item db e)) (same refl)
        | inr (r, e) ↦
            (let own = find_request_unique (is_ready now repo item) db.rest.requests r u e in
              subst (Post λ _ next. Moved db.rest.requests next.rest.requests)
                (sym (take_tx-ready now ttl repo item db r e))
                (updated _ _ (IsMove-take db.rest.requests r (now + ttl) own) refl))
      ]

  pub Moved-catch_up_tx :
      (repo : String) (item : ℕ) (kind : String) (db : Db (Intake Y))
      → Post (λ _ next. Moved db.rest.requests next.rest.requests) (catch_up_tx repo item kind db)
  unfolding ensure_refresh_queued
  Moved-catch_up_tx repo item kind db =
      (Yields-if {P = λ next. next ≡ db} {Q = λ _ next. Moved db.rest.requests next.rest.requests}
          (github_intake_item kind item)
          (λ _. record { at = λ next e. rw e (asked repo item kind false refl) })
          (λ _. record { at = λ next e. rw e (same refl) })).at
        db refl

  pub Moved-event_tx :
      (now : ℕ) (source : String) (at : Option ℕ) (d : Delivery) (db : Db (Intake Y))
      → Post (λ _ next. Moved db.rest.requests next.rest.requests) (event_tx now source at d db)
  Moved-event_tx now source at d db =
      (Yields-if {P = λ next. next ≡ db} {Q = λ _ next. Moved db.rest.requests next.rest.requests}
          (str_eq d.delivery_id "" || (str_eq d.repo "" || (d.item == 0 || str_eq d.item_kind "")))
          (λ _. record { at = λ next e. tt })
          λ _.
            Yields-if (is_too_old now at) (λ _. record { at = λ next e. rw e (same refl) })
              (λ _. record {
                at = λ next e.
                    rw e (Moved-ingest_tx (if str_eq source "" then "generic" else source) d db);
              })).at
        db refl

module _ {Y G : Type 0} (rooms : Rooms Y) (policy : Effective G) where
  Moved-finish_held :
      (t : Ticket) (fetched : Option Item) (day : String) (enforce : Bool) (r : Request)
      (rs : List Request)
      → Yields {X = Intake Y}
          (λ db. db.rest.requests ≡ rs)
          (finish_held rooms policy t fetched day enforce r)
          (λ _ next. Moved rs next.rest.requests)
  unfolding finish_held update_request
  Moved-finish_held t none day enforce r rs = record {
    at = λ db e. updated _ _ (IsMove-miss rs (is_request t.repo t.item)) (rw e refl);
  }
  Moved-finish_held t (some it) day enforce r rs =
      let force = t.force || r.force in
      Yields-bind {Q = λ _ next. next.rest.requests ≡ rs}
        (record { at = λ db e. kept it force db e })
        λ admitted. record {
          at = λ db e.
              updated _ _ (IsMove-let_go rs (is_request t.repo t.item) admitted force) (rw e refl);
        }
    where
      kept :
          (it : Item) (force : Bool) (db : Db (Intake Y))
          → db.rest.requests ≡ rs
          → Post
              (λ _ next. next.rest.requests ≡ rs)
              (admit_tx rooms policy it day force t.gen enforce db)
      kept it force db e =
          Post-weaken (λ a next s. s.requests_are)
            (admit_tx rooms policy it day force t.gen enforce db)
            ((Leaves-admit_tx rooms policy it day force t.gen enforce).at rs db.rest.deliveries db
              (record { requests_are = e; deliveries_are = refl }))

  Yields-get_request :
      (repo : String) (item : ℕ) (rs : List Request)
      → Yields {X = Intake Y}
          (λ db. db.rest.requests ≡ rs)
          (get_request repo item)
          (λ _ next. next.rest.requests ≡ rs)
  unfolding get_request
  Yields-get_request repo item rs = record { at = λ db e. ground arith }

  pub Moved-finish_tx :
      (t : Ticket) (fetched : Option Item) (day : String) (enforce : Bool) (rs : List Request)
      → Yields {X = Intake Y}
          (λ db. db.rest.requests ≡ rs)
          (finish_tx rooms policy t fetched day enforce)
          (λ _ next. Moved rs next.rest.requests)
  unfolding finish_tx
  Moved-finish_tx t fetched day enforce rs =
      Yields-bind {Q = λ _ next. next.rest.requests ≡ rs} (Yields-get_request t.repo t.item rs) λ r.
        Yields-if (not (r.generation == t.gen) || not r.owner)
          (λ _. Yields-return settled λ db e. same e)
          (λ _. Moved-finish_held t fetched day enforce r rs)
