-- ===== src/Refresh/Asked.antt =====
-- A request that is asked for while a step holds it.
use rusui.Common.{
  ℕ, ◌≡◌, ◌≢◌, refl, Bool, true, false, ◌||◌, not, none, some, List, String, Result, ok, arith,
  ◌==◌, if◌then◌else◌, Option-cases, inl, inr, ap, ◌∙◌, subst, sym, update_where,
}
use rusui.Store.{Item, Db, Error, ◌>>◌, return}
use rusui.Store.Run.{run_tx-ok, bind-ok}
use rusui.Store.Logic.{Post, Post-bind, Post-weaken}
use rusui.Policy.{Effective}
use rusui.Refresh.{Request, queued, Intake, Rooms}
use rusui.Refresh.Queue.{
  is_request, find_request, find_delivery, new_request, ask, ask_in, ask_db, add_event, delivery_of,
  ingest_tx, ingest_webhook,
}
use rusui.Refresh.Step.{
  Ticket, let_go, get_request, update_request, finish_held, finish_tx, finish_refresh,
}
use rusui.Refresh.Admit.{Admission, settled, ineligible, over_budget, admit_tx}
use rusui.Refresh.Settles.{Post-committed, Settles-admit_tx}
use rusui.Refresh.Keys.{find_request-update, is_request-keys, find_request_self, is_request_refl}
use rusui.Refresh.Moves.{FoundRow, ask_in-new, ask_in-found}
use rusui.Refresh.Frame.{Leaves-admit_tx}
use rusui.Refresh.Operations.{ingest_tx-new}

-- A request that is to run, or to run once more when its owner is done.
pub record IsAsked (r : Request) : Type 0 where
  pub is_queued : r.state ≡ queued
  pub once_more : r.owner ≡ true → r.needs_another ≡ true

IsAsked-ask : (force : Bool) (r : Request) → IsAsked (ask force r)
IsAsked-ask force r = ground arith

ask_in-IsAsked :
    (repo : String) (item : ℕ) (kind : String) (force : Bool) (rs : List Request)
    → FoundRow repo item (ask_in repo item kind force rs) IsAsked
ask_in-IsAsked repo item kind force rs = elim (Option-cases (find_request repo item rs)) [
  | inl e ↦ (
    new_request repo item kind force,
    ap (find_request repo item) (ask_in-new repo item kind force rs e)
        ∙ rw (is_request_refl (new_request repo item kind force)) refl,
    record { is_queued = refl; once_more = λ h. absurd (cc) },
  )
  | inr (r, e) ↦ (
    ask force r,
    ap (find_request repo item) (ask_in-found repo item kind force rs r e)
        ∙ (find_request-update repo item (is_request repo item) (ask force) rs
              (λ x. is_request-keys repo item x (ask force x) (ground arith) (ground arith)) r e
            ∙ rw (find_request_self repo item rs r e) refl),
    IsAsked-ask force r,
  )
]

module _ {Y : Type 0} where
  -- A webhook that is new queues the request of its item, or has its owner's step repeated.
  pub ingest_webhook-IsAsked :
      (now : ℕ) (id repo : String) (item : ℕ) (kind : String) (db : Db (Intake Y))
      → find_delivery id db.rest.deliveries ≡ none
      → FoundRow repo item (ingest_webhook now id repo item kind db).0.rest.requests IsAsked
  unfolding ingest_webhook
  ingest_webhook-IsAsked now id repo item kind db e =
      let d = delivery_of id repo item kind now in
      let done =
        run_tx-ok (ingest_tx "github" d) db tt
          (ask_db repo item kind false (add_event "github" d db)) (ingest_tx-new "github" d db e) in
      let (r, f, a) = ask_in-IsAsked repo item kind false db.rest.requests in
      (
        r,
        ap
              (λ (p : Db (Intake Y) × Result Error (Unit {0})).
                find_request repo item p.0.rest.requests)
              done
            ∙ f,
        a,
      )

-- A request that is free to be taken.
pub record IsWaiting (r : Request) : Type 0 where
  pub is_queued : r.state ≡ queued
  pub no_owner : r.owner ≡ false

let_go-IsWaiting :
    (a : Admission) (force : Bool) (r : Request)
    → r.needs_another ≡ true
    → a ≢ ineligible
    → IsWaiting (let_go a force r)
let_go-IsWaiting settled force r n h = ground arith
let_go-IsWaiting over_budget force r n h = ground arith
let_go-IsWaiting ineligible force r n h = absurd (h refl)

is_request-let_go :
    (repo : String) (item : ℕ) (a : Admission) (force : Bool) (r : Request)
    → is_request repo item (let_go a force r) ≡ is_request repo item r
is_request-let_go repo item settled force r = refl
is_request-let_go repo item ineligible force r = refl
is_request-let_go repo item over_budget force r = refl

module _ {Y G : Type 0} (rooms : Rooms Y) (policy : Effective G) where
  module _ (t : Ticket) (it : Item) (day : String) (r : Request) where
    Waiting : Admission → Db (Intake Y) → Type 0
    Waiting a db = a ≢ ineligible → FoundRow t.repo t.item db.rest.requests IsWaiting

    get_request-found :
        (db : Db (Intake Y))
        → find_request t.repo t.item db.rest.requests ≡ some r
        → get_request t.repo t.item db ≡ ok (r, db)
    unfolding get_request
    get_request-found db e = ground arith

    held-open :
        r.generation ≡ t.gen → r.owner ≡ true → not (r.generation == t.gen) || not r.owner ≡ false
    held-open g o = ground arith

    module _ (enforce : Bool) where
      finish_tx-held :
          (db : Db (Intake Y))
          → find_request t.repo t.item db.rest.requests ≡ some r
          → r.generation ≡ t.gen
          → r.owner ≡ true
          → finish_tx rooms policy t (some it) day enforce db
            ≡ finish_held rooms policy t (some it) day enforce r db
      unfolding finish_tx get_request
      finish_tx-held db e g o =
          bind-ok (get_request t.repo t.item) _ db r db (get_request-found db e)
          ∙ ap
              (λ (b : Bool).
                (if b then return settled else finish_held rooms policy t (some it) day enforce r)
                  db)
              (held-open g o)

      Waiting-finish_held :
          (db : Db (Intake Y))
          → find_request t.repo t.item db.rest.requests ≡ some r
          → r.needs_another ≡ true
          → Post Waiting (finish_held rooms policy t (some it) day enforce r db)
      unfolding finish_held update_request Waiting
      Waiting-finish_held db e n =
          let force = t.force || r.force in
          Post-bind {Q = λ a next. next.rest.requests ≡ db.rest.requests}
            (λ a. update_request t.repo t.item (let_go a force) >> return a)
            (λ a. record {
              at = λ next q admitted. (
                let_go a force r,
                ap
                      (λ rs.
                        find_request t.repo t.item
                          (update_where (is_request t.repo t.item) (let_go a force) rs))
                      q
                    ∙ (find_request-update t.repo t.item (is_request t.repo t.item) (let_go a force)
                          db.rest.requests (λ x. is_request-let_go t.repo t.item a force x) r e
                        ∙ rw (find_request_self t.repo t.item db.rest.requests r e) refl),
                let_go-IsWaiting a force r n admitted,
              );
            })
            (admit_tx rooms policy it day force t.gen enforce db)
            (Post-weaken (λ a next s. s.requests_are)
              (admit_tx rooms policy it day force t.gen enforce db)
              ((Leaves-admit_tx rooms policy it day force t.gen enforce).at db.rest.requests
                db.rest.deliveries db (record { requests_are = refl; deliveries_are = refl })))

    -- Where the budget is not enforced, a step settles or fails.
    Settles-finish_held :
        (db : Db (Intake Y))
        → Post (λ a next. a ≡ settled) (finish_held rooms policy t (some it) day false r db)
    unfolding finish_held
    Settles-finish_held db =
        let force = t.force || r.force in
        Post-bind {Q = λ a next. a ≡ settled}
          (λ a. update_request t.repo t.item (let_go a force) >> return a)
          (λ a. record { at = λ next q. q }) (admit_tx rooms policy it day force t.gen false db)
          ((Settles-admit_tx rooms policy it day force t.gen).at db)

    finish_refresh-waits :
        (enforce : Bool) (db next : Db (Intake Y)) (a : Admission)
        → a ≢ ineligible
        → find_request t.repo t.item db.rest.requests ≡ some r
        → r.generation ≡ t.gen
        → r.owner ≡ true
        → r.needs_another ≡ true
        → finish_refresh rooms policy t "" (some it) day enforce db ≡ (next, ok a)
        → FoundRow t.repo t.item next.rest.requests IsWaiting
    unfolding finish_refresh Waiting
    finish_refresh-waits enforce db next a may e g o n h =
        Post-committed Waiting db next a (finish_tx rooms policy t (some it) day enforce db)
          (subst (Post Waiting) (sym (finish_tx-held enforce db e g o))
            (Waiting-finish_held enforce db e n))
          h may

    finish_refresh-settles :
        (db next : Db (Intake Y)) (a : Admission)
        → find_request t.repo t.item db.rest.requests ≡ some r
        → r.generation ≡ t.gen
        → r.owner ≡ true
        → finish_refresh rooms policy t "" (some it) day false db ≡ (next, ok a)
        → a ≡ settled
    unfolding finish_refresh
    finish_refresh-settles db next a e g o h =
        Post-committed (λ a next. a ≡ settled) db next a
          (finish_tx rooms policy t (some it) day false db)
          (subst (Post λ a next. a ≡ settled) (sym (finish_tx-held false db e g o))
            (Settles-finish_held db))
          h

    -- A request that was asked for while a step held it waits to be taken when the step ends, if the
    -- step's item was fetched, its second transaction commits, and no enforced admission finds the item
    -- ineligible.
    pub finish_refresh-IsWaiting :
        (enforce : Bool) (db next : Db (Intake Y)) (a : Admission)
        → (enforce ≡ true → a ≢ ineligible)
        → find_request t.repo t.item db.rest.requests ≡ some r
        → r.generation ≡ t.gen
        → r.owner ≡ true
        → r.needs_another ≡ true
        → finish_refresh rooms policy t "" (some it) day enforce db ≡ (next, ok a)
        → FoundRow t.repo t.item next.rest.requests IsWaiting
    finish_refresh-IsWaiting true db next a may e g o n h =
        finish_refresh-waits true db next a (may refl) e g o n h
    finish_refresh-IsWaiting false db next a may e g o n h =
        let settles = finish_refresh-settles db next a e g o h in
        finish_refresh-waits false db next a (λ k. absurd (cc)) e g o n h
