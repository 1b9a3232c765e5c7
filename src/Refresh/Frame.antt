-- ===== src/Refresh/Frame.antt =====
-- Admission leaves the queue and the deliveries alone.
use rusui.Common.{
  ℕ, ◌≡◌, Bool, true, false, Option, none, some, List, String, Result, arith, if◌then◌else◌,
}
use rusui.Store.{Job, Item, Db, Error, Tx, ◌>>=◌, return}
use rusui.Store.Turns.{get_job_at, update_job, load_snapshot, save_snapshot, count_reviews_today}
use rusui.Store.Logic.{Post, Yields-bind}
use rusui.Policy.{Effective}
use rusui.Refresh.{Request, Delivery, ReviewSession, Intake, Rooms, outside}
use rusui.Refresh.Admit.{
  put_revision, consume_invalidations, write_revision, within_budget, is_unchanged, admit_changed,
  admit_eligible, admit_current, admit_tx,
}
use rusui.Refresh.Session.{
  insert_review_session, insert_environment, open_review_session, ensure_review_session,
  insert_turn, stamp_review_tenant,
}

module _ {Y : Type 0} where
  -- These are the requests and the deliveries.
  pub record Steady (q : List Request) (d : List Delivery) (db : Db (Intake Y)) : Type 0 where
    pub requests_are : db.rest.requests ≡ q
    pub deliveries_are : db.rest.deliveries ≡ d

  pub record Leaves {A : Type 0} (m : Tx (Intake Y) A) : Type 0 where
    pub at :
        (q : List Request) (d : List Delivery) (db : Db (Intake Y))
        → Steady q d db
        → Post (λ (a : A). Steady q d) (m db)

  Leaves-bind :
      {A B : Type 0} {m : Tx (Intake Y) A} {f : A → Tx (Intake Y) B}
      → Leaves m
      → ((a : A) → Leaves (f a))
      → Leaves (m >>= f)
  Leaves-bind {A} {m} {f} h k = record {
    at = λ q d db s.
        (Yields-bind {Q = λ (a : A). Steady q d} (record { at = h.at q d })
            (λ a. record { at = (k a).at q d })).at
          db s;
  }

  Leaves-return : {A : Type 0} (a : A) → Leaves (return a)
  Leaves-return a = record { at = λ q d db s. s }

  Leaves-if :
      {A : Type 0} {m k : Tx (Intake Y) A} (b : Bool)
      → Leaves m
      → Leaves k
      → Leaves (if b then m else k)
  Leaves-if true h g = h
  Leaves-if false h g = g

  Leaves-outside : (f : Y → Result Error Y) → Leaves (outside f)
  Leaves-outside f = record { at = λ q d db s. ground arith }

  Leaves-get_job_at :
      (repo : String) (item : ℕ) (lane : String) → Leaves (get_job_at repo item lane)
  unfolding get_job_at
  Leaves-get_job_at repo item lane = record { at = λ q d db s. s }

  Leaves-update_job : (j : Job) → Leaves (update_job j)
  unfolding update_job
  Leaves-update_job j = record { at = λ q d db s. ground arith }

  Leaves-load_snapshot : (repo : String) (item rev : ℕ) → Leaves (load_snapshot repo item rev)
  unfolding load_snapshot
  Leaves-load_snapshot repo item rev = record { at = λ q d db s. ground arith }

  Leaves-save_snapshot :
      (repo : String) (item rev : ℕ) (it : Item) → Leaves (save_snapshot repo item rev it)
  unfolding save_snapshot
  Leaves-save_snapshot repo item rev it = record { at = λ q d db s. ground arith }

  Leaves-count_reviews_today : (repo day : String) → Leaves (count_reviews_today repo day)
  unfolding count_reviews_today
  Leaves-count_reviews_today repo day = record { at = λ q d db s. ground arith }

module _ {Y G : Type 0} (rooms : Rooms Y) (policy : Effective G) where
  Leaves-open_review_session :
      (repo : String) (item : ℕ) (kind : String)
      → Leaves (open_review_session rooms policy repo item kind)
  unfolding open_review_session insert_environment insert_review_session
  Leaves-open_review_session repo item kind =
      Leaves-bind {m = insert_environment rooms policy repo item}
        (record { at = λ q d db s. ground arith })
        λ environment.
          Leaves-bind {m = insert_review_session rooms policy repo item kind environment}
            (record { at = λ q d db s. ground arith })
            λ s.
              Leaves-bind (Leaves-outside (rooms.ensure_session_retention s.id))
                λ _. Leaves-return s

  Leaves-ensure_review_session :
      (repo : String) (item : ℕ) (kind : String)
      → Leaves (ensure_review_session rooms policy repo item kind)
  unfolding ensure_review_session
  Leaves-ensure_review_session repo item kind = record {
    at = λ q d db s. ground (arith, (Leaves-open_review_session repo item kind).at q d db s);
  }

  Leaves-insert_turn : (s : ReviewSession) (rev : ℕ) → Leaves (insert_turn rooms policy s rev)
  unfolding insert_turn
  Leaves-insert_turn s rev = record { at = λ q d db p. ground arith }

  Leaves-stamp_review_tenant :
      (repo : String) (item : ℕ) → Leaves (stamp_review_tenant rooms policy repo item)
  unfolding stamp_review_tenant
  Leaves-stamp_review_tenant repo item = record { at = λ q d db p. ground arith }

  Leaves-put_revision :
      (it : Item) (rev : ℕ) (j : Option Job) → Leaves (put_revision rooms policy it rev j)
  unfolding put_revision
  Leaves-put_revision it rev none =
      Leaves-bind (Leaves-ensure_review_session it.repo it.item it.item_kind)
        λ s. Leaves-bind (Leaves-insert_turn s rev) λ _. Leaves-stamp_review_tenant it.repo it.item
  Leaves-put_revision it rev (some j) = Leaves-update_job _

  Leaves-consume_invalidations :
      (forced : Bool) (repo : String) (item : ℕ)
      → Leaves (consume_invalidations rooms policy forced repo item)
  unfolding consume_invalidations
  Leaves-consume_invalidations true repo item = record { at = λ q d db s. ground arith }
  Leaves-consume_invalidations false repo item = record { at = λ q d db s. s }

  Leaves-write_revision :
      (it : Item) (forced : Bool) (j : Option Job)
      → Leaves (write_revision rooms policy it forced j)
  unfolding write_revision
  Leaves-write_revision it forced j =
      Leaves-bind (Leaves-consume_invalidations forced it.repo it.item) λ _.
        Leaves-bind (Leaves-save_snapshot it.repo it.item _ it)
          λ _. Leaves-bind (Leaves-put_revision it _ j) λ _. Leaves-return _

  Leaves-within_budget :
      (it : Item) (day : String) (enforce : Bool)
      → Leaves (within_budget rooms policy it day enforce)
  unfolding within_budget
  Leaves-within_budget it day false = Leaves-return true
  Leaves-within_budget it day true =
      Leaves-bind (Leaves-count_reviews_today it.repo day) λ n. Leaves-return _

  Leaves-is_unchanged :
      (it : Item) (forced : Bool) (j : Option Job) → Leaves (is_unchanged rooms policy it forced j)
  unfolding is_unchanged
  Leaves-is_unchanged it forced none = record { at = λ q d db s. s }
  Leaves-is_unchanged it forced (some j) = record {
    at = λ q d db s.
        ground (arith, (Leaves-load_snapshot it.repo it.item j.pending_revision).at q d db s);
  }

  Leaves-admit_changed :
      (it : Item) (day : String) (forced enforce : Bool) (j : Option Job)
      → Leaves (admit_changed rooms policy it day forced enforce j)
  unfolding admit_changed
  Leaves-admit_changed it day forced enforce j =
      Leaves-bind (Leaves-within_budget it day enforce)
        λ within. Leaves-if within (Leaves-write_revision it forced j) (Leaves-return _)

  Leaves-admit_eligible :
      (it : Item) (day : String) (forced enforce : Bool) (j : Option Job)
      → Leaves (admit_eligible rooms policy it day forced enforce j)
  unfolding admit_eligible
  Leaves-admit_eligible it day forced enforce j =
      Leaves-bind (Leaves-is_unchanged it forced j) λ unchanged.
        Leaves-if unchanged (Leaves-return _) (Leaves-admit_changed it day forced enforce j)

  Leaves-admit_current :
      (it : Item) (day : String) (force enforce : Bool) (j : Option Job)
      → Leaves (admit_current rooms policy it day force enforce j)
  unfolding admit_current
  Leaves-admit_current it day force enforce j = record {
    at = λ q d db s. ground (
      arith,
      (Leaves-admit_eligible it day false enforce j).at q d db s,
      (Leaves-admit_eligible it day true enforce j).at q d db s,
    );
  }

  pub Leaves-admit_tx :
      (it : Item) (day : String) (force : Bool) (gen : ℕ) (enforce : Bool)
      → Leaves (admit_tx rooms policy it day force gen enforce)
  unfolding admit_tx
  Leaves-admit_tx it day force gen enforce = record {
    at = λ q d db s. ground (
      arith,
      (Leaves-bind (Leaves-get_job_at it.repo it.item "review")
            (Leaves-admit_current it day force enforce)).at
          q d db s,
    );
  }
