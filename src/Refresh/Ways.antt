-- ===== src/Refresh/Ways.antt =====
-- The ways that an admission may take.
use rusui.Common.{
  ℕ, ◌≡◌, Bool, true, false, ◌&&◌, ◌||◌, not, Option, String, ok, err, arith, if◌then◌else◌, ltb,
}
use rusui.Store.{Job, Item, Db, Error}
use rusui.Store.Turns.{get_job_at}
use rusui.Policy.{Effective}
use rusui.Policy.Review.{review_access, is_allowed}
use rusui.Refresh.{Intake, Rooms}
use rusui.Refresh.Admit.{
  settled, ineligible, is_stale, advisory_eligible, has_pending, is_some, count_invalidated,
  is_unchanged, admit_changed, admit_eligible, admit_current, admit_tx,
}
use rusui.Refresh.Session.{tenant_mismatch}
use rusui.Refresh.Admitted.{find_review}

module _ {Y G : Type 0} (rooms : Rooms Y) (policy : Effective G) (it : Item) (day : String) where
  abbrev pub is_closed : ℕ → Db (Intake Y) → Bool
  is_closed gen db =
      is_stale rooms policy it.repo it.item gen db.rest.requests
      || not (is_allowed policy (review_access policy it.repo false))

  abbrev pub is_other_tenant : Option Job → Db (Intake Y) → Bool
  is_other_tenant j db =
      is_some rooms policy j && tenant_mismatch rooms policy it.repo it.item db.rest.sessions

  abbrev pub is_refused : Option Job → Bool
  is_refused j = not (advisory_eligible it) && not (has_pending j)

  module _ (force enforce : Bool) (db : Db (Intake Y)) where
    pub admit_tx-closed :
        (gen : ℕ)
        → is_closed gen db ≡ true
        → admit_tx rooms policy it day force gen enforce db ≡ ok (settled, db)
    unfolding admit_tx
    admit_tx-closed gen h = ground arith

    pub admit_tx-open :
        (gen : ℕ)
        → is_closed gen db ≡ false
        → admit_tx rooms policy it day force gen enforce db
          ≡ admit_current rooms policy it day force enforce
              (find_review it.repo it.item db.turns)
              db
    unfolding admit_tx get_job_at
    admit_tx-open gen h = ground arith

    pub admit_current-other :
        (j : Option Job)
        → is_other_tenant j db ≡ true
        → admit_current rooms policy it day force enforce j db ≡ ok (settled, db)
    unfolding admit_current
    admit_current-other j h = ground arith

    pub admit_current-refused :
        (j : Option Job)
        → is_other_tenant j db ≡ false
        → is_refused j ≡ true
        → admit_current rooms policy it day force enforce j db
          ≡ ok (if enforce then ineligible else settled, db)
    unfolding admit_current
    admit_current-refused j h g = ground arith

    pub admit_current-eligible :
        (j : Option Job)
        → is_other_tenant j db ≡ false
        → is_refused j ≡ false
        → admit_current rooms policy it day force enforce j db
          ≡ admit_eligible rooms policy it day
              (force && ltb 0 (count_invalidated rooms policy it.repo it.item db))
              enforce
              j
              db
    unfolding admit_current
    admit_current-eligible j h g = ground arith

    pub admit_eligible-unchanged :
        (forced : Bool) (j : Option Job) (next : Db (Intake Y))
        → is_unchanged rooms policy it forced j db ≡ ok (true, next)
        → admit_eligible rooms policy it day forced enforce j db ≡ ok (settled, next)
    unfolding admit_eligible
    admit_eligible-unchanged forced j next h = ground arith

    pub admit_eligible-changed :
        (forced : Bool) (j : Option Job) (next : Db (Intake Y))
        → is_unchanged rooms policy it forced j db ≡ ok (false, next)
        → admit_eligible rooms policy it day forced enforce j db
          ≡ admit_changed rooms policy it day forced enforce j next
    unfolding admit_eligible
    admit_eligible-changed forced j next h = ground arith

    pub admit_eligible-err :
        (forced : Bool) (j : Option Job) (e : Error)
        → is_unchanged rooms policy it forced j db ≡ err e
        → admit_eligible rooms policy it day forced enforce j db ≡ err e
    unfolding admit_eligible
    admit_eligible-err forced j e h = ground arith
