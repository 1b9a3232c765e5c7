-- ===== src/Refresh/Settles.antt =====
-- Where the budget is not enforced, an admission settles; and what a committed transaction leaves.
use rusui.Common.{
  ℕ, ◌≡◌, refl, Bool, true, false, Option, String, Result, ok, err, arith, if◌then◌else◌, ap, subst,
}
use rusui.Store.{Job, Item, Db, Error, Tx, ◌>>=◌, return}
use rusui.Store.Turns.{get_job_at, save_snapshot}
use rusui.Store.Logic.{Post, Post-bind}
use rusui.Policy.{Effective}
use rusui.Refresh.{Intake, Rooms}
use rusui.Refresh.Admit.{
  Admission, settled, next_revision, consume_invalidations, put_revision, is_unchanged,
  within_budget, write_revision, admit_changed, admit_eligible, admit_current, admit_tx,
}

module _ {X A : Type 0} (Q : A → Db X → Type 0) where
  pub Post-committed :
      (db next : Db X) (a : A) (r : Result Error (A × Db X))
      → Post Q r
      → (elim r as (λ _. Db X × Result Error A) [ ok (x, d) ↦ (d, ok x) | err e ↦ (db, err e) ])
        ≡ (next, ok a)
      → Q a next
  Post-committed db next a (ok (x, d)) q e =
      let same : (d ≡ next) × (x ≡ a) = (ap (λ p. p.0) e, cc) in
      subst (λ (y : A). Q y next) same.1 (subst (Q x) same.0 q)
  Post-committed db next a (err x) q e = absurd (cc)

  Post-all : ((a : A) (db : Db X) → Q a db) → (r : Result Error (A × Db X)) → Post Q r
  Post-all h (ok (a, db)) = h a db
  Post-all h (err e) = tt

module _ {X A : Type 0} (P Q : A → Db X → Type 0) where
  pub Post-and :
      (r : Result Error (A × Db X)) → Post P r → Post Q r → Post (λ a db. P a db × Q a db) r
  Post-and (ok (a, db)) p q = (p, q)
  Post-and (err e) p q = tt

module _ {Y G : Type 0} (rooms : Rooms Y) (policy : Effective G) where
  -- A transaction that admits or fails.
  pub record Settles (m : Tx (Intake Y) Admission) : Type 0 where
    pub at : (db : Db (Intake Y)) → Post (λ a next. a ≡ settled) (m db)

  Settles-return : Settles (return settled)
  Settles-return = record { at = λ db. refl }

  Settles-bind :
      {A : Type 0} (m : Tx (Intake Y) A) (f : A → Tx (Intake Y) Admission)
      → ((a : A) → Settles (f a))
      → Settles (m >>= f)
  Settles-bind {A} m f h = record {
    at = λ db.
        Post-bind {Q = λ (a : A) next. Unit {0}} f (λ a. record { at = λ next q. (h a).at next })
          (m db) (Post-all (λ (a : A) next. Unit {0}) (λ a next. tt) (m db));
  }

  Settles-if :
      (b : Bool) (m k : Tx (Intake Y) Admission)
      → Settles m
      → Settles k
      → Settles (if b then m else k)
  Settles-if true m k h g = h
  Settles-if false m k h g = g

  Settles-write_revision :
      (it : Item) (forced : Bool) (j : Option Job)
      → Settles (write_revision rooms policy it forced j)
  unfolding write_revision
  Settles-write_revision it forced j =
      Settles-bind (consume_invalidations rooms policy forced it.repo it.item) _ λ _.
        Settles-bind (save_snapshot it.repo it.item (next_revision j) it) _
          λ _. Settles-bind (put_revision rooms policy it (next_revision j) j) _ λ _. Settles-return

  Settles-admit_changed :
      (it : Item) (day : String) (forced : Bool) (j : Option Job)
      → Settles (admit_changed rooms policy it day forced false j)
  unfolding admit_changed within_budget
  Settles-admit_changed it day forced j = record {
    at = λ db. (Settles-write_revision it forced j).at db;
  }

  Settles-admit_eligible :
      (it : Item) (day : String) (forced : Bool) (j : Option Job)
      → Settles (admit_eligible rooms policy it day forced false j)
  unfolding admit_eligible
  Settles-admit_eligible it day forced j =
      Settles-bind (is_unchanged rooms policy it forced j) _ λ unchanged.
        Settles-if unchanged (return settled) (admit_changed rooms policy it day forced false j)
          Settles-return (Settles-admit_changed it day forced j)

  Settles-admit_current :
      (it : Item) (day : String) (force : Bool) (j : Option Job)
      → Settles (admit_current rooms policy it day force false j)
  unfolding admit_current
  Settles-admit_current it day force j = record {
    at = λ db. ground (
      arith,
      (Settles-admit_eligible it day false j).at db,
      (Settles-admit_eligible it day true j).at db,
    );
  }

  -- Where the budget is not enforced, admission settles.
  pub Settles-admit_tx :
      (it : Item) (day : String) (force : Bool) (gen : ℕ)
      → Settles (admit_tx rooms policy it day force gen false)
  unfolding admit_tx
  Settles-admit_tx it day force gen = record {
    at = λ db. ground (
      arith,
      (Settles-bind (get_job_at it.repo it.item "review") _ (Settles-admit_current it day force)).at
          db,
    );
  }
