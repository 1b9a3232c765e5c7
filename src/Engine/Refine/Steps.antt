-- ===== src/Engine/Refine/Steps.antt =====
-- How a transaction of the engine ends in a step of the lease protocol: it updates the row of a turn
-- that it has read, and what follows leaves turns and receipts alone.
use rusui.Common.{
  ℕ, ◌≡◌, refl, Option, none, some, List, [], ◌∷◌, Result, ok, err, arith, ap, ◌∙◌, if◌then◌else◌,
  ◌==◌,
}
use rusui.Store.{Job, Receipt, Db, Error, Tx, ◌>>◌, run_tx}
use rusui.Store.Turns.{find_job, set_columns, update_job}
use rusui.Store.Logic.{Yields, Keeps, Holds, Post, Yields-Keeps, Yields-weaken, Yields-bind}
use rusui.Store.Frame.{put, Yields-update_job}
use rusui.Engine.Protocol.{Replaced, Outcome, unchanged}

-- The step of the protocol from here to the state of `db`.
pub record Reached {X : Type 0} (T : List Job) (R : List Receipt) (db : Db X) : Type 0 where
  pub outcome : Outcome T R db.turns db.receipts

abbrev pub map_columns : Job → Option Job → Option Job
map_columns j none = none
map_columns j (some t) = some (set_columns j t)

find_job-put :
    (id : ℕ) (j : Job) (T : List Job)
    → find_job id (put j T)
      ≡ (if id == j.id then map_columns j (find_job j.id T) else find_job id T)
find_job-put id j [] = ground arith
find_job-put id j (t ∷ T) = ground (arith, find_job-put id j T)

-- A row that is found by an id has that id.
pub find_job-id : (id : ℕ) (j : Job) (T : List Job) → find_job id T ≡ some j → j.id ≡ id
find_job-id id j [] e = cc
find_job-id id j (t ∷ T) e = ground (arith, find_job-id id j T)

pub find_job_self :
    (id : ℕ) (j : Job) (T : List Job) → find_job id T ≡ some j → find_job j.id T ≡ some j
find_job_self id j T e = ap (λ (k : ℕ). find_job k T) (find_job-id id j T e) ∙ e

-- The row as the statement leaves it: the columns that it does not set are those of the row read.
pub Replaced-put :
    (j j' : Job) (T : List Job)
    → find_job j.id T ≡ some j
    → set_columns j' j ≡ j'
    → j'.id ≡ j.id
    → Replaced j j' T (put j' T)
Replaced-put j j' T e s i = record {
  was = e;
  same_id = i;
  now_is = λ k. ground (arith, find_job-put k j' T);
}

module _ {X : Type 0} {T : List Job} {R : List Receipt} where
  pub Yields-done :
      {A : Type 0} {m : Tx X A} {T' : List Job} {R' : List Receipt}
      → Keeps m
      → Outcome T R T' R'
      → Yields (Holds T' R') m (λ (_ : A) (db : Db X). Reached T R db)
  Yields-done k o =
      Yields-weaken (λ db p. p) (λ a db p. record { outcome = rw (p.turns_are, p.receipts_are) o })
        (Yields-Keeps k)

  pub Yields-idle :
      {A : Type 0} {m : Tx X A}
      → Keeps m
      → Yields (Holds T R) m (λ (_ : A) (db : Db X). Reached T R db)
  Yields-idle k = Yields-done k (unchanged refl refl)

  -- An update, after which the rest leaves turns and receipts alone.
  pub Yields-settle :
      {A : Type 0} {k : Tx X A} {R' : List Receipt} (j' : Job)
      → Outcome T R (put j' T) R'
      → Keeps k
      → Yields (Holds T R') (update_job j' >> k) (λ (_ : A) (db : Db X). Reached T R db)
  Yields-settle {R'} j' o k = Yields-bind (Yields-update_job T R' j') λ u. Yields-done k o

  pub Yields-update :
      {R' : List Receipt} (j' : Job)
      → Outcome T R (put j' T) R'
      → Yields (Holds T R') (update_job j') (λ _ (db : Db X). Reached T R db)
  Yields-update {R'} j' o =
      Yields-weaken (λ db p. p) (λ a db p. record { outcome = rw (p.turns_are, p.receipts_are) o })
        (Yields-update_job T R' j')

  -- What follows a step and leaves turns and receipts alone.
  pub Yields-after :
      {A : Type 0} {m : Tx X A}
      → Keeps m
      → Yields (Reached {X = X} T R) m (λ (_ : A) (db : Db X). Reached T R db)
  Yields-after k = record {
    at = λ db p. (Yields-done k p.outcome).at db (record { turns_are = refl; receipts_are = refl });
  }

  committed :
      {A : Type 0} (db : Db X) (r : Result Error (A × Db X))
      → Post (λ (_ : A) (next : Db X). Reached T R next) r
      → T ≡ db.turns
      → R ≡ db.receipts
      → Outcome T R
          (elim r as (λ _. Db X × Result Error A) [
            | ok (a, next) ↦ (next, ok a)
            | err e ↦ (db, err e)
          ]).0.turns
          (elim r as (λ _. Db X × Result Error A) [
            | ok (a, next) ↦ (next, ok a)
            | err e ↦ (db, err e)
          ]).0.receipts
  committed db (ok (a, next)) q t u = q.outcome
  committed db (err e) q t u = rw (t, u) (unchanged refl refl)

-- A transaction that fails changes nothing, so each committed or failed one makes a step.
pub run_tx-Outcome :
    {X A : Type 0} (m : Tx X A) (db : Db X)
    → ((T : List Job) (R : List Receipt)
        → Yields (Holds T R) m (λ (_ : A) (next : Db X). Reached T R next))
    → Outcome db.turns db.receipts (run_tx m db).0.turns (run_tx m db).0.receipts
run_tx-Outcome m db h =
    committed db (m db)
      ((h db.turns db.receipts).at db (record { turns_are = refl; receipts_are = refl })) refl refl
