-- ===== src/Store/Run.antt =====
-- How a transaction runs, one statement at a time.
use rusui.Common.{ℕ, ◌≡◌, ap, sym, ◌∙◌, some, Result, ok, err, arith, Result-cases, inl, inr}
use rusui.Store.{Db, Error, Job, Tx, ◌>>=◌, run_tx}
use rusui.Store.Turns.{find_job, get_job}

module _ {X A B : Type 0} (m : Tx X A) (f : A → Tx X B) (db : Db X) where
  pub bind-err : (e : Error) → m db ≡ err e → (m >>= f) db ≡ err e
  bind-err e h =
      ap
        (λ (r : Result Error (A × Db X)). elim r as (λ _. Result Error (B × Db X)) [
          | ok (a, next) ↦ f a next
          | err x ↦ err x
        ])
        h

  pub bind-ok : (a : A) (next : Db X) → m db ≡ ok (a, next) → (m >>= f) db ≡ f a next
  bind-ok a next h =
      ap
        (λ (r : Result Error (A × Db X)). elim r as (λ _. Result Error (B × Db X)) [
          | ok (x, d) ↦ f x d
          | err x ↦ err x
        ])
        h

pub err-ok : {A : Type 0} (x : Error) (a : A) → ◌≡◌ {A = Result Error A} (err x) (ok a) → ⊥
err-ok x a h = cc

-- The two steps of a bind that has returned.
pub record IsSplit {X A B : Type 0} (m : Tx X A) (f : A → Tx X B) (db : Db X) (b : B) (next : Db X)
    : Type 0 where
  pub value : A
  pub mid : Db X
  pub first : m db ≡ ok (value, mid)
  pub second : f value mid ≡ ok (b, next)

module _ {X A B : Type 0} (m : Tx X A) (f : A → Tx X B) (db : Db X) (b : B) (next : Db X) where
  pub bind-IsSplit : (m >>= f) db ≡ ok (b, next) → IsSplit m f db b next
  bind-IsSplit h = elim (Result-cases (m db)) [
    | inl ((a, mid), e) ↦ record {
      value = a;
      mid = mid;
      first = e;
      second = sym (bind-ok m f db a mid e) ∙ h;
    }
    | inr (x, e) ↦ absurd (err-ok x (b, next) (sym (bind-err m f db x e) ∙ h))
  ]

module _ {X A : Type 0} (m : Tx X A) (db : Db X) where
  abbrev settled : Result Error (A × Db X) → Db X × Result Error A
  settled r = elim r [ ok (a, next) ↦ (next, ok a) | err e ↦ (db, err e) ]

  pub run_tx-err : (e : Error) → m db ≡ err e → run_tx m db ≡ (db, err e)
  run_tx-err e h = ap settled h

  pub run_tx-ok : (a : A) (next : Db X) → m db ≡ ok (a, next) → run_tx m db ≡ (next, ok a)
  run_tx-ok a next h = ap settled h

pub get_job-found :
    {X : Type 0} (id : ℕ) (j : Job) (db : Db X)
    → find_job id db.turns ≡ some j
    → get_job id db ≡ ok (j, db)
unfolding get_job
get_job-found id j db e = ground arith
