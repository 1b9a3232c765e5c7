-- ===== src/Engine/Answers.antt =====
-- What a transaction does to the receipts: the triples by which the answer of a request is followed to the
-- store it commits.
use rusui.Common.{ℕ, ◌≡◌, refl, ap, ◌∙◌, Option, none, some, List, Result, ok, err, arith}
use rusui.Store.{Job, Receipt, Kind, complete, Payload, Db, Error, Tx, ◌>>=◌, elsewhere}
use rusui.Store.Turns.{find_receipt, insert_receipt, update_job}
use rusui.Store.Logic.{Keeps-elsewhere, Yields, Keeps, Holds, Post, Post-weaken, Yields-bind}

-- The receipts are these.
abbrev pub Receipts : {X : Type 0} → List Receipt → Db X → Type 0
Receipts R db = db.receipts ≡ R

-- The lease has this receipt.
pub record IsAnswered {X : Type 0} (id gen claimed : ℕ) (r : Receipt) (db : Db X) : Type 0 where
  pub found : find_receipt id gen claimed db.receipts ≡ some r

-- What a transaction's answer says of the receipts it leaves.
abbrev pub Told : {X : Type 0} → ℕ → ℕ → ℕ → Option Payload → Db X → Type 0
Told id gen claimed none db = Unit
Told id gen claimed (some p) db =
    (r : Receipt) × IsAnswered id gen claimed r db × (r.kind ≡ complete) × (r.payload ≡ p)

module _ {X : Type 0} where
  abbrev pub Stays : {A : Type 0} → Tx X A → Type 0
  Stays m = (R : List Receipt) → Yields (Receipts R) m (λ _. Receipts R)

  pub Stays-Keeps : {A : Type 0} {m : Tx X A} → Keeps m → Stays m
  Stays-Keeps {A} {m} k R = record {
    at = λ db p.
        Post-weaken (λ a d (h : Holds db.turns R d). h.receipts_are) (m db)
          (k.at db.turns R db (record { turns_are = refl; receipts_are = p }));
  }

  pub Stays-bind :
      {A B : Type 0} {m : Tx X A} {f : A → Tx X B}
      → Stays m
      → ((a : A) → Stays (f a))
      → Stays (m >>= f)
  Stays-bind h k R = Yields-bind (h R) λ a. k a R

  pub Stays-update_job : (j : Job) → Stays (update_job j)
  unfolding update_job
  Stays-update_job j R = record { at = λ db p. p }

  pub Stays-elsewhere : (f : X → Result Error X) → Stays (elsewhere f)
  Stays-elsewhere f = Stays-Keeps (Keeps-elsewhere f)

  abbrev pub Any : Db X → Type 0
  Any db = Unit

  pub Yields-Any : {A : Type 0} {P : Db X → Type 0} (m : Tx X A) → Yields P m (λ _. Any)
  Yields-Any {A} m = record { at = λ db p. whatever (m db) }
    where
      whatever : (r : Result Error (A × Db X)) → Post (λ (_ : A). Any) r
      whatever (ok (a, d)) = tt
      whatever (err e) = tt

  -- A step that leaves the receipts alone leaves the lease its receipt.
  pub Yields-IsAnswered :
      {A : Type 0} {m : Tx X A} (id gen claimed : ℕ) (r : Receipt)
      → Stays m
      → Yields (IsAnswered id gen claimed r) m (λ _. IsAnswered id gen claimed r)
  Yields-IsAnswered {m} id gen claimed r s = record {
    at = λ db p.
        Post-weaken
          (λ a d (h : Receipts db.receipts d). record {
            found = ap (find_receipt id gen claimed) h ∙ p.found;
          })
          (m db) ((s db.receipts).at db refl);
  }

  pub Yields-insert :
      (id gen claimed : ℕ) (kind : Kind) (payload : Payload)
      → Yields {X = X} Any (insert_receipt id gen claimed kind payload) (λ _.
        IsAnswered id gen claimed (record {
          job = id;
          lease_generation = gen;
          claimed_revision = claimed;
          kind = kind;
          payload = payload;
        }))
  unfolding insert_receipt
  Yields-insert id gen claimed kind payload = record { at = λ db p. ground arith }
