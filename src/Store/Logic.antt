-- ===== src/Store/Logic.antt =====
-- Hoare triples for store transactions: a function from a state with `P` either fails, and then
-- nothing is committed, or returns `a` in a state with `Q a`.
use rusui.Common.{◌≡◌, refl, Bool, true, false, List, Result, ok, err, if◌then◌else◌}
use rusui.Store.{Db, Error, Job, Receipt, Tx, ◌>>=◌, return, fail_with, elsewhere}

module _ {X : Type 0} where
  abbrev pub Post : {A : Type 0} → (A → Db X → Type 0) → Result Error (A × Db X) → Type 0
  Post Q (ok (a, db)) = Q a db
  Post Q (err e) = Unit

  pub record Yields {A : Type 0} (P : Db X → Type 0) (m : Tx X A) (Q : A → Db X → Type 0)
      : Type 0 where
    pub at : (db : Db X) → P db → Post Q (m db)

  pub Post-bind :
      {A B : Type 0} {Q : A → Db X → Type 0} {R : B → Db X → Type 0} (f : A → Tx X B)
      → ((a : A) → Yields (Q a) (f a) R)
      → (r : Result Error (A × Db X)) → Post Q r
      → Post R (elim r [ ok (a, next) ↦ f a next | err e ↦ err e ])
  Post-bind f h (ok (a, next)) q = (h a).at next q
  Post-bind f h (err e) q = tt

  pub Yields-bind :
      {A B : Type 0} {P : Db X → Type 0} {Q : A → Db X → Type 0} {R : B → Db X → Type 0}
      {m : Tx X A} {f : A → Tx X B}
      → Yields P m Q
      → ((a : A) → Yields (Q a) (f a) R)
      → Yields P (m >>= f) R
  Yields-bind {m} {f} h k = record { at = λ db p. Post-bind f k (m db) (h.at db p) }

  pub Post-weaken :
      {A : Type 0} {Q R : A → Db X → Type 0}
      → ((a : A) (db : Db X) → Q a db → R a db)
      → (r : Result Error (A × Db X)) → Post Q r
      → Post R r
  Post-weaken h (ok (a, next)) q = h a next q
  Post-weaken h (err e) q = tt

  pub Yields-weaken :
      {A : Type 0} {P P' : Db X → Type 0} {Q R : A → Db X → Type 0} {m : Tx X A}
      → ((db : Db X) → P' db → P db)
      → ((a : A) (db : Db X) → Q a db → R a db)
      → Yields P m Q
      → Yields P' m R
  Yields-weaken {m} g h y = record { at = λ db p. Post-weaken h (m db) (y.at db (g db p)) }

  -- A fact that the state before it comes with.
  pub Yields-given :
      {A : Type 0} {P : Db X → Type 0} {F : Type 0} {Q : A → Db X → Type 0} {m : Tx X A}
      → (F → Yields P m Q)
      → Yields (λ db. P db × F) m Q
  Yields-given h = record { at = λ db p. (h p.1).at db p.0 }

  pub Yields-return :
      {A : Type 0} {P : Db X → Type 0} {Q : A → Db X → Type 0} (a : A)
      → ((db : Db X) → P db → Q a db)
      → Yields P (return a) Q
  Yields-return a h = record { at = h }

  pub Yields-if :
      {A : Type 0} {P : Db X → Type 0} {Q : A → Db X → Type 0} {m k : Tx X A} (b : Bool)
      → (b ≡ true → Yields P m Q)
      → (b ≡ false → Yields P k Q)
      → Yields P (if b then m else k) Q
  Yields-if true h g = h refl
  Yields-if false h g = g refl

  -- The turns and the receipts are these.
  pub record Holds (turns : List Job) (receipts : List Receipt) (db : Db X) : Type 0 where
    pub turns_are : db.turns ≡ turns
    pub receipts_are : db.receipts ≡ receipts

  -- A function that leaves turns and receipts alone.
  pub record Keeps {A : Type 0} (m : Tx X A) : Type 0 where
    pub at :
        (T : List Job) (R : List Receipt) (db : Db X)
        → Holds T R db
        → Post (λ (a : A). Holds T R) (m db)

  pub Keeps-bind :
      {A B : Type 0} {m : Tx X A} {f : A → Tx X B}
      → Keeps m
      → ((a : A) → Keeps (f a))
      → Keeps (m >>= f)
  Keeps-bind {A} {m} {f} h k = record {
    at = λ T R db p.
        Post-bind {Q = λ (a : A). Holds T R} f (λ a. record { at = (k a).at T R }) (m db)
          (h.at T R db p);
  }

  pub Keeps-return : {A : Type 0} (a : A) → Keeps (return a)
  Keeps-return a = record { at = λ T R db p. p }

  pub Keeps-fail : {A : Type 0} (e : Error) → Keeps {A = A} (fail_with e)
  Keeps-fail e = record { at = λ T R db p. tt }

  pub Keeps-if :
      {A : Type 0} {m k : Tx X A} (b : Bool) → Keeps m → Keeps k → Keeps (if b then m else k)
  Keeps-if true h g = h
  Keeps-if false h g = g

  elsewhere-Post :
      (T : List Job) (R : List Receipt) (db : Db X) (r : Result Error X)
      → Holds T R db
      → Post
          (λ (_ : Unit {0}). Holds T R)
          (elim r [ ok x ↦ ok (tt, record db { rest = x }) | err e ↦ err e ])
  elsewhere-Post T R db (ok x) h = record { turns_are = h.turns_are; receipts_are = h.receipts_are }
  elsewhere-Post T R db (err e) h = tt

  pub Keeps-elsewhere : (f : X → Result Error X) → Keeps (elsewhere f)
  Keeps-elsewhere f = record { at = λ T R db p. elsewhere-Post T R db (f db.rest) p }

  pub Yields-Keeps :
      {A : Type 0} {m : Tx X A} {T : List Job} {R : List Receipt}
      → Keeps m
      → Yields (Holds T R) m (λ (a : A). Holds T R)
  Yields-Keeps {T} {R} k = record { at = k.at T R }

module _ {X : Type 0} {T : List Job} {R : List Receipt} where
  -- A step that leaves turns and receipts alone, and then the rest.
  pub Keeps-then :
      {A B : Type 0} {Q : B → Db X → Type 0} {m : Tx X A} {f : A → Tx X B}
      → Keeps m
      → ((a : A) → Yields (Holds T R) (f a) Q)
      → Yields (Holds T R) (m >>= f) Q
  Keeps-then k h = Yields-bind (Yields-Keeps k) h

  -- A step whose returned value has a property.
  pub Yields-fact :
      {A B : Type 0} {T' : List Job} {R' : List Receipt} {F : A → Type 0} {Q : B → Db X → Type 0}
      {m : Tx X A} {f : A → Tx X B}
      → Yields (Holds T R) m (λ a db. Holds T' R' db × F a)
      → ((a : A) → F a → Yields (Holds T' R') (f a) Q)
      → Yields (Holds T R) (m >>= f) Q
  Yields-fact h k = Yields-bind h λ a. record { at = λ db p. (k a p.1).at db p.0 }
