-- ===== src/Engine/Protocol.antt =====
-- The lease protocol that ARCHITECTURE.md promises of a turn, apart from how the engine runs it: what
-- may become of a turn and its receipts in one step, and what holds along any number of steps.
use rusui.Common.{
  ℕ, suc, ◌+◌, ◌≤◌, ◌<◌, ◌≡◌, ◌≢◌, refl, ◌⊎◌, inl, inr, none, some, List, ◌∷◌, arith, ◌==◌,
  if◌then◌else◌, Bool-cases, ◌∙◌,
}
use native.Mathlib.Nat.{le_refl, le_trans}
use rusui.Store.{queued, leased, completed, failed, Job, Kind, Payload, Receipt}
use rusui.Store.Turns.{find_job, find_receipt}
use rusui.Store.Frame.{stamp}

-- A step that writes no receipt.
pub data Silent (j j' : Job) : Type 0 where
  -- a new lease, of the next generation, at the pending revision
  grant :
      j'.state ≡ leased
      → j'.lease_generation ≡ j.lease_generation + 1
      → j'.claimed_revision ≡ j.pending_revision
      → j'.pending_revision ≡ j.pending_revision
      → Silent j j'
  -- a heartbeat
  renew :
      j.state ≡ leased
      → j'.state ≡ leased
      → j'.lease_generation ≡ j.lease_generation
      → j'.claimed_revision ≡ j.claimed_revision
      → j'.pending_revision ≡ j.pending_revision
      → Silent j j'
  -- the lease is given back before any work
  give_back :
      j.state ≡ leased
      → j'.state ≡ queued
      → j'.lease_generation ≡ j.lease_generation
      → j'.claimed_revision ≡ j.claimed_revision
      → j'.pending_revision ≡ j.pending_revision
      → Silent j j'
  -- the lease is lost, and its generation with it
  lapse :
      j.state ≡ leased
      → j'.state ≢ leased
      → j'.lease_generation ≡ j.lease_generation + 1
      → j'.claimed_revision ≡ j.claimed_revision
      → j.pending_revision ≤ j'.pending_revision
      → Silent j j'
  -- a prompt, an operator's retry, or the cancel of a turn that is not leased
  revise :
      (j'.state ≡ j.state) ⊎ ((j.state ≢ leased) × (j'.state ≢ leased))
      → j'.lease_generation ≡ j.lease_generation
      → j'.claimed_revision ≡ j.claimed_revision
      → j.pending_revision ≤ j'.pending_revision
      → Silent j j'

-- A step that ends a lease with a receipt of that lease.
pub data Ends (j j' : Job) : Type 0 where
  ends :
      j.state ≡ leased
      → j'.state ≢ leased
      → (j'.lease_generation ≡ j.lease_generation) ⊎ (j'.lease_generation ≡ j.lease_generation + 1)
      → j'.claimed_revision ≡ j.claimed_revision
      → j.pending_revision ≤ j'.pending_revision
      → Ends j j'

-- The turns after a step of `j` to `j'`: that row changes and no other.
pub record Replaced (j j' : Job) (T T' : List Job) : Type 0 where
  pub was : find_job j.id T ≡ some j
  pub same_id : j'.id ≡ j.id
  pub now_is : (id : ℕ) → find_job id T' ≡ (if id == j.id then some j' else find_job id T)

pub data Outcome (T : List Job) (R : List Receipt) (T' : List Job) (R' : List Receipt)
    : Type 0 where
  unchanged : T' ≡ T → R' ≡ R → Outcome T R T' R'
  silent : (j j' : Job) → Replaced j j' T T' → Silent j j' → R' ≡ R → Outcome T R T' R'
  ended :
      (j j' : Job) (kind : Kind) (payload : Payload)
      → Replaced j j' T T'
      → Ends j j'
      → find_receipt j.id j.lease_generation j.claimed_revision R ≡ none
      → R' ≡ stamp j j.lease_generation j.claimed_revision kind payload ∷ R
      → Outcome T R T' R'

-- The least generation that has no receipt yet.
abbrev pub unanswered : Job → ℕ
unanswered j = elim j.state [
  | leased ↦ j.lease_generation
  | queued ↦ suc j.lease_generation
  | completed ↦ suc j.lease_generation
  | failed ↦ suc j.lease_generation
]

-- Every receipt of a turn is of a lease that has ended.
pub record IsFresh (T : List Job) (R : List Receipt) : Type 0 where
  pub no_receipt :
      (id gen claimed : ℕ) (j : Job)
      → find_job id T ≡ some j
      → unanswered j ≤ gen
      → find_receipt id gen claimed R ≡ none

unanswered-Silent : (j j' : Job) → Silent j j' → unanswered j ≤ unanswered j'
unanswered-Silent j j' (grant a b c d) = ground arith
unanswered-Silent j j' (renew a b c d e) = ground arith
unanswered-Silent j j' (give_back a b c d e) = ground arith
unanswered-Silent j j' (lapse a b c d e) = ground arith
unanswered-Silent j j' (revise a b c d) = ground arith

unanswered-Ends : (j j' : Job) → Ends j j' → unanswered j < unanswered j'
unanswered-Ends j j' (ends a b c d e) = ground arith

-- No step writes a second receipt of one lease, or a receipt of a lease still to come.
pub Outcome-IsFresh :
    (T T' : List Job) (R R' : List Receipt) → Outcome T R T' R' → IsFresh T R → IsFresh T' R'
Outcome-IsFresh T T' R R' (unchanged a b) h = rw (a, b) h
Outcome-IsFresh T T' R R' (silent j j' a b c) h = record {
  no_receipt = λ id gen claimed i e l. ground (
    arith,
    a.now_is id,
    h.no_receipt id gen claimed,
    h.no_receipt id gen claimed j,
    unanswered-Silent j j' b,
    h.no_receipt id gen claimed i,
  );
}
Outcome-IsFresh T T' R R' (ended j j' kind payload a b n c) h = record {
  no_receipt = λ id gen claimed i e l. ground (
    arith,
    a.now_is id,
    unanswered-Ends j j' b,
    h.no_receipt id gen claimed i,
    h.no_receipt id gen claimed j,
  );
}

-- What a step leaves of a turn: a later generation and a later revision, or the same.
pub record Later (j j' : Job) : Type 0 where
  pub generation : j.lease_generation ≤ j'.lease_generation
  pub revision : j.pending_revision ≤ j'.pending_revision

Silent-Later : (j j' : Job) → Silent j j' → Later j j'
Silent-Later j j' (grant a b c d) = ground arith
Silent-Later j j' (renew a b c d e) = ground arith
Silent-Later j j' (give_back a b c d e) = ground arith
Silent-Later j j' (lapse a b c d e) = ground arith
Silent-Later j j' (revise a b c d) = ground arith

Ends-Later : (j j' : Job) → Ends j j' → Later j j'
Ends-Later j j' (ends a b c d e) = ground arith

pub Later-refl : (j : Job) → Later j j
Later-refl j = ground arith

pub Later-trans : (i j k : Job) → Later i j → Later j k → Later i k
Later-trans i j k a b = ground arith

abbrev pub Found : ℕ → List Job → (Job → Type 0) → Type 0
Found id T P = (j : Job) × (find_job id T ≡ some j) × P j

Replaced-Found :
    (P : Job → Job → Type 0) (j j' : Job) (T T' : List Job)
    → Replaced j j' T T'
    → P j j'
    → ((i : Job) → P i i)
    → (id : ℕ) (i : Job) → find_job id T ≡ some i
    → Found id T' (P i)
Replaced-Found P j j' T T' r h same id i e = elim (Bool-cases (id == j.id)) [
  | inl hit ↦ let eq : i ≡ j = ground (arith, r.was) in (j', r.now_is id ∙ rw hit refl, rw eq h)
  | inr miss ↦ (i, r.now_is id ∙ rw miss e, same i)
]

-- No step loses a turn, or takes its generation or its pending revision back.
pub Outcome-Later :
    (T T' : List Job) (R R' : List Receipt)
    → Outcome T R T' R'
    → (id : ℕ) (j : Job) → find_job id T ≡ some j
    → Found id T' (Later j)
Outcome-Later T T' R R' (unchanged a b) id j e = (j, rw a e, Later-refl j)
Outcome-Later T T' R R' (silent i i' a b c) id j e =
    Replaced-Found Later i i' T T' a (Silent-Later i i' b) Later-refl id j e
Outcome-Later T T' R R' (ended i i' kind payload a b n c) id j e =
    Replaced-Found Later i i' T T' a (Ends-Later i i' b) Later-refl id j e

-- No step changes or removes a receipt.
pub Outcome-receipt :
    (T T' : List Job) (R R' : List Receipt) (id gen claimed : ℕ) (r : Receipt)
    → Outcome T R T' R'
    → find_receipt id gen claimed R ≡ some r
    → find_receipt id gen claimed R' ≡ some r
Outcome-receipt T T' R R' id gen claimed r (unchanged a b) e = rw b e
Outcome-receipt T T' R R' id gen claimed r (silent i i' a b c) e = rw c e
Outcome-receipt T T' R R' id gen claimed r (ended i i' kind payload a b n c) e = rw c (ground arith)

-- The lease of this generation is over.
abbrev pub IsOver : ℕ → Job → Type 0
IsOver gen j = gen < unanswered j

-- A lease that is over stays over.
pub Outcome-IsOver :
    (T T' : List Job) (R R' : List Receipt)
    → Outcome T R T' R'
    → (id gen : ℕ) (j : Job) → find_job id T ≡ some j
    → IsOver gen j
    → Found id T' (IsOver gen)
Outcome-IsOver T T' R R' (unchanged a b) id gen j e o = (j, rw a e, o)
Outcome-IsOver T T' R R' (silent i i' a b c) id gen j e o =
    let (k, f, q) =
      Replaced-Found (λ x y. unanswered x ≤ unanswered y) i i' T T' a (unanswered-Silent i i' b)
        (λ x. le_refl (unanswered x)) id j e in
    (k, f, le_trans o q)
Outcome-IsOver T T' R R' (ended i i' kind payload a b n c) id gen j e o =
    let (k, f, q) =
      Replaced-Found (λ x y. unanswered x ≤ unanswered y) i i' T T' a
        (omega (arith, unanswered-Ends i i' b)) (λ x. le_refl (unanswered x)) id j e in
    (k, f, le_trans o q)
