-- ===== src/Engine/Refine/Held.antt =====
-- internal/engine/engine.go against the lease protocol: the failures and heartbeats of a runner.
use rusui.Common.{
  ℕ, ◌+◌, ◌≡◌, refl, sym, inr, Bool, true, false, Option, none, some, List, [], ◌∷◌, Result, ok,
  err, arith, if◌then◌else◌,
}
use rusui.Store.{leased, Job, Receipt, Db, Error, reject, Tx}
use rusui.Store.Turns.{find_job, find_receipt}
use rusui.Store.Logic.{
  Yields, Keeps, Holds, Post, Keeps-bind, Keeps-return, Keeps-elsewhere, Keeps-then, Yields-if,
  Yields-fact, Yields-bind,
}
use rusui.Store.Frame.{
  Keeps-get_turn, Keeps-get_receipt, Keeps-receive_steer, Keeps-next_steer, put, Yields-get_job,
  Yields-get_receipt,
}
use rusui.Store.Steers.{receive_steer}
use rusui.Engine.{Calls, liveness, grant_ttl}
use rusui.Engine.Lease.{
  is_past, accept_lease_identity, accept_lease, require, or_reject, fail_closed, finalize_failure,
  fail_held, fail_unanswered, fail_tx, receive_each, heartbeat_tx, payload_of,
}
use rusui.Engine.Protocol.{renew, Outcome, silent}
use rusui.Engine.Refine.Steps.{
  Reached, Replaced-put, Yields-idle, Yields-settle, Yields-after, find_job_self, find_job-id,
}
use rusui.Engine.Refine.Lease.{Yields-fail_closed, Yields-finalize_failure}

-- What `accept_lease_identity` tests.
pub record IsHeld (j : Job) (gen claimed : ℕ) : Type 0 where
  pub is_leased : j.state ≡ leased
  pub generation : j.lease_generation ≡ gen
  pub claim : j.claimed_revision ≡ claimed

pub accept_lease_identity-IsHeld :
    (j : Job) (gen claimed : ℕ) → accept_lease_identity j gen claimed ≡ true → IsHeld j gen claimed
unfolding accept_lease_identity
accept_lease_identity-IsHeld j gen claimed e = ground arith

pub accept_lease-IsHeld :
    (j : Job) (gen claimed now : ℕ) → accept_lease j gen claimed now ≡ true → IsHeld j gen claimed
unfolding accept_lease accept_lease_identity
accept_lease-IsHeld j gen claimed now e = ground arith

module _ {X : Type 0} where
  pub Yields-require :
      (T : List Job) (R : List Receipt) (b : Bool) (e : Error)
      → Yields {X = X} (Holds T R) (require b e) (λ _ db. Holds T R db × (b ≡ true))
  Yields-require T R true e = record { at = λ db p. (p, refl) }
  Yields-require T R false e = record { at = λ db p. tt }

  pub Keeps-or_reject : (m : Tx X (Unit {0})) → Keeps m → Keeps (or_reject m)
  Keeps-or_reject m k = record { at = λ T R db p. rejected T R (m db) (k.at T R db p) }
    where
      rejected :
          (T : List Job) (R : List Receipt) (r : Result Error (Unit {0} × Db X))
          → Post (λ (_ : Unit {0}). Holds T R) r
          → Post
              (λ (_ : Unit {0}). Holds T R)
              (elim r as (λ _. Result Error (Unit {0} × Db X)) [
                | ok (a, next) ↦ ok (a, next)
                | err _ ↦ err reject
              ])
      rejected T R (ok (a, next)) h = h
      rejected T R (err e) h = tt

module _ {X : Type 0} (calls : Calls X) (now : ℕ) where
  Keeps-receive_each :
      (id gen : ℕ) (received : List ℕ) → Keeps (receive_each calls now id gen received)
  unfolding receive_each
  Keeps-receive_each id gen [] = Keeps-return tt
  Keeps-receive_each id gen (s ∷ rest) =
      Keeps-bind (Keeps-or_reject (receive_steer id gen s) (Keeps-receive_steer id gen s))
        λ _. Keeps-receive_each id gen rest

  module _ (T : List Job) (R : List Receipt) where
    -- The failure of a lease that has no receipt yet.
    Yields-failing :
        (j : Job) (gen claimed : ℕ)
        → find_job j.id T ≡ some j
        → find_receipt j.id gen claimed R ≡ none
        → IsHeld j gen claimed
        → Yields
            (Holds T R)
            (if is_past j.execution_deadline_at now
              then fail_closed calls now j gen claimed false
              else if is_past j.lease_expires_at now
              then (λ db. err reject)
              else finalize_failure calls now j gen claimed)
            (λ _ db. Reached T R db)
    Yields-failing j gen claimed found fresh held =
        rw (sym held.generation, sym held.claim)
          (Yields-if (is_past j.execution_deadline_at now)
            (λ _.
              Yields-fail_closed calls now T R j found held.is_leased false
                (inr (rw (held.generation, held.claim) fresh)))
            λ _.
              Yields-if (is_past j.lease_expires_at now) (λ _. record { at = λ db p. tt })
                λ _. Yields-finalize_failure calls now T R j found held.is_leased)

    Yields-fail_held :
        (j : Job) (gen claimed : ℕ)
        → find_job j.id T ≡ some j
        → find_receipt j.id gen claimed R ≡ none
        → Yields (Holds T R) (fail_held calls now j gen claimed) (λ _ db. Reached T R db)
    unfolding fail_held
    Yields-fail_held j gen claimed found fresh =
        Yields-fact (Yields-require T R (accept_lease_identity j gen claimed) reject) λ _ e.
          Yields-failing j gen claimed found fresh (accept_lease_identity-IsHeld j gen claimed e)

    Yields-fail_unanswered :
        (id gen claimed : ℕ) (f : Option Receipt)
        → f ≡ find_receipt id gen claimed R
        → Yields (Holds T R) (fail_unanswered calls now id gen claimed f) (λ _ db. Reached T R db)
    unfolding fail_unanswered
    Yields-fail_unanswered id gen claimed (some r) e = Yields-idle (Keeps-return (some r.payload))
    Yields-fail_unanswered id gen claimed none e = Yields-fact (Yields-get_job T R id) λ j found.
        let same = find_job-id id j T found in
        Yields-bind (Yields-fail_held j gen claimed (find_job_self id j T found) (rw same (sym e)))
          λ _. Yields-after (
            Keeps-bind (Keeps-get_receipt id gen claimed)
              λ f. Keeps-return (payload_of calls now f))

    pub Yields-fail_tx :
        (id gen claimed : ℕ)
        → Yields (Holds T R) (fail_tx calls now id gen claimed) (λ _ db. Reached T R db)
    unfolding fail_tx
    Yields-fail_tx id gen claimed =
        Yields-fact (Yields-get_receipt T R id gen claimed)
          λ f e. Yields-fail_unanswered id gen claimed f e

    renewing :
        (j : Job) (until : ℕ)
        → find_job j.id T ≡ some j
        → j.state ≡ leased
        → Outcome T R (put (record j { lease_expires_at = some until }) T) R
    renewing j until found held =
        let j' = record j { lease_expires_at = some until } in
        silent j j' (Replaced-put j j' T found refl refl) (renew held held refl refl refl) refl

    pub Yields-heartbeat_tx :
        (id gen claimed : ℕ) (received : List ℕ)
        → Yields
            (Holds T R)
            (heartbeat_tx calls now id gen claimed received)
            (λ _ db. Reached T R db)
    unfolding heartbeat_tx
    Yields-heartbeat_tx id gen claimed received = Yields-fact (Yields-get_job T R id) λ j found.
        Yields-fact (Yields-require T R (accept_lease j gen claimed now) reject) λ _ e.
          Keeps-then (Keeps-receive_each id gen received) λ _.
            Yields-settle (record j { lease_expires_at = some (now + liveness) })
              (renewing j (now + liveness) (find_job_self id j T found)
                (accept_lease-IsHeld j gen claimed now e).is_leased)
              (Keeps-bind (Keeps-elsewhere (calls.renew_turn_credential id gen (now + grant_ttl)))
                λ _.
                  Keeps-bind (Keeps-elsewhere (calls.renew_grant id (now + grant_ttl)))
                    λ _. Keeps-bind (Keeps-get_turn id) λ turn. Keeps-next_steer turn.id gen)
