-- ===== src/Engine/Refine/Stop.antt =====
-- internal/engine/cancel.go, internal/engine/halt.go and `OperatorRetry` against the lease protocol.
use rusui.Common.{ℕ, ◌+◌, ◌≡◌, ◌≢◌, refl, inr, none, some, List, arith, ◌==◌, ltb}
use rusui.Store.{queued, leased, failed, Job, Receipt, cancelled, cancelled_turn, halted_turn}
use rusui.Store.Turns.{find_job, is_leased, set_columns}
use rusui.Store.Logic.{
  Yields, Holds, Keeps-bind, Keeps-return, Keeps-elsewhere, Keeps-then, Yields-weaken,
  Yields-return, Yields-if, Yields-fact,
}
use rusui.Store.Frame.{
  Keeps-get_turn, Keeps-promote_steers, put, Yields-get_job, Yields-insert_receipt,
}
use rusui.Engine.{Calls}
use rusui.Engine.FollowUp.{is_queued}
use rusui.Engine.Stop.{
  settle_cancelled, cancel_leased, cancel_queued, cancel_turn, settle_halted, halt_leased,
  halt_turn,
}
use rusui.Engine.Protocol.{Outcome, revise, silent}
use rusui.Engine.Refine.Steps.{Reached, Replaced-put, Yields-idle, Yields-settle, find_job_self}
use rusui.Engine.Refine.FollowUp.{Yields-apply_next_follow_up}
use rusui.Engine.Refine.Endings.{Released, ending}
use rusui.Engine.Refine.Lease.{Keeps-touch, Keeps-measure_if_failed}

module _ {X : Type 0} (calls : Calls X) (now : ℕ) (T : List Job) (R : List Receipt) where
  -- A turn that is not leased, before and after, keeps its claim.
  revising :
      (j j' : Job)
      → find_job j.id T ≡ some j
      → set_columns j' j ≡ j'
      → j'.id ≡ j.id
      → (j.state ≢ leased) × (j'.state ≢ leased)
      → (j'.lease_generation ≡ j.lease_generation)
        × (j'.claimed_revision ≡ j.claimed_revision)
        × (j'.pending_revision ≡ j.pending_revision)
      → Outcome T R (put j' T) R
  revising j j' found c i s k =
      silent j j' (Replaced-put j j' T found c i) (revise (inr s) k.0 k.1 (ground arith)) refl

  module _ (j : Job) (found : find_job j.id T ≡ some j) where
    Yields-settle_cancelled :
        (R' : List Receipt) (steers : ℕ)
        → Yields
            (Holds T R')
            (settle_cancelled calls now j steers)
            (λ j' db. Holds T R' db × Released j j')
    unfolding settle_cancelled
    Yields-settle_cancelled R' steers =
        Yields-if (ltb j.claimed_revision j.pending_revision)
          (λ _. Yields-return (record j { state = queued }) (λ db p. (p, ground arith)))
          λ _.
            Yields-if (ltb 0 steers)
              (λ _.
                Yields-weaken (λ db p. p) (λ j' db p. (p.0, ground (arith, p.1)))
                  (Yields-apply_next_follow_up calls T R'
                    (record j { state = queued; retry_count = 0 })))
              λ _. Yields-return (record j { state = failed }) (λ db p. (p, ground arith))

    Yields-cancel_leased :
        j.state ≡ leased → Yields (Holds T R) (cancel_leased calls now j) (λ _ db. Reached T R db)
    unfolding cancel_leased
    Yields-cancel_leased held =
        Yields-fact
          (Yields-insert_receipt T R j j.lease_generation j.claimed_revision cancelled
            cancelled_turn)
          λ _ fresh. Keeps-then (Keeps-promote_steers j.id j.lease_generation) λ steers.
            Yields-fact (Yields-settle_cancelled _ steers) λ j' r.
              Yields-settle j'
                (ending T R j j j' found held (ground arith) r cancelled cancelled_turn fresh)
                (Keeps-bind (Keeps-measure_if_failed calls now j')
                  λ _. Keeps-bind (Keeps-get_turn j.id) λ turn. Keeps-touch calls now turn.session)

    Yields-cancel_queued :
        j.state ≡ queued → Yields (Holds T R) (cancel_queued calls now j) (λ _ db. Reached T R db)
    unfolding cancel_queued
    Yields-cancel_queued q =
        Yields-settle (record j { state = failed })
          (revising j (record j { state = failed }) found refl refl (ground arith)
            (refl, refl, refl))
          (Keeps-elsewhere (calls.finish_measurement j.id failed none now))

    Yields-settle_halted :
        (R' : List Receipt) (steers : ℕ)
        → Yields (Holds T R') (settle_halted calls now j steers) (λ j' db.
          Holds T R' db × Released (record j { lease_generation = j.lease_generation + 1 }) j')
    unfolding settle_halted
    Yields-settle_halted R' steers =
        Yields-if (ltb 0 steers)
          (λ _.
            Yields-if (j.claimed_revision == j.pending_revision)
              (λ _.
                Yields-weaken (λ db p. p) (λ j' db p. (p.0, ground (arith, p.1)))
                  (Yields-apply_next_follow_up calls T R' (record j {
                    lease_generation = j.lease_generation + 1;
                    state = queued;
                    retry_count = 0;
                  })))
              λ _. Yields-return _ (λ db p. (p, ground arith)))
          λ _. Yields-return _ (λ db p. (p, ground arith))

    Yields-halt_leased :
        j.state ≡ leased → Yields (Holds T R) (halt_leased calls now j) (λ _ db. Reached T R db)
    unfolding halt_leased
    Yields-halt_leased held =
        let k = record j { lease_generation = j.lease_generation + 1 } in
        Yields-fact
          (Yields-insert_receipt T R j j.lease_generation j.claimed_revision cancelled halted_turn)
          λ _ fresh. Keeps-then (Keeps-promote_steers j.id j.lease_generation) λ steers.
            Yields-fact (Yields-settle_halted _ steers) λ j' r.
              Yields-settle j'
                (ending T R j k j' found held (ground arith) r cancelled halted_turn fresh)
                (Keeps-bind (Keeps-get_turn j.id) λ turn. Keeps-touch calls now turn.session)

  -- A cancel ends a lease with a receipt, fails a queued turn, and leaves the others alone.
  pub Yields-cancel_turn :
      (id : ℕ) → Yields (Holds T R) (cancel_turn calls now id) (λ _ db. Reached T R db)
  unfolding cancel_turn
  Yields-cancel_turn id = Yields-fact (Yields-get_job T R id) λ j found.
      let self = find_job_self id j T found in
      Yields-if (is_queued j.state) (λ q. Yields-cancel_queued j self (ground arith))
        λ _.
          Yields-if (is_leased j.state) (λ l. Yields-cancel_leased j self (ground arith))
            λ _. Yields-idle (Keeps-return tt)

  pub Yields-halt_turn :
      (id : ℕ) → Yields (Holds T R) (halt_turn calls now id) (λ _ db. Reached T R db)
  unfolding halt_turn
  Yields-halt_turn id = Yields-fact (Yields-get_job T R id) λ j found.
      Yields-if (is_leased j.state)
        (λ l. Yields-halt_leased j (find_job_self id j T found) (ground arith))
        λ _. Yields-idle (Keeps-return tt)
