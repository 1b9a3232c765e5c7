-- ===== src/Engine/Refine/Complete.antt =====
-- internal/engine/engine.go `CompleteWithSteers` against the lease protocol: a result ends its lease
-- with the one receipt of the lease, and a refused result fails it.
use rusui.Common.{ℕ, ◌≡◌, sym, ◌&&◌, Option, none, some, List, [], ◌∷◌, err, arith, ◌==◌, ltb}
use rusui.Store.{
  queued, leased, completed, Job, Item, Receipt, Kind, complete, fail, cancelled, Payload,
  completed_turn, reject, Tx, ◌>>=◌, ◌>>◌, return, elsewhere,
}
use rusui.Store.Turns.{get_turn, find_job, find_receipt}
use rusui.Store.Logic.{
  Yields, Keeps, Holds, Keeps-bind, Keeps-return, Keeps-elsewhere, Keeps-then, Yields-if,
  Yields-fact, Yields-bind,
}
use rusui.Store.Frame.{
  Keeps-get_turn, Keeps-load_snapshot, Keeps-insert_review, Keeps-promote_steers, Keeps-ack_steer,
  put, stamp, Yields-get_job, Yields-get_receipt, Yields-insert_receipt,
}
use rusui.Store.Steers.{ack_steer, promote_steers}
use rusui.Engine.{Calls, Artifact}
use rusui.Engine.Lease.{accept_lease}
use rusui.Engine.Complete.{
  ack_each, keep_guest_session, settle_complete, record_complete, names_snapshot, validate_result,
  complete_held, complete_unanswered, complete_tx,
}
use rusui.Engine.Protocol.{Outcome}
use rusui.Engine.Refine.Steps.{
  Reached, Yields-idle, Yields-update, Yields-settle, Yields-after, find_job_self,
}
use rusui.Engine.Refine.FollowUp.{Yields-apply_next_follow_up}
use rusui.Engine.Refine.Endings.{Released, ending}
use rusui.Engine.Refine.Lease.{Keeps-touch, Yields-finalize_failure}
use rusui.Engine.Refine.Held.{IsHeld, accept_lease-IsHeld, Yields-require, Keeps-or_reject}

module _ {X : Type 0} (calls : Calls X) (now : ℕ) where
  Keeps-ack_each : (id gen : ℕ) (acks : List ℕ) → Keeps (ack_each calls now id gen acks)
  unfolding ack_each
  Keeps-ack_each id gen [] = Keeps-return tt
  Keeps-ack_each id gen (s ∷ rest) =
      Keeps-bind (Keeps-or_reject (ack_steer id gen s) (Keeps-ack_steer id gen s))
        λ _. Keeps-ack_each id gen rest

  pub Keeps-keep_guest_session :
      (j : Job) (art : Artifact) → Keeps (keep_guest_session calls now j art)
  unfolding keep_guest_session get_turn
  Keeps-keep_guest_session j art = record { at = λ T R db p. ground arith }

  module _ (T : List Job) (R : List Receipt) (j : Job) (found : find_job j.id T ≡ some j) where
    Yields-settle_complete :
        (R' : List Receipt) (snap : Item) (rev : ℕ) (art : Artifact)
        → ((j' : Job) → Released j j' → Outcome T R (put j' T) R')
        → Yields (Holds T R') (settle_complete calls now j snap rev art) (λ _ db. Reached T R db)
    unfolding settle_complete
    Yields-settle_complete R' snap rev art h =
        Yields-if (j.claimed_revision == j.pending_revision)
          (λ _. Yields-fact (Yields-apply_next_follow_up calls T R' j) λ next f.
            Yields-if (ltb next.claimed_revision next.pending_revision)
              (λ _.
                Yields-update (record next { state = queued })
                  (h (record next { state = queued }) (ground arith)))
              λ _.
                Yields-settle (record next { state = completed })
                  (h (record next { state = completed }) (ground arith))
                  (Keeps-bind
                    (Keeps-elsewhere (calls.finish_measurement j.id completed (some art) now))
                    λ _.
                      Keeps-elsewhere (
                        calls.maybe_enqueue_apply (record next { state = completed }) snap rev
                          art)))
          λ _.
            Yields-update (record j { state = queued })
              (h (record j { state = queued }) (ground arith))

    -- A result that is taken ends the lease.
    Yields-record_complete :
        (snap : Item) (art : Artifact) (acks : List ℕ)
        → j.state ≡ leased
        → Yields
            (Holds T R)
            (record_complete calls now j snap j.lease_generation j.claimed_revision art acks)
            (λ _ db. Reached T R db)
    unfolding record_complete
    Yields-record_complete snap art acks held =
        let gen = j.lease_generation in
        let claimed = j.claimed_revision in
        let stored = record art {
          main_sha = snap.main_sha;
          snapshot_hash = calls.item_hash snap;
        } in
        Keeps-then (Keeps-ack_each j.id gen acks) λ _. Keeps-then (Keeps-get_turn j.id) λ turn.
          Keeps-then (Keeps-touch calls now turn.session) λ _.
            Keeps-then (Keeps-insert_review _) λ rev.
              Keeps-then (Keeps-elsewhere (calls.record_proposals j rev stored)) λ _.
                Yields-fact (Yields-insert_receipt T R j gen claimed complete (completed_turn rev))
                  λ _ fresh. Yields-recorded snap rev stored held fresh
      where
        Yields-recorded :
            (snap : Item) (rev : ℕ) (stored : Artifact)
            → j.state ≡ leased
            → find_receipt j.id j.lease_generation j.claimed_revision R ≡ none
            → Yields
                (Holds T
                  (stamp j j.lease_generation j.claimed_revision complete (completed_turn rev) ∷ R))
                (elsewhere (calls.record_flight j.id j.lease_generation j.claimed_revision)
                  >> (promote_steers j.id j.lease_generation >>= λ _.
                      keep_guest_session calls now j stored
                      >> (settle_complete calls now j snap rev stored
                          >> return (some (completed_turn rev)))))
                (λ _ db. Reached T R db)
        Yields-recorded snap rev stored held fresh =
            Keeps-then
              (Keeps-elsewhere (calls.record_flight j.id j.lease_generation j.claimed_revision))
              λ _. Keeps-then (Keeps-promote_steers j.id j.lease_generation) λ steers.
                Keeps-then (Keeps-keep_guest_session j stored) λ _.
                  Yields-bind
                    (Yields-settle_complete _ snap rev stored λ j' r.
                      ending T R j j j' found held (ground arith) r complete (completed_turn rev)
                        fresh)
                    λ _. Yields-after (Keeps-return (some (completed_turn rev)))

    Yields-complete_held :
        (gen claimed : ℕ) (art : Artifact) (acks : List ℕ)
        → IsHeld j gen claimed
        → Yields
            (Holds T R)
            (complete_held calls now j gen claimed art acks)
            (λ _ db. Reached T R db)
    unfolding complete_held
    Yields-complete_held gen claimed art acks held =
        rw (sym held.generation, sym held.claim)
          (Keeps-then (Keeps-load_snapshot j.repo j.item j.claimed_revision) λ snap.
            Yields-if (names_snapshot j snap (calls.item_hash snap) art && validate_result art)
              (λ _. Yields-record_complete snap art acks held.is_leased)
              λ _.
                Yields-bind (Yields-finalize_failure calls now T R j found held.is_leased)
                  λ _. Yields-after (Keeps-return none))

  module _ (T : List Job) (R : List Receipt) where
    Yields-complete_unanswered :
        (id gen claimed : ℕ) (art : Artifact) (acks : List ℕ) (f : Option Receipt)
        → Yields
            (Holds T R)
            (complete_unanswered calls now id gen claimed art acks f)
            (λ _ db. Reached T R db)
    unfolding complete_unanswered
    Yields-complete_unanswered id gen claimed art acks (some r) = Yields-answer r.kind
      where
        Yields-answer :
            (kind : Kind)
            → Yields
                (Holds T R)
                (elim kind as (λ _. Tx X (Option Payload)) [
                  | complete ↦ return (some r.payload)
                  | fail ↦ (λ db. err reject)
                  | cancelled ↦ (λ db. err reject)
                ])
                (λ _ db. Reached T R db)
        Yields-answer complete = Yields-idle (Keeps-return (some r.payload))
        Yields-answer fail = record { at = λ db p. tt }
        Yields-answer cancelled = record { at = λ db p. tt }
    Yields-complete_unanswered id gen claimed art acks none =
        Yields-fact (Yields-get_job T R id) λ j found.
          Yields-fact (Yields-require T R (accept_lease j gen claimed now) reject) λ _ e.
            Yields-complete_held T R j (find_job_self id j T found) gen claimed art acks
              (accept_lease-IsHeld j gen claimed now e)

    pub Yields-complete_tx :
        (id gen claimed : ℕ) (art : Artifact) (acks : List ℕ)
        → Yields
            (Holds T R)
            (complete_tx calls now id gen claimed art acks)
            (λ _ db. Reached T R db)
    unfolding complete_tx
    Yields-complete_tx id gen claimed art acks =
        Yields-fact (Yields-get_receipt T R id gen claimed)
          λ f e. Yields-complete_unanswered id gen claimed art acks f
