-- ===== src/Engine/Refine/Lease.antt =====
-- internal/engine/engine.go against the lease protocol: expiry, failure and heartbeats.
use rusui.Common.{
  ℕ, ◌+◌, ◌≡◌, refl, ◌⊎◌, inl, inr, Bool, true, false, ◌&&◌, ◌||◌, not, Option, none, some, List,
  ◌∷◌, arith, ◌==◌, leb, ltb,
}
use rusui.Store.{
  queued, leased, Job, Receipt, Kind, complete, fail, cancelled, failed_turn, reject, Tx, ◌>>=◌,
  ◌>>◌, return, fail_with,
}
use rusui.Store.Turns.{find_job, find_receipt, get_turn, is_leased}
use rusui.Store.Logic.{
  Yields, Keeps, Holds, Keeps-bind, Keeps-return, Keeps-if, Keeps-elsewhere, Keeps-then,
  Yields-weaken, Yields-return, Yields-if, Yields-fact,
}
use rusui.Store.Frame.{
  Keeps-get_turn, Keeps-promote_steers, put, stamp, Yields-get_receipt, Yields-insert_receipt,
}
use rusui.Store.Steers.{promote_steers}
use rusui.Engine.{Calls, retry_limit}
use rusui.Engine.Lease.{
  is_past, is_failed, touch, measure_if_failed, next_or_failed, record_failure, close_failed,
  bump_if, fail_closed, retry_or_fail, finalize_failure, settle_expired, count_attempt,
  release_expired, expire_lease,
}
use rusui.Engine.Protocol.{Outcome}
use rusui.Engine.Refine.Steps.{Reached, Yields-idle, Yields-settle, Yields-update}
use rusui.Engine.Refine.FollowUp.{Yields-apply_next_follow_up}
use rusui.Engine.Refine.Endings.{InHand, Released, ending, lapsing}

module _ {X : Type 0} (calls : Calls X) (now : ℕ) where
  pub Keeps-touch : (session : ℕ) → Keeps (touch calls now session)
  unfolding touch
  Keeps-touch session =
      Keeps-elsewhere (calls.touch_session_environment session now (now + calls.env_ttl))

  pub Keeps-measure_if_failed : (j : Job) → Keeps (measure_if_failed calls now j)
  unfolding measure_if_failed
  Keeps-measure_if_failed j =
      Keeps-if (is_failed j.state)
        (Keeps-elsewhere (calls.finish_measurement j.id j.state none now)) (Keeps-return tt)

  Yields-next_or_failed :
      (T : List Job) (R : List Receipt) (j : Job)
      → Yields (Holds T R) (next_or_failed calls now j) (λ j' db. Holds T R db × Released j j')
  unfolding next_or_failed
  Yields-next_or_failed T R j =
      Yields-fact (Yields-apply_next_follow_up calls T R j)
        λ next f. Yields-return _ (λ db p. (p, ground arith))

  module _ (T : List Job) (R : List Receipt) where
    Yields-close_failed :
        (R' : List Receipt) (k : Job)
        → ((j' : Job) → Released k j' → Outcome T R (put j' T) R')
        → Yields (Holds T R') (close_failed calls now k) (λ _ db. Reached T R db)
    unfolding close_failed
    Yields-close_failed R' k h =
        Yields-if (ltb k.claimed_revision k.pending_revision)
          (λ _.
            Yields-update (record k { state = queued })
              (h (record k { state = queued }) (ground arith)))
          λ _.
            Yields-fact (Yields-next_or_failed T R' k)
              λ j' r. Yields-settle j' (h j' r) (Keeps-measure_if_failed j')

    Yields-retry_or_fail :
        (R' : List Receipt) (k : Job) (steers : ℕ)
        → ((j' : Job) → Released k j' → Outcome T R (put j' T) R')
        → Yields (Holds T R') (retry_or_fail calls now k steers) (λ _ db. Reached T R db)
    unfolding retry_or_fail
    Yields-retry_or_fail R' k steers h =
        Yields-if (ltb 0 steers || leb retry_limit k.retry_count)
          (λ _.
            Yields-fact (Yields-next_or_failed T R' k)
              λ j' r. Yields-settle j' (h j' r) (Keeps-measure_if_failed j'))
          λ _.
            Yields-update (record k { state = queued })
              (h (record k { state = queued }) (ground arith))

    module _ (j : Job) (found : find_job j.id T ≡ some j) (held : j.state ≡ leased) where
      -- What follows the receipt of a deadline that has passed.
      Yields-closing :
          (R' : List Receipt) (bump : Bool)
          → ((j' : Job) → Released (bump_if calls now bump j) j' → Outcome T R (put j' T) R')
          → Yields
              (Holds T R')
              (promote_steers j.id j.lease_generation >>= λ steers. get_turn j.id >>= λ turn.
                touch calls now turn.session >> close_failed calls now (bump_if calls now bump j))
              (λ _ db. Reached T R db)
      Yields-closing R' bump h = Keeps-then (Keeps-promote_steers j.id j.lease_generation) λ steers.
          Keeps-then (Keeps-get_turn j.id) λ turn.
            Keeps-then (Keeps-touch turn.session)
              λ _. Yields-close_failed R' (bump_if calls now bump j) h

      InHand-bump : (bump : Bool) → InHand j (bump_if calls now bump j)
      InHand-bump bump = ground arith

      abbrev closing : Bool → Tx X (Unit {0})
      closing bump = promote_steers j.id j.lease_generation >>= λ steers. get_turn j.id >>= λ turn.
          touch calls now turn.session >> close_failed calls now (bump_if calls now bump j)

      Yields-answered :
          (kind : Kind)
          → Yields
              (Holds T R)
              ((elim kind [
                | fail ↦ return tt
                | complete ↦ fail_with reject
                | cancelled ↦ fail_with reject
              ])
                >> closing true)
              (λ _ db. Reached T R db)
      Yields-answered fail = Keeps-then (Keeps-return tt) λ _.
          Yields-closing R true
            λ j' r. lapsing T R j (bump_if calls now true j) j' found held (InHand-bump true) r refl
      Yields-answered complete = record { at = λ db p. tt }
      Yields-answered cancelled = record { at = λ db p. tt }

      Yields-recording :
          (bump : Bool) (f : Option Receipt)
          → f ≡ find_receipt j.id j.lease_generation j.claimed_revision R
          → (bump ≡ true) ⊎ (f ≡ none)
          → Yields
              (Holds T R)
              (record_failure calls now j j.lease_generation j.claimed_revision f >> closing bump)
              (λ _ db. Reached T R db)
      unfolding record_failure
      Yields-recording bump none e h =
          Yields-fact
            (Yields-insert_receipt T R j j.lease_generation j.claimed_revision fail failed_turn)
            λ _ fresh.
              Yields-closing (stamp j j.lease_generation j.claimed_revision fail failed_turn ∷ R)
                bump
                λ j' r.
                  ending T R j (bump_if calls now bump j) j' found held (InHand-bump bump) r fail
                    failed_turn fresh
      Yields-recording true (some r) e h = Yields-answered r.kind
      Yields-recording false (some r) e (inl h) = cc
      Yields-recording false (some r) e (inr h) = cc

      -- A deadline writes the one receipt of its lease, or finds it and bumps the generation.
      pub Yields-fail_closed :
          (bump : Bool)
          → (bump ≡ true) ⊎ (find_receipt j.id j.lease_generation j.claimed_revision R ≡ none)
          → Yields
              (Holds T R)
              (fail_closed calls now j j.lease_generation j.claimed_revision bump)
              (λ _ db. Reached T R db)
      unfolding fail_closed
      Yields-fail_closed bump h =
          Yields-fact (Yields-get_receipt T R j.id j.lease_generation j.claimed_revision)
            λ f e. Yields-recording bump f e (ground arith)

      pub Yields-finalize_failure :
          Yields
            (Holds T R)
            (finalize_failure calls now j j.lease_generation j.claimed_revision)
            (λ _ db. Reached T R db)
      unfolding finalize_failure
      Yields-finalize_failure = Keeps-then (Keeps-get_turn j.id) λ turn.
          Keeps-then (Keeps-touch turn.session) λ _.
            Yields-fact
              (Yields-insert_receipt T R j j.lease_generation j.claimed_revision fail failed_turn)
              λ _ fresh. Keeps-then (Keeps-promote_steers j.id j.lease_generation) λ steers.
                Yields-if (ltb j.claimed_revision j.pending_revision)
                  (λ _.
                    Yields-update (record j { state = queued })
                      (ending T R j j (record j { state = queued }) found held (ground arith)
                        (ground arith) fail failed_turn fresh))
                  λ _.
                    let k = record j { retry_count = j.retry_count + 1 } in
                    Yields-retry_or_fail _ k steers
                      λ j' r. ending T R j k j' found held (ground arith) r fail failed_turn fresh

      Yields-settle_expired :
          (k : Job) (steers : ℕ)
          → Yields
              (Holds T R)
              (settle_expired calls now k steers)
              (λ j' db. Holds T R db × Released k j')
      unfolding settle_expired
      Yields-settle_expired k steers =
          Yields-if (ltb 0 steers)
            (λ _.
              Yields-if (k.claimed_revision == k.pending_revision)
                (λ _.
                  Yields-weaken (λ db p. p) (λ j' db p. (p.0, ground (arith, p.1)))
                    (Yields-apply_next_follow_up calls T R
                      (record k { retry_count = 0; state = queued })))
                λ _.
                  Yields-return (record k { retry_count = 0; state = queued })
                    (λ db p. (p, ground arith)))
            λ _.
              Yields-if (k.claimed_revision == k.pending_revision && leb retry_limit k.retry_count)
                (λ _.
                  Yields-fact (Yields-apply_next_follow_up calls T R k)
                    λ next f. Yields-return _ (λ db p. (p, ground arith)))
                λ _. Yields-return (record k { state = queued }) (λ db p. (p, ground arith))

      Yields-release_expired :
          Yields (Holds T R) (release_expired calls now j) (λ _ db. Reached T R db)
      unfolding release_expired
      Yields-release_expired = Keeps-then (Keeps-promote_steers j.id j.lease_generation) λ steers.
          Yields-fact (Yields-settle_expired (count_attempt calls now j) steers) λ j' r.
            Yields-settle j'
              (lapsing T R j (count_attempt calls now j) j' found held (ground arith) r refl)
              (Keeps-bind (Keeps-measure_if_failed j')
                λ _. Keeps-bind (Keeps-get_turn j.id) λ turn. Keeps-touch turn.session)

    -- Expiry ends a lease that is past, and does nothing to any other turn.
    pub Yields-expire_lease :
        (j : Job)
        → find_job j.id T ≡ some j
        → Yields (Holds T R) (expire_lease calls now j) (λ _ db. Reached T R db)
    unfolding expire_lease
    Yields-expire_lease j found =
        Yields-if (not (is_leased j.state)) (λ _. Yields-idle (Keeps-return tt))
          λ held.
            Yields-if
              (not (is_past j.lease_expires_at now) && not (is_past j.execution_deadline_at now))
              (λ _. Yields-idle (Keeps-return tt))
              λ _.
                Yields-if (is_past j.execution_deadline_at now)
                  (λ _. Yields-fail_closed j found (ground arith) true (inl refl))
                  λ _. Yields-release_expired j found (ground arith)
