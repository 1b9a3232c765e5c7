-- ===== src/Engine/Repeat.antt =====
-- internal/engine/engine.go `CompleteWithSteers`: the answer that a runner gets is the one that is kept, so a
-- repeated request is told the same.
use rusui.Common.{
  ℕ, ◌≡◌, refl, sym, ap, ◌∙◌, subst, ◌&&◌, Option, none, some, List, Result, ok, err, arith, ltb,
  ◌==◌,
}
use rusui.Store.{
  queued, completed, Job, Item, Receipt, Kind, complete, fail, cancelled, Payload, completed_turn,
  Db, Error, reject, no_rows, Tx, ◌>>=◌, ◌>>◌, return, elsewhere, run_tx,
}
use rusui.Store.Turns.{
  find_receipt, find_job, get_job, get_turn, get_receipt, insert_review, load_snapshot,
}
use rusui.Store.Steers.{promote_steers}
use rusui.Store.Logic.{
  Yields, Post, Post-weaken, Yields-bind, Yields-if, Yields-weaken, Yields-return,
}
use rusui.Store.Frame.{Keeps-promote_steers, stamp}
use rusui.Engine.{Calls, Artifact}
use rusui.Engine.Lease.{accept_lease, require, touch, finalize_failure}
use rusui.Engine.FollowUp.{apply_next_follow_up}
use rusui.Engine.Complete.{
  ack_each, complete_turn, complete_tx, complete_unanswered, complete_held, record_complete,
  settle_complete, keep_guest_session, names_snapshot, validate_result, publish_pending,
  publish_pending-receipts, after_complete,
}
use rusui.Engine.Refine.Steps.{find_job-id}
use rusui.Engine.Refine.FollowUp.{Yields-apply_next_follow_up}
use rusui.Engine.Refine.Complete.{Keeps-keep_guest_session}
use rusui.Engine.Trace.{Op, run, run-receipt}
use rusui.Engine.Answers.{
  Told, Stays, Any, Stays-Keeps, Stays-update_job, Stays-elsewhere, Yields-Any, Yields-IsAnswered,
  Yields-insert, IsAnswered,
}

module _ {X : Type 0} (calls : Calls X) (now : ℕ) where
  Stays-apply_next_follow_up : (j : Job) → Stays (apply_next_follow_up calls j)
  Stays-apply_next_follow_up j R = record {
    at = λ db p.
        Post-weaken (λ a d h. h.0.receipts_are) (apply_next_follow_up calls j db)
          ((Yields-apply_next_follow_up calls db.turns R j).at db
            (record { turns_are = refl; receipts_are = p }));
  }

  Stays-settle_complete :
      (j : Job) (snap : Item) (rev : ℕ) (art : Artifact)
      → Stays (settle_complete calls now j snap rev art)
  unfolding settle_complete
  Stays-settle_complete j snap rev art R =
      Yields-if (j.claimed_revision == j.pending_revision)
        (λ _. Yields-bind (Stays-apply_next_follow_up j R) λ next.
          Yields-if (ltb next.claimed_revision next.pending_revision)
            (λ _. Stays-update_job (record next { state = queued }) R)
            λ _. Yields-bind (Stays-update_job (record next { state = completed }) R) λ _.
              Yields-bind
                (Stays-elsewhere (calls.finish_measurement j.id completed (some art) now) R)
                λ _.
                  Stays-elsewhere
                    (calls.maybe_enqueue_apply (record next { state = completed }) snap rev art) R)
        λ _. Stays-update_job (record j { state = queued }) R

  -- What follows the receipt keeps it.
  Yields-kept :
      (j : Job) (snap : Item) (gen claimed rev : ℕ) (stored : Artifact)
      → let r = stamp j gen claimed complete (completed_turn rev) in
        Yields
          (IsAnswered j.id gen claimed r)
          (elsewhere (calls.record_flight j.id gen claimed)
            >> (promote_steers j.id gen >>= λ _.
                keep_guest_session calls now j stored
                >> (settle_complete calls now j snap rev stored
                    >> return (some (completed_turn rev)))))
          (Told j.id gen claimed)
  Yields-kept j snap gen claimed rev stored =
      let r = stamp j gen claimed complete (completed_turn rev) in
      Yields-bind
        (Yields-IsAnswered j.id gen claimed r
          (Stays-elsewhere (calls.record_flight j.id gen claimed)))
        λ _.
          Yields-bind
            (Yields-IsAnswered j.id gen claimed r (Stays-Keeps (Keeps-promote_steers j.id gen)))
            λ steers.
              Yields-bind
                (Yields-IsAnswered j.id gen claimed r
                  (Stays-Keeps (Keeps-keep_guest_session calls now j stored)))
                λ _.
                  Yields-bind
                    (Yields-IsAnswered j.id gen claimed r (Stays-settle_complete j snap rev stored))
                    λ _. Yields-return (some (completed_turn rev)) (λ db h. (r, h, refl, refl))

  Yields-record_complete :
      (j : Job) (snap : Item) (gen claimed : ℕ) (art : Artifact) (acks : List ℕ)
      → Yields Any (record_complete calls now j snap gen claimed art acks) (Told j.id gen claimed)
  unfolding record_complete
  Yields-record_complete j snap gen claimed art acks =
      let stored = record art { main_sha = snap.main_sha; snapshot_hash = calls.item_hash snap } in
      Yields-bind (Yields-Any (ack_each calls now j.id gen acks)) λ _.
        Yields-bind (Yields-Any (get_turn j.id)) λ turn.
          Yields-bind (Yields-Any (touch calls now turn.session)) λ _.
            Yields-bind
              (Yields-Any (
                insert_review (record {
                  job = j.id;
                  claimed_revision = j.claimed_revision;
                  item_hash = calls.item_hash snap;
                  main_sha = snap.main_sha;
                })))
              λ rev. Yields-bind (Yields-Any (elsewhere (calls.record_proposals j rev stored))) λ _.
                Yields-bind (Yields-insert j.id gen claimed complete (completed_turn rev))
                  λ _. Yields-kept j snap gen claimed rev stored

  Yields-complete_held :
      (j : Job) (gen claimed : ℕ) (art : Artifact) (acks : List ℕ)
      → Yields Any (complete_held calls now j gen claimed art acks) (Told j.id gen claimed)
  unfolding complete_held
  Yields-complete_held j gen claimed art acks =
      Yields-bind (Yields-Any (load_snapshot j.repo j.item j.claimed_revision)) λ snap.
        Yields-if (names_snapshot j snap (calls.item_hash snap) art && validate_result art)
          (λ _. Yields-record_complete j snap gen claimed art acks)
          λ _.
            Yields-bind (Yields-Any (finalize_failure calls now j gen claimed))
              λ _. Yields-return none (λ db h. tt)

  Yields-own_id : (id : ℕ) → Yields {X = X} Any (get_job id) (λ j db. j.id ≡ id)
  unfolding get_job
  Yields-own_id id = record { at = λ db p. owned db (find_job id db.turns) refl }
    where
      owned :
          (db : Db X) (f : Option Job)
          → find_job id db.turns ≡ f
          → Post
              (λ (j : Job) (_ : Db X). j.id ≡ id)
              (elim f as (λ _. Result Error (Job × Db X)) [
                | none ↦ err no_rows
                | some j ↦ ok (j, db)
              ])
      owned db none e = tt
      owned db (some j) e = find_job-id id j db.turns e

  Yields-complete_unanswered :
      (id gen claimed : ℕ) (art : Artifact) (acks : List ℕ) (f : Option Receipt)
      → Yields
          (λ db. f ≡ find_receipt id gen claimed db.receipts)
          (complete_unanswered calls now id gen claimed art acks f)
          (Told id gen claimed)
  unfolding complete_unanswered
  Yields-complete_unanswered id gen claimed art acks (some r) = answers r.kind refl
    where
      answers :
          (k : Kind)
          → r.kind ≡ k
          → Yields
              (λ db. some r ≡ find_receipt id gen claimed db.receipts)
              (elim k as (λ _. Tx X (Option Payload)) [
                | complete ↦ return (some r.payload)
                | fail ↦ (λ db. err reject)
                | cancelled ↦ (λ db. err reject)
              ])
              (Told id gen claimed)
      answers complete e =
          Yields-return (some r.payload) (λ db h. (r, record { found = sym h }, e, refl))
      answers fail e = record { at = λ db p. tt }
      answers cancelled e = record { at = λ db p. tt }
  Yields-complete_unanswered id gen claimed art acks none =
      Yields-weaken (λ db p. tt) (λ a db q. q)
        (Yields-bind (Yields-own_id id) λ j. record {
          at = λ db same.
              subst
                (λ i. Post (Told i gen claimed) (
                  (require (accept_lease j gen claimed now) reject
                      >> complete_held calls now j gen claimed art acks)
                    db))
                same
                ((Yields-bind {P = Any}
                    (Yields-Any (require (accept_lease j gen claimed now) reject))
                    λ _. Yields-complete_held j gen claimed art acks).at
                  db tt);
        })

  complete_tx-Told :
      (id gen claimed : ℕ) (art : Artifact) (acks : List ℕ) (db : Db X)
      → Post (Told id gen claimed) (complete_tx calls now id gen claimed art acks db)
  unfolding complete_tx get_receipt
  complete_tx-Told id gen claimed art acks db =
      (Yields-complete_unanswered id gen claimed art acks
          (find_receipt id gen claimed db.receipts)).at
        db refl

-- What holds of a transaction's outcome holds of the store it commits.
committed :
    {X A : Type 0} (Q : A → Db X → Type 0) (db next : Db X) (a : A) (r : Result Error (A × Db X))
    → Post Q r
    → (elim r as (λ _. Db X × Result Error A) [ ok (b, d) ↦ (d, ok b) | err e ↦ (db, err e) ])
      ≡ (next, ok a)
    → Q a next
committed Q db next a (ok (b, d)) q e =
    let same : d ≡ next = ap (λ x. x.0) e in
    let answer : b ≡ a = ground (arith, ap (λ x. x.1) e) in
    subst (λ x. Q x next) answer (subst (Q b) same q)
committed Q db next a (err x) q e = ground (arith, ap (λ x. x.1) e)

module _ {X : Type 0} (calls : Calls X) where
  complete_recorded :
      (id gen claimed : ℕ) (art : Artifact) (acks : List ℕ) (db : Db X) (r : Receipt)
      → find_receipt id gen claimed db.receipts ≡ some r
      → r.kind ≡ complete
      → (now : ℕ)
      → run_tx (complete_tx calls now id gen claimed art acks) db ≡ (db, ok (some r.payload))
  unfolding complete_tx get_receipt complete_unanswered
  complete_recorded id gen claimed art acks db r e k now =
      subst
        (λ f.
          run_tx (complete_unanswered calls now id gen claimed art acks f) db
          ≡ (db, ok (some r.payload)))
        (sym e) (answered r.kind k)
    where
      answered :
          (kind : Kind)
          → kind ≡ complete
          → run_tx
              (elim kind as (λ _. Tx X (Option Payload)) [
                | complete ↦ return (some r.payload)
                | fail ↦ (λ d. err reject)
                | cancelled ↦ (λ d. err reject)
              ])
              db
            ≡ (db, ok (some r.payload))
      answered complete h = refl
      answered fail h = ground arith
      answered cancelled h = ground arith

  Told-publish :
      (now id gen claimed : ℕ) (art : Artifact) (a : Option Payload) (db : Db X)
      → Told id gen claimed a db
      → Told id gen claimed a (publish_pending calls now art db)
  Told-publish now id gen claimed art none db h = tt
  Told-publish now id gen claimed art (some p) db (r, a, k, same) = (
    r,
    record {
      found =
          ap (find_receipt id gen claimed) (publish_pending-receipts calls now art db) ∙ a.found;
    },
    k,
    same,
  )

  Told-after :
      (now id gen claimed : ℕ) (art : Artifact) (db next : Db X) (a : Option Payload)
      (r : Result Error (Option Payload × Db X))
      → Post (Told id gen claimed) r
      → after_complete calls now art (elim r as (λ _. Db X × Result Error (Option Payload)) [
        | ok (b, d) ↦ (d, ok b)
        | err e ↦ (db, err e)
      ])
        ≡ (next, ok a)
      → Told id gen claimed a next
  Told-after now id gen claimed art db next a (ok (b, d)) q e =
      committed (Told id gen claimed) db next a (ok (b, publish_pending calls now art d))
        (Told-publish now id gen claimed art b d q) e
  Told-after now id gen claimed art db next a (err x) q e =
      committed (Told id gen claimed) db next a (err x) q e

  -- A result that was recorded is what any later request to complete the same lease is told, whatever
  -- it sends, after any requests and at any time. Its transaction changes nothing, and after it the
  -- pending comments of the item that it names are published.
  pub complete_turn-repeated :
      (db next : Db X) (now id gen claimed : ℕ) (art : Artifact) (acks : List ℕ) (p : Payload)
      → complete_turn calls now id gen claimed art acks db ≡ (next, ok (some p))
      → (ops : List Op) (later : ℕ) (other : Artifact) (others : List ℕ)
      → complete_turn calls later id gen claimed other others (run calls ops next)
        ≡ (publish_pending calls later other (run calls ops next), ok (some p))
  unfolding complete_turn
  complete_turn-repeated db next now id gen claimed art acks p e ops later other others =
      let (r, a, k, same) =
        Told-after now id gen claimed art db next (some p)
          (complete_tx calls now id gen claimed art acks db)
          (complete_tx-Told calls now id gen claimed art acks db) e in
      ap (after_complete calls later other) (
        complete_recorded id gen claimed other others (run calls ops next) r
          (run-receipt calls ops next id gen claimed r a.found) k later
        ∙ ap (λ q. (run calls ops next, ok (some q))) same)
