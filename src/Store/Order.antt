-- ===== src/Store/Order.antt =====
-- internal/store/followup.go: a new prompt takes a number above every prompt and steer of its session, so
-- it is never refused, and waits behind all of them.
use rusui.Common.{
  ℕ, ◌+◌, ◌<◌, ◌≡◌, refl, Bool, false, ◌&&◌, none, List, [], ◌∷◌, String, ok, arith, ◌==◌, ltb, max,
  find_where, select_where, max_of,
}
use rusui.Store.{FollowUpRow, SteerRow, Db, return}
use rusui.Store.Run.{bind-ok}
use rusui.Store.FollowUps.{next_seq, insert_follow_up, enqueue_follow_up, has_seq}

abbrev pub seq_in : ℕ → List FollowUpRow → ℕ
seq_in session rows =
    max_of (λ (r : FollowUpRow). r.seq)
      (select_where (λ (r : FollowUpRow). r.session == session) rows)

abbrev pub steer_seq_in : ℕ → List SteerRow → ℕ
steer_seq_in session rows =
    max_of (λ (s : SteerRow). s.followup_seq)
      (select_where (λ (s : SteerRow). s.session == session && ltb 0 s.followup_seq) rows)

above_none :
    (session seq : ℕ) (rows : List FollowUpRow)
    → seq_in session rows < seq
    → find_where (has_seq session seq) rows ≡ none
above_none session seq [] h = refl
above_none session seq (r ∷ rows) h = ground (arith, above_none session seq rows)

-- The new row of a prompt.
abbrev pub new_row : ℕ → ℕ → String → Bool → FollowUpRow
new_row session seq prompt queued = record {
  session = session;
  seq = seq;
  prompt = prompt;
  consumed = false;
  queued = queued;
  dropped = false;
}

module _ {X : Type 0} where
  inserted :
      (session seq : ℕ) (prompt : String) (queued : Bool) (db : Db X)
      → find_where (has_seq session seq) db.followups ≡ none
      → insert_follow_up session seq prompt queued db
        ≡ ok (tt, record db { followups = new_row session seq prompt queued ∷ db.followups })
  unfolding insert_follow_up
  inserted session seq prompt queued db e = ground arith

  -- A prompt is always taken, with a number above every follow-up and every steer of its session.
  pub enqueue_follow_up-taken :
      (session : ℕ) (prompt : String) (queued : Bool) (db : Db X)
      → (seq : ℕ) × (enqueue_follow_up session prompt queued db
          ≡ ok (seq, record db { followups = new_row session seq prompt queued ∷ db.followups }))
        × (seq_in session db.followups < seq)
        × (steer_seq_in session db.steers < seq)
  unfolding enqueue_follow_up next_seq
  enqueue_follow_up-taken session prompt queued db =
      let seq = max (seq_in session db.followups) (steer_seq_in session db.steers) + 1 in
      (
        seq,
        bind-ok (insert_follow_up session seq prompt queued) (λ _. return seq) db tt _
            (inserted session seq prompt queued db
              (above_none session seq db.followups (omega arith))),
        omega arith,
        omega arith,
      )
