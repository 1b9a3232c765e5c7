-- ===== src/Store/FollowUps.antt =====
-- internal/store/followup.go: the FIFO of prompts that a session still owes a turn.
use rusui.Common.{
  ℕ, ◌+◌, Bool, true, false, ◌&&◌, not, Option, none, some, ◌∷◌, String, ok, err, ◌==◌, ltb, max,
  find_where, select_where, update_where, count_where, first_by, max_of,
}
use rusui.Store.{FollowUpRow, SteerRow, constraint, Tx, ◌>>=◌, ◌>>◌, return}

-- One sequence numbers the follow-ups and the steers of a session.
unfoldable pub next_seq : {X : Type 0} → ℕ → Tx X ℕ
next_seq session db = ok (
  max
        (max_of (λ (r : FollowUpRow). r.seq)
          (select_where (λ (r : FollowUpRow). r.session == session) db.followups))
        (max_of (λ (s : SteerRow). s.followup_seq)
          (select_where (λ (s : SteerRow). s.session == session && ltb 0 s.followup_seq) db.steers))
      + 1,
  db,
)

abbrev pub has_seq : ℕ → ℕ → FollowUpRow → Bool
has_seq session seq r = r.session == session && r.seq == seq

-- (session_id, seq) is unique.
unfoldable pub insert_follow_up : {X : Type 0} → ℕ → ℕ → String → Bool → Tx X (Unit {0})
insert_follow_up session seq prompt queued db =
    elim (find_where (has_seq session seq) db.followups) [
      | none ↦ ok (
        tt,
        record db {
          followups =
              record {
                session = session;
                seq = seq;
                prompt = prompt;
                consumed = false;
                queued = queued;
                dropped = false;
              }
              ∷ db.followups;
        },
      )
      | some _ ↦ err constraint
    ]

unfoldable pub enqueue_follow_up : {X : Type 0} → ℕ → String → Bool → Tx X ℕ
enqueue_follow_up session prompt queued = do
  seq ← next_seq session
  insert_follow_up session seq prompt queued
  return seq

abbrev pub is_owed : ℕ → FollowUpRow → Bool
is_owed session r = r.session == session && not r.consumed

unfoldable pub next_follow_up : {X : Type 0} → ℕ → Tx X (Option FollowUpRow)
next_follow_up session db =
    ok (first_by (λ (r : FollowUpRow). r.seq) (select_where (is_owed session) db.followups), db)

abbrev pub is_droppable : ℕ → FollowUpRow → Bool
is_droppable session r = r.session == session && (not r.consumed && r.queued)

unfoldable pub drop_queued_prompts : {X : Type 0} → ℕ → Tx X ℕ
drop_queued_prompts session db = ok (
  count_where (is_droppable session) db.followups,
  record db {
    followups =
        update_where (is_droppable session)
          (λ (r : FollowUpRow). record r { consumed = true; dropped = true }) db.followups;
  },
)

unfoldable pub consume_follow_up : {X : Type 0} → ℕ → ℕ → Tx X (Unit {0})
consume_follow_up session seq db = ok (
  tt,
  record db {
    followups =
        update_where (has_seq session seq) (λ (r : FollowUpRow). record r { consumed = true })
          db.followups;
  },
)
