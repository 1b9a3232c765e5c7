-- ===== src/Store/Steers.antt =====
-- internal/store/steer.go: prompts that an operator gives to a running turn. A steer is offered to
-- the runner, received, acknowledged; or promoted to a follow-up when its lease ends first.
use rusui.Common.{
  ℕ, ◌+◌, Bool, true, false, ◌&&◌, ◌||◌, not, Option, none, some, List, [], ◌∷◌, String, ok, err,
  if◌then◌else◌, ◌==◌, leb, ltb, length, find_where, select_where, update_where, count_where, any,
  first_by, order_by, max_of,
}
use rusui.Store.{
  SteerRow, Error, no_rows, unknown_receipt, unknown_acknowledgement, Tx, ◌>>=◌, ◌>>◌, return,
}
use rusui.Store.FollowUps.{next_seq, insert_follow_up}

-- AUTOINCREMENT: the new id is above every id in the table.
insert_steer : {X : Type 0} → ℕ → ℕ → ℕ → String → ℕ → Tx X ℕ
insert_steer session turn generation prompt seq db =
    let fresh = max_of (λ (s : SteerRow). s.id) db.steers + 1 in
    ok (
      fresh,
      record db {
        steers =
            record {
              id = fresh;
              session = session;
              turn = turn;
              lease_generation = generation;
              prompt = prompt;
              followup_seq = seq;
              offered = false;
              received = false;
              acknowledged = false;
              promoted = false;
            }
            ∷ db.steers;
      },
    )

unfoldable pub enqueue_steer : {X : Type 0} → ℕ → ℕ → ℕ → String → Tx X ℕ
unfolding insert_steer
enqueue_steer session turn generation prompt = do
  seq ← next_seq session
  insert_steer session turn generation prompt seq

abbrev pub is_next : ℕ → ℕ → SteerRow → Bool
is_next turn generation s =
    s.turn == turn
    && (s.lease_generation == generation
        && (not s.acknowledged && (not s.promoted && not s.received)))

-- The oldest undelivered steer of the lease, marked as offered.
unfoldable pub next_steer : {X : Type 0} → ℕ → ℕ → Tx X (Option SteerRow)
next_steer turn generation db =
    elim (first_by (λ (s : SteerRow). s.id) (select_where (is_next turn generation) db.steers)) [
      | none ↦ ok (none, db)
      | some steer ↦ ok (
        some steer,
        record db {
          steers =
              update_where (λ (s : SteerRow). s.id == steer.id && not s.offered)
                (λ (s : SteerRow). record s { offered = true }) db.steers;
        },
      )
    ]

abbrev pub is_offered : ℕ → ℕ → ℕ → SteerRow → Bool
is_offered turn generation id s =
    s.id == id
    && (s.turn == turn && (s.lease_generation == generation && (s.offered && not s.promoted)))

-- After an update that matched no row, or more than one, the code reads the column back.
read_back : {X : Type 0} → (SteerRow → Bool) → (SteerRow → Bool) → Error → Tx X (Unit {0})
read_back selects column e db = elim (find_where selects db.steers) [
  | none ↦ err no_rows
  | some s ↦ if column s then ok (tt, db) else err e
]

unfoldable pub receive_steer : {X : Type 0} → ℕ → ℕ → ℕ → Tx X (Unit {0})
unfolding read_back
receive_steer turn generation id db =
    let selects = is_offered turn generation id in
    let next = record db {
      steers = update_where selects (λ (s : SteerRow). record s { received = true }) db.steers;
    } in
    if count_where selects db.steers == 1
    then ok (tt, next)
    else read_back selects (λ s. s.received) unknown_receipt next

unfoldable pub ack_steer : {X : Type 0} → ℕ → ℕ → ℕ → Tx X (Unit {0})
unfolding read_back
ack_steer turn generation id db =
    let selects = is_offered turn generation id in
    let next = record db {
      steers =
          update_where selects (λ (s : SteerRow). record s { received = true; acknowledged = true })
            db.steers;
    } in
    if count_where selects db.steers == 1
    then ok (tt, next)
    else read_back selects (λ s. s.acknowledged) unknown_acknowledgement next

abbrev pub blocks : ℕ → ℕ → SteerRow → Bool
blocks session seq s =
    s.session == session && (ltb s.followup_seq seq && (not s.acknowledged && not s.promoted))

unfoldable pub has_earlier_unacknowledged_steer : {X : Type 0} → ℕ → ℕ → Tx X Bool
has_earlier_unacknowledged_steer session seq db = ok (any (blocks session seq) db.steers, db)

abbrev pub is_pending : ℕ → ℕ → SteerRow → Bool
is_pending turn through s =
    s.turn == turn && (leb s.lease_generation through && (not s.acknowledged && not s.promoted))

-- ORDER BY followup_seq, id.
abbrev pub fifo : SteerRow → SteerRow → Bool
fifo a b = ltb a.followup_seq b.followup_seq || (a.followup_seq == b.followup_seq && leb a.id b.id)

unfoldable pub mark_promoted : {X : Type 0} → ℕ → Tx X (Unit {0})
mark_promoted id db = ok (
  tt,
  record db {
    steers =
        update_where (λ (s : SteerRow). s.id == id) (λ (s : SteerRow). record s { promoted = true })
          db.steers;
  },
)

-- The loop over the pending steers: each becomes a follow-up at its own place in the FIFO.
unfoldable pub promote_each : {X : Type 0} → List SteerRow → Tx X (Unit {0})
unfolding mark_promoted
promote_each [] = return tt
promote_each (s ∷ rest) =
    insert_follow_up s.session s.followup_seq s.prompt false
    >> (mark_promoted s.id >> promote_each rest)

unfoldable pub promote_steers : {X : Type 0} → ℕ → ℕ → Tx X ℕ
promote_steers turn through db =
    let pending = order_by fifo (select_where (is_pending turn through) db.steers) in
    (promote_each pending >> return (length pending)) db
