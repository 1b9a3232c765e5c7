-- ===== src/Store/Frame.antt =====
-- Which statements leave turns and receipts alone, and what the others do to them.
use rusui.Common.{
  ℕ, ◌≡◌, Bool, false, none, some, List, [], ◌∷◌, String, ◌==◌, arith, update_where, order_by,
  select_where, length,
}
use rusui.Store.{Job, Item, Kind, Payload, Receipt, ReviewRow, SteerRow}
use rusui.Store.Turns.{
  find_job, get_job, get_turn, get_job_at, set_columns, update_job, load_snapshot, save_snapshot,
  find_receipt, get_receipt, insert_receipt, insert_review, incr_reviews_today, decr_reviews_today,
}
use rusui.Store.FollowUps.{
  next_seq, insert_follow_up, enqueue_follow_up, next_follow_up, drop_queued_prompts,
  consume_follow_up,
}
use rusui.Store.Steers.{
  enqueue_steer, next_steer, receive_steer, ack_steer, has_earlier_unacknowledged_steer,
  promote_each, promote_steers, mark_promoted, fifo, is_pending,
}
use rusui.Store.Logic.{Yields, Keeps, Holds, Keeps-bind, Keeps-return}

-- The turns after an update of one row.
abbrev pub put : Job → List Job → List Job
put j = update_where (λ (t : Job). t.id == j.id) (set_columns j)

abbrev pub stamp : Job → ℕ → ℕ → Kind → Payload → Receipt
stamp j gen claimed kind payload = record {
  job = j.id;
  lease_generation = gen;
  claimed_revision = claimed;
  kind = kind;
  payload = payload;
}

module _ {X : Type 0} where
  pub Keeps-get_job : (id : ℕ) → Keeps {X = X} (get_job id)
  unfolding get_job
  Keeps-get_job id = record { at = λ T R db p. ground arith }

  pub Keeps-get_turn : (id : ℕ) → Keeps {X = X} (get_turn id)
  unfolding get_turn
  Keeps-get_turn id = record { at = λ T R db p. ground arith }

  pub Keeps-get_job_at :
      (repo : String) (item : ℕ) (lane : String) → Keeps {X = X} (get_job_at repo item lane)
  unfolding get_job_at
  Keeps-get_job_at repo item lane = record { at = λ T R db p. ground arith }

  pub Keeps-load_snapshot :
      (repo : String) (item rev : ℕ) → Keeps {X = X} (load_snapshot repo item rev)
  unfolding load_snapshot
  Keeps-load_snapshot repo item rev = record { at = λ T R db p. ground arith }

  pub Keeps-save_snapshot :
      (repo : String) (item rev : ℕ) (it : Item) → Keeps {X = X} (save_snapshot repo item rev it)
  unfolding save_snapshot
  Keeps-save_snapshot repo item rev it = record { at = λ T R db p. ground arith }

  pub Keeps-get_receipt : (id gen claimed : ℕ) → Keeps {X = X} (get_receipt id gen claimed)
  unfolding get_receipt
  Keeps-get_receipt id gen claimed = record { at = λ T R db p. ground arith }

  pub Keeps-insert_review : (r : ReviewRow) → Keeps {X = X} (insert_review r)
  unfolding insert_review
  Keeps-insert_review r = record { at = λ T R db p. ground arith }

  pub Keeps-incr_reviews_today : (repo day : String) → Keeps {X = X} (incr_reviews_today repo day)
  unfolding incr_reviews_today
  Keeps-incr_reviews_today repo day = record { at = λ T R db p. ground arith }

  pub Keeps-decr_reviews_today : (repo day : String) → Keeps {X = X} (decr_reviews_today repo day)
  unfolding decr_reviews_today
  Keeps-decr_reviews_today repo day = record { at = λ T R db p. ground arith }

  pub Keeps-next_seq : (session : ℕ) → Keeps {X = X} (next_seq session)
  unfolding next_seq
  Keeps-next_seq session = record { at = λ T R db p. ground arith }

  pub Keeps-insert_follow_up :
      (session seq : ℕ) (prompt : String) (held : Bool)
      → Keeps {X = X} (insert_follow_up session seq prompt held)
  unfolding insert_follow_up
  Keeps-insert_follow_up session seq prompt held = record { at = λ T R db p. ground arith }

  pub Keeps-enqueue_follow_up :
      (session : ℕ) (prompt : String) (held : Bool)
      → Keeps {X = X} (enqueue_follow_up session prompt held)
  unfolding enqueue_follow_up
  Keeps-enqueue_follow_up session prompt held =
      Keeps-bind (Keeps-next_seq session)
        λ seq. Keeps-bind (Keeps-insert_follow_up session seq prompt held) λ _. Keeps-return seq

  pub Keeps-next_follow_up : (session : ℕ) → Keeps {X = X} (next_follow_up session)
  unfolding next_follow_up
  Keeps-next_follow_up session = record { at = λ T R db p. ground arith }

  pub Keeps-drop_queued_prompts : (session : ℕ) → Keeps {X = X} (drop_queued_prompts session)
  unfolding drop_queued_prompts
  Keeps-drop_queued_prompts session = record { at = λ T R db p. ground arith }

  pub Keeps-consume_follow_up : (session seq : ℕ) → Keeps {X = X} (consume_follow_up session seq)
  unfolding consume_follow_up
  Keeps-consume_follow_up session seq = record { at = λ T R db p. ground arith }

  pub Keeps-enqueue_steer :
      (session turn gen : ℕ) (prompt : String)
      → Keeps {X = X} (enqueue_steer session turn gen prompt)
  unfolding enqueue_steer next_seq
  Keeps-enqueue_steer session turn gen prompt = record { at = λ T R db p. ground arith }

  pub Keeps-next_steer : (turn gen : ℕ) → Keeps {X = X} (next_steer turn gen)
  unfolding next_steer
  Keeps-next_steer turn gen = record { at = λ T R db p. ground arith }

  pub Keeps-receive_steer : (turn gen id : ℕ) → Keeps {X = X} (receive_steer turn gen id)
  unfolding receive_steer
  Keeps-receive_steer turn gen id = record { at = λ T R db p. ground arith }

  pub Keeps-ack_steer : (turn gen id : ℕ) → Keeps {X = X} (ack_steer turn gen id)
  unfolding ack_steer
  Keeps-ack_steer turn gen id = record { at = λ T R db p. ground arith }

  pub Keeps-has_earlier_unacknowledged_steer :
      (session seq : ℕ) → Keeps {X = X} (has_earlier_unacknowledged_steer session seq)
  unfolding has_earlier_unacknowledged_steer
  Keeps-has_earlier_unacknowledged_steer session seq = record { at = λ T R db p. ground arith }

  Keeps-mark_promoted : (id : ℕ) → Keeps {X = X} (mark_promoted id)
  unfolding mark_promoted
  Keeps-mark_promoted id = record { at = λ T R db p. ground arith }

  Keeps-promote_each : (ss : List SteerRow) → Keeps {X = X} (promote_each ss)
  unfolding promote_each
  Keeps-promote_each [] = Keeps-return tt
  Keeps-promote_each (s ∷ rest) =
      Keeps-bind (Keeps-insert_follow_up s.session s.followup_seq s.prompt false)
        λ _. Keeps-bind (Keeps-mark_promoted s.id) λ _. Keeps-promote_each rest

  pub Keeps-promote_steers : (turn through : ℕ) → Keeps {X = X} (promote_steers turn through)
  unfolding promote_steers
  Keeps-promote_steers turn through = record {
    at = λ T R db p.
        let pending = order_by fifo (select_where (is_pending turn through) db.steers) in
        (Keeps-bind (Keeps-promote_each pending) λ _. Keeps-return (length pending)).at T R db p;
  }

  -- A row that is read is a row of the table.
  pub Yields-get_job :
      (T : List Job) (R : List Receipt) (id : ℕ)
      → Yields {X = X} (Holds T R) (get_job id) (λ j db. Holds T R db × (find_job id T ≡ some j))
  unfolding get_job
  Yields-get_job T R id = record { at = λ db p. ground arith }

  pub Yields-get_turn :
      (T : List Job) (R : List Receipt) (id : ℕ)
      → Yields {X = X} (Holds T R) (get_turn id) (λ j db. Holds T R db × (find_job id T ≡ some j))
  unfolding get_turn
  Yields-get_turn T R id = record { at = λ db p. ground arith }

  pub Yields-update_job :
      (T : List Job) (R : List Receipt) (j : Job)
      → Yields {X = X} (Holds T R) (update_job j) (λ _. Holds (put j T) R)
  unfolding update_job
  Yields-update_job T R j = record { at = λ db p. ground arith }

  pub Yields-insert_receipt :
      (T : List Job) (R : List Receipt) (j : Job) (gen claimed : ℕ) (kind : Kind)
      (payload : Payload)
      → Yields {X = X} (Holds T R) (insert_receipt j.id gen claimed kind payload) (λ _ db.
        Holds T (stamp j gen claimed kind payload ∷ R) db
        × (find_receipt j.id gen claimed R ≡ none))
  unfolding insert_receipt
  Yields-insert_receipt T R j gen claimed kind payload = record { at = λ db p. ground arith }

  pub Yields-get_receipt :
      (T : List Job) (R : List Receipt) (id gen claimed : ℕ)
      → Yields {X = X}
          (Holds T R)
          (get_receipt id gen claimed)
          (λ found db. Holds T R db × (found ≡ find_receipt id gen claimed R))
  unfolding get_receipt
  Yields-get_receipt T R id gen claimed = record { at = λ db p. ground arith }
