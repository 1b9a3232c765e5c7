-- ===== src/Engine/Trace.antt =====
-- Every operation of the lease engine, in any order and at any times, against the lease protocol: the
-- requests of runners and operators interleave only as whole transactions, since the store runs one
-- at a time.
use rusui.Common.{ℕ, ◌≡◌, some, List, [], ◌∷◌, String}
use rusui.Store.{Job, Receipt, Db, Tx, ◌>>=◌, run_tx}
use rusui.Store.Turns.{find_job, find_receipt, get_job}
use rusui.Store.Logic.{Yields, Holds, Yields-fact}
use rusui.Store.Frame.{Yields-get_job}
use rusui.Engine.{Calls, Artifact, PromptFile}
use rusui.Engine.Lease.{fail_turn, heartbeat, expire_lease, fail_tx, heartbeat_tx}
use rusui.Engine.Complete.{complete_turn, complete_tx, after_complete-rows}
use rusui.Engine.Claim.{Claim, grant_lease, replay_claim, requeue_busy, requeue_tx}
use rusui.Engine.Stop.{cancel_turn, halt_turn}
use rusui.Engine.Prompt.{prompt_follow_up, prompt_queued, prompt_steer, drop_queued_prompts}
use rusui.Engine.Protocol.{
  Outcome, IsFresh, Outcome-IsFresh, Later, Found, Later-refl, Later-trans, Outcome-Later,
  Outcome-receipt, IsOver, Outcome-IsOver,
}
use rusui.Engine.Refine.Steps.{Reached, run_tx-Outcome, Yields-idle, find_job_self}
use rusui.Engine.Refine.Lease.{Yields-expire_lease}
use rusui.Engine.Refine.Held.{Yields-fail_tx, Yields-heartbeat_tx}
use rusui.Engine.Refine.Complete.{Yields-complete_tx}
use rusui.Engine.Refine.Claim.{Yields-grant_lease, Keeps-replay_claim, Yields-requeue_tx}
use rusui.Engine.Refine.Stop.{Yields-cancel_turn, Yields-halt_turn}
use rusui.Engine.Refine.Requests.{
  Steps-prompt_follow_up, Steps-prompt_queued, Steps-prompt_steer, Steps-drop_queued_prompts,
}

-- A request, with the time at which it is served.
pub data Op : Type 0 where
  grant : ℕ → ℕ → String → String → String → ℕ → Op
  replay : ℕ → String → Op
  requeue : ℕ → Claim → Op
  beat : ℕ → ℕ → ℕ → ℕ → List ℕ → Op
  finish : ℕ → ℕ → ℕ → ℕ → Artifact → List ℕ → Op
  give_up : ℕ → ℕ → ℕ → ℕ → Op
  expire : ℕ → ℕ → Op
  cancel : ℕ → ℕ → Op
  halt : ℕ → ℕ → Op
  prompt : ℕ → ℕ → String → List PromptFile → Op
  queue : ℕ → ℕ → String → List PromptFile → Op
  steer : ℕ → ℕ → String → Op
  drop_prompts : ℕ → ℕ → Op

module _ {X : Type 0} (calls : Calls X) where
  -- `expireLeases`, for one turn that it lists.
  unfoldable pub expire_turn : ℕ → ℕ → Tx X (Unit {0})
  expire_turn now id = get_job id >>= λ j. expire_lease calls now j

  unfoldable pub apply : Op → Db X → Db X
  apply (grant now deadline repo day token id) db =
      (run_tx (grant_lease calls now deadline repo day token id) db).0
  apply (replay now token) db = (run_tx (replay_claim calls now token) db).0
  apply (requeue now c) db = (requeue_busy calls now c db).0
  apply (beat now id gen claimed received) db = (heartbeat calls now id gen claimed received db).0
  apply (finish now id gen claimed art acks) db =
      (complete_turn calls now id gen claimed art acks db).0
  apply (give_up now id gen claimed) db = (fail_turn calls now id gen claimed db).0
  apply (expire now id) db = (run_tx (expire_turn now id) db).0
  apply (cancel now id) db = (run_tx (cancel_turn calls now id) db).0
  apply (halt now id) db = (run_tx (halt_turn calls now id) db).0
  apply (prompt now session text files) db = (prompt_follow_up calls now session text files db).0
  apply (queue now session text files) db = (prompt_queued calls now session text files db).0
  apply (steer now session text) db = (prompt_steer calls now session text db).0
  apply (drop_prompts now session) db = (drop_queued_prompts calls now session db).0

  unfoldable pub run : List Op → Db X → Db X
  run [] db = db
  run (op ∷ ops) db = run ops (apply op db)

  Yields-expire_turn :
      (now id : ℕ) (T : List Job) (R : List Receipt)
      → Yields (Holds T R) (expire_turn now id) (λ _ db. Reached T R db)
  unfolding expire_turn
  Yields-expire_turn now id T R =
      Yields-fact (Yields-get_job T R id)
        λ j found. Yields-expire_lease calls now T R j (find_job_self id j T found)

  -- Whatever the request, its time and its arguments, it takes at most one turn through one step of the
  -- lease protocol, and one that fails changes neither turns nor receipts.
  pub apply-Outcome :
      (op : Op) (db : Db X)
      → Outcome db.turns db.receipts (apply op db).turns (apply op db).receipts
  unfolding apply fail_turn heartbeat complete_turn requeue_busy
  apply-Outcome (grant now deadline repo day token id) db =
      run_tx-Outcome (grant_lease calls now deadline repo day token id) db
        λ T R. Yields-grant_lease calls now T R deadline repo day token id
  apply-Outcome (replay now token) db =
      run_tx-Outcome (replay_claim calls now token) db
        λ T R. Yields-idle (Keeps-replay_claim calls now T R token)
  apply-Outcome (requeue now c) db =
      run_tx-Outcome (requeue_tx calls now c) db λ T R. Yields-requeue_tx calls now T R c
  apply-Outcome (beat now id gen claimed received) db =
      run_tx-Outcome (heartbeat_tx calls now id gen claimed received) db
        λ T R. Yields-heartbeat_tx calls now T R id gen claimed received
  apply-Outcome (finish now id gen claimed art acks) db =
      after_complete-rows calls now (Outcome db.turns db.receipts) art
        (run_tx (complete_tx calls now id gen claimed art acks) db)
        (run_tx-Outcome (complete_tx calls now id gen claimed art acks) db
          λ T R. Yields-complete_tx calls now T R id gen claimed art acks)
  apply-Outcome (give_up now id gen claimed) db =
      run_tx-Outcome (fail_tx calls now id gen claimed) db
        λ T R. Yields-fail_tx calls now T R id gen claimed
  apply-Outcome (expire now id) db =
      run_tx-Outcome (expire_turn now id) db (Yields-expire_turn now id)
  apply-Outcome (cancel now id) db =
      run_tx-Outcome (cancel_turn calls now id) db λ T R. Yields-cancel_turn calls now T R id
  apply-Outcome (halt now id) db =
      run_tx-Outcome (halt_turn calls now id) db λ T R. Yields-halt_turn calls now T R id
  apply-Outcome (prompt now session text files) db =
      Steps-prompt_follow_up calls now session text files db
  apply-Outcome (queue now session text files) db =
      Steps-prompt_queued calls now session text files db
  apply-Outcome (steer now session text) db = Steps-prompt_steer calls now session text db
  apply-Outcome (drop_prompts now session) db = Steps-drop_queued_prompts calls now session db

  -- Through any requests, a receipt is only ever written for a lease that has ended: from a store in
  -- which no current or future lease has one, every store reached is so too.
  pub run-IsFresh :
      (ops : List Op) (db : Db X)
      → IsFresh db.turns db.receipts
      → IsFresh (run ops db).turns (run ops db).receipts
  unfolding run
  run-IsFresh [] db h = h
  run-IsFresh (op ∷ ops) db h = run-IsFresh ops (apply op db) (
      Outcome-IsFresh db.turns (apply op db).turns db.receipts (apply op db).receipts
        (apply-Outcome op db) h)

  -- Through any requests, a receipt that is written stays as it was written.
  pub run-receipt :
      (ops : List Op) (db : Db X) (id gen claimed : ℕ) (r : Receipt)
      → find_receipt id gen claimed db.receipts ≡ some r
      → find_receipt id gen claimed (run ops db).receipts ≡ some r
  unfolding run
  run-receipt [] db id gen claimed r e = e
  run-receipt (op ∷ ops) db id gen claimed r e = run-receipt ops (apply op db) id gen claimed r (
      Outcome-receipt db.turns (apply op db).turns db.receipts (apply op db).receipts id gen claimed
        r (apply-Outcome op db) e)

  -- Through any requests, no turn is lost, and neither its lease generation nor its pending revision
  -- goes back.
  pub run-Later :
      (ops : List Op) (db : Db X) (id : ℕ) (j : Job)
      → find_job id db.turns ≡ some j
      → Found id (run ops db).turns (Later j)
  unfolding run
  run-Later [] db id j e = (j, e, Later-refl j)
  run-Later (op ∷ ops) db id j e =
      let (k, f, l) =
        Outcome-Later db.turns (apply op db).turns db.receipts (apply op db).receipts
          (apply-Outcome op db) id j e in
      let (i, g, m) = run-Later ops (apply op db) id k f in (i, g, Later-trans j k i l m)

  -- Through any requests, a lease that is over stays over: its generation is never current again.
  pub run-IsOver :
      (ops : List Op) (db : Db X) (id gen : ℕ) (j : Job)
      → find_job id db.turns ≡ some j
      → IsOver gen j
      → Found id (run ops db).turns (IsOver gen)
  unfolding run
  run-IsOver [] db id gen j e o = (j, e, o)
  run-IsOver (op ∷ ops) db id gen j e o =
      let (k, f, l) =
        Outcome-IsOver db.turns (apply op db).turns db.receipts (apply op db).receipts
          (apply-Outcome op db) id gen j e o in
      run-IsOver ops (apply op db) id gen k f l
