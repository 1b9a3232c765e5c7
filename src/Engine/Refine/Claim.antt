-- ===== src/Engine/Refine/Claim.antt =====
-- internal/engine/engine.go against the lease protocol: a grant, and a lease that is given back.
use rusui.Common.{
  ℕ, ◌≡◌, refl, true, ◌||◌, not, Option, none, some, List, [], ◌∷◌, String, arith, if◌then◌else◌,
  ◌==◌, str_eq, update_where,
}
use rusui.Store.{queued, Job, Receipt, reject, ◌>>=◌, ◌>>◌, return}
use rusui.Store.Turns.{
  find_job, update_job, load_snapshot, set_turn_claim_token, is_leased, leased_turn_by_claim_token,
}
use rusui.Store.Logic.{
  Yields, Keeps, Holds, Keeps-bind, Keeps-return, Keeps-if, Keeps-elsewhere, Keeps-then,
  Yields-fact, Yields-bind,
}
use rusui.Store.Frame.{
  Keeps-get_turn, Keeps-get_job, Keeps-load_snapshot, Keeps-incr_reviews_today,
  Keeps-decr_reviews_today, put, Yields-get_job, Yields-update_job,
}
use rusui.Engine.{Calls}
use rusui.Engine.Lease.{is_past}
use rusui.Engine.Claim.{
  Claim, lease_job, count_review, grant_lease, replay_found, replay_claim, restore_budget,
  is_current, requeue_tx,
}
use rusui.Engine.Protocol.{Replaced, grant, give_back, Outcome, silent}
use rusui.Engine.Refine.Steps.{Reached, Replaced-put, Yields-done, Yields-update, find_job_self}
use rusui.Engine.Refine.Held.{Yields-require}

abbrev token_of : String → Option String
token_of hash = if str_eq hash "" then none else some hash

-- The turns after a claim token is set on one of them.
abbrev mark : ℕ → String → List Job → List Job
mark id hash =
    update_where (λ (t : Job). t.id == id)
      (λ (t : Job). record t { claim_token_hash = token_of hash })

abbrev map_token : String → Option Job → Option Job
map_token hash none = none
map_token hash (some t) = some (record t { claim_token_hash = token_of hash })

find_job-mark :
    (k id : ℕ) (hash : String) (T : List Job)
    → find_job k (mark id hash T)
      ≡ (if k == id then map_token hash (find_job id T) else find_job k T)
find_job-mark k id hash [] = ground arith
find_job-mark k id hash (t ∷ T) = ground (arith, find_job-mark k id hash T)

-- An update of a row and then its claim token.
Replaced-mark :
    (j j' : Job) (hash : String) (T T' : List Job)
    → Replaced j j' T T'
    → Replaced j (record j' { claim_token_hash = token_of hash }) T (mark j'.id hash T')
Replaced-mark j j' hash T T' r = record {
  was = r.was;
  same_id = r.same_id;
  now_is =
      λ k. ground (arith, find_job-mark k j'.id hash T', r.now_is k, r.now_is j'.id, r.same_id);
}

module _ {X : Type 0} (calls : Calls X) (now : ℕ) (T : List Job) (R : List Receipt) where
  Yields-set_turn_claim_token :
      (id : ℕ) (hash : String)
      → Yields {X = X} (Holds T R) (set_turn_claim_token id hash) (λ _. Holds (mark id hash T) R)
  unfolding set_turn_claim_token
  Yields-set_turn_claim_token id hash = record { at = λ db p. ground arith }

  Keeps-count_review : (repo day : String) (j : Job) → Keeps (count_review calls now repo day j)
  unfolding count_review
  Keeps-count_review repo day j =
      Keeps-if (str_eq j.lane "review")
        (Keeps-bind (Keeps-incr_reviews_today repo day) λ _. Keeps-return day) (Keeps-return "")

  granting :
      (j : Job) (exec_deadline : ℕ) (hash : String)
      → find_job j.id T ≡ some j
      → let j' = lease_job exec_deadline now j in Outcome T R (mark j.id hash (put j' T)) R
  granting j exec_deadline hash found =
      let j' = lease_job exec_deadline now j in
      silent j (record j' { claim_token_hash = token_of hash })
        (Replaced-mark j j' hash T (put j' T) (Replaced-put j j' T found refl refl))
        (grant refl refl refl refl) refl

module _ {X : Type 0} (calls : Calls X) (now : ℕ) (T : List Job) (R : List Receipt) where
  -- A grant takes the next generation at the pending revision, and writes no receipt.
  pub Yields-grant_lease :
      (exec_deadline : ℕ) (repo day token : String) (id : ℕ)
      → Yields
          (Holds T R)
          (grant_lease calls now exec_deadline repo day token id)
          (λ _ db. Reached T R db)
  unfolding grant_lease
  Yields-grant_lease exec_deadline repo day token id =
      Yields-fact (Yields-get_job T R id) λ j found. Keeps-then (Keeps-get_turn id) λ turn.
        Keeps-then (Keeps-elsewhere (calls.bind_session_guest turn.session)) λ _.
          Keeps-then (Keeps-elsewhere calls.check_requested_secrets) λ _.
            Keeps-then (Keeps-elsewhere (calls.begin_measurement id now))
              λ _. Yields-held j (find_job_self id j T found)
    where
      Yields-held :
          (j : Job)
          → find_job j.id T ≡ some j
          → let held = lease_job exec_deadline now j in
            Yields
              (Holds T R)
              (update_job held
                >> (set_turn_claim_token held.id token
                    >> (count_review calls now repo day held >>= λ counted.
                        load_snapshot held.repo held.item held.claimed_revision >>= λ snap.
                        return (record {
                          job = held;
                          snapshot = snap;
                          item_hash = calls.item_hash snap;
                          review_count_day = counted;
                        }))))
              (λ (_ : Claim) db. Reached T R db)
      Yields-held j found =
          let held = lease_job exec_deadline now j in
          Yields-bind (Yields-update_job T R held) λ _.
            Yields-bind (Yields-set_turn_claim_token calls now (put held T) R held.id token) λ _.
              Yields-done
                (Keeps-bind (Keeps-count_review calls now T R repo day held) λ counted.
                  Keeps-bind (Keeps-load_snapshot held.repo held.item held.claimed_revision)
                    λ snap. Keeps-return _)
                (granting calls now T R j exec_deadline token found)

  Keeps-replay_found : (id : ℕ) → Keeps (replay_found calls now id)
  unfolding replay_found
  Keeps-replay_found id = Keeps-bind (Keeps-get_job id) λ j.
      Keeps-if
        (not (is_leased j.state)
          || (is_past j.lease_expires_at now || is_past j.execution_deadline_at now))
        (Keeps-return none)
        (Keeps-bind (Keeps-load_snapshot j.repo j.item j.claimed_revision) λ snap. Keeps-return _)

  Keeps-leased_turn_by_claim_token :
      (hash : String) → Keeps {X = X} (leased_turn_by_claim_token hash)
  unfolding leased_turn_by_claim_token
  Keeps-leased_turn_by_claim_token hash = record { at = λ T R db p. ground arith }

  -- A repeated claim is answered from the lease it made, which does not change.
  pub Keeps-replay_claim : (token : String) → Keeps (replay_claim calls now token)
  unfolding replay_claim
  Keeps-replay_claim token =
      Keeps-bind (Keeps-leased_turn_by_claim_token token)
        λ id. Keeps-if (id == 0) (Keeps-return none) (Keeps-replay_found id)

  Keeps-restore_budget : (c : Claim) (repo : String) → Keeps (restore_budget calls now c repo)
  unfolding restore_budget
  Keeps-restore_budget c repo =
      Keeps-if (str_eq c.review_count_day "") (Keeps-return tt)
        (Keeps-decr_reviews_today repo c.review_count_day)

  giving_back :
      (c : Claim) (j : Job)
      → find_job j.id T ≡ some j
      → is_current calls now c j ≡ true
      → let j' = record j {
        state = queued;
        lease_expires_at = none;
        execution_deadline_at = none;
      } in
        Outcome T R (put j' T) R
  giving_back c j found current =
      let j' = record j { state = queued; lease_expires_at = none; execution_deadline_at = none } in
      silent j j' (Replaced-put j j' T found refl refl)
        (give_back (ground arith) refl refl refl refl) refl

  -- The lease that is given back is the one that was claimed, and no receipt is written.
  pub Yields-requeue_tx :
      (c : Claim) → Yields (Holds T R) (requeue_tx calls now c) (λ _ db. Reached T R db)
  unfolding requeue_tx
  Yields-requeue_tx c = Yields-fact (Yields-get_job T R c.job.id) λ j found.
      Yields-fact (Yields-require T R (is_current calls now c j) reject) λ _ current.
        Keeps-then (Keeps-restore_budget c j.repo)
          λ _. Yields-update _ (giving_back c j (find_job_self c.job.id j T found) current)
