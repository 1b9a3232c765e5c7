-- ===== src/Engine/Grants.antt =====
-- What a claim has checked when it leases a turn, and when it leases none.
use rusui.Common.{
  ℕ, ◌≡◌, ◌<◌, Bool, true, false, Option, none, some, List, ◌∷◌, ◌&&◌, String, Result, ok, arith,
  if◌then◌else◌, leb, All, Bool-cases, inl, inr, ap, ◌∙◌, subst, sym,
}
use rusui.Store.{Job, Db, Error, policy_denied, budget_exhausted, Tx, ◌>>=◌, return, fail_with}
use rusui.Store.Turns.{get_job, count_reviews_today}
use rusui.Store.Run.{bind-ok, bind-IsSplit, err-ok}
use rusui.Policy.{Effective, Project}
use rusui.Policy.Review.{Reason}
use rusui.Engine.{Calls}
use rusui.Engine.Claim.{Claim, grant_lease, replay_claim}
use rusui.Engine.Scope.{
  Desk, max_concurrent_leases, Scope, claim_select_repos, is_daily_budget, claim_lanes, is_empty,
}
use rusui.Engine.Choose.{Candidate, queued_turns, count_leased_turns, choose_turn}
use rusui.Engine.ClaimToken.{
  has_none, expire_keys, scope_tx, decide_tx, leased_tx, grant_chosen, claim_lanes_tx,
  claim_scope_tx, claim_next, or_next, claim_tx,
}
use rusui.Engine.Eligible.{
  IsListed, IsFirst, queued_turns-IsListed, choose_turn-IsFirst, choose_turn-reads,
}
use rusui.Engine.Sorted.{All-append}

none-some :
    {X : Type 0} (db : Db X) (c : Claim) (next : Db X)
    → ◌≡◌ {A = Result Error (Option Claim × Db X)} (ok (none, db)) (ok (some c, next))
    → ⊥
none-some db c next h = cc

returned :
    {X : Type 0} (a c : Claim) (db next : Db X)
    → ◌≡◌ {A = Result Error (Option Claim × Db X)} (ok (some a, db)) (ok (some c, next))
    → ◌≡◌ {A = Result Error (Claim × Db X)} (ok (a, db)) (ok (c, next))
returned a c db next h = cc

module _ {X G : Type 0} (calls : Calls X) (desk : Desk X) (policy : Effective G) (now : ℕ)
    (exec_deadline : ℕ) (repo day token : String) where
  abbrev queue : Scope → Reason → Db X → List Candidate
  queue s decision db =
      queued_turns (claim_select_repos desk policy repo s.project)
        (claim_lanes desk policy s decision) (desk.normalize_tenant s.project.tenant)
        (desk.sessions db.rest) db.turns

  -- A lease that a claim has granted: in the state in which it was granted, its turn was the first of
  -- the queue that may run, and the project's leased turns were below its limit.
  pub record IsGranted (s : Scope) (decision : Reason) (c : Claim) (next : Db X) : Type 0 where
    pub at : Db X
    pub turn : Candidate
    pub listed :
        IsListed
          (claim_select_repos desk policy repo s.project)
          (claim_lanes desk policy s decision)
          (desk.normalize_tenant s.project.tenant)
          (desk.sessions at.rest)
          turn
    pub is_first : IsFirst desk policy s.project.slug at turn (queue s decision at)
    pub has_room :
        count_leased_turns s.project.slug s.project.repos (desk.sessions at.rest) at.turns
        < max_concurrent_leases s.project
    pub grants : grant_lease calls now exec_deadline repo day token turn.turn.id at ≡ ok (c, next)

  grant_chosen-none :
      (p : Project) (spent : Bool) (c : Claim) (db next : Db X)
      → grant_chosen calls desk policy now exec_deadline repo day token p spent none db
        ≡ ok (some c, next)
      → ⊥
  unfolding grant_chosen
  grant_chosen-none p true c db next h = cc
  grant_chosen-none p false c db next h = cc

  get_job-reads : (id : ℕ) (j : Job) (db next : Db X) → get_job id db ≡ ok (j, next) → next ≡ db
  unfolding get_job
  get_job-reads id j db next h = ground arith

  abbrev claiming : Candidate → Tx X (Option Claim)
  claiming turn = grant_lease calls now exec_deadline repo day token turn.turn.id >>= λ claim.
      return (some claim)

  abbrev granting : Project → Candidate → Tx X (Option Claim)
  granting p turn = leased_tx calls desk policy now p >>= λ held.
      if leb (max_concurrent_leases p) held then return none else claiming turn

  granting-some :
      (p : Project) (turn : Candidate) (c : Claim) (db next : Db X)
      → granting p turn db ≡ ok (some c, next)
      → (count_leased_turns p.slug p.repos (desk.sessions db.rest) db.turns
          < max_concurrent_leases p)
        × (grant_lease calls now exec_deadline repo day token turn.turn.id db ≡ ok (c, next))
  granting-some p turn c db next h =
      let held = count_leased_turns p.slug p.repos (desk.sessions db.rest) db.turns in
      elim (Bool-cases (leb (max_concurrent_leases p) held)) [
        | inl full ↦ absurd (none-some db c next (sym (refuse full) ∙ h))
        | inr room ↦
            let s =
              bind-IsSplit (grant_lease calls now exec_deadline repo day token turn.turn.id)
                (λ claim. return (some claim)) db (some c) next (sym (accept room) ∙ h) in
            (ground (arith, room), s.first ∙ returned s.value c s.mid next s.second)
      ]
    where
      branch : Bool → Result Error (Option Claim × Db X)
      branch b = (if b then return none else claiming turn) db

      refuse :
          leb
              (max_concurrent_leases p)
              (count_leased_turns p.slug p.repos (desk.sessions db.rest) db.turns)
            ≡ true
          → granting p turn db ≡ ok (none, db)
      refuse full = ap branch full

      accept :
          leb
              (max_concurrent_leases p)
              (count_leased_turns p.slug p.repos (desk.sessions db.rest) db.turns)
            ≡ false
          → granting p turn db ≡ claiming turn db
      accept room = ap branch room

  pub grant_chosen-some :
      (p : Project) (spent : Bool) (turn : Candidate) (c : Claim) (db next : Db X)
      → grant_chosen calls desk policy now exec_deadline repo day token p spent (some turn) db
        ≡ ok (some c, next)
      → (count_leased_turns p.slug p.repos (desk.sessions db.rest) db.turns
          < max_concurrent_leases p)
        × (grant_lease calls now exec_deadline repo day token turn.turn.id db ≡ ok (c, next))
  unfolding grant_chosen
  grant_chosen-some p spent turn c db next h =
      let s = bind-IsSplit (get_job turn.turn.id) (λ j. granting p turn) db (some c) next h in
      let here = get_job-reads turn.turn.id s.value db s.mid s.first in
      granting-some p turn c db next (ap (λ (d : Db X). granting p turn d) (sym here) ∙ s.second)

  granted :
      (s : Scope) (decision : Reason) (c : Claim) (db next : Db X) (found : Option Candidate)
      → choose_turn desk policy s.project.slug (queue s decision db) db ≡ ok (found, db)
      → grant_chosen calls desk policy now exec_deadline repo day token s.project
          (is_daily_budget desk policy decision && has_none (queue s decision db))
          found
          db
        ≡ ok (some c, next)
      → IsGranted s decision c next
  granted s decision c db next none f h = absurd (grant_chosen-none s.project _ c db next h)
  granted s decision c db next (some turn) f h =
      let (room, grants) = grant_chosen-some s.project _ turn c db next h in
      let (_, first) =
        choose_turn-IsFirst desk policy s.project.slug db (queue s decision db) turn db f in
      record {
        at = db;
        turn = turn;
        listed = listed_of first;
        is_first = first;
        has_room = room;
        grants = grants;
      }
    where
      listed_of :
          IsFirst desk policy s.project.slug db turn (queue s decision db)
          → IsListed
              (claim_select_repos desk policy repo s.project)
              (claim_lanes desk policy s decision)
              (desk.normalize_tenant s.project.tenant)
              (desk.sessions db.rest)
              turn
      listed_of first =
          (All-append _ first.passed (turn ∷ first.left) (
            subst (All _) first.split (
              queued_turns-IsListed (claim_select_repos desk policy repo s.project)
                (claim_lanes desk policy s decision) (desk.normalize_tenant s.project.tenant)
                (desk.sessions db.rest) db.turns))).1.0

  abbrev choosing : Scope → Reason → List Candidate → Option Candidate → Tx X (Option Claim)
  choosing s decision cs found =
      grant_chosen calls desk policy now exec_deadline repo day token s.project
        (is_daily_budget desk policy decision && has_none cs) found

  abbrev deciding : Scope → Tx X (Option Claim)
  deciding s = decide_tx calls desk policy now repo day s >>= λ decision.
      claim_scope_tx calls desk policy now exec_deadline repo day token s decision

  scope_tx-reads :
      (s : Scope) (db next : Db X)
      → scope_tx calls desk policy now repo db ≡ ok (s, next)
      → next ≡ db
  unfolding scope_tx
  scope_tx-reads s db next h = ground arith

  decide_tx-reads :
      (s : Scope) (decision : Reason) (db next : Db X)
      → decide_tx calls desk policy now repo day s db ≡ ok (decision, next)
      → next ≡ db
  unfolding decide_tx count_reviews_today
  decide_tx-reads s decision db next h = ground arith

  claim_lanes_tx-IsGranted :
      (s : Scope) (decision : Reason) (c : Claim) (db next : Db X)
      → claim_lanes_tx calls desk policy now exec_deadline repo day token s decision
          (claim_lanes desk policy s decision)
          db
        ≡ ok (some c, next)
      → IsGranted s decision c next
  unfolding claim_lanes_tx
  claim_lanes_tx-IsGranted s decision c db next h =
      let keys = claim_select_repos desk policy repo s.project in
      let expired = bind-IsSplit (expire_keys calls desk policy now keys) _ db (some c) next h in
      let mid = expired.mid in
      let cs = queue s decision mid in
      let chose =
        bind-IsSplit (choose_turn desk policy s.project.slug cs)
          (λ found. choosing s decision cs found) mid (some c) next expired.second in
      let here =
        choose_turn-reads desk policy s.project.slug mid cs chose.value chose.mid chose.first in
      granted s decision c mid next chose.value
        (chose.first ∙ ap (λ (d : Db X). ok (chose.value, d)) here)
        (ap (choosing s decision cs chose.value) (sym here) ∙ chose.second)

  claim_scope_tx-IsGranted :
      (s : Scope) (decision : Reason) (c : Claim) (db next : Db X)
      → claim_scope_tx calls desk policy now exec_deadline repo day token s decision db
        ≡ ok (some c, next)
      → IsGranted s decision c next
  unfolding claim_scope_tx
  claim_scope_tx-IsGranted s decision c db next h =
      elim (Bool-cases (is_empty (claim_lanes desk policy s decision))) [
        | inl none_left ↦ absurd (err-ok _ (some c, next) (sym (ap branch none_left) ∙ h))
        | inr some_left ↦
            claim_lanes_tx-IsGranted s decision c db next (sym (ap branch some_left) ∙ h)
      ]
    where
      branch : Bool → Result Error (Option Claim × Db X)
      branch b =
          (if b
              then fail_with
                  (if is_daily_budget desk policy decision then budget_exhausted else policy_denied)
              else claim_lanes_tx calls desk policy now exec_deadline repo day token s decision
                  (claim_lanes desk policy s decision))
            db

  -- A claim that is not a repeated one and leases a turn has found a scope for its key and today's
  -- decision for it, and then granted the lease.
  pub claim_tx-IsGranted :
      (c : Claim) (db next : Db X)
      → replay_claim calls now token db ≡ ok (none, db)
      → claim_tx calls desk policy now exec_deadline repo day token db ≡ ok (some c, next)
      → (s : Scope) × (decision : Reason) × (scope_tx calls desk policy now repo db ≡ ok (s, db))
        × (decide_tx calls desk policy now repo day s db ≡ ok (decision, db))
        × IsGranted s decision c next
  unfolding claim_tx claim_next
  claim_tx-IsGranted c db next r h =
      let fresh : claim_next calls desk policy now exec_deadline repo day token db
          ≡ ok (some c, next) =
        sym (
          bind-ok (replay_claim calls now token)
            (λ found.
              or_next calls desk policy now
                (claim_next calls desk policy now exec_deadline repo day token) found)
            db none db r)
        ∙ h in
      let scoped =
        bind-IsSplit (scope_tx calls desk policy now repo) (λ s. deciding s) db (some c) next
          fresh in
      let same = scope_tx-reads scoped.value db scoped.mid scoped.first in
      let decided =
        bind-IsSplit (decide_tx calls desk policy now repo day scoped.value)
          (λ decision.
            claim_scope_tx calls desk policy now exec_deadline repo day token scoped.value decision)
          db (some c) next (ap (deciding scoped.value) (sym same) ∙ scoped.second) in
      let still = decide_tx-reads scoped.value decided.value db decided.mid decided.first in
      (
        scoped.value,
        decided.value,
        scoped.first ∙ ap (λ (d : Db X). ok (scoped.value, d)) same,
        decided.first ∙ ap (λ (d : Db X). ok (decided.value, d)) still,
        claim_scope_tx-IsGranted scoped.value decided.value c decided.mid next decided.second,
      )
