-- ===== src/Engine/Cap.antt =====
-- How many turns of a project are leased after a claim.
use rusui.Common.{
  ℕ, ◌+◌, ◌≤◌, ◌≡◌, refl, Bool, ◌&&◌, Option, none, some, List, [], ◌∷◌, String, Result, ok, err,
  arith, ◌==◌, if◌then◌else◌, str_eq, update_where, count_where, Option-cases, inl, inr, find_where,
  ◌∙◌, subst, sym,
}
use rusui.Store.{Job, CountRow, Db, Error, no_rows, elsewhere}
use rusui.Store.Turns.{
  find_job, get_job, get_turn, update_job, load_snapshot, set_columns, set_turn_claim_token,
  is_leased, incr_reviews_today, is_count,
}
use rusui.Store.Run.{get_job-found}
use rusui.Store.Logic.{Post, Yields, Yields-bind, Yields-given, Yields-if, Yields-return}
use rusui.Engine.Refine.Steps.{find_job-id}
use rusui.Policy.{Effective, Project}
use rusui.Engine.{Calls}
use rusui.Engine.Claim.{Claim, lease_job, count_review, grant_lease}
use rusui.Engine.Scope.{SessionRow, Desk, max_concurrent_leases}
use rusui.Engine.Choose.{Candidate, find_session_row, is_of_project, count_leased_turns}
use rusui.Engine.ClaimToken.{grant_chosen}
use rusui.Engine.Grants.{grant_chosen-some}

module _ {A : Type 0} where
  -- An update makes a condition true of at most the rows that it changes.
  count_where-update :
      (q p : A → Bool) (f : A → A) (xs : List A)
      → count_where q (update_where p f xs) ≤ count_where q xs + count_where p xs
  count_where-update q p f [] = omega arith
  count_where-update q p f (x ∷ xs) = ground (arith, count_where-update q p f xs)

  -- An update that leaves a condition alone leaves its count alone.
  count_where-same :
      (q p : A → Bool) (f : A → A) (xs : List A)
      → ((x : A) → q (f x) ≡ q x)
      → count_where q (update_where p f xs) ≡ count_where q xs
  count_where-same q p f [] h = refl
  count_where-same q p f (x ∷ xs) h = ground (arith, h x, count_where-same q p f xs h)

-- The calls before a lease leave the sessions' columns that a claim reads.
pub record KeepsSessions {X : Type 0} (calls : Calls X) (desk : Desk X) : Type 0 where
  pub bind_session_guest :
      (session : ℕ) (x y : X)
      → calls.bind_session_guest session x ≡ ok y
      → desk.sessions y ≡ desk.sessions x
  pub check_requested_secrets :
      (x y : X) → calls.check_requested_secrets x ≡ ok y → desk.sessions y ≡ desk.sessions x
  pub begin_measurement :
      (id now : ℕ) (x y : X)
      → calls.begin_measurement id now x ≡ ok y
      → desk.sessions y ≡ desk.sessions x

abbrev pub has_id : ℕ → Job → Bool
has_id id t = t.id == id

incr_reviews_today-counts :
    {X : Type 0} (repo day : String) (db : Db X)
    → (c : List CountRow) × ◌≡◌ {A = Result Error (Unit {0} × Db X)}
        (incr_reviews_today repo day db)
        (ok (tt, record db { counts = c }))
unfolding incr_reviews_today
incr_reviews_today-counts repo day db =
    elim (Option-cases (find_where (is_count repo day) db.counts)) [
      | inl e ↦ (record { repo = repo; day = day; count = 1 } ∷ db.counts, ground arith)
      | inr (r, e) ↦ (
        update_where (is_count repo day) (λ (x : CountRow). record x { count = x.count + 1 })
            db.counts,
        ground arith,
      )
    ]

get_job-missing :
    {X : Type 0} (id : ℕ) (db : Db X) → find_job id db.turns ≡ none → get_job id db ≡ err no_rows
unfolding get_job
get_job-missing id db e = ground arith

module _ {X : Type 0} (desk : Desk X) (T : List Job) (S : List SessionRow) where
  record Stands (db : Db X) : Type 0 where
    pub turns_are : db.turns ≡ T
    pub sessions_are : desk.sessions db.rest ≡ S

  -- At most one turn more than before is leased.
  pub record OneMore (id : ℕ) (db : Db X) : Type 0 where
    pub sessions_are : desk.sessions db.rest ≡ S
    pub counts :
        (q : Job → Bool)
        → ((t : Job) (hash : Option String) → q (record t { claim_token_hash = hash }) ≡ q t)
        → count_where q db.turns ≤ count_where q T + count_where (has_id id) T

  Post-call :
      (db : Db X) (r : Result Error X)
      → Stands db
      → ((y : X) → r ≡ ok y → desk.sessions y ≡ desk.sessions db.rest)
      → Post
          (λ (_ : Unit {0}). Stands)
          (elim r [ ok x ↦ ok (tt, record db { rest = x }) | err e ↦ err e ])
  Post-call db (ok x) s h = record {
    turns_are = s.turns_are;
    sessions_are = h x refl ∙ s.sessions_are;
  }
  Post-call db (err e) s h = tt

  Yields-call :
      (f : X → Result Error X)
      → ((x y : X) → f x ≡ ok y → desk.sessions y ≡ desk.sessions x)
      → Yields Stands (elsewhere f) (λ _. Stands)
  Yields-call f h = record { at = λ db s. Post-call db (f db.rest) s (h db.rest) }

  Yields-update : (id : ℕ) (j : Job) → j.id ≡ id → Yields Stands (update_job j) (λ _. OneMore id)
  unfolding update_job
  Yields-update id j e = record {
    at = λ db s. record {
      sessions_are = s.sessions_are;
      counts = λ q h.
          subst
            (λ k.
              count_where q (update_where (has_id j.id) (set_columns j) db.turns)
              ≤ count_where q T + count_where (has_id k) T)
            e (rw s.turns_are (count_where-update q (has_id j.id) (set_columns j) T));
    };
  }

  Yields-token :
      (id k : ℕ) (hash : String)
      → Yields (OneMore id) (set_turn_claim_token k hash) (λ _. OneMore id)
  unfolding set_turn_claim_token
  Yields-token id k hash = record {
    at = λ db s. record {
      sessions_are = s.sessions_are;
      counts = λ q h.
          let token : Option String = if str_eq hash "" then none else some hash in
          subst (λ n. n ≤ count_where q T + count_where (has_id id) T)
            (sym (
              count_where-same q (has_id k) (λ (t : Job). record t { claim_token_hash = token })
                db.turns λ t. h t token))
            (s.counts q h);
    };
  }

  Yields-incr :
      (id : ℕ) (repo day : String)
      → Yields (OneMore id) (incr_reviews_today repo day) (λ _. OneMore id)
  Yields-incr id repo day = record {
    at = λ db s.
        let (c, e) = incr_reviews_today-counts repo day db in
        subst (Post (λ (_ : Unit {0}). OneMore id)) (sym e)
          (record { sessions_are = s.sessions_are; counts = s.counts });
  }

  Yields-count :
      (calls : Calls X) (now id : ℕ) (repo day : String) (j : Job)
      → Yields (OneMore id) (count_review calls now repo day j) (λ _. OneMore id)
  unfolding count_review
  Yields-count calls now id repo day j =
      Yields-if (str_eq j.lane "review")
        (λ _. Yields-bind (Yields-incr id repo day) λ _. Yields-return day λ db s. s)
        λ _. Yields-return "" λ db s. s

  Yields-snapshot :
      (id : ℕ) (repo : String) (item rev : ℕ)
      → Yields (OneMore id) (load_snapshot repo item rev) (λ _. OneMore id)
  unfolding load_snapshot
  Yields-snapshot id repo item rev = record { at = λ db s. ground arith }

  Yields-job : (id : ℕ) → Yields Stands (get_job id) (λ j db. Stands db × (j.id ≡ id))
  Yields-job id = record {
    at = λ db s. elim (Option-cases (find_job id db.turns)) [
      | inl e ↦ subst (Post λ j next. Stands next × (j.id ≡ id)) (sym (get_job-missing id db e)) tt
      | inr (j, e) ↦
          subst (Post λ j next. Stands next × (j.id ≡ id)) (sym (get_job-found id j db e))
            (s, find_job-id id j db.turns e)
    ];
  }

  Yields-turn : (id : ℕ) → Yields Stands (get_turn id) (λ _. Stands)
  unfolding get_turn
  Yields-turn id = record { at = λ db s. ground arith }

module _ {X : Type 0} (calls : Calls X) (desk : Desk X) (keeps : KeepsSessions calls desk) (now : ℕ)
    (T : List Job) (S : List SessionRow) where
  Yields-grant :
      (exec_deadline : ℕ) (repo day token : String) (id : ℕ)
      → Yields
          (Stands desk T S)
          (grant_lease calls now exec_deadline repo day token id)
          (λ _. OneMore desk T S id)
  unfolding grant_lease
  Yields-grant exec_deadline repo day token id = Yields-bind (Yields-job desk T S id) λ j.
      Yields-given λ same. Yields-bind (Yields-turn desk T S id) λ turn.
        Yields-bind
          (Yields-call desk T S (calls.bind_session_guest turn.session)
            (keeps.bind_session_guest turn.session))
          λ _.
            Yields-bind
              (Yields-call desk T S calls.check_requested_secrets keeps.check_requested_secrets)
              λ _.
                Yields-bind
                  (Yields-call desk T S (calls.begin_measurement id now)
                    (keeps.begin_measurement id now))
                  λ _.
                    Yields-bind (Yields-update desk T S id (lease_job exec_deadline now j) same)
                      λ _. Yields-bind (Yields-token desk T S id j.id token) λ _.
                        Yields-bind
                          (Yields-count desk T S calls now id repo day
                            (lease_job exec_deadline now j))
                          λ counted.
                            Yields-bind
                              (Yields-snapshot desk T S id j.repo j.item j.pending_revision)
                              λ snap. Yields-return _ λ next q. q

module _ {X G : Type 0} (calls : Calls X) (desk : Desk X) (policy : Effective G)
    (keeps : KeepsSessions calls desk) (now exec_deadline : ℕ) (repo day token : String) where
  -- After a claim that leases a turn, the leased turns of its project are not above its limit, if one
  -- row at most has the turn's id, and the calls that a lease makes leave the sessions' columns that
  -- a claim reads.
  pub grant_chosen-bounded :
      (p : Project) (spent : Bool) (turn : Candidate) (c : Claim) (db next : Db X)
      → count_where (has_id turn.turn.id) db.turns ≤ 1
      → grant_chosen calls desk policy now exec_deadline repo day token p spent (some turn) db
        ≡ ok (some c, next)
      → count_leased_turns p.slug p.repos (desk.sessions next.rest) next.turns
        ≤ max_concurrent_leases p
  unfolding count_leased_turns
  grant_chosen-bounded p spent turn c db next one h =
      let (room, grants) =
        grant_chosen-some calls desk policy now exec_deadline repo day token p spent turn c db next
          h in
      let after =
        subst (Post λ _. OneMore desk db.turns (desk.sessions db.rest) turn.turn.id) grants (
          (Yields-grant calls desk keeps now db.turns (desk.sessions db.rest) exec_deadline repo day
              token turn.turn.id).at
            db (record { turns_are = refl; sessions_are = refl })) in
      let q = λ (t : Job).
        is_leased t.state
        && is_of_project p.slug p.repos (find_session_row t.session (desk.sessions db.rest)) in
      let few : count_where q next.turns ≤ max_concurrent_leases p =
        omega (arith, after.counts q (λ t hash. refl), room, one) in
      subst (λ ss. count_leased_turns p.slug p.repos ss next.turns ≤ max_concurrent_leases p)
        (sym after.sessions_are) few
