-- ===== src/Engine/Eligible.antt =====
-- Which queued turn a claim takes: what every candidate satisfies, and the order of the search.
use rusui.Common.{
  ◌≡◌, refl, Bool, true, false, Option, none, some, List, [], ◌∷◌, ◌++◌, String, Result, ok, arith,
  if◌then◌else◌, str_eq, str_in, All, Result-cases, inl, inr, ap, ◌∙◌, subst, sym,
}
use rusui.Store.{queued, Job, Db, Error, Tx, return}
use rusui.Store.Logic.{Post, Yields, Yields-bind, Yields-if, Yields-return}
use rusui.Store.Run.{bind-ok, bind-err, err-ok}
use rusui.Policy.{Effective}
use rusui.Engine.Scope.{SessionRow, Desk, Choice, chosen, not_allowed, refused}
use rusui.Engine.Sorted.{
  IsSorted, All-weaken, All-order, All-add, All-join, IsSorted-order, IsSorted-append,
}
use rusui.Engine.Choose.{
  Candidate, find_session_row, candidate_of, join_turns, is_before, queued_turns, with_room,
  halted_tx, guest_tx, may_run, choose_turn,
}

-- A candidate is a row of the join that the claim may take.
pub record IsListed (keys lanes : List String) (tenant : String) (sessions : List SessionRow)
    (c : Candidate) : Type 0 where
  pub session_is : find_session_row c.turn.session sessions ≡ some c.session
  pub of_key : str_in c.session.repo keys ≡ true
  pub not_archived : c.session.archived ≡ false
  pub is_waiting : c.turn.state ≡ queued
  pub of_lane : str_in c.turn.lane lanes ≡ true
  pub of_tenant : str_eq c.session.tenant tenant ≡ true

module _ (keys lanes : List String) (tenant : String) (sessions : List SessionRow) where
  candidate_of-IsListed :
      (t : Job) (c : Candidate)
      → candidate_of keys lanes tenant sessions t ≡ some c
      → IsListed keys lanes tenant sessions c
  candidate_of-IsListed t c e = ground arith

  join_turns-IsListed :
      (turns : List Job)
      → All (IsListed keys lanes tenant sessions) (join_turns keys lanes tenant sessions turns)
  join_turns-IsListed [] = tt
  join_turns-IsListed (t ∷ ts) =
      All-add (IsListed keys lanes tenant sessions) (candidate_of keys lanes tenant sessions t)
        (join_turns keys lanes tenant sessions ts) (candidate_of-IsListed t)
        (join_turns-IsListed ts)

  -- The candidates are those that the claim may take, and in order.
  pub queued_turns-IsListed :
      (turns : List Job)
      → All (IsListed keys lanes tenant sessions) (queued_turns keys lanes tenant sessions turns)
  unfolding queued_turns
  queued_turns-IsListed turns =
      All-order (IsListed keys lanes tenant sessions) (join_turns keys lanes tenant sessions turns)
        (join_turns-IsListed turns)

  pub queued_turns-IsSorted :
      (turns : List Job) → IsSorted (queued_turns keys lanes tenant sessions turns)
  unfolding queued_turns
  queued_turns-IsSorted turns = IsSorted-order (join_turns keys lanes tenant sessions turns)

found_ok :
    {X : Type 0} (x c : Candidate) (db next : Db X)
    → ◌≡◌ {A = Result Error (Option Candidate × Db X)} (ok (some x, db)) (ok (some c, next))
    → (x ≡ c) × (db ≡ next)
found_ok x c db next h = (cc, cc)

module _ {X G : Type 0} (desk : Desk X) (policy : Effective G) (slug : String) (db : Db X) where
  -- A test that only reads.
  abbrev Reads : {A : Type 0} → Tx X A → Type 0
  Reads m = Yields (λ next. next ≡ db) m (λ a next. next ≡ db)

  with_room-Reads : (choice : Choice) (s : SessionRow) → Reads (with_room desk policy choice s)
  with_room-Reads not_allowed s = record { at = λ next h. h }
  with_room-Reads (refused e) s = record { at = λ next h. tt }
  with_room-Reads (chosen name) s = record { at = λ next h. h }

  may_run-Reads : (c : Candidate) → Reads (may_run desk policy slug c)
  unfolding may_run
  may_run-Reads c =
      Yields-if (desk.is_busy c.session.environment) (λ _. Yields-return false λ next h. h)
        λ _.
          Yields-bind {m = halted_tx desk policy c.session slug}
            (record { at = λ next h. ground arith })
            λ halted.
              Yields-if halted (λ _. Yields-return false λ next h. h)
                λ _.
                  Yields-bind {m = guest_tx desk policy c.session.id}
                    (record { at = λ next h. ground arith }) λ name. with_room-Reads _ c.session

  may_run-reads :
      (c : Candidate) (b : Bool) (next : Db X)
      → may_run desk policy slug c db ≡ ok (b, next)
      → next ≡ db
  may_run-reads c b next h = subst (Post λ a d. d ≡ db) h ((may_run-Reads c).at db refl)

  choose_turn-Reads : (cs : List Candidate) → Reads (choose_turn desk policy slug cs)
  unfolding choose_turn
  choose_turn-Reads [] = Yields-return none λ next h. h
  choose_turn-Reads (c ∷ cs) =
      Yields-bind (may_run-Reads c)
        λ runs. Yields-if runs (λ _. Yields-return (some c) λ next h. h) λ _. choose_turn-Reads cs

  pub choose_turn-reads :
      (cs : List Candidate) (found : Option Candidate) (next : Db X)
      → choose_turn desk policy slug cs db ≡ ok (found, next)
      → next ≡ db
  choose_turn-reads cs found next h =
      subst (Post λ a d. d ≡ db) h ((choose_turn-Reads cs).at db refl)

  -- A search that finds a turn has passed over those before it, none of which may run.
  pub record IsFirst (c : Candidate) (cs : List Candidate) : Type 0 where
    pub passed : List Candidate
    pub left : List Candidate
    pub split : cs ≡ passed ++ (c ∷ left)
    pub runs : may_run desk policy slug c db ≡ ok (true, db)
    pub none_runs : All (λ (x : Candidate). may_run desk policy slug x db ≡ ok (false, db)) passed

  pass :
      (x : Candidate) (cs : List Candidate) (c : Candidate) (next : Db X)
      → may_run desk policy slug x db ≡ ok (false, db)
      → (next ≡ db) × IsFirst c cs
      → (next ≡ db) × IsFirst c (x ∷ cs)
  pass x cs c next e (same, f) = (
    same,
    record {
      passed = x ∷ f.passed;
      left = f.left;
      split = ap (λ ys. x ∷ ys) f.split;
      runs = f.runs;
      none_runs = (e, f.none_runs);
    },
  )

  stop :
      (x c : Candidate) (cs : List Candidate) (next : Db X)
      → may_run desk policy slug x db ≡ ok (true, db)
      → x ≡ c
      → db ≡ next
      → (next ≡ db) × IsFirst c (x ∷ cs)
  stop x c cs next e same d = (
    sym d,
    record {
      passed = [];
      left = cs;
      split = ap (λ y. y ∷ cs) same;
      runs = ap (λ y. may_run desk policy slug y db) (sym same) ∙ e;
      none_runs = tt;
    },
  )

  abbrev found_or : Candidate → List Candidate → Bool → Tx X (Option Candidate)
  found_or x cs runs = if runs then return (some x) else choose_turn desk policy slug cs

  pub choose_turn-IsFirst :
      (cs : List Candidate) (c : Candidate) (next : Db X)
      → choose_turn desk policy slug cs db ≡ ok (some c, next)
      → (next ≡ db) × IsFirst c cs
  unfolding choose_turn
  choose_turn-IsFirst [] c next h = absurd (cc)
  choose_turn-IsFirst (x ∷ cs) c next h = elim (Result-cases (may_run desk policy slug x db)) [
    | inl ((true, n), e) ↦
        let here : may_run desk policy slug x db ≡ ok (true, db) =
          e ∙ ap (λ d. ok (true, d)) (may_run-reads x true n e) in
        let stops =
          found_ok x c db next
            (sym (bind-ok (may_run desk policy slug x) (found_or x cs) db true db here) ∙ h) in
        stop x c cs next here stops.0 stops.1
    | inl ((false, n), e) ↦
        let here : may_run desk policy slug x db ≡ ok (false, db) =
          e ∙ ap (λ d. ok (false, d)) (may_run-reads x false n e) in
        let goes : choose_turn desk policy slug cs db ≡ ok (some c, next) =
          sym (bind-ok (may_run desk policy slug x) (found_or x cs) db false db here) ∙ h in
        pass x cs c next here (choose_turn-IsFirst cs c next goes)
    | inr (z, e) ↦ absurd (
        err-ok z (some c, next)
          (sym (bind-err (may_run desk policy slug x) (found_or x cs) db z e) ∙ h))
  ]

run-other : {b : Bool} → b ≡ true → b ≡ false → ⊥
run-other h g = cc

not_before-run :
    (c x : Candidate)
    → str_eq c.turn.lane "run" ≡ false
    → str_eq x.turn.lane "run" ≡ true
    → is_before c x ≡ true
    → ⊥
not_before-run c x l r b = ground arith

module _ {X G : Type 0} (desk : Desk X) (policy : Effective G) (slug : String) (db : Db X)
    (keys lanes : List String) (tenant : String) (sessions : List SessionRow)
    (turns : List Job) where
  -- A search over the queued turns takes a run if any run may run: where it takes another turn, no run
  -- among the candidates may run.
  pub choose_turn-runs :
      (c : Candidate) (next : Db X)
      → choose_turn desk policy slug (queued_turns keys lanes tenant sessions turns) db
        ≡ ok (some c, next)
      → str_eq c.turn.lane "run" ≡ false
      → All
          (λ (x : Candidate).
            str_eq x.turn.lane "run" ≡ true → may_run desk policy slug x db ≡ ok (false, db))
          (queued_turns keys lanes tenant sessions turns)
  choose_turn-runs c next h l =
      let cs = queued_turns keys lanes tenant sessions turns in
      let (_, f) = choose_turn-IsFirst desk policy slug db cs c next h in
      let sorted =
        IsSorted-append f.passed (c ∷ f.left)
          (subst IsSorted f.split (queued_turns-IsSorted keys lanes tenant sessions turns)) in
      subst (All _) (sym f.split) (
        All-join _ f.passed (c ∷ f.left) (All-weaken _ f.passed (λ x e r. e) f.none_runs) (
          (λ r. absurd (run-other r l)),
          All-weaken _ f.left (λ x b r. absurd (not_before-run c x l r b)) sorted.0,
        ))
