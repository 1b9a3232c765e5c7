-- ===== src/Refresh/Moves.antt =====
-- The queue of refresh requests as a state machine: the moves that its operations make, and what no
-- move breaks.
use rusui.Common.{
  ℕ, ◌+◌, ◌≤◌, ◌≡◌, refl, Bool, true, false, ◌&&◌, ◌||◌, not, none, some, List, [], ◌∷◌, String,
  arith, update_where, All, Bool-cases, Option-cases, inl, inr, ◌∙◌, ap, subst, sym,
}
use rusui.Refresh.{queued, running, idle, failed, Request}
use rusui.Refresh.Queue.{is_request, find_request, new_request, ask, ask_in, release}
use rusui.Refresh.Keys.{
  is_request-keys, find_request-key, find_request-own, find_request-update, new_request-apart,
  IsUnique, IsUnique-update,
}
use rusui.Refresh.Step.{take_by, miss, let_go}
use rusui.Refresh.Admit.{Admission, settled, ineligible, over_budget}

-- Whether a request is in one of its states: running with an owner, queued without one or to run once
-- more, idle with nothing left to do, or failed.
abbrev pub is_sound : Request → Bool
is_sound r = elim r.state [
  | queued ↦ not r.owner || r.needs_another
  | running ↦ r.owner
  | idle ↦ not r.owner && (not r.needs_another && not r.force)
  | failed ↦ not r.owner
]

abbrev pub IsSound : Request → Type 0
IsSound r = is_sound r ≡ true

-- A later row of the same request.
pub record Advance (r r' : Request) : Type 0 where
  pub same_repo : r'.repo ≡ r.repo
  pub same_item : r'.item ≡ r.item
  pub generation : r.generation ≤ r'.generation
  pub retries : r.retry_count ≤ r'.retry_count

pub Advance-refl : (r : Request) → Advance r r
Advance-refl r = ground arith

pub Advance-trans : (r s t : Request) → Advance r s → Advance s t → Advance r t
Advance-trans r s t a b = ground arith

-- What an operation may do to the rows that it selects, of the requests `rs`.
pub record IsMove (rs : List Request) (p : Request → Bool) (f : Request → Request) : Type 0 where
  pub same_repo : (r : Request) → (f r).repo ≡ r.repo
  pub same_item : (r : Request) → (f r).item ≡ r.item
  pub advance :
      (r : Request) → find_request r.repo r.item rs ≡ some r → p r ≡ true → Advance r (f r)
  pub sound : (r : Request) → IsSound r → IsSound (f r)

pub data Moved (rs rs' : List Request) : Type 0 where
  same : rs' ≡ rs → Moved rs rs'
  asked :
      (repo : String) (item : ℕ) (kind : String) (force : Bool)
      → rs' ≡ ask_in repo item kind force rs
      → Moved rs rs'
  updated :
      (p : Request → Bool) (f : Request → Request)
      → IsMove rs p f
      → rs' ≡ update_where p f rs
      → Moved rs rs'

module _ (rs : List Request) (p : Request → Bool) where
  pub IsMove-ask : (force : Bool) → IsMove rs p (ask force)
  IsMove-ask force = record {
    same_repo = λ r. ground arith;
    same_item = λ r. ground arith;
    advance = λ r e h. ground arith;
    sound = λ r h. ground arith;
  }

  pub IsMove-release : (now : ℕ) → IsMove rs p (release now)
  IsMove-release now = record {
    same_repo = λ r. ground arith;
    same_item = λ r. ground arith;
    advance = λ r e h. ground arith;
    sound = λ r h. ground arith;
  }

  pub IsMove-restart :
      IsMove rs p
        (λ (r : Request). record r { owner = false; state = queued; generation = r.generation + 1 })
  IsMove-restart = record {
    same_repo = λ r. ground arith;
    same_item = λ r. ground arith;
    advance = λ r e h. ground arith;
    sound = λ r h. ground arith;
  }

  pub IsMove-miss : IsMove rs p miss
  IsMove-miss = record {
    same_repo = λ r. ground arith;
    same_item = λ r. ground arith;
    advance = λ r e h. ground arith;
    sound = λ r h. ground arith;
  }

  pub IsMove-let_go : (a : Admission) (force : Bool) → IsMove rs p (let_go a force)
  IsMove-let_go settled force = record {
    same_repo = λ r. ground arith;
    same_item = λ r. ground arith;
    advance = λ r e h. ground arith;
    sound = λ r h. ground arith;
  }
  IsMove-let_go ineligible force = record {
    same_repo = λ r. ground arith;
    same_item = λ r. ground arith;
    advance = λ r e h. ground arith;
    sound = λ r h. ground arith;
  }
  IsMove-let_go over_budget force = record {
    same_repo = λ r. ground arith;
    same_item = λ r. ground arith;
    advance = λ r e h. ground arith;
    sound = λ r h. ground arith;
  }

pub IsMove-take :
    (rs : List Request) (r : Request) (until : ℕ)
    → find_request r.repo r.item rs ≡ some r
    → IsMove rs
        (λ (x : Request). is_request r.repo r.item x && not x.owner)
        (take_by until (r.generation + 1))
IsMove-take rs r until e = record {
  same_repo = λ x. ground arith;
  same_item = λ x. ground arith;
  advance = λ x f h. ground (arith, find_request-key r.repo r.item rs x);
  sound = λ x h. ground arith;
}

All-update :
    (p : Request → Bool) (f : Request → Request) (rs : List Request)
    → ((r : Request) → IsSound r → IsSound (f r))
    → All IsSound rs
    → All IsSound (update_where p f rs)
All-update p f [] m h = tt
All-update p f (r ∷ rs) m h = (ground (arith, m r h.0, h.0), All-update p f rs m h.1)

module _ (repo : String) (item : ℕ) (kind : String) (force : Bool) (rs : List Request) where
  pub ask_in-new :
      find_request repo item rs ≡ none
      → ask_in repo item kind force rs ≡ new_request repo item kind force ∷ rs
  ask_in-new e = ground arith

  pub ask_in-found :
      (r : Request)
      → find_request repo item rs ≡ some r
      → ask_in repo item kind force rs ≡ update_where (is_request repo item) (ask force) rs
  ask_in-found r e = ground arith

  ask_in-IsSound : All IsSound rs → All IsSound (ask_in repo item kind force rs)
  ask_in-IsSound h = elim (Option-cases (find_request repo item rs)) [
    | inl e ↦ subst (All IsSound) (sym (ask_in-new e)) (refl, h)
    | inr (r, e) ↦ subst (All IsSound) (sym (ask_in-found r e)) (
        All-update (is_request repo item) (ask force) rs
          (IsMove-ask rs (is_request repo item) force).sound h)
  ]

-- No move takes a request out of its states.
pub Moved-IsSound : (rs rs' : List Request) → Moved rs rs' → All IsSound rs → All IsSound rs'
Moved-IsSound rs rs' (same e) h = rw e h
Moved-IsSound rs rs' (asked repo item kind force e) h =
    rw e (ask_in-IsSound repo item kind force rs h)
Moved-IsSound rs rs' (updated p f m e) h = rw e (All-update p f rs m.sound h)

-- A queue in order: one row for each request, and each in one of its states.
pub record IsQueue (rs : List Request) : Type 0 where
  pub unique : IsUnique rs
  pub sound : All IsSound rs

abbrev pub FoundRow : String → ℕ → List Request → (Request → Type 0) → Type 0
FoundRow repo item rs P = (r : Request) × (find_request repo item rs ≡ some r) × P r

Advance-update :
    (repo : String) (item : ℕ) (p : Request → Bool) (f : Request → Request) (rs : List Request)
    → IsMove rs p f
    → (r : Request) → find_request repo item rs ≡ some r
    → FoundRow repo item (update_where p f rs) (Advance r)
Advance-update repo item p f rs m r e =
    let now =
      find_request-update repo item p f rs
        (λ x. is_request-keys repo item x (f x) (m.same_repo x) (m.same_item x)) r e in
    elim (Bool-cases (p r)) [
      | inl hit ↦ (f r, now ∙ rw hit refl, m.advance r (find_request-own repo item rs r e) hit)
      | inr miss ↦ (r, now ∙ rw miss refl, Advance-refl r)
    ]

-- No move leaves two rows of one request.
pub Moved-IsUnique : (rs rs' : List Request) → Moved rs rs' → IsUnique rs → IsUnique rs'
Moved-IsUnique rs rs' (same e) u = rw e u
Moved-IsUnique rs rs' (asked repo item kind force e) u =
    elim (Option-cases (find_request repo item rs)) [
      | inl missing ↦
          subst IsUnique (sym (e ∙ ask_in-new repo item kind force rs missing)) (missing, u)
      | inr (x, found) ↦
          (let m = IsMove-ask rs (is_request repo item) force in
            subst IsUnique (sym (e ∙ ask_in-found repo item kind force rs x found))
              (IsUnique-update rs (is_request repo item) (ask force) m.same_repo m.same_item u))
    ]
Moved-IsUnique rs rs' (updated p f m e) u =
    subst IsUnique (sym e) (IsUnique-update rs p f m.same_repo m.same_item u)

-- No move loses a request, or takes its generation or its count of retries back.
pub Moved-Advance :
    (rs rs' : List Request)
    → Moved rs rs'
    → (repo : String) (item : ℕ) (r : Request) → find_request repo item rs ≡ some r
    → FoundRow repo item rs' (Advance r)
Moved-Advance rs rs' (same e) repo item r f = (r, ap (find_request repo item) e ∙ f, Advance-refl r)
Moved-Advance rs rs' (asked repo' item' kind force e) repo item r f =
    elim (Option-cases (find_request repo' item' rs)) [
      | inl missing ↦
          (let apart = new_request-apart repo' item' kind force repo item rs r missing f in
            (
              r,
              ap (find_request repo item) (e ∙ ask_in-new repo' item' kind force rs missing)
                  ∙ (rw apart f),
              Advance-refl r,
            ))
      | inr (x, found) ↦
          rw (e, ask_in-found repo' item' kind force rs x found)
            (Advance-update repo item (is_request repo' item') (ask force) rs
              (IsMove-ask rs (is_request repo' item') force) r f)
    ]
Moved-Advance rs rs' (updated p f m e) repo item r g = rw e (Advance-update repo item p f rs m r g)
