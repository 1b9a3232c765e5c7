-- ===== src/Engine/Choose.antt =====
-- internal/engine/engine.go `ClaimToken`: the queued turns that a claim may take, in order, and the
-- first that may run; with the counts of internal/store/leases.go.
use rusui.Common.{
  ℕ, Bool, true, false, ◌&&◌, ◌||◌, not, Option, none, some, List, [], ◌∷◌, String, ok, err,
  if◌then◌else◌, ◌==◌, leb, str_eq, str_in, find_where, count_where, order_by,
}
use rusui.Store.{State, queued, Job, Tx, ◌>>=◌, return}
use rusui.Store.Turns.{is_leased}
use rusui.Policy.{Effective}
use rusui.Policy.Parse.{find_project}
use rusui.Engine.Scope.{
  SessionRow, Desk, max_concurrent_leases, Choice, chosen, not_allowed, refused, choose_guest,
}

pub record Candidate : Type 0 where
  pub turn : Job
  pub session : SessionRow

abbrev pub find_session_row : ℕ → List SessionRow → Option SessionRow
find_session_row id = find_where (λ (s : SessionRow). s.id == id)

abbrev pub is_queued : State → Bool
is_queued queued = true
is_queued _ = false

abbrev pub may_claim : List String → List String → String → Job → SessionRow → Bool
may_claim keys lanes tenant t s =
    str_in s.repo keys
    && (not s.archived && (is_queued t.state && (str_in t.lane lanes && str_eq s.tenant tenant)))

abbrev pub candidate_of :
    List String → List String → String → List SessionRow → Job → Option Candidate
candidate_of keys lanes tenant sessions t = elim (find_session_row t.session sessions) [
  | none ↦ none
  | some s ↦
      if may_claim keys lanes tenant t s then some (record { turn = t; session = s }) else none
]

abbrev pub add_found : Option Candidate → List Candidate → List Candidate
add_found none cs = cs
add_found (some c) cs = c ∷ cs

abbrev pub join_turns :
    List String → List String → String → List SessionRow → List Job → List Candidate
join_turns keys lanes tenant sessions [] = []
join_turns keys lanes tenant sessions (t ∷ ts) =
    let rest = join_turns keys lanes tenant sessions ts in
    add_found (candidate_of keys lanes tenant sessions t) rest

-- ORDER BY CASE WHEN t.lane='run' THEN 0 ELSE 1 END, t.id.
abbrev pub is_before : Candidate → Candidate → Bool
is_before a b =
    if str_eq a.turn.lane "run"
    then not (str_eq b.turn.lane "run") || leb a.turn.id b.turn.id
    else not (str_eq b.turn.lane "run") && leb a.turn.id b.turn.id

unfoldable pub queued_turns :
    List String → List String → String → List SessionRow → List Job → List Candidate
queued_turns keys lanes tenant sessions turns =
    order_by is_before (join_turns keys lanes tenant sessions turns)

-- `countLeasedTurns`.
abbrev pub is_of_project : String → List String → Option SessionRow → Bool
is_of_project project repos none = false
is_of_project project repos (some s) = str_eq s.project project || str_in s.repo repos

unfoldable pub count_leased_turns : String → List String → List SessionRow → List Job → ℕ
count_leased_turns project repos sessions = count_where λ (t : Job).
    is_leased t.state && is_of_project project repos (find_session_row t.session sessions)

-- `CountTreeLeasedTurnsTx`: the leased turns of a root session and its children.
abbrev pub is_in_tree : ℕ → Option SessionRow → Bool
is_in_tree root none = false
is_in_tree root (some s) = s.id == root || s.parent == root

abbrev pub root_of : SessionRow → ℕ
root_of s = if s.parent == 0 then s.id else s.parent

unfoldable pub count_tree_leased_turns : ℕ → List SessionRow → List Job → ℕ
count_tree_leased_turns root sessions =
    count_where
      λ (t : Job). is_leased t.state && is_in_tree root (find_session_row t.session sessions)

abbrev pub root_project : SessionRow → List SessionRow → String
root_project s sessions = elim (find_session_row s.parent sessions) [
  | none ↦ s.project
  | some p ↦ p.project
]

module _ {X G : Type 0} (desk : Desk X) (policy : Effective G) where
  -- A root with no project is no tree; one whose project is unknown or at its limit may not lease.
  abbrev pub tree_is_full : SessionRow → List SessionRow → List Job → Bool
  tree_is_full s sessions turns =
      if str_eq (root_project s sessions) ""
      then false
      else elim (find_project policy (root_project s sessions)) [
        | none ↦ true
        | some p ↦
            leb (max_concurrent_leases p) (count_tree_leased_turns (root_of s) sessions turns)
      ]

  abbrev pub halted_tx : SessionRow → String → Tx X Bool
  halted_tx s slug db =
      elim (desk.halted s.tenant (if str_eq s.project "" then slug else s.project) s.act db.rest) [
        | ok b ↦ ok (b, db)
        | err e ↦ err e
      ]

  abbrev pub guest_tx : ℕ → Tx X String
  guest_tx session db = elim (desk.session_guest session db.rest) [
    | ok name ↦ ok (name, db)
    | err e ↦ err e
  ]

  abbrev pub with_room : Choice → SessionRow → Tx X Bool
  with_room not_allowed s db = ok (false, db)
  with_room (refused e) s db = err e
  with_room (chosen name) s db = ok (not (tree_is_full s (desk.sessions db.rest) db.turns), db)

  -- Whether a candidate may run: no operation on its environment, no halt, a guest that the project
  -- allows, and room in its tree.
  unfoldable pub may_run : String → Candidate → Tx X Bool
  may_run slug c =
      if desk.is_busy c.session.environment
      then return false
      else (halted_tx c.session slug >>= λ halted.
          if halted
          then return false
          else (guest_tx c.session.id >>= λ name.
              with_room
                (choose_guest desk.check_guest desk.default_guest (find_project policy slug) name)
                c.session))

  -- The first candidate that may run.
  unfoldable pub choose_turn : String → List Candidate → Tx X (Option Candidate)
  unfolding may_run
  choose_turn slug [] = return none
  choose_turn slug (c ∷ rest) =
      may_run slug c >>= λ runs. if runs then return (some c) else choose_turn slug rest
