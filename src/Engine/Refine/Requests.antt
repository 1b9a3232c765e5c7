-- ===== src/Engine/Refine/Requests.antt =====
-- The requests of internal/engine/followup.go, checks before the transaction included, against the
-- lease protocol.
use rusui.Common.{
  ℕ, refl, Bool, true, false, Option, none, some, String, Result, ok, err, if◌then◌else◌, List,
  str_eq,
}
use rusui.Store.{Job, Db, Error, archived, prompt_required, no_turns, run_tx}
use rusui.Store.Turns.{first_turn}
use rusui.Engine.{Calls, PromptFile, Session}
use rusui.Engine.Prompt.{
  prompt_follow_up, prompt_queued, prompt_steer, drop_queued_prompts, open_session, follow_up_tx,
  queued_tx, steer_tx,
}
use rusui.Engine.FollowUp.{drop_queued}
use rusui.Engine.Protocol.{Outcome, unchanged}
use rusui.Engine.Refine.Steps.{run_tx-Outcome}
use rusui.Engine.Refine.Prompt.{
  Yields-follow_up_tx, Yields-queued_tx, Yields-steer_tx, Yields-drop_queued,
}

module _ {X : Type 0} (calls : Calls X) where
  -- A step from one store to another.
  abbrev Steps : Db X → Db X → Type 0
  Steps db next = Outcome db.turns db.receipts next.turns next.receipts

  stays : (db : Db X) → Steps db db
  stays db = unchanged refl refl

  pub Steps-prompt_follow_up :
      (now session : ℕ) (text : String) (files : List PromptFile) (db : Db X)
      → Steps db (prompt_follow_up calls now session text files db).0
  unfolding prompt_follow_up
  Steps-prompt_follow_up now session text files db =
      opened (open_session calls now true session text files db)
    where
      opened :
          (r : Result Error (Session × Job))
          → Steps db
              (elim r as (λ _. Db X × Result Error (ℕ × ℕ)) [
                | err e ↦ (db, err e)
                | ok (sess, turn) ↦
                    run_tx (follow_up_tx calls now sess session turn.id text files) db
              ]).0
      opened (err e) = stays db
      opened (ok (sess, turn)) =
          run_tx-Outcome (follow_up_tx calls now sess session turn.id text files) db
            λ T R. Yields-follow_up_tx calls now T R sess session turn.id text files

  pub Steps-prompt_queued :
      (now session : ℕ) (text : String) (files : List PromptFile) (db : Db X)
      → Steps db (prompt_queued calls now session text files db).0
  unfolding prompt_queued
  Steps-prompt_queued now session text files db =
      opened (open_session calls now false session text files db)
    where
      opened :
          (r : Result Error (Session × Job))
          → Steps db
              (elim r as (λ _. Db X × Result Error (ℕ × ℕ × Bool)) [
                | err e ↦ (db, err e)
                | ok (sess, turn) ↦ run_tx (queued_tx calls now sess session turn.id text files) db
              ]).0
      opened (err e) = stays db
      opened (ok (sess, turn)) =
          run_tx-Outcome (queued_tx calls now sess session turn.id text files) db
            λ T R. Yields-queued_tx calls now T R sess session turn.id text files

  -- `prompt_steer`, once the session is read.
  abbrev asked : ℕ → ℕ → String → Db X → Session → Db X × Result Error (ℕ × ℕ × Bool)
  asked now session text db sess =
      if sess.archived then (db, err archived) else elim (first_turn session db) [
        | none ↦ (db, err no_turns)
        | some turn ↦ run_tx (steer_tx calls now sess session turn.id text) db
      ]

  pub Steps-prompt_steer :
      (now session : ℕ) (text : String) (db : Db X)
      → Steps db (prompt_steer calls now session text db).0
  unfolding prompt_steer
  Steps-prompt_steer now session text db =
      elim (str_eq text "")
        as (λ b.
          Steps db
            (if b
              then (db, err prompt_required)
              else elim (calls.get_session session db.rest)
                  as (λ _. Db X × Result Error (ℕ × ℕ × Bool)) [
                    | err e ↦ (db, err e)
                    | ok sess ↦ asked now session text db sess
                  ]).0) [ true ↦ stays db | false ↦ opened (calls.get_session session db.rest) ]
    where
      turned :
          (sess : Session) (found : Option Job)
          → Steps db
              (elim found as (λ _. Db X × Result Error (ℕ × ℕ × Bool)) [
                | none ↦ (db, err no_turns)
                | some turn ↦ run_tx (steer_tx calls now sess session turn.id text) db
              ]).0
      turned sess none = stays db
      turned sess (some turn) =
          run_tx-Outcome (steer_tx calls now sess session turn.id text) db
            λ T R. Yields-steer_tx calls now T R sess session turn.id text

      open_or_archived :
          (sess : Session) (b : Bool)
          → Steps db
              (if b
                then (db, err archived)
                else elim (first_turn session db) as (λ _. Db X × Result Error (ℕ × ℕ × Bool)) [
                  | none ↦ (db, err no_turns)
                  | some turn ↦ run_tx (steer_tx calls now sess session turn.id text) db
                ]).0
      open_or_archived sess true = stays db
      open_or_archived sess false = turned sess (first_turn session db)

      opened :
          (r : Result Error Session)
          → Steps db
              (elim r as (λ _. Db X × Result Error (ℕ × ℕ × Bool)) [
                | err e ↦ (db, err e)
                | ok sess ↦ asked now session text db sess
              ]).0
      opened (err e) = stays db
      opened (ok sess) = open_or_archived sess sess.archived

  pub Steps-drop_queued_prompts :
      (now session : ℕ) (db : Db X) → Steps db (drop_queued_prompts calls now session db).0
  unfolding drop_queued_prompts
  Steps-drop_queued_prompts now session db = turned (first_turn session db)
    where
      turned :
          (found : Option Job)
          → Steps db
              (elim found as (λ _. Db X × Result Error ℕ) [
                | none ↦ (db, err no_turns)
                | some turn ↦ run_tx (drop_queued calls session turn.id) db
              ]).0
      turned none = stays db
      turned (some turn) =
          run_tx-Outcome (drop_queued calls session turn.id) db
            λ T R. Yields-drop_queued calls now T R session turn.id
