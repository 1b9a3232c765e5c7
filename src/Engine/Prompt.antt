-- ===== src/Engine/Prompt.antt =====
-- internal/engine/followup.go: the prompt handlers of a session. Each checks the session first, then
-- works in one transaction on the session's first turn.
use rusui.Common.{
  ℕ, Bool, true, false, ◌&&◌, Option, none, some, List, [], String, Result, ok, err, if◌then◌else◌,
  leb, ltb, str_eq,
}
use rusui.Store.{
  Job, FollowUpRow, Db, Error, paused, archived, retention_expired, prompt_required, no_turns, Tx,
  ◌>>=◌, ◌>>◌, return, elsewhere, run_tx,
}
use rusui.Store.Turns.{get_job, first_turn, is_leased}
use rusui.Store.FollowUps.{next_follow_up}
use rusui.Store.Steers.{enqueue_steer}
use rusui.Engine.Pause.{is_paused}
use rusui.Engine.{Calls, Session, PromptFile}
use rusui.Engine.FollowUp.{enqueue_prompt, drop_queued}

-- `t != nil && now.Before(*t)`.
abbrev pub is_before : ℕ → Option ℕ → Bool
is_before now none = false
is_before now (some t) = ltb now t

module _ {X : Type 0} (calls : Calls X) (now : ℕ) where
  -- `store.Paused`, as a guard.
  unfoldable pub refuse_paused : String → Tx X (Unit {0})
  refuse_paused project db = elim (is_paused calls project db.rest) [
    | ok b ↦ if b then err paused else ok (tt, db)
    | err e ↦ err e
  ]

  -- The session, and its first turn, of a request with this prompt and these files.
  unfoldable pub open_session :
      Bool → ℕ → String → List PromptFile → Db X → Result Error (Session × Job)
  open_session expires session prompt files db =
      if str_eq prompt ""
      then err prompt_required
      else elim (calls.valid_prompt_files prompt files) [
        | some e ↦ err e
        | none ↦ elim (calls.get_session session db.rest) [
          | err e ↦ err e
          | ok sess ↦
              if sess.archived
              then err archived
              else if expires && sess.retention_expired
              then err retention_expired
              else elim (first_turn session db) [
                | none ↦ err no_turns
                | some turn ↦ ok (sess, turn)
              ]
        ]
      ]

  unfoldable pub follow_up_tx : Session → ℕ → ℕ → String → List PromptFile → Tx X (ℕ × ℕ)
  unfolding refuse_paused
  follow_up_tx sess session turn prompt files = do
    refuse_paused sess.project
    j ← get_job turn
    entry ← enqueue_prompt calls j session prompt false files now
    return (j.id, entry.1.pending_revision)

  -- `promptFollowUp`: the turn and its pending revision.
  unfoldable pub prompt_follow_up :
      ℕ → String → List PromptFile → Db X → Db X × Result Error (ℕ × ℕ)
  unfolding open_session follow_up_tx
  prompt_follow_up session prompt files db = elim (open_session true session prompt files db) [
    | err e ↦ (db, err e)
    | ok (sess, turn) ↦ run_tx (follow_up_tx sess session turn.id prompt files) db
  ]

  abbrev pub is_held : ℕ → Option FollowUpRow → Bool
  is_held seq none = false
  is_held seq (some next) = leb next.seq seq

  unfoldable pub queued_tx : Session → ℕ → ℕ → String → List PromptFile → Tx X (ℕ × ℕ × Bool)
  unfolding refuse_paused
  queued_tx sess session turn prompt files = do
    refuse_paused sess.project
    j ← get_job turn
    entry ← enqueue_prompt calls j session prompt true files now
    next ← next_follow_up session
    elsewhere (calls.insert_operator_steer entry.0 entry.1 prompt "queued")
    return (j.id, entry.1.pending_revision, is_held entry.0 next)

  -- `promptQueued`: also whether the prompt still waits.
  unfoldable pub prompt_queued :
      ℕ → String → List PromptFile → Db X → Db X × Result Error (ℕ × ℕ × Bool)
  unfolding open_session queued_tx
  prompt_queued session prompt files db = elim (open_session false session prompt files db) [
    | err e ↦ (db, err e)
    | ok (sess, turn) ↦ run_tx (queued_tx sess session turn.id prompt files) db
  ]

  -- A lease that can still take a steer.
  abbrev pub is_live : Job → Bool
  is_live j =
      is_leased j.state
      && (ltb 0 j.lease_generation
          && (is_before now j.lease_expires_at && is_before now j.execution_deadline_at))

  unfoldable pub steer_tx : Session → ℕ → ℕ → String → Tx X (ℕ × ℕ × Bool)
  unfolding refuse_paused
  steer_tx sess session turn prompt = do
    refuse_paused sess.project
    j ← get_job turn
    if is_live j
        then (do
          steer ← enqueue_steer session j.id j.lease_generation prompt
          elsewhere (calls.insert_operator_steer steer j prompt "steer")
          return (j.id, j.pending_revision, true))
        else (do
          entry ← enqueue_prompt calls j session prompt false [] now
          elsewhere (calls.insert_operator_steer entry.0 entry.1 prompt "follow_up")
          return (j.id, entry.1.pending_revision, false))

  -- `PromptSteer`: a steer of the running turn, or else a follow-up.
  unfoldable pub prompt_steer : ℕ → String → Db X → Db X × Result Error (ℕ × ℕ × Bool)
  unfolding steer_tx
  prompt_steer session prompt db =
      if str_eq prompt ""
      then (db, err prompt_required)
      else elim (calls.get_session session db.rest) [
        | err e ↦ (db, err e)
        | ok sess ↦ if sess.archived then (db, err archived) else elim (first_turn session db) [
          | none ↦ (db, err no_turns)
          | some turn ↦ run_tx (steer_tx sess session turn.id prompt) db
        ]
      ]

  -- `DropQueuedPrompts`.
  unfoldable pub drop_queued_prompts : ℕ → Db X → Db X × Result Error ℕ
  drop_queued_prompts session db = elim (first_turn session db) [
    | none ↦ (db, err no_turns)
    | some turn ↦ run_tx (drop_queued calls session turn.id) db
  ]
