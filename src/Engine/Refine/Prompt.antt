-- ===== src/Engine/Refine/Prompt.antt =====
-- The prompt handlers of internal/engine/followup.go against the lease protocol.
use rusui.Common.{ℕ, true, false, List, [], String, arith, ◌==◌}
use rusui.Store.{Job, Receipt, elsewhere}
use rusui.Store.Logic.{
  Yields, Keeps, Holds, Keeps-bind, Keeps-return, Keeps-elsewhere, Keeps-then, Yields-if,
  Yields-fact, Yields-bind,
}
use rusui.Store.Frame.{
  Keeps-next_follow_up, Keeps-enqueue_steer, Keeps-drop_queued_prompts, Yields-get_job,
}
use rusui.Engine.{Calls, Session, PromptFile}
use rusui.Engine.FollowUp.{drop_queued, unless_leased}
use rusui.Engine.Prompt.{refuse_paused, follow_up_tx, queued_tx, steer_tx, is_live}
use rusui.Engine.Refine.Steps.{Reached, Yields-idle, Yields-update, Yields-after, find_job_self}
use rusui.Engine.Refine.FollowUp.{Yields-enqueue_prompt, Yields-promote_follow_up, revised}

module _ {X : Type 0} (calls : Calls X) (now : ℕ) (T : List Job) (R : List Receipt) where
  Keeps-refuse_paused : (project : String) → Keeps (refuse_paused calls now project)
  unfolding refuse_paused
  Keeps-refuse_paused project = record { at = λ T R db p. ground arith }

  Keeps-insert_operator_steer :
      (id : ℕ) (j : Job) (prompt kind : String)
      → Keeps (elsewhere (calls.insert_operator_steer id j prompt kind))
  Keeps-insert_operator_steer id j prompt kind =
      Keeps-elsewhere (calls.insert_operator_steer id j prompt kind)

  pub Yields-follow_up_tx :
      (sess : Session) (session turn : ℕ) (prompt : String) (files : List PromptFile)
      → Yields
          (Holds T R)
          (follow_up_tx calls now sess session turn prompt files)
          (λ _ db. Reached T R db)
  unfolding follow_up_tx
  Yields-follow_up_tx sess session turn prompt files =
      Keeps-then (Keeps-refuse_paused sess.project) λ _.
        Yields-fact (Yields-get_job T R turn) λ j found.
          Yields-bind
            (Yields-enqueue_prompt calls T R j session prompt false files now
              (find_job_self turn j T found))
            λ entry. Yields-after (Keeps-return _)

  pub Yields-queued_tx :
      (sess : Session) (session turn : ℕ) (prompt : String) (files : List PromptFile)
      → Yields
          (Holds T R)
          (queued_tx calls now sess session turn prompt files)
          (λ _ db. Reached T R db)
  unfolding queued_tx
  Yields-queued_tx sess session turn prompt files =
      Keeps-then (Keeps-refuse_paused sess.project) λ _.
        Yields-fact (Yields-get_job T R turn) λ j found.
          Yields-bind
            (Yields-enqueue_prompt calls T R j session prompt true files now
              (find_job_self turn j T found))
            λ entry. Yields-after (
              Keeps-bind (Keeps-next_follow_up session) λ next.
                Keeps-bind (Keeps-insert_operator_steer entry.0 entry.1 prompt "queued")
                  λ _. Keeps-return _)

  pub Yields-steer_tx :
      (sess : Session) (session turn : ℕ) (prompt : String)
      → Yields (Holds T R) (steer_tx calls now sess session turn prompt) (λ _ db. Reached T R db)
  unfolding steer_tx
  Yields-steer_tx sess session turn prompt = Keeps-then (Keeps-refuse_paused sess.project) λ _.
      Yields-fact (Yields-get_job T R turn) λ j found.
        Yields-if (is_live calls now j)
          (λ _. Yields-idle (
            Keeps-bind (Keeps-enqueue_steer session j.id j.lease_generation prompt) λ steer.
              Keeps-bind (Keeps-insert_operator_steer steer j prompt "steer") λ _. Keeps-return _))
          λ _.
            Yields-bind
              (Yields-enqueue_prompt calls T R j session prompt false [] now
                (find_job_self turn j T found))
              λ entry. Yields-after (
                Keeps-bind (Keeps-insert_operator_steer entry.0 entry.1 prompt "follow_up")
                  λ _. Keeps-return _)

  pub Yields-drop_queued :
      (session turn : ℕ)
      → Yields (Holds T R) (drop_queued calls session turn) (λ _ db. Reached T R db)
  unfolding drop_queued
  Yields-drop_queued session turn = Keeps-then (Keeps-drop_queued_prompts session) λ n.
      Yields-if (n == 0) (λ _. Yields-idle (Keeps-return 0))
        λ _. Yields-fact (Yields-get_job T R turn) λ j found.
          Yields-fact (Yields-promote_follow_up calls T R j session) λ j' f.
            Yields-if (j'.pending_revision == j.pending_revision)
              (λ _. Yields-idle (Keeps-return n))
              λ _.
                Yields-bind
                  (Yields-update (unless_leased calls j')
                    (revised calls T R j j' (find_job_self turn j T found) f))
                  λ _. Yields-after (Keeps-return n)
