-- ===== src/Engine/Refine/FollowUp.antt =====
-- internal/engine/followup.go against the lease protocol: a prompt that becomes the pending revision
-- changes the revision and the retry count of the job in hand, and no turn or receipt in the store.
use rusui.Common.{ℕ, ◌+◌, ◌≡◌, refl, ◌⊎◌, inl, inr, Bool, Option, none, some, List, String, arith}
use rusui.Store.{Job, Receipt, FollowUpRow}
use rusui.Store.Turns.{load_snapshot, find_job}
use rusui.Store.Logic.{
  Yields, Keeps, Holds, Keeps-return, Keeps-elsewhere, Keeps-then, Yields-return, Yields-if,
  Yields-fact,
}
use rusui.Store.Frame.{
  Keeps-get_turn, Keeps-save_snapshot, Keeps-next_follow_up, Keeps-consume_follow_up,
  Keeps-has_earlier_unacknowledged_steer, Keeps-enqueue_follow_up, put,
}
use rusui.Engine.{Calls, PromptFile}
use rusui.Engine.Protocol.{revise, Outcome, silent}
use rusui.Engine.Refine.Steps.{Reached, Replaced-put, Yields-settle}
use rusui.Engine.FollowUp.{
  pinned_item, apply_follow_up, apply_found, apply_next_follow_up, promote_found, promote_follow_up,
  reserve_fan_out, unless_leased, enqueue_prompt,
}

-- The job before and after a prompt may have become its pending revision.
abbrev pub FollowedUp : Job → Job → Type 0
FollowedUp j j' =
    (j' ≡ j) ⊎ (j' ≡ record j { pending_revision = j.pending_revision + 1; retry_count = 0 })

Keeps-pinned_item : {X : Type 0} (j : Job) (prompt : String) → Keeps {X = X} (pinned_item j prompt)
unfolding load_snapshot
Keeps-pinned_item j prompt = record { at = λ T R db p. ground arith }

module _ {X : Type 0} (calls : Calls X) (T : List Job) (R : List Receipt) where
  pub Yields-apply_follow_up :
      (j : Job) (session seq : ℕ) (prompt : String)
      → Yields
          (Holds T R)
          (apply_follow_up calls j session seq prompt)
          (λ j' db. Holds T R db × FollowedUp j j')
  unfolding apply_follow_up
  Yields-apply_follow_up j session seq prompt = Keeps-then (Keeps-pinned_item j prompt) λ it.
      Keeps-then (Keeps-save_snapshot j.repo j.item (j.pending_revision + 1) it) λ _.
        Keeps-then (Keeps-elsewhere (calls.set_session_prompt session prompt)) λ _.
          Keeps-then (Keeps-consume_follow_up session seq) λ _.
            Keeps-then
              (Keeps-elsewhere (calls.bind_prompt_attachments session seq (j.pending_revision + 1)))
              λ _. Yields-return _ (λ db p. (p, inr refl))

  Yields-apply_found :
      (j : Job) (session : ℕ) (found : Option FollowUpRow)
      → Yields
          (Holds T R)
          (apply_found calls j session found)
          (λ j' db. Holds T R db × FollowedUp j j')
  unfolding apply_found
  Yields-apply_found j session none = Yields-return j (λ db p. (p, inl refl))
  Yields-apply_found j session (some f) = Yields-apply_follow_up j session f.seq f.prompt

  pub Yields-apply_next_follow_up :
      (j : Job)
      → Yields (Holds T R) (apply_next_follow_up calls j) (λ j' db. Holds T R db × FollowedUp j j')
  unfolding apply_next_follow_up
  Yields-apply_next_follow_up j = Keeps-then (Keeps-get_turn j.id) λ turn.
      Keeps-then (Keeps-next_follow_up turn.session) λ f. Yields-apply_found j turn.session f

  Yields-promote_found :
      (j : Job) (session : ℕ) (found : Option FollowUpRow)
      → Yields
          (Holds T R)
          (promote_found calls j session found)
          (λ j' db. Holds T R db × FollowedUp j j')
  unfolding promote_found
  Yields-promote_found j session none = Yields-return j (λ db p. (p, inl refl))
  Yields-promote_found j session (some f) =
      Yields-if _ (λ _. Yields-return j (λ db p. (p, inl refl)))
        λ _. Keeps-then (Keeps-has_earlier_unacknowledged_steer session f.seq) λ b.
          Yields-if b (λ _. Yields-return j (λ db p. (p, inl refl)))
            λ _. Yields-apply_follow_up j session f.seq f.prompt

  pub Yields-promote_follow_up :
      (j : Job) (session : ℕ)
      → Yields
          (Holds T R)
          (promote_follow_up calls j session)
          (λ j' db. Holds T R db × FollowedUp j j')
  unfolding promote_follow_up
  Yields-promote_follow_up j session =
      Yields-if _ (λ _. Yields-return j (λ db p. (p, inl refl)))
        λ _. Keeps-then (Keeps-next_follow_up session) λ f. Yields-promote_found j session f

  Keeps-reserve_fan_out : (j : Job) (session : ℕ) → Keeps (reserve_fan_out calls j session)
  unfolding reserve_fan_out
  Keeps-reserve_fan_out j session = record { at = λ T R db p. ground arith }

  -- A prompt revises a turn: it may queue one that is not leased, and never touches a lease.
  pub revised :
      (j j' : Job)
      → find_job j.id T ≡ some j
      → FollowedUp j j'
      → Outcome T R (put (unless_leased calls j') T) R
  revised j j' e f =
      silent j (unless_leased calls j')
        (Replaced-put j (unless_leased calls j') T e (ground arith) (ground arith))
        (revise (ground arith) (ground arith) (ground arith) (ground arith)) refl

  pub Yields-enqueue_prompt :
      (j : Job) (session : ℕ) (prompt : String) (held : Bool) (files : List PromptFile) (now : ℕ)
      → find_job j.id T ≡ some j
      → Yields
          (Holds T R)
          (enqueue_prompt calls j session prompt held files now)
          (λ _ db. Reached T R db)
  unfolding enqueue_prompt
  Yields-enqueue_prompt j session prompt held files now e =
      Keeps-then (Keeps-reserve_fan_out j session) λ _.
        Keeps-then (Keeps-enqueue_follow_up session prompt held) λ seq.
          Keeps-then (Keeps-elsewhere (calls.insert_prompt_attachments j session seq files now))
            λ _.
              Yields-fact (Yields-promote_follow_up j session)
                λ j' f. Yields-settle (unless_leased calls j') (revised j j' e f) (Keeps-return _)
