-- ===== src/Engine/Paused.antt =====
-- A claim of a paused project.
use rusui.Common.{
  ℕ, ◌≡◌, ◌≢◌, refl, true, Option, none, some, List, String, ok, err, arith, ◌∙◌, ap, str_eq,
  eq_iff, string_append, Bool-cases, inl, inr,
}
use rusui.Store.{Db, paused, Tx, ◌>>=◌}
use rusui.Store.Run.{bind-ok, bind-err, run_tx-err}
use rusui.Policy.{Effective, Repo}
use rusui.Policy.Parse.{find_repo}
use rusui.Policy.Review.{review_access}
use rusui.Engine.{Calls}
use rusui.Engine.Pause.{is_paused, is_project_paused}
use rusui.Engine.Claim.{Claim, replay_claim}
use rusui.Engine.Scope.{SessionRow, Desk, Scope, claim_scope, pause_slug}
use rusui.Engine.ClaimToken.{
  scope_tx, decide_tx, claim_scope_tx, claim_next, or_next, claim_tx, claim_token,
}

module _ {X G : Type 0} (calls : Calls X) (desk : Desk X) (policy : Effective G) (now : ℕ)
    (exec_deadline : ℕ) (repo day token : String) where
  abbrev deciding : Scope → Tx X (Option Claim)
  deciding s = decide_tx calls desk policy now repo day s >>= λ decision.
      claim_scope_tx calls desk policy now exec_deadline repo day token s decision

  claim_scope-paused :
      (sessions : List SessionRow) → claim_scope desk policy repo true sessions ≡ err paused
  unfolding claim_scope review_access
  claim_scope-paused sessions = ground arith

  -- What pauses a claim key: the switch of all projects, or the switch of the project that the key names
  -- or that its repository is bound to, where both can be read.
  pub data PausedBy (x : X) : Type 0 where
    everywhere : calls.overlay_get "pause:global" x ≡ ok "1" → PausedBy x
    key_project :
        (slug other : String)
        → desk.parse_project_key repo ≡ some slug
        → slug ≢ ""
        → calls.overlay_get "pause:global" x ≡ ok other
        → calls.overlay_get (string_append "pause:" slug) x ≡ ok "1"
        → PausedBy x
    bound_project :
        (r : Repo) (other : String)
        → desk.parse_project_key repo ≡ none
        → find_repo policy repo ≡ some r
        → r.project ≢ ""
        → calls.overlay_get "pause:global" x ≡ ok other
        → calls.overlay_get (string_append "pause:" r.project) x ≡ ok "1"
        → PausedBy x

  project_switch :
      (x : X) (slug : String)
      → slug ≢ ""
      → calls.overlay_get (string_append "pause:" slug) x ≡ ok "1"
      → is_project_paused calls slug x ≡ ok true
  unfolding is_project_paused
  project_switch x slug n h = elim (Bool-cases (str_eq slug "")) [
    | inl e ↦ absurd (n ((eq_iff slug "").0 e))
    | inr e ↦ rw (e, h) refl
  ]

  both_switches :
      (x : X) (slug other : String)
      → calls.overlay_get "pause:global" x ≡ ok other
      → is_project_paused calls slug x ≡ ok true
      → is_paused calls slug x ≡ ok true
  unfolding is_paused
  both_switches x slug other g h = elim (Bool-cases (str_eq other "1")) [
    | inl e ↦ rw (is_paused, g, e) refl
    | inr e ↦ rw (is_paused, g, e) h
  ]

  PausedBy-is_paused :
      (x : X) → PausedBy x → is_paused calls (pause_slug desk policy repo) x ≡ ok true
  unfolding is_paused
  PausedBy-is_paused x (everywhere h) = rw (is_paused, h) refl
  PausedBy-is_paused x (key_project slug other k n g h) =
      ap (λ s. is_paused calls s x) (rw (pause_slug, k) refl)
      ∙ both_switches x slug other g (project_switch x slug n h)
  PausedBy-is_paused x (bound_project r other k m n g h) =
      ap (λ s. is_paused calls s x) (rw (pause_slug, k, m) refl)
      ∙ both_switches x r.project other g (project_switch x r.project n h)

  scope_tx-paused :
      (db : Db X) → PausedBy db.rest → scope_tx calls desk policy now repo db ≡ err paused
  unfolding scope_tx
  scope_tx-paused db h =
      let switched = PausedBy-is_paused db.rest h in
      let refuse = claim_scope-paused (desk.sessions db.rest) in ground (arith, switched, refuse)

  -- A claim is refused as paused and changes nothing while all projects are paused, while the project
  -- that its key names is, or while the project that its repository is bound to is, unless it repeats
  -- a claim whose lease is live.
  pub claim_token-paused :
      (db : Db X)
      → replay_claim calls now token db ≡ ok (none, db)
      → PausedBy db.rest
      → claim_token calls desk policy now exec_deadline repo day token db ≡ (db, err paused)
  unfolding claim_token claim_tx claim_next
  claim_token-paused db r h =
      run_tx-err (claim_tx calls desk policy now exec_deadline repo day token) db paused (
        bind-ok (replay_claim calls now token)
          (λ found.
            or_next calls desk policy now
              (claim_next calls desk policy now exec_deadline repo day token) found)
          db none db r
        ∙ bind-err (scope_tx calls desk policy now repo) (λ s. deciding s) db paused
            (scope_tx-paused db h))
