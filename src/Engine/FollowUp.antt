-- ===== src/Engine/FollowUp.antt =====
-- internal/engine/followup.go: how a prompt waits, becomes the pending revision, and is applied when
-- a turn ends.
use rusui.Common.{
  ℕ, ◌+◌, Bool, true, false, ◌&&◌, ◌||◌, not, Option, none, some, List, [], String, ok, err,
  if◌then◌else◌, ◌==◌, leb,
}
use rusui.Store.{State, queued, Job, Item, FollowUpRow, Tx, ◌>>=◌, ◌>>◌, return, elsewhere}
use rusui.Store.Turns.{get_job, get_turn, update_job, load_snapshot, save_snapshot, is_leased}
use rusui.Store.FollowUps.{
  next_follow_up, enqueue_follow_up, consume_follow_up, drop_queued_prompts,
}
use rusui.Store.Steers.{has_earlier_unacknowledged_steer}
use rusui.Engine.{Calls, PromptFile}

abbrev pub is_queued : State → Bool
is_queued queued = true
is_queued _ = false

unfoldable pub has_unclaimed_follow_up : Job → Bool
has_unclaimed_follow_up j =
    if leb j.pending_revision j.claimed_revision
    then false
    else not (j.claimed_revision == 0) || not (j.pending_revision == 1)

-- The snapshot that stands for a prompt; the fields that the literal leaves out are zero.
abbrev pub prompt_item : Job → String → Item
prompt_item j prompt = record {
  repo = j.repo;
  item = j.item;
  item_kind = j.item_kind;
  state = "open";
  title = "follow-up";
  body = prompt;
  labels = [];
  assignees = [];
  author_association = "";
  draft = false;
  merged = false;
  head_sha = "";
  base_sha = "";
  updated_at = "";
  non_bot_comment_count = 0;
  linked_same_repo_items = [];
  default_branch = "main";
  main_sha = "";
  created_at = "";
  last_non_bot_comment_at = "";
  merged_into_default = false;
  merge_commit_sha = "";
  base_ref = "";
}

-- The pending snapshot lends its commits, if it can be read.
abbrev pub pinned_item : {X : Type 0} → Job → String → Tx X Item
pinned_item j prompt db = elim (load_snapshot j.repo j.item j.pending_revision db) [
  | ok (pend, _) ↦ ok (
    record (prompt_item j prompt) {
      main_sha = pend.main_sha;
      head_sha = pend.head_sha;
      default_branch = pend.default_branch;
    },
    db,
  )
  | err _ ↦ ok (prompt_item j prompt, db)
]

module _ {X : Type 0} (calls : Calls X) where
  unfoldable pub apply_follow_up : Job → ℕ → ℕ → String → Tx X Job
  apply_follow_up j session seq prompt = do
    let rev = j.pending_revision + 1
    it ← pinned_item j prompt
    save_snapshot j.repo j.item rev it
    elsewhere (calls.set_session_prompt session prompt)
    consume_follow_up session seq
    elsewhere (calls.bind_prompt_attachments session seq rev)
    return (record j { pending_revision = rev; retry_count = 0 })

  unfoldable pub apply_found : Job → ℕ → Option FollowUpRow → Tx X Job
  apply_found j session none = return j
  apply_found j session (some next) = apply_follow_up j session next.seq next.prompt

  unfoldable pub apply_next_follow_up : Job → Tx X Job
  apply_next_follow_up j = do
    turn ← get_turn j.id
    next ← next_follow_up turn.session
    apply_found j turn.session next

  -- A queued head waits for a turn in progress; any head waits for an earlier steer.
  unfoldable pub promote_found : Job → ℕ → Option FollowUpRow → Tx X Job
  promote_found j session none = return j
  promote_found j session (some next) =
      if next.queued && (is_leased j.state || is_queued j.state) then return j else (do
        earlier_steer ← has_earlier_unacknowledged_steer session next.seq
        if earlier_steer then return j else apply_follow_up j session next.seq next.prompt)

  unfoldable pub promote_follow_up : Job → ℕ → Tx X Job
  promote_follow_up j session =
      if has_unclaimed_follow_up j
      then return j
      else (do next ← next_follow_up session; promote_found j session next)

  -- A turn that has ended reserves its fan-out again before a prompt restarts it.
  unfoldable pub reserve_fan_out : Job → ℕ → Tx X (Unit {0})
  reserve_fan_out j session db =
      if not (is_queued j.state) && not (is_leased j.state)
      then elsewhere (calls.check_child_reactivation db.turns session) db
      else ok (tt, db)

  abbrev pub unless_leased : Job → Job
  unless_leased j = if is_leased j.state then j else record j { state = queued }

  unfoldable pub enqueue_prompt : Job → ℕ → String → Bool → List PromptFile → ℕ → Tx X (ℕ × Job)
  enqueue_prompt j session prompt held files now = do
    reserve_fan_out j session
    seq ← enqueue_follow_up session prompt held
    elsewhere (calls.insert_prompt_attachments j session seq files now)
    promoted ← promote_follow_up j session
    update_job (unless_leased promoted)
    return (seq, unless_leased promoted)

  -- The transaction of `DropQueuedPrompts`: a follow-up behind a dropped prompt takes its place.
  unfoldable pub drop_queued : ℕ → ℕ → Tx X ℕ
  drop_queued session turn = do
    n ← drop_queued_prompts session
    if n == 0 then return 0 else (do
      j ← get_job turn
      promoted ← promote_follow_up j session
      if promoted.pending_revision == j.pending_revision
          then return n
          else (update_job (unless_leased promoted) >> return n))
